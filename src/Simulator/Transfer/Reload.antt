-- ===== src/Simulator/Transfer/Reload.antt =====
-- What a store leaves alone, and the load that follows it.
use mscs.Common.{
  ℕ, ◌+◌, ◌≤◌, ◌<◌, ◌≡◌, ◌⊎◌, refl, sym, ap, ◌∙◌, Bool, true, false, some, length, if◌then◌else◌,
  arith,
}
use mscs.Common.Int.{ℤ, pos, negsuc, ◌+ℤ◌, fits_int}
use mscs.Common.Dict.{Dict, lookup, lookup-assign}
use mscs.Common.Outcome.{ok, Post, holds, Post-bind, Post-map}
use mscs.Common.Text.{
  Text, Free, contains_text, atoi, print_int, atoi-print_int, print_int-nonzero, text_eq_refl,
}
use mscs.Simulator.Double.{Double}
use mscs.Simulator.Operand.{c_string, c_string-lt, dot_d}
use mscs.Simulator.Operand.Encode.{IsOperand}
use mscs.Simulator.Machine.{
  Machine, memory_size, validate_register, integer_register, float_register, set_integer,
  charge-Post,
}
use mscs.Simulator.Arithmetic.Encode.{charge_lem}
use mscs.Simulator.Transfer.{
  read_mem, write_mem, until_nul, padded, address, address_at, first_register, offset_and_base,
  load_integer, store_integer, store_float, execute_s, execute_l,
}
use mscs.Simulator.Transfer.Memory.{
  write_mem-outside, read_mem-write_mem, until_nul-padded, length-padded,
}
use mscs.Simulator.Transfer.Encode.{
  IsOffset, transfer_line, offset_base, first_register-transfer_line, offset_and_base-offset_base,
}

address_at-within : (n : ℕ) (i : ℤ) {a : ℕ} → address_at n i ≡ ok a → a + n ≤ memory_size
unfolding address_at
address_at-within n (pos a) h = ground arith
address_at-within n (negsuc a) h = cc

address-within :
    (n : ℕ) (base offset : ℤ) {a : ℕ} → address n base offset ≡ ok a → a + n ≤ memory_size
unfolding address
address-within n base offset h = address_at-within n (base +ℤ offset) h

module _ {V : Type 0} where
  -- At most eight bytes inside the memory may differ, and no register does.
  pub record Stored (m m' : Machine V) : Type 0 where
    pub start : ℕ
    pub size : ℕ
    pub small : size ≤ 8
    pub within : start + size ≤ memory_size
    pub outside : (x : ℕ) → (x < start) ⊎ (start + size ≤ x) → m'.mem x ≡ m.mem x
    pub integers : m'.integer_registers ≡ m.integer_registers
    pub floats : m'.float_registers ≡ m.float_registers
    pub counter : m'.program_counter ≡ m.program_counter

  write_mem-Stored :
      (n a : ℕ) (number : Text) (m : Machine V)
      → n ≤ 8
      → a + n ≤ memory_size
      → Stored m (record m { mem = write_mem a (padded n number) m.mem })
  write_mem-Stored n a number m small within = record {
    start = a;
    size = n;
    small = small;
    within = within;
    outside = λ x h. write_mem-outside a (padded n number) m.mem x (rw (length-padded n number) h);
    integers = refl;
    floats = refl;
    counter = refl;
  }

  Stored-cycles :
      {m m' : Machine V} (d : Dict ℤ) (c : ℤ)
      → Stored m m'
      → Stored m (record m' { opcode_cycles = d; cycle_count = c })
  Stored-cycles d c h = record {
    start = h.start;
    size = h.size;
    small = h.small;
    within = h.within;
    outside = h.outside;
    integers = h.integers;
    floats = h.floats;
    counter = h.counter;
  }

module _ (D : Double) where
  open D use {Value, zero_value, print}

  store-Stored :
      (is_double : Bool) (source offset base : Text) (m : Machine Value)
      → Post (Stored m) (
          if is_double
          then store_float D source offset base m
          else store_integer source offset base m)
  unfolding store_float store_integer
  store-Stored true source offset base m =
      Post-bind (c_string 9 (print (float_register zero_value source m))) λ number _.
        Post-bind (atoi offset) λ k _. Post-bind (address 8 (integer_register base m) k) λ a e.
          holds (
            write_mem-Stored 8 a number m (omega arith)
              (address-within 8 (integer_register base m) k e))
  store-Stored false source offset base m =
      Post-bind (c_string 5 (print_int (integer_register source m))) λ number _.
        Post-bind (atoi offset) λ k _. Post-bind (address 4 (integer_register base m) k) λ a e.
          holds (
            write_mem-Stored 4 a number m (omega arith)
              (address-within 4 (integer_register base m) k e))

  -- A store that succeeds changes at most eight bytes, which lie side by side inside the memory, and
  -- no register.
  pub execute_s-Stored :
      (op line : Text) (m : Machine Value) → Post (Stored m) (execute_s D op line m)
  unfolding execute_s
  execute_s-Stored op line m =
      let is_double = contains_text dot_d op in
      Post-bind (first_register is_double line m) λ r _. Post-bind (offset_and_base r.1 m) λ b _.
        Post-map (if is_double then store_float D r.0 b.0 b.1 m else store_integer r.0 b.0 b.1 m)
          (store-Stored is_double r.0 b.0 b.1 m)
          λ m' h. charge-Post op m' λ d c. Stored-cycles d c h

  module _ (source target offset base op_s op_l : Text) (k cost_s cost_l : ℤ) (a : ℕ)
      (m : Machine Value) (source_name : IsOperand 4 source) (target_name : IsOperand 4 target)
      (offset_name : IsOffset offset) (base_free : Free b')' base) (base_short : length base < 3)
      (source_valid : validate_register false source m ≡ true)
      (target_valid : validate_register false target m ≡ true)
      (base_valid : validate_register false base m ≡ true) (offset_value : atoi offset ≡ ok k)
      (in_memory : address 4 (integer_register base m) k ≡ ok a)
      (s_int : contains_text dot_d op_s ≡ false) (l_int : contains_text dot_d op_l ≡ false)
      (s_short : length op_s < 10) (l_short : length op_l < 10)
      (s_cost : lookup op_s m.opcode_cycles ≡ some cost_s)
      (l_cost : lookup op_l m.opcode_cycles ≡ some cost_l)
      (is_int : fits_int (integer_register source m) ≡ true)
      (four : length (print_int (integer_register source m)) < 5) where
    abbrev after_store : Machine Value
    after_store = record m {
      mem = write_mem a (padded 4 (print_int (integer_register source m))) m.mem;
      cycle_count = m.cycle_count +ℤ cost_s;
    }

    store_runs : execute_s D op_s (transfer_line source offset base) m ≡ ok after_store
    unfolding execute_s store_integer
    store_runs =
        rw
          (
            s_int,
            first_register-transfer_line false source (offset_base offset base) m source_name
                source_valid,
            offset_and_base-offset_base offset base m offset_name base_free,
            c_string-lt 3 base base_short,
            base_valid,
            c_string-lt 5 (print_int (integer_register source m)) four,
            offset_value,
            in_memory,
          )
          (charge_lem op_s cost_s
            (record m {
              mem = write_mem a (padded 4 (print_int (integer_register source m))) m.mem;
            })
            s_short s_cost)

    reads_back : until_nul (read_mem 4 a after_store.mem) ≡ print_int (integer_register source m)
    reads_back =
        let number = print_int (integer_register source m) in
        ap until_nul (
          ap (λ n. read_mem n a after_store.mem) (sym (length-padded 4 number))
          ∙ read_mem-write_mem a (padded 4 number) m.mem)
        ∙ until_nul-padded 4 number (print_int-nonzero (integer_register source m) is_int)
            (omega arith)

    -- Storing an integer register whose decimal text has four characters at most, and loading from
    -- the same place: both run, and the target holds the number that was stored.
    pub reload :
        (m1 : Machine Value) × (m2 : Machine Value) × (execute_s D op_s
            (transfer_line source offset base)
            m
          ≡ ok m1)
        × (execute_l D op_l (transfer_line target offset base) m1 ≡ ok m2)
        × (lookup target m2.integer_registers ≡ some (integer_register source m))
    unfolding execute_l load_integer
    reload =
        let v = integer_register source m in
        (
          after_store,
          record (set_integer target v after_store) {
            cycle_count = after_store.cycle_count +ℤ cost_l;
          },
          store_runs,
          rw
              (
                l_int,
                first_register-transfer_line false target (offset_base offset base) after_store
                    target_name target_valid,
                offset_and_base-offset_base offset base after_store offset_name base_free,
                c_string-lt 3 base base_short,
                base_valid,
                offset_value,
                in_memory,
                reads_back,
                atoi-print_int v is_int,
              )
              (charge_lem op_l cost_l (set_integer target v after_store) l_short l_cost),
          rw (lookup-assign target target v m.integer_registers, text_eq_refl target),
        )
