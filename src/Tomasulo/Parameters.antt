-- ===== src/Tomasulo/Parameters.antt =====
-- `initializeOPCODE` and `parseArchParams`: the cycles of the opcodes, then the numbers of the
-- units, which are made in that order and numbered from 1.
use mscs.Common.{
  ℕ, zero, suc, ◌+◌, Bool, true, false, ◌==◌, if◌then◌else◌, Option, none, some, List, [], ◌∷◌,
  ◌++◌,
}
use mscs.Common.Int.{ℤ, pos, negsuc, pos_part, eqb_ℤ}
use mscs.Common.Outcome.{Outcome, ok, ◌>>=◌}
use mscs.Common.Text.{Text, codes, text_eq, starts_with, find, find_last}
use mscs.Common.Dict.{Dict, insert, lookup}
use mscs.Simulator.Double.{Double}
use mscs.Simulator.Params.{read_entry}
use mscs.Tomasulo.Types.{
  Opcode, noop, add, add_d, div, div_d, sub, sub_d, mul, mul_d, load_immediate, load, store, load_d,
  store_d, beq, bneq, bgtz, bltz, move, beq_d, bneq_d, bgtz_d, bltz_d, move_d, code, null, dval,
  blank_instruction, FunctionalUnit, MemoryUnit, ArithmeticUnit, Stations,
}

abbrev pub opcode_map : Dict Opcode
opcode_map =
    (codes "NOOP", noop)
    ∷ (codes "ADD", add)
    ∷ (codes "ADD.D", add_d)
    ∷ (codes "DIV", div)
    ∷ (codes "DIV.D", div_d)
    ∷ (codes "SUB", sub)
    ∷ (codes "SUB.D", sub_d)
    ∷ (codes "MUL", mul)
    ∷ (codes "MUL.D", mul_d)
    ∷ (codes "LI", load_immediate)
    ∷ (codes "L", load)
    ∷ (codes "S", store)
    ∷ (codes "L.D", load_d)
    ∷ (codes "S.D", store_d)
    ∷ (codes "BEQ", beq)
    ∷ (codes "BNEQ", bneq)
    ∷ (codes "BGTZ", bgtz)
    ∷ (codes "BLTZ", bltz)
    ∷ (codes "MOVE", move)
    ∷ (codes "BEQ.D", beq_d)
    ∷ (codes "BNEQ.D", bneq_d)
    ∷ (codes "BGTZ.D", bgtz_d)
    ∷ (codes "BLTZ.D", bltz_d)
    ∷ (codes "MOVE.D", move_d)
    ∷ []

unfoldable pub find_opcode : Text → Option Opcode
unfolding lookup
find_opcode op = lookup op opcode_map

-- What the file sets: `next_id` is the counter `FUid`.
pub record Parameters (V : Type 0) : Type 0 where
  pub opcode_cycles : Opcode → Option ℤ
  pub unit_counts : Dict ℤ
  pub stations : Stations V
  pub next_id : ℕ

-- `opcode_cycles.insert(make_pair(op,iCycles))`
unfoldable pub insert_cycles : Opcode → ℤ → (Opcode → Option ℤ) → Opcode → Option ℤ
insert_cycles op cycles table o =
    if code o == code op
    then (elim (table op) [ none ↦ some cycles | some c ↦ some c ])
    else table o

module _ (D : Double) where
  open D use {Value, zero_value}

  -- `FunctionalUnit()`
  unfoldable pub new_unit : ℕ → FunctionalUnit Value
  new_unit id = record {
    ins = blank_instruction;
    my_id = id;
    busy = false;
    final_value = dval zero_value;
    do_not_execute = false;
    i_count = 0;
    remaining = 0;
    wait_to_write_back = false;
  }

  unfoldable pub new_memory_unit : ℕ → MemoryUnit Value
  unfolding new_unit
  new_memory_unit id = record { fu = new_unit id; mem_address = negsuc 0 }

  unfoldable pub new_arithmetic_unit : {S : Type 0} → S → ℕ → ArithmeticUnit Value S
  unfolding new_unit
  new_arithmetic_unit zero_s id = record {
    fu = new_unit id;
    j = record { v = null; q = null; s = zero_s };
    k = record { v = null; q = null; s = zero_s };
  }

  -- `for(j=0;j<iCycles;j++)`, one unit each.
  unfoldable pub make_units : {U : Type 0} → (ℕ → U) → ℕ → ℕ → List U
  make_units new zero id = []
  make_units new (suc n) id = new id ∷ make_units new n (id + 1)

  -- The ladder of names; another name is an error.
  unfoldable pub add_units : Text → ℕ → ℕ → Stations Value → Option (Stations Value)
  unfolding make_units new_memory_unit new_arithmetic_unit text_eq
  add_units kind n id s =
      if text_eq kind (codes "loads")
      then some (record s { load_rs = s.load_rs ++ make_units new_memory_unit n id })
      else if text_eq kind (codes "stores")
      then some (record s { store_rs = s.store_rs ++ make_units new_memory_unit n id })
      else if text_eq kind (codes "intadds")
      then some (record s { iadd_rs = s.iadd_rs ++ make_units (new_arithmetic_unit (pos 0)) n id })
      else if text_eq kind (codes "intmuls")
      then some (record s { imul_rs = s.imul_rs ++ make_units (new_arithmetic_unit (pos 0)) n id })
      else if text_eq kind (codes "intdivs")
      then some (record s { idiv_rs = s.idiv_rs ++ make_units (new_arithmetic_unit (pos 0)) n id })
      else if text_eq kind (codes "fpadds")
      then some
          (record s { fadd_rs = s.fadd_rs ++ make_units (new_arithmetic_unit zero_value) n id })
      else if text_eq kind (codes "fpmuls")
      then some
          (record s { fmul_rs = s.fmul_rs ++ make_units (new_arithmetic_unit zero_value) n id })
      else if text_eq kind (codes "fpdivs")
      then some
          (record s { fdiv_rs = s.fdiv_rs ++ make_units (new_arithmetic_unit zero_value) n id })
      else none

  -- An entry of the first part, and one of the second part.
  unfoldable pub add_opcode : Text → ℤ → Parameters Value → Option (Parameters Value)
  unfolding find_opcode insert_cycles
  add_opcode op cycles p = elim (find_opcode op) [
    | none ↦ none
    | some o ↦ some (record p { opcode_cycles = insert_cycles o cycles p.opcode_cycles })
  ]

  unfoldable pub add_kind : Text → ℤ → Parameters Value → Option (Parameters Value)
  unfolding add_units insert
  add_kind kind count p = elim (add_units kind (pos_part count) p.next_id p.stations) [
    | none ↦ none
    | some s ↦ some (record p {
      unit_counts = insert kind count p.unit_counts;
      stations = s;
      next_id = p.next_id + pos_part count;
    })
  ]

  -- What becomes of an entry; 0 is an error.
  unfoldable pub accept_entry :
      Bool → Option (Text × ℤ) → Parameters Value → Option (Parameters Value)
  unfolding add_opcode add_kind
  accept_entry is_opcode none p = none
  accept_entry is_opcode (some (name, n)) p =
      if eqb_ℤ n (pos 0) then none else if is_opcode then add_opcode name n p else add_kind name n p

  -- The loop over the lines; a line that begins with `-` ends the opcodes. An error ends `main`.
  unfoldable pub parse_arch_params :
      Bool → List Text → Parameters Value → Outcome (Option (Parameters Value))
  unfolding accept_entry read_entry find find_last starts_with
  parse_arch_params is_opcode [] p = ok (some p)
  parse_arch_params is_opcode (line ∷ lines) p = elim (starts_with (codes "-") line) [
    | true ↦ parse_arch_params false lines p
    | false ↦ do
      entry ← read_entry line (find 32 line) (find_last 32 line)
      elim (accept_entry is_opcode entry p) as (λ _. Outcome (Option (Parameters Value))) [
        | none ↦ ok none
        | some p' ↦ parse_arch_params is_opcode lines p'
      ]
  ]
