-- ===== src/Pipeline/Flow.antt =====
-- An arithmetic instruction of integers on its way through the stages: decoded, executed, and
-- written back.
pub mod Alone
pub mod Decoded
pub mod Opcodes
pub mod Operands
pub mod Passage
pub mod Sequential
use mscs.Common.{
  ℕ, zero, suc, ◌+◌, ◌<◌, ◌≡◌, ◌≢◌, refl, sym, ap, ◌∙◌, Bool, true, false, Option, none, some, List,
  [], ◌∷◌, ◌++◌, length, arith, if◌then◌else◌, if-true, if-false, Bool-cases, inl, inr, ltb, ◌/◌,
  ◌%◌,
}
use mathlib.Core.Path.{subst}
use mscs.Common.Int.{ℤ, pos, negsuc, fits_int, ◌+ℤ◌, ◌*ℤ◌}
use mscs.Common.Outcome.{Outcome, ok, ◌>>=◌, bind-ok}
use mscs.Common.Text.{
  Text, codes, atoi, print_int, decimal, atoi-print_int, contains_text, starts_with,
}
use mscs.Common.Dict.{Dict, lookup, assign, contains}
use mscs.Simulator.Double.{Double}
use mscs.Simulator.Operand.{dot_d}
use mscs.Simulator.Operand.Encode.{
  IsOperand, three_operands, two_operands, next_operand-comma, next_operand-last,
}
use mscs.Simulator.Machine
use mscs.Simulator.Machine.{Machine}
use mscs.Simulator.Arithmetic.{checked_int, add_int, mul_int, execute_add}
use mscs.Simulator.Arithmetic.Encode.{IsRegister, execute_add-Computed}
use mscs.Simulator.Execute.{Opcode, add, mul, decode}
use mscs.Pipeline.Buffers.{zeros, print_into, c_text, is_empty}
use mscs.Pipeline.Buffers.Texts.{print_int-Printed, Holds, print_into-Holds}
use mscs.Pipeline.Cpu.{
  Latch, DataLatch, Target, integer_target, Cpu, validate_register, integer_register, set_integer,
}
use mscs.Pipeline.WriteBack.{has_result, write_target, write_back}
use mscs.Pipeline.Hazard.{
  found_before, is_pending, set_stall, write_early, detect_hazard, continue_unless, unless_pending,
}
use mscs.Pipeline.Decode.Compare.{valid_operand, set_target, register_target}
use mscs.Pipeline.Decode.{read_register, load_a, load_b, decode_arithmetic}
use mscs.Pipeline.Alu.{buffer_int, int_output, arithmetic_output, alu_output, finish}
use mscs.Pipeline.MemoryStage.{access, memory_access}
use mscs.Pipeline.Cycle.{buffer_decode}

-- A number printed in the buffers, computed with, and printed again.
pub int_output-Holds :
    (f : ℤ → ℤ → Outcome ℤ) (a b : List ℕ) (x y v : ℤ)
    → Holds a x
    → Holds b y
    → fits_int x ≡ true
    → fits_int y ≡ true
    → fits_int v ≡ true
    → f x y ≡ ok v
    → (out : List ℕ) × (int_output f a b ≡ ok out) × Holds out v
unfolding int_output buffer_int
int_output-Holds f a b x y v ha hb fx fy fv e =
    let (out, printed, h) = print_into-Holds v zeros refl fv in
    (out, rw (ha.text, hb.text, atoi-print_int x fx, atoi-print_int y fy, e, printed) refl, h)

module _ (D : Double) where
  open D use {Value}

  -- A register that no instruction in the pipeline is going to write.
  pub record IsFree (r : Text) (c : Cpu Value) : Type 0 where
    pub not_pending : is_pending r c ≡ false
    pub not_last : found_before 3 r c.mem_wb_buffered.latch.target_register ≡ false

  pub unless_pending-IsFree :
      (r : Text) (c : Cpu Value) (next : Cpu Value → Outcome (Cpu Value))
      → IsFree r c
      → unless_pending D r c next ≡ next (record c { stall_if = false })
  unfolding unless_pending detect_hazard write_early set_stall continue_unless
  unless_pending-IsFree r c next h = rw (h.not_pending, h.not_last) refl

  -- A name that the decoder accepts.
  abbrev pub IsName : Cpu Value → Text → Type 0
  IsName c r = IsOperand 4 r × (validate_register c.decode_execute.is_double r c ≡ true)

  valid_operand-comma :
      (r rest : Text) (c : Cpu Value)
      → IsName c r
      → valid_operand 4 c.decode_execute.is_double (r ++ b',' ∷ rest) c ≡ ok (r, rest)
  unfolding valid_operand
  valid_operand-comma r rest c h = rw (next_operand-comma 4 r rest h.0, h.1) refl

  valid_operand-last :
      (r : Text) (c : Cpu Value)
      → IsName c r
      → valid_operand 4 c.decode_execute.is_double r c ≡ ok (r, r)
  unfolding valid_operand
  valid_operand-last r c h = rw (next_operand-last 4 r h.0, h.1) refl

  -- An integer register that the decoder reads: it is free, and there is room for its digits.
  pub record IsSource (r : Text) (c : Cpu Value) : Type 0 where
    pub name : IsName c r
    pub free : IsFree r c
    pub fits : fits_int (integer_register r c) ≡ true

  pub load_a-Holds :
      (r : Text) (c : Cpu Value)
      → c.decode_execute.is_double ≡ false
      → length c.temp_a ≡ 20
      → fits_int (integer_register r c) ≡ true
      → (b : List ℕ) × (load_a D r c ≡ ok (record c { temp_a = b }))
        × Holds b (integer_register r c)
  unfolding load_a read_register
  load_a-Holds r c int size fits =
      let (b, e, h) = print_into-Holds (integer_register r c) c.temp_a size fits in
      (b, bind-ok _ _ (if-false c.decode_execute.is_double _ _ int ∙ e) refl, h)

  load_b-Holds :
      (r : Text) (c : Cpu Value)
      → c.decode_execute.is_double ≡ false
      → length c.temp_b ≡ 20
      → fits_int (integer_register r c) ≡ true
      → (b : List ℕ) × (load_b D r c ≡ ok (record c { temp_b = b }))
        × Holds b (integer_register r c)
  unfolding load_b read_register
  load_b-Holds r c int size fits =
      let (b, e, h) = print_into-Holds (integer_register r c) c.temp_b size fits in
      (b, bind-ok _ _ (if-false c.decode_execute.is_double _ _ int ∙ e) refl, h)

  -- The decoder on three operands, when nothing is pending.
  pub decode_arithmetic-Holds :
      (t a b : Text) (c : Cpu Value)
      → c.decode_execute.is_double ≡ false
      → IsName c t
      → IsSource a c
      → IsSource b c
      → length c.temp_a ≡ 20
      → length c.temp_b ≡ 20
      → (x y : List ℕ) × (decode_arithmetic D (three_operands t a b) c
          ≡ ok (record (set_target t (register_target c.decode_execute.is_double t) c) {
            stall_if = false;
            temp_a = x;
            temp_b = y;
          }))
        × Holds x (integer_register a c)
        × Holds y (integer_register b c)
  unfolding decode_arithmetic set_target is_pending integer_register validate_register
  decode_arithmetic-Holds t a b c int ht ha hb sa sb =
      let c0 = set_target t (register_target c.decode_execute.is_double t) c in
      let c1 = record c0 { stall_if = false } in
      let (x, ex, hx) = load_a-Holds a c1 int sa ha.fits in
      let c2 = record c1 { temp_a = x } in
      let (y, ey, hy) = load_b-Holds b c2 int sb hb.fits in
      (
        x,
        y,
        bind-ok _ _ (valid_operand-comma t (two_operands a b) c ht) (
            bind-ok _ _ (valid_operand-comma a b c0 ha.name) (
              unless_pending-IsFree a c0 _
                (record { not_pending = ha.free.not_pending; not_last = ha.free.not_last })
              ∙ bind-ok _ _ ex (
                  bind-ok _ _ (valid_operand-last b c2 hb.name) (
                    unless_pending-IsFree b c2 _
                      (record { not_pending = hb.free.not_pending; not_last = hb.free.not_last })
                    ∙ ey)))),
        hx,
        hy,
      )

  pub write_target-Holds :
      (t : Text) (v : ℤ) (out : List ℕ) (c : Cpu Value)
      → fits_int v ≡ true
      → Holds out v
      → write_target D false (integer_target t) out c ≡ ok (set_integer t v c)
  unfolding write_target
  write_target-Holds t v out c fits h = bind-ok _ _ h.text (
      if-false (is_empty (print_int v)) _ _ (print_int-Printed v)
      ∙ bind-ok _ _ (atoi-print_int v fits) refl)
