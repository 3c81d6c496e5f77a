-- ===== src/Pipeline/Reads.antt =====
-- What the decoders read: nothing that an instruction in the pipeline is still to compute, and what
-- the last stage is about to write with its new value.
pub mod Forward
pub mod Branches
use mscs.Common.{
  ℕ, zero, suc, ◌+◌, ◌==◌, ◌≡◌, refl, ap, sym, ◌∙◌, ◌⊎◌, inl, inr, Bool, true, false, ◌||◌, List,
  [], ◌∷◌, ◌++◌, length, arith, if-true, if-false, Bool-cases,
}
use mathlib.Core.Path.{subst}
use mscs.Common.Int.{ℤ, pos, fits_int}
use mscs.Common.Outcome.{
  Outcome, guard, invalid_register, ok, ◌>>=◌, bind-ok, Post, holds, Post-bind, Post-map,
  Post-weaken,
}
use mscs.Common.Text.{Text, starts_with, print_int, atoi-print_int}
use mscs.Common.Dict.{lookup, lookup-assign}
use mscs.Simulator.Double.{Double}
use mscs.Simulator.Operand.{next_operand}
use mscs.Simulator.Operand.Encode.{
  IsOperand, three_operands, two_operands, next_operand-last, next_operand-comma,
}
use mscs.Pipeline.Buffers.Texts.{Holds}
use mscs.Pipeline.Cpu.{
  validate_register, DataLatch, Latch, null, integer_target, Cpu, set_integer, set_float,
  integer_register,
}
use mscs.Pipeline.WriteBack.{has_result, write_target, write_back}
use mscs.Pipeline.Hazard.{
  found_before, is_pending, stall, set_stall, write_early, detect_hazard, continue_unless,
  unless_pending,
}
use mscs.Pipeline.Decode.Compare.{valid_operand, set_target, register_target}
use mscs.Pipeline.Decode.{read_register, load_a, load_b, decode_arithmetic}
use mscs.Pipeline.Frame.{write_early-frame}

pub starts_with-append : (r s : Text) → starts_with r (r ++ s) ≡ true
unfolding starts_with
starts_with-append [] s = refl
starts_with-append (c ∷ r) s = ground (arith, starts_with-append r s)

found_before-append : (n : ℕ) (r s : Text) → found_before (suc n) r (r ++ s) ≡ true
unfolding found_before
found_before-append n r s = if-true (starts_with r (r ++ s)) _ _ (starts_with-append r s)

module _ {V : Type 0} where
  -- The name begins that of the target of an instruction in the execute or in the memory stage.
  abbrev pub InFlight : Text → Cpu V → Type 0
  InFlight r c =
      (s : Text) × ((c.decode_execute_buffered.target_register ≡ r ++ s)
        ⊎ (c.execute_mem_buffered.latch.target_register ≡ r ++ s))

  is_pending-InFlight : (r : Text) (c : Cpu V) → InFlight r c → is_pending r c ≡ true
  unfolding is_pending
  is_pending-InFlight r c (s, inl e) = rw (e, found_before-append 2 r s) refl
  is_pending-InFlight r c (s, inr e) = rw (e, found_before-append 2 r s) (ground arith)

  -- A bubble, and the fetch held.
  pub record Stalled (c : Cpu V) : Type 0 where
    pub held : c.stall_if ≡ true
    pub no_opcode : c.decode_execute.opcode ≡ []
    pub no_target : c.decode_execute.target ≡ null
    pub no_name : c.decode_execute.target_register ≡ []

module _ (D : Double) where
  open D use {Value}

  detect_hazard-Stalled :
      (r : Text) (c : Cpu Value)
      → is_pending r c ≡ true
      → Post (λ found. (found.0 ≡ true) × Stalled found.1) (detect_hazard D r c)
  unfolding detect_hazard set_stall stall set_integer set_float
  detect_hazard-Stalled r c h =
      let bubble : Stalled (stall c) = record {
        held = refl;
        no_opcode = refl;
        no_target = refl;
        no_name = refl;
      } in
      let again : (c' : Cpu Value)
          → c'.stall_if ≡ true
          → c'.decode_execute ≡ (stall c).decode_execute
          → Stalled c' =
        λ c' held e. record {
          held = held;
          no_opcode = ap (λ (l : Latch). l.opcode) e;
          no_target = ap (λ (l : Latch). l.target) e;
          no_name = ap (λ (l : Latch). l.target_register) e;
        } in
      rw h (
        Post-map (write_early D r (stall c))
          (write_early-frame D Stalled (stall c) bubble (λ q v. again _ refl refl)
            (λ q v. again _ refl refl) r)
          λ c' k. holds (refl, k))

  continue_unless-Stalled :
      (found : Bool × Cpu Value) (next : Cpu Value → Outcome (Cpu Value))
      → found.0 ≡ true
      → Stalled found.1
      → Post Stalled (continue_unless D found next)
  unfolding continue_unless
  continue_unless-Stalled (true, c) next e h = holds h
  continue_unless-Stalled (false, c) next e h = cc

  unless_pending-Stalled :
      (r : Text) (c : Cpu Value) (next : Cpu Value → Outcome (Cpu Value))
      → is_pending r c ≡ true
      → Post Stalled (unless_pending D r c next)
  unfolding unless_pending
  unless_pending-Stalled r c next h =
      Post-map (detect_hazard D r c) (detect_hazard-Stalled r c h)
        λ found k. continue_unless-Stalled found next k.0 k.1

  -- The latches whose targets are looked at.
  abbrev Ahead : Cpu Value → Cpu Value → Type 0
  Ahead c c' =
      (c'.decode_execute_buffered ≡ c.decode_execute_buffered)
      × (c'.execute_mem_buffered ≡ c.execute_mem_buffered)

  detect_hazard-free :
      (r : Text) (c : Cpu Value)
      → is_pending r c ≡ false
      → Post (λ found. (found.0 ≡ false) × Ahead c found.1) (detect_hazard D r c)
  unfolding detect_hazard set_stall set_integer set_float
  detect_hazard-free r c h = rw h (
      Post-map (write_early D r (record c { stall_if = false }))
        (write_early-frame D (Ahead c) (record c { stall_if = false }) (refl, refl)
          (λ q v. (refl, refl)) (λ q v. (refl, refl)) r)
        λ c' k. holds (refl, k))

  continue_unless-free :
      (found : Bool × Cpu Value) (next : Cpu Value → Outcome (Cpu Value))
      → found.0 ≡ false
      → Post Stalled (next found.1)
      → Post Stalled (continue_unless D found next)
  unfolding continue_unless
  continue_unless-free (true, c) next e h = cc
  continue_unless-free (false, c) next e h = h

  -- Behind a test that may find nothing.
  unless_pending-then :
      (r : Text) (c : Cpu Value) (next : Cpu Value → Outcome (Cpu Value))
      → ((c' : Cpu Value) → Ahead c c' → Post Stalled (next c'))
      → Post Stalled (unless_pending D r c next)
  unfolding unless_pending
  unless_pending-then r c next h = elim (Bool-cases (is_pending r c)) [
    | inl pending ↦ unless_pending-Stalled r c next pending
    | inr free ↦
        Post-map (detect_hazard D r c) (detect_hazard-free r c free)
          λ found k. continue_unless-free found next k.0 (h found.1 k.1)
  ]

  valid_operand-first :
      (is_double : Bool) (r rest : Text) (c : Cpu Value)
      → IsOperand 4 r
      → Post (λ p. p ≡ (r, rest)) (valid_operand 4 is_double (r ++ b',' ∷ rest) c)
  unfolding valid_operand
  valid_operand-first is_double r rest c h =
      rw (next_operand-comma 4 r rest h)
        (Post-bind (guard (validate_register is_double r c) invalid_register) λ x _. holds refl)

  valid_operand-only :
      (is_double : Bool) (r : Text) (c : Cpu Value)
      → IsOperand 4 r
      → Post (λ p. p ≡ (r, r)) (valid_operand 4 is_double r c)
  unfolding valid_operand
  valid_operand-only is_double r c h =
      rw (next_operand-last 4 r h)
        (Post-bind (guard (validate_register is_double r c) invalid_register) λ x _. holds refl)

  Ahead-InFlight : (r : Text) (c c' : Cpu Value) → Ahead c c' → InFlight r c → InFlight r c'
  Ahead-InFlight r c c' a (s, inl e) = (s, inl (ap (λ (l : Latch). l.target_register) a.0 ∙ e))
  Ahead-InFlight r c c' a (s, inr e) =
      (s, inr (ap (λ (l : DataLatch). l.latch.target_register) a.1 ∙ e))

  load_a-Ahead : (r : Text) (c : Cpu Value) → Post (Ahead c) (load_a D r c)
  unfolding load_a
  load_a-Ahead r c =
      Post-bind (read_register D c.decode_execute.is_double r c.temp_a c) λ x _. holds (refl, refl)

  -- `ADD`, `SUB`, `MUL` and `DIV`, of integers or of doubles, with three operands. If the name of
  -- one of the two sources is that of the target of an instruction in the execute or in the memory
  -- stage, or begins it (as `R1` begins `R10`), then, unless the program ends in an error, the
  -- instruction is not issued: a bubble takes its place, and the fetch is held.
  pub decode_arithmetic-Stalled :
      (t a b r : Text) (c : Cpu Value)
      → IsOperand 4 t
      → IsOperand 4 a
      → IsOperand 4 b
      → (r ≡ a) ⊎ (r ≡ b)
      → InFlight r c
      → Post Stalled (decode_arithmetic D (three_operands t a b) c)
  unfolding decode_arithmetic set_target
  decode_arithmetic-Stalled t a b r c ht ha hb which flying =
      let is_double = c.decode_execute.is_double in
      let c1 = set_target t (register_target is_double t) c in
      let flying1 : InFlight r c1 = Ahead-InFlight r c c1 (refl, refl) flying in
      Post-map (valid_operand 4 is_double (three_operands t a b) c)
        (valid_operand-first is_double t (two_operands a b) c ht)
        λ p e. rw e (
          Post-map (valid_operand 4 is_double (two_operands a b) c1)
            (valid_operand-first is_double a b c1 ha)
            λ q f. rw f (elim which [
              | inl same ↦
                  unless_pending-Stalled a c1 _
                    (is_pending-InFlight a c1 (subst (λ n. InFlight n c1) same flying1))
              | inr same ↦ unless_pending-then a c1 _ λ c2 ahead.
                  let flying2 : InFlight b c2 =
                    Ahead-InFlight b c1 c2 ahead (subst (λ n. InFlight n c1) same flying1) in
                  Post-map (load_a D a c2) (load_a-Ahead a c2) λ c3 ahead'.
                    let flying3 : InFlight b c3 = Ahead-InFlight b c2 c3 ahead' flying2 in
                    Post-map (valid_operand 4 c3.decode_execute.is_double b c3)
                      (valid_operand-only c3.decode_execute.is_double b c3 hb)
                      λ o g. rw g (
                        unless_pending-Stalled b c3 (load_b D b) (is_pending-InFlight b c3 flying3))
            ]))
