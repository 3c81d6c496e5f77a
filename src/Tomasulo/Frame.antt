-- ===== src/Tomasulo/Frame.antt =====
-- What a functional unit leaves alone when it executes: a bus that has something to write, and,
-- where it is idle, everything.
use mathlib.Core.Path.{subst}
use mscs.Common.{
  if_either, ◌≡◌, refl, sym, ap, ◌∙◌, ◌⊎◌, inl, inr, Bool, true, false, not, ◌&&◌, ◌||◌,
  if◌then◌else◌, [], ◌∷◌, Bool-cases, if-true, if-false,
}
use mscs.Common.Int.{ℤ}
use mscs.Common.Outcome.{Outcome, ok, Post, holds, Post-bind, Post-weaken}
use mscs.Common.Text.{Text}
use mscs.Common.Dict.{Dict}
use mscs.Simulator.Double.{Double}
use mscs.Tomasulo.Types.{
  load_immediate, beq, bneq, bgtz, bltz, move, Register, Pointer, FinalValue, Instruction, Machine,
  FunctionalUnit, ArithmeticUnit,
}
use mscs.Tomasulo.Registers.{
  File, integer_file, float_file, set_register, set_wait_on, may_take, is_null, eq_opcode,
  send_to_write_back,
}
use mscs.Tomasulo.Units.{
  keep_running, at_start, begin, fetch_both, count_down, run_cycle, send_or_wait,
}
use mscs.Tomasulo.Adders.{
  is_one_of, release_branch, jump_if, fetch_some, advance, iadd_ready, iadd_cycle, iadd_branch,
}

-- A step of a unit that is at work: a busy bus is kept, and the flag of the loop.
pub record Inside {V : Type 0} (m m' : Machine V) : Type 0 where
  pub bus : (m.write_back.busy ≡ false) ⊎ (m'.write_back ≡ m.write_back)
  pub flag : m'.trigger_end ≡ m.trigger_end

-- A step of any unit.
pub record Kept {V : Type 0} (m m' : Machine V) : Type 0 where
  pub bus : (m.write_back.busy ≡ false) ⊎ (m'.write_back ≡ m.write_back)
  pub change : (m' ≡ m) ⊎ (m'.trigger_end ≡ false)

module _ {V : Type 0} where
  pub Inside-refl : (m : Machine V) → Inside m m
  Inside-refl m = record { bus = inr refl; flag = refl }

  pub Kept-refl : (m : Machine V) → Kept m m
  Kept-refl m = record { bus = inr refl; change = inl refl }

  pub Kept-trans : {l m n : Machine V} → Kept l m → Kept m n → Kept l n
  Kept-trans {l} {m} {n} r s = record {
    bus = elim r.bus [
      | inl free ↦ inl free
      | inr same ↦ elim s.bus [
        | inl free ↦ inl (ap (λ w. w.busy) (sym same) ∙ free)
        | inr same' ↦ inr (same' ∙ same)
      ]
    ];
    change = elim s.change [
      | inr ended ↦ inr ended
      | inl same ↦ elim r.change [
        | inl first ↦ inl (same ∙ first)
        | inr ended ↦ inr (ap (λ x. x.trigger_end) same ∙ ended)
      ]
    ];
  }

  -- The first lines of `execute`.
  pub keep_running-Kept :
      {U : Type 0} (b : Bool) (skip : Bool) (u : U) (m : Machine V)
      (work : Machine V → Outcome (U × Machine V))
      → ((m' : Machine V) → Post (λ r. Inside m' r.1) (work m'))
      → Post
          (λ r. Kept m r.1)
          (if skip || not b then ok (u, keep_running b m) else work (keep_running b m))
  unfolding keep_running
  keep_running-Kept true true u m work h = holds (record { bus = inr refl; change = inr refl })
  keep_running-Kept true false u m work h =
      Post-weaken (h _) λ r k. record { bus = k.bus; change = inr k.flag }
  keep_running-Kept false true u m work h = holds (Kept-refl m)
  keep_running-Kept false false u m work h = holds (Kept-refl m)

module _ {V S : Type 0} (R : File V S) where
  -- The registers are apart from the bus and from the flag.
  abbrev pub IsApart : Type 0
  IsApart = (d : Dict (Register S)) (m : Machine V) → Inside m (R.set_registers d m)

  pub begin-Inside : IsApart → (u : FunctionalUnit V) (m : Machine V) → Inside m (begin R u m).1
  unfolding begin set_wait_on set_register
  begin-Inside apart u m =
      elim (Bool-cases (not (is_null u.ins.target) && may_take R u.my_id u.ins.target_reg m)) [
        | inl e ↦ rw e (apart _ m)
        | inr e ↦ rw e (Inside-refl m)
      ]

  pub count_down-Inside :
      IsApart → (u : ArithmeticUnit V S) (m : Machine V) → Inside m (count_down R u m).1
  unfolding count_down
  count_down-Inside apart u m = elim (Bool-cases (not (is_null u.j.v) && not (is_null u.k.v))) [
    | inr e ↦ rw e (Inside-refl m)
    | inl e ↦ rw e (elim (Bool-cases (at_start u.fu)) [
      | inl start ↦ rw start (begin-Inside apart u.fu m)
      | inr later ↦ rw later (Inside-refl m)
    ])
  ]

  pub run_cycle-Inside :
      IsApart
      → (u : ArithmeticUnit V S) (m : Machine V) → Post (λ r. Inside m r.1) (run_cycle R u m)
  unfolding run_cycle
  run_cycle-Inside apart u m =
      Post-bind (if at_start u.fu then fetch_both R u m else ok u)
        λ u' e. holds (count_down-Inside apart u' m)

  pub advance-Inside :
      IsApart → (b : Bool) (u : ArithmeticUnit V S) (m : Machine V) → Inside m (advance R b u m).1
  unfolding advance
  advance-Inside apart b u m = elim (Bool-cases (at_start u.fu && b)) [
    | inl e ↦ rw e (begin-Inside apart u.fu m)
    | inr e ↦ rw e (Inside-refl m)
  ]

pub integer_file-IsApart : {V : Type 0} → IsApart (integer_file {V = V})
unfolding integer_file
integer_file-IsApart d m = record { bus = inr refl; flag = refl }

pub float_file-IsApart : {V : Type 0} (zero_value : V) → IsApart (float_file zero_value)
unfolding float_file
float_file-IsApart zero_value d m = record { bus = inr refl; flag = refl }

module _ {V : Type 0} where
  pub iadd_cycle-Inside :
      (u : ArithmeticUnit V ℤ) (m : Machine V) → Post (λ r. Inside m r.1) (iadd_cycle u m)
  unfolding iadd_cycle
  iadd_cycle-Inside u m =
      Post-bind
        (if not (eq_opcode u.fu.ins.opcode load_immediate) && at_start u.fu
          then fetch_some integer_file (not (is_one_of u.fu.ins.opcode (bltz ∷ bgtz ∷ move ∷ []))) u
              m
          else ok u)
        λ u' e. holds (elim (Bool-cases (iadd_ready u.fu.ins.opcode u')) [
          | inl ready ↦ rw ready (advance-Inside integer_file integer_file-IsApart _ u' m)
          | inr waits ↦ rw waits (Inside-refl m)
        ])

  -- A branch writes neither.
  pub release_branch-Inside : (m : Machine V) → Inside m (release_branch m)
  unfolding release_branch
  release_branch-Inside m =
      if_either (Inside m) m.stall_due_to_branch (record { bus = inr refl; flag = refl })
        (Inside-refl m)

  pub jump_if-Inside :
      (b : Bool) (i : Instruction) (m : Machine V) → Inside m (jump_if b i (release_branch m))
  unfolding jump_if
  jump_if-Inside b i m =
      let r = release_branch-Inside m in
      if_either (Inside m) b (record { bus = r.bus; flag = r.flag }) r

  pub iadd_branch-Inside : (u : ArithmeticUnit V ℤ) (m : Machine V) → Inside m (iadd_branch u m)
  unfolding iadd_branch
  iadd_branch-Inside u m =
      if_either (Inside m) (is_one_of u.fu.ins.opcode (bneq ∷ beq ∷ []))
        (jump_if-Inside _ u.fu.ins m)
        (if_either (Inside m) (is_one_of u.fu.ins.opcode (bltz ∷ bgtz ∷ []))
          (jump_if-Inside _ u.fu.ins m) (Inside-refl m))

module _ (D : Double) where
  open D use {Value, zero_value}

  -- Only a free bus takes a value.
  pub send_to_write_back-Inside :
      (b : Bool) (v : FinalValue Value) (t : Pointer) (reg : Text) (m : Machine Value)
      → Inside m (send_to_write_back D b v t reg m).1
  unfolding send_to_write_back
  send_to_write_back-Inside b v t reg m = elim (Bool-cases m.write_back.busy) [
    | inl e ↦
        subst {A = Bool × Machine Value} (λ r. Inside m r.1)
          (sym (if-true m.write_back.busy (false, m) _ e)) (Inside-refl m)
    | inr e ↦
        subst {A = Bool × Machine Value} (λ r. Inside m r.1)
          (sym (if-false m.write_back.busy (false, m) _ e)) (record { bus = inl e; flag = refl })
  ]

  pub send_or_wait-Inside :
      {S : Type 0} (z : S) (b : Bool) (v : FinalValue Value) (u : ArithmeticUnit Value S)
      (m : Machine Value)
      → Inside m (send_or_wait D z b v u m).1
  unfolding send_or_wait
  send_or_wait-Inside z b v u m =
      let r = send_to_write_back D b v u.fu.ins.target u.fu.ins.target_reg m in
      if_either {A = ArithmeticUnit Value _ × Machine Value} (λ x. Inside m x.1) r.0
        (send_to_write_back-Inside b v u.fu.ins.target u.fu.ins.target_reg m)
        (send_to_write_back-Inside b v u.fu.ins.target u.fu.ins.target_reg m)
