-- ===== src/Tomasulo/Reserved.antt =====
-- What the issue of an instruction leaves alone: the bus, the program counter, the flag of the
use mscs.Common.{
  if_either, ℕ, zero, suc, ◌+◌, ◌≡◌, refl, ◌∙◌, ◌⊎◌, inl, inr, Bool, false, List, [], ◌∷◌,
  Bool-cases,
}
use mscs.Common.Int.{ℤ, pos, negsuc}
use mscs.Common.Outcome.{Post, holds, stops, Post-map}
use mscs.Common.Text.{Text}
use mscs.Common.Dict.{Dict}
use mscs.Simulator.Double.{Double}
use mscs.Tomasulo.Types.{Register, Instruction, Machine, Operand, ArithmeticUnit}
use mscs.Tomasulo.Registers.{
  File, is_free, integer_file, float_file, register, touch, set_register, set_wait_on, is_null,
}
use mscs.Tomasulo.Reservation.{
  Verdict, accepted, full, dropped, blocked, fill, fill_units, set_stall, conclude, open_operand,
  open_if_free, open_both, open_first, open_both_if_free, bus_conflict, lock_target,
}
use mscs.Tomasulo.Reservation.Kinds.{occupy}

-- loop, and the units that are busy.

-- Apart from the registers and the stalls, the machine is as before.
pub record Untouched {V : Type 0} (m m' : Machine V) : Type 0 where
  pub bus : m'.write_back ≡ m.write_back
  pub flag : m'.trigger_end ≡ m.trigger_end
  pub counter : m'.program_counter ≡ m.program_counter

-- A unit that is busy stays as it is.
abbrev pub Keeps : {U : Type 0} → (U → Bool) → List U → List U → Type 0
Keeps busy [] [] = Unit
Keeps busy [] (v ∷ vs) = ⊥
Keeps busy (u ∷ us) [] = ⊥
Keeps busy (u ∷ us) (v ∷ vs) = ((busy u ≡ false) ⊎ (v ≡ u)) × Keeps busy us vs

pub Keeps-refl : {U : Type 0} (busy : U → Bool) (us : List U) → Keeps busy us us
Keeps-refl busy [] = tt
Keeps-refl busy (u ∷ us) = (inr refl, Keeps-refl busy us)

module _ {V : Type 0} where
  pub Untouched-refl : (m : Machine V) → Untouched m m
  Untouched-refl m = record { bus = refl; flag = refl; counter = refl }

  pub Untouched-trans : {l m n : Machine V} → Untouched l m → Untouched m n → Untouched l n
  Untouched-trans h k = record {
    bus = k.bus ∙ h.bus;
    flag = k.flag ∙ h.flag;
    counter = k.counter ∙ h.counter;
  }

  pub conclude-Untouched : (k : ℕ) (v : Verdict) (m : Machine V) → Untouched m (conclude k v m)
  unfolding conclude set_stall
  conclude-Untouched k accepted m =
      if_either (Untouched m) (m.stall_due_to_rs k)
        (record { bus = refl; flag = refl; counter = refl }) (Untouched-refl m)
  conclude-Untouched k full m = record { bus = refl; flag = refl; counter = refl }
  conclude-Untouched k dropped m = Untouched-refl m
  conclude-Untouched k (blocked i) m = Untouched-refl m

  -- The loop over the units.
  pub fill-Keeps :
      {U : Type 0} (busy : U → Bool) (issue : ℕ → U → Machine V → U × Machine V × Verdict)
      → ((i : ℕ) (u : U) (m : Machine V) → Untouched m (issue i u m).1)
      → (n i : ℕ) (us : List U) (m : Machine V)
      → Post (λ r. Keeps busy us r.0 × Untouched m r.1) (fill busy issue n i us m)
  unfolding fill
  fill-Keeps busy issue h zero i us m = holds (Keeps-refl busy us, Untouched-refl m)
  fill-Keeps busy issue h (suc n) i [] m = stops
  fill-Keeps busy issue h (suc n) i (u ∷ us) m = elim (Bool-cases (busy u)) [
    | inl e ↦
        rw (e, fill)
          (Post-map (fill busy issue n (i + 1) us m) (fill-Keeps busy issue h n (i + 1) us m)
            λ r k. holds ((inr refl, k.0), k.1))
    | inr e ↦ rw (e, fill) (holds ((inl e, Keeps-refl busy us), h i u m))
  ]

  pub fill_units-Keeps :
      {U : Type 0} (busy : U → Bool) (issue : ℕ → U → Machine V → U × Machine V × Verdict)
      → ((i : ℕ) (u : U) (m : Machine V) → Untouched m (issue i u m).1)
      → (n : ℤ) (us : List U) (m : Machine V)
      → Post (λ r. Keeps busy us r.0 × Untouched m r.1) (fill_units busy issue n us m)
  unfolding fill_units
  fill_units-Keeps busy issue h (pos n) us m = fill-Keeps busy issue h n 0 us m
  fill_units-Keeps busy issue h (negsuc n) us m = holds (Keeps-refl busy us, Untouched-refl m)

module _ {V S : Type 0} (R : File V S) where
  abbrev pub IsOnly : Type 0
  IsOnly = (d : Dict (Register S)) (m : Machine V) → Untouched m (R.set_registers d m)

  pub open_operand-Untouched :
      {T : Type 0}
      → IsOnly
      → (reg : Text) (o : Operand T) (m : Machine V) → Untouched m (open_operand R reg o m).1
  unfolding open_operand touch
  open_operand-Untouched {T} only reg o m =
      if_either {A = Operand T × Machine V} (λ r. Untouched m r.1)
        (is_free (register R reg (touch R reg m))) (only _ m) (only _ m)

  pub open_both-Untouched :
      {T : Type 0}
      → IsOnly
      → (i : Instruction) (u : ArithmeticUnit V T) (m : Machine V)
      → Untouched m (open_both R i u m).1
  unfolding open_both
  open_both-Untouched only i u m =
      Untouched-trans (open_operand-Untouched only i.source_reg1 u.j m)
        (open_operand-Untouched only i.source_reg2 u.k _)

  pub open_first-Untouched :
      {T : Type 0}
      → IsOnly
      → (i : Instruction) (u : ArithmeticUnit V T) (m : Machine V)
      → Untouched m (open_first R i u m).1
  unfolding open_first
  open_first-Untouched only i u m = open_operand-Untouched only i.source_reg1 u.j m

  pub open_both_if_free-Untouched :
      {T : Type 0}
      → IsOnly
      → (i : Instruction) (u : ArithmeticUnit V T) (m : Machine V)
      → Untouched m (open_both_if_free R i u m).1
  unfolding open_both_if_free open_if_free touch
  open_both_if_free-Untouched only i u m = Untouched-trans (only _ m) (only _ _)

  pub set_wait_on-Untouched :
      IsOnly → (reg : Text) (id : ℕ) (m : Machine V) → Untouched m (set_wait_on R reg id m)
  unfolding set_wait_on set_register
  set_wait_on-Untouched only reg id m = only _ m

  pub lock_target-Untouched :
      IsOnly → (reg : Text) (id : ℕ) (m : Machine V) → Untouched m (lock_target R reg id m)
  unfolding lock_target
  lock_target-Untouched only reg id m =
      if_either (Untouched m) (is_free (register R reg m)) (set_wait_on-Untouched only reg id m)
        (Untouched-refl m)

pub integer_file-IsOnly : {V : Type 0} → IsOnly (integer_file {V = V})
unfolding integer_file
integer_file-IsOnly d m = record { bus = refl; flag = refl; counter = refl }

pub float_file-IsOnly : {V : Type 0} (zero_value : V) → IsOnly (float_file zero_value)
unfolding float_file
float_file-IsOnly zero_value d m = record { bus = refl; flag = refl; counter = refl }

module _ (D : Double) where
  open D use {Value, zero_value}

  pub occupy-Untouched :
      {S T : Type 0} (z : T) (R : File Value S)
      → IsOnly R
      → (v : Verdict) (i : Instruction) (l : Machine Value)
        (p : ArithmeticUnit Value T × Machine Value)
      → Untouched l p.1
      → Untouched l (occupy D z R v i p).1
  unfolding occupy
  occupy-Untouched {S} {T} z R only v i l (u, m) h =
      if_either {A = ArithmeticUnit Value T × Machine Value × Verdict} (λ r. Untouched l r.1)
        (is_null i.target) h
        (if_either {A = ArithmeticUnit Value T × Machine Value × Verdict} (λ r. Untouched l r.1)
          (bus_conflict i m) h
          (Untouched-trans h (lock_target-Untouched R only i.target_reg u.fu.my_id m)))
