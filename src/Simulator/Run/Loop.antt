-- ===== src/Simulator/Run/Loop.antt =====
-- The loop on fuel and the relation agree.
use mathlib.Core.Path.{subst}
use mscs.Common.{
  ◌≢◌, ◌⊎◌, ℕ, zero, suc, ◌+◌, ◌≤◌, ◌≡◌, refl, ap, ◌∙◌, true, false, Option, none, some, inl, inr,
  arith, Bool-cases,
}
use mscs.Common.Outcome.{Outcome, ok, fail, undefined}
use mscs.Common.Text.{Text}
use mscs.Simulator.Double.{Double}
use mscs.Simulator.Machine.{Machine}
use mscs.Simulator.Execute.{
  go_on, after_line, execute_fetched, Halt, finished, failed, running, crashed, fetch_at, at_end,
  step, loop,
}
use mscs.Simulator.Run.{Reach, here, next, Reach-step}

finished-injective : {V : Type 0} {a b : Machine V} → finished a ≡ finished b → a ≡ b
finished-injective e = cc

running-ne-finished : {V : Type 0} {a b : Machine V} → running a ≢ finished b
running-ne-finished e = cc

module _ (D : Double) where
  open D use {Value}

  after_line-ne-finished :
      (m : Machine Value) (r : Outcome (Machine Value)) {m' : Machine Value}
      → after_line D m r ≢ finished m'
  unfolding after_line
  after_line-ne-finished m (ok done) e = cc
  after_line-ne-finished m (fail err) e = cc
  after_line-ne-finished m undefined e = cc

  execute_fetched-ne-finished :
      (m : Machine Value) (o : Option Text) {m' : Machine Value}
      → execute_fetched D o m ≢ finished m'
  unfolding execute_fetched
  execute_fetched-ne-finished m none e = cc
  execute_fetched-ne-finished m (some line) e = after_line-ne-finished _ _ e

  step-ne-finished : (m : Machine Value) {m' : Machine Value} → step D m ≢ finished m'
  unfolding step
  step-ne-finished m = execute_fetched-ne-finished m (fetch_at m.program_counter m.vprogram)

  go_on-eq_finished :
      (rest : Machine Value → Halt Value) (h : Halt Value) {m' : Machine Value}
      → go_on D rest h ≡ finished m'
      → ((mid : Machine Value) × (h ≡ running mid) × (rest mid ≡ finished m')) ⊎ (h ≡ finished m')
  unfolding go_on
  go_on-eq_finished rest (running m) e = inl (m, refl, e)
  go_on-eq_finished rest (finished m) e = inr e
  go_on-eq_finished rest (failed err m) e = cc
  go_on-eq_finished rest crashed e = cc

  -- What the loop finishes with is reached by the relation, in at most `fuel` rounds.
  pub loop-Reach :
      (fuel : ℕ) (m : Machine Value) {m' : Machine Value}
      → loop D fuel m ≡ finished m'
      → (n : ℕ) × (n ≤ fuel) × Reach D m n m' × (at_end m'.program_counter m'.vprogram ≡ true)
  unfolding loop
  loop-Reach zero m {m'} e = elim (Bool-cases (at_end m.program_counter m.vprogram)) [
    | inl stop ↦
        let same : m ≡ m' = finished-injective (rw stop at e) in
        (
          0,
          omega arith,
          subst (λ x. Reach D m 0 x) same here,
          subst (λ x. at_end x.program_counter x.vprogram ≡ true) same stop,
        )
    | inr more ↦ absurd (running-ne-finished (rw more at e))
  ]
  loop-Reach (suc fuel) m {m'} e = elim (Bool-cases (at_end m.program_counter m.vprogram)) [
    | inl stop ↦
        let same : m ≡ m' = finished-injective (rw stop at e) in
        (
          0,
          omega arith,
          subst (λ x. Reach D m 0 x) same here,
          subst (λ x. at_end x.program_counter x.vprogram ≡ true) same stop,
        )
    | inr more ↦ elim (go_on-eq_finished (loop D fuel) (step D m) (rw more at e)) [
      | inl (mid, stepped, rest) ↦
          let (n, within, run, stop) = loop-Reach fuel mid rest in
          (suc n, omega arith, Reach-step D more stepped run, stop)
      | inr never ↦ absurd (step-ne-finished m never)
    ]
  ]

  -- The loop takes the first round of a run.
  loop-step :
      (fuel : ℕ) (m mid : Machine Value)
      → at_end m.program_counter m.vprogram ≡ false
      → step D m ≡ running mid
      → loop D (suc fuel) m ≡ loop D fuel mid
  unfolding loop go_on
  loop-step fuel m mid more e = rw (more, e)

  loop-stop :
      (fuel : ℕ) (m : Machine Value)
      → at_end m.program_counter m.vprogram ≡ true
      → loop D fuel m ≡ finished m
  unfolding loop
  loop-stop zero m stop = rw stop
  loop-stop (suc fuel) m stop = rw stop

  -- The rounds of a run are taken by the loop, one unit of fuel for each.
  loop-Reach_fuel :
      (m : Machine Value) (k n : ℕ) (m' : Machine Value)
      → Reach D m n m'
      → loop D (n + k) m ≡ loop D k m'
  loop-Reach_fuel m k n m' here = ap (λ f. loop D f m) (omega arith)
  loop-Reach_fuel m k n m' (next {n = j} {m' = mid} run more e) =
      ap (λ f. loop D f m) (omega arith)
      ∙ loop-Reach_fuel m (suc k) j mid run
      ∙ loop-step k mid m' more e

  -- Where the relation reaches the end, the loop finishes there, given one unit of fuel for each
  -- round.
  pub Reach-loop :
      (m m' : Machine Value) (n k : ℕ)
      → Reach D m n m'
      → at_end m'.program_counter m'.vprogram ≡ true
      → loop D (n + k) m ≡ finished m'
  Reach-loop m m' n k run stop = loop-Reach_fuel m k n m' run ∙ loop-stop k m' stop
