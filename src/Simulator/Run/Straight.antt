-- ===== src/Simulator/Run/Straight.antt =====
-- A program without branches ends.
use mathlib.Core.Path.{subst}
use mathlib.Core.Bool.{false≢true}
use mscs.Common.{
  [], ◌∷◌, suc, zero, ◌∷◌, get_elem?, ◌≢◌, ℕ, zero, suc, ◌+◌, ◌≤◌, ◌≡◌, refl, sym, ap, ◌∙◌, true,
  false, some, List, inl, inr, arith, length, Bool-cases,
}
use mscs.Common.Int.{negsuc, ℤ, pos}
use mscs.Common.Outcome.{Post-eq_ok}
use mscs.Common.Text.{Text}
use mscs.Simulator.Double.{Double}
use mscs.Simulator.Machine.{Machine}
use mscs.Simulator.Execute.{
  execute_program, go_on, counted, Halt, finished, failed, running, crashed, increment, fetch_at,
  at_end, execute_line, advance, step, loop,
}
use mscs.Simulator.Frame.{line_branches}
use mscs.Simulator.Frame.Handlers.{execute_line-Frame}
use mscs.Simulator.Run.{execute_fetched-eq_running, lt-length}
use mscs.Common.{All}

-- No line of the program is a branch.
abbrev pub IsStraight : List Text → Type 0
IsStraight = All (λ line. line_branches line ≡ false)

get_elem?-IsStraight :
    (program : List Text) (n : ℕ) {line : Text}
    → IsStraight program
    → get_elem? program n ≡ some line
    → line_branches line ≡ false
get_elem?-IsStraight [] n h e = cc
get_elem?-IsStraight (l ∷ program) zero {line} h e =
    let same : l ≡ line = cc in subst (λ t. line_branches t ≡ false) same h.0
get_elem?-IsStraight (l ∷ program) (suc n) h e = get_elem?-IsStraight program n h.1 e

fetch_at-IsStraight :
    (pc : ℤ) (program : List Text) {line : Text}
    → IsStraight program
    → fetch_at pc program ≡ some line
    → line_branches line ≡ false
unfolding fetch_at
fetch_at-IsStraight (pos n) program h e = get_elem?-IsStraight program n h e
fetch_at-IsStraight (negsuc n) program h e = cc

module _ (D : Double) where
  open D use {Value}

  -- A round of a program without branches goes to the next line of the same program.
  step-IsStraight :
      (m mid : Machine Value) (line : ℕ)
      → IsStraight m.vprogram
      → m.program_counter ≡ pos line
      → step D m ≡ running mid
      → (mid.program_counter ≡ pos (suc line)) × (mid.vprogram ≡ m.vprogram)
  unfolding step advance increment
  step-IsStraight m mid line straight at e =
      let (text, done, fetched, executed, same) =
        execute_fetched-eq_running D m (fetch_at m.program_counter m.vprogram) e in
      let frame =
        Post-eq_ok (execute_line D text (counted D m)) (execute_line-Frame D text (counted D m))
          executed in
      let program : mid.vprogram ≡ m.vprogram = ap (λ x. x.vprogram) same ∙ frame.program in
      let moved : mid.program_counter ≡ increment done.program_counter =
        ap (λ x. x.program_counter) same in
      elim frame.counter [
        | inl stays ↦ (moved ∙ ap increment (stays ∙ at), program)
        | inr (branches, _, _, _, _) ↦
            let plain = fetch_at-IsStraight m.program_counter m.vprogram straight fetched in
            absurd (false≢true (sym plain ∙ branches))
      ]

  IsStraight-keeps :
      (m mid : Machine Value)
      → mid.vprogram ≡ m.vprogram
      → IsStraight m.vprogram
      → IsStraight mid.vprogram
  IsStraight-keeps m mid same = subst IsStraight (sym same)

  go_on-ne-running :
      (rest : Machine Value → Halt Value) (h : Halt Value)
      → ((mid : Machine Value) → h ≡ running mid → (m' : Machine Value) → rest mid ≢ running m')
      → (m' : Machine Value) → go_on D rest h ≢ running m'
  unfolding go_on
  go_on-ne-running rest (running m) k m' e = k m refl m' e
  go_on-ne-running rest (finished m) k m' e = cc
  go_on-ne-running rest (failed err m) k m' e = cc
  go_on-ne-running rest crashed k m' e = cc

  at_end-length :
      (pc : ℤ) (program : List Text) (n : ℕ)
      → pc ≡ pos n
      → length program ≡ n
      → at_end pc program ≡ true
  unfolding at_end
  at_end-length pc program n e h = rw (e, h) (ground arith)

  -- Fuel for the lines that are left is enough.
  loop-IsStraight :
      (fuel : ℕ) (m : Machine Value) (line : ℕ)
      → IsStraight m.vprogram
      → m.program_counter ≡ pos line
      → line ≤ length m.vprogram
      → length m.vprogram ≤ line + fuel
      → (m' : Machine Value) → loop D fuel m ≢ running m'
  unfolding loop
  loop-IsStraight zero m line straight at within enough m' =
      rw (at_end-length m.program_counter m.vprogram line at (omega arith)) λ e. cc
  loop-IsStraight (suc fuel) m line straight at within enough m' =
      elim (Bool-cases (at_end m.program_counter m.vprogram)) [
        | inl stop ↦ rw stop λ e. cc
        | inr more ↦ rw more (
            go_on-ne-running (loop D fuel) (step D m)
              (λ mid stepped.
                let (at', program) = step-IsStraight m mid line straight at stepped in
                let below = lt-length D m.program_counter m.vprogram line at within more in
                let size : length mid.vprogram ≡ length m.vprogram = ap length program in
                loop-IsStraight fuel mid (suc line) (IsStraight-keeps m mid program straight) at'
                  (omega arith) (omega arith))
              m')
      ]

  -- A program without branches is over in as many rounds as it has lines: it finishes, fails or is
  -- undefined, and never goes on.
  pub execute_program-IsStraight :
      (m m' : Machine Value)
      → IsStraight m.vprogram
      → m.program_counter ≡ pos 0
      → execute_program D (length m.vprogram) m ≢ running m'
  unfolding execute_program
  execute_program-IsStraight m m' straight at =
      loop-IsStraight (length m.vprogram) (record m { instruction_count = 0; cycle_count = pos 0 })
        0 straight at (omega arith) (omega arith) m'
