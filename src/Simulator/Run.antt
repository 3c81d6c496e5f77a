-- ===== src/Simulator/Run.antt =====
-- The rounds of `executeProgram` as a relation, and what every reachable machine satisfies.
pub mod Loop
pub mod Straight
pub mod Words
use mathlib.Core.Path.{subst}
use mscs.Common.{
  ◌≢◌, ◌⊎◌, ℕ, zero, suc, ◌+◌, ◌≤◌, ◌<◌, ◌≡◌, refl, sym, ap, ◌∙◌, Bool, true, false, Option, none,
  some, List, inl, inr, arith, length, get_elem?-lt, Bool-cases,
}
use mscs.Common.Int.{ℤ, pos, sub_ℕ}
use mscs.Common.Outcome.{Outcome, ok, fail, undefined, Post-eq_ok}
use mscs.Common.Text.{Text}
use mscs.Common.Dict.{AllValues, lookup-AllValues}
use mscs.Simulator.Double.{Double}
use mscs.Simulator.Machine.{Machine}
use mscs.Simulator.Execute.{
  go_on, counted, after_line, execute_fetched, Halt, finished, failed, running, crashed, increment,
  fetch_at, at_end, execute_line, advance, step, loop,
}
use mscs.Simulator.Frame.{Frame, line_branches}
use mscs.Simulator.Frame.Handlers.{execute_line-Frame}

-- Every label is the number of a line or of the end, and so is the program counter.
pub record InRange {V : Type 0} (m : Machine V) : Type 0 where
  pub labels_within : AllValues (λ t. t ≤ length m.vprogram) m.mlabels
  pub line : ℕ
  pub counter : m.program_counter ≡ pos line
  pub within : line ≤ length m.vprogram

-- Stepping over one below a line gives the line.
pub increment-sub_ℕ : (t : ℕ) → increment (sub_ℕ t 1) ≡ pos t
unfolding increment
increment-sub_ℕ zero = refl
increment-sub_ℕ (suc t) = ground arith

module _ (D : Double) where
  open D use {Value}

  -- `Reach m n m'`: `n` rounds that succeed take `m` to `m'`.
  pub data Reach (m : Machine Value) : ℕ → Machine Value → Type 0 where
    here : Reach m 0 m
    next :
        {n : ℕ} {m' m'' : Machine Value}
        → Reach m n m'
        → at_end m'.program_counter m'.vprogram ≡ false
        → step D m' ≡ running m''
        → Reach m (suc n) m''

  fetch-lt :
      (pc : ℤ) (program : List Text) (n : ℕ)
      → pc ≡ pos n
      → n ≤ length program
      → at_end pc program ≡ false
      → (line : Text) × (fetch_at pc program ≡ some line)
  unfolding at_end fetch_at
  fetch-lt pc program n e h = rw e λ open_end. get_elem?-lt program n (ground arith)

  -- A machine in range that is not at the end has a line to fetch.
  pub fetch-InRange :
      (m : Machine Value)
      → InRange m
      → at_end m.program_counter m.vprogram ≡ false
      → (line : Text) × (fetch_at m.program_counter m.vprogram ≡ some line)
  fetch-InRange m r = fetch-lt m.program_counter m.vprogram r.line r.counter r.within

  after_line-eq_running :
      (m : Machine Value) (r : Outcome (Machine Value)) {m' : Machine Value}
      → after_line D m r ≡ running m'
      → (done : Machine Value) × (r ≡ ok done) × (m' ≡ advance D done)
  unfolding after_line
  after_line-eq_running m (ok done) e = (done, refl, cc)
  after_line-eq_running m (fail err) e = cc
  after_line-eq_running m undefined e = cc

  -- A round that goes on has executed a line.
  pub execute_fetched-eq_running :
      (m : Machine Value) (o : Option Text) {m' : Machine Value}
      → execute_fetched D o m ≡ running m'
      → (line : Text) × (done : Machine Value) × (o ≡ some line)
        × (execute_line D line (counted D m) ≡ ok done)
        × (m' ≡ advance D done)
  unfolding execute_fetched
  execute_fetched-eq_running m none e = cc
  execute_fetched-eq_running m (some line) e =
      let (done, executed, same) =
        after_line-eq_running (counted D m) (execute_line D line (counted D m)) e in
      (line, done, refl, executed, same)

  within-done :
      (m done : Machine Value) {n : ℕ}
      → done.vprogram ≡ m.vprogram
      → n ≤ length m.vprogram
      → n ≤ length done.vprogram
  within-done m done {n} same h = subst (λ p. n ≤ length p) (sym same) h

  -- Going on from a machine that a line has left in the frame.
  pub advance-InRange :
      (b : Bool) (m done : Machine Value) (r : InRange m)
      → r.line < length m.vprogram
      → Frame b m done
      → InRange (advance D done)
  unfolding advance
  advance-InRange b m done r more frame =
      let labels : AllValues (λ t. t ≤ length done.vprogram) done.mlabels =
        subst (λ p. AllValues (λ t. t ≤ length p) done.mlabels) (sym frame.program)
          (subst (λ d. AllValues (λ t. t ≤ length m.vprogram) d) (sym frame.labels)
            r.labels_within) in
      elim frame.counter [
        | inl stays ↦ record {
          labels_within = labels;
          line = suc r.line;
          counter = ap increment (stays ∙ r.counter);
          within = within-done m done frame.program more;
        }
        | inr (_, label, t, found, goes) ↦ record {
          labels_within = labels;
          line = t;
          counter = ap increment goes ∙ increment-sub_ℕ t;
          within =
              within-done m done frame.program (
                lookup-AllValues (λ t. t ≤ length m.vprogram) label m.mlabels r.labels_within
                  found);
        }
      ]

  abbrev counted-InRange : (m : Machine Value) → InRange m → InRange (counted D m)
  counted-InRange m r = record {
    labels_within = r.labels_within;
    line = r.line;
    counter = r.counter;
    within = r.within;
  }

  pub lt-length :
      (pc : ℤ) (program : List Text) (n : ℕ)
      → pc ≡ pos n
      → n ≤ length program
      → at_end pc program ≡ false
      → n < length program
  unfolding at_end
  lt-length pc program n e h = rw e λ open_end. ground arith

  -- A round that goes on leads from a machine in range to one in range, and counts one instruction.
  pub step-InRange :
      (m m' : Machine Value)
      → InRange m
      → at_end m.program_counter m.vprogram ≡ false
      → step D m ≡ running m'
      → InRange m' × (m'.instruction_count ≡ m.instruction_count + 1)
  unfolding step advance
  step-InRange m m' r open_end e =
      let (line, done, fetched, executed, same) =
        execute_fetched-eq_running m (fetch_at m.program_counter m.vprogram) e in
      let frame =
        Post-eq_ok (execute_line D line (counted D m)) (execute_line-Frame D line (counted D m))
          executed in
      let more = lt-length m.program_counter m.vprogram r.line r.counter r.within open_end in
      (
        subst (λ x. InRange x) (sym same)
            (advance-InRange (line_branches line) (counted D m) done (counted-InRange m r) more
              frame),
        ap (λ x. x.instruction_count) same ∙ frame.count,
      )

  -- However many rounds have succeeded, the machine is in range and has counted them all.
  pub Reach-InRange :
      (m m' : Machine Value) (n : ℕ)
      → InRange m
      → Reach m n m'
      → InRange m' × (m'.instruction_count ≡ m.instruction_count + n)
  Reach-InRange m m' n r here = (r, omega arith)
  Reach-InRange m m' n r (next {n = k} {m' = mid} run open_end e) =
      let (mid_in, mid_count) = Reach-InRange m mid k r run in
      let (in_range, count) = step-InRange mid m' mid_in open_end e in (in_range, omega arith)

  pub Reach-step :
      {m m' m'' : Machine Value} {n : ℕ}
      → at_end m.program_counter m.vprogram ≡ false
      → step D m ≡ running m'
      → Reach m' n m''
      → Reach m (suc n) m''
  Reach-step open_end e here = next here open_end e
  Reach-step open_end e (next run open' e') = next (Reach-step open_end e run) open' e'
