-- ===== src/Permutations/Counts.antt =====
-- `permute` visits every order of what is left, and what its counters come to.
use mscs.Common.{
  ℕ, zero, suc, ◌+◌, ◌*◌, ◌<◌, ◌==◌, ◌%◌, ◌≡◌, refl, ap, ◌∙◌, Bool, true, false, List, [], ◌∷◌,
  ◌++◌, arith, if◌then◌else◌, length, length-append, Bool-cases, inl, inr,
}
use mscs.Common.Outcome.{Outcome, ok}
use mscs.Common.Text.{Text}
use mscs.Permutations.{
  Totals, wins, moves, winner, marked_at, set_mark, print_order, choose, choices, permute,
}

unfoldable pub factorial : ℕ → ℕ
factorial zero = 1
factorial (suc n) = suc n * factorial n

-- The places from `i` on that are not marked.
unfoldable pub free_from : ℕ → List Bool → ℕ
free_from i [] = 0
free_from zero (b ∷ bs) = (if b then 0 else 1) + free_from zero bs
free_from (suc i) (b ∷ bs) = free_from i bs

-- What `n` more full orders change.
pub record IsAfter (n : ℕ) (t t' : Totals) : Type 0 where
  pub mark_kept : t'.mark ≡ t.mark
  pub counted : t'.count ≡ t.count + n
  pub decided : t'.winx + t'.win0 + t'.draw ≡ t.winx + t.win0 + t.draw + n
  pub listed : length t'.printed ≡ length t.printed + n

-- One game is decided.
moves-decided :
    (left i : ℕ) (rest player_x player_0 : Text) (t : Totals)
    → length rest ≡ left
    → (result : ℕ) × (t' : Totals) × (moves left i rest player_x player_0 t ≡ ok (result, t'))
      × (t'.winx + t'.win0 + t'.draw ≡ t.winx + t.win0 + t.draw + 1)
      × (t'.count ≡ t.count)
      × (t'.mark ≡ t.mark)
      × (t'.printed ≡ t.printed)
unfolding moves
moves-decided zero i rest px p0 t h =
    (3, record t { draw = t.draw + 1 }, refl, omega arith, refl, refl, refl)
moves-decided (suc left) i [] px p0 t h = let never : ⊥ = omega arith in elim never [ ]
moves-decided (suc left) i (c ∷ rest) px p0 t h = elim (Bool-cases (i % 2 == 0)) [
  | inl even ↦ elim (Bool-cases (wins (px ++ c ∷ []))) [
    | inl won ↦
        rw (even, won) (1, record t { winx = t.winx + 1 }, refl, omega arith, refl, refl, refl)
    | inr open_yet ↦
        rw (even, open_yet) (moves-decided left (i + 1) rest (px ++ c ∷ []) p0 t (omega arith))
  ]
  | inr odd ↦ elim (Bool-cases (wins (p0 ++ c ∷ []))) [
    | inl won ↦
        rw (odd, won) (2, record t { win0 = t.win0 + 1 }, refl, omega arith, refl, refl, refl)
    | inr open_yet ↦
        rw (odd, open_yet) (moves-decided left (i + 1) rest px (p0 ++ c ∷ []) t (omega arith))
  ]
]

print_order-IsAfter :
    (permuted : Text) (t : Totals)
    → length permuted ≡ 9
    → (t' : Totals) × (print_order permuted t ≡ ok t') × IsAfter 1 t t'
unfolding print_order winner
print_order-IsAfter permuted t h =
    let (result, t', run, sum, count, mark, printed) = moves-decided 9 0 permuted [] [] t h in
    (
      record t' { count = t'.count + 1; printed = t'.printed ++ (permuted, result) ∷ [] },
      rw run refl,
      record {
        mark_kept = mark;
        counted = omega (arith, count);
        decided = sum;
        listed = rw printed (length-append t.printed ((permuted, result) ∷ []));
      },
    )

marked_at-free :
    (i : ℕ) (mark : List Bool)
    → i < length mark
    → (b : Bool) × (marked_at i mark ≡ ok b)
      × (free_from i mark ≡ (if b then 0 else 1) + free_from (suc i) mark)
unfolding marked_at free_from
marked_at-free i [] h = let never : ⊥ = omega arith in elim never [ ]
marked_at-free zero (b ∷ bs) h = (b, refl, refl)
marked_at-free (suc i) (b ∷ bs) h = marked_at-free i bs (omega arith)

-- A place that is marked and unmarked again.
set_mark-false :
    (i : ℕ) (mark : List Bool)
    → marked_at i mark ≡ ok false
    → (set : List Bool) × (set_mark i true mark ≡ ok set)
      × (set_mark i false set ≡ ok mark)
      × (length set ≡ length mark)
      × (free_from 0 set + 1 ≡ free_from 0 mark)
unfolding marked_at free_from set_mark
set_mark-false i [] h = cc
set_mark-false zero (true ∷ bs) h = cc
set_mark-false zero (false ∷ bs) h = (true ∷ bs, refl, refl, refl, omega arith)
set_mark-false (suc i) (b ∷ bs) h =
    let (set, there, back, size, free) = set_mark-false i bs h in
    (b ∷ set, rw there refl, rw back refl, ap suc size, omega (arith, free))

IsAfter-trans : {n k : ℕ} {t u v : Totals} → IsAfter n t u → IsAfter k u v → IsAfter (n + k) t v
IsAfter-trans first second = record {
  mark_kept = second.mark_kept ∙ first.mark_kept;
  counted = omega arith;
  decided = omega arith;
  listed = omega arith;
}

-- What the recursive call does, for marks that leave `left` places.
abbrev Visits : ℕ → ℕ → (Text → Totals → Outcome Totals) → Text → Type 0
Visits size left deeper permuted =
    (c : ℕ) (u : Totals)
    → length u.mark ≡ size
    → free_from 0 u.mark ≡ left
    → (u' : Totals) × (deeper (permuted ++ c ∷ []) u ≡ ok u') × IsAfter (factorial left) u u'

choose-IsAfter :
    (left : ℕ) (deeper : Text → Totals → Outcome Totals) (i c : ℕ) (permuted : Text) (b : Bool)
    (t : Totals)
    → Visits (length t.mark) left deeper permuted
    → free_from 0 t.mark ≡ suc left
    → marked_at i t.mark ≡ ok b
    → (t' : Totals) × (choose deeper i c permuted b t ≡ ok t')
      × IsAfter ((if b then 0 else 1) * factorial left) t t'
unfolding choose
choose-IsAfter left deeper i c permuted true t visits free at = (
  t,
  refl,
  record { mark_kept = refl; counted = omega arith; decided = omega arith; listed = omega arith },
)
choose-IsAfter left deeper i c permuted false t visits free at =
    let (set, there, back, size, less) = set_mark-false i t.mark at in
    let (u, run, after) = visits c (record t { mark = set }) size (omega arith) in
    let returned : set_mark i false u.mark ≡ ok t.mark = rw after.mark_kept back in
    (
      record u { mark = t.mark },
      rw (there, run, returned) refl,
      record {
        mark_kept = refl;
        counted = omega (arith, after.counted);
        decided = omega (arith, after.decided);
        listed = omega (arith, after.listed);
      },
    )

free_from-length : (mark : List Bool) (i : ℕ) → i ≡ length mark → free_from i mark ≡ 0
unfolding free_from
free_from-length [] i h = refl
free_from-length (b ∷ bs) zero h = omega arith
free_from-length (b ∷ bs) (suc i) h = free_from-length bs i (omega arith)

IsAfter-eq : {n k : ℕ} {t u : Totals} → n ≡ k → IsAfter n t u → IsAfter k t u
IsAfter-eq h a = record {
  mark_kept = a.mark_kept;
  counted = omega (arith, a.counted, h);
  decided = omega (arith, a.decided, h);
  listed = omega (arith, a.listed, h);
}

split_free :
    (b : Bool) (n k f : ℕ) → n ≡ (if b then 0 else 1) + k → (if b then 0 else 1) * f + k * f ≡ n * f
split_free true n k f h = rw h (omega arith)
split_free false n k f h = rw h (omega arith)

choices-IsAfter :
    (left : ℕ) (deeper : Text → Totals → Outcome Totals) (i : ℕ) (rest permuted : Text) (t : Totals)
    → Visits (length t.mark) left deeper permuted
    → free_from 0 t.mark ≡ suc left
    → i + length rest ≡ length t.mark
    → (t' : Totals) × (choices deeper i rest permuted t ≡ ok t')
      × IsAfter (free_from i t.mark * factorial left) t t'
unfolding choices
choices-IsAfter left deeper i [] permuted t visits free size = (
  t,
  refl,
  IsAfter-eq {n = 0} (rw (free_from-length t.mark i (omega arith)) (omega arith)) (record {
    mark_kept = refl;
    counted = omega arith;
    decided = omega arith;
    listed = omega arith;
  }),
)
choices-IsAfter left deeper i (c ∷ rest) permuted t visits free size =
    let (b, at, split) = marked_at-free i t.mark (omega arith) in
    let (u, run, after) = choose-IsAfter left deeper i c permuted b t visits free at in
    let same = after.mark_kept in
    let visits' : Visits (length u.mark) left deeper permuted = rw same visits in
    let free' : free_from 0 u.mark ≡ suc left = rw same free in
    let size' : suc i + length rest ≡ length u.mark = rw same (omega arith) in
    let (v, go, then_on) =
      choices-IsAfter left deeper (suc i) rest permuted u visits' free' size' in
    let split' : free_from i t.mark ≡ (if b then 0 else 1) + free_from (suc i) u.mark =
      rw same split in
    (
      v,
      rw (at, run) go,
      IsAfter-eq
          (split_free b (free_from i t.mark) (free_from (suc i) u.mark) (factorial left) split')
          (IsAfter-trans after then_on),
    )

-- For nine characters and nine marks, of which `left` are not set, and an order of the other
-- 9 - left characters, `permute` returns: it prints left! lines, counts them, decides each for X,
-- for 0 or as a draw, and leaves the marks as they were.
pub permute-IsAfter :
    (left : ℕ) (original permuted : Text) (t : Totals)
    → length original ≡ 9
    → length t.mark ≡ 9
    → length permuted + left ≡ 9
    → free_from 0 t.mark ≡ left
    → (t' : Totals) × (permute left original permuted t ≡ ok t') × IsAfter (factorial left) t t'
unfolding permute factorial
permute-IsAfter zero original permuted t nine marks level free =
    print_order-IsAfter permuted t (omega arith)
permute-IsAfter (suc left) original permuted t nine marks level free =
    let visits : Visits (length t.mark) left (permute left original) permuted = λ c u size free'.
      permute-IsAfter left original (permuted ++ c ∷ []) u nine (size ∙ marks)
        (omega (arith, length-append permuted (c ∷ []))) free' in
    let (t', run, after) =
      choices-IsAfter left (permute left original) 0 original permuted t visits free
        (omega arith) in
    (t', run, IsAfter-eq (rw free refl) after)
