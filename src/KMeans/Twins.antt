-- ===== src/KMeans/Twins.antt =====
-- Two centroids with the same attributes: one of them loses all its records.
use mathlib.Core.Path.{subst}
use mscs.Common.{
  ℕ, ◌==◌, ◌<◌, ◌≡◌, refl, sym, ap, ◌∙◌, true, false, leb, List, [], ◌∷◌, All, arith, Bool-cases,
  replicate, inl, inr,
}
use mscs.Common.Int.{ℤ, pos}
use mscs.Common.Outcome.{ok, undefined, Post, holds, Post-bind, Post-map, Post-eq_ok, bind-ok}
use mscs.Simulator.Arithmetic.{div_int}
use mscs.KMeans.{
  BreastCancerRecord, Table, Clusters, distance, largest, closest, history_of, replace_key,
  assign_record, assign_records, assignment_step, add_members, mean_of, move_centroid,
  move_centroids, compute_new_centroid, refine,
}
use mscs.KMeans.Nearest.{distance-lt}

-- Two centroids of records that agree in their nine attributes.
abbrev pub twins : ℕ → ℕ → BreastCancerRecord → ℤ → ℤ → Table BreastCancerRecord
twins i j c id class = (i, c) ∷ (j, record c { scm = id; a10 = class }) ∷ []

-- No record belongs to the cluster.
abbrev pub HasNone : ℕ → Table (ℕ × ℕ) → Type 0
HasNone i h = All (λ p. (p.1.0 == i) ≡ false) h

distance-twin :
    (c r : BreastCancerRecord) (id class : ℤ)
    → distance (record c { scm = id; a10 = class }) r ≡ distance c r
unfolding distance
distance-twin c r id class = refl

closest-twins :
    (i j : ℕ) (c r : BreastCancerRecord) (id class : ℤ)
    → Post (λ found. found.1 ≡ j) (closest r (twins i j c id class) (largest, 0))
unfolding closest
closest-twins i j c r id class = Post-bind (distance c r) λ d e.
    let lt : d < largest = Post-eq_ok (distance c r) (distance-lt c r) e in
    let first : leb d largest ≡ true = ground arith in
    let again : leb d d ≡ true = ground arith in
    rw (first, distance-twin c r id class, e, again) (holds refl)

replace_key-HasNone :
    (i key cluster previous : ℕ) (h : Table (ℕ × ℕ))
    → (cluster == i) ≡ false
    → HasNone i h
    → HasNone i (replace_key key (cluster, previous) h)
unfolding replace_key
replace_key-HasNone i key cluster previous [] ne n = tt
replace_key-HasNone i key cluster previous ((k, m) ∷ h) ne n = elim (Bool-cases (k == key)) [
  | inl same ↦ rw same (ne, replace_key-HasNone i key cluster previous h ne n.1)
  | inr other ↦ rw other (n.0, replace_key-HasNone i key cluster previous h ne n.1)
]

module _ (i j : ℕ) (c : BreastCancerRecord) (id class : ℤ) (ne : (j == i) ≡ false) where
  record Loses (s : Clusters) : Type 0 where
    two : s.centroids ≡ twins i j c id class
    lost : HasNone i s.history

  assign_record-Loses :
      (p : ℕ × BreastCancerRecord) (s : Clusters) → Loses s → Post Loses (assign_record p s)
  unfolding assign_record
  assign_record-Loses (key, r) s h =
      Post-map (closest r s.centroids (largest, 0))
        (subst (λ t. Post (λ found. found.1 ≡ j) (closest r t (largest, 0))) (sym h.two)
          (closest-twins i j c r id class))
        λ found e. Post-bind (history_of key s.history) λ (was : ℕ × ℕ) _. holds (record {
          two = h.two;
          lost = replace_key-HasNone i key found.1 was.0 s.history (ap (λ n. n == i) e ∙ ne) h.lost;
        })

  assign_records-Loses :
      (ps : Table BreastCancerRecord) (s : Clusters) → Loses s → Post Loses (assign_records ps s)
  unfolding assign_records
  assign_records-Loses [] s h = holds h
  assign_records-Loses (p ∷ ps) s h =
      Post-map (assign_record p s) (assign_record-Loses p s h) (assign_records-Loses ps)

  add_members-HasNone :
      (records : Table BreastCancerRecord) (h : Table (ℕ × ℕ)) (temp : List ℤ) (n : ℕ)
      → HasNone i h
      → add_members i records h (temp, n) ≡ ok (temp, n)
  unfolding add_members
  add_members-HasNone records [] temp n none_left = refl
  add_members-HasNone records ((k, (current, previous)) ∷ h) temp n none_left =
      rw (none_left.0, add_members) (add_members-HasNone records h temp n none_left.1)

  move_centroid-HasNone :
      (records : Table BreastCancerRecord) (h : Table (ℕ × ℕ)) (a : BreastCancerRecord)
      → HasNone i h
      → move_centroid records h (i, a) ≡ undefined
  unfolding move_centroid mean_of div_int
  move_centroid-HasNone records h a none_left =
      rw (add_members-HasNone records h (replicate 9 (pos 0)) 0 none_left) refl

  compute_new_centroid-Loses : (s : Clusters) → Loses s → compute_new_centroid s ≡ undefined
  unfolding compute_new_centroid move_centroids
  compute_new_centroid-Loses s h =
      rw (h.two, move_centroid-HasNone s.records s.history c h.lost) refl

  -- Two centroids, of records with the same nine attributes, and no record that is in the cluster of
  -- the first one yet, such as at the start, where each is in a cluster 0 that does not exist. When
  -- the assignment step succeeds: it leaves no record in the first cluster and the centroids as they
  -- were; the sums of the first cluster are made of 0 records; the division of its first sum by their
  -- number, and with it `computeNewCentroid` and the round of the loop, is undefined.
  pub refine-twins :
      (s s1 : Clusters)
      → s.centroids ≡ twins i j c id class
      → HasNone i s.history
      → assignment_step s ≡ ok s1
      → HasNone i s1.history
        × (s1.centroids ≡ s.centroids)
        × ((sums : List ℤ) × (n : ℕ) × (add_members i s1.records s1.history (replicate 9 (pos 0), 0)
              ≡ ok (sums, n))
            × (n ≡ 0)
            × (mean_of sums n ≡ undefined))
        × (compute_new_centroid s1 ≡ undefined)
        × (refine s ≡ undefined)
  unfolding refine assignment_step mean_of div_int
  refine-twins s s1 two lost e =
      let start : Loses (record s { convergence_count = 0 }) = record { two = two; lost = lost } in
      let h : Loses s1 =
        Post-eq_ok (assignment_step s)
          (assign_records-Loses s.records (record s { convergence_count = 0 }) start) e in
      let stuck = compute_new_centroid-Loses s1 h in
      (
        h.lost,
        h.two ∙ sym two,
        (
          replicate 9 (pos 0),
          0,
          add_members-HasNone s1.records s1.history (replicate 9 (pos 0)) 0 h.lost,
          refl,
          refl,
        ),
        stuck,
        bind-ok (assignment_step s) compute_new_centroid e stuck,
      )
