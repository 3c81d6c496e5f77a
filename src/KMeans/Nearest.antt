-- ===== src/KMeans/Nearest.antt =====
-- The centroid that a record gets is one of the nearest.
use mscs.Common.{
  ℕ, ◌≤◌, ◌<◌, ◌≡◌, refl, sym, ap, ◌∙◌, ◌⊎◌, inl, inr, leb, List, [], ◌∷◌, All, arith, Bool-cases,
}
use mscs.Common.Outcome.{ok, Post, holds, stops, Post-bind, Post-weaken, Post-eq_ok}
use mscs.KMeans.{BreastCancerRecord, Table, distance, checked_sum, largest, closest}

-- Some element has the property.
abbrev pub Any {ℓ} : {A : Type ℓ} → (A → Type 0) → List A → Type 0
Any P [] = ⊥
Any P (x ∷ xs) = P x ⊎ Any P xs

-- The distance of a centroid is defined, and at least `m`.
abbrev pub AtLeast : BreastCancerRecord → ℕ → ℕ × BreastCancerRecord → Type 0
AtLeast r m p = (d : ℕ) × (distance p.1 r ≡ ok d) × (m ≤ d)

-- It is the centroid that was found, at the distance that was found.
abbrev pub IsFound : BreastCancerRecord → ℕ × ℕ → ℕ × BreastCancerRecord → Type 0
IsFound r found p = (distance p.1 r ≡ ok found.0) × (found.1 ≡ p.0)

-- The best of a table and of the pair that the search began with.
record Best (r : BreastCancerRecord) (cs : Table BreastCancerRecord) (start found : ℕ × ℕ)
    : Type 0 where
  below : found.0 ≤ start.0
  least : All (AtLeast r found.0) cs
  from : (found ≡ start) ⊎ Any (IsFound r found) cs

Best-nearer :
    (r c : BreastCancerRecord) (i d : ℕ) (cs : Table BreastCancerRecord) (start found : ℕ × ℕ)
    → distance c r ≡ ok d
    → d ≤ start.0
    → Best r cs (d, i) found
    → Best r ((i, c) ∷ cs) start found
Best-nearer r c i d cs start found e le b = record {
  below = omega (arith, b.below);
  least = ((d, e, b.below), b.least);
  from = elim b.from [
    | inl same ↦ inr (inl (e ∙ ap (λ (p : ℕ × ℕ). ok p.0) (sym same), ap (λ (p : ℕ × ℕ). p.1) same))
    | inr there ↦ inr (inr there)
  ];
}

Best-farther :
    (r c : BreastCancerRecord) (i d : ℕ) (cs : Table BreastCancerRecord) (start found : ℕ × ℕ)
    → distance c r ≡ ok d
    → start.0 ≤ d
    → Best r cs start found
    → Best r ((i, c) ∷ cs) start found
Best-farther r c i d cs start found e le b = record {
  below = b.below;
  least = ((d, e, omega (arith, b.below)), b.least);
  from = elim b.from [ inl same ↦ inl same | inr there ↦ inr (inr there) ];
}

closest-Best :
    (r : BreastCancerRecord) (cs : Table BreastCancerRecord) (start : ℕ × ℕ)
    → Post (Best r cs start) (closest r cs start)
unfolding closest
closest-Best r [] start = holds (record { below = omega arith; least = tt; from = inl refl })
closest-Best r ((i, c) ∷ cs) start = Post-bind (distance c r) λ d e.
    elim (Bool-cases (leb d start.0)) [
      | inl nearer ↦ rw nearer (
          Post-weaken (closest-Best r cs (d, i))
            λ found b. Best-nearer r c i d cs start found e (ground arith) b)
      | inr farther ↦ rw farther (
          Post-weaken (closest-Best r cs start)
            λ found b. Best-farther r c i d cs start found e (ground arith) b)
    ]

checked_sum-lt : (sum : ℕ) → Post (λ d. d < largest) (checked_sum sum)
unfolding checked_sum
checked_sum-lt sum = elim (Bool-cases (leb sum 2147483647)) [
  | inl fits ↦ rw fits (holds (ground arith))
  | inr over ↦ rw over stops
]

pub distance-lt : (c r : BreastCancerRecord) → Post (λ d. d < largest) (distance c r)
unfolding distance
distance-lt c r = checked_sum-lt _

-- A record and a table of at least one centroid: if no distance overflows, the centroid that is
-- found is one of the table, it stands at the distance that is found with it, and no centroid of
-- the table is nearer to the record.
pub closest-nearest :
    (r : BreastCancerRecord) (p : ℕ × BreastCancerRecord) (cs : Table BreastCancerRecord)
    → Post
        (λ found. Any (IsFound r found) (p ∷ cs) × All (AtLeast r found.0) (p ∷ cs))
        (closest r (p ∷ cs) (largest, 0))
closest-nearest r p cs = Post-weaken (closest-Best r (p ∷ cs) (largest, 0)) λ found b. elim b.from [
  | inl same ↦
      (let (d, e, le) = b.least.0 in
        let lt : d < largest = Post-eq_ok (distance p.1 r) (distance-lt p.1 r) e in
        let start : found.0 ≡ largest = ap (λ (q : ℕ × ℕ). q.0) same in absurd (omega arith))
  | inr there ↦ (there, b.least)
]
