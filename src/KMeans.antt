-- ===== src/KMeans.antt =====
-- `kmeans.cpp` and `BreastCancerRecord.cpp`: clusters of the records of a file.
pub mod Nearest
pub mod Twins
pub mod Files
pub mod Majority
mod Tests
use mscs.Common.{
  ℕ, zero, suc, ◌+◌, ◌*◌, ◌%◌, ◌==◌, Bool, true, false, leb, ltb, if◌then◌else◌, Option, none, some,
  List, [], ◌∷◌, ◌++◌, length, replicate,
}
use mscs.Common.Int.{ℤ, pos, ◌-ℤ◌, pos_part, neg_part, eqb_ℤ}
use mscs.Common.Outcome.{Outcome, ok, fail, undefined, ◌>>=◌, invalid_line, too_many_centroids}
use mscs.Common.Text.{Text, atoi}
use mscs.Simulator.Arithmetic.{add_int, div_int}

pub record BreastCancerRecord : Type 0 where
  pub scm : ℤ
  pub a1 : ℤ
  pub a2 : ℤ
  pub a3 : ℤ
  pub a4 : ℤ
  pub a5 : ℤ
  pub a6 : ℤ
  pub a7 : ℤ
  pub a8 : ℤ
  pub a9 : ℤ
  pub a10 : ℤ

-- `new BreastCancerRecord()`
abbrev pub blank_record : BreastCancerRecord
blank_record = record {
  scm = pos 0;
  a1 = pos 0;
  a2 = pos 0;
  a3 = pos 0;
  a4 = pos 0;
  a5 = pos 0;
  a6 = pos 0;
  a7 = pos 0;
  a8 = pos 0;
  a9 = pos 0;
  a10 = pos 0;
}

-- An `unordered_map<long,..>`, as the pairs in the order that an iterator meets them.
abbrev pub Table : Type 0 → Type 0
Table A = List (ℕ × A)

unfoldable pub find_key {ℓ} : {A : Type ℓ} → ℕ → List (ℕ × A) → Option A
find_key k [] = none
find_key k ((i, a) ∷ t) = let rest = find_key k t in if i == k then some a else rest

unfoldable pub replace_key {ℓ} : {A : Type ℓ} → ℕ → A → List (ℕ × A) → List (ℕ × A)
replace_key k a [] = []
replace_key k a ((i, b) ∷ t) =
    let rest = replace_key k a t in if i == k then (i, a) ∷ rest else (i, b) ∷ rest

-- The records, CentroidHistoryTable (the current and the previous centroid of each record),
-- CentroidData and convergenceCount.
pub record Clusters : Type 0 where
  pub records : Table BreastCancerRecord
  pub history : Table (ℕ × ℕ)
  pub centroids : Table BreastCancerRecord
  pub convergence_count : ℕ

-- `(x - y) * (x - y)`
unfoldable pub square_of : ℤ → ℤ → ℕ
unfolding ◌-ℤ◌
square_of x y = let d = pos_part (x -ℤ y) + neg_part (x -ℤ y) in d * d

-- No part of a sum of squares overflows an `int` unless the whole sum does.
unfoldable pub checked_sum : ℕ → Outcome ℕ
checked_sum sum = if leb sum 2147483647 then ok sum else undefined

unfoldable pub distance : BreastCancerRecord → BreastCancerRecord → Outcome ℕ
unfolding square_of checked_sum
distance c r = checked_sum (
    square_of c.a1 r.a1
    + square_of c.a2 r.a2
    + square_of c.a3 r.a3
    + square_of c.a4 r.a4
    + square_of c.a5 r.a5
    + square_of c.a6 r.a6
    + square_of c.a7 r.a7
    + square_of c.a8 r.a8
    + square_of c.a9 r.a9)

-- `LARGEST_SIZE_T`
abbrev pub largest : ℕ
largest = 18446744073709

-- The loop over the centroids: the least distance so far, and its centroid.
unfoldable pub closest : BreastCancerRecord → Table BreastCancerRecord → ℕ × ℕ → Outcome (ℕ × ℕ)
unfolding distance
closest r [] best = ok best
closest r ((i, c) ∷ cs) best =
    distance c r >>= λ d. closest r cs (if leb d best.0 then (d, i) else best)

-- `CentroidHistoryTable[key]`: a key that is not there gets an empty vector, which has no place 1.
unfoldable pub history_of : ℕ → Table (ℕ × ℕ) → Outcome (ℕ × ℕ)
unfolding find_key
history_of key h = elim (find_key key h) [ none ↦ undefined | some m ↦ ok m ]

-- A record gets a centroid, and is counted if it had it already.
unfoldable pub assign_record : ℕ × BreastCancerRecord → Clusters → Outcome Clusters
unfolding closest history_of replace_key
assign_record (key, r) s = do
  (d, cluster) ← closest r s.centroids (largest, 0)
  (current, previous) ← history_of key s.history
  ok (record s {
    history = replace_key key (cluster, current) s.history;
    convergence_count = if current == cluster then s.convergence_count + 1 else s.convergence_count;
  })

unfoldable pub assign_records : Table BreastCancerRecord → Clusters → Outcome Clusters
unfolding assign_record
assign_records [] s = ok s
assign_records (p ∷ ps) s = assign_record p s >>= assign_records ps

-- `assignmentStep`
unfoldable pub assignment_step : Clusters → Outcome Clusters
unfolding assign_records
assignment_step s = assign_records s.records (record s { convergence_count = 0 })

abbrev pub attributes : BreastCancerRecord → List ℤ
attributes r = r.a1 ∷ r.a2 ∷ r.a3 ∷ r.a4 ∷ r.a5 ∷ r.a6 ∷ r.a7 ∷ r.a8 ∷ r.a9 ∷ []

unfoldable pub set_attributes : List ℤ → BreastCancerRecord → BreastCancerRecord
set_attributes (x1 ∷ x2 ∷ x3 ∷ x4 ∷ x5 ∷ x6 ∷ x7 ∷ x8 ∷ x9 ∷ []) r = record r {
  a1 = x1;
  a2 = x2;
  a3 = x3;
  a4 = x4;
  a5 = x5;
  a6 = x6;
  a7 = x7;
  a8 = x8;
  a9 = x9;
}
set_attributes _ r = r

-- `temp[k] = temp[k] + ..`
unfoldable pub add_attributes : List ℤ → List ℤ → Outcome (List ℤ)
unfolding add_int
add_attributes (x ∷ xs) (y ∷ ys) = do v ← add_int x y; vs ← add_attributes xs ys; ok (v ∷ vs)
add_attributes [] ys = ok []
add_attributes (x ∷ xs) [] = ok []

-- `temp[k] / numberOfDataPoints`
unfoldable pub mean_of : List ℤ → ℕ → Outcome (List ℤ)
unfolding div_int
mean_of [] n = ok []
mean_of (x ∷ xs) n = do v ← div_int x (pos n); vs ← mean_of xs n; ok (v ∷ vs)

-- The loop over the history: the sums and the number of the records of a cluster.
unfoldable pub add_members :
    ℕ → Table BreastCancerRecord → Table (ℕ × ℕ) → List ℤ × ℕ → Outcome (List ℤ × ℕ)
unfolding add_attributes find_key
add_members cluster records [] (temp, n) = ok (temp, n)
add_members cluster records ((key, (current, previous)) ∷ h) (temp, n) = elim (current == cluster) [
  | true ↦
      add_attributes temp
        (attributes (elim (find_key key records) [ none ↦ blank_record | some r ↦ r ]))
      >>= λ sums. add_members cluster records h (sums, n + 1)
  | false ↦ add_members cluster records h (temp, n)
]

unfoldable pub move_centroid :
    Table BreastCancerRecord
    → Table (ℕ × ℕ)
    → ℕ × BreastCancerRecord
    → Outcome (ℕ × BreastCancerRecord)
unfolding add_members mean_of set_attributes
move_centroid records history (cluster, c) = do
  (temp, n) ← add_members cluster records history (replicate 9 (pos 0), 0)
  means ← mean_of temp n
  ok (cluster, set_attributes means c)

unfoldable pub move_centroids :
    Table BreastCancerRecord
    → Table (ℕ × ℕ)
    → Table BreastCancerRecord
    → Outcome (Table BreastCancerRecord)
unfolding move_centroid
move_centroids records history [] = ok []
move_centroids records history (c ∷ cs) = do
  moved ← move_centroid records history c
  rest ← move_centroids records history cs
  ok (moved ∷ rest)

-- `computeNewCentroid`
unfoldable pub compute_new_centroid : Clusters → Outcome Clusters
unfolding move_centroids
compute_new_centroid s = do
  cs ← move_centroids s.records s.history s.centroids
  ok (record s { centroids = cs })

-- A round of `while(!converge)`
unfoldable pub refine : Clusters → Outcome Clusters
unfolding assignment_step compute_new_centroid
refine s = assignment_step s >>= compute_new_centroid

-- At most `fuel` rounds, and whether they have converged.
unfoldable pub refine_until : ℕ → ℕ → Clusters → Outcome (Bool × Clusters)
unfolding refine
refine_until zero total s = ok (false, s)
refine_until (suc fuel) total s = refine s >>= λ s'.
    (let rest = refine_until fuel total s' in
      if s'.convergence_count == total then ok (true, s') else rest)
