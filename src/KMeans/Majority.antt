-- ===== src/KMeans/Majority.antt =====
-- What `calculatePPV` adds up.
use mscs.Common.{ℕ, ◌+◌, ◌≤◌, leb, [], ◌∷◌, arith, Bool-cases, inl, inr}
use mscs.KMeans.{BreastCancerRecord, Table, Clusters}
use mscs.KMeans.Files.{count_classes, calculate_ppv}

-- From any sums of which the second is not the greater one, and for any clusters: the records that
-- do not have the class of the majority of their cluster are not more than those that have it.
pub calculate_ppv-majority :
    (s : Clusters) (cs : Table BreastCancerRecord) (right wrong : ℕ)
    → wrong ≤ right
    → (calculate_ppv s cs (right, wrong)).1 ≤ (calculate_ppv s cs (right, wrong)).0
unfolding calculate_ppv
calculate_ppv-majority s [] right wrong h = h
calculate_ppv-majority s ((cluster, c) ∷ cs) right wrong h =
    let (benign, malignant) = count_classes cluster s.records s.history (0, 0) in
    elim (Bool-cases (leb malignant benign)) [
      | inl most ↦
          rw (most, calculate_ppv)
            (calculate_ppv-majority s cs (right + benign) (wrong + malignant) (ground arith))
      | inr fewer ↦
          rw (fewer, calculate_ppv)
            (calculate_ppv-majority s cs (right + malignant) (wrong + benign) (ground arith))
    ]
