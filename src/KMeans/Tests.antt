-- ===== src/KMeans/Tests.antt =====
-- Runs on small files, and the theorems at concrete tables.
use mscs.Common.{ℕ, some, ◌*◌, ◌≡◌, refl, List, replicate, true, [], ◌∷◌, All}
use mscs.Common.Int.{ℤ, pos, ◌-ℤ◌}
use mscs.Common.Outcome.{ok, undefined, fail, Post, invalid_line}
use mscs.Common.Text.{codes, parse_signed, parse_digits, skip_space, int_or_undefined}
use mscs.KMeans.{
  BreastCancerRecord, blank_record, Clusters, largest, closest, refine, square_of, checked_sum,
  distance, history_of, replace_key, find_key, assign_record, assign_records, assignment_step,
  add_members, mean_of, compute_new_centroid,
}
use mscs.KMeans.Nearest.{Any, IsFound, AtLeast, closest-nearest}
use mscs.KMeans.Twins.{twins, HasNone, refine-twins}
use mscs.KMeans.Files.{cluster_file}

-- Records 1 and 3 are the centroids.
two_clusters :
    cluster_file
      (λ t. t)
      (λ t. t)
      (λ i. 2 * i)
      5
      (some (
        codes "7,1,1,1,1,1,1,1,1,1,2"
        ∷ codes "8,1,2,1,1,1,1,1,1,1,2"
        ∷ []
        ∷ codes "9,9,9,9,9,9,9,9,9,9,4"
        ∷ codes "10,9,8,9,9,9,9,9,9,9,2"
        ∷ []))
      (pos 2)
    ≡ ok (true, (3, 1))
unfolding cluster_file parse_signed parse_digits skip_space int_or_undefined
two_clusters = refl

no_separator :
    cluster_file (λ t. t) (λ t. t) (λ i. i) 5 (some (codes "7" ∷ [])) (pos 1) ≡ fail invalid_line
unfolding cluster_file
no_separator = refl

abbrev near : BreastCancerRecord
near = record blank_record { a1 = pos 3; a2 = pos 4 }

abbrev far : BreastCancerRecord
far = record blank_record { a1 = pos 9; a2 = pos 9 }

closest-nearest_example :
    Post
      (λ found.
        Any (IsFound blank_record found) ((1, far) ∷ (2, near) ∷ [])
        × All (AtLeast blank_record found.0) ((1, far) ∷ (2, near) ∷ []))
      (closest blank_record ((1, far) ∷ (2, near) ∷ []) (largest, 0))
closest-nearest_example = closest-nearest blank_record (1, far) ((2, near) ∷ [])

-- The two centroids are the records 1 and 2, which have the same attributes.
abbrev start : Clusters
start = record {
  records = (1, near) ∷ (2, near) ∷ (3, far) ∷ [];
  history = (1, (0, 0)) ∷ (2, (0, 0)) ∷ (3, (0, 0)) ∷ [];
  centroids = twins 1 2 near (pos 0) (pos 0);
  convergence_count = 0;
}

-- Behind the assignment step: all three are in cluster 2.
abbrev assigned : Clusters
assigned = record start { history = (1, (2, 0)) ∷ (2, (2, 0)) ∷ (3, (2, 0)) ∷ [] }

refine-twins_example :
    HasNone 1 assigned.history
    × (assigned.centroids ≡ start.centroids)
    × ((sums : List ℤ) × (n : ℕ) × (add_members 1 assigned.records assigned.history
            (replicate 9 (pos 0), 0)
          ≡ ok (sums, n))
        × (n ≡ 0)
        × (mean_of sums n ≡ undefined))
    × (compute_new_centroid assigned ≡ undefined)
    × (refine start ≡ undefined)
unfolding assignment_step assign_records assign_record closest distance square_of checked_sum
    history_of find_key replace_key ◌-ℤ◌
refine-twins_example =
    refine-twins 1 2 near (pos 0) (pos 0) refl start assigned refl (refl, (refl, (refl, tt))) refl
