-- ===== src/KMeans/Files.antt =====
-- `readInputFile`, `initializeCentroids`, `calculatePPV` and `main` of kmeans.cpp.
use mscs.Common.{
  ℕ, zero, suc, ◌+◌, ◌%◌, ◌==◌, Bool, true, false, leb, if◌then◌else◌, Option, none, some, List, [],
  ◌∷◌, ◌++◌, length,
}
use mscs.Common.Int.{ℤ, pos, negsuc, eqb_ℤ}
use mscs.Common.Outcome.{
  Outcome, ok, fail, undefined, ◌>>=◌, invalid_line, too_many_centroids, zero_centroids,
}
use mscs.Common.Text.{Text, find, atoi}
use mscs.KMeans.{BreastCancerRecord, blank_record, Table, Clusters, find_key, refine_until}

-- `switch(count)`
unfoldable pub set_element : ℕ → ℤ → BreastCancerRecord → BreastCancerRecord
set_element count v r =
    if count == 0
    then record r { scm = v }
    else if count == 1
    then record r { a1 = v }
    else if count == 2
    then record r { a2 = v }
    else if count == 3
    then record r { a3 = v }
    else if count == 4
    then record r { a4 = v }
    else if count == 5
    then record r { a5 = v }
    else if count == 6
    then record r { a6 = v }
    else if count == 7
    then record r { a7 = v }
    else if count == 8
    then record r { a8 = v }
    else if count == 9
    then record r { a9 = v }
    else r

-- What stands behind the last separator.
unfoldable pub set_class : Text → BreastCancerRecord → Outcome BreastCancerRecord
unfolding atoi
set_class [] r = ok r
set_class (c ∷ t) r = atoi (c ∷ t) >>= λ v. ok (record r { a10 = v })

-- The loop over the separators of a line, character by character; `element` is what has been read
-- since the last one.
unfoldable pub read_elements : Text → ℕ → Text → BreastCancerRecord → Outcome BreastCancerRecord
unfolding set_element set_class atoi
read_elements element count [] r = set_class element r
read_elements element count (c ∷ line) r = elim (c == b',') [
  | true ↦ atoi element >>= λ v. read_elements [] (count + 1) line (set_element count v r)
  | false ↦ read_elements (element ++ c ∷ []) count line r
]

unfoldable pub read_line : Text → Outcome BreastCancerRecord
unfolding find read_elements
read_line line = elim (find b',' line) [
  | none ↦ fail invalid_line
  | some k ↦ read_elements [] 0 line blank_record
]

-- A file that cannot be opened: the `std::string` that is thrown is caught nowhere.
unfoldable pub opened : Option (List Text) → Outcome (List Text)
opened none = undefined
opened (some lines) = ok lines

-- `readInputFile`: the records with their numbers, from 1. An empty line is left out.
unfoldable pub read_lines : ℕ → List Text → Outcome (Table BreastCancerRecord)
unfolding read_line
read_lines total [] = ok []
read_lines total ([] ∷ lines) = read_lines total lines
read_lines total ((c ∷ line) ∷ lines) = do
  r ← read_line (c ∷ line)
  rest ← read_lines (total + 1) lines
  ok ((total + 1, r) ∷ rest)

-- `CentroidData.insert`, which leaves what is there, and `*iter` of the end.
unfoldable pub insert_centroid :
    Option BreastCancerRecord → ℕ → Table BreastCancerRecord → Outcome (Table BreastCancerRecord)
unfolding find_key
insert_centroid none id t = undefined
insert_centroid (some r) id t = elim (find_key id t) [
  | none ↦ ok (t ++ (id, r) ∷ [])
  | some a ↦ ok t
]

-- The centroids are chosen by `rand()`, the parameter `pick`.
unfoldable pub choose_centroids :
    (ℕ → ℕ)
    → ℕ
    → ℕ
    → ℕ
    → Table BreastCancerRecord
    → Table BreastCancerRecord
    → Outcome (Table BreastCancerRecord)
unfolding insert_centroid find_key
choose_centroids pick total i zero records t = ok t
choose_centroids pick total i (suc n) records t =
    let id = pick i % total + 1 in
    insert_centroid (find_key id records) id t >>= choose_centroids pick total (i + 1) n records

-- The history of records from `i` on, all in the cluster 0.
unfoldable pub blank_history : ℕ → ℕ → Table (ℕ × ℕ)
blank_history i zero = []
blank_history i (suc n) = (i, (0, 0)) ∷ blank_history (i + 1) n

-- `iNumberOfCentroids > lTotalNumberOfRecords`, and the rounds of `i < iNumberOfCentroids`.
unfoldable pub is_enough : ℤ → ℕ → Bool
is_enough (pos n) total = leb n total
is_enough (negsuc n) total = true

unfoldable pub rounds_of : ℤ → ℕ
rounds_of (pos n) = n
rounds_of (negsuc n) = 0

-- The class of the records of a cluster: how many are benign, and how many malignant.
unfoldable pub count_classes : ℕ → Table BreastCancerRecord → Table (ℕ × ℕ) → ℕ × ℕ → ℕ × ℕ
unfolding find_key
count_classes cluster records [] counts = counts
count_classes cluster records ((key, (current, previous)) ∷ h) (benign, malignant) =
    let class =
      BreastCancerRecord.a10 (elim (find_key key records) [ none ↦ blank_record | some r ↦ r ]) in
    elim (current == cluster) [
      | true ↦ count_classes cluster records h (
        if eqb_ℤ class (pos 2) then benign + 1 else benign,
        if eqb_ℤ class (pos 4) then malignant + 1 else malignant,
      )
      | false ↦ count_classes cluster records h (benign, malignant)
    ]

-- `calculatePPV`: the true and the false positives. Their quotient as a `double` is left out.
unfoldable pub calculate_ppv : Clusters → Table BreastCancerRecord → ℕ × ℕ → ℕ × ℕ
unfolding count_classes
calculate_ppv s [] positives = positives
calculate_ppv s ((cluster, c) ∷ cs) (right, wrong) =
    let (benign, malignant) = count_classes cluster s.records s.history (0, 0) in
    elim (leb malignant benign) [
      | true ↦ calculate_ppv s cs (right + benign, wrong + malignant)
      | false ↦ calculate_ppv s cs (right + malignant, wrong + benign)
    ]

module _ (order_records : Table BreastCancerRecord → Table BreastCancerRecord)
    (order_history : Table (ℕ × ℕ) → Table (ℕ × ℕ)) (pick : ℕ → ℕ) where
  -- `initializeCentroids`. The tables are met in the orders of the parameters.
  unfoldable pub initialize_centroids : ℤ → Table BreastCancerRecord → Outcome Clusters
  unfolding choose_centroids blank_history is_enough rounds_of
  initialize_centroids number records =
      if is_enough number (length records)
      then (choose_centroids pick (length records) 0 (rounds_of number) records [] >>= λ cs.
          ok (record {
            records = order_records records;
            history = order_history (blank_history 1 (length records));
            centroids = order_records cs;
            convergence_count = 0;
          }))
      else fail too_many_centroids

  unfoldable pub cluster_lines : ℕ → ℤ → List Text → Outcome (Bool × (ℕ × ℕ))
  unfolding read_lines initialize_centroids refine_until calculate_ppv
  cluster_lines fuel number lines = do
    records ← read_lines 0 lines
    start ← initialize_centroids number records
    (done, s) ← refine_until fuel (length records) start
    ok (done, calculate_ppv s s.centroids (0, 0))

  -- `main`, with the file of its first argument and the number of its second one.
  unfoldable pub cluster_file : ℕ → Option (List Text) → ℤ → Outcome (Bool × (ℕ × ℕ))
  unfolding opened cluster_lines
  cluster_file fuel file number =
      if eqb_ℤ number (pos 0)
      then fail zero_centroids
      else opened file >>= cluster_lines fuel number
