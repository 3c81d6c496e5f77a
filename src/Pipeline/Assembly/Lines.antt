-- ===== src/Pipeline/Assembly/Lines.antt =====
-- What `parseAssemblyFile` of sim_p.cpp builds, and from which files.
use mscs.Common.{ℕ, ◌≡◌, ◌⊎◌, inl, inr, refl, List, [], ◌∷◌, ◌++◌, length-append, All-append, arith}
use mscs.Common.Outcome.{ok, undefined, Post, holds, Post-bind}
use mscs.Common.Dict.{map-AllValues}
use mscs.Common.Text.{Text, find}
use mscs.Simulator.Execute.{ltrim}
use mscs.Simulator.Assembly.{Assembly, drop_spaces, strip_comment, take_label, label_at}
use mscs.Simulator.Assembly.Lines.{
  StartsWord, IsTrimmed, IsWellFormed, ltrim-StartsWord, drop_spaces-EndsWord,
  cons_trimmed-IsTrimmed, label_at-IsWellFormed,
}
use mscs.Pipeline.Assembly.{chop, push_trimmed, parse_text, parse_lines, parse_assembly_file}

trim-IsTrimmed :
    (s : Text) → (s ≡ []) ⊎ StartsWord s → (drop_spaces s ≡ []) ⊎ IsTrimmed (drop_spaces s)
unfolding drop_spaces
trim-IsTrimmed [] h = inl refl
trim-IsTrimmed (c ∷ s) (inl e) = cc
trim-IsTrimmed (c ∷ s) (inr h) =
    inr (cons_trimmed-IsTrimmed c (drop_spaces s) (drop_spaces-EndsWord s) h)

push_trimmed-IsWellFormed :
    (t : Text) (a : Assembly)
    → (t ≡ []) ⊎ IsTrimmed t
    → IsWellFormed a
    → IsWellFormed (push_trimmed t a)
unfolding push_trimmed
push_trimmed-IsWellFormed [] a w h = h
push_trimmed-IsWellFormed (c ∷ t) a (inl e) h = cc
push_trimmed-IsWellFormed (c ∷ t) a (inr w) h = record {
  counted = omega (arith, h.counted, length-append a.vprogram ((c ∷ t) ∷ []));
  labels_within = map-AllValues a.mlabels (λ v within. omega arith) h.labels_within;
  trimmed = All-append IsTrimmed a.vprogram ((c ∷ t) ∷ []) h.trimmed (w, tt);
}

parse_text-IsWellFormed :
    (line : Text) (a : Assembly) → IsWellFormed a → IsWellFormed (parse_text line a)
unfolding parse_text take_label
parse_text-IsWellFormed line a h =
    let bare = strip_comment line in
    let (rest, a') = label_at bare (find b':' bare) a in
    push_trimmed-IsWellFormed (drop_spaces (ltrim rest)) a'
      (trim-IsTrimmed (ltrim rest) (ltrim-StartsWord rest))
      (label_at-IsWellFormed bare (find b':' bare) a h)

parse_lines-IsWellFormed :
    (lines : List Text) (a : Assembly) → IsWellFormed a → Post IsWellFormed (parse_lines lines a)
unfolding parse_lines
parse_lines-IsWellFormed [] a h = holds h
parse_lines-IsWellFormed (line ∷ []) a h = holds (parse_text-IsWellFormed line a h)
parse_lines-IsWellFormed (line ∷ next ∷ lines) a h = Post-bind (chop line) λ text _.
    parse_lines-IsWellFormed (next ∷ lines) (parse_text text a) (parse_text-IsWellFormed text a h)

pub parse_assembly_file-labels : (lines : List Text) → Post IsWellFormed (parse_assembly_file lines)
unfolding parse_assembly_file
parse_assembly_file-labels lines =
    parse_lines-IsWellFormed lines _ (record { counted = refl; labels_within = tt; trimmed = tt })

-- The lines of a file as `getline` gives them, each but the last with `c` at its end.
abbrev pub ended : ℕ → List Text → List Text
ended c [] = []
ended c (line ∷ []) = line ∷ []
ended c (line ∷ next ∷ lines) = (line ++ c ∷ []) ∷ ended c (next ∷ lines)

-- The lines taken in one after the other, with nothing cut off.
abbrev pub parse_texts : List Text → Assembly → Assembly
parse_texts [] a = a
parse_texts (line ∷ lines) a = parse_texts lines (parse_text line a)

chop-append : (s : Text) (c : ℕ) → chop (s ++ c ∷ []) ≡ ok s
unfolding chop
chop-append [] c = refl
chop-append (d ∷ []) c = refl
chop-append (d ∷ e ∷ s) c = rw (chop-append (e ∷ s) c) refl

-- A file whose lines, but for the last one, end with one more character, such as the carriage
-- return of a text file from Windows: that character is cut off each, whatever it is, and the
-- program and the labels are those of the lines without it.
pub parse_lines-ended :
    (c : ℕ) (lines : List Text) (a : Assembly)
    → parse_lines (ended c lines) a ≡ ok (parse_texts lines a)
unfolding parse_lines
parse_lines-ended c [] a = refl
parse_lines-ended c (line ∷ []) a = refl
parse_lines-ended c (line ∷ next ∷ []) a = rw (chop-append line c) refl
parse_lines-ended c (line ∷ next ∷ other ∷ lines) a =
    rw (chop-append line c) (parse_lines-ended c (next ∷ other ∷ lines) (parse_text line a))

chop-cases : (s : Text) → (chop s ≡ undefined) ⊎ ((t : Text) × (chop s ≡ ok t))
unfolding chop
chop-cases [] = inl refl
chop-cases (c ∷ []) = inr ([], refl)
chop-cases (c ∷ d ∷ s) = elim (chop-cases (d ∷ s)) [
  | inl e ↦ inl (rw e refl)
  | inr (t, e) ↦ inr (c ∷ t, rw e refl)
]

parse_lines-chop :
    (line next : Text) (lines : List Text)
    → ((a : Assembly) → parse_lines (next ∷ lines) a ≡ undefined)
    → (a : Assembly) → parse_lines (line ∷ next ∷ lines) a ≡ undefined
unfolding parse_lines
parse_lines-chop line next lines h a = elim (chop-cases line) [
  | inl e ↦ rw e refl
  | inr (t, e) ↦ rw e (h (parse_text t a))
]

-- A line with no character at all, not even a carriage return, that is not the last of the file:
-- its length less 1 is taken, and the file cannot be read, whatever else it has.
pub parse_lines-blank :
    (before : List Text) (next : Text) (lines : List Text) (a : Assembly)
    → parse_lines (before ++ [] ∷ next ∷ lines) a ≡ undefined
unfolding parse_lines chop
parse_lines-blank [] next lines a = refl
parse_lines-blank (s ∷ []) next lines a = parse_lines-chop s [] (next ∷ lines) (λ a'. refl) a
parse_lines-blank (s ∷ t ∷ before) next lines a =
    parse_lines-chop s t (before ++ [] ∷ next ∷ lines) (parse_lines-blank (t ∷ before) next lines) a
