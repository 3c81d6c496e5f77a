-- ===== src/Simulator/Assembly/Lines.antt =====
-- Trimming, and what `parseAssemblyFile` builds.
use mscs.Common.{
  take, ℕ, zero, suc, ◌+◌, ◌≤◌, ◌≡◌, ◌≢◌, ◌⊎◌, inl, inr, refl, ◌==◌, false, true, Bool-cases,
  Option, none, some, List, [], ◌∷◌, ◌++◌, length, length-append, All, All-append, arith,
}
use mscs.Common.Outcome.{Outcome, fail, never_returns}
use mscs.Common.Dict.{AllValues, insert-AllValues, map-AllValues}
use mscs.Common.Text.{find, find, Text}
use mscs.Simulator.Execute.{ltrim}
use mscs.Simulator.Assembly.{
  is_long, label_at, ok, cons_trimmed, unless_empty, Assembly, drop_spaces, rtrim, strip_comment,
  take_label, push_instruction, parse_line, parse_lines, parse_assembly_file,
}

-- The first character is there and is no space; so is the last.
abbrev pub StartsWord : Text → Type 0
StartsWord [] = ⊥
StartsWord (c ∷ s) = c ≢ 32

abbrev pub EndsWord : Text → Type 0
EndsWord [] = ⊥
EndsWord (c ∷ []) = c ≢ 32
EndsWord (c ∷ d ∷ s) = EndsWord (d ∷ s)

abbrev pub IsTrimmed : Text → Type 0
IsTrimmed s = StartsWord s × EndsWord s

pub ltrim-StartsWord : (s : Text) → (ltrim s ≡ []) ⊎ StartsWord (ltrim s)
unfolding ltrim
ltrim-StartsWord [] = inl refl
ltrim-StartsWord (c ∷ s) = elim (Bool-cases (c == 32)) [
  | inl space ↦ rw space (ltrim-StartsWord s)
  | inr word ↦ rw word (inr (ground arith))
]

ltrim_idem : (s : Text) → StartsWord s → ltrim s ≡ s
unfolding ltrim
ltrim_idem [] h = elim h [ ]
ltrim_idem (c ∷ s) h = ground arith

none-ne-some : {n : ℕ} → ◌≢◌ {A = Option ℕ} none (some n)
none-ne-some e = cc

-- Trimming the end keeps a word in front.
pub cons_trimmed-IsTrimmed :
    (c : ℕ) (t : Text) → (t ≡ []) ⊎ EndsWord t → c ≢ 32 → IsTrimmed (cons_trimmed c t)
unfolding cons_trimmed
cons_trimmed-IsTrimmed c [] h w = ground arith
cons_trimmed-IsTrimmed c (d ∷ t) (inl e) w = cc
cons_trimmed-IsTrimmed c (d ∷ t) (inr h) w = (w, h)

cons_trimmed-EndsWord :
    (c : ℕ) (t : Text)
    → (t ≡ []) ⊎ EndsWord t
    → (cons_trimmed c t ≡ []) ⊎ EndsWord (cons_trimmed c t)
unfolding cons_trimmed
cons_trimmed-EndsWord c [] h = ground arith
cons_trimmed-EndsWord c (d ∷ t) (inl e) = cc
cons_trimmed-EndsWord c (d ∷ t) (inr h) = inr h

pub drop_spaces-EndsWord : (s : Text) → (drop_spaces s ≡ []) ⊎ EndsWord (drop_spaces s)
unfolding drop_spaces
drop_spaces-EndsWord [] = inl refl
drop_spaces-EndsWord (c ∷ s) = cons_trimmed-EndsWord c (drop_spaces s) (drop_spaces-EndsWord s)

unless_empty-IsTrimmed : (t : Text) → IsTrimmed t → unless_empty t ≡ ok t
unfolding unless_empty
unless_empty-IsTrimmed [] h = elim h.0 [ ]
unless_empty-IsTrimmed (c ∷ t) h = refl

-- Of a text that begins with a word `rtrim` is defined, and the result is trimmed.
rtrim-IsTrimmed : (s : Text) → StartsWord s → (t : Text) × (rtrim s ≡ ok t) × IsTrimmed t
unfolding rtrim drop_spaces
rtrim-IsTrimmed [] h = elim h [ ]
rtrim-IsTrimmed (c ∷ s) h =
    let trimmed = cons_trimmed-IsTrimmed c (drop_spaces s) (drop_spaces-EndsWord s) h in
    (drop_spaces (c ∷ s), unless_empty-IsTrimmed (drop_spaces (c ∷ s)) trimmed, trimmed)

-- The line counter is the size of the program, labels stay within it, and its lines are trimmed.
pub record IsWellFormed (a : Assembly) : Type 0 where
  pub counted : a.line_number ≡ length a.vprogram
  pub labels_within : AllValues (λ t. t ≤ a.line_number) a.mlabels
  pub trimmed : All IsTrimmed a.vprogram

pub label_at-IsWellFormed :
    (line : Text) (i : Option ℕ) (a : Assembly)
    → IsWellFormed a
    → IsWellFormed (label_at line i a).1
unfolding label_at
label_at-IsWellFormed line none a h = h
label_at-IsWellFormed line (some i) a h = record {
  counted = h.counted;
  labels_within =
      insert-AllValues (λ t. t ≤ a.line_number) (take i line) a.line_number a.mlabels
        h.labels_within (omega arith);
  trimmed = h.trimmed;
}

push_instruction-IsWellFormed :
    (line : Text) (i : Option ℕ) (a : Assembly)
    → (line ≡ []) ⊎ StartsWord line
    → find 32 line ≡ i
    → IsWellFormed a
    → (a' : Assembly) × (push_instruction line i a ≡ ok a') × IsWellFormed a'
unfolding push_instruction find
push_instruction-IsWellFormed line none a w e h = (a, refl, h)
push_instruction-IsWellFormed line (some zero) a w e h = (a, refl, h)
push_instruction-IsWellFormed line (some (suc k)) a (inl empty) e h =
    absurd (none-ne-some (rw (empty, find) at e))
push_instruction-IsWellFormed line (some (suc k)) a (inr word) e h =
    let (t, trim, trimmed) = rtrim-IsTrimmed line word in
    (
      record a { vprogram = a.vprogram ++ t ∷ []; line_number = a.line_number + 1 },
      rw (ltrim_idem line word, trim) refl,
      record {
        counted = omega (arith, h.counted, length-append a.vprogram (t ∷ []));
        labels_within = map-AllValues a.mlabels (λ v within. omega arith) h.labels_within;
        trimmed = All-append IsTrimmed a.vprogram (t ∷ []) h.trimmed (trimmed, tt);
      },
    )

parse_line-IsWellFormed :
    (line : Text) (a : Assembly)
    → IsWellFormed a
    → (a' : Assembly) × (parse_line line a ≡ ok a') × IsWellFormed a'
unfolding parse_line take_label
parse_line-IsWellFormed line a h =
    let bare = strip_comment line in
    let (rest, a') = label_at bare (find b':' bare) a in
    push_instruction-IsWellFormed (ltrim rest) (find 32 (ltrim rest)) a' (ltrim-StartsWord rest)
      refl (label_at-IsWellFormed bare (find b':' bare) a h)

-- Every line fits, and the result is well-formed; or one does not fit, and there is no result.
abbrev pub IsParsed : List Text → Outcome Assembly → Type 0
IsParsed lines parsed =
    (All (λ line. length line ≤ 198) lines × ((a : Assembly) × (parsed ≡ ok a) × IsWellFormed a))
    ⊎ (¬ (All (λ line. length line ≤ 198) lines) × (parsed ≡ fail never_returns))

fits : (line : Text) → is_long line ≡ false → length line ≤ 198
fits line h = ground arith

long : (line : Text) → is_long line ≡ true → ¬ (length line ≤ 198)
long line h = λ le. absurd (ground arith)

parse_lines-IsParsed :
    (lines : List Text) (a : Assembly) → IsWellFormed a → IsParsed lines (parse_lines lines a)
unfolding parse_lines
parse_lines-IsParsed [] a h = inl (tt, (a, refl, h))
parse_lines-IsParsed (line ∷ lines) a h =
    let (a', parsed, h') = parse_line-IsWellFormed (take 198 line) a h in
    elim (Bool-cases (is_long line)) [
      | inl is ↦ inr (λ all. long line is all.0, rw (parsed, is) refl)
      | inr not_long ↦
          rw (parsed, not_long)
            (elim (parse_lines-IsParsed lines a' h') [
              | inl (all, good) ↦ inl ((fits line not_long, all), good)
              | inr (none_all, never) ↦ inr (λ all. none_all all.1, never)
            ])
    ]

-- Either no line is longer than 198 characters: then `parseAssemblyFile` returns (`rtrim` never
-- throws), the line counter is the number of instructions, no label is beyond it, and every
-- instruction begins and ends with a character that is no space. Or some line is longer: then the
-- function never returns, whatever the lines are.
pub parse_assembly_file-IsParsed : (lines : List Text) → IsParsed lines (parse_assembly_file lines)
unfolding parse_assembly_file
parse_assembly_file-IsParsed lines =
    parse_lines-IsParsed lines _ (record { counted = refl; labels_within = tt; trimmed = tt })
