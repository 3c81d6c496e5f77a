-- ===== src/Simulator/Assembly/Words.antt =====
-- Comments, and lines that hold a single word, with a space behind it or without.
use mscs.Common.{
  List, All, map, sym, length-append, ◌<◌, ◌≤◌, ℕ, ◌+◌, ◌≡◌, ◌≢◌, refl, ap, ◌∙◌, some, [], ◌∷◌,
  ◌++◌, length, take-append, arith,
}
use mscs.Common.Outcome.{ok}
use mscs.Common.Text.{Text, Free, Free-append, find-Free, find-none}
use mathlib.Core.List.{append-nil, append_assoc}
use mscs.Simulator.Params.Table.{take-fits, not_long}
use mscs.Simulator.Execute.{ltrim}
use mscs.Simulator.Assembly.{
  Assembly, cons_trimmed, drop_spaces, rtrim, unless_empty, strip_comment, label_at, take_label,
  push_instruction, parse_line, parse_lines,
}

strip_comment-append :
    (s comment : Text) → Free b';' s → strip_comment (s ++ b';' ∷ comment) ≡ strip_comment s
unfolding strip_comment
strip_comment-append s comment h =
    rw (find-Free b';' s comment h, find-none b';' s h) (take-append s (b';' ∷ comment))

-- What stands behind the first `;` of a line has no effect.
pub parse_line-comment :
    (s comment : Text) (a : Assembly)
    → Free b';' s
    → parse_line (s ++ b';' ∷ comment) a ≡ parse_line s a
unfolding parse_line
parse_line-comment s comment a h = rw (strip_comment-append s comment h)

cons_trimmed-word : (c : ℕ) (s : Text) → c ≢ 32 → cons_trimmed c s ≡ c ∷ s
unfolding cons_trimmed
cons_trimmed-word c [] h = ground arith
cons_trimmed-word c (d ∷ s) h = refl

ltrim-word : (c : ℕ) (s : Text) → c ≢ 32 → ltrim (c ∷ s) ≡ c ∷ s
unfolding ltrim
ltrim-word c s h = ground arith

drop_spaces-word : (s : Text) → Free 32 s → drop_spaces (s ++ 32 ∷ []) ≡ s
unfolding drop_spaces
drop_spaces-word [] h = refl
drop_spaces-word (c ∷ s) h =
    ap (cons_trimmed c) (drop_spaces-word s h.1) ∙ cons_trimmed-word c s h.0

rtrim-word : (c : ℕ) (s : Text) → Free 32 (c ∷ s) → rtrim (c ∷ s ++ 32 ∷ []) ≡ ok (c ∷ s)
unfolding rtrim unless_empty
rtrim-word c s h = ap unless_empty (drop_spaces-word (c ∷ s) h) ∙ refl

-- The line of one word and a space: the word is kept alone.
push_instruction-word :
    (c : ℕ) (s : Text) (a : Assembly)
    → Free 32 (c ∷ s)
    → push_instruction (c ∷ s ++ 32 ∷ []) (some (length (c ∷ s))) a
      ≡ ok (record a { vprogram = a.vprogram ++ (c ∷ s) ∷ []; line_number = a.line_number + 1 })
unfolding push_instruction
push_instruction-word c s a h = rw (ltrim-word c (s ++ 32 ∷ []) h.0, rtrim-word c s h) refl

-- A word without a space, a colon or a semicolon, for which there is room in the buffer.
abbrev pub IsWord : Text → Type 0
IsWord [] = ⊥
IsWord (c ∷ s) = Free 32 (c ∷ s) × Free b':' (c ∷ s) × Free b';' (c ∷ s) × (length (c ∷ s) < 198)

abbrev pub with_space : Text → Text
with_space w = w ++ 32 ∷ []

parse_line-with_space :
    (w : Text) (a : Assembly)
    → IsWord w
    → parse_line (with_space w) a
      ≡ ok (record a { vprogram = a.vprogram ++ w ∷ []; line_number = a.line_number + 1 })
unfolding parse_line take_label label_at strip_comment
parse_line-with_space [] a h = elim h [ ]
parse_line-with_space (c ∷ s) a (no_space, no_colon, no_semicolon, room) =
    rw
      (
        find-none b';' (c ∷ s ++ 32 ∷ [])
            (Free-append b';' (c ∷ s) (32 ∷ []) no_semicolon (omega arith)),
        find-none b':' (c ∷ s ++ 32 ∷ [])
            (Free-append b':' (c ∷ s) (32 ∷ []) no_colon (omega arith)),
        ltrim-word c (s ++ 32 ∷ []) no_space.0,
        find-Free 32 (c ∷ s) [] no_space,
      )
      (push_instruction-word c s a no_space)

parse_line-word : (w : Text) (a : Assembly) → IsWord w → parse_line w a ≡ ok a
unfolding parse_line take_label label_at strip_comment push_instruction
parse_line-word [] a h = elim h [ ]
parse_line-word (c ∷ s) a (no_space, no_colon, no_semicolon, room) = rw (
  find-none b';' (c ∷ s) no_semicolon,
  find-none b':' (c ∷ s) no_colon,
  ltrim-word c s no_space.0,
  find-none 32 (c ∷ s) no_space,
)

length-word : (w : Text) → IsWord w → length w ≤ 198
length-word [] h = elim h [ ]
length-word (c ∷ s) h = omega arith

length-with_space : (w : Text) → IsWord w → length (with_space w) ≤ 198
length-with_space [] h = elim h [ ]
length-with_space (c ∷ s) h = omega (arith, length-append (c ∷ s) (32 ∷ []))

pub parse_lines-with_space :
    (words : List Text) (a : Assembly)
    → All IsWord words
    → parse_lines (map with_space words) a
      ≡ ok (record a { vprogram = a.vprogram ++ words; line_number = a.line_number + length words })
unfolding parse_lines
parse_lines-with_space [] a h =
    ap {A = List Text × ℕ} (λ p. ok (record a { vprogram = p.0; line_number = p.1 }))
      (ap (λ v. (v, a.line_number)) (sym (append-nil a.vprogram))
        ∙ ap (λ n. (a.vprogram ++ [], n)) (omega arith))
parse_lines-with_space (w ∷ words) a h =
    let kept = record a { vprogram = a.vprogram ++ w ∷ []; line_number = a.line_number + 1 } in
    rw
      (
        take-fits (with_space w) (length-with_space w h.0),
        parse_line-with_space w a h.0,
        not_long (with_space w) (length-with_space w h.0),
      )
      (parse_lines-with_space words kept h.1
        ∙ ap {A = List Text × ℕ} (λ p. ok (record a { vprogram = p.0; line_number = p.1 }))
            (ap (λ v. (v, kept.line_number + length words)) (append_assoc a.vprogram (w ∷ []) words)
              ∙ ap (λ n. (a.vprogram ++ w ∷ words, n)) (omega arith)))

pub parse_lines-words :
    (words : List Text) (a : Assembly) → All IsWord words → parse_lines words a ≡ ok a
unfolding parse_lines
parse_lines-words [] a h = refl
parse_lines-words (w ∷ words) a h =
    rw (take-fits w (length-word w h.0), parse_line-word w a h.0, not_long w (length-word w h.0))
      (parse_lines-words words a h.1)
