-- ===== src/Simulator/Params/Table.antt =====
-- A parameters file that is written entry by entry is read back.
use mathlib.Core.List.{append_assoc}
use mscs.Common.{
  ℕ, zero, suc, ◌+◌, ◌<◌, ◌≤◌, take, ◌≡◌, refl, sym, ap, ◌∙◌, true, false, ◌==◌, none, some, List,
  [], ◌∷◌, ◌++◌, length, drop, replicate, take-append, All, map, arith,
}
use mscs.Common.Int.{ℤ, pos_part, neg_part}
use mscs.Common.Outcome.{ok}
use mscs.Common.Text.{Text, codes, starts_with, find, find_last, Free, find-Free, atoi}
use mscs.Common.Dict.{Dict, insert}
use mscs.Simulator.Operand.{c_string-lt}
use mscs.Simulator.Operand.Encode.{drop-append_cons}
use mscs.Simulator.Assembly.{is_long}
use mscs.Simulator.Params.{read_entry, parse_arch_params}

-- An opcode, one space or more, and the digits of its cycles.
pub record Entry : Type 0 where
  pub op : Text
  pub spaces : ℕ
  pub digits : Text
  pub cycles : ℤ

abbrev pub entry_line : Entry → Text
entry_line e = e.op ++ 32 ∷ (replicate e.spaces 32 ++ e.digits)

-- The opcode, the digits and the line fit their arrays, and the line does not look like the end of the table.
pub record IsEntry (e : Entry) : Type 0 where
  pub op_free : Free 32 e.op
  pub digits_free : Free 32 e.digits
  pub op_short : length e.op < 10
  pub digits_short : length e.digits < 4
  pub line_short : length (entry_line e) ≤ 198
  pub no_dash : starts_with (codes "-") (entry_line e) ≡ false
  pub value : atoi e.digits ≡ ok e.cycles
  pub positive : (pos_part e.cycles + neg_part e.cycles == 0) ≡ false

find_last-none : (c : ℕ) (s : Text) → Free c s → find_last c s ≡ none
unfolding find_last
find_last-none c [] h = refl
find_last-none c (d ∷ s) h = rw (find_last-none c s h.1) (ground arith)

find_last-Free : (c : ℕ) (s t : Text) → Free c t → find_last c (s ++ c ∷ t) ≡ some (length s)
unfolding find_last
find_last-Free c [] t h = rw (find_last-none c t h) (ground arith)
find_last-Free c (d ∷ s) t h = rw (find_last-Free c s t h) refl

-- The last space may be taken for the first of the line.
shift_space : (k : ℕ) (t : Text) → 32 ∷ (replicate k 32 ++ t) ≡ replicate k 32 ++ 32 ∷ t
shift_space zero t = refl
shift_space (suc k) t = ap (λ s. 32 ∷ s) (shift_space k t)

entry_line-shift : (e : Entry) → entry_line e ≡ (e.op ++ replicate e.spaces 32) ++ 32 ∷ e.digits
entry_line-shift e =
    ap (λ t. e.op ++ t) (shift_space e.spaces e.digits)
    ∙ sym (append_assoc e.op (replicate e.spaces 32) (32 ∷ e.digits))

read_entry-entry_line :
    (e : Entry)
    → IsEntry e
    → read_entry (entry_line e) (find 32 (entry_line e)) (find_last 32 (entry_line e))
      ≡ ok (some (e.op, e.cycles))
unfolding read_entry
read_entry-entry_line e h =
    let front = e.op ++ replicate e.spaces 32 in
    let last : find_last 32 (entry_line e) ≡ some (length front) =
      ap (find_last 32) (entry_line-shift e) ∙ find_last-Free 32 front e.digits h.digits_free in
    let rest : drop (suc (length front)) (entry_line e) ≡ e.digits =
      ap (drop (suc (length front))) (entry_line-shift e) ∙ drop-append_cons front e.digits 32 in
    rw
      (
        find-Free 32 e.op (replicate e.spaces 32 ++ e.digits) h.op_free,
        last,
        take-append e.op (32 ∷ (replicate e.spaces 32 ++ e.digits)),
        c_string-lt 10 e.op h.op_short,
        rest,
        c_string-lt 4 e.digits h.digits_short,
        h.value,
      )
      refl

-- The table of a list of entries: the first one of an opcode counts.
pub insert_entries : List Entry → Dict ℤ → Dict ℤ
insert_entries [] table = table
insert_entries (e ∷ es) table = insert_entries es (insert e.op e.cycles table)

take-all : (n : ℕ) (s : Text) → length s ≤ n → take n s ≡ s
take-all zero [] h = refl
take-all (suc n) [] h = refl
take-all zero (c ∷ s) h = elim h [ ]
take-all (suc n) (c ∷ s) h = ap (λ t. c ∷ t) (take-all n s (omega arith))

pub take-fits : (s : Text) → length s ≤ 198 → take 198 s ≡ s
take-fits s h = take-all 198 s h

pub not_long : (s : Text) → length s ≤ 198 → is_long s ≡ false
not_long s h = ground arith

-- Lines of well-formed entries, closed by a line that begins with a dash, are read: the function
-- succeeds, whatever stands behind that line, and has inserted the entries in turn.
pub parse_arch_params-entries :
    (es : List Entry) (s : Text) (rest : List Text) (table : Dict ℤ)
    → All IsEntry es
    → parse_arch_params (map entry_line es ++ (b'-' ∷ s) ∷ rest) table
      ≡ ok (true, insert_entries es table)
unfolding parse_arch_params insert_entries
parse_arch_params-entries [] s rest table h = refl
parse_arch_params-entries (e ∷ es) s rest table h =
    rw
      (
        take-fits (entry_line e) h.0.line_short,
        h.0.no_dash,
        read_entry-entry_line e h.0,
        h.0.positive,
        not_long (entry_line e) h.0.line_short,
      )
      (parse_arch_params-entries es s rest (insert e.op e.cycles table) h.1)
