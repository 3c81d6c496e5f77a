-- ===== src/Simulator/Operand.antt =====
-- Operands: `sLine.find(",")`, the copy into a character array, and the rest of the line.
pub mod Encode
use mscs.Common.{
  arith, ℕ, zero, suc, ◌<◌, ◌≡◌, ltb, lt→ltb, if◌then◌else◌, Option, none, some, [], ◌∷◌, length,
  take, drop,
}
use mscs.Common.Outcome.{Outcome, ok, undefined, ◌>>=◌}
use mscs.Common.Text.{Text, find}

-- A text copied with its terminating NUL into `char buffer[size]`.
unfoldable pub c_string : ℕ → Text → Outcome Text
c_string size t = if ltb (length t) size then ok t else undefined

-- The copy is the text.
pub c_string-eq_ok : (size : ℕ) (t : Text) {s : Text} → c_string size t ≡ ok s → s ≡ t
unfolding c_string
c_string-eq_ok size t h = ground arith

pub c_string-lt : (size : ℕ) (t : Text) → length t < size → c_string size t ≡ ok t
unfolding c_string
c_string-lt size t h = rw (lt→ltb _ _ h)

-- One round of the loops over operands, by what `find(",")` gives (-1 for `none`): the text in
-- `reg`, and `sLine.assign(sLine,i+1,..)`.
unfoldable pub operand_at : ℕ → Text → Option ℕ → Outcome (Text × Text)
unfolding c_string
operand_at size line none = do reg ← c_string size line; ok (reg, line)
operand_at size line (some zero) = do reg ← c_string size line; ok (reg, drop 1 line)
operand_at size line (some (suc k)) = do
  reg ← c_string size (take (suc k) line)
  ok (reg, drop (suc (suc k)) line)

unfoldable pub next_operand : ℕ → Text → Outcome (Text × Text)
unfolding operand_at find
next_operand size line = operand_at size line (find b',' line)

-- `sOpCode.find(".D") < sOpCode.length()` is `contains_text` of this.
abbrev pub dot_d : Text
dot_d = b'.' ∷ b'D' ∷ []
