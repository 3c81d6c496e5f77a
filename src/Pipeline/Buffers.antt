-- ===== src/Pipeline/Buffers.antt =====
-- The character arrays of sim_p.cpp, such as `char cTempA[20]`, byte by byte: what a copy or a
-- `sprintf` leaves behind its end stays.
pub mod Texts
use mscs.Common.{
  ℕ, ◌==◌, Bool, true, false, leb, if◌then◌else◌, List, [], ◌∷◌, ◌++◌, length, drop, replicate,
}
use mscs.Common.Outcome.{Outcome, ok, undefined, ◌>>=◌}
use mscs.Common.Text.{Text}

-- `memset(buffer,'\0',20)`
abbrev pub zeros : List ℕ
zeros = replicate 20 0

-- Bytes copied over the first ones of an array; past its end this is undefined.
unfoldable pub copy_into : List ℕ → List ℕ → Outcome (List ℕ)
copy_into bytes buffer =
    if leb (length bytes) (length buffer)
    then ok (bytes ++ drop (length bytes) buffer)
    else undefined

-- `sprintf(buffer,..)` writes the NUL too.
unfoldable pub print_into : Text → List ℕ → Outcome (List ℕ)
unfolding copy_into
print_into t buffer = copy_into (t ++ 0 ∷ []) buffer

-- An array as a C string; without a NUL inside the array, to read it is undefined.
unfoldable pub c_text : List ℕ → Outcome Text
c_text [] = undefined
c_text (b ∷ bs) = if b == 0 then ok [] else (c_text bs >>= λ t. ok (b ∷ t))

-- `strlen(t) == 0`, and `s.length() == 0`
unfoldable pub is_empty : Text → Bool
is_empty [] = true
is_empty (c ∷ t) = false
