-- ===== src/Common/Text/Search.antt =====
-- Comparison, searching and trimming of strings: `==`, `find`, `find_last_of`, `compare(0,n,..)`.
use Prim.Native.Nat.{ℕ, suc, ◌+◌}
use Prim.Native.Char.{code}
use Prim.Native.String.{String}
use mscs.Common.Tests.{◌==◌, if◌then◌else◌}
use mscs.Common.Lists.{length, drop}
use mathlib.Core.Path.{◌≡◌, refl}
use mathlib.Core.Logic.{◌↔◌, ◌≢◌}
use mathlib.Core.Bool.{Bool, true, false, ◌&&◌, ◌||◌}
use mathlib.Core.Option
use mathlib.Core.Option.{Option, none, some}
use mathlib.Core.List.{List, [], ◌∷◌, ◌++◌}
use native.Mathlib.Omega.{arith}

abbrev pub Text : Type 0
Text = List ℕ

-- The character codes of a literal.
abbrev pub codes : String → Text
codes String.[] = []
codes (String.◌∷◌ c s) = code c ∷ codes s

unfoldable pub text_eq : Text → Text → Bool
text_eq [] [] = true
text_eq [] (d ∷ t) = false
text_eq (c ∷ s) [] = false
text_eq (c ∷ s) (d ∷ t) = c == d && text_eq s t

pub text_eq_refl : (s : Text) → text_eq s s ≡ true
unfolding text_eq
text_eq_refl [] = refl
text_eq_refl (c ∷ s) = ground (arith, text_eq_refl s)

pub text_eq→eq : (s t : Text) → text_eq s t ≡ true → s ≡ t
unfolding text_eq
text_eq→eq [] [] h = refl
text_eq→eq [] (d ∷ t) h = cc
text_eq→eq (c ∷ s) [] h = cc
text_eq→eq (c ∷ s) (d ∷ t) h = ground (arith, text_eq→eq s t)

pub text_eq_iff : (s t : Text) → (text_eq s t ≡ true) ↔ (s ≡ t)
text_eq_iff s t = (text_eq→eq s t, λ e. rw e (text_eq_refl t))

-- `s.find(c)`: the first position of a character.
unfoldable pub find : ℕ → Text → Option ℕ
find c [] = none
find c (d ∷ s) = if d == c then some 0 else Option.map suc (find c s)

-- `s.find(c, i)`: the first position that is not below `i`.
unfoldable pub find_from : ℕ → ℕ → Text → Option ℕ
find_from c i s = Option.map (λ k. i + k) (find c (drop i s))

-- `s.find_last_of(c)`: the last position of a character.
unfoldable pub find_last : ℕ → Text → Option ℕ
find_last c [] = none
find_last c (d ∷ s) = elim (find_last c s) [
  | some k ↦ some (suc k)
  | none ↦ if d == c then some 0 else none
]

-- `s.compare(0, n, p) == 0`, where `n` is the length of `p`.
unfoldable pub starts_with : Text → Text → Bool
starts_with [] s = true
starts_with (c ∷ p) [] = false
starts_with (c ∷ p) (d ∷ s) = c == d && starts_with p s

-- `s.find(p) < s.length()` for a text `p` that is not empty.
unfoldable pub contains_text : Text → Text → Bool
contains_text p [] = false
contains_text p (c ∷ s) = starts_with p (c ∷ s) || contains_text p s

-- No character of the text is `c`.
abbrev pub Free : ℕ → Text → Type 0
Free c [] = Unit
Free c (d ∷ s) = (d ≢ c) × Free c s

pub find-Free : (c : ℕ) (s t : Text) → Free c s → find c (s ++ c ∷ t) ≡ some (length s)
unfolding find
find-Free c [] t h = ground arith
find-Free c (d ∷ s) t h = rw (find-Free c s t h.1) (ground arith)

pub find-none : (c : ℕ) (s : Text) → Free c s → find c s ≡ none
unfolding find
find-none c [] h = refl
find-none c (d ∷ s) h = rw (find-none c s h.1) (ground arith)

pub Free-append : (c : ℕ) (s t : Text) → Free c s → Free c t → Free c (s ++ t)
Free-append c [] t h k = k
Free-append c (d ∷ s) t h k = (h.0, Free-append c s t h.1 k)
