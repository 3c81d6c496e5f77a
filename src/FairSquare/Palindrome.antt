-- ===== src/FairSquare/Palindrome.antt =====
-- `ispalindrome` against the text read backwards.
use mscs.Common.{
  ℕ, zero, suc, ◌+◌, ◌-◌, ◌/◌, ◌<◌, ◌≤◌, ◌==◌, ◌≡◌, refl, sym, ap, ◌∙◌, ◌↔◌, inl, inr, true, false,
  ltb, Option, none, some, length, get_elem?, arith, get_elem?-lt, Bool-cases,
}
use mscs.Common.Text.{Text}
use mscs.FairSquare.{print_unsigned, same, mirrored, is_palindrome}

-- The text is the same from both ends.
abbrev pub IsMirror : Text → Type 0
IsMirror s = (j : ℕ) → j < length s → get_elem? s j ≡ get_elem? s (length s - 1 - j)

same→eq : (o p : Option ℕ) → same o p ≡ true → o ≡ p
unfolding same
same→eq none p h = cc
same→eq (some a) none h = cc
same→eq (some a) (some b) h = ground arith

same_self : (o : Option ℕ) {a : ℕ} → o ≡ some a → same o o ≡ true
unfolding same
same_self none h = cc
same_self (some b) h = ground arith

mirrored→eq :
    (left j : ℕ) (s : Text)
    → mirrored left j s ≡ true
    → (k : ℕ) → j ≤ k
    → k < j + left
    → get_elem? s k ≡ get_elem? s (length s - 1 - k)
unfolding mirrored
mirrored→eq zero j s h k low high = let never : ⊥ = omega arith in elim never [ ]
mirrored→eq (suc left) j s h k low high =
    elim (Bool-cases (same (get_elem? s j) (get_elem? s (length s - 1 - j)))) [
      | inl equal ↦ elim (Bool-cases (k == j)) [
        | inl here ↦
            let at : k ≡ j = ground arith in
            rw at (same→eq (get_elem? s j) (get_elem? s (length s - 1 - j)) equal)
        | inr later ↦ mirrored→eq left (suc j) s (rw equal at h) k (ground arith) (omega arith)
      ]
      | inr different ↦ let absurd : false ≡ true = rw different at h in cc
    ]

eq→mirrored : (left j : ℕ) (s : Text) → j + left ≤ length s → IsMirror s → mirrored left j s ≡ true
unfolding mirrored
eq→mirrored zero j s h mirror = refl
eq→mirrored (suc left) j s h mirror =
    let (a, at) = get_elem?-lt s (length s - 1 - j) (omega arith) in
    rw (mirror j (omega arith), same_self (get_elem? s (length s - 1 - j)) at)
      (eq→mirrored left (suc j) s (omega arith) mirror)

-- A place of the second half has its mirror in the first.
halves-IsMirror :
    (s : Text)
    → ((k : ℕ) → 0 ≤ k → k < 0 + length s / 2 → get_elem? s k ≡ get_elem? s (length s - 1 - k))
    → IsMirror s
halves-IsMirror s first j h = elim (Bool-cases (ltb j (length s / 2))) [
  | inl low ↦ first j (omega arith) (ground arith)
  | inr high ↦ elim (Bool-cases (ltb (length s - 1 - j) (length s / 2))) [
    | inl low ↦
        let back : length s - 1 - (length s - 1 - j) ≡ j = omega arith in
        sym (first (length s - 1 - j) (omega arith) (ground arith) ∙ ap (get_elem? s) back)
    | inr middle ↦ ap (get_elem? s) (ground arith)
  ]
]

-- `ispalindrome` answers true for the numbers whose text of decimal digits is the same from both ends, and
-- only for these.
pub is_palindrome_iff : (num : ℕ) → (is_palindrome num ≡ true) ↔ IsMirror (print_unsigned num)
unfolding is_palindrome
is_palindrome_iff num =
    let str = print_unsigned num in
    (
      (λ h. halves-IsMirror str (mirrored→eq (length str / 2) 0 str h)),
      (λ h. eq→mirrored (length str / 2) 0 str (omega arith) h),
    )
