-- ===== src/Simulator/Transfer/Memory.antt =====
-- The bytes of the memory: what `memcpy` writes, what it leaves, and what it reads back.
use mscs.Common.{
  ℕ, zero, suc, ◌+◌, ◌≤◌, ◌<◌, ◌≡◌, ◌≢◌, ◌⊎◌, refl, ap, List, [], ◌∷◌, ◌++◌, length, take,
  replicate, All, arith,
}
use mscs.Common.Text.{Text}
use mscs.Simulator.Transfer.{read_mem, write_mem, until_nul, padded}

-- A write changes nothing below its address or behind its last byte.
pub write_mem-outside :
    (a : ℕ) (bs : List ℕ) (mem : ℕ → ℕ) (x : ℕ)
    → (x < a) ⊎ (a + length bs ≤ x)
    → write_mem a bs mem x ≡ mem x
unfolding write_mem
write_mem-outside a [] mem x h = refl
write_mem-outside a (b ∷ bs) mem x h = ground (arith, write_mem-outside (a + 1) bs mem x)

-- Reading looks at no byte below the address.
read_mem-congr :
    (n a : ℕ) (f g : ℕ → ℕ) → ((x : ℕ) → a ≤ x → f x ≡ g x) → read_mem n a f ≡ read_mem n a g
unfolding read_mem
read_mem-congr zero a f g h = refl
read_mem-congr (suc n) a f g h =
    rw (h a (omega arith), read_mem-congr n (a + 1) f g (λ x le. h x (omega arith))) refl

write_mem-first : (a b : ℕ) (bs : List ℕ) (mem : ℕ → ℕ) → write_mem a (b ∷ bs) mem a ≡ b
unfolding write_mem
write_mem-first a b bs mem = ground arith

write_mem-rest :
    (a b : ℕ) (bs : List ℕ) (mem : ℕ → ℕ) (x : ℕ)
    → a + 1 ≤ x
    → write_mem a (b ∷ bs) mem x ≡ write_mem (a + 1) bs mem x
unfolding write_mem
write_mem-rest a b bs mem x h = ground arith

-- Reading what was written gives it back.
pub read_mem-write_mem :
    (a : ℕ) (bs : List ℕ) (mem : ℕ → ℕ) → read_mem (length bs) a (write_mem a bs mem) ≡ bs
unfolding read_mem
read_mem-write_mem a [] mem = refl
read_mem-write_mem a (b ∷ bs) mem =
    rw
      (
        write_mem-first a b bs mem,
        read_mem-congr (length bs) (a + 1) (write_mem a (b ∷ bs) mem) (write_mem (a + 1) bs mem)
            (write_mem-rest a b bs mem),
        read_mem-write_mem (a + 1) bs mem,
      )
      refl

-- No character of the text is NUL.
abbrev pub NulFree : Text → Type 0
NulFree = All (λ c. c ≢ 0)

until_nul-zeros : (k j : ℕ) → until_nul (take k (replicate j 0)) ≡ []
unfolding until_nul
until_nul-zeros zero j = refl
until_nul-zeros (suc k) zero = refl
until_nul-zeros (suc k) (suc j) = refl

until_nul-take :
    (k j : ℕ) (t : Text) → NulFree t → length t ≤ k → until_nul (take k (t ++ replicate j 0)) ≡ t
unfolding until_nul
until_nul-take k j [] h le = until_nul-zeros k j
until_nul-take zero j (c ∷ t) h le = absurd (omega arith)
until_nul-take (suc k) j (c ∷ t) h le = ground (arith, until_nul-take k j t h.1 (omega arith))

-- An array that was cleared and printed to holds the text.
pub until_nul-padded : (k : ℕ) (t : Text) → NulFree t → length t ≤ k → until_nul (padded k t) ≡ t
unfolding padded
until_nul-padded k t = until_nul-take k k t

length-take_zeros : (k j : ℕ) → k ≤ j → length {A = ℕ} (take k (replicate j 0)) ≡ k
length-take_zeros zero j h = refl
length-take_zeros (suc k) zero h = elim h [ ]
length-take_zeros (suc k) (suc j) h = ap suc (length-take_zeros k j (omega arith))

length-take_padding : (k j : ℕ) (t : Text) → k ≤ j → length (take k (t ++ replicate j 0)) ≡ k
length-take_padding k j [] h = length-take_zeros k j h
length-take_padding zero j (c ∷ t) h = refl
length-take_padding (suc k) j (c ∷ t) h = ap suc (length-take_padding k j t (omega arith))

pub length-padded : (k : ℕ) (t : Text) → length (padded k t) ≡ k
unfolding padded
length-padded k t = length-take_padding k k t (omega arith)
