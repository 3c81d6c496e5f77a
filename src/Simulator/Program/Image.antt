-- ===== src/Simulator/Program/Image.antt =====
-- The memory file: what is in the memory once it has been read, and in the dump.
use mscs.Common.{
  ℕ, zero, suc, ◌+◌, ◌≤◌, ◌<◌, ◌≡◌, refl, ap, ◌∙◌, ◌==◌, some, List, [], ◌∷◌, length, get_elem?,
  take, if◌then◌else◌, arith,
}
use native.Mathlib.Decide.{dec_lt}
use mscs.Common.Outcome.{ok, undefined}
use mscs.Simulator.Machine.{memory_size}
use mscs.Simulator.Transfer.{read_mem}
use mscs.Simulator.Program.{copy_bytes, copy_memory_file, dump_memory_file}

-- `bs` stands at `a` in `f`, and outside of it and of the byte behind it `f` is `mem`.
pub record Holds (bs : List ℕ) (a : ℕ) (mem f : ℕ → ℕ) : Type 0 where
  pub bytes : (i : ℕ) (b : ℕ) → get_elem? bs i ≡ some b → f (a + i) ≡ b
  pub below : (x : ℕ) → x < a → f x ≡ mem x
  pub beyond : (x : ℕ) → a + length bs < x → f x ≡ mem x

copy_bytes-nil :
    (a c : ℕ) (mem : ℕ → ℕ)
    → a < memory_size
    → copy_bytes [] a c mem ≡ ok (λ x. if x == a then c else mem x)
unfolding copy_bytes
copy_bytes-nil a c mem h = ground arith

copy_bytes-cons :
    (b : ℕ) (bs : List ℕ) (a c : ℕ) (mem : ℕ → ℕ)
    → a < memory_size
    → copy_bytes (b ∷ bs) a c mem ≡ copy_bytes bs (a + 1) b (λ x. if x == a then b else mem x)
unfolding copy_bytes
copy_bytes-cons b bs a c mem h = ground arith

copy_bytes-full : (bs : List ℕ) (c : ℕ) (mem : ℕ → ℕ) → copy_bytes bs memory_size c mem ≡ undefined
unfolding copy_bytes
copy_bytes-full [] c mem = refl
copy_bytes-full (b ∷ bs) c mem = refl

Holds-cons_bytes :
    (b : ℕ) (bs : List ℕ) (a : ℕ) (mem f : ℕ → ℕ)
    → Holds bs (a + 1) (λ x. if x == a then b else mem x) f
    → (i : ℕ) (v : ℕ) → get_elem? (b ∷ bs) i ≡ some v
    → f (a + i) ≡ v
Holds-cons_bytes b bs a mem f h zero v e =
    let at : a + 0 ≡ a = omega arith in
    let value : b ≡ v = cc in rw at (h.below a (omega arith) ∙ ground arith)
Holds-cons_bytes b bs a mem f h (suc i) v e =
    let at : a + suc i ≡ a + 1 + i = omega arith in rw at (h.bytes i v e)

Holds-cons :
    (b : ℕ) (bs : List ℕ) (a : ℕ) (mem f : ℕ → ℕ)
    → Holds bs (a + 1) (λ x. if x == a then b else mem x) f
    → Holds (b ∷ bs) a mem f
Holds-cons b bs a mem f h = record {
  bytes = λ i v e. Holds-cons_bytes b bs a mem f h i v e;
  below = λ x lt. h.below x (omega arith) ∙ ground arith;
  beyond = λ x lt. h.beyond x (omega arith) ∙ ground arith;
}

copy_bytes-Holds :
    (bs : List ℕ) (a c : ℕ) (mem : ℕ → ℕ)
    → a + length bs < memory_size
    → (f : ℕ → ℕ) × (copy_bytes bs a c mem ≡ ok f) × Holds bs a mem f
copy_bytes-Holds [] a c mem h = (
  (λ x. if x == a then c else mem x),
  copy_bytes-nil a c mem (omega arith),
  record { bytes = λ i b e. cc; below = λ x lt. ground arith; beyond = λ x lt. ground arith },
)
copy_bytes-Holds (b ∷ bs) a c mem h =
    let (f, e, holds) =
      copy_bytes-Holds bs (a + 1) b (λ x. if x == a then b else mem x) (omega arith) in
    (f, copy_bytes-cons b bs a c mem (omega arith) ∙ e, Holds-cons b bs a mem f holds)

copy_bytes-undefined :
    (bs : List ℕ) (a c : ℕ) (mem : ℕ → ℕ)
    → a ≤ memory_size
    → memory_size ≤ a + length bs
    → copy_bytes bs a c mem ≡ undefined
copy_bytes-undefined [] a c mem le ge =
    let full : a ≡ memory_size = omega arith in rw full (copy_bytes-full [] c mem)
copy_bytes-undefined (b ∷ bs) a c mem le ge = elim (dec_lt a memory_size) [
  | yes room ↦
      copy_bytes-cons b bs a c mem room
      ∙ copy_bytes-undefined bs (a + 1) b (λ x. if x == a then b else mem x) (omega arith)
          (omega arith)
  | no none_left ↦
      let full : a ≡ memory_size = omega arith in rw full (copy_bytes-full (b ∷ bs) c mem)
]

-- A memory file of less than 2^20 bytes is read: the memory begins with its bytes, and is as it was
-- behind the byte that follows them.
pub copy_memory_file-Holds :
    (bs : List ℕ) (c : ℕ) (mem : ℕ → ℕ)
    → length bs < memory_size
    → (f : ℕ → ℕ) × (copy_memory_file bs c mem ≡ ok f) × Holds bs 0 mem f
unfolding copy_memory_file
copy_memory_file-Holds bs c mem h = copy_bytes-Holds bs 0 c mem (omega arith)

-- What is read at the front of the memory.
read_mem-Holds :
    (bs : List ℕ) (a : ℕ) (f : ℕ → ℕ)
    → ((i : ℕ) (b : ℕ) → get_elem? bs i ≡ some b → f (a + i) ≡ b)
    → read_mem (length bs) a f ≡ bs
unfolding read_mem
read_mem-Holds [] a f h = refl
read_mem-Holds (b ∷ bs) a f h =
    let here : a ≡ a + 0 = omega arith in
    rw
      (
        ap f here ∙ h 0 b refl,
        read_mem-Holds bs (a + 1) f
            (λ i v e. let at : a + 1 + i ≡ a + suc i = omega arith in ap f at ∙ h (suc i) v e),
      )
      refl

take-read_mem : (n k a : ℕ) (f : ℕ → ℕ) → n ≤ k → take n (read_mem k a f) ≡ read_mem n a f
unfolding read_mem
take-read_mem zero k a f h = refl
take-read_mem (suc n) zero a f h = elim h [ ]
take-read_mem (suc n) (suc k) a f h = ap (λ t. f a ∷ t) (take-read_mem n k (a + 1) f (omega arith))

-- Dumping the memory after reading a file of less than 2^20 bytes gives a file that begins with
-- the bytes of the one that was read.
pub dump-copy :
    (bs : List ℕ) (c : ℕ) (mem : ℕ → ℕ)
    → length bs < memory_size
    → (f : ℕ → ℕ) × (copy_memory_file bs c mem ≡ ok f)
      × (take (length bs) (dump_memory_file f) ≡ bs)
unfolding dump_memory_file
dump-copy bs c mem h =
    let (f, e, holds) = copy_memory_file-Holds bs c mem h in
    (
      f,
      e,
      take-read_mem (length bs) memory_size 0 f (omega arith) ∙ read_mem-Holds bs 0 f holds.bytes,
    )

-- A memory file of 2^20 bytes or more, the size that the memory has, is copied past the end of the
-- memory.
pub copy_memory_file-undefined :
    (bs : List ℕ) (c : ℕ) (mem : ℕ → ℕ)
    → memory_size ≤ length bs
    → copy_memory_file bs c mem ≡ undefined
unfolding copy_memory_file
copy_memory_file-undefined bs c mem h = copy_bytes-undefined bs 0 c mem (omega arith) (omega arith)
