-- ===== src/Common/Outcome.antt =====
-- How a fragment of C++ code ends: with a value, with an error that it reports, or with no
-- meaning at all, since it does what the language leaves undefined (a write past a buffer, a read
-- outside a container, signed overflow) or throws an exception that nothing catches.
use mathlib.Core.Path.{◌≡◌, refl}
use mathlib.Core.Bool.{Bool, true, false}
use mscs.Common.Tests.{if◌then◌else◌}

-- The messages of the handlers. `never_returns` is none: it stands for a loop that does not end.
pub data Error : Type 0 where
  invalid_register syntax_error invalid_label invalid_opcode no_opcode invalid_line
        too_many_centroids zero_centroids never_returns :
      Error

pub data Outcome {ℓ} (A : Type ℓ) : Type ℓ where
  undefined : Outcome A
  fail : Error → Outcome A
  ok : A → Outcome A

-- `if(!test) return E_FAIL`
abbrev pub guard : (test : Bool) (message : Error) → Outcome (Unit {0})
guard false message = fail message
guard true message = ok tt

infixl 5 ◌>>=◌ ◌>>◌
abbrev pub ◌>>=◌ {ℓ κ} :
    {A : Type ℓ} {B : Type κ} (m : Outcome A) (next : A → Outcome B) → Outcome B
undefined >>= next = undefined
fail message >>= next = fail message
ok a >>= next = next a

abbrev pub ◌>>◌ {ℓ} : {B : Type ℓ} (m : Outcome (Unit {0})) (next : Outcome B) → Outcome B
m >> next = m >>= λ _. next

-- What the code needs for its meaning to be defined.
abbrev pub defined : Bool → Outcome (Unit {0})
defined true = ok tt
defined false = undefined

-- `P` holds of the value, if there is one.
pub data Post {ℓ} {A : Type ℓ} (P : A → Type 0) : Outcome A → Type ℓ where
  holds : {a : A} → P a → Post P (ok a)
  fails : {e : Error} → Post P (fail e)
  stops : Post P undefined

pub Post-ok {ℓ} : {A : Type ℓ} {P : A → Type 0} {a : A} → Post P (ok a) → P a
Post-ok (holds h) = h

pub Post-eq_ok {ℓ} :
    {A : Type ℓ} {P : A → Type 0} (m : Outcome A) {a : A} → Post P m → m ≡ ok a → P a
Post-eq_ok m h e = Post-ok (rw e at h)

-- The rule for a sequence, which keeps the equation of the first part.
pub Post-bind {ℓ κ} :
    {A : Type ℓ} {B : Type κ} {Q : B → Type 0} (m : Outcome A) {f : A → Outcome B}
    → ((a : A) → m ≡ ok a → Post Q (f a))
    → Post Q (m >>= f)
Post-bind (ok a) k = k a refl
Post-bind (fail e) k = fails
Post-bind undefined k = stops

pub guard-eq_ok : (b : Bool) (e : Error) {u : Unit {0}} → guard b e ≡ ok u → b ≡ true
guard-eq_ok true e h = refl
guard-eq_ok false e h = cc

-- The rule where only a property of the first value is known.
pub Post-map {ℓ κ} :
    {A : Type ℓ} {B : Type κ} {P : A → Type 0} {Q : B → Type 0} (m : Outcome A) {f : A → Outcome B}
    → Post P m
    → ((a : A) → P a → Post Q (f a))
    → Post Q (m >>= f)
Post-map (ok a) h k = k a (Post-ok h)
Post-map (fail e) h k = fails
Post-map undefined h k = stops

-- The rule for a test whose result does not matter.
pub Post-if {ℓ} :
    {A : Type ℓ} {P : A → Type 0} (b : Bool) {m n : Outcome A}
    → Post P m
    → Post P n
    → Post P (if b then m else n)
Post-if true h k = h
Post-if false h k = k

pub Post-weaken {ℓ} :
    {A : Type ℓ} {P Q : A → Type 0} {m : Outcome A} → Post P m → ((a : A) → P a → Q a) → Post Q m
Post-weaken (holds h) f = holds (f _ h)
Post-weaken fails f = fails
Post-weaken stops f = stops

-- Two properties of one value.
pub Post-and {ℓ} :
    {A : Type ℓ} {P Q : A → Type 0} {m : Outcome A} → Post P m → Post Q m → Post (λ a. P a × Q a) m
Post-and (holds h) k = holds (h, Post-ok k)
Post-and fails k = fails
Post-and stops k = stops

-- One step of a sequence that succeeds.
pub bind-ok {ℓ κ} :
    {A : Type ℓ} {B : Type κ} (m : Outcome A) {a : A} (f : A → Outcome B) {r : Outcome B}
    → m ≡ ok a
    → f a ≡ r
    → (m >>= f) ≡ r
bind-ok m f e h = rw e h
