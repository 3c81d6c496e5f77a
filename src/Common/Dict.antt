-- ===== src/Common/Dict.antt =====
-- `std::map` keyed by strings, as an association list: the programs never iterate over one.
use mscs.Common.Tests.{if◌then◌else◌, Bool-cases}
use mscs.Common.Text.{Text, text_eq, text_eq_iff}
use mathlib.Core.Path.{◌≡◌, refl, subst}
use mathlib.Core.Logic.{inl, inr}
use mathlib.Core.Bool.{Bool, true, false}
use mathlib.Core.Option.{Option, none, some}
use mathlib.Core.List.{List, [], ◌∷◌}
use native.Mathlib.Omega.{arith}

abbrev pub Dict {ℓ} : Type ℓ → Type ℓ
Dict V = List (Text × V)

module _ {ℓ} {V : Type ℓ} where
  unfoldable pub lookup : Text → Dict V → Option V
  lookup k [] = none
  lookup k ((j, v) ∷ d) = if text_eq j k then some v else lookup k d

  -- `d.count(k)`
  unfoldable pub contains : Text → Dict V → Bool
  contains k [] = false
  contains k ((j, v) ∷ d) = if text_eq j k then true else contains k d

  -- `d[k] = v`
  unfoldable pub assign : Text → V → Dict V → Dict V
  assign k v [] = (k, v) ∷ []
  assign k v ((j, w) ∷ d) = if text_eq j k then (j, v) ∷ d else (j, w) ∷ assign k v d

  -- `d.insert(make_pair(k, v))`, which leaves a key that is there alone.
  unfoldable pub insert : Text → V → Dict V → Dict V
  insert k v [] = (k, v) ∷ []
  insert k v ((j, w) ∷ d) = (j, w) ∷ (if text_eq j k then d else insert k v d)

  unfoldable pub keys : Dict V → List Text
  keys [] = []
  keys ((j, v) ∷ d) = j ∷ keys d

  -- A key that is there is assigned in place.
  pub keys-assign :
      (k : Text) (v : V) (d : Dict V) → contains k d ≡ true → keys (assign k v d) ≡ keys d
  unfolding keys assign contains
  keys-assign k v [] h = cc
  keys-assign k v ((j, w) ∷ d) h = ground (arith, keys-assign k v d)

  pub contains-keys : (k : Text) (d e : Dict V) → keys d ≡ keys e → contains k d ≡ contains k e
  unfolding keys contains
  contains-keys k [] [] h = refl
  contains-keys k [] ((j, v) ∷ e) h = cc
  contains-keys k ((i, u) ∷ d) [] h = cc
  contains-keys k ((i, u) ∷ d) ((j, v) ∷ e) h = ground (arith, contains-keys k d e)

  pub lookup-assign :
      (k j : Text) (v : V) (d : Dict V)
      → lookup j (assign k v d) ≡ (if text_eq k j then some v else lookup j d)
  unfolding lookup assign
  lookup-assign k j v [] = refl
  lookup-assign k j v ((i, w) ∷ d) =
      ground (arith, text_eq_iff k j, text_eq_iff i k, text_eq_iff i j, lookup-assign k j v d)

  pub lookup-insert :
      (k j : Text) (v : V) (d : Dict V)
      → lookup j (insert k v d)
        ≡ (if text_eq k j then (if contains k d then lookup j d else some v) else lookup j d)
  unfolding lookup insert contains
  lookup-insert k j v [] = ground arith
  lookup-insert k j v ((i, w) ∷ d) =
      ground (arith, text_eq_iff k j, text_eq_iff i k, text_eq_iff i j, lookup-insert k j v d)

  -- A property of every value of a dictionary, and so of what is found.
  abbrev pub AllValues {κ} : (V → Type κ) → Dict V → Type κ
  AllValues P [] = Unit
  AllValues P ((j, v) ∷ d) = P v × AllValues P d

  pub lookup-AllValues {κ} :
      (P : V → Type κ) (k : Text) {v : V} (d : Dict V) → AllValues P d → lookup k d ≡ some v → P v
  unfolding lookup
  lookup-AllValues P k [] h e = cc
  lookup-AllValues P k {v} ((j, w) ∷ d) h e = elim (Bool-cases (text_eq j k)) [
    | inl same ↦
        let found : some w ≡ some v = rw same at e in let value : w ≡ v = cc in subst P value h.0
    | inr other ↦ lookup-AllValues P k d h.1 (rw other at e)
  ]

  pub insert-AllValues {κ} :
      (P : V → Type κ) (k : Text) (v : V) (d : Dict V)
      → AllValues P d
      → P v
      → AllValues P (insert k v d)
  unfolding insert
  insert-AllValues P k v [] h p = (p, tt)
  insert-AllValues P k v ((j, w) ∷ d) h p = elim (Bool-cases (text_eq j k)) [
    | inl same ↦ rw same h
    | inr other ↦ rw other (h.0, insert-AllValues P k v d h.1 p)
  ]

  pub map-AllValues {κ μ} :
      {P : V → Type κ} {Q : V → Type μ} (d : Dict V)
      → ((v : V) → P v → Q v)
      → AllValues P d
      → AllValues Q d
  map-AllValues [] f h = tt
  map-AllValues ((j, v) ∷ d) f h = (f v h.0, map-AllValues d f h.1)
