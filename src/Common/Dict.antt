-- ===== src/Common/Dict.antt =====
-- Go maps keyed by strings, as association lists. Go leaves the order of iteration open: what the
-- program lists from a map is proved not to depend on it (Common/Sort).
use mathlib.Core.Path.{◌≡◌, refl, ap, ◌∙◌}
use mathlib.Core.Logic.{inl, inr}
use mathlib.Core.Bool.{Bool, true, false, ◌&&◌}
use mathlib.Core.Option.{Option, none, some}
use mathlib.Core.List.{List, [], ◌∷◌}
use native.Mathlib.Omega.{arith}
use localaz.Common.Tests.{if◌then◌else◌, Bool-cases}
use localaz.Common.ByteStrings.{Bytes, bytes_eq, bytes_eq_iff}

-- a map read from a map: a missing one reads as empty
abbrev pub or_empty : {A : Type 0} → Option (List A) → List A
or_empty none = []
or_empty (some xs) = xs

pub or_empty-if :
    {A : Type 0} (b : Bool) (xs : List A) (o : Option (List A))
    → or_empty (if b then some xs else o) ≡ (if b then xs else or_empty o)
or_empty-if true xs o = refl
or_empty-if false xs o = refl

abbrev pub Dict {ℓ} : Type ℓ → Type ℓ
Dict V = List (Bytes × V)

module _ {ℓ} {V : Type ℓ} where
  -- `v, ok := m[k]`
  unfoldable pub lookup : Bytes → Dict V → Option V
  lookup k [] = none
  lookup k ((j, v) ∷ m) = let rest = lookup k m in if bytes_eq j k then some v else rest

  -- `m[k] = v`
  unfoldable pub insert : Bytes → V → Dict V → Dict V
  insert k v [] = (k, v) ∷ []
  insert k v ((j, w) ∷ m) =
      let rest = insert k v m in if bytes_eq j k then (k, v) ∷ m else (j, w) ∷ rest

  -- `delete(m, k)`
  unfoldable pub erase : Bytes → Dict V → Dict V
  erase k [] = []
  erase k ((j, w) ∷ m) = let rest = erase k m in if bytes_eq j k then rest else (j, w) ∷ rest

  -- A Go map holds a key once.
  abbrev pub NodupKeys : Dict V → Type ℓ
  NodupKeys [] = Unit
  NodupKeys ((k, _) ∷ m) = (lookup k m ≡ none) × NodupKeys m

  pub lookup-nil : (k : Bytes) → lookup k [] ≡ none
  unfolding lookup
  lookup-nil k = refl

  pub lookup-insert :
      (j k : Bytes) (v : V) (m : Dict V)
      → lookup j (insert k v m) ≡ (if bytes_eq k j then some v else lookup j m)
  unfolding lookup insert
  lookup-insert j k v [] = refl
  lookup-insert j k v ((i, w) ∷ m) =
      ground (arith, bytes_eq_iff k j, bytes_eq_iff i k, bytes_eq_iff i j, lookup-insert j k v m)

  pub lookup-erase :
      (j k : Bytes) (m : Dict V)
      → lookup j (erase k m) ≡ (if bytes_eq k j then none else lookup j m)
  unfolding lookup erase
  lookup-erase j k [] = ground arith
  lookup-erase j k ((i, w) ∷ m) =
      ground (arith, bytes_eq_iff k j, bytes_eq_iff i k, bytes_eq_iff i j, lookup-erase j k m)

  pub insert-NodupKeys : (k : Bytes) (v : V) (m : Dict V) → NodupKeys m → NodupKeys (insert k v m)
  unfolding insert
  insert-NodupKeys k v [] u = (lookup-nil k, tt)
  insert-NodupKeys k v ((j, w) ∷ m) (fresh, u) =
      ground
        (arith, bytes_eq_iff j k, bytes_eq_iff k j, insert-NodupKeys k v m u, lookup-insert j k v m)

  pub erase-NodupKeys : (k : Bytes) (m : Dict V) → NodupKeys m → NodupKeys (erase k m)
  unfolding erase
  erase-NodupKeys k [] u = tt
  erase-NodupKeys k ((j, w) ∷ m) (fresh, u) =
      ground (arith, erase-NodupKeys k m u, lookup-erase j k m)

-- Go's `m[k][j] = v` on a map of maps
pub nested-insert :
    {V : Type 0} (k j k' j' : Bytes) (v : V) (m : Dict (Dict V))
    → lookup j' (or_empty (lookup k' (insert k (insert j v (or_empty (lookup k m))) m)))
      ≡ (if bytes_eq k k' && bytes_eq j j' then some v else lookup j' (or_empty (lookup k' m)))
nested-insert k j k' j' v m =
    let row = insert j v (or_empty (lookup k m)) in
    ap (λ o. lookup j' (or_empty o)) (lookup-insert k' k row m)
    ∙ ap (lookup j') (or_empty-if (bytes_eq k k') row (lookup k' m))
    ∙ elim (Bool-cases (bytes_eq k k')) [
      | inl same ↦ rw same (
          lookup-insert j' j v (or_empty (lookup k m))
          ∙ ap (λ i. if bytes_eq j j' then some v else lookup j' (or_empty (lookup i m)))
              ((bytes_eq_iff k k').0 same))
      | inr other ↦ rw other refl
    ]

pub ruleset dict_laws = (lookup-nil, lookup-insert, lookup-erase)
