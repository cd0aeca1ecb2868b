-- ===== src/Common/Listing.antt =====
-- A `range` loop over a map that collects entries, and the sort that follows: the sorted list is
-- ascending, and the same for every order of iteration.
use mathlib.Core.Path.{◌≡◌, refl, ap, ◌∙◌}
use mathlib.Core.Logic.{◌≢◌}
use mathlib.Core.Bool.{Bool, true, false}
use mathlib.Core.Option.{none}
use mathlib.Core.List.Permᴰ
use mathlib.Core.List.{List, [], ◌∷◌, map, Permᴰ}
use native.Mathlib.Omega.{arith}
use localaz.Common.Tests.{if◌then◌else◌}
use localaz.Common.Lists.{All, keep, All-keep}
use localaz.Common.ByteStrings.{Bytes, bytes_eq_iff}
use localaz.Common.Dict.{Dict, lookup, NodupKeys}
use localaz.Common.Sort.{sort_by, IsAscending, DistinctKeys, sort_by-perm, sort_by-IsAscending}

module _ {ℓ} {V : Type ℓ} where
  -- No other entry has the key.
  keys_differ_of_absent : (k : Bytes) (m : Dict V) → lookup k m ≡ none → All (λ e. k ≢ e.0) m
  unfolding lookup
  keys_differ_of_absent k [] h = tt
  keys_differ_of_absent k ((j, v) ∷ m) h =
      (ground (arith, bytes_eq_iff j k), keys_differ_of_absent k m (ground arith))

  pub DistinctKeys-entries : (m : Dict V) → NodupKeys m → DistinctKeys (λ (e : Bytes × V). e.0) m
  DistinctKeys-entries [] h = tt
  DistinctKeys-entries ((k, v) ∷ m) (fresh, h) =
      (keys_differ_of_absent k m fresh, DistinctKeys-entries m h)

  Permᴰ-if :
      (b : Bool) (x y : V) {xs ys : List V}
      → x ≡ y
      → Permᴰ xs ys
      → Permᴰ (if b then x ∷ xs else xs) (if b then y ∷ ys else ys)
  Permᴰ-if true x y e p = Permᴰ.cons e p
  Permᴰ-if false x y e p = p

  Permᴰ-if_swap :
      (b c : Bool) (x y : V) (xs : List V)
      → Permᴰ
          (if b then x ∷ (if c then y ∷ xs else xs) else (if c then y ∷ xs else xs))
          (if c then y ∷ (if b then x ∷ xs else xs) else (if b then x ∷ xs else xs))
  Permᴰ-if_swap true true x y xs = Permᴰ.swap refl refl
  Permᴰ-if_swap true false x y xs = Permᴰ.refl (x ∷ xs)
  Permᴰ-if_swap false true x y xs = Permᴰ.refl (y ∷ xs)
  Permᴰ-if_swap false false x y xs = Permᴰ.refl xs

module _ {ℓ} {V : Type ℓ} (p : V → Bool) where
  pub keep-perm : {xs ys : List V} → Permᴰ xs ys → Permᴰ (keep p xs) (keep p ys)
  keep-perm Permᴰ.nil = Permᴰ.nil
  keep-perm (Permᴰ.cons {a = a} {b = b} e d) = rw e (Permᴰ-if (p b) b b refl (keep-perm d))
  keep-perm (Permᴰ.swap {a' = a'} {b' = b'} {l = l} e f) =
      rw (e, f) (Permᴰ-if_swap (p b') (p a') b' a' (keep p l))
  keep-perm (Permᴰ.trans c d) = Permᴰ.trans (keep-perm c) (keep-perm d)

module _ {ℓ κ} {V : Type ℓ} {W : Type κ} (f : V → W) where
  pub map-perm : {xs ys : List V} → Permᴰ xs ys → Permᴰ (map f xs) (map f ys)
  map-perm Permᴰ.nil = Permᴰ.nil
  map-perm (Permᴰ.cons e d) = Permᴰ.cons (ap f e) (map-perm d)
  map-perm (Permᴰ.swap e g) = Permᴰ.swap (ap f e) (ap f g)
  map-perm (Permᴰ.trans c d) = Permᴰ.trans (map-perm c) (map-perm d)

module _ {ℓ κ} {V : Type ℓ} {W : Type κ} (f : V → W) (key : V → Bytes) (key' : W → Bytes)
    (named : (v : V) → key' (f v) ≡ key v) where
  All-map : (k : Bytes) (xs : List V) → All (λ v. k ≢ key v) xs → All (λ w. k ≢ key' w) (map f xs)
  All-map k [] h = tt
  All-map k (x ∷ xs) (p, h) = ((λ e. p (e ∙ named x)), All-map k xs h)

  pub DistinctKeys-map : (xs : List V) → DistinctKeys key xs → DistinctKeys key' (map f xs)
  DistinctKeys-map [] h = tt
  DistinctKeys-map (x ∷ xs) (p, h) = (rw named (All-map (key x) xs p), DistinctKeys-map xs h)

module _ {ℓ} {V : Type ℓ} (key : V → Bytes) (p : V → Bool) where
  pub DistinctKeys-keep : (xs : List V) → DistinctKeys key xs → DistinctKeys key (keep p xs)
  DistinctKeys-keep [] h = tt
  DistinctKeys-keep (x ∷ xs) (q, h) =
      ground (arith, DistinctKeys-keep xs h, All-keep (λ w. key x ≢ key w) p xs q)

-- The entries that pass a test, each turned into an item of the same key, and sorted by the key.
module _ {ℓ κ} {V : Type ℓ} {W : Type κ} (p : V → Bool) (f : V → W) (key : V → Bytes)
    (key' : W → Bytes) (named : (v : V) → key' (f v) ≡ key v) where
  pub listing-perm :
      {xs ys : List V}
      → Permᴰ xs ys
      → DistinctKeys key xs
      → sort_by key' (map f (keep p xs)) ≡ sort_by key' (map f (keep p ys))
  listing-perm {xs} d h =
      sort_by-perm key' (map-perm f (keep-perm p d))
        (DistinctKeys-map f key key' named (keep p xs) (DistinctKeys-keep key p xs h))

  pub listing-IsAscending :
      (xs : List V) → DistinctKeys key xs → IsAscending key' (sort_by key' (map f (keep p xs)))
  listing-IsAscending xs h =
      sort_by-IsAscending key' (map f (keep p xs))
        (DistinctKeys-map f key key' named (keep p xs) (DistinctKeys-keep key p xs h))
