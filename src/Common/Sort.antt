-- ===== src/Common/Sort.antt =====
-- `sort.Strings`, and `sort.Slice` by a string field: the sorted list of what a map holds does not
-- depend on the order in which Go iterates over the map.
use mathlib.Core.Path.{◌≡◌, refl, sym, ap, ◌∙◌, subst}
use mathlib.Core.Logic.{◌≢◌, inl, inr}
use mathlib.Core.Bool.{true, false}
use mathlib.Core.List.Permᴰ
use mathlib.Core.List.{List, [], ◌∷◌, Permᴰ}
use native.Mathlib.Omega.{arith}
use localaz.Common.Tests.{if◌then◌else◌, Bool-cases}
use localaz.Common.Lists.{All}
use localaz.Common.ByteStrings.{Bytes, bytes_lt, bytes_lt_trans, bytes_lt_connected, bytes_lt_asym}

module _ {ℓ} {V : Type ℓ} (key : V → Bytes) where
  pub insert_sorted : V → List V → List V
  insert_sorted v [] = v ∷ []
  insert_sorted v (w ∷ ws) =
      let rest = insert_sorted v ws in if bytes_lt (key w) (key v) then w ∷ rest else v ∷ w ∷ ws

  pub sort_by : List V → List V
  unfolding insert_sorted
  sort_by [] = []
  sort_by (v ∷ vs) = insert_sorted v (sort_by vs)

  -- Strictly ascending keys: each key is less than all that follow.
  abbrev pub IsAscending : List V → Type 0
  IsAscending [] = Unit
  IsAscending (v ∷ vs) = All (λ w. bytes_lt (key v) (key w) ≡ true) vs × IsAscending vs

  abbrev pub DistinctKeys : List V → Type 0
  DistinctKeys [] = Unit
  DistinctKeys (v ∷ vs) = All (λ w. key v ≢ key w) vs × DistinctKeys vs

  pub insert_sorted_comm :
      (v w : V) (xs : List V)
      → key v ≢ key w
      → insert_sorted v (insert_sorted w xs) ≡ insert_sorted w (insert_sorted v xs)
  unfolding insert_sorted
  insert_sorted_comm v w [] d =
      ground (arith, bytes_lt_asym (key v) (key w), bytes_lt_connected (key v) (key w))
  insert_sorted_comm v w (x ∷ xs) d = ground (
    arith,
    bytes_lt_asym (key v) (key w),
    bytes_lt_connected (key v) (key w),
    bytes_lt_trans (key x) (key w) (key v),
    bytes_lt_trans (key x) (key v) (key w),
    insert_sorted_comm v w xs d,
  )

  module _ (P : V → Type 0) where
    All-insert_sorted : (v : V) (xs : List V) → P v → All P xs → All P (insert_sorted v xs)
    unfolding insert_sorted
    All-insert_sorted v [] p h = (p, tt)
    All-insert_sorted v (x ∷ xs) p (q, h) = ground (arith, All-insert_sorted v xs p h)

    pub All-sort_by : (xs : List V) → All P xs → All P (sort_by xs)
    unfolding sort_by
    All-sort_by [] h = tt
    All-sort_by (x ∷ xs) (p, h) = All-insert_sorted x (sort_by xs) p (All-sort_by xs h)

    pub All-perm : {xs ys : List V} → Permᴰ xs ys → All P xs → All P ys
    All-perm Permᴰ.nil h = tt
    All-perm (Permᴰ.cons e d) (p, h) = (subst P e p, All-perm d h)
    All-perm (Permᴰ.swap e f) (p, (q, h)) = (subst P f q, (subst P e p, h))
    All-perm (Permᴰ.trans c d) h = All-perm d (All-perm c h)

  keys_differ :
      (v w : V) (xs : List V) → v ≡ w → All (λ x. key v ≢ key x) xs → All (λ x. key w ≢ key x) xs
  keys_differ v w xs e h = subst (λ u. All (λ x. key u ≢ key x) xs) e h

  DistinctKeys-perm : {xs ys : List V} → Permᴰ xs ys → DistinctKeys xs → DistinctKeys ys
  DistinctKeys-perm Permᴰ.nil h = tt
  DistinctKeys-perm (Permᴰ.cons {a = a} {b = b} {l₂ = ys} e d) (p, h) =
      (keys_differ a b ys e (All-perm (λ x. key a ≢ key x) d p), DistinctKeys-perm d h)
  DistinctKeys-perm (Permᴰ.swap {a = a} {b = b} {a' = c} {b' = d} {l = l} e f) ((n, p), (q, h)) = (
    (λ k. n (ap key e ∙ sym k ∙ ap key (sym f)), keys_differ b c l f q),
    (keys_differ a d l e p, h),
  )
  DistinctKeys-perm (Permᴰ.trans c d) h = DistinctKeys-perm d (DistinctKeys-perm c h)

  -- Sorting forgets the order of the input, if no two elements share a key.
  pub sort_by-perm : {xs ys : List V} → Permᴰ xs ys → DistinctKeys xs → sort_by xs ≡ sort_by ys
  unfolding sort_by
  sort_by-perm Permᴰ.nil h = refl
  sort_by-perm (Permᴰ.cons e d) (p, h) = cc (e, sort_by-perm d h)
  sort_by-perm (Permᴰ.swap {a = a} {b = b} {l = l} e f) ((n, p), (q, h)) =
      cc (e, f, insert_sorted_comm a b (sort_by l) n)
  sort_by-perm (Permᴰ.trans c d) h = sort_by-perm c h ∙ sort_by-perm d (DistinctKeys-perm c h)

  insert_sorted-perm : (v : V) (xs : List V) → Permᴰ (insert_sorted v xs) (v ∷ xs)
  unfolding insert_sorted
  insert_sorted-perm v [] = Permᴰ.cons refl Permᴰ.nil
  insert_sorted-perm v (x ∷ xs) = elim (Bool-cases (bytes_lt (key x) (key v))) [
    | inl less ↦
        rw less (Permᴰ.trans (Permᴰ.cons refl (insert_sorted-perm v xs)) (Permᴰ.swap refl refl))
    | inr not_less ↦ rw not_less (Permᴰ.refl (v ∷ x ∷ xs))
  ]

  -- Sorting loses and invents nothing.
  pub sort_by_perm : (xs : List V) → Permᴰ (sort_by xs) xs
  unfolding sort_by
  sort_by_perm [] = Permᴰ.nil
  sort_by_perm (x ∷ xs) =
      Permᴰ.trans (insert_sorted-perm x (sort_by xs)) (Permᴰ.cons refl (sort_by_perm xs))

  All-below :
      (v w : V) (xs : List V)
      → bytes_lt (key v) (key w) ≡ true
      → All (λ x. bytes_lt (key w) (key x) ≡ true) xs
      → All (λ x. bytes_lt (key v) (key x) ≡ true) xs
  All-below v w [] h k = tt
  All-below v w (x ∷ xs) h (l, k) =
      (bytes_lt_trans (key v) (key w) (key x) h l, All-below v w xs h k)

  insert_sorted-IsAscending :
      (v : V) (xs : List V)
      → All (λ x. key v ≢ key x) xs
      → IsAscending xs
      → IsAscending (insert_sorted v xs)
  unfolding insert_sorted
  insert_sorted-IsAscending v [] n h = (tt, tt)
  insert_sorted-IsAscending v (x ∷ xs) (n, ns) (l, h) =
      elim (Bool-cases (bytes_lt (key x) (key v))) [
        | inl less ↦ rw less (
          All-insert_sorted (λ w. bytes_lt (key x) (key w) ≡ true) v xs less l,
          insert_sorted-IsAscending v xs ns h,
        )
        | inr not_less ↦ rw not_less ((below not_less, All-below v x xs (below not_less) l), (l, h))
      ]
    where
      below : bytes_lt (key x) (key v) ≡ false → bytes_lt (key v) (key x) ≡ true
      below not_less = ground (arith, bytes_lt_connected (key v) (key x))

  -- The sorted list is strictly ascending, if no two elements share a key.
  pub sort_by-IsAscending : (xs : List V) → DistinctKeys xs → IsAscending (sort_by xs)
  unfolding sort_by
  sort_by-IsAscending [] h = tt
  sort_by-IsAscending (x ∷ xs) (n, h) =
      insert_sorted-IsAscending x (sort_by xs) (All-sort_by (λ w. key x ≢ key w) xs n)
        (sort_by-IsAscending xs h)
