-- ===== src/Common/Stable.antt =====
-- `sort.SliceStable` by insertion, which is what it does on up to 20 elements; on more it agrees where
-- `less` is a strict weak order, since the stable order is then the only one.
use mathlib.Core.Path.{◌≡◌, refl}
use mathlib.Core.Bool.{Bool, true, false}
use mathlib.Core.List.{List, [], ◌∷◌, Permᴰ}
use mathlib.Core.List.Permᴰ
use localaz.Common.Tests.{if◌then◌else◌, Bool-cases}
use localaz.Common.Lists.{All}
use mathlib.Core.Logic.{inl, inr}

module _ {ℓ} {A : Type ℓ} (less : A → A → Bool) where
  unfoldable pub insert_stable : A → List A → List A
  insert_stable x [] = x ∷ []
  insert_stable x (y ∷ ys) =
      let rest = insert_stable x ys in if less y x then y ∷ rest else x ∷ y ∷ ys

  unfoldable pub sort_stable : List A → List A
  unfolding insert_stable
  sort_stable [] = []
  sort_stable (x ∷ xs) = insert_stable x (sort_stable xs)

  -- each element is not less than those before it
  abbrev pub IsOrdered : List A → Type 0
  IsOrdered [] = Unit
  IsOrdered (x ∷ xs) = All (λ y. less y x ≡ false) xs × IsOrdered xs

  insert_stable_perm : (x : A) (xs : List A) → Permᴰ (insert_stable x xs) (x ∷ xs)
  unfolding insert_stable
  insert_stable_perm x [] = Permᴰ.cons refl Permᴰ.nil
  insert_stable_perm x (y ∷ ys) = elim (Bool-cases (less y x)) [
    | inl before ↦
        rw before (Permᴰ.trans (Permᴰ.cons refl (insert_stable_perm x ys)) (Permᴰ.swap refl refl))
    | inr stays ↦ rw stays (Permᴰ.refl (x ∷ y ∷ ys))
  ]

  -- Sorting loses and invents nothing, whatever `less` is.
  pub sort_stable_perm : (xs : List A) → Permᴰ (sort_stable xs) xs
  unfolding sort_stable
  sort_stable_perm [] = Permᴰ.nil
  sort_stable_perm (x ∷ xs) =
      Permᴰ.trans (insert_stable_perm x (sort_stable xs)) (Permᴰ.cons refl (sort_stable_perm xs))

  -- Among the elements that P holds of, `less` is a strict weak order.
  module _ (P : A → Type 0) (asym : (x y : A) → P x → P y → less x y ≡ true → less y x ≡ false)
      (neg_trans : (x y z : A)
        → P x
        → P y
        → P z
        → less y x ≡ false
        → less z y ≡ false
        → less z x ≡ false) where
    All-insert_stable :
        (Q : A → Type 0) (x : A) (xs : List A) → Q x → All Q xs → All Q (insert_stable x xs)
    unfolding insert_stable
    All-insert_stable Q x [] p h = (p, tt)
    All-insert_stable Q x (y ∷ ys) p (q, h) = elim (Bool-cases (less y x)) [
      | inl before ↦ rw before (q, All-insert_stable Q x ys p h)
      | inr stays ↦ rw stays (p, (q, h))
    ]

    above :
        (x y : A) (ys : List A)
        → P x
        → P y
        → All P ys
        → less y x ≡ false
        → All (λ z. less z y ≡ false) ys
        → All (λ z. less z x ≡ false) ys
    above x y [] p q qs h k = tt
    above x y (z ∷ zs) p q (r, rs) h (k, ks) = (neg_trans x y z p q r h k, above x y zs p q rs h ks)

    insert_stable-IsOrdered :
        (x : A) (xs : List A) → P x → All P xs → IsOrdered xs → IsOrdered (insert_stable x xs)
    unfolding insert_stable
    insert_stable-IsOrdered x [] p qs h = (tt, tt)
    insert_stable-IsOrdered x (y ∷ ys) p (q, qs) (l, h) = elim (Bool-cases (less y x)) [
      | inl before ↦ rw before (
        All-insert_stable (λ z. less z y ≡ false) x ys (asym y x q p before) l,
        insert_stable-IsOrdered x ys p qs h,
      )
      | inr stays ↦ rw stays ((stays, above x y ys p q qs stays l), (l, h))
    ]

    pub All-sort_stable : (xs : List A) → All P xs → All P (sort_stable xs)
    unfolding sort_stable
    All-sort_stable [] h = tt
    All-sort_stable (x ∷ xs) (p, h) =
        All-insert_stable P x (sort_stable xs) p (All-sort_stable xs h)

    -- The sorted list is in order.
    pub sort_stable-IsOrdered : (xs : List A) → All P xs → IsOrdered (sort_stable xs)
    unfolding sort_stable
    sort_stable-IsOrdered [] h = tt
    sort_stable-IsOrdered (x ∷ xs) (p, h) =
        insert_stable-IsOrdered x (sort_stable xs) p (All-sort_stable xs h)
          (sort_stable-IsOrdered xs h)
