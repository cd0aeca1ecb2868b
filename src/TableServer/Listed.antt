-- ===== src/TableServer/Listed.antt =====
-- internal/servers/tableserver/entities.go: the entities that `listEntities` lists.
use localaz.Common.{
  Bytes, codes, bytes_eq, Bool, ◌||◌, ℕ, zero, suc, ◌-◌, true, false, List, [], ◌∷◌, map, take,
  keep, ◌≡◌, refl, sym, ap, ◌∙◌, arith, if◌then◌else◌, Bool-cases, inl, inr,
}
use localaz.Common.Int.{ℤ, pos, negsuc}
use localaz.Common.Strings.{split}
use localaz.Table.Types.{Props, Entity}
use localaz.Filter.Compare.{FilterFunc}
use localaz.TableServer.Http.{Library, render_entity}
use localaz.TableServer.Handlers.{is_kept, keep_keys, project_select, reached, collect}

-- `$top`, where a negative number is no limit
abbrev pub limit : {A : Type 0} → ℤ → List A → List A
limit (pos n) xs = take n xs
limit (negsuc n) xs = xs

-- the places left under `$top` once n entities are listed
abbrev left : ℤ → ℕ → ℤ
left (pos top) n = pos (top - n)
left (negsuc top) n = negsuc top

limit-reached :
    {A : Type 0} (top : ℤ) (n : ℕ) (xs : List A) → reached top n ≡ true → limit (left top n) xs ≡ []
unfolding reached
limit-reached (pos top) n xs h = let none_left : top - n ≡ 0 = ground arith in rw none_left refl
limit-reached (negsuc top) n xs h = absurd (cc)

limit-open :
    {A : Type 0} (top : ℤ) (n : ℕ) (x : A) (xs : List A)
    → reached top n ≡ false
    → limit (left top n) (x ∷ xs) ≡ x ∷ limit (left top (suc n)) xs
unfolding reached
limit-open (pos top) n x xs h =
    let one_left : top - n ≡ suc (top - suc n) = ground arith in rw one_left refl
limit-open (negsuc top) n x xs h = refl

limit-nil : {A : Type 0} (top : ℤ) → limit {A = A} top [] ≡ []
limit-nil (pos zero) = refl
limit-nil (pos (suc n)) = refl
limit-nil (negsuc n) = refl

-- Whether `$select` keeps a property: all without it, and else the etag and those that it names,
-- between commas and with blanks around.
abbrev names_it : (Bytes → Bytes) → Bytes → List Bytes → Bool
names_it trim k [] = false
names_it trim k (f ∷ fields) = bytes_eq (trim f) k || names_it trim k fields

unfoldable pub is_selected : (Bytes → Bytes) → Bytes → Bytes × Bytes → Bool
is_selected trim [] (k, v) = true
is_selected trim (c ∷ select) (k, v) =
    let (field, fields) = split 44 (c ∷ select) in
    bytes_eq (codes "odata.etag") k || names_it trim k (field ∷ fields)

is_kept-eq-names_it :
    (trim : Bytes → Bytes) (k : Bytes) (fields : List Bytes)
    → is_kept trim fields k ≡ names_it trim k fields
unfolding is_kept
is_kept-eq-names_it trim k [] = refl
is_kept-eq-names_it trim k (f ∷ fields) = ground (arith, is_kept-eq-names_it trim k fields)

keep_all : (trim : Bytes → Bytes) (m : Props) → keep (is_selected trim []) m ≡ m
unfolding is_selected
keep_all trim [] = refl
keep_all trim ((k, v) ∷ m) = ap (◌∷◌ (k, v)) (keep_all trim m)

keep_keys-eq-keep :
    (kept : Bytes → Bool) (p : Bytes × Bytes → Bool)
    → ((k v : Bytes) → kept k ≡ p (k, v))
    → (m : Props) → keep_keys kept m ≡ keep p m
unfolding keep_keys
keep_keys-eq-keep kept p h [] = refl
keep_keys-eq-keep kept p h ((k, v) ∷ m) = ground (arith, h k v, keep_keys-eq-keep kept p h m)

kept-eq-selected :
    (trim : Bytes → Bytes) (k : Bytes) (is_etag : Bool) (fields : List Bytes)
    → (if is_etag then true else is_kept trim fields k) ≡ (is_etag || names_it trim k fields)
kept-eq-selected trim k true fields = refl
kept-eq-selected trim k false fields = is_kept-eq-names_it trim k fields

-- The projection keeps exactly the properties that are selected, in order.
project_select_lem :
    (trim : Bytes → Bytes) (m : Props) (select : Bytes)
    → project_select trim m select ≡ keep (is_selected trim select) m
unfolding project_select is_selected
project_select_lem trim m [] = sym (keep_all trim m)
project_select_lem trim m (c ∷ select) =
    let (field, fields) = split 44 (c ∷ select) in
    keep_keys-eq-keep _ _
      (λ k v. kept-eq-selected trim k (bytes_eq (codes "odata.etag") k) (field ∷ fields)) m

module _ (lib : Library) (filter : FilterFunc) (select : Bytes) where
  -- an entity as it is listed
  abbrev listed : Props → Props
  listed m = keep (is_selected lib.trim select) m

  collect_from :
      (top : ℤ) (n : ℕ) (es : List Entity)
      → collect lib filter top select n es
        ≡ limit
            (left top n)
            (map (keep (is_selected lib.trim select)) (keep filter (map (render_entity lib) es)))
  unfolding collect
  collect_from top n [] = sym (limit-nil (left top n))
  collect_from top n (e ∷ es) = elim (Bool-cases (filter (render_entity lib e))) [
    | inr out ↦ rw (collect, out) (collect_from top n es)
    | inl passes ↦ elim (Bool-cases (reached top n)) [
      | inl full ↦ rw (collect, passes, full) (sym (limit-reached top n _ full))
      | inr some_left ↦
          rw (collect, passes, some_left)
            (rw (project_select_lem lib.trim (render_entity lib e) select) (
              ap (◌∷◌ (listed (render_entity lib e))) (collect_from top (suc n) es)
              ∙ sym (limit-open top n _ _ some_left)))
    ]
  ]

  -- The entities listed are those that pass the filter, in the store's order, each with the properties
  -- that `$select` names (all of them without it, the etag always): all entities without `$top` or
  -- where it is negative, and the first so many with it.
  pub collect_lem :
      (top : ℤ) (es : List Entity)
      → collect lib filter top select 0 es
        ≡ limit top
            (map (keep (is_selected lib.trim select)) (keep filter (map (render_entity lib) es)))
  collect_lem (pos top) es =
      let none_listed : top - 0 ≡ top = omega arith in
      rw none_listed at (collect_from (pos top) 0 es)
  collect_lem (negsuc top) es = collect_from (negsuc top) 0 es
