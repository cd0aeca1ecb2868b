-- ===== src/Table/Entities.antt =====
-- What is found in a table, and in the store, after entities are put and deleted.
use localaz.Common.{
  Bytes, Bool, true, false, ◌&&◌, List, [], ◌∷◌, Option, none, some, bytes_eq, bytes_eq_iff, Result,
  ok, err, if◌then◌else◌, ◌≡◌, refl, sym, ap, ◌∙◌, arith, Bool-cases, inl, inr, Option-cases,
  Result-cases,
}
use localaz.Common.Dict.{
  or_empty, or_empty-if, nested-insert, Dict, lookup, erase, lookup-insert, lookup-erase,
}
use localaz.Common.Snapshot.{Codec}
use localaz.Table.Types.{
  Error, table_not_found, entity_not_found, etag_mismatch, Props, Entity, Table, get, put, delete,
  without,
}
use localaz.Table.Store.{
  Accounts, Store, Env, strip_server_props, merge_into, build_entity, match_etag, find_table,
  set_table, updated_entity, update_in, save, get_entity, update,
}

or_empty-unless :
    {A : Type 0} (b : Bool) (o : Option (List A))
    → or_empty (if b then none else o) ≡ (if b then [] else or_empty o)
or_empty-unless true o = refl
or_empty-unless false o = refl

pub get-put :
    (e : Entity) (t : Table) (pk rk : Bytes)
    → get pk rk (put e t)
      ≡ (if bytes_eq e.partition_key pk && bytes_eq e.row_key rk then some e else get pk rk t)
unfolding get put
get-put e t pk rk = nested-insert e.partition_key e.row_key pk rk e t.entities

rows-without :
    (pk pk' : Bytes) (rows : Dict Entity) (m : Dict (Dict Entity))
    → or_empty (lookup pk' (without pk rows m))
      ≡ (if bytes_eq pk pk' then rows else or_empty (lookup pk' m))
unfolding without
rows-without pk pk' [] m =
    ap or_empty (lookup-erase pk' pk m) ∙ or_empty-unless (bytes_eq pk pk') (lookup pk' m)
rows-without pk pk' (r ∷ rows) m =
    ap or_empty (lookup-insert pk' pk (r ∷ rows) m)
    ∙ or_empty-if (bytes_eq pk pk') (r ∷ rows) (lookup pk' m)

pub get-delete :
    (pk rk pk' rk' : Bytes) (t : Table) (e : Entity)
    → get pk rk t ≡ some e
    → get pk' rk' ((delete pk rk t).0)
      ≡ (if bytes_eq pk pk' && bytes_eq rk rk' then none else get pk' rk' t)
unfolding get delete
get-delete pk rk pk' rk' t e h =
    let rows = erase rk (or_empty (lookup pk t.entities)) in
    rw (delete, h)
      (ap (lookup rk') (rows-without pk pk' rows t.entities) ∙ elim (Bool-cases (bytes_eq pk pk')) [
        | inl same ↦ rw same (
            lookup-erase rk' rk (or_empty (lookup pk t.entities))
            ∙ ap
                (λ i. if bytes_eq rk rk' then none else lookup rk' (or_empty (lookup i t.entities)))
                ((bytes_eq_iff pk pk').0 same))
        | inr other ↦ rw other refl
      ])

pub find_table-set_table :
    (a n a' n' : Bytes) (t : Table) (m : Accounts)
    → find_table a' n' (set_table a n t m)
      ≡ (if bytes_eq a a' && bytes_eq n n' then some t else find_table a' n' m)
unfolding find_table set_table
find_table-set_table a n a' n' t m = nested-insert a n a' n' t m

-- whether two places in the store are the same one
abbrev pub same_place : Bytes → Bytes → Bytes → Bytes → Bytes → Bytes → Bytes → Bytes → Bool
same_place a n pk rk a' n' pk' rk' =
    (bytes_eq a a' && bytes_eq n n') && (bytes_eq pk pk' && bytes_eq rk rk')

pub found : Option Entity → Result Error Entity
found none = err entity_not_found
found (some e) = ok e

pub found-if :
    (b : Bool) (o p : Option Entity) → found (if b then o else p) ≡ (if b then found o else found p)
found-if true o p = refl
found-if false o p = refl

-- the same account and name
pub moved :
    (a n a' n' : Bytes) (m : Accounts)
    → (bytes_eq a a' && bytes_eq n n') ≡ true
    → find_table a' n' m ≡ find_table a n m
moved a n a' n' m h = ground (arith, bytes_eq_iff a a', bytes_eq_iff n n')

pub err-ok : {E A : Type 0} (e : E) (a : A) → ◌≡◌ {A = Result E A} (err e) (ok a) → ⊥
err-ok e a h = cc

pub ok_injective : {E A : Type 0} (a b : A) → ◌≡◌ {A = Result E A} (ok a) (ok b) → a ≡ b
ok_injective a b h = cc

-- An entity that an update returns has the keys of the call, and the etag of its time.
pub update_in-keys :
    (env : Env) (pk rk if_match : Bytes) (props : Props) (merge : Bool) (t : Table) (e : Entity)
    → update_in env pk rk props if_match merge t ≡ ok e
    → (e.partition_key ≡ pk) × (e.row_key ≡ rk) × (e.etag ≡ env.etag_for env.now)
unfolding update_in updated_entity build_entity
update_in-keys env pk rk if_match props merge t e h = elim (Option-cases (get pk rk t)) [
  | inl new ↦ elim (Bool-cases (bytes_eq if_match [])) [
    | inl any ↦ built props (sym (rw (update_in, new, any) refl) ∙ h)
    | inr some_etag ↦
        absurd (err-ok entity_not_found e (sym (rw (update_in, new, some_etag) refl) ∙ h))
  ]
  | inr (old, there) ↦ elim (Bool-cases (match_etag old if_match)) [
    | inl match ↦ elim (Bool-cases merge) [
      | inl merged ↦
          built (merge_into (strip_server_props props) old.props)
            (sym (rw (update_in, there, match, updated_entity, merged) refl) ∙ h)
      | inr replaced ↦
          built props (sym (rw (update_in, there, match, updated_entity, replaced) refl) ∙ h)
    ]
    | inr differ ↦ absurd (err-ok etag_mismatch e (sym (rw (update_in, there, differ) refl) ∙ h))
  ]
]
  where
    built :
        (p : Props)
        → ◌≡◌ {A = Result Error Entity} (ok (build_entity env pk rk p)) (ok e)
        → (e.partition_key ≡ pk) × (e.row_key ≡ rk) × (e.etag ≡ env.etag_for env.now)
    built p h' =
        let same = sym (ok_injective (build_entity env pk rk p) e h') in
        (ap (λ x. x.partition_key) same, ap (λ x. x.row_key) same, ap (λ x. x.etag) same)

-- The outcome of a call that stored an entity: what Get Entity finds afterwards.
module _ {D : Type 0} (c : Codec D Accounts) where
  pub get_entity-found :
      (a n pk rk : Bytes) (t : Table) (s : Store D)
      → find_table a n s.accounts ≡ some t
      → get_entity c a n pk rk s ≡ found (get pk rk t)
  unfolding get_entity found
  get_entity-found a n pk rk t s h = rw (get_entity, h) refl

  -- A table changed in place: what was put shows under its keys, and all else is as before.
  pub get_entity-save :
      (env : Env) (a n a' n' pk' rk' : Bytes) (t t' : Table) (s : Store D) (same : Bool)
      (o : Option Entity)
      → find_table a n s.accounts ≡ some t
      → get pk' rk' t' ≡ (if same then o else get pk' rk' t)
      → get_entity c a' n' pk' rk' (save c env a n t' s) ≡ (
          if (bytes_eq a a' && bytes_eq n n') && same
          then found o
          else get_entity c a' n' pk' rk' s)
  unfolding get_entity found
  get_entity-save env a n a' n' pk' rk' t t' s same o h e =
      rw (get_entity, find_table-set_table a n a' n' t' s.accounts)
        (elim (Bool-cases (bytes_eq a a' && bytes_eq n n')) [
          | inl here ↦
              rw (here, get_entity, moved a n a' n' s.accounts here, h, e)
                (found-if same o (get pk' rk' t))
          | inr other ↦ rw other refl
        ])

  -- an entity stored under its keys
  pub put_at :
      (env : Env) (a n pk rk a' n' pk' rk' : Bytes) (e : Entity) (t : Table) (s : Store D)
      → find_table a n s.accounts ≡ some t
      → e.partition_key ≡ pk
      → e.row_key ≡ rk
      → get_entity c a' n' pk' rk' (save c env a n (put e t) s)
        ≡ (if same_place a n pk rk a' n' pk' rk' then ok e else get_entity c a' n' pk' rk' s)
  unfolding found
  put_at env a n pk rk a' n' pk' rk' e t s h p r =
      get_entity-save env a n a' n' pk' rk' t (put e t) s (bytes_eq pk pk' && bytes_eq rk rk')
        (some e) h (rw (sym p, sym r) (get-put e t pk' rk'))

  module _ (env : Env) (a n pk rk if_match : Bytes) (props : Props) (merge : Bool)
      (s : Store D) where
    pub update-none :
        find_table a n s.accounts ≡ none
        → update c env a n pk rk props if_match merge s ≡ (s, err table_not_found)
    unfolding update
    update-none h = rw (update, h) refl

    pub update-err :
        (t : Table) (e : Error)
        → find_table a n s.accounts ≡ some t
        → update_in env pk rk props if_match merge t ≡ err e
        → update c env a n pk rk props if_match merge s ≡ (s, err e)
    unfolding update
    update-err t e h k = rw (update, h, k) refl

    pub update-ok :
        (t : Table) (e : Entity)
        → find_table a n s.accounts ≡ some t
        → update_in env pk rk props if_match merge t ≡ ok e
        → update c env a n pk rk props if_match merge s ≡ (save c env a n (put e t) s, ok e)
    unfolding update
    update-ok t e h k = rw (update, h, k) refl

    pub update-stored :
        (s' : Store D) (e : Entity)
        → update c env a n pk rk props if_match merge s ≡ (s', ok e)
        → (t : Table) × (find_table a n s.accounts ≡ some t)
          × (update_in env pk rk props if_match merge t ≡ ok e)
          × (s' ≡ save c env a n (put e t) s)
    update-stored s' e h = elim (Option-cases (find_table a n s.accounts)) [
      | inl gone ↦ absurd (err-ok table_not_found e (ap (λ p. p.1) (sym (update-none gone) ∙ h)))
      | inr (t, here) ↦ elim (Result-cases (update_in env pk rk props if_match merge t)) [
        | inl (f, stored) ↦
            let same = ok_injective f e (ap (λ p. p.1) (sym (update-ok t f here stored) ∙ h)) in
            (
              t,
              here,
              stored ∙ ap ok same,
              sym (ap (λ p. p.0) h)
                  ∙ ap (λ p. p.0) (update-ok t f here stored)
                  ∙ ap (λ x. save c env a n (put x t) s) same,
            )
        | inr (f, refused) ↦
            absurd (err-ok f e (ap (λ p. p.1) (sym (update-err t f here refused) ∙ h)))
      ]
    ]

  -- Replace and Merge that succeed: Get Entity then returns the entity they returned under its keys,
  -- and what it returned before for all else, other tables and accounts included.
  pub get_entity-update :
      (env : Env) (a n pk rk if_match a' n' pk' rk' : Bytes) (props : Props) (merge : Bool)
      (s s' : Store D) (e : Entity)
      → update c env a n pk rk props if_match merge s ≡ (s', ok e)
      → get_entity c a' n' pk' rk' s'
        ≡ (if same_place a n pk rk a' n' pk' rk' then ok e else get_entity c a' n' pk' rk' s)
  get_entity-update env a n pk rk if_match a' n' pk' rk' props merge s s' e h =
      let (t, here, stored, now) = update-stored env a n pk rk if_match props merge s s' e h in
      let (p, r, q) = update_in-keys env pk rk if_match props merge t e stored in
      rw now (put_at env a n pk rk a' n' pk' rk' e t s here p r)
