-- ===== src/TableServer/Inserted.antt =====
-- internal/servers/tableserver: a GET of the path of an inserted entity.
use localaz.Common.{
  Bytes, codes, ℕ, false, ◌∷◌, ◌++◌, some, ok, bytes_eq, bytes_eq_refl, ◌≡◌, refl, sym, ap, ◌∙◌,
  inl, inr, Option-cases,
}
use localaz.Common.Snapshot.{Codec}
use localaz.Common.Strings.{Without}
use localaz.Table.Types.{table_not_found, entity_exists, Props, Entity, get, put}
use localaz.Table.Store.{
  Accounts, Store, Env, build_entity, save, find_table, insert_entity_at, get_entity,
}
use localaz.Table.Entities.{err-ok, ok_injective, put_at}
use localaz.TableServer.Keys.{entity_segment}
use localaz.TableServer.Located.{KeepsVisible, LowersNames}
use localaz.TableServer.Http.{Request, Library, plain_response, entity_json}
use localaz.TableServer.Handlers.{entity_response}
use localaz.TableServer.Entities.{get_entity_handler}
use localaz.TableServer.Routes.{Target, Verb, entity_item, verb_of, route, dispatch, serve_http}
use localaz.TableServer.Routes
use localaz.TableServer.Follow.{route-entity_segment}

module _ {D : Type 0} (c : Codec D Accounts) where
  insert_entity_at-stored :
      (env : Env) (account table pk rk : Bytes) (props : Props) (s after : Store D) (e : Entity)
      → insert_entity_at c env account table pk rk props s ≡ (after, ok e)
      → (t : _) × (find_table account table s.accounts ≡ some t)
        × (build_entity env pk rk props ≡ e)
        × (after ≡ save c env account table (put e t) s)
  unfolding insert_entity_at
  insert_entity_at-stored env account table pk rk props s after e h =
      elim (Option-cases (find_table account table s.accounts)) [
        | inl gone ↦
            absurd (err-ok table_not_found e (ap (λ p. p.1) (rw (insert_entity_at, gone) at h)))
        | inr (t, here) ↦ elim (Option-cases (get pk rk t)) [
          | inr (x, old) ↦
              absurd
                (err-ok entity_exists e (ap (λ p. p.1) (rw (insert_entity_at, here, old) at h)))
          | inl new ↦
              let built = build_entity env pk rk props in
              let stored = rw (insert_entity_at, here, new) at h in
              let same : built ≡ e = ok_injective built e (ap (λ p. p.1) stored) in
              (
                t,
                here,
                same,
                ap (λ p. p.0) (sym stored) ∙ ap (λ x. save c env account table (put x t) s) same,
              )
        ]
      ]

  -- After an insert, Get Entity finds what was stored.
  get_entity-insert_entity_at :
      (env : Env) (account table pk rk : Bytes) (props : Props) (s after : Store D) (e : Entity)
      → insert_entity_at c env account table pk rk props s ≡ (after, ok e)
      → get_entity c account table pk rk after ≡ ok e
  unfolding build_entity
  get_entity-insert_entity_at env account table pk rk props s after e h =
      let (t, here, built, now) =
        insert_entity_at-stored env account table pk rk props s after e h in
      rw now (
        put_at c env account table pk rk account table pk rk e t s here
          (sym (ap (λ x. x.partition_key) built)) (sym (ap (λ x. x.row_key) built))
        ∙ rw (bytes_eq_refl account, bytes_eq_refl table, bytes_eq_refl pk, bytes_eq_refl rk) refl)

  module _ (lib : Library) (keeps : KeepsVisible lib.trim) (lowers : LowersNames lib.lower) where
    -- An entity that the store has inserted is found by a GET whose URL path, decoded, is a slash, the
    -- account, a slash and the segment that entityLocation writes for the entity; the GET changes
    -- nothing and answers with its etag and its properties, if the account, the table and the keys have
    -- no slash, the table's name has no opening parenthesis and is not `Tables`, and neither name is
    -- empty.
    pub get-inserted :
        (env later : Env) (a b : ℕ) (account table pk rk : Bytes) (props : Props)
        (s after : Store D) (e : Entity) (r : Request)
        → insert_entity_at c env (a ∷ account) (b ∷ table) pk rk props s ≡ (after, ok e)
        → r.path ≡ 47 ∷ (a ∷ account) ++ 47 ∷ entity_segment (b ∷ table) pk rk
        → verb_of r.verb ≡ Routes.get
        → Without 47 (a ∷ account)
        → Without 47 (b ∷ table)
        → Without 40 (b ∷ table)
        → Without 47 pk
        → Without 47 rk
        → bytes_eq (b ∷ table) (codes "Tables") ≡ false
        → serve_http lib c later r after ≡ (
          after,
          record (plain_response 200) {
            etag = some e.etag;
            payload = entity_json (entity_response lib r (a ∷ account) (b ∷ table) e);
          },
        )
    unfolding serve_http dispatch get_entity_handler
    get-inserted env later a b account table pk rk props s after e r h path verb na nt np nk nr
          other =
        let routed =
          ap (route lib) path
          ∙ route-entity_segment lib keeps lowers a b account table pk rk na nt np nk nr other in
        let found =
          get_entity-insert_entity_at env (a ∷ account) (b ∷ table) pk rk props s after e h in
        rw (routed, verb, get_entity_handler, found) refl
