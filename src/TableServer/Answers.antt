-- ===== src/TableServer/Answers.antt =====
-- internal/servers/tableserver: a request that is answered by an error changes nothing.
use localaz.Common.{
  Bytes, codes, Bool, true, false, [], ◌∷◌, none, Result, ok, err, ◌≡◌, refl, Bool-cases,
  Option-cases, Result-cases, inl, inr, ◌⊎◌,
}
use localaz.Common.Snapshot.{Codec}
use localaz.Common.Dict.{lookup}
use localaz.Table.Types.{Error, Props, Entity, get}
use localaz.Table.Store.{
  Accounts, Store, Env, create_table, delete_table, insert_entity_at, update, update_in,
  delete_entity, find_table, match_etag, get_entity, list_entities, partition_key_name,
  row_key_name,
}
use localaz.TableServer.Http.{
  Request, Response, Library, write_error, map_store_err, prefer_no_content, decode_key,
}
use localaz.TableServer.Handlers.{
  created, query_filter, create_table_handler, delete_table_handler, list_tables_handler,
}
use localaz.TableServer.Entities.{
  inserted, body_props, insert_entity_handler, get_entity_handler, list_entities_handler,
  update_entity_handler, delete_entity_handler,
}
use localaz.TableServer.Routes
use localaz.TableServer.Routes.{
  Target, no_account, no_resource, table_collection, table_item, entity_collection, entity_item,
  Verb, post, put, patch, merge, other_verb, dispatch, serve_http, route, verb_of,
}

module _ {D : Type 0} where
  -- a call of the store that fails leaves it as it was
  unfoldable KeepsOnError : {A : Type 0} → Store D → Store D × Result Error A → Type 0
  KeepsOnError s (after, ok a) = Unit
  KeepsOnError s (after, err e) = after ≡ s

  -- the answer is no error, or the store is as it was
  abbrev pub ErrorKeeps : Store D → Store D × Response → Type 0
  ErrorKeeps s (after, response) = (response.error_code ≡ none) ⊎ (after ≡ s)

  -- a handler's last step: the error of the store, or an answer that is no error
  answer :
      {A : Type 0} (s : Store D) (r : Request) (p : Store D × Result Error A) (good : A → Response)
      → KeepsOnError s p
      → ((a : A) → (good a).error_code ≡ none)
      → ErrorKeeps s
          (elim p.1 [ err e ↦ (p.0, write_error r (map_store_err e)) | ok a ↦ (p.0, good a) ])
  unfolding KeepsOnError
  answer s r (after, ok a) good h k = inl (k a)
  answer s r (after, err e) good h k = inr h

  module _ (c : Codec D Accounts) (env : Env) where
    create_table-Keeps :
        (account name : Bytes) (s : Store D) → KeepsOnError s (create_table c env account name s)
    unfolding create_table KeepsOnError
    create_table-Keeps account name s = elim (Option-cases (find_table account name s.accounts)) [
      | inl e ↦ rw (create_table, e) tt
      | inr (t, e) ↦ rw (create_table, e) refl
    ]

    delete_table-Keeps :
        (account name : Bytes) (s : Store D) → KeepsOnError s (delete_table c env account name s)
    unfolding delete_table KeepsOnError
    delete_table-Keeps account name s = elim (Option-cases (find_table account name s.accounts)) [
      | inl e ↦ rw (delete_table, e) refl
      | inr (t, e) ↦ rw (delete_table, e) tt
    ]

    insert_entity_at-Keeps :
        (account name pk rk : Bytes) (props : Props) (s : Store D)
        → KeepsOnError s (insert_entity_at c env account name pk rk props s)
    unfolding insert_entity_at KeepsOnError
    insert_entity_at-Keeps account name pk rk props s =
        elim (Option-cases (find_table account name s.accounts)) [
          | inl e ↦ rw (insert_entity_at, e) refl
          | inr (t, e) ↦ elim (Option-cases (get pk rk t)) [
            | inl f ↦ rw (insert_entity_at, e, f) tt
            | inr (x, f) ↦ rw (insert_entity_at, e, f) refl
          ]
        ]

    update-Keeps :
        (account name pk rk : Bytes) (props : Props) (if_match : Bytes) (merging : Bool)
        (s : Store D)
        → KeepsOnError s (update c env account name pk rk props if_match merging s)
    unfolding update KeepsOnError
    update-Keeps account name pk rk props if_match merging s =
        elim (Option-cases (find_table account name s.accounts)) [
          | inl e ↦ rw (update, e) refl
          | inr (t, e) ↦ elim (Result-cases (update_in env pk rk props if_match merging t)) [
            | inl (x, f) ↦ rw (update, e, f) tt
            | inr (x, f) ↦ rw (update, e, f) refl
          ]
        ]

    delete_entity-Keeps :
        (account name pk rk if_match : Bytes) (s : Store D)
        → KeepsOnError s (delete_entity c env account name pk rk if_match s)
    unfolding delete_entity KeepsOnError
    delete_entity-Keeps account name pk rk if_match s =
        elim (Option-cases (find_table account name s.accounts)) [
          | inl e ↦ rw (delete_entity, e) refl
          | inr (t, e) ↦ elim (Option-cases (get pk rk t)) [
            | inl f ↦ rw (delete_entity, e, f) refl
            | inr (x, f) ↦ elim (Bool-cases (match_etag x if_match)) [
              | inl m ↦ rw (delete_entity, e, f, m) tt
              | inr m ↦ rw (delete_entity, e, f, m) refl
            ]
          ]
        ]

    module _ (lib : Library) where
      created-ok :
          (r : Request) (account name : Bytes) → (created lib r account name).error_code ≡ none
      unfolding created
      created-ok r account name =
          elim (Bool-cases (prefer_no_content (r.header (codes "Prefer")))) [
            | inl g ↦ rw (created, g) refl
            | inr g ↦ rw (created, g) refl
          ]

      create_table_handler-Keeps :
          (r : Request) (account : Bytes) (s : Store D)
          → ErrorKeeps s (create_table_handler lib c env r account s)
      unfolding create_table_handler
      create_table_handler-Keeps r account s = elim (Result-cases r.body) [
        | inr (m, e) ↦ rw (create_table_handler, e) (inr refl)
        | inl (body, e) ↦ elim (Option-cases (lib.unmarshal_table_name body)) [
          | inl f ↦ rw (create_table_handler, e, f) (inr refl)
          | inr ([], f) ↦ rw (create_table_handler, e, f) (inr refl)
          | inr (b ∷ name, f) ↦
              rw (create_table_handler, e, f)
                (answer s r (create_table c env account (b ∷ name) s) _
                  (create_table-Keeps account (b ∷ name) s) (λ _. created-ok r account (b ∷ name)))
        ]
      ]

      delete_table_handler-Keeps :
          (r : Request) (account name : Bytes) (s : Store D)
          → ErrorKeeps s (delete_table_handler lib c env r account name s)
      unfolding delete_table_handler
      delete_table_handler-Keeps r account name s =
          answer s r (delete_table c env account name s) _ (delete_table-Keeps account name s)
            (λ _. refl)

      inserted-ok :
          (r : Request) (account table pk rk : Bytes) (e : Entity)
          → (inserted lib r account table pk rk e).error_code ≡ none
      unfolding inserted
      inserted-ok r account table pk rk e =
          elim (Bool-cases (prefer_no_content (r.header (codes "Prefer")))) [
            | inl g ↦ rw (inserted, g) refl
            | inr g ↦ rw (inserted, g) refl
          ]

      insert_entity_handler-Keeps :
          (r : Request) (account table : Bytes) (s : Store D)
          → ErrorKeeps s (insert_entity_handler lib c env r account table s)
      unfolding insert_entity_handler
      insert_entity_handler-Keeps r account table s = elim (Result-cases r.body) [
        | inr (m, e) ↦ rw (insert_entity_handler, e) (inr refl)
        | inl (body, e) ↦ elim (Option-cases (lib.unmarshal_props body)) [
          | inl f ↦ rw (insert_entity_handler, e, f) (inr refl)
          | inr (props, f) ↦
              let pk = decode_key lib (lookup partition_key_name props) in
              let rk = decode_key lib (lookup row_key_name props) in
              rw (insert_entity_handler, e, f)
                (answer s r (insert_entity_at c env account table pk rk props s) _
                  (insert_entity_at-Keeps account table pk rk props s)
                  (inserted-ok r account table pk rk))
        ]
      ]

      update_entity_handler-Keeps :
          (r : Request) (account table pk rk : Bytes) (merging : Bool) (s : Store D)
          → ErrorKeeps s (update_entity_handler lib c env r account table pk rk merging s)
      unfolding update_entity_handler
      update_entity_handler-Keeps r account table pk rk merging s = elim (Result-cases r.body) [
        | inr (m, e) ↦ rw (update_entity_handler, e) (inr refl)
        | inl (body, e) ↦ elim (Option-cases (body_props lib body)) [
          | inl f ↦ rw (update_entity_handler, e, f) (inr refl)
          | inr (props, f) ↦
              rw (update_entity_handler, e, f)
                (answer s r
                  (update c env account table pk rk props (r.header (codes "If-Match")) merging s) _
                  (update-Keeps account table pk rk props (r.header (codes "If-Match")) merging s)
                  (λ _. refl))
        ]
      ]

      get_entity_handler-Keeps :
          (r : Request) (account table pk rk : Bytes) (s : Store D)
          → (get_entity_handler lib c env r account table pk rk s).0 ≡ s
      unfolding get_entity_handler
      get_entity_handler-Keeps r account table pk rk s =
          elim (Result-cases (get_entity c account table pk rk s)) [
            | inl (x, e) ↦ rw (get_entity_handler, e) refl
            | inr (x, e) ↦ rw (get_entity_handler, e) refl
          ]

      delete_entity_handler-Keeps :
          (r : Request) (account table pk rk : Bytes) (s : Store D)
          → ErrorKeeps s (delete_entity_handler lib c env r account table pk rk s)
      unfolding delete_entity_handler
      delete_entity_handler-Keeps r account table pk rk s =
          answer s r (delete_entity c env account table pk rk (r.header (codes "If-Match")) s) _
            (delete_entity-Keeps account table pk rk (r.header (codes "If-Match")) s) (λ _. refl)

      list_entities_handler-Keeps :
          (r : Request) (account table : Bytes) (s : Store D)
          → (list_entities_handler lib c env r account table s).0 ≡ s
      unfolding list_entities_handler
      list_entities_handler-Keeps r account table s =
          elim (Result-cases (list_entities c account table s)) [
            | inr (x, e) ↦ rw (list_entities_handler, e) refl
            | inl (es, e) ↦ elim (Option-cases (query_filter lib (r.query (codes "$filter")))) [
              | inl f ↦ rw (list_entities_handler, e, f) refl
              | inr (filter, f) ↦ rw (list_entities_handler, e, f) refl
            ]
          ]

      dispatch-Keeps :
          (t : Target) (v : Verb) (r : Request) (s : Store D)
          → ErrorKeeps s (dispatch lib c env t v r s)
      unfolding dispatch list_tables_handler
      dispatch-Keeps no_account v r s = inr refl
      dispatch-Keeps no_resource v r s = inr refl
      dispatch-Keeps (table_collection account) post r s = create_table_handler-Keeps r account s
      dispatch-Keeps (table_collection account) _ r s = inr refl
      dispatch-Keeps (table_item account name) Routes.delete r s =
          delete_table_handler-Keeps r account name s
      dispatch-Keeps (table_item account name) _ r s = inr refl
      dispatch-Keeps (entity_collection account name) post r s =
          insert_entity_handler-Keeps r account name s
      dispatch-Keeps (entity_collection account name) Routes.get r s =
          inr (list_entities_handler-Keeps r account name s)
      dispatch-Keeps (entity_collection account name) _ r s = inr refl
      dispatch-Keeps (entity_item account name pk rk) Routes.get r s =
          inr (get_entity_handler-Keeps r account name pk rk s)
      dispatch-Keeps (entity_item account name pk rk) put r s =
          update_entity_handler-Keeps r account name pk rk false s
      dispatch-Keeps (entity_item account name pk rk) patch r s =
          update_entity_handler-Keeps r account name pk rk true s
      dispatch-Keeps (entity_item account name pk rk) merge r s =
          update_entity_handler-Keeps r account name pk rk true s
      dispatch-Keeps (entity_item account name pk rk) Routes.delete r s =
          delete_entity_handler-Keeps r account name pk rk s
      dispatch-Keeps (entity_item account name pk rk) _ r s = inr refl

      -- A request leaves the store as it was, its file included, unless the answer has no error code.
      pub serve_http-ErrorKeeps :
          (r : Request) (s : Store D) → ErrorKeeps s (serve_http lib c env r s)
      unfolding serve_http
      serve_http-ErrorKeeps r s = dispatch-Keeps (route lib r.path) (verb_of r.verb) r s
