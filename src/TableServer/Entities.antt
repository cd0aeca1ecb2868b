-- ===== src/TableServer/Entities.antt =====
-- internal/servers/tableserver/entities.go: the handlers, on the store's model in Table.Store.
use localaz.Common.{Bytes, codes, Bool, [], ◌∷◌, ◌++◌, Option, none, some, ok, err, if◌then◌else◌}
use localaz.Common.Int.{negsuc}
use localaz.Common.Dict.{lookup}
use localaz.Common.Snapshot.{Codec}
use localaz.Azerr.{internal}
use localaz.Table.Types.{Props, Entity}
use localaz.Table.Store.{
  Accounts, Store, Env, partition_key_name, row_key_name, insert_entity_at, get_entity,
  list_entities, update, delete_entity,
}
use localaz.TableServer.Http.{
  Request, Response, Library, entity_json, entities_json, plain_response, write_error,
  map_store_err, invalid, metadata_base, entity_location, prefer_no_content, decode_key,
}
use localaz.TableServer.Handlers.{parse_int, collect, query_filter, marshalled, entity_response}

module _ (lib : Library) where
  -- what `insertEntity` answers once the entity is stored
  unfoldable pub inserted : Request → Bytes → Bytes → Bytes → Bytes → Entity → Response
  unfolding entity_response
  inserted r account table pk rk e =
      if prefer_no_content (r.header (codes "Prefer"))
      then record (plain_response 204) {
        etag = some e.etag;
        location = some (entity_location r account table pk rk);
      }
      else record (plain_response 201) {
        etag = some e.etag;
        location = some (entity_location r account table pk rk);
        payload = entity_json (entity_response lib r account table e);
      }

  -- an update with no body has no properties
  unfoldable pub body_props : Bytes → Option Props
  body_props [] = some []
  body_props (b ∷ body) = lib.unmarshal_props (b ∷ body)

  module _ {D : Type 0} (c : Codec D Accounts) (env : Env) where
    unfoldable pub insert_entity_handler : Request → Bytes → Bytes → Store D → Store D × Response
    unfolding write_error map_store_err inserted decode_key
    insert_entity_handler r account table s = elim r.body [
      | err message ↦ (s, write_error r (internal message))
      | ok body ↦ elim (lib.unmarshal_props body) [
        | none ↦ (s, write_error r (invalid "Invalid entity payload."))
        | some props ↦
            let pk = decode_key lib (lookup partition_key_name props) in
            let rk = decode_key lib (lookup row_key_name props) in
            let (after, result) = insert_entity_at c env account table pk rk props s in
            elim result [
              | err e ↦ (after, write_error r (map_store_err e))
              | ok e ↦ (after, inserted r account table pk rk e)
            ]
      ]
    ]

    unfoldable pub get_entity_handler :
        Request → Bytes → Bytes → Bytes → Bytes → Store D → Store D × Response
    unfolding write_error map_store_err entity_response
    get_entity_handler r account table pk rk s = elim (get_entity c account table pk rk s) [
      | err e ↦ (s, write_error r (map_store_err e))
      | ok e ↦ (
        s,
        record (plain_response 200) {
          etag = some e.etag;
          payload = entity_json (entity_response lib r account table e);
        },
      )
    ]

    unfoldable pub list_entities_handler : Request → Bytes → Bytes → Store D → Store D × Response
    unfolding write_error map_store_err query_filter collect marshalled parse_int
    list_entities_handler r account table s = elim (list_entities c account table s) [
      | err e ↦ (s, write_error r (map_store_err e))
      | ok es ↦ elim (query_filter lib (r.query (codes "$filter"))) [
        | none ↦ (s, write_error r (invalid "Unsupported $filter expression."))
        | some filter ↦
            let top = parse_int lib (r.query (codes "$top")) (negsuc 0) in
            let value = collect lib filter top (r.query (codes "$select")) 0 es in
            (
              s,
              marshalled lib r (record (plain_response 200) {
                payload = entities_json (metadata_base r account ++ (codes "#" ++ table)) value;
              }),
            )
      ]
    ]

    unfoldable pub update_entity_handler :
        Request → Bytes → Bytes → Bytes → Bytes → Bool → Store D → Store D × Response
    unfolding write_error map_store_err body_props
    update_entity_handler r account table pk rk merge s = elim r.body [
      | err message ↦ (s, write_error r (internal message))
      | ok body ↦ elim (body_props body) [
        | none ↦ (s, write_error r (invalid "Invalid entity payload."))
        | some props ↦
            let (after, result) =
              update c env account table pk rk props (r.header (codes "If-Match")) merge s in
            elim result [
              | err e ↦ (after, write_error r (map_store_err e))
              | ok e ↦ (after, record (plain_response 204) { etag = some e.etag })
            ]
      ]
    ]

    unfoldable pub delete_entity_handler :
        Request → Bytes → Bytes → Bytes → Bytes → Store D → Store D × Response
    unfolding write_error map_store_err
    delete_entity_handler r account table pk rk s =
        let (after, result) =
          delete_entity c env account table pk rk (r.header (codes "If-Match")) s in
        elim result [
          | err e ↦ (after, write_error r (map_store_err e))
          | ok _ ↦ (after, plain_response 204)
        ]
