-- ===== src/TableServer/Handlers.antt =====
-- internal/servers/tableserver: the handlers of tables.go and entities.go.
use localaz.Common.{
  Bytes, codes, ℕ, suc, Bool, true, false, List, [], ◌∷◌, ◌++◌, Option, none, some, leb, bytes_eq,
  ok, err, if◌then◌else◌,
}
use localaz.Common.Int.{ℤ, pos, negsuc}
use localaz.Common.Snapshot.{Codec}
use localaz.Common.Strings.{split}
use localaz.Azerr.{internal}
use localaz.Table.Types.{Props, Entity}
use localaz.Table.Store.{Accounts, Store, Env, merge_into, create_table, delete_table, list_tables}
use localaz.Filter.Compare.{FilterFunc}
use localaz.Filter.Parser.{parse_filter}
use localaz.TableServer.Http.{
  Request, Response, Library, table_json, tables_json, plain_response, write_error, map_store_err,
  invalid, metadata_base, prefer_no_content, render_entity,
}

-- whether one of the names is the key, blanks trimmed
unfoldable pub is_kept : (Bytes → Bytes) → List Bytes → Bytes → Bool
is_kept trim [] k = false
is_kept trim (f ∷ fields) k =
    let rest = is_kept trim fields k in if bytes_eq (trim f) k then true else rest

-- the entries of a map whose key is kept
unfoldable pub keep_keys : (Bytes → Bool) → Props → Props
keep_keys kept [] = []
keep_keys kept ((k, v) ∷ m) = let rest = keep_keys kept m in if kept k then (k, v) ∷ rest else rest

unfoldable pub project_select : (Bytes → Bytes) → Props → Bytes → Props
unfolding split is_kept keep_keys
project_select trim m [] = m
project_select trim m (c ∷ select) =
    let (field, fields) = split 44 (c ∷ select) in
    keep_keys
      (λ k. if bytes_eq (codes "odata.etag") k then true else is_kept trim (field ∷ fields) k) m

-- `top >= 0 && len(value) >= top`
unfoldable pub reached : ℤ → ℕ → Bool
reached (pos top) n = leb top n
reached (negsuc top) n = false

module _ (lib : Library) where
  unfoldable pub parse_int : Bytes → ℤ → ℤ
  parse_int [] fallback = fallback
  parse_int (c ∷ s) fallback = elim (lib.atoi (c ∷ s)) [ none ↦ fallback | some v ↦ v ]

  -- The loop of `listEntities`, with the number of entities listed so far.
  unfoldable pub collect : FilterFunc → ℤ → Bytes → ℕ → List Entity → List Props
  unfolding reached project_select render_entity
  collect filter top select n [] = []
  collect filter top select n (e ∷ es) = elim (filter (render_entity lib e)) [
    | false ↦ collect filter top select n es
    | true ↦ elim (reached top n) [
      | true ↦ []
      | false ↦
          project_select lib.trim (render_entity lib e) select
          ∷ collect filter top select (suc n) es
    ]
  ]

  -- the filter of a query; `none` is an unsupported one
  unfoldable pub query_filter : Bytes → Option FilterFunc
  query_filter [] = some (λ _. true)
  query_filter (c ∷ expr) = parse_filter lib.floats lib.unmarshal_any lib.trim lib.lower (c ∷ expr)

  -- the response, or the error that marshalling its JSON gives
  unfoldable pub marshalled : Request → Response → Response
  unfolding write_error
  marshalled r response = elim (lib.marshal_error response.payload) [
    | none ↦ response
    | some message ↦ write_error r (internal message)
  ]

  -- what `createTable` answers once the table is stored
  unfoldable pub created : Request → Bytes → Bytes → Response
  unfolding metadata_base prefer_no_content
  created r account name =
      if prefer_no_content (r.header (codes "Prefer"))
      then plain_response 204
      else record (plain_response 201) {
        payload = table_json (metadata_base r account ++ codes "#Tables/@Element") name;
      }

  unfoldable pub entity_response : Request → Bytes → Bytes → Entity → Props
  unfolding merge_into render_entity metadata_base
  entity_response r account table e = merge_into (render_entity lib e) (
      (
        codes "odata.metadata",
        lib.json_string (metadata_base r account ++ (codes "#" ++ (table ++ codes "/@Element"))),
      )
      ∷ [])

  module _ {D : Type 0} (c : Codec D Accounts) (env : Env) where
    unfoldable pub create_table_handler : Request → Bytes → Store D → Store D × Response
    unfolding write_error map_store_err created
    create_table_handler r account s = elim r.body [
      | err message ↦ (s, write_error r (internal message))
      | ok body ↦ elim (lib.unmarshal_table_name body) [
        | none ↦ (s, write_error r (invalid "Invalid table creation payload."))
        | some [] ↦ (s, write_error r (invalid "Invalid table creation payload."))
        | some (b ∷ name) ↦
            let (after, result) = create_table c env account (b ∷ name) s in
            elim result [
              | err e ↦ (after, write_error r (map_store_err e))
              | ok _ ↦ (after, created r account (b ∷ name))
            ]
      ]
    ]

    unfoldable pub delete_table_handler : Request → Bytes → Bytes → Store D → Store D × Response
    unfolding write_error map_store_err
    delete_table_handler r account name s =
        let (after, result) = delete_table c env account name s in
        elim result [
          | err e ↦ (after, write_error r (map_store_err e))
          | ok _ ↦ (after, plain_response 204)
        ]

    unfoldable pub list_tables_handler : Request → Bytes → Store D → Store D × Response
    unfolding marshalled
    list_tables_handler r account s = (
      s,
      marshalled r (record (plain_response 200) {
        payload =
            tables_json (metadata_base r account ++ codes "#Tables") (list_tables c account s);
      }),
    )
