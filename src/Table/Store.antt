-- ===== src/Table/Store.antt =====
-- internal/stores/tablestore: store.go, tables.go and entities.go, each call under the store's mutex.
use localaz.Common.{
  Bytes, codes, Bool, true, false, ◌||◌, List, [], ◌∷◌, ◌++◌, Option, none, some, map, bytes_eq,
  Result, ok, err, if◌then◌else◌,
}
use localaz.Common.Int.{ℤ}
use localaz.Common.Dict.{or_empty, Dict, lookup, insert, erase}
use localaz.Common.Sort.{sort_by}
use localaz.Common.Snapshot.{Codec, persist}
use localaz.Table.Types.{
  Error, table_not_found, table_exists, entity_not_found, entity_exists, etag_mismatch, Props,
  Entity, Table, new_table, get, put, delete, sort_entities,
}

abbrev pub Accounts : Type 0
Accounts = Dict (Dict Table)

pub record Store (D : Type 0) : Type 0 where
  pub accounts : Accounts
  pub file : Option D

-- What a call takes from outside: the clock, whether its write of the snapshot succeeds, `etagFor`
-- (time formatting and URL escapes) and `mustJSON` (encoding/json) of a string.
pub record Env : Type 0 where
  pub now : ℤ
  pub written : Bool
  pub etag_for : ℤ → Bytes
  pub must_json : Bytes → Bytes

-- `serverProps`
unfoldable pub is_server_prop : Bytes → Bool
is_server_prop k =
    bytes_eq k (codes "Timestamp")
    || bytes_eq k (codes "odata.metadata")
    || bytes_eq k (codes "odata.etag")
    || bytes_eq k (codes "odata.type")
    || bytes_eq k (codes "odata.id")
    || bytes_eq k (codes "odata.editLink")

unfoldable pub strip_server_props : Props → Props
strip_server_props [] = []
strip_server_props ((k, v) ∷ props) =
    let rest = strip_server_props props in if is_server_prop k then rest else insert k v rest

-- the two loops that fill `merged`
unfoldable pub merge_into : Props → Props → Props
merge_into [] base = base
merge_into ((k, v) ∷ props) base = insert k v (merge_into props base)

abbrev pub partition_key_name : Bytes
partition_key_name = codes "PartitionKey"

abbrev pub row_key_name : Bytes
row_key_name = codes "RowKey"

unfoldable pub build_entity : Env → Bytes → Bytes → Props → Entity
unfolding strip_server_props
build_entity env pk rk props = record {
  partition_key = pk;
  row_key = rk;
  props =
      insert row_key_name (env.must_json rk)
        (insert partition_key_name (env.must_json pk) (strip_server_props props));
  timestamp = env.now;
  etag = env.etag_for env.now;
}

abbrev pub any_etag : Bytes
any_etag = codes "*"

-- `matchETag`: whether the entity meets the condition
unfoldable pub match_etag : Entity → Bytes → Bool
match_etag e if_match =
    bytes_eq if_match [] || bytes_eq if_match any_etag || bytes_eq if_match e.etag

unfoldable pub find_table : Bytes → Bytes → Accounts → Option Table
find_table account name accounts = lookup name (or_empty (lookup account accounts))

unfoldable pub set_table : Bytes → Bytes → Table → Accounts → Accounts
set_table account name t accounts =
    insert account (insert name t (or_empty (lookup account accounts))) accounts

-- the entity that an update stores over `existing`
unfoldable pub updated_entity : Env → Bytes → Bytes → Props → Bool → Entity → Entity
unfolding merge_into build_entity
updated_entity env pk rk props merge existing =
    if merge
    then build_entity env pk rk (merge_into (strip_server_props props) existing.props)
    else build_entity env pk rk props

-- `update` in a table that exists, up to the store
unfoldable pub update_in : Env → Bytes → Bytes → Props → Bytes → Bool → Table → Result Error Entity
unfolding updated_entity match_etag
update_in env pk rk props if_match merge t = elim (get pk rk t) [
  | none ↦ if bytes_eq if_match [] then ok (build_entity env pk rk props) else err entity_not_found
  | some existing ↦
      if match_etag existing if_match
      then ok (updated_entity env pk rk props merge existing)
      else err etag_mismatch
]

abbrev pub entities_of : Table → List Entity
entities_of t = rows t.entities
  where
    values : Dict Entity → List Entity
    values [] = []
    values ((_, e) ∷ es) = e ∷ values es

    rows : Dict (Dict Entity) → List Entity
    rows [] = []
    rows ((_, r) ∷ rs) = values r ++ rows rs

module _ {D : Type 0} (c : Codec D Accounts) where
  abbrev pub persist_locked : Env → Store D → Store D
  persist_locked env s = record s { file = persist c env.written s.accounts s.file }

  -- the table changed in place, and the snapshot written
  abbrev pub save : Env → Bytes → Bytes → Table → Store D → Store D
  save env account name t s =
      persist_locked env (record s { accounts = set_table account name t s.accounts })

  unfoldable pub create_table : Env → Bytes → Bytes → Store D → Store D × Result Error (Unit {0})
  create_table env account name s = elim (find_table account name s.accounts) [
    | some t ↦ (s, err table_exists)
    | none ↦ (save env account name (new_table name) s, ok tt)
  ]

  unfoldable pub delete_table : Env → Bytes → Bytes → Store D → Store D × Result Error (Unit {0})
  delete_table env account name s = elim (find_table account name s.accounts) [
    | none ↦ (s, err table_not_found)
    | some t ↦
        let ts = erase name (or_empty (lookup account s.accounts)) in
        (persist_locked env (record s { accounts = insert account ts s.accounts }), ok tt)
  ]

  unfoldable pub list_tables : Bytes → Store D → List Bytes
  list_tables account s =
      sort_by (λ (n : Bytes). n)
        (map (λ (e : Bytes × Table). e.0) (or_empty (lookup account s.accounts)))

  unfoldable pub insert_entity_at :
      Env → Bytes → Bytes → Bytes → Bytes → Props → Store D → Store D × Result Error Entity
  insert_entity_at env account name pk rk props s = elim (find_table account name s.accounts) [
    | none ↦ (s, err table_not_found)
    | some t ↦ elim (get pk rk t) [
      | some e ↦ (s, err entity_exists)
      | none ↦ let e = build_entity env pk rk props in (save env account name (put e t) s, ok e)
    ]
  ]

  unfoldable pub get_entity : Bytes → Bytes → Bytes → Bytes → Store D → Result Error Entity
  get_entity account name pk rk s = elim (find_table account name s.accounts) [
    | none ↦ err table_not_found
    | some t ↦ elim (get pk rk t) [ none ↦ err entity_not_found | some e ↦ ok e ]
  ]

  unfoldable pub list_entities : Bytes → Bytes → Store D → Result Error (List Entity)
  list_entities account name s = elim (find_table account name s.accounts) [
    | none ↦ err table_not_found
    | some t ↦ ok (sort_entities (entities_of t))
  ]

  unfoldable pub update :
      Env
      → Bytes
      → Bytes
      → Bytes
      → Bytes
      → Props
      → Bytes
      → Bool
      → Store D
      → Store D × Result Error Entity
  unfolding update_in
  update env account name pk rk props if_match merge s = elim (find_table account name s.accounts) [
    | none ↦ (s, err table_not_found)
    | some t ↦ elim (update_in env pk rk props if_match merge t) [
      | err e ↦ (s, err e)
      | ok e ↦ (save env account name (put e t) s, ok e)
    ]
  ]

  abbrev pub replace_entity :
      Env → Bytes → Bytes → Bytes → Bytes → Props → Bytes → Store D → Store D × Result Error Entity
  replace_entity env account name pk rk props if_match s =
      update env account name pk rk props if_match false s

  abbrev pub merge_entity :
      Env → Bytes → Bytes → Bytes → Bytes → Props → Bytes → Store D → Store D × Result Error Entity
  merge_entity env account name pk rk props if_match s =
      update env account name pk rk props if_match true s

  unfoldable pub delete_entity :
      Env → Bytes → Bytes → Bytes → Bytes → Bytes → Store D → Store D × Result Error (Unit {0})
  delete_entity env account name pk rk if_match s = elim (find_table account name s.accounts) [
    | none ↦ (s, err table_not_found)
    | some t ↦ elim (get pk rk t) [
      | none ↦ (s, err entity_not_found)
      | some e ↦
          if match_etag e if_match
          then (save env account name ((delete pk rk t).0) s, ok tt)
          else (s, err etag_mismatch)
    ]
  ]
