-- ===== src/Table/Types.antt =====
-- internal/stores/tablestore/types.go and helpers.go. A `json.RawMessage` is its text.
use localaz.Common.{
  Bytes, Bool, true, false, List, [], ◌∷◌, Option, none, some, bytes_eq, bytes_lt, if◌then◌else◌,
}
use localaz.Common.Int.{ℤ}
use localaz.Common.Dict.{or_empty, Dict, lookup, insert, erase}

pub data Error : Type 0 where
  table_not_found table_exists entity_not_found entity_exists etag_mismatch : Error

abbrev pub Props : Type 0
Props = Dict Bytes

pub record Entity : Type 0 where
  pub partition_key : Bytes
  pub row_key : Bytes
  pub props : Props
  pub timestamp : ℤ
  pub etag : Bytes

pub record Table : Type 0 where
  pub name : Bytes
  pub entities : Dict (Dict Entity)

unfoldable pub new_table : Bytes → Table
new_table name = record { name = name; entities = [] }

unfoldable pub get : Bytes → Bytes → Table → Option Entity
get pk rk t = lookup rk (or_empty (lookup pk t.entities))

unfoldable pub put : Entity → Table → Table
put e t = record t {
  entities =
      insert e.partition_key (insert e.row_key e (or_empty (lookup e.partition_key t.entities)))
        t.entities;
}

-- what `delete` does with the rows of the partition that holds the entity
unfoldable pub without : Bytes → Dict Entity → Dict (Dict Entity) → Dict (Dict Entity)
without pk [] entities = erase pk entities
without pk (row ∷ rows) entities = insert pk (row ∷ rows) entities

unfoldable pub delete : Bytes → Bytes → Table → Table × Bool
unfolding without
delete pk rk t = elim (lookup rk (or_empty (lookup pk t.entities))) [
  | none ↦ (t, false)
  | some e ↦
      let rows = erase rk (or_empty (lookup pk t.entities)) in
      (record t { entities = without pk rows t.entities }, true)
]

-- the order of `sortEntities`
unfoldable pub entity_lt : Entity → Entity → Bool
entity_lt a b =
    if bytes_eq a.partition_key b.partition_key
    then bytes_lt a.row_key b.row_key
    else bytes_lt a.partition_key b.partition_key

unfoldable pub insert_entity : Entity → List Entity → List Entity
insert_entity e [] = e ∷ []
insert_entity e (f ∷ fs) =
    let rest = insert_entity e fs in if entity_lt f e then f ∷ rest else e ∷ (f ∷ fs)

-- `sortEntities`; sort.Slice is not stable, which shows only for entities with equal keys
unfoldable pub sort_entities : List Entity → List Entity
unfolding insert_entity
sort_entities [] = []
sort_entities (e ∷ es) = insert_entity e (sort_entities es)
