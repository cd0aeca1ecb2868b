-- ===== src/Monitor/Store.antt =====
-- internal/stores/monitorstore: store.go and types.go, each call under the store's mutex.
use localaz.Common.{
  Bytes, codes, List, [], ◌∷◌, ◌++◌, Option, none, some, map, has_prefix, length, drop,
  if◌then◌else◌,
}
use localaz.Common.Dict.{Dict, or_empty, lookup, insert}
use localaz.Common.Sort.{sort_by}
use localaz.Monitor.Values.{string, Row}

abbrev pub Tables : Type 0 → Type 0
Tables F = Dict (List (Row F))

abbrev pub time_generated : Bytes
time_generated = codes "TimeGenerated"

unfoldable pub table_name : Bytes → Bytes
table_name stream =
    if has_prefix stream (codes "Custom-") then drop (length (codes "Custom-")) stream else stream

module _ {F : Type 0} where
  -- a record as it is stored; a nil record is an empty one
  unfoldable pub stamped : Bytes → Option (Row F) → Row F
  stamped now none = insert time_generated (string now) []
  stamped now (some row) = elim (lookup time_generated row) [
    | none ↦ insert time_generated (string now) row
    | some v ↦ row
  ]

  -- The loop of `Ingest`, with the clock's text.
  unfoldable pub ingest_rows : Bytes → Bytes → List (Option (Row F)) → Tables F → Tables F
  unfolding stamped
  ingest_rows now name [] tables = tables
  ingest_rows now name (r ∷ records) tables =
      ingest_rows now name records
        (insert name (or_empty (lookup name tables) ++ stamped now r ∷ []) tables)

  unfoldable pub ingest : Bytes → Bytes → List (Option (Row F)) → Tables F → Tables F
  unfolding ingest_rows table_name
  ingest now stream records tables = ingest_rows now (table_name stream) records tables

  unfoldable pub rows_of : Bytes → Tables F → Option (List (Row F))
  rows_of name tables = lookup name tables

  unfoldable pub table_names : Tables F → List Bytes
  table_names tables = sort_by (λ (n : Bytes). n) (map (λ (e : Bytes × List (Row F)). e.0) tables)
