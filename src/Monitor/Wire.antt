-- ===== src/Monitor/Wire.antt =====
-- internal/servers/monitorserver/query.go: the answer's table.
use localaz.Common.{
  Bytes, codes, Bool, true, false, ◌||◌, List, [], ◌∷◌, Option, none, some, map, keep, not,
  bytes_eq, if◌then◌else◌,
}
use localaz.Common.Sort.{sort_by}
use localaz.Monitor.Values.{Value, null, object, float, integer, string, bool, Row, at, Library}
use localaz.Monitor.Store.{time_generated}
use localaz.Monitor.Kql.{ResultTable}

pub record Column : Type 0 where
  pub name : Bytes
  pub type_name : Bytes

pub record WireTable (F : Type 0) : Type 0 where
  pub name : Bytes
  pub columns : List Column
  pub rows : List (List (Value F))

-- a set of names, as the keys of a Go map
unfoldable pub add_name : Bytes → List Bytes → List Bytes
add_name k [] = k ∷ []
add_name k (j ∷ seen) = let rest = add_name k seen in if bytes_eq j k then j ∷ seen else j ∷ rest

unfoldable pub has_name : Bytes → List Bytes → Bool
has_name k [] = false
has_name k (j ∷ seen) = let rest = has_name k seen in if bytes_eq j k then true else rest

module _ {F : Type 0} where
  unfoldable pub add_keys : Row F → List Bytes → List Bytes
  unfolding add_name
  add_keys [] seen = seen
  add_keys ((k, v) ∷ row) seen = add_keys row (add_name k seen)

  unfoldable pub seen_keys : List (Row F) → List Bytes → List Bytes
  unfolding add_keys
  seen_keys [] seen = seen
  seen_keys (r ∷ rows) seen = seen_keys rows (add_keys r seen)

  unfoldable pub infer_columns : List (Row F) → List Bytes
  unfolding seen_keys has_name
  infer_columns rows =
      let seen = seen_keys rows [] in
      let cols = sort_by (λ (n : Bytes). n) (keep (λ k. not (bytes_eq k time_generated)) seen) in
      if has_name time_generated seen then time_generated ∷ cols else cols

  unfoldable pub values_at : List Bytes → Row F → List (Value F)
  unfolding at
  values_at cols row = map (at row) cols

module _ (lib : Library) where
  -- the type of a value that is not nil; `none` goes on to the next row
  unfoldable pub type_of : Bytes → Value lib.floats.Float → Option Bytes
  type_of name null = none
  type_of name (integer n) = none
  type_of name (bool b) = some (codes "bool")
  type_of name (float f) = some (if lib.is_integral f then codes "long" else codes "real")
  type_of name (string s) = some (
      if bytes_eq name time_generated || lib.is_rfc3339 s then codes "datetime" else codes "string")
  type_of name object = some (codes "dynamic")

  unfoldable pub infer_type : Bytes → List (Row lib.floats.Float) → Bytes
  unfolding type_of at
  infer_type name [] = if bytes_eq name time_generated then codes "datetime" else codes "string"
  infer_type name (r ∷ rows) = elim (type_of name (at r name)) [
    | some t ↦ t
    | none ↦ infer_type name rows
  ]

  -- the columns asked for, or those of the rows
  unfoldable pub columns_of : ResultTable lib.floats.Float → List Bytes
  unfolding infer_columns
  columns_of res = elim res.columns [ [] ↦ infer_columns res.rows | c ∷ cols ↦ c ∷ cols ]

  unfoldable pub materialize : ResultTable lib.floats.Float → WireTable lib.floats.Float
  unfolding infer_type columns_of values_at
  materialize res = record {
    name = codes "PrimaryResult";
    columns = map (λ n. record { name = n; type_name = infer_type n res.rows }) (columns_of res);
    rows = map (values_at (columns_of res)) res.rows;
  }
