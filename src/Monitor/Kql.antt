-- ===== src/Monitor/Kql.antt =====
-- internal/servers/monitorserver/kql.go: the stages of a query.
use localaz.Common.{
  Bytes, codes, Bool, true, false, not, ◌&&◌, ◌||◌, List, [], ◌∷◌, none, some, map, length, take,
  drop, ltb, bytes_eq, Result, ok, err, if◌then◌else◌,
}
use localaz.Common.Int.{pos, negsuc}
use localaz.Common.Dict.{insert}
use localaz.Common.Strings.{split, trim_suffix_byte}
use localaz.Common.Stable.{sort_stable}
use localaz.Monitor.Values.{
  float, Row, at, Library, KqlError, missing_table, no_columns, bad_take, bad_sort, bad_direction,
  unknown_table, unsupported_operator, Order, less, equal, compare_values,
}
use localaz.Monitor.Store.{Tables, rows_of}
use localaz.Monitor.Predicate.{Comparison, parse_predicate, eval_predicate}

pub record ResultTable (F : Type 0) : Type 0 where
  pub columns : List Bytes
  pub rows : List (Row F)

unfoldable pub project_row : {F : Type 0} → List Bytes → Row F → Row F
unfolding at
project_row [] row = []
project_row (c ∷ cols) row = insert c (at row c) (project_row cols row)

abbrev pub is_less : Order → Bool
is_less less = true
is_less _ = false

abbrev pub is_equal : Order → Bool
is_equal equal = true
is_equal _ = false

module _ (lib : Library) where
  unfoldable pub trimmed : List Bytes → List Bytes
  trimmed [] = []
  trimmed (p ∷ parts) = lib.trim p ∷ trimmed parts

  unfoldable pub split_pipeline : Bytes → Bytes × List Bytes
  unfolding split trimmed
  split_pipeline query = let (first, parts) = split 124 query in (lib.trim first, trimmed parts)

  -- the parts that are not blank
  unfoldable pub csv_parts : List Bytes → List Bytes
  csv_parts [] = []
  csv_parts (p ∷ parts) =
      let rest = csv_parts parts in elim (lib.trim p) [ [] ↦ rest | c ∷ s ↦ (c ∷ s) ∷ rest ]

  unfoldable pub split_csv : Bytes → List Bytes
  unfolding split csv_parts
  split_csv s = let (first, parts) = split 44 s in csv_parts (first ∷ parts)

  -- the loop of `applyWhere`
  unfoldable pub where_rows :
      List (List (Comparison lib.floats.Float))
      → List (Row lib.floats.Float)
      → Result KqlError (List (Row lib.floats.Float))
  unfolding eval_predicate
  where_rows groups [] = ok []
  where_rows groups (r ∷ rows) = elim (eval_predicate lib groups r) [
    | err e ↦ err e
    | ok keeps ↦ elim (where_rows groups rows) [
      | err e ↦ err e
      | ok kept ↦ ok (if keeps then r ∷ kept else kept)
    ]
  ]

  unfoldable pub apply_where :
      ResultTable lib.floats.Float → Bytes → Result KqlError (ResultTable lib.floats.Float)
  unfolding where_rows parse_predicate
  apply_where tbl expr = elim (parse_predicate lib expr) [
    | err e ↦ err e
    | ok groups ↦ elim (where_rows groups tbl.rows) [
      | err e ↦ err e
      | ok kept ↦ ok (record tbl { rows = kept })
    ]
  ]

  unfoldable pub apply_project :
      ResultTable lib.floats.Float → Bytes → Result KqlError (ResultTable lib.floats.Float)
  unfolding split_csv project_row
  apply_project tbl list = elim (split_csv list) [
    | [] ↦ err no_columns
    | c ∷ cols ↦ ok (record { columns = c ∷ cols; rows = map (project_row (c ∷ cols)) tbl.rows })
  ]

  unfoldable pub apply_take :
      ResultTable lib.floats.Float → Bytes → Result KqlError (ResultTable lib.floats.Float)
  apply_take tbl arg = elim (lib.atoi (lib.trim arg)) [
    | none ↦ err bad_take
    | some (negsuc n) ↦ err bad_take
    | some (pos n) ↦
        ok (if ltb n (length tbl.rows) then record tbl { rows = take n tbl.rows } else tbl)
  ]

  unfoldable pub apply_count : ResultTable lib.floats.Float → ResultTable lib.floats.Float
  apply_count tbl = record {
    columns = codes "Count" ∷ [];
    rows = ((codes "Count", float (lib.of_int (pos (length tbl.rows)))) ∷ []) ∷ [];
  }

  -- the comparison that `applySort` sorts by
  unfoldable pub row_less : Bytes → Bool → Row lib.floats.Float → Row lib.floats.Float → Bool
  unfolding compare_values at
  row_less col desc a b =
      let o = compare_values lib (at a col) (at b col) in
      if desc then not (is_less o) && not (is_equal o) else is_less o

  -- whether the direction is descending, which is the default
  unfoldable pub direction : List Bytes → Result KqlError Bool
  direction [] = ok true
  direction (word ∷ words) =
      if bytes_eq (lib.lower word) (codes "asc")
      then ok false
      else if bytes_eq (lib.lower word) (codes "desc")
      then ok true
      else err bad_direction

  unfoldable pub apply_sort :
      ResultTable lib.floats.Float → List Bytes → Result KqlError (ResultTable lib.floats.Float)
  unfolding row_less direction
  apply_sort tbl (op ∷ by ∷ col ∷ words) =
      if bytes_eq (lib.lower by) (codes "by")
      then elim (direction words) [
        | err e ↦ err e
        | ok desc ↦
            ok
              (record tbl { rows = sort_stable (row_less (trim_suffix_byte 44 col) desc) tbl.rows })
      ]
      else err bad_sort
  apply_sort tbl _ = err bad_sort

  -- the switch of `applyStage` over the first word in lower case
  unfoldable pub apply_operator :
      ResultTable lib.floats.Float
      → Bytes
      → List Bytes
      → Bytes
      → Result KqlError (ResultTable lib.floats.Float)
  unfolding apply_where apply_project apply_take apply_count apply_sort
  apply_operator tbl word fields rest =
      let o = lib.lower word in
      if bytes_eq o (codes "where") || bytes_eq o (codes "filter")
      then apply_where tbl rest
      else if bytes_eq o (codes "project")
      then apply_project tbl rest
      else if bytes_eq o (codes "take") || bytes_eq o (codes "limit")
      then apply_take tbl rest
      else if bytes_eq o (codes "count")
      then ok (apply_count tbl)
      else if bytes_eq o (codes "sort") || bytes_eq o (codes "order")
      then apply_sort tbl fields
      else err (unsupported_operator word)

  unfoldable pub apply_stage :
      ResultTable lib.floats.Float → Bytes → Result KqlError (ResultTable lib.floats.Float)
  unfolding apply_operator
  apply_stage tbl stage = elim (lib.fields stage) [
    | [] ↦ ok tbl
    | word ∷ words ↦ apply_operator tbl word (word ∷ words) (lib.trim (drop (length word) stage))
  ]

  unfoldable pub apply_stages :
      ResultTable lib.floats.Float → List Bytes → Result KqlError (ResultTable lib.floats.Float)
  unfolding apply_stage
  apply_stages tbl [] = ok tbl
  apply_stages tbl (stage ∷ stages) = elim (apply_stage tbl stage) [
    | err e ↦ err e
    | ok next ↦ apply_stages next stages
  ]

  unfoldable pub eval_kql :
      Tables lib.floats.Float → Bytes → Result KqlError (ResultTable lib.floats.Float)
  unfolding split_pipeline apply_stages rows_of
  eval_kql tables query =
      let (first, stages) = split_pipeline query in
      elim (lib.trim first) [
        | [] ↦ err missing_table
        | c ∷ name ↦ elim (rows_of (c ∷ name) tables) [
          | none ↦ err (unknown_table (c ∷ name))
          | some rows ↦ apply_stages (record { columns = []; rows = rows }) stages
        ]
      ]
