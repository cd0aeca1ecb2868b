-- ===== src/Monitor/Values.antt =====
-- internal/servers/monitorserver/literal.go: values, literals and their order. A row's values are what
-- `json.Unmarshal` gives, and the number of rows that `count` makes.
use localaz.Common.{
  Bytes, codes, ℕ, Bool, true, false, ◌&&◌, ◌||◌, List, [], ◌∷◌, Option, none, some, bytes_eq,
  bytes_lt, ◌==◌, Result, ok, err, if◌then◌else◌,
}
use localaz.Common.Int.{ℤ}
use localaz.Common.Dict.{Dict, lookup}
use localaz.Filter.Compare.{Floats}

-- `integer` is the int of `toFloat`, `object` an array or an object.
pub data Value (F : Type 0) : Type 0 where
  null object : Value F
  float : F → Value F
  integer : ℤ → Value F
  string : Bytes → Value F
  bool : Bool → Value F

abbrev pub Row : Type 0 → Type 0
Row F = Dict (Value F)

-- `row[name]`, which is nil where the name is missing
unfoldable pub at : {F : Type 0} → Row F → Bytes → Value F
at row name = elim (lookup name row) [ none ↦ null | some v ↦ v ]

-- What the queries use of Go's libraries: float64, with `is_integral f` for `f == float64(int64(f))`,
-- and packages strings, strconv and time.
pub record Library : Type 1 where
  pub floats : Floats
  pub of_int : ℤ → floats.Float
  pub is_integral : floats.Float → Bool
  pub trim : Bytes → Bytes
  pub fields : Bytes → List Bytes
  pub lower : Bytes → Bytes
  pub equal_fold : Bytes → Bytes → Bool
  pub atoi : Bytes → Option ℤ
  pub is_rfc3339 : Bytes → Bool

pub data Literal (F : Type 0) : Type 0 where
  text : Bytes → Literal F
  number : F → Literal F
  truth : Bool → Literal F

-- The errors of a query, with what their texts quote.
pub data KqlError : Type 0 where
  empty_query missing_table empty_where no_columns bad_take bad_sort bad_direction : KqlError
  unknown_table unsupported_operator malformed no_operator bad_literal bool_operator :
      Bytes → KqlError

-- strings.Compare and `compareValues`: -1, 0 or 1
pub data Order : Type 0 where
  less equal greater : Order

unfoldable pub string_order : Bytes → Bytes → Order
string_order a b = if bytes_lt a b then less else if bytes_eq a b then equal else greater

-- the last byte
unfoldable pub ends_with : ℕ → Bytes → Bool
ends_with q [] = false
ends_with q (c ∷ []) = c == q
ends_with q (c ∷ d ∷ s) = ends_with q (d ∷ s)

-- all but the last byte
unfoldable pub but_last : Bytes → Bytes
but_last [] = []
but_last (c ∷ []) = []
but_last (c ∷ d ∷ s) = c ∷ but_last (d ∷ s)

-- the text between quotes, if the text is quoted
unfoldable pub unquoted : Bytes → Option Bytes
unfolding ends_with but_last
unquoted [] = none
unquoted (q ∷ []) = none
unquoted (q ∷ c ∷ s) =
    if (q == 39 || q == 34) && ends_with q (c ∷ s) then some (but_last (c ∷ s)) else none

module _ (lib : Library) where
  unfoldable pub parse_literal : Bytes → Result KqlError (Literal lib.floats.Float)
  unfolding unquoted
  parse_literal s = elim (unquoted s) [
    | some str ↦ ok (text str)
    | none ↦
        let w = lib.lower s in
        if bytes_eq w (codes "true")
        then ok (truth true)
        else if bytes_eq w (codes "false")
        then ok (truth false)
        else elim (lib.floats.parse_float s) [ none ↦ err (bad_literal s) | some f ↦ ok (number f) ]
  ]

  unfoldable pub to_float : Value lib.floats.Float → Option lib.floats.Float
  to_float null = none
  to_float object = none
  to_float (float f) = some f
  to_float (integer n) = some (lib.of_int n)
  to_float (string s) = none
  to_float (bool b) = none

  unfoldable pub float_order : lib.floats.Float → lib.floats.Float → Order
  float_order a b =
      if lib.floats.float_lt a b then less else if lib.floats.float_lt b a then greater else equal

  -- the strings of `compareValues`
  unfoldable pub text_order : Value lib.floats.Float → Value lib.floats.Float → Order
  unfolding string_order
  text_order (string a) (string b) = string_order a b
  text_order _ _ = equal

  unfoldable pub compare_values : Value lib.floats.Float → Value lib.floats.Float → Order
  unfolding to_float float_order text_order
  compare_values a b = elim (to_float a) [
    | none ↦ text_order a b
    | some x ↦ elim (to_float b) [ none ↦ text_order a b | some y ↦ float_order x y ]
  ]
