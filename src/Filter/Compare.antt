-- ===== src/Filter/Compare.antt =====
-- internal/servers/tableserver/odata.go and filter_parser.go: the comparison of a property with a
-- literal. `Floats` stands for float64 and strconv.ParseFloat.
use localaz.Common.{
  Bytes, codes, Bool, false, not, ◌&&◌, ◌||◌, Option, none, some, bytes_eq, bytes_lt, if◌then◌else◌,
}
use localaz.Common.Dict.{Dict, lookup}
use localaz.Filter.Lexer.{Token, ident, text, number, boolean, op, and, or, lparen, rparen}

-- the comparisons are Go's `==`, `<` and `<=`; `a > b` is `b < a`
pub record Floats : Type 1 where
  pub Float : Type 0
  pub parse_float : Bytes → Option Float
  pub float_eq : Float → Float → Bool
  pub float_lt : Float → Float → Bool
  pub float_le : Float → Float → Bool

-- What `json.Unmarshal` gives for an `any`; `json_number` is the json.Number of `toNumber`, `other` is
-- null, an array or an object.
pub data Value (F : Type 0) : Type 0 where
  float : F → Value F
  json_number : Bytes → Value F
  string : Bytes → Value F
  bool : Bool → Value F
  other : Value F

abbrev pub Props : Type 0
Props = Dict Bytes

abbrev pub FilterFunc : Type 0
FilterFunc = Props → Bool

unfoldable pub string_op : Bytes → Bytes → Bytes → Bool
string_op o a b =
    if bytes_eq o (codes "eq")
    then bytes_eq a b
    else if bytes_eq o (codes "ne")
    then not (bytes_eq a b)
    else if bytes_eq o (codes "gt")
    then bytes_lt b a
    else if bytes_eq o (codes "ge")
    then not (bytes_lt a b)
    else if bytes_eq o (codes "lt")
    then bytes_lt a b
    else if bytes_eq o (codes "le")
    then not (bytes_lt b a)
    else false

unfoldable pub bool_op : Bytes → Bool → Bool → Bool
bool_op o a b =
    if bytes_eq o (codes "eq")
    then (a && b) || (not a && not b)
    else if bytes_eq o (codes "ne")
    then (a && not b) || (not a && b)
    else false

-- `unmarshal` stands for json.Unmarshal into an `any`.
module _ (floats : Floats) where
  unfoldable pub numeric_op : Bytes → floats.Float → floats.Float → Bool
  numeric_op o a b =
      if bytes_eq o (codes "eq")
      then floats.float_eq a b
      else if bytes_eq o (codes "ne")
      then not (floats.float_eq a b)
      else if bytes_eq o (codes "gt")
      then floats.float_lt b a
      else if bytes_eq o (codes "ge")
      then floats.float_le b a
      else if bytes_eq o (codes "lt")
      then floats.float_lt a b
      else if bytes_eq o (codes "le")
      then floats.float_le a b
      else false

  unfoldable pub to_number : Value floats.Float → Option floats.Float
  to_number (float f) = some f
  to_number (json_number s) = floats.parse_float s
  to_number (string s) = none
  to_number (bool b) = none
  to_number other = none

  -- the branches of `compare` after the numbers
  unfoldable pub compare_rest : Bytes → Value floats.Float → Value floats.Float → Bool
  unfolding string_op bool_op
  compare_rest o (string a) (string b) = string_op o a b
  compare_rest o (bool a) (bool b) = bool_op o a b
  compare_rest o _ _ = false

  unfoldable pub compare : Bytes → Value floats.Float → Value floats.Float → Bool
  unfolding numeric_op to_number compare_rest
  compare o left right = elim (to_number left) [
    | none ↦ compare_rest o left right
    | some a ↦ elim (to_number right) [
      | none ↦ compare_rest o left right
      | some b ↦ numeric_op o a b
    ]
  ]

  -- the literal of `comparison`, by the kind of the token
  unfoldable pub literal : Token → Option (Value floats.Float)
  literal (text s) = some (string s)
  literal (number s) = elim (floats.parse_float s) [ none ↦ none | some f ↦ some (float f) ]
  literal (boolean s) = some (bool (bytes_eq s (codes "true")))
  literal (ident s) = none
  literal (op s) = none
  literal and = none
  literal or = none
  literal lparen = none
  literal rparen = none

  module _ (unmarshal : Bytes → Option (Value floats.Float)) where
    unfoldable pub prop_value : Props → Bytes → Option (Value floats.Float)
    unfolding lookup
    prop_value props key = elim (lookup key props) [ none ↦ none | some raw ↦ unmarshal raw ]

    -- the function that `comparison` returns
    unfoldable pub matches : Bytes → Bytes → Value floats.Float → FilterFunc
    unfolding prop_value compare
    matches field o lit props = elim (prop_value props field) [
      | none ↦ false
      | some actual ↦ compare o actual lit
    ]

    unfoldable pub comparison : Bytes → Bytes → Token → Option FilterFunc
    unfolding literal matches
    comparison field o t = elim (literal t) [
      | none ↦ none
      | some lit ↦ some (λ props. matches field o lit props)
    ]
