-- ===== src/Monitor/Predicate.antt =====
-- internal/servers/monitorserver: predicate.go and comparison.go.
use localaz.Common.{
  Bytes, codes, ℕ, Bool, true, false, not, ◌&&◌, ◌||◌, List, [], ◌∷◌, ◌++◌, Option, none, some,
  bytes_eq, bytes_lt, has_prefix, length, drop, ◌==◌, Result, ok, err, if◌then◌else◌,
}
use localaz.Monitor.Values.{
  Value, string, bool, Row, at, Library, Literal, text, number, truth, KqlError, empty_where,
  malformed, no_operator, bool_operator, parse_literal, to_float,
}

pub record Comparison (F : Type 0) : Type 0 where
  pub column : Bytes
  pub op : Bytes
  pub lit : Literal F

-- the quote that is open after a byte, outside or inside quotes
unfoldable pub next_quote : Option ℕ → ℕ → Option ℕ
next_quote none c = if c == 39 || c == 34 then some c else none
next_quote (some q) c = if c == q then none else some q

-- `indexOperator`, as the text before the operator and the text after it
unfoldable pub cut_operator : Bytes → Option ℕ → Bytes → Option (Bytes × Bytes)
unfolding next_quote
cut_operator op quote [] = none
cut_operator op quote (c ∷ s) =
    let rest = cut_operator op (next_quote quote c) s in
    elim quote [
      | none ↦
          if not (c == 39 || c == 34) && has_prefix (c ∷ s) op
          then some ([], drop (length op) (c ∷ s))
          else elim rest [ none ↦ none | some (before, after) ↦ some (c ∷ before, after) ]
      | some q ↦ elim rest [ none ↦ none | some (before, after) ↦ some (c ∷ before, after) ]
    ]

abbrev pub operators : List Bytes
operators = codes "==" ∷ codes "!=" ∷ codes "<=" ∷ codes ">=" ∷ codes "<" ∷ codes ">" ∷ []

unfoldable pub string_result : Bytes → Bytes → Bytes → Bool
string_result a o b =
    if bytes_eq o (codes "==")
    then bytes_eq a b
    else if bytes_eq o (codes "!=")
    then not (bytes_eq a b)
    else if bytes_eq o (codes "<")
    then bytes_lt a b
    else if bytes_eq o (codes "<=")
    then not (bytes_lt b a)
    else if bytes_eq o (codes ">")
    then bytes_lt b a
    else if bytes_eq o (codes ">=")
    then not (bytes_lt a b)
    else false

abbrev pub same_truth : Bool → Bool → Bool
same_truth true b = b
same_truth false b = not b

unfoldable pub bool_result : Bool → Bytes → Bool → Result KqlError Bool
bool_result a o b =
    if bytes_eq o (codes "==")
    then ok (same_truth a b)
    else if bytes_eq o (codes "!=")
    then ok (not (same_truth a b))
    else err (bool_operator o)

-- how `splitKeyword` adds a token to the buffer
unfoldable pub joined : Bytes → Bytes → Bytes
joined [] tok = tok
joined (b ∷ buf) tok = (b ∷ buf) ++ 32 ∷ tok

-- the quote that is open after a token
unfoldable pub scan_quotes : Option ℕ → Bytes → Option ℕ
unfolding next_quote
scan_quotes quote [] = quote
scan_quotes quote (c ∷ tok) = scan_quotes (next_quote quote c) tok

module _ (lib : Library) where
  unfoldable pub numeric_result : lib.floats.Float → Bytes → lib.floats.Float → Bool
  numeric_result a o b =
      if bytes_eq o (codes "==")
      then lib.floats.float_eq a b
      else if bytes_eq o (codes "!=")
      then not (lib.floats.float_eq a b)
      else if bytes_eq o (codes "<")
      then lib.floats.float_lt a b
      else if bytes_eq o (codes "<=")
      then lib.floats.float_le a b
      else if bytes_eq o (codes ">")
      then lib.floats.float_lt b a
      else if bytes_eq o (codes ">=")
      then lib.floats.float_le b a
      else false

  -- the part of `parseComparison` after an operator is found
  unfoldable pub comparison_of :
      Bytes → Bytes → Bytes → Bytes → Result KqlError (Comparison lib.floats.Float)
  unfolding parse_literal
  comparison_of s o [] rhs = err (malformed s)
  comparison_of s o (c ∷ col) [] = err (malformed s)
  comparison_of s o (c ∷ col) (d ∷ rhs) = elim (parse_literal lib (d ∷ rhs)) [
    | err e ↦ err e
    | ok lit ↦ ok (record { column = c ∷ col; op = o; lit = lit })
  ]

  -- the loop of `parseComparison` over the operators
  unfoldable pub find_comparison :
      List Bytes → Bytes → Result KqlError (Comparison lib.floats.Float)
  unfolding cut_operator comparison_of
  find_comparison [] s = err (no_operator s)
  find_comparison (o ∷ ops) s = elim (cut_operator o none s) [
    | none ↦ find_comparison ops s
    | some (before, after) ↦ comparison_of s o (lib.trim before) (lib.trim after)
  ]

  unfoldable pub parse_comparison : Bytes → Result KqlError (Comparison lib.floats.Float)
  unfolding find_comparison
  parse_comparison s = find_comparison operators (lib.trim s)

  -- `comparison.eval`, by the kind of the literal
  unfoldable pub eval_literal :
      Literal lib.floats.Float → Bytes → Value lib.floats.Float → Result KqlError Bool
  unfolding bool_result numeric_result string_result to_float
  eval_literal (truth b) o (bool a) = bool_result a o b
  eval_literal (truth b) o _ = ok false
  eval_literal (number n) o v = elim (to_float lib v) [
    | none ↦ ok false
    | some f ↦ ok (numeric_result f o n)
  ]
  eval_literal (text t) o (string s) = ok (string_result s o t)
  eval_literal (text t) o _ = ok false

  unfoldable pub eval_comparison :
      Comparison lib.floats.Float → Row lib.floats.Float → Result KqlError Bool
  unfolding eval_literal at
  eval_comparison c row = eval_literal c.lit c.op (at row c.column)

  -- The loop of `splitKeyword` over the tokens.
  unfoldable pub split_tokens : Bytes → Option ℕ → Bytes → List Bytes → List Bytes
  unfolding joined scan_quotes
  split_tokens keyword quote buf [] = lib.trim buf ∷ []
  split_tokens keyword (some q) buf (tok ∷ toks) =
      split_tokens keyword (scan_quotes (some q) tok) (joined buf tok) toks
  split_tokens keyword none buf (tok ∷ toks) = elim (lib.equal_fold tok keyword) [
    | true ↦ lib.trim buf ∷ split_tokens keyword none [] toks
    | false ↦ split_tokens keyword (scan_quotes none tok) (joined buf tok) toks
  ]

  unfoldable pub split_keyword : Bytes → Bytes → List Bytes
  unfolding split_tokens
  split_keyword s keyword = split_tokens keyword none [] (lib.fields s)

  unfoldable pub parse_group : List Bytes → Result KqlError (List (Comparison lib.floats.Float))
  unfolding parse_comparison
  parse_group [] = ok []
  parse_group (part ∷ parts) = elim (parse_comparison part) [
    | err e ↦ err e
    | ok c ↦ elim (parse_group parts) [ err e ↦ err e | ok cs ↦ ok (c ∷ cs) ]
  ]

  unfoldable pub parse_groups :
      List Bytes → Result KqlError (List (List (Comparison lib.floats.Float)))
  unfolding parse_group split_keyword
  parse_groups [] = ok []
  parse_groups (part ∷ parts) = elim (parse_group (split_keyword part (codes "and"))) [
    | err e ↦ err e
    | ok g ↦ elim (parse_groups parts) [ err e ↦ err e | ok gs ↦ ok (g ∷ gs) ]
  ]

  unfoldable pub parse_predicate :
      Bytes → Result KqlError (List (List (Comparison lib.floats.Float)))
  unfolding parse_groups
  parse_predicate expr = elim (lib.trim expr) [
    | [] ↦ err empty_where
    | c ∷ s ↦ parse_groups (split_keyword (c ∷ s) (codes "or"))
  ]

  -- the inner loop of `predicate.eval`: all comparisons of a group hold
  unfoldable pub eval_group :
      List (Comparison lib.floats.Float) → Row lib.floats.Float → Result KqlError Bool
  unfolding eval_comparison
  eval_group [] row = ok true
  eval_group (c ∷ cs) row = elim (eval_comparison c row) [
    | err e ↦ err e
    | ok false ↦ ok false
    | ok true ↦ eval_group cs row
  ]

  unfoldable pub eval_predicate :
      List (List (Comparison lib.floats.Float)) → Row lib.floats.Float → Result KqlError Bool
  unfolding eval_group
  eval_predicate [] row = ok false
  eval_predicate (g ∷ gs) row = elim (eval_group g row) [
    | err e ↦ err e
    | ok true ↦ ok true
    | ok false ↦ eval_predicate gs row
  ]
