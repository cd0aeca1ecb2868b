-- ===== src/Monitor/Where.antt =====
-- internal/servers/monitorserver: what `where` keeps.
use localaz.Common.{
  Bytes, codes, Bool, true, false, ◌&&◌, ◌||◌, List, [], ◌∷◌, keep, bytes_eq, Result, ok, err, ◌≡◌,
  refl, ap, ◌∙◌, Bool-cases, Option-cases, inl, inr, All,
}
use localaz.Monitor.Values.{
  Value, bool, string, Row, at, Library, Literal, text, number, truth, KqlError, to_float,
}
use localaz.Monitor.Predicate.{
  Comparison, bool_result, eval_literal, eval_comparison, eval_group, eval_predicate,
  parse_predicate,
}
use localaz.Monitor.Kql.{ResultTable, where_rows, apply_where}

-- a literal of true or false is compared by == and != only
unfoldable pub is_supported : {F : Type 0} → Literal F → Bytes → Bool
is_supported (truth b) o = bytes_eq o (codes "==") || bytes_eq o (codes "!=")
is_supported (number n) o = true
is_supported (text t) o = true

-- a result as a test, where an error is no
abbrev pub is_ok_true : Result KqlError Bool → Bool
is_ok_true (ok b) = b
is_ok_true (err e) = false

module _ (lib : Library) where
  -- all comparisons of a group hold
  unfoldable pub all_hold : List (Comparison lib.floats.Float) → Row lib.floats.Float → Bool
  all_hold [] row = true
  all_hold (c ∷ cs) row = is_ok_true (eval_comparison lib c row) && all_hold cs row

  -- some group has only comparisons that hold
  unfoldable pub satisfies : List (List (Comparison lib.floats.Float)) → Row lib.floats.Float → Bool
  unfolding all_hold
  satisfies [] row = false
  satisfies (g ∷ gs) row = all_hold g row || satisfies gs row

  abbrev pub Supported : Comparison lib.floats.Float → Type 0
  Supported c = is_supported c.lit c.op ≡ true

  bool_result-ok :
      (a b : Bool) (o : Bytes)
      → (bytes_eq o (codes "==") || bytes_eq o (codes "!=")) ≡ true
      → bool_result a o b ≡ ok (is_ok_true (bool_result a o b))
  unfolding bool_result
  bool_result-ok a b o h = elim (Bool-cases (bytes_eq o (codes "=="))) [
    | inl e ↦ rw (bool_result, e) refl
    | inr n ↦ elim (Bool-cases (bytes_eq o (codes "!="))) [
      | inl e ↦ rw (bool_result, n, e) refl
      | inr m ↦ absurd (cc (rw (n, m) at h))
    ]
  ]

  eval_literal-ok :
      (l : Literal lib.floats.Float) (o : Bytes) (v : Value lib.floats.Float)
      → is_supported l o ≡ true
      → eval_literal lib l o v ≡ ok (is_ok_true (eval_literal lib l o v))
  unfolding eval_literal is_supported
  eval_literal-ok (truth b) o (bool a) h = bool_result-ok a b o h
  eval_literal-ok (truth b) o _ h = refl
  eval_literal-ok (number n) o v h = elim (Option-cases (to_float lib v)) [
    | inl e ↦ rw (eval_literal, e) refl
    | inr (f, e) ↦ rw (eval_literal, e) refl
  ]
  eval_literal-ok (text t) o (string s) h = refl
  eval_literal-ok (text t) o _ h = refl

  eval_comparison-ok :
      (c : Comparison lib.floats.Float) (row : Row lib.floats.Float)
      → Supported c
      → eval_comparison lib c row ≡ ok (is_ok_true (eval_comparison lib c row))
  unfolding eval_comparison
  eval_comparison-ok c row h = eval_literal-ok c.lit c.op (at row c.column) h

  eval_group-ok :
      (cs : List (Comparison lib.floats.Float)) (row : Row lib.floats.Float)
      → All Supported cs
      → eval_group lib cs row ≡ ok (all_hold cs row)
  unfolding eval_group all_hold
  eval_group-ok [] row h = refl
  eval_group-ok (c ∷ cs) row (h, hs) = elim (Bool-cases (is_ok_true (eval_comparison lib c row))) [
    | inl e ↦
        let found = eval_comparison-ok c row h ∙ ap ok e in
        rw (eval_group, found) (eval_group-ok cs row hs)
    | inr e ↦ let found = eval_comparison-ok c row h ∙ ap ok e in rw (eval_group, found) refl
  ]

  eval_predicate-ok :
      (gs : List (List (Comparison lib.floats.Float))) (row : Row lib.floats.Float)
      → All (All Supported) gs
      → eval_predicate lib gs row ≡ ok (satisfies gs row)
  unfolding eval_predicate satisfies
  eval_predicate-ok [] row h = refl
  eval_predicate-ok (g ∷ gs) row (h, hs) = elim (Bool-cases (all_hold g row)) [
    | inl e ↦ rw (eval_predicate, eval_group-ok g row h, e) refl
    | inr e ↦ rw (eval_predicate, eval_group-ok g row h, e) (eval_predicate-ok gs row hs)
  ]

  where_rows-keep :
      (gs : List (List (Comparison lib.floats.Float))) (rows : List (Row lib.floats.Float))
      → All (All Supported) gs
      → where_rows lib gs rows ≡ ok (keep (satisfies gs) rows)
  unfolding where_rows
  where_rows-keep gs [] h = refl
  where_rows-keep gs (r ∷ rows) h =
      rw (where_rows, eval_predicate-ok gs r h, where_rows-keep gs rows h) refl

  -- A `where` whose expression parses, and compares true and false by == and != only, keeps the rows
  -- that satisfy all comparisons of some group, in order, and no others.
  pub apply_where-keep :
      (tbl : ResultTable lib.floats.Float) (expr : Bytes)
      (gs : List (List (Comparison lib.floats.Float)))
      → parse_predicate lib expr ≡ ok gs
      → All (All Supported) gs
      → apply_where lib tbl expr ≡ ok (record tbl { rows = keep (satisfies gs) tbl.rows })
  unfolding apply_where
  apply_where-keep tbl expr gs h k = rw (apply_where, h, where_rows-keep gs tbl.rows k) refl
