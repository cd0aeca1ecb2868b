-- ===== src/Monitor/Queries.antt =====
-- internal/servers/monitorserver/kql.go: what `sort by` gives.
use localaz.Common.{
  Bytes, codes, Bool, true, false, not, ◌&&◌, List, [], ◌∷◌, bytes_eq, bytes_lt, bytes_eq_iff,
  bytes_lt_irrefl, bytes_lt_trans, bytes_lt_connected, bytes_lt_asym, ok, if◌then◌else◌, ◌≡◌, refl,
  sym, ◌∙◌, arith, All,
}
use mathlib.Core.List.{Permᴰ}
use localaz.Common.Strings.{trim_suffix_byte}
use localaz.Common.Stable.{
  sort_stable, sort_stable_perm, IsOrdered, sort_stable-IsOrdered, All-sort_stable,
}
use localaz.Monitor.Values.{
  Value, string, Row, at, Library, string_order, compare_values, text_order, to_float,
}
use localaz.Monitor.Kql.{ResultTable, is_less, is_equal, row_less, direction, apply_sort}

unfoldable pub text_less : Bool → Bytes → Bytes → Bool
text_less desc a b = if desc then bytes_lt b a else bytes_lt a b

text_less-asym :
    (desc : Bool) (a b : Bytes) → text_less desc a b ≡ true → text_less desc b a ≡ false
unfolding text_less
text_less-asym true a b h = bytes_lt_asym b a h
text_less-asym false a b h = bytes_lt_asym a b h

bytes_lt-neg_trans :
    (a b c : Bytes) → bytes_lt b a ≡ false → bytes_lt c b ≡ false → bytes_lt c a ≡ false
bytes_lt-neg_trans a b c h k = ground (
  arith,
  bytes_lt_connected a b,
  bytes_lt_connected b c,
  bytes_lt_trans a b c,
  bytes_lt_asym a c,
  bytes_lt_irrefl a,
)

text_less-neg_trans :
    (desc : Bool) (a b c : Bytes)
    → text_less desc b a ≡ false
    → text_less desc c b ≡ false
    → text_less desc c a ≡ false
unfolding text_less
text_less-neg_trans true a b c h k = bytes_lt-neg_trans c b a k h
text_less-neg_trans false a b c h k = bytes_lt-neg_trans a b c h k

order-text :
    (desc : Bool) (a b : Bytes)
    → (if desc
        then not (is_less (string_order a b)) && not (is_equal (string_order a b))
        else is_less (string_order a b))
      ≡ text_less desc a b
unfolding string_order text_less
order-text true a b =
    ground (arith, bytes_eq_iff a b, bytes_lt_connected a b, bytes_lt_asym a b, bytes_lt_irrefl a)
order-text false a b = ground arith

-- the column of the row is a text
abbrev pub HasText : {F : Type 0} → Bytes → Row F → Type 0
HasText col row = (s : Bytes) × (at row col ≡ string s)

-- the order of two texts
unfoldable pub value_less : {F : Type 0} → Bool → Value F → Value F → Bool
unfolding text_less
value_less desc (string a) (string b) = text_less desc a b
value_less desc _ _ = false

module _ (lib : Library) (col : Bytes) (desc : Bool) where
  -- rows in the order of a column of texts
  abbrev pub column_less : Row lib.floats.Float → Row lib.floats.Float → Bool
  column_less a b = value_less desc (at a col) (at b col)

  row_less-text :
      (a b : Row lib.floats.Float)
      → HasText col a
      → HasText col b
      → row_less lib col desc a b ≡ column_less a b
  unfolding row_less compare_values text_order to_float value_less
  row_less-text a b (s, h) (t, k) = rw (row_less, h, k) (order-text desc s t)

  column_less-asym :
      (a b : Row lib.floats.Float)
      → HasText col a
      → HasText col b
      → column_less a b ≡ true
      → column_less b a ≡ false
  unfolding value_less
  column_less-asym a b (s, h) (t, k) l = rw (k, h) (text_less-asym desc s t (rw (h, k) at l))

  column_less-neg_trans :
      (a b c : Row lib.floats.Float)
      → HasText col a
      → HasText col b
      → HasText col c
      → column_less b a ≡ false
      → column_less c b ≡ false
      → column_less c a ≡ false
  unfolding value_less
  column_less-neg_trans a b c (s, h) (t, k) (u, i) l m =
      rw (i, h) (text_less-neg_trans desc s t u (rw (k, h) at l) (rw (i, k) at m))

  -- the order that the sort uses is the order of the texts
  All-text :
      (x : Row lib.floats.Float) (xs : List (Row lib.floats.Float))
      → HasText col x
      → All (HasText col) xs
      → All (λ y. row_less lib col desc y x ≡ false) xs
      → All (λ y. column_less y x ≡ false) xs
  All-text x [] p q h = tt
  All-text x (y ∷ ys) p (q, qs) (h, hs) = (sym (row_less-text y x q p) ∙ h, All-text x ys p qs hs)

  IsOrdered-text :
      (xs : List (Row lib.floats.Float))
      → All (HasText col) xs
      → IsOrdered (row_less lib col desc) xs
      → IsOrdered column_less xs
  IsOrdered-text [] q h = tt
  IsOrdered-text (x ∷ xs) (p, q) (h, hs) = (All-text x xs p q h, IsOrdered-text xs q hs)

  sort-text :
      (xs : List (Row lib.floats.Float))
      → All (HasText col) xs
      → IsOrdered column_less (sort_stable (row_less lib col desc) xs)
  sort-text xs q =
      let less = row_less lib col desc in
      IsOrdered-text (sort_stable less xs) (All-sort_stable less (HasText col) asym neg_trans xs q)
        (sort_stable-IsOrdered less (HasText col) asym neg_trans xs q)
    where
      asym :
          (a b : Row lib.floats.Float)
          → HasText col a
          → HasText col b
          → row_less lib col desc a b ≡ true
          → row_less lib col desc b a ≡ false
      asym a b p q l =
          row_less-text b a q p ∙ column_less-asym a b p q (sym (row_less-text a b p q) ∙ l)

      neg_trans :
          (a b c : Row lib.floats.Float)
          → HasText col a
          → HasText col b
          → HasText col c
          → row_less lib col desc b a ≡ false
          → row_less lib col desc c b ≡ false
          → row_less lib col desc c a ≡ false
      neg_trans a b c p q r l m =
          row_less-text c a r p
          ∙ column_less-neg_trans a b c p q r (sym (row_less-text b a q p) ∙ l)
              (sym (row_less-text c b r q) ∙ m)

module _ (lib : Library) where
  -- What the words after the column ask for: descending, which no word asks for too, or ascending.
  abbrev pub AsksFor : List Bytes → Bool → Type 0
  AsksFor [] true = Unit
  AsksFor [] false = ⊥
  AsksFor (word ∷ words) true = lib.lower word ≡ codes "desc"
  AsksFor (word ∷ words) false = lib.lower word ≡ codes "asc"

  direction-AsksFor :
      (words : List Bytes) (desc : Bool) → AsksFor words desc → direction lib words ≡ ok desc
  unfolding direction bytes_eq
  direction-AsksFor [] true h = refl
  direction-AsksFor [] false h = absurd h
  direction-AsksFor (word ∷ words) true h = rw h refl
  direction-AsksFor (word ∷ words) false h = rw h refl

  -- A `sort by` of a column that holds a text in every row succeeds, if the word after the column is
  -- missing, asc or desc: the rows are the same ones, in the order of the texts, descending unless asc
  -- is asked for.
  pub apply_sort-IsOrdered :
      (tbl : ResultTable lib.floats.Float) (word by col : Bytes) (words : List Bytes) (desc : Bool)
      → bytes_eq (lib.lower by) (codes "by") ≡ true
      → AsksFor words desc
      → All (HasText (trim_suffix_byte 44 col)) tbl.rows
      → (after : ResultTable lib.floats.Float) × (apply_sort lib tbl (word ∷ by ∷ col ∷ words)
          ≡ ok after)
        × Permᴰ after.rows tbl.rows
        × IsOrdered (column_less lib (trim_suffix_byte 44 col) desc) after.rows
  unfolding apply_sort
  apply_sort-IsOrdered tbl word by col words desc is_by asked texts =
      let less = row_less lib (trim_suffix_byte 44 col) desc in
      (
        record tbl { rows = sort_stable less tbl.rows },
        rw (is_by, direction-AsksFor words desc asked) refl,
        sort_stable_perm less tbl.rows,
        sort-text lib (trim_suffix_byte 44 col) desc tbl.rows texts,
      )
