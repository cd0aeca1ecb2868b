-- ===== src/TableServer/Keys.antt =====
-- internal/servers/tableserver/odata.go: the keys of an entity in a URL. `entity_segment` is the last
-- part of the location in tables.go.
use localaz.Common.{
  Bytes, codes, ℕ, Bool, true, false, not, ◌&&◌, List, [], ◌∷◌, ◌++◌, none, some, ◌==◌, bytes_eq,
  if◌then◌else◌,
}
use localaz.Common.Strings.{cut_byte, trim_prefix_byte, trim_suffix_byte}
use localaz.Filter.Tokens.{escape}

unfoldable pub split_predicate : Bytes → Bytes × Bytes
split_predicate seg = elim (cut_byte 40 seg) [
  | none ↦ (seg, [])
  | some (name, rest) ↦ (name, trim_suffix_byte 41 rest)
]

unfoldable pub inside_parens : Bytes → Bytes
inside_parens seg = elim (cut_byte 40 seg) [
  | none ↦ []
  | some (name, rest) ↦ trim_suffix_byte 41 rest
]

-- `strings.ReplaceAll(s, "''", "'")`, from the left: two quotes make one. `pending` says that the
-- byte before was a quote that waits for a second one.
unfoldable pub undouble : Bool → Bytes → Bytes
undouble pending [] = if pending then 39 ∷ [] else []
undouble pending (c ∷ s) =
    let rest = undouble (not pending && c == 39) s in
    if pending
    then (if c == 39 then 39 ∷ rest else 39 ∷ c ∷ rest)
    else if c == 39
    then rest
    else c ∷ rest

unfoldable pub escape_key : Bytes → Bytes
escape_key s = escape s

-- the last part, unless it is empty
unfoldable pub last_part : Bytes → List Bytes
last_part [] = []
last_part (b ∷ cur) = (b ∷ cur) ∷ []

-- The loop of `splitTopLevel`: whether a quote is open, the part so far, and what remains.
unfoldable pub split_from : ℕ → Bool → Bytes → Bytes → List Bytes
unfolding last_part
split_from sep in_quote cur [] = last_part cur
split_from sep in_quote cur (c ∷ s) = elim (c == 39) [
  | true ↦ split_from sep (not in_quote) (cur ++ c ∷ []) s
  | false ↦ elim (c == sep && not in_quote) [
    | true ↦ cur ∷ split_from sep in_quote [] s
    | false ↦ split_from sep in_quote (cur ++ c ∷ []) s
  ]
]

unfoldable pub split_top_level : Bytes → ℕ → List Bytes
unfolding split_from
split_top_level s sep = split_from sep false [] s

-- `trim` stands for strings.TrimSpace, and `lower` for strings.ToLower.
module _ (trim : Bytes → Bytes) where
  unfoldable pub unquote_key : Bytes → Bytes
  unfolding undouble
  unquote_key s = undouble false (trim_suffix_byte 39 (trim_prefix_byte 39 (trim s)))

  module _ (lower : Bytes → Bytes) where
    -- a turn of the loop of `parseEntityKeys`
    unfoldable pub read_part : Bytes × Bytes → Bytes → Bytes × Bytes
    unfolding unquote_key
    read_part (pk, rk) part = elim (cut_byte 61 part) [
      | none ↦ (pk, rk)
      | some (name, quoted) ↦
          let key = lower (trim name) in
          let val = unquote_key quoted in
          if bytes_eq key (codes "partitionkey")
          then (val, rk)
          else if bytes_eq key (codes "rowkey")
          then (pk, val)
          else (pk, rk)
    ]

    unfoldable pub read_parts : Bytes × Bytes → List Bytes → Bytes × Bytes
    unfolding read_part
    read_parts keys [] = keys
    read_parts keys (part ∷ parts) = read_parts (read_part keys part) parts

    unfoldable pub parse_entity_keys : Bytes → Bytes × Bytes
    unfolding read_parts split_top_level
    parse_entity_keys predicate = read_parts ([], []) (split_top_level predicate 44)

-- the text between the parentheses of `entityLocation`
unfoldable pub key_predicate : Bytes → Bytes → Bytes
unfolding escape_key
key_predicate pk rk =
    codes "PartitionKey='"
    ++ (escape_key pk ++ (codes "',RowKey='" ++ (escape_key rk ++ codes "'")))

unfoldable pub entity_segment : Bytes → Bytes → Bytes → Bytes
unfolding key_predicate
entity_segment table pk rk = table ++ (codes "(" ++ (key_predicate pk rk ++ codes ")"))
