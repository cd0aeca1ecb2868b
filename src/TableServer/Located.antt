-- ===== src/TableServer/Located.antt =====
-- internal/servers/tableserver: the keys that `parseEntityKeys` reads from the location of an entity.
use localaz.Common.{
  Bytes, codes, ℕ, some, Bool, true, false, ◌&&◌, [], ◌∷◌, ◌++◌, ◌==◌, ◌≤◌, bytes_eq, ◌≡◌, refl, ap,
  ◌∙◌, arith, Bool-cases, inl, inr, append_assoc, append-nil,
}
use localaz.Common.Strings.{
  Without, cut_byte, cut_byte-append, trim_prefix_byte, trim_suffix_byte-append,
}
use localaz.Filter.Tokens.{escape}
use localaz.TableServer.Keys.{
  split_predicate, undouble, escape_key, last_part, split_from, split_top_level, unquote_key,
  read_part, read_parts, parse_entity_keys, key_predicate, entity_segment,
}

undouble-escape : (s : Bytes) → undouble false (escape s) ≡ s
unfolding undouble
undouble-escape [] = refl
undouble-escape (c ∷ s) = elim (Bool-cases (c == 39)) [
  | inl quote ↦
      let same : c ≡ 39 = ground arith in rw (quote, same) (ap (◌∷◌ 39) (undouble-escape s))
  | inr other ↦ rw (other, other) (ap (◌∷◌ c) (undouble-escape s))
]

and_false : (b : Bool) → (b && false) ≡ false
and_false true = refl
and_false false = refl

-- an escaped text between quotes is one part, whatever it holds
split_from-escape :
    (sep : ℕ) (cur s t : Bytes)
    → split_from sep true cur (escape s ++ t) ≡ split_from sep true (cur ++ escape s) t
unfolding split_from
split_from-escape sep cur [] t = rw (append-nil cur) refl
split_from-escape sep cur (c ∷ s) t = elim (Bool-cases (c == 39)) [
  | inl quote ↦ rw quote (
      split_from-escape sep ((cur ++ 39 ∷ []) ++ 39 ∷ []) s t
      ∙ ap (λ x. split_from sep true x t)
          (append_assoc (cur ++ 39 ∷ []) (39 ∷ []) (escape s)
            ∙ append_assoc cur (39 ∷ []) (39 ∷ escape s)))
  | inr other ↦
      rw (split_from, other, other, and_false (c == sep))
        (split_from-escape sep (cur ++ c ∷ []) s t
          ∙ ap (λ x. split_from sep true x t) (append_assoc cur (c ∷ []) (escape s)))
]

-- strings.TrimSpace keeps a text that begins and ends with a visible ASCII character
abbrev pub IsVisible : ℕ → Type 0
IsVisible c = (33 ≤ c) × (c ≤ 126)

abbrev pub KeepsVisible : (Bytes → Bytes) → Type 0
KeepsVisible trim =
    (c d : ℕ) (s : Bytes) → IsVisible c → IsVisible d → trim (c ∷ s ++ d ∷ []) ≡ c ∷ s ++ d ∷ []

-- strings.ToLower on the two names
abbrev pub LowersNames : (Bytes → Bytes) → Type 0
LowersNames lower =
    (lower (codes "PartitionKey") ≡ codes "partitionkey")
    × (lower (codes "RowKey") ≡ codes "rowkey")

-- a name, and a key in quotes
abbrev key_part : Bytes → Bytes → Bytes
key_part name s = name ++ 61 ∷ 39 ∷ escape s ++ 39 ∷ []

split_top_level-key_predicate :
    (pk rk : Bytes)
    → split_top_level (key_predicate pk rk) 44
      ≡ key_part (codes "PartitionKey") pk ∷ key_part (codes "RowKey") rk ∷ []
unfolding split_top_level split_from last_part key_predicate escape_key
split_top_level-key_predicate pk rk =
    split_from-escape 44 (codes "PartitionKey='") pk
      (39 ∷ 44 ∷ (codes "RowKey='" ++ (escape rk ++ 39 ∷ [])))
    ∙ ap (◌∷◌ (key_part (codes "PartitionKey") pk))
        (split_from-escape 44 (codes "RowKey='") rk (39 ∷ []))

module _ (trim lower : Bytes → Bytes) (keeps : KeepsVisible trim) (lowers : LowersNames lower) where
  unquote_key-escape : (s : Bytes) → unquote_key trim (39 ∷ escape s ++ 39 ∷ []) ≡ s
  unfolding unquote_key trim_prefix_byte
  unquote_key-escape s =
      rw
        (
          keeps 39 39 (escape s) (omega arith, omega arith) (omega arith, omega arith),
          trim_suffix_byte-append 39 (escape s) refl,
        )
        (undouble-escape s)

  read_part-pk :
      (pk rk s : Bytes)
      → read_part trim lower (pk, rk) (key_part (codes "PartitionKey") s) ≡ (s, rk)
  unfolding read_part cut_byte bytes_eq
  read_part-pk pk rk s =
      rw
        (
          keeps 80 121 (codes "artitionKe") (omega arith, omega arith) (omega arith, omega arith),
          lowers.0,
          unquote_key-escape s,
        )
        refl

  read_part-rk :
      (pk rk s : Bytes) → read_part trim lower (pk, rk) (key_part (codes "RowKey") s) ≡ (pk, s)
  unfolding read_part cut_byte bytes_eq
  read_part-rk pk rk s =
      rw
        (
          keeps 82 121 (codes "owKe") (omega arith, omega arith) (omega arith, omega arith),
          lowers.1,
          unquote_key-escape s,
        )
        refl

  -- The location of an entity names its table and its keys, whatever quotes, commas and brackets the
  -- keys hold: if the table's name has no opening parenthesis, the segment is split into the name and
  -- a predicate, and the predicate is read back as the two keys.
  pub parse_entity_keys-entity_segment :
      (table pk rk : Bytes)
      → Without 40 table
      → (split_predicate (entity_segment table pk rk) ≡ (table, key_predicate pk rk))
        × (parse_entity_keys trim lower (key_predicate pk rk) ≡ (pk, rk))
  unfolding split_predicate entity_segment parse_entity_keys read_parts
  parse_entity_keys-entity_segment table pk rk h =
      let found : cut_byte 40 (entity_segment table pk rk)
          ≡ some (table, key_predicate pk rk ++ 41 ∷ []) =
        cut_byte-append 40 table (key_predicate pk rk ++ 41 ∷ []) h refl in
      (
        rw (split_predicate, found)
            (ap (λ x. (table, x)) (trim_suffix_byte-append 41 (key_predicate pk rk) refl)),
        rw (split_top_level-key_predicate pk rk, read_part-pk [] [] pk, read_part-rk pk [] rk) refl,
      )
