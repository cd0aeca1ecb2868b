-- ===== src/TableServer/Follow.antt =====
-- internal/servers/tableserver: the location of an inserted entity leads back to it.
use localaz.Common.{
  Bytes, codes, ℕ, true, false, [], List, ◌∷◌, ◌++◌, ◌==◌, bytes_eq, has_prefix, ◌≡◌, refl, sym, ap,
  ◌∙◌, arith, Bool-cases, inl, inr, bytes_eq_iff,
}
use localaz.Common.Strings.{
  Without, Without-append, Without-literal, Without-test, split, split-append, split-Without,
  trim_prefix_byte,
}
use localaz.Filter.Tokens.{escape}
use localaz.TableServer.Keys.{parse_entity_keys, key_predicate, entity_segment, escape_key}
use localaz.TableServer.Located.{KeepsVisible, LowersNames, parse_entity_keys-entity_segment}
use localaz.TableServer.Http.{Library}
use localaz.TableServer.Routes.{entity_item, route_entity, route_resource, route_segments, route}

Without-escape : (c : ℕ) (s : Bytes) → (39 == c) ≡ false → Without c s → Without c (escape s)
Without-escape c [] q h = tt
Without-escape c (b ∷ s) q (p, h) = elim (Bool-cases (b == 39)) [
  | inl quote ↦ rw quote (q, (q, Without-escape c s q h))
  | inr other ↦ rw other (p, Without-escape c s q h)
]

Without-entity_segment :
    (table pk rk : Bytes)
    → Without 47 table
    → Without 47 pk
    → Without 47 rk
    → Without 47 (entity_segment table pk rk)
unfolding entity_segment key_predicate escape_key
Without-entity_segment table pk rk h k l =
    let last : Without 47 (escape rk ++ codes "'") =
      Without-append 47 (escape rk) (codes "'") (Without-escape 47 rk refl l) (refl, tt) in
    let row : Without 47 (codes "',RowKey='" ++ (escape rk ++ codes "'")) =
      Without-literal 47 (codes "',RowKey='") _ refl last in
    let keys : Without 47 (key_predicate pk rk) =
      Without-literal 47 (codes "PartitionKey='") _ refl
        (Without-append 47 (escape pk) _ (Without-escape 47 pk refl k) row) in
    Without-append 47 table _ h
      (refl, Without-append 47 (key_predicate pk rk) (codes ")") keys (refl, tt))

-- a name cut off by a byte that neither has
has_prefix-cut :
    (c : ℕ) (s t p : Bytes)
    → Without c s
    → Without c p
    → has_prefix (s ++ c ∷ t) (p ++ c ∷ []) ≡ true
    → s ≡ p
unfolding has_prefix
has_prefix-cut c [] t [] h k e = refl
has_prefix-cut c [] t (d ∷ p) h (k, ks) e = ground (arith, k)
has_prefix-cut c (b ∷ s) t [] (h, hs) k e = ground (arith, h)
has_prefix-cut c (b ∷ s) t (d ∷ p) (h, hs) (k, ks) e = ground (arith, has_prefix-cut c s t p hs ks)

bytes_eq-cut : (c : ℕ) (s t p : Bytes) → Without c p → bytes_eq (s ++ c ∷ t) p ≡ false
unfolding bytes_eq
bytes_eq-cut c [] t [] h = refl
bytes_eq-cut c [] t (d ∷ p) (h, hs) = ground (arith, h)
bytes_eq-cut c (b ∷ s) t [] h = refl
bytes_eq-cut c (b ∷ s) t (d ∷ p) (h, hs) = ground (arith, bytes_eq-cut c s t p hs)

not_prefix :
    (table rest : Bytes)
    → Without 40 table
    → bytes_eq table (codes "Tables") ≡ false
    → has_prefix (table ++ 40 ∷ rest) (codes "Tables" ++ 40 ∷ []) ≡ false
not_prefix table rest h other =
    elim (Bool-cases (has_prefix (table ++ 40 ∷ rest) (codes "Tables" ++ 40 ∷ []))) [
      | inr e ↦ e
      | inl e ↦
          let same =
            has_prefix-cut 40 table rest (codes "Tables") h (Without-test 40 (codes "Tables") refl)
              e in
          absurd (cc (sym other ∙ (bytes_eq_iff table (codes "Tables")).1 same))
    ]

module _ (lib : Library) (keeps : KeepsVisible lib.trim) (lowers : LowersNames lib.lower) where
  -- the predicate is not empty
  routed :
      (account table pk rk : Bytes)
      → parse_entity_keys lib.trim lib.lower (key_predicate pk rk) ≡ (pk, rk)
      → route_entity lib account table (key_predicate pk rk) ≡ entity_item account table pk rk
  unfolding route_entity key_predicate
  routed account table pk rk h = rw h refl

  route_resource-entity_segment :
      (account table pk rk : Bytes)
      → Without 40 table
      → bytes_eq table (codes "Tables") ≡ false
      → route_resource lib account (entity_segment table pk rk) ≡ entity_item account table pk rk
  unfolding route_resource entity_segment
  route_resource-entity_segment account table pk rk h other =
      let (split_it, keys) =
        parse_entity_keys-entity_segment lib.trim lib.lower keeps lowers table pk rk h in
      let no_table : bytes_eq (entity_segment table pk rk) (codes "Tables") ≡ false =
        bytes_eq-cut 40 table _ (codes "Tables") (Without-test 40 (codes "Tables") refl) in
      let no_item : has_prefix (entity_segment table pk rk) (codes "Tables(") ≡ false =
        not_prefix table _ h other in
      rw (route_resource, no_table, no_item, split_it) (routed account table pk rk keys)

  -- The path of an entity leads to the entity, whatever quotes, commas, equals signs and parentheses
  -- its keys hold, if the account, the table and the keys have no slash, the table's name has no
  -- opening parenthesis and is not `Tables`, and neither name is empty.
  pub route-entity_segment :
      (a b : ℕ) (account table pk rk : Bytes)
      → Without 47 (a ∷ account)
      → Without 47 (b ∷ table)
      → Without 40 (b ∷ table)
      → Without 47 pk
      → Without 47 rk
      → bytes_eq (b ∷ table) (codes "Tables") ≡ false
      → route lib (47 ∷ (a ∷ account) ++ 47 ∷ entity_segment (b ∷ table) pk rk)
        ≡ entity_item (a ∷ account) (b ∷ table) pk rk
  unfolding route route_segments trim_prefix_byte entity_segment
  route-entity_segment a b account table pk rk h k l m n other =
      let segment = entity_segment (b ∷ table) pk rk in
      let parts : split 47 ((a ∷ account) ++ 47 ∷ segment) ≡ (a ∷ account, segment ∷ []) =
        split-append 47 (a ∷ account) segment h refl
        ∙ ap (λ (p : Bytes × List Bytes). (a ∷ account, p.0 ∷ p.1))
            (split-Without 47 segment (Without-entity_segment (b ∷ table) pk rk k m n)) in
      ap (route_segments lib) parts
      ∙ route_resource-entity_segment (a ∷ account) (b ∷ table) pk rk l other
