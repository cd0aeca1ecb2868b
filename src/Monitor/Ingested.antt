-- ===== src/Monitor/Ingested.antt =====
-- internal/stores/monitorstore: what Ingest adds, and that every row has its time.
use localaz.Common.{
  Bytes, codes, Bool, true, false, ◌&&◌, List, [], ◌∷◌, ◌++◌, Option, none, some, map, bytes_eq,
  bytes_eq_iff, bytes_eq_refl, if◌then◌else◌, ◌≡◌, refl, ap, ◌∙◌, Bool-cases, Option-cases,
  Result-cases, inl, inr, append_assoc, append-nil, All, All-append, has_prefix, ◌⊎◌, arith,
}
use mathlib.Core.Path.{subst}
use localaz.Common.Dict.{or_empty, or_empty-if, lookup, insert, lookup-insert}
use localaz.Common.Strings.{split, trim_prefix_byte}
use localaz.Monitor.Values.{Value, string, Row, Library}
use localaz.Monitor.Store.{
  Tables, time_generated, table_name, stamped, ingest_rows, ingest, rows_of,
}
use localaz.Monitor.Server.{
  Request, Outside, read_body, handle_ingest, route_request, serve_monitor,
}

-- The table of a stream: its name, behind `Custom-` where it starts with that.
abbrev pub IsTableOf : Bytes → Bytes → Type 0
IsTableOf stream name =
    (stream ≡ codes "Custom-" ++ name)
    ⊎ ((stream ≡ name) × (has_prefix stream (codes "Custom-") ≡ false))

table_name-IsTableOf : (stream name : Bytes) → IsTableOf stream name → table_name stream ≡ name
unfolding table_name has_prefix
table_name-IsTableOf stream name (inl e) = rw e refl
table_name-IsTableOf stream name (inr (e, other)) = rw (table_name, other) e

module _ {F : Type 0} where
  rows_of-insert :
      (n m : Bytes) (rows : List (Row F)) (t : Tables F)
      → or_empty (lookup m (insert n rows t))
        ≡ (if bytes_eq n m then rows else or_empty (lookup m t))
  rows_of-insert n m rows t =
      ap or_empty (lookup-insert m n rows t) ∙ or_empty-if (bytes_eq n m) rows (lookup m t)

  rows_of-ingest_rows :
      (now n m : Bytes) (records : List (Option (Row F))) (t : Tables F)
      → or_empty (lookup m (ingest_rows now n records t)) ≡ (
          if bytes_eq n m
          then or_empty (lookup n t) ++ map (stamped now) records
          else or_empty (lookup m t))
  unfolding ingest_rows
  rows_of-ingest_rows now n m [] t = elim (Bool-cases (bytes_eq n m)) [
    | inr other ↦ rw other refl
    | inl same ↦
        let e : n ≡ m = (bytes_eq_iff n m).0 same in
        rw (same, append-nil (or_empty (lookup n t)), e) refl
  ]
  rows_of-ingest_rows now n m (r ∷ records) t =
      let rows = or_empty (lookup n t) ++ stamped now r ∷ [] in
      rows_of-ingest_rows now n m records (insert n rows t) ∙ elim (Bool-cases (bytes_eq n m)) [
        | inr other ↦ rw (other, rows_of-insert n m rows t, other) refl
        | inl same ↦
            rw (same, rows_of-insert n n rows t, bytes_eq_refl n)
              (append_assoc (or_empty (lookup n t)) (stamped now r ∷ [])
                (map (stamped now) records))
      ]

  rows_of-ingest_map :
      (now stream m : Bytes) (records : List (Option (Row F))) (t : Tables F)
      → or_empty (rows_of m (ingest now stream records t)) ≡ (
          if bytes_eq (table_name stream) m
          then or_empty (rows_of (table_name stream) t) ++ map (stamped now) records
          else or_empty (rows_of m t))
  unfolding ingest rows_of
  rows_of-ingest_map now stream m records t =
      rows_of-ingest_rows now (table_name stream) m records t

  -- A row with the columns of a record, nil or not, and the time where the record has none.
  abbrev pub Stores : Bytes → Option (Row F) → Row F → Type 0
  Stores now r row =
      (k : Bytes)
      → lookup k row ≡ (elim (lookup k (or_empty r)) [
        | some v ↦ some v
        | none ↦ if bytes_eq time_generated k then some (string now) else none
      ])

  -- each record by a row, in order
  abbrev pub AllStored : Bytes → List (Option (Row F)) → List (Row F) → Type 0
  AllStored now [] [] = Unit
  AllStored now [] (row ∷ rows) = ⊥
  AllStored now (r ∷ records) [] = ⊥
  AllStored now (r ∷ records) (row ∷ rows) = Stores now r row × AllStored now records rows

  inserted-Stores :
      (now : Bytes) (row : Row F)
      → lookup time_generated row ≡ none
      → Stores now (some row) (insert time_generated (string now) row)
  inserted-Stores now row missing k =
      ground (arith, lookup-insert k time_generated (string now) row, bytes_eq_iff time_generated k)

  stamped-Stores : (now : Bytes) (r : Option (Row F)) → Stores now r (stamped now r)
  unfolding stamped lookup
  stamped-Stores now none k = inserted-Stores now [] refl k
  stamped-Stores now (some row) k = elim (Option-cases (lookup time_generated row)) [
    | inl missing ↦ rw (stamped, missing) (inserted-Stores now row missing k)
    | inr (v, there) ↦
        rw (stamped, there)
          (elim (Option-cases (lookup k row)) [
            | inr (w, found) ↦ rw found refl
            | inl gone ↦ ground (arith, bytes_eq_iff time_generated k)
          ])
  ]

  map-AllStored :
      (now : Bytes) (records : List (Option (Row F)))
      → AllStored now records (map (stamped now) records)
  map-AllStored now [] = tt
  map-AllStored now (r ∷ records) = (stamped-Stores now r, map-AllStored now records)

  -- Ingest adds a row for each record, in order, to the end of the stream's table, which is named like
  -- the stream without a leading `Custom-`, and changes no other table. A row has the record's columns,
  -- and the time as TimeGenerated where the record has none.
  pub rows_of-ingest :
      (now stream name m : Bytes) (records : List (Option (Row F))) (t : Tables F)
      → IsTableOf stream name
      → (new : List (Row F)) × (or_empty (rows_of m (ingest now stream records t))
          ≡ (if bytes_eq name m then or_empty (rows_of name t) ++ new else or_empty (rows_of m t)))
        × AllStored now records new
  rows_of-ingest now stream name m records t h = (
    map (stamped now) records,
    subst
        (λ n. or_empty (rows_of m (ingest now stream records t)) ≡ (
          if bytes_eq n m
          then or_empty (rows_of n t) ++ map (stamped now) records
          else or_empty (rows_of m t)))
        (table_name-IsTableOf stream name h) (rows_of-ingest_map now stream m records t),
    map-AllStored now records,
  )

  abbrev pub HasTime : Row F → Type 0
  HasTime row = (v : Value F) × (lookup time_generated row ≡ some v)

  -- every row of every table has its time
  abbrev pub AllStamped : Tables F → Type 0
  AllStamped t = (m : Bytes) → All HasTime (or_empty (rows_of m t))

  inserted-HasTime : (now : Bytes) (row : Row F) → HasTime (insert time_generated (string now) row)
  inserted-HasTime now row = (
    string now,
    lookup-insert time_generated time_generated (string now) row
        ∙ rw (bytes_eq_refl time_generated) refl,
  )

  stamped-HasTime : (now : Bytes) (r : Option (Row F)) → HasTime (stamped now r)
  unfolding stamped
  stamped-HasTime now none = inserted-HasTime now []
  stamped-HasTime now (some row) = elim (Option-cases (lookup time_generated row)) [
    | inl missing ↦ rw (stamped, missing) (inserted-HasTime now row)
    | inr (v, there) ↦ rw (stamped, there) (v, there)
  ]

  map-HasTime :
      (now : Bytes) (records : List (Option (Row F))) → All HasTime (map (stamped now) records)
  map-HasTime now [] = tt
  map-HasTime now (r ∷ records) = (stamped-HasTime now r, map-HasTime now records)

  ingest-AllStamped :
      (now stream : Bytes) (records : List (Option (Row F))) (t : Tables F)
      → AllStamped t
      → AllStamped (ingest now stream records t)
  ingest-AllStamped now stream records t h m =
      rw (rows_of-ingest_map now stream m records t)
        (elim (Bool-cases (bytes_eq (table_name stream) m)) [
          | inr other ↦ rw other (h m)
          | inl same ↦
              rw same (All-append HasTime _ _ (h (table_name stream)) (map-HasTime now records))
        ])

module _ (lib : Library) (out : Outside lib.floats.Float) where
  handle_ingest-AllStamped :
      (r : Request) (stream : Bytes) (t : Tables lib.floats.Float)
      → AllStamped t
      → AllStamped (handle_ingest lib out r stream t).0
  unfolding handle_ingest
  handle_ingest-AllStamped r stream t h = elim (Bool-cases (bytes_eq r.verb (codes "POST"))) [
    | inr other ↦ rw (handle_ingest, other) h
    | inl post ↦ elim (Result-cases (read_body out r)) [
      | inr (e, refused) ↦ rw (handle_ingest, post, refused) h
      | inl (body, read) ↦ elim (Option-cases (out.unmarshal_records body)) [
        | inl bad ↦ rw (handle_ingest, post, read, bad) h
        | inr (records, good) ↦
            rw (handle_ingest, post, read, good) (ingest-AllStamped out.now stream records t h)
      ]
    ]
  ]

  keep-AllStamped :
      {A : Type 0} (b : Bool) (x y : Tables lib.floats.Float × A)
      → AllStamped x.0
      → AllStamped y.0
      → AllStamped (if b then x else y).0
  keep-AllStamped true x y h k = h
  keep-AllStamped false x y h k = k

  route_request-AllStamped :
      (r : Request) (segments : Bytes × List Bytes) (t : Tables lib.floats.Float)
      → AllStamped t
      → AllStamped (route_request lib out r segments t).0
  unfolding route_request
  route_request-AllStamped r (a, b ∷ c ∷ d ∷ others) t h =
      keep-AllStamped (bytes_eq a (codes "dataCollectionRules") && bytes_eq c (codes "streams")) _ _
        (handle_ingest-AllStamped r d t h)
        (keep-AllStamped
          (bytes_eq a (codes "v1") && bytes_eq b (codes "workspaces") && bytes_eq d (codes "query"))
          _ _ h h)
  route_request-AllStamped r _ t h = h

  -- Every request keeps that each row of each table has a TimeGenerated.
  pub serve_monitor-AllStamped :
      (r : Request) (t : Tables lib.floats.Float)
      → AllStamped t
      → AllStamped (serve_monitor lib out r t).0
  unfolding serve_monitor
  serve_monitor-AllStamped r t h =
      route_request-AllStamped r (split 47 (trim_prefix_byte 47 r.path)) t h
