-- ===== src/Monitor/Server.antt =====
-- internal/servers/monitorserver: server.go, ingestion.go and the handler of query.go.
use localaz.Common.{
  Bytes, codes, ℕ, not, ◌&&◌, List, ◌∷◌, Option, none, some, length, ltb, bytes_eq, Result, ok, err,
  if◌then◌else◌,
}
use localaz.Common.Strings.{split, trim_prefix_byte}
use localaz.Httpx.{HttpError, http_error}
use localaz.Monitor.Values.{Row, Library, KqlError}
use localaz.Monitor.Store.{Tables, ingest}
use localaz.Monitor.Kql.{eval_kql}
use localaz.Monitor.Wire.{WireTable, materialize}

-- a body as it is read: over the limit of http.MaxBytesReader, broken off, or whole
pub data RawBody : Type 0 where
  over_limit unreadable : RawBody
  raw : Bytes → RawBody

pub record Request : Type 0 where
  pub verb : Bytes
  pub path : Bytes
  pub encoding : Bytes
  pub body : RawBody

pub data Reply (F : Type 0) : Type 0 where
  no_content : Reply F
  table : WireTable F → Reply F
  failed : HttpError → Reply F

pub data BodyError : Type 0 where
  body_too_large bad_body : BodyError

abbrev pub max_decompressed_bytes : ℕ
max_decompressed_bytes = 268435456

-- What the handlers take from outside: compress/gzip, which gives one byte more than the limit at
-- most, encoding/json, the clock's text and the text of an error.
pub record Outside (F : Type 0) : Type 0 where
  pub gunzip : Bytes → Option Bytes
  pub unmarshal_records : Bytes → Option (List (Option (Row F)))
  pub unmarshal_query : Bytes → Option Bytes
  pub now : Bytes
  pub error_text : KqlError → Bytes

unfoldable pub read_body : {F : Type 0} → Outside F → Request → Result BodyError Bytes
read_body out r = elim r.body [
  | over_limit ↦ err body_too_large
  | unreadable ↦ err bad_body
  | raw bytes ↦
      if not (bytes_eq r.encoding (codes "gzip")) then ok bytes else elim (out.gunzip bytes) [
        | none ↦ err bad_body
        | some inflated ↦
            if ltb max_decompressed_bytes (length inflated) then err body_too_large else ok inflated
      ]
]

abbrev pub only_post : HttpError
only_post = http_error 405 "MethodNotAllowed" "Only POST is supported."

unfoldable pub body_error : BodyError → HttpError
body_error body_too_large =
    http_error 413 "RequestEntityTooLarge" "Request body exceeds the maximum allowed size."
body_error bad_body = http_error 400 "BadRequest" "Could not read request body."

module _ (lib : Library) (out : Outside lib.floats.Float) where
  unfoldable pub handle_ingest :
      Request → Bytes → Tables lib.floats.Float → Tables lib.floats.Float × Reply lib.floats.Float
  unfolding read_body ingest body_error
  handle_ingest r stream tables =
      if not (bytes_eq r.verb (codes "POST"))
      then (tables, failed only_post)
      else elim (read_body out r) [
        | err e ↦ (tables, failed (body_error e))
        | ok body ↦ elim (out.unmarshal_records body) [
          | none ↦ (
            tables,
            failed (
                http_error 400 "InvalidContent"
                  "Request body must be a JSON array of log records."),
          )
          | some records ↦ (ingest out.now stream records tables, no_content)
        ]
      ]

  -- a query's text, or what makes the body a bad one
  unfoldable pub query_text : RawBody → Result HttpError Bytes
  query_text (raw bytes) = elim (out.unmarshal_query bytes) [
    | some (c ∷ query) ↦ ok (c ∷ query)
    | _ ↦ err (http_error 400 "BadArgumentError" "Request body must contain a 'query' string.")
  ]
  query_text _ = err (http_error 400 "BadRequest" "Could not read request body.")

  unfoldable pub handle_query : Request → Tables lib.floats.Float → Reply lib.floats.Float
  unfolding query_text eval_kql materialize
  handle_query r tables =
      if not (bytes_eq r.verb (codes "POST")) then failed only_post else elim (query_text r.body) [
        | err e ↦ failed e
        | ok query ↦ elim (eval_kql lib tables query) [
          | err e ↦
              failed (record {
                status = 400;
                code = codes "BadArgumentError";
                message = out.error_text e;
              })
          | ok result ↦ table (materialize lib result)
        ]
      ]

  unfoldable pub route_request :
      Request
      → Bytes × List Bytes
      → Tables lib.floats.Float
      → Tables lib.floats.Float × Reply lib.floats.Float
  unfolding handle_ingest handle_query
  route_request r (a, b ∷ c ∷ d ∷ others) tables =
      if bytes_eq a (codes "dataCollectionRules") && bytes_eq c (codes "streams")
      then handle_ingest r d tables
      else if bytes_eq a (codes "v1")
          && bytes_eq b (codes "workspaces")
          && bytes_eq d (codes "query")
      then (tables, handle_query r tables)
      else (tables, failed (http_error 404 "NotFound" "Unknown operation."))
  route_request r _ tables = (tables, failed (http_error 404 "NotFound" "Unknown operation."))

  unfoldable pub serve_monitor :
      Request → Tables lib.floats.Float → Tables lib.floats.Float × Reply lib.floats.Float
  unfolding route_request
  serve_monitor r tables = route_request r (split 47 (trim_prefix_byte 47 r.path)) tables
