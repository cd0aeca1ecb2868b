-- ===== src/QueueServer/Http.antt =====
-- internal/servers/queueserver: requests and responses, the helpers of server.go and messages.go, and
-- the documents of xml.go. An XML text in a response stands as the value that is marshalled.
use localaz.Common.{
  Bytes, codes, ℕ, suc, Bool, ◌*◌, ◌-◌, ◌%◌, ◌^◌, ◌&&◌, List, [], ◌∷◌, ◌++◌, Option, none, some,
  map, length, take, drop, ltb, bytes_eq, Result, if◌then◌else◌,
}
use localaz.Common.Int.{ℤ, pos, negsuc}
use localaz.Common.Dict.{Dict, insert}
use localaz.Azerr.{
  Code, AzError, new, method_not_allowed, unsupported_header, internal, missing_queue,
  existing_queue, missing_message, wrong_receipt,
}
use localaz.Amqp.Types.{to_signed}
use localaz.Queue.Types.{
  Error, queue_not_found, queue_exists, message_not_found, pop_receipt_mismatch, Time, is_zero,
  Message, QueueInfo,
}
use localaz.Queue.Messages.{second}

-- `base` is the scheme and the host, `://` between them. `body` is an error where it cannot be read.
pub record Request : Type 0 where
  pub verb : Bytes
  pub path : Bytes
  pub base : Bytes
  pub headers : Dict (List Bytes)
  pub query : Bytes → Bytes
  pub body : Result Bytes Bytes

-- `dequeue_count` is a pointer there; an empty text is left out of the document.
pub record MessageView : Type 0 where
  pub message_id : Bytes
  pub insertion_time : Bytes
  pub expiration_time : Bytes
  pub pop_receipt : Bytes
  pub time_next_visible : Bytes
  pub dequeue_count : Option ℕ
  pub message_text : Bytes

pub data Payload : Type 0 where
  no_payload : Payload
  plain_text : Bytes → Payload
  error_xml : AzError → Payload
  queues_xml : Bytes → Bytes → List Bytes → Payload
  messages_xml : List MessageView → Payload

-- `metadata` stands for the headers x-ms-meta-*, each by the rest of its name.
pub record Response : Type 0 where
  pub status : ℕ
  pub error_code : Option Code
  pub message_count : Option ℕ
  pub metadata : Dict Bytes
  pub pop_receipt : Option Bytes
  pub next_visible : Option Bytes
  pub payload : Payload

-- encoding/xml, strconv, strings and net/http's dates: `unmarshal_message` reads the text of a
-- `putMessageBody`, `marshal_error` is the error's text where marshalling fails.
pub record Library : Type 0 where
  pub unmarshal_message : Bytes → Option Bytes
  pub marshal_error : Payload → Option Bytes
  pub format_http : Time → Bytes
  pub fold_eq : Bytes → Bytes → Bool
  pub lower : Bytes → Bytes
  pub atoi : Bytes → Option ℤ

abbrev pub plain_response : ℕ → Response
plain_response status = record {
  status = status;
  error_code = none;
  message_count = none;
  metadata = [];
  pop_receipt = none;
  next_visible = none;
  payload = no_payload;
}

unfoldable pub map_store_err : Error → AzError
map_store_err queue_not_found = missing_queue
map_store_err queue_exists = existing_queue
map_store_err message_not_found = missing_message
map_store_err pop_receipt_mismatch = wrong_receipt

-- `strings.Join(vals, ",")`
unfoldable pub join_commas : List Bytes → Bytes
join_commas [] = []
join_commas (v ∷ []) = v
join_commas (v ∷ w ∷ vals) = v ++ 44 ∷ join_commas (w ∷ vals)

-- the conversion to int64 of the product of two of them
unfoldable pub wrap64 : ℤ → ℤ
unfolding to_signed
wrap64 (pos n) = to_signed 64 (n % 2 ^ 64)
wrap64 (negsuc n) = to_signed 64 (2 ^ 64 - 1 - n % 2 ^ 64)

-- `time.Duration(v) * time.Second`
unfoldable pub seconds : ℤ → ℤ
unfolding wrap64
seconds (pos n) = wrap64 (pos (n * second))
seconds (negsuc n) = wrap64 (negsuc (suc n * second - 1))

abbrev pub meta_prefix : Bytes
meta_prefix = codes "X-Ms-Meta-"

-- the document of `marshalQueues`, without its constant empty marker
abbrev pub queues_document : Bytes → Bytes → List QueueInfo → Payload
queues_document endpoint prefix items =
    queues_xml endpoint prefix (map (λ (i : QueueInfo). i.name) items)

abbrev pub service_endpoint : Request → Bytes → Bytes
service_endpoint r account = r.base ++ (codes "/" ++ account)

module _ (lib : Library) where
  unfoldable pub write_error : Request → AzError → Response
  write_error r e = elim (lib.marshal_error (error_xml e)) [
    | none ↦ record (plain_response e.status) {
      error_code = some e.code;
      payload = if bytes_eq r.verb (codes "HEAD") then no_payload else error_xml e;
    }
    | some _ ↦ record (plain_response e.status) {
      error_code = some e.code;
      payload = plain_text e.message;
    }
  ]

  unfoldable pub wrong_method : Request → Response
  unfolding write_error
  wrong_method r = write_error r (
      new method_not_allowed unsupported_header
        "The HTTP method is not supported for this resource.")

  -- the response, or the error that marshalling its document gives
  unfoldable pub marshalled : Request → Response → Response
  unfolding write_error
  marshalled r response = elim (lib.marshal_error response.payload) [
    | none ↦ response
    | some message ↦ write_error r (internal message)
  ]

  -- The loop of `readMetadata`, from the metadata read so far.
  unfoldable pub read_headers : Dict (List Bytes) → Dict Bytes → Dict Bytes
  unfolding join_commas
  read_headers [] meta = meta
  read_headers ((k, vals) ∷ headers) meta =
      let meta' =
        if ltb (length meta_prefix) (length k)
          && lib.fold_eq (take (length meta_prefix) k) meta_prefix
        then insert (lib.lower (drop (length meta_prefix) k)) (join_commas vals) meta
        else meta in
      read_headers headers meta'

  unfoldable pub read_metadata : Request → Dict Bytes
  unfolding read_headers
  read_metadata r = read_headers r.headers []

  unfoldable pub parse_int : Bytes → ℤ → ℤ
  parse_int [] fallback = fallback
  parse_int (c ∷ s) fallback = elim (lib.atoi (c ∷ s)) [ none ↦ fallback | some v ↦ v ]

  unfoldable pub parse_seconds : Bytes → ℤ → ℤ
  unfolding seconds
  parse_seconds [] fallback = fallback
  parse_seconds (c ∷ s) fallback = elim (lib.atoi (c ∷ s)) [ none ↦ fallback | some v ↦ seconds v ]

  unfoldable pub parse_ttl : Bytes → ℤ
  unfolding seconds
  parse_ttl [] = pos 0
  parse_ttl (c ∷ s) = elim (lib.atoi (c ∷ s)) [
    | none ↦ pos 0
    | some (negsuc v) ↦ negsuc 0
    | some (pos v) ↦ seconds (pos v)
  ]

  -- `expiration` of xml.go
  unfoldable pub expiration_text : Message → Bytes
  expiration_text m = if is_zero m.expiration_time then [] else lib.format_http m.expiration_time

  unfoldable pub enqueued_view : Message → MessageView
  unfolding expiration_text
  enqueued_view m = record {
    message_id = m.id;
    insertion_time = lib.format_http m.insertion_time;
    expiration_time = expiration_text m;
    pop_receipt = m.pop_receipt;
    time_next_visible = lib.format_http m.next_visible;
    dequeue_count = none;
    message_text = [];
  }

  unfoldable pub dequeued_view : Message → MessageView
  unfolding expiration_text
  dequeued_view m = record {
    message_id = m.id;
    insertion_time = lib.format_http m.insertion_time;
    expiration_time = expiration_text m;
    pop_receipt = m.pop_receipt;
    time_next_visible = lib.format_http m.next_visible;
    dequeue_count = some m.dequeue_count;
    message_text = m.text;
  }

  unfoldable pub peek_view : Message → MessageView
  unfolding expiration_text
  peek_view m = record {
    message_id = m.id;
    insertion_time = lib.format_http m.insertion_time;
    expiration_time = expiration_text m;
    pop_receipt = [];
    time_next_visible = [];
    dequeue_count = some m.dequeue_count;
    message_text = m.text;
  }

  -- the text of a Put Message or an Update Message; `none` where the document cannot be read
  unfoldable pub body_text : Bytes → Option Bytes
  body_text [] = some []
  body_text (b ∷ body) = lib.unmarshal_message (b ∷ body)
