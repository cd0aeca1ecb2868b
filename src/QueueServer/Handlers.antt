-- ===== src/QueueServer/Handlers.antt =====
-- internal/servers/queueserver: the handlers of queues.go and messages.go.
use localaz.Common.{
  Bytes, codes, ℕ, ◌*◌, [], ◌∷◌, none, some, map, ltb, bytes_eq, Result, ok, err, if◌then◌else◌,
}
use localaz.Common.Int.{ℤ, pos, negsuc}
use localaz.Common.Snapshot.{Codec}
use localaz.Azerr.{
  new, bad_request, invalid_input, out_of_range_query_param, invalid_name, internal,
}
use localaz.Queue.Types.{Error, QueueInfo}
use localaz.Queue.Messages.{second}
use localaz.Queue.Store.{
  Accounts, Store, Env, enqueue, dequeue, peek, delete_message, update_message, clear_messages,
  create_queue, delete_queue, get_metadata, set_metadata, list_queues,
}
use localaz.QueueServer.Names.{valid_queue_name}
use localaz.QueueServer.Http.{
  Request, Response, Library, messages_xml, plain_response, map_store_err, queues_document,
  service_endpoint, write_error, marshalled, read_metadata, parse_int, parse_seconds, parse_ttl,
  enqueued_view, dequeued_view, peek_view, body_text,
}

abbrev pub default_visibility_timeout : ℤ
default_visibility_timeout = pos (30 * second)

abbrev pub max_num_of_messages : ℕ
max_num_of_messages = 32

-- `if num < 1 { num = 1 }`
unfoldable pub at_least_one : ℤ → ℕ
at_least_one (pos n) = if ltb n 1 then 1 else n
at_least_one (negsuc n) = 1

module _ (lib : Library) where
  -- a handler's answer to what the store returned, by `mapStoreErr` where that is an error
  unfoldable pub answered :
      {S A : Type 0} → Request → S × Result Error A → (A → Response) → S × Response
  unfolding write_error map_store_err
  answered r (after, ok a) good = (after, good a)
  answered r (after, err e) good = (after, write_error lib r (map_store_err e))

  module _ {D : Type 0} (c : Codec D Accounts) (env : Env) where
    unfoldable pub create_queue_handler : Request → Bytes → Bytes → Store D → Store D × Response
    unfolding write_error answered read_metadata valid_queue_name
    create_queue_handler r account queue s =
        if valid_queue_name queue
        then answered r (create_queue c env account queue (read_metadata lib r) s)
            (λ created. if created then plain_response 201 else plain_response 204)
        else (s, write_error lib r invalid_name)

    unfoldable pub delete_queue_handler : Request → Bytes → Bytes → Store D → Store D × Response
    unfolding answered
    delete_queue_handler r account queue s =
        answered r (delete_queue c env account queue s) (λ _. plain_response 204)

    unfoldable pub get_metadata_handler : Request → Bytes → Bytes → Store D → Store D × Response
    unfolding answered
    get_metadata_handler r account queue s =
        answered r (get_metadata c env account queue s) (λ (info : QueueInfo).
          record (plain_response 200) {
            message_count = some info.approximate_count;
            metadata = info.metadata;
          })

    unfoldable pub set_metadata_handler : Request → Bytes → Bytes → Store D → Store D × Response
    unfolding answered read_metadata
    set_metadata_handler r account queue s =
        answered r (set_metadata c env account queue (read_metadata lib r) s)
          (λ _. plain_response 204)

    unfoldable pub list_queues_handler : Request → Bytes → Store D → Store D × Response
    unfolding marshalled
    list_queues_handler r account s =
        let prefix = r.query (codes "prefix") in
        let (after, items) = list_queues c env account prefix s in
        (
          after,
          marshalled lib r (record (plain_response 200) {
            payload = queues_document (service_endpoint r account) prefix items;
          }),
        )

    unfoldable pub put_message_handler : Request → Bytes → Bytes → Store D → Store D × Response
    unfolding write_error answered body_text parse_seconds parse_ttl marshalled enqueued_view
    put_message_handler r account queue s = elim r.body [
      | err message ↦ (s, write_error lib r (internal message))
      | ok body ↦ elim (body_text lib body) [
        | none ↦ (s, write_error lib r (new bad_request invalid_input "Malformed message body."))
        | some text ↦
            let visibility = parse_seconds lib (r.query (codes "visibilitytimeout")) (pos 0) in
            let ttl = parse_ttl lib (r.query (codes "messagettl")) in
            answered r (enqueue c env account queue text visibility ttl s) (λ m.
              marshalled lib r
                (record (plain_response 201) { payload = messages_xml (enqueued_view lib m ∷ []) }))
      ]
    ]

    unfoldable pub get_messages_handler : Request → Bytes → Bytes → Store D → Store D × Response
    unfolding write_error answered parse_int parse_seconds marshalled peek_view dequeued_view
        at_least_one
    get_messages_handler r account queue s =
        let num = at_least_one (parse_int lib (r.query (codes "numofmessages")) (pos 1)) in
        if ltb max_num_of_messages num
        then (
          s,
          write_error lib r (
              new bad_request out_of_range_query_param
                "One of the query parameters specified in the request URI is outside the permissible range."),
        )
        else if bytes_eq (r.query (codes "peekonly")) (codes "true")
        then answered r (peek c env account queue num s) (λ ms.
          marshalled lib r
            (record (plain_response 200) { payload = messages_xml (map (peek_view lib) ms) }))
        else (let visibility =
              parse_seconds lib (r.query (codes "visibilitytimeout")) default_visibility_timeout in
            answered r (dequeue c env account queue num visibility s) (λ ms.
              marshalled lib r (record (plain_response 200) {
                payload = messages_xml (map (dequeued_view lib) ms);
              })))

    unfoldable pub delete_message_handler :
        Request → Bytes → Bytes → Bytes → Store D → Store D × Response
    unfolding answered
    delete_message_handler r account queue id s =
        answered r (delete_message c env account queue id (r.query (codes "popreceipt")) s)
          (λ _. plain_response 204)

    unfoldable pub update_message_handler :
        Request → Bytes → Bytes → Bytes → Store D → Store D × Response
    unfolding write_error answered body_text parse_seconds
    update_message_handler r account queue id s = elim r.body [
      | err message ↦ (s, write_error lib r (internal message))
      | ok body ↦ elim (body_text lib body) [
        | none ↦ (s, write_error lib r (new bad_request invalid_input "Malformed message body."))
        | some text ↦
            let visibility = parse_seconds lib (r.query (codes "visibilitytimeout")) (pos 0) in
            answered r
              (update_message c env account queue id (r.query (codes "popreceipt")) text visibility
                s)
              (λ p. record (plain_response 204) {
                pop_receipt = some p.0;
                next_visible = some (lib.format_http p.1);
              })
      ]
    ]

    unfoldable pub clear_messages_handler : Request → Bytes → Bytes → Store D → Store D × Response
    unfolding answered
    clear_messages_handler r account queue s =
        answered r (clear_messages c env account queue s) (λ _. plain_response 204)
