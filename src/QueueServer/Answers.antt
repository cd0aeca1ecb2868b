-- ===== src/QueueServer/Answers.antt =====
-- internal/servers/queueserver: a request that is answered by an error changes nothing that can be
-- seen.
use localaz.Common.{
  Bytes, codes, Bool, if◌then◌else◌, true, false, none, bytes_eq, ltb, ◌≡◌, refl, Bool-cases,
  Option-cases, Result-cases, inl, inr,
}
use localaz.Common.Int.{pos}
use localaz.Common.Snapshot.{Codec}
use localaz.Queue.Store.{
  Accounts, Store, Env, enqueue, dequeue, peek, delete_message, update_message, clear_messages,
  create_queue, delete_queue, get_metadata, set_metadata,
}
use localaz.QueueServer.Names.{valid_queue_name}
use localaz.QueueServer.Http.{
  Request, Response, Library, Payload, read_metadata, parse_int, parse_seconds, parse_ttl,
  body_text, marshalled, plain_response,
}
use localaz.QueueServer.Handlers.{
  default_visibility_timeout, max_num_of_messages, at_least_one, create_queue_handler,
  delete_queue_handler, get_metadata_handler, set_metadata_handler, list_queues_handler,
  put_message_handler, get_messages_handler, delete_message_handler, update_message_handler,
  clear_messages_handler,
}
use localaz.QueueServer.Unseen.{
  ErrorKeeps, Unseen-refl, answered-Keeps, enqueue-Keeps, dequeue-Keeps, peek-Keeps,
  clear_messages-Keeps, get_metadata-Keeps, set_metadata-Keeps, delete_message-Keeps,
  update_message-Keeps, create_queue-Keeps, delete_queue-Keeps, list_queues-Unseen,
}
use localaz.QueueServer.Routes
use localaz.QueueServer.Routes.{
  Target, no_account, account_itself, queue_itself, all_messages, one_message, Verb, get, head, put,
  post, other_verb, dispatch, serve_http, route, verb_of,
}

-- encoding/xml marshals each of the documents.
abbrev pub Marshals : Library → Type 0
Marshals lib = (p : Payload) → lib.marshal_error p ≡ none

marshalled-ok :
    (lib : Library) (r : Request) (response : Response)
    → Marshals lib
    → response.error_code ≡ none
    → (marshalled lib r response).error_code ≡ none
unfolding marshalled
marshalled-ok lib r response h e = rw (marshalled, h response.payload) e

created-ok :
    (created : Bool)
    → (if created then plain_response 201 else plain_response 204).error_code ≡ none
created-ok true = refl
created-ok false = refl

module _ (lib : Library) {D : Type 0} (c : Codec D Accounts) (env : Env) where
  create_queue_handler-Keeps :
      (r : Request) (a n : Bytes) (s : Store D)
      → ErrorKeeps env s (create_queue_handler lib c env r a n s)
  unfolding create_queue_handler
  create_queue_handler-Keeps r a n s = elim (Bool-cases (valid_queue_name n)) [
    | inl e ↦
        rw (create_queue_handler, e)
          (answered-Keeps env lib s r (create_queue c env a n (read_metadata lib r) s) _
            (create_queue-Keeps env c a n (read_metadata lib r) s) created-ok)
    | inr e ↦ rw (create_queue_handler, e) (inr (Unseen-refl env s))
  ]

  put_message_handler-Keeps :
      (r : Request) (a n : Bytes) (s : Store D)
      → Marshals lib
      → ErrorKeeps env s (put_message_handler lib c env r a n s)
  unfolding put_message_handler
  put_message_handler-Keeps r a n s h = elim (Result-cases r.body) [
    | inr (m, e) ↦ rw (put_message_handler, e) (inr (Unseen-refl env s))
    | inl (body, e) ↦ elim (Option-cases (body_text lib body)) [
      | inl f ↦ rw (put_message_handler, e, f) (inr (Unseen-refl env s))
      | inr (text, f) ↦
          let visibility = parse_seconds lib (r.query (codes "visibilitytimeout")) (pos 0) in
          let ttl = parse_ttl lib (r.query (codes "messagettl")) in
          rw (put_message_handler, e, f)
            (answered-Keeps env lib s r (enqueue c env a n text visibility ttl s) _
              (enqueue-Keeps env c a n text visibility ttl s) (λ m. marshalled-ok lib r _ h refl))
    ]
  ]

  get_messages_handler-Keeps :
      (r : Request) (a n : Bytes) (s : Store D)
      → Marshals lib
      → ErrorKeeps env s (get_messages_handler lib c env r a n s)
  unfolding get_messages_handler
  get_messages_handler-Keeps r a n s h =
      let num = at_least_one (parse_int lib (r.query (codes "numofmessages")) (pos 1)) in
      let visibility =
        parse_seconds lib (r.query (codes "visibilitytimeout")) default_visibility_timeout in
      elim (Bool-cases (ltb max_num_of_messages num)) [
        | inl e ↦ rw (get_messages_handler, e) (inr (Unseen-refl env s))
        | inr e ↦ elim (Bool-cases (bytes_eq (r.query (codes "peekonly")) (codes "true"))) [
          | inl f ↦
              rw (get_messages_handler, e, f)
                (answered-Keeps env lib s r (peek c env a n num s) _ (peek-Keeps env c a n num s)
                  (λ m. marshalled-ok lib r _ h refl))
          | inr f ↦
              rw (get_messages_handler, e, f)
                (answered-Keeps env lib s r (dequeue c env a n num visibility s) _
                  (dequeue-Keeps env c a n num visibility s) (λ m. marshalled-ok lib r _ h refl))
        ]
      ]

  update_message_handler-Keeps :
      (r : Request) (a n id : Bytes) (s : Store D)
      → ErrorKeeps env s (update_message_handler lib c env r a n id s)
  unfolding update_message_handler
  update_message_handler-Keeps r a n id s = elim (Result-cases r.body) [
    | inr (m, e) ↦ rw (update_message_handler, e) (inr (Unseen-refl env s))
    | inl (body, e) ↦ elim (Option-cases (body_text lib body)) [
      | inl f ↦ rw (update_message_handler, e, f) (inr (Unseen-refl env s))
      | inr (text, f) ↦
          let visibility = parse_seconds lib (r.query (codes "visibilitytimeout")) (pos 0) in
          let receipt = r.query (codes "popreceipt") in
          rw (update_message_handler, e, f)
            (answered-Keeps env lib s r (update_message c env a n id receipt text visibility s) _
              (update_message-Keeps env c a n id receipt text visibility s) (λ p. refl))
    ]
  ]

  queue_itself-Keeps :
      (v : Verb) (r : Request) (a n : Bytes) (s : Store D)
      → ErrorKeeps env s (dispatch lib c env (queue_itself a n) v r s)
  unfolding dispatch set_metadata_handler delete_queue_handler get_metadata_handler
  queue_itself-Keeps put r a n s =
      elim (Bool-cases (bytes_eq (r.query (codes "comp")) (codes "metadata"))) [
        | inl e ↦ rw e (
            answered-Keeps env lib s r (set_metadata c env a n (read_metadata lib r) s) _
              (set_metadata-Keeps env c a n (read_metadata lib r) s) (λ _. refl))
        | inr e ↦ rw e (create_queue_handler-Keeps r a n s)
      ]
  queue_itself-Keeps Routes.delete r a n s =
      answered-Keeps env lib s r (delete_queue c env a n s) _ (delete_queue-Keeps env c a n s)
        (λ _. refl)
  queue_itself-Keeps get r a n s =
      answered-Keeps env lib s r (get_metadata c env a n s) _ (get_metadata-Keeps env c a n s)
        (λ _. refl)
  queue_itself-Keeps head r a n s =
      answered-Keeps env lib s r (get_metadata c env a n s) _ (get_metadata-Keeps env c a n s)
        (λ _. refl)
  queue_itself-Keeps _ r a n s = inr (Unseen-refl env s)

  dispatch-Keeps :
      (t : Target) (v : Verb) (r : Request) (s : Store D)
      → Marshals lib
      → ErrorKeeps env s (dispatch lib c env t v r s)
  unfolding dispatch list_queues_handler delete_message_handler clear_messages_handler
  dispatch-Keeps no_account v r s h = inr (Unseen-refl env s)
  dispatch-Keeps (account_itself a) v r s h =
      elim (Bool-cases (bytes_eq (r.query (codes "comp")) (codes "list"))) [
        | inl e ↦ rw e (inr (list_queues-Unseen env c a (r.query (codes "prefix")) s))
        | inr e ↦ rw e (inr (Unseen-refl env s))
      ]
  dispatch-Keeps (queue_itself a n) v r s h = queue_itself-Keeps v r a n s
  dispatch-Keeps (one_message a n id) Routes.delete r s h =
      let receipt = r.query (codes "popreceipt") in
      answered-Keeps env lib s r (delete_message c env a n id receipt s) _
        (delete_message-Keeps env c a n id receipt s) (λ _. refl)
  dispatch-Keeps (one_message a n id) put r s h = update_message_handler-Keeps r a n id s
  dispatch-Keeps (one_message a n id) _ r s h = inr (Unseen-refl env s)
  dispatch-Keeps (all_messages a n) post r s h = put_message_handler-Keeps r a n s h
  dispatch-Keeps (all_messages a n) get r s h = get_messages_handler-Keeps r a n s h
  dispatch-Keeps (all_messages a n) Routes.delete r s h =
      answered-Keeps env lib s r (clear_messages c env a n s) _ (clear_messages-Keeps env c a n s)
        (λ _. refl)
  dispatch-Keeps (all_messages a n) _ r s h = inr (Unseen-refl env s)

  -- If every document can be marshalled, a request whose answer has an error code has written no
  -- snapshot, and left each queue as it was to anyone who asks at the time of the request or later.
  pub serve_http-Unseen :
      (r : Request) (s : Store D) → Marshals lib → ErrorKeeps env s (serve_http lib c env r s)
  unfolding serve_http
  serve_http-Unseen r s h = dispatch-Keeps (route r.path) (verb_of r.verb) r s h
