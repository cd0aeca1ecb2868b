-- ===== src/QueueServer/Routes.antt =====
-- internal/servers/queueserver/server.go: `ServeHTTP` and the handlers of accounts, queues and messages.
use localaz.Common.{Bytes, codes, List, [], ◌∷◌, bytes_eq, if◌then◌else◌}
use localaz.Common.Snapshot.{Codec}
use localaz.Common.Strings.{split, trim_prefix_byte}
use localaz.Azerr.{new, bad_request, invalid_input, invalid_query_parameter}
use localaz.Queue.Store.{Accounts, Store, Env}
use localaz.QueueServer.Http.{Request, Response, Library, write_error, wrong_method}
use localaz.QueueServer.Handlers.{
  create_queue_handler, delete_queue_handler, get_metadata_handler, set_metadata_handler,
  list_queues_handler, put_message_handler, get_messages_handler, delete_message_handler,
  update_message_handler, clear_messages_handler,
}

-- what a path names: an account, a queue, the messages of a queue, or one of them
pub data Target : Type 0 where
  no_account : Target
  account_itself : Bytes → Target
  queue_itself : Bytes → Bytes → Target
  all_messages : Bytes → Bytes → Target
  one_message : Bytes → Bytes → Bytes → Target

-- The methods that the server tells apart; GET and HEAD are one but for messages.
pub data Verb : Type 0 where
  get head put post delete other_verb : Verb

unfoldable pub verb_of : Bytes → Verb
verb_of m =
    if bytes_eq m (codes "GET")
    then get
    else if bytes_eq m (codes "HEAD")
    then head
    else if bytes_eq m (codes "PUT")
    then put
    else if bytes_eq m (codes "POST")
    then post
    else if bytes_eq m (codes "DELETE")
    then delete
    else other_verb

-- the segments of a path after the account and the queue
unfoldable pub route_rest : Bytes → Bytes → List Bytes → Target
route_rest account queue [] = queue_itself account queue
route_rest account queue (kind ∷ []) =
    if bytes_eq kind (codes "messages")
    then all_messages account queue
    else queue_itself account queue
route_rest account queue (kind ∷ [] ∷ others) =
    if bytes_eq kind (codes "messages")
    then all_messages account queue
    else queue_itself account queue
route_rest account queue (kind ∷ (b ∷ id) ∷ others) =
    if bytes_eq kind (codes "messages")
    then one_message account queue (b ∷ id)
    else queue_itself account queue

-- `strings.Split` gives one segment at least
unfoldable pub route_segments : Bytes × List Bytes → Target
unfolding route_rest
route_segments ([], segments) = no_account
route_segments (a ∷ account, []) = account_itself (a ∷ account)
route_segments (a ∷ account, [] ∷ rest) = account_itself (a ∷ account)
route_segments (a ∷ account, (b ∷ queue) ∷ rest) = route_rest (a ∷ account) (b ∷ queue) rest

unfoldable pub route : Bytes → Target
unfolding route_segments
route path = route_segments (split 47 (trim_prefix_byte 47 path))

module _ (lib : Library) {D : Type 0} (c : Codec D Accounts) (env : Env) where
  unfoldable pub dispatch : Target → Verb → Request → Store D → Store D × Response
  unfolding write_error wrong_method
  dispatch no_account v r s =
      (s, write_error lib r (new bad_request invalid_input "Missing account in request URL."))
  dispatch (account_itself account) v r s =
      if bytes_eq (r.query (codes "comp")) (codes "list")
      then list_queues_handler lib c env r account s
      else (
        s,
        write_error lib r (
            new bad_request invalid_query_parameter
              "The requested account-level operation is not supported."),
      )
  dispatch (queue_itself account queue) put r s =
      if bytes_eq (r.query (codes "comp")) (codes "metadata")
      then set_metadata_handler lib c env r account queue s
      else create_queue_handler lib c env r account queue s
  dispatch (queue_itself account queue) delete r s =
      delete_queue_handler lib c env r account queue s
  dispatch (queue_itself account queue) get r s = get_metadata_handler lib c env r account queue s
  dispatch (queue_itself account queue) head r s = get_metadata_handler lib c env r account queue s
  dispatch (queue_itself account queue) _ r s = (s, wrong_method lib r)
  dispatch (one_message account queue id) delete r s =
      delete_message_handler lib c env r account queue id s
  dispatch (one_message account queue id) put r s =
      update_message_handler lib c env r account queue id s
  dispatch (one_message account queue id) _ r s = (s, wrong_method lib r)
  dispatch (all_messages account queue) post r s = put_message_handler lib c env r account queue s
  dispatch (all_messages account queue) get r s = get_messages_handler lib c env r account queue s
  dispatch (all_messages account queue) delete r s =
      clear_messages_handler lib c env r account queue s
  dispatch (all_messages account queue) _ r s = (s, wrong_method lib r)

  unfoldable pub serve_http : Request → Store D → Store D × Response
  unfolding route dispatch verb_of
  serve_http r s = dispatch (route r.path) (verb_of r.verb) r s
