-- ===== src/QueueServer/Tests.antt =====
-- The Queue server at a queue of one message.
use mathlib.Core.List.{Memᴰ}
use localaz.Common.{
  take, Bytes, bytes_eq, codes, ℕ, true, [], ◌∷◌, none, some, map, leb, length, ok, ◌≡◌, refl, ◌&&◌,
}
use localaz.Common.Int.{pos}
use localaz.Common.Dict.{lookup}
use localaz.Common.Snapshot.{plain}
use localaz.Common.Strings.{split, trim_prefix_byte, Without-test}
use localaz.Queue.Types.{Message, Queue, expired, visible}
use localaz.Queue.Messages.{evict_expired, leased, dequeue_loop}
use localaz.Queue.Store.{Accounts, Store, Env, find_queue, lookup_locked, dequeue}
use localaz.Queue.Receipts.{find_message}
use localaz.QueueServer.Names.{valid_queue_name, hyphenated, valid_queue_name_lem}
use localaz.QueueServer.Http.{
  MessageView, marshalled, Request, Library, messages_xml, plain_response, parse_int, parse_seconds,
  dequeued_view,
}
use localaz.QueueServer.Handlers.{
  get_messages_handler, answered, default_visibility_timeout, at_least_one,
}
use localaz.QueueServer.Routes.{route, route_segments, route_rest, dispatch, serve_http, verb_of}
use localaz.QueueServer.Unseen.{ErrorKeeps}
use localaz.QueueServer.Answers.{serve_http-Unseen}
use localaz.QueueServer.Paths.{messages_path, message_path}
use localaz.QueueServer.Receipts.{asked_number, asked_timeout, delete-get}
use localaz.Queue.Delivery.{lease_all, deliverable}

abbrev library : Library
library = record {
  unmarshal_message = λ body. some body;
  marshal_error = λ p. none;
  format_http = λ t. codes "then";
  fold_eq = λ a b. bytes_eq a b;
  lower = λ s. s;
  atoi = λ s. none;
}

abbrev acct : Bytes
acct = codes "acct"

abbrev jobs : Bytes
jobs = codes "jobs"

abbrev message : Message
message = record {
  id = codes "m1";
  text = codes "text";
  insertion_time = pos 5;
  expiration_time = pos 1000;
  next_visible = pos 5;
  pop_receipt = [];
  dequeue_count = 0;
}

abbrev queue : Queue
queue = record { name = jobs; metadata = []; messages = message ∷ [] }

abbrev accounts : Accounts
accounts = (acct, (jobs, queue) ∷ []) ∷ []

abbrev before : Store Accounts
before = record { accounts = accounts; file = some accounts }

abbrev at : ℕ → Env
at t = record {
  now = pos t;
  written = true;
  new_id = codes "id";
  new_pop_receipt = λ i. t ∷ i ∷ [];
}

abbrev receipt : Bytes
receipt = 10 ∷ 0 ∷ []

abbrev taken : Message
taken = leased (pos 10) default_visibility_timeout receipt message

abbrev get_request : Request
get_request = record {
  verb = codes "GET";
  path = messages_path acct jobs;
  base = codes "http://localhost";
  headers = [];
  query = λ name. [];
  body = ok [];
}

abbrev delete_request : Request
delete_request = record get_request {
  verb = codes "DELETE";
  path = message_path acct jobs (codes "m1");
  query = λ name. receipt;
}

valid_queue_name_lem_example : valid_queue_name (codes "a-1-b") ≡ (
    leb 3 (length (codes "a-1-b")) && leb (length (codes "a-1-b")) 63 && hyphenated (codes "a-1-b"))
valid_queue_name_lem_example = valid_queue_name_lem (codes "a-1-b")

serve_http-Unseen_example :
    ErrorKeeps (at 10) before (serve_http library plain (at 10) delete_request before)
serve_http-Unseen_example =
    serve_http-Unseen library plain (at 10) delete_request before (λ p. refl)

-- what the client sees of the message
abbrev seen : MessageView
seen = dequeued_view library taken

delete-get_example :
    ((serve_http library plain (at 10) get_request before).1 ≡ record (plain_response 200) {
      payload = messages_xml (
          map (dequeued_view library) (
            lease_all
              (pos 10)
              (asked_timeout library get_request)
              (at 10).new_pop_receipt
              0
              (take (asked_number library get_request) (deliverable (pos 10) queue.messages))));
    })
    × ((serve_http library plain
          (at 39)
          delete_request
          (serve_http library plain (at 10) get_request before).0).1
        ≡ plain_response 204)
    × (q' : Queue) × (find_queue acct jobs
          (serve_http library plain
            (at 39)
            delete_request
            (serve_http library plain (at 10) get_request before).0).0.accounts
        ≡ some q')
    × (find_message (codes "m1") q'.messages ≡ none)
unfolding dequeue lookup_locked find_queue evict_expired expired dequeue_loop leased lookup bytes_eq
    visible verb_of parse_int parse_seconds at_least_one serve_http route route_segments route_rest
    split trim_prefix_byte dispatch get_messages_handler answered marshalled dequeued_view
delete-get_example =
    delete-get library (λ p. refl) plain (at 10) (at 39) 97 106 109 (codes "cct") (codes "obs")
      (codes "1") get_request delete_request before queue (seen ∷ []) seen
      (Without-test 47 acct refl) (Without-test 47 jobs refl) (Without-test 47 (codes "m1") refl)
      refl refl refl refl refl (tt, tt) refl (Memᴰ.head refl) refl (refl, tt) refl refl refl
