-- ===== src/Queue/Tests.antt =====
-- Runs of the queue store, and its theorems at concrete inputs.
use mathlib.Core.Bool.{false≢true}
use mathlib.Core.List.{Memᴰ, Permᴰ}
use localaz.Common.{
  has_prefix, Bool, ltb, Bytes, codes, bytes_eq, ℕ, true, false, [], ◌∷◌, ◌≡◌, ◌≢◌, refl, none,
  some, arith, ok, err, ◌↔◌, take, keep, not, ◌&&◌, if◌then◌else◌, bytes_eq_iff,
}
use localaz.Common.Int.{pos, ◌+ℤ◌, ltb_int}
use localaz.Common.Dict.{insert, Dict, lookup, lookup-nil, NodupKeys}
use localaz.Common.Sort.{IsAscending}
use localaz.Common.Snapshot.{plain, plain-Carries, load}
use localaz.Queue.Types.{visible, queue_exists, Message, Queue, QueueInfo, expired}
use localaz.Queue.Messages.{evict_expired, leased, dequeue_loop}
use localaz.Queue.Store.{
  set_queue, Accounts, Store, Env, find_queue, same_metadata, lookup_locked, dequeue, peek,
  delete_message, create_queue, list_queues,
}
use localaz.Queue.Delivery.{lease_all, untaken, deliverable, dequeue-eq-lease_all, dequeue-dequeue}
use localaz.Queue.Receipts.{
  find_message, remove_first, authorised, if_ok, delete_message-eq-authorised,
  delete_message-dequeue,
}
use localaz.Queue.Metadata.{same_metadata_iff, create_queue_cases, create_queue_confuses_empty}
use localaz.Queue.Restart.{
  ValidAccounts, SameQueues, SameQueues-refl, IsDurable, run, start, next, call_dequeue, call_list,
  restart_invisible,
}
use localaz.Queue.Listing.{list_queues_order}

abbrev acct : Bytes
acct = codes "acct"

abbrev jobs : Bytes
jobs = codes "jobs"

abbrev message : ℕ → Bytes → Message
message born id = record {
  id = id;
  text = codes "text";
  insertion_time = pos born;
  expiration_time = pos 1000;
  next_visible = pos born;
  pop_receipt = [];
  dequeue_count = 0;
}

abbrev three : Queue
three = record {
  name = jobs;
  metadata = [];
  messages = message 5 (codes "a") ∷ message 90 (codes "b") ∷ message 7 (codes "c") ∷ [];
}

abbrev accounts : Accounts
accounts = (acct, (jobs, three) ∷ []) ∷ []

abbrev sample : Store Accounts
sample = record { accounts = accounts; file = some accounts }

abbrev at : ℕ → Env
at t = record {
  now = pos t;
  written = true;
  new_id = codes "id";
  new_pop_receipt = λ i. t ∷ i ∷ [];
}

found : find_queue acct jobs accounts ≡ some three
unfolding find_queue lookup bytes_eq
found = refl

-- "b" is not visible yet, so the two messages are "a" and "c"
dequeue_a_c :
    (dequeue plain (at 10) acct jobs 2 (pos 30) sample).1
    ≡ ok (
        leased (pos 10) (pos 30) (10 ∷ 0 ∷ []) (message 5 (codes "a"))
        ∷ leased (pos 10) (pos 30) (10 ∷ 1 ∷ []) (message 7 (codes "c"))
        ∷ [])
unfolding dequeue lookup_locked find_queue evict_expired expired dequeue_loop lookup bytes_eq
dequeue_a_c = refl

abbrev leased_a : Message
leased_a = leased (pos 10) (pos 30) (10 ∷ 0 ∷ []) (message 5 (codes "a"))

abbrev leased_c : Message
leased_c = leased (pos 10) (pos 30) (10 ∷ 1 ∷ []) (message 7 (codes "c"))

abbrev after_lease : Store Accounts
after_lease = (dequeue plain (at 10) acct jobs 2 (pos 30) sample).0

dequeue-eq-lease_all_example :
    ((dequeue plain (at 10) acct jobs 2 (pos 30) sample).1
      ≡ ok (
          lease_all
            (pos 10)
            (pos 30)
            (at 10).new_pop_receipt
            0
            (take 2 (deliverable (pos 10) three.messages))))
    × ((peek plain (at 10) acct jobs 2 sample).1
        ≡ ok (take 2 (deliverable (pos 10) three.messages)))
dequeue-eq-lease_all_example =
    dequeue-eq-lease_all plain (at 10) acct jobs 2 (pos 30) sample three found

hidden_until_40 : ltb_int (at 39).now ((at 10).now +ℤ pos 30) ≡ true
unfolding ◌+ℤ◌
hidden_until_40 = refl

dequeue-dequeue_example :
    (dequeue plain (at 39) acct jobs 5 (pos 30) after_lease).1
    ≡ ok (
        lease_all (pos 39) (pos 30) (at 39).new_pop_receipt 0 (
          take 5 (
            deliverable
              (pos 39)
              (untaken (pos 10) 2 (keep (λ m. not (expired (pos 10) m)) three.messages)))))
dequeue-dequeue_example =
    dequeue-dequeue plain (at 10) (at 39) acct jobs 2 5 (pos 30) (pos 30) sample three found
      hidden_until_40

a-ne-b : codes "a" ≢ codes "b"
a-ne-b e = false≢true (unfold bytes_eq in (bytes_eq_iff (codes "a") (codes "b")).1 e)

a-ne-c : codes "a" ≢ codes "c"
a-ne-c e = false≢true (unfold bytes_eq in (bytes_eq_iff (codes "a") (codes "c")).1 e)

b-ne-c : codes "b" ≢ codes "c"
b-ne-c e = false≢true (unfold bytes_eq in (bytes_eq_iff (codes "b") (codes "c")).1 e)

not_expired : expired (at 39).now leased_c ≡ false
unfolding expired leased
not_expired = refl

delete_message-dequeue_example :
    ((delete_message plain (at 39) acct jobs leased_c.id leased_c.pop_receipt after_lease).1
      ≡ ok tt)
    × (q' : Queue) × (find_queue acct jobs
          (delete_message plain
            (at 39)
            acct
            jobs
            leased_c.id
            leased_c.pop_receipt
            after_lease).0.accounts
        ≡ some q')
    × (find_message leased_c.id q'.messages ≡ none)
delete_message-dequeue_example =
    delete_message-dequeue plain (at 10) (at 39) acct jobs 2 (pos 30) sample three
      (leased_a ∷ leased_c ∷ []) leased_c found ((a-ne-b, (a-ne-c, tt)), ((b-ne-c, tt), (tt, tt)))
      dequeue_a_c (Memᴰ.tail (Memᴰ.head refl)) not_expired

delete_message-eq-authorised_example :
    ((delete_message plain (at 10) acct jobs (codes "a") (codes "bad") sample).1
      ≡ authorised
          (find_message (codes "a") (evict_expired (pos 10) three).messages)
          (codes "bad")
          tt)
    × (find_queue acct jobs
          (delete_message plain (at 10) acct jobs (codes "a") (codes "bad") sample).0.accounts
        ≡ some (record three {
          messages =
              if_ok
                (authorised
                  (find_message (codes "a") (evict_expired (pos 10) three).messages)
                  (codes "bad")
                  (remove_first (codes "a") (evict_expired (pos 10) three).messages))
                (evict_expired (pos 10) three).messages;
        }))
delete_message-eq-authorised_example =
    delete_message-eq-authorised plain (at 10) acct jobs (codes "a") (codes "bad") sample three
      found

abbrev env_meta : Dict Bytes
env_meta = (codes "a", codes "1") ∷ []

same_metadata_iff_example :
    (same_metadata env_meta env_meta ≡ true) ↔ ((k : Bytes) → lookup k env_meta ≡ lookup k env_meta)
same_metadata_iff_example =
    same_metadata_iff env_meta env_meta (lookup-nil (codes "a"), tt) (lookup-nil (codes "a"), tt)
      ((λ e. cc), tt)

create_queue_cases_example :
    ((create_queue plain (at 1) acct jobs [] sample).1 ≡ (elim (find_queue acct jobs accounts) [
      | some q ↦ if same_metadata q.metadata [] then ok false else err queue_exists
      | none ↦ ok true
    ]))
    × (find_queue acct jobs (create_queue plain (at 1) acct jobs [] sample).0.accounts ≡ (
        if bytes_eq acct acct && bytes_eq jobs jobs
        then (elim (find_queue acct jobs accounts) [
          | some q ↦ some q
          | none ↦ some (record { name = jobs; metadata = []; messages = [] })
        ])
        else find_queue acct jobs accounts))
create_queue_cases_example = create_queue_cases plain (at 1) acct jobs acct jobs [] sample

abbrev blank : Queue
blank = record { name = jobs; metadata = (codes "a", []) ∷ []; messages = [] }

abbrev blank_store : Store Accounts
blank_store = record { accounts = (acct, (jobs, blank) ∷ []) ∷ []; file = none }

blank_found : find_queue acct jobs blank_store.accounts ≡ some blank
unfolding find_queue lookup bytes_eq
blank_found = refl

create_queue_confuses_empty_example :
    ((create_queue plain (at 1) acct jobs ((codes "b", codes "2") ∷ []) blank_store).1 ≡ ok false)
    × (lookup (codes "b") blank.metadata ≢ lookup (codes "b") ((codes "b", codes "2") ∷ []))
create_queue_confuses_empty_example =
    create_queue_confuses_empty plain (at 1) acct jobs (codes "a") (codes "b") (codes "2")
      blank_store blank a-ne-b blank_found refl

abbrev listed_store : Store Accounts
listed_store =
    run plain (at 2000) acct [] call_list
      (run plain (at 10) acct jobs (call_dequeue 2 (pos 30)) sample)

-- texts of one byte to a character
abbrev is_ascii : Bytes → Bool
is_ascii [] = true
is_ascii (c ∷ s) = ltb c 128 && is_ascii s

abbrev dequeued_store : Store Accounts
dequeued_store = run plain (at 10) acct jobs (call_dequeue 2 (pos 30)) sample

dequeued-Valid : ValidAccounts is_ascii dequeued_store.accounts
unfolding run dequeue lookup_locked find_queue evict_expired expired dequeue_loop visible leased
    set_queue lookup insert bytes_eq ◌+ℤ◌
dequeued-Valid = (
  (refl, tt),
  (
    (
      refl,
      (
        (refl, tt),
        (
          (
            refl,
            (
              refl,
              tt,
              tt,
              (
                (refl, refl, refl, omega arith, omega arith, omega arith, omega arith),
                (
                  (refl, refl, refl, omega arith, omega arith, omega arith, omega arith),
                  ((refl, refl, refl, omega arith, omega arith, omega arith, omega arith), tt),
                ),
              ),
            ),
          ),
          tt,
        ),
      ),
    ),
    tt,
  ),
)

listed-Valid : ValidAccounts is_ascii listed_store.accounts
unfolding run dequeue lookup_locked find_queue evict_expired expired dequeue_loop visible leased
    set_queue lookup insert bytes_eq list_queues has_prefix
listed-Valid = ((refl, tt), ((refl, ((refl, tt), ((refl, (refl, tt, tt, tt)), tt))), tt))

restart_invisible_example : IsDurable plain (pos 2000) listed_store
unfolding load
restart_invisible_example =
    restart_invisible plain is_ascii (pos 10) sample (pos 2000) listed_store
      (plain-Carries (ValidAccounts is_ascii) SameQueues SameQueues-refl) refl
      (next (at 2000) acct [] call_list
        (next (at 10) acct jobs (call_dequeue 2 (pos 30)) start (omega arith) refl dequeued-Valid)
        (omega arith) refl listed-Valid)

abbrev two_queues : Dict Queue
two_queues = (jobs, three) ∷ (codes "a", blank) ∷ []

abbrev swapped : Dict Queue
swapped = (codes "a", blank) ∷ (jobs, three) ∷ []

abbrev store_of : Dict Queue → Store Accounts
store_of qs = record { accounts = (acct, qs) ∷ []; file = none }

found_account : (qs : Dict Queue) → lookup acct (store_of qs).accounts ≡ some qs
unfolding lookup bytes_eq
found_account qs = refl

jobs_once : NodupKeys two_queues
unfolding lookup bytes_eq
jobs_once = (refl, (refl, tt))

list_queues_order_example :
    ((list_queues plain (at 1) acct [] (store_of two_queues)).1
      ≡ (list_queues plain (at 1) acct [] (store_of swapped)).1)
    × IsAscending
        (λ (i : QueueInfo). i.name)
        (list_queues plain (at 1) acct [] (store_of two_queues)).1
list_queues_order_example =
    list_queues_order plain (at 1) acct [] (store_of two_queues) (store_of swapped) two_queues
      swapped (found_account two_queues) (found_account swapped) jobs_once (Permᴰ.swap refl refl)
