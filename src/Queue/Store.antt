-- ===== src/Queue/Store.antt =====
-- internal/stores/queuestore: the store's state and its operations, each under the store's mutex.
use localaz.Common.{
  Bytes, ℕ, Bool, true, false, not, ◌&&◌, ◌||◌, ◌==◌, List, [], ◌∷◌, ◌++◌, Option, none, some, map,
  length, bytes_eq, has_prefix, keep, Result, ok, err, if◌then◌else◌,
}
use localaz.Common.Int.{ℤ, ◌+ℤ◌}
use localaz.Common.Dict.{Dict, lookup, insert, erase}
use localaz.Common.Sort.{sort_by}
use localaz.Common.Snapshot.{Codec, persist}
use localaz.Queue.Types.{Error, queue_not_found, queue_exists, Time, Message, Queue, QueueInfo}
use localaz.Queue.Messages.{
  evict_expired, new_message, dequeue_loop, peek_loop, delete_loop, update_loop,
}

abbrev pub Accounts : Type 0
Accounts = Dict (Dict Queue)

pub record Store (D : Type 0) : Type 0 where
  pub accounts : Accounts
  pub file : Option D

-- What a call takes from outside: the clock, whether its write of the snapshot succeeds, and the
-- random ids and pop receipts that it draws.
pub record Env : Type 0 where
  pub now : Time
  pub written : Bool
  pub new_id : Bytes
  pub new_pop_receipt : ℕ → Bytes

-- `m[k]` of a map of maps, where a missing map reads as an empty one
abbrev pub queues_of : Bytes → Accounts → Dict Queue
queues_of account accounts = elim (lookup account accounts) [ none ↦ [] | some qs ↦ qs ]

unfoldable pub find_queue : Bytes → Bytes → Accounts → Option Queue
find_queue account name accounts = lookup name (queues_of account accounts)

unfoldable pub set_queue : Bytes → Bytes → Queue → Accounts → Accounts
set_queue account name q accounts =
    insert account (insert name q (queues_of account accounts)) accounts

-- a: the metadata that is stored, b: the metadata of the request; a missing key reads as ""
unfoldable pub value_at : Bytes → Dict Bytes → Bytes
value_at k b = elim (lookup k b) [ none ↦ [] | some v ↦ v ]

unfoldable pub same_entries : Dict Bytes → Dict Bytes → Bool
unfolding value_at
same_entries [] b = true
same_entries ((k, v) ∷ a) b = bytes_eq (value_at k b) v && same_entries a b

unfoldable pub same_metadata : Dict Bytes → Dict Bytes → Bool
unfolding same_entries
same_metadata a b = if length a == length b then same_entries a b else false

unfoldable pub info_of : Bytes → Queue → QueueInfo
info_of name q = record {
  name = name;
  metadata = q.metadata;
  approximate_count = length q.messages;
}

-- the `range` loop of `ListQueues` visits a queue whose name has the prefix
abbrev pub listed : Bytes → Bytes × Queue → Bool
listed prefix (name, q) = bytes_eq prefix [] || has_prefix name prefix

abbrev pub evict_listed : Env → Bytes → Bytes × Queue → Bytes × Queue
evict_listed env prefix (name, q) =
    if listed prefix (name, q) then (name, evict_expired env.now q) else (name, q)

abbrev pub entry_info : Bytes × Queue → QueueInfo
entry_info (name, q) = info_of name q

module _ {D : Type 0} (c : Codec D Accounts) where
  -- `persistLocked`
  abbrev pub persist_locked : Env → Store D → Store D
  persist_locked env s = record s { file = persist c env.written s.accounts s.file }

  -- `q` after a change in place, and the snapshot written
  abbrev pub save : Env → Bytes → Bytes → Queue → Store D → Store D
  save env account name q s =
      persist_locked env (record s { accounts = set_queue account name q s.accounts })

  -- `lookupLocked`: the queue with its expired messages evicted, and the store that holds it
  unfoldable pub lookup_locked : Env → Bytes → Bytes → Store D → Option (Queue × Store D)
  lookup_locked env account name s = elim (find_queue account name s.accounts) [
    | none ↦ none
    | some q ↦
        let q' = evict_expired env.now q in
        some (q', record s { accounts = set_queue account name q' s.accounts })
  ]

  unfoldable pub enqueue :
      Env → Bytes → Bytes → Bytes → ℤ → ℤ → Store D → Store D × Result Error Message
  enqueue env account name text timeout ttl s = elim (lookup_locked env account name s) [
    | none ↦ (s, err queue_not_found)
    | some (q, s') ↦
        let m = new_message env.new_id text env.now timeout ttl in
        (save env account name (record q { messages = q.messages ++ m ∷ [] }) s', ok m)
  ]

  unfoldable pub dequeue :
      Env → Bytes → Bytes → ℕ → ℤ → Store D → Store D × Result Error (List Message)
  dequeue env account name num timeout s = elim (lookup_locked env account name s) [
    | none ↦ (s, err queue_not_found)
    | some (q, s') ↦
        let (ms, out) = dequeue_loop env.now timeout env.new_pop_receipt num 0 q.messages in
        let q' = record q { messages = ms } in
        let s'' = record s' { accounts = set_queue account name q' s'.accounts } in
        ((if length out == 0 then s'' else persist_locked env s''), ok out)
  ]

  unfoldable pub peek : Env → Bytes → Bytes → ℕ → Store D → Store D × Result Error (List Message)
  peek env account name num s = elim (lookup_locked env account name s) [
    | none ↦ (s, err queue_not_found)
    | some (q, s') ↦ (s', ok (peek_loop env.now num 0 q.messages))
  ]

  unfoldable pub delete_message :
      Env → Bytes → Bytes → Bytes → Bytes → Store D → Store D × Result Error (Unit {0})
  delete_message env account name id receipt s = elim (lookup_locked env account name s) [
    | none ↦ (s, err queue_not_found)
    | some (q, s') ↦ elim (delete_loop id receipt q.messages) [
      | ok ms ↦ (save env account name (record q { messages = ms }) s', ok tt)
      | err e ↦ (s', err e)
    ]
  ]

  unfoldable pub update_message :
      Env
      → Bytes
      → Bytes
      → Bytes
      → Bytes
      → Bytes
      → ℤ
      → Store D
      → Store D × Result Error (Bytes × Time)
  update_message env account name id receipt text timeout s =
      let fresh = env.new_pop_receipt 0 in
      elim (lookup_locked env account name s) [
        | none ↦ (s, err queue_not_found)
        | some (q, s') ↦ elim (update_loop env.now timeout fresh id receipt text q.messages) [
          | ok ms ↦ (
            save env account name (record q { messages = ms }) s',
            ok (fresh, env.now +ℤ timeout),
          )
          | err e ↦ (s', err e)
        ]
      ]

  unfoldable pub clear_messages : Env → Bytes → Bytes → Store D → Store D × Result Error (Unit {0})
  clear_messages env account name s = elim (lookup_locked env account name s) [
    | none ↦ (s, err queue_not_found)
    | some (q, s') ↦ (save env account name (record q { messages = [] }) s', ok tt)
  ]

  unfoldable pub create_queue :
      Env → Bytes → Bytes → Dict Bytes → Store D → Store D × Result Error Bool
  create_queue env account name metadata s =
      let qs = queues_of account s.accounts in
      let s' = record s { accounts = insert account qs s.accounts } in
      elim (lookup name qs) [
        | some existing ↦
            if not (same_metadata existing.metadata metadata)
            then (s', err queue_exists)
            else (s', ok false)
        | none ↦ (
          save env account name (record { name = name; metadata = metadata; messages = [] }) s',
          ok true,
        )
      ]

  unfoldable pub delete_queue : Env → Bytes → Bytes → Store D → Store D × Result Error (Unit {0})
  delete_queue env account name s =
      let qs = queues_of account s.accounts in
      elim (lookup name qs) [
        | none ↦ (s, err queue_not_found)
        | some q ↦ (
          persist_locked env (record s { accounts = insert account (erase name qs) s.accounts }),
          ok tt,
        )
      ]

  unfoldable pub get_metadata : Env → Bytes → Bytes → Store D → Store D × Result Error QueueInfo
  unfolding info_of
  get_metadata env account name s = elim (lookup_locked env account name s) [
    | none ↦ (s, err queue_not_found)
    | some (q, s') ↦ (s', ok (info_of name q))
  ]

  unfoldable pub set_metadata :
      Env → Bytes → Bytes → Dict Bytes → Store D → Store D × Result Error (Unit {0})
  set_metadata env account name metadata s = elim (lookup_locked env account name s) [
    | none ↦ (s, err queue_not_found)
    | some (q, s') ↦ (save env account name (record q { metadata = metadata }) s', ok tt)
  ]

  unfoldable pub list_queues : Env → Bytes → Bytes → Store D → Store D × List QueueInfo
  unfolding info_of
  list_queues env account prefix s = elim (lookup account s.accounts) [
    | none ↦ (s, [])
    | some qs ↦
        let qs' = map (evict_listed env prefix) qs in
        (
          record s { accounts = insert account qs' s.accounts },
          sort_by (λ (i : QueueInfo). i.name) (map entry_info (keep (listed prefix) qs')),
        )
  ]
