-- ===== src/Queue/Durability.antt =====
-- A restart reads the snapshot file back: what clients can see is as it was.
use localaz.Common.{
  Bytes, ℕ, true, not, List, [], ◌∷◌, ◌≡◌, refl, Option, none, some, arith, map, keep, length,
  bytes_eq_iff, ◌∙◌, ap, ◌⊎◌, inl, inr, Option-cases, Result-cases, Bool-cases, ◌==◌,
}
use localaz.Common.Int.{ℤ, ◌≤ℤ◌}
use localaz.Common.Dict.{Dict, lookup, insert, lookup-insert}
use localaz.Common.Snapshot.{Codec, persist}
use localaz.Queue.Types.{Time, Message, Queue, expired}
use localaz.Queue.Messages.{evict_expired, dequeue_loop, delete_loop, update_loop}
use localaz.Queue.Store.{
  Accounts, Store, Env, find_queue, set_queue, queues_of, evict_listed, lookup_locked, enqueue,
  dequeue, peek, delete_message, update_message, clear_messages, create_queue, delete_queue,
  same_metadata, get_metadata, set_metadata, list_queues,
}
use localaz.Queue.Metadata.{find_queue-touch}
use localaz.Queue.Delivery.{find_queue-set_queue, find_queue-set_queue_self}

expired_mono :
    (now later : Time) (m : Message) → now ≤ℤ later → expired now m ≡ true → expired later m ≡ true
unfolding expired
expired_mono now later m h e = ground arith

keep_later :
    (now later : Time) (ms : List Message)
    → now ≤ℤ later
    → keep (λ m. not (expired later m)) (keep (λ m. not (expired now m)) ms)
      ≡ keep (λ m. not (expired later m)) ms
keep_later now later [] h = refl
keep_later now later (m ∷ ms) h =
    ground (arith, keep_later now later ms h, expired_mono now later m h)

evict-evict :
    (now later : Time) (q : Queue)
    → now ≤ℤ later
    → evict_expired later (evict_expired now q) ≡ evict_expired later q
unfolding evict_expired
evict-evict now later q h =
    ap (λ (ms : List Message). record q { messages = ms }) (keep_later now later q.messages h)

abbrev pub seen : Time → Option Queue → Option Queue
seen now none = none
seen now (some q) = some (evict_expired now q)

-- What a client can see at an instant of the queue under a name.
abbrev pub view : Time → Bytes → Bytes → Accounts → Option Queue
view now a n s = seen now (find_queue a n s)

-- The same queues, to any client that asks at `now` or later.
abbrev pub SameFrom : Time → Accounts → Accounts → Type 0
SameFrom now x y = (later : Time) (a n : Bytes) → now ≤ℤ later → view later a n x ≡ view later a n y

SameFrom-set_queue :
    (now : Time) (a n : Bytes) (q : Queue) (s : Accounts)
    → find_queue a n s ≡ some q
    → SameFrom now s (set_queue a n (evict_expired now q) s)
SameFrom-set_queue now a n q s h later a' n' le = ground (
  arith,
  find_queue-set_queue a n a' n' (evict_expired now q) s,
  evict-evict now later q le,
  bytes_eq_iff a a',
  bytes_eq_iff n n',
)

SameFrom-set_same :
    (now : Time) (a n : Bytes) (q : Queue) (s : Accounts)
    → find_queue a n s ≡ some q
    → SameFrom now s (set_queue a n q s)
SameFrom-set_same now a n q s h later a' n' le =
    ground (arith, find_queue-set_queue a n a' n' q s, bytes_eq_iff a a', bytes_eq_iff n n')

SameFrom-trans :
    (now : Time) (x y z : Accounts) → SameFrom now x y → SameFrom now y z → SameFrom now x z
SameFrom-trans now x y z h k later a n le = h later a n le ∙ k later a n le

pub le_trans_int : (x y z : ℤ) → x ≤ℤ y → y ≤ℤ z → x ≤ℤ z
le_trans_int x y z h k = omega arith

lookup-evict_listed :
    (env : Env) (prefix n : Bytes) (later : Time) (qs : Dict Queue)
    → env.now ≤ℤ later
    → seen later (lookup n (map (evict_listed env prefix) qs)) ≡ seen later (lookup n qs)
unfolding lookup
lookup-evict_listed env prefix n later [] h = refl
lookup-evict_listed env prefix n later ((k, q) ∷ qs) h =
    ground (arith, evict-evict env.now later q h, lookup-evict_listed env prefix n later qs h)

pub SameFrom-list :
    (env : Env) (a prefix : Bytes) (qs : Dict Queue) (s : Accounts)
    → lookup a s ≡ some qs
    → SameFrom env.now s (insert a (map (evict_listed env prefix) qs) s)
unfolding find_queue
SameFrom-list env a prefix qs s e later a' n le = ground (
  arith,
  lookup-insert a' a (map (evict_listed env prefix) qs) s,
  lookup-evict_listed env prefix n later qs le,
  bytes_eq_iff a a',
)

module _ {D : Type 0} (c : Codec D Accounts) where
  -- A call either writes the snapshot, or only evicts what has expired.
  abbrev pub Kept : Env → Store D → Store D → Type 0
  Kept env s s' =
      (s'.file ≡ persist c env.written s'.accounts s.file)
      ⊎ ((s'.file ≡ s.file) × SameFrom env.now s.accounts s'.accounts)

  pub lookup_locked_cases :
      (env : Env) (a n : Bytes) (s : Store D)
      → (lookup_locked c env a n s ≡ none)
        ⊎ ((q : Queue) × (s' : Store D) × (lookup_locked c env a n s ≡ some (q, s'))
            × (s'.file ≡ s.file)
            × SameFrom env.now s.accounts s'.accounts
            × (find_queue a n s'.accounts ≡ some q))
  unfolding lookup_locked
  lookup_locked_cases env a n s = elim (Option-cases (find_queue a n s.accounts)) [
    | inl e ↦ inl (rw (e, lookup_locked))
    | inr (q, e) ↦ inr (
      evict_expired env.now q,
      record s { accounts = set_queue a n (evict_expired env.now q) s.accounts },
      rw (e, lookup_locked),
      refl,
      SameFrom-set_queue env.now a n q s.accounts e,
      find_queue-set_queue_self a n (evict_expired env.now q) s.accounts,
    )
  ]

  Kept-refl : (env : Env) (s : Store D) → Kept env s s
  Kept-refl env s = inr (refl, λ later a n h. refl)

  pub enqueue-Kept :
      (env : Env) (a n text : Bytes) (timeout ttl : ℤ) (s : Store D)
      → Kept env s (enqueue c env a n text timeout ttl s).0
  unfolding enqueue
  enqueue-Kept env a n text timeout ttl s = elim (lookup_locked_cases env a n s) [
    | inl e ↦ rw (e, enqueue) (Kept-refl env s)
    | inr (q, s', e, f, v, w) ↦ rw (e, enqueue) (inl (ap (persist c env.written _) f))
  ]

  pub clear_messages-Kept :
      (env : Env) (a n : Bytes) (s : Store D) → Kept env s (clear_messages c env a n s).0
  unfolding clear_messages
  clear_messages-Kept env a n s = elim (lookup_locked_cases env a n s) [
    | inl e ↦ rw (e, clear_messages) (Kept-refl env s)
    | inr (q, s', e, f, v, w) ↦ rw (e, clear_messages) (inl (ap (persist c env.written _) f))
  ]

  pub set_metadata-Kept :
      (env : Env) (a n : Bytes) (metadata : Dict Bytes) (s : Store D)
      → Kept env s (set_metadata c env a n metadata s).0
  unfolding set_metadata
  set_metadata-Kept env a n metadata s = elim (lookup_locked_cases env a n s) [
    | inl e ↦ rw (e, set_metadata) (Kept-refl env s)
    | inr (q, s', e, f, v, w) ↦ rw (e, set_metadata) (inl (ap (persist c env.written _) f))
  ]

  pub peek-Kept :
      (env : Env) (a n : Bytes) (num : ℕ) (s : Store D) → Kept env s (peek c env a n num s).0
  unfolding peek
  peek-Kept env a n num s = elim (lookup_locked_cases env a n s) [
    | inl e ↦ rw (e, peek) (Kept-refl env s)
    | inr (q, s', e, f, v, w) ↦ rw (e, peek) (inr (f, v))
  ]

  pub get_metadata-Kept :
      (env : Env) (a n : Bytes) (s : Store D) → Kept env s (get_metadata c env a n s).0
  unfolding get_metadata
  get_metadata-Kept env a n s = elim (lookup_locked_cases env a n s) [
    | inl e ↦ rw (e, get_metadata) (Kept-refl env s)
    | inr (q, s', e, f, v, w) ↦ rw (e, get_metadata) (inr (f, v))
  ]

  pub delete_message-Kept :
      (env : Env) (a n id receipt : Bytes) (s : Store D)
      → Kept env s (delete_message c env a n id receipt s).0
  unfolding delete_message
  delete_message-Kept env a n id receipt s = elim (lookup_locked_cases env a n s) [
    | inl e ↦ rw (e, delete_message) (Kept-refl env s)
    | inr (q, s', e, f, v, w) ↦ elim (Result-cases (delete_loop id receipt q.messages)) [
      | inl (ms, o) ↦ rw (e, delete_message) (rw o (inl (ap (persist c env.written _) f)))
      | inr (x, o) ↦ rw (e, delete_message) (rw o (inr (f, v)))
    ]
  ]

  pub update_message-Kept :
      (env : Env) (a n id receipt text : Bytes) (timeout : ℤ) (s : Store D)
      → Kept env s (update_message c env a n id receipt text timeout s).0
  unfolding update_message
  update_message-Kept env a n id receipt text timeout s =
      let fresh = env.new_pop_receipt 0 in
      elim (lookup_locked_cases env a n s) [
        | inl e ↦ rw (e, update_message) (Kept-refl env s)
        | inr (q, s', e, f, v, w) ↦
            elim (Result-cases (update_loop env.now timeout fresh id receipt text q.messages)) [
              | inl (ms, o) ↦ rw (e, update_message) (rw o (inl (ap (persist c env.written _) f)))
              | inr (x, o) ↦ rw (e, update_message) (rw o (inr (f, v)))
            ]
      ]

  -- a loop that hands out nothing changes nothing
  dequeue_loop_idle :
      (now : Time) (timeout : ℤ) (receipt : ℕ → Bytes) (num taken : ℕ) (ms : List Message)
      → length (dequeue_loop now timeout receipt num taken ms).1 ≡ 0
      → (dequeue_loop now timeout receipt num taken ms).0 ≡ ms
  unfolding dequeue_loop
  dequeue_loop_idle now timeout receipt num taken [] h = refl
  dequeue_loop_idle now timeout receipt num taken (m ∷ ms) h =
      ground (arith, dequeue_loop_idle now timeout receipt num taken ms)

  pub dequeue-Kept :
      (env : Env) (a n : Bytes) (num : ℕ) (timeout : ℤ) (s : Store D)
      → Kept env s (dequeue c env a n num timeout s).0
  unfolding dequeue
  dequeue-Kept env a n num timeout s =
      let loop = λ (q : Queue). dequeue_loop env.now timeout env.new_pop_receipt num 0 q.messages in
      elim (lookup_locked_cases env a n s) [
        | inl e ↦ rw (e, dequeue) (Kept-refl env s)
        | inr (q, s', e, f, v, w) ↦ elim (Bool-cases (length (loop q).1 == 0)) [
          | inl idle ↦ rw (e, dequeue) (rw idle (inr (f, idle_same q s' v w idle)))
          | inr busy ↦ rw (e, dequeue) (rw busy (inl (ap (persist c env.written _) f)))
        ]
      ]
    where
      idle_same :
          (q : Queue) (s' : Store D)
          → SameFrom env.now s.accounts s'.accounts
          → find_queue a n s'.accounts ≡ some q
          → (length (dequeue_loop env.now timeout env.new_pop_receipt num 0 q.messages).1 == 0)
            ≡ true
          → SameFrom env.now s.accounts (
              set_queue a n
                (record q {
                  messages = (dequeue_loop env.now timeout env.new_pop_receipt num 0 q.messages).0;
                })
                s'.accounts)
      idle_same q s' v w idle =
          rw (dequeue_loop_idle env.now timeout env.new_pop_receipt num 0 q.messages (ground arith))
            (SameFrom-trans _ _ _ _ v (SameFrom-set_same env.now a n q s'.accounts w))

  pub create_queue-Kept :
      (env : Env) (a n : Bytes) (metadata : Dict Bytes) (s : Store D)
      → Kept env s (create_queue c env a n metadata s).0
  unfolding create_queue
  create_queue-Kept env a n metadata s = elim (Option-cases (lookup n (queues_of a s.accounts))) [
    | inl e ↦ rw (e, create_queue) (inl refl)
    | inr (q, e) ↦ elim (Bool-cases (same_metadata q.metadata metadata)) [
      | inl same ↦ rw (e, create_queue) (rw same (inr (refl, touched)))
      | inr other ↦ rw (e, create_queue) (rw other (inr (refl, touched)))
    ]
  ]
    where
      touched : SameFrom env.now s.accounts (insert a (queues_of a s.accounts) s.accounts)
      touched later a' n' h = rw find_queue-touch

  pub delete_queue-Kept :
      (env : Env) (a n : Bytes) (s : Store D) → Kept env s (delete_queue c env a n s).0
  unfolding delete_queue
  delete_queue-Kept env a n s = elim (Option-cases (lookup n (queues_of a s.accounts))) [
    | inl e ↦ rw (e, delete_queue) (Kept-refl env s)
    | inr (q, e) ↦ rw (e, delete_queue) (inl refl)
  ]

  pub list_queues-Kept :
      (env : Env) (a prefix : Bytes) (s : Store D) → Kept env s (list_queues c env a prefix s).0
  unfolding list_queues
  list_queues-Kept env a prefix s = elim (Option-cases (lookup a s.accounts)) [
    | inl e ↦ rw (e, list_queues) (Kept-refl env s)
    | inr (qs, e) ↦ rw (e, list_queues) (inr (refl, SameFrom-list env a prefix qs s.accounts e))
  ]
