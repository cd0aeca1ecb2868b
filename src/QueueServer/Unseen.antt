-- ===== src/QueueServer/Unseen.antt =====
-- internal/servers/queueserver: the calls of the store whose error a handler answers.
use localaz.Common.{
  Bytes, ℕ, none, Result, ok, err, ◌≡◌, refl, Bool-cases, Option-cases, Result-cases, inl, inr, ◌⊎◌,
}
use localaz.Common.Int.{ℤ}
use localaz.Common.Dict.{Dict, lookup, insert}
use localaz.Common.Snapshot.{Codec}
use localaz.Queue.Types.{Error}
use localaz.Queue.Messages.{delete_loop, update_loop}
use localaz.Queue.Store.{
  Accounts, Store, Env, queues_of, same_metadata, enqueue, dequeue, peek, delete_message,
  update_message, clear_messages, create_queue, delete_queue, get_metadata, set_metadata,
  list_queues,
}
use localaz.Queue.Metadata.{find_queue-touch}
use localaz.Queue.Durability.{SameFrom, lookup_locked_cases, SameFrom-list}
use localaz.QueueServer.Http.{Request, Response, Library}
use localaz.QueueServer.Handlers.{answered}

module _ {D : Type 0} (env : Env) where
  -- no snapshot was written, and the queues are the same to whoever asks from now on
  abbrev pub Unseen : Store D → Store D → Type 0
  Unseen s after = (after.file ≡ s.file) × SameFrom env.now s.accounts after.accounts

  -- a call of the store that fails
  unfoldable pub KeepsOnError : {A : Type 0} → Store D → Store D × Result Error A → Type 0
  KeepsOnError s (after, ok a) = Unit
  KeepsOnError s (after, err e) = Unseen s after

  -- the answer is no error, or the change cannot be seen
  abbrev pub ErrorKeeps : Store D → Store D × Response → Type 0
  ErrorKeeps s (after, response) = (response.error_code ≡ none) ⊎ Unseen s after

  pub Unseen-refl : (s : Store D) → Unseen s s
  Unseen-refl s = (refl, λ later a n h. refl)

  pub answered-Keeps :
      {A : Type 0} (lib : Library) (s : Store D) (r : Request) (p : Store D × Result Error A)
      (good : A → Response)
      → KeepsOnError s p
      → ((a : A) → (good a).error_code ≡ none)
      → ErrorKeeps s (answered lib r p good)
  unfolding KeepsOnError answered
  answered-Keeps lib s r (after, ok a) good h k = inl (k a)
  answered-Keeps lib s r (after, err e) good h k = inr h

  module _ (c : Codec D Accounts) where
    pub enqueue-Keeps :
        (a n text : Bytes) (timeout ttl : ℤ) (s : Store D)
        → KeepsOnError s (enqueue c env a n text timeout ttl s)
    unfolding enqueue KeepsOnError
    enqueue-Keeps a n text timeout ttl s = elim (lookup_locked_cases c env a n s) [
      | inl e ↦ rw (e, enqueue) (Unseen-refl s)
      | inr (q, s', e, f, v, w) ↦ rw (e, enqueue) tt
    ]

    pub dequeue-Keeps :
        (a n : Bytes) (num : ℕ) (timeout : ℤ) (s : Store D)
        → KeepsOnError s (dequeue c env a n num timeout s)
    unfolding dequeue KeepsOnError
    dequeue-Keeps a n num timeout s = elim (lookup_locked_cases c env a n s) [
      | inl e ↦ rw (e, dequeue) (Unseen-refl s)
      | inr (q, s', e, f, v, w) ↦ rw (e, dequeue) tt
    ]

    pub peek-Keeps : (a n : Bytes) (num : ℕ) (s : Store D) → KeepsOnError s (peek c env a n num s)
    unfolding peek KeepsOnError
    peek-Keeps a n num s = elim (lookup_locked_cases c env a n s) [
      | inl e ↦ rw (e, peek) (Unseen-refl s)
      | inr (q, s', e, f, v, w) ↦ rw (e, peek) tt
    ]

    pub clear_messages-Keeps :
        (a n : Bytes) (s : Store D) → KeepsOnError s (clear_messages c env a n s)
    unfolding clear_messages KeepsOnError
    clear_messages-Keeps a n s = elim (lookup_locked_cases c env a n s) [
      | inl e ↦ rw (e, clear_messages) (Unseen-refl s)
      | inr (q, s', e, f, v, w) ↦ rw (e, clear_messages) tt
    ]

    pub get_metadata-Keeps : (a n : Bytes) (s : Store D) → KeepsOnError s (get_metadata c env a n s)
    unfolding get_metadata KeepsOnError
    get_metadata-Keeps a n s = elim (lookup_locked_cases c env a n s) [
      | inl e ↦ rw (e, get_metadata) (Unseen-refl s)
      | inr (q, s', e, f, v, w) ↦ rw (e, get_metadata) tt
    ]

    pub set_metadata-Keeps :
        (a n : Bytes) (metadata : Dict Bytes) (s : Store D)
        → KeepsOnError s (set_metadata c env a n metadata s)
    unfolding set_metadata KeepsOnError
    set_metadata-Keeps a n metadata s = elim (lookup_locked_cases c env a n s) [
      | inl e ↦ rw (e, set_metadata) (Unseen-refl s)
      | inr (q, s', e, f, v, w) ↦ rw (e, set_metadata) tt
    ]

    pub delete_message-Keeps :
        (a n id receipt : Bytes) (s : Store D)
        → KeepsOnError s (delete_message c env a n id receipt s)
    unfolding delete_message KeepsOnError
    delete_message-Keeps a n id receipt s = elim (lookup_locked_cases c env a n s) [
      | inl e ↦ rw (e, delete_message) (Unseen-refl s)
      | inr (q, s', e, f, v, w) ↦ elim (Result-cases (delete_loop id receipt q.messages)) [
        | inl (ms, o) ↦ rw (e, delete_message) (rw o tt)
        | inr (x, o) ↦ rw (e, delete_message) (rw o (f, v))
      ]
    ]

    pub update_message-Keeps :
        (a n id receipt text : Bytes) (timeout : ℤ) (s : Store D)
        → KeepsOnError s (update_message c env a n id receipt text timeout s)
    unfolding update_message KeepsOnError
    update_message-Keeps a n id receipt text timeout s =
        let fresh = env.new_pop_receipt 0 in
        elim (lookup_locked_cases c env a n s) [
          | inl e ↦ rw (e, update_message) (Unseen-refl s)
          | inr (q, s', e, f, v, w) ↦
              elim (Result-cases (update_loop env.now timeout fresh id receipt text q.messages)) [
                | inl (ms, o) ↦ rw (e, update_message) (rw o tt)
                | inr (x, o) ↦ rw (e, update_message) (rw o (f, v))
              ]
        ]

    pub create_queue-Keeps :
        (a n : Bytes) (metadata : Dict Bytes) (s : Store D)
        → KeepsOnError s (create_queue c env a n metadata s)
    unfolding create_queue KeepsOnError
    create_queue-Keeps a n metadata s = elim (Option-cases (lookup n (queues_of a s.accounts))) [
      | inl e ↦ rw (e, create_queue) tt
      | inr (q, e) ↦ elim (Bool-cases (same_metadata q.metadata metadata)) [
        | inl same ↦ rw (e, create_queue) (rw same tt)
        | inr other ↦ rw (e, create_queue) (rw other (refl, touched))
      ]
    ]
      where
        touched : SameFrom env.now s.accounts (insert a (queues_of a s.accounts) s.accounts)
        touched later a' n' h = rw find_queue-touch

    pub delete_queue-Keeps : (a n : Bytes) (s : Store D) → KeepsOnError s (delete_queue c env a n s)
    unfolding delete_queue KeepsOnError
    delete_queue-Keeps a n s = elim (Option-cases (lookup n (queues_of a s.accounts))) [
      | inl e ↦ rw (e, delete_queue) (Unseen-refl s)
      | inr (q, e) ↦ rw (e, delete_queue) tt
    ]

    pub list_queues-Unseen :
        (a prefix : Bytes) (s : Store D) → Unseen s (list_queues c env a prefix s).0
    unfolding list_queues
    list_queues-Unseen a prefix s = elim (Option-cases (lookup a s.accounts)) [
      | inl e ↦ rw (e, list_queues) (Unseen-refl s)
      | inr (qs, e) ↦ rw (e, list_queues) (refl, SameFrom-list env a prefix qs s.accounts e)
    ]
