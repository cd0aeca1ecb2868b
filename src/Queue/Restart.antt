-- ===== src/Queue/Restart.antt =====
-- Sequences of calls on the queue store, and what a restart after them reads back.
use mathlib.Core.Path.{subst}
use localaz.Common.{
  ap, keep, not, All, Bool, Option, none, ◌<◌, ◌^◌, ◌*◌, Bytes, ℕ, true, [], ◌≡◌, refl, some, inl,
  inr,
}
use localaz.Common.Int.{ℤ, pos, negsuc, ◌≤ℤ◌}
use localaz.Common.Dict.{Dict, lookup, NodupKeys}
use localaz.Common.Snapshot.{Codec, Carries, load, load-persist}
use localaz.Queue.Types.{Time, Message, Queue, expired}
use localaz.Queue.Messages.{second, evict_expired}
use localaz.Queue.Store.{
  Accounts, Store, Env, enqueue, dequeue, peek, delete_message, update_message, clear_messages,
  create_queue, delete_queue, get_metadata, set_metadata, list_queues, find_queue,
}
use localaz.Queue.Durability.{
  Kept, seen, view, le_trans_int, enqueue-Kept, clear_messages-Kept, set_metadata-Kept, peek-Kept,
  get_metadata-Kept, delete_message-Kept, update_message-Kept, dequeue-Kept, create_queue-Kept,
  delete_queue-Kept, list_queues-Kept,
}

-- The requests that the HTTP layer makes of the store.
pub data Call : Type 0 where
  call_enqueue : Bytes → ℤ → ℤ → Call
  call_dequeue : ℕ → ℤ → Call
  call_peek : ℕ → Call
  call_delete : Bytes → Bytes → Call
  call_update : Bytes → Bytes → Bytes → ℤ → Call
  call_clear : Call
  call_create : Dict Bytes → Call
  call_drop : Call
  call_get_metadata : Call
  call_set_metadata : Dict Bytes → Call
  call_list : Call

-- What encoding/json carries unchanged: texts of valid UTF-8, as `utf8` tells, years from 1 to 9999,
-- counts of an int, and in the model's maps each key once.
abbrev InYears : Time → Type 0
InYears (pos n) = n < 3_652_059 * (24 * 3600 * second)
InYears (negsuc n) = ⊥

module _ (utf8 : Bytes → Bool) where
  abbrev ValidMessage : Message → Type 0
  ValidMessage m =
      (utf8 m.id ≡ true)
      × (utf8 m.text ≡ true)
      × (utf8 m.pop_receipt ≡ true)
      × InYears m.insertion_time
      × InYears m.expiration_time
      × InYears m.next_visible
      × (m.dequeue_count < 2 ^ 63)

  abbrev ValidQueue : Queue → Type 0
  ValidQueue q =
      (utf8 q.name ≡ true)
      × NodupKeys q.metadata
      × All (λ (e : Bytes × Bytes). (utf8 e.0 ≡ true) × (utf8 e.1 ≡ true)) q.metadata
      × All ValidMessage q.messages

  abbrev ValidQueues : Dict Queue → Type 0
  ValidQueues qs = NodupKeys qs × All (λ (e : Bytes × Queue). (utf8 e.0 ≡ true) × ValidQueue e.1) qs

  abbrev pub ValidAccounts : Accounts → Type 0
  ValidAccounts s =
      NodupKeys s × All (λ (e : Bytes × Dict Queue). (utf8 e.0 ≡ true) × ValidQueues e.1) s

-- the same queue, its metadata in any order
abbrev SameQueue : Option Queue → Option Queue → Type 0
SameQueue none none = Unit
SameQueue none (some q) = ⊥
SameQueue (some p) none = ⊥
SameQueue (some p) (some q) =
    (p.name ≡ q.name)
    × (p.messages ≡ q.messages)
    × ((k : Bytes) → lookup k p.metadata ≡ lookup k q.metadata)

-- The same queues under the same names, the maps in any order.
abbrev pub SameQueues : Accounts → Accounts → Type 0
SameQueues x y = (a n : Bytes) → SameQueue (find_queue a n x) (find_queue a n y)

-- The same queues, to any client that asks at `now` or later.
abbrev pub AgreeFrom : Time → Accounts → Accounts → Type 0
AgreeFrom now x y =
    (later : Time) (a n : Bytes) → now ≤ℤ later → SameQueue (view later a n x) (view later a n y)

SameQueue-refl : (o : Option Queue) → SameQueue o o
SameQueue-refl none = tt
SameQueue-refl (some q) = (refl, refl, λ k. refl)

pub SameQueues-refl : (x : Accounts) → SameQueues x x
SameQueues-refl x a n = SameQueue-refl (find_queue a n x)

SameQueue-seen :
    (later : Time) (x y : Option Queue) → SameQueue x y → SameQueue (seen later x) (seen later y)
unfolding evict_expired
SameQueue-seen later none none h = tt
SameQueue-seen later none (some q) h = h
SameQueue-seen later (some p) none h = h
SameQueue-seen later (some p) (some q) (names, messages, metadata) =
    (names, ap (keep (λ m. not (expired later m))) messages, metadata)

module _ {D : Type 0} (c : Codec D Accounts) where
  -- The store after a call on the queue `n` of the account `a`; a listing reads `n` as its prefix.
  unfoldable pub run : Env → Bytes → Bytes → Call → Store D → Store D
  run env a n (call_enqueue text timeout ttl) s = (enqueue c env a n text timeout ttl s).0
  run env a n (call_dequeue num timeout) s = (dequeue c env a n num timeout s).0
  run env a n (call_peek num) s = (peek c env a n num s).0
  run env a n (call_delete id receipt) s = (delete_message c env a n id receipt s).0
  run env a n (call_update id receipt text timeout) s =
      (update_message c env a n id receipt text timeout s).0
  run env a n call_clear s = (clear_messages c env a n s).0
  run env a n (call_create metadata) s = (create_queue c env a n metadata s).0
  run env a n call_drop s = (delete_queue c env a n s).0
  run env a n call_get_metadata s = (get_metadata c env a n s).0
  run env a n (call_set_metadata metadata) s = (set_metadata c env a n metadata s).0
  run env a n call_list s = (list_queues c env a n s).0

  run-Kept :
      (env : Env) (a n : Bytes) (call : Call) (s : Store D) → Kept c env s (run env a n call s)
  unfolding run
  run-Kept env a n (call_enqueue text timeout ttl) s = enqueue-Kept c env a n text timeout ttl s
  run-Kept env a n (call_dequeue num timeout) s = dequeue-Kept c env a n num timeout s
  run-Kept env a n (call_peek num) s = peek-Kept c env a n num s
  run-Kept env a n (call_delete id receipt) s = delete_message-Kept c env a n id receipt s
  run-Kept env a n (call_update id receipt text timeout) s =
      update_message-Kept c env a n id receipt text timeout s
  run-Kept env a n call_clear s = clear_messages-Kept c env a n s
  run-Kept env a n (call_create metadata) s = create_queue-Kept c env a n metadata s
  run-Kept env a n call_drop s = delete_queue-Kept c env a n s
  run-Kept env a n call_get_metadata s = get_metadata-Kept c env a n s
  run-Kept env a n (call_set_metadata metadata) s = set_metadata-Kept c env a n metadata s
  run-Kept env a n call_list s = list_queues-Kept c env a n s

  -- The file reads back as a state that clients cannot tell from the memory from `now` on.
  pub record IsDurable (now : Time) (s : Store D) : Type 0 where
    pub restored : Accounts
    pub loads : load c [] s.file ≡ some restored
    pub same : AgreeFrom now restored s.accounts

  module _ (utf8 : Bytes → Bool) where
    -- Calls in sequence, the clock never running back, each write of the snapshot succeeding and all
    -- queues being such as encoding/json carries.
    pub data Runs (t : Time) (s : Store D) : Time → Store D → Type 0 where
      start : Runs t s t s
      next :
          {u : Time} {s' : Store D} (env : Env) (a n : Bytes) (call : Call)
          → Runs t s u s'
          → u ≤ℤ env.now
          → env.written ≡ true
          → ValidAccounts utf8 (run env a n call s').accounts
          → Runs t s env.now (run env a n call s')

    run-IsDurable :
        (u : Time) (env : Env) (a n : Bytes) (call : Call) (s : Store D)
        → Carries c (ValidAccounts utf8) SameQueues
        → u ≤ℤ env.now
        → env.written ≡ true
        → ValidAccounts utf8 (run env a n call s).accounts
        → IsDurable u s
        → IsDurable env.now (run env a n call s)
    run-IsDurable u env a n call s r le w valid d = elim (run-Kept env a n call s) [
      | inl saved ↦
          let after = (run env a n call s).accounts in
          let (back, loaded, same) = load-persist c env.written after [] s.file r valid w in
          record {
            restored = back;
            loads = rw saved loaded;
            same = λ later a' n' h. SameQueue-seen later _ _ (same a' n');
          }
      | inr (f, v) ↦ record {
        restored = d.restored;
        loads = rw f d.loads;
        same = λ later a' n' h.
            subst (SameQueue (view later a' n' d.restored)) (v later a' n' h)
              (d.same later a' n' (le_trans_int u env.now later le h));
      }
    ]

    -- For a codec that carries queues of valid UTF-8, of years from 1 to 9999 and of counts below 2^63,
    -- but for the order of their maps: whatever the calls, if each write succeeds and each call leaves
    -- such queues, with each key once, the snapshot file reads back as queues that no client can tell,
    -- at the time of the last call or later, from those in memory.
    pub restart_invisible :
        (t : Time) (s : Store D) (u : Time) (s' : Store D)
        → Carries c (ValidAccounts utf8) SameQueues
        → load c [] s.file ≡ some s.accounts
        → Runs t s u s'
        → IsDurable u s'
    restart_invisible t s u s' r fresh start = record {
      restored = s.accounts;
      loads = fresh;
      same = λ later a n h. SameQueue-refl (view later a n s.accounts);
    }
    restart_invisible t s u s' r fresh (next {u = u'} {s' = before} env a n call runs le w valid) =
        run-IsDurable u' env a n call before r le w valid
          (restart_invisible t s u' before r fresh runs)
