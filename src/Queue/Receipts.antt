-- ===== src/Queue/Receipts.antt =====
-- Pop receipts: who may delete or update a message.
use mathlib.Core.List.{Memᴰ}
use mathlib.Core.Path.{subst}
use localaz.Common.{
  Bytes, ℕ, ◌+◌, Bool, true, false, not, List, [], ◌∷◌, ◌≡◌, ◌≢◌, refl, sym, Option, none, some,
  arith, All, keep, bytes_eq, bytes_eq_iff, bytes_eq_refl, Result, ok, err, if◌then◌else◌, ◌∙◌, ap,
  leb, All-keep, All-of_mem, Bool-cases, inl, inr,
}
use localaz.Common.Int.{ℤ}
use localaz.Common.Sort.{DistinctKeys}
use localaz.Common.Snapshot.{Codec}
use localaz.Queue.Types.{
  Error, message_not_found, pop_receipt_mismatch, Time, Message, Queue, visible, expired,
}
use localaz.Queue.Messages.{evict_expired, leased, dequeue_loop, delete_loop, updated, update_loop}
use localaz.Queue.Store.{Accounts, Store, Env, find_queue, set_queue, dequeue, delete_message}
use localaz.Queue.Delivery.{
  lookup_locked-some, find_queue-dequeue, find_queue-set_queue_self, dequeue_result,
}

-- The first message with an id.
abbrev pub find_message : Bytes → List Message → Option Message
find_message id [] = none
find_message id (m ∷ ms) =
    let rest = find_message id ms in if bytes_eq m.id id then some m else rest

-- The messages with the first one of an id changed, or removed.
abbrev pub change_first : Bytes → (Message → Message) → List Message → List Message
change_first id f [] = []
change_first id f (m ∷ ms) =
    let rest = change_first id f ms in if bytes_eq m.id id then f m ∷ ms else m ∷ rest

abbrev pub remove_first : Bytes → List Message → List Message
remove_first id [] = []
remove_first id (m ∷ ms) =
    let rest = remove_first id ms in if bytes_eq m.id id then ms else m ∷ rest

-- The answer to a request that names a message and a receipt.
abbrev pub authorised : {A : Type 0} → Option Message → Bytes → A → Result Error A
authorised none receipt a = err message_not_found
authorised (some m) receipt a =
    if bytes_eq m.pop_receipt receipt then ok a else err pop_receipt_mismatch

delete_loop-eq-authorised :
    (id receipt : Bytes) (ms : List Message)
    → delete_loop id receipt ms ≡ authorised (find_message id ms) receipt (remove_first id ms)
unfolding delete_loop
delete_loop-eq-authorised id receipt [] = refl
delete_loop-eq-authorised id receipt (m ∷ ms) =
    ground (arith, delete_loop-eq-authorised id receipt ms)

update_loop-eq-authorised :
    (now : Time) (timeout : ℤ) (fresh id receipt text : Bytes) (ms : List Message)
    → update_loop now timeout fresh id receipt text ms
      ≡ authorised
          (find_message id ms)
          receipt
          (change_first id (updated now timeout fresh text) ms)
unfolding update_loop
update_loop-eq-authorised now timeout fresh id receipt text [] = refl
update_loop-eq-authorised now timeout fresh id receipt text (m ∷ ms) =
    ground (arith, update_loop-eq-authorised now timeout fresh id receipt text ms)

abbrev pub DistinctIds : List Message → Type 0
DistinctIds = DistinctKeys (λ (m : Message). m.id)

module _ (now : Time) (timeout : ℤ) (receipt : ℕ → Bytes) (num : ℕ) where
  abbrev loop : ℕ → List Message → List Message × List Message
  loop = dequeue_loop now timeout receipt num

  dequeue_loop_ids :
      (id : Bytes) (taken : ℕ) (ms : List Message)
      → All (λ m. id ≢ m.id) ms
      → All (λ m. id ≢ m.id) (loop taken ms).0 × All (λ m. id ≢ m.id) (loop taken ms).1
  unfolding dequeue_loop
  dequeue_loop_ids id taken [] h = (tt, tt)
  dequeue_loop_ids id taken (m ∷ ms) (p, h) =
      ground (arith, dequeue_loop_ids id taken ms h, dequeue_loop_ids id (taken + 1) ms h)

  dequeue_loop-DistinctIds :
      (taken : ℕ) (ms : List Message) → DistinctIds ms → DistinctIds (loop taken ms).0
  unfolding dequeue_loop
  dequeue_loop-DistinctIds taken [] h = tt
  dequeue_loop-DistinctIds taken (m ∷ ms) (p, h) = ground (
    arith,
    dequeue_loop-DistinctIds taken ms h,
    dequeue_loop-DistinctIds (taken + 1) ms h,
    dequeue_loop_ids m.id taken ms p,
    dequeue_loop_ids m.id (taken + 1) ms p,
  )

  find_message_skip :
      (m : Message) (after out : List Message)
      → All (λ x. m.id ≢ x.id) out
      → All (λ x. find_message x.id after ≡ some x) out
      → All (λ x. find_message x.id (m ∷ after) ≡ some x) out
  find_message_skip m after [] p h = tt
  find_message_skip m after (x ∷ out) (p, ps) (q, h) =
      (ground (arith, bytes_eq_iff m.id x.id), find_message_skip m after out ps h)

  find_message_head :
      (m : Message) (ms out : List Message)
      → All (λ x. find_message x.id (m ∷ ms) ≡ some x) out
      → All (λ x. find_message x.id (m ∷ ms) ≡ some x) (m ∷ out)
  find_message_head m ms out h = (ground (arith, bytes_eq_refl m.id), h)

  -- each returned message is the one that the queue holds under its id
  abbrev Held : List Message × List Message → Type 0
  Held p = All (λ x. find_message x.id p.0 ≡ some x) p.1

  Held-if :
      (b v : Bool) (x y z : List Message × List Message)
      → Held x
      → Held y
      → Held z
      → Held (if b then x else if v then y else z)
  Held-if true v x y z p q r = p
  Held-if false true x y z p q r = q
  Held-if false false x y z p q r = r

  find_message-dequeue_loop :
      (taken : ℕ) (ms : List Message) → DistinctIds ms → Held (loop taken ms)
  unfolding dequeue_loop
  find_message-dequeue_loop taken [] h = tt
  find_message-dequeue_loop taken (m ∷ ms) (p, h) =
      let m' : Message = leased now timeout (receipt taken) m in
      let hit = loop (taken + 1) ms in
      let miss = loop taken ms in
      Held-if (leb num taken) (visible now m) (m ∷ ms, []) (m' ∷ hit.0, m' ∷ hit.1)
        (m ∷ miss.0, miss.1) tt
        (find_message_head m' hit.0 hit.1 (
          find_message_skip m' hit.0 hit.1 (dequeue_loop_ids m.id (taken + 1) ms p).1
            (find_message-dequeue_loop (taken + 1) ms h)))
        (find_message_skip m miss.0 miss.1 (dequeue_loop_ids m.id taken ms p).1
          (find_message-dequeue_loop taken ms h))

find_message-keep :
    (p : Message → Bool) (id : Bytes) (ms : List Message) (m : Message)
    → find_message id ms ≡ some m
    → p m ≡ true
    → find_message id (keep p ms) ≡ some m
find_message-keep p id [] m h k = cc
find_message-keep p id (x ∷ ms) m h k =
    ground (arith, find_message-keep p id ms m, bytes_eq_iff x.id id)

DistinctIds-keep :
    (p : Message → Bool) (ms : List Message) → DistinctIds ms → DistinctIds (keep p ms)
DistinctIds-keep p [] h = tt
DistinctIds-keep p (m ∷ ms) (q, h) =
    ground (arith, DistinctIds-keep p ms h, All-keep (λ x. m.id ≢ x.id) p ms q)

find_message-none :
    (id : Bytes) (ms : List Message) → All (λ x. id ≢ x.id) ms → find_message id ms ≡ none
find_message-none id [] h = refl
find_message-none id (m ∷ ms) (p, h) =
    ground (arith, find_message-none id ms h, bytes_eq_iff m.id id)

find_message-remove_first :
    (id : Bytes) (ms : List Message) → DistinctIds ms → find_message id (remove_first id ms) ≡ none
find_message-remove_first id [] h = refl
find_message-remove_first id (m ∷ ms) (p, h) = elim (Bool-cases (bytes_eq m.id id)) [
  | inl same ↦ rw (same, ← (bytes_eq_iff m.id id).0 same) (find_message-none m.id ms p)
  | inr differ ↦ rw (differ, differ) (find_message-remove_first id ms h)
]

authorised_held :
    {A : Type 0} {o : Option Message} {m : Message}
    → o ≡ some m
    → (a : A) → authorised o m.pop_receipt a ≡ ok a
authorised_held {m} e a = rw e (ground (arith, bytes_eq_refl m.pop_receipt))

-- the value, or what was there before
abbrev pub if_ok : {A : Type 0} → Result Error A → A → A
if_ok (ok a) b = a
if_ok (err e) b = b

pub ok-injective : {A : Type 0} {a b : A} → ◌≡◌ {A = Result Error A} (ok a) (ok b) → a ≡ b
ok-injective h = cc

-- the queue that `Dequeue` leaves
abbrev leased_queue : Env → ℕ → ℤ → Queue → Queue
leased_queue env num timeout q = record q {
  messages =
      (dequeue_loop env.now timeout env.new_pop_receipt num 0 (evict_expired env.now q).messages).0;
}

module _ (env env' : Env) (num : ℕ) (timeout : ℤ) (q : Queue) (m : Message)
    (d : DistinctIds q.messages) where
  found_live :
      Memᴰ m
        (dequeue_loop env.now timeout env.new_pop_receipt num 0
          (evict_expired env.now q).messages).1
      → expired env'.now m ≡ false
      → find_message m.id (evict_expired env'.now (leased_queue env num timeout q)).messages
        ≡ some m
  unfolding evict_expired
  found_live k live =
      let old = keep (λ (x : Message). not (expired env.now x)) q.messages in
      find_message-keep (λ x. not (expired env'.now x)) m.id _ m
        (All-of_mem _ _
          (find_message-dequeue_loop env.now timeout env.new_pop_receipt num 0 old
            (DistinctIds-keep _ q.messages d))
          k)
        (ap not live)

  found_gone :
      find_message m.id
        (remove_first m.id (evict_expired env'.now (leased_queue env num timeout q)).messages)
      ≡ none
  unfolding evict_expired
  found_gone = find_message-remove_first m.id _ (
      DistinctIds-keep _ _ (
        dequeue_loop-DistinctIds env.now timeout env.new_pop_receipt num 0 _
          (DistinctIds-keep _ q.messages d)))

module _ {D : Type 0} (c : Codec D Accounts) where
  -- Delete Message and Update Message answer for the message with the id among those that have not
  -- expired: not found, a mismatch, or exactly that message removed or changed.
  pub delete_message-eq-authorised :
      (env : Env) (a n id receipt : Bytes) (s : Store D) (q : Queue)
      → find_queue a n s.accounts ≡ some q
      → ((delete_message c env a n id receipt s).1
          ≡ authorised (find_message id (evict_expired env.now q).messages) receipt tt)
        × (find_queue a n (delete_message c env a n id receipt s).0.accounts
            ≡ some (record q {
              messages =
                  if_ok
                    (authorised
                      (find_message id (evict_expired env.now q).messages)
                      receipt
                      (remove_first id (evict_expired env.now q).messages))
                    (evict_expired env.now q).messages;
            }))
  unfolding delete_message evict_expired
  delete_message-eq-authorised env a n id receipt s q h =
      let q' = evict_expired env.now q in
      let o = find_message id q'.messages in
      ground (
        arith,
        lookup_locked-some c env a n s q h,
        delete_loop-eq-authorised id receipt q'.messages,
        find_queue-set_queue_self a n q' s.accounts,
        find_queue-set_queue_self a n (record q' { messages = remove_first id q'.messages })
            (set_queue a n q' s.accounts),
      )

  -- In a queue of distinct ids, Delete Message with the id and the receipt of a message that the call
  -- of Get Messages just before it returned succeeds, if the message has not expired by then, and no
  -- message of the queue has the id after it.
  pub delete_message-dequeue :
      (env env' : Env) (a n : Bytes) (num : ℕ) (timeout : ℤ) (s : Store D) (q : Queue)
      (out : List Message) (m : Message)
      → find_queue a n s.accounts ≡ some q
      → DistinctIds q.messages
      → (dequeue c env a n num timeout s).1 ≡ ok out
      → Memᴰ m out
      → expired env'.now m ≡ false
      → ((delete_message c env' a n m.id m.pop_receipt (dequeue c env a n num timeout s).0).1
          ≡ ok tt)
        × (q' : Queue) × (find_queue a n
              (delete_message c env' a n m.id m.pop_receipt
                (dequeue c env a n num timeout s).0).0.accounts
            ≡ some q')
        × (find_message m.id q'.messages ≡ none)
  delete_message-dequeue env env' a n num timeout s q out m h d e k live =
      let after = leased_queue env num timeout q in
      let held =
        found_live env env' num timeout q m d
          (subst (Memᴰ m) (ok-injective (sym e ∙ dequeue_result c env a n num timeout s q h)) k)
          live in
      let (answer, rest) =
        delete_message-eq-authorised env' a n m.id m.pop_receipt (dequeue c env a n num timeout s).0
          after (find_queue-dequeue c env a n num timeout s q h) in
      (
        answer ∙ authorised_held held tt,
        _,
        rest,
        rw (authorised_held held (remove_first m.id (evict_expired env'.now after).messages))
            (found_gone env env' num timeout q m d),
      )
