-- ===== src/Queue/Delivery.antt =====
-- What Get Messages and Peek Messages hand out, and how long a message stays hidden.
use localaz.Common.{
  Bytes, ℕ, suc, zero, ◌+◌, ◌-◌, true, false, not, List, [], ◌∷◌, ◌≡◌, refl, some, arith, take,
  keep, bytes_eq_refl, bytes_eq, bytes_eq_iff, ok, leb, if◌then◌else◌, ap, keep_comm, ◌∙◌,
}
use localaz.Common.Int.{ℤ, ◌+ℤ◌, ltb_int}
use localaz.Common.Dict.{insert, lookup-insert}
use localaz.Common.Snapshot.{Codec}
use localaz.Queue.Types.{Time, Message, Queue, visible, expired}
use localaz.Queue.Messages.{evict_expired, leased, dequeue_loop, peek_loop}
use localaz.Queue.Store.{
  Accounts, Store, Env, find_queue, queues_of, set_queue, lookup_locked, dequeue, peek,
}

take_nil : {A : Type 0} (n : ℕ) → take {A = A} n [] ≡ []
take_nil zero = refl
take_nil (suc n) = refl

-- The messages leased in order, each with the next receipt.
abbrev pub lease_all : Time → ℤ → (ℕ → Bytes) → ℕ → List Message → List Message
lease_all now timeout receipt i [] = []
lease_all now timeout receipt i (m ∷ ms) =
    leased now timeout (receipt i) m ∷ lease_all now timeout receipt (i + 1) ms

-- The messages but the first `n` that are visible.
abbrev pub untaken : Time → ℕ → List Message → List Message
untaken now zero ms = ms
untaken now (suc n) [] = []
untaken now (suc n) (m ∷ ms) =
    let rest = untaken now n ms in
    let later = m ∷ untaken now (suc n) ms in if visible now m then rest else later

-- The messages of a queue that may be handed out at `now`, oldest first.
abbrev pub deliverable : Time → List Message → List Message
deliverable now ms = keep (visible now) (keep (λ m. not (expired now m)) ms)

take_sub :
    {A : Type 0} (num taken : ℕ) (x : A) (xs : List A)
    → leb num taken ≡ false
    → take (num - taken) (x ∷ xs) ≡ x ∷ take (num - (taken + 1)) xs
take_sub num taken x xs h = let e : num - taken ≡ suc (num - (taken + 1)) = ground arith in rw e

take_none :
    {A : Type 0} (num taken : ℕ) (xs : List A) → leb num taken ≡ true → take (num - taken) xs ≡ []
take_none num taken xs h = let e : num - taken ≡ 0 = ground arith in rw e

peek_loop_lem :
    (now : Time) (num taken : ℕ) (ms : List Message)
    → peek_loop now num taken ms ≡ take (num - taken) (keep (visible now) ms)
unfolding peek_loop
peek_loop_lem now num taken [] = ground (arith, take_nil {A = Message} (num - taken))
peek_loop_lem now num taken (m ∷ ms) = ground (
  arith,
  take_none num taken (keep (visible now) (m ∷ ms)),
  take_sub num taken m (keep (visible now) ms),
  peek_loop_lem now num taken ms,
  peek_loop_lem now num (taken + 1) ms,
)

untaken_nil : (now : Time) (n : ℕ) → untaken now n [] ≡ []
untaken_nil now zero = refl
untaken_nil now (suc n) = refl

untaken_none :
    (now : Time) (num taken : ℕ) (ms : List Message)
    → leb num taken ≡ true
    → untaken now (num - taken) ms ≡ ms
untaken_none now num taken ms h = let e : num - taken ≡ 0 = ground arith in rw e

untaken_sub :
    (now : Time) (num taken : ℕ) (m : Message) (ms : List Message)
    → leb num taken ≡ false
    → untaken now (num - taken) (m ∷ ms) ≡ (
        if visible now m
        then untaken now (num - (taken + 1)) ms
        else m ∷ untaken now (num - taken) ms)
untaken_sub now num taken m ms h =
    let e : num - taken ≡ suc (num - (taken + 1)) = ground arith in rw e

leased_hidden :
    (now : Time) (timeout : ℤ) (receipt : Bytes) (later : Time) (m : Message)
    → ltb_int later (now +ℤ timeout) ≡ true
    → visible later (leased now timeout receipt m) ≡ false
unfolding visible leased
leased_hidden now timeout receipt later m h = ap not h

dequeue_loop_out :
    (now : Time) (timeout : ℤ) (receipt : ℕ → Bytes) (num taken : ℕ) (ms : List Message)
    → (dequeue_loop now timeout receipt num taken ms).1
      ≡ lease_all now timeout receipt taken (take (num - taken) (keep (visible now) ms))
unfolding dequeue_loop
dequeue_loop_out now timeout receipt num taken [] =
    ground (arith, take_nil {A = Message} (num - taken))
dequeue_loop_out now timeout receipt num taken (m ∷ ms) = ground (
  arith,
  take_none num taken (keep (visible now) (m ∷ ms)),
  take_sub num taken m (keep (visible now) ms),
  dequeue_loop_out now timeout receipt num taken ms,
  dequeue_loop_out now timeout receipt num (taken + 1) ms,
)

-- What the first call leaves for a second one, as long as its messages stay hidden.
dequeue_loop_hides :
    (now : Time) (timeout : ℤ) (receipt : ℕ → Bytes) (num taken : ℕ) (later : Time)
    (ms : List Message)
    → ltb_int later (now +ℤ timeout) ≡ true
    → keep (visible later) (dequeue_loop now timeout receipt num taken ms).0
      ≡ keep (visible later) (untaken now (num - taken) ms)
unfolding dequeue_loop
dequeue_loop_hides now timeout receipt num taken later [] h =
    ground (arith, untaken_nil now (num - taken))
dequeue_loop_hides now timeout receipt num taken later (m ∷ ms) h = ground (
  arith,
  untaken_none now num taken (m ∷ ms),
  untaken_sub now num taken m ms,
  leased_hidden now timeout (receipt taken) later m h,
  dequeue_loop_hides now timeout receipt num taken later ms h,
  dequeue_loop_hides now timeout receipt num (taken + 1) later ms h,
)

pub find_queue-set_queue :
    (a n a' n' : Bytes) (q : Queue) (s : Accounts)
    → find_queue a' n' (set_queue a n q s) ≡ (
        if bytes_eq a a'
        then (if bytes_eq n n' then some q else find_queue a' n' s)
        else find_queue a' n' s)
unfolding find_queue set_queue
find_queue-set_queue a n a' n' q s = ground (
  arith,
  bytes_eq_iff a a',
  bytes_eq_iff n n',
  lookup-insert a' a (insert n q (queues_of a s)) s,
  lookup-insert n' n q (queues_of a s),
)

pub find_queue-set_queue_self :
    (a n : Bytes) (q : Queue) (s : Accounts) → find_queue a n (set_queue a n q s) ≡ some q
find_queue-set_queue_self a n q s = simp (find_queue-set_queue, bytes_eq_refl)

sub-zero : (n : ℕ) → n - 0 ≡ n
sub-zero n = omega arith

deliverable-dequeue_loop :
    (now : Time) (timeout : ℤ) (receipt : ℕ → Bytes) (num : ℕ) (later : Time) (q : Queue)
    → ltb_int later (now +ℤ timeout) ≡ true
    → deliverable later (dequeue_loop now timeout receipt num 0 (evict_expired now q).messages).0
      ≡ deliverable later (untaken now num (keep (λ m. not (expired now m)) q.messages))
unfolding evict_expired
deliverable-dequeue_loop now timeout receipt num later q h =
    let ms = keep (λ m. not (expired now m)) q.messages in
    let live = λ (m : Message). not (expired later m) in
    keep_comm (visible later) live (dequeue_loop now timeout receipt num 0 ms).0
    ∙ ap (keep live) (dequeue_loop_hides now timeout receipt num 0 later ms h)
    ∙ keep_comm live (visible later) (untaken now (num - 0) ms)
    ∙ ap (λ k. deliverable later (untaken now k ms)) (sub-zero num)

module _ {D : Type 0} (c : Codec D Accounts) where
  pub lookup_locked-some :
      (env : Env) (a n : Bytes) (s : Store D) (q : Queue)
      → find_queue a n s.accounts ≡ some q
      → lookup_locked c env a n s
        ≡ some (
          evict_expired env.now q,
          record s { accounts = set_queue a n (evict_expired env.now q) s.accounts },
        )
  unfolding lookup_locked
  lookup_locked-some env a n s q h = rw (h, lookup_locked)

  -- The queue as a call of `Dequeue` leaves it.
  pub find_queue-dequeue :
      (env : Env) (a n : Bytes) (num : ℕ) (timeout : ℤ) (s : Store D) (q : Queue)
      → find_queue a n s.accounts ≡ some q
      → find_queue a n (dequeue c env a n num timeout s).0.accounts
        ≡ some (record q {
          messages =
              (dequeue_loop env.now timeout env.new_pop_receipt num 0
                (evict_expired env.now q).messages).0;
        })
  unfolding dequeue evict_expired
  find_queue-dequeue env a n num timeout s q h =
      let q' = evict_expired env.now q in
      let ms = (dequeue_loop env.now timeout env.new_pop_receipt num 0 q'.messages).0 in
      ground (
        arith,
        lookup_locked-some env a n s q h,
        find_queue-set_queue_self a n (record q' { messages = ms }) (set_queue a n q' s.accounts),
      )

  pub dequeue_result :
      (env : Env) (a n : Bytes) (num : ℕ) (timeout : ℤ) (s : Store D) (q : Queue)
      → find_queue a n s.accounts ≡ some q
      → (dequeue c env a n num timeout s).1
        ≡ ok
            (dequeue_loop env.now timeout env.new_pop_receipt num 0
              (evict_expired env.now q).messages).1
  unfolding dequeue
  dequeue_result env a n num timeout s q h = ground (arith, lookup_locked-some env a n s q h)

  -- Get Messages returns the oldest deliverable messages, at most `num`, each leased with a receipt
  -- of its own; Peek Messages shows those messages as they are.
  pub dequeue-eq-lease_all :
      (env : Env) (a n : Bytes) (num : ℕ) (timeout : ℤ) (s : Store D) (q : Queue)
      → find_queue a n s.accounts ≡ some q
      → ((dequeue c env a n num timeout s).1
          ≡ ok (
              lease_all env.now timeout env.new_pop_receipt 0
                (take num (deliverable env.now q.messages))))
        × ((peek c env a n num s).1 ≡ ok (take num (deliverable env.now q.messages)))
  unfolding dequeue peek evict_expired
  dequeue-eq-lease_all env a n num timeout s q h = ground (
    arith,
    lookup_locked-some env a n s q h,
    dequeue_loop_out env.now timeout env.new_pop_receipt num 0 (evict_expired env.now q).messages,
    peek_loop_lem env.now num 0 (evict_expired env.now q).messages,
    sub-zero num,
  )

  -- While the messages of a first Get Messages are hidden, a second one returns what it would return
  -- from the queue without them.
  pub dequeue-dequeue :
      (first then' : Env) (a n : Bytes) (num num' : ℕ) (timeout timeout' : ℤ) (s : Store D)
      (q : Queue)
      → find_queue a n s.accounts ≡ some q
      → ltb_int then'.now (first.now +ℤ timeout) ≡ true
      → (dequeue c then' a n num' timeout' (dequeue c first a n num timeout s).0).1
        ≡ ok (
            lease_all then'.now timeout' then'.new_pop_receipt 0 (
              take num' (
                deliverable then'.now
                  (untaken first.now num (keep (λ m. not (expired first.now m)) q.messages)))))
  dequeue-dequeue first then' a n num num' timeout timeout' s q h hidden =
      let q' : Queue = record q {
        messages =
            (dequeue_loop first.now timeout first.new_pop_receipt num 0
              (evict_expired first.now q).messages).0;
      } in
      (dequeue-eq-lease_all then' a n num' timeout' (dequeue c first a n num timeout s).0 q'
        (find_queue-dequeue first a n num timeout s q h)).0
      ∙ ap (λ ms. ok (lease_all then'.now timeout' then'.new_pop_receipt 0 (take num' ms)))
          (deliverable-dequeue_loop first.now timeout first.new_pop_receipt num then'.now q hidden)
