-- ===== src/Broker/Steps.antt =====
-- One call on a sound broker: it does not panic, the broker stays sound, and messages are taken in
-- order.
use localaz.Common.{
  Bytes, ℕ, suc, ◌≤◌, Bool, true, false, List, [], ◌∷◌, ◌++◌, Option, some, arith, bytes_eq,
  bytes_eq_iff, if◌then◌else◌, ◌≡◌, refl, sym, ap, ◌∙◌, Bool-cases, inl, inr, ◌⊎◌, length, ltb,
  take, Option-cases,
}
use mathlib.Core.Path.{subst}
use mathlib.Core.List.{append-nil}
use localaz.Common.Dict.{or_empty, Dict, lookup, insert, NodupKeys, lookup-insert, insert-NodupKeys}
use localaz.Broker.Channels.{count-append, held-insert}
use localaz.Broker.Sound.{
  Sound, Delivers, member, notified-Sound, enqueue_locked-Delivers, enqueue_all-Delivers,
}
use localaz.Broker.Store.{
  Broker, contents, waiting, subscriptions, deliver, send, pop, dequeue, requeue, wait_chan, index,
  subscription_infix, register_at, register_subscription, Call, register, sends, dequeues, requeues,
  waits, taken, step,
}

-- whether a message sent to `address` comes to `j`
unfoldable pub reaches : Dict (Unit {0}) → Bytes → Bytes → Bool
unfolding member
reaches [] address j = bytes_eq address j
reaches (sub ∷ subs) address j = member j (sub ∷ subs)

deliver-Delivers :
    (subs : Dict (Unit {0})) (a m : Bytes) (b : Broker)
    → NodupKeys subs
    → Sound b
    → Delivers b (deliver subs a m b) (λ j. if reaches subs a j then m ∷ [] else [])
unfolding deliver reaches
deliver-Delivers [] a m b u sound = enqueue_locked-Delivers a m b sound
deliver-Delivers (s ∷ subs) a m b u sound = enqueue_all-Delivers (s ∷ subs) m b u sound

send-Delivers :
    (a m : Bytes) (b : Broker)
    → Sound b
    → Delivers b (send a m b) (λ j. if reaches (subscriptions b a) a j then m ∷ [] else [])
unfolding send Sound
send-Delivers a m b sound = deliver-Delivers (subscriptions b a) a m b ((sound.2) a) sound

index-le : (sub s : Bytes) (i : ℕ) → index sub s ≡ some i → i ≤ length s
unfolding index
index-le sub [] i h = ground arith
index-le sub (c ∷ s) i h = elim (Option-cases (index sub s)) [
  | inl e ↦ ground (arith, e)
  | inr (k, e) ↦ let le = index-le sub s k e in ground (arith, e, le)
]

-- What a call adds at the address `j`, and what one that takes messages takes there.
unfoldable pub arrivals : Bytes → Call → Broker → List Bytes
unfolding reaches
arrivals j (sends address msg) b =
    if reaches (subscriptions b address) address j then msg ∷ [] else []
arrivals j _ b = []

unfoldable pub got : Bytes → List (Bytes × Bytes) → List Bytes
got j [] = []
got j ((address, msg) ∷ out) =
    let rest = got j out in if bytes_eq address j then msg ∷ rest else rest

-- all calls but `Requeue`, which puts a message in front
unfoldable pub is_fifo : Call → Bool
is_fifo (requeues address msg) = false
is_fifo _ = true

unfoldable pub Steps : (Bytes → Bytes) → Call → Broker → Type 0
unfolding got arrivals is_fifo
Steps lower c b =
    (b' : Broker) × (out : List (Bytes × Bytes)) × (step lower c b ≡ some (b', out))
    × Sound b'
    × (is_fifo c ≡ true → (j : Bytes) → got j out ++ contents b' j ≡ contents b j ++ arrivals j c b)

registered-Sound :
    (t a : Bytes) (b : Broker)
    → Sound b
    → Sound (record b { topic_subs = insert t (insert a tt (subscriptions b t)) b.topic_subs })
unfolding Sound
registered-Sound t a b (channels, awake, subs) = (
  channels,
  awake,
  λ u.
      subst (λ o. NodupKeys (or_empty o))
        (sym (lookup-insert u t (insert a tt (subscriptions b t)) b.topic_subs))
        (either u (bytes_eq t u)),
)
  where
    either :
        (u : Bytes) (same : Bool)
        → NodupKeys (
            or_empty
              (if same then some (insert a tt (subscriptions b t)) else lookup u b.topic_subs))
    either u true = insert-NodupKeys a tt (subscriptions b t) (subs t)
    either u false = subs u

-- What `pop` leaves is sound, as the receivers at the address were awake.
nonempty : (m : Bytes) (q : List Bytes) → (m ∷ q) ≡ [] → ⊥
nonempty m q h = cc

pub popped-Sound :
    (a m : Bytes) (q : List Bytes) (b : Broker)
    → contents b a ≡ m ∷ q
    → Sound b
    → Sound (record b { queues = insert a q b.queues })
unfolding Sound
popped-Sound a m q b e (channels, awake, subs) = (
  channels,
  (λ j. elim (awake j) [
    | inl w ↦ inl w
    | inr n ↦ inr (ap or_empty (lookup-insert j a q b.queues) ∙ other j n)
  ]),
  subs,
)
  where
    other :
        (j : Bytes)
        → contents b j ≡ []
        → or_empty (if bytes_eq a j then some q else lookup j b.queues) ≡ []
    other j n = elim (Bool-cases (bytes_eq a j)) [
      | inl same ↦
          let k = ap (contents b) ((bytes_eq_iff a j).0 same) in
          absurd (nonempty m q (sym e ∙ k ∙ n))
      | inr differ ↦ rw differ n
    ]

pop-fifo :
    (a m : Bytes) (q : List Bytes) (b : Broker) (j : Bytes)
    → contents b a ≡ m ∷ q
    → got j ((a, m) ∷ []) ++ or_empty (lookup j (insert a q b.queues)) ≡ contents b j ++ []
unfolding got
pop-fifo a m q b j e =
    ap (λ o. got j ((a, m) ∷ []) ++ or_empty o) (lookup-insert j a q b.queues)
    ∙ elim (Bool-cases (bytes_eq a j)) [
      | inl same ↦
          rw same
            (sym e ∙ ap (contents b) ((bytes_eq_iff a j).0 same) ∙ sym (append-nil (contents b j)))
      | inr other ↦ rw other (sym (append-nil (contents b j)))
    ]

wait_chan-contents :
    (a : Bytes) (b : Broker) (j : Bytes) → contents ((wait_chan a b).1) j ≡ contents b j ++ []
unfolding wait_chan
wait_chan-contents a b j = elim (Bool-cases (ltb 0 (length (contents b a)))) [
  | inl there ↦ rw there (sym (append-nil (contents b j)))
  | inr gone ↦ rw gone (sym (append-nil (contents b j)))
]

empty : (q : List Bytes) → ltb 0 (length q) ≡ false → q ≡ []
empty [] h = refl
empty (m ∷ q) h = ground arith

closed-Sound :
    (b : Broker) → Sound b → Sound (record b { made = suc b.made; closed = b.made ∷ b.closed })
unfolding Sound
closed-Sound b ((once, fresh, u), awake, subs) =
    (((λ c. ground (arith, once c, fresh c)), (λ c le. ground (arith, fresh c)), u), awake, subs)

waiting-Sound :
    (a : Bytes) (b : Broker)
    → contents b a ≡ []
    → Sound b
    → Sound (record b {
      made = suc b.made;
      waiters = insert a (waiting b a ++ (b.made ∷ [])) b.waiters;
    })
unfolding Sound
waiting-Sound a b e ((once, fresh, u), awake, subs) = (
  (
    (λ c. ground (
      arith,
      once c,
      fresh c,
      held-insert c a (waiting b a ++ (b.made ∷ [])) b.waiters,
      count-append c (waiting b a) (b.made ∷ []),
    )),
    (λ c le. ground (
      arith,
      fresh c,
      held-insert c a (waiting b a ++ (b.made ∷ [])) b.waiters,
      count-append c (waiting b a) (b.made ∷ []),
    )),
    insert-NodupKeys a (waiting b a ++ (b.made ∷ [])) b.waiters u,
  ),
  (λ j. elim (Bool-cases (bytes_eq a j)) [
    | inl same ↦ inr (ap (contents b) (sym ((bytes_eq_iff a j).0 same)) ∙ e)
    | inr other ↦ elim (awake j) [
      | inl w ↦
          inl
            (ap or_empty (lookup-insert j a (waiting b a ++ (b.made ∷ [])) b.waiters) ∙ rw other w)
      | inr n ↦ inr n
    ]
  ]),
  subs,
)

wait_chan-Sound : (a : Bytes) (b : Broker) → Sound b → Sound ((wait_chan a b).1)
unfolding wait_chan
wait_chan-Sound a b sound = elim (Bool-cases (ltb 0 (length (contents b a)))) [
  | inl there ↦ rw there (closed-Sound b sound)
  | inr gone ↦ rw gone (waiting-Sound a b (empty (contents b a) gone) sound)
]

-- Lower-casing makes no address longer that the call registers.
abbrev pub NoLonger : (Bytes → Bytes) → Call → Type 0
NoLonger lower (register a) = length (lower a) ≤ length a
NoLonger lower _ = Unit

module _ (lower : Bytes → Bytes) where
  index-inside :
      (a : Bytes) (i : ℕ)
      → length (lower a) ≤ length a
      → index subscription_infix (lower a) ≡ some i
      → ltb (length a) i ≡ false
  index-inside a i h e = ground (arith, index-le subscription_infix (lower a) i e)

  registered :
      (a : Bytes) (b : Broker)
      → length (lower a) ≤ length a
      → (register_subscription lower a b ≡ some b)
        ⊎ ((t : Bytes) × (register_subscription lower a b
              ≡ some (record b {
                topic_subs = insert t (insert a tt (subscriptions b t)) b.topic_subs;
              })))
  unfolding register_subscription register_at
  registered a b no_longer = elim (Option-cases (index subscription_infix (lower a))) [
    | inl e ↦ inl (rw e refl)
    | inr (i, e) ↦ inr (take i a, rw (e, index-inside a i no_longer e) refl)
  ]

  register-Steps :
      (a : Bytes) (b : Broker) → length (lower a) ≤ length a → Sound b → Steps lower (register a) b
  unfolding Steps step
  register-Steps a b no_longer sound = elim (registered a b no_longer) [
    | inl e ↦ (b, [], rw e refl, sound, λ h j. sym (append-nil (contents b j)))
    | inr (t, e) ↦
        (_, [], rw e refl, registered-Sound t a b sound, λ h j. sym (append-nil (contents b j)))
  ]

  pop-Steps :
      (a : Bytes) (b : Broker) (q : List Bytes)
      → contents b a ≡ q
      → Sound b
      → (b' : Broker) × (out : List (Bytes × Bytes)) × (◌≡◌
          {A = Option (Broker × List (Bytes × Bytes))}
          (some ((pop a q b).1, taken a (pop a q b).0))
          (some (b', out)))
        × Sound b'
        × ((j : Bytes) → got j out ++ contents b' j ≡ contents b j ++ [])
  unfolding pop got
  pop-Steps a b [] e sound = (b, [], refl, sound, λ j. sym (append-nil (contents b j)))
  pop-Steps a b (m ∷ q) e sound =
      (_, _, refl, popped-Sound a m q b e sound, λ j. pop-fifo a m q b j e)

  dequeue-Steps : (a : Bytes) (b : Broker) → Sound b → Steps lower (dequeues a) b
  unfolding Steps step dequeue
  dequeue-Steps a b sound =
      let (b', out, e, sound', q) = pop-Steps a b (contents b a) refl sound in
      (b', out, e, sound', λ h. q)

  wait-Steps : (a : Bytes) (b : Broker) → Sound b → Steps lower (waits a) b
  unfolding Steps step
  wait-Steps a b sound =
      ((wait_chan a b).1, [], refl, wait_chan-Sound a b sound, λ h j. wait_chan-contents a b j)

  pub step-Steps : (c : Call) (b : Broker) → NoLonger lower c → Sound b → Steps lower c b
  unfolding Steps step arrivals got is_fifo requeue
  step-Steps (register a) b no_longer sound = register-Steps a b no_longer sound
  step-Steps (sends a m) b _ sound =
      let (b', e, sound', q, t) = send-Delivers a m b sound in
      (b', [], rw e refl, sound', λ h j. q j)
  step-Steps (dequeues a) b _ sound = dequeue-Steps a b sound
  step-Steps (requeues a m) b _ sound =
      let (b', e, sound', q, t) = notified-Sound a b (m ∷ contents b a) sound in
      (b', [], rw e refl, sound', λ h. cc)
  step-Steps (waits a) b _ sound = wait-Steps a b sound
