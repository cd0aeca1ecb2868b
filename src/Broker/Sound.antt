-- ===== src/Broker/Sound.antt =====
-- The invariant of the broker: what keeps `close` from a panic, and receivers from sleeping by a
-- message.
use localaz.Common.{
  Bytes, ℕ, ◌+◌, ◌≤◌, Bool, true, false, List, [], ◌∷◌, ◌++◌, Option, none, some, arith, bytes_eq,
  bytes_eq_iff, if◌then◌else◌, ◌≡◌, refl, sym, ap, ◌∙◌, Bool-cases, inl, inr, ◌⊎◌,
}
use mathlib.Core.List.{append-nil}
use localaz.Common.Dict.{
  or_empty, Dict, lookup, insert, erase, NodupKeys, lookup-insert, lookup-erase, erase-NodupKeys,
}
use localaz.Broker.Channels.{count, held, held-erase, close_all-once}
use localaz.Broker.Store.{
  Broker, contents, waiting, subscriptions, notify_locked, enqueue_locked, enqueue_all,
}

-- Each channel waits once or was closed once, and only if it was made.
abbrev ChannelsSound : Broker → Type 0
ChannelsSound b =
    ((c : ℕ) → held c b.waiters + count c b.closed ≤ 1)
    × ((c : ℕ) → b.made ≤ c → held c b.waiters + count c b.closed ≡ 0)
    × NodupKeys b.waiters

-- No receiver waits where a message is.
abbrev AwakeAt : Broker → Bytes → Type 0
AwakeAt b a = (waiting b a ≡ []) ⊎ (contents b a ≡ [])

-- The maps of `topicSubs` hold a subscription once.
abbrev pub SubsSound : Broker → Type 0
SubsSound b = (t : Bytes) → NodupKeys (subscriptions b t)

unfoldable pub Sound : Broker → Type 0
Sound b = ChannelsSound b × ((a : Bytes) → AwakeAt b a) × SubsSound b

-- Where all receivers at an address other than `a` are awake, notifying at `a` wakes the rest.
notify_locked-Sound :
    (a : Bytes) (b : Broker)
    → ChannelsSound b
    → ((j : Bytes) → bytes_eq a j ≡ false → AwakeAt b j)
    → SubsSound b
    → (b' : Broker) × (notify_locked a b ≡ some b')
      × Sound b'
      × (b'.queues ≡ b.queues)
      × (b'.topic_subs ≡ b.topic_subs)
unfolding notify_locked Sound
notify_locked-Sound a b (once, fresh, nodup) awake subs =
    let taken = λ (c : ℕ). held-erase c a b.waiters nodup in
    let (closed', e, same) =
      close_all-once (waiting b a) b.closed (λ c. omega (arith, once c, taken c)) in
    (
      record b { closed = closed'; waiters = erase a b.waiters },
      rw e refl,
      (
        (
          (λ c. omega (arith, once c, taken c, same c)),
          (λ c le. omega (arith, fresh c le, taken c, same c)),
          erase-NodupKeys a b.waiters nodup,
        ),
        (λ j. elim (Bool-cases (bytes_eq a j)) [
          | inl same ↦ inl (ap or_empty (lookup-erase j a b.waiters) ∙ rw same refl)
          | inr other ↦ elim (awake j other) [
            | inl e ↦ inl (ap or_empty (lookup-erase j a b.waiters) ∙ rw other e)
            | inr e ↦ inr e
          ]
        ]),
        subs,
      ),
      refl,
      refl,
    )

contents-insert :
    (b : Broker) (a j : Bytes) (q : List Bytes)
    → contents (record b { queues = insert a q b.queues }) j
      ≡ (if bytes_eq a j then q else contents b j)
contents-insert b a j q = ground (arith, lookup-insert j a q b.queues)

-- The outcome of a call that cannot panic, which adds `arrive j` at each address `j`.
abbrev pub Delivers : Broker → Option Broker → (Bytes → List Bytes) → Type 0
Delivers b result arrive =
    (b' : Broker) × (result ≡ some b')
    × Sound b'
    × ((j : Bytes) → contents b' j ≡ contents b j ++ arrive j)
    × (b'.topic_subs ≡ b.topic_subs)

pub notified-Sound :
    (a : Bytes) (b : Broker) (q : List Bytes)
    → Sound b
    → (b' : Broker) × (notify_locked a (record b { queues = insert a q b.queues }) ≡ some b')
      × Sound b'
      × ((j : Bytes) → contents b' j ≡ (if bytes_eq a j then q else contents b j))
      × (b'.topic_subs ≡ b.topic_subs)
unfolding Sound
notified-Sound a b q (channels, awake, subs) =
    let (b', e, sound, qs, ts) =
      notify_locked-Sound a (record b { queues = insert a q b.queues }) channels
        (λ j other. elim (awake j) [
          | inl e ↦ inl e
          | inr e ↦ inr (contents-insert b a j q ∙ rw other e)
        ])
        subs in
    (b', e, sound, (λ j. ap (λ m. or_empty (lookup j m)) qs ∙ contents-insert b a j q), ts)

added :
    (q r : List Bytes) (same : Bool) (m : Bytes)
    → (same ≡ true → q ≡ r)
    → (if same then q ++ (m ∷ []) else r) ≡ r ++ (if same then m ∷ [] else [])
added q r true m h = ap (λ x. x ++ (m ∷ [])) (h refl)
added q r false m h = sym (append-nil r)

twice :
    (q : List Bytes) (x y : Bool) (m : Bytes)
    → (x ≡ true → y ≡ false)
    → (q ++ (if x then m ∷ [] else [])) ++ (if y then m ∷ [] else [])
      ≡ q ++ (if (if x then true else y) then m ∷ [] else [])
twice q true y m h = rw (h refl) (append-nil (q ++ (m ∷ [])))
twice q false y m h = ap (λ x. x ++ (if y then m ∷ [] else [])) (append-nil q)

pub enqueue_locked-Delivers :
    (a m : Bytes) (b : Broker)
    → Sound b
    → Delivers b (enqueue_locked a m b) (λ j. if bytes_eq a j then m ∷ [] else [])
unfolding enqueue_locked
enqueue_locked-Delivers a m b sound =
    let (b', e, sound', qs, ts) = notified-Sound a b (contents b a ++ (m ∷ [])) sound in
    (
      b',
      e,
      sound',
      (λ j.
          qs j
          ∙ added (contents b a) (contents b j) (bytes_eq a j) m
              (λ h. ap (contents b) ((bytes_eq_iff a j).0 h))),
      ts,
    )

-- whether a topic has a subscription
unfoldable pub member : Bytes → Dict (Unit {0}) → Bool
member k [] = false
member k ((j, _) ∷ m) = let rest = member k m in if bytes_eq j k then true else rest

member-fresh : (k : Bytes) (m : Dict (Unit {0})) → lookup k m ≡ none → member k m ≡ false
unfolding member lookup
member-fresh k [] h = refl
member-fresh k ((j, u) ∷ m) h = ground (arith, member-fresh k m)

pub enqueue_all-Delivers :
    (subs : Dict (Unit {0})) (m : Bytes) (b : Broker)
    → NodupKeys subs
    → Sound b
    → Delivers b (enqueue_all subs m b) (λ j. if member j subs then m ∷ [] else [])
unfolding enqueue_all member
enqueue_all-Delivers [] m b u sound = (b, refl, sound, (λ j. sym (append-nil (contents b j))), refl)
enqueue_all-Delivers ((s, _) ∷ subs) m b (fresh, u) sound =
    let (b1, e1, sound1, c1, t1) = enqueue_locked-Delivers s m b sound in
    let (b2, e2, sound2, c2, t2) = enqueue_all-Delivers subs m b1 u sound1 in
    (
      b2,
      rw e1 e2,
      sound2,
      (λ j.
          c2 j
          ∙ ap (λ q. q ++ (if member j subs then m ∷ [] else [])) (c1 j)
          ∙ twice (contents b j) (bytes_eq s j) (member j subs) m (λ h.
            ap (λ k. member k subs) (sym ((bytes_eq_iff s j).0 h)) ∙ member-fresh s subs fresh)),
      t2 ∙ t1,
    )
