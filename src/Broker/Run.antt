-- ===== src/Broker/Run.antt =====
-- Runs of calls on the broker: no panic, and first in, first out at each address.
use localaz.Common.{
  Bytes, Bool, true, false, List, [], ◌∷◌, ◌++◌, none, some, arith, bytes_eq, bytes_eq_iff,
  bytes_eq_refl, ◌≡◌, refl, sym, ap, ◌∙◌, Bool-cases, inl, inr, All, ◌&&◌,
}
use mathlib.Core.List.{append-nil, append_assoc}
use localaz.Common.Dict.{or_empty, lookup, insert, lookup-insert}
use localaz.Broker.Sound.{Sound, notified-Sound}
use localaz.Broker.Store.{Broker, contents, pop, dequeue, requeue, Call, step, run}
use localaz.Broker.Steps.{Steps, NoLonger, step-Steps, got, arrivals, is_fifo, popped-Sound}

-- What comes to the address `j` over a run.
unfoldable pub all_arrivals : (Bytes → Bytes) → Bytes → List Call → Broker → List Bytes
unfolding arrivals
all_arrivals lower j [] b = []
all_arrivals lower j (c ∷ cs) b =
    arrivals j c b
    ++ elim (step lower c b) [ none ↦ [] | some (b', out) ↦ all_arrivals lower j cs b' ]

abbrev pub all_fifo : List Call → Bool
all_fifo [] = true
all_fifo (c ∷ cs) = is_fifo c && all_fifo cs

got-append : (j : Bytes) (xs ys : List (Bytes × Bytes)) → got j (xs ++ ys) ≡ got j xs ++ got j ys
unfolding got
got-append j [] ys = refl
got-append j ((a, m) ∷ xs) ys = ground (arith, got-append j xs ys)

both : (x y : Bool) → (x && y) ≡ true → (x ≡ true) × (y ≡ true)
both true true h = (refl, refl)
both true false h = cc
both false y h = cc

-- The outcome of a run.
Runs : (Bytes → Bytes) → List Call → Broker → Type 0
unfolding run all_arrivals
Runs lower cs b =
    (b' : Broker) × (out : List (Bytes × Bytes)) × (run lower cs b ≡ some (b', out))
    × Sound b'
    × (all_fifo cs ≡ true
        → (j : Bytes) → got j out ++ contents b' j ≡ contents b j ++ all_arrivals lower j cs b)

-- Lower-casing makes no address longer that the run registers.
abbrev pub NoneLonger : (Bytes → Bytes) → List Call → Type 0
NoneLonger lower = All (NoLonger lower)

run-Runs :
    (lower : Bytes → Bytes) (cs : List Call) (b : Broker)
    → NoneLonger lower cs
    → Sound b
    → Runs lower cs b
unfolding run all_arrivals got Steps Runs
run-Runs lower [] b _ sound = (b, [], refl, sound, λ h j. sym (append-nil (contents b j)))
run-Runs lower (c ∷ cs) b (short, shorts) sound =
    let (b1, out1, e1, sound1, fifo1) = step-Steps lower c b short sound in
    let (b2, out2, e2, sound2, fifo2) = run-Runs lower cs b1 shorts sound1 in
    (
      b2,
      out1 ++ out2,
      rw (e1, e2) refl,
      sound2,
      λ h j.
          let (h1, h2) = both (is_fifo c) (all_fifo cs) h in
          let later = all_arrivals lower j cs b1 in
          rw e1 (
            ap (λ q. q ++ contents b2 j) (got-append j out1 out2)
            ∙ append_assoc (got j out1) (got j out2) (contents b2 j)
            ∙ ap (λ q. got j out1 ++ q) (fifo2 h2 j)
            ∙ sym (append_assoc (got j out1) (contents b1 j) later)
            ∙ ap (λ q. q ++ later) (fifo1 h1 j)
            ∙ append_assoc (contents b j) (arrivals j c b) later),
    )

-- On a sound broker, a run of calls in which lower-casing makes no address longer that it registers
-- does not panic and ends in a sound broker: no channel is closed twice, and where a message is, no
-- receiver waits.
pub run-Sound :
    (lower : Bytes → Bytes) (cs : List Call) (b : Broker)
    → NoneLonger lower cs
    → Sound b
    → (b' : Broker) × (out : List (Bytes × Bytes)) × (run lower cs b ≡ some (b', out)) × Sound b'
unfolding Runs
run-Sound lower cs b shorts sound =
    let (b', out, e, sound', fifo) = run-Runs lower cs b shorts sound in (b', out, e, sound')

-- On a sound broker, a run of calls without `Requeue`, in which lower-casing makes no address longer
-- that it registers, returns, and what it takes from an address and what is left there are, in order,
-- what was there and what was sent there, directly or through a topic, once each.
pub run-fifo :
    (lower : Bytes → Bytes) (cs : List Call) (b : Broker) (j : Bytes)
    → NoneLonger lower cs
    → Sound b
    → all_fifo cs ≡ true
    → (b' : Broker) × (out : List (Bytes × Bytes)) × (run lower cs b ≡ some (b', out))
      × (got j out ++ contents b' j ≡ contents b j ++ all_arrivals lower j cs b)
unfolding Runs
run-fifo lower cs b j shorts sound h =
    let (b', out, e, sound', fifo) = run-Runs lower cs b shorts sound in (b', out, e, fifo h j)

requeue-front :
    (a m : Bytes) (q : List Bytes) (b : Broker)
    → contents b a ≡ m ∷ q
    → Sound b
    → (b' : Broker) × (requeue a m (record b { queues = insert a q b.queues }) ≡ some b')
      × Sound b'
      × ((j : Bytes) → contents b' j ≡ contents b j)
unfolding requeue
requeue-front a m q b e sound =
    let (b', e', sound', cs, t) =
      notified-Sound a (record b { queues = insert a q b.queues })
        (m ∷ or_empty (lookup a (insert a q b.queues))) (popped-Sound a m q b e sound) in
    (
      b',
      e',
      sound',
      λ j. cs j ∙ elim (Bool-cases (bytes_eq a j)) [
        | inl there ↦ rw there (
            ap (λ o. m ∷ or_empty o) (lookup-insert a a q b.queues)
            ∙ rw (bytes_eq_refl a) (sym e ∙ ap (contents b) ((bytes_eq_iff a j).0 there)))
        | inr other ↦ rw other (ap or_empty (lookup-insert j a q b.queues) ∙ rw other refl)
      ],
    )

-- On a sound broker with a message at the address, `Requeue` of the message that `Dequeue` took
-- does not panic and puts all queues back as they were.
pub requeue-dequeue :
    (a m : Bytes) (q : List Bytes) (b : Broker) (j : Bytes)
    → contents b a ≡ m ∷ q
    → Sound b
    → (b' : Broker) × ((dequeue a b).0 ≡ some m)
      × (requeue a m ((dequeue a b).1) ≡ some b')
      × Sound b'
      × (contents b' j ≡ contents b j)
unfolding dequeue pop
requeue-dequeue a m q b j e sound =
    let (b', e', sound', same) = requeue-front a m q b e sound in
    rw e (b', refl, e', sound', same j)
