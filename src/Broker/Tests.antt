-- ===== src/Broker/Tests.antt =====
-- The broker at a concrete run: two subscriptions of a topic, a receiver that waits, and a queue.
use localaz.Common.{
  Bytes, codes, ℕ, ◌+◌, true, List, [], ◌∷◌, ◌++◌, some, if◌then◌else◌, leb, ◌≡◌, refl, inl, arith,
  ◌&&◌, has_prefix, bytes_eq,
}
use localaz.Common.Dict.{lookup, insert, erase}
use localaz.Broker.Store.{
  Broker, new, contents, dequeue, requeue, step, enqueue_locked, Call, register, sends, dequeues,
  waits, run,
}
use localaz.Broker.Sound.{Sound}
use localaz.Broker.Steps.{got, is_fifo}
use localaz.Broker.Run.{NoneLonger, all_fifo, all_arrivals, run-Sound, run-fifo, requeue-dequeue}

-- strings.ToLower of ASCII text
abbrev lower_byte : ℕ → ℕ
lower_byte c = if leb 65 c && leb c 90 then c + 32 else c

abbrev ascii_lower : Bytes → Bytes
ascii_lower [] = []
ascii_lower (c ∷ s) = lower_byte c ∷ ascii_lower s

new-Sound : Sound new
unfolding Sound lookup
new-Sound = (((λ c. omega arith), (λ c le. omega arith), tt), (λ a. inl refl), λ t. tt)

abbrev sub_a : Bytes
sub_a = codes "t/Subscriptions/a"

abbrev sub_b : Bytes
sub_b = codes "t/Subscriptions/b"

abbrev calls : List Call
calls =
    register sub_a
    ∷ register sub_b
    ∷ waits sub_a
    ∷ sends (codes "t") (1 ∷ [])
    ∷ sends (codes "t") (2 ∷ [])
    ∷ dequeues sub_a
    ∷ sends (codes "q") (3 ∷ [])
    ∷ []

calls_short : NoneLonger ascii_lower calls
calls_short = (omega arith, (omega arith, (tt, (tt, (tt, (tt, (tt, tt)))))))

run-Sound_example :
    (b' : Broker) × (out : List (Bytes × Bytes)) × (run ascii_lower calls new ≡ some (b', out))
    × Sound b'
run-Sound_example = run-Sound ascii_lower calls new calls_short new-Sound

calls_fifo : all_fifo calls ≡ true
unfolding is_fifo
calls_fifo = refl

run-fifo_example :
    (b' : Broker) × (out : List (Bytes × Bytes)) × (run ascii_lower calls new ≡ some (b', out))
    × (got sub_a out ++ contents b' sub_a
        ≡ contents new sub_a ++ all_arrivals ascii_lower sub_a calls new)
run-fifo_example = run-fifo ascii_lower calls new sub_a calls_short new-Sound calls_fifo

-- the first subscription gets each message of the topic, in order
arrivals_at_a : all_arrivals ascii_lower sub_a calls new ≡ (1 ∷ []) ∷ (2 ∷ []) ∷ []
unfolding all_arrivals step has_prefix lookup insert bytes_eq enqueue_locked erase
arrivals_at_a = refl

abbrev queued : Broker
queued = record new { queues = (codes "q", (3 ∷ []) ∷ (4 ∷ []) ∷ []) ∷ [] }

queued-Sound : Sound queued
unfolding Sound lookup
queued-Sound = (((λ c. omega arith), (λ c le. omega arith), tt), (λ a. inl refl), λ t. tt)

queued_front : contents queued (codes "q") ≡ (3 ∷ []) ∷ (4 ∷ []) ∷ []
unfolding lookup bytes_eq
queued_front = refl

requeue-dequeue_example :
    (b' : Broker) × ((dequeue (codes "q") queued).0 ≡ some (3 ∷ []))
    × (requeue (codes "q") (3 ∷ []) ((dequeue (codes "q") queued).1) ≡ some b')
    × Sound b'
    × (contents b' (codes "q") ≡ contents queued (codes "q"))
requeue-dequeue_example =
    requeue-dequeue (codes "q") (3 ∷ []) ((4 ∷ []) ∷ []) queued (codes "q") queued_front
      queued-Sound
