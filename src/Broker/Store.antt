-- ===== src/Broker/Store.antt =====
-- internal/stores/sbstore/broker.go. `none` is a run-time panic of Go: to close a channel twice, or
-- to slice a string past its end. A channel is its number, in the order of `make`.
use localaz.Common.{
  Bytes, codes, ℕ, suc, Bool, true, false, List, [], ◌∷◌, ◌++◌, Option, none, some, length, take,
  ltb, ◌==◌, has_prefix, if◌then◌else◌,
}
use localaz.Common.Dict.{or_empty, Dict, lookup, insert, erase}

infixl 5 ◌>>=◌
abbrev pub ◌>>=◌ : {A B : Type 0} → Option A → (A → Option B) → Option B
none >>= f = none
some a >>= f = f a

-- The broker's maps, and the channels that were closed and how many were made.
pub record Broker : Type 0 where
  pub queues : Dict (List Bytes)
  pub topic_subs : Dict (Dict (Unit {0}))
  pub waiters : Dict (List ℕ)
  pub closed : List ℕ
  pub made : ℕ

abbrev pub new : Broker
new = record { queues = []; topic_subs = []; waiters = []; closed = []; made = 0 }

abbrev pub contents : Broker → Bytes → List Bytes
contents b address = or_empty (lookup address b.queues)

abbrev pub waiting : Broker → Bytes → List ℕ
waiting b address = or_empty (lookup address b.waiters)

abbrev pub subscriptions : Broker → Bytes → Dict (Unit {0})
subscriptions b topic = or_empty (lookup topic b.topic_subs)

-- `strings.Index`
unfoldable pub index : Bytes → Bytes → Option ℕ
index sub [] = if has_prefix [] sub then some 0 else none
index sub (c ∷ s) =
    let rest = index sub s in if has_prefix (c ∷ s) sub then some 0 else (do i ← rest; some (suc i))

abbrev pub subscription_infix : Bytes
subscription_infix = codes "/subscriptions/"

-- `RegisterSubscription`, from the index of the infix
unfoldable pub register_at : Bytes → Option ℕ → Broker → Option Broker
register_at address none b = some b
register_at address (some i) b =
    if ltb (length address) i
    then none
    else some (record b {
      topic_subs =
          insert (take i address) (insert address tt (subscriptions b (take i address)))
            b.topic_subs;
    })

-- `lower` stands for strings.ToLower.
unfoldable pub register_subscription : (Bytes → Bytes) → Bytes → Broker → Option Broker
unfolding index register_at
register_subscription lower address b =
    register_at address (index subscription_infix (lower address)) b

unfoldable pub is_closed : ℕ → List ℕ → Bool
is_closed c [] = false
is_closed c (d ∷ ds) = let rest = is_closed c ds in if c == d then true else rest

-- the loop of `notifyLocked`
unfoldable pub close_all : List ℕ → List ℕ → Option (List ℕ)
unfolding is_closed
close_all [] closed = some closed
close_all (c ∷ cs) closed =
    let rest = close_all cs (c ∷ closed) in if is_closed c closed then none else rest

unfoldable pub notify_locked : Bytes → Broker → Option Broker
unfolding close_all
notify_locked address b = do
  closed ← close_all (waiting b address) b.closed
  some (record b { closed = closed; waiters = erase address b.waiters })

unfoldable pub enqueue_locked : Bytes → Bytes → Broker → Option Broker
unfolding notify_locked
enqueue_locked address msg b =
    notify_locked address
      (record b { queues = insert address (contents b address ++ (msg ∷ [])) b.queues })

-- the loop of `Send` over a topic's subscriptions
unfoldable pub enqueue_all : Dict (Unit {0}) → Bytes → Broker → Option Broker
enqueue_all [] msg b = some b
enqueue_all ((sub, _) ∷ subs) msg b = do b' ← enqueue_locked sub msg b; enqueue_all subs msg b'

-- `Send`, from the subscriptions of the address
unfoldable pub deliver : Dict (Unit {0}) → Bytes → Bytes → Broker → Option Broker
unfolding enqueue_all
deliver [] address msg b = enqueue_locked address msg b
deliver (sub ∷ subs) address msg b = enqueue_all (sub ∷ subs) msg b

unfoldable pub send : Bytes → Bytes → Broker → Option Broker
unfolding deliver
send address msg b = deliver (subscriptions b address) address msg b

-- `Dequeue`, from the messages at the address
unfoldable pub pop : Bytes → List Bytes → Broker → Option Bytes × Broker
pop address [] b = (none, b)
pop address (msg ∷ q) b = (some msg, record b { queues = insert address q b.queues })

unfoldable pub dequeue : Bytes → Broker → Option Bytes × Broker
unfolding pop
dequeue address b = pop address (contents b address) b

unfoldable pub requeue : Bytes → Bytes → Broker → Option Broker
unfolding notify_locked
requeue address msg b =
    notify_locked address (record b { queues = insert address (msg ∷ contents b address) b.queues })

-- the channel is made closed where a message is there
unfoldable pub wait_chan : Bytes → Broker → ℕ × Broker
wait_chan address b =
    let ch = b.made in
    if ltb 0 (length (contents b address))
    then (ch, record b { made = suc ch; closed = ch ∷ b.closed })
    else (
      ch,
      record b {
        made = suc ch;
        waiters = insert address (waiting b address ++ (ch ∷ [])) b.waiters;
      },
    )

-- The calls of the server's links, and what a run of them takes out, with its address.
pub data Call : Type 0 where
  register : Bytes → Call
  sends : Bytes → Bytes → Call
  dequeues : Bytes → Call
  requeues : Bytes → Bytes → Call
  waits : Bytes → Call

abbrev pub taken : Bytes → Option Bytes → List (Bytes × Bytes)
taken address none = []
taken address (some msg) = (address, msg) ∷ []

unfoldable pub step : (Bytes → Bytes) → Call → Broker → Option (Broker × List (Bytes × Bytes))
unfolding register_subscription send dequeue requeue wait_chan
step lower (register address) b = do b' ← register_subscription lower address b; some (b', [])
step lower (sends address msg) b = do b' ← send address msg b; some (b', [])
step lower (dequeues address) b =
    some ((dequeue address b).1, taken address ((dequeue address b).0))
step lower (requeues address msg) b = do b' ← requeue address msg b; some (b', [])
step lower (waits address) b = some ((wait_chan address b).1, [])

unfoldable pub run : (Bytes → Bytes) → List Call → Broker → Option (Broker × List (Bytes × Bytes))
unfolding step
run lower [] b = some (b, [])
run lower (c ∷ cs) b = do
  (b', out) ← step lower c b
  (b'', more) ← run lower cs b'
  some (b'', out ++ more)
