-- ===== src/SbServer/Loop.antt =====
-- internal/servers/sbserver/conn.go: `deliverLoop`. A turn of a loop is one pass up to where it may
-- block; a loop that is blocked stays where it is.
use localaz.Common.{
  Bytes, ℕ, Bool, not, ◌&&◌, List, [], ◌∷◌, Option, none, some, get_elem?, if◌then◌else◌,
}
use localaz.Broker.Store.{Broker, dequeue, requeue, wait_chan, is_closed}
use localaz.SbServer.Link.{Link, Credit, blocked, refused, taken, take_credit}
use localaz.SbServer.Conn.{
  Phase, idle, ended, holding, waiting_on, Conn, Outcome, goes_on, stops, crashed, with_link,
}
use localaz.SbServer.Transfers.{deliver}

-- What a turn makes of the connection and the loop's phase; `broken` is a panic of Go.
pub data Turned : Type 0 where
  turned : Conn → Phase → Turned
  broken : Turned

-- after Dequeue: the message in hand, or a channel to wait at
unfoldable pub polled : Bytes → Option Bytes × Broker → Conn → Turned
unfolding wait_chan
polled address (some msg, b) c = turned (record c { broker = b }) (holding msg)
polled address (none, b) c =
    let (ch, b') = wait_chan address b in turned (record c { broker = b' }) (waiting_on ch)

-- a delivery that is written, or that failed: the loop returns, and the message is not given back
unfoldable pub delivered : Outcome → Turned
delivered (goes_on c) = turned c idle
delivered (stops c) = turned c ended
delivered crashed = broken

-- `takeCredit` with a message in hand
unfoldable pub hand_over : ℕ → Link → Bytes → Credit → Conn → Turned
unfolding requeue deliver delivered
hand_over i l msg blocked c = turned c (holding msg)
hand_over i l msg refused c = elim (requeue l.address msg c.broker) [
  | none ↦ broken
  | some b ↦ turned (record c { broker = b }) ended
]
hand_over i l msg (taken l') c = delivered (deliver l' msg (with_link i l' c))

-- One turn of the loop of the link at i. `done_first` is the choice of `select` where the channel and
-- `l.done` are both ready.
unfoldable pub turn : Bool → ℕ → Link → Phase → Conn → Turned
unfolding dequeue polled take_credit hand_over is_closed
turn done_first i l ended c = turned c ended
turn done_first i l idle c = polled l.address (dequeue l.address c.broker) c
turn done_first i l (holding msg) c = hand_over i l msg (take_credit l) c
turn done_first i l (waiting_on ch) c =
    let woken = is_closed ch c.broker.closed in
    if l.closed
    then (if woken && not done_first then turned c idle else turned c ended)
    else if woken
    then turned c idle
    else turned c (waiting_on ch)

-- Some turns of the loop, each with the link as it stands then.
unfoldable pub turns : List Bool → ℕ → Phase → Conn → Turned
unfolding turn
turns [] i phase c = turned c phase
turns (choice ∷ choices) i phase c = elim (get_elem? c.heap i) [
  | none ↦ broken
  | some l ↦ elim (turn choice i l phase c) [
    | broken ↦ broken
    | turned c' phase' ↦ turns choices i phase' c'
  ]
]
