-- ===== src/SbServer/Conn.antt =====
-- internal/servers/sbserver/conn.go, from a frame that is read to what is written. A link is its place
-- in `heap`; `links` is the map of the same name, from `linkKey` to that place.
use localaz.Common.{
  Bytes, ℕ, zero, suc, ◌+◌, ◌*◌, ◌^◌, Bool, List, [], ◌∷◌, ◌++◌, Option, none, some, get_elem?,
  ◌==◌, if◌then◌else◌,
}
use localaz.Amqp.Types.{Values}
use localaz.Amqp.Frame.{write_frame}
use localaz.Broker.Store.{Broker}
use localaz.SbServer.Link.{Link}

-- where a deliver loop stands: before Dequeue, with a message in hand, at its channel, or returned
pub data Phase : Type 0 where
  idle ended : Phase
  holding : Bytes → Phase
  waiting_on : ℕ → Phase

pub record Loop : Type 0 where
  pub link : ℕ
  pub phase : Phase

-- `alive` says that the peer takes what is written; `out` is what was written, frame by frame.
pub record Conn : Type 0 where
  pub broker : Broker
  pub heap : List Link
  pub links : List (ℕ × ℕ)
  pub loops : List Loop
  pub next_delivery_id : ℕ
  pub alive : Bool
  pub out : List Bytes

-- A handler returns nil or an error, or panics.
pub data Outcome : Type 0 where
  goes_on stops : Conn → Outcome
  crashed : Outcome

abbrev pub next : Outcome → (Conn → Outcome) → Outcome
next (goes_on c) f = f c
next (stops c) f = stops c
next crashed f = crashed

abbrev pub link_key : ℕ → ℕ → ℕ
link_key channel handle = channel * 2 ^ 32 + handle

unfoldable pub find_link : ℕ → List (ℕ × ℕ) → Option ℕ
find_link k [] = none
find_link k ((j, i) ∷ links) = let rest = find_link k links in if j == k then some i else rest

unfoldable pub drop_link : ℕ → List (ℕ × ℕ) → List (ℕ × ℕ)
drop_link k [] = []
drop_link k ((j, i) ∷ links) =
    let rest = drop_link k links in if j == k then rest else (j, i) ∷ rest

-- a link changed in place
unfoldable pub set_link : ℕ → Link → List Link → List Link
set_link i l [] = []
set_link zero l (k ∷ heap) = l ∷ heap
set_link (suc i) l (k ∷ heap) = k ∷ set_link i l heap

unfoldable pub link_at : Conn → ℕ → ℕ → Option (ℕ × Link)
unfolding find_link
link_at c channel handle = elim (find_link (link_key channel handle) c.links) [
  | none ↦ none
  | some i ↦ elim (get_elem? c.heap i) [ none ↦ none | some l ↦ some (i, l) ]
]

abbrev pub with_link : ℕ → Link → Conn → Conn
with_link i l c = record c { heap = set_link i l c.heap }

-- `writeAMQP` and `writeRaw`; the encoder may panic
unfoldable pub write_raw : ℕ → ℕ → ℕ → Values → Bytes → Conn → Outcome
unfolding write_frame
write_raw typ channel code fields payload c = elim (write_frame typ channel code fields payload) [
  | none ↦ crashed
  | some bytes ↦ if c.alive then goes_on (record c { out = c.out ++ bytes ∷ [] }) else stops c
]

abbrev pub write_amqp : ℕ → ℕ → Values → Bytes → Conn → Outcome
write_amqp channel code fields payload c = write_raw 0 channel code fields payload c
