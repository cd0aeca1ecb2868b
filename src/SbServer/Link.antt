-- ===== src/SbServer/Link.antt =====
-- internal/servers/sbserver/link.go, each operation under the link's mutex.
use localaz.Common.{
  Bytes, ℕ, ◌+◌, ◌-◌, ◌%◌, ◌^◌, Bool, true, false, [], ◌∷◌, ◌++◌, leb, ◌==◌, if◌then◌else◌,
}

abbrev pub sender_initial_credit : ℕ
sender_initial_credit = 5000

abbrev pub sender_credit_replenish_threshold : ℕ
sender_credit_replenish_threshold = 2500

pub record Link : Type 0 where
  pub handle : ℕ
  pub channel : ℕ
  pub name : Bytes
  pub address : Bytes
  pub client_is_sender : Bool
  pub is_cbs : Bool
  pub credit : ℕ
  pub delivery_count : ℕ
  pub closed : Bool
  pub received : ℕ
  pub since_flow : ℕ
  pub partial : Bytes

-- `l.credit += delta`, in 32 bits
unfoldable pub add_credit : ℕ → Link → Link
add_credit delta l = record l { credit = (l.credit + delta) % 2 ^ 32 }

unfoldable pub drain_credit : Link → Link × ℕ
drain_credit l = (record l { credit = 0 }, l.delivery_count)

-- What `takeCredit` does once it holds the lock: wait, refuse, or take a unit.
pub data Credit : Type 0 where
  blocked refused : Credit
  taken : Link → Credit

unfoldable pub take_credit : Link → Credit
take_credit l =
    if l.closed
    then refused
    else if l.credit == 0
    then blocked
    else taken
        (record l { credit = l.credit - 1; delivery_count = (l.delivery_count + 1) % 2 ^ 32 })

unfoldable pub append_partial : Bytes → Link → Link
append_partial chunk l = record l { partial = l.partial ++ chunk }

unfoldable pub take_partial : Bytes → Link → Link × Bytes
take_partial final l = elim l.partial [
  | [] ↦ (l, final)
  | b ∷ bs ↦ (record l { partial = [] }, (b ∷ bs) ++ final)
]

-- the link, whether to replenish, and the count to advertise
unfoldable pub record_received : Link → Link × Bool × ℕ
record_received l =
    let received = (l.received + 1) % 2 ^ 32 in
    let since = (l.since_flow + 1) % 2 ^ 32 in
    if leb sender_credit_replenish_threshold since
    then (record l { received = received; since_flow = 0 }, true, received)
    else (record l { received = received; since_flow = since }, false, received)

unfoldable pub close_link : Link → Link
close_link l = record l { closed = true }
