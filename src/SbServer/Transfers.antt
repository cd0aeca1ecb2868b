-- ===== src/SbServer/Transfers.antt =====
-- internal/servers/sbserver/conn.go: the handlers of a link's frames, `handleCBS` of cbs.go, and `dispatch`.
use localaz.Common.{
  Bytes, ℕ, ◌+◌, ◌/◌, ◌%◌, ◌^◌, Bool, true, false, not, ◌&&◌, List, [], ◌∷◌, Option, none, some,
  get_elem?, ◌==◌, if◌then◌else◌,
}
use localaz.Amqp.Types.{Value, bool, uint, ulong, binary, described, list, Values, nil, cons}
use localaz.Amqp.Frame.{Frame, field}
use localaz.Broker.Store.{send}
use localaz.SbServer.Helpers.{as_uint32, as_bool, is_null, parse_message_id, build_cbs_response}
use localaz.SbServer.Link.{
  Link, sender_initial_credit, add_credit, drain_credit, append_partial, take_partial,
  record_received, close_link,
}
use localaz.SbServer.Conn.{
  Conn, Outcome, goes_on, stops, crashed, next, link_key, drop_link, set_link, link_at, with_link,
  write_raw, write_amqp,
}
use localaz.SbServer.Attach.{on_open, on_begin, grant_credit, on_attach}

-- the flow that answers a drain
unfoldable pub drained_fields : ℕ → ℕ → Values
drained_fields handle count = cons (uint 0) (
    cons (uint 65535) (
      cons (uint 0) (
        cons (uint 65535) (
          cons (uint handle)
            (cons (uint count) (cons (uint 0) (cons (uint 0) (cons (bool true) nil))))))))

unfoldable pub on_flow : Frame → Conn → Outcome
unfolding link_at as_uint32 as_bool field drained_fields drain_credit add_credit write_raw
on_flow f c =
    if is_null (field 4 f.fields)
    then goes_on c
    else elim (link_at c f.channel (as_uint32 (field 4 f.fields))) [
      | none ↦ goes_on c
      | some (i, l) ↦
          if l.client_is_sender
          then goes_on c
          else if as_bool (field 8 f.fields)
          then write_amqp f.channel 0x13
              (drained_fields (as_uint32 (field 4 f.fields)) (drain_credit l).1) []
              (with_link i (drain_credit l).0 c)
          else goes_on (with_link i (add_credit (as_uint32 (field 6 f.fields)) l) c)
    ]

abbrev pub accepted : Value
accepted = described (ulong 0x24) (list nil)

-- the tag of a delivery: the identifier's bytes, the low one first
abbrev pub delivery_tag : ℕ → Bytes
delivery_tag id = id % 256 ∷ id / 2 ^ 8 % 256 ∷ id / 2 ^ 16 % 256 ∷ id / 2 ^ 24 % 256 ∷ []

unfoldable pub transfer_fields : ℕ → ℕ → Values
transfer_fields handle id = cons (uint handle) (
    cons (uint id)
      (cons (binary (delivery_tag id)) (cons (uint 0) (cons (bool false) (cons (bool false) nil)))))

unfoldable pub deliver : Link → Bytes → Conn → Outcome
unfolding transfer_fields write_raw
deliver l msg c =
    write_amqp l.channel 0x14 (transfer_fields l.handle c.next_delivery_id) msg
      (record c { next_delivery_id = (c.next_delivery_id + 1) % 2 ^ 32 })

-- `findCBSReceiver`, in the order in which Go iterates
unfoldable pub find_cbs_receiver : ℕ → List (ℕ × ℕ) → List Link → Option Link
find_cbs_receiver channel [] heap = none
find_cbs_receiver channel ((k, i) ∷ links) heap =
    let rest = find_cbs_receiver channel links heap in
    elim (get_elem? heap i) [
      | none ↦ rest
      | some l ↦
          if l.is_cbs && not l.client_is_sender && (l.channel == channel) then some l else rest
    ]

unfoldable pub handle_cbs : Link → Bytes → Conn → Outcome
unfolding parse_message_id build_cbs_response find_cbs_receiver deliver
handle_cbs l payload c = elim (parse_message_id payload) [
  | none ↦ crashed
  | some id ↦ elim (build_cbs_response id) [
    | none ↦ crashed
    | some response ↦ elim (find_cbs_receiver l.channel c.links c.heap) [
      | none ↦ goes_on c
      | some receiver ↦ deliver receiver response c
    ]
  ]
]

-- the disposition that settles deliveries as accepted
unfoldable pub settled_fields : Bool → ℕ → ℕ → Values
settled_fields role first last =
    cons (bool role) (cons (uint first) (cons (uint last) (cons (bool true) (cons accepted nil))))

-- the window of a sender, filled up again once enough of it is used
unfoldable pub replenish : ℕ → ℕ → Link → Conn → Outcome
unfolding record_received grant_credit
replenish handle i l c =
    let (l', due, received) = record_received l in
    if due
    then grant_credit l.channel handle received sender_initial_credit (with_link i l' c)
    else goes_on (with_link i l' c)

-- a whole message, on a link that is not for claims: to the broker
unfoldable pub relay : ℕ → ℕ → Link → Bytes → Conn → Outcome
unfolding send replenish
relay handle i l msg c = elim (send l.address msg c.broker) [
  | none ↦ crashed
  | some broker ↦ replenish handle i l (record c { broker = broker })
]

-- the end of a delivery: the message is whole, and is relayed and settled
unfoldable pub complete_transfer : Frame → ℕ → Link → Conn → Outcome
unfolding take_partial relay handle_cbs settled_fields as_uint32 field write_raw
complete_transfer f i l c =
    let (l', msg) = take_partial f.payload l in
    let c' = with_link i l' c in
    let relayed =
      if l.is_cbs then handle_cbs l' msg c' else relay (as_uint32 (field 0 f.fields)) i l' msg c' in
    next relayed (λ done.
      let id = as_uint32 (field 1 f.fields) in
      write_amqp f.channel 0x15 (settled_fields true id id) [] done)

unfoldable pub on_transfer : Frame → Conn → Outcome
unfolding link_at as_uint32 as_bool field append_partial complete_transfer
on_transfer f c = elim (link_at c f.channel (as_uint32 (field 0 f.fields))) [
  | none ↦ goes_on c
  | some (i, l) ↦
      if as_bool (field 5 f.fields)
      then goes_on (with_link i (append_partial f.payload l) c)
      else complete_transfer f i l c
]

unfoldable pub on_detach : Frame → Conn → Outcome
unfolding link_at as_uint32 field close_link drop_link write_raw
on_detach f c =
    let handle = as_uint32 (field 0 f.fields) in
    let detached : Conn = elim (link_at c f.channel handle) [
      | none ↦ c
      | some (i, l) ↦ record (with_link i (close_link l) c) {
        links = drop_link (link_key f.channel handle) c.links;
      }
    ] in
    write_amqp f.channel 0x16 (cons (uint handle) (cons (bool true) nil)) [] detached

unfoldable pub on_disposition : Frame → Conn → Outcome
unfolding as_uint32 as_bool field settled_fields write_raw
on_disposition f c =
    let first = as_uint32 (field 1 f.fields) in
    let last = if is_null (field 2 f.fields) then first else as_uint32 (field 2 f.fields) in
    if not (as_bool (field 0 f.fields))
    then goes_on c
    else if as_bool (field 3 f.fields)
    then goes_on c
    else write_amqp f.channel 0x15 (settled_fields false first last) [] c

-- an error ends the connection, also where the write succeeds
abbrev pub stopped : Outcome → Outcome
stopped (goes_on c) = stops c
stopped (stops c) = stops c
stopped crashed = crashed

unfoldable pub dispatch : (Bytes → Bytes) → Frame → Conn → Outcome
unfolding on_open on_begin on_attach on_flow on_transfer on_disposition on_detach write_raw
dispatch lower f c =
    if f.code == 0x10
    then on_open f c
    else if f.code == 0x11
    then on_begin f c
    else if f.code == 0x12
    then on_attach lower f c
    else if f.code == 0x13
    then on_flow f c
    else if f.code == 0x14
    then on_transfer f c
    else if f.code == 0x15
    then on_disposition f c
    else if f.code == 0x16
    then on_detach f c
    else if f.code == 0x17
    then write_amqp f.channel 0x17 nil [] c
    else if f.code == 0x18
    then stopped (write_amqp 0 0x18 nil [] c)
    else goes_on c

-- every link of the map is closed
unfoldable pub close_all_links : List (ℕ × ℕ) → List Link → List Link
unfolding set_link close_link
close_all_links [] heap = heap
close_all_links ((k, i) ∷ links) heap =
    close_all_links links
      (elim (get_elem? heap i) [ none ↦ heap | some l ↦ set_link i (close_link l) heap ])
