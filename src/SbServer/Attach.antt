-- ===== src/SbServer/Attach.antt =====
-- internal/servers/sbserver/conn.go: the handlers that open a connection, a session and a link.
use localaz.Common.{
  Bytes, codes, ℕ, Bool, true, false, not, ◌&&◌, [], ◌∷◌, ◌++◌, Option, none, some, length,
  bytes_eq, if◌then◌else◌,
}
use localaz.Amqp.Types.{null, bool, ushort, uint, string, Values, nil, cons}
use localaz.Amqp.Frame.{Frame, field, max_frame_size}
use localaz.Broker.Store.{Broker, index, register_subscription}
use localaz.SbServer.Helpers.{cbs_address, as_uint32, as_bool, as_string, address_of}
use localaz.SbServer.Link.{Link, sender_initial_credit}
use localaz.SbServer.Conn.{
  idle, Conn, Outcome, goes_on, crashed, next, link_key, drop_link, write_raw, write_amqp,
}

unfoldable pub on_open : Frame → Conn → Outcome
unfolding write_raw
on_open f c =
    write_amqp 0 0x10
      (cons (string (codes "localaz"))
        (cons null (cons (uint max_frame_size) (cons (ushort 65535) nil))))
      [] c

unfoldable pub on_begin : Frame → Conn → Outcome
unfolding write_raw
on_begin f c =
    write_amqp f.channel 0x11
      (cons (ushort f.channel)
        (cons (uint 0) (cons (uint 65535) (cons (uint 65535) (cons (uint 65535) nil)))))
      [] c

unfoldable pub grant_credit : ℕ → ℕ → ℕ → ℕ → Conn → Outcome
unfolding write_raw
grant_credit channel handle delivery_count credit c =
    write_amqp channel 0x13
      (cons (uint 0) (
        cons (uint 65535) (
          cons (uint 0) (
            cons (uint 65535)
              (cons (uint handle) (cons (uint delivery_count) (cons (uint credit) nil)))))))
      [] c

-- the address of the source for a receiver, of the target for a sender
unfoldable pub attach_address : Frame → Bytes
unfolding address_of as_bool field
attach_address f =
    if as_bool (field 2 f.fields)
    then address_of (field 5 f.fields)
    else address_of (field 6 f.fields)

unfoldable pub new_link : Frame → Link
unfolding attach_address as_uint32 as_string
new_link f = record {
  handle = as_uint32 (field 1 f.fields);
  channel = f.channel;
  name = as_string (field 0 f.fields);
  address = attach_address f;
  client_is_sender = not (as_bool (field 2 f.fields));
  is_cbs = bytes_eq (attach_address f) cbs_address;
  credit = 0;
  delivery_count = 0;
  closed = false;
  received = 0;
  since_flow = 0;
  partial = [];
}

-- the fields of the attach that echoes the client's
unfoldable pub attach_fields : Frame → Values
unfolding as_uint32 as_string as_bool field
attach_fields f = cons (string (as_string (field 0 f.fields))) (
    cons (uint (as_uint32 (field 1 f.fields))) (
      cons (bool (not (as_bool (field 2 f.fields)))) (
        cons (field 3 f.fields) (
          cons (field 4 f.fields) (
            cons (field 5 f.fields)
              (cons (field 6 f.fields) (cons null (cons (bool false) (cons (uint 0) nil)))))))))

abbrev pub is_management : Bytes → Bool
is_management address = elim (index (codes "$management") address) [ none ↦ false | some i ↦ true ]

-- the registration of a subscription's receiver
unfoldable pub registered : (Bytes → Bytes) → Link → Broker → Option Broker
unfolding register_subscription index
registered lower l b =
    if not l.client_is_sender && not l.is_cbs && not (is_management l.address)
    then register_subscription lower l.address b
    else some b

-- what follows the echo: credit for a sender, a deliver loop for a receiver
unfoldable pub start_link : ℕ → Link → Conn → Outcome
unfolding grant_credit
start_link i l c =
    if l.client_is_sender
    then grant_credit l.channel l.handle 0 sender_initial_credit c
    else if l.is_cbs
    then goes_on c
    else goes_on (record c { loops = c.loops ++ record { link = i; phase = idle } ∷ [] })

-- `lower` stands for strings.ToLower.
unfoldable pub on_attach : (Bytes → Bytes) → Frame → Conn → Outcome
unfolding new_link attach_fields registered start_link write_raw drop_link
on_attach lower f c =
    let l = new_link f in
    let i = length c.heap in
    elim (registered lower l c.broker) [
      | none ↦ crashed
      | some broker ↦
          let attached = record c {
            broker = broker;
            heap = c.heap ++ l ∷ [];
            links =
                (link_key f.channel l.handle, i) ∷ drop_link (link_key f.channel l.handle) c.links;
          } in
          next (write_amqp f.channel 0x12 (attach_fields f) [] attached) (λ c'. start_link i l c')
    ]
