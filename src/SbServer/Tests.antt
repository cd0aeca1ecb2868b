-- ===== src/SbServer/Tests.antt =====
-- The Service Bus server at a connection with one link.
use localaz.Common.{
  if◌then◌else◌, Bytes, codes, Bool, true, false, [], ◌∷◌, ◌++◌, ◌≡◌, refl, arith, bytes_eq,
}
use localaz.Common.Dict.{lookup}
use localaz.Common.Int.{pos}
use localaz.Amqp.Types.{null, bool, uint, byte, string, nil, cons}
use localaz.Amqp.Encode.{write_value}
use localaz.Amqp.Frame.{Frame, field}
use localaz.Broker.Store.{Broker, contents}
use localaz.SbServer.Helpers.{as_uint32, as_bool}
use localaz.SbServer.Link.{Link}
use localaz.SbServer.Conn.{Conn, idle, ended, crashed, link_at, find_link}
use localaz.SbServer.Attach.{on_attach}
use localaz.SbServer.Transfers.{on_transfer}
use localaz.SbServer.Loop.{turned, turns}
use localaz.SbServer.Crash.{on_attach-crashed}
use localaz.SbServer.Chunks.{on_transfers, bodies, on_transfers-bodies}
use localaz.SbServer.Delivery.{transfer_frames, turns-transfer_frames, turns-lost}

-- nothing to lower-case
abbrev same : Bytes → Bytes
same s = s

abbrev receiver : Link
receiver = record {
  handle = 1;
  channel = 0;
  name = codes "r";
  address = codes "orders";
  client_is_sender = false;
  is_cbs = false;
  credit = 2;
  delivery_count = 0;
  closed = false;
  received = 0;
  since_flow = 0;
  partial = [];
}

abbrev two_messages : Broker
two_messages = record {
  queues = (codes "orders", codes "a" ∷ codes "b" ∷ []) ∷ [];
  topic_subs = [];
  waiters = [];
  closed = [];
  made = 0;
}

abbrev connection : Conn
connection = record {
  broker = two_messages;
  heap = receiver ∷ [];
  links = (1, 0) ∷ [];
  loops = [];
  next_delivery_id = 7;
  alive = true;
  out = [];
}

abbrev bad_attach : Frame
bad_attach = record {
  typ = 0;
  channel = 0;
  code = 0x12;
  fields = cons (string (codes "l")) (cons (uint 1) (cons (bool true) (cons (byte (pos 0)) nil)));
  payload = [];
}

-- a transfer on handle 1
abbrev transfer : Bool → Bytes → Frame
transfer more body = record {
  typ = 0;
  channel = 0;
  code = 0x14;
  fields = cons (uint 1) (cons (uint 3) (cons null (cons null (cons null (cons (bool more) nil)))));
  payload = body;
}

on_attach-crashed_example : on_attach same bad_attach connection ≡ crashed
unfolding write_value field
on_attach-crashed_example = on_attach-crashed same bad_attach connection refl

on_transfers-bodies_example :
    on_transfers
      ((transfer true (codes "he") ∷ transfer true (codes "l") ∷ [])
        ++ transfer false (codes "lo") ∷ [])
      connection
    ≡ on_transfer
        (record (transfer false (codes "lo")) {
          payload =
              bodies (transfer true (codes "he") ∷ transfer true (codes "l") ∷ []) ++ codes "lo";
        })
        connection
unfolding link_at find_link as_uint32 as_bool field
on_transfers-bodies_example =
    on_transfers-bodies (transfer true (codes "he") ∷ transfer true (codes "l") ∷ [])
      (transfer false (codes "lo")) connection 0 receiver
      ((refl, refl, refl), ((refl, refl, refl), tt)) refl refl

turns-transfer_frames_example :
    (c' : Conn) × (turns (true ∷ true ∷ true ∷ true ∷ []) 0 idle connection ≡ turned c' idle)
    × (contents c'.broker (codes "orders") ≡ [])
    × (c'.out ≡ [] ++ transfer_frames 0 1 7 (codes "a" ∷ codes "b" ∷ []))
unfolding lookup bytes_eq
turns-transfer_frames_example =
    turns-transfer_frames (codes "a" ∷ codes "b" ∷ []) (true ∷ true ∷ true ∷ true ∷ []) 0 receiver
      connection refl refl refl (omega arith) refl refl

turns-lost_example :
    (c' : Conn) × (turns (true ∷ false ∷ true ∷ []) 0 idle (record connection { alive = false })
      ≡ turned c' ended)
    × (c'.out ≡ [])
    × ((j : Bytes)
        → contents c'.broker j
          ≡ (if bytes_eq (codes "orders") j then codes "b" ∷ [] else contents two_messages j))
unfolding lookup bytes_eq
turns-lost_example =
    turns-lost true false (true ∷ []) 0 receiver (codes "a") (codes "b" ∷ [])
      (record connection { alive = false }) refl refl refl refl refl
