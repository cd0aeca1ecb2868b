-- ===== src/SbServer/Delivery.antt =====
-- internal/servers/sbserver: what a deliver loop sends while there is credit.
use localaz.Common.{
  Bytes, ℕ, ◌+◌, ◌*◌, ◌-◌, ◌%◌, ◌^◌, ◌≤◌, Bool, true, false, List, [], ◌∷◌, ◌++◌, none, some,
  length, get_elem?, bytes_eq_refl, bytes_eq, if◌then◌else◌, ◌≡◌, refl, sym, ap, ◌∙◌, arith,
  append_assoc, append-nil, ◌==◌,
}
use localaz.Common.Dict.{or_empty, or_empty-if, lookup, insert, lookup-insert}
use localaz.Amqp.Encode.{write_value, write_all, encode_described_list, trim, cons_trimmed}
use localaz.Amqp.Frame.{write_frame}
use localaz.Broker.Store.{Broker, contents, dequeue, pop}
use localaz.SbServer.Link.{Link, take_credit}
use localaz.SbServer.Conn.{idle, ended, holding, Conn, set_link, write_raw}
use localaz.SbServer.Transfers.{transfer_fields, deliver}
use localaz.SbServer.Loop.{turned, polled, delivered, hand_over, turn, turns}
use localaz.SbServer.Chunks.{get_elem?-set_link}

-- the frame of a delivery
unfoldable pub transfer_frame : ℕ → ℕ → ℕ → Bytes → Bytes
unfolding write_frame
transfer_frame channel handle id msg =
    elim (write_frame 0 channel 0x14 (transfer_fields handle id) msg) [ none ↦ [] | some b ↦ b ]

transfer_frame_lem :
    (channel handle id : ℕ) (msg : Bytes)
    → write_frame 0 channel 0x14 (transfer_fields handle id) msg
      ≡ some (transfer_frame channel handle id msg)
unfolding transfer_frame write_frame transfer_fields encode_described_list trim cons_trimmed
    write_value write_all
transfer_frame_lem channel handle id msg = refl

-- the frames of some messages, with their identifiers in 32 bits
abbrev pub transfer_frames : ℕ → ℕ → ℕ → List Bytes → List Bytes
transfer_frames channel handle id [] = []
transfer_frames channel handle id (m ∷ ms) =
    transfer_frame channel handle id m ∷ transfer_frames channel handle ((id + 1) % 2 ^ 32) ms

-- the link after it has taken a unit of credit
abbrev used : Link → Link
used l = record l { credit = l.credit - 1; delivery_count = (l.delivery_count + 1) % 2 ^ 32 }

-- the connection after one delivery
abbrev after_one : ℕ → Link → Bytes → List Bytes → Conn → Conn
after_one i l m q c = record c {
  broker = record c.broker { queues = insert l.address q c.broker.queues };
  heap = set_link i (used l) c.heap;
  next_delivery_id = (c.next_delivery_id + 1) % 2 ^ 32;
  out = c.out ++ transfer_frame l.channel l.handle c.next_delivery_id m ∷ [];
}

polls :
    (done_first : Bool) (i : ℕ) (l : Link) (m : Bytes) (q : List Bytes) (c : Conn)
    → contents c.broker l.address ≡ m ∷ q
    → turn done_first i l idle c
      ≡ turned
          (record c { broker = record c.broker { queues = insert l.address q c.broker.queues } })
          (holding m)
unfolding turn dequeue pop polled
polls done_first i l m q c h = rw h refl

hands_over :
    (done_first : Bool) (i : ℕ) (l : Link) (m : Bytes) (c : Conn)
    → l.closed ≡ false
    → (l.credit == 0) ≡ false
    → c.alive ≡ true
    → turn done_first i l (holding m) c
      ≡ turned
          (record c {
            heap = set_link i (used l) c.heap;
            next_delivery_id = (c.next_delivery_id + 1) % 2 ^ 32;
            out = c.out ++ transfer_frame l.channel l.handle c.next_delivery_id m ∷ [];
          })
          idle
unfolding turn take_credit hand_over deliver delivered write_raw
hands_over done_first i l m c not_closed some_credit alive =
    rw
      (
        take_credit,
        not_closed,
        some_credit,
        write_raw,
        transfer_frame_lem l.channel l.handle c.next_delivery_id m,
        alive,
      )
      refl

contents-insert_at :
    (b : Broker) (address j : Bytes) (q : List Bytes)
    → contents (record b { queues = insert address q b.queues }) j
      ≡ (if bytes_eq address j then q else contents b j)
contents-insert_at b address j q =
    ap or_empty (lookup-insert j address q b.queues)
    ∙ or_empty-if (bytes_eq address j) q (lookup j b.queues)

contents-insert :
    (b : Broker) (address : Bytes) (q : List Bytes)
    → contents (record b { queues = insert address q b.queues }) address ≡ q
contents-insert b address q =
    contents-insert_at b address address q ∙ rw (bytes_eq_refl address) refl

two_turns :
    (a b : Bool) (choices : List Bool) (i : ℕ) (l : Link) (m : Bytes) (q : List Bytes) (c : Conn)
    → get_elem? c.heap i ≡ some l
    → l.closed ≡ false
    → (l.credit == 0) ≡ false
    → c.alive ≡ true
    → contents c.broker l.address ≡ m ∷ q
    → turns (a ∷ b ∷ choices) i idle c ≡ turns choices i idle (after_one i l m q c)
unfolding turns
two_turns a b choices i l m q c there not_closed some_credit alive full =
    let polled_it = polls a i l m q c full in
    let held : Conn = record c {
      broker = record c.broker { queues = insert l.address q c.broker.queues };
    } in
    let over = hands_over b i l m held not_closed some_credit alive in
    rw (turns, there, polled_it, turns, there, over) refl

-- While the link is open, has a credit for each message, and the peer takes what is written, a loop
-- that starts on a queue sends all its messages, in order and one transfer each, within two turns for
-- each, and is back at Dequeue with the queue empty.
pub turns-transfer_frames :
    (ms : List Bytes) (choices : List Bool) (i : ℕ) (l : Link) (c : Conn)
    → length choices ≡ 2 * length ms
    → get_elem? c.heap i ≡ some l
    → l.closed ≡ false
    → length ms ≤ l.credit
    → c.alive ≡ true
    → contents c.broker l.address ≡ ms
    → (c' : Conn) × (turns choices i idle c ≡ turned c' idle)
      × (contents c'.broker l.address ≡ [])
      × (c'.out ≡ c.out ++ transfer_frames l.channel l.handle c.next_delivery_id ms)
unfolding turns
turns-transfer_frames [] [] i l c n there not_closed le alive full =
    (c, refl, full, sym (append-nil c.out))
turns-transfer_frames [] (a ∷ choices) i l c n there not_closed le alive full = absurd (omega arith)
turns-transfer_frames (m ∷ ms) [] i l c n there not_closed le alive full = absurd (omega arith)
turns-transfer_frames (m ∷ ms) (a ∷ []) i l c n there not_closed le alive full =
    absurd (omega arith)
turns-transfer_frames (m ∷ ms) (a ∷ b ∷ choices) i l c n there not_closed le alive full =
    let next_one = after_one i l m ms c in
    let (c', run, empty, sent) =
      turns-transfer_frames ms choices i (used l) next_one (omega arith)
        (get_elem?-set_link i (used l) l c.heap there) not_closed (omega arith) alive
        (contents-insert c.broker l.address ms) in
    (
      c',
      two_turns a b choices i l m ms c there not_closed (ground arith) alive full ∙ run,
      empty,
      sent
          ∙ append_assoc c.out (transfer_frame l.channel l.handle c.next_delivery_id m ∷ [])
              (transfer_frames l.channel l.handle ((c.next_delivery_id + 1) % 2 ^ 32) ms),
    )

-- the connection after a delivery whose write failed
abbrev after_failure : ℕ → Link → Conn → Conn
after_failure i l c = record c {
  heap = set_link i (used l) c.heap;
  next_delivery_id = (c.next_delivery_id + 1) % 2 ^ 32;
}

fails :
    (done_first : Bool) (i : ℕ) (l : Link) (m : Bytes) (c : Conn)
    → l.closed ≡ false
    → (l.credit == 0) ≡ false
    → c.alive ≡ false
    → turn done_first i l (holding m) c ≡ turned (after_failure i l c) ended
unfolding turn take_credit hand_over deliver delivered write_raw
fails done_first i l m c not_closed some_credit gone =
    rw
      (
        take_credit,
        not_closed,
        some_credit,
        write_raw,
        transfer_frame_lem l.channel l.handle c.next_delivery_id m,
        gone,
      )
      refl

turns-ended :
    (choices : List Bool) (i : ℕ) (l : Link) (c : Conn)
    → get_elem? c.heap i ≡ some l
    → turns choices i ended c ≡ turned c ended
unfolding turns turn
turns-ended [] i l c there = refl
turns-ended (a ∷ choices) i l c there = rw (turns, there) (turns-ended choices i l c there)

-- While the link is open and has credit, but the peer is gone, a loop that is at Dequeue with messages
-- at its address ends within two turns, and stays so. The first message is lost: no frame was written,
-- its queue holds the messages behind it only, and no other queue has changed.
pub turns-lost :
    (a b : Bool) (choices : List Bool) (i : ℕ) (l : Link) (m : Bytes) (q : List Bytes) (c : Conn)
    → get_elem? c.heap i ≡ some l
    → l.closed ≡ false
    → (l.credit == 0) ≡ false
    → c.alive ≡ false
    → contents c.broker l.address ≡ m ∷ q
    → (c' : Conn) × (turns (a ∷ b ∷ choices) i idle c ≡ turned c' ended)
      × (c'.out ≡ c.out)
      × ((j : Bytes)
          → contents c'.broker j ≡ (if bytes_eq l.address j then q else contents c.broker j))
unfolding turns
turns-lost a b choices i l m q c there not_closed some_credit gone full =
    let polled_it = polls a i l m q c full in
    let held : Conn = record c {
      broker = record c.broker { queues = insert l.address q c.broker.queues };
    } in
    let failed = fails b i l m held not_closed some_credit gone in
    (
      after_failure i l held,
      rw (turns, there, polled_it, turns, there, failed)
          (turns-ended choices i (used l) (after_failure i l held)
            (get_elem?-set_link i (used l) l c.heap there)),
      refl,
      λ j. contents-insert_at c.broker l.address j q,
    )
