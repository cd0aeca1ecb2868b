-- ===== src/Queue/Messages.antt =====
-- The loops over a queue's messages, of internal/stores/queuestore/store.go and messages.go.
use localaz.Common.{
  Bytes, ℕ, ◌+◌, ◌*◌, not, List, [], ◌∷◌, leb, bytes_eq, keep, Result, ok, err, if◌then◌else◌,
}
use localaz.Common.Int.{ℤ, pos, negsuc, ◌+ℤ◌}
use localaz.Queue.Types.{
  Error, message_not_found, pop_receipt_mismatch, Time, zero_time, Message, Queue, visible, expired,
}

abbrev pub second : ℕ
second = 1_000_000_000

-- 7 days
abbrev pub default_ttl : ℤ
default_ttl = pos (7 * 24 * 3600 * second)

unfoldable pub evict_expired : Time → Queue → Queue
evict_expired now q = record q { messages = keep (λ m. not (expired now m)) q.messages }

-- the `switch` on `ttl` of `Enqueue`
unfoldable pub expiration : Time → ℤ → Time
expiration now (negsuc n) = zero_time
expiration now (pos n) = if leb n 0 then now +ℤ default_ttl else now +ℤ pos n

unfoldable pub new_message : Bytes → Bytes → Time → ℤ → ℤ → Message
unfolding expiration
new_message id text now visibility_timeout ttl = record {
  id = id;
  text = text;
  insertion_time = now;
  expiration_time = expiration now ttl;
  next_visible = now +ℤ visibility_timeout;
  pop_receipt = [];
  dequeue_count = 0;
}

-- what `Dequeue` writes to a message that it hands out
unfoldable pub leased : Time → ℤ → Bytes → Message → Message
leased now visibility_timeout receipt m = record m {
  dequeue_count = m.dequeue_count + 1;
  pop_receipt = receipt;
  next_visible = now +ℤ visibility_timeout;
}

-- The loop of `Dequeue`, from the message after `taken` were handed out: the messages that stay in
-- the queue, and those that are returned. `receipt i` is the i-th new pop receipt of the call.
unfoldable pub dequeue_loop :
    Time → ℤ → (ℕ → Bytes) → ℕ → ℕ → List Message → List Message × List Message
unfolding leased visible
dequeue_loop now timeout receipt num taken [] = ([], [])
dequeue_loop now timeout receipt num taken (m ∷ ms) =
    let hit = dequeue_loop now timeout receipt num (taken + 1) ms in
    let miss = dequeue_loop now timeout receipt num taken ms in
    let m' = leased now timeout (receipt taken) m in
    if leb num taken
    then (m ∷ ms, [])
    else if visible now m
    then (m' ∷ hit.0, m' ∷ hit.1)
    else (m ∷ miss.0, miss.1)

-- The loop of `Peek`.
unfoldable pub peek_loop : Time → ℕ → ℕ → List Message → List Message
unfolding visible
peek_loop now num taken [] = []
peek_loop now num taken (m ∷ ms) =
    let hit = peek_loop now num (taken + 1) ms in
    let miss = peek_loop now num taken ms in
    if leb num taken then [] else if visible now m then m ∷ hit else miss

-- The loop of `DeleteMessage`.
unfoldable pub delete_loop : Bytes → Bytes → List Message → Result Error (List Message)
delete_loop id receipt [] = err message_not_found
delete_loop id receipt (m ∷ ms) =
    let rest = delete_loop id receipt ms in
    if not (bytes_eq m.id id)
    then elim rest [ ok ms' ↦ ok (m ∷ ms') | err e ↦ err e ]
    else if not (bytes_eq m.pop_receipt receipt)
    then err pop_receipt_mismatch
    else ok ms

-- what `UpdateMessage` writes to its message; an empty text leaves the text alone
unfoldable pub updated : Time → ℤ → Bytes → Bytes → Message → Message
updated now timeout receipt text m = record m {
  text = (if bytes_eq text [] then m.text else text);
  pop_receipt = receipt;
  next_visible = now +ℤ timeout;
}

-- The loop of `UpdateMessage`.
unfoldable pub update_loop :
    Time → ℤ → Bytes → Bytes → Bytes → Bytes → List Message → Result Error (List Message)
unfolding updated
update_loop now timeout fresh id receipt text [] = err message_not_found
update_loop now timeout fresh id receipt text (m ∷ ms) =
    let rest = update_loop now timeout fresh id receipt text ms in
    if not (bytes_eq m.id id)
    then elim rest [ ok ms' ↦ ok (m ∷ ms') | err e ↦ err e ]
    else if not (bytes_eq m.pop_receipt receipt)
    then err pop_receipt_mismatch
    else ok (updated now timeout fresh text m ∷ ms)
