-- ===== src/Amqp/Limits.antt =====
-- What one call of the frame reader can take from a connection.
use localaz.Common.{
  Bytes, ℕ, ◌+◌, ◌*◌, ◌-◌, ◌≤◌, Bool, true, false, ◌≡◌, refl, length, take, drop, arith,
  length-take, length-drop, if◌then◌else◌, ltb, ◌==◌, Bool-cases, inl, inr,
}
use localaz.Amqp.Types.{Value, described, list}
use localaz.Amqp.Decode.{Decoded, done, fail, stuck, panicked, decode}
use localaz.Amqp.Bounds.{Bounded, weight, weights, decode-Bounded}
use localaz.Amqp.Frame.{
  Received, received, refused, crashed, unfinished, FrameError, Frame, max_frame_size, read_full,
  number_at, read_body_of, frame_of, fields_of, read_frame, after,
}

-- A frame's fields and payload take up at most `n`, and at most `k` bytes remain; the decoder's
-- fuel is enough.
unfoldable pub Within : ℕ → ℕ → Received Frame → Type 0
Within n k (received f rest) = (weights f.fields + length f.payload ≤ n) × (length rest ≤ k)
Within n k (refused e) = Unit
Within n k crashed = Unit
Within n k unfinished = ⊥

Within-bind :
    (n k i : ℕ) (r : Bytes) (g : Bytes × Bytes → Received Frame)
    → ((bs rest : Bytes)
        → length bs ≡ i
        → length bs + length rest ≡ length r
        → Within n k (g (bs, rest)))
    → Within n k (after (read_full i r) g)
unfolding Within read_full
Within-bind n k i r g h = elim (Bool-cases (ltb (length r) i)) [
  | inl small ↦ rw small tt
  | inr large ↦ rw large (
      h (take i r) (drop i r) (ground (arith, length-take i r))
        (ground (arith, length-take i r, length-drop i r)))
]

Within-if :
    (n k : ℕ) (b : Bool) (e : FrameError) (y : Received Frame)
    → (b ≡ false → Within n k y)
    → Within n k (if b then refused e else y)
unfolding Within
Within-if n k true e y h = tt
Within-if n k false e y h = h refl

weights-fields_of : (v : Value) → weights (fields_of v) ≤ weight v
weights-fields_of (list vs) = omega arith
weights-fields_of v = omega arith

frame_of-Within :
    (t c n : ℕ) (d : Decoded Value) (rest : Bytes)
    → Bounded weight n d
    → Within n (length rest) (frame_of t c d rest)
unfolding Within Bounded frame_of
frame_of-Within t c n (done (described d v) p) rest h =
    (omega (arith, weights-fields_of v), omega arith)
frame_of-Within t c n (done v p) rest h = tt
frame_of-Within t c n (fail e) rest h = tt
frame_of-Within t c n panicked rest h = tt
frame_of-Within t c n stuck rest h = h

read_body_of-Within :
    (t c : ℕ) (body rest : Bytes) → Within (length body) (length rest) (read_body_of t c body rest)
unfolding Within read_body_of
read_body_of-Within t c body rest = elim (Bool-cases (length body == 0)) [
  | inl empty ↦ rw empty (omega arith, omega arith)
  | inr some ↦ rw some (frame_of-Within t c (length body) (decode body) rest (decode-Bounded body))
]

Within-le : (n n' k k' : ℕ) (d : Received Frame) → n ≤ n' → k ≤ k' → Within n k d → Within n' k' d
unfolding Within
Within-le n n' k k' (received f rest) le le' (h, h') = (omega arith, omega arith)
Within-le n n' k k' (refused e) le le' h = tt
Within-le n n' k k' crashed le le' h = tt
Within-le n n' k k' unfinished le le' h = h

-- The frame reader ends on any input; a frame it returns has fields and payload that with the
-- header take up no more than the largest frame, and at least the header is consumed.
pub read_frame-Within : (r : Bytes) → Within (max_frame_size - 8) (length r - 8) (read_frame r)
unfolding read_frame
read_frame-Within r = Within-bind _ _ 8 r _ (λ header r' e le.
    let size = number_at 0 4 header in
    let doff = number_at 4 1 header * 4 in
    Within-if _ _ (ltb size 8) _ _ (λ large. Within-if _ _ (ltb max_frame_size size) _ _ (λ small.
      Within-if _ _ (ltb doff 8) _ _ (λ offset. Within-bind _ _ (size - 8) r' _ (λ body rest e' le'.
        Within-if _ _ (ltb (length body) (doff - 8)) _ _ (λ inside.
          let inner = drop (doff - 8) body in
          Within-le (length inner) _ (length rest) _ _ (ground (arith, length-drop (doff - 8) body))
            (omega arith) (read_body_of-Within _ _ inner rest)))))))
