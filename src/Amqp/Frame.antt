-- ===== src/Amqp/Frame.antt =====
-- internal/servers/sbserver/frame.go. A connection's reader is the list of the bytes to come, up to
-- its end; what is written is the list of the bytes of one frame.
use localaz.Common.{
  Bytes, ℕ, zero, suc, ◌+◌, ◌*◌, ◌%◌, ◌^◌, ◌-◌, [], ◌∷◌, ◌++◌, Option, some, length, take, drop,
  ltb, ◌==◌, bytes_eq, codes, if◌then◌else◌,
}
use localaz.Amqp.Types.{
  Value, null, ubyte, uint, ulong, described, list, Values, nil, cons, be16, be32, big_endian,
}
use localaz.Amqp.Encode.{encode_described_list, ◌>>=◌}
use localaz.Amqp.Decode.{Decoded, done, fail, panicked, stuck, Error as DecodeError, decode}

-- The reasons for a refusal; reading past the end is `unexpected_end`.
pub data FrameError : Type 0 where
  unexpected_end bad_header offset_past_body not_described : FrameError
  invalid_size frame_too_large invalid_offset : ℕ → FrameError
  bad_body : DecodeError → FrameError

-- `crashed` is a run-time panic of the decoder. `unfinished` is no outcome of the program: the
-- decoder's fuel ran out.
pub data Received (A : Type 0) : Type 0 where
  received : A → Bytes → Received A
  refused : FrameError → Received A
  crashed : Received A
  unfinished : Received A

-- what follows a successful read
abbrev pub after : {A B : Type 0} → Received A → (A × Bytes → Received B) → Received B
after (received a bs) f = f (a, bs)
after (refused e) f = refused e
after crashed f = crashed
after unfinished f = unfinished

pub record Frame : Type 0 where
  pub typ : ℕ
  pub channel : ℕ
  pub code : ℕ
  pub fields : Values
  pub payload : Bytes

abbrev pub max_frame_size : ℕ
max_frame_size = 1024 * 64

-- `io.ReadFull` into a buffer of `n` bytes
unfoldable pub read_full : ℕ → Bytes → Received Bytes
read_full n r = if ltb (length r) n then refused unexpected_end else received (take n r) (drop n r)

unfoldable pub read_protocol_header : Bytes → Received Bytes
unfolding read_full
read_protocol_header r = after (read_full 8 r) (λ (hdr, rest).
    if bytes_eq (take 4 hdr) (codes "AMQP") then received hdr rest else refused bad_header)

-- the unsigned number in the `width` bytes at `i`
unfoldable pub number_at : ℕ → ℕ → Bytes → ℕ
unfolding big_endian
number_at i width bs = big_endian (take width (drop i bs))

unfoldable pub descriptor_code : Value → ℕ
descriptor_code (ulong n) = n
descriptor_code (uint n) = n
descriptor_code (ubyte n) = n
descriptor_code _ = 0

abbrev pub fields_of : Value → Values
fields_of (list vs) = vs
fields_of _ = nil

-- The frame of a decoded body, and the bytes after the body in the frame as its payload.
unfoldable pub frame_of : ℕ → ℕ → Decoded Value → Bytes → Received Frame
unfolding descriptor_code
frame_of typ channel (done (described d v) payload) rest =
    received
      (record {
        typ = typ;
        channel = channel;
        code = descriptor_code d;
        fields = fields_of v;
        payload = payload;
      })
      rest
frame_of typ channel (done _ payload) rest = refused not_described
frame_of typ channel (fail e) rest = refused (bad_body e)
frame_of typ channel panicked rest = crashed
frame_of typ channel stuck rest = unfinished

-- The body of a frame behind its extended header; an empty one is a heartbeat.
unfoldable pub read_body_of : ℕ → ℕ → Bytes → Bytes → Received Frame
unfolding frame_of
read_body_of typ channel body rest =
    if length body == 0
    then received (record { typ = typ; channel = channel; code = 0; fields = nil; payload = [] })
        rest
    else frame_of typ channel (decode body) rest

unfoldable pub read_frame : Bytes → Received Frame
unfolding read_full number_at read_body_of
read_frame r = after (read_full 8 r) (λ (header, r').
    let size = number_at 0 4 header in
    let doff = number_at 4 1 header * 4 in
    if ltb size 8
    then refused (invalid_size size)
    else if ltb max_frame_size size
    then refused (frame_too_large size)
    else if ltb doff 8
    then refused (invalid_offset doff)
    else after (read_full (size - 8) r') (λ (body, rest).
      if ltb (length body) (doff - 8)
      then refused offset_past_body
      else read_body_of (number_at 5 1 header) (number_at 6 2 header) (drop (doff - 8) body) rest))

-- `none` where the encoder panics
unfoldable pub write_frame : ℕ → ℕ → ℕ → Values → Bytes → Option Bytes
unfolding encode_described_list
write_frame typ channel code fields payload = do
  body ← encode_described_list code fields
  let size = 8 + length body + length payload
  some (be32 (size % 2 ^ 32) ++ 2 ∷ typ ∷ be16 channel ++ body ++ payload)

-- `f.field(i)`, nil where there is none
unfoldable pub field : ℕ → Values → Value
field i nil = null
field zero (cons v vs) = v
field (suc i) (cons v vs) = field i vs
