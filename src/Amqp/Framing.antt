-- ===== src/Amqp/Framing.antt =====
-- `readFrame` reads back what `writeFrame` wrote.
use localaz.Common.{
  Bytes, ℕ, zero, suc, ◌+◌, ◌%◌, ◌^◌, ◌<◌, ◌≤◌, [], ◌∷◌, ◌++◌, ◌≡◌, refl, ap, ◌∙◌, some, length,
  arith, take-append, drop-append, length-append,
}
use mathlib.Core.Path.{subst}
use mathlib.Core.Option.{some-injective}
use native.Mathlib.Nat.{mod-eq_of_lt}
use localaz.Amqp.Types.{
  Value, null, ulong, described, list, Values, nil, cons, be16, be32, big_endian, count_items,
}
use localaz.Amqp.Encode.{
  write_items, write_value, write_all, encode_described_list, cons_trimmed, trim,
}
use localaz.Amqp.Decode.{done, read_value, decode}
use localaz.Amqp.Wire.{read_fixed-append, big_endian-be16, big_endian-be32}
use localaz.Amqp.Fits.{FitAll}
use localaz.Amqp.Scalars.{bind-eq-some, big_endian_one, length-some}
use localaz.Amqp.RoundTrip.{described-Reads, reads}
use localaz.Amqp.Frame.{
  received, Frame, max_frame_size, read_full, number_at, read_body_of, frame_of, descriptor_code,
  read_frame, write_frame, field,
}

read_full-append : (raw rest : Bytes) → read_full (length raw) (raw ++ rest) ≡ received raw rest
unfolding read_full
read_full-append raw rest =
    ground (arith, take-append raw rest, drop-append raw rest, length-append raw rest)

field-cons_trimmed :
    (i : ℕ) (v : Value) (vs : Values) → field i (cons_trimmed v vs) ≡ field i (cons v vs)
unfolding field cons_trimmed
field-cons_trimmed zero null nil = refl
field-cons_trimmed (suc i) null nil = refl
field-cons_trimmed i v vs = refl

-- trimming changes no field
field-trim : (i : ℕ) (vs : Values) → field i (trim vs) ≡ field i vs
unfolding field trim
field-trim i nil = refl
field-trim zero (cons v vs) = field-cons_trimmed zero v (trim vs)
field-trim (suc i) (cons v vs) = field-cons_trimmed (suc i) v (trim vs) ∙ field-trim i vs

abbrev header : ℕ → ℕ → ℕ → Bytes
header size typ channel = be32 (size % 2 ^ 32) ++ 2 ∷ typ ∷ be16 channel

number_at-size : (n t c : ℕ) → n < 2 ^ 32 → number_at 0 4 (header n t c) ≡ n
unfolding number_at
number_at-size n t c lt = ap (λ m. big_endian (be32 m)) (mod-eq_of_lt lt) ∙ big_endian-be32 n lt

number_at-doff : (n t c : ℕ) → number_at 4 1 (header n t c) ≡ 2
unfolding number_at
number_at-doff n t c = big_endian_one 2

number_at-typ : (n t c : ℕ) → number_at 5 1 (header n t c) ≡ t
unfolding number_at
number_at-typ n t c = big_endian_one t

number_at-channel : (n t c : ℕ) → c < 2 ^ 16 → number_at 6 2 (header n t c) ≡ c
unfolding number_at
number_at-channel n t c lt = big_endian-be16 c lt

frame_read :
    (n t c : ℕ) (inner rest : Bytes)
    → c < 2 ^ 16
    → 8 + length inner ≡ n
    → n ≤ max_frame_size
    → read_frame (header n t c ++ (inner ++ rest)) ≡ read_body_of t c inner rest
unfolding read_frame
frame_read n t c inner rest lt e le = ground (
  arith,
  read_full-append (header n t c) (inner ++ rest),
  number_at-size n t c (omega arith),
  number_at-doff n t c,
  number_at-typ n t c,
  number_at-channel n t c lt,
  read_full-append inner rest,
)

small_ulong_read :
    (f c : ℕ) (rest : Bytes)
    → c < 256
    → read_value (suc f) (0x53 ∷ c % 256 ∷ rest) ≡ done (ulong c) rest
unfolding read_value
small_ulong_read f c rest lt =
    read_fixed-append (λ b. ulong (big_endian b)) (c % 256 ∷ []) rest
    ∙ ap (λ n. done (ulong n) rest) (big_endian_one (c % 256) ∙ mod-eq_of_lt lt)

list_written :
    (vs : Values) (items : Bytes)
    → write_all vs ≡ some items
    → write_value (list vs) ≡ some (write_items (count_items vs) items)
unfolding write_value
list_written vs items e = rw e refl

described_list_read :
    (c : ℕ) (fs : Values) (body payload : Bytes)
    → c < 256
    → FitAll (trim fs)
    → encode_described_list c fs ≡ some body
    → length body < 2 ^ 32
    → decode (body ++ payload) ≡ done (described (ulong c) (list (trim fs))) payload
unfolding encode_described_list decode
described_list_read c fs body payload lt fits h size =
    let (items, e, last) = bind-eq-some (write_all (trim fs)) _ h in
    let vs = trim fs in
    let tail = write_items (count_items vs) items in
    let n = suc (length (tail ++ payload)) in
    let len = length-some last in
    subst (λ b. decode (b ++ payload) ≡ done (described (ulong c) (list vs)) payload)
      (some-injective _ body last)
      (described-Reads (ulong c) (list vs) (suc (suc n)) (0x53 ∷ c % 256 ∷ []) tail payload
        (small_ulong_read (suc n) c (tail ++ payload) lt)
        (reads (list vs) (suc n) tail payload fits (list_written vs items e) (omega arith)
          (omega (arith, length-append tail payload))))

body_read :
    (t ch c : ℕ) (vs : Values) (inner p rest : Bytes)
    → 0 < length inner
    → decode inner ≡ done (described (ulong c) (list vs)) p
    → read_body_of t ch inner rest
      ≡ received (record { typ = t; channel = ch; code = c; fields = vs; payload = p }) rest
unfolding read_body_of frame_of descriptor_code
body_read t ch c vs inner p rest n h = ground (arith, h)

body_size :
    (c : ℕ) (fs : Values) (body : Bytes) → encode_described_list c fs ≡ some body → 0 < length body
unfolding encode_described_list
body_size c fs body h =
    let (items, e, last) = bind-eq-some (write_all (trim fs)) _ h in omega (arith, length-some last)

-- A frame of `writeFrame`, of a code below 256, a channel below 2^16 and at most 65536 bytes, whose
-- trimmed fields are values that the codec carries (`Fits`), is read back by `readFrame` with its type,
-- channel, code and payload; every field, absent ones included, is what was written; the bytes behind
-- the frame remain.
pub read_frame-write_frame :
    (t ch c : ℕ) (fs : Values) (p bs rest : Bytes)
    → ch < 2 ^ 16
    → c < 256
    → FitAll (trim fs)
    → write_frame t ch c fs p ≡ some bs
    → length bs ≤ max_frame_size
    → (f : Frame) × (read_frame (bs ++ rest) ≡ received f rest)
      × (f.typ ≡ t)
      × (f.channel ≡ ch)
      × (f.code ≡ c)
      × (f.payload ≡ p)
      × ((i : ℕ) → field i f.fields ≡ field i fs)
unfolding write_frame
read_frame-write_frame t ch c fs p bs rest lt lt' fits h le =
    let (body, e, last) = bind-eq-some (encode_described_list c fs) _ h in
    let n = 8 + length body + length p in
    let len = length-some last in
    let f : Frame = record { typ = t; channel = ch; code = c; fields = trim fs; payload = p } in
    (
      f,
      subst (λ b. read_frame (b ++ rest) ≡ received f rest) (some-injective _ bs last)
          (frame_read n t ch (body ++ p) rest lt (omega (arith, length-append body p))
              (omega (arith, length-append body p))
            ∙ body_read t ch c (trim fs) (body ++ p) p rest
                (omega (arith, length-append body p, body_size c fs body e))
                (described_list_read c fs body p lt' fits e (omega (arith, length-append body p)))),
      refl,
      refl,
      refl,
      refl,
      λ i. field-trim i fs,
    )
