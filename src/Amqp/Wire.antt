-- ===== src/Amqp/Wire.antt =====
-- Reading back the pieces that the encoder writes: numbers, lengths, sized and compound bodies.
use localaz.Common.{
  Bytes, ℕ, suc, ◌+◌, ◌*◌, ◌/◌, ◌%◌, ◌^◌, ◌-◌, ◌<◌, ◌≤◌, ◌∷◌, ◌++◌, ◌≡◌, length, arith, take-append,
  drop-append, length-append, leb, ◌∙◌, ◌&&◌, Bool-cases, inl, inr,
}
use localaz.Common.Int.{ℤ, pos, negsuc}
use native.Mathlib.Nat.{mod-eq_of_lt}
use localaz.Amqp.Types.{
  Value, list, map, Values, Pairs, end, count_items, count_pairs, be16, be32, be64, big_endian,
  to_signed, to_unsigned,
}
use localaz.Amqp.Encode.{write_sized, write_compound}
use localaz.Amqp.Decode.{
  Decoded, done, read_byte, read_n, read_fixed, read_size, read_sized, read_items, read_entries,
  read_list, read_map, read_body, read_value,
}

pub big_endian-be16 : (n : ℕ) → n < 2 ^ 16 → big_endian (be16 n) ≡ n
unfolding big_endian
big_endian-be16 n h = omega arith

pub big_endian-be32 : (n : ℕ) → n < 2 ^ 32 → big_endian (be32 n) ≡ n
unfolding big_endian
big_endian-be32 n h = omega arith

pub big_endian-be64 : (n : ℕ) → n < 2 ^ 64 → big_endian (be64 n) ≡ n
unfolding big_endian
big_endian-be64 n h = omega arith

-- what an int32 or an int64 ranges over
abbrev pub InRange : ℕ → ℤ → Type 0
InRange w (pos n) = n < 2 ^ (w - 1)
InRange w (negsuc n) = n < 2 ^ (w - 1)

pub signed32 :
    (n : ℤ) → InRange 32 n → (to_unsigned 32 n < 2 ^ 32) × (to_signed 32 (to_unsigned 32 n) ≡ n)
unfolding to_signed to_unsigned
signed32 (pos n) h = ground arith
signed32 (negsuc n) h = ground arith

pub signed64 :
    (n : ℤ) → InRange 64 n → (to_unsigned 64 n < 2 ^ 64) × (to_signed 64 (to_unsigned 64 n) ≡ n)
unfolding to_signed to_unsigned
signed64 (pos n) h = ground arith
signed64 (negsuc n) h = ground arith

pub read_n-append : (raw rest : Bytes) → read_n (length raw) (raw ++ rest) ≡ done raw rest
unfolding read_n
read_n-append raw rest =
    ground (arith, take-append raw rest, drop-append raw rest, length-append raw rest)

pub read_fixed-append :
    (f : Bytes → Value) (raw rest : Bytes)
    → read_fixed (length raw) f (raw ++ rest) ≡ done (f raw) rest
unfolding read_fixed
read_fixed-append f raw rest = ground (arith, read_n-append raw rest)

pub read_size-one : (n : ℕ) (bs : Bytes) → n < 256 → read_size 1 (n % 256 ∷ bs) ≡ done n bs
unfolding read_size read_byte
read_size-one n bs h = ground (arith, mod-eq_of_lt h)

pub read_size-four :
    (n : ℕ) (bs : Bytes) → n < 2 ^ 32 → read_size 4 (be32 (n % 2 ^ 32) ++ bs) ≡ done n bs
unfolding read_size
read_size-four n bs h =
    ground (arith, read_n-append (be32 (n % 2 ^ 32)) bs, big_endian-be32 n h, mod-eq_of_lt h)

pub read_sized-append :
    (width : ℕ) (f : Bytes → Value) (pre s rest : Bytes)
    → read_size width pre ≡ done (length s) (s ++ rest)
    → read_sized width f pre ≡ done (f s) rest
unfolding read_sized
read_sized-append width f pre s rest h = ground (arith, read_n-append s rest)

pub halve : (n : ℕ) → (2 * n + 1) / 2 ≡ n
halve n = omega arith

module _ (rv : Bytes → Decoded Value) where
  pub read_list-append :
      (width size : ℕ) (pre mid body rest : Bytes) (vs : Values)
      → read_size width pre ≡ done size mid
      → read_size width mid ≡ done (count_items vs) (body ++ rest)
      → count_items vs ≤ length body
      → read_items rv (count_items vs) (body ++ rest) ≡ done vs rest
      → read_list rv width pre ≡ done (list vs) rest
  unfolding read_list
  read_list-append width size pre mid body rest vs h k le items =
      ground (arith, length-append body rest)

  pub read_map-append :
      (width size : ℕ) (pre mid body rest : Bytes) (ps : Pairs)
      → read_size width pre ≡ done size mid
      → read_size width mid ≡ done (2 * count_pairs ps) (body ++ rest)
      → 2 * count_pairs ps ≤ length body
      → read_entries rv (count_pairs ps) end (body ++ rest) ≡ done ps rest
      → read_map rv width pre ≡ done (map ps) rest
  unfolding read_map
  read_map-append width size pre mid body rest ps h k le entries =
      ground (arith, length-append body rest, halve (count_pairs ps))

-- A size and a count in one byte each, or in four, and the body: `reader` is that of lists or maps.
pub compound-append :
    (fuel : ℕ) (reader : ℕ → Bytes → Decoded Value) (result : Decoded Value)
    (code8 code32 count : ℕ) (body rest : Bytes)
    → ((width size : ℕ) (pre mid : Bytes)
        → read_size width pre ≡ done size mid
        → read_size width mid ≡ done count (body ++ rest)
        → reader width pre ≡ result)
    → ((bs : Bytes) → read_body (read_value fuel) code8 bs ≡ reader 1 bs)
    → ((bs : Bytes) → read_body (read_value fuel) code32 bs ≡ reader 4 bs)
    → count ≤ length body
    → length body + 4 < 2 ^ 32
    → read_value (suc fuel) (write_compound code8 code32 count body ++ rest) ≡ result
unfolding read_value write_compound
compound-append fuel reader result code8 code32 count body rest reads narrow wide le lt =
    elim (Bool-cases (leb count 255 && leb (length body + 1) 255)) [
      | inl small ↦ rw small (
          narrow _
          ∙ reads 1 (length body + 1) _ (count % 256 ∷ body ++ rest)
              (read_size-one (length body + 1) _ (ground arith))
              (read_size-one count _ (ground arith)))
      | inr large ↦ rw large (
          wide _
          ∙ reads 4 (length body + 4) _ (be32 (count % 2 ^ 32) ++ (body ++ rest))
              (read_size-four (length body + 4) _ lt) (read_size-four count _ (omega arith)))
    ]

pub sized-append :
    (fuel : ℕ) (f : Bytes → Value) (code8 code32 : ℕ) (s rest : Bytes)
    → ((bs : Bytes) → read_body (read_value fuel) code8 bs ≡ read_sized 1 f bs)
    → ((bs : Bytes) → read_body (read_value fuel) code32 bs ≡ read_sized 4 f bs)
    → length s < 2 ^ 32
    → read_value (suc fuel) (write_sized code8 code32 s ++ rest) ≡ done (f s) rest
unfolding read_value write_sized
sized-append fuel f code8 code32 s rest narrow wide lt = elim (Bool-cases (leb (length s) 255)) [
  | inl small ↦ rw small (
      narrow _
      ∙ read_sized-append 1 f (length s % 256 ∷ (s ++ rest)) s rest
          (read_size-one (length s) _ (ground arith)))
  | inr large ↦ rw large (
      wide _
      ∙ read_sized-append 4 f (be32 (length s % 2 ^ 32) ++ (s ++ rest)) s rest
          (read_size-four (length s) _ lt))
]
