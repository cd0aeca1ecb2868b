-- ===== src/Amqp/Scalars.antt =====
-- Reading back the values with no value inside, and how long encodings are.
use localaz.Common.{
  Bytes, ℕ, zero, suc, ◌+◌, ◌*◌, ◌^◌, ◌<◌, ◌≤◌, Bool, true, false, [], ◌∷◌, ◌++◌, ◌≡◌, refl, ap,
  Option, none, some, length, arith, length-append, ◌∙◌,
}
use mathlib.Core.Path.{subst}
use mathlib.Core.Option.{some-injective}
use localaz.Amqp.Types.{
  Value, null, bool, ubyte, ushort, uint, ulong, byte, short, int, long, timestamp, uuid, binary,
  string, symbol, described, list, map, Values, nil, cons, Pairs, end, pair, count_items,
  count_pairs, be16, be32, be64, big_endian, to_signed, to_unsigned,
}
use localaz.Amqp.Encode.{
  write_sized, write_compound, write_items, write_value, write_all, write_entries, ◌>>=◌,
}
use localaz.Amqp.Decode.{done, read_fixed, read_value}
use localaz.Amqp.Wire.{
  signed32, signed64, big_endian-be16, big_endian-be32, big_endian-be64, read_fixed-append,
  sized-append,
}
use localaz.Amqp.Fits.{Fits}

pub bind-eq-some :
    {A B : Type 0} (m : Option A) (f : A → Option B) {b : B}
    → (m >>= f) ≡ some b
    → (a : A) × (m ≡ some a) × (f a ≡ some b)
bind-eq-some none f h = cc
bind-eq-some (some a) f h = (a, refl, h)

pub length-write_sized : (c d : ℕ) (s : Bytes) → length s < length (write_sized c d s)
unfolding write_sized
length-write_sized c d s = ground arith

pub length-write_compound :
    (c d n : ℕ) (body : Bytes) → length body + 3 ≤ length (write_compound c d n body)
unfolding write_compound
length-write_compound c d n body = ground arith

pub length-write_compound_wide :
    (c d n : ℕ) (body : Bytes)
    → length (write_compound c d n body) < 2 ^ 32
    → n ≤ length body
    → length body + 4 < 2 ^ 32
unfolding write_compound
length-write_compound_wide c d n body h k = ground arith

-- every encoding has a byte at least
pub write_value-nonempty : (v : Value) (bs : Bytes) → write_value v ≡ some bs → 0 < length bs
unfolding write_value write_items write_compound write_sized
write_value-nonempty (bool true) bs h = ground arith
write_value-nonempty (bool false) bs h = ground arith
write_value-nonempty (described d v) bs h = ground arith
write_value-nonempty _ bs h = ground arith

pub count_items-le :
    (vs : Values) (bs : Bytes) → write_all vs ≡ some bs → count_items vs ≤ length bs
unfolding write_all
count_items-le nil bs h = omega arith
count_items-le (cons v vs) bs h =
    let (b, e, h') = bind-eq-some (write_value v) _ h in
    let (bs', e', last) = bind-eq-some (write_all vs) _ h' in
    ground (arith, count_items-le vs bs' e', write_value-nonempty v b e, length-append b bs')

pub count_pairs-le :
    (ps : Pairs) (bs : Bytes) → write_entries ps ≡ some bs → 2 * count_pairs ps ≤ length bs
unfolding write_entries
count_pairs-le end bs h = omega arith
count_pairs-le (pair k v ps) bs h =
    let (k', e, h') = bind-eq-some (write_value k) _ h in
    let (v', e', h'') = bind-eq-some (write_value v) _ h' in
    let (bs', e'', last) = bind-eq-some (write_entries ps) _ h'' in
    ground (
      arith,
      count_pairs-le ps bs' e'',
      write_value-nonempty k k' e,
      write_value-nonempty v v' e',
      length-append k' (v' ++ bs'),
      length-append v' bs',
    )

-- What is to be shown of a value and its encoding.
abbrev pub Reads : Value → Bytes → Bytes → ℕ → Type 0
Reads v bs rest fuel = read_value fuel (bs ++ rest) ≡ done v rest

pub given :
    (v : Value) (x bs rest : Bytes) (fuel : ℕ)
    → ◌≡◌ {A = Option Bytes} (some x) (some bs)
    → Reads v x rest fuel
    → Reads v bs rest fuel
given v x bs rest fuel h r = subst (λ b. Reads v b rest fuel) (some-injective x bs h) r

pub at_any :
    (v : Value) (bs rest : Bytes)
    → 0 < length bs
    → ((f : ℕ) → length bs ≤ suc f → Reads v bs rest (suc f))
    → (fuel : ℕ) → length bs ≤ fuel
    → Reads v bs rest fuel
at_any v bs rest n h zero le = absurd (omega arith)
at_any v bs rest n h (suc f) le = h f le

-- The values with no value inside.
abbrev pub is_scalar : Value → Bool
is_scalar (described d v) = false
is_scalar (list vs) = false
is_scalar (map ps) = false
is_scalar _ = true

pub write_items_cons :
    (n : ℕ) (body : Bytes) → write_items (suc n) body ≡ write_compound 0xc0 0xd0 (suc n) body
unfolding write_items
write_items_cons n body = ground arith

pub big_endian_one : (n : ℕ) → big_endian (n ∷ []) ≡ n
unfolding big_endian
big_endian_one n = omega arith

pub sized_lt :
    (c d : ℕ) (s bs : Bytes)
    → ◌≡◌ {A = Option Bytes} (some (write_sized c d s)) (some bs)
    → length bs < 2 ^ 32
    → length s < 2 ^ 32
sized_lt c d s bs h lt =
    omega (arith, length-write_sized c d s, ap length (some-injective (write_sized c d s) bs h))

module _ (fuel : ℕ) (rest : Bytes) where
  pub scalar-Reads :
      (v : Value) (bs : Bytes)
      → is_scalar v ≡ true
      → Fits v
      → write_value v ≡ some bs
      → length bs < 2 ^ 32
      → Reads v bs rest (suc fuel)
  unfolding read_value write_value
  scalar-Reads null bs s fits h lt = given null _ bs rest (suc fuel) h refl
  scalar-Reads (bool true) bs s fits h lt = given (bool true) _ bs rest (suc fuel) h refl
  scalar-Reads (bool false) bs s fits h lt = given (bool false) _ bs rest (suc fuel) h refl
  scalar-Reads (ubyte n) bs s fits h lt = given (ubyte n) _ bs rest (suc fuel) h (
      read_fixed-append (λ b. ubyte (big_endian b)) (n ∷ []) rest
      ∙ ap (λ x. done (ubyte x) rest) (big_endian_one n))
  scalar-Reads (ushort n) bs s fits h lt = given (ushort n) _ bs rest (suc fuel) h (
      read_fixed-append (λ b. ushort (big_endian b)) (be16 n) rest
      ∙ ap (λ x. done (ushort x) rest) (big_endian-be16 n fits))
  scalar-Reads (uint n) bs s fits h lt = given (uint n) _ bs rest (suc fuel) h (
      read_fixed-append (λ b. uint (big_endian b)) (be32 n) rest
      ∙ ap (λ x. done (uint x) rest) (big_endian-be32 n fits))
  scalar-Reads (ulong n) bs s fits h lt = given (ulong n) _ bs rest (suc fuel) h (
      read_fixed-append (λ b. ulong (big_endian b)) (be64 n) rest
      ∙ ap (λ x. done (ulong x) rest) (big_endian-be64 n fits))
  scalar-Reads (byte n) bs s fits h lt = absurd fits
  scalar-Reads (short n) bs s fits h lt = absurd fits
  scalar-Reads (int n) bs s fits h lt =
      let (range, same) = signed32 n fits in
      given (int n) _ bs rest (suc fuel) h (
        read_fixed-append (λ b. int (to_signed 32 (big_endian b))) (be32 (to_unsigned 32 n)) rest
        ∙ ap (λ x. done (int (to_signed 32 x)) rest) (big_endian-be32 (to_unsigned 32 n) range)
        ∙ ap (λ x. done (int x) rest) same)
  scalar-Reads (long n) bs s fits h lt =
      let (range, same) = signed64 n fits in
      given (long n) _ bs rest (suc fuel) h (
        read_fixed-append (λ b. long (to_signed 64 (big_endian b))) (be64 (to_unsigned 64 n)) rest
        ∙ ap (λ x. done (long (to_signed 64 x)) rest) (big_endian-be64 (to_unsigned 64 n) range)
        ∙ ap (λ x. done (long x) rest) same)
  scalar-Reads (timestamp n) bs s fits h lt =
      let (range, same) = signed64 n fits in
      given (timestamp n) _ bs rest (suc fuel) h (
        read_fixed-append (λ b. timestamp (to_signed 64 (big_endian b))) (be64 (to_unsigned 64 n))
          rest
        ∙ ap (λ x. done (timestamp (to_signed 64 x)) rest)
            (big_endian-be64 (to_unsigned 64 n) range)
        ∙ ap (λ x. done (timestamp x) rest) same)
  scalar-Reads (uuid u) bs s fits h lt = given (uuid u) _ bs rest (suc fuel) h (
      subst (λ n. read_fixed n uuid (u ++ rest) ≡ done (uuid u) rest) fits
        (read_fixed-append uuid u rest))
  scalar-Reads (binary b) bs s fits h lt = given (binary b) _ bs rest (suc fuel) h (
      sized-append fuel binary 0xa0 0xb0 b rest (λ x. refl) (λ x. refl)
        (sized_lt 0xa0 0xb0 b bs h lt))
  scalar-Reads (string b) bs s fits h lt = given (string b) _ bs rest (suc fuel) h (
      sized-append fuel string 0xa1 0xb1 b rest (λ x. refl) (λ x. refl)
        (sized_lt 0xa1 0xb1 b bs h lt))
  scalar-Reads (symbol b) bs s fits h lt = given (symbol b) _ bs rest (suc fuel) h (
      sized-append fuel symbol 0xa3 0xb3 b rest (λ x. refl) (λ x. refl)
        (sized_lt 0xa3 0xb3 b bs h lt))
  scalar-Reads (described d v) bs s fits h lt = cc
  scalar-Reads (list vs) bs s fits h lt = cc
  scalar-Reads (map ps) bs s fits h lt = cc

pub length-some : {x bs : Bytes} → ◌≡◌ {A = Option Bytes} (some x) (some bs) → length x ≡ length bs
length-some {x} {bs} h = ap length (some-injective x bs h)
