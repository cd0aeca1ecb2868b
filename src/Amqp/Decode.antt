-- ===== src/Amqp/Decode.antt =====
-- internal/servers/sbserver/decode.go. A decoder is the bytes that remain, `buf[pos:]`.
use localaz.Common.{
  Bytes, ℕ, zero, suc, ◌+◌, ◌/◌, Bool, true, false, not, [], ◌∷◌, length, take, drop, ltb, ◌==◌,
  ◌&&◌, bytes_eq, if◌then◌else◌,
}
use localaz.Common.Int.{ℤ, pos, negsuc}
use localaz.Amqp.Types.{
  Value, null, bool, ubyte, ushort, uint, ulong, byte, short, int, long, timestamp, uuid, binary,
  string, symbol, described, list, map, Values, nil, cons, Pairs, end, pair, big_endian, to_signed,
}

pub data Error : Type 0 where
  unexpected_end collection_too_large : Error
  unsupported_code : ℕ → Error

-- `panicked` is Go's run-time panic on a map key that cannot be hashed. `stuck` is no outcome of the
-- program: the fuel ran out.
pub data Decoded (A : Type 0) : Type 0 where
  done : A → Bytes → Decoded A
  fail : Error → Decoded A
  panicked : Decoded A
  stuck : Decoded A

infixl 5 ◌>>=◌
abbrev pub ◌>>=◌ : {A B : Type 0} → Decoded A → (A × Bytes → Decoded B) → Decoded B
done a bs >>= f = f (a, bs)
fail e >>= f = fail e
panicked >>= f = panicked
stuck >>= f = stuck

unfoldable pub read_byte : Bytes → Decoded ℕ
read_byte [] = fail unexpected_end
read_byte (b ∷ bs) = done b bs

unfoldable pub read_n : ℕ → Bytes → Decoded Bytes
read_n n bs = if ltb (length bs) n then fail unexpected_end else done (take n bs) (drop n bs)

-- a fixed number of bytes, made into a value
unfoldable pub read_fixed : ℕ → (Bytes → Value) → Bytes → Decoded Value
unfolding read_n
read_fixed n f bs = do (raw, rest) ← read_n n bs; done (f raw) rest

-- `readSize`: one byte, or else four
unfoldable pub read_size : ℕ → Bytes → Decoded ℕ
unfolding read_byte read_n
read_size width bs =
    if width == 1 then read_byte bs else (do (raw, rest) ← read_n 4 bs; done (big_endian raw) rest)

-- `readBinary` and `readString`
unfoldable pub read_sized : ℕ → (Bytes → Value) → Bytes → Decoded Value
unfolding read_size read_n
read_sized width f bs = do
  (size, bs') ← read_size width bs
  (raw, rest) ← read_n size bs'
  done (f raw) rest

-- Go map keys: what `==` on interfaces says, and which values have a hash.
unfoldable pub hashable : Value → Bool
hashable (binary b) = false
hashable (list vs) = false
hashable (map ps) = false
hashable (described d v) = hashable d && hashable v
hashable _ = true

int_eq : ℤ → ℤ → Bool
int_eq (pos n) (pos m) = n == m
int_eq (negsuc n) (negsuc m) = n == m
int_eq (pos n) (negsuc m) = false
int_eq (negsuc n) (pos m) = false

bool_eq : Bool → Bool → Bool
bool_eq true b = b
bool_eq false b = not b

unfoldable pub key_eq : Value → Value → Bool
unfolding int_eq bool_eq
key_eq null null = true
key_eq (bool a) (bool b) = bool_eq a b
key_eq (ubyte a) (ubyte b) = a == b
key_eq (ushort a) (ushort b) = a == b
key_eq (uint a) (uint b) = a == b
key_eq (ulong a) (ulong b) = a == b
key_eq (byte a) (byte b) = int_eq a b
key_eq (short a) (short b) = int_eq a b
key_eq (int a) (int b) = int_eq a b
key_eq (long a) (long b) = int_eq a b
key_eq (timestamp a) (timestamp b) = int_eq a b
key_eq (uuid a) (uuid b) = bytes_eq a b
key_eq (string a) (string b) = bytes_eq a b
key_eq (symbol a) (symbol b) = bytes_eq a b
key_eq (described a b) (described c d) = key_eq a c && key_eq b d
key_eq _ _ = false

-- `m[k] = v`; a new key comes last in the list of entries
unfoldable pub put : Value → Value → Pairs → Pairs
put k v end = pair k v end
put k v (pair j w ps) = let rest = put k v ps in if key_eq j k then pair k v ps else pair j w rest

unfoldable pub normalize_key : Value → Value
normalize_key (symbol s) = string s
normalize_key v = v

-- The loops of `readList` and `readMap`, over `rv` for `readValue`. The map's loop runs while
-- `i < count`, with `i += 2`: once for each two values, rounded up.
module _ (rv : Bytes → Decoded Value) where
  unfoldable pub read_items : ℕ → Bytes → Decoded Values
  read_items zero bs = done nil bs
  read_items (suc n) bs = do (v, bs') ← rv bs; (vs, rest) ← read_items n bs'; done (cons v vs) rest

  unfoldable pub read_entries : ℕ → Pairs → Bytes → Decoded Pairs
  unfolding normalize_key hashable
  read_entries zero m bs = done m bs
  read_entries (suc n) m bs = do
    (k, bs') ← rv bs
    (v, bs'') ← rv bs'
    let next = read_entries n (put (normalize_key k) v m) bs''
    if hashable (normalize_key k) then next else panicked

  unfoldable pub read_list : ℕ → Bytes → Decoded Value
  unfolding read_size
  read_list width bs = do
    (size, bs') ← read_size width bs
    (count, bs'') ← read_size width bs'
    let items = read_items count bs'' >>= λ (vs, rest). done (list vs) rest
    if ltb (length bs'') count then fail collection_too_large else items

  unfoldable pub read_map : ℕ → Bytes → Decoded Value
  unfolding read_size
  read_map width bs = do
    (size, bs') ← read_size width bs
    (count, bs'') ← read_size width bs'
    let entries = read_entries ((count + 1) / 2) end bs'' >>= λ (m, rest). done (map m) rest
    if ltb (length bs'') count then fail collection_too_large else entries

  unfoldable pub read_described : Bytes → Decoded Value
  read_described bs = do (d, bs') ← rv bs; (v, rest) ← rv bs'; done (described d v) rest

  -- `readBody`: the `switch` on the constructor code
  unfoldable pub read_body : ℕ → Bytes → Decoded Value
  unfolding read_fixed read_sized read_list read_map read_described
  read_body code bs =
      if code == 0x40
      then done null bs
      else if code == 0x41
      then done (bool true) bs
      else if code == 0x42
      then done (bool false) bs
      else if code == 0x56
      then read_fixed 1 (λ b. bool (not (big_endian b == 0))) bs
      else if code == 0x43
      then done (uint 0) bs
      else if code == 0x44
      then done (ulong 0) bs
      else if code == 0x52
      then read_fixed 1 (λ b. uint (big_endian b)) bs
      else if code == 0x53
      then read_fixed 1 (λ b. ulong (big_endian b)) bs
      else if code == 0x54
      then read_fixed 1 (λ b. int (to_signed 8 (big_endian b))) bs
      else if code == 0x55
      then read_fixed 1 (λ b. long (to_signed 8 (big_endian b))) bs
      else if code == 0x50
      then read_fixed 1 (λ b. ubyte (big_endian b)) bs
      else if code == 0x51
      then read_fixed 1 (λ b. byte (to_signed 8 (big_endian b))) bs
      else if code == 0x60
      then read_fixed 2 (λ b. ushort (big_endian b)) bs
      else if code == 0x61
      then read_fixed 2 (λ b. short (to_signed 16 (big_endian b))) bs
      else if code == 0x70
      then read_fixed 4 (λ b. uint (big_endian b)) bs
      else if code == 0x71
      then read_fixed 4 (λ b. int (to_signed 32 (big_endian b))) bs
      else if code == 0x80
      then read_fixed 8 (λ b. ulong (big_endian b)) bs
      else if code == 0x81
      then read_fixed 8 (λ b. long (to_signed 64 (big_endian b))) bs
      else if code == 0x83
      then read_fixed 8 (λ b. timestamp (to_signed 64 (big_endian b))) bs
      else if code == 0x98
      then read_fixed 16 uuid bs
      else if code == 0xa0
      then read_sized 1 binary bs
      else if code == 0xb0
      then read_sized 4 binary bs
      else if code == 0xa1
      then read_sized 1 string bs
      else if code == 0xb1
      then read_sized 4 string bs
      else if code == 0xa3
      then read_sized 1 symbol bs
      else if code == 0xb3
      then read_sized 4 symbol bs
      else if code == 0x45
      then done (list nil) bs
      else if code == 0xc0
      then read_list 1 bs
      else if code == 0xd0
      then read_list 4 bs
      else if code == 0xc1
      then read_map 1 bs
      else if code == 0xd1
      then read_map 4 bs
      else if code == 0x00
      then read_described bs
      else if code == 0x72
      then read_fixed 4 (λ b. uint (big_endian b)) bs
      else if code == 0x82
      then read_fixed 8 (λ b. ulong (big_endian b)) bs
      else fail (unsupported_code code)

-- `readValue` on fuel; a value takes at least one byte, so more fuel than bytes is enough.
unfoldable pub read_value : ℕ → Bytes → Decoded Value
unfolding read_body
read_value zero bs = stuck
read_value (suc fuel) [] = fail unexpected_end
read_value (suc fuel) (code ∷ bs) = read_body (read_value fuel) code bs

-- `newDecoder(buf).readValue()`
unfoldable pub decode : Bytes → Decoded Value
unfolding read_value
decode buf = read_value (suc (length buf)) buf
