-- ===== src/Amqp/Encode.antt =====
-- internal/servers/sbserver/encode.go. `none` is the panic of `writeValue` on a Go type that it
-- does not know; an encoder's buffer is the list of the bytes written.
use localaz.Common.{
  Bytes, ℕ, ◌+◌, ◌%◌, ◌*◌, ◌^◌, true, false, [], ◌∷◌, ◌++◌, Option, none, some, length, leb, ◌&&◌,
  ◌==◌, if◌then◌else◌,
}
use localaz.Amqp.Types.{
  Value, null, bool, ubyte, ushort, uint, ulong, byte, short, int, long, timestamp, uuid, binary,
  string, symbol, described, list, map, Values, nil, cons, Pairs, end, pair, count_items,
  count_pairs, be16, be32, be64, to_unsigned,
}

infixl 5 ◌>>=◌
abbrev pub ◌>>=◌ : {A B : Type 0} → Option A → (A → Option B) → Option B
none >>= f = none
some a >>= f = f a

-- A length in one byte under the code `short`, or in four under the code `wide`; then the bytes.
-- `writeString`, `writeSymbol` and `writeBinary` differ in their codes alone.
unfoldable pub write_sized : ℕ → ℕ → Bytes → Bytes
write_sized code8 code32 s =
    if leb (length s) 255
    then code8 ∷ length s % 256 ∷ s
    else code32 ∷ be32 (length s % 2 ^ 32) ++ s

abbrev pub write_string : Bytes → Bytes
write_string = write_sized 0xa1 0xb1

abbrev pub write_symbol : Bytes → Bytes
write_symbol = write_sized 0xa3 0xb3

abbrev pub write_binary : Bytes → Bytes
write_binary = write_sized 0xa0 0xb0

-- The header and the body of a list or a map of `count` values.
unfoldable pub write_compound : ℕ → ℕ → ℕ → Bytes → Bytes
write_compound code8 code32 count body =
    if leb count 255 && leb (length body + 1) 255
    then code8 ∷ (length body + 1) % 256 ∷ count % 256 ∷ body
    else code32 ∷ be32 ((length body + 4) % 2 ^ 32) ++ be32 (count % 2 ^ 32) ++ body

-- what `writeList` writes, from the count of the items and their encodings
unfoldable pub write_items : ℕ → Bytes → Bytes
unfolding write_compound
write_items count body = if count == 0 then 0x45 ∷ [] else write_compound 0xc0 0xd0 count body

unfoldable mutual
  pub write_value : Value → Option Bytes
  write_value null = some (0x40 ∷ [])
  write_value (bool true) = some (0x41 ∷ [])
  write_value (bool false) = some (0x42 ∷ [])
  write_value (ubyte n) = some (0x50 ∷ n ∷ [])
  write_value (ushort n) = some (0x60 ∷ be16 n)
  write_value (uint n) = some (0x70 ∷ be32 n)
  write_value (ulong n) = some (0x80 ∷ be64 n)
  write_value (byte n) = none
  write_value (short n) = none
  write_value (int n) = some (0x71 ∷ be32 (to_unsigned 32 n))
  write_value (long n) = some (0x81 ∷ be64 (to_unsigned 64 n))
  write_value (timestamp n) = some (0x83 ∷ be64 (to_unsigned 64 n))
  write_value (uuid u) = some (0x98 ∷ u)
  write_value (binary s) = some (write_binary s)
  write_value (string s) = some (write_string s)
  write_value (symbol s) = some (write_symbol s)
  write_value (described d v) = do d' ← write_value d; v' ← write_value v; some (0x00 ∷ d' ++ v')
  write_value (list vs) = do body ← write_all vs; some (write_items (count_items vs) body)
  write_value (map ps) = do
    body ← write_entries ps
    some (write_compound 0xc1 0xd1 (2 * count_pairs ps) body)

  -- the loop of `writeList` over its inner encoder
  pub write_all : Values → Option Bytes
  write_all nil = some []
  write_all (cons v vs) = do b ← write_value v; bs ← write_all vs; some (b ++ bs)

  -- the loop of `writeMap`, in the order in which Go iterates
  pub write_entries : Pairs → Option Bytes
  write_entries end = some []
  write_entries (pair k v ps) = do
    k' ← write_value k
    v' ← write_value v
    bs ← write_entries ps
    some (k' ++ (v' ++ bs))

-- The loop of `encodeDescribedList` that trims trailing nils: a nil with nothing kept behind it goes.
unfoldable pub cons_trimmed : Value → Values → Values
cons_trimmed null nil = nil
cons_trimmed v vs = cons v vs

unfoldable pub trim : Values → Values
unfolding cons_trimmed
trim nil = nil
trim (cons v vs) = cons_trimmed v (trim vs)

unfoldable pub encode_described_list : ℕ → Values → Option Bytes
encode_described_list code fields = do
  body ← write_all (trim fields)
  some (0x00 ∷ 0x53 ∷ code % 256 ∷ write_items (count_items (trim fields)) body)
