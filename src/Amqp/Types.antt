-- ===== src/Amqp/Types.antt =====
-- internal/servers/sbserver/amqptypes.go: the values, the Go types that stand for them, and the
-- big-endian forms of encoding/binary.
use localaz.Common.{Bytes, ℕ, suc, ◌+◌, ◌-◌, ◌*◌, ◌/◌, ◌%◌, ◌^◌, Bool, [], ◌∷◌, ltb, if◌then◌else◌}
use localaz.Common.Int.{ℤ, pos, negsuc}

-- The dynamic values of the decoder. `uint` is Go's uint32, `int` its int32, and so on; a
-- timestamp is its milliseconds since 1970; a map lists its entries.
mutual
  pub data Value : Type 0 where
    null : Value
    bool : Bool → Value
    ubyte ushort uint ulong : ℕ → Value
    byte short int long timestamp : ℤ → Value
    uuid binary string symbol : Bytes → Value
    described : Value → Value → Value
    list : Values → Value
    map : Pairs → Value

  pub data Values : Type 0 where
    nil : Values
    cons : Value → Values → Values

  pub data Pairs : Type 0 where
    end : Pairs
    pair : Value → Value → Pairs → Pairs

abbrev pub count_items : Values → ℕ
count_items nil = 0
count_items (cons v vs) = suc (count_items vs)

abbrev pub count_pairs : Pairs → ℕ
count_pairs end = 0
count_pairs (pair k v ps) = suc (count_pairs ps)

-- `binary.BigEndian.AppendUint16`, `32` and `64`
abbrev pub be16 : ℕ → Bytes
be16 n = n / 2 ^ 8 % 256 ∷ n % 256 ∷ []

abbrev pub be32 : ℕ → Bytes
be32 n = n / 2 ^ 24 % 256 ∷ n / 2 ^ 16 % 256 ∷ n / 2 ^ 8 % 256 ∷ n % 256 ∷ []

abbrev pub be64 : ℕ → Bytes
be64 n =
    n / 2 ^ 56 % 256
    ∷ n / 2 ^ 48 % 256
    ∷ n / 2 ^ 40 % 256
    ∷ n / 2 ^ 32 % 256
    ∷ n / 2 ^ 24 % 256
    ∷ n / 2 ^ 16 % 256
    ∷ n / 2 ^ 8 % 256
    ∷ n % 256
    ∷ []

-- `binary.BigEndian.Uint16`, `32` and `64` of as many bytes
from_be : ℕ → Bytes → ℕ
from_be acc [] = acc
from_be acc (b ∷ bs) = from_be (acc * 256 + b) bs

unfoldable pub big_endian : Bytes → ℕ
unfolding from_be
big_endian bs = from_be 0 bs

-- the conversions between a `w`-bit unsigned and a signed integer
unfoldable pub to_signed : ℕ → ℕ → ℤ
to_signed w n = if ltb n (2 ^ (w - 1)) then pos n else negsuc (2 ^ w - 1 - n)

unfoldable pub to_unsigned : ℕ → ℤ → ℕ
to_unsigned w (pos n) = n
to_unsigned w (negsuc n) = 2 ^ w - 1 - n
