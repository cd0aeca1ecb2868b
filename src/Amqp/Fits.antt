-- ===== src/Amqp/Fits.antt =====
-- Which values the codec carries unchanged.
use localaz.Common.{◌^◌, ◌<◌, true, false, ◌≡◌, refl, ap, length, arith}
use localaz.Amqp.Types.{
  Value, null, bool, ubyte, ushort, uint, ulong, byte, short, int, long, timestamp, uuid, binary,
  string, symbol, described, list, map, Values, nil, cons, Pairs, end, pair,
}
use localaz.Amqp.Decode.{hashable, key_eq, put, normalize_key}
use localaz.Amqp.Wire.{InRange}

-- the entries of a map behind those that are there
abbrev pub append_pairs : Pairs → Pairs → Pairs
append_pairs end ps = ps
append_pairs (pair k v m) ps = pair k v (append_pairs m ps)

-- no key of `m` is `k`
abbrev pub Fresh : Value → Pairs → Type 0
Fresh k end = Unit
Fresh k (pair j w m) = (key_eq j k ≡ false) × Fresh k m

-- Each key can be hashed, is no symbol, and differs from all before it.
abbrev pub KeysFit : Pairs → Pairs → Type 0
KeysFit m end = Unit
KeysFit m (pair k v ps) =
    (hashable k ≡ true)
    × (normalize_key k ≡ k)
    × Fresh k m
    × KeysFit (append_pairs m (pair k v end)) ps

pub put-Fresh : (k v : Value) (m : Pairs) → Fresh k m → put k v m ≡ append_pairs m (pair k v end)
unfolding put
put-Fresh k v end h = refl
put-Fresh k v (pair j w m) (p, h) = ground (arith, put-Fresh k v m h)

pub append_pairs_assoc :
    (m : Pairs) (k v : Value) (ps : Pairs)
    → append_pairs (append_pairs m (pair k v end)) ps ≡ append_pairs m (pair k v ps)
append_pairs_assoc end k v ps = refl
append_pairs_assoc (pair j w m) k v ps = ap (pair j w) (append_pairs_assoc m k v ps)

pub append_pairs_end : (m : Pairs) → append_pairs m end ≡ m
append_pairs_end end = refl
append_pairs_end (pair j w m) = ap (pair j w) (append_pairs_end m)

-- The values that the codec carries unchanged: each in the range of its Go type, no int8 or int16
-- (the encoder panics on them), and map keys that a decoded map can hold.
abbrev mutual
  pub Fits : Value → Type 0
  Fits null = Unit
  Fits (bool b) = Unit
  Fits (ubyte n) = n < 256
  Fits (ushort n) = n < 2 ^ 16
  Fits (uint n) = n < 2 ^ 32
  Fits (ulong n) = n < 2 ^ 64
  Fits (byte n) = ⊥
  Fits (short n) = ⊥
  Fits (int n) = InRange 32 n
  Fits (long n) = InRange 64 n
  Fits (timestamp n) = InRange 64 n
  Fits (uuid u) = length u ≡ 16
  Fits (binary s) = Unit
  Fits (string s) = Unit
  Fits (symbol s) = Unit
  Fits (described d v) = Fits d × Fits v
  Fits (list vs) = FitAll vs
  Fits (map ps) = KeysFit end ps × FitPairs ps

  pub FitAll : Values → Type 0
  FitAll nil = Unit
  FitAll (cons v vs) = Fits v × FitAll vs

  pub FitPairs : Pairs → Type 0
  FitPairs end = Unit
  FitPairs (pair k v ps) = Fits k × Fits v × FitPairs ps
