-- ===== src/Amqp/Crash.antt =====
-- Map keys without a hash: the decoder stores them with `m[k] = v`, which panics in Go.
use localaz.Common.{
  Bytes, ℕ, suc, ◌+◌, ◌*◌, ◌^◌, ◌<◌, ◌≤◌, false, ◌++◌, ◌≡◌, refl, some, length, arith,
  length-append,
}
use mathlib.Core.List.{append_assoc}
use mathlib.Core.Path.{subst}
use mathlib.Core.Option.{some-injective}
use localaz.Amqp.Types.{Value, map, Pairs, end, pair, count_pairs}
use localaz.Amqp.Encode.{write_compound, write_value, write_entries}
use localaz.Amqp.Decode.{
  Decoded, done, panicked, read_size, hashable, normalize_key, read_entries, read_map, read_value,
  decode,
}
use localaz.Amqp.Wire.{compound-append, halve}
use localaz.Amqp.Fits.{Fits}
use localaz.Amqp.Scalars.{
  bind-eq-some, length-some, Reads, at_any, write_value-nonempty, count_pairs-le,
  length-write_compound, length-write_compound_wide,
}
use localaz.Amqp.RoundTrip.{reads}

entries_crash :
    (k v : Value) (n f : ℕ) (m : Pairs) (k' v' bs rest : Bytes)
    → hashable (normalize_key k) ≡ false
    → Reads k k' (v' ++ (bs ++ rest)) f
    → Reads v v' (bs ++ rest) f
    → read_entries (read_value f) (suc n) m ((k' ++ (v' ++ bs)) ++ rest) ≡ panicked
unfolding read_entries
entries_crash k v n f m k' v' bs rest bad h h' =
    rw (append_assoc k' (v' ++ bs) rest, append_assoc v' bs rest, h, h', bad) refl

read_map-crash :
    (rv : Bytes → Decoded Value) (width size n : ℕ) (pre mid body rest : Bytes)
    → read_size width pre ≡ done size mid
    → read_size width mid ≡ done (2 * suc n) (body ++ rest)
    → 2 * suc n ≤ length body
    → read_entries rv (suc n) end (body ++ rest) ≡ panicked
    → read_map rv width pre ≡ panicked
unfolding read_map
read_map-crash rv width size n pre mid body rest h k le entries =
    ground (arith, length-append body rest, halve n)

map_crash :
    (n f : ℕ) (body rest : Bytes)
    → 2 * suc n ≤ length body
    → length body + 4 < 2 ^ 32
    → read_entries (read_value f) (suc n) end (body ++ rest) ≡ panicked
    → read_value (suc f) (write_compound 0xc1 0xd1 (2 * suc n) body ++ rest) ≡ panicked
unfolding read_value
map_crash n f body rest le lt crash =
    compound-append f (read_map (read_value f)) panicked 0xc1 0xd1 (2 * suc n) body rest
      (λ width size pre mid h k.
        read_map-crash (read_value f) width size n pre mid body rest h k le crash)
      (λ x. refl) (λ x. refl) le lt

-- Where the first key of a map is a value without a hash (a list, a map, binary, or a described one
-- with such a part), the first key and its value are values that the codec carries (`Fits`), and the
-- map is encoded, in less than 2^32 bytes, decoding the encoding panics.
pub decode-panicked :
    (k v : Value) (ps : Pairs) (bs rest : Bytes)
    → Fits k
    → Fits v
    → hashable (normalize_key k) ≡ false
    → write_value (map (pair k v ps)) ≡ some bs
    → length bs < 2 ^ 32
    → decode (bs ++ rest) ≡ panicked
unfolding decode write_value
decode-panicked k v ps bs rest fk fv bad h lt =
    let (body, e, last) = bind-eq-some (write_entries (pair k v ps)) _ h in
    let (k', ek, h') = bind-eq-some (write_value k) _ e in
    let (v', ev, h'') = bind-eq-some (write_value v) _ h' in
    let (bs', e', same) = bind-eq-some (write_entries ps) _ h'' in
    let count = count_pairs-le (pair k v ps) body e in
    let size = length-write_compound 0xc1 0xd1 (2 * suc (count_pairs ps)) body in
    let len = length-some last in
    let len' = length-some same in
    let n = length-append k' (v' ++ bs') in
    let n' = length-append v' bs' in
    let f = length (bs ++ rest) in
    let m = length-append bs rest in
    let crash =
      entries_crash k v (count_pairs ps) f end k' v' bs' rest bad
        (at_any k k' (v' ++ (bs' ++ rest)) (write_value-nonempty k k' ek)
          (λ f le. reads k f k' (v' ++ (bs' ++ rest)) fk ek (omega arith) le) f (omega arith))
        (at_any v v' (bs' ++ rest) (write_value-nonempty v v' ev)
          (λ f le. reads v f v' (bs' ++ rest) fv ev (omega arith) le) f (omega arith)) in
    subst (λ b. read_value (suc f) (b ++ rest) ≡ panicked) (some-injective _ bs last)
      (map_crash (count_pairs ps) f body rest count
        (length-write_compound_wide 0xc1 0xd1 (2 * suc (count_pairs ps)) body (omega arith) count)
        (subst (λ b. read_entries (read_value f) (suc (count_pairs ps)) end (b ++ rest) ≡ panicked)
          (some-injective _ body same) crash))
