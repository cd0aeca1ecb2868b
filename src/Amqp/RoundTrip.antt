-- ===== src/Amqp/RoundTrip.antt =====
-- `readValue` reads back what `writeValue` wrote, and leaves the bytes that follow.
use localaz.Common.{
  Bytes, ℕ, suc, ◌+◌, ◌*◌, ◌^◌, ◌<◌, ◌≤◌, true, false, [], ◌∷◌, ◌++◌, ◌≡◌, refl, sym, ap, some,
  length, arith, length-append,
}
use mathlib.Core.List.{append_assoc}
use mathlib.Core.Path.{subst}
use mathlib.Core.Option.{some-injective}
use localaz.Amqp.Types.{
  Value, null, bool, ubyte, ushort, uint, ulong, byte, short, int, long, timestamp, uuid, binary,
  string, symbol, described, list, map, Values, nil, cons, Pairs, end, pair, count_items,
  count_pairs,
}
use localaz.Amqp.Encode.{write_compound, write_items, write_value, write_all, write_entries}
use localaz.Amqp.Decode.{
  done, hashable, normalize_key, read_items, read_entries, read_list, read_map, read_described,
  read_value, decode,
}
use localaz.Amqp.Wire.{read_list-append, read_map-append, compound-append}
use localaz.Amqp.Fits.{
  append_pairs, Fresh, KeysFit, put-Fresh, append_pairs_assoc, append_pairs_end, Fits, FitAll,
  FitPairs,
}
use localaz.Amqp.Scalars.{
  Reads, at_any, bind-eq-some, count_items-le, count_pairs-le, given, length-some,
  length-write_compound, length-write_compound_wide, scalar-Reads, write_items_cons,
  write_value-nonempty,
}

pub described-Reads :
    (d v : Value) (f : ℕ) (d' v' rest : Bytes)
    → read_value f (d' ++ (v' ++ rest)) ≡ done d (v' ++ rest)
    → read_value f (v' ++ rest) ≡ done v rest
    → Reads (described d v) (0x00 ∷ d' ++ v') rest (suc f)
unfolding read_value read_described
described-Reads d v f d' v' rest h k = rw (append_assoc d' v' rest, h, k) refl

nil-Reads : (f : ℕ) (rest : Bytes) → Reads (list nil) (write_items 0 []) rest (suc f)
unfolding read_value write_items
nil-Reads f rest = refl

list-Reads :
    (vs : Values) (n f : ℕ) (body rest : Bytes)
    → count_items vs ≡ suc n
    → count_items vs ≤ length body
    → length body + 4 < 2 ^ 32
    → read_items (read_value f) (count_items vs) (body ++ rest) ≡ done vs rest
    → Reads (list vs) (write_items (suc n) body) rest (suc f)
unfolding read_value
list-Reads vs n f body rest e le lt items =
    rw (write_items_cons n body, sym e)
      (compound-append f (read_list (read_value f)) (done (list vs) rest) 0xc0 0xd0 (count_items vs)
        body rest
        (λ width size pre mid h k.
          read_list-append (read_value f) width size pre mid body rest vs h k le items)
        (λ x. refl) (λ x. refl) le lt)

map-Reads :
    (ps : Pairs) (f : ℕ) (body rest : Bytes)
    → 2 * count_pairs ps ≤ length body
    → length body + 4 < 2 ^ 32
    → read_entries (read_value f) (count_pairs ps) end (body ++ rest) ≡ done ps rest
    → Reads (map ps) (write_compound 0xc1 0xd1 (2 * count_pairs ps) body) rest (suc f)
unfolding read_value
map-Reads ps f body rest le lt entries =
    compound-append f (read_map (read_value f)) (done (map ps) rest) 0xc1 0xd1 (2 * count_pairs ps)
      body rest
      (λ width size pre mid h k.
        read_map-append (read_value f) width size pre mid body rest ps h k le entries)
      (λ x. refl) (λ x. refl) le lt

items_read :
    (v : Value) (vs : Values) (f : ℕ) (b bs rest : Bytes)
    → Reads v b (bs ++ rest) f
    → read_items (read_value f) (count_items vs) (bs ++ rest) ≡ done vs rest
    → read_items (read_value f) (suc (count_items vs)) ((b ++ bs) ++ rest) ≡ done (cons v vs) rest
unfolding read_items
items_read v vs f b bs rest h k = rw (append_assoc b bs rest, h, k) refl

entries_read :
    (k v : Value) (ps m : Pairs) (f : ℕ) (k' v' bs rest : Bytes)
    → hashable k ≡ true
    → normalize_key k ≡ k
    → Fresh k m
    → Reads k k' (v' ++ (bs ++ rest)) f
    → Reads v v' (bs ++ rest) f
    → read_entries (read_value f) (count_pairs ps) (append_pairs m (pair k v end)) (bs ++ rest)
      ≡ done (append_pairs (append_pairs m (pair k v end)) ps) rest
    → read_entries (read_value f) (suc (count_pairs ps)) m ((k' ++ (v' ++ bs)) ++ rest)
      ≡ done (append_pairs m (pair k v ps)) rest
unfolding read_entries
entries_read k v ps m f k' v' bs rest hk nk fresh h h' e =
    rw
      (
        append_assoc k' (v' ++ bs) rest,
        append_assoc v' bs rest,
        h,
        h',
        nk,
        hk,
        put-Fresh k v m fresh,
        e,
        append_pairs_assoc m k v ps,
      )
      refl

items_wide :
    (n : ℕ) (body : Bytes)
    → length (write_items (suc n) body) < 2 ^ 32
    → suc n ≤ length body
    → length body + 4 < 2 ^ 32
items_wide n body h =
    length-write_compound_wide 0xc0 0xd0 (suc n) body
      (subst (λ b. length b < 2 ^ 32) (write_items_cons n body) h)

length-write_items : (n : ℕ) (body : Bytes) → length body + 3 ≤ length (write_items (suc n) body)
length-write_items n body =
    subst (λ b. length body + 3 ≤ length b) (sym (write_items_cons n body))
      (length-write_compound 0xc0 0xd0 (suc n) body)

no_items : (f : ℕ) (rest : Bytes) → read_items (read_value f) 0 rest ≡ done nil rest
unfolding read_items
no_items f rest = refl

no_entries :
    (f : ℕ) (m : Pairs) (rest : Bytes)
    → read_entries (read_value f) 0 m rest ≡ done (append_pairs m end) rest
unfolding read_entries
no_entries f m rest = ap (λ x. done x rest) (sym (append_pairs_end m))

mutual
  unfolding write_value

  pub reads :
      (v : Value) (fuel : ℕ) (bs rest : Bytes)
      → Fits v
      → write_value v ≡ some bs
      → length bs < 2 ^ 32
      → length bs ≤ suc fuel
      → Reads v bs rest (suc fuel)
  reads (described d v) fuel bs rest (fd, fv) h lt le =
      let (d', ed, h') = bind-eq-some (write_value d) _ h in
      let (v', ev, last) = bind-eq-some (write_value v) _ h' in
      let len = length-some last in
      let n = length-append d' v' in
      given (described d v) _ bs rest (suc fuel) last (
        described-Reads d v fuel d' v' rest
          (at_any d d' (v' ++ rest) (write_value-nonempty d d' ed)
            (λ f k. reads d f d' (v' ++ rest) fd ed (omega arith) k) fuel (omega arith))
          (at_any v v' rest (write_value-nonempty v v' ev)
            (λ f k. reads v f v' rest fv ev (omega arith) k) fuel (omega arith)))
  reads (list nil) fuel bs rest fits h lt le =
      given (list nil) _ bs rest (suc fuel) h (nil-Reads fuel rest)
  reads (list (cons v vs)) fuel bs rest fits h lt le =
      let (body, e, last) = bind-eq-some (write_all (cons v vs)) _ h in
      let len = length-some last in
      let size = length-write_items (count_items vs) body in
      let count = count_items-le (cons v vs) body e in
      let wide = items_wide (count_items vs) body (omega arith) count in
      given (list (cons v vs)) _ bs rest (suc fuel) last (
        list-Reads (cons v vs) (count_items vs) fuel body rest refl count wide
          (reads_all (cons v vs) fuel body rest fits e (omega arith) (omega arith)))
  reads (map ps) fuel bs rest fits h lt le =
      let (body, e, last) = bind-eq-some (write_entries ps) _ h in
      let len = length-some last in
      let size = length-write_compound 0xc1 0xd1 (2 * count_pairs ps) body in
      let count = count_pairs-le ps body e in
      let wide =
        length-write_compound_wide 0xc1 0xd1 (2 * count_pairs ps) body (omega arith) count in
      given (map ps) _ bs rest (suc fuel) last (
        map-Reads ps fuel body rest count wide
          (reads_entries ps end fuel body rest (fits.0) (fits.1) e (omega arith) (omega arith)))
  reads null fuel bs rest fits h lt le = scalar-Reads fuel rest null bs refl fits h lt
  reads (bool true) fuel bs rest fits h lt le = scalar-Reads fuel rest (bool true) bs refl fits h lt
  reads (bool false) fuel bs rest fits h lt le =
      scalar-Reads fuel rest (bool false) bs refl fits h lt
  reads (ubyte n) fuel bs rest fits h lt le = scalar-Reads fuel rest (ubyte n) bs refl fits h lt
  reads (ushort n) fuel bs rest fits h lt le = scalar-Reads fuel rest (ushort n) bs refl fits h lt
  reads (uint n) fuel bs rest fits h lt le = scalar-Reads fuel rest (uint n) bs refl fits h lt
  reads (ulong n) fuel bs rest fits h lt le = scalar-Reads fuel rest (ulong n) bs refl fits h lt
  reads (byte n) fuel bs rest fits h lt le = scalar-Reads fuel rest (byte n) bs refl fits h lt
  reads (short n) fuel bs rest fits h lt le = scalar-Reads fuel rest (short n) bs refl fits h lt
  reads (int n) fuel bs rest fits h lt le = scalar-Reads fuel rest (int n) bs refl fits h lt
  reads (long n) fuel bs rest fits h lt le = scalar-Reads fuel rest (long n) bs refl fits h lt
  reads (timestamp n) fuel bs rest fits h lt le =
      scalar-Reads fuel rest (timestamp n) bs refl fits h lt
  reads (uuid b) fuel bs rest fits h lt le = scalar-Reads fuel rest (uuid b) bs refl fits h lt
  reads (binary b) fuel bs rest fits h lt le = scalar-Reads fuel rest (binary b) bs refl fits h lt
  reads (string b) fuel bs rest fits h lt le = scalar-Reads fuel rest (string b) bs refl fits h lt
  reads (symbol b) fuel bs rest fits h lt le = scalar-Reads fuel rest (symbol b) bs refl fits h lt

  reads_all :
      (vs : Values) (fuel : ℕ) (bs rest : Bytes)
      → FitAll vs
      → write_all vs ≡ some bs
      → length bs < 2 ^ 32
      → length bs ≤ fuel
      → read_items (read_value fuel) (count_items vs) (bs ++ rest) ≡ done vs rest
  reads_all nil fuel bs rest fits h lt le =
      subst (λ b. read_items (read_value fuel) 0 (b ++ rest) ≡ done nil rest)
        (some-injective [] bs h) (no_items fuel rest)
  reads_all (cons v vs) fuel bs rest (fv, fvs) h lt le =
      let (b, e, h') = bind-eq-some (write_value v) _ h in
      let (bs', e', last) = bind-eq-some (write_all vs) _ h' in
      let len = length-some last in
      let n = length-append b bs' in
      subst
        (λ x.
          read_items (read_value fuel) (suc (count_items vs)) (x ++ rest) ≡ done (cons v vs) rest)
        (some-injective _ bs last)
        (items_read v vs fuel b bs' rest
          (at_any v b (bs' ++ rest) (write_value-nonempty v b e)
            (λ f k. reads v f b (bs' ++ rest) fv e (omega arith) k) fuel (omega arith))
          (reads_all vs fuel bs' rest fvs e' (omega arith) (omega arith)))

  reads_entries :
      (ps m : Pairs) (fuel : ℕ) (bs rest : Bytes)
      → KeysFit m ps
      → FitPairs ps
      → write_entries ps ≡ some bs
      → length bs < 2 ^ 32
      → length bs ≤ fuel
      → read_entries (read_value fuel) (count_pairs ps) m (bs ++ rest)
        ≡ done (append_pairs m ps) rest
  reads_entries end m fuel bs rest keys fits h lt le =
      subst (λ b. read_entries (read_value fuel) 0 m (b ++ rest) ≡ done (append_pairs m end) rest)
        (some-injective [] bs h) (no_entries fuel m rest)
  reads_entries (pair k v ps) m fuel bs rest (hk, nk, fresh, keys) (fk, fv, fps) h lt le =
      let (k', ek, h') = bind-eq-some (write_value k) _ h in
      let (v', ev, h'') = bind-eq-some (write_value v) _ h' in
      let (bs', e', last) = bind-eq-some (write_entries ps) _ h'' in
      let len = length-some last in
      let n = length-append k' (v' ++ bs') in
      let n' = length-append v' bs' in
      subst
        (λ x.
          read_entries (read_value fuel) (suc (count_pairs ps)) m (x ++ rest)
          ≡ done (append_pairs m (pair k v ps)) rest)
        (some-injective _ bs last)
        (entries_read k v ps m fuel k' v' bs' rest hk nk fresh
          (at_any k k' (v' ++ (bs' ++ rest)) (write_value-nonempty k k' ek)
            (λ f le'. reads k f k' (v' ++ (bs' ++ rest)) fk ek (omega arith) le') fuel
            (omega arith))
          (at_any v v' (bs' ++ rest) (write_value-nonempty v v' ev)
            (λ f le'. reads v f v' (bs' ++ rest) fv ev (omega arith) le') fuel (omega arith))
          (reads_entries ps (append_pairs m (pair k v end)) fuel bs' rest keys fps e' (omega arith)
            (omega arith)))

-- A value that the codec carries (`Fits`), whose encoding is shorter than 2^32 bytes, is read back from
-- its encoding, and the bytes behind it remain. It carries a value whose numbers fit their Go types,
-- without int8 and int16, which the encoder does not know, whose uuids have 16 bytes, and whose maps
-- have keys that are no symbols, have a hash and differ from each other.
pub decode-write_value :
    (v : Value) (bs rest : Bytes)
    → Fits v
    → write_value v ≡ some bs
    → length bs < 2 ^ 32
    → decode (bs ++ rest) ≡ done v rest
unfolding decode
decode-write_value v bs rest fits h lt =
    reads v (length (bs ++ rest)) bs rest fits h lt (omega (arith, length-append bs rest))
