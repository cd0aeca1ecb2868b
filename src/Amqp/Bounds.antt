-- ===== src/Amqp/Bounds.antt =====
-- What the decoder and the frame reader do on any input: they come to an end, and what they return
-- is no larger than what they read.
use localaz.Common.{
  Bytes, ℕ, zero, suc, ◌+◌, ◌/◌, ◌<◌, ◌≤◌, Bool, true, false, not, [], ◌∷◌, ◌≡◌, refl, length,
  arith, length-take, length-drop, if◌then◌else◌, ltb, ◌==◌, Bool-cases, inl, inr,
}
use localaz.Amqp.Types.{
  Value, null, bool, ubyte, ushort, uint, ulong, byte, short, int, long, timestamp, uuid, binary,
  string, symbol, described, list, map, Values, nil, cons, Pairs, end, pair, big_endian, to_signed,
}
use localaz.Amqp.Decode.{
  Error, Decoded, done, fail, stuck, panicked, read_byte, read_n, read_fixed, read_size, read_sized,
  key_eq, put, normalize_key, read_items, read_entries, read_list, read_map, read_described,
  read_body, read_value, decode, ◌>>=◌,
}

-- A value's size: one for each value inside, and its bytes.
abbrev mutual
  pub weight : Value → ℕ
  weight (uuid u) = suc (length u)
  weight (binary s) = suc (length s)
  weight (string s) = suc (length s)
  weight (symbol s) = suc (length s)
  weight (described d v) = suc (weight d + weight v)
  weight (list vs) = suc (weights vs)
  weight (map ps) = suc (pair_weights ps)
  weight _ = 1

  pub weights : Values → ℕ
  weights nil = 0
  weights (cons v vs) = weight v + weights vs

  pub pair_weights : Pairs → ℕ
  pair_weights end = 0
  pair_weights (pair k v ps) = weight k + weight v + pair_weights ps

-- The reader came to an end, and a result with what remains takes up no more than `n`.
unfoldable pub Bounded : {A : Type 0} → (A → ℕ) → ℕ → Decoded A → Type 0
Bounded w n (done a rest) = w a + length rest ≤ n
Bounded w n (fail e) = Unit
Bounded w n panicked = Unit
Bounded w n stuck = ⊥

Bounded-bind :
    {A B : Type 0} (w : A → ℕ) (w' : B → ℕ) (n k : ℕ) (m : Decoded A) (f : A × Bytes → Decoded B)
    → Bounded w n m
    → ((a : A) (r : Bytes) → w a + length r ≤ n → Bounded w' k (f (a, r)))
    → Bounded w' k (m >>= f)
unfolding Bounded
Bounded-bind w w' n k (done a r) f h g = g a r h
Bounded-bind w w' n k (fail e) f h g = tt
Bounded-bind w w' n k panicked f h g = tt
Bounded-bind w w' n k stuck f h g = absurd h

Bounded-if :
    {A : Type 0} (w : A → ℕ) (n : ℕ) (b : Bool) (x y : Decoded A)
    → Bounded w n x
    → Bounded w n y
    → Bounded w n (if b then x else y)
unfolding Bounded
Bounded-if w n true x y h k = h
Bounded-if w n false x y h k = k

Bounded-done :
    {A : Type 0} (w : A → ℕ) (n : ℕ) (a : A) (r : Bytes)
    → w a + length r ≤ n
    → Bounded w n (done a r)
unfolding Bounded
Bounded-done w n a r le = le

Bounded-fail : {A : Type 0} (w : A → ℕ) (n : ℕ) (e : Error) → Bounded w n (fail e)
unfolding Bounded
Bounded-fail w n e = tt

Bounded-panicked : {A : Type 0} (w : A → ℕ) (n : ℕ) → Bounded w n panicked
unfolding Bounded
Bounded-panicked w n = tt

Bounded-le :
    {A : Type 0} (w : A → ℕ) (n k : ℕ) (m : Decoded A) → n ≤ k → Bounded w n m → Bounded w k m
unfolding Bounded
Bounded-le w n k (done a r) le h = omega arith
Bounded-le w n k (fail e) le h = tt
Bounded-le w n k panicked le h = tt
Bounded-le w n k stuck le h = absurd h

read_n-Bounded : (n : ℕ) (bs : Bytes) → Bounded length (length bs) (read_n n bs)
unfolding read_n Bounded
read_n-Bounded n bs = elim (Bool-cases (ltb (length bs) n)) [
  | inl small ↦ rw small tt
  | inr large ↦ rw large (omega (arith, length-take n bs, length-drop n bs))
]

abbrev nothing : {A : Type 0} → A → ℕ
nothing a = 0

read_byte-Bounded : (bs : Bytes) → Bounded nothing (length bs) (read_byte bs)
unfolding read_byte Bounded
read_byte-Bounded [] = tt
read_byte-Bounded (b ∷ bs) = omega arith

read_size-Bounded : (width : ℕ) (bs : Bytes) → Bounded nothing (length bs) (read_size width bs)
unfolding read_size
read_size-Bounded width bs = Bounded-if nothing (length bs) _ _ _ (read_byte-Bounded bs) (
    Bounded-bind length nothing (length bs) (length bs) (read_n 4 bs) _ (read_n-Bounded 4 bs)
      (λ raw r h. Bounded-done _ _ _ _ (omega arith)))

-- values that are no larger than the bytes they are made of
abbrev Small : (Bytes → Value) → Type 0
Small f = (raw : Bytes) → weight (f raw) ≤ suc (length raw)

read_fixed-Bounded :
    (n : ℕ) (f : Bytes → Value) (bs : Bytes)
    → Small f
    → Bounded weight (suc (length bs)) (read_fixed n f bs)
unfolding read_fixed
read_fixed-Bounded n f bs small =
    Bounded-bind length weight (length bs) (suc (length bs)) (read_n n bs) _ (read_n-Bounded n bs)
      (λ raw r h. Bounded-done _ _ _ _ (omega (arith, small raw)))

read_sized-Bounded :
    (width : ℕ) (f : Bytes → Value) (bs : Bytes)
    → Small f
    → Bounded weight (suc (length bs)) (read_sized width f bs)
unfolding read_sized
read_sized-Bounded width f bs small =
    Bounded-bind nothing weight (length bs) (suc (length bs)) (read_size width bs) _
      (read_size-Bounded width bs)
      (λ size r h.
        Bounded-bind length weight (length r) (suc (length bs)) (read_n size r) _
          (read_n-Bounded size r) (λ raw r' h'. Bounded-done _ _ _ _ (omega (arith, small raw))))

put-weight :
    (k v : Value) (m : Pairs) → pair_weights (put k v m) ≤ weight k + weight v + pair_weights m
unfolding put
put-weight k v end = omega arith
put-weight k v (pair j w m) = elim (Bool-cases (key_eq j k)) [
  | inl same ↦ rw same (omega arith)
  | inr other ↦ rw other (omega (arith, put-weight k v m))
]

normalize_key-weight : (k : Value) → weight (normalize_key k) ≡ weight k
unfolding normalize_key
normalize_key-weight (symbol s) = refl
normalize_key-weight k = refl

one_value : (v : Value) (bs : Bytes) → weight v ≤ 1 → Bounded weight (suc (length bs)) (done v bs)
one_value v bs h = Bounded-done weight (suc (length bs)) v bs (omega arith)

module _ (rv : Bytes → Decoded Value) (n : ℕ)
    (each : (bs : Bytes) → length bs ≤ n → Bounded weight (length bs) (rv bs)) where
  read_items-Bounded :
      (count : ℕ) (bs : Bytes)
      → length bs ≤ n
      → Bounded weights (length bs) (read_items rv count bs)
  unfolding read_items
  read_items-Bounded zero bs le = Bounded-done _ _ _ _ (omega arith)
  read_items-Bounded (suc count) bs le =
      Bounded-bind weight weights (length bs) (length bs) (rv bs) _ (each bs le) (λ v r h.
        Bounded-bind weights weights (length r) (length bs) (read_items rv count r) _
          (read_items-Bounded count r (omega arith))
          (λ vs r' h'. Bounded-done _ _ _ _ (omega arith)))

  read_entries-Bounded :
      (count : ℕ) (m : Pairs) (bs : Bytes)
      → length bs ≤ n
      → Bounded pair_weights (pair_weights m + length bs) (read_entries rv count m bs)
  unfolding read_entries
  read_entries-Bounded zero m bs le = Bounded-done _ _ _ _ (omega arith)
  read_entries-Bounded (suc count) m bs le =
      Bounded-bind weight pair_weights (length bs) (pair_weights m + length bs) (rv bs) _
        (each bs le)
        (λ k r h.
          Bounded-bind weight pair_weights (length r) (pair_weights m + length bs) (rv r) _
            (each r (omega arith))
            (λ v r' h'.
              let m' = put (normalize_key k) v m in
              Bounded-if pair_weights (pair_weights m + length bs) _ _ _
                (Bounded-le pair_weights (pair_weights m' + length r') (pair_weights m + length bs)
                  _ (omega (arith, put-weight (normalize_key k) v m, normalize_key-weight k))
                  (read_entries-Bounded count m' r' (omega arith)))
                (Bounded-panicked _ _)))

  read_list-Bounded :
      (width : ℕ) (bs : Bytes)
      → length bs ≤ n
      → Bounded weight (suc (length bs)) (read_list rv width bs)
  unfolding read_list
  read_list-Bounded width bs le =
      Bounded-bind nothing weight (length bs) (suc (length bs)) (read_size width bs) _
        (read_size-Bounded width bs)
        (λ size r h.
          Bounded-bind nothing weight (length r) (suc (length bs)) (read_size width r) _
            (read_size-Bounded width r)
            (λ count r' h'. Bounded-if weight (suc (length bs)) _ _ _ (Bounded-fail _ _ _) (
              Bounded-bind weights weight (length r') (suc (length bs)) (read_items rv count r') _
                (read_items-Bounded count r' (omega arith))
                (λ vs r'' h''. Bounded-done _ _ _ _ (omega arith)))))

  read_map-Bounded :
      (width : ℕ) (bs : Bytes)
      → length bs ≤ n
      → Bounded weight (suc (length bs)) (read_map rv width bs)
  unfolding read_map
  read_map-Bounded width bs le =
      Bounded-bind nothing weight (length bs) (suc (length bs)) (read_size width bs) _
        (read_size-Bounded width bs)
        (λ size r h.
          Bounded-bind nothing weight (length r) (suc (length bs)) (read_size width r) _
            (read_size-Bounded width r)
            (λ count r' h'. Bounded-if weight (suc (length bs)) _ _ _ (Bounded-fail _ _ _) (
              Bounded-bind pair_weights weight (pair_weights end + length r') (suc (length bs)) _ _
                (read_entries-Bounded ((count + 1) / 2) end r' (omega arith))
                (λ m r'' h''. Bounded-done _ _ _ _ (omega arith)))))

  read_described-Bounded :
      (bs : Bytes) → length bs ≤ n → Bounded weight (suc (length bs)) (read_described rv bs)
  unfolding read_described
  read_described-Bounded bs le =
      Bounded-bind weight weight (length bs) (suc (length bs)) (rv bs) _ (each bs le) (λ d r h.
        Bounded-bind weight weight (length r) (suc (length bs)) (rv r) _ (each r (omega arith))
          (λ v r' h'. Bounded-done _ _ _ _ (omega arith)))

  read_body-Bounded :
      (code : ℕ) (bs : Bytes)
      → length bs ≤ n
      → Bounded weight (suc (length bs)) (read_body rv code bs)
  unfolding read_body
  read_body-Bounded code bs le =
      let k = suc (length bs) in
      (Bounded-if weight k (code == 0x40) _ _ (one_value null bs (omega arith)) (
        Bounded-if weight k (code == 0x41) _ _ (one_value (bool true) bs (omega arith)) (
          Bounded-if weight k (code == 0x42) _ _ (one_value (bool false) bs (omega arith)) (
            Bounded-if weight k (code == 0x56) _ _
              (read_fixed-Bounded 1 (λ b. bool (not (big_endian b == 0))) bs (λ raw. omega arith))
              (Bounded-if weight k (code == 0x43) _ _ (one_value (uint 0) bs (omega arith)) (
                Bounded-if weight k (code == 0x44) _ _ (one_value (ulong 0) bs (omega arith)) (
                  Bounded-if weight k (code == 0x52) _ _
                    (read_fixed-Bounded 1 (λ b. uint (big_endian b)) bs (λ raw. omega arith))
                    (Bounded-if weight k (code == 0x53) _ _
                      (read_fixed-Bounded 1 (λ b. ulong (big_endian b)) bs (λ raw. omega arith))
                      (Bounded-if weight k (code == 0x54) _ _
                        (read_fixed-Bounded 1 (λ b. int (to_signed 8 (big_endian b))) bs
                          (λ raw. omega arith))
                        (Bounded-if weight k (code == 0x55) _ _
                          (read_fixed-Bounded 1 (λ b. long (to_signed 8 (big_endian b))) bs
                            (λ raw. omega arith))
                          (Bounded-if weight k (code == 0x50) _ _
                            (read_fixed-Bounded 1 (λ b. ubyte (big_endian b)) bs
                              (λ raw. omega arith))
                            (Bounded-if weight k (code == 0x51) _ _
                              (read_fixed-Bounded 1 (λ b. byte (to_signed 8 (big_endian b))) bs
                                (λ raw. omega arith))
                              (Bounded-if weight k (code == 0x60) _ _
                                (read_fixed-Bounded 2 (λ b. ushort (big_endian b)) bs
                                  (λ raw. omega arith))
                                (Bounded-if weight k (code == 0x61) _ _
                                  (read_fixed-Bounded 2 (λ b. short (to_signed 16 (big_endian b)))
                                    bs (λ raw. omega arith))
                                  (Bounded-if weight k (code == 0x70) _ _
                                    (read_fixed-Bounded 4 (λ b. uint (big_endian b)) bs
                                      (λ raw. omega arith))
                                    (Bounded-if weight k (code == 0x71) _ _
                                      (read_fixed-Bounded 4 (λ b. int (to_signed 32 (big_endian b)))
                                        bs (λ raw. omega arith))
                                      (Bounded-if weight k (code == 0x80) _ _
                                        (read_fixed-Bounded 8 (λ b. ulong (big_endian b)) bs
                                          (λ raw. omega arith))
                                        (Bounded-if weight k (code == 0x81) _ _
                                          (read_fixed-Bounded 8
                                            (λ b. long (to_signed 64 (big_endian b))) bs
                                            (λ raw. omega arith))
                                          (Bounded-if weight k (code == 0x83) _ _
                                            (read_fixed-Bounded 8
                                              (λ b. timestamp (to_signed 64 (big_endian b))) bs
                                              (λ raw. omega arith))
                                            (Bounded-if weight k (code == 0x98) _ _
                                              (read_fixed-Bounded 16 (uuid) bs (λ raw. omega arith))
                                              (Bounded-if weight k (code == 0xa0) _ _
                                                (read_sized-Bounded 1 (binary) bs
                                                  (λ raw. omega arith))
                                                (Bounded-if weight k (code == 0xb0) _ _
                                                  (read_sized-Bounded 4 (binary) bs
                                                    (λ raw. omega arith))
                                                  (Bounded-if weight k (code == 0xa1) _ _
                                                    (read_sized-Bounded 1 (string) bs
                                                      (λ raw. omega arith))
                                                    (Bounded-if weight k (code == 0xb1) _ _
                                                      (read_sized-Bounded 4 (string) bs
                                                        (λ raw. omega arith))
                                                      (Bounded-if weight k (code == 0xa3) _ _
                                                        (read_sized-Bounded 1 (symbol) bs
                                                          (λ raw. omega arith))
                                                        (Bounded-if weight k (code == 0xb3) _ _
                                                          (read_sized-Bounded 4 (symbol) bs
                                                            (λ raw. omega arith))
                                                          (Bounded-if weight k (code == 0x45) _ _
                                                            (one_value (list nil) bs (omega arith))
                                                            (Bounded-if weight k (code == 0xc0) _ _
                                                            (read_list-Bounded 1 bs le)
                                                            (Bounded-if weight k (code == 0xd0) _ _
                                                            (read_list-Bounded 4 bs le)
                                                            (Bounded-if weight k (code == 0xc1) _ _
                                                            (read_map-Bounded 1 bs le)
                                                            (Bounded-if weight k (code == 0xd1) _ _
                                                            (read_map-Bounded 4 bs le)
                                                            (Bounded-if weight k (code == 0x00) _ _
                                                            (read_described-Bounded bs le)
                                                            (Bounded-if weight k (code == 0x72) _ _
                                                            (read_fixed-Bounded 4
                                                            (λ b. uint (big_endian b)) bs
                                                            (λ raw. omega arith))
                                                            (Bounded-if weight k (code == 0x82) _ _
                                                            (read_fixed-Bounded 8
                                                            (λ b. ulong (big_endian b)) bs
                                                            (λ raw. omega arith))
                                                            (Bounded-fail _ _
                                                            _)))))))))))))))))))))))))))))))))))

read_value-Bounded :
    (fuel : ℕ) (bs : Bytes) → length bs < fuel → Bounded weight (length bs) (read_value fuel bs)
unfolding read_value
read_value-Bounded zero bs lt = absurd (omega arith)
read_value-Bounded (suc fuel) [] lt = Bounded-fail _ _ _
read_value-Bounded (suc fuel) (code ∷ bs) lt =
    read_body-Bounded (read_value fuel) (length bs)
      (λ bs' le. read_value-Bounded fuel bs' (omega arith)) code bs (omega arith)

pub decode-Bounded : (buf : Bytes) → Bounded weight (length buf) (decode buf)
unfolding decode
decode-Bounded buf = read_value-Bounded (suc (length buf)) buf (omega arith)
