-- ===== src/Amqp/Tests.antt =====
-- The codec at concrete values and frames.
use localaz.Common.{
  Bytes, ℕ, ◌-◌, true, false, [], ◌∷◌, ◌++◌, ◌≡◌, refl, arith, codes, length, some,
}
use localaz.Common.Int.{pos, negsuc}
use localaz.Amqp.Types.{
  Value, null, bool, uint, ulong, int, timestamp, binary, string, described, list, map, to_unsigned,
  Values, nil, cons, end, pair,
}
use localaz.Amqp.Encode.{write_items, write_compound, write_sized, write_value, trim}
use localaz.Amqp.Decode.{done, panicked, hashable, key_eq, normalize_key, decode}
use localaz.Amqp.Fits.{Fits, FitAll}
use localaz.Amqp.Frame.{Frame, received, read_frame, write_frame, field, max_frame_size}
use localaz.Amqp.Bounds.{Bounded, weight, decode-Bounded}
use localaz.Amqp.Limits.{Within, read_frame-Within}
use localaz.Amqp.RoundTrip.{decode-write_value}
use localaz.Amqp.Framing.{read_frame-write_frame}
use localaz.Amqp.Crash.{decode-panicked}

-- a source of a receiver link, with a filter map and an array of ids
abbrev source : Value
source = described (ulong 0x28) (
    list (
      cons (string (codes "orders")) (
        cons
          (map (pair (string (codes "level")) (int (negsuc 2)) (pair (uint 700) (bool true) end)))
          (cons null (cons (timestamp (pos 1700000000000)) (cons (binary (1 ∷ 2 ∷ 3 ∷ [])) nil))))))

abbrev source_bytes : Bytes
source_bytes =
    0 ∷ 128 ∷ 0 ∷ 0 ∷ 0 ∷ 0 ∷ 0 ∷ 0 ∷ 0 ∷ 40 ∷ 192 ∷ 45 ∷ 5 ∷ 161 ∷ 6 ∷ 111 ∷ 114 ∷ 100 ∷ 101 ∷ 114
    ∷ 115 ∷ 193 ∷ 19 ∷ 4 ∷ 161 ∷ 5 ∷ 108 ∷ 101 ∷ 118 ∷ 101 ∷ 108 ∷ 113 ∷ 255 ∷ 255 ∷ 255 ∷ 253 ∷ 112
    ∷ 0 ∷ 0 ∷ 2 ∷ 188 ∷ 65 ∷ 64 ∷ 131 ∷ 0 ∷ 0 ∷ 1 ∷ 139 ∷ 207 ∷ 229 ∷ 104 ∷ 0 ∷ 160 ∷ 3 ∷ 1 ∷ 2 ∷ 3
    ∷ []

source_written : write_value source ≡ some source_bytes
unfolding write_value write_items write_compound write_sized to_unsigned
source_written = refl

source-Fits : Fits source
unfolding hashable key_eq normalize_key
source-Fits = (
  omega arith,
  (
    tt,
    (
      ((refl, refl, tt, (refl, refl, (refl, tt), tt)), (tt, omega arith, (omega arith, tt, tt))),
      (tt, (omega arith, (tt, tt))),
    ),
  ),
)

decode-write_value_example : decode (source_bytes ++ (7 ∷ [])) ≡ done source (7 ∷ [])
decode-write_value_example =
    decode-write_value source source_bytes (7 ∷ []) source-Fits source_written (omega arith)

decode-Bounded_example : Bounded weight (length source_bytes) (decode source_bytes)
decode-Bounded_example = decode-Bounded source_bytes

-- the fields of a transfer, the last two absent
abbrev transfer : Values
transfer = cons (uint 0) (
    cons (uint 7)
      (cons (binary (0 ∷ [])) (cons (uint 0) (cons (bool false) (cons null (cons null nil))))))

abbrev transfer_bytes : Bytes
transfer_bytes =
    0 ∷ 0 ∷ 0 ∷ 35 ∷ 2 ∷ 0 ∷ 0 ∷ 3 ∷ 0 ∷ 83 ∷ 20 ∷ 192 ∷ 20 ∷ 5 ∷ 112 ∷ 0 ∷ 0 ∷ 0 ∷ 0 ∷ 112 ∷ 0 ∷ 0
    ∷ 0 ∷ 7 ∷ 160 ∷ 1 ∷ 0 ∷ 112 ∷ 0 ∷ 0 ∷ 0 ∷ 0 ∷ 66 ∷ 104 ∷ 105 ∷ []

transfer_written : write_frame 0 3 0x14 transfer (codes "hi") ≡ some transfer_bytes
unfolding write_frame trim write_value write_items write_compound write_sized
transfer_written = refl

transfer-FitAll : FitAll (trim transfer)
unfolding trim
transfer-FitAll = (omega arith, (omega arith, (tt, (omega arith, (tt, tt)))))

read_frame-write_frame_example :
    (f : Frame) × (read_frame (transfer_bytes ++ (1 ∷ [])) ≡ received f (1 ∷ []))
    × (f.typ ≡ 0)
    × (f.channel ≡ 3)
    × (f.code ≡ 0x14)
    × (f.payload ≡ codes "hi")
    × ((i : ℕ) → field i f.fields ≡ field i transfer)
read_frame-write_frame_example =
    read_frame-write_frame 0 3 0x14 transfer (codes "hi") transfer_bytes (1 ∷ []) (omega arith)
      (omega arith) transfer-FitAll transfer_written (omega arith)

read_frame-Within_example :
    Within (max_frame_size - 8) (length transfer_bytes - 8) (read_frame transfer_bytes)
read_frame-Within_example = read_frame-Within transfer_bytes

-- a map whose key is a list
listed_written :
    write_value (map (pair (list nil) (bool true) end)) ≡ some (193 ∷ 3 ∷ 2 ∷ 69 ∷ 65 ∷ [])
unfolding write_value write_items write_compound
listed_written = refl

unhashable : hashable (normalize_key (list nil)) ≡ false
unfolding hashable normalize_key
unhashable = refl

decode-panicked_example : decode ((193 ∷ 3 ∷ 2 ∷ 69 ∷ 65 ∷ []) ++ []) ≡ panicked
decode-panicked_example =
    decode-panicked (list nil) (bool true) end (193 ∷ 3 ∷ 2 ∷ 69 ∷ 65 ∷ []) [] tt tt unhashable
      listed_written (omega arith)
