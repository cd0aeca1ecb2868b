-- ===== src/SbServer/Helpers.antt =====
-- internal/servers/sbserver: helpers.go and cbs.go.
use localaz.Common.{
  Bytes, codes, ℕ, zero, suc, ◌-◌, ◌%◌, ◌^◌, Bool, true, false, [], ◌∷◌, ◌++◌, Option, none, some,
  length, ◌==◌,
}
use localaz.Common.Int.{ℤ, pos, negsuc}
use localaz.Amqp.Types.{
  Value, null, bool, ubyte, ushort, uint, ulong, int, long, string, described, list, map, nil, cons,
  Pairs, end, pair,
}
use localaz.Amqp.Encode.{write_value, encode_described_list}
use localaz.Amqp.Decode.{done, fail, panicked, stuck, decode}
use localaz.Amqp.Frame.{descriptor_code}

abbrev pub cbs_address : Bytes
cbs_address = codes "$cbs"

-- the conversion `uint32(n)` of a signed integer
unfoldable pub wrap32 : ℤ → ℕ
wrap32 (pos n) = n % 2 ^ 32
wrap32 (negsuc n) = 2 ^ 32 - 1 - n % 2 ^ 32

unfoldable pub as_uint32 : Value → ℕ
unfolding wrap32
as_uint32 (uint n) = n
as_uint32 (ulong n) = n % 2 ^ 32
as_uint32 (ushort n) = n
as_uint32 (ubyte n) = n
as_uint32 (int n) = wrap32 n
as_uint32 (long n) = wrap32 n
as_uint32 _ = 0

unfoldable pub as_bool : Value → Bool
as_bool (bool b) = b
as_bool _ = false

unfoldable pub as_string : Value → Bytes
as_string (string s) = s
as_string _ = []

unfoldable pub address_of : Value → Bytes
unfolding as_string
address_of (described d (list (cons v vs))) = as_string v
address_of _ = []

abbrev pub is_null : Value → Bool
is_null null = true
is_null _ = false

abbrev pub desc_properties : ℕ
desc_properties = 0x73

abbrev pub desc_app_props : ℕ
desc_app_props = 0x74

-- the first field of a properties section
unfoldable pub first_field : Value → Value
first_field (list (cons v vs)) = v
first_field _ = null

-- whether a section is the properties, and what it is described
unfoldable pub section_code : Value → ℕ × Value
unfolding descriptor_code
section_code (described d v) = (descriptor_code d, v)
section_code _ = (0, null)

-- The loop of `parseMessageID`, on fuel of the bytes that remain; `none` is a panic of the decoder.
unfoldable pub find_message_id : ℕ → Bytes → Option Value
unfolding section_code first_field
find_message_id zero payload = some null
find_message_id (suc fuel) [] = some null
find_message_id (suc fuel) (b ∷ payload) = elim (decode (b ∷ payload)) [
  | done v rest ↦ elim ((section_code v).0 == desc_properties) [
    | true ↦ some (first_field (section_code v).1)
    | false ↦ find_message_id fuel rest
  ]
  | fail e ↦ some null
  | panicked ↦ none
  | stuck ↦ some null
]

unfoldable pub parse_message_id : Bytes → Option Value
unfolding find_message_id
parse_message_id payload = find_message_id (suc (length payload)) payload

abbrev pub status_entries : Pairs
status_entries =
    pair (string (codes "status-code")) (int (pos 200))
      (pair (string (codes "status-description")) (string (codes "OK")) end)

-- `none` where the encoder panics on the identifier
unfoldable pub build_cbs_response : Value → Option Bytes
unfolding encode_described_list
build_cbs_response id =
    elim (encode_described_list desc_properties
      (cons null (cons null (cons null (cons null (cons null (cons id nil))))))) [
        | none ↦ none
        | some head ↦ elim (write_value (described (ulong desc_app_props) (map status_entries))) [
          | none ↦ none
          | some body ↦ some (head ++ body)
        ]
      ]
