-- ===== src/TableServer/Http.antt =====
-- internal/servers/tableserver: requests and responses, and the helpers of server.go, entities.go and
-- tables.go. A JSON text in a response stands as the value that is marshalled.
use localaz.Common.{
  Bytes, codes, ℕ, Bool, List, [], ◌∷◌, ◌++◌, Option, none, some, String, bytes_eq, Result,
  if◌then◌else◌,
}
use localaz.Common.Int.{ℤ}
use localaz.Common.Dict.{insert}
use localaz.Azerr.{
  Code, AzError, new, bad_request, method_not_allowed, invalid_input, unsupported_header,
  missing_table, existing_table, missing_entity, existing_entity, failed_condition,
}
use localaz.Table.Types.{
  Error, table_not_found, table_exists, entity_not_found, entity_exists, etag_mismatch, Props,
  Entity,
}
use localaz.Filter.Compare.{Floats, Value}
use localaz.TableServer.Keys.{entity_segment}

-- `base` is the scheme and the host, `://` between them. `body` is an error where it cannot be read.
pub record Request : Type 0 where
  pub verb : Bytes
  pub path : Bytes
  pub base : Bytes
  pub header : Bytes → Bytes
  pub query : Bytes → Bytes
  pub body : Result Bytes Bytes

pub data Payload : Type 0 where
  no_payload : Payload
  error_json : AzError → Payload
  table_json : Bytes → Bytes → Payload
  tables_json : Bytes → List Bytes → Payload
  entity_json : Props → Payload
  entities_json : Bytes → List Props → Payload

pub record Response : Type 0 where
  pub status : ℕ
  pub error_code : Option Code
  pub etag : Option Bytes
  pub location : Option Bytes
  pub payload : Payload

-- encoding/json, strconv and strings: `unmarshal_table_name` reads the field of `createTableBody`,
-- `marshal_error` is the error's text where `json.Marshal` fails.
pub record Library : Type 1 where
  pub floats : Floats
  pub unmarshal_any : Bytes → Option (Value floats.Float)
  pub unmarshal_props : Bytes → Option Props
  pub unmarshal_string : Bytes → Option Bytes
  pub unmarshal_table_name : Bytes → Option Bytes
  pub marshal_error : Payload → Option Bytes
  pub json_string : Bytes → Bytes
  pub format_time : ℤ → Bytes
  pub trim : Bytes → Bytes
  pub lower : Bytes → Bytes
  pub atoi : Bytes → Option ℤ

abbrev pub plain_response : ℕ → Response
plain_response status = record {
  status = status;
  error_code = none;
  etag = none;
  location = none;
  payload = no_payload;
}

unfoldable pub write_error : Request → AzError → Response
write_error r e = record {
  status = e.status;
  error_code = some e.code;
  etag = none;
  location = none;
  payload = if bytes_eq r.verb (codes "HEAD") then no_payload else error_json e;
}

unfoldable pub map_store_err : Error → AzError
map_store_err table_not_found = missing_table
map_store_err table_exists = existing_table
map_store_err entity_not_found = missing_entity
map_store_err entity_exists = existing_entity
map_store_err etag_mismatch = failed_condition

abbrev pub invalid : String → AzError
invalid message = new bad_request invalid_input message

unfoldable pub wrong_method : Request → Response
unfolding write_error
wrong_method r = write_error r (
    new method_not_allowed unsupported_header "The HTTP method is not supported for this resource.")

unfoldable pub metadata_base : Request → Bytes → Bytes
metadata_base r account = r.base ++ (codes "/" ++ (account ++ codes "/$metadata"))

unfoldable pub entity_location : Request → Bytes → Bytes → Bytes → Bytes → Bytes
unfolding entity_segment
entity_location r account table pk rk =
    r.base ++ (codes "/" ++ (account ++ (codes "/" ++ entity_segment table pk rk)))

unfoldable pub prefer_no_content : Bytes → Bool
prefer_no_content prefer = bytes_eq prefer (codes "return-no-content")

module _ (lib : Library) where
  unfoldable pub decode_key : Option Bytes → Bytes
  decode_key none = []
  decode_key (some []) = []
  decode_key (some (c ∷ raw)) = elim (lib.unmarshal_string (c ∷ raw)) [ none ↦ [] | some s ↦ s ]

  unfoldable pub render_entity : Entity → Props
  render_entity e =
      insert (codes "odata.etag") (lib.json_string e.etag)
        (insert (codes "Timestamp") (lib.json_string (lib.format_time e.timestamp)) e.props)
