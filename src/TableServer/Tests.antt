-- ===== src/TableServer/Tests.antt =====
-- The Table server at a table of one entity, whose keys have quotes and commas.
use localaz.Common.{
  bytes_eq, Bytes, codes, ℕ, true, [], ◌∷◌, ◌++◌, none, some, map, keep, ok, ltb, leb, ◌==◌, ◌≡◌,
  refl, ◌&&◌, ◌+◌, if◌then◌else◌,
}
use localaz.Common.Int.{pos}
use localaz.Common.Dict.{lookup}
use localaz.Common.Snapshot.{plain}
use localaz.Common.Strings.{Without-test}
use localaz.Table.Types.{Props, Entity, new_table, get}
use localaz.Table.Store.{Accounts, Store, Env, insert_entity_at, build_entity, find_table}
use localaz.Filter.Compare.{Floats, string, FilterFunc}
use localaz.TableServer.Keys.{split_predicate, parse_entity_keys, key_predicate, entity_segment}
use localaz.TableServer.Located.{KeepsVisible, LowersNames, parse_entity_keys-entity_segment}
use localaz.TableServer.Http.{Request, Library, plain_response, entity_json, render_entity}
use localaz.TableServer.Handlers.{collect, entity_response}
use localaz.TableServer.Routes.{serve_http, verb_of}
use localaz.TableServer.Listed.{limit, is_selected, collect_lem}
use localaz.TableServer.Answers.{ErrorKeeps, serve_http-ErrorKeeps}
use localaz.TableServer.Inserted.{get-inserted}

abbrev no_floats : Floats
no_floats = record {
  Float = ℕ;
  parse_float = λ s. none;
  float_eq = λ a b. a == b;
  float_lt = λ a b. ltb a b;
  float_le = λ a b. leb a b;
}

-- no blanks to trim
abbrev same : Bytes → Bytes
same s = s

-- the letters A to Z in lower case
abbrev ascii_lower : Bytes → Bytes
ascii_lower [] = []
ascii_lower (c ∷ s) = (if leb 65 c && leb c 90 then c + 32 else c) ∷ ascii_lower s

abbrev library : Library
library = record {
  floats = no_floats;
  unmarshal_any = λ raw. some (string raw);
  unmarshal_props = λ body. some [];
  unmarshal_string = λ raw. some raw;
  unmarshal_table_name = λ body. some body;
  marshal_error = λ p. none;
  json_string = λ s. s;
  format_time = λ t. codes "now";
  trim = same;
  lower = ascii_lower;
  atoi = λ s. none;
}

same-KeepsVisible : KeepsVisible same
same-KeepsVisible c d s h k = refl

ascii_lower-LowersNames : LowersNames ascii_lower
ascii_lower-LowersNames = (refl, refl)

abbrev env : Env
env = record { now = pos 1; written = true; etag_for = λ t. codes "t1"; must_json = λ s. s }

abbrev accounts : Accounts
accounts = (codes "dev", (codes "people", new_table (codes "people")) ∷ []) ∷ []

abbrev before : Store Accounts
before = record { accounts = accounts; file = none }

abbrev pk : Bytes
pk = codes "O'Brien, (J)"

abbrev rk : Bytes
rk = codes "a=b"

abbrev ann : Props
ann = (codes "Name", codes "Ann") ∷ []

abbrev entity : Entity
entity = build_entity env pk rk ann

abbrev after : Store Accounts
after = (insert_entity_at plain env (codes "dev") (codes "people") pk rk ann before).0

abbrev get_request : Request
get_request = record {
  verb = codes "GET";
  path = codes "/dev/" ++ entity_segment (codes "people") pk rk;
  base = codes "http://localhost";
  header = λ name. [];
  query = λ name. [];
  body = ok [];
}

abbrev everything : FilterFunc
everything props = true

parse_entity_keys-entity_segment_example :
    (split_predicate (entity_segment (codes "people") pk rk)
      ≡ (codes "people", key_predicate pk rk))
    × (parse_entity_keys same ascii_lower (key_predicate pk rk) ≡ (pk, rk))
parse_entity_keys-entity_segment_example =
    parse_entity_keys-entity_segment same ascii_lower same-KeepsVisible ascii_lower-LowersNames
      (codes "people") pk rk (Without-test 40 (codes "people") refl)

collect_lem_example :
    collect library everything (pos 1) (codes "Name") 0 (entity ∷ entity ∷ [])
    ≡ limit (pos 1) (
        map
          (keep (is_selected same (codes "Name")))
          (keep everything (map (render_entity library) (entity ∷ entity ∷ []))))
collect_lem_example = collect_lem library everything (codes "Name") (pos 1) (entity ∷ entity ∷ [])

serve_http-ErrorKeeps_example : ErrorKeeps before (serve_http library plain env get_request before)
serve_http-ErrorKeeps_example = serve_http-ErrorKeeps plain env library get_request before

get-inserted_example : serve_http library plain env get_request after ≡ (
  after,
  record (plain_response 200) {
    etag = some entity.etag;
    payload =
        entity_json (entity_response library get_request (codes "dev") (codes "people") entity);
  },
)
unfolding insert_entity_at find_table lookup bytes_eq get new_table verb_of
get-inserted_example =
    get-inserted plain library same-KeepsVisible ascii_lower-LowersNames env env 100 112
      (codes "ev") (codes "eople") pk rk ann before after entity get_request refl refl refl
      (Without-test 47 (codes "dev") refl) (Without-test 47 (codes "people") refl)
      (Without-test 40 (codes "people") refl) (Without-test 47 pk refl) (Without-test 47 rk refl)
      refl
