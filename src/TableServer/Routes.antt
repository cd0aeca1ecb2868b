-- ===== src/TableServer/Routes.antt =====
-- internal/servers/tableserver/server.go: `ServeHTTP` and the handlers of collections and items.
use localaz.Common.{Bytes, codes, true, false, List, [], ◌∷◌, bytes_eq, has_prefix, if◌then◌else◌}
use localaz.Common.Snapshot.{Codec}
use localaz.Common.Strings.{split, trim_prefix_byte}
use localaz.Table.Store.{Accounts, Store, Env}
use localaz.TableServer.Keys.{split_predicate, inside_parens, unquote_key, parse_entity_keys}
use localaz.TableServer.Http.{Request, Response, Library, write_error, invalid, wrong_method}
use localaz.TableServer.Handlers.{create_table_handler, delete_table_handler, list_tables_handler}
use localaz.TableServer.Entities.{
  insert_entity_handler, get_entity_handler, list_entities_handler, update_entity_handler,
  delete_entity_handler,
}

-- what a path names
pub data Target : Type 0 where
  no_account no_resource : Target
  table_collection : Bytes → Target
  table_item : Bytes → Bytes → Target
  entity_collection : Bytes → Bytes → Target
  entity_item : Bytes → Bytes → Bytes → Bytes → Target

-- The methods that the server tells apart.
pub data Verb : Type 0 where
  get post put patch merge delete other_verb : Verb

unfoldable pub verb_of : Bytes → Verb
verb_of m =
    if bytes_eq m (codes "GET")
    then get
    else if bytes_eq m (codes "POST")
    then post
    else if bytes_eq m (codes "PUT")
    then put
    else if bytes_eq m (codes "PATCH")
    then patch
    else if bytes_eq m (codes "MERGE")
    then merge
    else if bytes_eq m (codes "DELETE")
    then delete
    else other_verb

module _ (lib : Library) where
  -- a table's name, and the predicate after it
  unfoldable pub route_entity : Bytes → Bytes → Bytes → Target
  unfolding parse_entity_keys
  route_entity account name [] = entity_collection account name
  route_entity account name (c ∷ rest) =
      let (pk, rk) = parse_entity_keys lib.trim lib.lower (c ∷ rest) in
      entity_item account name pk rk

  -- the switch of `ServeHTTP` over the resource
  unfoldable pub route_resource : Bytes → Bytes → Target
  unfolding unquote_key split_predicate route_entity
  route_resource account resource =
      if bytes_eq resource (codes "Tables")
      then table_collection account
      else if has_prefix resource (codes "Tables(")
      then elim (unquote_key lib.trim (inside_parens resource)) [
        | [] ↦ table_collection account
        | c ∷ name ↦ table_item account (c ∷ name)
      ]
      else (let (name, predicate) = split_predicate resource in route_entity account name predicate)

  -- the first two segments of the path; `strings.Split` gives one at least
  unfoldable pub route_segments : Bytes × List Bytes → Target
  unfolding route_resource
  route_segments ([], segments) = no_account
  route_segments (a ∷ account, []) = no_resource
  route_segments (a ∷ account, [] ∷ others) = no_resource
  route_segments (a ∷ account, (b ∷ resource) ∷ others) =
      route_resource (a ∷ account) (b ∷ resource)

  unfoldable pub route : Bytes → Target
  unfolding route_segments
  route path = route_segments (split 47 (trim_prefix_byte 47 path))

  module _ {D : Type 0} (c : Codec D Accounts) (env : Env) where
    unfoldable pub dispatch : Target → Verb → Request → Store D → Store D × Response
    unfolding write_error wrong_method
    dispatch no_account v r s = (s, write_error r (invalid "Missing account in request URL."))
    dispatch no_resource v r s = (s, write_error r (invalid "Missing resource in request URL."))
    dispatch (table_collection account) post r s = create_table_handler lib c env r account s
    dispatch (table_collection account) get r s = list_tables_handler lib c env r account s
    dispatch (table_collection account) _ r s = (s, wrong_method r)
    dispatch (table_item account name) delete r s = delete_table_handler lib c env r account name s
    dispatch (table_item account name) _ r s = (s, wrong_method r)
    dispatch (entity_collection account name) post r s =
        insert_entity_handler lib c env r account name s
    dispatch (entity_collection account name) get r s =
        list_entities_handler lib c env r account name s
    dispatch (entity_collection account name) _ r s = (s, wrong_method r)
    dispatch (entity_item account name pk rk) get r s =
        get_entity_handler lib c env r account name pk rk s
    dispatch (entity_item account name pk rk) put r s =
        update_entity_handler lib c env r account name pk rk false s
    dispatch (entity_item account name pk rk) patch r s =
        update_entity_handler lib c env r account name pk rk true s
    dispatch (entity_item account name pk rk) merge r s =
        update_entity_handler lib c env r account name pk rk true s
    dispatch (entity_item account name pk rk) delete r s =
        delete_entity_handler lib c env r account name pk rk s
    dispatch (entity_item account name pk rk) _ r s = (s, wrong_method r)

    unfoldable pub serve_http : Request → Store D → Store D × Response
    unfolding route dispatch verb_of
    serve_http r s = dispatch (route r.path) (verb_of r.verb) r s
