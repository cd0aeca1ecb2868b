-- ===== src/Table/Merge.antt =====
-- The properties of a stored entity.
use localaz.Common.{
  Bytes, Bool, true, false, [], ◌∷◌, Option, none, some, bytes_eq, bytes_eq_iff, if◌then◌else◌, ◌≡◌,
  refl, sym, ap, ◌∙◌, arith,
}
use localaz.Common.Dict.{lookup, insert, lookup-insert}
use localaz.Table.Types.{Props, Entity}
use localaz.Table.Store.{
  Env, is_server_prop, strip_server_props, merge_into, partition_key_name, row_key_name,
  build_entity, updated_entity,
}

abbrev pub or_else : Option Bytes → Option Bytes → Option Bytes
or_else none o = o
or_else (some v) o = some v

lookup-strip_server_props :
    (k : Bytes) (props : Props)
    → lookup k (strip_server_props props) ≡ (if is_server_prop k then none else lookup k props)
unfolding lookup strip_server_props
lookup-strip_server_props k [] = ground arith
lookup-strip_server_props k ((j, v) ∷ props) = ground (
  arith,
  bytes_eq_iff j k,
  lookup-insert k j v (strip_server_props props),
  lookup-strip_server_props k props,
)

lookup-merge_into :
    (k : Bytes) (props base : Props)
    → lookup k (merge_into props base) ≡ or_else (lookup k props) (lookup k base)
unfolding lookup merge_into
lookup-merge_into k [] base = refl
lookup-merge_into k ((j, v) ∷ props) base =
    ground (arith, lookup-insert k j v (merge_into props base), lookup-merge_into k props base)

lookup-build_entity :
    (env : Env) (pk rk k : Bytes) (props : Props)
    → lookup k (build_entity env pk rk props).props ≡ (
        if bytes_eq row_key_name k
        then some (env.must_json rk)
        else if bytes_eq partition_key_name k
        then some (env.must_json pk)
        else if is_server_prop k
        then none
        else lookup k props)
unfolding build_entity
lookup-build_entity env pk rk k props =
    let inner = insert partition_key_name (env.must_json pk) (strip_server_props props) in
    ground (
      arith,
      lookup-insert k row_key_name (env.must_json rk) inner,
      lookup-insert k partition_key_name (env.must_json pk) (strip_server_props props),
      lookup-strip_server_props k props,
    )

abbrev under : Env → Bytes → Bytes → Bytes → Option Bytes → Option Bytes
under env pk rk k o =
    if bytes_eq row_key_name k
    then some (env.must_json rk)
    else if bytes_eq partition_key_name k
    then some (env.must_json pk)
    else if is_server_prop k
    then none
    else o

stripped :
    (env : Env) (pk rk k : Bytes) (o p : Option Bytes)
    → under env pk rk k (or_else (if is_server_prop k then none else o) p)
      ≡ under env pk rk k (or_else o p)
stripped env pk rk k o p = ground arith

or_else-none : (o : Option Bytes) → or_else o none ≡ o
or_else-none none = refl
or_else-none (some v) = refl

-- Under each name a stored entity has: its keys; nothing under a name of the server's; else the
-- property of the request, or where that has none, the old one if the call merges.
pub lookup-updated_entity :
    (env : Env) (pk rk k : Bytes) (props : Props) (merge : Bool) (old : Entity)
    → lookup k (updated_entity env pk rk props merge old).props ≡ (
        if bytes_eq row_key_name k
        then some (env.must_json rk)
        else if bytes_eq partition_key_name k
        then some (env.must_json pk)
        else if is_server_prop k
        then none
        else or_else (lookup k props) (if merge then lookup k old.props else none))
unfolding updated_entity
lookup-updated_entity env pk rk k props true old =
    lookup-build_entity env pk rk k (merge_into (strip_server_props props) old.props)
    ∙ ap (λ o. under env pk rk k o)
        (lookup-merge_into k (strip_server_props props) old.props
          ∙ ap (λ o. or_else o (lookup k old.props)) (lookup-strip_server_props k props))
    ∙ stripped env pk rk k (lookup k props) (lookup k old.props)
lookup-updated_entity env pk rk k props false old =
    lookup-build_entity env pk rk k props
    ∙ ap (λ o. under env pk rk k o) (sym (or_else-none (lookup k props)))
