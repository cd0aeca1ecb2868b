-- ===== src/Table/Tests.antt =====
-- The Table store at a table of one entity.
use localaz.Common.{
  codes, ℕ, true, false, [], ◌∷◌, ◌++◌, none, some, bytes_eq, ok, err, if◌then◌else◌, ◌≡◌, ◌≢◌,
  refl, arith,
}
use localaz.Common.Int.{pos}
use localaz.Common.Dict.{lookup}
use localaz.Common.Snapshot.{plain}
use localaz.Table.Types.{etag_mismatch, Props, Entity, get}
use localaz.Table.Store.{
  Accounts, Store, Env, any_etag, find_table, is_server_prop, partition_key_name, row_key_name,
  match_etag, updated_entity, update_in, update, get_entity,
}
use localaz.Table.Entities.{same_place, get_entity-update}
use localaz.Table.Concurrency.{update-conflict}
use localaz.Table.Merge.{or_else, lookup-updated_entity}

abbrev old : Entity
old = record {
  partition_key = codes "p";
  row_key = codes "r";
  props = (codes "Name", codes "Ann") ∷ (codes "Age", codes "3") ∷ [];
  timestamp = pos 1;
  etag = codes "t1";
}

abbrev accounts : Accounts
accounts =
    (
      codes "dev",
      (
        codes "people",
        record { name = codes "people"; entities = (codes "p", (codes "r", old) ∷ []) ∷ [] },
      )
          ∷ [],
    )
    ∷ []

abbrev before : Store Accounts
before = record { accounts = accounts; file = none }

abbrev at : ℕ → Env
at n = record {
  now = pos n;
  written = true;
  etag_for = λ t. codes "t2";
  must_json = λ s. 34 ∷ s ++ (34 ∷ []);
}

abbrev change : Props
change = (codes "Age", codes "4") ∷ (codes "Timestamp", codes "x") ∷ []

abbrev merged : Entity
merged = updated_entity (at 2) (codes "p") (codes "r") change true old

abbrev after : Store Accounts
after =
    (update plain (at 2) (codes "dev") (codes "people") (codes "p") (codes "r") change (codes "t1")
      true before).0

merges :
    update plain
      (at 2)
      (codes "dev")
      (codes "people")
      (codes "p")
      (codes "r")
      change
      (codes "t1")
      true
      before
    ≡ (after, ok merged)
unfolding update find_table update_in get lookup bytes_eq match_etag
merges = refl

get_entity-update_example :
    get_entity plain (codes "dev") (codes "people") (codes "p") (codes "r") after ≡ (
      if same_place
        (codes "dev")
        (codes "people")
        (codes "p")
        (codes "r")
        (codes "dev")
        (codes "people")
        (codes "p")
        (codes "r")
      then ok merged
      else get_entity plain (codes "dev") (codes "people") (codes "p") (codes "r") before)
get_entity-update_example =
    get_entity-update plain (at 2) (codes "dev") (codes "people") (codes "p") (codes "r")
      (codes "t1") (codes "dev") (codes "people") (codes "p") (codes "r") change true before after
      merged merges

tag_some : codes "t1" ≢ []
tag_some h = cc

tag_no_star : codes "t1" ≢ any_etag
tag_no_star h = cc

tag_other : codes "t2" ≢ codes "t1"
tag_other h = ground arith

update-conflict_example :
    update plain
      (at 3)
      (codes "dev")
      (codes "people")
      (codes "p")
      (codes "r")
      []
      (codes "t1")
      false
      after
    ≡ (after, err etag_mismatch)
update-conflict_example =
    update-conflict plain (at 2) (at 3) (codes "dev") (codes "people") (codes "p") (codes "r")
      (codes "t1") (codes "t1") change [] true false before after merged merges tag_some tag_no_star
      tag_other

lookup-updated_entity_example :
    lookup (codes "Age") (updated_entity (at 2) (codes "p") (codes "r") change true old).props ≡ (
      if bytes_eq row_key_name (codes "Age")
      then some ((at 2).must_json (codes "r"))
      else if bytes_eq partition_key_name (codes "Age")
      then some ((at 2).must_json (codes "p"))
      else if is_server_prop (codes "Age")
      then none
      else or_else (lookup (codes "Age") change) (lookup (codes "Age") old.props))
lookup-updated_entity_example =
    lookup-updated_entity (at 2) (codes "p") (codes "r") (codes "Age") change true old
