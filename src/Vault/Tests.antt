-- ===== src/Vault/Tests.antt =====
-- Set Secret on a vault that has one version of the secret.
use localaz.Common.{
  ◌++◌, refl, codes, true, ◌&&◌, ◌||◌, [], ◌∷◌, none, bytes_eq, if◌then◌else◌, ◌≡◌,
}
use localaz.Common.Int.{pos}
use localaz.Common.Dict.{lookup}
use localaz.Common.Snapshot.{plain}
use localaz.Vault.History.{all_versions-add_version}
use localaz.Vault.Store.{
  all_versions, add_version, SecretEntry, Secret, Attributes, Vaults, Store, Env, done, get_secret,
  set_secret,
}
use localaz.Vault.Versions.{get_secret-set_secret}

abbrev first : Secret
first = record {
  name = codes "pw";
  version = codes "v1";
  value = codes "old";
  content_type = [];
  tags = [];
  enabled = true;
  not_before = none;
  expires = none;
  created = pos 1;
  updated = pos 1;
}

abbrev before : Store Vaults
before = record {
  vaults =
      (
        codes "h",
        (
          codes "pw",
          record {
            current = codes "v1";
            order = codes "v1" ∷ [];
            versions = (codes "v1", first) ∷ [];
          },
        )
            ∷ [],
      )
      ∷ [];
  file = none;
}

abbrev env : Env
env = record { now = pos 2; written = true; new_version = codes "v2" }

abbrev no_attributes : Attributes
no_attributes = record { set_enabled = none; set_not_before = none; set_expires = none }

get_secret-set_secret_example :
    get_secret
      (codes "h")
      (codes "pw")
      (codes "v1")
      (set_secret plain env
        (codes "h")
        (codes "pw")
        (codes "new")
        []
        []
        no_attributes
        before).0.vaults
    ≡ (if bytes_eq (codes "h") (codes "h") && bytes_eq (codes "pw") (codes "pw")
        then (if bytes_eq (codes "v1") [] || bytes_eq env.new_version (codes "v1")
            then done
                (set_secret plain env
                  (codes "h")
                  (codes "pw")
                  (codes "new")
                  []
                  []
                  no_attributes
                  before).1
            else get_secret (codes "h") (codes "pw") (codes "v1") before.vaults)
        else get_secret (codes "h") (codes "pw") (codes "v1") before.vaults)
get_secret-set_secret_example =
    get_secret-set_secret plain env (codes "h") (codes "pw") (codes "new") [] [] no_attributes
      before (codes "h") (codes "pw") (codes "v1")

abbrev entry : SecretEntry
entry = record {
  current = codes "v1";
  order = codes "v1" ∷ [];
  versions = (codes "v1", first) ∷ [];
}

abbrev second : Secret
second = record first { version = codes "v2"; value = codes "new" }

entry_history : all_versions entry.order entry.versions ≡ done (first ∷ [])
unfolding all_versions lookup bytes_eq
entry_history = refl

second_fresh : lookup second.version entry.versions ≡ none
unfolding lookup bytes_eq
second_fresh = refl

all_versions-add_version_example :
    all_versions (add_version second entry).order (add_version second entry).versions
    ≡ done ((first ∷ []) ++ (second ∷ []))
all_versions-add_version_example =
    all_versions-add_version entry second (first ∷ []) entry_history second_fresh
