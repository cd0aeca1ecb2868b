-- ===== src/Vault/Store.antt =====
-- internal/stores/keyvaultstore: types.go and store.go, each call under the store's mutex.
use localaz.Common.{
  Bytes, Bool, true, List, [], ◌∷◌, ◌++◌, Option, none, some, map, length, ◌==◌, bytes_eq,
  if◌then◌else◌,
}
use localaz.Common.Int.{ℤ}
use localaz.Common.Dict.{or_empty, Dict, lookup, insert, erase}
use localaz.Common.Sort.{sort_by}
use localaz.Common.Snapshot.{Codec, persist}

pub record Secret : Type 0 where
  pub name : Bytes
  pub version : Bytes
  pub value : Bytes
  pub content_type : Bytes
  pub tags : Dict Bytes
  pub enabled : Bool
  pub not_before : Option ℤ
  pub expires : Option ℤ
  pub created : ℤ
  pub updated : ℤ

-- `none` is Go's nil, which leaves an attribute as it is.
pub record Attributes : Type 0 where
  pub set_enabled : Option Bool
  pub set_not_before : Option ℤ
  pub set_expires : Option ℤ

pub record SecretEntry : Type 0 where
  pub current : Bytes
  pub order : List Bytes
  pub versions : Dict Secret

-- A vault is its secrets.
abbrev pub Vaults : Type 0
Vaults = Dict (Dict SecretEntry)

pub record Store (D : Type 0) : Type 0 where
  pub vaults : Vaults
  pub file : Option D

-- What a call takes from outside: the clock, whether its write of the snapshot succeeds, and the
-- random version.
pub record Env : Type 0 where
  pub now : ℤ
  pub written : Bool
  pub new_version : Bytes

-- `secret_not_found` is the sentinel error; `panicked` is Go's panic on a nil pointer.
pub data Outcome (A : Type 0) : Type 0 where
  done : A → Outcome A
  secret_not_found : Outcome A
  panicked : Outcome A

infixl 5 ◌>>=◌
abbrev pub ◌>>=◌ : {A B : Type 0} → Outcome A → (A → Outcome B) → Outcome B
done a >>= f = f a
secret_not_found >>= f = secret_not_found
panicked >>= f = panicked

abbrev pub or_keep : {A : Type 0} → Option A → A → A
or_keep none a = a
or_keep (some b) a = b

abbrev pub or_old : {A : Type 0} → Option A → Option A → Option A
or_old none o = o
or_old (some b) o = some b

-- `*e.Versions[version]`
unfoldable pub deref : Option Secret → Outcome Secret
deref none = panicked
deref (some sec) = done sec

-- `sec, ok := e.Versions[version]`
unfoldable pub at_version : Option Secret → Outcome Secret
at_version none = secret_not_found
at_version (some sec) = done sec

unfoldable pub lookup_locked : Bytes → Bytes → Vaults → Outcome SecretEntry
lookup_locked host name vaults = elim (lookup name (or_empty (lookup host vaults))) [
  | none ↦ secret_not_found
  | some e ↦ if length e.versions == 0 then secret_not_found else done e
]

unfoldable pub set_entry : Bytes → Bytes → SecretEntry → Vaults → Vaults
set_entry host name e vaults = insert host (insert name e (or_empty (lookup host vaults))) vaults

abbrev pub no_entry : SecretEntry
no_entry = record { current = []; order = []; versions = [] }

-- the entry that `SetSecret` finds or makes
unfoldable pub entry_of : Bytes → Bytes → Vaults → SecretEntry
entry_of host name vaults = or_keep (lookup name (or_empty (lookup host vaults))) no_entry

unfoldable pub new_secret : Env → Bytes → Bytes → Bytes → Dict Bytes → Attributes → Secret
new_secret env name value content_type tags attrs = record {
  name = name;
  version = env.new_version;
  value = value;
  content_type = content_type;
  tags = tags;
  enabled = or_keep attrs.set_enabled true;
  not_before = attrs.set_not_before;
  expires = attrs.set_expires;
  created = env.now;
  updated = env.now;
}

unfoldable pub add_version : Secret → SecretEntry → SecretEntry
add_version sec e = record {
  current = sec.version;
  order = e.order ++ (sec.version ∷ []);
  versions = insert sec.version sec e.versions;
}

unfoldable pub updated_secret :
    Env → Option Bytes → Option (Dict Bytes) → Attributes → Secret → Secret
updated_secret env content_type tags attrs sec = record sec {
  content_type = or_keep content_type sec.content_type;
  tags = or_keep tags sec.tags;
  enabled = or_keep attrs.set_enabled sec.enabled;
  not_before = or_old attrs.set_not_before sec.not_before;
  expires = or_old attrs.set_expires sec.expires;
  updated = env.now;
}

-- the version asked for, or the current one for ""
unfoldable pub which : Bytes → SecretEntry → Bytes
which version e = if bytes_eq version [] then e.current else version

-- the loop of `ListVersions`
unfoldable pub all_versions : List Bytes → Dict Secret → Outcome (List Secret)
unfolding deref
all_versions [] versions = done []
all_versions (v ∷ vs) versions = do
  sec ← deref (lookup v versions)
  rest ← all_versions vs versions
  done (sec ∷ rest)

-- the loop of `ListSecrets`, over the sorted names
unfoldable pub all_current : List Bytes → Dict SecretEntry → Outcome (List Secret)
unfolding deref
all_current [] secrets = done []
all_current (n ∷ ns) secrets = do
  sec ← elim (lookup n secrets) [ none ↦ panicked | some e ↦ deref (lookup e.current e.versions) ]
  rest ← all_current ns secrets
  done (sec ∷ rest)

unfoldable pub get_secret : Bytes → Bytes → Bytes → Vaults → Outcome Secret
unfolding lookup_locked which at_version
get_secret host name version vaults = do
  e ← lookup_locked host name vaults
  at_version (lookup (which version e) e.versions)

unfoldable pub list_versions : Bytes → Bytes → Vaults → Outcome (List Secret)
unfolding lookup_locked all_versions
list_versions host name vaults = do
  e ← lookup_locked host name vaults
  all_versions e.order e.versions

unfoldable pub list_secrets : Bytes → Vaults → Outcome (List Secret)
unfolding all_current
list_secrets host vaults =
    let secrets = or_empty (lookup host vaults) in
    all_current (sort_by (λ (n : Bytes). n) (map (λ (e : Bytes × SecretEntry). e.0) secrets))
      secrets

module _ {D : Type 0} (c : Codec D Vaults) where
  -- the maps changed, and `persistLocked`
  abbrev pub save : Env → Vaults → Store D → Store D
  save env vaults s = record { vaults = vaults; file = persist c env.written vaults s.file }

  unfoldable pub set_secret :
      Env → Bytes → Bytes → Bytes → Bytes → Dict Bytes → Attributes → Store D → Store D × Secret
  unfolding set_entry entry_of new_secret add_version
  set_secret env host name value content_type tags attrs s =
      let sec = new_secret env name value content_type tags attrs in
      (
        save env (set_entry host name (add_version sec (entry_of host name s.vaults)) s.vaults) s,
        sec,
      )

  -- `UpdateSecret` on an entry that was found
  unfoldable pub update_at :
      Env
      → Bytes
      → Bytes
      → Bytes
      → Option Bytes
      → Option (Dict Bytes)
      → Attributes
      → Store D
      → SecretEntry
      → Store D × Outcome Secret
  unfolding which updated_secret set_entry
  update_at env host name version content_type tags attrs s e =
      elim (lookup (which version e) e.versions) [
        | none ↦ (s, secret_not_found)
        | some sec ↦
            let sec' = updated_secret env content_type tags attrs sec in
            let e' = record e { versions = insert (which version e) sec' e.versions } in
            (save env (set_entry host name e' s.vaults) s, done sec')
      ]

  unfoldable pub update_secret :
      Env
      → Bytes
      → Bytes
      → Bytes
      → Option Bytes
      → Option (Dict Bytes)
      → Attributes
      → Store D
      → Store D × Outcome Secret
  unfolding update_at lookup_locked
  update_secret env host name version content_type tags attrs s =
      elim (lookup_locked host name s.vaults) [
        | done e ↦ update_at env host name version content_type tags attrs s e
        | secret_not_found ↦ (s, secret_not_found)
        | panicked ↦ (s, panicked)
      ]

  -- `DeleteSecret` on an entry that was found: reading the current version comes first
  unfoldable pub delete_at : Env → Bytes → Bytes → Store D → SecretEntry → Store D × Outcome Secret
  delete_at env host name s e = elim (lookup e.current e.versions) [
    | none ↦ (s, panicked)
    | some sec ↦
        (save env (insert host (erase name (or_empty (lookup host s.vaults))) s.vaults) s, done sec)
  ]

  unfoldable pub delete_secret : Env → Bytes → Bytes → Store D → Store D × Outcome Secret
  unfolding delete_at lookup_locked
  delete_secret env host name s = elim (lookup_locked host name s.vaults) [
    | done e ↦ delete_at env host name s e
    | secret_not_found ↦ (s, secret_not_found)
    | panicked ↦ (s, panicked)
  ]
