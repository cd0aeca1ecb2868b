-- ===== src/Vault/Versions.antt =====
-- Versions of a secret: what is read after Set Secret, and the history in order.
use localaz.Common.{
  Bytes, Bool, true, false, ◌&&◌, ◌||◌, [], ◌∷◌, Option, none, some, length, ◌==◌, bytes_eq,
  bytes_eq_refl, if◌then◌else◌, ◌≡◌, refl, sym, ap, ◌∙◌, arith, Bool-cases, inl, inr,
}
use localaz.Common.Dict.{Dict, or_empty, lookup, insert, lookup-insert, nested-insert}
use localaz.Common.Snapshot.{Codec}
use localaz.Vault.Store.{
  Secret, Attributes, SecretEntry, Vaults, Store, Env, Outcome, done, secret_not_found, or_keep,
  no_entry, at_version, lookup_locked, set_entry, entry_of, new_secret, add_version, which,
  get_secret, set_secret, ◌>>=◌,
}

-- an entry with versions, or none
found : Option SecretEntry → Outcome SecretEntry
found none = secret_not_found
found (some e) = if length e.versions == 0 then secret_not_found else done e

lookup_locked-found :
    (host name : Bytes) (vaults : Vaults)
    → lookup_locked host name vaults ≡ found (lookup name (or_empty (lookup host vaults)))
unfolding lookup_locked found
lookup_locked-found host name vaults = ground arith

insert-length :
    (k : Bytes) (sec : Secret) (m : Dict Secret) → (length (insert k sec m) == 0) ≡ false
unfolding insert
insert-length k sec [] = refl
insert-length k sec ((j, s) ∷ m) = ground arith

found-add_version :
    (sec : Secret) (e : SecretEntry) → found (some (add_version sec e)) ≡ done (add_version sec e)
unfolding found add_version
found-add_version sec e = rw (insert-length sec.version sec e.versions) refl

-- reading a version of what was found
read : Bytes → Outcome SecretEntry → Outcome Secret
unfolding which at_version
read version o = o >>= λ e. at_version (lookup (which version e) e.versions)

get_secret-read :
    (host name version : Bytes) (vaults : Vaults)
    → get_secret host name version vaults
      ≡ read version (found (lookup name (or_empty (lookup host vaults))))
unfolding get_secret read
get_secret-read host name version vaults = ap (read version) (lookup_locked-found host name vaults)

lookup-empty : (k : Bytes) (m : Dict Secret) → (length m == 0) ≡ true → lookup k m ≡ none
unfolding lookup
lookup-empty k [] h = refl
lookup-empty k ((j, v) ∷ m) h = ground arith

-- the versions of an entry are those of `entry_of`, if it has any
read-entry :
    (version : Bytes) (o : Option SecretEntry)
    → bytes_eq version [] ≡ false
    → read version (found o) ≡ at_version (lookup version (or_keep o no_entry).versions)
unfolding read found at_version lookup which
read-entry version none h = refl
read-entry version (some e) h = elim (Bool-cases (length e.versions == 0)) [
  | inl gone ↦ rw gone (ap at_version (sym (lookup-empty version e.versions gone)))
  | inr there ↦ rw (there, h) refl
]

added :
    (version : Bytes) (sec : Secret) (e : SecretEntry) (before : Outcome Secret)
    → (bytes_eq version [] ≡ false → before ≡ at_version (lookup version e.versions))
    → read version (done (add_version sec e))
      ≡ (if bytes_eq version [] || bytes_eq sec.version version then done sec else before)
unfolding add_version at_version which read
added version sec e before same = elim (Bool-cases (bytes_eq version [])) [
  | inl now ↦ rw now (
      ap at_version (lookup-insert sec.version sec.version sec e.versions)
      ∙ rw (bytes_eq_refl sec.version) refl)
  | inr named ↦ rw named (
      ap at_version (lookup-insert version sec.version sec e.versions)
      ∙ elim (Bool-cases (bytes_eq sec.version version)) [
        | inl own ↦ rw own refl
        | inr other ↦ rw other (sym (same named))
      ])
]

read-added :
    (version : Bytes) (sec : Secret) (o : Option SecretEntry)
    → read version (found (some (add_version sec (or_keep o no_entry)))) ≡ (
        if bytes_eq version [] || bytes_eq sec.version version
        then done sec
        else read version (found o))
read-added version sec o =
    ap (read version) (found-add_version sec (or_keep o no_entry))
    ∙ added version sec (or_keep o no_entry) (read version (found o)) (read-entry version o)

read-if :
    (version : Bytes) (b : Bool) (o p : Option SecretEntry)
    → read version (found (if b then o else p))
      ≡ (if b then read version (found o) else read version (found p))
read-if version true o p = refl
read-if version false o p = refl

module _ {D : Type 0} (c : Codec D Vaults) where
  -- After Set Secret, Get Secret returns the new secret for the current version and for its own;
  -- other versions, names and vaults read as before.
  pub get_secret-set_secret :
      (env : Env) (host name value content_type : Bytes) (tags : Dict Bytes) (attrs : Attributes)
      (s : Store D) (host' name' version : Bytes)
      → get_secret host' name' version
          (set_secret c env host name value content_type tags attrs s).0.vaults
        ≡ (if bytes_eq host host' && bytes_eq name name'
            then (if bytes_eq version [] || bytes_eq env.new_version version
                then done (set_secret c env host name value content_type tags attrs s).1
                else get_secret host name version s.vaults)
            else get_secret host' name' version s.vaults)
  unfolding set_secret set_entry entry_of new_secret
  get_secret-set_secret env host name value content_type tags attrs s host' name' version =
      let sec = new_secret env name value content_type tags attrs in
      let old = lookup name (or_empty (lookup host s.vaults)) in
      get_secret-read host' name' version
        (set_entry host name (add_version sec (entry_of host name s.vaults)) s.vaults)
      ∙ ap (λ o. read version (found o))
          (nested-insert host name host' name' (add_version sec (or_keep old no_entry)) s.vaults)
      ∙ read-if version (bytes_eq host host' && bytes_eq name name')
          (some (add_version sec (or_keep old no_entry)))
          (lookup name' (or_empty (lookup host' s.vaults)))
      ∙ rw
          (
            read-added version sec old,
            sym (get_secret-read host name version s.vaults),
            sym (get_secret-read host' name' version s.vaults),
          )
          refl
