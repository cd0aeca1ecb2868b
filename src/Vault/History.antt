-- ===== src/Vault/History.antt =====
-- List Versions after Set Secret.
use localaz.Common.{
  Bytes, List, [], ◌∷◌, ◌++◌, Option, none, some, bytes_eq_iff, bytes_eq_refl, ◌≡◌, refl, ap, arith,
}
use localaz.Common.Dict.{Dict, lookup, insert, lookup-insert}
use localaz.Vault.Store.{
  Secret, SecretEntry, Outcome, done, secret_not_found, panicked, deref, add_version, all_versions,
  ◌>>=◌,
}

deref-done : (o : Option Secret) (sec : Secret) → deref o ≡ done sec → o ≡ some sec
unfolding deref
deref-done none sec h = cc
deref-done (some s) sec h = cc

done_injective : {A : Type 0} (a b : A) → done a ≡ done b → a ≡ b
done_injective a b h = cc

bind-done :
    {A B : Type 0} (m : Outcome A) (f : A → Outcome B) {b : B}
    → (m >>= f) ≡ done b
    → (a : A) × (m ≡ done a) × (f a ≡ done b)
bind-done (done a) f h = (a, refl, h)
bind-done secret_not_found f h = cc
bind-done panicked f h = cc

-- a version that is there stays as it is when another is added
lookup-other :
    (v k : Bytes) (old sec : Secret) (m : Dict Secret)
    → lookup v m ≡ some old
    → lookup k m ≡ none
    → lookup v (insert k sec m) ≡ some old
lookup-other v k old sec m h fresh = ground (arith, lookup-insert v k sec m, bytes_eq_iff k v)

all_versions-append :
    (vs : List Bytes) (k : Bytes) (sec : Secret) (m : Dict Secret) (history : List Secret)
    → all_versions vs m ≡ done history
    → lookup k m ≡ none
    → all_versions (vs ++ (k ∷ [])) (insert k sec m) ≡ done (history ++ (sec ∷ []))
unfolding all_versions deref
all_versions-append [] k sec m history h fresh =
    rw (lookup-insert k k sec m, bytes_eq_refl k)
      (ap (λ x. done (x ++ (sec ∷ []))) (done_injective [] history h))
all_versions-append (v ∷ vs) k sec m history h fresh =
    let (first, e, h') = bind-done (deref (lookup v m)) _ h in
    let (rest, e', last) = bind-done (all_versions vs m) _ h' in
    rw
      (
        lookup-other v k first sec m (deref-done (lookup v m) first e) fresh,
        all_versions-append vs k sec m rest e' fresh,
      )
      (ap (λ x. done (x ++ (sec ∷ []))) (done_injective (first ∷ rest) history last))

-- Where the versions of an entry are all there and the new version is not, adding the new version
-- gives the same history with the new secret at its end.
pub all_versions-add_version :
    (e : SecretEntry) (sec : Secret) (history : List Secret)
    → all_versions e.order e.versions ≡ done history
    → lookup sec.version e.versions ≡ none
    → all_versions (add_version sec e).order (add_version sec e).versions
      ≡ done (history ++ (sec ∷ []))
unfolding add_version
all_versions-add_version e sec history h fresh =
    all_versions-append e.order sec.version sec e.versions history h fresh
