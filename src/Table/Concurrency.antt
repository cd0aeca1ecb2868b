-- ===== src/Table/Concurrency.antt =====
-- Optimistic concurrency: what an If-Match condition does after another client's update.
use localaz.Common.{
  Bytes, Bool, false, [], some, bytes_eq_iff, bytes_eq_refl, ok, err, ◌≡◌, ◌≢◌, refl, sym, ap, ◌∙◌,
  arith,
}
use localaz.Common.Snapshot.{Codec}
use localaz.Table.Types.{etag_mismatch, Props, Entity, Table, get, put}
use localaz.Table.Store.{
  Accounts, Store, Env, any_etag, match_etag, find_table, update_in, save, update,
}
use localaz.Table.Entities.{
  get-put, find_table-set_table, update-stored, update-err, update_in-keys,
}

match_etag-differ :
    (e : Entity) (tag : Bytes) → tag ≢ [] → tag ≢ any_etag → e.etag ≢ tag → match_etag e tag ≡ false
unfolding match_etag
match_etag-differ e tag h k l =
    ground (arith, bytes_eq_iff tag [], bytes_eq_iff tag any_etag, bytes_eq_iff tag e.etag)

get-put_same :
    (e : Entity) (t : Table) (pk rk : Bytes)
    → e.partition_key ≡ pk
    → e.row_key ≡ rk
    → get pk rk (put e t) ≡ some e
get-put_same e t pk rk p r = get-put e t pk rk ∙ rw (p, r, bytes_eq_refl pk, bytes_eq_refl rk) refl

update_in-mismatch :
    (env : Env) (pk rk tag : Bytes) (props : Props) (merge : Bool) (t : Table) (e : Entity)
    → get pk rk t ≡ some e
    → match_etag e tag ≡ false
    → update_in env pk rk props tag merge t ≡ err etag_mismatch
unfolding update_in
update_in-mismatch env pk rk tag props merge t e h k = rw (update_in, h, k) refl

module _ {D : Type 0} (c : Codec D Accounts) where
  find_table-save :
      (env : Env) (a n : Bytes) (t : Table) (s : Store D)
      → find_table a n (save c env a n t s).accounts ≡ some t
  find_table-save env a n t s =
      find_table-set_table a n a n t s.accounts ∙ rw (bytes_eq_refl a, bytes_eq_refl n) refl

  -- After an update of an entity that succeeded, a later Replace or Merge under an etag other than
  -- the one that the update gave is refused as a mismatch, and changes nothing.
  pub update-conflict :
      (env later : Env) (a n pk rk cond tag : Bytes) (props props' : Props) (merge merge' : Bool)
      (s s' : Store D) (e : Entity)
      → update c env a n pk rk props cond merge s ≡ (s', ok e)
      → tag ≢ []
      → tag ≢ any_etag
      → env.etag_for env.now ≢ tag
      → update c later a n pk rk props' tag merge' s' ≡ (s', err etag_mismatch)
  update-conflict env later a n pk rk cond tag props props' merge merge' s s' e h some_tag no_star
        other =
      let (t, here, stored, now) = update-stored c env a n pk rk cond props merge s s' e h in
      let (p, r, q) = update_in-keys env pk rk cond props merge t e stored in
      update-err c later a n pk rk tag props' merge' s' (put e t) etag_mismatch
        (ap (λ x. find_table a n x.accounts) now ∙ find_table-save env a n (put e t) s)
        (update_in-mismatch later pk rk tag props' merge' (put e t) e (get-put_same e t pk rk p r)
          (match_etag-differ e tag some_tag no_star (λ same. other (sym q ∙ same))))
