-- ===== src/Queue/Listing.antt =====
-- List Queues: Go iterates over the account's map in no fixed order.
use mathlib.Core.List.{Permᴰ}
use localaz.Common.{Bytes, ◌≡◌, refl, some, arith, map, keep}
use localaz.Common.Dict.{Dict, lookup, NodupKeys}
use localaz.Common.Sort.{sort_by, IsAscending}
use localaz.Common.Listing.{
  DistinctKeys-entries, DistinctKeys-map, map-perm, listing-perm, listing-IsAscending,
}
use localaz.Common.Snapshot.{Codec}
use localaz.Queue.Types.{Queue, QueueInfo}
use localaz.Queue.Store.{
  Accounts, Store, Env, info_of, listed, evict_listed, entry_info, list_queues,
}

entry_info_name : (e : Bytes × Queue) → (entry_info e).name ≡ e.0
unfolding info_of
entry_info_name e = refl

evict_listed_key :
    (env : Env) (prefix : Bytes) (e : Bytes × Queue) → (evict_listed env prefix e).0 ≡ e.0
evict_listed_key env prefix (n, q) = ground arith

module _ {D : Type 0} (c : Codec D Accounts) where
  list_queues_result :
      (env : Env) (a prefix : Bytes) (s : Store D) (qs : Dict Queue)
      → lookup a s.accounts ≡ some qs
      → (list_queues c env a prefix s).1
        ≡ sort_by
            (λ (i : QueueInfo). i.name)
            (map entry_info (keep (listed prefix) (map (evict_listed env prefix) qs)))
  unfolding list_queues
  list_queues_result env a prefix s qs h = rw (h, list_queues)

  -- List Queues is strictly ascending by name, and it is the same list for stores that hold the
  -- account's queues in different orders.
  pub list_queues_order :
      (env : Env) (a prefix : Bytes) (s s' : Store D) (qs qs' : Dict Queue)
      → lookup a s.accounts ≡ some qs
      → lookup a s'.accounts ≡ some qs'
      → NodupKeys qs
      → Permᴰ qs qs'
      → ((list_queues c env a prefix s).1 ≡ (list_queues c env a prefix s').1)
        × IsAscending (λ (i : QueueInfo). i.name) (list_queues c env a prefix s).1
  list_queues_order env a prefix s s' qs qs' h h' u d =
      let fst = λ (e : Bytes × Queue). e.0 in
      let evict = evict_listed env prefix in
      let name = λ (i : QueueInfo). i.name in
      let distinct =
        DistinctKeys-map evict fst fst (evict_listed_key env prefix) qs
          (DistinctKeys-entries qs u) in
      rw (list_queues_result env a prefix s qs h, list_queues_result env a prefix s' qs' h')
        (
          listing-perm (listed prefix) entry_info fst name entry_info_name (map-perm evict d)
              distinct,
          listing-IsAscending (listed prefix) entry_info fst name entry_info_name (map evict qs)
              distinct,
        )
