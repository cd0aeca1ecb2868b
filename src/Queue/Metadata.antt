-- ===== src/Queue/Metadata.antt =====
-- Create Queue, and the comparison of metadata that it rests on.
use localaz.Common.{
  Bytes, suc, true, false, [], ◌∷◌, ◌≡◌, ◌≢◌, refl, none, some, arith, All, length, bytes_eq,
  bytes_eq_iff, bytes_eq_refl, ok, err, if◌then◌else◌, ◌∙◌, ◌↔◌, ◌&&◌,
}
use localaz.Common.Dict.{
  Dict, lookup, erase, lookup-erase, insert, lookup-insert, NodupKeys, erase-NodupKeys,
}
use localaz.Common.Snapshot.{Codec}
use localaz.Queue.Types.{queue_exists, Queue}
use localaz.Queue.Store.{
  Accounts, Store, Env, value_at, same_entries, same_metadata, queues_of, find_queue, create_queue,
}
use localaz.Queue.Delivery.{find_queue-set_queue}

-- Every entry of `a` is one of `b`.
abbrev Within : Dict Bytes → Dict Bytes → Type 0
Within a b = All (λ e. lookup e.0 b ≡ some e.1) a

abbrev HasNoEmptyValue : Dict Bytes → Type 0
HasNoEmptyValue = All (λ (e : Bytes × Bytes). e.1 ≢ [])

same_entries→Within : (a b : Dict Bytes) → HasNoEmptyValue a → same_entries a b ≡ true → Within a b
unfolding same_entries
same_entries→Within [] b n h = tt
same_entries→Within ((k, v) ∷ a) b (n, ns) h =
    ground (arith, same_entries→Within a b ns, bytes_eq_iff (value_at k b) v)

Within→same_entries : (a b : Dict Bytes) → Within a b → same_entries a b ≡ true
unfolding same_entries
Within→same_entries [] b h = refl
Within→same_entries ((k, v) ∷ a) b (p, h) =
    ground (arith, Within→same_entries a b h, bytes_eq_refl v)

erase-absent : (k : Bytes) (b : Dict Bytes) → lookup k b ≡ none → erase k b ≡ b
unfolding erase lookup
erase-absent k [] h = refl
erase-absent k ((j, v) ∷ b) h = ground (arith, erase-absent k b)

length-erase :
    (k : Bytes) (b : Dict Bytes) (v : Bytes)
    → NodupKeys b
    → lookup k b ≡ some v
    → length b ≡ suc (length (erase k b))
unfolding lookup erase
length-erase k [] v u h = cc
length-erase k ((j, w) ∷ b) v (fresh, u) h =
    ground (arith, length-erase k b v u, erase-absent k b, bytes_eq_iff j k)

Within-erase :
    (k : Bytes) (a b : Dict Bytes) → lookup k a ≡ none → Within a b → Within a (erase k b)
unfolding lookup
Within-erase k [] b f h = tt
Within-erase k ((j, v) ∷ a) b f (p, h) =
    ground (arith, Within-erase k a b, lookup-erase j k b, bytes_eq_iff j k, bytes_eq_iff k j)

Within→lookup_eq :
    (a b : Dict Bytes)
    → NodupKeys a
    → NodupKeys b
    → length a ≡ length b
    → Within a b
    → (k : Bytes) → lookup k b ≡ lookup k a
unfolding lookup
Within→lookup_eq [] [] u w l h k = refl
Within→lookup_eq [] (e ∷ b) u w l h k = absurd (omega arith)
Within→lookup_eq ((j, v) ∷ a) b (fresh, u) w l (p, h) k = ground (
  arith,
  Within→lookup_eq a (erase j b) u (erase-NodupKeys j b w) (omega (arith, length-erase j b v w p))
      (Within-erase j a b fresh h) k,
  lookup-erase k j b,
  bytes_eq_iff j k,
)

Within-cons :
    (k v : Bytes) (a b : Dict Bytes) → lookup k a ≡ none → Within a b → Within a ((k, v) ∷ b)
unfolding lookup
Within-cons k v [] b f h = tt
Within-cons k v ((j, w) ∷ a) b f (p, h) =
    ground (arith, Within-cons k v a b, bytes_eq_iff k j, bytes_eq_iff j k)

NodupKeys→Within : (a : Dict Bytes) → NodupKeys a → Within a a
unfolding lookup
NodupKeys→Within [] u = tt
NodupKeys→Within ((k, v) ∷ a) (fresh, u) =
    (ground (arith, bytes_eq_refl k), Within-cons k v a a fresh (NodupKeys→Within a u))

-- Same answers, then the same number of keys and the same entries.
abbrev SameLookups : Dict Bytes → Dict Bytes → Type 0
SameLookups a b = (k : Bytes) → lookup k b ≡ lookup k a

lookup_head : (k v : Bytes) (a b : Dict Bytes) → SameLookups ((k, v) ∷ a) b → lookup k b ≡ some v
unfolding lookup
lookup_head k v a b h = ground (arith, h k, bytes_eq_refl k)

SameLookups-erase :
    (k v : Bytes) (a b : Dict Bytes)
    → lookup k a ≡ none
    → SameLookups ((k, v) ∷ a) b
    → SameLookups a (erase k b)
unfolding lookup
SameLookups-erase k v a b fresh h j = ground (arith, lookup-erase j k b, h j, bytes_eq_iff k j)

SameLookups→length_eq :
    (a b : Dict Bytes) → NodupKeys a → NodupKeys b → SameLookups a b → length a ≡ length b
SameLookups→length_eq [] [] u w h = refl
SameLookups→length_eq [] ((k, v) ∷ b) u w h = unfold lookup in ground (arith, h k, bytes_eq_refl k)
SameLookups→length_eq ((k, v) ∷ a) b (fresh, u) w h = omega (
  arith,
  length-erase k b v w (lookup_head k v a b h),
  SameLookups→length_eq a (erase k b) u (erase-NodupKeys k b w) (SameLookups-erase k v a b fresh h),
)

SameLookups→Within : (a b : Dict Bytes) (c : Dict Bytes) → SameLookups a b → Within c a → Within c b
SameLookups→Within a b [] h w = tt
SameLookups→Within a b ((k, v) ∷ c) h (p, w) = (h k ∙ p, SameLookups→Within a b c h w)

SameLookups→same_metadata :
    (a b : Dict Bytes) → NodupKeys a → NodupKeys b → SameLookups a b → same_metadata a b ≡ true
unfolding same_metadata
SameLookups→same_metadata a b u w h = ground (
  arith,
  SameLookups→length_eq a b u w h,
  Within→same_entries a b (SameLookups→Within a b a h (NodupKeys→Within a u)),
)

same_metadata→SameLookups :
    (a b : Dict Bytes)
    → NodupKeys a
    → NodupKeys b
    → HasNoEmptyValue a
    → same_metadata a b ≡ true
    → SameLookups a b
unfolding same_metadata
same_metadata→SameLookups a b u w n h =
    Within→lookup_eq a b u w (ground arith) (same_entries→Within a b n (ground arith))

-- If no stored value is the empty string, `sameMetadata` answers true exactly for metadata with the
-- same value, or none, under every key.
pub same_metadata_iff :
    (a b : Dict Bytes)
    → NodupKeys a
    → NodupKeys b
    → HasNoEmptyValue a
    → (same_metadata a b ≡ true) ↔ ((k : Bytes) → lookup k b ≡ lookup k a)
same_metadata_iff a b u w n =
    (same_metadata→SameLookups a b u w n, SameLookups→same_metadata a b u w)

-- `m[account]` assigned the map that it holds
pub find_queue-touch :
    (a a' n' : Bytes) (s : Accounts)
    → find_queue a' n' (insert a (queues_of a s) s) ≡ find_queue a' n' s
unfolding find_queue
find_queue-touch a a' n' s = ground (arith, lookup-insert a' a (queues_of a s) s, bytes_eq_iff a a')

same_metadata_empty : (k j v : Bytes) → k ≢ j → same_metadata ((k, []) ∷ []) ((j, v) ∷ []) ≡ true
unfolding same_metadata same_entries lookup
same_metadata_empty k j v d = ground (arith, bytes_eq_iff j k, bytes_eq_refl [])

different : (k j v : Bytes) → k ≢ j → lookup j ((k, []) ∷ []) ≢ lookup j ((j, v) ∷ [])
unfolding lookup
different k j v d = ground (arith, bytes_eq_iff k j, bytes_eq_refl j)

module _ {D : Type 0} (c : Codec D Accounts) where
  -- Create Queue on a queue that exists changes no queue, and reports a conflict unless
  -- `sameMetadata` holds; otherwise it adds the empty queue and changes no other.
  pub create_queue_cases :
      (env : Env) (a n a' n' : Bytes) (metadata : Dict Bytes) (s : Store D)
      → ((create_queue c env a n metadata s).1 ≡ (elim (find_queue a n s.accounts) [
        | some q ↦ if same_metadata q.metadata metadata then ok false else err queue_exists
        | none ↦ ok true
      ]))
        × (find_queue a' n' (create_queue c env a n metadata s).0.accounts ≡ (
            if bytes_eq a a' && bytes_eq n n'
            then (elim (find_queue a n s.accounts) [
              | some q ↦ some q
              | none ↦ some (record { name = n; metadata = metadata; messages = [] })
            ])
            else find_queue a' n' s.accounts))
  unfolding create_queue find_queue
  create_queue_cases env a n a' n' metadata s =
      let accounts = insert a (queues_of a s.accounts) s.accounts in
      ground (
        arith,
        find_queue-touch a a' n' s.accounts,
        find_queue-set_queue a n a' n' (record { name = n; metadata = metadata; messages = [] })
            accounts,
        bytes_eq_iff a a',
        bytes_eq_iff n n',
      )

  -- `sameMetadata` reads a missing key as "": Create Queue takes a request whose only key differs
  -- from the stored only key, of empty value, for a repetition, whatever the requested value.
  pub create_queue_confuses_empty :
      (env : Env) (a n k j v : Bytes) (s : Store D) (q : Queue)
      → k ≢ j
      → find_queue a n s.accounts ≡ some q
      → q.metadata ≡ (k, []) ∷ []
      → ((create_queue c env a n ((j, v) ∷ []) s).1 ≡ ok false)
        × (lookup j q.metadata ≢ lookup j ((j, v) ∷ []))
  create_queue_confuses_empty env a n k j v s q d h e = (
    (create_queue_cases env a n a n ((j, v) ∷ []) s).0
        ∙ ground (arith, h, e, same_metadata_empty k j v d),
    rw e (different k j v d),
  )
