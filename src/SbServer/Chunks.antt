-- ===== src/SbServer/Chunks.antt =====
-- internal/servers/sbserver: a delivery that is split over several transfers.
use localaz.Common.{
  Bytes, ℕ, zero, suc, true, false, List, [], ◌∷◌, ◌++◌, Option, some, get_elem?, ◌≡◌, refl, sym,
  ap, ◌∙◌, Option-cases, inl, inr, ◌⊎◌, append_assoc, All,
}
use localaz.Amqp.Frame.{Frame, field}
use localaz.SbServer.Helpers.{as_uint32, as_bool}
use localaz.SbServer.Link.{Link, append_partial, take_partial}
use localaz.SbServer.Conn.{
  Conn, Outcome, goes_on, stops, crashed, next, find_link, link_key, link_at, set_link, with_link,
}
use localaz.SbServer.Transfers.{complete_transfer, on_transfer}

-- the frames of a session, one after another, as far as they go on
abbrev pub on_transfers : List Frame → Conn → Outcome
on_transfers [] c = goes_on c
on_transfers (f ∷ fs) c = next (on_transfer f c) (λ c'. on_transfers fs c')

List-cases : (xs : Bytes) → (xs ≡ []) ⊎ ((b : ℕ) × (bs : Bytes) × (xs ≡ b ∷ bs))
List-cases [] = inl refl
List-cases (b ∷ bs) = inr (b, bs, refl)

-- the chunks so far and the last one make the body, and the buffer is empty again
take_partial_lem :
    (x : Bytes) (l : Link) → take_partial x l ≡ (record l { partial = [] }, l.partial ++ x)
unfolding take_partial
take_partial_lem x l = elim (List-cases l.partial) [
  | inl e ↦ rw (take_partial, e) (rw (sym e) refl)
  | inr (b, bs, e) ↦ rw (take_partial, e) refl
]

pub get_elem?-set_link :
    (i : ℕ) (l k : Link) (heap : List Link)
    → get_elem? heap i ≡ some k
    → get_elem? (set_link i l heap) i ≡ some l
unfolding set_link
get_elem?-set_link i l k [] h = absurd (cc)
get_elem?-set_link zero l k (j ∷ heap) h = refl
get_elem?-set_link (suc i) l k (j ∷ heap) h = get_elem?-set_link i l k heap h

set_link-set_link :
    (i : ℕ) (l k : Link) (heap : List Link) → set_link i l (set_link i k heap) ≡ set_link i l heap
unfolding set_link
set_link-set_link i l k [] = refl
set_link-set_link zero l k (j ∷ heap) = refl
set_link-set_link (suc i) l k (j ∷ heap) = ap (◌∷◌ j) (set_link-set_link i l k heap)

link_at-cases :
    (c : Conn) (channel handle i : ℕ) (l : Link)
    → link_at c channel handle ≡ some (i, l)
    → (find_link (link_key channel handle) c.links ≡ some i) × (get_elem? c.heap i ≡ some l)
unfolding link_at
link_at-cases c channel handle i l h =
    elim (Option-cases (find_link (link_key channel handle) c.links)) [
      | inl e ↦ absurd (cc (rw (link_at, e) at h))
      | inr (j, e) ↦ elim (Option-cases (get_elem? c.heap j)) [
        | inl g ↦ absurd (cc (rw (link_at, e, g) at h))
        | inr (k, g) ↦
            let pair_eq : ◌≡◌ {A = Option (ℕ × Link)} (some (j, k)) (some (i, l)) =
              rw (link_at, e, g) at h in
            let place : j ≡ i = cc in
            let same : k ≡ l = cc in (e ∙ ap some place, rw place at (g ∙ ap some same))
      ]
    ]

-- a link changed in place is found changed
link_at-with_link :
    (c : Conn) (channel handle i : ℕ) (l k : Link)
    → link_at c channel handle ≡ some (i, l)
    → link_at (with_link i k c) channel handle ≡ some (i, k)
unfolding link_at
link_at-with_link c channel handle i l k h =
    let (found, there) = link_at-cases c channel handle i l h in
    rw (link_at, found, get_elem?-set_link i k l c.heap there) refl

on_transfer-more :
    (f : Frame) (c : Conn) (i : ℕ) (l : Link)
    → link_at c f.channel (as_uint32 (field 0 f.fields)) ≡ some (i, l)
    → as_bool (field 5 f.fields) ≡ true
    → on_transfer f c ≡ goes_on (with_link i (append_partial f.payload l) c)
unfolding on_transfer
on_transfer-more f c i l h k = rw (on_transfer, h, k) refl

on_transfer-last :
    (f : Frame) (c : Conn) (i : ℕ) (l : Link)
    → link_at c f.channel (as_uint32 (field 0 f.fields)) ≡ some (i, l)
    → as_bool (field 5 f.fields) ≡ false
    → on_transfer f c ≡ complete_transfer f i l c
unfolding on_transfer
on_transfer-last f c i l h k = rw (on_transfer, h, k) refl

complete_transfer-append :
    (f : Frame) (p : Bytes) (i : ℕ) (l : Link) (c : Conn)
    → complete_transfer f i (append_partial p l) (with_link i (append_partial p l) c)
      ≡ complete_transfer (record f { payload = p ++ f.payload }) i l c
unfolding complete_transfer append_partial
complete_transfer-append f p i l c =
    rw
      (
        complete_transfer,
        take_partial_lem f.payload (append_partial p l),
        take_partial_lem (p ++ f.payload) l,
        set_link-set_link i (record l { partial = [] }) (append_partial p l) c.heap,
        append_assoc l.partial p f.payload,
      )
      refl

next-goes_on : (o : Outcome) → next o (λ c. goes_on c) ≡ o
next-goes_on (goes_on c) = refl
next-goes_on (stops c) = refl
next-goes_on crashed = refl

-- a transfer of the link that says that more follows
abbrev pub IsChunk : ℕ → ℕ → Frame → Type 0
IsChunk channel handle f =
    (f.channel ≡ channel)
    × (as_uint32 (field 0 f.fields) ≡ handle)
    × (as_bool (field 5 f.fields) ≡ true)

abbrev pub bodies : List Frame → Bytes
bodies [] = []
bodies (f ∷ fs) = f.payload ++ bodies fs

-- Transfers that say that more follows, and then one that does not, all on one link that is attached,
-- do exactly what a single transfer with the whole body does: relay, settlement, credit and state.
pub on_transfers-bodies :
    (chunks : List Frame) (f : Frame) (c : Conn) (i : ℕ) (l : Link)
    → All (IsChunk f.channel (as_uint32 (field 0 f.fields))) chunks
    → link_at c f.channel (as_uint32 (field 0 f.fields)) ≡ some (i, l)
    → as_bool (field 5 f.fields) ≡ false
    → on_transfers (chunks ++ f ∷ []) c
      ≡ on_transfer (record f { payload = bodies chunks ++ f.payload }) c
on_transfers-bodies [] f c i l h k m = next-goes_on (on_transfer f c)
on_transfers-bodies (p ∷ chunks) f c i l ((ch, hd, mr), h) k m =
    let c' = with_link i (append_partial p.payload l) c in
    let rest = bodies chunks ++ f.payload in
    let there =
      link_at-with_link c f.channel (as_uint32 (field 0 f.fields)) i l (append_partial p.payload l)
        k in
    let first : on_transfer p c ≡ goes_on c' = on_transfer-more p c i l (rw (ch, hd) k) mr in
    ap (λ o. next o (λ x. on_transfers (chunks ++ f ∷ []) x)) first
    ∙ on_transfers-bodies chunks f c' i (append_partial p.payload l) h there m
    ∙ on_transfer-last (record f { payload = rest }) c' i (append_partial p.payload l) there m
    ∙ complete_transfer-append (record f { payload = rest }) p.payload i l c
    ∙ sym (on_transfer-last (record f { payload = p.payload ++ rest }) c i l k m)
    ∙ ap (λ x. on_transfer (record f { payload = x }) c)
        (sym (append_assoc p.payload (bodies chunks) f.payload))
