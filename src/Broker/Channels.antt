-- ===== src/Broker/Channels.antt =====
-- Closing channels: how often a channel occurs among the waiting and the closed ones.
use localaz.Common.{
  Bytes, ℕ, ◌+◌, ◌≤◌, false, List, [], ◌∷◌, ◌++◌, none, some, arith, ◌==◌, bytes_eq, bytes_eq_iff,
  if◌then◌else◌, ◌≡◌, refl, Bool-cases, inl, inr,
}
use localaz.Common.Dict.{or_empty, Dict, lookup, insert, erase, NodupKeys}
use localaz.Broker.Store.{is_closed, close_all}

abbrev pub count : ℕ → List ℕ → ℕ
count c [] = 0
count c (d ∷ ds) = (if c == d then 1 else 0) + count c ds

-- how often a channel waits, over all addresses
abbrev pub held : ℕ → Dict (List ℕ) → ℕ
held c [] = 0
held c ((_, ds) ∷ ws) = count c ds + held c ws

pub count-append : (c : ℕ) (xs ys : List ℕ) → count c (xs ++ ys) ≡ count c xs + count c ys
count-append c [] ys = omega arith
count-append c (x ∷ xs) ys = omega (arith, count-append c xs ys)

pub held-insert :
    (c : ℕ) (a : Bytes) (ds : List ℕ) (ws : Dict (List ℕ))
    → held c (insert a ds ws) + count c (or_empty (lookup a ws)) ≡ held c ws + count c ds
unfolding insert lookup
held-insert c a ds [] = omega arith
held-insert c a ds ((j, es) ∷ ws) = elim (Bool-cases (bytes_eq j a)) [
  | inl same ↦ rw same (omega arith)
  | inr other ↦ rw other (omega (arith, held-insert c a ds ws))
]

held-erase-fresh :
    (c : ℕ) (a : Bytes) (ws : Dict (List ℕ)) → lookup a ws ≡ none → held c (erase a ws) ≡ held c ws
unfolding erase lookup
held-erase-fresh c a [] h = refl
held-erase-fresh c a ((j, es) ∷ ws) h = ground (arith, held-erase-fresh c a ws)

pub held-erase :
    (c : ℕ) (a : Bytes) (ws : Dict (List ℕ))
    → NodupKeys ws
    → held c (erase a ws) + count c (or_empty (lookup a ws)) ≡ held c ws
unfolding erase lookup
held-erase c a [] u = omega arith
held-erase c a ((j, es) ∷ ws) (fresh, u) = elim (Bool-cases (bytes_eq j a)) [
  | inl same ↦ rw same (ground (arith, bytes_eq_iff j a, held-erase-fresh c a ws))
  | inr other ↦ rw other (omega (arith, held-erase c a ws u))
]

is_closed-zero : (c : ℕ) (ds : List ℕ) → count c ds ≡ 0 → is_closed c ds ≡ false
unfolding is_closed
is_closed-zero c [] h = refl
is_closed-zero c (d ∷ ds) h = ground (arith, is_closed-zero c ds)

-- Channels that are listed once and not closed are closed without a panic.
pub close_all-once :
    (cs closed : List ℕ)
    → ((c : ℕ) → count c cs + count c closed ≤ 1)
    → (closed' : List ℕ) × (close_all cs closed ≡ some closed')
      × ((c : ℕ) → count c closed' ≡ count c cs + count c closed)
unfolding close_all
close_all-once [] closed h = (closed, refl, λ c. omega arith)
close_all-once (d ∷ ds) closed h =
    let (closed', e, same) = close_all-once ds (d ∷ closed) (λ c. omega (arith, h c)) in
    (closed', rw (is_closed-zero d closed (ground (arith, h d))) e, λ c. omega (arith, same c))
