-- ===== src/Filter/Chains.antt =====
-- The loops of `parseAnd` and `parseOr` in internal/servers/tableserver/filter_parser.go: what they
-- read is a chain of the operands, for any operand that is read right.
use localaz.Common.{
  ℕ, zero, suc, ◌<◌, ◌≤◌, Bool, true, false, List, [], ◌∷◌, ◌++◌, length, ◌≡◌, refl, sym, ap, ◌∙◌,
  arith, Bool-cases, inl, inr, ◌⊎◌, length-append, append_assoc,
}
use localaz.Filter.Lexer.{Token}
use localaz.Filter.Compare.{FilterFunc}
use localaz.Filter.Parser.{Parsed, parsed, refused, stuck, operands, chain}
use localaz.Filter.Grammar.{Lang, Chain, one, more}

pub Parsed-cases :
    (p : Parsed)
    → ((f : FilterFunc) × (rest : List Token) × p ≡ parsed f rest) ⊎ ((p ≡ refused) ⊎ (p ≡ stuck))
Parsed-cases (parsed f rest) = inl (f, rest, refl)
Parsed-cases refused = inr (inl refl)
Parsed-cases stuck = inr (inr refl)

-- what a parser reads is a phrase of the language, with its meaning
abbrev pub Sound : (List Token → Parsed) → Lang → Type 0
Sound p R =
    (ts rest : List Token) (f : FilterFunc)
    → p ts ≡ parsed f rest
    → (us : List Token) × (ts ≡ us ++ rest) × R us f

-- a phrase is read with its meaning, if what follows it does not prolong it
abbrev pub Complete : (List Token → Parsed) → (List Token → Type 0) → Lang → Type 0
Complete p Follows R =
    (us rest : List Token) (f : FilterFunc) → R us f → Follows rest → p (us ++ rest) ≡ parsed f rest

-- the first token, if there is one, has the property
abbrev pub AllHead : (Token → Type 0) → List Token → Type 0
AllHead P [] = Unit
AllHead P (t ∷ ts) = P t

abbrev pub Ends : Parsed → Type 0
Ends (parsed f rest) = Unit
Ends refused = Unit
Ends stuck = ⊥

module _ (connects : Token → Bool) (sep : Token) (join : FilterFunc → FilterFunc → FilterFunc)
    (p : List Token → Parsed) (R : Lang) (is_sep : (t : Token) → connects t ≡ true → t ≡ sep)
    (sep_is : connects sep ≡ true) (sound : Sound p R) where
  shorter : (ts rest : List Token) (f : FilterFunc) → p ts ≡ parsed f rest → length rest ≤ length ts
  shorter ts rest f h =
      let (us, e, _) = sound ts rest f h in omega (arith, ap length e, length-append us rest)

  -- the loop ends: it has read all that it will
  ends_here :
      (ts rest us : List Token) (left f : FilterFunc)
      → Chain R sep join us left
      → parsed left ts ≡ parsed f rest
      → (ws : List Token) × (us ++ ts ≡ ws ++ rest) × Chain R sep join ws f
  ends_here ts rest us left f c h =
      let same : left ≡ f = cc in
      let after : ts ≡ rest = cc in (us, ap (◌++◌ us) after, rw same at c)

  operands-Sound :
      (fuel : ℕ) (ts rest us : List Token) (left f : FilterFunc)
      → Chain R sep join us left
      → operands connects join p fuel left ts ≡ parsed f rest
      → (ws : List Token) × (us ++ ts ≡ ws ++ rest) × Chain R sep join ws f
  unfolding operands
  operands-Sound zero ts rest us left f c h = absurd (cc)
  operands-Sound (suc fuel) [] rest us left f c h = ends_here [] rest us left f c h
  operands-Sound (suc fuel) (t ∷ ts) rest us left f c h = elim (Bool-cases (connects t)) [
    | inr no_sep ↦ ends_here (t ∷ ts) rest us left f c (rw (operands, no_sep) at h)
    | inl goes_on ↦ elim (Parsed-cases (p ts)) [
      | inl (right, after, e) ↦
          let (vs, split, phrase) = sound ts after right e in
          let (ws, whole, chained) =
            operands-Sound fuel after rest (us ++ sep ∷ vs) (join left right) f (more c phrase)
              (rw (operands, goes_on, e) at h) in
          (
            ws,
            ap (λ x. us ++ x) (rw (is_sep t goes_on, split) refl)
                ∙ sym (append_assoc us (sep ∷ vs) after)
                ∙ whole,
            chained,
          )
      | inr (inl e) ↦ absurd (cc (rw (operands, goes_on, e) at h))
      | inr (inr e) ↦ absurd (cc (rw (operands, goes_on, e) at h))
    ]
  ]

  pub chain-Sound : Sound (chain connects join p) (Chain R sep join)
  unfolding chain
  chain-Sound ts rest f h = elim (Parsed-cases (p ts)) [
    | inl (left, after, e) ↦
        let (us, split, phrase) = sound ts after left e in
        let (ws, whole, chained) =
          operands-Sound (suc (length after)) after rest us left f (one phrase)
            (rw (chain, e) at h) in
        (ws, split ∙ whole, chained)
    | inr (inl e) ↦ absurd (cc (rw (chain, e) at h))
    | inr (inr e) ↦ absurd (cc (rw (chain, e) at h))
  ]

  -- the loop ends, if each operand is read to its end
  operands-Ends :
      (fuel : ℕ) (ts : List Token) (left : FilterFunc)
      → ((ts : List Token) → Ends (p ts))
      → length ts < fuel
      → Ends (operands connects join p fuel left ts)
  unfolding operands
  operands-Ends zero ts left ends lt = absurd (omega arith)
  operands-Ends (suc fuel) [] left ends lt = tt
  operands-Ends (suc fuel) (t ∷ ts) left ends lt = elim (Bool-cases (connects t)) [
    | inr no_sep ↦ rw (operands, no_sep) tt
    | inl goes_on ↦ elim (Parsed-cases (p ts)) [
      | inl (right, after, e) ↦
          rw (operands, goes_on, e)
            (operands-Ends fuel after (join left right) ends
              (omega (arith, shorter ts after right e)))
      | inr (inl e) ↦ rw (operands, goes_on, e) tt
      | inr (inr e) ↦ rw (operands, goes_on, e) (rw e at (ends ts))
    ]
  ]

  pub chain-Ends :
      ((ts : List Token) → Ends (p ts)) → (ts : List Token) → Ends (chain connects join p ts)
  unfolding chain
  chain-Ends ends ts = elim (Parsed-cases (p ts)) [
    | inl (left, after, e) ↦
        rw (chain, e) (operands-Ends (suc (length after)) after left ends (omega arith))
    | inr (inl e) ↦ rw (chain, e) tt
    | inr (inr e) ↦ rw (chain, e) (rw e at (ends ts))
  ]

  -- any fuel over the tokens that remain is enough
  operands_fuel :
      (fuel more_fuel : ℕ) (ts : List Token) (left : FilterFunc)
      → length ts < fuel
      → length ts < more_fuel
      → operands connects join p fuel left ts ≡ operands connects join p more_fuel left ts
  unfolding operands
  operands_fuel zero g ts left lt lt' = absurd (omega arith)
  operands_fuel (suc fuel) zero ts left lt lt' = absurd (omega arith)
  operands_fuel (suc fuel) (suc g) [] left lt lt' = refl
  operands_fuel (suc fuel) (suc g) (t ∷ ts) left lt lt' = elim (Bool-cases (connects t)) [
    | inr no_sep ↦ rw (operands, no_sep) refl
    | inl goes_on ↦ elim (Parsed-cases (p ts)) [
      | inl (right, after, e) ↦
          let le = shorter ts after right e in
          rw (operands, goes_on, e)
            (operands_fuel fuel g after (join left right) (omega arith) (omega arith))
      | inr (inl e) ↦ rw (operands, goes_on, e) refl
      | inr (inr e) ↦ rw (operands, goes_on, e) refl
    ]
  ]

  module _ (Follows : List Token → Type 0) (follows_sep : (ts : List Token) → Follows (sep ∷ ts))
      (complete : Complete p Follows R) where
    -- after the phrases of a chain, the loop stands with their meaning on the left
    chain-reads :
        (us rest : List Token) (f : FilterFunc)
        → Chain R sep join us f
        → Follows rest
        → chain connects join p (us ++ rest) ≡ operands connects join p (suc (length rest)) f rest
    unfolding chain operands
    chain-reads us rest f (one phrase) h = rw (chain, complete us rest f phrase h) refl
    chain-reads _ rest _ (more {ts} {us} {f} {g} c phrase) h =
        rw
          (
            append_assoc ts (sep ∷ us) rest,
            chain-reads ts (sep ∷ us ++ rest) f c (follows_sep (us ++ rest)),
            operands,
            sep_is,
            complete us rest g phrase h,
          )
          (operands_fuel (length (sep ∷ us ++ rest)) (suc (length rest)) rest (join f g)
            (omega (arith, length-append us rest)) (omega arith))

    -- A chain is read with its meaning, if what follows neither prolongs its last phrase nor joins
    -- another one to it.
    pub chain-Complete :
        (us rest : List Token) (f : FilterFunc)
        → Chain R sep join us f
        → Follows rest
        → AllHead (λ t. connects t ≡ false) rest
        → chain connects join p (us ++ rest) ≡ parsed f rest
    unfolding operands
    chain-Complete us [] f c h k = chain-reads us [] f c h
    chain-Complete us (t ∷ rest) f c h k = rw (chain-reads us (t ∷ rest) f c h, operands, k) refl
