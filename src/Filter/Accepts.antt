-- ===== src/Filter/Accepts.antt =====
-- internal/servers/tableserver/filter_parser.go: the parser accepts the grammar's expressions, with
-- their meaning, and nothing else.
use localaz.Common.{
  Bytes, ℕ, zero, suc, true, false, List, [], ◌∷◌, ◌++◌, Option, none, some, ◌≡◌, refl, sym, ap,
  ◌∙◌, ◌↔◌, inl, inr, ◌⊎◌, append_assoc, append-nil, Option-cases,
}
use localaz.Filter.Lexer.{
  Token, ident, op, and, or, lparen, rparen, Lexed, tokens, malformed, tokenize_filter,
}
use localaz.Filter.Lexer
use localaz.Filter.Compare.{Floats, Value, FilterFunc, comparison}
use localaz.Filter.Parser.{
  Parsed, parsed, refused, stuck, is_and, is_or, conj, disj, parse_and, parse_or, close,
  parse_comparison, primary, parse_primary, max_filter_depth, complete, parse_tokens, is_number,
  parse_filter,
}
use localaz.Filter.Grammar.{
  Lang, Comparison, test, InParens, parens, Conjunction, Disjunction, Primary, Expression,
}
use localaz.Filter.Chains.{
  Sound, Complete, Ends, AllHead, Parsed-cases, chain-Sound, chain-Ends, chain-Complete,
}

is_and_lem : (t : Token) → is_and t ≡ true → t ≡ and
is_and_lem and h = refl
is_and_lem _ h = absurd (cc)

is_or_lem : (t : Token) → is_or t ≡ true → t ≡ or
is_or_lem or h = refl
is_or_lem _ h = absurd (cc)

-- an operand of a conjunction: anything may follow
abbrev Anything : List Token → Type 0
Anything ts = Unit

abbrev NoAnd : List Token → Type 0
NoAnd ts = AllHead (λ t. is_and t ≡ false) ts

abbrev NoConnective : List Token → Type 0
NoConnective ts = NoAnd ts × AllHead (λ t. is_or t ≡ false) ts

tokens_injective : (ts us : List Token) → tokens ts ≡ tokens us → ts ≡ us
tokens_injective ts us h = cc

module _ (p : List Token → Parsed) (R : Lang) (sound : Sound p R) where
  parse_and-Sound : Sound (parse_and p) (Conjunction R)
  unfolding parse_and
  parse_and-Sound = chain-Sound is_and and conj p R is_and_lem refl sound

  parse_or-Sound : Sound (parse_or p) (Disjunction R)
  unfolding parse_or
  parse_or-Sound =
      chain-Sound is_or or disj (parse_and p) (Conjunction R) is_or_lem refl parse_and-Sound

  parse_or-Ends : ((ts : List Token) → Ends (p ts)) → (ts : List Token) → Ends (parse_or p ts)
  unfolding parse_or parse_and
  parse_or-Ends ends ts =
      chain-Ends is_or or disj (parse_and p) (Conjunction R) is_or_lem refl parse_and-Sound
        (chain-Ends is_and and conj p R is_and_lem refl sound ends) ts

  module _ (whole : Complete p Anything R) where
    parse_and-Complete : Complete (parse_and p) NoAnd (Conjunction R)
    unfolding parse_and
    parse_and-Complete us rest f c h =
        chain-Complete is_and and conj p R is_and_lem refl sound Anything (λ ts. tt) whole us rest f
          c tt h

    parse_or-Complete : Complete (parse_or p) NoConnective (Disjunction R)
    unfolding parse_or
    parse_or-Complete us rest f c (h, k) =
        chain-Complete is_or or disj (parse_and p) (Conjunction R) is_or_lem refl parse_and-Sound
          NoAnd (λ ts. refl) parse_and-Complete us rest f c h k

module _ (floats : Floats) (unmarshal : Bytes → Option (Value floats.Float)) where
  parse_comparison-Sound : Sound (parse_comparison floats unmarshal) (Comparison floats unmarshal)
  unfolding parse_comparison
  parse_comparison-Sound (ident field ∷ op o ∷ t ∷ ts) rest f h =
      elim (Option-cases (comparison floats unmarshal field o t)) [
        | inl e ↦ absurd (cc (rw (parse_comparison, e) at h))
        | inr (g, e) ↦
            let h' : parsed g ts ≡ parsed f rest = rw (parse_comparison, e) at h in
            let same : g ≡ f = cc in
            let after : ts ≡ rest = cc in
            (ident field ∷ op o ∷ t ∷ [], rw after refl, test (e ∙ ap some same))
      ]
  parse_comparison-Sound _ rest f h = absurd (cc)

  parse_comparison-Complete :
      Complete (parse_comparison floats unmarshal) Anything (Comparison floats unmarshal)
  unfolding parse_comparison
  parse_comparison-Complete us rest f (test e) _ = rw (parse_comparison, e) refl

  module _ (inner : List Token → Parsed) (R : Lang) where
    primary-Sound :
        Sound inner R
        → (ts rest : List Token) (f : FilterFunc)
        → primary floats unmarshal inner ts ≡ parsed f rest
        → (us : List Token) × (ts ≡ us ++ rest)
          × (Comparison floats unmarshal us f ⊎ InParens R us f)
    unfolding primary close
    primary-Sound sound (lparen ∷ ts) rest f h = elim (Parsed-cases (inner ts)) [
      | inl (g, rparen ∷ after, e) ↦
          let h' : parsed g after ≡ parsed f rest = rw (primary, close, e) at h in
          let same : g ≡ f = cc in
          let left : after ≡ rest = cc in
          let (us, split, phrase) = sound ts (rparen ∷ after) g e in
          (
            lparen ∷ us ++ rparen ∷ [],
            ap (◌∷◌ lparen) (rw (split, left) (sym (append_assoc us (rparen ∷ []) rest))),
            inr (parens (rw same at phrase)),
          )
      | inl (g, _, e) ↦ absurd (cc (rw (primary, close, e) at h))
      | inr (inl e) ↦ absurd (cc (rw (primary, close, e) at h))
      | inr (inr e) ↦ absurd (cc (rw (primary, close, e) at h))
    ]
    primary-Sound sound ts rest f h =
        let (us, split, phrase) = parse_comparison-Sound ts rest f h in (us, split, inl phrase)

  no_parens-Sound : Sound (λ _. refused) (λ _ _. ⊥)
  no_parens-Sound ts rest f h = absurd (cc)

  -- without parentheses, a comparison is what there is
  only-Comparison :
      (us : List Token) (f : FilterFunc)
      → Comparison floats unmarshal us f ⊎ InParens (λ _ _. ⊥) us f
      → Comparison floats unmarshal us f
  only-Comparison us f (inl phrase) = phrase
  only-Comparison us f (inr (parens nothing)) = absurd nothing

  parse_primary-Sound :
      (d : ℕ) → Sound (parse_primary floats unmarshal d) (Primary floats unmarshal d)
  unfolding parse_primary Primary
  parse_primary-Sound zero ts rest f h =
      let (us, split, phrase) =
        primary-Sound (λ _. refused) (λ _ _. ⊥) no_parens-Sound ts rest f h in
      (us, split, only-Comparison us f phrase)
  parse_primary-Sound (suc d) ts rest f h =
      primary-Sound (parse_or (parse_primary floats unmarshal d)) (Expression floats unmarshal d)
        (parse_or-Sound _ _ (parse_primary-Sound d)) ts rest f h

  primary-Comparison :
      (inner : List Token → Parsed) (us rest : List Token) (f : FilterFunc)
      → Comparison floats unmarshal us f
      → primary floats unmarshal inner (us ++ rest) ≡ parsed f rest
  unfolding primary
  primary-Comparison inner us rest f (test e) = parse_comparison-Complete us rest f (test e) tt

  parse_primary-Complete :
      (d : ℕ) → Complete (parse_primary floats unmarshal d) Anything (Primary floats unmarshal d)
  unfolding parse_primary primary close Primary
  parse_primary-Complete zero us rest f phrase h =
      primary-Comparison (λ _. refused) us rest f phrase
  parse_primary-Complete (suc d) us rest f (inl phrase) h =
      primary-Comparison (parse_or (parse_primary floats unmarshal d)) us rest f phrase
  parse_primary-Complete (suc d) us rest f (inr (parens {ts} phrase)) h =
      let reads =
        parse_or-Complete (parse_primary floats unmarshal d) (Primary floats unmarshal d)
          (parse_primary-Sound d) (parse_primary-Complete d) ts (rparen ∷ rest) f phrase
          (refl, refl) in
      rw (append_assoc ts (rparen ∷ []) rest) (ap close reads)

  complete-parsed : (p : Parsed) (f : FilterFunc) → complete p ≡ some f → p ≡ parsed f []
  unfolding complete
  complete-parsed (parsed g []) f h = ap (λ x. parsed x []) (cc)
  complete-parsed _ f h = absurd (cc)

  -- the tokens of an expression are accepted, with its meaning, and no others
  parse_tokens_iff :
      (ts : List Token) (f : FilterFunc)
      → (complete (parse_tokens floats unmarshal ts) ≡ some f)
        ↔ Expression floats unmarshal max_filter_depth ts f
  unfolding parse_tokens complete
  parse_tokens_iff ts f = (
    λ h.
        let (us, split, phrase) =
          parse_or-Sound _ _ (parse_primary-Sound max_filter_depth) ts [] f
            (complete-parsed _ f h) in
        rw (split ∙ append-nil us) phrase,
    λ phrase.
        let reads =
          parse_or-Complete (parse_primary floats unmarshal max_filter_depth)
            (Primary floats unmarshal max_filter_depth) (parse_primary-Sound max_filter_depth)
            (parse_primary-Complete max_filter_depth) ts [] f phrase (tt, tt) in
        ap complete (ap (parse_tokens floats unmarshal) (sym (append-nil ts)) ∙ reads),
  )

  close-Ends : (p : Parsed) → Ends p → Ends (close p)
  unfolding close
  close-Ends (parsed f (rparen ∷ rest)) h = tt
  close-Ends (parsed f _) h = tt
  close-Ends refused h = tt
  close-Ends stuck h = h

  parse_comparison-Ends : (ts : List Token) → Ends (parse_comparison floats unmarshal ts)
  unfolding parse_comparison
  parse_comparison-Ends (ident field ∷ op o ∷ t ∷ ts) =
      elim (Option-cases (comparison floats unmarshal field o t)) [
        | inl e ↦ rw (parse_comparison, e) tt
        | inr (g, e) ↦ rw (parse_comparison, e) tt
      ]
  parse_comparison-Ends _ = tt

  primary-Ends :
      (inner : List Token → Parsed)
      → ((ts : List Token) → Ends (inner ts))
      → (ts : List Token) → Ends (primary floats unmarshal inner ts)
  unfolding primary
  primary-Ends inner ends (lparen ∷ ts) = close-Ends (inner ts) (ends ts)
  primary-Ends inner ends ts = parse_comparison-Ends ts

  parse_primary-Ends : (d : ℕ) (ts : List Token) → Ends (parse_primary floats unmarshal d ts)
  unfolding parse_primary
  parse_primary-Ends zero ts = primary-Ends (λ _. refused) (λ _. tt) ts
  parse_primary-Ends (suc d) ts =
      primary-Ends _ (parse_or-Ends _ _ (parse_primary-Sound d) (parse_primary-Ends d)) ts

  -- The parser comes to an end on any tokens.
  pub parse_tokens-Ends : (ts : List Token) → Ends (parse_tokens floats unmarshal ts)
  unfolding parse_tokens
  parse_tokens-Ends ts =
      parse_or-Ends _ _ (parse_primary-Sound max_filter_depth) (parse_primary-Ends max_filter_depth)
        ts

  filter_of_tokens :
      (lower : Bytes → Bytes) (c : ℕ) (s : Bytes) (f : FilterFunc) (l : Lexed)
      → ((elim l [
        | tokens ts ↦ complete (parse_tokens floats unmarshal ts)
        | malformed ↦ none
        | Lexer.stuck ↦ none
      ])
          ≡ some f)
        ↔ (ts : List Token) × (l ≡ tokens ts) × Expression floats unmarshal max_filter_depth ts f
  filter_of_tokens lower c s f (tokens ts) = (
    λ h. (ts, refl, (parse_tokens_iff ts f).0 h),
    λ (us, e, phrase). (parse_tokens_iff ts f).1 (rw (tokens_injective ts us e) phrase),
  )
  filter_of_tokens lower c s f malformed = (λ h. absurd (cc), λ (us, e, phrase). absurd (cc))
  filter_of_tokens lower c s f Lexer.stuck = (λ h. absurd (cc), λ (us, e, phrase). absurd (cc))

  -- An expression that is not blank is accepted as a filter exactly if its tokens are an expression of
  -- the grammar with that meaning, whose parentheses nest 64 deep at most: `and` binds tighter than
  -- `or`, and both group to the left.
  pub parse_filter_iff :
      (trim lower : Bytes → Bytes) (expr : Bytes) (c : ℕ) (s : Bytes) (f : FilterFunc)
      → trim expr ≡ c ∷ s
      → (parse_filter floats unmarshal trim lower expr ≡ some f)
        ↔ (ts : List Token) × (tokenize_filter lower (is_number floats unmarshal) (c ∷ s)
            ≡ tokens ts)
          × Expression floats unmarshal max_filter_depth ts f
  unfolding parse_filter
  parse_filter_iff trim lower expr c s f h = rw (parse_filter, h) (filter_of_tokens lower c s f _)
