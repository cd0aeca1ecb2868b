-- ===== src/Filter/Tokens.antt =====
-- The tokenizer ends on any input, and reads back quoted strings.
use localaz.Common.{
  Bytes, ℕ, zero, suc, ◌<◌, ◌≤◌, Bool, true, false, not, ◌&&◌, [], ◌∷◌, ◌++◌, Option, none, some,
  length, ◌==◌, if◌then◌else◌, ◌≡◌, refl, ap, ◌∙◌, arith, Bool-cases, inl, inr, Option-cases,
  length-append,
}
use localaz.Filter.Lexer.{
  Token, text, lparen, rparen, Lexed, tokens, malformed, stuck, push_token, push_byte, read_quoted,
  read_word, is_space, tokenize, tokenize_filter,
}

-- a quoted string with its quotes doubled
abbrev pub escape : Bytes → Bytes
escape [] = []
escape (c ∷ s) = if c == 39 then 39 ∷ 39 ∷ escape s else c ∷ escape s

-- no quote comes first
abbrev pub starts_quote : Bytes → Bool
starts_quote [] = false
starts_quote (c ∷ s) = c == 39

read_quoted-end :
    (rest : Bytes) → starts_quote rest ≡ false → read_quoted true rest ≡ some ([], rest)
unfolding read_quoted
read_quoted-end [] h = refl
read_quoted-end (c ∷ s) h = rw h refl

is_39 : (c : ℕ) → (c == 39) ≡ true → c ≡ 39
is_39 c h = ground arith

read_quoted-escape :
    (s rest : Bytes)
    → starts_quote rest ≡ false
    → read_quoted false (escape s ++ 39 ∷ rest) ≡ some (s, rest)
unfolding read_quoted push_byte
read_quoted-escape [] rest h = read_quoted-end rest h
read_quoted-escape (c ∷ s) rest h = elim (Bool-cases (c == 39)) [
  | inl quote ↦
      let same : 39 ≡ c = omega (arith, is_39 c quote) in
      rw (quote, read_quoted-escape s rest h, same) refl
  | inr other ↦ rw (other, other, read_quoted-escape s rest h) refl
]

length-read_quoted :
    (pending : Bool) (s str rest : Bytes)
    → read_quoted pending s ≡ some (str, rest)
    → length rest ≤ length s
unfolding read_quoted push_byte
length-read_quoted pending [] str rest h = ground arith
length-read_quoted pending (c ∷ s) str rest h =
    elim (Option-cases (read_quoted (not pending && c == 39) s)) [
      | inl e ↦ ground (arith, e)
      | inr ((x, r), e) ↦
          let le = length-read_quoted (not pending && c == 39) s x r e in ground (arith, e, le)
    ]

length-read_word : (s : Bytes) → length (read_word s).1 ≤ length s
unfolding read_word
length-read_word [] = omega arith
length-read_word (c ∷ s) = ground (arith, length-read_word s)

-- the tokenizer came to an end
abbrev pub Ends : Lexed → Type 0
Ends (tokens ts) = Unit
Ends malformed = Unit
Ends stuck = ⊥

Ends-push_token : (t : Token) (l : Lexed) → Ends l → Ends (push_token t l)
unfolding push_token
Ends-push_token t (tokens ts) h = tt
Ends-push_token t malformed h = tt
Ends-push_token t stuck h = h

Ends-if : (b : Bool) (x y : Lexed) → Ends x → (b ≡ false → Ends y) → Ends (if b then x else y)
Ends-if true x y h k = h
Ends-if false x y h k = k refl

if_same :
    (b : Bool) (x y x' y' : Lexed)
    → x ≡ x'
    → (b ≡ false → y ≡ y')
    → (if b then x else y) ≡ (if b then x' else y')
if_same true x y x' y' h k = h
if_same false x y x' y' h k = k refl

-- a word that starts with no separator takes a byte at least
length-read_word_cons :
    (c : ℕ) (s : Bytes)
    → is_space c ≡ false
    → (c == 40) ≡ false
    → (c == 41) ≡ false
    → length (read_word (c ∷ s)).1 ≤ length s
unfolding read_word
length-read_word_cons c s h k l = rw (h, k, l) (length-read_word s)

module _ (lower : Bytes → Bytes) (is_float : Bytes → Bool) where
  Ends-quoted :
      (fuel : ℕ) (o : Option (Bytes × Bytes))
      → ((str rest : Bytes) → o ≡ some (str, rest) → Ends (tokenize lower is_float fuel rest))
      → Ends (elim o [
        | none ↦ malformed
        | some (str, rest) ↦ push_token (text str) (tokenize lower is_float fuel rest)
      ])
  Ends-quoted fuel none h = tt
  Ends-quoted fuel (some (str, rest)) h = Ends-push_token (text str) _ (h str rest refl)

  tokenize-Ends :
      (fuel : ℕ) (expr : Bytes) → length expr < fuel → Ends (tokenize lower is_float fuel expr)
  unfolding tokenize read_word
  tokenize-Ends zero expr lt = absurd (omega arith)
  tokenize-Ends (suc fuel) [] lt = tt
  tokenize-Ends (suc fuel) (c ∷ s) lt =
      Ends-if (is_space c) _ _ (tokenize-Ends fuel s (omega arith)) (λ h.
        Ends-if (c == 40) _ _ (Ends-push_token lparen _ (tokenize-Ends fuel s (omega arith))) (λ k.
          Ends-if (c == 41) _ _ (Ends-push_token rparen _ (tokenize-Ends fuel s (omega arith)))
            (λ l.
              Ends-if (c == 39) _ _
                (Ends-quoted fuel (read_quoted false s) (λ str rest e.
                  tokenize-Ends fuel rest (omega (arith, length-read_quoted false s str rest e))))
                (λ q. Ends-push_token _ _ (
                  tokenize-Ends fuel (read_word (c ∷ s)).1
                    (omega (arith, length-read_word_cons c s h k l)))))))

  -- The tokenizer comes to an end on any input, within the fuel of one more than its bytes.
  pub tokenize_filter-Ends : (expr : Bytes) → Ends (tokenize_filter lower is_float expr)
  unfolding tokenize_filter
  tokenize_filter-Ends expr = tokenize-Ends (suc (length expr)) expr (omega arith)

  quoted-same :
      (f g : ℕ) (o : Option (Bytes × Bytes))
      → ((str rest : Bytes)
          → o ≡ some (str, rest)
          → tokenize lower is_float f rest ≡ tokenize lower is_float g rest)
      → ◌≡◌ {A = Lexed}
          (elim o [
            | none ↦ malformed
            | some (str, rest) ↦ push_token (text str) (tokenize lower is_float f rest)
          ])
          (elim o [
            | none ↦ malformed
            | some (str, rest) ↦ push_token (text str) (tokenize lower is_float g rest)
          ])
  quoted-same f g none h = refl
  quoted-same f g (some (str, rest)) h = ap (push_token (text str)) (h str rest refl)

  -- any fuel over the length is enough
  tokenize_fuel :
      (f g : ℕ) (expr : Bytes)
      → length expr < f
      → length expr < g
      → tokenize lower is_float f expr ≡ tokenize lower is_float g expr
  unfolding tokenize read_word
  tokenize_fuel zero g expr lt lt' = absurd (omega arith)
  tokenize_fuel (suc f) zero expr lt lt' = absurd (omega arith)
  tokenize_fuel (suc f) (suc g) [] lt lt' = refl
  tokenize_fuel (suc f) (suc g) (c ∷ s) lt lt' =
      let rest = tokenize_fuel f g s (omega arith) (omega arith) in
      if_same (is_space c) _ _ _ _ rest (λ h.
        if_same (c == 40) _ _ _ _ (ap (push_token lparen) rest) (λ k.
          if_same (c == 41) _ _ _ _ (ap (push_token rparen) rest) (λ l.
            if_same (c == 39) _ _ _ _
              (quoted-same f g (read_quoted false s) (λ str r e.
                let le = length-read_quoted false s str r e in
                tokenize_fuel f g r (omega arith) (omega arith)))
              (λ q.
                let le = length-read_word_cons c s h k l in
                ap (push_token _)
                  (tokenize_fuel f g (read_word (c ∷ s)).1 (omega arith) (omega arith))))))

  quoted_turn :
      (fuel : ℕ) (s rest : Bytes)
      → starts_quote rest ≡ false
      → tokenize lower is_float (suc fuel) (39 ∷ escape s ++ 39 ∷ rest)
        ≡ push_token (text s) (tokenize lower is_float fuel rest)
  unfolding tokenize
  quoted_turn fuel s rest h = rw (read_quoted-escape s rest h) refl

  -- A string between quotes, each quote inside it doubled, is read as that one string token, if what
  -- follows starts with no quote; the tokens of what follows come after it.
  pub tokenize_filter-escape :
      (s rest : Bytes)
      → starts_quote rest ≡ false
      → tokenize_filter lower is_float (39 ∷ escape s ++ 39 ∷ rest)
        ≡ push_token (text s) (tokenize_filter lower is_float rest)
  unfolding tokenize_filter
  tokenize_filter-escape s rest h =
      quoted_turn (length (39 ∷ escape s ++ 39 ∷ rest)) s rest h
      ∙ ap (push_token (text s)) (
          tokenize_fuel (length (39 ∷ escape s ++ 39 ∷ rest)) (suc (length rest)) rest
            (omega (arith, length-append (escape s) (39 ∷ rest))) (omega arith))
