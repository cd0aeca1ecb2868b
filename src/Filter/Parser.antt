-- ===== src/Filter/Parser.antt =====
-- internal/servers/tableserver/filter_parser.go, and `parseFilter` of odata.go. The parser's position
-- is the list of the tokens that remain.
use localaz.Common.{
  Bytes, ℕ, zero, suc, Bool, true, false, ◌&&◌, ◌||◌, List, [], ◌∷◌, Option, none, some, length,
}
use localaz.Filter.Lexer.{
  Token, ident, text, number, boolean, op, and, or, lparen, rparen, Lexed, tokens, malformed,
  tokenize_filter, ends_word,
}
use localaz.Filter.Lexer
use localaz.Filter.Compare.{Floats, Value, FilterFunc, comparison}

-- `refused` is errFilter. `stuck` is no outcome of the program: the fuel ran out.
pub data Parsed : Type 0 where
  parsed : FilterFunc → List Token → Parsed
  refused : Parsed
  stuck : Parsed

abbrev pub is_and : Token → Bool
is_and and = true
is_and _ = false

abbrev pub is_or : Token → Bool
is_or or = true
is_or _ = false

abbrev pub conj : FilterFunc → FilterFunc → FilterFunc
conj l r props = l props && r props

abbrev pub disj : FilterFunc → FilterFunc → FilterFunc
disj l r props = l props || r props

-- The loop that `parseAnd` and `parseOr` share in form, on fuel: while the next token is the
-- connective, read another operand and join it to what stands on the left.
unfoldable pub operands :
    (Token → Bool)
    → (FilterFunc → FilterFunc → FilterFunc)
    → (List Token → Parsed)
    → ℕ
    → FilterFunc
    → List Token
    → Parsed
operands connects join operand zero left ts = stuck
operands connects join operand (suc fuel) left [] = parsed left []
operands connects join operand (suc fuel) left (t ∷ ts) = elim (connects t) [
  | false ↦ parsed left (t ∷ ts)
  | true ↦ elim (operand ts) [
    | parsed right rest ↦ operands connects join operand fuel (join left right) rest
    | refused ↦ refused
    | stuck ↦ stuck
  ]
]

-- the first operand, then the loop
unfoldable pub chain :
    (Token → Bool)
    → (FilterFunc → FilterFunc → FilterFunc)
    → (List Token → Parsed)
    → List Token
    → Parsed
unfolding operands
chain connects join operand ts = elim (operand ts) [
  | parsed left rest ↦ operands connects join operand (suc (length rest)) left rest
  | refused ↦ refused
  | stuck ↦ stuck
]

unfoldable pub parse_and : (List Token → Parsed) → List Token → Parsed
unfolding chain
parse_and primary ts = chain is_and conj primary ts

unfoldable pub parse_or : (List Token → Parsed) → List Token → Parsed
unfolding chain parse_and
parse_or primary ts = chain is_or disj (parse_and primary) ts

-- what `parsePrimary` does after the expression in parentheses
unfoldable pub close : Parsed → Parsed
close (parsed f (rparen ∷ rest)) = parsed f rest
close (parsed f _) = refused
close refused = refused
close stuck = stuck

abbrev pub max_filter_depth : ℕ
max_filter_depth = 64

-- all the tokens must be read
unfoldable pub complete : Parsed → Option FilterFunc
complete (parsed f []) = some f
complete (parsed f (t ∷ ts)) = none
complete refused = none
complete stuck = none

module _ (floats : Floats) (unmarshal : Bytes → Option (Value floats.Float)) where
  -- The branch of `parsePrimary` for a comparison.
  unfoldable pub parse_comparison : List Token → Parsed
  unfolding comparison
  parse_comparison (ident field ∷ op o ∷ t ∷ rest) = elim (comparison floats unmarshal field o t) [
    | none ↦ refused
    | some f ↦ parsed f rest
  ]
  parse_comparison _ = refused

  -- `parsePrimary`, where `inner` reads what follows an opening parenthesis
  unfoldable pub primary : (List Token → Parsed) → List Token → Parsed
  unfolding close parse_comparison
  primary inner (lparen ∷ ts) = close (inner ts)
  primary inner ts = parse_comparison ts

  -- `parsePrimary` with so many levels of parentheses left: maxFilterDepth - p.depth
  unfoldable pub parse_primary : ℕ → List Token → Parsed
  unfolding primary parse_or
  parse_primary zero ts = primary (λ _. refused) ts
  parse_primary (suc left) ts = primary (parse_or (parse_primary left)) ts

  unfoldable pub parse_tokens : List Token → Parsed
  unfolding parse_primary parse_or
  parse_tokens ts = parse_or (parse_primary max_filter_depth) ts

  unfoldable pub is_number : Bytes → Bool
  is_number word = elim (floats.parse_float word) [ none ↦ false | some f ↦ true ]

  -- `trim` stands for strings.TrimSpace, and `lower` for strings.ToLower. `none` is errFilter.
  unfoldable pub parse_filter : (Bytes → Bytes) → (Bytes → Bytes) → Bytes → Option FilterFunc
  unfolding parse_tokens complete is_number
  parse_filter trim lower expr = elim (trim expr) [
    | [] ↦ some (λ _. true)
    | c ∷ s ↦ elim (tokenize_filter lower is_number (c ∷ s)) [
      | tokens ts ↦ complete (parse_tokens ts)
      | malformed ↦ none
      | Lexer.stuck ↦ none
    ]
  ]
