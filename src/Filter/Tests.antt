-- ===== src/Filter/Tests.antt =====
-- The tokenizer on expressions with a quoted string, and the parser on a comparison.
use localaz.Common.{
  Bytes, codes, ℕ, Bool, false, [], ◌∷◌, ◌++◌, List, Option, none, some, ◌==◌, ltb, leb, ◌≡◌, ◌↔◌,
  refl,
}
use localaz.Filter.Lexer.{Token, text, push_token, tokens, tokenize_filter, ident, and, lparen}
use localaz.Filter.Compare.{Floats, Value, string, FilterFunc, matches}
use localaz.Filter.Parser.{is_number, parse_filter, parse_tokens, max_filter_depth}
use localaz.Filter.Grammar.{Expression}
use localaz.Filter.Chains
use localaz.Filter.Accepts.{parse_filter_iff, parse_tokens-Ends}
use localaz.Filter.Tokens.{escape, Ends, tokenize_filter-Ends, tokenize_filter-escape}

-- nothing is upper case here, and nothing is a number
abbrev same : Bytes → Bytes
same s = s

abbrev no_float : Bytes → Bool
no_float s = false

tokenize_filter-Ends_example :
    Ends (tokenize_filter same no_float (codes "Name eq 'O''Brien' and ("))
tokenize_filter-Ends_example = tokenize_filter-Ends same no_float (codes "Name eq 'O''Brien' and (")

tokenize_filter-escape_example :
    tokenize_filter same no_float (39 ∷ escape (codes "O'Brien") ++ 39 ∷ codes " and")
    ≡ push_token (text (codes "O'Brien")) (tokenize_filter same no_float (codes " and"))
tokenize_filter-escape_example =
    tokenize_filter-escape same no_float (codes "O'Brien") (codes " and") refl

-- numbers that nothing is read as
abbrev no_floats : Floats
no_floats = record {
  Float = ℕ;
  parse_float = λ s. none;
  float_eq = λ a b. a == b;
  float_lt = λ a b. ltb a b;
  float_le = λ a b. leb a b;
}

-- JSON texts that are all taken as strings
abbrev as_string : Bytes → Option (Value ℕ)
as_string raw = some (string raw)

abbrev is_ann : FilterFunc
is_ann props = matches no_floats as_string (codes "Name") (codes "eq") (string (codes "Ann")) props

parse_filter_iff_example :
    (parse_filter no_floats as_string same same (codes "Name eq 'Ann'") ≡ some is_ann)
    ↔ (ts : List Token) × (tokenize_filter same
          (is_number no_floats as_string)
          (codes "Name eq 'Ann'")
        ≡ tokens ts)
      × Expression no_floats as_string max_filter_depth ts is_ann
parse_filter_iff_example =
    parse_filter_iff no_floats as_string same same (codes "Name eq 'Ann'") 78 (codes "ame eq 'Ann'")
      is_ann refl

parse_tokens-Ends_example :
    Chains.Ends (parse_tokens no_floats as_string (lparen ∷ ident (codes "Age") ∷ and ∷ []))
parse_tokens-Ends_example =
    parse_tokens-Ends no_floats as_string (lparen ∷ ident (codes "Age") ∷ and ∷ [])
