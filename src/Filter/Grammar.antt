-- ===== src/Filter/Grammar.antt =====
-- The grammar of filter expressions, apart from the parser in internal/servers/tableserver/filter_parser.go:
-- which tokens are an expression, and which filter they mean.
use localaz.Common.{Bytes, ℕ, zero, suc, List, [], ◌∷◌, ◌++◌, ◌≡◌, ◌⊎◌, Option, some}
use localaz.Filter.Lexer.{Token, ident, op, and, or, lparen, rparen}
use localaz.Filter.Compare.{Floats, Value, FilterFunc, comparison}
use localaz.Filter.Parser.{conj, disj}

-- tokens and what they mean
abbrev pub Lang : Type 1
Lang = List Token → FilterFunc → Type 0

-- One or more phrases of a language with a connective between them, grouped to the left.
pub data Chain (R : Lang) (sep : Token) (join : FilterFunc → FilterFunc → FilterFunc)
    : List Token → FilterFunc → Type 0 where
  one : {ts : List Token} {f : FilterFunc} → R ts f → Chain R sep join ts f
  more :
      {ts us : List Token} {f g : FilterFunc}
      → Chain R sep join ts f
      → R us g
      → Chain R sep join (ts ++ sep ∷ us) (join f g)

abbrev pub Conjunction : Lang → Lang
Conjunction R = Chain R and conj

-- `and` binds tighter than `or`
abbrev pub Disjunction : Lang → Lang
Disjunction R = Chain (Conjunction R) or disj

pub data InParens (R : Lang) : List Token → FilterFunc → Type 0 where
  parens : {ts : List Token} {f : FilterFunc} → R ts f → InParens R (lparen ∷ ts ++ rparen ∷ []) f

-- a comparison, or an expression in parentheses, nested so deep at most
module _ (floats : Floats) (unmarshal : Bytes → Option (Value floats.Float)) where
  -- a property's name, an operator and a literal
  pub data Comparison : List Token → FilterFunc → Type 0 where
    test :
        {field o : Bytes} {t : Token} {f : FilterFunc}
        → comparison floats unmarshal field o t ≡ some f
        → Comparison (ident field ∷ op o ∷ t ∷ []) f

  unfoldable pub Primary : ℕ → Lang
  Primary zero ts f = Comparison ts f
  Primary (suc d) ts f = Comparison ts f ⊎ InParens (Disjunction (Primary d)) ts f

  abbrev pub Expression : ℕ → Lang
  Expression d = Disjunction (Primary d)
