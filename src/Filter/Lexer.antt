-- ===== src/Filter/Lexer.antt =====
-- internal/servers/tableserver/filter_lexer.go. An expression is the bytes that remain, `expr[i:]`.
use localaz.Common.{
  Bytes, codes, ℕ, zero, suc, Bool, false, not, ◌&&◌, ◌||◌, List, [], ◌∷◌, Option, none, some,
  length, ◌==◌, bytes_eq, if◌then◌else◌,
}

pub data Token : Type 0 where
  ident text number boolean op : Bytes → Token
  and or lparen rparen : Token

-- `malformed` is errFilter. `stuck` is no outcome of the program: the fuel ran out.
pub data Lexed : Type 0 where
  tokens : List Token → Lexed
  malformed : Lexed
  stuck : Lexed

unfoldable pub push_token : Token → Lexed → Lexed
push_token t (tokens ts) = tokens (t ∷ ts)
push_token t malformed = malformed
push_token t stuck = stuck

unfoldable pub push_byte : ℕ → Option (Bytes × Bytes) → Option (Bytes × Bytes)
push_byte c none = none
push_byte c (some (s, rest)) = some (c ∷ s, rest)

-- The loop over a quoted string, after the opening quote: the string and what follows it. `pending`
-- says that the byte before was a quote, which ends the string unless another one follows.
unfoldable pub read_quoted : Bool → Bytes → Option (Bytes × Bytes)
unfolding push_byte
read_quoted pending [] = if pending then some ([], []) else none
read_quoted pending (c ∷ s) =
    let rest = read_quoted (not pending && c == 39) s in
    if pending && not (c == 39)
    then some ([], c ∷ s)
    else if not pending && c == 39
    then rest
    else push_byte c rest

abbrev pub is_space : ℕ → Bool
is_space c = c == 32 || c == 9

-- the bytes that end a word: a space, a tab or a parenthesis
abbrev pub ends_word : ℕ → Bool
ends_word c = is_space c || c == 40 || c == 41

unfoldable pub read_word : Bytes → Bytes × Bytes
read_word [] = ([], [])
read_word (c ∷ s) =
    let (word, rest) = read_word s in if ends_word c then ([], c ∷ s) else (c ∷ word, rest)

unfoldable pub is_compare_op : Bytes → Bool
is_compare_op w =
    bytes_eq w (codes "eq")
    || bytes_eq w (codes "ne")
    || bytes_eq w (codes "gt")
    || bytes_eq w (codes "ge")
    || bytes_eq w (codes "lt")
    || bytes_eq w (codes "le")

-- `lower` stands for strings.ToLower, and `is_float` for the success of strconv.ParseFloat.
module _ (lower : Bytes → Bytes) (is_float : Bytes → Bool) where
  unfoldable pub classify_word : Bytes → Token
  unfolding is_compare_op
  classify_word word =
      let w = lower word in
      if bytes_eq w (codes "and")
      then and
      else if bytes_eq w (codes "or")
      then or
      else if bytes_eq w (codes "true") || bytes_eq w (codes "false")
      then boolean w
      else if is_compare_op w
      then op w
      else if is_float word
      then number word
      else ident word

  -- The loop of `tokenizeFilter` on fuel; each turn takes a byte at least.
  unfoldable pub tokenize : ℕ → Bytes → Lexed
  unfolding read_quoted read_word classify_word push_token
  tokenize zero expr = stuck
  tokenize (suc fuel) [] = tokens []
  tokenize (suc fuel) (c ∷ s) =
      let (word, after_word) = read_word (c ∷ s) in
      if is_space c
      then tokenize fuel s
      else if c == 40
      then push_token lparen (tokenize fuel s)
      else if c == 41
      then push_token rparen (tokenize fuel s)
      else if c == 39
      then elim (read_quoted false s) [
        | none ↦ malformed
        | some (str, rest) ↦ push_token (text str) (tokenize fuel rest)
      ]
      else push_token (classify_word word) (tokenize fuel after_word)

  unfoldable pub tokenize_filter : Bytes → Lexed
  unfolding tokenize
  tokenize_filter expr = tokenize (suc (length expr)) expr
