-- ===== src/QueueServer/Names.antt =====
-- internal/servers/queueserver/queues.go: `validQueueName`.
use localaz.Common.{
  Bytes, ℕ, Bool, true, false, not, ◌&&◌, ◌||◌, List, [], ◌∷◌, length, ltb, leb, ◌==◌, ◌≡◌, refl,
  Bool-cases, inl, inr, arith, if◌then◌else◌,
}
use localaz.Common.Strings.{split}

abbrev pub hyphen : ℕ
hyphen = 45

-- a lower-case letter or a digit
abbrev pub is_letter : ℕ → Bool
is_letter c = (leb 97 c && leb c 122) || (leb 48 c && leb c 57)

-- The loop of `validQueueName`, with `prevHyphen`.
unfoldable pub scan : Bool → Bytes → Bool
scan prev_hyphen [] = true
scan prev_hyphen (c ∷ name) =
    let after_letter = scan false name in
    let after_hyphen = scan true name in
    if is_letter c
    then after_letter
    else if c == hyphen
    then (if prev_hyphen then false else after_hyphen)
    else false

-- `name[len(name)-1]`, of the byte before `name` where that is empty
unfoldable pub last_byte : ℕ → Bytes → ℕ
last_byte c [] = c
last_byte c (b ∷ name) = last_byte b name

unfoldable pub valid_queue_name : Bytes → Bool
valid_queue_name [] = false
valid_queue_name (c ∷ name) =
    if ltb (length (c ∷ name)) 3 || ltb 63 (length (c ∷ name))
    then false
    else if c == hyphen || last_byte c name == hyphen
    then false
    else scan false (c ∷ name)

-- A word has letters and digits only, and one at least.
abbrev pub all_letters : Bytes → Bool
all_letters [] = true
all_letters (c ∷ s) = is_letter c && all_letters s

abbrev pub is_word : Bytes → Bool
is_word [] = false
is_word (c ∷ s) = is_letter c && all_letters s

abbrev pub all_words : List Bytes → Bool
all_words [] = true
all_words (s ∷ parts) = is_word s && all_words parts

-- words joined by single hyphens
unfoldable pub hyphenated : Bytes → Bool
hyphenated name = let (word, words) = split hyphen name in is_word word && all_words words

-- what may follow a letter, or a hyphen
abbrev goes_on : Bool → Bytes × List Bytes → Bool
goes_on true (part, parts) = is_word part && all_words parts
goes_on false (part, parts) = all_letters part && all_words parts

scan-split :
    (prev_hyphen : Bool) (c : ℕ) (s : Bytes)
    → (c == hyphen) ≡ prev_hyphen
    → (scan prev_hyphen s && not (last_byte c s == hyphen)) ≡ goes_on prev_hyphen (split hyphen s)
unfolding scan last_byte split
scan-split true c [] h = ground (arith, h)
scan-split false c [] h = ground (arith, h)
scan-split true c (b ∷ s) h = elim (Bool-cases (b == hyphen)) [
  | inl e ↦ ground (arith, e)
  | inr e ↦ ground (arith, e, scan-split false b s e)
]
scan-split false c (b ∷ s) h = elim (Bool-cases (b == hyphen)) [
  | inl e ↦ ground (arith, e, scan-split true b s e)
  | inr e ↦ ground (arith, e, scan-split false b s e)
]

-- the tests of `validQueueName` after that of the length
shape_lem :
    (c : ℕ) (name : Bytes)
    → (if c == hyphen || last_byte c name == hyphen then false else scan false (c ∷ name))
      ≡ hyphenated (c ∷ name)
unfolding scan split hyphenated
shape_lem c name = elim (Bool-cases (c == hyphen)) [
  | inl e ↦ ground (arith, e)
  | inr e ↦ ground (arith, e, scan-split false c name e)
]

-- A queue's name is valid if it has 3 to 63 bytes, and is words of lower-case letters and digits
-- that single hyphens join.
pub valid_queue_name_lem :
    (name : Bytes)
    → valid_queue_name name ≡ (leb 3 (length name) && leb (length name) 63 && hyphenated name)
unfolding valid_queue_name
valid_queue_name_lem [] = refl
valid_queue_name_lem (c ∷ name) = ground (arith, shape_lem c name)
