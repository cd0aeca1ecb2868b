-- ===== src/Common/Strings.antt =====
-- What the program uses of Go's package strings, on bytes.
use Prim.Native.Nat.{ℕ}
use mathlib.Core.Path.{◌≡◌, refl, ap}
use mathlib.Core.Bool.{Bool, true, false, not, ◌&&◌}
use mathlib.Core.Option.{Option, none, some}
use mathlib.Core.List.{List, [], ◌∷◌, ◌++◌}
use native.Mathlib.Omega.{arith}
use localaz.Common.Tests.{◌==◌, if◌then◌else◌}
use localaz.Common.ByteStrings.{Bytes}

-- `strings.IndexByte`, as the text before the first such byte and the text after it
unfoldable pub cut_byte : ℕ → Bytes → Option (Bytes × Bytes)
cut_byte c [] = none
cut_byte c (b ∷ s) = elim (b == c) [
  | true ↦ some ([], s)
  | false ↦ elim (cut_byte c s) [ none ↦ none | some (before, after) ↦ some (b ∷ before, after) ]
]

-- `strings.TrimPrefix` and `strings.TrimSuffix` with a prefix or suffix of one byte
unfoldable pub trim_prefix_byte : ℕ → Bytes → Bytes
trim_prefix_byte c [] = []
trim_prefix_byte c (b ∷ s) = if b == c then s else b ∷ s

unfoldable pub trim_suffix_byte : ℕ → Bytes → Bytes
trim_suffix_byte c [] = []
trim_suffix_byte c (b ∷ []) = if b == c then [] else b ∷ []
trim_suffix_byte c (b ∷ d ∷ s) = b ∷ trim_suffix_byte c (d ∷ s)

-- `strings.Split` with a separator of one byte; there is a part at least
unfoldable pub split : ℕ → Bytes → Bytes × List Bytes
split c [] = ([], [])
split c (b ∷ s) =
    let (part, parts) = split c s in if b == c then ([], part ∷ parts) else (b ∷ part, parts)

-- a byte that does not occur
abbrev pub Without : ℕ → Bytes → Type 0
Without c [] = Unit
Without c (b ∷ s) = ((b == c) ≡ false) × Without c s

pub cut_byte-append :
    (c : ℕ) (s t : Bytes) → Without c s → (c == c) ≡ true → cut_byte c (s ++ c ∷ t) ≡ some (s, t)
unfolding cut_byte
cut_byte-append c [] t h same = rw (cut_byte, same) refl
cut_byte-append c (b ∷ s) t (p, h) same = rw (cut_byte, p, cut_byte-append c s t h same) refl

pub cut_byte-none : (c : ℕ) (s : Bytes) → Without c s → cut_byte c s ≡ none
unfolding cut_byte
cut_byte-none c [] h = refl
cut_byte-none c (b ∷ s) (p, h) = rw (cut_byte, p, cut_byte-none c s h) refl

pub trim_suffix_byte-append :
    (c : ℕ) (s : Bytes) → (c == c) ≡ true → trim_suffix_byte c (s ++ c ∷ []) ≡ s
unfolding trim_suffix_byte
trim_suffix_byte-append c [] same = rw same refl
trim_suffix_byte-append c (b ∷ []) same = rw same refl
trim_suffix_byte-append c (b ∷ d ∷ s) same = ap (◌∷◌ b) (trim_suffix_byte-append c (d ∷ s) same)

pub split-append :
    (c : ℕ) (s t : Bytes)
    → Without c s
    → (c == c) ≡ true
    → split c (s ++ c ∷ t) ≡ (s, (split c t).0 ∷ (split c t).1)
unfolding split
split-append c [] t h same = rw same refl
split-append c (b ∷ s) t (p, h) same = rw (split-append c s t h same, p) refl

pub split-Without : (c : ℕ) (s : Bytes) → Without c s → split c s ≡ (s, [])
unfolding split
split-Without c [] h = refl
split-Without c (b ∷ s) (p, h) = rw (split-Without c s h, p) refl

pub Without-append : (c : ℕ) (s t : Bytes) → Without c s → Without c t → Without c (s ++ t)
Without-append c [] t h k = k
Without-append c (b ∷ s) t (p, h) k = (p, Without-append c s t h k)

-- the test of `Without`, which computes on a literal
abbrev pub is_without : ℕ → Bytes → Bool
is_without c [] = true
is_without c (b ∷ s) = not (b == c) && is_without c s

pub Without-literal :
    (c : ℕ) (s t : Bytes) → is_without c s ≡ true → Without c t → Without c (s ++ t)
Without-literal c [] t h k = k
Without-literal c (b ∷ s) t h k = (ground arith, Without-literal c s t (ground arith) k)

pub Without-test : (c : ℕ) (s : Bytes) → is_without c s ≡ true → Without c s
Without-test c [] h = tt
Without-test c (b ∷ s) h = (ground arith, Without-test c s (ground arith))
