-- ===== src/Common/Snapshot.antt =====
-- The snapshot file of a store: `persistLocked` and `load`, which every JSON-backed store shares.
-- `encoding/json` and the disk are not modelled: a codec is a parameter, and the outcome of each
-- write is an input.
use mathlib.Core.Path.{◌≡◌, refl, sym}
use mathlib.Core.Bool.{Bool, true, false}
use mathlib.Core.Option.{Option, none, some}
use native.Mathlib.Omega.{arith}
use localaz.Common.Tests.{if◌then◌else◌}

-- `json.Marshal` and `json.Unmarshal` between the contents of a file and a store's maps.
pub record Codec (D A : Type 0) : Type 0 where
  pub marshal : A → Option D
  pub unmarshal : D → Option A
  pub is_empty : D → Bool

-- What is documented of the pair, on values that are `Valid`: such a value is marshalled to a text
-- that is not empty, and read back as one that is the same but for the order of its maps.
pub record Carries {D A : Type 0} (c : Codec D A) (Valid : A → Type 0) (Same : A → A → Type 0)
    : Type 0 where
  pub encodes : (a : A) → Valid a → (d : D) × (c.marshal a ≡ some d) × (c.is_empty d ≡ false)
  pub decodes :
      (a : A) (d : D)
      → Valid a
      → c.marshal a ≡ some d
      → (a' : A) × (c.unmarshal d ≡ some a') × Same a' a

module _ {D A : Type 0} (c : Codec D A) where
  -- `persistLocked`: errors of the codec and of the write are dropped.
  unfoldable pub persist : Bool → A → Option D → Option D
  persist written a file = elim (c.marshal a) [
    | none ↦ file
    | some d ↦ if written then some d else file
  ]

  -- `load` over the empty map `initial`: a missing or an empty file leaves it, and `none` is an
  -- error of the decoder.
  unfoldable pub load : A → Option D → Option A
  load initial none = some initial
  load initial (some d) = if c.is_empty d then some initial else c.unmarshal d

  -- After a write that succeeded, a restart reads back what was in memory.
  pub load-persist :
      {Valid : A → Type 0} {Same : A → A → Type 0} (written : Bool) (a initial : A)
      (file : Option D)
      → Carries c Valid Same
      → Valid a
      → written ≡ true
      → (a' : A) × (load initial (persist written a file) ≡ some a') × Same a' a
  unfolding load persist
  load-persist written a initial file r valid w =
      let (d, e, full) = r.encodes a valid in
      let (a', back, same) = r.decodes a d valid e in (a', ground (arith, e, w, full, back), same)

-- A codec that keeps a value as it is: the laws can be met.
abbrev pub plain : {A : Type 0} → Codec A A
plain = record { marshal = some; unmarshal = some; is_empty = λ _. false }

pub plain-Carries :
    {A : Type 0} (Valid : A → Type 0) (Same : A → A → Type 0)
    → ((a : A) → Same a a)
    → Carries (plain {A = A}) Valid Same
plain-Carries Valid Same same = record {
  encodes = λ a v. (a, refl, refl);
  decodes = λ a d v e. (a, sym e, same a);
}
