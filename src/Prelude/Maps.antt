-- ===== src/Prelude/Maps.antt =====
-- A Go map keyed by numbers, as a list of entries in the order in which the map is walked.
use Prim.Native.Nat.{ℕ}
use mathlib.Core.Bool.{Bool, true, false}
use mathlib.Core.Option.{Option, none, some}
use mathlib.Core.List.{List, [], ◌∷◌}
use shredstream_sdk_go.Prelude.Tests.{◌==◌, if◌then◌else◌}

abbrev pub Dict {ℓ} : Type ℓ → Type ℓ
Dict V = List (ℕ × V)

module _ {ℓ} {V : Type ℓ} where
  -- `v, ok := d[k]`.
  abbrev pub lookup : ℕ → Dict V → Option V
  lookup k [] = none
  lookup k ((j, v) ∷ d) = if j == k then some v else lookup k d

  -- `_, ok := d[k]`.
  abbrev pub has_key : ℕ → Dict V → Bool
  has_key k [] = false
  has_key k ((j, v) ∷ d) = if j == k then true else has_key k d

  -- `delete(d, k)`.
  abbrev pub erase : ℕ → Dict V → Dict V
  erase k [] = []
  erase k ((j, v) ∷ d) = if j == k then d else (j, v) ∷ erase k d

  -- `d[k] = v`.
  abbrev pub insert : ℕ → V → Dict V → Dict V
  insert k v [] = (k, v) ∷ []
  insert k v ((j, w) ∷ d) = if j == k then (k, v) ∷ d else (j, w) ∷ insert k v d

  abbrev pub keys : Dict V → List ℕ
  keys [] = []
  keys ((j, v) ∷ d) = j ∷ keys d

  -- The entries that `delete` leaves in a loop that deletes by a test on the entry.
  abbrev pub keep_if : (ℕ → V → Bool) → Dict V → Dict V
  keep_if p [] = []
  keep_if p ((j, v) ∷ d) = if p j v then (j, v) ∷ keep_if p d else keep_if p d
