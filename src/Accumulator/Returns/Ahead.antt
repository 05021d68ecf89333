-- ===== src/Accumulator/Returns/Ahead.antt =====
-- The pending shreds that advanceStreaming may still pass over.
use shredstream_sdk_go.Prelude.{
  ℕ, suc, ◌+◌, ◌≡◌, ◌≤◌, ◌<◌, [], ◌∷◌, some, inl, inr, Bool-cases, ltb, leb, ◌==◌, if◌then◌else◌,
  length, Dict, lookup, erase, arith, ==_iff,
}
use shredstream_sdk_go.Saturating.{max_u32, saturating_add_u32}
use shredstream_sdk_go.Pool.{BufferPool}
use shredstream_sdk_go.Accumulator.Slot.{
  PendingShred, release_source, SlotState, release_below, complete_batch,
}
use shredstream_sdk_go.Accumulator.Returns.Low.{AreLow}

-- How many pending shreds stand at the index `c` or behind it.
unfoldable pub ahead {ℓ} : {V : Type ℓ} → ℕ → Dict V → ℕ
ahead c [] = 0
ahead c ((k, v) ∷ d) = (if leb c k then 1 else 0) + ahead c d

pub ahead-length {ℓ} : {V : Type ℓ} (c : ℕ) (d : Dict V) → ahead c d ≤ length d
unfolding ahead
ahead-length c [] = omega arith
ahead-length c ((k, v) ∷ d) = ground (arith, ahead-length c d)

ahead-further {ℓ} : {V : Type ℓ} (b c : ℕ) (d : Dict V) → b ≤ c → ahead c d ≤ ahead b d
unfolding ahead
ahead-further b c [] h = omega arith
ahead-further b c ((k, v) ∷ d) h = let rest = ahead-further b c d h in ground (arith, rest)

pub ahead-found {ℓ} :
    {V : Type ℓ} (c : ℕ) (v : V) (d : Dict V)
    → lookup c d ≡ some v
    → suc (ahead (suc c) d) ≤ ahead c d
unfolding ahead
ahead-found c v [] e = cc
ahead-found c v ((k, w) ∷ d) e = elim (Bool-cases (k == c)) [
  | inl here ↦
      let rest = ahead-further c (suc c) d (omega arith) in ground (arith, rest, ==_iff k c)
  | inr there ↦ let rest = ahead-found c v d (ground arith) in ground (arith, rest)
]

pub ahead-erase {ℓ} : {V : Type ℓ} (c k : ℕ) (d : Dict V) → ahead c (erase k d) ≤ ahead c d
unfolding ahead
ahead-erase c k [] = omega arith
ahead-erase c k ((j, v) ∷ d) = let rest = ahead-erase c k d in ground (arith, rest)

ahead-release_below :
    (c bound : ℕ) (d : Dict PendingShred) (p : BufferPool)
    → ahead c (release_below bound d p).1 ≤ ahead c d
unfolding ahead release_below
ahead-release_below c bound [] p = omega arith
ahead-release_below c bound ((k, ps) ∷ d) p = elim (Bool-cases (ltb k bound)) [
  | inl below ↦
      let rest = ahead-release_below c bound d (release_source ps.source p) in
      rw below (omega arith)
  | inr above ↦ let rest = ahead-release_below c bound d p in rw above (omega arith)
]

-- The pending shreds at the cursor or behind it.
abbrev pub left : SlotState → ℕ
left s = ahead s.acc.streaming_cursor s.acc.pending

pub complete_batch-left : (bc_idx : ℕ) (s : SlotState) → left (complete_batch bc_idx s) ≤ left s
unfolding complete_batch
complete_batch-left bc_idx s =
    let bound = saturating_add_u32 bc_idx 1 in
    let c = s.acc.streaming_cursor in
    let less = ahead-release_below c bound s.acc.pending s.pool in
    elim (Bool-cases (ltb c bound)) [
      | inl below ↦
          let further =
            ahead-further c bound (release_below bound s.acc.pending s.pool).1 (ground arith) in
          rw below (omega arith)
      | inr above ↦ rw above less
    ]

pub low_key {ℓ} :
    {V : Type ℓ} (c : ℕ) (v : V) (d : Dict V) → AreLow d → lookup c d ≡ some v → c < max_u32
low_key c v [] h e = cc
low_key c v ((k, w) ∷ d) (first, h) e = elim (Bool-cases (k == c)) [
  | inl here ↦ ground (arith, ==_iff k c)
  | inr there ↦ low_key c v d h (ground arith)
]
