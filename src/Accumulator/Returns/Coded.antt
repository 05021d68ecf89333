-- ===== src/Accumulator/Returns/Coded.antt =====
-- pushCode returns, where no index is the largest.
use shredstream_sdk_go.Prelude.{
  ℕ, ◌+◌, ◌≤◌, [], ◌∷◌, ◌&&◌, not, Option, none, some, inl, inr, Bool-cases, Option-cases, ltb,
  ◌==◌, length, Dict, lookup, has_key, insert, arith, Gives, >>=-Gives,
}
use shredstream_sdk_go.Prelude.Int.{pos, ltb_ℤ}
use shredstream_sdk_go.Saturating.{max_u32}
use shredstream_sdk_go.Accumulator.FecSet.{FecSetBuffer, new_fec_set_buffer, record_code}
use shredstream_sdk_go.Accumulator.Slot.{SlotAccumulator, SlotState}
use shredstream_sdk_go.Accumulator.Fill.{try_fec_fill}
use shredstream_sdk_go.Accumulator.Streaming.{advance}
use shredstream_sdk_go.Accumulator.Push.{
  CodePush, entry_or_new, record_coding, make_room, push_code, evict_fec_set, smallest_fec_set_key,
}
use shredstream_sdk_go.Accumulator.Rules.Ends.{with_coding}
use shredstream_sdk_go.Accumulator.Returns.Low.{SetsLow, SetsLow-erase, SetsLow-lookup}
use shredstream_sdk_go.Accumulator.Returns.Safe.{IsSafe, IsSafeState, IsSafe-kept}
use shredstream_sdk_go.Accumulator.Returns.Advance.{advance-IsSafe}
use shredstream_sdk_go.Accumulator.Returns.Calls.{flush-Gives}
use shredstream_sdk_go.Accumulator.Flush.{flush}

pub SetsLow-insert :
    (k : ℕ) (fec : FecSetBuffer) (d : Dict FecSetBuffer)
    → k + fec.num_data ≤ max_u32
    → SetsLow d
    → SetsLow (insert k fec d)
SetsLow-insert k fec [] low h = (low, tt)
SetsLow-insert k fec ((j, w) ∷ d) low (first, h) = elim (Bool-cases (j == k)) [
  | inl here ↦ rw here (low, h)
  | inr there ↦ rw there (first, SetsLow-insert k fec d low h)
]

evict_fec_set-IsSafe :
    (k : ℕ) (oldest : Option ℕ) (a : SlotAccumulator) → IsSafe a → IsSafe (evict_fec_set k oldest a)
evict_fec_set-IsSafe k none a h = h
evict_fec_set-IsSafe k (some oldest) a h = elim (Bool-cases (ltb oldest k)) [
  | inl older ↦ rw older record {
    pending = h.pending;
    boundaries = h.boundaries;
    sets = SetsLow-erase oldest a.fec_sets h.sets;
    started = h.started;
  }
  | inr newer ↦ rw newer h
]

make_room-IsSafe : (k : ℕ) (a : SlotAccumulator) → IsSafe a → IsSafe (make_room k a)
unfolding make_room
make_room-IsSafe k a h =
    elim (Bool-cases (
      not (ltb_ℤ (pos (length a.fec_sets)) a.cfg.max_fec_sets_per_slot)
      && not (has_key k a.fec_sets))) [
        | inl full ↦ rw full (evict_fec_set-IsSafe k (smallest_fec_set_key a.fec_sets) a h)
        | inr space ↦ rw space h
      ]

-- A coding shred says how many data shreds its set has only where that is not known.
record_code-num_data :
    (f : FecSetBuffer) (c : CodePush) (k : ℕ)
    → k + f.num_data ≤ max_u32
    → k + c.num_data ≤ max_u32
    → k + (record_code f c.position c.num_data c.num_coding c.coded c.variant).num_data ≤ max_u32
unfolding record_code
record_code-num_data f c k low fresh = ground arith

entry_or_new-low :
    (k n : ℕ) (d : Dict FecSetBuffer)
    → k + n ≤ max_u32
    → SetsLow d
    → k + (entry_or_new k (lookup k d)).num_data ≤ max_u32
unfolding new_fec_set_buffer
entry_or_new-low k n d low h = elim (Option-cases (lookup k d)) [
  | inl missing ↦ rw missing (omega arith)
  | inr (fec, found) ↦ rw found (SetsLow-lookup k fec d h found)
]

record_coding-IsSafe :
    (c : CodePush) (a : SlotAccumulator)
    → c.fec_set_index + c.num_data ≤ max_u32
    → IsSafe a
    → IsSafe (record_coding c a)
unfolding record_coding
record_coding-IsSafe c a low h = record {
  pending = h.pending;
  boundaries = h.boundaries;
  sets =
      SetsLow-insert c.fec_set_index _ a.fec_sets
        (record_code-num_data (entry_or_new c.fec_set_index (lookup c.fec_set_index a.fec_sets)) c
          c.fec_set_index (entry_or_new-low c.fec_set_index c.num_data a.fec_sets low h.sets) low)
        h.sets;
  started = h.started;
}

with_coding-IsSafe :
    (c : CodePush) (s : SlotState)
    → c.fec_set_index + c.num_data ≤ max_u32
    → IsSafeState s
    → IsSafeState (with_coding c s)
with_coding-IsSafe c s low h =
    record_coding-IsSafe c (make_room c.fec_set_index s.acc) low
      (make_room-IsSafe c.fec_set_index s.acc h)

-- Where no index of a slot is the largest, pushCode returns for a set that does not reach the largest
-- index, and no index of the slot is the largest then.
pub push_code-Gives :
    (now : ℕ) (c : CodePush) (s : SlotState)
    → c.fec_set_index + c.num_data ≤ max_u32
    → IsSafe s.acc
    → Gives IsSafeState (push_code now c s)
unfolding push_code
push_code-Gives now c s low h =
    let (t, filled) = try_fec_fill now c.fec_set_index (with_coding c s) in
    let safe : IsSafeState t =
      IsSafe-kept.fill now c.fec_set_index (with_coding c s) (with_coding-IsSafe c s low h) in
    elim (Bool-cases filled) [
      | inl more ↦ rw more (
          >>=-Gives IsSafeState IsSafeState (advance t) (flush now) (advance-IsSafe t safe)
            (flush-Gives now))
      | inr same ↦ rw same (flush-Gives now t safe)
    ]
