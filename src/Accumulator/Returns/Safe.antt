-- ===== src/Accumulator/Returns/Safe.antt =====
-- No index of a slot is the largest, and no step makes one.
use shredstream_sdk_go.Prelude.{
  ℕ, ◌+◌, ◌%◌, ◌^◌, ◌≤◌, ◌<◌, List, [], ◌∷◌, Bool, false, ◌||◌, some, inl, inr, Bool-cases,
  Option-cases, ltb, ◌==◌, lookup, has_key, All, arith,
}
use shredstream_sdk_go.Saturating.{max_u32, saturating_add_u32}
use shredstream_sdk_go.Parser
use shredstream_sdk_go.Parser.{Parsed, ShredKind, data_shred, code_shred, parse_kind}
use shredstream_sdk_go.Fec
use shredstream_sdk_go.Fec.{Coded, ReedSolomon}
use shredstream_sdk_go.Accumulator.FecSet.{FecSetBuffer}
use shredstream_sdk_go.Accumulator.Recovery.{DataShredRef, try_reconstruct}
use shredstream_sdk_go.Accumulator.Slot.{PendingShred, SlotAccumulator, SlotState, complete_batch}
use shredstream_sdk_go.Accumulator.Fill.{
  data_refs, place_recovered, fill_one, fill_pending, fill_recovered, fill_set,
  select_recoverable_set, try_fec_fill,
}
use shredstream_sdk_go.Accumulator.Streaming.{drop_shred}
use shredstream_sdk_go.Accumulator.Rules.{IsKept}
use shredstream_sdk_go.Accumulator.Returns.Low.{
  IsIn, AllIn, try_reconstruct-AllIn, AreLow, SetsLow, AreLow-insert, AreLow-insert_first,
  AreLow-erase, AreLow-keep_if, AreLow-release_below, SetsLow-erase, SetsLow-keep_if,
  SetsLow-lookup,
}

-- No index of the accumulator is the largest.
pub record IsSafe (a : SlotAccumulator) : Type 0 where
  pub pending : AreLow a.pending
  pub boundaries : AreLow a.batch_complete_idx
  pub sets : SetsLow a.fec_sets
  pub started : a.batch_start ≤ max_u32

abbrev pub IsSafeState : SlotState → Type 0
IsSafeState s = IsSafe s.acc

place_recovered-IsSafe :
    (now set_idx idx : ℕ) (raw : List ℕ) (r : Parsed ShredKind) (a : SlotAccumulator)
    → idx < max_u32
    → IsSafe a
    → IsSafe (place_recovered now set_idx idx raw r a).0
place_recovered-IsSafe now set_idx idx raw (Parser.err e) a low h = h
place_recovered-IsSafe now set_idx idx raw (Parser.ok (code_shred c)) a low h = h
place_recovered-IsSafe now set_idx idx raw (Parser.ok (data_shred d)) a low h =
    elim (Bool-cases d.last_in_slot) [
      | inl last ↦ rw last record {
        pending = h.pending;
        boundaries = h.boundaries;
        sets = h.sets;
        started = h.started;
      }
      | inr inner ↦ rw inner record {
        pending = AreLow-insert idx _ a.pending low h.pending;
        boundaries =
            AreLow-insert_first d.batch_complete idx now a.batch_complete_idx low h.boundaries;
        sets = h.sets;
        started = h.started;
      }
    ]

fill_one-IsSafe :
    (now set_idx idx : ℕ) (raw : List ℕ) (a : SlotAccumulator)
    → idx < max_u32
    → IsSafe a
    → IsSafe (fill_one now set_idx idx raw a).0
fill_one-IsSafe now set_idx idx raw a low h = elim (Bool-cases (ltb idx a.batch_start)) [
  | inl old ↦ rw old h
  | inr open_batch ↦ elim (Bool-cases (has_key idx a.pending)) [
    | inl known ↦ rw open_batch (rw known h)
    | inr new ↦
        rw open_batch (rw new (place_recovered-IsSafe now set_idx idx raw (parse_kind raw) a low h))
  ]
]

fill_pending-IsSafe :
    (now set_idx n : ℕ) (refs : List DataShredRef) (a : SlotAccumulator) (any : Bool)
    → set_idx + n ≤ max_u32
    → All (IsIn n) refs
    → IsSafe a
    → IsSafe (fill_pending now set_idx refs a any).0
unfolding fill_pending
fill_pending-IsSafe now set_idx n [] a any low all h = h
fill_pending-IsSafe now set_idx n (r ∷ refs) a any low (first, all) h =
    let idx = (set_idx + r.pos) % 2 ^ 32 in
    fill_pending-IsSafe now set_idx n refs (fill_one now set_idx idx r.raw a).0
      (any || (fill_one now set_idx idx r.raw a).1) low all
      (fill_one-IsSafe now set_idx idx r.raw a (omega arith) h)

fill_recovered-IsSafe :
    (now set_idx n : ℕ) (refs : Coded (List DataShredRef)) (a : SlotAccumulator)
    → set_idx + n ≤ max_u32
    → AllIn n refs
    → IsSafe a
    → IsSafe (fill_recovered now set_idx refs a).0
fill_recovered-IsSafe now set_idx n (Fec.err e) a low all h = record {
  pending = h.pending;
  boundaries = h.boundaries;
  sets = h.sets;
  started = h.started;
}
fill_recovered-IsSafe now set_idx n (Fec.ok refs) a low all h =
    let p = fill_pending-IsSafe now set_idx n refs a false low all h in
    elim (Bool-cases (fill_pending now set_idx refs a false).1) [
      | inr none_new ↦ rw none_new p
      | inl new ↦ rw new record {
        pending = p.pending;
        boundaries = p.boundaries;
        sets = SetsLow-erase set_idx _ p.sets;
        started = p.started;
      }
    ]

fill_set-IsSafe :
    (now set_idx : ℕ) (fec : FecSetBuffer) (s : SlotState)
    → set_idx + fec.num_data ≤ max_u32
    → IsSafeState s
    → IsSafeState (fill_set now set_idx (some fec) s).0
fill_set-IsSafe now set_idx fec s low h = elim (Bool-cases (fec.num_data == 0)) [
  | inl blank ↦ rw blank h
  | inr set_up ↦
      let refs = data_refs set_idx fec.num_data s.acc.pending s.pool in
      rw set_up (
        fill_recovered-IsSafe now set_idx fec.num_data (try_reconstruct fec refs s.cache).1 s.acc
          low (try_reconstruct-AllIn fec refs s.cache) h)
]

try_fec_fill-IsSafe :
    (now hint : ℕ) (s : SlotState) → IsSafeState s → IsSafeState (try_fec_fill now hint s).0
unfolding try_fec_fill
try_fec_fill-IsSafe now hint s h = elim (Option-cases (select_recoverable_set s.acc hint)) [
  | inl nothing ↦ rw nothing h
  | inr (set_idx, chosen) ↦ elim (Option-cases (lookup set_idx s.acc.fec_sets)) [
    | inl missing ↦ rw chosen (rw missing h)
    | inr (fec, found) ↦ rw chosen (
        rw found (
          fill_set-IsSafe now set_idx fec s (SetsLow-lookup set_idx fec s.acc.fec_sets h.sets found)
            h))
  ]
]

drop_shred-IsSafe :
    (ps : PendingShred) (s : SlotState) → IsSafeState s → IsSafeState (drop_shred ps s)
unfolding drop_shred
drop_shred-IsSafe ps s h =
    let cursor = s.acc.streaming_cursor in
    record {
      pending = AreLow-erase cursor s.acc.pending h.pending;
      boundaries = elim (Bool-cases ps.batch_complete) [
        | inl ends ↦ rw ends (AreLow-erase cursor s.acc.batch_complete_idx h.boundaries)
        | inr inner ↦ rw inner h.boundaries
      ];
      sets = h.sets;
      started = h.started;
    }

complete_batch-IsSafe :
    (bc_idx : ℕ) (s : SlotState) → IsSafeState s → IsSafeState (complete_batch bc_idx s)
unfolding complete_batch saturating_add_u32
complete_batch-IsSafe bc_idx s h = record {
  pending = AreLow-release_below _ s.acc.pending s.pool h.pending;
  boundaries = AreLow-keep_if _ s.acc.batch_complete_idx h.boundaries;
  sets = SetsLow-keep_if _ s.acc.fec_sets h.sets;
  started = ground arith;
}

pub IsSafe-kept : IsKept IsSafeState
IsSafe-kept = record {
  quiet = λ new old q h. record {
    pending = rw q.pending h.pending;
    boundaries = rw q.batch_complete_idx h.boundaries;
    sets = rw q.fec_sets h.sets;
    started = rw q.batch_start h.started;
  };
  fill = try_fec_fill-IsSafe;
  complete = complete_batch-IsSafe;
  drop = λ ps s found h. drop_shred-IsSafe ps s h;
}
