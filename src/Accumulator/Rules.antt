-- ===== src/Accumulator/Rules.antt =====
-- Rules for what every call of the accumulator keeps: it is enough to look at the steps that change the
-- shreds, the sets or the pool.
pub mod Quiet
pub mod Calls
pub mod Ends
use shredstream_sdk_go.Prelude.{
  ℕ, zero, suc, ◌≡◌, refl, ◌∙◌, List, [], ◌∷◌, Bool, true, false, ◌&&◌, Option, none, some, inl,
  inr, Bool-cases, Option-cases, ltb, if◌then◌else◌, lookup,
}
use shredstream_sdk_go.Accumulator.Slot.{PendingShred, SlotState, complete_batch}
use shredstream_sdk_go.Accumulator.Fill.{try_fec_fill}
use shredstream_sdk_go.Accumulator.Streaming.{drop_shred}

-- What the steps that only deliver transactions and count leave as it was.
pub record IsQuiet (new old : SlotState) : Type 0 where
  pub pool : new.pool ≡ old.pool
  pub cache : new.cache ≡ old.cache
  pub pending : new.acc.pending ≡ old.acc.pending
  pub fec_sets : new.acc.fec_sets ≡ old.acc.fec_sets
  pub batch_complete_idx : new.acc.batch_complete_idx ≡ old.acc.batch_complete_idx
  pub batch_start : new.acc.batch_start ≡ old.acc.batch_start
  pub cfg : new.acc.cfg ≡ old.acc.cfg

pub IsQuiet-refl : (s : SlotState) → IsQuiet s s
IsQuiet-refl s = record {
  pool = refl;
  cache = refl;
  pending = refl;
  fec_sets = refl;
  batch_complete_idx = refl;
  batch_start = refl;
  cfg = refl;
}

pub IsQuiet-trans : (a b c : SlotState) → IsQuiet a b → IsQuiet b c → IsQuiet a c
IsQuiet-trans a b c h k = record {
  pool = h.pool ∙ k.pool;
  cache = h.cache ∙ k.cache;
  pending = h.pending ∙ k.pending;
  fec_sets = h.fec_sets ∙ k.fec_sets;
  batch_complete_idx = h.batch_complete_idx ∙ k.batch_complete_idx;
  batch_start = h.batch_start ∙ k.batch_start;
  cfg = h.cfg ∙ k.cfg;
}

-- A property that the steps keep.
pub record IsKept (P : SlotState → Type 0) : Type 0 where
  pub quiet : (new old : SlotState) → IsQuiet new old → P old → P new
  pub fill : (now hint : ℕ) (s : SlotState) → P s → P (try_fec_fill now hint s).0
  pub complete : (bc_idx : ℕ) (s : SlotState) → P s → P (complete_batch bc_idx s)
  pub drop :
      (ps : PendingShred) (s : SlotState)
      → lookup s.acc.streaming_cursor s.acc.pending ≡ some ps
      → P s
      → P (drop_shred ps s)
