-- ===== src/Accumulator/Returns/Endless.antt =====
-- The batch that ends at the largest index is never closed.
use shredstream_sdk_go.Prelude.{
  ℕ, zero, suc, ◌+◌, ◌-◌, ◌≡◌, ◌≤◌, ◌⊎◌, refl, ap, ◌∙◌, [], ◌∷◌, true, not, none, some, inl, inr,
  Bool-cases, Option-cases, ltb, Dict, keep_if, arith, dec_lt,
}
use shredstream_sdk_go.Saturating.{max_u32, saturating_add_u32}
use shredstream_sdk_go.Accumulator.Slot.{SlotState, set_stays, complete_batch, count_salvage}
use shredstream_sdk_go.Accumulator.Fill.{fill_hints}
use shredstream_sdk_go.Accumulator.Salvage.{gather_batch, salvage_contiguous_runs_in}
use shredstream_sdk_go.Accumulator.Flush.{
  smallest_from, hints_for, is_short, is_stuck, fill_batch, close_stuck, flush_round,
  try_flush_batches, count_timeout,
}
use shredstream_sdk_go.Accumulator.Rules.{IsQuiet, IsQuiet-trans}
use shredstream_sdk_go.Accumulator.Rules.Quiet.{salvage-IsQuiet, count_salvage-IsQuiet}
use shredstream_sdk_go.Accumulator.Returns.{gather_endless}

-- The entries that completeBatch keeps.
abbrev kept_from : ℕ → Dict ℕ → Dict ℕ
kept_from m d = keep_if (λ k _. not (ltb k m)) d

smallest_from-none :
    (start m : ℕ) (d : Dict ℕ)
    → smallest_from start d ≡ none
    → start ≤ m
    → smallest_from m (kept_from m d) ≡ none
unfolding smallest_from
smallest_from-none start m [] e h = refl
smallest_from-none start m ((idx, t) ∷ d) e h = elim (Option-cases (smallest_from start d)) [
  | inl no_rest ↦ let ih = smallest_from-none start m d no_rest h in ground arith
  | inr ((a, b), rest) ↦ absurd (ground arith)
]

smallest_from-keep_if :
    (start m a b : ℕ) (d : Dict ℕ)
    → smallest_from start d ≡ some (a, b)
    → start ≤ m
    → m ≤ a
    → smallest_from m (kept_from m d) ≡ some (a, b)
unfolding smallest_from
smallest_from-keep_if start m a b [] e h k = cc
smallest_from-keep_if start m a b ((idx, t) ∷ d) e h k =
    elim (Option-cases (smallest_from start d)) [
      | inl no_rest ↦ let ih = smallest_from-none start m d no_rest h in ground arith
      | inr ((a', b'), rest) ↦
          let ih = λ (low : m ≤ a'). smallest_from-keep_if start m a' b' d rest h low in
          elim (dec_lt a' m) [
            | yes less ↦ ground arith
            | no more ↦ let ih' = ih (omega arith) in ground arith
          ]
    ]

-- The next batch to be closed ends at the largest index, it has been waiting for as long as a stuck
-- batch has, and no FEC set can add a shred.
pub record IsDoomed (now seen : ℕ) (s : SlotState) : Type 0 where
  pub no_sets : s.acc.fec_sets ≡ []
  pub started : s.acc.batch_start ≤ max_u32
  pub last : smallest_from s.acc.batch_start s.acc.batch_complete_idx ≡ some (max_u32, seen)
  pub waited : is_stuck now seen s ≡ true

complete_batch-IsDoomed :
    (now seen : ℕ) (new old : SlotState)
    → IsQuiet new old
    → IsDoomed now seen old
    → IsDoomed now seen (complete_batch max_u32 new)
unfolding complete_batch saturating_add_u32
complete_batch-IsDoomed now seen new old q h = record {
  no_sets = ap (keep_if (set_stays max_u32)) (q.fec_sets ∙ h.no_sets);
  started = omega arith;
  last = rw q.batch_complete_idx (
      smallest_from-keep_if old.acc.batch_start max_u32 max_u32 seen old.acc.batch_complete_idx
        h.last h.started (omega arith));
  waited = rw q.cfg h.waited;
}

close_stuck-IsDoomed :
    (now seen : ℕ) (s : SlotState) → IsDoomed now seen s → IsDoomed now seen (close_stuck max_u32 s)
unfolding close_stuck
close_stuck-IsDoomed now seen s h =
    let (s', n) = salvage_contiguous_runs_in s.acc.batch_start max_u32 s in
    let counted : SlotState = record s' { acc = count_salvage n s'.acc } in
    let timed_out : SlotState = record s' { acc = count_timeout (count_salvage n s'.acc) } in
    complete_batch-IsDoomed now seen timed_out s
      (IsQuiet-trans timed_out counted s (ground arith) (
        IsQuiet-trans counted s' s (count_salvage-IsQuiet n s')
          (salvage-IsQuiet s.acc.batch_start max_u32 s)))
      h

fill_batch-no_sets :
    (now bc_idx : ℕ) (s : SlotState) → s.acc.fec_sets ≡ [] → fill_batch now bc_idx s ≡ s
unfolding fill_batch hints_for fill_hints
fill_batch-no_sets now bc_idx s h = elim (Bool-cases (is_short bc_idx s)) [
  | inr whole ↦ rw whole
  | inl short ↦ rw short (rw h)
]

-- A round on the doomed batch does not end, or leaves a doomed batch and goes on.
round-IsDoomed :
    (now seen : ℕ) (s : SlotState)
    → IsDoomed now seen s
    → (flush_round now max_u32 seen s ≡ none)
      ⊎ (flush_round now max_u32 seen s ≡ some (close_stuck max_u32 s, true))
unfolding flush_round gather_batch
round-IsDoomed now seen s h =
    let filled = fill_batch-no_sets now max_u32 s h.no_sets in
    elim (Bool-cases (is_short max_u32 s)) [
      | inl short ↦ inr (rw filled (rw short (rw h.waited)))
      | inr whole ↦
          let endless =
            gather_endless (max_u32 - s.acc.batch_start + 2) s.acc.batch_start s.acc.pending s.pool
              [] h.started in
          inl (rw filled (rw whole (rw endless)))
    ]

-- When the next batch to be closed ends at the index 0xFFFFFFFF and has waited for the time after which
-- it counts as stuck, and no FEC set is known, tryFlushBatches does not return, whatever the fuel.
pub try_flush_batches_endless :
    (fuel now seen : ℕ) (s : SlotState) → IsDoomed now seen s → try_flush_batches fuel now s ≡ none
unfolding try_flush_batches
try_flush_batches_endless zero now seen s h = refl
try_flush_batches_endless (suc fuel) now seen s h = elim (round-IsDoomed now seen s h) [
  | inl endless ↦ rw (h.last, endless, try_flush_batches)
  | inr again ↦
      rw (h.last, again, try_flush_batches)
        (try_flush_batches_endless fuel now seen (close_stuck max_u32 s)
          (close_stuck-IsDoomed now seen s h))
]
