-- ===== src/Accumulator/Returns/Calls.antt =====
-- The calls of the accumulator return, where no index is the largest.
use shredstream_sdk_go.Prelude.{
  ℕ, suc, ◌-◌, ◌≡◌, ◌<◌, subst, List, [], ◌∷◌, ◌&&◌, none, inl, inr, Bool-cases, Option-cases, ltb,
  leb, Dict, has_key, keys, All, arith, Gives, gives, Gives-some, ◌>>=◌, >>=-Gives,
}
use shredstream_sdk_go.Saturating.{max_u32}
use shredstream_sdk_go.Accumulator.Slot.{PendingShred, SlotState}
use shredstream_sdk_go.Accumulator.Fill.{try_fec_fill, fill_hints, sort_keys, insert_sorted}
use shredstream_sdk_go.Accumulator.Salvage.{gather_batch}
use shredstream_sdk_go.Accumulator.Streaming.{advance}
use shredstream_sdk_go.Accumulator.Harvest.{
  boundaries, all_pending, harvest_batch, harvest_batches, try_harvest_tail,
}
use shredstream_sdk_go.Accumulator.Push.{
  DataPush, drop_data, pending_data, store_data, fill_ahead, push_data,
}
use shredstream_sdk_go.Accumulator.Rules.Calls.{fill_hints-kept, flush-kept}
use shredstream_sdk_go.Accumulator.Rules.Ends.{with_complete, try_harvest_tail-kept}
use shredstream_sdk_go.Accumulator.Returns.Low.{AreLow, AreLow-insert, AreLow-insert_first}
use shredstream_sdk_go.Accumulator.Returns.Safe.{IsSafe, IsSafeState, IsSafe-kept}
use shredstream_sdk_go.Accumulator.Returns.Advance.{advance-IsSafe}
use shredstream_sdk_go.Accumulator.Flush.{flush}
use shredstream_sdk_go.Accumulator.Returns.Flushed.{gather_batch_lem, flush_lem}

abbrev pub IsLow : ℕ → Type 0
IsLow k = k < max_u32

insert_sorted-All :
    (k : ℕ) (js : List ℕ) → k < max_u32 → All IsLow js → All IsLow (insert_sorted k js)
unfolding insert_sorted
insert_sorted-All k [] low h = (low, tt)
insert_sorted-All k (j ∷ js) low (first, h) = elim (Bool-cases (leb k j)) [
  | inl before ↦ rw before (low, (first, h))
  | inr behind ↦ rw behind (first, insert_sorted-All k js low h)
]

sort_keys-All : (ks : List ℕ) → All IsLow ks → All IsLow (sort_keys ks)
unfolding sort_keys
sort_keys-All [] h = tt
sort_keys-All (k ∷ ks) (first, h) = insert_sorted-All k (sort_keys ks) first (sort_keys-All ks h)

boundaries-All : (start : ℕ) (d : Dict PendingShred) → AreLow d → All IsLow (boundaries start d)
unfolding boundaries
boundaries-All start [] h = tt
boundaries-All start ((idx, ps) ∷ d) (first, h) =
    elim (Bool-cases (ps.batch_complete && leb start idx)) [
      | inl ends ↦ rw ends (first, boundaries-All start d h)
      | inr inner ↦ rw inner (boundaries-All start d h)
    ]

harvest_batch_lem :
    (bc_idx : ℕ) (s : SlotState) → bc_idx < max_u32 → ¬ (harvest_batch bc_idx s ≡ none)
unfolding harvest_batch
harvest_batch_lem bc_idx s low e = elim (Bool-cases (ltb bc_idx s.acc.batch_start)) [
  | inl old ↦ absurd (ground arith)
  | inr open_batch ↦
      elim (Bool-cases
        (all_pending (suc (bc_idx - s.acc.batch_start)) s.acc.batch_start s.acc.pending)) [
          | inr broken ↦ absurd (ground arith)
          | inl whole ↦
              elim (Option-cases (gather_batch s.acc.batch_start bc_idx s.acc.pending s.pool)) [
                | inl endless ↦
                    gather_batch_lem s.acc.batch_start bc_idx s.acc.pending s.pool low endless
                | inr (bytes, gathered) ↦ absurd (ground arith)
              ]
        ]
]

harvest_batches_lem : (bs : List ℕ) (s : SlotState) → All IsLow bs → ¬ (harvest_batches bs s ≡ none)
unfolding harvest_batches
harvest_batches_lem [] s all e = absurd (ground arith)
harvest_batches_lem (b ∷ bs) s (low, all) e = elim (Option-cases (harvest_batch b s)) [
  | inl endless ↦ harvest_batch_lem b s low endless
  | inr (t, round) ↦ harvest_batches_lem bs t all (ground arith)
]

-- Where no index of a slot is the largest, tryHarvestTail returns, and none is then either.
pub try_harvest_tail-Gives :
    (now : ℕ) (s : SlotState) → IsSafe s.acc → Gives IsSafeState (try_harvest_tail now s)
unfolding try_harvest_tail
try_harvest_tail-Gives now s h =
    gives IsSafeState (try_harvest_tail now s)
      (λ e.
        let filled = fill_hints now (keys s.acc.fec_sets) s in
        let safe = fill_hints-kept IsSafeState IsSafe-kept now (keys s.acc.fec_sets) s h in
        let bs = sort_keys (boundaries filled.acc.batch_start filled.acc.pending) in
        let low =
          sort_keys-All _ (boundaries-All filled.acc.batch_start filled.acc.pending safe.pending) in
        elim (Option-cases (harvest_batches bs filled)) [
          | inl endless ↦ harvest_batches_lem bs filled low endless
          | inr (t, ended) ↦ absurd (ground arith)
        ])
      (λ s' e. try_harvest_tail-kept IsSafeState IsSafe-kept now s s' e h)

store_data-IsSafe :
    (now : ℕ) (d : DataPush) (s : SlotState)
    → d.index < max_u32
    → IsSafeState s
    → IsSafeState (store_data now d s)
unfolding store_data
store_data-IsSafe now d s low h = record {
  pending = AreLow-insert d.index (pending_data d) s.acc.pending low h.pending;
  boundaries =
      AreLow-insert_first d.batch_complete d.index now s.acc.batch_complete_idx low h.boundaries;
  sets = h.sets;
  started = h.started;
}

with_complete-IsSafe : (s : SlotState) → IsSafeState s → IsSafeState (with_complete s)
with_complete-IsSafe s h = record {
  pending = h.pending;
  boundaries = h.boundaries;
  sets = h.sets;
  started = h.started;
}

drop_data-IsSafe : (d : DataPush) (s : SlotState) → IsSafeState s → IsSafeState (drop_data d s)
drop_data-IsSafe d s h = record {
  pending = h.pending;
  boundaries = h.boundaries;
  sets = h.sets;
  started = h.started;
}

pub flush-Gives : (now : ℕ) (s : SlotState) → IsSafeState s → Gives IsSafeState (flush now s)
flush-Gives now s h =
    gives IsSafeState (flush now s) (flush_lem now s h)
      (λ s' e. flush-kept IsSafeState IsSafe-kept now s s' e h)

fill_ahead-Gives :
    (now : ℕ) (d : DataPush) (s : SlotState)
    → IsSafeState s
    → Gives IsSafeState (fill_ahead now d s)
unfolding fill_ahead
fill_ahead-Gives now d s h = elim (Bool-cases (leb s.acc.streaming_cursor d.index)) [
  | inr behind ↦ rw behind (Gives-some IsSafeState s h)
  | inl ahead ↦
      let t = (try_fec_fill now d.fec_set_index s).0 in
      let safe : IsSafeState t = IsSafe-kept.fill now d.fec_set_index s h in
      elim (Bool-cases (try_fec_fill now d.fec_set_index s).1) [
        | inl filled ↦ rw (ahead, filled) (advance-IsSafe t safe)
        | inr still ↦ rw (ahead, still) (Gives-some IsSafeState t safe)
      ]
]

-- Where no index of a slot is the largest, pushData returns for an index that is not the largest, and no
-- index of the slot is the largest then.
pub push_data-Gives :
    (now : ℕ) (d : DataPush) (s : SlotState)
    → d.index < max_u32
    → IsSafe s.acc
    → Gives IsSafeState (push_data now d s)
unfolding push_data
push_data-Gives now d s low h =
    let dropped = drop_data-IsSafe d s h in
    elim (Bool-cases d.last_in_slot) [
      | inl last ↦
          let complete = drop_data-IsSafe d (with_complete s) (with_complete-IsSafe s h) in
          rw last (flush-Gives now (drop_data d (with_complete s)) complete)
      | inr inner ↦ elim (Bool-cases (ltb d.index s.acc.batch_start)) [
        | inl old ↦ rw (inner, old) (Gives-some IsSafeState (drop_data d s) dropped)
        | inr open_batch ↦ elim (Bool-cases (has_key d.index s.acc.pending)) [
          | inl known ↦
              rw (inner, open_batch, known) (Gives-some IsSafeState (drop_data d s) dropped)
          | inr new ↦
              let stored = store_data-IsSafe now d s low h in
              let filled =
                >>=-Gives IsSafeState IsSafeState (advance (store_data now d s)) (fill_ahead now d)
                  (advance-IsSafe (store_data now d s) stored) (fill_ahead-Gives now d) in
              let same : (advance (store_data now d s) >>= fill_ahead now d >>= flush now)
                  ≡ push_data now d s =
                ground arith in
              subst (Gives IsSafeState) same
                (>>=-Gives IsSafeState IsSafeState _ (flush now) filled (flush-Gives now))
        ]
      ]
    ]
