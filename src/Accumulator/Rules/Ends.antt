-- ===== src/Accumulator/Rules/Ends.antt =====
-- The rules for pushData, pushCode and tryHarvestTail.
use shredstream_sdk_go.Prelude.{
  ℕ, suc, ◌-◌, ◌≡◌, subst, List, [], ◌∷◌, true, false, some, inl, inr, Bool-cases, Option-cases,
  ltb, leb, has_key, keys, arith, ◌>>=◌, >>=-eq-some,
}
use shredstream_sdk_go.Decoder.Batch.{decode_batch}
use shredstream_sdk_go.Accumulator.Slot.{SlotState, complete_batch, count_salvage}
use shredstream_sdk_go.Accumulator.Fill.{try_fec_fill, fill_hints, sort_keys}
use shredstream_sdk_go.Accumulator.Salvage.{gather_batch, deliver_batch, salvage_contiguous_runs_in}
use shredstream_sdk_go.Accumulator.Streaming.{advance}
use shredstream_sdk_go.Accumulator.Flush.{flush}
use shredstream_sdk_go.Accumulator.Harvest.{
  all_pending, salvage_batch, harvest_batch, harvest_batches, harvest_rest, finish_harvest,
  try_harvest_tail, boundaries,
}
use shredstream_sdk_go.Accumulator.Push.{
  DataPush, CodePush, drop_data, store_data, fill_ahead, push_data, record_coding, make_room,
  push_code,
}
use shredstream_sdk_go.Accumulator.Rules.{IsKept}
use shredstream_sdk_go.Accumulator.Rules.Quiet.{
  deliver_batch-IsQuiet, salvage-IsQuiet, count_salvage-IsQuiet, harvest_rest-IsQuiet,
  finish_harvest-IsQuiet,
}
use shredstream_sdk_go.Accumulator.Rules.Calls.{advance-kept, flush-kept, fill_hints-kept}

-- The accumulator with the new coding shred, before tryFecFill.
abbrev pub with_coding : CodePush → SlotState → SlotState
with_coding c s = record s { acc = record_coding c (make_room c.fec_set_index s.acc) }

abbrev pub with_complete : SlotState → SlotState
with_complete s = record s { acc = record s.acc { slot_complete = true } }

module _ (P : SlotState → Type 0) (kept : IsKept P) where
  pub harvest_batch-kept :
      (bc_idx : ℕ) (s s' : SlotState) → harvest_batch bc_idx s ≡ some s' → P s → P s'
  unfolding harvest_batch salvage_batch
  harvest_batch-kept bc_idx s s' e h = elim (Bool-cases (ltb bc_idx s.acc.batch_start)) [
    | inl old ↦ let same : s ≡ s' = ground arith in subst P same h
    | inr open_batch ↦
        elim (Bool-cases
          (all_pending (suc (bc_idx - s.acc.batch_start)) s.acc.batch_start s.acc.pending)) [
            | inl whole ↦
                elim (Option-cases (gather_batch s.acc.batch_start bc_idx s.acc.pending s.pool)) [
                  | inl endless ↦ absurd (ground arith)
                  | inr (bytes, gathered) ↦
                      let decoded = deliver_batch (decode_batch bytes) s in
                      let same : complete_batch bc_idx decoded ≡ s' = ground arith in
                      subst P same (
                        kept.complete bc_idx decoded
                          (kept.quiet decoded s (deliver_batch-IsQuiet (decode_batch bytes) s) h))
                ]
            | inr broken ↦
                let (t, n) = salvage_contiguous_runs_in s.acc.batch_start bc_idx s in
                let counted : SlotState = record t { acc = count_salvage n t.acc } in
                let same : complete_batch bc_idx counted ≡ s' = ground arith in
                subst P same (
                  kept.complete bc_idx counted (
                    kept.quiet counted t (count_salvage-IsQuiet n t)
                      (kept.quiet t s (salvage-IsQuiet s.acc.batch_start bc_idx s) h)))
          ]
  ]

  harvest_batches-kept :
      (bs : List ℕ) (s s' : SlotState) → harvest_batches bs s ≡ some s' → P s → P s'
  unfolding harvest_batches
  harvest_batches-kept [] s s' e h = let same : s ≡ s' = ground arith in subst P same h
  harvest_batches-kept (b ∷ bs) s s' e h = elim (Option-cases (harvest_batch b s)) [
    | inl endless ↦ absurd (ground arith)
    | inr (t, round) ↦
        let rest : harvest_batches bs t ≡ some s' = ground arith in
        harvest_batches-kept bs t s' rest (harvest_batch-kept b s t round h)
  ]

  pub try_harvest_tail-kept :
      (now : ℕ) (s s' : SlotState) → try_harvest_tail now s ≡ some s' → P s → P s'
  unfolding try_harvest_tail
  try_harvest_tail-kept now s s' e h =
      let filled = fill_hints now (keys s.acc.fec_sets) s in
      let p = fill_hints-kept P kept now (keys s.acc.fec_sets) s h in
      let bs = sort_keys (boundaries filled.acc.batch_start filled.acc.pending) in
      elim (Option-cases (harvest_batches bs filled)) [
        | inl endless ↦ absurd (ground arith)
        | inr (t, ended) ↦
            let q = harvest_batches-kept bs filled t ended p in
            let is = sort_keys (keys t.acc.pending) in
            let same : finish_harvest (harvest_rest is t) ≡ s' = ground arith in
            subst P same (
              kept.quiet _ (harvest_rest is t) (finish_harvest-IsQuiet (harvest_rest is t))
                (kept.quiet _ t (harvest_rest-IsQuiet is t) q))
      ]

  pub fill_ahead-kept :
      (now : ℕ) (d : DataPush) (s s' : SlotState) → fill_ahead now d s ≡ some s' → P s → P s'
  unfolding fill_ahead
  fill_ahead-kept now d s s' e h = elim (Bool-cases (leb s.acc.streaming_cursor d.index)) [
    | inr behind ↦ let same : s ≡ s' = ground arith in subst P same h
    | inl ahead ↦
        let p = kept.fill now d.fec_set_index s h in
        let t = (try_fec_fill now d.fec_set_index s).0 in
        elim (Bool-cases (try_fec_fill now d.fec_set_index s).1) [
          | inl filled ↦ advance-kept P kept t s' (ground arith) p
          | inr still ↦ let same : t ≡ s' = ground arith in subst P same p
        ]
  ]

  -- The property of the state with the shred dropped, or stored where its index is new in the batch.
  pub push_data-kept :
      (now : ℕ) (d : DataPush) (s s' : SlotState)
      → push_data now d s ≡ some s'
      → P (drop_data d s)
      → (has_key d.index s.acc.pending ≡ false → P (store_data now d s))
      → P s'
  unfolding push_data
  push_data-kept now d s s' e dropped stored = elim (Bool-cases d.last_in_slot) [
    | inl last ↦
        let flushed : flush now (drop_data d (with_complete s)) ≡ some s' = ground arith in
        flush-kept P kept now (drop_data d (with_complete s)) s' flushed
          (kept.quiet _ (drop_data d s) (ground arith) dropped)
    | inr inner ↦ elim (Bool-cases (ltb d.index s.acc.batch_start)) [
      | inl old ↦ let same : drop_data d s ≡ s' = ground arith in subst P same dropped
      | inr open_batch ↦ elim (Bool-cases (has_key d.index s.acc.pending)) [
        | inl known ↦ let same : drop_data d s ≡ s' = ground arith in subst P same dropped
        | inr new ↦
            let stored_shred = store_data now d s in
            let all : (advance stored_shred >>= fill_ahead now d >>= flush now) ≡ some s' =
              ground arith in
            let (filled, both, flushed) = >>=-eq-some _ (flush now) all in
            let (ahead, first, second) =
              >>=-eq-some (advance stored_shred) (fill_ahead now d) both in
            flush-kept P kept now filled s' flushed (
              fill_ahead-kept now d ahead filled second
                (advance-kept P kept stored_shred ahead first (stored new)))
      ]
    ]
  ]

  pub push_code-kept :
      (now : ℕ) (c : CodePush) (s s' : SlotState)
      → push_code now c s ≡ some s'
      → P (with_coding c s)
      → P s'
  unfolding push_code
  push_code-kept now c s s' e h =
      let (t, filled) = try_fec_fill now c.fec_set_index (with_coding c s) in
      let p = kept.fill now c.fec_set_index (with_coding c s) h in
      elim (Bool-cases filled) [
        | inl more ↦
            let both : (advance t >>= flush now) ≡ some s' = ground arith in
            let (ahead, first, flushed) = >>=-eq-some (advance t) (flush now) both in
            flush-kept P kept now ahead s' flushed (advance-kept P kept t ahead first p)
        | inr same ↦
            let flushed : flush now t ≡ some s' = ground arith in
            flush-kept P kept now t s' flushed p
      ]
