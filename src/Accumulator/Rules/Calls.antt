-- ===== src/Accumulator/Rules/Calls.antt =====
-- A property that the steps keep is kept by every call.
use shredstream_sdk_go.Prelude.{
  ℕ, zero, suc, ◌-◌, ◌≡◌, subst, List, [], ◌∷◌, Bool, true, false, ◌&&◌, some, inl, inr, Bool-cases,
  Option-cases, ltb, if◌then◌else◌, length, lookup, arith,
}
use shredstream_sdk_go.Decoder.Batch.{decode_batch}
use shredstream_sdk_go.Decoder.Streaming.{push}
use shredstream_sdk_go.Accumulator.Slot.{PendingShred, SlotState, payload, count_salvage}
use shredstream_sdk_go.Accumulator.Fill.{try_fec_fill, fill_hints}
use shredstream_sdk_go.Accumulator.Salvage.{gather_batch, deliver_batch, salvage_contiguous_runs_in}
use shredstream_sdk_go.Accumulator.Streaming.{
  is_recovered, drop_shred, give_up_batch, skip_shred, count_corrupted, take_pushed,
  advance_streaming, advance,
}
use shredstream_sdk_go.Accumulator.Flush.{
  is_short, is_stuck, close_stuck, close_decoded, fill_batch, flush_round, smallest_from,
  try_flush_batches, flush, hints_for, count_timeout,
}
use shredstream_sdk_go.Accumulator.Rules.{IsKept}
use shredstream_sdk_go.Accumulator.Rules.Quiet.{
  deliver_batch-IsQuiet, salvage-IsQuiet, count_salvage-IsQuiet, take_pushed-IsQuiet,
}

module _ (P : SlotState → Type 0) (kept : IsKept P) where
  give_up_batch-kept : (idx : ℕ) (s : SlotState) → P s → P (give_up_batch idx s)
  unfolding give_up_batch
  give_up_batch-kept idx s h =
      let (s', n) = salvage_contiguous_runs_in s.acc.batch_start (idx - 1) s in
      let counted : SlotState = record s' { acc = count_salvage n s'.acc } in
      kept.complete idx (record s' { acc = count_corrupted (count_salvage n s'.acc) })
        (kept.quiet _ counted (ground arith) (
          kept.quiet counted s' (count_salvage-IsQuiet n s')
            (kept.quiet s' s (salvage-IsQuiet s.acc.batch_start (idx - 1) s) h)))

  pub skip_shred-kept :
      (ps : PendingShred) (s : SlotState)
      → lookup s.acc.streaming_cursor s.acc.pending ≡ some ps
      → P s
      → P (skip_shred ps s)
  unfolding skip_shred
  skip_shred-kept ps s found h =
      let dropped = kept.drop ps s found h in
      elim (Bool-cases (ps.batch_complete && ltb s.acc.batch_start s.acc.streaming_cursor)) [
        | inl ends ↦ rw ends (give_up_batch-kept s.acc.streaming_cursor (drop_shred ps s) dropped)
        | inr inner ↦ rw inner dropped
      ]

  pub advance_streaming-kept :
      (fuel : ℕ) (s s' : SlotState) → advance_streaming fuel s ≡ some s' → P s → P s'
  unfolding advance_streaming
  advance_streaming-kept zero s s' e h = cc
  advance_streaming-kept (suc fuel) s s' e h =
      elim (Option-cases (lookup s.acc.streaming_cursor s.acc.pending)) [
        | inl missing ↦ let same : s ≡ s' = ground arith in subst P same h
        | inr (ps, found) ↦ elim (Bool-cases (is_recovered ps.source)) [
          | inl rebuilt ↦ let same : s ≡ s' = ground arith in subst P same h
          | inr fresh ↦ elim (Option-cases (payload ps s.pool)) [
            | inl nothing ↦
                let rest : advance_streaming fuel (skip_shred ps s) ≡ some s' = ground arith in
                advance_streaming-kept fuel (skip_shred ps s) s' rest (skip_shred-kept ps s found h)
            | inr (bytes, there) ↦
                let r = push s.acc.streaming_decoder bytes in
                let pushed = kept.quiet (take_pushed r s).0 s (take_pushed-IsQuiet r s) h in
                elim (Bool-cases
                  ((take_pushed r s).1 && (if ps.batch_complete then false else true))) [
                    | inl on ↦
                        let rest : advance_streaming fuel (take_pushed r s).0 ≡ some s' =
                          ground arith in
                        advance_streaming-kept fuel (take_pushed r s).0 s' rest pushed
                    | inr off ↦
                        let same : (take_pushed r s).0 ≡ s' = ground arith in subst P same pushed
                  ]
          ]
        ]
      ]

  pub advance-kept : (s s' : SlotState) → advance s ≡ some s' → P s → P s'
  unfolding advance
  advance-kept s s' e h = advance_streaming-kept (suc (length s.acc.pending)) s s' e h

  pub fill_hints-kept :
      (now : ℕ) (hints : List ℕ) (s : SlotState) → P s → P (fill_hints now hints s)
  unfolding fill_hints
  fill_hints-kept now [] s h = h
  fill_hints-kept now (i ∷ hints) s h =
      fill_hints-kept now hints (try_fec_fill now i s).0 (kept.fill now i s h)

  close_decoded-kept :
      (bc_idx : ℕ) (bytes : List ℕ) (s : SlotState) → P s → P (close_decoded bc_idx bytes s)
  unfolding close_decoded
  close_decoded-kept bc_idx bytes s h =
      kept.complete bc_idx (deliver_batch (decode_batch bytes) s) (
        kept.quiet (deliver_batch (decode_batch bytes) s) s
          (deliver_batch-IsQuiet (decode_batch bytes) s) h)

  close_stuck-kept : (bc_idx : ℕ) (s : SlotState) → P s → P (close_stuck bc_idx s)
  unfolding close_stuck
  close_stuck-kept bc_idx s h =
      let (s', n) = salvage_contiguous_runs_in s.acc.batch_start bc_idx s in
      let counted : SlotState = record s' { acc = count_salvage n s'.acc } in
      kept.complete bc_idx (record s' { acc = count_timeout (count_salvage n s'.acc) })
        (kept.quiet _ counted (ground arith) (
          kept.quiet counted s' (count_salvage-IsQuiet n s')
            (kept.quiet s' s (salvage-IsQuiet s.acc.batch_start bc_idx s) h)))

  fill_batch-kept : (now bc_idx : ℕ) (s : SlotState) → P s → P (fill_batch now bc_idx s)
  unfolding fill_batch
  fill_batch-kept now bc_idx s h =
      let filled = fill_hints-kept now (hints_for s.acc.batch_start bc_idx s.acc.fec_sets) s h in
      elim (Bool-cases (is_short bc_idx s)) [ inl short ↦ rw short filled | inr whole ↦ rw whole h ]

  pub flush_round-kept :
      (now bc_idx first_seen : ℕ) (s s' : SlotState) (goes_on : Bool)
      → flush_round now bc_idx first_seen s ≡ some (s', goes_on)
      → P s
      → P s'
  unfolding flush_round
  flush_round-kept now bc_idx first_seen s s' goes_on e h =
      let filled = fill_batch now bc_idx s in
      let p = fill_batch-kept now bc_idx s h in
      elim (Bool-cases (is_short bc_idx filled)) [
        | inl short ↦ elim (Bool-cases (is_stuck now first_seen filled)) [
          | inl stuck ↦
              let same : close_stuck bc_idx filled ≡ s' = ground arith in
              subst P same (close_stuck-kept bc_idx filled p)
          | inr waits ↦ let same : filled ≡ s' = ground arith in subst P same p
        ]
        | inr whole ↦
            elim (Option-cases
              (gather_batch filled.acc.batch_start bc_idx filled.acc.pending filled.pool)) [
                | inl endless ↦ absurd (ground arith)
                | inr (bytes, gathered) ↦
                    let same : close_decoded bc_idx bytes filled ≡ s' = ground arith in
                    subst P same (close_decoded-kept bc_idx bytes filled p)
              ]
      ]

  pub try_flush_batches-kept :
      (fuel now : ℕ) (s s' : SlotState) → try_flush_batches fuel now s ≡ some s' → P s → P s'
  unfolding try_flush_batches
  try_flush_batches-kept zero now s s' e h = cc
  try_flush_batches-kept (suc fuel) now s s' e h =
      elim (Option-cases (smallest_from s.acc.batch_start s.acc.batch_complete_idx)) [
        | inl closed ↦ let same : s ≡ s' = ground arith in subst P same h
        | inr ((bc_idx, seen), first) ↦ elim (Option-cases (flush_round now bc_idx seen s)) [
          | inl endless ↦ absurd (ground arith)
          | inr ((next, goes_on), round) ↦
              let p = flush_round-kept now bc_idx seen s next goes_on round h in
              elim (Bool-cases goes_on) [
                | inl on ↦
                    let rest : try_flush_batches fuel now next ≡ some s' = ground arith in
                    try_flush_batches-kept fuel now next s' rest p
                | inr off ↦ let same : next ≡ s' = ground arith in subst P same p
              ]
        ]
      ]

  pub flush-kept : (now : ℕ) (s s' : SlotState) → flush now s ≡ some s' → P s → P s'
  unfolding flush
  flush-kept now s s' e h = try_flush_batches-kept _ now s s' e h
