-- ===== src/Accumulator/Returns/Advance.antt =====
-- advanceStreaming returns.
use shredstream_sdk_go.Prelude.{
  ℕ, zero, suc, ◌-◌, ◌≡◌, ◌≤◌, ◌<◌, refl, sym, subst, ap₂, ◌∙◌, List, [], ◌∷◌, ◌++◌, true, false,
  ◌&&◌, some, inl, inr, Bool-cases, Option-cases, ltb, if◌then◌else◌, length, lookup, arith, Gives,
}
use shredstream_sdk_go.Saturating.{max_u32}
use shredstream_sdk_go.Decoder.Types.{VersionedTransaction, Signature}
use shredstream_sdk_go.Decoder.Batch.{Decoded, ok, err, decode_concatenated}
use shredstream_sdk_go.Decoder.Streaming.{StreamingDecoder, push}
use shredstream_sdk_go.Accumulator.Slot.{
  PendingShred, deliver, record_sig, record_first, SlotState, payload, next_u32, count_salvage,
}
use shredstream_sdk_go.Accumulator.Rules.Quiet.{take_pushed-IsQuiet, salvage_runs-IsQuiet}
use shredstream_sdk_go.Accumulator.Rules.Calls.{skip_shred-kept, advance-kept}
use shredstream_sdk_go.Accumulator.Returns.Safe.{IsSafe, IsSafeState, IsSafe-kept}
use shredstream_sdk_go.Accumulator.Salvage.{
  deliver_run, salvage_runs, or_nothing, salvage_contiguous_runs_in,
}
use shredstream_sdk_go.Accumulator.Streaming.{
  is_recovered, drop_shred, give_up_batch, skip_shred, take_pushed, advance_streaming, advance,
  move_on, count_corrupted,
}
use shredstream_sdk_go.Accumulator.Returns.Ahead.{
  ahead, ahead-length, ahead-found, ahead-erase, left, complete_batch-left, low_key,
}

-- Deliveries do not move the cursor.
deliver-cursor :
    (txs : List VersionedTransaction) (s : SlotState)
    → (deliver txs s).0.acc.streaming_cursor ≡ s.acc.streaming_cursor
unfolding deliver record_sig
deliver-cursor [] s = refl
deliver-cursor (tx ∷ txs) s = deliver-cursor txs _ ∙ first tx.signatures
  where
    first :
        (sigs : List Signature)
        → (record_first sigs s.acc).0.streaming_cursor ≡ s.acc.streaming_cursor
    first [] = refl
    first (sig ∷ sigs) = ground arith

deliver_run-cursor :
    (scratch : List ℕ) (s : SlotState)
    → (deliver_run scratch s).0.acc.streaming_cursor ≡ s.acc.streaming_cursor
unfolding deliver_run
deliver_run-cursor [] s = refl
deliver_run-cursor (b ∷ scratch) s = deliver-cursor (decode_concatenated (b ∷ scratch)) s

salvage_runs-cursor :
    (n cursor : ℕ) (scratch : List ℕ) (s : SlotState)
    → (salvage_runs n cursor scratch s).0.acc.streaming_cursor ≡ s.acc.streaming_cursor
unfolding salvage_runs
salvage_runs-cursor zero cursor scratch s = deliver_run-cursor scratch s
salvage_runs-cursor (suc n) cursor scratch s = elim (Option-cases (lookup cursor s.acc.pending)) [
  | inr (ps, found) ↦
      rw (found, salvage_runs)
        (salvage_runs-cursor n (suc cursor) (scratch ++ or_nothing (payload ps s.pool)) s)
  | inl gap ↦
      rw (gap, salvage_runs)
        (salvage_runs-cursor n (suc cursor) [] (deliver_run scratch s).0
          ∙ deliver_run-cursor scratch s)
]

drop_shred-left :
    (ps : PendingShred) (s : SlotState)
    → lookup s.acc.streaming_cursor s.acc.pending ≡ some ps
    → s.acc.streaming_cursor < max_u32
    → suc (left (drop_shred ps s)) ≤ left s
unfolding drop_shred
drop_shred-left ps s found low =
    let c = s.acc.streaming_cursor in
    let step : next_u32 c ≡ suc c = omega arith in
    let less = ahead-erase (suc c) c s.acc.pending in
    let fewer = ahead-found c ps s.acc.pending found in rw step (omega arith)

salvage-left :
    (start last : ℕ) (s : SlotState) → left (salvage_contiguous_runs_in start last s).0 ≡ left s
unfolding salvage_contiguous_runs_in
salvage-left start last s =
    ap₂ ahead (salvage_runs-cursor (suc last - start) start [] s)
      (salvage_runs-IsQuiet (suc last - start) start [] s).pending

counted-left :
    (n : ℕ) (s : SlotState)
    → left (record s { acc = count_corrupted (count_salvage n s.acc) }) ≡ left s
counted-left n s = elim (Bool-cases (ltb 0 n)) [ inl new ↦ rw new refl | inr old ↦ rw old refl ]

give_up_batch-left : (idx : ℕ) (s : SlotState) → left (give_up_batch idx s) ≤ left s
unfolding give_up_batch
give_up_batch-left idx s =
    let (s', n) = salvage_contiguous_runs_in s.acc.batch_start (idx - 1) s in
    subst (λ m. left (give_up_batch idx s) ≤ m)
      (counted-left n s' ∙ salvage-left s.acc.batch_start (idx - 1) s)
      (complete_batch-left idx (record s' { acc = count_corrupted (count_salvage n s'.acc) }))

skip_shred-left :
    (ps : PendingShred) (s : SlotState)
    → lookup s.acc.streaming_cursor s.acc.pending ≡ some ps
    → s.acc.streaming_cursor < max_u32
    → suc (left (skip_shred ps s)) ≤ left s
unfolding skip_shred
skip_shred-left ps s found low =
    let dropped = drop_shred-left ps s found low in
    elim (Bool-cases (ps.batch_complete && ltb s.acc.batch_start s.acc.streaming_cursor)) [
      | inl ends ↦
          let given = give_up_batch-left s.acc.streaming_cursor (drop_shred ps s) in
          rw ends (omega arith)
      | inr inner ↦ rw inner dropped
    ]

take_pushed-cursor :
    (r : StreamingDecoder × Decoded (List VersionedTransaction)) (s : SlotState)
    → (take_pushed r s).0.acc.streaming_cursor ≡ next_u32 s.acc.streaming_cursor
take_pushed-cursor (d, err e) s = refl
take_pushed-cursor (d, ok txs) s = deliver-cursor txs (move_on d s)

take_pushed-left :
    (r : StreamingDecoder × Decoded (List VersionedTransaction)) (ps : PendingShred) (s : SlotState)
    → lookup s.acc.streaming_cursor s.acc.pending ≡ some ps
    → s.acc.streaming_cursor < max_u32
    → suc (left (take_pushed r s).0) ≤ left s
take_pushed-left r ps s found low =
    let c = s.acc.streaming_cursor in
    let step : next_u32 c ≡ suc c = omega arith in
    let fewer = ahead-found c ps s.acc.pending found in
    subst (λ m. suc m ≤ left s)
      (sym (ap₂ ahead (take_pushed-cursor r s ∙ step) (take_pushed-IsQuiet r s).pending)) fewer

-- Both numbers of rounds are enough, and give the same state.
Ends : ℕ → ℕ → SlotState → Type 0
Ends fuel more s =
    (s' : SlotState) × (advance_streaming fuel s ≡ some s') × (advance_streaming more s ≡ some s')

-- A round for each shred at the cursor or behind it, and one more, are enough.
advance_streaming_enough :
    (fuel more : ℕ) (s : SlotState)
    → IsSafeState s
    → left s < fuel
    → left s < more
    → Ends fuel more s
unfolding advance_streaming Ends
advance_streaming_enough zero more s h enough over = absurd (omega arith)
advance_streaming_enough (suc fuel) zero s h enough over = absurd (omega arith)
advance_streaming_enough (suc fuel) (suc more) s h enough over =
    elim (Option-cases (lookup s.acc.streaming_cursor s.acc.pending)) [
      | inl missing ↦
          (s, rw (missing, advance_streaming) refl, rw (missing, advance_streaming) refl)
      | inr (ps, found) ↦
          let low = low_key s.acc.streaming_cursor ps s.acc.pending h.pending found in
          elim (Bool-cases (is_recovered ps.source)) [
            | inl rebuilt ↦ (s, ground arith, ground arith)
            | inr fresh ↦ elim (Option-cases (payload ps s.pool)) [
              | inl nothing ↦
                  let fewer = skip_shred-left ps s found low in
                  let (s', a, b) =
                    advance_streaming_enough fuel more (skip_shred ps s)
                      (skip_shred-kept IsSafeState IsSafe-kept ps s found h) (omega arith)
                      (omega arith) in
                  (s', ground arith, ground arith)
              | inr (bytes, there) ↦
                  let r = push s.acc.streaming_decoder bytes in
                  let fewer = take_pushed-left r ps s found low in
                  let safe = IsSafe-kept.quiet (take_pushed r s).0 s (take_pushed-IsQuiet r s) h in
                  elim (Bool-cases
                    ((take_pushed r s).1 && (if ps.batch_complete then false else true))) [
                      | inl on ↦
                          let (s', a, b) =
                            advance_streaming_enough fuel more (take_pushed r s).0 safe
                              (omega arith) (omega arith) in
                          (s', ground arith, ground arith)
                      | inr off ↦ ((take_pushed r s).0, ground arith, ground arith)
                    ]
            ]
          ]
    ]

-- Where no index of a slot is the largest, the loop of advanceStreaming returns within one round more
-- than there are pending shreds, in the same state however many more it is given, and no index of the
-- slot is the largest then.
pub advance-Gives :
    (fuel : ℕ) (s : SlotState)
    → IsSafe s.acc
    → length s.acc.pending < fuel
    → Gives (λ s'. IsSafeState s' × (advance_streaming fuel s ≡ some s')) (advance s)
unfolding advance Ends
advance-Gives fuel s h enough =
    let few = ahead-length s.acc.streaming_cursor s.acc.pending in
    let (s', first, same) =
      advance_streaming_enough (suc (length s.acc.pending)) fuel s h (omega arith) (omega arith) in
    record {
      result = s';
      returned = first;
      holds = (advance-kept IsSafeState IsSafe-kept s s' first h, same);
    }

pub advance-IsSafe : (s : SlotState) → IsSafeState s → Gives IsSafeState (advance s)
advance-IsSafe s h =
    let g = advance-Gives (suc (length s.acc.pending)) s h (omega arith) in
    record { result = g.result; returned = g.returned; holds = g.holds.0 }
