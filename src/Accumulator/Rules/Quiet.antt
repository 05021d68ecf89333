-- ===== src/Accumulator/Rules/Quiet.antt =====
-- The steps that only deliver transactions and count.
use shredstream_sdk_go.Prelude.{
  ℕ, zero, suc, ◌-◌, List, [], ◌∷◌, ◌++◌, inl, inr, Bool-cases, Option-cases, ltb, ◌==◌,
  if◌then◌else◌, lookup, arith,
}
use shredstream_sdk_go.Decoder.Types.{VersionedTransaction}
use shredstream_sdk_go.Decoder.Batch.{Decoded, ok, err, decode_concatenated}
use shredstream_sdk_go.Decoder.Streaming.{StreamingDecoder}
use shredstream_sdk_go.Accumulator.Slot.{
  SlotAccumulator, SlotState, next_u32, record_first, record_sig, deliver, payload, count_salvage,
}
use shredstream_sdk_go.Accumulator.Salvage.{
  bytes_of, deliver_batch, deliver_run, salvage_runs, salvage_contiguous_runs_in, or_nothing,
}
use shredstream_sdk_go.Accumulator.Streaming.{take_pushed, move_on}
use shredstream_sdk_go.Accumulator.Harvest.{harvest_runs, harvest_rest, finish_harvest}
use shredstream_sdk_go.Accumulator.Rules.{IsQuiet, IsQuiet-refl, IsQuiet-trans}

-- The state with another accumulator and other transactions.
abbrev with_acc : SlotState → SlotAccumulator → List VersionedTransaction → SlotState
with_acc s a out = record s { acc = a; out = out }

record_first-IsQuiet :
    (sigs : List (List ℕ)) (s : SlotState) (out : List VersionedTransaction)
    → IsQuiet (with_acc s (record_first sigs s.acc).0 out) s
record_first-IsQuiet [] s out = ground arith
record_first-IsQuiet (sig ∷ sigs) s out = ground arith

pub deliver-IsQuiet :
    (txs : List VersionedTransaction) (s : SlotState) → IsQuiet (deliver txs s).0 s
unfolding deliver record_sig
deliver-IsQuiet [] s = IsQuiet-refl s
deliver-IsQuiet (tx ∷ txs) s =
    let (a, new) = record_sig s.acc tx in
    let out = if new then s.out ++ (tx ∷ []) else s.out in
    IsQuiet-trans _ (with_acc s a out) s (deliver-IsQuiet txs (with_acc s a out))
      (record_first-IsQuiet tx.signatures s out)

pub deliver_run-IsQuiet : (scratch : List ℕ) (s : SlotState) → IsQuiet (deliver_run scratch s).0 s
unfolding deliver_run
deliver_run-IsQuiet [] s = IsQuiet-refl s
deliver_run-IsQuiet (b ∷ scratch) s = deliver-IsQuiet (decode_concatenated (b ∷ scratch)) s

pub deliver_batch-IsQuiet :
    (r : Decoded (List VersionedTransaction)) (s : SlotState) → IsQuiet (deliver_batch r s) s
deliver_batch-IsQuiet (err e) s = ground arith
deliver_batch-IsQuiet (ok []) s = ground arith
deliver_batch-IsQuiet (ok (tx ∷ txs)) s =
    let quiet = deliver-IsQuiet (tx ∷ txs) s in
    elim (Bool-cases (ltb 0 (deliver (tx ∷ txs) s).1)) [
      | inl new ↦ ground (arith, quiet)
      | inr old ↦ ground (arith, quiet)
    ]

pub salvage_runs-IsQuiet :
    (n cursor : ℕ) (scratch : List ℕ) (s : SlotState)
    → IsQuiet (salvage_runs n cursor scratch s).0 s
unfolding salvage_runs
salvage_runs-IsQuiet zero cursor scratch s = deliver_run-IsQuiet scratch s
salvage_runs-IsQuiet (suc n) cursor scratch s = elim (Option-cases (lookup cursor s.acc.pending)) [
  | inr (ps, found) ↦
      rw (found, salvage_runs)
        (salvage_runs-IsQuiet n (suc cursor) (scratch ++ or_nothing (payload ps s.pool)) s)
  | inl gap ↦
      rw (gap, salvage_runs)
        (IsQuiet-trans _ (deliver_run scratch s).0 s
          (salvage_runs-IsQuiet n (suc cursor) [] (deliver_run scratch s).0)
          (deliver_run-IsQuiet scratch s))
]

pub salvage-IsQuiet :
    (start last : ℕ) (s : SlotState) → IsQuiet (salvage_contiguous_runs_in start last s).0 s
unfolding salvage_contiguous_runs_in
salvage-IsQuiet start last s = salvage_runs-IsQuiet (suc last - start) start [] s

pub count_salvage-IsQuiet :
    (n : ℕ) (s : SlotState) → IsQuiet (record s { acc = count_salvage n s.acc }) s
count_salvage-IsQuiet n s = ground arith

pub take_pushed-IsQuiet :
    (r : StreamingDecoder × Decoded (List VersionedTransaction)) (s : SlotState)
    → IsQuiet (take_pushed r s).0 s
take_pushed-IsQuiet (d, err e) s = ground arith
take_pushed-IsQuiet (d, ok txs) s =
    IsQuiet-trans _ (move_on d s) s (deliver-IsQuiet txs (move_on d s)) (ground arith)

pub harvest_runs-IsQuiet :
    (is : List ℕ) (expected : ℕ) (scratch : List ℕ) (s : SlotState)
    → IsQuiet (harvest_runs is expected scratch s) s
unfolding harvest_runs
harvest_runs-IsQuiet [] expected scratch s = deliver_run-IsQuiet scratch s
harvest_runs-IsQuiet (i ∷ is) expected scratch s = elim (Bool-cases (i == expected)) [
  | inl next ↦
      rw next (
        harvest_runs-IsQuiet is (next_u32 i) (scratch ++ bytes_of (lookup i s.acc.pending) s.pool)
          s)
  | inr gap ↦ rw gap (
      IsQuiet-trans _ (deliver_run scratch s).0 s
        (harvest_runs-IsQuiet is (next_u32 i) (bytes_of (lookup i s.acc.pending) s.pool)
          (deliver_run scratch s).0)
        (deliver_run-IsQuiet scratch s))
]

pub harvest_rest-IsQuiet : (is : List ℕ) (s : SlotState) → IsQuiet (harvest_rest is s) s
harvest_rest-IsQuiet [] s = IsQuiet-refl s
harvest_rest-IsQuiet (i ∷ is) s = harvest_runs-IsQuiet (i ∷ is) i [] s

pub finish_harvest-IsQuiet : (s : SlotState) → IsQuiet (finish_harvest s) s
unfolding finish_harvest
finish_harvest-IsQuiet s = ground arith
