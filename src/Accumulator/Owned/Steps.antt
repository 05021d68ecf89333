-- ===== src/Accumulator/Owned/Steps.antt =====
-- No step of the accumulator loses a buffer or frees one that is held.
use shredstream_sdk_go.Prelude.{
  ℕ, ◌+◌, ◌%◌, ◌^◌, ◌≡◌, refl, ap, ap₂, ◌∙◌, List, [], ◌∷◌, Bool, true, false, ◌||◌, Option, none,
  some, inl, inr, Bool-cases, ltb, ◌==◌, Dict, lookup, has_key, arith,
}
use shredstream_sdk_go.Parser
use shredstream_sdk_go.Parser.{Parsed, ShredKind, data_shred, code_shred, parse_kind}
use shredstream_sdk_go.Fec
use shredstream_sdk_go.Fec.{Coded}
use shredstream_sdk_go.Accumulator.FecSet.{FecSetBuffer}
use shredstream_sdk_go.Accumulator.Recovery.{DataShredRef, try_reconstruct}
use shredstream_sdk_go.Accumulator.Slot.{
  PendingShred, SlotAccumulator, SlotState, complete_batch, release_slot,
}
use shredstream_sdk_go.Accumulator.Fill.{
  data_refs, place_recovered, fill_one, fill_pending, fill_recovered, count_fill, fill_set,
  fill_selected, select_recoverable_set, try_fec_fill,
}
use shredstream_sdk_go.Pool.{BufferPool}
use shredstream_sdk_go.Accumulator.Streaming.{drop_shred}
use shredstream_sdk_go.Accumulator.Harvest.{try_harvest_tail}
use shredstream_sdk_go.Accumulator.Push.{
  DataPush, CodePush, pending_data, store_data, push_data, record_coding, make_room, push_code,
}
use shredstream_sdk_go.Accumulator.Rules.{IsKept}
use shredstream_sdk_go.Accumulator.Rules.Ends.{
  with_coding, push_data-kept, push_code-kept, try_harvest_tail-kept,
}
use shredstream_sdk_go.Accumulator.Owned.{
  count, uses_handle, held, owned, held-insert, held-erase, held-release_below, count-release_all,
  count-release_source, count-release_handle,
}

pub owned-complete_batch :
    (i bc_idx : ℕ) (s : SlotState) → owned i (complete_batch bc_idx s) ≡ owned i s
unfolding complete_batch
owned-complete_batch i bc_idx s = held-release_below i _ s.acc.pending s.pool

place_recovered-held :
    (i now set_idx idx : ℕ) (raw : List ℕ) (r : Parsed ShredKind) (a : SlotAccumulator)
    → has_key idx a.pending ≡ false
    → held i (place_recovered now set_idx idx raw r a).0.pending ≡ held i a.pending
place_recovered-held i now set_idx idx raw (Parser.err e) a h = refl
place_recovered-held i now set_idx idx raw (Parser.ok (code_shred c)) a h = refl
place_recovered-held i now set_idx idx raw (Parser.ok (data_shred d)) a h =
    elim (Bool-cases d.last_in_slot) [
      | inl last ↦ rw last
      | inr inner ↦ rw inner (held-insert i idx _ a.pending h ∙ omega arith)
    ]

fill_one-held :
    (i now set_idx idx : ℕ) (raw : List ℕ) (a : SlotAccumulator)
    → held i (fill_one now set_idx idx raw a).0.pending ≡ held i a.pending
fill_one-held i now set_idx idx raw a = elim (Bool-cases (ltb idx a.batch_start)) [
  | inl old ↦ rw old
  | inr open_batch ↦ elim (Bool-cases (has_key idx a.pending)) [
    | inl known ↦ rw open_batch (rw known)
    | inr new ↦
        rw open_batch (rw new (place_recovered-held i now set_idx idx raw (parse_kind raw) a new))
  ]
]

fill_pending-held :
    (i now set_idx : ℕ) (refs : List DataShredRef) (a : SlotAccumulator) (any : Bool)
    → held i (fill_pending now set_idx refs a any).0.pending ≡ held i a.pending
unfolding fill_pending
fill_pending-held i now set_idx [] a any = refl
fill_pending-held i now set_idx (r ∷ refs) a any =
    let idx = (set_idx + r.pos) % 2 ^ 32 in
    let (a', new) = fill_one now set_idx idx r.raw a in
    fill_pending-held i now set_idx refs a' (any || new) ∙ fill_one-held i now set_idx idx r.raw a

count_fill-held :
    (i set_idx : ℕ) (a : SlotAccumulator) (any : Bool)
    → held i (count_fill set_idx (a, any)).0.pending ≡ held i a.pending
count_fill-held i set_idx a true = refl
count_fill-held i set_idx a false = refl

fill_recovered-held :
    (i now set_idx : ℕ) (r : Coded (List DataShredRef)) (a : SlotAccumulator)
    → held i (fill_recovered now set_idx r a).0.pending ≡ held i a.pending
fill_recovered-held i now set_idx (Fec.err e) a = refl
fill_recovered-held i now set_idx (Fec.ok refs) a =
    let (a', any) = fill_pending now set_idx refs a false in
    count_fill-held i set_idx a' any ∙ fill_pending-held i now set_idx refs a false

fill_set-owned :
    (i now set_idx : ℕ) (o : Option FecSetBuffer) (s : SlotState)
    → owned i (fill_set now set_idx o s).0 ≡ owned i s
fill_set-owned i now set_idx none s = refl
fill_set-owned i now set_idx (some fec) s = elim (Bool-cases (fec.num_data == 0)) [
  | inl hollow ↦ rw hollow
  | inr sized ↦
      let refs =
        try_reconstruct fec (data_refs set_idx fec.num_data s.acc.pending s.pool) s.cache in
      rw sized (
        ap (λ (n : ℕ). count i s.pool.freelist + n)
          (fill_recovered-held i now set_idx refs.1 s.acc))
]

fill_selected-owned :
    (i now : ℕ) (o : Option ℕ) (s : SlotState) → owned i (fill_selected now o s).0 ≡ owned i s
fill_selected-owned i now none s = refl
fill_selected-owned i now (some set_idx) s =
    fill_set-owned i now set_idx (lookup set_idx s.acc.fec_sets) s

pub owned-try_fec_fill :
    (i now hint : ℕ) (s : SlotState) → owned i (try_fec_fill now hint s).0 ≡ owned i s
unfolding try_fec_fill
owned-try_fec_fill i now hint s = fill_selected-owned i now (select_recoverable_set s.acc hint) s

owned-drop_shred :
    (i : ℕ) (ps : PendingShred) (s : SlotState)
    → lookup s.acc.streaming_cursor s.acc.pending ≡ some ps
    → owned i (drop_shred ps s) ≡ owned i s
unfolding drop_shred
owned-drop_shred i ps s h =
    let freed = count-release_source i ps.source s.pool in
    let kept = held-erase i s.acc.streaming_cursor ps s.acc.pending h in omega arith

-- The buffer `i` is free or held `k` times.
abbrev pub Owns : ℕ → ℕ → SlotState → Type 0
Owns i k s = owned i s ≡ k

pub Owns-kept : (i k : ℕ) → IsKept (Owns i k)
Owns-kept i k = record {
  quiet = λ new old q h.
      ap₂ (λ (p : BufferPool) (d : Dict PendingShred). count i p.freelist + held i d) q.pool
        q.pending
      ∙ h;
  fill = λ now hint s h. owned-try_fec_fill i now hint s ∙ h;
  complete = λ bc_idx s h. owned-complete_batch i bc_idx s ∙ h;
  drop = λ ps s found h. owned-drop_shred i ps s found ∙ h;
}

coding-owned : (i : ℕ) (c : CodePush) (s : SlotState) → owned i (with_coding c s) ≡ owned i s
unfolding record_coding make_room
coding-owned i c s = ground arith

store-owned :
    (i now : ℕ) (d : DataPush) (s : SlotState)
    → has_key d.index s.acc.pending ≡ false
    → owned i (store_data now d s) ≡ uses_handle i d.handle + owned i s
unfolding store_data
store-owned i now d s new =
    let stored = held-insert i d.index (pending_data d) s.acc.pending new in omega arith

module _ (i now : ℕ) (s s' : SlotState) where
  -- pushData takes the buffer of its handle over, and keeps or frees every buffer.
  pub owned-push_data :
      (d : DataPush) → push_data now d s ≡ some s' → owned i s' ≡ uses_handle i d.handle + owned i s
  owned-push_data d e =
      let k = uses_handle i d.handle + owned i s in
      let freed = count-release_handle i d.handle s.pool in
      push_data-kept (Owns i k) (Owns-kept i k) now d s s' e (omega arith)
        (λ new. store-owned i now d s new)

  pub owned-push_code : (c : CodePush) → push_code now c s ≡ some s' → owned i s' ≡ owned i s
  owned-push_code c e =
      push_code-kept (Owns i (owned i s)) (Owns-kept i (owned i s)) now c s s' e
        (coding-owned i c s)

  pub owned-try_harvest_tail : try_harvest_tail now s ≡ some s' → owned i s' ≡ owned i s
  owned-try_harvest_tail e =
      try_harvest_tail-kept (Owns i (owned i s)) (Owns-kept i (owned i s)) now s s' e refl

  -- Behind a release of the slot every buffer that it held is free.
  pub owned-release_slot : count i (release_slot s).pool.freelist ≡ owned i s
  unfolding release_slot
  owned-release_slot = omega (arith, count-release_all i s.acc.pending s.pool)
