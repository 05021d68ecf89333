-- ===== src/Accumulator/Fill.antt =====
-- tryFecFill of accumulator.go: the pending shreds of a slot are filled up from its FEC sets.
use shredstream_sdk_go.Prelude.{
  ℕ, suc, ◌+◌, ◌-◌, ◌%◌, ◌^◌, List, [], ◌∷◌, Bool, true, false, ◌&&◌, ◌||◌, not, Option, none, some,
  ltb, leb, ◌==◌, if◌then◌else◌, length, Dict, lookup, has_key, erase, insert, keys,
}
use shredstream_sdk_go.Pool.{BufferPool}
use shredstream_sdk_go.Parser
use shredstream_sdk_go.Parser.{
  DataShred, ShredKind, data_shred, code_shred, Parsed, parse_kind, data_header_size,
}
use shredstream_sdk_go.Fec
use shredstream_sdk_go.Fec.{Coded}
use shredstream_sdk_go.Accumulator.FecSet.{FecSetBuffer, can_recover_with}
use shredstream_sdk_go.Accumulator.Recovery.{DataShredRef, try_reconstruct}
use shredstream_sdk_go.Accumulator.Slot.{
  PendingShred, recovered_payload, source_bytes, SlotAccumulator, SlotState,
}

-- `idx >= setIdx && idx < setIdx+nd && ps.fecSetIndex == setIdx` over the pending shreds.
unfoldable pub count_data : ℕ → ℕ → Dict PendingShred → ℕ
count_data set_idx nd [] = 0
count_data set_idx nd ((idx, ps) ∷ d) =
    let n = count_data set_idx nd d in
    if leb set_idx idx && (ltb idx ((set_idx + nd) % 2 ^ 32) && ps.fec_set_index == set_idx)
    then suc n
    else n

-- dataCountFor.
unfoldable pub data_count_for : SlotAccumulator → ℕ → FecSetBuffer → ℕ
data_count_for a set_idx fec =
    if fec.num_data == 0 then 0 else count_data set_idx fec.num_data a.pending

unfoldable pub insert_sorted : ℕ → List ℕ → List ℕ
insert_sorted k [] = k ∷ []
insert_sorted k (j ∷ js) = if leb k j then k ∷ j ∷ js else j ∷ insert_sorted k js

-- sort.Slice by `<`, on different numbers.
unfoldable pub sort_keys : List ℕ → List ℕ
sort_keys [] = []
sort_keys (k ∷ ks) = insert_sorted k (sort_keys ks)

-- The test on a set that is found under its key.
abbrev pub can_recover_at : SlotAccumulator → ℕ → FecSetBuffer → Bool
can_recover_at a set_idx fec = can_recover_with fec (data_count_for a set_idx fec)

abbrev pub covers_cursor : SlotAccumulator → ℕ → Option FecSetBuffer → Bool
covers_cursor a set_idx none = false
covers_cursor a set_idx (some fec) =
    not (fec.num_data == 0)
    && (leb set_idx a.streaming_cursor
        && (ltb a.streaming_cursor ((set_idx + fec.num_data) % 2 ^ 32)
            && can_recover_at a set_idx fec))

-- The loop over the sorted keys.
unfoldable pub first_covering : SlotAccumulator → List ℕ → Option ℕ
first_covering a [] = none
first_covering a (k ∷ ks) =
    if covers_cursor a k (lookup k a.fec_sets) then some k else first_covering a ks

abbrev pub hint_serves : SlotAccumulator → ℕ → Option FecSetBuffer → Bool
hint_serves a hint none = false
hint_serves a hint (some fec) = can_recover_at a hint fec

unfoldable pub select_recoverable_set : SlotAccumulator → ℕ → Option ℕ
select_recoverable_set a hint =
    if hint_serves a hint (lookup hint a.fec_sets)
    then some hint
    else first_covering a (sort_keys (keys a.fec_sets))

-- `dataRefs`.
unfoldable pub data_refs : ℕ → ℕ → Dict PendingShred → BufferPool → List DataShredRef
data_refs set_idx nd [] p = []
data_refs set_idx nd ((idx, ps) ∷ d) p =
    let rest = data_refs set_idx nd d p in
    if leb set_idx idx && (ltb (idx - set_idx) nd && ps.fec_set_index == set_idx)
    then record { pos = (idx - set_idx) % 2 ^ 16; raw = source_bytes ps.source p } ∷ rest
    else rest

-- What a recovered data shred does to the accumulator at its index, and whether it is new there.
abbrev pub place_recovered :
    ℕ → ℕ → ℕ → List ℕ → Parsed ShredKind → SlotAccumulator → SlotAccumulator × Bool
place_recovered now set_idx idx raw (Parser.err e) a = (a, false)
place_recovered now set_idx idx raw (Parser.ok (code_shred c)) a = (a, false)
place_recovered now set_idx idx raw (Parser.ok (data_shred d)) a =
    if d.last_in_slot then (record a { slot_complete = true }, false) else (
      record a {
        pending =
            insert idx
              (record {
                source = recovered_payload raw;
                payload_end = (data_header_size + length d.payload) % 2 ^ 16;
                batch_complete = d.batch_complete;
                fec_set_index = set_idx;
              })
              a.pending;
        batch_complete_idx =
            if d.batch_complete && not (has_key idx a.batch_complete_idx)
            then insert idx now a.batch_complete_idx
            else a.batch_complete_idx;
      },
      true,
    )

abbrev pub fill_one : ℕ → ℕ → ℕ → List ℕ → SlotAccumulator → SlotAccumulator × Bool
fill_one now set_idx idx raw a =
    if ltb idx a.batch_start
    then (a, false)
    else if has_key idx a.pending
    then (a, false)
    else place_recovered now set_idx idx raw (parse_kind raw) a

-- The loop over `recovered`, with `any`.
unfoldable pub fill_pending :
    ℕ → ℕ → List DataShredRef → SlotAccumulator → Bool → SlotAccumulator × Bool
fill_pending now set_idx [] a any = (a, any)
fill_pending now set_idx (r ∷ rs) a any =
    let (a', new) = fill_one now set_idx ((set_idx + r.pos) % 2 ^ 32) r.raw a in
    fill_pending now set_idx rs a' (any || new)

abbrev pub count_fill : ℕ → SlotAccumulator × Bool → SlotAccumulator × Bool
count_fill set_idx (a, any) =
    if any
    then (
      record a { recoveries_done = a.recoveries_done + 1; fec_sets = erase set_idx a.fec_sets },
      true,
    )
    else (a, false)

-- `len(recovered) == 0` changes nothing either way.
abbrev pub fill_recovered :
    ℕ → ℕ → Coded (List DataShredRef) → SlotAccumulator → SlotAccumulator × Bool
fill_recovered now set_idx (Fec.err e) a =
    (record a { recovery_failures = a.recovery_failures + 1 }, false)
fill_recovered now set_idx (Fec.ok refs) a =
    count_fill set_idx (fill_pending now set_idx refs a false)

abbrev pub fill_set : ℕ → ℕ → Option FecSetBuffer → SlotState → SlotState × Bool
fill_set now set_idx none s = (s, false)
fill_set now set_idx (some fec) s =
    if fec.num_data == 0
    then (s, false)
    else let (cache, refs) =
        try_reconstruct fec (data_refs set_idx fec.num_data s.acc.pending s.pool) s.cache in
      let (a, any) = fill_recovered now set_idx refs s.acc in
      (record s { acc = a; cache = cache }, any)

abbrev pub fill_selected : ℕ → Option ℕ → SlotState → SlotState × Bool
fill_selected now none s = (s, false)
fill_selected now (some set_idx) s = fill_set now set_idx (lookup set_idx s.acc.fec_sets) s

-- `now` is the time of the call.
unfoldable pub try_fec_fill : ℕ → ℕ → SlotState → SlotState × Bool
try_fec_fill now hint s = fill_selected now (select_recoverable_set s.acc hint) s

-- `for _, h := range hints { a.tryFecFill(h, rsCache) }`.
unfoldable pub fill_hints : ℕ → List ℕ → SlotState → SlotState
fill_hints now [] s = s
fill_hints now (h ∷ hs) s = fill_hints now hs (try_fec_fill now h s).0
