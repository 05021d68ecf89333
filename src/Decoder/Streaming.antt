-- ===== src/Decoder/Streaming.antt =====
-- StreamingDecoder of decoder.go: payloads are pushed as they arrive, and whole entries come out.
pub mod Loop
pub mod Chunks
pub mod Complete
pub mod Split
use shredstream_sdk_go.Prelude.{
  ℕ, zero, suc, ◌+◌, ◌-◌, List, [], ◌++◌, Bool, true, false, ltb, leb, if◌then◌else◌, length, drop,
  slice, little_endian,
}
use shredstream_sdk_go.Decoder.Reader.{
  Outcome, complete, incomplete, failed, DecodeError, invalid_entry_count,
}
use shredstream_sdk_go.Decoder.Types.{VersionedTransaction}
use shredstream_sdk_go.Decoder.Batch.{Decoded, ok, err, decode_entry, max_entry_count}

pub record StreamingDecoder : Type 0 where
  pub buffer : List ℕ
  pub cursor : ℕ
  pub expected_count : ℕ
  pub expected_count_set : Bool
  pub entries_yielded : ℕ

-- The decoder after a call, and the call's `(txs, err)`.
abbrev pub Pushed : Type 0
Pushed = StreamingDecoder × Decoded (List VersionedTransaction)

-- NewStreamingDecoder.
unfoldable pub new_streaming_decoder : StreamingDecoder
new_streaming_decoder = record {
  buffer = [];
  cursor = 0;
  expected_count = 0;
  expected_count_set = false;
  entries_yielded = 0;
}

unfoldable pub reset : StreamingDecoder → StreamingDecoder
reset d = record d {
  buffer = [];
  cursor = 0;
  expected_count = 0;
  expected_count_set = false;
  entries_yielded = 0;
}

-- The loop of tryDeserialize, on the rounds that `entriesYielded < expectedCount` leaves. An error
-- keeps what the rounds before it changed in the decoder, and loses their transactions.
unfoldable pub stream_loop : ℕ → StreamingDecoder → List VersionedTransaction → Pushed
stream_loop zero d txs = (d, ok txs)
stream_loop (suc n) d txs = elim (leb (length d.buffer) d.cursor) [
  | true ↦ (d, ok txs)
  | false ↦ elim (decode_entry (drop d.cursor d.buffer)) [
    | failed e ↦ (d, err e)
    | incomplete ↦ (d, ok txs)
    | complete entry_txs consumed ↦
        stream_loop n
          (record d { cursor = d.cursor + consumed; entries_yielded = d.entries_yielded + 1 })
          (txs ++ entry_txs)
  ]
]

unfoldable pub yield_entries : StreamingDecoder → Pushed
yield_entries d =
    if d.expected_count_set
    then stream_loop (d.expected_count - d.entries_yielded) d []
    else (d, ok [])

-- `binary.LittleEndian.Uint64(d.buffer[d.cursor : d.cursor+8])`.
unfoldable pub next_count : StreamingDecoder → ℕ
next_count d = little_endian (slice d.buffer d.cursor (d.cursor + 8))

unfoldable pub try_deserialize : StreamingDecoder → Pushed
try_deserialize d =
    if d.expected_count_set
    then yield_entries d
    else if ltb (length d.buffer) (d.cursor + 8)
    then yield_entries d
    else if ltb max_entry_count (next_count d)
    then (d, err invalid_entry_count)
    else yield_entries (record d {
      cursor = d.cursor + 8;
      expected_count = next_count d;
      expected_count_set = true;
    })

unfoldable pub push : StreamingDecoder → List ℕ → Pushed
push d payload = try_deserialize (record d { buffer = d.buffer ++ payload })
