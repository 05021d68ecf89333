-- ===== src/Decoder/Streaming/Split.antt =====
-- A payload that ends inside an entry. `decodeEntry` compares the count of transactions with the bytes
-- that are there, and a streaming decoder may not have them yet.
use shredstream_sdk_go.Prelude.{
  ℕ, ◌<◌, ◌≡◌, refl, ap, ◌∙◌, List, [], ◌∷◌, ◌++◌, append_assoc, append-nil, arith, length,
  length-append, drop, slice, little_endian, le_bytes, length-le_bytes,
}
use shredstream_sdk_go.Decoder.Reader.{failed, invalid_tx_count}
use shredstream_sdk_go.Decoder.Reader.Format.{encode_all}
use shredstream_sdk_go.Decoder.Batch.{ok, err, decode_entry, decode_batch}
use shredstream_sdk_go.Decoder.Batch.Wire.{
  Entry, IsEntry, entry_header, entry_bytes, batch_bytes, batch_transactions, tx_count_lem,
  length-entry_header,
}
use shredstream_sdk_go.Decoder.Batch.RoundTrip.{IsBatch, decode_batch-batch_bytes}
use shredstream_sdk_go.Decoder.Transaction.Wire.{transaction_bytes}
use shredstream_sdk_go.Decoder.Streaming.{
  new_streaming_decoder, stream_loop, yield_entries, next_count, try_deserialize, push,
}

-- The header alone, without the transactions that it announces, is refused as invalid.
header_refused :
    (e : Entry)
    → IsEntry e
    → 0 < length e.transactions
    → decode_entry (entry_header e) ≡ failed (invalid_tx_count (length e.transactions))
unfolding decode_entry
header_refused e v some_there =
    let count = rw append-nil at (tx_count_lem e [] v) in
    ground (arith, length-entry_header e v, count)

-- The payload up to the transactions of the first entry of a batch of one.
abbrev pub cut_payload : Entry → List ℕ
cut_payload e = le_bytes 8 1 ++ entry_header e

abbrev pub rest_payload : Entry → List ℕ
rest_payload e = encode_all transaction_bytes e.transactions

cut_count : (e : Entry) → little_endian (slice (cut_payload e) 0 8) ≡ 1
unfolding slice little_endian le_bytes
cut_count e = refl

push_cut :
    (e : Entry)
    → IsEntry e
    → 0 < length e.transactions
    → (push new_streaming_decoder (cut_payload e)).1
      ≡ err (invalid_tx_count (length e.transactions))
unfolding push try_deserialize yield_entries next_count stream_loop new_streaming_decoder
push_cut e v some_there =
    let refused : decode_entry (drop 8 (cut_payload e))
        ≡ failed (invalid_tx_count (length e.transactions)) =
      unfold le_bytes in header_refused e v some_there in
    let long : length (cut_payload e) ≡ 56 = omega (
      arith,
      length-append (le_bytes 8 1) (entry_header e),
      length-le_bytes 8 1,
      length-entry_header e v,
    ) in
    ground (arith, refused, long, cut_count e)

whole_batch : (e : Entry) → cut_payload e ++ rest_payload e ≡ batch_bytes (e ∷ []) ++ []
unfolding batch_bytes entry_bytes encode_all
whole_batch e = append_assoc (le_bytes 8 1) (entry_header e) (rest_payload e) ∙ simp (append-nil)

-- A valid batch of one entry with transactions, cut right behind the entry's header, is decoded whole
-- by DecodeBatch, while a new streaming decoder that gets the first part answers with an error.
pub cut_payload_refused :
    (e : Entry)
    → IsEntry e
    → 0 < length e.transactions
    → (decode_batch (cut_payload e ++ rest_payload e) ≡ ok e.transactions)
      × ((push new_streaming_decoder (cut_payload e)).1
          ≡ err (invalid_tx_count (length e.transactions)))
cut_payload_refused e v some_there =
    let batch : IsBatch (e ∷ []) = record { few = omega arith; entries = (v, tt) } in
    let decoded : decode_batch (batch_bytes (e ∷ []) ++ []) ≡ ok e.transactions =
      decode_batch-batch_bytes (e ∷ []) [] batch
      ∙ ap ok (unfold batch_transactions in append-nil e.transactions) in
    (rw (whole_batch e) decoded, push_cut e v some_there)
