-- ===== src/Tests/Decoding.antt =====
-- The decoder's theorems at concrete transactions, entries and batches.
use shredstream_sdk_go.Prelude.{
  ℕ, ◌≡◌, refl, List, [], ◌∷◌, ◌++◌, true, false, some, length, replicate, concat, little_endian,
  arith, slice,
}
use shredstream_sdk_go.Decoder.Reader.{complete, invalid_tx_count, times}
use shredstream_sdk_go.Decoder.Reader.Format.{Reads, encode_all}
use shredstream_sdk_go.Decoder.Types.{VersionedTransaction}
use shredstream_sdk_go.Decoder.Compact.{decode_compact_u16, encode_compact_u16}
use shredstream_sdk_go.Decoder.Compact.Laws.{decode-encode_compact_u16}
use shredstream_sdk_go.Decoder.Transaction.{decode_transaction}
use shredstream_sdk_go.Decoder.Transaction.Wire.{
  transaction_bytes, IsTransaction, decode_transaction-Reads,
}
use shredstream_sdk_go.Decoder.Batch.{
  ok, err, decode_entry, decode_batch, decode_concatenated, concatenated_loop, validate_vec_prefix,
  entry_count, batch_loop, Acc-Further,
}
use shredstream_sdk_go.Decoder.Batch.Laws.{decode_entry-append}
use shredstream_sdk_go.Decoder.Batch.Concatenated.{Batches, decode_concatenated-Batches}
use native.Mathlib.Decide.{dec_le, ℕ_discrete}
use shredstream_sdk_go.Decoder.Batch.Wire.{
  Entry, IsEntry, batch_bytes, batch_transactions, entry_bytes, decode-entry_bytes,
}
use shredstream_sdk_go.Decoder.Batch.RoundTrip.{
  IsBatch, decode_batch-batch_bytes, decode_concatenated-batches, all_transactions,
}
use shredstream_sdk_go.Decoder.Streaming.{
  StreamingDecoder, new_streaming_decoder, push, try_deserialize, yield_entries, stream_loop,
  next_count,
}
use shredstream_sdk_go.Decoder.Streaming.Loop.{IsValid, prepend}
use shredstream_sdk_go.Decoder.Streaming.Chunks.{push-append}
use shredstream_sdk_go.Decoder.Streaming.Complete.{feed, feed-decode_batch}
use shredstream_sdk_go.Decoder.Streaming.Split.{cut_payload, rest_payload, cut_payload_refused}

abbrev transfer : VersionedTransaction
transfer = record {
  signatures = replicate 64 7 ∷ [];
  message = record {
    is_v0 = false;
    header = record {
      num_required_signatures = 1;
      num_readonly_signed_accounts = 0;
      num_readonly_unsigned_accounts = 1;
    };
    account_keys = replicate 32 1 ∷ replicate 32 2 ∷ [];
    recent_blockhash = replicate 32 9;
    instructions =
        record { program_id_index = 1; accounts = 0 ∷ 1 ∷ []; instruction_data = 5 ∷ [] } ∷ [];
    address_table_lookups = [];
  };
}

transfer-IsTransaction : IsTransaction transfer
transfer-IsTransaction = record {
  signatures_fit = omega arith;
  signatures = omega arith;
  message = record {
    header_fits = omega arith;
    keys_fit = omega arith;
    keys = omega arith;
    blockhash_fits = refl;
    instructions_fit = omega arith;
    instructions = omega arith;
    lookups = refl;
  };
}

abbrev entry : Entry
entry = record { num_hashes = 3; hash = replicate 32 4; transactions = transfer ∷ [] }

entry-IsEntry : IsEntry entry
entry-IsEntry = record { hash_fits = refl; few = omega arith; valid = (transfer-IsTransaction, tt) }

abbrev batch : List Entry
batch = entry ∷ entry ∷ []

batch-IsBatch : IsBatch batch
batch-IsBatch = record { few = omega arith; entries = (entry-IsEntry, (entry-IsEntry, tt)) }

decode_transaction-Reads_example : Reads decode_transaction (transaction_bytes transfer) transfer
decode_transaction-Reads_example = decode_transaction-Reads transfer transfer-IsTransaction

decode-encode_compact_u16_example :
    decode_compact_u16 ((1 ∷ []) ++ (encode_compact_u16 300 ++ (9 ∷ []))) 1
    ≡ some (300, length (encode_compact_u16 300))
decode-encode_compact_u16_example = decode-encode_compact_u16 300 (1 ∷ []) (9 ∷ []) (omega arith)

decode_batch-batch_bytes_example :
    decode_batch (batch_bytes batch ++ (1 ∷ [])) ≡ ok (batch_transactions batch)
decode_batch-batch_bytes_example = decode_batch-batch_bytes batch (1 ∷ []) batch-IsBatch

decode_concatenated-batches_example :
    decode_concatenated (encode_all batch_bytes (batch ∷ batch ∷ []) ++ (1 ∷ []))
    ≡ all_transactions (batch ∷ batch ∷ [])
decode_concatenated-batches_example =
    decode_concatenated-batches (batch ∷ batch ∷ []) (1 ∷ []) (batch-IsBatch, (batch-IsBatch, tt))
      (omega arith)

decode-entry_bytes_example :
    decode_entry (entry_bytes entry ++ (1 ∷ []))
    ≡ complete (transfer ∷ []) (length (entry_bytes entry))
decode-entry_bytes_example = decode-entry_bytes entry (1 ∷ []) entry-IsEntry

decode_entry-append_example :
    decode_entry ((entry_bytes entry ++ (1 ∷ [])) ++ (2 ∷ []))
    ≡ complete (transfer ∷ []) (length (entry_bytes entry))
decode_entry-append_example =
    decode_entry-append (entry_bytes entry ++ (1 ∷ [])) (2 ∷ []) (transfer ∷ [])
      (length (entry_bytes entry)) decode-entry_bytes_example

-- Two empty batches, and a count that is too large: the run ends there.
abbrev broken_run : List ℕ
broken_run = replicate 16 0 ++ replicate 9 255

decode_concatenated-Batches_example : Batches broken_run (decode_concatenated broken_run)
decode_concatenated-Batches_example = decode_concatenated-Batches broken_run

broken_run_lem : decode_concatenated broken_run ≡ []
unfolding decode_concatenated concatenated_loop Acc-Further dec_le ℕ_discrete validate_vec_prefix
    entry_count batch_loop little_endian
broken_run_lem = refl

cut_payload_refused_example :
    (decode_batch (cut_payload entry ++ rest_payload entry) ≡ ok (transfer ∷ []))
    × ((push new_streaming_decoder (cut_payload entry)).1 ≡ err (invalid_tx_count 1))
cut_payload_refused_example = cut_payload_refused entry entry-IsEntry (omega arith)

-- A batch of one entry without transactions, cut in the middle of the hash.
abbrev tick_start : List ℕ
tick_start = 1 ∷ 0 ∷ 0 ∷ 0 ∷ 0 ∷ 0 ∷ 0 ∷ 0 ∷ replicate 20 3

abbrev tick_end : List ℕ
tick_end = replicate 20 3 ++ (0 ∷ 0 ∷ 0 ∷ 0 ∷ 0 ∷ 0 ∷ 0 ∷ 0 ∷ [])

abbrev half_fed : StreamingDecoder
half_fed = record {
  buffer = tick_start;
  cursor = 8;
  expected_count = 1;
  expected_count_set = true;
  entries_yielded = 0;
}

abbrev all_fed : StreamingDecoder
all_fed = record half_fed { buffer = tick_start ++ tick_end; cursor = 56; entries_yielded = 1 }

first_push : push new_streaming_decoder tick_start ≡ (half_fed, ok [])
unfolding push try_deserialize yield_entries stream_loop next_count new_streaming_decoder slice
    little_endian decode_entry
first_push = refl

both_fed : feed new_streaming_decoder (tick_start ∷ tick_end ∷ []) ≡ (all_fed, ok [])
unfolding feed push try_deserialize yield_entries stream_loop next_count new_streaming_decoder slice
    little_endian decode_entry times
both_fed = refl

fresh-IsValid : IsValid new_streaming_decoder
unfolding new_streaming_decoder
fresh-IsValid = record { inside = omega arith; yielded = omega arith; unset = λ e. omega arith }

push-append_example :
    push new_streaming_decoder (tick_start ++ tick_end) ≡ prepend [] (push half_fed tick_end)
push-append_example =
    push-append new_streaming_decoder half_fed tick_start tick_end [] fresh-IsValid first_push

feed-decode_batch_example : decode_batch (concat (tick_start ∷ tick_end ∷ [])) ≡ ok []
feed-decode_batch_example =
    feed-decode_batch tick_start (tick_end ∷ []) all_fed [] both_fed
      (record { counted = refl; all = refl })
