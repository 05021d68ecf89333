-- ===== src/Decoder/Batch/RoundTrip.antt =====
-- DecodeBatch and DecodeConcatenated on the bytes of whole batches.
use shredstream_sdk_go.Prelude.{
  ℕ, ◌+◌, ◌≤◌, ◌<◌, ◌≡◌, refl, sym, ap, ◌∙◌, List, [], ◌∷◌, ◌++◌, append_assoc, append-nil, true,
  false, arith, drop-drop, length, length-append, drop, le_bytes, length-le_bytes,
  little_endian-le_bytes, take-length, drop-length, All,
}
use mathlib.Core.WellFounded.{Acc}
use shredstream_sdk_go.Decoder.Reader.Format.{encode_all}
use shredstream_sdk_go.Decoder.Types.{VersionedTransaction}
use shredstream_sdk_go.Decoder.Batch.{
  ok, max_entry_count, batch_loop, entry_count, validate_vec_prefix, decode_batch,
  concatenated_loop, decode_concatenated, Further, Acc-Further,
}
use shredstream_sdk_go.Decoder.Batch.Concatenated.{StartsWith, loop_invalid, loop_takes}
use shredstream_sdk_go.Decoder.Batch.Wire.{
  Entry, IsEntry, entry_bytes, batch_bytes, batch_transactions, batch_loop-entries,
  length-entries_ge,
}

-- A batch that the decoder takes: well-formed entries, at most 50000 of them.
pub record IsBatch (es : List Entry) : Type 0 where
  pub few : length es ≤ max_entry_count
  pub entries : All IsEntry es

length-batch_bytes :
    (es : List Entry) → length (batch_bytes es) ≡ 8 + length (encode_all entry_bytes es)
unfolding batch_bytes
length-batch_bytes es = omega (
  arith,
  length-append (le_bytes 8 (length es)) (encode_all entry_bytes es),
  length-le_bytes 8 (length es),
)

entry_count-batch_bytes :
    (es : List Entry) (rest : List ℕ)
    → IsBatch es
    → entry_count (batch_bytes es ++ rest) ≡ length es
unfolding entry_count batch_bytes
entry_count-batch_bytes es rest v =
    let count = le_bytes 8 (length es) in
    let first = take-length count (encode_all entry_bytes es ++ rest) in
    let eight = rw (length-le_bytes 8 (length es)) at first in
    rw (append_assoc count (encode_all entry_bytes es) rest, eight)
      (little_endian-le_bytes 8 (length es) (omega (arith, v.few)))

validate-batch_bytes :
    (es : List Entry) (rest : List ℕ)
    → IsBatch es
    → validate_vec_prefix (batch_bytes es ++ rest) ≡ true
unfolding validate_vec_prefix
validate-batch_bytes es rest v = ground (
  arith,
  entry_count-batch_bytes es rest v,
  length-append (batch_bytes es) rest,
  length-batch_bytes es,
  length-entries_ge es v.entries,
  v.few,
)

batch_loop-batch_bytes :
    (es : List Entry) (rest : List ℕ)
    → IsBatch es
    → batch_loop (entry_count (batch_bytes es ++ rest)) (batch_bytes es ++ rest) 8 []
      ≡ ok (length (batch_bytes es), batch_transactions es)
batch_loop-batch_bytes es rest v =
    let count = le_bytes 8 (length es) in
    let loop = batch_loop-entries es count rest [] v.entries in
    let at_8 = rw (length-le_bytes 8 (length es)) at loop in
    let whole : batch_bytes es ++ rest ≡ count ++ (encode_all entry_bytes es ++ rest) =
      unfold batch_bytes in append_assoc count (encode_all entry_bytes es) rest in
    rw (entry_count-batch_bytes es rest v, length-batch_bytes es) (rw whole at_8)

-- The bytes of a batch, whatever follows them, are decoded to the transactions of its entries, in
-- order.
pub decode_batch-batch_bytes :
    (es : List Entry) (rest : List ℕ)
    → IsBatch es
    → decode_batch (batch_bytes es ++ rest) ≡ ok (batch_transactions es)
unfolding decode_batch
decode_batch-batch_bytes es rest v =
    rw (validate-batch_bytes es rest v, batch_loop-batch_bytes es rest v) refl

unfoldable pub all_transactions : List (List Entry) → List VersionedTransaction
all_transactions [] = []
all_transactions (es ∷ bs) = batch_transactions es ++ all_transactions bs

starts-batch_bytes :
    (es : List Entry) (b rest : List ℕ)
    → b ≡ batch_bytes es ++ rest
    → IsBatch es
    → StartsWith b (length (batch_bytes es)) (batch_transactions es)
starts-batch_bytes es b rest e v =
    rw e
      record { valid = validate-batch_bytes es rest v; decoded = batch_loop-batch_bytes es rest v }

invalid-short : (b : List ℕ) → length b < 8 → validate_vec_prefix b ≡ false
unfolding validate_vec_prefix
invalid-short b h = ground arith

concatenated-batches :
    (bs : List (List Entry)) (b rest : List ℕ) (offset : ℕ) (out : List VersionedTransaction)
    (w : Acc (Further b) offset)
    → drop offset b ≡ encode_all batch_bytes bs ++ rest
    → All IsBatch bs
    → length rest < 8
    → concatenated_loop b offset out w ≡ out ++ all_transactions bs
unfolding encode_all all_transactions
concatenated-batches [] b rest offset out w e vs short =
    loop_invalid b offset out w (rw e (invalid-short rest short)) ∙ sym (append-nil out)
concatenated-batches (es ∷ bs) b rest offset out w e (v, vs) short =
    let others = encode_all batch_bytes bs ++ rest in
    let first : drop offset b ≡ batch_bytes es ++ others =
      e ∙ append_assoc (batch_bytes es) (encode_all batch_bytes bs) rest in
    let n = length (batch_bytes es) in
    let behind : drop (offset + n) b ≡ others =
      sym (drop-drop n offset b) ∙ ap (drop n) first ∙ drop-length (batch_bytes es) others in
    let (w', goes) =
      loop_takes b offset out w n (batch_transactions es)
        (starts-batch_bytes es (drop offset b) others first v) in
    goes
    ∙ concatenated-batches bs b rest (offset + n) (out ++ batch_transactions es) w' behind vs short
    ∙ append_assoc out (batch_transactions es) (all_transactions bs)

-- Batches of well-formed entries, at most 50000 of them in each, one after the other, with fewer than 8
-- bytes behind the last, are all decoded, in order.
pub decode_concatenated-batches :
    (bs : List (List Entry)) (rest : List ℕ)
    → All IsBatch bs
    → length rest < 8
    → decode_concatenated (encode_all batch_bytes bs ++ rest) ≡ all_transactions bs
unfolding decode_concatenated
decode_concatenated-batches bs rest vs short =
    let b = encode_all batch_bytes bs ++ rest in
    concatenated-batches bs b rest 0 [] (Acc-Further b 0) refl vs short
