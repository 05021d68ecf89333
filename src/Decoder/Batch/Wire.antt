-- ===== src/Decoder/Batch/Wire.antt =====
-- The wire format of entries and batches, written down independently of the decoder, and the round
-- trips of decodeEntry, DecodeBatch and DecodeConcatenated.
use shredstream_sdk_go.Prelude.{
  ℕ, suc, ◌+◌, ◌*◌, ◌^◌, ◌≤◌, ◌<◌, ◌≡◌, refl, ap, ap₂, ◌∙◌, List, [], ◌∷◌, ◌++◌, append_assoc,
  append-nil, arith, length, length-append, drop, slice, slice-middle, little_endian, le_bytes,
  length-le_bytes, little_endian-le_bytes, drop-length, All,
}
use shredstream_sdk_go.Decoder.Reader.{complete}
use shredstream_sdk_go.Decoder.Reader.Format.{encode_all, times-Reads, nested-Reads}
use shredstream_sdk_go.Decoder.Types.{VersionedTransaction, Hash}
use shredstream_sdk_go.Decoder.Compact.{encode_compact_u16}
use shredstream_sdk_go.Decoder.Transaction.Wire.{
  transaction_bytes, message_bytes, IsTransaction, decode_transaction-Reads,
}
use shredstream_sdk_go.Decoder.Batch.{ok, decode_entry, batch_loop}

-- An entry of the ledger: the hash count, the hash and the transactions.
pub record Entry : Type 0 where
  pub num_hashes : ℕ
  pub hash : Hash
  pub transactions : List VersionedTransaction

pub record IsEntry (e : Entry) : Type 0 where
  pub hash_fits : length e.hash ≡ 32
  pub few : length e.transactions < 2 ^ 64
  pub valid : All IsTransaction e.transactions

unfoldable pub clock_bytes : Entry → List ℕ
clock_bytes e = le_bytes 8 e.num_hashes ++ e.hash

unfoldable pub entry_header : Entry → List ℕ
entry_header e = clock_bytes e ++ le_bytes 8 (length e.transactions)

unfoldable pub entry_bytes : Entry → List ℕ
entry_bytes e = entry_header e ++ encode_all transaction_bytes e.transactions

unfoldable pub batch_bytes : List Entry → List ℕ
batch_bytes es = le_bytes 8 (length es) ++ encode_all entry_bytes es

-- The transactions of a batch, in order.
unfoldable pub batch_transactions : List Entry → List VersionedTransaction
batch_transactions [] = []
batch_transactions (e ∷ es) = e.transactions ++ batch_transactions es

length-clock_bytes : (e : Entry) → IsEntry e → length (clock_bytes e) ≡ 40
unfolding clock_bytes
length-clock_bytes e v = omega (
  arith,
  length-append (le_bytes 8 e.num_hashes) e.hash,
  length-le_bytes 8 e.num_hashes,
  v.hash_fits,
)

pub length-entry_header : (e : Entry) → IsEntry e → length (entry_header e) ≡ 48
unfolding entry_header
length-entry_header e v = omega (
  arith,
  length-append (clock_bytes e) (le_bytes 8 (length e.transactions)),
  length-clock_bytes e v,
  length-le_bytes 8 (length e.transactions),
)

-- The count of the transactions, at its place in the header.
pub tx_count_lem :
    (e : Entry) (rest : List ℕ)
    → IsEntry e
    → little_endian (slice (entry_header e ++ rest) 40 48) ≡ length e.transactions
unfolding entry_header
tx_count_lem e rest v =
    let count = le_bytes 8 (length e.transactions) in
    let at_count = slice-middle (clock_bytes e) count rest in
    let at_40 =
      rw (length-clock_bytes e v, length-le_bytes 8 (length e.transactions)) at at_count in
    rw (append_assoc (clock_bytes e) count rest, at_40)
      (little_endian-le_bytes 8 (length e.transactions) v.few)

length-encode_compact_u16_pos : (v : ℕ) → 1 ≤ length (encode_compact_u16 v)
unfolding encode_compact_u16
length-encode_compact_u16_pos v = ground arith

length-transaction_bytes_pos : (tx : VersionedTransaction) → 1 ≤ length (transaction_bytes tx)
unfolding transaction_bytes
length-transaction_bytes_pos tx =
    let body = encode_all (λ s. s) tx.signatures ++ message_bytes tx.message in
    let count = encode_compact_u16 (length tx.signatures) in
    omega (arith, length-append count body, length-encode_compact_u16_pos (length tx.signatures))

-- Each transaction takes a byte at least.
length-encode_all_ge :
    (txs : List VersionedTransaction) → length txs ≤ length (encode_all transaction_bytes txs)
unfolding encode_all
length-encode_all_ge [] = omega arith
length-encode_all_ge (tx ∷ txs) = omega (
  arith,
  length-append (transaction_bytes tx) (encode_all transaction_bytes txs),
  length-transaction_bytes_pos tx,
  length-encode_all_ge txs,
)

-- An entry is decoded to its transactions whatever follows it, and exactly its bytes are consumed.
pub decode-entry_bytes :
    (e : Entry) (rest : List ℕ)
    → IsEntry e
    → decode_entry (entry_bytes e ++ rest) ≡ complete e.transactions (length (entry_bytes e))
unfolding decode_entry entry_bytes
decode-entry_bytes e rest v =
    let body = encode_all transaction_bytes e.transactions in
    let reads =
      times-Reads IsTransaction (λ tx h. nested-Reads (decode_transaction-Reads tx h))
        e.transactions v.valid in
    let at_48 = rw (length-entry_header e v) at (reads.read_at (entry_header e) rest) in
    let whole : (entry_header e ++ body) ++ rest ≡ entry_header e ++ (body ++ rest) =
      append_assoc (entry_header e) body rest in
    rw whole (
      ground (
        arith,
        at_48,
        tx_count_lem e (body ++ rest) v,
        length-entry_header e v,
        length-append (entry_header e) (body ++ rest),
        length-append body rest,
        length-append (entry_header e) body,
        length-encode_all_ge e.transactions,
      ))

length-entry_bytes : (e : Entry) → IsEntry e → 48 ≤ length (entry_bytes e)
unfolding entry_bytes
length-entry_bytes e v =
    let body = encode_all transaction_bytes e.transactions in
    omega (arith, length-append (entry_header e) body, length-entry_header e v)

pub length-entries_ge :
    (es : List Entry) → All IsEntry es → length es * 48 ≤ length (encode_all entry_bytes es)
unfolding encode_all
length-entries_ge [] h = omega arith
length-entries_ge (e ∷ es) (v, vs) = omega (
  arith,
  length-append (entry_bytes e) (encode_all entry_bytes es),
  length-entry_bytes e v,
  length-entries_ge es vs,
)

batch_loop_entry :
    (n : ℕ) (e : Entry) (pre rest : List ℕ) (txs : List VersionedTransaction)
    → IsEntry e
    → batch_loop (suc n) (pre ++ (entry_bytes e ++ rest)) (length pre) txs
      ≡ batch_loop n
          (pre ++ (entry_bytes e ++ rest))
          (length pre + length (entry_bytes e))
          (txs ++ e.transactions)
unfolding batch_loop
batch_loop_entry n e pre rest txs v =
    let behind = drop-length pre (entry_bytes e ++ rest) in
    let found : decode_entry (drop (length pre) (pre ++ (entry_bytes e ++ rest)))
        ≡ complete e.transactions (length (entry_bytes e)) =
      ap decode_entry behind ∙ decode-entry_bytes e rest v in
    ground (
      arith,
      found,
      length-append pre (entry_bytes e ++ rest),
      length-append (entry_bytes e) rest,
      length-entry_bytes e v,
    )

pub batch_loop-entries :
    (es : List Entry) (pre rest : List ℕ) (txs : List VersionedTransaction)
    → All IsEntry es
    → batch_loop (length es) (pre ++ (encode_all entry_bytes es ++ rest)) (length pre) txs
      ≡ ok (length pre + length (encode_all entry_bytes es), txs ++ batch_transactions es)
unfolding encode_all batch_transactions
batch_loop-entries [] pre rest txs h =
    let e : length pre + 0 ≡ length pre = omega arith in
    rw (e, append-nil) (unfold batch_loop in refl)
batch_loop-entries (e ∷ es) pre rest txs (v, vs) =
    let others = encode_all entry_bytes es in
    let p : pre ++ ((entry_bytes e ++ others) ++ rest)
        ≡ pre ++ (entry_bytes e ++ (others ++ rest)) =
      ap (◌++◌ pre) (append_assoc (entry_bytes e) others rest) in
    let q : (pre ++ entry_bytes e) ++ (others ++ rest)
        ≡ pre ++ (entry_bytes e ++ (others ++ rest)) =
      append_assoc pre (entry_bytes e) (others ++ rest) in
    let next =
      rw (q, length-append pre (entry_bytes e)) at
        (batch_loop-entries es (pre ++ entry_bytes e) rest (txs ++ e.transactions) vs) in
    let total : length pre + length (entry_bytes e) + length others
        ≡ length pre + length (entry_bytes e ++ others) =
      omega (arith, length-append (entry_bytes e) others) in
    rw p (
      batch_loop_entry (length es) e pre (others ++ rest) txs v
      ∙ next
      ∙ ap₂ (λ (n : ℕ) (l : List VersionedTransaction). ok (n, l)) total
          (append_assoc txs e.transactions (batch_transactions es)))
