-- ===== src/Decoder/Batch.antt =====
-- decodeEntry, validateVecPrefix, DecodeBatch and DecodeConcatenated of decoder.go.
pub mod Laws
pub mod Concatenated
pub mod Wire
pub mod RoundTrip
use shredstream_sdk_go.Prelude.{
  ℕ, zero, suc, ◌+◌, ◌-◌, ◌*◌, ◌%◌, ◌^◌, List, [], ◌∷◌, ◌++◌, Bool, true, false, ltb, leb, ◌==◌,
  if◌then◌else◌, ◌&&◌, not, length, drop, take, slice, little_endian, ◌≡◌, ◌≤◌, ◌<◌, arith,
  ℕ_discrete, dec_le,
}
use mathlib.Core.Logic.{dite}
use mathlib.Core.WellFounded.{Acc}
use shredstream_sdk_go.Decoder.Reader.{
  Outcome, complete, incomplete, failed, DecodeError, invalid_tx_count, truncated_batch,
  truncated_entry, times, nested,
}
use shredstream_sdk_go.Decoder.Types.{VersionedTransaction}
use shredstream_sdk_go.Decoder.Transaction.{decode_transaction}

-- Go's `(txs, err)`. A nil slice of transactions is the empty list.
pub data Decoded {ℓ} (A : Type ℓ) : Type ℓ where
  ok : A → Decoded A
  err : DecodeError → Decoded A

abbrev pub max_entry_count : ℕ
max_entry_count = 50000

-- num_hashes (8 bytes), hash (32 bytes), the number of transactions (8 bytes), the transactions.
unfoldable pub decode_entry : List ℕ → Outcome (List VersionedTransaction)
decode_entry b =
    if ltb (length b) 48
    then incomplete
    else let tx_count = little_endian (slice b 40 48) in
      if ltb (length b - 48) tx_count
      then failed (invalid_tx_count tx_count)
      else times tx_count (nested decode_transaction) b 48

unfoldable pub entry_count : List ℕ → ℕ
entry_count b = little_endian (take 8 b)

unfoldable pub validate_vec_prefix : List ℕ → Bool
validate_vec_prefix b =
    if ltb (length b) 8
    then false
    else if ltb max_entry_count (entry_count b)
    then false
    else if ltb 0 (entry_count b) && ltb (length b) (entry_count b * 48 % 2 ^ 64)
    then false
    else true

-- The loop over the entries, on the rounds left. It gives the position reached as well, which
-- DecodeConcatenated uses: its inner loop is this one, with every failure read as `ok = false`.
unfoldable pub batch_loop :
    ℕ → List ℕ → ℕ → List VersionedTransaction → Decoded (ℕ × List VersionedTransaction)
batch_loop zero b pos txs = ok (pos, txs)
batch_loop (suc n) b pos txs = elim (leb (length b) pos) [
  | true ↦ err truncated_batch
  | false ↦ elim (decode_entry (drop pos b)) [
    | complete entry_txs consumed ↦ batch_loop n b (pos + consumed) (txs ++ entry_txs)
    | incomplete ↦ err truncated_entry
    | failed e ↦ err e
  ]
]

abbrev pub transactions_of :
    Decoded (ℕ × List VersionedTransaction) → Decoded (List VersionedTransaction)
transactions_of (ok (pos, txs)) = ok txs
transactions_of (err e) = err e

-- An invalid prefix gives `nil, nil`.
unfoldable pub decode_batch : List ℕ → Decoded (List VersionedTransaction)
decode_batch b =
    if validate_vec_prefix b then transactions_of (batch_loop (entry_count b) b 8 []) else ok []

-- Fewer bytes are left at the offset `next` than at `offset`.
abbrev pub Further : List ℕ → ℕ → ℕ → Type 0
Further b next offset = length b - next < length b - offset

pub Acc-Further_below :
    (b : List ℕ) (bound offset : ℕ) → length b - offset < bound → Acc (Further b) offset
Acc-Further_below b zero offset h = elim h [ ]
Acc-Further_below b (suc bound) offset h =
    Acc.intro offset (λ next further. Acc-Further_below b bound next (omega arith))

unfoldable pub Acc-Further : (b : List ℕ) (offset : ℕ) → Acc (Further b) offset
unfolding Acc-Further_below
Acc-Further b offset = Acc-Further_below b (suc (length b - offset)) offset (omega arith)

-- The two tests of the loop leave fewer bytes for the next round.
pub moves_on :
    (b : List ℕ) (offset pos : ℕ)
    → offset + 8 ≤ length b
    → ¬ (pos ≡ 0)
    → Further b (offset + pos) offset
moves_on b offset pos long moved = omega arith

-- `for offset+8 <= len(b)`, without fuel: each round but the last leaves fewer bytes.
unfoldable pub concatenated_loop :
    (b : List ℕ) (offset : ℕ)
    → List VersionedTransaction
    → Acc (Further b) offset
    → List VersionedTransaction
concatenated_loop b offset out (Acc.intro _ further) =
    dite (dec_le (offset + 8) (length b))
      (λ long. elim (validate_vec_prefix (drop offset b)) [
        | false ↦ out
        | true ↦ elim (batch_loop (entry_count (drop offset b)) (drop offset b) 8 []) [
          | err e ↦ out
          | ok (pos, batch_txs) ↦
              dite (ℕ_discrete pos 0) (λ still. out)
                (λ moved.
                  concatenated_loop b (offset + pos) (out ++ batch_txs)
                    (further (offset + pos) (moves_on b offset pos long moved)))
        ]
      ])
      (λ short. out)

unfoldable pub decode_concatenated : List ℕ → List VersionedTransaction
decode_concatenated b = concatenated_loop b 0 [] (Acc-Further b 0)
