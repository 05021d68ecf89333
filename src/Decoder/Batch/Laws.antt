-- ===== src/Decoder/Batch/Laws.antt =====
-- Entries and batches: what a decoded entry is bounded by, and that more bytes do not change it.
use shredstream_sdk_go.Prelude.{
  ℕ, zero, suc, ◌+◌, ◌*◌, ◌≤◌, ◌<◌, ◌≡◌, refl, List, ◌++◌, arith, inl, inr, ◌⊎◌, length,
  length-append, length-drop, drop, slice, slice-append, little_endian,
}
use shredstream_sdk_go.Decoder.Reader.{complete, DecodeError, times, nested}
use shredstream_sdk_go.Decoder.Reader.Laws.{IsSteady, times-IsSteady, nested-IsSteady}
use shredstream_sdk_go.Decoder.Types.{VersionedTransaction}
use shredstream_sdk_go.Decoder.Transaction.{decode_transaction}
use shredstream_sdk_go.Decoder.Transaction.Laws.{decode_transaction-IsSteady}
use shredstream_sdk_go.Decoder.Batch.{Decoded, ok, err, decode_entry, batch_loop}

transactions-IsSteady : (n : ℕ) → IsSteady (times n (nested decode_transaction))
transactions-IsSteady n = times-IsSteady n (nested-IsSteady decode_transaction-IsSteady)

-- A decoded entry takes its 48 bytes of header at least, and lies in the slice.
pub decode_entry_bounds :
    (b : List ℕ) (txs : List VersionedTransaction) (consumed : ℕ)
    → decode_entry b ≡ complete txs consumed
    → (48 ≤ consumed) × (consumed ≤ length b)
unfolding decode_entry
decode_entry_bounds b txs consumed e =
    let n = little_endian (slice b 40 48) in
    let steady = transactions-IsSteady n in ground (arith, steady.bounds b 48 txs consumed)

-- Bytes behind a decoded entry do not change it.
pub decode_entry-append :
    (b more : List ℕ) (txs : List VersionedTransaction) (consumed : ℕ)
    → decode_entry b ≡ complete txs consumed
    → decode_entry (b ++ more) ≡ complete txs consumed
unfolding decode_entry
decode_entry-append b more txs consumed e =
    let n = little_endian (slice b 40 48) in
    let steady = transactions-IsSteady n in
    ground
      (arith, length-append b more, slice-append b more 40 48, steady.extend b more 48 txs consumed)

-- A round of a loop that succeeds decodes an entry and goes on behind it.
pub batch_loop_step :
    (n : ℕ) (b : List ℕ) (pos : ℕ) (txs : List VersionedTransaction)
    {r : ℕ × List VersionedTransaction}
    → batch_loop (suc n) b pos txs ≡ ok r
    → (entry : List VersionedTransaction) × (used : ℕ) × (pos < length b)
      × (decode_entry (drop pos b) ≡ complete entry used)
      × (batch_loop n b (pos + used) (txs ++ entry) ≡ ok r)
unfolding batch_loop
batch_loop_step n b pos txs h = ground arith

-- A loop over `n` entries that succeeds takes 48 bytes for each at least.
pub batch_loop_bounds :
    (n : ℕ) (b : List ℕ) (pos : ℕ) (txs : List VersionedTransaction) {next : ℕ}
    {out : List VersionedTransaction}
    → pos ≤ length b
    → batch_loop n b pos txs ≡ ok (next, out)
    → (pos + 48 * n ≤ next) × (next ≤ length b)
batch_loop_bounds zero b pos txs h e = unfold batch_loop in ground arith
batch_loop_bounds (suc n) b pos txs h e =
    let (entry, used, inside, found, rest) = batch_loop_step n b pos txs e in
    let (lo, hi) = decode_entry_bounds (drop pos b) entry used found in
    let within : pos + used ≤ length b = omega (arith, length-drop pos b) in
    omega (arith, batch_loop_bounds n b (pos + used) (txs ++ entry) within rest)

pub Decoded-cases {ℓ} :
    {A : Type ℓ} (d : Decoded A) → ((a : A) × (d ≡ ok a)) ⊎ ((e : DecodeError) × (d ≡ err e))
Decoded-cases (ok a) = inl (a, refl)
Decoded-cases (err e) = inr (e, refl)
