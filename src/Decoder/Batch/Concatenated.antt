-- ===== src/Decoder/Batch/Concatenated.antt =====
-- What DecodeConcatenated of decoder.go finds: batch after batch.
use shredstream_sdk_go.Prelude.{
  ℕ, zero, suc, ◌+◌, ◌-◌, ◌≤◌, ◌<◌, ◌≡◌, sym, subst, ◌∙◌, List, [], ◌++◌, true, false, arith,
  append-nil, append_assoc, Bool-cases, inl, inr, length, length-drop, drop, drop-drop,
}
use mathlib.Core.Logic.{dif_pos, dif_neg}
use mathlib.Core.WellFounded.{Acc}
use native.Mathlib.Bridge.{le_prop}
use native.Mathlib.Decide.{dec_le, ℕ_discrete}
use shredstream_sdk_go.Decoder.Reader.{DecodeError}
use shredstream_sdk_go.Decoder.Types.{VersionedTransaction}
use shredstream_sdk_go.Decoder.Batch.{
  ok, err, entry_count, validate_vec_prefix, batch_loop, concatenated_loop, decode_concatenated,
  Further, moves_on, Acc-Further,
}
use shredstream_sdk_go.Decoder.Batch.Laws.{batch_loop_bounds, Decoded-cases}

-- The bytes start with a valid batch, which takes `pos` of them.
pub record StartsWith (b : List ℕ) (pos : ℕ) (txs : List VersionedTransaction) : Type 0 where
  pub valid : validate_vec_prefix b ≡ true
  pub decoded : batch_loop (entry_count b) b 8 [] ≡ ok (pos, txs)

valid-length : (b : List ℕ) → validate_vec_prefix b ≡ true → 8 ≤ length b
unfolding validate_vec_prefix
valid-length b valid = ground arith

-- A valid batch takes 8 bytes at least.
StartsWith-bounds :
    (b : List ℕ) (pos : ℕ) (txs : List VersionedTransaction)
    → StartsWith b pos txs
    → (8 ≤ pos) × (pos ≤ length b)
StartsWith-bounds b pos txs h =
    let (lo, hi) = batch_loop_bounds (entry_count b) b 8 [] (valid-length b h.valid) h.decoded in
    (omega arith, hi)

long-of-valid :
    (b : List ℕ) (offset : ℕ) → validate_vec_prefix (drop offset b) ≡ true → offset + 8 ≤ length b
long-of-valid b offset valid =
    omega (arith, valid-length (drop offset b) valid, length-drop offset b)

module _ (b : List ℕ) (offset : ℕ) (out : List VersionedTransaction) where
  pub loop_invalid :
      (w : Acc (Further b) offset)
      → validate_vec_prefix (drop offset b) ≡ false
      → concatenated_loop b offset out w ≡ out
  unfolding concatenated_loop
  loop_invalid (Acc.intro _ further) e = ground arith

  loop_broken :
      (w : Acc (Further b) offset) (e : DecodeError)
      → batch_loop (entry_count (drop offset b)) (drop offset b) 8 [] ≡ err e
      → concatenated_loop b offset out w ≡ out
  unfolding concatenated_loop
  loop_broken (Acc.intro _ further) e broken = ground arith

  -- A round that meets a valid batch goes on behind it.
  pub loop_takes :
      (w : Acc (Further b) offset) (pos : ℕ) (txs : List VersionedTransaction)
      → StartsWith (drop offset b) pos txs
      → (w' : Acc (Further b) (offset + pos)) × (concatenated_loop b offset out w
          ≡ concatenated_loop b (offset + pos) (out ++ txs) w')
  unfolding concatenated_loop
  loop_takes (Acc.intro _ further) pos txs h =
      let long = long-of-valid b offset h.valid in
      let moved : ¬ (pos ≡ 0) =
        λ e. let (lo, hi) = StartsWith-bounds (drop offset b) pos txs h in omega arith in
      (
        further (offset + pos) (moves_on b offset pos long moved),
        dif_pos (dec_le (offset + 8) (length b)) le_prop long _ _
            ∙ rw (h.valid, h.decoded) (dif_neg (ℕ_discrete pos 0) moved _ _),
      )

-- What a run over the bytes finds: batch after batch, as long as one starts where the last one ended.
pub data Batches : List ℕ → List VersionedTransaction → Type 0 where
  stop :
      (b : List ℕ)
      → ((pos : ℕ) (txs : List VersionedTransaction) → ¬ StartsWith b pos txs)
      → Batches b []
  batch :
      (b : List ℕ) (pos : ℕ) (txs rest : List VersionedTransaction)
      → StartsWith b pos txs
      → Batches (drop pos b) rest
      → Batches b (txs ++ rest)

-- A round of DecodeConcatenated stops, or takes one whole batch.
data Round (b : List ℕ) (offset : ℕ) (out : List VersionedTransaction) : Type 0 where
  stops :
      ((pos : ℕ) (txs : List VersionedTransaction) → ¬ StartsWith (drop offset b) pos txs)
      → ((w : Acc (Further b) offset) → concatenated_loop b offset out w ≡ out)
      → Round b offset out
  takes :
      (pos : ℕ) (txs : List VersionedTransaction)
      → StartsWith (drop offset b) pos txs
      → Round b offset out

concatenated-Round :
    (b : List ℕ) (offset : ℕ) (out : List VersionedTransaction) → Round b offset out
concatenated-Round b offset out = elim (Bool-cases (validate_vec_prefix (drop offset b))) [
  | inr invalid ↦ stops (λ pos txs h. cc (h.valid)) (λ w. loop_invalid b offset out w invalid)
  | inl valid ↦
      elim (Decoded-cases (batch_loop (entry_count (drop offset b)) (drop offset b) 8 [])) [
        | inr (e, broken) ↦
            stops (λ pos txs h. cc (h.decoded)) (λ w. loop_broken b offset out w e broken)
        | inl ((pos, txs), found) ↦ takes pos txs (record { valid = valid; decoded = found })
      ]
]

-- The rounds from an offset.
Rest : (b : List ℕ) (offset : ℕ) (out : List VersionedTransaction) → Acc (Further b) offset → Type 0
Rest b offset out w =
    (found : List VersionedTransaction) × (concatenated_loop b offset out w ≡ out ++ found)
    × Batches (drop offset b) found

concatenated_loop-Batches :
    (bound : ℕ) (b : List ℕ) (offset : ℕ) (out : List VersionedTransaction)
    (w : Acc (Further b) offset)
    → length b - offset < bound
    → Rest b offset out w
unfolding Rest
concatenated_loop-Batches zero b offset out w h = elim h [ ]
concatenated_loop-Batches (suc bound) b offset out w h = elim (concatenated-Round b offset out) [
  | stops nothing ends ↦ ([], ends w ∙ sym (append-nil out), stop (drop offset b) nothing)
  | takes pos txs starts ↦
      let (w', goes) = loop_takes b offset out w pos txs starts in
      let (lo, hi) = StartsWith-bounds (drop offset b) pos txs starts in
      let less : length b - (offset + pos) < bound = omega (arith, length-drop offset b) in
      let (found, all, rest) =
        concatenated_loop-Batches bound b (offset + pos) (out ++ txs) w' less in
      (
        txs ++ found,
        goes ∙ all ∙ append_assoc out txs found,
        batch (drop offset b) pos txs found starts
            (subst (λ r. Batches r found) (sym (drop-drop pos offset b)) rest),
      )
]

-- DecodeConcatenated gives the transactions of the batches that follow one another from the start of
-- the bytes, in order, up to the first place where no batch with a valid count that decodes whole
-- starts.
pub decode_concatenated-Batches : (b : List ℕ) → Batches b (decode_concatenated b)
unfolding decode_concatenated Rest
decode_concatenated-Batches b =
    let (found, all, rest) =
      concatenated_loop-Batches (suc (length b)) b 0 [] (Acc-Further b 0) (omega arith) in
    subst (Batches b) (sym all) rest
