-- ===== src/Decoder/Streaming/Complete.antt =====
-- The streaming decoder against DecodeBatch on all that was pushed.
use shredstream_sdk_go.Prelude.{
  ℕ, zero, suc, ◌+◌, ◌-◌, ◌*◌, ◌≤◌, ◌<◌, ◌≡◌, refl, sym, ap, ◌∙◌, List, [], ◌∷◌, ◌++◌, concat,
  append-nil, dec_lt, true, false, arith, inl, inr, ◌⊎◌, length, drop, slice,
}
use shredstream_sdk_go.Decoder.Reader.{complete, DecodeError}
use shredstream_sdk_go.Decoder.Types.{VersionedTransaction}
use shredstream_sdk_go.Decoder.Batch.{
  ok, err, decode_entry, max_entry_count, batch_loop, entry_count, validate_vec_prefix,
  decode_batch,
}
use shredstream_sdk_go.Decoder.Streaming.{
  StreamingDecoder, Pushed, new_streaming_decoder, stream_loop, yield_entries, next_count, push,
}
use shredstream_sdk_go.Decoder.Streaming.Loop.{
  IsValid, extend, prepend, stops, breaks, takes, stream-Round, stream_loop_takes, stream_loop-zero,
  after_entry, ok_pair, err_pair, stream_loop-Kept,
}
use shredstream_sdk_go.Decoder.Streaming.Chunks.{
  push-append, push-IsValid, try_deserialize_short, try_deserialize_count, try_deserialize_many,
  with_count, yield_entries_set,
}

-- Every entry that the batch said to expect has come out.
pub record IsFinished (d : StreamingDecoder) : Type 0 where
  pub counted : d.expected_count_set ≡ true
  pub all : d.entries_yielded ≡ d.expected_count

batch_loop_takes :
    (n : ℕ) (b : List ℕ) (pos : ℕ) (txs entry : List VersionedTransaction) (used : ℕ)
    → pos < length b
    → decode_entry (drop pos b) ≡ complete entry used
    → batch_loop (suc n) b pos txs ≡ batch_loop n b (pos + used) (txs ++ entry)
unfolding batch_loop
batch_loop_takes n b pos txs entry used h e = ground arith

-- A streaming loop that takes all its entries is DecodeBatch's loop.
stream-batch_loop :
    (n : ℕ) (d d1 : StreamingDecoder) (txs out : List VersionedTransaction)
    → n + d.entries_yielded ≡ d.expected_count
    → stream_loop n d txs ≡ (d1, ok out)
    → d1.entries_yielded ≡ d1.expected_count
    → batch_loop n d.buffer d.cursor txs ≡ ok (d1.cursor, out)
stream-batch_loop zero d d1 txs out rounds e fin =
    let (p, q) = ok_pair (sym (stream_loop-zero d txs) ∙ e) in
    unfold batch_loop in rw (← p, ← q) refl
stream-batch_loop (suc n) d d1 txs out rounds e fin = elim (stream-Round d) [
  | stops stop ↦
      let (p, q) = ok_pair (sym (stop n txs) ∙ e) in
      let same : d.entries_yielded ≡ d.expected_count = rw (← p) at fin in absurd (omega arith)
  | breaks x broken ↦ err_pair (sym (broken n txs) ∙ e)
  | takes entry used h found ↦
      let rounds' : n + (d.entries_yielded + 1) ≡ d.expected_count = omega arith in
      batch_loop_takes n d.buffer d.cursor txs entry used h found
      ∙ stream-batch_loop n (after_entry d used) d1 (txs ++ entry) out rounds'
          (sym (stream_loop_takes n d txs entry used h found) ∙ e) fin
]

new-IsValid : IsValid new_streaming_decoder
unfolding new_streaming_decoder
new-IsValid = record { inside = omega arith; yielded = omega arith; unset = λ e. omega arith }

-- The decoder that has seen `b` and nothing else.
abbrev holding : List ℕ → StreamingDecoder
holding b = extend new_streaming_decoder b

next_count-holding : (b : List ℕ) → next_count (holding b) ≡ entry_count b
unfolding next_count entry_count slice new_streaming_decoder
next_count-holding b = refl

valid_prefix :
    (b : List ℕ)
    → 8 ≤ length b
    → entry_count b ≤ max_entry_count
    → entry_count b * 48 ≤ length b
    → validate_vec_prefix b ≡ true
unfolding validate_vec_prefix
valid_prefix b long few fits = ground arith

counted_batch :
    (b : List ℕ) (d1 : StreamingDecoder) (out : List VersionedTransaction)
    → 8 ≤ length b
    → entry_count b ≤ max_entry_count
    → yield_entries (with_count (holding b)) ≡ (d1, ok out)
    → IsFinished d1
    → decode_batch b ≡ ok out
unfolding decode_batch new_streaming_decoder
counted_batch b d1 out long few e fin =
    let start = with_count (holding b) in
    let same : next_count (holding b) ≡ entry_count b = next_count-holding b in
    let n = next_count (holding b) - 0 in
    let loop : stream_loop n start [] ≡ (d1, ok out) = sym (yield_entries_set start refl) ∙ e in
    let kept = stream_loop-Kept n start [] long in
    let k = rw loop at kept in
    let fits : entry_count b * 48 ≤ length b =
      omega (arith, k.progress, k.inside, k.count, fin.all, same) in
    let batch = stream-batch_loop n start d1 [] out (omega arith) loop fin.all in
    let rounds : n ≡ entry_count b = omega (arith, same) in
    let batch' = rw rounds at batch in rw (valid_prefix b long few fits, batch') refl

unset_holding : (b : List ℕ) → (holding b).expected_count_set ≡ false
unfolding new_streaming_decoder
unset_holding b = refl

long_holding : (b : List ℕ) → 8 ≤ length b → (holding b).cursor + 8 ≤ length (holding b).buffer
unfolding new_streaming_decoder
long_holding b h = h

short_holding : (b : List ℕ) → length b < 8 → length (holding b).buffer < (holding b).cursor + 8
unfolding new_streaming_decoder
short_holding b h = h

push_new-decode_batch :
    (b : List ℕ) (d1 : StreamingDecoder) (out : List VersionedTransaction)
    → push new_streaming_decoder b ≡ (d1, ok out)
    → IsFinished d1
    → decode_batch b ≡ ok out
unfolding push
push_new-decode_batch b d1 out e fin = elim (dec_lt (length b) 8) [
  | yes short ↦
      let (p, q) =
        ok_pair
          (sym (try_deserialize_short (holding b) (unset_holding b) (short_holding b short)) ∙ e) in
      let flag : d1.expected_count_set ≡ false =
        ap (λ (x : StreamingDecoder). x.expected_count_set) (sym p) ∙ unset_holding b in
      let clash : true ≡ false = sym fin.counted ∙ flag in cc
  | no not_short ↦
      let long = long_holding b (omega arith) in
      elim (dec_lt max_entry_count (next_count (holding b))) [
        | yes many ↦
            err_pair (sym (try_deserialize_many (holding b) (unset_holding b) long many) ∙ e)
        | no not_many ↦
            let few : next_count (holding b) ≤ max_entry_count = omega arith in
            counted_batch b d1 out (omega arith) (rw next_count-holding at few)
              (sym (try_deserialize_count (holding b) (unset_holding b) long few) ∙ e) fin
      ]
]

-- The payloads one after the other, up to the first error.
abbrev and_then : Pushed → (StreamingDecoder → Pushed) → Pushed
and_then (d, ok txs) k = prepend txs (k d)
and_then (d, err e) k = (d, err e)

unfoldable pub feed : StreamingDecoder → List (List ℕ) → Pushed
feed d [] = (d, ok [])
feed d (c ∷ cs) = and_then (push d c) (λ d'. feed d' cs)

pushed_cases :
    (r : Pushed)
    → ((d : StreamingDecoder) × (txs : List VersionedTransaction) × (r ≡ (d, ok txs)))
      ⊎ ((d : StreamingDecoder) × (e : DecodeError) × (r ≡ (d, err e)))
pushed_cases (d, ok txs) = inl (d, txs, refl)
pushed_cases (d, err e) = inr (d, e, refl)

prepend_last :
    (d : StreamingDecoder) (txs : List VersionedTransaction) → prepend txs (d, ok []) ≡ (d, ok txs)
prepend_last d txs = rw append-nil refl

prepend-eq-ok :
    (txs : List VersionedTransaction) (r : Pushed) {d1 : StreamingDecoder}
    {out : List VersionedTransaction}
    → prepend txs r ≡ (d1, ok out)
    → (rest : List VersionedTransaction) × (r ≡ (d1, ok rest))
prepend-eq-ok txs (d, ok rest) e = (rest, ap (λ (x : StreamingDecoder). (x, ok rest)) (ok_pair e).0)
prepend-eq-ok txs (d, err x) e = err_pair e

-- Payloads that are fed without an error have the effect of their concatenation.
pub feed-concat :
    (c : List ℕ) (cs : List (List ℕ)) (d d1 : StreamingDecoder) (out : List VersionedTransaction)
    → IsValid d
    → feed d (c ∷ cs) ≡ (d1, ok out)
    → push d (concat (c ∷ cs)) ≡ (d1, ok out)
unfolding feed
feed-concat c [] d d1 out v e = elim (pushed_cases (push d c)) [
  | inl (d', txs, first) ↦
      let both = rw first at e in rw append-nil (first ∙ sym (prepend_last d' txs) ∙ both)
  | inr (d', x, broken) ↦ err_pair (rw broken at e)
]
feed-concat c (c' ∷ cs) d d1 out v e = elim (pushed_cases (push d c)) [
  | inl (d', txs, first) ↦
      let both : prepend txs (feed d' (c' ∷ cs)) ≡ (d1, ok out) = rw first at e in
      let v' : IsValid d' = rw first at (push-IsValid d c v) in
      let (rest, second) = prepend-eq-ok txs (feed d' (c' ∷ cs)) both in
      push-append d d' c (concat (c' ∷ cs)) txs v first
      ∙ ap (prepend txs) (feed-concat c' cs d' d1 rest v' second ∙ sym second)
      ∙ both
  | inr (d', x, broken) ↦ err_pair (rw broken at e)
]

-- When the payloads of a batch, cut anywhere, have been pushed without an error and every expected
-- entry has come out, then what came out is what DecodeBatch finds in the payloads put together.
pub feed-decode_batch :
    (c : List ℕ) (cs : List (List ℕ)) (d : StreamingDecoder) (out : List VersionedTransaction)
    → feed new_streaming_decoder (c ∷ cs) ≡ (d, ok out)
    → IsFinished d
    → decode_batch (concat (c ∷ cs)) ≡ ok out
feed-decode_batch c cs d out e fin =
    push_new-decode_batch (concat (c ∷ cs)) d out
      (feed-concat c cs new_streaming_decoder d out new-IsValid e) fin
