-- ===== src/Decoder/Streaming/Loop.antt =====
-- The rounds of tryDeserialize's loop: a longer buffer continues a loop that met no error.
use shredstream_sdk_go.Prelude.{
  ℕ, zero, suc, ◌+◌, ◌-◌, ◌*◌, ◌≤◌, ◌<◌, ◌≡◌, refl, sym, ap, ◌∙◌, List, ◌++◌, append_assoc, false,
  arith, leb, Bool-cases, inl, inr, ◌⊎◌, length, length-append, length-drop, drop, drop-append,
}
use shredstream_sdk_go.Decoder.Reader.{Outcome, complete, incomplete, failed, DecodeError}
use shredstream_sdk_go.Decoder.Types.{VersionedTransaction}
use shredstream_sdk_go.Decoder.Batch.{ok, err, decode_entry}
use shredstream_sdk_go.Decoder.Batch.Laws.{decode_entry_bounds, decode_entry-append}
use shredstream_sdk_go.Decoder.Streaming.{StreamingDecoder, Pushed, stream_loop}

-- The cursor stands in the buffer, no more entries came out than are expected, and nothing has been
-- read before the count is known.
pub record IsValid (d : StreamingDecoder) : Type 0 where
  pub inside : d.cursor ≤ length d.buffer
  pub yielded : d.entries_yielded ≤ d.expected_count
  pub unset : d.expected_count_set ≡ false → d.cursor + d.entries_yielded + d.expected_count ≡ 0

abbrev pub extend : StreamingDecoder → List ℕ → StreamingDecoder
extend d more = record d { buffer = d.buffer ++ more }

abbrev pub prepend : List VersionedTransaction → Pushed → Pushed
prepend txs (d, ok out) = (d, ok (txs ++ out))
prepend txs (d, err e) = (d, err e)

abbrev pub after_entry : StreamingDecoder → ℕ → StreamingDecoder
after_entry d used = record d { cursor = d.cursor + used; entries_yielded = d.entries_yielded + 1 }

-- What a round of the loop does.
pub data Round (d : StreamingDecoder) : Type 0 where
  stops :
      ((n : ℕ) (txs : List VersionedTransaction) → stream_loop (suc n) d txs ≡ (d, ok txs))
      → Round d
  breaks :
      (e : DecodeError)
      → ((n : ℕ) (txs : List VersionedTransaction) → stream_loop (suc n) d txs ≡ (d, err e))
      → Round d
  takes :
      (entry : List VersionedTransaction) (used : ℕ)
      → d.cursor < length d.buffer
      → decode_entry (drop d.cursor d.buffer) ≡ complete entry used
      → Round d

Outcome-cases {ℓ} :
    {A : Type ℓ} (o : Outcome A)
    → ((a : A) × (n : ℕ) × (o ≡ complete a n))
      ⊎ ((o ≡ incomplete) ⊎ ((e : DecodeError) × (o ≡ failed e)))
Outcome-cases (complete a n) = inl (a, n, refl)
Outcome-cases incomplete = inr (inl refl)
Outcome-cases (failed e) = inr (inr (e, refl))

pub stream-Round : (d : StreamingDecoder) → Round d
unfolding stream_loop
stream-Round d = elim (Bool-cases (leb (length d.buffer) d.cursor)) [
  | inl done ↦ stops (λ n txs. ground arith)
  | inr more ↦ elim (Outcome-cases (decode_entry (drop d.cursor d.buffer))) [
    | inl (entry, used, found) ↦ takes entry used (ground arith) found
    | inr (inl short) ↦ stops (λ n txs. ground arith)
    | inr (inr (e, broken)) ↦ breaks e (λ n txs. ground arith)
  ]
]

pub stream_loop-zero :
    (d : StreamingDecoder) (txs : List VersionedTransaction) → stream_loop zero d txs ≡ (d, ok txs)
unfolding stream_loop
stream_loop-zero d txs = refl

-- The round that takes an entry.
pub stream_loop_takes :
    (n : ℕ) (d : StreamingDecoder) (txs entry : List VersionedTransaction) (used : ℕ)
    → d.cursor < length d.buffer
    → decode_entry (drop d.cursor d.buffer) ≡ complete entry used
    → stream_loop (suc n) d txs ≡ stream_loop n (after_entry d used) (txs ++ entry)
unfolding stream_loop
stream_loop_takes n d txs entry used h e = ground arith

prepend_assoc :
    (xs ys : List VersionedTransaction) (r : Pushed)
    → prepend (xs ++ ys) r ≡ prepend xs (prepend ys r)
prepend_assoc xs ys (d, ok out) = ap (λ o. (d, ok o)) (append_assoc xs ys out)
prepend_assoc xs ys (d, err e) = refl

-- The transactions gathered before a loop come out in front.
pub stream_loop-prepend :
    (n : ℕ) (d : StreamingDecoder) (txs out : List VersionedTransaction)
    → stream_loop n d (txs ++ out) ≡ prepend txs (stream_loop n d out)
stream_loop-prepend zero d txs out = unfold stream_loop in refl
stream_loop-prepend (suc n) d txs out = elim (stream-Round d) [
  | stops stop ↦ rw (stop n (txs ++ out), stop n out) refl
  | breaks e broken ↦ rw (broken n (txs ++ out), broken n out) refl
  | takes entry used h found ↦
      rw
        (
          stream_loop_takes n d (txs ++ out) entry used h found,
          stream_loop_takes n d out entry used h found,
          append_assoc txs out entry,
        )
        (stream_loop-prepend n (after_entry d used) txs (out ++ entry))
]

pub ok_pair :
    {d d' : StreamingDecoder} {txs out : List VersionedTransaction}
    → ◌≡◌ {A = Pushed} (d, ok txs) (d', ok out)
    → (d ≡ d') × (txs ≡ out)
ok_pair e = (ap (λ (p : Pushed). p.0) e, cc)

pub err_pair {ℓ} :
    {P : Type ℓ} {d d' : StreamingDecoder} {e : DecodeError} {out : List VersionedTransaction}
    → ◌≡◌ {A = Pushed} (d, err e) (d', ok out)
    → P
err_pair e = cc

-- A loop that ends without an error goes on over a longer buffer from where it stopped.
pub stream_loop-extend :
    (n : ℕ) (d d1 : StreamingDecoder) (more : List ℕ) (txs out : List VersionedTransaction)
    → n + d.entries_yielded ≡ d.expected_count
    → stream_loop n d txs ≡ (d1, ok out)
    → stream_loop n (extend d more) txs
      ≡ stream_loop (d1.expected_count - d1.entries_yielded) (extend d1 more) out
stream_loop-extend zero d d1 more txs out rounds e =
    let (p, q) = ok_pair (sym (stream_loop-zero d txs) ∙ e) in
    let none_left : d.expected_count - d.entries_yielded ≡ 0 = omega arith in
    rw (← p, ← q, none_left) refl
stream_loop-extend (suc n) d d1 more txs out rounds e = elim (stream-Round d) [
  | stops stop ↦
      let (p, q) = ok_pair (sym (stop n txs) ∙ e) in
      let all_left : d.expected_count - d.entries_yielded ≡ suc n = omega arith in
      rw (← p, ← q, all_left) refl
  | breaks err_e broken ↦ err_pair (sym (broken n txs) ∙ e)
  | takes entry used h found ↦
      let h' : (extend d more).cursor < length (extend d more).buffer =
        omega (arith, length-append d.buffer more) in
      let found' : decode_entry (drop d.cursor (d.buffer ++ more)) ≡ complete entry used =
        rw (drop-append d.cursor d.buffer more (omega arith))
          (decode_entry-append (drop d.cursor d.buffer) more entry used found) in
      let rounds' : n + (d.entries_yielded + 1) ≡ d.expected_count = omega arith in
      stream_loop_takes n (extend d more) txs entry used h' found'
      ∙ stream_loop-extend n (after_entry d used) d1 more (txs ++ entry) out rounds'
          (sym (stream_loop_takes n d txs entry used h found) ∙ e)
]

-- The loop keeps the count, the flag and the invariant, whatever its result.
pub record Kept (n : ℕ) (d e : StreamingDecoder) : Type 0 where
  pub count : e.expected_count ≡ d.expected_count
  pub flag : e.expected_count_set ≡ d.expected_count_set
  pub same_buffer : e.buffer ≡ d.buffer
  pub inside : e.cursor ≤ length d.buffer
  pub progress : d.cursor + 48 * e.entries_yielded ≤ e.cursor + 48 * d.entries_yielded
  pub low : d.entries_yielded ≤ e.entries_yielded
  pub high : e.entries_yielded ≤ d.entries_yielded + n

Kept-self : (n : ℕ) (d : StreamingDecoder) → d.cursor ≤ length d.buffer → Kept n d d
Kept-self n d h = record {
  count = refl;
  flag = refl;
  same_buffer = refl;
  inside = h;
  progress = omega arith;
  low = omega arith;
  high = omega arith;
}

pub stream_loop-Kept :
    (n : ℕ) (d : StreamingDecoder) (txs : List VersionedTransaction)
    → d.cursor ≤ length d.buffer
    → Kept n d (stream_loop n d txs).0
stream_loop-Kept zero d txs h = unfold stream_loop in Kept-self 0 d h
stream_loop-Kept (suc n) d txs h = elim (stream-Round d) [
  | stops stop ↦ rw (stop n txs) (Kept-self (suc n) d h)
  | breaks e broken ↦ rw (broken n txs) (Kept-self (suc n) d h)
  | takes entry used inside found ↦
      let (lo, hi) = decode_entry_bounds (drop d.cursor d.buffer) entry used found in
      let within : d.cursor + used ≤ length d.buffer =
        omega (arith, length-drop d.cursor d.buffer) in
      let k = stream_loop-Kept n (after_entry d used) (txs ++ entry) within in
      rw (stream_loop_takes n d txs entry used inside found) (record {
        count = k.count;
        flag = k.flag;
        same_buffer = k.same_buffer;
        inside = k.inside;
        progress = omega (arith, k.progress);
        low = omega (arith, k.low);
        high = omega (arith, k.high);
      })
]
