-- ===== src/Decoder/Streaming/Chunks.antt =====
-- How the payloads are cut does not matter to a streaming decoder that meets no error.
use shredstream_sdk_go.Prelude.{
  ℕ, ◌+◌, ◌-◌, ◌≤◌, ◌<◌, ◌≡◌, refl, sym, ap, ◌∙◌, List, [], ◌++◌, append_assoc, append-nil, dec_lt,
  true, false, arith, Bool-cases, inl, inr, length, length-append, slice-append, little_endian,
}
use shredstream_sdk_go.Decoder.Reader.{invalid_entry_count}
use shredstream_sdk_go.Decoder.Types.{VersionedTransaction}
use shredstream_sdk_go.Decoder.Batch.{ok, err, max_entry_count}
use shredstream_sdk_go.Decoder.Streaming.{
  StreamingDecoder, Pushed, stream_loop, yield_entries, next_count, try_deserialize, push,
}
use shredstream_sdk_go.Decoder.Streaming.Loop.{
  IsValid, extend, prepend, stream_loop-prepend, stream_loop-extend, ok_pair, err_pair,
  stream_loop-Kept,
}

pub yield_entries_set :
    (d : StreamingDecoder)
    → d.expected_count_set ≡ true
    → yield_entries d ≡ stream_loop (d.expected_count - d.entries_yielded) d []
unfolding yield_entries
yield_entries_set d h = simp h

yield-extend :
    (d d1 : StreamingDecoder) (more : List ℕ) (out : List VersionedTransaction)
    → IsValid d
    → d.expected_count_set ≡ true
    → yield_entries d ≡ (d1, ok out)
    → (d1.expected_count_set ≡ true)
      × (yield_entries (extend d more) ≡ prepend out (yield_entries (extend d1 more)))
yield-extend d d1 more out v is_set e =
    let n = d.expected_count - d.entries_yielded in
    let loop : stream_loop n d [] ≡ (d1, ok out) = sym (yield_entries_set d is_set) ∙ e in
    let kept = stream_loop-Kept n d [] v.inside in
    let flag : d1.expected_count_set ≡ true = rw loop at kept.flag ∙ is_set in
    let rounds : n + d.entries_yielded ≡ d.expected_count = omega (arith, v.yielded) in
    let left = d1.expected_count - d1.entries_yielded in
    let gathered : stream_loop left (extend d1 more) out
        ≡ prepend out (stream_loop left (extend d1 more) []) =
      rw (append-nil) at (stream_loop-prepend left (extend d1 more) out []) in
    (
      flag,
      yield_entries_set (extend d more) is_set
          ∙ stream_loop-extend n d d1 more [] out rounds loop
          ∙ gathered
          ∙ ap (prepend out) (sym (yield_entries_set (extend d1 more) flag)),
    )

prepend_nil : (r : Pushed) → prepend [] r ≡ r
prepend_nil (d, ok out) = refl
prepend_nil (d, err e) = refl

-- The three ways in which tryDeserialize starts: the count is known, not there yet, or read now.
pub try_deserialize_set :
    (d : StreamingDecoder) → d.expected_count_set ≡ true → try_deserialize d ≡ yield_entries d
unfolding try_deserialize
try_deserialize_set d h = simp h

pub try_deserialize_short :
    (d : StreamingDecoder)
    → d.expected_count_set ≡ false
    → length d.buffer < d.cursor + 8
    → try_deserialize d ≡ (d, ok [])
unfolding try_deserialize yield_entries
try_deserialize_short d h short = ground arith

abbrev pub with_count : StreamingDecoder → StreamingDecoder
with_count d = record d {
  cursor = d.cursor + 8;
  expected_count = next_count d;
  expected_count_set = true;
}

pub try_deserialize_count :
    (d : StreamingDecoder)
    → d.expected_count_set ≡ false
    → d.cursor + 8 ≤ length d.buffer
    → next_count d ≤ max_entry_count
    → try_deserialize d ≡ yield_entries (with_count d)
unfolding try_deserialize
try_deserialize_count d h long few = ground arith

pub try_deserialize_many :
    (d : StreamingDecoder)
    → d.expected_count_set ≡ false
    → d.cursor + 8 ≤ length d.buffer
    → max_entry_count < next_count d
    → try_deserialize d ≡ (d, err invalid_entry_count)
unfolding try_deserialize
try_deserialize_many d h long many = ground arith

next_count-extend :
    (d : StreamingDecoder) (more : List ℕ)
    → d.cursor + 8 ≤ length d.buffer
    → next_count (extend d more) ≡ next_count d
unfolding next_count
next_count-extend d more h =
    ap little_endian (slice-append d.buffer more d.cursor (d.cursor + 8) h (omega arith))

with_count-IsValid :
    (d : StreamingDecoder)
    → IsValid d
    → d.expected_count_set ≡ false
    → d.cursor + 8 ≤ length d.buffer
    → IsValid (with_count d)
with_count-IsValid d v h long = record {
  inside = long;
  yielded = omega (arith, v.unset h);
  unset = λ e. cc;
}

counted :
    (d d1 : StreamingDecoder) (more : List ℕ) (out : List VersionedTransaction)
    → IsValid d
    → d.expected_count_set ≡ false
    → d.cursor + 8 ≤ length d.buffer
    → try_deserialize d ≡ (d1, ok out)
    → try_deserialize (extend d more) ≡ prepend out (try_deserialize (extend d1 more))
counted d d1 more out v unset long e = elim (dec_lt max_entry_count (next_count d)) [
  | yes many ↦ err_pair (sym (try_deserialize_many d unset long many) ∙ e)
  | no not_many ↦
      let few : next_count d ≤ max_entry_count = omega arith in
      let same_count = next_count-extend d more long in
      let long' : d.cursor + 8 ≤ length (d.buffer ++ more) =
        omega (arith, length-append d.buffer more) in
      let few' : next_count (extend d more) ≤ max_entry_count = omega arith in
      let start = with_count d in
      let (flag, same) =
        yield-extend start d1 more out (with_count-IsValid d v unset long) refl
          (sym (try_deserialize_count d unset long few) ∙ e) in
      let begun : with_count (extend d more) ≡ extend start more =
        ap (λ (k : ℕ). record (extend start more) { expected_count = k }) same_count in
      try_deserialize_count (extend d more) unset long' few'
      ∙ ap yield_entries begun
      ∙ same
      ∙ ap (prepend out) (sym (try_deserialize_set (extend d1 more) flag))
]

-- The payload `c2` behind `c1`, in one call and in two. `d` holds the buffer with `c1`.
deserialize-extend :
    (d d1 : StreamingDecoder) (more : List ℕ) (out : List VersionedTransaction)
    → IsValid d
    → try_deserialize d ≡ (d1, ok out)
    → try_deserialize (extend d more) ≡ prepend out (try_deserialize (extend d1 more))
deserialize-extend d d1 more out v e = elim (Bool-cases d.expected_count_set) [
  | inl is_set ↦
      let (flag, same) =
        yield-extend d d1 more out v is_set (sym (try_deserialize_set d is_set) ∙ e) in
      try_deserialize_set (extend d more) is_set
      ∙ same
      ∙ ap (prepend out) (sym (try_deserialize_set (extend d1 more) flag))
  | inr unset ↦ elim (dec_lt (length d.buffer) (d.cursor + 8)) [
    | yes short ↦
        let (p, q) = ok_pair (sym (try_deserialize_short d unset short) ∙ e) in
        rw (← p, ← q) (sym (prepend_nil (try_deserialize (extend d more))))
    | no not_short ↦ counted d d1 more out v unset (omega arith) e
  ]
]

-- For a decoder whose cursor lies in its buffer, from which no more entries have come out than are
-- expected, and which has read nothing before the count is known, pushing one payload and then another
-- is pushing them as one payload, provided that the first push met no error: the same decoder results,
-- and the transactions of the two calls in order.
pub push-append :
    (d d1 : StreamingDecoder) (c1 c2 : List ℕ) (out : List VersionedTransaction)
    → IsValid d
    → push d c1 ≡ (d1, ok out)
    → push d (c1 ++ c2) ≡ prepend out (push d1 c2)
unfolding push
push-append d d1 c1 c2 out v e =
    let longer : IsValid (extend d c1) = record {
      inside = omega (arith, v.inside, length-append d.buffer c1);
      yielded = v.yielded;
      unset = v.unset;
    } in
    let whole : extend d (c1 ++ c2) ≡ extend (extend d c1) c2 =
      ap (λ (b : List ℕ). record d { buffer = b }) (sym (append_assoc d.buffer c1 c2)) in
    ap try_deserialize whole ∙ deserialize-extend (extend d c1) d1 c2 out longer e

-- Whatever a call returns, the decoder stays well formed, its buffer is the old one with the payload
-- behind it, and a count once read stays read.
yield-IsValid : (d : StreamingDecoder) → IsValid d → IsValid (yield_entries d).0
unfolding yield_entries
yield-IsValid d v = elim (Bool-cases d.expected_count_set) [
  | inr unset ↦ simp unset v
  | inl is_set ↦
      let n = d.expected_count - d.entries_yielded in
      let k = stream_loop-Kept n d [] v.inside in
      simp is_set (record {
        inside = rw k.same_buffer k.inside;
        yielded = omega (arith, k.count, k.high, v.yielded);
        unset = λ e. absurd (true_not_false (sym is_set ∙ sym k.flag ∙ e));
      })
]
  where
    true_not_false : true ≡ false → ⊥
    true_not_false e = cc

deserialize-IsValid : (d : StreamingDecoder) → IsValid d → IsValid (try_deserialize d).0
deserialize-IsValid d v = elim (Bool-cases d.expected_count_set) [
  | inl is_set ↦ rw (try_deserialize_set d is_set) (yield-IsValid d v)
  | inr unset ↦ elim (dec_lt (length d.buffer) (d.cursor + 8)) [
    | yes short ↦ rw (try_deserialize_short d unset short) v
    | no not_short ↦ elim (dec_lt max_entry_count (next_count d)) [
      | yes many ↦ rw (try_deserialize_many d unset (omega arith) many) v
      | no not_many ↦
          rw (try_deserialize_count d unset (omega arith) (omega arith))
            (yield-IsValid (with_count d) (with_count-IsValid d v unset (omega arith)))
    ]
  ]
]

pub push-IsValid : (d : StreamingDecoder) (c : List ℕ) → IsValid d → IsValid (push d c).0
unfolding push
push-IsValid d c v = deserialize-IsValid (extend d c) (record {
  inside = omega (arith, v.inside, length-append d.buffer c);
  yielded = v.yielded;
  unset = v.unset;
})
