-- ===== src/Decoder/Compact/Laws.antt =====
-- Compact numbers: bounds, and the round trip of encodeCompactU16 and decodeCompactU16.
use shredstream_sdk_go.Prelude.{
  ℕ, ◌+◌, ◌*◌, ◌/◌, ◌%◌, ◌^◌, ◌≤◌, ◌<◌, ◌≡◌, refl, sym, ap, List, ◌∷◌, ◌++◌, Bool, true, ◌&&◌,
  Option, none, some, arith, ltb, leb, ◌==◌, length, bit_and, bit_or, length-append, get_or-append,
  get_or-middle, get_or-shift, all_below, all_below→true,
}
use shredstream_sdk_go.Decoder.Reader.{complete}
use shredstream_sdk_go.Decoder.Reader.Laws.{IsSteady, complete-value, complete-position}
use shredstream_sdk_go.Decoder.Reader.Format.{Reads}
use shredstream_sdk_go.Decoder.Compact.{
  decode_compact_u16, encode_compact_u16, advance, read_compact_u16,
}

decode_compact_u16_bounds :
    (b : List ℕ) (pos v n : ℕ)
    → decode_compact_u16 b pos ≡ some (v, n)
    → (1 ≤ n) × (n ≤ 3) × (pos + n ≤ length b)
unfolding decode_compact_u16
decode_compact_u16_bounds b pos v n e = ground arith

decode_compact_u16-append :
    (b more : List ℕ) (pos v n : ℕ)
    → decode_compact_u16 b pos ≡ some (v, n)
    → decode_compact_u16 (b ++ more) pos ≡ some (v, n)
unfolding decode_compact_u16
decode_compact_u16-append b more pos v n e = ground (
  arith,
  length-append b more,
  get_or-append b more pos 0,
  get_or-append b more (pos + 1) 0,
  get_or-append b more (pos + 2) 0,
)

advance-eq-complete :
    (pos : ℕ) (o : Option (ℕ × ℕ)) {a next : ℕ}
    → advance pos o ≡ complete a next
    → (n : ℕ) × (o ≡ some (a, n)) × (next ≡ pos + n)
advance-eq-complete pos none e = cc
advance-eq-complete pos (some (v, n)) e =
    let same : v ≡ _ = complete-value e in (n, rw same refl, sym (complete-position e))

pub read_compact_u16-IsSteady : IsSteady read_compact_u16
unfolding read_compact_u16
read_compact_u16-IsSteady = record {
  bounds = λ b pos a next h e.
      let (n, found, total) = advance-eq-complete pos (decode_compact_u16 b pos) e in
      omega (arith, decode_compact_u16_bounds b pos a n found);
  extend = λ b more pos a next h e.
      let (n, found, total) = advance-eq-complete pos (decode_compact_u16 b pos) e in
      rw (decode_compact_u16-append b more pos a n found) (ap (complete a) (sym total));
}

-- The bytes of the two longer forms.
first_byte : ℕ → ℕ
first_byte v = bit_or (bit_and v 0x7f % 256) 0x80

second_byte : ℕ → ℕ
second_byte v = bit_and (v / 2 ^ 7) 0xff % 256

middle_byte : ℕ → ℕ
middle_byte v = bit_or (bit_and (v / 2 ^ 7) 0x7f) 0x80 % 256

third_byte : ℕ → ℕ
third_byte v = bit_and (v / 2 ^ 14) 0xff % 256

two_bytes_agree : ℕ → Bool
two_bytes_agree v =
    leb 0x80 (first_byte v)
    && (ltb (second_byte v) 0x80
        && (bit_or (bit_and (first_byte v) 0x7f) (second_byte v * 2 ^ 7) == v))

two_bytes_table : all_below 16384 two_bytes_agree ≡ true
unfolding all_below two_bytes_agree first_byte second_byte
two_bytes_table = refl

three_bytes_agree : ℕ → Bool
three_bytes_agree v =
    leb 0x80 (first_byte v)
    && (leb 0x80 (middle_byte v)
        && (leb (third_byte v) 0x03
            && (bit_or (bit_or (bit_and (first_byte v) 0x7f) (bit_and (middle_byte v) 0x7f * 2 ^ 7))
                  (bit_and (third_byte v) 0x03 * 2 ^ 14)
                == v)))

three_bytes_table : all_below 65536 three_bytes_agree ≡ true
unfolding all_below three_bytes_agree first_byte middle_byte third_byte
three_bytes_table = refl

two_bytes : (v : ℕ) → v < 16384 → two_bytes_agree v ≡ true
two_bytes v h = all_below→true 16384 two_bytes_agree v two_bytes_table h

three_bytes : (v : ℕ) → v < 65536 → three_bytes_agree v ≡ true
three_bytes v h = all_below→true 65536 three_bytes_agree v three_bytes_table h

-- A compact number below 2 ^ 16 is decoded to itself wherever its bytes stand in a slice, and exactly
-- those bytes are consumed.
pub decode-encode_compact_u16 :
    (v : ℕ) (pre rest : List ℕ)
    → v < 65536
    → decode_compact_u16 (pre ++ (encode_compact_u16 v ++ rest)) (length pre)
      ≡ some (v, length (encode_compact_u16 v))
unfolding decode_compact_u16 encode_compact_u16 two_bytes_agree three_bytes_agree first_byte
    second_byte middle_byte third_byte
decode-encode_compact_u16 v pre rest h = ground (
  arith,
  two_bytes v,
  three_bytes v h,
  length-append pre (encode_compact_u16 v ++ rest),
  get_or-middle pre (v % 256) 0 rest,
  get_or-middle pre (first_byte v) 0 (second_byte v ∷ rest),
  get_or-shift pre (first_byte v ∷ second_byte v ∷ rest) 1 0,
  get_or-middle pre (first_byte v) 0 (middle_byte v ∷ third_byte v ∷ rest),
  get_or-shift pre (first_byte v ∷ middle_byte v ∷ third_byte v ∷ rest) 1 0,
  get_or-shift pre (first_byte v ∷ middle_byte v ∷ third_byte v ∷ rest) 2 0,
)

-- A compact number below 2 ^ 16 is read back wherever its bytes stand.
pub read_compact_u16-Reads : (v : ℕ) → v < 65536 → Reads read_compact_u16 (encode_compact_u16 v) v
unfolding read_compact_u16
read_compact_u16-Reads v h = record {
  read_at = λ pre rest. rw (decode-encode_compact_u16 v pre rest h) refl;
}
