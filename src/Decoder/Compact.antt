-- ===== src/Decoder/Compact.antt =====
-- decodeCompactU16 and encodeCompactU16 of decoder.go. Go's `(0, -1)` is `none`.
pub mod Laws
use shredstream_sdk_go.Prelude.{
  ℕ, ◌+◌, ◌*◌, ◌/◌, ◌%◌, ◌^◌, List, [], ◌∷◌, Option, none, some, ltb, leb, if◌then◌else◌, length,
  get_or, bit_and, bit_or,
}
use shredstream_sdk_go.Decoder.Reader.{Reader, Outcome, complete, incomplete}

unfoldable pub decode_compact_u16 : List ℕ → ℕ → Option (ℕ × ℕ)
decode_compact_u16 b pos =
    if leb (length b) pos
    then none
    else let b0 = get_or b pos 0 in
      if ltb b0 0x80
      then some (b0, 1)
      else if leb (length b) (pos + 1)
      then none
      else let b1 = get_or b (pos + 1) 0 in
        if ltb b1 0x80
        then some (bit_or (bit_and b0 0x7f) (b1 * 2 ^ 7), 2)
        else if leb (length b) (pos + 2)
        then none
        else let b2 = get_or b (pos + 2) 0 in
          if ltb 0x03 b2
          then none
          else some (
            bit_or (bit_or (bit_and b0 0x7f) (bit_and b1 0x7f * 2 ^ 7)) (bit_and b2 0x03 * 2 ^ 14),
            3,
          )

-- `v` is a non-negative int. `byte(x)` is `x % 256`.
unfoldable pub encode_compact_u16 : ℕ → List ℕ
encode_compact_u16 v =
    if ltb v 0x80
    then v % 256 ∷ []
    else if ltb v 0x4000
    then bit_or (bit_and v 0x7f % 256) 0x80 ∷ (bit_and (v / 2 ^ 7) 0xff % 256 ∷ [])
    else bit_or (bit_and v 0x7f % 256) 0x80
      ∷ (bit_or (bit_and (v / 2 ^ 7) 0x7f) 0x80 % 256 ∷ (bit_and (v / 2 ^ 14) 0xff % 256 ∷ []))

-- `x, n := decodeCompactU16(b, pos); if n < 0 { return incomplete }; pos += n`.
abbrev pub advance : ℕ → Option (ℕ × ℕ) → Outcome ℕ
advance pos none = incomplete
advance pos (some (v, n)) = complete v (pos + n)

unfoldable pub read_compact_u16 : Reader ℕ
read_compact_u16 b pos = advance pos (decode_compact_u16 b pos)
