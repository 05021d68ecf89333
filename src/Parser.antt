-- ===== src/Parser.antt =====
-- parser.go: the headers of data and coding shreds.
pub mod Shape
pub mod Coding
pub mod Errors
pub mod Header
pub mod RoundTrip
use shredstream_sdk_go.Prelude.{
  ℕ, ◌+◌, ◌-◌, List, [], Bool, true, false, not, ◌||◌, Option, none, some, ltb, leb, ◌==◌,
  if◌then◌else◌, length, get_or, take, slice, little_endian, bit_and,
}
use shredstream_sdk_go.Variant.{
  VariantKind, Kind, kind_data_legacy, is_data, is_code, merkle_suffix, classify_variant,
}

abbrev pub data_header_size : ℕ
data_header_size = 0x58

abbrev pub code_header_size : ℕ
code_header_size = 0x59

abbrev pub max_data_shred_size : ℕ
max_data_shred_size = 1203

-- The three errors of error.go that a ParseError wraps.
pub data ParseError : Type 0 where
  too_short unknown_variant payload_invalid : ParseError

pub data Parsed {ℓ} (A : Type ℓ) : Type ℓ where
  ok : A → Parsed A
  err : ParseError → Parsed A

infixl 5 ◌>>=◌ ◌>>◌
abbrev pub ◌>>=◌ {ℓ κ} : {A : Type ℓ} {B : Type κ} → Parsed A → (A → Parsed B) → Parsed B
ok a >>= f = f a
err e >>= f = err e

abbrev pub ◌>>◌ {κ} : {B : Type κ} → Parsed (Unit {0}) → Parsed B → Parsed B
m >> k = m >>= λ _. k

-- `x, ok := …; if !ok { return nil, newParseError(ErrPayloadInvalid) }`.
abbrev pub or_invalid {ℓ} : {A : Type ℓ} → Option A → Parsed A
or_invalid none = err payload_invalid
or_invalid (some a) = ok a

-- `if bad { return nil, newParseError(e) }`.
abbrev pub reject_if : Bool → ParseError → Parsed (Unit {0})
reject_if true e = err e
reject_if false e = ok tt

pub record DataShred : Type 0 where
  pub slot : ℕ
  pub index : ℕ
  pub version : ℕ
  pub fec_set_index : ℕ
  pub parent_offset : ℕ
  pub payload : List ℕ
  pub batch_complete : Bool
  pub last_in_slot : Bool
  pub variant : VariantKind
  pub raw_len : ℕ

pub record CodeShred : Type 0 where
  pub slot : ℕ
  pub index : ℕ
  pub version : ℕ
  pub fec_set_index : ℕ
  pub num_data_shreds : ℕ
  pub num_coding_shreds : ℕ
  pub position : ℕ
  pub coded : List ℕ
  pub variant : VariantKind

pub data ShredKind : Type 0 where
  data_shred : DataShred → ShredKind
  code_shred : CodeShred → ShredKind

-- readU16, readU32 and readU64. The offsets are constants, so never negative.
unfoldable pub read_u16 : List ℕ → ℕ → Option ℕ
read_u16 raw offset =
    if ltb (length raw) (offset + 2)
    then none
    else some (little_endian (slice raw offset (offset + 2)))

unfoldable pub read_u32 : List ℕ → ℕ → Option ℕ
read_u32 raw offset =
    if ltb (length raw) (offset + 4)
    then none
    else some (little_endian (slice raw offset (offset + 4)))

unfoldable pub read_u64 : List ℕ → ℕ → Option ℕ
read_u64 raw offset =
    if ltb (length raw) (offset + 8)
    then none
    else some (little_endian (slice raw offset (offset + 8)))

-- `flags&dataComplete != 0` and `flags&lastInSlot == lastInSlot`.
abbrev pub data_complete : ℕ → Bool
data_complete flags = not (bit_and flags 0x40 == 0)

abbrev pub last_flag : ℕ → Bool
last_flag flags = bit_and flags 0xc0 == 0xc0

-- `if size > DataHeaderSize { raw[DataHeaderSize:size] } else { []byte{} }`.
abbrev pub payload_of : List ℕ → ℕ → List ℕ
payload_of raw size = if ltb data_header_size size then slice raw data_header_size size else []

unfoldable pub parse_data_legacy_fallback : List ℕ → ℕ → ℕ → Parsed ShredKind
parse_data_legacy_fallback raw slot index = do
  reject_if (leb (length raw) 0x55) payload_invalid
  size ← or_invalid (read_u16 raw 0x56)
  reject_if (ltb (length raw) size) payload_invalid
  ok (
      data_shred (record {
        slot = slot;
        index = index;
        version = 0;
        fec_set_index = index;
        parent_offset = 0;
        payload = payload_of raw size;
        batch_complete = data_complete (get_or raw 0x55 0);
        last_in_slot = last_flag (get_or raw 0x55 0);
        variant = record { kind = kind_data_legacy; proof_size = 0; resigned = false };
        raw_len = length raw;
      }))

-- The part of parseDataWithKind behind the tests that turn to the fallback.
unfoldable pub parse_data_with_size :
    List ℕ → ℕ → ℕ → ℕ → ℕ → VariantKind → ℕ → ℕ → Parsed ShredKind
parse_data_with_size raw slot index version fec_set_index variant parent_offset size =
    if ltb max_data_shred_size size
    then parse_data_legacy_fallback raw slot index
    else if ltb (length raw) size
    then err payload_invalid
    else ok (
        data_shred (record {
          slot = slot;
          index = index;
          version = version;
          fec_set_index = fec_set_index;
          parent_offset = parent_offset;
          payload = payload_of raw size;
          batch_complete = data_complete (get_or raw 0x55 0);
          last_in_slot = last_flag (get_or raw 0x55 0);
          variant = variant;
          raw_len = length raw;
        }))

-- The source tests `size > len(raw)` a second time where the payload is cut; that test never holds.
unfoldable pub parse_data_with_kind : List ℕ → ℕ → ℕ → ℕ → ℕ → VariantKind → Parsed ShredKind
parse_data_with_kind raw slot index version fec_set_index variant =
    if ltb index fec_set_index then parse_data_legacy_fallback raw slot index else do
      parent_offset ← or_invalid (read_u16 raw 0x53)
      reject_if (leb (length raw) 0x55) payload_invalid
      size ← or_invalid (read_u16 raw 0x56)
      parse_data_with_size raw slot index version fec_set_index variant parent_offset size

-- `codedEnd` lies in the slice, since `suffix < len(raw)`: the source's test of that never holds.
unfoldable pub parse_code_with_kind : List ℕ → ℕ → ℕ → ℕ → ℕ → VariantKind → Parsed ShredKind
parse_code_with_kind raw slot index version fec_set_index variant = do
  reject_if (ltb (length raw) code_header_size) too_short
  num_data ← or_invalid (read_u16 raw 0x53)
  num_coding ← or_invalid (read_u16 raw 0x55)
  position ← or_invalid (read_u16 raw 0x57)
  reject_if (num_data == 0 || (num_coding == 0 || leb num_coding position)) payload_invalid
  reject_if (leb (length raw) (merkle_suffix variant)) payload_invalid
  ok (
      code_shred (record {
        slot = slot;
        index = index;
        version = version;
        fec_set_index = fec_set_index;
        num_data_shreds = num_data;
        num_coding_shreds = num_coding;
        position = position;
        coded = take (length raw - merkle_suffix variant) raw;
        variant = variant;
      }))

-- Every error of the fallback is reported as an unknown variant.
abbrev pub as_unknown : Parsed ShredKind → Parsed ShredKind
as_unknown (ok s) = ok s
as_unknown (err e) = err unknown_variant

-- What follows the five fields that all shreds share.
unfoldable pub parse_by_variant : List ℕ → ℕ → ℕ → ℕ → ℕ → Option VariantKind → Parsed ShredKind
parse_by_variant raw slot index version fec_set_index none =
    as_unknown (parse_data_legacy_fallback raw slot index)
parse_by_variant raw slot index version fec_set_index (some variant) =
    if is_data variant
    then parse_data_with_kind raw slot index version fec_set_index variant
    else if is_code variant
    then parse_code_with_kind raw slot index version fec_set_index variant
    else as_unknown (parse_data_legacy_fallback raw slot index)

unfoldable pub parse_kind : List ℕ → Parsed ShredKind
parse_kind raw = do
  reject_if (ltb (length raw) data_header_size) too_short
  slot ← or_invalid (read_u64 raw 0x41)
  index ← or_invalid (read_u32 raw 0x49)
  version ← or_invalid (read_u16 raw 0x4d)
  fec_set_index ← or_invalid (read_u32 raw 0x4f)
  parse_by_variant raw slot index version fec_set_index (classify_variant (get_or raw 0x40 0))

-- ParseShred.
pub record ParsedShred : Type 0 where
  pub slot : ℕ
  pub index : ℕ
  pub payload : List ℕ
  pub batch_complete : Bool
  pub last_in_slot : Bool

abbrev data_part : Parsed ShredKind → Option ParsedShred
data_part (err e) = none
data_part (ok (code_shred c)) = none
data_part (ok (data_shred d)) = some (record {
  slot = d.slot;
  index = d.index;
  payload = d.payload;
  batch_complete = d.batch_complete;
  last_in_slot = d.last_in_slot;
})

unfoldable pub parse_shred : List ℕ → Option ParsedShred
parse_shred raw = data_part (parse_kind raw)
