-- ===== src/Tests/Parsing.antt =====
-- The theorems on variants, shred headers and saturating arithmetic at concrete inputs.
use shredstream_sdk_go.Prelude.{
  ℕ, ◌+◌, ◌-◌, ◌^◌, ◌≤◌, ◌<◌, ◌≡◌, refl, List, [], ◌∷◌, ◌++◌, true, false, some, length, replicate,
  little_endian, le_bytes, slice, get_or, All, IsByte, arith, ◌⊎◌, min, take,
}
use shredstream_sdk_go.Prelude.Int.{pos}
use shredstream_sdk_go.Saturating.{saturating_add_u64, saturating_sub_u64, max_u64}
use shredstream_sdk_go.Saturating.Laws.{saturating_u64}
use shredstream_sdk_go.Variant.{
  VariantKind, kind_code_merkle, classify_variant, shard_size, merkle_suffix, is_data, is_code,
}
use shredstream_sdk_go.Variant.Laws.{
  variant_byte, IsVariant, classify-variant_byte, variant_byte-classify, shard_layout,
}
use shredstream_sdk_go.Parser.{
  ok, err, unknown_variant, CodeShred, data_shred, code_shred, parse_kind, read_u16, read_u32,
  read_u64, parse_by_variant, parse_data_legacy_fallback, parse_code_with_kind,
}
use shredstream_sdk_go.Parser.Shape.{
  DataOf, payload_end, parse_kind-DataOf, slot_field, index_field,
}
use shredstream_sdk_go.Parser.Coding.{CodeOf, parse_kind-CodeOf}
use shredstream_sdk_go.Parser.Errors.{Explains, parse_kind_error}
use shredstream_sdk_go.Parser.Header.{Fields, IsFields, end_of_slot, shred_bytes, shred_of}
use shredstream_sdk_go.Parser.RoundTrip.{parse_kind-shred_bytes}

saturating_u64_example :
    (saturating_add_u64 (2 ^ 64 - 3) 7 ≡ min (2 ^ 64 - 3 + 7) max_u64)
    × (saturating_sub_u64 (2 ^ 64 - 3) 7 ≡ 2 ^ 64 - 3 - 7)
saturating_u64_example = saturating_u64 (2 ^ 64 - 3) 7 (omega arith) (omega arith)

classify-variant_byte_example :
    classify_variant (variant_byte kind_code_merkle 6 true)
    ≡ some (record { kind = kind_code_merkle; proof_size = 6; resigned = true })
classify-variant_byte_example = classify-variant_byte kind_code_merkle 6 true (omega arith)

abbrev code_variant : VariantKind
code_variant = record { kind = kind_code_merkle; proof_size = 6; resigned = true }

code_byte : classify_variant 0x76 ≡ some code_variant
unfolding classify_variant
code_byte = refl

variant_byte-classify_example :
    IsVariant code_variant × (variant_byte kind_code_merkle 6 true ≡ 0x76)
variant_byte-classify_example = variant_byte-classify 0x76 code_variant (omega arith) code_byte

shard_layout_example :
    (n : ℕ) × (0 < n) × (shard_size 6 true ≡ pos n) × (89 + n + merkle_suffix code_variant ≡ 1228)
shard_layout_example =
    shard_layout 0x76 code_variant (omega arith) code_byte (unfold merkle_suffix in omega arith)

abbrev pub fields : Fields
fields = record {
  signature = replicate 64 1;
  proof_size = 2;
  resigned = false;
  slot = 300;
  index = 40;
  version = 7;
  fec_set_index = 32;
  parent_offset = 1;
  place = end_of_slot;
  payload = 5 ∷ 6 ∷ [];
  tail = 0 ∷ [];
}

fields-IsFields : IsFields fields
fields-IsFields = record {
  signature_fits = refl;
  proof_fits = omega arith;
  slot_fits = omega arith;
  index_fits = omega arith;
  version_fits = omega arith;
  set_before = omega arith;
  parent_fits = omega arith;
  payload_fits = omega arith;
}

parse_kind-shred_bytes_example : parse_kind (shred_bytes fields) ≡ ok (data_shred (shred_of fields))
parse_kind-shred_bytes_example = parse_kind-shred_bytes fields fields-IsFields

fields_are_bytes : All IsByte (shred_bytes fields)
unfolding shred_bytes le_bytes variant_byte
fields_are_bytes = omega arith

payload_end_example :
    (88 + 2 ≤ length (shred_bytes fields))
    × (88 + 2 < 2 ^ 16)
    × (slice (shred_bytes fields) 88 (88 + 2) ≡ 5 ∷ 6 ∷ [])
    × ((true ≡ false) ⊎ (true ≡ true))
payload_end_example =
    payload_end (shred_bytes fields) (shred_of fields) fields_are_bytes
      parse_kind-shred_bytes_example

parse_kind-DataOf_example :
    DataOf
      (shred_bytes fields)
      (slot_field (shred_bytes fields))
      (index_field (shred_bytes fields))
      (shred_of fields)
    × (88 ≤ length (shred_bytes fields))
parse_kind-DataOf_example =
    parse_kind-DataOf (shred_bytes fields) (shred_of fields) parse_kind-shred_bytes_example

-- A coding shred of 92 bytes: 32 data and 32 coding shreds, the fourth of the coding ones.
abbrev coding_datagram : List ℕ
coding_datagram =
    replicate 64 1 ++ (0x60 ∷ []) ++ replicate 18 0 ++ (32 ∷ 0 ∷ 32 ∷ 0 ∷ 3 ∷ 0 ∷ 9 ∷ 9 ∷ 9 ∷ [])

abbrev coding_shred : CodeShred
coding_shred = record {
  slot = 0;
  index = 0;
  version = 0;
  fec_set_index = 0;
  num_data_shreds = 32;
  num_coding_shreds = 32;
  position = 3;
  coded = take 60 coding_datagram;
  variant = record { kind = kind_code_merkle; proof_size = 0; resigned = false };
}

coding_parsed : parse_kind coding_datagram ≡ ok (code_shred coding_shred)
unfolding parse_kind parse_by_variant parse_code_with_kind read_u16 read_u32 read_u64 little_endian
    slice classify_variant is_data is_code merkle_suffix
coding_parsed = refl

parse_kind-CodeOf_example : CodeOf coding_datagram coding_shred
parse_kind-CodeOf_example = parse_kind-CodeOf coding_datagram coding_shred coding_parsed

-- 88 bytes of an unknown variant that claim a size of 200.
abbrev unknown_datagram : List ℕ
unknown_datagram = replicate 86 0 ++ (200 ∷ 0 ∷ [])

unknown_refused : parse_kind unknown_datagram ≡ err unknown_variant
unfolding parse_kind parse_by_variant parse_data_legacy_fallback read_u16 read_u32 read_u64
    little_endian slice classify_variant
unknown_refused = refl

parse_kind_error_example :
    Explains unknown_datagram unknown_variant (classify_variant (get_or unknown_datagram 0x40 0))
parse_kind_error_example = parse_kind_error unknown_datagram unknown_variant unknown_refused
