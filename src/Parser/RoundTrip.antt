-- ===== src/Parser/RoundTrip.antt =====
-- The data shred that has the format's layout is parsed to its fields.
use shredstream_sdk_go.Prelude.{
  ℕ, ◌+◌, ◌≡◌, refl, sym, ap, ◌∙◌, List, [], ◌∷◌, some, ltb, Bool-cases, inl, inr, length, get_or,
  slice, little_endian, little_endian-le_bytes, arith,
}
use shredstream_sdk_go.Variant.{VariantKind, kind_data_merkle, is_data, classify_variant}
use shredstream_sdk_go.Variant.Laws.{classify-variant_byte}
use shredstream_sdk_go.Parser.{
  ok, data_shred, read_u16, read_u32, read_u64, payload_of, data_complete, last_flag,
  parse_data_with_size, parse_data_with_kind, parse_by_variant, parse_kind, data_header_size,
}
use shredstream_sdk_go.Parser.Header.{
  Fields, IsFields, shred_bytes, slot_at, index_at, version_at, set_at, parent_at, size_at,
  payload_at, variant_at, flags_at, length-shred_bytes, is_last, is_complete, shred_of,
  complete-flags, last-flags,
}

empty_of_length : (xs : List ℕ) → length xs ≡ 0 → xs ≡ []
empty_of_length [] h = refl
empty_of_length (x ∷ xs) h = absurd (omega arith)

module _ (f : Fields) (v : IsFields f) where
  abbrev raw : List ℕ
  raw = shred_bytes f

  abbrev size : ℕ
  size = data_header_size + length f.payload

  payload_read : payload_of raw size ≡ f.payload
  payload_read = elim (Bool-cases (ltb data_header_size size)) [
    | inl longer ↦ rw longer (payload_at f v)
    | inr none_there ↦ rw none_there (sym (empty_of_length f.payload (ground arith)))
  ]

  slot_read : little_endian (slice raw 0x41 0x49) ≡ f.slot
  slot_read = rw (slot_at f v) (little_endian-le_bytes 8 f.slot v.slot_fits)

  index_read : little_endian (slice raw 0x49 0x4d) ≡ f.index
  index_read = rw (index_at f v) (little_endian-le_bytes 4 f.index v.index_fits)

  version_read : little_endian (slice raw 0x4d 0x4f) ≡ f.version
  version_read = rw (version_at f v) (little_endian-le_bytes 2 f.version v.version_fits)

  set_read : little_endian (slice raw 0x4f 0x53) ≡ f.fec_set_index
  set_read =
      rw (set_at f v)
        (little_endian-le_bytes 4 f.fec_set_index (omega (arith, v.set_before, v.index_fits)))

  parent_read : little_endian (slice raw 0x53 0x55) ≡ f.parent_offset
  parent_read = rw (parent_at f v) (little_endian-le_bytes 2 f.parent_offset v.parent_fits)

  size_read : little_endian (slice raw 0x56 0x58) ≡ size
  size_read = rw (size_at f v) (little_endian-le_bytes 2 size (omega (arith, v.payload_fits)))

  abbrev variant : VariantKind
  variant = record { kind = kind_data_merkle; proof_size = f.proof_size; resigned = f.resigned }

  classified : classify_variant (get_or raw 0x40 0) ≡ some variant
  classified =
      rw (variant_at f v)
        (classify-variant_byte kind_data_merkle f.proof_size f.resigned v.proof_fits)

  complete_read : data_complete (get_or raw 0x55 0) ≡ is_complete f.place
  complete_read = ap data_complete (flags_at f v) ∙ complete-flags f.place

  last_read : last_flag (get_or raw 0x55 0) ≡ is_last f.place
  last_read = ap last_flag (flags_at f v) ∙ last-flags f.place

  long : length raw ≡ size + length f.tail
  long = length-shred_bytes f v

  with_size_read :
      parse_data_with_size raw f.slot f.index f.version f.fec_set_index variant f.parent_offset size
      ≡ ok (data_shred (shred_of f))
  unfolding parse_data_with_size
  with_size_read = ground (arith, payload_read, complete_read, last_read, long, v.payload_fits)

  with_kind_read :
      parse_data_with_kind raw f.slot f.index f.version f.fec_set_index variant
      ≡ ok (data_shred (shred_of f))
  unfolding parse_data_with_kind read_u16
  with_kind_read = ground (arith, parent_read, size_read, with_size_read, long, v.set_before)

  by_variant_read :
      parse_by_variant raw f.slot f.index f.version f.fec_set_index (some variant)
      ≡ ok (data_shred (shred_of f))
  unfolding parse_by_variant is_data
  by_variant_read = with_kind_read

  read_back : parse_kind raw ≡ ok (data_shred (shred_of f))
  unfolding parse_kind read_u64 read_u32 read_u16
  read_back =
      ground
        (arith, long, slot_read, index_read, version_read, set_read, classified, by_variant_read)

-- A data shred laid out as the format says, with a Merkle variant, an FEC set index that is not
-- above its index, and a payload that ends within 1203 bytes, is parsed to exactly its fields.
pub parse_kind-shred_bytes :
    (f : Fields) → IsFields f → parse_kind (shred_bytes f) ≡ ok (data_shred (shred_of f))
parse_kind-shred_bytes f v = read_back f v
