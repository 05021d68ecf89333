-- ===== src/Parser/Shape.antt =====
-- What a parsed shred says about the datagram that it was parsed from.
use shredstream_sdk_go.Prelude.{
  ℕ, zero, suc, ◌+◌, ◌-◌, ◌^◌, ◌≤◌, ◌<◌, ◌≡◌, ◌≢◌, refl, ◌∙◌, List, [], ◌∷◌, true, false, Option,
  none, some, ltb, length, get_or, take, drop, slice, length-slice, length-take, little_endian, All,
  IsByte, arith, ◌⊎◌, inl, inr, Bool-cases, two_high_bits, second_bit,
}
use shredstream_sdk_go.Variant.{VariantKind, classify_variant}
use shredstream_sdk_go.Parser.{
  ok, DataShred, CodeShred, data_shred, code_shred, read_u16, read_u32, read_u64, payload_of,
  data_complete, last_flag, parse_data_legacy_fallback, parse_data_with_size, parse_data_with_kind,
  parse_code_with_kind, parse_by_variant, parse_kind, data_header_size,
}

-- The size field of a data shred.
abbrev pub size_field : List ℕ → ℕ
size_field raw = little_endian (slice raw 0x56 0x58)

pub record DataOf (raw : List ℕ) (slot index : ℕ) (d : DataShred) : Type 0 where
  pub slot_kept : d.slot ≡ slot
  pub index_kept : d.index ≡ index
  pub set_before : d.fec_set_index ≤ d.index
  pub fits : size_field raw ≤ length raw
  pub payload_kept : d.payload ≡ payload_of raw (size_field raw)
  pub complete_kept : d.batch_complete ≡ data_complete (get_or raw 0x55 0)
  pub last_kept : d.last_in_slot ≡ last_flag (get_or raw 0x55 0)
  pub whole : d.raw_len ≡ length raw

fallback-DataOf :
    (raw : List ℕ) (slot index : ℕ) (d : DataShred)
    → parse_data_legacy_fallback raw slot index ≡ ok (data_shred d)
    → DataOf raw slot index d
unfolding parse_data_legacy_fallback read_u16
fallback-DataOf raw slot index d e = ground arith

pub fallback-ne-code :
    (raw : List ℕ) (slot index : ℕ) (c : CodeShred)
    → parse_data_legacy_fallback raw slot index ≢ ok (code_shred c)
unfolding parse_data_legacy_fallback read_u16
fallback-ne-code raw slot index c e = ground arith

with_size-DataOf :
    (raw : List ℕ) (slot index version set : ℕ) (v : VariantKind) (parent size : ℕ) (d : DataShred)
    → set ≤ index
    → size ≡ size_field raw
    → parse_data_with_size raw slot index version set v parent size ≡ ok (data_shred d)
    → DataOf raw slot index d
unfolding parse_data_with_size
with_size-DataOf raw slot index version set v parent size d h k e =
    ground (arith, fallback-DataOf raw slot index d)

with_kind-DataOf :
    (raw : List ℕ) (slot index version set : ℕ) (v : VariantKind) (d : DataShred)
    → parse_data_with_kind raw slot index version set v ≡ ok (data_shred d)
    → DataOf raw slot index d
unfolding parse_data_with_kind read_u16
with_kind-DataOf raw slot index version set v d e = ground (
  arith,
  fallback-DataOf raw slot index d,
  with_size-DataOf raw slot index version set v (little_endian (slice raw 0x53 0x55))
      (size_field raw) d,
)

code-ne-data :
    (raw : List ℕ) (slot index version set : ℕ) (v : VariantKind) (d : DataShred)
    → parse_code_with_kind raw slot index version set v ≢ ok (data_shred d)
unfolding parse_code_with_kind
code-ne-data raw slot index version set v d e = ground arith

by_variant-DataOf :
    (raw : List ℕ) (slot index version set : ℕ) (o : Option VariantKind) (d : DataShred)
    → parse_by_variant raw slot index version set o ≡ ok (data_shred d)
    → DataOf raw slot index d
unfolding parse_by_variant
by_variant-DataOf raw slot index version set none d e =
    ground (arith, fallback-DataOf raw slot index d)
by_variant-DataOf raw slot index version set (some v) d e = ground (
  arith,
  fallback-DataOf raw slot index d,
  with_kind-DataOf raw slot index version set v d,
  code-ne-data raw slot index version set v d,
)

abbrev pub slot_field : List ℕ → ℕ
slot_field raw = little_endian (slice raw 0x41 0x49)

abbrev pub index_field : List ℕ → ℕ
index_field raw = little_endian (slice raw 0x49 0x4d)

-- A data shred that ParseKind gives has the slot, index and flags at their offsets in the datagram, an
-- FEC set index that is not above its index, the length of the datagram, and the payload between the
-- header and the end that the size field names, which lies in the datagram.
pub parse_kind-DataOf :
    (raw : List ℕ) (d : DataShred)
    → parse_kind raw ≡ ok (data_shred d)
    → DataOf raw (slot_field raw) (index_field raw) d × (data_header_size ≤ length raw)
unfolding parse_kind read_u64 read_u32 read_u16
parse_kind-DataOf raw d e = ground (
  arith,
  by_variant-DataOf raw (slot_field raw) (index_field raw) (little_endian (slice raw 0x4d 0x4f))
      (little_endian (slice raw 0x4f 0x53)) (classify_variant (get_or raw 0x40 0)) d,
)

little_endian-lt_u16 : (bs : List ℕ) → length bs ≤ 2 → All IsByte bs → little_endian bs < 65536
unfolding little_endian
little_endian-lt_u16 [] h k = omega arith
little_endian-lt_u16 (x ∷ []) h b = omega arith
little_endian-lt_u16 (x ∷ y ∷ []) h (b, c) = omega arith
little_endian-lt_u16 (x ∷ y ∷ z ∷ bs) h k = absurd (omega arith)

All-drop {ℓ κ} : {A : Type ℓ} (P : A → Type κ) (n : ℕ) (xs : List A) → All P xs → All P (drop n xs)
All-drop P zero xs h = h
All-drop P (suc n) [] h = tt
All-drop P (suc n) (x ∷ xs) (p, h) = All-drop P n xs h

All-take {ℓ κ} : {A : Type ℓ} (P : A → Type κ) (n : ℕ) (xs : List A) → All P xs → All P (take n xs)
All-take P zero xs h = tt
All-take P (suc n) [] h = tt
All-take P (suc n) (x ∷ xs) (p, h) = (p, All-take P n xs h)

size_field-lt : (raw : List ℕ) → All IsByte raw → size_field raw < 65536
unfolding slice
size_field-lt raw h =
    little_endian-lt_u16 (take 2 (drop 0x56 raw)) (omega (arith, length-take 2 (drop 0x56 raw)))
      (All-take IsByte 2 (drop 0x56 raw) (All-drop IsByte 0x56 raw h))

length-payload_of :
    (raw : List ℕ) (size : ℕ)
    → size ≤ length raw
    → length (payload_of raw size) ≡ size - data_header_size
length-payload_of raw size h = ground (arith, length-slice raw data_header_size size)

slice-payload_of :
    (raw : List ℕ) (size : ℕ)
    → size ≤ length raw
    → slice raw data_header_size (data_header_size + length (payload_of raw size))
      ≡ payload_of raw size
slice-payload_of raw size h = elim (Bool-cases (ltb data_header_size size)) [
  | inl longer ↦
      let total : data_header_size + length (slice raw data_header_size size) ≡ size =
        ground (arith, length-slice raw data_header_size size h) in
      rw (longer, total) refl
  | inr none_there ↦ rw none_there (unfold slice in refl)
]

-- The flag of the last shred of a slot holds the flag of a complete batch.
last_complete : (flags : ℕ) → flags < 256 → last_flag flags ≡ true → data_complete flags ≡ true
last_complete flags h e = ground (arith, two_high_bits flags h, second_bit flags h)

get_or-IsByte : (raw : List ℕ) (i : ℕ) → All IsByte raw → get_or raw i 0 < 256
get_or-IsByte [] i h = omega arith
get_or-IsByte (x ∷ xs) zero (b, h) = b
get_or-IsByte (x ∷ xs) (suc i) (b, h) = get_or-IsByte xs i h

-- Of a datagram of bytes, the end of the payload as the listener computes it, `88 + len(payload)`,
-- lies in the datagram and fits 16 bits, what it cuts from the datagram is the payload again, and the
-- last shred of a slot completes its batch.
pub payload_end :
    (raw : List ℕ) (d : DataShred)
    → All IsByte raw
    → parse_kind raw ≡ ok (data_shred d)
    → (data_header_size + length d.payload ≤ length raw)
      × (data_header_size + length d.payload < 2 ^ 16)
      × (slice raw data_header_size (data_header_size + length d.payload) ≡ d.payload)
      × ((d.last_in_slot ≡ false) ⊎ (d.batch_complete ≡ true))
payload_end raw d bytes e =
    let (shape, long) = parse_kind-DataOf raw d e in
    let size = size_field raw in
    let small = size_field-lt raw bytes in
    let same = shape.payload_kept in
    let len = length-payload_of raw size shape.fits in
    (
      rw same (omega (arith, shape.fits)),
      rw same (omega (arith, shape.fits)),
      rw same (slice-payload_of raw size shape.fits),
      elim (Bool-cases (last_flag (get_or raw 0x55 0))) [
        | inr other ↦ inl (shape.last_kept ∙ other)
        | inl last ↦ inr (
            shape.complete_kept
            ∙ last_complete (get_or raw 0x55 0) (get_or-IsByte raw 0x55 bytes) last)
      ],
    )
