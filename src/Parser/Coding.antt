-- ===== src/Parser/Coding.antt =====
-- What a parsed coding shred says about its datagram, and when ParseKind answers with which error.
use shredstream_sdk_go.Prelude.{
  ℕ, ◌-◌, ◌<◌, ◌≡◌, ◌≢◌, refl, List, true, Option, none, some, length, get_or, take, slice,
  little_endian, arith,
}
use shredstream_sdk_go.Variant.{VariantKind, is_code, merkle_suffix, classify_variant}
use shredstream_sdk_go.Parser.{
  ok, CodeShred, code_shred, read_u16, read_u32, read_u64, parse_data_with_size,
  parse_data_with_kind, parse_code_with_kind, parse_by_variant, parse_kind,
}
use shredstream_sdk_go.Parser.Shape.{fallback-ne-code}

pub record CodeOf (raw : List ℕ) (c : CodeShred) : Type 0 where
  pub position_below : c.position < c.num_coding_shreds
  pub some_data : 0 < c.num_data_shreds
  pub num_data_kept : c.num_data_shreds ≡ little_endian (slice raw 0x53 0x55)
  pub num_coding_kept : c.num_coding_shreds ≡ little_endian (slice raw 0x55 0x57)
  pub position_kept : c.position ≡ little_endian (slice raw 0x57 0x59)
  pub coded_kept : c.coded ≡ take (length raw - merkle_suffix c.variant) raw
  pub some_coded : merkle_suffix c.variant < length raw
  pub is_code_kept : is_code c.variant ≡ true
  pub variant_kept : classify_variant (get_or raw 0x40 0) ≡ some c.variant

with_size-ne-code :
    (raw : List ℕ) (slot index version set : ℕ) (v : VariantKind) (parent size : ℕ) (c : CodeShred)
    → parse_data_with_size raw slot index version set v parent size ≢ ok (code_shred c)
unfolding parse_data_with_size
with_size-ne-code raw slot index version set v parent size c e =
    ground (arith, fallback-ne-code raw slot index c)

with_kind-ne-code :
    (raw : List ℕ) (slot index version set : ℕ) (v : VariantKind) (c : CodeShred)
    → parse_data_with_kind raw slot index version set v ≢ ok (code_shred c)
unfolding parse_data_with_kind read_u16
with_kind-ne-code raw slot index version set v c e = ground (
  arith,
  fallback-ne-code raw slot index c,
  with_size-ne-code raw slot index version set v (little_endian (slice raw 0x53 0x55))
      (little_endian (slice raw 0x56 0x58)) c,
)

code_with_kind-CodeOf :
    (raw : List ℕ) (slot index version set : ℕ) (v : VariantKind) (c : CodeShred)
    → is_code v ≡ true
    → classify_variant (get_or raw 0x40 0) ≡ some v
    → parse_code_with_kind raw slot index version set v ≡ ok (code_shred c)
    → CodeOf raw c
unfolding parse_code_with_kind read_u16
code_with_kind-CodeOf raw slot index version set v c h k e = ground arith

by_variant-CodeOf :
    (raw : List ℕ) (slot index version set : ℕ) (o : Option VariantKind) (c : CodeShred)
    → classify_variant (get_or raw 0x40 0) ≡ o
    → parse_by_variant raw slot index version set o ≡ ok (code_shred c)
    → CodeOf raw c
unfolding parse_by_variant
by_variant-CodeOf raw slot index version set none c k e =
    ground (arith, fallback-ne-code raw slot index c)
by_variant-CodeOf raw slot index version set (some v) c k e = ground (
  arith,
  fallback-ne-code raw slot index c,
  with_kind-ne-code raw slot index version set v c,
  code_with_kind-CodeOf raw slot index version set v c,
)

-- A coding shred that ParseKind gives has a code variant, its three counts are those at their offsets
-- in the datagram, its position is one of at least one coding shred of a set with data shreds, and its
-- coded bytes are the datagram without the Merkle suffix, which is shorter than the datagram.
pub parse_kind-CodeOf :
    (raw : List ℕ) (c : CodeShred) → parse_kind raw ≡ ok (code_shred c) → CodeOf raw c
unfolding parse_kind read_u64 read_u32 read_u16
parse_kind-CodeOf raw c e = ground (
  arith,
  by_variant-CodeOf raw (little_endian (slice raw 0x41 0x49)) (little_endian (slice raw 0x49 0x4d))
      (little_endian (slice raw 0x4d 0x4f)) (little_endian (slice raw 0x4f 0x53))
      (classify_variant (get_or raw 0x40 0)) c refl,
)
