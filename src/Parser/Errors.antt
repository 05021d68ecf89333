-- ===== src/Parser/Errors.antt =====
-- When ParseKind refuses a datagram, and why.
use shredstream_sdk_go.Prelude.{
  ℕ, ◌≤◌, ◌<◌, ◌≡◌, refl, List, true, false, Option, none, some, length, get_or, slice,
  little_endian, arith, ◌⊎◌, inl, inr,
}
use shredstream_sdk_go.Variant.{VariantKind, is_data, is_code, merkle_suffix, classify_variant}
use shredstream_sdk_go.Parser.{
  ParseError, too_short, unknown_variant, payload_invalid, Parsed, ok, err, ShredKind, read_u16,
  read_u32, read_u64, parse_data_legacy_fallback, parse_data_with_size, parse_data_with_kind,
  parse_code_with_kind, parse_by_variant, parse_kind, as_unknown, data_header_size,
  code_header_size,
}
use shredstream_sdk_go.Parser.Shape.{size_field}

-- The counts of a coding shred that ParseKind does not take.
abbrev pub BadCounts : List ℕ → Type 0
BadCounts raw =
    (little_endian (slice raw 0x53 0x55) ≡ 0)
    ⊎ ((little_endian (slice raw 0x55 0x57) ≡ 0)
        ⊎ (little_endian (slice raw 0x55 0x57) ≤ little_endian (slice raw 0x57 0x59)))

-- What is wrong with a datagram, by the error and the variant that its variant byte names.
abbrev pub Explains : List ℕ → ParseError → Option VariantKind → Type 0
Explains raw too_short none = length raw < data_header_size
Explains raw too_short (some v) =
    (length raw < data_header_size) ⊎ ((is_code v ≡ true) × (length raw < code_header_size))
Explains raw unknown_variant none = length raw < size_field raw
Explains raw unknown_variant (some v) = ⊥
Explains raw payload_invalid none = ⊥
Explains raw payload_invalid (some v) =
    ((is_data v ≡ true) × (length raw < size_field raw))
    ⊎ ((is_code v ≡ true) × (BadCounts raw ⊎ (length raw ≤ merkle_suffix v)))

fallback_error :
    (raw : List ℕ) (slot index : ℕ) (e : ParseError)
    → data_header_size ≤ length raw
    → parse_data_legacy_fallback raw slot index ≡ err e
    → (e ≡ payload_invalid) × (length raw < size_field raw)
unfolding parse_data_legacy_fallback read_u16
fallback_error raw slot index e h p = ground arith

data_error :
    (raw : List ℕ) (slot index version set : ℕ) (v : VariantKind) (e : ParseError)
    → data_header_size ≤ length raw
    → parse_data_with_kind raw slot index version set v ≡ err e
    → (e ≡ payload_invalid) × (length raw < size_field raw)
unfolding parse_data_with_kind parse_data_with_size read_u16
data_error raw slot index version set v e h p = ground (arith, fallback_error raw slot index e h)

code_error :
    (raw : List ℕ) (slot index version set : ℕ) (v : VariantKind) (e : ParseError)
    → parse_code_with_kind raw slot index version set v ≡ err e
    → ((e ≡ too_short) × (length raw < code_header_size))
      ⊎ ((e ≡ payload_invalid) × (BadCounts raw ⊎ (length raw ≤ merkle_suffix v)))
unfolding parse_code_with_kind read_u16
code_error raw slot index version set v e p = ground arith

as_unknown-eq-err :
    (r : Parsed ShredKind) {e : ParseError}
    → as_unknown r ≡ err e
    → (e ≡ unknown_variant) × (x : ParseError) × (r ≡ err x)
as_unknown-eq-err (ok s) p = cc
as_unknown-eq-err (err x) p = (cc, x, refl)

kinds-cover : (v : VariantKind) → (is_data v ≡ true) ⊎ ((is_data v ≡ false) × (is_code v ≡ true))
unfolding is_data is_code
kinds-cover v = ground arith

abbrev LongError : List ℕ → ℕ → ℕ → ℕ → ℕ → Option VariantKind → ParseError → Type 0
LongError raw slot index version set o e =
    data_header_size ≤ length raw
    → parse_by_variant raw slot index version set o ≡ err e
    → Explains raw e o

by_variant_none :
    (raw : List ℕ) (slot index version set : ℕ) (e : ParseError)
    → LongError raw slot index version set none e
unfolding parse_by_variant
by_variant_none raw slot index version set e h p =
    let (q, x, r) = as_unknown-eq-err (parse_data_legacy_fallback raw slot index) p in
    rw q (fallback_error raw slot index x h r).1

data-Explains :
    (raw : List ℕ) (v : VariantKind) (e : ParseError)
    → is_data v ≡ true
    → (e ≡ payload_invalid) × (length raw < size_field raw)
    → Explains raw e (some v)
data-Explains raw v e h (q, short) = rw q (inl (h, short))

code-Explains :
    (raw : List ℕ) (v : VariantKind) (e : ParseError)
    → is_code v ≡ true
    → ((e ≡ too_short) × (length raw < code_header_size))
      ⊎ ((e ≡ payload_invalid) × (BadCounts raw ⊎ (length raw ≤ merkle_suffix v)))
    → Explains raw e (some v)
code-Explains raw v e h (inl (q, short)) = rw q (inr (h, short))
code-Explains raw v e h (inr (q, bad)) = rw q (inr (h, bad))

by_variant_some :
    (raw : List ℕ) (slot index version set : ℕ) (v : VariantKind) (e : ParseError)
    → LongError raw slot index version set (some v) e
unfolding parse_by_variant
by_variant_some raw slot index version set v e h p = elim (kinds-cover v) [
  | inl data_there ↦
      data-Explains raw v e data_there
        (data_error raw slot index version set v e h (rw data_there at p))
  | inr (no_data, code_there) ↦
      code-Explains raw v e code_there
        (code_error raw slot index version set v e (rw (no_data, code_there) at p))
]

by_variant_error :
    (raw : List ℕ) (slot index version set : ℕ) (o : Option VariantKind) (e : ParseError)
    → LongError raw slot index version set o e
by_variant_error raw slot index version set none e = by_variant_none raw slot index version set e
by_variant_error raw slot index version set (some v) e =
    by_variant_some raw slot index version set v e

short-Explains :
    (raw : List ℕ) (o : Option VariantKind)
    → length raw < data_header_size
    → Explains raw too_short o
short-Explains raw none h = h
short-Explains raw (some v) h = inl h

-- An error of ParseKind says what is wrong: `too_short` is given only to a datagram shorter than the
-- data header, or than the coding header under a coding variant; `unknown_variant` only where the
-- variant byte names no variant and the datagram is shorter than its size field says; and
-- `payload_invalid` only to a data variant with such a size field, or to a coding variant with counts
-- or a Merkle suffix that do not fit.
pub parse_kind_error :
    (raw : List ℕ) (e : ParseError)
    → parse_kind raw ≡ err e
    → Explains raw e (classify_variant (get_or raw 0x40 0))
unfolding parse_kind read_u64 read_u32 read_u16
parse_kind_error raw e p = ground (
  arith,
  short-Explains raw (classify_variant (get_or raw 0x40 0)),
  by_variant_error raw (little_endian (slice raw 0x41 0x49)) (little_endian (slice raw 0x49 0x4d))
      (little_endian (slice raw 0x4d 0x4f)) (little_endian (slice raw 0x4f 0x53))
      (classify_variant (get_or raw 0x40 0)) e,
)
