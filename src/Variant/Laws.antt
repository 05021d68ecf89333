-- ===== src/Variant/Laws.antt =====
-- ClassifyVariant against the format's variant bytes, and the lengths of the parts of a shred.
use shredstream_sdk_go.Prelude.{
  ℕ, ◌+◌, ◌-◌, ◌*◌, ◌<◌, ◌≡◌, Bool, true, false, some, if◌then◌else◌, low_four_bits, arith,
}
use shredstream_sdk_go.Prelude.Int.{pos, ◌-ℤ◌}
use shredstream_sdk_go.Variant.{
  Kind, kind_data_legacy, kind_code_legacy, kind_data_merkle, kind_code_merkle, VariantKind,
  merkle_suffix, classify_variant, shard_size, size_of_signature, data_shred_payload_len,
  code_shred_payload_len, size_of_coding_shred_headers,
}

-- The byte that stands for a variant: a high half for the kind and the second signature, and the proof
-- size in the low half. Legacy variants have one byte each.
unfoldable pub variant_byte : Kind → ℕ → Bool → ℕ
variant_byte kind_data_legacy p r = 0xA5
variant_byte kind_code_legacy p r = 0x5A
variant_byte kind_code_merkle p false = 0x60 + p
variant_byte kind_code_merkle p true = 0x70 + p
variant_byte kind_data_merkle p false = 0x90 + p
variant_byte kind_data_merkle p true = 0xB0 + p

abbrev pub Fits : Kind → ℕ → Bool → Type 0
Fits kind_data_legacy p r = (p ≡ 0) × (r ≡ false)
Fits kind_code_legacy p r = (p ≡ 0) × (r ≡ false)
Fits kind_data_merkle p r = p < 16
Fits kind_code_merkle p r = p < 16

abbrev pub IsVariant : VariantKind → Type 0
IsVariant v = Fits v.kind v.proof_size v.resigned

-- Every variant of the format is what ClassifyVariant makes of its byte.
pub classify-variant_byte :
    (k : Kind) (p : ℕ) (r : Bool)
    → Fits k p r
    → classify_variant (variant_byte k p r)
      ≡ some (record { kind = k; proof_size = p; resigned = r })
unfolding classify_variant variant_byte
classify-variant_byte kind_data_legacy p r h = ground arith
classify-variant_byte kind_code_legacy p r h = ground arith
classify-variant_byte kind_code_merkle p false h = ground (arith, low_four_bits (0x60 + p))
classify-variant_byte kind_code_merkle p true h = ground (arith, low_four_bits (0x70 + p))
classify-variant_byte kind_data_merkle p false h = ground (arith, low_four_bits (0x90 + p))
classify-variant_byte kind_data_merkle p true h = ground (arith, low_four_bits (0xB0 + p))

-- A byte that ClassifyVariant knows is the byte of the variant that it gives, which is one of the
-- format.
pub variant_byte-classify :
    (b : ℕ) (v : VariantKind)
    → b < 256
    → classify_variant b ≡ some v
    → IsVariant v × (variant_byte v.kind v.proof_size v.resigned ≡ b)
unfolding classify_variant variant_byte
variant_byte-classify b v h e = ground (arith, low_four_bits b)

shard_size_lem :
    (p : ℕ) (r : Bool) → p < 16 → shard_size p r ≡ pos (1107 - 20 * p - (if r then 64 else 0))
unfolding shard_size ◌-ℤ◌
shard_size_lem p r h = ground arith

-- Where the shard of a Merkle shred starts, and how long the whole shred is.
abbrev pub shard_start : Kind → ℕ
shard_start kind_code_merkle = size_of_coding_shred_headers
shard_start _ = size_of_signature

abbrev pub shred_len : Kind → ℕ
shred_len kind_code_merkle = code_shred_payload_len
shred_len _ = data_shred_payload_len

layout_of :
    (k : Kind) (p : ℕ) (r : Bool)
    → Fits k p r
    → 0 < merkle_suffix (record { kind = k; proof_size = p; resigned = r })
    → (p < 16)
      × (shard_start k
            + (1107 - 20 * p - (if r then 64 else 0))
            + merkle_suffix (record { kind = k; proof_size = p; resigned = r })
          ≡ shred_len k)
unfolding merkle_suffix
layout_of kind_data_legacy p r h m = absurd (omega arith)
layout_of kind_code_legacy p r h m = absurd (omega arith)
layout_of kind_data_merkle p r h m = ground arith
layout_of kind_code_merkle p r h m = ground arith

-- A Merkle variant that a byte can hold splits the fixed length of its shred without rest: what stands
-- before the shard, a shard of ShardSize bytes, of which there is one at least, and a suffix of
-- MerkleSuffix bytes.
pub shard_layout :
    (b : ℕ) (v : VariantKind)
    → b < 256
    → classify_variant b ≡ some v
    → 0 < merkle_suffix v
    → (n : ℕ) × (0 < n)
      × (shard_size v.proof_size v.resigned ≡ pos n)
      × (shard_start v.kind + n + merkle_suffix v ≡ shred_len v.kind)
shard_layout b v h e m =
    let (small, whole) =
      layout_of v.kind v.proof_size v.resigned (variant_byte-classify b v h e).0 m in
    (
      1107 - 20 * v.proof_size - (if v.resigned then 64 else 0),
      ground arith,
      shard_size_lem v.proof_size v.resigned small,
      whole,
    )
