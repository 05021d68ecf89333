-- ===== src/Accumulator/FecSet.antt =====
-- fecSetBuffer of accumulator.go: the coding shreds of one FEC set. A map is an association list.
pub mod Recorded
use shredstream_sdk_go.Prelude.{
  ℕ, zero, suc, ◌+◌, ◌*◌, List, [], ◌∷◌, ◌++◌, Bool, true, false, ◌&&◌, Option, none, some, ltb,
  leb, ◌==◌, if◌then◌else◌, length, slice,
}
use shredstream_sdk_go.Prelude.Int.{pos_part}
use shredstream_sdk_go.Variant.{
  Kind, kind_data_legacy, kind_code_legacy, kind_data_merkle, kind_code_merkle, VariantKind,
  shard_size, size_of_signature, size_of_coding_shred_headers,
}

pub record FecSetBuffer : Type 0 where
  pub fec_set_index : ℕ
  pub num_data : ℕ
  pub num_coding : ℕ
  pub shard_len : ℕ
  pub variant : VariantKind
  pub has_variant : Bool
  pub code : List (ℕ × List ℕ)

unfoldable pub new_fec_set_buffer : ℕ → FecSetBuffer
new_fec_set_buffer fec_set_index = record {
  fec_set_index = fec_set_index;
  num_data = 0;
  num_coding = 0;
  shard_len = 0;
  variant = record { kind = kind_data_legacy; proof_size = 0; resigned = false };
  has_variant = false;
  code = [];
}

unfoldable pub code_at : ℕ → List (ℕ × List ℕ) → Option (List ℕ)
code_at position [] = none
code_at position ((p, raw) ∷ code) = if p == position then some raw else code_at position code

-- `if _, exists := f.code[position]; !exists { f.code[position] = copy of raw }`.
unfoldable pub add_code : ℕ → List ℕ → List (ℕ × List ℕ) → List (ℕ × List ℕ)
add_code position raw code = elim (code_at position code) [
  | some old ↦ code
  | none ↦ (position, raw) ∷ code
]

abbrev pub is_code_merkle : Kind → Bool
is_code_merkle kind_code_merkle = true
is_code_merkle kind_data_merkle = false
is_code_merkle kind_code_legacy = false
is_code_merkle kind_data_legacy = false

abbrev pub is_data_merkle : Kind → Bool
is_data_merkle kind_data_merkle = true
is_data_merkle kind_code_merkle = false
is_data_merkle kind_code_legacy = false
is_data_merkle kind_data_legacy = false

-- ShardSize is positive for every variant that a byte can name.
abbrev pub size_of_shard : VariantKind → ℕ
size_of_shard v = pos_part (shard_size v.proof_size v.resigned)

-- The size is taken from the shred's own variant, the other fields from the first shred that has them.
unfoldable pub record_code : FecSetBuffer → ℕ → ℕ → ℕ → List ℕ → VariantKind → FecSetBuffer
record_code f position num_data num_coding raw variant = record {
  fec_set_index = f.fec_set_index;
  num_data = if f.num_data == 0 then num_data else f.num_data;
  num_coding = if f.num_coding == 0 then num_coding else f.num_coding;
  shard_len =
      if f.shard_len == 0 && is_code_merkle variant.kind
      then size_of_shard variant
      else f.shard_len;
  variant = if f.has_variant then f.variant else variant;
  has_variant = true;
  code = add_code position raw f.code;
}

unfoldable pub can_recover_with : FecSetBuffer → ℕ → Bool
can_recover_with f data_received =
    ltb 0 f.num_data && leb f.num_data (data_received + length f.code)

-- `none` is nil.
unfoldable pub data_shard_slice : List ℕ → VariantKind → Option (List ℕ)
data_shard_slice raw v =
    if is_data_merkle v.kind && leb (size_of_signature + size_of_shard v) (length raw)
    then some (slice raw size_of_signature (size_of_signature + size_of_shard v))
    else none

unfoldable pub code_shard_slice : List ℕ → VariantKind → Option (List ℕ)
code_shard_slice raw v =
    if is_code_merkle v.kind && leb (size_of_coding_shred_headers + size_of_shard v) (length raw)
    then some
        (slice raw size_of_coding_shred_headers (size_of_coding_shred_headers + size_of_shard v))
    else none

unfoldable pub variant_as_data : VariantKind → VariantKind
variant_as_data v = if is_code_merkle v.kind then record v { kind = kind_data_merkle } else v
