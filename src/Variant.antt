-- ===== src/Variant.antt =====
-- variant.go, and ShardSize of fec.go.
pub mod Laws
use shredstream_sdk_go.Prelude.{
  ℕ, ◌+◌, ◌*◌, ◌%◌, Bool, true, false, ◌&&◌, ◌||◌, Option, none, some, leb, ◌==◌, if◌then◌else◌,
  bit_and,
}
use shredstream_sdk_go.Prelude.Int.{ℤ, pos, ◌-ℤ◌}

-- The four constants KindDataLegacy, KindCodeLegacy, KindDataMerkle, KindCodeMerkle.
pub data Kind : Type 0 where
  kind_data_legacy kind_code_legacy kind_data_merkle kind_code_merkle : Kind

pub record VariantKind : Type 0 where
  pub kind : Kind
  pub proof_size : ℕ
  pub resigned : Bool

abbrev is_data_kind : Kind → Bool
is_data_kind kind_data_legacy = true
is_data_kind kind_data_merkle = true
is_data_kind kind_code_legacy = false
is_data_kind kind_code_merkle = false

abbrev is_code_kind : Kind → Bool
is_code_kind kind_code_legacy = true
is_code_kind kind_code_merkle = true
is_code_kind kind_data_legacy = false
is_code_kind kind_data_merkle = false

unfoldable pub is_data : VariantKind → Bool
is_data v = is_data_kind v.kind

unfoldable pub is_code : VariantKind → Bool
is_code v = is_code_kind v.kind

abbrev pub proof_node_size : ℕ
proof_node_size = 20

abbrev pub resigned_extra : ℕ
resigned_extra = 64

abbrev suffix_of : Kind → ℕ → Bool → ℕ
suffix_of kind_data_legacy proof_size resigned = 0
suffix_of kind_code_legacy proof_size resigned = 0
suffix_of kind_data_merkle proof_size resigned =
    proof_size * proof_node_size + 32 + (if resigned then resigned_extra else 0)
suffix_of kind_code_merkle proof_size resigned =
    proof_size * proof_node_size + 32 + (if resigned then resigned_extra else 0)

-- The length of what follows the shard: Merkle root, proof and second signature.
unfoldable pub merkle_suffix : VariantKind → ℕ
merkle_suffix v = suffix_of v.kind v.proof_size v.resigned

abbrev variant : Kind → ℕ → Bool → Option VariantKind
variant k p r = some (record { kind = k; proof_size = p; resigned = r })

unfoldable pub classify_variant : ℕ → Option VariantKind
classify_variant b =
    if b == 0xA5
    then variant kind_data_legacy 0 false
    else if b == 0x5A
    then variant kind_code_legacy 0 false
    else if leb 0x60 b && leb b 0x6F
    then variant kind_code_merkle (bit_and b 0x0F) false
    else if leb 0x70 b && leb b 0x7F
    then variant kind_code_merkle (bit_and b 0x0F) true
    else if leb 0x90 b && leb b 0x9F
    then variant kind_data_merkle (bit_and b 0x0F) false
    else if leb 0xB0 b && leb b 0xBF
    then variant kind_data_merkle (bit_and b 0x0F) true
    else none

abbrev pub size_of_signature : ℕ
size_of_signature = 64

abbrev pub size_of_coding_shred_headers : ℕ
size_of_coding_shred_headers = 89

abbrev pub size_of_merkle_root : ℕ
size_of_merkle_root = 32

abbrev pub size_of_merkle_proof_entry : ℕ
size_of_merkle_proof_entry = 20

abbrev pub data_shred_payload_len : ℕ
data_shred_payload_len = 1203

abbrev pub code_shred_payload_len : ℕ
code_shred_payload_len = 1228

-- ShardSize is an int, and negative for proof sizes that no variant byte holds.
unfoldable pub shard_size : ℕ → Bool → ℤ
shard_size proof_size resigned =
    let n =
      pos code_shred_payload_len
      -ℤ pos size_of_coding_shred_headers
      -ℤ pos size_of_merkle_root
      -ℤ pos (proof_size * size_of_merkle_proof_entry) in
    if resigned then n -ℤ pos size_of_signature else n
