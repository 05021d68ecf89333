-- ===== src/Decoder/Types.antt =====
-- The data of decoder.go. The fixed arrays Signature, Pubkey and Hash are byte lists.
use shredstream_sdk_go.Prelude.{ℕ, List, Bool}

abbrev pub Signature : Type 0
Signature = List ℕ

abbrev pub Pubkey : Type 0
Pubkey = List ℕ

abbrev pub Hash : Type 0
Hash = List ℕ

pub record MessageHeader : Type 0 where
  pub num_required_signatures : ℕ
  pub num_readonly_signed_accounts : ℕ
  pub num_readonly_unsigned_accounts : ℕ

pub record CompiledInstruction : Type 0 where
  pub program_id_index : ℕ
  pub accounts : List ℕ
  pub instruction_data : List ℕ

pub record MessageAddressTableLookup : Type 0 where
  pub account_key : Pubkey
  pub writable_indexes : List ℕ
  pub readonly_indexes : List ℕ

pub record VersionedMessage : Type 0 where
  pub is_v0 : Bool
  pub header : MessageHeader
  pub account_keys : List Pubkey
  pub recent_blockhash : Hash
  pub instructions : List CompiledInstruction
  pub address_table_lookups : List MessageAddressTableLookup

pub record VersionedTransaction : Type 0 where
  pub signatures : List Signature
  pub message : VersionedMessage
