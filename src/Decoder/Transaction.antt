-- ===== src/Decoder/Transaction.antt =====
-- decodeMessage and decodeTransaction of decoder.go.
pub mod Wire
pub mod Laws
use shredstream_sdk_go.Prelude.{
  ℕ, ◌+◌, List, [], Bool, true, false, if◌then◌else◌, ◌==◌, ltb, length, get_or, bit_and, not,
}
use shredstream_sdk_go.Decoder.Reader.{
  Reader, Outcome, complete, incomplete, failed, DecodeError, sig_count_too_large,
  unknown_message_version, then_read, ◌>>=◌, ◌>>◌, pure, fail, read_bytes, read_byte, read_array,
  times, nested,
}
use shredstream_sdk_go.Decoder.Compact.{read_compact_u16}
use shredstream_sdk_go.Decoder.Types.{
  MessageHeader, CompiledInstruction, MessageAddressTableLookup, VersionedMessage,
  VersionedTransaction,
}

-- The first byte: a set top bit marks a versioned message, of which version 0 alone is known. The
-- byte of a legacy message is not consumed.
unfoldable pub read_version : Reader Bool
read_version b pos =
    if ltb (length b) (pos + 1)
    then incomplete
    else if bit_and (get_or b pos 0) 0x80 == 0
    then complete false pos
    else if bit_and (get_or b pos 0) 0x7f == 0
    then complete true (pos + 1)
    else failed unknown_message_version

-- `if pos+3 > len(b)` and the three bytes of the header.
unfoldable pub read_header : Reader MessageHeader
read_header b pos =
    if ltb (length b) (pos + 3)
    then incomplete
    else complete
        (record {
          num_required_signatures = get_or b pos 0;
          num_readonly_signed_accounts = get_or b (pos + 1) 0;
          num_readonly_unsigned_accounts = get_or b (pos + 2) 0;
        })
        (pos + 3)

unfoldable pub read_instruction : Reader CompiledInstruction
read_instruction = do
  program_id ← read_byte
  acct_len ← read_compact_u16
  accounts ← read_bytes acct_len
  data_len ← read_compact_u16
  body ← read_bytes data_len
  pure (record { program_id_index = program_id; accounts = accounts; instruction_data = body })

unfoldable pub read_lookup : Reader MessageAddressTableLookup
read_lookup = do
  key ← read_bytes 32
  w_len ← read_compact_u16
  writable ← read_bytes w_len
  r_len ← read_compact_u16
  readonly ← read_bytes r_len
  pure (record { account_key = key; writable_indexes = writable; readonly_indexes = readonly })

-- The lookups stand in a version 0 message only.
unfoldable pub read_lookups : Bool → Reader (List MessageAddressTableLookup)
read_lookups true = read_compact_u16 >>= λ n. times n read_lookup
read_lookups false = pure []

unfoldable pub decode_message : Reader VersionedMessage
decode_message = do
  is_v0 ← read_version
  header ← read_header
  acct_count ← read_compact_u16
  account_keys ← read_array acct_count 32
  blockhash ← read_bytes 32
  ix_count ← read_compact_u16
  instructions ← times ix_count read_instruction
  atls ← read_lookups is_v0
  pure (record {
    is_v0 = is_v0;
    header = header;
    account_keys = account_keys;
    recent_blockhash = blockhash;
    instructions = instructions;
    address_table_lookups = atls;
  })

-- `if sigCount > 256 { return error }`.
unfoldable pub check_sig_count : ℕ → Reader (Unit {0})
check_sig_count n b pos = if ltb 256 n then failed sig_count_too_large else complete tt pos

unfoldable pub decode_transaction : Reader VersionedTransaction
decode_transaction = do
  sig_count ← read_compact_u16
  check_sig_count sig_count
  sigs ← read_array sig_count 64
  msg ← nested decode_message
  pure (record { signatures = sigs; message = msg })
