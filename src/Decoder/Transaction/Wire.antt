-- ===== src/Decoder/Transaction/Wire.antt =====
-- The wire format of a transaction, written down independently of the decoder, and the round trip.
use shredstream_sdk_go.Prelude.{
  ℕ, ◌≤◌, ◌<◌, ◌≡◌, List, [], ◌∷◌, ◌++◌, Bool, true, false, arith, length, length-append,
  get_or-shift, get_or-middle, high_bit, All, append_assoc, append-nil,
}
use shredstream_sdk_go.Decoder.Reader.{Reader, complete, ◌>>=◌, pure, read_bytes}
use shredstream_sdk_go.Decoder.Reader.Format.{
  Reads, pure-Reads, bind-Reads, read_bytes-Reads, read_byte-Reads, encode_all, times-Reads,
  nested-Reads, read_array-Reads,
}
use shredstream_sdk_go.Decoder.Compact.{encode_compact_u16, read_compact_u16}
use shredstream_sdk_go.Decoder.Compact.Laws.{read_compact_u16-Reads}
use shredstream_sdk_go.Decoder.Types.{
  MessageHeader, CompiledInstruction, MessageAddressTableLookup, VersionedMessage,
  VersionedTransaction,
}
use shredstream_sdk_go.Decoder.Transaction.{
  read_version, read_header, read_instruction, read_lookup, read_lookups, decode_message,
  check_sig_count, decode_transaction,
}

-- A byte sequence behind its length.
unfoldable pub sized : List ℕ → List ℕ
sized bytes = encode_compact_u16 (length bytes) ++ bytes

unfoldable pub instruction_bytes : CompiledInstruction → List ℕ
instruction_bytes ix =
    (ix.program_id_index ∷ []) ++ (sized ix.accounts ++ sized ix.instruction_data)

unfoldable pub lookup_bytes : MessageAddressTableLookup → List ℕ
lookup_bytes atl = atl.account_key ++ (sized atl.writable_indexes ++ sized atl.readonly_indexes)

unfoldable pub version_bytes : Bool → List ℕ
version_bytes true = 0x80 ∷ []
version_bytes false = []

unfoldable pub header_bytes : MessageHeader → List ℕ
header_bytes h =
    h.num_required_signatures ∷ h.num_readonly_signed_accounts ∷ h.num_readonly_unsigned_accounts
    ∷ []

unfoldable pub lookups_bytes : Bool → List MessageAddressTableLookup → List ℕ
lookups_bytes true atls = encode_compact_u16 (length atls) ++ encode_all lookup_bytes atls
lookups_bytes false atls = []

unfoldable pub message_bytes : VersionedMessage → List ℕ
message_bytes m =
    (version_bytes m.is_v0 ++ header_bytes m.header)
    ++ (encode_compact_u16 (length m.account_keys)
        ++ (encode_all (λ k. k) m.account_keys
            ++ (m.recent_blockhash
                ++ (encode_compact_u16 (length m.instructions)
                    ++ (encode_all instruction_bytes m.instructions
                        ++ lookups_bytes m.is_v0 m.address_table_lookups)))))

unfoldable pub transaction_bytes : VersionedTransaction → List ℕ
transaction_bytes tx =
    encode_compact_u16 (length tx.signatures)
    ++ (encode_all (λ s. s) tx.signatures ++ message_bytes tx.message)

-- What the format can hold: lengths below 2 ^ 16, fixed arrays of their size, and a legacy message
-- that does not start with the mark of a versioned one and has no lookups.
pub record IsInstruction (ix : CompiledInstruction) : Type 0 where
  pub accounts_fit : length ix.accounts < 65536
  pub data_fit : length ix.instruction_data < 65536

pub record IsLookup (atl : MessageAddressTableLookup) : Type 0 where
  pub key_fits : length atl.account_key ≡ 32
  pub writable_fit : length atl.writable_indexes < 65536
  pub readonly_fit : length atl.readonly_indexes < 65536

abbrev pub LookupsFit : Bool → List MessageAddressTableLookup → Type 0
LookupsFit true atls = (length atls < 65536) × All IsLookup atls
LookupsFit false atls = atls ≡ []

abbrev pub HeaderFits : Bool → MessageHeader → Type 0
HeaderFits true h = Unit {0}
HeaderFits false h = h.num_required_signatures < 128

pub record IsMessage (m : VersionedMessage) : Type 0 where
  pub header_fits : HeaderFits m.is_v0 m.header
  pub keys_fit : length m.account_keys < 65536
  pub keys : All (λ k. length k ≡ 32) m.account_keys
  pub blockhash_fits : length m.recent_blockhash ≡ 32
  pub instructions_fit : length m.instructions < 65536
  pub instructions : All IsInstruction m.instructions
  pub lookups : LookupsFit m.is_v0 m.address_table_lookups

pub record IsTransaction (tx : VersionedTransaction) : Type 0 where
  pub signatures_fit : length tx.signatures ≤ 256
  pub signatures : All (λ s. length s ≡ 64) tx.signatures
  pub message : IsMessage tx.message

-- A sized sequence, and then the rest of the reader.
sized-Reads {ℓ} :
    {B : Type ℓ} (f : List ℕ → Reader B) (bytes : List ℕ) {more : List ℕ} {b : B}
    → length bytes < 65536
    → Reads (f bytes) more b
    → Reads (read_compact_u16 >>= λ n. read_bytes n >>= f) (sized bytes ++ more) b
unfolding sized
sized-Reads f bytes {more} h rest =
    rw (append_assoc (encode_compact_u16 (length bytes)) bytes more) (
      bind-Reads (λ n. read_bytes n >>= f) (length bytes) (read_compact_u16-Reads (length bytes) h)
        (bind-Reads f bytes (read_bytes-Reads bytes) rest))

sized_last-Reads {ℓ} :
    {B : Type ℓ} (g : List ℕ → B) (bytes : List ℕ)
    → length bytes < 65536
    → Reads (read_compact_u16 >>= λ n. read_bytes n >>= λ x. pure (g x)) (sized bytes) (g bytes)
sized_last-Reads g bytes h =
    rw (append-nil) at (sized-Reads (λ x. pure (g x)) bytes h (pure-Reads (g bytes)))

read_instruction-Reads :
    (ix : CompiledInstruction) → IsInstruction ix → Reads read_instruction (instruction_bytes ix) ix
unfolding read_instruction instruction_bytes
read_instruction-Reads ix v =
    bind-Reads _ ix.program_id_index (read_byte-Reads ix.program_id_index) (
      sized-Reads _ ix.accounts v.accounts_fit
        (sized_last-Reads (λ x. record ix { instruction_data = x }) ix.instruction_data v.data_fit))

read_lookup-Reads :
    (atl : MessageAddressTableLookup) → IsLookup atl → Reads read_lookup (lookup_bytes atl) atl
unfolding read_lookup lookup_bytes
read_lookup-Reads atl v =
    bind-Reads _ atl.account_key (rw v.key_fits at (read_bytes-Reads atl.account_key)) (
      sized-Reads _ atl.writable_indexes v.writable_fit (
        sized_last-Reads (λ x. record atl { readonly_indexes = x }) atl.readonly_indexes
          v.readonly_fit))

read_lookups-Reads :
    (v0 : Bool) (atls : List MessageAddressTableLookup)
    → LookupsFit v0 atls
    → Reads (read_lookups v0) (lookups_bytes v0 atls) atls
unfolding read_lookups lookups_bytes
read_lookups-Reads true atls (few, fits) =
    bind-Reads _ (length atls) (read_compact_u16-Reads (length atls) few)
      (times-Reads IsLookup read_lookup-Reads atls fits)
read_lookups-Reads false atls none_there = rw none_there (pure-Reads [])

read_header-Reads : (h : MessageHeader) → Reads read_header (header_bytes h) h
unfolding read_header header_bytes
read_header-Reads h = record {
  read_at = λ pre rest.
      let bytes : List ℕ = header_bytes h ++ rest in
      ground (
        arith,
        length-append pre bytes,
        get_or-shift pre bytes 0 0,
        get_or-shift pre bytes 1 0,
        get_or-shift pre bytes 2 0,
      );
}

marked_version-Reads : Reads read_version (0x80 ∷ []) true
unfolding read_version
marked_version-Reads = record {
  read_at =
      λ pre rest. ground (arith, length-append pre (0x80 ∷ rest), get_or-middle pre 0x80 0 rest);
}

-- A legacy message begins with a byte below 128, which is looked at and not consumed.
legacy_version :
    (x : ℕ) (pre rest : List ℕ)
    → x < 128
    → read_version (pre ++ (x ∷ rest)) (length pre) ≡ complete false (length pre)
unfolding read_version
legacy_version x pre rest h =
    ground (arith, length-append pre (x ∷ rest), get_or-middle pre x 0 rest, high_bit x)

start-Reads {ℓ} :
    {B : Type ℓ} (f : Bool → MessageHeader → Reader B) (v0 : Bool) (h : MessageHeader)
    {more : List ℕ} {b : B}
    → HeaderFits v0 h
    → Reads (f v0 h) more b
    → Reads
        (read_version >>= λ v. read_header >>= f v)
        ((version_bytes v0 ++ header_bytes h) ++ more)
        b
unfolding version_bytes header_bytes
start-Reads f true h {more} fits rest =
    bind-Reads (λ v. read_header >>= f v) true marked_version-Reads
      (bind-Reads (f true) h (read_header-Reads h) rest)
start-Reads f false h {more} fits rest = record {
  read_at = λ pre behind.
      let body = bind-Reads (f false) h (read_header-Reads h) rest in
      rw (legacy_version h.num_required_signatures pre _ fits) (body.read_at pre behind);
}

last-Reads {ℓ κ} :
    {A : Type ℓ} {B : Type κ} {m : Reader A} (g : A → B) {bytes : List ℕ} {a : A}
    → Reads m bytes a
    → Reads (m >>= λ x. pure (g x)) bytes (g a)
last-Reads g {a} h = rw (append-nil) at (bind-Reads (λ x. pure (g x)) a h (pure-Reads (g a)))

pub decode_message-Reads :
    (m : VersionedMessage) → IsMessage m → Reads decode_message (message_bytes m) m
unfolding decode_message message_bytes
decode_message-Reads m v = start-Reads _ m.is_v0 m.header v.header_fits (
    bind-Reads _ (length m.account_keys) (read_compact_u16-Reads _ v.keys_fit) (
      bind-Reads _ m.account_keys (read_array-Reads m.account_keys 32 v.keys) (
        bind-Reads _ m.recent_blockhash
          (rw v.blockhash_fits at (read_bytes-Reads m.recent_blockhash))
          (bind-Reads _ (length m.instructions) (read_compact_u16-Reads _ v.instructions_fit) (
            bind-Reads _ m.instructions
              (times-Reads IsInstruction read_instruction-Reads m.instructions v.instructions)
              (last-Reads (λ atls. record m { address_table_lookups = atls })
                (read_lookups-Reads m.is_v0 m.address_table_lookups v.lookups)))))))

check_sig_count-Reads : (n : ℕ) → n ≤ 256 → Reads (check_sig_count n) [] tt
unfolding check_sig_count
check_sig_count-Reads n h = record { read_at = λ pre rest. ground arith }

-- A transaction of the wire format is decoded to itself wherever its bytes stand in a slice, whatever
-- follows them, and exactly its bytes are consumed.
pub decode_transaction-Reads :
    (tx : VersionedTransaction)
    → IsTransaction tx
    → Reads decode_transaction (transaction_bytes tx) tx
unfolding decode_transaction transaction_bytes
decode_transaction-Reads tx v =
    bind-Reads _ (length tx.signatures)
      (read_compact_u16-Reads (length tx.signatures) (omega (arith, v.signatures_fit)))
      (bind-Reads _ {bytes = []} tt (check_sig_count-Reads (length tx.signatures) v.signatures_fit)
        (bind-Reads _ tx.signatures (read_array-Reads tx.signatures 64 v.signatures) (
          last-Reads (λ m. record tx { message = m })
            (nested-Reads (decode_message-Reads tx.message v.message)))))
