-- ===== src/Decoder/Transaction/Laws.antt =====
-- The transaction decoder stays in its slice and does not look past the transaction.
use shredstream_sdk_go.Prelude.{ℕ, ◌+◌, Bool, true, false, arith, length-append, get_or-append}
use shredstream_sdk_go.Decoder.Reader.Laws.{
  IsSteady, pure-IsSteady, bind-IsSteady, read_bytes-IsSteady, read_byte-IsSteady,
  read_array-IsSteady, times-IsSteady, nested-IsSteady,
}
use shredstream_sdk_go.Decoder.Compact.Laws.{read_compact_u16-IsSteady}
use shredstream_sdk_go.Decoder.Transaction.{
  read_version, read_header, read_instruction, read_lookup, read_lookups, decode_message,
  check_sig_count, decode_transaction,
}

read_version-IsSteady : IsSteady read_version
unfolding read_version
read_version-IsSteady = record {
  bounds = λ b pos a next h e. ground arith;
  extend =
      λ b more pos a next h e. ground (arith, length-append b more, get_or-append b more pos 0);
}

read_header-IsSteady : IsSteady read_header
unfolding read_header
read_header-IsSteady = record {
  bounds = λ b pos a next h e. ground arith;
  extend = λ b more pos a next h e. ground (
    arith,
    length-append b more,
    get_or-append b more pos 0,
    get_or-append b more (pos + 1) 0,
    get_or-append b more (pos + 2) 0,
  );
}

check_sig_count-IsSteady : (n : ℕ) → IsSteady (check_sig_count n)
unfolding check_sig_count
check_sig_count-IsSteady n = record {
  bounds = λ b pos a next h e. ground arith;
  extend = λ b more pos a next h e. ground arith;
}

read_instruction-IsSteady : IsSteady read_instruction
unfolding read_instruction
read_instruction-IsSteady = bind-IsSteady read_byte-IsSteady λ p.
    bind-IsSteady read_compact_u16-IsSteady λ n. bind-IsSteady (read_bytes-IsSteady n) λ accounts.
      bind-IsSteady read_compact_u16-IsSteady
        λ m. bind-IsSteady (read_bytes-IsSteady m) λ body. pure-IsSteady _

read_lookup-IsSteady : IsSteady read_lookup
unfolding read_lookup
read_lookup-IsSteady = bind-IsSteady (read_bytes-IsSteady 32) λ key.
    bind-IsSteady read_compact_u16-IsSteady λ n. bind-IsSteady (read_bytes-IsSteady n) λ writable.
      bind-IsSteady read_compact_u16-IsSteady
        λ m. bind-IsSteady (read_bytes-IsSteady m) λ readonly. pure-IsSteady _

read_lookups-IsSteady : (v0 : Bool) → IsSteady (read_lookups v0)
unfolding read_lookups
read_lookups-IsSteady true =
    bind-IsSteady read_compact_u16-IsSteady (λ n. times-IsSteady n read_lookup-IsSteady)
read_lookups-IsSteady false = pure-IsSteady _

pub decode_message-IsSteady : IsSteady decode_message
unfolding decode_message
decode_message-IsSteady = bind-IsSteady read_version-IsSteady λ v0.
    bind-IsSteady read_header-IsSteady λ header. bind-IsSteady read_compact_u16-IsSteady λ keys.
      bind-IsSteady (read_array-IsSteady keys 32) λ account_keys.
        bind-IsSteady (read_bytes-IsSteady 32) λ blockhash.
          bind-IsSteady read_compact_u16-IsSteady λ ixs.
            bind-IsSteady (times-IsSteady ixs read_instruction-IsSteady)
              λ instructions. bind-IsSteady (read_lookups-IsSteady v0) λ atls. pure-IsSteady _

pub decode_transaction-IsSteady : IsSteady decode_transaction
unfolding decode_transaction
decode_transaction-IsSteady = bind-IsSteady read_compact_u16-IsSteady λ n.
    bind-IsSteady (check_sig_count-IsSteady n) λ _.
      bind-IsSteady (read_array-IsSteady n 64)
        λ sigs. bind-IsSteady (nested-IsSteady decode_message-IsSteady) λ msg. pure-IsSteady _
