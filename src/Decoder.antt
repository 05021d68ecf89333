-- ===== src/Decoder.antt =====
-- decoder.go: the bincode decoder of entries, transactions and messages, in batch and streaming form.
pub mod Reader
pub mod Types
pub mod Compact
pub mod Transaction
pub mod Batch
pub mod Streaming
