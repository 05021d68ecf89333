-- ===== src/Accumulator.antt =====
-- accumulator.go: what a slot gathers before its batches are decoded.
pub mod FecSet
pub mod Recovery
pub mod Slot
pub mod Fill
pub mod Salvage
pub mod Streaming
pub mod Flush
pub mod Harvest
pub mod Push
pub mod Rules
pub mod Owned
pub mod Returns
