-- ===== src/Tests.antt =====
-- Concrete runs of the model, and its theorems at concrete inputs.
mod Accumulating
mod Coding
mod Decoding
mod Listening
mod Parsing
mod Recovering
mod Settings
