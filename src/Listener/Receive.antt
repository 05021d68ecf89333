-- ===== src/Listener/Receive.antt =====
-- recvOne and TransactionIter of listener.go. What the socket gives is an argument. The mutex is not held
-- while the socket is read; the model is of one caller.
pub mod Queue
use shredstream_sdk_go.Prelude.{
  ◌>>=◌, ℕ, zero, suc, List, [], ◌∷◌, Bool, true, false, Option, none, some, if◌then◌else◌, length,
}
use shredstream_sdk_go.Pool.{BufferHandle, release}
use shredstream_sdk_go.Decoder.Types.{VersionedTransaction}
use shredstream_sdk_go.Listener.{SlotBatch, Listener}
use shredstream_sdk_go.Listener.Packet.{
  Answer, Handled, acquire_buffer_with_fallback, handle_packet,
}

-- What ReadFrom gives: the bytes of a datagram, or an error, with what isRecoverableIOError says of it.
pub data ReadResult : Type 0 where
  read_bytes : List ℕ → ReadResult
  read_error : Bool → ReadResult

-- The results of recvOne: `(slot, txs, true, nil)`, `(0, nil, false, nil)`, and an error.
pub data Received : Type 0 where
  got_batch : SlotBatch → Received
  got_nothing : Received
  got_error : Bool → Received

abbrev pub received_answer : Answer → Received
received_answer none = got_nothing
received_answer (some (slot, txs)) = got_batch (record { slot = slot; txs = txs })

-- The reads that are left, with the result.
abbrev pub RecvResult : Type 0
RecvResult = Option (Listener × List ReadResult × Received)

abbrev pub after_packet : List ReadResult → Listener × Answer → RecvResult
after_packet reads (l, a) = some (l, reads, received_answer a)

-- A read that failed. Without a buffer its result is not looked at.
abbrev pub after_error : Bool → List ReadResult → Listener × Option BufferHandle → RecvResult
after_error recoverable reads (l, none) = some (l, reads, got_nothing)
after_error recoverable reads (l, some h) =
    some (record l { pool = (release h l.pool).1 }, reads, got_error recoverable)

-- A datagram is read into the buffer that was acquired, and is then treated as HandlePacket treats the one
-- that it copies there. With no read left, ReadFrom does not return.
unfoldable pub read_one : ℕ → List ReadResult → Listener → RecvResult
read_one now [] l = none
read_one now (read_bytes raw ∷ reads) l = handle_packet now raw l >>= after_packet reads
read_one now (read_error recoverable ∷ reads) l =
    acquire_buffer_with_fallback now l >>= after_error recoverable reads

-- `online` says that the socket is not nil. The error of a listener without one is not recoverable.
abbrev pub recv_queued : Bool → ℕ → List ReadResult → List SlotBatch → Listener → RecvResult
recv_queued online now reads (b ∷ rest) l =
    some (record l { pending_batches = rest }, reads, got_batch b)
recv_queued online now reads [] l =
    if online then read_one now reads l else some (l, reads, got_error false)

unfoldable pub recv_one : Bool → ℕ → List ReadResult → Listener → RecvResult
recv_one online now reads l = recv_queued online now reads l.pending_batches l

-- `err` says that there is one.
pub record TransactionIter : Type 0 where
  pub listener : Listener
  pub slot : ℕ
  pub txs : List VersionedTransaction
  pub failed : Bool
  pub done : Bool

-- What Next looks at: the socket, the context and the clock, by the number of reads that are left.
pub record Surroundings : Type 0 where
  pub online : Bool
  pub cancelled : ℕ → Bool
  pub clock : ℕ → ℕ

abbrev pub NextResult : Type 0
NextResult = Option (TransactionIter × List ReadResult × Bool)

-- The loop of Next. Each round but the last takes a read.
unfoldable pub next_loop : ℕ → Surroundings → List ReadResult → TransactionIter → NextResult
next_loop zero env reads it = none
next_loop (suc fuel) env reads it = elim (env.cancelled (length reads)) [
  | true ↦ some (record it { done = true }, reads, false)
  | false ↦ elim (recv_one env.online (env.clock (length reads)) reads it.listener) [
    | none ↦ none
    | some (l, left, got_batch b) ↦
        some (record it { listener = l; slot = b.slot; txs = b.txs }, left, true)
    | some (l, left, got_nothing) ↦ next_loop fuel env left (record it { listener = l })
    | some (l, left, got_error true) ↦ next_loop fuel env left (record it { listener = l })
    | some (l, left, got_error false) ↦
        some (record it { listener = l; failed = true; done = true }, left, false)
  ]
]

unfoldable pub next : Surroundings → List ReadResult → TransactionIter → NextResult
next env reads it =
    if it.done then some (it, reads, false) else next_loop (suc (length reads)) env reads it

-- Listener.Transactions.
abbrev pub transactions : Listener → TransactionIter
transactions l = record { listener = l; slot = 0; txs = []; failed = false; done = false }
