-- ===== src/Lib.antt =====
-- A model of the ShredStream SDK for Go, which receives Solana shreds as datagrams and gives the
-- transactions in them, with theorems on what its parts promise.
--
-- A datagram is parsed into a data shred or a coding shred. Data shreds carry the payload of a
-- batch: a count of entries, then the entries, each with its transactions. A decoder takes payloads one
-- by one and yields entries as soon as they are complete; a batch that is complete is also decoded at
-- once. Coding shreds are the parity of a Reed-Solomon code over the field of 256 elements, from which
-- lost data shreds are recovered. The listener keeps an accumulator for each slot, which holds the
-- pending shreds in buffers of the listener's pool, and evicts the slots that are too old, or the oldest
-- one when no buffer is left; what can still be decoded of them is harvested.
--
-- The files and the code:
--   Prelude      what the others share: lists and slices over native numbers, Boolean tests, bits.
--   Saturating   saturating.go.
--   Variant      variant.go and ShardSize of fec.go: the variant byte and the sizes of a shard.
--   Parser       parser.go: ParseKind, ParseShred and their helpers, one function each. Shape, Coding and
--                Errors say what a result means; Header and RoundTrip build shreds and parse them.
--   Pool         pool.go: the pool's free list and its handles. Ownership follows the buffers.
--   Options      options.go. Pooling relates validate to the pool.
--   Decoder      decoder.go. Reader is the state of a parse: a slice and a position, with the outcomes
--                complete, incomplete (`nil, 0, nil` in the code) and failed. Compact, Transaction and
--                Batch have decodeCompactU16, decodeMessage, decodeTransaction, decodeEntry, DecodeBatch
--                and DecodeConcatenated; Streaming has StreamingDecoder. The Wire modules write the
--                format down without reference to the decoder.
--   Galois       internal/galois/gf256.go: the tables that init fills and the operations.
--   Matrix       internal/galois/matrix.go, a matrix as a list of rows.
--   Fec          fec.go: the codes and the coding of slices. Reconstruct has Encode and the
--                reconstruction of lost shards, Cache the cache of codes.
--   Accumulator  accumulator.go. FecSet has fecSetBuffer and Recovery tryReconstruct. Slot has
--                slotAccumulator, its pending shreds, recordSig, completeBatch and release; Fill has
--                tryFecFill; Salvage has salvageContiguousRunsIn and the payloads of a batch; Streaming
--                has advanceStreaming, Flush tryFlushBatches, Harvest tryHarvestTail, and Push has
--                pushData and pushCode. Rules carries a property of the state through these calls, once
--                it is shown for the steps that change shreds, sets or the pool; Owned follows the
--                buffers of the pool, and Returns says when the calls return.
--   Listener     listener.go: the state, acceptSlot and newListener. Evict has the eviction of slots,
--                Packet has HandlePacket. Steps says which ways a datagram can take, and Owned, Counted,
--                Bound and Returns follow the buffers, the counters, the number of slots and the end of
--                the call along them; Run is a sequence of datagrams on a new listener. Receive has
--                recvOne and TransactionIter, where what the socket gives is a list of reads, and Totals
--                the totals over the slots that are gone and those that are live.
--   Tests        the theorems at concrete inputs, and runs of the functions.
--
-- Conventions. A byte is a natural number, and a theorem that needs it below 256 says so. A nil slice
-- and an empty one are both the empty list. Positions and lengths of slices are not bounded: they stay
-- far below 2 ^ 63. The one product that can pass 64 bits, of the entry count and 48, has its wrap-around
-- written out. A function that panics gives `none`. An error is a value without its text.
--
-- A map of Go is an association list, walked in its order, where Go may take any order; a set is the list
-- of its members. Handles that point to the pool are numbers of its buffers, and a call that may release
-- one takes the pool and returns it. The clock is read once for a call, and is an argument of it in
-- nanoseconds. Counters of 64 bits do not wrap around; decodeErrors and the indices of shreds, of 32 bits,
-- do. The mutex of the listener makes each HandlePacket atomic; recvOne, which gives it up while it reads,
-- is modelled for one caller.
--
-- Loops. A loop over a count runs by recursion on the rounds left. The loop of DecodeConcatenated has no
-- fuel: it runs by recursion on a proof that each round but the last leaves fewer bytes, which its tests
-- on the offset and on the position behind a batch give. The other loops have fuel, and give `none` when it
-- is used up before the code has returned: `none` stands for a call that does not return, and every call
-- that runs such a loop passes it on. advanceStreaming has a round for each pending shred and one more,
-- since each round but the last passes over one of them. tryFlushBatches has a round for each index from
-- the start of the batch and one more, and the loop over the indices of a batch has one for each and two
-- more; these give `none` where an index is 0xFFFFFFFF, as the uint32 of the loop wraps around there. Next
-- has a round for each read and one more, and gives `none` where it waits for a read that does not come.
--
-- Not modelled: the sockets, ShredIter, isRecoverableIOError, whose answer is a part of a read that fails,
-- and the accessors of listener.go that give one field; the system calls of tuning.go; the examples, which
-- print what the listener gives; the text of errors.
pub mod Prelude
pub mod Saturating
pub mod Variant
pub mod Parser
pub mod Pool
pub mod Options
pub mod Decoder
pub mod Galois
pub mod Matrix
pub mod Fec
pub mod Accumulator
pub mod Listener
pub mod Tests
