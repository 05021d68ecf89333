-- ===== src/Listener/Receive/Queue.antt =====
-- The batches that evictions leave, on their way to the caller of Next.
use shredstream_sdk_go.Prelude.{
  ℕ, zero, suc, ◌≡◌, refl, List, [], ◌∷◌, true, false, Option, none, some, length, Gives,
  Gives-some,
}
use shredstream_sdk_go.Listener.{SlotBatch, Listener}
use shredstream_sdk_go.Listener.Receive.{
  ReadResult, recv_one, TransactionIter, Surroundings, next_loop, next, transactions,
}

-- What a loop over the iterator has seen: the slot and the transactions behind each Next that said so.
abbrev pub Collected : Type 0
Collected = List SlotBatch × List ReadResult × TransactionIter

abbrev pub put_first : SlotBatch → Collected → Collected
put_first b (bs, reads, it) = (b ∷ bs, reads, it)

-- `n` calls of Next at most; the loop ends where Next says so.
unfoldable pub collect_batches :
    ℕ → Surroundings → List ReadResult → TransactionIter → Option Collected
collect_batches zero env reads it = some ([], reads, it)
collect_batches (suc n) env reads it = elim (next env reads it) [
  | none ↦ none
  | some (it', left, false) ↦ some ([], left, it')
  | some (it', left, true) ↦ elim (collect_batches n env left it') [
    | none ↦ none
    | some rest ↦ some (put_first (record { slot = it'.slot; txs = it'.txs }) rest)
  ]
]

-- The iterator behind a Next that took `b` from the queue, with `rest` left in it.
abbrev took_queued : SlotBatch → List SlotBatch → TransactionIter → TransactionIter
took_queued b rest it = record it {
  listener = record it.listener { pending_batches = rest };
  slot = b.slot;
  txs = b.txs;
}

next-took_queued :
    (env : Surroundings) (reads : List ReadResult) (it : TransactionIter) (b : SlotBatch)
    (rest : List SlotBatch)
    → it.done ≡ false
    → env.cancelled (length reads) ≡ false
    → it.listener.pending_batches ≡ b ∷ rest
    → next env reads it ≡ some (took_queued b rest it, reads, true)
unfolding next next_loop recv_one
next-took_queued env reads it b rest open_iter live queue =
    rw open_iter (rw (live, next_loop) (rw queue refl))

-- The queue has been given in order, nothing has been read, and the listener is as it was without the queue.
abbrev pub Delivered : List SlotBatch → List ReadResult → TransactionIter → Collected → Type 0
Delivered queue reads it (bs, left, it') =
    (bs ≡ queue)
    × (left ≡ reads)
    × (it'.listener ≡ record it.listener { pending_batches = [] })
    × (it'.done ≡ false)

collect_batches-Delivered :
    (queue : List SlotBatch) (env : Surroundings) (reads : List ReadResult) (it : TransactionIter)
    → it.done ≡ false
    → env.cancelled (length reads) ≡ false
    → it.listener.pending_batches ≡ queue
    → Gives (Delivered queue reads it) (collect_batches (length queue) env reads it)
unfolding collect_batches
collect_batches-Delivered [] env reads it open_iter live queued =
    Gives-some _ ([], reads, it) (refl, refl, rw queued refl, open_iter)
collect_batches-Delivered (b ∷ rest) env reads it open_iter live queued =
    let it' = took_queued b rest it in
    let more = collect_batches-Delivered rest env reads it' open_iter live refl in
    let (same, left, l, open_still) = more.holds in
    rw (next-took_queued env reads it b rest open_iter live queued, collect_batches)
      (rw (more.returned, collect_batches)
        (Gives-some _ (put_first b more.result) (rw same refl, left, l, open_still)))

-- While the context is not cancelled, the first calls of Next on a new iterator give the batches that
-- evictions have queued, one for each call and in their order, before anything is read from the socket,
-- and change nothing of the listener but the queue.
pub transactions-Delivered :
    (env : Surroundings) (reads : List ReadResult) (l : Listener)
    → env.cancelled (length reads) ≡ false
    → Gives
        (Delivered l.pending_batches reads (transactions l))
        (collect_batches (length l.pending_batches) env reads (transactions l))
transactions-Delivered env reads l live =
    collect_batches-Delivered l.pending_batches env reads (transactions l) refl live refl
