-- ===== src/Listener/Run.antt =====
-- A listener over a sequence of datagrams.
use shredstream_sdk_go.Prelude.{
  ℕ, zero, suc, ◌+◌, ◌≡◌, ◌<◌, ◌≤◌, refl, sym, subst, ap, ◌∙◌, List, [], ◌∷◌, Option, none, some,
  inl, inr, Bool-cases, Option-cases, ◌==◌, length, arith, Gives, gives,
}
use shredstream_sdk_go.Prelude.Int.{ℤ, pos, negsuc}
use shredstream_sdk_go.Options.{ListenerOptions}
use shredstream_sdk_go.Pool.{BufferPool, new_buffer_pool, indices}
use shredstream_sdk_go.Listener.{Listener, pool_of, new_listener}
use shredstream_sdk_go.Listener.Packet.{handle_packet}
use shredstream_sdk_go.Listener.Owned.{owned_all, handle_packet-owned_all}
use shredstream_sdk_go.Listener.Bound.{IsBounded, handle_packet-IsBounded}
use shredstream_sdk_go.Listener.Counted.{counted, handle_packet-counted}
use shredstream_sdk_go.Listener.Returns.{IsSafeListener}
use shredstream_sdk_go.Listener.Returns.Datagram.{IsHarmless, handle_packet-Gives}
use shredstream_sdk_go.Accumulator.Owned.{count}

-- HandlePacket on one datagram after the other, each with the time of its call. `none` is a call that
-- does not return.
unfoldable pub handle_packets : List (ℕ × List ℕ) → Listener → Option Listener
handle_packets [] l = some l
handle_packets ((now, raw) ∷ packets) l = elim (handle_packet now raw l) [
  | none ↦ none
  | some (l', a) ↦ handle_packets packets l'
]

-- Each buffer `i` is free or held as often as at the start, the slots stay bounded, and each datagram is
-- counted.
Runs : ℕ → List (ℕ × List ℕ) → Listener → Listener → Type 0
Runs i packets l l' =
    (owned_all i l' ≡ owned_all i l)
    × (IsBounded l → IsBounded l')
    × (counted l'.counters ≡ counted l.counters + length packets)

handle_packets-Runs :
    (i : ℕ) (packets : List (ℕ × List ℕ)) (l l' : Listener)
    → handle_packets packets l ≡ some l'
    → Runs i packets l l'
unfolding handle_packets Runs
handle_packets-Runs i [] l l' e =
    let same : l ≡ l' = ground arith in
    subst (λ (m : Listener). Runs i [] l m) same (refl, λ b. b, omega arith)
handle_packets-Runs i ((now, raw) ∷ packets) l l' e =
    elim (Option-cases (handle_packet now raw l)) [
      | inl endless ↦ absurd (ground arith)
      | inr ((m, a), handled) ↦
          let rest : handle_packets packets m ≡ some l' = ground arith in
          let (owned, bounded, all) = handle_packets-Runs i packets m l' rest in
          let first = handle_packet-counted now raw l m a handled in
          (
            owned ∙ handle_packet-owned_all i now raw l m a handled,
            λ b. bounded (handle_packet-IsBounded now raw l m a b handled),
            omega arith,
          )
    ]

count-indices_below : (n i from : ℕ) → i < from → count i (indices n from) ≡ 0
unfolding indices
count-indices_below zero i from h = refl
count-indices_below (suc n) i from h =
    let rest = count-indices_below n i (suc from) (omega arith) in ground arith

count-indices : (n i from : ℕ) → from ≤ i → i < n + from → count i (indices n from) ≡ 1
unfolding indices
count-indices zero i from h k = absurd (omega arith)
count-indices (suc n) i from h k = elim (Bool-cases (from == i)) [
  | inl here ↦ let rest = count-indices_below n i (suc from) (ground arith) in ground arith
  | inr later ↦ let rest = count-indices n i (suc from) (ground arith) (omega arith) in ground arith
]

pool_of-freelist :
    (size : ℤ) (p : BufferPool) → pool_of size ≡ some p → p.freelist ≡ indices p.capacity 0
unfolding new_buffer_pool
pool_of-freelist (pos n) p e = ground arith
pool_of-freelist (negsuc n) p e = cc

-- A new listener: every buffer is free, once, and nothing is counted.
new_listener-owned_all :
    (opts : ListenerOptions) (l : Listener) (i : ℕ)
    → new_listener opts ≡ some l
    → i < l.pool.capacity
    → (owned_all i l ≡ 1) × (l.slots ≡ []) × (counted l.counters ≡ 0)
unfolding new_listener
new_listener-owned_all opts l i e h = elim (Option-cases (pool_of opts.pool_size)) [
  | inl panics ↦ absurd (ground arith)
  | inr (p, made) ↦
      let pool : p ≡ l.pool = ground arith in
      let free = pool_of-freelist opts.pool_size p made in
      let low : i < p.capacity = ground arith in
      let once = count-indices p.capacity i 0 (omega arith) (omega arith) in
      let free_once : count i p.freelist ≡ 1 = ap (count i) free ∙ once in
      (ground arith, ground arith, ground arith)
]

-- Behind any sequence of datagrams, of any bytes, that is handled to its end on a new listener each
-- buffer of the pool is either free or held by one pending shred of one slot, at most 64 slots are live,
-- and the eight counters of received datagrams add up to the number of datagrams.
pub handle_packets_lem :
    (opts : ListenerOptions) (l l' : Listener) (packets : List (ℕ × List ℕ)) (i : ℕ)
    → new_listener opts ≡ some l
    → handle_packets packets l ≡ some l'
    → i < l.pool.capacity
    → (owned_all i l' ≡ 1) × IsBounded l' × (counted l'.counters ≡ length packets)
unfolding Runs
handle_packets_lem opts l l' packets i made ran h =
    let (once, empty, zero_count) = new_listener-owned_all opts l i made h in
    let (owned, bounded, all) = handle_packets-Runs i packets l l' ran in
    let no_slots : IsBounded l = rw empty (omega arith) in
    (owned ∙ once, bounded no_slots, omega arith)

-- No datagram can bring in the largest index.
abbrev pub AreHarmless : List (ℕ × List ℕ) → Type 0
AreHarmless [] = Unit
AreHarmless ((now, raw) ∷ packets) = IsHarmless raw × AreHarmless packets

handle_packets_there :
    (packets : List (ℕ × List ℕ)) (l : Listener)
    → AreHarmless packets
    → IsSafeListener l
    → ¬ (handle_packets packets l ≡ none)
unfolding handle_packets
handle_packets_there [] l low safe e = absurd (ground arith)
handle_packets_there ((now, raw) ∷ packets) l (first, low) safe e =
    let handled = handle_packet-Gives now raw l first safe in
    handle_packets_there packets handled.result.0 low handled.holds
      (sym (rw (handled.returned, handle_packets) refl) ∙ e)

new_listener-slots :
    (opts : ListenerOptions) (l : Listener) → new_listener opts ≡ some l → l.slots ≡ []
unfolding new_listener
new_listener-slots opts l e = elim (Option-cases (pool_of opts.pool_size)) [
  | inl panics ↦ absurd (ground arith)
  | inr (p, made) ↦ ground arith
]

-- On a new listener every sequence of datagrams is handled to its end, if none of them is a data shred of
-- the index 0xFFFFFFFF or a coding shred of a set that reaches it. Then each buffer of the pool is either
-- free or held by one pending shred of one slot, at most 64 slots are live, and the counters of received
-- datagrams add up to the number of datagrams.
pub handle_packets-Gives :
    (opts : ListenerOptions) (l : Listener) (packets : List (ℕ × List ℕ)) (i : ℕ)
    → new_listener opts ≡ some l
    → AreHarmless packets
    → i < l.pool.capacity
    → Gives
        (λ l'. (owned_all i l' ≡ 1) × IsBounded l' × (counted l'.counters ≡ length packets))
        (handle_packets packets l)
handle_packets-Gives opts l packets i made low h =
    let no_slots = new_listener-slots opts l made in
    gives _ (handle_packets packets l) (handle_packets_there packets l low (rw no_slots tt))
      (λ l' ran. handle_packets_lem opts l l' packets i made ran h)
