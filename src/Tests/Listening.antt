-- ===== src/Tests/Listening.antt =====
-- The listener on concrete datagrams, with its theorems.
use shredstream_sdk_go.Prelude.{
  ℕ, ◌+◌, ◌≡◌, refl, List, [], ◌∷◌, true, false, none, some, replicate, arith, Gives, take,
  le_bytes,
}
use shredstream_sdk_go.Prelude.Int.{pos}
use shredstream_sdk_go.Options.{
  ListenerOptions, default_listener_options, default_accumulator_config,
}
use shredstream_sdk_go.Pool.{new_buffer_pool, indices, acquire, release, give_back, handle_bytes}
use shredstream_sdk_go.Parser.{parse_kind, ok, data_shred}
use shredstream_sdk_go.Variant.Laws.{variant_byte}
use shredstream_sdk_go.Parser.Header.{Fields, IsFields, end_of_batch, shred_bytes, shred_of}
use shredstream_sdk_go.Parser.RoundTrip.{parse_kind-shred_bytes}
use shredstream_sdk_go.Tests.Parsing.{fields}
use shredstream_sdk_go.Fec.Cache.{new_reed_solomon_cache}
use shredstream_sdk_go.Listener.{Listener, new_listener, no_counters}
use shredstream_sdk_go.Listener.Packet.{
  handle_packet, acquire_buffer_with_fallback, fill_buffer, handle_packet_owned,
}
use shredstream_sdk_go.Listener.Owned.{owned_all, handle_packet-owned_all}
use shredstream_sdk_go.Listener.Counted.{counted, handle_packet-counted}
use shredstream_sdk_go.Listener.Bound.{IsBounded, handle_packet-IsBounded}
use shredstream_sdk_go.Listener.Returns.{IsSafeListener}
use shredstream_sdk_go.Listener.Returns.Datagram.{IsHarmless, IsSafeHandled, handle_packet-Gives}
use shredstream_sdk_go.Listener.Receive.{read_error, Surroundings, transactions}
use shredstream_sdk_go.Listener.Receive.Queue.{collect_batches, Delivered, transactions-Delivered}
use shredstream_sdk_go.Accumulator.Slot.{SlotState, new_slot_accumulator}
use shredstream_sdk_go.Listener.Evict.{rollup_accumulator, finish_eviction}
use shredstream_sdk_go.Listener.Totals.{
  KeepsTotals, batches_skipped_total, live_total, finish_eviction-KeepsTotals,
}
use shredstream_sdk_go.Listener.Run.{
  AreHarmless, handle_packets, handle_packets_lem, handle_packets-Gives,
}

abbrev two_buffers : ListenerOptions
unfolding default_listener_options
two_buffers = record default_listener_options { pool_size = pos 2 }

-- A listener with the buffers, and what it has received.
abbrev listener_with : List (List ℕ) → ℕ → ℕ → Listener
unfolding default_listener_options default_accumulator_config new_reed_solomon_cache
listener_with buffers short_ones bytes = record {
  pool = record { freelist = 0 ∷ 1 ∷ []; buffers = buffers; capacity = 2 };
  slots = [];
  recently_seen_slots = [];
  pending_batches = [];
  max_age = 3;
  last_slot = 0;
  enable_fec = true;
  disable_salvage_delivery = false;
  accumulator_cfg = default_accumulator_config;
  rs_cache = new_reed_solomon_cache;
  counters = record no_counters { unparseable_too_short = short_ones; bytes_received = bytes };
}

abbrev fresh : Listener
fresh = listener_with (replicate 2 (replicate 2048 0)) 0 0

fresh_run : new_listener two_buffers ≡ some fresh
unfolding new_listener new_buffer_pool two_buffers listener_with default_listener_options indices
    default_accumulator_config
fresh_run = refl

abbrev short_datagrams : List (ℕ × List ℕ)
short_datagrams = (7, 1 ∷ 2 ∷ 3 ∷ []) ∷ (9, 4 ∷ []) ∷ []

-- Both go into the buffer 0, which is given back in between.
abbrev after_short : Listener
after_short = listener_with ((4 ∷ 2 ∷ 3 ∷ replicate 2045 0) ∷ replicate 2048 0 ∷ []) 2 4

short_run : handle_packets short_datagrams fresh ≡ some after_short
unfolding handle_packets short_datagrams fresh after_short listener_with handle_packet
    acquire_buffer_with_fallback acquire fill_buffer handle_packet_owned parse_kind handle_bytes
    release give_back default_listener_options default_accumulator_config
short_run = refl

handle_packets_lem_example :
    (owned_all 1 after_short ≡ 1) × IsBounded after_short × (counted after_short.counters ≡ 2)
unfolding listener_with
handle_packets_lem_example =
    handle_packets_lem two_buffers fresh after_short short_datagrams 1 fresh_run short_run
      (omega arith)

-- A data shred of the slot 300 that ends a batch at the index 40.
abbrev batch_fields : Fields
batch_fields = record fields { place = end_of_batch }

batch_fields-IsFields : IsFields batch_fields
batch_fields-IsFields = record {
  signature_fits = refl;
  proof_fits = omega arith;
  slot_fits = omega arith;
  index_fits = omega arith;
  version_fits = omega arith;
  set_before = omega arith;
  parent_fits = omega arith;
  payload_fits = omega arith;
}

abbrev shred_datagram : List ℕ
unfolding shred_bytes le_bytes variant_byte
shred_datagram = shred_bytes batch_fields

shred_parsed : parse_kind (take 2048 shred_datagram) ≡ ok (data_shred (shred_of batch_fields))
unfolding shred_datagram
shred_parsed = parse_kind-shred_bytes batch_fields batch_fields-IsFields

shred_datagram-IsHarmless : IsHarmless shred_datagram
unfolding shred_of
shred_datagram-IsHarmless = rw shred_parsed (omega arith)

fresh-IsSafeListener : IsSafeListener fresh
unfolding listener_with
fresh-IsSafeListener = tt

handle_packet-Gives_example : Gives IsSafeHandled (handle_packet 7 shred_datagram fresh)
handle_packet-Gives_example =
    handle_packet-Gives 7 shred_datagram fresh shred_datagram-IsHarmless fresh-IsSafeListener

mixed_datagrams-AreHarmless : AreHarmless ((7, shred_datagram) ∷ (9, 4 ∷ []) ∷ [])
unfolding parse_kind
mixed_datagrams-AreHarmless = (shred_datagram-IsHarmless, (tt, tt))

handle_packets-Gives_example :
    Gives
      (λ l'. (owned_all 1 l' ≡ 1) × IsBounded l' × (counted l'.counters ≡ 2))
      (handle_packets ((7, shred_datagram) ∷ (9, 4 ∷ []) ∷ []) fresh)
unfolding listener_with
handle_packets-Gives_example =
    handle_packets-Gives two_buffers fresh ((7, shred_datagram) ∷ (9, 4 ∷ []) ∷ []) 1 fresh_run
      mixed_datagrams-AreHarmless (omega arith)

abbrev after_one : Listener
after_one = listener_with ((1 ∷ 2 ∷ 3 ∷ replicate 2045 0) ∷ replicate 2048 0 ∷ []) 1 3

one_run : handle_packet 7 (1 ∷ 2 ∷ 3 ∷ []) fresh ≡ some (after_one, none)
unfolding after_one fresh listener_with handle_packet acquire_buffer_with_fallback acquire
    fill_buffer handle_packet_owned parse_kind handle_bytes release give_back
    default_listener_options default_accumulator_config
one_run = refl

handle_packet-owned_all_example : owned_all 1 after_one ≡ owned_all 1 fresh
handle_packet-owned_all_example =
    handle_packet-owned_all 1 7 (1 ∷ 2 ∷ 3 ∷ []) fresh after_one none one_run

handle_packet-IsBounded_example : IsBounded after_one
unfolding listener_with
handle_packet-IsBounded_example =
    handle_packet-IsBounded 7 (1 ∷ 2 ∷ 3 ∷ []) fresh after_one none (omega arith) one_run

handle_packet-counted_example : counted after_one.counters ≡ counted fresh.counters + 1
handle_packet-counted_example =
    handle_packet-counted 7 (1 ∷ 2 ∷ 3 ∷ []) fresh after_one none one_run

abbrev queued : Listener
queued = record fresh {
  pending_batches = record { slot = 8; txs = [] } ∷ record { slot = 6; txs = [] } ∷ [];
}

-- A socket that is never cancelled, at the time 7.
abbrev calm : Surroundings
calm = record { online = true; cancelled = λ n. false; clock = λ n. 7 }

transactions-Delivered_example :
    Gives
      (Delivered queued.pending_batches (read_error true ∷ []) (transactions queued))
      (collect_batches 2 calm (read_error true ∷ []) (transactions queued))
transactions-Delivered_example = transactions-Delivered calm (read_error true ∷ []) queued refl

-- The slot 300 has skipped three batches, and the harvest skips two more.
abbrev skipped : ℕ → SlotState
skipped n = record {
  acc = record (new_slot_accumulator default_accumulator_config) { batches_skipped = n };
  pool = fresh.pool;
  cache = new_reed_solomon_cache;
  out = [];
}

abbrev one_slot : Listener
one_slot = record fresh { slots = (300, (skipped 3).acc) ∷ [] }

skipped_run : batches_skipped_total (finish_eviction 300 0 (skipped 5) one_slot) ≡ 5
unfolding finish_eviction rollup_accumulator listener_with live_total new_slot_accumulator
skipped_run = refl

finish_eviction-KeepsTotals_example :
    KeepsTotals (skipped 3).acc (skipped 5) one_slot (finish_eviction 300 0 (skipped 5) one_slot)
finish_eviction-KeepsTotals_example =
    finish_eviction-KeepsTotals 300 0 (skipped 3).acc (skipped 5) one_slot refl
