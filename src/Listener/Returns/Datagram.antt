-- ===== src/Listener/Returns/Datagram.antt =====
-- HandlePacket returns, where no index is the largest.
use shredstream_sdk_go.Prelude.{
  ℕ, zero, suc, ◌+◌, ◌≡◌, ◌≤◌, ◌<◌, ◌⊎◌, refl, subst, List, [], ◌∷◌, ◌++◌, Option, none, some, inl,
  inr, Bool-cases, Option-cases, length, get_or, set, take, drop, min, lookup, arith, Gives,
  Gives-some, ◌>>=◌, >>=-Gives,
}
use shredstream_sdk_go.Saturating.{max_u32}
use shredstream_sdk_go.Pool.{BufferPool, BufferHandle, handle_bytes, buffer_size}
use shredstream_sdk_go.Parser
use shredstream_sdk_go.Parser.{
  Parsed, ShredKind, DataShred, CodeShred, data_shred, code_shred, parse_kind,
}
use shredstream_sdk_go.Accumulator.Slot.{new_slot_accumulator}
use shredstream_sdk_go.Accumulator.Push.{push_data, push_code}
use shredstream_sdk_go.Accumulator.Returns.Safe.{IsSafe, IsSafeState}
use shredstream_sdk_go.Accumulator.Returns.Calls.{push_data-Gives}
use shredstream_sdk_go.Accumulator.Returns.Coded.{push_code-Gives}
use shredstream_sdk_go.Listener.{Listener, accept_slot, is_refused, is_seen, bump_slot_range}
use shredstream_sdk_go.Listener.Packet.{
  Answer, acquire_buffer_with_fallback, fill_buffer, give_up, find_or_new, move_to_slot, put_slot,
  answer, data_push, code_push, count_data_shred, count_code_shred, count_known, push_to_slot_data,
  push_to_slot_code, handle_data, handle_code, handle_packet_parsed, handle_packet_owned,
  fill_acquired, handle_packet,
}
use shredstream_sdk_go.Listener.Steps.{found_state}
use shredstream_sdk_go.Listener.Returns.{
  IsSafeListener, IsSafeAcquired, move_to_slot-Gives, acquire_buffer_with_fallback-Gives,
  AreSafe-insert, AreSafe-lookup,
}

find_or_new-IsSafe :
    (slot : ℕ) (l : Listener) → IsSafeListener l → IsSafe (find_or_new (lookup slot l.slots) l)
unfolding new_slot_accumulator
find_or_new-IsSafe slot l h = elim (Option-cases (lookup slot l.slots)) [
  | inl missing ↦
      rw missing record { pending = tt; boundaries = tt; sets = tt; started = omega arith }
  | inr (acc, found) ↦ rw found (AreSafe-lookup slot acc l.slots h found)
]

abbrev pub IsSafeHandled : Listener × Answer → Type 0
IsSafeHandled (l, a) = IsSafeListener l

push_to_slot_data-Gives :
    (now : ℕ) (b : BufferHandle) (d : DataShred) (l : Listener)
    → d.index < max_u32
    → IsSafeListener l
    → Gives IsSafeHandled (push_to_slot_data now b d l)
unfolding push_to_slot_data
push_to_slot_data-Gives now b d l low h =
    >>=-Gives IsSafeState IsSafeHandled (push_data now (data_push b d) (found_state d.slot l)) _
      (push_data-Gives now (data_push b d) (found_state d.slot l) low
        (find_or_new-IsSafe d.slot l h))
      (λ s safe.
        Gives-some IsSafeHandled (put_slot d.slot s l, answer d.slot s.out)
          (AreSafe-insert d.slot s.acc l.slots safe h))

push_to_slot_code-Gives :
    (now : ℕ) (b : BufferHandle) (c : CodeShred) (l : Listener)
    → c.fec_set_index + c.num_data_shreds ≤ max_u32
    → IsSafeListener l
    → Gives IsSafeHandled (push_to_slot_code now b c l)
unfolding push_to_slot_code
push_to_slot_code-Gives now b c l low h =
    >>=-Gives IsSafeState IsSafeHandled (push_code now (code_push c) (found_state c.slot l)) _
      (push_code-Gives now (code_push c) (found_state c.slot l) low (find_or_new-IsSafe c.slot l h))
      (λ s safe. Gives-some IsSafeHandled _ (AreSafe-insert c.slot s.acc l.slots safe h))

give_up-Gives :
    (b : BufferHandle) (l : Listener) → IsSafeListener l → Gives IsSafeHandled (give_up b l)
give_up-Gives b l h = Gives-some IsSafeHandled _ h

handle_data-Gives :
    (now : ℕ) (b : BufferHandle) (d : DataShred) (l : Listener)
    → d.index < max_u32
    → IsSafeListener l
    → Gives IsSafeHandled (handle_data now b d l)
unfolding handle_data accept_slot
handle_data-Gives now b d l low h = elim (Bool-cases (is_refused d.slot l)) [
  | inl out ↦ rw out (give_up-Gives b (bump_slot_range l) h)
  | inr accepted ↦ elim (Bool-cases (is_seen d.slot l.recently_seen_slots)) [
    | inl seen ↦ rw accepted (rw seen (give_up-Gives b (count_known l) h))
    | inr fresh ↦ rw accepted (
        rw fresh (
          >>=-Gives IsSafeListener IsSafeHandled (move_to_slot now d.slot (count_data_shred l)) _
            (move_to_slot-Gives now d.slot (count_data_shred l) h)
            (λ m safe. push_to_slot_data-Gives now b d m low safe)))
  ]
]

handle_code-Gives :
    (now : ℕ) (b : BufferHandle) (c : CodeShred) (l : Listener)
    → c.fec_set_index + c.num_data_shreds ≤ max_u32
    → IsSafeListener l
    → Gives IsSafeHandled (handle_code now b c l)
unfolding handle_code accept_slot
handle_code-Gives now b c l low h = elim (Bool-cases (is_refused c.slot l)) [
  | inl out ↦ rw out (give_up-Gives b (bump_slot_range l) h)
  | inr accepted ↦ elim (Bool-cases (is_seen c.slot l.recently_seen_slots)) [
    | inl seen ↦ rw accepted (rw seen (give_up-Gives b (count_known l) h))
    | inr fresh ↦ elim (Bool-cases l.enable_fec) [
      | inr off ↦ rw accepted (rw fresh (rw off (Gives-some IsSafeHandled _ h)))
      | inl on ↦
          let pushed =
            >>=-Gives IsSafeListener IsSafeHandled (move_to_slot now c.slot (count_code_shred l))
              (push_to_slot_code now b c) (move_to_slot-Gives now c.slot (count_code_shred l) h)
              (λ m safe. push_to_slot_code-Gives now b c m low safe) in
          let same : (move_to_slot now c.slot (count_code_shred l) >>= push_to_slot_code now b c)
              ≡ handle_code now b c l =
            rw accepted (rw fresh (rw on refl)) in
          subst (Gives IsSafeHandled) same pushed
    ]
  ]
]

-- A datagram that cannot bring in the largest index.
abbrev pub IsHarmlessKind : Parsed ShredKind → Type 0
IsHarmlessKind (Parser.err e) = Unit
IsHarmlessKind (Parser.ok (data_shred d)) = d.index < max_u32
IsHarmlessKind (Parser.ok (code_shred c)) = c.fec_set_index + c.num_data_shreds ≤ max_u32

-- What the listener reads of the datagram.
abbrev pub IsHarmless : List ℕ → Type 0
IsHarmless raw = IsHarmlessKind (parse_kind (take buffer_size raw))

handle_packet_parsed-Gives :
    (now : ℕ) (b : BufferHandle) (r : Parsed ShredKind) (l : Listener)
    → IsHarmlessKind r
    → IsSafeListener l
    → Gives IsSafeHandled (handle_packet_parsed now b r l)
handle_packet_parsed-Gives now b (Parser.err e) l low h = give_up-Gives b _ h
handle_packet_parsed-Gives now b (Parser.ok (data_shred d)) l low h =
    handle_data-Gives now b d l low h
handle_packet_parsed-Gives now b (Parser.ok (code_shred c)) l low h =
    handle_code-Gives now b c l low h

-- The bytes that a handle reads back of what was copied to its buffer.
take_copied : (n : ℕ) (raw old : List ℕ) → n ≤ length raw → take n (take n raw ++ old) ≡ take n raw
take_copied zero raw old h = refl
take_copied (suc n) [] old h = absurd (omega arith)
take_copied (suc n) (x ∷ raw) old h = rw (take_copied n raw old (omega arith))

take-min : (n : ℕ) (raw : List ℕ) → take (min (length raw) n) raw ≡ take n raw
take-min zero raw = let none_left : min (length raw) 0 ≡ 0 = omega arith in rw none_left
take-min (suc n) [] = let none_left : min 0 (suc n) ≡ 0 = omega arith in rw none_left
take-min (suc n) (x ∷ raw) =
    let more : min (suc (length raw)) (suc n) ≡ suc (min (length raw) n) = omega arith in
    rw more (rw (take-min n raw))

take_empty : (n : ℕ) → take {A = ℕ} n [] ≡ []
take_empty zero = refl
take_empty (suc n) = refl

set_cases :
    (bufs : List (List ℕ)) (i : ℕ) (v : List ℕ)
    → (get_or (set bufs i v) i [] ≡ v) ⊎ (get_or (set bufs i v) i [] ≡ [])
set_cases [] i v = inr refl
set_cases (b ∷ bufs) zero v = inl refl
set_cases (b ∷ bufs) (suc i) v = set_cases bufs i v

-- A buffer that is not in the pool reads as nothing.
filled_bytes :
    (b : BufferHandle) (raw : List ℕ) (p : BufferPool)
    → IsHarmless raw
    → IsHarmlessKind (parse_kind (handle_bytes (fill_buffer b raw p).1 (fill_buffer b raw p).0))
unfolding fill_buffer handle_bytes parse_kind
filled_bytes b raw p h =
    let n = min (length raw) buffer_size in
    elim (set_cases p.buffers b.idx (take n raw ++ drop n (get_or p.buffers b.idx []))) [
      | inl copied ↦ rw copied (
          rw (take_copied n raw (drop n (get_or p.buffers b.idx [])) (omega arith))
            (rw (take-min buffer_size raw) h))
      | inr outside ↦ rw outside (rw (take_empty n) tt)
    ]

fill_acquired-Gives :
    (now : ℕ) (raw : List ℕ)
    → IsHarmless raw
    → (r : Listener × Option BufferHandle) → IsSafeAcquired r
    → Gives IsSafeHandled (fill_acquired now raw r)
unfolding handle_packet_owned
fill_acquired-Gives now raw low (l, none) h = Gives-some IsSafeHandled (l, none) h
fill_acquired-Gives now raw low (l, some b) h =
    let (b', p) = fill_buffer b raw l.pool in
    handle_packet_parsed-Gives now b' (parse_kind (handle_bytes p b')) _
      (filled_bytes b raw l.pool low) h

-- Where no slot has the index 0xFFFFFFFF, HandlePacket returns, its loops included, for each datagram
-- that is no data shred of this index and no coding shred of a set that reaches it, and no slot has it
-- then.
pub handle_packet-Gives :
    (now : ℕ) (raw : List ℕ) (l : Listener)
    → IsHarmless raw
    → IsSafeListener l
    → Gives IsSafeHandled (handle_packet now raw l)
unfolding handle_packet handle_packet_owned
handle_packet-Gives now raw l low h =
    >>=-Gives IsSafeAcquired IsSafeHandled (acquire_buffer_with_fallback now l)
      (fill_acquired now raw) (acquire_buffer_with_fallback-Gives now l h)
      (fill_acquired-Gives now raw low)
