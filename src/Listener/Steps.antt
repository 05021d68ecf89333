-- ===== src/Listener/Steps.antt =====
-- One datagram as a step of the listener: which way it takes through HandlePacket.
pub mod Eviction
use shredstream_sdk_go.Prelude.{
  ◌>>=◌, ℕ, ◌≡◌, refl, ◌∙◌, List, [], ◌∷◌, Bool, true, false, ◌&&◌, not, Option, none, some, inl,
  inr, Bool-cases, Option-cases, ltb, if◌then◌else◌, length, lookup, arith,
}
use shredstream_sdk_go.Pool.{BufferPool, BufferHandle, acquire, release, handle_bytes}
use shredstream_sdk_go.Parser
use shredstream_sdk_go.Parser.{
  Parsed, ParseError, ShredKind, DataShred, CodeShred, data_shred, code_shred, parse_kind,
}
use shredstream_sdk_go.Accumulator.Slot.{SlotAccumulator, SlotState}
use shredstream_sdk_go.Accumulator.Push.{push_data, push_code}
use shredstream_sdk_go.Listener.{
  Listener, is_refused, is_seen, accept_slot, bump_slot_range, bump_parse_error,
}
use shredstream_sdk_go.Listener.Evict.{slot_state}
use shredstream_sdk_go.Listener.Packet.{
  Answer, Handled, acquire_buffer_with_fallback, count_exhausted, fill_buffer, give_up, find_or_new,
  move_to_slot, put_slot, data_push, code_push, count_data_shred, count_code_shred, count_known,
  push_to_slot_data, push_to_slot_code, handle_data, handle_code, handle_packet_parsed,
  handle_packet_owned, count_bytes, fill_acquired, handle_packet,
}

-- The listener with the buffer of the handle back in its pool.
abbrev pub released : BufferHandle → Listener → Listener
released h l = record l { pool = (release h l.pool).1 }

-- What the pushes to a slot start from.
abbrev pub found_state : ℕ → Listener → SlotState
found_state slot l = slot_state (find_or_new (lookup slot l.slots) l) l

abbrev pub put_code : ℕ → BufferHandle → SlotState → Listener → Listener
put_code slot h s l = record (put_slot slot s l) { pool = (release h s.pool).1 }

-- The ways of a datagram in the buffer of the handle `h`.
pub data Taken (now : ℕ) (h : BufferHandle) (l l' : Listener) : Type 0 where
  unparsed :
      (e : ParseError)
      → l' ≡ released h (record l { counters = bump_parse_error e l.counters })
      → Taken now h l l'
  refused : l' ≡ released h (bump_slot_range l) → Taken now h l l'
  known : l' ≡ released h (count_known l) → Taken now h l l'
  disabled : l' ≡ released h (count_code_shred l) → Taken now h l l'
  pushed_data :
      (d : DataShred) (m : Listener) (s : SlotState)
      → is_refused d.slot l ≡ false
      → is_seen d.slot l.recently_seen_slots ≡ false
      → move_to_slot now d.slot (count_data_shred l) ≡ some m
      → push_data now (data_push h d) (found_state d.slot m) ≡ some s
      → l' ≡ put_slot d.slot s m
      → Taken now h l l'
  pushed_code :
      (c : CodeShred) (m : Listener) (s : SlotState)
      → is_refused c.slot l ≡ false
      → is_seen c.slot l.recently_seen_slots ≡ false
      → move_to_slot now c.slot (count_code_shred l) ≡ some m
      → push_code now (code_push c) (found_state c.slot m) ≡ some s
      → l' ≡ put_code c.slot h s m
      → Taken now h l l'

module _ (now : ℕ) (h : BufferHandle) (l l' : Listener) (a : Answer) where
  handle_data-Taken : (d : DataShred) → handle_data now h d l ≡ some (l', a) → Taken now h l l'
  unfolding handle_data push_to_slot_data accept_slot
  handle_data-Taken d e = elim (Bool-cases (is_refused d.slot l)) [
    | inl out ↦ refused (ground arith)
    | inr accepted ↦ elim (Bool-cases (is_seen d.slot l.recently_seen_slots)) [
      | inl seen ↦ known (ground arith)
      | inr fresh ↦ elim (Option-cases (move_to_slot now d.slot (count_data_shred l))) [
        | inl endless ↦ absurd (ground arith)
        | inr (m, moved) ↦
            elim (Option-cases (push_data now (data_push h d) (found_state d.slot m))) [
              | inl endless ↦ absurd (ground arith)
              | inr (s, pushed) ↦ pushed_data d m s accepted fresh moved pushed (ground arith)
            ]
      ]
    ]
  ]

  handle_code-Taken : (c : CodeShred) → handle_code now h c l ≡ some (l', a) → Taken now h l l'
  unfolding handle_code push_to_slot_code accept_slot
  handle_code-Taken c e = elim (Bool-cases (is_refused c.slot l)) [
    | inl out ↦ refused (ground arith)
    | inr accepted ↦ elim (Bool-cases (is_seen c.slot l.recently_seen_slots)) [
      | inl seen ↦ known (ground arith)
      | inr fresh ↦ elim (Bool-cases l.enable_fec) [
        | inr off ↦ disabled (ground arith)
        | inl on ↦ elim (Option-cases (move_to_slot now c.slot (count_code_shred l))) [
          | inl endless ↦ absurd (ground arith)
          | inr (m, moved) ↦
              elim (Option-cases (push_code now (code_push c) (found_state c.slot m))) [
                | inl endless ↦ absurd (ground arith)
                | inr (s, pushed) ↦ pushed_code c m s accepted fresh moved pushed (ground arith)
              ]
        ]
      ]
    ]
  ]

  pub handle_packet_parsed-Taken :
      (r : Parsed ShredKind) → handle_packet_parsed now h r l ≡ some (l', a) → Taken now h l l'
  handle_packet_parsed-Taken (Parser.err x) e = unparsed x (ground arith)
  handle_packet_parsed-Taken (Parser.ok (data_shred d)) e = handle_data-Taken d e
  handle_packet_parsed-Taken (Parser.ok (code_shred c)) e = handle_code-Taken c e

-- A datagram of a full buffer, behind the acquisition that left `l`: its buffer is filled.
abbrev pub filled : BufferHandle → List ℕ → Listener → Listener
filled h raw l =
    count_bytes (fill_buffer h raw l.pool).0.buf_length
      (record l { pool = (fill_buffer h raw l.pool).1 })

-- What HandlePacket does, by the acquisition of its buffer.
pub data Stepped (now : ℕ) (raw : List ℕ) (l l' : Listener) : Type 0 where
  starved : acquire_buffer_with_fallback now l ≡ some (l', none) → Stepped now raw l l'
  took :
      (h : BufferHandle) (m : Listener)
      → acquire_buffer_with_fallback now l ≡ some (m, some h)
      → Taken now (fill_buffer h raw m.pool).0 (filled h raw m) l'
      → Stepped now raw l l'

pub handle_packet-Stepped :
    (now : ℕ) (raw : List ℕ) (l l' : Listener) (a : Answer)
    → handle_packet now raw l ≡ some (l', a)
    → Stepped now raw l l'
unfolding handle_packet handle_packet_owned
handle_packet-Stepped now raw l l' a e = elim (Option-cases (acquire_buffer_with_fallback now l)) [
  | inl endless ↦ absurd (ground arith)
  | inr ((m, none), got) ↦ let same : m ≡ l' = ground arith in starved (rw same at got)
  | inr ((m, some h), got) ↦
      let (h', p) = fill_buffer h raw m.pool in
      let n = record m { pool = p } in
      let rest : handle_packet_parsed now h' (parse_kind (handle_bytes p h')) (filled h raw m)
          ≡ some (l', a) =
        ground arith in
      took h m got (
        handle_packet_parsed-Taken now h' (filled h raw m) l' a (parse_kind (handle_bytes p h'))
          rest)
]
