-- ===== src/Listener/Steps/Eviction.antt =====
-- Rules for what evictions and acquisitions keep.
use shredstream_sdk_go.Prelude.{
  ℕ, ◌≡◌, refl, subst, List, [], ◌∷◌, Option, none, some, inl, inr, Bool-cases, Option-cases, ltb,
  lookup, arith,
}
use shredstream_sdk_go.Pool.{BufferPool, BufferHandle, acquire}
use shredstream_sdk_go.Accumulator.Slot.{SlotAccumulator}
use shredstream_sdk_go.Listener.{Listener}
use shredstream_sdk_go.Listener.Evict.{
  evict_slot, evict_found, evict_all, to_evict, forget_old, evict_old_slots, oldest_slot,
  force_evict, force_evict_oldest_slot,
}
use shredstream_sdk_go.Listener.Packet.{
  try_acquire, count_exhausted, acquire_buffer_with_fallback, move_to_slot,
}

-- A property that the eviction of a slot keeps.
pub record IsKept (Q : Listener → Type 0) : Type 0 where
  pub evict :
      (now slot : ℕ) (acc : SlotAccumulator) (l l' : Listener)
      → lookup slot l.slots ≡ some acc
      → evict_slot now slot acc l ≡ some l'
      → Q l
      → Q l'
  pub forget : (l : Listener) → Q l → Q (forget_old l)

module _ (Q : Listener → Type 0) (kept : IsKept Q) where
  evict_found-kept :
      (now slot : ℕ) (o : Option SlotAccumulator) (l l' : Listener)
      → lookup slot l.slots ≡ o
      → evict_found now slot o l ≡ some l'
      → Q l
      → Q l'
  evict_found-kept now slot none l l' found e q = let same : l ≡ l' = ground arith in subst Q same q
  evict_found-kept now slot (some acc) l l' found e q = kept.evict now slot acc l l' found e q

  evict_all-kept :
      (now : ℕ) (slots : List ℕ) (l l' : Listener) → evict_all now slots l ≡ some l' → Q l → Q l'
  unfolding evict_all
  evict_all-kept now [] l l' e q = let same : l ≡ l' = ground arith in subst Q same q
  evict_all-kept now (slot ∷ slots) l l' e q =
      elim (Option-cases (evict_found now slot (lookup slot l.slots) l)) [
        | inl endless ↦ absurd (ground arith)
        | inr (m, first) ↦
            let rest : evict_all now slots m ≡ some l' = ground arith in
            evict_all-kept now slots m l' rest
              (evict_found-kept now slot (lookup slot l.slots) l m refl first q)
      ]

  pub evict_old_slots-kept :
      (now : ℕ) (l l' : Listener) → evict_old_slots now l ≡ some l' → Q l → Q l'
  unfolding evict_old_slots
  evict_old_slots-kept now l l' e q =
      elim (Option-cases (evict_all now (to_evict l.last_slot l.max_age l.slots) l)) [
        | inl endless ↦ absurd (ground arith)
        | inr (m, all) ↦
            let same : forget_old m ≡ l' = ground arith in
            subst Q same (
              kept.forget m (evict_all-kept now (to_evict l.last_slot l.max_age l.slots) l m all q))
      ]

  force_evict-kept :
      (now : ℕ) (o : Option ℕ) (l l' : Listener) → force_evict now o l ≡ some l' → Q l → Q l'
  force_evict-kept now none l l' e q = let same : l ≡ l' = ground arith in subst Q same q
  force_evict-kept now (some slot) l l' e q =
      evict_found-kept now slot (lookup slot l.slots) l l' refl e q

  pub move_to_slot-kept :
      (now slot : ℕ) (l l' : Listener)
      → move_to_slot now slot l ≡ some l'
      → Q l
      → Q (record l { last_slot = slot })
      → Q l'
  unfolding move_to_slot
  move_to_slot-kept now slot l l' e q moved = elim (Bool-cases (ltb l.last_slot slot)) [
    | inl ahead ↦ evict_old_slots-kept now (record l { last_slot = slot }) l' (ground arith) moved
    | inr behind ↦ let same : l ≡ l' = ground arith in subst Q same q
  ]

  -- What an acquisition leaves: a state with the property, less the buffer that was taken from its pool,
  -- or with one more exhaustion counted.
  abbrev pub Acquired : Listener → Option BufferHandle → Type 0
  Acquired l' none = (m : Listener) × Q m × (l' ≡ count_exhausted m)
  Acquired l' (some h) =
      (m : Listener) × (p : BufferPool) × Q m
      × (acquire m.pool ≡ (some h, p))
      × (l' ≡ record m { pool = p })

  -- The first attempt, and the rest where it fails.
  attempt :
      (r : Option BufferHandle × BufferPool) (l l' : Listener) (o : Option BufferHandle)
      (rest : Option (Listener × Option BufferHandle))
      → acquire l.pool ≡ r
      → try_acquire r l rest ≡ some (l', o)
      → Q l
      → (rest ≡ some (l', o) → Acquired l' o)
      → Acquired l' o
  attempt (some h, p) l l' none rest got e q more = absurd (ground arith)
  attempt (some h, p) l l' (some k) rest got e q more = (l, p, q, ground (arith, got), ground arith)
  attempt (none, p) l l' o rest got e q more = more e

  exhausted :
      (m l' : Listener) (o : Option BufferHandle)
      → ◌≡◌ {A = Option (Listener × Option BufferHandle)}
          (some (count_exhausted m, none))
          (some (l', o))
      → Q m
      → Acquired l' o
  exhausted m l' none e q = (m, q, ground arith)
  exhausted m l' (some h) e q = absurd (ground arith)

  pub acquire_buffer_with_fallback-Acquired :
      (now : ℕ) (l l' : Listener) (o : Option BufferHandle)
      → acquire_buffer_with_fallback now l ≡ some (l', o)
      → Q l
      → Acquired l' o
  unfolding acquire_buffer_with_fallback force_evict_oldest_slot
  acquire_buffer_with_fallback-Acquired now l l' o e q =
      attempt (acquire l.pool) l l' o _ refl e q (λ e'.
        elim (Option-cases (evict_old_slots now l)) [
          | inl endless ↦ absurd (ground arith)
          | inr (m, old) ↦
              let q' = evict_old_slots-kept now l m old q in
              attempt (acquire m.pool) m l' o _ refl (rw old at e') q' (λ e''.
                elim (Option-cases (force_evict now (oldest_slot m.slots) m)) [
                  | inl endless ↦ absurd (ground arith)
                  | inr (n, forced) ↦
                      let q'' = force_evict-kept now (oldest_slot m.slots) m n forced q' in
                      attempt (acquire n.pool) n l' o _ refl (rw forced at e'') q''
                        (λ e'''. exhausted n l' o e''' q'')
                ])
        ])
