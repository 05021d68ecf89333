-- ===== src/Accumulator/Owned.antt =====
-- Which buffers of the pool are free, and which a pending shred holds.
pub mod Steps
use shredstream_sdk_go.Prelude.{
  ℕ, zero, suc, ◌+◌, ◌≡◌, refl, sym, ap, ◌∙◌, List, [], ◌∷◌, Bool, true, false, ◌&&◌, not, Option,
  none, some, inl, inr, Bool-cases, ltb, ◌==◌, if◌then◌else◌, Dict, lookup, has_key, erase, insert,
  arith,
}
use shredstream_sdk_go.Pool.{BufferPool, BufferHandle, release, give_back}
use shredstream_sdk_go.Accumulator.Slot.{
  PayloadSource, pool_payload, recovered_payload, release_handle, release_source, PendingShred,
  SlotState, release_below, release_all,
}

-- How often a number stands in a list.
abbrev pub count : ℕ → List ℕ → ℕ
count i [] = 0
count i (x ∷ xs) = (if x == i then 1 else 0) + count i xs

-- 1 if the handle holds the buffer `i`, and 0 otherwise.
abbrev pub uses : ℕ → BufferHandle → ℕ
uses i h = if h.pooled then (if h.idx == i then 1 else 0) else 0

abbrev pub uses_handle : ℕ → Option BufferHandle → ℕ
uses_handle i none = 0
uses_handle i (some h) = uses i h

abbrev pub uses_source : ℕ → PayloadSource → ℕ
uses_source i (pool_payload h) = uses_handle i h
uses_source i (recovered_payload bytes) = 0

-- How many of the pending shreds hold the buffer `i`.
abbrev pub held : ℕ → Dict PendingShred → ℕ
held i [] = 0
held i ((k, ps) ∷ d) = uses_source i ps.source + held i d

-- How often the buffer `i` is free or held.
abbrev pub owned : ℕ → SlotState → ℕ
owned i s = count i s.pool.freelist + held i s.acc.pending

pub count-release :
    (i : ℕ) (h : BufferHandle) (p : BufferPool)
    → count i (release h p).1.freelist ≡ uses i h + count i p.freelist
unfolding release give_back
count-release i h p = ground arith

pub count-release_handle :
    (i : ℕ) (h : Option BufferHandle) (p : BufferPool)
    → count i (release_handle h p).freelist ≡ uses_handle i h + count i p.freelist
unfolding release_handle
count-release_handle i none p = omega arith
count-release_handle i (some h) p = count-release i h p

pub count-release_source :
    (i : ℕ) (source : PayloadSource) (p : BufferPool)
    → count i (release_source source p).freelist ≡ uses_source i source + count i p.freelist
unfolding release_source
count-release_source i (pool_payload h) p = count-release_handle i h p
count-release_source i (recovered_payload bytes) p = omega arith

pub held-insert :
    (i k : ℕ) (ps : PendingShred) (d : Dict PendingShred)
    → has_key k d ≡ false
    → held i (insert k ps d) ≡ uses_source i ps.source + held i d
held-insert i k ps [] h = omega arith
held-insert i k ps ((j, v) ∷ d) h = ground (arith, held-insert i k ps d)

pub held-erase :
    (i k : ℕ) (ps : PendingShred) (d : Dict PendingShred)
    → lookup k d ≡ some ps
    → uses_source i ps.source + held i (erase k d) ≡ held i d
held-erase i k ps [] h = cc
held-erase i k ps ((j, v) ∷ d) h = ground (arith, held-erase i k ps d)

pub held-release_below :
    (i bound : ℕ) (d : Dict PendingShred) (p : BufferPool)
    → count i (release_below bound d p).0.freelist + held i (release_below bound d p).1
      ≡ count i p.freelist + held i d
unfolding release_below
held-release_below i bound [] p = omega arith
held-release_below i bound ((k, ps) ∷ d) p = elim (Bool-cases (ltb k bound)) [
  | inl below ↦
      let freed = count-release_source i ps.source p in
      let rest = held-release_below i bound d (release_source ps.source p) in rw below (omega arith)
  | inr above ↦ let rest = held-release_below i bound d p in rw above (omega arith)
]

pub count-release_all :
    (i : ℕ) (d : Dict PendingShred) (p : BufferPool)
    → count i (release_all d p).freelist ≡ held i d + count i p.freelist
unfolding release_all
count-release_all i [] p = omega arith
count-release_all i ((k, ps) ∷ d) p =
    let freed = count-release_source i ps.source p in
    let rest = count-release_all i d (release_source ps.source p) in omega arith
