-- ===== src/Pool/Ownership.antt =====
-- No buffer is lost, made up, or held twice, whatever the callers do.
use mathlib.Core.List.{Perm, perm_middle, Nodup, Nodup-nil, Nodup-cons, Mem, mem-cons, not-mem-nil}
use mathlib.Core.Logic.Or
use mathlib.Core.List.Perm
use shredstream_sdk_go.Prelude.{
  ℕ, zero, suc, ◌<◌, ◌≡◌, refl, sym, ap, subst, ◌∙◌, List, [], ◌∷◌, ◌++◌, true, false, Option, none,
  some, arith, Bool-cases, inl, inr, if◌then◌else◌, get_elem?, set, append-nil,
}
use shredstream_sdk_go.Pool.{
  BufferPool, BufferHandle, indices, new_buffer_pool, acquire, give_back, release, World, Call,
  acquires, releases, release_held, put_handle, step, run,
}

-- The buffers of the handles that have not been released.
abbrev pub held : List BufferHandle → List ℕ
held [] = []
held (h ∷ hs) = if h.pooled then h.idx ∷ held hs else held hs

held-released :
    (hs : List BufferHandle) (i : ℕ) (h : BufferHandle)
    → get_elem? hs i ≡ some h
    → h.pooled ≡ true
    → Perm (held hs) (h.idx ∷ held (set hs i (record h { pooled = false })))
held-released [] i h e p = cc
held-released (x ∷ xs) zero h e p = ground (arith, Perm.refl (h.idx ∷ held xs))
held-released (x ∷ xs) (suc i) h e p =
    let rest = held-released xs i h e p in
    ground (arith, rest, Perm.trans (Perm.cons x.idx rest) (Perm.swap h.idx x.idx _))

-- All buffers: the free ones and the held ones.
abbrev pub owned : World → List ℕ
owned w = w.pool.freelist ++ held w.handles

owned-acquire :
    (p : BufferPool) (hs : List BufferHandle) (free : List ℕ)
    → p.freelist ≡ free
    → Perm (owned (step (record { pool = p; handles = hs }) acquires)) (p.freelist ++ held hs)
unfolding step acquire
owned-acquire p hs [] e = ground (arith, Perm.refl (p.freelist ++ held hs))
owned-acquire p hs (idx ∷ rest) e = ground (arith, perm_middle {a = idx} rest (held hs))

set-get_elem? :
    (hs : List BufferHandle) (i : ℕ) (h : BufferHandle) → get_elem? hs i ≡ some h → set hs i h ≡ hs
set-get_elem? [] i h e = refl
set-get_elem? (x ∷ xs) zero h e = cc
set-get_elem? (x ∷ xs) (suc i) h e = ap (◌∷◌ x) (set-get_elem? xs i h e)

put-released :
    (w : World) (i : ℕ) (h : BufferHandle)
    → get_elem? w.handles i ≡ some h
    → Perm (owned (put_handle w i (release h w.pool))) (owned w)
unfolding release give_back
put-released w i h e = elim (Bool-cases h.pooled) [
  | inr done ↦ ground (arith, set-get_elem? w.handles i h e, Perm.refl (owned w))
  | inl live ↦
      let free = w.pool.freelist in
      let rest = held (set w.handles i (record h { pooled = false })) in
      let moved : Perm (h.idx ∷ (free ++ rest)) (free ++ held w.handles) =
        Perm.trans (Perm.symm (perm_middle free rest))
          (Perm.append_left free (Perm.symm (held-released w.handles i h e live))) in
      ground (arith, moved)
]

owned-release :
    (w : World) (i : ℕ) (o : Option BufferHandle)
    → get_elem? w.handles i ≡ o
    → Perm (owned (release_held w i o)) (owned w)
owned-release w i none e = Perm.refl (owned w)
owned-release w i (some h) e = put-released w i h e

pub owned-step : (w : World) (c : Call) → Perm (owned (step w c)) (owned w)
owned-step w acquires = owned-acquire w.pool w.handles w.pool.freelist refl
owned-step w (releases i) = unfold step in owned-release w i (get_elem? w.handles i) refl

-- No sequence of calls, double releases included, loses a buffer or makes one up: the free and the held
-- buffers together are those that were free or held before, in some order.
pub owned-run : (w : World) (cs : List Call) → Perm (owned (run w cs)) (owned w)
unfolding run
owned-run w [] = Perm.refl (owned w)
owned-run w (c ∷ cs) = Perm.trans (owned-run (step w c) cs) (owned-step w c)

indices-Nodup_above : (n from i : ℕ) → i < from → ¬ Mem i (indices n from)
unfolding indices
indices-Nodup_above zero from i h m = not-mem-nil m
indices-Nodup_above (suc n) from i h m =
    Or.elim (λ x y. absurd x) (mem-cons.0 m) (λ e. absurd (omega arith))
      (indices-Nodup_above n (suc from) i (omega arith))

indices-Nodup : (n from : ℕ) → Nodup (indices n from)
unfolding indices
indices-Nodup zero from = Nodup-nil
indices-Nodup (suc n) from =
    Nodup-cons.1 (indices-Nodup_above n (suc from) from (omega arith), indices-Nodup n (suc from))

new_buffer_pool-freelist :
    (capacity : ℕ) (p : BufferPool)
    → new_buffer_pool capacity ≡ some p
    → p.freelist ≡ indices capacity 0
unfolding new_buffer_pool
new_buffer_pool-freelist capacity p e = ground arith

-- After any sequence of calls on a new pool no buffer is held by two handles that have not been
-- released, and none is held while it is free.
pub run-Nodup :
    (capacity : ℕ) (p : BufferPool) (cs : List Call)
    → new_buffer_pool capacity ≡ some p
    → Nodup (owned (run (record { pool = p; handles = [] }) cs))
run-Nodup capacity p cs e =
    let start : World = record { pool = p; handles = [] } in
    let all : owned start ≡ indices capacity 0 =
      append-nil p.freelist ∙ new_buffer_pool-freelist capacity p e in
    Perm.nodup (Perm.symm (owned-run start cs)) (subst Nodup (sym all) (indices-Nodup capacity 0))
