-- ===== src/Pool.antt =====
-- pool.go: a fixed set of buffers, handed out through handles. The mutex makes each operation atomic.
pub mod Ownership
use shredstream_sdk_go.Prelude.{
  ℕ, zero, suc, ◌+◌, List, [], ◌∷◌, ◌++◌, Bool, true, false, ◌||◌, Option, none, some, ltb, leb,
  ◌==◌, if◌then◌else◌, length, get_elem?, get_or, set, take, replicate,
}

abbrev pub buffer_size : ℕ
buffer_size = 2048

abbrev pub max_pool_capacity : ℕ
max_pool_capacity = 65535

-- The head of the free list is the end of the Go slice, where buffers are taken and put back.
pub record BufferPool : Type 0 where
  pub freelist : List ℕ
  pub buffers : List (List ℕ)
  pub capacity : ℕ

-- `pooled` says that the field `pool` is not nil. `buf` is the buffer `idx` of the pool.
pub record BufferHandle : Type 0 where
  pub pooled : Bool
  pub idx : ℕ
  pub buf_length : ℕ

-- `from`, `from + 1`, …, `n` numbers.
unfoldable pub indices : ℕ → ℕ → List ℕ
indices zero from = []
indices (suc n) from = from ∷ indices n (suc from)

-- `none` is the panic on a capacity out of range. `free[capacity-1-i] = i` puts 0 at the end.
unfoldable pub new_buffer_pool : ℕ → Option BufferPool
new_buffer_pool capacity =
    if capacity == 0 || ltb max_pool_capacity capacity
    then none
    else some (record {
      freelist = indices capacity 0;
      buffers = replicate capacity (replicate buffer_size 0);
      capacity = capacity;
    })

abbrev pub take_top : BufferPool → List ℕ → Option BufferHandle × BufferPool
take_top p [] = (none, p)
take_top p (idx ∷ rest) =
    (some (record { pooled = true; idx = idx; buf_length = 0 }), record p { freelist = rest })

unfoldable pub acquire : BufferPool → Option BufferHandle × BufferPool
acquire p = take_top p p.freelist

-- bufferPool.release.
unfoldable pub give_back : ℕ → BufferPool → BufferPool
give_back idx p = record p { freelist = idx ∷ p.freelist }

unfoldable pub available : BufferPool → ℕ
available p = length p.freelist

-- SetLen. `n` is never negative; `none` is the panic.
unfoldable pub set_len : BufferHandle → ℕ → Option BufferHandle
set_len h n = if ltb buffer_size n then none else some (record h { buf_length = n })

unfoldable pub handle_bytes : BufferPool → BufferHandle → List ℕ
handle_bytes p h = take h.buf_length (get_or p.buffers h.idx [])

-- BufferHandle.Release: the handle forgets its pool, so a second call does nothing.
unfoldable pub release : BufferHandle → BufferPool → BufferHandle × BufferPool
release h p = if h.pooled then (record h { pooled = false }, give_back h.idx p) else (h, p)

-- The pool with every handle that it ever gave out, which the callers keep and may release again.
pub record World : Type 0 where
  pub pool : BufferPool
  pub handles : List BufferHandle

pub data Call : Type 0 where
  acquires : Call
  releases : ℕ → Call

abbrev hold : List BufferHandle → Option BufferHandle × BufferPool → World
hold hs (none, p) = record { pool = p; handles = hs }
hold hs (some h, p) = record { pool = p; handles = h ∷ hs }

abbrev put_handle : World → ℕ → BufferHandle × BufferPool → World
put_handle w i (h, p) = record { pool = p; handles = set w.handles i h }

abbrev release_held : World → ℕ → Option BufferHandle → World
release_held w i none = w
release_held w i (some h) = put_handle w i (release h w.pool)

-- One call by one of the callers. A number that stands for no handle is a nil handle.
unfoldable pub step : World → Call → World
step w acquires = hold w.handles (acquire w.pool)
step w (releases i) = release_held w i (get_elem? w.handles i)

unfoldable pub run : World → List Call → World
run w [] = w
run w (c ∷ cs) = run (step w c) cs
