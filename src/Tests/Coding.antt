-- ===== src/Tests/Coding.antt =====
-- The theorems on buffers, the field and the codes at concrete inputs.
use mathlib.Core.List.{Perm, Nodup}
use shredstream_sdk_go.Prelude.{
  Bool, get_elem?, slice, false, true, ℕ, ◌≡◌, refl, List, [], ◌∷◌, some, replicate, arith,
}
use shredstream_sdk_go.Pool.{
  BufferPool, World, Call, new_buffer_pool, indices, buffer_size, acquires, releases, run,
}
use shredstream_sdk_go.Pool.Ownership.{owned, owned-run, run-Nodup}
use shredstream_sdk_go.Galois.{
  div, inv, mul, exp, exp_at, log_at, exp_table, log_table, log_loop, powers, times_two,
}
use shredstream_sdk_go.Galois.Field.{div-mul-inv}
use shredstream_sdk_go.Fec.{
  new_reed_solomon, code_slice, ReedSolomon, ok, mul_slice, mul_slice_xor, xor_over, copy_over,
  code_rest, code_some_slices,
}
use shredstream_sdk_go.Fec.Reconstruct.{
  encode, all_sized, reconstruct_internal, measure, rebuild, rows_used, valid_indices,
  invalid_indices, below, write_shards, recode, mark_present, fill_data, fill,
}
use shredstream_sdk_go.Fec.Rebuilt.{reconstruct_internal-Agree}
use shredstream_sdk_go.Fec.Kept.{Agree}
use shredstream_sdk_go.Matrix.{
  new_vandermonde, sub_matrix, inverse, multiply, tabulate, augment, augment_rows, gaussian_elim,
  forward, backward, scale_pivot, swap_pivot, swap_rows, clear_rows, clear_entry, add_row, identity,
  rows, cols, entry, dot,
}
use shredstream_sdk_go.Fec.Coding.{combine, code_slice-combine}
use shredstream_sdk_go.Fec.Cache.{new_reed_solomon_cache, get_or_build}
use shredstream_sdk_go.Fec.Cache.Transparency.{
  IsCache, new_reed_solomon_cache-IsCache, get_or_build-new_reed_solomon,
}
use shredstream_sdk_go.Variant.{VariantKind, kind_code_merkle}
use shredstream_sdk_go.Accumulator.FecSet.{
  new_fec_set_buffer, code_at, add_code, record_code, can_recover_with,
}
use shredstream_sdk_go.Accumulator.FecSet.Recorded.{
  Coding, record_all, first_at, or_else, IsMap, record_all-first_at,
}

abbrev three_buffers : BufferPool
three_buffers = record {
  freelist = 0 ∷ 1 ∷ 2 ∷ [];
  buffers = replicate 3 (replicate buffer_size 0);
  capacity = 3;
}

three_buffers_lem : new_buffer_pool 3 ≡ some three_buffers
unfolding new_buffer_pool indices
three_buffers_lem = refl

abbrev start : World
start = record { pool = three_buffers; handles = [] }

-- The handle 1 is released twice, and the pool runs empty at the end.
abbrev calls : List Call
calls = acquires ∷ acquires ∷ releases 1 ∷ releases 1 ∷ acquires ∷ acquires ∷ acquires ∷ []

owned-run_example : Perm (owned (run start calls)) (owned start)
owned-run_example = owned-run start calls

run-Nodup_example : Nodup (owned (run start calls))
run-Nodup_example = run-Nodup 3 three_buffers calls three_buffers_lem

div-mul-inv_example : (c : ℕ) × (inv 29 ≡ some c) × (div 200 29 ≡ some (mul 200 c))
div-mul-inv_example = div-mul-inv 200 29 (omega arith) (omega arith) (omega arith)

code_slice-combine_example :
    code_slice (1 ∷ 0 ∷ 7 ∷ []) ((1 ∷ 2 ∷ []) ∷ (3 ∷ 4 ∷ []) ∷ (5 ∷ 255 ∷ []) ∷ []) (9 ∷ 9 ∷ [])
    ≡ combine (1 ∷ 0 ∷ 7 ∷ []) ((1 ∷ 2 ∷ []) ∷ (3 ∷ 4 ∷ []) ∷ (5 ∷ 255 ∷ []) ∷ []) (replicate 2 0)
code_slice-combine_example =
    code_slice-combine 2 1 (0 ∷ 7 ∷ []) (1 ∷ 2 ∷ []) ((3 ∷ 4 ∷ []) ∷ (5 ∷ 255 ∷ []) ∷ [])
      (9 ∷ 9 ∷ []) (omega arith, (omega arith, (omega arith, tt)))
      (
        (refl, (omega arith, (omega arith, tt))),
        ((refl, (omega arith, (omega arith, tt))), ((refl, (omega arith, (omega arith, tt))), tt)),
      )
      refl

get_or_build-new_reed_solomon_example :
    IsCache (get_or_build new_reed_solomon_cache 4 2).0
    × ((get_or_build new_reed_solomon_cache 4 2).1 ≡ new_reed_solomon 4 2)
get_or_build-new_reed_solomon_example =
    get_or_build-new_reed_solomon new_reed_solomon_cache 4 2 new_reed_solomon_cache-IsCache

abbrev small_code : ReedSolomon
small_code = record {
  data_shards = 2;
  total_shards = 3;
  matrix = (1 ∷ 0 ∷ []) ∷ (0 ∷ 1 ∷ []) ∷ (3 ∷ 2 ∷ []) ∷ [];
  parity_rows = (3 ∷ 2 ∷ []) ∷ [];
}

new_reed_solomon_run : new_reed_solomon 2 1 ≡ ok small_code
unfolding new_reed_solomon new_vandermonde sub_matrix inverse multiply tabulate augment augment_rows
    gaussian_elim forward backward scale_pivot swap_pivot swap_rows clear_rows clear_entry add_row
    identity rows cols entry dot mul div inv exp exp_at log_at exp_table log_table log_loop powers
    times_two slice
new_reed_solomon_run = refl

abbrev encoded : List (List ℕ)
encoded = (1 ∷ 200 ∷ []) ∷ (7 ∷ 0 ∷ []) ∷ (13 ∷ 69 ∷ []) ∷ []

encode_run : encode small_code ((1 ∷ 200 ∷ []) ∷ (7 ∷ 0 ∷ []) ∷ (0 ∷ 0 ∷ []) ∷ []) ≡ ok encoded
unfolding encode all_sized code_some_slices code_slice code_rest mul_slice mul_slice_xor xor_over
    copy_over mul exp_at log_at exp_table log_table log_loop powers times_two
encode_run = refl

-- The first shard is lost.
abbrev received : List (List ℕ)
received = [] ∷ (7 ∷ 0 ∷ []) ∷ (13 ∷ 69 ∷ []) ∷ []

recovered_run :
    reconstruct_internal small_code received (false ∷ true ∷ true ∷ []) true
    ≡ ok (encoded, true ∷ true ∷ true ∷ [])
unfolding reconstruct_internal measure rebuild rows_used valid_indices invalid_indices below
    write_shards recode mark_present fill_data fill code_some_slices code_slice code_rest mul_slice
    mul_slice_xor xor_over copy_over sub_matrix inverse tabulate augment augment_rows gaussian_elim
    forward backward scale_pivot swap_pivot swap_rows clear_rows clear_entry add_row identity rows
    entry mul div exp_at log_at exp_table log_table log_loop powers times_two slice
recovered_run = refl

reconstruct_internal-Agree_example :
    Agree 1 encoded received × (get_elem? {A = Bool} (true ∷ true ∷ true ∷ []) 0 ≡ some true)
reconstruct_internal-Agree_example =
    reconstruct_internal-Agree small_code received (false ∷ true ∷ true ∷ []) true
      (encoded, true ∷ true ∷ true ∷ []) 1 0 recovered_run refl (omega arith) (omega arith)

abbrev merkle_code : VariantKind
merkle_code = record { kind = kind_code_merkle; proof_size = 6; resigned = false }

-- Position 1 comes twice.
abbrev codings : List Coding
codings =
    record { position = 1; num_data = 2; num_coding = 2; raw = 5 ∷ []; variant = merkle_code }
    ∷ record { position = 0; num_data = 2; num_coding = 2; raw = 6 ∷ []; variant = merkle_code }
    ∷ record { position = 1; num_data = 2; num_coding = 2; raw = 7 ∷ []; variant = merkle_code }
    ∷ []

gathered_run : code_at 1 (record_all (new_fec_set_buffer 64) codings).code ≡ some (5 ∷ [])
unfolding code_at record_all record_code add_code new_fec_set_buffer
gathered_run = refl

recoverable_run : can_recover_with (record_all (new_fec_set_buffer 64) codings) 0 ≡ true
unfolding can_recover_with code_at record_all record_code add_code new_fec_set_buffer
recoverable_run = refl

record_all-first_at_example :
    IsMap (record_all (new_fec_set_buffer 64) codings).code
    × ((position : ℕ)
        → code_at position (record_all (new_fec_set_buffer 64) codings).code
          ≡ or_else (code_at position (new_fec_set_buffer 64).code) (first_at position codings))
record_all-first_at_example =
    record_all-first_at (new_fec_set_buffer 64) codings (unfold new_fec_set_buffer in tt)
