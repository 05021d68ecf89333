-- ===== src/Tests/Recovering.antt =====
-- The recovery of a lost data shred at a concrete FEC set.
use shredstream_sdk_go.Prelude.{◌++◌, ◌≡◌, refl, List, [], ◌∷◌, true, replicate, arith, slice, All}
use shredstream_sdk_go.Prelude.Int.{◌-ℤ◌}
use shredstream_sdk_go.Galois.{
  mul, div, exp, exp_at, log_at, exp_table, log_table, log_loop, powers, times_two,
}
use shredstream_sdk_go.Matrix.{
  new_vandermonde, sub_matrix, inverse, multiply, tabulate, augment, augment_rows, gaussian_elim,
  forward, backward, scale_pivot, swap_pivot, swap_rows, clear_rows, clear_entry, add_row, identity,
  rows, cols, entry, dot,
}
use shredstream_sdk_go.Variant.{kind_code_merkle, shard_size}
use shredstream_sdk_go.Fec.{
  new_reed_solomon, ok, copy_over, xor_over, mul_slice, mul_slice_xor, code_rest, code_slice,
  code_some_slices,
}
use shredstream_sdk_go.Fec.Reconstruct.{
  reconstruct_data, reconstruct_internal, measure, rebuild, rows_used, valid_indices,
  invalid_indices, below, write_shards, recode, mark_present, fill_data, fill,
}
use shredstream_sdk_go.Fec.Cache.{new_reed_solomon_cache, get_or_build, find_key, push_evicting}
use shredstream_sdk_go.Fec.Cache.Transparency.{IsCache, new_reed_solomon_cache-IsCache}
use shredstream_sdk_go.Accumulator.FecSet.{
  FecSetBuffer, code_shard_slice, data_shard_slice, variant_as_data,
}
use shredstream_sdk_go.Accumulator.Recovery.{
  DataShredRef, store, place_code, place_data, count_present, received, is_already, shred_around,
  recovered, zero_missing, try_reconstruct,
}
use shredstream_sdk_go.Accumulator.Recovery.Missing.{IsRecovered, try_reconstruct-IsRecovered}

-- Two data shreds, of which the first is lost, and one coding shred; the shards have three bytes.
abbrev lossy_set : FecSetBuffer
lossy_set = record {
  fec_set_index = 64;
  num_data = 2;
  num_coding = 1;
  shard_len = 3;
  variant = record { kind = kind_code_merkle; proof_size = 52; resigned = true };
  has_variant = true;
  code = (0, replicate 89 0 ++ (13 ∷ 69 ∷ 0 ∷ [])) ∷ [];
}

abbrev arrived : List DataShredRef
arrived = record { pos = 1; raw = replicate 64 0 ++ (7 ∷ 0 ∷ 9 ∷ []) } ∷ []

abbrev regained : List DataShredRef
regained = record { pos = 0; raw = shred_around (1 ∷ 200 ∷ 14 ∷ []) } ∷ []

regained_run : (try_reconstruct lossy_set arrived new_reed_solomon_cache).1 ≡ ok regained
unfolding try_reconstruct received place_code place_data store count_present is_already recovered
    zero_missing code_shard_slice data_shard_slice variant_as_data shard_size ◌-ℤ◌ get_or_build
    find_key push_evicting new_reed_solomon_cache new_reed_solomon new_vandermonde multiply dot exp
    cols reconstruct_data reconstruct_internal measure rebuild rows_used valid_indices
    invalid_indices below write_shards recode mark_present fill_data fill code_some_slices
    code_slice code_rest mul_slice mul_slice_xor xor_over copy_over sub_matrix inverse tabulate
    augment augment_rows gaussian_elim forward backward scale_pivot swap_pivot swap_rows clear_rows
    clear_entry add_row identity rows entry mul div exp_at log_at exp_table log_table log_loop
    powers times_two slice
regained_run = refl

try_reconstruct-IsRecovered_example :
    IsCache (try_reconstruct lossy_set arrived new_reed_solomon_cache).0
    × All (IsRecovered lossy_set arrived) regained
try_reconstruct-IsRecovered_example =
    try_reconstruct-IsRecovered lossy_set arrived new_reed_solomon_cache regained
      new_reed_solomon_cache-IsCache (omega arith) regained_run
