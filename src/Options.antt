-- ===== src/Options.antt =====
-- options.go: the options of a listener.
pub mod Pooling
use shredstream_sdk_go.Prelude.{ℕ, ◌*◌, Bool, true, false, ◌||◌, ltb, ◌==◌, if◌then◌else◌}
use shredstream_sdk_go.Prelude.Int.{ℤ, pos, negsuc}
use shredstream_sdk_go.Pool.{max_pool_capacity}

-- A duration is a number of nanoseconds.
pub record AccumulatorConfig : Type 0 where
  pub max_fec_sets_per_slot : ℤ
  pub stuck_batch_timeout : ℤ

unfoldable pub default_accumulator_config : AccumulatorConfig
default_accumulator_config = record {
  max_fec_sets_per_slot = pos 32;
  stuck_batch_timeout = pos (50 * 1000000);
}

pub record ListenerOptions : Type 0 where
  pub recv_buf : ℤ
  pub max_age : ℤ
  pub busy_poll_micros : ℕ
  pub pool_size : ℤ
  pub enable_fec : Bool
  pub disable_salvage_delivery : Bool
  pub accumulator : AccumulatorConfig

-- What validate says: nothing, or which option is wrong.
pub data Verdict : Type 0 where
  valid bad_pool_size bad_recv_buf bad_max_age : Verdict

abbrev pub pool_size_in_range : ℤ → Bool
pool_size_in_range (pos n) = if n == 0 || ltb max_pool_capacity n then false else true
pool_size_in_range (negsuc n) = false

abbrev pub is_negative : ℤ → Bool
is_negative (pos n) = false
is_negative (negsuc n) = true

abbrev pub is_zero : ℤ → Bool
is_zero (pos n) = n == 0
is_zero (negsuc n) = false

unfoldable pub validate : ListenerOptions → Verdict
validate o =
    if pool_size_in_range o.pool_size
    then (if is_negative o.recv_buf
        then bad_recv_buf
        else if is_zero o.max_age
        then bad_max_age
        else valid)
    else bad_pool_size

unfoldable pub default_listener_options : ListenerOptions
default_listener_options = record {
  recv_buf = pos (64 * 1024 * 1024);
  max_age = pos 3;
  busy_poll_micros = 200;
  pool_size = pos 4096;
  enable_fec = true;
  disable_salvage_delivery = false;
  accumulator = default_accumulator_config;
}
