-- ===== src/Tests/Settings.antt =====
-- The theorem on the options at concrete options.
use shredstream_sdk_go.Prelude.{◌≡◌, ◌≢◌, ◌↔◌, refl}
use shredstream_sdk_go.Prelude.Int.{pos, negsuc, ◌≤ℤ◌}
use shredstream_sdk_go.Options.{validate, valid, bad_pool_size, default_listener_options}
use shredstream_sdk_go.Options.Pooling.{Makes, validate_iff}

default_run : validate default_listener_options ≡ valid
unfolding validate default_listener_options
default_run = refl

-- A negative age passes.
negative_age_run : validate (record default_listener_options { max_age = negsuc 0 }) ≡ valid
unfolding validate default_listener_options
negative_age_run = refl

empty_pool_run : validate (record default_listener_options { pool_size = pos 0 }) ≡ bad_pool_size
unfolding validate default_listener_options
empty_pool_run = refl

validate_iff_example : (validate default_listener_options ≡ valid) ↔ (
    Makes default_listener_options.pool_size
    × (pos 0 ≤ℤ default_listener_options.recv_buf)
    × (default_listener_options.max_age ≢ pos 0))
validate_iff_example = validate_iff default_listener_options
