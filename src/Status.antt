-- ===== src/Status.antt =====
-- The `int` results of components/core/kest_error_codes.h that the modelled code returns.
use kestrel_interface.Prelude.{ℕ}

abbrev pub no_error : ℕ
no_error = 0

abbrev pub err_null_ptr : ℕ
err_null_ptr = 1

abbrev pub err_bad_args : ℕ
err_bad_args = 2

abbrev pub err_alloc_fail : ℕ
err_alloc_fail = 5

abbrev pub err_mutex_unavailable : ℕ
err_mutex_unavailable = 13

abbrev pub err_queue_send_failed : ℕ
err_queue_send_failed = 17

abbrev pub err_value_out_of_bounds : ℕ
err_value_out_of_bounds = 23

abbrev pub err_pipeline_full : ℕ
err_pipeline_full = 6

abbrev pub err_invalid_effect_id : ℕ
err_invalid_effect_id = 26
