-- ===== src/Tests/Log.antt =====
-- Runs of the log levels.
use bkjs_utils.Prelude.{◌≡◌, some, ◌&&◌, if◌then◌else◌}
use bkjs_utils.Prelude.Int.{ℤ, int_leb}
use bkjs_utils.Log.{log_none, log_error, log_test, log_to_string, log_from_string}
use bkjs_utils.Log.Levels.{log_from_string-log_to_string}

log_from_string-log_to_string_example :
    log_from_string (some (log_to_string (ℤ.pos 3)))
    ≡ some (if int_leb log_none (ℤ.pos 3) && int_leb (ℤ.pos 3) log_test then ℤ.pos 3 else log_error)
log_from_string-log_to_string_example = log_from_string-log_to_string (ℤ.pos 3)
