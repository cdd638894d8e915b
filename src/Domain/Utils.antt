-- ===== src/Domain/Utils.antt =====
-- crates/lw-domain/src/utils.rs, which no code of the worker calls.
use lend_worker_stellar.Base.{ℕ, ltb, ℤ, pos, wrap_i64, Option, some, if◌then◌else◌}
use lend_worker_stellar.Domain.Operation.{Time}

-- chrono's `from_timestamp` and `Utc::now()` are arguments; `none` is the panic of `unwrap`.
unfoldable pub timestamp_seconds_to_datetime : (ℤ → Option Time) → Time → ℕ → Option Time
unfolding wrap_i64
timestamp_seconds_to_datetime from_timestamp now ts =
    if ltb 0 ts then from_timestamp (wrap_i64 (pos ts)) else some now
