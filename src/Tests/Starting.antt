-- ===== src/Tests/Starting.antt =====
-- Starts of the process, the health check, and the timestamp helper.
use lend_worker_stellar.Base.{
  ℤ, pos, negsuc, ◌-◌, ◌^◌, Option, some, Text, lit, text_eq, is_empty, any, [], ◌∷◌, ◌++◌, length,
  Result, ok, err, ◌≡◌, refl, ◌⊎◌, if◌then◌else◌,
}
use lend_worker_stellar.Config.Env.{LocalEnv, AppEnv, new}
use lend_worker_stellar.Domain.Operation.{Time}
use lend_worker_stellar.Domain.Utils.{timestamp_seconds_to_datetime}
use lend_worker_stellar.Process.{
  PoolOptions, pool_options, returned, panicked, debugged, serving, main, setup_env,
  start_heartbeat,
}
use lend_worker_stellar.Process.Startup.{fresh, started, over, main-starts}
use lend_worker_stellar.Tests.Syncs.{unset}

abbrev cfg : LocalEnv
cfg = record (new unset) {
  db_url = lit "postgres://db";
  health_check_url = lit "https://status";
  env = AppEnv.production;
}

-- a pool is its URL
abbrev connect_pool : PoolOptions → Text → Result Text
connect_pool options url = if is_empty url then err (lit "empty URL") else ok url

-- what fern answers where a logger is set
abbrev already : Text
already = lit "already set"

main-starts_example :
    ((e : Text) × (connect_pool pool_options cfg.db_url ≡ err e)
      × (main connect_pool already cfg (lit "worker" ∷ []) (fresh connect_pool already)
          ≡ panicked (lit "Failed to create DB pool: " ++ e)))
    ⊎ ((pool : Text) × (connect_pool pool_options cfg.db_url ≡ ok pool)
        × (main connect_pool already cfg (lit "worker" ∷ []) (fresh connect_pool already)
            ≡ returned (
              started connect_pool already pool,
              if any (λ a. text_eq a (lit "--debug")) (lit "worker" ∷ [])
                  then debugged
                  else serving (over connect_pool already pool),
            ))
        × (m : Text) × (setup_env connect_pool already cfg (started connect_pool already pool)
            ≡ panicked m))
main-starts_example = main-starts connect_pool already cfg (lit "worker" ∷ [])

errors_logged :
    length (start_heartbeat cfg (ok 200 ∷ ok 503 ∷ err (lit "timeout") ∷ ok 299 ∷ [])) ≡ 2
unfolding start_heartbeat new is_empty lit
errors_logged = refl

disabled : start_heartbeat (new unset) (err (lit "timeout") ∷ []) ≡ []
unfolding start_heartbeat new lit text_eq is_empty
disabled = refl

-- A timestamp beyond i64 is read as one before the epoch.
abbrev utc : ℤ → Option Time
utc z = some z

wrapped : timestamp_seconds_to_datetime utc (pos 9) (2 ^ 64 - 1) ≡ some (negsuc 0)
unfolding timestamp_seconds_to_datetime
wrapped = refl

zero_is_now : timestamp_seconds_to_datetime utc (pos 9) 0 ≡ some (pos 9)
unfolding timestamp_seconds_to_datetime
zero_is_now = refl
