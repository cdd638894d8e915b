-- ===== src/Process/Startup.antt =====
-- How a start ends.
use lend_worker_stellar.Base.{
  Text, lit, text_eq, any, true, false, Bool-cases, none, some, List, ◌++◌, Result, ok, err,
  Result-cases, ◌≡◌, refl, ◌⊎◌, inl, inr, if◌then◌else◌,
}
use lend_worker_stellar.Config.Env.{LocalEnv}
use lend_worker_stellar.Process.{
  returned, panicked, PoolOptions, pool_options, connect, Process, setup_env, Wired, debugged,
  serving, launch, main,
}

module _ {PgPool : Type 0} (connect_pool : PoolOptions → Text → Result PgPool)
    (logger_error : Text) where
  -- A process before `main`, and one that has set up a pool.
  abbrev pub fresh : Process PgPool
  fresh = record { has_logger = false; db = none }

  abbrev pub started : PgPool → Process PgPool
  started pool = record { has_logger = true; db = some (record { pool = pool }) }

  -- A handler whose stores share one pool.
  abbrev pub over : PgPool → Wired PgPool
  over pool = record {
    activity = record { pool = pool };
    operations = record { pool = pool };
    fiat_holdings = record { pool = pool };
  }

  setup_env-fresh :
      (cfg : LocalEnv) (pool : PgPool)
      → connect_pool pool_options cfg.db_url ≡ ok pool
      → setup_env connect_pool logger_error cfg fresh ≡ returned (started pool)
  unfolding setup_env connect
  setup_env-fresh cfg pool e = rw (setup_env, connect, e) refl

  main-connected :
      (cfg : LocalEnv) (args : List Text) (pool : PgPool)
      → connect_pool pool_options cfg.db_url ≡ ok pool
      → main connect_pool logger_error cfg args fresh
        ≡ returned (
          started pool,
          if any (λ a. text_eq a (lit "--debug")) args then debugged else serving (over pool),
        )
  unfolding main launch
  main-connected cfg args pool e = elim (Bool-cases (any (λ a. text_eq a (lit "--debug")) args)) [
    | inl d ↦ rw (main, setup_env-fresh cfg pool e, d) refl
    | inr d ↦ rw (main, setup_env-fresh cfg pool e, d) refl
  ]

  -- In a process with no logger and no database yet, `main` panics where the pool cannot be built, with
  -- that error. Otherwise no cell makes it panic: it ends at once if an argument is `--debug`, and serves
  -- with a handler all of whose stores share the pool of the configured URL if not; and a second
  -- `setup_env` in the process panics.
  pub main-starts :
      (cfg : LocalEnv) (args : List Text)
      → ((e : Text) × (connect_pool pool_options cfg.db_url ≡ err e)
          × (main connect_pool logger_error cfg args fresh
              ≡ panicked (lit "Failed to create DB pool: " ++ e)))
        ⊎ ((pool : PgPool) × (connect_pool pool_options cfg.db_url ≡ ok pool)
            × (main connect_pool logger_error cfg args fresh
                ≡ returned (
                  started pool,
                  if any (λ a. text_eq a (lit "--debug")) args
                      then debugged
                      else serving (over pool),
                ))
            × (m : Text) × (setup_env connect_pool logger_error cfg (started pool) ≡ panicked m))
  unfolding main connect setup_env lit
  main-starts cfg args = elim (Result-cases (connect_pool pool_options cfg.db_url)) [
    | inl (pool, e) ↦ inr (pool, e, main-connected cfg args pool e, _, refl)
    | inr (m, e) ↦ inl (m, e, rw (main, setup_env, connect, e) refl)
  ]
