-- ===== src/Process.antt =====
-- The process around the worker: `main` of src/main.rs, src/bootstrap.rs, and the database handle of
-- crates/lw-storage/src/helpers.rs with the stores that are built from it. The two cells that a process
-- has, the logger's and the database's, are its state, and a panic is a result. The variables of a .env
-- file are part of the environment that the configuration was read from.
pub mod Startup
use lend_worker_stellar.Base.{
  ℕ, ltb, leb, Text, lit, text_eq, any, is_empty, show_ℕ, Bool, true, false, not, ◌&&◌, ◌||◌, ◌*◌,
  if◌then◌else◌, Option, none, some, List, [], ◌∷◌, ◌++◌, Result, ok, err,
}
use lend_worker_stellar.Config.Env.{LocalEnv, is_production}

-- What a call ends with.
pub data Ended (A : Type 0) : Type 0 where
  returned : A → Ended A
  panicked : Text → Ended A

infixl 5 ◌>>=◌
abbrev pub ◌>>=◌ : {A B : Type 0} → Ended A → (A → Ended B) → Ended B
returned a >>= f = f a
panicked m >>= f = panicked m

-- `unwrap` and `expect`
abbrev pub expect : {A : Type 0} → Text → Result A → Ended A
expect m (ok a) = returned a
expect m (err e) = panicked (m ++ lit ": " ++ e)

pub record PoolOptions : Type 0 where
  pub max_connections : ℕ
  pub max_lifetime_seconds : ℕ

abbrev pub pool_options : PoolOptions
pool_options = record { max_connections = 50; max_lifetime_seconds = 60 * 60 }

-- A reply to the health check: its HTTP status, or that the request failed.
abbrev pub Reply : Type 0
Reply = Result ℕ

-- `StatusCode::is_success`
abbrev pub is_success : ℕ → Bool
is_success status = leb 200 status && ltb status 300

-- What the loop of `start_heartbeat` logs, for the replies that come.
unfoldable pub heartbeat : List Reply → List Text
heartbeat [] = []
heartbeat (reply ∷ replies) =
    let rest = heartbeat replies in
    elim reply [
      | ok status ↦
          if is_success status
          then rest
          else (lit "[healthcheck] Heartbeat request failed with status: " ++ show_ℕ status) ∷ rest
      | err e ↦ (lit "[healthcheck] Heartbeat request failed: " ++ e) ∷ rest
    ]

-- `start_heartbeat`: the errors it logs while the health check answers so.
unfoldable pub start_heartbeat : LocalEnv → List Reply → List Text
unfolding is_production heartbeat
start_heartbeat cfg replies =
    if not (is_production cfg) || is_empty cfg.health_check_url then [] else heartbeat replies

-- `PgPool` is sqlx's.
pub record Database (PgPool : Type 0) : Type 0 where
  pub pool : PgPool

pub record Process (PgPool : Type 0) : Type 0 where
  pub has_logger : Bool
  pub db : Option (Database PgPool)

-- The handler's stores, each by the handle that it queries through.
pub record Wired (PgPool : Type 0) : Type 0 where
  pub activity : Database PgPool
  pub operations : Database PgPool
  pub fiat_holdings : Database PgPool

-- What `main` goes on to: nothing, or the heartbeat and `run` of a handler with these stores.
pub data Launched (PgPool : Type 0) : Type 0 where
  debugged : Launched PgPool
  serving : Wired PgPool → Launched PgPool

-- sqlx's construction of a pool, and the error with which fern's `apply` fails where a logger is set.
module _ {PgPool : Type 0} (connect_pool : PoolOptions → Text → Result PgPool)
    (logger_error : Text) where
  -- `Database::connect`
  unfoldable pub connect : Text → Result (Database PgPool)
  connect url = elim (connect_pool pool_options url) [
    | err e ↦ err e
    | ok pool ↦ ok (record { pool = pool })
  ]

  unfoldable pub init_database : Database PgPool → Process PgPool → Ended (Process PgPool)
  init_database db p = elim p.db [
    | none ↦ returned (record { has_logger = p.has_logger; db = some db })
    | some _ ↦ panicked (lit "Database was already set")
  ]

  unfoldable pub setup_db : LocalEnv → Process PgPool → Ended (Process PgPool)
  unfolding connect init_database
  setup_db cfg p = do
    db ← expect (lit "Failed to create DB pool") (connect cfg.db_url)
    init_database db p

  unfoldable pub get_database : Process PgPool → Ended (Database PgPool)
  get_database p = elim p.db [
    | none ↦ panicked (lit "DB not initialized. Call setup_db() first.")
    | some db ↦ returned db
  ]

  unfoldable pub setup_logger : Process PgPool → Result (Process PgPool)
  setup_logger p =
      if p.has_logger then err logger_error else ok (record { has_logger = true; db = p.db })

  unfoldable pub setup_env : LocalEnv → Process PgPool → Ended (Process PgPool)
  unfolding setup_logger setup_db
  setup_env cfg p = do
    q ← expect (lit "called `Result::unwrap()` on an `Err` value") (setup_logger p)
    setup_db cfg q

  -- `Handler::new`: each store's `from_global`
  unfoldable pub wire : Process PgPool → Ended (Wired PgPool)
  unfolding get_database
  wire p = do
    activity ← get_database p
    operations ← get_database p
    fiat_holdings ← get_database p
    returned
        (record { activity = activity; operations = operations; fiat_holdings = fiat_holdings })

  -- `main` behind `setup_env`; the flag says whether `--debug` is among the arguments.
  abbrev pub launch : Bool → Process PgPool → Ended (Process PgPool × Launched PgPool)
  unfolding wire
  launch true p = returned (p, debugged)
  launch false p = do stores ← wire p; returned (p, serving stores)

  unfoldable pub main :
      LocalEnv → List Text → Process PgPool → Ended (Process PgPool × Launched PgPool)
  unfolding setup_env
  main cfg args p = do q ← setup_env cfg p; launch (any (λ a. text_eq a (lit "--debug")) args) q
