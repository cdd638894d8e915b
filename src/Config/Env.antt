-- ===== src/Config/Env.antt =====
-- crates/lw-config/src/config.rs and chain_config.rs. The process environment is a function from a
-- variable's name to its value.
use lend_worker_stellar.Base.{
  ℕ, ℤ, pos, Text, lit, text_eq, is_empty, parse_i32, parse_ℕ, unwrap_or, ◌^◌, ltb, Bool, true,
  false, if◌then◌else◌, Option, none, some, List, [], ◌∷◌,
}
use lend_worker_stellar.Config.Types.{Address}

-- STELLAR_CHAIN_ID
abbrev pub stellar_chain_id : ℤ
stellar_chain_id = pos 0

abbrev pub Environ : Type 0
Environ = Text → Option Text

unfoldable pub get_env : Environ → Text → Text
get_env vars key = unwrap_or [] (vars key)

unfoldable pub get_env_or : Environ → Text → Text → Text
unfolding get_env
get_env_or vars key default = let v = get_env vars key in if is_empty v then default else v

pub data AppEnv : Type 0 where
  dev staging production : AppEnv

abbrev pub is_production_env : AppEnv → Bool
is_production_env production = true
is_production_env _ = false

unfoldable pub get_env_value : Environ → AppEnv
unfolding get_env
get_env_value vars =
    let v = get_env vars (lit "APP_ENV") in
    if text_eq v (lit "development")
    then dev
    else if text_eq v (lit "staging")
    then staging
    else production

pub record LocalEnv : Type 0 where
  pub db_url : Text
  pub health_check_url : Text
  pub factory_contract_id : Address
  pub rewards_contract_id : Address
  pub oplend_wallet : Address
  pub soroban_rpc_url : Text
  pub hubble_billing_project : Text
  pub hubble_dataset : Text
  pub hubble_max_span : ℤ
  pub backfill_source_url : Text
  pub backfill_max_span : ℤ
  pub start_ledger : ℤ
  pub poll_interval_ms : ℕ
  pub chain_id : ℤ
  pub env : AppEnv

-- `parse::<u64>().ok()`
unfoldable pub parse_u64 : Text → Option ℕ
parse_u64 t = elim (parse_ℕ t) [ none ↦ none | some n ↦ if ltb n (2 ^ 64) then some n else none ]

-- `LocalEnv::new`
unfoldable pub new : Environ → LocalEnv
unfolding get_env get_env_or get_env_value parse_u64
new vars =
    let env = get_env_value vars in
    record {
      db_url = get_env vars (lit "DATABASE_URL");
      health_check_url = get_env vars (lit "HEALTH_CHECK_URL");
      factory_contract_id = get_env vars (lit "FACTORY_CONTRACT_ID");
      rewards_contract_id = get_env vars (lit "REWARDS_CONTRACT_ID");
      oplend_wallet =
          if is_production_env env
          then lit "CACWIITWTXV47Z5EGVCE73HO5JEZENPZZFKQYPCZDWLNB5TF6RJ44CBI"
          else lit "CBUIDJMBY4FUBXVD24ZBO2PABJDEH3PYMPCR7VYI7NLARN4DN5EN2FL3";
      soroban_rpc_url =
          get_env_or vars (lit "SOROBAN_RPC_URL") (lit "https://soroban-testnet.stellar.org");
      hubble_billing_project = get_env vars (lit "HUBBLE_BILLING_PROJECT");
      hubble_dataset = get_env_or vars (lit "HUBBLE_DATASET") (lit "crypto-stellar.crypto_stellar");
      hubble_max_span = unwrap_or (pos 120_000) (parse_i32 (get_env vars (lit "HUBBLE_MAX_SPAN")));
      backfill_source_url = get_env vars (lit "BACKFILL_SOURCE_URL");
      backfill_max_span =
          unwrap_or (pos 120_000) (parse_i32 (get_env vars (lit "BACKFILL_MAX_SPAN")));
      start_ledger = unwrap_or (pos 0) (parse_i32 (get_env vars (lit "START_LEDGER")));
      poll_interval_ms = unwrap_or 5_000 (parse_u64 (get_env vars (lit "POLL_INTERVAL_MS")));
      chain_id = stellar_chain_id;
      env = env;
    }

unfoldable pub get_ignored_addresses : LocalEnv → List Address
get_ignored_addresses cfg = [] ∷ cfg.factory_contract_id ∷ []

unfoldable pub is_production : LocalEnv → Bool
is_production cfg = is_production_env cfg.env

pub record StellarNetwork : Type 0 where
  pub chain_id : ℤ
  pub factory_contract_id : Address
  pub factory_start_ledger : ℤ
  pub rewards_address : Option Address

-- `StellarNetwork::default`
unfoldable pub stellar_network : LocalEnv → StellarNetwork
stellar_network cfg = record {
  chain_id = stellar_chain_id;
  factory_contract_id = cfg.factory_contract_id;
  factory_start_ledger = cfg.start_ledger;
  rewards_address = if is_empty cfg.rewards_contract_id then none else some cfg.rewards_contract_id;
}
