-- ===== src/Chain/EventLoop/Start.antt =====
-- `event_loop` up to its loop: the client, the network's tip, the sources and the first state. The RPC
-- client, its `getLatestLedger` and the two ways to a replay source are arguments.
use lend_worker_stellar.Base.{
  ℕ, ℤ, Text, lit, Option, none, some, [], ◌++◌, Result, ok, err, map_err,
}
use lend_worker_stellar.Config.Env.{LocalEnv}
use lend_worker_stellar.Domain.Build.{as_i32}
use lend_worker_stellar.Chain.EventLoop.{Source, Replay, LoopState, build_replay}

pub record Started : Type 0 where
  pub live : Source
  pub backfill : Option Replay
  pub state : LoopState

-- The variables in front of the loop.
unfoldable pub initial : LocalEnv → LoopState
initial cfg = record {
  contracts = [];
  fopid_to_opid = [];
  cursor = cfg.start_ledger;
  retention_floor = none;
}

module _ {C : Type 0} (new_client : Text → Result C) (get_latest_ledger : C → Result ℕ)
    (rpc_source : C → Source) (connect_hubble : Text → Text → ℤ → ℤ → Result Source)
    (new_backfill : Text → ℤ → Result Source) where
  unfoldable pub get_rpc_client : LocalEnv → Result C
  get_rpc_client cfg =
      map_err (λ e. lit "Failed to build Soroban RPC client: " ++ e)
        (new_client cfg.soroban_rpc_url)

  unfoldable pub network_tip : C → Option ℤ
  network_tip client = elim (get_latest_ledger client) [
    | ok sequence ↦ some (as_i32 sequence)
    | err e ↦ none
  ]

  -- Without a client the loop returns at once.
  unfoldable pub start_loop : LocalEnv → Option Started
  unfolding get_rpc_client network_tip initial
  start_loop cfg = elim (get_rpc_client cfg) [
    | err e ↦ none
    | ok client ↦ some (record {
      live = rpc_source client;
      backfill = build_replay connect_hubble new_backfill cfg (network_tip client);
      state = initial cfg;
    })
  ]
