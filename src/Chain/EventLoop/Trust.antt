-- ===== src/Chain/EventLoop/Trust.antt =====
-- Which replay source `build_replay` trusts.
use lend_worker_stellar.Base.{
  ℤ, Text, is_empty, false, Bool-cases, Option, none, some, Result, ok, ◌≡◌, ◌≢◌, refl, inl, inr,
  arith,
}
use lend_worker_stellar.Config.Env.{LocalEnv}
use lend_worker_stellar.Chain.EventLoop.{
  Source, Replay, build_replay, rpc_replay, hubble_or, backfill_archival,
}

module _ (connect_hubble : Text → Text → ℤ → ℤ → Result Source)
    (new_backfill : Text → ℤ → Result Source) (cfg : LocalEnv) (r : Replay)
    (archival : r.attempt ≡ backfill_archival) where
  rpc_replay-bounded : rpc_replay connect_hubble new_backfill cfg ≢ some r
  unfolding rpc_replay
  rpc_replay-bounded h = ground arith

  hubble_or-archival :
      (tip : ℤ) (fallback : Option Replay)
      → fallback ≢ some r
      → hubble_or connect_hubble new_backfill cfg tip fallback ≡ some r
      → connect_hubble cfg.hubble_billing_project cfg.hubble_dataset cfg.hubble_max_span tip
        ≡ ok r.source
  unfolding hubble_or
  hubble_or-archival tip fallback ne h = ground arith

  -- The loop only ever treats a source as archival, and so never skips a gap below its floor, if a
  -- billing project is configured, the network's tip is known, and connecting to Hubble with that
  -- tip has succeeded and given this source.
  pub build_replay-archival :
      (network_tip : Option ℤ)
      → build_replay connect_hubble new_backfill cfg network_tip ≡ some r
      → (is_empty cfg.hubble_billing_project ≡ false)
        × (tip : ℤ) × (network_tip ≡ some tip)
        × (connect_hubble cfg.hubble_billing_project cfg.hubble_dataset cfg.hubble_max_span tip
            ≡ ok r.source)
  unfolding build_replay
  build_replay-archival none h = absurd (ground (arith, rpc_replay-bounded))
  build_replay-archival (some tip) h = elim (Bool-cases (is_empty cfg.hubble_billing_project)) [
    | inl unset ↦ absurd (rpc_replay-bounded (rw unset at h))
    | inr set ↦ (
      set,
      tip,
      refl,
      hubble_or-archival tip (rpc_replay connect_hubble new_backfill cfg) rpc_replay-bounded
          (rw set at h),
    )
  ]
