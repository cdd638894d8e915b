-- ===== src/System/Restart.antt =====
-- Where a process that is started on stored tables begins to read.
use mathlib.Core.Path.{subst}
use lend_worker_stellar.Base.{
  ℕ, ◌==◌, ==_iff, ℤ, pos, negsuc, result_or, Text, Option-cases, ◌≤ℤ◌, ◌<ℤ◌, +ℤ_parts, add_i32,
  add_i32-one, Fits, i32_half, ◌&&◌, true, some, List, [], ◌∷◌, ◌++◌, get_elem?, All, Any, Any-imp,
  Any-append_left, Any-append_right, ◌≡◌, refl, sym, ap, ◌∙◌, inl, inr, arith,
}
use lend_worker_stellar.Config.Types.{ObservableContract, IndexerCommand, update_contracts}
use lend_worker_stellar.Config.Env.{LocalEnv, stellar_network}
use lend_worker_stellar.Domain.Operation.{SupportedChains}
use lend_worker_stellar.Domain.Activity.{Activity}
use lend_worker_stellar.Storage.Tables.{Db, OperationRow}
use lend_worker_stellar.Storage.Latest.{
  on_stellar, is_oplend_type, is_rewards_type, is_factory_type, get_oplend_latest_blocks,
  get_rewards_latest_blocks, get_factory_latest_block,
}
use lend_worker_stellar.Storage.Latest.Blocks.{IsLedger, Reached, max_block-keep}
use lend_worker_stellar.Storage.Operations
use lend_worker_stellar.Storage.Operations.Keyed.{IsKeyed}
use lend_worker_stellar.Storage.Stores.{pg_stores}
use lend_worker_stellar.Chain.EventLoop.{drain, apply_command}
use lend_worker_stellar.Chain.EventLoop.Start.{initial}
use lend_worker_stellar.Chain.EventLoop.Cursor.{apply_command-le}
use lend_worker_stellar.App.Discovery.{
  World, is_soroban_address, get_op_data, factory_block, get_latest_factory_activity,
  get_latest_rewards_activity, get_latest_oplend_activity, discover, run_start,
}
use lend_worker_stellar.App.Discovery.Finds.{token_contract, discover-contracts, discover-Any}
use lend_worker_stellar.System.{new_world, run}

-- The contract that the row came from is one that a process observes: the factory, the rewards
-- contract if one is configured, or the token of a published operation.
pub data IsWatched (cfg : LocalEnv) (db : Db) (a : Activity) : Type 0 where
  by_factory : is_factory_type a.event_type ≡ true → IsWatched cfg db a
  by_rewards :
      (address : Text)
      → (stellar_network cfg).rewards_address ≡ some address
      → is_rewards_type a.event_type ≡ true
      → IsWatched cfg db a
  by_token :
      (i j : ℕ) (row : OperationRow) (fop : ℤ) (c : SupportedChains)
      → is_oplend_type a.event_type ≡ true
      → IsKeyed db.operations
      → get_elem? db.operations i ≡ some row
      → row.operation.id ≡ a.op_id
      → row.operation.factory_op_id ≡ some fop
      → row.published ≡ true
      → get_elem? row.operation.supported_chains j ≡ some c
      → is_soroban_address c.op_token ≡ true
      → IsWatched cfg db a

-- Some observed contract was indexed up to the row's block.
abbrev Reaches : Activity → List ObservableContract → Type 0
Reaches a cs = Any (λ c. Reached a c.latest_block) cs

IsLedger-Fits : (z : ℤ) → IsLedger z → Fits i32_half z
IsLedger-Fits (pos n) h = omega (arith, h)
IsLedger-Fits (negsuc n) h = absurd (omega (arith, h))

module _ (cfg : LocalEnv) (db : Db) (a : Activity)
    (ledgers : All (λ r. IsLedger r.block_number) db.activity)
    (there : Any (λ r. r ≡ a) db.activity) (stellar : on_stellar a ≡ true) where
  factory_block-Reached :
      (w : World Db)
      → w.store ≡ db
      → is_factory_type a.event_type ≡ true
      → Reached a (factory_block cfg pg_stores true w)
  unfolding factory_block get_factory_latest_block
  factory_block-Reached w same typed =
      let reached =
        max_block-keep (λ r. on_stellar r && is_factory_type r.event_type) db.activity a ledgers
          there (ground (arith, stellar, typed)) in
      subst (λ (d : Db). Reached a (factory_block cfg pg_stores true (record w { store = d })))
        (sym same) (ground (arith, reached))

  -- What a read lists is still listed after the reads behind it.
  oplend-Reaches :
      (w : World Db)
      → Reaches a w.handler.contracts
      → Reaches a (get_latest_oplend_activity cfg pg_stores true w).handler.contracts
  unfolding get_latest_oplend_activity
  oplend-Reaches w h = Any-append_left _ w.handler.contracts _ h

  rewards-Reaches :
      (w : World Db)
      → Reaches a w.handler.contracts
      → Reaches a (get_latest_rewards_activity cfg pg_stores true w).handler.contracts
  unfolding get_latest_rewards_activity
  rewards-Reaches w h = elim (Option-cases (stellar_network cfg).rewards_address) [
    | inl e ↦ rw (get_latest_rewards_activity, e) h
    | inr (address, e) ↦
        rw (get_latest_rewards_activity, e) (Any-append_left _ w.handler.contracts _ h)
  ]

  factory-Reaches :
      (w : World Db)
      → w.store ≡ db
      → is_factory_type a.event_type ≡ true
      → Reaches a (get_latest_factory_activity cfg pg_stores true w).handler.contracts
  unfolding get_latest_factory_activity
  factory-Reaches w same typed =
      Any-append_right _ w.handler.contracts _ (inl (factory_block-Reached w same typed))

  rewards-Lists :
      (w : World Db) (address : Text)
      → w.store ≡ db
      → (stellar_network cfg).rewards_address ≡ some address
      → is_rewards_type a.event_type ≡ true
      → Reaches a (get_latest_rewards_activity cfg pg_stores true w).handler.contracts
  unfolding get_latest_rewards_activity get_rewards_latest_blocks
  rewards-Lists w address same e typed =
      let reached =
        max_block-keep (λ r. on_stellar r && is_rewards_type r.event_type) db.activity a ledgers
          there (ground (arith, stellar, typed)) in
      rw (get_latest_rewards_activity, e)
        (Any-append_right _ w.handler.contracts _ (
          inl (
            subst (λ (d : Db). Reached a (result_or (pos 0) (get_rewards_latest_blocks d)))
              (sym same) reached)))

  token-Reached :
      (row : OperationRow) (c : SupportedChains)
      → row.operation.id ≡ a.op_id
      → is_oplend_type a.event_type ≡ true
      → Reached a (token_contract db row.operation c.op_token).latest_block
  unfolding get_oplend_latest_blocks
  token-Reached row c id_eq typed =
      max_block-keep
        (λ r. on_stellar r && (r.op_id == row.operation.id && is_oplend_type r.event_type))
        db.activity a ledgers there
        (ground (arith, stellar, typed, id_eq, ==_iff a.op_id row.operation.id))

  op_data-store : (w : World Db) → (get_op_data cfg pg_stores true w).store ≡ w.store
  unfolding get_op_data Operations.get_all
  op_data-store w = refl

  factory-store :
      (w : World Db) → (get_latest_factory_activity cfg pg_stores true w).store ≡ w.store
  unfolding get_latest_factory_activity
  factory-store w = refl

  -- The contract that the row came from is listed, with a block at or behind the row's.
  discover-Reaches :
      IsWatched cfg db a → Reaches a (discover cfg pg_stores true (new_world db)).handler.contracts
  unfolding discover new_world
  discover-Reaches (by_factory typed) =
      let first : World Db = get_op_data cfg pg_stores true (new_world db) in
      let second : World Db = get_latest_factory_activity cfg pg_stores true first in
      let third : World Db = get_latest_rewards_activity cfg pg_stores true second in
      oplend-Reaches third
        (rewards-Reaches second (factory-Reaches first (op_data-store (new_world db)) typed))
  discover-Reaches (by_rewards address e typed) =
      let first : World Db = get_op_data cfg pg_stores true (new_world db) in
      let second : World Db = get_latest_factory_activity cfg pg_stores true first in
      let third : World Db = get_latest_rewards_activity cfg pg_stores true second in
      oplend-Reaches third
        (rewards-Lists second address (factory-store first ∙ op_data-store (new_world db)) e typed)
  discover-Reaches (by_token i j row fop c typed keyed at id_eq listed published chain soroban) =
      Any-imp _ _ (discover cfg pg_stores true (new_world db)).handler.contracts
        (λ x q.
          subst (λ (y : ObservableContract). Reached a y.latest_block) (sym q)
            (token-Reached row c id_eq typed))
        (discover-Any cfg (new_world db) i j row fop c keyed at listed published chain soroban)

  passed :
      (cs : List ObservableContract) (cursor : ℤ)
      → All (λ c. add_i32 c.latest_block (pos 1) ≤ℤ cursor) cs
      → Reaches a cs
      → a.block_number <ℤ cursor
  passed [] cursor h found = absurd found
  passed (c ∷ cs) cursor h (inr later) = passed cs cursor h.1 later
  passed (c ∷ cs) cursor h (inl (behind, (low, high))) =
      let one = add_i32-one c.latest_block (IsLedger-Fits c.latest_block (low, high)) high in
      omega (arith, behind, rw one at h.0, +ℤ_parts c.latest_block (pos 1))

-- A process that is started on stored tables begins behind everything that it has stored: if stored
-- ledgers are positive and have one behind them in an i32, then, when the loop has taken the first
-- command, its cursor is past the ledger of every stored Stellar row whose contract is the factory,
-- the configured rewards contract or the Soroban token of a published, uniquely keyed operation. What
-- is stored is not read again, and neither is anything else of the ledger of a stored row.
pub run-resumes :
    (cfg : LocalEnv) (db : Db) (a : Activity)
    → All (λ r. IsLedger r.block_number) db.activity
    → Any (λ r. r ≡ a) db.activity
    → on_stellar a ≡ true
    → IsWatched cfg db a
    → a.block_number <ℤ (drain cfg.start_ledger (run cfg db).loop (run cfg db).world.sent).cursor
unfolding run run_start drain apply_command new_world
run-resumes cfg db a ledgers there stellar watched =
    let found : World Db = discover cfg pg_stores true (new_world db) in
    let cs : List ObservableContract = found.handler.contracts in
    let first : IndexerCommand = update_contracts cs found.handler.fopid_to_dbopid in
    let (_, _, none_sent) = discover-contracts cfg (new_world db) in
    let sent : (run cfg db).world.sent ≡ first ∷ [] = ap (λ l. l ++ first ∷ []) none_sent in
    let reached =
      passed cfg db a ledgers there stellar cs
        (apply_command cfg.start_ledger (initial cfg) first).cursor
        (apply_command-le cfg.start_ledger (initial cfg) cs found.handler.fopid_to_dbopid).1
        (discover-Reaches cfg db a ledgers there stellar watched) in
    subst (λ l. a.block_number <ℤ (drain cfg.start_ledger (initial cfg) l).cursor) (sym sent)
      reached
