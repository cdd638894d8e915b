-- ===== src/App/Discovery/Finds.antt =====
-- A refresh finds every token that is recorded for a published operation.
use lend_worker_stellar.Base.{
  ℕ, zero, suc, ℤ, Text, Bool, true, Bool-cases, if◌then◌else◌, HashMap, values, collect, nat_key,
  some, List, [], ◌∷◌, ◌++◌, map, get_elem?, Any, Any-imp, result_or, pos, Any-append_left,
  Any-append_right, ◌≡◌, refl, sym, ap, ◌∙◌, inl, inr, arith,
}
use mathlib.Core.Path.{subst}
use lend_worker_stellar.Config.Types.{
  ContractType, Uuid, OpMapping, ObservableContract, IndexerCommand, update_contracts,
}
use lend_worker_stellar.Config.Env.{LocalEnv}
use lend_worker_stellar.Domain.Operation.{Operation, SupportedChains}
use lend_worker_stellar.Storage.Tables.{Db, OperationRow}
use lend_worker_stellar.Storage.Latest.{get_oplend_latest_blocks}
use lend_worker_stellar.Storage.Operations.{has_id}
use lend_worker_stellar.Storage.Operations
use lend_worker_stellar.Storage.Operations.Keyed.{IsKeyed}
use lend_worker_stellar.Storage.Stores.{pg_stores}
use lend_worker_stellar.App.Discovery.{
  World, is_soroban_address, chain_contracts, oplend_contracts, get_op_data,
  get_latest_factory_activity, get_latest_rewards_activity, get_latest_oplend_activity, discover,
  refresh_data,
}
use lend_worker_stellar.App.Discovery.Listed.{
  shown, returned, collect_from, get-collect_from, values-Any,
}

-- The contract observes the token for the operation.
abbrev pub Observes : Text → Uuid → ObservableContract → Type 0
Observes token id c = (c.address ≡ token) × (c.op_id ≡ some id)

-- The contract of an operation's token, by the tables.
abbrev pub token_contract : Db → Operation → Text → ObservableContract
token_contract s op token = record {
  contract_type = ContractType.op_lend;
  op_id = some op.id;
  fop_id = op.factory_op_id;
  address = token;
  latest_block = result_or (pos 0) (get_oplend_latest_blocks op.id s);
}

module _ (cfg : LocalEnv) (s : Db) where
  chain_contracts-Any :
      (op : Operation) (chains : List SupportedChains) (j : ℕ) (c : SupportedChains)
      → get_elem? chains j ≡ some c
      → is_soroban_address c.op_token ≡ true
      → Any
          (λ x. x ≡ token_contract s op c.op_token)
          (chain_contracts cfg pg_stores true s op chains)
  unfolding chain_contracts
  chain_contracts-Any op [] j c e h = cc
  chain_contracts-Any op (d ∷ l) zero c e h =
      let q : d ≡ c = cc in
      subst
        (λ x.
          Any (λ y. y ≡ token_contract s op x.op_token)
            (chain_contracts cfg pg_stores true s op (d ∷ l)))
        q
        (rw (chain_contracts, ap (λ (x : SupportedChains). is_soroban_address x.op_token) q ∙ h)
          (inl refl))
  chain_contracts-Any op (d ∷ l) (suc j) c e h =
      let rest = chain_contracts-Any op l j c e h in
      elim (Bool-cases (is_soroban_address d.op_token)) [
        | inl t ↦ rw (chain_contracts, t) (inr rest)
        | inr f ↦ rw (chain_contracts, f) rest
      ]

  oplend_contracts-Any :
      (ops : List Operation) (op : Operation) (j : ℕ) (c : SupportedChains)
      → Any (λ o. o ≡ op) ops
      → get_elem? op.supported_chains j ≡ some c
      → is_soroban_address c.op_token ≡ true
      → Any (λ x. x ≡ token_contract s op c.op_token) (oplend_contracts cfg pg_stores true s ops)
  unfolding oplend_contracts
  oplend_contracts-Any [] op j c there e h = absurd there
  oplend_contracts-Any (o ∷ ops) op j c (inl q) e h =
      Any-append_left (λ x. x ≡ token_contract s op c.op_token)
        (chain_contracts cfg pg_stores true s o o.supported_chains)
        (oplend_contracts cfg pg_stores true s ops)
        (subst
          (λ x.
            Any (λ y. y ≡ token_contract s op c.op_token)
              (chain_contracts cfg pg_stores true s x x.supported_chains))
          (sym q) (chain_contracts-Any op op.supported_chains j c e h))
  oplend_contracts-Any (o ∷ ops) op j c (inr later) e h =
      Any-append_right (λ x. x ≡ token_contract s op c.op_token)
        (chain_contracts cfg pg_stores true s o o.supported_chains)
        (oplend_contracts cfg pg_stores true s ops) (oplend_contracts-Any ops op j c later e h)

if-true : {A : Type 0} (b : Bool) (x y : A) → b ≡ true → (if b then x else y) ≡ x
if-true b x y h = rw h

module _ (cfg : LocalEnv) where
  rewards-keeps :
      (w : World Db)
      → ((get_latest_rewards_activity cfg pg_stores true w).store ≡ w.store)
        × ((get_latest_rewards_activity cfg pg_stores true w).handler.op_data ≡ w.handler.op_data)
        × ((get_latest_rewards_activity cfg pg_stores true w).sent ≡ w.sent)
  unfolding get_latest_rewards_activity
  rewards-keeps w = ground arith

  -- The map of operations that the reads build.
  abbrev read_operations : World Db → HashMap Uuid Operation
  read_operations w = collect (map (λ (o : Operation). (o.id, o)) (returned w.store.operations))

  pub discover-contracts :
      (w : World Db)
      → (before : List ObservableContract) × ((discover cfg pg_stores true w).handler.contracts
          ≡ before ++ oplend_contracts cfg pg_stores true w.store (values (read_operations w)))
        × ((discover cfg pg_stores true w).sent ≡ w.sent)
  unfolding discover get_latest_oplend_activity get_latest_factory_activity get_op_data
      Operations.get_all
  discover-contracts w =
      let second : World Db =
        get_latest_factory_activity cfg pg_stores true (get_op_data cfg pg_stores true w) in
      let third : World Db = get_latest_rewards_activity cfg pg_stores true second in
      let (store, ops, sent) = rewards-keeps second in
      (
        third.handler.contracts,
        ap
              (λ (d : Db).
                third.handler.contracts
                ++ oplend_contracts cfg pg_stores true d (values third.handler.op_data))
              store
            ∙ ap
                (λ (m : HashMap Uuid Operation).
                  third.handler.contracts ++ oplend_contracts cfg pg_stores true w.store (values m))
                ops,
        sent,
      )

  -- The reads list every token that is recorded for a published operation with a factory id and is
  -- a Soroban address.
  pub discover-Any :
      (w : World Db) (i j : ℕ) (row : OperationRow) (fop : ℤ) (c : SupportedChains)
      → IsKeyed w.store.operations
      → get_elem? w.store.operations i ≡ some row
      → row.operation.factory_op_id ≡ some fop
      → row.published ≡ true
      → get_elem? row.operation.supported_chains j ≡ some c
      → is_soroban_address c.op_token ≡ true
      → Any
          (λ x. x ≡ token_contract w.store row.operation c.op_token)
          (discover cfg pg_stores true w).handler.contracts
  unfolding collect collect_from
  discover-Any w i j row fop c keyed at listed published chain soroban =
      let (before, shape, _) = discover-contracts w in
      let seen : shown row ≡ true = rw (listed, published) refl in
      let there =
        values-Any row.operation.id row.operation (read_operations w)
          (get-collect_from w.store.operations i row [] keyed at seen) in
      subst (Any (λ x. x ≡ token_contract w.store row.operation c.op_token)) (sym shape) (
        Any-append_right _ before
          (oplend_contracts cfg pg_stores true w.store (values (read_operations w)))
          (oplend_contracts-Any cfg w.store (values (read_operations w)) row.operation j c there
            chain soroban))

  -- With the Postgres stores, unique operation ids, and a loop that receives commands, a refresh tells
  -- the loop to observe every token that is recorded for a published operation with a factory id and
  -- is a Soroban address: the command that it sends lists a contract with the token's address and
  -- the operation's id.
  pub refresh_data-Observes :
      (w : World Db) (i j : ℕ) (row : OperationRow) (fop : ℤ) (c : SupportedChains)
      → IsKeyed w.store.operations
      → w.handler.has_sender ≡ true
      → get_elem? w.store.operations i ≡ some row
      → row.operation.factory_op_id ≡ some fop
      → row.published ≡ true
      → get_elem? row.operation.supported_chains j ≡ some c
      → is_soroban_address c.op_token ≡ true
      → (cs : List ObservableContract) × (mapping : OpMapping) × ((refresh_data cfg pg_stores true
            w).sent
          ≡ w.sent ++ update_contracts cs mapping ∷ [])
        × Any (Observes c.op_token row.operation.id) cs
  unfolding refresh_data
  refresh_data-Observes w i j row fop c keyed sender at listed published chain soroban =
      let fresh : World Db = record w { handler = record w.handler { contracts = [] } } in
      let (_, _, sent) = discover-contracts fresh in
      let found = discover-Any fresh i j row fop c keyed at listed published chain soroban in
      (
        (discover cfg pg_stores true fresh).handler.contracts,
        (discover cfg pg_stores true fresh).handler.fopid_to_dbopid,
        ap (λ (x : World Db). x.sent) (if-true w.handler.has_sender _ w sender)
            ∙ ap
                (λ (l : List IndexerCommand).
                  l
                  ++ update_contracts (discover cfg pg_stores true fresh).handler.contracts
                      (discover cfg pg_stores true fresh).handler.fopid_to_dbopid
                    ∷ [])
                sent,
        Any-imp _ (Observes c.op_token row.operation.id)
            (discover cfg pg_stores true fresh).handler.contracts
            (λ x q. (
              ap (λ (y : ObservableContract). y.address) q,
              ap (λ (y : ObservableContract). y.op_id) q,
            ))
            found,
      )
