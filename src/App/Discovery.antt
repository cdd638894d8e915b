-- ===== src/App/Discovery.antt =====
-- crates/lw-app/src/handler.rs: the handler's data, and the contracts that it observes.
pub mod Listed
pub mod Finds
pub mod Known
use lend_worker_stellar.Base.{
  ℕ, ℤ, pos, ltb_ℤ, leb, ◌==◌, ◌%◌, Text, Bool, true, false, ◌&&◌, ◌||◌, all, any, if◌then◌else◌,
  HashMap, get, collect, values, nat_key, int_key, Option, none, some, List, [], ◌∷◌, ◌++◌, map,
  length, Result, ok, err, result_or,
}
use lend_worker_stellar.Config.Types.{
  Uuid, OpMapping, ObservableContract, ContractType, IndexerCommand, update_contracts,
}
use lend_worker_stellar.Config.Env.{LocalEnv, stellar_network}
use lend_worker_stellar.Domain.Operation.{Operation, SupportedChains}
use lend_worker_stellar.Storage.Stores.{Stores}

-- 56 characters of base32, the first of them a C or a G
unfoldable pub is_soroban_address : Text → Bool
is_soroban_address [] = false
is_soroban_address (c ∷ t) =
    length (c ∷ t) == 56
    && ((c == b'C' || c == b'G')
        && all (λ b. (leb b'A' b && leb b b'Z') || (leb b'2' b && leb b b'7')) (c ∷ t))

-- `Handler`; the sender of commands is there or not.
pub record Handler : Type 0 where
  pub fopid_to_dbopid : OpMapping
  pub op_data : HashMap Uuid Operation
  pub contracts : List ObservableContract
  pub has_sender : Bool

-- The handler, the stores' state, and the commands sent to the event loop.
pub record World (S : Type 0) : Type 0 where
  pub handler : Handler
  pub store : S
  pub sent : List IndexerCommand

-- the `filter_map` of `get_op_data`
unfoldable pub mapped : List Operation → List (ℤ × Uuid)
mapped [] = []
mapped (o ∷ l) =
    let rest = mapped l in elim o.factory_op_id [ none ↦ rest | some fop ↦ (fop, o.id) ∷ rest ]

-- The configuration, the stores, and whether the loop still receives commands.
module _ {S : Type 0} (cfg : LocalEnv) (stores : Stores S) (is_open : Bool) where
  unfoldable pub get_op_data : World S → World S
  unfolding mapped collect
  get_op_data w = elim (stores.operations.get_all w.store) [
    | err e ↦ w
    | ok ops ↦ record w {
      handler = record w.handler {
        fopid_to_dbopid = collect (mapped ops);
        op_data = collect (map (λ o. (o.id, o)) ops);
      };
    }
  ]

  -- `self.contracts.push(..)`
  abbrev pub push : List ObservableContract → World S → World S
  push cs w = record w { handler = record w.handler { contracts = w.handler.contracts ++ cs } }

  unfoldable pub factory_block : World S → ℤ
  factory_block w = elim (stores.activity.get_factory_latest_block w.store) [
    | err e ↦ (stellar_network cfg).factory_start_ledger
    | ok b ↦ if ltb_ℤ (pos 0) b then b else (stellar_network cfg).factory_start_ledger
  ]

  unfoldable pub get_latest_factory_activity : World S → World S
  unfolding factory_block stellar_network
  get_latest_factory_activity w =
      push
        (record {
          contract_type = ContractType.factory;
          address = (stellar_network cfg).factory_contract_id;
          op_id = none;
          fop_id = none;
          latest_block = factory_block w;
        }
          ∷ [])
        w

  unfoldable pub get_latest_rewards_activity : World S → World S
  unfolding stellar_network
  get_latest_rewards_activity w = elim (stellar_network cfg).rewards_address [
    | none ↦ w
    | some address ↦
        push
          (record {
            contract_type = ContractType.rewards;
            op_id = none;
            fop_id = none;
            address = address;
            latest_block = result_or (pos 0) (stores.activity.get_rewards_latest_blocks w.store);
          }
            ∷ [])
          w
  ]

  -- the inner `for`, over an operation's chains
  unfoldable pub chain_contracts : S → Operation → List SupportedChains → List ObservableContract
  unfolding is_soroban_address
  chain_contracts s op [] = []
  chain_contracts s op (c ∷ l) =
      let rest = chain_contracts s op l in
      if is_soroban_address c.op_token
      then record {
        contract_type = ContractType.op_lend;
        op_id = some op.id;
        fop_id = op.factory_op_id;
        address = c.op_token;
        latest_block = result_or (pos 0) (stores.activity.get_oplend_latest_blocks op.id s);
      }
        ∷ rest
      else rest

  -- the outer `for`, over the operations
  unfoldable pub oplend_contracts : S → List Operation → List ObservableContract
  unfolding chain_contracts
  oplend_contracts s [] = []
  oplend_contracts s (op ∷ l) = chain_contracts s op op.supported_chains ++ oplend_contracts s l

  unfoldable pub get_latest_oplend_activity : World S → World S
  unfolding oplend_contracts values
  get_latest_oplend_activity w = push (oplend_contracts w.store (values w.handler.op_data)) w

  -- `tx.send(UpdateContracts(..))`
  abbrev pub send : World S → World S
  send w =
      if is_open
      then record w {
        sent = w.sent ++ update_contracts w.handler.contracts w.handler.fopid_to_dbopid ∷ [];
      }
      else w

  -- the four reads, in the order of `run` and of `refresh_data`
  unfoldable pub discover : World S → World S
  unfolding get_op_data get_latest_factory_activity get_latest_rewards_activity
      get_latest_oplend_activity
  discover w =
      get_latest_oplend_activity
        (get_latest_rewards_activity (get_latest_factory_activity (get_op_data w)))

  -- `refresh_data(self.tx_cmd.clone())`
  unfoldable pub refresh_data : World S → World S
  unfolding discover
  refresh_data w =
      if w.handler.has_sender
      then send (discover (record w { handler = record w.handler { contracts = [] } }))
      else w

  -- `run`, up to the loop that receives events
  unfoldable pub run_start : World S → World S
  unfolding discover
  run_start w =
      let found = discover w in
      send (record found { handler = record found.handler { has_sender = true } })
