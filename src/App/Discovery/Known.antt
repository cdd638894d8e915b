-- ===== src/App/Discovery/Known.antt =====
-- The handler's maps, and the commands that it sends, name stored operations only.
pub mod Steps
use mathlib.Core.Path.{subst}
use lend_worker_stellar.Base.{
  ==_iff, Bool, true, false, Bool-cases, ◌&&◌, keep, if◌then◌else◌, values, is_empty, All-collect,
  All-values, nat_key, int_key, some, Option-cases, List, [], ◌∷◌, map, All, All-append, All-imp,
  ◌≡◌, refl, ◌∙◌, inl, inr, arith,
}
use lend_worker_stellar.Config.Types.{
  Uuid, OpMapping, ObservableContract, IndexerCommand, update_contracts,
}
use lend_worker_stellar.Config.Env.{LocalEnv}
use lend_worker_stellar.Domain.Operation.{Operation, SupportedChains}
use lend_worker_stellar.Storage.Tables.{Db, OperationRow, has_operation}
use lend_worker_stellar.Storage.Operations
use lend_worker_stellar.Storage.Operations.{has_id}
use lend_worker_stellar.Storage.Operations.Extends.{Extends}
use lend_worker_stellar.Storage.Stores.{pg_stores}
use lend_worker_stellar.App.Discovery.{
  Handler, World, mapped, get_op_data, push, chain_contracts, oplend_contracts,
  get_latest_factory_activity, get_latest_rewards_activity, get_latest_oplend_activity, discover,
  refresh_data, run_start, send, is_soroban_address,
}

abbrev pub KnownMapping : List OperationRow → OpMapping → Type 0
KnownMapping ops mapping = All (λ p. has_operation ops p.1 ≡ true) mapping

abbrev pub KnownContract : List OperationRow → ObservableContract → Type 0
KnownContract ops c = (id : Uuid) → c.op_id ≡ some id → has_operation ops id ≡ true

abbrev pub KnownCommand : List OperationRow → IndexerCommand → Type 0
KnownCommand ops (update_contracts cs mapping) =
    All (KnownContract ops) cs × KnownMapping ops mapping

-- The handler and its commands name operations that the table has.
pub record IsKnown (ops : List OperationRow) (h : Handler) (sent : List IndexerCommand)
    : Type 0 where
  pub mapping : KnownMapping ops h.fopid_to_dbopid
  pub op_data : All (λ p. has_operation ops p.1.id ≡ true) h.op_data
  pub contracts : All (KnownContract ops) h.contracts
  pub commands : All (KnownCommand ops) sent

pub KnownMapping-Extends :
    (ops ops' : List OperationRow) (mapping : OpMapping)
    → Extends ops ops'
    → KnownMapping ops mapping
    → KnownMapping ops' mapping
KnownMapping-Extends ops ops' mapping e k = All-imp _ _ mapping (λ p h. e p.1 h) k

pub KnownContract-Extends :
    (ops ops' : List OperationRow) (cs : List ObservableContract)
    → Extends ops ops'
    → All (KnownContract ops) cs
    → All (KnownContract ops') cs
KnownContract-Extends ops ops' cs e k = All-imp _ _ cs (λ c h id q. e id (h id q)) k

pub KnownCommand-Extends :
    (ops ops' : List OperationRow) (sent : List IndexerCommand)
    → Extends ops ops'
    → All (KnownCommand ops) sent
    → All (KnownCommand ops') sent
KnownCommand-Extends ops ops' [] e k = tt
KnownCommand-Extends ops ops' (update_contracts cs mapping ∷ sent) e k = (
  (KnownContract-Extends ops ops' cs e k.0.0, KnownMapping-Extends ops ops' mapping e k.0.1),
  KnownCommand-Extends ops ops' sent e k.1,
)

pub IsKnown-Extends :
    (ops ops' : List OperationRow) (h : Handler) (sent : List IndexerCommand)
    → Extends ops ops'
    → IsKnown ops h sent
    → IsKnown ops' h sent
IsKnown-Extends ops ops' h sent e k = record {
  mapping = KnownMapping-Extends ops ops' h.fopid_to_dbopid e k.mapping;
  op_data = All-imp _ _ h.op_data (λ p q. e p.1.id q) k.op_data;
  contracts = KnownContract-Extends ops ops' h.contracts e k.contracts;
  commands = KnownCommand-Extends ops ops' sent e k.commands;
}

-- Every row is that of a known operation.
pub rows-known : (ops : List OperationRow) → All (λ r. has_operation ops r.operation.id ≡ true) ops
rows-known [] = tt
rows-known (r ∷ ops) = (
  ground (arith, ==_iff r.operation.id r.operation.id),
  All-imp _ _ ops (λ x h. ground (arith, h)) (rows-known ops),
)

pub returned-known :
    (ops : List OperationRow) (p : OperationRow → Bool) (rows : List OperationRow)
    → All (λ r. has_operation ops r.operation.id ≡ true) rows
    → All (λ (o : Operation). has_operation ops o.id ≡ true) (map (λ r. r.operation) (keep p rows))
returned-known ops p [] h = tt
returned-known ops p (r ∷ rows) h = elim (Bool-cases (p r)) [
  | inl shown ↦ rw shown (h.0, returned-known ops p rows h.1)
  | inr hidden ↦ rw hidden (returned-known ops p rows h.1)
]

pub mapped-known :
    (ops : List OperationRow) (l : List Operation)
    → All (λ o. has_operation ops o.id ≡ true) l
    → KnownMapping ops (mapped l)
unfolding mapped
mapped-known ops [] h = tt
mapped-known ops (o ∷ l) h = elim (Option-cases o.factory_op_id) [
  | inl e ↦ rw (mapped, e) (mapped-known ops l h.1)
  | inr (fop, e) ↦ rw (mapped, e) (h.0, mapped-known ops l h.1)
]

pub entries-known :
    (ops : List OperationRow) (l : List Operation)
    → All (λ o. has_operation ops o.id ≡ true) l
    → All
        (λ (p : Uuid × Operation). has_operation ops p.1.id ≡ true)
        (map (λ (o : Operation). (o.id, o)) l)
entries-known ops [] h = tt
entries-known ops (o ∷ l) h = (h.0, entries-known ops l h.1)

module _ (cfg : LocalEnv) (is_open : Bool) (db : Db) where
  chain_contracts-known :
      (op : Operation) (chains : List SupportedChains)
      → has_operation db.operations op.id ≡ true
      → All (KnownContract db.operations) (chain_contracts cfg pg_stores is_open db op chains)
  unfolding chain_contracts
  chain_contracts-known op [] h = tt
  chain_contracts-known op (c ∷ chains) h = elim (Bool-cases (is_soroban_address c.op_token)) [
    | inr other ↦ rw (chain_contracts, other) (chain_contracts-known op chains h)
    | inl soroban ↦
        rw (chain_contracts, soroban)
          (
            (λ id e.
                let q : op.id ≡ id = cc in subst (λ x. has_operation db.operations x ≡ true) q h),
            chain_contracts-known op chains h,
          )
  ]

  pub oplend_contracts-known :
      (l : List Operation)
      → All (λ o. has_operation db.operations o.id ≡ true) l
      → All (KnownContract db.operations) (oplend_contracts cfg pg_stores is_open db l)
  unfolding oplend_contracts
  oplend_contracts-known [] h = tt
  oplend_contracts-known (op ∷ l) h =
      All-append (KnownContract db.operations)
        (chain_contracts cfg pg_stores is_open db op op.supported_chains)
        (oplend_contracts cfg pg_stores is_open db l)
        (chain_contracts-known op op.supported_chains h.0) (oplend_contracts-known l h.1)
