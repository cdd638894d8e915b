-- ===== src/App/Discovery/Known/Steps.antt =====
-- Each step of the discovery keeps what is known.
use lend_worker_stellar.Base.{
  Bool, true, false, Bool-cases, ◌&&◌, if◌then◌else◌, values, is_empty, All-collect, All-values,
  nat_key, int_key, List, [], All, All-append, ◌≡◌, refl, ◌∙◌, inl, inr,
}
use lend_worker_stellar.Config.Types.{ObservableContract}
use lend_worker_stellar.Config.Env.{LocalEnv}
use lend_worker_stellar.Domain.Operation.{Operation}
use lend_worker_stellar.Storage.Tables.{Db, has_operation}
use lend_worker_stellar.Storage.Operations
use lend_worker_stellar.Storage.Operations.{has_id}
use lend_worker_stellar.Storage.Stores.{pg_stores}
use lend_worker_stellar.App.Discovery.{
  World, get_op_data, push, get_latest_factory_activity, get_latest_rewards_activity,
  get_latest_oplend_activity, discover, refresh_data, run_start, send,
}
use lend_worker_stellar.App.Discovery.Known.{
  KnownContract, KnownCommand, IsKnown, rows-known, returned-known, mapped-known, entries-known,
  oplend_contracts-known,
}

-- What a step of the discovery does: the tables stay, and what is known stays known.
pub record Discovers (w w' : World Db) : Type 0 where
  pub store_eq : w'.store ≡ w.store
  pub known :
      IsKnown w.store.operations w.handler w.sent → IsKnown w'.store.operations w'.handler w'.sent

Discovers-trans : {u v w : World Db} → Discovers u v → Discovers v w → Discovers u w
Discovers-trans a b = record {
  store_eq = b.store_eq ∙ a.store_eq;
  known = λ k. b.known (a.known k);
}

if-Discovers : (b : Bool) (w w' : World Db) → Discovers w w' → Discovers w (if b then w' else w)
if-Discovers true w w' h = h
if-Discovers false w w' h = record { store_eq = refl; known = λ k. k }

module _ (cfg : LocalEnv) (is_open : Bool) where
  push-Discovers :
      (cs : List ObservableContract) (w : World Db)
      → All (KnownContract w.store.operations) cs
      → Discovers w (push cfg pg_stores is_open cs w)
  push-Discovers cs w h = record {
    store_eq = refl;
    known = λ k. record {
      mapping = k.mapping;
      op_data = k.op_data;
      contracts =
          All-append (KnownContract w.store.operations) w.handler.contracts cs k.contracts h;
      commands = k.commands;
    };
  }

  get_op_data-Discovers : (w : World Db) → Discovers w (get_op_data cfg pg_stores is_open w)
  unfolding get_op_data Operations.get_all
  get_op_data-Discovers w =
      let ops = w.store.operations in
      let shown =
        returned-known ops (λ r. has_id r.operation.factory_op_id && r.published) ops
          (rows-known ops) in
      record {
        store_eq = refl;
        known = λ k. record {
          mapping = All-collect (λ id. has_operation ops id ≡ true) _ (mapped-known ops _ shown);
          op_data =
              All-collect (λ (o : Operation). has_operation ops o.id ≡ true) _
                (entries-known ops _ shown);
          contracts = k.contracts;
          commands = k.commands;
        };
      }

  get_latest_factory_activity-Discovers :
      (w : World Db) → Discovers w (get_latest_factory_activity cfg pg_stores is_open w)
  unfolding get_latest_factory_activity
  get_latest_factory_activity-Discovers w = push-Discovers _ w ((λ id e. cc), tt)

  get_latest_rewards_activity-Discovers :
      (w : World Db) → Discovers w (get_latest_rewards_activity cfg pg_stores is_open w)
  unfolding get_latest_rewards_activity
  get_latest_rewards_activity-Discovers w = elim (Bool-cases (is_empty cfg.rewards_contract_id)) [
    | inl e ↦ rw (get_latest_rewards_activity, e) (record { store_eq = refl; known = λ k. k })
    | inr e ↦ rw (get_latest_rewards_activity, e) (push-Discovers _ w ((λ id e. cc), tt))
  ]

  get_latest_oplend_activity-Discovers :
      (w : World Db)
      → All (λ p. has_operation w.store.operations p.1.id ≡ true) w.handler.op_data
      → Discovers w (get_latest_oplend_activity cfg pg_stores is_open w)
  unfolding get_latest_oplend_activity
  get_latest_oplend_activity-Discovers w h = push-Discovers _ w (
      oplend_contracts-known cfg is_open w.store (values w.handler.op_data)
        (All-values (λ o. has_operation w.store.operations o.id ≡ true) w.handler.op_data h))

  discover-Discovers : (w : World Db) → Discovers w (discover cfg pg_stores is_open w)
  unfolding discover
  discover-Discovers w =
      let first : World Db = get_op_data cfg pg_stores is_open w in
      let second : World Db = get_latest_factory_activity cfg pg_stores is_open first in
      let third : World Db = get_latest_rewards_activity cfg pg_stores is_open second in
      let reads = Discovers-trans (get_op_data-Discovers w) (
        Discovers-trans (get_latest_factory_activity-Discovers first)
          (get_latest_rewards_activity-Discovers second)) in
      record {
        store_eq = reads.store_eq;
        known = λ k.
            (get_latest_oplend_activity-Discovers third (reads.known k).op_data).known
              (reads.known k);
      }

  send-Discovers : (w : World Db) → Discovers w (send cfg pg_stores is_open w)
  send-Discovers w = if-Discovers is_open w _ (record {
    store_eq = refl;
    known = λ k. record {
      mapping = k.mapping;
      op_data = k.op_data;
      contracts = k.contracts;
      commands =
          All-append (KnownCommand w.store.operations) w.sent _ k.commands
            ((k.contracts, k.mapping), tt);
    };
  })

  pub refresh_data-Discovers : (w : World Db) → Discovers w (refresh_data cfg pg_stores is_open w)
  unfolding refresh_data
  refresh_data-Discovers w =
      let cleared : World Db = record w { handler = record w.handler { contracts = [] } } in
      let found = discover-Discovers cleared in
      let sent = send-Discovers (discover cfg pg_stores is_open cleared) in
      if-Discovers w.handler.has_sender w _ (record {
        store_eq = sent.store_eq ∙ found.store_eq;
        known = λ k. sent.known (
            found.known (record {
              mapping = k.mapping;
              op_data = k.op_data;
              contracts = tt;
              commands = k.commands;
            }));
      })

  pub run_start-Discovers : (w : World Db) → Discovers w (run_start cfg pg_stores is_open w)
  unfolding run_start
  run_start-Discovers w =
      let found = discover-Discovers w in
      let started : World Db = record (discover cfg pg_stores is_open w) {
        handler = record (discover cfg pg_stores is_open w).handler { has_sender = true };
      } in
      let sent = send-Discovers started in
      record {
        store_eq = sent.store_eq ∙ found.store_eq;
        known = λ k. sent.known (record {
          mapping = (found.known k).mapping;
          op_data = (found.known k).op_data;
          contracts = (found.known k).contracts;
          commands = (found.known k).commands;
        });
      }
