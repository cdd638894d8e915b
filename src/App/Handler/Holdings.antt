-- ===== src/App/Handler/Holdings.antt =====
-- The fiat holdings that a batch leaves, in terms of `fiat_holding`.
pub mod Listed
use mathlib.Core.List.{foldl, append_assoc, append-nil}
use lend_worker_stellar.Base.{
  ℤ, Bool, false, Bool-cases, keep, HashMap, Option, none, some, Option-cases, List, [], ◌∷◌, ◌++◌,
  Result, ok, err, Result-cases, ◌≡◌, refl, sym, ap, ◌∙◌, inl, inr,
}
use lend_worker_stellar.Config.Env.{LocalEnv}
use lend_worker_stellar.Domain.Operation.{Time, FiatHolding}
use lend_worker_stellar.Domain.Activity.{
  Activity, ActivityEventType, refreshes_factory, factory_needs_refresh,
}
use lend_worker_stellar.Storage.Tables.{Db}
use lend_worker_stellar.Storage.Activities.{insert_many, get_operation_status_history}
use lend_worker_stellar.Storage.Activities.Fresh.{insert_many-keeps}
use lend_worker_stellar.Storage.Operations.{
  get_ongoing_operations, get_unfinished_operations, add_first_chain, insert_holding,
}
use lend_worker_stellar.Storage.Stores.{pg_stores}
use lend_worker_stellar.App.Discovery.{World, refresh_data}
use lend_worker_stellar.App.Discovery.Known.Steps.{refresh_data-Discovers}
use lend_worker_stellar.App.Handler.{
  write, query_progress, progress_updates, sync_op_progress, stellar_chain_is_primary,
  write_statuses, write_primary, sync_statuses, fiat_holding, sync_event, sync_op_status,
  process_events,
}
use lend_worker_stellar.App.Handler.Synced.{sync_op_progress-Settles}
use lend_worker_stellar.Storage.Operations.Keyed.{unfinished, unfinished-StillAs}
use lend_worker_stellar.Storage.Operations.Frame.{
  update_operation_progress-holdings, update_operation_status-holdings, add_first_chain-holdings,
}

module _ (cfg : LocalEnv) (now : Time) (is_open : Bool) where
  -- The holdings of a batch: those of its fiat investments, in order.
  abbrev pub holding_of : Activity → Option FiatHolding
  holding_of e = elim e.event_type [
    | ActivityEventType.invested_fiat ↦ fiat_holding cfg now pg_stores is_open e
    | _ ↦ none
  ]

  unfoldable pub holdings : List Activity → List FiatHolding
  unfolding fiat_holding
  holdings [] = []
  holdings (e ∷ events) =
      let rest = holdings events in elim (holding_of e) [ none ↦ rest | some h ↦ h ∷ rest ]

  write-holdings :
      (w : World Db) (r : Result Db)
      → ((db' : Db) → r ≡ ok db' → db'.fiat_holdings ≡ w.store.fiat_holdings)
      → (write cfg now pg_stores is_open w r).store.fiat_holdings ≡ w.store.fiat_holdings
  write-holdings w (ok db') h = h db' refl
  write-holdings w (err e) h = refl

  sync_op_progress-holdings :
      (w : World Db)
      → (sync_op_progress cfg now pg_stores is_open w).store.fiat_holdings ≡ w.store.fiat_holdings
  unfolding sync_op_progress
  sync_op_progress-holdings w = elim (Result-cases (get_ongoing_operations w.store)) [
    | inr (m, e) ↦ rw (sync_op_progress, e) refl
    | inl ([], e) ↦ rw (sync_op_progress, e) refl
    | inl (op ∷ ops, e) ↦
        elim (Result-cases (query_progress cfg now pg_stores is_open (op ∷ ops) w.store)) [
          | inr (m, q) ↦ rw (sync_op_progress, e, q) refl
          | inl (p, q) ↦
              rw (sync_op_progress, e, q)
                (write-holdings w _
                  (update_operation_progress-holdings (progress_updates p (op ∷ ops)) w.store))
        ]
  ]

  write_statuses-holdings :
      (w : World Db) (mine : HashMap ℤ ActivityEventType)
      → (write_statuses cfg now pg_stores is_open w mine).store.fiat_holdings
        ≡ w.store.fiat_holdings
  write_statuses-holdings w [] = refl
  write_statuses-holdings w (p ∷ mine) =
      write-holdings w _ (update_operation_status-holdings (p ∷ mine) w.store)

  sync_statuses-holdings :
      (ops : List ℤ) (w : World Db)
      → (sync_statuses cfg now pg_stores is_open ops w).store.fiat_holdings ≡ w.store.fiat_holdings
  unfolding sync_statuses write_primary
  sync_statuses-holdings ops w = elim (Result-cases (get_operation_status_history ops w.store)) [
    | inr (m, e) ↦ rw (sync_statuses, e) refl
    | inl (statuses, e) ↦
        rw (sync_statuses, e)
          (write_statuses-holdings w
            (keep (λ p. stellar_chain_is_primary cfg now pg_stores is_open w.handler p.0) statuses))
  ]

  created-holdings :
      (w : World Db) (event : Activity)
      → (refresh_data cfg pg_stores is_open (
          write cfg now pg_stores is_open w
            (add_first_chain event.factory_op_id event.payload w.store))).store.fiat_holdings
        ≡ w.store.fiat_holdings
  created-holdings w event =
      let chained : World Db =
        write cfg now pg_stores is_open w
          (add_first_chain event.factory_op_id event.payload w.store) in
      ap (λ (x : Db). x.fiat_holdings) (refresh_data-Discovers cfg is_open chained).store_eq
      ∙ write-holdings w (add_first_chain event.factory_op_id event.payload w.store)
          (add_first_chain-holdings event.factory_op_id event.payload w.store)

  -- Each event adds its own.
  by_type :
      (w : World Db) (e : Activity) (events : List Activity) (t : ActivityEventType)
      → e.event_type ≡ t
      → (sync_event cfg now pg_stores is_open w e).store.fiat_holdings ++ holdings events
        ≡ w.store.fiat_holdings ++ holdings (e ∷ events)
  unfolding sync_event holdings insert_holding
  by_type w e events ActivityEventType.op_created q =
      rw (sync_event, holdings, q) (ap (λ l. l ++ holdings events) (created-holdings w e))
  by_type w e events ActivityEventType.invested_fiat q =
      elim (Option-cases (fiat_holding cfg now pg_stores is_open e)) [
        | inl n ↦ rw (sync_event, holdings, q, n) refl
        | inr (h, n) ↦
            rw (sync_event, holdings, q, n)
              (append_assoc w.store.fiat_holdings (h ∷ []) (holdings events))
      ]
  by_type w e events t q = rw (sync_event, holdings, q) refl

  sync_events-holdings :
      (events : List Activity) (w : World Db)
      → (foldl (sync_event cfg now pg_stores is_open) w events).store.fiat_holdings
        ≡ w.store.fiat_holdings ++ holdings events
  unfolding holdings
  sync_events-holdings [] w = sym (append-nil w.store.fiat_holdings)
  sync_events-holdings (e ∷ events) w =
      sync_events-holdings events (sync_event cfg now pg_stores is_open w e)
      ∙ by_type w e events e.event_type refl

  -- What the syncs keep of a batch: all its holdings while an operation is unfinished, and none else.
  abbrev pub held : List ℤ → List Activity → List FiatHolding
  held [] events = []
  held (op ∷ ops) events = holdings events

  sync_op_status-holdings :
      (events : List Activity) (w : World Db)
      → (sync_op_status cfg now pg_stores is_open events w).store.fiat_holdings
        ≡ w.store.fiat_holdings ++ held (unfinished w.store.operations) events
  unfolding sync_op_status get_unfinished_operations
  sync_op_status-holdings events w = by_ids (unfinished w.store.operations) refl
    where
      by_ids :
          (ids : List ℤ)
          → unfinished w.store.operations ≡ ids
          → (sync_op_status cfg now pg_stores is_open events w).store.fiat_holdings
            ≡ w.store.fiat_holdings ++ held (unfinished w.store.operations) events
      by_ids [] e = rw (sync_op_status, e) (sym (append-nil w.store.fiat_holdings))
      by_ids (op ∷ ops) e =
          rw (sync_op_status, e)
            (sync_events-holdings events (sync_statuses cfg now pg_stores is_open (op ∷ ops) w)
              ∙ ap (λ l. l ++ holdings events) (sync_statuses-holdings (op ∷ ops) w))

  held-none : (ids : List ℤ) (events : List Activity) → holdings events ≡ [] → held ids events ≡ []
  held-none [] events h = refl
  held-none (op ∷ ops) events h = h

  quiet_event :
      (e : Activity) (events : List Activity) (t : ActivityEventType)
      → e.event_type ≡ t
      → factory_needs_refresh (e ∷ events) ≡ false
      → holding_of e ≡ none
  unfolding factory_needs_refresh
  quiet_event e events ActivityEventType.invested_fiat q h = cc (rw q at h)
  quiet_event e events t q h = rw q refl

  quiet-holdings :
      (events : List Activity) → factory_needs_refresh events ≡ false → holdings events ≡ []
  unfolding factory_needs_refresh holdings
  quiet-holdings [] h = refl
  quiet-holdings (e ∷ events) h = elim (Bool-cases (refreshes_factory e.event_type)) [
    | inl loud ↦ cc (rw loud at h)
    | inr quiet ↦
        rw (holdings, quiet_event e events e.event_type refl h)
          (quiet-holdings events (rw quiet at h))
  ]

  no_holdings : holdings [] ≡ []
  unfolding holdings
  no_holdings = refl

  -- A stored batch adds what `held` keeps of its holdings.
  pub process_events-held :
      (events : List Activity) (w : World Db) (db : Db)
      → insert_many events w.store ≡ ok db
      → (process_events cfg now pg_stores is_open events w).store.fiat_holdings
        ≡ w.store.fiat_holdings ++ held (unfinished w.store.operations) events
  unfolding process_events
  process_events-held [] w db h =
      sym (append-nil w.store.fiat_holdings)
      ∙ ap (λ l. w.store.fiat_holdings ++ l)
          (sym (held-none (unfinished w.store.operations) [] no_holdings))
  process_events-held (e ∷ events) w db h =
      let stored : World Db = record w { store = db } in
      let progressed : World Db = sync_op_progress cfg now pg_stores is_open stored in
      let (same_ops, same_holdings) = insert_many-keeps (e ∷ events) w.store db h in
      let same_ids : unfinished progressed.store.operations ≡ unfinished w.store.operations =
        unfinished-StillAs db.operations progressed.store.operations
          (sync_op_progress-Settles cfg now is_open stored).aligned
        ∙ ap unfinished same_ops in
      elim (Bool-cases (factory_needs_refresh (e ∷ events))) [
        | inr quiet ↦
            rw (process_events, h, quiet)
              (same_holdings
                ∙ sym (append-nil w.store.fiat_holdings)
                ∙ ap (λ l. w.store.fiat_holdings ++ l)
                    (sym (
                      held-none (unfinished w.store.operations) (e ∷ events)
                        (quiet-holdings (e ∷ events) quiet))))
        | inl busy ↦
            rw (process_events, h, busy)
              (sync_op_status-holdings (e ∷ events) progressed
                ∙ ap (λ ids. progressed.store.fiat_holdings ++ held ids (e ∷ events)) same_ids
                ∙ ap (λ l. l ++ held (unfinished w.store.operations) (e ∷ events))
                    (sync_op_progress-holdings stored ∙ same_holdings))
      ]
