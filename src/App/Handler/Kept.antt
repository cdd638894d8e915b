-- ===== src/App/Handler/Kept.antt =====
-- What the handler leaves alone: past the insertion of a batch no stored activity changes, no
-- operation is forgotten, and the handler and its commands go on naming operations that there are.
use mathlib.Core.Path.{subst}
use mathlib.Core.List.{foldl}
use lend_worker_stellar.Base.{
  ℤ, Bool, true, Bool-cases, keep, HashMap, Option-cases, List, [], ◌∷◌, ◌++◌, All, All-imp, Result,
  ok, err, Result-cases, ◌≡◌, ◌⊎◌, refl, sym, ap, ◌∙◌, inl, inr,
}
use lend_worker_stellar.Config.Env.{LocalEnv}
use lend_worker_stellar.Domain.Operation.{Time}
use lend_worker_stellar.Domain.Activity.{Activity, ActivityEventType, factory_needs_refresh}
use lend_worker_stellar.Storage.Tables.{Db, has_operation, is_stored_type}
use lend_worker_stellar.Storage.Activities.{insert_many, get_operation_status_history}
use lend_worker_stellar.Storage.Activities.Uniqueness.{IsValid, IsUnique, insert_many-IsValid}
use lend_worker_stellar.Storage.Operations.{
  get_ongoing_operations, get_unfinished_operations, add_first_chain,
}
use lend_worker_stellar.Storage.Operations.Extends.{
  Extends, Keeps, Keeps-refl, update_operation_progress-Keeps, update_operation_status-Keeps,
  add_first_chain-Keeps, insert_holding-Keeps,
}
use lend_worker_stellar.Storage.Stores.{pg_stores}
use lend_worker_stellar.App.Discovery.{World, refresh_data}
use lend_worker_stellar.App.Discovery.Known.{IsKnown, IsKnown-Extends}
use lend_worker_stellar.App.Discovery.Known.Steps.{Discovers, refresh_data-Discovers}
use lend_worker_stellar.App.Handler.Failure.{process_events-failed}
use lend_worker_stellar.App.Handler.{
  write, query_progress, progress_updates, sync_op_progress, stellar_chain_is_primary,
  write_statuses, write_primary, sync_statuses, fiat_holding, sync_event, sync_op_status,
  process_events,
}

pub record Handles (w w' : World Db) : Type 0 where
  pub keeps : Keeps w.store w'.store
  pub known :
      IsKnown w.store.operations w.handler w.sent → IsKnown w'.store.operations w'.handler w'.sent

Handles-refl : (w : World Db) → Handles w w
Handles-refl w = record { keeps = Keeps-refl w.store; known = λ k. k }

Handles-trans : (u v w : World Db) → Handles u v → Handles v w → Handles u w
Handles-trans u v w a b = record {
  keeps = record {
    activity_eq = b.keeps.activity_eq ∙ a.keeps.activity_eq;
    extends = λ id h. b.keeps.extends id (a.keeps.extends id h);
  };
  known = λ k. b.known (a.known k);
}

Handles-Discovers : (w w' : World Db) → Discovers w w' → Handles w w'
Handles-Discovers w w' d = record {
  keeps = subst (Keeps w.store) (sym d.store_eq) (Keeps-refl w.store);
  known = d.known;
}

pub Keeps-IsValid : (db db' : Db) → Keeps db db' → IsValid db → IsValid db'
Keeps-IsValid db db' k v = record {
  unique = subst IsUnique (sym k.activity_eq) v.unique;
  known =
      subst
        (All (λ a.
          (has_operation db'.operations a.op_id ≡ true) × (is_stored_type a.event_type ≡ true)))
        (sym k.activity_eq) (All-imp _ _ db.activity (λ a h. (k.extends a.op_id h.0, h.1)) v.known);
}

module _ (cfg : LocalEnv) (now : Time) (is_open : Bool) where
  write-Handles :
      (w : World Db) (r : Result Db)
      → ((db' : Db) → r ≡ ok db' → Keeps w.store db')
      → Handles w (write cfg now pg_stores is_open w r)
  write-Handles w (ok db') h = record {
    keeps = h db' refl;
    known = λ k.
        IsKnown-Extends w.store.operations db'.operations w.handler w.sent (h db' refl).extends k;
  }
  write-Handles w (err e) h = Handles-refl w

  sync_op_progress-Handles :
      (w : World Db) → Handles w (sync_op_progress cfg now pg_stores is_open w)
  unfolding sync_op_progress
  sync_op_progress-Handles w = elim (Result-cases (get_ongoing_operations w.store)) [
    | inr (m, e) ↦ rw (sync_op_progress, e) (Handles-refl w)
    | inl ([], e) ↦ rw (sync_op_progress, e) (Handles-refl w)
    | inl (op ∷ ops, e) ↦
        elim (Result-cases (query_progress cfg now pg_stores is_open (op ∷ ops) w.store)) [
          | inr (m, q) ↦ rw (sync_op_progress, e, q) (Handles-refl w)
          | inl (p, q) ↦
              rw (sync_op_progress, e, q)
                (write-Handles w _
                  (update_operation_progress-Keeps (progress_updates p (op ∷ ops)) w.store))
        ]
  ]

  write_statuses-Handles :
      (w : World Db) (mine : HashMap ℤ ActivityEventType)
      → Handles w (write_statuses cfg now pg_stores is_open w mine)
  write_statuses-Handles w [] = Handles-refl w
  write_statuses-Handles w (p ∷ mine) =
      write-Handles w _ (update_operation_status-Keeps (p ∷ mine) w.store)

  sync_statuses-Handles :
      (ops : List ℤ) (w : World Db) → Handles w (sync_statuses cfg now pg_stores is_open ops w)
  unfolding sync_statuses write_primary
  sync_statuses-Handles ops w = elim (Result-cases (get_operation_status_history ops w.store)) [
    | inr (m, e) ↦ rw (sync_statuses, e) (Handles-refl w)
    | inl (statuses, e) ↦
        rw (sync_statuses, e)
          (write_statuses-Handles w
            (keep (λ p. stellar_chain_is_primary cfg now pg_stores is_open w.handler p.0) statuses))
  ]

  created-Handles :
      (w : World Db) (event : Activity)
      → Handles w (
          refresh_data cfg pg_stores is_open (
            write cfg now pg_stores is_open w
              (add_first_chain event.factory_op_id event.payload w.store)))
  created-Handles w event =
      let chained =
        write cfg now pg_stores is_open w
          (add_first_chain event.factory_op_id event.payload w.store) in
      Handles-trans w chained (refresh_data cfg pg_stores is_open chained)
        (write-Handles w _ (add_first_chain-Keeps event.factory_op_id event.payload w.store))
        (Handles-Discovers chained _ (refresh_data-Discovers cfg is_open chained))

  -- the two arms of the loop over the events, and the others
  by_type :
      (w : World Db) (event : Activity) (t : ActivityEventType)
      → event.event_type ≡ t
      → Handles w (sync_event cfg now pg_stores is_open w event)
  unfolding sync_event
  by_type w event ActivityEventType.op_created e = rw (sync_event, e) (created-Handles w event)
  by_type w event ActivityEventType.invested_fiat e =
      elim (Option-cases (fiat_holding cfg now pg_stores is_open event)) [
        | inl q ↦ rw (sync_event, e, q) (Handles-refl w)
        | inr (h, q) ↦ rw (sync_event, e, q) (write-Handles w _ (insert_holding-Keeps h w.store))
      ]
  by_type w event t e = rw (sync_event, e) (Handles-refl w)

  sync_events-Handles :
      (events : List Activity) (w : World Db)
      → Handles w (foldl (sync_event cfg now pg_stores is_open) w events)
  sync_events-Handles [] w = Handles-refl w
  sync_events-Handles (e ∷ events) w =
      Handles-trans w (sync_event cfg now pg_stores is_open w e) _ (by_type w e e.event_type refl)
        (sync_events-Handles events (sync_event cfg now pg_stores is_open w e))

  sync_op_status-Handles :
      (events : List Activity) (w : World Db)
      → Handles w (sync_op_status cfg now pg_stores is_open events w)
  unfolding sync_op_status
  sync_op_status-Handles events w = elim (Result-cases (get_unfinished_operations w.store)) [
    | inr (m, e) ↦ rw (sync_op_status, e) (Handles-refl w)
    | inl ([], e) ↦ rw (sync_op_status, e) (Handles-refl w)
    | inl (op ∷ ops, e) ↦
        rw (sync_op_status, e)
          (Handles-trans w (sync_statuses cfg now pg_stores is_open (op ∷ ops) w) _
            (sync_statuses-Handles (op ∷ ops) w)
            (sync_events-Handles events (sync_statuses cfg now pg_stores is_open (op ∷ ops) w)))
  ]

  -- A batch that can be stored is stored, and the syncs follow.
  pub process_events-stored :
      (events : List Activity) (w : World Db) (s : Db)
      → insert_many events w.store ≡ ok s
      → Handles (record w { store = s }) (process_events cfg now pg_stores is_open events w)
  unfolding process_events insert_many
  process_events-stored [] w s q =
      let same : w.store ≡ s = cc in
      subst (λ t. Handles (record w { store = t }) w) same (Handles-refl w)
  process_events-stored (e ∷ events) w s q =
      let stored : World Db = record w { store = s } in
      let progressed : World Db = sync_op_progress cfg now pg_stores is_open stored in
      elim (Bool-cases (factory_needs_refresh (e ∷ events))) [
        | inr quiet ↦ rw (process_events, q, quiet) (Handles-refl stored)
        | inl busy ↦
            rw (process_events, q, busy)
              (Handles-trans stored progressed _ (sync_op_progress-Handles stored)
                (sync_op_status-Handles (e ∷ events) progressed))
      ]

  -- A batch is dropped without a trace, or it is stored and the syncs follow.
  pub process_events-cases :
      (events : List Activity) (w : World Db)
      → (process_events cfg now pg_stores is_open events w ≡ w)
        ⊎ ((s : Db) × (insert_many events w.store ≡ ok s)
            × Handles (record w { store = s }) (process_events cfg now pg_stores is_open events w))
  process_events-cases events w = elim (Result-cases (insert_many events w.store)) [
    | inr (m, q) ↦ inl (process_events-failed cfg now pg_stores is_open events w m q)
    | inl (s, q) ↦ inr (s, q, process_events-stored events w s q)
  ]

  -- Handling a batch keeps the tables valid, and what is stored is the old rows alone or the old rows
  -- with the batch behind them.
  pub process_events-IsValid :
      (events : List Activity) (w : World Db)
      → IsValid w.store
      → IsKnown w.store.operations w.handler w.sent
      → IsValid (process_events cfg now pg_stores is_open events w).store
        × IsKnown
            (process_events cfg now pg_stores is_open events w).store.operations
            (process_events cfg now pg_stores is_open events w).handler
            (process_events cfg now pg_stores is_open events w).sent
        × Extends w.store.operations
            (process_events cfg now pg_stores is_open events w).store.operations
        × (((process_events cfg now pg_stores is_open events w).store.activity ≡ w.store.activity)
            ⊎ ((process_events cfg now pg_stores is_open events w).store.activity
                ≡ w.store.activity ++ events))
  process_events-IsValid events w valid known = elim (process_events-cases events w) [
    | inl same ↦ rw same (valid, known, (λ id h. h), inl refl)
    | inr (s, stored, handles) ↦
        let (kept, shape) = insert_many-IsValid events w.store s stored valid in
        let same_ops = ap (λ (x : Db). x.operations) shape in
        (
          Keeps-IsValid s _ handles.keeps kept,
          handles.known (subst (λ ops. IsKnown ops w.handler w.sent) (sym same_ops) known),
          (λ id h.
              handles.keeps.extends id
                (subst (λ ops. has_operation ops id ≡ true) (sym same_ops) h)),
          inr (handles.keeps.activity_eq ∙ ap (λ (x : Db). x.activity) shape),
        )
  ]
