-- ===== src/App/Handler/Queued.antt =====
-- The handler does not look at the commands that wait for the loop: it only adds to them.
use mathlib.Core.List.{foldl, append_assoc}
use lend_worker_stellar.Base.{
  ℤ, Bool, true, false, Bool-cases, if◌then◌else◌, keep, HashMap, Option-cases, List, [], ◌∷◌, ◌++◌,
  Result, ok, err, Result-cases, ◌≡◌, refl, ap, ◌∙◌, inl, inr,
}
use lend_worker_stellar.Config.Types.{IndexerCommand, update_contracts}
use lend_worker_stellar.Config.Env.{LocalEnv, stellar_network}
use lend_worker_stellar.Domain.Operation.{Time}
use lend_worker_stellar.Domain.Activity.{Activity, ActivityEventType, factory_needs_refresh}
use lend_worker_stellar.Storage.Tables.{Db}
use lend_worker_stellar.Storage.Activities.{insert_many, get_operation_status_history}
use lend_worker_stellar.Storage.Operations
use lend_worker_stellar.Storage.Operations.{
  add_first_chain, get_ongoing_operations, get_unfinished_operations, insert_holding,
}
use lend_worker_stellar.Storage.Stores.{pg_stores}
use lend_worker_stellar.App.Discovery.{
  World, get_op_data, get_latest_factory_activity, get_latest_rewards_activity,
  get_latest_oplend_activity, discover, refresh_data,
}
use lend_worker_stellar.App.Handler.{
  write, query_progress, sync_op_progress, stellar_chain_is_primary, write_statuses, write_primary,
  sync_statuses, fiat_holding, sync_event, sync_op_status, process_events,
}

-- The same world, with these commands in front of its own.
abbrev pub behind : List IndexerCommand → World Db → World Db
behind l w = record w { sent = l ++ w.sent }

module _ (cfg : LocalEnv) (now : Time) (l : List IndexerCommand) where
  write-behind :
      (w : World Db) (r : Result Db)
      → write cfg now pg_stores true (behind l w) r ≡ behind l (write cfg now pg_stores true w r)
  write-behind w (ok db) = refl
  write-behind w (err e) = refl

  rewards-behind :
      (w : World Db)
      → get_latest_rewards_activity cfg pg_stores true (behind l w)
        ≡ behind l (get_latest_rewards_activity cfg pg_stores true w)
  unfolding get_latest_rewards_activity
  rewards-behind w = elim (Option-cases (stellar_network cfg).rewards_address) [
    | inl e ↦ rw (get_latest_rewards_activity, e) refl
    | inr (a, e) ↦ rw (get_latest_rewards_activity, e) refl
  ]

  discover-behind :
      (w : World Db)
      → discover cfg pg_stores true (behind l w) ≡ behind l (discover cfg pg_stores true w)
  unfolding discover get_latest_oplend_activity get_latest_factory_activity get_op_data
      Operations.get_all
  discover-behind w = ap (get_latest_oplend_activity cfg pg_stores true) (
      rewards-behind
        (get_latest_factory_activity cfg pg_stores true (get_op_data cfg pg_stores true w)))

  if-behind :
      (b : Bool) (u v u' v' : World Db)
      → u' ≡ behind l u
      → v' ≡ behind l v
      → (if b then u' else v') ≡ behind l (if b then u else v)
  if-behind true u v u' v' p q = p
  if-behind false u v u' v' p q = q

  refresh_data-behind :
      (w : World Db)
      → refresh_data cfg pg_stores true (behind l w) ≡ behind l (refresh_data cfg pg_stores true w)
  unfolding refresh_data
  refresh_data-behind w =
      let fresh : World Db = record w { handler = record w.handler { contracts = [] } } in
      let found : World Db = discover cfg pg_stores true fresh in
      let last : List IndexerCommand =
        update_contracts found.handler.contracts found.handler.fopid_to_dbopid ∷ [] in
      let send : World Db → World Db = λ v. record v {
        sent = v.sent ++ update_contracts v.handler.contracts v.handler.fopid_to_dbopid ∷ [];
      } in
      if-behind w.handler.has_sender (send found) w
        (send (discover cfg pg_stores true (behind l fresh))) (behind l w)
        (ap send (discover-behind fresh)
          ∙ ap (λ s. record found { sent = s }) (append_assoc l found.sent last))
        refl

  sync_op_progress-behind :
      (w : World Db)
      → sync_op_progress cfg now pg_stores true (behind l w)
        ≡ behind l (sync_op_progress cfg now pg_stores true w)
  unfolding sync_op_progress
  sync_op_progress-behind w = elim (Result-cases (get_ongoing_operations w.store)) [
    | inr (m, e) ↦ rw (sync_op_progress, e) refl
    | inl ([], e) ↦ rw (sync_op_progress, e) refl
    | inl (op ∷ ops, e) ↦
        elim (Result-cases (query_progress cfg now pg_stores true (op ∷ ops) w.store)) [
          | inr (m, q) ↦ rw (sync_op_progress, e, q) refl
          | inl (p, q) ↦ rw (sync_op_progress, e, q) (write-behind w _)
        ]
  ]

  write_statuses-behind :
      (w : World Db) (mine : HashMap ℤ ActivityEventType)
      → write_statuses cfg now pg_stores true (behind l w) mine
        ≡ behind l (write_statuses cfg now pg_stores true w mine)
  write_statuses-behind w [] = refl
  write_statuses-behind w (p ∷ mine) = write-behind w _

  sync_statuses-behind :
      (ops : List ℤ) (w : World Db)
      → sync_statuses cfg now pg_stores true ops (behind l w)
        ≡ behind l (sync_statuses cfg now pg_stores true ops w)
  unfolding sync_statuses write_primary
  sync_statuses-behind ops w = elim (Result-cases (get_operation_status_history ops w.store)) [
    | inr (m, e) ↦ rw (sync_statuses, e) refl
    | inl (statuses, e) ↦
        rw (sync_statuses, e)
          (write_statuses-behind w
            (keep (λ p. stellar_chain_is_primary cfg now pg_stores true w.handler p.0) statuses))
  ]

  by_type :
      (w : World Db) (event : Activity) (t : ActivityEventType)
      → event.event_type ≡ t
      → sync_event cfg now pg_stores true (behind l w) event
        ≡ behind l (sync_event cfg now pg_stores true w event)
  unfolding sync_event
  by_type w event ActivityEventType.op_created e =
      let chain : Result Db = add_first_chain event.factory_op_id event.payload w.store in
      rw (sync_event, e)
        (ap (refresh_data cfg pg_stores true) (write-behind w chain)
          ∙ refresh_data-behind (write cfg now pg_stores true w chain))
  by_type w event ActivityEventType.invested_fiat e =
      elim (Option-cases (fiat_holding cfg now pg_stores true event)) [
        | inl q ↦ rw (sync_event, e, q) refl
        | inr (h, q) ↦ rw (sync_event, e, q) (write-behind w (insert_holding h w.store))
      ]
  by_type w event t e = rw (sync_event, e) refl

  sync_events-behind :
      (events : List Activity) (w : World Db)
      → foldl (sync_event cfg now pg_stores true) (behind l w) events
        ≡ behind l (foldl (sync_event cfg now pg_stores true) w events)
  sync_events-behind [] w = refl
  sync_events-behind (e ∷ events) w =
      ap (λ v. foldl (sync_event cfg now pg_stores true) v events) (by_type w e e.event_type refl)
      ∙ sync_events-behind events (sync_event cfg now pg_stores true w e)

  sync_op_status-behind :
      (events : List Activity) (w : World Db)
      → sync_op_status cfg now pg_stores true events (behind l w)
        ≡ behind l (sync_op_status cfg now pg_stores true events w)
  unfolding sync_op_status
  sync_op_status-behind events w = elim (Result-cases (get_unfinished_operations w.store)) [
    | inr (m, e) ↦ rw (sync_op_status, e) refl
    | inl ([], e) ↦ rw (sync_op_status, e) refl
    | inl (op ∷ ops, e) ↦
        rw (sync_op_status, e)
          (ap (λ v. foldl (sync_event cfg now pg_stores true) v events)
              (sync_statuses-behind (op ∷ ops) w)
            ∙ sync_events-behind events (sync_statuses cfg now pg_stores true (op ∷ ops) w))
  ]

  -- Commands that wait change nothing of what the handler does with a batch.
  pub process_events-behind :
      (events : List Activity) (w : World Db)
      → process_events cfg now pg_stores true events (behind l w)
        ≡ behind l (process_events cfg now pg_stores true events w)
  unfolding process_events
  process_events-behind [] w = refl
  process_events-behind (e ∷ events) w = elim (Result-cases (insert_many (e ∷ events) w.store)) [
    | inr (m, q) ↦ rw (process_events, q) refl
    | inl (s, q) ↦
        let stored : World Db = record w { store = s } in
        elim (Bool-cases (factory_needs_refresh (e ∷ events))) [
          | inr quiet ↦ rw (process_events, q, quiet) refl
          | inl busy ↦
              rw (process_events, q, busy)
                (ap (sync_op_status cfg now pg_stores true (e ∷ events))
                    (sync_op_progress-behind stored)
                  ∙ sync_op_status-behind (e ∷ events)
                      (sync_op_progress cfg now pg_stores true stored))
        ]
  ]
