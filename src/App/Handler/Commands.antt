-- ===== src/App/Handler/Commands.antt =====
-- How many commands the handling of a batch sends: at most one for each creation event in it.
use mathlib.Core.List.{foldl, append_assoc, append-nil}
use lend_worker_stellar.Base.{
  ℕ, ◌+◌, ◌≤◌, Bool, true, false, Bool-cases, if◌then◌else◌, Option-cases, List, [], ◌∷◌, ◌++◌,
  length, length-append, Result, ok, err, Result-cases, ◌≡◌, refl, sym, ap, ◌∙◌, inl, inr, arith,
}
use lend_worker_stellar.Config.Types.{IndexerCommand, update_contracts}
use lend_worker_stellar.Config.Env.{LocalEnv}
use lend_worker_stellar.Domain.Operation.{Time}
use lend_worker_stellar.Domain.Activity.{Activity, ActivityEventType, factory_needs_refresh}
use lend_worker_stellar.Storage.Tables.{Db}
use lend_worker_stellar.Storage.Activities.{insert_many}
use lend_worker_stellar.Storage.Operations.{
  add_first_chain, get_unfinished_operations, insert_holding,
}
use lend_worker_stellar.Storage.Stores.{pg_stores}
use lend_worker_stellar.App.Discovery.{World, discover, refresh_data}
use lend_worker_stellar.App.Discovery.Finds.{discover-contracts}
use lend_worker_stellar.App.Handler.{
  write, sync_op_progress, sync_statuses, fiat_holding, sync_event, sync_op_status, process_events,
}
use lend_worker_stellar.App.Handler.Failure.{process_events-failed}
use lend_worker_stellar.App.Handler.Synced.{sync_op_progress-Settles, sync_statuses-Settles}

abbrev is_creation : ActivityEventType → Bool
is_creation ActivityEventType.op_created = true
is_creation _ = false

-- The creation events of a batch.
abbrev pub creations : List Activity → ℕ
creations [] = 0
creations (a ∷ rows) = (if is_creation a.event_type then 1 else 0) + creations rows

-- At most so many commands are sent.
abbrev pub Adds : ℕ → World Db → World Db → Type 0
Adds n w w' = (more : List IndexerCommand) × (w'.sent ≡ w.sent ++ more) × (length more ≤ n)

Adds-none : (n : ℕ) (w w' : World Db) → w'.sent ≡ w.sent → Adds n w w'
Adds-none n w w' same = ([], same ∙ sym (append-nil w.sent), omega arith)

Adds-trans : (m n : ℕ) (u v w : World Db) → Adds m u v → Adds n v w → Adds (m + n) u w
Adds-trans m n u v w (a, e, h) (b, f, k) = (
  a ++ b,
  f ∙ ap (λ l. l ++ b) e ∙ append_assoc u.sent a b,
  omega (arith, length-append a b, h, k),
)

-- What leaves the commands alone in front does not count.
Adds-after : (n : ℕ) (u v w : World Db) → v.sent ≡ u.sent → Adds n v w → Adds n u w
Adds-after n u v w same (more, e, h) = (more, e ∙ ap (λ l. l ++ more) same, h)

if-Adds : (b : Bool) (n : ℕ) (w w' : World Db) → Adds n w w' → Adds n w (if b then w' else w)
if-Adds true n w w' h = h
if-Adds false n w w' h = Adds-none n w w refl

module _ (cfg : LocalEnv) (now : Time) where
  write-sent : (w : World Db) (r : Result Db) → (write cfg now pg_stores true w r).sent ≡ w.sent
  write-sent w (ok db) = refl
  write-sent w (err e) = refl

  refresh_data-Adds : (w : World Db) → Adds 1 w (refresh_data cfg pg_stores true w)
  unfolding refresh_data
  refresh_data-Adds w =
      let fresh : World Db = record w { handler = record w.handler { contracts = [] } } in
      let found : World Db = discover cfg pg_stores true fresh in
      let last : List IndexerCommand =
        update_contracts found.handler.contracts found.handler.fopid_to_dbopid ∷ [] in
      let (_, _, same) = discover-contracts cfg fresh in
      if-Adds w.handler.has_sender 1 w (record found { sent = found.sent ++ last })
        (last, ap (λ l. l ++ last) same, omega arith)

  by_type :
      (w : World Db) (event : Activity) (t : ActivityEventType)
      → event.event_type ≡ t
      → Adds (if is_creation t then 1 else 0) w (sync_event cfg now pg_stores true w event)
  unfolding sync_event
  by_type w event ActivityEventType.op_created e =
      let chained : World Db =
        write cfg now pg_stores true w
          (add_first_chain event.factory_op_id event.payload w.store) in
      rw (sync_event, e)
        (Adds-after 1 w chained (refresh_data cfg pg_stores true chained)
          (write-sent w (add_first_chain event.factory_op_id event.payload w.store))
          (refresh_data-Adds chained))
  by_type w event ActivityEventType.invested_fiat e =
      elim (Option-cases (fiat_holding cfg now pg_stores true event)) [
        | inl q ↦ rw (sync_event, e, q) (Adds-none 0 w w refl)
        | inr (h, q) ↦
            rw (sync_event, e, q)
              (Adds-none 0 w (write cfg now pg_stores true w (insert_holding h w.store))
                (write-sent w (insert_holding h w.store)))
      ]
  by_type w event t e = rw (sync_event, e) (Adds-none _ w w refl)

  sync_events-Adds :
      (events : List Activity) (w : World Db)
      → Adds (creations events) w (foldl (sync_event cfg now pg_stores true) w events)
  sync_events-Adds [] w = Adds-none 0 w w refl
  sync_events-Adds (e ∷ events) w =
      Adds-trans (if is_creation e.event_type then 1 else 0) (creations events) w
        (sync_event cfg now pg_stores true w e)
        (foldl (sync_event cfg now pg_stores true) (sync_event cfg now pg_stores true w e) events)
        (by_type w e e.event_type refl)
        (sync_events-Adds events (sync_event cfg now pg_stores true w e))

  sync_op_status-Adds :
      (events : List Activity) (w : World Db)
      → Adds (creations events) w (sync_op_status cfg now pg_stores true events w)
  unfolding sync_op_status
  sync_op_status-Adds events w = elim (Result-cases (get_unfinished_operations w.store)) [
    | inr (m, e) ↦ rw (sync_op_status, e) (Adds-none (creations events) w w refl)
    | inl ([], e) ↦ rw (sync_op_status, e) (Adds-none (creations events) w w refl)
    | inl (op ∷ ops, e) ↦
        let settled : World Db = sync_statuses cfg now pg_stores true (op ∷ ops) w in
        rw (sync_op_status, e)
          (Adds-after (creations events) w settled
            (foldl (sync_event cfg now pg_stores true) settled events)
            (sync_statuses-Settles cfg now true (op ∷ ops) w).sent_eq
            (sync_events-Adds events settled))
  ]

  -- Handling a batch sends at most one command for each creation event in it.
  pub process_events-Adds :
      (events : List Activity) (w : World Db)
      → Adds (creations events) w (process_events cfg now pg_stores true events w)
  unfolding process_events
  process_events-Adds [] w = Adds-none 0 w w refl
  process_events-Adds (e ∷ events) w = elim (Result-cases (insert_many (e ∷ events) w.store)) [
    | inr (m, q) ↦
        Adds-none (creations (e ∷ events)) w (process_events cfg now pg_stores true (e ∷ events) w)
          (ap (λ (x : World Db). x.sent)
            (process_events-failed cfg now pg_stores true (e ∷ events) w m q))
    | inl (s, q) ↦
        let stored : World Db = record w { store = s } in
        let progressed : World Db = sync_op_progress cfg now pg_stores true stored in
        elim (Bool-cases (factory_needs_refresh (e ∷ events))) [
          | inr quiet ↦
              rw (process_events, q, quiet) (Adds-none (creations (e ∷ events)) w stored refl)
          | inl busy ↦
              rw (process_events, q, busy)
                (Adds-after (creations (e ∷ events)) w progressed
                  (sync_op_status cfg now pg_stores true (e ∷ events) progressed)
                  (sync_op_progress-Settles cfg now true stored).sent_eq
                  (sync_op_status-Adds (e ∷ events) progressed))
        ]
  ]
