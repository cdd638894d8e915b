-- ===== src/App/Handler/Creation.antt =====
-- A creation event, from its row to the contract that the loop observes.
use mathlib.Core.Path.{subst}
use lend_worker_stellar.Base.{
  ℕ, ℤ, Text, true, List, [], ◌∷◌, ◌++◌, map, get_elem?, get_elem?-map, Any, some, ok, ◌≡◌, refl,
  sym, ap, ◌∙◌, arith,
}
use lend_worker_stellar.Config.Types.{Uuid, OpMapping, ObservableContract, update_contracts}
use lend_worker_stellar.Config.Env.{LocalEnv}
use lend_worker_stellar.Domain.Operation.{Time}
use lend_worker_stellar.Domain.Activity.{Activity, ActivityEventType, factory_needs_refresh}
use lend_worker_stellar.Storage.Tables.{Db, OperationRow}
use lend_worker_stellar.Storage.Activities.{insert_many}
use lend_worker_stellar.Storage.Activities.Fresh.{insert_many-keeps}
use lend_worker_stellar.Storage.Operations.{
  is_unfinished, add_chain, OpCreatedEventData, op_created_data, add_first_chain,
  get_unfinished_operations,
}
use lend_worker_stellar.Storage.Operations.Chains.{add_chain-token}
use lend_worker_stellar.Storage.Operations.Aligned.{Alike, StillAs, Aligned-get_elem?, Aligned-imp}
use lend_worker_stellar.Storage.Operations.Keyed.{
  IsKeyed, Aligned-IsKeyed, add_chain-keeps, IsKeyed-map, has_token-get_elem?, some_unfinished,
}
use lend_worker_stellar.Storage.Stores.{pg_stores}
use lend_worker_stellar.App.Discovery.{World, Handler, is_soroban_address, refresh_data}
use lend_worker_stellar.App.Discovery.Finds.{Observes, refresh_data-Observes}
use lend_worker_stellar.App.Handler.{
  write, sync_op_progress, sync_statuses, sync_event, sync_op_status, process_events,
}
use lend_worker_stellar.App.Handler.Synced.{
  Settles, sync_op_progress-Settles, sync_statuses-Settles,
}

-- A published operation of the table, by its place.
pub record IsPublished (db : Db) (i : ℕ) (row : OperationRow) (fop : ℤ) : Type 0 where
  pub keyed : IsKeyed db.operations
  pub at : get_elem? db.operations i ≡ some row
  pub fop_eq : row.operation.factory_op_id ≡ some fop
  pub published_eq : row.published ≡ true

-- The world's commands have one more behind them, which lists the token for the operation.
abbrev pub Announces : Text → Uuid → World Db → World Db → Type 0
Announces token id w w' =
    (cs : List ObservableContract) × (mapping : OpMapping) × (w'.sent
      ≡ w.sent ++ update_contracts cs mapping ∷ [])
    × Any (Observes token id) cs

module _ (cfg : LocalEnv) (now : Time) (event : Activity) (created : OpCreatedEventData)
    (type_eq : event.event_type ≡ ActivityEventType.op_created)
    (payload_eq : op_created_data event.payload ≡ ok created)
    (soroban : is_soroban_address created.op_token ≡ true) where
  sync_event-Announces :
      (w : World Db) (i : ℕ) (row : OperationRow)
      → w.handler.has_sender ≡ true
      → IsPublished w.store i row event.factory_op_id
      → Announces created.op_token row.operation.id w (sync_event cfg now pg_stores true w event)
  unfolding sync_event add_first_chain
  sync_event-Announces w i row sender p =
      let op = event.factory_op_id in
      let token = created.op_token in
      let row' : OperationRow = add_chain op token row in
      let chained : World Db = record w {
        store = record w.store { operations = map (add_chain op token) w.store.operations };
      } in
      let (same_id, same_fop, same_published) = add_chain-keeps op token row in
      let (j, c, there, is_token) =
        has_token-get_elem? token row'.operation.supported_chains
          (add_chain-token op token row (ground (arith, p.fop_eq))) in
      let found =
        refresh_data-Observes cfg chained i j row' op c
          (IsKeyed-map op token w.store.operations p.keyed) sender
          (get_elem?-map (add_chain op token) w.store.operations i row p.at) (same_fop ∙ p.fop_eq)
          (same_published ∙ p.published_eq) there (ap is_soroban_address is_token ∙ soroban) in
      let wrote : write cfg now pg_stores true w (add_first_chain op event.payload w.store)
          ≡ chained =
        rw (add_first_chain, payload_eq) refl in
      let step : sync_event cfg now pg_stores true w event
          ≡ refresh_data cfg pg_stores true chained =
        rw (sync_event, type_eq) (ap (refresh_data cfg pg_stores true) wrote) in
      let announced : Announces token row.operation.id w (refresh_data cfg pg_stores true chained) =
        subst (λ t. Announces t row.operation.id w (refresh_data cfg pg_stores true chained))
          is_token
          (subst (λ k. Announces c.op_token k w (refresh_data cfg pg_stores true chained)) same_id
            found) in
      subst (Announces token row.operation.id w) (sym step) announced

  IsPublished-Settles :
      (w w' : World Db) (i : ℕ) (row : OperationRow) (fop : ℤ)
      → Settles Alike w w'
      → IsPublished w.store i row fop
      → (row' : OperationRow) × IsPublished w'.store i row' fop
        × (row'.operation.id ≡ row.operation.id)
  IsPublished-Settles w w' i row fop settles p =
      let (row', at, alike) =
        Aligned-get_elem? Alike w.store.operations w'.store.operations i row settles.aligned p.at in
      (
        row',
        record {
          keyed = Aligned-IsKeyed w.store.operations w'.store.operations settles.aligned p.keyed;
          at = at;
          fop_eq = alike.fop_eq ∙ p.fop_eq;
          published_eq = alike.published_eq ∙ p.published_eq;
        },
        alike.id_eq,
      )

  sync_op_status-Announces :
      (w : World Db) (i : ℕ) (row : OperationRow)
      → w.handler.has_sender ≡ true
      → IsPublished w.store i row event.factory_op_id
      → is_unfinished row.operation.funding_status ≡ true
      → Announces created.op_token row.operation.id w
          (sync_op_status cfg now pg_stores true (event ∷ []) w)
  unfolding sync_op_status get_unfinished_operations
  sync_op_status-Announces w i row sender p unfinished =
      let (op, l, some_left) =
        some_unfinished w.store.operations i row event.factory_op_id p.at p.fop_eq p.published_eq
          unfinished in
      let settled : World Db = sync_statuses cfg now pg_stores true (op ∷ l) w in
      let settles = sync_statuses-Settles cfg now true (op ∷ l) w in
      let (row', p', same_id) = IsPublished-Settles w settled i row event.factory_op_id settles p in
      let (cs, mapping, sent, listed) =
        sync_event-Announces settled i row'
          (ap (λ (h : Handler). h.has_sender) settles.handler_eq ∙ sender) p' in
      let announced : Announces created.op_token row.operation.id w
          (sync_event cfg now pg_stores true settled event) =
        (
          cs,
          mapping,
          sent ∙ ap (λ x. x ++ update_contracts cs mapping ∷ []) settles.sent_eq,
          subst (λ k. Any (Observes created.op_token k) cs) same_id listed,
        ) in
      rw (sync_op_status, some_left) announced

  -- Handling the row of a creation event that names a Soroban token, while the loop receives commands:
  -- if the row is stored, and its operation is published, unfinished and keyed uniquely, the handler
  -- sends one more command, and that lists the token's contract for the operation.
  pub process_events-Announces :
      (w : World Db) (db : Db) (i : ℕ) (row : OperationRow)
      → insert_many (event ∷ []) w.store ≡ ok db
      → w.handler.has_sender ≡ true
      → IsPublished w.store i row event.factory_op_id
      → is_unfinished row.operation.funding_status ≡ true
      → Announces created.op_token row.operation.id w
          (process_events cfg now pg_stores true (event ∷ []) w)
  unfolding process_events factory_needs_refresh
  process_events-Announces w db i row stored sender p unfinished =
      let kept : World Db = record w { store = db } in
      let progressed : World Db = sync_op_progress cfg now pg_stores true kept in
      let settles = sync_op_progress-Settles cfg now true kept in
      let (same, _) = insert_many-keeps (event ∷ []) w.store db stored in
      let (row', at, (alike, status_eq)) =
        Aligned-get_elem? StillAs db.operations progressed.store.operations i row settles.aligned
          (subst (λ o. get_elem? o i ≡ some row) (sym same) p.at) in
      let p' : IsPublished progressed.store i row' event.factory_op_id = record {
        keyed =
            Aligned-IsKeyed db.operations progressed.store.operations
              (Aligned-imp db.operations progressed.store.operations (λ r r' h. h.0)
                settles.aligned)
              (subst IsKeyed (sym same) p.keyed);
        at = at;
        fop_eq = alike.fop_eq ∙ p.fop_eq;
        published_eq = alike.published_eq ∙ p.published_eq;
      } in
      let (cs, mapping, sent, listed) =
        sync_op_status-Announces progressed i row'
          (ap (λ (h : Handler). h.has_sender) settles.handler_eq ∙ sender) p'
          (ap is_unfinished status_eq ∙ unfinished) in
      let announced : Announces created.op_token row.operation.id w
          (sync_op_status cfg now pg_stores true (event ∷ []) progressed) =
        (
          cs,
          mapping,
          sent ∙ ap (λ x. x ++ update_contracts cs mapping ∷ []) settles.sent_eq,
          subst (λ k. Any (Observes created.op_token k) cs) alike.id_eq listed,
        ) in
      let refreshes : factory_needs_refresh (event ∷ []) ≡ true = rw type_eq refl in
      rw (process_events, stored, refreshes) announced
