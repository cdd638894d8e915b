-- ===== src/System/Creation.antt =====
-- A created operation's token is observed from the next turn of the loop on.
use mathlib.Core.Path.{subst}
use lend_worker_stellar.Base.{
  ℕ, Text, true, get, text_key, List, [], ◌∷◌, Any-imp, ok, ◌≡◌, refl, sym, ap, ◌∙◌,
}
use lend_worker_stellar.Config.Env.{LocalEnv}
use lend_worker_stellar.Domain.Operation.{Time}
use lend_worker_stellar.Domain.Activity.{Activity, ActivityEventType}
use lend_worker_stellar.Storage.Tables.{Db, OperationRow}
use lend_worker_stellar.Storage.Activities.{insert_many}
use lend_worker_stellar.Storage.Operations.{is_unfinished, OpCreatedEventData, op_created_data}
use lend_worker_stellar.Storage.Stores.{pg_stores}
use lend_worker_stellar.Chain.EventLoop.{LoopState, drain, turn}
use lend_worker_stellar.Chain.EventLoop.Known.{poll-keeps}
use lend_worker_stellar.Chain.EventLoop.Observed.{IsObserved, drain-IsObserved}
use lend_worker_stellar.App.Discovery.{World, is_soroban_address}
use lend_worker_stellar.App.Handler.{process_events}
use lend_worker_stellar.App.Handler.Creation.{IsPublished, process_events-Announces}
use lend_worker_stellar.System.{System, Around, context, take_turn, handle_next}

take_turn-IsObserved :
    (cfg : LocalEnv) (a : Around) (s : System) (address : Text)
    → IsObserved address (drain cfg.start_ledger s.loop s.world.sent)
    → IsObserved address (take_turn cfg a s).loop
unfolding take_turn turn
take_turn-IsObserved cfg a s address (c, found) =
    let drained : LoopState = drain cfg.start_ledger s.loop s.world.sent in
    (c, ap (λ m. get address m) (poll-keeps (context cfg a) drained).0 ∙ found)

-- If the next batch is the row of a creation event that names a Soroban token, the row can be stored,
-- its operation is published, unfinished and keyed uniquely, and the handler has its sender and the
-- loop receives: once the batch has been handled, the loop observes the token's contract after its
-- next turn, whatever the sources answer in it.
pub created-IsObserved :
    (cfg : LocalEnv) (now : Time) (a : Around) (s : System) (event : Activity)
    (rest : List (List Activity)) (created : OpCreatedEventData) (db : Db) (i : ℕ)
    (row : OperationRow)
    → s.events ≡ (event ∷ []) ∷ rest
    → event.event_type ≡ ActivityEventType.op_created
    → op_created_data event.payload ≡ ok created
    → is_soroban_address created.op_token ≡ true
    → insert_many (event ∷ []) s.world.store ≡ ok db
    → s.world.handler.has_sender ≡ true
    → IsPublished s.world.store i row event.factory_op_id
    → is_unfinished row.operation.funding_status ≡ true
    → IsObserved created.op_token (take_turn cfg a (handle_next cfg now true s)).loop
unfolding handle_next
created-IsObserved cfg now a s event rest created db i row next type_eq payload_eq soroban stored
      sender p unfinished =
    let w : World Db = process_events cfg now pg_stores true (event ∷ []) s.world in
    let (cs, mapping, sent, listed) =
      process_events-Announces cfg now event created type_eq payload_eq soroban s.world db i row
        stored sender p unfinished in
    let addressed = Any-imp _ (λ c. c.address ≡ created.op_token) cs (λ c h. h.0) listed in
    let drained : LoopState = drain cfg.start_ledger s.loop w.sent in
    let there : IsObserved created.op_token drained =
      subst (λ l. IsObserved created.op_token (drain cfg.start_ledger s.loop l)) (sym sent)
        (drain-IsObserved cfg.start_ledger created.op_token s.world.sent cs mapping s.loop
          addressed) in
    let handled : System = record s { world = w; events = rest } in
    let step : handle_next cfg now true s ≡ handled = rw (handle_next, next) refl in
    subst (λ t. IsObserved created.op_token (take_turn cfg a t).loop) (sym step)
      (take_turn-IsObserved cfg a handled created.op_token there)
