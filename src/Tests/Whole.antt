-- ===== src/Tests/Whole.antt =====
-- The whole worker at a concrete run: one turn that reads an investment, and the batch handled.
use lend_worker_stellar.Base.{
  ◌+ℤ◌, pos, lit, text_eq, is_empty, collect_all, show_ℤ, wrap_i32, true, some, none, List, [], ◌∷◌,
  ◌++◌, length, All, All-get, int_key, ok, ◌⊎◌, ◌≡◌, refl,
}
use lend_worker_stellar.Config.Types.{OpMapping}
use lend_worker_stellar.Config.Env.{LocalEnv, new}
use lend_worker_stellar.Domain.Operation.{FundingStatus}
use lend_worker_stellar.Domain.Activity.{Activity}
use lend_worker_stellar.Storage.Tables.{Db, has_operation}
use lend_worker_stellar.Storage.Activities
use lend_worker_stellar.Storage.Operations
use lend_worker_stellar.Storage.Activities.{insert_many}
use lend_worker_stellar.Storage.Activities.Uniqueness.{IsValid}
use lend_worker_stellar.Storage.Activities.Fresh.{IsRepeated}
use lend_worker_stellar.Storage.Operations.{get_op_id_from_fop_id}
use lend_worker_stellar.Chain.LogHandlers.RoundTrip.{emitted}
use lend_worker_stellar.Chain.LogHandlers.Storable.{
  handle_event-stored, get_op_id_from_fop_id-LooksUp,
}
use lend_worker_stellar.Domain.Build.{op_uuid}
use lend_worker_stellar.Chain.Scval.{as_i128}
use lend_worker_stellar.Chain.LogHandlers.{handle_event}
use lend_worker_stellar.System.{
  System, Around, take_turn, handed_in, handle_next, run, Run, here, next, turned, handled,
}
use lend_worker_stellar.System.Safety.{Run-stores}
use lend_worker_stellar.System.Trace.{IsFrom, Run-origin}
use lend_worker_stellar.Tests.Events.{factory, blank, investment}
use lend_worker_stellar.Tests.Store.{tables}
use lend_worker_stellar.Tests.Syncs.{unset}

abbrev pub cfg : LocalEnv
cfg = record (new unset) { factory_contract_id = lit "CFACTORY" }

abbrev pub start : Db
start = tables [] FundingStatus.open_status

abbrev pub around : Around
around = record {
  live = λ from ids. ok (emitted blank investment ∷ [], from +ℤ pos 1);
  backfill = none;
  lookup = λ fop. get_op_id_from_fop_id fop start;
}

abbrev pub read : System
read = take_turn cfg around (run cfg start)

abbrev stored : System
stored = handle_next cfg (pos 9) true read

pub start-IsValid : IsValid start
start-IsValid = record { unique = tt; known = tt }

stored_once : length stored.world.store.activity ≡ 1
unfolding handle_next take_turn run is_empty new Operations.get_all text_eq lit emitted handle_event
    as_i128 op_uuid wrap_i32 insert_many Operations.get_unfinished_operations
    Operations.get_ongoing_operations Activities.get_operation_participants
    Activities.get_total_invested_amounts Activities.get_total_refunded_amounts
    Activities.get_total_stellar_invested_amounts Activities.get_total_stellar_refunded_amounts
    Operations.update_operation_progress Operations.update_operation_status
    Activities.get_operation_status_history collect_all show_ℤ
stored_once = refl

worked : Run cfg (run cfg start) (handed_in cfg around (run cfg start) ++ []) stored
unfolding run is_empty new Operations.get_all
worked =
    next (next here (turned around (get_op_id_from_fop_id-LooksUp start) refl refl) refl)
      (handled (pos 9) true refl refl) refl

Run-stores_example :
    IsValid stored.world.store
    × All
        (λ rows.
          IsRepeated stored.world.store.activity rows
          ⊎ (insert_many rows stored.world.store
              ≡ ok (record stored.world.store { activity = stored.world.store.activity ++ rows })))
        stored.events
Run-stores_example =
    Run-stores cfg start (handed_in cfg around (run cfg start) ++ []) stored start-IsValid worked

Run-origin_example :
    (added : List Activity) × (stored.world.store.activity ≡ [] ++ added)
    × All (IsFrom (handed_in cfg around (run cfg start) ++ [])) added
Run-origin_example =
    Run-origin cfg start (handed_in cfg around (run cfg start) ++ []) stored start-IsValid worked

abbrev mapping : OpMapping
mapping = (pos 3, 42) ∷ []

abbrev made : List Activity
unfolding handle_event
made =
    elim (handle_event cfg (λ fop. get_op_id_from_fop_id fop start) factory mapping
      (emitted blank investment)) [ none ↦ [] | some rows ↦ rows ]

handle_event-stored_example : insert_many made start ≡ ok (record start { activity = [] ++ made })
unfolding made emitted handle_event op_uuid lit text_eq as_i128 wrap_i32
handle_event-stored_example =
    handle_event-stored cfg start factory mapping (emitted blank investment) made
      (λ fop id e.
        All-get (λ id. has_operation start.operations id ≡ true) fop id mapping (refl, tt) e)
      (λ id e. cc) refl (refl, tt)
