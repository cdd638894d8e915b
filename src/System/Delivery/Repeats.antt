-- ===== src/System/Delivery/Repeats.antt =====
-- Batches that a source hands over again. `RpcEventSource::fetch` of crates/lw-chain/src/event_source.rs
-- resumes at the least ledger of its batches of contracts, so that the next sweep can hand over events
-- again that lie at or behind it; `insert_many` of crates/lw-storage/src/activity_repository.rs meets
-- their rows a second time.
use mathlib.Core.Path.{subst}
use lend_worker_stellar.Base.{◌≤◌, length, Bool, List, [], ◌∷◌, ◌++◌, All, Any, ◌≡◌, sym, ap, ◌∙◌}
use lend_worker_stellar.Config.Env.{LocalEnv}
use lend_worker_stellar.Domain.Operation.{Time}
use lend_worker_stellar.Domain.Activity.{Activity}
use lend_worker_stellar.Storage.Tables.{Db}
use lend_worker_stellar.Storage.Activities.Uniqueness.{IsValid}
use lend_worker_stellar.Storage.Activities.Fresh.{IsStorable}
use lend_worker_stellar.Storage.Activities.Delivered.{deliver, deliver-repeated}
use lend_worker_stellar.Chain.EventSource.Raw.{RawSorobanEvent}
use lend_worker_stellar.System.{System, run, Run}
use lend_worker_stellar.System.Safety.{IsSound, Run-IsSound, run-IsSound}
use lend_worker_stellar.System.Delivery.{handle_all, handle_all-whole}

-- The state in which only these batches wait.
abbrev pub with_batches : System → List (List Activity) → System
with_batches s batches = record s { events = batches }

All-front : {A : Type 0} (P : A → Type 0) (xs ys : List A) → All P (xs ++ ys) → All P xs
All-front P [] ys h = tt
All-front P (x ∷ xs) ys h = (h.0, All-front P xs ys h.1)

with_batches-IsSound :
    (s : System) (batches again : List (List Activity))
    → s.events ≡ batches ++ again
    → IsSound s
    → IsSound (with_batches s batches)
with_batches-IsSound s batches again shape i = record {
  valid = i.valid;
  known = i.known;
  loop = i.loop;
  queue =
      All-front (IsStorable s.world.store.operations) batches again
        (subst (All (IsStorable s.world.store.operations)) shape i.queue);
}

-- In a state that a run reaches from valid tables, let some batches wait, and behind them batches each
-- of which equals one in front. The handler, given at least as many rounds as there are batches, takes
-- them all and leaves the activity table, row for row, that it leaves from the same state when only
-- the batches in front wait, at whatever times.
pub handle_all-repeats :
    (cfg : LocalEnv) (db : Db) (seen : List RawSorobanEvent) (s : System)
    (batches again : List (List Activity)) (times once : List (Time × Bool))
    → IsValid db
    → Run cfg (run cfg db) seen s
    → s.events ≡ batches ++ again
    → All (λ rows. Any (λ other. other ≡ rows) batches) again
    → length s.events ≤ length times
    → length batches ≤ length once
    → ((handle_all cfg times s).world.store.activity
        ≡ (handle_all cfg once (with_batches s batches)).world.store.activity)
      × ((handle_all cfg times s).events ≡ [])
handle_all-repeats cfg db seen s batches again times once valid r shape repeats enough sufficient =
    let sound = Run-IsSound (run-IsSound cfg db valid) r in
    let all = handle_all-whole cfg times s enough sound in
    let front =
      handle_all-whole cfg once (with_batches s batches) sufficient
        (with_batches-IsSound s batches again shape sound) in
    (
      all.activity
          ∙ ap (deliver s.world.store.activity) shape
          ∙ deliver-repeated batches again s.world.store.activity repeats
          ∙ sym front.activity,
      all.events,
    )
