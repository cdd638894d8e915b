-- ===== src/App/Handler/Failure.antt =====
-- A batch that cannot be stored leaves no trace.
use lend_worker_stellar.Base.{Text, Bool, true, List, [], ◌∷◌, Any, err, ◌≡◌, refl, arith}
use lend_worker_stellar.Config.Env.{LocalEnv}
use lend_worker_stellar.Domain.Operation.{Time}
use lend_worker_stellar.Domain.Activity.{Activity}
use lend_worker_stellar.Storage.Tables.{Db, has_hash}
use lend_worker_stellar.Storage.Stores.{Stores, pg_stores}
use lend_worker_stellar.Storage.Activities.Uniqueness.{insert_many-duplicate}
use lend_worker_stellar.App.Discovery.{World}
use lend_worker_stellar.App.Handler.{process_events}

pub process_events-failed :
    {S : Type 0} (cfg : LocalEnv) (now : Time) (stores : Stores S) (is_open : Bool)
    (events : List Activity) (w : World S) (m : Text)
    → stores.activity.insert_many events w.store ≡ err m
    → process_events cfg now stores is_open events w ≡ w
unfolding process_events
process_events-failed cfg now stores is_open [] w m h = refl
process_events-failed cfg now stores is_open (e ∷ events) w m h = ground arith

-- With the Postgres stores, a batch one of whose hashes is already stored changes nothing: no row, no
-- progress, no status, no chain, no holding, no notification, no command. A source may therefore hand
-- an event over again.
pub process_events-duplicate :
    (cfg : LocalEnv) (now : Time) (is_open : Bool) (events : List Activity) (w : World Db)
    → Any (λ a. has_hash w.store.activity a.event_hash ≡ true) events
    → process_events cfg now pg_stores is_open events w ≡ w
process_events-duplicate cfg now is_open events w h =
    let (m, e) = insert_many-duplicate events w.store h in
    process_events-failed cfg now pg_stores is_open events w m e
