-- ===== src/System/Safety.antt =====
-- No event that the loop sends is lost: what waits in the channel can be stored.
use mathlib.Core.Path.{subst}
use lend_worker_stellar.Base.{
  Bool, true, get, int_key, text_key, All-get, some, Option-cases, List, [], ◌∷◌, ◌++◌, All,
  All-imp, All-append, ok, ◌≡◌, refl, sym, ◌⊎◌, inl, inr,
}
use lend_worker_stellar.Config.Env.{LocalEnv}
use lend_worker_stellar.Domain.Operation.{Time}
use lend_worker_stellar.Domain.Activity.{Activity}
use lend_worker_stellar.Storage.Tables.{Db, OperationRow, has_operation}
use lend_worker_stellar.Storage.Activities.{insert_many}
use lend_worker_stellar.Storage.Activities.Uniqueness.{IsValid}
use lend_worker_stellar.Storage.Activities.Fresh.{IsStorable, IsRepeated, insert_many-or_IsRepeated}
use lend_worker_stellar.Storage.Operations.Extends.{Extends, Keeps}
use lend_worker_stellar.Chain.EventSource.Raw.{RawSorobanEvent}
use lend_worker_stellar.Chain.LogHandlers.{handle_event}
use lend_worker_stellar.Chain.LogHandlers.Storable.{LooksUp, handle_event-CanStore, CanStore}
use lend_worker_stellar.Chain.EventLoop.{LoopState, rows_of, drain, turn}
use lend_worker_stellar.Chain.EventLoop.Start.{initial}
use lend_worker_stellar.Chain.EventLoop.Known.{handed, Makes, poll-All}
use lend_worker_stellar.App.Discovery.Known.{IsKnown, IsKnown-Extends, KnownContract}
use lend_worker_stellar.App.Discovery.Known.Steps.{run_start-Discovers}
use lend_worker_stellar.App.Handler.Kept.{Keeps-IsValid, process_events-IsValid}
use lend_worker_stellar.System.{
  System, Around, context, take_turn, handle_next, new_world, run, Step, turned, handled, edited,
  Run, here, next,
}
use lend_worker_stellar.System.Loop.{
  IsKnownLoop, IsKnownLoop-Extends, drain-IsKnownLoop, poll-IsKnownLoop,
}

-- The tables are valid, everything names stored operations, and the waiting batches can be stored.
pub record IsSound (s : System) : Type 0 where
  pub valid : IsValid s.world.store
  pub known : IsKnown s.world.store.operations s.world.handler s.world.sent
  pub loop : IsKnownLoop s.world.store.operations s.loop
  pub queue : All (IsStorable s.world.store.operations) s.events

pub IsStorable-Extends :
    (ops ops' : List OperationRow) (rows : List Activity)
    → Extends ops ops'
    → IsStorable ops rows
    → IsStorable ops' rows
IsStorable-Extends ops ops' rows e k = record {
  known = All-imp _ _ rows (λ a h. (e a.op_id h.0, h.1)) k.known;
  distinct = k.distinct;
}

pub All-every : {A : Type 0} (P : A → Type 0) (xs : List A) → ((x : A) → P x) → All P xs
All-every P [] h = tt
All-every P (x ∷ xs) h = (h x, All-every P xs h)

module _ (cfg : LocalEnv) (a : Around) (ops : List OperationRow) (looks : LooksUp ops a.lookup)
    (s : LoopState) (k : IsKnownLoop ops s) where
  rows_of-IsStorable :
      (raw : RawSorobanEvent) (rows : List Activity)
      → rows_of (context cfg a) s raw ≡ some rows
      → IsStorable ops rows
  unfolding context rows_of
  rows_of-IsStorable raw rows h = elim (Option-cases (get raw.contract_id s.contracts)) [
    | inl e ↦ cc (rw (rows_of, e) at h)
    | inr (c, e) ↦
        let made : handle_event cfg a.lookup c s.fopid_to_opid raw ≡ some rows =
          rw (rows_of, e) at h in
        subst (CanStore ops) made (
          handle_event-CanStore ops s.fopid_to_opid
            (λ fop id q.
              All-get (λ id. has_operation ops id ≡ true) fop id s.fopid_to_opid k.mapping q)
            a.lookup looks cfg c raw
            (All-get (KnownContract ops) raw.contract_id c s.contracts k.contracts e))
  ]

pub turned-IsSound :
    (cfg : LocalEnv) (a : Around) (s : System)
    → LooksUp s.world.store.operations a.lookup
    → IsSound s
    → IsSound (take_turn cfg a s)
unfolding take_turn turn
turned-IsSound cfg a s looks i =
    let ops = s.world.store.operations in
    let drained : LoopState = drain cfg.start_ledger s.loop s.world.sent in
    let ready =
      drain-IsKnownLoop ops cfg.start_ledger s.world.sent s.loop i.known.commands i.loop in
    let sent = poll-All (IsStorable ops) (context cfg a) drained (
      All-every (Makes (IsStorable ops) (context cfg a) drained) (handed (context cfg a) drained)
        (rows_of-IsStorable cfg a ops looks drained ready)) in
    record {
      valid = i.valid;
      known = record {
        mapping = i.known.mapping;
        op_data = i.known.op_data;
        contracts = i.known.contracts;
        commands = tt;
      };
      loop = poll-IsKnownLoop ops (context cfg a) drained ready;
      queue = All-append (IsStorable ops) s.events _ i.queue sent;
    }

pub handled-IsSound :
    (cfg : LocalEnv) (now : Time) (is_open : Bool) (s : System) (events : List (List Activity))
    → s.events ≡ events
    → IsSound s
    → IsSound (handle_next cfg now is_open s)
unfolding handle_next
handled-IsSound cfg now is_open s [] e i = rw (handle_next, e) i
handled-IsSound cfg now is_open s (batch ∷ rest) e i =
    let (valid, known, extends, _) =
      process_events-IsValid cfg now is_open batch s.world i.valid i.known in
    let queue : All (IsStorable s.world.store.operations) (batch ∷ rest) =
      subst (All (IsStorable s.world.store.operations)) e i.queue in
    rw (handle_next, e)
      (record {
        valid = valid;
        known = known;
        loop = IsKnownLoop-Extends s.world.store.operations _ s.loop extends i.loop;
        queue = All-imp _ _ rest (λ rows h. IsStorable-Extends _ _ rows extends h) queue.1;
      })

edited-IsSound :
    (s : System) (db : Db)
    → Keeps s.world.store db
    → IsSound s
    → IsSound (record s { world = record s.world { store = db } })
edited-IsSound s db keeps i = record {
  valid = Keeps-IsValid s.world.store db keeps i.valid;
  known =
      IsKnown-Extends s.world.store.operations db.operations s.world.handler s.world.sent
        keeps.extends i.known;
  loop = IsKnownLoop-Extends s.world.store.operations db.operations s.loop keeps.extends i.loop;
  queue = All-imp _ _ s.events (λ rows h. IsStorable-Extends _ _ rows keeps.extends h) i.queue;
}

Step-IsSound :
    {cfg : LocalEnv} {s t : System} {raws : List RawSorobanEvent}
    → Step cfg s raws t
    → IsSound s
    → IsSound t
Step-IsSound {cfg = cfg} {s = s} (turned a looks q e) i = rw e (turned-IsSound cfg a s looks i)
Step-IsSound {cfg = cfg} {s = s} (handled now is_open q e) i =
    rw e (handled-IsSound cfg now is_open s s.events refl i)
Step-IsSound {s = s} (edited db keeps q e) i = rw e (edited-IsSound s db keeps i)

pub run-IsSound : (cfg : LocalEnv) (db : Db) → IsValid db → IsSound (run cfg db)
unfolding run new_world initial
run-IsSound cfg db valid =
    let started = run_start-Discovers cfg true (new_world db) in
    record {
      valid = subst IsValid (sym started.store_eq) valid;
      known = started.known (record { mapping = tt; op_data = tt; contracts = tt; commands = tt });
      loop = record { mapping = tt; contracts = tt };
      queue = tt;
    }

pub Run-IsSound :
    {cfg : LocalEnv} {s t : System} {seen : List RawSorobanEvent}
    → IsSound s
    → Run cfg s seen t
    → IsSound t
Run-IsSound i here = i
Run-IsSound i (next r st e) = Step-IsSound st (Run-IsSound i r)

-- In every state that a run reaches from valid tables, whatever the sources answer, if look-ups find
-- operations of the table and nobody takes operations away or touches the activity: event hashes are
-- unique and the rows are of known operations and types, and every batch that waits for the handler is
-- stored whole when it is inserted, unless one of its hashes is stored already. No other constraint of
-- the table ever refuses what the loop sends.
pub Run-stores :
    (cfg : LocalEnv) (db : Db) (seen : List RawSorobanEvent) (s : System)
    → IsValid db
    → Run cfg (run cfg db) seen s
    → IsValid s.world.store
      × All
          (λ rows.
            IsRepeated s.world.store.activity rows
            ⊎ (insert_many rows s.world.store
                ≡ ok (record s.world.store { activity = s.world.store.activity ++ rows })))
          s.events
Run-stores cfg db seen s valid r =
    let i = Run-IsSound (run-IsSound cfg db valid) r in
    (
      i.valid,
      All-imp _ _ s.events (λ rows k. insert_many-or_IsRepeated rows s.world.store k) i.queue,
    )
