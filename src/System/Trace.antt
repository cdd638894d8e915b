-- ===== src/System/Trace.antt =====
-- Where the stored rows come from.
use mathlib.Core.Path.{subst}
use mathlib.Core.List.{append_assoc, append-nil}
use lend_worker_stellar.Base.{
  Bool, true, get, text_key, some, Option-cases, List, [], ◌∷◌, ◌++◌, All, All-imp, All-append, Any,
  Any-imp, Any-append_left, Any-append_right, ◌≡◌, refl, sym, ap, ◌∙◌, inl, inr,
}
use lend_worker_stellar.Config.Env.{LocalEnv}
use lend_worker_stellar.Domain.Operation.{Time}
use lend_worker_stellar.Domain.Activity.{Activity}
use lend_worker_stellar.Storage.Tables.{Db}
use lend_worker_stellar.Storage.Activities.Uniqueness.{IsValid}
use lend_worker_stellar.Chain.EventSource.Raw.{RawSorobanEvent}
use lend_worker_stellar.Chain.LogHandlers.{event_key, handle_event}
use lend_worker_stellar.Chain.LogHandlers.Hashes.{Describes, EveryRow, handle_event-Describes}
use lend_worker_stellar.Chain.EventLoop.{LoopState, rows_of, drain, turn}
use lend_worker_stellar.Chain.EventLoop.Known.{handed, Makes, poll-All}
use lend_worker_stellar.App.Discovery.Known.Steps.{run_start-Discovers}
use lend_worker_stellar.App.Handler.Kept.{process_events-IsValid}
use lend_worker_stellar.System.{
  System, Around, context, take_turn, handed_in, handle_next, new_world, run, Step, turned, handled,
  edited, Run, here, next,
}
use lend_worker_stellar.System.Safety.{IsSound, Run-IsSound, run-IsSound}

-- The row is one that the handler makes of one of the events.
abbrev pub IsFrom : List RawSorobanEvent → Activity → Type 0
IsFrom seen a = Any (λ raw. Describes (event_key raw) raw.ledger_seq raw.ledger_closed_at a) seen

All-among :
    {A : Type 0} (P : A → Type 0) (xs : List A) → ((x : A) → Any (λ y. y ≡ x) xs → P x) → All P xs
All-among P [] h = tt
All-among P (x ∷ xs) h = (h x (inl refl), All-among P xs (λ y k. h y (inr k)))

module _ (cfg : LocalEnv) (a : Around) (s : LoopState) where
  rows_of-IsFrom :
      (raws : List RawSorobanEvent) (raw : RawSorobanEvent) (rows : List Activity)
      → Any (λ y. y ≡ raw) raws
      → rows_of (context cfg a) s raw ≡ some rows
      → All (IsFrom raws) rows
  unfolding context rows_of
  rows_of-IsFrom raws raw rows there h = elim (Option-cases (get raw.contract_id s.contracts)) [
    | inl e ↦ cc (rw (rows_of, e) at h)
    | inr (c, e) ↦
        let made : handle_event cfg a.lookup c s.fopid_to_opid raw ≡ some rows =
          rw (rows_of, e) at h in
        All-imp _ _ rows
          (λ row d.
            Any-imp (λ y. y ≡ raw) _ raws
              (λ y q.
                subst (λ x. Describes (event_key x) x.ledger_seq x.ledger_closed_at row) (sym q) d)
              there)
          (subst (EveryRow (Describes (event_key raw) raw.ledger_seq raw.ledger_closed_at)) made
            (handle_event-Describes cfg a.lookup c s.fopid_to_opid raw))
  ]

-- What waits and what was added to the rows that were there comes from the events seen.
record IsTraced (old : List Activity) (seen : List RawSorobanEvent) (s : System) : Type 0 where
  queue : All (All (IsFrom seen)) s.events
  added : List Activity
  stored : s.world.store.activity ≡ old ++ added
  origin : All (IsFrom seen) added

IsFrom-more :
    (raws seen : List RawSorobanEvent) (rows : List Activity)
    → All (IsFrom seen) rows
    → All (IsFrom (raws ++ seen)) rows
IsFrom-more raws seen rows h = All-imp _ _ rows (λ a k. Any-append_right _ raws seen k) h

module _ (cfg : LocalEnv) (old : List Activity) (seen : List RawSorobanEvent) (s : System)
    (i : IsTraced old seen s) where
  turned-IsTraced : (a : Around) → IsTraced old (handed_in cfg a s ++ seen) (take_turn cfg a s)
  unfolding take_turn turn handed_in
  turned-IsTraced a =
      let drained : LoopState = drain cfg.start_ledger s.loop s.world.sent in
      let raws : List RawSorobanEvent = handed (context cfg a) drained in
      let sent = poll-All (All (IsFrom raws)) (context cfg a) drained (
        All-among (Makes (All (IsFrom raws)) (context cfg a) drained) raws
          (λ raw there rows made. rows_of-IsFrom cfg a drained raws raw rows there made)) in
      record {
        queue =
            All-append (All (IsFrom (raws ++ seen))) s.events _
              (All-imp _ _ s.events (λ rows h. IsFrom-more raws seen rows h) i.queue)
              (All-imp _ _ _ (λ rows h. All-imp _ _ rows (λ a k. Any-append_left _ raws seen k) h)
                sent);
        added = i.added;
        stored = i.stored;
        origin = IsFrom-more raws seen i.added i.origin;
      }

  handled-IsTraced :
      (now : Time) (is_open : Bool) (events : List (List Activity))
      → s.events ≡ events
      → IsSound s
      → IsTraced old seen (handle_next cfg now is_open s)
  unfolding handle_next
  handled-IsTraced now is_open [] e sound = rw (handle_next, e) i
  handled-IsTraced now is_open (batch ∷ rest) e sound =
      let (_, _, _, outcome) =
        process_events-IsValid cfg now is_open batch s.world sound.valid sound.known in
      let queue : All (All (IsFrom seen)) (batch ∷ rest) =
        subst (All (All (IsFrom seen))) e i.queue in
      rw (handle_next, e)
        (elim outcome [
          | inl same ↦ record {
            queue = queue.1;
            added = i.added;
            stored = same ∙ i.stored;
            origin = i.origin;
          }
          | inr grown ↦ record {
            queue = queue.1;
            added = i.added ++ batch;
            stored = grown ∙ ap (λ l. l ++ batch) i.stored ∙ append_assoc old i.added batch;
            origin = All-append (IsFrom seen) i.added batch i.origin queue.0;
          }
        ])

Step-IsTraced :
    {cfg : LocalEnv} {old : List Activity} {seen raws : List RawSorobanEvent} {s t : System}
    → Step cfg s raws t
    → IsSound s
    → IsTraced old seen s
    → IsTraced old (raws ++ seen) t
Step-IsTraced {cfg = cfg} {old = old} {seen = seen} {s = s} (turned a looks q e) sound i =
    rw (q, e) (turned-IsTraced cfg old seen s i a)
Step-IsTraced {cfg = cfg} {old = old} {seen = seen} {s = s} (handled now is_open q e) sound i =
    rw (q, e) (handled-IsTraced cfg old seen s i now is_open s.events refl sound)
Step-IsTraced (edited db keeps q e) sound i =
    rw (q, e)
      (record {
        queue = i.queue;
        added = i.added;
        stored = keeps.activity_eq ∙ i.stored;
        origin = i.origin;
      })

Run-IsTraced :
    {cfg : LocalEnv} {old : List Activity} {s t : System} {seen : List RawSorobanEvent}
    → IsSound s
    → IsTraced old [] s
    → Run cfg s seen t
    → IsTraced old seen t
Run-IsTraced sound i here = i
Run-IsTraced sound i (next r st e) =
    rw e (Step-IsTraced st (Run-IsSound sound r) (Run-IsTraced sound i r))

run-IsTraced : (cfg : LocalEnv) (db : Db) → IsTraced db.activity [] (run cfg db)
unfolding run new_world
run-IsTraced cfg db = record {
  queue = tt;
  added = [];
  stored =
      ap (λ (x : Db). x.activity) (run_start-Discovers cfg true (new_world db)).store_eq
      ∙ sym (append-nil db.activity);
  origin = tt;
}

-- Nothing is invented and nothing is rewritten: in every state that a run reaches from valid tables
-- (others leaving the activity alone), the stored activity is that of the start with rows behind it
-- each of which describes, by its hash, ledger and time, an event that a source handed over in the run.
pub Run-origin :
    (cfg : LocalEnv) (db : Db) (seen : List RawSorobanEvent) (s : System)
    → IsValid db
    → Run cfg (run cfg db) seen s
    → (added : List Activity) × (s.world.store.activity ≡ db.activity ++ added)
      × All (IsFrom seen) added
Run-origin cfg db seen s valid r =
    let i = Run-IsTraced (run-IsSound cfg db valid) (run-IsTraced cfg db) r in
    (i.added, i.stored, i.origin)
