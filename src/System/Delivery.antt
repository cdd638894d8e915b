-- ===== src/System/Delivery.antt =====
-- What the handler makes of the batches that wait, one after the other.
pub mod Repeats
use mathlib.Core.Path.{subst}
use mathlib.Core.List.{foldl, append-nil}
use lend_worker_stellar.Base.{
  ◌≤◌, length, ℤ, Bool, true, false, Bool-cases, List, [], ◌∷◌, ◌++◌, All, All-imp, ok, ◌≡◌, refl,
  sym, ap, ◌∙◌, ◌⊎◌, inl, inr, arith, keys,
}
use lend_worker_stellar.Config.Env.{LocalEnv}
use lend_worker_stellar.Domain.Operation.{Time}
use lend_worker_stellar.Domain.Activity.{Activity}
use lend_worker_stellar.Storage.Tables.{Db}
use lend_worker_stellar.Storage.Activities.Uniqueness.{IsValid}
use lend_worker_stellar.Storage.Activities.Fresh.{IsStorable, insert_many-fresh}
use lend_worker_stellar.Storage.Activities.Delivered.{
  is_repeated, is_repeated-IsRepeated, is_repeated-IsFresh, accept, accept-repeated, accept-fresh,
  deliver,
}
use lend_worker_stellar.Storage.Operations.Extends.{Extends}
use lend_worker_stellar.Storage.Stores.{pg_stores}
use lend_worker_stellar.Chain.EventSource.Raw.{RawSorobanEvent}
use lend_worker_stellar.Chain.LogHandlers.Storable.{LooksUp}
use lend_worker_stellar.Chain.EventLoop.{LoopState, drain, turn, route, is_idle, poll}
use lend_worker_stellar.Chain.EventLoop.Sends.{all_rows, poll-sends}
use lend_worker_stellar.App.Discovery.{World}
use lend_worker_stellar.App.Discovery.Known.Steps.{run_start-Discovers}
use lend_worker_stellar.App.Handler.{process_events}
use lend_worker_stellar.App.Handler.Failure.{process_events-duplicate}
use lend_worker_stellar.App.Handler.Kept.{process_events-stored, process_events-IsValid}
use lend_worker_stellar.System.{
  System, Around, context, take_turn, handle_next, new_world, run, Run,
}
use lend_worker_stellar.System.Safety.{
  IsSound, Run-IsSound, run-IsSound, IsStorable-Extends, handled-IsSound, turned-IsSound,
}

-- The handler's loop, at these times and with the loop listening or not: one batch each time.
abbrev pub handle_all : LocalEnv → List (Time × Bool) → System → System
handle_all cfg times s = foldl (λ t now. handle_next cfg now.0 now.1 t) s times

-- One batch is taken as `accept` says.
process_events-accept :
    (cfg : LocalEnv) (now : Time) (is_open : Bool) (w : World Db) (rows : List Activity)
    → IsStorable w.store.operations rows
    → (process_events cfg now pg_stores is_open rows w).store.activity
      ≡ accept w.store.activity rows
process_events-accept cfg now is_open w rows k =
    elim (Bool-cases (is_repeated w.store.activity rows)) [
      | inl e ↦
          ap (λ (v : World Db). v.store.activity)
            (process_events-duplicate cfg now is_open rows w
              (is_repeated-IsRepeated w.store.activity rows e))
          ∙ sym (accept-repeated w.store.activity rows e)
      | inr e ↦
          let stored =
            insert_many-fresh rows w.store k (is_repeated-IsFresh w.store.activity rows e) in
          (process_events-stored cfg now is_open rows w _ stored).keeps.activity_eq
          ∙ sym (accept-fresh w.store.activity rows e)
    ]

-- The batches in front have been taken, and nothing else has happened to the loop.
pub record IsHandled (s : System) (front behind : List (List Activity)) (t : System) : Type 0 where
  pub activity : t.world.store.activity ≡ deliver s.world.store.activity front
  pub events : t.events ≡ behind
  pub loop : t.loop ≡ s.loop
  pub sound : IsSound t
  pub extends : Extends s.world.store.operations t.world.store.operations

-- Rounds enough for the batches in front, and for no more, unless there are no more.
abbrev pub Suffices : List (List Activity) → List (List Activity) → List (Time × Bool) → Type 0
Suffices front behind times =
    (length front ≤ length times) × ((behind ≡ []) ⊎ (length times ≤ length front))

module _ (cfg : LocalEnv) where
  handle_all-empty :
      (times : List (Time × Bool)) (s : System) → s.events ≡ [] → handle_all cfg times s ≡ s
  unfolding handle_next
  handle_all-empty [] s e = refl
  handle_all-empty (now ∷ times) s e =
      let emptied : System = record s { events = [] } in
      let step : handle_next cfg now.0 now.1 s ≡ emptied =
        rw (handle_next, e) (ap (λ l. record s { events = l }) e) in
      let same : emptied ≡ s = ap (λ l. record s { events = l }) (sym e) in
      ap (handle_all cfg times) (step ∙ same) ∙ handle_all-empty times s e

  handle_all-idle :
      (behind : List (List Activity)) (times : List (Time × Bool)) (s : System)
      → s.events ≡ behind
      → (behind ≡ []) ⊎ (length times ≤ 0)
      → handle_all cfg times s ≡ s
  handle_all-idle behind times s e (inl none_left) = handle_all-empty times s (e ∙ none_left)
  handle_all-idle behind [] s e (inr over) = refl
  handle_all-idle behind (now ∷ times) s e (inr over) = absurd (omega (arith, over))

  pub handle_all-IsHandled :
      (front behind : List (List Activity)) (times : List (Time × Bool)) (s : System)
      → s.events ≡ front ++ behind
      → Suffices front behind times
      → IsSound s
      → IsHandled s front behind (handle_all cfg times s)
  unfolding handle_next
  handle_all-IsHandled [] behind times s e enough i =
      subst (IsHandled s [] behind) (sym (handle_all-idle behind times s e enough.1))
        (record { activity = refl; events = e; loop = refl; sound = i; extends = λ id h. h })
  handle_all-IsHandled (rows ∷ front) behind [] s e enough i = absurd (omega (arith, enough.0))
  handle_all-IsHandled (rows ∷ front) behind (now ∷ times) s e enough i =
      let w : World Db = process_events cfg now.0 pg_stores now.1 rows s.world in
      let handled : System = record s { world = w; events = front ++ behind } in
      let step : handle_next cfg now.0 now.1 s ≡ handled = rw (handle_next, e) refl in
      let k : IsStorable s.world.store.operations rows =
        (subst (All (IsStorable s.world.store.operations)) e i.queue).0 in
      let (_, _, grows, _) = process_events-IsValid cfg now.0 now.1 rows s.world i.valid i.known in
      let later =
        handle_all-IsHandled front behind times handled refl (ground (arith, enough))
          (subst IsSound step (handled-IsSound cfg now.0 now.1 s (rows ∷ (front ++ behind)) e i)) in
      subst (λ t. IsHandled s (rows ∷ front) behind (handle_all cfg times t)) (sym step)
        (record {
          activity =
              later.activity
              ∙ ap (λ l. deliver l front) (process_events-accept cfg now.0 now.1 s.world rows k);
          events = later.events;
          loop = later.loop;
          sound = later.sound;
          extends = λ id h. later.extends id (grows id h);
        })

  -- All of the batches.
  pub handle_all-whole :
      (times : List (Time × Bool)) (s : System)
      → length s.events ≤ length times
      → IsSound s
      → IsHandled s s.events [] (handle_all cfg times s)
  handle_all-whole times s enough i =
      handle_all-IsHandled s.events [] times s (sym (append-nil s.events)) (enough, inl refl) i

take_turn-sends :
    (cfg : LocalEnv) (a : Around) (s : System) (events : List RawSorobanEvent) (next : ℤ)
    → is_idle (drain cfg.start_ledger s.loop s.world.sent) ≡ false
    → (route (context cfg a) (drain cfg.start_ledger s.loop s.world.sent)).0
        (drain cfg.start_ledger s.loop s.world.sent).cursor
        (keys (drain cfg.start_ledger s.loop s.world.sent).contracts)
      ≡ ok (events, next)
    → ((take_turn cfg a s).events
        ≡ s.events ++ all_rows (context cfg a) (drain cfg.start_ledger s.loop s.world.sent) events)
      × ((take_turn cfg a s).loop.cursor ≡ next)
unfolding take_turn turn
take_turn-sends cfg a s events next busy answered =
    let drained : LoopState = drain cfg.start_ledger s.loop s.world.sent in
    let (goes_on, stops) = poll-sends (context cfg a) drained events next busy answered in
    elim (Bool-cases (poll (context cfg a) drained).stopped) [
      | inl e ↦ let (_, n, closed, _, _) = stops e in cc
      | inr e ↦
          let (sent, state) = goes_on e in
          (ap (λ l. s.events ++ l) sent, ap (λ (x : LoopState). x.cursor) state)
    ]

-- In a state that a run reaches from valid tables, let the source of the next turn hand over events
-- and a resume ledger. After that turn, as many rounds of the handler as there are batches leave no
-- batch waiting and the cursor at the resume ledger, and the stored activity is what was stored with,
-- behind it and in order, every batch that waited and then the rows of every event handed over, less
-- the batches one of whose hashes was stored before them. It does not depend on the times, nor on
-- what the handler's syncs do or fail to do.
pub handle_all-delivers :
    (cfg : LocalEnv) (db : Db) (seen : List RawSorobanEvent) (s : System) (a : Around)
    (events : List RawSorobanEvent) (next : ℤ) (times : List (Time × Bool))
    → IsValid db
    → Run cfg (run cfg db) seen s
    → LooksUp s.world.store.operations a.lookup
    → is_idle (drain cfg.start_ledger s.loop s.world.sent) ≡ false
    → (route (context cfg a) (drain cfg.start_ledger s.loop s.world.sent)).0
        (drain cfg.start_ledger s.loop s.world.sent).cursor
        (keys (drain cfg.start_ledger s.loop s.world.sent).contracts)
      ≡ ok (events, next)
    → length (take_turn cfg a s).events ≤ length times
    → ((handle_all cfg times (take_turn cfg a s)).world.store.activity
        ≡ deliver s.world.store.activity (
            s.events
            ++ all_rows (context cfg a) (drain cfg.start_ledger s.loop s.world.sent) events))
      × ((handle_all cfg times (take_turn cfg a s)).events ≡ [])
      × ((handle_all cfg times (take_turn cfg a s)).loop.cursor ≡ next)
unfolding take_turn turn
handle_all-delivers cfg db seen s a events next times valid r looks busy answered enough =
    let t : System = take_turn cfg a s in
    let sound = turned-IsSound cfg a s looks (Run-IsSound (run-IsSound cfg db valid) r) in
    let (queue, cursor) = take_turn-sends cfg a s events next busy answered in
    let h = handle_all-whole cfg times t enough sound in
    (
      h.activity ∙ ap (deliver s.world.store.activity) queue,
      h.events,
      ap (λ (x : LoopState). x.cursor) h.loop ∙ cursor,
    )
