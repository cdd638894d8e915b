-- ===== src/System/Channels/Merged.antt =====
-- The two tasks with their channels implement the whole turns and whole batches of a run.
use mathlib.Core.List.{append_assoc, append-nil}
use lend_worker_stellar.Base.{
  Bool, true, List, [], ◌∷◌, ◌++◌, ◌≡◌, ◌⊎◌, refl, sym, ap, ◌∙◌, inl, inr,
}
use lend_worker_stellar.Config.Types.{IndexerCommand}
use lend_worker_stellar.Config.Env.{LocalEnv}
use lend_worker_stellar.Domain.Operation.{Time}
use lend_worker_stellar.Domain.Activity.{Activity}
use lend_worker_stellar.Storage.Tables.{Db}
use lend_worker_stellar.Storage.Stores.{pg_stores}
use lend_worker_stellar.Chain.EventLoop.{Polled, turn}
use lend_worker_stellar.App.Discovery.{World}
use lend_worker_stellar.App.Handler.{process_events}
use lend_worker_stellar.App.Handler.Queued.{behind, process_events-behind}
use lend_worker_stellar.System.{System, Around, context, take_turn, handle_next}
use lend_worker_stellar.System.Delivery.{handle_all}
use lend_worker_stellar.System.Channels.{
  Tasks, poll_sources, Exchange, row_sent, handled, command_sent, Exchanges, here, next,
}

-- The channels and what still waits to be sent through them, taken together.
abbrev pub merged : Tasks → System
merged s = record {
  loop = s.loop;
  world = behind s.commands s.world;
  events = s.events ++ s.outbox;
}

abbrev with_events : Tasks → List (List Activity) → System
with_events s l = record { loop = s.loop; world = behind s.commands s.world; events = l }

abbrev with_sent : Tasks → List IndexerCommand → System
with_sent s l = record {
  loop = s.loop;
  world = record s.world { sent = l };
  events = s.events ++ s.outbox;
}

handle_next-batch :
    (cfg : LocalEnv) (now : Time) (s : System) (rows : List Activity) (rest : List (List Activity))
    → s.events ≡ rows ∷ rest
    → handle_next cfg now true s
      ≡ record s { world = process_events cfg now pg_stores true rows s.world; events = rest }
unfolding handle_next
handle_next-batch cfg now s rows rest e = rw (handle_next, e) refl

module _ (cfg : LocalEnv) (s t : Tasks) where
  -- A send is no step of the run, and a batch handled is one.
  Exchange-merged :
      Exchange cfg s t
      → (merged t ≡ merged s) ⊎ ((now : Time) × (merged t ≡ handle_next cfg now true (merged s)))
  Exchange-merged (row_sent {rows = rows} {rest = rest} p room e) = inl (
      ap merged e
      ∙ ap (with_events s)
          (append_assoc s.events (rows ∷ []) rest ∙ ap (λ l. s.events ++ l) (sym p)))
  Exchange-merged (command_sent {c = c} {rest = rest} r room e) = inl (
      ap merged e
      ∙ ap (with_sent s)
          (append_assoc s.commands (c ∷ []) rest ∙ ap (λ l. s.commands ++ l) (sym r)))
  Exchange-merged (handled {rows = rows} {rest = rest} now r q e) =
      let step =
        handle_next-batch cfg now (merged s) rows (rest ++ s.outbox) (ap (λ l. l ++ s.outbox) q) in
      let same = process_events-behind cfg now s.commands rows s.world in
      inr (
        now,
        ap merged e
            ∙ ap (λ (w : World Db). record { loop = s.loop; world = w; events = rest ++ s.outbox })
                (sym same)
            ∙ sym step,
      )

handle_all-last :
    (cfg : LocalEnv) (now : Time) (times : List (Time × Bool)) (s : System)
    → handle_all cfg (times ++ (now, true) ∷ []) s
      ≡ handle_next cfg now true (handle_all cfg times s)
handle_all-last cfg now [] s = refl
handle_all-last cfg now (x ∷ times) s = handle_all-last cfg now times (handle_next cfg x.0 x.1 s)

Exchanges-merged :
    {cfg : LocalEnv} {s t : Tasks}
    → Exchanges cfg s t
    → (times : List (Time × Bool)) × (merged t ≡ handle_all cfg times (merged s))
Exchanges-merged here = ([], refl)
Exchanges-merged {cfg = cfg} {s = s} (next {t = t} {u = u} r m) =
    let (times, before) = Exchanges-merged r in
    elim (Exchange-merged cfg t u m) [
      | inl same ↦ (times, same ∙ before)
      | inr (now, step) ↦ (
        times ++ (now, true) ∷ [],
        step
            ∙ ap (handle_next cfg now true) before
            ∙ sym (handle_all-last cfg now times (merged s)),
      )
    ]

poll_sources-merged :
    (cfg : LocalEnv) (a : Around) (s : Tasks)
    → s.outbox ≡ []
    → s.world.sent ≡ []
    → merged (poll_sources cfg a s) ≡ take_turn cfg a (merged s)
unfolding poll_sources take_turn
poll_sources-merged cfg a s p r =
    let after : List IndexerCommand → List IndexerCommand → List (List Activity) → System =
      λ commands sent events.
        let polled : Polled = turn (context cfg a) cfg.start_ledger commands s.loop in
        record {
          loop = polled.state;
          world = record s.world { sent = sent };
          events = events ++ polled.sent;
        } in
    let commands : s.commands ≡ s.commands ++ s.world.sent =
      sym (append-nil s.commands) ∙ ap (λ l. s.commands ++ l) (sym r) in
    let events : s.events ≡ s.events ++ s.outbox =
      sym (append-nil s.events) ∙ ap (λ l. s.events ++ l) (sym p) in
    λ i. after (commands i) (r i) (events i)

-- Whole turns and whole batches lose nothing by leaving the channels out: a turn that begins with its
-- rows sent and the handler with no command to send, and then any sends, receives and batches through
-- the bounded channels, is a whole turn of the loop and some rounds of the handler, on what is in the
-- channels and what still waits to be sent taken together.
pub Exchanges-take_turn :
    (cfg : LocalEnv) (a : Around) (s t : Tasks)
    → s.outbox ≡ []
    → s.world.sent ≡ []
    → Exchanges cfg (poll_sources cfg a s) t
    → (times : List (Time × Bool)) × (merged t ≡ handle_all cfg times (take_turn cfg a (merged s)))
Exchanges-take_turn cfg a s t p r moves =
    let (times, same) = Exchanges-merged moves in
    (times, same ∙ ap (handle_all cfg times) (poll_sources-merged cfg a s p r))
