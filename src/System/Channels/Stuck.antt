-- ===== src/System/Channels/Stuck.antt =====
-- A turn with many creation events gets stuck.
use mathlib.Core.List.{append_assoc, append-nil}
use mathlib.Core.Path.{subst}
use lend_worker_stellar.Base.{
  ℕ, true, zero, suc, ◌+◌, ◌<◌, ◌≤◌, List, [], ◌∷◌, ◌++◌, length, length-append, take, drop,
  take-drop, ◌≡◌, refl, sym, ap, ◌∙◌, arith,
}
use lend_worker_stellar.Config.Types.{IndexerCommand}
use lend_worker_stellar.Config.Env.{LocalEnv}
use lend_worker_stellar.Domain.Operation.{Time}
use lend_worker_stellar.Domain.Activity.{Activity}
use lend_worker_stellar.Storage.Tables.{Db}
use lend_worker_stellar.Storage.Stores.{pg_stores}
use lend_worker_stellar.App.Discovery.{World}
use lend_worker_stellar.App.Handler.{process_events}
use lend_worker_stellar.System.Channels.{
  event_capacity, command_capacity, Tasks, row_sent, handled, command_sent, Move, polled, exchanged,
  Exchanges, here, next, IsStuck,
}

-- Neither task can go on.
IsStuck-blocks : (cfg : LocalEnv) (s t : Tasks) → IsStuck s → ¬ Move cfg s t
IsStuck-blocks cfg s t k (polled a p e) =
    let none_left = ap length p in omega (arith, k.rows_wait, none_left)
IsStuck-blocks cfg s t k (exchanged (row_sent p room e)) = omega (arith, k.events_full, room)
IsStuck-blocks cfg s t k (exchanged (handled now r q e)) =
    let none_left = ap length r in omega (arith, k.command_waits, none_left)
IsStuck-blocks cfg s t k (exchanged (command_sent r room e)) = omega (arith, k.commands_full, room)

Exchanges-append :
    {cfg : LocalEnv} {s t u : Tasks} → Exchanges cfg s t → Exchanges cfg t u → Exchanges cfg s u
Exchanges-append r here = r
Exchanges-append r (next q m) = next (Exchanges-append r q) m

-- Each of the batches makes the handler send one command.
abbrev pub Announcing : LocalEnv → Time → World Db → List (List Activity) → Type 0
Announcing cfg now w [] = Unit
Announcing cfg now w (rows ∷ batches) =
    (c : IndexerCommand) × ((process_events cfg now pg_stores true rows w).sent ≡ c ∷ [])
    × Announcing cfg now (record (process_events cfg now pg_stores true rows w) { sent = [] })
        batches

length-take : (n : ℕ) (l : List (List Activity)) → n ≤ length l → length (take n l) ≡ n
length-take zero l h = refl
length-take (suc n) [] h = absurd (omega (arith, h))
length-take (suc n) (x ∷ l) h = omega (arith, length-take n l (omega (arith, h)))

module _ (cfg : LocalEnv) where
  -- The loop sends rows while there is room.
  fill :
      (front behind : List (List Activity)) (s : Tasks)
      → s.outbox ≡ front ++ behind
      → length s.events + length front ≤ event_capacity
      → Exchanges cfg s (record s { outbox = behind; events = s.events ++ front })
  fill [] behind s p room =
      subst (λ (t : Tasks). Exchanges cfg s t)
        (λ i. record s { outbox = p i; events = sym (append-nil s.events) i }) here
  fill (rows ∷ front) behind s p room =
      let first : Tasks = record s { outbox = front ++ behind; events = s.events ++ rows ∷ [] } in
      let rest =
        fill front behind first refl (omega (arith, room, length-append s.events (rows ∷ []))) in
      Exchanges-append (next here (row_sent p (omega (arith, room)) refl)) (
        subst (λ l. Exchanges cfg first (record first { outbox = behind; events = l }))
          (append_assoc s.events (rows ∷ []) front) rest)

  -- The handler takes the batches in the channel, until a command finds no room.
  jam :
      (now : Time) (batches : List (List Activity)) (s : Tasks)
      → s.events ≡ batches
      → s.world.sent ≡ []
      → length s.commands + length batches ≡ suc command_capacity
      → length s.commands ≤ command_capacity
      → Announcing cfg now s.world batches
      → (t : Tasks) × Exchanges cfg s t
        × (t.outbox ≡ s.outbox)
        × (t.events ≡ [])
        × (0 < length t.world.sent)
        × (command_capacity ≤ length t.commands)
  jam now [] s q r total few h = absurd (omega (arith, total, few))
  jam now (rows ∷ []) s q r total few (c, sent, later) =
      let w : World Db = process_events cfg now pg_stores true rows s.world in
      let one = ap length sent in
      (
        record s { world = w; events = [] },
        next here (handled now r q refl),
        refl,
        refl,
        omega (arith, one),
        omega (arith, total),
      )
  jam now (rows ∷ more ∷ batches) s q r total few (c, sent, later) =
      let w : World Db = process_events cfg now pg_stores true rows s.world in
      let taken : Tasks = record s { world = w; events = more ∷ batches } in
      let told : Tasks = record taken {
        world = record w { sent = [] };
        commands = s.commands ++ c ∷ [];
      } in
      let moves : Exchanges cfg s told =
        next (next here (handled now r q refl)) (command_sent sent (omega (arith, total)) refl) in
      let (t, r', outbox, events, waits, full) =
        jam now (more ∷ batches) told refl refl
          (omega (arith, total, length-append s.commands (c ∷ [])))
          (omega (arith, total, length-append s.commands (c ∷ []))) later in
      (t, Exchanges-append moves r', outbox, events, waits, full)

-- The two tasks can wait for each other for good. Let a poll leave, with nothing in the channels and
-- no command to send, eleven batches that each make the handler send a command, and behind them more
-- than a thousand others: then sends and receives lead to a state in which the loop waits for room for
-- a batch and the handler for room for a command, and neither can take a step.
pub Exchanges-IsStuck :
    (cfg : LocalEnv) (now : Time) (s : Tasks) (front behind : List (List Activity))
    → s.outbox ≡ front ++ behind
    → s.events ≡ []
    → s.world.sent ≡ []
    → s.commands ≡ []
    → length front ≡ suc command_capacity
    → event_capacity < length behind
    → Announcing cfg now s.world front
    → (t : Tasks) × Exchanges cfg s t × IsStuck t × ¬ ((u : Tasks) × Move cfg t u)
Exchanges-IsStuck cfg now s front behind p q r none_there eleven many h =
    let no_events = ap length q in
    let no_commands = ap length none_there in
    let first = fill cfg front behind s p (omega (arith, no_events, eleven)) in
    let full : Tasks = record s { outbox = behind; events = s.events ++ front } in
    let (t, jammed, outbox, events, waits, commands) =
      jam cfg now front full (ap (λ l. l ++ front) q) r (omega (arith, no_commands, eleven))
        (omega (arith, no_commands)) h in
    let few : List (List Activity) = take event_capacity behind in
    let rest : List (List Activity) = drop event_capacity behind in
    let shape : t.outbox ≡ few ++ rest = outbox ∙ sym (take-drop event_capacity behind) in
    let thousand = length-take event_capacity behind (omega (arith, many)) in
    let empty = ap length events in
    let last = fill cfg few rest t shape (omega (arith, thousand, empty)) in
    let parts = length-append few rest in
    let whole = ap length (take-drop event_capacity behind) in
    let end : Tasks = record t { outbox = rest; events = t.events ++ few } in
    let stuck : IsStuck end = record {
      rows_wait = omega (arith, parts, whole, many, thousand);
      events_full = omega (arith, length-append t.events few, thousand);
      command_waits = waits;
      commands_full = commands;
    } in
    (
      end,
      Exchanges-append (Exchanges-append first jammed) last,
      stuck,
      (λ m. IsStuck-blocks cfg end m.0 stuck m.1),
    )
