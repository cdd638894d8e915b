-- ===== src/System/Channels/Free.antt =====
-- A turn with few creation events is never stuck.
use lend_worker_stellar.Base.{
  ℕ, ltb, Bool-cases, ◌+◌, ◌<◌, ◌≤◌, List, [], ◌∷◌, ◌++◌, length, length-append, ◌≡◌, ◌⊎◌, inl, inr,
  refl, ap, ◌∙◌, arith,
}
use lend_worker_stellar.Config.Types.{IndexerCommand}
use lend_worker_stellar.Config.Env.{LocalEnv}
use lend_worker_stellar.Domain.Operation.{Time}
use lend_worker_stellar.Domain.Activity.{Activity}
use lend_worker_stellar.App.Handler.Commands.{creations, process_events-Adds}
use lend_worker_stellar.System.{Around}
use lend_worker_stellar.System.Channels.{
  event_capacity, command_capacity, Tasks, poll_sources, Exchange, row_sent, handled, command_sent,
  Move, polled, exchanged, Exchanges, here, next, IsStuck,
}

-- The creation events of all batches.
abbrev pub all_creations : List (List Activity) → ℕ
all_creations [] = 0
all_creations (rows ∷ batches) = creations rows + all_creations batches

-- The commands that are there, are to be sent, or may still come of the rows of this turn.
abbrev pub load : Tasks → ℕ
load s = length s.commands + length s.world.sent + all_creations s.events + all_creations s.outbox

all_creations-append :
    (bs cs : List (List Activity)) → all_creations (bs ++ cs) ≡ all_creations bs + all_creations cs
all_creations-append [] cs = omega arith
all_creations-append (b ∷ bs) cs = omega (arith, all_creations-append bs cs)

module _ (cfg : LocalEnv) (s : Tasks) where
  handler_goes_on :
      (now : Time) (events : List (List Activity)) (sent : List IndexerCommand)
      → s.events ≡ events
      → s.world.sent ≡ sent
      → 0 < length s.outbox
      → event_capacity ≤ length s.events
      → ((t : Tasks) × Exchange cfg s t) ⊎ IsStuck s
  handler_goes_on now [] sent q r waits full =
      let none_left : length s.events ≡ 0 = ap length q in absurd (omega (arith, none_left, full))
  handler_goes_on now (rows ∷ rest) [] q r waits full = inl (_, handled now r q refl)
  handler_goes_on now (rows ∷ rest) (c ∷ cs) q r waits full =
      elim (Bool-cases (ltb (length s.commands) command_capacity)) [
        | inl room ↦ inl (_, command_sent r (ground arith) refl)
        | inr none_left ↦ inr (record {
          rows_wait = waits;
          events_full = full;
          command_waits = ground (arith, ap length r);
          commands_full = ground arith;
        })
      ]

  -- Either task can go on, or both wait.
  Move-or_IsStuck :
      (a : Around) (now : Time) (outbox : List (List Activity))
      → s.outbox ≡ outbox
      → ((t : Tasks) × Move cfg s t) ⊎ IsStuck s
  Move-or_IsStuck a now [] p = inl (poll_sources cfg a s, polled a p refl)
  Move-or_IsStuck a now (rows ∷ rest) p = elim (Bool-cases (ltb (length s.events) event_capacity)) [
    | inl room ↦ inl (_, exchanged (row_sent p (ground arith) refl))
    | inr full ↦
        elim (handler_goes_on now s.events s.world.sent refl refl (ground (arith, ap length p))
          (ground arith)) [ inl (t, m) ↦ inl (t, exchanged m) | inr stuck ↦ inr stuck ]
  ]

  -- An exchange adds no load: a batch is handled into at most as many commands as it counts for.
  Exchange-load : (t : Tasks) → Exchange cfg s t → load t ≤ load s
  Exchange-load t (row_sent {rows = rows} {rest = rest} p room e) =
      let outbox : all_creations s.outbox ≡ creations rows + all_creations rest =
        ap all_creations p in
      rw e (omega (arith, outbox, all_creations-append s.events (rows ∷ [])))
  Exchange-load t (handled {rows = rows} {rest = rest} now r q e) =
      let events : all_creations s.events ≡ creations rows + all_creations rest =
        ap all_creations q in
      let (more, sent, few) = process_events-Adds cfg now rows s.world in
      let count = ap length (sent ∙ ap (λ l. l ++ more) r) in
      rw e (omega (arith, events, few, count))
  Exchange-load t (command_sent {c = c} {rest = rest} r room e) =
      let sent : length s.world.sent ≡ length (c ∷ rest) = ap length r in
      rw e (omega (arith, sent, length-append s.commands (c ∷ [])))

Exchanges-load : {cfg : LocalEnv} {s t : Tasks} → Exchanges cfg s t → load t ≤ load s
Exchanges-load here = omega arith
Exchanges-load {cfg = cfg} {s = s} (next {t = t} {u = u} r m) =
    omega (arith, Exchanges-load r, Exchange-load cfg t u m)

IsStuck-load : (s : Tasks) → IsStuck s → command_capacity < load s
IsStuck-load s k = omega (arith, k.command_waits, k.commands_full)

-- From a state with at most ten commands there, to be sent, or still to come of the creation events
-- whose rows wait in the channel or in the loop, whatever sends, receives and batches follow before
-- the next poll: one of the two tasks can go on. A turn with few creation events cannot block.
pub Exchanges-Move :
    (cfg : LocalEnv) (a : Around) (now : Time) (s t : Tasks)
    → load s ≤ command_capacity
    → Exchanges cfg s t
    → (u : Tasks) × Move cfg t u
Exchanges-Move cfg a now s t few r = elim (Move-or_IsStuck cfg t a now t.outbox refl) [
  | inl moved ↦ moved
  | inr stuck ↦ absurd (omega (arith, few, Exchanges-load r, IsStuck-load t stuck))
]
