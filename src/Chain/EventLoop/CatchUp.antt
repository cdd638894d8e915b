-- ===== src/Chain/EventLoop/CatchUp.antt =====
-- The replay closes the gap: a cursor below the floor reaches it after finitely many polls.
use lend_worker_stellar.Base.{
  int_laws, ℕ, zero, suc, ◌≤◌, ℤ, pos, ◌≤ℤ◌, ◌<ℤ◌, ◌+ℤ◌, +ℤ_parts, ltb_ℤ, Text, Bool, true, false,
  Bool-cases, none, some, List, [], ◌∷◌, keys, ok, ◌≡◌, refl, sym, ap, ◌∙◌, inl, inr, arith,
}
use mathlib.Core.Path.{subst}
use lend_worker_stellar.Domain.Activity.{Activity}
use lend_worker_stellar.Chain.EventSource.Raw.{RawSorobanEvent}
use lend_worker_stellar.Chain.EventLoop.{
  LoopState, Context, Source, Replay, route, is_idle, forward, arrived, poll, Polled,
}
use lend_worker_stellar.Chain.EventLoop.Cursor.{poll-arrived}

-- So many polls in the same surroundings.
pub polls : Context → ℕ → LoopState → LoopState
polls ctx zero s = s
polls ctx (suc n) s = polls ctx n (poll ctx s).state

-- Below the floor the replay answers and moves on, as an archive does for ledgers that it holds.
pub record Replays (r : Replay) (floor : ℤ) : Type 0 where
  pub answers :
      (start : ℤ) (ids : List Text)
      → start <ℤ floor
      → (events : List RawSorobanEvent) × (next : ℤ) × (r.source start ids ≡ ok (events, next))
        × (start <ℤ next)

-- As long as the channel is open no send fails.
forward-open :
    (ctx : Context) (s : LoopState) (events : List RawSorobanEvent)
    → (forward ctx s none events).1 ≡ false
unfolding forward
forward-open ctx s [] = refl
forward-open ctx s (raw ∷ raws) = ground (arith, forward-open ctx s raws)

arrived-open :
    (s : LoopState) (next : ℤ) (f : List (List Activity) × Bool)
    → f.1 ≡ false
    → (arrived s next f).state ≡ record s { cursor = next }
arrived-open s next (sent, true) h = cc
arrived-open s next (sent, false) h = refl

module _ (ctx : Context) (r : Replay) (floor : ℤ) (replays : Replays r floor)
    (configured : ctx.backfill ≡ some r) (open_channel : ctx.open_for ≡ none) where
  poll-advances :
      (s : LoopState)
      → is_idle s ≡ false
      → s.retention_floor ≡ some floor
      → s.cursor <ℤ floor
      → (next : ℤ) × (s.cursor <ℤ next) × ((poll ctx s).state ≡ record s { cursor = next })
  poll-advances s busy known below =
      let (events, next, answered, ahead) = replays.answers s.cursor (keys s.contracts) below in
      let source : (route ctx s).0 ≡ r.source = unfold route in ground arith in
      let reply = ap (λ (f : Source). f s.cursor (keys s.contracts)) source ∙ answered in
      (
        next,
        ahead,
        ap (λ (p : Polled). p.state) (poll-arrived ctx s events next busy reply)
            ∙ arrived-open s next (forward ctx s ctx.open_for events) (
                subst (λ o. (forward ctx s o events).1 ≡ false) (sym open_channel)
                  (forward-open ctx s events)),
      )

  -- Once the floor is known, the replay closes the gap: if it answers below the floor and moves on
  -- each time, some contract is observed and the event channel is open, then within as many polls as
  -- the gap has ledgers the cursor has reached the floor.
  pub polls-catch_up :
      (n : ℕ) (s : LoopState)
      → is_idle s ≡ false
      → s.retention_floor ≡ some floor
      → floor ≤ℤ s.cursor +ℤ pos n
      → (k : ℕ) × (k ≤ n) × (floor ≤ℤ (polls ctx k s).cursor)
  unfolding polls
  polls-catch_up zero s busy known near = (zero, omega arith, grind int_laws)
  polls-catch_up (suc n) s busy known near = elim (Bool-cases (ltb_ℤ s.cursor floor)) [
    | inr reached ↦ (zero, omega arith, ground arith)
    | inl below ↦
        let (next, ahead, moved) = poll-advances s busy known (ground arith) in
        let (k, le, there) =
          polls-catch_up n (record s { cursor = next }) busy known
            (omega (arith, +ℤ_parts s.cursor (pos (suc n)), +ℤ_parts next (pos n))) in
        (suc k, omega arith, subst (λ x. floor ≤ℤ (polls ctx k x).cursor) (sym moved) there)
  ]
