-- ===== src/Chain/EventLoop/Errors.antt =====
-- What a failed fetch does to the cursor and to the choice of the source.
use lend_worker_stellar.Base.{
  ℤ, ◌<ℤ◌, Text, false, Option, none, some, [], keys, err, ◌≡◌, ◌≢◌, refl, ap, ◌∙◌, Bool-cases, ◌⊎◌,
  inl, inr, arith,
}
use lend_worker_stellar.Chain.EventSource.Range.{parse_ledger_range}
use lend_worker_stellar.Chain.EventLoop.{
  Attempt, live_only, live_with_backfill, backfill_bounded, backfill_archival, Recovery, replay_gap,
  skip_gap, report, classify_fetch_error, Replay, LoopState, Context, route, choose, is_idle, poll,
  Polled, recover, below_floor, Source,
}

pub poll-failed :
    (ctx : Context) (s : LoopState) (e : Text)
    → is_idle s ≡ false
    → (route ctx s).0 s.cursor (keys s.contracts) ≡ err e
    → poll ctx s ≡ record {
      state = recover s (classify_fetch_error e s.cursor (route ctx s).1);
      sent = [];
      stopped = false;
    }
unfolding poll
poll-failed ctx s e busy failed = ground arith

choose-with_backfill :
    (live : Source) (cursor : ℤ) (floor : Option ℤ) (backfill : Option Replay)
    → (choose live cursor floor backfill).1 ≡ live_with_backfill
    → (r : Replay) × (backfill ≡ some r)
choose-with_backfill live cursor floor none h = cc
choose-with_backfill live cursor floor (some r) h = (r, refl)

choose-below :
    (live : Source) (cursor floor : ℤ) (r : Replay)
    → cursor <ℤ floor
    → choose live cursor (some floor) (some r) ≡ (r.source, r.attempt)
choose-below live cursor floor r h = ground arith

-- What the loop does with an error that names a range above the cursor.
classify-below :
    (e : Text) (cursor low high : ℤ) (attempt : Attempt)
    → parse_ledger_range e ≡ some (low, high)
    → cursor <ℤ low
    → attempt ≢ backfill_archival
    → classify_fetch_error e cursor attempt ≡ below_floor low attempt
unfolding classify_fetch_error
classify-below e cursor low high backfill_archival range below ne = absurd (ne refl)
classify-below e cursor low high attempt range below ne = rw range (ground arith)

choose-at_floor :
    (live : Source) (floor : ℤ) (backfill : Option Replay)
    → (choose live floor (some floor) backfill).0 ≡ live
choose-at_floor live floor none = refl
choose-at_floor live floor (some r) = ground arith

Attempt-cases :
    (a : Attempt)
    → a ≢ backfill_archival
    → (a ≡ live_with_backfill) ⊎ ((a ≡ live_only) ⊎ (a ≡ backfill_bounded))
Attempt-cases live_only ne = inr (inl refl)
Attempt-cases live_with_backfill ne = inl refl
Attempt-cases backfill_bounded ne = inr (inr refl)
Attempt-cases backfill_archival ne = absurd (ne refl)

below_floor-skips :
    (a : Attempt) (low : ℤ)
    → (a ≡ live_only) ⊎ (a ≡ backfill_bounded)
    → below_floor low a ≡ skip_gap low
below_floor-skips a low (inl e) = ap (below_floor low) e
below_floor-skips a low (inr e) = ap (below_floor low) e

module _ (ctx : Context) (s : LoopState) where
  poll-recovered :
      (e : Text) (recovery : Recovery)
      → is_idle s ≡ false
      → (route ctx s).0 s.cursor (keys s.contracts) ≡ err e
      → classify_fetch_error e s.cursor (route ctx s).1 ≡ recovery
      → (poll ctx s).state ≡ recover s recovery
  poll-recovered e recovery busy failed class =
      ap (λ (p : Polled). p.state) (poll-failed ctx s e busy failed) ∙ ap (recover s) class

  route-below :
      (low : ℤ) (r : Replay)
      → ctx.backfill ≡ some r
      → s.cursor <ℤ low
      → route ctx (recover s (replay_gap low)) ≡ (r.source, r.attempt)
  unfolding route
  route-below low r q below = rw q (choose-below ctx.live s.cursor low r below)

  route-skipped : (low : ℤ) → (route ctx (recover s (skip_gap low))).0 ≡ ctx.live
  unfolding route
  route-skipped low = choose-at_floor ctx.live low ctx.backfill

  -- Suppose a fetch fails with a message that names a ledger range above the cursor, and the source
  -- was not the archival replay. The floor is learned. If the source was the live one with a replay
  -- behind it, the cursor stays and the next poll asks the replay. If it was the live one alone or the
  -- bounded replay, the cursor moves to the floor and the next poll asks the live source.
  pub poll-rejected_below_floor :
      (e : Text) (low high : ℤ)
      → is_idle s ≡ false
      → (route ctx s).0 s.cursor (keys s.contracts) ≡ err e
      → parse_ledger_range e ≡ some (low, high)
      → s.cursor <ℤ low
      → (route ctx s).1 ≢ backfill_archival
      → ((poll ctx s).state.retention_floor ≡ some low)
        × ((((route ctx s).1 ≡ live_with_backfill)
              × ((poll ctx s).state.cursor ≡ s.cursor)
              × ((r : Replay) × (ctx.backfill ≡ some r)
                  × (route ctx (poll ctx s).state ≡ (r.source, r.attempt))))
            ⊎ ((((route ctx s).1 ≡ live_only) ⊎ ((route ctx s).1 ≡ backfill_bounded))
                × ((poll ctx s).state.cursor ≡ low)
                × ((route ctx (poll ctx s).state).0 ≡ ctx.live)))
  poll-rejected_below_floor e low high busy failed range below bounded =
      let attempt : Attempt = (route ctx s).1 in
      let class = classify-below e s.cursor low high attempt range below bounded in
      elim (Attempt-cases attempt bounded) [
        | inl a ↦
            let (r, q) =
              choose-with_backfill ctx.live s.cursor s.retention_floor ctx.backfill
                (unfold route in a) in
            rw (poll-recovered e (replay_gap low) busy failed (class ∙ ap (below_floor low) a))
              (refl, inl (a, refl, (r, q, route-below low r q below)))
        | inr a ↦
            rw
              (poll-recovered e (skip_gap low) busy failed
                (class ∙ below_floor-skips attempt low a))
              (refl, inr (a, refl, route-skipped low))
      ]

  -- While the archival replay is being asked, no failure moves the cursor, skips a ledger or forgets
  -- the floor: the gap is still recoverable, so the loop holds and reports.
  poll-archival_failure :
      (e : Text)
      → (route ctx s).0 s.cursor (keys s.contracts) ≡ err e
      → (route ctx s).1 ≡ backfill_archival
      → (poll ctx s).state ≡ s
  unfolding classify_fetch_error
  poll-archival_failure e failed archival = elim (Bool-cases (is_idle s)) [
    | inl idle ↦ unfold poll in ground arith
    | inr busy ↦ poll-recovered e report busy failed (ap (classify_fetch_error e s.cursor) archival)
  ]
