-- ===== src/Chain/EventLoop/Coverage.antt =====
-- Runs of the loop: no ledger is passed unread while the archival replay is configured, and a gap
-- is caught up.
use lend_worker_stellar.Base.{
  Any-append_left, Any-append_right, ℤ, ◌≤ℤ◌, ◌<ℤ◌, Text, Bool, true, false, Bool-cases, some, List,
  [], ◌∷◌, ◌++◌, Any, keys, Result, ok, err, Result-cases, ◌≡◌, ◌⊎◌, inl, inr, if◌then◌else◌, arith,
}
use lend_worker_stellar.Config.Types.{IndexerCommand}
use lend_worker_stellar.Domain.Activity.{Activity}
use lend_worker_stellar.Chain.EventSource.Raw.{RawSorobanEvent}
use lend_worker_stellar.Chain.EventLoop.{
  LoopState, Context, Replay, apply_command, route, is_idle, forward, arrived, recover, poll,
  classify_fetch_error, live_with_backfill, backfill_archival,
}
use lend_worker_stellar.Chain.EventLoop.Errors.{poll-failed}
use lend_worker_stellar.Chain.EventLoop.Cursor.{poll-arrived, poll-idle}

-- A range of ledgers that the cursor passed: read by a fetch that succeeded, or declared to need no
-- reading by a command, through its contracts' `latest_block` or the configured start ledger.
pub data Span : Type 0 where
  read declared : ℤ → ℤ → Span

abbrev pub Covers : ℤ → Span → Type 0
Covers l (read a b) = (a ≤ℤ l) × (l <ℤ b)
Covers l (declared a b) = (a ≤ℤ l) × (l <ℤ b)

-- What a poll read.
abbrev read_by_forward : ℤ → ℤ → List (List Activity) × Bool → List Span
read_by_forward a b (sent, true) = []
read_by_forward a b (sent, false) = read a b ∷ []

abbrev read_by_reply : Context → LoopState → Result (List RawSorobanEvent × ℤ) → List Span
read_by_reply ctx s (err e) = []
read_by_reply ctx s (ok (events, next)) =
    read_by_forward s.cursor next (forward ctx s ctx.open_for events)

unfoldable pub read_by : Context → LoopState → List Span
read_by ctx s =
    if is_idle s then [] else read_by_reply ctx s ((route ctx s).0 s.cursor (keys s.contracts))

-- Runs in which every context has an archival replay; the spans that were passed, latest first.
pub data Run (s : LoopState) : List Span → LoopState → Type 0 where
  here : Run s [] s
  updated :
      {spans : List Span} {t u : LoopState} {more : List Span} (low : ℤ) (command : IndexerCommand)
      → Run s spans t
      → u ≡ apply_command low t command
      → more ≡ declared t.cursor u.cursor ∷ spans
      → Run s more u
  polled :
      {spans : List Span} {t u : LoopState} {more : List Span} (ctx : Context) (r : Replay)
      → ctx.backfill ≡ some r
      → r.attempt ≡ backfill_archival
      → Run s spans t
      → u ≡ (poll ctx t).state
      → more ≡ read_by ctx t ++ spans
      → Run s more u

module _ (ctx : Context) (s : LoopState) (r : Replay) (configured : ctx.backfill ≡ some r)
    (archival : r.attempt ≡ backfill_archival) where
  route-attempt : ((route ctx s).1 ≡ live_with_backfill) ⊎ ((route ctx s).1 ≡ backfill_archival)
  unfolding route
  route-attempt = ground arith

  held :
      (e : Text) → (recover s (classify_fetch_error e s.cursor (route ctx s).1)).cursor ≡ s.cursor
  unfolding classify_fetch_error
  held e = elim route-attempt [ inl a ↦ rw a (ground arith) | inr a ↦ rw a ]

arrived-Covers :
    (s : LoopState) (next l : ℤ) (f : List (List Activity) × Bool)
    → s.cursor ≤ℤ l
    → l <ℤ (arrived s next f).state.cursor
    → Any (Covers l) (read_by_forward s.cursor next f)
arrived-Covers s next l (sent, true) h k = absurd (omega arith)
arrived-Covers s next l (sent, false) h k = inl (h, k)

poll-Covers :
    (ctx : Context) (s : LoopState) (r : Replay) (l : ℤ)
    → ctx.backfill ≡ some r
    → r.attempt ≡ backfill_archival
    → s.cursor ≤ℤ l
    → l <ℤ (poll ctx s).state.cursor
    → Any (Covers l) (read_by ctx s)
unfolding read_by
poll-Covers ctx s r l configured archival h k = elim (Bool-cases (is_idle s)) [
  | inl idle ↦ absurd (let k' = rw (poll-idle ctx s idle) at k in omega arith)
  | inr busy ↦ elim (Result-cases ((route ctx s).0 s.cursor (keys s.contracts))) [
    | inl ((events, next), e) ↦
        rw (busy, e)
          (arrived-Covers s next l (forward ctx s ctx.open_for events) h
            (rw (poll-arrived ctx s events next busy e) at k))
    | inr (m, e) ↦ absurd (
        let k' = rw (poll-failed ctx s m busy e) at k in
        let q = held ctx s r configured archival m in let k'' = rw q at k' in omega arith)
  ]
]

split_at : (l c : ℤ) → (l <ℤ c) ⊎ (c ≤ℤ l)
split_at l c = omega arith

-- With the archival replay configured, in any run of updates and polls, whatever the sources answer,
-- every ledger that the cursor has passed lies in a range that a successful fetch read, or that a
-- command skipped by its contracts' latest blocks or the configured start: no error skips a gap.
pub Run-Covers :
    {s t : LoopState} {spans : List Span} (l : ℤ)
    → Run s spans t
    → s.cursor ≤ℤ l
    → l <ℤ t.cursor
    → Any (Covers l) spans
Run-Covers l here h k = absurd (omega arith)
Run-Covers l (updated {spans = spans} {t = t} {u = u} low command run e m) h k =
    elim (split_at l t.cursor) [
      | inl below ↦ rw m (inr (Run-Covers l run h below))
      | inr above ↦ rw m (inl (above, k))
    ]
Run-Covers l (polled {spans = spans} {t = t} {u = u} ctx r configured archival run e m) h k =
    elim (split_at l t.cursor) [
      | inl below ↦
          rw m (Any-append_right (Covers l) (read_by ctx t) spans (Run-Covers l run h below))
      | inr above ↦ rw m (
          Any-append_left (Covers l) (read_by ctx t) spans
            (poll-Covers ctx t r l configured archival above (rw e at k)))
    ]
