-- ===== src/Chain/EventLoop/Known.antt =====
-- What the loop sends is what the handler makes of the events that a source handed over, for
-- operations that the commands named.
use lend_worker_stellar.Base.{
  ℕ, zero, suc, ℤ, Bool, true, false, Bool-cases, keys, text_key, Option, none, some, Option-cases,
  List, [], ◌∷◌, All, Result, ok, err, Result-cases, ◌≡◌, refl, inl, inr,
}
use lend_worker_stellar.Domain.Activity.{Activity}
use lend_worker_stellar.Chain.EventSource.Raw.{RawSorobanEvent}
use lend_worker_stellar.Chain.EventLoop.{
  LoopState, Context, rows_of, route, is_idle, forward, arrived, poll, recover,
  classify_fetch_error, Recovery, replay_gap, skip_gap, report,
}
use lend_worker_stellar.Chain.EventLoop.Cursor.{poll-arrived, poll-idle}
use lend_worker_stellar.Chain.EventLoop.Errors.{poll-failed}

-- The events that a poll's source hands over.
abbrev events_of : Result (List RawSorobanEvent × ℤ) → List RawSorobanEvent
events_of (ok (events, next)) = events
events_of (err e) = []

unfoldable pub handed : Context → LoopState → List RawSorobanEvent
unfolding route
handed ctx s = events_of ((route ctx s).0 s.cursor (keys s.contracts))

-- The rows of each event satisfy the predicate.
abbrev pub Makes : (List Activity → Type 0) → Context → LoopState → RawSorobanEvent → Type 0
Makes Q ctx s raw = (rows : List Activity) → rows_of ctx s raw ≡ some rows → Q rows

module _ (Q : List Activity → Type 0) (ctx : Context) (s : LoopState) where
  forward-All :
      (o : Option ℕ) (raws : List RawSorobanEvent)
      → All (Makes Q ctx s) raws
      → All Q (forward ctx s o raws).0
  unfolding forward
  forward-All o [] h = tt
  forward-All none (raw ∷ raws) h = elim (Option-cases (rows_of ctx s raw)) [
    | inl e ↦ rw (forward, e) (forward-All none raws h.1)
    | inr (rows, e) ↦ rw (forward, e) (h.0 rows e, forward-All none raws h.1)
  ]
  forward-All (some zero) (raw ∷ raws) h = elim (Option-cases (rows_of ctx s raw)) [
    | inl e ↦ rw (forward, e) (forward-All (some zero) raws h.1)
    | inr (rows, e) ↦ rw (forward, e) tt
  ]
  forward-All (some (suc n)) (raw ∷ raws) h = elim (Option-cases (rows_of ctx s raw)) [
    | inl e ↦ rw (forward, e) (forward-All (some (suc n)) raws h.1)
    | inr (rows, e) ↦ rw (forward, e) (h.0 rows e, forward-All (some n) raws h.1)
  ]

  arrived-sent : (next : ℤ) (f : List (List Activity) × Bool) → (arrived s next f).sent ≡ f.0
  arrived-sent next (sent, true) = refl
  arrived-sent next (sent, false) = refl

  pub poll-All : All (Makes Q ctx s) (handed ctx s) → All Q (poll ctx s).sent
  unfolding handed
  poll-All h = elim (Bool-cases (is_idle s)) [
    | inl idle ↦ unfold poll in rw idle tt
    | inr busy ↦ elim (Result-cases ((route ctx s).0 s.cursor (keys s.contracts))) [
      | inr (m, e) ↦ rw (poll-failed ctx s m busy e) tt
      | inl ((events, next), e) ↦
          rw
            (
              poll-arrived ctx s events next busy e,
              arrived-sent next (forward ctx s ctx.open_for events),
            )
            (forward-All ctx.open_for events (rw e at h))
    ]
  ]

recover-keeps :
    (s : LoopState) (r : Recovery)
    → ((recover s r).contracts ≡ s.contracts) × ((recover s r).fopid_to_opid ≡ s.fopid_to_opid)
recover-keeps s (replay_gap floor) = (refl, refl)
recover-keeps s (skip_gap floor) = (refl, refl)
recover-keeps s report = (refl, refl)

arrived-keeps :
    (s : LoopState) (next : ℤ) (f : List (List Activity) × Bool)
    → ((arrived s next f).state.contracts ≡ s.contracts)
      × ((arrived s next f).state.fopid_to_opid ≡ s.fopid_to_opid)
arrived-keeps s next (sent, true) = (refl, refl)
arrived-keeps s next (sent, false) = (refl, refl)

-- A poll leaves the observed contracts and the mapping alone.
pub poll-keeps :
    (ctx : Context) (s : LoopState)
    → ((poll ctx s).state.contracts ≡ s.contracts)
      × ((poll ctx s).state.fopid_to_opid ≡ s.fopid_to_opid)
poll-keeps ctx s = elim (Bool-cases (is_idle s)) [
  | inl idle ↦ rw (poll-idle ctx s idle) (refl, refl)
  | inr busy ↦ elim (Result-cases ((route ctx s).0 s.cursor (keys s.contracts))) [
    | inr (m, e) ↦
        rw (poll-failed ctx s m busy e)
          (recover-keeps s (classify_fetch_error m s.cursor (route ctx s).1))
    | inl ((events, next), e) ↦
        rw (poll-arrived ctx s events next busy e)
          (arrived-keeps s next (forward ctx s ctx.open_for events))
  ]
]
