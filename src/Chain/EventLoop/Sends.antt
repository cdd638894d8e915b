-- ===== src/Chain/EventLoop/Sends.antt =====
-- What a poll hands to the handler.
use lend_worker_stellar.Base.{
  ℕ, zero, suc, ◌<◌, ◌≤◌, ltb, ℤ, Bool, true, false, Bool-cases, Option, none, some, Option-cases,
  List, [], ◌∷◌, length, take, keys, ok, ◌≡◌, refl, ap, ◌∙◌, inl, inr, arith,
}
use lend_worker_stellar.Domain.Activity.{Activity}
use lend_worker_stellar.Chain.EventSource.Raw.{RawSorobanEvent}
use lend_worker_stellar.Chain.EventLoop.{
  LoopState, Context, rows_of, route, is_idle, forward, arrived, poll,
}
use lend_worker_stellar.Chain.EventLoop.Cursor.{poll-arrived}

-- The rows of the events, one batch an event that has any, in the order of the events.
unfoldable pub all_rows : Context → LoopState → List RawSorobanEvent → List (List Activity)
all_rows ctx s [] = []
all_rows ctx s (raw ∷ raws) =
    let rest = all_rows ctx s raws in
    elim (rows_of ctx s raw) [ none ↦ rest | some rows ↦ rows ∷ rest ]

-- What was sent, and whether the channel closed, if so many sends succeed.
abbrev within : Option ℕ → List (List Activity) → List (List Activity) × Bool
within none rows = (rows, false)
within (some n) rows = (take n rows, ltb n (length rows))

forward_lem :
    (ctx : Context) (s : LoopState) (o : Option ℕ) (events : List RawSorobanEvent)
    → forward ctx s o events ≡ within o (all_rows ctx s events)
unfolding forward all_rows
forward_lem ctx s none [] = refl
forward_lem ctx s (some zero) [] = ground arith
forward_lem ctx s (some (suc n)) [] = ground arith
forward_lem ctx s none (raw ∷ raws) = elim (Option-cases (rows_of ctx s raw)) [
  | inl e ↦ rw (forward, all_rows, e) (forward_lem ctx s none raws)
  | inr (rows, e) ↦ rw (forward, all_rows, e) (ground (arith, forward_lem ctx s none raws))
]
forward_lem ctx s (some zero) (raw ∷ raws) = elim (Option-cases (rows_of ctx s raw)) [
  | inl e ↦ rw (forward, all_rows, e) (forward_lem ctx s (some zero) raws)
  | inr (rows, e) ↦ rw (forward, all_rows, e) (ground arith)
]
forward_lem ctx s (some (suc n)) (raw ∷ raws) = elim (Option-cases (rows_of ctx s raw)) [
  | inl e ↦ rw (forward, all_rows, e) (forward_lem ctx s (some (suc n)) raws)
  | inr (rows, e) ↦ rw (forward, all_rows, e) (ground (arith, forward_lem ctx s (some n) raws))
]

take-all : (n : ℕ) (rows : List (List Activity)) → length rows ≤ n → take n rows ≡ rows
take-all zero [] h = refl
take-all zero (r ∷ rows) h = absurd (omega arith)
take-all (suc n) [] h = refl
take-all (suc n) (r ∷ rows) h = ap (λ l. r ∷ l) (take-all n rows (omega (arith, h)))

-- What the loop is left with after the sends.
arrived-sends :
    (s : LoopState) (next : ℤ) (o : Option ℕ) (rows : List (List Activity))
    → ((arrived s next (within o rows)).stopped ≡ false
        → ((arrived s next (within o rows)).sent ≡ rows)
          × ((arrived s next (within o rows)).state ≡ record s { cursor = next }))
      × ((arrived s next (within o rows)).stopped ≡ true
          → ((arrived s next (within o rows)).state ≡ s)
            × (n : ℕ) × (o ≡ some n)
            × (n < length rows)
            × ((arrived s next (within o rows)).sent ≡ take n rows))
arrived-sends s next none rows = ((λ h. (refl, refl)), (λ h. cc))
arrived-sends s next (some n) rows = elim (Bool-cases (ltb n (length rows))) [
  | inl short ↦ rw short ((λ h. cc), (λ h. (refl, n, refl, ground arith, refl)))
  | inr enough ↦ rw enough ((λ h. (take-all n rows (ground arith), refl)), (λ h. cc))
]

-- If a fetch succeeds and the loop goes on, then the handler has been sent the rows of every event of
-- an observed contract, in the order of the events, and the cursor moves to the resume ledger. The
-- loop stops only if the event channel closes before all of them are sent; it has then sent those in
-- front, and the cursor has not moved.
pub poll-sends :
    (ctx : Context) (s : LoopState) (events : List RawSorobanEvent) (next : ℤ)
    → is_idle s ≡ false
    → (route ctx s).0 s.cursor (keys s.contracts) ≡ ok (events, next)
    → ((poll ctx s).stopped ≡ false
        → ((poll ctx s).sent ≡ all_rows ctx s events)
          × ((poll ctx s).state ≡ record s { cursor = next }))
      × ((poll ctx s).stopped ≡ true
          → ((poll ctx s).state ≡ s)
            × (n : ℕ) × (ctx.open_for ≡ some n)
            × (n < length (all_rows ctx s events))
            × ((poll ctx s).sent ≡ take n (all_rows ctx s events)))
poll-sends ctx s events next busy answered =
    let same : poll ctx s ≡ arrived s next (within ctx.open_for (all_rows ctx s events)) =
      poll-arrived ctx s events next busy answered
      ∙ ap (arrived s next) (forward_lem ctx s ctx.open_for events) in
    rw same (arrived-sends s next ctx.open_for (all_rows ctx s events))
