-- ===== src/Chain/EventSource/Retry/Budget.antt =====
-- The retry budget: how many calls are made, how long the worker waits, and what is returned.
use lend_worker_stellar.Base.{
  ℕ, zero, suc, ◌+◌, ◌*◌, ◌≤◌, ◌<◌, Text, lit, true, false, Bool-cases, List, ◌++◌, ok, err,
  Result-cases, ◌≡◌, refl, inl, inr, ◌⊎◌, arith,
}
use mathlib.Core.Path.{subst}
use lend_worker_stellar.Chain.EventSource.Retry.{
  GetEventsResponse, EventStart, Client, is_transient_rpc_error, rpc_max_retries, rpc_backoff_base,
  Attempted, capped, retry_loop, get_events_retrying,
}

-- The sleeps of so many retries, each twice the one before, up to the cap.
pub budget : ℕ → ℕ → ℕ
budget zero backoff = 0
budget (suc left) backoff = backoff + budget left (capped (backoff * 2))

-- How a request may go, call by call: it is answered; or it fails and the failure is passed on,
-- because it is permanent or no retry is left; or it fails in transit and the next call decides.
pub data Requests (client : Client) (page_limit : ℕ) (start : EventStart) (ids : List Text)
    (out : Attempted) : ℕ → ℕ → Type 0 where
  answered :
      {left now : ℕ} (resp : GetEventsResponse)
      → client now start ids page_limit ≡ ok resp
      → out.reply ≡ ok resp
      → out.next_call ≡ suc now
      → Requests client page_limit start ids out left now
  passed_on :
      {left now : ℕ} (e : Text)
      → client now start ids page_limit ≡ err e
      → (left ≡ 0) ⊎ (is_transient_rpc_error e ≡ false)
      → out.reply ≡ err (lit "getEvents failed: " ++ e)
      → out.next_call ≡ suc now
      → Requests client page_limit start ids out left now
  retried :
      {left now : ℕ} (e : Text)
      → client now start ids page_limit ≡ err e
      → is_transient_rpc_error e ≡ true
      → Requests client page_limit start ids out left (suc now)
      → Requests client page_limit start ids out (suc left) now

-- A request makes at least one call, and at most one more than the retries left.
Requests-calls :
    {client : Client} {page_limit : ℕ} {start : EventStart} {ids : List Text} {out : Attempted}
    {left now : ℕ}
    → Requests client page_limit start ids out left now
    → (now < out.next_call) × (out.next_call ≤ now + left + 1)
Requests-calls (answered resp e r n) = omega arith
Requests-calls (passed_on m e w r n) = omega arith
Requests-calls (retried m e t q) = omega (arith, Requests-calls q)

module _ (client : Client) (page_limit : ℕ) (start : EventStart) (ids : List Text) where
  retry_loop-again :
      (left backoff now waited : ℕ) (e : Text)
      → client now start ids page_limit ≡ err e
      → is_transient_rpc_error e ≡ true
      → retry_loop client page_limit start ids left
          (capped (backoff * 2))
          (suc now)
          (waited + backoff)
        ≡ retry_loop client page_limit start ids (suc left) backoff now waited
  unfolding retry_loop
  retry_loop-again left backoff now waited e failed transient = ground arith

  retry_loop-Requests :
      (left backoff now waited : ℕ)
      → Requests client page_limit start ids
          (retry_loop client page_limit start ids left backoff now waited)
          left
          now
  unfolding retry_loop
  retry_loop-Requests zero backoff now waited =
      elim (Result-cases (client now start ids page_limit)) [
        | inl (resp, e) ↦ answered resp e (ground arith) (ground arith)
        | inr (m, e) ↦ passed_on m e (inl refl) (ground arith) (ground arith)
      ]
  retry_loop-Requests (suc left) backoff now waited =
      elim (Result-cases (client now start ids page_limit)) [
        | inl (resp, e) ↦ answered resp e (ground arith) (ground arith)
        | inr (m, e) ↦ elim (Bool-cases (is_transient_rpc_error m)) [
          | inl again ↦ retried m e again (
              subst (λ out. Requests client page_limit start ids out left (suc now))
                (retry_loop-again left backoff now waited m e again)
                (retry_loop-Requests left (capped (backoff * 2)) (suc now) (waited + backoff)))
          | inr over ↦ passed_on m e (inr over) (ground arith) (ground arith)
        ]
      ]

  waited-le-budget :
      (left backoff now waited : ℕ)
      → (retry_loop client page_limit start ids left backoff now waited).waited
        ≤ waited + budget left backoff
  unfolding retry_loop budget
  waited-le-budget zero backoff now waited = ground arith
  waited-le-budget (suc left) backoff now waited =
      ground (arith, waited-le-budget left (capped (backoff * 2)) (suc now) (waited + backoff))

  -- A request goes call by call as `Requests` says, with ten retries: a permanent failure is passed
  -- on after the first call, an answer is never dropped, and a failure in transit is passed on only
  -- when all eleven calls have failed. At least one and at most eleven calls are made, and the worker
  -- sleeps at most 32.75 seconds.
  pub get_events_retrying-Requests :
      (now : ℕ)
      → Requests client page_limit start ids
          (get_events_retrying client page_limit start ids now)
          rpc_max_retries
          now
        × ((get_events_retrying client page_limit start ids now).waited ≤ 32_750)
        × (now < (get_events_retrying client page_limit start ids now).next_call)
        × ((get_events_retrying client page_limit start ids now).next_call ≤ now + 11)
  unfolding get_events_retrying budget
  get_events_retrying-Requests now =
      let calls = retry_loop-Requests rpc_max_retries rpc_backoff_base now 0 in
      let (one, eleven) = Requests-calls calls in
      (calls, waited-le-budget rpc_max_retries rpc_backoff_base now 0, one, omega (arith, eleven))
