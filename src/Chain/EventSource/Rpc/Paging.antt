-- ===== src/Chain/EventSource/Rpc/Paging.antt =====
-- A batch reads every page that the node serves, in the order in which it serves them.
use mathlib.Core.List.{append-nil}
use lend_worker_stellar.Base.{
  ℕ, zero, suc, ◌≤◌, ℤ, Text, is_empty, Bool, true, false, ◌||◌, ltb, Option, some, List, [], ◌∷◌,
  ◌++◌, length, Result, ok, Result-cases, ◌≡◌, refl, sym, ap, ◌∙◌, inl, inr, arith,
}
use lend_worker_stellar.Domain.Operation.{Time}
use lend_worker_stellar.Domain.Build.{as_i32}
use lend_worker_stellar.Chain.Scval.{ScVal}
use lend_worker_stellar.Chain.EventSource.Retry.{
  RpcEvent, GetEventsResponse, EventStart, cursor, Client, get_events_retrying,
}
use lend_worker_stellar.Chain.EventSource.Rpc.{
  Tagged, page_limit, max_with, resume_from, to_raw, push_events, batch_loop,
}

-- The test that ends paging.
abbrev pub is_last : GetEventsResponse → Bool
is_last resp = ltb (length resp.events) page_limit || is_empty resp.cursor

-- The pages that the node serves for one batch, from a first request to the last page: each but the
-- last is full and carries the cursor at which the next is asked for.
pub data Pages (client : Client) (ids : List Text)
    : EventStart → ℕ → List GetEventsResponse → ℕ → Type 0 where
  last :
      {start : EventStart} {now : ℕ} {resp : GetEventsResponse} {now' : ℕ}
      → (get_events_retrying client page_limit start ids now).reply ≡ ok resp
      → (get_events_retrying client page_limit start ids now).next_call ≡ now'
      → is_last resp ≡ true
      → Pages client ids start now (resp ∷ []) now'
  more :
      {start : EventStart} {now : ℕ} {resp : GetEventsResponse} {rs : List GetEventsResponse}
      {next now' : ℕ}
      → (get_events_retrying client page_limit start ids now).reply ≡ ok resp
      → (get_events_retrying client page_limit start ids now).next_call ≡ next
      → is_last resp ≡ false
      → Pages client ids (cursor resp.cursor) next rs now'
      → Pages client ids start now (resp ∷ rs) now'

-- The events of all pages in order, and the chain tip that the last page names.
abbrev pub events_of : List GetEventsResponse → List RpcEvent
events_of [] = []
events_of (resp ∷ rs) = resp.events ++ events_of rs

abbrev pub tip_of : ℕ → List GetEventsResponse → ℕ
tip_of tip [] = tip
tip_of tip (resp ∷ rs) = tip_of resp.latest_ledger rs

module _ (xdr : Text → Result ScVal) (rfc : Text → Option Time) where
  push_events-append :
      (es fs : List RpcEvent) (m : Option ℤ) (out : List Tagged) {m' : Option ℤ}
      {out' : List Tagged}
      → push_events xdr rfc es m out ≡ ok (m', out')
      → push_events xdr rfc (es ++ fs) m out ≡ push_events xdr rfc fs m' out'
  unfolding push_events
  push_events-append [] fs m out {m'} {out'} h =
      let p : m ≡ m' = cc in let q : out ≡ out' = cc in rw (p, q)
  push_events-append (e ∷ es) fs m out h = elim (Result-cases (to_raw xdr rfc e)) [
    | inl (raw, q) ↦ rw q (
        push_events-append es fs (max_with m (as_i32 e.ledger)) (out ++ (e.id, raw) ∷ [])
          (rw q at h))
    | inr (bad, q) ↦ cc (rw q at h)
  ]

  -- If what a prefix of the events makes fails, so does the whole.
  push_events-prefix :
      (es fs : List RpcEvent) (m : Option ℤ) (out : List Tagged) {r : Option ℤ × List Tagged}
      → push_events xdr rfc (es ++ fs) m out ≡ ok r
      → (p : Option ℤ × List Tagged) × (push_events xdr rfc es m out ≡ ok p)
  unfolding push_events
  push_events-prefix [] fs m out h = ((m, out), refl)
  push_events-prefix (e ∷ es) fs m out h = elim (Result-cases (to_raw xdr rfc e)) [
    | inl (raw, q) ↦ rw q (
        push_events-prefix es fs (max_with m (as_i32 e.ledger)) (out ++ (e.id, raw) ∷ [])
          (rw q at h))
    | inr (bad, q) ↦ cc (rw q at h)
  ]

  -- What a page that is not the last one comes to.
  pub batch_loop-more :
      (client : Client) (f : ℕ) (start_ledger : ℤ) (ids : List Text) (start : EventStart)
      (m : Option ℤ) (out : List Tagged) (now : ℕ) (resp : GetEventsResponse)
      (p : Option ℤ × List Tagged)
      → (get_events_retrying client page_limit start ids now).reply ≡ ok resp
      → push_events xdr rfc resp.events m out ≡ ok p
      → is_last resp ≡ false
      → batch_loop xdr rfc client (suc f) start_ledger ids start m out now
        ≡ batch_loop xdr rfc client f start_ledger ids
            (cursor resp.cursor)
            p.0
            p.1
            (get_events_retrying client page_limit start ids now).next_call
  unfolding batch_loop
  batch_loop-more client f start_ledger ids start m out now resp p e q l = ground arith

  pub batch_loop-last :
      (client : Client) (f : ℕ) (start_ledger : ℤ) (ids : List Text) (start : EventStart)
      (m : Option ℤ) (out : List Tagged) (now : ℕ) (resp : GetEventsResponse)
      (p : Option ℤ × List Tagged)
      → (get_events_retrying client page_limit start ids now).reply ≡ ok resp
      → push_events xdr rfc resp.events m out ≡ ok p
      → is_last resp ≡ true
      → batch_loop xdr rfc client (suc f) start_ledger ids start m out now
        ≡ some (
          ok (resume_from p.0 (as_i32 resp.latest_ledger) start_ledger, p.1),
          (get_events_retrying client page_limit start ids now).next_call,
        )
  unfolding batch_loop
  batch_loop-last client f start_ledger ids start m out now resp p e q l = ground arith

  -- If the node serves the pages `rs` and all their events decode, then with a unit of fuel for each
  -- page the batch ends, has appended the events of all pages in order, and resumes behind the
  -- highest ledger among them, or behind the tip that the last page names if there is none.
  pub batch_loop-Pages :
      (client : Client) (f : ℕ) (start_ledger : ℤ) (ids : List Text) (start : EventStart)
      (m m' : Option ℤ) (out out' : List Tagged) (now now' tip : ℕ) (rs : List GetEventsResponse)
      → Pages client ids start now rs now'
      → length rs ≤ f
      → push_events xdr rfc (events_of rs) m out ≡ ok (m', out')
      → batch_loop xdr rfc client f start_ledger ids start m out now
        ≡ some (ok (resume_from m' (as_i32 (tip_of tip rs)) start_ledger, out'), now')
  batch_loop-Pages client zero start_ledger ids start m m' out out' now now' tip rs (last r n l) h
        e =
      absurd (omega arith)
  batch_loop-Pages client zero start_ledger ids start m m' out out' now now' tip rs
        (more r n l rest) h e =
      absurd (omega arith)
  batch_loop-Pages client (suc f) start_ledger ids start m m' out out' now now' tip rs
        (last {resp = resp} r n l) h e =
      batch_loop-last client f start_ledger ids start m out now resp (m', out') r
        (rw append-nil at e) l
      ∙ ap (λ k. some (ok (resume_from m' (as_i32 resp.latest_ledger) start_ledger, out'), k)) n
  batch_loop-Pages client (suc f) start_ledger ids start m m' out out' now now' tip rs
        (more {resp = resp} {rs = others} {next = next} r n l rest) h e =
      let (p, q) = push_events-prefix resp.events (events_of others) m out e in
      batch_loop-more client f start_ledger ids start m out now resp p r q l
      ∙ ap (λ k. batch_loop xdr rfc client f start_ledger ids (cursor resp.cursor) p.0 p.1 k) n
      ∙ batch_loop-Pages client f start_ledger ids (cursor resp.cursor) p.0 m' p.1 out' next now'
          resp.latest_ledger others rest (omega arith)
          (sym (push_events-append resp.events (events_of others) m out q) ∙ e)
