-- ===== src/Chain/EventSource/Rpc/Resume.antt =====
-- A successful sweep never moves the cursor back.
use lend_worker_stellar.Base.{
  ℕ, zero, suc, ℤ, pos, Fits, i32_half, ◌≤ℤ◌, min_ℤ, Text, Bool-cases, Option, none, some,
  unwrap_or, List, [], ◌∷◌, ◌++◌, All, map, Result, ok, Result-cases, out_of_fuel, done, failed,
  Outcome-view, ◌≡◌, sym, ◌∙◌, inl, inr, arith,
}
use mathlib.Core.Path.{subst}
use lend_worker_stellar.Domain.Operation.{Time}
use lend_worker_stellar.Domain.Build.{as_i32}
use lend_worker_stellar.Chain.Scval.{ScVal}
use lend_worker_stellar.Chain.EventSource.Raw.{RawSorobanEvent}
use lend_worker_stellar.Chain.EventSource.Retry.{
  RpcEvent, EventStart, ledger, cursor, Client, get_events_retrying,
}
use lend_worker_stellar.Chain.EventSource.Rpc.Paging.{is_last, batch_loop-last, batch_loop-more}
use lend_worker_stellar.Chain.EventSource.Rpc.Order.{IsOrdered, IsOrdered-map, sort_by_chain_lem}
use lend_worker_stellar.Chain.EventSource.Rpc.{
  max_contract_ids_per_filter, Tagged, page_limit, max_with, min_with, resume_from, to_raw,
  push_events, held_or_failed, batch_loop, fetch_batch, sweep, fetch, chunks, sort_by_chain,
}
use lend_worker_stellar.Chain.EventSource.Rpc.Window.{
  InWindow, Serves, asked_from, as_u32_word-le, reply-window, Above, max_with-Above, resume_from-le,
}

module _ (xdr : Text → Result ScVal) (rfc : Text → Option Time) where
  push_events-Above :
      (start_ledger : ℤ) (es : List RpcEvent) (m m' : Option ℤ) (out out' : List Tagged)
      → Above start_ledger m
      → All (InWindow start_ledger) es
      → push_events xdr rfc es m out ≡ ok (m', out')
      → Above start_ledger m'
  unfolding push_events
  push_events-Above start_ledger [] m m' out out' h w e =
      let p : m ≡ m' = cc in subst (Above start_ledger) p h
  push_events-Above start_ledger (x ∷ es) m m' out out' h w e =
      elim (Result-cases (to_raw xdr rfc x)) [
        | inl (raw, q) ↦
            push_events-Above start_ledger es (max_with m (as_i32 x.ledger)) m'
              (out ++ (x.id, raw) ∷ []) out' (max_with-Above start_ledger m x h w.0) w.1 (rw q at e)
        | inr (bad, q) ↦ cc (rw q at e)
      ]

  module _ (client : Client) (serves : Serves client) (start_ledger : ℤ)
      (fits : Fits i32_half start_ledger) where
    held_or_failed-eq :
        (start : EventStart) (m : Text) (next : ℤ)
        → held_or_failed xdr rfc client start start_ledger m ≡ ok next
        → next ≡ start_ledger
    unfolding held_or_failed
    held_or_failed-eq (ledger n) m next h = ground arith
    held_or_failed-eq (cursor c) m next h = cc

    batch_loop-le :
        (f : ℕ) (ids : List Text) (start : EventStart) (m : Option ℤ) (out : List Tagged) (now : ℕ)
        (next : ℤ) (out' : List Tagged) (now' : ℕ)
        → start_ledger ≤ℤ pos (asked_from serves.position start)
        → Above start_ledger m
        → batch_loop xdr rfc client f start_ledger ids start m out now
          ≡ some (ok (next, out'), now')
        → start_ledger ≤ℤ next
    unfolding batch_loop
    batch_loop-le zero ids start m out now next out' now' behind h e = cc
    batch_loop-le (suc f) ids start m out now next out' now' behind h e =
        elim (Result-cases (get_events_retrying client page_limit start ids now).reply) [
          | inl (resp, q) ↦ elim (Result-cases (push_events xdr rfc resp.events m out)) [
            | inl (p, r) ↦
                let (window, further) =
                  reply-window client serves start_ledger start ids now resp behind q in
                let above = push_events-Above start_ledger resp.events m p.0 out p.1 h window r in
                elim (Bool-cases (is_last resp)) [
                  | inl l ↦
                      let same : resume_from p.0 (as_i32 resp.latest_ledger) start_ledger ≡ next =
                        cc (
                          batch_loop-last xdr rfc client f start_ledger ids start m out now resp p q
                            r l) in
                      subst (λ x. start_ledger ≤ℤ x) same
                        (resume_from-le start_ledger p.0 resp.latest_ledger above)
                  | inr l ↦
                      batch_loop-le f ids (cursor resp.cursor) p.0 p.1
                        (get_events_retrying client page_limit start ids now).next_call next out'
                        now' further above
                        (sym (
                            batch_loop-more xdr rfc client f start_ledger ids start m out now resp p
                              q r l)
                          ∙ e)
                ]
            | inr (bad, r) ↦ ground arith
          ]
          | inr (bad, q) ↦ ground (arith, held_or_failed-eq start bad next)
        ]

    min_with-le :
        (next : Option ℤ) (z : ℤ)
        → start_ledger ≤ℤ unwrap_or start_ledger next
        → start_ledger ≤ℤ z
        → start_ledger ≤ℤ unwrap_or start_ledger (min_with next z)
    unfolding min_with min_ℤ
    min_with-le none z h k = k
    min_with-le (some m) z h k = ground arith

    sweep-step :
        (fuel : ℕ) (batch : List Text) (batches : List (List Text)) (merged : List Tagged)
        (next : Option ℤ) (now : ℕ) (batch_next : ℤ) (more : List Tagged) (n : ℕ)
        → fetch_batch xdr rfc client fuel start_ledger batch merged now
          ≡ some (ok (batch_next, more), n)
        → sweep xdr rfc client fuel start_ledger batches more (min_with next batch_next) n
          ≡ sweep xdr rfc client fuel start_ledger (batch ∷ batches) merged next now
    unfolding sweep
    sweep-step fuel batch batches merged next now batch_next more n q = ground arith

    sweep-le :
        (fuel : ℕ) (batches : List (List Text)) (merged : List Tagged) (next : Option ℤ) (now : ℕ)
        (next' : Option ℤ) (merged' : List Tagged) (now' : ℕ)
        → start_ledger ≤ℤ unwrap_or start_ledger next
        → sweep xdr rfc client fuel start_ledger batches merged next now
          ≡ some (ok (next', merged'), now')
        → start_ledger ≤ℤ unwrap_or start_ledger next'
    unfolding sweep
    sweep-le fuel [] merged next now next' merged' now' h e =
        let same : next ≡ next' = cc in subst (λ x. start_ledger ≤ℤ unwrap_or start_ledger x) same h
    sweep-le fuel (batch ∷ batches) merged next now next' merged' now' h e =
        elim (Outcome-view (fetch_batch xdr rfc client fuel start_ledger batch merged now)) [
          | out_of_fuel q ↦ ground arith
          | failed m n q ↦ ground arith
          | done (batch_next, more) n q ↦
              sweep-le fuel batches more (min_with next batch_next) n next' merged' now'
                (min_with-le next batch_next h (
                  batch_loop-le fuel batch _ none merged now batch_next more n
                    (as_u32_word-le start_ledger fits) tt (unfold fetch_batch in q)))
                (sweep-step fuel batch batches merged next now batch_next more n q ∙ e)
        ]

    fetch-done :
        (fuel : ℕ) (ids : List Text) (now : ℕ) (n : Option ℤ) (merged : List Tagged) (k : ℕ)
        → sweep xdr rfc client fuel start_ledger
            (chunks max_contract_ids_per_filter ids)
            []
            none
            now
          ≡ some (ok (n, merged), k)
        → fetch xdr rfc client fuel start_ledger ids now
          ≡ some (ok (map (λ t. t.1) (sort_by_chain merged), unwrap_or start_ledger n), k)
    unfolding fetch
    fetch-done fuel ids now n merged k q = ground arith

    -- Suppose that the start ledger is an i32, and that the node keeps to what `getEvents` documents of
    -- each request. A successful sweep resumes at or behind the ledger that it started from, and it
    -- hands its events over in the order of their ledgers.
    pub fetch-le :
        (fuel : ℕ) (ids : List Text) (now : ℕ) (events : List RawSorobanEvent) (next : ℤ) (now' : ℕ)
        → fetch xdr rfc client fuel start_ledger ids now ≡ some (ok (events, next), now')
        → (start_ledger ≤ℤ next) × IsOrdered events
    unfolding fetch
    fetch-le fuel ids now events next now' e =
        elim (Outcome-view (
          sweep xdr rfc client fuel start_ledger (chunks max_contract_ids_per_filter ids) [] none
            now)) [
              | out_of_fuel q ↦ ground arith
              | failed m n q ↦ ground arith
              | done (n, merged) k q ↦
                  let whole = fetch-done fuel ids now n merged k q in
                  let same : unwrap_or start_ledger n ≡ next = cc whole in
                  let read : map (λ t. t.1) (sort_by_chain merged) ≡ events = cc whole in
                  (
                    subst (λ x. start_ledger ≤ℤ x) same
                        (sweep-le fuel (chunks max_contract_ids_per_filter ids) [] none now n merged
                          k (omega arith) q),
                    subst IsOrdered read
                        (IsOrdered-map (sort_by_chain merged) (sort_by_chain_lem merged).0),
                  )
            ]
