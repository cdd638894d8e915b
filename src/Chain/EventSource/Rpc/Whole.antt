-- ===== src/Chain/EventSource/Rpc/Whole.antt =====
-- A whole sweep of the live source: all batches of contracts, all pages of each.
use mathlib.Core.List.{Perm, foldl, append_assoc, append-nil}
use lend_worker_stellar.Base.{
  ℕ, ◌≤◌, ℤ, Text, Option, none, some, unwrap_or, List, [], ◌∷◌, ◌++◌, All, concat, length, map,
  Result, ok, Result-cases, collect_all, ◌>>=◌, ◌≡◌, refl, sym, ap, ◌∙◌, inl, inr,
}
use lend_worker_stellar.Domain.Operation.{Time}
use lend_worker_stellar.Domain.Build.{as_i32}
use lend_worker_stellar.Chain.Scval.{ScVal}
use lend_worker_stellar.Chain.EventSource.Retry.{RpcEvent, GetEventsResponse, ledger, Client}
use lend_worker_stellar.Chain.EventSource.Rpc.Chunks.{chunks_lem}
use lend_worker_stellar.Chain.EventSource.Rpc.Paging.{Pages, events_of, tip_of, batch_loop-Pages}
use lend_worker_stellar.Chain.EventSource.Rpc.Order.{IsOrdered, IsOrdered-map, sort_by_chain_lem}
use lend_worker_stellar.Chain.EventSource.Rpc.{
  max_contract_ids_per_filter, Tagged, as_u32_word, chunks, sort_by_chain, max_with, min_with,
  resume_from, to_raw, push_events, fetch_batch, sweep, fetch,
}

-- The highest ledger of a batch's events, and the ledger that the batch resumes from.
abbrev highest : Option ℤ → List RpcEvent → Option ℤ
highest m es = foldl (λ m e. max_with m (as_i32 e.ledger)) m es

abbrev pub resume_of : ℤ → List GetEventsResponse → ℤ
resume_of start_ledger pages =
    resume_from (highest none (events_of pages)) (as_i32 (tip_of 0 pages)) start_ledger

-- The least of the batches' resume ledgers, or the start if there is no batch.
abbrev pub least_resume : ℤ → List (List GetEventsResponse) → ℤ
least_resume start_ledger batches =
    unwrap_or start_ledger
      (foldl (λ n pages. min_with n (resume_of start_ledger pages)) none batches)

module _ (xdr : Text → Result ScVal) (rfc : Text → Option Time) where
  -- The events as they come, each decoded, with its id.
  abbrev pub decoded : List RpcEvent → Result (List Tagged)
  decoded es = collect_all (λ e. to_raw xdr rfc e >>= λ raw. ok (e.id, raw)) es

  push_events-decoded :
      (es : List RpcEvent) (m : Option ℤ) (out ts : List Tagged)
      → decoded es ≡ ok ts
      → push_events xdr rfc es m out ≡ ok (highest m es, out ++ ts)
  unfolding push_events collect_all
  push_events-decoded [] m out ts h =
      let none_left : [] ≡ ts = cc in
      ap (λ l. ok (m, l)) (sym (append-nil out) ∙ ap (λ l. out ++ l) none_left)
  push_events-decoded (e ∷ es) m out ts h = elim (Result-cases (to_raw xdr rfc e)) [
    | inr (bad, q) ↦ cc (rw q at h)
    | inl (raw, q) ↦ elim (Result-cases (decoded es)) [
      | inr (bad, r) ↦ cc (rw (q, r) at h)
      | inl (rest, r) ↦
          let whole : (e.id, raw) ∷ rest ≡ ts = cc (rw (q, r) at h) in
          rw q (
            push_events-decoded es (max_with m (as_i32 e.ledger)) (out ++ (e.id, raw) ∷ []) rest r
            ∙ ap (λ l. ok (highest m (e ∷ es), l))
                (append_assoc out ((e.id, raw) ∷ []) rest ∙ ap (λ l. out ++ l) whole))
    ]
  ]

  module _ (client : Client) (start_ledger : ℤ) where
    -- The pages that the node serves, batch after batch, with the decoded events of each batch.
    pub data Swept
        : List (List Text)
          → ℕ
          → List (List GetEventsResponse)
          → List (List Tagged)
          → ℕ
          → Type 0 where
      over : {now : ℕ} → Swept [] now [] [] now
      served :
          {ids : List Text} {batches : List (List Text)} {now mid now' : ℕ}
          {pages : List GetEventsResponse} {others : List (List GetEventsResponse)}
          {ts : List Tagged} {more : List (List Tagged)}
          → Pages client ids (ledger (as_u32_word start_ledger)) now pages mid
          → decoded (events_of pages) ≡ ok ts
          → Swept batches mid others more now'
          → Swept (ids ∷ batches) now (pages ∷ others) (ts ∷ more) now'

    fetch_batch-Pages :
        (fuel : ℕ) (ids : List Text) (out ts : List Tagged) (now mid : ℕ)
        (pages : List GetEventsResponse)
        → Pages client ids (ledger (as_u32_word start_ledger)) now pages mid
        → length pages ≤ fuel
        → decoded (events_of pages) ≡ ok ts
        → fetch_batch xdr rfc client fuel start_ledger ids out now
          ≡ some (ok (resume_of start_ledger pages, out ++ ts), mid)
    unfolding fetch_batch
    fetch_batch-Pages fuel ids out ts now mid pages p enough d =
        batch_loop-Pages xdr rfc client fuel start_ledger ids (ledger (as_u32_word start_ledger))
          none (highest none (events_of pages)) out (out ++ ts) now mid 0 pages p enough
          (push_events-decoded (events_of pages) none out ts d)

    sweep-Swept :
        (fuel : ℕ) (batches : List (List Text)) (merged : List Tagged) (next : Option ℤ)
        (now now' : ℕ) (pages : List (List GetEventsResponse)) (ts : List (List Tagged))
        → Swept batches now pages ts now'
        → All (λ rs. length rs ≤ fuel) pages
        → sweep xdr rfc client fuel start_ledger batches merged next now
          ≡ some (
            ok (
              foldl (λ n rs. min_with n (resume_of start_ledger rs)) next pages,
              merged ++ concat ts,
            ),
            now',
          )
    unfolding sweep
    sweep-Swept fuel batches merged next now now' pages ts over h =
        ap (λ l. some (ok (next, l), now)) (sym (append-nil merged))
    sweep-Swept fuel batches merged next now now' pages ts
          (served {ids = ids} {mid = mid} {pages = rs} {others = others} {ts = t} {more = more} p d
            s)
          h =
        rw (sweep, fetch_batch-Pages fuel ids merged t now mid rs p h.0 d)
          (sweep-Swept fuel _ (merged ++ t) (min_with next (resume_of start_ledger rs)) mid now'
              others more s h.1
            ∙ ap
                (λ l.
                  some (
                    ok (foldl (λ n rs. min_with n (resume_of start_ledger rs)) next pages, l),
                    now',
                  ))
                (append_assoc merged t (concat more)))

    -- If the node serves the pages of every batch of contracts, each batch at most five of them and
    -- together all of them in order, and all events decode, then with a unit of fuel for each page of
    -- the longest batch the fetch ends and succeeds: it hands over exactly the events of all pages of
    -- all batches, in ledger order, and resumes from the least of the batches' resume ledgers.
    pub fetch-Swept :
        (fuel : ℕ) (ids : List Text) (now now' : ℕ) (pages : List (List GetEventsResponse))
        (ts : List (List Tagged))
        → Swept (chunks max_contract_ids_per_filter ids) now pages ts now'
        → All (λ rs. length rs ≤ fuel) pages
        → (concat (chunks max_contract_ids_per_filter ids) ≡ ids)
          × All (λ c. length c ≤ 5) (chunks max_contract_ids_per_filter ids)
          × (sorted : List Tagged) × Perm sorted (concat ts)
          × IsOrdered (map (λ t. t.1) sorted)
          × (fetch xdr rfc client fuel start_ledger ids now
              ≡ some (ok (map (λ t. t.1) sorted, least_resume start_ledger pages), now'))
    unfolding fetch
    fetch-Swept fuel ids now now' pages ts s h =
        let (whole, small) = chunks_lem 4 ids in
        let (sorted, perm) = sort_by_chain_lem (concat ts) in
        (
          whole,
          small,
          sort_by_chain (concat ts),
          perm,
          IsOrdered-map (sort_by_chain (concat ts)) sorted,
          rw
              (
                fetch,
                sweep-Swept fuel (chunks max_contract_ids_per_filter ids) [] none now now' pages ts
                    s h,
              )
              refl,
        )
