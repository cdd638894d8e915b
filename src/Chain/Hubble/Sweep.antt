-- ===== src/Chain/Hubble/Sweep.antt =====
-- A Hubble sweep never resumes behind what Hubble has ingested, and holds where it has nothing.
use lend_worker_stellar.Base.{
  int_laws, ℕ, ◌-◌, ◌^◌, ℤ, pos, ◌≤ℤ◌, ◌<ℤ◌, ◌+ℤ◌, ◌-ℤ◌, add_i32, add_i32-one, sub_i32,
  saturating_add_i32, Fits, i32_half, wrap_i32, wrap_i32-of_Fits, Text, lit, Option, none, some,
  map-some, List, [], ◌∷◌, concat, Result, ok, err, ◌>>=◌, ◌≡◌, refl, sym, ap, ◌∙◌, ◌⊎◌, inl, inr,
  arith,
}
use mathlib.Core.Path.{subst}
use lend_worker_stellar.Domain.Operation.{Time}
use lend_worker_stellar.Chain.Scval.{ScVal}
use lend_worker_stellar.Chain.EventSource.Raw.{RawSorobanEvent}
use lend_worker_stellar.Chain.BigQuery.{
  Coverage, Row, coverage_query, events_query, Page, BigQuery, request_of,
}
use lend_worker_stellar.Chain.Hubble.{
  HubbleSource, next_pages, pages_of, run_query, first_row, coverage_of_columns, coverage_of,
  coverage, replayed, fetch,
}
use lend_worker_stellar.Chain.Hubble.Rows.{decodable, decode_pages_lem}

-- What the coverage query documents: MAX(sequence) over the ledgers between the two bounds is null
-- or lies between them.
pub record Reports (client : BigQuery) : Type 0 where
  pub max_ledger :
      (project dataset job : Text) (from to m : ℤ) (page : Page) (row : Row) (rows : List Row)
      → client.query project (request_of (coverage_query dataset from to)) ≡ ok (some job, page)
      → page.rows ≡ row ∷ rows
      → row.ints (lit "max_ledger") ≡ ok (some m)
      → (from ≤ℤ m) × (m ≤ℤ to)

pages_behind :
    (first : Page) (r : Result (List (List Row))) (pages : List (List Row))
    → (do more ← r; ok (first.rows ∷ more)) ≡ ok pages
    → (more : List (List Row)) × (pages ≡ first.rows ∷ more)
pages_behind first (err e) pages h = cc
pages_behind first (ok more) pages h = (more, cc)

-- The first page of an answered query comes with its job.
pages_of-ok :
    (client : BigQuery) (fuel : ℕ) (project : Text) (reply : Result (Option Text × Page))
    (pages : List (List Row))
    → pages_of client fuel project reply ≡ some (ok pages)
    → (job : Text) × (first : Page) × (more : List (List Row)) × (reply ≡ ok (some job, first))
      × (pages ≡ first.rows ∷ more)
unfolding pages_of
pages_of-ok client fuel project (err e) pages h = cc
pages_of-ok client fuel project (ok (none, first)) pages h = cc
pages_of-ok client fuel project (ok (some job, first)) pages h =
    let (r, _, got) = map-some (next_pages client fuel project job first.page_token) h in
    let (more, same) = pages_behind first r pages got in (job, first, more, refl, same)

bind-ok :
    {A B : Type 0} {f : A → Result B} (r : Result A) {b : B}
    → (r >>= f) ≡ ok b
    → (a : A) × (r ≡ ok a) × (f a ≡ ok b)
bind-ok (err e) h = cc
bind-ok (ok a) h = (a, refl, h)

columns-some :
    (t0 t1 m : Option ℤ) (c : Coverage)
    → coverage_of_columns t0 t1 m ≡ some c
    → (z : ℤ) × (m ≡ some z) × (c.max_ledger ≡ wrap_i32 z)
columns-some none t1 m c h = cc
columns-some (some t0) none m c h = cc
columns-some (some t0) (some t1) none c h = cc
columns-some (some t0) (some t1) (some z) c h = (z, refl, ground arith)

-- A coverage is read from the first row of the first page.
coverage_of-ok :
    (first : List Row) (more : List (List Row)) (c : Coverage)
    → coverage_of (first_row (first ∷ more)) ≡ ok (some c)
    → (row : Row) × (rows : List Row) × (m : ℤ) × (first ≡ row ∷ rows)
      × (row.ints (lit "max_ledger") ≡ ok (some m))
      × (c.max_ledger ≡ wrap_i32 m)
unfolding coverage_of
coverage_of-ok [] more c h = cc
coverage_of-ok (row ∷ rows) more c h =
    let (t0, _, h0) = bind-ok (row.ints (lit "t0")) h in
    let (t1, _, h1) = bind-ok (row.ints (lit "t1")) h0 in
    let (m, told, h2) = bind-ok (row.ints (lit "max_ledger")) h1 in
    let (z, p, q) = columns-some t0 t1 m c (cc h2) in (row, rows, z, refl, told ∙ ap ok p, q)

Fits-between :
    (from to m : ℤ) → Fits i32_half from → Fits i32_half to → from ≤ℤ m → m ≤ℤ to → Fits i32_half m
Fits-between from to m hf ht h k = ground arith

module _ (client : BigQuery) (reports : Reports client) where
  coverage-window :
      (fuel : ℕ) (s : HubbleSource) (from to : ℤ) (c : Coverage)
      → Fits i32_half from
      → Fits i32_half to
      → coverage client fuel s from to ≡ some (ok (some c))
      → (from ≤ℤ c.max_ledger) × (c.max_ledger ≤ℤ to)
  unfolding coverage run_query
  coverage-window fuel s from to c hf ht h =
      let (r, asked, got) =
        map-some
          (pages_of client fuel s.billing_project
            (client.query s.billing_project (request_of (coverage_query s.dataset from to))))
          h in
      let (pages, is_ok, read) = bind-ok r got in
      let (job, first, more, reply, shape) =
        pages_of-ok client fuel s.billing_project
          (client.query s.billing_project (request_of (coverage_query s.dataset from to))) pages
          (asked ∙ ap some is_ok) in
      let (row, rows, m, front, told, stored) =
        coverage_of-ok first.rows more c
          (subst (λ x. coverage_of (first_row x) ≡ ok (some c)) shape read) in
      let (low, high) =
        reports.max_ledger s.billing_project s.dataset job from to m first row rows reply front
          told in
      rw (stored, wrap_i32-of_Fits m (Fits-between from to m hf ht low high)) (low, high)

-- The last ledger of a sweep, where the sum stays within i32.
requested_end_sum :
    (start span : ℤ)
    → Fits i32_half start
    → Fits i32_half span
    → pos 1 ≤ℤ span
    → start +ℤ span <ℤ pos (2 ^ 31 - 1)
    → saturating_add_i32 start (sub_i32 span (pos 1)) +ℤ pos 1 ≡ start +ℤ span
unfolding saturating_add_i32 sub_i32 wrap_i32 ◌+ℤ◌ ◌-ℤ◌
requested_end_sum start span f g p h = ground arith

window_facts :
    (start m end span : ℤ)
    → Fits i32_half start
    → Fits i32_half end
    → start ≤ℤ m
    → m ≤ℤ end
    → end +ℤ pos 1 ≡ start +ℤ span
    → start +ℤ span <ℤ pos (2 ^ 31 - 1)
    → (add_i32 m (pos 1) ≡ m +ℤ pos 1) × (start <ℤ m +ℤ pos 1) × (m +ℤ pos 1 ≤ℤ start +ℤ span)
window_facts start m end span f g low high sum room =
    let below : end +ℤ pos 1 <ℤ pos (2 ^ 31 - 1) = rw sum room in
    let fits = Fits-between start end m f g low high in
    (add_i32-one m fits (grind int_laws), grind int_laws, rw (sym sum) (grind int_laws))

saturating-Fits : (a b : ℤ) → Fits i32_half (saturating_add_i32 a b)
unfolding saturating_add_i32 ◌+ℤ◌
saturating-Fits a b = ground arith

-- The four outcomes of a coverage, with their equations.
data CoverageView (o : Option (Result (Option Coverage))) : Type 0 where
  unfinished : o ≡ none → CoverageView o
  failed : (e : Text) → o ≡ some (err e) → CoverageView o
  nothing_ingested : o ≡ some (ok none) → CoverageView o
  ingested : (c : Coverage) → o ≡ some (ok (some c)) → CoverageView o

Coverage-view : (o : Option (Result (Option Coverage))) → CoverageView o
Coverage-view none = unfinished refl
Coverage-view (some (err e)) = failed e refl
Coverage-view (some (ok none)) = nothing_ingested refl
Coverage-view (some (ok (some c))) = ingested c refl

-- The last ledger that a sweep asks for.
abbrev pub requested_end : HubbleSource → ℤ → ℤ
requested_end s start = saturating_add_i32 start (sub_i32 s.max_span (pos 1))

module _ (client : BigQuery) (xdr : Text → Result ScVal) (timestamp_opt : ℤ → Option Time) where
  replayed-ok :
      (c : Coverage) (r : Result (List (List Row))) (events : List RawSorobanEvent) (next : ℤ)
      → replayed xdr timestamp_opt c r ≡ ok (events, next)
      → (pages : List (List Row)) × (r ≡ ok pages)
        × (events ≡ decodable xdr timestamp_opt (concat pages))
        × (next ≡ add_i32 c.max_ledger (pos 1))
  replayed-ok c (err e) events next h = cc
  replayed-ok c (ok pages) events next h =
      let same = (decode_pages_lem xdr timestamp_opt pages).0 in (pages, refl, cc, cc)

  -- If the coverage query reports the highest ledger between its bounds, the span is positive, and the
  -- start and the span stay within i32: a sweep that succeeds either finds that Hubble has ingested none of the ledgers asked for, and
  -- then holds the cursor; or it has read every decodable event between its start and the last
  -- ingested ledger, and resumes exactly behind that ledger: ahead of its start, and within its span.
  pub fetch-ingested :
      (fuel : ℕ) (s : HubbleSource) (start : ℤ) (ids : List Text) (events : List RawSorobanEvent)
      (next : ℤ)
      → Reports client
      → Fits i32_half start
      → Fits i32_half s.max_span
      → pos 1 ≤ℤ s.max_span
      → start +ℤ s.max_span <ℤ pos (2 ^ 31 - 1)
      → fetch client xdr timestamp_opt fuel s start ids ≡ some (ok (events, next))
      → ((coverage client fuel s start (requested_end s start) ≡ some (ok none))
          × (events ≡ [])
          × (next ≡ start))
        ⊎ ((c : Coverage) × (pages : List (List Row)) × (coverage client fuel s start
                (requested_end s start)
              ≡ some (ok (some c)))
            × (run_query client fuel s.billing_project
                  (events_query s.dataset c start c.max_ledger ids)
                ≡ some (ok pages))
            × (events ≡ decodable xdr timestamp_opt (concat pages))
            × (next ≡ c.max_ledger +ℤ pos 1)
            × (start <ℤ next)
            × (next ≤ℤ start +ℤ s.max_span))
  unfolding fetch
  fetch-ingested fuel s start ids events next reports fs fp p room h =
      elim (Coverage-view (coverage client fuel s start (requested_end s start))) [
        | unfinished q ↦ ground arith
        | failed e q ↦ ground arith
        | nothing_ingested q ↦ inl (q, ground arith, ground arith)
        | ingested c q ↦
            let (r, asked, got) =
              map-some {f = replayed xdr timestamp_opt c}
                (run_query client fuel s.billing_project
                  (events_query s.dataset c start c.max_ledger ids))
                (rw (q, fetch) at h) in
            let (pages, is_ok, read, behind) = replayed-ok c r events next got in
            let (low, high) =
              coverage-window client reports fuel s start (requested_end s start) c fs
                (saturating-Fits start (sub_i32 s.max_span (pos 1))) q in
            let sum = requested_end_sum start s.max_span fs fp p room in
            let (no_wrap, ahead, near) =
              window_facts start c.max_ledger (requested_end s start) s.max_span fs
                (saturating-Fits start (sub_i32 s.max_span (pos 1))) low high sum room in
            let plain = behind ∙ no_wrap in
            inr (c, pages, q, asked ∙ ap some is_ok, read, plain, rw plain ahead, rw plain near)
      ]
