-- ===== src/Chain/Hubble/Rows.antt =====
-- No row of a replay is lost silently: it is decoded or counted as skipped.
use lend_worker_stellar.Base.{
  concat, ◌+◌, ℤ, Text, List, [], ◌∷◌, ◌++◌, length, length-append, Result, ok, err, Result-cases,
  Option, ◌≡◌, refl, sym, ap, inl, inr, arith,
}
use lend_worker_stellar.Domain.Operation.{Time}
use lend_worker_stellar.Chain.Scval.{ScVal}
use lend_worker_stellar.Chain.EventSource.Raw.{RawSorobanEvent}
use lend_worker_stellar.Chain.BigQuery.{Row}
use lend_worker_stellar.Chain.Hubble.{row_to_event, decode_rows, decode_pages}

module _ (xdr : Text → Result ScVal) (timestamp_opt : ℤ → Option Time) where
  -- The events of the rows that decode, in their order.
  unfoldable pub decodable : List Row → List RawSorobanEvent
  decodable [] = []
  decodable (row ∷ rows) =
      let rest = decodable rows in
      elim (row_to_event xdr timestamp_opt row) [ ok e ↦ e ∷ rest | err m ↦ rest ]

  decodable-append :
      (rows more : List Row) → decodable (rows ++ more) ≡ decodable rows ++ decodable more
  unfolding decodable
  decodable-append [] more = refl
  decodable-append (row ∷ rows) more = elim (Result-cases (row_to_event xdr timestamp_opt row)) [
    | inl (e, q) ↦ rw (q, decodable) (ap (λ l. e ∷ l) (decodable-append rows more))
    | inr (m, q) ↦ rw (q, decodable) (decodable-append rows more)
  ]

  decode_rows_lem :
      (rows : List Row)
      → ((decode_rows xdr timestamp_opt rows).0 ≡ decodable rows)
        × (length (decode_rows xdr timestamp_opt rows).0
              + length (decode_rows xdr timestamp_opt rows).1
            ≡ length rows)
  unfolding decode_rows decodable
  decode_rows_lem [] = (refl, refl)
  decode_rows_lem (row ∷ rows) =
      let (same, count) = decode_rows_lem rows in
      elim (Result-cases (row_to_event xdr timestamp_opt row)) [
        | inl (e, q) ↦ rw (q, decode_rows, decodable) (ap (λ l. e ∷ l) same, omega (arith, count))
        | inr (m, q) ↦ rw (q, decode_rows, decodable) (same, omega (arith, count))
      ]

  -- What a replay reads of the pages: the events of all rows that decode, in the order of the pages
  -- and rows, and one reason for each other row.
  pub decode_pages_lem :
      (pages : List (List Row))
      → ((decode_pages xdr timestamp_opt pages).0 ≡ decodable (concat pages))
        × (length (decode_pages xdr timestamp_opt pages).0
              + length (decode_pages xdr timestamp_opt pages).1
            ≡ length (concat pages))
  unfolding decode_pages decodable
  decode_pages_lem [] = (refl, refl)
  decode_pages_lem (page ∷ pages) =
      let (same, count) = decode_pages_lem pages in
      let (same', count') = decode_rows_lem page in
      (
        rw (same, same') (sym (decodable-append page (concat pages))),
        omega (
          arith,
          count,
          count',
          length-append (decode_rows xdr timestamp_opt page).0
              (decode_pages xdr timestamp_opt pages).0,
          length-append (decode_rows xdr timestamp_opt page).1
              (decode_pages xdr timestamp_opt pages).1,
          length-append page (concat pages),
        ),
      )
