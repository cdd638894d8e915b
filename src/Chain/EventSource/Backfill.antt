-- ===== src/Chain/EventSource/Backfill.antt =====
-- `BackfillSource`: the same sweep, bounded by a span of ledgers.
pub mod Span
use lend_worker_stellar.Base.{
  ℕ, ℤ, pos, add_i32, saturating_add_i32, min_ℤ, leb_ℤ, Text, Option, none, some, List, keep,
  Result, ok, err,
}
use lend_worker_stellar.Domain.Operation.{Time}
use lend_worker_stellar.Chain.Scval.{ScVal}
use lend_worker_stellar.Chain.EventSource.Raw.{RawSorobanEvent}
use lend_worker_stellar.Chain.EventSource.Retry.{Client}
use lend_worker_stellar.Chain.EventSource.Rpc

-- What is kept of a sweep that began at `start_ledger`.
unfoldable pub bounded : ℤ → ℤ → List RawSorobanEvent × ℤ → List RawSorobanEvent × ℤ
unfolding saturating_add_i32 add_i32 min_ℤ
bounded max_span start_ledger swept =
    let ceiling = saturating_add_i32 start_ledger max_span in
    (keep (λ e. leb_ℤ e.ledger_seq ceiling) swept.0, min_ℤ swept.1 (add_i32 ceiling (pos 1)))

-- `fetch` of the RPC replay; `inner` is an `RpcEventSource` over its own client.
module _ (xdr : Text → Result ScVal) (rfc : Text → Option Time) (client : Client)
    (max_span : ℤ) where
  unfoldable pub fetch : ℕ → ℤ → List Text → ℕ → Option (Result (List RawSorobanEvent × ℤ) × ℕ)
  unfolding bounded Rpc.fetch
  fetch fuel start_ledger contract_ids now =
      elim (Rpc.fetch xdr rfc client fuel start_ledger contract_ids now) [
        | none ↦ none
        | some (err e, now') ↦ some (err e, now')
        | some (ok swept, now') ↦ some (ok (bounded max_span start_ledger swept), now')
      ]
