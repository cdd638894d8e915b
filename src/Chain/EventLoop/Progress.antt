-- ===== src/Chain/EventLoop/Progress.antt =====
-- The three sources as the loop uses them, and that each of them keeps what the loop expects.
use lend_worker_stellar.Base.{
  int_laws, ℕ, ◌-◌, ◌^◌, ℤ, pos, ◌≤ℤ◌, ◌<ℤ◌, ◌+ℤ◌, Fits, i32_half, Text, lit, Option, none, some,
  Option-cases, List, ◌++◌, Result, ok, err, ◌≡◌, ap, inl, inr, arith,
}
use mathlib.Core.Path.{subst}
use lend_worker_stellar.Domain.Operation.{Time}
use lend_worker_stellar.Chain.Scval.{ScVal}
use lend_worker_stellar.Chain.BigQuery.{BigQuery}
use lend_worker_stellar.Chain.EventSource.Raw.{RawSorobanEvent}
use lend_worker_stellar.Chain.EventSource.Retry.{Client}
use lend_worker_stellar.Chain.EventSource.Rpc
use lend_worker_stellar.Chain.EventSource.Rpc.Window.{Serves}
use lend_worker_stellar.Chain.EventSource.Rpc.Resume.{fetch-le}
use lend_worker_stellar.Chain.EventSource.Backfill
use lend_worker_stellar.Chain.EventSource.Backfill.{bounded}
use lend_worker_stellar.Chain.EventSource.Backfill.Span.{bounded-le}
use lend_worker_stellar.Chain.Hubble
use lend_worker_stellar.Chain.Hubble.{HubbleSource}
use lend_worker_stellar.Chain.Hubble.Sweep.{Reports, fetch-ingested}
use lend_worker_stellar.Chain.EventLoop.{Source}
use lend_worker_stellar.Chain.EventLoop.Cursor.{Progresses}

-- A sweep's result, without the number of the client's next call. A sweep that runs out of fuel has
-- not answered.
abbrev pub swept : {A : Type 0} → Option (Result A × ℕ) → Result A
swept none = err (lit "out of fuel")
swept (some (r, now)) = r

abbrev pub replied : {A : Type 0} → Option (Result A) → Result A
replied none = err (lit "out of fuel")
replied (some r) = r

swept-ok :
    {A : Type 0} (o : Option (Result A × ℕ)) {a : A}
    → swept o ≡ ok a
    → (now : ℕ) × (o ≡ some (ok a, now))
swept-ok none h = cc
swept-ok (some (r, now)) h = (now, ap (λ x. some (x, now)) h)

replied-ok : {A : Type 0} (o : Option (Result A)) {a : A} → replied o ≡ ok a → o ≡ some (ok a)
replied-ok none h = cc
replied-ok (some r) h = ap (λ x. some x) h

module _ (xdr : Text → Result ScVal) (rfc : Text → Option Time) (client : Client)
    (fuel now : ℕ) where
  -- `RpcEventSource`, with the calls that the client has answered so far.
  abbrev pub rpc_source : Source
  rpc_source start ids = swept (Rpc.fetch xdr rfc client fuel start ids now)

  pub rpc_source-Progresses :
      (start : ℤ) → Serves client → Fits i32_half start → Progresses rpc_source start
  rpc_source-Progresses start serves fits = record {
    resumes = λ ids events next h.
        let (now', e) = swept-ok (Rpc.fetch xdr rfc client fuel start ids now) h in
        (fetch-le xdr rfc client serves start fits fuel ids now events next now' e).0;
  }

  -- `BackfillSource`
  abbrev pub backfill_source : ℤ → Source
  backfill_source max_span start ids =
      swept (Backfill.fetch xdr rfc client max_span fuel start ids now)

  pub backfill_source-Progresses :
      (max_span start : ℤ)
      → Serves client
      → Fits i32_half start
      → pos 0 ≤ℤ max_span
      → start +ℤ max_span <ℤ pos (2 ^ 31 - 1)
      → Progresses (backfill_source max_span) start
  unfolding Backfill.fetch
  backfill_source-Progresses max_span start serves fits positive room = record {
    resumes = λ ids events next h.
        elim (Option-cases (Rpc.fetch xdr rfc client fuel start ids now)) [
          | inl e ↦ cc (rw (Backfill.fetch, e) at h)
          | inr ((err m, k), e) ↦ cc (rw (Backfill.fetch, e) at h)
          | inr ((ok (read, behind), k), e) ↦
              let shape : bounded max_span start (read, behind) ≡ (events, next) =
                cc (rw (Backfill.fetch, e) at h) in
              subst (λ (p : List RawSorobanEvent × ℤ). start ≤ℤ p.1) shape
                (bounded-le max_span start read behind fits positive room
                  (fetch-le xdr rfc client serves start fits fuel ids now read behind k e).0)
        ];
  }

-- `BackfillSource::new`; the construction of the RPC client is an argument.
unfoldable pub new_backfill :
    (Text → Result ScVal)
    → (Text → Option Time)
    → ℕ
    → ℕ
    → (Text → Result Client)
    → Text
    → ℤ
    → Result Source
new_backfill xdr rfc fuel now new_client url max_span = elim (new_client url) [
  | err e ↦ err (lit "backfill client: " ++ e)
  | ok client ↦ ok (backfill_source xdr rfc client fuel now max_span)
]

-- `HubbleSource`
abbrev pub hubble_source :
    BigQuery → (Text → Result ScVal) → (ℤ → Option Time) → ℕ → HubbleSource → Source
hubble_source client xdr timestamp_opt fuel s start ids =
    replied (Hubble.fetch client xdr timestamp_opt fuel s start ids)

pub hubble_source-Progresses :
    (client : BigQuery) (xdr : Text → Result ScVal) (timestamp_opt : ℤ → Option Time) (fuel : ℕ)
    (s : HubbleSource) (start : ℤ)
    → Reports client
    → Fits i32_half start
    → Fits i32_half s.max_span
    → pos 1 ≤ℤ s.max_span
    → start +ℤ s.max_span <ℤ pos (2 ^ 31 - 1)
    → Progresses (hubble_source client xdr timestamp_opt fuel s) start
hubble_source-Progresses client xdr timestamp_opt fuel s start reports fits span_fits positive
      room =
    record {
      resumes = λ ids events next h.
          elim (fetch-ingested client xdr timestamp_opt fuel s start ids events next reports fits
            span_fits positive room
            (replied-ok (Hubble.fetch client xdr timestamp_opt fuel s start ids) h)) [
              | inl (_, _, held) ↦ rw held (omega arith)
              | inr (_, _, _, _, _, _, ahead, _) ↦ grind int_laws
            ];
    }
