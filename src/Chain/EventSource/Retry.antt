-- ===== src/Chain/EventSource/Retry.antt =====
-- `is_transient_rpc_error` and `get_events_retrying`, over a `getEvents` client that answers its
-- n-th call: the client's crate, the network and the node are not part of the repository.
pub mod Budget
use lend_worker_stellar.Base.{
  ℕ, zero, suc, ◌+◌, ◌*◌, Text, lit, Bool, true, false, ◌&&◌, ◌||◌, ltb, leb, ◌==◌, any,
  split_second, split_first, contains, parse_ℕ, if◌then◌else◌, Option, none, some, List, [], ◌∷◌,
  ◌++◌, Result, ok, err,
}

-- `stellar_rpc_client::Event` and `GetEventsResponse`
pub record RpcEvent : Type 0 where
  pub id : Text
  pub ledger : ℕ
  pub tx_hash : Option Text
  pub contract_id : Text
  pub topic : List Text
  pub value : Text
  pub ledger_closed_at : Text

pub record GetEventsResponse : Type 0 where
  pub events : List RpcEvent
  pub latest_ledger : ℕ
  pub cursor : Text

pub data EventStart : Type 0 where
  ledger : ℕ → EventStart
  cursor : Text → EventStart

-- The answer to the call with the given number: start, contract ids and page limit are its arguments.
abbrev pub Client : Type 0
Client = ℕ → EventStart → List Text → ℕ → Result GetEventsResponse

-- `parse::<u16>().ok()` on the code of a transport rejection
unfoldable pub rejection_code : Text → Option ℕ
unfolding split_second split_first parse_ℕ
rejection_code error = elim (split_second (lit "Request rejected `") error) [
  | none ↦ none
  | some rest ↦ elim (parse_ℕ (split_first (lit "`") rest)) [
    | none ↦ none
    | some n ↦ if ltb n 65536 then some n else none
  ]
]

-- TRANSIENT
abbrev transient_needles : List Text
transient_needles =
    lit "Request timeout"
    ∷ lit "error sending request"
    ∷ lit "connection closed"
    ∷ lit "connection reset"
    ∷ lit "connection refused"
    ∷ lit "broken pipe"
    ∷ lit "operation timed out"
    ∷ lit "dns error"
    ∷ []

unfoldable pub is_transient_rpc_error : Text → Bool
unfolding rejection_code contains
is_transient_rpc_error error = elim (rejection_code error) [
  | some code ↦ code == 429 || (leb 500 code && ltb code 600)
  | none ↦ any (λ needle. contains error needle) transient_needles
]

-- RPC_MAX_RETRIES, and the backoff in milliseconds
abbrev pub rpc_max_retries : ℕ
rpc_max_retries = 10

abbrev pub rpc_backoff_base : ℕ
rpc_backoff_base = 250

abbrev pub rpc_backoff_cap : ℕ
rpc_backoff_cap = 5_000

-- What a request came to: the reply, the number of the next call, and the milliseconds slept.
pub record Attempted : Type 0 where
  pub reply : Result GetEventsResponse
  pub next_call : ℕ
  pub waited : ℕ

-- `Duration::min`
abbrev pub capped : ℕ → ℕ
capped backoff = if ltb rpc_backoff_cap backoff then rpc_backoff_cap else backoff

module _ (client : Client) (page_limit : ℕ) (start : EventStart) (ids : List Text) where
  -- The loop of the source; the first argument is RPC_MAX_RETRIES - `retries`.
  unfoldable pub retry_loop : ℕ → ℕ → ℕ → ℕ → Attempted
  unfolding is_transient_rpc_error
  retry_loop zero backoff now waited = elim (client now start ids page_limit) [
    | ok resp ↦ record { reply = ok resp; next_call = suc now; waited = waited }
    | err e ↦ record {
      reply = err (lit "getEvents failed: " ++ e);
      next_call = suc now;
      waited = waited;
    }
  ]
  retry_loop (suc left) backoff now waited =
      let again = retry_loop left (capped (backoff * 2)) (suc now) (waited + backoff) in
      let given_up : Text → Attempted = λ e. record {
        reply = err (lit "getEvents failed: " ++ e);
        next_call = suc now;
        waited = waited;
      } in
      elim (client now start ids page_limit) [
        | ok resp ↦ record { reply = ok resp; next_call = suc now; waited = waited }
        | err e ↦ if is_transient_rpc_error e then again else given_up e
      ]

  unfoldable pub get_events_retrying : ℕ → Attempted
  unfolding retry_loop
  get_events_retrying now = retry_loop rpc_max_retries rpc_backoff_base now 0
