-- ===== src/App/Handler.antt =====
-- crates/lw-app/src/handler.rs: `process_events` and the two syncs.
pub mod Failure
pub mod Final
pub mod Funding
pub mod Kept
pub mod Synced
pub mod Commands
pub mod Queued
pub mod Creation
pub mod Holdings
use mathlib.Core.List.{foldl}
use lend_worker_stellar.Base.{
  ℕ, ◌^◌, ℤ, pos, eqb_ℤ, ltb, show_ℕ, parse_ℕ, Text, lit, text_eq, is_empty, Json, string_member,
  Bool, true, false, not, ◌&&◌, any, if◌then◌else◌, HashMap, get, insert, nat_key, int_key, keep,
  Option, none, some, unwrap_or, List, [], ◌∷◌, Result, ok, err, ok_or, result_or, to_option, ◌>>=◌,
}
use lend_worker_stellar.Config.Types.{Uuid}
use lend_worker_stellar.Config.Env.{LocalEnv, stellar_chain_id}
use lend_worker_stellar.Domain.Operation.{
  Time, Operation, net_funded_shares, FiatHolding, new_fiat_holding, set_created_at,
}
use lend_worker_stellar.Domain.Activity.{Activity, ActivityEventType, factory_needs_refresh}
use lend_worker_stellar.Storage.Activities.{InvestedTotals, RefundedTotals}
use lend_worker_stellar.Storage.Operations.{OperationProgressUpdate}
use lend_worker_stellar.Storage.Stores.{Stores}
use lend_worker_stellar.App.Discovery.{World, Handler, refresh_data}

-- `parse::<u128>().ok()`, and 0 for what is missing or no u128
unfoldable pub parse_u128 : Text → Option ℕ
unfolding parse_ℕ
parse_u128 t = elim (parse_ℕ t) [ none ↦ none | some n ↦ if ltb n (2 ^ 128) then some n else none ]

unfoldable pub invested_shares : ℤ → HashMap ℤ InvestedTotals → ℕ
unfolding get parse_u128
invested_shares op totals = elim (get op totals) [
  | none ↦ 0
  | some t ↦ unwrap_or 0 (parse_u128 t.total_shares_bought)
]

unfoldable pub refunded_shares : ℤ → HashMap ℤ RefundedTotals → ℕ
unfolding get parse_u128
refunded_shares op totals = elim (get op totals) [
  | none ↦ 0
  | some t ↦ unwrap_or 0 (parse_u128 t.total_shares_refunded)
]

-- What the five queries of `sync_op_progress` gave.
pub record Progress : Type 0 where
  pub participants : HashMap ℤ ℤ
  pub invested : HashMap ℤ InvestedTotals
  pub refunded : HashMap ℤ RefundedTotals
  pub invested_stlr : HashMap ℤ InvestedTotals
  pub refunded_stlr : HashMap ℤ RefundedTotals

-- the body of the `for` over the operations
unfoldable pub progress_of : Progress → ℤ → OperationProgressUpdate
unfolding invested_shares refunded_shares net_funded_shares get
progress_of p op = record {
  participants = unwrap_or (pos 0) (get op p.participants);
  funded_amount =
      show_ℕ (net_funded_shares (invested_shares op p.invested) (refunded_shares op p.refunded));
  stellar_funded_amount =
      show_ℕ (
        net_funded_shares (invested_shares op p.invested_stlr)
          (refunded_shares op p.refunded_stlr));
}

unfoldable pub progress_updates : Progress → List ℤ → HashMap ℤ OperationProgressUpdate
unfolding insert progress_of
progress_updates p ops = foldl (λ res op. insert op (progress_of p op) res) [] ops

-- `from_value::<InvestedFiatData>`
pub record InvestedFiatData : Type 0 where
  pub tx_hash : Text
  pub op_lend_holder : Text
  pub shares_bought : Text

unfoldable pub invested_fiat_data : Json → Result InvestedFiatData
unfolding string_member
invested_fiat_data d = do
  tx_hash ← ok_or (lit "missing field `tx_hash`") (string_member (lit "tx_hash") d)
  op_lend_holder ←
      ok_or (lit "missing field `op_lend_holder`") (string_member (lit "op_lend_holder") d)
  shares_bought ←
      ok_or (lit "missing field `shares_bought`") (string_member (lit "shares_bought") d)
  ok (record { tx_hash = tx_hash; op_lend_holder = op_lend_holder; shares_bought = shares_bought })

-- `now` is `Utc::now()`.
module _ {S : Type 0} (cfg : LocalEnv) (now : Time) (stores : Stores S) (is_open : Bool) where
  -- a write whose error is logged
  abbrev pub write : World S → Result S → World S
  write w (ok s) = record w { store = s }
  write w (err e) = w

  -- the five queries, all of which have to succeed
  unfoldable pub query_progress : List ℤ → S → Result Progress
  query_progress ops s = do
    participants ← stores.activity.get_operation_participants ops s
    invested ← stores.activity.get_total_invested_amounts ops s
    refunded ← stores.activity.get_total_refunded_amounts ops s
    invested_stlr ← stores.activity.get_total_stellar_invested_amounts ops s
    refunded_stlr ← stores.activity.get_total_stellar_refunded_amounts ops s
    ok (record {
      participants = participants;
      invested = invested;
      refunded = refunded;
      invested_stlr = invested_stlr;
      refunded_stlr = refunded_stlr;
    })

  unfoldable pub sync_op_progress : World S → World S
  unfolding query_progress progress_updates
  sync_op_progress w = elim (stores.operations.get_ongoing_operations w.store) [
    | err e ↦ w
    | ok [] ↦ w
    | ok (op ∷ ops) ↦ elim (query_progress (op ∷ ops) w.store) [
      | err e ↦ w
      | ok p ↦
          write w
            (stores.operations.update_operation_progress (progress_updates p (op ∷ ops)) w.store)
    ]
  ]

  unfoldable pub stellar_chain_is_primary : Handler → ℤ → Bool
  unfolding get
  stellar_chain_is_primary h fop = elim (get fop h.fopid_to_dbopid) [
    | none ↦ false
    | some id ↦ elim (get id h.op_data) [
      | none ↦ false
      | some op ↦ any (λ c. eqb_ℤ c.chain_id stellar_chain_id && c.primary) op.supported_chains
    ]
  ]

  -- no statement is made for no status
  abbrev pub write_statuses : World S → HashMap ℤ ActivityEventType → World S
  write_statuses w [] = w
  write_statuses w (p ∷ mine) =
      write w (stores.operations.update_operation_status (p ∷ mine) w.store)

  -- the statuses of the operations whose primary chain is Stellar
  unfoldable pub write_primary : World S → HashMap ℤ ActivityEventType → World S
  unfolding stellar_chain_is_primary
  write_primary w statuses =
      write_statuses w (keep (λ p. stellar_chain_is_primary w.handler p.0) statuses)

  -- the first half of `sync_op_status`, for the unfinished operations
  unfoldable pub sync_statuses : List ℤ → World S → World S
  unfolding write_primary
  sync_statuses ops w = elim (stores.activity.get_operation_status_history ops w.store) [
    | err e ↦ w
    | ok statuses ↦ write_primary w statuses
  ]

  -- the holding of a fiat investment, if the tokens went to Lend's wallet for another user
  unfoldable pub fiat_holding : Activity → Option FiatHolding
  unfolding invested_fiat_data new_fiat_holding set_created_at
  fiat_holding event = elim (invested_fiat_data event.payload) [
    | err e ↦ none
    | ok d ↦
        let user = unwrap_or [] event.user_address in
        if not (is_empty cfg.oplend_wallet)
          && (text_eq d.op_lend_holder cfg.oplend_wallet
              && (not (text_eq user cfg.oplend_wallet) && not (is_empty user)))
        then some (
            set_created_at (new_fiat_holding now event.factory_op_id user d.shares_bought)
              event.created_at)
        else none
  ]

  -- the body of the `for` over the events
  unfoldable pub sync_event : World S → Activity → World S
  unfolding refresh_data fiat_holding
  sync_event w event = elim event.event_type [
    | ActivityEventType.op_created ↦
        refresh_data cfg stores is_open
          (write w (stores.operations.add_first_chain event.factory_op_id event.payload w.store))
    | ActivityEventType.invested_fiat ↦ elim (fiat_holding event) [
      | none ↦ w
      | some h ↦ write w (stores.fiat_holdings.insert_holding h w.store)
    ]
    | _ ↦ w
  ]

  unfoldable pub sync_op_status : List Activity → World S → World S
  unfolding sync_statuses sync_event
  sync_op_status events w = elim (stores.operations.get_unfinished_operations w.store) [
    | err e ↦ w
    | ok [] ↦ w
    | ok (op ∷ ops) ↦ foldl sync_event (sync_statuses (op ∷ ops) w) events
  ]

  unfoldable pub process_events : List Activity → World S → World S
  unfolding sync_op_progress sync_op_status factory_needs_refresh
  process_events [] w = w
  process_events (e ∷ events) w = elim (stores.activity.insert_many (e ∷ events) w.store) [
    | err m ↦ w
    | ok s ↦
        let stored = record w { store = s } in
        if factory_needs_refresh (e ∷ events)
        then sync_op_status (e ∷ events) (sync_op_progress stored)
        else stored
  ]
