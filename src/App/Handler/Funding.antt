-- ===== src/App/Handler/Funding.antt =====
-- The progress that the handler writes is that of the stored rows.
pub mod Answers
use lend_worker_stellar.Base.{
  ℕ, ◌-◌, ◌^◌, ◌<◌, ℤ, pos, eqb_ℤ, fits, i32_half, show_ℕ, show_ℤ, Text, lit, Bool, true,
  Bool-cases, ◌&&◌, any, keep, if◌then◌else◌, HashMap, get, keys, int_key, none, some, Option-cases,
  unwrap_or, List, [], ◌∷◌, ◌++◌, map, length, length-keep-le, All, All-imp, All-keep, ok,
  collect_all-map, ◌≡◌, refl, sym, ap, inl, inr, arith,
}
use lend_worker_stellar.Base.Strings.Numbers.{parse_ℕ-show_ℕ}
use lend_worker_stellar.Config.Env.{LocalEnv}
use lend_worker_stellar.Domain.Operation.{Time, net_funded_shares}
use lend_worker_stellar.Domain.Activity.{Activity}
use lend_worker_stellar.Storage.Tables.{Db, OperationRow}
use lend_worker_stellar.Storage.Activities.{
  InvestedTotals, RefundedTotals, is_invested, is_refunded, has_user, users, distinct_texts,
}
use lend_worker_stellar.Storage.Latest.{on_stellar}
use lend_worker_stellar.Storage.Activities.Groups.{
  HasAmount, total, total-le, length-distinct_texts-le, length-users-le, get-insert_all,
}
use lend_worker_stellar.Storage.Activities.Totals.{
  AllAmounts, Entries, IsListed, rows_with, invested_totals, refunded_totals, investors,
  get_total_invested_amounts-Entries, get_total_refunded_amounts-Entries,
  get_total_stellar_invested_amounts-Entries, get_total_stellar_refunded_amounts-Entries,
  get_operation_participants-Entries,
}
use lend_worker_stellar.Storage.Operations.{
  OperationProgressUpdate, set_progress, update_for, update_operation_progress,
  get_ongoing_operations, notices,
}
use lend_worker_stellar.Storage.Stores.{pg_stores}
use lend_worker_stellar.App.Discovery.{World}
use lend_worker_stellar.App.Handler.{
  parse_u128, invested_shares, refunded_shares, Progress, progress_of, progress_updates,
  query_progress, sync_op_progress,
}
use lend_worker_stellar.App.Handler.Funding.Answers.{expected, Answered, progress_of-Answered}

-- An operation's row, with the progress of the stored rows if the operation is listed.
abbrev pub with_progress : List ℤ → List Activity → OperationRow → OperationRow
with_progress ids rows r = elim r.operation.factory_op_id [
  | none ↦ r
  | some op ↦
      if any (λ id. eqb_ℤ id op) ids
      then record r {
        operation = record r.operation {
          funding_participants = some (expected rows op).participants;
          shares_sold = some (expected rows op).funded_amount;
          stellar_shares_sold = some (expected rows op).stellar_funded_amount;
        };
      }
      else r
]

investors-fit :
    (q : Activity → Bool) (rows : List Activity)
    → length rows < i32_half
    → fits i32_half (investors (keep q rows)) ≡ true
investors-fit q rows few = ground (
  arith,
  length-distinct_texts-le (users (keep q rows)),
  length-users-le (keep q rows),
  length-keep-le q rows,
)

module _ (ids : List ℤ) (rows : List Activity) (amounts : AllAmounts rows)
    (few : length rows < i32_half) (p : Progress) (answered : Answered ids rows p) where
  update_for-progress :
      (r : OperationRow) (op : ℤ)
      → r.operation.factory_op_id ≡ some op
      → update_for (progress_updates p ids) r
        ≡ (if any (λ id. eqb_ℤ id op) ids then some (progress_of p op) else none)
  unfolding progress_updates get
  update_for-progress r op e = rw e (get-insert_all (progress_of p) op ids [])

  set_progress-listed :
      (r : OperationRow)
      → set_progress (update_for (progress_updates p ids) r) r ≡ ok (with_progress ids rows r)
  unfolding set_progress
  set_progress-listed r = elim (Option-cases r.operation.factory_op_id) [
    | inl e ↦ rw e
    | inr (op, e) ↦ elim (Bool-cases (any (λ id. eqb_ℤ id op) ids)) [
      | inr other ↦ rw (update_for-progress r op e, e, other)
      | inl listed ↦
          let fit =
            investors-fit
              (λ a.
                (has_user a.user_address && is_invested a.event_type) && eqb_ℤ a.factory_op_id op)
              rows few in
          rw (
            update_for-progress r op e,
            e,
            listed,
            progress_of-Answered ids rows amounts few p op answered listed,
            fit,
          )
    ]
  ]

  update_operation_progress-rows :
      (db : Db)
      → (db' : Db) × (update_operation_progress (progress_updates p ids) db ≡ ok db')
        × (db'.operations ≡ map (with_progress ids rows) db.operations)
        × (db'.activity ≡ db.activity)
        × (db'.fiat_holdings ≡ db.fiat_holdings)
  unfolding update_operation_progress
  update_operation_progress-rows db = (
    record db {
      operations = map (with_progress ids rows) db.operations;
      notified = db.notified ++ notices (keys (progress_updates p ids));
    },
    rw (collect_all-map _ (with_progress ids rows) db.operations set_progress-listed),
    refl,
    refl,
    refl,
  )

with_progress-none :
    (rows : List Activity) (ops : List OperationRow) → map (with_progress [] rows) ops ≡ ops
with_progress-none rows [] = refl
with_progress-none rows (r ∷ ops) =
    let same : with_progress [] rows r ≡ r = ground arith in cc (same, with_progress-none rows ops)

module _ (cfg : LocalEnv) (now : Time) (is_open : Bool) where
  query_progress-Answered :
      (ids : List ℤ) (db : Db)
      → AllAmounts db.activity
      → (p : Progress) × (query_progress cfg now pg_stores is_open ids db ≡ ok p)
        × Answered ids db.activity p
  unfolding query_progress
  query_progress-Answered ids db amounts =
      let (mp, ep, ap) = get_operation_participants-Entries ids db in
      let (mi, ei, ai) = get_total_invested_amounts-Entries ids db amounts in
      let (mr, er, ar) = get_total_refunded_amounts-Entries ids db amounts in
      let (mis, eis, ais) = get_total_stellar_invested_amounts-Entries ids db amounts in
      let (mrs, ers, ars) = get_total_stellar_refunded_amounts-Entries ids db amounts in
      (
        _,
        rw (ep, ei, er, eis, ers),
        record {
          participants = ap;
          invested = ai;
          refunded = ar;
          invested_stlr = ais;
          refunded_stlr = ars;
        },
      )

  -- The progress sync writes the books of the activity table: with whole BIGINT amounts in the stored
  -- investments and refunds, and fewer rows than an INT counts, every open or predeposit operation
  -- that is published gets the number of its distinct investors, and the shares bought less the
  -- shares refunded, in all and on Stellar; no other row and no other table changes, and nothing is
  -- sent.
  pub sync_op_progress-nets :
      (w : World Db) (ids : List ℤ)
      → get_ongoing_operations w.store ≡ ok ids
      → AllAmounts w.store.activity
      → length w.store.activity < i32_half
      → ((sync_op_progress cfg now pg_stores is_open w).store.operations
          ≡ map (with_progress ids w.store.activity) w.store.operations)
        × ((sync_op_progress cfg now pg_stores is_open w).store.activity ≡ w.store.activity)
        × ((sync_op_progress cfg now pg_stores is_open w).store.fiat_holdings
            ≡ w.store.fiat_holdings)
        × ((sync_op_progress cfg now pg_stores is_open w).handler ≡ w.handler)
        × ((sync_op_progress cfg now pg_stores is_open w).sent ≡ w.sent)
  unfolding sync_op_progress
  sync_op_progress-nets w [] ongoing amounts few =
      rw (sync_op_progress, ongoing)
        (sym (with_progress-none w.store.activity w.store.operations), refl, refl, refl, refl)
  sync_op_progress-nets w (id ∷ ids) ongoing amounts few =
      let (p, asked, answered) = query_progress-Answered (id ∷ ids) w.store amounts in
      let (db', updated, rows, activity, holdings) =
        update_operation_progress-rows (id ∷ ids) w.store.activity amounts few p answered w.store in
      rw (sync_op_progress, ongoing, asked, updated) (rows, activity, holdings, refl, refl)
