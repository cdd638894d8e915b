-- ===== src/Storage/Activities/Totals.antt =====
-- What the progress queries answer, in terms of the stored rows.
use lend_worker_stellar.Base.{
  ℤ, pos, eqb_ℤ, eqb_ℤ_iff, show_ℤ, lit, Bool, true, ◌&&◌, any, keep, HashMap, get, collect, length,
  int_key, none, some, List, [], ◌∷◌, All, All-imp, All-keep, Result, ok, ◌≡◌, refl, sym, ◌⊎◌,
  arith,
}
use mathlib.Core.Path.{subst}
use lend_worker_stellar.Domain.Activity.{Activity}
use lend_worker_stellar.Storage.Tables.{Db}
use lend_worker_stellar.Storage.Activities.{
  InvestedTotals, RefundedTotals, invested_row, refunded_row, is_invested, is_refunded, among,
  gathered, group_by, get_total_invested_amounts, get_total_refunded_amounts,
  get_total_stellar_invested_amounts, get_total_stellar_refunded_amounts,
  get_operation_participants, distinct_texts, users, has_user,
}
use lend_worker_stellar.Storage.Latest.{on_stellar}
use lend_worker_stellar.Storage.Activities.Groups.{
  HasAmount, total, of_op, sum_column-total, collect-group_by, gathered-group_by,
}

-- The rows of one operation that pass a filter.
abbrev pub rows_with : (Activity → Bool) → ℤ → List Activity → List Activity
rows_with p op rows = keep (λ a. p a && eqb_ℤ a.factory_op_id op) rows

abbrev pub invested_for : Activity → Bool
invested_for a = is_invested a.event_type

abbrev pub refunded_for : Activity → Bool
refunded_for a = is_refunded a.event_type

abbrev pub IsListed : ℤ → List ℤ → Type 0
IsListed op ids = any (λ id. eqb_ℤ id op) ids ≡ true

among-listed :
    (op : ℤ) (ids : List ℤ) (a : Activity)
    → IsListed op ids
    → eqb_ℤ a.factory_op_id op ≡ true
    → among ids a ≡ true
among-listed op ids a listed mine =
    let q : a.factory_op_id ≡ op = (eqb_ℤ_iff a.factory_op_id op).0 mine in
    subst (λ x. any (λ id. eqb_ℤ id x) ids ≡ true) (sym q) listed

-- Two filters that agree on an operation's rows.
of_op-keep :
    (p q : Activity → Bool) (op : ℤ) (rows : List Activity)
    → ((a : Activity) → eqb_ℤ a.factory_op_id op ≡ true → q a ≡ p a)
    → of_op op (keep q rows) ≡ rows_with p op rows
of_op-keep p q op [] h = refl
of_op-keep p q op (a ∷ rows) h = ground (arith, of_op-keep p q op rows h, h a)

-- Every investment and refund in the table has amounts that the queries can add up.
pub record AllAmounts (rows : List Activity) : Type 0 where
  pub invested :
      All
        (λ a.
          is_invested a.event_type ≡ true
          → HasAmount (lit "usdc_amount") a × HasAmount (lit "shares_bought") a)
        rows
  pub refunded :
      All
        (λ a.
          is_refunded a.event_type ≡ true
          → HasAmount (lit "usdc_amount") a × HasAmount (lit "shares_refunded") a)
        rows

abbrev pub invested_totals : ℤ → List Activity → InvestedTotals
invested_totals op rows = record {
  factory_op_id = op;
  total_usdc_amount = show_ℤ (pos (total (lit "usdc_amount") rows));
  total_shares_bought = show_ℤ (pos (total (lit "shares_bought") rows));
}

abbrev pub refunded_totals : ℤ → List Activity → RefundedTotals
refunded_totals op rows = record {
  factory_op_id = op;
  total_usdc_amount = show_ℤ (pos (total (lit "usdc_amount") rows));
  total_shares_refunded = show_ℤ (pos (total (lit "shares_refunded") rows));
}

invested_row-total :
    (op : ℤ) (rows : List Activity)
    → All (λ a. HasAmount (lit "usdc_amount") a × HasAmount (lit "shares_bought") a) rows
    → invested_row op rows ≡ ok (op, invested_totals op rows)
unfolding invested_row
invested_row-total op rows h = rw (
  sum_column-total (lit "usdc_amount") rows (All-imp _ _ rows (λ a p. p.0) h),
  sum_column-total (lit "shares_bought") rows (All-imp _ _ rows (λ a p. p.1) h),
)

refunded_row-total :
    (op : ℤ) (rows : List Activity)
    → All (λ a. HasAmount (lit "usdc_amount") a × HasAmount (lit "shares_refunded") a) rows
    → refunded_row op rows ≡ ok (op, refunded_totals op rows)
unfolding refunded_row
refunded_row-total op rows h = rw (
  sum_column-total (lit "usdc_amount") rows (All-imp _ _ rows (λ a p. p.0) h),
  sum_column-total (lit "shares_refunded") rows (All-imp _ _ rows (λ a p. p.1) h),
)

-- What holds of every row of a kind holds of an operation's rows of that kind.
All-of_op :
    (P : Activity → Type 0) (kind q : Activity → Bool) (op : ℤ) (rows : List Activity)
    → ((a : Activity) → q a ≡ true → kind a ≡ true)
    → All (λ a. kind a ≡ true → P a) rows
    → All P (of_op op (keep q rows))
All-of_op P kind q op rows narrower h =
    All-keep P (λ a. eqb_ℤ a.factory_op_id op) (keep q rows)
      (All-imp P _ (keep q rows) (λ a k mine. k)
        (All-keep P q rows (All-imp _ _ rows (λ a k passed. k (narrower a passed)) h)))

-- The map has an entry for each listed operation that has rows, made of these rows.
abbrev pub Entries :
    {A : Type 0}
    → (ℤ → List Activity → A)
    → (Activity → Bool)
    → List ℤ
    → List Activity
    → HashMap ℤ A
    → Type 0
Entries f p ids rows m =
    (op : ℤ)
    → IsListed op ids
    → (get op m ≡ some (f op (rows_with p op rows)))
      ⊎ ((get op m ≡ none) × (rows_with p op rows ≡ []))

module _ {A : Type 0} (f : ℤ → List Activity → A) (p q : Activity → Bool) (ids : List ℤ)
    (rows : List Activity)
    (agree : (op : ℤ) (a : Activity)
      → IsListed op ids
      → eqb_ℤ a.factory_op_id op ≡ true
      → q a ≡ p a) where
  group_by-Entries : Entries f p ids rows (collect (group_by (λ op l. (op, f op l)) (keep q rows)))
  group_by-Entries op listed =
      let m : HashMap ℤ A = collect (group_by (λ op l. (op, f op l)) (keep q rows)) in
      subst (λ l. (get op m ≡ some (f op l)) ⊎ ((get op m ≡ none) × (l ≡ [])))
        (of_op-keep p q op rows (λ a mine. agree op a listed mine))
        (collect-group_by f (keep q rows) op)

  query-Entries :
      (make : ℤ → List Activity → Result (ℤ × A))
      → ((op : ℤ) → make op (of_op op (keep q rows)) ≡ ok (op, f op (of_op op (keep q rows))))
      → (m : HashMap ℤ A) × (gathered (group_by make (keep q rows)) ≡ ok m) × Entries f p ids rows m
  query-Entries make made = (_, gathered-group_by make f (keep q rows) made, group_by-Entries)

module _ (ids : List ℤ) (db : Db) (amounts : AllAmounts db.activity) where
  pub get_total_invested_amounts-Entries :
      (m : HashMap ℤ InvestedTotals) × (get_total_invested_amounts ids db ≡ ok m)
      × Entries invested_totals (λ a. is_invested a.event_type) ids db.activity m
  unfolding get_total_invested_amounts
  get_total_invested_amounts-Entries =
      query-Entries invested_totals (λ a. is_invested a.event_type)
        (λ a. is_invested a.event_type && among ids a) ids db.activity
        (λ op a listed mine. ground (arith, among-listed op ids a listed mine)) invested_row
        (λ op. invested_row-total op _ (
          All-of_op _ (λ a. is_invested a.event_type) _ op db.activity (λ a passed. ground arith)
            amounts.invested))

  pub get_total_refunded_amounts-Entries :
      (m : HashMap ℤ RefundedTotals) × (get_total_refunded_amounts ids db ≡ ok m)
      × Entries refunded_totals (λ a. is_refunded a.event_type) ids db.activity m
  unfolding get_total_refunded_amounts
  get_total_refunded_amounts-Entries =
      query-Entries refunded_totals (λ a. is_refunded a.event_type)
        (λ a. is_refunded a.event_type && among ids a) ids db.activity
        (λ op a listed mine. ground (arith, among-listed op ids a listed mine)) refunded_row
        (λ op. refunded_row-total op _ (
          All-of_op _ (λ a. is_refunded a.event_type) _ op db.activity (λ a passed. ground arith)
            amounts.refunded))

  pub get_total_stellar_invested_amounts-Entries :
      (m : HashMap ℤ InvestedTotals) × (get_total_stellar_invested_amounts ids db ≡ ok m)
      × Entries invested_totals (λ a. is_invested a.event_type && on_stellar a) ids db.activity m
  unfolding get_total_stellar_invested_amounts
  get_total_stellar_invested_amounts-Entries =
      query-Entries invested_totals (λ a. is_invested a.event_type && on_stellar a)
        (λ a. is_invested a.event_type && (among ids a && on_stellar a)) ids db.activity
        (λ op a listed mine. ground (arith, among-listed op ids a listed mine)) invested_row
        (λ op. invested_row-total op _ (
          All-of_op _ (λ a. is_invested a.event_type) _ op db.activity (λ a passed. ground arith)
            amounts.invested))

  pub get_total_stellar_refunded_amounts-Entries :
      (m : HashMap ℤ RefundedTotals) × (get_total_stellar_refunded_amounts ids db ≡ ok m)
      × Entries refunded_totals (λ a. is_refunded a.event_type && on_stellar a) ids db.activity m
  unfolding get_total_stellar_refunded_amounts
  get_total_stellar_refunded_amounts-Entries =
      query-Entries refunded_totals (λ a. is_refunded a.event_type && on_stellar a)
        (λ a. is_refunded a.event_type && (among ids a && on_stellar a)) ids db.activity
        (λ op a listed mine. ground (arith, among-listed op ids a listed mine)) refunded_row
        (λ op. refunded_row-total op _ (
          All-of_op _ (λ a. is_refunded a.event_type) _ op db.activity (λ a passed. ground arith)
            amounts.refunded))

-- The number of an operation's investors, each counted once.
abbrev pub investors : List Activity → ℤ
investors rows = pos (length (distinct_texts (users rows)))

pub get_operation_participants-Entries :
    (ids : List ℤ) (db : Db)
    → (m : HashMap ℤ ℤ) × (get_operation_participants ids db ≡ ok m)
      × Entries
          (λ op rows. investors rows)
          (λ a. has_user a.user_address && is_invested a.event_type)
          ids
          db.activity
          m
unfolding get_operation_participants
get_operation_participants-Entries ids db = (
  _,
  refl,
  group_by-Entries (λ op rows. investors rows)
      (λ a. has_user a.user_address && is_invested a.event_type)
      (λ a. has_user a.user_address && (among ids a && is_invested a.event_type)) ids db.activity
      (λ op a listed mine. ground (arith, among-listed op ids a listed mine)),
)
