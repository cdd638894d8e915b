-- ===== src/Storage/Activities.antt =====
-- crates/lw-storage/src/activity_repository.rs
pub mod Uniqueness
pub mod History
pub mod Fresh
pub mod Delivered
pub mod Groups
pub mod Totals
use mathlib.Core.List.{foldl}
use mathlib.Core.Option
use lend_worker_stellar.Base.{
  ℕ, ◌+◌, ℤ, pos, ◌+ℤ◌, max_ℤ, eqb_ℤ, show_ℤ, parse_i64, Text, lit, text_eq, ◌==◌, Json, null, bool,
  num, str, obj, member, Bool, true, false, ◌&&◌, ltb, any, keep, if◌then◌else◌, HashMap, get,
  insert, collect, int_key, Option, none, some, unwrap_or, List, [], ◌∷◌, ◌++◌, map, length, Result,
  ok, err, collect_all, ◌>>=◌,
}
use lend_worker_stellar.Config.Types.{Uuid}
use lend_worker_stellar.Config.Env.{stellar_chain_id}
use lend_worker_stellar.Domain.Operation.{Time}
use lend_worker_stellar.Domain.Activity.{Activity, ActivityEventType, activity_event_priority}
use lend_worker_stellar.Storage.Tables.{Db, insert_row, insert_rows}
use lend_worker_stellar.Storage.Latest.{on_stellar}

-- `insert`: an absent user is stored as the empty text, and the time is the database's.
unfoldable pub insert_one : Time → Activity → Db → Result Db
unfolding insert_row
insert_one now a db = do
  rows ←
      insert_row db.operations db.activity
        (record a { user_address = some (unwrap_or [] a.user_address); created_at = now })
  ok (record db { activity = rows })

-- `insert_many`
unfoldable pub insert_many : List Activity → Db → Result Db
unfolding insert_rows
insert_many activities db = do
  rows ← insert_rows db.operations db.activity activities
  ok (record db { activity = rows })

-- `data ->> key`
abbrev pub json_text : Option Json → Option Text
json_text none = none
json_text (some null) = none
json_text (some (bool true)) = some (lit "true")
json_text (some (bool false)) = some (lit "false")
json_text (some (num n)) = some (show_ℤ n)
json_text (some (str t)) = some t
json_text (some (obj f)) = some (lit "{}")

-- `::BIGINT`, on a text that may be null
abbrev pub bigint : Option Text → Result (Option ℤ)
bigint none = ok none
bigint (some t) = elim (parse_i64 t) [
  | none ↦ err (lit "invalid input syntax for type bigint")
  | some z ↦ ok (some z)
]

-- COALESCE(SUM(..), 0): a null is not counted, a value that is no bigint fails the query.
unfoldable pub sum_column : Text → List Activity → Result ℤ
unfolding parse_i64 member
sum_column key [] = ok (pos 0)
sum_column key (a ∷ l) = do
  let rest = sum_column key l
  z ← bigint (json_text (member key a.payload))
  s ← rest
  ok (unwrap_or (pos 0) z +ℤ s)

-- the texts and numbers that occur, each once
unfoldable pub distinct_texts : List Text → List Text
distinct_texts [] = []
distinct_texts (t ∷ l) =
    let rest = distinct_texts l in if any (λ u. text_eq u t) rest then rest else t ∷ rest

distinct_ids : List ℤ → List ℤ
distinct_ids [] = []
distinct_ids (t ∷ l) =
    let rest = distinct_ids l in if any (λ u. eqb_ℤ u t) rest then rest else t ∷ rest

-- GROUP BY factory_op_id: what is made of each group's rows
unfoldable pub group_by {ℓ} : {A : Type ℓ} → (ℤ → List Activity → A) → List Activity → List A
unfolding distinct_ids
group_by f rows =
    map (λ op. f op (keep (λ a. eqb_ℤ a.factory_op_id op) rows))
      (distinct_ids (map (λ a. a.factory_op_id) rows))

-- factory_op_id = ANY($1)
abbrev pub among : List ℤ → Activity → Bool
among ids a = any (λ id. eqb_ℤ id a.factory_op_id) ids

pub record InvestedTotals : Type 0 where
  pub factory_op_id : ℤ
  pub total_usdc_amount : Text
  pub total_shares_bought : Text

pub record RefundedTotals : Type 0 where
  pub factory_op_id : ℤ
  pub total_usdc_amount : Text
  pub total_shares_refunded : Text

abbrev pub is_invested : ActivityEventType → Bool
is_invested ActivityEventType.invested = true
is_invested _ = false

abbrev pub is_refunded : ActivityEventType → Bool
is_refunded ActivityEventType.refunded = true
is_refunded _ = false

-- one row of the two SELECTs
unfoldable pub invested_row : ℤ → List Activity → Result (ℤ × InvestedTotals)
unfolding sum_column
invested_row op rows = do
  usdc ← sum_column (lit "usdc_amount") rows
  shares ← sum_column (lit "shares_bought") rows
  ok (
    op,
    record {
      factory_op_id = op;
      total_usdc_amount = show_ℤ usdc;
      total_shares_bought = show_ℤ shares;
    },
  )

unfoldable pub refunded_row : ℤ → List Activity → Result (ℤ × RefundedTotals)
unfolding sum_column
refunded_row op rows = do
  usdc ← sum_column (lit "usdc_amount") rows
  shares ← sum_column (lit "shares_refunded") rows
  ok (
    op,
    record {
      factory_op_id = op;
      total_usdc_amount = show_ℤ usdc;
      total_shares_refunded = show_ℤ shares;
    },
  )

-- a query's rows, collected in a map, or its failure
abbrev pub gathered : {A : Type 0} → List (Result (ℤ × A)) → Result (HashMap ℤ A)
gathered rows = do pairs ← collect_all (λ r. r) rows; ok (collect pairs)

unfoldable pub get_total_invested_amounts : List ℤ → Db → Result (HashMap ℤ InvestedTotals)
unfolding group_by invested_row
get_total_invested_amounts ids db =
    gathered
      (group_by invested_row (keep (λ a. is_invested a.event_type && among ids a) db.activity))

unfoldable pub get_total_refunded_amounts : List ℤ → Db → Result (HashMap ℤ RefundedTotals)
unfolding group_by refunded_row
get_total_refunded_amounts ids db =
    gathered
      (group_by refunded_row (keep (λ a. is_refunded a.event_type && among ids a) db.activity))

unfoldable pub get_total_stellar_invested_amounts : List ℤ → Db → Result (HashMap ℤ InvestedTotals)
unfolding group_by invested_row
get_total_stellar_invested_amounts ids db = gathered (
    group_by invested_row
      (keep (λ a. is_invested a.event_type && (among ids a && on_stellar a)) db.activity))

unfoldable pub get_total_stellar_refunded_amounts : List ℤ → Db → Result (HashMap ℤ RefundedTotals)
unfolding group_by refunded_row
get_total_stellar_refunded_amounts ids db = gathered (
    group_by refunded_row
      (keep (λ a. is_refunded a.event_type && (among ids a && on_stellar a)) db.activity))

-- COUNT(DISTINCT user_address) over the rows with a user
unfoldable pub users : List Activity → List Text
users [] = []
users (a ∷ l) = let rest = users l in elim a.user_address [ none ↦ rest | some u ↦ u ∷ rest ]

abbrev pub has_user : Option Text → Bool
has_user none = false
has_user (some u) = true

unfoldable pub get_operation_participants : List ℤ → Db → Result (HashMap ℤ ℤ)
unfolding users distinct_texts group_by
get_operation_participants ids db = ok (
    collect (
      group_by (λ op rows. (op, pos (length (distinct_texts (users rows)))))
        (keep (λ a. has_user a.user_address && (among ids a && is_invested a.event_type))
          db.activity)))

-- the IN list of the status query
abbrev pub is_status_type : ActivityEventType → Bool
is_status_type ActivityEventType.op_created = true
is_status_type ActivityEventType.op_predeposits_open = true
is_status_type ActivityEventType.op_paused = true
is_status_type ActivityEventType.op_resumed = true
is_status_type ActivityEventType.op_canceled = true
is_status_type ActivityEventType.op_started = true
is_status_type ActivityEventType.op_finished = true
is_status_type _ = false

-- `entry(..).and_modify(..).or_insert(..)`
unfoldable pub raise_status :
    HashMap ℤ ActivityEventType → ℤ × ActivityEventType → HashMap ℤ ActivityEventType
unfolding get insert activity_event_priority
raise_status res (op, t) = elim (get op res) [
  | none ↦ insert op t res
  | some existing ↦
      if ltb (activity_event_priority existing) (activity_event_priority t)
      then insert op t res
      else res
]

-- The pairs are not made distinct: of two equal ones the second changes nothing.
unfoldable pub get_operation_status_history : List ℤ → Db → Result (HashMap ℤ ActivityEventType)
unfolding raise_status
get_operation_status_history ids db = ok (
    foldl raise_status [] (
      map (λ a. (a.factory_op_id, a.event_type))
        (keep (λ a. among ids a && is_status_type a.event_type) db.activity)))
