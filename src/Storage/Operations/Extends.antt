-- ===== src/Storage/Operations/Extends.antt =====
-- No write to the operations forgets one: every id that was there is there afterwards.
use lend_worker_stellar.Base.{
  ℤ, Text, Json, true, HashMap, keys, int_key, Option, none, some, List, [], ◌∷◌, ◌++◌, map, Result,
  ok, Result-cases, collect_all, ◌≡◌, refl, sym, ap, inl, inr, arith,
}
use mathlib.Core.Path.{subst}
use lend_worker_stellar.Config.Types.{Uuid}
use lend_worker_stellar.Domain.Operation.{FundingStatus, FiatHolding}
use lend_worker_stellar.Domain.Activity.{ActivityEventType}
use lend_worker_stellar.Storage.Tables.{Db, OperationRow, has_operation}
use lend_worker_stellar.Storage.Operations.{
  OperationProgressUpdate, set_progress, may_set, set_status, update_for, valid_updates,
  write_statuses, update_operation_progress, update_operation_status, op_created_data, add_chain,
  add_first_chain, insert_holding, notices,
}

-- Every operation of the first list is in the second.
abbrev pub Extends : List OperationRow → List OperationRow → Type 0
Extends ops ops' = (id : Uuid) → has_operation ops id ≡ true → has_operation ops' id ≡ true

-- A write that leaves the stored activity alone and keeps every operation.
pub record Keeps (db db' : Db) : Type 0 where
  pub activity_eq : db'.activity ≡ db.activity
  pub extends : Extends db.operations db'.operations

pub Keeps-refl : (db : Db) → Keeps db db
Keeps-refl db = record { activity_eq = refl; extends = λ id h. h }

collect_all-Extends :
    (f : OperationRow → Result OperationRow) (ops ops' : List OperationRow)
    → ((r r' : OperationRow) → f r ≡ ok r' → r'.operation.id ≡ r.operation.id)
    → collect_all f ops ≡ ok ops'
    → Extends ops ops'
unfolding collect_all
collect_all-Extends f [] ops' same h id k = cc
collect_all-Extends f (r ∷ ops) ops' same h id k = elim (Result-cases (f r)) [
  | inr (m, e) ↦ cc (rw e at h)
  | inl (r', e) ↦ elim (Result-cases (collect_all f ops)) [
    | inr (m, q) ↦ cc (rw (e, q) at h)
    | inl (rest, q) ↦
        let shape : r' ∷ rest ≡ ops' = cc (rw (e, q) at h) in
        let later = collect_all-Extends f ops rest same q id in
        let mine = same r r' e in
        subst (λ l. has_operation l id ≡ true) shape (ground (arith, mine, later))
  ]
]

map-Extends :
    (f : OperationRow → OperationRow) (ops : List OperationRow)
    → ((r : OperationRow) → (f r).operation.id ≡ r.operation.id)
    → Extends ops (map f ops)
map-Extends f [] same id k = k
map-Extends f (r ∷ ops) same id k = ground (arith, same r, map-Extends f ops same id)

set_progress-id :
    (u : Option OperationProgressUpdate) (r r' : OperationRow)
    → set_progress u r ≡ ok r'
    → r'.operation.id ≡ r.operation.id
unfolding set_progress
set_progress-id none r r' h =
    let q : r ≡ r' = cc in ap (λ (x : OperationRow). x.operation.id) (sym q)
set_progress-id (some u) r r' h = ground arith

set_status-id :
    (s : Option FundingStatus) (r r' : OperationRow)
    → set_status s r ≡ ok r'
    → r'.operation.id ≡ r.operation.id
unfolding set_status
set_status-id none r r' h = let q : r ≡ r' = cc in ap (λ (x : OperationRow). x.operation.id) (sym q)
set_status-id (some s) r r' h = elim (Result-cases (may_set s r)) [
  | inr (m, e) ↦ cc (rw e at h)
  | inl (b, e) ↦ let h' = rw e at h in ground arith
]

add_chain-id :
    (op : ℤ) (token : Text) (r : OperationRow)
    → (add_chain op token r).operation.id ≡ r.operation.id
unfolding add_chain
add_chain-id op token r = ground arith

pub update_operation_progress-Keeps :
    (updates : HashMap ℤ OperationProgressUpdate) (db db' : Db)
    → update_operation_progress updates db ≡ ok db'
    → Keeps db db'
unfolding update_operation_progress
update_operation_progress-Keeps updates db db' h =
    elim (Result-cases (collect_all (λ r. set_progress (update_for updates r) r) db.operations)) [
      | inr (m, e) ↦ cc (rw e at h)
      | inl (rows, e) ↦
          let kept =
            collect_all-Extends (λ r. set_progress (update_for updates r) r) db.operations rows
              (λ r r' q. set_progress-id (update_for updates r) r r' q) e in
          let shape : record db {
            operations = rows;
            notified = db.notified ++ notices (keys updates);
          }
              ≡ db' =
            cc (rw e at h) in
          subst (Keeps db) shape (record { activity_eq = refl; extends = kept })
    ]

write_statuses-Keeps :
    (valid : HashMap ℤ FundingStatus) (db db' : Db)
    → write_statuses valid db ≡ ok db'
    → Keeps db db'
unfolding write_statuses
write_statuses-Keeps [] db db' h = let same : db ≡ db' = cc in subst (Keeps db) same (Keeps-refl db)
write_statuses-Keeps (u ∷ valid) db db' h =
    elim (Result-cases (collect_all (λ r. set_status (update_for (u ∷ valid) r) r) db.operations)) [
      | inr (m, e) ↦ cc (rw e at h)
      | inl (rows, e) ↦
          let kept =
            collect_all-Extends (λ r. set_status (update_for (u ∷ valid) r) r) db.operations rows
              (λ r r' q. set_status-id (update_for (u ∷ valid) r) r r' q) e in
          let shape : record db {
            operations = rows;
            notified = db.notified ++ notices (keys (u ∷ valid));
          }
              ≡ db' =
            cc (rw e at h) in
          subst (Keeps db) shape (record { activity_eq = refl; extends = kept })
    ]

pub update_operation_status-Keeps :
    (updates : HashMap ℤ ActivityEventType) (db db' : Db)
    → update_operation_status updates db ≡ ok db'
    → Keeps db db'
unfolding update_operation_status
update_operation_status-Keeps updates db db' h =
    write_statuses-Keeps (valid_updates updates) db db' h

pub add_first_chain-Keeps :
    (op : ℤ) (d : Json) (db db' : Db) → add_first_chain op d db ≡ ok db' → Keeps db db'
unfolding add_first_chain
add_first_chain-Keeps op d db db' h = elim (Result-cases (op_created_data d)) [
  | inr (m, e) ↦ cc (rw e at h)
  | inl (created, e) ↦
      let shape : record db { operations = map (add_chain op created.op_token) db.operations }
          ≡ db' =
        cc (rw e at h) in
      subst (Keeps db) shape (record {
        activity_eq = refl;
        extends =
            map-Extends (add_chain op created.op_token) db.operations
              (add_chain-id op created.op_token);
      })
]

pub insert_holding-Keeps :
    (holding : FiatHolding) (db db' : Db) → insert_holding holding db ≡ ok db' → Keeps db db'
unfolding insert_holding
insert_holding-Keeps holding db db' h =
    let shape : record db { fiat_holdings = db.fiat_holdings ++ holding ∷ [] } ≡ db' = cc h in
    subst (Keeps db) shape (record { activity_eq = refl; extends = λ id k. k })
