-- ===== src/Storage/Operations/Status.antt =====
-- What a status update writes: the status alone, and `finished` only when every share is sold.
use lend_worker_stellar.Base.{
  ℕ, zero, suc, ℤ, eqb_ℤ_iff, true, false, HashMap, int_key, Option, none, some, List, [], ◌∷◌,
  ◌++◌, keys, get_elem?, Result, ok, Result-cases, collect_all, ◌≡◌, refl, sym, ap, ◌∙◌, ◌⊎◌, inl,
  inr,
}
use mathlib.Core.Path.{subst}
use lend_worker_stellar.Domain.Operation.{Operation, FundingStatus}
use lend_worker_stellar.Domain.Activity.{ActivityEventType}
use lend_worker_stellar.Storage.Tables.{Db, OperationRow}
use lend_worker_stellar.Storage.Operations.{
  numeric, same_number, may_set, set_status, update_for, valid_updates, write_statuses,
  update_operation_status, notices,
}

-- An element of the list gives the element in the same place of the collected result.
collect_all-get :
    {A B : Type 0} (f : A → Result B) (xs : List A) (ys : List B) (i : ℕ) (x : A)
    → collect_all f xs ≡ ok ys
    → get_elem? xs i ≡ some x
    → (y : B) × (get_elem? ys i ≡ some y) × (f x ≡ ok y)
unfolding collect_all
collect_all-get f [] ys i x h e = cc
collect_all-get f (w ∷ xs) ys i x h e = elim (Result-cases (f w)) [
  | inr (m, q) ↦ cc (rw q at h)
  | inl (z, q) ↦ elim (Result-cases (collect_all f xs)) [
    | inr (m, r) ↦ cc (rw (q, r) at h)
    | inl (zs, r) ↦
        let shape : z ∷ zs ≡ ys = cc (rw (q, r) at h) in
        subst (λ l. (y : _) × (get_elem? l i ≡ some y) × (f x ≡ ok y)) shape
          (elim i
              as (λ j.
                get_elem? (w ∷ xs) j ≡ some x
                → (y : _) × (get_elem? (z ∷ zs) j ≡ some y) × (f x ≡ ok y)) [
                  | zero ↦ λ a. (z, refl, ap f (sym (cc a)) ∙ q)
                  | suc j ↦ λ a. collect_all-get f xs zs j x r a
                ]
            e)
  ]
]

-- All shares are sold: the two texts are the same whole number.
abbrev pub IsSoldOut : Operation → Type 0
IsSoldOut o =
    (n : ℤ) × (numeric o.shares_sold ≡ ok (some n)) × (numeric o.total_shares ≡ ok (some n))

same_number-some : (a b : Option ℤ) → same_number a b ≡ true → (n : ℤ) × (a ≡ some n) × (b ≡ some n)
same_number-some none b h = cc
same_number-some (some a) none h = cc
same_number-some (some a) (some b) h = (a, refl, ap some (sym ((eqb_ℤ_iff a b).0 h)))

may_set-finished :
    (row : OperationRow) → may_set FundingStatus.finished row ≡ ok true → IsSoldOut row.operation
unfolding may_set
may_set-finished row h = elim (Result-cases (numeric row.operation.shares_sold)) [
  | inr (m, e) ↦ cc (rw e at h)
  | inl (a, e) ↦ elim (Result-cases (numeric row.operation.total_shares)) [
    | inr (m, f) ↦ cc (rw (e, f) at h)
    | inl (b, f) ↦
        let (n, p, q) = same_number-some a b (cc (rw (e, f) at h)) in (n, e ∙ ap ok p, f ∙ ap ok q)
  ]
]

-- What a status update may do to a row.
pub record Follows (status : Option FundingStatus) (row row' : OperationRow) : Type 0 where
  pub only_status : row' ≡ record row {
    operation = record row.operation { funding_status = row'.operation.funding_status };
  }
  pub unlisted : status ≡ none → row' ≡ row
  pub finish :
      row'.operation.funding_status ≡ FundingStatus.finished
      → (row.operation.funding_status ≡ FundingStatus.finished) ⊎ IsSoldOut row.operation

unchanged-Follows : (status : Option FundingStatus) (row : OperationRow) → Follows status row row
unchanged-Follows status row = record {
  only_status = refl;
  unlisted = λ h. refl;
  finish = λ h. inl h;
}

set_status-Follows :
    (status : Option FundingStatus) (row row' : OperationRow)
    → set_status status row ≡ ok row'
    → Follows status row row'
unfolding set_status
set_status-Follows none row row' h =
    let q : row ≡ row' = cc in subst (Follows none row) q (unchanged-Follows none row)
set_status-Follows (some status) row row' h = elim (Result-cases (may_set status row)) [
  | inr (m, e) ↦ cc (rw e at h)
  | inl (false, e) ↦
      let q : row ≡ row' = cc (rw e at h) in
      subst (Follows (some status) row) q (unchanged-Follows (some status) row)
  | inl (true, e) ↦
      let q : record row { operation = record row.operation { funding_status = status } } ≡ row' =
        cc (rw e at h) in
      subst (Follows (some status) row) q (record {
        only_status = refl;
        unlisted = λ n. cc;
        finish = λ f. inr (may_set-finished row (subst (λ s. may_set s row ≡ ok true) f e));
      })
]

write_statuses-Follows :
    (valid : HashMap ℤ FundingStatus) (db db' : Db) (i : ℕ) (row : OperationRow)
    → write_statuses valid db ≡ ok db'
    → get_elem? db.operations i ≡ some row
    → (row' : OperationRow) × (get_elem? db'.operations i ≡ some row')
      × Follows (update_for valid row) row row'
unfolding write_statuses
write_statuses-Follows [] db db' i row h at =
    let q : db ≡ db' = cc in
    (
      row,
      subst (λ (x : Db). get_elem? x.operations i ≡ some row) q at,
      unchanged-Follows (update_for [] row) row,
    )
write_statuses-Follows (u ∷ valid) db db' i row h at =
    elim (Result-cases (collect_all (λ r. set_status (update_for (u ∷ valid) r) r) db.operations)) [
      | inr (m, e) ↦ cc (rw e at h)
      | inl (rows, e) ↦
          let q : record db {
            operations = rows;
            notified = db.notified ++ notices (keys (u ∷ valid));
          }
              ≡ db' =
            cc (rw e at h) in
          let (row', there, set) =
            collect_all-get (λ r. set_status (update_for (u ∷ valid) r) r) db.operations rows i row
              e at in
          (
            row',
            subst (λ (x : Db). get_elem? x.operations i ≡ some row') q there,
            set_status-Follows (update_for (u ∷ valid) row) row row' set,
          )
    ]

-- A status update keeps every row in its place and writes at most its status: a row with no valid
-- update stays as it is, and an operation becomes finished only if its sold shares are all its
-- shares, whatever the event history says.
pub update_operation_status-Follows :
    (updates : HashMap ℤ ActivityEventType) (db db' : Db) (i : ℕ) (row : OperationRow)
    → update_operation_status updates db ≡ ok db'
    → get_elem? db.operations i ≡ some row
    → (row' : OperationRow) × (get_elem? db'.operations i ≡ some row')
      × Follows (update_for (valid_updates updates) row) row row'
unfolding update_operation_status
update_operation_status-Follows updates db db' i row h at =
    write_statuses-Follows (valid_updates updates) db db' i row h at
