-- ===== src/Storage/Operations/Aligned.antt =====
-- The statements of the two syncs leave an operation's identity and its chains alone.
use mathlib.Core.Path.{subst}
use lend_worker_stellar.Base.{
  ℕ, zero, suc, ℤ, HashMap, keys, Option, none, some, List, [], ◌∷◌, ◌++◌, get_elem?, ok, Result,
  Result-cases, collect_all, ◌≡◌, refl, inl, inr, arith,
}
use lend_worker_stellar.Domain.Operation.{FundingStatus}
use lend_worker_stellar.Domain.Activity.{ActivityEventType}
use lend_worker_stellar.Storage.Tables.{Db, OperationRow}
use lend_worker_stellar.Storage.Operations.{
  OperationProgressUpdate, set_progress, update_for, update_operation_progress, may_set, set_status,
  valid_updates, write_statuses, update_operation_status, notices,
}

-- The same operation, with the same chains.
pub record Alike (r r' : OperationRow) : Type 0 where
  pub id_eq : r'.operation.id ≡ r.operation.id
  pub fop_eq : r'.operation.factory_op_id ≡ r.operation.factory_op_id
  pub published_eq : r'.published ≡ r.published
  pub chains_eq : r'.operation.supported_chains ≡ r.operation.supported_chains

pub Alike-refl : (r : OperationRow) → Alike r r
Alike-refl r = record { id_eq = refl; fop_eq = refl; published_eq = refl; chains_eq = refl }

-- And with the same status.
abbrev pub StillAs : OperationRow → OperationRow → Type 0
StillAs r r' = Alike r r' × (r'.operation.funding_status ≡ r.operation.funding_status)

-- Row by row.
abbrev pub Aligned :
    (OperationRow → OperationRow → Type 0) → List OperationRow → List OperationRow → Type 0
Aligned R [] [] = Unit
Aligned R [] (r ∷ l) = ⊥
Aligned R (r ∷ l) [] = ⊥
Aligned R (r ∷ l) (r' ∷ l') = R r r' × Aligned R l l'

module _ (R : OperationRow → OperationRow → Type 0) where
  pub Aligned-refl : (ops : List OperationRow) → ((r : OperationRow) → R r r) → Aligned R ops ops
  Aligned-refl [] same = tt
  Aligned-refl (r ∷ ops) same = (same r, Aligned-refl ops same)

  pub Aligned-get_elem? :
      (ops ops' : List OperationRow) (i : ℕ) (row : OperationRow)
      → Aligned R ops ops'
      → get_elem? ops i ≡ some row
      → (row' : OperationRow) × (get_elem? ops' i ≡ some row') × R row row'
  Aligned-get_elem? [] ops' i row a e = cc
  Aligned-get_elem? (r ∷ ops) [] i row a e = absurd a
  Aligned-get_elem? (r ∷ ops) (r' ∷ ops') zero row a e =
      let q : r ≡ row = cc in (r', refl, subst (λ x. R x r') q a.0)
  Aligned-get_elem? (r ∷ ops) (r' ∷ ops') (suc i) row a e = Aligned-get_elem? ops ops' i row a.1 e

  collect_all-Aligned :
      (f : OperationRow → Result OperationRow) (ops ops' : List OperationRow)
      → ((r r' : OperationRow) → f r ≡ ok r' → R r r')
      → collect_all f ops ≡ ok ops'
      → Aligned R ops ops'
  unfolding collect_all
  collect_all-Aligned f [] ops' same h = let shape : [] ≡ ops' = cc in subst (Aligned R []) shape tt
  collect_all-Aligned f (r ∷ ops) ops' same h = elim (Result-cases (f r)) [
    | inr (m, e) ↦ cc (rw e at h)
    | inl (r', e) ↦ elim (Result-cases (collect_all f ops)) [
      | inr (m, q) ↦ cc (rw (e, q) at h)
      | inl (rest, q) ↦
          let shape : r' ∷ rest ≡ ops' = cc (rw (e, q) at h) in
          subst (Aligned R (r ∷ ops)) shape (same r r' e, collect_all-Aligned f ops rest same q)
    ]
  ]

pub Aligned-imp :
    {R S : OperationRow → OperationRow → Type 0} (ops ops' : List OperationRow)
    → ((r r' : OperationRow) → R r r' → S r r')
    → Aligned R ops ops'
    → Aligned S ops ops'
Aligned-imp [] [] f a = tt
Aligned-imp [] (r ∷ l) f a = absurd a
Aligned-imp (r ∷ l) [] f a = absurd a
Aligned-imp (r ∷ ops) (r' ∷ ops') f a = (f r r' a.0, Aligned-imp ops ops' f a.1)

set_progress-StillAs :
    (u : Option OperationProgressUpdate) (r r' : OperationRow)
    → set_progress u r ≡ ok r'
    → StillAs r r'
unfolding set_progress
set_progress-StillAs none r r' h = let q : r ≡ r' = cc in subst (StillAs r) q (Alike-refl r, refl)
set_progress-StillAs (some u) r r' h = (
  record {
    id_eq = ground arith;
    fop_eq = ground arith;
    published_eq = ground arith;
    chains_eq = ground arith;
  },
  ground arith,
)

set_status-Alike :
    (s : Option FundingStatus) (r r' : OperationRow) → set_status s r ≡ ok r' → Alike r r'
unfolding set_status
set_status-Alike none r r' h = let q : r ≡ r' = cc in subst (Alike r) q (Alike-refl r)
set_status-Alike (some s) r r' h = elim (Result-cases (may_set s r)) [
  | inr (m, e) ↦ cc (rw e at h)
  | inl (b, e) ↦
      let h' = rw e at h in
      record {
        id_eq = ground arith;
        fop_eq = ground arith;
        published_eq = ground arith;
        chains_eq = ground arith;
      }
]

pub update_operation_progress-Aligned :
    (updates : HashMap ℤ OperationProgressUpdate) (db db' : Db)
    → update_operation_progress updates db ≡ ok db'
    → Aligned StillAs db.operations db'.operations
unfolding update_operation_progress
update_operation_progress-Aligned updates db db' h =
    elim (Result-cases (collect_all (λ r. set_progress (update_for updates r) r) db.operations)) [
      | inr (m, e) ↦ cc (rw e at h)
      | inl (rows, e) ↦
          let kept =
            collect_all-Aligned StillAs (λ r. set_progress (update_for updates r) r) db.operations
              rows (λ r r' q. set_progress-StillAs (update_for updates r) r r' q) e in
          let shape : record db {
            operations = rows;
            notified = db.notified ++ notices (keys updates);
          }
              ≡ db' =
            cc (rw e at h) in
          subst (λ (x : Db). Aligned StillAs db.operations x.operations) shape kept
    ]

write_statuses-Aligned :
    (valid : HashMap ℤ FundingStatus) (db db' : Db)
    → write_statuses valid db ≡ ok db'
    → Aligned Alike db.operations db'.operations
unfolding write_statuses
write_statuses-Aligned [] db db' h =
    let same : db ≡ db' = cc in
    subst (λ (x : Db). Aligned Alike db.operations x.operations) same
      (Aligned-refl Alike db.operations Alike-refl)
write_statuses-Aligned (u ∷ valid) db db' h =
    elim (Result-cases (collect_all (λ r. set_status (update_for (u ∷ valid) r) r) db.operations)) [
      | inr (m, e) ↦ cc (rw e at h)
      | inl (rows, e) ↦
          let kept =
            collect_all-Aligned Alike (λ r. set_status (update_for (u ∷ valid) r) r) db.operations
              rows (λ r r' q. set_status-Alike (update_for (u ∷ valid) r) r r' q) e in
          let shape : record db {
            operations = rows;
            notified = db.notified ++ notices (keys (u ∷ valid));
          }
              ≡ db' =
            cc (rw e at h) in
          subst (λ (x : Db). Aligned Alike db.operations x.operations) shape kept
    ]

pub update_operation_status-Aligned :
    (updates : HashMap ℤ ActivityEventType) (db db' : Db)
    → update_operation_status updates db ≡ ok db'
    → Aligned Alike db.operations db'.operations
unfolding update_operation_status
update_operation_status-Aligned updates db db' h =
    write_statuses-Aligned (valid_updates updates) db db' h
