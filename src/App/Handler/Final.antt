-- ===== src/App/Handler/Final.antt =====
-- A status that is no longer open to funding is final for the worker.
use lend_worker_stellar.Base.{
  ℕ, zero, suc, ℤ, eqb_ℤ_iff, Bool, true, false, Bool-cases, ◌&&◌, keep, HashMap, get, int_key,
  Option, none, some, Option-cases, List, [], ◌∷◌, map, get_elem?, All, Any, ok, Result-cases, ◌≡◌,
  ◌≢◌, refl, sym, ap, ◌∙◌, inl, inr, arith,
}
use mathlib.Core.Path.{subst}
use lend_worker_stellar.Config.Env.{LocalEnv}
use lend_worker_stellar.Domain.Operation.{Time}
use lend_worker_stellar.Domain.Activity.{
  Activity, ActivityEventType, activity_event_to_funding_status,
}
use lend_worker_stellar.Storage.Tables.{Db, OperationRow}
use lend_worker_stellar.Storage.Activities.{among, is_status_type, get_operation_status_history}
use lend_worker_stellar.Storage.Activities.History.{
  Highest, status_rows, get_operation_status_history-Highest,
}
use lend_worker_stellar.Storage.Operations.{
  is_unfinished, fop_ids, get_unfinished_operations, valid_updates, update_for,
  update_operation_status,
}
use lend_worker_stellar.Storage.Operations.Status.{update_operation_status-Follows}
use lend_worker_stellar.Storage.Stores.{pg_stores}
use lend_worker_stellar.App.Discovery.{World}
use lend_worker_stellar.App.Handler.{
  stellar_chain_is_primary, write_primary, sync_statuses, write_statuses,
}

-- `factory_op_id` is a UNIQUE column: two rows with one id are one row.
pub record UniqueFops (ops : List OperationRow) : Type 0 where
  pub same_row :
      (i j : ℕ) (r s : OperationRow) (fop : ℤ)
      → get_elem? ops i ≡ some r
      → get_elem? ops j ≡ some s
      → r.operation.factory_op_id ≡ some fop
      → s.operation.factory_op_id ≡ some fop
      → r ≡ s

-- Every listed id is that of a row that passes the filter.
fop_ids-All :
    (P : ℤ → Type 0) (p : OperationRow → Bool) (ops : List OperationRow)
    → ((j : ℕ) (r : OperationRow) (id : ℤ)
        → get_elem? ops j ≡ some r
        → p r ≡ true
        → r.operation.factory_op_id ≡ some id
        → P id)
    → All P (fop_ids (keep p ops))
unfolding fop_ids
fop_ids-All P p [] h = tt
fop_ids-All P p (r ∷ ops) h =
    let rest = fop_ids-All P p ops (λ j s id e q f. h (suc j) s id e q f) in
    elim (Bool-cases (p r)) [
      | inr other ↦ rw other rest
      | inl passed ↦ elim (Option-cases r.operation.factory_op_id) [
        | inl e ↦ rw (passed, fop_ids, e) rest
        | inr (id, e) ↦ rw (passed, fop_ids, e) (h zero r id refl passed e, rest)
      ]
    ]

among-none :
    (fop : ℤ) (ids : List ℤ) (a : Activity)
    → All (λ id. id ≢ fop) ids
    → among ids a ≡ true
    → a.factory_op_id ≢ fop
among-none fop [] a h k e = cc
among-none fop (id ∷ ids) a h k e =
    ground (arith, eqb_ℤ_iff id a.factory_op_id, among-none fop ids a h.1)

status_rows-none :
    (fop : ℤ) (ids : List ℤ) (rows : List Activity)
    → All (λ id. id ≢ fop) ids
    → All
        (λ (r : ℤ × ActivityEventType). r.0 ≢ fop)
        (map
          (λ a. (a.factory_op_id, a.event_type))
          (keep (λ a. among ids a && is_status_type a.event_type) rows))
status_rows-none fop ids [] h = tt
status_rows-none fop ids (a ∷ rows) h =
    elim (Bool-cases (among ids a && is_status_type a.event_type)) [
      | inr other ↦ rw other (status_rows-none fop ids rows h)
      | inl passed ↦
          rw passed (among-none fop ids a h (ground arith), status_rows-none fop ids rows h)
    ]

none_there :
    (op : ℤ) (t : ActivityEventType) (rows : List (ℤ × ActivityEventType))
    → All (λ r. r.0 ≢ op) rows
    → Any (λ r. (r.0 ≡ op) × (r.1 ≡ t)) rows
    → ⊥
none_there op t [] h k = k
none_there op t (r ∷ rows) h (inl k) = h.0 k.0
none_there op t (r ∷ rows) h (inr k) = none_there op t rows h.1 k

Highest-none :
    (op : ℤ) (rows : List (ℤ × ActivityEventType)) (o : Option ActivityEventType)
    → All (λ r. r.0 ≢ op) rows
    → Highest op rows o
    → o ≡ none
Highest-none op rows none h k = refl
Highest-none op rows (some t) h k = absurd (none_there op t rows h k.0)

get-keep-none :
    {A : Type 0} (op : ℤ) (p : ℤ × A → Bool) (m : HashMap ℤ A)
    → get op m ≡ none
    → get op (keep p m) ≡ none
unfolding get
get-keep-none op p [] h = refl
get-keep-none op p ((k, v) ∷ m) h = ground (arith, get-keep-none op p m)

get-valid_updates-none :
    (op : ℤ) (m : HashMap ℤ ActivityEventType) → get op m ≡ none → get op (valid_updates m) ≡ none
unfolding get valid_updates
get-valid_updates-none op [] h = refl
get-valid_updates-none op ((k, v) ∷ m) h =
    elim (Option-cases (activity_event_to_funding_status v)) [
      | inl e ↦ ground (arith, get-valid_updates-none op m)
      | inr (s, e) ↦ ground (arith, get-valid_updates-none op m)
    ]

true_not_false : true ≡ false → ⊥
true_not_false h = cc

write_statuses-unlisted :
    (cfg : LocalEnv) (now : Time) (is_open : Bool) (w : World Db)
    (mine : HashMap ℤ ActivityEventType) (i : ℕ) (row : OperationRow)
    → update_for (valid_updates mine) row ≡ none
    → get_elem? w.store.operations i ≡ some row
    → get_elem? (write_statuses cfg now pg_stores is_open w mine).store.operations i ≡ some row
write_statuses-unlisted cfg now is_open w [] i row n at = at
write_statuses-unlisted cfg now is_open w (p ∷ mine) i row n at =
    elim (Result-cases (update_operation_status (p ∷ mine) w.store)) [
      | inr (m, e) ↦ rw e at
      | inl (db', e) ↦
          let (row', there, follows) =
            update_operation_status-Follows (p ∷ mine) w.store db' i row e at in
          rw e (there ∙ ap some (follows.unlisted n))
    ]

write_primary-unlisted :
    (cfg : LocalEnv) (now : Time) (is_open : Bool) (w : World Db)
    (statuses : HashMap ℤ ActivityEventType) (i : ℕ) (row : OperationRow)
    → update_for
        (valid_updates
          (keep (λ p. stellar_chain_is_primary cfg now pg_stores is_open w.handler p.0) statuses))
        row
      ≡ none
    → get_elem? w.store.operations i ≡ some row
    → get_elem? (write_primary cfg now pg_stores is_open w statuses).store.operations i ≡ some row
unfolding write_primary
write_primary-unlisted cfg now is_open w statuses i row none_for at =
    write_statuses-unlisted cfg now is_open w
      (keep (λ p. stellar_chain_is_primary cfg now pg_stores is_open w.handler p.0) statuses) i row
      none_for at

sync_statuses-read :
    (cfg : LocalEnv) (now : Time) (is_open : Bool) (w : World Db) (ids : List ℤ)
    (res : HashMap ℤ ActivityEventType)
    → get_operation_status_history ids w.store ≡ ok res
    → sync_statuses cfg now pg_stores is_open ids w ≡ write_primary cfg now pg_stores is_open w res
unfolding sync_statuses
sync_statuses-read cfg now is_open w ids res h = ground arith

-- With unique factory ids, the status sync over the operations that the store lists as unfinished
-- never writes the row of an operation that is not open, upcoming or in predeposit, or is not
-- published: what is finished, canceled, closed or paused stays so, whatever events the worker has
-- stored, a resumption included.
pub sync_statuses-final :
    (cfg : LocalEnv) (now : Time) (is_open : Bool) (w : World Db) (ids : List ℤ) (i : ℕ)
    (row : OperationRow) (fop : ℤ)
    → UniqueFops w.store.operations
    → get_unfinished_operations w.store ≡ ok ids
    → get_elem? w.store.operations i ≡ some row
    → row.operation.factory_op_id ≡ some fop
    → is_unfinished row.operation.funding_status && row.published ≡ false
    → get_elem? (sync_statuses cfg now pg_stores is_open ids w).store.operations i ≡ some row
unfolding get_unfinished_operations
sync_statuses-final cfg now is_open w ids i row fop unique listed at mine final =
    let others : All (λ id. id ≢ fop) ids = subst (All (λ id. id ≢ fop)) (cc listed) (
      fop_ids-All (λ id. id ≢ fop) (λ r. is_unfinished r.operation.funding_status && r.published)
        w.store.operations
        (λ j r id e q f g.
          let same = unique.same_row i j row r fop at e mine (f ∙ ap some g) in
          absurd (
            true_not_false (
              sym q
              ∙ ap (λ (r : OperationRow). is_unfinished r.operation.funding_status && r.published)
                  (sym same)
              ∙ final)))) in
    let (res, history, highest) = get_operation_status_history-Highest ids w.store in
    let no_entry : get fop res ≡ none =
      Highest-none fop (status_rows ids w.store) (get fop res)
        (status_rows-none fop ids w.store.activity others) (highest fop) in
    subst (λ (x : World Db). get_elem? x.store.operations i ≡ some row)
      (sym (sync_statuses-read cfg now is_open w ids res history))
      (write_primary-unlisted cfg now is_open w res i row
        (rw mine (
          get-valid_updates-none fop _ (
            get-keep-none fop
              (λ p. stellar_chain_is_primary cfg now pg_stores is_open w.handler p.0) res
              no_entry)))
        at)
