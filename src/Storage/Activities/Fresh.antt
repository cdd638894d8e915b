-- ===== src/Storage/Activities/Fresh.antt =====
-- A batch of new rows of known operations is stored.
use mathlib.Core.List.{append_assoc, append-nil}
use lend_worker_stellar.Base.{
  Text, true, false, Bool-cases, List, [], ◌∷◌, ◌++◌, All, Any, ok, Result-cases, ◌⊎◌, inl, inr,
  ◌≡◌, ◌≢◌, sym, ap, ◌∙◌, arith,
}
use lend_worker_stellar.Base.Strings.Search.{text_eq_iff}
use lend_worker_stellar.Domain.Activity.{Activity}
use lend_worker_stellar.Storage.Tables.{
  Db, OperationRow, is_stored_type, has_hash, has_operation, insert_row, insert_rows,
}
use lend_worker_stellar.Storage.Activities.{insert_many}
use lend_worker_stellar.Storage.Activities.Uniqueness.{IsUnique}

-- The rows have types that the column takes, operations that are there, and hashes that differ.
pub record IsStorable (ops : List OperationRow) (rows : List Activity) : Type 0 where
  pub known :
      All (λ a. (has_operation ops a.op_id ≡ true) × (is_stored_type a.event_type ≡ true)) rows
  pub distinct : IsUnique rows

-- None of the rows is stored.
abbrev pub IsFresh : List Activity → List Activity → Type 0
IsFresh stored rows = All (λ a. has_hash stored a.event_hash ≡ false) rows

has_hash-last :
    (stored : List Activity) (a : Activity) (h : Text)
    → a.event_hash ≢ h
    → has_hash stored h ≡ false
    → has_hash (stored ++ a ∷ []) h ≡ false
has_hash-last [] a h ne e = ground (arith, text_eq_iff a.event_hash h)
has_hash-last (r ∷ stored) a h ne e = ground (arith, has_hash-last stored a h ne)

IsFresh-last :
    (stored : List Activity) (a : Activity) (rows : List Activity)
    → All (λ b. a.event_hash ≢ b.event_hash) rows
    → IsFresh stored rows
    → IsFresh (stored ++ a ∷ []) rows
IsFresh-last stored a [] n f = tt
IsFresh-last stored a (b ∷ rows) n f =
    (has_hash-last stored a b.event_hash n.0 f.0, IsFresh-last stored a rows n.1 f.1)

insert_row-fresh :
    (ops : List OperationRow) (stored : List Activity) (a : Activity)
    → has_operation ops a.op_id ≡ true
    → is_stored_type a.event_type ≡ true
    → has_hash stored a.event_hash ≡ false
    → insert_row ops stored a ≡ ok (stored ++ a ∷ [])
unfolding insert_row
insert_row-fresh ops stored a known typed fresh = ground arith

insert_rows-fresh :
    (ops : List OperationRow) (stored rows : List Activity)
    → IsStorable ops rows
    → IsFresh stored rows
    → insert_rows ops stored rows ≡ ok (stored ++ rows)
unfolding insert_rows
insert_rows-fresh ops stored [] s f = ap (λ l. ok l) (sym (append-nil stored))
insert_rows-fresh ops stored (a ∷ rows) s f =
    rw (insert_row-fresh ops stored a s.known.0.0 s.known.0.1 f.0) (
      insert_rows-fresh ops (stored ++ a ∷ []) rows
        (record { known = s.known.1; distinct = s.distinct.1 })
        (IsFresh-last stored a rows s.distinct.0 f.1)
      ∙ ap (λ l. ok l) (append_assoc stored (a ∷ []) rows))

pub insert_many-fresh :
    (rows : List Activity) (db : Db)
    → IsStorable db.operations rows
    → IsFresh db.activity rows
    → insert_many rows db ≡ ok (record db { activity = db.activity ++ rows })
unfolding insert_many
insert_many-fresh rows db s f = rw (insert_rows-fresh db.operations db.activity rows s f)

-- Some row's hash is stored already.
abbrev pub IsRepeated : List Activity → List Activity → Type 0
IsRepeated stored rows = Any (λ a. has_hash stored a.event_hash ≡ true) rows

IsFresh-or_IsRepeated : (stored rows : List Activity) → IsFresh stored rows ⊎ IsRepeated stored rows
IsFresh-or_IsRepeated stored [] = inl tt
IsFresh-or_IsRepeated stored (a ∷ rows) = elim (Bool-cases (has_hash stored a.event_hash)) [
  | inl e ↦ inr (inl e)
  | inr e ↦ elim (IsFresh-or_IsRepeated stored rows) [ inl f ↦ inl (e, f) | inr r ↦ inr (inr r) ]
]

pub insert_many-or_IsRepeated :
    (rows : List Activity) (db : Db)
    → IsStorable db.operations rows
    → IsRepeated db.activity rows
      ⊎ (insert_many rows db ≡ ok (record db { activity = db.activity ++ rows }))
insert_many-or_IsRepeated rows db k = elim (IsFresh-or_IsRepeated db.activity rows) [
  | inl fresh ↦ inr (insert_many-fresh rows db k fresh)
  | inr repeated ↦ inl repeated
]

-- An insertion leaves the other tables alone.
pub insert_many-keeps :
    (l : List Activity) (db db' : Db)
    → insert_many l db ≡ ok db'
    → (db'.operations ≡ db.operations) × (db'.fiat_holdings ≡ db.fiat_holdings)
unfolding insert_many
insert_many-keeps l db db' h = elim (Result-cases (insert_rows db.operations db.activity l)) [
  | inr (m, e) ↦ cc (rw e at h)
  | inl (rows, e) ↦ let h' = rw e at h in (ground arith, ground arith)
]
