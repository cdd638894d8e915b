-- ===== src/Storage/Activities/Uniqueness.antt =====
-- Batches of rows are stored whole or not at all, and no event hash is stored twice.
use mathlib.Core.List.{append_assoc, append-nil}
use lend_worker_stellar.Base.{
  Text, true, false, List, [], ◌∷◌, ◌++◌, All, All-append, Any, ok, err, Result-cases, ◌≡◌, ◌≢◌,
  sym, ap, ◌∙◌, inl, inr, arith,
}
use lend_worker_stellar.Base.Strings.Search.{text_eq_iff, text_eq_refl}
use mathlib.Core.Path.{subst}
use lend_worker_stellar.Domain.Activity.{Activity}
use lend_worker_stellar.Storage.Tables.{
  Db, OperationRow, is_stored_type, has_hash, has_operation, insert_row, insert_rows,
}
use lend_worker_stellar.Storage.Activities.{insert_many}

-- No two rows have the same event hash.
abbrev pub IsUnique : List Activity → Type 0
IsUnique [] = Unit
IsUnique (a ∷ l) = All (λ b. a.event_hash ≢ b.event_hash) l × IsUnique l

-- Hashes are unique, and each row belongs to a stored operation and has a type that the column takes.
pub record IsValid (db : Db) : Type 0 where
  pub unique : IsUnique db.activity
  pub known :
      All
        (λ a. (has_operation db.operations a.op_id ≡ true) × (is_stored_type a.event_type ≡ true))
        db.activity

has_hash-none :
    (rows : List Activity) (h : Text) → has_hash rows h ≡ false → All (λ r. r.event_hash ≢ h) rows
has_hash-none [] h e = tt
has_hash-none (r ∷ rows) h e = ground (arith, text_eq_iff r.event_hash h, has_hash-none rows h)

IsUnique-append :
    (rows : List Activity) (a : Activity)
    → IsUnique rows
    → All (λ r. r.event_hash ≢ a.event_hash) rows
    → IsUnique (rows ++ a ∷ [])
IsUnique-append [] a u n = (tt, tt)
IsUnique-append (r ∷ rows) a u n = (
  All-append (λ b. r.event_hash ≢ b.event_hash) rows (a ∷ []) u.0 (n.0, tt),
  IsUnique-append rows a u.1 n.1,
)

insert_row-ok :
    (ops : List OperationRow) (rows rows' : List Activity) (a : Activity)
    → insert_row ops rows a ≡ ok rows'
    → (rows' ≡ rows ++ a ∷ [])
      × (has_hash rows a.event_hash ≡ false)
      × (has_operation ops a.op_id ≡ true)
      × (is_stored_type a.event_type ≡ true)
unfolding insert_row
insert_row-ok ops rows rows' a h = ground arith

pub has_hash-append :
    (rows more : List Activity) (h : Text)
    → has_hash rows h ≡ true
    → has_hash (rows ++ more) h ≡ true
has_hash-append [] more h e = cc
has_hash-append (r ∷ rows) more h e = ground (arith, has_hash-append rows more h)

Any-kept :
    (rows more l : List Activity)
    → Any (λ a. has_hash rows a.event_hash ≡ true) l
    → Any (λ a. has_hash (rows ++ more) a.event_hash ≡ true) l
Any-kept rows more [] h = h
Any-kept rows more (a ∷ l) (inl h) = inl (has_hash-append rows more a.event_hash h)
Any-kept rows more (a ∷ l) (inr h) = inr (Any-kept rows more l h)

module _ (ops : List OperationRow) where
  insert_rows-ok :
      (rows l rows' : List Activity)
      → insert_rows ops rows l ≡ ok rows'
      → IsUnique rows
      → All (λ a. (has_operation ops a.op_id ≡ true) × (is_stored_type a.event_type ≡ true)) rows
      → (rows' ≡ rows ++ l)
        × IsUnique rows'
        × All (λ a. (has_operation ops a.op_id ≡ true) × (is_stored_type a.event_type ≡ true)) rows'
  unfolding insert_rows
  insert_rows-ok rows [] rows' h u k =
      let same : rows ≡ rows' = cc in
      (sym same ∙ sym (append-nil rows), subst IsUnique same u, subst (All _) same k)
  insert_rows-ok rows (a ∷ l) rows' h u k = elim (Result-cases (insert_row ops rows a)) [
    | inr (m, e) ↦ cc (rw e at h)
    | inl (next, e) ↦
        let (shape, fresh, op, stored) = insert_row-ok ops rows next a e in
        let (whole, unique, known) =
          insert_rows-ok next l rows' (rw e at h)
            (rw shape (IsUnique-append rows a u (has_hash-none rows a.event_hash fresh)))
            (rw shape (All-append _ rows (a ∷ []) k ((op, stored), tt))) in
        (whole ∙ ap (λ t. t ++ l) shape ∙ append_assoc rows (a ∷ []) l, unique, known)
  ]

  insert_rows-duplicate :
      (rows l : List Activity)
      → Any (λ a. has_hash rows a.event_hash ≡ true) l
      → (e : Text) × (insert_rows ops rows l ≡ err e)
  unfolding insert_rows
  insert_rows-duplicate rows [] h = absurd h
  insert_rows-duplicate rows (a ∷ l) h = elim (Result-cases (insert_row ops rows a)) [
    | inr (m, e) ↦ (m, rw e)
    | inl (next, e) ↦
        let (shape, fresh, _, _) = insert_row-ok ops rows next a e in
        elim h [
          | inl stored ↦ cc
          | inr later ↦
              let (m, q) =
                insert_rows-duplicate next l (rw shape (Any-kept rows (a ∷ []) l later)) in
              (m, rw e q)
        ]
  ]

-- A batch that is stored is stored whole: its rows stand behind the stored ones in their order, no
-- other table changes, and hashes stay unique and rows valid.
pub insert_many-IsValid :
    (l : List Activity) (db db' : Db)
    → insert_many l db ≡ ok db'
    → IsValid db
    → IsValid db' × (db' ≡ record db { activity = db.activity ++ l })
unfolding insert_many
insert_many-IsValid l db db' h valid =
    elim (Result-cases (insert_rows db.operations db.activity l)) [
      | inr (m, e) ↦ cc (rw e at h)
      | inl (rows, e) ↦
          let (whole, unique, known) =
            insert_rows-ok db.operations db.activity l rows e valid.unique valid.known in
          let q : record db { activity = rows } ≡ db' = cc (rw e at h) in
          (
            subst IsValid q (record { unique = unique; known = known }),
            sym q ∙ ap (λ (t : List Activity). record db { activity = t }) whole,
          )
    ]

pub last-hash :
    (rows : List Activity) (a : Activity) (l : List Activity)
    → has_hash (rows ++ (a ∷ l)) a.event_hash ≡ true
last-hash [] a l = rw (text_eq_refl a.event_hash)
last-hash (r ∷ rows) a l = ground (arith, last-hash rows a l)

-- A batch is refused as a whole as soon as the hash of one of its rows is stored already.
pub insert_many-duplicate :
    (l : List Activity) (db : Db)
    → Any (λ a. has_hash db.activity a.event_hash ≡ true) l
    → (e : Text) × (insert_many l db ≡ err e)
unfolding insert_many
insert_many-duplicate l db h =
    let (m, e) = insert_rows-duplicate db.operations db.activity l h in (m, rw e)

-- Reading an event again stores nothing: a batch that is not empty is refused when it comes again.
insert_many-once :
    (a : Activity) (l : List Activity) (db db' : Db)
    → IsValid db
    → insert_many (a ∷ l) db ≡ ok db'
    → (e : Text) × (insert_many (a ∷ l) db' ≡ err e)
insert_many-once a l db db' valid h =
    let (_, shape) = insert_many-IsValid (a ∷ l) db db' h valid in
    insert_many-duplicate (a ∷ l) db' (inl (rw shape (last-hash db.activity a l)))
