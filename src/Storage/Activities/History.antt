-- ===== src/Storage/Activities/History.antt =====
-- The status history of an operation is its event of the highest priority.
use mathlib.Core.List.{foldl}
use lend_worker_stellar.Base.{
  ◌≤◌, ltb, ℤ, eqb_ℤ, eqb_ℤ_iff, true, false, Bool-cases, ◌&&◌, if◌then◌else◌, HashMap, get,
  get-insert, int_key, Option, none, some, List, [], ◌∷◌, All, Any, map, keep, ok, ◌≡◌, ◌≢◌, refl,
  sym, ap, inl, inr, arith,
}
use mathlib.Core.Path.{subst}
use lend_worker_stellar.Domain.Activity.{ActivityEventType, activity_event_priority}
use lend_worker_stellar.Storage.Tables.{Db}
use lend_worker_stellar.Storage.Activities.{
  raise_status, among, is_status_type, get_operation_status_history,
}

-- What one entry of the result says of the pairs that were read.
abbrev pub Highest : ℤ → List (ℤ × ActivityEventType) → Option ActivityEventType → Type 0
Highest op rows none = All (λ r. r.0 ≢ op) rows
Highest op rows (some t) =
    Any (λ r. (r.0 ≡ op) × (r.1 ≡ t)) rows
    × All (λ r. r.0 ≡ op → activity_event_priority r.1 ≤ activity_event_priority t) rows

-- The entry after one more pair.
raised : ℤ → ℤ × ActivityEventType → Option ActivityEventType → Option ActivityEventType
raised op (op', t) none = if eqb_ℤ op' op then some t else none
raised op (op', t) (some s) =
    if eqb_ℤ op' op
    then (if ltb (activity_event_priority s) (activity_event_priority t) then some t else some s)
    else some s

raised-other :
    (op op' : ℤ) (t : ActivityEventType) (o : Option ActivityEventType)
    → eqb_ℤ op' op ≡ false
    → raised op (op', t) o ≡ o
unfolding raised
raised-other op op' t none h = ground arith
raised-other op op' t (some s) h = ground arith

get-raise_status :
    (res : HashMap ℤ ActivityEventType) (op op' : ℤ) (t : ActivityEventType)
    → get op (raise_status res (op', t)) ≡ raised op (op', t) (get op res)
unfolding raise_status raised
get-raise_status res op op' t = elim (Bool-cases (eqb_ℤ op' op)) [
  | inr other ↦
      rw (raised-other op op' t (get op res) other) (ground (arith, get-insert op' op t res))
  | inl same ↦
      let q : op' ≡ op = (eqb_ℤ_iff op' op).0 same in ground (arith, q, get-insert op' op t res)
]

module _ (op : ℤ) where
  Highest-other :
      (r : ℤ × ActivityEventType) (rows : List (ℤ × ActivityEventType))
      (x : Option ActivityEventType)
      → r.0 ≢ op
      → Highest op rows x
      → Highest op (r ∷ rows) x
  Highest-other r rows none ne h = (ne, h)
  Highest-other r rows (some t) ne h = (inr h.0, ((λ e. absurd (ne e)), h.1))

  -- A pair below one that is there changes nothing.
  Highest-lower :
      (s : ActivityEventType) (r : ℤ × ActivityEventType) (rows : List (ℤ × ActivityEventType))
      (x : Option ActivityEventType)
      → activity_event_priority r.1 ≤ activity_event_priority s
      → Highest op ((op, s) ∷ rows) x
      → Highest op (r ∷ (op, s) ∷ rows) x
  Highest-lower s r rows none le h = absurd (h.0 refl)
  Highest-lower s r rows (some t) le h =
      let top = h.1.0 refl in (inr h.0, ((λ e. omega (arith, le, top)), h.1))

  Highest-swap :
      (a b : ℤ × ActivityEventType) (rows : List (ℤ × ActivityEventType))
      (x : Option ActivityEventType)
      → Highest op (a ∷ b ∷ rows) x
      → Highest op (b ∷ a ∷ rows) x
  Highest-swap a b rows none h = (h.1.0, (h.0, h.1.1))
  Highest-swap a b rows (some t) (inl p, h) = (inr (inl p), (h.1.0, (h.0, h.1.1)))
  Highest-swap a b rows (some t) (inr (inl p), h) = (inl p, (h.1.0, (h.0, h.1.1)))
  Highest-swap a b rows (some t) (inr (inr p), h) = (inr (inr p), (h.1.0, (h.0, h.1.1)))

  -- The pairs that an entry stands for, in front of those to come.
  abbrev from_entry :
      Option ActivityEventType → List (ℤ × ActivityEventType) → List (ℤ × ActivityEventType)
  from_entry none rows = rows
  from_entry (some s) rows = (op, s) ∷ rows

  raised-Highest_other :
      (op' : ℤ) (t : ActivityEventType) (o : Option ActivityEventType)
      (rows : List (ℤ × ActivityEventType)) (x : Option ActivityEventType)
      → op' ≢ op
      → Highest op (from_entry o rows) x
      → Highest op (from_entry o ((op', t) ∷ rows)) x
  raised-Highest_other op' t none rows x ne h = Highest-other (op', t) rows x ne h
  raised-Highest_other op' t (some s) rows x ne h =
      Highest-swap (op', t) (op, s) rows x (Highest-other (op', t) ((op, s) ∷ rows) x ne h)

  raised-Highest_same :
      (op' : ℤ) (t : ActivityEventType) (o : Option ActivityEventType)
      (rows : List (ℤ × ActivityEventType)) (x : Option ActivityEventType)
      → eqb_ℤ op' op ≡ true
      → Highest op (from_entry (raised op (op', t) o) rows) x
      → Highest op (from_entry o ((op, t) ∷ rows)) x
  unfolding raised
  raised-Highest_same op' t none rows x same h = rw same at h
  raised-Highest_same op' t (some s) rows x same h =
      elim (Bool-cases (ltb (activity_event_priority s) (activity_event_priority t))) [
        | inl lt ↦ Highest-lower t (op, s) rows x (ground arith) (rw (same, lt) at h)
        | inr ge ↦
            Highest-swap (op, t) (op, s) rows x
              (Highest-lower s (op, t) rows x (ground arith) (rw (same, ge) at h))
      ]

  raised-Highest :
      (r : ℤ × ActivityEventType) (o : Option ActivityEventType)
      (rows : List (ℤ × ActivityEventType)) (x : Option ActivityEventType)
      → Highest op (from_entry (raised op r o) rows) x
      → Highest op (from_entry o (r ∷ rows)) x
  raised-Highest (op', t) o rows x h = elim (Bool-cases (eqb_ℤ op' op)) [
    | inr other ↦
        let ne : op' ≢ op = λ e. absurd (ground (arith, eqb_ℤ_iff op' op, e)) in
        raised-Highest_other op' t o rows x ne (rw (raised-other op op' t o other) at h)
    | inl same ↦
        let q : op' ≡ op = (eqb_ℤ_iff op' op).0 same in
        subst (λ k. Highest op (from_entry o ((k, t) ∷ rows)) x) (sym q)
          (raised-Highest_same op' t o rows x same h)
  ]

  entry-Highest : (o : Option ActivityEventType) → Highest op (from_entry o []) o
  entry-Highest none = tt
  entry-Highest (some s) = (inl (refl, refl), ((λ e. omega arith), tt))

  foldl-Highest :
      (rows : List (ℤ × ActivityEventType)) (res : HashMap ℤ ActivityEventType)
      → Highest op (from_entry (get op res) rows) (get op (foldl raise_status res rows))
  foldl-Highest [] res = entry-Highest (get op res)
  foldl-Highest ((op', t) ∷ rows) res =
      raised-Highest (op', t) (get op res) rows
        (get op (foldl raise_status (raise_status res (op', t)) rows))
        (subst
          (λ o.
            Highest op (from_entry o rows)
              (get op (foldl raise_status (raise_status res (op', t)) rows)))
          (get-raise_status res op op' t) (foldl-Highest rows (raise_status res (op', t))))

-- The rows that the status query reads, as pairs of an operation and a type.
abbrev pub status_rows : List ℤ → Db → List (ℤ × ActivityEventType)
status_rows ids db =
    map (λ a. (a.factory_op_id, a.event_type))
      (keep (λ a. among ids a && is_status_type a.event_type) db.activity)

-- Whatever the order of the rows, an operation's entry is the type of one of its stored status
-- events, and none of them has a higher priority; an operation has no entry only if it has no such
-- event.
pub get_operation_status_history-Highest :
    (ids : List ℤ) (db : Db)
    → (res : HashMap ℤ ActivityEventType) × (get_operation_status_history ids db ≡ ok res)
      × ((op : ℤ) → Highest op (status_rows ids db) (get op res))
unfolding get_operation_status_history
get_operation_status_history-Highest ids db = (
  foldl raise_status [] (status_rows ids db),
  refl,
  λ op. foldl-Highest op (status_rows ids db) [],
)

resumed_highest :
    (t : ActivityEventType)
    → activity_event_priority ActivityEventType.op_resumed ≤ activity_event_priority t
    → t ≢ ActivityEventType.op_finished
    → t ≢ ActivityEventType.op_canceled
    → t ≡ ActivityEventType.op_resumed
unfolding activity_event_priority
resumed_highest ActivityEventType.op_resumed h f c = refl
resumed_highest ActivityEventType.op_finished h f c = absurd (f refl)
resumed_highest ActivityEventType.op_canceled h f c = absurd (c refl)
resumed_highest _ h f c = absurd (omega arith)

All-Any :
    {A : Type 0} (P Q : A → Type 0) (B : Type 0) (rows : List A)
    → ((a : A) → P a → Q a → B)
    → All P rows
    → Any Q rows
    → B
All-Any P Q B [] f h k = absurd k
All-Any P Q B (a ∷ rows) f h (inl k) = f a h.0 k
All-Any P Q B (a ∷ rows) f h (inr k) = All-Any P Q B rows f h.1 k

Highest-resumed :
    (op : ℤ) (rows : List (ℤ × ActivityEventType)) (o : Option ActivityEventType)
    → Highest op rows o
    → Any (λ r. (r.0 ≡ op) × (r.1 ≡ ActivityEventType.op_resumed)) rows
    → All
        (λ r.
          r.0 ≡ op → (r.1 ≢ ActivityEventType.op_finished) × (r.1 ≢ ActivityEventType.op_canceled))
        rows
    → o ≡ some ActivityEventType.op_resumed
Highest-resumed op rows none h some_resumed never =
    absurd (All-Any (λ r. r.0 ≢ op) _ ⊥ rows (λ r ne p. ne p.0) h some_resumed)
Highest-resumed op rows (some t) h some_resumed never =
    let high =
      All-Any _ (λ r. (r.0 ≡ op) × (r.1 ≡ ActivityEventType.op_resumed))
        (activity_event_priority ActivityEventType.op_resumed ≤ activity_event_priority t) rows
        (λ r le p. subst (λ x. activity_event_priority x ≤ activity_event_priority t) p.1 (le p.0))
        h.1 some_resumed in
    let open_end =
      All-Any _ (λ r. (r.0 ≡ op) × (r.1 ≡ t))
        ((t ≢ ActivityEventType.op_finished) × (t ≢ ActivityEventType.op_canceled)) rows
        (λ r no p.
          subst (λ x. (x ≢ ActivityEventType.op_finished) × (x ≢ ActivityEventType.op_canceled)) p.1
            (no p.0))
        never h.0 in
    ap some (resumed_highest t high open_end.0 open_end.1)

-- The priorities forget the order of events: once an operation has been resumed, and as long as it
-- is neither finished nor canceled, its entry is `op_resumed`, although it may have been paused again
-- since.
pub get_operation_status_history-resumed :
    (ids : List ℤ) (db : Db) (op : ℤ)
    → Any (λ r. (r.0 ≡ op) × (r.1 ≡ ActivityEventType.op_resumed)) (status_rows ids db)
    → All
        (λ r.
          r.0 ≡ op → (r.1 ≢ ActivityEventType.op_finished) × (r.1 ≢ ActivityEventType.op_canceled))
        (status_rows ids db)
    → (res : HashMap ℤ ActivityEventType) × (get_operation_status_history ids db ≡ ok res)
      × (get op res ≡ some ActivityEventType.op_resumed)
get_operation_status_history-resumed ids db op resumed never =
    let (res, same, highest) = get_operation_status_history-Highest ids db in
    (res, same, Highest-resumed op (status_rows ids db) (get op res) (highest op) resumed never)
