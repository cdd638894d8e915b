-- ===== src/Chain/LogHandlers/Storable.antt =====
-- The rows of an event can be stored: their operation exists, and their type is a column value.
use mathlib.Core.Path.{subst}
use mathlib.Core.List.{append_cancel_left}
use lend_worker_stellar.Base.{
  ℕ, ◌==◌, ==_iff, ℤ, Text, lit, Bool, true, false, Bool-cases, ◌||◌, if◌then◌else◌, ◌≡◌, ◌≢◌, refl,
  ap, inl, inr, get, int_key, Option, none, some, Option-cases, List, [], ◌∷◌, ◌++◌, keep,
  get_elem?, Fields, Result, ok, err, result_or, arith,
}
use lend_worker_stellar.Config.Types.{Uuid, nil_uuid, OpMapping, ContractEvent, ObservableContract}
use lend_worker_stellar.Config.Env.{LocalEnv, AppEnv}
use lend_worker_stellar.Domain.Operation.{Time}
use lend_worker_stellar.Domain.Activity.{Activity, ActivityEventType}
use lend_worker_stellar.Domain.Build.{
  as_i32, op_uuid, with_suffix, with_op, one_activity, simple_lifecycle, build_activity,
}
use lend_worker_stellar.Storage.Tables.{Db, OperationRow, is_stored_type, has_operation}
use lend_worker_stellar.Storage.Operations.{has_fop, get_op_id_from_fop_id}
use lend_worker_stellar.Storage.Activities.{insert_many}
use lend_worker_stellar.Storage.Activities.Fresh.{IsStorable, IsFresh, insert_many-fresh}
use lend_worker_stellar.Chain.EventSource.Raw.{RawSorobanEvent}
use lend_worker_stellar.Chain.LogHandlers.{
  event_key, ignored, created, transfer_rows, handle_decoded, handle_event, decode_event,
}

-- The rows, if there are any, can be stored.
abbrev pub CanStore : List OperationRow → Option (List Activity) → Type 0
CanStore ops none = Unit
CanStore ops (some rows) = IsStorable ops rows

-- Every id of the mapping is that of a stored operation.
abbrev pub MapsTo : List OperationRow → OpMapping → Type 0
MapsTo ops mapping = (fop : ℤ) (id : Uuid) → get fop mapping ≡ some id → has_operation ops id ≡ true

CanStore-unless :
    (ops : List OperationRow) (b : Bool) (rows : Option (List Activity))
    → (b ≡ false → CanStore ops rows)
    → CanStore ops (if b then none else rows)
CanStore-unless ops true rows h = tt
CanStore-unless ops false rows h = h refl

single :
    (ops : List OperationRow) (a : Activity)
    → has_operation ops a.op_id ≡ true
    → is_stored_type a.event_type ≡ true
    → IsStorable ops (a ∷ [])
single ops a known typed = record { known = ((known, typed), tt); distinct = (tt, tt) }

unless-single :
    (ops : List OperationRow) (b : Bool) (a : Activity)
    → (b ≡ false → has_operation ops a.op_id ≡ true)
    → is_stored_type a.event_type ≡ true
    → CanStore ops (if b then none else some (a ∷ []))
unless-single ops b a known typed =
    CanStore-unless ops b (some (a ∷ [])) (λ e. single ops a (known e) typed)

module _ (ops : List OperationRow) (mapping : OpMapping) (maps : MapsTo ops mapping) where
  one_activity-CanStore :
      (t : ActivityEventType) (suffix key : Text) (block : ℤ) (ts : Time) (id : Uuid) (op : ℕ)
      (user : Option Text) (rest : Fields)
      → has_operation ops id ≡ true
      → is_stored_type t ≡ true
      → CanStore ops (one_activity t suffix key block ts id op user rest)
  unfolding one_activity
  one_activity-CanStore t suffix key block ts id op user rest known typed = single ops _ known typed

  with_op-CanStore :
      (o : Option Uuid) (t : ActivityEventType) (suffix key : Text) (block : ℤ) (ts : Time) (op : ℕ)
      (user : Option Text) (rest : Fields)
      → ((id : Uuid) → o ≡ some id → has_operation ops id ≡ true)
      → is_stored_type t ≡ true
      → CanStore ops (with_op o (λ id. one_activity t suffix key block ts id op user rest))
  with_op-CanStore none t suffix key block ts op user rest known typed = tt
  with_op-CanStore (some id) t suffix key block ts op user rest known typed =
      one_activity-CanStore t suffix key block ts id op user rest (known id refl) typed

  build_activity-CanStore :
      (env : AppEnv) (event : ContractEvent) (key : Text) (block : ℤ) (ts : Time)
      → CanStore ops (build_activity env mapping event key block ts)
  unfolding build_activity simple_lifecycle op_uuid
  build_activity-CanStore env (ContractEvent.op_created a op n) key block ts = tt
  build_activity-CanStore env (ContractEvent.op_lend_transfered a b n) key block ts = tt
  build_activity-CanStore env event key block ts =
      with_op-CanStore _ _ _ _ _ _ _ _ _ (λ id e. maps _ id e) refl

-- What the store looks up is the nil id or a stored operation's.
abbrev pub LooksUp : List OperationRow → (ℤ → Result Uuid) → Type 0
LooksUp ops lookup =
    (fop : ℤ) (id : Uuid)
    → lookup fop ≡ ok id
    → (id == nil_uuid) ≡ false
    → has_operation ops id ≡ true

keep-has_operation :
    (p : OperationRow → Bool) (ops : List OperationRow) {r : OperationRow} {l : List OperationRow}
    → keep p ops ≡ r ∷ l
    → has_operation ops r.operation.id ≡ true
keep-has_operation p [] h = cc
keep-has_operation p (o ∷ ops) {r} {l} h = elim (Bool-cases (p o)) [
  | inl passed ↦
      let q : o ≡ r = cc (rw passed at h) in
      let self : (o.operation.id == r.operation.id) ≡ true =
        (==_iff o.operation.id r.operation.id).1 (ap (λ (x : OperationRow). x.operation.id) q) in
      rw self
  | inr failed ↦ let later = keep-has_operation p ops (rw failed at h) in ground (arith, later)
]

found :
    (fop : ℤ) (db : Db) (l : List OperationRow) (id : Uuid)
    → keep (has_fop fop) db.operations ≡ l
    → get_op_id_from_fop_id fop db ≡ ok id
    → (id == nil_uuid) ≡ false
    → has_operation db.operations id ≡ true
unfolding get_op_id_from_fop_id
found fop db [] id e h n = ground arith
found fop db (r ∷ l) id e h n =
    let q : r.operation.id ≡ id = cc (rw (get_op_id_from_fop_id, e) at h) in
    subst (λ x. has_operation db.operations x ≡ true) q
      (keep-has_operation (has_fop fop) db.operations e)

pub get_op_id_from_fop_id-LooksUp :
    (db : Db) → LooksUp db.operations (λ fop. get_op_id_from_fop_id fop db)
get_op_id_from_fop_id-LooksUp db fop id h n =
    found fop db (keep (has_fop fop) db.operations) id refl h n

hash-ne : (key u v : Text) → u ≢ v → with_suffix key u ≢ with_suffix key v
unfolding with_suffix lit
hash-ne key u v ne e =
    let e' : b'#' ∷ u ≡ b'#' ∷ v = append_cancel_left key (b'#' ∷ u) (b'#' ∷ v) e in ne (cc e')

place-ne :
    (s t : Text) (i a b : ℕ) → get_elem? s i ≡ some a → get_elem? t i ≡ some b → a ≢ b → s ≢ t
place-ne s t i a b p q ne e = ne (cc (p, q, ap (λ (x : Text). get_elem? x i) e))

suffixes-ne : lit "lend_oplend_transferred_from" ≢ lit "lend_oplend_transferred_to"
unfolding lit
suffixes-ne = place-ne _ _ 24 b'f' b't' refl refl (λ e. absurd (omega arith))

module _ (ops : List OperationRow) (mapping : OpMapping) (maps : MapsTo ops mapping)
    (lookup : ℤ → Result Uuid) (looks : LooksUp ops lookup) where
  looked_up-known :
      (fop : ℤ) (r : Result Uuid)
      → lookup fop ≡ r
      → (result_or nil_uuid r == nil_uuid) ≡ false
      → has_operation ops (result_or nil_uuid r) ≡ true
  looked_up-known fop (ok id) e n = looks fop id e n
  looked_up-known fop (err m) e n = cc

  created-CanStore :
      (raw : RawSorobanEvent) (token : Text) (op : ℕ) (n : ℤ)
      → CanStore ops (created lookup mapping raw token op n)
  unfolding created
  created-CanStore raw token op n = elim (Option-cases (get (as_i32 op) mapping)) [
    | inl e ↦ rw e (unless-single ops _ _ (looked_up-known (as_i32 op) _ refl) refl)
    | inr (id, e) ↦ rw e (unless-single ops (id == nil_uuid) _ (λ n. maps (as_i32 op) id e) refl)
  ]

  transfer_rows-CanStore :
      (raw : RawSorobanEvent) (op : Option Uuid) (fop : Option ℤ) (from to : Text) (n : ℤ)
      → ((id : Uuid) → op ≡ some id → has_operation ops id ≡ true)
      → CanStore ops (transfer_rows raw op fop from to n)
  unfolding transfer_rows
  transfer_rows-CanStore raw (some id) (some fop) from to n known = record {
    known = ((known id refl, refl), ((known id refl, refl), tt));
    distinct = ((hash-ne (event_key raw) _ _ suffixes-ne, tt), (tt, tt));
  }
  transfer_rows-CanStore raw (some id) none from to n known = tt
  transfer_rows-CanStore raw none fop from to n known = tt

  handle_decoded-CanStore :
      (cfg : LocalEnv) (contract : ObservableContract) (raw : RawSorobanEvent)
      (event : ContractEvent)
      → ((id : Uuid) → contract.op_id ≡ some id → has_operation ops id ≡ true)
      → CanStore ops (handle_decoded cfg lookup contract mapping raw event)
  unfolding handle_decoded
  handle_decoded-CanStore cfg contract raw (ContractEvent.op_created token op n) known =
      created-CanStore raw token op n
  handle_decoded-CanStore cfg contract raw (ContractEvent.op_lend_transfered a b n) known =
      CanStore-unless ops (ignored cfg a || ignored cfg b) _
        (λ e. transfer_rows-CanStore raw contract.op_id contract.fop_id a b n known)
  handle_decoded-CanStore cfg contract raw event known =
      build_activity-CanStore ops mapping maps cfg.env event (event_key raw) raw.ledger_seq
        raw.ledger_closed_at

  pub handle_event-CanStore :
      (cfg : LocalEnv) (contract : ObservableContract) (raw : RawSorobanEvent)
      → ((id : Uuid) → contract.op_id ≡ some id → has_operation ops id ≡ true)
      → CanStore ops (handle_event cfg lookup contract mapping raw)
  unfolding handle_event
  handle_event-CanStore cfg contract raw known =
      elim (decode_event raw)
        as (λ r. CanStore ops (elim r [
          | err _ ↦ none
          | ok event ↦ handle_decoded cfg lookup contract mapping raw event
        ])) [ err _ ↦ tt | ok event ↦ handle_decoded-CanStore cfg contract raw event known ]

-- No event is lost between the handler and the table: if the mapping and the contract name stored
-- operations, and none of the rows of an event is stored, then the rows that the handler makes of
-- the event, with the store's own look-up, are all stored.
pub handle_event-stored :
    (cfg : LocalEnv) (db : Db) (contract : ObservableContract) (mapping : OpMapping)
    (raw : RawSorobanEvent) (rows : List Activity)
    → MapsTo db.operations mapping
    → ((id : Uuid) → contract.op_id ≡ some id → has_operation db.operations id ≡ true)
    → handle_event cfg (λ fop. get_op_id_from_fop_id fop db) contract mapping raw ≡ some rows
    → IsFresh db.activity rows
    → insert_many rows db ≡ ok (record db { activity = db.activity ++ rows })
handle_event-stored cfg db contract mapping raw rows maps known made fresh =
    insert_many-fresh rows db
      (subst (CanStore db.operations) made (
        handle_event-CanStore db.operations mapping maps (λ fop. get_op_id_from_fop_id fop db)
          (get_op_id_from_fop_id-LooksUp db) cfg contract raw known))
      fresh
