-- ===== src/Chain/LogHandlers/Hashes.antt =====
-- What every row of `handle_event` carries, and why event hashes are unique.
use lend_worker_stellar.Base.{
  ℕ, ℤ, Text, lit, text_eq, show_ℤ, Bool, true, false, ◌||◌, if◌then◌else◌, ◌≡◌, ◌≢◌, refl, sym, ap,
  ◌∙◌, HashMap, get, text_key, Option, none, some, List, [], ◌∷◌, ◌++◌, All, All-get_elem?,
  get_elem?, Fields, Result, ok, err, arith,
}
use mathlib.Core.Path.{subst}
use mathlib.Core.List.{append_assoc}
use lend_worker_stellar.Base.Strings.Numbers.{show_ℤ-injective, show_ℤ-no_hash}
use lend_worker_stellar.Config.Types.{Uuid, OpMapping, ContractEvent, ObservableContract}
use lend_worker_stellar.Config.Env.{LocalEnv, AppEnv, stellar_chain_id}
use lend_worker_stellar.Domain.Operation.{Time}
use lend_worker_stellar.Domain.Activity.{Activity, ActivityEventType}
use lend_worker_stellar.Domain.Build.{
  with_suffix, with_op, one_activity, simple_lifecycle, build_activity,
}
use lend_worker_stellar.Chain.EventSource.Raw.{RawSorobanEvent}
use lend_worker_stellar.Chain.LogHandlers.{
  event_key, ignored, created, transfer_rows, handle_decoded, handle_event, decode_event,
}

-- The event type that goes with a suffix of a hash.
abbrev suffix_types : HashMap Text ActivityEventType
suffix_types =
    (lit "lend_op_tokens_claimed", ActivityEventType.claimed_op_token)
    ∷ (lit "lend_op_predeposits_open", ActivityEventType.op_predeposits_open)
    ∷ (lit "lend_op_predeposits_closed", ActivityEventType.op_predeposits_closed)
    ∷ (lit "lend_invested", ActivityEventType.invested)
    ∷ (lit "lend_invested_fiat", ActivityEventType.invested_fiat)
    ∷ (lit "lend_refunded", ActivityEventType.refunded)
    ∷ (lit "lend_op_started", ActivityEventType.op_started)
    ∷ (lit "lend_op_finished", ActivityEventType.op_finished)
    ∷ (lit "lend_funding_withdrawn", ActivityEventType.funding_withdrawn)
    ∷ (lit "lend_op_canceled", ActivityEventType.op_canceled)
    ∷ (lit "lend_op_paused", ActivityEventType.op_paused)
    ∷ (lit "lend_op_resumed", ActivityEventType.op_resumed)
    ∷ (lit "lend_rewards_claimed", ActivityEventType.claimed_rewards)
    ∷ (lit "lend_rewards_distributed", ActivityEventType.rewards_distributed)
    ∷ (lit "lend_op_created", ActivityEventType.op_created)
    ∷ (lit "lend_oplend_transferred_from", ActivityEventType.op_lend_transfered)
    ∷ (lit "lend_oplend_transferred_to", ActivityEventType.op_lend_transfered)
    ∷ []

abbrev pub type_of : Text → Option ActivityEventType
type_of suffix = get suffix suffix_types

-- The row's hash is the event's key with the suffix of the row's type, and the row repeats the event's
-- ledger and time.
pub record Describes (key : Text) (block : ℤ) (ts : Time) (a : Activity) : Type 0 where
  pub suffix : Text
  pub hash_eq : a.event_hash ≡ with_suffix key suffix
  pub type_eq : type_of suffix ≡ some a.event_type
  pub block_eq : a.block_number ≡ block
  pub time_eq : a.created_at ≡ ts
  pub chain_eq : a.chain_id ≡ stellar_chain_id

abbrev pub EveryRow : (Activity → Type 0) → Option (List Activity) → Type 0
EveryRow P none = Unit
EveryRow P (some rows) = All P rows

module _ (key : Text) (block : ℤ) (ts : Time) where
  one_activity-Describes :
      (t : ActivityEventType) (suffix : Text) (id : Uuid) (op : ℕ) (user : Option Text)
      (rest : Fields)
      → type_of suffix ≡ some t
      → EveryRow (Describes key block ts) (one_activity t suffix key block ts id op user rest)
  unfolding one_activity
  one_activity-Describes t suffix id op user rest h = (
    record {
      suffix = suffix;
      hash_eq = refl;
      type_eq = h;
      block_eq = refl;
      time_eq = refl;
      chain_eq = refl;
    },
    tt,
  )

  with_op-Describes :
      (o : Option Uuid) (t : ActivityEventType) (suffix : Text) (op : ℕ) (user : Option Text)
      (rest : Fields)
      → type_of suffix ≡ some t
      → EveryRow
          (Describes key block ts)
          (with_op o (λ id. one_activity t suffix key block ts id op user rest))
  with_op-Describes none t suffix op user rest h = tt
  with_op-Describes (some id) t suffix op user rest h =
      one_activity-Describes t suffix id op user rest h

  build_activity-Describes :
      (env : AppEnv) (ops : OpMapping) (event : ContractEvent)
      → EveryRow (Describes key block ts) (build_activity env ops event key block ts)
  unfolding build_activity simple_lifecycle get text_eq lit
  build_activity-Describes env ops (ContractEvent.op_created a op n) = tt
  build_activity-Describes env ops (ContractEvent.op_lend_transfered a b n) = tt
  build_activity-Describes env ops event = with_op-Describes _ _ _ _ _ _ refl

EveryRow-if :
    (P : Activity → Type 0) (b : Bool) (rows : Option (List Activity))
    → EveryRow P rows
    → EveryRow P (if b then none else rows)
EveryRow-if P true rows h = tt
EveryRow-if P false rows h = h

EveryRow-unless :
    (P : Activity → Type 0) (b : Bool) (a : Activity)
    → P a
    → EveryRow P (if b then none else some (a ∷ []))
EveryRow-unless P b a h = EveryRow-if P b (some (a ∷ [])) (h, tt)

created-Describes :
    (store : ℤ → Result Uuid) (ops : OpMapping) (raw : RawSorobanEvent) (token : Text) (op : ℕ)
    (n : ℤ)
    → EveryRow
        (Describes (event_key raw) raw.ledger_seq raw.ledger_closed_at)
        (created store ops raw token op n)
unfolding created get text_eq lit
created-Describes store ops raw token op n =
    EveryRow-unless (Describes (event_key raw) raw.ledger_seq raw.ledger_closed_at) _ _ (record {
      suffix = _;
      hash_eq = refl;
      type_eq = refl;
      block_eq = refl;
      time_eq = refl;
      chain_eq = refl;
    })

transfer_rows-Describes :
    (raw : RawSorobanEvent) (id : Option Uuid) (fop : Option ℤ) (from to : Text) (n : ℤ)
    → EveryRow
        (Describes (event_key raw) raw.ledger_seq raw.ledger_closed_at)
        (transfer_rows raw id fop from to n)
unfolding transfer_rows get text_eq lit
transfer_rows-Describes raw (some id) (some fop) from to n = (
  record {
    suffix = _;
    hash_eq = refl;
    type_eq = refl;
    block_eq = refl;
    time_eq = refl;
    chain_eq = refl;
  },
  (
    record {
      suffix = _;
      hash_eq = refl;
      type_eq = refl;
      block_eq = refl;
      time_eq = refl;
      chain_eq = refl;
    },
    tt,
  ),
)
transfer_rows-Describes raw (some id) none from to n = tt
transfer_rows-Describes raw none fop from to n = tt

-- Texts in front of the same first `#` are equal, and so is what stands behind it.
hash-splits :
    (s t u v : Text)
    → All (λ c. c ≢ b'#') s
    → All (λ c. c ≢ b'#') t
    → s ++ (b'#' ∷ u) ≡ t ++ (b'#' ∷ v)
    → (s ≡ t) × (u ≡ v)
hash-splits [] [] u v h k e = (refl, cc)
hash-splits [] (b ∷ t) u v h k e = ground arith
hash-splits (a ∷ s) [] u v h k e = ground arith
hash-splits (a ∷ s) (b ∷ t) u v h k e = ground (arith, hash-splits s t u v h.1 k.1)

handle_decoded-Describes :
    (cfg : LocalEnv) (store : ℤ → Result Uuid) (contract : ObservableContract) (ops : OpMapping)
    (raw : RawSorobanEvent) (event : ContractEvent)
    → EveryRow
        (Describes (event_key raw) raw.ledger_seq raw.ledger_closed_at)
        (handle_decoded cfg store contract ops raw event)
unfolding handle_decoded
handle_decoded-Describes cfg store contract ops raw (ContractEvent.op_created token op n) =
    created-Describes store ops raw token op n
handle_decoded-Describes cfg store contract ops raw (ContractEvent.op_lend_transfered a b n) =
    EveryRow-if _ (ignored cfg a || ignored cfg b) _
      (transfer_rows-Describes raw contract.op_id contract.fop_id a b n)
handle_decoded-Describes cfg store contract ops raw event =
    build_activity-Describes (event_key raw) raw.ledger_seq raw.ledger_closed_at cfg.env ops event

-- Every row that the handler makes of an event names the event in its hash, and carries the event's
-- ledger and closing time and the chain id of Stellar.
pub handle_event-Describes :
    (cfg : LocalEnv) (store : ℤ → Result Uuid) (contract : ObservableContract) (ops : OpMapping)
    (raw : RawSorobanEvent)
    → EveryRow
        (Describes (event_key raw) raw.ledger_seq raw.ledger_closed_at)
        (handle_event cfg store contract ops raw)
unfolding handle_event
handle_event-Describes cfg store contract ops raw =
    elim (decode_event raw)
      as (λ r.
        EveryRow (Describes (event_key raw) raw.ledger_seq raw.ledger_closed_at)
          (elim r [ err _ ↦ none | ok event ↦ handle_decoded cfg store contract ops raw event ])) [
            | err _ ↦ tt
            | ok event ↦ handle_decoded-Describes cfg store contract ops raw event
          ]

event_key_parts :
    (r : RawSorobanEvent) (u : Text)
    → with_suffix (event_key r) u ≡ r.tx_hash ++ (b'#' ∷ (show_ℤ r.event_index ++ (b'#' ∷ u)))
unfolding with_suffix event_key lit
event_key_parts r u = append_assoc r.tx_hash (b'#' ∷ show_ℤ r.event_index) (b'#' ∷ u)

-- Two hashes agree only if the transaction, the index and the suffix agree.
event_key_unique :
    (r s : RawSorobanEvent) (u v : Text)
    → All (λ c. c ≢ b'#') r.tx_hash
    → All (λ c. c ≢ b'#') s.tx_hash
    → with_suffix (event_key r) u ≡ with_suffix (event_key s) v
    → (r.tx_hash ≡ s.tx_hash) × (r.event_index ≡ s.event_index) × (u ≡ v)
event_key_unique r s u v h k e =
    let (tx, rest) =
      hash-splits r.tx_hash s.tx_hash (show_ℤ r.event_index ++ (b'#' ∷ u))
        (show_ℤ s.event_index ++ (b'#' ∷ v)) h k
        (sym (event_key_parts r u) ∙ e ∙ event_key_parts s v) in
    let (index, suffix) =
      hash-splits (show_ℤ r.event_index) (show_ℤ s.event_index) u v (show_ℤ-no_hash r.event_index)
        (show_ℤ-no_hash s.event_index) rest in
    (tx, show_ℤ-injective r.event_index s.event_index index, suffix)

-- Whatever contracts, mappings and stores two events were handled with, if a row of one and a row of the
-- other have the same hash, then the events have the same transaction hash and the same index, and the
-- rows are of the same type. A transaction hash is hexadecimal, so it holds no `#`. Two events of a
-- transaction to which a source gives the same index are not told apart.
pub handle_event-hash_unique :
    (cfg : LocalEnv) (store store' : ℤ → Result Uuid) (c c' : ObservableContract)
    (ops ops' : OpMapping) (r s : RawSorobanEvent) (rows rows' : List Activity) (i j : ℕ)
    (a b : Activity)
    → All (λ x. x ≢ b'#') r.tx_hash
    → All (λ x. x ≢ b'#') s.tx_hash
    → handle_event cfg store c ops r ≡ some rows
    → handle_event cfg store' c' ops' s ≡ some rows'
    → get_elem? rows i ≡ some a
    → get_elem? rows' j ≡ some b
    → a.event_hash ≡ b.event_hash
    → (r.tx_hash ≡ s.tx_hash) × (r.event_index ≡ s.event_index) × (a.event_type ≡ b.event_type)
handle_event-hash_unique cfg store store' c c' ops ops' r s rows rows' i j a b h k er es ea eb e =
    let da =
      All-get_elem? _ rows i a (subst (EveryRow _) er (handle_event-Describes cfg store c ops r))
        ea in
    let db =
      All-get_elem? _ rows' j b
        (subst (EveryRow _) es (handle_event-Describes cfg store' c' ops' s)) eb in
    let (tx, index, suffix) =
      event_key_unique r s da.suffix db.suffix h k (sym da.hash_eq ∙ e ∙ db.hash_eq) in
    (tx, index, cc (sym da.type_eq ∙ ap type_of suffix ∙ db.type_eq))
