-- ===== src/Domain/Build/Amounts.antt =====
-- The USDC amount that a row of `build_activity` of crates/lw-domain/src/activity_builder.rs stores, against
-- the amount that the event moved.
use mathlib.Core.Path.{subst}
use lend_worker_stellar.Base.{
  ℕ, ◌/◌, ◌+◌, ◌*◌, ◌≤◌, ◌<◌, ℤ, pos, negsuc, show_ℤ, Text, lit, text_eq, Fields, string_member,
  ◌≡◌, ◌≢◌, refl, ap, Option, none, some, [], ◌∷◌, arith, str, field,
}
use lend_worker_stellar.Config.Types.{Uuid, OpMapping, ContractEvent}
use lend_worker_stellar.Config.Env.{AppEnv, dev, production, staging}
use lend_worker_stellar.Domain.Operation.{Time}
use lend_worker_stellar.Domain.Activity.{Activity, ActivityEventType}
use lend_worker_stellar.Domain.Build.{
  op_uuid, usdc_to_db_units, with_op, one_activity, build_activity,
}
use lend_worker_stellar.Domain.Build.Rows.{op_of}

-- The USDC amount of an event, as it is on chain.
unfoldable pub moved : ContractEvent → Option ℤ
moved (ContractEvent.invested a op n k) = some n
moved (ContractEvent.refunded a op n k) = some n
moved (ContractEvent.claimed_rewards op a n) = some n
moved (ContractEvent.rewards_distributed op e n) = some n
moved (ContractEvent.funding_withdrawn op n) = some n
moved _ = none

-- In production the tenth of an amount, rounded down; in the other environments the amount. An amount
-- below zero becomes zero.
abbrev pub IsScaled : AppEnv → ℤ → ℕ → Type 0
IsScaled env (negsuc n) q = q ≡ 0
IsScaled env (pos n) q =
    (env ≡ production → (10 * q ≤ n) × (n < 10 * q + 10)) × (env ≢ production → q ≡ n)

-- How a row of this event shows the amount: a withdrawal as it is on chain, the others scaled.
abbrev pub IsShown : AppEnv → ContractEvent → ℤ → Text → Type 0
IsShown env (ContractEvent.funding_withdrawn op k) n t = t ≡ show_ℤ n
IsShown env _ n t = (q : ℕ) × (t ≡ show_ℤ (pos q)) × IsScaled env n q

usdc_to_db_units-IsScaled :
    (env : AppEnv) (n : ℤ) → (q : ℕ) × (usdc_to_db_units env n ≡ pos q) × IsScaled env n q
unfolding usdc_to_db_units
usdc_to_db_units-IsScaled env (negsuc n) = (0, refl, refl)
usdc_to_db_units-IsScaled production (pos n) =
    (n / 10, refl, ((λ e. omega arith), (λ ne. absurd (ne refl))))
usdc_to_db_units-IsScaled dev (pos n) = (n, refl, ((λ e. cc), (λ ne. refl)))
usdc_to_db_units-IsScaled staging (pos n) = (n, refl, ((λ e. cc), (λ ne. refl)))

shown :
    (env : AppEnv) (n : ℤ)
    → (q : ℕ) × (show_ℤ (usdc_to_db_units env n) ≡ show_ℤ (pos q)) × IsScaled env n q
shown env n = let (q, e, scaled) = usdc_to_db_units-IsScaled env n in (q, ap show_ℤ e, scaled)

-- The one row of a known operation, whose payload starts with the key and the amount.
with_op-amount :
    (o : Option Uuid) (t : ActivityEventType) (suffix tx : Text) (block : ℤ) (ts : Time) (id : Uuid)
    (op : ℕ) (user : Option Text) (amount : Text) (rest : Fields)
    → o ≡ some id
    → (a : Activity) × (with_op o (λ k.
          one_activity t suffix tx block ts k op user (field (lit "usdc_amount") (str amount) rest))
        ≡ some (a ∷ []))
      × (string_member (lit "usdc_amount") a.payload ≡ some amount)
unfolding one_activity string_member lit text_eq
with_op-amount none t suffix tx block ts id op user amount rest e = cc
with_op-amount (some k) t suffix tx block ts id op user amount rest e = (_, refl, refl)

scaled_row :
    (env : AppEnv) (o : Option Uuid) (t : ActivityEventType) (suffix tx : Text) (block : ℤ)
    (ts : Time) (id : Uuid) (op : ℕ) (user : Option Text) (m n : ℤ) (rest : Fields)
    → o ≡ some id
    → some m ≡ some n
    → (a : Activity) × (text : Text) × (with_op o (λ k.
          one_activity t suffix tx block ts k op user
            (field (lit "usdc_amount") (str (show_ℤ (usdc_to_db_units env m))) rest))
        ≡ some (a ∷ []))
      × (string_member (lit "usdc_amount") a.payload ≡ some text)
      × ((q : ℕ) × (text ≡ show_ℤ (pos q)) × IsScaled env n q)
scaled_row env o t suffix tx block ts id op user m n rest e h =
    let text : Text = show_ℤ (usdc_to_db_units env m) in
    let same : m ≡ n = cc in
    let (a, made, read) = with_op-amount o t suffix tx block ts id op user text rest e in
    (
      a,
      text,
      made,
      read,
      subst (λ x. (q : ℕ) × (text ≡ show_ℤ (pos q)) × IsScaled env x q) same (shown env m),
    )

none-some : {n : ℤ} → none ≡ some n → ⊥
none-some h = cc

-- An event of a known operation that moves USDC gives one row, whose data has the amount as a text. A
-- withdrawal of the funding shows the amount on chain. An investment, a refund, a claim and a
-- distribution of rewards show it in production as the tenth, rounded down, and in every other
-- environment as it is, and show zero for an amount below zero.
pub build_activity-IsShown :
    (env : AppEnv) (ops : OpMapping) (event : ContractEvent) (tx : Text) (block : ℤ) (ts : Time)
    (n : ℤ) (id : Uuid)
    → moved event ≡ some n
    → op_uuid ops (op_of event) ≡ some id
    → (a : Activity) × (t : Text) × (build_activity env ops event tx block ts ≡ some (a ∷ []))
      × (string_member (lit "usdc_amount") a.payload ≡ some t)
      × IsShown env event n t
unfolding build_activity moved op_of
build_activity-IsShown env ops (ContractEvent.invested i op m k) tx block ts n id h e =
    scaled_row env _ _ _ tx block ts id op _ m n _ e h
build_activity-IsShown env ops (ContractEvent.refunded i op m k) tx block ts n id h e =
    scaled_row env _ _ _ tx block ts id op _ m n _ e h
build_activity-IsShown env ops (ContractEvent.claimed_rewards op u m) tx block ts n id h e =
    scaled_row env _ _ _ tx block ts id op _ m n _ e h
build_activity-IsShown env ops (ContractEvent.rewards_distributed op k m) tx block ts n id h e =
    scaled_row env _ _ _ tx block ts id op _ m n _ e h
build_activity-IsShown env ops (ContractEvent.funding_withdrawn op m) tx block ts n id h e =
    let same : m ≡ n = cc in
    let (a, made, read) = with_op-amount _ _ _ tx block ts id op none (show_ℤ m) _ e in
    (a, show_ℤ m, made, read, ap show_ℤ same)
build_activity-IsShown env ops event tx block ts n id h e = absurd (none-some h)
