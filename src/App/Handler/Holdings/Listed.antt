-- ===== src/App/Handler/Holdings/Listed.antt =====
-- Which fiat holdings the body of the `for` over the events in `Handler::sync_op_status` of
-- crates/lw-app/src/handler.rs makes, described by the fields of an event and its payload.
use lend_worker_stellar.Base.{
  ℤ, Text, lit, text_eq, is_empty, string_member, Bool, true, false, not, ◌&&◌, Bool-cases,
  if◌then◌else◌, none, some, Option-cases, List, [], ◌∷◌, ◌++◌, ok, ◌≡◌, ◌≢◌, refl, sym, ap, ◌∙◌,
  ◌⊎◌, inl, inr,
}
use lend_worker_stellar.Base.Strings.Search.{text_eq_iff, text_eq_refl}
use lend_worker_stellar.Config.Types.{nil_uuid}
use lend_worker_stellar.Config.Env.{LocalEnv}
use lend_worker_stellar.Domain.Operation.{Time, FiatHolding, new_fiat_holding, set_created_at}
use lend_worker_stellar.Domain.Activity.{Activity, ActivityEventType}
use lend_worker_stellar.Storage.Tables.{Db}
use lend_worker_stellar.Storage.Activities.{insert_many}
use lend_worker_stellar.Storage.Operations.Keyed.{unfinished}
use lend_worker_stellar.Storage.Stores.{pg_stores}
use lend_worker_stellar.App.Discovery.{World}
use lend_worker_stellar.App.Handler.{fiat_holding, invested_fiat_data, process_events}
use lend_worker_stellar.App.Handler.Holdings.{holding_of, holdings, held, process_events-held}

-- The event is a fiat investment whose tokens went to Lend's wallet, which is configured, for another
-- user, and the holding has the user, the shares bought, the operation and the time of the event.
pub record IsHolding (cfg : LocalEnv) (e : Activity) (h : FiatHolding) : Type 0 where
  pub event_type : e.event_type ≡ ActivityEventType.invested_fiat
  pub tx_hash : Text
  pub user : Text
  pub shares : Text
  pub hash_read : string_member (lit "tx_hash") e.payload ≡ some tx_hash
  pub holder_read : string_member (lit "op_lend_holder") e.payload ≡ some cfg.oplend_wallet
  pub shares_read : string_member (lit "shares_bought") e.payload ≡ some shares
  pub user_read : e.user_address ≡ some user
  pub wallet_set : cfg.oplend_wallet ≢ []
  pub user_other : user ≢ cfg.oplend_wallet
  pub user_set : user ≢ []
  pub holding : h ≡ record {
    id = nil_uuid;
    user_address = user;
    value = shares;
    factory_op_id = e.factory_op_id;
    withdrew_at = none;
    created_at = e.created_at;
  }

-- These are the holdings of these events, in order, and there is one for each event that has one.
abbrev pub AreHoldings : LocalEnv → List Activity → List FiatHolding → Type 0
AreHoldings cfg [] hs = hs ≡ []
AreHoldings cfg (e ∷ events) hs =
    ((h : FiatHolding) × (rest : List FiatHolding) × (hs ≡ h ∷ rest)
      × IsHolding cfg e h
      × AreHoldings cfg events rest)
    ⊎ (((h : FiatHolding) → ¬ IsHolding cfg e h) × AreHoldings cfg events hs)

guarded :
    (a b c d : Bool) (x h : FiatHolding)
    → (if not a && (b && (not c && not d)) then some x else none) ≡ some h
    → (a ≡ false) × (b ≡ true) × (c ≡ false) × (d ≡ false) × (x ≡ h)
guarded false true false false x h e = (refl, refl, refl, refl, cc)
guarded true b c d x h e = cc
guarded false false c d x h e = cc
guarded false true true d x h e = cc
guarded false true false true x h e = cc

text-differs : (s t : Text) → text_eq s t ≡ false → s ≢ t
text-differs s t e q = cc ((text_eq_iff s t).1 q)

differs-text : (s t : Text) → s ≢ t → text_eq s t ≡ false
differs-text s t ne = elim (Bool-cases (text_eq s t)) [
  | inl e ↦ absurd (ne ((text_eq_iff s t).0 e))
  | inr e ↦ e
]

is_empty-differs : (s : Text) → is_empty s ≡ false → s ≢ []
unfolding is_empty
is_empty-differs [] e q = cc
is_empty-differs (c ∷ s) e q = cc

differs-is_empty : (s : Text) → s ≢ [] → is_empty s ≡ false
unfolding is_empty
differs-is_empty [] ne = absurd (ne refl)
differs-is_empty (c ∷ s) ne = refl

module _ (cfg : LocalEnv) (now : Time) (is_open : Bool) where
  fiat_holding-IsHolding :
      (e : Activity) (h : FiatHolding)
      → e.event_type ≡ ActivityEventType.invested_fiat
      → fiat_holding cfg now pg_stores is_open e ≡ some h
      → IsHolding cfg e h
  unfolding fiat_holding invested_fiat_data new_fiat_holding set_created_at is_empty
  fiat_holding-IsHolding e h t made =
      elim (Option-cases (string_member (lit "tx_hash") e.payload)) [
        | inl n ↦ cc (rw (fiat_holding, invested_fiat_data, n) at made)
        | inr (tx, q) ↦ elim (Option-cases (string_member (lit "op_lend_holder") e.payload)) [
          | inl n ↦ cc (rw (fiat_holding, invested_fiat_data, q, n) at made)
          | inr (holder, r) ↦ elim (Option-cases (string_member (lit "shares_bought") e.payload)) [
            | inl n ↦ cc (rw (fiat_holding, invested_fiat_data, q, r, n) at made)
            | inr (shares, k) ↦ elim (Option-cases e.user_address) [
              | inl n ↦
                  let (_, _, _, nobody, _) =
                    guarded (is_empty cfg.oplend_wallet) (text_eq holder cfg.oplend_wallet)
                      (text_eq [] cfg.oplend_wallet) (is_empty []) _ h
                      (rw (fiat_holding, invested_fiat_data, q, r, k, n) at made) in
                  cc
              | inr (user, u) ↦
                  let (wallet, to_wallet, other, someone, shape) =
                    guarded (is_empty cfg.oplend_wallet) (text_eq holder cfg.oplend_wallet)
                      (text_eq user cfg.oplend_wallet) (is_empty user) _ h
                      (rw (fiat_holding, invested_fiat_data, q, r, k, u) at made) in
                  record {
                    event_type = t;
                    tx_hash = tx;
                    user = user;
                    shares = shares;
                    hash_read = q;
                    holder_read = r ∙ ap some ((text_eq_iff holder cfg.oplend_wallet).0 to_wallet);
                    shares_read = k;
                    user_read = u;
                    wallet_set = is_empty-differs cfg.oplend_wallet wallet;
                    user_other = text-differs user cfg.oplend_wallet other;
                    user_set = is_empty-differs user someone;
                    holding = sym shape;
                  }
            ]
          ]
        ]
      ]

  IsHolding-fiat_holding :
      (e : Activity) (h : FiatHolding)
      → IsHolding cfg e h
      → fiat_holding cfg now pg_stores is_open e ≡ some h
  unfolding fiat_holding invested_fiat_data new_fiat_holding set_created_at is_empty
  IsHolding-fiat_holding e h i =
      rw
        (
          fiat_holding,
          invested_fiat_data,
          i.hash_read,
          i.holder_read,
          i.shares_read,
          i.user_read,
          differs-is_empty cfg.oplend_wallet i.wallet_set,
          text_eq_refl cfg.oplend_wallet,
          differs-text i.user cfg.oplend_wallet i.user_other,
          differs-is_empty i.user i.user_set,
        )
        (ap some (sym i.holding))

  -- The same of the match on the event's type.
  holding_of-IsHolding :
      (e : Activity) (h : FiatHolding) (t : ActivityEventType)
      → e.event_type ≡ t
      → holding_of cfg now is_open e ≡ some h
      → IsHolding cfg e h
  unfolding fiat_holding
  holding_of-IsHolding e h ActivityEventType.invested_fiat q made =
      fiat_holding-IsHolding e h q (rw q at made)
  holding_of-IsHolding e h t q made = cc (rw q at made)

  IsHolding-holding_of :
      (e : Activity) (h : FiatHolding) → IsHolding cfg e h → holding_of cfg now is_open e ≡ some h
  unfolding fiat_holding
  IsHolding-holding_of e h i = rw i.event_type (IsHolding-fiat_holding e h i)

  holdings-AreHoldings :
      (events : List Activity) → AreHoldings cfg events (holdings cfg now is_open events)
  unfolding holdings
  holdings-AreHoldings [] = refl
  holdings-AreHoldings (e ∷ events) = elim (Option-cases (holding_of cfg now is_open e)) [
    | inl n ↦
        rw (holdings, n)
          (inr ((λ h i. cc (IsHolding-holding_of e h i)), holdings-AreHoldings events))
    | inr (h, n) ↦
        rw (holdings, n)
          (inl (
            h,
            holdings cfg now is_open events,
            refl,
            holding_of-IsHolding e h e.event_type refl n,
            holdings-AreHoldings events,
          ))
  ]

  by_unfinished :
      (ids : List ℤ) (events : List Activity)
      → ((ids ≡ []) × (held cfg now is_open ids events ≡ []))
        ⊎ ((ids ≢ []) × AreHoldings cfg events (held cfg now is_open ids events))
  by_unfinished [] events = inl (refl, refl)
  by_unfinished (op ∷ ops) events = inr ((λ q. cc), holdings-AreHoldings events)

  -- A stored batch adds some fiat holdings behind those that are there. If no published operation is
  -- open, upcoming or in predeposit, it adds none. Otherwise it adds, in order, one for each event that
  -- is a fiat investment whose payload names its transaction, the configured wallet of Lend as the
  -- holder and the shares bought, and whose user is known, not empty and not that wallet, with the
  -- user, the shares, the operation and the time of the event; and no other.
  pub process_events-holdings :
      (events : List Activity) (w : World Db) (db : Db)
      → insert_many events w.store ≡ ok db
      → (hs : List FiatHolding) × ((process_events cfg now pg_stores is_open events
            w).store.fiat_holdings
          ≡ w.store.fiat_holdings ++ hs)
        × (((unfinished w.store.operations ≡ []) × (hs ≡ []))
            ⊎ ((unfinished w.store.operations ≢ []) × AreHoldings cfg events hs))
  process_events-holdings events w db h = (
    held cfg now is_open (unfinished w.store.operations) events,
    process_events-held cfg now is_open events w db h,
    by_unfinished (unfinished w.store.operations) events,
  )
