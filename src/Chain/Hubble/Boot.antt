-- ===== src/Chain/Hubble/Boot.antt =====
-- What start-up proves of the dataset before it is trusted.
use lend_worker_stellar.Base.{
  map-some, ℕ, ◌+◌, ◌<◌, ◌≤◌, ◌++◌, ℤ, pos, ◌≤ℤ◌, ◌-ℤ◌, sub_i32, max_ℤ, max_ℤ-bounds, ltb_ℤ,
  i32_half, wrap_i32, Text, lit, false, Bool-cases, Option, none, some, Result, ok, err, map_err,
  ◌>>=◌, ◌≡◌, refl, ap, sym, ◌∙◌, inl, inr, arith,
}
use mathlib.Core.Path.{subst}
use lend_worker_stellar.Chain.BigQuery.{BigQuery}
use lend_worker_stellar.Chain.Hubble.{
  HubbleSource, max_tip_drift, abs_i32, accept_tip, tip, connect,
}

-- Two ledger numbers are close exactly if their i32 difference, made positive, is small.
abs_i32-close :
    (a b : ℕ)
    → a < i32_half
    → b < i32_half
    → ltb_ℤ max_tip_drift (abs_i32 (sub_i32 (pos a) (pos b))) ≡ false
    → (a ≤ b + 1_000_000) × (b ≤ a + 1_000_000)
unfolding abs_i32 sub_i32 wrap_i32 ◌-ℤ◌
abs_i32-close a b ha hb h = ground arith

accept_tip-ok :
    (s s' : HubbleSource) (a : ℕ) (t : Option ℤ)
    → accept_tip s (pos a) t ≡ ok s'
    → (s ≡ s')
      × (z : ℤ) × (t ≡ some z)
      × (ltb_ℤ max_tip_drift (abs_i32 (sub_i32 (pos a) z)) ≡ false)
unfolding accept_tip
accept_tip-ok s s' a none h = cc
accept_tip-ok s s' a (some z) h =
    elim (Bool-cases (ltb_ℤ max_tip_drift (abs_i32 (sub_i32 (pos a) z)))) [
      | inl far ↦ ground arith
      | inr near ↦ let q = rw near at h in (cc, z, refl, near)
    ]

tip-ok :
    (s s' : HubbleSource) (a : ℕ) (dataset : Text) (r : Result (Option ℤ))
    → (do
      t ← map_err (λ e. lit "bigquery probe on " ++ dataset ++ lit ": " ++ e) r
      accept_tip s (pos a) t)
      ≡ ok s'
    → (s ≡ s')
      × (z : ℤ) × (r ≡ ok (some z))
      × (ltb_ℤ max_tip_drift (abs_i32 (sub_i32 (pos a) z)) ≡ false)
tip-ok s s' a dataset (err e) h = cc
tip-ok s s' a dataset (ok t) h =
    let (same, z, q, near) = accept_tip-ok s s' a t h in (same, z, ap ok q, near)

-- If `connect` accepts a dataset, and its tip and the network's are ledger numbers within i32, then
-- the two tips are within a million ledgers of each other, so that a dataset of another network is
-- refused; and every sweep spans at least one ledger.
pub connect-close :
    (client : BigQuery) (fuel : ℕ) (project dataset : Text) (max_span : ℤ)
    (network_tip hubble_tip : ℕ) (s : HubbleSource)
    → connect client fuel project dataset max_span (pos network_tip) ≡ some (ok s)
    → tip client fuel s ≡ some (ok (some (pos hubble_tip)))
    → network_tip < i32_half
    → hubble_tip < i32_half
    → (network_tip ≤ hubble_tip + 1_000_000)
      × (hubble_tip ≤ network_tip + 1_000_000)
      × (pos 1 ≤ℤ s.max_span)
unfolding connect max_ℤ
connect-close client fuel project dataset max_span network_tip hubble_tip s h t hn hh =
    let source : HubbleSource = record {
      billing_project = project;
      dataset = dataset;
      max_span = max_ℤ max_span (pos 1);
    } in
    let (r, asked, answer) = map-some (tip client fuel source) h in
    let (same, z, told, near) = tip-ok source s network_tip dataset r answer in
    let agree : pos hubble_tip ≡ z =
      cc (sym t ∙ ap (λ x. tip client fuel x) (sym same) ∙ asked ∙ ap some told) in
    let (one, two) = abs_i32-close network_tip hubble_tip hn hh (
      subst (λ x. ltb_ℤ max_tip_drift (abs_i32 (sub_i32 (pos network_tip) x)) ≡ false) (sym agree)
        near) in
    (one, two, subst (λ x. pos 1 ≤ℤ x.max_span) same (max_ℤ-bounds max_span (pos 1)).1)
