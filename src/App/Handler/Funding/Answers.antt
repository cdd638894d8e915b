-- ===== src/App/Handler/Funding/Answers.antt =====
-- What the five progress queries answer, and the update that `progress_of` makes of the answers.
use lend_worker_stellar.Base.{
  ℕ, ◌-◌, ◌^◌, ◌<◌, ℤ, pos, i32_half, show_ℕ, show_ℤ, Text, lit, Bool, true, ◌&&◌, keep, HashMap,
  get, int_key, some, unwrap_or, List, length, length-keep-le, All, All-imp, All-keep, ◌≡◌, inl,
  inr, arith,
}
use lend_worker_stellar.Base.Strings.Numbers.{parse_ℕ-show_ℕ}
use lend_worker_stellar.Domain.Operation.{net_funded_shares}
use lend_worker_stellar.Domain.Activity.{Activity}
use lend_worker_stellar.Storage.Activities.{
  InvestedTotals, RefundedTotals, is_invested, is_refunded, has_user, users, distinct_texts,
}
use lend_worker_stellar.Storage.Latest.{on_stellar}
use lend_worker_stellar.Storage.Activities.Groups.{HasAmount, total, total-le}
use lend_worker_stellar.Storage.Activities.Totals.{
  AllAmounts, Entries, IsListed, rows_with, invested_totals, refunded_totals, investors,
}
use lend_worker_stellar.Storage.Operations.{OperationProgressUpdate}
use lend_worker_stellar.App.Handler.{
  parse_u128, invested_shares, refunded_shares, Progress, progress_of,
}

-- The shares that an operation's stored rows leave funded: what was bought less what was refunded.
abbrev pub funded : ℤ → List Activity → ℕ
funded op rows =
    total (lit "shares_bought") (rows_with (λ a. is_invested a.event_type) op rows)
    - total (lit "shares_refunded") (rows_with (λ a. is_refunded a.event_type) op rows)

-- The same for the rows of the Stellar chain.
abbrev pub stellar_funded : ℤ → List Activity → ℕ
stellar_funded op rows =
    total (lit "shares_bought") (rows_with (λ a. is_invested a.event_type && on_stellar a) op rows)
    - total (lit "shares_refunded")
        (rows_with (λ a. is_refunded a.event_type && on_stellar a) op rows)

abbrev pub expected : List Activity → ℤ → OperationProgressUpdate
expected rows op = record {
  participants =
      investors (rows_with (λ a. has_user a.user_address && is_invested a.event_type) op rows);
  funded_amount = show_ℕ (funded op rows);
  stellar_funded_amount = show_ℕ (stellar_funded op rows);
}

parse_u128-show_ℤ : (n : ℕ) → n < 2 ^ 128 → parse_u128 (show_ℤ (pos n)) ≡ some n
unfolding show_ℤ parse_u128
parse_u128-show_ℤ n h = rw (parse_u128, parse_ℕ-show_ℕ n) (ground arith)

module _ (p : Activity → Bool) (ids : List ℤ) (rows : List Activity) (op : ℤ)
    (listed : IsListed op ids) where
  invested_shares-Entries :
      (m : HashMap ℤ InvestedTotals)
      → Entries invested_totals p ids rows m
      → total (lit "shares_bought") (rows_with p op rows) < 2 ^ 128
      → invested_shares op m ≡ total (lit "shares_bought") (rows_with p op rows)
  unfolding invested_shares
  invested_shares-Entries m entries h = elim (entries op listed) [
    | inl e ↦ rw (invested_shares, e, parse_u128-show_ℤ _ h)
    | inr (e, empty) ↦ rw (invested_shares, e, empty)
  ]

  refunded_shares-Entries :
      (m : HashMap ℤ RefundedTotals)
      → Entries refunded_totals p ids rows m
      → total (lit "shares_refunded") (rows_with p op rows) < 2 ^ 128
      → refunded_shares op m ≡ total (lit "shares_refunded") (rows_with p op rows)
  unfolding refunded_shares
  refunded_shares-Entries m entries h = elim (entries op listed) [
    | inl e ↦ rw (refunded_shares, e, parse_u128-show_ℤ _ h)
    | inr (e, empty) ↦ rw (refunded_shares, e, empty)
  ]

  participants-Entries :
      (m : HashMap ℤ ℤ)
      → Entries (λ op rows. investors rows) p ids rows m
      → unwrap_or (pos 0) (get op m) ≡ investors (rows_with p op rows)
  unfolding users distinct_texts
  participants-Entries m entries = elim (entries op listed) [
    | inl e ↦ rw e
    | inr (e, empty) ↦ rw (e, empty)
  ]

total-lt :
    (key : Text) (kind q : Activity → Bool) (rows : List Activity)
    → ((a : Activity) → q a ≡ true → kind a ≡ true)
    → All (λ a. kind a ≡ true → HasAmount key a) rows
    → length rows < i32_half
    → total key (keep q rows) < 2 ^ 128
total-lt key kind q rows narrower h few = omega (
  arith,
  total-le key (keep q rows)
      (All-keep (HasAmount key) q rows (All-imp _ _ rows (λ a k passed. k (narrower a passed)) h)),
  length-keep-le q rows,
)

-- What the five queries answered, for the listed operations.
pub record Answered (ids : List ℤ) (rows : List Activity) (p : Progress) : Type 0 where
  pub participants :
      Entries
        (λ op l. investors l)
        (λ a. has_user a.user_address && is_invested a.event_type)
        ids
        rows
        p.participants
  pub invested : Entries invested_totals (λ a. is_invested a.event_type) ids rows p.invested
  pub refunded : Entries refunded_totals (λ a. is_refunded a.event_type) ids rows p.refunded
  pub invested_stlr :
      Entries invested_totals
        (λ a. is_invested a.event_type && on_stellar a)
        ids
        rows
        p.invested_stlr
  pub refunded_stlr :
      Entries refunded_totals
        (λ a. is_refunded a.event_type && on_stellar a)
        ids
        rows
        p.refunded_stlr

module _ (ids : List ℤ) (rows : List Activity) (amounts : AllAmounts rows)
    (few : length rows < i32_half) where
  bought-lt :
      (q : Activity → Bool)
      → ((a : Activity) → q a ≡ true → is_invested a.event_type ≡ true)
      → total (lit "shares_bought") (keep q rows) < 2 ^ 128
  bought-lt q narrower =
      total-lt (lit "shares_bought") (λ a. is_invested a.event_type) q rows narrower
        (All-imp _ _ rows (λ a k e. (k e).1) amounts.invested) few

  refunded-lt :
      (q : Activity → Bool)
      → ((a : Activity) → q a ≡ true → is_refunded a.event_type ≡ true)
      → total (lit "shares_refunded") (keep q rows) < 2 ^ 128
  refunded-lt q narrower =
      total-lt (lit "shares_refunded") (λ a. is_refunded a.event_type) q rows narrower
        (All-imp _ _ rows (λ a k e. (k e).1) amounts.refunded) few

  pub progress_of-Answered :
      (p : Progress) (op : ℤ)
      → Answered ids rows p
      → IsListed op ids
      → progress_of p op ≡ expected rows op
  unfolding progress_of net_funded_shares
  progress_of-Answered p op a listed = rw (
    participants-Entries (λ a. has_user a.user_address && is_invested a.event_type) ids rows op
        listed p.participants a.participants,
    invested_shares-Entries (λ a. is_invested a.event_type) ids rows op listed p.invested a.invested
        (bought-lt _ (λ b h. ground arith)),
    refunded_shares-Entries (λ a. is_refunded a.event_type) ids rows op listed p.refunded a.refunded
        (refunded-lt _ (λ b h. ground arith)),
    invested_shares-Entries (λ a. is_invested a.event_type && on_stellar a) ids rows op listed
        p.invested_stlr a.invested_stlr (bought-lt _ (λ b h. ground arith)),
    refunded_shares-Entries (λ a. is_refunded a.event_type && on_stellar a) ids rows op listed
        p.refunded_stlr a.refunded_stlr (refunded-lt _ (λ b h. ground arith)),
  )
