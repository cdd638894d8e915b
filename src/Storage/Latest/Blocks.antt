-- ===== src/Storage/Latest/Blocks.antt =====
-- The highest block among the stored rows that pass a filter: `MAX(block_number)` of
-- crates/lw-storage/src/activity_repository.rs.
use lend_worker_stellar.Base.{
  ℤ, pos, ◌≤ℤ◌, ◌<ℤ◌, max_ℤ, max_ℤ-bounds, unwrap_or, ◌-◌, ◌^◌, Bool, true, Bool-cases, keep, some,
  Option-cases, List, [], ◌∷◌, All, All-imp, All-keep, Any, ◌≡◌, inl, inr, arith,
}
use lend_worker_stellar.Domain.Activity.{Activity}
use lend_worker_stellar.Storage.Latest.{max_block}

-- A ledger that has one behind it in an i32.
abbrev pub IsLedger : ℤ → Type 0
IsLedger b = (pos 0 <ℤ b) × (b <ℤ pos (2 ^ 31 - 1))

max_ℤ-IsLedger : (a b : ℤ) → IsLedger a → IsLedger b → IsLedger (max_ℤ a b)
unfolding max_ℤ
max_ℤ-IsLedger a b h k = ground arith

-- A row's block is reached.
abbrev pub Reached : Activity → ℤ → Type 0
Reached a m = (a.block_number ≤ℤ m) × IsLedger m

-- The answer for no rows is none; otherwise it is a ledger at or behind each.
max_block-IsLedger :
    (l : List Activity) (m : ℤ)
    → All (λ r. IsLedger r.block_number) l
    → max_block l ≡ some m
    → IsLedger m
unfolding max_block
max_block-IsLedger [] m h e = cc
max_block-IsLedger (a ∷ l) m h e = elim (Option-cases (max_block l)) [
  | inl q ↦ let same : a.block_number ≡ m = cc (rw q at e) in rw⁻¹ same h.0
  | inr (n, q) ↦
      let same : max_ℤ a.block_number n ≡ m = cc (rw q at e) in
      rw⁻¹ same (max_ℤ-IsLedger a.block_number n h.0 (max_block-IsLedger l n h.1 q))
]

max_block-Reached :
    (l : List Activity) (a : Activity)
    → All (λ r. IsLedger r.block_number) l
    → Any (λ r. r ≡ a) l
    → Reached a (unwrap_or (pos 0) (max_block l))
unfolding max_block
max_block-Reached [] a h there = absurd there
max_block-Reached (b ∷ l) a h (inl q) = elim (Option-cases (max_block l)) [
  | inl e ↦ rw e (rw⁻¹ q ((omega arith), h.0))
  | inr (n, e) ↦ rw e (
      rw⁻¹ q (
        (max_ℤ-bounds b.block_number n).0,
        max_ℤ-IsLedger b.block_number n h.0 (max_block-IsLedger l n h.1 e),
      ))
]
max_block-Reached (b ∷ l) a h (inr later) =
    let reached = max_block-Reached l a h.1 later in
    elim (Option-cases (max_block l)) [
      | inl e ↦ absurd (omega (arith, rw e at reached))
      | inr (n, e) ↦
          let (low, fits) = rw e at reached in
          rw e (
            omega (arith, low, (max_ℤ-bounds b.block_number n).1),
            max_ℤ-IsLedger b.block_number n h.0 fits,
          )
    ]

Any-keep :
    (p : Activity → Bool) (l : List Activity) (a : Activity)
    → Any (λ r. r ≡ a) l
    → p a ≡ true
    → Any (λ r. r ≡ a) (keep p l)
Any-keep p [] a there h = absurd there
Any-keep p (b ∷ l) a (inl q) h = let mine : p b ≡ true = rw q h in rw mine (inl q)
Any-keep p (b ∷ l) a (inr later) h = elim (Bool-cases (p b)) [
  | inl e ↦ rw e (inr (Any-keep p l a later h))
  | inr e ↦ rw e (Any-keep p l a later h)
]

-- The highest block of the rows that pass the filter reaches each of them.
pub max_block-keep :
    (p : Activity → Bool) (l : List Activity) (a : Activity)
    → All (λ r. IsLedger r.block_number) l
    → Any (λ r. r ≡ a) l
    → p a ≡ true
    → Reached a (unwrap_or (pos 0) (max_block (keep p l)))
max_block-keep p l a h there passes =
    max_block-Reached (keep p l) a
      (All-keep (λ r. IsLedger r.block_number) p l (All-imp _ _ l (λ r k e. k) h))
      (Any-keep p l a there passes)
