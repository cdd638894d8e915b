-- ===== src/Chain/EventSource/Rpc/Order.antt =====
-- The sweep hands the events over in the order of their ledgers, and neither drops nor repeats one in sorting.
use mathlib.Core.List.{Perm}
use mathlib.Core.List.Perm
use lend_worker_stellar.Base.{
  ◌≤ℤ◌, Text, text_leb, true, false, Bool-cases, List, [], ◌∷◌, map, All, ◌≡◌, refl, inl, inr,
  arith,
}
use lend_worker_stellar.Chain.EventSource.Raw.{RawSorobanEvent}
use lend_worker_stellar.Chain.EventSource.Rpc.{Tagged, chain_leb, insert_by_chain, sort_by_chain}

text_leb_total : (s t : Text) → text_leb s t ≡ false → text_leb t s ≡ true
unfolding text_leb
text_leb_total [] t h = cc
text_leb_total (a ∷ s) [] h = refl
text_leb_total (a ∷ s) (b ∷ t) h = ground (arith, text_leb_total s t)

text_leb_trans : (s t u : Text) → text_leb s t ≡ true → text_leb t u ≡ true → text_leb s u ≡ true
unfolding text_leb
text_leb_trans [] t u h k = refl
text_leb_trans (a ∷ s) [] u h k = cc
text_leb_trans (a ∷ s) (b ∷ t) [] h k = cc
text_leb_trans (a ∷ s) (b ∷ t) (c ∷ u) h k = ground (arith, text_leb_trans s t u)

chain_leb_total : (a b : Tagged) → chain_leb a b ≡ false → chain_leb b a ≡ true
unfolding chain_leb
chain_leb_total a b h = ground (arith, text_leb_total a.0 b.0)

chain_leb_trans :
    (a b c : Tagged) → chain_leb a b ≡ true → chain_leb b c ≡ true → chain_leb a c ≡ true
unfolding chain_leb
chain_leb_trans a b c h k = ground (arith, text_leb_trans a.0 b.0 c.0)

-- Each entry is at or before all that follow it, by ledger and then by event id.
abbrev pub IsSorted : List Tagged → Type 0
IsSorted [] = Unit
IsSorted (a ∷ l) = All (λ b. chain_leb a b ≡ true) l × IsSorted l

All-insert :
    (P : Tagged → Type 0) (a : Tagged) (l : List Tagged)
    → P a
    → All P l
    → All P (insert_by_chain a l)
unfolding insert_by_chain
All-insert P a [] h k = (h, tt)
All-insert P a (b ∷ l) h k = elim (Bool-cases (chain_leb a b)) [
  | inl e ↦ rw e (h, k)
  | inr e ↦ rw e (k.0, All-insert P a l h k.1)
]

All-trans :
    (a b : Tagged) (l : List Tagged)
    → chain_leb a b ≡ true
    → All (λ c. chain_leb b c ≡ true) l
    → All (λ c. chain_leb a c ≡ true) l
All-trans a b [] h k = tt
All-trans a b (c ∷ l) h k = (chain_leb_trans a b c h k.0, All-trans a b l h k.1)

insert_by_chain-IsSorted :
    (a : Tagged) (l : List Tagged) → IsSorted l → IsSorted (insert_by_chain a l)
unfolding insert_by_chain
insert_by_chain-IsSorted a [] h = (tt, tt)
insert_by_chain-IsSorted a (b ∷ l) h = elim (Bool-cases (chain_leb a b)) [
  | inl e ↦ rw e ((e, All-trans a b l e h.0), h)
  | inr e ↦ rw e (All-insert _ a l (chain_leb_total a b e) h.0, insert_by_chain-IsSorted a l h.1)
]

insert_by_chain-Perm : (a : Tagged) (l : List Tagged) → Perm (insert_by_chain a l) (a ∷ l)
unfolding insert_by_chain
insert_by_chain-Perm a [] = Perm.refl _
insert_by_chain-Perm a (b ∷ l) = elim (Bool-cases (chain_leb a b)) [
  | inl e ↦ rw e (Perm.refl _)
  | inr e ↦ rw e (Perm.trans (Perm.cons b (insert_by_chain-Perm a l)) (Perm.swap a b l))
]

-- Sorting gives the same events, ordered by ledger and then by event id.
pub sort_by_chain_lem : (l : List Tagged) → IsSorted (sort_by_chain l) × Perm (sort_by_chain l) l
unfolding sort_by_chain
sort_by_chain_lem [] = (tt, Perm.refl _)
sort_by_chain_lem (a ∷ l) =
    let (sorted, perm) = sort_by_chain_lem l in
    (
      insert_by_chain-IsSorted a (sort_by_chain l) sorted,
      Perm.trans (insert_by_chain-Perm a (sort_by_chain l)) (Perm.cons a perm),
    )

-- Each event lies at or before the ledger of every event behind it.
abbrev pub IsOrdered : List RawSorobanEvent → Type 0
IsOrdered [] = Unit
IsOrdered (a ∷ l) = All (λ b. a.ledger_seq ≤ℤ b.ledger_seq) l × IsOrdered l

chain_leb-ledger : (a b : Tagged) → chain_leb a b ≡ true → a.1.ledger_seq ≤ℤ b.1.ledger_seq
unfolding chain_leb
chain_leb-ledger a b h = ground arith

All-ledger :
    (a : Tagged) (l : List Tagged)
    → All (λ b. chain_leb a b ≡ true) l
    → All (λ e. a.1.ledger_seq ≤ℤ e.ledger_seq) (map (λ t. t.1) l)
All-ledger a [] h = tt
All-ledger a (b ∷ l) h = (chain_leb-ledger a b h.0, All-ledger a l h.1)

pub IsOrdered-map : (l : List Tagged) → IsSorted l → IsOrdered (map (λ t. t.1) l)
IsOrdered-map [] h = tt
IsOrdered-map (a ∷ l) h = (All-ledger a l h.0, IsOrdered-map l h.1)
