-- ===== src/Storage/Operations/Chains.antt =====
-- Recording an operation's token: once, without disturbing the others, with one primary chain.
use lend_worker_stellar.Base.{
  ℕ, ◌+◌, ◌≤◌, ℤ, eqb_ℤ, Text, text_eq, Json, Bool, true, false, Bool-cases, not, ◌&&◌, any,
  if◌then◌else◌, List, [], ◌∷◌, ◌++◌, map, ok, Result-cases, ◌≡◌, refl, ap, inl, inr, arith,
}
use mathlib.Core.Path.{subst}
use lend_worker_stellar.Base.Strings.Search.{text_eq_refl}
use lend_worker_stellar.Config.Env.{stellar_chain_id}
use lend_worker_stellar.Domain.Operation.{SupportedChains}
use lend_worker_stellar.Storage.Tables.{Db, OperationRow}
use lend_worker_stellar.Storage.Operations.{
  has_fop, has_primary, has_token, add_chain, op_created_data, add_first_chain,
}

-- How many chains are marked as primary.
unfoldable pub primaries : List SupportedChains → ℕ
primaries [] = 0
primaries (c ∷ l) = if c.primary then 1 + primaries l else primaries l

any-append :
    {A : Type 0} (p : A → Bool) (xs : List A) (y : A) → p y ≡ true → any p (xs ++ y ∷ []) ≡ true
any-append p [] y h = rw h
any-append p (x ∷ xs) y h = ground (arith, any-append p xs y h)

primaries-snoc :
    (l : List SupportedChains) (c : SupportedChains)
    → primaries (l ++ c ∷ []) ≡ primaries l + (if c.primary then 1 else 0)
unfolding primaries
primaries-snoc [] c = ground arith
primaries-snoc (d ∷ l) c = ground (arith, primaries-snoc l c)

primaries-none : (l : List SupportedChains) → has_primary l ≡ false → primaries l ≡ 0
unfolding primaries
primaries-none [] h = refl
primaries-none (d ∷ l) h = ground (arith, primaries-none l)

primaries-append :
    (l : List SupportedChains) (c : SupportedChains)
    → c.primary ≡ not (has_primary l)
    → primaries l ≤ 1
    → primaries (l ++ c ∷ []) ≤ 1
primaries-append l c h k = elim (Bool-cases (has_primary l)) [
  | inl some_one ↦ rw (primaries-snoc l c, h, some_one) (omega arith)
  | inr no_one ↦ rw (primaries-snoc l c, h, no_one, primaries-none l no_one) (omega arith)
]

add_chain-primaries :
    (op : ℤ) (token : Text) (row : OperationRow)
    → primaries row.operation.supported_chains ≤ 1
    → primaries (add_chain op token row).operation.supported_chains ≤ 1
unfolding add_chain
add_chain-primaries op token row h =
    elim (Bool-cases (has_fop op row && not (has_token token row.operation.supported_chains))) [
      | inr kept ↦ rw kept h
      | inl added ↦ rw added (primaries-append row.operation.supported_chains _ refl h)
    ]

pub add_chain-token :
    (op : ℤ) (token : Text) (row : OperationRow)
    → has_fop op row ≡ true
    → has_token token (add_chain op token row).operation.supported_chains ≡ true
unfolding add_chain
add_chain-token op token row h =
    elim (Bool-cases (has_token token row.operation.supported_chains)) [
      | inl there ↦ ground arith
      | inr fresh ↦
          rw (h, fresh)
            (any-append (λ c. text_eq c.op_token token && eqb_ℤ c.chain_id stellar_chain_id)
              row.operation.supported_chains _ (rw (text_eq_refl token) refl))
    ]

-- Recording a token for an operation: afterwards the operation lists the token on the Stellar chain;
-- an operation with at most one primary chain still has at most one; and another operation's row is
-- not touched.
pub add_chain_lem :
    (op : ℤ) (token : Text) (row : OperationRow)
    → primaries row.operation.supported_chains ≤ 1
    → (has_fop op row ≡ true
        → has_token token (add_chain op token row).operation.supported_chains ≡ true)
      × (primaries (add_chain op token row).operation.supported_chains ≤ 1)
      × (has_fop op row ≡ false → add_chain op token row ≡ row)
unfolding add_chain
add_chain_lem op token row h =
    (add_chain-token op token row, add_chain-primaries op token row h, λ other. ground arith)

add_chain-other :
    (op : ℤ) (token : Text) (row : OperationRow)
    → has_fop op row ≡ false
    → add_chain op token row ≡ row
unfolding add_chain
add_chain-other op token row h = ground arith

add_chain-present :
    (op : ℤ) (token : Text) (row : OperationRow)
    → has_token token row.operation.supported_chains ≡ true
    → add_chain op token row ≡ row
unfolding add_chain
add_chain-present op token row h = ground arith

add_chain-twice :
    (op : ℤ) (token : Text) (row : OperationRow)
    → add_chain op token (add_chain op token row) ≡ add_chain op token row
add_chain-twice op token row = elim (Bool-cases (has_fop op row)) [
  | inl mine ↦
      add_chain-present op token (add_chain op token row) (add_chain-token op token row mine)
  | inr other ↦ ap (add_chain op token) (add_chain-other op token row other)
]

map-twice :
    {A : Type 0} (f : A → A) (xs : List A) → ((a : A) → f (f a) ≡ f a) → map f (map f xs) ≡ map f xs
map-twice f [] h = refl
map-twice f (x ∷ xs) h = rw (h x, map-twice f xs h)

-- Handling the same creation event again changes nothing: the worker may see it more than once.
pub add_first_chain-again :
    (op : ℤ) (d : Json) (db db' : Db)
    → add_first_chain op d db ≡ ok db'
    → add_first_chain op d db' ≡ ok db'
unfolding add_first_chain
add_first_chain-again op d db db' h = elim (Result-cases (op_created_data d)) [
  | inr (m, e) ↦ cc (rw e at h)
  | inl (created, e) ↦
      let q : record db { operations = map (add_chain op created.op_token) db.operations } ≡ db' =
        cc (rw e at h) in
      rw e (
        subst
          (λ (x : Db).
            ok (record x { operations = map (add_chain op created.op_token) x.operations }) ≡ ok x)
          q
          (ap (λ (t : List OperationRow). ok (record db { operations = t }))
            (map-twice (add_chain op created.op_token) db.operations
              (add_chain-twice op created.op_token))))
]
