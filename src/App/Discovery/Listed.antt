-- ===== src/App/Discovery/Listed.antt =====
-- The operations that `get_all` returns, and the map that the handler collects of them.
use mathlib.Core.List.{foldl}
use lend_worker_stellar.Base.{
  ℕ, zero, suc, ◌==◌, ==_iff, Bool, true, Bool-cases, ◌&&◌, keep, HashMap, get, insert, get-insert,
  values, nat_key, some, List, [], ◌∷◌, map, get_elem?, All, Any, ◌≡◌, ◌≢◌, refl, ap, ◌∙◌, inl, inr,
  arith,
}
use mathlib.Core.Path.{subst}
use lend_worker_stellar.Config.Types.{Uuid}
use lend_worker_stellar.Domain.Operation.{Operation}
use lend_worker_stellar.Storage.Tables.{OperationRow}
use lend_worker_stellar.Storage.Operations.{has_id}
use lend_worker_stellar.Storage.Operations.Keyed.{IsKeyed}

-- The operations that `get_all` returns, and the map that is collected of them.
abbrev pub shown : OperationRow → Bool
shown r = has_id r.operation.factory_op_id && r.published

abbrev pub returned : List OperationRow → List Operation
returned ops = map (λ r. r.operation) (keep shown ops)

abbrev pub entries : List OperationRow → List (Uuid × Operation)
entries ops = map (λ o. (o.id, o)) (returned ops)

unfoldable pub collect_from :
    HashMap Uuid Operation → List (Uuid × Operation) → HashMap Uuid Operation
unfolding insert
collect_from = foldl (λ m p. insert p.0 p.1 m)

get-collect_from_other :
    (k : Uuid) (ops : List OperationRow) (m : HashMap Uuid Operation)
    → All (λ r. r.operation.id ≢ k) ops
    → get k (collect_from m (entries ops)) ≡ get k m
unfolding collect_from
get-collect_from_other k [] m h = refl
get-collect_from_other k (r ∷ ops) m h = elim (Bool-cases (shown r)) [
  | inr hidden ↦ rw hidden (get-collect_from_other k ops m h.1)
  | inl seen ↦ rw seen (
      get-collect_from_other k ops (insert r.operation.id r.operation m) h.1
      ∙ ground (arith, get-insert r.operation.id k r.operation m, ==_iff r.operation.id k, h.0))
]

pub get-collect_from :
    (ops : List OperationRow) (i : ℕ) (row : OperationRow) (m : HashMap Uuid Operation)
    → IsKeyed ops
    → get_elem? ops i ≡ some row
    → shown row ≡ true
    → get row.operation.id (collect_from m (entries ops)) ≡ some row.operation
unfolding collect_from
get-collect_from [] i row m k e h = cc
get-collect_from (r ∷ ops) zero row m k e h =
    let q : r ≡ row = cc in
    let seen : shown r ≡ true = ap shown q ∙ h in
    let mine : get r.operation.id (insert r.operation.id r.operation m) ≡ some r.operation =
      ground (
        arith,
        get-insert r.operation.id r.operation.id r.operation m,
        ==_iff r.operation.id r.operation.id,
      ) in
    subst
      (λ (x : OperationRow).
        get x.operation.id (collect_from m (entries (r ∷ ops))) ≡ some x.operation)
      q
      (rw seen (
        get-collect_from_other r.operation.id ops (insert r.operation.id r.operation m) k.0 ∙ mine))
get-collect_from (r ∷ ops) (suc i) row m k e h = elim (Bool-cases (shown r)) [
  | inr hidden ↦ rw hidden (get-collect_from ops i row m k.1 e h)
  | inl seen ↦ rw seen (get-collect_from ops i row (insert r.operation.id r.operation m) k.1 e h)
]

pub values-Any :
    (k : Uuid) (v : Operation) (m : HashMap Uuid Operation)
    → get k m ≡ some v
    → Any (λ o. o ≡ v) (values m)
unfolding get values
values-Any k v [] h = cc
values-Any k v ((j, o) ∷ m) h = elim (Bool-cases (j == k)) [
  | inl here ↦ inl (cc (rw here at h))
  | inr there ↦ inr (values-Any k v m (rw there at h))
]
