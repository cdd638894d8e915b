-- ===== src/Storage/Operations/Keyed.antt =====
-- The operations by their primary key, and the rows that a look-up of an operation's chain or of the
-- unfinished operations finds.
use mathlib.Core.Path.{subst}
use lend_worker_stellar.Base.{
  ℕ, zero, suc, ℤ, eqb_ℤ, Text, text_eq, true, Bool-cases, ◌&&◌, keep, Option-cases, some, List, [],
  ◌∷◌, map, get_elem?, All, ◌≡◌, ◌≢◌, refl, sym, ap, ◌∙◌, inl, inr, arith,
}
use lend_worker_stellar.Base.Strings.Search.{text_eq_iff}
use lend_worker_stellar.Config.Types.{Uuid}
use lend_worker_stellar.Config.Env.{stellar_chain_id}
use lend_worker_stellar.Domain.Operation.{SupportedChains}
use lend_worker_stellar.Storage.Tables.{OperationRow}
use lend_worker_stellar.Storage.Operations.{has_token, is_unfinished, add_chain, fop_ids}
use lend_worker_stellar.Storage.Operations.Aligned.{Alike, StillAs, Aligned}

-- `id` is the primary key of the operations.
abbrev pub IsKeyed : List OperationRow → Type 0
IsKeyed [] = Unit
IsKeyed (r ∷ l) = All (λ t. t.operation.id ≢ r.operation.id) l × IsKeyed l

-- Ids stay unique.
no_such_id :
    (k : Uuid) (ops ops' : List OperationRow)
    → Aligned Alike ops ops'
    → All (λ t. t.operation.id ≢ k) ops
    → All (λ t. t.operation.id ≢ k) ops'
no_such_id k [] [] a h = tt
no_such_id k [] (r ∷ l) a h = absurd a
no_such_id k (r ∷ l) [] a h = absurd a
no_such_id k (r ∷ ops) (r' ∷ ops') a h =
    (λ q. h.0 (sym a.0.id_eq ∙ q), no_such_id k ops ops' a.1 h.1)

pub Aligned-IsKeyed :
    (ops ops' : List OperationRow) → Aligned Alike ops ops' → IsKeyed ops → IsKeyed ops'
Aligned-IsKeyed [] [] a h = tt
Aligned-IsKeyed [] (r ∷ l) a h = absurd a
Aligned-IsKeyed (r ∷ l) [] a h = absurd a
Aligned-IsKeyed (r ∷ ops) (r' ∷ ops') a h = (
  subst (λ k. All (λ t. t.operation.id ≢ k) ops') (sym a.0.id_eq)
      (no_such_id r.operation.id ops ops' a.1 h.0),
  Aligned-IsKeyed ops ops' a.1 h.1,
)

pub add_chain-keeps :
    (op : ℤ) (token : Text) (r : OperationRow)
    → ((add_chain op token r).operation.id ≡ r.operation.id)
      × ((add_chain op token r).operation.factory_op_id ≡ r.operation.factory_op_id)
      × ((add_chain op token r).published ≡ r.published)
unfolding add_chain
add_chain-keeps op token r = (ground arith, ground arith, ground arith)

no_such_id-map :
    (k : Uuid) (op : ℤ) (token : Text) (ops : List OperationRow)
    → All (λ t. t.operation.id ≢ k) ops
    → All (λ t. t.operation.id ≢ k) (map (add_chain op token) ops)
no_such_id-map k op token [] h = tt
no_such_id-map k op token (r ∷ ops) h =
    (λ q. h.0 (sym (add_chain-keeps op token r).0 ∙ q), no_such_id-map k op token ops h.1)

pub IsKeyed-map :
    (op : ℤ) (token : Text) (ops : List OperationRow)
    → IsKeyed ops
    → IsKeyed (map (add_chain op token) ops)
IsKeyed-map op token [] h = tt
IsKeyed-map op token (r ∷ ops) h = (
  subst (λ k. All (λ t. t.operation.id ≢ k) (map (add_chain op token) ops))
      (sym (add_chain-keeps op token r).0) (no_such_id-map r.operation.id op token ops h.0),
  IsKeyed-map op token ops h.1,
)

pub has_token-get_elem? :
    (token : Text) (chains : List SupportedChains)
    → has_token token chains ≡ true
    → (j : ℕ) × (c : SupportedChains) × (get_elem? chains j ≡ some c) × (c.op_token ≡ token)
has_token-get_elem? token [] h = cc
has_token-get_elem? token (c ∷ chains) h =
    elim (Bool-cases (text_eq c.op_token token && eqb_ℤ c.chain_id stellar_chain_id)) [
      | inl e ↦ (0, c, refl, ground (arith, text_eq_iff c.op_token token))
      | inr e ↦
          let (j, d, at, same) = has_token-get_elem? token chains (ground arith) in
          (suc j, d, at, same)
    ]

-- The ids of the unfinished published operations.
abbrev pub unfinished : List OperationRow → List ℤ
unfinished ops = fop_ids (keep (λ r. is_unfinished r.operation.funding_status && r.published) ops)

pub unfinished-StillAs :
    (ops ops' : List OperationRow) → Aligned StillAs ops ops' → unfinished ops' ≡ unfinished ops
unfolding fop_ids
unfinished-StillAs [] [] a = refl
unfinished-StillAs [] (r ∷ l) a = absurd a
unfinished-StillAs (r ∷ l) [] a = absurd a
unfinished-StillAs (r ∷ ops) (r' ∷ ops') ((alike, status_eq), a) =
    let rest = unfinished-StillAs ops ops' a in
    let same : (is_unfinished r'.operation.funding_status && r'.published)
        ≡ (is_unfinished r.operation.funding_status && r.published) =
      rw (status_eq, alike.published_eq) refl in
    elim (Bool-cases (is_unfinished r.operation.funding_status && r.published)) [
      | inr hidden ↦ rw (same, hidden) rest
      | inl seen ↦ elim (Option-cases r.operation.factory_op_id) [
        | inl n ↦ rw (same, seen, fop_ids, alike.fop_eq, n) rest
        | inr (id, n) ↦ rw (same, seen, fop_ids, alike.fop_eq, n) (ap (λ l. id ∷ l) rest)
      ]
    ]

-- An unfinished published operation is among the unfinished ones.
pub some_unfinished :
    (ops : List OperationRow) (i : ℕ) (row : OperationRow) (fop : ℤ)
    → get_elem? ops i ≡ some row
    → row.operation.factory_op_id ≡ some fop
    → row.published ≡ true
    → is_unfinished row.operation.funding_status ≡ true
    → (op : ℤ) × (l : List ℤ) × (fop_ids
          (keep (λ r. is_unfinished r.operation.funding_status && r.published) ops)
        ≡ op ∷ l)
unfolding fop_ids
some_unfinished [] i row fop at f p u = cc
some_unfinished (r ∷ ops) zero row fop at f p u =
    let q : r ≡ row = cc in
    let kept : is_unfinished r.operation.funding_status && r.published ≡ true = rw (q, u, p) refl in
    let listed : r.operation.factory_op_id ≡ some fop = rw q f in
    (
      fop,
      fop_ids (keep (λ r. is_unfinished r.operation.funding_status && r.published) ops),
      rw (kept, fop_ids, listed) refl,
    )
some_unfinished (r ∷ ops) (suc i) row fop at f p u =
    let (op, l, later) = some_unfinished ops i row fop at f p u in
    elim (Bool-cases (is_unfinished r.operation.funding_status && r.published)) [
      | inr hidden ↦ (op, l, rw hidden later)
      | inl seen ↦ elim (Option-cases r.operation.factory_op_id) [
        | inl none_eq ↦ (op, l, rw (seen, fop_ids, none_eq) later)
        | inr (other, some_eq) ↦ (
          other,
          fop_ids (keep (λ r. is_unfinished r.operation.funding_status && r.published) ops),
          rw (seen, fop_ids, some_eq) refl,
        )
      ]
    ]
