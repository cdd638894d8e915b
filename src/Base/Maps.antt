-- ===== src/Base/Maps.antt =====
-- Rust's `HashMap` as an association list without repeated keys. The iteration order of the source
-- is unspecified; here it is the order of first insertion, and the theorems do not rest on it.
use mathlib.Core.Path.{◌≡◌, refl, subst}
use mathlib.Core.Logic.{◌↔◌, inl, inr}
use mathlib.Core.Bool.{Bool, true}
use mathlib.Core.Option.{Option, none, some}
use mathlib.Core.List.{List, [], ◌∷◌, foldl}
use Prim.Native.Nat.{ℕ}
use native.Mathlib.Omega.{arith}
use lend_worker_stellar.Base.Tests.{◌==◌, ==_iff, if◌then◌else◌, Bool-cases}
use lend_worker_stellar.Base.Lists.{All}
use lend_worker_stellar.Base.Int.{ℤ, eqb_ℤ, eqb_ℤ_iff}
use lend_worker_stellar.Base.Strings.{Text, text_eq}
use lend_worker_stellar.Base.Strings.Search.{text_eq_iff}

-- `Eq` on the keys.
pub record KeyEq (K : Type 0) : Type 0 where
  pub beq : K → K → Bool
  pub beq_iff : (a b : K) → (beq a b ≡ true) ↔ (a ≡ b)

instance abbrev pub nat_key : KeyEq ℕ
nat_key = record { beq = ◌==◌; beq_iff = ==_iff }

instance abbrev pub int_key : KeyEq ℤ
int_key = record { beq = eqb_ℤ; beq_iff = eqb_ℤ_iff }

instance abbrev pub text_key : KeyEq Text
text_key = record { beq = text_eq; beq_iff = text_eq_iff }

abbrev pub HashMap : Type 0 → Type 0 → Type 0
HashMap K V = List (K × V)

module _ {K V : Type 0} ⦃e : KeyEq K⦄ where
  unfoldable pub get : K → HashMap K V → Option V
  get k [] = none
  get k ((j, v) ∷ m) = if e.beq j k then some v else get k m

  unfoldable pub insert : K → V → HashMap K V → HashMap K V
  insert k v [] = (k, v) ∷ []
  insert k v ((j, w) ∷ m) = if e.beq j k then (j, v) ∷ m else (j, w) ∷ insert k v m

  pub get-insert :
      (k j : K) (v : V) (m : HashMap K V)
      → get j (insert k v m) ≡ (if e.beq k j then some v else get j m)
  unfolding get insert
  get-insert k j v [] = refl
  get-insert k j v ((i, w) ∷ m) =
      ground (arith, e.beq_iff k j, e.beq_iff i k, e.beq_iff i j, get-insert k j v m)

  -- `collect` from pairs: a later pair replaces an earlier one with its key.
  unfoldable pub collect : List (K × V) → HashMap K V
  unfolding insert
  collect = foldl (λ m p. insert p.0 p.1 m) []

-- What holds of every value that is entered holds of every value of the map.
module _ {K V : Type 0} ⦃e : KeyEq K⦄ (P : V → Type 0) where
  pub All-insert :
      (k : K) (v : V) (m : HashMap K V) → P v → All (λ p. P p.1) m → All (λ p. P p.1) (insert k v m)
  unfolding insert
  All-insert k v [] h r = (h, tt)
  All-insert k v ((j, w) ∷ m) h r = elim (Bool-cases (e.beq j k)) [
    | inl same ↦ rw same (h, r.1)
    | inr other ↦ rw other (r.0, All-insert k v m h r.1)
  ]

  foldl-All :
      (ps : List (K × V)) (m : HashMap K V)
      → All (λ p. P p.1) ps
      → All (λ p. P p.1) m
      → All (λ p. P p.1) (foldl (λ m p. insert p.0 p.1 m) m ps)
  foldl-All [] m h r = r
  foldl-All ((k, v) ∷ ps) m h r = foldl-All ps (insert k v m) h.1 (All-insert k v m h.0 r)

  pub All-collect : (ps : List (K × V)) → All (λ p. P p.1) ps → All (λ p. P p.1) (collect ps)
  unfolding collect
  All-collect ps h = foldl-All ps [] h tt

  pub All-get : (k : K) (v : V) (m : HashMap K V) → All (λ p. P p.1) m → get k m ≡ some v → P v
  unfolding get
  All-get k v [] r h = cc
  All-get k v ((j, w) ∷ m) r h = elim (Bool-cases (e.beq j k)) [
    | inl same ↦ let q : w ≡ v = cc (rw same at h) in subst P q r.0
    | inr other ↦ All-get k v m r.1 (rw other at h)
  ]

module _ {K V : Type 0} where
  unfoldable pub keys : HashMap K V → List K
  keys [] = []
  keys ((k, v) ∷ m) = k ∷ keys m

  unfoldable pub values : HashMap K V → List V
  values [] = []
  values ((k, v) ∷ m) = v ∷ values m

  pub All-values : (P : V → Type 0) (m : HashMap K V) → All (λ p. P p.1) m → All P (values m)
  unfolding values
  All-values P [] r = tt
  All-values P ((k, v) ∷ m) r = (r.0, All-values P m r.1)
