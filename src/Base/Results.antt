-- ===== src/Base/Results.antt =====
-- `eyre::Result` and `sqlx::Result`: a value, or an error by its message.
use mathlib.Core.Path.{◌≡◌, refl}
use Prim.Native.Nat.{ℕ}
use mathlib.Core.Logic.{◌⊎◌, inl, inr}
use mathlib.Core.Option
use mathlib.Core.Option.{Option, none, some}
use mathlib.Core.List.{List, [], ◌∷◌, map}
use lend_worker_stellar.Base.Strings.{Text}

pub data Result (A : Type 0) : Type 0 where
  ok : A → Result A
  err : Text → Result A

infixl 5 ◌>>=◌
abbrev pub ◌>>=◌ : {A B : Type 0} → Result A → (A → Result B) → Result B
ok a >>= f = f a
err e >>= f = err e

-- `ok_or_else`
abbrev pub ok_or : {A : Type 0} → Text → Option A → Result A
ok_or e none = err e
ok_or e (some a) = ok a

-- `Result::ok`
abbrev pub to_option : {A : Type 0} → Result A → Option A
to_option (ok a) = some a
to_option (err e) = none

-- `unwrap_or` on an option and on a result
abbrev pub unwrap_or {ℓ} : {A : Type ℓ} → A → Option A → A
unwrap_or d none = d
unwrap_or d (some a) = a

abbrev pub result_or : {A : Type 0} → A → Result A → A
result_or d (ok a) = a
result_or d (err e) = d

-- `map_err`
abbrev pub map_err : {A : Type 0} → (Text → Text) → Result A → Result A
map_err f (ok a) = ok a
map_err f (err e) = err (f e)

-- `collect::<Result<Vec<_>, _>>`: the first failure ends it.
unfoldable pub collect_all : {A B : Type 0} → (A → Result B) → List A → Result (List B)
collect_all f [] = ok []
collect_all f (x ∷ xs) = do let rest = collect_all f xs; y ← f x; ys ← rest; ok (y ∷ ys)

pub collect_all-map :
    {A B : Type 0} (f : A → Result B) (g : A → B) (xs : List A)
    → ((x : A) → f x ≡ ok (g x))
    → collect_all f xs ≡ ok (map g xs)
unfolding collect_all
collect_all-map f g [] h = refl
collect_all-map f g (x ∷ xs) h = rw (h x, collect_all-map f g xs h)

-- To split on a computed result and keep the equation.
pub Result-cases : {A : Type 0} (r : Result A) → ((a : A) × (r ≡ ok a)) ⊎ ((e : Text) × (r ≡ err e))
Result-cases (ok a) = inl (a, refl)
Result-cases (err e) = inr (e, refl)

-- What a run on fuel came to, with the equation: out of fuel, a value, or a failure.
pub data OutcomeView {A : Type 0} (o : Option (Result A × ℕ)) : Type 0 where
  out_of_fuel : o ≡ none → OutcomeView o
  done : (a : A) (n : ℕ) → o ≡ some (ok a, n) → OutcomeView o
  failed : (e : Text) (n : ℕ) → o ≡ some (err e, n) → OutcomeView o

pub Outcome-view : {A : Type 0} (o : Option (Result A × ℕ)) → OutcomeView o
Outcome-view none = out_of_fuel refl
Outcome-view (some (ok a, n)) = done a n refl
Outcome-view (some (err e, n)) = failed e n refl

pub map-some :
    {A B : Type 0} {f : A → B} (o : Option A) {y : B}
    → Option.map f o ≡ some y
    → (x : A) × (o ≡ some x) × (f x ≡ y)
map-some none h = cc
map-some (some x) h = (x, refl, cc)
