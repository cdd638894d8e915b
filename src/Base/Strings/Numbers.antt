-- ===== src/Base/Strings/Numbers.antt =====
-- Decimal printing and parsing are inverse.
use Prim.Native.Nat.{ℕ, zero, suc, ◌+◌, ◌-◌, ◌*◌, ◌/◌, ◌%◌, ◌<◌}
use mathlib.Core.Path.{◌≡◌, refl, ◌∙◌, ap, sym}
use mathlib.Core.Logic.{◌≢◌, inl, inr}
use mathlib.Core.Bool.{true, false}
use mathlib.Core.Option
use mathlib.Core.Option.{none, some}
use mathlib.Core.List.{[], ◌∷◌, ◌++◌}
use native.Mathlib.Omega.{arith}
use lend_worker_stellar.Base.Tests.{ltb, ◌==◌, Bool-cases}
use lend_worker_stellar.Base.Lists.{All, take_while}
use lend_worker_stellar.Base.Int.{ℤ, pos, negsuc, i32_half}
use lend_worker_stellar.Base.Strings.{
  Text, is_digit, digits_go, show_ℕ, show_ℤ, parse_go, parse_digits, parse_ℕ, parse_ℤ, in_range,
  parse_i32,
}

digit_value : (d : ℕ) → d < 10 → (is_digit (48 + d) ≡ true) × (48 + d - 48 ≡ d)
digit_value d h = ground arith

parse_go-digit : (a d : ℕ) (t : Text) → d < 10 → parse_go a ((48 + d) ∷ t) ≡ parse_go (a * 10 + d) t
unfolding parse_go
parse_go-digit a d t h = rw ((digit_value d h).0, (digit_value d h).1)

digits_go-parse : (f n : ℕ) (acc : Text) → n < f → parse_go 0 (digits_go f n acc) ≡ parse_go n acc
unfolding digits_go
digits_go-parse zero n acc h = absurd (omega arith)
digits_go-parse (suc f) n acc h = elim (Bool-cases (ltb n 10)) [
  | inl small ↦
      rw small (parse_go-digit 0 n acc (ground arith) ∙ ap (λ x. parse_go x acc) (omega arith))
  | inr big ↦ rw big (
      digits_go-parse f (n / 10) ((48 + n % 10) ∷ acc) (ground arith)
      ∙ parse_go-digit (n / 10) (n % 10) acc (omega arith)
      ∙ ap (λ x. parse_go x acc) (omega arith))
]

-- The text of a number is never empty, holds digits only, and ends in what it was put in front of.
digits_go_shape :
    (f n : ℕ) (acc : Text)
    → n < f
    → (c : ℕ) × (t : Text) × (digits_go f n acc ≡ c ∷ t) × (is_digit c ≡ true)
unfolding digits_go
digits_go_shape zero n acc h = absurd (omega arith)
digits_go_shape (suc f) n acc h = elim (Bool-cases (ltb n 10)) [
  | inl small ↦ (48 + n, acc, rw small, ground arith)
  | inr big ↦ rw big (digits_go_shape f (n / 10) ((48 + n % 10) ∷ acc) (ground arith))
]

digits_go-append : (f n : ℕ) (acc r : Text) → digits_go f n (acc ++ r) ≡ digits_go f n acc ++ r
unfolding digits_go
digits_go-append zero n acc r = refl
digits_go-append (suc f) n acc r =
    ground (arith, digits_go-append f (n / 10) ((48 + n % 10) ∷ acc) r)

digits_go-All :
    (f n : ℕ) (acc : Text)
    → All (λ c. is_digit c ≡ true) acc
    → All (λ c. is_digit c ≡ true) (digits_go f n acc)
unfolding digits_go
digits_go-All zero n acc h = h
digits_go-All (suc f) n acc h = elim (Bool-cases (ltb n 10)) [
  | inl small ↦ rw small (ground arith, h)
  | inr big ↦ rw big (digits_go-All f (n / 10) ((48 + n % 10) ∷ acc) (ground arith, h))
]

pub show_ℕ-All : (n : ℕ) → All (λ c. is_digit c ≡ true) (show_ℕ n)
unfolding show_ℕ
show_ℕ-All n = digits_go-All (suc n) n [] tt

pub show_ℕ_shape : (n : ℕ) → (c : ℕ) × (t : Text) × (show_ℕ n ≡ c ∷ t) × (is_digit c ≡ true)
unfolding show_ℕ
show_ℕ_shape n = digits_go_shape (suc n) n [] (omega arith)

parse_digits-cons : (s t : Text) {c : ℕ} → s ≡ c ∷ t → parse_digits s ≡ parse_go 0 s
unfolding parse_digits
parse_digits-cons s t {c} e = rw e

-- Reading back the decimal text of a number gives the number.
pub parse_digits-show_ℕ : (n : ℕ) → parse_digits (show_ℕ n) ≡ some n
unfolding show_ℕ parse_go
parse_digits-show_ℕ n =
    let (c, t, e, d) = show_ℕ_shape n in
    parse_digits-cons (show_ℕ n) t e ∙ digits_go-parse (suc n) n [] (omega arith)

digit_no_plus : (c : ℕ) → is_digit c ≡ true → ((c == b'+') ≡ false) × ((c == b'-') ≡ false)
digit_no_plus c h = ground arith

-- A text that begins with a digit is read as an unsigned number, whatever the parser's signs.
parse_ℤ-digits :
    (c : ℕ) (t : Text) → is_digit c ≡ true → parse_ℤ (c ∷ t) ≡ Option.map pos (parse_digits (c ∷ t))
unfolding parse_ℤ parse_ℕ
parse_ℤ-digits c t h = rw ((digit_no_plus c h).0, (digit_no_plus c h).1)

pub parse_ℕ-show_ℕ : (n : ℕ) → parse_ℕ (show_ℕ n) ≡ some n
unfolding parse_ℕ
parse_ℕ-show_ℕ n =
    let (c, t, e, d) = show_ℕ_shape n in
    rw (e, (digit_no_plus c d).0) (ap parse_digits (sym e) ∙ parse_digits-show_ℕ n)

pub parse_ℤ-show_ℕ : (n : ℕ) → parse_ℤ (show_ℕ n) ≡ some (pos n)
parse_ℤ-show_ℕ n =
    let (c, t, e, d) = show_ℕ_shape n in
    rw e
      (parse_ℤ-digits c t d ∙ ap (Option.map pos) (ap parse_digits (sym e) ∙ parse_digits-show_ℕ n))

-- Printing a signed number and reading it back gives the number.
pub parse_ℤ-show_ℤ : (z : ℤ) → parse_ℤ (show_ℤ z) ≡ some z
unfolding show_ℤ
parse_ℤ-show_ℤ (pos n) = parse_ℤ-show_ℕ n
parse_ℤ-show_ℤ (negsuc n) = unfold parse_ℤ in rw (parse_digits-show_ℕ (suc n))

pub show_ℤ-injective : (a b : ℤ) → show_ℤ a ≡ show_ℤ b → a ≡ b
show_ℤ-injective a b e = cc (parse_ℤ-show_ℤ a, parse_ℤ-show_ℤ b, ap parse_ℤ e)

-- Printed numbers hold digits and a sign only.
abbrev InNumber : ℕ → Type 0
InNumber c = c ≢ b'#'

All-InNumber : (t : Text) → All (λ c. is_digit c ≡ true) t → All InNumber t
All-InNumber [] h = tt
All-InNumber (c ∷ t) h = (ground arith, All-InNumber t h.1)

pub show_ℤ-no_hash : (z : ℤ) → All (λ c. c ≢ b'#') (show_ℤ z)
unfolding show_ℤ
show_ℤ-no_hash (pos n) = All-InNumber (show_ℕ n) (show_ℕ-All n)
show_ℤ-no_hash (negsuc n) = (ground arith, All-InNumber (show_ℕ (suc n)) (show_ℕ-All (suc n)))

-- A sequence number that fits survives printing and `parse::<i32>()`.
pub parse_i32-show_ℕ : (n : ℕ) → n < i32_half → parse_i32 (show_ℕ n) ≡ some (pos n)
unfolding parse_i32 in_range
parse_i32-show_ℕ n h = rw (parse_ℤ-show_ℕ n) (ground arith)

pub take_while-digits :
    (s r : Text)
    → All (λ c. is_digit c ≡ true) s
    → take_while is_digit r ≡ []
    → take_while is_digit (s ++ r) ≡ s
take_while-digits [] r h e = e
take_while-digits (c ∷ s) r h e = ground (arith, take_while-digits s r h.1 e)
