-- ===== src/Base/Strings.antt =====
-- Rust's `String` and `&str` as lists of code points, with the operations of `str` that the sources
-- call. A code point order on these lists is the byte order on their UTF-8 form.
pub mod Numbers
pub mod Search
use Prim.Native.Nat.{ℕ, zero, suc, ◌+◌, ◌-◌, ◌*◌, ◌/◌, ◌%◌, compare, Ordering}
use Prim.Native.Char.{code}
use Prim.Native.String.{String}
use mathlib.Core.Bool.{Bool, true, false, ◌&&◌, ◌||◌}
use mathlib.Core.Option
use mathlib.Core.Option.{Option, none, some}
use mathlib.Core.List.{List, [], ◌∷◌}
use lend_worker_stellar.Base.Tests.{ltb, leb, ◌==◌, if◌then◌else◌}
use lend_worker_stellar.Base.Int.{ℤ, pos, negsuc, fits, i32_half, i64_half}

abbrev pub Text : Type 0
Text = List ℕ

-- A string literal.
unfoldable pub lit : String → Text
lit String.[] = []
lit (String.◌∷◌ c s) = code c ∷ lit s

unfoldable pub text_eq : Text → Text → Bool
text_eq [] [] = true
text_eq (a ∷ s) (b ∷ t) = if a == b then text_eq s t else false
text_eq s t = false

-- `is_empty`
unfoldable pub is_empty : Text → Bool
is_empty [] = true
is_empty (c ∷ t) = false

-- `a <= b` in `Ord for str`
unfoldable pub text_leb : Text → Text → Bool
text_leb [] t = true
text_leb (a ∷ s) [] = false
text_leb (a ∷ s) (b ∷ t) =
    let rest = text_leb s t in
    elim (compare a b) [ Ordering.lt ↦ true | Ordering.eq ↦ rest | Ordering.gt ↦ false ]

-- `char::is_ascii_digit`
abbrev pub is_digit : ℕ → Bool
is_digit c = leb 48 c && leb c 57

-- `char::is_whitespace`
unfoldable pub is_space : ℕ → Bool
is_space c =
    leb 9 c && leb c 13
    || c == 32
    || c == 0x85
    || c == 0xa0
    || c == 0x1680
    || leb 0x2000 c && leb c 0x200a
    || c == 0x2028
    || c == 0x2029
    || c == 0x202f
    || c == 0x205f
    || c == 0x3000

unfoldable pub trim_start : Text → Text
trim_start [] = []
trim_start (c ∷ t) = if is_space c then trim_start t else c ∷ t

-- A space goes if nothing is left behind it.
unfoldable pub trim_end : Text → Text
trim_end [] = []
trim_end (c ∷ t) = let r = trim_end t in if is_space c && is_empty r then [] else c ∷ r

-- `str::trim`
unfoldable pub trim : Text → Text
trim t = trim_end (trim_start t)

-- `str::strip_prefix`
unfoldable pub strip_prefix : Text → Text → Option Text
strip_prefix [] t = some t
strip_prefix (a ∷ p) [] = none
strip_prefix (a ∷ p) (b ∷ t) = if a == b then strip_prefix p t else none

-- `str::split_once`: what stands before the first occurrence of the needle, and what behind.
unfoldable pub split_once : Text → Text → Option (Text × Text)
unfolding strip_prefix
split_once n [] = Option.map (λ r. ([], r)) (strip_prefix n [])
split_once n (c ∷ t) =
    let later = Option.map (λ (w : Text × Text). (c ∷ w.0, w.1)) (split_once n t) in
    elim (strip_prefix n (c ∷ t)) [ some r ↦ some ([], r) | none ↦ later ]

-- `split(n).next()`
unfoldable pub split_first : Text → Text → Text
unfolding split_once
split_first n t = elim (split_once n t) [ some w ↦ w.0 | none ↦ t ]

-- `split(n).nth(1)`: between the first occurrence and the second, or the end.
unfoldable pub split_second : Text → Text → Option Text
unfolding split_once split_first
split_second n t = Option.map (λ (w : Text × Text). split_first n w.1) (split_once n t)

-- `str::contains`
unfoldable pub contains : Text → Text → Bool
unfolding split_once
contains t n = elim (split_once n t) [ some _ ↦ true | none ↦ false ]

-- What stands behind the last `c` of the text, and `whole` if there is none.
unfoldable pub after_last : ℕ → Text → Text → Text
after_last c [] whole = whole
after_last c (a ∷ t) whole = after_last c t (if a == c then t else whole)

-- `rsplit(c).next()`: what stands behind the last occurrence of a character, or the whole.
unfoldable pub rsplit_first : ℕ → Text → Text
unfolding after_last
rsplit_first c t = after_last c t t

-- `ToString` of an unsigned integer: the digits in front of `acc`. `n + 1` rounds are enough.
unfoldable pub digits_go : ℕ → ℕ → Text → Text
digits_go zero n acc = acc
digits_go (suc f) n acc =
    let rest = digits_go f (n / 10) ((48 + n % 10) ∷ acc) in
    if ltb n 10 then (48 + n) ∷ acc else rest

unfoldable pub show_ℕ : ℕ → Text
unfolding digits_go
show_ℕ n = digits_go (suc n) n []

-- `ToString` of a signed integer
unfoldable pub show_ℤ : ℤ → Text
unfolding show_ℕ
show_ℤ (pos n) = show_ℕ n
show_ℤ (negsuc n) = b'-' ∷ show_ℕ (suc n)

-- The value of a run of digits; `none` at any other character.
unfoldable pub parse_go : ℕ → Text → Option ℕ
parse_go a [] = some a
parse_go a (c ∷ t) = if is_digit c then parse_go (a * 10 + (c - 48)) t else none

unfoldable pub parse_digits : Text → Option ℕ
unfolding parse_go
parse_digits [] = none
parse_digits (c ∷ t) = parse_go 0 (c ∷ t)

-- `FromStr` of an unsigned integer of any width: a sign `+` is accepted, then digits.
unfoldable pub parse_ℕ : Text → Option ℕ
unfolding parse_digits
parse_ℕ [] = none
parse_ℕ (c ∷ t) = if c == b'+' then parse_digits t else parse_digits (c ∷ t)

abbrev negated : ℕ → ℤ
negated zero = pos 0
negated (suc n) = negsuc n

-- `FromStr` of a signed integer of any width
unfoldable pub parse_ℤ : Text → Option ℤ
unfolding parse_ℕ
parse_ℤ [] = none
parse_ℤ (c ∷ t) =
    if c == b'-' then Option.map negated (parse_digits t) else Option.map pos (parse_ℕ (c ∷ t))

-- An out-of-range value is an error.
unfoldable pub in_range : ℕ → Option ℤ → Option ℤ
in_range half none = none
in_range half (some z) = if fits half z then some z else none

-- `parse::<i32>().ok()`
unfoldable pub parse_i32 : Text → Option ℤ
unfolding parse_ℤ in_range
parse_i32 t = in_range i32_half (parse_ℤ t)

-- `parse::<i64>().ok()`
unfoldable pub parse_i64 : Text → Option ℤ
unfolding parse_ℤ in_range
parse_i64 t = in_range i64_half (parse_ℤ t)
