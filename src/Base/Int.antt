-- ===== src/Base/Int.antt =====
-- Signed integers over the native numbers, and the two's-complement wrap of the machine widths
-- that the sources use (i32, i64, i128). A release build wraps on overflow.
use Prim.Native.Nat.{ℕ, suc, ◌+◌, ◌-◌, ◌%◌, ◌^◌, ◌≤◌, ◌<◌}
use mathlib.Core.Path.{◌≡◌}
use mathlib.Core.Logic.{◌↔◌}
use mathlib.Core.Bool.{Bool, true}
use native.Mathlib.Omega.{arith}
use lend_worker_stellar.Base.Tests.{ltb, leb, ◌==◌, if◌then◌else◌}

-- `negsuc n` is -(n + 1).
pub data ℤ : Type 0 where
  pos : ℕ → ℤ
  negsuc : ℕ → ℤ

abbrev pub pos_part : ℤ → ℕ
pos_part (pos n) = n
pos_part (negsuc n) = 0

abbrev pub neg_part : ℤ → ℕ
neg_part (pos n) = 0
neg_part (negsuc n) = suc n

-- a - b, as an integer.
abbrev pub sub_ℕ : ℕ → ℕ → ℤ
sub_ℕ a b = if leb b a then pos (a - b) else negsuc (b - a - 1)

infixl 65 ◌+ℤ◌ ◌-ℤ◌
infix 50 ◌≤ℤ◌ ◌<ℤ◌
unfoldable pub ◌+ℤ◌ : ℤ → ℤ → ℤ
a +ℤ b = sub_ℕ (pos_part a + pos_part b) (neg_part a + neg_part b)

unfoldable pub ◌-ℤ◌ : ℤ → ℤ → ℤ
a -ℤ b = sub_ℕ (pos_part a + neg_part b) (neg_part a + pos_part b)

abbrev pub ◌≤ℤ◌ : ℤ → ℤ → Type 0
a ≤ℤ b = pos_part a + neg_part b ≤ pos_part b + neg_part a

abbrev pub ◌<ℤ◌ : ℤ → ℤ → Type 0
a <ℤ b = pos_part a + neg_part b < pos_part b + neg_part a

abbrev pub ltb_ℤ : ℤ → ℤ → Bool
ltb_ℤ a b = ltb (pos_part a + neg_part b) (pos_part b + neg_part a)

abbrev pub leb_ℤ : ℤ → ℤ → Bool
leb_ℤ a b = leb (pos_part a + neg_part b) (pos_part b + neg_part a)

abbrev pub eqb_ℤ : ℤ → ℤ → Bool
eqb_ℤ a b = (pos_part a + neg_part b) == (pos_part b + neg_part a)

-- `Ord::max` and `Ord::min`
unfoldable pub max_ℤ : ℤ → ℤ → ℤ
max_ℤ a b = if ltb_ℤ b a then a else b

unfoldable pub min_ℤ : ℤ → ℤ → ℤ
min_ℤ a b = if ltb_ℤ b a then b else a

-- The low bits of the two's-complement pattern, and the integer that a pattern stands for.
abbrev pattern_of : ℕ → ℤ → ℕ
pattern_of modulus (pos n) = n % modulus
pattern_of modulus (negsuc n) = modulus - 1 - n % modulus

abbrev signed_of : ℕ → ℕ → ℕ → ℤ
signed_of modulus half w = if ltb w half then pos w else negsuc (modulus - 1 - w)

abbrev pub i32_half : ℕ
i32_half = 2 ^ 31

abbrev pub i64_half : ℕ
i64_half = 2 ^ 63

abbrev pub i128_half : ℕ
i128_half = 2 ^ 127

-- `as i32`, and what a release build stores when an i32 operation overflows
unfoldable pub wrap_i32 : ℤ → ℤ
wrap_i32 z = signed_of (2 ^ 32) i32_half (pattern_of (2 ^ 32) z)

unfoldable pub wrap_i64 : ℤ → ℤ
wrap_i64 z = signed_of (2 ^ 64) (2 ^ 63) (pattern_of (2 ^ 64) z)

unfoldable pub wrap_i128 : ℤ → ℤ
wrap_i128 z = signed_of (2 ^ 128) i128_half (pattern_of (2 ^ 128) z)

-- The value fits a signed width with 2 ^ (w - 1) = half.
abbrev pub Fits : ℕ → ℤ → Type 0
Fits half (pos n) = n < half
Fits half (negsuc n) = n < half

abbrev pub fits : ℕ → ℤ → Bool
fits half (pos n) = ltb n half
fits half (negsuc n) = ltb n half

-- i32 addition and subtraction
unfoldable pub add_i32 : ℤ → ℤ → ℤ
unfolding wrap_i32 ◌+ℤ◌
add_i32 a b = wrap_i32 (a +ℤ b)

unfoldable pub sub_i32 : ℤ → ℤ → ℤ
unfolding wrap_i32 ◌-ℤ◌
sub_i32 a b = wrap_i32 (a -ℤ b)

-- `i32::saturating_add`
unfoldable pub saturating_add_i32 : ℤ → ℤ → ℤ
unfolding ◌+ℤ◌
saturating_add_i32 a b =
    let s = a +ℤ b in
    if ltb_ℤ (pos (2 ^ 31 - 1)) s
    then pos (2 ^ 31 - 1)
    else if ltb_ℤ s (negsuc (2 ^ 31 - 1))
    then negsuc (2 ^ 31 - 1)
    else s

pub +ℤ_parts :
    (a b : ℤ)
    → pos_part (a +ℤ b) + neg_part a + neg_part b ≡ neg_part (a +ℤ b) + pos_part a + pos_part b
unfolding ◌+ℤ◌
+ℤ_parts a b = ground arith

pub -ℤ_parts :
    (a b : ℤ)
    → pos_part (a -ℤ b) + neg_part a + pos_part b ≡ neg_part (a -ℤ b) + pos_part a + neg_part b
unfolding ◌-ℤ◌
-ℤ_parts a b = ground arith

pub eq_of_parts : (a b : ℤ) → pos_part a + neg_part b ≡ pos_part b + neg_part a → a ≡ b
eq_of_parts a b h = ground arith

pub ruleset int_laws = (arith, +ℤ_parts, -ℤ_parts, eq_of_parts)

pub wrap_i32-of_Fits : (z : ℤ) → Fits i32_half z → wrap_i32 z ≡ z
unfolding wrap_i32
wrap_i32-of_Fits z h = ground arith

pub max_ℤ-bounds : (a b : ℤ) → (a ≤ℤ max_ℤ a b) × (b ≤ℤ max_ℤ a b)
unfolding max_ℤ
max_ℤ-bounds a b = ground arith

pub add_i32-one : (z : ℤ) → Fits i32_half z → z <ℤ pos (2 ^ 31 - 1) → add_i32 z (pos 1) ≡ z +ℤ pos 1
unfolding add_i32 ◌+ℤ◌
add_i32-one z h k = ground arith

pub eqb_ℤ_iff : (a b : ℤ) → (eqb_ℤ a b ≡ true) ↔ (a ≡ b)
eqb_ℤ_iff a b = ground arith
