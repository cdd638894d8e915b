-- ===== src/Base/Strings/Search.antt =====
-- Laws of equality, searching and trimming.
use Prim.Native.Nat.{ℕ}
use mathlib.Core.Path.{◌≡◌, refl}
use mathlib.Core.Logic.{◌↔◌, ◌≢◌}
use mathlib.Core.Bool.{true, false}
use mathlib.Core.Option.{none, some}
use mathlib.Core.List.{[], ◌∷◌, ◌++◌}
use native.Mathlib.Omega.{arith}
use lend_worker_stellar.Base.Tests.{==_iff}
use lend_worker_stellar.Base.Lists.{All, take_while}
use lend_worker_stellar.Base.Strings.{
  Text, text_eq, is_empty, is_space, is_digit, trim_end, strip_prefix, split_once,
}

pub text_eq_refl : (s : Text) → text_eq s s ≡ true
unfolding text_eq
text_eq_refl [] = refl
text_eq_refl (a ∷ s) = ground (arith, text_eq_refl s)

text_eq_sound : (s t : Text) → text_eq s t ≡ true → s ≡ t
unfolding text_eq
text_eq_sound [] [] h = refl
text_eq_sound [] (b ∷ t) h = cc
text_eq_sound (a ∷ s) [] h = cc
text_eq_sound (a ∷ s) (b ∷ t) h = ground (arith, text_eq_sound s t, ==_iff a b)

pub text_eq_iff : (s t : Text) → (text_eq s t ≡ true) ↔ (s ≡ t)
text_eq_iff s t = (text_eq_sound s t, λ e. rw e (text_eq_refl t))

-- A pattern matches in front of whatever follows it.
pub strip_prefix-append : (p t : Text) → strip_prefix p (p ++ t) ≡ some t
unfolding strip_prefix
strip_prefix-append [] t = refl
strip_prefix-append (a ∷ p) t = ground (arith, strip_prefix-append p t)

-- A pattern that avoids `h` and does not match `p` does not match `p` with `h` behind it.
strip_prefix-extend :
    (h : ℕ) (m p r : Text)
    → All (λ c. c ≢ h) m
    → strip_prefix m p ≡ none
    → strip_prefix m (p ++ h ∷ r) ≡ none
unfolding strip_prefix
strip_prefix-extend h [] p r a e = cc
strip_prefix-extend h (x ∷ m) [] r a e = ground (arith, ==_iff x h)
strip_prefix-extend h (x ∷ m) (c ∷ p) r a e = ground (arith, strip_prefix-extend h m p r a.1)

-- A needle whose first character does not come back in it is found right behind any text that does
-- not hold it: no occurrence can straddle the seam.
pub split_once-append :
    (h : ℕ) (m p r : Text)
    → All (λ c. c ≢ h) m
    → split_once (h ∷ m) p ≡ none
    → split_once (h ∷ m) (p ++ (h ∷ (m ++ r))) ≡ some (p, r)
unfolding split_once strip_prefix
split_once-append h m [] r a e = ground (arith, strip_prefix-append m r, ==_iff h h)
split_once-append h m (c ∷ p) r a e =
    ground (arith, strip_prefix-extend h m p (m ++ r) a, split_once-append h m p r a)

pub digit_not_space : (c : ℕ) → is_digit c ≡ true → is_space c ≡ false
unfolding is_space
digit_not_space c h = ground arith

-- Trimming the end does not touch a leading run of digits.
pub take_while-trim_end : (t : Text) → take_while is_digit (trim_end t) ≡ take_while is_digit t
unfolding trim_end is_empty
take_while-trim_end [] = refl
take_while-trim_end (c ∷ t) = ground (arith, take_while-trim_end t, digit_not_space c)

-- A needle whose first character does not occur is not found.
pub split_once-none : (h : ℕ) (m p : Text) → All (λ c. c ≢ h) p → split_once (h ∷ m) p ≡ none
unfolding split_once strip_prefix
split_once-none h m [] a = refl
split_once-none h m (c ∷ p) a = ground (arith, split_once-none h m p a.1, ==_iff h c)

-- Nor is it found behind such a text, if what follows does not hold it.
pub split_once-skip :
    (h : ℕ) (m p r : Text)
    → All (λ c. c ≢ h) p
    → split_once (h ∷ m) r ≡ none
    → split_once (h ∷ m) (p ++ r) ≡ none
unfolding split_once strip_prefix
split_once-skip h m [] r a e = e
split_once-skip h m (c ∷ p) r a e = ground (arith, split_once-skip h m p r a.1 e, ==_iff h c)
