-- ===== src/Chain/EventSource/Range/Message.antt =====
-- The two bounds of a rejection are read back from its message.
use lend_worker_stellar.Base.{
  ℕ, ◌<◌, pos, i32_half, Text, lit, show_ℕ, is_digit, is_space, trim, trim_start, trim_end,
  split_once, split_first, split_second, take_while, All, All-append, ◌≡◌, ◌≢◌, refl, sym, ap, ◌∙◌,
  true, false, none, some, [], ◌∷◌, ◌++◌, arith,
}
use mathlib.Core.List.{append_assoc}
use lend_worker_stellar.Base.Strings.Search.{
  split_once-append, split_once-none, split_once-skip, take_while-trim_end, digit_not_space,
}
use lend_worker_stellar.Base.Strings.Numbers.{
  show_ℕ-All, show_ℕ_shape, parse_i32-show_ℕ, take_while-digits,
}
use lend_worker_stellar.Chain.EventSource.Range.{leading_i32, pair_of, range_of, parse_ledger_range}

trim_start-digit : (c : ℕ) (s : Text) → is_digit c ≡ true → trim_start (c ∷ s) ≡ c ∷ s
unfolding trim_start
trim_start-digit c s h = rw (digit_not_space c h)

trim_start-show_ℕ : (n : ℕ) (r : Text) → trim_start (show_ℕ n ++ r) ≡ show_ℕ n ++ r
trim_start-show_ℕ n r = let (c, t, e, d) = show_ℕ_shape n in rw e (trim_start-digit c (t ++ r) d)

trim-space : (s : Text) → trim (b' ' ∷ s) ≡ trim_end (trim_start s)
unfolding trim trim_start is_space
trim-space s = refl

-- A number behind one space is read whatever follows its digits.
leading_i32-show_ℕ :
    (n : ℕ) (r : Text)
    → n < i32_half
    → take_while is_digit r ≡ []
    → leading_i32 (b' ' ∷ (show_ℕ n ++ r)) ≡ some (pos n)
leading_i32-show_ℕ n r h e =
    unfold leading_i32 in
    rw
      (
        trim-space,
        trim_start-show_ℕ n r,
        take_while-trim_end,
        take_while-digits (show_ℕ n) r (show_ℕ-All n) e,
      )
      (parse_i32-show_ℕ n h)

-- " LOW - HIGH", as the RPC prints it
pub bounds : ℕ → ℕ → Text → Text
bounds low high rest = b' ' ∷ (show_ℕ low ++ (b' ' ∷ (b'-' ∷ (b' ' ∷ (show_ℕ high ++ rest)))))

All-no :
    (d : ℕ) (t : Text) → is_digit d ≡ false → All (λ c. is_digit c ≡ true) t → All (λ c. c ≢ d) t
All-no d [] n h = tt
All-no d (c ∷ t) n h = (ground arith, All-no d t n h.1)

-- What stands in front of the dash, and what behind it.
low_part : ℕ → Text
low_part low = b' ' ∷ (show_ℕ low ++ (b' ' ∷ []))

high_part : ℕ → Text → Text
high_part high rest = b' ' ∷ (show_ℕ high ++ rest)

split_once-bounds_dash :
    (low high : ℕ) (rest : Text)
    → split_once (b'-' ∷ []) (bounds low high rest) ≡ some (low_part low, high_part high rest)
unfolding bounds low_part high_part
split_once-bounds_dash low high rest =
    ap (λ t. split_once (b'-' ∷ []) (b' ' ∷ t))
      (sym (append_assoc (show_ℕ low) (b' ' ∷ []) (b'-' ∷ (b' ' ∷ (show_ℕ high ++ rest)))))
    ∙ split_once-append b'-' [] (b' ' ∷ (show_ℕ low ++ (b' ' ∷ []))) (b' ' ∷ (show_ℕ high ++ rest))
        tt
        (split_once-none b'-' [] (b' ' ∷ (show_ℕ low ++ (b' ' ∷ []))) (
          omega arith,
          All-append (λ c. c ≢ b'-') (show_ℕ low) (b' ' ∷ [])
              (All-no b'-' (show_ℕ low) refl (show_ℕ-All low)) (omega arith, tt),
        ))

range_of-split :
    (tail low high : Text)
    → split_once (lit "-") tail ≡ some (low, high)
    → range_of tail ≡ pair_of (leading_i32 low) (leading_i32 high)
unfolding range_of
range_of-split tail low high e = rw (e, range_of)

range_of-bounds :
    (low high : ℕ) (rest : Text)
    → low < i32_half
    → high < i32_half
    → take_while is_digit rest ≡ []
    → range_of (bounds low high rest) ≡ some (pos low, pos high)
unfolding low_part high_part lit
range_of-bounds low high rest hl hh e =
    range_of-split (bounds low high rest) _ _ (split_once-bounds_dash low high rest)
    ∙ rw (leading_i32-show_ℕ low (b' ' ∷ []) hl refl, leading_i32-show_ℕ high rest hh e)

-- The bounds hold no needle of their own.
split_once-bounds :
    (m : Text) (low high : ℕ) (rest : Text)
    → split_once (b'l' ∷ m) rest ≡ none
    → split_once (b'l' ∷ m) (bounds low high rest) ≡ none
unfolding bounds
split_once-bounds m low high rest e =
    split_once-skip b'l' m (b' ' ∷ []) _ (omega arith, tt)
      (split_once-skip b'l' m (show_ℕ low) _ (All-no b'l' (show_ℕ low) refl (show_ℕ-All low)) (
        split_once-skip b'l' m (b' ' ∷ (b'-' ∷ (b' ' ∷ []))) _ (omega arith) (
          split_once-skip b'l' m (show_ℕ high) rest
            (All-no b'l' (show_ℕ high) refl (show_ℕ-All high)) e)))

parse_ledger_range-split :
    (error before tail : Text)
    → split_once (lit "ledger range:") error ≡ some (before, tail)
    → split_once (lit "ledger range:") tail ≡ none
    → parse_ledger_range error ≡ range_of tail
unfolding parse_ledger_range split_second split_first
parse_ledger_range-split error before tail e f =
    rw (e, parse_ledger_range, split_second) (rw (f, split_first))

-- From a rejection whose text in front of the marker "ledger range:" does not hold the marker, and
-- whose text behind the bounds neither holds it nor begins with a digit, exactly the two printed
-- bounds are read.
pub parse_ledger_range-bounds :
    (before rest : Text) (low high : ℕ)
    → low < i32_half
    → high < i32_half
    → split_once (lit "ledger range:") before ≡ none
    → split_once (lit "ledger range:") rest ≡ none
    → take_while is_digit rest ≡ []
    → parse_ledger_range (before ++ (lit "ledger range:" ++ bounds low high rest))
      ≡ some (pos low, pos high)
unfolding lit
parse_ledger_range-bounds before rest low high hl hh eb er ed =
    parse_ledger_range-split _ before (bounds low high rest)
      (split_once-append b'l' (lit "edger range:") before (bounds low high rest) (omega arith) eb)
      (split_once-bounds (lit "edger range:") low high rest er)
    ∙ range_of-bounds low high rest hl hh ed
