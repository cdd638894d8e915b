-- ===== src/Chain/EventSource/Range.antt =====
-- The RPC's out-of-range rejection: `parse_ledger_range` and `rejected_above_tip`.
pub mod Message
use lend_worker_stellar.Base.{
  ℤ, Text, lit, trim, split_once, split_second, parse_i32, is_digit, take_while, ltb_ℤ,
  if◌then◌else◌, Option, none, some,
}

-- the inner function of `parse_ledger_range`
unfoldable pub leading_i32 : Text → Option ℤ
unfolding trim parse_i32
leading_i32 s = parse_i32 (take_while is_digit (trim s))

abbrev pair_of : Option ℤ → Option ℤ → Option (ℤ × ℤ)
pair_of (some low) (some high) = some (low, high)
pair_of _ _ = none

-- `splitn(2, '-')`: both parts have to be there, and to begin with a number.
unfoldable pub range_of : Text → Option (ℤ × ℤ)
unfolding leading_i32 split_once
range_of tail = elim (split_once (lit "-") tail) [
  | none ↦ none
  | some parts ↦ pair_of (leading_i32 parts.0) (leading_i32 parts.1)
]

unfoldable pub parse_ledger_range : Text → Option (ℤ × ℤ)
unfolding range_of split_second
parse_ledger_range error = elim (split_second (lit "ledger range:") error) [
  | none ↦ none
  | some tail ↦ range_of tail
]

unfoldable pub rejected_above_tip : Text → ℤ → Option ℤ
unfolding parse_ledger_range
rejected_above_tip error start_ledger = elim (parse_ledger_range error) [
  | none ↦ none
  | some range ↦ if ltb_ℤ range.1 start_ledger then some range.1 else none
]
