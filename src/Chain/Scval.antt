-- ===== src/Chain/Scval.antt =====
-- crates/lw-chain/src/scval.rs. `ScVal` comes from the XDR crate: here are the variants that the
-- sources match, and `other` for all that they do not (an empty `Map(None)` too). A symbol and an
-- address carry the text that the crate prints for them. Error messages leave out the printed value.
use lend_worker_stellar.Base.{
  ℕ, suc, ◌-◌, ◌*◌, ◌^◌, ℤ, pos, negsuc, ◌+ℤ◌, Text, lit, text_eq, if◌then◌else◌, Result, ok, err,
  Option, none, some,
}

mutual
  pub data ScVal : Type 0 where
    symbol : Text → ScVal
    u32 : ℕ → ScVal
    i128 : ℤ → ℕ → ScVal
    address : Text → ScVal
    map_val : ScMap → ScVal
    other : ℕ → ScVal

  pub data ScMap : Type 0 where
    nil : ScMap
    entry : ScVal → ScVal → ScMap → ScMap

unfoldable pub symbol_name : ScVal → Result Text
symbol_name (symbol s) = ok s
symbol_name _ = err (lit "expected ScVal::Symbol")

unfoldable pub as_u32 : ScVal → Result ℕ
as_u32 (u32 n) = ok n
as_u32 _ = err (lit "expected ScVal::U32")

-- `(hi as i128) << 64`
abbrev shift_64 : ℤ → ℤ
shift_64 (pos n) = pos (n * 2 ^ 64)
shift_64 (negsuc n) = negsuc (suc n * 2 ^ 64 - 1)

-- The low 64 bits of the shifted part are 0 and `lo` is a u64, so the source's `|` is a sum.
unfoldable pub as_i128 : ScVal → Result ℤ
unfolding ◌+ℤ◌
as_i128 (i128 hi lo) = ok (shift_64 hi +ℤ pos lo)
as_i128 _ = err (lit "expected ScVal::I128")

unfoldable pub as_address : ScVal → Result Text
as_address (address a) = ok a
as_address _ = err (lit "expected ScVal::Address")

abbrev key_is : Text → ScVal → Option Text
key_is key (symbol s) = if text_eq s key then some s else none
key_is key _ = none

-- The first entry whose key is the symbol `key`.
unfoldable pub map_field : ScMap → Text → Result ScVal
map_field nil key = err (lit "missing data field")
map_field (entry k v m) key =
    let rest = map_field m key in elim (key_is key k) [ some _ ↦ ok v | none ↦ rest ]

unfoldable pub as_map : ScVal → Result ScMap
as_map (map_val m) = ok m
as_map _ = err (lit "expected ScVal::Map")
