-- ===== src/Base/Documents.antt =====
-- `serde_json::Value`, as far as the sources build and read it.
use mathlib.Core.Bool.{Bool}
use mathlib.Core.Option.{Option, none, some}
use lend_worker_stellar.Base.Tests.{if◌then◌else◌}
use lend_worker_stellar.Base.Int.{ℤ}
use lend_worker_stellar.Base.Strings.{Text, text_eq}

mutual
  pub data Json : Type 0 where
    null : Json
    bool : Bool → Json
    num : ℤ → Json
    str : Text → Json
    obj : Fields → Json

  pub data Fields : Type 0 where
    end : Fields
    field : Text → Json → Fields → Fields

-- The member of an object; `none` where there is none, or the value is no object.
find_field : Text → Fields → Option Json
find_field k end = none
find_field k (field j v fs) = if text_eq j k then some v else find_field k fs

unfoldable pub member : Text → Json → Option Json
unfolding find_field
member k (obj fs) = find_field k fs
member k _ = none

-- A member of type `String`, as `from_value` and `->>` on a string read it.
unfoldable pub string_member : Text → Json → Option Text
unfolding member
string_member k j = elim (member k j) [ some (str s) ↦ some s | _ ↦ none ]
