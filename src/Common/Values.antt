-- ===== src/Common/Values.antt =====
-- Go's `any`: the dynamic values that attributes and custom claims hold.
use Prim.Native.Nat.{ℕ}
use Prim.Native.String.{String}
use mathlib.Core.Bool.{Bool, true, false, ◌&&◌}
use mathlib.Core.List.{List}
use mathlib.Core.Option.{Option, none, some}
use text.Mathlib.Text.{◌==◌}
use api_security_sdk.Common.Tests.{eqb, if◌then◌else◌}

-- `other t v` is the value number `v` of another comparable type `t` (a NaN is not such a value);
-- `uncomparable t` is a value of another type, such as a map, that `==` refuses.
mutual
  pub data Value : Type 0 where
    nil : Value
    str : String → Value
    other : ℕ → ℕ → Value
    strs : List String → Value
    list : Values → Value
    uncomparable : ℕ → Value

  pub data Values : Type 0 where
    end : Values
    item : Value → Values → Values

-- `a == b` on `any`: false at different types, and a panic (`none`) at one type without `==`.
unfoldable pub any_eq : Value → Value → Option Bool
any_eq nil nil = some true
any_eq (str s) (str t) = some (s == t)
any_eq (other t v) (other t' v') = some (eqb t t' && eqb v v')
any_eq (strs _) (strs _) = none
any_eq (list _) (list _) = none
any_eq (uncomparable t) (uncomparable t') = if eqb t t' then none else some false
any_eq _ _ = some false

-- `s, _ := v.(string)`
unfoldable pub as_text : Value → String
as_text (str s) = s
as_text _ = ""
