-- ===== src/Ops/Values.antt =====
-- The JSON values of a call's parameters, and `str` of src/workspace-ops.ts. Numbers are the natural ones.
use herdr_web_broker.Common.{
  ℕ, String, Bool, false, Option, some, none, ltb, min, str_eq, if◌then◌else◌,
}
use herdr_web_broker.Ops.{Result, ok, fail}

mutual
  pub data Value : Type 0 where
    null : Value
    bool : Bool → Value
    num : ℕ → Value
    text : String → Value
    list : Items → Value
    object : Fields → Value

  pub data Items : Type 0 where
    nil : Items
    cons : Value → Items → Items

  pub data Fields : Type 0 where
    end : Fields
    field : String → Value → Fields → Fields

-- `p.name`; a missing one is `undefined`.
unfoldable pub member : String → Fields → Option Value
member name end = none
member name (field key v fields) = if str_eq key name then some v else member name fields

-- `typeof v === "string" ? v : undefined`, and the same for numbers.
abbrev pub text_of : Option Value → Option String
text_of (some (text s)) = some s
text_of _ = none

abbrev pub num_of : Option Value → Option ℕ
num_of (some (num n)) = some n
num_of _ = none

-- `v === true`
abbrev pub is_true : Option Value → Bool
is_true (some (bool b)) = b
is_true _ = false

-- `str(v, name)`
unfoldable pub str : Option Value → String → Result String
str (some (text s)) name = if str_eq s "" then fail "bad_request" name else ok s
str _ name = fail "bad_request" name

-- `Math.min(Math.max(v, low), high)`
abbrev pub clamp : ℕ → ℕ → ℕ → ℕ
clamp low high v = if ltb v low then min low high else min v high
