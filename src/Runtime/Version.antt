-- ===== src/Runtime/Version.antt =====
-- The startup gate of src/version.ts. `parseVersion`, one regular expression, is not modelled: a version
-- is the triple that it finds, and the text that `herdr --version` prints is left out of the messages.
use herdr_web_broker.Common.{
  ℕ, ◌≡◌, refl, Bool, true, false, ◌&&◌, Option, some, none, ltb, nat_eq, if◌then◌else◌, arith,
}

pub record Version : Type 0 where
  pub major : ℕ
  pub minor : ℕ
  pub patch : ℕ

abbrev pub min_herdr_version : Version
min_herdr_version = record { major = 0; minor = 8; patch = 0 }

-- "0.8", as it parses.
abbrev pub max_tested_herdr_minor : Version
max_tested_herdr_minor = record { major = 0; minor = 8; patch = 0 }

-- The source's -1, 0 and 1.
pub data Order : Type 0 where
  below same above : Order

abbrev order_of : ℕ → ℕ → Order → Order
order_of m n rest = if nat_eq m n then rest else if ltb m n then below else above

pub compare_versions : Version → Version → Order
compare_versions a b =
    order_of a.major b.major (order_of a.minor b.minor (order_of a.patch b.patch same))

pub data HerdrVerdict : Type 0 where
  fine warns refuses : HerdrVerdict

abbrev pub is_below : Order → Bool
is_below below = true
is_below _ = false

abbrev pub is_above : Order → Bool
is_above above = true
is_above _ = false

pub verdict_for : Option Version → HerdrVerdict
unfolding compare_versions
verdict_for none = warns
verdict_for (some found) =
    if is_below (compare_versions found min_herdr_version)
    then refuses
    else if is_above (compare_versions (record found { patch = 0 }) max_tested_herdr_minor)
    then warns
    else fine

-- A version is refused exactly below 0.8, runs without a word exactly on the line 0.8, and is warned
-- of exactly above it; one that cannot be read is warned of.
pub verdict_for-lines :
    (v : Version)
    → (verdict_for none ≡ warns)
      × (verdict_for (some v) ≡ (
          if nat_eq v.major 0 && ltb v.minor 8
          then refuses
          else if nat_eq v.major 0 && nat_eq v.minor 8
          then fine
          else warns))
unfolding verdict_for compare_versions
verdict_for-lines v = (refl, ground arith)
