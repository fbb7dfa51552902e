-- ===== src/Common/Text.antt =====
-- `trim` and `split` of JavaScript, and the order of its `sort`, which is by code points here.
use Prim.Native.Char.{Char, code}
use Prim.Native.String as Text
use Prim.Native.String.{String, compare}
use Prim.Native.Nat.{ℕ, zero, suc, Ordering}
use mathlib.Core.Bool.{Bool, true, false, ◌&&◌, ◌||◌}
use mathlib.Core.List.{List, [], ◌∷◌}
use package.text.Mathlib.Text.{◌==◌}
use herdr_web_broker.Common.Tests.{leb, nat_eq, if◌then◌else◌}
use herdr_web_broker.Common.Lists.{filter}

-- `\s`
abbrev pub is_space : Char → Bool
is_space c =
    let n = code c in
    leb 9 n && leb n 13
    || (nat_eq n 32
        || (nat_eq n 160
            || (nat_eq n 5760
                || (leb 8192 n && leb n 8202
                    || (nat_eq n 8232
                        || (nat_eq n 8233
                            || (nat_eq n 8239
                                || (nat_eq n 8287 || (nat_eq n 12288 || nat_eq n 65279)))))))))

unfoldable pub trim_start : String → String
trim_start Text.[] = ""
trim_start (Text.◌∷◌ c s) = if is_space c then trim_start s else Text.◌∷◌ c s

unfoldable pub trim_end : String → String
trim_end Text.[] = ""
trim_end (Text.◌∷◌ c s) =
    let rest = trim_end s in if is_space c && rest == "" then "" else Text.◌∷◌ c rest

unfoldable pub trim : String → String
unfolding trim_start trim_end
trim s = trim_end (trim_start s)

abbrev put_first : Char → List String → List String
put_first c [] = Text.◌∷◌ c "" ∷ []
put_first c (s ∷ parts) = Text.◌∷◌ c s ∷ parts

-- `split(separator)`, for a separator of one character, which is given by its code.
unfoldable pub split : ℕ → String → List String
split separator Text.[] = "" ∷ []
split separator (Text.◌∷◌ c s) =
    let rest = split separator s in
    if nat_eq (code c) separator then "" ∷ rest else put_first c rest

-- `.filter(Boolean)`
abbrev pub non_empty : List String → List String
non_empty = filter (λ s. if s == "" then false else true)

abbrev pub is_before : String → String → Bool
is_before s t = elim (compare s t) [ Ordering.lt ↦ true | _ ↦ false ]

unfoldable pub place : String → List String → List String
place s [] = s ∷ []
place s (t ∷ ts) = let rest = place s ts in if is_before t s then t ∷ rest else s ∷ t ∷ ts

-- `.sort()`
unfoldable pub sort : List String → List String
unfolding place
sort [] = []
sort (s ∷ ss) = place s (sort ss)

-- `.slice(0, n)` and `.slice(n)`
unfoldable pub first : ℕ → String → String
first zero s = ""
first (suc n) Text.[] = ""
first (suc n) (Text.◌∷◌ c s) = Text.◌∷◌ c (first n s)

unfoldable pub past : ℕ → String → String
past zero s = s
past (suc n) Text.[] = ""
past (suc n) (Text.◌∷◌ c s) = past n s
