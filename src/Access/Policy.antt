-- ===== src/Access/Policy.antt =====
-- src/policy.ts: the deny globs for calls that come from another machine.
use Prim.Native.String as Text
use Prim.Native.String.{◌++◌ as cat}
use text.Mathlib.TextBridge.{IsPrefix}
use text.Mathlib.TextEquality.{starts_with_iff}
use text.Mathlib.TextLemmas.{nil-append, cons-append, append_assoc}
use herdr_web_broker.Common.{
  ◌≡◌, refl, sym, ap, ◌∙◌, ◌↔◌, inl, inr, String, Bool, true, List, [], ◌∷◌, ◌||◌, arith, any,
  str_eq, eq_iff, eq_refl, starts_with, if◌then◌else◌, Bool-cases, In,
}

abbrev pub default_remote_deny : List String
default_remote_deny = "server.stop" ∷ "server.reload_config" ∷ "plugin.*" ∷ []

-- `s.endsWith(t)`
ends_with : String → String → Bool
ends_with Text.[] t = str_eq Text.[] t
ends_with (Text.◌∷◌ c s) t = str_eq (Text.◌∷◌ c s) t || ends_with s t

-- `s.slice(0, -1)`
drop_last : String → String
drop_last Text.[] = Text.[]
drop_last (Text.◌∷◌ c Text.[]) = Text.[]
drop_last (Text.◌∷◌ c (Text.◌∷◌ d s)) = Text.◌∷◌ c (drop_last (Text.◌∷◌ d s))

glob_matches : String → String → Bool
unfolding ends_with drop_last
glob_matches method glob =
    if str_eq glob "*"
    then true
    else if ends_with glob ".*"
    then starts_with method (drop_last glob)
    else str_eq method glob

unfoldable pub method_denied : String → List String → Bool
unfolding glob_matches
method_denied method deny_globs = any (glob_matches method) deny_globs

-- What a glob stands for: everything, the methods below a prefix, or one method.
pub data Denies (method glob : String) : Type 0 where
  everything : glob ≡ "*" → Denies method glob
  below : (p : String) → glob ≡ cat p ".*" → IsPrefix (cat p ".") method → Denies method glob
  exact : method ≡ glob → Denies method glob

ends_with_sound : (s t : String) → ends_with s t ≡ true → (p : String) × (s ≡ cat p t)
unfolding ends_with
ends_with_sound Text.[] t h = ("", (eq_iff "" t).0 h ∙ sym (nil-append t))
ends_with_sound (Text.◌∷◌ c s) t h = elim (Bool-cases (str_eq (Text.◌∷◌ c s) t)) [
  | inl same ↦ ("", (eq_iff _ t).0 same ∙ sym (nil-append t))
  | inr other ↦
      let (p, e) = ends_with_sound s t (rw other at h) in
      (Text.◌∷◌ c p, ap (Text.◌∷◌ c) e ∙ sym (cons-append c p t))
]

ends_with-cat : (p t : String) → ends_with (cat p t) t ≡ true
unfolding ends_with
ends_with-cat Text.[] t = rw nil-append (ends_with_self t)
  where
    ends_with_self : (s : String) → ends_with s s ≡ true
    ends_with_self Text.[] = refl
    ends_with_self (Text.◌∷◌ c s) = rw (eq_refl (Text.◌∷◌ c s))
ends_with-cat (Text.◌∷◌ c p) t = rw cons-append (ground (arith, ends_with-cat p t))

drop_last-cat : (p : String) → drop_last (cat p ".*") ≡ cat p "."
unfolding drop_last
drop_last-cat Text.[] = refl
drop_last-cat (Text.◌∷◌ c Text.[]) = rw (cons-append c "" ".*", cons-append c "" ".")
drop_last-cat (Text.◌∷◌ c (Text.◌∷◌ d p)) =
    let ih = rw (cons-append d p ".*", cons-append d p ".") at (drop_last-cat (Text.◌∷◌ d p)) in
    rw
      (
        cons-append c (Text.◌∷◌ d p) ".*",
        cons-append d p ".*",
        cons-append c (Text.◌∷◌ d p) ".",
        cons-append d p ".",
      )
      (ap (Text.◌∷◌ c) ih)

glob_matches_sound : (method glob : String) → glob_matches method glob ≡ true → Denies method glob
unfolding glob_matches
glob_matches_sound method glob h = elim (Bool-cases (str_eq glob "*")) [
  | inl all ↦ everything ((eq_iff glob "*").0 all)
  | inr some_only ↦ elim (Bool-cases (ends_with glob ".*")) [
    | inl star ↦
        let (p, e) = ends_with_sound glob ".*" star in
        let starts : starts_with method (drop_last glob) ≡ true = rw (some_only, star) at h in
        below p e ((starts_with_iff method (cat p ".")).0 (rw (e, drop_last-cat p) at starts))
    | inr plain ↦ exact ((eq_iff method glob).0 (rw (some_only, plain) at h))
  ]
]

-- The literal "*" does not end in ".*".
glob_matches_complete :
    (method glob : String) → Denies method glob → glob_matches method glob ≡ true
unfolding glob_matches
glob_matches_complete method glob (everything e) = rw (e, eq_refl "*")
glob_matches_complete method glob (below p e pre) =
    let starts = (starts_with_iff method (cat p ".")).1 pre in
    rw (e, ends_with-cat p ".*", drop_last-cat p, starts) (ground arith)
glob_matches_complete method glob (exact e) = elim (Bool-cases (ends_with glob ".*")) [
  | inl star ↦
      let (p, same) = ends_with_sound glob ".*" star in
      let pre : IsPrefix (cat p ".") method = ("*", append_assoc p "." "*" ∙ sym (e ∙ same)) in
      let starts = (starts_with_iff method (cat p ".")).1 pre in
      rw (same, ends_with-cat p ".*", drop_last-cat p, starts) (ground arith)
  | inr plain ↦ rw (plain, e, eq_refl glob) (ground arith)
]

any_sound :
    (method : String) (globs : List String)
    → any (glob_matches method) globs ≡ true
    → (g : String) × In g globs × Denies method g
any_sound method [] h = cc
any_sound method (g ∷ globs) h = elim (Bool-cases (glob_matches method g)) [
  | inl here ↦ (g, inl refl, glob_matches_sound method g here)
  | inr miss ↦
      let (found, listed, denies) = any_sound method globs (rw miss at h) in
      (found, inr listed, denies)
]

any_complete :
    (method g : String) (globs : List String)
    → In g globs
    → Denies method g
    → any (glob_matches method) globs ≡ true
any_complete method g [] listed d = absurd listed
any_complete method g (k ∷ globs) (inl e) d = rw (e, glob_matches_complete method g d)
any_complete method g (k ∷ globs) (inr listed) d =
    ground (arith, any_complete method g globs listed d)

-- A method is denied exactly if one of the globs stands for it: "*" for every method, a prefix with
-- ".*" for what begins with the prefix and a dot, and any other glob for itself.
pub method_denied_iff :
    (method : String) (globs : List String)
    → (method_denied method globs ≡ true) ↔ ((g : String) × In g globs × Denies method g)
unfolding method_denied
method_denied_iff method globs =
    (any_sound method globs, λ found. any_complete method found.0 globs found.1 found.2)
