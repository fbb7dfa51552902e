-- ===== src/Env/Drop/Sourced.antt =====
-- src/env-registry.ts: what a shell makes of the drop file.
use Prim.Native.Char.{Char, code}
use Prim.Native.String.{String, [], ◌∷◌, ◌++◌}
use Prim.Native.String.append
use mathlib.Core.List.{
  List, ◌++◌ as list_append, append_assoc as list_append_assoc, append-nil as list_append-nil,
}
use text.Mathlib.TextEquality.{Char-path}
use text.Mathlib.TextLemmas.{append_assoc, append-nil}
use herdr_web_broker.Common.{
  ◌≡◌, refl, ◌∙◌, ap, sym, Bool, true, false, ◌&&◌, Option, some, none, nat_eq, if◌then◌else◌,
  arith, Bool-cases, inl, inr, All,
}
use herdr_web_broker.Common.Dict.{Dict}
use herdr_web_broker.Env.Drop.{escape, export_line, drop_file}
use herdr_web_broker.Env.Registry.{is_name, are_tail, is_tail, is_head}

-- A shell that reads `export NAME=word` lines. A word is made of quoted parts and escaped characters;
-- whatever else the shell would have to interpret makes the reading fail.
pub data Mode : Type 0 where
  line_start : Mode
  keyword : String → Mode
  naming plain quoted escaped : Mode

pub record Shell : Type 0 where
  pub mode : Mode
  pub name : String
  pub value : String
  pub exported : Dict String

abbrev pub chars : Char → String
chars c = c ∷ []

abbrev pub expect : Bool → String → Shell → Option Shell
expect false es sh = none
expect true [] sh = some (record sh { mode = naming; name = [] })
expect true (e ∷ es) sh = some (record sh { mode = keyword (e ∷ es) })

feed_char : Mode → Char → Shell → Option Shell
feed_char line_start c sh =
    if nat_eq (code c) 10 then some sh else expect (nat_eq (code c) 101) "xport " sh
feed_char (keyword []) c sh = none
feed_char (keyword (e ∷ es)) c sh = expect (nat_eq (code c) (code e)) es sh
feed_char naming c sh =
    if nat_eq (code c) 61
    then some (record sh { mode = plain; value = [] })
    else if nat_eq (code c) 10
    then none
    else some (record sh { name = sh.name ++ chars c })
feed_char plain c sh =
    if nat_eq (code c) 10
    then some (record sh {
      mode = line_start;
      exported = list_append sh.exported (List.◌∷◌ (sh.name, sh.value) List.[]);
    })
    else if nat_eq (code c) 39
    then some (record sh { mode = quoted })
    else if nat_eq (code c) 92
    then some (record sh { mode = escaped })
    else none
feed_char quoted c sh =
    if nat_eq (code c) 39
    then some (record sh { mode = plain })
    else some (record sh { value = sh.value ++ chars c })
feed_char escaped c sh = some (record sh { mode = plain; value = sh.value ++ chars c })

pub feed : Option Shell → String → Option Shell
feed o [] = o
feed none (c ∷ s) = none
feed (some sh) (c ∷ s) = feed (feed_char sh.mode c sh) s

feed-none : (s : String) → feed none s ≡ none
unfolding feed
feed-none [] = refl
feed-none (c ∷ s) = refl

feed-append : (o : Option Shell) (s t : String) → feed o (s ++ t) ≡ feed (feed o s) t
unfolding feed
feed-append o [] t = ap (feed o) (append.nil t)
feed-append none (c ∷ s) t = ap (feed none) (append.cons c s t) ∙ sym (feed-none t)
feed-append (some sh) (c ∷ s) t =
    ap (feed (some sh)) (append.cons c s t) ∙ feed-append (feed_char sh.mode c sh) s t

abbrev pub shell : Mode → String → String → Dict String → Shell
shell mode name value exported = record {
  mode = mode;
  name = name;
  value = value;
  exported = exported;
}

glue : (w : String) (c : Char) (s : String) → (w ++ chars c) ++ s ≡ w ++ (c ∷ s)
glue w c s =
    append_assoc w (chars c) s
    ∙ ap (λ x. w ++ x) (append.cons c [] s ∙ ap (λ x. c ∷ x) (append.nil s))

and_left : (a b : Bool) → a && b ≡ true → a ≡ true
and_left true b h = refl
and_left false b h = h

and_right : (a b : Bool) → a && b ≡ true → b ≡ true
and_right true b h = h
and_right false b h = ground (arith, h)

same_char : (c d : Char) → nat_eq (code c) (code d) ≡ true → c ≡ d
same_char c d h = Char-path c d (ground (arith, h))

module _ (n : String) (x : Dict String) where
  feed_quote :
      (w : String) → feed (some (shell quoted n w x)) "'\\''" ≡ some (shell quoted n (w ++ "'") x)
  unfolding feed feed_char
  feed_quote w = refl

  feed_quoted :
      (w : String) (c : Char) (s : String)
      → nat_eq (code c) 39 ≡ false
      → feed (some (shell quoted n w x)) (c ∷ s) ≡ feed (some (shell quoted n (w ++ chars c) x)) s
  unfolding feed feed_char
  feed_quoted w c s other = rw other refl

  feed_naming :
      (w v : String) (c : Char) (s : String)
      → is_tail c ≡ true
      → feed (some (shell naming w v x)) (c ∷ s) ≡ feed (some (shell naming (w ++ chars c) v x)) s
  unfolding feed feed_char
  feed_naming w v c s tail =
      let no_equals : nat_eq (code c) 61 ≡ false = ground (arith, tail) in
      let no_newline : nat_eq (code c) 10 ≡ false = ground (arith, tail) in
      rw (no_equals, no_newline) refl

  -- Inside quotes, what was escaped is the value.
  feed-escape :
      (v w : String)
      → feed (some (shell quoted n w x)) (escape v) ≡ some (shell quoted n (w ++ v) x)
  unfolding escape feed feed_char
  feed-escape [] w = ap (λ t. some (shell quoted n t x)) (sym (append-nil w))
  feed-escape (c ∷ s) w = elim (Bool-cases (nat_eq (code c) 39)) [
    | inl quote ↦ rw quote (
        feed-append (some (shell quoted n w x)) "'\\''" (escape s)
        ∙ ap (λ o. feed o (escape s)) (feed_quote w)
        ∙ feed-escape s (w ++ "'")
        ∙ ap (λ t. some (shell quoted n t x))
            (glue w "'" s ∙ ap (λ d. w ++ (d ∷ s)) (sym (same_char c "'" quote))))
    | inr other ↦ rw other (
        feed_quoted w c (escape s) other
        ∙ feed-escape s (w ++ chars c)
        ∙ ap (λ t. some (shell quoted n t x)) (glue w c s))
  ]

  -- A name is read up to the equals sign.
  feed_name :
      (s w v : String)
      → are_tail s ≡ true
      → feed (some (shell naming w v x)) s ≡ some (shell naming (w ++ s) v x)
  unfolding are_tail feed feed_char
  feed_name [] w v h = ap (λ t. some (shell naming t v x)) (sym (append-nil w))
  feed_name (c ∷ s) w v h =
      let tail : is_tail c ≡ true = and_left (is_tail c) (are_tail s) h in
      feed_naming w v c s tail
      ∙ feed_name s (w ++ chars c) v (and_right (is_tail c) (are_tail s) h)
      ∙ ap (λ t. some (shell naming t v x)) (glue w c s)

is_name-are_tail : (name : String) → is_name name ≡ true → are_tail name ≡ true
unfolding is_name are_tail
is_name-are_tail [] h = refl
is_name-are_tail (c ∷ s) h =
    let head : is_head c ≡ true = and_left (is_head c) _ h in
    let rest = and_left (are_tail s) _ (and_right (is_head c) _ h) in rw (head, rest) refl

module _ (name value n v : String) (x : Dict String) (h : is_name name ≡ true) where
  feed_keyword : feed (some (shell line_start n v x)) "export " ≡ some (shell naming [] v x)
  unfolding feed feed_char
  feed_keyword = refl

  feed_equals : (m : String) → feed (some (shell naming m v x)) "='" ≡ some (shell quoted m [] x)
  unfolding feed feed_char
  feed_equals m = refl

  feed_end : (w : String) → feed (some (shell quoted name w x)) "'" ≡ some (shell plain name w x)
  unfolding feed feed_char
  feed_end w = refl

  feed_newline :
      feed (some (shell plain name value x)) "\n"
      ≡ some (shell line_start name value (list_append x (List.◌∷◌ (name, value) List.[])))
  unfolding feed feed_char
  feed_newline = refl

  feed-export_line :
      feed (some (shell line_start n v x)) (export_line (name, value))
      ≡ some (shell plain name value x)
  unfolding export_line
  feed-export_line =
      feed-append _ "export " (name ++ ("='" ++ (escape value ++ "'")))
      ∙ ap (λ o. feed o (name ++ ("='" ++ (escape value ++ "'")))) feed_keyword
      ∙ feed-append _ name ("='" ++ (escape value ++ "'"))
      ∙ ap (λ o. feed o ("='" ++ (escape value ++ "'")))
          (feed_name n x name [] v (is_name-are_tail name h)
            ∙ ap (λ t. some (shell naming t v x)) (append.nil name))
      ∙ feed-append _ "='" (escape value ++ "'")
      ∙ ap (λ o. feed o (escape value ++ "'")) (feed_equals name)
      ∙ feed-append _ (escape value) "'"
      ∙ ap (λ o. feed o "'")
          (feed-escape name x value [] ∙ ap (λ t. some (shell quoted name t x)) (append.nil value))
      ∙ feed_end value

  feed_whole_line :
      feed (some (shell line_start n v x)) (export_line (name, value) ++ "\n")
      ≡ some (shell line_start name value (list_append x (List.◌∷◌ (name, value) List.[])))
  feed_whole_line =
      feed-append _ (export_line (name, value)) "\n"
      ∙ ap (λ o. feed o "\n") feed-export_line
      ∙ feed_newline

abbrev pub exported_by : Option Shell → Option (Dict String)
exported_by none = none
exported_by (some sh) = some sh.exported

feed-drop_file :
    (vars : Dict String) (n v : String) (x : Dict String)
    → All (λ e. is_name e.0 ≡ true) vars
    → exported_by (feed (some (shell line_start n v x)) (drop_file vars))
      ≡ some (list_append x vars)
unfolding drop_file feed feed_char
feed-drop_file List.[] n v x h = ap some (sym (list_append-nil x))
feed-drop_file (List.◌∷◌ (name, value) List.[]) n v x h =
    ap exported_by (feed_whole_line name value n v x h.0)
feed-drop_file (List.◌∷◌ (name, value) (List.◌∷◌ next rest)) n v x h =
    let others = drop_file (List.◌∷◌ next rest) in
    let done = list_append x (List.◌∷◌ (name, value) List.[]) in
    ap exported_by (
      ap (feed (some (shell line_start n v x)))
        (sym (append_assoc (export_line (name, value)) "\n" others))
      ∙ feed-append _ (export_line (name, value) ++ "\n") others
      ∙ ap (λ o. feed o others) (feed_whole_line name value n v x h.0))
    ∙ feed-drop_file (List.◌∷◌ next rest) name value done h.1
    ∙ ap some (list_append_assoc x (List.◌∷◌ (name, value) List.[]) (List.◌∷◌ next rest))

-- A shell that sources the drop file of variables with valid names exports exactly these, in order,
-- each with its own value whatever characters it has, and has nothing in it to expand or to run.
pub exported_by-drop_file :
    (vars : Dict String)
    → All (λ e. is_name e.0 ≡ true) vars
    → exported_by (feed (some (shell line_start [] [] List.[])) (drop_file vars)) ≡ some vars
exported_by-drop_file vars h = feed-drop_file vars [] [] List.[] h
