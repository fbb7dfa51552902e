-- ===== src/Git/Status/Read.antt =====
-- src/git-exec.ts: the status that git writes is read as it was meant.
use Prim.Native.Char.{Char, code}
use Prim.Native.String as Text
use Prim.Native.String.append
use Prim.Native.String.{String, ◌++◌}
use text.Mathlib.TextBridge.{IsPrefix}
use text.Mathlib.TextEquality.{starts_with_iff}
use herdr_web_broker.Common.{
  eq_iff, ◌≡◌, refl, sym, Option, some, none, is_some, ◌||◌, starts_with, Bool, true, false, not,
  ◌&&◌, List, [], ◌∷◌, map, nat_eq, str_eq, str_eq-ne, arith, Bool-cases, inl, inr, All, ◌∙◌, ap,
}
use herdr_web_broker.Common.Text.{split, non_empty, first, past}
use herdr_web_broker.Git.Status.{Change, has_origin, changes_from, changes_in}

-- An entry of the status: the letters of the index and of the worktree, the path, and the original path of
-- what was renamed or copied.
pub record Entry : Type 0 where
  pub x : Char
  pub y : Char
  pub path : String
  pub origin : Option String

-- Whether a letter is "R" or "C".
abbrev pub is_moved : Char → Bool
is_moved c = str_eq (Text.◌∷◌ c "") "R" || str_eq (Text.◌∷◌ c "") "C"

abbrev pub letters : Entry → String
letters e = Text.◌∷◌ e.x (Text.◌∷◌ e.y "")

abbrev pub token_of : Entry → String
token_of e = Text.◌∷◌ e.x (Text.◌∷◌ e.y (Text.◌∷◌ " " e.path))

abbrev pub change_of : Entry → Change
change_of e = record { xy = letters e; path = e.path }

abbrev pub then_origin : Option String → String → String
then_origin none rest = rest
then_origin (some path) rest = path ++ ("\0" ++ rest)

-- What `git status --porcelain=v1 -z` writes: every path ends in a zero.
unfoldable pub written : List Entry → String
written [] = ""
written (e ∷ es) = let rest = written es in token_of e ++ ("\0" ++ then_origin e.origin rest)

-- A text without a zero.
unfoldable pub lacks_zero : String → Bool
lacks_zero Text.[] = true
lacks_zero (Text.◌∷◌ c s) = not (nat_eq (code c) 0) && lacks_zero s

zero-append : (rest : String) → "\0" ++ rest ≡ Text.◌∷◌ "\0" rest
zero-append rest = append.cons "\0" Text.[] rest ∙ ap (λ t. Text.◌∷◌ "\0" t) (append.nil rest)

split-append :
    (t rest : String) → lacks_zero t ≡ true → split 0 (t ++ ("\0" ++ rest)) ≡ t ∷ split 0 rest
unfolding split lacks_zero
split-append Text.[] rest h = ap (split 0) (append.nil ("\0" ++ rest) ∙ zero-append rest)
split-append (Text.◌∷◌ c s) rest h =
    ap (split 0) (append.cons c s ("\0" ++ rest)) ∙ ground (arith, split-append s rest, h)

abbrev pub IsPath : Option String → Type 0
IsPath none = Unit
IsPath (some path) = (lacks_zero path ≡ true) × (str_eq path "" ≡ false)

-- Paths have no zero, and there is an original path exactly if one of the letters is "R" or "C".
abbrev pub IsWritten : Entry → Type 0
IsWritten e =
    (lacks_zero (token_of e) ≡ true)
    × IsPath e.origin
    × (is_some e.origin ≡ is_moved e.x || is_moved e.y)

-- Nothing is renamed or copied in the worktree alone.
abbrev pub IsStaged : Entry → Type 0
IsStaged e = is_moved e.y && not (is_moved e.x) ≡ false

cons-ne : (c : Char) (s : String) → str_eq (Text.◌∷◌ c s) "" ≡ false
cons-ne c s = str_eq-ne (Text.◌∷◌ c s) "" (λ e. cc)

cons-inj : (c d : Char) (s t : String) → Text.◌∷◌ c s ≡ Text.◌∷◌ d t → c ≡ d
cons-inj c d s t h = cc h

letter-append : (d : Char) (s : String) → Text.◌∷◌ d "" ++ s ≡ Text.◌∷◌ d s
letter-append d s = append.cons d Text.[] s ∙ ap (λ t. Text.◌∷◌ d t) (append.nil s)

-- A text starts with a letter exactly if its first letter is that one.
starts_with-letter :
    (c d : Char) (s : String)
    → starts_with (Text.◌∷◌ c s) (Text.◌∷◌ d "") ≡ str_eq (Text.◌∷◌ c "") (Text.◌∷◌ d "")
starts_with-letter c d s = elim (Bool-cases (starts_with (Text.◌∷◌ c s) (Text.◌∷◌ d ""))) [
  | inl starts ↦
      let (u, e) = (starts_with_iff (Text.◌∷◌ c s) (Text.◌∷◌ d "")).0 starts in
      let same = cons-inj d c u s (sym (letter-append d u) ∙ e) in
      starts ∙ sym ((eq_iff _ _).1 (ap (λ x. Text.◌∷◌ x "") (sym same)))
  | inr other ↦ elim (Bool-cases (str_eq (Text.◌∷◌ c "") (Text.◌∷◌ d ""))) [
    | inl same ↦
        let heads = cons-inj c d "" "" ((eq_iff _ _).0 same) in
        let prefix : IsPrefix (Text.◌∷◌ d "") (Text.◌∷◌ c s) =
          (s, letter-append d s ∙ ap (λ x. Text.◌∷◌ x s) (sym heads)) in
        absurd (cc ((starts_with_iff (Text.◌∷◌ c s) (Text.◌∷◌ d "")).1 prefix, other))
    | inr differs ↦ other ∙ sym differs
  ]
]

has_origin-is_moved : (c : Char) (s : String) → has_origin (Text.◌∷◌ c s) ≡ is_moved c
has_origin-is_moved c s = rw (starts_with-letter c "R" s, starts_with-letter c "C" s) refl

abbrev with_origin : Option String → List String → List String
with_origin none tokens = tokens
with_origin (some path) tokens = path ∷ tokens

non_empty-then_origin :
    (o : Option String) (rest : String)
    → IsPath o
    → non_empty (split 0 (then_origin o rest)) ≡ with_origin o (non_empty (split 0 rest))
non_empty-then_origin none rest w = refl
non_empty-then_origin (some path) rest w = rw (split-append path rest w.0, w.1) refl

non_empty-written :
    (e : Entry) (rest : String)
    → IsWritten e
    → non_empty (split 0 (token_of e ++ ("\0" ++ then_origin e.origin rest)))
      ≡ token_of e ∷ with_origin e.origin (non_empty (split 0 rest))
non_empty-written e rest w =
    rw
      (
        split-append (token_of e) (then_origin e.origin rest) w.0,
        cons-ne e.x (Text.◌∷◌ e.y (Text.◌∷◌ " " e.path)),
      )
      (ap (λ ts. token_of e ∷ ts) (non_empty-then_origin e.origin rest w.1))

changes_from-entry :
    (e : Entry) (o : Option String) (tokens : List String)
    → is_some o ≡ is_moved e.x
    → changes_from false (token_of e ∷ with_origin o tokens)
      ≡ change_of e ∷ changes_from false tokens
unfolding changes_from first past
changes_from-entry e none tokens h =
    let plain = has_origin-is_moved e.x (Text.◌∷◌ e.y "") ∙ sym h in rw plain refl
changes_from-entry e (some path) tokens h =
    let moved = has_origin-is_moved e.x (Text.◌∷◌ e.y "") ∙ sym h in rw moved refl

-- Git lists its changes with their letters and paths, and writes an original path after a rename or a copy.
-- Where nothing is renamed or copied in the worktree alone, the broker reads exactly those changes, in that
-- order.
pub changes_in-written :
    (es : List Entry)
    → All IsWritten es
    → All IsStaged es
    → changes_in (written es) ≡ map change_of es
unfolding changes_in written split changes_from
changes_in-written [] w s = refl
changes_in-written (e ∷ es) (we, w) (se, s) =
    let index_alone : is_some e.origin ≡ is_moved e.x = ground (arith, we.2, se) in
    ap (changes_from false) (non_empty-written e (written es) we)
    ∙ changes_from-entry e e.origin (non_empty (split 0 (written es))) index_alone
    ∙ ap (λ cs. change_of e ∷ cs) (changes_in-written es w s)
