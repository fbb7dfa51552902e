-- ===== src/Context/Named.antt =====
-- src/context-store.ts: what an operation on an attachment leaves alone.
use Prim.Native.Char.{code}
use Prim.Native.String as Text
use herdr_web_broker.Common.{
  ℕ, ◌≡◌, refl, ◌∙◌, String, Bool, true, false, not, Option, some, none, ltb, nat_eq, is_some,
  str_eq, eq_iff, eq_refl, ap, sym, if◌then◌else◌, arith, Bool-cases, inl, inr,
}
use herdr_web_broker.Common.Dict.{Dict, lookup, insert, remove, lookup-insert, lookup-remove}
use herdr_web_broker.Context.{
  Content, Store, Result, stored, refused, context_cap_bytes, is_first, is_later, are_later,
  is_plain, put_context, update_context, delete_context,
}

-- No separator of paths, and no dot in front.
abbrev pub HasNo : ℕ → String → Type 0
HasNo n Text.[] = Unit
HasNo n (Text.◌∷◌ c s) = (nat_eq (code c) n ≡ false) × HasNo n s

abbrev pub IsUndotted : String → Type 0
IsUndotted Text.[] = ⊥
IsUndotted (Text.◌∷◌ c s) = nat_eq (code c) 46 ≡ false

are_later-HasNo : (s : String) → are_later s ≡ true → HasNo 47 s
unfolding are_later
are_later-HasNo Text.[] h = tt
are_later-HasNo (Text.◌∷◌ c s) h = elim (Bool-cases (is_later c)) [
  | inl later ↦ (ground (arith, later), are_later-HasNo s (rw later at h))
  | inr other ↦ absurd (no (rw other at h))
]
  where
    no : false ≡ true → ⊥
    no e = cc

is_plain-IsUndotted : (name : String) → is_plain name ≡ true → IsUndotted name × HasNo 47 name
unfolding is_plain
is_plain-IsUndotted Text.[] h = absurd (no h)
  where
    no : false ≡ true → ⊥
    no e = cc
is_plain-IsUndotted (Text.◌∷◌ c s) h = elim (Bool-cases (is_first c)) [
  | inl first ↦ elim (Bool-cases (are_later s)) [
    | inl later ↦ (ground (arith, first), (ground (arith, first), are_later-HasNo s later))
    | inr other ↦ absurd (no (rw (first, other) at h))
  ]
  | inr other ↦ absurd (no (rw other at h))
]
  where
    no : false ≡ true → ⊥
    no e = cc

-- What an operation on `name` may do: be refused, or leave the file `other`, where it is another one,
-- and its entry as they were; `name` is then that of a file in the directory.
abbrev pub IsConfined : String → String → Store → Result → Type 0
IsConfined name other s (refused code) = Unit
IsConfined name other s (stored t) =
    (IsUndotted name × HasNo 47 name)
    × (lookup other t.files
        ≡ (if str_eq name other then lookup name t.files else lookup other s.files))
    × (lookup other t.meta
        ≡ (if str_eq name other then lookup name t.meta else lookup other s.meta))

if-IsConfined :
    (name other : String) (s : Store) (b : Bool) (x y : Result)
    → (b ≡ true → IsConfined name other s x)
    → (b ≡ false → IsConfined name other s y)
    → IsConfined name other s (if b then x else y)
if-IsConfined name other s true x y p q = p refl
if-IsConfined name other s false x y p q = q refl

plain_from : (name : String) → not (is_plain name) ≡ false → IsUndotted name × HasNo 47 name
plain_from name h = is_plain-IsUndotted name (ground (arith, h))

-- The dictionary was changed at `name` only.
changed_at :
    {V : Type 0} (name other : String) (d e : Dict V) (v : Option V)
    → lookup other e ≡ (if str_eq name other then v else lookup other d)
    → lookup name e ≡ v
    → lookup other e ≡ (if str_eq name other then lookup name e else lookup other d)
changed_at name other d e v h k =
    h ∙ ap (λ x. if str_eq name other then x else lookup other d) (sym k)

inserted_at :
    {V : Type 0} (name other : String) (v : V) (d : Dict V)
    → lookup other (insert name v d)
      ≡ (if str_eq name other then lookup name (insert name v d) else lookup other d)
inserted_at name other v d =
    changed_at name other d (insert name v d) (some v) (lookup-insert name other v d)
      (lookup-insert name name v d ∙ rw (eq_refl name) refl)

removed_at :
    {V : Type 0} (name other : String) (d : Dict V)
    → lookup other (remove name d)
      ≡ (if str_eq name other then lookup name (remove name d) else lookup other d)
removed_at name other d =
    changed_at name other d (remove name d) none (lookup-remove name other d)
      (lookup-remove name name d ∙ rw (eq_refl name) refl)

module _ (name other : String) (s : Store) where
  put_context-IsConfined :
      (content : Content) (content_type : Option String) (active inline : Option Bool)
      (now : String)
      → IsConfined name other s (put_context name content content_type active inline now s)
  unfolding put_context
  put_context-IsConfined content content_type active inline now =
      if-IsConfined name other s (not (is_plain name)) _ _ (λ h. tt)
        (λ plain.
          if-IsConfined name other s (ltb context_cap_bytes content.size) _ _ (λ h. tt)
            (λ h. (
              plain_from name plain,
              inserted_at name other content s.files,
              inserted_at name other _ s.meta,
            )))

  update_context-IsConfined :
      (active inline : Option Bool) (now : String)
      → IsConfined name other s (update_context name active inline now s)
  unfolding update_context
  update_context-IsConfined active inline now =
      if-IsConfined name other s (not (is_plain name)) _ _ (λ h. tt)
        (λ plain.
          if-IsConfined name other s (is_some (lookup name s.files)) _ _
            (λ h. (
              plain_from name plain,
              ground (arith, eq_iff name other),
              inserted_at name other _ s.meta,
            ))
            (λ h. tt))

  delete_context-IsConfined : IsConfined name other s (delete_context name s)
  unfolding delete_context
  delete_context-IsConfined =
      if-IsConfined name other s (not (is_plain name)) _ _ (λ h. tt)
        (λ plain.
          if-IsConfined name other s (is_some (lookup name s.files)) _ _
            (λ h.
              (plain_from name plain, removed_at name other s.files, removed_at name other s.meta))
            (λ h. tt))

-- Writing, changing and deleting an attachment is refused or concerns that attachment only, and then
-- its name has no slash and no leading dot.
pub operations-IsConfined :
    (name other : String) (s : Store) (content : Content) (content_type : Option String)
    (active inline : Option Bool) (now : String)
    → IsConfined name other s (put_context name content content_type active inline now s)
      × IsConfined name other s (update_context name active inline now s)
      × IsConfined name other s (delete_context name s)
operations-IsConfined name other s content content_type active inline now = (
  put_context-IsConfined name other s content content_type active inline now,
  update_context-IsConfined name other s active inline now,
  delete_context-IsConfined name other s,
)
