-- ===== src/Context/Inline.antt =====
-- The inline pass of `activeContextPreamble` of src/context-store.ts.
use herdr_web_broker.Common.{
  ℕ, String, ◌+◌, ◌-◌, ◌≤◌, ◌≡◌, refl, Bool, true, false, not, Option, some, none, List, [], ◌∷◌,
  ltb, if◌then◌else◌, arith, All, Bool-cases, inl, inr,
}
use herdr_web_broker.Context.{Content}

abbrev pub inline_file_cap : ℕ
inline_file_cap = 12000

abbrev pub inline_total_cap : ℕ
inline_total_cap = 20000

-- An active attachment, and whether it asks to be inlined.
pub record Active : Type 0 where
  pub name : String
  pub inline : Bool
  pub content : Content

pub data Note : Type 0 where
  binary too_large exhausted inlined : Note

abbrev pub note_for : ℕ → Active → Option Note
note_for budget e =
    if not e.inline
    then none
    else if e.content.is_binary
    then some binary
    else if ltb inline_file_cap e.content.size
    then some too_large
    else if ltb budget e.content.size
    then some exhausted
    else some inlined

abbrev pub spent : Option Note → ℕ → ℕ
spent (some inlined) size = size
spent _ size = 0

-- The loop over the active attachments, with what is left of the budget.
unfoldable pub inline_pass : ℕ → List Active → List (Active × Option Note)
inline_pass budget [] = []
inline_pass budget (e ∷ rest) =
    let note = note_for budget e in
    (e, note) ∷ inline_pass (budget - spent note e.content.size) rest

pub notes : List Active → List (Active × Option Note)
notes active = inline_pass inline_total_cap active

-- The bytes that are embedded.
unfoldable pub embedded : List (Active × Option Note) → ℕ
embedded [] = 0
embedded ((e, note) ∷ rest) = spent note e.content.size + embedded rest

-- A file is embedded only as a whole, where it asked for it and is text of a bounded size.
abbrev pub IsFit : Active × Option Note → Type 0
IsFit (e, some inlined) =
    (e.inline ≡ true) × (e.content.is_binary ≡ false) × (e.content.size ≤ inline_file_cap)
IsFit (e, _) = Unit

note_for-IsFit :
    (budget : ℕ) (e : Active)
    → IsFit (e, note_for budget e) × (spent (note_for budget e) e.content.size ≤ budget)
note_for-IsFit budget e = elim (Bool-cases e.inline) [
  | inr plain ↦ rw plain (tt, omega arith)
  | inl asked ↦ elim (Bool-cases e.content.is_binary) [
    | inl zeros ↦ rw (asked, zeros) (tt, omega arith)
    | inr clear ↦ elim (Bool-cases (ltb inline_file_cap e.content.size)) [
      | inl large ↦ rw (asked, clear, large) (tt, omega arith)
      | inr small ↦ elim (Bool-cases (ltb budget e.content.size)) [
        | inl over ↦ rw (asked, clear, small, over) (tt, omega arith)
        | inr within ↦
            rw (asked, clear, small, within)
              ((refl, refl, ground (arith, small)), ground (arith, within))
      ]
    ]
  ]
]

inline_pass-IsFit :
    (budget : ℕ) (l : List Active)
    → All IsFit (inline_pass budget l) × (embedded (inline_pass budget l) ≤ budget)
unfolding inline_pass embedded
inline_pass-IsFit budget [] = (tt, omega arith)
inline_pass-IsFit budget (e ∷ l) =
    let (fit, paid) = note_for-IsFit budget e in
    let (fits, rest) = inline_pass-IsFit (budget - spent (note_for budget e) e.content.size) l in
    ((fit, fits), omega (arith, paid, rest))

-- Whatever is attached, what is embedded is whole files that asked for it, are text and have at most
-- the bytes that a file may have, and together they have at most the bytes that all may have.
pub notes-IsFit : (l : List Active) → All IsFit (notes l) × (embedded (notes l) ≤ inline_total_cap)
unfolding notes
notes-IsFit l = inline_pass-IsFit inline_total_cap l
