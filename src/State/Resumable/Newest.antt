-- ===== src/State/Resumable/Newest.antt =====
-- src/state.ts: the listing of ended conversations.
use herdr_web_broker.Common.{
  ℕ, ◌≤◌, ◌≡◌, refl, String, List, [], ◌∷◌, ◌⊎◌, ◌↔◌, arith, inl, inr, ltb, Bool-cases, All, In,
  length, suc,
}
use herdr_web_broker.Common.Dict.{values}
use herdr_web_broker.State.{Index, rows_of}
use herdr_web_broker.State.Resumable.{ResumableMeta, place, sort, all_ended}

-- Each row is at least as new as those after it.
abbrev pub IsNewestFirst : List ResumableMeta → Type 0
IsNewestFirst [] = Unit
IsNewestFirst (m ∷ rows) = All (λ r. r.ended_at ≤ m.ended_at) rows × IsNewestFirst rows

module _ (m : ResumableMeta) where
  All-place :
      (n : ℕ) (rows : List ResumableMeta)
      → m.ended_at ≤ n
      → All (λ r. r.ended_at ≤ n) rows
      → All (λ r. r.ended_at ≤ n) (place m rows)
  unfolding place
  All-place n [] h v = (h, tt)
  All-place n (r ∷ rows) h v = elim (Bool-cases (ltb m.ended_at r.ended_at)) [
    | inl older ↦ rw older (v.0, All-place n rows h v.1)
    | inr newer ↦ rw newer (h, v)
  ]

  All-below :
      (n : ℕ) (rows : List ResumableMeta)
      → n ≤ m.ended_at
      → All (λ r. r.ended_at ≤ n) rows
      → All (λ r. r.ended_at ≤ m.ended_at) rows
  All-below n [] h v = tt
  All-below n (r ∷ rows) h v = (omega (arith, h, v.0), All-below n rows h v.1)

  place-IsNewestFirst :
      (rows : List ResumableMeta) → IsNewestFirst rows → IsNewestFirst (place m rows)
  unfolding place
  place-IsNewestFirst [] v = (tt, tt)
  place-IsNewestFirst (r ∷ rows) v = elim (Bool-cases (ltb m.ended_at r.ended_at)) [
    | inl older ↦
        rw older
          (All-place r.ended_at rows (ground (arith, older)) v.0, place-IsNewestFirst rows v.1)
    | inr newer ↦
        let le : r.ended_at ≤ m.ended_at = ground (arith, newer) in
        rw newer ((le, All-below r.ended_at rows le v.0), v)
  ]

  In-place :
      (x : ResumableMeta) (rows : List ResumableMeta) → In x (place m rows) ↔ ((m ≡ x) ⊎ In x rows)
  unfolding place
  In-place x [] = (λ h. h, λ h. h)
  In-place x (r ∷ rows) = elim (Bool-cases (ltb m.ended_at r.ended_at)) [
    | inl older ↦ rw older (ground (arith, In-place x rows))
    | inr newer ↦ rw newer (λ h. h, λ h. h)
  ]

  length-place : (rows : List ResumableMeta) → length (place m rows) ≡ suc (length rows)
  unfolding place
  length-place [] = refl
  length-place (r ∷ rows) = ground (arith, length-place rows)

sort-IsNewestFirst : (rows : List ResumableMeta) → IsNewestFirst (sort rows)
unfolding sort
sort-IsNewestFirst [] = tt
sort-IsNewestFirst (m ∷ rows) = place-IsNewestFirst m (sort rows) (sort-IsNewestFirst rows)

In-sort : (x : ResumableMeta) (rows : List ResumableMeta) → In x (sort rows) ↔ In x rows
unfolding sort
In-sort x [] = (λ h. h, λ h. h)
In-sort x (m ∷ rows) = ground (arith, In-place m x (sort rows), In-sort x rows)

length-sort : (rows : List ResumableMeta) → length (sort rows) ≡ length rows
unfolding sort
length-sort [] = refl
length-sort (m ∷ rows) = ground (arith, length-place m (sort rows), length-sort rows)

-- The listing of a session is newest first, and has the rows that the session has, as many as it has.
pub all_ended-IsNewestFirst :
    (session : String) (index : Index ResumableMeta)
    → IsNewestFirst (all_ended session index)
      × ((x : ResumableMeta)
          → In x (all_ended session index) ↔ In x (values (rows_of session index)))
      × (length (all_ended session index) ≡ length (values (rows_of session index)))
unfolding all_ended
all_ended-IsNewestFirst session index =
    let rows = values (rows_of session index) in
    (sort-IsNewestFirst rows, λ x. In-sort x rows, length-sort rows)
