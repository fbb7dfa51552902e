-- ===== src/Git/Keeps.antt =====
-- What holds of a repository before the steps of an operation of src/git-exec.ts, and after them.
use Prim.Native.String.{String}
use herdr_web_broker.Common.{◌≡◌, refl, Option, some, none, str_eq, Bool-cases, inl, inr}
use herdr_web_broker.Common.Text.{trim}
use herdr_web_broker.Ops.{Result, ok, throws}
use herdr_web_broker.Git.{M, after, rescued, catch_with}
use herdr_web_broker.Git.Verbs.{trimmed_or}

module _ {R : Type 0} (P : R → Type 0) where
  pub after-keeps :
      {A B : Type 0} (f : A → M R B) (p : R × Result A)
      → P p.0
      → ((a : A) (x : R) → p.1 ≡ ok a → P x → P (f a x).0)
      → P (after p f).0
  after-keeps f (x, ok a) h next = next a x refl h
  after-keeps f (x, throws e) h next = h

  pub catch_with-keeps :
      {A : Type 0} (m : M R A) (other : A) (r : R) → P (m r).0 → P (catch_with m other r).0
  catch_with-keeps {A} m other r h = rescued-keeps (m r) h
    where
      rescued-keeps : (p : R × Result A) → P p.0 → P (rescued p other).0
      rescued-keeps (x, ok a) h = h
      rescued-keeps (x, throws e) h = h

  pub trimmed_or-keeps :
      (o : Option String) (other : M R String) (r : R)
      → P r
      → P (other r).0
      → P (trimmed_or o other r).0
  trimmed_or-keeps none other r h k = k
  trimmed_or-keeps (some s) other r h k = elim (Bool-cases (str_eq (trim s) "")) [
    | inl empty ↦ rw empty k
    | inr full ↦ rw full h
  ]
