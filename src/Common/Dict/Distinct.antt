-- ===== src/Common/Dict/Distinct.antt =====
-- Dictionaries whose keys are pairwise distinct, as those of a `Map` always are.
use Prim.Native.String.{String}
use mathlib.Core.Path.{◌≡◌, refl, sym, ◌∙◌}
use mathlib.Core.Logic.{◌≢◌}
use mathlib.Core.List.{List, [], ◌∷◌, ◌++◌, append_assoc, append-nil}
use mathlib.Core.Option
use mathlib.Core.Option.{Option, none, some}
use native.Mathlib.Omega.{arith}
use text.Mathlib.TextEquality.{eq_iff}
use herdr_web_broker.Common.Lists.{All, All-append}
use herdr_web_broker.Common.Dict.{Dict, lookup, insert, remove}

module _ {ℓ} {V : Type ℓ} where
  abbrev pub IsFresh : String → Dict V → Type 0
  IsFresh k m = All (λ e. e.0 ≢ k) m

  abbrev pub HasDistinctKeys : Dict V → Type 0
  HasDistinctKeys [] = Unit
  HasDistinctKeys ((k, v) ∷ m) = IsFresh k m × HasDistinctKeys m

  IsFresh-insert :
      (k j : String) (v : V) (m : Dict V) → j ≢ k → IsFresh k m → IsFresh k (insert j v m)
  unfolding insert
  IsFresh-insert k j v [] n h = (n, tt)
  IsFresh-insert k j v ((i, w) ∷ m) n (p, h) = ground (arith, IsFresh-insert k j v m n h)

  pub insert-HasDistinctKeys :
      (k : String) (v : V) (m : Dict V) → HasDistinctKeys m → HasDistinctKeys (insert k v m)
  unfolding insert
  insert-HasDistinctKeys k v [] h = (tt, tt)
  insert-HasDistinctKeys k v ((j, w) ∷ m) (f, h) =
      ground (
        arith,
        eq_iff j k,
        insert-HasDistinctKeys k v m h,
        λ (n : k ≢ j). IsFresh-insert j k v m n f,
      )

  IsFresh-remove : (k j : String) (m : Dict V) → IsFresh k m → IsFresh k (remove j m)
  unfolding remove
  IsFresh-remove k j [] h = tt
  IsFresh-remove k j ((i, w) ∷ m) (p, h) = ground (arith, IsFresh-remove k j m h)

  pub remove-HasDistinctKeys :
      (k : String) (m : Dict V) → HasDistinctKeys m → HasDistinctKeys (remove k m)
  unfolding remove
  remove-HasDistinctKeys k [] h = tt
  remove-HasDistinctKeys k ((j, w) ∷ m) (f, h) =
      ground (arith, remove-HasDistinctKeys k m h, IsFresh-remove j k m f)

  -- `Object.fromEntries`, and a loop of `set`: a later entry replaces an earlier one of its key.
  unfoldable pub insert_all : Dict V → List (String × V) → Dict V
  insert_all m [] = m
  insert_all m ((k, v) ∷ es) = insert_all (insert k v m) es

  pub insert_all-HasDistinctKeys :
      (m : Dict V) (es : List (String × V)) → HasDistinctKeys m → HasDistinctKeys (insert_all m es)
  unfolding insert_all
  insert_all-HasDistinctKeys m [] h = h
  insert_all-HasDistinctKeys m ((k, v) ∷ es) h =
      insert_all-HasDistinctKeys (insert k v m) es (insert-HasDistinctKeys k v m h)

  pub insert_fresh :
      (k : String) (v : V) (m : Dict V) → IsFresh k m → insert k v m ≡ m ++ (k, v) ∷ []
  unfolding insert
  insert_fresh k v [] h = refl
  insert_fresh k v ((j, w) ∷ m) (p, h) = ground (arith, eq_iff j k, insert_fresh k v m h)

  abbrev AllFresh : Dict V → List (String × V) → Type 0
  AllFresh m [] = Unit
  AllFresh m ((k, v) ∷ es) = IsFresh k m × AllFresh m es

  AllFresh-concat :
      (m : Dict V) (k : String) (v : V) (es : List (String × V))
      → IsFresh k es
      → AllFresh m es
      → AllFresh (m ++ (k, v) ∷ []) es
  AllFresh-concat m k v [] f h = tt
  AllFresh-concat m k v ((j, w) ∷ es) (n, f) (p, h) = (
    All-append (λ e. e.0 ≢ j) m ((k, v) ∷ []) p ((λ e. n (sym e)), tt),
    AllFresh-concat m k v es f h,
  )

  insert_all-append :
      (m : Dict V) (es : List (String × V))
      → HasDistinctKeys es
      → AllFresh m es
      → insert_all m es ≡ m ++ es
  unfolding insert_all
  insert_all-append m [] d f = sym (append-nil m)
  insert_all-append m ((k, v) ∷ es) (g, d) (p, f) = rw (insert_fresh k v m p) (
      insert_all-append (m ++ (k, v) ∷ []) es d (AllFresh-concat m k v es g f)
      ∙ append_assoc m ((k, v) ∷ []) es)

  AllFresh-nil : (es : List (String × V)) → AllFresh [] es
  AllFresh-nil [] = tt
  AllFresh-nil ((k, v) ∷ es) = (tt, AllFresh-nil es)

  -- Writing distinct entries into an empty dictionary gives them back.
  pub insert_all-nil : (es : List (String × V)) → HasDistinctKeys es → insert_all [] es ≡ es
  insert_all-nil es d = insert_all-append [] es d (AllFresh-nil es)

module _ {ℓ κ} {V : Type ℓ} {W : Type κ} (f : V → W) where
  unfoldable pub map_values : Dict V → Dict W
  map_values [] = []
  map_values ((k, v) ∷ m) = (k, f v) ∷ map_values m

  pub lookup-map_values :
      (k : String) (m : Dict V) → lookup k (map_values m) ≡ Option.map f (lookup k m)
  unfolding lookup map_values
  lookup-map_values k [] = refl
  lookup-map_values k ((j, v) ∷ m) = ground (arith, lookup-map_values k m)

  IsFresh-map_values : (k : String) (m : Dict V) → IsFresh k m → IsFresh k (map_values m)
  unfolding map_values
  IsFresh-map_values k [] h = tt
  IsFresh-map_values k ((j, v) ∷ m) (p, h) = (p, IsFresh-map_values k m h)

  pub map_values-HasDistinctKeys : (m : Dict V) → HasDistinctKeys m → HasDistinctKeys (map_values m)
  unfolding map_values
  map_values-HasDistinctKeys [] h = tt
  map_values-HasDistinctKeys ((k, v) ∷ m) (g, h) =
      (IsFresh-map_values k m g, map_values-HasDistinctKeys m h)
