-- ===== src/Shared/Dict.antt =====
-- Go's `map[string]V` as an association list. `insert` replaces in place, so keys stay distinct.
use Prim.Native.String.{String}
use text.Mathlib.TextEquality.{eq_iff}
use mathlib.Core.Path.{◌≡◌, refl}
use mathlib.Core.Bool.{Bool}
use mathlib.Core.Option.{Option, none, some}
use mathlib.Core.List.{List, [], ◌∷◌}
use native.Mathlib.Omega.{arith}
use xtrinode.Shared.Tests.{str_eq, if◌then◌else◌}
use xtrinode.Shared.Lists.{keep}

abbrev pub Dict {ℓ} : Type ℓ → Type ℓ
Dict V = List (String × V)

module _ {ℓ} {V : Type ℓ} where
  -- `m[key]` with the flag that says whether it is there.
  unfoldable pub lookup : String → Dict V → Option V
  lookup key [] = none
  lookup key ((name, value) ∷ entries) = if str_eq name key then some value else lookup key entries

  -- `m[key] = value`.
  unfoldable pub insert : String → V → Dict V → Dict V
  insert key value [] = (key, value) ∷ []
  insert key value ((name, old) ∷ entries) =
      let behind = insert key value entries in
      if str_eq name key then (key, value) ∷ entries else (name, old) ∷ behind

  unfoldable pub delete : String → Dict V → Dict V
  delete k [] = []
  delete k ((j, w) ∷ m) = if str_eq j k then delete k m else (j, w) ∷ delete k m

  -- No key stands twice.
  abbrev pub IsDistinct : Dict V → Type ℓ
  IsDistinct [] = Unit
  IsDistinct ((k, v) ∷ m) = (lookup k m ≡ none) × IsDistinct m

  -- The value under a key, if it passes a test.
  abbrev pub passing : (V → Bool) → Option V → Option V
  passing p none = none
  passing p (some v) = if p v then some v else none

  abbrev pub by_value : (V → Bool) → String × V → Bool
  by_value p (k, v) = p v

module _ {ℓ} {V : Type ℓ} where
  pub lookup-insert :
      (written read : String) (value : V) (entries : Dict V)
      → lookup read (insert written value entries)
        ≡ (if str_eq written read then some value else lookup read entries)
  unfolding lookup insert
  lookup-insert written read value [] = refl
  lookup-insert written read value ((name, old) ∷ entries) = ground (
    arith,
    lookup-insert written read value entries,
    eq_iff name written,
    eq_iff name read,
    eq_iff written read,
  )

  pub lookup-delete :
      (k j : String) (m : Dict V)
      → lookup j (delete k m) ≡ (if str_eq k j then none else lookup j m)
  unfolding lookup delete
  lookup-delete k j [] = ground arith
  lookup-delete k j ((i, w) ∷ m) =
      ground (arith, eq_iff k j, eq_iff i k, eq_iff i j, lookup-delete k j m)

  pub lookup-keep :
      (p : V → Bool) (j : String) (m : Dict V)
      → IsDistinct m
      → lookup j (keep (by_value p) m) ≡ passing p (lookup j m)
  unfolding lookup
  lookup-keep p j [] h = refl
  lookup-keep p j ((i, w) ∷ m) h = ground (arith, eq_iff i j, lookup-keep p j m h.1)

  pub insert-IsDistinct :
      (k : String) (v : V) (m : Dict V) → IsDistinct m → IsDistinct (insert k v m)
  unfolding lookup insert
  insert-IsDistinct k v [] h = (refl, tt)
  insert-IsDistinct k v ((i, w) ∷ m) h =
      ground (arith, eq_iff i k, eq_iff k i, lookup-insert k i v m, insert-IsDistinct k v m h.1)

  pub delete-IsDistinct : (k : String) (m : Dict V) → IsDistinct m → IsDistinct (delete k m)
  unfolding delete
  delete-IsDistinct k [] h = tt
  delete-IsDistinct k ((i, w) ∷ m) h =
      ground (arith, eq_iff k i, lookup-delete k i m, delete-IsDistinct k m h.1)

  pub keep-IsDistinct :
      (p : V → Bool) (m : Dict V) → IsDistinct m → IsDistinct (keep (by_value p) m)
  keep-IsDistinct p [] h = tt
  keep-IsDistinct p ((i, w) ∷ m) h = ground (arith, lookup-keep p i m h.1, keep-IsDistinct p m h.1)
