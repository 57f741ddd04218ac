-- ===== src/Shared/TextOrder.antt =====
-- The order of texts is transitive and irreflexive.
use Prim.Native.Nat.{compare as compare_ℕ, Ordering}
use Prim.Native.Char.{Char, code}
use Prim.Native.String.{String, [], ◌∷◌, compare, then}
use Prim.Native.String.compare
use text.Mathlib.TextEquality.{path_by_compare}
use mathlib.Core.Path.{◌≡◌, refl}
use mathlib.Core.Bool.{true, false}
use native.Mathlib.Omega.{arith}
use xtrinode.Shared.Tests.{str_lt}

nil-compare : (d : Char) (t : String) → compare [] (d ∷ t) ≡ Ordering.lt
nil-compare d t = λ i. compare.nil-cons d t i

compare-nil : (d : Char) (t : String) → compare (d ∷ t) [] ≡ Ordering.gt
compare-nil d t = λ i. compare.cons-nil d t i

cons-compare :
    (c d : Char) (s t : String)
    → compare (c ∷ s) (d ∷ t) ≡ then (compare_ℕ (code c) (code d)) (compare s t)
cons-compare c d s t = λ i. compare.cons-cons c d s t i

pub str_lt_asym : (s t : String) → str_lt s t ≡ true → str_lt t s ≡ false
str_lt_asym [] [] p = refl
str_lt_asym [] (d ∷ t) p = ground (arith, compare-nil d t)
str_lt_asym (c ∷ s) [] p = ground (arith, compare-nil c s)
str_lt_asym (c ∷ s) (d ∷ t) p =
    ground (arith, cons-compare c d s t, cons-compare d c t s, str_lt_asym s t)

-- What is not below stays not below along a chain.
pub str_lt_ntrans : (s t u : String) → str_lt s t ≡ false → str_lt t u ≡ false → str_lt s u ≡ false
str_lt_ntrans s t [] p q = below_nothing s
  where
    below_nothing : (s : String) → str_lt s [] ≡ false
    below_nothing [] = refl
    below_nothing (c ∷ s) = ground (arith, compare-nil c s)
str_lt_ntrans s [] (e ∷ u) p q = ground (arith, nil-compare e u)
str_lt_ntrans [] (d ∷ t) (e ∷ u) p q = ground (arith, nil-compare d t)
str_lt_ntrans (c ∷ s) (d ∷ t) (e ∷ u) p q =
    ground
      (arith, cons-compare c d s t, cons-compare d e t u, cons-compare c e s u, str_lt_ntrans s t u)

abbrev flip : Ordering → Ordering
flip Ordering.lt = Ordering.gt
flip Ordering.eq = Ordering.eq
flip Ordering.gt = Ordering.lt

compare-flip : (s t : String) → compare t s ≡ flip (compare s t)
compare-flip [] [] = refl
compare-flip [] (d ∷ t) = ground (arith, compare-nil d t, nil-compare d t)
compare-flip (c ∷ s) [] = ground (arith, compare-nil c s, nil-compare c s)
compare-flip (c ∷ s) (d ∷ t) =
    ground (arith, cons-compare c d s t, cons-compare d c t s, compare-flip s t)

-- Two texts neither of which is below the other are equal.
pub str_lt_total : (s t : String) → str_lt s t ≡ false → str_lt t s ≡ false → s ≡ t
str_lt_total s t p q = path_by_compare s t (ground (arith, compare-flip s t))
