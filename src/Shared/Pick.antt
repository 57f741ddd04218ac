-- ===== src/Shared/Pick.antt =====
-- The best of the entries that are eligible, the first where several are level: one pass that keeps
-- the best so far and replaces it by a strictly better one.
use mathlib.Core.Path.{◌≡◌, refl}
use mathlib.Core.Logic.{inl, inr}
use mathlib.Core.Bool.{Bool, true, false}
use mathlib.Core.Option.{Option, none, some}
use mathlib.Core.List.{List, [], ◌∷◌}
use native.Mathlib.Omega.{arith}
use xtrinode.Shared.Tests.{if◌then◌else◌, Bool-cases}
use xtrinode.Shared.Lists.{All, Member, here, there, Member-skip}

module _ {A : Type 0} (eligible : A → Bool) (better : A → A → Bool) where
  abbrev pub improve : A → Option A → Option A
  improve b none = some b
  improve b (some s) = if better b s then some b else some s

  unfoldable pub pick_from : Option A → List A → Option A
  pick_from best [] = best
  pick_from best (b ∷ bs) = pick_from (if eligible b then improve b best else best) bs

  -- `r` is eligible, and nothing eligible in the list is better.
  abbrev pub IsBest : A → List A → Type 0
  IsBest r bs = (eligible r ≡ true) × All (λ b. eligible b ≡ true → better b r ≡ false) bs

  -- A pass that picks `o` from `bs`: an entry that nothing beats, or nothing if none is eligible.
  abbrev pub Picks : List A → Option A → Type 0
  Picks bs none = All (λ b. eligible b ≡ false) bs
  Picks bs (some r) = Member r bs × IsBest r bs

module _ {A : Type 0} (eligible : A → Bool) (better : A → A → Bool)
    (asym : (a b : A) → better a b ≡ true → better b a ≡ false)
    (ntrans : (a b c : A) → better a b ≡ false → better b c ≡ false → better a c ≡ false) where
  irrefl : (a : A) → better a a ≡ false
  irrefl a = ground (arith, asym a a)

  -- `s` gave way to `b`, which does not beat `r`.
  gave_way : (r b s : A) → better b s ≡ true → better b r ≡ false → better s r ≡ false
  gave_way r b s p q = ground (arith, asym s r, ntrans b r s)

  pick_from-Picks :
      (s : A) (bs : List A)
      → eligible s ≡ true
      → (r : A) × (pick_from eligible better (some s) bs ≡ some r)
        × Member r (s ∷ bs)
        × IsBest eligible better r (s ∷ bs)
  unfolding pick_from
  pick_from-Picks s [] e = (s, refl, here, (e, ((λ _. irrefl s), tt)))
  pick_from-Picks s (b ∷ bs) e = elim (Bool-cases (eligible b)) [
    | inr n ↦
        let (r, scan, among, (ok, best)) = pick_from-Picks s bs e in
        (r, rw n scan, Member-skip s b bs among, (ok, (best.0, ((λ h. cc), best.1))))
    | inl y ↦ elim (Bool-cases (better b s)) [
      | inl p ↦
          let (r, scan, among, (ok, best)) = pick_from-Picks b bs y in
          (r, rw (y, p) scan, there among, (ok, ((λ h. gave_way r b s p (best.0 y)), best)))
      | inr p ↦
          let (r, scan, among, (ok, best)) = pick_from-Picks s bs e in
          (
            r,
            rw (y, p) scan,
            Member-skip s b bs among,
            (ok, (best.0, ((λ h. ntrans b s r p (best.0 e)), best.1))),
          )
    ]
  ]

  Picks-cons :
      (b : A) (bs : List A) (o : Option A)
      → eligible b ≡ false
      → Picks eligible better bs o
      → Picks eligible better (b ∷ bs) o
  Picks-cons b bs none e p = (e, p)
  Picks-cons b bs (some r) e (among, (ok, best)) = (there among, (ok, ((λ h. cc), best)))

  -- The pass over a list picks an eligible entry that no eligible one beats, and picks nothing only
  -- if no entry is eligible.
  pub pick_from-none-Picks :
      (bs : List A) → Picks eligible better bs (pick_from eligible better none bs)
  unfolding pick_from
  pick_from-none-Picks [] = tt
  pick_from-none-Picks (b ∷ bs) = elim (Bool-cases (eligible b)) [
    | inl y ↦ let (r, scan, among, best) = pick_from-Picks b bs y in rw (y, scan) (among, best)
    | inr n ↦ rw n (Picks-cons b bs _ n (pick_from-none-Picks bs))
  ]
