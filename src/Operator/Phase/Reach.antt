-- ===== src/Operator/Phase/Reach.antt =====
-- phases.go: where the allowed transitions lead.
use xtrinode.Shared.{◌≡◌, ◌≢◌, refl, sym, subst, true, arith, eq_iff, ◌⊎◌, inl, inr}
use xtrinode.Shared.Dict.{lookup}
use xtrinode.Operator.Phase.{
  Phase, phase_pending, phase_reconciling, phase_ready, phase_suspending, phase_suspended,
  phase_resuming, phase_error, is_valid, transition_to,
}

-- Any number of allowed transitions.
pub data Reaches : Phase → Phase → Type 0 where
  stay : (p : Phase) → Reaches p p
  move : (p q r : Phase) → transition_to p q ≡ true → Reaches q r → Reaches p r

-- Allowed transitions, none of which enters the phase that is avoided.
pub data ReachesAvoiding (avoided : Phase) : Phase → Phase → Type 0 where
  stay_off : (p : Phase) → ReachesAvoiding avoided p p
  move_off :
      (p q r : Phase)
      → transition_to p q ≡ true
      → q ≢ avoided
      → ReachesAvoiding avoided q r
      → ReachesAvoiding avoided p r

Reaches-trans : (p q r : Phase) → Reaches p q → Reaches q r → Reaches p r
Reaches-trans _ _ r (stay p) b = b
Reaches-trans _ _ r (move p s q t a) b = move p s r t (Reaches-trans s q r a b)

one_step : (p q : Phase) → transition_to p q ≡ true → Reaches p q
one_step p q t = move p q q t (stay q)

-- The seven phases.
valid_cases :
    (p : Phase)
    → is_valid p ≡ true
    → (p ≡ phase_pending)
      ⊎ (p ≡ phase_reconciling)
      ⊎ (p ≡ phase_ready)
      ⊎ (p ≡ phase_suspending)
      ⊎ (p ≡ phase_suspended)
      ⊎ (p ≡ phase_resuming)
      ⊎ (p ≡ phase_error)
unfolding is_valid
valid_cases p v = ground (
  arith,
  eq_iff p phase_pending,
  eq_iff p phase_reconciling,
  eq_iff p phase_ready,
  eq_iff p phase_suspending,
  eq_iff p phase_suspended,
  eq_iff p phase_resuming,
  eq_iff p phase_error,
)

to_error : (p : Phase) → is_valid p ≡ true → Reaches p phase_error
unfolding transition_to lookup
to_error p v = elim (valid_cases p v) [
  | inl e ↦ subst (λ q. Reaches q phase_error) (sym e) (one_step phase_pending phase_error refl)
  | inr (inl e) ↦
      subst (λ q. Reaches q phase_error) (sym e) (one_step phase_reconciling phase_error refl)
  | inr (inr (inl e)) ↦
      subst (λ q. Reaches q phase_error) (sym e) (one_step phase_ready phase_error refl)
  | inr (inr (inr (inl e))) ↦
      subst (λ q. Reaches q phase_error) (sym e) (one_step phase_suspending phase_error refl)
  | inr (inr (inr (inr (inl e)))) ↦
      subst (λ q. Reaches q phase_error) (sym e) (one_step phase_suspended phase_error refl)
  | inr (inr (inr (inr (inr (inl e))))) ↦
      subst (λ q. Reaches q phase_error) (sym e) (one_step phase_resuming phase_error refl)
  | inr (inr (inr (inr (inr (inr e))))) ↦
      subst (λ q. Reaches q phase_error) (sym e) (stay phase_error)
]

from_error : (p : Phase) → is_valid p ≡ true → p ≢ phase_pending → Reaches phase_error p
unfolding transition_to lookup
from_error p v n = elim (valid_cases p v) [
  | inl e ↦ elim (n e) [ ]
  | inr (inl e) ↦ subst (Reaches phase_error) (sym e) (one_step phase_error phase_reconciling refl)
  | inr (inr (inl e)) ↦ subst (Reaches phase_error) (sym e) (
      move phase_error phase_reconciling phase_ready refl
        (one_step phase_reconciling phase_ready refl))
  | inr (inr (inr (inl e))) ↦
      subst (Reaches phase_error) (sym e) (one_step phase_error phase_suspending refl)
  | inr (inr (inr (inr (inl e)))) ↦ subst (Reaches phase_error) (sym e) (
      move phase_error phase_suspending phase_suspended refl
        (one_step phase_suspending phase_suspended refl))
  | inr (inr (inr (inr (inr (inl e))))) ↦
      subst (Reaches phase_error) (sym e) (one_step phase_error phase_resuming refl)
  | inr (inr (inr (inr (inr (inr e))))) ↦ subst (Reaches phase_error) (sym e) (stay phase_error)
]

-- From every valid phase, the one called terminal included, each valid phase but Pending can be
-- reached by allowed transitions.
pub transition_to-Reaches :
    (p q : Phase) → is_valid p ≡ true → is_valid q ≡ true → q ≢ phase_pending → Reaches p q
transition_to-Reaches p q v w n = Reaches-trans p phase_error q (to_error p v) (from_error q w n)

-- The one phase before Ready, and the one before Suspended.
into_ready : (p : Phase) → transition_to p phase_ready ≡ true → p ≡ phase_reconciling
unfolding transition_to lookup
into_ready p t = ground (arith, t, eq_iff phase_reconciling p)

into_suspended : (p : Phase) → transition_to p phase_suspended ≡ true → p ≡ phase_suspending
unfolding transition_to lookup
into_suspended p t = ground (arith, t, eq_iff phase_suspending p)

off_reconciling :
    (p r : Phase)
    → ReachesAvoiding phase_reconciling p r
    → r ≡ phase_ready
    → (p ≡ phase_ready) ⊎ (p ≡ phase_reconciling)
off_reconciling _ _ (stay_off p) e = inl e
off_reconciling _ _ (move_off p q r t n rest) e = elim (off_reconciling q r rest e) [
  | inl at ↦ inr (into_ready p (subst (λ s. transition_to p s ≡ true) at t))
  | inr at ↦ elim (n at) [ ]
]

off_suspending :
    (p r : Phase)
    → ReachesAvoiding phase_suspending p r
    → r ≡ phase_suspended
    → (p ≡ phase_suspended) ⊎ (p ≡ phase_suspending)
off_suspending _ _ (stay_off p) e = inl e
off_suspending _ _ (move_off p q r t n rest) e = elim (off_suspending q r rest e) [
  | inl at ↦ inr (into_suspended p (subst (λ s. transition_to p s ≡ true) at t))
  | inr at ↦ elim (n at) [ ]
]

-- Allowed transitions that never enter Reconciling lead to Ready only from Ready or Reconciling.
pub ready_after_reconciling :
    (p : Phase)
    → ReachesAvoiding phase_reconciling p phase_ready
    → (p ≡ phase_ready) ⊎ (p ≡ phase_reconciling)
ready_after_reconciling p a = off_reconciling p phase_ready a refl

-- Allowed transitions that never enter Suspending lead to Suspended only from Suspended or
-- Suspending.
pub suspended_after_suspending :
    (p : Phase)
    → ReachesAvoiding phase_suspending p phase_suspended
    → (p ≡ phase_suspended) ⊎ (p ≡ phase_suspending)
suspended_after_suspending p a = off_suspending p phase_suspended a refl
