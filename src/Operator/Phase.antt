-- ===== src/Operator/Phase.antt =====
-- xtrinode/internal/status/phases.go: the lifecycle phases of a cluster, a type of texts as in the
-- source.
pub mod Reach
mod Examples
use xtrinode.Shared.{
  String, Bool, true, false, ◌&&◌, ◌||◌, str_eq, Option, none, some, List, [], ◌∷◌,
}
use xtrinode.Shared.Dict.{Dict, lookup}

abbrev pub Phase : Type 0
Phase = String

abbrev pub phase_pending : Phase
phase_pending = "Pending"

abbrev pub phase_reconciling : Phase
phase_reconciling = "Reconciling"

abbrev pub phase_ready : Phase
phase_ready = "Ready"

abbrev pub phase_suspending : Phase
phase_suspending = "Suspending"

abbrev pub phase_suspended : Phase
phase_suspended = "Suspended"

abbrev pub phase_resuming : Phase
phase_resuming = "Resuming"

abbrev pub phase_error : Phase
phase_error = "Error"

abbrev pub valid_phases : List Phase
valid_phases =
    phase_pending ∷ phase_reconciling ∷ phase_ready ∷ phase_suspending ∷ phase_suspended
    ∷ phase_resuming ∷ phase_error ∷ []

abbrev pub one_of : Phase → List Phase → Bool
one_of p [] = false
one_of p (q ∷ qs) = str_eq p q || one_of p qs

unfoldable pub is_valid : Phase → Bool
is_valid p = one_of p valid_phases

unfoldable pub valid_transitions : Dict (List Phase)
valid_transitions =
    (phase_pending, phase_reconciling ∷ phase_error ∷ [])
    ∷ (phase_reconciling, phase_ready ∷ phase_suspending ∷ phase_error ∷ [])
    ∷ (phase_ready, phase_suspending ∷ phase_reconciling ∷ phase_error ∷ [])
    ∷ (phase_suspending, phase_suspended ∷ phase_error ∷ [])
    ∷ (phase_suspended, phase_resuming ∷ phase_error ∷ [])
    ∷ (phase_resuming, phase_reconciling ∷ phase_error ∷ [])
    ∷ (phase_error, phase_reconciling ∷ phase_suspending ∷ phase_resuming ∷ [])
    ∷ []

abbrev pub listed_in : Option (List Phase) → List Phase
listed_in none = []
listed_in (some ps) = ps

-- Whether the transition returns no error.
unfoldable pub transition_to : Phase → Phase → Bool
unfolding is_valid valid_transitions
transition_to p next = is_valid next && one_of next (listed_in (lookup p valid_transitions))

unfoldable pub is_terminal_phase : Phase → Bool
is_terminal_phase p = str_eq p phase_error

unfoldable pub requires_action : Phase → Bool
requires_action p =
    str_eq p phase_pending
    || str_eq p phase_reconciling
    || str_eq p phase_suspending
    || str_eq p phase_resuming
