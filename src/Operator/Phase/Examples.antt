-- ===== src/Operator/Phase/Examples.antt =====
-- The phase theorems at concrete phases.
use xtrinode.Shared.{◌≡◌, ◌≢◌, refl, true, arith, eq_iff}
use xtrinode.Shared.Dict.{lookup}
use xtrinode.Operator.Phase.{
  Phase, phase_pending, phase_reconciling, phase_ready, phase_suspending, phase_suspended,
  phase_error, is_valid, transition_to,
}
use xtrinode.Operator.Phase.Reach.{Reaches, transition_to-Reaches}

error_valid : is_valid phase_error ≡ true
unfolding is_valid
error_valid = refl

ready_valid : is_valid phase_ready ≡ true
unfolding is_valid
ready_valid = refl

ready_not_pending : ◌≢◌ {A = Phase} phase_ready phase_pending
ready_not_pending = ground (arith, eq_iff phase_ready phase_pending)

transition_to-Reaches_example : Reaches phase_error phase_ready
transition_to-Reaches_example =
    transition_to-Reaches phase_error phase_ready error_valid ready_valid ready_not_pending

reconciling_to_ready : transition_to phase_reconciling phase_ready ≡ true
unfolding transition_to lookup
reconciling_to_ready = refl

ready_not_reconciling : ◌≢◌ {A = Phase} phase_ready phase_reconciling
ready_not_reconciling = ground (arith, eq_iff phase_ready phase_reconciling)

suspending_to_suspended : transition_to phase_suspending phase_suspended ≡ true
unfolding transition_to lookup
suspending_to_suspended = refl

suspended_not_suspending : ◌≢◌ {A = Phase} phase_suspended phase_suspending
suspended_not_suspending = ground (arith, eq_iff phase_suspended phase_suspending)
