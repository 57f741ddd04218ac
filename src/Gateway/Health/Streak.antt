-- ===== src/Gateway/Health/Streak.antt =====
-- health.go, over many probes: a round of checks in any order, and a run of failures.
use xtrinode.Shared.{
  ℕ, ◌+◌, ◌<◌, String, ◌≡◌, refl, ◌∙◌, ◌≢◌, ◌⊎◌, Bool, true, arith, leb, not, if◌then◌else◌, some,
  List, [], ◌∷◌, eq_iff, eq_refl, Member, here, there, ◌&&◌, All, length,
}
use xtrinode.Shared.Dict.{lookup}
use xtrinode.Gateway.Health.{
  unhealthy, HealthChecker, ProbeOutcome, probe_backend, check_all_backends,
}
use xtrinode.Gateway.Health.State.{
  probed, lookup-probe_backend, state_of, failures_of, is_success, is_connection_error,
  probed_state,
}

-- A round of checks over distinct backends, as the key list of a map is.
abbrev pub NotAmong : String → List (String × ProbeOutcome) → Type 0
NotAmong url [] = Unit
NotAmong url ((u, o) ∷ rest) = (u ≢ url) × NotAmong url rest

abbrev pub Distinct : List (String × ProbeOutcome) → Type 0
Distinct [] = Unit
Distinct ((u, o) ∷ rest) = NotAmong u rest × Distinct rest

NotAmong-ne :
    (u : String) (v : String) (o : ProbeOutcome) (rest : List (String × ProbeOutcome))
    → NotAmong u rest
    → Member (v, o) rest
    → v ≢ u
NotAmong-ne u v o [] n m = elim m [ ]
NotAmong-ne u v o (_ ∷ rest) n here = n.0
NotAmong-ne u v o (_ ∷ rest) n (there m) = NotAmong-ne u v o rest n.1 m

-- A backend that was not checked keeps its entry.
check_all_backends-other :
    (now : ℕ) (url : String) (es : List (String × ProbeOutcome)) (hc : HealthChecker)
    → NotAmong url es
    → (lookup url (check_all_backends now es hc).health_status ≡ lookup url hc.health_status)
unfolding check_all_backends
check_all_backends-other now url [] hc n = refl
check_all_backends-other now url ((u, o) ∷ rest) hc n = ground (
  arith,
  eq_iff u url,
  check_all_backends-other now url rest (probe_backend now u o hc).0 n.1,
  lookup-probe_backend now u url o hc,
)

-- After a round of checks over distinct backends, in whatever order the checks wrote, the entry of
-- each backend that was checked is the one that its own check makes of the entry before the round.
pub check_all_backends-checked :
    (now : ℕ) (es : List (String × ProbeOutcome)) (hc : HealthChecker)
    → Distinct es
    → (url : String) (outcome : ProbeOutcome) → Member (url, outcome) es
    → lookup url (check_all_backends now es hc).health_status
      ≡ some (probed now hc.failure_threshold url outcome (lookup url hc.health_status))
unfolding check_all_backends
check_all_backends-checked now [] hc d url outcome m = elim m [ ]
check_all_backends-checked now (_ ∷ rest) hc d url outcome here =
    check_all_backends-other now url rest (probe_backend now url outcome hc).0 d.0
    ∙ (lookup-probe_backend now url url outcome hc).0
    ∙ rw (eq_refl url)
check_all_backends-checked now ((u, o) ∷ rest) hc d url outcome (there m) = ground (
  arith,
  eq_iff u url,
  NotAmong-ne u url outcome rest d.0 m,
  check_all_backends-checked now rest (probe_backend now u o hc).0 d.1 url outcome m,
  lookup-probe_backend now u url o hc,
)

-- Probes of one backend, one after another.
unfoldable pub probe_all : String → List (ℕ × ProbeOutcome) → HealthChecker → HealthChecker
probe_all url [] hc = hc
probe_all url ((now, outcome) ∷ rest) hc = probe_all url rest (probe_backend now url outcome hc).0

abbrev pub is_failure : ProbeOutcome → Bool
is_failure outcome = not (is_success outcome) && not (is_connection_error outcome)

abbrev pub Fails : ℕ × ProbeOutcome → Type 0
Fails (now, outcome) = is_failure outcome ≡ true

step-failure :
    (url : String) (now : ℕ) (outcome : ProbeOutcome) (hc : HealthChecker)
    → is_failure outcome ≡ true
    → let old = lookup url hc.health_status in
      let hc' = (probe_backend now url outcome hc).0 in
      let new = lookup url hc'.health_status in
      (state_of new
        ≡ (if leb hc.failure_threshold (failures_of old + 1) then unhealthy else state_of old))
      × (failures_of new ≡ failures_of old + 1)
      × (hc'.failure_threshold ≡ hc.failure_threshold)
step-failure url now outcome hc f =
    let old = lookup url hc.health_status in
    ground (
      arith,
      lookup-probe_backend now url url outcome hc,
      eq_refl url,
      probed_state now hc.failure_threshold url outcome old,
    )

-- A run of failures that are no connection errors makes a backend unhealthy exactly when it carries
-- the count of failures to the threshold, and otherwise leaves its state alone; each failure counts.
-- Before the run the backend is unhealthy or its count is below the threshold.
pub probe_all-unhealthy :
    (url : String) (es : List (ℕ × ProbeOutcome)) (hc : HealthChecker)
    → let old = lookup url hc.health_status in
      let new = lookup url (probe_all url es hc).health_status in
      (state_of old ≡ unhealthy) ⊎ (failures_of old < hc.failure_threshold)
      → All Fails es
      → (state_of new ≡ (
          if leb hc.failure_threshold (failures_of old + length es)
          then unhealthy
          else state_of old))
        × (failures_of new ≡ failures_of old + length es)
unfolding probe_all
probe_all-unhealthy url [] hc l a = ground arith
probe_all-unhealthy url ((now, outcome) ∷ es) hc l a = ground (
  arith,
  step-failure url now outcome hc a.0,
  probe_all-unhealthy url es (probe_backend now url outcome hc).0,
)
