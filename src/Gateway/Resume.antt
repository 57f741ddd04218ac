-- ===== src/Gateway/Resume.antt =====
-- xtrinode/pkg/gateway/resume_candidate.go: which backend of a route is woken when none runs.
pub mod Best
pub mod Order
mod Examples
use xtrinode.Shared.{
  ℕ, String, Bool, true, false, ◌&&◌, ◌||◌, not, ltb, ◌==◌, str_eq, str_lt, if◌then◌else◌, Option,
  none, some, List,
}
use xtrinode.Shared.Pick.{pick_from}
use xtrinode.Gateway.Health.{HealthChecker, is_sleeping}
use xtrinode.Gateway.Route.{
  BackendState, unset, running, paused, resuming, draining, removed, other, Backend, RouteEntry,
  GatewayService,
}
use xtrinode.Gateway.Select.{is_running, capacity_of}

unfoldable pub resume_state_priority : BackendState → Option ℕ
resume_state_priority paused = some 0
resume_state_priority resuming = some 1
resume_state_priority _ = none

abbrev pub is_some : Option ℕ → Bool
is_some none = false
is_some (some n) = true

abbrev pub priority : Option ℕ → ℕ
priority none = 0
priority (some n) = n

-- Active, with a name and a namespace.
abbrev pub is_configured : Backend → Bool
is_configured b = b.active && (not (str_eq b.name "") && not (str_eq b.namespace ""))

unfoldable pub is_resumable : Backend → Bool
unfolding resume_state_priority
is_resumable b = is_configured b && is_some (resume_state_priority b.state)

-- The order on name and namespace that breaks a tie.
unfoldable pub name_before : Backend → Backend → Bool
name_before a b = str_lt a.name b.name || (str_eq a.name b.name && str_lt a.namespace b.namespace)

unfoldable pub smaller : Backend → Backend → Bool
smaller a b =
    ltb (capacity_of a) (capacity_of b) || (capacity_of a == capacity_of b && name_before a b)

unfoldable pub resumes_before : Backend → Backend → Bool
resumes_before a b =
    let p = priority (resume_state_priority a.state) in
    let q = priority (resume_state_priority b.state) in ltb p q || (p == q && smaller a b)

unfoldable pub is_stale_sleeper : ℕ → HealthChecker → Backend → Bool
is_stale_sleeper now hc b =
    is_configured b && (is_running b.state && is_sleeping now b.coordinator_url hc)

unfoldable pub pick_sleeping_resume_candidate :
    ℕ → List Backend → Option HealthChecker → Option Backend
pick_sleeping_resume_candidate now bs none = none
pick_sleeping_resume_candidate now bs (some hc) =
    pick_from (is_stale_sleeper now hc) smaller none bs

abbrev pub or_else : Option Backend → Option Backend → Option Backend
or_else (some r) fallback = some r
or_else none fallback = fallback

unfoldable pub pick_resume_candidate : ℕ → Option RouteEntry → GatewayService → Option Backend
pick_resume_candidate now none gs = none
pick_resume_candidate now (some route) gs =
    or_else (pick_from is_resumable resumes_before none route.backends)
      (pick_sleeping_resume_candidate now route.backends gs.health_checker)
