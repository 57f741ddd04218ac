-- ===== src/Gateway/Resume/Order.antt =====
-- resume_candidate.go: the documented order of candidates, written out, and the candidate's place in
-- it.
use xtrinode.Shared.{
  ℕ, ◌≡◌, ◌<◌, refl, true, false, arith, Option, none, some, List, eq_iff, Member, All-Member, ◌⊎◌,
  inl, inr, str_lt, ◌≢◌, subst,
}
use xtrinode.Shared.TextOrder.{str_lt_total}
use xtrinode.Shared.Pick.{Picks}
use xtrinode.Gateway.Health.{HealthChecker, is_sleeping}
use xtrinode.Gateway.Route.{Backend, RouteEntry, GatewayService, unset, running, paused, resuming}
use xtrinode.Gateway.Select.{capacity_of}
use xtrinode.Gateway.Resume.{
  is_resumable, name_before, smaller, resumes_before, is_stale_sleeper, resume_state_priority,
  pick_resume_candidate,
}
use xtrinode.Gateway.Resume.Best.{pick_resume_candidate-Picks, PicksFallback}

-- Active, with a name and a namespace.
abbrev pub Configured : Backend → Type 0
Configured b = (b.active ≡ true) × (b.name ≢ "") × (b.namespace ≢ "")

-- A configured backend that is paused or resuming.
abbrev pub Resumable : Backend → Type 0
Resumable b = Configured b × ((b.state ≡ paused) ⊎ (b.state ≡ resuming))

-- A configured backend that runs by its route and sleeps by the health checker.
abbrev pub StaleSleeper : ℕ → HealthChecker → Backend → Type 0
StaleSleeper now hc b =
    Configured b
    × ((b.state ≡ unset) ⊎ (b.state ≡ running))
    × (is_sleeping now b.coordinator_url hc ≡ true)

-- `r` is the smaller one, or has as much capacity and is not behind in name and namespace.
abbrev pub NotLarger : Backend → Backend → Type 0
NotLarger r b =
    (capacity_of r < capacity_of b)
    ⊎ ((capacity_of r ≡ capacity_of b)
        × ((str_lt r.name b.name ≡ true)
            ⊎ ((r.name ≡ b.name) × (str_lt b.namespace r.namespace ≡ false))))

-- `r` is paused where `b` is resuming, or is in the same state and not larger.
abbrev pub NotAfter : Backend → Backend → Type 0
NotAfter r b = ((r.state ≡ paused) × (b.state ≡ resuming)) ⊎ ((r.state ≡ b.state) × NotLarger r b)

Resumable-is_resumable : (b : Backend) → Resumable b → is_resumable b ≡ true
unfolding is_resumable resume_state_priority
Resumable-is_resumable b h = ground (arith, eq_iff b.name "", eq_iff b.namespace "")

is_resumable-Resumable : (b : Backend) → is_resumable b ≡ true → Resumable b
unfolding is_resumable resume_state_priority
is_resumable-Resumable b h = ground (arith, eq_iff b.name "", eq_iff b.namespace "")

StaleSleeper-is_stale_sleeper :
    (now : ℕ) (hc : HealthChecker) (b : Backend)
    → StaleSleeper now hc b
    → is_stale_sleeper now hc b ≡ true
unfolding is_stale_sleeper
StaleSleeper-is_stale_sleeper now hc b h = ground (arith, eq_iff b.name "", eq_iff b.namespace "")

is_stale_sleeper-StaleSleeper :
    (now : ℕ) (hc : HealthChecker) (b : Backend)
    → is_stale_sleeper now hc b ≡ true
    → StaleSleeper now hc b
unfolding is_stale_sleeper
is_stale_sleeper-StaleSleeper now hc b h = ground (arith, eq_iff b.name "", eq_iff b.namespace "")

smaller-NotLarger : (r b : Backend) → smaller b r ≡ false → NotLarger r b
unfolding smaller name_before
smaller-NotLarger r b h =
    ground (arith, str_lt_total r.name b.name, eq_iff b.name r.name, eq_iff r.name b.name)

resumes_before-NotAfter :
    (r b : Backend) → Resumable r → Resumable b → resumes_before b r ≡ false → NotAfter r b
unfolding resumes_before resume_state_priority
resumes_before-NotAfter r b p q h = ground (arith, smaller-NotLarger r b)

-- Whenever a route has an active, named backend that is paused or resuming, one such backend of the
-- route is picked, and it does not come after any other: paused goes before resuming, then the
-- smaller capacity, then the lower name, then the lower namespace.
pub pick_resume_candidate-NotAfter :
    (now : ℕ) (route : RouteEntry) (gs : GatewayService) (b : Backend)
    → Member b route.backends
    → Resumable b
    → (r : Backend) × (pick_resume_candidate now (some route) gs ≡ some r)
      × Member r route.backends
      × Resumable r
      × NotAfter r b
pick_resume_candidate-NotAfter now route gs b among h =
    elim (pick_resume_candidate-Picks now route gs) [
      | inl (r, e, m, (ok, best)) ↦
          let rr = is_resumable-Resumable r ok in
          (
            r,
            e,
            m,
            rr,
            resumes_before-NotAfter r b rr h
                (All-Member _ route.backends best among (Resumable-is_resumable b h)),
          )
      | inr (nobody, rest) ↦
          ground (arith, All-Member _ route.backends nobody among, Resumable-is_resumable b h)
    ]

settle_fallback :
    (now : ℕ) (hc : HealthChecker) (bs : List Backend) (o : Option Backend) (b : Backend)
    → Member b bs
    → StaleSleeper now hc b
    → Picks (is_stale_sleeper now hc) smaller bs o
    → (r : Backend) × (o ≡ some r) × Member r bs × StaleSleeper now hc r × NotLarger r b
settle_fallback now hc bs none b among h p =
    ground (arith, All-Member _ bs p among, StaleSleeper-is_stale_sleeper now hc b h)
settle_fallback now hc bs (some r) b among h (m, (ok, best)) = (
  r,
  refl,
  m,
  is_stale_sleeper-StaleSleeper now hc r ok,
  smaller-NotLarger r b (All-Member _ bs best among (StaleSleeper-is_stale_sleeper now hc b h)),
)

-- Where no backend of a route is resumable, but an active, named one runs by the route and is
-- freshly asleep by the health checker, one such backend is picked, and none of them is smaller:
-- by capacity, then name, then namespace.
pub pick_resume_candidate_stale :
    (now : ℕ) (route : RouteEntry) (gs : GatewayService) (hc : HealthChecker) (b : Backend)
    → gs.health_checker ≡ some hc
    → ((r : Backend) → Member r route.backends → ¬ Resumable r)
    → Member b route.backends
    → StaleSleeper now hc b
    → (r : Backend) × (pick_resume_candidate now (some route) gs ≡ some r)
      × Member r route.backends
      × StaleSleeper now hc r
      × NotLarger r b
pick_resume_candidate_stale now route gs hc b e nobody among h =
    elim (pick_resume_candidate-Picks now route gs) [
      | inl (r, _, m, (ok, best)) ↦ elim (nobody r m (is_resumable-Resumable r ok)) [ ]
      | inr (_, rest) ↦
          settle_fallback now hc route.backends (pick_resume_candidate now (some route) gs) b among
            h
            (subst
              (λ o. PicksFallback now route.backends o (pick_resume_candidate now (some route) gs))
              e rest)
    ]
