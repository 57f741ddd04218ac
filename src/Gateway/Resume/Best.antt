-- ===== src/Gateway/Resume/Best.antt =====
-- resume_candidate.go: the backend that is picked is the best in the documented order, and nothing
-- is picked only where nothing can be resumed.
use xtrinode.Shared.{
  ℕ, ◌≡◌, refl, true, false, arith, Option, none, some, List, eq_iff, All, Member, ◌⊎◌, inl, inr,
}
use xtrinode.Shared.TextOrder.{str_lt_asym, str_lt_ntrans, str_lt_total}
use xtrinode.Shared.Pick.{pick_from, Picks, IsBest, pick_from-none-Picks}
use xtrinode.Gateway.Health.{HealthChecker}
use xtrinode.Gateway.Route.{Backend, RouteEntry, GatewayService}
use xtrinode.Gateway.Resume.{
  or_else, is_resumable, name_before, smaller, resumes_before, is_stale_sleeper,
  pick_resume_candidate, pick_sleeping_resume_candidate,
}

name_before_asym : (a b : Backend) → name_before a b ≡ true → name_before b a ≡ false
unfolding name_before
name_before_asym a b h = ground (
  arith,
  str_lt_asym a.name b.name,
  str_lt_asym a.namespace b.namespace,
  eq_iff a.name b.name,
  eq_iff b.name a.name,
)

name_before_ntrans :
    (a b c : Backend) → name_before a b ≡ false → name_before b c ≡ false → name_before a c ≡ false
unfolding name_before
name_before_ntrans a b c p q = ground (
  arith,
  str_lt_ntrans a.name b.name c.name,
  str_lt_total a.name b.name,
  str_lt_total b.name c.name,
  str_lt_ntrans c.name a.name b.name,
  str_lt_ntrans b.name c.name a.name,
  str_lt_ntrans b.name a.name c.name,
  str_lt_ntrans a.namespace b.namespace c.namespace,
  eq_iff a.name b.name,
  eq_iff b.name c.name,
  eq_iff a.name c.name,
)

smaller_asym : (a b : Backend) → smaller a b ≡ true → smaller b a ≡ false
unfolding smaller
smaller_asym a b h = ground (arith, name_before_asym a b)

smaller_ntrans : (a b c : Backend) → smaller a b ≡ false → smaller b c ≡ false → smaller a c ≡ false
unfolding smaller
smaller_ntrans a b c p q = ground (arith, name_before_ntrans a b c)

resumes_before_asym : (a b : Backend) → resumes_before a b ≡ true → resumes_before b a ≡ false
unfolding resumes_before
resumes_before_asym a b h = ground (arith, smaller_asym a b)

resumes_before_ntrans :
    (a b c : Backend)
    → resumes_before a b ≡ false
    → resumes_before b c ≡ false
    → resumes_before a c ≡ false
unfolding resumes_before
resumes_before_ntrans a b c p q = ground (arith, smaller_ntrans a b c)

-- What `o` is, picked from a route's backends: the best resumable one; where none is resumable, the
-- best that runs according to the route and sleeps according to the health checker; else nothing.
abbrev pub PicksFallback : ℕ → List Backend → Option HealthChecker → Option Backend → Type 0
PicksFallback now bs none o = o ≡ none
PicksFallback now bs (some hc) o = Picks (is_stale_sleeper now hc) smaller bs o

sleeping_PicksFallback :
    (now : ℕ) (bs : List Backend) (health : Option HealthChecker)
    → PicksFallback now bs health (pick_sleeping_resume_candidate now bs health)
unfolding pick_sleeping_resume_candidate
sleeping_PicksFallback now bs none = refl
sleeping_PicksFallback now bs (some hc) =
    pick_from-none-Picks (is_stale_sleeper now hc) smaller smaller_asym smaller_ntrans bs

-- A route's resume candidate is a resumable backend that no resumable one comes before, by state,
-- then capacity, then name and namespace. Where no backend is resumable it is the smallest of those
-- that the route calls running and the health checker finds asleep, and where there is none of
-- these either, nothing is resumed.
pub pick_resume_candidate-Picks :
    (now : ℕ) (route : RouteEntry) (gs : GatewayService)
    → let bs = route.backends in
      let o = pick_resume_candidate now (some route) gs in
      ((r : Backend) × (o ≡ some r) × Member r bs × IsBest is_resumable resumes_before r bs)
      ⊎ (All (λ b. is_resumable b ≡ false) bs × PicksFallback now bs gs.health_checker o)
unfolding pick_resume_candidate
pick_resume_candidate-Picks now route gs =
    settle (pick_from is_resumable resumes_before none route.backends) (
      pick_from-none-Picks is_resumable resumes_before resumes_before_asym resumes_before_ntrans
        route.backends)
  where
    fallback : Option Backend
    fallback = pick_sleeping_resume_candidate now route.backends gs.health_checker

    settle :
        (first : Option Backend)
        → Picks is_resumable resumes_before route.backends first
        → ((r : Backend) × (or_else first fallback ≡ some r)
            × Member r route.backends
            × IsBest is_resumable resumes_before r route.backends)
          ⊎ (All (λ b. is_resumable b ≡ false) route.backends
              × PicksFallback now route.backends gs.health_checker (or_else first fallback))
    settle (some r) (among, best) = inl (r, refl, among, best)
    settle none nobody = inr (nobody, sleeping_PicksFallback now route.backends gs.health_checker)
