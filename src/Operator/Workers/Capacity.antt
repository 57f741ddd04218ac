-- ===== src/Operator/Workers/Capacity.antt =====
-- resolved.go: what a cluster counts for in routing.
use xtrinode.Shared.{ℕ, ◌+◌, ◌-◌, ◌*◌, ◌/◌, ◌≤◌, ◌<◌, ◌≡◌, arith, some}
use xtrinode.Shared.Int.{pos}
use xtrinode.Operator.Workers.{derive_capacity_units}

round_up :
    (n : ℕ)
    → 0 < n
    → let u = (n + 2000 - 1) / 2000 in (1 ≤ u) × (n ≤ 2000 * u) × (2000 * u < n + 2000)
round_up n h = grind arith

-- A cluster with workers that ask for CPU counts for one unit for each two CPUs of them together,
-- begun units counted as whole ones: the least number of units that covers them, provided that it
-- fits into 32 bits.
pub derive_capacity_units_least :
    (cpu workers : ℕ)
    → 0 < cpu
    → 0 < workers
    → cpu * workers ≤ 4294967294000
    → (units : ℕ) × (derive_capacity_units (some (pos cpu)) (pos workers) ≡ pos units)
      × (1 ≤ units)
      × (cpu * workers ≤ 2000 * units)
      × (2000 * units < cpu * workers + 2000)
unfolding derive_capacity_units
derive_capacity_units_least cpu workers c w fits =
    let (a, b, d) = round_up (cpu * workers) (grind arith) in
    let small : (cpu * workers + 2000 - 1) / 2000 < 2147483648 = omega arith in
    ((cpu * workers + 2000 - 1) / 2000, ground (arith, c, w, small), a, b, d)
