-- ===== src/ApiServer/Lease/Examples.antt =====
-- The lease theorems at concrete leases: two servers, 30 seconds, and a lease that expired.
use xtrinode.Shared.{second, ◌*◌, ◌≡◌, refl, true, false, arith, none, some}
use xtrinode.ApiServer.Lease.{
  runtime, Lease, LeaseManager, new_lease_manager, duration_for_key, K8sLeaseResult, got, created,
  updated, deleted, lease_expiry, update_lease, updated_lease, acquire_lease, release_lease,
}
use xtrinode.ApiServer.Lease.Gate.{IsHeldBy, Free, acquire_lease-Free, acquire_lease-gated}

abbrev first_server : LeaseManager
first_server = new_lease_manager (30 * second) "one"

abbrev second_server : LeaseManager
second_server = new_lease_manager (30 * second) "two"

abbrev old_lease : Lease
old_lease = record {
  key_type = runtime;
  holder_identity = some "two";
  duration_seconds = some 5;
  acquire_time = some 0;
  renew_time = some 0;
}

abbrev taken : K8sLeaseResult
taken = record { acquired = true; lease_until = 40 * second; holder = "one" }

takes :
    (acquire_lease first_server (10 * second) runtime (got old_lease) created updated).result
    ≡ some taken
unfolding acquire_lease update_lease new_lease_manager duration_for_key
takes = refl

acquire_lease-Free_example :
    Free (10 * second) (got old_lease)
    × ("one" ≡ first_server.holder_identity)
    × (lease : Lease) × ((acquire_lease first_server
          (10 * second)
          runtime
          (got old_lease)
          created
          updated).written
        ≡ some lease)
    × IsHeldBy first_server (10 * second) (40 * second) lease
acquire_lease-Free_example =
    acquire_lease-Free first_server (10 * second) runtime (got old_lease) created updated taken refl
      takes refl

new_lease : Lease
new_lease = updated_lease first_server (10 * second) old_lease

new_lease-IsHeldBy : IsHeldBy first_server (10 * second) (40 * second) new_lease
unfolding new_lease new_lease_manager duration_for_key
new_lease-IsHeldBy = record {
  holder = refl;
  renewed = refl;
  not_past = λ later. omega arith;
  nearly = λ later. omega arith;
}

acquire_lease-gated_example :
    acquire_lease second_server (20 * second) runtime (got new_lease) created updated ≡ record {
      result = some (record {
        acquired = false;
        lease_until = lease_expiry (20 * second) new_lease;
        holder = first_server.holder_identity;
      });
      written = none;
    }
acquire_lease-gated_example =
    acquire_lease-gated first_server second_server (10 * second) (40 * second) (20 * second) runtime
      new_lease created updated new_lease-IsHeldBy (omega arith)

abbrev unrenewed : Lease
unrenewed = record old_lease { renew_time = none }

asks : (release_lease second_server (got old_lease) deleted).asked ≡ true
unfolding release_lease new_lease_manager
asks = refl
