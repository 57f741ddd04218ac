-- ===== src/ApiServer/Lease.antt =====
-- xtrinode/pkg/api-server/lease.go: the leases that let one resume or suspend of a cluster through
-- at a time. What the Kubernetes API answers to each call is an argument. Times and durations are
-- nanoseconds. A duration is below 2^31 seconds, so its number of seconds is an int32.
pub mod Gate
mod Examples
use xtrinode.Shared.{
  second, ℕ, ◌+◌, ◌*◌, ◌/◌, String, Bool, true, false, ltb, str_eq, if◌then◌else◌, Option, none,
  some,
}

-- `other` is any label that is none of the three constants, the empty one included.
pub data LeaseKeyType : Type 0 where
  runtime pool suspend_runtime : LeaseKeyType
  other : String → LeaseKeyType

-- The fields of the Kubernetes object that are read or written here.
pub record Lease : Type 0 where
  pub key_type : LeaseKeyType
  pub holder_identity : Option String
  pub duration_seconds : Option ℕ
  pub acquire_time : Option ℕ
  pub renew_time : Option ℕ

pub record LeaseManager : Type 0 where
  pub lease_duration : ℕ
  pub suspend_duration : ℕ
  pub holder_identity : String

unfoldable pub new_lease_manager : ℕ → String → LeaseManager
new_lease_manager lease_duration holder_identity = record {
  lease_duration = lease_duration;
  suspend_duration = lease_duration;
  holder_identity = holder_identity;
}

unfoldable pub set_suspend_duration : ℕ → LeaseManager → LeaseManager
set_suspend_duration d lm = record lm { suspend_duration = d }

unfoldable pub duration_for_key : LeaseManager → LeaseKeyType → ℕ
duration_for_key lm suspend_runtime = lm.suspend_duration
duration_for_key lm runtime = lm.lease_duration
duration_for_key lm pool = lm.lease_duration
duration_for_key lm (other s) = lm.lease_duration

pub record K8sLeaseResult : Type 0 where
  pub acquired : Bool
  pub lease_until : ℕ
  pub holder : String

-- The answers of the API: to a read, to the create of a lease and to the update of one, with the
-- answer to the read that follows a lost race.
pub data GetAnswer : Type 0 where
  not_found get_failed : GetAnswer
  got : Lease → GetAnswer

pub data CreateAnswer : Type 0 where
  created create_failed : CreateAnswer
  already_exists : GetAnswer → CreateAnswer

pub data UpdateAnswer : Type 0 where
  updated : UpdateAnswer
  update_failed : GetAnswer → UpdateAnswer

-- `RenewTime + LeaseDurationSeconds`, the renew time alone, or the given time.
abbrev pub expiry_or : ℕ → Option ℕ → Option ℕ → ℕ
expiry_or fallback none duration = fallback
expiry_or fallback (some renewed) none = renewed
expiry_or fallback (some renewed) (some duration) = renewed + duration * second

abbrev pub lease_expiry : ℕ → Lease → ℕ
lease_expiry now lease = expiry_or now lease.renew_time lease.duration_seconds

-- After a lost create, the fallback stands for a lease without duration too.
abbrev pub created_expiry_or : ℕ → Option ℕ → Option ℕ → ℕ
created_expiry_or fallback (some renewed) (some duration) = renewed + duration * second
created_expiry_or fallback _ _ = fallback

abbrev pub holder_or_unknown : Option String → String
holder_or_unknown none = "unknown"
holder_or_unknown (some holder) = holder

-- What a call returns, `none` for an error, and the lease that it wrote.
pub record Acquisition : Type 0 where
  pub result : Option K8sLeaseResult
  pub written : Option Lease

abbrev pub gated : ℕ → Lease → Acquisition
gated until lease = record {
  result = some (record {
    acquired = false;
    lease_until = until;
    holder = holder_or_unknown lease.holder_identity;
  });
  written = none;
}

abbrev pub no_result : Acquisition
no_result = record { result = none; written = none }

abbrev pub won : LeaseManager → ℕ → Lease → Acquisition
won lm until lease = record {
  result = some (record { acquired = true; lease_until = until; holder = lm.holder_identity });
  written = some lease;
}

abbrev pub created_lease : LeaseManager → ℕ → LeaseKeyType → Lease
created_lease lm now key_type = record {
  key_type = key_type;
  holder_identity = some lm.holder_identity;
  duration_seconds = some (duration_for_key lm key_type / second);
  acquire_time = some now;
  renew_time = some now;
}

abbrev pub updated_lease : LeaseManager → ℕ → Lease → Lease
updated_lease lm now lease = record lease {
  holder_identity = some lm.holder_identity;
  renew_time = some now;
  duration_seconds = some (duration_for_key lm lease.key_type / second);
}

unfoldable pub create_lease : LeaseManager → ℕ → ℕ → LeaseKeyType → CreateAnswer → Acquisition
create_lease lm now until key_type created = won lm until (created_lease lm now key_type)
create_lease lm now until key_type create_failed = no_result
create_lease lm now until key_type (already_exists (got existing)) =
    gated
      (created_expiry_or (now + duration_for_key lm key_type) existing.renew_time
        existing.duration_seconds)
      existing
create_lease lm now until key_type (already_exists not_found) = no_result
create_lease lm now until key_type (already_exists get_failed) = no_result

unfoldable pub update_lease : LeaseManager → ℕ → ℕ → Lease → UpdateAnswer → Acquisition
update_lease lm now until lease updated = won lm until (updated_lease lm now lease)
update_lease lm now until lease (update_failed (got actual)) =
    gated (lease_expiry now actual) actual
update_lease lm now until lease (update_failed not_found) = no_result
update_lease lm now until lease (update_failed get_failed) = no_result

unfoldable pub acquire_lease :
    LeaseManager → ℕ → LeaseKeyType → GetAnswer → CreateAnswer → UpdateAnswer → Acquisition
acquire_lease lm now key_type get_failed on_create on_update = no_result
acquire_lease lm now key_type not_found on_create on_update =
    create_lease lm now (now + duration_for_key lm key_type) key_type on_create
acquire_lease lm now key_type (got lease) on_create on_update =
    if ltb (lease_expiry now lease) now
    then update_lease lm now (now + duration_for_key lm key_type) lease on_update
    else gated (lease_expiry now lease) lease

-- The answers to a delete.
pub data DeleteAnswer : Type 0 where
  deleted delete_not_found delete_failed : DeleteAnswer

-- What a release returns, `false` for an error, and whether it asked for the delete.
pub record Release : Type 0 where
  pub ok : Bool
  pub asked : Bool

abbrev pub held_by : String → Option String → Bool
held_by identity none = false
held_by identity (some holder) = str_eq holder identity

abbrev pub delete_ok : DeleteAnswer → Bool
delete_ok deleted = true
delete_ok delete_not_found = true
delete_ok delete_failed = false

unfoldable pub release_lease : LeaseManager → GetAnswer → DeleteAnswer → Release
release_lease lm not_found on_delete = record { ok = true; asked = false }
release_lease lm get_failed on_delete = record { ok = false; asked = false }
release_lease lm (got lease) on_delete =
    if held_by lm.holder_identity lease.holder_identity
    then record { ok = delete_ok on_delete; asked = true }
    else record { ok = true; asked = false }
