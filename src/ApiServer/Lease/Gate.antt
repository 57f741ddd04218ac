-- ===== src/ApiServer/Lease/Gate.antt =====
-- lease.go: who gets a lease, for how long others are gated, and who may release it.
use xtrinode.Shared.{
  second, ℕ, ◌+◌, ◌*◌, ◌/◌, ◌≤◌, ◌<◌, String, ◌≡◌, refl, true, false, ltb, arith, eq_iff, Option,
  none, some, inl, inr, Bool-cases, ltb→lt, subst, ap,
}
use xtrinode.ApiServer.Lease.{
  LeaseKeyType, Lease, LeaseManager, duration_for_key, K8sLeaseResult, GetAnswer, not_found,
  get_failed, got, CreateAnswer, created, create_failed, already_exists, UpdateAnswer, updated,
  update_failed, lease_expiry, Acquisition, create_lease, update_lease, acquire_lease, DeleteAnswer,
  release_lease, won, created_lease, updated_lease, held_by,
}

-- A call that says it acquired the lease.
abbrev pub Acquires : Acquisition → Type 0
Acquires a = (r : K8sLeaseResult) × (a.result ≡ some r) × (r.acquired ≡ true)

-- What a winner's lease says to a later reader: the winner holds it, from now until at most the
-- time that the winner was told, and for less than a second short of it.
pub record IsHeldBy (lm : LeaseManager) (now until : ℕ) (lease : Lease) : Type 0 where
  pub holder : lease.holder_identity ≡ some lm.holder_identity
  pub renewed : lease.renew_time ≡ some now
  pub not_past : (later : ℕ) → lease_expiry later lease ≤ until
  pub nearly : (later : ℕ) → until < lease_expiry later lease + second

seconds_bounds : (d : ℕ) → ((d / second) * second ≤ d) × (d < (d / second) * second + second)
seconds_bounds d = grind arith

fresh-IsHeldBy :
    (lm : LeaseManager) (now d : ℕ) (lease : Lease)
    → lease.holder_identity ≡ some lm.holder_identity
    → lease.renew_time ≡ some now
    → lease.duration_seconds ≡ some (d / second)
    → IsHeldBy lm now (now + d) lease
fresh-IsHeldBy lm now d lease h r s = record {
  holder = h;
  renewed = r;
  not_past = λ later. ground (arith, r, s, seconds_bounds d);
  nearly = λ later. ground (arith, r, s, seconds_bounds d);
}

won-IsHeldBy :
    (lm : LeaseManager) (now d : ℕ) (lease : Lease) (r : K8sLeaseResult)
    → (won lm (now + d) lease).result ≡ some r
    → lease.holder_identity ≡ some lm.holder_identity
    → lease.renew_time ≡ some now
    → lease.duration_seconds ≡ some (d / second)
    → (r.holder ≡ lm.holder_identity) × IsHeldBy lm now r.lease_until lease
won-IsHeldBy lm now d lease r e h n s =
    let until : now + d ≡ r.lease_until = ground (arith, e) in
    (
      ground (arith, e),
      subst (λ u. IsHeldBy lm now u lease) until (fresh-IsHeldBy lm now d lease h n s),
    )

updated-IsHeldBy :
    (lm : LeaseManager) (now : ℕ) (key_type : LeaseKeyType) (lease : Lease)
    (on_update : UpdateAnswer) (r : K8sLeaseResult)
    → lease.key_type ≡ key_type
    → (update_lease lm now (now + duration_for_key lm key_type) lease on_update).result ≡ some r
    → r.acquired ≡ true
    → (r.holder ≡ lm.holder_identity)
      × (after : Lease) × ((update_lease lm now
            (now + duration_for_key lm key_type)
            lease
            on_update).written
          ≡ some after)
      × IsHeldBy lm now r.lease_until after
unfolding update_lease
updated-IsHeldBy lm now key_type lease updated r t e a =
    let after = updated_lease lm now lease in
    let (h, held) =
      won-IsHeldBy lm now (duration_for_key lm key_type) after r e refl refl
        (ap (λ k. some (duration_for_key lm k / second)) t) in
    (h, after, refl, held)
updated-IsHeldBy lm now key_type lease (update_failed not_found) r t e a = ground (arith, e)
updated-IsHeldBy lm now key_type lease (update_failed get_failed) r t e a = ground (arith, e)
updated-IsHeldBy lm now key_type lease (update_failed (got actual)) r t e a = ground (arith, e, a)

-- The lease that was read, if any, carries the key type that is asked for.
abbrev pub OfType : LeaseKeyType → GetAnswer → Type 0
OfType key_type not_found = Unit
OfType key_type get_failed = Unit
OfType key_type (got lease) = lease.key_type ≡ key_type

-- A lease is free if there is none, or if the one there expired before now.
abbrev pub Free : ℕ → GetAnswer → Type 0
Free now not_found = Unit
Free now get_failed = ⊥
Free now (got lease) = lease_expiry now lease < now

-- A call acquires a lease, of the key type that it asks for, only if there is none of that name or
-- the one there has expired. It then has written one in its own name, from which others read an
-- expiry that is at most the time that the call returned, and less than a second before that.
pub acquire_lease-Free :
    (lm : LeaseManager) (now : ℕ) (key_type : LeaseKeyType) (get : GetAnswer)
    (on_create : CreateAnswer) (on_update : UpdateAnswer) (r : K8sLeaseResult)
    → OfType key_type get
    → (acquire_lease lm now key_type get on_create on_update).result ≡ some r
    → r.acquired ≡ true
    → Free now get
      × (r.holder ≡ lm.holder_identity)
      × (lease : Lease) × ((acquire_lease lm now key_type get on_create on_update).written
          ≡ some lease)
      × IsHeldBy lm now r.lease_until lease
unfolding acquire_lease create_lease update_lease
acquire_lease-Free lm now key_type get_failed on_create on_update r t e a = ground (arith, e)
acquire_lease-Free lm now key_type not_found create_failed on_update r t e a = ground (arith, e)
acquire_lease-Free lm now key_type not_found (already_exists not_found) on_update r t e a =
    ground (arith, e)
acquire_lease-Free lm now key_type not_found (already_exists get_failed) on_update r t e a =
    ground (arith, e)
acquire_lease-Free lm now key_type not_found (already_exists (got other)) on_update r t e a =
    ground (arith, e, a)
acquire_lease-Free lm now key_type not_found created on_update r t e a =
    let lease = created_lease lm now key_type in
    let (h, held) = won-IsHeldBy lm now (duration_for_key lm key_type) lease r e refl refl refl in
    (tt, h, lease, refl, held)
acquire_lease-Free lm now key_type (got lease) on_create on_update r t e a =
    elim (Bool-cases (ltb (lease_expiry now lease) now)) [
      | inl late ↦
          let (h, after, w, held) =
            updated-IsHeldBy lm now key_type lease on_update r t (ground (arith, e, late)) a in
          (ltb→lt (lease_expiry now lease) now late, h, after, ground (arith, late, w), held)
      | inr early ↦ ground (arith, e, a, early)
    ]

-- A lease that was won gates everyone: until a second before the time that its winner was told,
-- any call is refused without a write, and told the winner and the expiry of the lease.
pub acquire_lease-gated :
    (lm other : LeaseManager) (now until later : ℕ) (key_type : LeaseKeyType) (lease : Lease)
    (on_create : CreateAnswer) (on_update : UpdateAnswer)
    → IsHeldBy lm now until lease
    → later + second ≤ until
    → acquire_lease other later key_type (got lease) on_create on_update ≡ record {
      result = some (record {
        acquired = false;
        lease_until = lease_expiry later lease;
        holder = lm.holder_identity;
      });
      written = none;
    }
unfolding acquire_lease
acquire_lease-gated lm other now until later key_type lease on_create on_update h before =
    ground (arith, h.holder, h.nearly later)

-- A lease without a renew time is never acquired, however late the call comes: it reads as expiring
-- now, which is not before now.
pub acquire_lease_unrenewed :
    (lm : LeaseManager) (now : ℕ) (key_type : LeaseKeyType) (lease : Lease)
    (on_create : CreateAnswer) (on_update : UpdateAnswer)
    → lease.renew_time ≡ none
    → ¬ Acquires (acquire_lease lm now key_type (got lease) on_create on_update)
unfolding acquire_lease
acquire_lease_unrenewed lm now key_type lease on_create on_update e (r, s, a) =
    ground (arith, e, s, a)

held_by-eq :
    (lm : LeaseManager) (holder : Option String)
    → held_by lm.holder_identity holder ≡ true
    → holder ≡ some lm.holder_identity
held_by-eq lm none h = ground (arith, h)
held_by-eq lm (some holder) h = ground (arith, h, eq_iff holder lm.holder_identity)

-- A release asks for a delete only of a lease in its own name.
pub release_lease-held :
    (lm : LeaseManager) (get : GetAnswer) (on_delete : DeleteAnswer)
    → (release_lease lm get on_delete).asked ≡ true
    → (lease : Lease) × (get ≡ got lease) × (lease.holder_identity ≡ some lm.holder_identity)
unfolding release_lease
release_lease-held lm not_found on_delete a = ground (arith, a)
release_lease-held lm get_failed on_delete a = ground (arith, a)
release_lease-held lm (got lease) on_delete a =
    (lease, refl, held_by-eq lm lease.holder_identity (ground (arith, a)))
