-- ===== src/Retry/Conflict.antt =====
-- retry.go: what a retried call comes to.
use xtrinode.Shared.{
  ◌∙◌, sym, ap, ℕ, suc, ◌+◌, ◌<◌, ◌≡◌, refl, Bool, true, false, arith, Option, none, some,
  if◌then◌else◌, inl, inr, ◌⊎◌, subst, Bool-cases,
}
use xtrinode.Retry.{
  Verdict, done, again, stop, Waited, finished, timed_out, stopped, Runs, no_steps, ends, fails,
  gives_up, goes_on, Backoff, RetryError, plain, context_canceled, exhausted, Progress, try_call,
  conclude, concluded, on_conflict, fresh_start, after_call, next_attempt,
}

module _ {W E : Type 0} (is_conflict : E → Bool) (canceled : W → Bool) (fn : W → W × Option E) where
  -- A number of calls in a row that all end in a conflict.
  pub data Conflicts : ℕ → W → W → Type 0 where
    no_call : (w : W) → Conflicts 0 w w
    one_more :
        (k : ℕ) (w w' v : W) (e : E)
        → fn w ≡ (w', some e)
        → is_conflict e ≡ true
        → Conflicts k w' v
        → Conflicts (suc k) w v

  -- What a loop of at most `n` calls comes to, after `before` earlier ones: conflicts, and then a
  -- call that succeeds, one that fails for another reason, or a last conflict.
  pub data Outcome (before n : ℕ) (w : W) : W × Option (RetryError E) → Type 0 where
    succeeds :
        (k : ℕ) (v w' : W)
        → Conflicts k w v
        → k < n
        → fn v ≡ (w', none)
        → Outcome before n w (w', none)
    is_refused :
        (k : ℕ) (v w' : W) (e : E)
        → Conflicts k w v
        → k < n
        → fn v ≡ (w', some e)
        → is_conflict e ≡ false
        → Outcome before n w (w', some (plain e))
    stays_in_conflict :
        (k attempts : ℕ) (v w' : W) (e : E)
        → Conflicts k w v
        → k < n
        → fn v ≡ (w', some e)
        → is_conflict e ≡ true
        → attempts ≡ before + suc k
        → Outcome before n w
            (w', some (if canceled w' then context_canceled else exhausted attempts e))

  Outcome-suc :
      (before n : ℕ) (w w' : W) (e : E) (o : W × Option (RetryError E))
      → fn w ≡ (w', some e)
      → is_conflict e ≡ true
      → Outcome (suc before) n w' o
      → Outcome before (suc n) w o
  Outcome-suc before n w w' e _ f c (succeeds k v u con lt g) =
      succeeds (suc k) v u (one_more k w w' v e f c con) (omega (arith, lt)) g
  Outcome-suc before n w w' e _ f c (is_refused k v u d con lt g h) =
      is_refused (suc k) v u d (one_more k w w' v e f c con) (omega (arith, lt)) g h
  Outcome-suc before n w w' e _ f c (stays_in_conflict k a v u d con lt g h m) =
      stays_in_conflict (suc k) a v u d (one_more k w w' v e f c con) (omega (arith, lt)) g h
        (omega (arith, m))

  -- What one round of the loop does, by what the call gives.
  data Round (p : Progress W E) : Progress W E × Verdict (RetryError E) → Type 0 where
    round_done : (q : Progress W E) → fn p.world ≡ (q.world, none) → Round p (q, done)
    round_refused :
        (q : Progress W E) (e : E)
        → fn p.world ≡ (q.world, some e)
        → is_conflict e ≡ false
        → q.non_conflict_err ≡ some e
        → Round p (q, stop (plain e))
    round_conflict :
        (q : Progress W E) (e : E) (v : Verdict (RetryError E))
        → fn p.world ≡ (q.world, some e)
        → is_conflict e ≡ true
        → q.last_err ≡ some e
        → q.non_conflict_err ≡ p.non_conflict_err
        → q.attempt ≡ suc p.attempt
        → v ≡ (if canceled q.world then stop context_canceled else again)
        → Round p (q, v)

  try_call-Round : (p : Progress W E) → Round p (try_call is_conflict canceled fn p)
  unfolding try_call
  try_call-Round p = by_result (fn p.world).1 refl
    where
      by_result :
          (r : Option E)
          → (fn p.world).1 ≡ r
          → Round p (
              after_call is_conflict canceled
                (next_attempt is_conflict canceled p)
                (fn p.world).0
                r)
      by_result none e = round_done _ (ap (λ r. ((fn p.world).0, r)) e)
      by_result (some x) e =
          let called : fn p.world ≡ ((fn p.world).0, some x) = ap (λ r. ((fn p.world).0, r)) e in
          elim (Bool-cases (is_conflict x)) [
            | inl c ↦ rw c (round_conflict _ x _ called c refl refl refl refl)
            | inr d ↦ rw d (round_refused _ x called d refl)
          ]

  -- How a run of the loop that has calls left ends.
  abbrev Ended : ℕ → Progress W E → Progress W E × Waited (RetryError E) → Type 0
  Ended n p o =
      ((n ≡ 0) × (o ≡ (p, timed_out)))
      ⊎ Outcome p.attempt n p.world (concluded is_conflict canceled o)

  try_call_ends-Round :
      (p q : Progress W E) (v : Verdict (RetryError E))
      → try_call is_conflict canceled fn p ≡ (q, v)
      → Round p (q, v)
  try_call_ends-Round p q v e = subst (Round p) e (try_call-Round p)

  done-Outcome :
      (n : ℕ) (p q : Progress W E) (v : Verdict (RetryError E))
      → v ≡ done
      → Round p (q, v)
      → Outcome p.attempt (suc n) p.world (concluded is_conflict canceled (q, finished))
  unfolding conclude
  done-Outcome n p _ _ h (round_done q f) =
      succeeds 0 p.world q.world (no_call p.world) (omega arith) f
  done-Outcome n p _ _ h (round_refused q e f d m) = ground (arith, h)
  done-Outcome n p _ _ h (round_conflict q e v f c l m a at) = ground (arith, h, at)

  stop-Outcome :
      (n : ℕ) (p q : Progress W E) (v : Verdict (RetryError E)) (x : RetryError E)
      → p.non_conflict_err ≡ none
      → v ≡ stop x
      → Round p (q, v)
      → Outcome p.attempt (suc n) p.world (concluded is_conflict canceled (q, stopped x))
  unfolding conclude
  stop-Outcome n p _ _ x z h (round_done q f) = ground (arith, h)
  stop-Outcome n p _ _ x z h (round_refused q e f d m) =
      rw m (is_refused 0 p.world q.world e (no_call p.world) (omega arith) f d)
  stop-Outcome n p _ _ x z h (round_conflict q e v f c l m a at) =
      rw (m, z, l)
        (stays_in_conflict 0 q.attempt p.world q.world e (no_call p.world) (omega arith) f c
          (omega (arith, a)))

  again-Outcome :
      (n : ℕ) (p q : Progress W E) (v : Verdict (RetryError E))
      → p.non_conflict_err ≡ none
      → v ≡ again
      → Round p (q, v)
      → Outcome p.attempt (suc n) p.world (concluded is_conflict canceled (q, timed_out))
        × (q.non_conflict_err ≡ none)
        × (q.attempt ≡ suc p.attempt)
        × (e : E) × (fn p.world ≡ (q.world, some e))
        × (is_conflict e ≡ true)
  unfolding conclude
  again-Outcome n p _ _ z h (round_done q f) = ground (arith, h)
  again-Outcome n p _ _ z h (round_refused q e f d m) = ground (arith, h)
  again-Outcome n p _ _ z h (round_conflict q e v f c l m a at) = (
    rw (m, z, l)
        (stays_in_conflict 0 q.attempt p.world q.world e (no_call p.world) (omega arith) f c
          (omega (arith, a))),
    m ∙ z,
    a,
    e,
    f,
    c,
  )

  Runs-Ended :
      (n : ℕ) (p : Progress W E) (o : Progress W E × Waited (RetryError E))
      → p.non_conflict_err ≡ none
      → Runs (try_call is_conflict canceled fn) n p o
      → Ended n p o
  Runs-Ended _ _ _ z (no_steps p) = inl (refl, refl)
  Runs-Ended _ _ _ z (ends n p q e) =
      inr (done-Outcome n p q done refl (try_call_ends-Round p q done e))
  Runs-Ended _ _ _ z (fails n p q x e) =
      inr (stop-Outcome n p q (stop x) x z refl (try_call_ends-Round p q (stop x) e))
  Runs-Ended _ _ _ z (gives_up n p q e) =
      inr (again-Outcome n p q again z refl (try_call_ends-Round p q again e)).0
  Runs-Ended _ _ _ z (goes_on n p q o e run) =
      let (early, z', a, x, f, c) =
        again-Outcome n p q again z refl (try_call_ends-Round p q again e) in
      elim (Runs-Ended n q o z' run) [
        | inl (none_left, same) ↦ inr (
            subst (λ r. Outcome p.attempt (suc n) p.world (concluded is_conflict canceled r))
              (sym same) early)
        | inr later ↦ inr (
            Outcome-suc p.attempt n p.world q.world x (concluded is_conflict canceled o) f c
              (subst (λ b. Outcome b n q.world (concluded is_conflict canceled o)) a later))
      ]

-- A retried call is made at least once and at most as often as there are steps. All calls but the
-- last end in a conflict; what is returned is success exactly if the last one succeeds, its own
-- error if that is no conflict, and otherwise the error of a context that is canceled or that of
-- retries that are exhausted, with the number of calls and the last conflict.
pub on_conflict-Outcome :
    {W E : Type 0} (is_conflict : E → Bool) (canceled : W → Bool)
    (backoff : Backoff (Progress W E) (RetryError E)) (steps : ℕ) (fn : W → W × Option E) (w : W)
    → 0 < steps
    → Outcome is_conflict canceled fn 0 steps w
        (on_conflict is_conflict canceled backoff steps fn w)
unfolding on_conflict
on_conflict-Outcome is_conflict canceled backoff steps fn w positive =
    let start = fresh_start is_conflict canceled w in
    elim (Runs-Ended is_conflict canceled fn steps start _ refl
      (backoff.law steps (try_call is_conflict canceled fn) start)) [
        | inl (no_step, same) ↦ ground (arith, positive, no_step)
        | inr outcome ↦ outcome
      ]
