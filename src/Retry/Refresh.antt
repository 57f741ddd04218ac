-- ===== src/Retry/Refresh.antt =====
-- retry.go: which error a call with a refresh before it returns.
use xtrinode.Shared.{
  ◌∙◌, ℕ, ◌≡◌, refl, Bool, ◌&&◌, ltb, arith, Option, none, some, inl, inr, subst, Bool-cases, ap,
}
use xtrinode.Retry.{
  again, stop, Waited, timed_out, stopped, Runs, no_steps, ends, fails, gives_up, goes_on, Backoff,
  RetryError, refresh_failed, Progress, try_refreshed, after_refresh, conclude,
  on_conflict_with_refresh, fresh_start, after_call, next_attempt, waited_world, done, plain,
  context_canceled, exhausted, wait_timeout,
}

module _ {W E : Type 0} (is_conflict : E → Bool) (canceled : W → Bool) (wait : W → W)
    (refresh modify : W → W × Option E) where
  -- A conflict was seen.
  abbrev Seen : Progress W E → Type 0
  Seen p = (e : E) × (p.last_err ≡ some e)

  after_call-Seen :
      (p : Progress W E) (w : W) (r : Option E)
      → Seen p
      → Seen (after_call is_conflict canceled p w r).0
  after_call-Seen p w none (e, s) = (e, s)
  after_call-Seen p w (some x) (e, s) = elim (Bool-cases (is_conflict x)) [
    | inl c ↦ (x, rw c refl)
    | inr d ↦ (e, rw d s)
  ]

  after_call-again :
      (p q : Progress W E) (w : W) (r : Option E)
      → after_call is_conflict canceled p w r ≡ (q, again)
      → Seen q
  after_call-again p q w none h = ground (arith, h)
  after_call-again p q w (some x) h = elim (Bool-cases (is_conflict x)) [
    | inl c ↦ (x, ground (arith, h, c))
    | inr d ↦ ground (arith, h, d)
  ]

  after_refresh-Seen :
      (p : Progress W E) (w : W) (r : Option E)
      → Seen p
      → Seen (after_refresh is_conflict canceled modify p w r).0
  unfolding after_refresh
  after_refresh-Seen p w (some x) s = s
  after_refresh-Seen p w none s = after_call-Seen p (modify w).0 (modify w).1 s

  try_refreshed-Seen :
      (p : Progress W E)
      → Seen p
      → Seen (try_refreshed is_conflict canceled wait refresh modify p).0
  unfolding try_refreshed
  try_refreshed-Seen p s =
      let q = next_attempt is_conflict canceled p in
      let start = waited_world is_conflict canceled wait p in
      elim (Bool-cases (ltb 1 q.attempt && canceled start)) [
        | inl late ↦ rw late s
        | inr on_time ↦ rw on_time (after_refresh-Seen q (refresh start).0 (refresh start).1 s)
      ]

  Runs-Seen :
      (n : ℕ) (p : Progress W E) (o : Progress W E × Waited (RetryError E))
      → Seen p
      → Runs (try_refreshed is_conflict canceled wait refresh modify) n p o
      → Seen o.0
  Runs-Seen _ _ _ s (no_steps p) = s
  Runs-Seen _ _ _ s (ends n p q e) = subst (λ r. Seen r.0) e (try_refreshed-Seen p s)
  Runs-Seen _ _ _ s (fails n p q x e) = subst (λ r. Seen r.0) e (try_refreshed-Seen p s)
  Runs-Seen _ _ _ s (gives_up n p q e) = subst (λ r. Seen r.0) e (try_refreshed-Seen p s)
  Runs-Seen _ _ _ s (goes_on n p q o e run) =
      Runs-Seen n q o (subst (λ r. Seen r.0) e (try_refreshed-Seen p s)) run

  Seen-conclude :
      (p : Progress W E) (ended : Waited (RetryError E)) (x : E)
      → Seen p
      → ¬ (conclude is_conflict canceled p ended ≡ some (refresh_failed x))
  unfolding conclude
  Seen-conclude p ended x (e, s) h = ground (arith, h, s)

  -- What ends the first round does not come from a refresh that worked.
  after_call-conclude :
      (p q : Progress W E) (w : W) (r : Option E) (x : RetryError E) (y : E)
      → after_call is_conflict canceled p w r ≡ (q, stop x)
      → ¬ (conclude is_conflict canceled q (stopped x) ≡ some (refresh_failed y))
  after_call-conclude p q w none x y e h = ground (arith, e)
  after_call-conclude p q w (some z) x y e h = elim (Bool-cases (is_conflict z)) [
    | inl c ↦ Seen-conclude q (stopped x) y (z, ground (arith, e, c)) h
    | inr d ↦ unfold conclude in ground (arith, e, d, h)
  ]

  after_refresh-stop :
      (p q : Progress W E) (w : W) (r : Option E) (x : RetryError E) (y : E)
      → p.last_err ≡ none
      → p.non_conflict_err ≡ none
      → after_refresh is_conflict canceled modify p w r ≡ (q, stop x)
      → conclude is_conflict canceled q (stopped x) ≡ some (refresh_failed y)
      → (r ≡ some y) × (w ≡ q.world)
  unfolding after_refresh conclude
  after_refresh-stop p q w none x y l n e h =
      elim (after_call-conclude p q (modify w).0 (modify w).1 x y e h) [ ]
  after_refresh-stop p q w (some z) x y l n e h = (ground (arith, l, n, e, h), ground (arith, e))

  after_refresh-again :
      (p q : Progress W E) (w : W) (r : Option E)
      → after_refresh is_conflict canceled modify p w r ≡ (q, again)
      → Seen q
  unfolding after_refresh
  after_refresh-again p q w none e = after_call-again p q (modify w).0 (modify w).1 e
  after_refresh-again p q w (some z) e = ground (arith, e)

  first_again :
      (w : W) (p q : Progress W E)
      → p ≡ fresh_start is_conflict canceled w
      → try_refreshed is_conflict canceled wait refresh modify p ≡ (q, again)
      → Seen q
  unfolding try_refreshed
  first_again w p q s e =
      let start = next_attempt is_conflict canceled (fresh_start is_conflict canceled w) in
      let e' : after_refresh is_conflict canceled modify start (refresh w).0 (refresh w).1
          ≡ (q, again) =
        subst (λ r. try_refreshed is_conflict canceled wait refresh modify r ≡ (q, again)) s e in
      after_refresh-again start q (refresh w).0 (refresh w).1 e'

  first_refresh :
      (w : W) (n : ℕ) (o : Progress W E × Waited (RetryError E)) (p : Progress W E) (y : E)
      → p ≡ fresh_start is_conflict canceled w
      → Runs (try_refreshed is_conflict canceled wait refresh modify) n p o
      → conclude is_conflict canceled o.0 o.1 ≡ some (refresh_failed y)
      → refresh w ≡ (o.0.world, some y)
  unfolding try_refreshed conclude
  first_refresh w _ _ _ y s (no_steps p) h = ground (arith, h, s)
  first_refresh w _ _ _ y s (ends n p q e) h = ground (arith, h)
  first_refresh w _ _ _ y s (fails n p q x e) h =
      let start = next_attempt is_conflict canceled (fresh_start is_conflict canceled w) in
      let e' : after_refresh is_conflict canceled modify start (refresh w).0 (refresh w).1
          ≡ (q, stop x) =
        subst (λ r. try_refreshed is_conflict canceled wait refresh modify r ≡ (q, stop x)) s e in
      let (r, v) = after_refresh-stop start q (refresh w).0 (refresh w).1 x y refl refl e' h in
      λ i. (v i, r i)
  first_refresh w _ _ _ y s (gives_up n p q e) h =
      elim (Seen-conclude q timed_out y (first_again w p q s e) h) [ ]
  first_refresh w _ _ _ y s (goes_on n p q o e run) h =
      elim (Seen-conclude o.0 o.1 y (Runs-Seen n q o (first_again w p q s e) run) h) [ ]

  -- The call succeeded on what its refresh left.
  abbrev pub Succeeds : W → Type 0
  Succeeds w' = (u : W) × (v : W) × (refresh u ≡ (v, none)) × (modify v ≡ (w', none))

  after_call-done :
      (p q : Progress W E) (w : W) (r : Option E)
      → after_call is_conflict canceled p w r ≡ (q, done)
      → (r ≡ none) × (w ≡ q.world)
  after_call-done p q w none e = (refl, ground (arith, e))
  after_call-done p q w (some x) e = elim (Bool-cases (is_conflict x)) [
    | inl c ↦ ground (arith, e, c)
    | inr d ↦ ground (arith, e, d)
  ]

  after_refresh-done :
      (p q : Progress W E) (u : W) (r : Option E)
      → (refresh u).1 ≡ r
      → after_refresh is_conflict canceled modify p (refresh u).0 r ≡ (q, done)
      → Succeeds q.world
  unfolding after_refresh
  after_refresh-done p q u none f e =
      let v = (refresh u).0 in
      let (n, at) = after_call-done p q (modify v).0 (modify v).1 e in
      (u, v, (λ i. (v, f i)), (λ i. (at i, n i)))
  after_refresh-done p q u (some z) f e = ground (arith, e)

  try_refreshed-done :
      (p q : Progress W E)
      → try_refreshed is_conflict canceled wait refresh modify p ≡ (q, done)
      → Succeeds q.world
  unfolding try_refreshed
  try_refreshed-done p q e =
      let start = waited_world is_conflict canceled wait p in
      let next = next_attempt is_conflict canceled p in
      elim (Bool-cases (ltb 1 next.attempt && canceled start)) [
        | inl late ↦ ground (arith, e, late)
        | inr on_time ↦ after_refresh-done next q start _ refl (ground (arith, e, on_time))
      ]

  ends_well :
      (n : ℕ) (p : Progress W E) (o : Progress W E × Waited (RetryError E))
      → Runs (try_refreshed is_conflict canceled wait refresh modify) n p o
      → conclude is_conflict canceled o.0 o.1 ≡ none
      → Succeeds o.0.world
  unfolding conclude
  ends_well _ _ _ (no_steps p) h = ground (arith, h)
  ends_well _ _ _ (ends n p q e) h = try_refreshed-done p q e
  ends_well _ _ _ (fails n p q x e) h = ground (arith, h)
  ends_well _ _ _ (gives_up n p q e) h = ground (arith, h)
  ends_well _ _ _ (goes_on n p q o e run) h = ends_well n q o run h

  -- What a result says: success, that a call succeeded on what its refresh left, and the error
  -- of a refresh, that the first refresh ended with it and nothing came after.
  abbrev pub Returns : W → W × Option (RetryError E) → Type 0
  Returns w (w', none) = Succeeds w'
  Returns w (w', some (refresh_failed e)) = refresh w ≡ (w', some e)
  Returns w (w', some (plain e)) = Unit
  Returns w (w', some context_canceled) = Unit
  Returns w (w', some (exhausted n e)) = Unit
  Returns w (w', some wait_timeout) = Unit

-- A refresh that fails is reported as that only if it is the first one.
refresh_failed_first :
    {W E : Type 0} (is_conflict : E → Bool) (canceled : W → Bool)
    (backoff : Backoff (Progress W E) (RetryError E)) (steps : ℕ) (wait : W → W)
    (refresh modify : W → W × Option E) (w w' : W) (e : E)
    → on_conflict_with_refresh is_conflict canceled backoff steps wait refresh modify w
      ≡ (w', some (refresh_failed e))
    → refresh w ≡ (w', some e)
unfolding on_conflict_with_refresh
refresh_failed_first is_conflict canceled backoff steps wait refresh modify w w' e h =
    let start = fresh_start is_conflict canceled w in
    let condition = try_refreshed is_conflict canceled wait refresh modify in
    let failed =
      first_refresh is_conflict canceled wait refresh modify w steps
        (backoff.run steps condition start) start e refl (backoff.law steps condition start)
        (ap (λ r. r.1) h) in
    failed ∙ (λ i. ((h i).0, some e))

-- With a refresh before each call, success is returned only if a refresh worked and the call on what it
-- left succeeded, with the world that is returned; and the error of a refresh is returned only if the
-- first refresh ended with it, and with the world that is returned.
pub on_conflict_with_refresh-Returns :
    {W E : Type 0} (is_conflict : E → Bool) (canceled : W → Bool)
    (backoff : Backoff (Progress W E) (RetryError E)) (steps : ℕ) (wait : W → W)
    (refresh modify : W → W × Option E) (w : W)
    → Returns is_conflict canceled wait refresh modify w
        (on_conflict_with_refresh is_conflict canceled backoff steps wait refresh modify w)
unfolding on_conflict_with_refresh
on_conflict_with_refresh-Returns {W = W} {E = E} is_conflict canceled backoff steps wait refresh
      modify w =
    by_result (on_conflict_with_refresh is_conflict canceled backoff steps wait refresh modify w)
      refl
  where
    by_result :
        (r : W × Option (RetryError E))
        → on_conflict_with_refresh is_conflict canceled backoff steps wait refresh modify w ≡ r
        → Returns is_conflict canceled wait refresh modify w r
    by_result (w', none) h =
        let start = fresh_start is_conflict canceled w in
        let condition = try_refreshed is_conflict canceled wait refresh modify in
        subst (Succeeds is_conflict canceled wait refresh modify) (ap (λ r. r.0) h) (
          ends_well is_conflict canceled wait refresh modify steps start
            (backoff.run steps condition start) (backoff.law steps condition start)
            (ap (λ r. r.1) h))
    by_result (w', some (refresh_failed e)) h =
        refresh_failed_first is_conflict canceled backoff steps wait refresh modify w w' e h
    by_result (w', some (plain e)) h = tt
    by_result (w', some context_canceled) h = tt
    by_result (w', some (exhausted n e)) h = tt
    by_result (w', some wait_timeout) h = tt
