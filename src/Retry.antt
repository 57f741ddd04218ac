-- ===== src/Retry.antt =====
-- xtrinode/internal/retry/retry.go. The calls that are retried change a world, and so does what
-- others do while a call waits for its next attempt; where the attempt looks at the context first,
-- that is a function of its own. `is_conflict` is the library's test of an error, and `canceled` says of a world
-- whether the context has an error.
pub mod Conflict
pub mod Refresh
mod Examples
use xtrinode.Shared.{
  ℕ, zero, suc, ◌+◌, ◌≡◌, Bool, true, false, ◌&&◌, ltb, if◌then◌else◌, Option, none, some,
}

-- What a condition says to the loop: it is done, it wants another round, or it fails.
pub data Verdict (X : Type 0) : Type 0 where
  done again : Verdict X
  stop : X → Verdict X

-- How a loop ends: done, with the condition's error, or with the error of a wait that timed out.
pub data Waited (X : Type 0) : Type 0 where
  finished timed_out : Waited X
  stopped : X → Waited X

-- The documented runs of the library's loop: it calls the condition at most as often as there are
-- steps and at least once where there are any, stops when the condition is done or fails, and may
-- give up after any round that wants another.
pub data Runs {S X : Type 0} (condition : S → S × Verdict X) : ℕ → S → S × Waited X → Type 0 where
  no_steps : (s : S) → Runs condition 0 s (s, timed_out)
  ends : (n : ℕ) (s s' : S) → condition s ≡ (s', done) → Runs condition (suc n) s (s', finished)
  fails :
      (n : ℕ) (s s' : S) (x : X)
      → condition s ≡ (s', stop x)
      → Runs condition (suc n) s (s', stopped x)
  gives_up :
      (n : ℕ) (s s' : S) → condition s ≡ (s', again) → Runs condition (suc n) s (s', timed_out)
  goes_on :
      (n : ℕ) (s s' : S) (o : S × Waited X)
      → condition s ≡ (s', again)
      → Runs condition n s' o
      → Runs condition (suc n) s o

-- `wait.ExponentialBackoff`, for a number of steps.
pub record Backoff (S X : Type 0) : Type 0 where
  pub run : ℕ → (S → S × Verdict X) → S → S × Waited X
  pub law :
      (steps : ℕ) (condition : S → S × Verdict X) (s : S)
      → Runs condition steps s (run steps condition s)

-- The errors that the two functions return.
pub data RetryError (E : Type 0) : Type 0 where
  plain : E → RetryError E
  context_canceled : RetryError E
  refresh_failed : E → RetryError E
  exhausted : ℕ → E → RetryError E
  wait_timeout : RetryError E

-- The world and the variables that the condition writes.
pub record Progress (W E : Type 0) : Type 0 where
  pub world : W
  pub attempt : ℕ
  pub last_err : Option E
  pub non_conflict_err : Option E

module _ {W E : Type 0} (is_conflict : E → Bool) (canceled : W → Bool) where
  -- After a call of the function that is retried.
  abbrev pub after_call : Progress W E → W → Option E → Progress W E × Verdict (RetryError E)
  after_call p w none = (record p { world = w }, done)
  after_call p w (some e) =
      if is_conflict e
      then (
        record p { world = w; last_err = some e },
        (if canceled w then stop context_canceled else again),
      )
      else (record p { world = w; non_conflict_err = some e }, stop (plain e))

  abbrev pub next_attempt : Progress W E → Progress W E
  next_attempt p = record p { attempt = suc p.attempt }

  unfoldable pub try_call :
      (W → W × Option E) → Progress W E → Progress W E × Verdict (RetryError E)
  try_call fn p = let (w, r) = fn p.world in after_call (next_attempt p) w r

  after_refresh :
      (W → W × Option E) → Progress W E → W → Option E → Progress W E × Verdict (RetryError E)
  after_refresh modify p w (some e) = (record p { world = w }, stop (refresh_failed e))
  after_refresh modify p w none = let (v, r) = modify w in after_call p v r

  -- The world at an attempt: any but the first comes after a wait.
  abbrev pub waited_world : (W → W) → Progress W E → W
  waited_world wait p = if ltb 1 (suc p.attempt) then wait p.world else p.world

  unfoldable pub try_refreshed :
      (W → W)
      → (W → W × Option E)
      → (W → W × Option E)
      → Progress W E
      → Progress W E × Verdict (RetryError E)
  unfolding after_refresh
  try_refreshed wait refresh modify p =
      let q = next_attempt p in
      let start = waited_world wait p in
      let (w, r) = refresh start in
      if ltb 1 q.attempt && canceled start
      then (record q { world = start }, stop context_canceled)
      else after_refresh modify q w r

  abbrev pub error_of : Waited (RetryError E) → RetryError E
  error_of finished = wait_timeout
  error_of timed_out = wait_timeout
  error_of (stopped x) = x

  exhausted_or : ℕ → Option E → RetryError E → RetryError E
  exhausted_or attempts (some e) x = exhausted attempts e
  exhausted_or attempts none x = x

  plain_or : Option E → RetryError E → RetryError E
  plain_or (some e) x = plain e
  plain_or none x = x

  -- The error that is returned, `none` for success.
  unfoldable pub conclude : Progress W E → Waited (RetryError E) → Option (RetryError E)
  unfolding exhausted_or plain_or
  conclude p finished = none
  conclude p ended = some (
      plain_or p.non_conflict_err (
        if canceled p.world
        then context_canceled
        else exhausted_or p.attempt p.last_err (error_of ended)))

  abbrev pub fresh_start : W → Progress W E
  fresh_start w = record { world = w; attempt = 0; last_err = none; non_conflict_err = none }

  abbrev pub concluded : Progress W E × Waited (RetryError E) → W × Option (RetryError E)
  concluded (p, ended) = (p.world, conclude p ended)

  unfoldable pub on_conflict :
      Backoff (Progress W E) (RetryError E) → ℕ → (W → W × Option E) → W → W × Option (RetryError E)
  on_conflict backoff steps fn w = concluded (backoff.run steps (try_call fn) (fresh_start w))

  unfoldable pub on_conflict_with_refresh :
      Backoff (Progress W E) (RetryError E)
      → ℕ
      → (W → W)
      → (W → W × Option E)
      → (W → W × Option E)
      → W
      → W × Option (RetryError E)
  on_conflict_with_refresh backoff steps wait refresh modify w =
      concluded (backoff.run steps (try_refreshed wait refresh modify) (fresh_start w))
