-- ===== src/Retry/Examples.antt =====
-- The theorems on retries with a loop that makes all its rounds, and calls that count themselves
-- and meet a conflict twice.
use xtrinode.Shared.{
  ℕ, zero, suc, String, ◌≡◌, refl, Bool, false, ltb, str_eq, arith, Option, none, some,
  if◌then◌else◌,
}
use xtrinode.Retry.{
  Verdict, done, again, stop, Waited, finished, timed_out, stopped, Runs, no_steps, ends, fails,
  goes_on, Backoff, refresh_failed, on_conflict, on_conflict_with_refresh, try_call, try_refreshed,
  after_refresh, conclude, exhausted_or, plain_or,
}
use xtrinode.Retry.Conflict.{Outcome, on_conflict-Outcome}
use xtrinode.Retry.Refresh.{on_conflict_with_refresh-Returns, Returns}

module _ {S X : Type 0} (condition : S → S × Verdict X) where
  ended : (S → S × Waited X) → S → Verdict X → S × Waited X
  ended rest s done = (s, finished)
  ended rest s (stop x) = (s, stopped x)
  ended rest s again = rest s

  all_rounds : ℕ → S → S × Waited X
  unfolding ended
  all_rounds zero s = (s, timed_out)
  all_rounds (suc n) s = ended (all_rounds n) (condition s).0 (condition s).1

  all_rounds-Runs : (n : ℕ) (s : S) → Runs condition n s (all_rounds n s)
  unfolding all_rounds
  all_rounds-Runs zero s = no_steps s
  all_rounds-Runs (suc n) s = by_verdict (all_rounds-Runs n) (condition s).0 (condition s).1 refl
    where
      by_verdict :
          ((s' : S) → Runs condition n s' (all_rounds n s'))
          → (s' : S) (v : Verdict X) → condition s ≡ (s', v)
          → Runs condition (suc n) s (ended (all_rounds n) s' v)
      by_verdict rest s' done e = ends n s s' e
      by_verdict rest s' (stop x) e = fails n s s' x e
      by_verdict rest s' again e = goes_on n s s' (all_rounds n s') e (rest s')

abbrev every_round : {S X : Type 0} → Backoff S X
every_round = record {
  run = λ steps condition s. all_rounds condition steps s;
  law = λ steps condition s. all_rounds-Runs condition steps s;
}

abbrev is_conflict : String → Bool
is_conflict e = str_eq e "conflict"

abbrev never : ℕ → Bool
never w = false

-- The world is the number of calls.
abbrev third_time : ℕ → ℕ × Option String
third_time w = (suc w, if ltb w 2 then some "conflict" else none)

on_conflict-Outcome_example :
    Outcome is_conflict never third_time 0 5 0
      (on_conflict is_conflict never every_round 5 third_time 0)
on_conflict-Outcome_example =
    on_conflict-Outcome is_conflict never every_round 5 third_time 0 (omega arith)

comes_through : on_conflict is_conflict never every_round 5 third_time 0 ≡ (3, none)
unfolding on_conflict all_rounds try_call conclude
comes_through = refl

abbrev unchanged : ℕ → ℕ
unchanged w = w

abbrev unreachable_store : ℕ → ℕ × Option String
unreachable_store w = (w, some "unreachable")

not_refreshed :
    on_conflict_with_refresh is_conflict never every_round 5 unchanged unreachable_store third_time
      0
    ≡ (0, some (refresh_failed "unreachable"))
unfolding on_conflict_with_refresh all_rounds try_refreshed after_refresh conclude exhausted_or
    plain_or
not_refreshed = refl

abbrev read_well : ℕ → ℕ × Option String
read_well w = (w, none)

comes_through_refreshed :
    on_conflict_with_refresh is_conflict never every_round 5 unchanged read_well third_time 0
    ≡ (3, none)
unfolding on_conflict_with_refresh all_rounds try_refreshed after_refresh conclude
comes_through_refreshed = refl

on_conflict_with_refresh-Returns_example :
    Returns is_conflict never unchanged read_well third_time 0
      (on_conflict_with_refresh is_conflict never every_round 5 unchanged read_well third_time 0)
on_conflict_with_refresh-Returns_example =
    on_conflict_with_refresh-Returns is_conflict never every_round 5 unchanged read_well third_time
      0
