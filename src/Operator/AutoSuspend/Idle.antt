-- ===== src/Operator/AutoSuspend/Idle.antt =====
-- autosuspend.go: a cluster for which an auto-suspend is requested was idle.
use xtrinode.Shared.{ℕ, ◌+◌, ◌≤◌, String, ◌≡◌, false, Option, none, some, ◌⊎◌}
use xtrinode.Operator.AutoSuspend.{
  Monitored, last_seen, in_window, Query, Texts, Clock, Save, Coordinator,
  update_last_activity_if_queries_active, parse_query_timestamp,
}

-- A cluster that the check finds idle: running, in no wake window, with a limit that has passed
-- since it was last seen active.
abbrev pub IsIdle : Clock → Monitored → ℕ → Type 0
IsIdle k u limit =
    (u.auto_suspend_after ≡ some limit)
    × (u.resource.suspended ≡ false)
    × (in_window k.window u.wake_expires_at ≡ false)
    × (last_seen u + limit ≤ k.idle)

-- The cluster as it was read last: again after the update of the activity, or, where that read
-- fails, by the update.
abbrev pub ReadLast :
    Texts → Clock → Monitored → Coordinator → Save → Option Monitored → Monitored → Type 0
ReadLast x k t c first_save again u =
    (again ≡ some u)
    ⊎ ((again ≡ none) × (update_last_activity_if_queries_active x k t c first_save ≡ some u))

-- A time, if there is one, that lies back by the limit.
abbrev pub IsQuiet : Clock → ℕ → Option ℕ → Type 0
IsQuiet k limit none = Unit
IsQuiet k limit (some at) = at + limit ≤ k.idle

-- The times that a query has in one of its fields and in that of its statistics lie back by the
-- limit.
abbrev pub IsQuietQuery : Texts → Clock → ℕ → Query → String → Type 0
IsQuietQuery x k limit q f =
    IsQuiet k limit (parse_query_timestamp x (q.field f))
    × IsQuiet k limit (parse_query_timestamp x (q.stats f))
