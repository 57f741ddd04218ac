-- ===== src/Operator/AutoSuspend.antt =====
-- xtrinode/internal/autosuspend/autosuspend.go, and the wake window of
-- xtrinode/controllers/xtrinode_resume.go and xtrinode/controllers/xtrinode_wake_autosuspend.go.
-- Durations are not negative. What the coordinator, the Kubernetes API and the clock answer is an
-- argument.
pub mod Activity
pub mod Seen
pub mod Idle
pub mod Window
mod Examples
use xtrinode.Shared.{
  second, ℕ, ◌+◌, ◌*◌, String, Bool, true, false, ◌&&◌, ◌||◌, not, ltb, leb, str_eq, if◌then◌else◌,
  Option, none, some, List, [], ◌∷◌,
}
use xtrinode.Shared.Int.{ℤ, pos, negsuc}
use xtrinode.Shared.Dict.{insert}
use xtrinode.Operator.Commands.{
  Parsers, XTrinode, annotation, auto_suspend_requested, auto_suspend_requested_at,
  wake_min_workers, wake_ttl,
}
use xtrinode.Gateway.QueryState.{is_active}

-- The parts of the custom resource that are read or written here.
pub record Monitored : Type 0 where
  pub resource : XTrinode
  pub auto_suspend_after : Option ℕ
  pub wake_expires_at : Option ℕ
  pub wake_workers : ℕ
  pub last_activity : Option ℕ
  pub created_at : ℕ

-- The times that one call reads off the clock, in its order: that of an activity that goes on, the two
-- by which an activity is capped, those of the window and of the idle time, and that of the request.
pub record Clock : Type 0 where
  pub active : ℕ
  pub compared : ℕ
  pub capped : ℕ
  pub window : ℕ
  pub idle : ℕ
  pub request : ℕ

abbrev pub time_or : ℕ → Option ℕ → ℕ
time_or fallback none = fallback
time_or fallback (some t) = t

-- The last activity, or the creation where none is recorded.
abbrev pub last_seen : Monitored → ℕ
last_seen t = time_or t.created_at t.last_activity

abbrev pub in_window : ℕ → Option ℕ → Bool
in_window now none = false
in_window now (some expires) = ltb now expires

idle_for : ℕ → ℕ → Option ℕ → Bool
idle_for now seen none = false
idle_for now seen (some limit) = leb (seen + limit) now

-- The window is looked up at one time, and the idle time after that.
unfoldable pub check_auto_suspend : ℕ → ℕ → Monitored → Bool
unfolding idle_for
check_auto_suspend at now t =
    not t.resource.suspended
    && (not (in_window at t.wake_expires_at) && idle_for now (last_seen t) t.auto_suspend_after)

-- A query of the history: the texts of its fields, and those of its statistics, where they are
-- texts.
pub record Query : Type 0 where
  pub state : String
  pub field : String → Option String
  pub stats : String → Option String

abbrev pub query_fields : List String
query_fields =
    "endTime" ∷ "updateTime" ∷ "lastHeartbeat" ∷ "executionStartTime" ∷ "createTime" ∷ "created"
    ∷ []

abbrev pub time_formats : List String
time_formats =
    "2006-01-02T15:04:05.999999999Z07:00" ∷ "2006-01-02T15:04:05Z07:00"
    ∷ "2006-01-02 15:04:05.000 MST" ∷ "2006-01-02 15:04:05 MST" ∷ "2006-01-02 15:04:05.000 -0700"
    ∷ "2006-01-02 15:04:05 -0700" ∷ []

-- What the library says of texts: the time that a text is in a format, and a state in capitals
-- without spaces around it.
pub record Texts : Type 0 where
  pub parse_in : String → String → Option ℕ
  pub upper_trim : String → String

abbrev pub or_time : Option ℕ → Option ℕ → Option ℕ
or_time none later = later
or_time (some t) later = some t

first_parse : Texts → String → List String → Option ℕ
first_parse x text [] = none
first_parse x text (f ∷ fs) = or_time (x.parse_in f text) (first_parse x text fs)

unfoldable pub parse_query_timestamp : Texts → Option String → Option ℕ
unfolding first_parse
parse_query_timestamp x none = none
parse_query_timestamp x (some text) =
    if str_eq text "" then none else first_parse x text time_formats

abbrev pub later_of : Option ℕ → Option ℕ → Option ℕ
later_of latest none = latest
later_of none (some t) = some t
later_of (some latest) (some t) = if ltb latest t then some t else some latest

unfoldable pub latest_of_fields :
    Texts → (String → Option String) → Option ℕ → List String → Option ℕ
latest_of_fields x field latest [] = latest
latest_of_fields x field latest (f ∷ fs) =
    latest_of_fields x field (later_of latest (parse_query_timestamp x (field f))) fs

unfoldable pub latest_query_timestamp : Texts → Query → Option ℕ
latest_query_timestamp x q =
    latest_of_fields x q.stats (latest_of_fields x q.field none query_fields) query_fields

pub record QueryActivity : Type 0 where
  pub active_queries : ℕ
  pub latest_activity : Option ℕ

abbrev pub add_query : Texts → QueryActivity → Query → QueryActivity
add_query x activity q = record {
  active_queries = activity.active_queries + (if is_active x.upper_trim q.state then 1 else 0);
  latest_activity = later_of activity.latest_activity (latest_query_timestamp x q);
}

unfoldable pub scan : Texts → QueryActivity → List Query → QueryActivity
scan x activity [] = activity
scan x activity (q ∷ qs) = scan x (add_query x activity q) qs

unfoldable pub query_activity : Texts → List Query → QueryActivity
query_activity x qs = scan x (record { active_queries = 0; latest_activity = none }) qs

-- What an update in the cluster comes to: it fails for good, or it writes on this fresh copy.
pub data Save : Type 0 where
  save_failed : Save
  saves_on : Monitored → Save

-- An error is `none`.
unfoldable pub update_last_activity_at : Clock → ℕ → Save → Option Monitored
update_last_activity_at k activity save_failed = none
update_last_activity_at k activity (saves_on fresh) =
    some (record fresh {
      last_activity = some (if ltb k.compared activity then k.capped else activity);
    })

newer_activity : Clock → Monitored → Option ℕ → Save → Option Monitored
newer_activity k t none save = some t
newer_activity k t (some latest) save =
    if ltb (last_seen t) latest then update_last_activity_at k latest save else some t

unfoldable pub update_last_activity_from_query_activity :
    Clock → Monitored → QueryActivity → Save → Option Monitored
unfolding newer_activity
update_last_activity_from_query_activity k t activity save =
    if ltb 0 activity.active_queries
    then update_last_activity_at k k.active save
    else newer_activity k t activity.latest_activity save

-- The coordinator's answers: whether the sum of its metrics is above 0, and its history of queries;
-- `none` for an error.
pub record Coordinator : Type 0 where
  pub has_credential : Bool
  pub metrics : Option Bool
  pub history : Option (List Query)

from_history : Texts → Clock → Monitored → Option (List Query) → Save → Option Monitored
from_history x k t none save = none
from_history x k t (some qs) save =
    update_last_activity_from_query_activity k t (query_activity x qs) save

by_metrics : Texts → Clock → Monitored → Option Bool → Option (List Query) → Save → Option Monitored
unfolding from_history
by_metrics x k t none history save = from_history x k t history save
by_metrics x k t (some true) history save = update_last_activity_at k k.active save
by_metrics x k t (some false) history save = from_history x k t history save

unfoldable pub update_last_activity_if_queries_active :
    Texts → Clock → Monitored → Coordinator → Save → Option Monitored
unfolding by_metrics
update_last_activity_if_queries_active x k t c save =
    if c.has_credential then by_metrics x k t c.metrics c.history save else none

-- The cluster as it is read again, with the activity that was seen where that is newer. A read that
-- fails leaves it as it is.
abbrev pub is_behind : Option ℕ → ℕ → Bool
is_behind none observed = true
is_behind (some t) observed = ltb t observed

unfoldable pub keep_newer : Option ℕ → Monitored → Monitored
keep_newer none t = t
keep_newer (some observed) t =
    if is_behind t.last_activity observed then record t { last_activity = some observed } else t

unfoldable pub refreshed_with : Monitored → Option Monitored → Monitored
refreshed_with t none = t
refreshed_with t (some read_again) = keep_newer t.last_activity read_again

pub data Decision : Type 0 where
  failed : Decision
  stays : Monitored → Decision
  requested : Monitored → Decision

unfoldable pub request_auto_suspend : (ℕ → String) → ℕ → Save → Decision
request_auto_suspend format_time now save_failed = failed
request_auto_suspend format_time now (saves_on fresh) = requested (record fresh {
  resource = record fresh.resource {
    annotations =
        insert auto_suspend_requested_at (format_time now)
          (insert auto_suspend_requested "true" fresh.resource.annotations);
  };
})

decide : (ℕ → String) → Clock → Option Monitored → Option Monitored → Save → Decision
decide format_time k none again save = failed
decide format_time k (some t) again save =
    let u = refreshed_with t again in
    if check_auto_suspend k.window k.idle u
    then request_auto_suspend format_time k.request save
    else stays u

-- `first_save` is the update of the activity, `again` the read after it, and `save` the update that
-- asks for the suspend.
unfoldable pub auto_suspend_if_needed :
    Texts
    → (ℕ → String)
    → Clock
    → Monitored
    → Coordinator
    → Save
    → Option Monitored
    → Save
    → Decision
unfolding decide
auto_suspend_if_needed x format_time k t c first_save again save =
    decide format_time k (update_last_activity_if_queries_active x k t c first_save) again save
