-- ===== src/Operator/AutoSuspend/Examples.antt =====
-- The theorems on auto-suspend at a cluster with a limit of ten seconds. Times are written in unary
-- nanoseconds, so they are small.
use xtrinode.Shared.{ℕ, String, ◌≡◌, refl, true, false, if◌then◌else◌, [], ◌∷◌, none, some}
use xtrinode.Shared.Int.{pos}
use xtrinode.Shared.Dict.{lookup, insert}
use xtrinode.Operator.Commands.{
  Parsers, XTrinode, wake_min_workers, auto_suspend_requested, auto_suspend_requested_at,
  resume_requested,
}
use xtrinode.Operator.Commands.Outcome.{asks}
use xtrinode.Operator.AutoSuspend.{
  str_eq, Clock, Monitored, Query, Texts, saves_on, Coordinator, requested, request_auto_suspend,
}
use xtrinode.Operator.AutoSuspend.Window.{WakeDefaults}

-- Every text is the time 3 in the first format.
abbrev texts : Texts
texts = record { parse_in = λ f s. some 3; upper_trim = λ s. s }

abbrev finished : Query
finished = record {
  state = "FINISHED";
  field = λ f. if str_eq f "endTime" then some "at three" else none;
  stats = λ f. none;
}

abbrev cluster : XTrinode
cluster = record { annotations = []; suspended = false }

abbrev watched : Monitored
watched = record {
  resource = cluster;
  auto_suspend_after = some 10;
  wake_expires_at = none;
  wake_workers = 0;
  last_activity = some 1;
  created_at = 0;
}

abbrev coordinator : Coordinator
coordinator = record { has_credential = true; metrics = some false; history = some (finished ∷ []) }

abbrev now_text : ℕ → String
now_text at = "now"

abbrev asked : Monitored
asked = record watched {
  resource = record {
    annotations = (auto_suspend_requested, "true") ∷ (auto_suspend_requested_at, "now") ∷ [];
    suspended = false;
  };
}

-- The call takes five ticks.
abbrev clock : Clock
clock = record { active = 20; compared = 21; capped = 22; window = 23; idle = 24; request = 25 }

abbrev parsers : Parsers
parsers = record {
  parse_time = λ s. none;
  parse_int = λ s. some (pos 2);
  parse_duration = λ s. some (pos 5);
}

abbrev no_defaults : WakeDefaults
no_defaults = record { workers = none; ttl = none }

-- Two workers are kept, for the five minutes of the default.
abbrev wakes : Monitored
wakes = record watched {
  resource = record { annotations = (wake_min_workers, "2") ∷ []; suspended = false };
}

asks_once : request_auto_suspend now_text 20 (saves_on watched) ≡ requested asked
unfolding request_auto_suspend insert
asks_once = refl

no_resume : asks resume_requested asked.resource ≡ false
unfolding lookup
no_resume = refl
