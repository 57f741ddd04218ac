-- ===== src/Operator/Commands.antt =====
-- xtrinode/controllers/commands.go: lifecycle commands that come as annotations. Times are
-- nanoseconds since 731 days before Go's zero time, which no RFC 3339 time precedes.
pub mod Outcome
mod Examples
use xtrinode.Shared.{
  second, ℕ, ◌*◌, String, Bool, true, false, ◌&&◌, ◌||◌, not, ltb, str_eq, if◌then◌else◌, Option,
  none, some, List, [], ◌∷◌, ◌++◌,
}
use xtrinode.Shared.Int.{ℤ, pos, negsuc}
use xtrinode.Shared.Dict.{Dict, lookup, delete}

-- The library calls that read texts: an RFC 3339 time, a 32-bit integer and a duration; `none`
-- where the call returns an error.
pub record Parsers : Type 0 where
  pub parse_time : String → Option ℕ
  pub parse_int : String → Option ℤ
  pub parse_duration : String → Option ℤ

abbrev pub resume_requested : String
resume_requested = "xtrinode.analytics.xtrinode.io/resume-requested"

abbrev pub resume_requested_at : String
resume_requested_at = "xtrinode.analytics.xtrinode.io/resume-requested-at"

abbrev pub suspend_requested : String
suspend_requested = "xtrinode.analytics.xtrinode.io/suspend-requested"

abbrev pub suspend_requested_at : String
suspend_requested_at = "xtrinode.analytics.xtrinode.io/suspend-requested-at"

abbrev pub auto_suspend_requested : String
auto_suspend_requested = "xtrinode.analytics.xtrinode.io/auto-suspend-requested"

abbrev pub auto_suspend_requested_at : String
auto_suspend_requested_at = "xtrinode.analytics.xtrinode.io/auto-suspend-requested-at"

abbrev pub wake_min_workers : String
wake_min_workers = "xtrinode.analytics.xtrinode.io/wake-min-workers"

abbrev pub wake_ttl : String
wake_ttl = "xtrinode.analytics.xtrinode.io/wake-ttl"

-- The parts of the custom resource that commands read and write.
pub record XTrinode : Type 0 where
  pub annotations : Dict String
  pub suspended : Bool

pub data CommandType : Type 0 where
  resume suspend auto_suspend : CommandType

-- The two parameters are those of a resume; the others have none, which reads as empty texts.
pub record Command : Type 0 where
  pub kind : CommandType
  pub timestamp : ℕ
  pub min_workers : String
  pub ttl : String

-- A read of a Go map of texts.
abbrev pub text_or_empty : Option String → String
text_or_empty none = ""
text_or_empty (some s) = s

abbrev pub annotation : String → XTrinode → String
annotation key t = text_or_empty (lookup key t.annotations)

-- `time.Time{}`.
abbrev pub zero_time : ℕ
zero_time = 731 * 86_400 * second

abbrev pub time_or_zero : Option ℕ → ℕ
time_or_zero none = zero_time
time_or_zero (some t) = t

unfoldable pub parse_timestamp : Parsers → String → ℕ
parse_timestamp p ts = if str_eq ts "" then zero_time else time_or_zero (p.parse_time ts)

abbrev pub is_true : Option String → Bool
is_true none = false
is_true (some v) = str_eq v "true"

-- The commands found, each alone.
pub record Found : Type 0 where
  pub resume_cmd : Option Command
  pub suspend_cmd : Option Command
  pub auto_suspend_cmd : Option Command

detect : Bool → Command → Option Command
detect c cmd = if c then some cmd else none

unfoldable pub detect_annotation_commands : Parsers → XTrinode → Found
unfolding detect
detect_annotation_commands p t = record {
  resume_cmd = detect (is_true (lookup resume_requested t.annotations)) (record {
    kind = resume;
    timestamp = parse_timestamp p (annotation resume_requested_at t);
    min_workers = annotation wake_min_workers t;
    ttl = annotation wake_ttl t;
  });
  suspend_cmd = detect (is_true (lookup suspend_requested t.annotations)) (record {
    kind = suspend;
    timestamp = parse_timestamp p (annotation suspend_requested_at t);
    min_workers = "";
    ttl = "";
  });
  auto_suspend_cmd = detect (is_true (lookup auto_suspend_requested t.annotations)) (record {
    kind = auto_suspend;
    timestamp = parse_timestamp p (annotation auto_suspend_requested_at t);
    min_workers = "";
    ttl = "";
  });
}

abbrev pub present {ℓ} : {A : Type ℓ} → Option A → Bool
present none = false
present (some a) = true

abbrev pub any_found : Found → Bool
any_found f = present f.resume_cmd || present f.suspend_cmd || present f.auto_suspend_cmd

abbrev pub listed : Option Command → List Command
listed none = []
listed (some c) = c ∷ []

-- The slice of commands, in the order in which they are appended.
abbrev pub commands_of : Found → List Command
commands_of f = listed f.resume_cmd ++ listed f.suspend_cmd ++ listed f.auto_suspend_cmd

-- Of a resume and a suspend, the resume is kept only if it is newer.
newest_wins : Option Command → Option Command → Found → Found
newest_wins (some r) (some s) f =
    if ltb s.timestamp r.timestamp
    then record f { suspend_cmd = none }
    else record f { resume_cmd = none }
newest_wins _ _ f = f

-- The commands that are left; where there is at most one, nothing changes.
unfoldable pub resolve_command_precedence : Found → Found
unfolding newest_wins
resolve_command_precedence f =
    let manual = present f.resume_cmd || present f.suspend_cmd in
    newest_wins f.resume_cmd f.suspend_cmd
      (if present f.auto_suspend_cmd && manual then record f { auto_suspend_cmd = none } else f)

non_negative : Option ℤ → Bool
non_negative none = false
non_negative (some (pos n)) = true
non_negative (some (negsuc n)) = false

unfoldable pub validate_resume_command : Parsers → Command → Bool
unfolding non_negative
validate_resume_command p cmd =
    (str_eq cmd.min_workers "" || non_negative (p.parse_int cmd.min_workers))
    && (str_eq cmd.ttl "" || non_negative (p.parse_duration cmd.ttl))

-- Two deletes under one test.
unfoldable pub delete_both : Bool → String → String → Dict String → Dict String
delete_both c key other m = if c then delete other (delete key m) else m

-- The annotations that are left.
unfoldable pub clear_annotations : Found → Found → Dict String → Dict String
clear_annotations detected won m =
    let m = delete_both (present detected.resume_cmd) resume_requested resume_requested_at m in
    let m = delete_both (present detected.suspend_cmd) suspend_requested suspend_requested_at m in
    let m =
      delete_both (present detected.auto_suspend_cmd) auto_suspend_requested
        auto_suspend_requested_at m in
    delete_both (not (present won.resume_cmd) && any_found detected) wake_min_workers wake_ttl m

unfoldable pub mutate : Found → Found → XTrinode → XTrinode
mutate detected won t =
    let woken = if present won.resume_cmd then false else t.suspended in
    record {
      annotations = clear_annotations detected won t.annotations;
      suspended = if present won.suspend_cmd || present won.auto_suspend_cmd then true else woken;
    }

-- What the update in the cluster comes to: it fails for good, or it writes on this fresh copy.
pub data Persist : Type 0 where
  persist_failed : Persist
  persists_on : XTrinode → Persist

-- What `ProcessCommands` returns and does: its commands, whether it returned an error, whether it
-- set the CommandRejected condition, and what it wrote.
pub record Processed : Type 0 where
  pub commands : List Command
  pub failed : Bool
  pub rejected : Bool
  pub written : Option XTrinode

persist : Found → Found → Persist → Processed
persist detected won persist_failed = record {
  commands = [];
  failed = true;
  rejected = false;
  written = none;
}
persist detected won (persists_on fresh) = record {
  commands = commands_of won;
  failed = false;
  rejected = false;
  written = some (mutate detected won fresh);
}

valid_resume : Parsers → Option Command → Bool
valid_resume p none = true
valid_resume p (some cmd) = validate_resume_command p cmd

unfoldable pub process_commands : Parsers → Persist → XTrinode → Processed
unfolding persist valid_resume
process_commands p cluster t =
    let detected = detect_annotation_commands p t in
    let won = resolve_command_precedence detected in
    if not (any_found detected)
    then record { commands = commands_of won; failed = false; rejected = false; written = none }
    else if not (valid_resume p won.resume_cmd)
    then record { commands = []; failed = false; rejected = true; written = none }
    else persist detected won cluster
