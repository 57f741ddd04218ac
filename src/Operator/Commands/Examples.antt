-- ===== src/Operator/Commands/Examples.antt =====
-- The command theorems at a cluster that was asked to suspend, and later to resume.
use xtrinode.Shared.{◌≡◌, refl, true, false, not, str_eq, if◌then◌else◌, none, some, [], ◌∷◌}
use xtrinode.Shared.Int.{pos}
use xtrinode.Shared.Dict.{lookup, delete}
use xtrinode.Operator.Commands.{
  Parsers, resume_requested, resume_requested_at, suspend_requested, suspend_requested_at,
  wake_min_workers, XTrinode, parse_timestamp, detect_annotation_commands,
  resolve_command_precedence, validate_resume_command, delete_both, clear_annotations, mutate,
  persist_failed, persists_on, process_commands,
}
use xtrinode.Operator.Commands.Outcome.{
  resume_wins, process_commands-suspended, process_commands_once,
}

abbrev small_parsers : Parsers
small_parsers = record {
  parse_time = λ s. some (if str_eq s "later" then 2 else 1);
  parse_int = λ s. some (pos 3);
  parse_duration = λ s. none;
}

abbrev asked : XTrinode
asked = record {
  annotations =
      (suspend_requested, "true")
      ∷ (suspend_requested_at, "early")
      ∷ (resume_requested, "true")
      ∷ (resume_requested_at, "later")
      ∷ (wake_min_workers, "3")
      ∷ ("team", "data")
      ∷ [];
  suspended = true;
}

abbrev woken : XTrinode
woken = record { annotations = (wake_min_workers, "3") ∷ ("team", "data") ∷ []; suspended = false }

wakes : (process_commands small_parsers (persists_on asked) asked).written ≡ some woken
unfolding process_commands detect_annotation_commands resolve_command_precedence parse_timestamp
    validate_resume_command mutate clear_annotations delete_both lookup delete
wakes = refl

process_commands-suspended_example : woken.suspended ≡ not (resume_wins small_parsers asked)
process_commands-suspended_example =
    process_commands-suspended small_parsers asked asked woken wakes

process_commands_once_example :
    process_commands small_parsers persist_failed woken
    ≡ record { commands = []; failed = false; rejected = false; written = none }
process_commands_once_example = process_commands_once small_parsers asked woken persist_failed wakes
