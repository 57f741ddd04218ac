-- ===== src/Operator/Commands/Outcome.antt =====
-- commands.go: what is written for the commands that are found, and that each is taken once.
use xtrinode.Shared.{
  ℕ, ◌≤◌, String, ◌≡◌, refl, Bool, true, false, ◌&&◌, ◌||◌, not, ltb, str_eq, arith, eq_iff, Option,
  none, some, [], length, if◌then◌else◌, ◌⊎◌,
}
use xtrinode.Shared.Int.{pos}
use xtrinode.Shared.Dict.{Dict, lookup, delete, lookup-delete}
use xtrinode.Operator.Commands.{
  Parsers, resume_requested, resume_requested_at, suspend_requested, suspend_requested_at,
  auto_suspend_requested, auto_suspend_requested_at, wake_min_workers, wake_ttl, XTrinode,
  annotation, parse_timestamp, is_true, Found, any_found, detect_annotation_commands, present,
  resolve_command_precedence, validate_resume_command, delete_both, clear_annotations, mutate,
  Persist, persists_on, process_commands,
}

-- Whether the annotation asks for its command.
abbrev pub asks : String → XTrinode → Bool
asks key t = is_true (lookup key t.annotations)

-- A resume is asked for, and no suspend that is as new or newer.
abbrev pub resume_wins : Parsers → XTrinode → Bool
resume_wins p t =
    asks resume_requested t
    && (not (asks suspend_requested t)
        || ltb (parse_timestamp p (annotation suspend_requested_at t))
            (parse_timestamp p (annotation resume_requested_at t)))

won_resume :
    (p : Parsers) (t : XTrinode)
    → let won = resolve_command_precedence (detect_annotation_commands p t) in
      present won.resume_cmd ≡ resume_wins p t
unfolding resolve_command_precedence detect_annotation_commands
won_resume p t = ground arith

found_asks :
    (p : Parsers) (t : XTrinode)
    → any_found (detect_annotation_commands p t)
      ≡ (asks resume_requested t || asks suspend_requested t || asks auto_suspend_requested t)
unfolding detect_annotation_commands
found_asks p t = ground arith

found_each :
    (p : Parsers) (t : XTrinode)
    → let d = detect_annotation_commands p t in
      (present d.resume_cmd ≡ asks resume_requested t)
      × (present d.suspend_cmd ≡ asks suspend_requested t)
      × (present d.auto_suspend_cmd ≡ asks auto_suspend_requested t)
unfolding detect_annotation_commands
found_each p t = ground arith

written_mutate :
    (p : Parsers) (fresh t t' : XTrinode)
    → (process_commands p (persists_on fresh) t).written ≡ some t'
    → let detected = detect_annotation_commands p t in
      (any_found detected ≡ true)
      × (t' ≡ mutate detected (resolve_command_precedence detected) fresh)
unfolding process_commands
written_mutate p fresh t t' e = ground (arith, e)

-- What is written runs exactly if a resume was asked for and no suspend as new or newer; an
-- auto-suspend yields to either.
pub process_commands-suspended :
    (p : Parsers) (fresh t t' : XTrinode)
    → (process_commands p (persists_on fresh) t).written ≡ some t'
    → t'.suspended ≡ not (resume_wins p t)
unfolding process_commands mutate resolve_command_precedence detect_annotation_commands
process_commands-suspended p fresh t t' e = ground (arith, e)

-- At most one command is taken.
pub process_commands-length :
    (p : Parsers) (cluster : Persist) (t : XTrinode)
    → length (process_commands p cluster t).commands ≤ 1
unfolding process_commands resolve_command_precedence detect_annotation_commands
process_commands-length p cluster t = ground arith

-- Nothing where a test holds.
unfoldable pub none_if : Bool → Option String → Option String
none_if c o = if c then none else o

lookup-delete_both :
    (c : Bool) (key other k : String) (m : Dict String)
    → lookup k (delete_both c key other m)
      ≡ none_if (c && (str_eq key k || str_eq other k)) (lookup k m)
unfolding delete_both none_if
lookup-delete_both c key other k m =
    ground (arith, lookup-delete key k m, lookup-delete other k (delete key m))

and_true : (b : Bool) → (b && true) ≡ b
and_true true = refl
and_true false = refl

none_if_four :
    (a b c d : Bool) (o : Option String)
    → none_if d (none_if c (none_if b (none_if a o))) ≡ none_if (a || b || c || d) o
unfolding none_if
none_if_four a b c d o = ground arith

lookup-clear_annotations :
    (d w : Found) (m : Dict String) (k : String)
    → lookup k (clear_annotations d w m)
      ≡ none_if
          ((present d.resume_cmd && (str_eq resume_requested k || str_eq resume_requested_at k))
            || (present d.suspend_cmd
                && (str_eq suspend_requested k || str_eq suspend_requested_at k))
            || (present d.auto_suspend_cmd
                && (str_eq auto_suspend_requested k || str_eq auto_suspend_requested_at k))
            || ((not (present w.resume_cmd) && any_found d)
                && (str_eq wake_min_workers k || str_eq wake_ttl k)))
          (lookup k m)
unfolding clear_annotations
lookup-clear_annotations d w m k = simp lookup-delete_both (none_if_four _ _ _ _ (lookup k m))

-- An invalid resume is never written: where a cluster is woken, each wake parameter is absent or
-- reads as a number that is not negative.
pub process_commands-valid :
    (p : Parsers) (fresh t t' : XTrinode)
    → (process_commands p (persists_on fresh) t).written ≡ some t'
    → t'.suspended ≡ false
    → ((annotation wake_min_workers t ≡ "")
        ⊎ ((n : ℕ) × (p.parse_int (annotation wake_min_workers t) ≡ some (pos n))))
      × ((annotation wake_ttl t ≡ "")
          ⊎ ((n : ℕ) × (p.parse_duration (annotation wake_ttl t) ≡ some (pos n))))
unfolding process_commands mutate resolve_command_precedence detect_annotation_commands
    validate_resume_command
process_commands-valid p fresh t t' e s =
    ground
      (arith, e, s, eq_iff (annotation wake_min_workers t) "", eq_iff (annotation wake_ttl t) "")

-- What is written keeps every annotation of the fresh copy but those of the commands: a request
-- that was found is gone with its time, whether its command won or lost, and so are the wake
-- parameters, unless a resume won, which leaves them as they are.
pub process_commands-lookup :
    (p : Parsers) (fresh t t' : XTrinode) (k : String)
    → (process_commands p (persists_on fresh) t).written ≡ some t'
    → lookup k t'.annotations
      ≡ none_if
          ((asks resume_requested t && (str_eq resume_requested k || str_eq resume_requested_at k))
            || (asks suspend_requested t
                && (str_eq suspend_requested k || str_eq suspend_requested_at k))
            || (asks auto_suspend_requested t
                && (str_eq auto_suspend_requested k || str_eq auto_suspend_requested_at k))
            || (not (resume_wins p t) && (str_eq wake_min_workers k || str_eq wake_ttl k)))
          (lookup k fresh.annotations)
unfolding mutate
process_commands-lookup p fresh t t' k e =
    let d = detect_annotation_commands p t in
    let (any, same) = written_mutate p fresh t t' e in
    let (r, s, a) = found_each p t in
    rw (
      same,
      lookup-clear_annotations d (resolve_command_precedence d) fresh.annotations k,
      any,
      r,
      s,
      a,
      won_resume p t,
      and_true (not (resume_wins p t)),
    )

asks_nothing :
    (p : Parsers) (t t' : XTrinode)
    → (process_commands p (persists_on t) t).written ≡ some t'
    → (asks resume_requested t' ≡ false)
      × (asks suspend_requested t' ≡ false)
      × (asks auto_suspend_requested t' ≡ false)
unfolding none_if
asks_nothing p t t' e = (
  ground (arith, process_commands-lookup p t t t' resume_requested e),
  ground (arith, process_commands-lookup p t t t' suspend_requested e),
  ground (arith, process_commands-lookup p t t t' auto_suspend_requested e),
)

-- Each request is taken once: a cluster that was written without another change in between holds no
-- command, so the next call takes none, reports no error, rejects nothing and writes nothing.
pub process_commands_once :
    (p : Parsers) (t t' : XTrinode) (cluster : Persist)
    → (process_commands p (persists_on t) t).written ≡ some t'
    → process_commands p cluster t'
      ≡ record { commands = []; failed = false; rejected = false; written = none }
unfolding process_commands resolve_command_precedence detect_annotation_commands
process_commands_once p t t' cluster e =
    let (r, s, a) = asks_nothing p t t' e in ground (arith, r, s, a)
