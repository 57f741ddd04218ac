-- ===== src/ApiServer/Calls/Asked.antt =====
-- server.go and commands.go together: what the operator reads in a cluster for which a resume was
-- asked.
use xtrinode.Shared.{
  ◌||◌, ap, ◌∙◌, str_eq, second, ℕ, ◌*◌, ◌/◌, ◌<◌, String, ◌≡◌, refl, Bool, true, false, arith,
  eq_iff, Option, none, some, ◌⊎◌,
}
use xtrinode.Shared.Int.{ℤ, pos, negsuc}
use xtrinode.Shared.Dict.{lookup, insert, lookup-insert}
use xtrinode.Operator.Commands.{
  mutate, Parsers, XTrinode, resume_requested, resume_requested_at, suspend_requested,
  suspend_requested_at, wake_min_workers, wake_ttl, annotation, parse_timestamp,
  validate_resume_command, persists_on, process_commands, detect_annotation_commands,
  resolve_command_precedence,
}
use xtrinode.Operator.Commands.Outcome.{asks, resume_wins, process_commands-suspended}
use xtrinode.ApiServer.Calls.{
  Dict, Formats, ResumeRuntimeRequest, annotate_resume, annotate_suspend, set_given,
}

-- Numbers below 2^31, durations below 2^63 nanoseconds, and times before the year 10000 where they are
-- counted from 1970.
abbrev pub int_limit : ℕ
int_limit = 2_147_483_648

abbrev pub duration_limit : ℕ
duration_limit = 9_223_372_036_854_775_808

abbrev pub time_limit : ℕ
time_limit = 253_402_300_800 * second

-- What is written reads back, within the ranges of the types: a time to the second, a number and a
-- duration as they are.
pub record ReadsBack (f : Formats) (p : Parsers) : Type 0 where
  pub time :
      (at : ℕ) → at < time_limit → p.parse_time (f.format_time at) ≡ some ((at / second) * second)
  pub some_time : (at : ℕ) → at < time_limit → str_eq (f.format_time at) "" ≡ false
  pub int : (n : ℕ) → n < int_limit → p.parse_int (f.format_int (pos n)) ≡ some (pos n)
  pub negative_int :
      (n : ℕ) → n < int_limit → p.parse_int (f.format_int (negsuc n)) ≡ some (negsuc n)
  pub duration :
      (n : ℕ) → n < duration_limit → p.parse_duration (f.format_duration (pos n)) ≡ some (pos n)

-- A parameter that is given is not negative and below its limit, and where it is not given none is
-- left from before.
abbrev pub Fits : ℕ → Option ℤ → String → Type 0
Fits limit none before = before ≡ ""
Fits limit (some (pos n)) before = n < limit
Fits limit (some (negsuc n)) before = ⊥

-- The text of a parameter: that of the request, or the one from before.
unfoldable pub text_for : (ℤ → String) → Option ℤ → Option String → Option String
text_for format none before = before
text_for format (some x) before = some (format x)

-- No suspend is asked for at this time's second or later.
abbrev pub Latest : Parsers → ℕ → XTrinode → Type 0
Latest p at t =
    (asks suspend_requested t ≡ false)
    ⊎ (parse_timestamp p (annotation suspend_requested_at t) < (at / second) * second)

lookup-set_given :
    (key k : String) (format : ℤ → String) (o : Option ℤ) (m : Dict String)
    → str_eq key k ≡ false
    → lookup k (set_given key format o m) ≡ lookup k m
unfolding set_given
lookup-set_given key k format none m apart = refl
lookup-set_given key k format (some x) m apart =
    ground (arith, lookup-insert key k (format x) m, apart)

lookup-set_given_same :
    (key : String) (format : ℤ → String) (o : Option ℤ) (m : Dict String)
    → lookup key (set_given key format o m) ≡ text_for format o (lookup key m)
unfolding set_given text_for
lookup-set_given_same key format none m = refl
lookup-set_given_same key format (some x) m =
    ground (arith, lookup-insert key key (format x) m, eq_iff key key)

-- What the operator reads of a cluster for which a resume was asked at this time.
pub record IsAsked (f : Formats) (req : ResumeRuntimeRequest) (at : ℕ) (t t' : XTrinode)
    : Type 0 where
  pub asked : lookup resume_requested t'.annotations ≡ some "true"
  pub asked_at : lookup resume_requested_at t'.annotations ≡ some (f.format_time at)
  pub suspend : lookup suspend_requested t'.annotations ≡ lookup suspend_requested t.annotations
  pub suspend_at :
      lookup suspend_requested_at t'.annotations ≡ lookup suspend_requested_at t.annotations
  pub workers :
      lookup wake_min_workers t'.annotations
      ≡ text_for f.format_int req.min_workers (lookup wake_min_workers t.annotations)
  pub ttl :
      lookup wake_ttl t'.annotations
      ≡ text_for f.format_duration req.ttl (lookup wake_ttl t.annotations)

pub annotate_resume-IsAsked :
    (f : Formats) (req : ResumeRuntimeRequest) (at : ℕ) (t : XTrinode)
    → IsAsked f req at t (annotate_resume f req at t)
unfolding annotate_resume
annotate_resume-IsAsked f req at t =
    let m0 = insert resume_requested "true" t.annotations in
    let m1 = insert resume_requested_at (f.format_time at) m0 in
    let m2 = set_given wake_min_workers f.format_int req.min_workers m1 in
    let through : (k : String)
        → str_eq wake_ttl k ≡ false
        → str_eq wake_min_workers k ≡ false
        → lookup k (set_given wake_ttl f.format_duration req.ttl m2) ≡ lookup k m1 =
      λ k p q.
        lookup-set_given wake_ttl k f.format_duration req.ttl m2 p
        ∙ lookup-set_given wake_min_workers k f.format_int req.min_workers m1 q in
    let first = λ (k : String). lookup-insert resume_requested k "true" t.annotations in
    let second_one = λ (k : String). lookup-insert resume_requested_at k (f.format_time at) m0 in
    record {
      asked =
          through resume_requested refl refl ∙ second_one resume_requested ∙ first resume_requested;
      asked_at = through resume_requested_at refl refl ∙ second_one resume_requested_at;
      suspend =
          through suspend_requested refl refl
          ∙ second_one suspend_requested
          ∙ first suspend_requested;
      suspend_at =
          through suspend_requested_at refl refl
          ∙ second_one suspend_requested_at
          ∙ first suspend_requested_at;
      workers =
          lookup-set_given wake_ttl wake_min_workers f.format_duration req.ttl m2 refl
          ∙ lookup-set_given_same wake_min_workers f.format_int req.min_workers m1
          ∙ ap (text_for f.format_int req.min_workers)
              (second_one wake_min_workers ∙ first wake_min_workers);
      ttl =
          lookup-set_given_same wake_ttl f.format_duration req.ttl m2
          ∙ ap (text_for f.format_duration req.ttl) (
              lookup-set_given wake_min_workers wake_ttl f.format_int req.min_workers m1 refl
              ∙ second_one wake_ttl
              ∙ first wake_ttl);
    }

-- Whether a text's value is there and is not negative.
abbrev reads_well : Option ℤ → Bool
reads_well none = false
reads_well (some (pos n)) = true
reads_well (some (negsuc n)) = false

-- A cluster for which a suspend was asked at this time: the request is there, and a resume is
-- asked for as before.
pub record IsSuspendAsked (f : Formats) (at : ℕ) (t t' : XTrinode) : Type 0 where
  pub asked : lookup suspend_requested t'.annotations ≡ some "true"
  pub asked_at : lookup suspend_requested_at t'.annotations ≡ some (f.format_time at)
  pub resume : lookup resume_requested t'.annotations ≡ lookup resume_requested t.annotations
  pub resume_at :
      lookup resume_requested_at t'.annotations ≡ lookup resume_requested_at t.annotations

pub annotate_suspend-IsSuspendAsked :
    (f : Formats) (at : ℕ) (t : XTrinode) → IsSuspendAsked f at t (annotate_suspend f at t)
unfolding annotate_suspend
annotate_suspend-IsSuspendAsked f at t =
    let m = insert suspend_requested "true" t.annotations in
    let first = λ (k : String). lookup-insert suspend_requested k "true" t.annotations in
    let second_one = λ (k : String). lookup-insert suspend_requested_at k (f.format_time at) m in
    record {
      asked = second_one suspend_requested ∙ first suspend_requested;
      asked_at = second_one suspend_requested_at;
      resume = second_one resume_requested ∙ first resume_requested;
      resume_at = second_one resume_requested_at ∙ first resume_requested_at;
    }

-- A resume that wins and whose parameters are valid is written.
wins_written :
    (p : Parsers) (t : XTrinode)
    → resume_wins p t ≡ true
    → (str_eq (annotation wake_min_workers t) ""
        || reads_well (p.parse_int (annotation wake_min_workers t)))
      ≡ true
    → (str_eq (annotation wake_ttl t) "" || reads_well (p.parse_duration (annotation wake_ttl t)))
      ≡ true
    → (t' : XTrinode) × ((process_commands p (persists_on t) t).written ≡ some t')
unfolding process_commands resolve_command_precedence detect_annotation_commands
    validate_resume_command
wins_written p t r w d =
    let found = detect_annotation_commands p t in
    (mutate found (resolve_command_precedence found) t, ground (arith, r, w, d))

reads_min_workers :
    (f : Formats) (p : Parsers) (o : Option ℤ) (t t' : XTrinode)
    → ReadsBack f p
    → Fits int_limit o (annotation wake_min_workers t)
    → lookup wake_min_workers t'.annotations
      ≡ text_for f.format_int o (lookup wake_min_workers t.annotations)
    → (str_eq (annotation wake_min_workers t') ""
        || reads_well (p.parse_int (annotation wake_min_workers t')))
      ≡ true
unfolding text_for
reads_min_workers f p none t t' b fits e =
    ground (arith, e, fits, eq_iff (annotation wake_min_workers t) "")
reads_min_workers f p (some (pos n)) t t' b fits e = ground (arith, e, b.int n fits)
reads_min_workers f p (some (negsuc n)) t t' b fits e = elim fits [ ]

reads_ttl :
    (f : Formats) (p : Parsers) (o : Option ℤ) (t t' : XTrinode)
    → ReadsBack f p
    → Fits duration_limit o (annotation wake_ttl t)
    → lookup wake_ttl t'.annotations ≡ text_for f.format_duration o (lookup wake_ttl t.annotations)
    → (str_eq (annotation wake_ttl t') "" || reads_well (p.parse_duration (annotation wake_ttl t')))
      ≡ true
unfolding text_for
reads_ttl f p none t t' b fits e = ground (arith, e, fits, eq_iff (annotation wake_ttl t) "")
reads_ttl f p (some (pos n)) t t' b fits e = ground (arith, e, b.duration n fits)
reads_ttl f p (some (negsuc n)) t t' b fits e = elim fits [ ]

pub asked_wins :
    (f : Formats) (p : Parsers) (req : ResumeRuntimeRequest) (at : ℕ) (t t' : XTrinode)
    → ReadsBack f p
    → at < time_limit
    → Latest p at t
    → IsAsked f req at t t'
    → resume_wins p t' ≡ true
unfolding parse_timestamp
asked_wins f p req at t t' b soon latest a = ground (
  arith,
  latest,
  a.asked,
  a.asked_at,
  a.suspend,
  a.suspend_at,
  b.time at soon,
  b.some_time at soon,
)

-- A cluster that an attempt read and annotated for a resume is woken by the operator.
pub asked_woken :
    (f : Formats) (p : Parsers) (req : ResumeRuntimeRequest) (at : ℕ) (t : XTrinode)
    → ReadsBack f p
    → at < time_limit
    → Latest p at t
    → Fits int_limit req.min_workers (annotation wake_min_workers t)
    → Fits duration_limit req.ttl (annotation wake_ttl t)
    → let asked = annotate_resume f req at t in
      (woken : XTrinode) × ((process_commands p (persists_on asked) asked).written ≡ some woken)
      × (woken.suspended ≡ false)
asked_woken f p req at t b soon latest w d =
    let asked = annotate_resume f req at t in
    let a = annotate_resume-IsAsked f req at t in
    let wins = asked_wins f p req at t asked b soon latest a in
    let (woken, e) =
      wins_written p asked wins (reads_min_workers f p req.min_workers t asked b w a.workers)
        (reads_ttl f p req.ttl t asked b d a.ttl) in
    (woken, e, rw (process_commands-suspended p asked asked woken e, wins) refl)
