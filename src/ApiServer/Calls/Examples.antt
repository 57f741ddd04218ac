-- ===== src/ApiServer/Calls/Examples.antt =====
-- The theorems on calls at one cluster, a server that wins its lease, and texts that stand for
-- their values in unary notation.
use Prim.Native.Char.{Char, code}
use text.Mathlib.TextLemmas.{cons≢nil}
use Prim.Native.String.{[] as empty_text, ◌∷◌ as cons_text}
use xtrinode.Shared.{
  subst, zero, suc, ◌/◌, ◌==◌, ap, eq_iff, ◌≢◌, subst, second, ◌*◌, ◌<◌, ℕ, String, ◌≡◌, refl, true,
  false, arith, [], Option, none, some, str_eq, if◌then◌else◌, inl,
}
use xtrinode.Shared.Int.{ℤ, pos, negsuc}
use xtrinode.Shared.Dict.{lookup}
use xtrinode.Operator.Commands.{Parsers, XTrinode, persists_on, process_commands}
use xtrinode.ApiServer.Lease.{
  runtime, suspend_runtime, LeaseKeyType, K8sLeaseResult, not_found, created, updated,
  acquire_lease, create_lease, duration_for_key,
}
use xtrinode.ApiServer.Resume.{Server, LeaseAnswers, CandidateRuntime, get_retry_after}
use xtrinode.ApiServer.Calls.{
  runtime_lease, Formats, ResumeRuntimeRequest, Attempt, RetryOnConflict, read, saved,
  resume_runtime, suspend_runtime_call, under_lease, after_update, try_on_conflict, attempt_with,
  saved_as, call_accepted,
}
use xtrinode.ApiServer.Calls.Release.{Settles, resume_runtime-Settles}
use xtrinode.ApiServer.Calls.Asked.{ReadsBack, Latest, IsAsked, IsSuspendAsked, time_limit}
use xtrinode.ApiServer.Calls.Wakes.{Every, CanBeWoken, resume_runtime-process_commands}

full_text : (c : Char) (s : String) → str_eq (cons_text c s) "" ≡ false
full_text c s = ground (arith, eq_iff (cons_text c s) "", full)
  where
    full : cons_text c s ≢ ""
    full e = cons≢nil e

unary : ℕ → String
unary zero = empty_text
unary (suc n) = cons_text "1" (unary n)

size : String → ℕ
size empty_text = 0
size (cons_text c s) = suc (size s)

size-unary : (n : ℕ) → size (unary n) ≡ n
unfolding size unary
size-unary zero = refl
size-unary (suc n) = ap suc (size-unary n)

signed_text : ℤ → String
signed_text (pos n) = cons_text "+" (unary n)
signed_text (negsuc n) = cons_text "-" (unary n)

read_signed : String → Option ℤ
read_signed empty_text = none
read_signed (cons_text c s) = some (if code c == b'+' then pos (size s) else negsuc (size s))

read_signed_text : (x : ℤ) → read_signed (signed_text x) ≡ some x
unfolding read_signed signed_text
read_signed_text (pos n) = ap (λ m. some (pos m)) (size-unary n)
read_signed_text (negsuc n) = ap (λ m. some (negsuc m)) (size-unary n)

time_text : ℕ → String
time_text at = cons_text "t" (unary (at / second))

read_time : String → Option ℕ
read_time empty_text = none
read_time (cons_text c s) = some (size s * second)

read_time_text : (at : ℕ) → read_time (time_text at) ≡ some ((at / second) * second)
unfolding read_time time_text
read_time_text at = ap (λ m. some (m * second)) (size-unary (at / second))

abbrev formats : Formats
formats = record {
  format_time = time_text;
  format_int = signed_text;
  format_duration = signed_text;
}

abbrev parsers : Parsers
parsers = record { parse_time = read_time; parse_int = read_signed; parse_duration = read_signed }

unary-ReadsBack : ReadsBack formats parsers
unfolding time_text
unary-ReadsBack = record {
  time = λ at soon. read_time_text at;
  some_time = λ at soon. full_text "t" (unary (at / second));
  int = λ n small. read_signed_text (pos n);
  negative_int = λ n small. read_signed_text (negsuc n);
  duration = λ n small. read_signed_text (pos n);
}

abbrev server : Server
server = record {
  lease_manager = record {
    lease_duration = 30 * second;
    suspend_duration = 30 * second;
    holder_identity = "one";
  };
  retry_after_seconds = pos 0;
  names = record { byte_length = λ s. 1; matches_name = λ s. true };
}

abbrev free_lease : LeaseAnswers
free_lease = record { get = not_found; create = created; update = updated }

abbrev free_leases : String → LeaseKeyType → LeaseAnswers
free_leases key key_type = free_lease

abbrev target : CandidateRuntime
target = record { namespace = "ns"; name = "small" }

abbrev sleeping : XTrinode
sleeping = record { annotations = []; suspended = true }

abbrev one_attempt : ℕ → Attempt
one_attempt i = record { at = second; on_read = read sleeping; on_save = saved }

abbrev first_only : RetryOnConflict
first_only = record { last_attempt = λ tried. 0 }

abbrev asks_workers : ℤ → ResumeRuntimeRequest
asks_workers n = record { min_workers = some n; ttl = none }

abbrev lease_won : K8sLeaseResult
lease_won = record { acquired = true; lease_until = 31 * second; holder = "one" }

resume_runtime-Settles_example :
    Settles server
      (IsAsked formats (asks_workers (pos 2)))
      one_attempt
      (runtime_lease server second target runtime free_leases)
      (resume_runtime server formats first_only second second target
        (some (asks_workers (pos 2)))
        free_leases
        one_attempt)
    × Settles server
        (IsSuspendAsked formats)
        one_attempt
        (runtime_lease server second target suspend_runtime free_leases)
        (suspend_runtime_call server formats first_only second second target true free_leases
          one_attempt)
resume_runtime-Settles_example =
    resume_runtime-Settles server formats first_only second second target (asks_workers (pos 2))
      free_leases one_attempt

accepts :
    (n : ℤ)
    → (resume_runtime server formats first_only second second target
        (some (asks_workers n))
        free_leases
        one_attempt).call_reply
      ≡ call_accepted 30 lease_won
unfolding resume_runtime under_lease after_update acquire_lease create_lease duration_for_key
    try_on_conflict attempt_with saved_as get_retry_after
accepts n = refl

sleeping-CanBeWoken : Every one_attempt (CanBeWoken parsers (asks_workers (pos 2)))
unfolding lookup
sleeping-CanBeWoken = record {
  every = λ i t e.
      let same : sleeping ≡ t = ground (arith, e) in
      subst (CanBeWoken parsers (asks_workers (pos 2)) second) same
        (omega arith, inl refl, omega arith, refl);
}

sleeping-Latest : Every one_attempt (λ at t. (at < time_limit) × Latest parsers at t)
unfolding lookup
sleeping-Latest = record {
  every = λ i t e.
      let same : sleeping ≡ t = ground (arith, e) in
      (omega arith, subst (Latest parsers second) same (inl refl));
}

resume_runtime-process_commands_example :
    (asked : XTrinode) × (woken : XTrinode) × ((resume_runtime server formats first_only second
        second target
        (some (asks_workers (pos 2)))
        free_leases
        one_attempt).written
      ≡ some asked)
    × ((process_commands parsers (persists_on asked) asked).written ≡ some woken)
    × (woken.suspended ≡ false)
resume_runtime-process_commands_example =
    resume_runtime-process_commands server formats parsers first_only second second target
      (asks_workers (pos 2)) free_leases one_attempt 30 lease_won unary-ReadsBack
      sleeping-CanBeWoken (accepts (pos 2))

negative_text : str_eq (signed_text (negsuc 0)) "" ≡ false
unfolding signed_text unary
negative_text = refl
