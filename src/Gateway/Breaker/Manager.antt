-- ===== src/Gateway/Breaker/Manager.antt =====
-- circuitbreaker.go, `CircuitBreakerManager`: one breaker for each backend. The map holds pointers,
-- so a call on a breaker that was handed out changes the entry: `update` is that write.
use xtrinode.Shared.{
  ℕ, String, ◌≡◌, none, some, arith, eq_iff, if◌then◌else◌, str_eq, Option-cases, inl, inr,
}
use xtrinode.Shared.Dict.{Dict, lookup, insert, IsDistinct, lookup-insert, insert-IsDistinct}
use xtrinode.Gateway.Breaker.{CircuitBreaker, new_breaker}
use xtrinode.Gateway.Breaker.Trace.{Call, step, step-config}

abbrev pub Manager : Type 0
Manager = Dict CircuitBreaker

unfoldable pub get_or_create_breaker : String → ℕ → ℕ → ℕ → Manager → CircuitBreaker × Manager
get_or_create_breaker url f s t m = elim (lookup url m) [
  | some breaker ↦ (breaker, m)
  | none ↦ let breaker = new_breaker url f s t in (breaker, insert url breaker m)
]

-- A call on the breaker of a backend, through the pointer that the manager hands out.
unfoldable pub call_breaker : String → ℕ → ℕ → ℕ → Call → Manager → Manager
call_breaker url f s t c m =
    let (breaker, m') = get_or_create_breaker url f s t m in insert url (step breaker c) m'

-- Every breaker stands under its own backend's URL, and no URL has two.
abbrev pub IsKeyed : Manager → Type 0
IsKeyed m =
    IsDistinct m × ((k : String) (b : CircuitBreaker) → lookup k m ≡ some b → b.backend_url ≡ k)

-- What is handed out is in the map afterwards, an existing breaker is kept with its own
-- configuration whatever the arguments say, and the other backends' breakers are not touched.
pub get_or_create_breaker-lookup :
    (url j : String) (f s t : ℕ) (m : Manager)
    → let (breaker, m') = get_or_create_breaker url f s t m in
      lookup j m' ≡ (if str_eq url j then some breaker else lookup j m)
unfolding get_or_create_breaker
get_or_create_breaker-lookup url j f s t m =
    ground (arith, eq_iff url j, lookup-insert url j (new_breaker url f s t) m)

-- A second request for a backend's breaker gets the same breaker and leaves the map alone, with
-- whatever thresholds it comes.
pub get_or_create_breaker_twice :
    (url : String) (f s t f' s' t' : ℕ) (m : Manager)
    → let first = get_or_create_breaker url f s t m in
      get_or_create_breaker url f' s' t' first.1 ≡ first
unfolding get_or_create_breaker
get_or_create_breaker_twice url f s t f' s' t' m =
    ground (arith, eq_iff url url, lookup-insert url url (new_breaker url f s t) m)

-- A call on one backend's breaker is a step of that breaker, and leaves every other entry alone.
pub call_breaker-lookup :
    (url j : String) (f s t : ℕ) (c : Call) (m : Manager)
    → lookup j (call_breaker url f s t c m)
      ≡ (if str_eq url j then some (step (get_or_create_breaker url f s t m).0 c) else lookup j m)
unfolding call_breaker
call_breaker-lookup url j f s t c m =
    let (breaker, m') = get_or_create_breaker url f s t m in
    ground (
      arith,
      eq_iff url j,
      lookup-insert url j (step breaker c) m',
      get_or_create_breaker-lookup url j f s t m,
    )

get_or_create_breaker-url :
    (url : String) (f s t : ℕ) (m : Manager)
    → IsKeyed m
    → (get_or_create_breaker url f s t m).0.backend_url ≡ url
unfolding get_or_create_breaker new_breaker
get_or_create_breaker-url url f s t m v = elim (Option-cases (lookup url m)) [
  | inl e ↦ rw (e, get_or_create_breaker)
  | inr (b, e) ↦ rw (e, get_or_create_breaker) (v.1 url b e)
]

get_or_create_breaker-IsDistinct :
    (url : String) (f s t : ℕ) (m : Manager)
    → IsDistinct m
    → IsDistinct (get_or_create_breaker url f s t m).1
unfolding get_or_create_breaker
get_or_create_breaker-IsDistinct url f s t m v =
    ground (arith, insert-IsDistinct url (new_breaker url f s t) m v)

-- Calls keep one breaker for each URL, standing under its own.
pub call_breaker-IsKeyed :
    (url : String) (f s t : ℕ) (c : Call) (m : Manager)
    → IsKeyed m
    → IsKeyed (call_breaker url f s t c m)
unfolding call_breaker
call_breaker-IsKeyed url f s t c m v = (
  insert-IsDistinct url _ _ (get_or_create_breaker-IsDistinct url f s t m v.0),
  λ k b e. ground (
    arith,
    eq_iff url k,
    call_breaker-lookup url k f s t c m,
    e,
    v.1 k b,
    step-config (get_or_create_breaker url f s t m).0 c,
    get_or_create_breaker-url url f s t m v,
  ),
)
