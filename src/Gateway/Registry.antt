-- ===== src/Gateway/Registry.antt =====
-- xtrinode/pkg/gateway/gateway.go and helpers.go: how the operator writes routes. The routes are
-- those that the YAML text of the ConfigMap stands for, before and after; a read or a parse that
-- fails writes nothing.
pub mod Identity
pub mod Selectors
pub mod Preserve
pub mod Remove
pub mod Drain
mod Examples
use xtrinode.Shared.{
  String, Bool, true, false, ◌&&◌, ◌||◌, not, str_eq, if◌then◌else◌, Option, none, some, List, [],
  ◌∷◌, ◌++◌,
}
use xtrinode.Shared.Int.{ℤ}
use xtrinode.Gateway.Route.{
  Backend, BackendState, unset, running, paused, resuming, draining, removed, other, RouteEntry,
}
use xtrinode.Gateway.Select.{is_empty}
use xtrinode.Gateway.RouteTable.{Net, normalize_hostname, given}

-- What a registration brings: the backend, and the selectors of its route.
pub record Registration : Type 0 where
  pub routing_group : String
  pub hostname : String
  pub header : String
  pub is_default : Bool
  pub dedicated : Bool
  pub backend : Backend

abbrev pub is_backend : String → String → Backend → Bool
is_backend name namespace b = str_eq b.name name && str_eq b.namespace namespace

unfoldable pub without_backend : String → String → List Backend → List Backend
without_backend name namespace [] = []
without_backend name namespace (b ∷ bs) =
    let rest = without_backend name namespace bs in
    if is_backend name namespace b then rest else b ∷ rest

unfoldable pub has_backend : String → String → List Backend → Bool
has_backend name namespace [] = false
has_backend name namespace (b ∷ bs) = is_backend name namespace b || has_backend name namespace bs

-- The routes that are left, and whether a backend was taken out.
unfoldable pub filter_backend_from_routes :
    String → String → (RouteEntry → Bool) → List RouteEntry → List RouteEntry × Bool
filter_backend_from_routes name namespace should_filter [] = ([], false)
filter_backend_from_routes name namespace should_filter (r ∷ rs) =
    let (rest, changed) = filter_backend_from_routes name namespace should_filter rs in
    let backends = without_backend name namespace r.backends in
    let found = has_backend name namespace r.backends in
    if not (should_filter r)
    then (r ∷ rest, changed)
    else if is_empty backends
    then (rest, found || changed)
    else (record r { backends = backends } ∷ rest, found || changed)

unfoldable pub remove_backend_from_other_routes :
    String → String → String → List RouteEntry → List RouteEntry
remove_backend_from_other_routes group name namespace rs =
    (filter_backend_from_routes name namespace (λ r. not (str_eq r.routing_group group)) rs).0

unfoldable pub remove_backend_from_all_routes :
    String → String → List RouteEntry → List RouteEntry × Bool
remove_backend_from_all_routes name namespace rs =
    filter_backend_from_routes name namespace (λ r. true) rs

-- The errors of a registration.
pub data RegisterError : Type 0 where
  hostname_conflict header_conflict default_conflict exclusivity_violated : RegisterError

abbrev pub normalized_or_empty : Net → String → String
normalized_or_empty net hostname = if given hostname then normalize_hostname net hostname else ""

-- The conflict that one other route makes, if any.
conflict_with : Net → String → String → Bool → RouteEntry → Option RegisterError
conflict_with net hostname header is_default r =
    if given hostname && (given r.hostname && str_eq (normalize_hostname net r.hostname) hostname)
    then some hostname_conflict
    else if given header && (given r.header && str_eq r.header header)
    then some header_conflict
    else if is_default && r.is_default
    then some default_conflict
    else none

abbrev pub or_error : Option RegisterError → Option RegisterError → Option RegisterError
or_error none later = later
or_error (some e) later = some e

-- `hostname` is normalised already.
unfoldable pub conflict_among :
    Net → String → String → String → Bool → List RouteEntry → Option RegisterError
unfolding conflict_with
conflict_among net group hostname header is_default [] = none
conflict_among net group hostname header is_default (r ∷ rs) =
    let rest = conflict_among net group hostname header is_default rs in
    if str_eq r.routing_group group
    then rest
    else or_error (conflict_with net hostname header is_default r) rest

unfoldable pub validate_route_uniqueness :
    Net → List RouteEntry → String → String → String → Bool → Option RegisterError
unfolding conflict_among
validate_route_uniqueness net rs group hostname header is_default =
    conflict_among net group (normalized_or_empty net hostname) header is_default rs

-- The first entry of a backend is replaced.
unfoldable pub replace_backend : Backend → List Backend → List Backend
replace_backend new [] = []
replace_backend new (b ∷ bs) =
    let rest = replace_backend new bs in
    if is_backend new.name new.namespace b then new ∷ bs else b ∷ rest

abbrev pub is_alone : Backend → List Backend → Bool
is_alone new [] = false
is_alone new (b ∷ []) = is_backend new.name new.namespace b
is_alone new (b ∷ c ∷ bs) = false

-- The selectors of a route after an update of its backends.
unfoldable pub with_selectors : Registration → RouteEntry → RouteEntry
with_selectors reg r =
    if is_alone reg.backend r.backends
    then record r { header = reg.header; hostname = reg.hostname; is_default = reg.is_default }
    else record r {
      header = if given reg.header then reg.header else r.header;
      hostname = if given reg.hostname then reg.hostname else r.hostname;
      is_default = reg.is_default || r.is_default;
    }

pub data Registered {ℓ} (A : Type ℓ) : Type ℓ where
  done : A → Registered A
  refused : RegisterError → Registered A

unfoldable pub update_backend_in_route : Registration → RouteEntry → Registered RouteEntry
unfolding with_selectors
update_backend_in_route reg r =
    if has_backend reg.backend.name reg.backend.namespace r.backends
    then done (with_selectors reg (record r { backends = replace_backend reg.backend r.backends }))
    else if reg.dedicated && not (is_empty r.backends)
    then refused exclusivity_violated
    else done (with_selectors reg (record r { backends = r.backends ++ (reg.backend ∷ []) }))

unfoldable pub create_route_entry : Registration → RouteEntry
create_route_entry reg = record {
  name = reg.routing_group;
  routing_group = reg.routing_group;
  backends = reg.backend ∷ [];
  header = reg.header;
  hostname = reg.hostname;
  is_default = reg.is_default;
}

abbrev pub before : RouteEntry → Registered (List RouteEntry) → Registered (List RouteEntry)
before r (done rs) = done (r ∷ rs)
before r (refused e) = refused e

abbrev pub put_first : Registered RouteEntry → List RouteEntry → Registered (List RouteEntry)
put_first (done r) rs = done (r ∷ rs)
put_first (refused e) rs = refused e

-- The first route of the group is updated; where there is none, a new one is appended.
unfoldable pub update_or_append : Registration → List RouteEntry → Registered (List RouteEntry)
update_or_append reg [] = done (create_route_entry reg ∷ [])
update_or_append reg (r ∷ rs) =
    let rest = update_or_append reg rs in
    if str_eq r.routing_group reg.routing_group
    then put_first (update_backend_in_route reg r) rs
    else before r rest

unless : Option RegisterError → Registered (List RouteEntry) → Registered (List RouteEntry)
unless none next = next
unless (some e) next = refused e

unfoldable pub register_route : Net → Registration → List RouteEntry → Registered (List RouteEntry)
unfolding unless
register_route net reg rs =
    let b = reg.backend in
    let rs' = remove_backend_from_other_routes reg.routing_group b.name b.namespace rs in
    unless
      (validate_route_uniqueness net rs' reg.routing_group reg.hostname reg.header reg.is_default)
      (update_or_append reg rs')

-- An update that fails or that changes nothing writes nothing. `until` is the text of the time at which the drain ends.
drained : String → Backend → Backend
drained until b = record b { state = draining; drain_until = until; active = false }

abbrev pub is_draining : BackendState → Bool
is_draining draining = true
is_draining _ = false

unfoldable pub drain_backend : String → String → String → Backend → Backend
unfolding drained
drain_backend name namespace until b =
    if is_backend name namespace b
      && not (is_draining b.state && (not b.active && given b.drain_until))
    then drained until b
    else b

unfoldable pub drain_backends : String → String → String → List Backend → List Backend
drain_backends name namespace until [] = []
drain_backends name namespace until (b ∷ bs) =
    drain_backend name namespace until b ∷ drain_backends name namespace until bs

unfoldable pub set_backend_draining_all_routes :
    String → String → String → List RouteEntry → List RouteEntry
set_backend_draining_all_routes name namespace until [] = []
set_backend_draining_all_routes name namespace until (r ∷ rs) =
    record r { backends = drain_backends name namespace until r.backends }
    ∷ set_backend_draining_all_routes name namespace until rs

unfoldable pub deregister_route : String → String → List RouteEntry → List RouteEntry
deregister_route name namespace rs =
    let (left, changed) = remove_backend_from_all_routes name namespace rs in
    if changed then left else rs
