-- ===== src/ApiServer/LeaseName/Collide.antt =====
-- lease.go: clusters of different namespaces that share a lease.
use xtrinode.Shared.{subst, ℕ, ◌≤◌, String, ◌≡◌, refl, arith, List, [], ◌∷◌, ◌++◌, length, ap, ◌∙◌}
use mathlib.Core.List.{append_assoc}
use xtrinode.Shared.Prefix.{prefixed}
use xtrinode.Shared.Runes.{runes, runes-prefixed}
use xtrinode.ApiServer.Lease.{LeaseKeyType}
use xtrinode.ApiServer.Resume.{make_runtime_key}
use xtrinode.ApiServer.LeaseName.{
  sanitize_rune, sanitize_all, sanitize_dns1123, max_lease_name_length, full_name,
  make_lease_name_from_key,
}

-- Two texts with a hyphen between them.
abbrev pub hyphenated : String → String → String
hyphenated a b = prefixed a (prefixed "-" b)

sanitize_all-append :
    (xs ys : List ℕ) → sanitize_all (xs ++ ys) ≡ (sanitize_all xs ++ sanitize_all ys)
unfolding sanitize_all
sanitize_all-append [] ys = refl
sanitize_all-append (x ∷ xs) ys = ap (λ r. sanitize_rune x ∷ r) (sanitize_all-append xs ys)

sanitized : String → List ℕ
sanitized s = sanitize_all (runes s)

sanitized-prefixed : (s t : String) → sanitized (prefixed s t) ≡ (sanitized s ++ sanitized t)
unfolding sanitized
sanitized-prefixed s t =
    ap sanitize_all (runes-prefixed s t) ∙ sanitize_all-append (runes s) (runes t)

slash_is_hyphen : sanitized "/" ≡ sanitized "-"
unfolding sanitized sanitize_all sanitize_rune runes
slash_is_hyphen = refl

keys_sanitized :
    (a b c : String)
    → sanitized (make_runtime_key a (hyphenated b c))
      ≡ sanitized (make_runtime_key (hyphenated a b) c)
keys_sanitized a b c = simp (sanitized-prefixed, append_assoc, slash_is_hyphen)

sanitized_names :
    (k l : String) (key_type : LeaseKeyType)
    → sanitized k ≡ sanitized l
    → full_name key_type k ≡ full_name key_type l
unfolding sanitized sanitize_dns1123
sanitized_names k l key_type e = rw e refl

-- The lease of a cluster whose name has a hyphen is also that of the cluster of another namespace,
-- to which the part before the hyphen belongs: where the name of the lease is at most 63 characters
-- long, `a` with `b-c` and `a-b` with `c` have the same lease of each type.
pub make_lease_name_from_key_shared :
    (hash : String → List ℕ) (a b c : String) (key_type : LeaseKeyType)
    → length (full_name key_type (make_runtime_key a (hyphenated b c))) ≤ max_lease_name_length
    → make_lease_name_from_key hash (make_runtime_key a (hyphenated b c)) key_type
      ≡ make_lease_name_from_key hash (make_runtime_key (hyphenated a b) c) key_type
unfolding make_lease_name_from_key
make_lease_name_from_key_shared hash a b c key_type fits =
    let one = make_runtime_key a (hyphenated b c) in
    let other_one = make_runtime_key (hyphenated a b) c in
    let same = sanitized_names one other_one key_type (keys_sanitized a b c) in
    let fits' : length (full_name key_type other_one) ≤ max_lease_name_length =
      subst (λ n. length n ≤ max_lease_name_length) same fits in
    ground (arith, same, fits, fits')
