-- ===== src/ApiServer/LeaseName/Length.antt =====
-- lease.go: a lease's name fits into a DNS label.
use xtrinode.Shared.{
  ℕ, zero, suc, ◌-◌, ◌≤◌, String, arith, List, [], ◌∷◌, ◌++◌, length, length-append,
}
use xtrinode.Shared.Runes.{runes}
use xtrinode.ApiServer.Lease.{LeaseKeyType}
use xtrinode.ApiServer.LeaseName.{
  take, lease_prefix, key_type_text, max_lease_name_length, shortened, make_lease_name_from_key,
}

length-take : (n : ℕ) (rs : List ℕ) → length (take n rs) ≤ n
unfolding take
length-take zero rs = omega arith
length-take (suc n) [] = omega arith
length-take (suc n) (r ∷ rs) = omega (arith, length-take n rs)

length-shortened :
    (key_type : LeaseKeyType) (hash_text : List ℕ)
    → length hash_text ≤ 62
    → length (shortened key_type hash_text) ≤ max_lease_name_length
length-shortened key_type hash_text h =
    let name = runes lease_prefix ++ runes (key_type_text key_type) in
    let room = max_lease_name_length - length hash_text - 1 in
    omega (arith, length-append (take room name) (b'-' ∷ hash_text), length-take room name, h)

-- The name of a lease is never longer than 63 characters, whatever the key and its type: a hash of
-- at most 62 digits, like the eight that are kept, always fits.
pub make_lease_name_from_key-length :
    (hash : String → List ℕ) (key : String) (key_type : LeaseKeyType)
    → length (hash key) ≤ 62
    → length (make_lease_name_from_key hash key key_type) ≤ max_lease_name_length
unfolding make_lease_name_from_key
make_lease_name_from_key-length hash key key_type h =
    ground (arith, length-shortened key_type (hash key) h)
