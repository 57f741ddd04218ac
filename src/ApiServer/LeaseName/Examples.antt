-- ===== src/ApiServer/LeaseName/Examples.antt =====
-- The theorems on lease names at the clusters `b-c` of `a` and `c` of `a-b`.
use xtrinode.Shared.{ℕ, ◌≤◌, String, ◌≡◌, refl, arith, List, length}
use xtrinode.Shared.Runes.{runes}
use xtrinode.ApiServer.Lease.{runtime}
use xtrinode.ApiServer.Resume.{make_runtime_key}
use xtrinode.ApiServer.LeaseName.{
  sanitize_all, sanitize_rune, sanitize_dns1123, trim_left, trim_right, max_lease_name_length,
  full_name, make_lease_name_from_key,
}
use xtrinode.ApiServer.LeaseName.Collide.{make_lease_name_from_key_shared}

abbrev zeros : String → List ℕ
zeros key = runes "00000000"

name_b_c :
    make_lease_name_from_key zeros (make_runtime_key "a" "b-c") runtime
    ≡ runes "xtrinode-resume-runtime-rt-a-b-c"
unfolding make_lease_name_from_key sanitize_dns1123 sanitize_all sanitize_rune trim_left trim_right
    runes
name_b_c = refl

fits_b_c : length (full_name runtime (make_runtime_key "a" "b-c")) ≤ max_lease_name_length
unfolding sanitize_dns1123 sanitize_all sanitize_rune trim_left trim_right runes
fits_b_c = omega arith

make_lease_name_from_key_shared_example :
    make_lease_name_from_key zeros (make_runtime_key "a" "b-c") runtime
    ≡ make_lease_name_from_key zeros (make_runtime_key "a-b" "c") runtime
make_lease_name_from_key_shared_example =
    make_lease_name_from_key_shared zeros "a" "b" "c" runtime fits_b_c
