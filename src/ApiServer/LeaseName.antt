-- ===== src/ApiServer/LeaseName.antt =====
-- xtrinode/pkg/api-server/lease.go: the name of the lease of a key. Texts are their code points; of
-- a key type, which is ASCII, and of a sanitised text these are the bytes too.
pub mod Length
pub mod Collide
mod Examples
use xtrinode.Shared.{
  ℕ, zero, suc, ◌+◌, ◌-◌, String, Bool, true, false, ◌&&◌, not, ltb, leb, ◌==◌, if◌then◌else◌, List,
  [], ◌∷◌, ◌++◌, length,
}
use xtrinode.Shared.Runes.{runes}
use xtrinode.ApiServer.Lease.{LeaseKeyType, runtime, pool, suspend_runtime, other}

abbrev pub between : ℕ → ℕ → ℕ → Bool
between low high r = leb low r && leb r high

-- Small letters and digits stay, capitals become small, all else becomes a hyphen.
unfoldable pub sanitize_rune : ℕ → ℕ
sanitize_rune r =
    if between b'a' b'z' r
    then r
    else if between b'0' b'9' r
    then r
    else if between b'A' b'Z' r
    then r + 32
    else b'-'

unfoldable pub sanitize_all : List ℕ → List ℕ
sanitize_all [] = []
sanitize_all (r ∷ rs) = sanitize_rune r ∷ sanitize_all rs

-- `strings.Trim` of hyphens.
unfoldable pub trim_left : List ℕ → List ℕ
trim_left [] = []
trim_left (r ∷ rs) = let rest = trim_left rs in if r == b'-' then rest else r ∷ rs

abbrev pub put_before : ℕ → List ℕ → List ℕ
put_before r [] = if r == b'-' then [] else r ∷ []
put_before r (s ∷ rs) = r ∷ s ∷ rs

unfoldable pub trim_right : List ℕ → List ℕ
trim_right [] = []
trim_right (r ∷ rs) = put_before r (trim_right rs)

unfoldable pub sanitize_dns1123 : List ℕ → List ℕ
sanitize_dns1123 rs = trim_right (trim_left (sanitize_all rs))

abbrev pub key_type_text : LeaseKeyType → String
key_type_text runtime = "runtime"
key_type_text pool = "pool"
key_type_text suspend_runtime = "suspend"
key_type_text (other s) = s

unfoldable pub take : ℕ → List ℕ → List ℕ
take zero rs = []
take (suc n) [] = []
take (suc n) (r ∷ rs) = r ∷ take n rs

abbrev pub max_lease_name_length : ℕ
max_lease_name_length = 63

abbrev pub lease_prefix : String
lease_prefix = "xtrinode-resume-"

abbrev pub full_name : LeaseKeyType → String → List ℕ
full_name key_type key =
    (runes lease_prefix ++ runes (key_type_text key_type)) ++ (b'-' ∷ sanitize_dns1123 (runes key))

abbrev pub shortened : LeaseKeyType → List ℕ → List ℕ
shortened key_type hash_text =
    take (max_lease_name_length - length hash_text - 1)
      (runes lease_prefix ++ runes (key_type_text key_type))
    ++ (b'-' ∷ hash_text)

-- `hash` is the first eight hexadecimal digits of the SHA-256 of a text.
unfoldable pub make_lease_name_from_key : (String → List ℕ) → String → LeaseKeyType → List ℕ
make_lease_name_from_key hash key key_type =
    let name = full_name key_type key in
    if ltb max_lease_name_length (length name) then shortened key_type (hash key) else name
