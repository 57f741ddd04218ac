-- ===== src/Digest.antt =====
-- xtrinode/internal/digest/digest.go. A Go string is its bytes, and a map is its entries, in the
-- order in which `range` happens to give them. The first twelve hexadecimal digits of the SHA-256
-- of some bytes are a parameter.
pub mod Encoding
pub mod Order
mod Examples
use xtrinode.Shared.{
  ℕ, Bool, true, false, ◌&&◌, ◌||◌, ltb, ◌==◌, if◌then◌else◌, Option, none, some, List, [], ◌∷◌,
  ◌++◌, map,
}

abbrev pub Bytes : Type 0
Bytes = List ℕ

abbrev pub Entry : Type 0
Entry = Bytes × Bytes

-- The bytes that `AddString` and `AddBytes` append.
unfoldable pub add_bytes : Bytes → Bytes → Bytes → Bytes
add_bytes h k v = h ++ (k ++ (0 ∷ (v ++ (0 ∷ []))))

-- The order of Go's strings.
unfoldable pub bytes_lt : Bytes → Bytes → Bool
bytes_lt [] [] = false
bytes_lt [] (y ∷ ys) = true
bytes_lt (x ∷ xs) [] = false
bytes_lt (x ∷ xs) (y ∷ ys) = ltb x y || (x == y && bytes_lt xs ys)

-- The entries in the order of their keys, as sorted keys and look-ups give them.
unfoldable pub insert_entry : Entry → List Entry → List Entry
insert_entry e [] = e ∷ []
insert_entry e (f ∷ fs) =
    let behind = insert_entry e fs in if bytes_lt f.0 e.0 then f ∷ behind else e ∷ f ∷ fs

unfoldable pub sort_entries : List Entry → List Entry
sort_entries [] = []
sort_entries (e ∷ es) = insert_entry e (sort_entries es)

unfoldable pub add_entries : Bytes → List Entry → Bytes
add_entries h [] = h
add_entries h ((k, v) ∷ es) = add_entries (add_bytes h k v) es

digest_of : (Bytes → Bytes) → List Entry → Bytes
digest_of sum12 [] = []
digest_of sum12 (e ∷ es) = sum12 (add_entries [] (sort_entries (e ∷ es)))

-- No ConfigMap, like one without data, has an empty digest. Those of a Secret are the same.
unfoldable pub data_digest : (Bytes → Bytes) → Option (List Entry) → Bytes
unfolding digest_of
data_digest sum12 none = []
data_digest sum12 (some es) = digest_of sum12 es

-- A ConfigMap of a list: its name and its data.
pub record ConfigMap : Type 0 where
  pub name : Bytes
  pub entries : List Entry

-- The keys of the digest of a list.
abbrev pub name_key : Bytes
name_key = b'n' ∷ b'a' ∷ b'm' ∷ b'e' ∷ []

abbrev pub digest_key : Bytes
digest_key = b'd' ∷ b'i' ∷ b'g' ∷ b'e' ∷ b's' ∷ b't' ∷ []

add_config_map : (Bytes → Bytes) → Bytes → Option ConfigMap → Bytes
add_config_map sum12 h none = h
add_config_map sum12 h (some cm) =
    add_bytes (add_bytes h name_key cm.name) digest_key (data_digest sum12 (some cm.entries))

add_config_maps : (Bytes → Bytes) → Bytes → List (Option ConfigMap) → Bytes
unfolding add_config_map
add_config_maps sum12 h [] = h
add_config_maps sum12 h (cm ∷ cms) = add_config_maps sum12 (add_config_map sum12 h cm) cms

unfoldable pub config_map_list_digest : (Bytes → Bytes) → List (Option ConfigMap) → Bytes
unfolding add_config_maps
config_map_list_digest sum12 [] = []
config_map_list_digest sum12 (cm ∷ cms) = sum12 (add_config_maps sum12 [] (cm ∷ cms))
