-- ===== src/Digest/Examples.antt =====
-- The theorems on digests at small data.
use xtrinode.Shared.{◌≡◌, ◌≢◌, refl, arith, some, [], ◌∷◌}
use xtrinode.Digest.{Entry, add_entries, data_digest}
use xtrinode.Digest.Order.{swapped, data_digest-Reordered}
use xtrinode.Digest.Encoding.{read_entries, no_nul, Clean, read_entries-add_entries}

abbrev one : Entry
one = (b'a' ∷ [], b'1' ∷ [])

abbrev two : Entry
two = (b'b' ∷ [], b'2' ∷ [])

one_is_not_two : one.0 ≢ two.0
one_is_not_two e = ground (arith, e)

data_digest-Reordered_example :
    data_digest (λ bs. bs) (some (one ∷ two ∷ [])) ≡ data_digest (λ bs. bs) (some (two ∷ one ∷ []))
data_digest-Reordered_example =
    data_digest-Reordered (λ bs. bs) (one ∷ two ∷ []) (two ∷ one ∷ [])
      (swapped one two [] one_is_not_two)

two-Clean : Clean (one ∷ two ∷ [])
unfolding no_nul
two-Clean = ((refl, refl), ((refl, refl), tt))

read_entries-add_entries_example : read_entries (add_entries [] (one ∷ two ∷ [])) ≡ (one ∷ two ∷ [])
read_entries-add_entries_example = read_entries-add_entries (one ∷ two ∷ []) two-Clean
