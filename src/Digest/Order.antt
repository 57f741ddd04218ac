-- ===== src/Digest/Order.antt =====
-- digest.go: a digest does not depend on the order in which a map gives its entries.
use xtrinode.Shared.{◌≡◌, ◌≢◌, refl, true, false, arith, some, List, [], ◌∷◌, ap, ◌∙◌}
use xtrinode.Digest.{
  Bytes, Entry, bytes_lt, insert_entry, sort_entries, add_entries, digest_of, data_digest,
}

pub bytes_lt_asym : (a b : Bytes) → bytes_lt a b ≡ true → bytes_lt b a ≡ false
unfolding bytes_lt
bytes_lt_asym [] [] h = refl
bytes_lt_asym [] (y ∷ ys) h = refl
bytes_lt_asym (x ∷ xs) [] h = ground (arith, h)
bytes_lt_asym (x ∷ xs) (y ∷ ys) h = ground (arith, bytes_lt_asym xs ys)

bytes_lt_ntrans :
    (a b c : Bytes) → bytes_lt a b ≡ false → bytes_lt b c ≡ false → bytes_lt a c ≡ false
unfolding bytes_lt
bytes_lt_ntrans [] [] c p q = q
bytes_lt_ntrans [] (y ∷ ys) c p q = ground (arith, p)
bytes_lt_ntrans (x ∷ xs) b [] p q = refl
bytes_lt_ntrans (x ∷ xs) [] (z ∷ zs) p q = ground (arith, q)
bytes_lt_ntrans (x ∷ xs) (y ∷ ys) (z ∷ zs) p q = ground (arith, bytes_lt_ntrans xs ys zs)

bytes_lt_total : (a b : Bytes) → bytes_lt a b ≡ false → bytes_lt b a ≡ false → a ≡ b
unfolding bytes_lt
bytes_lt_total [] [] p q = refl
bytes_lt_total [] (y ∷ ys) p q = ground (arith, p)
bytes_lt_total (x ∷ xs) [] p q = ground (arith, q)
bytes_lt_total (x ∷ xs) (y ∷ ys) p q =
    ground (arith, p, q, bytes_lt_total xs ys, bytes_lt_asym xs ys, bytes_lt_asym ys xs)

insert_entry_comm :
    (e f : Entry) (es : List Entry)
    → e.0 ≢ f.0
    → insert_entry e (insert_entry f es) ≡ insert_entry f (insert_entry e es)
unfolding insert_entry
insert_entry_comm e f [] apart =
    ground (arith, apart, bytes_lt_asym e.0 f.0, bytes_lt_total e.0 f.0)
insert_entry_comm e f (g ∷ es) apart = ground (
  arith,
  apart,
  insert_entry_comm e f es apart,
  bytes_lt_asym e.0 f.0,
  bytes_lt_total e.0 f.0,
  bytes_lt_ntrans g.0 e.0 f.0,
  bytes_lt_ntrans g.0 f.0 e.0,
  bytes_lt_ntrans e.0 f.0 g.0,
  bytes_lt_ntrans f.0 e.0 g.0,
  bytes_lt_asym e.0 g.0,
  bytes_lt_asym f.0 g.0,
)

-- Two orders of the same entries. Entries that change places have different keys, as all entries of
-- a map have.
pub data Reordered : List Entry → List Entry → Type 0 where
  as_is : (es : List Entry) → Reordered es es
  behind : (e : Entry) (es fs : List Entry) → Reordered es fs → Reordered (e ∷ es) (e ∷ fs)
  swapped : (e f : Entry) (es : List Entry) → e.0 ≢ f.0 → Reordered (e ∷ f ∷ es) (f ∷ e ∷ es)
  twice : (es fs gs : List Entry) → Reordered es fs → Reordered fs gs → Reordered es gs

sort_entries-Reordered : (es fs : List Entry) → Reordered es fs → sort_entries es ≡ sort_entries fs
unfolding sort_entries
sort_entries-Reordered _ _ (as_is es) = refl
sort_entries-Reordered _ _ (behind e es fs r) = ap (insert_entry e) (sort_entries-Reordered es fs r)
sort_entries-Reordered _ _ (swapped e f es apart) = insert_entry_comm e f (sort_entries es) apart
sort_entries-Reordered _ _ (twice es fs gs r s) =
    sort_entries-Reordered es fs r ∙ sort_entries-Reordered fs gs s

-- The digest of the data of a ConfigMap or a Secret is the same in whatever order its map gives the
-- entries.
pub data_digest-Reordered :
    (sum12 : Bytes → Bytes) (es fs : List Entry)
    → Reordered es fs
    → data_digest sum12 (some es) ≡ data_digest sum12 (some fs)
unfolding data_digest digest_of
data_digest-Reordered sum12 _ _ (as_is es) = refl
data_digest-Reordered sum12 _ _ (behind e es fs r) =
    ap (λ s. sum12 (add_entries [] s)) (sort_entries-Reordered (e ∷ es) (e ∷ fs) (behind e es fs r))
data_digest-Reordered sum12 _ _ (swapped e f es apart) =
    ap (λ s. sum12 (add_entries [] s))
      (sort_entries-Reordered (e ∷ f ∷ es) (f ∷ e ∷ es) (swapped e f es apart))
data_digest-Reordered sum12 _ _ (twice es fs gs r s) =
    data_digest-Reordered sum12 es fs r ∙ data_digest-Reordered sum12 fs gs s
