-- ===== src/Digest/Encoding.antt =====
-- digest.go: what the bytes that are hashed say of the entries.
use mathlib.Core.List.{append-nil, append_assoc}
use xtrinode.Digest.Order.{bytes_lt_asym}
use xtrinode.Digest.{bytes_lt, insert_entry}
use xtrinode.Shared.{
  ◌≡◌, refl, Bool, true, false, ◌==◌, arith, some, List, [], ◌∷◌, ◌++◌, All, if◌then◌else◌, ap, sym,
  ◌∙◌,
}
use xtrinode.Digest.{
  bytes_lt, insert_entry, Bytes, Entry, add_bytes, add_entries, sort_entries, data_digest,
  digest_of,
}

-- The pieces that NUL bytes end.
pieces : Bytes → Bytes → List Bytes
pieces start [] = []
pieces start (b ∷ bs) = if b == 0 then start ∷ pieces [] bs else pieces (start ++ (b ∷ [])) bs

paired : List Bytes → List Entry
paired [] = []
paired (k ∷ []) = []
paired (k ∷ v ∷ rest) = (k, v) ∷ paired rest

-- The entries that some bytes stand for.
unfoldable pub read_entries : Bytes → List Entry
unfolding pieces paired
read_entries bs = paired (pieces [] bs)

-- Bytes without a NUL, as a text of a ConfigMap has.
unfoldable pub no_nul : Bytes → Bool
no_nul [] = true
no_nul (b ∷ bs) = if b == 0 then false else no_nul bs

abbrev pub Clean : List Entry → Type 0
Clean es = All (λ e. (no_nul e.0 ≡ true) × (no_nul e.1 ≡ true)) es

pieces-end :
    (start piece rest : Bytes)
    → no_nul piece ≡ true
    → pieces start (piece ++ (0 ∷ rest)) ≡ ((start ++ piece) ∷ pieces [] rest)
unfolding pieces no_nul
pieces-end start [] rest h = ap (λ s. s ∷ pieces [] rest) (sym (append-nil start))
pieces-end start (b ∷ bs) rest h =
    ground (arith, h, pieces-end (start ++ (b ∷ [])) bs rest, append_assoc start (b ∷ []) bs)

add_entries-append : (h : Bytes) (es : List Entry) → add_entries h es ≡ (h ++ add_entries [] es)
unfolding add_entries add_bytes
add_entries-append h [] = sym (append-nil h)
add_entries-append h ((k, v) ∷ es) =
    let one = add_bytes [] k v in
    add_entries-append (add_bytes h k v) es
    ∙ append_assoc h one (add_entries [] es)
    ∙ ap (λ r. h ++ r) (sym (add_entries-append one es))

-- The bytes of one entry, before others.
one_entry : (k v rest : Bytes) → (add_bytes [] k v ++ rest) ≡ (k ++ (0 ∷ (v ++ (0 ∷ rest))))
unfolding add_bytes
one_entry k v rest =
    append_assoc k (0 ∷ (v ++ (0 ∷ []))) rest
    ∙ ap (λ r. k ++ (0 ∷ r)) (append_assoc v (0 ∷ []) rest)

-- The bytes that are hashed give the entries back, where no key and no value has a NUL byte: then
-- different data are hashed from different bytes.
pub read_entries-add_entries : (es : List Entry) → Clean es → read_entries (add_entries [] es) ≡ es
unfolding read_entries add_entries
read_entries-add_entries [] c = refl
read_entries-add_entries ((k, v) ∷ es) c =
    let rest = add_entries [] es in
    let bytes : add_entries (add_bytes [] k v) es ≡ (k ++ (0 ∷ (v ++ (0 ∷ rest)))) =
      add_entries-append (add_bytes [] k v) es ∙ one_entry k v rest in
    ap (λ bs. paired (pieces [] bs)) bytes
    ∙ ap paired (pieces-end [] k (v ++ (0 ∷ rest)) c.0.0)
    ∙ ap (λ ps. paired (k ∷ ps)) (pieces-end [] v rest c.0.1)
    ∙ ap (λ r. (k, v) ∷ r) (read_entries-add_entries es c.1)

-- A Secret with a value that has NUL bytes in it has the digest of one with two values: that of the
-- value `v` under `k` and `w` under a later key `l` is also that of `v`, `l` and `w` with NUL bytes
-- between them, under `k` alone.
pub data_digest_same :
    (sum12 : Bytes → Bytes) (k v l w : Bytes)
    → bytes_lt k l ≡ true
    → data_digest sum12 (some ((k, v ++ (0 ∷ (l ++ (0 ∷ w)))) ∷ []))
      ≡ data_digest sum12 (some ((k, v) ∷ (l, w) ∷ []))
unfolding data_digest digest_of sort_entries insert_entry add_entries
data_digest_same sum12 k v l w order =
    let end = w ++ (0 ∷ []) in
    let long : add_bytes [] k (v ++ (0 ∷ (l ++ (0 ∷ w))))
        ≡ (k ++ (0 ∷ (v ++ (0 ∷ (l ++ (0 ∷ end)))))) =
      unfold add_bytes in simp append_assoc in
    let short : add_bytes (add_bytes [] k v) l w ≡ (k ++ (0 ∷ (v ++ (0 ∷ (l ++ (0 ∷ end)))))) =
      unfold add_bytes in simp append_assoc in
    rw (bytes_lt_asym k l order) (ap sum12 (long ∙ sym short))
