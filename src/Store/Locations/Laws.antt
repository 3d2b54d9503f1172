-- ===== src/Store/Locations/Laws.antt =====
-- What a table of locations answers.
use ferry.Prelude.{
  ℕ, suc, ◌+◌, ◌≡◌, refl, sym, ap, subst, ◌∙◌, Bool, true, false, ◌&&◌, some, List, [], ◌∷◌, ◌++◌,
  append_assoc, append-nil, Bytes, bytes_eq, bytes_eq_iff, length, length-append, any, keep,
  Bool-cases, inl, inr, if◌then◌else◌, if_intro, arith,
}
use ferry.Prelude.Maps.{lookup, insert, lookup-insert}
use ferry.Store.Format.{BlobId, BlobKind, PackId}
use ferry.Store.Index.{IndexEntry, entry_key, same_blob}
use ferry.Store.Locations.{
  LocationTable, no_locations, blob_key, entry_eq, or_empty, rows_at, add_row, merge, entry_at,
  entries_at, candidates, find, resolve,
}

-- The row is on the blob of this key.
unfoldable pub is_on : Bytes → IndexEntry → Bool
is_on key e = bytes_eq key (entry_key e)

-- The places of the rows on a blob, the first of them counted as `i`.
places : Bytes → ℕ → List IndexEntry → List ℕ
places key i [] = []
places key i (e ∷ es) = if is_on key e then i ∷ places key (suc i) es else places key (suc i) es

-- The rows, without those that come again.
unfoldable pub firsts : List IndexEntry → List IndexEntry → List IndexEntry
firsts seen [] = []
firsts seen (e ∷ es) = if any (entry_eq e) seen then firsts seen es else e ∷ firsts (e ∷ seen) es

entry_at-append :
    (pre : List IndexEntry) (e : IndexEntry) (es : List IndexEntry)
    → entry_at (pre ++ (e ∷ es)) (length pre) ≡ some e
unfolding entry_at
entry_at-append [] e es = refl
entry_at-append (p ∷ pre) e es = entry_at-append pre e es

-- The rows at the places are the rows on the blob.
entries_at-places :
    (key : Bytes) (pre es : List IndexEntry)
    → entries_at (pre ++ es) (places key (length pre) es) ≡ keep (is_on key) es
unfolding entries_at places
entries_at-places key pre [] = refl
entries_at-places key pre (e ∷ es) =
    let rest : entries_at (pre ++ (e ∷ es)) (places key (suc (length pre)) es)
        ≡ keep (is_on key) es =
      subst (λ l. entries_at l (places key (suc (length pre)) es) ≡ keep (is_on key) es)
        (append_assoc pre (e ∷ []) es)
        (subst (λ n. entries_at ((pre ++ (e ∷ [])) ++ es) (places key n es) ≡ keep (is_on key) es)
          (omega (arith, length-append pre (e ∷ [])))
          (entries_at-places key (pre ++ (e ∷ [])) es)) in
    elim (Bool-cases (is_on key e)) [
      | inl on ↦ rw (on, entry_at-append pre e es, entries_at, keep) (ap (λ t. e ∷ t) rest)
      | inr off ↦ rw (off, entries_at, keep) rest
    ]

-- The place of one row.
place : Bytes → ℕ → IndexEntry → List ℕ
place key i e = if is_on key e then i ∷ [] else []

places-append :
    (key : Bytes) (i : ℕ) (es : List IndexEntry) (e : IndexEntry)
    → places key i (es ++ (e ∷ [])) ≡ places key i es ++ place key (i + length es) e
unfolding places place
places-append key i [] e = ap (λ n. place key n e) (omega arith)
places-append key i (x ∷ es) e =
    let rest : places key (suc i) (es ++ (e ∷ []))
        ≡ places key (suc i) es ++ place key (i + suc (length es)) e =
      places-append key (suc i) es e
      ∙ ap (λ n. places key (suc i) es ++ place key n e) (omega arith) in
    elim (Bool-cases (is_on key x)) [
      | inl on ↦ rw (on, ◌++◌) (ap (λ t. i ∷ t) rest)
      | inr off ↦ rw off rest
    ]

-- The rows of each blob are at the places that `by_blob` has for it.
abbrev HasRows : LocationTable → Type 0
HasRows t = (key : Bytes) → rows_at key t.by_blob ≡ places key 0 t.entries

rows_at-insert :
    (key j : Bytes) (rows : List ℕ) (m : List (Bytes × List ℕ))
    → rows_at key (insert j rows m) ≡ (if bytes_eq key j then rows else rows_at key m)
unfolding rows_at or_empty
rows_at-insert key j rows m =
    ap or_empty (lookup-insert key j rows m)
    ∙ elim (Bool-cases (bytes_eq key j)) [ inl same ↦ rw same refl | inr other ↦ rw other refl ]

add_row-HasRows : (e : IndexEntry) (t : LocationTable) → HasRows t → HasRows (add_row e t)
unfolding add_row rows_at is_on place
add_row-HasRows e t h key =
    let grown = rows_at (entry_key e) t.by_blob ++ (length t.entries ∷ []) in
    let after : places key 0 (t.entries ++ (e ∷ []))
        ≡ places key 0 t.entries ++ place key (length t.entries) e =
      places-append key 0 t.entries e
      ∙ ap (λ n. places key 0 t.entries ++ place key n e) (omega arith) in
    elim (Bool-cases (bytes_eq key (entry_key e))) [
      | inl same ↦
          rows_at-insert key (entry_key e) grown t.by_blob
          ∙ rw same (
              ap (λ k. rows_at k t.by_blob ++ (length t.entries ∷ []))
                (sym ((bytes_eq_iff key (entry_key e)).0 same))
              ∙ ap (λ l. l ++ (length t.entries ∷ [])) (h key)
              ∙ sym (after ∙ rw same refl))
      | inr other ↦
          rows_at-insert key (entry_key e) grown t.by_blob
          ∙ rw other (h key ∙ sym (after ∙ rw other (append-nil (places key 0 t.entries))))
    ]

merge-HasRows : (es : List IndexEntry) (t : LocationTable) → HasRows t → HasRows (merge es t)
unfolding merge
merge-HasRows [] t h = h
merge-HasRows (e ∷ es) t h =
    if_intro HasRows (any (entry_eq e) t.seen) (λ _. merge-HasRows es t h)
      (λ _. merge-HasRows es (add_row e t) (add_row-HasRows e t h))

entries-merge :
    (es : List IndexEntry) (t : LocationTable)
    → (merge es t).entries ≡ t.entries ++ firsts t.seen es
unfolding merge firsts add_row
entries-merge [] t = sym (append-nil t.entries)
entries-merge (e ∷ es) t = elim (Bool-cases (any (entry_eq e) t.seen)) [
  | inl known ↦ rw (known, merge) (entries-merge es t)
  | inr fresh ↦
      rw (fresh, merge)
        (entries-merge es (add_row e t) ∙ append_assoc t.entries (e ∷ []) (firsts (e ∷ t.seen) es))
]

no_locations-HasRows : HasRows no_locations
unfolding rows_at or_empty places lookup
no_locations-HasRows key = refl

-- The candidates for a blob, in a table into which rows were merged, are the rows on this blob, in the
-- order in which they came, each of them once.
pub candidates-merge :
    (kind : BlobKind) (id : BlobId) (es : List IndexEntry)
    → candidates kind id (merge es no_locations) ≡ keep (is_on (blob_key kind id)) (firsts [] es)
unfolding candidates
candidates-merge kind id es =
    let key = blob_key kind id in
    let t = merge es no_locations in
    ap (entries_at t.entries) (merge-HasRows es no_locations no_locations-HasRows key)
    ∙ entries_at-places key [] t.entries
    ∙ ap (keep (is_on key)) (entries-merge es no_locations)

find-keep :
    (p q : IndexEntry → Bool) (es : List IndexEntry)
    → find p (keep q es) ≡ find (λ e. q e && p e) es
unfolding find
find-keep p q [] = refl
find-keep p q (e ∷ es) = elim (Bool-cases (q e)) [
  | inl on ↦ rw (on, keep, find, find-keep p q es) refl
  | inr off ↦ rw (off, keep, find) (find-keep p q es)
]

-- Equal rows are on the same blob, in the same pack.
wanted_alike :
    (key : Bytes) (pack_exists : PackId → Bool) (a b : IndexEntry)
    → entry_eq a b ≡ true
    → is_on key a && pack_exists a.pack ≡ is_on key b && pack_exists b.pack
unfolding entry_eq same_blob is_on
wanted_alike key pack_exists a b h =
    let keys : entry_key a ≡ entry_key b =
      (bytes_eq_iff (entry_key a) (entry_key b)).0 (ground (arith, h)) in
    let packs : a.pack ≡ b.pack = (bytes_eq_iff a.pack b.pack).0 (ground (arith, h)) in
    λ i. bytes_eq key (keys i) && pack_exists (packs i)

module _ (p : IndexEntry → Bool)
    (alike : (a b : IndexEntry) → entry_eq a b ≡ true → p a ≡ p b) where
  -- A row that was seen is not wanted when none that was seen is.
  seen_not :
      (e : IndexEntry) (seen : List IndexEntry)
      → any p seen ≡ false
      → any (entry_eq e) seen ≡ true
      → p e ≡ false
  seen_not e [] none_wanted known = absurd (cc)
  seen_not e (s ∷ seen) none_wanted known = elim (Bool-cases (entry_eq e s)) [
    | inl same ↦ alike e s same ∙ ground (arith, none_wanted)
    | inr other ↦ seen_not e seen (ground (arith, none_wanted)) (ground (arith, known, other))
  ]

  find-firsts :
      (es seen : List IndexEntry) → any p seen ≡ false → find p (firsts seen es) ≡ find p es
  unfolding find firsts
  find-firsts [] seen none_wanted = refl
  find-firsts (e ∷ es) seen none_wanted = elim (Bool-cases (any (entry_eq e) seen)) [
    | inl known ↦
        rw (known, firsts, seen_not e seen none_wanted known, find)
          (find-firsts es seen none_wanted)
    | inr fresh ↦ elim (Bool-cases (p e)) [
      | inl wanted ↦ rw (fresh, firsts, find, wanted) refl
      | inr not ↦
          rw (fresh, firsts, find, not)
            (find-firsts es (e ∷ seen) (ground (arith, not, none_wanted)))
    ]
  ]

-- Resolving a blob, in a table into which rows were merged, finds the first of these rows that is on
-- the blob and whose pack exists, and nothing where there is none.
pub resolve-merge :
    (pack_exists : PackId → Bool) (kind : BlobKind) (id : BlobId) (es : List IndexEntry)
    → resolve pack_exists kind id (merge es no_locations)
      ≡ find (λ e. is_on (blob_key kind id) e && pack_exists e.pack) es
unfolding resolve
resolve-merge pack_exists kind id es =
    let key = blob_key kind id in
    ap (find (λ e. pack_exists e.pack)) (candidates-merge kind id es)
    ∙ find-keep (λ e. pack_exists e.pack) (is_on key) (firsts [] es)
    ∙ find-firsts (λ e. is_on key e && pack_exists e.pack) (wanted_alike key pack_exists) es [] refl
