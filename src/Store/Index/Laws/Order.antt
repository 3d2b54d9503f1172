-- ===== src/Store/Index/Laws/Order.antt =====
-- The rows of a table in order: sorting and dropping later rows of one blob, against looking a blob
-- up by its first row.
use ferry.Prelude.{
  ◌≡◌, refl, ap, subst, ◌∙◌, true, false, not, Option, none, some, List, [], ◌∷◌, Bytes, All,
  bytes_eq, bytes_lt, bytes_eq_iff, bytes_lt_asymm, bytes_lt_irrefl, bytes_lt_total, if◌then◌else◌,
  arith, Bool-cases, inl, inr,
}
use ferry.Store.Index.{
  IndexEntry, entry_key, insert_by_key, sort_by_key, same_blob, dedup_after, dedup, out_of_order,
}
use ferry.Store.Index.Laws.{IsAscending}

-- The first row of a blob.
unfoldable pub find_row : Bytes → List IndexEntry → Option IndexEntry
find_row k [] = none
find_row k (e ∷ es) = if bytes_eq k (entry_key e) then some e else find_row k es

find_row-insert_by_key :
    (k : Bytes) (e : IndexEntry) (es : List IndexEntry)
    → find_row k (insert_by_key e es) ≡ find_row k (e ∷ es)
unfolding find_row insert_by_key
find_row-insert_by_key k e [] = refl
find_row-insert_by_key k e (f ∷ fs) = ground (
  arith,
  find_row-insert_by_key k e fs,
  bytes_eq_iff k (entry_key e),
  bytes_eq_iff k (entry_key f),
  bytes_lt_irrefl k,
)

pub find_row-sort_by_key :
    (k : Bytes) (es : List IndexEntry) → find_row k (sort_by_key es) ≡ find_row k es
unfolding sort_by_key find_row
find_row-sort_by_key k [] = refl
find_row-sort_by_key k (e ∷ es) =
    find_row-insert_by_key k e (sort_by_key es) ∙ same_head _ _ (find_row-sort_by_key k es)
  where
    same_head :
        (xs ys : List IndexEntry)
        → find_row k xs ≡ find_row k ys
        → find_row k (e ∷ xs) ≡ find_row k (e ∷ ys)
    same_head xs ys h = ground (arith, h)

find_row-dedup_after :
    (k : Bytes) (e : IndexEntry) (es : List IndexEntry)
    → find_row k (dedup_after e es) ≡ find_row k (e ∷ es)
unfolding find_row dedup_after same_blob
find_row-dedup_after k e [] = refl
find_row-dedup_after k e (f ∷ fs) = ground (
  arith,
  find_row-dedup_after k e fs,
  find_row-dedup_after k f fs,
  bytes_eq_iff k (entry_key e),
  bytes_eq_iff k (entry_key f),
  bytes_eq_iff (entry_key f) (entry_key e),
)

-- Neither sorting nor dropping the later rows changes which row is a blob's first.
pub find_row-dedup :
    (k : Bytes) (es : List IndexEntry) → find_row k (dedup (sort_by_key es)) ≡ find_row k es
unfolding dedup
find_row-dedup k es = on (sort_by_key es) ∙ find_row-sort_by_key k es
  where
    on : (xs : List IndexEntry) → find_row k (dedup xs) ≡ find_row k xs
    on [] = refl
    on (e ∷ xs) = find_row-dedup_after k e xs

-- No row is smaller than the one before, nor the first than `k`.
abbrev IsOrdered : Bytes → List IndexEntry → Type 0
IsOrdered k [] = Unit {0}
IsOrdered k (e ∷ es) = (bytes_lt (entry_key e) k ≡ false) × IsOrdered (entry_key e) es

insert_by_key-IsOrdered :
    (k : Bytes) (e : IndexEntry) (es : List IndexEntry)
    → bytes_lt (entry_key e) k ≡ false
    → IsOrdered k es
    → IsOrdered k (insert_by_key e es)
unfolding insert_by_key
insert_by_key-IsOrdered k e [] h s = (h, tt)
insert_by_key-IsOrdered k e (f ∷ fs) h s =
    elim (Bool-cases (bytes_lt (entry_key f) (entry_key e))) [
      | inl less ↦ rw less (
        s.0,
        insert_by_key-IsOrdered (entry_key f) e fs (bytes_lt_asymm (entry_key e) (entry_key f) less)
            s.1,
      )
      | inr more ↦ rw more (h, (more, s.1))
    ]

not-bytes_lt-empty : (a : Bytes) → bytes_lt a [] ≡ false
unfolding bytes_lt
not-bytes_lt-empty [] = refl
not-bytes_lt-empty (x ∷ xs) = refl

sort_by_key-IsOrdered : (es : List IndexEntry) → IsOrdered [] (sort_by_key es)
unfolding sort_by_key
sort_by_key-IsOrdered [] = tt
sort_by_key-IsOrdered (e ∷ es) =
    insert_by_key-IsOrdered [] e (sort_by_key es) (not-bytes_lt-empty (entry_key e))
      (sort_by_key-IsOrdered es)

dedup_after-IsAscending :
    (prev : Option Bytes) (e : IndexEntry) (es : List IndexEntry)
    → out_of_order prev (entry_key e) ≡ false
    → IsOrdered (entry_key e) es
    → IsAscending prev (dedup_after e es)
unfolding dedup_after same_blob out_of_order
dedup_after-IsAscending prev e [] h s = (h, tt)
dedup_after-IsAscending prev e (f ∷ fs) h s =
    elim (Bool-cases (bytes_eq (entry_key f) (entry_key e))) [
      | inl same ↦ rw same (
          dedup_after-IsAscending prev e fs h
            (subst (λ k. IsOrdered k fs) ((bytes_eq_iff (entry_key f) (entry_key e)).0 same) s.1))
      | inr other ↦ rw other (
        h,
        dedup_after-IsAscending (some (entry_key e)) f fs
            (ap not (apart (entry_key e) (entry_key f) s.0 other)) s.1,
      )
    ]
  where
    apart : (a b : Bytes) → bytes_lt b a ≡ false → bytes_eq b a ≡ false → bytes_lt a b ≡ true
    apart a b h k = elim (Bool-cases (bytes_lt a b)) [
      | inl less ↦ less
      | inr more ↦ absurd (cc (k, (bytes_eq_iff b a).1 (bytes_lt_total b a h more)))
    ]

-- The rows of `table_plain` have ascending keys.
pub dedup-IsAscending : (es : List IndexEntry) → IsAscending none (dedup (sort_by_key es))
unfolding dedup out_of_order
dedup-IsAscending es = on (sort_by_key es) (sort_by_key-IsOrdered es)
  where
    on : (xs : List IndexEntry) → IsOrdered [] xs → IsAscending none (dedup xs)
    on [] s = tt
    on (e ∷ xs) s = dedup_after-IsAscending none e xs refl s.1

module _ (P : IndexEntry → Type 0) where
  insert_by_key-All :
      (e : IndexEntry) (es : List IndexEntry) → P e → All P es → All P (insert_by_key e es)
  unfolding insert_by_key
  insert_by_key-All e [] h w = (h, tt)
  insert_by_key-All e (f ∷ fs) h w = elim (Bool-cases (bytes_lt (entry_key f) (entry_key e))) [
    | inl less ↦ rw less (w.0, insert_by_key-All e fs h w.1)
    | inr more ↦ rw more (h, w)
  ]

  sort_by_key-All : (es : List IndexEntry) → All P es → All P (sort_by_key es)
  unfolding sort_by_key
  sort_by_key-All [] w = tt
  sort_by_key-All (e ∷ es) w = insert_by_key-All e (sort_by_key es) w.0 (sort_by_key-All es w.1)

  dedup_after-All :
      (e : IndexEntry) (es : List IndexEntry) → P e → All P es → All P (dedup_after e es)
  unfolding dedup_after
  dedup_after-All e [] h w = (h, tt)
  dedup_after-All e (f ∷ fs) h w = elim (Bool-cases (same_blob f e)) [
    | inl same ↦ rw same (dedup_after-All e fs h w.1)
    | inr other ↦ rw other (h, dedup_after-All f fs w.0 w.1)
  ]

  pub dedup-All : (es : List IndexEntry) → All P es → All P (dedup (sort_by_key es))
  unfolding dedup
  dedup-All es w = on (sort_by_key es) (sort_by_key-All es w)
    where
      on : (xs : List IndexEntry) → All P xs → All P (dedup xs)
      on [] w = tt
      on (e ∷ xs) w = dedup_after-All e xs w.0 w.1
