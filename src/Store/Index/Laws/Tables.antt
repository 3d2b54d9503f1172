-- ===== src/Store/Index/Laws/Tables.antt =====
-- The table of any rows: what is parsed back, and which slices are tables.
use ferry.Prelude.{
  suc, ◌+◌, ◌≤◌, ◌<◌, ◌^◌, ◌≡◌, ◌↔◌, refl, sym, ap, subst, ◌∙◌, true, Option, none, some, List, [],
  ◌∷◌, ◌++◌, ◌*◌, length-append, Bytes, IsByte, All, bytes_eq, bytes_lt, bytes_eq_iff,
  bytes_lt_asymm, bytes_lt_irrefl, length, ok, arith, Bool-cases, inl, inr,
}
use ferry.Store.Format.{le_bytes}
use ferry.Store.Format.Laws.{length-le_bytes}
use ferry.Store.Reader.{usize_limit, run}
use ferry.Store.Reader.Laws.Whole.{encode_all}
use ferry.Store.Index.{
  IndexEntry, IsEntry, entry_key, insert_by_key, sort_by_key, same_blob, dedup_after, dedup,
  out_of_order, table_plain, table_parse,
}
use ferry.Store.Index.Laws.{
  IsAscending, IsTable, row_bytes, table_bytes, table_parse_bytes, table_parse-table_bytes,
  table_plain_lem,
}
use ferry.Store.Index.Laws.Order.{dedup-IsAscending, dedup-All}

length-insert_by_key :
    (e : IndexEntry) (es : List IndexEntry) → length (insert_by_key e es) ≡ suc (length es)
unfolding insert_by_key
length-insert_by_key e [] = refl
length-insert_by_key e (f ∷ fs) = ground (arith, length-insert_by_key e fs)

length-sort_by_key : (es : List IndexEntry) → length (sort_by_key es) ≡ length es
unfolding sort_by_key
length-sort_by_key [] = refl
length-sort_by_key (e ∷ es) =
    length-insert_by_key e (sort_by_key es) ∙ ap suc (length-sort_by_key es)

length-dedup_after :
    (e : IndexEntry) (es : List IndexEntry) → length (dedup_after e es) ≤ suc (length es)
unfolding dedup_after
length-dedup_after e [] = omega arith
length-dedup_after e (f ∷ fs) = ground (arith, length-dedup_after e fs, length-dedup_after f fs)

pub length-dedup : (es : List IndexEntry) → length (dedup (sort_by_key es)) ≤ length es
unfolding dedup
length-dedup es =
    subst (λ n. length (dedup (sort_by_key es)) ≤ n) (length-sort_by_key es) (on (sort_by_key es))
  where
    on : (xs : List IndexEntry) → length (dedup xs) ≤ length xs
    on [] = omega arith
    on (e ∷ xs) = length-dedup_after e xs

pub dedup-IsTable :
    (es : List IndexEntry) → All IsEntry es → length es < 2 ^ 32 → IsTable (dedup (sort_by_key es))
dedup-IsTable es w fits = record {
  few = omega (arith, length-dedup es, fits);
  each = dedup-All IsEntry es w;
  ascending = dedup-IsAscending es;
}

insert_by_key_head :
    (prev : Option Bytes) (e : IndexEntry) (es : List IndexEntry)
    → IsAscending prev (e ∷ es)
    → insert_by_key e es ≡ e ∷ es
unfolding insert_by_key out_of_order
insert_by_key_head prev e [] s = refl
insert_by_key_head prev e (f ∷ fs) s =
    rw (bytes_lt_asymm (entry_key f) (entry_key e) (ground (arith, s.1)))

sort_by_key_ascending :
    (prev : Option Bytes) (es : List IndexEntry) → IsAscending prev es → sort_by_key es ≡ es
unfolding sort_by_key
sort_by_key_ascending prev [] s = refl
sort_by_key_ascending prev (e ∷ es) s =
    ap (insert_by_key e) (sort_by_key_ascending (some (entry_key e)) es s.1)
    ∙ insert_by_key_head prev e es s

dedup_after_ascending :
    (prev : Option Bytes) (e : IndexEntry) (es : List IndexEntry)
    → IsAscending prev (e ∷ es)
    → dedup_after e es ≡ e ∷ es
unfolding dedup_after same_blob out_of_order
dedup_after_ascending prev e [] s = refl
dedup_after_ascending prev e (f ∷ fs) s = elim (Bool-cases (bytes_eq (entry_key f) (entry_key e))) [
  | inl same ↦
      absurd (clash ((bytes_eq_iff (entry_key f) (entry_key e)).0 same) (ground (arith, s.1)))
  | inr other ↦ rw other (ap (λ t. e ∷ t) (dedup_after_ascending (some (entry_key e)) f fs s.1))
]
  where
    clash : {a b : Bytes} → b ≡ a → bytes_lt a b ≡ true → ⊥
    clash {a} h k = cc (bytes_lt_irrefl a, subst (λ t. bytes_lt a t ≡ true) h k)

pub dedup_ascending : (es : List IndexEntry) → IsAscending none es → dedup (sort_by_key es) ≡ es
unfolding dedup sort_by_key
dedup_ascending [] s = refl
dedup_ascending (e ∷ es) s =
    ap dedup (sort_by_key_ascending none (e ∷ es) s) ∙ dedup_after_ascending none e es s

-- What `table_plain` writes of any rows parses back as their first rows in order of keys.
pub table_parse_plain :
    (es : List IndexEntry)
    → All IsEntry es
    → length es < 2 ^ 32
    → length (table_plain es) < usize_limit
    → run table_parse (table_plain es) ≡ ok (dedup (sort_by_key es))
table_parse_plain es w few fits =
    ap (run table_parse) (table_plain_lem es)
    ∙ table_parse-table_bytes (dedup (sort_by_key es)) (dedup-IsTable es w few)
        (subst (λ bs. length bs < usize_limit) (table_plain_lem es) fits)

-- A slice of bytes parses as the table `es` exactly when it is `table_plain` of `es`, the rows of
-- `es` have strictly ascending keys and fields that fit, and they are fewer than 2^32.
pub table_parse_iff :
    (bs : Bytes) (es : List IndexEntry)
    → length bs < usize_limit
    → All IsByte bs
    → (run table_parse bs ≡ ok es) ↔ ((bs ≡ table_plain es) × IsTable es)
table_parse_iff bs es fits bytes =
    let exact = table_parse_bytes bs es fits bytes in
    let plain : IsTable es → _ ≡ table_plain es =
      λ w. sym (table_plain_lem es ∙ ap table_bytes (dedup_ascending es w.ascending)) in
    (
      λ h. ((exact.0 h).0 ∙ plain (exact.0 h).1, (exact.0 h).1),
      λ h. exact.1 (h.0 ∙ sym (plain h.1), h.1),
    )

length-rows :
    (es : List IndexEntry) → All IsEntry es → length (encode_all row_bytes es) ≡ 81 * length es
length-rows [] w = omega arith
length-rows (e ∷ es) w =
    omega
      (arith, length-append (row_bytes e) (encode_all row_bytes es), length-rows es w.1, one e w.0)
  where
    one : (e : IndexEntry) → IsEntry e → length (row_bytes e) ≡ 81
    one e w = omega (
      arith,
      length-append e.id (e.pack ++ (le_bytes 8 e.plain_off ++ (le_bytes 8 e.plain_len ++ []))),
      length-append e.pack (le_bytes 8 e.plain_off ++ (le_bytes 8 e.plain_len ++ [])),
      length-append (le_bytes 8 e.plain_off) (le_bytes 8 e.plain_len ++ []),
      length-append (le_bytes 8 e.plain_len) [],
      length-le_bytes 8 e.plain_off,
      length-le_bytes 8 e.plain_len,
      w.id_length,
      w.pack_length,
    )

-- 81 bytes for a row, and four for their number.
pub length-table_plain :
    (es : List IndexEntry) → All IsEntry es → length (table_plain es) ≤ 4 + 81 * length es
length-table_plain es w =
    let sorted : List IndexEntry = dedup (sort_by_key es) in
    omega (
      arith,
      ap length (table_plain_lem es),
      length-append (le_bytes 4 (length sorted)) (encode_all row_bytes sorted ++ []),
      length-append (encode_all row_bytes sorted) [],
      length-le_bytes 4 (length sorted),
      length-rows sorted (dedup-All IsEntry es w),
      length-dedup es,
    )
