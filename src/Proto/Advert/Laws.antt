-- ===== src/Proto/Advert/Laws.antt =====
-- An advert is written and parsed.
use ferry.Prelude.{
  ℕ, ◌-◌, ◌≤◌, ◌<◌, ◌^◌, ◌≡◌, ◌↔◌, refl, sym, ap, subst, ◌∙◌, Bool, true, false, List, [], ◌∷◌,
  ◌++◌, Bytes, IsByte, All, All-of_append, byte_at, length, length-append, take, take-append, ◌==◌,
  ==_iff, Result, ok, err, arith, Bool-cases, inl, inr,
}
use ferry.Store.Reader.{usize_limit, run}
use ferry.Store.Index.{
  IndexEntry, IsEntry, IndexError, table_plain, table_parse, dedup, sort_by_key,
}
use ferry.Store.Index.Laws.{IsTable}
use ferry.Store.Index.Laws.Tables.{
  table_parse_iff, dedup-IsTable, table_parse_plain, length-table_plain,
}
use ferry.Proto.Transfer.{is_empty}
use ferry.Proto.Advert.{
  IndexAdvert, max_rows, flag_byte, index_advert_encode, advert_of_flag, advert_of_table,
  index_advert_parse,
}

-- A slice with a last byte is what stands before it, and that byte.
split_last :
    (b : ℕ) (bs : Bytes) → take (length bs) (b ∷ bs) ++ (byte_at (b ∷ bs) (length bs) ∷ []) ≡ b ∷ bs
split_last b [] = refl
split_last b (c ∷ bs) = ap (λ t. b ∷ t) (split_last c bs)

length-snoc : (xs : Bytes) (b : ℕ) → length (xs ++ (b ∷ [])) - 1 ≡ length xs
length-snoc xs b = omega (arith, length-append xs (b ∷ []))

take_before : (xs : Bytes) (b : ℕ) → take (length (xs ++ (b ∷ [])) - 1) (xs ++ (b ∷ [])) ≡ xs
take_before xs b = ap (λ n. take n (xs ++ (b ∷ []))) (length-snoc xs b) ∙ take-append xs (b ∷ [])

byte_last : (xs : Bytes) (b : ℕ) → byte_at (xs ++ (b ∷ [])) (length (xs ++ (b ∷ [])) - 1) ≡ b
byte_last xs b = ap (λ n. byte_at (xs ++ (b ∷ [])) n) (length-snoc xs b) ∙ on xs
  where
    on : (ys : Bytes) → byte_at (ys ++ (b ∷ [])) (length ys) ≡ b
    on [] = refl
    on (y ∷ ys) = on ys

not-is_empty-snoc : (xs : Bytes) (b : ℕ) → is_empty (xs ++ (b ∷ [])) ≡ false
unfolding is_empty
not-is_empty-snoc [] b = refl
not-is_empty-snoc (x ∷ xs) b = refl

advert_of_table-flag_byte :
    (entries : List IndexEntry) (more : Bool)
    → advert_of_table (ok entries) (flag_byte more) ≡ ok (record { entries = entries; more = more })
unfolding advert_of_table advert_of_flag flag_byte
advert_of_table-flag_byte entries true = refl
advert_of_table-flag_byte entries false = refl

advert_of_flag_inv :
    (entries : List IndexEntry) (flag : ℕ) (a : IndexAdvert)
    → advert_of_flag entries flag ≡ ok a
    → (entries ≡ a.entries) × (flag ≡ flag_byte a.more)
unfolding advert_of_flag flag_byte
advert_of_flag_inv entries flag a h = elim (Bool-cases (flag == 0)) [
  | inl zero_flag ↦
      let same : record { entries = entries; more = false } ≡ a = ground (arith) in
      (ap (λ t. t.entries) same, (==_iff flag 0).0 zero_flag ∙ ap (λ t. flag_byte t.more) same)
  | inr other ↦ elim (Bool-cases (flag == 1)) [
    | inl one_flag ↦
        let same : record { entries = entries; more = true } ≡ a = ground (arith) in
        (ap (λ t. t.entries) same, (==_iff flag 1).0 one_flag ∙ ap (λ t. flag_byte t.more) same)
    | inr unknown ↦ absurd (ground (arith))
  ]
]

advert_of_table_inv :
    (o : Result IndexError (List IndexEntry)) (flag : ℕ) (a : IndexAdvert)
    → advert_of_table o flag ≡ ok a
    → (o ≡ ok a.entries) × (flag ≡ flag_byte a.more)
unfolding advert_of_table
advert_of_table_inv (ok es) flag a h =
    let (e1, e2) = advert_of_flag_inv es flag a h in (ap ok e1, e2)
advert_of_table_inv (err e) flag a h = absurd (cc)

-- The parse is that of the table in front of the last byte, and of that byte.
parse_snoc :
    (table : Bytes) (flag : ℕ)
    → index_advert_parse (table ++ (flag ∷ [])) ≡ advert_of_table (run table_parse table) flag
unfolding index_advert_parse
parse_snoc table flag =
    rw (not-is_empty-snoc table flag, take_before table flag, byte_last table flag) refl

parse_inv :
    (bs : Bytes) (a : IndexAdvert)
    → index_advert_parse bs ≡ ok a
    → (table : Bytes) × (bs ≡ table ++ (flag_byte a.more ∷ []))
      × (run table_parse table ≡ ok a.entries)
unfolding index_advert_parse is_empty
parse_inv [] a h = absurd (cc)
parse_inv (b ∷ bs) a h =
    let table : Bytes = take (length bs) (b ∷ bs) in
    let flag : ℕ = byte_at (b ∷ bs) (length bs) in
    let split : table ++ (flag ∷ []) ≡ b ∷ bs = split_last b bs in
    let (e1, e2) =
      advert_of_table_inv (run table_parse table) flag a
        (sym (parse_snoc table flag) ∙ ap index_advert_parse split ∙ h) in
    (table, sym split ∙ ap (λ t. table ++ (t ∷ [])) e2, e1)

-- A payload of bytes parses as the advert `a` exactly when it is the encoding of `a`, the rows of
-- `a` have strictly ascending keys and fields that fit, and they are fewer than 2^32.
pub index_advert_parse_iff :
    (bs : Bytes) (a : IndexAdvert)
    → length bs < usize_limit
    → All IsByte bs
    → (index_advert_parse bs ≡ ok a) ↔ ((bs ≡ index_advert_encode a) × IsTable a.entries)
unfolding index_advert_encode
index_advert_parse_iff bs a fits bytes = (
  λ h.
      let (table, split, e) = parse_inv bs a h in
      let parts : All IsByte table × _ =
        All-of_append IsByte table (flag_byte a.more ∷ []) (subst (All IsByte) split bytes) in
      let fits' : length table < usize_limit =
        omega (arith, fits, ap length split, length-append table (flag_byte a.more ∷ [])) in
      let (e1, w) = (table_parse_iff table a.entries fits' parts.0).0 e in
      (split ∙ ap (λ t. t ++ (flag_byte a.more ∷ [])) e1, w),
  λ h.
      let split : bs ≡ table_plain a.entries ++ (flag_byte a.more ∷ []) = h.0 in
      let parts : All IsByte (table_plain a.entries) × _ =
        All-of_append IsByte (table_plain a.entries) (flag_byte a.more ∷ [])
          (subst (All IsByte) split bytes) in
      let fits' : length (table_plain a.entries) < usize_limit = omega (
        arith,
        fits,
        ap length split,
        length-append (table_plain a.entries) (flag_byte a.more ∷ []),
      ) in
      let e = (table_parse_iff (table_plain a.entries) a.entries fits' parts.0).1 (refl, h.1) in
      ap index_advert_parse split
      ∙ parse_snoc (table_plain a.entries) (flag_byte a.more)
      ∙ ap (λ o. advert_of_table o (flag_byte a.more)) e
      ∙ advert_of_table-flag_byte a.entries a.more,
)

-- What is parsed of the encoding of any rows that fit: for each blob its first row, in order of keys.
-- The payload is as long as memory allows.
pub index_advert_parse-encode :
    (a : IndexAdvert)
    → All IsEntry a.entries
    → length a.entries < 2 ^ 32
    → length (index_advert_encode a) < usize_limit
    → index_advert_parse (index_advert_encode a)
      ≡ ok (record { entries = dedup (sort_by_key a.entries); more = a.more })
unfolding index_advert_encode
index_advert_parse-encode a w few fits =
    let sorted : List IndexEntry = dedup (sort_by_key a.entries) in
    let table : Bytes = table_plain a.entries in
    let is_table : IsTable sorted = dedup-IsTable a.entries w few in
    let fits' : length table < usize_limit =
      omega (arith, fits, length-append table (flag_byte a.more ∷ [])) in
    let e = table_parse_plain a.entries w few fits' in
    parse_snoc table (flag_byte a.more)
    ∙ ap (λ o. advert_of_table o (flag_byte a.more)) e
    ∙ advert_of_table-flag_byte sorted a.more

-- An advert of at most 2,048 rows takes at most 165,893 bytes.
pub length-index_advert_encode :
    (entries : List IndexEntry) (more : Bool)
    → All IsEntry entries
    → length entries ≤ max_rows
    → length (index_advert_encode (record { entries = entries; more = more })) ≤ 165_893
unfolding index_advert_encode
length-index_advert_encode entries more w few = omega (
  arith,
  few,
  length-table_plain entries w,
  length-append (table_plain entries) (flag_byte more ∷ []),
)

-- The encoding of an advert of at most 2,048 rows parses as those rows.
pub index_advert_parse-encode_chunk :
    (entries : List IndexEntry) (more : Bool)
    → All IsEntry entries
    → length entries ≤ max_rows
    → index_advert_parse (index_advert_encode (record { entries = entries; more = more }))
      ≡ ok (record { entries = dedup (sort_by_key entries); more = more })
index_advert_parse-encode_chunk entries more w few =
    index_advert_parse-encode (record { entries = entries; more = more }) w (omega (arith, few))
      (omega (arith, length-index_advert_encode entries more w few))
