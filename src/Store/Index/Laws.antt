-- ===== src/Store/Index/Laws.antt =====
-- The table of an index is written and parsed.
pub mod Order
pub mod Tables
use ferry.Prelude.{
  ℕ, zero, suc, ◌+◌, ◌<◌, ◌^◌, ◌≡◌, ◌↔◌, refl, sym, ap, subst, ◌∙◌, Bool, true, false, not, Option,
  none, some, List, [], ◌∷◌, ◌++◌, append_assoc, append-nil, Bytes, IsByte, All, bytes_lt, length,
  ok, arith, Bool-cases, inl, inr,
}
use ferry.Store.Format.{blob_to_u8, le_bytes}
use ferry.Store.Format.Laws.{blob_of_u8-blob_to_u8, blob_of_u8-eq-some}
use ferry.Store.Reader.{◌>>=◌, ◌>>◌, pure, u8, u32, u64, array, usize_limit, run}
use ferry.Store.Reader.Laws.{
  Reads, Parses, mapping-Reads, mapping-Parses, pure-Reads, pure-Parses, >>=-Reads, >>=-Parses,
}
use ferry.Store.Reader.Laws.Primitives.{
  Word, Slice, u8-Reads, u8-Parses, u32-Reads, u32-Parses, u64-Reads, u64-Parses, array-Reads,
  array-Parses,
}
use ferry.Store.Reader.Laws.Whole.{
  Codec, encode_all, >>=-Accepts, >>=-Exact, end-Accepts, end_pure-Exact, pure-Accepts,
  fail_if-Reads, fail_if-Parses, or_fail-Reads, or_fail-Parses, run_iff, run-Accepts,
}
use ferry.Store.Index.{
  IndexEntry, IsEntry, entry_key, put_rows, table_plain, row_parse, out_of_order, rows_parse,
  table_parse, dedup, sort_by_key, unsorted,
}

-- The bytes of one row.
abbrev pub row_bytes : IndexEntry → Bytes
row_bytes e =
    (blob_to_u8 e.kind ∷ [])
    ++ (e.id ++ (e.pack ++ (le_bytes 8 e.plain_off ++ (le_bytes 8 e.plain_len ++ []))))

row-Reads : (e : IndexEntry) → IsEntry e → Reads row_parse (row_bytes e) e
unfolding row_parse
row-Reads e w =
    >>=-Reads _ (blob_to_u8 e.kind ∷ []) _
      (mapping-Reads _ (blob_to_u8 e.kind ∷ []) (u8-Reads (blob_to_u8 e.kind)))
      (>>=-Reads _ [] _ (or_fail-Reads _ _ (blob_of_u8-blob_to_u8 e.kind)) (
        >>=-Reads _ e.id _ (mapping-Reads _ e.id (array-Reads 32 e.id w.id_length)) (
          >>=-Reads _ e.pack _ (mapping-Reads _ e.pack (array-Reads 32 e.pack w.pack_length)) (
            >>=-Reads _ (le_bytes 8 e.plain_off) _
              (mapping-Reads _ (le_bytes 8 e.plain_off) (u64-Reads e.plain_off w.off_fits))
              (>>=-Reads _ (le_bytes 8 e.plain_len) []
                (mapping-Reads _ (le_bytes 8 e.plain_len) (u64-Reads e.plain_len w.len_fits))
                (pure-Reads e))))))

row-Parses : Parses row_parse (λ e ys. (ys ≡ row_bytes e) × IsEntry e)
unfolding row_parse
row-Parses = >>=-Parses _ _ _ _ (mapping-Parses _ u8 _ u8-Parses) λ kb y1 p1.
    >>=-Parses _ _ _ _ (or_fail-Parses _ _) λ kind y2 p2.
      >>=-Parses _ _ (Slice 32) _ (mapping-Parses _ (array 32) (Slice 32) (array-Parses 32))
        λ id y3 p3.
          >>=-Parses _ _ (Slice 32) _ (mapping-Parses _ (array 32) (Slice 32) (array-Parses 32))
            λ pack y4 p4.
              >>=-Parses _ _ (Word 8) _ (mapping-Parses _ u64 (Word 8) u64-Parses) λ off y5 p5.
                >>=-Parses _ _ (Word 8) _ (mapping-Parses _ u64 (Word 8) u64-Parses) λ len y6 p6.
                  pure-Parses
                    (record { kind = kind; id = id; pack = pack; plain_off = off; plain_len = len })
                    _
                    (
                      cc (p1.0, p2.0, p3.0, p4.0, p5.0, p6.0, blob_of_u8-eq-some kb p2.1),
                      record {
                        id_length = p3.1;
                        id_bytes = p3.2;
                        pack_length = p4.1;
                        pack_bytes = p4.2;
                        off_fits = omega (arith, p5.1);
                        len_fits = omega (arith, p6.1);
                      },
                    )

-- Each key is greater than the one before, and the first than `prev`.
abbrev pub IsAscending : Option Bytes → List IndexEntry → Type 0
IsAscending prev [] = Unit {0}
IsAscending prev (e ∷ es) =
    (out_of_order prev (entry_key e) ≡ false) × IsAscending (some (entry_key e)) es

rows-Reads :
    (prev : Option Bytes) (es : List IndexEntry)
    → All IsEntry es
    → IsAscending prev es
    → Reads (rows_parse (length es) prev) (encode_all row_bytes es) es
unfolding rows_parse
rows-Reads prev [] w s = pure-Reads []
rows-Reads prev (e ∷ es) w s =
    >>=-Reads _ (row_bytes e) (encode_all row_bytes es) (row-Reads e w.0) (
      >>=-Reads _ [] (encode_all row_bytes es) (fail_if-Reads _ unsorted s.0) (
        subst
          (λ bs.
            Reads (rows_parse (length es) (some (entry_key e)) >>= λ fs. pure (e ∷ fs)) bs (e ∷ es))
          (append-nil (encode_all row_bytes es))
          (>>=-Reads _ (encode_all row_bytes es) [] (rows-Reads (some (entry_key e)) es w.1 s.1)
            (pure-Reads (e ∷ es)))))

-- What `n` rows parsed behind `prev` are.
abbrev Rows : ℕ → Option Bytes → List IndexEntry → Bytes → Type 0
Rows n prev es ys =
    (ys ≡ encode_all row_bytes es) × (length es ≡ n) × All IsEntry es × IsAscending prev es

Rows-Parses : (n : ℕ) (prev : Option Bytes) → Parses (rows_parse n prev) (Rows n prev)
unfolding rows_parse
Rows-Parses zero prev = pure-Parses [] _ (refl, refl, tt, tt)
Rows-Parses (suc n) prev = >>=-Parses row_parse _ _ _ row-Parses λ e y1 p1.
    >>=-Parses _ _ _ _ (fail_if-Parses _ _) λ _ y2 p2.
      >>=-Parses (rows_parse n (some (entry_key e))) _ _ _ (Rows-Parses n (some (entry_key e)))
        λ es y3 p3. pure-Parses (e ∷ es) _ (
          ap (λ t. y1 ++ (y2 ++ t)) (append-nil y3 ∙ p3.0)
              ∙ ap (λ t. y1 ++ (t ++ encode_all row_bytes es)) p2.0
              ∙ ap (λ t. t ++ encode_all row_bytes es) p1.0,
          ap suc p3.1,
          (p1.1, p3.2),
          (p2.1, p3.3),
        )

-- A table that `parse` can return.
pub record IsTable (es : List IndexEntry) : Type 0 where
  pub few : length es < 2 ^ 32
  pub each : All IsEntry es
  pub ascending : IsAscending none es

abbrev pub table_bytes : List IndexEntry → Bytes
table_bytes es = le_bytes 4 (length es) ++ (encode_all row_bytes es ++ [])

IsTable-Codec : Codec table_parse table_bytes IsTable
unfolding table_parse
IsTable-Codec = record {
  accepts = λ es w.
      >>=-Accepts _ (le_bytes 4 (length es)) _
        (mapping-Reads _ (le_bytes 4 (length es)) (u32-Reads (length es) w.few))
        (>>=-Accepts _ (encode_all row_bytes es) _ (rows-Reads none es w.each w.ascending)
          (end-Accepts _ _ (pure-Accepts es [])));
  exact = >>=-Exact _ _ (Word 4) _ (mapping-Parses _ u32 (Word 4) u32-Parses) λ n y1 p1.
      >>=-Exact _ _ (Rows n none) _ (Rows-Parses n none) λ es y2 p2. end_pure-Exact _ es _ (
        cc (p1.0, p2.0, p2.1),
        record { few = omega (arith, p1.1, p2.1); each = p2.2; ascending = p2.3 },
      );
}

-- A slice parses as the table `es` exactly when it is the bytes of `es`, with the keys ascending.
pub table_parse_bytes :
    (bs : Bytes) (es : List IndexEntry)
    → length bs < usize_limit
    → All IsByte bs
    → (run table_parse bs ≡ ok es) ↔ ((bs ≡ table_bytes es) × IsTable es)
table_parse_bytes = run_iff table_parse table_bytes IsTable IsTable-Codec

-- The bytes of a table parse as the table: that they are bytes is not asked.
pub table_parse-table_bytes :
    (es : List IndexEntry)
    → IsTable es
    → length (table_bytes es) < usize_limit
    → run table_parse (table_bytes es) ≡ ok es
table_parse-table_bytes es w fits =
    run-Accepts table_parse (table_bytes es) es (IsTable-Codec.accepts es w) fits

put_rows_lem :
    (out : Bytes) (es : List IndexEntry) → put_rows out es ≡ out ++ encode_all row_bytes es
unfolding put_rows
put_rows_lem out [] = sym (append-nil out)
put_rows_lem out (e ∷ es) =
    put_rows_lem
      (((((out ++ (blob_to_u8 e.kind ∷ [])) ++ e.id) ++ e.pack) ++ le_bytes 8 e.plain_off)
        ++ le_bytes 8 e.plain_len)
      es
    ∙ simp (append_assoc, append-nil)

pub table_plain_lem : (es : List IndexEntry) → table_plain es ≡ table_bytes (dedup (sort_by_key es))
unfolding table_plain
table_plain_lem es =
    put_rows_lem (le_bytes 4 (length (dedup (sort_by_key es)))) (dedup (sort_by_key es))
    ∙ simp append-nil
