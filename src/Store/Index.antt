-- ===== src/Store/Index.antt =====
-- crates/ferry-store/src/index.rs: the rows of a pack index and the table of them, which an index
-- container holds sealed and an advert sends.
pub mod Laws
use Prim.Native.String.{String}
use ferry.Prelude.{
  ℕ, zero, suc, ◌<◌, ◌^◌, ◌≡◌, Bool, true, false, Option, none, some, List, [], ◌∷◌, ◌++◌, Bytes,
  All, IsByte, bytes_eq, bytes_lt, length, not, if◌then◌else◌,
}
use ferry.Store.Format.{
  BlobId, BlobKind, PackId, FormatError, blob_of_u8, blob_to_u8, put_u8, put_u32, put_u64,
  put_bytes,
}
use ferry.Store.Reader.{
  Parser, ◌>>=◌, ◌>>◌, pure, fail_if, or_fail, mapping, u8, u32, u64, array, expect_end,
}

pub data IndexError : Type 0 where
  not_an_index : IndexError
  corrupt : String → IndexError
  unsorted : IndexError
  reserved_nonzero : IndexError
  format : FormatError → IndexError

pub record IndexEntry : Type 0 where
  pub kind : BlobKind
  pub id : BlobId
  pub pack : PackId
  pub plain_off : ℕ
  pub plain_len : ℕ

-- The pair `(kind.to_u8(), id)`, compared first by its byte, is a byte string.
unfoldable pub entry_key : IndexEntry → Bytes
entry_key e = blob_to_u8 e.kind ∷ e.id

-- `sort_by` is stable: a row goes behind those that it is not smaller than.
unfoldable pub insert_by_key : IndexEntry → List IndexEntry → List IndexEntry
insert_by_key e [] = e ∷ []
insert_by_key e (f ∷ fs) =
    if bytes_lt (entry_key f) (entry_key e) then f ∷ insert_by_key e fs else e ∷ f ∷ fs

unfoldable pub sort_by_key : List IndexEntry → List IndexEntry
unfolding insert_by_key
sort_by_key [] = []
sort_by_key (e ∷ es) = insert_by_key e (sort_by_key es)

-- `a.kind == b.kind && a.id == b.id`
unfoldable pub same_blob : IndexEntry → IndexEntry → Bool
same_blob a b = bytes_eq (entry_key a) (entry_key b)

-- `dedup_by` keeps the first of each run of rows on one blob; `e` is the row kept last.
unfoldable pub dedup_after : IndexEntry → List IndexEntry → List IndexEntry
dedup_after e [] = e ∷ []
dedup_after e (f ∷ fs) = if same_blob f e then dedup_after e fs else e ∷ dedup_after f fs

unfoldable pub dedup : List IndexEntry → List IndexEntry
dedup [] = []
dedup (e ∷ es) = dedup_after e es

unfoldable pub put_rows : Bytes → List IndexEntry → Bytes
unfolding put_u8 put_bytes put_u64
put_rows out [] = out
put_rows out (e ∷ es) =
    let out = put_bytes (put_bytes (put_u8 out (blob_to_u8 e.kind)) e.id) e.pack in
    put_rows (put_u64 (put_u64 out e.plain_off) e.plain_len) es

unfoldable pub table_plain : List IndexEntry → Bytes
unfolding put_u32
table_plain entries =
    let sorted = dedup (sort_by_key entries) in put_rows (put_u32 [] (length sorted)) sorted

-- `.map_err(|_| IndexError::Corrupt(why))`
abbrev pub or_corrupt : {A : Type 0} → String → Parser FormatError A → Parser IndexError A
or_corrupt why = mapping (λ _. corrupt why)

-- The reads of one row, before its order is tested.
unfoldable pub row_parse : Parser IndexError IndexEntry
row_parse = do
  kb ← or_corrupt "truncated" u8
  kind ← or_fail (blob_of_u8 kb) (corrupt "unknown blob kind")
  id ← or_corrupt "truncated" (array 32)
  pack ← or_corrupt "truncated" (array 32)
  plain_off ← or_corrupt "truncated" u64
  plain_len ← or_corrupt "truncated" u64
  pure (record { kind = kind; id = id; pack = pack; plain_off = plain_off; plain_len = plain_len })

-- `prev` is `Some(p)` with `p >= cur`.
unfoldable pub out_of_order : Option Bytes → Bytes → Bool
out_of_order none cur = false
out_of_order (some p) cur = not (bytes_lt p cur)

-- The loop of `table_parse`; `kb` is the byte of `kind`, so that `cur` is the key of the row.
unfoldable pub rows_parse : ℕ → Option Bytes → Parser IndexError (List IndexEntry)
unfolding ◌>>=◌ pure fail_if out_of_order
rows_parse zero prev = pure []
rows_parse (suc n) prev = row_parse >>= λ e.
    fail_if (out_of_order prev (entry_key e)) unsorted
    >> (rows_parse n (some (entry_key e)) >>= λ es. pure (e ∷ es))

unfoldable pub table_parse : Parser IndexError (List IndexEntry)
table_parse = do
  count ← or_corrupt "truncated" u32
  out ← rows_parse count none
  or_corrupt "trailing bytes" expect_end
  pure out

-- What the fields of a row can hold.
pub record IsEntry (e : IndexEntry) : Type 0 where
  pub id_length : length e.id ≡ 32
  pub id_bytes : All IsByte e.id
  pub pack_length : length e.pack ≡ 32
  pub pack_bytes : All IsByte e.pack
  pub off_fits : e.plain_off < 2 ^ 64
  pub len_fits : e.plain_len < 2 ^ 64
