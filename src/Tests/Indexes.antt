-- ===== src/Tests/Indexes.antt =====
-- The index table and the advert at concrete rows.
use ferry.Prelude.{
  ℕ, ◌≡◌, ◌↔◌, ◌<◌, refl, true, some, List, [], ◌∷◌, ◌++◌, Bytes, All, ok, arith, zero, suc,
  replicate, IsByte, length, bytes_eq, bytes_lt, Bool, not, ◌&&◌, keep,
}
use ferry.Store.Format.{data_chunk, blob_to_u8, le_bytes}
use ferry.Store.Reader.{run, usize_limit}
use ferry.Store.Index.{
  IndexEntry, IsEntry, entry_key, sort_by_key, dedup, dedup_after, same_blob, put_rows, table_plain,
  table_parse,
}
use ferry.Store.Index.Laws.{IsTable}
use ferry.Store.Locations.{
  no_locations, blob_key, entry_eq, or_empty, rows_at, add_row, merge, entry_at, entries_at,
  candidates, find, resolve,
}
use ferry.Store.Locations.Laws.{is_on, firsts, candidates-merge, resolve-merge}
use ferry.Prelude.Maps.{lookup, insert}
use ferry.Store.Index.Laws.Order.{find_row, find_row-dedup}
use ferry.Store.Index.Laws.Tables.{table_parse_iff}
use ferry.Proto.Advert.{index_advert_encode, index_advert_parse}
use ferry.Proto.Advert.Laws.{index_advert_parse-encode}
use ferry.Tests.Data.{all_bytes_sound, id_of}

abbrev row : ℕ → ℕ → IndexEntry
row id pack = record {
  kind = data_chunk;
  id = id_of id;
  pack = id_of pack;
  plain_off = 0;
  plain_len = 9;
}

-- Two rows on one blob, out of order.
abbrev pub rows : List IndexEntry
rows = row 2 7 ∷ row 1 7 ∷ row 2 8 ∷ []

pub row-IsEntry : (id pack : ℕ) → id < 256 → pack < 256 → IsEntry (row id pack)
row-IsEntry id pack h k = record {
  id_length = refl;
  id_bytes = same_bytes id h 32;
  pack_length = refl;
  pack_bytes = same_bytes pack k 32;
  off_fits = omega arith;
  len_fits = omega arith;
}
  where
    same_bytes : (b : ℕ) → b < 256 → (n : ℕ) → All IsByte (replicate n b)
    same_bytes b h zero = tt
    same_bytes b h (suc n) = (h, same_bytes b h n)

pub rows-IsEntry : All IsEntry rows
rows-IsEntry = (
  row-IsEntry 2 7 (omega arith) (omega arith),
  (row-IsEntry 1 7 (omega arith) (omega arith), (row-IsEntry 2 8 (omega arith) (omega arith), tt)),
)

abbrev le8 : ℕ → Bytes
le8 n = n ∷ 0 ∷ 0 ∷ 0 ∷ 0 ∷ 0 ∷ 0 ∷ 0 ∷ []

abbrev table : Bytes
table = 1 ∷ 0 ∷ 0 ∷ 0 ∷ 1 ∷ (id_of 1 ++ (id_of 7 ++ (le8 0 ++ le8 9)))

table_parse_iff_example :
    (run table_parse table ≡ ok (row 1 7 ∷ []))
    ↔ ((table ≡ table_plain (row 1 7 ∷ [])) × IsTable (row 1 7 ∷ []))
table_parse_iff_example =
    table_parse_iff table (row 1 7 ∷ []) (omega arith) (all_bytes_sound table refl)

find_row-dedup_example :
    find_row (entry_key (row 2 7)) (dedup (sort_by_key rows)) ≡ find_row (entry_key (row 2 7)) rows
find_row-dedup_example = find_row-dedup (entry_key (row 2 7)) rows

first_row_kept : find_row (entry_key (row 2 7)) rows ≡ some (row 2 7)
unfolding find_row entry_key bytes_eq blob_to_u8
first_row_kept = refl

advert_length : length (index_advert_encode (record { entries = rows; more = true })) < usize_limit
unfolding index_advert_encode table_plain put_rows dedup sort_by_key bytes_lt entry_key blob_to_u8
    dedup_after same_blob bytes_eq le_bytes
advert_length = omega arith

index_advert_parse-encode_example :
    index_advert_parse (index_advert_encode (record { entries = rows; more = true }))
    ≡ ok (record { entries = dedup (sort_by_key rows); more = true })
index_advert_parse-encode_example =
    index_advert_parse-encode (record { entries = rows; more = true }) rows-IsEntry (omega arith)
      advert_length

-- The pack 7 is gone; a row is merged twice.
abbrev merged : List IndexEntry
merged = row 2 7 ∷ row 1 7 ∷ row 2 7 ∷ row 2 8 ∷ []

abbrev not_seven : Bytes → Bool
not_seven pack = not (bytes_eq pack (id_of 7))

second_pack : resolve not_seven data_chunk (id_of 2) (merge merged no_locations) ≡ some (row 2 8)
unfolding resolve find candidates merge add_row entry_eq same_blob entry_key entries_at entry_at
    rows_at or_empty insert lookup bytes_eq bytes_lt blob_to_u8
second_pack = refl

resolve-merge_example :
    resolve not_seven data_chunk (id_of 2) (merge merged no_locations)
    ≡ find (λ e. is_on (blob_key data_chunk (id_of 2)) e && not_seven e.pack) merged
resolve-merge_example = resolve-merge not_seven data_chunk (id_of 2) merged

candidates-merge_example :
    candidates data_chunk (id_of 2) (merge merged no_locations)
    ≡ keep (is_on (blob_key data_chunk (id_of 2))) (firsts [] merged)
candidates-merge_example = candidates-merge data_chunk (id_of 2) merged
