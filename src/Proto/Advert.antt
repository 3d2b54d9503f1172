-- ===== src/Proto/Advert.antt =====
-- crates/ferry-proto/src/codec.rs: `IndexAdvert`, a table of index rows with a flag behind it.
pub mod Laws
use ferry.Prelude.{
  ℕ, ◌-◌, Bool, true, false, List, [], ◌∷◌, ◌++◌, Bytes, byte_at, take, length, ◌==◌, Result, ok,
  err, if◌then◌else◌,
}
use ferry.Store.Reader.{run}
use ferry.Store.Index.{IndexEntry, IndexError, table_plain, table_parse}
use ferry.Proto.Error.{ProtoError, violation}
use ferry.Proto.Transfer.{is_empty}

pub record IndexAdvert : Type 0 where
  pub entries : List IndexEntry
  pub more : Bool

-- `IndexAdvert::MAX_ROWS`
abbrev pub max_rows : ℕ
max_rows = 2048

-- `u8::from(more)`
unfoldable pub flag_byte : Bool → ℕ
flag_byte false = 0
flag_byte true = 1

unfoldable pub index_advert_encode : IndexAdvert → Bytes
unfolding flag_byte
index_advert_encode a = table_plain a.entries ++ (flag_byte a.more ∷ [])

-- The `match` on the last byte.
unfoldable pub advert_of_flag : List IndexEntry → ℕ → Result ProtoError IndexAdvert
advert_of_flag entries flag =
    if flag == 0
    then ok (record { entries = entries; more = false })
    else if flag == 1
    then ok (record { entries = entries; more = true })
    else err (violation "advert flag invalid")

-- What follows `table_parse`: its error is replaced.
unfoldable pub advert_of_table :
    Result IndexError (List IndexEntry) → ℕ → Result ProtoError IndexAdvert
unfolding advert_of_flag
advert_of_table (err _) flag = err (violation "advert table malformed")
advert_of_table (ok entries) flag = advert_of_flag entries flag

unfoldable pub index_advert_parse : Bytes → Result ProtoError IndexAdvert
unfolding is_empty advert_of_table
index_advert_parse payload =
    let last = length payload - 1 in
    if is_empty payload
    then err (violation "advert empty")
    else advert_of_table (run table_parse (take last payload)) (byte_at payload last)
