-- ===== src/Store/Locations.antt =====
-- crates/ferry-store/src/index.rs: `LocationTable`, the rows of all the indexes that a store has read,
-- with the rows of each blob at hand. A `(BlobKind, BlobId)` is the byte string `entry_key`, a HashMap a
-- list in ascending order of its keys, and the set `seen` the list of what was added to it.
pub mod Laws
use ferry.Prelude.{
  ℕ, zero, suc, Bool, ◌&&◌, Option, none, some, List, [], ◌∷◌, ◌++◌, Bytes, bytes_eq, length, any,
  ◌==◌, if◌then◌else◌,
}
use ferry.Prelude.Maps.{lookup, insert}
use ferry.Store.Format.{BlobId, BlobKind, PackId, blob_to_u8}
use ferry.Store.Index.{IndexEntry, entry_key, same_blob}

pub record LocationTable : Type 0 where
  pub entries : List IndexEntry
  pub seen : List IndexEntry
  pub by_blob : List (Bytes × List ℕ)

abbrev pub no_locations : LocationTable
no_locations = record { entries = []; seen = []; by_blob = [] }

abbrev pub blob_key : BlobKind → BlobId → Bytes
blob_key kind id = blob_to_u8 kind ∷ id

-- The derived `==` of rows.
unfoldable pub entry_eq : IndexEntry → IndexEntry → Bool
unfolding same_blob
entry_eq a b =
    same_blob a b
    && (bytes_eq a.pack b.pack && (a.plain_off == b.plain_off && a.plain_len == b.plain_len))

unfoldable pub or_empty : Option (List ℕ) → List ℕ
or_empty none = []
or_empty (some rows) = rows

-- `self.by_blob.get(&key)`, with no rows for a key that is missing.
unfoldable pub rows_at : Bytes → List (Bytes × List ℕ) → List ℕ
unfolding lookup or_empty
rows_at key by_blob = or_empty (lookup key by_blob)

-- A row that was not seen before.
unfoldable pub add_row : IndexEntry → LocationTable → LocationTable
unfolding insert entry_key rows_at
add_row e t = record {
  entries = t.entries ++ (e ∷ []);
  seen = e ∷ t.seen;
  by_blob =
      insert (entry_key e) (rows_at (entry_key e) t.by_blob ++ (length t.entries ∷ [])) t.by_blob;
}

unfoldable pub merge : List IndexEntry → LocationTable → LocationTable
unfolding add_row entry_eq
merge [] t = t
merge (e ∷ incoming) t =
    if any (entry_eq e) t.seen then merge incoming t else merge incoming (add_row e t)

-- `Vec::get`
unfoldable pub entry_at : List IndexEntry → ℕ → Option IndexEntry
entry_at [] i = none
entry_at (e ∷ es) zero = some e
entry_at (e ∷ es) (suc i) = entry_at es i

-- The `filter_map` over the rows.
unfoldable pub entries_at : List IndexEntry → List ℕ → List IndexEntry
unfolding entry_at
entries_at es [] = []
entries_at es (i ∷ rows) = elim (entry_at es i) [
  | none ↦ entries_at es rows
  | some e ↦ e ∷ entries_at es rows
]

unfoldable pub candidates : BlobKind → BlobId → LocationTable → List IndexEntry
unfolding entries_at rows_at
candidates kind id t = entries_at t.entries (rows_at (blob_key kind id) t.by_blob)

-- `Iterator::find`
unfoldable pub find : (IndexEntry → Bool) → List IndexEntry → Option IndexEntry
find p [] = none
find p (e ∷ es) = if p e then some e else find p es

unfoldable pub resolve : (PackId → Bool) → BlobKind → BlobId → LocationTable → Option IndexEntry
unfolding find candidates
resolve pack_exists kind id t = find (λ e. pack_exists e.pack) (candidates kind id t)
