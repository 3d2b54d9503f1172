-- ===== src/Store/Manifest/Parsing.antt =====
-- crates/ferry-store/src/manifest.rs: `parse_tree_node`.
use Prim.Native.Nat.{bit_and}
use ferry.Prelude.{ℕ, not, Bytes, ◌==◌, if◌then◌else◌, Result, ok}
use ferry.Prelude.Utf8.{is_utf8}
use ferry.Prelude.Results as R
use ferry.Store.Format.{FormatError}
use ferry.Store.Reader.{
  Parser, ◌>>=◌, ◌>>◌, pure, fail, fail_if, mapping, times, take_n, u8, u32, u64, i64, array,
  expect_end, run,
}
use ferry.Store.Manifest.{
  ManifestError, from_format, not_utf8, reserved_bits_set, unknown_entry_type, bad_symlink_target,
  Chunk, EntryPayload, file, dir, symlink, TreeEntry, TreeNode, validate_entries,
}

-- `r.f()?` under the conversion of the error
abbrev pub or_corrupt : {A : Type 0} → Parser FormatError A → Parser ManifestError A
or_corrupt = mapping from_format

unfoldable pub chunk_parse : Parser ManifestError Chunk
chunk_parse = do id ← or_corrupt (array 32); len ← or_corrupt u64; pure (id, len)

unfoldable pub file_parse : Parser ManifestError EntryPayload
file_parse = do
  size ← or_corrupt u64
  chunk_count ← or_corrupt u32
  chunks ← times chunk_count chunk_parse
  pure (file size chunks)

unfoldable pub dir_parse : Parser ManifestError EntryPayload
dir_parse = do child ← or_corrupt (array 32); pure (dir child)

unfoldable pub symlink_parse : Parser ManifestError EntryPayload
symlink_parse = do
  target_len ← or_corrupt u32
  t ← or_corrupt (take_n target_len)
  fail_if (not (is_utf8 t)) bad_symlink_target
  pure (symlink t)

unfoldable pub payload_parse : ℕ → Parser ManifestError EntryPayload
payload_parse type_byte =
    if type_byte == 0
    then file_parse
    else if type_byte == 1
    then dir_parse
    else if type_byte == 2
    then symlink_parse
    else fail (unknown_entry_type type_byte)

-- The body of the loop.
unfoldable pub entry_parse : Parser ManifestError TreeEntry
entry_parse = do
  type_byte ← or_corrupt u8
  name_len ← or_corrupt u32
  name ← or_corrupt (take_n name_len)
  fail_if (not (is_utf8 name)) not_utf8
  flags ← or_corrupt u8
  fail_if (not (bit_and flags 0xfe == 0)) reserved_bits_set
  mtime_sec ← or_corrupt i64
  mtime_nsec ← or_corrupt u32
  payload ← payload_parse type_byte
  pure (record {
    name = name;
    exec = not (bit_and flags 1 == 0);
    mtime_sec = mtime_sec;
    mtime_nsec = mtime_nsec;
    payload = payload;
  })

-- Up to `expect_end`.
unfoldable pub entries_parse : Parser ManifestError TreeNode
entries_parse = do
  count ← or_corrupt u32
  entries ← times count entry_parse
  or_corrupt expect_end
  pure entries

module _ (nfc : Bytes → Bytes) where
  -- The entries are validated when the slice has been read to its end.
  unfoldable pub parse_tree_node : Bytes → Result ManifestError TreeNode
  parse_tree_node bytes =
      R.◌>>=◌ (run entries_parse bytes)
        (λ entries. R.◌>>=◌ (validate_entries nfc entries) (λ _. ok entries))
