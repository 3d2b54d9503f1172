-- ===== src/Tests/Trees.antt =====
-- Tree nodes, manifests and the diff at concrete data.
use ferry.Prelude.{
  ◌≡◌, ◌↔◌, refl, true, none, some, [], ◌∷◌, ◌++◌, Bytes, bytes_eq, bytes_lt, All, ok, arith,
}
use ferry.Prelude.Int.{pos}
use ferry.Store.Format.{from_le_bytes}
use ferry.Prelude.Utf8.{is_utf8}
use ferry.Store.Reader as Reader
use ferry.Store.Manifest as Manifest
use ferry.Store.Reader.{run}
use ferry.Store.Manifest.{
  EntryPayload, file, dir, symlink, TreeEntry, TreeNode, RootManifest, serialize_tree_node,
  sort_by_name, normalize_entry, validate_entries,
}
use ferry.Store.Manifest.Parsing.{
  parse_tree_node, entries_parse, entry_parse, payload_parse, file_parse, symlink_parse, dir_parse,
  chunk_parse,
}
use ferry.Store.Manifest.Root.{
  zero_id, serialize_manifest, parse_manifest, IsManifest, parse_manifest_iff,
}
use ferry.Store.Manifest.Entries.{node_bytes, IsNode}
use ferry.Store.Manifest.Validity.{IsSorted, IsValid}
use ferry.Store.Manifest.Tree.{
  parse_tree_node_iff, serialize-parse_tree_node, parse-serialize_tree_node, exec_symlink_panics,
}
use ferry.Tests.Data.{all_bytes_sound, id_of, folder_of}

-- Names without a combining character: normalising changes nothing.
abbrev same : Bytes → Bytes
same bytes = bytes

abbrev plain : TreeEntry
plain = record {
  name = b'a' ∷ [];
  exec = true;
  mtime_sec = pos 5;
  mtime_nsec = 6;
  payload = file 3 ((id_of 1, 3) ∷ []);
}

abbrev plain_bytes : Bytes
plain_bytes =
    0
    ∷ 1
    ∷ 0
    ∷ 0
    ∷ 0
    ∷ b'a'
    ∷ 1
    ∷ 5
    ∷ 0
    ∷ 0
    ∷ 0
    ∷ 0
    ∷ 0
    ∷ 0
    ∷ 0
    ∷ 6
    ∷ 0
    ∷ 0
    ∷ 0
    ∷ 3
    ∷ 0
    ∷ 0
    ∷ 0
    ∷ 0
    ∷ 0
    ∷ 0
    ∷ 0
    ∷ 1
    ∷ 0
    ∷ 0
    ∷ 0
    ∷ (id_of 1 ++ (3 ∷ 0 ∷ 0 ∷ 0 ∷ 0 ∷ 0 ∷ 0 ∷ 0 ∷ []))

abbrev plain_node : Bytes
plain_node = 1 ∷ 0 ∷ 0 ∷ 0 ∷ plain_bytes

parse_tree_node_iff_example : (parse_tree_node same plain_node ≡ ok (plain ∷ [])) ↔ (
    (plain_node ≡ node_bytes (plain ∷ []))
    × IsNode (plain ∷ [])
    × IsSorted (plain ∷ [])
    × All (IsValid same) (plain ∷ []))
parse_tree_node_iff_example =
    parse_tree_node_iff same plain_node (plain ∷ []) (omega arith) (all_bytes_sound plain_node refl)

plain_parses : parse_tree_node same plain_node ≡ ok (plain ∷ [])
unfolding parse_tree_node entries_parse Reader.◌>>=◌ Reader.mapping Reader.u32 Reader.times
    entry_parse Reader.u8 Reader.fail_if is_utf8 Reader.i64 payload_parse file_parse symlink_parse
    dir_parse chunk_parse Reader.u64 Reader.array Reader.expect_end Reader.pure Reader.take_n
    bytes_eq bytes_lt from_le_bytes Manifest.validate_entries Manifest.check_order
    Manifest.validate_each Manifest.validate_entry Manifest.validate_name Manifest.validate_payload
    Manifest.validate_target Manifest.is_bad_name Manifest.chunk_sum
plain_parses = refl

serialize-parse_tree_node_example : serialize_tree_node same (plain ∷ []) ≡ some plain_node
serialize-parse_tree_node_example =
    serialize-parse_tree_node same plain_node (plain ∷ []) (omega arith)
      (all_bytes_sound plain_node refl) (tt, tt) plain_parses

plain_valid : IsNode (plain ∷ [])
plain_valid =
    let (e, w, sorted, valid) =
      (parse_tree_node_iff same plain_node (plain ∷ []) (omega arith)
          (all_bytes_sound plain_node refl)).0
        plain_parses in
    w

parse-serialize_tree_node_example : parse_tree_node same plain_node ≡ ok (plain ∷ [])
unfolding sort_by_name normalize_entry
parse-serialize_tree_node_example =
    parse-serialize_tree_node same (plain ∷ []) plain_node serialize-parse_tree_node_example
      plain_valid (omega arith) (all_bytes_sound plain_node refl)

-- A symlink with the exec flag.
abbrev link : TreeEntry
link = record {
  name = b'l' ∷ [];
  exec = true;
  mtime_sec = pos 5;
  mtime_nsec = 6;
  payload = symlink (b't' ∷ []);
}

abbrev link_node : Bytes
link_node =
    1 ∷ 0 ∷ 0 ∷ 0 ∷ 2 ∷ 1 ∷ 0 ∷ 0 ∷ 0 ∷ b'l' ∷ 1 ∷ 5 ∷ 0 ∷ 0 ∷ 0 ∷ 0 ∷ 0 ∷ 0 ∷ 0 ∷ 6 ∷ 0 ∷ 0 ∷ 0 ∷ 1
    ∷ 0 ∷ 0 ∷ 0 ∷ b't' ∷ []

link_parses : parse_tree_node same link_node ≡ ok (link ∷ [])
unfolding parse_tree_node entries_parse Reader.◌>>=◌ Reader.mapping Reader.u32 Reader.times
    entry_parse Reader.u8 Reader.fail_if is_utf8 Reader.i64 payload_parse file_parse symlink_parse
    dir_parse chunk_parse Reader.u64 Reader.array Reader.expect_end Reader.pure Reader.take_n
    bytes_eq bytes_lt from_le_bytes Manifest.validate_entries Manifest.check_order
    Manifest.validate_each Manifest.validate_entry Manifest.validate_name Manifest.validate_payload
    Manifest.validate_target Manifest.is_bad_name Manifest.chunk_sum
link_parses = refl

exec_symlink_panics_example : serialize_tree_node same (link ∷ []) ≡ none
exec_symlink_panics_example =
    exec_symlink_panics same link_node link (b't' ∷ []) (omega arith)
      (all_bytes_sound link_node refl) refl refl link_parses

abbrev root : RootManifest
root = record {
  folder_id = folder_of 1;
  device_id = id_of 2;
  created_sec = pos 7;
  created_nsec = 8;
  root_tree_id = id_of 3;
  parent_manifest_id = id_of 0;
}

abbrev root_bytes : Bytes
root_bytes =
    folder_of 1
    ++ id_of 2
    ++ (7 ∷ 0 ∷ 0 ∷ 0 ∷ 0 ∷ 0 ∷ 0 ∷ 0 ∷ 8 ∷ 0 ∷ 0 ∷ 0 ∷ (id_of 3 ++ id_of 0 ++ id_of 0))

parse_manifest_iff_example :
    (run parse_manifest root_bytes ≡ ok root)
    ↔ ((root_bytes ≡ serialize_manifest root) × IsManifest root)
parse_manifest_iff_example =
    parse_manifest_iff root_bytes root (omega arith) (all_bytes_sound root_bytes refl)

root_parses : run parse_manifest root_bytes ≡ ok root
unfolding parse_manifest Reader.◌>>=◌ Reader.mapping Reader.u32 Reader.fail_if Reader.i64
    Reader.array Reader.expect_end Reader.pure Reader.take_n bytes_eq from_le_bytes zero_id
root_parses = refl
