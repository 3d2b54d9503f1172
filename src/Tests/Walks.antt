-- ===== src/Tests/Walks.antt =====
-- The walk over two trees at concrete trees: a directory in which one file has new content.
use ferry.Prelude.{
  ℕ, ◌≡◌, ◌≢◌, ◌<◌, refl, subst, Bool, true, false, [], ◌∷◌, ◌++◌, Bytes, bytes_eq, bytes_lt, All,
  Result, ok, err, arith, if◌then◌else◌,
}
use ferry.Prelude.Int.{pos}
use ferry.Prelude.Utf8.{is_utf8}
use ferry.Store.Format.{BlobId, from_le_bytes}
use ferry.Store.Reader as Reader
use ferry.Store.Manifest as Manifest
use ferry.Store.Manifest.{ManifestError, EntryPayload, file, dir, TreeEntry, TreeNode}
use ferry.Store.Manifest.Parsing.{
  parse_tree_node, entries_parse, entry_parse, payload_parse, file_parse, symlink_parse, dir_parse,
  chunk_parse,
}
use ferry.Store.Diff.{ChangeSet, no_changes, state_of, chunks_eq, bool_eq}
use ferry.Store.Diff.Walk.{deep, compare_leaves, sort_all, sort_by_path, diff_roots}
use ferry.Store.Diff.Walk.Laws.{IsClassified, diff_roots-IsClassified}
use ferry.Store.Diff.Walk.Fuel.{IsRanked, diff_roots_ends}
use ferry.Tests.Data.{id_of}

abbrev same : Bytes → Bytes
same bytes = bytes

abbrev file_with : ℕ → TreeEntry
file_with b = record {
  name = b'a' ∷ [];
  exec = true;
  mtime_sec = pos 5;
  mtime_nsec = 6;
  payload = file 3 ((id_of b, 3) ∷ []);
}

abbrev dir_of : ℕ → TreeEntry
dir_of b = record {
  name = b'd' ∷ [];
  exec = false;
  mtime_sec = pos 0;
  mtime_nsec = 0;
  payload = dir (id_of b);
}

abbrev file_node : ℕ → Bytes
file_node b =
    1
    ∷ 0
    ∷ 0
    ∷ 0
    ∷ 0
    ∷ 1
    ∷ 0
    ∷ 0
    ∷ 0
    ∷ b'a'
    ∷ 1
    ∷ 5
    ∷ 0
    ∷ 0
    ∷ 0
    ∷ 0
    ∷ 0
    ∷ 0
    ∷ 0
    ∷ 6
    ∷ 0
    ∷ 0
    ∷ 0
    ∷ 3
    ∷ 0
    ∷ 0
    ∷ 0
    ∷ 0
    ∷ 0
    ∷ 0
    ∷ 0
    ∷ 1
    ∷ 0
    ∷ 0
    ∷ 0
    ∷ (id_of b ++ (3 ∷ 0 ∷ 0 ∷ 0 ∷ 0 ∷ 0 ∷ 0 ∷ 0 ∷ []))

abbrev dir_node : ℕ → Bytes
dir_node b =
    1
    ∷ 0
    ∷ 0
    ∷ 0
    ∷ 1
    ∷ 1
    ∷ 0
    ∷ 0
    ∷ 0
    ∷ b'd'
    ∷ 0
    ∷ 0
    ∷ 0
    ∷ 0
    ∷ 0
    ∷ 0
    ∷ 0
    ∷ 0
    ∷ 0
    ∷ 0
    ∷ 0
    ∷ 0
    ∷ 0
    ∷ id_of b

-- The tree that each answer stands for.
abbrev answer : (is_6 is_9 is_3 is_8 : Bool) → Result ℕ Bytes
answer is_6 is_9 is_3 is_8 =
    if is_6
    then ok (dir_node 3)
    else if is_9
    then ok (dir_node 8)
    else if is_3
    then ok (file_node 1)
    else if is_8
    then ok (file_node 2)
    else err 404

-- Two files, each in a directory.
abbrev trees : BlobId → Result ℕ Bytes
trees id =
    answer (bytes_eq id (id_of 6)) (bytes_eq id (id_of 9)) (bytes_eq id (id_of 3))
      (bytes_eq id (id_of 8))

abbrev rank : BlobId → ℕ
rank id = if bytes_eq id (id_of 6) then 1 else if bytes_eq id (id_of 9) then 1 else 0

abbrev tree_of : Bytes → Result ManifestError TreeNode
tree_of = parse_tree_node same

older_dir_parses : tree_of (dir_node 3) ≡ ok (dir_of 3 ∷ [])
unfolding parse_tree_node entries_parse Reader.◌>>=◌ Reader.mapping Reader.u32 Reader.times
    entry_parse Reader.u8 Reader.fail_if is_utf8 Reader.i64 payload_parse file_parse symlink_parse
    dir_parse chunk_parse Reader.u64 Reader.array Reader.expect_end Reader.pure Reader.take_n
    bytes_eq bytes_lt from_le_bytes Manifest.validate_entries Manifest.check_order
    Manifest.validate_each Manifest.validate_entry Manifest.validate_name Manifest.validate_payload
    Manifest.validate_target Manifest.is_bad_name Manifest.chunk_sum
older_dir_parses = refl

newer_dir_parses : tree_of (dir_node 8) ≡ ok (dir_of 8 ∷ [])
unfolding parse_tree_node entries_parse Reader.◌>>=◌ Reader.mapping Reader.u32 Reader.times
    entry_parse Reader.u8 Reader.fail_if is_utf8 Reader.i64 payload_parse file_parse symlink_parse
    dir_parse chunk_parse Reader.u64 Reader.array Reader.expect_end Reader.pure Reader.take_n
    bytes_eq bytes_lt from_le_bytes Manifest.validate_entries Manifest.check_order
    Manifest.validate_each Manifest.validate_entry Manifest.validate_name Manifest.validate_payload
    Manifest.validate_target Manifest.is_bad_name Manifest.chunk_sum
newer_dir_parses = refl

older_file_parses : tree_of (file_node 1) ≡ ok (file_with 1 ∷ [])
unfolding parse_tree_node entries_parse Reader.◌>>=◌ Reader.mapping Reader.u32 Reader.times
    entry_parse Reader.u8 Reader.fail_if is_utf8 Reader.i64 payload_parse file_parse symlink_parse
    dir_parse chunk_parse Reader.u64 Reader.array Reader.expect_end Reader.pure Reader.take_n
    bytes_eq bytes_lt from_le_bytes Manifest.validate_entries Manifest.check_order
    Manifest.validate_each Manifest.validate_entry Manifest.validate_name Manifest.validate_payload
    Manifest.validate_target Manifest.is_bad_name Manifest.chunk_sum
older_file_parses = refl

newer_file_parses : tree_of (file_node 2) ≡ ok (file_with 2 ∷ [])
unfolding parse_tree_node entries_parse Reader.◌>>=◌ Reader.mapping Reader.u32 Reader.times
    entry_parse Reader.u8 Reader.fail_if is_utf8 Reader.i64 payload_parse file_parse symlink_parse
    dir_parse chunk_parse Reader.u64 Reader.array Reader.expect_end Reader.pure Reader.take_n
    bytes_eq bytes_lt from_le_bytes Manifest.validate_entries Manifest.check_order
    Manifest.validate_each Manifest.validate_entry Manifest.validate_name Manifest.validate_payload
    Manifest.validate_target Manifest.is_bad_name Manifest.chunk_sum
newer_file_parses = refl

abbrev found : ChangeSet
found = record no_changes {
  content_modified =
      record {
        path = (b'd' ∷ []) ∷ (b'a' ∷ []) ∷ [];
        before = state_of (file_with 1);
        after = state_of (file_with 2);
      }
      ∷ [];
}

found_by_walk : diff_roots same trees 2 (id_of 6) (id_of 9) ≡ ok found
unfolding parse_tree_node entries_parse Reader.◌>>=◌ Reader.mapping Reader.u32 Reader.times
    entry_parse Reader.u8 Reader.fail_if is_utf8 Reader.i64 payload_parse file_parse symlink_parse
    dir_parse chunk_parse Reader.u64 Reader.array Reader.expect_end Reader.pure Reader.take_n
    bytes_eq bytes_lt from_le_bytes Manifest.validate_entries Manifest.check_order
    Manifest.validate_each Manifest.validate_entry Manifest.validate_name Manifest.validate_payload
    Manifest.validate_target Manifest.is_bad_name Manifest.chunk_sum diff_roots compare_leaves
    chunks_eq bool_eq state_of sort_all sort_by_path
found_by_walk = refl

diff_roots-IsClassified_example : IsClassified found
diff_roots-IsClassified_example =
    diff_roots-IsClassified same trees 2 (id_of 6) (id_of 9) found found_by_walk

-- The one tree that an identifier can stand for.
one_tree :
    (P : TreeEntry → Type 0) (raw bytes : Bytes) (e : TreeEntry) (es : TreeNode)
    → ◌≡◌ {A = Result ℕ Bytes} (ok raw) (ok bytes)
    → tree_of raw ≡ ok (e ∷ [])
    → tree_of bytes ≡ ok es
    → P e
    → All P es
one_tree P raw bytes e es g known p holds =
    let same_bytes : raw ≡ bytes = cc in
    let same_tree : ◌≡◌ {A = TreeNode} (e ∷ []) es = cc in subst (All P) same_tree (holds, tt)

-- The entry's directory has a rank below `n`.
abbrev Below : ℕ → TreeEntry → Type 0
Below n e = elim e.payload [ dir child ↦ rank child < n | _ ↦ Unit {0} ]

ranked_at :
    (is_6 is_9 is_3 is_8 : Bool) (bytes : Bytes) (es : TreeNode)
    → answer is_6 is_9 is_3 is_8 ≡ ok bytes
    → tree_of bytes ≡ ok es
    → All (Below (if is_6 then 1 else if is_9 then 1 else 0)) es
unfolding bytes_eq
ranked_at true is_9 is_3 is_8 bytes es g p =
    one_tree _ (dir_node 3) bytes _ es g older_dir_parses p (omega arith)
ranked_at false true is_3 is_8 bytes es g p =
    one_tree _ (dir_node 8) bytes _ es g newer_dir_parses p (omega arith)
ranked_at false false true is_8 bytes es g p =
    one_tree _ (file_node 1) bytes _ es g older_file_parses p tt
ranked_at false false false true bytes es g p =
    one_tree _ (file_node 2) bytes _ es g newer_file_parses p tt
ranked_at false false false false bytes es g p = absurd (cc)

ranked : IsRanked same trees rank
ranked id bytes es g p =
    ranked_at (bytes_eq id (id_of 6)) (bytes_eq id (id_of 9)) (bytes_eq id (id_of 3))
      (bytes_eq id (id_of 8)) bytes es g p

diff_roots_ends_example : diff_roots same trees 2 (id_of 6) (id_of 9) ≢ err deep
unfolding bytes_eq
diff_roots_ends_example =
    diff_roots_ends same trees rank 2 (id_of 6) (id_of 9) ranked (omega arith) (omega arith)
