-- ===== src/Store/Manifest.antt =====
-- crates/ferry-store/src/manifest.rs: tree nodes and root manifests, their validation, and their
-- bytes. A `String` is its UTF-8 bytes. `nfc`, the normalisation of the crate unicode_normalization,
-- is a parameter.
pub mod Parsing
pub mod Root
pub mod Payloads
pub mod Entries
pub mod Validity
pub mod Tree
use Prim.Native.String.{String}
use Prim.Native.Nat.{bit_and}
use ferry.Prelude.{
  ℕ, zero, suc, ◌+◌, ◌%◌, ◌^◌, ◌<◌, ◌≡◌, Bool, true, false, not, ◌&&◌, ◌||◌, Option, none, some,
  List, [], ◌∷◌, ◌++◌, map, Bytes, IsByte, All, any, bytes_eq, bytes_lt, length, ltb, ◌==◌,
  if◌then◌else◌, Result, ok, err, refuse,
}
use ferry.Prelude.Int.{ℤ, IsI64}
use ferry.Prelude.Utf8.{is_utf8}
use ferry.Prelude.Results as R
use ferry.Store.Format.{
  BlobId, BlobKind, data_chunk, tree_node, FormatError, reserved_nonzero, put_u8, put_u32, put_u64,
  put_i64, put_bytes,
}

pub data ManifestError : Type 0 where
  duplicate_name : Bytes → ManifestError
  invalid_name : Bytes → ManifestError
  not_utf8 : ManifestError
  not_nfc : Bytes → ManifestError
  reserved_bits_set : ManifestError
  exec_flag_on_non_file : ManifestError
  nsec_out_of_range : ManifestError
  size_mismatch : (declared actual : ℕ) → ManifestError
  reserved_field_nonzero : ManifestError
  unknown_entry_type : ℕ → ManifestError
  bad_symlink_target : ManifestError
  corrupt : String → ManifestError

-- `impl From<FormatError> for ManifestError`, which `?` applies
unfoldable pub from_format : FormatError → ManifestError
from_format reserved_nonzero = reserved_field_nonzero
from_format _ = corrupt "truncated"

abbrev pub Chunk : Type 0
Chunk = BlobId × ℕ

pub data EntryPayload : Type 0 where
  file : (size : ℕ) → List Chunk → EntryPayload
  dir : (child_tree_id : BlobId) → EntryPayload
  symlink : (target : Bytes) → EntryPayload

unfoldable pub type_byte : EntryPayload → ℕ
type_byte (file size chunks) = 0
type_byte (dir child) = 1
type_byte (symlink target) = 2

pub record TreeEntry : Type 0 where
  pub name : Bytes
  pub exec : Bool
  pub mtime_sec : ℤ
  pub mtime_nsec : ℕ
  pub payload : EntryPayload

-- `TreeNode` is its list of entries.
abbrev pub TreeNode : Type 0
TreeNode = List TreeEntry

pub record RootManifest : Type 0 where
  pub folder_id : Bytes
  pub device_id : Bytes
  pub created_sec : ℤ
  pub created_nsec : ℕ
  pub root_tree_id : BlobId
  pub parent_manifest_id : BlobId

-- `iter().map(|c| c.1).sum()` over `u64`, which wraps in a release build.
unfoldable pub chunk_sum : List Chunk → ℕ
chunk_sum [] = 0
chunk_sum ((id, len) ∷ chunks) = (len + chunk_sum chunks) % 2 ^ 64

has_byte : ℕ → Bytes → Bool
has_byte c = any (λ b. b == c)

-- `Path::new(name).components().next()` is a normal component. It is asked only where the name has
-- no '/': then the name is its one component, if it is not empty.
is_normal : Bytes → Bool
is_normal [] = false
is_normal name = not (bytes_eq name (b'.' ∷ [])) && not (bytes_eq name (b'.' ∷ b'.' ∷ []))

unfoldable pub is_bad_name : Bytes → Bool
unfolding has_byte is_normal
is_bad_name name =
    has_byte b'/' name
    || has_byte 0 name
    || bytes_eq name (b'.' ∷ [])
    || bytes_eq name (b'.' ∷ b'.' ∷ [])
    || has_byte b':' name
    || not (is_normal name)

unfoldable pub flags_byte : TreeEntry → Result ManifestError ℕ
flags_byte e = elim e.payload [
  | file size chunks ↦ ok (if e.exec then 1 else 0)
  | _ ↦ if e.exec then err exec_flag_on_non_file else ok 0
]

-- The chunks of a file, in the loops of the writer and of `put_state` in diff.rs.
unfoldable pub put_chunks : Bytes → List Chunk → Bytes
unfolding put_bytes put_u64
put_chunks out [] = out
put_chunks out ((id, len) ∷ chunks) = put_chunks (put_u64 (put_bytes out id) len) chunks

unfoldable pub put_payload : Bytes → EntryPayload → Bytes
unfolding put_u64 put_u32 put_bytes put_chunks
put_payload out (file size chunks) = put_chunks (put_u32 (put_u64 out size) (length chunks)) chunks
put_payload out (dir child) = put_bytes out child
put_payload out (symlink target) = put_bytes (put_u32 out (length target)) target

-- The body of the writer's loop; `none` is the panic of `expect`.
unfoldable pub put_entry : Bytes → TreeEntry → Option Bytes
unfolding put_u8 put_u32 put_bytes put_i64
put_entry out e =
    let out = put_u8 out (type_byte e.payload) in
    let out = put_bytes (put_u32 out (length e.name)) e.name in
    elim (flags_byte e) [
      | err _ ↦ none
      | ok flags ↦
          let out = put_u8 out flags in
          let out = put_u32 (put_i64 out e.mtime_sec) e.mtime_nsec in
          some (put_payload out e.payload)
    ]

unfoldable pub put_entries : Bytes → List TreeEntry → Option Bytes
put_entries out [] = some out
put_entries out (e ∷ es) = elim (put_entry out e) [ none ↦ none | some out' ↦ put_entries out' es ]

-- `sort_by` is stable: an entry goes behind those that it is not smaller than.
unfoldable pub insert_by_name : TreeEntry → List TreeEntry → List TreeEntry
insert_by_name e [] = e ∷ []
insert_by_name e (f ∷ fs) = if bytes_lt f.name e.name then f ∷ insert_by_name e fs else e ∷ f ∷ fs

unfoldable pub sort_by_name : List TreeEntry → List TreeEntry
unfolding insert_by_name
sort_by_name [] = []
sort_by_name (e ∷ es) = insert_by_name e (sort_by_name es)

-- The error of a pair of neighbours in `windows(2)`.
unfoldable pub check_order : List TreeEntry → Result ManifestError (Unit {0})
check_order [] = ok tt
check_order (e ∷ []) = ok tt
check_order (e ∷ f ∷ es) =
    let more = check_order (f ∷ es) in
    if bytes_lt e.name f.name
    then more
    else if bytes_eq e.name f.name
    then err (duplicate_name e.name)
    else err (corrupt "entries not sorted by name")

module _ (nfc : Bytes → Bytes) where
  unfoldable pub validate_name : Bytes → Result ManifestError (Unit {0})
  validate_name name =
      if is_bad_name name
      then err (invalid_name name)
      else if not (bytes_eq (nfc name) name)
      then err (not_nfc name)
      else ok tt

  unfoldable pub validate_target : Bytes → Result ManifestError (Unit {0})
  validate_target target =
      if not (bytes_eq (nfc target) target) then err (not_nfc target) else ok tt

  unfoldable pub validate_payload : Bool → EntryPayload → Result ManifestError (Unit {0})
  validate_payload exec (file size chunks) =
      if not (size == chunk_sum chunks) then err (size_mismatch size (chunk_sum chunks)) else ok tt
  validate_payload exec (dir child) = if exec then err exec_flag_on_non_file else ok tt
  validate_payload exec (symlink target) = validate_target target

  unfoldable pub validate_entry : TreeEntry → Result ManifestError (Unit {0})
  validate_entry e = R.◌>>◌ (validate_name e.name) (
      R.◌>>◌ (refuse (ltb 999_999_999 e.mtime_nsec) nsec_out_of_range)
        (validate_payload e.exec e.payload))

  unfoldable pub validate_each : List TreeEntry → Result ManifestError (Unit {0})
  validate_each [] = ok tt
  validate_each (e ∷ es) = R.◌>>◌ (validate_entry e) (validate_each es)

  unfoldable pub validate_entries : List TreeEntry → Result ManifestError (Unit {0})
  validate_entries es = R.◌>>◌ (check_order es) (validate_each es)

  -- Names and targets are normalised before the sort.
  unfoldable pub normalize_entry : TreeEntry → TreeEntry
  normalize_entry e = record e {
    name = nfc e.name;
    payload = elim e.payload [ symlink target ↦ symlink (nfc target) | other ↦ other ];
  }

  -- `none` is a panic: the entries break the rules of a tree node.
  unfoldable pub serialize_tree_node : TreeNode → Option Bytes
  serialize_tree_node node =
      let sorted = sort_by_name (map normalize_entry node) in
      elim (validate_entries sorted) [
        | err _ ↦ none
        | ok _ ↦ put_entries (put_u32 [] (length sorted)) sorted
      ]
