-- ===== src/Store/Diff.antt =====
-- crates/ferry-store/src/diff.rs: the states of entries, change sets, and the walk over two trees.
-- A path is its list of components; a `String` is its bytes.
pub mod Walk
pub mod States
use ferry.Prelude.{
  ℕ, Bool, true, false, ◌&&◌, ◌||◌, not, Option, none, some, List, [], ◌∷◌, ◌++◌, Bytes, bytes_eq,
  bytes_lt, ◌==◌, if◌then◌else◌,
}
use ferry.Prelude.Int.{ℤ, int_eq}
use ferry.Store.Manifest.{Chunk, EntryPayload, file, dir, symlink, TreeEntry}

pub data EntryKind : Type 0 where
  a_file a_dir a_symlink : EntryKind

unfoldable pub kind_of_payload : EntryPayload → EntryKind
kind_of_payload (file size chunks) = a_file
kind_of_payload (dir child) = a_dir
kind_of_payload (symlink target) = a_symlink

pub record EntryState : Type 0 where
  pub kind : EntryKind
  pub exec : Bool
  pub mtime_sec : ℤ
  pub mtime_nsec : ℕ
  pub chunks : List Chunk
  pub target : Option Bytes

-- `EntryState::of`
unfoldable pub state_of : TreeEntry → EntryState
unfolding kind_of_payload
state_of e = record {
  kind = kind_of_payload e.payload;
  exec = e.exec;
  mtime_sec = e.mtime_sec;
  mtime_nsec = e.mtime_nsec;
  chunks = elim e.payload [ file size chunks ↦ chunks | _ ↦ [] ];
  target = elim e.payload [ symlink target ↦ some target | _ ↦ none ];
}

unfoldable pub kind_eq : EntryKind → EntryKind → Bool
kind_eq a_file a_file = true
kind_eq a_dir a_dir = true
kind_eq a_symlink a_symlink = true
kind_eq _ _ = false

unfoldable pub chunks_eq : List Chunk → List Chunk → Bool
unfolding bytes_eq
chunks_eq [] [] = true
chunks_eq ((i, m) ∷ c) ((j, n) ∷ d) = bytes_eq i j && m == n && chunks_eq c d
chunks_eq _ _ = false

unfoldable pub target_eq : Option Bytes → Option Bytes → Bool
unfolding bytes_eq
target_eq none none = true
target_eq (some a) (some b) = bytes_eq a b
target_eq _ _ = false

unfoldable pub bool_eq : Bool → Bool → Bool
bool_eq true b = b
bool_eq false b = not b

-- The derived `PartialEq` of `EntryState`, and of an `Option` of it.
unfoldable pub state_eq : EntryState → EntryState → Bool
state_eq a b =
    kind_eq a.kind b.kind
    && bool_eq a.exec b.exec
    && int_eq a.mtime_sec b.mtime_sec
    && a.mtime_nsec == b.mtime_nsec
    && chunks_eq a.chunks b.chunks
    && target_eq a.target b.target

unfoldable pub option_state_eq : Option EntryState → Option EntryState → Bool
option_state_eq none none = true
option_state_eq (some a) (some b) = state_eq a b
option_state_eq _ _ = false

abbrev pub CompPath : Type 0
CompPath = List Bytes

-- `parts.join("/")`
unfoldable pub join_path : CompPath → Bytes
join_path [] = []
join_path (c ∷ []) = c
join_path (c ∷ d ∷ path) = c ++ (b'/' ∷ join_path (d ∷ path))

pub record Placed : Type 0 where
  pub path : CompPath
  pub state : EntryState

pub record Modified : Type 0 where
  pub path : CompPath
  pub before : EntryState
  pub after : EntryState

-- `Added` and `Removed` hold a path and a state alike.
pub record ChangeSet : Type 0 where
  pub added : List Placed
  pub removed : List Placed
  pub content_modified : List Modified
  pub metadata_modified : List Modified
  pub type_changed : List Modified

abbrev pub no_changes : ChangeSet
no_changes = record {
  added = [];
  removed = [];
  content_modified = [];
  metadata_modified = [];
  type_changed = [];
}
