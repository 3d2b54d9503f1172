-- ===== src/Store/Diff/Walk.antt =====
-- crates/ferry-store/src/diff.rs: the walk that compares two trees. `get`, the store's read of a
-- tree node, is a parameter; fuel bounds the depth, and `deep` is the error of a walk that is out of it.
pub mod Invariant
pub mod Fuel
pub mod Laws
pub mod Sorting
use ferry.Prelude.{
  ℕ, zero, suc, Bool, true, false, not, ◌&&◌, ◌||◌, Option, none, some, List, [], ◌∷◌, ◌++◌, Bytes,
  bytes_eq, bytes_lt, ◌==◌, if◌then◌else◌, Result, ok, err, map_err,
}
use ferry.Prelude.Results.{◌>>=◌}
use ferry.Prelude.Int.{int_eq}
use ferry.Store.Format.{BlobId}
use ferry.Store.Manifest.{
  Chunk, ManifestError, EntryPayload, file, dir, symlink, TreeEntry, TreeNode,
}
use ferry.Store.Manifest.Parsing.{parse_tree_node}
use ferry.Store.Diff.{
  EntryState, state_of, chunks_eq, bool_eq, CompPath, Placed, Modified, ChangeSet, no_changes,
}

pub data DiffError (E : Type 0) : Type 0 where
  store : E → DiffError E
  manifest : ManifestError → DiffError E
  deep : DiffError E

abbrev pub push_added : Placed → ChangeSet → ChangeSet
push_added p cs = record cs { added = cs.added ++ (p ∷ []) }

abbrev pub push_removed : Placed → ChangeSet → ChangeSet
push_removed p cs = record cs { removed = cs.removed ++ (p ∷ []) }

abbrev pub push_content : Modified → ChangeSet → ChangeSet
push_content m cs = record cs { content_modified = cs.content_modified ++ (m ∷ []) }

abbrev pub push_metadata : Modified → ChangeSet → ChangeSet
push_metadata m cs = record cs { metadata_modified = cs.metadata_modified ++ (m ∷ []) }

abbrev pub push_type : Modified → ChangeSet → ChangeSet
push_type m cs = record cs { type_changed = cs.type_changed ++ (m ∷ []) }

abbrev pub child_path : CompPath → Bytes → CompPath
child_path prefix name = prefix ++ (name ∷ [])

-- What `compare_entry` does with two entries that are not both directories.
unfoldable pub compare_leaves : TreeEntry → TreeEntry → CompPath → ChangeSet → ChangeSet
compare_leaves ea eb path out =
    let m : Modified = record { path = path; before = state_of ea; after = state_of eb } in
    let same_mtime = int_eq ea.mtime_sec eb.mtime_sec && ea.mtime_nsec == eb.mtime_nsec in
    elim ea.payload [
      | file sa ca ↦ elim eb.payload [
        | file sb cb ↦
            if not (chunks_eq ca cb)
            then push_content m out
            else if not (bool_eq ea.exec eb.exec) || not same_mtime
            then push_metadata m out
            else out
        | _ ↦ push_type m out
      ]
      | symlink ta ↦ elim eb.payload [
        | symlink tb ↦
            if not (bytes_eq ta tb)
            then push_content m out
            else if not same_mtime
            then push_metadata m out
            else out
        | _ ↦ push_type m out
      ]
      | dir ia ↦ push_type m out
    ]

module _ {E : Type 0} (nfc : Bytes → Bytes) (get : BlobId → Result E Bytes) where
  load_node : BlobId → Result (DiffError E) TreeNode
  load_node id = map_err store (get id) >>= λ bytes. map_err manifest (parse_tree_node nfc bytes)

  -- `diff_tree_ids` on the children of a directory, as the functions below call it.
  abbrev pub Descend : Type 0
  Descend = Option BlobId → Option BlobId → CompPath → ChangeSet → Result (DiffError E) ChangeSet

  module _ (descend : Descend) where
    flatten_added_entry : TreeEntry → CompPath → ChangeSet → Result (DiffError E) ChangeSet
    flatten_added_entry e prefix out =
        let path = child_path prefix e.name in
        let out' = push_added (record { path = path; state = state_of e }) out in
        elim e.payload [ dir child ↦ descend none (some child) path out' | _ ↦ ok out' ]

    flatten_removed_entry : TreeEntry → CompPath → ChangeSet → Result (DiffError E) ChangeSet
    flatten_removed_entry e prefix out =
        let path = child_path prefix e.name in
        let out' = push_removed (record { path = path; state = state_of e }) out in
        elim e.payload [ dir child ↦ descend (some child) none path out' | _ ↦ ok out' ]

    compare_entry : TreeEntry → TreeEntry → CompPath → ChangeSet → Result (DiffError E) ChangeSet
    compare_entry ea eb prefix out =
        let path = child_path prefix ea.name in
        elim ea.payload [
          | dir a ↦ elim eb.payload [
            | dir b ↦ elim (bytes_eq a b) [
              | true ↦ ok out
              | false ↦ descend (some a) (some b) path out
            ]
            | _ ↦ ok (compare_leaves ea eb path out)
          ]
          | _ ↦ ok (compare_leaves ea eb path out)
        ]

    diff_nodes : TreeNode → TreeNode → CompPath → ChangeSet → Result (DiffError E) ChangeSet
    diff_nodes [] [] prefix out = ok out
    diff_nodes (ea ∷ a) [] prefix out =
        flatten_removed_entry ea prefix out >>= λ out'. diff_nodes a [] prefix out'
    diff_nodes [] (eb ∷ b) prefix out =
        flatten_added_entry eb prefix out >>= λ out'. diff_nodes [] b prefix out'
    diff_nodes (ea ∷ a) (eb ∷ b) prefix out = elim (bytes_lt ea.name eb.name) [
      | true ↦ flatten_removed_entry ea prefix out >>= λ out'. diff_nodes a (eb ∷ b) prefix out'
      | false ↦ elim (bytes_lt eb.name ea.name) [
        | true ↦ flatten_added_entry eb prefix out >>= λ out'. diff_nodes (ea ∷ a) b prefix out'
        | false ↦ compare_entry ea eb prefix out >>= λ out'. diff_nodes a b prefix out'
      ]
    ]

  load_side : Option BlobId → Result (DiffError E) TreeNode
  load_side none = ok []
  load_side (some id) = load_node id

  same_ids : Option BlobId → Option BlobId → Bool
  same_ids none none = true
  same_ids (some a) (some b) = bytes_eq a b
  same_ids _ _ = false

  pub diff_tree_ids : ℕ → Descend
  diff_tree_ids zero older newer prefix out = err deep
  diff_tree_ids (suc fuel) older newer prefix out = elim (same_ids older newer) [
    | true ↦ ok out
    | false ↦ load_side older >>= λ a.
        load_side newer >>= λ b. diff_nodes (diff_tree_ids fuel) a b prefix out
  ]

-- `Ord` on paths: lexicographic in the components.
unfoldable pub path_lt : CompPath → CompPath → Bool
path_lt [] [] = false
path_lt [] (d ∷ q) = true
path_lt (c ∷ p) [] = false
path_lt (c ∷ p) (d ∷ q) = bytes_lt c d || (bytes_eq c d && path_lt p q)

-- `sort_by(|a, b| a.path.cmp(&b.path))`, stable: each item goes after those that are not greater.
module _ {A : Type 0} (path_of : A → CompPath) where
  insert_by_path : A → List A → List A
  insert_by_path a [] = a ∷ []
  insert_by_path a (b ∷ bs) =
      let rest = insert_by_path a bs in
      if path_lt (path_of a) (path_of b) then a ∷ b ∷ bs else b ∷ rest

  sort_onto : List A → List A → List A
  sort_onto [] sorted = sorted
  sort_onto (a ∷ more) sorted = sort_onto more (insert_by_path a sorted)

  unfoldable pub sort_by_path : List A → List A
  unfolding sort_onto insert_by_path
  sort_by_path items = sort_onto items []

unfoldable pub sort_all : ChangeSet → ChangeSet
sort_all cs = record {
  added = sort_by_path Placed.path cs.added;
  removed = sort_by_path Placed.path cs.removed;
  content_modified = sort_by_path Modified.path cs.content_modified;
  metadata_modified = sort_by_path Modified.path cs.metadata_modified;
  type_changed = sort_by_path Modified.path cs.type_changed;
}

module _ {E : Type 0} (nfc : Bytes → Bytes) (get : BlobId → Result E Bytes) where
  unfoldable pub diff_roots : ℕ → BlobId → BlobId → Result (DiffError E) ChangeSet
  unfolding diff_tree_ids diff_nodes load_node load_side same_ids compare_entry flatten_added_entry
      flatten_removed_entry
  diff_roots fuel older_root newer_root =
      diff_tree_ids nfc get fuel (some older_root) (some newer_root) [] no_changes >>= λ cs.
      ok (sort_all cs)
