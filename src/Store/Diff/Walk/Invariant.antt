-- ===== src/Store/Diff/Walk/Invariant.antt =====
-- An invariant that every report keeps holds of what the walk returns.
use ferry.Prelude.{
  ℕ, zero, suc, ◌≡◌, ◌≢◌, subst, Bool, true, false, Option, none, some, [], ◌∷◌, Bytes, bytes_eq,
  bytes_lt, Result, ok,
}
use ferry.Prelude.Results.{◌>>=◌, >>=_inv}
use ferry.Store.Format.{BlobId}
use ferry.Store.Manifest.{EntryPayload, file, dir, symlink, TreeEntry, TreeNode}
use ferry.Store.Diff.{a_dir, state_of, kind_of_payload, CompPath, Placed, ChangeSet}
use ferry.Store.Diff.Walk.{
  DiffError, push_added, push_removed, child_path, compare_leaves, Descend, flatten_added_entry,
  flatten_removed_entry, compare_entry, diff_nodes, load_side, same_ids, diff_tree_ids,
}

module _ {E : Type 0} (nfc : Bytes → Bytes) (get : BlobId → Result E Bytes)
    (Inv : ChangeSet → Type 0)
    (added : (p : Placed) (cs : ChangeSet) → Inv cs → Inv (push_added p cs))
    (removed : (p : Placed) (cs : ChangeSet) → Inv cs → Inv (push_removed p cs))
    (leaves : (ea eb : TreeEntry) (path : CompPath) (cs : ChangeSet)
      → (kind_of_payload ea.payload ≡ a_dir → kind_of_payload eb.payload ≢ a_dir)
      → Inv cs
      → Inv (compare_leaves ea eb path cs)) where
  abbrev Keeps : (ChangeSet → Result (DiffError E) ChangeSet) → Type 0
  Keeps f = (out out' : ChangeSet) → Inv out → f out ≡ ok out' → Inv out'

  then-Keeps :
      (f g : ChangeSet → Result (DiffError E) ChangeSet)
      → Keeps f
      → Keeps g
      → Keeps (λ out. f out >>= g)
  then-Keeps f g kf kg out out' i h =
      let (mid, first, second) = >>=_inv (f out) g out' h in kg mid out' (kf out mid i first) second

  ok_keeps :
      (cs out' : ChangeSet)
      → Inv cs
      → ◌≡◌ {A = Result (DiffError E) ChangeSet} (ok cs) (ok out')
      → Inv out'
  ok_keeps cs out' i h = let e : cs ≡ out' = cc in subst Inv e i

  module _ (descend : Descend nfc get)
      (down : (o n : Option BlobId) (path : CompPath) → Keeps (descend o n path)) where
    added-Keeps :
        (e : TreeEntry) (prefix : CompPath) → Keeps (flatten_added_entry nfc get descend e prefix)
    unfolding flatten_added_entry
    added-Keeps e prefix out out' i h = go e.payload h
      where
        start :
            Inv (push_added (record { path = child_path prefix e.name; state = state_of e }) out)
        start = added _ out i

        go :
            (p : EntryPayload)
            → (elim p [
              | dir child ↦
                  descend none (some child) (child_path prefix e.name) (
                    push_added (record { path = child_path prefix e.name; state = state_of e }) out)
              | _ ↦
                  ok (
                    push_added (record { path = child_path prefix e.name; state = state_of e }) out)
            ])
              ≡ ok out'
            → Inv out'
        go (file size chunks) k = ok_keeps _ out' start k
        go (symlink target) k = ok_keeps _ out' start k
        go (dir child) k = down none (some child) _ _ out' start k

    removed-Keeps :
        (e : TreeEntry) (prefix : CompPath) → Keeps (flatten_removed_entry nfc get descend e prefix)
    unfolding flatten_removed_entry
    removed-Keeps e prefix out out' i h = go e.payload h
      where
        start :
            Inv (push_removed (record { path = child_path prefix e.name; state = state_of e }) out)
        start = removed _ out i

        go :
            (p : EntryPayload)
            → (elim p [
              | dir child ↦ descend (some child) none (child_path prefix e.name) (
                  push_removed (record { path = child_path prefix e.name; state = state_of e }) out)
              | _ ↦ ok (
                  push_removed (record { path = child_path prefix e.name; state = state_of e }) out)
            ])
              ≡ ok out'
            → Inv out'
        go (file size chunks) k = ok_keeps _ out' start k
        go (symlink target) k = ok_keeps _ out' start k
        go (dir child) k = down (some child) none _ _ out' start k

    -- Two directories are compared by their trees, and any other two entries as leaves.
    compared-Keeps :
        (ea eb : TreeEntry) (prefix : CompPath) (p q : EntryPayload)
        → ((kind_of_payload p ≡ a_dir → kind_of_payload q ≢ a_dir)
            → (out : ChangeSet) → Inv out
            → Inv (compare_leaves ea eb (child_path prefix ea.name) out))
        → Keeps (λ out. elim p [
          | dir a ↦ elim q [
            | dir b ↦ elim (bytes_eq a b) [
              | true ↦ ok out
              | false ↦ descend (some a) (some b) (child_path prefix ea.name) out
            ]
            | _ ↦ ok (compare_leaves ea eb (child_path prefix ea.name) out)
          ]
          | _ ↦ ok (compare_leaves ea eb (child_path prefix ea.name) out)
        ])
    unfolding kind_of_payload
    compared-Keeps ea eb prefix (file s c) q keeps out out' i h =
        ok_keeps _ out' (keeps (λ e. absurd (cc)) out i) h
    compared-Keeps ea eb prefix (symlink t) q keeps out out' i h =
        ok_keeps _ out' (keeps (λ e. absurd (cc)) out i) h
    compared-Keeps ea eb prefix (dir a) (file s c) keeps out out' i h =
        ok_keeps _ out' (keeps (λ e f. cc) out i) h
    compared-Keeps ea eb prefix (dir a) (symlink t) keeps out out' i h =
        ok_keeps _ out' (keeps (λ e f. cc) out i) h
    compared-Keeps ea eb prefix (dir a) (dir b) keeps out out' i h = go (bytes_eq a b) h
      where
        go :
            (same : Bool)
            → (elim same [
              | true ↦ ok out
              | false ↦ descend (some a) (some b) (child_path prefix ea.name) out
            ])
              ≡ ok out'
            → Inv out'
        go true k = ok_keeps out out' i k
        go false k = down (some a) (some b) _ out out' i k

    compare-Keeps :
        (ea eb : TreeEntry) (prefix : CompPath) → Keeps (compare_entry nfc get descend ea eb prefix)
    unfolding compare_entry
    compare-Keeps ea eb prefix =
        compared-Keeps ea eb prefix ea.payload eb.payload (λ h out. leaves ea eb _ out h)

    merged-Keeps :
        (less more : Bool) (f g k : ChangeSet → Result (DiffError E) ChangeSet)
        → Keeps f
        → Keeps g
        → Keeps k
        → Keeps
            (λ out. elim less [ true ↦ f out | false ↦ elim more [ true ↦ g out | false ↦ k out ] ])
    merged-Keeps true more f g k kf kg kk = kf
    merged-Keeps false true f g k kf kg kk = kg
    merged-Keeps false false f g k kf kg kk = kk

    nodes-Keeps :
        (a b : TreeNode) (prefix : CompPath) → Keeps (diff_nodes nfc get descend a b prefix)
    unfolding diff_nodes
    nodes-Keeps [] [] prefix out out' i h = ok_keeps out out' i h
    nodes-Keeps (ea ∷ a) [] prefix out out' i h =
        then-Keeps _ _ (removed-Keeps ea prefix) (nodes-Keeps a [] prefix) out out' i h
    nodes-Keeps [] (eb ∷ b) prefix out out' i h =
        then-Keeps _ _ (added-Keeps eb prefix) (nodes-Keeps [] b prefix) out out' i h
    nodes-Keeps (ea ∷ a) (eb ∷ b) prefix out out' i h =
        merged-Keeps (bytes_lt ea.name eb.name) (bytes_lt eb.name ea.name) _ _ _
          (then-Keeps _ _ (removed-Keeps ea prefix) (nodes-Keeps a (eb ∷ b) prefix))
          (then-Keeps _ _ (added-Keeps eb prefix) (nodes-Keeps (ea ∷ a) b prefix))
          (then-Keeps _ _ (compare-Keeps ea eb prefix) (nodes-Keeps a b prefix)) out out' i h

  pub tree_keeps :
      (fuel : ℕ) (older newer : Option BlobId) (prefix : CompPath) (out out' : ChangeSet)
      → Inv out
      → diff_tree_ids nfc get fuel older newer prefix out ≡ ok out'
      → Inv out'
  unfolding diff_tree_ids
  tree_keeps zero older newer prefix out out' i h = absurd (cc)
  tree_keeps (suc fuel) older newer prefix out out' i h =
      go (λ o n p. tree_keeps fuel o n p) (same_ids nfc get older newer) h
    where
      go :
          ((o n : Option BlobId) (p : CompPath) → Keeps (diff_tree_ids nfc get fuel o n p))
          → (same : Bool)
          → (elim same [
            | true ↦ ok out
            | false ↦ load_side nfc get older >>= λ a. load_side nfc get newer >>= λ b.
                diff_nodes nfc get (diff_tree_ids nfc get fuel) a b prefix out
          ])
            ≡ ok out'
          → Inv out'
      go down true k = ok_keeps out out' i k
      go down false k =
          let (a, ra, ka) = >>=_inv (load_side nfc get older) _ out' k in
          let (b, rb, kb) = >>=_inv (load_side nfc get newer) _ out' ka in
          nodes-Keeps (diff_tree_ids nfc get fuel) down a b prefix out out' i kb
