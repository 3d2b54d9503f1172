-- ===== src/Store/Diff/Walk/Fuel.antt =====
-- The walk ends: a store whose directories have a rank, as content addresses give them, needs no more
-- fuel than the ranks of the two roots.
use ferry.Prelude.{
  ℕ, zero, suc, ◌<◌, ◌≤◌, ◌≡◌, ◌≢◌, refl, Bool, true, false, Option, none, some, [], ◌∷◌, Bytes,
  All, bytes_eq, bytes_lt, Result, ok, err, map_err, arith,
}
use ferry.Prelude.Results.{◌>>=◌}
use ferry.Store.Format.{BlobId}
use ferry.Store.Manifest.{ManifestError, EntryPayload, file, dir, symlink, TreeEntry, TreeNode}
use ferry.Store.Manifest.Parsing.{parse_tree_node}
use ferry.Store.Diff.{CompPath, ChangeSet, no_changes, state_of}
use ferry.Store.Diff.Walk.{
  DiffError, store, manifest, deep, push_added, push_removed, child_path, compare_leaves, Descend,
  load_node, flatten_added_entry, flatten_removed_entry, compare_entry, diff_nodes, load_side,
  same_ids, diff_tree_ids, diff_roots, sort_all,
}

module _ {E : Type 0} (nfc : Bytes → Bytes) (get : BlobId → Result E Bytes)
    (rank : BlobId → ℕ) where
  -- Each directory in a tree node has a smaller rank than the node.
  abbrev IsBelow : ℕ → EntryPayload → Type 0
  IsBelow n (dir child) = rank child < n
  IsBelow n _ = Unit {0}

  -- Every tree node that the store gives has its directories below it.
  abbrev pub IsRanked : Type 0
  IsRanked =
      (id : BlobId) (bytes : Bytes) (es : TreeNode)
      → get id ≡ ok bytes
      → parse_tree_node nfc bytes ≡ ok es
      → All (λ e. IsBelow (rank id) (TreeEntry.payload e)) es

  abbrev IsShallow : Result (DiffError E) ChangeSet → Type 0
  IsShallow r = r ≢ err deep

  abbrev IsUnder : ℕ → Option BlobId → Type 0
  IsUnder n none = 0 < n
  IsUnder n (some id) = rank id < n

  abbrev Nodes : ℕ → TreeNode → Type 0
  Nodes n = All (λ e. IsBelow n (TreeEntry.payload e))

  then-IsShallow :
      (m : Result (DiffError E) ChangeSet) (f : ChangeSet → Result (DiffError E) ChangeSet)
      → IsShallow m
      → ((out : ChangeSet) → IsShallow (f out))
      → IsShallow (m >>= f)
  then-IsShallow (ok out) f h k = k out
  then-IsShallow (err e) f h k = h

  module _ (n : ℕ) (descend : Descend nfc get)
      (down : (o m : Option BlobId) (path : CompPath) (out : ChangeSet)
        → IsUnder n o
        → IsUnder n m
        → IsShallow (descend o m path out)) where
    added-IsShallow :
        (e : TreeEntry) (prefix : CompPath) (out : ChangeSet)
        → IsBelow n e.payload
        → IsShallow (flatten_added_entry nfc get descend e prefix out)
    unfolding flatten_added_entry
    added-IsShallow e prefix out h = go e.payload h
      where
        go :
            (p : EntryPayload)
            → IsBelow n p
            → IsShallow (elim p [
              | dir child ↦
                  descend none (some child) (child_path prefix e.name) (
                    push_added (record { path = child_path prefix e.name; state = state_of e }) out)
              | _ ↦
                  ok (
                    push_added (record { path = child_path prefix e.name; state = state_of e }) out)
            ])
        go (file s c) b = λ x. cc
        go (symlink t) b = λ x. cc
        go (dir child) b = down none (some child) _ _ (omega arith) b

    removed-IsShallow :
        (e : TreeEntry) (prefix : CompPath) (out : ChangeSet)
        → IsBelow n e.payload
        → IsShallow (flatten_removed_entry nfc get descend e prefix out)
    unfolding flatten_removed_entry
    removed-IsShallow e prefix out h = go e.payload h
      where
        go :
            (p : EntryPayload)
            → IsBelow n p
            → IsShallow (elim p [
              | dir child ↦ descend (some child) none (child_path prefix e.name) (
                  push_removed (record { path = child_path prefix e.name; state = state_of e }) out)
              | _ ↦ ok (
                  push_removed (record { path = child_path prefix e.name; state = state_of e }) out)
            ])
        go (file s c) b = λ x. cc
        go (symlink t) b = λ x. cc
        go (dir child) b = down (some child) none _ _ b (omega arith)

    compare-IsShallow :
        (ea eb : TreeEntry) (prefix : CompPath) (out : ChangeSet)
        → IsBelow n ea.payload
        → IsBelow n eb.payload
        → IsShallow (compare_entry nfc get descend ea eb prefix out)
    unfolding compare_entry
    compare-IsShallow ea eb prefix out h k = go ea.payload eb.payload h k
      where
        choose :
            (same : Bool) (a b : BlobId)
            → rank a < n
            → rank b < n
            → IsShallow (elim same [
              | true ↦ ok out
              | false ↦ descend (some a) (some b) (child_path prefix ea.name) out
            ])
        choose true a b u v = λ x. cc
        choose false a b u v = down (some a) (some b) _ _ u v

        go :
            (p q : EntryPayload)
            → IsBelow n p
            → IsBelow n q
            → IsShallow (elim p [
              | dir a ↦ elim q [
                | dir b ↦ elim (bytes_eq a b) [
                  | true ↦ ok out
                  | false ↦ descend (some a) (some b) (child_path prefix ea.name) out
                ]
                | _ ↦ ok (compare_leaves ea eb (child_path prefix ea.name) out)
              ]
              | _ ↦ ok (compare_leaves ea eb (child_path prefix ea.name) out)
            ])
        go (file s c) q u v = λ x. cc
        go (symlink t) q u v = λ x. cc
        go (dir a) (file s c) u v = λ x. cc
        go (dir a) (symlink t) u v = λ x. cc
        go (dir a) (dir b) u v = choose (bytes_eq a b) a b u v

    merged-IsShallow :
        (less more : Bool) (f g k : Result (DiffError E) ChangeSet)
        → IsShallow f
        → IsShallow g
        → IsShallow k
        → IsShallow (elim less [ true ↦ f | false ↦ elim more [ true ↦ g | false ↦ k ] ])
    merged-IsShallow true more f g k u v w = u
    merged-IsShallow false true f g k u v w = v
    merged-IsShallow false false f g k u v w = w

    Nodes-IsShallow :
        (a b : TreeNode) (prefix : CompPath) (out : ChangeSet)
        → Nodes n a
        → Nodes n b
        → IsShallow (diff_nodes nfc get descend a b prefix out)
    unfolding diff_nodes
    Nodes-IsShallow [] [] prefix out u v = λ x. cc
    Nodes-IsShallow (ea ∷ a) [] prefix out u v =
        then-IsShallow _ _ (removed-IsShallow ea prefix out u.0)
          (λ o. Nodes-IsShallow a [] prefix o u.1 v)
    Nodes-IsShallow [] (eb ∷ b) prefix out u v =
        then-IsShallow _ _ (added-IsShallow eb prefix out v.0)
          (λ o. Nodes-IsShallow [] b prefix o u v.1)
    Nodes-IsShallow (ea ∷ a) (eb ∷ b) prefix out u v =
        merged-IsShallow (bytes_lt ea.name eb.name) (bytes_lt eb.name ea.name) _ _ _
          (then-IsShallow _ _ (removed-IsShallow ea prefix out u.0)
            (λ o. Nodes-IsShallow a (eb ∷ b) prefix o u.1 v))
          (then-IsShallow _ _ (added-IsShallow eb prefix out v.0)
            (λ o. Nodes-IsShallow (ea ∷ a) b prefix o u v.1))
          (then-IsShallow _ _ (compare-IsShallow ea eb prefix out u.0 v.0)
            (λ o. Nodes-IsShallow a b prefix o u.1 v.1))

  -- The node of one side: its directories are below whatever bounds its id.
  All_below : (m n : ℕ) (es : TreeNode) → m ≤ n → Nodes m es → Nodes n es
  All_below m n [] h u = tt
  All_below m n (e ∷ es) h u = (go e.payload u.0, All_below m n es h u.1)
    where
      go : (p : EntryPayload) → IsBelow m p → IsBelow n p
      go (file s c) b = tt
      go (symlink t) b = tt
      go (dir child) b = omega arith

  side-IsShallow :
      (ranked : IsRanked) (n : ℕ) (o : Option BlobId)
      (f : TreeNode → Result (DiffError E) ChangeSet)
      → IsUnder (suc n) o
      → ((es : TreeNode) → Nodes n es → IsShallow (f es))
      → IsShallow (load_side nfc get o >>= f)
  unfolding load_side load_node
  side-IsShallow ranked n none f h k = k [] tt
  side-IsShallow ranked n (some id) f h k = loaded (get id) refl
    where
      loaded :
          (r : Result E Bytes)
          → get id ≡ r
          → IsShallow
              ((map_err store r >>= λ bytes. map_err manifest (parse_tree_node nfc bytes)) >>= f)
      loaded (err e) g = λ x. cc
      loaded (ok bytes) g = parsed (parse_tree_node nfc bytes) refl
        where
          parsed :
              (r : Result ManifestError TreeNode)
              → parse_tree_node nfc bytes ≡ r
              → IsShallow (map_err manifest r >>= f)
          parsed (err e) p = λ x. cc
          parsed (ok es) p = k es (All_below (rank id) n es (omega arith) (ranked id bytes es g p))

  tree-IsShallow :
      (ranked : IsRanked) (fuel : ℕ) (older newer : Option BlobId) (prefix : CompPath)
      (out : ChangeSet)
      → IsUnder fuel older
      → IsUnder fuel newer
      → IsShallow (diff_tree_ids nfc get fuel older newer prefix out)
  unfolding diff_tree_ids
  tree-IsShallow ranked zero older newer prefix out u v = absurd (go older u)
    where
      go : (o : Option BlobId) → IsUnder 0 o → ⊥
      go none h = omega arith
      go (some id) h = omega arith
  tree-IsShallow ranked (suc fuel) older newer prefix out u v =
      go (same_ids nfc get older newer)
        (nodes fuel (λ o m p out' x y. tree-IsShallow ranked fuel o m p out' x y))
    where
      nodes :
          (k : ℕ)
          → ((o m : Option BlobId) (p : CompPath) (out' : ChangeSet)
              → IsUnder k o
              → IsUnder k m
              → IsShallow (diff_tree_ids nfc get fuel o m p out'))
          → (a b : TreeNode) → Nodes k a
          → Nodes k b
          → IsShallow (diff_nodes nfc get (diff_tree_ids nfc get fuel) a b prefix out)
      nodes k down a b x y = Nodes-IsShallow k (diff_tree_ids nfc get fuel) down a b prefix out x y

      go :
          (same : Bool)
          → ((a b : TreeNode)
              → Nodes fuel a
              → Nodes fuel b
              → IsShallow (diff_nodes nfc get (diff_tree_ids nfc get fuel) a b prefix out))
          → IsShallow (elim same [
            | true ↦ ok out
            | false ↦ load_side nfc get older >>= λ a. load_side nfc get newer >>= λ b.
                diff_nodes nfc get (diff_tree_ids nfc get fuel) a b prefix out
          ])
      go true f = λ x. cc
      go false f =
          side-IsShallow ranked fuel older _ u
            (λ a x. side-IsShallow ranked fuel newer _ v (λ b y. f a b x y))

-- Where every directory that the store gives is of smaller rank than the one that lists it, fuel above
-- the ranks of the two roots is enough: the walk never runs out of it, so it ends with a change set or
-- with the error of the store or of the parser.
pub diff_roots_ends :
    {E : Type 0} (nfc : Bytes → Bytes) (get : BlobId → Result E Bytes) (rank : BlobId → ℕ)
    (fuel : ℕ) (older newer : BlobId)
    → IsRanked nfc get rank
    → rank older < fuel
    → rank newer < fuel
    → diff_roots nfc get fuel older newer ≢ err deep
unfolding diff_roots
diff_roots_ends nfc get rank fuel older newer ranked u v =
    then-IsShallow nfc get rank (diff_tree_ids nfc get fuel (some older) (some newer) [] no_changes)
      (λ cs. ok (sort_all cs))
      (tree-IsShallow nfc get rank ranked fuel (some older) (some newer) [] no_changes u v)
      (λ out x. cc)
