-- ===== src/Store/Diff/Walk/Laws.antt =====
-- What the walk over two trees reports, and the fuel that it needs.
use ferry.Prelude.{
  ℕ, ◌≡◌, ◌≢◌, refl, sym, ap, subst, Bool, true, false, not, ◌&&◌, ◌||◌, Option, some, List, [],
  ◌∷◌, Bytes, All, All-append, bytes_eq, bytes_eq_iff, ◌==◌, Result, ok, arith, if_intro,
}
use ferry.Prelude.Results.{>>=_inv}
use ferry.Prelude.Int.{ℤ, int_eq, int_eq_iff}
use ferry.Store.Format.{BlobId}
use ferry.Store.Manifest.{Chunk, EntryPayload, file, dir, symlink, TreeEntry}
use ferry.Store.Diff.{
  EntryState, a_dir, state_of, kind_of_payload, chunks_eq, bool_eq, CompPath, Modified, ChangeSet,
  no_changes,
}
use ferry.Store.Diff.States.{chunks_eq_iff}
use ferry.Store.Diff.Walk.Sorting.{sort_by_path-All}
use ferry.Store.Diff.Walk.Invariant.{tree_keeps}
use ferry.Store.Diff.Walk.{
  push_content, push_metadata, push_type, compare_leaves, diff_tree_ids, diff_roots, sort_all,
}

-- Same content: the chunks of a file, the target of a symlink.
abbrev pub IsSameContent : Modified → Type 0
IsSameContent m = (m.before.chunks ≡ m.after.chunks) × (m.before.target ≡ m.after.target)

-- Each list of modifications holds those that its name says.
pub record IsClassified (cs : ChangeSet) : Type 0 where
  pub content : All (λ m. (m.before.kind ≡ m.after.kind) × ¬ IsSameContent m) cs.content_modified
  pub metadata :
      All
        (λ m. (m.before.kind ≡ m.after.kind) × IsSameContent m × (m.before ≢ m.after))
        cs.metadata_modified
  pub types : All (λ m. m.before.kind ≢ m.after.kind) cs.type_changed

pub push_content_lem :
    (m : Modified) (out : ChangeSet)
    → IsClassified out
    → m.before.kind ≡ m.after.kind
    → ¬ IsSameContent m
    → IsClassified (push_content m out)
push_content_lem m out c same differs = record {
  content = All-append _ out.content_modified (m ∷ []) c.content ((same, differs), tt);
  metadata = c.metadata;
  types = c.types;
}

pub push_metadata_lem :
    (m : Modified) (out : ChangeSet)
    → IsClassified out
    → m.before.kind ≡ m.after.kind
    → IsSameContent m
    → m.before ≢ m.after
    → IsClassified (push_metadata m out)
push_metadata_lem m out c same content differs = record {
  content = c.content;
  metadata = All-append _ out.metadata_modified (m ∷ []) c.metadata ((same, content, differs), tt);
  types = c.types;
}

pub push_type_lem :
    (m : Modified) (out : ChangeSet)
    → IsClassified out
    → m.before.kind ≢ m.after.kind
    → IsClassified (push_type m out)
push_type_lem m out c differs = record {
  content = c.content;
  metadata = c.metadata;
  types = All-append _ out.type_changed (m ∷ []) c.types (differs, tt);
}

bool_eq_refl : (a b : Bool) → a ≡ b → bool_eq a b ≡ true
unfolding bool_eq
bool_eq_refl true b e = sym e
bool_eq_refl false b e = cc

exec_differs :
    (a b : EntryState) (same_mtime : Bool)
    → (a.mtime_sec ≡ b.mtime_sec → a.mtime_nsec ≡ b.mtime_nsec → same_mtime ≡ true)
    → not (bool_eq a.exec b.exec) || not same_mtime ≡ true
    → a ≢ b
exec_differs a b same_mtime f h e =
    let x : bool_eq a.exec b.exec ≡ true = bool_eq_refl a.exec b.exec (ap EntryState.exec e) in
    let m : same_mtime ≡ true = f (ap EntryState.mtime_sec e) (ap EntryState.mtime_nsec e) in
    ground arith

mtime_same : (sa sb : ℤ) (ma mb : ℕ) → sa ≡ sb → ma ≡ mb → int_eq sa sb && ma == mb ≡ true
mtime_same sa sb ma mb e f = ground (arith, (int_eq_iff sa sb).1 e)

some_injective : {a b : Bytes} → ◌≡◌ {A = Option Bytes} (some a) (some b) → a ≡ b
some_injective e = cc

or_right : (a b : Bool) → b ≡ true → a || b ≡ true
or_right true b e = refl
or_right false b e = e

module _ (na nb : Bytes) (xa xb : Bool) (sa sb : ℤ) (ma mb : ℕ) (path : CompPath) (out : ChangeSet)
    (c : IsClassified out) where
  abbrev entry_a : EntryPayload → TreeEntry
  entry_a p = record { name = na; exec = xa; mtime_sec = sa; mtime_nsec = ma; payload = p }

  abbrev entry_b : EntryPayload → TreeEntry
  entry_b p = record { name = nb; exec = xb; mtime_sec = sb; mtime_nsec = mb; payload = p }

  abbrev both : EntryPayload → EntryPayload → Modified
  both p q = record { path = path; before = state_of (entry_a p); after = state_of (entry_b q) }

  leaves_files :
      (za zb : ℕ) (ca cb : List Chunk)
      → IsClassified (compare_leaves (entry_a (file za ca)) (entry_b (file zb cb)) path out)
  unfolding compare_leaves state_of kind_of_payload
  leaves_files za zb ca cb =
      let m = both (file za ca) (file zb cb) in
      if_intro IsClassified (not (chunks_eq ca cb))
        (λ h. push_content_lem m out c refl (λ e. ground (arith, (chunks_eq_iff ca cb).1 e.0)))
        (λ h.
          if_intro IsClassified _
            (λ k.
              push_metadata_lem m out c refl ((chunks_eq_iff ca cb).0 (ground arith), refl)
                (exec_differs m.before m.after _ (mtime_same sa sb ma mb) k))
            (λ k. c))

  leaves_symlinks :
      (ta tb : Bytes)
      → IsClassified (compare_leaves (entry_a (symlink ta)) (entry_b (symlink tb)) path out)
  unfolding compare_leaves state_of kind_of_payload
  leaves_symlinks ta tb =
      let m = both (symlink ta) (symlink tb) in
      if_intro IsClassified (not (bytes_eq ta tb))
        (λ h.
          push_content_lem m out c refl
            (λ e. ground (arith, (bytes_eq_iff ta tb).1 (some_injective e.1))))
        (λ h.
          if_intro IsClassified _
            (λ k.
              push_metadata_lem m out c refl (refl, ap some ((bytes_eq_iff ta tb).0 (ground arith)))
                (exec_differs m.before m.after _ (mtime_same sa sb ma mb)
                  (or_right (not (bool_eq xa xb)) _ k)))
            (λ k. c))

  compare_payloads :
      (p q : EntryPayload)
      → (kind_of_payload p ≡ a_dir → kind_of_payload q ≢ a_dir)
      → IsClassified (compare_leaves (entry_a p) (entry_b q) path out)
  unfolding compare_leaves state_of kind_of_payload
  compare_payloads (file za ca) (file zb cb) h = leaves_files za zb ca cb
  compare_payloads (symlink ta) (symlink tb) h = leaves_symlinks ta tb
  compare_payloads (dir a) (dir b) h = absurd (h refl refl)
  compare_payloads (file za ca) (dir b) h = push_type_lem _ out c (λ e. cc)
  compare_payloads (file za ca) (symlink tb) h = push_type_lem _ out c (λ e. cc)
  compare_payloads (dir a) (file zb cb) h = push_type_lem _ out c (λ e. cc)
  compare_payloads (dir a) (symlink tb) h = push_type_lem _ out c (λ e. cc)
  compare_payloads (symlink ta) (file zb cb) h = push_type_lem _ out c (λ e. cc)
  compare_payloads (symlink ta) (dir b) h = push_type_lem _ out c (λ e. cc)

compare_leaves-IsClassified :
    (ea eb : TreeEntry) (path : CompPath) (out : ChangeSet)
    → (kind_of_payload ea.payload ≡ a_dir → kind_of_payload eb.payload ≢ a_dir)
    → IsClassified out
    → IsClassified (compare_leaves ea eb path out)
compare_leaves-IsClassified ea eb path out h c =
    compare_payloads ea.name eb.name ea.exec eb.exec ea.mtime_sec eb.mtime_sec ea.mtime_nsec
      eb.mtime_nsec path out c ea.payload eb.payload h

sort_all-IsClassified : (cs : ChangeSet) → IsClassified cs → IsClassified (sort_all cs)
unfolding sort_all
sort_all-IsClassified cs c = record {
  content = sort_by_path-All Modified.path _ cs.content_modified c.content;
  metadata = sort_by_path-All Modified.path _ cs.metadata_modified c.metadata;
  types = sort_by_path-All Modified.path _ cs.type_changed c.types;
}

-- Whatever two roots it compares, a walk that ends with a change set files each modification under the
-- name that it has: same kind and different content, same kind and content but different states, or
-- different kinds.
pub diff_roots-IsClassified :
    {E : Type 0} (nfc : Bytes → Bytes) (get : BlobId → Result E Bytes) (fuel : ℕ)
    (older newer : BlobId) (cs : ChangeSet)
    → diff_roots nfc get fuel older newer ≡ ok cs
    → IsClassified cs
unfolding diff_roots
diff_roots-IsClassified nfc get fuel older newer cs h =
    let (found, walked, sorted) =
      >>=_inv (diff_tree_ids nfc get fuel (some older) (some newer) [] no_changes)
        (λ out. ok (sort_all out)) cs h in
    let e : sort_all found ≡ cs = cc in
    subst IsClassified e (
      sort_all-IsClassified found (
        tree_keeps nfc get IsClassified
          (λ p out c. record { content = c.content; metadata = c.metadata; types = c.types })
          (λ p out c. record { content = c.content; metadata = c.metadata; types = c.types })
          compare_leaves-IsClassified fuel (some older) (some newer) [] no_changes found
          (record { content = tt; metadata = tt; types = tt }) walked))
