-- ===== src/Sync/Fold.antt =====
-- crates/ferry-sync-engine/src/converge.rs: `fold_into_change_set`, which files an operation of the plan
-- under the change that it makes.
use mathlib.Core.List.{Perm, perm_middle}
use mathlib.Core.List.Perm
use ferry.Prelude.{
  ◌≢◌, refl, List, ◌∷◌, ◌++◌, map, All, ap, false, not, ◌||◌, if_intro, Option, none, some, [],
  if◌then◌else◌, arith,
}
use ferry.Prelude.Int.{pos}
use ferry.Store.Diff.{
  a_file, EntryState, CompPath, Placed, Modified, ChangeSet, kind_eq, chunks_eq, target_eq,
}
use ferry.Store.Diff.States.{kind_eq_iff, chunks_eq_iff, target_eq_iff}
use ferry.Store.Diff.Walk.{push_added, push_removed, push_content, push_metadata, push_type}
use ferry.Sync.Plan.{MaterializeOp}
use ferry.Store.Diff.Walk.Laws.{IsClassified, push_content_lem, push_metadata_lem, push_type_lem}

-- The state that a removal reports where the base has none.
no_state : EntryState
no_state = record {
  kind = a_file;
  exec = false;
  mtime_sec = pos 0;
  mtime_nsec = 0;
  chunks = [];
  target = none;
}

unfoldable pub fold_into_change_set :
    (base result : Option EntryState) → CompPath → ChangeSet → ChangeSet
unfolding no_state
fold_into_change_set none none path cs = push_removed (record { path = path; state = no_state }) cs
fold_into_change_set (some b) none path cs = push_removed (record { path = path; state = b }) cs
fold_into_change_set none (some r) path cs = push_added (record { path = path; state = r }) cs
fold_into_change_set (some b) (some r) path cs =
    let m : Modified = record { path = path; before = b; after = r } in
    if not (kind_eq b.kind r.kind)
    then push_type m cs
    else if not (chunks_eq b.chunks r.chunks) || not (target_eq b.target r.target)
    then push_content m cs
    else push_metadata m cs

-- The loop over the operations to materialise.
unfoldable pub fold_ops : List MaterializeOp → ChangeSet → ChangeSet
unfolding fold_into_change_set
fold_ops [] cs = cs
fold_ops (op ∷ ops) cs = fold_ops ops (fold_into_change_set op.base op.result op.path cs)

-- An operation whose result differs from its base is filed under the name that its change has, as the
-- walk over two trees files it.
fold_into_change_set-IsClassified :
    (base result : Option EntryState) (path : CompPath) (cs : ChangeSet)
    → base ≢ result
    → IsClassified cs
    → IsClassified (fold_into_change_set base result path cs)
unfolding fold_into_change_set
fold_into_change_set-IsClassified none none path cs differ c = record {
  content = c.content;
  metadata = c.metadata;
  types = c.types;
}
fold_into_change_set-IsClassified (some b) none path cs differ c = record {
  content = c.content;
  metadata = c.metadata;
  types = c.types;
}
fold_into_change_set-IsClassified none (some r) path cs differ c = record {
  content = c.content;
  metadata = c.metadata;
  types = c.types;
}
fold_into_change_set-IsClassified (some b) (some r) path cs differ c =
    let m : Modified = record { path = path; before = b; after = r } in
    if_intro IsClassified (not (kind_eq b.kind r.kind))
      (λ h. push_type_lem m cs c (λ e. ground (arith, (kind_eq_iff b.kind r.kind).1 e)))
      (λ h.
        if_intro IsClassified _
          (λ k. push_content_lem m cs c ((kind_eq_iff b.kind r.kind).0 (ground arith)) (λ e.
            ground (
              arith,
              (chunks_eq_iff b.chunks r.chunks).1 e.0,
              (target_eq_iff b.target r.target).1 e.1,
            )))
          (λ k.
            push_metadata_lem m cs c ((kind_eq_iff b.kind r.kind).0 (ground arith))
              (
                (chunks_eq_iff b.chunks r.chunks).0 (ground arith),
                (target_eq_iff b.target r.target).0 (ground arith),
              )
              (λ e. differ (ap some e))))

-- The operations that a change set stands for: an addition is one with no base, a removal one with no
-- result.
abbrev pub added_op : Placed → MaterializeOp
added_op p = record { path = p.path; base = none; result = some p.state }

abbrev pub removed_op : Placed → MaterializeOp
removed_op p = record { path = p.path; base = some p.state; result = none }

abbrev pub modified_op : Modified → MaterializeOp
modified_op m = record { path = m.path; base = some m.before; result = some m.after }

abbrev pub filed : ChangeSet → List MaterializeOp
filed cs =
    map added_op cs.added
    ++ (map removed_op cs.removed
        ++ (map modified_op cs.content_modified
            ++ (map modified_op cs.metadata_modified ++ map modified_op cs.type_changed)))

module _ {A : Type 0} (f : A → MaterializeOp) (x : A) where
  last-first :
      (xs : List A) (rest : List MaterializeOp)
      → Perm (map f (xs ++ (x ∷ [])) ++ rest) (f x ∷ (map f xs ++ rest))
  last-first [] rest = Perm.rfl
  last-first (y ∷ xs) rest =
      Perm.trans (Perm.cons (f y) (last-first xs rest)) (Perm.swap (f x) (f y) _)

  last-alone : (xs : List A) → Perm (map f (xs ++ (x ∷ []))) (f x ∷ map f xs)
  last-alone [] = Perm.rfl
  last-alone (y ∷ xs) = Perm.trans (Perm.cons (f y) (last-alone xs)) (Perm.swap (f x) (f y) _)

-- What comes to the front of the rest of a list comes to the front of the list.
behind :
    {q : MaterializeOp} {l l' : List MaterializeOp} (front : List MaterializeOp)
    → Perm l' (q ∷ l)
    → Perm (front ++ l') (q ∷ (front ++ l))
behind front p = Perm.trans (Perm.append_left front p) (perm_middle front _)

-- A modification is behind the additions and the removals.
later :
    {q : MaterializeOp} {l l' : List MaterializeOp} (cs : ChangeSet)
    → Perm l' (q ∷ l)
    → Perm
        (map added_op cs.added ++ (map removed_op cs.removed ++ l'))
        (q ∷ (map added_op cs.added ++ (map removed_op cs.removed ++ l)))
later cs p = behind (map added_op cs.added) (behind (map removed_op cs.removed) p)

filed_one :
    (base result : Option EntryState) (path : CompPath) (cs : ChangeSet)
    → base ≢ result
    → Perm
        (filed (fold_into_change_set base result path cs))
        (record { path = path; base = base; result = result } ∷ filed cs)
unfolding fold_into_change_set
filed_one none none path cs differ = absurd (differ refl)
filed_one (some b) none path cs differ =
    behind (map added_op cs.added)
      (last-first removed_op (record { path = path; state = b }) cs.removed _)
filed_one none (some r) path cs differ =
    last-first added_op (record { path = path; state = r }) cs.added _
filed_one (some b) (some r) path cs differ =
    let m : Modified = record { path = path; before = b; after = r } in
    let IsFiled : ChangeSet → Type 0 = λ cs'. Perm (filed cs') (modified_op m ∷ filed cs) in
    if_intro IsFiled (not (kind_eq b.kind r.kind))
      (λ _. later cs (
        behind (map modified_op cs.content_modified) (
          behind (map modified_op cs.metadata_modified)
            (last-alone modified_op m cs.type_changed))))
      (λ _.
        if_intro IsFiled _ (λ _. later cs (last-first modified_op m cs.content_modified _))
          (λ _. later cs (
            behind (map modified_op cs.content_modified)
              (last-first modified_op m cs.metadata_modified _))))

-- Where each operation's result differs from its base: the change set that the loop ends with stands for
-- these operations and for those of the change set that it started with, each of them once, and for no
-- others; one with no base is an addition, one with no result a removal; and if the modifications that it
-- started with were filed under the name that they have, all are, as the walk over two trees files them.
pub fold_ops-Perm :
    (ops : List MaterializeOp) (cs : ChangeSet)
    → All (λ op. op.base ≢ op.result) ops
    → IsClassified cs
    → Perm (filed (fold_ops ops cs)) (ops ++ filed cs) × IsClassified (fold_ops ops cs)
unfolding fold_ops
fold_ops-Perm [] cs differ c = (Perm.rfl, c)
fold_ops-Perm (op ∷ ops) cs differ c =
    let cs' : ChangeSet = fold_into_change_set op.base op.result op.path cs in
    let (p, q) =
      fold_ops-Perm ops cs' differ.1
        (fold_into_change_set-IsClassified op.base op.result op.path cs differ.0 c) in
    (
      Perm.trans p (
          Perm.trans (Perm.append_left ops (filed_one op.base op.result op.path cs differ.0))
            (perm_middle ops (filed cs))),
      q,
    )
