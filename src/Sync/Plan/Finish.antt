-- ===== src/Sync/Plan/Finish.antt =====
-- crates/ferry-sync-engine/src/reconcile.rs: what follows the loop over the paths. A directory that
-- something survives beneath is not removed, and one that a result needs is made again.
use ferry.Prelude.{
  ℕ, Bool, true, false, not, ◌&&◌, ◌||◌, ◌==◌, Option, none, some, List, [], ◌∷◌, ◌++◌, map, any,
  keep, Bytes, bytes_eq, if◌then◌else◌, Result, ok, err,
}
use ferry.Prelude.Results.{◌>>=◌}
use ferry.Prelude.Maps.{lookup, insert, member, add}
use ferry.Store.Manifest.{Chunk}
use ferry.Store.Diff.{EntryState, CompPath, join_path}
use ferry.Store.Diff.Walk.{sort_by_path}
use ferry.Sync.Decide.{nothing, apply_remote, keep_local, conflict, is_none, is_local, is_dir}
use ferry.Sync.Plan.{MaterializeOp, QuarantineOp, PlannedConflict, ActionPlan}
use ferry.Sync.Plan.Build.{SideView, ViewMap, StructuralConflict, Decided, Progress, plan_views}

-- `final_state`: what becomes of each key that some operation decides.
unfoldable pub final_states : List Decided → List (Bytes × Option EntryState)
final_states [] = []
final_states (d ∷ ds) = elim d.decision [
  | nothing ↦ final_states ds
  | keep_local ↦ (d.key, d.ours) ∷ final_states ds
  | apply_remote ↦ (d.key, d.theirs) ∷ final_states ds
  | conflict kind winner ↦ (d.key, if is_local winner then d.ours else d.theirs) ∷ final_states ds
]

unfoldable pub is_removal : MaterializeOp → Bool
is_removal op = is_none op.result

unfoldable pub removal_keys : List MaterializeOp → List Bytes
unfolding is_removal
removal_keys ops = map (λ op. join_path (MaterializeOp.path op)) (keep is_removal ops)

kept_paths : ViewMap → ViewMap → List Decided → List CompPath
kept_paths local_view remote_view [] = []
kept_paths local_view remote_view (d ∷ ds) =
    let rest = kept_paths local_view remote_view ds in
    elim d.decision [
      | keep_local ↦ elim d.ours [
        | none ↦ rest
        | some s ↦ elim (lookup d.key local_view) [
          | some (p, _) ↦ p ∷ rest
          | none ↦ elim (lookup d.key remote_view) [ some (p, _) ↦ p ∷ rest | none ↦ rest ]
        ]
      ]
      | _ ↦ rest
    ]

-- The paths that stay: quarantined ones, conflicts that the local side wins, and kept ones.
unfoldable pub survivors : ViewMap → ViewMap → Progress → List CompPath
unfolding kept_paths
survivors local_view remote_view p =
    map QuarantineOp.path p.quarantine
    ++ map PlannedConflict.path (keep (λ c. is_local (PlannedConflict.winner c)) p.conflicts)
    ++ kept_paths local_view remote_view p.decided

-- `p[..i]` for `i` in `1..p.len()`
unfoldable pub ancestors : CompPath → List CompPath
ancestors [] = []
ancestors (c ∷ []) = []
ancestors (c ∷ d ∷ path) = (c ∷ []) ∷ map (λ a. c ∷ a) (ancestors (d ∷ path))

unfoldable pub member_of : List Bytes → Bytes → Bool
member_of [] k = false
member_of (j ∷ ks) k = bytes_eq k j || member_of ks k

unfoldable pub suppress : List Bytes → List CompPath → List Bytes → List Bytes
suppress removals [] set = set
suppress removals (a ∷ as') set =
    suppress removals as' (if member_of removals (join_path a) then add (join_path a) set else set)

unfoldable pub suppress_all : List Bytes → List CompPath → List Bytes → List Bytes
suppress_all removals [] set = set
suppress_all removals (p ∷ ps) set = suppress_all removals ps (suppress removals (ancestors p) set)

unfoldable pub suppressed : List Bytes → List CompPath → List Bytes
unfolding suppress suppress_all member_of
suppressed removals paths = suppress_all removals paths []

-- `materialize.retain(..)`
unfoldable pub retain : List Bytes → List MaterializeOp → List MaterializeOp
unfolding is_removal
retain supp ops =
    keep (λ op. not (is_removal op && member (join_path (MaterializeOp.path op)) supp)) ops

base_at : Bytes → ViewMap → Option EntryState
base_at key view = elim (lookup key view) [ none ↦ none | some (_, v) ↦ SideView.base v ]

or_base : Option EntryState → Option EntryState → Option EntryState
or_base none b = b
or_base (some s) b = some s

module _ (local_view remote_view : ViewMap) (finals : List (Bytes × Option EntryState))
    (supp : List Bytes) where
  -- One ancestor of a target: it must be, or be made again as, a directory.
  synth_dir :
      Bytes
      → CompPath
      → List (Bytes × EntryState)
      → Result StructuralConflict (List (Bytes × EntryState))
  synth_dir key target synth =
      let refused : Result StructuralConflict (List (Bytes × EntryState)) =
        err (record { ancestor = key; path = join_path target }) in
      if member key supp || not (is_none (lookup key synth))
      then ok synth
      else elim (lookup key finals) [
        | none ↦ ok synth
        | some none ↦ elim (or_base (base_at key local_view) (base_at key remote_view)) [
          | none ↦ refused
          | some s ↦ if is_dir s.kind then ok (insert key s synth) else refused
        ]
        | some (some s) ↦ if is_dir s.kind then ok synth else refused
      ]

  synth_ancestors :
      List CompPath
      → CompPath
      → List (Bytes × EntryState)
      → Result StructuralConflict (List (Bytes × EntryState))
  synth_ancestors [] target synth = ok synth
  synth_ancestors (a ∷ more) target synth =
      synth_dir (join_path a) target synth >>= λ synth'. synth_ancestors more target synth'

  unfoldable pub synth_dirs :
      List CompPath
      → List (Bytes × EntryState)
      → Result StructuralConflict (List (Bytes × EntryState))
  unfolding synth_ancestors synth_dir or_base base_at
  synth_dirs [] synth = ok synth
  synth_dirs (target ∷ targets) synth =
      synth_ancestors (ancestors target) target synth >>= λ synth'. synth_dirs targets synth'

-- `key.split('/')`
unfoldable pub split_path : Bytes → CompPath
split_path [] = [] ∷ []
split_path (c ∷ key) = elim (split_path key) [
  | [] ↦ []
  | part ∷ parts ↦ if c == b'/' then [] ∷ part ∷ parts else (c ∷ part) ∷ parts
]

synth_ops : List (Bytes × EntryState) → List MaterializeOp
synth_ops [] = []
synth_ops ((key, s) ∷ synth) =
    record { path = split_path key; base = none; result = some s } ∷ synth_ops synth

wins_locally : Decided → Bool
wins_locally d = elim d.decision [
  | keep_local ↦ true
  | conflict kind winner ↦ is_local winner
  | _ ↦ false
]

-- `filter(|(id, _)| !refs.contains(id))`
unfoldable pub missing : List Bytes → List (Bytes × ℕ) → List Chunk
missing refs [] = []
missing refs ((id, len) ∷ cand) =
    let rest = missing refs cand in if member id refs then rest else (id, len) ∷ rest

-- What `reconcile` does after the loop; the chunks that each tree refers to are arguments.
unfoldable pub finish :
    (local_view remote_view : ViewMap) (local_refs remote_refs : List Bytes)
    → Progress
    → Result StructuralConflict ActionPlan
unfolding synth_ops wins_locally
finish local_view remote_view local_refs remote_refs p =
    let supp = suppressed (removal_keys p.materialize) (survivors local_view remote_view p) in
    let materialize = retain supp p.materialize in
    let targets =
      map MaterializeOp.path (keep (λ op. not (is_none (MaterializeOp.result op))) materialize)
      ++ map QuarantineOp.path p.quarantine in
    synth_dirs local_view remote_view (final_states p.decided) supp targets [] >>= λ synth.
    ok (record {
      materialize = materialize ++ synth_ops synth;
      quarantine = p.quarantine;
      send = missing remote_refs p.send_cand;
      fetch = missing local_refs p.fetch_cand;
      conflicts = sort_by_path PlannedConflict.path p.conflicts;
      has_local_wins = any wins_locally p.decided;
    })

unfoldable pub reconcile_views :
    (local_dev remote_dev : Bytes) (local_view remote_view : ViewMap)
    (local_refs remote_refs : List Bytes)
    → Result StructuralConflict ActionPlan
reconcile_views local_dev remote_dev local_view remote_view local_refs remote_refs =
    plan_views local_dev remote_dev local_view remote_view >>= λ p.
    finish local_view remote_view local_refs remote_refs p
