-- ===== src/Tests/Merges.antt =====
-- Decisions, plans and gates at concrete states.
use mathlib.Core.List.{Perm}
use ferry.Prelude.{
  arith, map, keep, ℕ, ◌≡◌, ◌≢◌, ◌⊎◌, refl, Bool, true, false, Option, none, some, List, [], ◌∷◌,
  ◌++◌, Bytes, bytes_eq, bytes_lt, All, not, ok, err,
}
use ferry.Prelude.Int.{pos}
use ferry.Prelude.Maps.{lookup, insert, member}
use ferry.Store.Diff.{
  no_changes, join_path, a_file, EntryState, CompPath, kind_eq, chunks_eq, target_eq, bool_eq,
  state_eq, option_state_eq,
}
use ferry.Sync.Decide.{
  local, remote, both_changed, delete_vs_edit, conflict, decide, decide_changed, same_content,
  mtime_eq, mtime_gt, pick_winner, settled, is_dir,
}
use ferry.Sync.Decide.Laws.{
  mirror, settled_agree, decide-mirror, settled_three_way, edit_beats_delete, pick_winner_latest,
}
use ferry.Sync.Plan.{MaterializeOp, live_local, ActionPlan}
use ferry.Sync.Plan.Build.{
  Decided, ViewMap, Progress, no_progress, plan_keys, act, states_at, collect_chunks, insert_chunks,
  loser_content,
}
use ferry.Sync.Plan.Covered.{is_known, IsPlanned, plan_keys-IsPlanned}
use ferry.Sync.Gate.{HeldPath, StructuralSplit, gate_plan, keys_where}
use ferry.Sync.Fold.{fold_ops, filed, fold_ops-Perm}
use ferry.Store.Diff.Walk.Laws.{IsClassified}
use ferry.Sync.Gate.Laws.{IsGated, IsSplit, gate_plan_cases}
use ferry.Sync.Plan.Paths.{IsComponent, split_path-join_path}
use ferry.Sync.Plan.Finish.{split_path, removal_keys, ancestors, suppressed, retain}
use ferry.Sync.Plan.Kept.{retain_safe}
use ferry.Tests.Data.{id_of}

abbrev file_at : ℕ → ℕ → EntryState
file_at sec b = record {
  kind = a_file;
  exec = false;
  mtime_sec = pos sec;
  mtime_nsec = 0;
  chunks = (id_of b, 4) ∷ [];
  target = none;
}

-- Two devices.
abbrev left : Bytes
left = 1 ∷ []

abbrev right : Bytes
right = 2 ∷ []

left-right : left ≢ right
left-right h = absurd (cc)

abbrev base : Option EntryState
base = some (file_at 1 1)

abbrev ours : Option EntryState
ours = some (file_at 2 2)

abbrev theirs : Option EntryState
theirs = some (file_at 3 3)

settled_agree_example :
    settled (decide base theirs ours right left) theirs ours
    ≡ settled (decide base ours theirs left right) ours theirs
settled_agree_example =
    settled_agree base ours theirs left right left-right (λ h. absurd (cc)) (λ h. absurd (cc))

decide-mirror_example :
    decide base theirs ours right left ≡ mirror (decide base ours theirs left right)
decide-mirror_example = decide-mirror base ours theirs left right left-right

decided : decide base ours theirs left right ≡ conflict both_changed remote
unfolding decide decide_changed same_content pick_winner mtime_eq mtime_gt option_state_eq state_eq
    kind_eq chunks_eq target_eq bool_eq bytes_eq bytes_lt
decided = refl

settled_three_way_example :
    (theirs ≡ base → settled (decide base ours theirs left right) ours theirs ≡ ours)
    × (ours ≡ base → settled (decide base ours theirs left right) ours theirs ≡ theirs)
    × (ours ≡ theirs → settled (decide base ours theirs left right) ours theirs ≡ ours)
settled_three_way_example = settled_three_way base ours theirs left right

edit_beats_delete_example :
    (decide base ours none left right ≡ conflict delete_vs_edit local)
    × (decide base none ours left right ≡ conflict delete_vs_edit remote)
edit_beats_delete_example =
    edit_beats_delete base (file_at 2 2) left right (λ h. absurd (cc)) (λ h. absurd (cc))

pick_winner_latest_example :
    (pick_winner (file_at 2 2) (file_at 2 3) left right ≡ local
      → (mtime_gt (file_at 2 2) (file_at 2 3) ≡ true)
        ⊎ ((mtime_eq (file_at 2 2) (file_at 2 3) ≡ true) × (bytes_lt right left ≡ true)))
    × (pick_winner (file_at 2 2) (file_at 2 3) left right ≡ remote
        → (mtime_gt (file_at 2 3) (file_at 2 2) ≡ true)
          ⊎ ((mtime_eq (file_at 2 2) (file_at 2 3) ≡ true) × (bytes_lt left right ≡ true)))
pick_winner_latest_example = pick_winner_latest (file_at 2 2) (file_at 2 3) left right left-right

abbrev key : Bytes
key = b'f' ∷ []

abbrev view_of : Option EntryState → ViewMap
view_of side = (key, (key ∷ [], record { base = base; side = side })) ∷ []

-- Both sides changed one file, and the remote side's is later.
abbrev progress : Progress
progress = record {
  decided =
      record { key = key; decision = conflict both_changed remote; ours = ours; theirs = theirs }
      ∷ [];
  materialize = record { path = key ∷ []; base = base; result = theirs } ∷ [];
  quarantine =
      record {
        path = key ∷ [];
        loser_device = left;
        loser_mtime_sec = pos 2;
        loser_mtime_nsec = 0;
        exec = false;
        content = live_local ((id_of 2, 4) ∷ []);
      }
      ∷ [];
  conflicts =
      record {
        path = key ∷ [];
        kind = both_changed;
        winner = remote;
        loser = local;
        winner_device = right;
        loser_device = left;
        winner_mtime_sec = pos 3;
        winner_mtime_nsec = 0;
        loser_mtime_sec = some (pos 2);
        loser_mtime_nsec = some 0;
      }
      ∷ [];
  send_cand = [];
  fetch_cand = (id_of 3, 4) ∷ [];
}

planned : plan_keys left right (view_of ours) (view_of theirs) (key ∷ []) no_progress ≡ ok progress
unfolding plan_keys act states_at lookup insert collect_chunks insert_chunks loser_content is_dir
    decide decide_changed same_content pick_winner mtime_eq mtime_gt option_state_eq state_eq
    kind_eq chunks_eq target_eq bool_eq bytes_eq bytes_lt
planned = refl

plan_keys-IsPlanned_example :
    (map Decided.key progress.decided
      ≡ keep (is_known left right (view_of ours) (view_of theirs)) (key ∷ []))
    × All (IsPlanned left right (view_of ours) (view_of theirs) progress) progress.decided
plan_keys-IsPlanned_example =
    plan_keys-IsPlanned left right (view_of ours) (view_of theirs) (key ∷ []) progress planned

-- A plan that writes two files, one of them on a held path.
abbrev held_key : CompPath → Bool
held_key [] = false
held_key (c ∷ path) = bytes_eq c key

abbrev plan : ActionPlan
plan = record {
  materialize =
      record { path = key ∷ []; base = base; result = theirs }
      ∷ record { path = (b'g' ∷ []) ∷ []; base = none; result = theirs }
      ∷ [];
  quarantine = [];
  send = [];
  fetch = (id_of 3, 4) ∷ [];
  conflicts = [];
  has_local_wins = false;
}

gate_plan_cases_example :
    ((apply : ActionPlan) × (held : List HeldPath) × (gate_plan held_key plan ≡ ok (apply, held))
      × IsGated held_key plan apply held)
    ⊎ ((e : StructuralSplit) × (gate_plan held_key plan ≡ err e)
        × IsSplit e
        × (member e.pinned (keys_where held_key plan) ≡ true)
        × (member e.other (keys_where (λ path. not (held_key path)) plan) ≡ true))
gate_plan_cases_example = gate_plan_cases held_key plan

-- One side removed a directory, and a file beneath it stays.
abbrev removed_dir : List MaterializeOp
removed_dir = record { path = (b'd' ∷ []) ∷ []; base = none; result = none } ∷ []

abbrev staying : List CompPath
staying = ((b'd' ∷ []) ∷ key ∷ []) ∷ []

retain_safe_example :
    All
      (λ op.
        MaterializeOp.result op ≡ none
        → All
            (λ p. All (λ a. join_path a ≢ join_path (MaterializeOp.path op)) (ancestors p))
            staying)
      (retain (suppressed (removal_keys removed_dir) staying) removed_dir)
retain_safe_example = retain_safe removed_dir staying

letters : All IsComponent ((b'd' ∷ []) ∷ key ∷ [])
letters = ((omega arith, tt), ((omega arith, tt), tt))

split_path-join_path_example :
    split_path (join_path ((b'd' ∷ []) ∷ key ∷ [])) ≡ (b'd' ∷ []) ∷ key ∷ []
split_path-join_path_example = split_path-join_path (b'd' ∷ []) (key ∷ []) letters

-- A file that is added, one that is removed, one whose content changes and one whose time changes.
abbrev touched : Option EntryState
touched = some (file_at 2 1)

abbrev op_of : Option EntryState → Option EntryState → MaterializeOp
op_of b r = record { path = key ∷ []; base = b; result = r }

abbrev four_ops : List MaterializeOp
four_ops = op_of none ours ∷ op_of base none ∷ op_of base ours ∷ op_of base touched ∷ []

four_ops_differ : All (λ op. op.base ≢ op.result) four_ops
four_ops_differ =
    ((λ h. absurd (cc)), ((λ h. absurd (cc)), ((λ h. absurd (cc)), ((λ h. absurd (cc)), tt))))

fold_ops-Perm_example :
    Perm (filed (fold_ops four_ops no_changes)) (four_ops ++ filed no_changes)
    × IsClassified (fold_ops four_ops no_changes)
fold_ops-Perm_example =
    fold_ops-Perm four_ops no_changes four_ops_differ
      (record { content = tt; metadata = tt; types = tt })
