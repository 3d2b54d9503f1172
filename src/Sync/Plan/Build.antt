-- ===== src/Sync/Plan/Build.antt =====
-- crates/ferry-sync-engine/src/reconcile.rs: the views of the two sides, and the loop that decides
-- each path and plans its operations.
use ferry.Prelude.{
  ℕ, Bool, true, false, Option, none, some, List, [], ◌∷◌, ◌++◌, Bytes, if◌then◌else◌, Result, ok,
  err,
}
use ferry.Prelude.Results.{◌>>=◌}
use ferry.Prelude.Int.{ℤ, pos}
use ferry.Prelude.Maps.{lookup, insert, add, keys}
use ferry.Store.Manifest.{Chunk}
use ferry.Store.Diff.{
  EntryKind, a_symlink, EntryState, CompPath, Placed, Modified, ChangeSet, join_path,
}
use ferry.Sync.Decide.{
  Side, local, remote, ConflictKind, Decision, nothing, apply_remote, keep_local, conflict, is_dir,
  decide,
}
use ferry.Sync.Plan.{
  MaterializeOp, LoserContent, live_local, live_local_symlink, from_store, QuarantineOp,
  PlannedConflict,
}

pub record SideView : Type 0 where
  pub base : Option EntryState
  pub side : Option EntryState

abbrev pub ViewMap : Type 0
ViewMap = List (Bytes × (CompPath × SideView))

slot : CompPath → Option EntryState → Option EntryState → ViewMap → ViewMap
slot path base side view = insert (join_path path) (path, record { base = base; side = side }) view

slot_added : List Placed → ViewMap → ViewMap
slot_added [] view = view
slot_added (a ∷ more) view = slot_added more (slot a.path none (some a.state) view)

slot_removed : List Placed → ViewMap → ViewMap
slot_removed [] view = view
slot_removed (r ∷ rs) view = slot_removed rs (slot r.path (some r.state) none view)

slot_modified : List Modified → ViewMap → ViewMap
slot_modified [] view = view
slot_modified (m ∷ ms) view = slot_modified ms (slot m.path (some m.before) (some m.after) view)

unfoldable pub index_change_set : ChangeSet → ViewMap
unfolding slot slot_added slot_removed slot_modified
index_change_set cs =
    slot_modified (cs.content_modified ++ cs.metadata_modified ++ cs.type_changed)
      (slot_removed cs.removed (slot_added cs.added []))

-- The ancestor that one side replaces or tears down, and the path beneath it.
pub record StructuralConflict : Type 0 where
  pub ancestor : Bytes
  pub path : Bytes

pub record Decided : Type 0 where
  pub key : Bytes
  pub decision : Decision
  pub ours : Option EntryState
  pub theirs : Option EntryState

-- The lists and maps that the loop fills.
pub record Progress : Type 0 where
  pub decided : List Decided
  pub materialize : List MaterializeOp
  pub quarantine : List QuarantineOp
  pub conflicts : List PlannedConflict
  pub send_cand : List (Bytes × ℕ)
  pub fetch_cand : List (Bytes × ℕ)

abbrev pub no_progress : Progress
no_progress = record {
  decided = [];
  materialize = [];
  quarantine = [];
  conflicts = [];
  send_cand = [];
  fetch_cand = [];
}

unfoldable pub insert_chunks : List Chunk → List (Bytes × ℕ) → List (Bytes × ℕ)
insert_chunks [] out = out
insert_chunks ((id, len) ∷ chunks) out = insert_chunks chunks (insert id len out)

-- `if let Some(s) = s { collect_chunks(s, out) }`
unfoldable pub collect_chunks : Option EntryState → List (Bytes × ℕ) → List (Bytes × ℕ)
unfolding insert_chunks
collect_chunks none out = out
collect_chunks (some s) out = insert_chunks s.chunks out

is_symlink : EntryKind → Bool
is_symlink a_symlink = true
is_symlink _ = false

unwrap_or_default : Option Bytes → Bytes
unwrap_or_default none = []
unwrap_or_default (some t) = t

mtime_of : Option EntryState → Option ℤ × Option ℕ
mtime_of none = (none, none)
mtime_of (some s) = (some s.mtime_sec, some s.mtime_nsec)

mtime_or_zero : Option EntryState → ℤ × ℕ
mtime_or_zero none = (pos 0, 0)
mtime_or_zero (some s) = (s.mtime_sec, s.mtime_nsec)

-- The content of the loser, where `loser` is the side that has it.
unfoldable pub loser_content : Side → EntryState → LoserContent
unfolding is_symlink unwrap_or_default
loser_content local s =
    if is_symlink s.kind
    then live_local_symlink (unwrap_or_default s.target)
    else live_local s.chunks
loser_content remote s = from_store s.kind s.exec s.mtime_sec s.mtime_nsec s.chunks s.target

module _ (local_dev remote_dev : Bytes) where
  unfoldable pub device_of : Side → Bytes
  device_of local = local_dev
  device_of remote = remote_dev

  planned_conflict :
      CompPath
      → ConflictKind
      → (winner loser : Side) → (won lost : Option EntryState) → PlannedConflict
  planned_conflict path kind winner loser won lost = record {
    path = path;
    kind = kind;
    winner = winner;
    loser = loser;
    winner_device = device_of winner;
    loser_device = device_of loser;
    winner_mtime_sec = (mtime_or_zero won).0;
    winner_mtime_nsec = (mtime_or_zero won).1;
    loser_mtime_sec = (mtime_of lost).0;
    loser_mtime_nsec = (mtime_of lost).1;
  }

  unfoldable pub quarantine_loser :
      CompPath → Side → Option EntryState → Progress → Result StructuralConflict Progress
  quarantine_loser path loser none p = ok p
  quarantine_loser path loser (some s) p =
      if is_dir s.kind
      then err (record { ancestor = join_path path; path = join_path path })
      else ok (record p {
        fetch_cand = elim loser [
          | local ↦ p.fetch_cand
          | remote ↦ insert_chunks s.chunks p.fetch_cand
        ];
        quarantine =
            p.quarantine
            ++ (record {
              path = path;
              loser_device = device_of loser;
              loser_mtime_sec = s.mtime_sec;
              loser_mtime_nsec = s.mtime_nsec;
              exec = s.exec;
              content = loser_content loser s;
            }
                ∷ []);
      })

  -- The `match &decision`.
  unfoldable pub act :
      CompPath
      → (b l r : Option EntryState) → Decision
      → Progress
      → Result StructuralConflict Progress
  unfolding quarantine_loser planned_conflict device_of mtime_of mtime_or_zero
  act path b l r nothing p = ok p
  act path b l r keep_local p = ok (record p { send_cand = collect_chunks l p.send_cand })
  act path b l r apply_remote p = ok (record p {
    fetch_cand = collect_chunks r p.fetch_cand;
    materialize = p.materialize ++ (record { path = path; base = b; result = r } ∷ []);
  })
  act path b l r (conflict kind local) p = quarantine_loser path remote r (record p {
    conflicts = p.conflicts ++ (planned_conflict path kind local remote l r ∷ []);
    send_cand = collect_chunks l p.send_cand;
  })
  act path b l r (conflict kind remote) p = quarantine_loser path local l (record p {
    conflicts = p.conflicts ++ (planned_conflict path kind remote local r l ∷ []);
    fetch_cand = collect_chunks r p.fetch_cand;
    materialize = p.materialize ++ (record { path = path; base = b; result = r } ∷ []);
  })

  or_else : {A : Type 0} → Option A → Option A → Option A
  or_else none b = b
  or_else (some a) b = some a

  -- A key's path and its base, local and remote states; `none` where no view has the key.
  unfoldable pub states_at :
      ViewMap
      → ViewMap
      → Bytes
      → Option (CompPath × Option EntryState × Option EntryState × Option EntryState)
  unfolding or_else
  states_at local_view remote_view key = elim (lookup key local_view) [
    | some (path, lv) ↦ elim (lookup key remote_view) [
      | some (_, rv) ↦ some (path, or_else lv.base rv.base, lv.side, rv.side)
      | none ↦ some (path, lv.base, lv.side, lv.base)
    ]
    | none ↦ elim (lookup key remote_view) [
      | some (path, rv) ↦ some (path, rv.base, rv.base, rv.side)
      | none ↦ none
    ]
  ]

  -- The `for key in &keys`; a key that no view has, which the code calls unreachable, is skipped.
  unfoldable pub plan_keys :
      ViewMap → ViewMap → List Bytes → Progress → Result StructuralConflict Progress
  plan_keys local_view remote_view [] p = ok p
  plan_keys local_view remote_view (key ∷ ks) p = elim (states_at local_view remote_view key) [
    | none ↦ plan_keys local_view remote_view ks p
    | some (path, b, l, r) ↦
        let d = decide b l r local_dev remote_dev in
        act path b l r d p >>= λ q. plan_keys local_view remote_view ks (record q {
          decided = q.decided ++ (record { key = key; decision = d; ours = l; theirs = r } ∷ []);
        })
  ]

  add_keys : List Bytes → List Bytes → List Bytes
  add_keys [] set = set
  add_keys (k ∷ ks) set = add_keys ks (add k set)

  unfoldable pub plan_views : ViewMap → ViewMap → Result StructuralConflict Progress
  unfolding add_keys
  plan_views local_view remote_view =
      plan_keys local_view remote_view (add_keys (keys remote_view) (add_keys (keys local_view) []))
        no_progress
