-- ===== src/Sync/Decide.antt =====
-- crates/ferry-sync-engine/src/reconcile.rs: what happens to one path, from its state in the base
-- and on both sides (`none`: the path is absent there).
pub mod Laws
use ferry.Prelude.{
  ℕ, Bool, true, false, ◌&&◌, ◌||◌, not, Option, none, some, Bytes, bytes_lt, ltb, ◌==◌,
  if◌then◌else◌,
}
use ferry.Prelude.Int.{int_eq, int_lt}
use ferry.Store.Diff.{
  EntryKind, a_file, a_dir, a_symlink, EntryState, kind_eq, chunks_eq, target_eq, option_state_eq,
}

pub data Side : Type 0 where
  local remote : Side

pub data ConflictKind : Type 0 where
  both_changed delete_vs_edit add_vs_add : ConflictKind

pub data Decision : Type 0 where
  nothing apply_remote keep_local : Decision
  conflict : ConflictKind → (winner : Side) → Decision

unfoldable pub same_content : EntryState → EntryState → Bool
same_content l r =
    kind_eq l.kind r.kind
    && elim l.kind [ a_symlink ↦ target_eq l.target r.target | _ ↦ chunks_eq l.chunks r.chunks ]

-- The pairs `(mtime_sec, mtime_nsec)`, compared in this order.
unfoldable pub mtime_eq : EntryState → EntryState → Bool
mtime_eq l r = int_eq l.mtime_sec r.mtime_sec && l.mtime_nsec == r.mtime_nsec

unfoldable pub mtime_gt : EntryState → EntryState → Bool
mtime_gt l r =
    int_lt r.mtime_sec l.mtime_sec
    || (int_eq l.mtime_sec r.mtime_sec && ltb r.mtime_nsec l.mtime_nsec)

unfoldable pub pick_winner : EntryState → EntryState → Bytes → Bytes → Side
pick_winner l r local_dev remote_dev =
    if not (mtime_eq l r)
    then (if mtime_gt l r then local else remote)
    else if bytes_lt remote_dev local_dev
    then local
    else remote

unfoldable pub is_none : {A : Type 0} → Option A → Bool
is_none none = true
is_none (some a) = false

unfoldable pub is_local : Side → Bool
is_local local = true
is_local remote = false

unfoldable pub is_dir : EntryKind → Bool
is_dir a_dir = true
is_dir _ = false

-- The branch in which both sides changed, and to different states.
unfoldable pub decide_changed :
    Option EntryState → Option EntryState → Option EntryState → Bytes → Bytes → Decision
unfolding is_none is_local is_dir
decide_changed b (some ls) (some rs) local_dev remote_dev =
    if same_content ls rs
    then (if is_local (pick_winner ls rs local_dev remote_dev) then keep_local else apply_remote)
    else if is_dir ls.kind && is_dir rs.kind
    then nothing
    else conflict (if is_none b then add_vs_add else both_changed)
        (pick_winner ls rs local_dev remote_dev)
decide_changed b (some ls) none local_dev remote_dev = conflict delete_vs_edit local
decide_changed b none r local_dev remote_dev = conflict delete_vs_edit remote

-- The `match (local_changed, remote_changed)`.
unfoldable pub decide :
    Option EntryState → Option EntryState → Option EntryState → Bytes → Bytes → Decision
decide b l r local_dev remote_dev =
    if option_state_eq l b
    then (if option_state_eq r b then nothing else apply_remote)
    else if option_state_eq r b
    then keep_local
    else if option_state_eq l r
    then nothing
    else decide_changed b l r local_dev remote_dev

-- What `final_state` records of a decision, and what a path with no decision keeps.
unfoldable pub settled : Decision → Option EntryState → Option EntryState → Option EntryState
settled nothing l r = l
settled keep_local l r = l
settled apply_remote l r = r
settled (conflict kind local) l r = l
settled (conflict kind remote) l r = r
