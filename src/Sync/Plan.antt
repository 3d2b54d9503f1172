-- ===== src/Sync/Plan.antt =====
-- crates/ferry-sync-engine/src/reconcile.rs: the plan that reconciling two trees comes to.
pub mod Build
pub mod Covered
pub mod Finish
pub mod Kept
pub mod Paths
pub mod Steps
use ferry.Prelude.{ℕ, Bool, Option, List, Bytes}
use ferry.Prelude.Int.{ℤ}
use ferry.Store.Manifest.{Chunk}
use ferry.Store.Diff.{EntryKind, EntryState, CompPath}
use ferry.Sync.Decide.{Side, ConflictKind}

-- `result = none` removes the path.
pub record MaterializeOp : Type 0 where
  pub path : CompPath
  pub base : Option EntryState
  pub result : Option EntryState

-- `live_local` and `live_local_symlink` are read from the tree on disk, `from_store` from the store.
pub data LoserContent : Type 0 where
  live_local : (expected_chunks : List Chunk) → LoserContent
  live_local_symlink : (expected_target : Bytes) → LoserContent
  from_store :
      EntryKind
      → (exec : Bool) → (mtime_sec : ℤ) → (mtime_nsec : ℕ) → List Chunk
      → (target : Option Bytes) → LoserContent

pub record QuarantineOp : Type 0 where
  pub path : CompPath
  pub loser_device : Bytes
  pub loser_mtime_sec : ℤ
  pub loser_mtime_nsec : ℕ
  pub exec : Bool
  pub content : LoserContent

pub record PlannedConflict : Type 0 where
  pub path : CompPath
  pub kind : ConflictKind
  pub winner : Side
  pub loser : Side
  pub winner_device : Bytes
  pub loser_device : Bytes
  pub winner_mtime_sec : ℤ
  pub winner_mtime_nsec : ℕ
  pub loser_mtime_sec : Option ℤ
  pub loser_mtime_nsec : Option ℕ

pub record ActionPlan : Type 0 where
  pub materialize : List MaterializeOp
  pub quarantine : List QuarantineOp
  pub send : List Chunk
  pub fetch : List Chunk
  pub conflicts : List PlannedConflict
  pub has_local_wins : Bool
