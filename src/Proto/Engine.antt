-- ===== src/Proto/Engine.antt =====
-- crates/ferry-proto/src/engine.rs: what a session is configured with and what it reports. `H` names
-- a store; the stores' contents are the state `W` of the party. The party's own key is used by the
-- handshake alone, and is left out.
pub mod Offers
pub mod Stages
pub mod Fetch
pub mod Serve
use ferry.Prelude.{
  ℕ, Bool, true, false, Option, none, some, List, [], ◌∷◌, Bytes, bytes_eq, replicate,
  if◌then◌else◌,
}
use ferry.Store.Format.{BlobId}
use ferry.Proto.Error.{
  ProtoError, io_eof, io_other, incompatible, violation, unknown_message, frame_too_large, auth,
  identity_mismatch, counter_exhausted, bye_received, budget_exceeded, ByeReason,
  version_incompatible, protocol_violation, auth_failed, resource_limit, internal,
}

pub data Role : Type 0 where
  initiator responder : Role

pub data Granularity : Type 0 where
  auto items_only packs_only : Granularity

pub record FolderState (H : Type 0) : Type 0 where
  pub folder_id : Bytes
  pub store : H
  pub current_manifest : Option BlobId

pub record EngineConfig (H : Type 0) : Type 0 where
  pub expected_peer : Bytes
  pub folders : List (FolderState H)
  pub encryption : Bool
  pub granularity : Granularity
  pub max_retries : ℕ

pub record FolderOutcome : Type 0 where
  pub folder_id : Bytes
  pub local_manifest_after : Option BlobId
  pub remote_manifest : Option BlobId
  pub agreement_recorded : Option BlobId
  pub rejections : ℕ

abbrev pub budget : ℕ
budget = 262_144

-- `FOLDER_SENTINEL`, and the id that stands for no manifest.
abbrev pub folder_sentinel : Bytes
folder_sentinel = replicate 16 0

abbrev pub no_manifest : BlobId
no_manifest = replicate 32 0

unfoldable pub nonzero_manifest : BlobId → Option BlobId
nonzero_manifest id = if bytes_eq id no_manifest then none else some id

-- `folders.iter().find(|f| f.folder_id == folder_id)`
unfoldable pub find_folder : {H : Type 0} → List (FolderState H) → Bytes → Option (FolderState H)
find_folder [] id = none
find_folder (f ∷ fs) id = if bytes_eq f.folder_id id then some f else find_folder fs id

unfoldable pub find_outcome : List FolderOutcome → Bytes → Option FolderOutcome
find_outcome [] id = none
find_outcome (o ∷ os) id = if bytes_eq o.folder_id id then some o else find_outcome os id

-- The outcomes that `run_engine` starts from.
unfoldable pub initial_outcomes : {H : Type 0} → List (FolderState H) → List FolderOutcome
initial_outcomes [] = []
initial_outcomes (f ∷ fs) =
    record {
      folder_id = f.folder_id;
      local_manifest_after = f.current_manifest;
      remote_manifest = none;
      agreement_recorded = none;
      rejections = 0;
    }
    ∷ initial_outcomes fs

-- `abort`: an error of the stream, and a BYE of the peer, are not answered.
unfoldable pub abort_reason : ProtoError → Option ByeReason
abort_reason (bye_received _) = none
abort_reason io_eof = none
abort_reason io_other = none
abort_reason (incompatible _ _) = some version_incompatible
abort_reason (violation _) = some protocol_violation
abort_reason (unknown_message _) = some protocol_violation
abort_reason (auth _) = some auth_failed
abort_reason (identity_mismatch _ _) = some auth_failed
abort_reason (frame_too_large _ _) = some resource_limit
abort_reason counter_exhausted = some resource_limit
abort_reason (budget_exceeded _ _) = some resource_limit
abort_reason _ = some internal
