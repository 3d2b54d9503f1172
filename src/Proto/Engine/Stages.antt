-- ===== src/Proto/Engine/Stages.antt =====
-- crates/ferry-proto/src/engine.rs: which side pulls, and of which folders. Each side decides from its
-- own folders and from what it has learned of the other's.
pub mod Agree
use ferry.Prelude.{
  ℕ, suc, ◌+◌, ◌≡◌, ◌↔◌, refl, sym, ap, subst, ◌∙◌, Bool, true, false, not, ◌||◌, Option, none,
  some, List, [], ◌∷◌, Bytes, All, any, bytes_eq, bytes_eq_iff, if◌then◌else◌, arith, Bool-cases,
  inl, inr,
}
use ferry.Prelude.Maps.{lookup, member}
use ferry.Store.Format.{BlobId}
use ferry.Proto.Engine.{Role, initiator, responder, FolderState}
use ferry.Proto.Engine.Offers.{Learned}
use ferry.Proto.Engine.Offers.Talk.{Party}
use ferry.Proto.Engine.Offers.Parties.{told}
use ferry.Proto.Engine.Offers.Knows.{Knows, ids_onto}
use ferry.Proto.Engine.Offers.Exchange.{shared}

-- `matches!(theirs, Some(t) if mine != Some(t))`
unfoldable pub pull_needed : Option BlobId → Option BlobId → Bool
pull_needed mine none = false
pull_needed none (some t) = true
pull_needed (some m) (some t) = not (bytes_eq m t)

unfoldable pub same_role : Role → Role → Bool
same_role initiator initiator = true
same_role responder responder = true
same_role _ _ = false

-- The test of one folder: `that_side` pulls from its `counterpart`.
unfoldable pub needs : Role → Role → Option BlobId → Option BlobId → Bool
unfolding pull_needed same_role
needs whose my_role mine theirs =
    if same_role whose my_role then pull_needed mine theirs else pull_needed theirs mine

-- The loop of `stage_needed`, from the index `idx` on.
unfoldable pub stage_from :
    {H : Type 0} → ℕ → List (FolderState H) → List (Bytes × Option BlobId) → Role → Role → List ℕ
unfolding needs lookup
stage_from idx [] peer_folders whose my_role = []
stage_from idx (f ∷ fs) peer_folders whose my_role =
    let rest = stage_from (suc idx) fs peer_folders whose my_role in
    elim (lookup f.folder_id peer_folders) [
      | none ↦ rest
      | some pf ↦ if needs whose my_role f.current_manifest pf then idx ∷ rest else rest
    ]

unfoldable pub stage_needed :
    {H : Type 0} → List (FolderState H) → List (Bytes × Option BlobId) → Role → Role → List ℕ
unfolding stage_from
stage_needed folders peer_folders whose my_role = stage_from 0 folders peer_folders whose my_role

unfoldable pub stage_empty : List ℕ → Bool
stage_empty [] = true
stage_empty _ = false
