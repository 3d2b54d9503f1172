-- ===== src/Proto/Engine/Offers/Parties.antt =====
-- What each side of the exchange can offer: ids and manifests of the right form, and stores whose
-- index can be carried.
use ferry.Prelude.{
  ℕ, zero, suc, ◌<◌, ◌≡◌, refl, ap, Bool, false, Option, none, some, List, [], ◌∷◌, Bytes, All,
  bytes_eq, ok, arith, IsByte, if_intro, replicate,
}
use ferry.Prelude.Maps.{insert}
use ferry.Store.Format.{BlobId}
use ferry.Store.Index.{IndexEntry}
use ferry.Proto.Wire.{IsArray}
use ferry.Proto.Engine.{
  FolderState, FolderOutcome, budget, folder_sentinel, no_manifest, nonzero_manifest, find_folder,
  find_outcome,
}
use ferry.Proto.Engine.Offers.{Learned, learn, or_else, manifest_or_zero, effective_manifest}
use ferry.Proto.Engine.Offers.Talk.{Party, HasEntries, offer_of}
use ferry.Proto.Engine.Offers.Adverts.{IsIndexed}

-- A manifest's id, where there is one: 32 bytes, and not the id that stands for none.
abbrev pub IsManifestId : Option BlobId → Type 0
IsManifestId none = Unit {0}
IsManifestId (some m) = IsArray 32 m × (bytes_eq m no_manifest ≡ false)

-- A folder that can be offered; its store can be read, and its index can be carried.
pub record IsOffered {W H : Type 0} (s : Party W H) (w : W) (f : FolderState H) : Type 0 where
  pub id_array : IsArray 16 f.folder_id
  pub not_sentinel : bytes_eq f.folder_id folder_sentinel ≡ false
  pub manifest : IsManifestId f.current_manifest
  pub indexed : (es : List IndexEntry) × (s.index_entries f.store w ≡ ok es) × IsIndexed es

pub record IsParty {W H : Type 0} (s : Party W H) (w : W) : Type 0 where
  pub offered : All (IsOffered s w) s.folders
  pub manifests : All (λ o. IsManifestId o.local_manifest_after) s.outcomes
  pub room : budget < s.fuel

-- The manifest that a side tells of a folder.
abbrev pub told : {W H : Type 0} → Party W H → Bytes → Option BlobId
told s id = effective_manifest s.folders s.outcomes id

pub manifest_or_zero-array : (o : Option BlobId) → IsManifestId o → IsArray 32 (manifest_or_zero o)
manifest_or_zero-array none h = (refl, zeros 32)
  where
    zeros : (n : ℕ) → All IsByte (replicate n 0)
    zeros zero = tt
    zeros (suc n) = (omega arith, zeros n)
manifest_or_zero-array (some m) h = h.0

nonzero_manifest-manifest_or_zero :
    (o : Option BlobId) → IsManifestId o → nonzero_manifest (manifest_or_zero o) ≡ o
unfolding nonzero_manifest bytes_eq
nonzero_manifest-manifest_or_zero none h = refl
nonzero_manifest-manifest_or_zero (some m) h = rw h.1 refl

-- What holds of every item holds of the one found, if there is one.
abbrev pub Found : {A : Type 0} → (A → Type 0) → Option A → Type 0
Found P none = Unit {0}
Found P (some a) = P a

pub find_folder-Found :
    {H : Type 0} (P : FolderState H → Type 0) (folders : List (FolderState H)) (id : Bytes)
    → All P folders
    → Found P (find_folder folders id)
unfolding find_folder
find_folder-Found P [] id h = tt
find_folder-Found P (f ∷ fs) id h =
    if_intro (λ o. Found P o) (bytes_eq f.folder_id id) (λ _. h.0)
      (λ _. find_folder-Found P fs id h.1)

find_outcome-Found :
    (P : FolderOutcome → Type 0) (outcomes : List FolderOutcome) (id : Bytes)
    → All P outcomes
    → Found P (find_outcome outcomes id)
unfolding find_outcome
find_outcome-Found P [] id h = tt
find_outcome-Found P (o ∷ os) id h =
    if_intro (λ x. Found P x) (bytes_eq o.folder_id id) (λ _. h.0)
      (λ _. find_outcome-Found P os id h.1)

abbrev pub store_of : {H : Type 0} → Option (FolderState H) → Option H
store_of none = none
store_of (some f) = some f.store

pub store_of-entries :
    {W H : Type 0} (s : Party W H) (w : W) (o : Option (FolderState H))
    → Found (IsOffered s w) o
    → (es : List IndexEntry) × HasEntries s w (store_of o) es × IsIndexed es
store_of-entries s w none h = ([], refl, record { each = tt; few = omega arith })
store_of-entries s w (some f) h = h.indexed

or_else-IsManifestId :
    (m n : Option BlobId) → IsManifestId m → IsManifestId n → IsManifestId (or_else m n)
or_else-IsManifestId none n h k = k
or_else-IsManifestId (some m) n h k = h

Found-IsManifestId :
    {A : Type 0} (field : A → Option BlobId) (o : Option A)
    → Found (λ a. IsManifestId (field a)) o
    → IsManifestId (elim o [ none ↦ none | some a ↦ field a ])
Found-IsManifestId field none h = tt
Found-IsManifestId field (some a) h = h

pub told-IsManifestId :
    {W H : Type 0} (s : Party W H) (w : W) (id : Bytes) → IsParty s w → IsManifestId (told s id)
unfolding effective_manifest
told-IsManifestId {H = H} s w id h =
    or_else-IsManifestId _ _
      (Found-IsManifestId (λ o. o.local_manifest_after) (find_outcome s.outcomes id)
        (find_outcome-Found (λ o. IsManifestId o.local_manifest_after) s.outcomes id h.manifests))
      (Found-IsManifestId (λ f. f.current_manifest) (find_folder s.folders id)
        (weaken (find_folder s.folders id)
          (find_folder-Found (IsOffered s w) s.folders id h.offered)))
  where
    weaken :
        (o : Option (FolderState H))
        → Found (IsOffered s w) o
        → Found (λ f. IsManifestId f.current_manifest) o
    weaken none h = tt
    weaken (some f) h = h.manifest

-- What a side knows after an offer of the folder `id` with the manifest `m`.
abbrev pub with_folder : Bytes → Option BlobId → Learned → List (Bytes × Option BlobId)
with_folder id m l = insert id m l.peer_folders

pub learn-folders :
    (with_adverts : Bool) (id : Bytes) (o : Option BlobId) (map : _) (l : Learned)
    → IsManifestId o
    → (learn with_adverts (offer_of id (manifest_or_zero o)) map l).peer_folders
      ≡ with_folder id o l
unfolding learn
learn-folders with_adverts id o map l h =
    ap (λ m. with_folder id m l) (nonzero_manifest-manifest_or_zero o h)
