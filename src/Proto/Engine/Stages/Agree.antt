-- ===== src/Proto/Engine/Stages/Agree.antt =====
-- The two sides decide alike: a side pulls exactly where the other expects to serve.
use ferry.Prelude.{
  ℕ, suc, ◌≡◌, refl, sym, ap, ◌∙◌, Bool, true, not, ◌||◌, Option, none, some, List, [], ◌∷◌, map,
  Bytes, All, any, bytes_eq, bytes_eq_iff, bytes_eq_refl, if◌then◌else◌, arith, Bool-cases, inl,
  inr,
}
use ferry.Prelude.Maps.{lookup, member}
use ferry.Store.Format.{BlobId}
use ferry.Proto.Engine.{Role, initiator, responder, FolderState}
use ferry.Proto.Engine.Stages.{same_role, needs, stage_from, stage_needed, stage_empty}
use ferry.Proto.Engine.Offers.Talk.{Party}
use ferry.Proto.Engine.Offers.Parties.{told}
use ferry.Proto.Engine.Offers.Knows.{Knows, ids_onto}
use ferry.Proto.Engine.Offers.Exchange.{shared}

-- A folder for which the test `p` of its id holds.
abbrev some_id : {H : Type 0} → (Bytes → Bool) → List (FolderState H) → Bool
some_id p fs = any (λ f. p f.folder_id) fs

-- What a stage is, when each folder is told as it is and the peer's manifests are known.
stage_from-some_id :
    {H : Type 0} (idx : ℕ) (fs : List (FolderState H)) (peer_folders : List (Bytes × Option BlobId))
    (whose my_role : Role) (mine theirs : Bytes → Option BlobId)
    → All (λ f. mine f.folder_id ≡ f.current_manifest) fs
    → All (λ f. lookup f.folder_id peer_folders ≡ some (theirs f.folder_id)) fs
    → stage_empty (stage_from idx fs peer_folders whose my_role)
      ≡ not (some_id (λ id. needs whose my_role (mine id) (theirs id)) fs)
unfolding stage_from stage_empty
stage_from-some_id idx [] peer_folders whose my_role mine theirs h k = refl
stage_from-some_id idx (f ∷ fs) peer_folders whose my_role mine theirs h k =
    elim (Bool-cases (needs whose my_role (mine f.folder_id) (theirs f.folder_id))) [
      | inl need ↦ rw (k.0, stage_from, ← h.0, need, stage_empty) refl
      | inr rest ↦
          rw (k.0, stage_from, ← h.0, rest)
            (stage_from-some_id (suc idx) fs peer_folders whose my_role mine theirs h.1 k.1)
    ]

-- Each folder is told with its own manifest, as at the start of a session with distinct ids.
abbrev pub TellsEach : {W H : Type 0} → Party W H → Type 0
TellsEach s = All (λ f. told s f.folder_id ≡ f.current_manifest) s.folders

abbrev pub ids : {H : Type 0} → List (FolderState H) → List Bytes
ids = map (λ f. f.folder_id)

member-ids_onto :
    {H : Type 0} (id : Bytes) (fs : List (FolderState H)) (known : List Bytes)
    → member id (ids_onto fs known) ≡ member id (ids fs) || member id known
unfolding ids_onto member
member-ids_onto id [] known = refl
member-ids_onto id (f ∷ fs) known = ground (arith, member-ids_onto id fs (f.folder_id ∷ known))

-- The manifests of known folders are found.
known_lookup :
    {H : Type 0} (m : Bytes → Option BlobId) (known : List Bytes)
    (peer_folders : List (Bytes × Option BlobId)) (fs : List (FolderState H))
    → Knows m known peer_folders
    → ((id : Bytes) → member id (ids fs) ≡ true → member id known ≡ true)
    → All (λ f. lookup f.folder_id peer_folders ≡ some (m f.folder_id)) fs
unfolding member
known_lookup m known peer_folders [] h k = tt
known_lookup m known peer_folders (f ∷ fs) h k = (
  h f.folder_id
      ∙ ap (λ b. if b then some (m f.folder_id) else none)
          (k f.folder_id (ground (arith, bytes_eq_refl f.folder_id))),
  known_lookup m known peer_folders fs h (λ id e. k id (ground (arith, e))),
)

some_id_inv :
    {H : Type 0} (p : Bytes → Bool) (fs : List (FolderState H))
    → some_id p fs ≡ true
    → (id : Bytes) × (member id (ids fs) ≡ true) × (p id ≡ true)
unfolding member
some_id_inv p [] h = absurd (cc)
some_id_inv p (f ∷ fs) h = elim (Bool-cases (p f.folder_id)) [
  | inl found ↦ (f.folder_id, ground (arith, bytes_eq_refl f.folder_id), found)
  | inr other ↦ let (id, k, e) = some_id_inv p fs (ground arith) in (id, ground (arith, k), e)
]

some_id_intro :
    {H : Type 0} (p : Bytes → Bool) (fs : List (FolderState H)) (id : Bytes)
    → member id (ids fs) ≡ true
    → p id ≡ true
    → some_id p fs ≡ true
unfolding member
some_id_intro p [] id h k = absurd (cc)
some_id_intro p (f ∷ fs) id h k = elim (Bool-cases (bytes_eq id f.folder_id)) [
  | inl same ↦
      let here : p f.folder_id ≡ true = ap p (sym ((bytes_eq_iff id f.folder_id).0 same)) ∙ k in
      ground (arith, here)
  | inr other ↦ ground (arith, some_id_intro p fs id (ground arith) k)
]

needs-swap :
    (whose : Role) (a b : Option BlobId) → needs whose initiator a b ≡ needs whose responder b a
unfolding needs same_role
needs-swap initiator a b = refl
needs-swap responder a b = refl

module _ {W H V K : Type 0} (x : Party W H) (y : Party V K) where
  in_shared : (id : Bytes) → member id (ids x.folders) ≡ true → member id (shared x y) ≡ true
  unfolding member
  in_shared id h =
      ground (
        arith,
        member-ids_onto id y.folders (ids_onto x.folders []),
        member-ids_onto id x.folders [],
      )

  in_shared_too : (id : Bytes) → member id (ids y.folders) ≡ true → member id (shared x y) ≡ true
  in_shared_too id h = ground (arith, member-ids_onto id y.folders (ids_onto x.folders []))

  same_some :
      (p q : Bytes → Bool)
      → ((id : Bytes) → p id ≡ q id)
      → ((id : Bytes) → member id (ids x.folders) ≡ member id (ids y.folders))
      → some_id p x.folders ≡ some_id q y.folders
  same_some p q h k = elim (Bool-cases (some_id p x.folders)) [
    | inl found ↦
        let (id, m, e) = some_id_inv p x.folders found in
        found ∙ sym (some_id_intro q y.folders id (sym (k id) ∙ m) (sym (h id) ∙ e))
    | inr lost ↦ elim (Bool-cases (some_id q y.folders)) [
      | inl found ↦
          let (id, m, e) = some_id_inv q y.folders found in
          absurd (cc (lost, some_id_intro p x.folders id (k id ∙ m) (h id ∙ e)))
      | inr lost' ↦ lost ∙ sym lost'
    ]
  ]

  -- Where each side knows the manifests that the other tells, and tells each of its folders with its
  -- own manifest, and the two configure the same folder ids: the initiator finds the stage of either
  -- role empty exactly when the responder does, so that one side pulls exactly when the other serves.
  pub stage_needed-agree :
      (known_x known_y : List (Bytes × Option BlobId)) (whose : Role)
      → Knows (told y) (shared x y) known_x
      → Knows (told x) (shared x y) known_y
      → TellsEach x
      → TellsEach y
      → ((id : Bytes) → member id (ids x.folders) ≡ member id (ids y.folders))
      → stage_empty (stage_needed x.folders known_x whose initiator)
        ≡ stage_empty (stage_needed y.folders known_y whose responder)
  unfolding stage_needed
  stage_needed-agree known_x known_y whose kx ky hx hy same =
      stage_from-some_id 0 x.folders known_x whose initiator (told x) (told y) hx
        (known_lookup (told y) (shared x y) known_x x.folders kx in_shared)
      ∙ ap not (
          same_some (λ id. needs whose initiator (told x id) (told y id))
            (λ id. needs whose responder (told y id) (told x id))
            (λ id. needs-swap whose (told x id) (told y id)) same)
      ∙ sym (
          stage_from-some_id 0 y.folders known_y whose responder (told y) (told x) hy
            (known_lookup (told x) (shared x y) known_y y.folders ky in_shared_too))
