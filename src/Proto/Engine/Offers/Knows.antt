-- ===== src/Proto/Engine/Offers/Knows.antt =====
-- What a side knows of the other's folders.
use ferry.Prelude.{
  ◌≡◌, refl, sym, ap, subst, ◌∙◌, true, Option, none, some, List, [], ◌∷◌, Bytes, bytes_eq,
  bytes_eq_iff, if◌then◌else◌, Bool-cases, inl, inr,
}
use ferry.Prelude.Maps.{lookup, insert, member, lookup-insert}
use ferry.Store.Format.{BlobId}
use ferry.Proto.Engine.{FolderState}
use ferry.Proto.Engine.Offers.{Learned}
use ferry.Proto.Engine.Offers.Talk.{Party}
use ferry.Proto.Engine.Offers.Parties.{told}

-- The folders `known` have the manifests `m`, and no other folder is there.
abbrev pub Knows : (Bytes → Option BlobId) → List Bytes → List (Bytes × Option BlobId) → Type 0
Knows m known folders =
    (id : Bytes) → lookup id folders ≡ (if member id known then some (m id) else none)

-- The ids of folders, in front of others.
unfoldable pub ids_onto : {H : Type 0} → List (FolderState H) → List Bytes → List Bytes
ids_onto [] known = known
ids_onto (f ∷ fs) known = ids_onto fs (f.folder_id ∷ known)

pub Knows-insert :
    (m : Bytes → Option BlobId) (id : Bytes) (known : List Bytes)
    (folders : List (Bytes × Option BlobId))
    → Knows m known folders
    → Knows m (id ∷ known) (insert id (m id) folders)
unfolding member
Knows-insert m id known folders h k = elim (Bool-cases (bytes_eq k id)) [
  | inl same ↦
      lookup-insert k id (m id) folders
      ∙ rw same (ap (λ j. some (m j)) (sym ((bytes_eq_iff k id).0 same)))
  | inr other ↦ lookup-insert k id (m id) folders ∙ rw other (h k)
]

pub Knows-again :
    (m : Bytes → Option BlobId) (id : Bytes) (known : List Bytes)
    (folders : List (Bytes × Option BlobId))
    → member id known ≡ true
    → Knows m known folders
    → Knows m (id ∷ known) folders
unfolding member
Knows-again m id known folders e h k = elim (Bool-cases (bytes_eq k id)) [
  | inl same ↦
      h k
      ∙ rw same (
          ap (λ b. if b then some (m k) else none)
            (subst (λ j. member j known ≡ true) (sym ((bytes_eq_iff k id).0 same)) e))
  | inr other ↦ h k ∙ rw other refl
]

pub Knows-member :
    (m : Bytes → Option BlobId) (id : Bytes) (known : List Bytes)
    (folders : List (Bytes × Option BlobId)) {a : Option BlobId}
    → Knows m known folders
    → lookup id folders ≡ some a
    → member id known ≡ true
Knows-member m id known folders h e = elim (Bool-cases (member id known)) [
  | inl h1 ↦ h1
  | inr h0 ↦ absurd (cc (e, h id, ap (λ b. if b then some (m id) else none) h0))
]

-- What the two sides know of the folders `known`.
abbrev pub Both :
    {W H V K : Type 0} → Party W H → Party V K → List Bytes → Learned → Learned → Type 0
Both x y known l l' = Knows (told y) known l.peer_folders × Knows (told x) known l'.peer_folders
