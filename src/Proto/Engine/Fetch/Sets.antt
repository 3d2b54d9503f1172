-- ===== src/Proto/Engine/Fetch/Sets.antt =====
-- What holds of every id of a set that grows, and of a list from which the ids of a set are removed.
use ferry.Prelude.{
  ◌≡◌, sym, subst, Bool, true, false, not, List, [], ◌∷◌, All, bytes_eq, bytes_eq_iff, bytes_lt,
  if_intro, Bool-cases, inl, inr, arith,
}
use ferry.Prelude.Maps.{member, add}
use ferry.Store.Format.{BlobId}
use ferry.Proto.Engine.Fetch.{extend, still_missing}

pub All-add :
    (P : BlobId → Type 0) (id : BlobId) (s : List BlobId) → P id → All P s → All P (add id s)
unfolding add
All-add P id [] h k = (h, tt)
All-add P id (j ∷ s) h k =
    if_intro (λ l. All P l) (bytes_lt id j) (λ _. (h, k))
      (λ _. if_intro (λ l. All P l) (bytes_eq id j) (λ _. k) (λ _. (k.0, All-add P id s h k.1)))

pub All-extend :
    (P : BlobId → Type 0) (more got : List BlobId)
    → All P more
    → All P got
    → All P (extend more got)
unfolding extend
All-extend P [] got h k = k
All-extend P (id ∷ more) got h k = All-add P id (extend more got) h.0 (All-extend P more got h.1 k)

pub All-member :
    (P : BlobId → Type 0) (id : BlobId) (s : List BlobId) → All P s → member id s ≡ true → P id
unfolding member
All-member P id [] h k = absurd (cc)
All-member P id (j ∷ s) h k = elim (Bool-cases (bytes_eq id j)) [
  | inl same ↦ subst P (sym ((bytes_eq_iff id j).0 same)) h.0
  | inr other ↦ All-member P id s h.1 (ground (arith, k))
]

pub All_mono :
    (P Q : BlobId → Type 0) (s : List BlobId) → ((id : BlobId) → P id → Q id) → All P s → All Q s
All_mono P Q [] h k = tt
All_mono P Q (id ∷ s) h k = (h id k.0, All_mono P Q s h k.1)

-- What is not missing was got.
pub All-still_missing :
    (P : BlobId → Type 0) (got ids : List BlobId)
    → All P got
    → All P (still_missing got ids)
    → All P ids
unfolding still_missing
All-still_missing P got [] h k = tt
All-still_missing P got (id ∷ ids) h k = elim (Bool-cases (member id got)) [
  | inl there ↦ (
    All-member P id got h there,
    All-still_missing P got ids h (subst (λ b. All P (kept b)) there k),
  )
  | inr not_there ↦
      let k' = subst (λ b. All P (kept b)) not_there k in (k'.0, All-still_missing P got ids h k'.1)
]
  where
    kept : Bool → List BlobId
    kept b = elim (not b) [ true ↦ id ∷ still_missing got ids | false ↦ still_missing got ids ]
