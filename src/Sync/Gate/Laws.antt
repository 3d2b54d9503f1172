-- ===== src/Sync/Gate/Laws.antt =====
-- What gating a plan keeps, what it holds back, and when it refuses.
use ferry.Prelude.{
  ◌≡◌, ◌⊎◌, inl, inr, refl, sym, ap, subst, ◌∙◌, Bool, true, false, not, ◌||◌, Bool-cases, Option,
  none, some, List, [], ◌∷◌, map, Bytes, bytes_eq, bytes_eq_iff, any, keep, All, Result, ok, err,
  if◌then◌else◌, if_intro, arith,
}
use ferry.Prelude.Maps.{add, member, member-add}
use ferry.Store.Diff.{CompPath}
use ferry.Sync.Plan.{MaterializeOp, QuarantineOp, PlannedConflict, ActionPlan}
use ferry.Sync.Gate.{
  HeldPath, StructuralSplit, nests, add_all, keys_where, any_held, split_with, find_split,
  held_path, not_held, gate_plan,
}

-- Neither key is an ancestor of the other.
abbrev pub IsApart : Bytes → Bytes → Type 0
IsApart p q = (nests p q ≡ false) × (nests q p ≡ false)

-- What `gate_plan` makes of a plan: the operations on paths that are not held, in their order, and one
-- record for each key of an operation that is, none of which nests with a key that goes on.
pub record IsGated (holds : CompPath → Bool) (plan apply : ActionPlan) (held : List HeldPath)
    : Type 0 where
  materialize :
      apply.materialize ≡ keep (λ op. not (holds (MaterializeOp.path op))) plan.materialize
  quarantine : apply.quarantine ≡ keep (λ op. not (holds (QuarantineOp.path op))) plan.quarantine
  conflicts : apply.conflicts ≡ keep (λ c. not (holds (PlannedConflict.path c))) plan.conflicts
  send : apply.send ≡ plan.send
  fetch : apply.fetch ≡ plan.fetch
  has_local_wins : apply.has_local_wins ≡ plan.has_local_wins
  held_keys : (k : Bytes) → member k (map HeldPath.path held) ≡ member k (keys_where holds plan)
  apart :
      All (λ h. All (IsApart (HeldPath.path h)) (keys_where (λ path. not (holds path)) plan)) held

module _ {A : Type 0} (p : A → Bool) where
  keep_none : (xs : List A) → any p xs ≡ false → keep p xs ≡ []
  keep_none [] h = refl
  keep_none (x ∷ xs) h = elim (Bool-cases (p x)) [
    | inl holds ↦ absurd (ground arith)
    | inr fails ↦ rw (fails, keep) (keep_none xs (ground arith))
  ]

  keep_rest : (xs : List A) → any p xs ≡ false → keep (λ x. not (p x)) xs ≡ xs
  keep_rest [] h = refl
  keep_rest (x ∷ xs) h = elim (Bool-cases (p x)) [
    | inl holds ↦ absurd (ground arith)
    | inr fails ↦ rw (fails, keep) (ap (λ t. x ∷ t) (keep_rest xs (ground arith)))
  ]

member-add_all :
    (k : Bytes) (ks set : List Bytes) → member k (add_all ks set) ≡ member k ks || member k set
unfolding member
member-add_all k [] set = refl
member-add_all k (j ∷ ks) set = ground (arith, member-add_all k ks (add j set), member-add k j set)

member-add_all_nil : (k : Bytes) (ks : List Bytes) → member k (add_all ks []) ≡ member k ks
unfolding member
member-add_all_nil k ks = ground (arith, member-add_all k ks [])

split_with-none :
    (p : Bytes) (others : List Bytes) → split_with p others ≡ none → All (IsApart p) others
unfolding split_with
split_with-none p [] h = tt
split_with-none p (q ∷ others) h = elim (Bool-cases (nests p q || nests q p)) [
  | inl holds ↦ absurd (ground arith)
  | inr fails ↦ ((ground arith, ground arith), split_with-none p others (ground arith))
]

first_none :
    (o rest : Option StructuralSplit)
    → (elim o [ some e ↦ some e | none ↦ rest ]) ≡ none
    → (o ≡ none) × (rest ≡ none)
first_none none rest h = (refl, h)
first_none (some e) rest h = absurd (cc)

find_split-none :
    (held others : List Bytes)
    → find_split held others ≡ none
    → All (λ p. All (IsApart p) others) held
unfolding find_split
find_split-none [] others h = tt
find_split-none (p ∷ held) others h =
    let (e, rest) = first_none (split_with p others) (find_split held others) h in
    (split_with-none p others e, find_split-none held others rest)

-- A refusal names two keys of which one is an ancestor of the other.
abbrev pub IsSplit : StructuralSplit → Type 0
IsSplit e = nests e.pinned e.other || nests e.other e.pinned ≡ true

split_with-some :
    (p : Bytes) (others : List Bytes) (e : StructuralSplit)
    → split_with p others ≡ some e
    → IsSplit e × (e.pinned ≡ p) × (member e.other others ≡ true)
unfolding split_with member
split_with-some p [] e h = absurd (cc)
split_with-some p (q ∷ others) e h = go (nests p q || nests q p) refl h (split_with-some p others e)
  where
    go :
        (b : Bool)
        → nests p q || nests q p ≡ b
        → (if b then some (record { pinned = p; other = q }) else split_with p others) ≡ some e
        → (split_with p others ≡ some e
            → IsSplit e × (e.pinned ≡ p) × (member e.other others ≡ true))
        → IsSplit e × (e.pinned ≡ p) × (bytes_eq e.other q || member e.other others ≡ true)
    go true nested found later =
        let same : ◌≡◌ {A = StructuralSplit} (record { pinned = p; other = q }) e = cc in
        subst
          (λ x. IsSplit x × (x.pinned ≡ p) × (bytes_eq x.other q || member x.other others ≡ true))
          same (nested, refl, ground (arith, bytes_eq_iff q q))
    go false nested found later = let (a, b, c) = later found in (a, b, ground arith)

find_split-some :
    (held others : List Bytes) (e : StructuralSplit)
    → find_split held others ≡ some e
    → IsSplit e × (member e.pinned held ≡ true) × (member e.other others ≡ true)
unfolding find_split member
find_split-some [] others e h = absurd (cc)
find_split-some (p ∷ held) others e h =
    go (split_with p others) refl h (find_split-some held others e)
  where
    go :
        (o : Option StructuralSplit)
        → split_with p others ≡ o
        → (elim o [ some s ↦ some s | none ↦ find_split held others ]) ≡ some e
        → (find_split held others ≡ some e
            → IsSplit e × (member e.pinned held ≡ true) × (member e.other others ≡ true))
        → IsSplit e
          × (bytes_eq e.pinned p || member e.pinned held ≡ true)
          × (member e.other others ≡ true)
    go none eq found later = let (a, b, c) = later found in (a, ground arith, c)
    go (some s) eq found later =
        let same : s ≡ e = cc in
        let (a, b, c) = split_with-some p others s eq in
        subst
          (λ x.
            IsSplit x
            × (bytes_eq x.pinned p || member x.pinned held ≡ true)
            × (member x.other others ≡ true))
          same (a, ground (arith, bytes_eq_iff s.pinned p), c)

module _ (holds : CompPath → Bool) (plan : ActionPlan) where
  keys_of : (ks : List Bytes) → map HeldPath.path (map (held_path holds plan) ks) ≡ ks
  unfolding held_path
  keys_of [] = refl
  keys_of (k ∷ ks) = ap (λ t. k ∷ t) (keys_of ks)

  All-paths :
      (P : Bytes → Type 0) (ks : List Bytes)
      → All P ks
      → All (λ h. P (HeldPath.path h)) (map (held_path holds plan) ks)
  unfolding held_path
  All-paths P [] ps = tt
  All-paths P (k ∷ ks) ps = (ps.0, All-paths P ks ps.1)

  keys_where_none : any_held holds plan ≡ false → keys_where holds plan ≡ []
  unfolding any_held keys_where
  keys_where_none h =
      let mat : any (λ op. holds (MaterializeOp.path op)) plan.materialize ≡ false = ground arith in
      let qtn : any (λ op. holds (QuarantineOp.path op)) plan.quarantine ≡ false = ground arith in
      let con : any (λ c. holds (PlannedConflict.path c)) plan.conflicts ≡ false = ground arith in
      simp (
        keep_none _ plan.materialize mat,
        keep_none _ plan.quarantine qtn,
        keep_none _ plan.conflicts con,
      )

  untouched : any_held holds plan ≡ false → IsGated holds plan plan []
  unfolding any_held keys_where
  untouched h =
      let mat : any (λ op. holds (MaterializeOp.path op)) plan.materialize ≡ false = ground arith in
      let qtn : any (λ op. holds (QuarantineOp.path op)) plan.quarantine ≡ false = ground arith in
      let con : any (λ c. holds (PlannedConflict.path c)) plan.conflicts ≡ false = ground arith in
      record {
        materialize = sym (keep_rest _ plan.materialize mat);
        quarantine = sym (keep_rest _ plan.quarantine qtn);
        conflicts = sym (keep_rest _ plan.conflicts con);
        send = refl;
        fetch = refl;
        has_local_wins = refl;
        held_keys = λ k. ap (member k) (sym (keys_where_none h));
        apart = tt;
      }

  gated :
      find_split (add_all (keys_where holds plan) []) (keys_where (λ path. not (holds path)) plan)
        ≡ none
      → IsGated holds plan
          (not_held holds plan)
          (map (held_path holds plan) (add_all (keys_where holds plan) []))
  unfolding not_held
  gated h =
      let held = add_all (keys_where holds plan) [] in
      record {
        materialize = refl;
        quarantine = refl;
        conflicts = refl;
        send = refl;
        fetch = refl;
        has_local_wins = refl;
        held_keys =
            λ k. ap (member k) (keys_of held) ∙ member-add_all_nil k (keys_where holds plan);
        apart = All-paths _ held (find_split-none held _ h);
      }

-- Gating a plan either returns it split by `holds`, or refuses with a key of a held operation and one of
-- an operation that is not held, of which one is an ancestor of the other.
pub gate_plan_cases :
    (holds : CompPath → Bool) (plan : ActionPlan)
    → ((apply : ActionPlan) × (held : List HeldPath) × (gate_plan holds plan ≡ ok (apply, held))
        × IsGated holds plan apply held)
      ⊎ ((e : StructuralSplit) × (gate_plan holds plan ≡ err e)
          × IsSplit e
          × (member e.pinned (keys_where holds plan) ≡ true)
          × (member e.other (keys_where (λ path. not (holds path)) plan) ≡ true))
unfolding gate_plan
gate_plan_cases holds plan =
    if_intro Outcome (not (any_held holds plan))
      (λ h. inl (plan, [], refl, untouched holds plan (ground arith)))
      (λ h. split (find_split (add_all (keys_where holds plan) []) others) refl)
  where
    others : List Bytes
    others = keys_where (λ path. not (holds path)) plan

    Outcome : Result StructuralSplit (ActionPlan × List HeldPath) → Type 0
    Outcome r =
        ((apply : ActionPlan) × (held : List HeldPath) × (r ≡ ok (apply, held))
          × IsGated holds plan apply held)
        ⊎ ((e : StructuralSplit) × (r ≡ err e)
            × IsSplit e
            × (member e.pinned (keys_where holds plan) ≡ true)
            × (member e.other others ≡ true))

    split :
        (o : Option StructuralSplit)
        → find_split (add_all (keys_where holds plan) []) others ≡ o
        → Outcome (elim o [
          | some e ↦ err e
          | none ↦
              ok (
                not_held holds plan,
                map (held_path holds plan) (add_all (keys_where holds plan) []),
              )
        ])
    split none h = inl (_, _, refl, gated holds plan h)
    split (some e) h =
        let (a, b, c) = find_split-some (add_all (keys_where holds plan) []) others e h in
        inr (e, refl, a, sym (member-add_all_nil e.pinned (keys_where holds plan)) ∙ b, c)
