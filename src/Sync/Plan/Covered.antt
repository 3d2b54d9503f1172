-- ===== src/Sync/Plan/Covered.antt =====
-- Nothing that a side has is lost: the plan carries out every decision, and each conflict's loser is
-- quarantined.
use ferry.Prelude.{
  ◌≡◌, refl, sym, ap, ◌∙◌, subst, Bool, true, false, not, map, keep, append-nil, append_assoc,
  Option, none, some, List, [], ◌∷◌, ◌++◌, Bytes, All, All-append, ok,
}
use ferry.Prelude.Results.{◌>>=◌, >>=_inv}
use ferry.Store.Diff.{EntryState, CompPath}
use ferry.Sync.Decide.{decide, is_none}
use ferry.Sync.Plan.Build.{ViewMap, Decided, Progress, no_progress, act, states_at, plan_keys}
use ferry.Sync.Plan.Steps.{
  Extends, IsDone, Done-Extends, Extends-trans, Extends-refl, IsStep, act-IsStep, ok_same,
}

-- Of each key, the states that the views give, and its decision.
abbrev pub IsPlanned :
    (dl dr : Bytes) (local_view remote_view : ViewMap) → Progress → Decided → Type 0
IsPlanned dl dr local_view remote_view p d =
    (path : CompPath) × (b : Option EntryState) × (states_at dl dr local_view remote_view d.key
      ≡ some (path, b, d.ours, d.theirs))
    × (d.decision ≡ decide b d.ours d.theirs dl dr)
    × IsDone p path d.decision d.ours d.theirs

abbrev decided_also : Progress → Decided → Progress
decided_also p d = record p { decided = p.decided ++ (d ∷ []) }

module _ (dl dr : Bytes) (local_view remote_view : ViewMap) where
  Planned-Extends :
      (p q : Progress) (ds : List Decided)
      → Extends p q
      → All (IsPlanned dl dr local_view remote_view p) ds
      → All (IsPlanned dl dr local_view remote_view q) ds
  Planned-Extends p q [] e h = tt
  Planned-Extends p q (d ∷ ds) e ((path, b, s, t, u), more) = (
    (path, b, s, t, Done-Extends p q path d.decision d.ours d.theirs e u),
    Planned-Extends p q ds e more,
  )

  one_more :
      (p x : Progress) (key : Bytes) (path : CompPath) (b l r : Option EntryState)
      → states_at dl dr local_view remote_view key ≡ some (path, b, l, r)
      → All (IsPlanned dl dr local_view remote_view p) p.decided
      → IsStep p x path (decide b l r dl dr) l r
      → All
          (IsPlanned dl dr local_view remote_view (
            decided_also x
              (record { key = key; decision = decide b l r dl dr; ours = l; theirs = r })))
          (x.decided
            ++ (record { key = key; decision = decide b l r dl dr; ours = l; theirs = r } ∷ []))
  one_more p x key path b l r e i s =
      let d : Decided = record { key = key; decision = decide b l r dl dr; ours = l; theirs = r } in
      let same = Extends-refl x (decided_also x d) refl refl in
      All-append _ x.decided _
        (subst (λ ds. All (IsPlanned dl dr local_view remote_view (decided_also x d)) ds)
          (sym (IsStep.same_decided s))
          (Planned-Extends p (decided_also x d) p.decided
            (Extends-trans p x (decided_also x d) (IsStep.extends s) same) i))
        (
          (
            path,
            b,
            e,
            refl,
            Done-Extends x (decided_also x d) path (decide b l r dl dr) l r same (IsStep.done s),
          ),
          tt,
        )

  plan_keys-All :
      (ks : List Bytes) (p q : Progress)
      → All (IsPlanned dl dr local_view remote_view p) p.decided
      → plan_keys dl dr local_view remote_view ks p ≡ ok q
      → All (IsPlanned dl dr local_view remote_view q) q.decided
  unfolding plan_keys
  plan_keys-All [] p q i h =
      subst (λ x. All (IsPlanned dl dr local_view remote_view x) x.decided) (ok_same p q h) i
  plan_keys-All (key ∷ ks) p q i h =
      go (states_at dl dr local_view remote_view key) refl h
        (λ p' i' h'. plan_keys-All ks p' q i' h')
    where
      go :
          (o : Option (CompPath × Option EntryState × Option EntryState × Option EntryState))
          → states_at dl dr local_view remote_view key ≡ o
          → (elim o [
            | none ↦ plan_keys dl dr local_view remote_view ks p
            | some (path, b, l, r) ↦ act dl dr path b l r (decide b l r dl dr) p >>= λ x.
                plan_keys dl dr local_view remote_view ks (record x {
                  decided =
                      x.decided
                      ++ (record { key = key; decision = decide b l r dl dr; ours = l; theirs = r }
                          ∷ []);
                })
          ])
            ≡ ok q
          → ((p' : Progress)
              → All (IsPlanned dl dr local_view remote_view p') p'.decided
              → plan_keys dl dr local_view remote_view ks p' ≡ ok q
              → All (IsPlanned dl dr local_view remote_view q) q.decided)
          → All (IsPlanned dl dr local_view remote_view q) q.decided
      go none e k later = later p i k
      go (some (path, b, l, r)) e k later =
          let (x, acted, rest) = >>=_inv (act dl dr path b l r (decide b l r dl dr) p) _ q k in
          let s = act-IsStep dl dr path b l r (decide b l r dl dr) p x acted in
          later _ (one_more p x key path b l r e i s) rest

module _ (dl dr : Bytes) (local_view remote_view : ViewMap) where
  -- Some view has the key.
  abbrev pub is_known : Bytes → Bool
  is_known key = not (is_none (states_at dl dr local_view remote_view key))

  map-append :
      (ds es : List Decided) → map Decided.key (ds ++ es) ≡ map Decided.key ds ++ map Decided.key es
  map-append [] es = refl
  map-append (d ∷ ds) es = ap (λ t. d.key ∷ t) (map-append ds es)

  plan_keys-map :
      (ks : List Bytes) (p q : Progress)
      → plan_keys dl dr local_view remote_view ks p ≡ ok q
      → map Decided.key q.decided ≡ map Decided.key p.decided ++ keep is_known ks
  unfolding plan_keys is_none
  plan_keys-map [] p q h =
      ap (λ x. map Decided.key (Progress.decided x)) (sym (ok_same p q h))
      ∙ sym (append-nil (map Decided.key p.decided))
  plan_keys-map (key ∷ ks) p q h =
      go (states_at dl dr local_view remote_view key) refl h (λ p' h'. plan_keys-map ks p' q h')
    where
      go :
          (o : Option (CompPath × Option EntryState × Option EntryState × Option EntryState))
          → states_at dl dr local_view remote_view key ≡ o
          → (elim o [
            | none ↦ plan_keys dl dr local_view remote_view ks p
            | some (path, b, l, r) ↦ act dl dr path b l r (decide b l r dl dr) p >>= λ x.
                plan_keys dl dr local_view remote_view ks (
                  decided_also x
                    (record { key = key; decision = decide b l r dl dr; ours = l; theirs = r }))
          ])
            ≡ ok q
          → ((p' : Progress)
              → plan_keys dl dr local_view remote_view ks p' ≡ ok q
              → map Decided.key q.decided ≡ map Decided.key p'.decided ++ keep is_known ks)
          → map Decided.key q.decided
            ≡ map Decided.key p.decided
              ++ (elim (not (is_none (states_at dl dr local_view remote_view key))) [
                | true ↦ key ∷ keep is_known ks
                | false ↦ keep is_known ks
              ])
      go none e k later = rw e (later p k)
      go (some (path, b, l, r)) e k later =
          let (x, acted, rest) = >>=_inv (act dl dr path b l r (decide b l r dl dr) p) _ q k in
          let s = act-IsStep dl dr path b l r (decide b l r dl dr) p x acted in
          rw e (
            later _ rest
            ∙ ap (λ t. t ++ keep is_known ks) (map-append x.decided _)
            ∙ append_assoc (map Decided.key x.decided) (key ∷ []) (keep is_known ks)
            ∙ ap (λ ds. map Decided.key ds ++ (key ∷ keep is_known ks)) (IsStep.same_decided s))

-- A loop over any keys that ends with a plan decides, in their order, exactly the keys that some view
-- has. For each it has the decision that the two views' states call for, the operation that applies it
-- where it takes the remote state, and the state that loses a conflict set aside, which is no
-- directory's.
pub plan_keys-IsPlanned :
    (dl dr : Bytes) (local_view remote_view : ViewMap) (ks : List Bytes) (p : Progress)
    → plan_keys dl dr local_view remote_view ks no_progress ≡ ok p
    → (map Decided.key p.decided ≡ keep (is_known dl dr local_view remote_view) ks)
      × All (IsPlanned dl dr local_view remote_view p) p.decided
plan_keys-IsPlanned dl dr local_view remote_view ks p h = (
  plan_keys-map dl dr local_view remote_view ks no_progress p h,
  plan_keys-All dl dr local_view remote_view ks no_progress p tt h,
)
