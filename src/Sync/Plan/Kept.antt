-- ===== src/Sync/Plan/Kept.antt =====
-- A directory that something survives beneath is not removed.
use ferry.Prelude.{
  ◌≡◌, ◌≢◌, refl, ap, ◌∙◌, Bool, true, false, none, List, [], ◌∷◌, map, keep, Bytes, bytes_eq_refl,
  All, arith,
}
use ferry.Prelude.Maps.{member, member-add}
use ferry.Store.Diff.{CompPath, join_path}
use ferry.Sync.Decide.{is_none}
use ferry.Sync.Plan.{MaterializeOp}
use ferry.Sync.Plan.Finish.{
  is_removal, removal_keys, ancestors, member_of, suppress, suppress_all, suppressed, retain,
}

module _ {A : Type 0} (p : A → Bool) (R Q : A → Type 0)
    (pass : (x : A) → R x → p x ≡ true → Q x) where
  keep-All : (xs : List A) → All R xs → All Q (keep p xs)
  keep-All [] rs = tt
  keep-All (x ∷ xs) rs = go (p x) refl (keep-All xs rs.1)
    where
      go :
          (b : Bool)
          → p x ≡ b
          → All Q (keep p xs)
          → All Q (elim b [ true ↦ x ∷ keep p xs | false ↦ keep p xs ])
      go true e more = (pass x rs.0 e, more)
      go false e more = more

module _ (removals : List Bytes) where
  suppress_mono :
      (as' : List CompPath) (set : List Bytes) (k : Bytes)
      → member k set ≡ true
      → member k (suppress removals as' set) ≡ true
  unfolding suppress
  suppress_mono [] set k h = h
  suppress_mono (a ∷ as') set k h =
      suppress_mono as' _ k (ground (arith, member-add k (join_path a) set))

  suppress_hit :
      (as' : List CompPath) (set : List Bytes)
      → All
          (λ a.
            member_of removals (join_path a) ≡ true
            → member (join_path a) (suppress removals as' set) ≡ true)
          as'
  unfolding suppress
  suppress_hit [] set = tt
  suppress_hit (a ∷ as') set = (
    λ h.
        suppress_mono as' _ (join_path a)
          (ground (arith, member-add (join_path a) (join_path a) set, bytes_eq_refl (join_path a))),
    suppress_hit as' _,
  )

  suppress_all_mono :
      (ps : List CompPath) (set : List Bytes) (k : Bytes)
      → member k set ≡ true
      → member k (suppress_all removals ps set) ≡ true
  unfolding suppress_all
  suppress_all_mono [] set k h = h
  suppress_all_mono (p ∷ ps) set k h =
      suppress_all_mono ps _ k (suppress_mono (ancestors p) set k h)

  Hit : List Bytes → CompPath → Type 0
  Hit set a = member_of removals (join_path a) ≡ true → member (join_path a) set ≡ true

  Hit-mono :
      (s t : List Bytes) (as' : List CompPath)
      → ((k : Bytes) → member k s ≡ true → member k t ≡ true)
      → All (Hit s) as'
      → All (Hit t) as'
  unfolding Hit
  Hit-mono s t [] f h = tt
  Hit-mono s t (a ∷ as') f h = (λ x. f (join_path a) (h.0 x), Hit-mono s t as' f h.1)

  suppress_all-Hit :
      (ps : List CompPath) (set : List Bytes)
      → All (λ p. All (Hit (suppress_all removals ps set)) (ancestors p)) ps
  unfolding suppress_all Hit
  suppress_all-Hit [] set = tt
  suppress_all-Hit (p ∷ ps) set =
      let now = suppress removals (ancestors p) set in
      (
        Hit-mono now (suppress_all removals ps now) (ancestors p) (suppress_all_mono ps now)
            (suppress_hit (ancestors p) set),
        suppress_all-Hit ps now,
      )

-- A removal among the operations has its key among the removals' keys.
Listed : List Bytes → MaterializeOp → Type 0
Listed removals op = is_removal op ≡ true → member_of removals (join_path op.path) ≡ true

Listed-more :
    (j : Bytes) (removals : List Bytes) (ops : List MaterializeOp)
    → All (Listed removals) ops
    → All (Listed (j ∷ removals)) ops
unfolding Listed member_of
Listed-more j removals [] h = tt
Listed-more j removals (op ∷ ops) h = (λ r. ground (arith, h.0 r), Listed-more j removals ops h.1)

member_of_head : (k : Bytes) (ks : List Bytes) → member_of (k ∷ ks) k ≡ true
unfolding member_of
member_of_head k ks = ground (arith, bytes_eq_refl k)

removal_keys-Listed : (ops : List MaterializeOp) → All (Listed (removal_keys ops)) ops
unfolding removal_keys Listed
removal_keys-Listed [] = tt
removal_keys-Listed (op ∷ ops) = go (is_removal op) refl (removal_keys-Listed ops)
  where
    keys_of : List MaterializeOp → List Bytes
    keys_of xs = map (λ x. join_path (MaterializeOp.path x)) xs

    go :
        (b : Bool)
        → is_removal op ≡ b
        → All (Listed (keys_of (keep is_removal ops))) ops
        → All
            (Listed
              (keys_of (elim b [ true ↦ op ∷ keep is_removal ops | false ↦ keep is_removal ops ])))
            (op ∷ ops)
    go true e more = (
      λ r. member_of_head (join_path op.path) (keys_of (keep is_removal ops)),
      Listed-more (join_path op.path) (keys_of (keep is_removal ops)) ops more,
    )
    go false e more = (λ r. absurd (cc), more)

module _ (removals supp : List Bytes) (k : Bytes) (absent : member k supp ≡ false)
    (listed : member_of removals k ≡ true) where
  apart_ancestors :
      (as' : List CompPath) → All (Hit removals supp) as' → All (λ a. join_path a ≢ k) as'
  unfolding Hit
  apart_ancestors [] h = tt
  apart_ancestors (a ∷ as') h = (
    λ e.
        let found : member (join_path a) supp ≡ true = h.0 (ap (member_of removals) e ∙ listed) in
        absurd (cc),
    apart_ancestors as' h.1,
  )

  apart_paths :
      (ps : List CompPath)
      → All (λ p. All (Hit removals supp) (ancestors p)) ps
      → All (λ p. All (λ a. join_path a ≢ k) (ancestors p)) ps
  apart_paths [] h = tt
  apart_paths (p ∷ ps) h = (apart_ancestors (ancestors p) h.0, apart_paths ps h.1)

-- Nothing is removed that a path lies beneath which stays: where the suppressed keys are those that the
-- code computes from the operations and the paths that stay, no removal that is retained has the key of a
-- proper ancestor of such a path.
pub retain_safe :
    (ops : List MaterializeOp) (paths : List CompPath)
    → All
        (λ op.
          MaterializeOp.result op ≡ none
          → All
              (λ p. All (λ a. join_path a ≢ join_path (MaterializeOp.path op)) (ancestors p))
              paths)
        (retain (suppressed (removal_keys ops) paths) ops)
unfolding retain suppressed Listed is_removal is_none
retain_safe ops paths =
    keep-All _ (Listed (removal_keys ops)) _
      (λ op listed kept gone.
        let removal : is_removal op ≡ true = ap is_none gone in
        apart_paths (removal_keys ops) (suppressed (removal_keys ops) paths) (join_path op.path)
          (ground arith) (listed removal) paths (suppress_all-Hit (removal_keys ops) paths []))
      ops (removal_keys-Listed ops)
