-- ===== src/Sync/Plan/Steps.antt =====
-- One step of the loop: what a decision asks of the plan, and that acting on it does so.
use ferry.Prelude.{
  ◌≡◌, ◌⊎◌, inl, inr, refl, sym, ap, subst, ◌∙◌, Bool, true, false, Option, none, some, List, [],
  ◌∷◌, ◌++◌, append_assoc, append-nil, Bytes, Result, ok, err, if◌then◌else◌,
}
use ferry.Store.Diff.{EntryState, CompPath}
use ferry.Sync.Decide.{
  Side, local, remote, Decision, nothing, apply_remote, keep_local, conflict, is_dir,
}
use ferry.Sync.Plan.{MaterializeOp, QuarantineOp}
use ferry.Sync.Plan.Build.{StructuralConflict, Progress, loser_content, quarantine_loser, act}

-- Some item satisfies `P`.
abbrev pub Exists : {A : Type 0} → (A → Type 0) → List A → Type 0
Exists P [] = ⊥
Exists P (x ∷ xs) = P x ⊎ Exists P xs

Exists-append : {A : Type 0} (P : A → Type 0) (xs ys : List A) → Exists P xs → Exists P (xs ++ ys)
Exists-append P [] ys h = absurd h
Exists-append P (x ∷ xs) ys (inl p) = inl p
Exists-append P (x ∷ xs) ys (inr h) = inr (Exists-append P xs ys h)

Exists-last : {A : Type 0} (P : A → Type 0) (xs : List A) (y : A) → P y → Exists P (xs ++ (y ∷ []))
Exists-last P [] y p = inl p
Exists-last P (x ∷ xs) y p = inr (Exists-last P xs y p)

-- An operation that brings the path to `result`.
abbrev pub IsApplied : Progress → CompPath → Option EntryState → Type 0
IsApplied p path result =
    Exists (λ op. (MaterializeOp.path op ≡ path) × (MaterializeOp.result op ≡ result)) p.materialize

-- An operation that sets the state aside, which is not a directory's.
abbrev pub IsAside : Progress → CompPath → Side → EntryState → Type 0
IsAside p path side s =
    (is_dir s.kind ≡ false)
    × Exists (λ q. (QuarantineOp.path q ≡ path) × (QuarantineOp.content q ≡ loser_content side s))
        p.quarantine

abbrev pub IsAsideIfAny : Progress → CompPath → Side → Option EntryState → Type 0
IsAsideIfAny p path side none = Unit {0}
IsAsideIfAny p path side (some s) = IsAside p path side s

-- What a decision about a path asks of the plan.
abbrev pub IsDone : Progress → CompPath → Decision → (l r : Option EntryState) → Type 0
IsDone p path nothing l r = Unit {0}
IsDone p path keep_local l r = Unit {0}
IsDone p path apply_remote l r = IsApplied p path r
IsDone p path (conflict kind local) l r = IsAsideIfAny p path remote r
IsDone p path (conflict kind remote) l r = IsApplied p path r × IsAsideIfAny p path local l

-- `q` has the operations of `p`, and perhaps more.
pub record Extends (p q : Progress) : Type 0 where
  pub more_materialize : List MaterializeOp
  pub more_quarantine : List QuarantineOp
  pub same_materialize : q.materialize ≡ p.materialize ++ more_materialize
  pub same_quarantine : q.quarantine ≡ p.quarantine ++ more_quarantine

Applied-Extends :
    (p q : Progress) (path : CompPath) (s : Option EntryState)
    → Extends p q
    → IsApplied p path s
    → IsApplied q path s
Applied-Extends p q path s e h =
    subst (Exists _) (sym (Extends.same_materialize e))
      (Exists-append _ p.materialize (Extends.more_materialize e) h)

Aside-Extends :
    (p q : Progress) (path : CompPath) (side : Side) (s : Option EntryState)
    → Extends p q
    → IsAsideIfAny p path side s
    → IsAsideIfAny q path side s
Aside-Extends p q path side none e h = tt
Aside-Extends p q path side (some s) e h = (
  h.0,
  subst (Exists _) (sym (Extends.same_quarantine e))
      (Exists-append _ p.quarantine (Extends.more_quarantine e) h.1),
)

pub Done-Extends :
    (p q : Progress) (path : CompPath) (d : Decision) (l r : Option EntryState)
    → Extends p q
    → IsDone p path d l r
    → IsDone q path d l r
Done-Extends p q path nothing l r e h = tt
Done-Extends p q path keep_local l r e h = tt
Done-Extends p q path apply_remote l r e h = Applied-Extends p q path r e h
Done-Extends p q path (conflict kind local) l r e h = Aside-Extends p q path remote r e h
Done-Extends p q path (conflict kind remote) l r e h =
    (Applied-Extends p q path r e h.0, Aside-Extends p q path local l e h.1)

-- What a successful step leaves.
pub record IsStep (p q : Progress) (path : CompPath) (d : Decision) (l r : Option EntryState)
    : Type 0 where
  pub extends : Extends p q
  pub done : IsDone q path d l r
  pub same_decided : q.decided ≡ p.decided

if_ok :
    {E A : Type 0} (b : Bool) (e : E) (x y : A)
    → (if b then err e else ok x) ≡ ok y
    → (b ≡ false) × (x ≡ y)
if_ok true e x y h = absurd (cc)
if_ok false e x y h = (refl, cc)

pub Extends-refl :
    (p q : Progress) → q.materialize ≡ p.materialize → q.quarantine ≡ p.quarantine → Extends p q
Extends-refl p q m n = record {
  more_materialize = [];
  more_quarantine = [];
  same_materialize = m ∙ sym (append-nil p.materialize);
  same_quarantine = n ∙ sym (append-nil p.quarantine);
}

pub Extends-trans : (p q r : Progress) → Extends p q → Extends q r → Extends p r
Extends-trans p q r e f = record {
  more_materialize = Extends.more_materialize e ++ Extends.more_materialize f;
  more_quarantine = Extends.more_quarantine e ++ Extends.more_quarantine f;
  same_materialize =
      Extends.same_materialize f
      ∙ ap (λ t. t ++ Extends.more_materialize f) (Extends.same_materialize e)
      ∙ append_assoc p.materialize (Extends.more_materialize e) (Extends.more_materialize f);
  same_quarantine =
      Extends.same_quarantine f
      ∙ ap (λ t. t ++ Extends.more_quarantine f) (Extends.same_quarantine e)
      ∙ append_assoc p.quarantine (Extends.more_quarantine e) (Extends.more_quarantine f);
}

-- What setting a loser aside leaves.
record IsAsideStep (p q : Progress) (path : CompPath) (side : Side) (lost : Option EntryState)
    : Type 0 where
  extends : Extends p q
  aside : IsAsideIfAny q path side lost
  materialize : q.materialize ≡ p.materialize
  decided : q.decided ≡ p.decided

quarantine_step :
    (dl dr : Bytes) (path : CompPath) (side : Side) (lost : Option EntryState) (p q : Progress)
    → quarantine_loser dl dr path side lost p ≡ ok q
    → IsAsideStep p q path side lost
unfolding quarantine_loser
quarantine_step dl dr path side none p q h =
    let e : p ≡ q = cc in
    subst (λ x. IsAsideStep p x path side none) e
      (record {
        extends = Extends-refl p p refl refl;
        aside = tt;
        materialize = refl;
        decided = refl;
      })
quarantine_step dl dr path side (some s) p q h =
    let (plain, e) = if_ok (is_dir s.kind) _ _ q h in
    subst (λ x. IsAsideStep p x path side (some s)) e
      (record {
        extends = record {
          more_materialize = [];
          more_quarantine = _;
          same_materialize = sym (append-nil p.materialize);
          same_quarantine = refl;
        };
        aside = (plain, Exists-last _ p.quarantine _ (refl, refl));
        materialize = refl;
        decided = refl;
      })

pub ok_same : (x y : Progress) → ◌≡◌ {A = Result StructuralConflict Progress} (ok x) (ok y) → x ≡ y
ok_same x y h = cc

added_op :
    (p q : Progress) (op : MaterializeOp)
    → q.materialize ≡ p.materialize ++ (op ∷ [])
    → q.quarantine ≡ p.quarantine
    → Extends p q
added_op p q op m n = record {
  more_materialize = op ∷ [];
  more_quarantine = [];
  same_materialize = m;
  same_quarantine = n ∙ sym (append-nil p.quarantine);
}

pub act-IsStep :
    (dl dr : Bytes) (path : CompPath) (b l r : Option EntryState) (d : Decision) (p q : Progress)
    → act dl dr path b l r d p ≡ ok q
    → IsStep p q path d l r
unfolding act
act-IsStep dl dr path b l r nothing p q h =
    let e : p ≡ q = cc in
    subst (λ x. IsStep p x path nothing l r) e
      (record { extends = Extends-refl p p refl refl; done = tt; same_decided = refl })
act-IsStep dl dr path b l r keep_local p q h =
    subst (λ x. IsStep p x path keep_local l r) (ok_same _ q h)
      (record { extends = Extends-refl p _ refl refl; done = tt; same_decided = refl })
act-IsStep dl dr path b l r apply_remote p q h =
    subst (λ x. IsStep p x path apply_remote l r) (ok_same _ q h)
      (record {
        extends = added_op p _ _ refl refl;
        done = Exists-last _ p.materialize _ (refl, refl);
        same_decided = refl;
      })
act-IsStep dl dr path b l r (conflict kind local) p q h =
    let s = quarantine_step dl dr path remote r _ q h in
    record {
      extends = Extends-trans p _ q (Extends-refl p _ refl refl) (IsAsideStep.extends s);
      done = IsAsideStep.aside s;
      same_decided = IsAsideStep.decided s;
    }
act-IsStep dl dr path b l r (conflict kind remote) p q h =
    let s = quarantine_step dl dr path local l _ q h in
    record {
      extends = Extends-trans p _ q (added_op p _ _ refl refl) (IsAsideStep.extends s);
      done = (
        subst (Exists _) (sym (IsAsideStep.materialize s))
            (Exists-last _ p.materialize _ (refl, refl)),
        IsAsideStep.aside s,
      );
      same_decided = IsAsideStep.decided s;
    }
