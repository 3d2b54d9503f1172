-- ===== src/Proto/Session/Run.antt =====
-- Two parties and the frames under way between them. A step is one party's: it sends, or takes the
-- next frame. Which party moves is open: a run is any order of steps.
use ferry.Prelude.{
  ℕ, zero, suc, ◌+◌, ◌≡◌, refl, sym, ap, subst, ◌∙◌, Option, none, some, List, [], ◌∷◌, ◌++◌, ◌⊎◌,
  inl, inr, Result, arith,
}
use ferry.Proto.Error.{ProtoError}
use ferry.Proto.Session.{Message, Peer, verdict, Process, done, send, recv, out_of_fuel}

-- A party after its step, what is left of its inbox, and what it sent.
pub record Moved (W A : Type 0) : Type 0 where
  pub party : Process W A
  pub inbox : List Message
  pub sent : List Message

module _ {W A : Type 0} (peer : Peer) where
  -- The party behind `recv` meets the next frame: `none` skips it.
  abbrev pub take_frame :
      (Result ProtoError Message → Process W A)
      → List Message
      → Option (Result ProtoError Message)
      → Moved W A
  take_frame k rest none = record { party = recv k; inbox = rest; sent = [] }
  take_frame k rest (some r) = record { party = k r; inbox = rest; sent = [] }

  unfoldable pub advance : Process W A → List Message → Option (Moved W A)
  advance (send m p) inbox = some (record { party = p; inbox = inbox; sent = m ∷ [] })
  advance (recv k) [] = none
  advance (recv k) (m ∷ rest) = some (take_frame k rest (verdict peer m))
  advance _ inbox = none

  -- What arrives later does not change a step that is possible now.
  advance-frame :
      (p : Process W A) (inbox more : List Message) {s : Moved W A}
      → advance p inbox ≡ some s
      → advance p (inbox ++ more) ≡ some (record s { inbox = s.inbox ++ more })
  unfolding advance
  advance-frame (send m p) inbox more {s} e = cc
  advance-frame (recv k) [] more e = absurd (cc)
  advance-frame (recv k) (m ∷ rest) more {s} e = ap some (
      taken (verdict peer m)
      ∙ ap {A = Moved W A} (λ t. record t { inbox = t.inbox ++ more }) (some_same e))
    where
      taken :
          (v : Option (Result ProtoError Message))
          → take_frame k (rest ++ more) v
            ≡ record (take_frame k rest v) { inbox = (take_frame k rest v).inbox ++ more }
      taken none = refl
      taken (some r) = refl

      some_same : {a b : Moved W A} → some a ≡ some b → a ≡ b
      some_same h = cc
  advance-frame (done w r) inbox more e = absurd (cc)
  advance-frame out_of_fuel inbox more e = absurd (cc)

-- The two parties, and what is under way to each.
pub record Link (W A V B : Type 0) : Type 0 where
  pub left : Process W A
  pub right : Process V B
  pub to_left : List Message
  pub to_right : List Message

-- `pl` is what the left party knows of the right one, `pr` the other way round.
module _ {W A V B : Type 0} (pl pr : Peer) where
  abbrev moved_left : Link W A V B → Moved W A → Link W A V B
  moved_left l s = record l { left = s.party; to_left = s.inbox; to_right = l.to_right ++ s.sent }

  abbrev moved_right : Link W A V B → Moved V B → Link W A V B
  moved_right l s = record l { right = s.party; to_right = s.inbox; to_left = l.to_left ++ s.sent }

  pub data Step (l l' : Link W A V B) : Type 0 where
    by_left :
        (s : Moved W A) → advance pl l.left l.to_left ≡ some s → l' ≡ moved_left l s → Step l l'
    by_right :
        (s : Moved V B) → advance pr l.right l.to_right ≡ some s → l' ≡ moved_right l s → Step l l'

  -- Runs of `n` steps.
  unfoldable pub Run : ℕ → Link W A V B → Link W A V B → Type 0
  Run zero l l' = l ≡ l'
  Run (suc n) l l' = (m : Link W A V B) × Step l m × Run n m l'

  -- Neither party can move.
  abbrev pub IsFinal : Link W A V B → Type 0
  IsFinal l = (advance pl l.left l.to_left ≡ none) × (advance pr l.right l.to_right ≡ none)

  -- Two steps from one link are the same, or can be followed by one that brings them together.
  diamond :
      (l m m' : Link W A V B)
      → Step l m
      → Step l m'
      → (m ≡ m') ⊎ ((j : Link W A V B) × Step m j × Step m' j)
  diamond l m m' (by_left s e g) (by_left t f h) = inl (g ∙ ap (moved_left l) (same e f) ∙ sym h)
    where
      same :
          {a b : Moved W A}
          → advance pl l.left l.to_left ≡ some a
          → advance pl l.left l.to_left ≡ some b
          → a ≡ b
      same e f = cc
  diamond l m m' (by_right s e g) (by_right t f h) = inl (g ∙ ap (moved_right l) (same e f) ∙ sym h)
    where
      same :
          {a b : Moved V B}
          → advance pr l.right l.to_right ≡ some a
          → advance pr l.right l.to_right ≡ some b
          → a ≡ b
      same e f = cc
  diamond l m m' (by_left s e g) (by_right t f h) = inr (
    record {
      left = s.party;
      right = t.party;
      to_left = s.inbox ++ t.sent;
      to_right = t.inbox ++ s.sent;
    },
    rw g (by_right _ (advance-frame pr l.right l.to_right s.sent f) refl),
    rw h (by_left _ (advance-frame pl l.left l.to_left t.sent e) refl),
  )
  diamond l m m' (by_right t f h) (by_left s e g) = inr (
    record {
      left = s.party;
      right = t.party;
      to_left = s.inbox ++ t.sent;
      to_right = t.inbox ++ s.sent;
    },
    rw h (by_left _ (advance-frame pl l.left l.to_left t.sent e) refl),
    rw g (by_right _ (advance-frame pr l.right l.to_right s.sent f) refl),
  )

  not-Step-final : (l m : Link W A V B) → IsFinal l → Step l m → ⊥
  not-Step-final l m h (by_left s e g) = cc (h.0, e)
  not-Step-final l m h (by_right s e g) = cc (h.1, e)

  -- A step on the way to a final link uses up one step of any run that ends there.
  strip :
      (n : ℕ) (l t m : Link W A V B)
      → Run n l t
      → IsFinal t
      → Step l m
      → (k : ℕ) × (n ≡ suc k) × Run k m t
  unfolding Run
  strip zero l t m r h st = absurd (not-Step-final t m h (subst (λ a. Step a m) r st))
  strip (suc n) l t m (u, s, r) h st = elim (diamond l u m s st) [
    | inl same ↦ (n, refl, subst (λ a. Run n a t) same r)
    | inr (j, a, b) ↦ let (k, e, r') = strip n u t j r h a in (n, refl, rw e (j, b, r'))
  ]

  -- Where one order of steps ends, every order ends, after the same number of steps.
  pub Run-confluent :
      (n k : ℕ) (l t u : Link W A V B)
      → Run n l t
      → IsFinal t
      → Run k l u
      → (m : ℕ) × (k + m ≡ n) × Run m u t
  unfolding Run
  Run-confluent n zero l t u r h e = (n, omega arith, subst (λ a. Run n a t) e r)
  Run-confluent n (suc k) l t u r h (v, s, q) =
      let (n', e, r') = strip n l t v r h s in
      let (m, e', r'') = Run-confluent n' k v t u r' h q in (m, omega (arith, e, e'), r'')

-- The two parties change places.
abbrev pub swap : {W A V B : Type 0} → Link W A V B → Link V B W A
swap l = record { left = l.right; right = l.left; to_left = l.to_right; to_right = l.to_left }

Step-swap :
    {W A V B : Type 0} (pl pr : Peer) (l m : Link W A V B)
    → Step pl pr l m
    → Step pr pl (swap l) (swap m)
Step-swap pl pr l m (by_left s e g) = by_right s e (ap swap g)
Step-swap pl pr l m (by_right s e g) = by_left s e (ap swap g)

pub Run-swap :
    {W A V B : Type 0} (pl pr : Peer) (n : ℕ) (l t : Link W A V B)
    → Run pl pr n l t
    → Run pr pl n (swap l) (swap t)
unfolding Run
Run-swap pl pr zero l t r = ap swap r
Run-swap pl pr (suc n) l t (m, s, r) = (swap m, Step-swap pl pr l m s, Run-swap pl pr n m t r)

pub Run-trans :
    {W A V B : Type 0} (pl pr : Peer) (n k : ℕ) (l m t : Link W A V B)
    → Run pl pr n l m
    → Run pl pr k m t
    → (j : ℕ) × Run pl pr j l t
unfolding Run
Run-trans pl pr zero k l m t e q = (k, subst (λ a. Run pl pr k a t) (sym e) q)
Run-trans pl pr (suc n) k l m t (u, s, r) q =
    let (j, r') = Run-trans pl pr n k u m t r q in (suc j, (u, s, r'))
