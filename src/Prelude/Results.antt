-- ===== src/Prelude/Results.antt =====
-- Rust's `Result<A, E>`, with `?` as bind and `map_err`.
use mathlib.Core.Path.{◌≡◌, refl}
use mathlib.Core.Logic.{◌↔◌}
use mathlib.Core.Bool.{Bool, true, false}
use mathlib.Core.Option.{Option, none, some}

pub data Result (E : Type 0) (A : Type 0) : Type 0 where
  ok : A → Result E A
  err : E → Result E A

module _ {E : Type 0} where
  infixl 5 ◌>>=◌ ◌>>◌
  abbrev pub ◌>>=◌ : {A B : Type 0} → Result E A → (A → Result E B) → Result E B
  ok a >>= f = f a
  err e >>= f = err e

  abbrev pub ◌>>◌ : {B : Type 0} → Result E (Unit {0}) → Result E B → Result E B
  m >> k = m >>= λ _. k

  -- `if fails { return Err(e) }`
  abbrev pub refuse : Bool → E → Result E (Unit {0})
  refuse true e = err e
  refuse false e = ok tt

  -- `o.ok_or(e)?`
  abbrev pub ok_or : {A : Type 0} → Option A → E → Result E A
  ok_or none e = err e
  ok_or (some a) e = ok a

abbrev pub map_err : {E F A : Type 0} → (E → F) → Result E A → Result F A
map_err f (ok a) = ok a
map_err f (err e) = err (f e)

module _ {E : Type 0} where
  -- Two checks pass one after the other exactly when both pass.
  pub >>_iff : (m k : Result E (Unit {0})) → ((m >> k) ≡ ok tt) ↔ ((m ≡ ok tt) × (k ≡ ok tt))
  >>_iff (ok u) k = (λ h. (refl, h), λ h. h.1)
  >>_iff (err e) k = (λ h. absurd (cc), λ h. absurd (cc (h.0)))

  pub refuse_iff : (b : Bool) (e : E) → (refuse b e ≡ ok tt) ↔ (b ≡ false)
  refuse_iff true e = (λ h. absurd (cc), λ h. absurd (cc))
  refuse_iff false e = (λ h. refl, λ h. refl)

  -- A chain that succeeds had a first step that succeeded.
  pub >>=_inv :
      {A B : Type 0} (m : Result E A) (f : A → Result E B) (b : B)
      → (m >>= f) ≡ ok b
      → (a : A) × (m ≡ ok a) × (f a ≡ ok b)
  >>=_inv (ok a) f b h = (a, refl, h)
  >>=_inv (err e) f b h = absurd (cc)

  -- `let a = m?; k(a)?; Ok(a)`
  pub checked_inv :
      {A : Type 0} (m : Result E A) (k : A → Result E (Unit {0})) (b : A)
      → (m >>= λ a. k a >>= λ _. ok a) ≡ ok b
      → (m ≡ ok b) × (k b ≡ ok tt)
  checked_inv {A} (ok a) k b h = after (k a) refl h
    where
      after :
          (r : Result E (Unit {0}))
          → k a ≡ r
          → (r >>= λ _. ok a) ≡ ok b
          → (◌≡◌ {A = Result E A} (ok a) (ok b)) × (k b ≡ ok tt)
      after (ok u) e1 e2 = let same : a ≡ b = cc in (cc, cc)
      after (err e) e1 e2 = absurd (cc)
  checked_inv (err e) k b h = absurd (cc)
