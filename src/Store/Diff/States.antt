-- ===== src/Store/Diff/States.antt =====
-- The tests of equality on entry states decide equality.
use ferry.Prelude.{
  ◌≡◌, ◌↔◌, refl, Bool, true, Option, none, some, List, [], ◌∷◌, Bytes, bytes_eq_iff, arith,
}
use ferry.Prelude.Int.{int_eq_iff}
use ferry.Store.Manifest.{Chunk}
use ferry.Store.Diff.{
  EntryKind, EntryState, kind_eq, chunks_eq, target_eq, bool_eq, state_eq, option_state_eq,
}

pub kind_eq_iff : (a b : EntryKind) → (kind_eq a b ≡ true) ↔ (a ≡ b)
unfolding kind_eq
kind_eq_iff a b = (λ h. ground arith, λ h. ground arith)

pub chunks_eq_iff : (a b : List Chunk) → (chunks_eq a b ≡ true) ↔ (a ≡ b)
unfolding chunks_eq
chunks_eq_iff [] [] = (λ h. refl, λ h. refl)
chunks_eq_iff [] (y ∷ d) = (λ h. absurd (cc), λ h. absurd (cc))
chunks_eq_iff (x ∷ c) [] = (λ h. absurd (cc), λ h. absurd (cc))
chunks_eq_iff ((i, m) ∷ c) ((j, n) ∷ d) = (
  λ h. ground (arith, bytes_eq_iff i j, chunks_eq_iff c d),
  λ h. ground (arith, bytes_eq_iff i j, chunks_eq_iff c d),
)

pub target_eq_iff : (a b : Option Bytes) → (target_eq a b ≡ true) ↔ (a ≡ b)
unfolding target_eq
target_eq_iff none none = (λ h. refl, λ h. refl)
target_eq_iff none (some b) = (λ h. absurd (cc), λ h. absurd (cc))
target_eq_iff (some a) none = (λ h. absurd (cc), λ h. absurd (cc))
target_eq_iff (some a) (some b) =
    (λ h. ground (arith, bytes_eq_iff a b), λ h. ground (arith, bytes_eq_iff a b))

bool_eq_iff : (a b : Bool) → (bool_eq a b ≡ true) ↔ (a ≡ b)
unfolding bool_eq
bool_eq_iff a b = (λ h. ground arith, λ h. ground arith)

pub state_eq_iff : (a b : EntryState) → (state_eq a b ≡ true) ↔ (a ≡ b)
unfolding state_eq
state_eq_iff a b = (
  λ h. ground (
    arith,
    kind_eq_iff a.kind b.kind,
    bool_eq_iff a.exec b.exec,
    int_eq_iff a.mtime_sec b.mtime_sec,
    chunks_eq_iff a.chunks b.chunks,
    target_eq_iff a.target b.target,
  ),
  λ h. ground (
    arith,
    kind_eq_iff a.kind b.kind,
    bool_eq_iff a.exec b.exec,
    int_eq_iff a.mtime_sec b.mtime_sec,
    chunks_eq_iff a.chunks b.chunks,
    target_eq_iff a.target b.target,
  ),
)

pub option_state_eq_iff : (a b : Option EntryState) → (option_state_eq a b ≡ true) ↔ (a ≡ b)
unfolding option_state_eq
option_state_eq_iff none none = (λ h. refl, λ h. refl)
option_state_eq_iff none (some b) = (λ h. absurd (cc), λ h. absurd (cc))
option_state_eq_iff (some a) none = (λ h. absurd (cc), λ h. absurd (cc))
option_state_eq_iff (some a) (some b) =
    (λ h. ground (arith, state_eq_iff a b), λ h. ground (arith, state_eq_iff a b))
