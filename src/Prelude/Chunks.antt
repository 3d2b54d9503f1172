-- ===== src/Prelude/Chunks.antt =====
-- `slice::chunks`: a list cut into pieces of `size` items, the last of them possibly shorter.
use Prim.Native.Nat.{ℕ, zero, suc, ◌≤◌, ◌<◌}
use mathlib.Core.Path.{◌≡◌, refl, ap, ◌∙◌}
use mathlib.Core.List.{List, [], ◌∷◌, ◌++◌, map}
use native.Mathlib.Omega.{arith}
use ferry.Prelude.Lists.{length, take, drop, All, take-append-drop, length-drop, length-map}

module _ {A : Type 0} where
  -- As many cuts as there are items are enough.
  unfoldable pub cuts : ℕ → ℕ → List A → List (List A)
  cuts zero size xs = []
  cuts (suc n) size [] = []
  cuts (suc n) size (x ∷ xs) = take size (x ∷ xs) ∷ cuts n size (drop size (x ∷ xs))

  unfoldable pub chunks : ℕ → List A → List (List A)
  unfolding cuts
  chunks size xs = cuts (length xs) size xs

  abbrev pub concat : List (List A) → List A
  concat [] = []
  concat (xs ∷ xss) = xs ++ concat xss

  concat-cuts : (n size : ℕ) (xs : List A) → 0 < size → length xs ≤ n → concat (cuts n size xs) ≡ xs
  unfolding cuts
  concat-cuts zero size [] h e = refl
  concat-cuts zero size (x ∷ xs) h e = absurd (omega arith)
  concat-cuts (suc n) size [] h e = refl
  concat-cuts (suc n) size (x ∷ xs) h e =
      ap (λ t. take size (x ∷ xs) ++ t)
        (concat-cuts n size (drop size (x ∷ xs)) h (omega (arith, e, h, length-drop size (x ∷ xs))))
      ∙ take-append-drop size (x ∷ xs)

  -- The pieces one after the other are the list.
  pub concat-chunks : (size : ℕ) (xs : List A) → 0 < size → concat (chunks size xs) ≡ xs
  unfolding chunks
  concat-chunks size xs h = concat-cuts (length xs) size xs h (omega arith)

  -- What every piece is.
  abbrev pub IsPiece : ℕ → List A → Type 0
  IsPiece size p = (0 < length p) × (length p ≤ size)

  cuts-IsPiece : (n size : ℕ) (xs : List A) → 0 < size → All (IsPiece size) (cuts n size xs)
  unfolding cuts
  cuts-IsPiece zero size xs h = tt
  cuts-IsPiece (suc n) size [] h = tt
  cuts-IsPiece (suc n) size (x ∷ xs) h =
      ((taken size (x ∷ xs) h (omega arith), short size (x ∷ xs)), cuts-IsPiece n size _ h)
    where
      taken : (m : ℕ) (ys : List A) → 0 < m → 0 < length ys → 0 < length (take m ys)
      taken zero ys h k = h
      taken (suc m) [] h k = k
      taken (suc m) (y ∷ ys) h k = omega arith

      short : (m : ℕ) (ys : List A) → length (take m ys) ≤ m
      short zero ys = omega arith
      short (suc m) [] = omega arith
      short (suc m) (y ∷ ys) = omega (arith, short m ys)

  -- No piece is empty, and none has more than `size` items.
  pub chunks-IsPiece : (size : ℕ) (xs : List A) → 0 < size → All (IsPiece size) (chunks size xs)
  unfolding chunks
  chunks-IsPiece size xs h = cuts-IsPiece (length xs) size xs h

  cuts-few : (n size : ℕ) (xs : List A) → length (cuts n size xs) ≤ n
  unfolding cuts
  cuts-few zero size xs = omega arith
  cuts-few (suc n) size [] = omega arith
  cuts-few (suc n) size (x ∷ xs) = omega (arith, cuts-few n size (drop size (x ∷ xs)))

  pub chunks-few : (size : ℕ) (xs : List A) → length (chunks size xs) ≤ length xs
  unfolding chunks
  chunks-few size xs = cuts-few (length xs) size xs

module _ {A B : Type 0} (f : A → B) where
  take-map : (n : ℕ) (xs : List A) → take n (map f xs) ≡ map f (take n xs)
  take-map zero xs = refl
  take-map (suc n) [] = refl
  take-map (suc n) (x ∷ xs) = ap (λ t. f x ∷ t) (take-map n xs)

  drop-map : (n : ℕ) (xs : List A) → drop n (map f xs) ≡ map f (drop n xs)
  drop-map zero xs = refl
  drop-map (suc n) [] = refl
  drop-map (suc n) (x ∷ xs) = drop-map n xs

  cuts-map : (n size : ℕ) (xs : List A) → cuts n size (map f xs) ≡ map (map f) (cuts n size xs)
  unfolding cuts
  cuts-map zero size xs = refl
  cuts-map (suc n) size [] = refl
  cuts-map (suc n) size (x ∷ xs) =
      ap (λ t. t ∷ cuts n size (drop size (f x ∷ map f xs))) (take-map size (x ∷ xs))
      ∙ ap (λ t. map f (take size (x ∷ xs)) ∷ t)
          (ap (cuts n size) (drop-map size (x ∷ xs)) ∙ cuts-map n size (drop size (x ∷ xs)))

  -- Cutting commutes with a change of the items.
  pub chunks-map : (size : ℕ) (xs : List A) → chunks size (map f xs) ≡ map (map f) (chunks size xs)
  unfolding chunks
  chunks-map size xs =
      ap (λ n. cuts n size (map f xs)) (length-map f xs) ∙ cuts-map (length xs) size xs
