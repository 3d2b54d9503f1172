-- ===== src/Proto/Engine/Fetch/Calls.antt =====
-- The calls of `put_blob` that lead from one state of the stores to another.
use ferry.Prelude.{◌≡◌, ◌⊎◌, inl, refl, sym, subst, List, [], ◌∷◌, ◌++◌, Bytes, ok, err}
use ferry.Store.Format.{BlobId, BlobKind}
use ferry.Proto.Error.{ProtoError}
use ferry.Proto.Engine.Fetch.{Stores}

module _ {W H : Type 0} (s : Stores W H) (h : H) where
  -- Calls of `put_blob` lead from the first state to the second, all of them accepted, of bytes whose
  -- hashes are those ids.
  abbrev pub Puts : List BlobId → W → W → Type 0
  Puts [] w w' = w ≡ w'
  Puts (id ∷ ids) w w' =
      (k : BlobKind) × (b : Bytes) × (w1 : W) × (s.put_blob h k b w ≡ (w1, ok tt))
      × (s.hash b ≡ id)
      × Puts ids w1 w'

  abbrev pub Grows : W → W → Type 0
  Grows w w' = (ids : List BlobId) × Puts ids w w'

  Puts-append :
      (xs ys : List BlobId) (w w' w2 : W) → Puts xs w w' → Puts ys w' w2 → Puts (xs ++ ys) w w2
  Puts-append [] ys w w' w2 p q = subst (λ x. Puts ys x w2) (sym p) q
  Puts-append (x ∷ xs) ys w w' w2 (k, b, w1, e, n, p) q =
      (k, b, w1, e, n, Puts-append xs ys w1 w' w2 p q)

  pub Grows-here : (w : W) → Grows w w
  Grows-here w = ([], refl)

  pub Grows-trans : (w w' w2 : W) → Grows w w' → Grows w' w2 → Grows w w2
  Grows-trans w w' w2 (xs, p) (ys, q) = (xs ++ ys, Puts-append xs ys w w' w2 p q)

  -- Bytes of this hash were put on the way from `w0` to `w`, and accepted.
  abbrev pub IsStored : W → W → BlobId → Type 0
  IsStored w0 w id = (w1 : W) × (w2 : W) × Grows w0 w1 × Puts (id ∷ []) w1 w2 × Grows w2 w

  pub IsStored-Grows :
      (w0 w w' : W) (id : BlobId) → Grows w w' → IsStored w0 w id → IsStored w0 w' id
  IsStored-Grows w0 w w' id g (w1, w2, before, p, after) =
      (w1, w2, before, p, Grows-trans w2 w w' after g)

  -- Accepted calls, and possibly one that fails behind them.
  abbrev pub Fails : W → W → Type 0
  Fails w w' =
      (w1 : W) × Grows w w1
      × ((w1 ≡ w')
          ⊎ ((k : BlobKind) × (b : Bytes) × (e : ProtoError) × (s.put_blob h k b w1 ≡ (w', err e))))

  pub Fails-here : (w : W) → Fails w w
  Fails-here w = (w, Grows-here w, inl refl)

  pub Fails-after : (w w' w2 : W) → Grows w w' → Fails w' w2 → Fails w w2
  Fails-after w w' w2 g (w1, g', f) = (w1, Grows-trans w w' w1 g g', f)
