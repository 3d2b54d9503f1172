-- ===== src/Store/Reader/Laws/Whole.antt =====
-- Parsers of whole slices: tests, loops, the end of the slice, and `run`. `Accepts p bs a`: on a
-- reader with just `bs` left, `p` returns `a`. `Exact p Q`: where `p` succeeds, `Q` holds of its
-- result and of all the bytes that were left.
use ferry.Prelude.{
  ℕ, zero, suc, ◌<◌, ◌≡◌, ◌↔◌, refl, sym, ap, subst, ◌∙◌, Bool, true, false, Option, none, some,
  List, [], ◌∷◌, ◌++◌, append-nil, Bytes, IsByte, All, length, drop, drop-length, length-drop, ◌==◌,
  ==_iff, Bool-cases, inl, inr, Result, ok, err, map_err, arith,
}
use ferry.Store.Format.{FormatError}
use ferry.Store.Reader.{
  Reader, new, Parser, ◌>>=◌, ◌>>◌, pure, fail, or_fail, fail_if, mapping, times, run, usize_limit,
  expect_end,
}
use ferry.Store.Reader.Laws.{
  At, Reads, Parses, new-At, pure-Reads, >>=-Reads, pure-Parses, >>=-Parses, >>=_inv,
}

abbrev pub Accepts : {E A : Type 0} → Parser E A → Bytes → A → Type 0
Accepts p bs a = (r : Reader) → At r bs → (r' : Reader) × (p r ≡ ok (a, r'))

abbrev pub Exact : {E A : Type 0} → Parser E A → (A → Bytes → Type 0) → Type 0
Exact {A} p Q =
    (r r' : Reader) (a : A) (xs : Bytes) → At r xs → All IsByte xs → p r ≡ ok (a, r') → Q a xs

-- The items written one after the other.
abbrev pub encode_all : {A : Type 0} → (A → Bytes) → List A → Bytes
encode_all enc [] = []
encode_all enc (x ∷ xs) = enc x ++ encode_all enc xs

-- What a list of items parsed one after the other is.
abbrev pub Items : {A : Type 0} → (A → Bytes) → (A → Type 0) → ℕ → List A → Bytes → Type 0
Items enc W n xs ys = (ys ≡ encode_all enc xs) × (length xs ≡ n) × All W xs

expect_end_passes : (r : Reader) → At r [] → expect_end r ≡ ok (tt, r)
unfolding expect_end
expect_end_passes r h = ground (arith, length-drop r.pos r.buf, ap length h.tail, h.within)

expect_end_inv :
    (r r' : Reader) (u : Unit {0}) (xs : Bytes)
    → At r xs
    → expect_end r ≡ ok (u, r')
    → (xs ≡ []) × (r ≡ r')
unfolding expect_end
expect_end_inv r r' u xs h e = elim (Bool-cases (r.pos == length r.buf)) [
  | inl done ↦ (
    sym h.tail ∙ ap (λ k. drop k r.buf) ((==_iff r.pos (length r.buf)).0 done) ∙ drop-length r.buf,
    ground arith,
  )
  | inr more ↦ absurd (ground arith)
]

module _ {E : Type 0} where
  pub fail_if-Reads : (b : Bool) (e : E) → b ≡ false → Reads (fail_if b e) [] tt
  unfolding fail_if pure
  fail_if-Reads true e h r zs at = absurd (cc)
  fail_if-Reads false e h r zs at = (r, refl, at)

  pub fail_if-Parses : (b : Bool) (e : E) → Parses (fail_if b e) (λ _ ys. (ys ≡ []) × (b ≡ false))
  unfolding fail_if fail
  fail_if-Parses true e r r' a xs h bytes eq = absurd (cc)
  fail_if-Parses false e r r' a xs h bytes eq =
      pure-Parses tt (λ _ ys. (ys ≡ []) × (◌≡◌ {A = Bool} false false)) (refl, refl) r r' a xs h
        bytes eq

  pub or_fail-Reads :
      {A : Type 0} (o : Option A) (e : E) {a : A} → o ≡ some a → Reads (or_fail o e) [] a
  unfolding or_fail pure
  or_fail-Reads none e h r zs at = absurd (cc)
  or_fail-Reads (some b) e h r zs at = (r, cc, at)

  pub or_fail-Parses :
      {A : Type 0} (o : Option A) (e : E) → Parses (or_fail o e) (λ a ys. (ys ≡ []) × (o ≡ some a))
  unfolding or_fail fail
  or_fail-Parses none e r r' a xs h bytes eq = absurd (cc)
  or_fail-Parses (some b) e r r' a xs h bytes eq =
      pure-Parses b (λ c ys. (ys ≡ []) × (◌≡◌ {A = Option _} (some b) (some c))) (refl, refl) r r' a
        xs h bytes eq

  pub times-Reads :
      {A : Type 0} (p : Parser E A) (enc : A → Bytes) (W : A → Type 0)
      → ((a : A) → W a → Reads p (enc a) a)
      → (xs : List A) → All W xs
      → Reads (times (length xs) p) (encode_all enc xs) xs
  unfolding times
  times-Reads p enc W hp [] w = pure-Reads []
  times-Reads p enc W hp (x ∷ xs) w = >>=-Reads _ (enc x) (encode_all enc xs) (hp x w.0) (
      subst (λ bs. Reads (times (length xs) p >>= λ ys. pure (x ∷ ys)) bs (x ∷ xs))
        (append-nil (encode_all enc xs))
        (>>=-Reads _ (encode_all enc xs) [] (times-Reads p enc W hp xs w.1) (pure-Reads (x ∷ xs))))

  pub times-Parses :
      {A : Type 0} (p : Parser E A) (enc : A → Bytes) (W : A → Type 0)
      → Parses p (λ a ys. (ys ≡ enc a) × W a)
      → (n : ℕ) → Parses (times n p) (Items enc W n)
  unfolding times
  times-Parses p enc W hp zero = pure-Parses [] _ (refl, refl, tt)
  times-Parses p enc W hp (suc n) = >>=-Parses p _ _ _ hp λ x ys px.
      >>=-Parses (times n p) _ _ _ (times-Parses p enc W hp n) λ xs zs pxs. pure-Parses (x ∷ xs) _ (
        ap (λ t. ys ++ t) (append-nil zs ∙ pxs.0) ∙ ap (λ t. t ++ encode_all enc xs) px.0,
        ap suc pxs.1,
        (px.1, pxs.2),
      )

  pub pure-Accepts : {A : Type 0} (a : A) (bs : Bytes) → Accepts (pure {E = E} a) bs a
  unfolding pure
  pure-Accepts a bs r h = (r, refl)

  pub >>=-Accepts :
      {A B : Type 0} {p : Parser E A} (f : A → Parser E B) (bs cs : Bytes) {a : A} {b : B}
      → Reads p bs a
      → Accepts (f a) cs b
      → Accepts (p >>= f) (bs ++ cs) b
  unfolding ◌>>=◌
  >>=-Accepts f bs cs hp hf r h =
      let (r', e, h') = hp r cs h in let (r'', e') = hf r' h' in (r'', rw (e, ◌>>=◌) e')

  pub >>=-Exact :
      {A B : Type 0} (p : Parser E A) (f : A → Parser E B) (P : A → Bytes → Type 0)
      (Q : B → Bytes → Type 0)
      → Parses p P
      → ((a : A) (ys : Bytes) → P a ys → Exact (f a) (λ b zs. Q b (ys ++ zs)))
      → Exact (p >>= f) Q
  >>=-Exact p f P Q hp hf r r'' b xs h bytes e =
      let (a, r', e1, e2) = >>=_inv p f r b r'' e in
      let (ys, zs, split, P-a, h', bytes') = hp r r' a xs h bytes e1 in
      subst (Q b) (sym split) (hf a ys P-a r' r'' b zs h' bytes' e2)

  -- At the end of the slice `expect_end` passes, and nowhere else.
  pub end-Accepts :
      {B : Type 0} (g : FormatError → E) (k : Parser E B) {b : B}
      → Accepts k [] b
      → Accepts (mapping g expect_end >> k) [] b
  unfolding mapping ◌>>=◌
  end-Accepts g k hk r h =
      let (r', e) = hk r h in (r', rw (expect_end_passes r h, ◌>>=◌, mapping) e)

  pub end-Exact :
      {B : Type 0} (g : FormatError → E) (k : Parser E B) (Q : B → Bytes → Type 0)
      → ((r r' : Reader) (b : B) → At r [] → k r ≡ ok (b, r') → Q b [])
      → Exact (mapping g expect_end >> k) Q
  unfolding mapping
  end-Exact g k Q hk r r'' b xs h bytes e =
      let (u, r', e1, e2) = >>=_inv (mapping g expect_end) (λ _. k) r b r'' e in
      let (empty, same) = expect_end_inv r r' u xs h (plain (expect_end r) u r' e1) in
      subst (Q b) (sym empty)
        (hk r r'' b (subst (At r) empty h) (subst (λ t. k t ≡ ok (b, r'')) (sym same) e2))
    where
      plain :
          (o : Result FormatError (Unit {0} × Reader)) (u : Unit {0}) (r' : Reader)
          → map_err g o ≡ ok (u, r')
          → o ≡ ok (u, r')
      plain (ok x) u r' e1 = cc
      plain (err x) u r' e1 = absurd (cc)

  pub run-Accepts :
      {A : Type 0} (p : Parser E A) (bs : Bytes) (a : A)
      → Accepts p bs a
      → length bs < usize_limit
      → run p bs ≡ ok a
  run-Accepts p bs a hp fits = let (r', e) = hp (new bs) (new-At bs fits) in rw (e, run)

  pub run_exact :
      {A : Type 0} (p : Parser E A) (Q : A → Bytes → Type 0) (bs : Bytes) (a : A)
      → Exact p Q
      → length bs < usize_limit
      → All IsByte bs
      → run p bs ≡ ok a
      → Q a bs
  run_exact {A} p Q bs a hp fits bytes e = finish (p (new bs)) refl e
    where
      finish :
          (o : Result E (A × Reader))
          → p (new bs) ≡ o
          → elim o [ ok (x, r) ↦ ok x | err x ↦ err x ] ≡ ok a
          → Q a bs
      finish (ok (x, r)) e1 e2 =
          hp (new bs) r a bs (new-At bs fits) bytes (e1 ∙ ap (λ t. ok (t, r)) (some_same x e2))
        where
          some_same : (x : A) → ◌≡◌ {A = Result E A} (ok x) (ok a) → x ≡ a
          some_same x e3 = cc
      finish (err x) e1 e2 = absurd (cc)

module _ {E A : Type 0} where
  pub pure_inv : (a b : A) (r r' : Reader) → pure {E = E} a r ≡ ok (b, r') → a ≡ b
  unfolding pure
  pure_inv a b r r' e = cc

  pub end_pure-Exact :
      (g : FormatError → E) (a : A) (Q : A → Bytes → Type 0)
      → Q a []
      → Exact (mapping g expect_end >> pure a) Q
  end_pure-Exact g a Q q =
      end-Exact g (pure a) Q λ r r' b h e. subst (λ c. Q c []) (pure_inv a b r r' e) q

  fail_if_inv :
      (b : Bool) (e : E) (a c : A) (r r' : Reader)
      → (fail_if b e >> pure a) r ≡ ok (c, r')
      → (b ≡ false) × (a ≡ c)
  unfolding fail_if fail pure ◌>>=◌
  fail_if_inv true e a c r r' h = absurd (cc)
  fail_if_inv false e a c r r' h = (refl, cc)

  -- A last test after the end of the slice.
  pub end_check-Exact :
      (g : FormatError → E) (b : Bool) (e : E) (a : A) (Q : A → Bytes → Type 0)
      → (b ≡ false → Q a [])
      → Exact (mapping g expect_end >> (fail_if b e >> pure a)) Q
  end_check-Exact g b e a Q q = end-Exact g (fail_if b e >> pure a) Q λ r r' c h eq.
      let (passed, same) = fail_if_inv b e a c r r' eq in subst (λ t. Q t []) same (q passed)

  -- A parser that accepts what `enc` writes of every value of `W`, and nothing else.
  pub record Codec (p : Parser E A) (enc : A → Bytes) (W : A → Type 0) : Type 0 where
    pub accepts : (a : A) → W a → Accepts p (enc a) a
    pub exact : Exact p (λ a ys. (ys ≡ enc a) × W a)

  -- On a slice such a parser returns `a` exactly when `a` is valid and its bytes are the slice.
  pub run_iff :
      (p : Parser E A) (enc : A → Bytes) (W : A → Type 0)
      → Codec p enc W
      → (bs : Bytes) (a : A) → length bs < usize_limit
      → All IsByte bs
      → (run p bs ≡ ok a) ↔ ((bs ≡ enc a) × W a)
  run_iff p enc W c bs a fits bytes = (
    run_exact p (λ b ys. (ys ≡ enc b) × W b) bs a c.exact fits bytes,
    λ h. run-Accepts p bs a (subst (λ t. Accepts p t a) (sym h.0) (c.accepts a h.1)) fits,
  )
