-- ===== src/Store/Reader/Laws.antt =====
-- How a `Reader` consumes its bytes. `Reads p bs a`: in front of `bs` the parser `p` returns `a` and
-- moves past `bs`. `Parses p Q`: whenever `p` succeeds, `Q` holds of its result and what it consumed.
pub mod Primitives
pub mod Whole
use ferry.Prelude.{
  ℕ, zero, suc, ◌+◌, ◌-◌, ◌≤◌, ◌<◌, ◌≡◌, refl, sym, ap, ◌∙◌, true, false, Option, none, some, List,
  [], ◌∷◌, ◌++◌, append_assoc, append-nil, Bytes, IsByte, All, All-of_append, length, take, drop,
  subst, length-append, length-take, length-drop, take-append, drop-append, drop-drop,
  take-append-drop, drop-length, ltb, leb, not, Bool, inl, inr, Bool-cases, lt→ltb, le→ltb,
  ltb-false, Result, ok, err, map_err, arith,
}
use ferry.Store.Format.{FormatError}
use ferry.Store.Reader.{
  Reader, new, Parser, ◌>>=◌, pure, fail, or_fail, fail_if, mapping, times, run, usize_limit,
  take_n, rest, expect_end,
}

-- `xs` is what the reader has not consumed.
pub record At (r : Reader) (xs : Bytes) : Type 0 where
  pub fits : length r.buf < usize_limit
  pub within : r.pos ≤ length r.buf
  pub tail : drop r.pos r.buf ≡ xs

abbrev pub Reads : {E A : Type 0} → Parser E A → Bytes → A → Type 0
Reads p bs a =
    (r : Reader) (rest : Bytes)
    → At r (bs ++ rest)
    → (r' : Reader) × (p r ≡ ok (a, r')) × At r' rest

abbrev pub Parses : {E A : Type 0} → Parser E A → (A → Bytes → Type 0) → Type 0
Parses {A} p Q =
    (r r' : Reader) (a : A) (xs : Bytes)
    → At r xs
    → All IsByte xs
    → p r ≡ ok (a, r')
    → (ys : Bytes) × (zs : Bytes) × (xs ≡ ys ++ zs) × Q a ys × At r' zs × All IsByte zs

pub new-At : (bytes : Bytes) → length bytes < usize_limit → At (new bytes) bytes
new-At bytes h = record { fits = h; within = omega arith; tail = refl }

module _ {E : Type 0} where
  pub pure-Reads : {A : Type 0} (a : A) → Reads (pure {E = E} a) [] a
  unfolding pure
  pure-Reads a r zs h = (r, refl, h)

  pub >>=-Reads :
      {A B : Type 0} {p : Parser E A} (f : A → Parser E B) (bs cs : Bytes) {a : A} {b : B}
      → Reads p bs a
      → Reads (f a) cs b
      → Reads (p >>= f) (bs ++ cs) b
  unfolding ◌>>=◌
  >>=-Reads f bs cs hp hf r zs h =
      let (r', e, h') = hp r (cs ++ zs) (rw (← append_assoc) h) in
      let (r'', e', h'') = hf r' zs h' in (r'', rw (e, ◌>>=◌) e', h'')

  pub mapping-Reads :
      {F A : Type 0} {p : Parser E A} (f : E → F) (bs : Bytes) {a : A}
      → Reads p bs a
      → Reads (mapping f p) bs a
  unfolding mapping
  mapping-Reads f bs hp r zs h = let (r', e, h') = hp r zs h in (r', rw e, h')

  pub pure-Parses :
      {A : Type 0} (a : A) (Q : A → Bytes → Type 0) → Q a [] → Parses (pure {E = E} a) Q
  unfolding pure
  pure-Parses a Q q r r' b xs h bytes e =
      let same : a ≡ b = cc in
      let moved : r ≡ r' = cc in
      ([], xs, refl, subst (λ c. Q c []) same q, subst (λ t. At t xs) moved h, bytes)

  -- A chain that succeeds had a first step that succeeded.
  pub >>=_inv :
      {A B : Type 0} (p : Parser E A) (f : A → Parser E B) (r : Reader) (b : B) (r'' : Reader)
      → (p >>= f) r ≡ ok (b, r'')
      → (a : A) × (r' : Reader) × (p r ≡ ok (a, r')) × (f a r' ≡ ok (b, r''))
  unfolding ◌>>=◌
  >>=_inv {A} {B} p f r b r'' e = after (p r) refl e
    where
      after :
          (o : Result E (A × Reader))
          → p r ≡ o
          → elim o [ ok (a, r') ↦ f a r' | err x ↦ err x ] ≡ ok (b, r'')
          → (a : A) × (r' : Reader) × (p r ≡ ok (a, r')) × (f a r' ≡ ok (b, r''))
      after (ok (a, r')) e1 e2 = (a, r', e1, e2)
      after (err x) e1 e2 = absurd (cc)

  pub >>=-Parses :
      {A B : Type 0} (p : Parser E A) (f : A → Parser E B) (P : A → Bytes → Type 0)
      (Q : B → Bytes → Type 0)
      → Parses p P
      → ((a : A) (ys : Bytes) → P a ys → Parses (f a) (λ b zs. Q b (ys ++ zs)))
      → Parses (p >>= f) Q
  >>=-Parses p f P Q hp hf r r'' b xs h bytes e =
      let (a, r', e1, e2) = >>=_inv p f r b r'' e in
      let (ys, zs, split, P-a, h', bytes') = hp r r' a xs h bytes e1 in
      let (us, vs, split', Q-b, h'', bytes'') = hf a ys P-a r' r'' b zs h' bytes' e2 in
      (
        ys ++ us,
        vs,
        split ∙ ap (λ t. ys ++ t) split' ∙ sym (append_assoc ys us vs),
        Q-b,
        h'',
        bytes'',
      )

  pub mapping-Parses :
      {F A : Type 0} (f : E → F) (p : Parser E A) (P : A → Bytes → Type 0)
      → Parses p P
      → Parses (mapping f p) P
  unfolding mapping
  mapping-Parses {F} {A} f p P hp r r' a xs h bytes e = hp r r' a xs h bytes (plain (p r) e)
    where
      plain : (o : Result E (A × Reader)) → map_err f o ≡ ok (a, r') → o ≡ ok (a, r')
      plain (ok x) e1 = cc
      plain (err x) e1 = absurd (cc)

  pub Parses_weaken :
      {A : Type 0} (p : Parser E A) (P Q : A → Bytes → Type 0)
      → ((a : A) (ys : Bytes) → P a ys → Q a ys)
      → Parses p P
      → Parses p Q
  Parses_weaken p P Q imp hp r r' a xs h bytes e =
      let (ys, zs, split, P-a, h', bytes') = hp r r' a xs h bytes e in
      (ys, zs, split, imp a ys P-a, h', bytes')

  pub fail-Parses : {A : Type 0} (e : E) (Q : A → Bytes → Type 0) → Parses (fail e) Q
  unfolding fail
  fail-Parses e Q r r' a xs h bytes eq = absurd (cc)
