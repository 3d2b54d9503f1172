-- ===== src/Store/Reader/Laws/Primitives.antt =====
-- The primitive reads of `Reader` and its loops against the writers of format.rs.
use ferry.Prelude.{
  ℕ, ◌+◌, ◌^◌, ◌≤◌, ◌<◌, ◌≡◌, refl, sym, ap, subst, ◌∙◌, [], ◌∷◌, ◌++◌, append-nil, Bytes, IsByte,
  All, All-of_append, length, take, drop, length-append, length-take, length-drop, take-append,
  drop-append, drop-drop, take-append-drop, ltb, lt→ltb, le→ltb, Bool-cases, inl, inr, ltb→lt,
  ltb-false, byte_at, arith, ok, err,
}
use ferry.Prelude.Int.{
  ℤ, IsI64, to_word, of_word, of_word-to_word, to_word-lt, to_word-of_word, of_word-IsI64,
}
use ferry.Store.Format.{FormatError, le_bytes, from_le_bytes, truncated}
use ferry.Store.Format.Laws.{
  length-le_bytes, from_le_bytes-le_bytes, le_bytes-from_le_bytes, from_le_bytes-lt,
}
use ferry.Store.Reader.{Reader, Parser, ◌>>=◌, pure, usize_limit, take_n, u8, u32, u64, i64, array}
use ferry.Store.Reader.Laws.{At, Reads, Parses, pure-Reads, >>=-Reads, pure-Parses, >>=-Parses}

-- What is left has the length that the cursor's place says.
left_length : (r : Reader) (xs : Bytes) → At r xs → r.pos + length xs ≡ length r.buf
left_length r xs h = omega (arith, length-drop r.pos r.buf, ap length h.tail, h.within)

moved-At :
    (r : Reader) (n : ℕ) (xs : Bytes)
    → At r xs
    → n ≤ length xs
    → At (record r { pos = r.pos + n }) (drop n xs)
moved-At r n xs h fits = record {
  fits = h.fits;
  within = omega (arith, left_length r xs h);
  tail = sym (drop-drop n r.pos r.buf) ∙ ap (λ t. drop n t) h.tail;
}

-- Enough bytes are left: they are returned and passed. Too few: the call fails.
take_n_enough :
    (r : Reader) (n : ℕ) (xs : Bytes)
    → At r xs
    → n ≤ length xs
    → take_n n r ≡ ok (take n xs, record r { pos = r.pos + n })
unfolding take_n
take_n_enough r n xs h enough =
    let end : r.pos + n ≤ length r.buf = omega (arith, left_length r xs h) in
    rw (
      lt→ltb (r.pos + n) usize_limit (omega (arith, h.fits)),
      le→ltb (length r.buf) (r.pos + n) end,
      h.tail,
    )

pub take_n_short :
    (r : Reader) (n : ℕ) (xs : Bytes)
    → At r xs
    → length xs < n
    → r.pos + n < usize_limit
    → take_n n r ≡ err (truncated (r.pos + n) (length r.buf))
unfolding take_n
take_n_short r n xs h short fits = rw (
  lt→ltb (r.pos + n) usize_limit fits,
  lt→ltb (length r.buf) (r.pos + n) (omega (arith, left_length r xs h)),
)

pub take_n-Reads : (n : ℕ) (v : Bytes) → length v ≡ n → Reads (take_n n) v v
take_n-Reads n v e r zs h =
    let enough : n ≤ length (v ++ zs) = omega (arith, length-append v zs) in
    let head : take n (v ++ zs) ≡ v = subst (λ k. take k (v ++ zs) ≡ v) e (take-append v zs) in
    let left : drop n (v ++ zs) ≡ zs = subst (λ k. drop k (v ++ zs) ≡ zs) e (drop-append v zs) in
    (
      record r { pos = r.pos + n },
      take_n_enough r n (v ++ zs) h enough ∙ ap (λ t. ok (t, record r { pos = r.pos + n })) head,
      subst (λ t. At (record r { pos = r.pos + n }) t) left (moved-At r n (v ++ zs) h enough),
    )

-- A successful `take` had enough bytes left.
take_n_fits :
    (r r' : Reader) (n : ℕ) (xs a : Bytes) → At r xs → take_n n r ≡ ok (a, r') → n ≤ length xs
unfolding take_n
take_n_fits r r' n xs a h e = elim (Bool-cases (ltb (length xs) n)) [
  | inl short ↦ absurd (ground (arith, left_length r xs h, ltb→lt (length xs) n short))
  | inr enough ↦ ltb-false (length xs) n enough
]

-- What a slice of `n` bytes is.
abbrev pub Slice : ℕ → Bytes → Bytes → Type 0
Slice n a ys = (ys ≡ a) × (length a ≡ n) × All IsByte a

pub take_n-Parses : (n : ℕ) → Parses (take_n n) (Slice n)
take_n-Parses n r r' a xs h bytes e =
    let enough = take_n_fits r r' n xs a h e in
    let run = take_n_enough r n xs h enough in
    let same : take n xs ≡ a = cc (run, e) in
    let moved : record r { pos = r.pos + n } ≡ r' = cc (run, e) in
    let parts : All IsByte (take n xs) × All IsByte (drop n xs) =
      All-of_append IsByte (take n xs) (drop n xs) (rw (take-append-drop n xs) bytes) in
    (
      take n xs,
      drop n xs,
      sym (take-append-drop n xs),
      (same, sym (ap length same) ∙ length-take n xs enough, subst (All IsByte) same parts.0),
      subst (λ t. At t (drop n xs)) moved (moved-At r n xs h enough),
      parts.1,
    )

pub u8-Reads : (v : ℕ) → Reads u8 (v ∷ []) v
unfolding u8
u8-Reads v r zs h =
    >>=-Reads (λ s. pure (byte_at s 0)) (v ∷ []) [] (take_n-Reads 1 (v ∷ []) refl) (pure-Reads v) r
      zs h

pub u8-Parses : Parses u8 (λ v ys. (ys ≡ v ∷ []) × (v < 256))
unfolding u8
u8-Parses =
    >>=-Parses (take_n 1) (λ s. pure (byte_at s 0)) (Slice 1) _ (take_n-Parses 1)
      (λ s ys p. pure-Parses (byte_at s 0) _ (one s ys p))
  where
    one : (s ys : Bytes) → Slice 1 s ys → (ys ++ [] ≡ byte_at s 0 ∷ []) × (byte_at s 0 < 256)
    one (b ∷ []) ys (e, _, bytes) = (append-nil ys ∙ e, bytes.0)
    one [] ys (e, n, _) = absurd (omega arith)
    one (a ∷ b ∷ bs) ys (e, n, _) = absurd (omega arith)

-- What the little-endian bytes of a word are.
abbrev pub Word : ℕ → ℕ → Bytes → Type 0
Word k v ys = (ys ≡ le_bytes k v) × (v < 256 ^ k)

-- A word read through any parser of slices, `take` under its own error or another.
module _ {E : Type 0} (p : Parser E Bytes) (k : ℕ) where
  pub word-Reads :
      ((s : Bytes) → length s ≡ k → Reads p s s)
      → (v : ℕ) → v < 256 ^ k
      → Reads (p >>= λ s. pure (from_le_bytes s)) (le_bytes k v) v
  word-Reads hp v h =
      subst (λ bs. Reads (p >>= λ s. pure (from_le_bytes s)) bs v) (append-nil (le_bytes k v))
        (>>=-Reads (λ s. pure (from_le_bytes s)) (le_bytes k v) []
          (hp (le_bytes k v) (length-le_bytes k v))
          (subst (λ w. Reads {E = E} (pure w) [] v) (sym (from_le_bytes-le_bytes k v h))
            (pure-Reads v)))

  pub Word-Parses : Parses p (Slice k) → Parses (p >>= λ s. pure (from_le_bytes s)) (Word k)
  Word-Parses hp =
      >>=-Parses p (λ s. pure (from_le_bytes s)) (Slice k) (Word k) hp
        (λ s ys q. pure-Parses (from_le_bytes s) _ (exact s ys q))
    where
      exact : (s ys : Bytes) → Slice k s ys → Word k (from_le_bytes s) (ys ++ [])
      exact s ys (e, n, bytes) = (
        append-nil ys
            ∙ e
            ∙ sym (le_bytes-from_le_bytes s bytes)
            ∙ ap (λ j. le_bytes j (from_le_bytes s)) n,
        subst (λ j. from_le_bytes s < 256 ^ j) n (from_le_bytes-lt s bytes),
      )

pub u32-Reads : (v : ℕ) → v < 2 ^ 32 → Reads u32 (le_bytes 4 v) v
unfolding u32
u32-Reads = word-Reads (take_n 4) 4 (take_n-Reads 4)

pub u32-Parses : Parses u32 (Word 4)
unfolding u32
u32-Parses = Word-Parses (take_n 4) 4 (take_n-Parses 4)

pub u64-Reads : (v : ℕ) → v < 2 ^ 64 → Reads u64 (le_bytes 8 v) v
unfolding u64
u64-Reads = word-Reads (take_n 8) 8 (take_n-Reads 8)

pub u64-Parses : Parses u64 (Word 8)
unfolding u64
u64-Parses = Word-Parses (take_n 8) 8 (take_n-Parses 8)

pub i64-Reads : (z : ℤ) → IsI64 z → Reads i64 (le_bytes 8 (to_word z)) z
unfolding i64
i64-Reads z h =
    subst (λ bs. Reads (take_n 8 >>= λ s. pure (of_word (from_le_bytes s))) bs z)
      (append-nil (le_bytes 8 (to_word z)))
      (>>=-Reads (λ s. pure (of_word (from_le_bytes s))) (le_bytes 8 (to_word z)) []
        (take_n-Reads 8 (le_bytes 8 (to_word z)) (length-le_bytes 8 (to_word z)))
        (subst (λ w. Reads {E = FormatError} (pure w) [] z) (sym back) (pure-Reads z)))
  where
    back : of_word (from_le_bytes (le_bytes 8 (to_word z))) ≡ z
    back = ap of_word (from_le_bytes-le_bytes 8 (to_word z) (to_word-lt z)) ∙ of_word-to_word z h

-- What the bytes of an `i64` are.
abbrev pub SignedWord : ℤ → Bytes → Type 0
SignedWord z ys = (ys ≡ le_bytes 8 (to_word z)) × IsI64 z

pub i64-Parses : Parses i64 SignedWord
unfolding i64
i64-Parses =
    >>=-Parses (take_n 8) (λ s. pure (of_word (from_le_bytes s))) (Slice 8) SignedWord
      (take_n-Parses 8) (λ s ys p. pure-Parses (of_word (from_le_bytes s)) _ (exact s ys p))
  where
    bound : (s : Bytes) → length s ≡ 8 → All IsByte s → from_le_bytes s < 256 ^ 8
    bound s n bytes = subst (λ j. from_le_bytes s < 256 ^ j) n (from_le_bytes-lt s bytes)

    exact : (s ys : Bytes) → Slice 8 s ys → SignedWord (of_word (from_le_bytes s)) (ys ++ [])
    exact s ys (e, n, bytes) = (
      append-nil ys
          ∙ e
          ∙ sym (le_bytes-from_le_bytes s bytes)
          ∙ ap (λ j. le_bytes j (from_le_bytes s)) n
          ∙ ap (le_bytes 8) (sym (to_word-of_word (from_le_bytes s) (bound s n bytes))),
      of_word-IsI64 (from_le_bytes s) (bound s n bytes),
    )

pub array-Reads : (n : ℕ) (v : Bytes) → length v ≡ n → Reads (array n) v v
unfolding array
array-Reads = take_n-Reads

pub array-Parses : (n : ℕ) → Parses (array n) (Slice n)
unfolding array
array-Parses = take_n-Parses
