-- ===== src/Proto/Wire/Laws.antt =====
-- `rd_u16` and `FrameBody`: a frame body is parsed exactly when it is an encoding.
use ferry.Prelude.{
  ℕ, ◌<◌, ◌^◌, ◌≡◌, refl, sym, ap, subst, ◌∙◌, [], ◌∷◌, ◌++◌, append_assoc, Bytes, IsByte, All,
  length, bytes_eq_iff, bytes_eq_refl, not, ok, arith, ◌↔◌,
}
use ferry.Store.Format.{le_bytes}
use ferry.Store.Reader.{u8, ◌>>=◌, pure, rest, usize_limit, take_n, run}
use ferry.Store.Reader.Laws.{Reads, Parses, mapping-Reads, mapping-Parses}
use ferry.Store.Reader.Laws.Primitives.{
  Word, Slice, word-Reads, Word-Parses, take_n-Reads, take_n-Parses, u8-Reads, u8-Parses,
}
use ferry.Store.Reader.Laws.Whole.{
  Accepts, Exact, Codec, >>=-Accepts, >>=-Exact, fail_if-Reads, fail_if-Parses, run_iff,
}
use ferry.Proto.Wire.{wire_magic, or_bad, rd_u16, FrameBody, frame_encode, frame_parse}

pub rd_u16-Reads : (v : ℕ) → v < 2 ^ 16 → Reads rd_u16 (le_bytes 2 v) v
unfolding rd_u16
rd_u16-Reads =
    word-Reads (or_bad "truncated" (take_n 2)) 2 (λ s h. mapping-Reads _ s (take_n-Reads 2 s h))

pub rd_u16-Parses : Parses rd_u16 (Word 2)
unfolding rd_u16
rd_u16-Parses =
    Word-Parses (or_bad "truncated" (take_n 2)) 2
      (mapping-Parses _ (take_n 2) (Slice 2) (take_n-Parses 2))

-- The fields hold what their Rust types can.
pub record IsFrame (f : FrameBody) : Type 0 where
  pub msg_type_fits : f.msg_type < 256
  pub version_fits : f.version < 2 ^ 16

frame_encode_parts :
    (f : FrameBody)
    → frame_encode f ≡ wire_magic ++ ((f.msg_type ∷ []) ++ (le_bytes 2 f.version ++ f.payload))
unfolding frame_encode
frame_encode_parts f = simp append_assoc

rest-Accepts :
    {E A : Type 0} (g : Bytes → A) (bs : Bytes)
    → Accepts {E = E} (rest >>= λ b. pure (g b)) bs (g bs)
unfolding rest ◌>>=◌ pure
rest-Accepts g bs r h = (record r { pos = length r.buf }, rw h.tail)

rest-Exact :
    {E A : Type 0} (g : Bytes → A) (Q : A → Bytes → Type 0)
    → ((bs : Bytes) → Q (g bs) bs)
    → Exact {E = E} (rest >>= λ b. pure (g b)) Q
unfolding rest ◌>>=◌ pure
rest-Exact g Q q r r' a xs h bytes e =
    let same : g xs ≡ a = ap g (sym h.tail) ∙ cc in subst (λ t. Q t xs) same (q xs)

IsFrame-Codec : Codec frame_parse frame_encode IsFrame
unfolding frame_parse
IsFrame-Codec = record {
  accepts = λ f w.
      subst (λ bs. Accepts frame_parse bs f) (sym (frame_encode_parts f))
        (>>=-Accepts _ wire_magic _ (mapping-Reads _ wire_magic (take_n-Reads 4 wire_magic refl)) (
          >>=-Accepts _ [] _ (fail_if-Reads _ _ (ap not (bytes_eq_refl wire_magic))) (
            >>=-Accepts _ (f.msg_type ∷ []) _
              (mapping-Reads _ (f.msg_type ∷ []) (u8-Reads f.msg_type))
              (>>=-Accepts _ (le_bytes 2 f.version) _ (rd_u16-Reads f.version w.version_fits) (
                rest-Accepts
                  (λ b. record { msg_type = f.msg_type; version = f.version; payload = b })
                  f.payload)))));
  exact =
      >>=-Exact _ _ (Slice 4) _ (mapping-Parses _ (take_n 4) (Slice 4) (take_n-Parses 4))
        λ magic y1 p1. >>=-Exact _ _ _ _ (fail_if-Parses _ _) λ _ y2 p2.
          >>=-Exact _ _ _ _ (mapping-Parses _ u8 _ u8-Parses) λ t y3 p3.
            >>=-Exact _ _ (Word 2) _ rd_u16-Parses λ v y4 p4.
              rest-Exact (λ b. record { msg_type = t; version = v; payload = b }) _
                λ b.
                  let f : FrameBody = record { msg_type = t; version = v; payload = b } in
                  let known : magic ≡ wire_magic =
                    (bytes_eq_iff magic wire_magic).0 (ground arith) in
                  (
                    cc (frame_encode_parts f, p1.0, known, p2.0, p3.0, p4.0),
                    record { msg_type_fits = p3.1; version_fits = p4.1 },
                  );
}

-- A frame body parses as `f` exactly when it is the encoding of `f` and the fields of `f` fit.
pub frame_parse_iff :
    (bs : Bytes) (f : FrameBody)
    → length bs < usize_limit
    → All IsByte bs
    → (run frame_parse bs ≡ ok f) ↔ ((bs ≡ frame_encode f) × IsFrame f)
frame_parse_iff = run_iff frame_parse frame_encode IsFrame IsFrame-Codec
