-- ===== src/Store/Manifest/Payloads.antt =====
-- The payloads of tree entries against their bytes.
use ferry.Prelude.{
  ℕ, ◌<◌, ◌^◌, ◌≡◌, refl, sym, ap, subst, Bool, true, false, not, [], ◌++◌, Bytes, IsByte, All,
  length, ◌==◌, ==_iff, Bool-cases, inl, inr, arith,
}
use ferry.Prelude.Utf8.{is_utf8}
use ferry.Store.Format.{le_bytes}
use ferry.Store.Reader.{take_n, u32, u64, array}
use ferry.Store.Reader.Laws.{
  Reads, Parses, mapping-Reads, mapping-Parses, pure-Reads, pure-Parses, >>=-Reads, >>=-Parses,
  fail-Parses,
}
use ferry.Store.Reader.Laws.Primitives.{
  Word, Slice, u32-Reads, u32-Parses, u64-Reads, u64-Parses, array-Reads, array-Parses,
  take_n-Reads, take_n-Parses,
}
use ferry.Store.Reader.Laws.Whole.{
  Items, encode_all, fail_if-Reads, fail_if-Parses, times-Reads, times-Parses,
}
use ferry.Store.Manifest.{Chunk, EntryPayload, file, dir, symlink, type_byte}
use ferry.Store.Manifest.Parsing.{chunk_parse, file_parse, dir_parse, symlink_parse, payload_parse}

abbrev pub IsArray : ℕ → Bytes → Type 0
IsArray n v = (length v ≡ n) × All IsByte v

-- A `String` shorter than 4 GiB.
abbrev pub IsText : Bytes → Type 0
IsText s = (length s < 2 ^ 32) × (is_utf8 s ≡ true) × All IsByte s

abbrev pub chunk_bytes : Chunk → Bytes
chunk_bytes c = c.0 ++ (le_bytes 8 c.1 ++ [])

abbrev pub IsChunk : Chunk → Type 0
IsChunk c = (IsArray 32 c.0) × (c.1 < 2 ^ 64)

abbrev pub payload_bytes : EntryPayload → Bytes
payload_bytes (file size chunks) =
    le_bytes 8 size ++ (le_bytes 4 (length chunks) ++ (encode_all chunk_bytes chunks ++ []))
payload_bytes (dir child) = child ++ []
payload_bytes (symlink target) = le_bytes 4 (length target) ++ (target ++ [])

abbrev pub IsPayload : EntryPayload → Type 0
IsPayload (file size chunks) = (size < 2 ^ 64) × (length chunks < 2 ^ 32) × All IsChunk chunks
IsPayload (dir child) = IsArray 32 child
IsPayload (symlink target) = IsText target

chunk-Reads : (c : Chunk) → IsChunk c → Reads chunk_parse (chunk_bytes c) c
unfolding chunk_parse
chunk-Reads (id, len) w = >>=-Reads _ id _ (mapping-Reads _ id (array-Reads 32 id w.0.0)) (
    >>=-Reads _ (le_bytes 8 len) [] (mapping-Reads _ (le_bytes 8 len) (u64-Reads len w.1))
      (pure-Reads (id, len)))

IsChunk-Parses : Parses chunk_parse (λ c ys. (ys ≡ chunk_bytes c) × IsChunk c)
unfolding chunk_parse
IsChunk-Parses =
    >>=-Parses _ _ (Slice 32) _ (mapping-Parses _ (array 32) (Slice 32) (array-Parses 32))
      λ id y1 p1.
        >>=-Parses _ _ (Word 8) _ (mapping-Parses _ u64 (Word 8) u64-Parses)
          λ len y2 p2. pure-Parses (id, len) _ (cc (p1.0, p2.0), ((p1.1, p1.2), p2.1))

pub payload-Reads :
    (p : EntryPayload) → IsPayload p → Reads (payload_parse (type_byte p)) (payload_bytes p) p
unfolding payload_parse type_byte file_parse dir_parse symlink_parse
payload-Reads (file size chunks) w =
    >>=-Reads _ (le_bytes 8 size) _ (mapping-Reads _ (le_bytes 8 size) (u64-Reads size w.0)) (
      >>=-Reads _ (le_bytes 4 (length chunks)) _
        (mapping-Reads _ (le_bytes 4 (length chunks)) (u32-Reads (length chunks) w.1))
        (>>=-Reads _ (encode_all chunk_bytes chunks) []
          (times-Reads chunk_parse chunk_bytes IsChunk chunk-Reads chunks w.2)
          (pure-Reads (file size chunks))))
payload-Reads (dir child) w =
    >>=-Reads _ child [] (mapping-Reads _ child (array-Reads 32 child w.0)) (pure-Reads (dir child))
payload-Reads (symlink target) w =
    >>=-Reads _ (le_bytes 4 (length target)) _
      (mapping-Reads _ (le_bytes 4 (length target)) (u32-Reads (length target) w.0))
      (>>=-Reads _ target [] (mapping-Reads _ target (take_n-Reads (length target) target refl))
        (>>=-Reads _ [] [] (fail_if-Reads _ _ (ap not w.1)) (pure-Reads (symlink target))))

-- What the payload behind a type byte is.
abbrev pub Payload : ℕ → EntryPayload → Bytes → Type 0
Payload t p ys = (ys ≡ payload_bytes p) × IsPayload p × (type_byte p ≡ t)

file-Parses : Parses file_parse (Payload 0)
unfolding file_parse type_byte
file-Parses = >>=-Parses _ _ (Word 8) _ (mapping-Parses _ u64 (Word 8) u64-Parses) λ size y1 p1.
    >>=-Parses _ _ (Word 4) _ (mapping-Parses _ u32 (Word 4) u32-Parses) λ n y2 p2.
      >>=-Parses _ _ (Items chunk_bytes IsChunk n) _
        (times-Parses chunk_parse chunk_bytes IsChunk IsChunk-Parses n)
        λ chunks y3 p3.
          pure-Parses (file size chunks) _
            (cc (p1.0, p2.0, p3.0, p3.1), (p1.1, omega (arith, p2.1, p3.1), p3.2), refl)

dir-Parses : Parses dir_parse (Payload 1)
unfolding dir_parse type_byte
dir-Parses =
    >>=-Parses _ _ (Slice 32) _ (mapping-Parses _ (array 32) (Slice 32) (array-Parses 32))
      λ child y1 p1. pure-Parses (dir child) _ (cc (p1.0), (p1.1, p1.2), refl)

pub not-false : (b : Bool) → not b ≡ false → b ≡ true
not-false b h = ground arith

symlink-Parses : Parses symlink_parse (Payload 2)
unfolding symlink_parse type_byte
symlink-Parses = >>=-Parses _ _ (Word 4) _ (mapping-Parses _ u32 (Word 4) u32-Parses) λ n y1 p1.
    >>=-Parses _ _ (Slice n) _ (mapping-Parses _ (take_n n) (Slice n) (take_n-Parses n)) λ t y2 p2.
      >>=-Parses _ _ _ _ (fail_if-Parses _ _) λ _ y3 p3. pure-Parses (symlink t) _ (
        cc (p1.0, p2.0, p2.1, p3.0),
        (omega (arith, p1.1, p2.1), not-false (is_utf8 t) p3.1, p2.2),
        refl,
      )

pub Payload-Parses : (t : ℕ) → Parses (payload_parse t) (Payload t)
unfolding payload_parse
Payload-Parses t = elim (Bool-cases (t == 0)) [
  | inl is0 ↦
      rw is0 (subst (λ k. Parses file_parse (Payload k)) (sym ((==_iff t 0).0 is0)) file-Parses)
  | inr not0 ↦ elim (Bool-cases (t == 1)) [
    | inl is1 ↦
        rw (not0, is1)
          (subst (λ k. Parses dir_parse (Payload k)) (sym ((==_iff t 1).0 is1)) dir-Parses)
    | inr not1 ↦ elim (Bool-cases (t == 2)) [
      | inl is2 ↦
          rw (not0, not1, is2)
            (subst (λ k. Parses symlink_parse (Payload k)) (sym ((==_iff t 2).0 is2))
              symlink-Parses)
      | inr not2 ↦ rw (not0, not1, not2) (fail-Parses _ _)
    ]
  ]
]
