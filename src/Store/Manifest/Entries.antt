-- ===== src/Store/Manifest/Entries.antt =====
-- The entries of a tree node against their bytes: `entries_parse` returns a list of entries exactly
-- on the bytes of these, each with its flags byte 0 or 1.
use Prim.Native.Nat.{bit_and}
use ferry.Prelude.{
  ℕ, zero, suc, ◌<◌, ◌^◌, ◌≡◌, refl, sym, ap, subst, Bool, true, false, not, ◌&&◌, ◌||◌, [], ◌∷◌,
  ◌++◌, Bytes, All, length, ◌==◌, ==_iff, if◌then◌else◌, arith,
}
use ferry.Prelude.Int.{IsI64, to_word}
use ferry.Prelude.Utf8.{is_utf8}
use ferry.Store.Format.{le_bytes}
use ferry.Store.Reader.{pure, take_n, u8, u32, i64}
use ferry.Store.Reader.Laws.{
  Reads, Parses, mapping-Reads, mapping-Parses, pure-Reads, pure-Parses, >>=-Reads, >>=-Parses,
}
use ferry.Store.Reader.Laws.Primitives.{
  Word, Slice, SignedWord, u8-Reads, u8-Parses, u32-Reads, u32-Parses, i64-Reads, i64-Parses,
  take_n-Reads, take_n-Parses,
}
use ferry.Store.Reader.Laws.Whole.{
  Codec, Items, encode_all, >>=-Accepts, >>=-Exact, end-Accepts, end_pure-Exact, pure-Accepts,
  fail_if-Reads, fail_if-Parses, times-Reads, times-Parses,
}
use ferry.Store.Manifest.{ManifestError, type_byte, TreeEntry, TreeNode}
use ferry.Store.Manifest.Parsing.{entry_parse, entries_parse}
use ferry.Store.Manifest.Payloads.{
  IsText, IsPayload, payload_bytes, Payload, payload-Reads, Payload-Parses, not-false,
}

abbrev pub exec_flag : Bool → ℕ
exec_flag exec = if exec then 1 else 0

abbrev pub entry_bytes : TreeEntry → Bytes
entry_bytes e =
    (type_byte e.payload ∷ [])
    ++ (le_bytes 4 (length e.name)
        ++ (e.name
            ++ ((exec_flag e.exec ∷ [])
                ++ (le_bytes 8 (to_word e.mtime_sec)
                    ++ (le_bytes 4 e.mtime_nsec ++ (payload_bytes e.payload ++ []))))))

pub record IsEntry (e : TreeEntry) : Type 0 where
  pub name_text : IsText e.name
  pub sec_fits : IsI64 e.mtime_sec
  pub nsec_fits : e.mtime_nsec < 2 ^ 32
  pub payload_valid : IsPayload e.payload

-- A flags byte with no reserved bit is the exec flag.
abbrev plain_flags : ℕ → Bool
plain_flags v = not (bit_and v 0xfe == 0) || (v == exec_flag (not (bit_and v 1 == 0)))

-- `plain_flags` holds of the `count` smallest bytes.
plain_bytes : (count : ℕ) → Bool
plain_bytes zero = true
plain_bytes (suc v) = plain_bytes v && plain_flags v

plain_bytes_at : (v count : ℕ) → v < count → plain_bytes count ≡ true → plain_flags v ≡ true
unfolding plain_bytes
plain_bytes_at v zero less table = absurd (omega arith)
plain_bytes_at v (suc last) less table = ground (arith, plain_bytes_at v last)

flags_table : plain_bytes 256 ≡ true
unfolding plain_bytes
flags_table = refl

or_true : (a b : Bool) → a || b ≡ true → a ≡ false → b ≡ true
or_true a b h k = ground arith

flags_exact :
    (v : ℕ) → v < 256 → not (bit_and v 0xfe == 0) ≡ false → v ≡ exec_flag (not (bit_and v 1 == 0))
flags_exact v h k = (==_iff _ _).0 (or_true _ _ (plain_bytes_at v 256 h flags_table) k)

exec_flag_clear : (b : Bool) → not (bit_and (exec_flag b) 0xfe == 0) ≡ false
exec_flag_clear true = refl
exec_flag_clear false = refl

exec_flag_read : (b : Bool) → not (bit_and (exec_flag b) 1 == 0) ≡ b
exec_flag_read true = refl
exec_flag_read false = refl

entry-Reads : (e : TreeEntry) → IsEntry e → Reads entry_parse (entry_bytes e) e
unfolding entry_parse
entry-Reads e w =
    let after : Bytes =
      le_bytes 8 (to_word e.mtime_sec)
      ++ (le_bytes 4 e.mtime_nsec ++ (payload_bytes e.payload ++ [])) in
    >>=-Reads _ (type_byte e.payload ∷ []) _
      (mapping-Reads _ (type_byte e.payload ∷ []) (u8-Reads (type_byte e.payload)))
      (>>=-Reads _ (le_bytes 4 (length e.name)) _
        (mapping-Reads _ (le_bytes 4 (length e.name)) (u32-Reads (length e.name) w.name_text.0))
        (>>=-Reads _ e.name _ (mapping-Reads _ e.name (take_n-Reads (length e.name) e.name refl)) (
          >>=-Reads _ [] ((exec_flag e.exec ∷ []) ++ after)
            (fail_if-Reads _ _ (ap not w.name_text.1))
            (>>=-Reads _ (exec_flag e.exec ∷ []) after
              (mapping-Reads _ (exec_flag e.exec ∷ []) (u8-Reads (exec_flag e.exec)))
              (>>=-Reads _ [] after (fail_if-Reads _ _ (exec_flag_clear e.exec)) (
                >>=-Reads _ (le_bytes 8 (to_word e.mtime_sec)) _
                  (mapping-Reads _ (le_bytes 8 (to_word e.mtime_sec))
                    (i64-Reads e.mtime_sec w.sec_fits))
                  (>>=-Reads _ (le_bytes 4 e.mtime_nsec) _
                    (mapping-Reads _ (le_bytes 4 e.mtime_nsec) (u32-Reads e.mtime_nsec w.nsec_fits))
                    (>>=-Reads _ (payload_bytes e.payload) []
                      (payload-Reads e.payload w.payload_valid)
                      (subst (λ b. Reads {E = ManifestError} (pure (record e { exec = b })) [] e)
                        (sym (exec_flag_read e.exec)) (pure-Reads e))))))))))

IsEntry-Parses : Parses entry_parse (λ e ys. (ys ≡ entry_bytes e) × IsEntry e)
unfolding entry_parse
IsEntry-Parses = >>=-Parses _ _ _ _ (mapping-Parses _ u8 _ u8-Parses) λ t y1 p1.
    >>=-Parses _ _ (Word 4) _ (mapping-Parses _ u32 (Word 4) u32-Parses) λ n y2 p2.
      >>=-Parses _ _ (Slice n) _ (mapping-Parses _ (take_n n) (Slice n) (take_n-Parses n))
        λ name y3 p3. >>=-Parses _ _ _ _ (fail_if-Parses _ _) λ _ y4 p4.
          >>=-Parses _ _ _ _ (mapping-Parses _ u8 _ u8-Parses) λ flags y5 p5.
            >>=-Parses _ _ _ _ (fail_if-Parses _ _) λ _ y6 p6.
              >>=-Parses _ _ SignedWord _ (mapping-Parses _ i64 SignedWord i64-Parses) λ sec y7 p7.
                >>=-Parses _ _ (Word 4) _ (mapping-Parses _ u32 (Word 4) u32-Parses) λ nsec y8 p8.
                  >>=-Parses _ _ (Payload t) _ (Payload-Parses t) λ payload y9 p9. pure-Parses _ _ (
                    cc (
                      p1.0,
                      p2.0,
                      p3.0,
                      p3.1,
                      p4.0,
                      p5.0,
                      p6.0,
                      p7.0,
                      p8.0,
                      p9.0,
                      p9.2,
                      flags_exact flags p5.1 p6.1,
                    ),
                    record {
                      name_text = (omega (arith, p2.1, p3.1), not-false (is_utf8 name) p4.1, p3.2);
                      sec_fits = p7.1;
                      nsec_fits = p8.1;
                      payload_valid = p9.1;
                    },
                  )

-- The bytes of a list of entries, as they stand.
abbrev pub node_bytes : TreeNode → Bytes
node_bytes es = le_bytes 4 (length es) ++ (encode_all entry_bytes es ++ [])

pub record IsNode (es : TreeNode) : Type 0 where
  pub count_fits : length es < 2 ^ 32
  pub entries_valid : All IsEntry es

pub entries-Codec : Codec entries_parse node_bytes IsNode
unfolding entries_parse
entries-Codec = record {
  accepts = λ es w.
      >>=-Accepts _ (le_bytes 4 (length es)) _
        (mapping-Reads _ (le_bytes 4 (length es)) (u32-Reads (length es) w.count_fits))
        (>>=-Accepts _ (encode_all entry_bytes es) _
          (times-Reads entry_parse entry_bytes IsEntry entry-Reads es w.entries_valid)
          (end-Accepts _ _ (pure-Accepts es [])));
  exact = >>=-Exact _ _ (Word 4) _ (mapping-Parses _ u32 (Word 4) u32-Parses) λ n y1 p1.
      >>=-Exact _ _ (Items entry_bytes IsEntry n) _
        (times-Parses entry_parse entry_bytes IsEntry IsEntry-Parses n)
        λ es y2 p2. end_pure-Exact _ es _ (
          cc (p1.0, p2.0, p2.1),
          record { count_fits = omega (arith, p1.1, p2.1); entries_valid = p2.2 },
        );
}
