-- ===== src/Store/Manifest/Root.antt =====
-- crates/ferry-store/src/manifest.rs: `serialize_manifest` and `parse_manifest`.
use ferry.Prelude.{
  ℕ, ◌≤◌, ◌<◌, ◌≡◌, ◌↔◌, refl, sym, ap, subst, [], ◌++◌, append_assoc, append-nil, Bytes, IsByte,
  All, length, replicate, bytes_eq, bytes_eq_iff, bytes_eq_refl, ok, not, ltb, le→ltb, ltb-false,
  arith,
}
use ferry.Prelude.Int.{IsI64, to_word}
use ferry.Store.Format.{le_bytes, put_bytes, put_i64, put_u32}
use ferry.Store.Reader.{
  Parser, ◌>>=◌, ◌>>◌, pure, fail_if, mapping, u32, i64, array, expect_end, usize_limit, run,
}
use ferry.Store.Reader.Laws.{mapping-Reads, mapping-Parses}
use ferry.Store.Reader.Laws.Primitives.{
  Word, Slice, SignedWord, u32-Reads, u32-Parses, i64-Reads, i64-Parses, array-Reads, array-Parses,
}
use ferry.Store.Reader.Laws.Whole.{
  Accepts, Codec, >>=-Accepts, >>=-Exact, end-Accepts, end_pure-Exact, pure-Accepts, fail_if-Reads,
  fail_if-Parses, run_iff,
}
use ferry.Store.Manifest.{
  ManifestError, from_format, nsec_out_of_range, reserved_field_nonzero, RootManifest,
}

unfoldable pub zero_id : Bytes
zero_id = replicate 32 0

unfoldable pub serialize_manifest : RootManifest → Bytes
unfolding put_bytes put_i64 put_u32
serialize_manifest m =
    let out = put_bytes [] m.folder_id in
    let out = put_bytes out m.device_id in
    let out = put_i64 out m.created_sec in
    let out = put_u32 out m.created_nsec in
    let out = put_bytes out m.root_tree_id in
    let out = put_bytes out m.parent_manifest_id in put_bytes out zero_id

unfoldable pub parse_manifest : Parser ManifestError RootManifest
parse_manifest = do
  folder_id ← mapping from_format (array 16)
  device_id ← mapping from_format (array 32)
  created_sec ← mapping from_format i64
  created_nsec ← mapping from_format u32
  fail_if (ltb 999_999_999 created_nsec) nsec_out_of_range
  root_tree_id ← mapping from_format (array 32)
  parent_manifest_id ← mapping from_format (array 32)
  reserved ← mapping from_format (array 32)
  fail_if (not (bytes_eq reserved zero_id)) reserved_field_nonzero
  mapping from_format expect_end
  pure (record {
    folder_id = folder_id;
    device_id = device_id;
    created_sec = created_sec;
    created_nsec = created_nsec;
    root_tree_id = root_tree_id;
    parent_manifest_id = parent_manifest_id;
  })

abbrev IsArray : ℕ → Bytes → Type 0
IsArray n v = (length v ≡ n) × All IsByte v

-- A root manifest whose fields hold what their types can, with the nanoseconds of a time.
pub record IsManifest (m : RootManifest) : Type 0 where
  pub folder_id_array : IsArray 16 m.folder_id
  pub device_id_array : IsArray 32 m.device_id
  pub sec_fits : IsI64 m.created_sec
  pub nsec_range : m.created_nsec ≤ 999_999_999
  pub root_array : IsArray 32 m.root_tree_id
  pub parent_array : IsArray 32 m.parent_manifest_id

manifest_parts :
    (m : RootManifest)
    → serialize_manifest m
      ≡ m.folder_id
        ++ (m.device_id
            ++ (le_bytes 8 (to_word m.created_sec)
                ++ (le_bytes 4 m.created_nsec
                    ++ (m.root_tree_id ++ (m.parent_manifest_id ++ (zero_id ++ []))))))
unfolding serialize_manifest
manifest_parts m = simp (append_assoc, append-nil)

length-zero_id : length zero_id ≡ 32
unfolding zero_id
length-zero_id = refl

IsManifest-Codec : Codec parse_manifest serialize_manifest IsManifest
unfolding parse_manifest
IsManifest-Codec = record {
  accepts = λ m w.
      subst (λ bs. Accepts parse_manifest bs m) (sym (manifest_parts m))
        (>>=-Accepts _ m.folder_id _
          (mapping-Reads _ m.folder_id (array-Reads 16 m.folder_id w.folder_id_array.0))
          (>>=-Accepts _ m.device_id _
            (mapping-Reads _ m.device_id (array-Reads 32 m.device_id w.device_id_array.0))
            (>>=-Accepts _ (le_bytes 8 (to_word m.created_sec)) _
              (mapping-Reads _ (le_bytes 8 (to_word m.created_sec))
                (i64-Reads m.created_sec w.sec_fits))
              (>>=-Accepts _ (le_bytes 4 m.created_nsec) _
                (mapping-Reads _ (le_bytes 4 m.created_nsec)
                  (u32-Reads m.created_nsec (omega (arith, w.nsec_range))))
                (>>=-Accepts _ [] _
                  (fail_if-Reads _ _ (le→ltb 999_999_999 m.created_nsec w.nsec_range))
                  (>>=-Accepts _ m.root_tree_id _
                    (mapping-Reads _ m.root_tree_id (array-Reads 32 m.root_tree_id w.root_array.0))
                    (>>=-Accepts _ m.parent_manifest_id _
                      (mapping-Reads _ m.parent_manifest_id
                        (array-Reads 32 m.parent_manifest_id w.parent_array.0))
                      (>>=-Accepts _ zero_id _
                        (mapping-Reads _ zero_id (array-Reads 32 zero_id length-zero_id))
                        (>>=-Accepts _ [] _ (fail_if-Reads _ _ (ap not (bytes_eq_refl zero_id)))
                          (end-Accepts _ _ (pure-Accepts m [])))))))))));
  exact =
      >>=-Exact _ _ (Slice 16) _ (mapping-Parses _ (array 16) (Slice 16) (array-Parses 16))
        λ folder y1 p1.
          >>=-Exact _ _ (Slice 32) _ (mapping-Parses _ (array 32) (Slice 32) (array-Parses 32))
            λ device y2 p2.
              >>=-Exact _ _ SignedWord _ (mapping-Parses _ i64 SignedWord i64-Parses) λ sec y3 p3.
                >>=-Exact _ _ (Word 4) _ (mapping-Parses _ u32 (Word 4) u32-Parses) λ nsec y4 p4.
                  >>=-Exact _ _ _ _ (fail_if-Parses _ _) λ _ y5 p5.
                    >>=-Exact _ _ (Slice 32) _
                      (mapping-Parses _ (array 32) (Slice 32) (array-Parses 32))
                      λ root y6 p6.
                        >>=-Exact _ _ (Slice 32) _
                          (mapping-Parses _ (array 32) (Slice 32) (array-Parses 32))
                          λ parent y7 p7.
                            >>=-Exact _ _ (Slice 32) _
                              (mapping-Parses _ (array 32) (Slice 32) (array-Parses 32))
                              λ reserved y8 p8. >>=-Exact _ _ _ _ (fail_if-Parses _ _) λ _ y9 p9.
                                let m : RootManifest = record {
                                  folder_id = folder;
                                  device_id = device;
                                  created_sec = sec;
                                  created_nsec = nsec;
                                  root_tree_id = root;
                                  parent_manifest_id = parent;
                                } in
                                let known : reserved ≡ zero_id =
                                  (bytes_eq_iff reserved zero_id).0 (ground arith) in
                                end_pure-Exact _ m _ (
                                  cc (
                                    manifest_parts m,
                                    p1.0,
                                    p2.0,
                                    p3.0,
                                    p4.0,
                                    p5.0,
                                    p6.0,
                                    p7.0,
                                    p8.0,
                                    p9.0,
                                    known,
                                  ),
                                  record {
                                    folder_id_array = (p1.1, p1.2);
                                    device_id_array = (p2.1, p2.2);
                                    sec_fits = p3.1;
                                    nsec_range = ltb-false 999_999_999 nsec p5.1;
                                    root_array = (p6.1, p6.2);
                                    parent_array = (p7.1, p7.2);
                                  },
                                );
}

-- A slice of bytes parses as the root manifest `m` exactly when it is the serialisation of `m` and
-- the fields of `m` fit their types, its nanoseconds below a billion.
pub parse_manifest_iff :
    (bs : Bytes) (m : RootManifest)
    → length bs < usize_limit
    → All IsByte bs
    → (run parse_manifest bs ≡ ok m) ↔ ((bs ≡ serialize_manifest m) × IsManifest m)
parse_manifest_iff = run_iff parse_manifest serialize_manifest IsManifest IsManifest-Codec
