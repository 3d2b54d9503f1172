-- ===== src/Store/Manifest/Tree.antt =====
-- Tree nodes are written and parsed: what `parse_tree_node` accepts, and how that meets
-- `serialize_tree_node`.
use ferry.Prelude.{
  ℕ, ◌<◌, ◌≡◌, ◌↔◌, ◌⊎◌, refl, sym, ap, ◌∙◌, true, false, none, some, List, [], ◌∷◌, ◌++◌,
  append_assoc, append-nil, map, Bytes, IsByte, All, length, Result, ok, err, arith, inl, inr,
}
use ferry.Prelude.Results.{checked_inv}
use ferry.Store.Format.{le_bytes, put_u32}
use ferry.Store.Reader.{usize_limit, run}
use ferry.Store.Reader.Laws.Whole.{encode_all, run_iff}
use ferry.Store.Manifest.{
  ManifestError, Chunk, EntryPayload, file, dir, symlink, TreeEntry, TreeNode, put_chunks,
  put_payload, flags_byte, put_entry, put_entries, sort_by_name, validate_entries, normalize_entry,
  serialize_tree_node,
}
use ferry.Store.Manifest.Parsing.{entries_parse, parse_tree_node}
use ferry.Store.Manifest.Payloads.{chunk_bytes, payload_bytes}
use ferry.Store.Manifest.Entries.{exec_flag, entry_bytes, node_bytes, IsNode, entries-Codec}
use ferry.Store.Manifest.Validity.{IsSorted, sort_by_name_sorted, IsValid, validate_entries_iff}

-- The writer's flags byte exists: only a file carries the exec flag.
abbrev pub IsWritable : TreeEntry → Type 0
IsWritable e = elim e.payload [ file _ _ ↦ Unit {0} | _ ↦ e.exec ≡ false ]

put_chunks_lem :
    (out : Bytes) (chunks : List Chunk)
    → put_chunks out chunks ≡ out ++ encode_all chunk_bytes chunks
unfolding put_chunks
put_chunks_lem out [] = sym (append-nil out)
put_chunks_lem out ((id, len) ∷ chunks) =
    put_chunks_lem ((out ++ id) ++ le_bytes 8 len) chunks ∙ simp (append_assoc, append-nil)

put_payload_lem : (out : Bytes) (p : EntryPayload) → put_payload out p ≡ out ++ payload_bytes p
unfolding put_payload
put_payload_lem out (file size chunks) =
    put_chunks_lem ((out ++ le_bytes 8 size) ++ le_bytes 4 (length chunks)) chunks
    ∙ simp (append_assoc, append-nil)
put_payload_lem out (dir child) = simp append-nil
put_payload_lem out (symlink target) = simp (append_assoc, append-nil)

flags_byte_writable : (e : TreeEntry) → IsWritable e → flags_byte e ≡ ok (exec_flag e.exec)
unfolding flags_byte
flags_byte_writable e w = ground arith

put_entry_lem :
    (out : Bytes) (e : TreeEntry) → IsWritable e → put_entry out e ≡ some (out ++ entry_bytes e)
unfolding put_entry
put_entry_lem out e w =
    rw (flags_byte_writable e w, put_entry, put_payload_lem)
      (ap some (simp (append_assoc, append-nil)))

put_entries_lem :
    (out : Bytes) (es : List TreeEntry)
    → All IsWritable es
    → put_entries out es ≡ some (out ++ encode_all entry_bytes es)
unfolding put_entries
put_entries_lem out [] w = ap some (sym (append-nil out))
put_entries_lem out (e ∷ es) w =
    rw (put_entry_lem out e w.0, put_entries)
      (put_entries_lem (out ++ entry_bytes e) es w.1 ∙ ap some (append_assoc out (entry_bytes e) _))

flags_byte_inv : (e : TreeEntry) (flags : ℕ) → flags_byte e ≡ ok flags → IsWritable e
unfolding flags_byte
flags_byte_inv e flags h = ground arith

put_entry_cases :
    (out : Bytes) (e : TreeEntry)
    → (put_entry out e ≡ none) ⊎ (put_entry out e ≡ some (out ++ entry_bytes e))
unfolding put_entry
put_entry_cases out e = after (flags_byte e) refl
  where
    after :
        (r : Result ManifestError ℕ)
        → flags_byte e ≡ r
        → (put_entry out e ≡ none) ⊎ (put_entry out e ≡ some (out ++ entry_bytes e))
    after (ok flags) h = inr (put_entry_lem out e (flags_byte_inv e flags h))
    after (err x) h = inl (rw (h, put_entry))

-- What the writer's loop returns are the bytes of the entries.
put_entries_inv :
    (out : Bytes) (es : List TreeEntry) (bs : Bytes)
    → put_entries out es ≡ some bs
    → bs ≡ out ++ encode_all entry_bytes es
unfolding put_entries
put_entries_inv out [] bs h = cc (append-nil out)
put_entries_inv out (e ∷ es) bs h = elim (put_entry_cases out e) [
  | inl stuck ↦ absurd (cc (rw (stuck, put_entries) at h))
  | inr written ↦
      put_entries_inv (out ++ entry_bytes e) es bs (rw (written, put_entries) at h)
      ∙ append_assoc out (entry_bytes e) (encode_all entry_bytes es)
]

module _ (nfc : Bytes → Bytes) where
  -- A slice of bytes parses as the tree node `es` exactly when it is the bytes of `es`, the fields
  -- fit their types, the names ascend strictly, and every entry is valid.
  pub parse_tree_node_iff :
      (bs : Bytes) (es : TreeNode)
      → length bs < usize_limit
      → All IsByte bs
      → (parse_tree_node nfc bs ≡ ok es)
        ↔ ((bs ≡ node_bytes es) × IsNode es × IsSorted es × All (IsValid nfc) es)
  unfolding parse_tree_node
  parse_tree_node_iff bs es fits bytes =
      let iff = run_iff entries_parse node_bytes IsNode entries-Codec bs es fits bytes in
      let order = validate_entries_iff nfc es in
      (
        λ h.
            let (e1, e2) = checked_inv (run entries_parse bs) (validate_entries nfc) es h in
            let (node, w) = iff.0 e1 in
            let (sorted, valid) = order.0 e2 in (node, w, sorted, valid),
        λ h. rw (iff.1 (h.0, h.1)) (rw (order.1 (h.2, h.3))),
      )

  normalize_entry_valid : (e : TreeEntry) → IsValid nfc e → normalize_entry nfc e ≡ e
  unfolding normalize_entry
  normalize_entry_valid e v = ground arith

  normalize_valid : (es : List TreeEntry) → All (IsValid nfc) es → map (normalize_entry nfc) es ≡ es
  normalize_valid [] v = refl
  normalize_valid (e ∷ es) v = cc (normalize_entry_valid e v.0, normalize_valid es v.1)

  -- Canonical entries go to the writer's loop as they are.
  serialize_valid :
      (es : TreeNode)
      → IsSorted es
      → All (IsValid nfc) es
      → serialize_tree_node nfc es ≡ put_entries (le_bytes 4 (length es)) es
  unfolding serialize_tree_node put_u32
  serialize_valid es sorted valid =
      let same : sort_by_name (map (normalize_entry nfc) es) ≡ es =
        ap sort_by_name (normalize_valid es valid) ∙ sort_by_name_sorted es sorted in
      let passed : validate_entries nfc (sort_by_name (map (normalize_entry nfc) es)) ≡ ok tt =
        rw same ((validate_entries_iff nfc es).1 (sorted, valid)) in
      rw (passed, serialize_tree_node) (rw same)

  -- A tree node that parses, and in which only files carry the exec flag, is written to the very
  -- bytes that it was parsed from.
  pub serialize-parse_tree_node :
      (bs : Bytes) (es : TreeNode)
      → length bs < usize_limit
      → All IsByte bs
      → All IsWritable es
      → parse_tree_node nfc bs ≡ ok es
      → serialize_tree_node nfc es ≡ some bs
  serialize-parse_tree_node bs es fits bytes w h =
      let (node, _, sorted, valid) = (parse_tree_node_iff bs es fits bytes).0 h in
      serialize_valid es sorted valid
      ∙ put_entries_lem (le_bytes 4 (length es)) es w
      ∙ ap some (cc (node, append-nil (encode_all entry_bytes es)))

  -- Where bytes parse as a tree node of one symlink with the exec flag, writing that node panics.
  pub exec_symlink_panics :
      (bs : Bytes) (e : TreeEntry) (target : Bytes)
      → length bs < usize_limit
      → All IsByte bs
      → e.payload ≡ symlink target
      → e.exec ≡ true
      → parse_tree_node nfc bs ≡ ok (e ∷ [])
      → serialize_tree_node nfc (e ∷ []) ≡ none
  unfolding put_entries put_entry flags_byte
  exec_symlink_panics bs e target fits bytes p x h =
      let (node, _, sorted, valid) = (parse_tree_node_iff bs (e ∷ []) fits bytes).0 h in
      serialize_valid (e ∷ []) sorted valid ∙ ground arith

  -- Where the writer does not panic and the normalised, sorted entries fit their types, the bytes
  -- that it writes parse as those entries.
  pub parse-serialize_tree_node :
      (node : TreeNode) (bs : Bytes)
      → serialize_tree_node nfc node ≡ some bs
      → IsNode (sort_by_name (map (normalize_entry nfc) node))
      → length bs < usize_limit
      → All IsByte bs
      → parse_tree_node nfc bs ≡ ok (sort_by_name (map (normalize_entry nfc) node))
  unfolding serialize_tree_node put_u32
  parse-serialize_tree_node node bs h w fits bytes =
      go (sort_by_name (map (normalize_entry nfc) node)) w
        (validate_entries nfc (sort_by_name (map (normalize_entry nfc) node))) refl h
    where
      go :
          (es : TreeNode)
          → IsNode es
          → (v : Result ManifestError (Unit {0})) → validate_entries nfc es ≡ v
          → elim v [ err _ ↦ none | ok _ ↦ put_entries (le_bytes 4 (length es)) es ] ≡ some bs
          → parse_tree_node nfc bs ≡ ok es
      go es w (err e) passed written = absurd (cc)
      go es w (ok u) passed written =
          let same = put_entries_inv (le_bytes 4 (length es)) es bs written in
          let (sorted, valid) = (validate_entries_iff nfc es).0 passed in
          (parse_tree_node_iff bs es fits bytes).1
            (cc (same, append-nil (encode_all entry_bytes es)), w, sorted, valid)
