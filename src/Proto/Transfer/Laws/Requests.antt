-- ===== src/Proto/Transfer/Laws/Requests.antt =====
-- Requests for items and for packs: each is parsed exactly when it is an encoding.
use ferry.Prelude.{
  ◌≤◌, ◌<◌, ◌≡◌, ◌↔◌, sym, ap, ◌∙◌, List, [], ◌∷◌, ◌++◌, append_assoc, append-nil, Bytes, IsByte,
  All, length, ok, arith, le→ltb, ltb-false, ◌+◌, ◌*◌, length-append,
}
use ferry.Store.Format.{BlobKind, BlobId, blob_to_u8, le_bytes}
use ferry.Store.Format.Laws.{blob_of_u8-blob_to_u8, blob_of_u8-eq-some, length-le_bytes}
use ferry.Store.Reader.{u8, u32, array, usize_limit, run}
use ferry.Store.Reader.Laws.{
  Reads, Parses, mapping-Reads, mapping-Parses, pure-Reads, pure-Parses, >>=-Reads, >>=-Parses,
  Parses_weaken,
}
use ferry.Store.Reader.Laws.Primitives.{
  Word, Slice, u8-Reads, u8-Parses, u32-Reads, u32-Parses, array-Reads, array-Parses,
}
use ferry.Store.Reader.Laws.Whole.{
  Codec, Items, encode_all, >>=-Accepts, >>=-Exact, end-Accepts, end_pure-Exact, pure-Accepts,
  fail_if-Reads, fail_if-Parses, or_fail-Reads, or_fail-Parses, times-Reads, times-Parses, run_iff,
  run-Accepts,
}
use ferry.Proto.Wire.{or_bad, IsArray}
use ferry.Proto.Transfer.{
  max_request_items, RequestItems, IsRequestItems, put_items, request_items_encode,
  request_item_parse, request_items_parse, max_request_packs, RequestPacks, IsRequestPacks,
  put_packs, request_packs_encode, request_packs_parse,
}

-- The bytes of one requested item.
abbrev item_bytes : BlobKind × BlobId → Bytes
item_bytes i = (blob_to_u8 i.0 ∷ []) ++ (i.1 ++ [])

abbrev IsItem : BlobKind × BlobId → Type 0
IsItem i = IsArray 32 i.1

put_items_lem :
    (out : Bytes) (items : List (BlobKind × BlobId))
    → put_items out items ≡ out ++ encode_all item_bytes items
unfolding put_items
put_items_lem out [] = sym (append-nil out)
put_items_lem out ((kind, id) ∷ items) =
    put_items_lem ((out ++ (blob_to_u8 kind ∷ [])) ++ id) items ∙ simp (append_assoc, append-nil)

request_item-Reads : (i : BlobKind × BlobId) → IsItem i → Reads request_item_parse (item_bytes i) i
unfolding request_item_parse
request_item-Reads (kind, id) w =
    >>=-Reads _ (blob_to_u8 kind ∷ []) (id ++ [])
      (mapping-Reads _ (blob_to_u8 kind ∷ []) (u8-Reads (blob_to_u8 kind)))
      (>>=-Reads _ [] (id ++ []) (or_fail-Reads _ _ (blob_of_u8-blob_to_u8 kind))
        (>>=-Reads _ id [] (mapping-Reads _ id (array-Reads 32 id w.0)) (pure-Reads (kind, id))))

request-IsItem-Parses : Parses request_item_parse (λ i ys. (ys ≡ item_bytes i) × IsItem i)
unfolding request_item_parse
request-IsItem-Parses = >>=-Parses _ _ _ _ (mapping-Parses _ u8 _ u8-Parses) λ kb y1 p1.
    >>=-Parses _ _ _ _ (or_fail-Parses _ _) λ kind y2 p2.
      >>=-Parses _ _ (Slice 32) _ (mapping-Parses _ (array 32) (Slice 32) (array-Parses 32))
        λ id y3 p3.
          pure-Parses (kind, id) _ (cc (p1.0, p2.0, p3.0, blob_of_u8-eq-some kb p2.1), (p3.1, p3.2))

-- What `encode` writes when its guard passes.
pub request_items_bytes : RequestItems → Bytes
request_items_bytes m =
    m.folder_id ++ (le_bytes 4 (length m.items) ++ (encode_all item_bytes m.items ++ []))

request_items_encode_parts :
    (m : RequestItems)
    → length m.items ≤ max_request_items
    → request_items_encode m ≡ ok (request_items_bytes m)
unfolding request_items_encode request_items_bytes
request_items_encode_parts m h =
    rw (le→ltb max_request_items (length m.items) h, put_items_lem)
      (simp (append_assoc, append-nil))

IsRequestItems-Codec : Codec request_items_parse request_items_bytes IsRequestItems
unfolding request_items_parse request_items_bytes
IsRequestItems-Codec = record {
  accepts = λ m w.
      >>=-Accepts _ m.folder_id _
        (mapping-Reads _ m.folder_id (array-Reads 16 m.folder_id w.folder_id_array.0))
        (>>=-Accepts _ (le_bytes 4 (length m.items)) _
          (mapping-Reads _ (le_bytes 4 (length m.items))
            (u32-Reads (length m.items) (omega (arith, w.few))))
          (>>=-Accepts _ [] _ (fail_if-Reads _ _ (le→ltb max_request_items (length m.items) w.few))
            (>>=-Accepts _ (encode_all item_bytes m.items) _
              (times-Reads request_item_parse item_bytes IsItem request_item-Reads m.items w.ids)
              (end-Accepts _ _ (pure-Accepts m [])))));
  exact =
      >>=-Exact _ _ (Slice 16) _ (mapping-Parses _ (array 16) (Slice 16) (array-Parses 16))
        λ folder y1 p1.
          >>=-Exact _ _ (Word 4) _ (mapping-Parses _ u32 (Word 4) u32-Parses) λ n y2 p2.
            >>=-Exact _ _ _ _ (fail_if-Parses _ _) λ _ y3 p3.
              >>=-Exact _ _ (Items item_bytes IsItem n) _
                (times-Parses request_item_parse item_bytes IsItem request-IsItem-Parses n)
                λ items y4 p4.
                  let m : RequestItems = record { folder_id = folder; items = items } in
                  end_pure-Exact _ m _ (
                    cc (p1.0, p2.0, p3.0, p4.0, p4.1),
                    record {
                      folder_id_array = (p1.1, p1.2);
                      few = omega (arith, ltb-false max_request_items n p3.1, p4.1);
                      ids = p4.2;
                    },
                  );
}

-- A payload parses as the request `m` exactly when `encode` makes that payload of `m`; such a
-- request has at most 512 items, and its identifiers are arrays.
pub request_items_parse_iff :
    (bs : Bytes) (m : RequestItems)
    → length bs < usize_limit
    → All IsByte bs
    → (run request_items_parse bs ≡ ok m) ↔ ((request_items_encode m ≡ ok bs) × IsRequestItems m)
request_items_parse_iff bs m fits bytes =
    let iff =
      run_iff request_items_parse request_items_bytes IsRequestItems IsRequestItems-Codec bs m fits
        bytes in
    (
      λ e. let (same, w) = iff.0 e in (request_items_encode_parts m w.few ∙ ap ok (sym same), w),
      λ h. iff.1 (cc (request_items_encode_parts m h.1.few, h.0), h.1),
    )

put_packs_lem :
    (out : Bytes) (packs : List BlobId) → put_packs out packs ≡ out ++ encode_all (λ p. p) packs
unfolding put_packs
put_packs_lem out [] = sym (append-nil out)
put_packs_lem out (p ∷ packs) = put_packs_lem (out ++ p) packs ∙ append_assoc out p _

request_packs_bytes : RequestPacks → Bytes
request_packs_bytes m =
    m.folder_id ++ (le_bytes 4 (length m.packs) ++ (encode_all (λ p. p) m.packs ++ []))

request_packs_encode_parts :
    (m : RequestPacks)
    → length m.packs ≤ max_request_packs
    → request_packs_encode m ≡ ok (request_packs_bytes m)
unfolding request_packs_encode request_packs_bytes
request_packs_encode_parts m h =
    rw (le→ltb max_request_packs (length m.packs) h, put_packs_lem)
      (simp (append_assoc, append-nil))

pack_id-Parses : Parses (or_bad "reqp short" (array 32)) (λ p ys. (ys ≡ p) × IsArray 32 p)
pack_id-Parses =
    Parses_weaken _ (Slice 32) _ (λ p ys s. (s.0, (s.1, s.2)))
      (mapping-Parses _ (array 32) (Slice 32) (array-Parses 32))

IsRequestPacks-Codec : Codec request_packs_parse request_packs_bytes IsRequestPacks
unfolding request_packs_parse request_packs_bytes
IsRequestPacks-Codec = record {
  accepts = λ m w.
      >>=-Accepts _ m.folder_id _
        (mapping-Reads _ m.folder_id (array-Reads 16 m.folder_id w.folder_id_array.0))
        (>>=-Accepts _ (le_bytes 4 (length m.packs)) _
          (mapping-Reads _ (le_bytes 4 (length m.packs))
            (u32-Reads (length m.packs) (omega (arith, w.few))))
          (>>=-Accepts _ [] _ (fail_if-Reads _ _ (le→ltb max_request_packs (length m.packs) w.few))
            (>>=-Accepts _ (encode_all (λ p. p) m.packs) _
              (times-Reads (or_bad "reqp short" (array 32)) (λ p. p) (IsArray 32)
                (λ p a. mapping-Reads _ p (array-Reads 32 p a.0)) m.packs w.ids)
              (end-Accepts _ _ (pure-Accepts m [])))));
  exact =
      >>=-Exact _ _ (Slice 16) _ (mapping-Parses _ (array 16) (Slice 16) (array-Parses 16))
        λ folder y1 p1.
          >>=-Exact _ _ (Word 4) _ (mapping-Parses _ u32 (Word 4) u32-Parses) λ n y2 p2.
            >>=-Exact _ _ _ _ (fail_if-Parses _ _) λ _ y3 p3.
              >>=-Exact _ _ (Items (λ p. p) (IsArray 32) n) _
                (times-Parses (or_bad "reqp short" (array 32)) (λ p. p) (IsArray 32) pack_id-Parses
                  n)
                λ packs y4 p4.
                  let m : RequestPacks = record { folder_id = folder; packs = packs } in
                  end_pure-Exact _ m _ (
                    cc (p1.0, p2.0, p3.0, p4.0, p4.1),
                    record {
                      folder_id_array = (p1.1, p1.2);
                      few = omega (arith, ltb-false max_request_packs n p3.1, p4.1);
                      ids = p4.2;
                    },
                  );
}

-- A payload parses as the request `m` exactly when `encode` makes that payload of `m`; such a
-- request names at most 128 packs, each by an array.
pub request_packs_parse_iff :
    (bs : Bytes) (m : RequestPacks)
    → length bs < usize_limit
    → All IsByte bs
    → (run request_packs_parse bs ≡ ok m) ↔ ((request_packs_encode m ≡ ok bs) × IsRequestPacks m)
request_packs_parse_iff bs m fits bytes =
    let iff =
      run_iff request_packs_parse request_packs_bytes IsRequestPacks IsRequestPacks-Codec bs m fits
        bytes in
    (
      λ e. let (same, w) = iff.0 e in (request_packs_encode_parts m w.few ∙ ap ok (sym same), w),
      λ h. iff.1 (cc (request_packs_encode_parts m h.1.few, h.0), h.1),
    )

length-requested :
    (items : List (BlobKind × BlobId))
    → All IsItem items
    → length (encode_all item_bytes items) ≡ 33 * length items
length-requested [] w = omega arith
length-requested ((kind, id) ∷ items) w = omega (
  arith,
  length-append (item_bytes (kind, id)) (encode_all item_bytes items),
  length-append id [],
  length-requested items w.1,
  w.0.0,
)

-- A request takes 20 bytes and 33 for each item.
pub length-request_items_bytes :
    (m : RequestItems)
    → IsRequestItems m
    → length (request_items_bytes m) ≡ 20 + 33 * length m.items
unfolding request_items_bytes
length-request_items_bytes m w = omega (
  arith,
  length-append m.folder_id (le_bytes 4 (length m.items) ++ (encode_all item_bytes m.items ++ [])),
  length-append (le_bytes 4 (length m.items)) (encode_all item_bytes m.items ++ []),
  length-append (encode_all item_bytes m.items) [],
  length-le_bytes 4 (length m.items),
  length-requested m.items w.ids,
  w.folder_id_array.0,
)

-- What `encode` makes of a request, and that it parses as the request.
pub request_items_encode-parse :
    (m : RequestItems)
    → IsRequestItems m
    → (request_items_encode m ≡ ok (request_items_bytes m))
      × (run request_items_parse (request_items_bytes m) ≡ ok m)
request_items_encode-parse m w = (
  request_items_encode_parts m w.few,
  run-Accepts request_items_parse (request_items_bytes m) m (IsRequestItems-Codec.accepts m w)
      (omega (arith, length-request_items_bytes m w, w.few)),
)
