-- ===== src/Proto/Transfer/Laws/Batches.antt =====
-- Batches of blobs, packs and BYE. The writer of a batch refuses an empty blob and its parser does
-- not; the parser of a pack refuses an empty pack and its writer does not.
use ferry.Prelude.{
  ◌≤◌, ◌<◌, ◌≡◌, ◌↔◌, refl, sym, ap, subst, ◌∙◌, List, [], ◌∷◌, ◌++◌, append_assoc, append-nil,
  Bytes, IsByte, All, length, ok, err, true, false, arith, le→ltb, ltb-false, Bool-cases, inl, inr,
  ℕ, ◌+◌, ◌*◌, length-append,
}
use ferry.Store.Format.{blob_to_u8, le_bytes}
use ferry.Store.Format.Laws.{blob_of_u8-blob_to_u8, blob_of_u8-eq-some, length-le_bytes}
use ferry.Store.Reader.{u8, u32, u64, take_n, array, usize_limit, run}
use ferry.Store.Reader.Laws.{
  Reads, Parses, mapping-Reads, mapping-Parses, pure-Reads, pure-Parses, >>=-Reads, >>=-Parses,
}
use ferry.Store.Reader.Laws.Primitives.{
  Word, Slice, u8-Reads, u8-Parses, u32-Reads, u32-Parses, u64-Reads, u64-Parses, array-Reads,
  array-Parses, take_n-Reads, take_n-Parses,
}
use ferry.Store.Reader.Laws.Whole.{
  Accepts, Codec, Items, encode_all, >>=-Accepts, >>=-Exact, end-Accepts, end_pure-Exact,
  end_check-Exact, end-Exact, pure-Accepts, fail_if-Reads, fail_if-Parses, or_fail-Reads,
  or_fail-Parses, times-Reads, times-Parses, run_iff, run-Accepts,
}
use ferry.Proto.Error.{violation, bye_of_u8-eq-some, bye_to_u8, ByeReason, bye_of_u8-bye_to_u8}
use ferry.Proto.Transfer.{
  max_batch_items, BatchItem, IsBatchItem, is_empty, put_batch, item_batch_encode, batch_item_parse,
  item_batch_parse, PackItem, IsPackItem, pack_item_encode, pack_item_parse, bye_encode, bye_parse,
}

-- The bytes of one item of a batch.
abbrev pub batch_item_bytes : BatchItem → Bytes
batch_item_bytes i =
    (blob_to_u8 i.kind ∷ []) ++ (i.id ++ (le_bytes 8 (length i.bytes) ++ (i.bytes ++ [])))

batch_item-Reads : (i : BatchItem) → IsBatchItem i → Reads batch_item_parse (batch_item_bytes i) i
unfolding batch_item_parse
batch_item-Reads i w =
    >>=-Reads _ (blob_to_u8 i.kind ∷ []) _
      (mapping-Reads _ (blob_to_u8 i.kind ∷ []) (u8-Reads (blob_to_u8 i.kind)))
      (>>=-Reads _ [] _ (or_fail-Reads _ _ (blob_of_u8-blob_to_u8 i.kind)) (
        >>=-Reads _ i.id _ (mapping-Reads _ i.id (array-Reads 32 i.id w.id_array.0)) (
          >>=-Reads _ (le_bytes 8 (length i.bytes)) _
            (mapping-Reads _ (le_bytes 8 (length i.bytes)) (u64-Reads (length i.bytes) w.bytes_fit))
            (>>=-Reads _ i.bytes []
              (mapping-Reads _ i.bytes (take_n-Reads (length i.bytes) i.bytes refl))
              (pure-Reads i)))))

IsBatchItem-Parses : Parses batch_item_parse (λ i ys. (ys ≡ batch_item_bytes i) × IsBatchItem i)
unfolding batch_item_parse
IsBatchItem-Parses = >>=-Parses _ _ _ _ (mapping-Parses _ u8 _ u8-Parses) λ kb y1 p1.
    >>=-Parses _ _ _ _ (or_fail-Parses _ _) λ kind y2 p2.
      >>=-Parses _ _ (Slice 32) _ (mapping-Parses _ (array 32) (Slice 32) (array-Parses 32))
        λ id y3 p3.
          >>=-Parses _ _ (Word 8) _ (mapping-Parses _ u64 (Word 8) u64-Parses) λ len y4 p4.
            >>=-Parses _ _ (Slice len) _
              (mapping-Parses _ (take_n len) (Slice len) (take_n-Parses len))
              λ bytes y5 p5.
                pure-Parses (record { kind = kind; id = id; bytes = bytes }) _
                  (
                    cc (p1.0, p2.0, p3.0, p4.0, p5.0, p5.1, blob_of_u8-eq-some kb p2.1),
                    record { id_array = (p3.1, p3.2); bytes_fit = omega (arith, p4.1, p5.1) },
                  )

-- The items of a batch that `encode` makes.
pub record IsBatch (items : List BatchItem) : Type 0 where
  pub few : length items ≤ max_batch_items
  pub each : All IsBatchItem items

abbrev pub batch_bytes : List BatchItem → Bytes
batch_bytes items = le_bytes 4 (length items) ++ (encode_all batch_item_bytes items ++ [])

IsBatch-Codec : Codec item_batch_parse batch_bytes IsBatch
unfolding item_batch_parse
IsBatch-Codec = record {
  accepts = λ items w.
      >>=-Accepts _ (le_bytes 4 (length items)) _
        (mapping-Reads _ (le_bytes 4 (length items))
          (u32-Reads (length items) (omega (arith, w.few))))
        (>>=-Accepts _ [] _ (fail_if-Reads _ _ (le→ltb max_batch_items (length items) w.few)) (
          >>=-Accepts _ (encode_all batch_item_bytes items) _
            (times-Reads batch_item_parse batch_item_bytes IsBatchItem batch_item-Reads items
              w.each)
            (end-Accepts _ _ (pure-Accepts items []))));
  exact = >>=-Exact _ _ (Word 4) _ (mapping-Parses _ u32 (Word 4) u32-Parses) λ n y1 p1.
      >>=-Exact _ _ _ _ (fail_if-Parses _ _) λ _ y2 p2.
        >>=-Exact _ _ (Items batch_item_bytes IsBatchItem n) _
          (times-Parses batch_item_parse batch_item_bytes IsBatchItem IsBatchItem-Parses n)
          λ items y3 p3. end_pure-Exact _ items _ (
            cc (p1.0, p2.0, p3.0, p3.1),
            record { few = omega (arith, ltb-false max_batch_items n p2.1, p3.1); each = p3.2 },
          );
}

abbrev pub IsFilled : BatchItem → Type 0
IsFilled i = is_empty i.bytes ≡ false

put_batch_lem :
    (out : Bytes) (items : List BatchItem)
    → All IsFilled items
    → put_batch out items ≡ ok (out ++ encode_all batch_item_bytes items)
unfolding put_batch
put_batch_lem out [] f = ap ok (sym (append-nil out))
put_batch_lem out (i ∷ items) f = rw f.0 (
    put_batch_lem
      ((((out ++ (blob_to_u8 i.kind ∷ [])) ++ i.id) ++ le_bytes 8 (length i.bytes)) ++ i.bytes)
      items f.1
    ∙ ap ok (simp (append_assoc, append-nil)))

item_batch_encode_parts :
    (items : List BatchItem)
    → length items ≤ max_batch_items
    → All IsFilled items
    → item_batch_encode items ≡ ok (batch_bytes items)
unfolding item_batch_encode
item_batch_encode_parts items h f =
    rw (le→ltb max_batch_items (length items) h)
      (put_batch_lem (le_bytes 4 (length items)) items f ∙ ap ok (simp append-nil))

-- A payload parses as a batch with no empty blob exactly when `encode` makes that payload of it; such
-- a batch has at most 512 items.
pub item_batch_parse_iff :
    (bs : Bytes) (items : List BatchItem)
    → length bs < usize_limit
    → All IsByte bs
    → All IsFilled items
    → (run item_batch_parse bs ≡ ok items) ↔ ((item_batch_encode items ≡ ok bs) × IsBatch items)
item_batch_parse_iff bs items fits bytes f =
    let iff = run_iff item_batch_parse batch_bytes IsBatch IsBatch-Codec bs items fits bytes in
    (
      λ e. let (same, w) = iff.0 e in (item_batch_encode_parts items w.few f ∙ ap ok (sym same), w),
      λ h. iff.1 (cc (item_batch_encode_parts items h.1.few f, h.0), h.1),
    )

put_batch_refuses :
    (out : Bytes) (before after : List BatchItem) (i : BatchItem)
    → is_empty i.bytes ≡ true
    → put_batch out (before ++ (i ∷ after)) ≡ err (violation "empty blob cannot exist")
unfolding put_batch
put_batch_refuses out [] after i h = rw h
put_batch_refuses out (j ∷ before) after i h = elim (Bool-cases (is_empty j.bytes)) [
  | inl none_here ↦ rw none_here
  | inr some_here ↦ rw some_here (
      put_batch_refuses
        ((((out ++ (blob_to_u8 j.kind ∷ [])) ++ j.id) ++ le_bytes 8 (length j.bytes)) ++ j.bytes)
        before after i h)
]

-- The two ends of a batch disagree on an empty blob: wherever it stands in a batch of valid items,
-- the writer refuses the whole batch, and the parser returns it from the bytes of the items.
pub empty_blob_asymmetry :
    (before after : List BatchItem) (i : BatchItem)
    → is_empty i.bytes ≡ true
    → IsBatch (before ++ (i ∷ after))
    → All IsByte (batch_bytes (before ++ (i ∷ after)))
    → length (batch_bytes (before ++ (i ∷ after))) < usize_limit
    → (item_batch_encode (before ++ (i ∷ after)) ≡ err (violation "empty blob cannot exist"))
      × (run item_batch_parse (batch_bytes (before ++ (i ∷ after))) ≡ ok (before ++ (i ∷ after)))
unfolding item_batch_encode
empty_blob_asymmetry before after i h w bytes fits = (
  rw (le→ltb max_batch_items (length (before ++ (i ∷ after))) w.few)
      (put_batch_refuses (le_bytes 4 (length (before ++ (i ∷ after)))) before after i h),
  (run_iff item_batch_parse batch_bytes IsBatch IsBatch-Codec _ (before ++ (i ∷ after)) fits
        bytes).1
      (refl, w),
)

pack_item_encode_parts :
    (p : PackItem) → pack_item_encode p ≡ p.pack ++ (le_bytes 4 (length p.bytes) ++ (p.bytes ++ []))
unfolding pack_item_encode
pack_item_encode_parts p = simp (append_assoc, append-nil)

IsPackItem-Codec : Codec pack_item_parse pack_item_encode IsPackItem
unfolding pack_item_parse
IsPackItem-Codec = record {
  accepts = λ p w.
      subst (λ bs. Accepts pack_item_parse bs p) (sym (pack_item_encode_parts p))
        (>>=-Accepts _ p.pack _ (mapping-Reads _ p.pack (array-Reads 32 p.pack w.pack_array.0)) (
          >>=-Accepts _ (le_bytes 4 (length p.bytes)) _
            (mapping-Reads _ (le_bytes 4 (length p.bytes)) (u32-Reads (length p.bytes) w.bytes_fit))
            (>>=-Accepts _ p.bytes _
              (mapping-Reads _ p.bytes (take_n-Reads (length p.bytes) p.bytes refl))
              (end-Accepts _ _
                (>>=-Accepts _ [] [] (fail_if-Reads _ _ w.filled) (pure-Accepts p []))))));
  exact =
      >>=-Exact _ _ (Slice 32) _ (mapping-Parses _ (array 32) (Slice 32) (array-Parses 32))
        λ pack y1 p1.
          >>=-Exact _ _ (Word 4) _ (mapping-Parses _ u32 (Word 4) u32-Parses) λ len y2 p2.
            >>=-Exact _ _ (Slice len) _
              (mapping-Parses _ (take_n len) (Slice len) (take_n-Parses len))
              λ bytes y3 p3.
                let p : PackItem = record { pack = pack; bytes = bytes } in
                end_check-Exact _ _ _ p _ λ filled. (
                  cc (pack_item_encode_parts p, p1.0, p2.0, p3.0, p3.1),
                  record {
                    pack_array = (p1.1, p1.2);
                    bytes_fit = omega (arith, p2.1, p3.1);
                    filled = filled;
                  },
                );
}

-- A payload parses as the pack `p` exactly when it is the encoding of `p` and `p` is not empty.
pub pack_item_parse_iff :
    (bs : Bytes) (p : PackItem)
    → length bs < usize_limit
    → All IsByte bs
    → (run pack_item_parse bs ≡ ok p) ↔ ((bs ≡ pack_item_encode p) × IsPackItem p)
pack_item_parse_iff = run_iff pack_item_parse pack_item_encode IsPackItem IsPackItem-Codec

bye-Codec : Codec bye_parse bye_encode (λ _. Unit {0})
unfolding bye_parse bye_encode
bye-Codec = record {
  accepts = λ reason _.
      >>=-Accepts _ (bye_to_u8 reason ∷ []) []
        (mapping-Reads _ (bye_to_u8 reason ∷ []) (u8-Reads (bye_to_u8 reason)))
        (end-Accepts _ _
          λ r h. let (r', e, _) = or_fail-Reads _ _ (bye_of_u8-bye_to_u8 reason) r [] h in (r', e));
  exact = >>=-Exact _ _ _ _ (mapping-Parses _ u8 _ u8-Parses) λ code y1 p1.
      end-Exact _ _ _ λ r r' reason h e.
        let (_, _, _, known, _, _) = or_fail-Parses _ _ r r' reason [] h tt e in
        (cc (append-nil y1, p1.0, bye_of_u8-eq-some code known.1), tt);
}

-- A payload parses as the reason `r` exactly when it is the one byte of `r`.
pub bye_parse_iff :
    (bs : Bytes) (reason : ByeReason)
    → length bs < usize_limit
    → All IsByte bs
    → (run bye_parse bs ≡ ok reason) ↔ (bs ≡ bye_encode reason)
bye_parse_iff bs reason fits bytes =
    let iff = run_iff bye_parse bye_encode (λ _. Unit {0}) bye-Codec bs reason fits bytes in
    (λ e. (iff.0 e).0, λ e. iff.1 (e, tt))

-- The bytes of the items' blobs.
abbrev pub total : List BatchItem → ℕ
total [] = 0
total (i ∷ items) = length i.bytes + total items

length-items :
    (items : List BatchItem)
    → All IsBatchItem items
    → length (encode_all batch_item_bytes items) ≡ 41 * length items + total items
length-items [] w = omega arith
length-items (i ∷ items) w = omega (
  arith,
  length-append (batch_item_bytes i) (encode_all batch_item_bytes items),
  length-items items w.1,
  one i w.0,
)
  where
    one : (i : BatchItem) → IsBatchItem i → length (batch_item_bytes i) ≡ 41 + length i.bytes
    one i w = omega (
      arith,
      length-append i.id (le_bytes 8 (length i.bytes) ++ (i.bytes ++ [])),
      length-append (le_bytes 8 (length i.bytes)) (i.bytes ++ []),
      length-append i.bytes [],
      length-le_bytes 8 (length i.bytes),
      w.id_array.0,
    )

-- A batch takes 41 bytes for each item, and the blobs.
pub length-batch_bytes :
    (items : List BatchItem)
    → All IsBatchItem items
    → length (batch_bytes items) ≡ 4 + 41 * length items + total items
length-batch_bytes items w = omega (
  arith,
  length-append (le_bytes 4 (length items)) (encode_all batch_item_bytes items ++ []),
  length-append (encode_all batch_item_bytes items) [],
  length-le_bytes 4 (length items),
  length-items items w,
)

-- What `encode` makes of a batch with no empty blob, and that it parses as the batch.
pub item_batch_encode-parse :
    (items : List BatchItem)
    → IsBatch items
    → All IsFilled items
    → length (batch_bytes items) < usize_limit
    → (item_batch_encode items ≡ ok (batch_bytes items))
      × (run item_batch_parse (batch_bytes items) ≡ ok items)
item_batch_encode-parse items w f fits = (
  item_batch_encode_parts items w.few f,
  run-Accepts item_batch_parse (batch_bytes items) items (IsBatch-Codec.accepts items w) fits,
)
