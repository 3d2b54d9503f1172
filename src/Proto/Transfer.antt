-- ===== src/Proto/Transfer.antt =====
-- crates/ferry-proto/src/codec.rs: requests, batches, packs and BYE. A writer that can refuse is a
-- guard before the body that writes; a loop over items is a function of its own.
pub mod Laws
use ferry.Prelude.{
  ℕ, ◌+◌, ◌≤◌, ◌<◌, ◌^◌, ◌≡◌, ◌≢◌, List, [], ◌∷◌, ◌++◌, Bytes, IsByte, All, length, ltb, not, Bool,
  true, false, Result, ok, err, if◌then◌else◌, Option,
}
use ferry.Prelude.Results as R
use ferry.Store.Format.{
  BlobId, BlobKind, blob_of_u8, blob_to_u8, put_u8, put_u32, put_u64, put_bytes,
}
use ferry.Store.Reader.{
  Parser, ◌>>=◌, ◌>>◌, pure, fail_if, or_fail, times, take_n, u8, u32, u64, array, expect_end,
}
use ferry.Proto.Error.{ProtoError, violation, bad, frame_too_large, ByeReason, bye_of_u8, bye_to_u8}
use ferry.Proto.Wire.{or_bad, IsArray}

abbrev pub max_request_items : ℕ
max_request_items = 512

abbrev pub max_request_packs : ℕ
max_request_packs = 128

abbrev pub max_batch_items : ℕ
max_batch_items = 512

pub record RequestItems : Type 0 where
  pub folder_id : Bytes
  pub items : List (BlobKind × BlobId)

pub record IsRequestItems (m : RequestItems) : Type 0 where
  pub folder_id_array : IsArray 16 m.folder_id
  pub few : length m.items ≤ max_request_items
  pub ids : All (λ i. IsArray 32 i.1) m.items

unfoldable pub put_items : Bytes → List (BlobKind × BlobId) → Bytes
unfolding put_u8 put_bytes
put_items out [] = out
put_items out ((kind, id) ∷ items) = put_items (put_bytes (put_u8 out (blob_to_u8 kind)) id) items

unfoldable pub request_items_encode : RequestItems → Result ProtoError Bytes
unfolding put_u32 put_bytes put_items
request_items_encode m =
    if ltb max_request_items (length m.items)
    then err (frame_too_large (length m.items) max_request_items)
    else ok (put_items (put_u32 (put_bytes [] m.folder_id) (length m.items)) m.items)

unfoldable pub request_item_parse : Parser ProtoError (BlobKind × BlobId)
request_item_parse = do
  kb ← or_bad "req short" u8
  kind ← or_fail (blob_of_u8 kb) (violation "unknown blob kind")
  id ← or_bad "req short" (array 32)
  pure (kind, id)

unfoldable pub request_items_parse : Parser ProtoError RequestItems
request_items_parse = do
  folder_id ← or_bad "req short" (array 16)
  n ← or_bad "req short" u32
  fail_if (ltb max_request_items n) (violation "request too many items")
  items ← times n request_item_parse
  or_bad "req trailing" expect_end
  pure (record { folder_id = folder_id; items = items })

pub record RequestPacks : Type 0 where
  pub folder_id : Bytes
  pub packs : List BlobId

pub record IsRequestPacks (m : RequestPacks) : Type 0 where
  pub folder_id_array : IsArray 16 m.folder_id
  pub few : length m.packs ≤ max_request_packs
  pub ids : All (IsArray 32) m.packs

unfoldable pub put_packs : Bytes → List BlobId → Bytes
unfolding put_bytes
put_packs out [] = out
put_packs out (p ∷ packs) = put_packs (put_bytes out p) packs

unfoldable pub request_packs_encode : RequestPacks → Result ProtoError Bytes
unfolding put_u32 put_bytes put_packs
request_packs_encode m =
    if ltb max_request_packs (length m.packs)
    then err (frame_too_large (length m.packs) max_request_packs)
    else ok (put_packs (put_u32 (put_bytes [] m.folder_id) (length m.packs)) m.packs)

unfoldable pub request_packs_parse : Parser ProtoError RequestPacks
request_packs_parse = do
  folder_id ← or_bad "reqp short" (array 16)
  n ← or_bad "reqp short" u32
  fail_if (ltb max_request_packs n) (violation "request too many packs")
  packs ← times n (or_bad "reqp short" (array 32))
  or_bad "reqp trailing" expect_end
  pure (record { folder_id = folder_id; packs = packs })

pub record BatchItem : Type 0 where
  pub kind : BlobKind
  pub id : BlobId
  pub bytes : Bytes

-- `usize` has 64 bits, so `u64 as usize` keeps the value.
pub record IsBatchItem (i : BatchItem) : Type 0 where
  pub id_array : IsArray 32 i.id
  pub bytes_fit : length i.bytes < 2 ^ 64

unfoldable pub is_empty : Bytes → Bool
is_empty [] = true
is_empty _ = false

-- The loop of `ItemBatch::encode`, which refuses an empty blob where it meets one.
unfoldable pub put_batch : Bytes → List BatchItem → Result ProtoError Bytes
unfolding put_u8 put_u64 put_bytes is_empty
put_batch out [] = ok out
put_batch out (i ∷ items) =
    let out' =
      put_bytes (put_u64 (put_bytes (put_u8 out (blob_to_u8 i.kind)) i.id) (length i.bytes))
        i.bytes in
    let more = put_batch out' items in
    if is_empty i.bytes then err (violation "empty blob cannot exist") else more

unfoldable pub item_batch_encode : List BatchItem → Result ProtoError Bytes
unfolding put_u32 put_batch
item_batch_encode items =
    if ltb max_batch_items (length items)
    then err (frame_too_large (length items) max_batch_items)
    else put_batch (put_u32 [] (length items)) items

unfoldable pub batch_item_parse : Parser ProtoError BatchItem
batch_item_parse = do
  kb ← or_bad "batch short" u8
  kind ← or_fail (blob_of_u8 kb) (violation "unknown blob kind")
  id ← or_bad "batch short" (array 32)
  len ← or_bad "batch short" u64
  bytes ← or_bad "batch truncated" (take_n len)
  pure (record { kind = kind; id = id; bytes = bytes })

unfoldable pub item_batch_parse : Parser ProtoError (List BatchItem)
item_batch_parse = do
  n ← or_bad "batch short" u32
  fail_if (ltb max_batch_items n) (violation "batch too many items")
  items ← times n batch_item_parse
  or_bad "batch trailing" expect_end
  pure items

pub record PackItem : Type 0 where
  pub pack : BlobId
  pub bytes : Bytes

pub record IsPackItem (p : PackItem) : Type 0 where
  pub pack_array : IsArray 32 p.pack
  pub bytes_fit : length p.bytes < 2 ^ 32
  pub filled : is_empty p.bytes ≡ false

-- `len() as u32` drops what does not fit, as `le_bytes 4` does.
unfoldable pub pack_item_encode : PackItem → Bytes
unfolding put_u32 put_bytes
pack_item_encode p = put_bytes (put_u32 (put_bytes [] p.pack) (length p.bytes)) p.bytes

unfoldable pub pack_item_parse : Parser ProtoError PackItem
unfolding is_empty
pack_item_parse = do
  pack ← or_bad "packitem short" (array 32)
  len ← or_bad "packitem short" u32
  bytes ← or_bad "packitem truncated" (take_n len)
  or_bad "packitem trailing" expect_end
  fail_if (is_empty bytes) (violation "empty pack")
  pure (record { pack = pack; bytes = bytes })

unfoldable pub bye_encode : ByeReason → Bytes
bye_encode reason = bye_to_u8 reason ∷ []

unfoldable pub bye_parse : Parser ProtoError ByeReason
bye_parse = do
  code ← or_bad "bye short" u8
  or_bad "bye trailing" expect_end
  or_fail (bye_of_u8 code) (violation "unknown bye code")
