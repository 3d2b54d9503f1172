-- ===== src/Proto/Engine/Fetch.antt =====
-- crates/ferry-proto/src/engine.rs: `fetch_blobs` and `read_item_batches`, which ask the peer for
-- blobs and store what arrives. The store is an interface, and so is blake3. `rejections`, which the
-- source counts through a reference, is passed along.
pub mod Sets
pub mod Calls
pub mod Stored
use ferry.Prelude.{
  ℕ, zero, suc, ◌+◌, ◌≡◌, Bool, true, false, not, Option, none, some, List, [], ◌∷◌, map, Bytes,
  bytes_eq, keep, length, if◌then◌else◌, Result, ok, err,
}
use ferry.Prelude.Maps.{member, add}
use ferry.Prelude.Chunks.{chunks}
use ferry.Store.Format.{BlobId, BlobKind}
use ferry.Store.Reader.{run}
use ferry.Proto.Error.{ProtoError, budget_exceeded, missing_items}
use ferry.Proto.Transfer.{
  max_request_items, RequestItems, request_items_encode, BatchItem, item_batch_parse,
}
use ferry.Proto.Session.{
  Session, Process, done, ◌>>=◌, ◌>>◌, pure, fail, lift, send_frame, expect_frame,
  msg_request_items, msg_item_batch,
}
use ferry.Proto.Engine.{budget}

-- A party's stores, of which `W` is the content, and the hash that names a blob. `put_blob` refuses an
-- empty blob, and can fail on the disk; on an error too it may have changed the store, since a pack
-- that could not be written has left the staging area.
pub record Stores (W H : Type 0) : Type 0 where
  pub hash : Bytes → BlobId
  pub get : H → BlobKind → BlobId → W → Option Bytes
  pub put_blob : H → BlobKind → Bytes → W → W × Result ProtoError (Unit {0})

-- `got.extend(more)`
unfoldable pub extend : List BlobId → List BlobId → List BlobId
unfolding add
extend [] got = got
extend (id ∷ more) got = add id (extend more got)

unfoldable pub request_payload : Bytes → BlobKind → List BlobId → Result ProtoError Bytes
unfolding request_items_encode
request_payload folder_id kind group =
    request_items_encode (record { folder_id = folder_id; items = map (λ id. (kind, id)) group })

-- `outstanding.retain(|id| !got.contains(id))`
unfoldable pub still_missing : List BlobId → List BlobId → List BlobId
unfolding member
still_missing got outstanding = keep (λ id. not (member id got)) outstanding

-- What is received, and how many blobs were refused.
abbrev pub Received : Type 0
Received = List BlobId × ℕ

module _ {W H : Type 0} (s : Stores W H) (h : H) where
  -- `store.put_blob(kind, &bytes)?`
  unfoldable pub store_blob : BlobKind → Bytes → Session W (Unit {0})
  store_blob kind bytes w = let (w', r) = s.put_blob h kind bytes w in done w' r

  -- The loop over the items of a batch: a blob that does not hash to its id is refused.
  unfoldable pub take_items : List BatchItem → Received → Session W Received
  unfolding ◌>>◌ pure store_blob add
  take_items [] (got, rejections) = pure (got, rejections)
  take_items (i ∷ items) (got, rejections) =
      let refused = take_items items (got, suc rejections) in
      let stored = take_items items (add i.id got, rejections) in
      if not (bytes_eq (s.hash i.bytes) i.id) then refused else store_blob i.kind i.bytes >> stored

  -- After a batch: an empty one ends the round.
  unfoldable pub after_batch :
      List BatchItem → Received → (Received → Session W Received) → Session W Received
  unfolding ◌>>=◌ pure take_items
  after_batch [] received next = pure received
  after_batch (i ∷ items) received next = take_items (i ∷ items) received >>= next

  -- The loop of `read_item_batches` with `n` batches left of its limit.
  unfoldable pub read_batches : ℕ → Received → Session W Received
  unfolding ◌>>=◌ fail expect_frame lift after_batch
  read_batches zero received = fail (budget_exceeded "item batches in one request round" budget)
  read_batches (suc n) received =
      let next = read_batches n in
      expect_frame msg_item_batch >>= λ payload.
      lift (run item_batch_parse payload) >>= λ batch. after_batch batch received next

  unfoldable pub read_item_batches : ℕ → Session W Received
  unfolding read_batches
  read_item_batches rejections = read_batches budget ([], rejections)

  -- The requests of one round, a group of at most 512 ids each.
  unfoldable pub request_groups :
      Bytes → BlobKind → List (List BlobId) → Received → Session W Received
  unfolding ◌>>=◌ ◌>>◌ pure lift send_frame request_payload read_item_batches extend
  request_groups folder_id kind [] received = pure received
  request_groups folder_id kind (group ∷ groups) (got, rejections) = do
    payload ← lift (request_payload folder_id kind group)
    send_frame msg_request_items payload
    received ← read_item_batches rejections
    request_groups folder_id kind groups (extend received.0 got, received.1)

  -- The rounds that are left; behind the last, something outstanding is an error.
  unfoldable pub fetch_rounds : ℕ → Bytes → BlobKind → List BlobId → ℕ → Session W ℕ
  unfolding ◌>>=◌ pure fail chunks request_groups still_missing
  fetch_rounds n folder_id kind [] rejections = pure rejections
  fetch_rounds zero folder_id kind (id ∷ ids) rejections = fail (missing_items (length (id ∷ ids)))
  fetch_rounds (suc n) folder_id kind (id ∷ ids) rejections =
      request_groups folder_id kind (chunks max_request_items (id ∷ ids)) ([], rejections)
      >>= λ received. fetch_rounds n folder_id kind (still_missing received.0 (id ∷ ids)) received.1

  -- The result is the new count of rejections; there are `retries + 1` rounds.
  unfoldable pub fetch_blobs : Bytes → BlobKind → List BlobId → ℕ → ℕ → Session W ℕ
  unfolding fetch_rounds
  fetch_blobs folder_id kind want retries rejections =
      fetch_rounds (suc retries) folder_id kind want rejections
