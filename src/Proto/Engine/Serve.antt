-- ===== src/Proto/Engine/Serve.antt =====
-- crates/ferry-proto/src/engine.rs: `serve_stage`, the answers to the peer's requests. A pack file is
-- read by `read_pack`, which is `none` where the file cannot be read.
pub mod Batches
pub mod Loop
pub mod Group
pub mod Whole
use ferry.Prelude.{
  ℕ, zero, suc, ◌+◌, ◌*◌, Bool, true, false, not, ◌||◌, Option, none, some, List, [], ◌∷◌, ◌++◌,
  Bytes, bytes_eq, length, leb, ◌==◌, if◌then◌else◌, Result, ok, err,
}
use ferry.Store.Format.{BlobId, BlobKind}
use ferry.Store.Reader.{run}
use ferry.Proto.Error.{ProtoError, folder_unknown}
use ferry.Proto.Transfer.{
  max_batch_items, RequestItems, request_items_parse, RequestPacks, request_packs_parse, BatchItem,
  item_batch_encode, PackItem, pack_item_encode,
}
use ferry.Proto.Session.{
  Message, Session, ◌>>=◌, ◌>>◌, pure, fail, lift, exhausted, send_frame, recv_frame, unexpected,
  msg_request_items, msg_request_packs, msg_item_batch, msg_pack_item,
}
use ferry.Proto.Engine.{FolderState, find_folder}
use ferry.Proto.Engine.Fetch.{Stores}

abbrev pub batch_flush_bytes : ℕ
batch_flush_bytes = 8_388_608

unfoldable pub find_store : {H : Type 0} → List (FolderState H) → Bytes → Result ProtoError H
unfolding find_folder
find_store folders folder_id = elim (find_folder folders folder_id) [
  | none ↦ err (folder_unknown folder_id)
  | some f ↦ ok f.store
]

-- A batch that is sent, the terminator among them.
unfoldable pub send_batch : {W : Type 0} → List BatchItem → Session W (Unit {0})
unfolding ◌>>=◌ lift send_frame item_batch_encode
send_batch items = lift (item_batch_encode items) >>= λ payload. send_frame msg_item_batch payload

-- `acc.len() >= MAX_BATCH_ITEMS || size >= BATCH_FLUSH_BYTES`
unfoldable pub is_full : List BatchItem → ℕ → Bool
is_full acc size = leb max_batch_items (length acc) || leb batch_flush_bytes size

-- `acc.push((kind, id, bytes))` where the store has the blob.
unfoldable pub with_blob : BlobKind → BlobId → Option Bytes → List BatchItem → List BatchItem
with_blob kind id none acc = acc
with_blob kind id (some bytes) acc = acc ++ (record { kind = kind; id = id; bytes = bytes } ∷ [])

unfoldable pub grown : Option Bytes → ℕ → ℕ
grown none size = size
grown (some bytes) size = size + length bytes

module _ {W H : Type 0} (s : Stores W H) (h : H) where
  -- The loop of `serve_items` and what follows it; `acc` is sent when it is full.
  unfoldable pub serve_loop : List (BlobKind × BlobId) → List BatchItem → ℕ → Session W (Unit {0})
  unfolding ◌>>◌ send_batch is_full with_blob grown
  serve_loop [] [] size = send_batch []
  serve_loop [] (i ∷ acc) size = send_batch (i ∷ acc) >> send_batch []
  serve_loop ((kind, id) ∷ items) acc size = λ w.
      let found = s.get h kind id w in
      let acc' = with_blob kind id found acc in
      let size' = grown found size in
      let flushed = serve_loop items [] 0 in
      let kept = serve_loop items acc' size' in
      (if is_full acc' size' then send_batch acc' >> flushed else kept) w

  -- The loop of `serve_packs`: a pack whose bytes do not hash to its name is passed over.
  unfoldable pub send_packs : (H → BlobId → W → Option Bytes) → List BlobId → Session W (Unit {0})
  unfolding ◌>>◌ send_batch send_frame pack_item_encode
  send_packs read_pack [] = send_batch []
  send_packs read_pack (name ∷ packs) = λ w.
      let rest = send_packs read_pack packs in
      elim (read_pack h name w) [
        | none ↦ rest w
        | some bytes ↦
            (if bytes_eq (s.hash bytes) name
                then send_frame msg_pack_item
                    (pack_item_encode (record { pack = name; bytes = bytes }))
                  >> rest
                else rest)
              w
      ]

module _ {W H : Type 0} (s : Stores W H) (read_pack : H → BlobId → W → Option Bytes)
    (folders : List (FolderState H)) where
  unfoldable pub serve_items : RequestItems → Session W (Unit {0})
  unfolding ◌>>=◌ lift find_store serve_loop
  serve_items r = lift (find_store folders r.folder_id) >>= λ h. serve_loop s h r.items [] 0

  unfoldable pub serve_packs : RequestPacks → Session W (Unit {0})
  unfolding ◌>>=◌ lift find_store send_packs
  serve_packs r = lift (find_store folders r.folder_id) >>= λ h. send_packs s h read_pack r.packs

  -- An empty request ends the stage.
  unfoldable pub serve_request : RequestItems → Session W (Unit {0}) → Session W (Unit {0})
  unfolding ◌>>◌ pure serve_items
  serve_request r next = elim r.items [ [] ↦ pure tt | _ ∷ _ ↦ serve_items r >> next ]

  -- The `match` on the type of a frame.
  unfoldable pub serve_frame : Message → Session W (Unit {0}) → Session W (Unit {0})
  unfolding ◌>>=◌ ◌>>◌ lift fail serve_request serve_packs
  serve_frame m next =
      if m.msg_type == msg_request_items
      then (lift (run request_items_parse m.payload) >>= λ r. serve_request r next)
      else if m.msg_type == msg_request_packs
      then (lift (run request_packs_parse m.payload) >>= λ r. serve_packs r >> next)
      else fail unexpected

  unfoldable pub serve_stage : ℕ → Session W (Unit {0})
  unfolding ◌>>=◌ exhausted recv_frame serve_frame
  serve_stage zero = exhausted
  serve_stage (suc n) = let next = serve_stage n in recv_frame >>= λ m. serve_frame m next
