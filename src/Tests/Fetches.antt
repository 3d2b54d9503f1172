-- ===== src/Tests/Fetches.antt =====
-- Fetching into a small store.
use ferry.Prelude.{
  ℕ, ◌+◌, ◌≡◌, refl, Bool, true, false, List, length, ◌&&◌, ◌||◌, Option, none, some, [], ◌∷◌,
  Bytes, bytes_eq, ◌==◌, if◌then◌else◌, ok, err, arith,
}
use ferry.Store.Format.{BlobId, BlobKind, data_chunk, blob_to_u8}
use ferry.Proto.Error.{io_other}
use ferry.Proto.Session.Always.{Always}
use ferry.Proto.Engine.Fetch.{Stores, fetch_blobs}
use ferry.Proto.Engine.Fetch.Stored.{Satisfied, fetch_blobs-Satisfied}
use ferry.Prelude.Chunks.{chunks}
use ferry.Proto.Wire.{IsArray}
use ferry.Proto.Transfer.{max_request_items, BatchItem, is_empty}
use ferry.Proto.Session.{Peer, done}
use ferry.Proto.Session.Meet.{quiet, AlwaysEnds}
use ferry.Proto.Engine.{FolderState, find_folder}
use ferry.Proto.Engine.Serve.{find_store, serve_stage}
use ferry.Proto.Engine.Serve.Batches.{IsGood, absorbed, Accepts}
use ferry.Proto.Engine.Serve.Group.{ids_of}
use ferry.Proto.Engine.Serve.Whole.{IsServed, fetch_blobs-AlwaysEnds}
use ferry.Tests.Data.{id_of, folder_of, all_bytes, all_bytes_sound}

abbrev v1_peer : Peer
v1_peer = record { max = 256; flags = 1 }

-- The ids that a store holds. Here the hash of bytes is the bytes, and an empty blob is refused.
abbrev Held : Type 0
Held = BlobKind → BlobId → Bool

abbrev read : Bool → BlobId → Option Bytes
read b id = if b then some id else none

abbrev put : BlobKind → Bytes → Held → Held
put kind bytes w k id = (blob_to_u8 kind == blob_to_u8 k && bytes_eq bytes id) || w k id

abbrev store : Stores Held ℕ
store = record {
  hash = λ bytes. bytes;
  get = λ h k id w. read (w k id) id;
  put_blob =
      λ h kind bytes w. if is_empty bytes then (w, err io_other) else (put kind bytes w, ok tt);
}

abbrev nothing_held : Held
nothing_held k id = false

fetch_blobs-Satisfied_example :
    Always
      (Satisfied store 0 nothing_held (id_of 4 ∷ id_of 5 ∷ []) nothing_held)
      (fetch_blobs store 0 (folder_of 1) data_chunk (id_of 4 ∷ id_of 5 ∷ []) 3 0 nothing_held)
fetch_blobs-Satisfied_example =
    fetch_blobs-Satisfied store 0 (folder_of 1) data_chunk (id_of 4 ∷ id_of 5 ∷ []) 3 0 nothing_held

-- A server with two chunks, in the one folder it is configured with.
abbrev chunk : ℕ → BatchItem
chunk b = record { kind = data_chunk; id = id_of b; bytes = id_of b }

abbrev two_chunks : List BatchItem
two_chunks = chunk 4 ∷ chunk 5 ∷ []

abbrev server_holds : Held
server_holds = put data_chunk (id_of 4) (put data_chunk (id_of 5) nothing_held)

abbrev served_folders : List (FolderState ℕ)
served_folders = record { folder_id = folder_of 1; store = 0; current_manifest = none } ∷ []

abbrev no_packs : ℕ → BlobId → Held → Option Bytes
no_packs h name w = none

id_of-IsArray : (b : ℕ) → all_bytes (id_of b) ≡ true → IsArray 32 (id_of b)
id_of-IsArray b h = (refl, all_bytes_sound (id_of b) h)

chunk-IsGood : (b : ℕ) → all_bytes (id_of b) ≡ true → IsGood store.hash (chunk b)
unfolding is_empty
chunk-IsGood b h = record {
  id_array = id_of-IsArray b h;
  filled = refl;
  small = omega arith;
  hashes = refl;
}

two_chunks-IsServed : IsServed store.hash store 0 server_holds data_chunk two_chunks
unfolding blob_to_u8 bytes_eq
two_chunks-IsServed = record {
  kinds = (refl, (refl, tt));
  good = (chunk-IsGood 4 refl, (chunk-IsGood 5 refl, tt));
  held = (refl, (refl, tt));
}

folder_known : find_store served_folders (folder_of 1) ≡ ok 0
unfolding find_store find_folder bytes_eq
folder_known = refl

two_chunks_accepted : Accepts store 0 two_chunks nothing_held
unfolding is_empty
two_chunks_accepted = (refl, (refl, tt))

fetch_blobs-AlwaysEnds_example :
    AlwaysEnds v1_peer v1_peer
      (quiet (fetch_blobs store 0 (folder_of 1) data_chunk (ids_of two_chunks) 3 0 nothing_held) (
        serve_stage store no_packs served_folders
          (length (chunks max_request_items two_chunks) + 2)
          server_holds))
      (quiet
        (done (absorbed store 0 two_chunks nothing_held) (ok 0))
        (serve_stage store no_packs served_folders 2 server_holds))
fetch_blobs-AlwaysEnds_example =
    fetch_blobs-AlwaysEnds v1_peer v1_peer store 0 store no_packs served_folders 0 server_holds
      (folder_of 1) data_chunk two_chunks 3 0 1 nothing_held (omega arith) two_chunks-IsServed
      (refl, all_bytes_sound (folder_of 1) refl) folder_known two_chunks_accepted
