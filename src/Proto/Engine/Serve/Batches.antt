-- ===== src/Proto/Engine/Serve/Batches.antt =====
-- One party serves the blobs of a request while the other reads the batches.
use ferry.Prelude.{
  ℕ, suc, ◌+◌, ◌≤◌, ◌<◌, ◌≡◌, refl, ◌∙◌, some, List, [], ◌∷◌, ◌++◌, Bytes, All, bytes_eq_iff,
  if◌then◌else◌, length, ok, arith,
}
use ferry.Prelude.Maps.{add}
use ferry.Store.Format.{BlobId, BlobKind}
use ferry.Proto.Wire.{IsArray}
use ferry.Proto.Transfer.{max_batch_items, BatchItem, IsBatchItem, item_batch_encode}
use ferry.Proto.Transfer.Laws.Batches.{
  IsFilled, batch_bytes, total, length-batch_bytes, item_batch_encode-parse,
}
use ferry.Proto.Session.{
  Peer, Process, done, bind, ◌>>=◌, ◌>>◌, pure, lift, recv_frame, of_type, expect_frame, is_known,
  msg_item_batch, sealed_len, send_frame,
}
use ferry.Proto.Session.Run.{Link}
use ferry.Proto.Session.Meet.{quiet, Reaches, to_left, Reaches_same, send_frame_fits}
use ferry.Proto.Engine.Fetch.{Stores, Received, store_blob, take_items, after_batch, read_batches}
use ferry.Proto.Engine.Serve.{batch_flush_bytes, send_batch, is_full, with_blob, grown, serve_loop}

-- The most that a blob may have, for its batch to fit a frame.
abbrev pub blob_limit : ℕ
blob_limit = 33_554_432

-- A blob that a batch can carry, and that hashes to its id.
pub record IsGood (hash : Bytes → BlobId) (i : BatchItem) : Type 0 where
  pub id_array : IsArray 32 i.id
  pub filled : IsFilled i
  pub small : length i.bytes ≤ blob_limit
  pub hashes : hash i.bytes ≡ i.id

good-IsBatchItem :
    (hash : Bytes → BlobId) (items : List BatchItem)
    → All (IsGood hash) items
    → All IsBatchItem items × All IsFilled items
good-IsBatchItem hash [] g = (tt, tt)
good-IsBatchItem hash (i ∷ items) g =
    let (a, b) = good-IsBatchItem hash items g.1 in
    ((record { id_array = g.0.id_array; bytes_fit = omega (arith, g.0.small) }, a), (g.0.filled, b))

send_batch_good :
    {V B : Type 0} (b : List BatchItem) (v : V) (g : V → Unit {0} → Process V B) {payload : Bytes}
    → item_batch_encode b ≡ ok payload
    → bind (send_batch b v) g ≡ bind (send_frame msg_item_batch payload v) g
unfolding send_batch ◌>>=◌ lift bind
send_batch_good b v g e = rw (e, bind) refl

-- The ids that are got when the items are taken.
abbrev pub gained : List BatchItem → List BlobId → List BlobId
gained [] got = got
gained (i ∷ items) got = gained items (add i.id got)

-- The reader's stores.
module _ {W H : Type 0} (s : Stores W H) (h : H) where
  -- The state after the items are given to `put_blob`.
  abbrev pub absorbed : List BatchItem → W → W
  absorbed [] w = w
  absorbed (i ∷ items) w = absorbed items (s.put_blob h i.kind i.bytes w).0

  -- `put_blob` accepts the items, one after the other.
  abbrev pub Accepts : List BatchItem → W → Type 0
  Accepts [] w = Unit {0}
  Accepts (i ∷ items) w =
      ((s.put_blob h i.kind i.bytes w).1 ≡ ok tt) × Accepts items (s.put_blob h i.kind i.bytes w).0

  pub Accepts-append :
      (xs ys : List BatchItem) (w : W)
      → Accepts (xs ++ ys) w
      → Accepts xs w × Accepts ys (absorbed xs w)
  Accepts-append [] ys w a = (tt, a)
  Accepts-append (x ∷ xs) ys w a =
      let (l, r) = Accepts-append xs ys (s.put_blob h x.kind x.bytes w).0 a.1 in ((a.0, l), r)

  take_items_good :
      (items : List BatchItem) (got : List BlobId) (rejections : ℕ) (w : W)
      → All (IsGood s.hash) items
      → Accepts items w
      → take_items s h items (got, rejections) w
        ≡ done (absorbed items w) (ok (gained items got, rejections))
  unfolding take_items store_blob pure ◌>>◌ ◌>>=◌ bind
  take_items_good [] got rejections w g a = refl
  take_items_good (i ∷ items) got rejections w g a =
      rw ((bytes_eq_iff (s.hash i.bytes) i.id).1 g.0.hashes, take_items, a.0, bind)
        (take_items_good items (add i.id got) rejections (s.put_blob h i.kind i.bytes w).0 g.1 a.1)

  module _ {V A B : Type 0} (pl pr : Peer) (F : W → Received → Process W A) (t : Link W A V B) where
    batch_arrives :
        (b : List BatchItem) (n : ℕ) (received : Received) (w : W) (v : V)
        (g : V → Unit {0} → Process V B)
        → length b ≤ max_batch_items
        → total b ≤ batch_flush_bytes + blob_limit
        → All (IsGood s.hash) b
        → Reaches pl pr
            (quiet (bind (after_batch s h b received (read_batches s h n) w) F) (g v tt))
            t
        → Reaches pl pr
            (quiet (bind (read_batches s h (suc n) received w) F) (bind (send_batch b v) g))
            t
    unfolding read_batches expect_frame recv_frame of_type lift ◌>>=◌ bind pure is_known sealed_len
    batch_arrives b n received w v g few small good r =
        let (items, filled) = good-IsBatchItem s.hash b good in
        let size = length-batch_bytes b items in
        let (written, parsed) =
          item_batch_encode-parse b (record { few = few; each = items }) filled
            (omega (arith, size, few, small)) in
        Reaches_same pl pr t refl
          (send_batch_good b v g written
            ∙ send_frame_fits msg_item_batch (batch_bytes b) v g (omega (arith, size, few, small)))
          (to_left pl pr _ (g v tt) _ t refl (rw (parsed, bind) r))

    -- A batch that is not empty is taken in, and the reader waits for the next.
    pub batch_meets :
        (b : List BatchItem) (n : ℕ) (got : List BlobId) (rejections : ℕ) (w : W) (v : V)
        (g : V → Unit {0} → Process V B)
        → 0 < length b
        → length b ≤ max_batch_items
        → total b ≤ batch_flush_bytes + blob_limit
        → All (IsGood s.hash) b
        → Accepts b w
        → Reaches pl pr
            (quiet (bind (read_batches s h n (gained b got, rejections) (absorbed b w)) F) (g v tt))
            t
        → Reaches pl pr
            (quiet
              (bind (read_batches s h (suc n) (got, rejections) w) F)
              (bind (send_batch b v) g))
            t
    unfolding after_batch ◌>>=◌ bind
    batch_meets [] n got rejections w v g some_item few small good acc r =
        absurd (omega (arith, some_item))
    batch_meets (i ∷ b) n got rejections w v g some_item few small good acc r =
        batch_arrives (i ∷ b) n (got, rejections) w v g few small good
          (rw (take_items_good (i ∷ b) got rejections w good acc, bind) r)

    -- The terminator ends the round.
    pub terminator_meets :
        (n : ℕ) (received : Received) (w : W) (v : V) (g : V → Unit {0} → Process V B)
        → Reaches pl pr (quiet (F w received) (g v tt)) t
        → Reaches pl pr
            (quiet (bind (read_batches s h (suc n) received w) F) (bind (send_batch [] v) g))
            t
    unfolding after_batch pure bind
    terminator_meets n received w v g r =
        batch_arrives [] n received w v g (omega arith) (omega arith) tt r

-- What the server's store holds of the items.
module _ {V K : Type 0} (s : Stores V K) (h : K) (v : V) where
  abbrev pub IsHeld : BatchItem → Type 0
  IsHeld i = s.get h i.kind i.id v ≡ some i.bytes

  -- The next item of the loop is held.
  pub serve_loop_held :
      (i : BatchItem) (items : List (BlobKind × BlobId)) (acc : List BatchItem) (size : ℕ)
      → IsHeld i
      → serve_loop s h ((i.kind, i.id) ∷ items) acc size v
        ≡ (if is_full (acc ++ (i ∷ [])) (size + length i.bytes)
              then send_batch (acc ++ (i ∷ [])) >> serve_loop s h items [] 0
              else serve_loop s h items (acc ++ (i ∷ [])) (size + length i.bytes))
            v
  unfolding serve_loop with_blob grown
  serve_loop_held i items acc size e = rw (e, serve_loop, with_blob, grown) refl
