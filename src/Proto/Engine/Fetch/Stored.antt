-- ===== src/Proto/Engine/Fetch/Stored.antt =====
-- What a fetch gives to `put_blob`, whatever the peer sends.
use ferry.Prelude.{
  ℕ, zero, suc, ◌≡◌, inr, refl, subst, not, List, [], ◌∷◌, Bytes, All, bytes_eq, bytes_eq_iff,
  if_intro, Result, ok, err, arith,
}
use ferry.Prelude.Maps.{add}
use ferry.Prelude.Chunks.{chunks}
use ferry.Store.Format.{BlobId, BlobKind}
use ferry.Store.Reader.{run}
use ferry.Proto.Error.{ProtoError}
use ferry.Proto.Transfer.{max_request_items, BatchItem, item_batch_parse}
use ferry.Proto.Session.{
  Session, done, bind, ◌>>=◌, ◌>>◌, pure, fail, lift, send_frame, expect_frame, msg_request_items,
}
use ferry.Proto.Session.Always.{
  Always, Always-bind, Always-weaken, Same, lift-Same, send_frame-Same, expect_frame-Same,
}
use ferry.Proto.Engine.{budget}
use ferry.Proto.Engine.Fetch.Calls.{
  Puts, Grows, Grows-here, Grows-trans, IsStored, IsStored-Grows, Fails, Fails-here, Fails-after,
}
use ferry.Proto.Engine.Fetch.Sets.{All-add, All-extend, All_mono, All-still_missing}
use ferry.Proto.Engine.Fetch.{
  Stores, Received, extend, store_blob, take_items, after_batch, read_batches, read_item_batches,
  request_payload, request_groups, still_missing, fetch_rounds, fetch_blobs,
}

module _ {W H : Type 0} (s : Stores W H) (h : H) (w0 : W) where
  abbrev Fetched : W → W → Result ProtoError Received → Type 0
  Fetched w w' (ok received) = Grows s h w w' × All (IsStored s h w0 w') received.0
  Fetched w w' (err e) = Fails s h w w'

  Fetched-after :
      (w w1 w2 : W) (r : Result ProtoError Received)
      → Grows s h w w1
      → Fetched w1 w2 r
      → Fetched w w2 r
  Fetched-after w w1 w2 (ok a) g f = (Grows-trans s h w w1 w2 g f.0, f.1)
  Fetched-after w w1 w2 (err e) g f = Fails-after s h w w1 w2 g f

  -- What was stored stays so when more is put.
  IsStored-on :
      (w w' : W) (ids : List BlobId)
      → Grows s h w w'
      → All (IsStored s h w0 w) ids
      → All (IsStored s h w0 w') ids
  IsStored-on w w' ids g a =
      All_mono (IsStored s h w0 w) (IsStored s h w0 w') ids
        (λ id q. IsStored-Grows s h w0 w w' id g q) a

  take_items-Fetched :
      (items : List BatchItem) (received : Received) (w : W)
      → Grows s h w0 w
      → All (IsStored s h w0 w) received.0
      → Always (Fetched w) (take_items s h items received w)
  unfolding take_items store_blob pure ◌>>◌ ◌>>=◌ bind
  take_items-Fetched [] (got, rejections) w g a = (Grows-here s h w, a)
  take_items-Fetched (i ∷ items) (got, rejections) w g a =
      if_intro {A = Session W Received} (λ t. Always (Fetched w) (t w))
        (not (bytes_eq (s.hash i.bytes) i.id))
        (λ _. take_items-Fetched items (got, suc rejections) w g a)
        (λ same.
          stored (λ w' g' c. take_items-Fetched items (add i.id got, rejections) w' g' c)
            (s.put_blob h i.kind i.bytes w).0 (s.put_blob h i.kind i.bytes w).1 refl
            ((bytes_eq_iff (s.hash i.bytes) i.id).0 (ground (arith, same))))
    where
      stored :
          ((w' : W)
            → Grows s h w0 w'
            → All (IsStored s h w0 w') (add i.id got)
            → Always (Fetched w') (take_items s h items (add i.id got, rejections) w'))
          → (w' : W) (o : Result ProtoError (Unit {0})) → s.put_blob h i.kind i.bytes w ≡ (w', o)
          → s.hash i.bytes ≡ i.id
          → Always
              (Fetched w)
              (bind (done w' o) (λ w2 _. take_items s h items (add i.id got, rejections) w2))
      stored next w' (err e) p n = (w, Grows-here s h w, inr (i.kind, i.bytes, e, p))
      stored next w' (ok tt) p n =
          let one : Puts s h (i.id ∷ []) w w' = (i.kind, i.bytes, w', p, n, refl) in
          let grows : Grows s h w w' = (i.id ∷ [], one) in
          Always-weaken (Fetched w') (Fetched w)
            (take_items s h items (add i.id got, rejections) w')
            (next w' (Grows-trans s h w0 w w' g grows) (
              All-add (IsStored s h w0 w') i.id got (w, w', g, one, Grows-here s h w')
                (IsStored-on w w' got grows a)))
            (λ w2 r f. Fetched-after w w' w2 r grows f)

  -- A step that leaves the stores alone, and what follows it.
  step-Fetched :
      {A : Type 0} (w : W) (p : Session W A) (f : A → Session W Received)
      → Always (Same w) (p w)
      → ((a : A) → Always (Fetched w) (f a w))
      → Always (Fetched w) ((p >>= f) w)
  unfolding ◌>>=◌
  step-Fetched w p f still k =
      Always-bind (Same w) (Fetched w) (p w) (λ w' a. f a w') still
        (λ w' a e. subst (λ x. Always (Fetched w) (f a x)) e (k a))
        (λ w' x e. subst (Fails s h w) e (Fails-here s h w))

  then-Fetched :
      (w : W) (p : Session W (Unit {0})) (t : Session W Received)
      → Always (Same w) (p w)
      → Always (Fetched w) (t w)
      → Always (Fetched w) ((p >> t) w)
  unfolding ◌>>◌
  then-Fetched w p t still k = step-Fetched w p (λ _. t) still (λ _. k)

  -- A step that fetches, and one that goes on from what it got.
  more-Fetched :
      (w : W) (p : Session W Received) (f : Received → Session W Received)
      → Always (Fetched w) (p w)
      → ((w' : W) (r : Received) → Fetched w w' (ok r) → Always (Fetched w') (f r w'))
      → Always (Fetched w) ((p >>= f) w)
  unfolding ◌>>=◌
  more-Fetched w p f first k =
      Always-bind (Fetched w) (Fetched w) (p w) (λ w' r. f r w') first
        (λ w' r g.
          Always-weaken (Fetched w') (Fetched w) (f r w') (k w' r g)
            (λ w2 q j. Fetched-after w w' w2 q g.0 j))
        (λ w' e g. g)

  after_batch-Fetched :
      (batch : List BatchItem) (received : Received) (w : W) (next : Received → Session W Received)
      → Grows s h w0 w
      → All (IsStored s h w0 w) received.0
      → ((r : Received) (w' : W)
          → Grows s h w0 w'
          → All (IsStored s h w0 w') r.0
          → Always (Fetched w') (next r w'))
      → Always (Fetched w) (after_batch s h batch received next w)
  unfolding after_batch pure
  after_batch-Fetched [] received w next g a k = (Grows-here s h w, a)
  after_batch-Fetched (i ∷ items) received w next g a k =
      more-Fetched w (take_items s h (i ∷ items) received) next
        (take_items-Fetched (i ∷ items) received w g a)
        (λ w' r f. k r w' (Grows-trans s h w0 w w' g f.0) f.1)

  read_batches-Fetched :
      (n : ℕ) (received : Received) (w : W)
      → Grows s h w0 w
      → All (IsStored s h w0 w) received.0
      → Always (Fetched w) (read_batches s h n received w)
  unfolding read_batches fail
  read_batches-Fetched zero received w g a = Fails-here s h w
  read_batches-Fetched (suc n) received w g a =
      step-Fetched w (expect_frame _) _ (expect_frame-Same _ w) (λ payload.
        step-Fetched w (lift (run item_batch_parse payload)) _
          (lift-Same (run item_batch_parse payload) w)
          (λ batch.
            after_batch-Fetched batch received w (read_batches s h n) g a
              (λ r w' g' c. read_batches-Fetched n r w' g' c)))

  request_groups-Fetched :
      (folder_id : Bytes) (kind : BlobKind) (groups : List (List BlobId)) (received : Received)
      (w : W)
      → Grows s h w0 w
      → All (IsStored s h w0 w) received.0
      → Always (Fetched w) (request_groups s h folder_id kind groups received w)
  unfolding request_groups read_item_batches pure
  request_groups-Fetched folder_id kind [] received w g a = (Grows-here s h w, a)
  request_groups-Fetched folder_id kind (group ∷ groups) (got, rejections) w g a =
      step-Fetched w (lift (request_payload folder_id kind group)) _
        (lift-Same (request_payload folder_id kind group) w)
        (λ payload.
          then-Fetched w (send_frame msg_request_items payload)
            (read_item_batches s h rejections >>= λ r.
              request_groups s h folder_id kind groups (extend r.0 got, r.1))
            (send_frame-Same msg_request_items payload w)
            (more-Fetched w (read_batches s h budget ([], rejections))
              (λ r. request_groups s h folder_id kind groups (extend r.0 got, r.1))
              (read_batches-Fetched budget ([], rejections) w g tt)
              (λ w' r f.
                request_groups-Fetched folder_id kind groups (extend r.0 got, r.1) w'
                  (Grows-trans s h w0 w w' g f.0)
                  (All-extend (IsStored s h w0 w') r.0 got f.1 (IsStored-on w w' got f.0 a)))))

  -- What a fetch of `want` from the state `w` comes to.
  abbrev pub Satisfied : List BlobId → W → W → Result ProtoError ℕ → Type 0
  Satisfied want w w' (ok rejections) = Grows s h w w' × All (IsStored s h w0 w') want
  Satisfied want w w' (err e) = Fails s h w w'

  fetch_rounds-Satisfied :
      (n : ℕ) (folder_id : Bytes) (kind : BlobKind) (want : List BlobId) (rejections : ℕ) (w : W)
      → Grows s h w0 w
      → Always (Satisfied want w) (fetch_rounds s h n folder_id kind want rejections w)
  unfolding fetch_rounds pure fail ◌>>=◌
  fetch_rounds-Satisfied zero folder_id kind [] rejections w g = (Grows-here s h w, tt)
  fetch_rounds-Satisfied (suc n) folder_id kind [] rejections w g = (Grows-here s h w, tt)
  fetch_rounds-Satisfied zero folder_id kind (i ∷ ids) rejections w g = Fails-here s h w
  fetch_rounds-Satisfied (suc n) folder_id kind (i ∷ ids) rejections w g =
      Always-bind (Fetched w) (Satisfied (i ∷ ids) w)
        (request_groups s h folder_id kind (chunks max_request_items (i ∷ ids)) ([], rejections) w)
        _
        (request_groups-Fetched folder_id kind (chunks max_request_items (i ∷ ids)) ([], rejections)
          w g tt)
        (λ w' r f.
          Always-weaken (Satisfied (still_missing r.0 (i ∷ ids)) w') (Satisfied (i ∷ ids) w)
            (fetch_rounds s h n folder_id kind (still_missing r.0 (i ∷ ids)) r.1 w')
            (fetch_rounds-Satisfied n folder_id kind (still_missing r.0 (i ∷ ids)) r.1 w'
              (Grows-trans s h w0 w w' g f.0))
            (λ w2 q k. onward w' w2 r q f k))
        (λ w' e f. f)
    where
      onward :
          (w' w2 : W) (r : Received) (q : Result ProtoError ℕ)
          → Fetched w w' (ok r)
          → Satisfied (still_missing r.0 (i ∷ ids)) w' w2 q
          → Satisfied (i ∷ ids) w w2 q
      onward w' w2 r (ok c) f k = (
        Grows-trans s h w w' w2 f.0 k.0,
        All-still_missing (IsStored s h w0 w2) r.0 (i ∷ ids) (IsStored-on w' w2 r.0 k.0 f.1) k.1,
      )
      onward w' w2 r (err e) f k = Fails-after s h w w' w2 f.0 k

-- Whatever frames the peer sends, `fetch_blobs` ends with a result. If that is not an error, accepted
-- calls of `put_blob`, and nothing else, lead from the store at the start to the store at the end; and
-- for each id that was wanted they do so with a call among them whose bytes have that id as their hash.
-- Their kind is the one that the peer sent, which need not be the one that was asked for. If it is an
-- error, accepted calls of `put_blob` lead to the store at the end, or to one from which a last call, that
-- fails, leads there.
pub fetch_blobs-Satisfied :
    {W H : Type 0} (s : Stores W H) (h : H) (folder_id : Bytes) (kind : BlobKind)
    (want : List BlobId) (retries rejections : ℕ) (w : W)
    → Always (Satisfied s h w want w) (fetch_blobs s h folder_id kind want retries rejections w)
unfolding fetch_blobs
fetch_blobs-Satisfied s h folder_id kind want retries rejections w =
    fetch_rounds-Satisfied s h w (suc retries) folder_id kind want rejections w (Grows-here s h w)
