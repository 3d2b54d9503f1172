-- ===== src/Proto/Engine/Serve/Group.antt =====
-- One request of a fetch, against a server that holds what is asked for.
use ferry.Prelude.{
  ℕ, suc, ◌≤◌, ◌<◌, ◌≡◌, refl, sym, ap, ◌∙◌, List, [], ◌∷◌, map, length-map, Option, Bytes, All,
  length, ok, arith,
}
use ferry.Store.Format.{BlobId, BlobKind}
use ferry.Proto.Wire.{IsArray}
use ferry.Proto.Transfer.{
  max_request_items, RequestItems, IsRequestItems, request_items_encode, BatchItem,
}
use ferry.Proto.Transfer.Laws.Requests.{
  request_items_bytes, request_items_encode-parse, length-request_items_bytes,
}
use ferry.Proto.Session.{
  Peer, Process, done, bind, Session, ◌>>=◌, ◌>>◌, pure, lift, send_frame, recv_frame, is_known,
  msg_request_items, sealed_len,
}
use ferry.Proto.Session.Run.{Link}
use ferry.Proto.Session.Meet.{quiet, Reaches, to_right, Reaches_same, send_frame_fits, bind_assoc}
use ferry.Proto.Engine.{FolderState, budget}
use ferry.Proto.Engine.Fetch.{
  Stores, Received, extend, request_payload, read_item_batches, request_groups,
}
use ferry.Proto.Engine.Serve.{
  find_store, serve_loop, serve_items, serve_request, serve_frame, serve_stage,
}
use ferry.Proto.Engine.Serve.Batches.{IsGood, absorbed, Accepts, gained, IsHeld}
use ferry.Proto.Engine.Serve.Loop.{wanted, loop_meets}

-- The ids of the items.
abbrev pub ids_of : List BatchItem → List BlobId
ids_of items = map (λ i. i.id) items

-- A request for the ids names the items, when they have the kind that is asked for.
asked :
    (kind : BlobKind) (items : List BatchItem)
    → All (λ i. i.kind ≡ kind) items
    → map (λ id. (kind, id)) (ids_of items) ≡ wanted items
asked kind [] k = refl
asked kind (i ∷ items) k = λ n. (sym k.0 n, i.id) ∷ asked kind items k.1 n

payload_asked :
    (folder_id : Bytes) (kind : BlobKind) (items : List BatchItem)
    → All (λ i. i.kind ≡ kind) items
    → request_payload folder_id kind (ids_of items)
      ≡ request_items_encode (record { folder_id = folder_id; items = wanted items })
unfolding request_payload
payload_asked folder_id kind items k =
    ap (λ l. request_items_encode (record { folder_id = folder_id; items = l }))
      (asked kind items k)

wanted_ids :
    (hash : Bytes → BlobId) (items : List BatchItem)
    → All (IsGood hash) items
    → All (λ i. IsArray 32 i.1) (wanted items)
wanted_ids hash [] g = tt
wanted_ids hash (i ∷ items) g = (g.0.id_array, wanted_ids hash items g.1)

-- What a fetch does with one group.
group_bind :
    {W H A : Type 0} (s : Stores W H) (h : H) (folder_id : Bytes) (kind : BlobKind)
    (group : List BlobId) (groups : List (List BlobId)) (got : List BlobId) (rejections : ℕ) (w : W)
    (F : W → Received → Process W A) {payload : Bytes}
    → request_payload folder_id kind group ≡ ok payload
    → bind (request_groups s h folder_id kind (group ∷ groups) (got, rejections) w) F
      ≡ bind (send_frame msg_request_items payload w) (λ w' _.
        bind
          (read_item_batches s h rejections w')
          (λ w'' x. bind (request_groups s h folder_id kind groups (extend x.0 got, x.1) w'') F))
unfolding request_groups lift ◌>>=◌ ◌>>◌ bind
group_bind {W} s h folder_id kind group groups got rejections w F {payload} e =
    ap (λ o. bind (bind (done w o) (λ w' p. asking p w')) F) e
    ∙ bind_assoc (send_frame msg_request_items payload w) (λ w' _. bind (reads w') goes_on) F
    ∙ ap (bind (send_frame msg_request_items payload w))
        (λ i w' _. bind_assoc (reads w') goes_on F i)
  where
    reads : W → Process W Received
    reads = read_item_batches s h rejections

    goes_on : W → Received → Process W Received
    goes_on w'' x = request_groups s h folder_id kind groups (extend x.0 got, x.1) w''

    asking : Bytes → Session W Received
    asking p w' = bind (send_frame msg_request_items p w') (λ w'' _. bind (reads w'') goes_on)

module _ {V K : Type 0} (sy : Stores V K) (read_pack : K → BlobId → V → Option Bytes)
    (folders : List (FolderState K)) (hy : K) (v : V) (r : RequestItems) where
  served :
      find_store folders r.folder_id ≡ ok hy
      → serve_items sy read_pack folders r v ≡ serve_loop sy hy r.items [] 0 v
  unfolding serve_items lift ◌>>=◌ bind
  served known = rw (known, bind) refl

  not_the_end :
      (next : Session V (Unit {0}))
      → 0 < length r.items
      → serve_request sy read_pack folders r next v ≡ (serve_items sy read_pack folders r >> next) v
  unfolding serve_request
  not_the_end next some_item = on r.items refl some_item
    where
      on :
          (items : List (BlobKind × BlobId))
          → r.items ≡ items
          → 0 < length items
          → serve_request sy read_pack folders r next v
            ≡ (serve_items sy read_pack folders r >> next) v
      on [] e h = absurd (omega (arith, h))
      on (i ∷ items) e h = ap (λ l. branch l v) e
        where
          branch : List (BlobKind × BlobId) → Session V (Unit {0})
          branch l = elim l [ [] ↦ pure tt | _ ∷ _ ↦ serve_items sy read_pack folders r >> next ]

  -- A request that is not empty is served, and the stage goes on.
  bind-serve_request :
      {B : Type 0} (next : Session V (Unit {0})) (G : V → Unit {0} → Process V B)
      → 0 < length r.items
      → find_store folders r.folder_id ≡ ok hy
      → bind (serve_request sy read_pack folders r next v) G
        ≡ bind (serve_loop sy hy r.items [] 0 v) (λ v' _. bind (next v') G)
  unfolding ◌>>=◌ ◌>>◌
  bind-serve_request next G some_item known =
      ap (λ q. bind q G) (not_the_end next some_item)
      ∙ bind_assoc (serve_items sy read_pack folders r v) (λ v' _. next v') G
      ∙ ap (λ q. bind q (λ v' _. bind (next v') G)) (served known)

module _ {W H V K A B : Type 0} (pl pr : Peer) (s : Stores W H) (h : H) (sy : Stores V K)
    (read_pack : K → BlobId → V → Option Bytes) (folders : List (FolderState K)) (hy : K) (v : V)
    (folder_id : Bytes) (F : W → Received → Process W A) (G : V → Unit {0} → Process V B)
    (t : Link W A V B) where
  -- The frame of the request arrives, and the server runs its loop over the items.
  request_arrives :
      (r : RequestItems) (n : ℕ) (w : W) (f : W → Unit {0} → Process W A)
      → IsRequestItems r
      → 0 < length r.items
      → find_store folders r.folder_id ≡ ok hy
      → Reaches pl pr
          (quiet (f w tt) (
            bind
              (serve_loop sy hy r.items [] 0 v)
              (λ v' _. bind (serve_stage sy read_pack folders n v') G)))
          t
      → Reaches pl pr
          (quiet
            (bind (send_frame msg_request_items (request_items_bytes r) w) f)
            (bind (serve_stage sy read_pack folders (suc n) v) G))
          t
  unfolding serve_stage serve_frame recv_frame lift ◌>>=◌ bind is_known sealed_len
  request_arrives r n w f ok_r some_item known reach =
      let (written, parsed) = request_items_encode-parse r ok_r in
      Reaches_same pl pr t
        (send_frame_fits msg_request_items (request_items_bytes r) w f
          (omega (arith, length-request_items_bytes r ok_r, ok_r.few)))
        refl
        (to_right pl pr _ (f w tt) _ t refl (
          rw (parsed, bind)
            (Reaches_same pl pr t refl
              (bind-serve_request sy read_pack folders hy v r (serve_stage sy read_pack folders n) G
                some_item known)
              reach)))

  -- The parts of a fetch that do not change: the folder is served from `hy`, and the reader's ids fit.
  pub group_meets :
      (kind : BlobKind) (items : List BatchItem) (groups : List (List BlobId)) (n : ℕ)
      (got : List BlobId) (rejections : ℕ) (w : W)
      → 0 < length items
      → length items ≤ max_request_items
      → All (λ i. i.kind ≡ kind) items
      → All (IsGood s.hash) items
      → All (IsHeld sy hy v) items
      → IsArray 16 folder_id
      → find_store folders folder_id ≡ ok hy
      → Accepts s h items w
      → Reaches pl pr
          (quiet
            (bind
              (request_groups s h folder_id kind groups
                (extend (gained items []) got, rejections)
                (absorbed s h items w))
              F)
            (bind (serve_stage sy read_pack folders n v) G))
          t
      → Reaches pl pr
          (quiet
            (bind (request_groups s h folder_id kind (ids_of items ∷ groups) (got, rejections) w) F)
            (bind (serve_stage sy read_pack folders (suc n) v) G))
          t
  unfolding read_item_batches
  group_meets kind items groups n got rejections w some_item few kinds good held id_array known
        accepts reach =
      let r : RequestItems = record { folder_id = folder_id; items = wanted items } in
      let same : length (wanted items) ≡ length items = length-map _ items in
      let ok_r : IsRequestItems r = record {
        folder_id_array = id_array;
        few = omega (arith, few, same);
        ids = wanted_ids s.hash items good;
      } in
      let written : request_payload folder_id kind (ids_of items) ≡ ok (request_items_bytes r) =
        payload_asked folder_id kind items kinds ∙ (request_items_encode-parse r ok_r).0 in
      let onward : W → Received → Process W A =
        λ w' x. bind (request_groups s h folder_id kind groups (extend x.0 got, x.1) w') F in
      Reaches_same pl pr t
        (group_bind s h folder_id kind (ids_of items) groups got rejections w F written) refl
        (request_arrives r n w (λ w' _. bind (read_item_batches s h rejections w') onward) ok_r
          (omega (arith, some_item, same)) known
          (loop_meets pl pr s h sy hy v onward
            (λ v' _. bind (serve_stage sy read_pack folders n v') G) t items [] 0 budget []
            rejections w good held tt refl (omega arith) (omega arith) (omega (arith, few))
            (accepts, reach)))
