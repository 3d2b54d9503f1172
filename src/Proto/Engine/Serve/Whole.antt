-- ===== src/Proto/Engine/Serve/Whole.antt =====
-- A whole fetch against a server that holds what is asked for: it ends, and everything is stored.
use ferry.Prelude.{
  ℕ, zero, suc, ◌+◌, ◌<◌, ◌≡◌, refl, sym, ap, subst, ◌∙◌, Bool, true, false, not, ◌||◌, List, [],
  ◌∷◌, ◌++◌, map, Option, Bytes, All, All-of_append, bytes_eq_refl, length, Result, ok, arith,
}
use ferry.Prelude.Maps.{member, add, member-add}
use ferry.Prelude.Chunks.{chunks, concat, concat-chunks, IsPiece, chunks-IsPiece, chunks-map}
use ferry.Store.Format.{BlobId, BlobKind}
use ferry.Proto.Error.{ProtoError}
use ferry.Proto.Wire.{IsArray}
use ferry.Proto.Transfer.{max_request_items, BatchItem}
use ferry.Proto.Session.{Peer, Process, done, bind, ◌>>=◌, pure, recv_frame}
use ferry.Proto.Session.Run.{Link, IsFinal, advance}
use ferry.Proto.Session.Meet.{
  quiet, Reaches, Reaches-here, Reaches_same, AlwaysEnds, Reaches-AlwaysEnds, bind_done,
}
use ferry.Proto.Engine.{FolderState}
use ferry.Proto.Engine.Fetch.{
  Stores, Received, extend, request_groups, still_missing, fetch_rounds, fetch_blobs,
}
use ferry.Proto.Engine.Serve.{find_store, serve_stage}
use ferry.Proto.Engine.Serve.Batches.{IsGood, absorbed, Accepts, Accepts-append, gained, IsHeld}
use ferry.Proto.Engine.Serve.Loop.{absorbed-append}
use ferry.Proto.Engine.Serve.Group.{ids_of, group_meets}

member-gained :
    (id : BlobId) (items : List BatchItem) (got : List BlobId)
    → member id (gained items got) ≡ member id (ids_of items) || member id got
unfolding member
member-gained id [] got = refl
member-gained id (i ∷ items) got =
    ground (arith, member-gained id items (add i.id got), member-add id i.id got)

member-extend :
    (id : BlobId) (more got : List BlobId)
    → member id (extend more got) ≡ member id more || member id got
unfolding extend member
member-extend id [] got = refl
member-extend id (j ∷ more) got =
    ground (arith, member-extend id more got, member-add id j (extend more got))

-- What is got when the groups are fetched one after the other.
abbrev collected : List (List BatchItem) → List BlobId → List BlobId
collected [] got = got
collected (g ∷ gs) got = collected gs (extend (gained g []) got)

ids_of-append :
    (id : BlobId) (xs ys : List BatchItem)
    → member id (ids_of (xs ++ ys)) ≡ member id (ids_of xs) || member id (ids_of ys)
unfolding member
ids_of-append id [] ys = refl
ids_of-append id (x ∷ xs) ys = ground (arith, ids_of-append id xs ys)

member-collected :
    (id : BlobId) (gs : List (List BatchItem)) (got : List BlobId)
    → member id (collected gs got) ≡ member id (ids_of (concat gs)) || member id got
unfolding member
member-collected id [] got = refl
member-collected id (g ∷ gs) got = ground (
  arith,
  member-collected id gs (extend (gained g []) got),
  member-extend id (gained g []) got,
  member-gained id g [],
  ids_of-append id g (concat gs),
)

-- Nothing is missing of what was got.
none_missing :
    (got ids : List BlobId)
    → ((id : BlobId) → member id ids ≡ true → member id got ≡ true)
    → still_missing got ids ≡ []
unfolding still_missing member
none_missing got [] h = refl
none_missing got (id ∷ ids) h =
    ap kept (h id (ground (arith, bytes_eq_refl id)))
    ∙ none_missing got ids (λ j e. h j (ground (arith, e)))
  where
    kept : Bool → List BlobId
    kept b = elim (not b) [ true ↦ id ∷ still_missing got ids | false ↦ still_missing got ids ]

-- What is served: blobs of the kind that is asked for, as the server's store has them.
pub record IsServed {V K : Type 0} (hash : Bytes → BlobId) (sy : Stores V K) (hy : K) (v : V)
    (kind : BlobKind) (items : List BatchItem) : Type 0 where
  pub kinds : All (λ i. i.kind ≡ kind) items
  pub good : All (IsGood hash) items
  pub held : All (IsHeld sy hy v) items

pieces-IsServed :
    {V K : Type 0} (hash : Bytes → BlobId) (sy : Stores V K) (hy : K) (v : V) (kind : BlobKind)
    (gs : List (List BatchItem))
    → IsServed hash sy hy v kind (concat gs)
    → All (IsServed hash sy hy v kind) gs
pieces-IsServed hash sy hy v kind [] k = tt
pieces-IsServed hash sy hy v kind (g ∷ gs) k =
    let kinds = All-of_append (λ i. i.kind ≡ kind) g (concat gs) k.kinds in
    let good = All-of_append (IsGood hash) g (concat gs) k.good in
    let held = All-of_append (IsHeld sy hy v) g (concat gs) k.held in
    (
      record { kinds = kinds.0; good = good.0; held = held.0 },
      pieces-IsServed hash sy hy v kind gs
          (record { kinds = kinds.1; good = good.1; held = held.1 }),
    )

with_fuel :
    {V K B : Type 0} (sy : Stores V K) (read_pack : K → BlobId → V → Option Bytes)
    (folders : List (FolderState K)) (v : V) (G : V → Unit {0} → Process V B) {m n : ℕ}
    → m ≡ n
    → bind (serve_stage sy read_pack folders m v) G ≡ bind (serve_stage sy read_pack folders n v) G
with_fuel sy read_pack folders v G e = ap (λ k. bind (serve_stage sy read_pack folders k v) G) e

module _ {W H V K A B : Type 0} (pl pr : Peer) (s : Stores W H) (h : H) (sy : Stores V K)
    (read_pack : K → BlobId → V → Option Bytes) (folders : List (FolderState K)) (hy : K) (v : V)
    (folder_id : Bytes) (kind : BlobKind) where
  -- All the requests of a round, one after the other.
  groups_meet :
      (F : W → Received → Process W A) (G : V → Unit {0} → Process V B) (t : Link W A V B)
      (gs : List (List BatchItem)) (n : ℕ) (got : List BlobId) (rejections : ℕ) (w : W)
      → IsArray 16 folder_id
      → find_store folders folder_id ≡ ok hy
      → All (IsPiece max_request_items) gs
      → All (IsServed s.hash sy hy v kind) gs
      → Accepts s h (concat gs) w
      → Reaches pl pr
          (quiet
            (F (absorbed s h (concat gs) w) (collected gs got, rejections))
            (bind (serve_stage sy read_pack folders n v) G))
          t
      → Reaches pl pr
          (quiet
            (bind (request_groups s h folder_id kind (map ids_of gs) (got, rejections) w) F)
            (bind (serve_stage sy read_pack folders (length gs + n) v) G))
          t
  unfolding request_groups pure bind
  groups_meet F G t [] n got rejections w id_array known pieces all accepts r =
      Reaches_same pl pr t refl (with_fuel sy read_pack folders v G (omega arith)) r
  groups_meet F G t (g ∷ gs) n got rejections w id_array known pieces all accepts r =
      let (here, onward) = Accepts-append s h g (concat gs) w accepts in
      Reaches_same pl pr t refl (with_fuel sy read_pack folders v G (omega arith)) (
        group_meets pl pr s h sy read_pack folders hy v folder_id F G t kind g (map ids_of gs)
          (length gs + n) got rejections w pieces.0.0 pieces.0.1 all.0.kinds all.0.good all.0.held
          id_array known here
          (groups_meet F G t gs n (extend (gained g []) got) rejections (absorbed s h g w) id_array
            known pieces.1 all.1 onward
            (Reaches_same pl pr t
              (λ i.
                F (sym (absorbed-append pl pr s h sy hy v F G t g (concat gs) w) i)
                  (collected (g ∷ gs) got, rejections))
              refl r)))

fetch_nothing :
    {W H : Type 0} (s : Stores W H) (h : H) (n : ℕ) (folder_id : Bytes) (kind : BlobKind)
    (rejections : ℕ) (w : W)
    → fetch_rounds s h n folder_id kind [] rejections w ≡ done w (ok rejections)
unfolding fetch_rounds pure
fetch_nothing s h zero folder_id kind rejections w = refl
fetch_nothing s h (suc n) folder_id kind rejections w = refl

module _ {W H V K : Type 0} (pl pr : Peer) (s : Stores W H) (h : H) (sy : Stores V K)
    (read_pack : K → BlobId → V → Option Bytes) (folders : List (FolderState K)) (hy : K) (v : V)
    (folder_id : Bytes) (kind : BlobKind) where
  -- The fetch, once everything that was asked for was got.
  all_got :
      (items : List BatchItem) (n rejections : ℕ) (w : W)
      → fetch_rounds s h n folder_id kind
          (still_missing (collected (chunks max_request_items items) []) (ids_of items))
          rejections
          (absorbed s h (concat (chunks max_request_items items)) w)
        ≡ done (absorbed s h items w) (ok rejections)
  unfolding member
  all_got items n rejections w =
      let gs = chunks max_request_items items in
      let whole : concat gs ≡ items = concat-chunks max_request_items items (omega arith) in
      let got : (id : BlobId)
          → member id (ids_of items) ≡ true
          → member id (collected gs []) ≡ true =
        λ id e.
          member-collected id gs []
          ∙ ap (λ b. b || false) (ap (λ l. member id (ids_of l)) whole ∙ e) in
      (λ i.
        fetch_rounds s h n folder_id kind (none_missing (collected gs []) (ids_of items) got i)
          rejections (absorbed s h (whole i) w))
      ∙ fetch_nothing s h n folder_id kind rejections (absorbed s h items w)

  one_round :
      (items : List BatchItem) (retries rejections m : ℕ) (w : W)
      → 0 < length items
      → IsServed s.hash sy hy v kind items
      → IsArray 16 folder_id
      → find_store folders folder_id ≡ ok hy
      → Accepts s h items w
      → Reaches pl pr
          (quiet
            (fetch_blobs s h folder_id kind (ids_of items) retries rejections w)
            (serve_stage sy read_pack folders (length (chunks max_request_items items) + m) v))
          (quiet
            (done (absorbed s h items w) (ok rejections))
            (serve_stage sy read_pack folders m v))
  unfolding fetch_blobs fetch_rounds ◌>>=◌
  one_round [] retries rejections m w some_item k id_array known accepts =
      absurd (omega (arith, some_item))
  one_round (i ∷ is) retries rejections m w some_item k id_array known accepts =
      let items = i ∷ is in
      let gs = chunks max_request_items items in
      let end =
        quiet (done (absorbed s h items w) (ok rejections))
          (serve_stage sy read_pack folders m v) in
      let F : W → Received → Process W ℕ =
        λ w' r. fetch_rounds s h retries folder_id kind (still_missing r.0 (ids_of items)) r.1 w' in
      let whole = sym (concat-chunks max_request_items items (omega arith)) in
      let served = subst (IsServed s.hash sy hy v kind) whole k in
      Reaches_same pl pr end
        (ap (λ l. bind (request_groups s h folder_id kind l ([], rejections) w) F)
          (chunks-map (λ j. j.id) max_request_items items))
        (sym (bind_done (serve_stage sy read_pack folders (length gs + m) v)))
        (groups_meet pl pr s h sy read_pack folders hy v folder_id kind F (λ v' a. done v' (ok a))
          end gs m [] rejections w id_array known
          (chunks-IsPiece max_request_items items (omega arith))
          (pieces-IsServed s.hash sy hy v kind gs served)
          (subst (λ l. Accepts s h l w) whole accepts)
          (Reaches_same pl pr end (all_got items retries rejections w)
            (bind_done (serve_stage sy read_pack folders m v)) (Reaches-here pl pr end)))

  waiting :
      (m : ℕ) (w : W) (r : Result ProtoError ℕ)
      → IsFinal pl pr (quiet (done w r) (serve_stage sy read_pack folders (suc m) v))
  unfolding serve_stage recv_frame ◌>>=◌ bind advance
  waiting m w r = (refl, refl)

  -- A fetch of blobs that the server holds, each of the kind that is asked for, of at least one byte
  -- and at most 32 MiB, and with its hash as its id, where the reader's store accepts these blobs one
  -- after the other: it ends with the count of rejections it began with, and the reader's stores are
  -- then what `put_blob` makes of them for each of the blobs in turn, while the server waits for the next
  -- request. It does so in every order of the two parties' steps. The server serves the folder, and it
  -- has fuel for the requests, of which there is one for every 512 blobs, and for the one it waits for.
  pub fetch_blobs-AlwaysEnds :
      (items : List BatchItem) (retries rejections m : ℕ) (w : W)
      → 0 < length items
      → IsServed s.hash sy hy v kind items
      → IsArray 16 folder_id
      → find_store folders folder_id ≡ ok hy
      → Accepts s h items w
      → AlwaysEnds pl pr
          (quiet
            (fetch_blobs s h folder_id kind (ids_of items) retries rejections w)
            (serve_stage sy read_pack folders (length (chunks max_request_items items) + suc m) v))
          (quiet
            (done (absorbed s h items w) (ok rejections))
            (serve_stage sy read_pack folders (suc m) v))
  fetch_blobs-AlwaysEnds items retries rejections m w some_item k id_array known accepts =
      Reaches-AlwaysEnds pl pr _ _ (waiting m (absorbed s h items w) (ok rejections))
        (one_round items retries rejections (suc m) w some_item k id_array known accepts)
