-- ===== src/Proto/Engine/Serve/Loop.antt =====
-- The loop over the items of a request, against the party that reads the batches.
use ferry.Prelude.{
  ℕ, zero, suc, ◌+◌, ◌<◌, ◌≡◌, refl, sym, ap, subst, false, List, [], ◌∷◌, ◌++◌, append_assoc,
  append-nil, map, All, All-append, length, length-append, if_intro, arith,
}
use ferry.Store.Format.{BlobId, BlobKind}
use ferry.Proto.Transfer.{max_batch_items, BatchItem}
use ferry.Proto.Transfer.Laws.Batches.{total}
use ferry.Proto.Session.{Peer, Process, Session, bind, ◌>>=◌, ◌>>◌}
use ferry.Proto.Session.Run.{Link}
use ferry.Proto.Session.Meet.{quiet, Reaches, Reaches_same, bind_assoc}
use ferry.Proto.Engine.Fetch.{Stores, Received, read_batches}
use ferry.Proto.Engine.Serve.{batch_flush_bytes, send_batch, is_full, serve_loop}
use ferry.Proto.Engine.Serve.Batches.{
  IsGood, absorbed, Accepts, Accepts-append, gained, batch_meets, terminator_meets, IsHeld,
  serve_loop_held,
}

-- The kinds and ids of the items, as a request names them.
abbrev pub wanted : List BatchItem → List (BlobKind × BlobId)
wanted items = map (λ i. (i.kind, i.id)) items

gained-append :
    (xs ys : List BatchItem) (got : List BlobId) → gained (xs ++ ys) got ≡ gained ys (gained xs got)
gained-append [] ys got = refl
gained-append (x ∷ xs) ys got = gained-append xs ys _

total-append :
    (xs : List BatchItem) (i : BatchItem) → total (xs ++ (i ∷ [])) ≡ total xs + length i.bytes
total-append [] i = omega arith
total-append (x ∷ xs) i = omega (arith, total-append xs i)

length-snoc : (xs : List BatchItem) (i : BatchItem) → length (xs ++ (i ∷ [])) ≡ suc (length xs)
length-snoc xs i = omega (arith, length-append xs (i ∷ []))

not_full :
    (acc : List BatchItem) (size : ℕ)
    → is_full acc size ≡ false
    → (length acc < max_batch_items) × (size < batch_flush_bytes)
unfolding is_full
not_full acc size h = (ground (arith, h), ground (arith, h))

module _ {W H V K A B : Type 0} (pl pr : Peer) (s : Stores W H) (h : H) (sy : Stores V K) (hy : K)
    (v : V) (F : W → Received → Process W A) (g : V → Unit {0} → Process V B)
    (t : Link W A V B) where
  pub absorbed-append :
      (xs ys : List BatchItem) (w : W)
      → absorbed s h (xs ++ ys) w ≡ absorbed s h ys (absorbed s h xs w)
  absorbed-append [] ys w = refl
  absorbed-append (x ∷ xs) ys w = absorbed-append xs ys _

  -- The reader's store accepts the items; and the reader when it has them, and the server behind its
  -- loop, go on to `t`.
  abbrev pub AllRead : List BatchItem → List BlobId → ℕ → W → Type 0
  AllRead items got rejections w =
      Accepts s h items w
      × Reaches pl pr (quiet (F (absorbed s h items w) (gained items got, rejections)) (g v tt)) t

  rest_read :
      (xs ys : List BatchItem) (got : List BlobId) (rejections : ℕ) (w : W)
      → AllRead (xs ++ ys) got rejections w
      → AllRead ys (gained xs got) rejections (absorbed s h xs w)
  rest_read xs ys got rejections w r = (
    (Accepts-append s h xs ys w r.0).1,
    Reaches_same pl pr t
        (λ i. F (sym (absorbed-append xs ys w) i) (sym (gained-append xs ys got) i, rejections))
        refl r.1,
  )

  -- A server that holds the items serves them all, in batches, and the reader takes them in. Not
  -- more than one batch is sent for an item, one for what is left, and the terminator.
  pub loop_meets :
      (items acc : List BatchItem) (size n : ℕ) (got : List BlobId) (rejections : ℕ) (w : W)
      → All (IsGood s.hash) items
      → All (IsHeld sy hy v) items
      → All (IsGood s.hash) acc
      → total acc ≡ size
      → length acc < max_batch_items
      → size < batch_flush_bytes
      → length items + 1 < n
      → AllRead (acc ++ items) got rejections w
      → Reaches pl pr
          (quiet
            (bind (read_batches s h n (got, rejections) w) F)
            (bind (serve_loop sy hy (wanted items) acc size v) g))
          t
  unfolding serve_loop ◌>>◌ ◌>>=◌
  loop_meets items acc size zero got rejections w gi hi ga e few small fuel r =
      absurd (omega (arith, fuel))
  loop_meets [] [] size (suc n) got rejections w gi hi ga e few small fuel r =
      terminator_meets s h pl pr F t n (got, rejections) w v g r.1
  loop_meets [] (a ∷ acc) size (suc zero) got rejections w gi hi ga e few small fuel r =
      absurd (omega (arith, fuel))
  loop_meets [] (a ∷ acc) size (suc (suc n)) got rejections w gi hi ga e few small fuel r =
      let whole = subst (λ l. AllRead l got rejections w) (append-nil (a ∷ acc)) r in
      Reaches_same pl pr t refl (bind_assoc (send_batch (a ∷ acc) v) (λ v' _. send_batch [] v') g) (
        batch_meets s h pl pr F t (a ∷ acc) (suc n) got rejections w v
          (λ v' _. bind (send_batch [] v') g) (omega arith) (omega (arith, few))
          (omega (arith, e, small)) ga whole.0
          (terminator_meets s h pl pr F t n (gained (a ∷ acc) got, rejections)
            (absorbed s h (a ∷ acc) w) v g whole.1))
  loop_meets (i ∷ items) acc size (suc n) got rejections w gi hi ga e few small fuel r =
      let acc' : List BatchItem = acc ++ (i ∷ []) in
      let size' : ℕ = size + length i.bytes in
      let good : All (IsGood s.hash) acc' = All-append (IsGood s.hash) acc (i ∷ []) ga (gi.0, tt) in
      let e' : total acc' ≡ size' = omega (arith, total-append acc i, e) in
      let r' : AllRead (acc' ++ items) got rejections w =
        subst (λ l. AllRead l got rejections w) (sym (append_assoc acc (i ∷ []) items)) r in
      Reaches_same pl pr t refl
        (ap (λ q. bind q g) (serve_loop_held sy hy v i (wanted items) acc size hi.0))
        (if_intro {A = Session V (Unit {0})}
          (λ q.
            Reaches pl pr
              (quiet (bind (read_batches s h (suc n) (got, rejections) w) F) (bind (q v) g)) t)
          (is_full acc' size')
          (λ full.
            Reaches_same pl pr t refl
              (bind_assoc (send_batch acc' v) (λ v' _. serve_loop sy hy (wanted items) [] 0 v') g)
              (batch_meets s h pl pr F t acc' n got rejections w v
                (λ v' _. bind (serve_loop sy hy (wanted items) [] 0 v') g)
                (omega (arith, length-snoc acc i)) (omega (arith, length-snoc acc i, few))
                (omega (arith, e', small, gi.0.small)) good (Accepts-append s h acc' items w r'.0).0
                (loop_meets items [] 0 n (gained acc' got) rejections (absorbed s h acc' w) gi.1
                  hi.1 tt refl (omega arith) (omega arith) (omega (arith, fuel))
                  (rest_read acc' items got rejections w r'))))
          (λ room.
            loop_meets items acc' size' (suc n) got rejections w gi.1 hi.1 good e'
              (not_full acc' size' room).0 (not_full acc' size' room).1 (omega (arith, fuel)) r'))
