-- ===== src/Proto/Engine/Offers/Turns.antt =====
-- One turn of the exchange: a folder is announced and answered, and each side learns the manifest of
-- the other.
use ferry.Prelude.{ℕ, suc, ◌≡◌, refl, ap, ◌∙◌, Bool, false, Option, some, Bytes, bytes_eq}
use ferry.Store.Format.{BlobId}
use ferry.Proto.Handshake.{FolderOffer}
use ferry.Proto.Session.{Peer, Process, bind, Session, ◌>>=◌, ◌>>◌}
use ferry.Proto.Session.Run.{swap}
use ferry.Proto.Session.Meet.{quiet, Reaches, Reaches-here, Reaches-swap, Reaches_same, bind_assoc}
use ferry.Proto.Engine.{FolderState, folder_sentinel, find_folder}
use ferry.Proto.Engine.Offers.{
  Learned, learn, manifest_or_zero, send_offer, expect_offer, announce, echo, consume_echo, answer,
  listen,
}
use ferry.Proto.Engine.Offers.Talk.{Party, hear, tell_adverts, tell_meets, offer_of, map_of}
use ferry.Proto.Engine.Offers.Parties.{
  IsOffered, IsParty, told, find_folder-Found, store_of, store_of-entries, manifest_or_zero-array,
  told-IsManifestId, with_folder, learn-folders,
}

module _ {W H : Type 0} (s : Party W H) (with_adverts : Bool) where
  abbrev pub announces : FolderState H → Session W (Unit {0})
  announces = announce s.index_entries s.fuel s.folders s.outcomes with_adverts

  abbrev pub echoes : Bytes → Session W (Unit {0})
  echoes = echo s.index_entries s.fuel s.folders s.outcomes with_adverts

  abbrev pub consumes : Learned → Session W Learned
  consumes = consume_echo s.index_entries s.fuel s.folders s.outcomes with_adverts

  abbrev pub answers : FolderOffer → Learned → (Learned → Session W Learned) → Session W Learned
  answers = answer s.index_entries s.fuel s.folders s.outcomes with_adverts

  abbrev pub listens : ℕ → Learned → Session W Learned
  listens = listen s.index_entries s.fuel s.folders s.outcomes with_adverts

module _ {W H C : Type 0} (s : Party W H) (with_adverts : Bool) (w : W) where
  announces-bind :
      (f : FolderState H) (F : W → Unit {0} → Process W C)
      → bind (announces s with_adverts f w) F
        ≡ bind
            (send_offer f.folder_id (manifest_or_zero (told s f.folder_id)) w)
            (λ w' _. bind (tell_adverts s with_adverts (some f.store) w') F)
  unfolding announce ◌>>◌ ◌>>=◌
  announces-bind f F =
      bind_assoc (send_offer f.folder_id (manifest_or_zero (told s f.folder_id)) w)
        (λ w' _. tell_adverts s with_adverts (some f.store) w') F

  echoes-bind :
      (id : Bytes) (F : W → Unit {0} → Process W C)
      → bind (echoes s with_adverts id w) F
        ≡ bind
            (send_offer id (manifest_or_zero (told s id)) w)
            (λ w' _. bind (tell_adverts s with_adverts (store_of (find_folder s.folders id)) w') F)
  unfolding echo ◌>>◌ ◌>>=◌
  echoes-bind id F =
      bind_assoc (send_offer id (manifest_or_zero (told s id)) w)
        (λ w' _. tell_adverts s with_adverts (store_of (find_folder s.folders id)) w') F

  consumes-bind :
      (l : Learned) (F : W → Learned → Process W C)
      → bind (consumes s with_adverts l w) F
        ≡ bind (expect_offer w) (λ w' po. bind (hear s with_adverts po l w') F)
  unfolding consume_echo ◌>>=◌
  consumes-bind l F = bind_assoc (expect_offer w) _ F

  pub listens-bind :
      (n : ℕ) (l : Learned) (F : W → Learned → Process W C)
      → bind (listens s with_adverts (suc n) l w) F
        ≡ bind
            (expect_offer w)
            (λ w' po. bind (answers s with_adverts po l (listens s with_adverts n) w') F)
  unfolding listen ◌>>=◌
  listens-bind n l F = bind_assoc (expect_offer w) _ F

  answers-bind :
      (po : FolderOffer) (l : Learned) (next : Learned → Session W Learned)
      (F : W → Learned → Process W C)
      → bytes_eq po.folder_id folder_sentinel ≡ false
      → bind (answers s with_adverts po l next w) F
        ≡ bind
            (hear s with_adverts po l w)
            (λ w1 l2. bind (echoes s with_adverts po.folder_id w1) (λ w2 _. bind (next l2 w2) F))
  unfolding answer ◌>>=◌ ◌>>◌
  answers-bind po l next F h =
      rw (h, answer)
        (bind_assoc (hear s with_adverts po l w) _ F
          ∙ ap (bind (hear s with_adverts po l w)) (λ i w1 l2.
            bind_assoc (echoes s with_adverts po.folder_id w1) (λ w2 _. next l2 w2) F i))

-- The parties of one turn; `l` and `l'` are what each has learned before it.
module _ {W H V K A B : Type 0} (pl pr : Peer) (x : Party W H) (y : Party V K)
    (with_adverts : Bool) where
  -- Behind its turn the announcer goes on with `F` and the listener with its loop.
  pub turn :
      (f : FolderState H) (n : ℕ) (l l' : Learned) (w : W) (v : V) (F : W → Learned → Process W A)
      (G : V → Learned → Process V B)
      → IsOffered x w f
      → IsParty x w
      → IsParty y v
      → (l1 : Learned) × (l2 : Learned) × (l1.peer_folders
          ≡ with_folder f.folder_id (told y f.folder_id) l)
        × (l2.peer_folders ≡ with_folder f.folder_id (told x f.folder_id) l')
        × Reaches pl pr
            (quiet
              (bind (announces x with_adverts f w) (λ w' _. bind (consumes x with_adverts l w') F))
              (bind (listens y with_adverts (suc n) l' v) G))
            (quiet (F w l1) (bind (listens y with_adverts n l2 v) G))
  turn f n l l' w v F G ok_f ok_x ok_y =
      let id : Bytes = f.folder_id in
      let (es, has, fits) = ok_f.indexed in
      let (es', has', fits') =
        store_of-entries y v (find_folder y.folders id)
          (find_folder-Found (IsOffered y v) y.folders id ok_y.offered) in
      let mx : Option BlobId = told x id in
      let my : Option BlobId = told y id in
      let good_x = told-IsManifestId x w id ok_x in
      let good_y = told-IsManifestId y v id ok_y in
      let l1 : Learned =
        learn with_adverts (offer_of id (manifest_or_zero my)) (map_of with_adverts es') l in
      let l2 : Learned =
        learn with_adverts (offer_of id (manifest_or_zero mx)) (map_of with_adverts es) l' in
      let t = quiet (F w l1) (bind (listens y with_adverts n l2 v) G) in
      let answered : V → Learned → Unit {0} → Process V B =
        λ v' k _. bind (listens y with_adverts n k v') G in
      let back : Reaches pl pr
          (quiet (bind (consumes x with_adverts l w) F)
            (bind (echoes y with_adverts id v) (λ v' u. answered v' l2 u)))
          t =
        Reaches-swap pl pr _ t (
          Reaches_same pr pl (swap t) (echoes-bind y with_adverts v id (λ v' u. answered v' l2 u))
            (consumes-bind x with_adverts w l F)
            (tell_meets pr pl y x (swap t) with_adverts (store_of (find_folder y.folders id)) es' id
              (manifest_or_zero my) l v w (λ v' u. answered v' l2 u) F
              (λ w' po. bind (hear x with_adverts po l w') F) ok_f.id_array
              (manifest_or_zero-array my good_y) has' fits' ok_x.room refl
              (Reaches-here pr pl (swap t)))) in
      (
        l1,
        l2,
        learn-folders with_adverts id my (map_of with_adverts es') l good_y,
        learn-folders with_adverts id mx (map_of with_adverts es) l' good_x,
        Reaches_same pl pr t
            (announces-bind x with_adverts w f (λ w' _. bind (consumes x with_adverts l w') F))
            (listens-bind y with_adverts v n l' G)
            (tell_meets pl pr x y t with_adverts (some f.store) es id (manifest_or_zero mx) l' w v
              (λ w' _. bind (consumes x with_adverts l w') F)
              (λ v1 k. bind (echoes y with_adverts id v1) (λ v2 u. answered v2 k u))
              (λ v' po. bind (answers y with_adverts po l' (listens y with_adverts n) v') G)
              ok_f.id_array (manifest_or_zero-array mx good_x) has fits ok_y.room
              (answers-bind y with_adverts v (offer_of id (manifest_or_zero mx)) l'
                (listens y with_adverts n) G ok_f.not_sentinel)
              back),
      )
