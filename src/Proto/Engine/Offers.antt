-- ===== src/Proto/Engine/Offers.antt =====
-- crates/ferry-proto/src/engine.rs: `exchange_offers`, in which each side tells the other its manifest
-- of each folder, with the rows of its index where `with_adverts` is set. The loops that wait for the
-- peer have fuel.
pub mod Adverts
pub mod Talk
pub mod Parties
pub mod Turns
pub mod Knows
pub mod Rounds
pub mod Exchange
use ferry.Prelude.{
  ℕ, zero, suc, ◌+◌, Bool, true, false, Option, none, some, List, [], ◌∷◌, Bytes, bytes_eq, length,
  ltb, if◌then◌else◌, Result, ok, err,
}
use ferry.Prelude.Maps.{lookup, insert}
use ferry.Prelude.Chunks.{chunks}
use ferry.Store.Format.{BlobId}
use ferry.Store.Index.{IndexEntry}
use ferry.Store.Reader.{run}
use ferry.Proto.Error.{ProtoError, budget_exceeded}
use ferry.Proto.Handshake.{FolderOffer, folder_offer_encode, folder_offer_parse}
use ferry.Proto.Advert.{IndexAdvert, max_rows, index_advert_encode, index_advert_parse}
use ferry.Proto.Session.{
  Session, ◌>>=◌, ◌>>◌, pure, fail, lift, exhausted, send_frame, expect_frame, msg_folder_offer,
  msg_index_advert,
}
use ferry.Proto.Engine.{
  Role, initiator, responder, FolderState, EngineConfig, FolderOutcome, budget, folder_sentinel,
  no_manifest, nonzero_manifest, find_folder, find_outcome,
}

-- `BTreeMap<BlobId, IndexEntry>`
abbrev pub AdvertMap : Type 0
AdvertMap = List (BlobId × IndexEntry)

-- What `exchange_offers` returns: `peer_folders` and `peer_adverts`. `PeerFolder` is its manifest.
pub record Learned : Type 0 where
  pub peer_folders : List (Bytes × Option BlobId)
  pub peer_adverts : List (Bytes × AdvertMap)

abbrev pub nothing_learned : Learned
nothing_learned = record { peer_folders = []; peer_adverts = [] }

-- `.or_else(|| …)`
abbrev pub or_else : {A : Type 0} → Option A → Option A → Option A
or_else (some a) o = some a
or_else none o = o

-- `.unwrap_or([0; 32])`
abbrev pub manifest_or_zero : Option BlobId → BlobId
manifest_or_zero none = no_manifest
manifest_or_zero (some id) = id

unfoldable pub effective_manifest :
    {H : Type 0} → List (FolderState H) → List FolderOutcome → Bytes → Option BlobId
unfolding find_folder find_outcome
effective_manifest folders outcomes id =
    or_else (elim (find_outcome outcomes id) [ none ↦ none | some o ↦ o.local_manifest_after ])
      (elim (find_folder folders id) [ none ↦ none | some f ↦ f.current_manifest ])

-- `map.insert(e.id, e)` of each row
unfoldable pub add_rows : AdvertMap → List IndexEntry → AdvertMap
unfolding insert
add_rows map [] = map
add_rows map (e ∷ es) = add_rows (insert e.id e map) es

unfoldable pub contains_key : {A : Type 0} → Bytes → List (Bytes × A) → Bool
unfolding lookup
contains_key k m = elim (lookup k m) [ none ↦ false | some _ ↦ true ]

-- What an offer adds: its adverts where there are adverts, and its manifest.
unfoldable pub learn : Bool → FolderOffer → AdvertMap → Learned → Learned
unfolding insert nonzero_manifest
learn with_adverts po map l = record {
  peer_folders = insert po.folder_id (nonzero_manifest po.manifest_id) l.peer_folders;
  peer_adverts = if with_adverts then insert po.folder_id map l.peer_adverts else l.peer_adverts;
}

module _ {W : Type 0} where
  unfoldable pub send_advert : List IndexEntry → Bool → Session W (Unit {0})
  unfolding send_frame index_advert_encode
  send_advert entries more =
      send_frame msg_index_advert (index_advert_encode (record { entries = entries; more = more }))

  -- `more` is set on every chunk but the last.
  unfoldable pub send_chunks : List (List IndexEntry) → Session W (Unit {0})
  unfolding send_advert ◌>>◌ pure
  send_chunks [] = pure tt
  send_chunks (c ∷ []) = send_advert c false
  send_chunks (c ∷ d ∷ cs) = send_advert c true >> send_chunks (d ∷ cs)

  unfoldable pub advertise : List IndexEntry → Session W (Unit {0})
  unfolding send_advert send_chunks chunks
  advertise [] = send_advert [] false
  advertise (e ∷ es) = send_chunks (chunks max_rows (e ∷ es))

  unfoldable pub expect_offer : Session W FolderOffer
  unfolding ◌>>=◌ expect_frame lift
  expect_offer = expect_frame msg_folder_offer >>= λ payload. lift (run folder_offer_parse payload)

  unfoldable pub send_offer : Bytes → BlobId → Session W (Unit {0})
  unfolding send_frame folder_offer_encode
  send_offer folder_id manifest_id = send_frame msg_folder_offer (
      folder_offer_encode
        (record { folder_id = folder_id; manifest_id = manifest_id; reserved = 0 }))

  unfoldable pub send_sentinel : Session W (Unit {0})
  unfolding send_offer
  send_sentinel = send_offer folder_sentinel no_manifest

  -- After an advert: too many rows in all, the next advert, or the end.
  unfoldable pub after_advert : ℕ → AdvertMap → Bool → Session W AdvertMap → Session W AdvertMap
  unfolding pure fail
  after_advert rows map more next =
      if ltb budget rows
      then fail (budget_exceeded "advert rows for one folder" budget)
      else if more
      then next
      else pure map

  -- The loop of `recv_advert_map`.
  unfoldable pub recv_adverts : ℕ → ℕ → AdvertMap → Session W AdvertMap
  unfolding ◌>>=◌ exhausted expect_frame lift index_advert_parse after_advert add_rows
  recv_adverts zero rows map = exhausted
  recv_adverts (suc n) rows map = expect_frame msg_index_advert >>= λ payload.
      lift (index_advert_parse payload) >>= λ adv.
      let rows' = rows + length adv.entries in
      let map' = add_rows map adv.entries in
      let next = recv_adverts n rows' map' in after_advert rows' map' adv.more next

-- `index_entries` reads the index of a store, and `fuel` bounds the turns of each loop.
module _ {W H : Type 0} (index_entries : H → W → Result ProtoError (List IndexEntry)) (fuel : ℕ)
    (folders : List (FolderState H)) (outcomes : List FolderOutcome) (with_adverts : Bool) where
  -- `store.index_entries()?`, and no entries without a store
  unfoldable pub entries_of : Option H → Session W (List IndexEntry)
  unfolding pure
  entries_of none = pure []
  entries_of (some s) = λ w. lift (index_entries s w) w

  unfoldable pub send_my_adverts : Option H → Session W (Unit {0})
  unfolding ◌>>=◌ entries_of advertise
  send_my_adverts store = entries_of store >>= advertise

  unfoldable pub recv_advert_map : Session W AdvertMap
  unfolding recv_adverts
  recv_advert_map = recv_adverts fuel 0 []

  -- `announce` sends a folder of its own, with the adverts of its store.
  unfoldable pub announce : FolderState H → Session W (Unit {0})
  unfolding ◌>>◌ send_offer effective_manifest send_my_adverts pure
  announce f =
      send_offer f.folder_id (manifest_or_zero (effective_manifest folders outcomes f.folder_id))
      >> (if with_adverts then send_my_adverts (some f.store) else pure tt)

  -- `echo` answers for a folder of the peer's, which may be none of its own.
  unfoldable pub echo : Bytes → Session W (Unit {0})
  unfolding ◌>>◌ send_offer effective_manifest send_my_adverts pure find_folder
  echo folder_id =
      send_offer folder_id (manifest_or_zero (effective_manifest folders outcomes folder_id))
      >> (if with_adverts
          then send_my_adverts
              (elim (find_folder folders folder_id) [ none ↦ none | some f ↦ some f.store ])
          else pure tt)

  unfoldable pub consume_announcement : FolderOffer → Learned → Session W Learned
  unfolding ◌>>=◌ recv_advert_map pure learn
  consume_announcement po l = (if with_adverts then recv_advert_map else pure []) >>= λ map.
      pure (learn with_adverts po map l)

  unfoldable pub consume_echo : Learned → Session W Learned
  unfolding ◌>>=◌ expect_offer consume_announcement
  consume_echo l = expect_offer >>= λ po. consume_announcement po l

  -- One turn of the loop over the peer's offers, in front of the turns that follow.
  unfoldable pub answer : FolderOffer → Learned → (Learned → Session W Learned) → Session W Learned
  unfolding ◌>>=◌ ◌>>◌ pure consume_announcement echo
  answer po l next =
      if bytes_eq po.folder_id folder_sentinel
      then pure l
      else consume_announcement po l >>= λ l'. echo po.folder_id >> next l'

  unfoldable pub listen : ℕ → Learned → Session W Learned
  unfolding ◌>>=◌ exhausted expect_offer answer
  listen zero l = exhausted
  listen (suc n) l = let next = listen n in expect_offer >>= λ po. answer po l next

  -- The initiator's loop over its folders.
  unfoldable pub offer_all : List (FolderState H) → Learned → Session W Learned
  unfolding ◌>>=◌ ◌>>◌ pure announce consume_echo
  offer_all [] l = pure l
  offer_all (f ∷ fs) l = announce f >> (consume_echo l >>= λ l'. offer_all fs l')

  -- The responder's loop passes over the folders that the peer has announced.
  unfoldable pub offer_missing : List (FolderState H) → Learned → Session W Learned
  unfolding ◌>>=◌ ◌>>◌ pure announce consume_echo contains_key
  offer_missing [] l = pure l
  offer_missing (f ∷ fs) l =
      let rest = offer_missing fs in
      if contains_key f.folder_id l.peer_folders
      then rest l
      else announce f >> (consume_echo l >>= λ l'. rest l')

  unfoldable pub exchange_offers : Role → Session W Learned
  unfolding ◌>>=◌ ◌>>◌ pure offer_all offer_missing listen send_sentinel
  exchange_offers initiator = do l ← offer_all folders nothing_learned; send_sentinel; listen fuel l
  exchange_offers responder = do
    l ← listen fuel nothing_learned
    l' ← offer_missing folders l
    send_sentinel
    pure l'
