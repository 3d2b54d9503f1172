-- ===== src/Proto/Engine/Offers/Talk.antt =====
-- One folder of the exchange: one party tells, the other hears and answers.
use ferry.Prelude.{
  ℕ, ◌<◌, ◌≡◌, refl, sym, ap, subst, Bool, true, false, Option, none, some, List, [], Bytes,
  if◌then◌else◌, Result, ok, arith,
}
use ferry.Store.Format.{BlobId}
use ferry.Store.Index.{IndexEntry}
use ferry.Proto.Error.{ProtoError}
use ferry.Proto.Wire.{IsArray}
use ferry.Proto.Handshake.{FolderOffer, folder_offer_encode, IsFolderOffer}
use ferry.Proto.Handshake.Laws.{folder_offer_parse-encode, length-folder_offer_encode}
use ferry.Proto.Session.{
  Peer, is_known, Process, done, bind, Session, ◌>>=◌, pure, lift, recv_frame, of_type,
  expect_frame, msg_folder_offer, sealed_len,
}
use ferry.Proto.Session.Run.{Link}
use ferry.Proto.Session.Meet.{quiet, Reaches, to_right, bind_assoc, send_frame_fits, Reaches_same}
use ferry.Proto.Engine.{FolderState, FolderOutcome, budget}
use ferry.Proto.Engine.Offers.{
  AdvertMap, Learned, learn, advertise, recv_adverts, send_offer, expect_offer, entries_of,
  send_my_adverts, recv_advert_map, consume_announcement,
}
use ferry.Proto.Engine.Offers.Adverts.{advertised, IsIndexed, adverts_meet}

-- An offer as it is sent.
abbrev pub offer_of : Bytes → BlobId → FolderOffer
offer_of folder_id manifest_id = record {
  folder_id = folder_id;
  manifest_id = manifest_id;
  reserved = 0;
}

abbrev pub map_of : Bool → List IndexEntry → AdvertMap
map_of with_adverts es = if with_adverts then advertised es else []

-- The party on the left offers, and the one on the right hears.
module _ {W V A B : Type 0} (pl pr : Peer) (t : Link W A V B) where
  pub offer_meets :
      (id : Bytes) (m : BlobId) (w : W) (v : V) (f : W → Unit {0} → Process W A)
      (g : V → FolderOffer → Process V B)
      → IsArray 16 id
      → IsArray 32 m
      → Reaches pl pr (quiet (f w tt) (g v (offer_of id m))) t
      → Reaches pl pr (quiet (bind (send_offer id m w) f) (bind (expect_offer v) g)) t
  unfolding send_offer expect_offer expect_frame recv_frame of_type lift ◌>>=◌ bind pure is_known
      sealed_len
  offer_meets id m w v f g hi hm r =
      let good : IsFolderOffer (offer_of id m) = record {
        folder_id_array = hi;
        manifest_id_array = hm;
        reserved_zero = refl;
      } in
      Reaches_same pl pr t
        (send_frame_fits msg_folder_offer (folder_offer_encode (offer_of id m)) w f
          (omega (arith, length-folder_offer_encode (offer_of id m) good)))
        refl
        (to_right pl pr _ (f w tt) _ t refl
          (rw (folder_offer_parse-encode (offer_of id m) good, bind) r))

-- One side of the exchange: the parameters of `exchange_offers`.
pub record Party (W H : Type 0) : Type 0 where
  pub index_entries : H → W → Result ProtoError (List IndexEntry)
  pub fuel : ℕ
  pub folders : List (FolderState H)
  pub outcomes : List FolderOutcome

-- What is sent behind an offer.
abbrev pub tell_adverts : {W H : Type 0} → Party W H → Bool → Option H → Session W (Unit {0})
tell_adverts s with_adverts store =
    if with_adverts
    then send_my_adverts s.index_entries s.fuel s.folders s.outcomes with_adverts store
    else pure tt

-- What is read of it.
abbrev pub hear : {W H : Type 0} → Party W H → Bool → FolderOffer → Learned → Session W Learned
hear s with_adverts = consume_announcement s.index_entries s.fuel s.folders s.outcomes with_adverts

-- The entries of a store, or none without a store, are `es`.
abbrev pub HasEntries : {W H : Type 0} → Party W H → W → Option H → List IndexEntry → Type 0
HasEntries s w none es = es ≡ []
HasEntries s w (some h) es = s.index_entries h w ≡ ok es

module _ {W H V K A B : Type 0} (pl pr : Peer) (x : Party W H) (y : Party V K)
    (t : Link W A V B) where
  adverts_meet_hear :
      (with_adverts : Bool) (store : Option H) (es : List IndexEntry) (po : FolderOffer)
      (l : Learned) (w : W) (v : V) (f : W → Unit {0} → Process W A) (g : V → Learned → Process V B)
      → HasEntries x w store es
      → IsIndexed es
      → budget < y.fuel
      → Reaches pl pr (quiet (f w tt) (g v (learn with_adverts po (map_of with_adverts es) l))) t
      → Reaches pl pr
          (quiet
            (bind (tell_adverts x with_adverts store w) f)
            (bind (hear y with_adverts po l v) g))
          t
  unfolding consume_announcement recv_advert_map send_my_adverts entries_of ◌>>=◌ pure bind lift
  adverts_meet_hear false store es po l w v f g e h few r = r
  adverts_meet_hear true store es po l w v f g e h few r =
      subst (λ q. Reaches pl pr (quiet q (bind (hear y true po l v) g)) t) (sym (told store e))
        (subst (λ q. Reaches pl pr (quiet (bind (advertise es w) f) q) t)
          (sym (
            bind_assoc (recv_adverts y.fuel 0 [] v) (λ v' map. done v' (ok (learn true po map l)))
              g))
          (adverts_meet pl pr t es y.fuel w v f (λ v' map. g v' (learn true po map l)) h
            (omega (arith, h.few, few)) r))
    where
      told :
          (store : Option H)
          → HasEntries x w store es
          → bind (tell_adverts x true store w) f ≡ bind (advertise es w) f
      told none e = ap (λ es. bind (advertise es w) f) (sym e)
      told (some s) e = rw e refl

  -- All that is told of one folder is heard.
  pub tell_meets :
      (with_adverts : Bool) (store : Option H) (es : List IndexEntry) (id : Bytes) (m : BlobId)
      (l : Learned) (w : W) (v : V) (f : W → Unit {0} → Process W A) (g : V → Learned → Process V B)
      (r : V → FolderOffer → Process V B)
      → IsArray 16 id
      → IsArray 32 m
      → HasEntries x w store es
      → IsIndexed es
      → budget < y.fuel
      → r v (offer_of id m) ≡ bind (hear y with_adverts (offer_of id m) l v) g
      → Reaches pl pr
          (quiet (f w tt) (g v (learn with_adverts (offer_of id m) (map_of with_adverts es) l)))
          t
      → Reaches pl pr
          (quiet
            (bind (send_offer id m w) (λ w' _. bind (tell_adverts x with_adverts store w') f))
            (bind (expect_offer v) r))
          t
  tell_meets with_adverts store es id m l w v f g r hi hm e h few same reach =
      offer_meets pl pr t id m w v _ r hi hm (
        subst (λ q. Reaches pl pr (quiet (bind (tell_adverts x with_adverts store w) f) q) t)
          (sym same)
          (adverts_meet_hear with_adverts store es (offer_of id m) l w v f g e h few reach))
