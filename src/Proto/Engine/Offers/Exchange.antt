-- ===== src/Proto/Engine/Offers/Exchange.antt =====
-- The whole exchange: both parties, from the first announcement to the last sentinel.
use ferry.Prelude.{
  ℕ, zero, suc, ◌<◌, ◌≡◌, refl, sym, Bool, List, [], Bytes, All, IsByte, bytes_eq, replicate,
  length, ok, arith,
}
use ferry.Prelude.Maps.{member}
use ferry.Proto.Session.{Peer, Process, done, bind, Session, ◌>>=◌, ◌>>◌, pure}
use ferry.Proto.Session.Run.{Link, swap}
use ferry.Proto.Session.Meet.{
  quiet, Reaches, Reaches-here, Reaches-swap, Reaches-trans, Reaches_same, bind_done, AlwaysEnds,
  Reaches-AlwaysEnds, done-IsFinal,
}
use ferry.Proto.Engine.{Role, initiator, responder, folder_sentinel, no_manifest}
use ferry.Proto.Engine.Offers.{Learned, nothing_learned, send_sentinel, answer, exchange_offers}
use ferry.Proto.Engine.Offers.Talk.{Party, offer_meets, offer_of}
use ferry.Proto.Engine.Offers.Parties.{IsParty, told}
use ferry.Proto.Engine.Offers.Turns.{answers, listens, listens-bind}
use ferry.Proto.Engine.Offers.Knows.{Knows, ids_onto}
use ferry.Proto.Engine.Offers.Rounds.{offers_missing, all-Rounds, missing-Rounds}

module _ {W H : Type 0} (s : Party W H) (with_adverts : Bool) where
  -- `exchange_offers` in the role of one of the sides.
  abbrev pub exchanges : Role → Session W Learned
  exchanges = exchange_offers s.index_entries s.fuel s.folders s.outcomes with_adverts

  answers-sentinel :
      {C : Type 0} (l : Learned) (next : Learned → Session W Learned) (w : W)
      (F : W → Learned → Process W C)
      → bind (answers s with_adverts (offer_of folder_sentinel no_manifest) l next w) F ≡ F w l
  unfolding answer pure bind bytes_eq
  answers-sentinel l next w F = refl

zeros-IsByte : (n : ℕ) → All IsByte (replicate n 0)
zeros-IsByte zero = tt
zeros-IsByte (suc n) = (omega arith, zeros-IsByte n)

module _ {W V K A B : Type 0} (pl pr : Peer) (y : Party V K) (with_adverts : Bool) where
  -- The sentinel ends the loop of the party that listens.
  sentinel_meets :
      (n : ℕ) (l : Learned) (w : W) (v : V) (F : W → Unit {0} → Process W A)
      (G : V → Learned → Process V B) (t : Link W A V B)
      → 0 < n
      → Reaches pl pr (quiet (F w tt) (G v l)) t
      → Reaches pl pr (quiet (bind (send_sentinel w) F) (bind (listens y with_adverts n l v) G)) t
  unfolding send_sentinel
  sentinel_meets zero l w v F G t h r = absurd (omega (arith, h))
  sentinel_meets (suc n) l w v F G t h r =
      Reaches_same pl pr t refl (listens-bind y with_adverts v n l G) (
        offer_meets pl pr t folder_sentinel no_manifest w v F _ (refl, zeros-IsByte 16)
          (refl, zeros-IsByte 32)
          (Reaches_same pl pr t refl
            (answers-sentinel y with_adverts l (listens y with_adverts n) v G) r))

-- The folders that either side configures.
abbrev pub shared : {W H V K : Type 0} → Party W H → Party V K → List Bytes
shared x y = ids_onto y.folders (ids_onto x.folders [])

module _ {W H V K : Type 0} (pl pr : Peer) (x : Party W H) (y : Party V K) (with_adverts : Bool)
    (w : W) (v : V) where
  -- The exchange that starts in `l` ends, whoever moves when, and each side has learned what the
  -- other tells of each folder that either of them configures.
  pub record Exchanged (l : Link W Learned V Learned) : Type 0 where
    pub learned_x : Learned
    pub learned_y : Learned
    pub of_y : Knows (told y) (shared x y) learned_x.peer_folders
    pub of_x : Knows (told x) (shared x y) learned_y.peer_folders
    pub ends : AlwaysEnds pl pr l (quiet (done w (ok learned_x)) (done v (ok learned_y)))

  -- Two sides whose folders have ids of 16 bytes that are not the sentinel, whose manifest ids have 32
  -- bytes and are not all zero, whose stores can be read and have at most 262,144 index rows that fit,
  -- and whose loops have more turns of fuel than that and than the other side has folders: in every
  -- order in which the two take their steps, the exchange ends with both returning, after the same
  -- number of steps. The initiator then has for each folder that either side configures the
  -- manifest that the responder has of it, or none, and has no other folder; and the other way round.
  pub exchange-Exchanged :
      IsParty x w
      → IsParty y v
      → length x.folders < y.fuel
      → length y.folders < x.fuel
      → Exchanged
          (quiet (exchanges x with_adverts initiator w) (exchanges y with_adverts responder v))
  unfolding exchange_offers ◌>>=◌ ◌>>◌ pure member
  exchange-Exchanged ok_x ok_y few_x few_y =
      let answers_y : V → Learned → Process V Learned = λ v' k.
        bind (offers_missing y with_adverts y.folders k v')
          (λ v'' k'. bind (send_sentinel v'') (λ v3 _. done v3 (ok k'))) in
      let rest_x : W → Learned → Process W Learned =
        λ w' k. bind (send_sentinel w') (λ w'' _. listens x with_adverts x.fuel k w'') in
      let one =
        all-Rounds pl pr x y with_adverts w v ok_x ok_y rest_x answers_y x.folders y.fuel []
          nothing_learned nothing_learned ok_x.offered few_x (λ k. refl, λ k. refl) in
      let two =
        missing-Rounds pr pl y x with_adverts v w ok_y ok_x
          (λ v' k. bind (send_sentinel v') (λ v'' _. done v'' (ok k))) (λ w' k. done w' (ok k))
          y.folders x.fuel (ids_onto x.folders []) one.l2 one.l1 ok_y.offered few_y
          (one.both.1, one.both.0) in
      let start =
        quiet (exchanges x with_adverts initiator w) (exchanges y with_adverts responder v) in
      let end = quiet (done w (ok two.l2)) (done v (ok two.l1)) in
      let closing : Reaches pl pr
          (quiet (listens x with_adverts x.fuel one.l1 w) (answers_y v one.l2)) end =
        Reaches-swap pl pr _ end (
          Reaches_same pr pl (swap end) refl
            (sym (bind_done (listens x with_adverts x.fuel one.l1 w)))
            (Reaches-trans pr pl _ _ (swap end) two.reach (
              sentinel_meets pr pl x with_adverts two.left_over two.l2 v w
                (λ v' _. done v' (ok two.l1)) (λ w' k. done w' (ok k)) (swap end) two.some_left
                (Reaches-here pr pl (swap end))))) in
      record {
        learned_x = two.l2;
        learned_y = two.l1;
        of_y = two.both.1;
        of_x = two.both.0;
        ends = Reaches-AlwaysEnds pl pr start end (done-IsFinal pl pr w v _ _) (
            Reaches-trans pl pr start _ end one.reach (
              sentinel_meets pl pr y with_adverts one.left_over one.l2 w v
                (λ w' _. listens x with_adverts x.fuel one.l1 w') answers_y end one.some_left
                closing));
      }
