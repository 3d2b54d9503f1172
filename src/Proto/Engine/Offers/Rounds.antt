-- ===== src/Proto/Engine/Offers/Rounds.antt =====
-- The two loops over the folders, against a party that listens.
use ferry.Prelude.{
  ℕ, zero, suc, ◌<◌, ◌≡◌, refl, sym, ap, subst, ◌∙◌, Bool, Option, none, some, List, [], ◌∷◌, Bytes,
  All, length, arith, Option-cases, inl, inr,
}
use ferry.Prelude.Maps.{lookup}
use ferry.Store.Format.{BlobId}
use ferry.Proto.Session.{Peer, Process, bind, Session, ◌>>=◌, ◌>>◌, pure}
use ferry.Proto.Session.Meet.{quiet, Reaches, Reaches-here, Reaches-trans, Reaches_same, bind_assoc}
use ferry.Proto.Engine.{FolderState}
use ferry.Proto.Engine.Offers.{Learned, contains_key, offer_all, offer_missing}
use ferry.Proto.Engine.Offers.Talk.{Party}
use ferry.Proto.Engine.Offers.Parties.{IsOffered, IsParty, told}
use ferry.Proto.Engine.Offers.Turns.{announces, consumes, listens, turn}
use ferry.Proto.Engine.Offers.Knows.{Knows, ids_onto, Knows-insert, Knows-again, Knows-member, Both}

module _ {W H : Type 0} (x : Party W H) (with_adverts : Bool) where
  abbrev pub offers_all : List (FolderState H) → Learned → Session W Learned
  offers_all = offer_all x.index_entries x.fuel x.folders x.outcomes with_adverts

  abbrev pub offers_missing : List (FolderState H) → Learned → Session W Learned
  offers_missing = offer_missing x.index_entries x.fuel x.folders x.outcomes with_adverts

module _ {W H : Type 0} (x : Party W H) (with_adverts : Bool) (f : FolderState H)
    (fs : List (FolderState H)) (l : Learned) (w : W) where
  missing_new :
      lookup f.folder_id l.peer_folders ≡ none
      → offers_missing x with_adverts (f ∷ fs) l w
        ≡ (announces x with_adverts f
              >> (consumes x with_adverts l >>= offers_missing x with_adverts fs))
            w
  unfolding offer_missing contains_key
  missing_new e = rw (e, contains_key, offer_missing) refl

  missing_seen :
      {a : Option BlobId}
      → lookup f.folder_id l.peer_folders ≡ some a
      → offers_missing x with_adverts (f ∷ fs) l w ≡ offers_missing x with_adverts fs l w
  unfolding offer_missing contains_key
  missing_seen e = rw (e, contains_key, offer_missing) refl

-- A folder is announced and its echo read, in front of `rest`.
one_bind :
    {W H C : Type 0} (s : Party W H) (with_adverts : Bool) (f : FolderState H) (l : Learned) (w : W)
    (rest : Learned → Session W Learned) (F : W → Learned → Process W C)
    → bind ((announces s with_adverts f >> (consumes s with_adverts l >>= rest)) w) F
      ≡ bind
          (announces s with_adverts f w)
          (λ w' _. bind (consumes s with_adverts l w') (λ w'' k. bind (rest k w'') F))
unfolding ◌>>◌ ◌>>=◌
one_bind s with_adverts f l w rest F =
    bind_assoc (announces s with_adverts f w) _ F
    ∙ ap (bind (announces s with_adverts f w))
        (λ i w' _. bind_assoc (consumes s with_adverts l w') (λ w'' k. rest k w'') F i)

module _ {W H V K A B : Type 0} (pl pr : Peer) (x : Party W H) (y : Party V K) (with_adverts : Bool)
    (w : W) (v : V) (ok_x : IsParty x w) (ok_y : IsParty y v) (F : W → Learned → Process W A)
    (G : V → Learned → Process V B) where
  -- The party `p` runs against the listener `q`, goes on with `F`, and the listener still listens.
  pub record Rounds (known : List Bytes) (p : Process W A) (q : Process V B) : Type 0 where
    pub l1 : Learned
    pub l2 : Learned
    pub left_over : ℕ
    pub some_left : 0 < left_over
    pub both : Both x y known l1 l2
    pub reach :
        Reaches pl pr (quiet p q) (quiet (F w l1) (bind (listens y with_adverts left_over l2 v) G))

  -- One turn, and the rounds that follow.
  one_round :
      (f : FolderState H) (rest : Learned → Session W Learned) (n : ℕ) (known ids : List Bytes)
      (l l' : Learned)
      → IsOffered x w f
      → Both x y known l l'
      → ((l1 l2 : Learned)
          → Both x y (f.folder_id ∷ known) l1 l2
          → Rounds ids (bind (rest l1 w) F) (bind (listens y with_adverts n l2 v) G))
      → Rounds ids
          (bind ((announces x with_adverts f >> (consumes x with_adverts l >>= rest)) w) F)
          (bind (listens y with_adverts (suc n) l' v) G)
  one_round f rest n known ids l l' h b next =
      let id : Bytes = f.folder_id in
      let (l1, l2, e1, e2, r) =
        turn pl pr x y with_adverts f n l l' w v (λ w' k. bind (rest k w') F) G h ok_x ok_y in
      let t = next l1 l2 (
        subst (Knows (told y) (id ∷ known)) (sym e1)
            (Knows-insert (told y) id known l.peer_folders b.0),
        subst (Knows (told x) (id ∷ known)) (sym e2)
            (Knows-insert (told x) id known l'.peer_folders b.1),
      ) in
      record {
        l1 = t.l1;
        l2 = t.l2;
        left_over = t.left_over;
        some_left = t.some_left;
        both = t.both;
        reach =
            Reaches_same pl pr _ (one_bind x with_adverts f l w rest F) refl
              (Reaches-trans pl pr _ _ _ r t.reach);
      }

  pub all-Rounds :
      (fs : List (FolderState H)) (n : ℕ) (known : List Bytes) (l l' : Learned)
      → All (IsOffered x w) fs
      → length fs < n
      → Both x y known l l'
      → Rounds
          (ids_onto fs known)
          (bind (offers_all x with_adverts fs l w) F)
          (bind (listens y with_adverts n l' v) G)
  unfolding offer_all ids_onto pure bind
  all-Rounds [] n known l l' h few b = record {
    l1 = l;
    l2 = l';
    left_over = n;
    some_left = few;
    both = b;
    reach = Reaches-here pl pr _;
  }
  all-Rounds (f ∷ fs) zero known l l' h few b = absurd (omega (arith, few))
  all-Rounds (f ∷ fs) (suc n) known l l' h few b =
      one_round f (offers_all x with_adverts fs) n known (ids_onto fs (f.folder_id ∷ known)) l l'
        h.0 b (λ l1 l2 b'. all-Rounds fs n (f.folder_id ∷ known) l1 l2 h.1 (omega (arith, few)) b')

  pub missing-Rounds :
      (fs : List (FolderState H)) (n : ℕ) (known : List Bytes) (l l' : Learned)
      → All (IsOffered x w) fs
      → length fs < n
      → Both x y known l l'
      → Rounds
          (ids_onto fs known)
          (bind (offers_missing x with_adverts fs l w) F)
          (bind (listens y with_adverts n l' v) G)
  unfolding offer_missing ids_onto pure bind
  missing-Rounds [] n known l l' h few b = record {
    l1 = l;
    l2 = l';
    left_over = n;
    some_left = few;
    both = b;
    reach = Reaches-here pl pr _;
  }
  missing-Rounds (f ∷ fs) zero known l l' h few b = absurd (omega (arith, few))
  missing-Rounds (f ∷ fs) (suc n) known l l' h few b =
      elim (Option-cases (lookup f.folder_id l.peer_folders)) [
        | inl new ↦
            subst
              (λ p.
                Rounds (ids_onto (f ∷ fs) known) (bind p F)
                  (bind (listens y with_adverts (suc n) l' v) G))
              (sym (missing_new x with_adverts f fs l w new))
              (one_round f (offers_missing x with_adverts fs) n known
                (ids_onto fs (f.folder_id ∷ known)) l l' h.0 b
                (λ l1 l2 b'.
                  missing-Rounds fs n (f.folder_id ∷ known) l1 l2 h.1 (omega (arith, few)) b'))
        | inr (a, seen) ↦
            let again = Knows-member (told y) f.folder_id known l.peer_folders b.0 seen in
            subst
              (λ p.
                Rounds (ids_onto (f ∷ fs) known) (bind p F)
                  (bind (listens y with_adverts (suc n) l' v) G))
              (sym (missing_seen x with_adverts f fs l w seen))
              (missing-Rounds fs (suc n) (f.folder_id ∷ known) l l' h.1 (omega (arith, few)) (
                Knows-again (told y) f.folder_id known l.peer_folders again b.0,
                Knows-again (told x) f.folder_id known l'.peer_folders again b.1,
              ))
      ]
