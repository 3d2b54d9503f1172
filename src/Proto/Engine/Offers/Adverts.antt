-- ===== src/Proto/Engine/Offers/Adverts.antt =====
-- One party sends its adverts while the other waits for them.
use ferry.Prelude.{
  ℕ, zero, suc, ◌+◌, ◌≤◌, ◌<◌, ◌≡◌, refl, sym, ap, subst, Bool, true, false, List, [], ◌∷◌, All,
  All-of_append, length, length-append, le→ltb, arith,
}
use ferry.Prelude.Chunks.{cuts, chunks, concat, concat-chunks, IsPiece, chunks-IsPiece, chunks-few}
use ferry.Store.Index.{IndexEntry, IsEntry, dedup, sort_by_key}
use ferry.Store.Index.Laws.Tables.{length-dedup}
use ferry.Proto.Advert.{max_rows, index_advert_encode}
use ferry.Proto.Advert.Laws.{index_advert_parse-encode_chunk, length-index_advert_encode}
use ferry.Proto.Session.{
  Peer, is_known, Process, bind, ◌>>=◌, ◌>>◌, pure, lift, recv_frame, of_type, expect_frame,
  msg_index_advert, sealed_len,
}
use ferry.Proto.Session.Run.{Link}
use ferry.Proto.Session.Meet.{quiet, Reaches, to_right, bind_assoc, send_frame_fits, Reaches_same}
use ferry.Proto.Engine.{budget}
use ferry.Proto.Engine.Offers.{
  AdvertMap, add_rows, send_advert, send_chunks, advertise, after_advert, recv_adverts,
}

-- The rows that arrive of a chunk: `table_plain` sorts them, and drops all but a blob's first.
abbrev arrived : List IndexEntry → List IndexEntry
arrived c = dedup (sort_by_key c)

abbrev receive : AdvertMap → List (List IndexEntry) → AdvertMap
receive map [] = map
receive map (c ∷ cs) = receive (add_rows map (arrived c)) cs

-- What the peer's map is after these entries are sent.
pub advertised : List IndexEntry → AdvertMap
unfolding chunks
advertised es = receive [] (chunks max_rows es)

-- An index that one exchange can carry.
pub record IsIndexed (es : List IndexEntry) : Type 0 where
  pub each : All IsEntry es
  pub few : length es ≤ budget

record IsChunk (c : List IndexEntry) : Type 0 where
  each : All IsEntry c
  short : length c ≤ max_rows

module _ {W A V B : Type 0} (pl pr : Peer) (t : Link W A V B) where
  -- One advert is sent and read.
  one_meets :
      (c : List IndexEntry) (more : Bool) (n rows : ℕ) (map : AdvertMap) (w : W) (v : V)
      (f : W → Unit {0} → Process W A) (g : V → AdvertMap → Process V B)
      → IsChunk c
      → Reaches pl pr
          (quiet (f w tt) (
            bind
              (after_advert
                (rows + length (arrived c))
                (add_rows map (arrived c))
                more
                (recv_adverts n (rows + length (arrived c)) (add_rows map (arrived c)))
                v)
              g))
          t
      → Reaches pl pr
          (quiet (bind (send_advert c more w) f) (bind (recv_adverts (suc n) rows map v) g))
          t
  unfolding send_advert recv_adverts expect_frame recv_frame of_type lift ◌>>=◌ bind pure is_known
      sealed_len
  one_meets c more n rows map w v f g ok_c r =
      Reaches_same pl pr t
        (send_frame_fits msg_index_advert
          (index_advert_encode (record { entries = c; more = more })) w f
          (omega (arith, length-index_advert_encode c more ok_c.each ok_c.short)))
        refl
        (to_right pl pr _ (f w tt) _ t refl
          (rw (index_advert_parse-encode_chunk c more ok_c.each ok_c.short, bind) r))

  chunks_meet :
      (c : List IndexEntry) (cs : List (List IndexEntry)) (n rows : ℕ) (map : AdvertMap) (w : W)
      (v : V) (f : W → Unit {0} → Process W A) (g : V → AdvertMap → Process V B)
      → All IsChunk (c ∷ cs)
      → rows + length (concat (c ∷ cs)) ≤ budget
      → length (c ∷ cs) ≤ n
      → Reaches pl pr (quiet (f w tt) (g v (receive map (c ∷ cs)))) t
      → Reaches pl pr
          (quiet (bind (send_chunks (c ∷ cs) w) f) (bind (recv_adverts n rows map v) g))
          t
  unfolding send_chunks after_advert pure bind ◌>>◌ ◌>>=◌
  chunks_meet c [] zero rows map w v f g h fits few r = absurd (omega (arith, few))
  chunks_meet c (d ∷ cs) zero rows map w v f g h fits few r = absurd (omega (arith, few))
  chunks_meet c [] (suc n) rows map w v f g h fits few r =
      one_meets c false n rows map w v f g h.0 (
        rw
          (
            le→ltb budget (rows + length (arrived c))
                (omega (arith, fits, length-append c [], length-dedup c)),
            bind,
          )
          r)
  chunks_meet c (d ∷ cs) (suc n) rows map w v f g h fits few r =
      subst (λ p. Reaches pl pr (quiet p (bind (recv_adverts (suc n) rows map v) g)) t)
        (sym (bind_assoc (send_advert c true w) (λ w' _. send_chunks (d ∷ cs) w') f))
        (one_meets c true n rows map w v (λ w' _. bind (send_chunks (d ∷ cs) w') f) g h.0
          (rw
            (le→ltb budget (rows + length (arrived c))
              (omega (arith, fits, length-append c (concat (d ∷ cs)), length-dedup c)))
            (chunks_meet d cs n (rows + length (arrived c)) (add_rows map (arrived c)) w v f g h.1
              (omega (arith, fits, length-append c (concat (d ∷ cs)), length-dedup c))
              (omega (arith, few)) r)))

pieces-IsChunk :
    (cs : List (List IndexEntry))
    → All (IsPiece max_rows) cs
    → All IsEntry (concat cs)
    → All IsChunk cs
pieces-IsChunk [] p w = tt
pieces-IsChunk (c ∷ cs) p w =
    let (first, others) = All-of_append IsEntry c (concat cs) w in
    (record { each = first; short = p.0.1 }, pieces-IsChunk cs p.1 others)

module _ {W A V B : Type 0} (pl pr : Peer) (t : Link W A V B) where
  -- All the adverts of a store are sent and read: the reader has the rows of `advertised`.
  pub adverts_meet :
      (es : List IndexEntry) (n : ℕ) (w : W) (v : V) (f : W → Unit {0} → Process W A)
      (g : V → AdvertMap → Process V B)
      → IsIndexed es
      → length es < n
      → Reaches pl pr (quiet (f w tt) (g v (advertised es))) t
      → Reaches pl pr (quiet (bind (advertise es w) f) (bind (recv_adverts n 0 [] v) g)) t
  unfolding advertise advertised chunks cuts after_advert pure bind dedup sort_by_key add_rows
  adverts_meet [] zero w v f g h few r = absurd (omega (arith, few))
  adverts_meet [] (suc n) w v f g h few r =
      one_meets pl pr t [] false n 0 [] w v f g (record { each = tt; short = omega arith }) r
  adverts_meet (e ∷ es) n w v f g h few r =
      let size : 0 < max_rows = omega arith in
      let whole : concat (chunks max_rows (e ∷ es)) ≡ e ∷ es =
        concat-chunks max_rows (e ∷ es) size in
      chunks_meet pl pr t _ _ n 0 [] w v f g
        (pieces-IsChunk (chunks max_rows (e ∷ es)) (chunks-IsPiece max_rows (e ∷ es) size)
          (subst (All IsEntry) (sym whole) h.each))
        (omega (arith, h.few, ap length whole)) (omega (arith, few, chunks-few max_rows (e ∷ es))) r
