-- ===== src/Proto/Session/Meet.antt =====
-- Runs of two parties where one sends and the other waits for the frame.
use ferry.Prelude.{
  ℕ, suc, ◌+◌, ◌≡◌, refl, sym, ap, subst, true, some, [], ◌∷◌, Result, ok, err, Bytes, ◌≤◌, le→ltb,
}
use ferry.Proto.Error.{ProtoError}
use ferry.Proto.Frame.{max_frame_body}
use ferry.Proto.Session.{
  Message, Peer, is_known, verdict, bind, Process, done, send, recv, out_of_fuel, send_frame,
  sealed_len,
}
use ferry.Proto.Session.Run.{
  advance, Link, Step, by_left, by_right, Run, IsFinal, Run-confluent, swap, Run-swap, Run-trans,
}

-- No frames under way.
abbrev pub quiet : {W A V B : Type 0} → Process W A → Process V B → Link W A V B
quiet p q = record { left = p; right = q; to_left = []; to_right = [] }

verdict_known :
    (peer : Peer) (m : Message) → is_known m.msg_type ≡ true → verdict peer m ≡ some (ok m)
unfolding verdict
verdict_known peer m h = rw h refl

module _ {W A V B : Type 0} (pl pr : Peer) where
  -- Some order of steps leads from the one link to the other.
  abbrev pub Reaches : Link W A V B → Link W A V B → Type 0
  Reaches l t = (n : ℕ) × Run pl pr n l t

  pub Reaches-here : (l : Link W A V B) → Reaches l l
  unfolding Run
  Reaches-here l = (0, refl)

  Reaches-step : (l m t : Link W A V B) → Step pl pr l m → Reaches m t → Reaches l t
  unfolding Run
  Reaches-step l m t s (n, r) = (suc n, (m, s, r))

  -- The left party sends what the right one waits for.
  pub to_right :
      (m : Message) (p : Process W A) (k : Result ProtoError Message → Process V B)
      (t : Link W A V B)
      → is_known m.msg_type ≡ true
      → Reaches (quiet p (k (ok m))) t
      → Reaches (quiet (send m p) (recv k)) t
  unfolding advance
  to_right m p k t h r =
      Reaches-step _ (record { left = p; right = recv k; to_left = []; to_right = m ∷ [] }) t
        (by_left _ refl refl)
        (Reaches-step _ (quiet p (k (ok m))) t (by_right _ (rw (verdict_known pr m h) refl) refl) r)

  -- The right party sends what the left one waits for.
  pub to_left :
      (m : Message) (q : Process V B) (k : Result ProtoError Message → Process W A)
      (t : Link W A V B)
      → is_known m.msg_type ≡ true
      → Reaches (quiet (k (ok m)) q) t
      → Reaches (quiet (recv k) (send m q)) t
  unfolding advance
  to_left m q k t h r =
      Reaches-step _ (record { left = recv k; right = q; to_left = m ∷ []; to_right = [] }) t
        (by_right _ refl refl)
        (Reaches-step _ (quiet (k (ok m)) q) t (by_left _ (rw (verdict_known pl m h) refl) refl) r)

  -- Every order of steps from `l` ends in `t`, and after the same number of steps.
  abbrev pub AlwaysEnds : Link W A V B → Link W A V B → Type 0
  AlwaysEnds l t =
      (n : ℕ) × ((k : ℕ) (u : Link W A V B)
        → Run pl pr k l u
        → (m : ℕ) × (k + m ≡ n) × Run pl pr m u t)

  pub Reaches-AlwaysEnds : (l t : Link W A V B) → IsFinal pl pr t → Reaches l t → AlwaysEnds l t
  Reaches-AlwaysEnds l t h (n, r) = (n, λ k u q. Run-confluent pl pr n k l t u r h q)

  pub done-IsFinal :
      (w : W) (v : V) (a : Result ProtoError A) (b : Result ProtoError B)
      → IsFinal pl pr (quiet (done w a) (done v b))
  unfolding advance
  done-IsFinal w v a b = (refl, refl)

-- `bind` is associative.
pub bind_assoc :
    {W A B C : Type 0} (p : Process W A) (f : W → A → Process W B) (g : W → B → Process W C)
    → bind (bind p f) g ≡ bind p (λ w a. bind (f w a) g)
unfolding bind
bind_assoc (done w (ok a)) f g = refl
bind_assoc (done w (err e)) f g = refl
bind_assoc (send m p) f g = ap (send m) (bind_assoc p f g)
bind_assoc (recv k) f g = ap recv (λ i r. bind_assoc (k r) f g i)
bind_assoc out_of_fuel f g = refl

module _ {W A V B : Type 0} (pl pr : Peer) where
  -- What holds of the parties holds of them in their other places.
  pub Reaches-swap : (l t : Link W A V B) → Reaches pr pl (swap l) (swap t) → Reaches pl pr l t
  Reaches-swap l t (n, r) = (n, Run-swap pr pl n (swap l) (swap t) r)

  pub Reaches-trans :
      (l m t : Link W A V B) → Reaches pl pr l m → Reaches pl pr m t → Reaches pl pr l t
  Reaches-trans l m t (n, r) (k, q) = Run-trans pl pr n k l m t r q

  -- Equal parties run alike.
  pub Reaches_same :
      {p p' : Process W A} {q q' : Process V B} (t : Link W A V B)
      → p ≡ p'
      → q ≡ q'
      → Reaches pl pr (quiet p' q') t
      → Reaches pl pr (quiet p q) t
  Reaches_same t e f r = subst (λ l. Reaches pl pr l t) (λ i. quiet (sym e i) (sym f i)) r

-- Ending with what a process returns changes nothing.
pub bind_done : {W A : Type 0} (p : Process W A) → bind p (λ w a. done w (ok a)) ≡ p
unfolding bind
bind_done (done w (ok a)) = refl
bind_done (done w (err e)) = refl
bind_done (send m p) = ap (send m) (bind_done p)
bind_done (recv k) = ap recv (λ i r. bind_done (k r) i)
bind_done out_of_fuel = refl

-- A frame whose sealed body fits is sent.
pub send_frame_fits :
    {W A : Type 0} (t : ℕ) (payload : Bytes) (w : W) (f : W → Unit {0} → Process W A)
    → sealed_len payload ≤ max_frame_body
    → bind (send_frame t payload w) f ≡ send (record { msg_type = t; payload = payload }) (f w tt)
unfolding send_frame bind
send_frame_fits t payload w f h = rw (le→ltb max_frame_body (sealed_len payload) h, bind) refl
