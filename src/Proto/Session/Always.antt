-- ===== src/Proto/Session/Always.antt =====
-- What holds of a party whatever frames the peer sends.
use ferry.Prelude.{ℕ, ◌≡◌, refl, Bytes, ◌==◌, ltb, if_intro, Result, ok, err}
use ferry.Proto.Error.{ProtoError}
use ferry.Proto.Frame.{max_frame_body}
use ferry.Proto.Session.{
  Message, Process, Session, done, send, recv, out_of_fuel, bind, ◌>>=◌, pure, fail, lift,
  sealed_len, send_frame, recv_frame, of_type, expect_frame,
}

-- On whatever it receives, the party ends in a state and with a result of which `P` holds, and its
-- fuel does not run out.
abbrev pub Always : {W A : Type 0} → (W → Result ProtoError A → Type 0) → Process W A → Type 0
Always P (done w r) = P w r
Always P (send m p) = Always P p
Always P (recv k) = (r : Result ProtoError Message) → Always P (k r)
Always P out_of_fuel = ⊥

pub Always-bind :
    {W A B : Type 0} (P : W → Result ProtoError A → Type 0) (Q : W → Result ProtoError B → Type 0)
    (p : Process W A) (f : W → A → Process W B)
    → Always P p
    → ((w : W) (a : A) → P w (ok a) → Always Q (f w a))
    → ((w : W) (e : ProtoError) → P w (err e) → Q w (err e))
    → Always Q (bind p f)
unfolding bind
Always-bind P Q (done w (ok a)) f h k l = k w a h
Always-bind P Q (done w (err e)) f h k l = l w e h
Always-bind P Q (send m p) f h k l = Always-bind P Q p f h k l
Always-bind P Q (recv g) f h k l = λ r. Always-bind P Q (g r) f (h r) k l
Always-bind P Q out_of_fuel f h k l = absurd h

pub Always-weaken :
    {W A : Type 0} (P Q : W → Result ProtoError A → Type 0) (p : Process W A)
    → Always P p
    → ((w : W) (r : Result ProtoError A) → P w r → Q w r)
    → Always Q p
Always-weaken P Q (done w r) h k = k w r h
Always-weaken P Q (send m p) h k = Always-weaken P Q p h k
Always-weaken P Q (recv g) h k = λ r. Always-weaken P Q (g r) (h r) k
Always-weaken P Q out_of_fuel h k = absurd h

-- The party's own state is as it was.
abbrev pub Same : {W A : Type 0} → W → W → Result ProtoError A → Type 0
Same w w' r = w ≡ w'

pub lift-Same : {W A : Type 0} (r : Result ProtoError A) (w : W) → Always (Same w) (lift r w)
unfolding lift
lift-Same r w = refl

pub send_frame-Same :
    {W : Type 0} (t : ℕ) (payload : Bytes) (w : W) → Always (Same w) (send_frame t payload w)
unfolding send_frame
send_frame-Same {W} t payload w =
    if_intro {A = Process W (Unit {0})} (Always (Same w)) (ltb max_frame_body (sealed_len payload))
      (λ _. refl) (λ _. refl)

pub expect_frame-Same : {W : Type 0} (t : ℕ) (w : W) → Always (Same w) (expect_frame t w)
unfolding expect_frame recv_frame of_type ◌>>=◌ bind pure fail
expect_frame-Same t w (err e) = refl
expect_frame-Same {W} t w (ok m) =
    if_intro {A = Session W Bytes} (λ s. Always (Same w) (s w)) (m.msg_type == t) (λ _. refl)
      (λ _. refl)
