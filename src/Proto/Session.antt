-- ===== src/Proto/Session.antt =====
-- crates/ferry-proto/src/secure.rs and codec.rs: a session over a channel of frames. A party is a
-- tree of what it sends and of what it does with each frame it can receive; `Session W A` is code
-- that reads and changes the party's own state `W` (its stores) on the way. Of a frame the type and
-- the payload are kept: the version is the session's, and of the seal only its length counts.
pub mod Run
pub mod Always
pub mod Meet
use Prim.Native.Nat.{bit_and}
use Prim.Native.String.{String}
use ferry.Prelude.{
  ℕ, ◌+◌, ◌-◌, ◌^◌, length, Bool, true, false, not, ◌&&◌, Option, none, some, List, [], ◌∷◌, any,
  Bytes, ltb, ◌==◌, if◌then◌else◌, Result, ok, err,
}
use ferry.Store.Reader.{run}
use ferry.Proto.Frame.{max_frame_body}
use ferry.Proto.Error.{
  ProtoError, violation, frame_too_large, unknown_message, bye_received, ByeReason, normal,
}
use ferry.Proto.Transfer.{bye_parse}
use ferry.Proto.Version.{ProtocolVersion, version_new, version_major, version_minor}

abbrev pub msg_folder_offer : ℕ
msg_folder_offer = 5

abbrev pub msg_index_advert : ℕ
msg_index_advert = 6

abbrev pub msg_request_items : ℕ
msg_request_items = 7

abbrev pub msg_request_packs : ℕ
msg_request_packs = 8

abbrev pub msg_item_batch : ℕ
msg_item_batch = 9

abbrev pub msg_pack_item : ℕ
msg_pack_item = 10

abbrev pub msg_bye : ℕ
msg_bye = 11

-- The four types of the handshake are 1 to 4.
abbrev pub known_types : List ℕ
known_types = 1 ∷ 2 ∷ 3 ∷ 4 ∷ 5 ∷ 6 ∷ 7 ∷ 8 ∷ 9 ∷ 10 ∷ 11 ∷ []

pub record Message : Type 0 where
  pub msg_type : ℕ
  pub payload : Bytes

-- What the session knows of its peer.
pub record Peer : Type 0 where
  pub max : ProtocolVersion
  pub flags : ℕ

abbrev v1_0 : ProtocolVersion
v1_0 = version_new 1 0

unfoldable pub is_known : ℕ → Bool
is_known t = any (λ k. k == t) known_types

-- `higher && flagged`: the peer speaks a later minor version and says that it uses extensions.
unfoldable pub extended : Peer → Bool
unfolding version_major version_minor version_new
extended peer =
    let higher =
      version_major peer.max == version_major v1_0
      && ltb (version_minor v1_0) (version_minor peer.max) in
    let flagged = not (bit_and peer.flags (2 ^ 64 - 2) == 0) in higher && flagged

-- What `recv_frame` does with a frame: `none` is its `continue`.
unfoldable pub verdict : Peer → Message → Option (Result ProtoError Message)
unfolding is_known extended
verdict peer m =
    if not (is_known m.msg_type)
    then if extended peer then none else some (err (unknown_message m.msg_type))
    else some (ok m)

-- `out_of_fuel` is the end of a loop's fuel, and no result.
pub data Process (W A : Type 0) : Type 0 where
  done : W → Result ProtoError A → Process W A
  send : Message → Process W A → Process W A
  recv : (Result ProtoError Message → Process W A) → Process W A
  out_of_fuel : Process W A

unfoldable pub bind : {W A B : Type 0} → Process W A → (W → A → Process W B) → Process W B
bind (done w (ok a)) f = f w a
bind (done w (err e)) f = done w (err e)
bind (send m p) f = send m (bind p f)
bind (recv k) f = recv (λ r. bind (k r) f)
bind out_of_fuel f = out_of_fuel

abbrev pub Session : Type 0 → Type 0 → Type 0
Session W A = W → Process W A

-- The body that `write_body` is given: the four bytes of the magic, the type, the version, the payload,
-- and the tag of the seal, which the default of `EngineConfig` asks for.
unfoldable pub sealed_len : Bytes → ℕ
sealed_len payload = 4 + 1 + 2 + length payload + 16

abbrev pub unexpected : ProtoError
unexpected = violation "unexpected message in this state"

module _ {W : Type 0} where
  infixl 5 ◌>>=◌ ◌>>◌
  unfoldable pub ◌>>=◌ : {A B : Type 0} → Session W A → (A → Session W B) → Session W B
  unfolding bind
  ◌>>=◌ s f w = bind (s w) (λ w' a. f a w')

  unfoldable pub ◌>>◌ : {B : Type 0} → Session W (Unit {0}) → Session W B → Session W B
  unfolding ◌>>=◌
  s >> t = s >>= λ _. t

  unfoldable pub pure : {A : Type 0} → A → Session W A
  pure a w = done w (ok a)

  unfoldable pub fail : {A : Type 0} → ProtoError → Session W A
  fail e w = done w (err e)

  unfoldable pub lift : {A : Type 0} → Result ProtoError A → Session W A
  lift r w = done w r

  unfoldable pub exhausted : {A : Type 0} → Session W A
  exhausted w = out_of_fuel

  unfoldable pub send_frame : ℕ → Bytes → Session W (Unit {0})
  unfolding sealed_len
  send_frame t payload w =
      if ltb max_frame_body (sealed_len payload)
      then done w (err (frame_too_large (sealed_len payload) max_frame_body))
      else send (record { msg_type = t; payload = payload }) (done w (ok tt))

  unfoldable pub recv_frame : Session W Message
  recv_frame w = recv (λ r. done w r)

  -- `Some(fb) if fb.msg_type == msg_type`
  unfoldable pub of_type : ℕ → Message → Session W Bytes
  unfolding pure fail
  of_type t m = if m.msg_type == t then pure m.payload else fail unexpected

  -- The frame's payload; its type is the one asked for.
  unfoldable pub expect_frame : ℕ → Session W Bytes
  unfolding ◌>>=◌ recv_frame of_type
  expect_frame t = recv_frame >>= of_type t

  unfoldable pub of_types : List ℕ → Message → Session W Message
  unfolding pure fail
  of_types ts m = if any (λ t. t == m.msg_type) ts then pure m else fail unexpected

  unfoldable pub expect_frame_any : List ℕ → Session W Message
  unfolding ◌>>=◌ recv_frame of_types
  expect_frame_any ts = recv_frame >>= of_types ts

  unfoldable pub of_reason : ByeReason → Session W (Unit {0})
  unfolding pure fail
  of_reason normal = pure tt
  of_reason other = fail (bye_received other)

  unfoldable pub recv_expect_bye : Session W (Unit {0})
  unfolding ◌>>=◌ expect_frame lift of_reason
  recv_expect_bye = do
    payload ← expect_frame msg_bye
    reason ← lift (run bye_parse payload)
    of_reason reason
