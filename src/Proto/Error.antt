-- ===== src/Proto/Error.antt =====
-- crates/ferry-proto/src/error.rs: the reasons of a BYE, and the errors of a session.
use Prim.Native.String.{String}
use ferry.Prelude.{ℕ, Bytes, Option, none, some, ◌==◌, if◌then◌else◌, ◌≡◌, refl, arith}
use ferry.Store.Format.{BlobKind}

pub data ByeReason : Type 0 where
  normal version_incompatible protocol_violation auth_failed resource_limit internal : ByeReason

-- `self.reason as u8`
unfoldable pub bye_to_u8 : ByeReason → ℕ
bye_to_u8 normal = 0
bye_to_u8 version_incompatible = 1
bye_to_u8 protocol_violation = 2
bye_to_u8 auth_failed = 3
bye_to_u8 resource_limit = 4
bye_to_u8 internal = 5

unfoldable pub bye_of_u8 : ℕ → Option ByeReason
bye_of_u8 v =
    if v == 0
    then some normal
    else if v == 1
    then some version_incompatible
    else if v == 2
    then some protocol_violation
    else if v == 3
    then some auth_failed
    else if v == 4
    then some resource_limit
    else if v == 5
    then some internal
    else none

pub bye_of_u8-bye_to_u8 : (b : ByeReason) → bye_of_u8 (bye_to_u8 b) ≡ some b
unfolding bye_of_u8 bye_to_u8
bye_of_u8-bye_to_u8 normal = refl
bye_of_u8-bye_to_u8 _ = refl

pub bye_of_u8-eq-some : (v : ℕ) {b : ByeReason} → bye_of_u8 v ≡ some b → v ≡ bye_to_u8 b
unfolding bye_of_u8 bye_to_u8
bye_of_u8-eq-some v h = ground arith

-- `Io` is an end of the stream or any other failure; `budget_exceeded` is `ResourceLimit`.
pub data ProtoError : Type 0 where
  io_eof : ProtoError
  io_other : ProtoError
  incompatible : (ours theirs : ℕ) → ProtoError
  violation : String → ProtoError
  unknown_message : (msg_type : ℕ) → ProtoError
  frame_too_large : (len max : ℕ) → ProtoError
  auth : String → ProtoError
  identity_mismatch : (expected got : Bytes) → ProtoError
  corrupt_blob : BlobKind → (id : Bytes) → (why : String) → ProtoError
  missing_items : ℕ → ProtoError
  bye_received : ByeReason → ProtoError
  counter_exhausted : ProtoError
  folder_unknown : (folder : Bytes) → ProtoError
  budget_exceeded : (what : String) → (limit : ℕ) → ProtoError

-- `bad` of codec.rs
abbrev pub bad : String → ProtoError
bad why = violation why
