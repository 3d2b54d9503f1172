-- ===== src/Proto/Wire.antt =====
-- crates/ferry-proto/src/codec.rs: the helpers of the message codecs, and `FrameBody`.
pub mod Laws
use Prim.Native.String.{String}
use ferry.Prelude.{ℕ, ◌≡◌, List, [], ◌∷◌, Bytes, IsByte, All, length, bytes_eq, not}
use ferry.Store.Format.{put_u8, put_u16, put_bytes, FormatError, from_le_bytes}
use ferry.Store.Reader.{Parser, ◌>>=◌, ◌>>◌, pure, fail_if, mapping, take_n, u8, rest}
use ferry.Proto.Error.{ProtoError, violation, bad}
use ferry.Proto.Version.{ProtocolVersion}

abbrev pub wire_magic : Bytes
wire_magic = b'F' ∷ b'R' ∷ b'W' ∷ b'1' ∷ []

-- `.map_err(|_| bad(why))`
abbrev pub or_bad : {A : Type 0} → String → Parser FormatError A → Parser ProtoError A
or_bad why = mapping (λ _. bad why)

-- An array of `n` bytes.
abbrev pub IsArray : ℕ → Bytes → Type 0
IsArray n v = (length v ≡ n) × All IsByte v

unfoldable pub rd_u16 : Parser ProtoError ℕ
rd_u16 = or_bad "truncated" (take_n 2) >>= λ b. pure (from_le_bytes b)

pub record FrameBody : Type 0 where
  pub msg_type : ℕ
  pub version : ProtocolVersion
  pub payload : Bytes

unfoldable pub frame_encode : FrameBody → Bytes
unfolding put_bytes put_u8 put_u16
frame_encode f =
    let out = put_bytes [] wire_magic in
    let out = put_u8 out f.msg_type in let out = put_u16 out f.version in put_bytes out f.payload

unfoldable pub frame_parse : Parser ProtoError FrameBody
unfolding rd_u16
frame_parse = do
  magic ← or_bad "truncated" (take_n 4)
  fail_if (not (bytes_eq magic wire_magic)) (bad "bad magic")
  msg_type ← or_bad "type" u8
  version ← rd_u16
  payload ← rest
  pure (record { msg_type = msg_type; version = version; payload = payload })
