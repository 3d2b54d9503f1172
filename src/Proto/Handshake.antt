-- ===== src/Proto/Handshake.antt =====
-- crates/ferry-proto/src/codec.rs: the messages of the handshake and the folder offer.
pub mod Laws
use ferry.Prelude.{
  ℕ, ◌<◌, ◌^◌, ◌≡◌, List, [], Bytes, length, not, ◌==◌, Result, ok, err, if◌then◌else◌,
}
use ferry.Store.Format.{BlobId, put_u16, put_u32, put_u64, put_bytes}
use ferry.Store.Reader.{Parser, ◌>>=◌, ◌>>◌, pure, fail_if, u32, u64, array, expect_end}
use ferry.Proto.Error.{ProtoError, bad}
use ferry.Proto.Version.{ProtocolVersion}
use ferry.Proto.Wire.{or_bad, rd_u16, IsArray}

pub record Hello : Type 0 where
  pub version : ProtocolVersion
  pub flags : ℕ
  pub eph_pub : Bytes
  pub stat_pub : Bytes
  pub nonce : Bytes

-- The fields hold what their Rust types can.
pub record IsHello (h : Hello) : Type 0 where
  pub version_fits : h.version < 2 ^ 16
  pub flags_fit : h.flags < 2 ^ 64
  pub eph_pub_array : IsArray 32 h.eph_pub
  pub stat_pub_array : IsArray 32 h.stat_pub
  pub nonce_array : IsArray 32 h.nonce

unfoldable pub hello_encode : Hello → Bytes
unfolding put_u16 put_u64 put_bytes
hello_encode h =
    let out = put_u16 [] h.version in
    let out = put_u64 out h.flags in
    let out = put_bytes out h.eph_pub in let out = put_bytes out h.stat_pub in put_bytes out h.nonce

unfoldable pub hello_parse : Parser ProtoError Hello
hello_parse = do
  version ← rd_u16
  flags ← or_bad "hello short" u64
  eph_pub ← or_bad "hello short" (array 32)
  stat_pub ← or_bad "hello short" (array 32)
  nonce ← or_bad "hello short" (array 32)
  or_bad "hello trailing" expect_end
  pure (record {
    version = version;
    flags = flags;
    eph_pub = eph_pub;
    stat_pub = stat_pub;
    nonce = nonce;
  })

pub record HelloAck : Type 0 where
  pub version : ProtocolVersion
  pub agreed : ProtocolVersion
  pub flags : ℕ
  pub eph_pub : Bytes
  pub stat_pub : Bytes
  pub nonce : Bytes

pub record IsHelloAck (h : HelloAck) : Type 0 where
  pub version_fits : h.version < 2 ^ 16
  pub agreed_fits : h.agreed < 2 ^ 16
  pub flags_fit : h.flags < 2 ^ 64
  pub eph_pub_array : IsArray 32 h.eph_pub
  pub stat_pub_array : IsArray 32 h.stat_pub
  pub nonce_array : IsArray 32 h.nonce

unfoldable pub hello_ack_encode : HelloAck → Bytes
unfolding put_u16 put_u64 put_bytes
hello_ack_encode h =
    let out = put_u16 [] h.version in
    let out = put_u16 out h.agreed in
    let out = put_u64 out h.flags in
    let out = put_bytes out h.eph_pub in let out = put_bytes out h.stat_pub in put_bytes out h.nonce

unfoldable pub hello_ack_parse : Parser ProtoError HelloAck
hello_ack_parse = do
  version ← rd_u16
  agreed ← rd_u16
  flags ← or_bad "ack short" u64
  eph_pub ← or_bad "ack short" (array 32)
  stat_pub ← or_bad "ack short" (array 32)
  nonce ← or_bad "ack short" (array 32)
  or_bad "ack trailing" expect_end
  pure (record {
    version = version;
    agreed = agreed;
    flags = flags;
    eph_pub = eph_pub;
    stat_pub = stat_pub;
    nonce = nonce;
  })

-- `AuthProof::new`, which `parse` calls on the payload: the ciphertext is the whole message.
unfoldable pub auth_proof_new : Bytes → Result ProtoError Bytes
auth_proof_new ciphertext =
    if not (length ciphertext == 48) then err (bad "auth proof length") else ok ciphertext

pub record FolderOffer : Type 0 where
  pub folder_id : Bytes
  pub manifest_id : BlobId
  pub reserved : ℕ

-- What an offer on the wire can be: `parse` wants the reserved word to be 0.
pub record IsFolderOffer (o : FolderOffer) : Type 0 where
  pub folder_id_array : IsArray 16 o.folder_id
  pub manifest_id_array : IsArray 32 o.manifest_id
  pub reserved_zero : o.reserved ≡ 0

unfoldable pub folder_offer_encode : FolderOffer → Bytes
unfolding put_u32 put_bytes
folder_offer_encode o =
    let out = put_bytes [] o.folder_id in
    let out = put_bytes out o.manifest_id in put_u32 out o.reserved

unfoldable pub folder_offer_parse : Parser ProtoError FolderOffer
folder_offer_parse = do
  folder_id ← or_bad "offer short" (array 16)
  manifest_id ← or_bad "offer short" (array 32)
  reserved ← or_bad "offer short" u32
  or_bad "offer trailing" expect_end
  fail_if (not (reserved == 0)) (bad "offer reserved nonzero")
  pure (record { folder_id = folder_id; manifest_id = manifest_id; reserved = reserved })
