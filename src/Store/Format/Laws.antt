-- ===== src/Store/Format/Laws.antt =====
-- The kinds and the header survive writing and parsing, and words survive their bytes.
use ferry.Prelude.{
  ℕ, zero, suc, ◌+◌, ◌*◌, ◌/◌, ◌%◌, ◌^◌, ◌<◌, ◌≡◌, refl, ap, some, [], ◌∷◌, Bytes, IsByte, All,
  length, ok, arith, ◌++◌,
}
use native.Mathlib.Nat.{pow-suc}
use ferry.Store.Format.{
  ContainerKind, pack_data, container_of_u8, container_to_u8, BlobKind, data_chunk, blob_of_u8,
  blob_to_u8, le_bytes, from_le_bytes, write_header, parse_header,
}

pub container_of_u8-container_to_u8 :
    (k : ContainerKind) → container_of_u8 (container_to_u8 k) ≡ some k
unfolding container_of_u8 container_to_u8
container_of_u8-container_to_u8 pack_data = refl
container_of_u8-container_to_u8 _ = refl

pub blob_of_u8-blob_to_u8 : (k : BlobKind) → blob_of_u8 (blob_to_u8 k) ≡ some k
unfolding blob_of_u8 blob_to_u8
blob_of_u8-blob_to_u8 data_chunk = refl
blob_of_u8-blob_to_u8 _ = refl

pub blob_of_u8-eq-some : (v : ℕ) {k : BlobKind} → blob_of_u8 v ≡ some k → v ≡ blob_to_u8 k
unfolding blob_of_u8 blob_to_u8
blob_of_u8-eq-some v h = ground arith

pub length-le_bytes : (k v : ℕ) → length (le_bytes k v) ≡ k
unfolding le_bytes
length-le_bytes zero v = refl
length-le_bytes (suc k) v = ap suc (length-le_bytes k (v / 256))

pub from_le_bytes-le_bytes : (k v : ℕ) → v < 256 ^ k → from_le_bytes (le_bytes k v) ≡ v
unfolding le_bytes from_le_bytes
from_le_bytes-le_bytes zero v h = omega arith
from_le_bytes-le_bytes (suc k) v h =
    omega (arith, from_le_bytes-le_bytes k (v / 256) (omega (arith, pow-suc 256 k)))

pub le_bytes-from_le_bytes :
    (bs : Bytes) → All IsByte bs → le_bytes (length bs) (from_le_bytes bs) ≡ bs
unfolding le_bytes from_le_bytes
le_bytes-from_le_bytes [] h = refl
le_bytes-from_le_bytes (b ∷ bs) h =
    let low : (b + 256 * from_le_bytes bs) % 256 ≡ b = omega arith in
    let high : (b + 256 * from_le_bytes bs) / 256 ≡ from_le_bytes bs = omega arith in
    rw (low, high, le_bytes-from_le_bytes bs h.1)

pub from_le_bytes-lt : (bs : Bytes) → All IsByte bs → from_le_bytes bs < 256 ^ length bs
unfolding from_le_bytes
from_le_bytes-lt [] h = omega arith
from_le_bytes-lt (b ∷ bs) h = omega (arith, pow-suc 256 (length bs), from_le_bytes-lt bs h.1)

-- A container's header is read back as its kind, whatever follows it.
pub parse_header-write_header :
    (k : ContainerKind) (more : Bytes) → parse_header (write_header k ++ more) ≡ ok k
unfolding parse_header write_header
parse_header-write_header pack_data more = ground arith
parse_header-write_header _ more = ground arith
