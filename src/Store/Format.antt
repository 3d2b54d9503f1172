-- ===== src/Store/Format.antt =====
-- crates/ferry-store/src/format.rs: container and blob kinds, the container header, and the
-- little-endian writers. A byte is a number below 256, a `Vec<u8>` or a slice a list of them.
pub mod Laws
use ferry.Prelude.{
  ℕ, zero, suc, ◌+◌, ◌*◌, ◌/◌, ◌%◌, Bool, true, false, Option, none, some, List, [], ◌∷◌, ◌++◌,
  Bytes, byte_at, bytes_eq, length, take, drop, not, ltb, ◌==◌, if◌then◌else◌, Result, ok, err,
  refuse,
}
use ferry.Prelude.Int.{ℤ, to_word, of_word}
use ferry.Prelude.Results.{◌>>=◌, ◌>>◌}

abbrev pub magic : Bytes
magic = b'F' ∷ b'E' ∷ b'R' ∷ b'R' ∷ b'Y' ∷ []

abbrev pub format_version : ℕ
format_version = 1

abbrev pub header_len : ℕ
header_len = 10

pub data ContainerKind : Type 0 where
  pack_data pack_meta index config_head : ContainerKind

unfoldable pub container_of_u8 : ℕ → Option ContainerKind
container_of_u8 v =
    if v == 1
    then some pack_data
    else if v == 2
    then some pack_meta
    else if v == 3
    then some index
    else if v == 4
    then some config_head
    else none

unfoldable pub container_to_u8 : ContainerKind → ℕ
container_to_u8 pack_data = 1
container_to_u8 pack_meta = 2
container_to_u8 index = 3
container_to_u8 config_head = 4

pub data BlobKind : Type 0 where
  data_chunk tree_node manifest polynomial : BlobKind

unfoldable pub blob_of_u8 : ℕ → Option BlobKind
blob_of_u8 v =
    if v == 1
    then some data_chunk
    else if v == 2
    then some tree_node
    else if v == 3
    then some manifest
    else if v == 4
    then some polynomial
    else none

unfoldable pub blob_to_u8 : BlobKind → ℕ
blob_to_u8 data_chunk = 1
blob_to_u8 tree_node = 2
blob_to_u8 manifest = 3
blob_to_u8 polynomial = 4

unfoldable pub is_meta : BlobKind → Bool
is_meta data_chunk = false
is_meta _ = true

-- `[u8; 32]`: the length is a condition of the theorems.
abbrev pub BlobId : Type 0
BlobId = Bytes

abbrev pub PackId : Type 0
PackId = Bytes

pub data FormatError : Type 0 where
  bad_magic : FormatError
  unknown_kind : ℕ → FormatError
  bad_version : ℕ → ℕ → FormatError
  truncated : (need have : ℕ) → FormatError
  reserved_nonzero : FormatError

-- `to_le_bytes` of a word of `k` bytes, and `from_le_bytes`.
unfoldable pub le_bytes : ℕ → ℕ → Bytes
le_bytes zero v = []
le_bytes (suc k) v = (v % 256) ∷ le_bytes k (v / 256)

unfoldable pub from_le_bytes : Bytes → ℕ
from_le_bytes [] = 0
from_le_bytes (b ∷ bs) = b + 256 * from_le_bytes bs

unfoldable pub write_header : ContainerKind → Bytes
unfolding container_to_u8 le_bytes
write_header kind = magic ++ (container_to_u8 kind ∷ le_bytes 4 format_version)

-- The length test makes `bytes[5]` and the slices in range.
unfoldable pub parse_header : Bytes → Result FormatError ContainerKind
unfolding bytes_eq container_of_u8 from_le_bytes
parse_header bytes = do
  refuse (ltb (length bytes) header_len) (truncated header_len (length bytes))
  refuse (not (bytes_eq (take 5 bytes) magic)) bad_magic
  kind ← elim (container_of_u8 (byte_at bytes 5)) [
    | some k ↦ ok k
    | none ↦ err (unknown_kind (byte_at bytes 5))
  ]
  let version = from_le_bytes (take 4 (drop 6 bytes))
  refuse (not (version == format_version)) (bad_version version format_version)
  ok kind

-- The writers append to `out`.
unfoldable pub put_u8 : Bytes → ℕ → Bytes
put_u8 out v = out ++ (v ∷ [])

unfoldable pub put_u16 : Bytes → ℕ → Bytes
put_u16 out v = out ++ le_bytes 2 v

unfoldable pub put_u32 : Bytes → ℕ → Bytes
put_u32 out v = out ++ le_bytes 4 v

unfoldable pub put_u64 : Bytes → ℕ → Bytes
put_u64 out v = out ++ le_bytes 8 v

unfoldable pub put_i64 : Bytes → ℤ → Bytes
put_i64 out v = out ++ le_bytes 8 (to_word v)

unfoldable pub put_bytes : Bytes → Bytes → Bytes
put_bytes out v = out ++ v
