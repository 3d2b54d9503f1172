-- ===== src/Proto/Version.antt =====
-- crates/ferry-proto/src/version.rs: a version is a `u16`, its major part in the high byte.
use ferry.Prelude.{
  ℕ, ◌+◌, ◌*◌, ◌/◌, ◌%◌, ◌≤◌, ◌<◌, ◌≡◌, ◌⊎◌, ◌↔◌, ◌==◌, leb, not, if◌then◌else◌, Result, ok, err,
  arith,
}
use ferry.Proto.Error.{ProtoError, incompatible}

abbrev pub ProtocolVersion : Type 0
ProtocolVersion = ℕ

-- `((major as u16) << 8) | minor`, the two bytes beside one another
unfoldable pub version_new : ℕ → ℕ → ProtocolVersion
version_new major minor = major * 256 + minor

unfoldable pub version_major : ProtocolVersion → ℕ
version_major v = v / 256 % 256

unfoldable pub version_minor : ProtocolVersion → ℕ
version_minor v = v % 256

unfoldable pub min_minor : ProtocolVersion → ProtocolVersion → ProtocolVersion
min_minor a b = if leb a b then a else b

unfoldable pub negotiate : ProtocolVersion → ProtocolVersion → Result ProtoError ProtocolVersion
unfolding version_major min_minor
negotiate ours theirs =
    if not (version_major ours == version_major theirs)
    then err (incompatible ours theirs)
    else ok (min_minor ours theirs)

-- For two `u16` versions negotiation succeeds exactly when the major parts agree, and then the
-- result has that major part and the smaller of the two minor parts.
pub negotiate_iff :
    (ours theirs v : ProtocolVersion)
    → ours < 65536
    → theirs < 65536
    → (negotiate ours theirs ≡ ok v) ↔ (
        (version_major ours ≡ version_major theirs)
        × (version_major v ≡ version_major ours)
        × (v < 65536)
        × (version_minor v ≤ version_minor ours)
        × (version_minor v ≤ version_minor theirs)
        × ((v ≡ ours) ⊎ (v ≡ theirs)))
unfolding negotiate version_minor
negotiate_iff ours theirs v ho ht = (λ h. ground arith, λ h. ground arith)

-- What one side of a session negotiates, the other side negotiates too.
pub negotiate_agree :
    (ours theirs v : ProtocolVersion) → negotiate ours theirs ≡ ok v → negotiate theirs ours ≡ ok v
unfolding negotiate
negotiate_agree ours theirs v h = ground arith

pub version_parts :
    (major minor : ℕ)
    → major < 256
    → minor < 256
    → (version_major (version_new major minor) ≡ major)
      × (version_minor (version_new major minor) ≡ minor)
unfolding version_major version_minor version_new
version_parts major minor hM hm = (omega arith, omega arith)
