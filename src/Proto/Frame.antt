-- ===== src/Proto/Frame.antt =====
-- crates/ferry-proto/src/frame.rs: a body behind its big-endian length. What a `Read` will deliver
-- is a list of bytes; `read_exact` on too short a list is the i/o error of an early end.
use mathlib.Core.List.{reverse, reverse-reverse}
use ferry.Prelude.{
  ℕ, ◌*◌, ◌^◌, ◌≤◌, ◌<◌, ◌≡◌, refl, ◌∙◌, subst, ◌++◌, append_assoc, Bytes, length, take, drop,
  take-append, drop-append, length-append, ltb, lt→ltb, le→ltb, arith, if◌then◌else◌, Result, ok,
  err,
}
use ferry.Prelude.Results.{◌>>=◌}
use ferry.Store.Format.{le_bytes, from_le_bytes}
use ferry.Store.Format.Laws.{from_le_bytes-le_bytes}
use ferry.Proto.Error.{ProtoError, io_eof, frame_too_large}

abbrev pub max_frame_body : ℕ
max_frame_body = 64 * 1024 * 1024

-- `to_be_bytes` and `from_be_bytes`
unfoldable pub be_bytes : ℕ → ℕ → Bytes
be_bytes k v = reverse (le_bytes k v)

unfoldable pub from_be_bytes : Bytes → ℕ
from_be_bytes bs = from_le_bytes (reverse bs)

unfoldable pub read_exact : ℕ → Bytes → Result ProtoError (Bytes × Bytes)
read_exact n input = if ltb (length input) n then err io_eof else ok (take n input, drop n input)

-- The body, and what the reader has not consumed.
unfoldable pub read_body : Bytes → Result ProtoError (Bytes × Bytes)
read_body input = read_exact 4 input >>= λ p.
    let len = from_be_bytes p.0 in
    if ltb max_frame_body len then err (frame_too_large len max_frame_body) else read_exact len p.1

-- What is written to the writer.
unfoldable pub write_body : Bytes → Result ProtoError Bytes
write_body body =
    if ltb max_frame_body (length body)
    then err (frame_too_large (length body) max_frame_body)
    else ok (be_bytes 4 (length body) ++ body)

read_exact-append : (xs ys : Bytes) → read_exact (length xs) (xs ++ ys) ≡ ok (xs, ys)
unfolding read_exact
read_exact-append xs ys = rw (
  le→ltb (length (xs ++ ys)) (length xs) (omega (arith, length-append xs ys)),
  take-append,
  drop-append,
)

from_be_bytes-be_bytes : (v : ℕ) → v < 2 ^ 32 → from_be_bytes (be_bytes 4 v) ≡ v
unfolding from_be_bytes be_bytes
from_be_bytes-be_bytes v h = rw reverse-reverse (from_le_bytes-le_bytes 4 v h)

length-be_bytes : (v : ℕ) → length (be_bytes 4 v) ≡ 4
unfolding be_bytes le_bytes
length-be_bytes v = refl

read_length :
    (len : ℕ) (more : Bytes)
    → len < 2 ^ 32
    → read_body (be_bytes 4 len ++ more) ≡ (
        if ltb max_frame_body len
        then err (frame_too_large len max_frame_body)
        else read_exact len more)
unfolding read_body
read_length len more h =
    let header : read_exact 4 (be_bytes 4 len ++ more) ≡ ok (be_bytes 4 len, more) =
      subst (λ k. read_exact k (be_bytes 4 len ++ more) ≡ ok (be_bytes 4 len, more))
        (length-be_bytes len) (read_exact-append (be_bytes 4 len) more) in
    rw header (rw (from_be_bytes-be_bytes len h))

-- A body within the limit is written, and is read back with whatever follows it left unread.
pub read_body-write_body :
    (body more : Bytes)
    → length body ≤ max_frame_body
    → (frame : Bytes) × (write_body body ≡ ok frame) × (read_body (frame ++ more) ≡ ok (body, more))
unfolding write_body
read_body-write_body body more h = (
  be_bytes 4 (length body) ++ body,
  rw (le→ltb max_frame_body (length body) h),
  rw append_assoc (
      read_length (length body) (body ++ more) (omega (arith, h))
      ∙ rw (le→ltb max_frame_body (length body) h) (read_exact-append body more)),
)

-- A body over the limit is not written, and a frame that announces a length over the limit, in 32
-- bits, is refused with that length, whatever follows.
pub oversized_refused :
    (body more : Bytes) (len : ℕ)
    → max_frame_body < length body
    → max_frame_body < len
    → len < 2 ^ 32
    → (write_body body ≡ err (frame_too_large (length body) max_frame_body))
      × (read_body (be_bytes 4 len ++ more) ≡ err (frame_too_large len max_frame_body))
unfolding write_body
oversized_refused body more len hb hl fits = (
  rw (lt→ltb max_frame_body (length body) hb),
  read_length len more fits ∙ rw (lt→ltb max_frame_body len hl),
)
