-- ===== src/Store/Reader.antt =====
-- crates/ferry-store/src/format.rs: `Reader`, a cursor over a byte slice. `usize` has 64 bits.
-- A method takes the reader and returns its result with the moved reader; a chain of calls with
-- `?` is a `do` block of `Parser`s.
pub mod Laws
use ferry.Prelude.{
  ℕ, zero, suc, ◌+◌, ◌-◌, ◌^◌, Bool, true, false, Option, none, some, List, [], ◌∷◌, ◌++◌, Bytes,
  byte_at, length, take, drop, not, ltb, ◌==◌, if◌then◌else◌, Result, ok, err, map_err, ok_or,
}
use ferry.Prelude.Int.{ℤ, of_word}
use ferry.Store.Format.{FormatError, truncated, from_le_bytes}

pub record Reader : Type 0 where
  pub buf : Bytes
  pub pos : ℕ

abbrev pub new : Bytes → Reader
new buf = record { buf = buf; pos = 0 }

abbrev pub Parser : Type 0 → Type 0 → Type 0
Parser E A = Reader → Result E (A × Reader)

infixl 5 ◌>>=◌ ◌>>◌
unfoldable pub ◌>>=◌ : {E A B : Type 0} → Parser E A → (A → Parser E B) → Parser E B
◌>>=◌ p f r = elim (p r) [ ok (a, r') ↦ f a r' | err e ↦ err e ]

abbrev pub ◌>>◌ : {E B : Type 0} → Parser E (Unit {0}) → Parser E B → Parser E B
p >> q = p >>= λ _. q

unfoldable pub pure : {E A : Type 0} → A → Parser E A
pure a r = ok (a, r)

unfoldable pub fail : {E A : Type 0} → E → Parser E A
fail e r = err e

-- `o.ok_or(e)?`
unfoldable pub or_fail : {E A : Type 0} → Option A → E → Parser E A
or_fail (some a) e = pure a
or_fail none e = fail e

-- `if fails { return Err(e) }`
unfoldable pub fail_if : {E : Type 0} → Bool → E → Parser E (Unit {0})
fail_if true e = fail e
fail_if false e = pure tt

-- `.map_err(f)`
unfoldable pub mapping : {E F A : Type 0} → (E → F) → Parser E A → Parser F A
mapping f p r = map_err f (p r)

-- `for _ in 0..n { out.push(p?) }`
unfoldable pub times : {E A : Type 0} → ℕ → Parser E A → Parser E (List A)
unfolding ◌>>=◌ pure
times zero p = pure []
times (suc n) p = p >>= λ x. times n p >>= λ xs. pure (x ∷ xs)

-- A parser run on a whole slice.
abbrev pub run : {E A : Type 0} → Parser E A → Bytes → Result E A
run p bytes = elim (p (new bytes)) [ ok (a, r) ↦ ok a | err e ↦ err e ]

abbrev pub usize_limit : ℕ
usize_limit = 2 ^ 64

unfoldable pub take_n : ℕ → Parser FormatError Bytes
take_n n r =
    let end = r.pos + n in
    if not (ltb end usize_limit)
    then err (truncated (usize_limit - 1) (length r.buf))
    else if ltb (length r.buf) end
    then err (truncated end (length r.buf))
    else ok (take n (drop r.pos r.buf), record r { pos = end })

-- `take(1)?[0]`: the slice has one byte.
unfoldable pub u8 : Parser FormatError ℕ
unfolding ◌>>=◌ pure take_n
u8 = take_n 1 >>= λ s. pure (byte_at s 0)

unfoldable pub u32 : Parser FormatError ℕ
unfolding ◌>>=◌ pure take_n from_le_bytes
u32 = take_n 4 >>= λ s. pure (from_le_bytes s)

unfoldable pub u64 : Parser FormatError ℕ
unfolding ◌>>=◌ pure take_n from_le_bytes
u64 = take_n 8 >>= λ s. pure (from_le_bytes s)

unfoldable pub i64 : Parser FormatError ℤ
unfolding ◌>>=◌ pure take_n from_le_bytes
i64 = take_n 8 >>= λ s. pure (of_word (from_le_bytes s))

unfoldable pub array : ℕ → Parser FormatError Bytes
unfolding take_n
array n = take_n n

unfoldable pub rest : {E : Type 0} → Parser E Bytes
rest r = ok (drop r.pos r.buf, record r { pos = length r.buf })

unfoldable pub expect_end : Parser FormatError (Unit {0})
expect_end r =
    if not (r.pos == length r.buf) then err (truncated r.pos (length r.buf)) else ok (tt, r)
