-- ===== src/Tests/Data.antt =====
-- What the tests share: a check of byte strings, and identifiers.
use ferry.Prelude.{ℕ, ◌≡◌, Bool, true, ◌&&◌, [], ◌∷◌, Bytes, IsByte, All, replicate, ltb, arith}

abbrev pub all_bytes : Bytes → Bool
all_bytes [] = true
all_bytes (b ∷ bs) = ltb b 256 && all_bytes bs

pub all_bytes_sound : (bs : Bytes) → all_bytes bs ≡ true → All IsByte bs
all_bytes_sound [] h = tt
all_bytes_sound (b ∷ bs) h = (ground arith, all_bytes_sound bs (ground arith))

-- An identifier of 32 bytes, and a folder's of 16.
abbrev pub id_of : ℕ → Bytes
id_of b = replicate 32 b

abbrev pub folder_of : ℕ → Bytes
folder_of b = replicate 16 b
