-- ===== src/Prelude/Utf8.antt =====
-- Rust's `std::str::from_utf8` as a test: the well-formed UTF-8 of the Unicode standard.
use ferry.Prelude.Tests.{ltb, leb, ◌==◌, if◌then◌else◌}
use Prim.Native.Nat.{ℕ}
use mathlib.Core.Bool.{Bool, true, false, ◌&&◌}
use mathlib.Core.Option.{Option, none, some}
use mathlib.Core.List.{List, [], ◌∷◌}

-- The ranges of the bytes that must follow a first byte.
utf8_follow : ℕ → Option (List (ℕ × ℕ))
utf8_follow b =
    let any : ℕ × ℕ = (0x80, 0xbf) in
    if ltb b 0x80
    then some []
    else if ltb b 0xc2
    then none
    else if leb b 0xdf
    then some (any ∷ [])
    else if b == 0xe0
    then some ((0xa0, 0xbf) ∷ any ∷ [])
    else if b == 0xed
    then some ((0x80, 0x9f) ∷ any ∷ [])
    else if leb b 0xef
    then some (any ∷ any ∷ [])
    else if b == 0xf0
    then some ((0x90, 0xbf) ∷ any ∷ any ∷ [])
    else if leb b 0xf3
    then some (any ∷ any ∷ any ∷ [])
    else if b == 0xf4
    then some ((0x80, 0x8f) ∷ any ∷ any ∷ [])
    else none

utf8_from : List (ℕ × ℕ) → List ℕ → Bool
utf8_from [] [] = true
utf8_from (p ∷ ps) [] = false
utf8_from ((lo, hi) ∷ ps) (b ∷ bs) = leb lo b && leb b hi && utf8_from ps bs
utf8_from [] (b ∷ bs) = elim (utf8_follow b) [ none ↦ false | some ps ↦ utf8_from ps bs ]

unfoldable pub is_utf8 : List ℕ → Bool
unfolding utf8_from utf8_follow
is_utf8 = utf8_from []
