-- ===== src/Sync/Plan/Paths.antt =====
-- The keys of the views are paths joined by separators, and a made directory's path is split from its key.
use ferry.Prelude.{
  ℕ, ◌≡◌, ◌≢◌, refl, ap, ◌∙◌, ◌==◌, [], ◌∷◌, ◌++◌, Bytes, All, arith, if◌then◌else◌,
}
use ferry.Store.Diff.{CompPath, join_path}
use ferry.Sync.Plan.Finish.{split_path}

-- A component that holds no separator.
abbrev pub IsComponent : Bytes → Type 0
IsComponent = All (λ c. c ≢ b'/')

-- What a character in front does to a key that is split into `part ∷ parts`.
abbrev in_front : ℕ → CompPath → CompPath
in_front c [] = []
in_front c (part ∷ parts) = if c == b'/' then [] ∷ part ∷ parts else (c ∷ part) ∷ parts

split_path_step : (c : ℕ) (key : Bytes) → split_path (c ∷ key) ≡ in_front c (split_path key)
unfolding split_path
split_path_step c key = go (split_path key)
  where
    go :
        (p : CompPath)
        → (elim p [
          | [] ↦ []
          | part ∷ parts ↦ if c == b'/' then [] ∷ part ∷ parts else (c ∷ part) ∷ parts
        ])
          ≡ in_front c p
    go [] = refl
    go (part ∷ parts) = refl

in_front_letter :
    (c : ℕ) (part : Bytes) (parts : CompPath)
    → c ≢ b'/'
    → in_front c (part ∷ parts) ≡ (c ∷ part) ∷ parts
in_front_letter c part parts h = ground arith

split_path-last : (c : Bytes) → IsComponent c → split_path c ≡ c ∷ []
unfolding split_path
split_path-last [] h = refl
split_path-last (x ∷ c) h =
    split_path_step x c ∙ ap (in_front x) (split_path-last c h.1) ∙ in_front_letter x c [] h.0

split_path-front :
    (c key part : Bytes) (parts : CompPath)
    → IsComponent c
    → split_path key ≡ part ∷ parts
    → split_path (c ++ (b'/' ∷ key)) ≡ c ∷ part ∷ parts
split_path-front [] key part parts h e = split_path_step b'/' key ∙ ap (in_front b'/') e
split_path-front (x ∷ c) key part parts h e =
    split_path_step x (c ++ (b'/' ∷ key))
    ∙ ap (in_front x) (split_path-front c key part parts h.1 e)
    ∙ in_front_letter x c (part ∷ parts) h.0

-- Splitting the key of a path gives the path back, where it has a component and no component holds a
-- separator.
pub split_path-join_path :
    (c : Bytes) (path : CompPath)
    → All IsComponent (c ∷ path)
    → split_path (join_path (c ∷ path)) ≡ c ∷ path
unfolding join_path
split_path-join_path c [] h = split_path-last c h.0
split_path-join_path c (d ∷ path) h =
    split_path-front c (join_path (d ∷ path)) d path h.0 (split_path-join_path d path h.1)
