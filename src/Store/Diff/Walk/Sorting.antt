-- ===== src/Store/Diff/Walk/Sorting.antt =====
-- `sort_all` only moves changes: what holds of all of them still does.
use ferry.Prelude.{if_intro, List, [], ◌∷◌, All}
use ferry.Store.Diff.{CompPath}
use ferry.Store.Diff.Walk.{path_lt, insert_by_path, sort_onto, sort_by_path}

module _ {A : Type 0} (path_of : A → CompPath) (P : A → Type 0) where
  insert_by_path-All : (a : A) (bs : List A) → P a → All P bs → All P (insert_by_path path_of a bs)
  unfolding insert_by_path
  insert_by_path-All a [] p ps = (p, tt)
  insert_by_path-All a (b ∷ bs) p ps =
      if_intro (All P) (path_lt (path_of a) (path_of b)) (λ h. (p, ps))
        (λ h. (ps.0, insert_by_path-All a bs p ps.1))

  sort_onto-All :
      (items sorted : List A) → All P items → All P sorted → All P (sort_onto path_of items sorted)
  unfolding sort_onto
  sort_onto-All [] sorted ps qs = qs
  sort_onto-All (a ∷ more) sorted ps qs =
      sort_onto-All more (insert_by_path path_of a sorted) ps.1
        (insert_by_path-All a sorted ps.0 qs)

  pub sort_by_path-All : (items : List A) → All P items → All P (sort_by_path path_of items)
  unfolding sort_by_path
  sort_by_path-All items ps = sort_onto-All items [] ps tt
