-- ===== src/Sync/Gate.antt =====
-- crates/ferry-sync-engine/src/converge.rs: `gate_plan`, which takes the operations on held paths
-- out of a plan. The closure `holds` is an argument.
pub mod Laws
use ferry.Prelude.{
  ℕ, Bool, true, false, not, ◌&&◌, ◌||◌, Option, none, some, List, [], ◌∷◌, ◌++◌, map, Bytes, ◌==◌,
  bytes_eq, any, keep, Result, ok, err, if◌then◌else◌,
}
use ferry.Prelude.Maps.{add}
use ferry.Store.Manifest.{Chunk}
use ferry.Store.Diff.{EntryState, CompPath, join_path}
use ferry.Sync.Decide.{Side}
use ferry.Sync.Plan.{
  MaterializeOp, LoserContent, live_local, live_local_symlink, from_store, QuarantineOp,
  PlannedConflict, ActionPlan,
}

pub data HeldDecision : Type 0 where
  remote_apply remote_delete : HeldDecision
  held_conflict : (winner : Option Side) → HeldDecision

pub record HeldPath : Type 0 where
  pub path : Bytes
  pub decision : HeldDecision
  pub chunks : List Chunk

-- The error `StructuralSplit` of `ConvergenceError`.
pub record StructuralSplit : Type 0 where
  pub pinned : Bytes
  pub other : Bytes

-- `whole` continues `prefix` with a separator.
unfoldable pub nests : Bytes → Bytes → Bool
nests [] [] = false
nests [] (c ∷ whole) = c == b'/'
nests (p ∷ prefix) [] = false
nests (p ∷ prefix) (c ∷ whole) = p == c && nests prefix whole

abbrev pub add_all : List Bytes → List Bytes → List Bytes
add_all [] set = set
add_all (k ∷ ks) set = add_all ks (add k set)

-- The keys of the operations that are held, and of those that are not, in the plan's order.
unfoldable pub keys_where : (CompPath → Bool) → ActionPlan → List Bytes
keys_where p plan =
    map (λ op. join_path (MaterializeOp.path op))
      (keep (λ op. p (MaterializeOp.path op)) plan.materialize)
    ++ map (λ op. join_path (QuarantineOp.path op))
        (keep (λ op. p (QuarantineOp.path op)) plan.quarantine)
    ++ map (λ c. join_path (PlannedConflict.path c))
        (keep (λ c. p (PlannedConflict.path c)) plan.conflicts)

any_held : (CompPath → Bool) → ActionPlan → Bool
any_held holds plan =
    any (λ op. holds (MaterializeOp.path op)) plan.materialize
    || any (λ op. holds (QuarantineOp.path op)) plan.quarantine
    || any (λ c. holds (PlannedConflict.path c)) plan.conflicts

-- The two `for` loops over pairs of keys: the first pair that nests either way.
split_with : Bytes → List Bytes → Option StructuralSplit
split_with p [] = none
split_with p (q ∷ others) =
    if nests p q || nests q p then some (record { pinned = p; other = q }) else split_with p others

find_split : List Bytes → List Bytes → Option StructuralSplit
find_split [] others = none
find_split (p ∷ held) others = elim (split_with p others) [
  | some e ↦ some e
  | none ↦ find_split held others
]

-- `iter().find(..)`
find : {A : Type 0} → (A → Bool) → List A → Option A
find p [] = none
find p (x ∷ xs) = if p x then some x else find p xs

held_decision : Option PlannedConflict → Option MaterializeOp → HeldDecision
held_decision (some c) mat = held_conflict (some c.winner)
held_decision none none = held_conflict none
held_decision none (some m) = elim m.result [ some s ↦ remote_apply | none ↦ remote_delete ]

stored_chunks : LoserContent → List Chunk
stored_chunks (from_store kind exec sec nsec chunks target) = chunks
stored_chunks _ = []

quarantined_chunks : Option QuarantineOp → List Chunk
quarantined_chunks none = []
quarantined_chunks (some q) = stored_chunks q.content

held_chunks : Option MaterializeOp → Option QuarantineOp → List Chunk
held_chunks none qtn = quarantined_chunks qtn
held_chunks (some m) qtn = elim m.result [ some s ↦ s.chunks | none ↦ quarantined_chunks qtn ]

module _ (holds : CompPath → Bool) where
  -- The operation at `key` is one that is held.
  is_held_at : Bytes → CompPath → Bool
  is_held_at key path = holds path && bytes_eq (join_path path) key

  held_path : ActionPlan → Bytes → HeldPath
  held_path plan key =
      let mat = find (λ op. is_held_at key (MaterializeOp.path op)) plan.materialize in
      let qtn = find (λ op. is_held_at key (QuarantineOp.path op)) plan.quarantine in
      let con = find (λ c. is_held_at key (PlannedConflict.path c)) plan.conflicts in
      record { path = key; decision = held_decision con mat; chunks = held_chunks mat qtn }

  -- The plan without the operations on held paths; `send` and `fetch` stay whole.
  not_held : ActionPlan → ActionPlan
  not_held plan = record {
    materialize = keep (λ op. not (holds (MaterializeOp.path op))) plan.materialize;
    quarantine = keep (λ op. not (holds (QuarantineOp.path op))) plan.quarantine;
    send = plan.send;
    fetch = plan.fetch;
    conflicts = keep (λ c. not (holds (PlannedConflict.path c))) plan.conflicts;
    has_local_wins = plan.has_local_wins;
  }

  unfoldable pub gate_plan : ActionPlan → Result StructuralSplit (ActionPlan × List HeldPath)
  unfolding any_held find_split split_with find held_path is_held_at held_decision held_chunks
      quarantined_chunks stored_chunks not_held
  gate_plan plan =
      if not (any_held holds plan)
      then ok (plan, [])
      else let held_keys = add_all (keys_where holds plan) [] in
        elim (find_split held_keys (keys_where (λ path. not (holds path)) plan)) [
          | some e ↦ err e
          | none ↦ ok (not_held plan, map (held_path plan) held_keys)
        ]
