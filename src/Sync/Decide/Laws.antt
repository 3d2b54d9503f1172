-- ===== src/Sync/Decide/Laws.antt =====
-- The decision is a three-way merge, and the two devices take the same one.
use ferry.Prelude.{
  ◌≡◌, ◌≢◌, ◌⊎◌, ◌∙◌, refl, sym, ap, inl, inr, Bool, true, false, not, Option, none, some, [],
  Bytes, bytes_lt, bytes_lt_asymm, bytes_lt_total, Bool-cases, arith,
}
use ferry.Prelude.Int.{ℤ, pos, negsuc, int_eq, int_lt}
use ferry.Store.Diff.{EntryKind, a_dir, EntryState, kind_eq, chunks_eq, target_eq, option_state_eq}
use ferry.Store.Diff.States.{kind_eq_iff, chunks_eq_iff, target_eq_iff, option_state_eq_iff}
use ferry.Sync.Decide.{
  Side, local, remote, delete_vs_edit, Decision, nothing, apply_remote, keep_local, conflict,
  same_content, mtime_eq, mtime_gt, pick_winner, is_dir, decide_changed, decide, settled,
}

abbrev pub other : Side → Side
other local = remote
other remote = local

-- The decision as the other device sees it.
abbrev pub mirror : Decision → Decision
mirror nothing = nothing
mirror keep_local = apply_remote
mirror apply_remote = keep_local
mirror (conflict kind winner) = conflict kind (other winner)

int_order :
    (a b : ℤ)
    → (int_eq a b ≡ int_eq b a)
      × (int_eq a b ≡ false → int_lt a b ≡ not (int_lt b a))
      × (int_eq a b ≡ true → int_lt a b ≡ false)
int_order (pos a) (pos b) = ground arith
int_order (pos a) (negsuc b) = ground arith
int_order (negsuc a) (pos b) = ground arith
int_order (negsuc a) (negsuc b) = ground arith

mtime_order :
    (l r : EntryState)
    → (mtime_eq l r ≡ mtime_eq r l) × (mtime_eq l r ≡ false → mtime_gt l r ≡ not (mtime_gt r l))
unfolding mtime_eq mtime_gt
mtime_order l r = (
  ground (arith, int_order l.mtime_sec r.mtime_sec),
  λ h. ground (arith, int_order l.mtime_sec r.mtime_sec, int_order r.mtime_sec l.mtime_sec),
)

device_order : (a b : Bytes) → a ≢ b → bytes_lt a b ≡ not (bytes_lt b a)
device_order a b ne = elim (Bool-cases (bytes_lt a b)) [
  | inl less ↦ rw (less, bytes_lt_asymm b a less)
  | inr more ↦ elim (Bool-cases (bytes_lt b a)) [
    | inl less ↦ rw (more, less)
    | inr more' ↦ absurd (ne (bytes_lt_total a b more more'))
  ]
]

-- Two devices with different identities name the same winner, each from its own side.
pub pick_winner_mirror :
    (l r : EntryState) (dl dr : Bytes)
    → dl ≢ dr
    → pick_winner r l dr dl ≡ other (pick_winner l r dl dr)
unfolding pick_winner
pick_winner_mirror l r dl dr ne = ground (arith, mtime_order l r, device_order dl dr ne)

kind_eq_comm : (a b : EntryKind) → kind_eq a b ≡ kind_eq b a
unfolding kind_eq
kind_eq_comm a b = ground arith

Bool_same : (a b : Bool) → (a ≡ true → b ≡ true) → (b ≡ true → a ≡ true) → a ≡ b
Bool_same a b f g = ground arith

same_content_comm : (l r : EntryState) → same_content l r ≡ same_content r l
unfolding same_content
same_content_comm l r = ground (
  arith,
  kind_eq_comm l.kind r.kind,
  kind_eq_iff l.kind r.kind,
  Bool_same (chunks_eq l.chunks r.chunks) (chunks_eq r.chunks l.chunks)
      (λ h. (chunks_eq_iff r.chunks l.chunks).1 (sym ((chunks_eq_iff l.chunks r.chunks).0 h)))
      (λ h. (chunks_eq_iff l.chunks r.chunks).1 (sym ((chunks_eq_iff r.chunks l.chunks).0 h))),
  Bool_same (target_eq l.target r.target) (target_eq r.target l.target)
      (λ h. (target_eq_iff r.target l.target).1 (sym ((target_eq_iff l.target r.target).0 h)))
      (λ h. (target_eq_iff l.target r.target).1 (sym ((target_eq_iff r.target l.target).0 h))),
)

option_state_eq_comm : (a b : Option EntryState) → option_state_eq a b ≡ option_state_eq b a
option_state_eq_comm a b =
    Bool_same (option_state_eq a b) (option_state_eq b a)
      (λ h. (option_state_eq_iff b a).1 (sym ((option_state_eq_iff a b).0 h)))
      (λ h. (option_state_eq_iff a b).1 (sym ((option_state_eq_iff b a).0 h)))

decide_changed-mirror :
    (b l r : Option EntryState) (dl dr : Bytes)
    → dl ≢ dr
    → l ≢ r
    → decide_changed b r l dr dl ≡ mirror (decide_changed b l r dl dr)
unfolding decide_changed
decide_changed-mirror b (some ls) (some rs) dl dr ne d =
    ground (arith, same_content_comm ls rs, pick_winner_mirror ls rs dl dr ne)
decide_changed-mirror b (some ls) none dl dr ne d = refl
decide_changed-mirror b none (some rs) dl dr ne d = refl
decide_changed-mirror b none none dl dr ne d = absurd (d refl)

-- From the same three states, two devices with different identities come to the same decision:
-- each applies where the other keeps, and a conflict has the same kind and the same winner.
pub decide-mirror :
    (b l r : Option EntryState) (dl dr : Bytes)
    → dl ≢ dr
    → decide b r l dr dl ≡ mirror (decide b l r dl dr)
unfolding decide
decide-mirror b l r dl dr ne = elim (Bool-cases (option_state_eq l r)) [
  | inl same ↦
      let e : l ≡ r = (option_state_eq_iff l r).0 same in ground (arith, option_state_eq_comm l r)
  | inr differ ↦ ground (
    arith,
    option_state_eq_comm l r,
    decide_changed-mirror b l r dl dr ne (λ e. cc ((option_state_eq_iff l r).1 e)),
  )
]

-- A directory has no chunks, as `EntryState::of` makes it.
abbrev pub IsPlain : Option EntryState → Type 0
IsPlain none = Unit {0}
IsPlain (some s) = s.kind ≡ a_dir → s.chunks ≡ []

dirs_same_content :
    (l r : EntryState)
    → is_dir l.kind ≡ true
    → is_dir r.kind ≡ true
    → IsPlain (some l)
    → IsPlain (some r)
    → same_content l r ≡ true
unfolding same_content is_dir kind_eq
dirs_same_content l r dl dr pl pr = ground (arith, pl, pr, (chunks_eq_iff l.chunks r.chunks).1)

changed_nothing :
    (b l r : Option EntryState) (dl dr : Bytes)
    → IsPlain l
    → IsPlain r
    → decide_changed b l r dl dr ≢ nothing
unfolding decide_changed
changed_nothing b (some ls) (some rs) dl dr pl pr h = ground (arith, dirs_same_content ls rs)
changed_nothing b (some ls) none dl dr pl pr h = cc
changed_nothing b none r dl dr pl pr h = cc

decide_nothing :
    (b l r : Option EntryState) (dl dr : Bytes)
    → IsPlain l
    → IsPlain r
    → decide b l r dl dr ≡ nothing
    → l ≡ r
unfolding decide
decide_nothing b l r dl dr pl pr h = ground (
  arith,
  option_state_eq_iff l b,
  option_state_eq_iff r b,
  option_state_eq_iff l r,
  changed_nothing b l r dl dr pl pr,
)

settled-mirror :
    (d : Decision) (l r : Option EntryState)
    → (d ≡ nothing → l ≡ r)
    → settled (mirror d) r l ≡ settled d l r
unfolding settled
settled-mirror nothing l r h = sym (h refl)
settled-mirror keep_local l r h = refl
settled-mirror apply_remote l r h = refl
settled-mirror (conflict kind local) l r h = refl
settled-mirror (conflict kind remote) l r h = refl

-- Two devices with different identities, each deciding from its own side, end with the same state
-- of a path, whatever the base and the two states were, as long as a directory's state has no
-- chunks.
pub settled_agree :
    (b l r : Option EntryState) (dl dr : Bytes)
    → dl ≢ dr
    → IsPlain l
    → IsPlain r
    → settled (decide b r l dr dl) r l ≡ settled (decide b l r dl dr) l r
settled_agree b l r dl dr ne pl pr =
    ap (λ d. settled d r l) (decide-mirror b l r dl dr ne)
    ∙ settled-mirror (decide b l r dl dr) l r (decide_nothing b l r dl dr pl pr)

-- A decision is a three-way merge: where one side is as in the base the path takes the other
-- side's state, deletions included, and where both sides are alike it keeps that state.
pub settled_three_way :
    (b l r : Option EntryState) (dl dr : Bytes)
    → (r ≡ b → settled (decide b l r dl dr) l r ≡ l)
      × (l ≡ b → settled (decide b l r dl dr) l r ≡ r)
      × (l ≡ r → settled (decide b l r dl dr) l r ≡ l)
unfolding decide settled
settled_three_way b l r dl dr = (
  λ h. ground (arith, option_state_eq_iff l b, option_state_eq_iff r b, option_state_eq_iff l r),
  λ h. ground (arith, option_state_eq_iff l b, option_state_eq_iff r b, option_state_eq_iff l r),
  λ h. ground (arith, option_state_eq_iff l b, option_state_eq_iff r b, option_state_eq_iff l r),
)

-- Where a path was in the base, a side that changed it wins over a side that deleted it, whatever
-- the times, and the conflict is of the kind `delete_vs_edit`.
pub edit_beats_delete :
    (b : Option EntryState) (s : EntryState) (dl dr : Bytes)
    → b ≢ none
    → b ≢ some s
    → (decide b (some s) none dl dr ≡ conflict delete_vs_edit local)
      × (decide b none (some s) dl dr ≡ conflict delete_vs_edit remote)
unfolding decide decide_changed
edit_beats_delete b s dl dr present edited = ground (
  arith,
  option_state_eq_iff (some s) b,
  option_state_eq_iff none b,
  option_state_eq_iff none (some s),
  option_state_eq_iff (some s) none,
)

-- For two devices with different identities: the side that wins has the later modification time,
-- or the times are equal and it is that of the greater device.
pub pick_winner_latest :
    (l r : EntryState) (dl dr : Bytes)
    → dl ≢ dr
    → (pick_winner l r dl dr ≡ local
        → (mtime_gt l r ≡ true) ⊎ ((mtime_eq l r ≡ true) × (bytes_lt dr dl ≡ true)))
      × (pick_winner l r dl dr ≡ remote
          → (mtime_gt r l ≡ true) ⊎ ((mtime_eq l r ≡ true) × (bytes_lt dl dr ≡ true)))
unfolding pick_winner
pick_winner_latest l r dl dr ne = (
  λ h. ground arith,
  λ h. ground (arith, mtime_order l r, mtime_order r l, device_order dl dr ne),
)
