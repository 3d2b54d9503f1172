-- ===== src/Store/Manifest/Validity.antt =====
-- What `validate_entries` admits: names in strictly ascending byte order, each entry valid.
use ferry.Prelude.{
  ◌≤◌, ◌≡◌, ◌↔◌, refl, ap, ◌∙◌, Bool, true, false, List, [], ◌∷◌, Bytes, All, bytes_lt,
  bytes_eq_iff, bytes_lt_asymm, ltb, le→ltb, ltb-false, Bool-cases, inl, inr, ok, refuse, arith,
}
use ferry.Prelude.Results.{◌>>◌, >>_iff, refuse_iff}
use ferry.Store.Manifest.{
  nsec_out_of_range, EntryPayload, file, dir, symlink, TreeEntry, chunk_sum, is_bad_name,
  insert_by_name, sort_by_name, check_order, validate_name, validate_target, validate_payload,
  validate_entry, validate_each, validate_entries,
}

-- Each name is smaller than the next, so that no two are equal.
abbrev pub IsSorted : List TreeEntry → Type 0
IsSorted [] = Unit {0}
IsSorted (e ∷ []) = Unit {0}
IsSorted (e ∷ f ∷ es) = (bytes_lt e.name f.name ≡ true) × IsSorted (f ∷ es)

check_order_iff : (es : List TreeEntry) → (check_order es ≡ ok tt) ↔ IsSorted es
unfolding check_order
check_order_iff [] = (λ _. tt, λ _. refl)
check_order_iff (e ∷ []) = (λ _. tt, λ _. refl)
check_order_iff (e ∷ f ∷ es) = elim (Bool-cases (bytes_lt e.name f.name)) [
  | inl less ↦
      rw less (λ h. (refl, (check_order_iff (f ∷ es)).0 h), λ h. (check_order_iff (f ∷ es)).1 h.1)
  | inr more ↦ rw more (λ h. absurd (ground arith), λ h. absurd (cc (h.0)))
]

pub insert_by_name_head :
    (e : TreeEntry) (es : List TreeEntry) → IsSorted (e ∷ es) → insert_by_name e es ≡ e ∷ es
unfolding insert_by_name
insert_by_name_head e [] s = refl
insert_by_name_head e (f ∷ fs) s = rw (bytes_lt_asymm f.name e.name s.0)

-- Sorting leaves sorted entries as they are.
pub sort_by_name_sorted : (es : List TreeEntry) → IsSorted es → sort_by_name es ≡ es
unfolding sort_by_name
sort_by_name_sorted [] s = refl
sort_by_name_sorted (e ∷ []) s = refl
sort_by_name_sorted (e ∷ f ∷ es) s =
    ap (insert_by_name e) (sort_by_name_sorted (f ∷ es) s.1) ∙ insert_by_name_head e (f ∷ es) s

module _ (nfc : Bytes → Bytes) where
  abbrev pub IsValidPayload : Bool → EntryPayload → Type 0
  IsValidPayload exec (file size chunks) = size ≡ chunk_sum chunks
  IsValidPayload exec (dir child) = exec ≡ false
  IsValidPayload exec (symlink target) = nfc target ≡ target

  pub record IsValid (e : TreeEntry) : Type 0 where
    pub name_good : is_bad_name e.name ≡ false
    pub name_nfc : nfc e.name ≡ e.name
    pub nsec_range : e.mtime_nsec ≤ 999_999_999
    pub payload_good : IsValidPayload e.exec e.payload

  validate_target_iff : (t : Bytes) → (validate_target nfc t ≡ ok tt) ↔ (nfc t ≡ t)
  unfolding validate_target
  validate_target_iff t =
      (λ h. ground (arith, bytes_eq_iff (nfc t) t), λ h. ground (arith, bytes_eq_iff (nfc t) t))

  validate_name_iff :
      (n : Bytes) → (validate_name nfc n ≡ ok tt) ↔ ((is_bad_name n ≡ false) × (nfc n ≡ n))
  unfolding validate_name
  validate_name_iff n =
      (λ h. ground (arith, bytes_eq_iff (nfc n) n), λ h. ground (arith, bytes_eq_iff (nfc n) n))

  validate_payload_iff :
      (exec : Bool) (p : EntryPayload)
      → (validate_payload nfc exec p ≡ ok tt) ↔ IsValidPayload exec p
  unfolding validate_payload
  validate_payload_iff exec (file size chunks) = (λ h. ground arith, λ h. ground arith)
  validate_payload_iff exec (dir child) = (λ h. ground arith, λ h. ground arith)
  validate_payload_iff exec (symlink target) = validate_target_iff target

  validate_entry_iff : (e : TreeEntry) → (validate_entry nfc e ≡ ok tt) ↔ IsValid e
  unfolding validate_entry
  validate_entry_iff e =
      let outer = >>_iff (validate_name nfc e.name) (
        refuse (ltb 999_999_999 e.mtime_nsec) nsec_out_of_range
        >> validate_payload nfc e.exec e.payload) in
      let inner =
        >>_iff (refuse (ltb 999_999_999 e.mtime_nsec) nsec_out_of_range)
          (validate_payload nfc e.exec e.payload) in
      let name = validate_name_iff e.name in
      let nsec = refuse_iff (ltb 999_999_999 e.mtime_nsec) nsec_out_of_range in
      let payload = validate_payload_iff e.exec e.payload in
      (
        λ h.
            let (h1, h2) = outer.0 h in
            let (h3, h4) = inner.0 h2 in
            record {
              name_good = (name.0 h1).0;
              name_nfc = (name.0 h1).1;
              nsec_range = ltb-false 999_999_999 e.mtime_nsec (nsec.0 h3);
              payload_good = payload.0 h4;
            },
        λ v. outer.1 (
          name.1 (v.name_good, v.name_nfc),
          inner.1 (nsec.1 (le→ltb 999_999_999 e.mtime_nsec v.nsec_range), payload.1 v.payload_good),
        ),
      )

  validate_each_iff : (es : List TreeEntry) → (validate_each nfc es ≡ ok tt) ↔ All IsValid es
  unfolding validate_each
  validate_each_iff [] = (λ _. tt, λ _. refl)
  validate_each_iff (e ∷ es) =
      let both = >>_iff (validate_entry nfc e) (validate_each nfc es) in
      let first = validate_entry_iff e in
      let others = validate_each_iff es in
      (λ h. (first.0 (both.0 h).0, others.0 (both.0 h).1), λ v. both.1 (first.1 v.0, others.1 v.1))

  -- Validation passes exactly on entries in strict order, each of them valid.
  pub validate_entries_iff :
      (es : List TreeEntry) → (validate_entries nfc es ≡ ok tt) ↔ (IsSorted es × All IsValid es)
  unfolding validate_entries
  validate_entries_iff es =
      let both = >>_iff (check_order es) (validate_each nfc es) in
      (
        λ h. ((check_order_iff es).0 (both.0 h).0, (validate_each_iff es).0 (both.0 h).1),
        λ v. both.1 ((check_order_iff es).1 v.0, (validate_each_iff es).1 v.1),
      )
