-- ===== src/Catalog/Order.antt =====
-- `sortRecords`: a permutation in the order of its comparator.
use Prim.Native.Nat.{Ordering}
use inc_ql.Base.{
  String, List, Bool, true, false, is_blank, ◌≡◌, refl, arith, IsSorted, sort-IsSorted, sort-perm,
  Perm, Bool-cases, inl, inr, ◌≢◌, ◌==◌, eq_iff, [], ◌∷◌, blank-eq,
}
use inc_ql.Catalog.{
  RfcRecord, Collator, IsConsistent, flip, not_after, by_status_first, compare_records, record_le,
  sort_records,
}

by_status_first-flip :
    (by_status by_id : Ordering) (descending : Bool)
    → by_status_first (flip by_status) (flip by_id) descending
      ≡ flip (by_status_first by_status by_id descending)
by_status_first-flip Ordering.lt by_id descending = ground arith
by_status_first-flip Ordering.eq by_id descending = refl
by_status_first-flip Ordering.gt by_id descending = ground arith

not_after-flip : (o : Ordering) → not_after o ≡ false → not_after (flip o) ≡ true
not_after-flip Ordering.lt h = cc
not_after-flip Ordering.eq h = cc
not_after-flip Ordering.gt h = refl

-- `left` may stand before `right`: by the id if there is no mode; else by the status, downwards for
-- status-desc and upwards for every other mode, and by the id where the status is the same.
pub data IsBefore (c : Collator) (mode : String) (left right : RfcRecord) : Type 0 where
  by_id : mode ≡ "" → c.compare_id left.id right.id ≢ Ordering.gt → IsBefore c mode left right
  upwards :
      mode ≢ ""
      → mode ≢ "status-desc"
      → c.compare_status left.status right.status ≡ Ordering.lt
      → IsBefore c mode left right
  downwards :
      mode ≡ "status-desc"
      → c.compare_status left.status right.status ≡ Ordering.gt
      → IsBefore c mode left right
  same_status :
      mode ≢ ""
      → c.compare_status left.status right.status ≡ Ordering.eq
      → c.compare_id left.id right.id ≢ Ordering.gt
      → IsBefore c mode left right

-- Each record may stand before the next.
abbrev pub IsChain : Collator → String → List RfcRecord → Type 0
IsChain c mode [] = Unit
IsChain c mode (x ∷ []) = Unit
IsChain c mode (x ∷ y ∷ l) = IsBefore c mode x y × IsChain c mode (y ∷ l)

not_after-ne : (o : Ordering) → not_after o ≡ true → o ≢ Ordering.gt
not_after-ne o h e = let bad : not_after Ordering.gt ≡ true = rw e at h in cc

full-ne : (mode : String) → is_blank mode ≡ false → mode ≢ ""
full-ne mode h e = let bad : is_blank "" ≡ false = rw e at h in cc

module _ (c : Collator) (consistent : IsConsistent c) where
  -- The comparator swaps its answer with its arguments, in each of the three modes.
  pub compare_records-flip :
      (mode : String) (l r : RfcRecord)
      → compare_records c mode r l ≡ flip (compare_records c mode l r)
  unfolding compare_records
  compare_records-flip mode l r = elim (Bool-cases (is_blank mode)) [
    | inl plain ↦ rw plain (consistent.id_flip l.id r.id)
    | inr status ↦
        rw (status, consistent.id_flip l.id r.id, consistent.status_flip l.status r.status)
          (by_status_first-flip _ _ _)
  ]

  record_le_total :
      (mode : String) (l r : RfcRecord) → record_le c mode l r ≡ false → record_le c mode r l ≡ true
  unfolding record_le
  record_le_total mode l r h =
      rw (compare_records-flip mode l r) (not_after-flip (compare_records c mode l r) h)

  status-IsBefore :
      (mode : String) (l r : RfcRecord) (o : Ordering)
      → c.compare_status l.status r.status ≡ o
      → mode ≢ ""
      → not_after (by_status_first o (c.compare_id l.id r.id) (mode == "status-desc")) ≡ true
      → IsBefore c mode l r
  status-IsBefore mode l r Ordering.lt e plain h =
      upwards plain (λ same. ground (arith, eq_iff mode "status-desc")) e
  status-IsBefore mode l r Ordering.eq e plain h =
      same_status plain e (not_after-ne (c.compare_id l.id r.id) h)
  status-IsBefore mode l r Ordering.gt e plain h =
      downwards ((eq_iff mode "status-desc").0 (ground arith)) e

  IsBefore-record_le :
      (mode : String) (l r : RfcRecord) → record_le c mode l r ≡ true → IsBefore c mode l r
  unfolding record_le compare_records
  IsBefore-record_le mode l r h = elim (Bool-cases (is_blank mode)) [
    | inl plain ↦
        by_id (blank-eq mode plain) (not_after-ne (c.compare_id l.id r.id) (rw plain at h))
    | inr status ↦
        status-IsBefore mode l r (c.compare_status l.status r.status) refl (full-ne mode status)
          (rw status at h)
  ]

  neighbours-IsBefore :
      (mode : String) (l : List RfcRecord) → IsSorted (record_le c mode) l → IsChain c mode l
  neighbours-IsBefore mode [] h = tt
  neighbours-IsBefore mode (x ∷ []) h = tt
  neighbours-IsBefore mode (x ∷ y ∷ l) (b, h) =
      (IsBefore-record_le mode x y b, neighbours-IsBefore mode (y ∷ l) h)

  -- `sortRecords` returns the records that it is given, each as often. With no mode no record has a
  -- greater id than the next; else the statuses go up, or down for status-desc, and records of one status
  -- go up by their ids. The order of two texts swaps with them.
  pub sort_records-IsChain :
      (records : List RfcRecord) (mode : String)
      → IsChain c mode (sort_records c records mode) × Perm (sort_records c records mode) records
  unfolding sort_records
  sort_records-IsChain records mode =
      let ordered = sort-IsSorted (record_le c mode) (record_le_total mode) records in
      (
        neighbours-IsBefore mode (sort_records c records mode) ordered,
        sort-perm (record_le c mode) records,
      )
