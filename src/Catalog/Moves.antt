-- ===== src/Catalog/Moves.antt =====
-- Moving the selection by the keyboard.
use inc_ql.Base.{
  ℕ, zero, suc, ◌-◌, ◌+◌, ◌<◌, min, String, List, [], ◌∷◌, Option, none, some, true, ◌==◌, length,
  has, ℤ, pos, negsuc, ◌≡◌, refl, ◌∙◌, ap, ◌≢◌, arith, eq_iff, eq_refl, NoRepeat, Bool-cases, inl,
  inr,
}
use mathlib.Core.Option
use inc_ql.Catalog.{RfcRecord, ids, find_index, next_index, id_at, land_at, adjacent_record_id}

next_index-lt : (size index : ℕ) (offset : ℤ) → 0 < size → next_index size index offset < size
unfolding next_index
next_index-lt size index offset h = ground arith

id_at-has : (rs : List RfcRecord) (i : ℕ) → i < length rs → has (ids rs) (id_at rs i) ≡ true
unfolding id_at
id_at-has [] i h = elim h [ ]
id_at-has (r ∷ rs) zero h = ground (arith, eq_iff r.id r.id)
id_at-has (r ∷ rs) (suc i) h = ground (arith, id_at-has rs i)

land_at-has :
    (r : RfcRecord) (rs : List RfcRecord) (found : Option ℕ) (offset : ℤ)
    → has (ids (r ∷ rs)) (land_at (r ∷ rs) r.id found offset) ≡ true
unfolding land_at
land_at-has r rs none offset = ground (arith, eq_iff r.id r.id)
land_at-has r rs (some i) offset =
    id_at-has (r ∷ rs) _ (next_index-lt (length (r ∷ rs)) i offset (omega arith))

-- Whatever the current id and the offset, a move in a list that is not empty ends at the id of one
-- of its records.
pub adjacent_record_id-has :
    (records : List RfcRecord) (current_id : String) (offset : ℤ)
    → records ≢ []
    → has (ids records) (adjacent_record_id records current_id offset) ≡ true
unfolding adjacent_record_id
adjacent_record_id-has [] current_id offset h = absurd (h refl)
adjacent_record_id-has (r ∷ rs) current_id offset h =
    land_at-has r rs (find_index (r ∷ rs) current_id) offset

-- An index that is found is in range and holds the id.
pub find_index_sound :
    (rs : List RfcRecord) (id : String) (i : ℕ)
    → find_index rs id ≡ some i
    → (i < length rs) × (id_at rs i ≡ id)
unfolding find_index id_at
find_index_sound [] id i h = cc
find_index_sound (r ∷ rs) id i h = elim (Bool-cases (r.id == id)) [
  | inl same ↦ let e : zero ≡ i = ground arith in rw (← e) (omega arith, (eq_iff r.id id).0 same)
  | inr other ↦
      let (j, found, e) = (Option.map-eq-some_iff _ _).0 (rw other at h) in
      let (lt, at) = find_index_sound rs id j found in rw (← e) (omega arith, at)
]

find_index-id_at :
    (rs : List RfcRecord) (i : ℕ)
    → NoRepeat (ids rs)
    → i < length rs
    → find_index rs (id_at rs i) ≡ some i
unfolding find_index id_at
find_index-id_at [] i n h = elim h [ ]
find_index-id_at (r ∷ rs) zero n h = rw (eq_refl r.id)
find_index-id_at (r ∷ rs) (suc i) (new, n) h =
    ground (arith, id_at-has rs i, find_index-id_at rs i, eq_iff r.id (id_at rs i))

land_at-some :
    (rs : List RfcRecord) (first : String) (found : Option ℕ) (i : ℕ) (offset : ℤ)
    → found ≡ some i
    → land_at rs first found offset ≡ id_at rs (next_index (length rs) i offset)
unfolding land_at
land_at-some rs first found i offset h = rw h

adjacent-land_at :
    (rs : List RfcRecord) (id : String) (i : ℕ) (offset : ℤ)
    → find_index rs id ≡ some i
    → adjacent_record_id rs id offset ≡ id_at rs (next_index (length rs) i offset)
unfolding adjacent_record_id
adjacent-land_at [] id i offset h = absurd (omega (arith, (find_index_sound [] id i h).0))
adjacent-land_at (r ∷ rs) id i offset h =
    land_at-some (r ∷ rs) r.id (find_index (r ∷ rs) id) i offset h

-- From the record at index i the arrow keys go one record down or up, and stay at the ends.
adjacent_record_id_ends :
    (records : List RfcRecord) (current_id : String) (i : ℕ)
    → find_index records current_id ≡ some i
    → (adjacent_record_id records current_id (pos 1)
        ≡ id_at records (min (i + 1) (length records - 1)))
      × (adjacent_record_id records current_id (negsuc 0) ≡ id_at records (i - 1))
unfolding next_index
adjacent_record_id_ends records current_id i h =
    let lt = (find_index_sound records current_id i h).0 in
    (
      adjacent-land_at records current_id i (pos 1) h ∙ ap (id_at records) (ground arith),
      adjacent-land_at records current_id i (negsuc 0) h ∙ ap (id_at records) (ground arith),
    )

-- Where the ids are distinct and the record is not the last, a step down is undone by a step up.
pub adjacent_record_id_undo :
    (records : List RfcRecord) (current_id : String) (i : ℕ)
    → NoRepeat (ids records)
    → find_index records current_id ≡ some i
    → i + 1 < length records
    → adjacent_record_id records (adjacent_record_id records current_id (pos 1)) (negsuc 0)
      ≡ current_id
adjacent_record_id_undo records current_id i n h lt =
    let down = (adjacent_record_id_ends records current_id i h).0 in
    let at : find_index records (adjacent_record_id records current_id (pos 1)) ≡ some (i + 1) =
      rw (down, (let e : min (i + 1) (length records - 1) ≡ i + 1 = omega arith in e))
        (find_index-id_at records (i + 1) n lt) in
    (adjacent_record_id_ends records _ (i + 1) at).1
    ∙ ap (id_at records) (omega arith)
    ∙ (find_index_sound records current_id i h).1
