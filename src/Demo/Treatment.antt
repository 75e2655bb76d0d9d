-- ===== src/Demo/Treatment.antt =====
-- How the list of candidates treats the facts of the demo: how often each treatment comes up.
use inc_ql.Base.{
  every-has, ℕ, ◌+◌, String, List, [], ◌∷◌, true, false, ◌==◌, if◌then◌else◌, length, keep, has,
  every, NoRepeat, template, ◌≡◌, refl, arith, eq_iff, eq_refl, Bool-cases, inl, inr,
}
use inc_ql.Demo.Facts.{Fact}
use inc_ql.Demo.Focus.{Focus}
use inc_ql.Demo.Render.{
  Candidate, Treatment, selected, bound, excluded, class_of, candidate_status, render_candidates,
  count_selected,
}

abbrev pub fact_ids : List Fact → List String
fact_ids [] = []
fact_ids (f ∷ fs) = f.id ∷ fact_ids fs

-- How many rows have a class.
abbrev pub rows_of : Treatment → List Candidate → ℕ
rows_of t [] = 0
rows_of t (row ∷ rows) =
    (if row.class_name == template ("candidate " ∷ class_of t ∷ []) then 1 else 0) + rows_of t rows

abbrev count_id : String → List String → ℕ
count_id a xs = length (keep (λ x. x == a) xs)

count_id_none : (a : String) (xs : List String) → has xs a ≡ false → count_id a xs ≡ 0
count_id_none a [] h = refl
count_id_none a (x ∷ xs) h = ground (arith, count_id_none a xs)

count_id_one : (a : String) (xs : List String) → NoRepeat xs → has xs a ≡ true → count_id a xs ≡ 1
count_id_one a [] n h = cc
count_id_one a (x ∷ xs) (fresh, n) h =
    ground (arith, eq_iff x a, count_id_none a xs, count_id_one a xs n)

-- The elements of a list that another has, counted by the elements of the other.
keep-has_cons :
    (a : String) (ys xs : List String)
    → has ys a ≡ false
    → length (keep (has (a ∷ ys)) xs) ≡ count_id a xs + length (keep (has ys) xs)
keep-has_cons a ys [] h = refl
keep-has_cons a ys (x ∷ xs) h = ground (arith, eq_iff x a, eq_iff a x, keep-has_cons a ys xs h)

keep-has_nil : (xs : List String) → length (keep (has []) xs) ≡ 0
keep-has_nil [] = refl
keep-has_nil (x ∷ xs) = keep-has_nil xs

length-keep-has :
    (ys xs : List String)
    → NoRepeat ys
    → NoRepeat xs
    → every (has xs) ys ≡ true
    → length (keep (has ys) xs) ≡ length ys
length-keep-has [] xs n m h = keep-has_nil xs
length-keep-has (a ∷ ys) xs (fresh, n) m h =
    let one : count_id a xs ≡ 1 = count_id_one a xs m (ground arith) in
    let rest : length (keep (has ys) xs) ≡ length ys = length-keep-has ys xs n m (ground arith) in
    omega (arith, keep-has_cons a ys xs fresh)

-- How a fact is treated, by its place in the focus.
data IsTreated (focus : Focus) (f : Fact) : Type 0 where
  is_selected : candidate_status focus f ≡ selected → f.id ≡ focus.selected_id → IsTreated focus f
  is_bound :
      candidate_status focus f ≡ bound
      → (f.id == focus.selected_id) ≡ false
      → has focus.atom_ids f.id ≡ true
      → IsTreated focus f
  is_excluded :
      candidate_status focus f ≡ excluded
      → (f.id == focus.selected_id) ≡ false
      → has focus.atom_ids f.id ≡ false
      → IsTreated focus f

status_cases : (focus : Focus) (f : Fact) → IsTreated focus f
unfolding candidate_status
status_cases focus f = elim (Bool-cases (f.id == focus.selected_id)) [
  | inl e ↦ is_selected (rw e refl) ((eq_iff f.id focus.selected_id).0 e)
  | inr e ↦ elim (Bool-cases (has focus.atom_ids f.id)) [
    | inl b ↦ is_bound (rw e (rw b refl)) e b
    | inr b ↦ is_excluded (rw e (rw b refl)) e b
  ]
]

module _ (focus : Focus) where
  -- The rows of each treatment, counted by the ids of the facts.
  abbrev Counted : ℕ → List Fact → Type 0
  Counted index fs =
      let rows = render_candidates focus index fs in
      (rows_of selected rows ≡ count_id focus.selected_id (fact_ids fs))
      × (rows_of selected rows + rows_of bound rows
          ≡ length (keep (has focus.atom_ids) (fact_ids fs)))
      × (rows_of selected rows + rows_of bound rows + rows_of excluded rows ≡ length fs)
      × (count_selected focus fs ≡ rows_of selected rows)

  rows_counted :
      (index : ℕ) (fs : List Fact) → has focus.atom_ids focus.selected_id ≡ true → Counted index fs
  unfolding render_candidates count_selected
  rows_counted index [] h = (refl, refl, refl, refl)
  rows_counted index (f ∷ fs) h =
      let (a, b, c, d) = rows_counted (index + 1) fs h in
      elim (status_cases focus f) [
        | is_selected s e ↦ rw s (
            rw e (
              rw (eq_refl focus.selected_id, h)
                (omega arith, omega arith, omega arith, omega arith)))
        | is_bound s e m ↦ rw s (rw e (rw m (omega arith, omega arith, omega arith, omega arith)))
        | is_excluded s e m ↦
            rw s (rw e (rw m (omega arith, omega arith, omega arith, omega arith)))
      ]

-- Of facts with distinct ids, a focus whose distinct atoms are all among them, with the selected one
-- an atom, has a row for every fact: one row is selected, the selected and the bound rows are as many
-- as the atoms, and every other row is excluded.
pub render_candidates-counts :
    (focus : Focus) (fs : List Fact)
    → NoRepeat (fact_ids fs)
    → NoRepeat focus.atom_ids
    → every (has (fact_ids fs)) focus.atom_ids ≡ true
    → has focus.atom_ids focus.selected_id ≡ true
    → (let rows = render_candidates focus 0 fs in
        (rows_of selected rows ≡ 1)
        × (rows_of selected rows + rows_of bound rows ≡ length focus.atom_ids)
        × (length focus.atom_ids + rows_of excluded rows ≡ length fs)
        × (count_selected focus fs ≡ 1))
render_candidates-counts focus fs n m known chosen =
    let (a, b, c, d) = rows_counted focus 0 fs chosen in
    let listed : has (fact_ids fs) focus.selected_id ≡ true =
      every-has (has (fact_ids fs)) focus.atom_ids focus.selected_id known chosen in
    let one : count_id focus.selected_id (fact_ids fs) ≡ 1 =
      count_id_one focus.selected_id (fact_ids fs) n listed in
    let atoms : length (keep (has focus.atom_ids) (fact_ids fs)) ≡ length focus.atom_ids =
      length-keep-has focus.atom_ids (fact_ids fs) m n known in
    (omega arith, omega arith, omega arith, omega arith)
