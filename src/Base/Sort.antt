-- ===== src/Base/Sort.antt =====
-- `xs.sort(c)` for a consistent comparator, as the stable insertion sort, whose result is the one
-- that every stable sort has. `le x y` is `c(x, y) <= 0`.
use mathlib.Core.Path.{◌≡◌, refl, sym, subst, ◌∙◌}
use mathlib.Core.Bool.{Bool, true, false, ◌&&◌, ◌||◌}
use mathlib.Core.List.{List, [], ◌∷◌, Perm, Mem, mem-cons_self}
use mathlib.Core.List.Perm
use mathlib.Core.Logic.{◌≢◌, inl, inr}
use Prim.Native.String.{String}
use native.Mathlib.Omega.{arith}
use text.Mathlib.Text.{◌==◌}
use text.Mathlib.TextEquality.{eq_iff}
use inc_ql.Base.Tests.{if◌then◌else◌, Bool-cases}
use mathlib.Core.Option.{none, some}
use inc_ql.Base.Lists.{head?, every, has, NoRepeat}

module _ {ℓ} {A : Type ℓ} (le : A → A → Bool) where
  abbrev pub insert : A → List A → List A
  insert x [] = x ∷ []
  insert x (y ∷ ys) = let later = y ∷ insert x ys in if le x y then x ∷ y ∷ ys else later

  abbrev pub sort : List A → List A
  sort [] = []
  sort (x ∷ xs) = insert x (sort xs)

  -- `x` is below the head of the list.
  abbrev pub IsBelow : A → List A → Type 0
  IsBelow x [] = Unit
  IsBelow x (y ∷ ys) = le x y ≡ true

  -- Each element is below the next.
  abbrev pub IsSorted : List A → Type 0
  IsSorted [] = Unit
  IsSorted (x ∷ xs) = IsBelow x xs × IsSorted xs

  pub insert-perm : (x : A) (l : List A) → Perm (insert x l) (x ∷ l)
  insert-perm x [] = Perm.rfl
  insert-perm x (y ∷ ys) = elim (Bool-cases (le x y)) [
    | inl p ↦ rw p Perm.rfl
    | inr p ↦ rw p (Perm.trans (Perm.cons y (insert-perm x ys)) (Perm.swap x y ys))
  ]

  pub sort-perm : (l : List A) → Perm (sort l) l
  sort-perm [] = Perm.rfl
  sort-perm (x ∷ xs) = Perm.trans (insert-perm x (sort xs)) (Perm.cons x (sort-perm xs))

  pub sort_of_IsSorted : (l : List A) → IsSorted l → sort l ≡ l
  sort_of_IsSorted [] h = refl
  sort_of_IsSorted (x ∷ []) h = refl
  sort_of_IsSorted (x ∷ y ∷ l) (p, h) = rw (sort_of_IsSorted (y ∷ l) h) (rw p)

  every-insert : (p : A → Bool) (x : A) (l : List A) → every p (insert x l) ≡ (p x && every p l)
  every-insert p x [] = refl
  every-insert p x (y ∷ ys) = ground (arith, every-insert p x ys)

  pub every-sort : (p : A → Bool) (l : List A) → every p (sort l) ≡ every p l
  every-sort p [] = refl
  every-sort p (x ∷ xs) = ground (arith, every-insert p x (sort xs), every-sort p xs)

  module _ (total : (x y : A) → le x y ≡ false → le y x ≡ true) where
    IsBelow-insert : (x y : A) (l : List A) → le y x ≡ true → IsBelow y l → IsBelow y (insert x l)
    IsBelow-insert x y [] p h = p
    IsBelow-insert x y (z ∷ l) p h = ground arith

    insert-IsSorted : (x : A) (l : List A) → IsSorted l → IsSorted (insert x l)
    insert-IsSorted x [] h = (tt, tt)
    insert-IsSorted x (y ∷ l) (b, h) = elim (Bool-cases (le x y)) [
      | inl p ↦ rw p (p, (b, h))
      | inr p ↦ rw p (IsBelow-insert x y l (total x y p) b, insert-IsSorted x l h)
    ]

    pub sort-IsSorted : (l : List A) → IsSorted (sort l)
    sort-IsSorted [] = tt
    sort-IsSorted (x ∷ xs) = insert-IsSorted x (sort xs) (sort-IsSorted xs)

module _ {ℓ} {A : Type ℓ} (le : A → A → Bool) (total : (x y : A) → le x y ≡ false → le y x ≡ true)
    (trans : (x y z : A) → le x y ≡ true → le y z ≡ true → le x z ≡ true) where
  every-IsBelow : (x : A) (l : List A) → IsBelow le x l → IsSorted le l → every (le x) l ≡ true
  every-IsBelow x [] b h = refl
  every-IsBelow x (y ∷ l) b (c, h) =
      let later = every-IsBelow y l c h in ground (arith, every-trans x y l b later)
    where
      every-trans :
          (x y : A) (l : List A) → le x y ≡ true → every (le y) l ≡ true → every (le x) l ≡ true
      every-trans x y [] b h = refl
      every-trans x y (z ∷ l) b h = ground (arith, trans x y z, every-trans x y l)

  le_refl : (x : A) → le x x ≡ true
  le_refl x = elim (Bool-cases (le x x)) [ inl h ↦ h | inr h ↦ total x x h ]

  least_of_IsSorted :
      (l : List A) (x : A) → IsSorted le l → head? l ≡ some x → every (le x) l ≡ true
  least_of_IsSorted [] x h e = refl
  least_of_IsSorted (y ∷ l) x (b, h) e =
      let same : y ≡ x = ground arith in
      subst (λ z. every (le z) (y ∷ l) ≡ true) same (rw (le_refl y) (every-IsBelow y l b h))

  -- The head of the sorted list is below every element of the list.
  pub head-sort-least : (l : List A) (x : A) → head? (sort le l) ≡ some x → every (le x) l ≡ true
  head-sort-least l x e =
      sym (every-sort le (le x) l) ∙ least_of_IsSorted (sort le l) x (sort-IsSorted le total l) e

head-every {ℓ} :
    {A : Type ℓ} (p : A → Bool) (l : List A) (x : A)
    → every p l ≡ true
    → head? l ≡ some x
    → p x ≡ true
head-every p [] x h e = cc
head-every p (y ∷ l) x h e = let same : y ≡ x = ground arith in rw (← same) (ground arith)

-- What holds of every element holds of the head of the sorted list.
pub head-sort-every {ℓ} :
    {A : Type ℓ} (le : A → A → Bool) (p : A → Bool) (l : List A) (x : A)
    → every p l ≡ true
    → head? (sort le l) ≡ some x
    → p x ≡ true
head-sort-every le p l x h e = head-every p (sort le l) x (every-sort le p l ∙ h) e

head-Mem {ℓ} : {A : Type ℓ} (l : List A) (x : A) → head? l ≡ some x → Mem x l
head-Mem [] x e = cc
head-Mem (y ∷ l) x e =
    let same : y ≡ x = ground arith in subst (λ z. Mem z (y ∷ l)) same mem-cons_self

-- The head of the sorted list is of the list.
pub head-sort-Mem {ℓ} :
    {A : Type ℓ} (le : A → A → Bool) (l : List A) (x : A) → head? (sort le l) ≡ some x → Mem x l
head-sort-Mem le l x e = (Perm.mem_iff (sort-perm le l)).0 (head-Mem (sort le l) x e)

head-insert {ℓ} :
    {A : Type ℓ} (le : A → A → Bool) (x : A) (l : List A) → head? (insert le x l) ≢ none
head-insert le x [] e = cc
head-insert le x (y ∷ l) e = ground arith

-- Only the empty list is sorted to a list with no head.
pub eq-nil_of_sort {ℓ} :
    {A : Type ℓ} (le : A → A → Bool) (l : List A) → head? (sort le l) ≡ none → l ≡ []
eq-nil_of_sort le [] e = refl
eq-nil_of_sort le (x ∷ l) e = absurd (head-insert le x (sort le l) e)

module _ (le : String → String → Bool) where
  has-insert :
      (x : String) (l : List String) (a : String) → has (insert le x l) a ≡ (x == a || has l a)
  has-insert x [] a = refl
  has-insert x (y ∷ ys) a = ground (arith, has-insert x ys a)

  pub has-sort : (l : List String) (a : String) → has (sort le l) a ≡ has l a
  has-sort [] a = refl
  has-sort (x ∷ xs) a = ground (arith, has-insert x (sort le xs) a, has-sort xs a)

  NoRepeat-insert :
      (x : String) (l : List String) → has l x ≡ false → NoRepeat l → NoRepeat (insert le x l)
  NoRepeat-insert x [] n h = (refl, tt)
  NoRepeat-insert x (y ∷ l) n (m, h) =
      ground (arith, eq_iff x y, eq_iff y x, has-insert x l y, NoRepeat-insert x l)

  pub NoRepeat-sort : (l : List String) → NoRepeat l → NoRepeat (sort le l)
  NoRepeat-sort [] h = tt
  NoRepeat-sort (x ∷ xs) (n, h) =
      NoRepeat-insert x (sort le xs) (has-sort xs x ∙ n) (NoRepeat-sort xs h)
