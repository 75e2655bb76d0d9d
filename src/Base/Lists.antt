-- ===== src/Base/Lists.antt =====
-- Lists as the source uses its arrays: `length`, `find`, `filter`, `some`, `every`, `includes`.
use Prim.Native.Nat.{ℕ, zero, suc, ◌+◌, ◌≤◌}
use Prim.Native.String.{String}
use mathlib.Core.Path.{◌≡◌, refl, ap, subst}
use mathlib.Core.Bool.{Bool, true, false, ◌&&◌, ◌||◌}
use mathlib.Core.List.{List, [], ◌∷◌, ◌++◌}
use mathlib.Core.Option.{Option, none, some}
use native.Mathlib.Omega.{arith}
use text.Mathlib.Text.{◌==◌}
use text.Mathlib.TextEquality.{eq_iff}
use mathlib.Core.Logic.{inl, inr}
use text.Mathlib.TextPositions.{eq_refl}
use inc_ql.Base.Tests.{if◌then◌else◌, Bool-cases}

module _ {ℓ} {A : Type ℓ} where
  abbrev pub length : List A → ℕ
  length [] = 0
  length (x ∷ xs) = suc (length xs)

  abbrev pub get_elem? : List A → ℕ → Option A
  get_elem? [] i = none
  get_elem? (x ∷ xs) zero = some x
  get_elem? (x ∷ xs) (suc i) = get_elem? xs i

  -- `xs.find(p)`; `undefined` is `none`
  abbrev pub find : (A → Bool) → List A → Option A
  find p [] = none
  find p (x ∷ xs) = let rest = find p xs in if p x then some x else rest

  -- The last element that passes: what a `Map` keeps that is made of the elements by a key.
  abbrev pub find_last : (A → Bool) → List A → Option A
  find_last p [] = none
  find_last p (x ∷ xs) =
      let here = if p x then some x else none in
      elim (find_last p xs) [ none ↦ here | some y ↦ some y ]

  -- `xs.filter(p)`
  abbrev pub keep : (A → Bool) → List A → List A
  keep p [] = []
  keep p (x ∷ xs) = let rest = keep p xs in if p x then x ∷ rest else rest

  -- `xs.every(p)`
  abbrev pub every : (A → Bool) → List A → Bool
  every p [] = true
  every p (x ∷ xs) = p x && every p xs

  -- `xs.some(p)`
  abbrev pub any : (A → Bool) → List A → Bool
  any p [] = false
  any p (x ∷ xs) = p x || any p xs

  abbrev pub head? : List A → Option A
  head? [] = none
  head? (x ∷ xs) = some x

  -- `xs.at(-1)`
  abbrev pub get_last? : List A → Option A
  get_last? [] = none
  get_last? (x ∷ []) = some x
  get_last? (x ∷ y ∷ xs) = get_last? (y ∷ xs)

  -- `o ?? d`
  abbrev pub get_or : Option A → A → A
  get_or none d = d
  get_or (some a) d = a

  abbrev pub is_empty : List A → Bool
  is_empty [] = true
  is_empty (x ∷ xs) = false

module _ {ℓ κ} {A : Type ℓ} (P : A → Type κ) where
  abbrev pub All : List A → Type κ
  All [] = Unit
  All (x ∷ xs) = P x × All xs

-- `xs.includes(a)`, and `has` of the `Set` of the elements of `xs`
abbrev pub has : List String → String → Bool
has [] a = false
has (x ∷ xs) a = x == a || has xs a

-- No text stands twice.
abbrev pub NoRepeat : List String → Type 0
NoRepeat [] = Unit
NoRepeat (x ∷ xs) = (has xs x ≡ false) × NoRepeat xs

-- The elements of `new Set(xs)` after those of `seen`, in the order of their first insertion.
abbrev pub dedup_from : List String → List String → List String
dedup_from seen [] = []
dedup_from seen (x ∷ xs) =
    let old = dedup_from seen xs in
    let new = dedup_from (x ∷ seen) xs in if has seen x then old else x ∷ new

-- `[...new Set(xs)]`
abbrev pub dedup : List String → List String
dedup xs = dedup_from [] xs

module _ {ℓ} {A : Type ℓ} where
  pub length-append : (xs ys : List A) → length (xs ++ ys) ≡ length xs + length ys
  length-append [] ys = omega arith
  length-append (x ∷ xs) ys = omega (arith, length-append xs ys)

  pub every-append :
      (p : A → Bool) (xs ys : List A) → every p (xs ++ ys) ≡ (every p xs && every p ys)
  every-append p [] ys = refl
  every-append p (x ∷ xs) ys = ground (arith, every-append p xs ys)

  pub length-keep-le : (p : A → Bool) (xs : List A) → length (keep p xs) ≤ length xs
  length-keep-le p [] = omega arith
  length-keep-le p (x ∷ xs) = ground (arith, length-keep-le p xs)

  pub keep_all : (p : A → Bool) (xs : List A) → every p xs ≡ true → keep p xs ≡ xs
  keep_all p [] h = refl
  keep_all p (x ∷ xs) h = ground (arith, keep_all p xs)

pub has-append : (xs ys : List String) (a : String) → has (xs ++ ys) a ≡ (has xs a || has ys a)
has-append [] ys a = refl
has-append (x ∷ xs) ys a = ground (arith, has-append xs ys a)

pub has-keep :
    (p : String → Bool) (xs : List String) (a : String) → has (keep p xs) a ≡ (has xs a && p a)
has-keep p [] a = refl
has-keep p (x ∷ xs) a = ground (arith, eq_iff x a, has-keep p xs a)

pub NoRepeat-keep : (p : String → Bool) (xs : List String) → NoRepeat xs → NoRepeat (keep p xs)
NoRepeat-keep p [] h = tt
NoRepeat-keep p (x ∷ xs) (h, t) = ground (arith, has-keep p xs x, NoRepeat-keep p xs t)

pub has-dedup_from :
    (seen xs : List String) (a : String)
    → (has (dedup_from seen xs) a || has seen a) ≡ (has xs a || has seen a)
has-dedup_from seen [] a = refl
has-dedup_from seen (x ∷ xs) a =
    ground (arith, eq_iff x a, has-dedup_from seen xs a, has-dedup_from (x ∷ seen) xs a)

dedup_from_seen :
    (seen xs : List String) (a : String) → has seen a ≡ true → has (dedup_from seen xs) a ≡ false
dedup_from_seen seen [] a h = refl
dedup_from_seen seen (x ∷ xs) a h =
    ground (arith, eq_iff x a, dedup_from_seen seen xs a, dedup_from_seen (x ∷ seen) xs a)

NoRepeat-dedup_from : (seen xs : List String) → NoRepeat (dedup_from seen xs)
NoRepeat-dedup_from seen [] = tt
NoRepeat-dedup_from seen (x ∷ xs) = elim (Bool-cases (has seen x)) [
  | inl old ↦ rw old (NoRepeat-dedup_from seen xs)
  | inr new ↦
      rw new (dedup_from_seen (x ∷ seen) xs x (rw eq_refl refl), NoRepeat-dedup_from (x ∷ seen) xs)
]

pub NoRepeat-dedup : (xs : List String) → NoRepeat (dedup xs)
NoRepeat-dedup xs = NoRepeat-dedup_from [] xs

pub has-dedup : (xs : List String) (a : String) → has (dedup xs) a ≡ has xs a
has-dedup xs a = ground (arith, has-dedup_from [] xs a)

-- Nothing of `seen` comes up in `xs`.
abbrev IsFresh : List String → List String → Type 0
IsFresh seen [] = Unit
IsFresh seen (x ∷ xs) = (has seen x ≡ false) × IsFresh seen xs

IsFresh-cons :
    (seen xs : List String) (x : String)
    → has xs x ≡ false
    → IsFresh seen xs
    → IsFresh (x ∷ seen) xs
IsFresh-cons seen [] x h f = tt
IsFresh-cons seen (y ∷ xs) x h (g, f) =
    (ground (arith, eq_iff x y, eq_iff y x), IsFresh-cons seen xs x (ground arith) f)

dedup_from_of_NoRepeat :
    (seen xs : List String) → NoRepeat xs → IsFresh seen xs → dedup_from seen xs ≡ xs
dedup_from_of_NoRepeat seen [] n f = refl
dedup_from_of_NoRepeat seen (x ∷ xs) (h, n) (g, f) =
    rw g (ap (◌∷◌ x) (dedup_from_of_NoRepeat (x ∷ seen) xs n (IsFresh-cons seen xs x h f)))

IsFresh-nil : (xs : List String) → IsFresh [] xs
IsFresh-nil [] = tt
IsFresh-nil (x ∷ xs) = (refl, IsFresh-nil xs)

pub dedup_of_NoRepeat : (xs : List String) → NoRepeat xs → dedup xs ≡ xs
dedup_of_NoRepeat xs n = dedup_from_of_NoRepeat [] xs n (IsFresh-nil xs)

pub Bool_ext : (a b : Bool) → (a ≡ true → b ≡ true) → (b ≡ true → a ≡ true) → a ≡ b
Bool_ext true b to from = ground (arith, to refl)
Bool_ext false true to from = from refl
Bool_ext false false to from = refl

-- A test of every text of a list holds of each text that the list has, and only of those.
pub every-has :
    (p : String → Bool) (xs : List String) (a : String)
    → every p xs ≡ true
    → has xs a ≡ true
    → p a ≡ true
every-has p [] a e h = cc
every-has p (x ∷ xs) a e h = ground (arith, eq_iff x a, every-has p xs a)

pub every_of_has :
    (p : String → Bool) (xs : List String)
    → ((a : String) → has xs a ≡ true → p a ≡ true)
    → every p xs ≡ true
every_of_has p [] h = refl
every_of_has p (x ∷ xs) h =
    let here : p x ≡ true = h x (ground (arith, eq_iff x x)) in
    let later : every p xs ≡ true = every_of_has p xs (λ a e. h a (ground arith)) in ground arith

-- What holds of each text of a list holds of every text that the list has.
pub All-has {ℓ} :
    (P : String → Type ℓ) (xs : List String) (a : String) → All P xs → has xs a ≡ true → P a
All-has P [] a h listed = absurd (ground arith)
All-has P (x ∷ xs) a (h, hs) listed = elim (Bool-cases (x == a)) [
  | inl e ↦ subst P ((eq_iff x a).0 e) h
  | inr e ↦ All-has P xs a hs (ground arith)
]
