-- ===== src/Base/Text.antt =====
-- Texts as the scripts use them: `trim`, `split(/\s+/)`, `includes`, the order of `sort()`, and
-- numbers in templates. A JavaScript string is a text of scalar values here.
use Prim.Native.Nat.{ℕ, zero, suc, ◌+◌, ◌-◌, ◌/◌, ◌%◌, compare, Ordering}
use Prim.Native.Char.{code}
use Prim.Native.String
use Prim.Native.String.{String, [], ◌∷◌}
use mathlib.Core.Path.{◌≡◌, refl}
use mathlib.Core.Logic.{inl, inr}
use mathlib.Core.Bool.{Bool, true, false, ◌&&◌, ◌||◌, not}
use mathlib.Core.List.{List, [], ◌∷◌}
use native.Mathlib.Omega.{arith}
use inc_ql.Base.Tests.{ltb, leb, if◌then◌else◌, Bool-cases}
use inc_ql.Base.Lists.{keep, get_elem?, get_or}

abbrev pub same : ℕ → ℕ → Bool
same a b = elim (compare a b) [ Ordering.eq ↦ true | _ ↦ false ]

-- White space and line ends of the language, for `trim` and `\s`.
unfoldable pub is_space : ℕ → Bool
is_space c =
    (leb 9 c && leb c 13)
    || same c 32
    || same c 160
    || same c 5760
    || (leb 8192 c && leb c 8202)
    || same c 8232
    || same c 8233
    || same c 8239
    || same c 8287
    || same c 12288
    || same c 65279

abbrev pub is_blank : String → Bool
is_blank [] = true
is_blank (c ∷ s) = false

unfoldable pub trim_start : String → String
trim_start [] = []
trim_start (c ∷ s) = let rest = trim_start s in if is_space (code c) then rest else c ∷ s

unfoldable pub trim_end : String → String
trim_end [] = []
trim_end (c ∷ s) =
    let rest = trim_end s in if is_space (code c) && is_blank rest then [] else c ∷ rest

unfoldable pub trim : String → String
unfolding trim_start trim_end is_space
trim s = trim_end (trim_start s)

trim_end_idem : (s : String) → trim_end (trim_end s) ≡ trim_end s
unfolding trim_end
trim_end_idem [] = refl
trim_end_idem (c ∷ s) = elim (Bool-cases (is_space (code c) && is_blank (trim_end s))) [
  | inl b ↦ rw b
  | inr b ↦ rw b (rw (trim_end_idem s) (rw b))
]

-- What does not begin with white space.
abbrev IsFlush : String → Type 0
IsFlush [] = Unit
IsFlush (c ∷ s) = is_space (code c) ≡ false

trim_start-IsFlush : (s : String) → IsFlush (trim_start s)
unfolding trim_start
trim_start-IsFlush [] = tt
trim_start-IsFlush (c ∷ s) = elim (Bool-cases (is_space (code c))) [
  | inl b ↦ rw b (trim_start-IsFlush s)
  | inr b ↦ rw b b
]

trim_end-IsFlush : (s : String) → IsFlush s → IsFlush (trim_end s)
unfolding trim_end
trim_end-IsFlush [] h = tt
trim_end-IsFlush (c ∷ s) h = rw h h

trim_start_of_IsFlush : (s : String) → IsFlush s → trim_start s ≡ s
unfolding trim_start
trim_start_of_IsFlush [] h = refl
trim_start_of_IsFlush (c ∷ s) h = rw h

pub trim_idem : (s : String) → trim (trim s) ≡ trim s
unfolding trim
trim_idem s =
    rw (trim_start_of_IsFlush _ (trim_end-IsFlush _ (trim_start-IsFlush s)))
      (trim_end_idem (trim_start s))

-- The pieces of `s` between its white space, `cur` being the piece so far.
split_from : String → String → List String
split_from cur [] = cur ∷ []
split_from cur (c ∷ s) =
    let closed : List String = cur ∷ split_from "" s in
    let longer : List String = split_from (String.◌++◌ cur (c ∷ [])) s in
    if is_space (code c) then closed else longer

-- `s.split(/\s+/).filter(Boolean)`: a run of white space leaves empty pieces, which are dropped.
unfoldable pub words : String → List String
unfolding split_from is_space
words s = keep (λ w. not (is_blank w)) (split_from "" s)

unfoldable pub begins : String → String → Bool
begins s [] = true
begins [] (d ∷ t) = false
begins (c ∷ s) (d ∷ t) = same (code c) (code d) && begins s t

-- `s.slice(prefix.length)`, of a text that begins with the prefix
abbrev pub cut : String → String → String
cut s [] = s
cut [] (c ∷ prefix) = []
cut (d ∷ s) (c ∷ prefix) = cut s prefix

-- `s.includes(t)`
unfoldable pub includes : String → String → Bool
unfolding begins
includes [] t = begins [] t
includes (c ∷ s) t = begins (c ∷ s) t || includes s t

-- The UTF-16 units of a text.
unfoldable pub units : String → List ℕ
units [] = []
units (c ∷ s) =
    if ltb (code c) 65536
    then code c ∷ units s
    else (55296 + (code c - 65536) / 1024) ∷ (56320 + (code c - 65536) % 1024) ∷ units s

pub lex_le : List ℕ → List ℕ → Bool
lex_le [] ys = true
lex_le (x ∷ xs) [] = false
lex_le (x ∷ xs) (y ∷ ys) =
    let rest = lex_le xs ys in if ltb x y then true else if ltb y x then false else rest

-- The order of `sort()` with no comparator.
unfoldable pub text_le : String → String → Bool
unfolding units lex_le
text_le s t = lex_le (units s) (units t)

lex_le_total : (xs ys : List ℕ) → lex_le xs ys ≡ false → lex_le ys xs ≡ true
unfolding lex_le
lex_le_total [] ys h = ground arith
lex_le_total (x ∷ xs) [] h = refl
lex_le_total (x ∷ xs) (y ∷ ys) h = ground (arith, lex_le_total xs ys)

pub text_le_total : (s t : String) → text_le s t ≡ false → text_le t s ≡ true
unfolding text_le
text_le_total s t h = lex_le_total (units s) (units t) h

-- A template: the texts one after the other.
abbrev pub template : List String → String
template [] = ""
template (s ∷ ss) = String.◌++◌ s (template ss)

-- `texts.join(separator)`
abbrev pub join_with : String → List String → String
join_with separator [] = ""
join_with separator (s ∷ []) = s
join_with separator (s ∷ t ∷ ss) =
    String.◌++◌ s (String.◌++◌ separator (join_with separator (t ∷ ss)))

abbrev digit_texts : List String
digit_texts = "0" ∷ "1" ∷ "2" ∷ "3" ∷ "4" ∷ "5" ∷ "6" ∷ "7" ∷ "8" ∷ "9" ∷ []

decimal_from : ℕ → ℕ → String → String
decimal_from zero n acc = acc
decimal_from (suc fuel) n acc =
    let text = String.◌++◌ (get_or (get_elem? digit_texts (n % 10)) "") acc in
    let rest = decimal_from fuel (n / 10) text in if ltb n 10 then text else rest

-- `String(n)`; a number has at most as many digits as its value, and one more for 0.
unfoldable pub decimal : ℕ → String
unfolding decimal_from
decimal n = decimal_from (suc n) n ""

decimal_test : decimal 407 ≡ "407"
unfolding decimal
decimal_test = refl

words_test : words " alpha  beta" ≡ "alpha" ∷ "beta" ∷ []
unfolding words
words_test = refl

trim_test : trim "  a b " ≡ "a b"
unfolding trim
trim_test = refl

pub blank-eq : (v : String) → is_blank v ≡ true → v ≡ ""
blank-eq [] h = refl
blank-eq (c ∷ s) h = cc
