-- ===== src/Reader/Excerpt/Bounds.antt =====
-- What an excerpt keeps of its text, and how long it is.
use text.Mathlib.TextLemmas.{cons-append, nil-append, append_assoc}
use Prim.Native.Char.{code}
use Prim.Native.String
use Prim.Native.String.{[], ◌∷◌}
use inc_ql.Base.{
  ℕ, ◌+◌, ◌-◌, ◌≤◌, ◌<◌, String, Option, none, some, leb, leb→le, trim, trim_start, trim_end,
  is_space, is_blank, ◌&&◌, ◌≡◌, refl, arith, Bool-cases, inl, inr, ap, sym, ◌∙◌, ◌*◌, ◌⊎◌, ltb,
}
use inc_ql.Reader.Excerpt.{width, text_size, take_units, last_space_from, boundary_or, excerpt}

text_size-take_units : (n : ℕ) (s : String) → text_size (take_units n s) ≤ n
unfolding text_size take_units
text_size-take_units n [] = omega arith
text_size-take_units n (c ∷ s) = elim (Bool-cases (leb (width (code c)) n)) [
  | inl h ↦
      rw h (omega (arith, leb→le (width (code c)) n h, text_size-take_units (n - width (code c)) s))
  | inr h ↦ rw h (omega arith)
]

text_size-trim_start : (s : String) → text_size (trim_start s) ≤ text_size s
unfolding text_size trim_start
text_size-trim_start [] = omega arith
text_size-trim_start (c ∷ s) = elim (Bool-cases (is_space (code c))) [
  | inl h ↦ rw h (omega (arith, text_size-trim_start s))
  | inr h ↦ rw h (omega arith)
]

text_size-trim_end : (s : String) → text_size (trim_end s) ≤ text_size s
unfolding text_size trim_end
text_size-trim_end [] = omega arith
text_size-trim_end (c ∷ s) = elim (Bool-cases (is_space (code c) && is_blank (trim_end s))) [
  | inl h ↦ rw h (omega arith)
  | inr h ↦ rw h (omega (arith, text_size-trim_end s))
]

text_size-trim : (s : String) → text_size (trim s) ≤ text_size s
unfolding trim
text_size-trim s = omega (arith, text_size-trim_start s, text_size-trim_end (trim_start s))

last_space-lt : (i : ℕ) (s : String) (j : ℕ) → last_space_from i s ≡ some j → j < i + text_size s
unfolding last_space_from text_size
last_space-lt i [] j h = cc
last_space-lt i (c ∷ s) j h = ground (arith, last_space-lt (i + width (code c)) s j)

boundary_or-le :
    (o : Option ℕ) (limit : ℕ) → ((j : ℕ) → o ≡ some j → j ≤ limit) → boundary_or o limit ≤ limit
unfolding boundary_or
boundary_or-le none limit h = omega arith
boundary_or-le (some j) limit h = ground (arith, h j refl)

-- What is taken begins the text.
take_units-rest : (n : ℕ) (s : String) → (rest : String) × (s ≡ String.◌++◌ (take_units n s) rest)
unfolding take_units
take_units-rest n [] = ("", refl)
take_units-rest n (c ∷ s) = elim (Bool-cases (leb (width (code c)) n)) [
  | inl h ↦
      let (rest, e) = take_units-rest (n - width (code c)) s in
      rw h
        (rest, ap (String.◌∷◌ c) e ∙ sym (cons-append c (take_units (n - width (code c)) s) rest))
  | inr h ↦ rw h (c ∷ s, sym (nil-append (c ∷ s)))
]

width-le : (c : ℕ) → (width c ≡ 1) ⊎ (width c ≡ 2)
width-le c = elim (Bool-cases (ltb c 65536)) [ inl e ↦ inl (rw e refl) | inr e ↦ inr (rw e refl) ]

-- As much is taken as there is, but for a unit that would be half a pair.
text_size-take_units-ge :
    (n : ℕ) (s : String) → n ≤ text_size s → n ≤ text_size (take_units n s) + 1
unfolding text_size take_units
text_size-take_units-ge n [] h = omega arith
text_size-take_units-ge n (c ∷ s) h = elim (Bool-cases (leb (width (code c)) n)) [
  | inl e ↦ rw e (
      omega (
        arith,
        leb→le (width (code c)) n e,
        text_size-take_units-ge (n - width (code c)) s (omega (arith, h)),
      ))
  | inr e ↦ rw e (ground (arith, e, width-le (code c)))
]

boundary_or-ge : (o : Option ℕ) (limit : ℕ) → limit * 72 ≤ boundary_or o limit * 100
unfolding boundary_or
boundary_or-ge none limit = omega arith
boundary_or-ge (some j) limit = ground arith

-- A text that is within the limit is its own excerpt; else the excerpt is a beginning of the text, without
-- the white space around it, and the dots: the beginning is within the limit, and at most one unit
-- shorter than 72 percent of it.
pub data IsExcerpt (value : String) (limit : ℕ) : String → Type 0 where
  whole : text_size value ≤ limit → IsExcerpt value limit value
  cut :
      (head rest : String)
      → limit < text_size value
      → value ≡ String.◌++◌ head rest
      → text_size head ≤ limit
      → limit * 72 ≤ (text_size head + 1) * 100
      → IsExcerpt value limit (String.◌++◌ (trim head) "…")

excerpt_cut :
    (value candidate : String) (limit boundary : ℕ)
    → candidate ≡ take_units (limit + 1) value
    → limit < text_size value
    → boundary ≤ limit
    → limit * 72 ≤ boundary * 100
    → IsExcerpt value limit (String.◌++◌ (trim (take_units boundary candidate)) "…")
excerpt_cut value candidate limit boundary e long low high =
    let (after, first) = take_units-rest (limit + 1) value in
    let (between, second) = take_units-rest boundary candidate in
    let head = take_units boundary candidate in
    let joined : value ≡ String.◌++◌ (String.◌++◌ head between) after =
      first ∙ ap (λ t. String.◌++◌ t after) (sym e ∙ second) in
    let enough : limit + 1 ≤ text_size candidate + 1 =
      rw e (text_size-take_units-ge (limit + 1) value (omega (arith, long))) in
    cut head (String.◌++◌ between after) long (joined ∙ append_assoc head between after)
      (omega (arith, text_size-take_units boundary candidate, low))
      (omega (arith, text_size-take_units-ge boundary candidate (omega (arith, enough, low)), high))

-- `excerpt` returns a text that is within the limit as it is. Of a longer one it returns a beginning,
-- without the white space around it, and the dots: before that white space is taken away, the beginning
-- is within the limit and at most one unit shorter than 72 percent of it. Lengths count UTF-16 units.
pub excerpt-IsExcerpt : (value : String) (limit : ℕ) → IsExcerpt value limit (excerpt value limit)
unfolding excerpt
excerpt-IsExcerpt value limit = elim (Bool-cases (leb (text_size value) limit)) [
  | inl h ↦ rw h (whole (leb→le (text_size value) limit h))
  | inr h ↦
      let candidate = take_units (limit + 1) value in
      let space = last_space_from 0 candidate in
      rw h (
        excerpt_cut value candidate limit (boundary_or space limit) refl (ground (arith, h))
          (boundary_or-le space limit (λ j e.
            omega (arith, last_space-lt 0 candidate j e, text_size-take_units (limit + 1) value)))
          (boundary_or-ge space limit))
]
