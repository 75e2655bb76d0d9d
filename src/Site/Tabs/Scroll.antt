-- ===== src/Site/Tabs/Scroll.antt =====
-- The scrolling of `activateTab`: the row of tabs moves to where the active tab is in view.
use inc_ql.Base.{
  ℕ, zero, suc, ◌+◌, ◌-◌, ◌*◌, ◌<◌, ◌≤◌, List, [], ◌∷◌, none, some, Bool, true, false,
  if◌then◌else◌, leb, get_elem?, find, every, Option-cases, pos, pos_part, sub_ℕ, leb_ℤ, leb→le,
  min_ℤ, max_ℤ, ◌≡◌, sym, ◌∙◌, arith, inl, inr,
}
use inc_ql.Site.Tabs.{Tab, TabList, take, is_near, left_anchor, scroll_target, scroll_to}

leb-sub_ℕ : (a b c d : ℕ) → leb_ℤ (sub_ℕ a b) (sub_ℕ c d) ≡ leb (a + d) (c + b)
leb-sub_ℕ a b c d = ground arith

clamp_lem :
    (a p w : ℕ)
    → pos_part (max_ℤ (pos 0) (min_ℤ (sub_ℕ a p) (pos w))) ≡ (if leb (a - p) w then a - p else w)
clamp_lem a p w = ground arith

-- The first element that a test accepts: it passes the test, and whatever holds of all holds of it.
find-every :
    (p q : Tab → Bool) (ts : List Tab) (t : Tab)
    → every q ts ≡ true
    → find p ts ≡ some t
    → (p t ≡ true) × (q t ≡ true)
find-every p q [] t e h = cc
find-every p q (u ∷ ts) t e h = grind (arith, find-every p q ts t)

find-take-none :
    (p : Tab → Bool) (ts : List Tab) (i : ℕ) (t : Tab)
    → get_elem? ts i ≡ some t
    → find p (take (suc i) ts) ≡ none
    → p t ≡ false
find-take-none p [] i t h e = cc
find-take-none p (u ∷ ts) zero t h e = grind arith
find-take-none p (u ∷ ts) (suc i) t h e = ground (arith, find-take-none p ts i t)

-- The anchor of a tab that fits is not to its right, and is near enough to its left.
left_anchor_lem :
    (l : TabList) (tabs : List Tab) (i : ℕ) (next : Tab)
    → get_elem? tabs i ≡ some next
    → every (λ t. leb t.offset_left next.offset_left) (take (suc i) tabs) ≡ true
    → next.offset_width + l.start_padding * 2 ≤ l.client_width
    → let anchor = left_anchor l tabs i next in
      (leb anchor.offset_left next.offset_left ≡ true)
      × (next.offset_left + next.offset_width + l.start_padding * 2
          ≤ l.client_width + anchor.offset_left)
unfolding left_anchor is_near
left_anchor_lem l tabs i next h order fits =
    elim (Option-cases (find (is_near l next) (take (suc i) tabs))) [
      | inl e ↦ rw (e, left_anchor) (ground arith, omega arith)
      | inr (t, e) ↦
          let (near, left) =
            find-every (is_near l next) (λ u. leb u.offset_left next.offset_left)
              (take (suc i) tabs) t order e in
          rw (e, left_anchor)
            (
              left,
              leb→le (next.offset_left + next.offset_width + l.start_padding * 2)
                  (l.client_width + t.offset_left)
                  (sym (
                      leb-sub_ℕ (next.offset_left + next.offset_width) t.offset_left l.client_width
                        (l.start_padding * 2))
                    ∙ near),
            )
    ]

-- If the tabs do not all fit in the row, and the active tab, which is within the scrolled content and
-- has no earlier tab to its right, fits with the padding on both sides, then the row scrolls to a place
-- within its range where the whole active tab is in view.
pub scroll_to_shows :
    (l : TabList) (tabs : List Tab) (i : ℕ) (next : Tab)
    → get_elem? tabs i ≡ some next
    → every (λ t. leb t.offset_left next.offset_left) (take (suc i) tabs) ≡ true
    → next.offset_left + next.offset_width ≤ l.scroll_width
    → next.offset_width + l.start_padding * 2 ≤ l.client_width
    → l.client_width < l.scroll_width
    → ((scroll_to tabs i next l).scroll_left ≤ next.offset_left)
      × (next.offset_left + next.offset_width
          ≤ (scroll_to tabs i next l).scroll_left + l.client_width)
      × ((scroll_to tabs i next l).scroll_left + l.client_width ≤ l.scroll_width)
unfolding scroll_to scroll_target
scroll_to_shows l tabs i next h order within fits over =
    let (left, near) = left_anchor_lem l tabs i next h order fits in ground arith
