-- ===== src/Site/Process.antt =====
-- `initializeProcessRail`: the chevrons between the cards of a row. Lengths are whole numbers in a unit
-- of which `tenth` make up a tenth of a pixel; the coordinates of a chevron are four times the length,
-- so that the halves of the source are whole.
use inc_ql.Base.{
  ℕ, ◌*◌, List, [], ◌∷◌, Option, some, Bool, true, not, ◌||◌, if◌then◌else◌, length, ltb, ℤ, pos,
  ◌+ℤ◌, ◌-ℤ◌, leb_ℤ, ◌≡◌,
}

-- A bounding rectangle.
pub record Box : Type 0 where
  pub left : ℤ
  pub right : ℤ
  pub top : ℤ
  pub height : ℕ

-- A card's sides and twice the height of its middle, from the corner of the rail.
pub record Point : Type 0 where
  pub left : ℤ
  pub right : ℤ
  pub double_y : ℤ

pub record Chevron : Type 0 where
  pub start_x : ℤ
  pub start_y : ℤ
  pub tip_x : ℤ
  pub tip_y : ℤ
  pub end_x : ℤ
  pub end_y : ℤ

-- The rail, with its own rectangle's width and height as it is drawn.
pub record Rail : Type 0 where
  pub has_thread : Bool
  pub view_box : Option (ℕ × ℕ)
  pub chevrons : List Chevron

-- The page as it lies when it is drawn; `stacked` is the media query's match.
pub record Layout : Type 0 where
  pub stacked : Bool
  pub bounds : Box
  pub width : ℕ
  pub cards : List Box

abbrev pub double : ℤ → ℤ
double a = a +ℤ a

unfoldable pub points : Box → List Box → List Point
points bounds [] = []
points bounds (box ∷ boxes) =
    record {
      left = box.left -ℤ bounds.left;
      right = box.right -ℤ bounds.left;
      double_y = double (box.top -ℤ bounds.top) +ℤ pos box.height;
    }
    ∷ points bounds boxes

module _ (tenth : ℕ) where
  -- The chevron between a card and the next.
  unfoldable pub chevron : Point → Point → Chevron
  chevron point next =
      let x = double (point.right +ℤ next.left) in
      let y = point.double_y +ℤ next.double_y in
      record {
        start_x = x -ℤ pos (104 * tenth);
        start_y = y -ℤ pos (160 * tenth);
        tip_x = x +ℤ pos (88 * tenth);
        tip_y = y;
        end_x = x -ℤ pos (104 * tenth);
        end_y = y +ℤ pos (160 * tenth);
      }

  -- `points.slice(0, -1).map(...)`
  unfoldable pub chevrons : List Point → List Chevron
  unfolding chevron
  chevrons [] = []
  chevrons (point ∷ []) = []
  chevrons (point ∷ next ∷ rest) = chevron point next ∷ chevrons (next ∷ rest)

  unfoldable pub draw : Layout → Rail → Rail
  unfolding points chevrons
  draw l r =
      let drawn : Rail = record {
        has_thread = not l.stacked;
        view_box = some (l.width, l.bounds.height);
        chevrons = chevrons (points l.bounds l.cards);
      } in
      if l.stacked || not (ltb 0 l.width)
      then record r { has_thread = not l.stacked; chevrons = [] }
      else drawn

  -- `initializeProcessRail`, and the later drawings: when the rail changes its size, and when the fonts
  -- are there. The observer is set up once (`data-thread-observed`).
  unfoldable pub initialize : Layout → Rail → Rail
  unfolding draw
  initialize l r = if ltb (length l.cards) 2 then r else draw l r

  unfoldable pub redraw : List Layout → Rail → Rail
  unfolding draw
  redraw [] r = r
  redraw (l ∷ ls) r = redraw ls (draw l r)

-- The cards stand in a row, each at least 5.2 pixels to the right of the one before.
abbrev pub IsRow : ℕ → List Point → Type 0
IsRow tenth [] = Unit
IsRow tenth (p ∷ []) = Unit
IsRow tenth (p ∷ q ∷ ps) =
    (leb_ℤ (p.right +ℤ pos (52 * tenth)) q.left ≡ true) × IsRow tenth (q ∷ ps)

-- A chevron lies between two cards and points to the second; its ends are level around its tip.
pub record IsBetween (p q : Point) (c : Chevron) : Type 0 where
  pub after_first : leb_ℤ (double (double p.right)) c.start_x ≡ true
  pub before_second : leb_ℤ c.tip_x (double (double q.left)) ≡ true
  pub forward : leb_ℤ c.start_x c.tip_x ≡ true
  pub same_side : c.end_x ≡ c.start_x

-- One chevron for each two neighbours, between them.
abbrev pub IsThreaded : List Point → List Chevron → Type 0
IsThreaded [] [] = Unit
IsThreaded (p ∷ []) [] = Unit
IsThreaded (p ∷ q ∷ ps) (c ∷ cs) = IsBetween p q c × IsThreaded (q ∷ ps) cs
IsThreaded _ _ = ⊥
