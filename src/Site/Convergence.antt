-- ===== src/Site/Convergence.antt =====
-- `convergenceMapContract` and `initializeConvergenceMap`: the curves between the cards of the map and
-- its core. The arithmetic of the language, with `Math.hypot` and `toFixed`, is the parameter Numbers.
pub mod Settled
mod Examples
use inc_ql.Base.{
  ℕ, zero, suc, ◌+◌, ◌-◌, ◌*◌, String, List, [], ◌∷◌, ◌++◌, Option, none, some, Bool, true, false,
  not, ◌&&◌, ◌||◌, if◌then◌else◌, is_empty, ltb,
}

-- `of_hundredths` gives the literals of the source; `is_falsy` holds of 0 and of what is no number.
pub record Numbers (N : Type 0) : Type 0 where
  pub of_hundredths : ℕ → N
  pub plus : N → N → N
  pub minus : N → N → N
  pub times : N → N → N
  pub over : N → N → N
  pub larger : N → N → N
  pub absolute : N → N
  pub hypotenuse : N → N → N
  pub is_falsy : N → Bool
  pub fixed : N → String

pub record Point (N : Type 0) : Type 0 where
  pub x : N
  pub y : N

-- A cubic curve, by its ends and its two handles.
pub record Curve (N : Type 0) : Type 0 where
  pub start : Point N
  pub first_handle : Point N
  pub second_handle : Point N
  pub finish : Point N

pub record Box (N : Type 0) : Type 0 where
  pub left : N
  pub right : N
  pub top : N
  pub width : N
  pub height : N

pub data Direction : Type 0 where
  inward outward : Direction

-- A path of the drawing; a base has no delay.
pub record Link (N : Type 0) : Type 0 where
  pub direction : Direction
  pub curve : Curve N
  pub delay : Option String

-- The page as it lies when it is drawn; `stacked` is the media query's match.
pub record Layout (N : Type 0) : Type 0 where
  pub stacked : Bool
  pub bounds : Box N
  pub core : Box N
  pub sources : List (Box N)
  pub targets : List (Box N)

-- `reveals` and `redrawers` count the observers in place; `draw_observed` and `links_observed` are the
-- marks of the map's element.
pub record Map (N : Type 0) : Type 0 where
  pub has_links : Bool
  pub view_box : Option (N × N)
  pub links : List (Link N)
  pub has_drawn : Bool
  pub draw_observed : Bool
  pub reveals : ℕ
  pub links_observed : Bool
  pub redrawers : ℕ

-- A new initialisation of the page; a change of size, or of the fonts; the map comes into view, or
-- leaves it, which only an observer in place tells.
pub data Event (N : Type 0) : Type 0 where
  initialized resized : Layout N → Event N
  seen : Bool → Event N

module _ {N : Type 0} (num : Numbers N) where
  unfoldable pub connector : Point N → Point N → Curve N
  connector from to =
      let bend =
        num.larger (num.of_hundredths 2800)
          (num.times (num.absolute (num.minus to.x from.x)) (num.of_hundredths 46)) in
      record {
        start = from;
        first_handle = record { x = num.plus from.x bend; y = from.y };
        second_handle = record { x = num.minus to.x bend; y = to.y };
        finish = to;
      }

  unfoldable pub shorten : Point N → Point N → N → Point N
  shorten point hub radius =
      let dx = num.minus hub.x point.x in
      let dy = num.minus hub.y point.y in
      let measured = num.hypotenuse dx dy in
      let size = if num.is_falsy measured then num.of_hundredths 100 else measured in
      record {
        x = num.minus hub.x (num.times (num.over dx size) radius);
        y = num.minus hub.y (num.times (num.over dy size) radius);
      }

  abbrev pub half : N → N
  half a = num.over a (num.of_hundredths 200)

  -- The middle of the core, from the corner of the map.
  unfoldable pub hub_of : Layout N → Point N
  hub_of l = record {
    x = num.plus (num.minus l.core.left l.bounds.left) (half l.core.width);
    y = num.plus (num.minus l.core.top l.bounds.top) (half l.core.height);
  }

  unfoldable pub radius_of : Layout N → N
  radius_of l = num.plus (half l.core.width) (num.of_hundredths 600)

  -- `addConnector`: the base and the pulse of one curve.
  unfoldable pub add_connector : Point N → Point N → Direction → ℕ → List (Link N)
  unfolding connector
  add_connector from to direction index =
      let curve = connector from to in
      let delay = num.fixed (num.minus (num.of_hundredths 0) (num.of_hundredths (index * 55))) in
      record { direction = direction; curve = curve; delay = none }
      ∷ record { direction = direction; curve = curve; delay = some delay }
      ∷ []

  unfoldable pub source_links : Layout N → ℕ → List (Box N) → List (Link N)
  unfolding hub_of radius_of shorten add_connector
  source_links l index [] = []
  source_links l index (box ∷ boxes) =
      let from : Point N = record {
        x = num.minus box.right l.bounds.left;
        y = num.plus (num.minus box.top l.bounds.top) (half box.height);
      } in
      add_connector from (shorten from (hub_of l) (radius_of l)) inward index
      ++ source_links l (index + 1) boxes

  unfoldable pub target_links : Layout N → ℕ → List (Box N) → List (Link N)
  unfolding hub_of radius_of shorten add_connector
  target_links l index [] = []
  target_links l index (box ∷ boxes) =
      let to : Point N = record {
        x = num.minus box.left l.bounds.left;
        y = num.plus (num.minus box.top l.bounds.top) (half box.height);
      } in
      add_connector (shorten to (hub_of l) (radius_of l)) to outward index
      ++ target_links l (index + 1) boxes

  -- `draw`: a map without a size stays as it was.
  unfoldable pub draw : Layout N → Map N → Map N
  unfolding source_links target_links
  draw l m =
      let stacked_map = record m { has_links = false; links = [] } in
      let linked = record m {
        has_links = true;
        view_box = some (l.bounds.width, l.bounds.height);
        links = source_links l 0 l.sources ++ target_links l 0 l.targets;
      } in
      if num.is_falsy l.bounds.width || num.is_falsy l.bounds.height
      then m
      else if l.stacked
      then stacked_map
      else linked

  -- The drawing that waits for the map to come into view; without an observer it is shown at once.
  unfoldable pub observe_reveal : Bool → Map N → Map N
  observe_reveal observable m =
      let waiting = record m { draw_observed = true; reveals = m.reveals + 1 } in
      if not observable
      then record m { has_drawn = true }
      else if m.draw_observed
      then m
      else waiting

  unfoldable pub observe_size : Map N → Map N
  observe_size m =
      if m.links_observed
      then m
      else record m { links_observed = true; redrawers = m.redrawers + 1 }

  -- `initializeConvergenceMap`, for a page that has the map and its core.
  unfoldable pub initialize : Bool → Layout N → Map N → Map N
  unfolding draw observe_reveal observe_size
  initialize observable l m =
      if is_empty l.sources && is_empty l.targets
      then m
      else observe_size (observe_reveal observable (draw l m))

  unfoldable pub on_seen : Bool → Map N → Map N
  on_seen is_intersecting m =
      if is_intersecting && ltb 0 m.reveals
      then record m { has_drawn = true; reveals = m.reveals - 1 }
      else m

  unfoldable pub step : Bool → Event N → Map N → Map N
  unfolding initialize draw on_seen
  step observable (initialized l) m = initialize observable l m
  step observable (resized l) m = draw l m
  step observable (seen is_intersecting) m = on_seen is_intersecting m

  unfoldable pub run : Bool → List (Event N) → Map N → Map N
  unfolding step
  run observable [] m = m
  run observable (e ∷ es) m = run observable es (step observable e m)

abbrev pub fresh : {N : Type 0} → Map N
fresh = record {
  has_links = false;
  view_box = none;
  links = [];
  has_drawn = false;
  draw_observed = false;
  reveals = 0;
  links_observed = false;
  redrawers = 0;
}
