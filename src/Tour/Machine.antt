-- ===== src/Tour/Machine.antt =====
-- `initializeCrystalArchitecture`: the variables of the closure, what the page shows of them, and
-- one function for each event.
use Prim.Native.Nat.{compare, Ordering}
use Prim.Native.String
use inc_ql.Base.{
  ℕ, String, List, [], ◌∷◌, Option, none, some, Bool, true, false, not, ◌&&◌, ◌||◌, if◌then◌else◌,
  length, get_elem?, get_or, ◌+◌,
}
use inc_ql.Base.{decimal}
use inc_ql.Tour.Layers.{
  Layer, Lookup, own, inherited, missing, look_up, in_layers, layer_order, index_of, next_layer,
  Key, keyboard_index,
}

-- The regions that hold the tour while the pointer is in them; `hoveredRegions`.
pub record Hovered : Type 0 where
  pub selector : Bool
  pub figure : Bool
  pub inspector : Bool

pub data Region : Type 0 where
  selector figure inspector : Region

-- `tour_timer` is the generation that the pending callback remembers. `shown` is the layer of the
-- inspector, `selected` the layer whose buttons are marked, `address` the layer of the address.
pub record Tour : Type 0 where
  pub current_layer : String
  pub tour_timer : Option ℕ
  pub tour_generation : ℕ
  pub tour_requested : Bool
  pub explicit_motion_opt_in : Bool
  pub system_path_visible : Bool
  pub hovered : Hovered
  pub is_touring : Bool
  pub document_visible : Bool
  pub reduced_motion : Bool
  pub shown : Option Layer
  pub selected : String
  pub announcement : String
  pub address : Option String
  pub toggle_label : String
  pub status : String

-- What a handler comes to: it is done, or it threw where it stood.
pub data Outcome : Type 0 where
  done : Tour → Outcome
  threw : Tour → Outcome

abbrev pub after : Outcome → Tour
after (done t) = t
after (threw t) = t

infixl 5 ◌>>=◌
abbrev pub ◌>>=◌ : Outcome → (Tour → Outcome) → Outcome
done t >>= k = k t
threw t >>= k = threw t

abbrev pub is_hovered : Hovered → Bool
is_hovered h = h.selector || h.figure || h.inspector

abbrev pub hover : Region → Bool → Hovered → Hovered
hover selector b h = record h { selector = b }
hover figure b h = record h { figure = b }
hover inspector b h = record h { inspector = b }

unfoldable pub clear_tour_timer : Tour → Tour
clear_tour_timer t = record t {
  tour_timer = none;
  tour_generation = t.tour_generation + 1;
  is_touring = false;
}

-- `layers[currentLayer].title` in a template; an inherited value has none.
unfoldable pub title_text : Lookup → String
title_text (own l) = l.title
title_text inherited = "undefined"
title_text missing = ""

unfoldable pub tour_status : Tour → String
unfolding title_text
tour_status t =
    if t.tour_requested
    then if is_hovered t.hovered
      then "Tour paused while you inspect"
      else if not t.system_path_visible
      then "Tour waits until this path is visible"
      else String.◌++◌ "Automatic tour · " (title_text (look_up t.current_layer))
    else if t.reduced_motion
    then "Automatic tour paused for reduced motion"
    else "Automatic layer tour paused"

unfoldable pub update_tour_ui : Tour → Tour
unfolding tour_status
update_tour_ui t = record t {
  toggle_label =
      if t.tour_requested then "Stop automatic layer tour" else "Start automatic layer tour";
  status = tour_status t;
}

-- `layerOrder.indexOf(name) + 1`
unfoldable pub position : Option ℕ → ℕ
position none = 0
position (some i) = i + 1

unfoldable pub announce_text : String → Layer → String
unfolding position index_of
announce_text name l = String.◌++◌ l.title (
    String.◌++◌ ", layer " (
      String.◌++◌ (decimal (position (index_of name layer_order)))
        (String.◌++◌ " of " (decimal (length layer_order)))))

-- `selectLayer`. An inherited value passes the guard; its lists are `undefined`, and walking them
-- throws when the buttons are already marked.
unfoldable pub select_looked_up : Lookup → String → Bool → Bool → Tour → Outcome
unfolding update_tour_ui announce_text
select_looked_up missing name update_url announce t = done t
select_looked_up inherited name update_url announce t =
    threw (record t { current_layer = name; selected = name; shown = none })
select_looked_up (own l) name update_url announce t = done (
    update_tour_ui (record t {
      current_layer = name;
      selected = name;
      shown = some l;
      address = if update_url then some name else t.address;
      announcement = if announce then announce_text name l else t.announcement;
    }))

unfoldable pub select_layer : String → Bool → Bool → Tour → Outcome
unfolding select_looked_up
select_layer name update_url announce t = select_looked_up (look_up name) name update_url announce t

unfoldable pub can_run_tour : Tour → Bool
can_run_tour t =
    t.tour_requested
    && t.document_visible
    && t.system_path_visible
    && not (is_hovered t.hovered)
    && (not t.reduced_motion || t.explicit_motion_opt_in)

unfoldable pub schedule_tour : Tour → Tour
unfolding clear_tour_timer update_tour_ui can_run_tour
schedule_tour t =
    let cleared = update_tour_ui (clear_tour_timer t) in
    let scheduled = record cleared {
      is_touring = true;
      tour_timer = some cleared.tour_generation;
    } in
    if can_run_tour cleared then scheduled else cleared

unfoldable pub stop_tour : Tour → Tour
unfolding clear_tour_timer update_tour_ui
stop_tour t =
    update_tour_ui
      (clear_tour_timer (record t { tour_requested = false; explicit_motion_opt_in = false }))

unfoldable pub select_manually : String → Tour → Outcome
select_manually name t = select_layer name true true (stop_tour t)

-- `timer_fires g`: a callback runs that remembers the generation `g`, current or not.
pub data Event : Type 0 where
  timer_fires : ℕ → Event
  press_layer point_at_layer : String → Event
  press_key : List String → ℕ → Key → Event
  enter_region leave_region : Region → Event
  focus_in : Bool → Event
  press_toggle : Event
  change_visibility : Bool → Event
  change_motion : Bool → Event
  navigate : Option String → Event
  intersect : Bool → Event

unfoldable pub same_generation : ℕ → ℕ → Bool
same_generation a b = elim (compare a b) [ Ordering.eq ↦ true | _ ↦ false ]

unfoldable pub on_timer : ℕ → Tour → Outcome
on_timer generation t =
    let moved =
      select_layer (next_layer t.current_layer) false false t >>= λ t'. done (schedule_tour t') in
    if same_generation generation t.tour_generation && can_run_tour t then moved else done t

-- The key's handler of the button at `index`; the keys that are not listed do nothing.
unfoldable pub on_key : List String → ℕ → Key → Tour → Outcome
on_key buttons index Key.other t = done t
on_key buttons index key t =
    select_manually (get_or (get_elem? buttons (keyboard_index index key (length buttons))) "") t

unfoldable pub on_navigate : Option String → Tour → Outcome
on_navigate none t = done (record t { address = none })
on_navigate (some name) t =
    let arrived = record t { address = some name } in
    let chosen = select_layer name false true (stop_tour arrived) in
    if in_layers name then chosen else done arrived

unfoldable pub step : Event → Tour → Outcome
step (timer_fires generation) t = on_timer generation t
step (press_layer name) t = select_manually name t
step (point_at_layer name) t = select_layer name false false t
step (press_key buttons index key) t = on_key buttons index key t
step (enter_region region) t =
    done (update_tour_ui (clear_tour_timer (record t { hovered = hover region true t.hovered })))
step (leave_region region) t =
    done (schedule_tour (record t { hovered = hover region false t.hovered }))
step (focus_in in_toggle) t = if in_toggle then done t else done (stop_tour t)
step press_toggle t =
    if t.tour_requested
    then done (stop_tour t)
    else done (
        schedule_tour
          (record t { tour_requested = true; explicit_motion_opt_in = t.reduced_motion }))
step (change_visibility visible) t =
    let seen = record t { document_visible = visible } in
    if visible then done (schedule_tour seen) else done (clear_tour_timer seen)
step (change_motion reduced) t =
    let moved = record t { reduced_motion = reduced } in
    if reduced then done (stop_tour moved) else done (update_tour_ui moved)
step (navigate name) t = on_navigate name t
step (intersect visible) t =
    let seen = record t { system_path_visible = visible } in
    if visible then done (schedule_tour seen) else done (update_tour_ui (clear_tour_timer seen))

-- A handler that throws leaves the page running with what it did so far.
unfoldable pub run : List Event → Tour → Tour
run [] t = t
run (e ∷ es) t = run es (after (step e t))

unfoldable pub initial_layer : Option String → String
initial_layer none = "prism"
initial_layer (some name) = if in_layers name then name else "prism"

unfoldable pub fresh : Option String → Bool → Bool → Tour
fresh address document_visible reduced_motion = record {
  current_layer = "prism";
  tour_timer = none;
  tour_generation = 0;
  tour_requested = not reduced_motion;
  explicit_motion_opt_in = false;
  system_path_visible = true;
  hovered = record { selector = false; figure = false; inspector = false };
  is_touring = false;
  document_visible = document_visible;
  reduced_motion = reduced_motion;
  shown = none;
  selected = "";
  announcement = "";
  address = address;
  toggle_label = "";
  status = "";
}

-- The selection and the scheduling with which the initialisation ends.
unfoldable pub initialize : Option String → Bool → Bool → Outcome
initialize address document_visible reduced_motion = do
  t ←
      select_layer (initial_layer address) false false
        (fresh address document_visible reduced_motion)
  done (schedule_tour t)
