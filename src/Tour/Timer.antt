-- ===== src/Tour/Timer.antt =====
-- When the callback of the tour is pending, through every sequence of events.
use inc_ql.Base.{
  ℕ, String, List, [], ◌∷◌, Option, none, some, Bool, true, false, not, ◌&&◌, if◌then◌else◌, ◌≡◌,
  refl, sym, ap, ◌∙◌, arith,
}
use mathlib.Core.Path.{subst}
use inc_ql.Tour.Layers.{Lookup, own, inherited, missing, look_up, in_layers, next_layer, Key}
use inc_ql.Tour.Machine.{
  selector, figure, inspector, Tour, Outcome, done, threw, after, ◌>>=◌, Hovered, Region,
  is_hovered, hover, clear_tour_timer, update_tour_ui, select_looked_up, select_layer, can_run_tour,
  schedule_tour, stop_tour, select_manually, Event, timer_fires, press_layer, point_at_layer,
  press_key, enter_region, leave_region, focus_in, press_toggle, change_visibility, change_motion,
  navigate, intersect, same_generation, on_timer, on_key, on_navigate, step, run, fresh,
  initial_layer, initialize,
}

abbrev pub is_some : Option ℕ → Bool
is_some none = false
is_some (some g) = true

-- A tour was asked for while motion is reduced, and not by the button.
abbrev pub is_unwanted : Tour → Bool
is_unwanted t = t.tour_requested && t.reduced_motion && not t.explicit_motion_opt_in

-- A callback is pending exactly when the tour may run, the page says so, the callback is of the
-- current generation, and reduced motion is respected.
pub record IsTimedAs (timer : Option ℕ) (generation : ℕ) (touring runs unwanted : Bool)
    : Type 0 where
  pub armed : is_some timer ≡ runs
  pub shown_touring : touring ≡ is_some timer
  pub current : (g : ℕ) → timer ≡ some g → g ≡ generation
  pub wanted : unwanted ≡ false

abbrev pub IsTimed : Tour → Type 0
IsTimed t = IsTimedAs t.tour_timer t.tour_generation t.is_touring (can_run_tour t) (is_unwanted t)

cleared_tour : Tour → Tour
cleared_tour t = update_tour_ui (clear_tour_timer t)

scheduled-IsTimed :
    (runs : Bool) (t : Tour)
    → can_run_tour t ≡ runs
    → is_unwanted t ≡ false
    → IsTimed (
        if runs
        then record (cleared_tour t) {
          is_touring = true;
          tour_timer = some (cleared_tour t).tour_generation;
        }
        else cleared_tour t)
unfolding cleared_tour update_tour_ui clear_tour_timer can_run_tour
scheduled-IsTimed true t e w = record {
  armed = sym e;
  shown_touring = refl;
  current = λ g q. cc;
  wanted = w;
}
scheduled-IsTimed false t e w = record {
  armed = sym e;
  shown_touring = refl;
  current = λ g q. cc;
  wanted = w;
}

schedule_tour-IsTimed : (t : Tour) → is_unwanted t ≡ false → IsTimed (schedule_tour t)
unfolding schedule_tour cleared_tour
schedule_tour-IsTimed t w = scheduled-IsTimed (can_run_tour t) t refl w

cleared-IsTimed :
    (t : Tour) → is_unwanted t ≡ false → can_run_tour t ≡ false → IsTimed (clear_tour_timer t)
unfolding clear_tour_timer can_run_tour
cleared-IsTimed t w rests = record {
  armed = ground arith;
  shown_touring = refl;
  current = λ g e. cc;
  wanted = w;
}

update_tour_ui-IsTimed : (t : Tour) → IsTimed t → IsTimed (update_tour_ui t)
unfolding update_tour_ui can_run_tour
update_tour_ui-IsTimed t h = h

stop_tour-IsTimed : (t : Tour) → IsTimed (stop_tour t)
unfolding stop_tour can_run_tour
stop_tour-IsTimed t = record {
  armed = refl;
  shown_touring = refl;
  current = λ g e. cc;
  wanted = refl;
}

select_looked_up-IsTimed :
    (l : Lookup) (name : String) (update_url announce : Bool) (t : Tour)
    → IsTimed t
    → IsTimed (after (select_looked_up l name update_url announce t))
unfolding select_looked_up can_run_tour
select_looked_up-IsTimed missing name update_url announce t h = h
select_looked_up-IsTimed inherited name update_url announce t h = h
select_looked_up-IsTimed (own l) name update_url announce t h = h

select_layer-IsTimed :
    (name : String) (update_url announce : Bool) (t : Tour)
    → IsTimed t
    → IsTimed (after (select_layer name update_url announce t))
unfolding select_layer
select_layer-IsTimed name update_url announce t h =
    select_looked_up-IsTimed (look_up name) name update_url announce t h

branch-IsTimed :
    (b : Bool) (o o' : Outcome)
    → IsTimed (after o)
    → IsTimed (after o')
    → IsTimed (after (if b then o else o'))
branch-IsTimed true o o' h h' = h
branch-IsTimed false o o' h h' = h'

then-IsTimed :
    (o : Outcome) (f : Tour → Tour)
    → ((t : Tour) → IsTimed t → IsTimed (f t))
    → IsTimed (after o)
    → IsTimed (after (o >>= λ t. done (f t)))
then-IsTimed (done t) f keep h = keep t h
then-IsTimed (threw t) f keep h = h

on_timer-IsTimed : (g : ℕ) (t : Tour) → IsTimed t → IsTimed (after (on_timer g t))
unfolding on_timer
on_timer-IsTimed g t h =
    branch-IsTimed (same_generation g t.tour_generation && can_run_tour t) _ (done t)
      (then-IsTimed (select_layer (next_layer t.current_layer) false false t) schedule_tour
        (λ t' h'. schedule_tour-IsTimed t' h'.wanted)
        (select_layer-IsTimed (next_layer t.current_layer) false false t h))
      h

select_manually-IsTimed : (name : String) (t : Tour) → IsTimed (after (select_manually name t))
unfolding select_manually
select_manually-IsTimed name t =
    select_layer-IsTimed name true true (stop_tour t) (stop_tour-IsTimed t)

on_key-IsTimed :
    (buttons : List String) (index : ℕ) (key : Key) (t : Tour)
    → IsTimed t
    → IsTimed (after (on_key buttons index key t))
unfolding on_key
on_key-IsTimed buttons index Key.other t h = h
on_key-IsTimed buttons index _ t h = select_manually-IsTimed _ t

on_navigate-IsTimed :
    (name : Option String) (t : Tour) → IsTimed t → IsTimed (after (on_navigate name t))
unfolding on_navigate can_run_tour
on_navigate-IsTimed none t h = h
on_navigate-IsTimed (some name) t h =
    branch-IsTimed (in_layers name) _ (done (record t { address = some name }))
      (select_layer-IsTimed name false true (stop_tour (record t { address = some name }))
        (stop_tour-IsTimed (record t { address = some name })))
      h

hover_held : (region : Region) (h : Hovered) → is_hovered (hover region true h) ≡ true
hover_held selector h = ground arith
hover_held figure h = ground arith
hover_held inspector h = ground arith

held_rests :
    (t : Tour) (region : Region)
    → can_run_tour (record t { hovered = hover region true t.hovered }) ≡ false
unfolding can_run_tour
held_rests t region = ground (arith, hover_held region t.hovered)

hidden_rests : (t : Tour) → can_run_tour (record t { document_visible = false }) ≡ false
unfolding can_run_tour
hidden_rests t = ground arith

away_rests : (t : Tour) → can_run_tour (record t { system_path_visible = false }) ≡ false
unfolding can_run_tour
away_rests t = ground arith

-- A tour that is wanted runs with motion as it does without.
restored_runs :
    (t : Tour)
    → is_unwanted t ≡ false
    → can_run_tour (record t { reduced_motion = false }) ≡ can_run_tour t
unfolding can_run_tour
restored_runs t w = ground arith

restored-IsTimed : (t : Tour) → IsTimed t → IsTimed (record t { reduced_motion = false })
restored-IsTimed t h = record {
  armed = h.armed ∙ sym (restored_runs t h.wanted);
  shown_touring = h.shown_touring;
  current = h.current;
  wanted = ground arith;
}

opted_in : (reduced : Bool) → (reduced && not reduced) ≡ false
opted_in reduced = ground arith

-- Every event, a callback of any generation among them, keeps the callback in step with the tour.
pub step-IsTimed : (e : Event) (t : Tour) → IsTimed t → IsTimed (after (step e t))
unfolding step
step-IsTimed (timer_fires generation) t h = on_timer-IsTimed generation t h
step-IsTimed (press_layer name) t h = select_manually-IsTimed name t
step-IsTimed (point_at_layer name) t h = select_layer-IsTimed name false false t h
step-IsTimed (press_key buttons index key) t h = on_key-IsTimed buttons index key t h
step-IsTimed (enter_region region) t h = update_tour_ui-IsTimed _ (
    cleared-IsTimed (record t { hovered = hover region true t.hovered }) h.wanted
      (held_rests t region))
step-IsTimed (leave_region region) t h = schedule_tour-IsTimed _ h.wanted
step-IsTimed (focus_in true) t h = h
step-IsTimed (focus_in false) t h = stop_tour-IsTimed t
step-IsTimed press_toggle t h =
    branch-IsTimed t.tour_requested (done (stop_tour t)) _ (stop_tour-IsTimed t)
      (schedule_tour-IsTimed _ (opted_in t.reduced_motion))
step-IsTimed (change_visibility true) t h = schedule_tour-IsTimed _ h.wanted
step-IsTimed (change_visibility false) t h =
    cleared-IsTimed (record t { document_visible = false }) h.wanted (hidden_rests t)
step-IsTimed (change_motion true) t h = stop_tour-IsTimed _
step-IsTimed (change_motion false) t h =
    update_tour_ui-IsTimed (record t { reduced_motion = false }) (restored-IsTimed t h)
step-IsTimed (navigate name) t h = on_navigate-IsTimed name t h
step-IsTimed (intersect true) t h = schedule_tour-IsTimed _ h.wanted
step-IsTimed (intersect false) t h =
    update_tour_ui-IsTimed _
      (cleared-IsTimed (record t { system_path_visible = false }) h.wanted (away_rests t))

run-IsTimed : (es : List Event) (t : Tour) → IsTimed t → IsTimed (run es t)
unfolding run
run-IsTimed [] t h = h
run-IsTimed (e ∷ es) t h = run-IsTimed es (after (step e t)) (step-IsTimed e t h)

fresh_wanted :
    (address : Option String) (visible reduced : Bool)
    → is_unwanted (fresh address visible reduced) ≡ false
unfolding fresh
fresh_wanted address visible reduced = ground arith

select_looked_up_wanted :
    (l : Lookup) (name : String) (t : Tour)
    → is_unwanted (after (select_looked_up l name false false t)) ≡ is_unwanted t
unfolding select_looked_up
select_looked_up_wanted (own l) name t = refl
select_looked_up_wanted inherited name t = refl
select_looked_up_wanted missing name t = refl

scheduled-done :
    (o : Outcome) (t : Tour)
    → is_unwanted (after o) ≡ false
    → (o >>= λ t'. done (schedule_tour t')) ≡ done t
    → IsTimed t
scheduled-done (done t') t w e = subst IsTimed (ap after e) (schedule_tour-IsTimed t' w)
scheduled-done (threw t') t w e = cc

-- On a page whose initialisation is done, after every sequence of events, callbacks of old
-- generations among them, a callback is pending exactly when the tour may run: it is asked for, the
-- page and the path are visible, the pointer is in no region, and motion is not reduced or the
-- reader opted in. The page is marked as touring exactly then, and the callback is of the current
-- generation.
pub initialize-run-IsTimed :
    (address : Option String) (visible reduced : Bool) (es : List Event) (t : Tour)
    → initialize address visible reduced ≡ done t
    → IsTimed (run es t)
unfolding initialize select_layer
initialize-run-IsTimed address visible reduced es t e = run-IsTimed es t (
    scheduled-done _ t
      (select_looked_up_wanted (look_up (initial_layer address)) _ (fresh address visible reduced)
        ∙ fresh_wanted address visible reduced)
      e)
