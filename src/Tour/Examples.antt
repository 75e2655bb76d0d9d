-- ===== src/Tour/Examples.antt =====
-- The tour of the architecture page, on a few events.
use inc_ql.Tour.Progress.{fires, IsUnderWay, fires_reach_all}
use inc_ql.Base.{ℕ, List, [], ◌∷◌, none, some, true, false, ◌≡◌, refl, ◌<◌, arith}
use inc_ql.Tour.Layers.{
  own, session, look_up, next_layer, arrow_left, arrow_right, keyboard_index, keyboard_index_cycle,
}
use inc_ql.Tour.Machine.{
  Tour, done, threw, after, Event, timer_fires, press_layer, enter_region, leave_region, figure,
  step, run, fresh, initialize, initial_layer, select_layer, select_looked_up, schedule_tour,
  on_timer, same_generation, clear_tour_timer, update_tour_ui, can_run_tour,
}
use inc_ql.Tour.Timer.{IsTimed, initialize-run-IsTimed}
use inc_ql.Tour.Choice.{IsStopped, press_layer-stops, initialize_inherited}

keyboard_index_cycle_example :
    (keyboard_index 4 arrow_right 5 < 5)
    × (keyboard_index (keyboard_index 4 arrow_right 5) arrow_left 5 ≡ 4)
    × (keyboard_index (keyboard_index 4 arrow_left 5) arrow_right 5 ≡ 4)
keyboard_index_cycle_example = keyboard_index_cycle 4 5 arrow_right (omega arith)

abbrev start : Tour
start = fresh none true false

-- The page at an address that names no layer.
abbrev opened : Tour
opened = after (initialize none true false)

opened_done : initialize none true false ≡ done opened
unfolding initialize initial_layer look_up select_layer select_looked_up fresh schedule_tour
opened_done = refl

abbrev glance : List Event
glance = enter_region figure ∷ timer_fires 1 ∷ leave_region figure ∷ timer_fires 3 ∷ []

glanced : (run glance opened).current_layer ≡ "substrait"
unfolding run step on_timer same_generation next_layer initialize initial_layer look_up select_layer
    select_looked_up fresh schedule_tour clear_tour_timer update_tour_ui can_run_tour
glanced = refl

initialize-run-IsTimed_example : IsTimed (run glance opened)
initialize-run-IsTimed_example = initialize-run-IsTimed none true false glance opened opened_done

session_known : look_up "session" ≡ own session
unfolding look_up
session_known = refl

press_layer-stops_example :
    (let chosen = after (step (press_layer "session") opened) in
      (chosen.current_layer ≡ "session")
      × (chosen.selected ≡ "session")
      × (chosen.shown ≡ some session)
      × (chosen.address ≡ some "session")
      × IsStopped (run glance chosen))
press_layer-stops_example =
    press_layer-stops "session" session opened glance session_known (tt, (tt, (tt, (tt, tt))))

initialize_inherited_example :
    (t : Tour) × (initialize (some "constructor") true false ≡ threw t)
    × (t.tour_timer ≡ none)
    × (t.shown ≡ none)
initialize_inherited_example = initialize_inherited "constructor" true false refl

opened-IsUnderWay : IsUnderWay opened
unfolding initialize initial_layer look_up select_layer select_looked_up fresh schedule_tour
    clear_tour_timer update_tour_ui can_run_tour
opened-IsUnderWay = record { known = refl; can_run = refl; pending = refl }

fires_reach_all_example :
    (m : ℕ) × (m < 5) × ((fires m opened).current_layer ≡ "author") × IsUnderWay (fires m opened)
fires_reach_all_example = fires_reach_all opened "author" opened-IsUnderWay refl
