-- ===== src/Tour/Choice.antt =====
-- What a reader's choice does to the tour, and what an inherited name does to the page.
use inc_ql.Base.{
  ℕ, String, List, [], ◌∷◌, Option, none, some, Bool, true, false, if◌then◌else◌, has, ◌≡◌, refl,
  ◌≢◌, arith, All, every, every-has,
}
use inc_ql.Tour.Layers.{
  Layer, Lookup, own, inherited, missing, look_up, in_layers, inherited_names, Key,
}
use inc_ql.Tour.Machine.{
  Tour, Outcome, done, threw, after, clear_tour_timer, update_tour_ui, select_looked_up,
  select_layer, can_run_tour, schedule_tour, stop_tour, select_manually, Event, timer_fires,
  press_layer, point_at_layer, press_key, enter_region, leave_region, focus_in, press_toggle,
  change_visibility, change_motion, navigate, intersect, same_generation, on_timer, on_key,
  on_navigate, step, run, fresh, initial_layer, initialize,
}

same_generation-eq : (a b : ℕ) → a ≢ b → same_generation a b ≡ false
unfolding same_generation
same_generation-eq a b h = ground arith

-- A callback of an old generation changes nothing, whatever the state.
stale_timer : (g : ℕ) (t : Tour) → g ≢ t.tour_generation → step (timer_fires g) t ≡ done t
unfolding step on_timer
stale_timer g t h = rw (same_generation-eq g t.tour_generation h)

-- The tour is not asked for, and no callback is pending.
pub record IsStopped (t : Tour) : Type 0 where
  pub not_requested : t.tour_requested ≡ false
  pub no_timer : t.tour_timer ≡ none

abbrev pub IsNotToggle : Event → Type 0
IsNotToggle press_toggle = ⊥
IsNotToggle _ = Unit

stop_tour-IsStopped : (t : Tour) → IsStopped (stop_tour t)
unfolding stop_tour
stop_tour-IsStopped t = record { not_requested = refl; no_timer = refl }

select_looked_up-IsStopped :
    (l : Lookup) (name : String) (update_url announce : Bool) (t : Tour)
    → IsStopped t
    → IsStopped (after (select_looked_up l name update_url announce t))
unfolding select_looked_up
select_looked_up-IsStopped (own l) name update_url announce t h = record {
  not_requested = h.not_requested;
  no_timer = h.no_timer;
}
select_looked_up-IsStopped inherited name update_url announce t h = record {
  not_requested = h.not_requested;
  no_timer = h.no_timer;
}
select_looked_up-IsStopped missing name update_url announce t h = h

select_layer-IsStopped :
    (name : String) (update_url announce : Bool) (t : Tour)
    → IsStopped t
    → IsStopped (after (select_layer name update_url announce t))
unfolding select_layer
select_layer-IsStopped name update_url announce t h =
    select_looked_up-IsStopped (look_up name) name update_url announce t h

schedule_tour-IsStopped : (t : Tour) → t.tour_requested ≡ false → IsStopped (schedule_tour t)
unfolding schedule_tour
schedule_tour-IsStopped t h = ground arith

stopped_rests : (t : Tour) → IsStopped t → can_run_tour t ≡ false
unfolding can_run_tour
stopped_rests t h = ground arith

on_timer-IsStopped : (g : ℕ) (t : Tour) → IsStopped t → on_timer g t ≡ done t
unfolding on_timer
on_timer-IsStopped g t h = ground (arith, stopped_rests t h)

select_manually-IsStopped : (name : String) (t : Tour) → IsStopped (after (select_manually name t))
unfolding select_manually
select_manually-IsStopped name t =
    select_layer-IsStopped name true true (stop_tour t) (stop_tour-IsStopped t)

on_key-IsStopped :
    (buttons : List String) (index : ℕ) (key : Key) (t : Tour)
    → IsStopped t
    → IsStopped (after (on_key buttons index key t))
unfolding on_key
on_key-IsStopped buttons index Key.other t h = h
on_key-IsStopped buttons index _ t h = select_manually-IsStopped _ t

branch-IsStopped :
    (b : Bool) (o o' : Outcome)
    → IsStopped (after o)
    → IsStopped (after o')
    → IsStopped (after (if b then o else o'))
branch-IsStopped true o o' h h' = h
branch-IsStopped false o o' h h' = h'

on_navigate-IsStopped :
    (name : Option String) (t : Tour) → IsStopped t → IsStopped (after (on_navigate name t))
unfolding on_navigate
on_navigate-IsStopped none t h = record { not_requested = h.not_requested; no_timer = h.no_timer }
on_navigate-IsStopped (some name) t h =
    branch-IsStopped (in_layers name) _ (done (record t { address = some name }))
      (select_layer-IsStopped name false true _
        (stop_tour-IsStopped (record t { address = some name })))
      (record { not_requested = h.not_requested; no_timer = h.no_timer })

step-IsStopped : (e : Event) (t : Tour) → IsNotToggle e → IsStopped t → IsStopped (after (step e t))
unfolding step clear_tour_timer update_tour_ui
step-IsStopped (timer_fires generation) t n h = rw (on_timer-IsStopped generation t h) h
step-IsStopped (press_layer name) t n h = select_manually-IsStopped name t
step-IsStopped (point_at_layer name) t n h = select_layer-IsStopped name false false t h
step-IsStopped (press_key buttons index key) t n h = on_key-IsStopped buttons index key t h
step-IsStopped (enter_region region) t n h = record {
  not_requested = h.not_requested;
  no_timer = refl;
}
step-IsStopped (leave_region region) t n h = schedule_tour-IsStopped _ h.not_requested
step-IsStopped (focus_in true) t n h = h
step-IsStopped (focus_in false) t n h = stop_tour-IsStopped t
step-IsStopped press_toggle t n h = absurd n
step-IsStopped (change_visibility true) t n h = schedule_tour-IsStopped _ h.not_requested
step-IsStopped (change_visibility false) t n h = record {
  not_requested = h.not_requested;
  no_timer = refl;
}
step-IsStopped (change_motion true) t n h = stop_tour-IsStopped _
step-IsStopped (change_motion false) t n h = record {
  not_requested = h.not_requested;
  no_timer = h.no_timer;
}
step-IsStopped (navigate name) t n h = on_navigate-IsStopped name t h
step-IsStopped (intersect true) t n h = schedule_tour-IsStopped _ h.not_requested
step-IsStopped (intersect false) t n h = record { not_requested = h.not_requested; no_timer = refl }

run-IsStopped :
    (es : List Event) (t : Tour) → All IsNotToggle es → IsStopped t → IsStopped (run es t)
unfolding run
run-IsStopped [] t n h = h
run-IsStopped (e ∷ es) t (n, ns) h = run-IsStopped es (after (step e t)) ns (step-IsStopped e t n h)

-- A press on the button of a layer of the table shows that layer and names it in the address, and
-- the tour stays stopped, with no callback pending, through all events but a press on its toggle.
pub press_layer-stops :
    (name : String) (l : Layer) (t : Tour) (es : List Event)
    → look_up name ≡ own l
    → All IsNotToggle es
    → (let chosen = after (step (press_layer name) t) in
        (chosen.current_layer ≡ name)
        × (chosen.selected ≡ name)
        × (chosen.shown ≡ some l)
        × (chosen.address ≡ some name)
        × IsStopped (run es chosen))
unfolding step select_manually select_layer select_looked_up
press_layer-stops name l t es known n =
    let stopped = run-IsStopped es _ n (select_manually-IsStopped name t) in
    rw (known, select_looked_up) (refl, refl, refl, refl, rw (known, select_looked_up) at stopped)

is_inherited : Lookup → Bool
is_inherited inherited = true
is_inherited _ = false

inherited_table : every (λ name. is_inherited (look_up name)) inherited_names ≡ true
unfolding look_up is_inherited
inherited_table = refl

is_inherited-eq : (l : Lookup) → is_inherited l ≡ true → l ≡ inherited
unfolding is_inherited
is_inherited-eq (own l) h = cc
is_inherited-eq inherited h = refl
is_inherited-eq missing h = cc

look_up-inherited : (name : String) → has inherited_names name ≡ true → look_up name ≡ inherited
look_up-inherited name h =
    is_inherited-eq (look_up name)
      (every-has (λ n. is_inherited (look_up n)) inherited_names name inherited_table h)

in_layers-inherited : (name : String) → has inherited_names name ≡ true → in_layers name ≡ true
unfolding in_layers
in_layers-inherited name h = rw (look_up-inherited name h, in_layers)

-- An address that names what every object inherits, such as ?layer=constructor, makes the
-- initialisation throw, where no layer is shown yet and no callback is pending.
pub initialize_inherited :
    (name : String) (visible reduced : Bool)
    → has inherited_names name ≡ true
    → (t : Tour) × (initialize (some name) visible reduced ≡ threw t)
      × (t.tour_timer ≡ none)
      × (t.shown ≡ none)
unfolding initialize initial_layer select_layer select_looked_up fresh
initialize_inherited name visible reduced h =
    rw (in_layers-inherited name h)
      (rw (look_up-inherited name h, select_looked_up) (_, refl, refl, refl))
