-- ===== src/Site/Drawer.antt =====
-- `initializeSiteDrawerToggle`: the toggle of the navigation drawer and the check box behind it.
use inc_ql.Base.{
  String, List, [], ◌∷◌, Bool, false, not, if◌then◌else◌, ◌≡◌, refl, ◌==◌, ◌||◌, arith,
}

pub record Drawer : Type 0 where
  pub checked : Bool
  pub expanded : Bool
  pub label : String
  pub title : String

abbrev pub label_for : Bool → String
label_for expanded = if expanded then "Close navigation" else "Open navigation"

unfoldable pub sync : Drawer → Drawer
sync d = record d { expanded = d.checked; label = label_for d.checked; title = label_for d.checked }

-- The change is dispatched, which runs `sync`.
unfoldable pub handle_toggle : Drawer → Drawer
unfolding sync
handle_toggle d = sync (record d { checked = not d.checked })

-- The key's name, as in `event.key`.
unfoldable pub handle_keydown : String → Drawer → Drawer
handle_keydown key d =
    let toggled = handle_toggle d in if key == "Enter" || key == " " then toggled else d

-- `changed_by checked`: the reader or another script set the box, and the browser sent the event.
pub data Event : Type 0 where
  click : Event
  keydown : String → Event
  changed_by : Bool → Event

unfoldable pub step : Event → Drawer → Drawer
unfolding handle_toggle handle_keydown
step click d = handle_toggle d
step (keydown key) d = handle_keydown key d
step (changed_by checked) d = sync (record d { checked = checked })

unfoldable pub run : List Event → Drawer → Drawer
run [] d = d
run (e ∷ es) d = run es (step e d)

unfoldable pub initialize : Bool → Drawer
unfolding sync
initialize checked = sync (record { checked = checked; expanded = false; label = ""; title = "" })

pub record IsSynced (d : Drawer) : Type 0 where
  pub expanded_checked : d.expanded ≡ d.checked
  pub label_checked : d.label ≡ label_for d.checked
  pub title_checked : d.title ≡ label_for d.checked

step-IsSynced : (e : Event) (d : Drawer) → IsSynced d → IsSynced (step e d)
unfolding step
step-IsSynced click d h = ground arith
step-IsSynced (keydown key) d h = ground arith
step-IsSynced (changed_by checked) d h = ground arith

run-IsSynced : (es : List Event) (d : Drawer) → IsSynced d → IsSynced (run es d)
unfolding run
run-IsSynced [] d h = h
run-IsSynced (e ∷ es) d h = run-IsSynced es (step e d) (step-IsSynced e d h)

-- After every sequence of presses, keys and changes the toggle announces the drawer as it is, and
-- its label names the opposite action.
initialize-run-IsSynced :
    (checked : Bool) (es : List Event) → IsSynced (run es (initialize checked))
unfolding initialize
initialize-run-IsSynced checked es =
    run-IsSynced es (initialize checked)
      (record { expanded_checked = refl; label_checked = refl; title_checked = refl })
