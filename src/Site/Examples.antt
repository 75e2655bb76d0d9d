-- ===== src/Site/Examples.antt =====
-- The parts of a page at concrete inputs.
use inc_ql.Site.Process
use inc_ql.Site.Process.{Layout}
use inc_ql.Base.{
  ℕ, String, List, [], ◌∷◌, Option, none, some, Bool, true, false, not, ◌&&◌, ◌||◌, ◌≡◌, refl, ◌≤◌,
  ◌+◌, pos, ℤ, arith,
}
use inc_ql.Site.Navigation
use inc_ql.Site.Drawer
use inc_ql.Site.Book
use inc_ql.Site.Rail
use inc_ql.Site.Rail.Marks
use inc_ql.Site.Sidebar
use inc_ql.Site.Tabs
use inc_ql.Site.Tabs.Active
use inc_ql.Site.Tabs.Scroll

abbrev docs_routes : List Navigation.Route
docs_routes =
    record { section = "docs"; prefixes = "r" ∷ []; search_label = "Search" }
    ∷ record { section = "rfcs"; prefixes = "rfcs/" ∷ "" ∷ []; search_label = "Search RFCs" }
    ∷ []

longest_prefix :
    Navigation.active_section
      (Navigation.relative_path "/IncQL/" "/IncQL/rfcs/030/")
      docs_routes
      "home"
    ≡ "rfcs"
unfolding Navigation.relative_path Navigation.active_section Navigation.candidates
    Navigation.is_match inc_ql.Base.begins Navigation.longer Navigation.size
longest_prefix = refl

active_section-IsBest_example :
    Navigation.IsBest (Navigation.relative_path "/IncQL/" "/IncQL/rfcs/030/") docs_routes "home" (
      Navigation.active_section
        (Navigation.relative_path "/IncQL/" "/IncQL/rfcs/030/")
        docs_routes
        "home")
active_section-IsBest_example =
    Navigation.active_section-IsBest (Navigation.relative_path "/IncQL/" "/IncQL/rfcs/030/")
      docs_routes "home"

abbrev drawer_events : List Drawer.Event
drawer_events =
    Drawer.click ∷ Drawer.keydown "Enter" ∷ Drawer.changed_by true ∷ Drawer.keydown "a" ∷ []

abbrev closed_part : String → Book.Part
closed_part id = record { id = id; is_open = false; queued = false }

abbrev two_parts : List Book.Part
two_parts = closed_part "start" ∷ closed_part "plans" ∷ []

-- The address names the second part; the reader opens the first; the browser sends its events.
abbrev book_events : List Book.Event
book_events = Book.handles 1 ∷ Book.clicks 0 ∷ Book.handles 0 ∷ Book.handles 1 ∷ []

open_initially-run-one_open_example :
    Book.count_open (Book.run book_events (Book.open_initially "#plans" two_parts)) ≤ 1
unfolding Book.run Book.step Book.toggled Book.click Book.open_initially Book.requested_part
open_initially-run-one_open_example =
    Book.open_initially-run-one_open "#plans" book_events two_parts (omega arith) (refl, (refl, tt))

abbrev local_storage : Sidebar.Storage
local_storage = record { available = true; item = some "true" }

abbrev wide_page : Sidebar.Sidebar
wide_page = record {
  desktop = true;
  storage = local_storage;
  collapsed = false;
  body_collapsed = false;
  toggle_hidden = false;
  expanded = false;
  label = "";
  region_hidden = false;
}

abbrev sidebar_events : List Sidebar.SidebarEvent
sidebar_events = Sidebar.clicked ∷ Sidebar.media_changed false ∷ Sidebar.clicked ∷ []

visit_remembers_example :
    (Sidebar.visit (Sidebar.handle_all sidebar_events (Sidebar.visit wide_page))).collapsed
    ≡ (Sidebar.handle_all sidebar_events (Sidebar.visit wide_page)).collapsed
unfolding Sidebar.handle_all Sidebar.visit Sidebar.handle Sidebar.toggle_sidebar
    Sidebar.store_collapsed Sidebar.apply
visit_remembers_example = Sidebar.visit_remembers wide_page sidebar_events refl

abbrev rail_links : List Rail.RailLink
rail_links =
    record {
      architecture_link = "plan";
      offset_left = 40;
      offset_width = 60;
      is_marked = false;
      aria_location = false;
    }
    ∷ []

abbrev plan_section : Rail.Section
plan_section = record { id = "plan"; top = pos 40; bottom = pos 90 }

abbrev one_rail : Rail.Rail
one_rail = record {
  links = rail_links;
  elements = "plan" ∷ "trace" ∷ [];
  sections = [];
  reading_line = pos 0;
  is_scheduled = false;
  scroll_width = 100;
  client_width = 50;
  double_scroll_left = 0;
}

moved-frame-IsCurrent_example :
    (x : Rail.Section) × Rail.IsCurrent (pos 28) (plan_section ∷ []) x
    × Rail.IsMarkedBy x.id
        (Rail.rail_step Rail.frame
          (Rail.rail_step (Rail.moved (plan_section ∷ []) (pos 28)) one_rail)).links
    × (Rail.targets
          (Rail.rail_step Rail.frame
            (Rail.rail_step (Rail.moved (plan_section ∷ []) (pos 28)) one_rail)).links
        ≡ "plan" ∷ [])
moved-frame-IsCurrent_example = Rail.moved-frame-IsCurrent one_rail (pos 28) plan_section []

abbrev tab_at : String → ℕ → Tabs.Tab
tab_at id left = record {
  aria_controls = some id;
  aria_selected = false;
  tab_index = pos 0;
  offset_left = left;
  offset_width = 30;
}

abbrev surface_tabs : List Tabs.Tab
surface_tabs = tab_at "sql" 0 ∷ tab_at "dataframe" 30 ∷ tab_at "prism" 60 ∷ []

abbrev narrow_list : Tabs.TabList
narrow_list = record { scroll_width = 90; client_width = 50; start_padding = 4; scroll_left = 0 }

abbrev surfaces : Tabs.Group
surfaces = record {
  tabs = surface_tabs;
  panels = record { id = "sql"; is_hidden = false; panel_index = pos 0 } ∷ [];
  tab_list = some narrow_list;
  focused = none;
  same_plan = some false;
  is_ready = false;
}

abbrev tab_events : List Tabs.TabEvent
tab_events = Tabs.tab_key 0 "ArrowLeft" ∷ Tabs.tab_clicked 1 ∷ Tabs.tab_key 1 "Home" ∷ []

initialize-run_tabs-IsConsistent_example :
    Active.IsConsistent (Tabs.run_tabs tab_events (Tabs.initialize_group surfaces))
initialize-run_tabs-IsConsistent_example =
    Active.initialize-run_tabs-IsConsistent surfaces tab_events refl

scroll_to_shows_example :
    ((Tabs.scroll_to surface_tabs 1 (tab_at "dataframe" 30) narrow_list).scroll_left ≤ 30)
    × (60 ≤ (Tabs.scroll_to surface_tabs 1 (tab_at "dataframe" 30) narrow_list).scroll_left + 50)
    × ((Tabs.scroll_to surface_tabs 1 (tab_at "dataframe" 30) narrow_list).scroll_left + 50 ≤ 90)
scroll_to_shows_example =
    Scroll.scroll_to_shows narrow_list surface_tabs 1 (tab_at "dataframe" 30) refl refl
      (omega arith) (omega arith) (omega arith)

update-rail_run-IsMarkedOnce_example : Marks.IsMarkedOnce (
    Rail.rail_run
      (Rail.moved [] (pos 3) ∷ Rail.frame ∷ Rail.followed "trace" ∷ [])
      (Rail.update_from_scroll (record one_rail { sections = plan_section ∷ [] })))
update-rail_run-IsMarkedOnce_example =
    Marks.update-rail_run-IsMarkedOnce one_rail plan_section []
      (Rail.moved [] (pos 3) ∷ Rail.frame ∷ Rail.followed "trace" ∷ []) refl refl

abbrev three_cards : Layout
three_cards = record {
  stacked = false;
  bounds = record { left = pos 100; right = pos 700; top = pos 50; height = 80 };
  width = 600;
  cards =
      record { left = pos 100; right = pos 280; top = pos 50; height = 80 }
      ∷ record { left = pos 340; right = pos 480; top = pos 54; height = 76 }
      ∷ record { left = pos 540; right = pos 700; top = pos 50; height = 80 }
      ∷ [];
}

abbrev narrow_cards : Layout
narrow_cards = record three_cards { stacked = true }

abbrev bare_rail : Process.Rail
bare_rail = record { has_thread = false; view_box = none; chevrons = [] }
