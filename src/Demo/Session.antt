-- ===== src/Demo/Session.antt =====
-- The demo's two rows of buttons, each of which sets a part of `state` and draws the page.
use inc_ql.Base.{String, [], ◌∷◌, true, false, has, keys, if◌then◌else◌}
use inc_ql.Demo.Render.{Page, Outcome, done, render}

pub data Click : Type 0 where
  choose_focus choose_projection : String → Click

-- The listeners of `focusButtons` and `projectionButtons`: a value of no button of the page has none.
unfoldable pub click : Click → Page → Outcome
unfolding render
click (choose_focus value) page =
    let drawn = render (record page { focus_id = value }) in
    if has (keys page.pressed_focus) value then drawn else done page
click (choose_projection value) page =
    let drawn = render (record page { projection_level = value }) in
    if has (keys page.pressed_level) value then drawn else done page

-- The page as index.html writes it, before the script.
abbrev pub written : Page
written = record {
  focus_id = "product";
  projection_level = "abstract";
  response_title = "Local-only boundary";
  snapshot = "Input snapshot 28";
  question = "What constraint should guide the product checkpoint?";
  answer =
      "Pilot knowledge stays in the on-device workspace. No client document or embedding is sent to a remote provider by default.";
  source = "Northbridge product checkpoint, 28 August 2026";
  selected_atom = "northbridge-local-only-boundary@1";
  trace_result = "1 selected / 4 excluded";
  projection_meta = "Abstract / 7 declared tokens";
  trace_id = "trace: product checkpoint";
  run_receipt = "receipt: product checkpoint";
  activation_name = "Product checkpoint focus";
  activation_status = "Active now";
  source_memory = "turn-004";
  atom_count = "2 exact revisions";
  pressed_focus = ("product", true) ∷ ("meeting", false) ∷ ("restored", false) ∷ [];
  pressed_level = ("abstract", true) ∷ ("overview", false) ∷ ("evidence", false) ∷ [];
  active_timeline = ("product", false) ∷ ("meeting", false) ∷ ("restored", false) ∷ [];
  atoms = [];
  scope_path = [];
  candidates = [];
}

-- The script's first `render()`
unfoldable pub load : Outcome
unfolding render
load = render written
