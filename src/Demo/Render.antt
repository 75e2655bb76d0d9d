-- ===== src/Demo/Render.antt =====
-- The functions that draw the demo's page: `factFor`, `candidateStatus`, `renderAtoms`,
-- `renderScopePath`, `renderCandidates` and `render`. A read that throws is `none` or `threw`.
use Prim.Native.String
use Prim.Native.String.{[], ◌∷◌}
use inc_ql.Base.{
  ℕ, ◌+◌, ◌-◌, String, List, [], ◌∷◌, Option, none, some, Bool, ◌==◌, if◌then◌else◌, ltb, length,
  find, keep, has, get_or, begins, cut, get_entry, template, decimal,
}
use inc_ql.Demo.Facts.{Fact, Projection, facts, projection_names}
use inc_ql.Demo.Focus.{Focus, Hop, focus_states}

pub data Treatment : Type 0 where
  selected bound excluded : Treatment

-- A row of the list of candidates, and a line of the scope path and of the atoms.
pub record Candidate : Type 0 where
  pub class_name : String
  pub rank : String
  pub title : String
  pub reference : String
  pub label : String

pub record Step : Type 0 where
  pub ordinal : String
  pub hop : Hop

pub record Atom : Type 0 where
  pub title : String
  pub reference : String

-- What the page shows. `focus_id` and `projection_level` are the script's `state`; `pressed_focus`
-- and `pressed_level` are the values whose buttons are pressed, `active_timeline` the active entry
-- of the memory history.
pub record Page : Type 0 where
  pub focus_id : String
  pub projection_level : String
  pub response_title : String
  pub snapshot : String
  pub question : String
  pub answer : String
  pub source : String
  pub selected_atom : String
  pub trace_result : String
  pub projection_meta : String
  pub trace_id : String
  pub run_receipt : String
  pub activation_name : String
  pub activation_status : String
  pub source_memory : String
  pub atom_count : String
  pub pressed_focus : List (String × Bool)
  pub pressed_level : List (String × Bool)
  pub active_timeline : List (String × Bool)
  pub atoms : List Atom
  pub scope_path : List Step
  pub candidates : List Candidate

-- What a handler comes to: it is done, or it threw where it stood.
pub data Outcome : Type 0 where
  done : Page → Outcome
  threw : Page → Outcome

abbrev pub after : Outcome → Page
after (done page) = page
after (threw page) = page

unfoldable pub fact_for : String → Option Fact
fact_for id = find (λ (f : Fact). f.id == id) facts

unfoldable pub candidate_status : Focus → Fact → Treatment
candidate_status focus fact =
    if fact.id == focus.selected_id
    then selected
    else if has focus.atom_ids fact.id
    then bound
    else excluded

abbrev pub label_of : Treatment → String
label_of selected = "Selected"
label_of bound = "Bound limit"
label_of excluded = "Focus excluded"

abbrev pub class_of : Treatment → String
class_of selected = "selected"
class_of bound = "bound"
class_of excluded = "excluded"

-- `String(n).padStart(2, "0")`
unfoldable pub two_digits : ℕ → String
two_digits n = if ltb n 10 then String.◌++◌ "0" (decimal n) else decimal n

unfoldable pub add_atom : Option Fact → Option (List Atom) → Option (List Atom)
add_atom none atoms = none
add_atom (some f) none = none
add_atom (some f) (some atoms) = some (record { title = f.title; reference = f.reference } ∷ atoms)

-- `renderAtoms`: an id of no fact throws before the list is replaced.
unfoldable pub render_atoms : List String → Option (List Atom)
unfolding fact_for add_atom
render_atoms [] = some []
render_atoms (id ∷ ids) = add_atom (fact_for id) (render_atoms ids)

unfoldable pub render_scope_path : ℕ → List Hop → List Step
unfolding two_digits
render_scope_path index [] = []
render_scope_path index (hop ∷ hops) =
    record { ordinal = two_digits (index + 1); hop = hop } ∷ render_scope_path (index + 1) hops

unfoldable pub render_candidates : Focus → ℕ → List Fact → List Candidate
unfolding candidate_status two_digits
render_candidates focus index [] = []
render_candidates focus index (f ∷ fs) =
    let treatment = candidate_status focus f in
    record {
      class_name = template ("candidate " ∷ class_of treatment ∷ []);
      rank = two_digits (index + 1);
      title = f.title;
      reference = f.reference;
      label = label_of treatment;
    }
    ∷ render_candidates focus (index + 1) fs

-- `facts.filter((fact) => candidateStatus(focus, fact).className === "selected").length`
unfoldable pub count_selected : Focus → List Fact → ℕ
unfolding candidate_status
count_selected focus fs = length (keep (λ f. class_of (candidate_status focus f) == "selected") fs)

-- `text.replace(part, "")`, which takes away the first place of the part.
unfoldable pub remove_first : String → String → String
remove_first part [] = []
remove_first part (c ∷ s) =
    let rest : String = c ∷ remove_first part s in
    if begins (c ∷ s) part then cut (c ∷ s) part else rest

-- The values whose buttons, or entries, are the current one's.
unfoldable pub press_only : String → List (String × Bool) → List (String × Bool)
press_only value [] = []
press_only value ((v, _) ∷ marks) = (v, v == value) ∷ press_only value marks

-- What is drawn up to the read of the projection, which throws if there is none.
unfoldable pub render_head : Focus → Fact → Page → Page
render_head focus f page = record page {
  response_title = f.title;
  snapshot = template ("Input snapshot " ∷ decimal focus.snapshot ∷ []);
  question = focus.question;
}

-- From the answer to the marks of the buttons.
unfoldable pub render_body : Focus → Fact → Projection → Page → Page
unfolding count_selected remove_first press_only
render_body focus f projection page =
    let selected_count = count_selected focus facts in
    let excluded_count = length facts - selected_count in
    let level_name = get_or (get_entry page.projection_level projection_names) "undefined" in
    record page {
      answer = projection.content;
      source = f.source;
      selected_atom = remove_first "KnowledgeRevision:" f.reference;
      trace_result =
          template
            (decimal selected_count ∷ " selected / " ∷ decimal excluded_count ∷ " excluded" ∷ []);
      projection_meta =
          template (level_name ∷ " / " ∷ decimal projection.tokens ∷ " declared tokens" ∷ []);
      trace_id = template ("trace: " ∷ focus.trace ∷ []);
      run_receipt = focus.receipt;
      activation_name = focus.name;
      activation_status = focus.status;
      source_memory = focus.source_memory;
      atom_count = template (decimal (length focus.atom_ids) ∷ " exact revisions" ∷ []);
      pressed_focus = press_only page.focus_id page.pressed_focus;
      pressed_level = press_only page.projection_level page.pressed_level;
      active_timeline = press_only focus.timeline page.active_timeline;
    }

-- The three lists at the end of `render`, for what `renderAtoms` made.
unfoldable pub fill_lists : Focus → Option (List Atom) → Page → Outcome
unfolding render_scope_path render_candidates
fill_lists focus none page = threw page
fill_lists focus (some atoms) page = done (record page {
  atoms = atoms;
  scope_path = render_scope_path 0 focus.scope_path;
  candidates = render_candidates focus 0 facts;
})

unfoldable pub render_lists : Focus → Page → Outcome
unfolding render_atoms fill_lists
render_lists focus page = fill_lists focus (render_atoms focus.atom_ids) page

unfoldable pub render_projection : Focus → Fact → Option Projection → Page → Outcome
unfolding render_lists render_head render_body
render_projection focus f none page = threw (render_head focus f page)
render_projection focus f (some projection) page =
    render_lists focus (render_body focus f projection (render_head focus f page))

unfoldable pub render_fact : Focus → Option Fact → Page → Outcome
unfolding render_projection
render_fact focus none page = threw page
render_fact focus (some f) page =
    render_projection focus f (get_entry page.projection_level f.projections) page

unfoldable pub render_focus : Option Focus → Page → Outcome
unfolding render_fact fact_for
render_focus none page = threw page
render_focus (some focus) page = render_fact focus (fact_for focus.selected_id) page

-- `render`
unfoldable pub render : Page → Outcome
unfolding render_focus
render page = render_focus (get_entry page.focus_id focus_states) page
