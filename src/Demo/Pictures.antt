-- ===== src/Demo/Pictures.antt =====
-- The demo's page after clicks on its own buttons: the picture of the last focus and the last level.
use Prim.Native.String
use inc_ql.Base.{
  String, List, [], ◌∷◌, some, Bool, if◌then◌else◌, length, decimal, get_entry, ◌≡◌, has, true,
  false, template, ◌⊎◌, ◌==◌,
}
use inc_ql.Demo.Facts.{Fact, Projection, facts, projection_names}
use inc_ql.Demo.Focus.{Focus, focus_states}
use inc_ql.Demo.Render.{
  Page, Outcome, threw, selected, done, fact_for, Candidate, candidate_status, label_of, class_of,
}
use inc_ql.Demo.Treatment.{rows_of}
use inc_ql.Demo.Session.{Click, choose_focus, choose_projection, click}
use inc_ql.Demo.Marks.{IsFocus, IsLevel}
use inc_ql.Demo.Choices.{ordinals, IsAtomsOf, IsPathOf}

-- The values whose buttons are pressed.
abbrev pub pressed : List (String × Bool) → List String
pressed [] = []
pressed ((v, b) ∷ marks) = if b then v ∷ pressed marks else pressed marks

-- The row of a fact, with its rank. It is selected if the focus selects the fact, bound if the fact is
-- another atom of the focus, and excluded if it is none.
pub record IsRow (focus : Focus) (n : String) (f : Fact) (c : Candidate) : Type 0 where
  pub rank : c.rank ≡ n
  pub title : c.title ≡ f.title
  pub reference : c.reference ≡ f.reference
  pub treated :
      (((f.id == focus.selected_id) ≡ true)
        × (c.class_name ≡ "candidate selected")
        × (c.label ≡ "Selected"))
      ⊎ ((((f.id == focus.selected_id) ≡ false)
            × (has focus.atom_ids f.id ≡ true)
            × (c.class_name ≡ "candidate bound")
            × (c.label ≡ "Bound limit"))
          ⊎ (((f.id == focus.selected_id) ≡ false)
              × (has focus.atom_ids f.id ≡ false)
              × (c.class_name ≡ "candidate excluded")
              × (c.label ≡ "Focus excluded")))

abbrev pub IsRowsOf : Focus → List String → List Fact → List Candidate → Type 0
IsRowsOf focus ns [] [] = Unit
IsRowsOf focus (n ∷ ns) (f ∷ fs) (c ∷ cs) = IsRow focus n f c × IsRowsOf focus ns fs cs
IsRowsOf _ _ _ _ = ⊥

-- A row as `renderCandidates` makes it.
abbrev row : Focus → Fact → String → Candidate
row focus f n = record {
  class_name = template ("candidate " ∷ class_of (candidate_status focus f) ∷ []);
  rank = n;
  title = f.title;
  reference = f.reference;
  label = label_of (candidate_status focus f);
}

-- The page shows what the tables say of its two choices.
pub record IsPicture (page : Page) : Type 0 where
  pub focus : Focus
  pub fact : Fact
  pub projection : Projection
  pub known_focus : get_entry page.focus_id focus_states ≡ some focus
  pub known_fact : fact_for focus.selected_id ≡ some fact
  pub known_projection : get_entry page.projection_level fact.projections ≡ some projection
  pub title : page.response_title ≡ fact.title
  pub question : page.question ≡ focus.question
  pub answer : page.answer ≡ projection.content
  pub source : page.source ≡ fact.source
  pub receipt : page.run_receipt ≡ focus.receipt
  pub trace : page.trace_result ≡ "1 selected / 4 excluded"
  pub one_focus : pressed page.pressed_focus ≡ page.focus_id ∷ []
  pub one_level : pressed page.pressed_level ≡ page.projection_level ∷ []
  pub one_entry : pressed page.active_timeline ≡ page.focus_id ∷ []
  pub level_name : String
  pub known_name : get_entry page.projection_level projection_names ≡ some level_name
  pub snapshot : page.snapshot ≡ template ("Input snapshot " ∷ decimal focus.snapshot ∷ [])
  pub meta :
      page.projection_meta
      ≡ template (level_name ∷ " / " ∷ decimal projection.tokens ∷ " declared tokens" ∷ [])
  pub trace_id : page.trace_id ≡ template ("trace: " ∷ focus.trace ∷ [])
  pub name : page.activation_name ≡ focus.name
  pub status : page.activation_status ≡ focus.status
  pub source_memory : page.source_memory ≡ focus.source_memory
  pub atom_count :
      page.atom_count ≡ template (decimal (length focus.atom_ids) ∷ " exact revisions" ∷ [])
  pub selected_atom : String.◌++◌ "KnowledgeRevision:" page.selected_atom ≡ fact.reference
  pub atoms : IsAtomsOf focus.atom_ids page.atoms
  pub path : IsPathOf ordinals focus.scope_path page.scope_path
  pub rows : IsRowsOf focus ordinals facts page.candidates
  pub one_row : rows_of selected page.candidates ≡ 1

-- Clicks one after another, as far as none throws.
abbrev pub chain : List Click → Outcome → Outcome
chain cs (threw page) = threw page
chain [] (done page) = done page
chain (c ∷ cs) (done page) = chain cs (click c page)

-- A click on a button of the page.
abbrev pub IsKnown : Click → Type 0
IsKnown (choose_focus v) = IsFocus v
IsKnown (choose_projection w) = IsLevel w

abbrev pub last_focus : String → List Click → String
last_focus v [] = v
last_focus v (choose_focus x ∷ cs) = last_focus x cs
last_focus v (choose_projection x ∷ cs) = last_focus v cs

abbrev pub last_level : String → List Click → String
last_level w [] = w
last_level w (choose_focus x ∷ cs) = last_level w cs
last_level w (choose_projection x ∷ cs) = last_level x cs

-- The outcome is a page that was drawn for a focus and a level.
abbrev pub Shows : Outcome → String → String → Type 0
Shows o v w =
    (page : Page) × (o ≡ done page)
    × IsPicture page
    × (page.focus_id ≡ v)
    × (page.projection_level ≡ w)
