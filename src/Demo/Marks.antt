-- ===== src/Demo/Marks.antt =====
-- The buttons and entries that the demo's page has stay those that index.html writes, whatever is clicked.
use inc_ql.Base.{
  String, List, [], ◌∷◌, Option, none, some, Bool, true, has, keys, get_entry, ◌≡◌, refl, ap, arith,
  ◌∙◌,
}
use inc_ql.Demo.Facts.{Fact, Projection, projection_names}
use inc_ql.Demo.Focus.{Focus, focus_states}
use inc_ql.Demo.Render.{
  Page, Outcome, Atom, fill_lists, threw, after, render, render_focus, render_fact,
  render_projection, render_lists, render_body, render_head, render_atoms, fact_for, press_only,
}
use inc_ql.Demo.Session.{choose_focus, choose_projection, click, written}

abbrev pub IsFocus : String → Type 0
IsFocus v = has (keys focus_states) v ≡ true

abbrev pub IsLevel : String → Type 0
IsLevel w = has (keys projection_names) w ≡ true

-- The page has the buttons and the history's entries that index.html writes.
pub record HasMarks (page : Page) : Type 0 where
  pub focus_marks : keys page.pressed_focus ≡ keys written.pressed_focus
  pub level_marks : keys page.pressed_level ≡ keys written.pressed_level
  pub timeline_marks : keys page.active_timeline ≡ keys written.active_timeline

abbrev pub at : String → String → Page → Page
at v w page = record page { focus_id = v; projection_level = w }

keys-press_only :
    (v : String) (marks : List (String × Bool)) → keys (press_only v marks) ≡ keys marks
unfolding press_only
keys-press_only v [] = refl
keys-press_only v ((k, b) ∷ marks) = ap (◌∷◌ k) (keys-press_only v marks)

pub press_only-ext :
    (v : String) (m n : List (String × Bool)) → keys m ≡ keys n → press_only v m ≡ press_only v n
unfolding press_only
press_only-ext v [] [] e = refl
press_only-ext v [] ((l, c) ∷ n) e = cc
press_only-ext v ((k, b) ∷ m) [] e = cc
press_only-ext v ((k, b) ∷ m) ((l, c) ∷ n) e = ground (arith, press_only-ext v m n)

-- No outcome of `render` changes the choices or the marks' keys.
pub record Keeps (p : Page) (o : Outcome) : Type 0 where
  pub focus_id : (after o).focus_id ≡ p.focus_id
  pub level : (after o).projection_level ≡ p.projection_level
  pub focus_marks : keys (after o).pressed_focus ≡ keys p.pressed_focus
  pub level_marks : keys (after o).pressed_level ≡ keys p.pressed_level
  pub timeline_marks : keys (after o).active_timeline ≡ keys p.active_timeline

abbrev unchanged : (page : Page) → Keeps page (threw page)
unchanged page = record {
  focus_id = refl;
  level = refl;
  focus_marks = refl;
  level_marks = refl;
  timeline_marks = refl;
}

drawn-Keeps :
    (f : Focus) (fact : Fact) (j : Projection) (atoms : Option (List Atom)) (page : Page)
    → Keeps page (fill_lists f atoms (render_body f fact j (render_head f fact page)))
unfolding fill_lists render_body render_head
drawn-Keeps f fact j none page = record {
  focus_id = refl;
  level = refl;
  focus_marks = keys-press_only _ page.pressed_focus;
  level_marks = keys-press_only _ page.pressed_level;
  timeline_marks = keys-press_only _ page.active_timeline;
}
drawn-Keeps f fact j (some atoms) page = record {
  focus_id = refl;
  level = refl;
  focus_marks = keys-press_only _ page.pressed_focus;
  level_marks = keys-press_only _ page.pressed_level;
  timeline_marks = keys-press_only _ page.active_timeline;
}

render_projection-Keeps :
    (f : Focus) (fact : Fact) (j : Option Projection) (page : Page)
    → Keeps page (render_projection f fact j page)
unfolding render_projection render_head render_lists
render_projection-Keeps f fact none page = record {
  focus_id = refl;
  level = refl;
  focus_marks = refl;
  level_marks = refl;
  timeline_marks = refl;
}
render_projection-Keeps f fact (some j) page = drawn-Keeps f fact j (render_atoms f.atom_ids) page

render_fact-Keeps :
    (f : Focus) (fact : Option Fact) (page : Page) → Keeps page (render_fact f fact page)
unfolding render_fact
render_fact-Keeps f none page = unchanged page
render_fact-Keeps f (some fact) page = render_projection-Keeps f fact _ page

render_focus-Keeps : (f : Option Focus) (page : Page) → Keeps page (render_focus f page)
unfolding render_focus
render_focus-Keeps none page = unchanged page
render_focus-Keeps (some f) page = render_fact-Keeps f (fact_for f.selected_id) page

pub render-Keeps : (page : Page) → Keeps page (render page)
unfolding render
render-Keeps page = render_focus-Keeps (get_entry page.focus_id focus_states) page

pub HasMarks-Keeps : (p : Page) (o : Outcome) → HasMarks p → Keeps p o → HasMarks (after o)
HasMarks-Keeps p o h k = record {
  focus_marks = k.focus_marks ∙ h.focus_marks;
  level_marks = k.level_marks ∙ h.level_marks;
  timeline_marks = k.timeline_marks ∙ h.timeline_marks;
}

pub at-HasMarks : (v w : String) (page : Page) → HasMarks page → HasMarks (at v w page)
at-HasMarks v w page h = record {
  focus_marks = h.focus_marks;
  level_marks = h.level_marks;
  timeline_marks = h.timeline_marks;
}

-- A click on a button of the page draws it.
pub click_focus :
    (x : String) (page : Page)
    → HasMarks page
    → IsFocus x
    → click (choose_focus x) page ≡ render (record page { focus_id = x })
unfolding click
click_focus x page h known =
    let e : has (keys page.pressed_focus) x ≡ true = ap (λ l. has l x) h.focus_marks ∙ known in
    rw e refl

pub click_level :
    (x : String) (page : Page)
    → HasMarks page
    → IsLevel x
    → click (choose_projection x) page ≡ render (record page { projection_level = x })
unfolding click
click_level x page h known =
    let e : has (keys page.pressed_level) x ≡ true = ap (λ l. has l x) h.level_marks ∙ known in
    rw e refl
