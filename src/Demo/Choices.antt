-- ===== src/Demo/Choices.antt =====
-- What the demo's tables have for each of its buttons, and the page that is drawn for a choice.
use mathlib.Core.Path.{subst}
use inc_ql.Demo.Treatment.{fact_ids}
use Prim.Native.String
use inc_ql.Base.{
  NoRepeat, every, true, String, List, some, has, keys, get_entry, All, All-has, ◌≡◌, refl, [], ◌∷◌,
  decimal, begins,
}
use inc_ql.Demo.Facts.{Fact, facts, Projection, projection_names}
use inc_ql.Demo.Focus.{Focus, focus_states, Hop}
use inc_ql.Demo.Render.{
  Page, Atom, fill_lists, done, after, render, render_focus, render_fact, render_projection,
  render_lists, render_body, render_head, render_atoms, add_atom, fact_for, Step, two_digits,
  remove_first, render_scope_path,
}
use inc_ql.Demo.Session.{written}
use inc_ql.Demo.Marks.{HasMarks, at-HasMarks, IsFocus, IsLevel, at, render-Keeps, HasMarks-Keeps}

-- The two digits that a list's places are numbered with.
abbrev pub ordinals : List String
ordinals = "01" ∷ "02" ∷ "03" ∷ "04" ∷ "05" ∷ []

-- The lines are the hops of a scope path, numbered from 01.
abbrev pub IsPathOf : List String → List Hop → List Step → Type 0
IsPathOf ns [] [] = Unit
IsPathOf (n ∷ ns) (h ∷ hs) (s ∷ ss) = (s.ordinal ≡ n) × (s.hop ≡ h) × IsPathOf ns hs ss
IsPathOf _ _ _ = ⊥

-- The lines are the titles and references of the facts of the ids.
abbrev pub IsAtomsOf : List String → List Atom → Type 0
IsAtomsOf [] [] = Unit
IsAtomsOf (id ∷ ids) (a ∷ atoms) =
    ((f : Fact) × (fact_for id ≡ some f) × (a.title ≡ f.title) × (a.reference ≡ f.reference))
    × IsAtomsOf ids atoms
IsAtomsOf _ _ = ⊥

-- What the tables have for a focus: its own timeline, and distinct atoms that are all facts, of which
-- one is selected, and the lines of its scope path.
abbrev pub IsSound : String → Focus → Type 0
IsSound v f =
    (f.timeline ≡ v)
    × NoRepeat f.atom_ids
    × (every (has (fact_ids facts)) f.atom_ids ≡ true)
    × (has f.atom_ids f.selected_id ≡ true)
    × IsPathOf ordinals f.scope_path (render_scope_path 0 f.scope_path)

abbrev HasFact : Focus → Fact → List Atom → Type 0
HasFact f fact atoms =
    (fact_for f.selected_id ≡ some fact)
    × (render_atoms f.atom_ids ≡ some atoms)
    × IsAtomsOf f.atom_ids atoms
    × (String.◌++◌ "KnowledgeRevision:" (remove_first "KnowledgeRevision:" fact.reference)
        ≡ fact.reference)

abbrev HasProjections : Fact → Type 0
HasProjections fact =
    All (λ w. (j : Projection) × (get_entry w fact.projections ≡ some j)) (keys projection_names)

abbrev IsUsable : String → Type 0
IsUsable v =
    (f : Focus) × (fact : Fact) × (atoms : List Atom) × (get_entry v focus_states ≡ some f)
    × IsSound v f
    × HasFact f fact atoms
    × HasProjections fact

focus-IsUsable : (v : String) → IsFocus v → IsUsable v
unfolding fact_for render_atoms add_atom render_scope_path two_digits remove_first decimal begins
focus-IsUsable v known =
    All-has IsUsable (keys focus_states) v
      (
        (
          _,
          _,
          _,
          refl,
          (refl, (refl, (refl, tt)), refl, refl, (refl, refl, (refl, refl, tt))),
          (refl, refl, ((_, refl, refl, refl), ((_, refl, refl, refl), tt)), refl),
          ((_, refl), ((_, refl), ((_, refl), tt))),
        ),
        (
          (
            _,
            _,
            _,
            refl,
            (
              refl,
              (refl, (refl, (refl, tt))),
              refl,
              refl,
              (refl, refl, (refl, refl, (refl, refl, (refl, refl, tt)))),
            ),
            (
              refl,
              refl,
              ((_, refl, refl, refl), ((_, refl, refl, refl), ((_, refl, refl, refl), tt))),
              refl,
            ),
            ((_, refl), ((_, refl), ((_, refl), tt))),
          ),
          (
            (
              _,
              _,
              _,
              refl,
              (refl, (refl, (refl, tt)), refl, refl, (refl, refl, (refl, refl, tt))),
              (refl, refl, ((_, refl, refl, refl), ((_, refl, refl, refl), tt)), refl),
              ((_, refl), ((_, refl), ((_, refl), tt))),
            ),
            tt,
          ),
        ),
      )
      known

pub record Choice (v w : String) : Type 0 where
  pub focus : Focus
  pub fact : Fact
  pub atoms : List Atom
  pub projection : Projection
  pub known_focus : get_entry v focus_states ≡ some focus
  pub sound : IsSound v focus
  pub known_fact : fact_for focus.selected_id ≡ some fact
  pub listed : IsAtomsOf focus.atom_ids atoms
  pub prefixed :
      String.◌++◌ "KnowledgeRevision:" (remove_first "KnowledgeRevision:" fact.reference)
      ≡ fact.reference
  pub known_atoms : render_atoms focus.atom_ids ≡ some atoms
  pub known_projection : get_entry w fact.projections ≡ some projection

-- Every focus and every level of the tables can be drawn.
pub choice_of : (v w : String) → IsFocus v → IsLevel w → Choice v w
choice_of v w known_v known_w =
    let (
      f,
      fact,
      atoms,
      known_focus,
      sound,
      (known_fact, known_atoms, listed, prefixed),
      projections,
    ) =
      focus-IsUsable v known_v in
    let (j, known_projection) =
      All-has (λ x. (j : Projection) × (get_entry x fact.projections ≡ some j))
        (keys projection_names) w projections known_w in
    record {
      focus = f;
      fact = fact;
      atoms = atoms;
      projection = j;
      known_focus = known_focus;
      sound = sound;
      known_fact = known_fact;
      known_atoms = known_atoms;
      listed = listed;
      prefixed = prefixed;
      known_projection = known_projection;
    }

module _ (v w : String) (c : Choice v w) where
  -- The page that is drawn for a choice.
  abbrev pub drawn : Page → Page
  drawn page = after (
      fill_lists c.focus (some c.atoms)
        (render_body c.focus c.fact c.projection (render_head c.focus c.fact (at v w page))))

  pub render-drawn : (page : Page) → render (at v w page) ≡ done (drawn page)
  unfolding render render_focus render_fact render_projection render_lists fill_lists
  render-drawn page =
      rw
        (
          c.known_focus, render_focus, c.known_fact, render_fact, c.known_projection,
          render_projection, c.known_atoms,
        )
        refl

  pub drawn-HasMarks : (page : Page) → HasMarks page → HasMarks (drawn page)
  drawn-HasMarks page h =
      subst (λ o. HasMarks (after o)) (render-drawn page)
        (HasMarks-Keeps (at v w page) (render (at v w page)) (at-HasMarks v w page h)
          (render-Keeps (at v w page)))

pub written-HasMarks : HasMarks written
written-HasMarks = record { focus_marks = refl; level_marks = refl; timeline_marks = refl }
