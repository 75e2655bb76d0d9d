-- ===== src/Demo/Examples.antt =====
-- The demo's page, on a few clicks.
use inc_ql.Base.{◌+◌, List, [], ◌∷◌, begins, ◌≡◌, refl}
use inc_ql.Demo.Facts.{facts}
use inc_ql.Demo.Focus.{meeting}
use inc_ql.Demo.Render.{selected, bound, excluded, render_candidates, count_selected, remove_first}
use inc_ql.Demo.Session.{Click, choose_focus, choose_projection}
use inc_ql.Demo.Treatment.{rows_of, render_candidates-counts}

abbrev visit : List Click
visit = choose_focus "meeting" ∷ choose_projection "evidence" ∷ []

remove_first_test : remove_first "b" "abcb" ≡ "acb"
unfolding remove_first begins
remove_first_test = refl

render_candidates-counts_example :
    (let rows = render_candidates meeting 0 facts in
      (rows_of selected rows ≡ 1)
      × (rows_of selected rows + rows_of bound rows ≡ 3)
      × (3 + rows_of excluded rows ≡ 5)
      × (count_selected meeting facts ≡ 1))
render_candidates-counts_example =
    render_candidates-counts meeting facts (refl, (refl, (refl, (refl, (refl, tt)))))
      (refl, (refl, (refl, tt))) refl refl
