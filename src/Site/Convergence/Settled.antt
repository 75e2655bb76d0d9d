-- ===== src/Site/Convergence/Settled.antt =====
-- The drawing of the convergence map, whatever the order of its events.
use inc_ql.Base.{ℕ, ◌+◌, List, [], ◌∷◌, none, Bool, true, false, if◌then◌else◌, ◌≡◌, ◌⊎◌}
use inc_ql.Site.Convergence.{Link, Map}

-- With an observer, the map is drawn in once: it waits for that, or it has happened.
abbrev pub IsAwaited : Bool → ℕ → Bool → Bool → Type 0
IsAwaited true reveals has_drawn observed =
    reveals + (if has_drawn then 1 else 0) ≡ (if observed then 1 else 0)
IsAwaited false reveals has_drawn observed = reveals ≡ 0

module _ {N : Type 0} where
  -- The paths come in twos: a base, and a pulse on the same curve in the same direction.
  abbrev pub IsPaired : List (Link N) → Type 0
  IsPaired [] = Unit
  IsPaired (base ∷ []) = ⊥
  IsPaired (base ∷ pulse ∷ links) =
      (base.delay ≡ none)
      × (base.curve ≡ pulse.curve)
      × (base.direction ≡ pulse.direction)
      × IsPaired links

  pub record IsSettled (observable : Bool) (m : Map N) : Type 0 where
    pub paired : IsPaired m.links
    pub shown : (m.links ≡ []) ⊎ (m.has_links ≡ true)
    pub awaited : IsAwaited observable m.reveals m.has_drawn m.draw_observed
    pub one_redrawer : m.redrawers ≡ (if m.links_observed then 1 else 0)
