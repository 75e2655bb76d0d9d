-- ===== src/Tour/Progress.antt =====
-- A tour that nobody disturbs goes on: each pending callback shows the next layer and sets the next.
use mathlib.Core.Path.{subst}
use inc_ql.Base.{
  ℕ, zero, suc, ◌<◌, String, Option, none, some, Bool, true, false, ◌||◌, ◌==◌, has, every,
  every-has, All-has, ◌≡◌, refl, sym, arith, eq_iff, Bool-cases, inl, inr,
}
use inc_ql.Tour.Layers.{Layer, own, look_up, layer_order, next_layer, next_layer_cycle}
use inc_ql.Tour.Machine.{
  Tour, after, select_looked_up, select_layer, can_run_tour, schedule_tour, clear_tour_timer,
  update_tour_ui, same_generation, on_timer,
}

abbrev fire_at : Option ℕ → Tour → Tour
fire_at none t = t
fire_at (some generation) t = after (on_timer generation t)

-- The pending callback runs.
abbrev pub fire : Tour → Tour
fire t = fire_at t.tour_timer t

abbrev pub fires : ℕ → Tour → Tour
fires zero t = t
fires (suc n) t = fires n (fire t)

-- The tour shows a layer of the table, may run, and its callback is pending.
pub record IsUnderWay (t : Tour) : Type 0 where
  pub known : has layer_order t.current_layer ≡ true
  pub can_run : can_run_tour t ≡ true
  pub pending : t.tour_timer ≡ some t.tour_generation

same_generation_refl : (g : ℕ) → same_generation g g ≡ true
unfolding same_generation
same_generation_refl g = ground arith

look_up-own : (name : String) → has layer_order name ≡ true → (l : Layer) × (look_up name ≡ own l)
unfolding look_up
look_up-own name known =
    All-has (λ x. (l : Layer) × (look_up x ≡ own l)) layer_order name
      ((_, refl), ((_, refl), ((_, refl), ((_, refl), ((_, refl), tt))))) known

schedule_tour-IsUnderWay :
    (t : Tour)
    → has layer_order t.current_layer ≡ true
    → can_run_tour t ≡ true
    → IsUnderWay (schedule_tour t) × ((schedule_tour t).current_layer ≡ t.current_layer)
unfolding schedule_tour clear_tour_timer update_tour_ui can_run_tour
schedule_tour-IsUnderWay t known h =
    rw h (record { known = known; can_run = h; pending = refl }, refl)

moved-IsUnderWay :
    (l : Layer) (name : String) (t : Tour)
    → has layer_order name ≡ true
    → can_run_tour t ≡ true
    → (let moved = after (select_looked_up (own l) name false false t) in
        IsUnderWay (schedule_tour moved) × ((schedule_tour moved).current_layer ≡ name))
unfolding select_looked_up update_tour_ui can_run_tour
moved-IsUnderWay l name t known h = schedule_tour-IsUnderWay _ known h

abbrev IsNext : Tour → Tour → Type 0
IsNext t u = IsUnderWay u × (u.current_layer ≡ next_layer t.current_layer)

on_timer-IsNext : (t : Tour) → IsUnderWay t → IsNext t (after (on_timer t.tour_generation t))
unfolding on_timer select_layer
on_timer-IsNext t h =
    let (known, _, _) = next_layer_cycle t.current_layer h.known in
    let (l, found) = look_up-own (next_layer t.current_layer) known in
    rw (same_generation_refl t.tour_generation, h.can_run, found)
      (moved-IsUnderWay l (next_layer t.current_layer) t known h.can_run)

fire-IsNext : (t : Tour) → IsUnderWay t → IsNext t (fire t)
fire-IsNext t h = subst (λ o. IsNext t (fire_at o t)) (sym h.pending) (on_timer-IsNext t h)

-- How often the successor is taken until it is the layer that is looked for, at most `n` times.
reaches : ℕ → String → String → Bool
reaches zero from goal = false
reaches (suc n) from goal = from == goal || reaches n (next_layer from) goal

reaches_all : every (λ from. every (λ goal. reaches 5 from goal) layer_order) layer_order ≡ true
unfolding reaches next_layer
reaches_all = refl

reaches_any :
    (from goal : String)
    → has layer_order from ≡ true
    → has layer_order goal ≡ true
    → reaches 5 from goal ≡ true
reaches_any from goal h k =
    every-has (λ b. reaches 5 from b) layer_order goal
      (every-has (λ a. every (λ b. reaches 5 a b) layer_order) layer_order from reaches_all h) k

Reached : ℕ → Tour → String → Type 0
Reached n t goal = (m : ℕ) × (m < n) × ((fires m t).current_layer ≡ goal) × IsUnderWay (fires m t)

fires-reach :
    (n : ℕ) (t : Tour) (goal : String)
    → IsUnderWay t
    → reaches n t.current_layer goal ≡ true
    → Reached n t goal
unfolding reaches Reached
fires-reach zero t goal h r = cc
fires-reach (suc n) t goal h r = elim (Bool-cases (t.current_layer == goal)) [
  | inl e ↦ (zero, omega arith, (eq_iff t.current_layer goal).0 e, h)
  | inr e ↦
      let (u, moved) = fire-IsNext t h in
      let (m, below, there, going) = fires-reach n (fire t) goal u (rw moved (ground arith)) in
      (suc m, omega arith, there, going)
]

-- A tour that shows a layer of the table, may run and has its callback pending reaches every layer of
-- the table within four callbacks, and is then under way again, with the next callback pending.
pub fires_reach_all :
    (t : Tour) (goal : String)
    → IsUnderWay t
    → has layer_order goal ≡ true
    → (m : ℕ) × (m < 5) × ((fires m t).current_layer ≡ goal) × IsUnderWay (fires m t)
unfolding Reached
fires_reach_all t goal h known =
    fires-reach 5 t goal h (reaches_any t.current_layer goal h.known known)
