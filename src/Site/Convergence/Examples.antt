-- ===== src/Site/Convergence/Examples.antt =====
-- The convergence map over whole numbers, for a page with one card on each side.
use inc_ql.Base.{ℕ, ◌+◌, ◌-◌, ◌*◌, ◌/◌, max, List, [], ◌∷◌, true, false, not, ltb, decimal}
use inc_ql.Site.Convergence.{Numbers, Layout, Event, initialized, resized, seen}

abbrev whole : Numbers ℕ
whole = record {
  of_hundredths = λ n. n / 100;
  plus = λ a b. a + b;
  minus = λ a b. a - b;
  times = λ a b. a * b;
  over = λ a b. a / b;
  larger = λ a b. max a b;
  absolute = λ a. a;
  hypotenuse = λ a b. max a b;
  is_falsy = λ a. not (ltb 0 a);
  fixed = decimal;
}

abbrev one_each : Layout ℕ
one_each = record {
  stacked = false;
  bounds = record { left = 0; right = 900; top = 0; width = 900; height = 300 };
  core = record { left = 400; right = 500; top = 100; width = 100; height = 100 };
  sources = record { left = 0; right = 200; top = 100; width = 200; height = 80 } ∷ [];
  targets = record { left = 700; right = 900; top = 100; width = 200; height = 80 } ∷ [];
}

abbrev visit : List (Event ℕ)
visit = initialized one_each ∷ seen true ∷ resized one_each ∷ initialized one_each ∷ seen true ∷ []
