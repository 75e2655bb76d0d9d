-- ===== src/Site/Lifecycle/Examples.antt =====
-- A visit that starts while its page is loading and goes on to another page.
use inc_ql.Base.{List, [], ◌∷◌, Bool, true, false, ◌≡◌, refl}
use inc_ql.Site.Lifecycle.{
  Part, reader, drawer, Marked, process_rail, Page, Event, offer, content_loaded, loaded, swap, ask,
  step, run, start, subscribe, tell, note_subscription, initialize_current, initialize_page,
  at_part,
}
use inc_ql.Site.Lifecycle.Single.{IsSingle, start-run-IsSingle, run-swap-IsDue}

abbrev catalog_parts : Part → Bool
catalog_parts reader = true
catalog_parts drawer = true
catalog_parts _ = false

abbrev landing_marks : Marked → Bool
landing_marks process_rail = true
landing_marks _ = false

abbrev catalog_page : Page
catalog_page = record { number = 1; has_part = catalog_parts; has_marked = λ marked. false }

abbrev landing_page : Page
landing_page = record { number = 2; has_part = λ part. false; has_marked = landing_marks }

abbrev arrivals : List Event
arrivals = offer ∷ content_loaded ∷ loaded ∷ ask reader ∷ []

arrived : (run true arrivals (start true catalog_page true false)).subscribed ≡ true
unfolding run step start subscribe tell note_subscription initialize_current initialize_page at_part
arrived = refl

start-run-IsSingle_example : IsSingle (run true arrivals (start true catalog_page true false))
start-run-IsSingle_example = start-run-IsSingle true catalog_page true false arrivals

run-swap-IsDue_example :
    ((step true (swap landing_page) (run true arrivals (start true catalog_page true false))).slots
      reader).live
    ≡ []
run-swap-IsDue_example =
    run-swap-IsDue true catalog_page true false arrivals landing_page reader arrived
