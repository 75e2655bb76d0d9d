-- ===== src/Site/Lifecycle.antt =====
-- How prismplane.js sets up the pages of a visit, which the site's theme swaps without loading the
-- scripts anew: `initializePage`, the disposers of its parts, and the subscription to the swaps. A set
-- of listeners carries the number of the page that it was made for.
pub mod Single
mod Examples
use inc_ql.Base.{
  ℕ, zero, suc, ◌+◌, ◌≤◌, List, [], ◌∷◌, Option, none, some, Bool, true, false, not, ◌&&◌,
  if◌then◌else◌, keep, leb, ◌≡◌, refl, arith,
}

-- The parts that have a disposer, and those that mark their elements instead.
pub data Part : Type 0 where
  drawer book rail sidebar reader : Part

pub data Marked : Type 0 where
  tab_group convergence_map process_rail : Marked

-- A page, with the parts whose initialiser comes to its end on it.
pub record Page : Type 0 where
  pub number : ℕ
  pub has_part : Part → Bool
  pub has_marked : Marked → Bool

-- The sets of listeners of a part that are in place, the set that its disposer takes away, the sets
-- whose timer or animation frame is pending that a disposer cancels, and the sets whose animation frames
-- are pending that no disposer cancels: those of the reader.
pub record Slot : Type 0 where
  pub live : List ℕ
  pub disposer : Option ℕ
  pub pending : List ℕ
  pub frames : List ℕ

-- The mark of the elements (`data-tabs-ready`, `data-links-observed`, `data-thread-observed`), and how
-- often they were given their listeners.
pub record Mark : Type 0 where
  pub ready : Bool
  pub registrations : ℕ

pub record Visit : Type 0 where
  pub page : Page
  pub slots : Part → Slot
  pub marks : Marked → Mark
  pub offered : Bool
  pub subscribed : Bool
  pub subscriptions : ℕ

unfoldable pub without : ℕ → List ℕ → List ℕ
without n xs = keep (λ m. not (leb m n && leb n m)) xs

-- The call of a disposer, which is at first the function that does nothing. No disposer cancels the
-- animation frames of the reader.
unfoldable pub dispose_by : Option ℕ → Slot → Slot
unfolding without
dispose_by none s = s
dispose_by (some n) s = record s {
  live = without n s.live;
  disposer = none;
  pending = without n s.pending;
}

abbrev pub dispose : Slot → Slot
dispose s = dispose_by s.disposer s

-- The reader asks for an animation frame whenever it filters.
unfoldable pub ask_frame_of : Part → ℕ → List ℕ → List ℕ
ask_frame_of reader n frames = n ∷ frames
ask_frame_of _ n frames = frames

-- An initialiser disposes first. That of the reader filters at its end. `initializeBookParts` comes to its end on every page.
unfoldable pub initialize_part : Page → Part → Slot → Slot
unfolding dispose_by ask_frame_of
initialize_part page part s =
    let disposed = dispose s in
    let made = record disposed {
      live = page.number ∷ disposed.live;
      disposer = some page.number;
      frames = ask_frame_of part page.number disposed.frames;
    } in
    if page.has_part part then made else disposed

unfoldable pub initialize_marked : Page → Marked → Mark → Mark
initialize_marked page marked m =
    if m.ready
    then m
    else if page.has_marked marked
    then record { ready = true; registrations = m.registrations + 1 }
    else m

-- `initializePage`
unfoldable pub initialize_page : Visit → Visit
unfolding initialize_part initialize_marked
initialize_page v = record v {
  slots = λ part. initialize_part v.page part (v.slots part);
  marks = λ marked. initialize_marked v.page marked (v.marks marked);
}

unfoldable pub initialize_times : ℕ → Visit → Visit
unfolding initialize_page
initialize_times zero v = v
initialize_times (suc n) v = initialize_times n (initialize_page v)

-- A new subscriber is told of the current page at once, if the theme replays it.
unfoldable pub tell : Bool → Visit → Visit
unfolding initialize_page
tell true v = initialize_page v
tell false v = v

unfoldable pub note_subscription : Visit → Visit
note_subscription v = record v { subscribed = true; subscriptions = v.subscriptions + 1 }

module _ (replays : Bool) where
  -- `subscribeToMaterialNavigation`; `offered` says that `document$` is there.
  unfoldable pub subscribe : Visit → Visit
  unfolding tell note_subscription
  subscribe v =
      let done = note_subscription (tell replays v) in
      if not v.subscribed && v.offered then done else v

  -- `initializeCurrentPage`
  unfoldable pub initialize_current : Visit → Visit
  unfolding subscribe initialize_page
  initialize_current v = subscribe (initialize_page v)

-- `document$` comes to be; the two events of the window, which the browser sends once; the theme swaps
-- the page; a part asks for a timer or a frame, and it fires; the reader asks for a frame that no
-- disposer cancels, and such frames run.
pub data Event : Type 0 where
  offer content_loaded loaded ask_frame run_frames : Event
  swap : Page → Event
  ask fire : Part → Event

-- A listener of the part asks for a callback, unless one is pending.
unfoldable pub ask_by : Option ℕ → Slot → Slot
unfolding without
ask_by none s = s
ask_by (some n) s = record s { pending = n ∷ without n s.pending }

abbrev pub ask_for : Slot → Slot
ask_for s = ask_by s.disposer s

unfoldable pub frame_by : Option ℕ → Slot → Slot
frame_by none s = s
frame_by (some n) s = record s { frames = n ∷ s.frames }

unfoldable pub is_part : Part → Part → Bool
is_part drawer drawer = true
is_part book book = true
is_part rail rail = true
is_part sidebar sidebar = true
is_part reader reader = true
is_part _ _ = false

-- The change of one part's slot.
unfoldable pub at_part : Part → (Slot → Slot) → Visit → Visit
unfolding is_part
at_part part change v = record v {
  slots = λ p. if is_part part p then change (v.slots p) else v.slots p;
}

abbrev pub blank_slot : Slot
blank_slot = record { live = []; disposer = none; pending = []; frames = [] }

abbrev pub blank_mark : Mark
blank_mark = record { ready = false; registrations = 0 }

-- The theme puts a page in place, whose elements are new, and tells every subscriber.
unfoldable pub swap_to : Page → Visit → Visit
unfolding initialize_times
swap_to page v =
    initialize_times v.subscriptions (record v { page = page; marks = λ marked. blank_mark })

module _ (replays : Bool) where
  unfoldable pub step : Event → Visit → Visit
  unfolding subscribe initialize_current swap_to at_part ask_by frame_by
  step offer v = record v { offered = true }
  step content_loaded v = initialize_current replays v
  step loaded v = subscribe replays v
  step (swap page) v = swap_to page v
  step (ask part) v = at_part part ask_for v
  step ask_frame v = at_part reader (λ s. frame_by s.disposer s) v
  step run_frames v = at_part reader (λ s. record s { frames = [] }) v
  step (fire part) v = at_part part (λ s. record s { pending = [] }) v

  unfoldable pub run : List Event → Visit → Visit
  unfolding step
  run [] v = v
  run (e ∷ es) v = run es (step e v)

  -- The script's end: a page that is still loading waits for its content.
  unfoldable pub start : Page → Bool → Bool → Visit
  unfolding subscribe initialize_current
  start page loading offered =
      let blank : Visit = record {
        page = page;
        slots = λ part. blank_slot;
        marks = λ marked. blank_mark;
        offered = offered;
        subscribed = false;
        subscriptions = 0;
      } in
      subscribe replays (if loading then blank else initialize_current replays blank)
