-- ===== src/Site/Book.antt =====
-- `initializeBookParts`: the parts of a book, of which the page keeps one open. The browser queues a
-- `toggle` event for a part whose `open` changed, and at most one for each part.
use mathlib.Core.Option
use Prim.Native.String.{◌++◌}
use inc_ql.Base.{
  ℕ, zero, suc, ◌+◌, ◌≤◌, String, List, [], ◌∷◌, Option, none, some, Bool, true, false, not, ◌&&◌,
  ◌==◌, if◌then◌else◌, any, ◌≡◌, refl, arith,
}

pub record Part : Type 0 where
  pub id : String
  pub is_open : Bool
  pub queued : Bool

-- `part.open = false`
unfoldable pub close : Part → Part
close p = if p.is_open then record p { is_open = false; queued = true } else p

-- `part.open = true`
unfoldable pub set_open : Part → Part
set_open p = if p.is_open then p else record p { is_open = true; queued = true }

unfoldable pub close_all : List Part → List Part
unfolding close
close_all [] = []
close_all (p ∷ ps) = close p ∷ close_all ps

-- `openPart(target)`: the others are closed.
unfoldable pub open_part : ℕ → List Part → List Part
unfolding close close_all
open_part i [] = []
open_part zero (p ∷ ps) = p ∷ close_all ps
open_part (suc i) (p ∷ ps) = close p ∷ open_part i ps

unfoldable pub update : (Part → Part) → ℕ → List Part → List Part
update f i [] = []
update f zero (p ∷ ps) = f p ∷ ps
update f (suc i) (p ∷ ps) = p ∷ update f i ps

unfoldable pub is_open_at : ℕ → List Part → Bool
is_open_at i [] = false
is_open_at zero (p ∷ ps) = p.is_open
is_open_at (suc i) (p ∷ ps) = is_open_at i ps

-- The index of the part that the address names: `#${part.id}` is the page's hash.
unfoldable pub requested_part : String → List Part → Option ℕ
requested_part hash [] = none
requested_part hash (p ∷ ps) =
    let rest = requested_part hash ps in
    if ("#" ++ p.id) == hash then some zero else Option.map suc rest

open_requested : Option ℕ → List Part → List Part
unfolding open_part update set_open
open_requested (some i) ps = open_part i (update set_open i ps)
open_requested none ps = if any (λ p. p.is_open) ps then ps else update set_open zero ps

-- What the page opens when it is shown.
unfoldable pub open_initially : String → List Part → List Part
unfolding open_requested requested_part
open_initially hash ps = open_requested (requested_part hash ps) ps

-- The listener of the part's `toggle` event.
unfoldable pub toggled : ℕ → List Part → List Part
unfolding open_part update is_open_at
toggled i ps =
    let taken = update (λ p. record p { queued = false }) i ps in
    if is_open_at i ps then open_part i taken else taken

-- The reader opens or closes a part.
unfoldable pub click : ℕ → List Part → List Part
unfolding update
click i ps = update (λ p. record p { is_open = not p.is_open; queued = true }) i ps

pub data Event : Type 0 where
  clicks : ℕ → Event
  handles : ℕ → Event

unfoldable pub step : Event → List Part → List Part
step (clicks i) ps = click i ps
step (handles i) ps = toggled i ps

unfoldable pub run : List Event → List Part → List Part
run [] ps = ps
run (e ∷ es) ps = run es (step e ps)

-- How many parts are open with no event of theirs on its way.
abbrev pub settled : List Part → ℕ
settled [] = 0
settled (p ∷ ps) = (if p.is_open && not p.queued then 1 else 0) + settled ps

-- How many parts are open.
abbrev pub count_open : List Part → ℕ
count_open [] = 0
count_open (p ∷ ps) = (if p.is_open then 1 else 0) + count_open ps

abbrev pub IsQuiet : List Part → Type 0
IsQuiet [] = Unit
IsQuiet (p ∷ ps) = (p.queued ≡ false) × IsQuiet ps

settled-close_all : (ps : List Part) → settled (close_all ps) ≡ 0
unfolding close_all close
settled-close_all [] = refl
settled-close_all (p ∷ ps) = ground (arith, settled-close_all ps)

settled-open_part : (i : ℕ) (ps : List Part) → settled (open_part i ps) ≤ 1
unfolding open_part close
settled-open_part i [] = omega arith
settled-open_part zero (p ∷ ps) = ground (arith, settled-close_all ps)
settled-open_part (suc i) (p ∷ ps) = ground (arith, settled-open_part i ps)

settled-taken :
    (i : ℕ) (ps : List Part)
    → is_open_at i ps ≡ false
    → settled (update (λ p. record p { queued = false }) i ps) ≤ settled ps
unfolding update is_open_at
settled-taken i [] h = omega arith
settled-taken zero (p ∷ ps) h = ground arith
settled-taken (suc i) (p ∷ ps) h = ground (arith, settled-taken i ps)

settled-click : (i : ℕ) (ps : List Part) → settled (click i ps) ≤ settled ps
unfolding click update
settled-click i [] = omega arith
settled-click zero (p ∷ ps) = ground arith
settled-click (suc i) (p ∷ ps) = ground (arith, settled-click i ps)

settled-toggled : (i : ℕ) (ps : List Part) → settled ps ≤ 1 → settled (toggled i ps) ≤ 1
unfolding toggled
settled-toggled i ps h = ground (
  arith,
  settled-open_part i (update (λ p. record p { queued = false }) i ps),
  settled-taken i ps,
)

settled-run : (es : List Event) (ps : List Part) → settled ps ≤ 1 → settled (run es ps) ≤ 1
unfolding run step
settled-run [] ps h = h
settled-run (clicks i ∷ es) ps h = settled-run es (click i ps) (omega (arith, settled-click i ps))
settled-run (handles i ∷ es) ps h = settled-run es (toggled i ps) (settled-toggled i ps h)

open-settled : (ps : List Part) → IsQuiet ps → count_open ps ≡ settled ps
open-settled [] q = refl
open-settled (p ∷ ps) (q, qs) = ground (arith, open-settled ps qs)

-- A part that is open with no event on its way is open.
settled-le : (ps : List Part) → settled ps ≤ count_open ps
settled-le [] = omega arith
settled-le (p ∷ ps) = ground (arith, settled-le ps)

settled-set_open : (i : ℕ) (ps : List Part) → settled (update set_open i ps) ≤ settled ps
unfolding update set_open
settled-set_open i [] = omega arith
settled-set_open zero (p ∷ ps) = ground arith
settled-set_open (suc i) (p ∷ ps) = ground (arith, settled-set_open i ps)

settled-open_requested :
    (o : Option ℕ) (ps : List Part) → count_open ps ≤ 1 → settled (open_requested o ps) ≤ 1
unfolding open_requested
settled-open_requested (some i) ps h = settled-open_part i (update set_open i ps)
settled-open_requested none ps h = ground (arith, settled-le ps, settled-set_open zero ps)

-- However the reader opens and closes the parts of a book of which the page came with at most one
-- open, and whichever part the address names: once every toggle event is handled, at most one part is open.
pub open_initially-run-one_open :
    (hash : String) (es : List Event) (ps : List Part)
    → count_open ps ≤ 1
    → IsQuiet (run es (open_initially hash ps))
    → count_open (run es (open_initially hash ps)) ≤ 1
unfolding open_initially
open_initially-run-one_open hash es ps one quiet = omega (
  arith,
  settled-run es (open_initially hash ps) (settled-open_requested (requested_part hash ps) ps one),
  open-settled (run es (open_initially hash ps)) quiet,
)
