-- ===== src/Site/Lifecycle/Single.antt =====
-- Whatever the order of the events of a visit, the parts of a page are set up once.
use inc_ql.Base.{
  ℕ, zero, suc, List, [], ◌∷◌, Option, none, some, Bool, true, false, not, ◌&&◌, if◌then◌else◌, ◌≡◌,
  refl, ap, ◌∙◌, ◌⊎◌, inl, inr, arith, Bool-cases,
}
use inc_ql.Site.Lifecycle.{
  Part, Marked, Page, Slot, Mark, Visit, Event, offer, content_loaded, loaded, swap, ask, fire,
  without, dispose, dispose_by, ask_by, initialize_part, initialize_marked, initialize_page,
  initialize_times, subscribe, blank_mark, tell, note_subscription, initialize_current, swap_to,
  at_part, is_part, ask_for, blank_slot, step, run, start, reader, ask_frame, run_frames, frame_by,
}

-- The set that a disposer takes away.
abbrev pub owned : Option ℕ → List ℕ
owned none = []
owned (some n) = n ∷ []

-- No listeners are in place, and no callback that a disposer cancels is pending, but those that the
-- disposer takes away.
pub record IsTidy (s : Slot) : Type 0 where
  pub one : s.live ≡ owned s.disposer
  pub none_left : (s.pending ≡ []) ⊎ (s.pending ≡ owned s.disposer)

pub record IsSingle (v : Visit) : Type 0 where
  pub tidy : (part : Part) → IsTidy (v.slots part)
  pub once :
      (marked : Marked) → (v.marks marked).registrations ≡ (if (v.marks marked).ready then 1 else 0)
  pub one_subscription : v.subscriptions ≡ (if v.subscribed then 1 else 0)

-- The listeners of a part that a page should have.
abbrev pub due : Page → Part → List ℕ
due page part = if page.has_part part then page.number ∷ [] else []

without-owned : (n : ℕ) (xs : List ℕ) → (xs ≡ []) ⊎ (xs ≡ n ∷ []) → without n xs ≡ []
unfolding without
without-owned n xs (inl e) = rw e refl
without-owned n xs (inr e) = rw e (ground arith)

-- A slot with no listeners, no disposer and no callback that a disposer would cancel.
record IsBare (s : Slot) : Type 0 where
  no_live : s.live ≡ []
  no_disposer : s.disposer ≡ none
  no_pending : s.pending ≡ []

dispose_by-IsBare :
    (d : Option ℕ) (s : Slot)
    → s.disposer ≡ d
    → s.live ≡ owned d
    → (s.pending ≡ []) ⊎ (s.pending ≡ owned d)
    → IsBare (dispose_by d s)
unfolding dispose_by
dispose_by-IsBare none s e one (inl rest) = record {
  no_live = one;
  no_disposer = e;
  no_pending = rest;
}
dispose_by-IsBare none s e one (inr rest) = record {
  no_live = one;
  no_disposer = e;
  no_pending = rest;
}
dispose_by-IsBare (some n) s e one rest = record {
  no_live = without-owned n s.live (inr one);
  no_disposer = refl;
  no_pending = without-owned n s.pending rest;
}

dispose-IsBare : (s : Slot) → IsTidy s → IsBare (dispose s)
dispose-IsBare s h = dispose_by-IsBare s.disposer s refl h.one h.none_left

initialize_part-IsTidy :
    (page : Page) (part : Part) (s : Slot)
    → IsTidy s
    → IsTidy (initialize_part page part s) × ((initialize_part page part s).live ≡ due page part)
unfolding initialize_part
initialize_part-IsTidy page part s h =
    let b = dispose-IsBare s h in
    elim (Bool-cases (page.has_part part)) [
      | inl e ↦
          rw e (record { one = rw b.no_live refl; none_left = inl b.no_pending }, rw b.no_live refl)
      | inr e ↦ rw e (
        record { one = rw (b.no_live, b.no_disposer) refl; none_left = inl b.no_pending },
        b.no_live,
      )
    ]

ask_by-IsTidy : (d : Option ℕ) (s : Slot) → s.disposer ≡ d → IsTidy s → IsTidy (ask_by d s)
unfolding ask_by
ask_by-IsTidy none s e h = h
ask_by-IsTidy (some n) s e h =
    let owns : owned s.disposer ≡ n ∷ [] = ap owned e in
    record {
      one = h.one;
      none_left = inr (
          rw
            (
              without-owned n s.pending
                  (elim h.none_left [ inl x ↦ inl x | inr x ↦ inr (x ∙ owns) ]),
              owns,
            )
            refl);
    }

frame_by-IsTidy : (d : Option ℕ) (s : Slot) → IsTidy s → IsTidy (frame_by d s)
unfolding frame_by
frame_by-IsTidy none s t = t
frame_by-IsTidy (some n) s t = record { one = t.one; none_left = t.none_left }

initialize_marked_once :
    (page : Page) (marked : Marked) (m : Mark)
    → m.registrations ≡ (if m.ready then 1 else 0)
    → (initialize_marked page marked m).registrations
      ≡ (if (initialize_marked page marked m).ready then 1 else 0)
unfolding initialize_marked
initialize_marked_once page marked m h = ground (arith, h)

initialize_page-IsSingle : (v : Visit) → IsSingle v → IsSingle (initialize_page v)
unfolding initialize_page
initialize_page-IsSingle v h = record {
  tidy = λ part. (initialize_part-IsTidy v.page part (v.slots part) (h.tidy part)).0;
  once = λ marked. initialize_marked_once v.page marked (v.marks marked) (h.once marked);
  one_subscription = h.one_subscription;
}

initialize_times-IsSingle : (n : ℕ) (v : Visit) → IsSingle v → IsSingle (initialize_times n v)
unfolding initialize_times
initialize_times-IsSingle zero v h = h
initialize_times-IsSingle (suc n) v h = initialize_times-IsSingle n _ (initialize_page-IsSingle v h)

at_part-IsSingle :
    (part : Part) (change : Slot → Slot) (v : Visit)
    → ((s : Slot) → IsTidy s → IsTidy (change s))
    → IsSingle v
    → IsSingle (at_part part change v)
unfolding at_part
at_part-IsSingle part change v keeps h = record {
  tidy = λ p. elim (Bool-cases (is_part part p)) [
    | inl e ↦ rw e (keeps (v.slots p) (h.tidy p))
    | inr e ↦ rw e (h.tidy p)
  ];
  once = h.once;
  one_subscription = h.one_subscription;
}

swap_to-IsSingle : (page : Page) (v : Visit) → IsSingle v → IsSingle (swap_to page v)
unfolding swap_to
swap_to-IsSingle page v h =
    initialize_times-IsSingle v.subscriptions _
      (record { tidy = h.tidy; once = λ marked. refl; one_subscription = h.one_subscription })

note_subscription-IsSingle :
    (v : Visit) → IsSingle v → v.subscribed ≡ false → IsSingle (note_subscription v)
unfolding note_subscription
note_subscription-IsSingle v h fresh = record {
  tidy = h.tidy;
  once = h.once;
  one_subscription = let e = h.one_subscription in ground arith;
}

tell-IsSingle :
    (replays : Bool) (v : Visit)
    → IsSingle v
    → IsSingle (tell replays v) × ((tell replays v).subscribed ≡ v.subscribed)
unfolding tell initialize_page
tell-IsSingle true v h = (initialize_page-IsSingle v h, refl)
tell-IsSingle false v h = (h, refl)

module _ (replays : Bool) where
  subscribe-IsSingle : (v : Visit) → IsSingle v → IsSingle (subscribe replays v)
  unfolding subscribe
  subscribe-IsSingle v h =
      let (told, same) = tell-IsSingle replays v h in
      elim (Bool-cases (not v.subscribed && v.offered)) [
        | inl e ↦ rw e (note_subscription-IsSingle (tell replays v) told (same ∙ ground arith))
        | inr e ↦ rw e h
      ]

  initialize_current-IsSingle : (v : Visit) → IsSingle v → IsSingle (initialize_current replays v)
  unfolding initialize_current
  initialize_current-IsSingle v h = subscribe-IsSingle _ (initialize_page-IsSingle v h)

  step-IsSingle : (e : Event) (v : Visit) → IsSingle v → IsSingle (step replays e v)
  unfolding step
  step-IsSingle offer v h = record {
    tidy = h.tidy;
    once = h.once;
    one_subscription = h.one_subscription;
  }
  step-IsSingle content_loaded v h = initialize_current-IsSingle v h
  step-IsSingle loaded v h = subscribe-IsSingle v h
  step-IsSingle (swap page) v h = swap_to-IsSingle page v h
  step-IsSingle (ask part) v h =
      at_part-IsSingle part ask_for v (λ s t. ask_by-IsTidy s.disposer s refl t) h
  step-IsSingle ask_frame v h =
      at_part-IsSingle reader (λ s. frame_by s.disposer s) v (λ s t. frame_by-IsTidy s.disposer s t)
        h
  step-IsSingle run_frames v h =
      at_part-IsSingle reader (λ s. record s { frames = [] }) v
        (λ s t. record { one = t.one; none_left = t.none_left }) h
  step-IsSingle (fire part) v h =
      at_part-IsSingle part (λ s. record s { pending = [] }) v
        (λ s t. record { one = t.one; none_left = inl refl }) h

  run-IsSingle : (es : List Event) (v : Visit) → IsSingle v → IsSingle (run replays es v)
  unfolding run
  run-IsSingle [] v h = h
  run-IsSingle (e ∷ es) v h = run-IsSingle es _ (step-IsSingle e v h)

  -- Whatever the order of the events that bring the page's content, the theme and its swaps: each part
  -- has at most one set of listeners in place, which its disposer takes away, and of the callbacks that a
  -- disposer cancels none is pending but of that set (the animation frames of the reader, which no
  -- disposer cancels, may be pending for earlier sets); each marked element has its listeners once; and the script subscribes at most once.
  pub start-run-IsSingle :
      (page : Page) (loading offered : Bool) (es : List Event)
      → IsSingle (run replays es (start replays page loading offered))
  unfolding start
  start-run-IsSingle page loading offered es =
      let blank : Visit = record {
        page = page;
        slots = λ part. blank_slot;
        marks = λ marked. blank_mark;
        offered = offered;
        subscribed = false;
        subscriptions = 0;
      } in
      let single : IsSingle blank = record {
        tidy = λ part. record { one = refl; none_left = inl refl };
        once = λ marked. refl;
        one_subscription = refl;
      } in
      let begun : IsSingle (if loading then blank else initialize_current replays blank) =
        elim (Bool-cases loading) [
          | inl e ↦ rw e single
          | inr e ↦ rw e (initialize_current-IsSingle blank single)
        ] in
      run-IsSingle es _ (subscribe-IsSingle _ begun)

  -- Once the script has subscribed, a swap leaves each part with the listeners of the new page, if the
  -- page has the part, and with none if not.
  pub run-swap-IsDue :
      (page : Page) (loading offered : Bool) (es : List Event) (next : Page) (part : Part)
      → (run replays es (start replays page loading offered)).subscribed ≡ true
      → ((step replays (swap next) (run replays es (start replays page loading offered))).slots
          part).live
        ≡ due next part
  unfolding step swap_to initialize_times initialize_page
  run-swap-IsDue page loading offered es next part subscribed =
      let v = run replays es (start replays page loading offered) in
      let h : IsSingle v = start-run-IsSingle page loading offered es in
      let told : v.subscriptions ≡ 1 = ground (arith, h.one_subscription) in
      rw told (initialize_part-IsTidy next part (v.slots part) (h.tidy part)).1
