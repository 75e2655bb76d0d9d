-- ===== src/Site/Navigation.antt =====
-- `siteNavigationContract` and `initializeSiteNavigation`: which section of the site the page is in.
use inc_ql.Base.{
  ℕ, String, List, [], ◌∷◌, ◌++◌, Option, none, some, Bool, true, false, not, ◌&&◌, ◌==◌, leb, map,
  keep, every, find, head?, head-sort-least, head-sort-every, eq-nil_of_sort, sort, length,
  is_blank, begins, cut, if◌then◌else◌, units, ◌≡◌, refl, inl, inr, arith, Option-cases, has,
  every_of_has, eq_refl, ◌||◌, Bool-cases, any,
}

pub record Route : Type 0 where
  pub section : String
  pub prefixes : List String
  pub search_label : String

-- `{ ...route, prefix }`
pub record Candidate : Type 0 where
  pub section : String
  pub prefix : String

unfoldable pub candidates_of : String → List String → List Candidate
candidates_of section [] = []
candidates_of section (p ∷ ps) = record { section = section; prefix = p } ∷ candidates_of section ps

unfoldable pub candidates : List Route → List Candidate
unfolding candidates_of
candidates [] = []
candidates (r ∷ rs) = candidates_of r.section r.prefixes ++ candidates rs

-- `prefix.length`
unfoldable pub size : String → ℕ
unfolding units
size s = length (units s)

-- `route.prefix && currentPath.startsWith(route.prefix)`
unfoldable pub is_match : String → Candidate → Bool
is_match current_path c = not (is_blank c.prefix) && begins current_path c.prefix

-- `right.prefix.length - left.prefix.length <= 0`
unfoldable pub longer : Candidate → Candidate → Bool
longer left right = leb (size right.prefix) (size left.prefix)

section_or : Option Candidate → String → String
section_or none fallback = fallback
section_or (some c) fallback = c.section

unfoldable pub best : String → List Route → Option Candidate
best current_path routes = head? (sort longer (keep (is_match current_path) (candidates routes)))

unfoldable pub active_section : String → List Route → String → String
unfolding section_or best
active_section current_path routes fallback = section_or (best current_path routes) fallback

-- A link of the navigation, with its data attributes.
pub record Link : Type 0 where
  pub site_section : String
  pub path_prefixes : List String
  pub search_label : Option String
  pub is_active : Bool
  pub aria_current : Bool

-- `routeFromLink`; the attribute's text is given split at its commas.
unfoldable pub route_from_link : Link → Route
route_from_link l = record {
  section = l.site_section;
  prefixes = keep (λ p. not (is_blank p)) l.path_prefixes;
  search_label = elim l.search_label [ none ↦ "Search" | some t ↦ t ];
}

unfoldable pub mark_links : String → List Link → List Link
mark_links active [] = []
mark_links active (l ∷ ls) =
    let here = l.site_section == active in
    record l { is_active = here; aria_current = here } ∷ mark_links active ls

label_of : Option Route → String
label_of none = "Search"
label_of (some r) = r.search_label

-- The page's path below the site's base path; else, below the root.
unfoldable pub relative_path : String → String → String
unfolding begins
relative_path base_path pathname =
    if begins pathname base_path
    then cut pathname base_path
    else if begins pathname "/"
    then cut pathname "/"
    else pathname

-- What the page shows: the marked links and the label of its search; nothing without a link home.
-- The base path is that of the link home, which the browser resolves.
unfoldable pub navigate : String → String → List Link → Option (List Link × String)
unfolding relative_path active_section route_from_link mark_links label_of
navigate base_path pathname links =
    let routes = map route_from_link links in
    let active = active_section (relative_path base_path pathname) routes "home" in
    let shown =
      some (mark_links active links, label_of (find (λ (r : Route). r.section == active) routes)) in
    elim (find (λ (l : Link). l.site_section == "home") links) [ none ↦ none | some l ↦ shown ]

longer_total : (a b : Candidate) → longer a b ≡ false → longer b a ≡ true
unfolding longer
longer_total a b h = ground arith

longer_trans : (a b c : Candidate) → longer a b ≡ true → longer b c ≡ true → longer a c ≡ true
unfolding longer
longer_trans a b c h k = ground arith

-- A candidate that is kept passes the test.
every-keep {ℓ} : {A : Type ℓ} (p : A → Bool) (l : List A) → every p (keep p l) ≡ true
every-keep p [] = refl
every-keep p (x ∷ l) = ground (arith, every-keep p l)

-- A prefix that does not count for a path: it is blank, or does not begin the path.
abbrev pub is_unfit : String → String → Bool
is_unfit current_path p = is_blank p || not (begins current_path p)

-- A prefix that does not count for a path, or is no longer than another one.
abbrev pub is_beaten : String → String → String → Bool
is_beaten current_path by p = is_unfit current_path p || leb (length (units p)) (length (units by))

abbrev pub every_prefix : (String → Bool) → List Route → Bool
every_prefix q routes = every (λ (r : Route). every q r.prefixes) routes

-- A route has the section and the prefix.
abbrev pub is_from : String → String → List Route → Bool
is_from section prefix routes =
    any (λ (r : Route). r.section == section && has r.prefixes prefix) routes

-- The section of the longest prefix: what `activeSection` finds, and when it falls back. A prefix that
-- is blank does not count.
pub data IsBest (current_path : String) (routes : List Route) (fallback : String)
    : String → Type 0 where
  fell_back :
      every_prefix (is_unfit current_path) routes ≡ true
      → IsBest current_path routes fallback fallback
  longest :
      (section prefix : String)
      → is_from section prefix routes ≡ true
      → is_blank prefix ≡ false
      → begins current_path prefix ≡ true
      → every_prefix (is_beaten current_path prefix) routes ≡ true
      → IsBest current_path routes fallback section

every-keep-imp {ℓ} :
    {A : Type ℓ} (p q r : A → Bool) (l : List A)
    → ((x : A) → p x ≡ false → r x ≡ true)
    → ((x : A) → q x ≡ true → r x ≡ true)
    → every q (keep p l) ≡ true
    → every r l ≡ true
every-keep-imp p q r [] dropped kept h = refl
every-keep-imp p q r (x ∷ l) dropped kept h = elim (Bool-cases (p x)) [
  | inl e ↦
      let (k, ks) : (q x ≡ true) × (every q (keep p l) ≡ true) = (ground arith, ground arith) in
      rw (kept x k) (every-keep-imp p q r l dropped kept ks)
  | inr e ↦
      let ks : every q (keep p l) ≡ true = ground arith in
      rw (dropped x e) (every-keep-imp p q r l dropped kept ks)
]

every-candidates_of :
    (q : String → Bool) (section : String) (ps : List String) (cs : List Candidate)
    → every (λ (c : Candidate). q c.prefix) (candidates_of section ps ++ cs) ≡ true
    → (every q ps ≡ true) × (every (λ (c : Candidate). q c.prefix) cs ≡ true)
unfolding candidates_of
every-candidates_of q section [] cs h = (refl, h)
every-candidates_of q section (p ∷ ps) cs h =
    let e : q p ≡ true = ground arith in
    let (es, rest) = every-candidates_of q section ps cs (ground arith) in (rw (e, es) refl, rest)

every-candidates :
    (q : String → Bool) (routes : List Route)
    → every (λ (c : Candidate). q c.prefix) (candidates routes) ≡ true
    → every_prefix q routes ≡ true
unfolding candidates
every-candidates q [] h = refl
every-candidates q (r ∷ rs) h =
    let (e, rest) = every-candidates_of q r.section r.prefixes (candidates rs) h in
    rw e (every-candidates q rs rest)

every-candidates_of-append :
    (q : Candidate → Bool) (section : String) (ps : List String) (cs : List Candidate)
    → every (λ p. q (record { section = section; prefix = p })) ps ≡ true
    → every q cs ≡ true
    → every q (candidates_of section ps ++ cs) ≡ true
unfolding candidates_of
every-candidates_of-append q section [] cs h k = k
every-candidates_of-append q section (p ∷ ps) cs h k =
    let e : q (record { section = section; prefix = p }) ≡ true = ground arith in
    rw e (every-candidates_of-append q section ps cs (ground arith) k)

every-imp {ℓ} :
    {A : Type ℓ} (p q : A → Bool) (l : List A)
    → ((x : A) → p x ≡ true → q x ≡ true)
    → every p l ≡ true
    → every q l ≡ true
every-imp p q [] k h = refl
every-imp p q (x ∷ l) k h =
    let e : p x ≡ true = ground arith in rw (k x e) (every-imp p q l k (ground arith))

-- Every candidate is that of a route.
candidates_from :
    (routes : List Route)
    → every (λ (c : Candidate). is_from c.section c.prefix routes) (candidates routes) ≡ true
unfolding candidates
candidates_from [] = refl
candidates_from (r ∷ rs) =
    every-candidates_of-append (λ (c : Candidate). is_from c.section c.prefix (r ∷ rs)) r.section
      r.prefixes (candidates rs)
      (every_of_has (λ p. is_from r.section p (r ∷ rs)) r.prefixes
        (λ p h. ground (arith, h, eq_refl r.section)))
      (every-imp (λ (c : Candidate). is_from c.section c.prefix rs)
        (λ (c : Candidate). is_from c.section c.prefix (r ∷ rs)) (candidates rs)
        (λ c h. ground (arith, h)) (candidates_from rs))

every-keep-of {ℓ} :
    {A : Type ℓ} (p q : A → Bool) (l : List A) → every q l ≡ true → every q (keep p l) ≡ true
every-keep-of p q [] h = refl
every-keep-of p q (x ∷ l) h =
    let rest : every q (keep p l) ≡ true = every-keep-of p q l (ground arith) in ground arith

match-is_blank :
    (current_path : String) (c : Candidate)
    → is_match current_path c ≡ true
    → is_blank c.prefix ≡ false
unfolding is_match
match-is_blank current_path c h = ground arith

match-begins :
    (current_path : String) (c : Candidate)
    → is_match current_path c ≡ true
    → begins current_path c.prefix ≡ true
unfolding is_match
match-begins current_path c h = ground arith

longer-is_beaten :
    (current_path : String) (c d : Candidate)
    → longer c d ≡ true
    → is_beaten current_path c.prefix d.prefix ≡ true
unfolding longer size
longer-is_beaten current_path c d h = ground (arith, h)

every_prefix-keep :
    (current_path : String) (q : Candidate → Bool) (t : String → Bool) (routes : List Route)
    → ((p : String) → is_unfit current_path p ≡ true → t p ≡ true)
    → ((c : Candidate) → q c ≡ true → t c.prefix ≡ true)
    → every q (keep (is_match current_path) (candidates routes)) ≡ true
    → every_prefix t routes ≡ true
unfolding is_match
every_prefix-keep current_path q t routes unfit kept h = every-candidates t routes (
    every-keep-imp (is_match current_path) q (λ (c : Candidate). t c.prefix) (candidates routes)
      (λ c e. unfit c.prefix (ground arith)) kept h)

-- `activeSection` returns the section of a route with a prefix that is not blank, begins the path, and
-- is at least as long as every other such prefix of a route; if no route has such a prefix, it returns
-- the fallback.
pub active_section-IsBest :
    (current_path : String) (routes : List Route) (fallback : String)
    → IsBest current_path routes fallback (active_section current_path routes fallback)
unfolding active_section
active_section-IsBest current_path routes fallback =
    let fits = is_match current_path in
    let matching = keep fits (candidates routes) in
    elim (Option-cases (best current_path routes)) [
      | inl e ↦
          let none_fits : matching ≡ [] = eq-nil_of_sort longer matching e in
          rw (e, section_or)
            (fell_back (
              every_prefix-keep current_path (λ c. false) (is_unfit current_path) routes (λ p h. h)
                (λ c h. absurd (ground arith)) (rw none_fits refl)))
      | inr (c, e) ↦
          let from : is_from c.section c.prefix routes ≡ true =
            head-sort-every longer (λ (d : Candidate). is_from d.section d.prefix routes) matching c
              (every-keep-of fits (λ (d : Candidate). is_from d.section d.prefix routes)
                (candidates routes) (candidates_from routes))
              e in
          let fit : is_match current_path c ≡ true =
            head-sort-every longer fits matching c (every-keep fits (candidates routes)) e in
          rw (e, section_or)
            (longest c.section c.prefix from (match-is_blank current_path c fit)
              (match-begins current_path c fit)
              (every_prefix-keep current_path (longer c) (is_beaten current_path c.prefix) routes
                (λ p h. ground (arith, h)) (λ d h. longer-is_beaten current_path c d h)
                (head-sort-least longer longer_total longer_trans matching c e)))
    ]
