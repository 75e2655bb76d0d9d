-- ===== src/Reader/Offered.antt =====
-- The options of the controls are those that the reader knows, so an input stands checked for every
-- filter of the state.
use inc_ql.Base.{
  String, List, [], ◌∷◌, none, some, Bool, true, false, ◌||◌, ◌==◌, if◌then◌else◌, has, has-append,
  is_blank, insert, sort, set_entry, get_entry, keys, blank-eq, Bool-cases, inl, inr, ◌≡◌, refl,
  ◌∙◌, arith, eq_iff, All,
}
use inc_ql.Params.{Params}
use inc_ql.Catalog.{RfcRecord, Tag, Collator, ids, tag_keys, not_after}
use inc_ql.Address.{scopes, sorts, IsCanonical}
use inc_ql.Reader.Panels.{Panels}
use inc_ql.Reader.Choices.{
  add_labels, tags_by_key_from, tags_by_key, statuses_from, status_by_key, by_label, sorted_tags,
  scope_definitions, status_options, sort_options,
}
use inc_ql.Reader.Controls.{controls_of, checked_of, values_of, check_tags}
use inc_ql.Reader.Session.{Setup, Reader, all_tags, status_keys, known_of}
use inc_ql.Reader.Events.{Event, run, initialize}
use inc_ql.Reader.Rendered.{initialize-run-IsRendered}
use inc_ql.Reader.Live.{IsOffered, initialize-run-IsKept}

module _ {ℓ} {A : Type ℓ} where
  has-keys-insert :
      (le : (String × A) → (String × A) → Bool) (e : String × A) (m : List (String × A))
      (a : String)
      → has (keys (insert le e m)) a ≡ (e.0 == a || has (keys m) a)
  has-keys-insert le e [] a = refl
  has-keys-insert le e (f ∷ m) a = ground (arith, has-keys-insert le e m a)

  has-keys-sort :
      (le : (String × A) → (String × A) → Bool) (m : List (String × A)) (a : String)
      → has (keys (sort le m)) a ≡ has (keys m) a
  has-keys-sort le [] a = refl
  has-keys-sort le (e ∷ m) a =
      ground (arith, has-keys-insert le e (sort le m) a, has-keys-sort le m a)

  has-keys-set_entry :
      (key : String) (value : A) (m : List (String × A)) (a : String)
      → has (keys (set_entry key value m)) a ≡ (key == a || has (keys m) a)
  has-keys-set_entry key value [] a = refl
  has-keys-set_entry key value ((k, v) ∷ m) a =
      ground (arith, eq_iff k key, eq_iff k a, eq_iff key a, has-keys-set_entry key value m a)

has-statuses_from :
    (m : List (String × String)) (rs : List RfcRecord) (a : String)
    → has (keys (statuses_from m rs)) a ≡ (has (status_keys rs) a || has (keys m) a)
unfolding statuses_from status_keys
has-statuses_from m [] a = refl
has-statuses_from m (r ∷ rs) a = ground (
  arith,
  has-statuses_from (set_entry r.status_key r.status m) rs a,
  has-keys-set_entry r.status_key r.status m a,
)

has-add_labels :
    (ts : List Tag) (m : List (String × String)) (a : String)
    → has (keys (add_labels ts m)) a ≡ (has (tag_keys ts) a || has (keys m) a)
unfolding add_labels
has-add_labels [] m a = refl
has-add_labels (t ∷ ts) m a =
    ground
      (arith, has-add_labels ts (set_entry t.key t.label m) a, has-keys-set_entry t.key t.label m a)

has-tags_by_key_from :
    (m : List (String × String)) (rs : List RfcRecord) (a : String)
    → has (keys (tags_by_key_from m rs)) a ≡ (has (all_tags rs) a || has (keys m) a)
unfolding tags_by_key_from all_tags
has-tags_by_key_from m [] a = refl
has-tags_by_key_from m (r ∷ rs) a = ground (
  arith,
  has-tags_by_key_from (add_labels r.tags m) rs a,
  has-add_labels r.tags m a,
  has-append (tag_keys r.tags) (all_tags rs) a,
)

-- A check box stands for every tag of the catalog, and for no other.
sorted_tags-has :
    (c : Collator) (rs : List RfcRecord) (a : String)
    → has (keys (sorted_tags c rs)) a ≡ has (all_tags rs) a
unfolding sorted_tags by_label tags_by_key
sorted_tags-has c rs a =
    has-keys-sort _ (tags_by_key_from [] rs) a ∙ has-tags_by_key_from [] rs a ∙ ground arith

-- A radio button stands for every status of the catalog, and one for all of them.
status_options-has :
    (c : Collator) (rs : List RfcRecord) (a : String)
    → has (keys (status_options c rs)) a ≡ ("" == a || has (status_keys rs) a)
unfolding status_options by_label status_by_key
status_options-has c rs a = ground (
  arith,
  has-keys-sort
      (λ (left : String × String) (right : String × String).
        not_after (c.compare_label left.1 right.1))
      (statuses_from [] rs) a,
  has-statuses_from [] rs a,
)

checked_of-has :
    (values : List String) (value fallback : String)
    → has values value ≡ true
    → checked_of values value fallback ≡ value
unfolding checked_of
checked_of-has values value fallback h = rw h refl

get-check_tags :
    (selected tags : List String) (key : String)
    → get_entry key (check_tags selected tags)
      ≡ (if has tags key then some (has selected key) else none)
unfolding check_tags
get-check_tags selected [] key = refl
get-check_tags selected (t ∷ tags) key =
    ground (arith, eq_iff t key, get-check_tags selected tags key)

-- The inputs that are checked are those of the filters: of the scope, the status and the order, and
-- of each tag of the catalog whether the filters hold it.
pub record IsChecked (p : Setup) (r : Reader) : Type 0 where
  pub query_typed : r.controls.search_value ≡ r.state.query
  pub scope_checked_as : r.controls.scope_checked ≡ r.state.scope
  pub status_checked_as : r.controls.status_checked ≡ r.state.status
  pub sort_checked_as : r.controls.sort_checked ≡ r.state.sort
  pub tags_checked_as :
      (key : String)
      → get_entry key r.controls.tags_checked
        ≡ (if has (all_tags p.records) key then some (has r.state.tags key) else none)

blank_or :
    (values : List String) (a : String)
    → (is_blank a || has values a) ≡ true
    → ("" == a || has values a) ≡ true
blank_or values a h = elim (Bool-cases (is_blank a)) [
  | inl b ↦ rw (blank-eq a b) refl
  | inr b ↦ ground arith
]

scope_values :
    (rs : List RfcRecord) (a : String)
    → (a == "all" || has scopes a) ≡ true
    → has (values_of (scope_definitions rs)) a ≡ true
unfolding values_of scope_definitions
scope_values rs a h = ground (arith, eq_iff a "all", eq_iff "all" a)

controls_of-IsChecked :
    (p : Setup) (r : Reader)
    → r.controls ≡ controls_of p.collator p.records r.state
    → IsCanonical (known_of p.records) r.state
    → IsChecked p r
unfolding controls_of known_of
controls_of-IsChecked p r e c = record {
  query_typed = rw e refl;
  scope_checked_as = rw e (
      checked_of-has (values_of (scope_definitions p.records)) r.state.scope "all"
        (scope_values p.records r.state.scope c.scope_offered));
  status_checked_as = rw e (
      checked_of-has (keys (status_options p.collator p.records)) r.state.status "" (
        status_options-has p.collator p.records r.state.status
        ∙ blank_or (status_keys p.records) r.state.status c.status_offered));
  sort_checked_as = rw e (
      checked_of-has (keys sort_options) r.state.sort ""
        (blank_or sorts r.state.sort c.sort_offered));
  tags_checked_as = λ key. rw e (
      get-check_tags r.state.tags (keys (sorted_tags p.collator p.records)) key
      ∙ rw (sorted_tags-has p.collator p.records key) refl);
}

module _ (p : Setup) (no_blank : has (ids p.records) "" ≡ false) where
  -- From whatever address the reader starts, and whatever events of its controls follow, the search
  -- field holds the query, the radio buttons of the scope, of the status and of the order are checked at
  -- the filters of the state, and every tag of the catalog has a check box, checked if and only if the
  -- filters hold the tag. No record has a blank id.
  pub initialize-run-IsChecked :
      (params : Params) (narrow : Bool) (panels : Panels) (es : List Event)
      → All (IsOffered (known_of p.records)) es
      → IsChecked p (run p es (initialize p params narrow panels))
  initialize-run-IsChecked params narrow panels es o =
      controls_of-IsChecked p _ (initialize-run-IsRendered p params narrow panels es).controls_shown
        (initialize-run-IsKept p no_blank params narrow panels es o)
