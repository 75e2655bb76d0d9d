-- ===== src/Reader/Controls.antt =====
-- `applyControls`: what the inputs, the summary of the status menu and the chips of the tags show.
use inc_ql.Base.{
  ◌-◌, String, List, [], ◌∷◌, Option, none, some, Bool, true, false, not, ◌==◌, if◌then◌else◌, ltb,
  length, keep, get_or, has, is_blank, is_empty, get_entry, keys, template, join_with, decimal,
}
use inc_ql.Catalog.{RfcRecord, State, Collator}
use inc_ql.Reader.Choices.{
  Counted, scope_definitions, sorted_tags, status_by_key, status_options, sort_options, tags_by_key,
}

-- A button of a tag, with its text and its `aria-label`.
pub record Chip : Type 0 where
  pub text : String
  pub aria : String

pub record Controls : Type 0 where
  pub search_value : String
  pub scope_checked : String
  pub status_checked : String
  pub sort_checked : String
  pub tags_checked : List (String × Bool)
  pub summary_state : String
  pub summary_filtered : Bool
  pub summary_aria : String
  pub clear_hidden : Bool
  pub chip : Option Chip
  pub overflow : Option Chip
  pub chips_hidden : Bool
  pub tag_count : String

-- A template writes undefined for a label that is missing.
abbrev pub shown_label : Option String → String
shown_label none = "undefined"
shown_label (some label) = label

-- `(inputs.get(value) ?? inputs.get(fallback)).checked = true`, by the inputs' values
unfoldable pub checked_of : List String → String → String → String
checked_of values value fallback = if has values value then value else fallback

unfoldable pub values_of : List Counted → List String
values_of [] = []
values_of (o ∷ os) = o.value ∷ values_of os

unfoldable pub check_tags : List String → List String → List (String × Bool)
check_tags selected [] = []
check_tags selected (key ∷ tags) = (key, has selected key) ∷ check_tags selected tags

-- `state.status ? statusByKey.get(state.status) : ""`
unfoldable pub full_status_label : List RfcRecord → State → Option String
unfolding status_by_key
full_status_label records s =
    if is_blank s.status then some "" else get_entry s.status (status_by_key records)

-- `({ Implemented: "Impl.", "In Progress": "In prog." }[label] ?? label)`; no status is taken to be
-- named as what every object inherits.
unfoldable pub short_label : Option String → Option String
short_label none = none
short_label (some label) =
    if label == "Implemented"
    then some "Impl."
    else if label == "In Progress"
    then some "In prog."
    else some label

unfoldable pub compact_status_label : List RfcRecord → State → Option String
unfolding full_status_label short_label
compact_status_label records s =
    let full = full_status_label records s in if is_blank s.sort then full else short_label full

unfoldable pub summary_of : List RfcRecord → State → String
unfolding compact_status_label
summary_of records s =
    let order = if is_blank s.sort then "" else if s.sort == "status-asc" then "A–Z" else "Z–A" in
    join_with " · "
      (keep (λ text. not (is_blank text)) (get_or (compact_status_label records s) "" ∷ order ∷ []))

unfoldable pub summary_label : List RfcRecord → State → String
unfolding status_by_key
summary_label records s =
    let filter_text =
      if is_blank s.status
      then "all statuses"
      else template ("filter " ∷ shown_label (get_entry s.status (status_by_key records)) ∷ []) in
    let order_text =
      if s.sort == "status-asc"
      then "sorted A to Z"
      else if s.sort == "status-desc"
      then "sorted Z to A"
      else "sorted by RFC number" in
    join_with ", " ("Status options" ∷ filter_text ∷ order_text ∷ [])

-- The chip of the first tag.
unfoldable pub first_chip : List RfcRecord → List String → Option Chip
unfolding tags_by_key
first_chip records [] = none
first_chip records (key ∷ tags) =
    let label = shown_label (get_entry key (tags_by_key records)) in
    some (record {
      text = template (label ∷ " ×" ∷ []);
      aria = template ("Remove " ∷ label ∷ " tag filter" ∷ []);
    })

-- The button for the tags after the first.
unfoldable pub overflow_chip : List String → Option Chip
overflow_chip tags =
    if ltb 1 (length tags)
    then some (record {
      text = template ("+" ∷ decimal (length tags - 1) ∷ []);
      aria = template ("Show all " ∷ decimal (length tags) ∷ " selected tag filters" ∷ []);
    })
    else none

unfoldable pub controls_of : Collator → List RfcRecord → State → Controls
unfolding checked_of values_of scope_definitions status_options check_tags sorted_tags summary_of
    summary_label first_chip overflow_chip
controls_of c records s = record {
  search_value = s.query;
  scope_checked = checked_of (values_of (scope_definitions records)) s.scope "all";
  status_checked = checked_of (keys (status_options c records)) s.status "";
  sort_checked = checked_of (keys sort_options) s.sort "";
  tags_checked = check_tags s.tags (keys (sorted_tags c records));
  summary_state = summary_of records s;
  summary_filtered = not (is_blank s.status);
  summary_aria = summary_label records s;
  clear_hidden = is_empty s.tags;
  chip = first_chip records s.tags;
  overflow = overflow_chip s.tags;
  chips_hidden = is_empty s.tags;
  tag_count = decimal (length s.tags);
}

-- The controls as the page makes them, before the first `applyControls`.
abbrev pub blank_controls : Controls
blank_controls = record {
  search_value = "";
  scope_checked = "";
  status_checked = "";
  sort_checked = "";
  tags_checked = [];
  summary_state = "";
  summary_filtered = false;
  summary_aria = "";
  clear_hidden = false;
  chip = none;
  overflow = none;
  chips_hidden = true;
  tag_count = "";
}
