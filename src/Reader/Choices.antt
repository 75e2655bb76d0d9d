-- ===== src/Reader/Choices.antt =====
-- What `initializeRfcReader` derives from the catalog: the labels of tags and statuses, how often a
-- tag comes up, and the options of the controls.
use inc_ql.Base.{
  ℕ, ◌+◌, String, List, [], ◌∷◌, ◌==◌, length, keep, get_or, sort, get_entry, set_entry,
}
use inc_ql.Catalog.{RfcRecord, Tag, Collator, not_after}

-- `tagsByKey.set(tag.key, tag.label)` for the tags of a record
unfoldable pub add_labels : List Tag → List (String × String) → List (String × String)
add_labels [] labels = labels
add_labels (t ∷ ts) labels = add_labels ts (set_entry t.key t.label labels)

-- `tagCounts.set(tag.key, (tagCounts.get(tag.key) ?? 0) + 1)` for the tags of a record
unfoldable pub add_counts : List Tag → List (String × ℕ) → List (String × ℕ)
add_counts [] counts = counts
add_counts (t ∷ ts) counts =
    add_counts ts (set_entry t.key (get_or (get_entry t.key counts) 0 + 1) counts)

unfoldable pub tags_by_key_from : List (String × String) → List RfcRecord → List (String × String)
unfolding add_labels
tags_by_key_from labels [] = labels
tags_by_key_from labels (r ∷ rs) = tags_by_key_from (add_labels r.tags labels) rs

unfoldable pub tag_counts_from : List (String × ℕ) → List RfcRecord → List (String × ℕ)
unfolding add_counts
tag_counts_from counts [] = counts
tag_counts_from counts (r ∷ rs) = tag_counts_from (add_counts r.tags counts) rs

-- `tagsByKey`
unfoldable pub tags_by_key : List RfcRecord → List (String × String)
unfolding tags_by_key_from
tags_by_key records = tags_by_key_from [] records

-- `tagCounts`
unfoldable pub tag_counts : List RfcRecord → List (String × ℕ)
unfolding tag_counts_from
tag_counts records = tag_counts_from [] records

unfoldable pub statuses_from : List (String × String) → List RfcRecord → List (String × String)
statuses_from statuses [] = statuses
statuses_from statuses (r ∷ rs) = statuses_from (set_entry r.status_key r.status statuses) rs

-- `statusByKey`
unfoldable pub status_by_key : List RfcRecord → List (String × String)
unfolding statuses_from
status_by_key records = statuses_from [] records

-- `[...map].sort((left, right) => left[1].localeCompare(right[1]))`
unfoldable pub by_label : Collator → List (String × String) → List (String × String)
by_label c entries = sort (λ left right. not_after (c.compare_label left.1 right.1)) entries

-- `sortedTags`
unfoldable pub sorted_tags : Collator → List RfcRecord → List (String × String)
unfolding by_label tags_by_key
sorted_tags c records = by_label c (tags_by_key records)

-- An option of a control, with the number that stands beside it.
pub record Counted : Type 0 where
  pub value : String
  pub label : String
  pub count : ℕ

-- `records.filter((record) => record.lifecycle === value).length`
unfoldable pub count_lifecycle : String → List RfcRecord → ℕ
count_lifecycle value records = length (keep (λ (r : RfcRecord). r.lifecycle == value) records)

unfoldable pub scope_definitions : List RfcRecord → List Counted
unfolding count_lifecycle
scope_definitions records =
    record { value = "all"; label = "All"; count = length records }
    ∷ record { value = "active"; label = "Active"; count = count_lifecycle "active" records }
    ∷ record {
      value = "implemented";
      label = "Implemented";
      count = count_lifecycle "implemented" records;
    }
    ∷ []

unfoldable pub tag_options_of : List (String × ℕ) → List (String × String) → List Counted
tag_options_of counts [] = []
tag_options_of counts ((key, label) ∷ tags) =
    record { value = key; label = label; count = get_or (get_entry key counts) 0 }
    ∷ tag_options_of counts tags

-- The check boxes of the tag panel.
unfoldable pub tag_options : Collator → List RfcRecord → List Counted
unfolding tag_options_of tag_counts sorted_tags
tag_options c records = tag_options_of (tag_counts records) (sorted_tags c records)

-- The radio buttons of the status menu.
unfoldable pub status_options : Collator → List RfcRecord → List (String × String)
unfolding by_label status_by_key
status_options c records = ("", "All statuses") ∷ by_label c (status_by_key records)

abbrev pub sort_options : List (String × String)
sort_options =
    ("", "RFC number") ∷ ("status-asc", "Status A–Z") ∷ ("status-desc", "Status Z–A") ∷ []
