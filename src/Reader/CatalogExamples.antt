-- ===== src/Reader/CatalogExamples.antt =====
-- The catalog of the RFC reader, its options and its controls at concrete inputs.
use inc_ql.Base.{
  String, List, [], ◌∷◌, Option, none, some, Bool, true, false, ◌≡◌, refl, ◌≢◌, ◌≤◌, ◌+◌, All,
  arith, length, has,
}
use inc_ql.Catalog.{RfcRecord}
use inc_ql.Catalog.Examples.{samples, by_code, make, sql, plan}
use inc_ql.Reader.Json.{
  Json, array, text, item, no_items, object, field, no_fields, property, member, full_text,
}
use inc_ql.Reader.Parsing.{parse_catalog, catalog, refused}
use inc_ql.Reader.Parsing.Laws.{IsFull, parse_catalog-IsFull}
use inc_ql.Reader.Parsing.RoundTrip.{records_json, unsearched, parse_catalog-records_json}
use inc_ql.Reader.Excerpt.{text_size, take_units, excerpt}
use inc_ql.Reader.Excerpt.Bounds.{IsExcerpt, excerpt-IsExcerpt}
use inc_ql.Reader.Choices.{Counted, scope_definitions, tag_options}
use inc_ql.Reader.Counts.{scope_counts_shown, tag_counts_shown}
use inc_ql.Reader.Session.{default_state, visible_records}
use inc_ql.Reader.Events.{run, initialize}
use inc_ql.Reader.Detailed.{IsDetailed, initialize-run-IsDetailed}
use inc_ql.Reader.Offered.{IsChecked, initialize-run-IsChecked}
use inc_ql.Base.{decimal, includes, text_le, trim, words}
use inc_ql.Reader.Examples.{setup, closed, address, visit, offered, no_blank}

initialize-run-IsDetailed_example :
    IsDetailed setup (run setup visit (initialize setup address false closed))
initialize-run-IsDetailed_example = initialize-run-IsDetailed setup address false closed visit

initialize-run-IsChecked_example :
    IsChecked setup (run setup visit (initialize setup address false closed))
initialize-run-IsChecked_example =
    initialize-run-IsChecked setup no_blank address false closed visit offered

scope_counts_shown_example :
    All
      (λ (o : Counted).
        o.count
        ≡ length (visible_records setup (record (default_state samples) { scope = o.value })))
      (scope_definitions samples)
scope_counts_shown_example = scope_counts_shown setup refl

tag_counts_shown_example :
    All
      (λ (o : Counted).
        o.count
        ≡ length (visible_records setup (record (default_state samples) { tags = o.value ∷ [] })))
      (tag_options by_code samples)
tag_counts_shown_example = tag_counts_shown setup refl (ground arith)

samples-IsFull : All IsFull samples
samples-IsFull = ground arith

abbrev first_record : RfcRecord
first_record = make "003" "Implemented" "implemented" "implemented" (sql ∷ [])

abbrev later_records : List RfcRecord
later_records =
    make "001" "Draft" "draft" "active" (sql ∷ plan ∷ [])
    ∷ make "002" "Draft" "draft" "active" []
    ∷ []

abbrev page_json : Option Json
page_json = some (array (records_json samples))

parsed : parse_catalog page_json ≡ catalog (unsearched samples)
parsed = parse_catalog-records_json first_record later_records samples-IsFull

parse_catalog-records_json_example : parse_catalog page_json ≡ catalog (unsearched samples)
parse_catalog-records_json_example =
    parse_catalog-records_json first_record later_records samples-IsFull

parse_catalog-IsFull_example : All IsFull (unsearched samples) × (unsearched samples ≢ [])
parse_catalog-IsFull_example = parse_catalog-IsFull page_json (unsearched samples) parsed

-- A record with a blank title voids the catalog.
not_parsed :
    parse_catalog (
      some (
        array (item (object (field "id" (text "1") (field "title" (text "") no_fields))) no_items)))
    ≡ refused
unfolding parse_catalog full_text property member
not_parsed = refl

excerpt-IsExcerpt_example : IsExcerpt "one two three" 9 (excerpt "one two three" 9)
excerpt-IsExcerpt_example = excerpt-IsExcerpt "one two three" 9

excerpt_test : excerpt "one two three" 9 ≡ "one two…"
unfolding excerpt text_size inc_ql.Base.trim take_units
excerpt_test = refl

long_word_test : excerpt "a sesquipedalian" 9 ≡ "a sesquip…"
unfolding excerpt text_size inc_ql.Base.trim take_units
long_word_test = refl
