-- ===== src/Reader/Parsing/RoundTrip.antt =====
-- The catalog as JSON, and its way back through the checks.
use inc_ql.Base.{String, List, [], ◌∷◌, some, true, false, is_blank, All, ◌≡◌, refl}
use inc_ql.Catalog.{Tag, SourceLink, RfcRecord}
use inc_ql.Reader.Json.{
  Json, Items, array, object, text, no_items, item, no_fields, field, member, property, full_text,
  text_or_blank,
}
use inc_ql.Reader.Parsing.{
  decode_tag, decode_tags, tags_of, links_of, ids_of, decode_links, decode_ids, decode_record,
  decode_records, parse_catalog, catalog, parsed_of, readable,
}
use inc_ql.Reader.Parsing.Laws.{IsFullTag, IsFull}

abbrev pub tags_json : List Tag → Items
tags_json [] = no_items
tags_json (t ∷ ts) =
    item (object (field "key" (text t.key) (field "label" (text t.label) no_fields))) (tags_json ts)

abbrev pub links_json : List SourceLink → Items
links_json [] = no_items
links_json (l ∷ ls) =
    item (object (field "label" (text l.label) (field "url" (text l.url) no_fields)))
      (links_json ls)

abbrev pub ids_json : List String → Items
ids_json [] = no_items
ids_json (id ∷ ids) = item (text id) (ids_json ids)

-- A record with all its fields, in one order of them.
abbrev pub record_json : RfcRecord → Json
record_json r = object (
    field "id" (text r.id) (
      field "title" (text r.title) (
        field "status" (text r.status) (
          field "status_key" (text r.status_key) (
            field "lifecycle" (text r.lifecycle) (
              field "created" (text r.created) (
                field "summary" (text r.summary) (
                  field "motivation" (text r.motivation) (
                    field "href" (text r.href) (
                      field "tags" (array (tags_json r.tags)) (
                        field "issue_links" (array (links_json r.issue_links)) (
                          field "related_ids" (array (ids_json r.related_ids)) no_fields))))))))))))

abbrev pub records_json : List RfcRecord → Items
records_json [] = no_items
records_json (r ∷ rs) = item (record_json r) (records_json rs)

-- The records before their texts to search in are made.
abbrev pub unsearched : List RfcRecord → List RfcRecord
unsearched [] = []
unsearched (r ∷ rs) = (record r { search_text = "" }) ∷ unsearched rs

full_text-text : (s : String) → is_blank s ≡ false → full_text (some (text s)) ≡ some s
unfolding full_text
full_text-text s h = rw h refl

decode_tags-tags_json : (ts : List Tag) → All IsFullTag ts → decode_tags (tags_json ts) ≡ some ts
unfolding decode_tags decode_tag property member
decode_tags-tags_json [] h = refl
decode_tags-tags_json (t ∷ ts) (f, h) =
    rw
      (
        full_text-text t.key f.key_full,
        full_text-text t.label f.label_full,
        decode_tags-tags_json ts h,
      )
      refl

decode_links-links_json : (ls : List SourceLink) → decode_links (links_json ls) ≡ ls
unfolding decode_links property member text_or_blank
decode_links-links_json [] = refl
decode_links-links_json (l ∷ ls) = rw (decode_links-links_json ls) refl

decode_ids-ids_json : (ids : List String) → decode_ids (ids_json ids) ≡ ids
unfolding decode_ids
decode_ids-ids_json [] = refl
decode_ids-ids_json (id ∷ ids) = rw (decode_ids-ids_json ids) refl

decode_record-record_json :
    (r : RfcRecord)
    → IsFull r
    → decode_record (record_json r) ≡ some (record r { search_text = "" })
unfolding decode_record property member tags_of links_of ids_of
decode_record-record_json r f =
    rw
      (
        full_text-text r.id f.id_full,
        full_text-text r.title f.title_full,
        full_text-text r.status f.status_full,
        full_text-text r.status_key f.status_key_full,
        full_text-text r.lifecycle f.lifecycle_full,
        full_text-text r.created f.created_full,
        full_text-text r.summary f.summary_full,
        full_text-text r.motivation f.motivation_full,
        full_text-text r.href f.href_full,
        decode_tags-tags_json r.tags f.tags_full,
        decode_links-links_json r.issue_links,
        decode_ids-ids_json r.related_ids,
      )
      refl

decode_records-records_json :
    (rs : List RfcRecord) → All IsFull rs → decode_records (records_json rs) ≡ some (unsearched rs)
unfolding decode_records
decode_records-records_json [] h = refl
decode_records-records_json (r ∷ rs) (f, h) =
    rw (decode_record-record_json r f, decode_records-records_json rs h) refl

readable-records_json : (rs : List RfcRecord) → readable (records_json rs) ≡ true
unfolding readable property member links_of ids_of
readable-records_json [] = refl
readable-records_json (r ∷ rs) = readable-records_json rs

-- The JSON of records that have their required fields and tags passes the checks and is read as these
-- records, with their links and related ids; their texts to search in are still to be made.
pub parse_catalog-records_json :
    (r : RfcRecord) (rs : List RfcRecord)
    → All IsFull (r ∷ rs)
    → parse_catalog (some (array (records_json (r ∷ rs)))) ≡ catalog (unsearched (r ∷ rs))
unfolding parse_catalog parsed_of
parse_catalog-records_json r rs h =
    rw (readable-records_json (r ∷ rs), decode_records-records_json (r ∷ rs) h) refl
