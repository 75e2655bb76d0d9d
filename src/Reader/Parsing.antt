-- ===== src/Reader/Parsing.antt =====
-- The catalog that the page carries: `initializeRfcReader` takes it only if every record has its
-- required fields and tags. A read that throws and a record that is not valid end alike, with the
-- fallback of the page.
pub mod Laws
pub mod RoundTrip
use inc_ql.Base.{
  String, List, [], ◌∷◌, Option, none, some, Bool, if◌then◌else◌, is_blank, true, false, ◌&&◌,
  get_or,
}
use inc_ql.Catalog.{Tag, SourceLink, RfcRecord}
use inc_ql.Reader.Json.{
  Json, Items, Fields, null, array, object, text, no_items, item, property, full_text,
  text_or_blank,
}

infixl 5 ◌>>=◌
abbrev pub ◌>>=◌ {ℓ κ} : {A : Type ℓ} {B : Type κ} → Option A → (A → Option B) → Option B
none >>= k = none
some a >>= k = k a

unfoldable pub decode_tag : Json → Option Tag
decode_tag j = do
  key ← full_text (property "key" j)
  label ← full_text (property "label" j)
  some (record { key = key; label = label })

unfoldable pub decode_tags : Items → Option (List Tag)
unfolding decode_tag
decode_tags no_items = some []
decode_tags (item j js) = do t ← decode_tag j; ts ← decode_tags js; some (t ∷ ts)

-- `Array.isArray(record.tags)`, and no tag is invalid
unfoldable pub tags_of : Option Json → Option (List Tag)
unfolding decode_tags
tags_of (some (array js)) = decode_tags js
tags_of _ = none

unfoldable pub decode_links : Items → List SourceLink
decode_links no_items = []
decode_links (item j js) =
    record { url = text_or_blank (property "url" j); label = text_or_blank (property "label" j) }
    ∷ decode_links js

-- An id that is no text names no record.
unfoldable pub decode_ids : Items → List String
decode_ids no_items = []
decode_ids (item (text id) js) = id ∷ decode_ids js
decode_ids (item _ js) = decode_ids js

-- The optional lists of a record, `(links ?? []).map(...)` and `(record.related_ids ?? []).map(...)`;
-- of what is no list the read throws, which is `none`.
unfoldable pub links_of : Option Json → Option (List SourceLink)
unfolding decode_links
links_of none = some []
links_of (some null) = some []
links_of (some (array js)) = some (decode_links js)
links_of _ = none

unfoldable pub ids_of : Option Json → Option (List String)
unfolding decode_ids
ids_of none = some []
ids_of (some null) = some []
ids_of (some (array js)) = some (decode_ids js)
ids_of _ = none

abbrev pub is_some {ℓ} : {A : Type ℓ} → Option A → Bool
is_some none = false
is_some (some a) = true

-- `renderDetail` can read the lists of every record.
unfoldable pub readable : Items → Bool
unfolding links_of ids_of
readable no_items = true
readable (item j js) =
    is_some (links_of (property "issue_links" j))
    && is_some (ids_of (property "related_ids" j))
    && readable js

-- The text to search in is made later. The lists are those of a readable record.
unfoldable pub decode_record : Json → Option RfcRecord
unfolding tags_of links_of ids_of
decode_record j = do
  id ← full_text (property "id" j)
  title ← full_text (property "title" j)
  status ← full_text (property "status" j)
  status_key ← full_text (property "status_key" j)
  lifecycle ← full_text (property "lifecycle" j)
  created ← full_text (property "created" j)
  summary ← full_text (property "summary" j)
  motivation ← full_text (property "motivation" j)
  href ← full_text (property "href" j)
  tags ← tags_of (property "tags" j)
  some (record {
    id = id;
    title = title;
    status = status;
    status_key = status_key;
    lifecycle = lifecycle;
    created = created;
    summary = summary;
    motivation = motivation;
    href = href;
    tags = tags;
    search_text = "";
    issue_links = get_or (links_of (property "issue_links" j)) [];
    related_ids = get_or (ids_of (property "related_ids" j)) [];
  })

unfoldable pub decode_records : Items → Option (List RfcRecord)
unfolding decode_record
decode_records no_items = some []
decode_records (item j js) = do r ← decode_record j; rs ← decode_records js; some (r ∷ rs)

-- What comes of the catalog: the page keeps its fallback; the reader is set up with the records; or the
-- checks pass, but `renderDetail` throws on the lists of some record, for which the reader is not
-- modelled.
pub data Parsed : Type 0 where
  refused : Parsed
  catalog : List RfcRecord → Parsed
  unreadable : Parsed

unfoldable pub parsed_of : Bool → Option (List RfcRecord) → Parsed
parsed_of can_read none = refused
parsed_of true (some records) = catalog records
parsed_of false (some records) = unreadable

-- For what `JSON.parse` gave, which is `none` if it threw.
unfoldable pub parse_catalog : Option Json → Parsed
unfolding decode_records parsed_of readable
parse_catalog (some (array (item j js))) =
    parsed_of (readable (item j js)) (decode_records (item j js))
parse_catalog _ = refused
