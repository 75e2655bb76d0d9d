-- ===== src/Reader/Parsing/Laws.antt =====
-- What the checks of the catalog let through.
use mathlib.Core.Path.{subst}
use inc_ql.Base.{
  String, List, [], Option, none, some, false, if◌then◌else◌, is_blank, All, Bool-cases, inl, inr,
  ◌≡◌, ◌≢◌, Bool, true, ap,
}
use inc_ql.Catalog.{Tag, RfcRecord}
use inc_ql.Reader.Json.{Json, Items, array, text, no_items, item, property, full_text}
use inc_ql.Reader.Parsing.{
  decode_tag, decode_tags, tags_of, decode_record, decode_records, parse_catalog, Parsed, catalog,
  parsed_of, readable, ◌>>=◌,
}

-- A tag as the reader relies on it.
pub record IsFullTag (t : Tag) : Type 0 where
  pub key_full : is_blank t.key ≡ false
  pub label_full : is_blank t.label ≡ false

-- A record as the reader relies on it.
pub record IsFull (r : RfcRecord) : Type 0 where
  pub id_full : is_blank r.id ≡ false
  pub title_full : is_blank r.title ≡ false
  pub status_full : is_blank r.status ≡ false
  pub status_key_full : is_blank r.status_key ≡ false
  pub lifecycle_full : is_blank r.lifecycle ≡ false
  pub created_full : is_blank r.created ≡ false
  pub summary_full : is_blank r.summary ≡ false
  pub motivation_full : is_blank r.motivation ≡ false
  pub href_full : is_blank r.href ≡ false
  pub tags_full : All IsFullTag r.tags

-- If there is a result, it satisfies the predicate.
abbrev Ensures {ℓ κ} : {A : Type ℓ} → (A → Type κ) → Option A → Type κ
Ensures P none = Unit
Ensures P (some a) = P a

Ensures-bind {ℓ κ μ} :
    {A : Type ℓ} {B : Type κ} (Q : A → Type μ) (P : B → Type μ) (o : Option A) (k : A → Option B)
    → Ensures Q o
    → ((a : A) → Q a → Ensures P (k a))
    → Ensures P (o >>= k)
Ensures-bind Q P none k h f = tt
Ensures-bind Q P (some a) k h f = f a h

Ensures-some {ℓ κ} :
    {A : Type ℓ} (P : A → Type κ) (o : Option A) (a : A) → Ensures P o → o ≡ some a → P a
Ensures-some P (some b) a h e = subst (λ o. Ensures P o) e h
Ensures-some P none a h e = cc

abbrev IsFullText : String → Type 0
IsFullText s = is_blank s ≡ false

kept_full : (s : String) → Ensures IsFullText (if is_blank s then none else some s)
kept_full s = elim (Bool-cases (is_blank s)) [ inl b ↦ rw b tt | inr b ↦ rw b b ]

full_text-full : (o : Option Json) → Ensures IsFullText (full_text o)
unfolding full_text
full_text-full (some (text s)) = kept_full s
full_text-full (some (array x)) = tt
full_text-full _ = tt

-- The rule for a required text.
Ensures-full {κ} :
    {B : Type κ} (P : B → Type 0) (o : Option Json) (k : String → Option B)
    → ((s : String) → IsFullText s → Ensures P (k s))
    → Ensures P (full_text o >>= k)
Ensures-full P o k f = Ensures-bind IsFullText P (full_text o) k (full_text-full o) f

decode_tag-IsFullTag : (j : Json) → Ensures IsFullTag (decode_tag j)
unfolding decode_tag
decode_tag-IsFullTag j = Ensures-full IsFullTag (property "key" j) _ λ key k.
    Ensures-full IsFullTag (property "label" j) _ λ label l. record { key_full = k; label_full = l }

decode_tags-IsFullTag : (js : Items) → Ensures (All IsFullTag) (decode_tags js)
unfolding decode_tags
decode_tags-IsFullTag no_items = tt
decode_tags-IsFullTag (item j js) =
    Ensures-bind IsFullTag (All IsFullTag) (decode_tag j) _ (decode_tag-IsFullTag j) λ t h.
      Ensures-bind (All IsFullTag) (All IsFullTag) (decode_tags js) _ (decode_tags-IsFullTag js)
        λ ts hs. (h, hs)

tags_of-IsFullTag : (o : Option Json) → Ensures (All IsFullTag) (tags_of o)
unfolding tags_of
tags_of-IsFullTag (some (array js)) = decode_tags-IsFullTag js
tags_of-IsFullTag (some (text s)) = tt
tags_of-IsFullTag _ = tt

decode_record-IsFull : (j : Json) → Ensures IsFull (decode_record j)
unfolding decode_record
decode_record-IsFull j = Ensures-full IsFull (property "id" j) _ λ id a.
    Ensures-full IsFull (property "title" j) _ λ title b.
      Ensures-full IsFull (property "status" j) _ λ status c.
        Ensures-full IsFull (property "status_key" j) _ λ status_key d.
          Ensures-full IsFull (property "lifecycle" j) _ λ lifecycle e.
            Ensures-full IsFull (property "created" j) _ λ created f.
              Ensures-full IsFull (property "summary" j) _ λ summary g.
                Ensures-full IsFull (property "motivation" j) _ λ motivation h.
                  Ensures-full IsFull (property "href" j) _ λ href i.
                    Ensures-bind (All IsFullTag) IsFull (tags_of (property "tags" j)) _
                      (tags_of-IsFullTag (property "tags" j))
                      λ tags k. record {
                        id_full = a;
                        title_full = b;
                        status_full = c;
                        status_key_full = d;
                        lifecycle_full = e;
                        created_full = f;
                        summary_full = g;
                        motivation_full = h;
                        href_full = i;
                        tags_full = k;
                      }

decode_records-IsFull : (js : Items) → Ensures (All IsFull) (decode_records js)
unfolding decode_records
decode_records-IsFull no_items = tt
decode_records-IsFull (item j js) =
    Ensures-bind IsFull (All IsFull) (decode_record j) _ (decode_record-IsFull j) λ r h.
      Ensures-bind (All IsFull) (All IsFull) (decode_records js) _ (decode_records-IsFull js)
        λ rs hs. (h, hs)

parsed_items :
    (j : Json) (js : Items) → Ensures (λ rs. All IsFull rs × (rs ≢ [])) (decode_records (item j js))
unfolding decode_records
parsed_items j js =
    Ensures-bind IsFull (λ rs. All IsFull rs × (rs ≢ [])) (decode_record j) _
      (decode_record-IsFull j)
      λ r h.
        Ensures-bind (All IsFull) (λ rs. All IsFull rs × (rs ≢ [])) (decode_records js) _
          (decode_records-IsFull js) λ rs hs. ((h, hs), λ e. cc)

-- The records of a catalog that is taken.
abbrev records_of : Parsed → Option (List RfcRecord)
records_of (catalog records) = some records
records_of _ = none

records_of-parsed_of :
    (b : Bool) (P : List RfcRecord → Type 0) (o : Option (List RfcRecord))
    → Ensures P o
    → Ensures P (records_of (parsed_of b o))
unfolding parsed_of
records_of-parsed_of b P none h = tt
records_of-parsed_of true P (some rs) h = h
records_of-parsed_of false P (some rs) h = tt

parsed-IsFull :
    (o : Option Json) → Ensures (λ rs. All IsFull rs × (rs ≢ [])) (records_of (parse_catalog o))
unfolding parse_catalog
parsed-IsFull (some (array (item j js))) =
    records_of-parsed_of (readable (item j js)) (λ rs. All IsFull rs × (rs ≢ []))
      (decode_records (item j js)) (parsed_items j js)
parsed-IsFull (some (array no_items)) = tt
parsed-IsFull (some (text s)) = tt
parsed-IsFull _ = tt

-- A catalog that passes the checks has a record, and each of its records has all its required texts
-- and tags, none of them empty.
pub parse_catalog-IsFull :
    (o : Option Json) (records : List RfcRecord)
    → parse_catalog o ≡ catalog records
    → All IsFull records × (records ≢ [])
parse_catalog-IsFull o records e =
    Ensures-some (λ rs. All IsFull rs × (rs ≢ [])) (records_of (parse_catalog o)) records
      (parsed-IsFull o) (ap records_of e)
