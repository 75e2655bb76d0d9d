-- ===== src/Catalog/Examples.antt =====
-- The operations of the catalog on a small one, and their theorems there.
use Prim.Native.Nat.{Ordering}
use inc_ql.Base.{
  String, List, [], ◌∷◌, some, true, false, ◌≡◌, refl, has, pos, negsuc, words, includes, text_le,
  text_le_total, Perm, arith, ◌&&◌, if◌then◌else◌,
}
use inc_ql.Catalog.{
  Tag, RfcRecord, State, Collator, IsConsistent, flip, ids, find_index, adjacent_record_id, set_tag,
  matches, tag_keys, sort_records,
}
use inc_ql.Catalog.Moves.{adjacent_record_id-has, adjacent_record_id_undo}
use inc_ql.Catalog.Tags.{matches-set_tag, matches-set_tag_off}
use inc_ql.Catalog.Order.{IsChain, sort_records-IsChain}

abbrev pub sql : Tag
sql = record { key = "sql"; label = "SQL" }

abbrev pub plan : Tag
plan = record { key = "plan"; label = "Plan" }

abbrev pub make : String → String → String → String → List Tag → RfcRecord
make id status key lifecycle tags = record {
  id = id;
  title = id;
  status = status;
  status_key = key;
  lifecycle = lifecycle;
  created = "2026";
  summary = "about";
  motivation = "why";
  href = id;
  tags = tags;
  search_text = id;
  issue_links = [];
  related_ids = [];
}

abbrev pub samples : List RfcRecord
samples =
    make "003" "Implemented" "implemented" "implemented" (sql ∷ [])
    ∷ make "001" "Draft" "draft" "active" (sql ∷ plan ∷ [])
    ∷ make "002" "Draft" "draft" "active" []
    ∷ []

unfoldable pub compare_texts : String → String → Ordering
compare_texts a b =
    if text_le a b then if text_le b a then Ordering.eq else Ordering.lt else Ordering.gt

pub compare_texts-flip : (a b : String) → compare_texts b a ≡ flip (compare_texts a b)
unfolding compare_texts
compare_texts-flip a b = ground (arith, text_le_total a b, text_le_total b a)

-- A collator that orders all texts as `sort()` does.
abbrev pub by_code : Collator
by_code = record {
  compare_id = compare_texts;
  compare_status = compare_texts;
  compare_label = compare_texts;
}

abbrev pub by_code-IsConsistent : IsConsistent by_code
by_code-IsConsistent = record { id_flip = compare_texts-flip; status_flip = compare_texts-flip }

sort_test : ids (sort_records by_code samples "status-asc") ≡ "001" ∷ "002" ∷ "003" ∷ []
unfolding sort_records text_le compare_texts
sort_test = refl

adjacent_record_id-has_example : has (ids samples) (adjacent_record_id samples "404" (pos 1)) ≡ true
adjacent_record_id-has_example = adjacent_record_id-has samples "404" (pos 1) (λ e. cc)

found_001 : find_index samples "001" ≡ some 1
unfolding find_index
found_001 = refl

adjacent_record_id_undo_example :
    adjacent_record_id samples (adjacent_record_id samples "001" (pos 1)) (negsuc 0) ≡ "001"
adjacent_record_id_undo_example =
    adjacent_record_id_undo samples "001" 1 (refl, (refl, (refl, tt))) found_001 (omega arith)

abbrev drafts : State
drafts = record {
  query = "";
  scope = "all";
  status = "draft";
  sort = "";
  tags = "sql" ∷ [];
  selected_id = "001";
  selected_explicitly = false;
}

abbrev second : RfcRecord
second = make "001" "Draft" "draft" "active" (sql ∷ plan ∷ [])

matches-set_tag_example :
    matches second (record drafts { tags = set_tag drafts.tags "plan" true }) (λ text. text)
    ≡ (matches second drafts (λ text. text) && has (tag_keys second.tags) "plan")
matches-set_tag_example = matches-set_tag second drafts (λ text. text) "plan"

matches-second : matches second drafts (λ text. text) ≡ true
unfolding matches words includes
matches-second = refl

matches-set_tag_off_example :
    matches second (record drafts { tags = set_tag drafts.tags "sql" false }) (λ text. text) ≡ true
matches-set_tag_off_example = matches-set_tag_off second drafts (λ text. text) "sql" matches-second

sort_records-IsChain_example :
    IsChain by_code "status-desc" (sort_records by_code samples "status-desc")
    × Perm (sort_records by_code samples "status-desc") samples
sort_records-IsChain_example =
    sort_records-IsChain by_code by_code-IsConsistent samples "status-desc"
