-- ===== src/Catalog/Tags.antt =====
-- The tag filters: the list that `setTag` returns, and what it does to the filtering.
use inc_ql.Base.{
  every-has, every_of_has, Bool_ext, String, List, [], ◌∷◌, ◌++◌, Bool, true, false, not, ◌&&◌,
  ◌==◌, if◌then◌else◌, every, keep, has, dedup, text_le, text_le_total, IsSorted, NoRepeat,
  NoRepeat-keep, NoRepeat-dedup, NoRepeat-sort, sort-IsSorted, has-sort, has-dedup, has-append,
  has-keep, ◌≡◌, ◌∙◌, arith, eq_iff,
}
use inc_ql.Catalog.{RfcRecord, State, set_tag, tag_keys, matches}

-- What `setTag` returns is in the order of `sort()` and holds no tag twice, if the list that it is
-- given holds none twice.
pub set_tag-IsSorted :
    (tags : List String) (key : String) (selected : Bool)
    → NoRepeat tags
    → IsSorted text_le (set_tag tags key selected) × NoRepeat (set_tag tags key selected)
unfolding set_tag
set_tag-IsSorted tags key true n = (
  sort-IsSorted text_le text_le_total (dedup (tags ++ key ∷ [])),
  NoRepeat-sort text_le _ (NoRepeat-dedup (tags ++ key ∷ [])),
)
set_tag-IsSorted tags key false n = (
  sort-IsSorted text_le text_le_total (keep (λ tag. not (tag == key)) tags),
  NoRepeat-sort text_le _ (NoRepeat-keep (λ tag. not (tag == key)) tags n),
)

-- After `setTag` the key is in the list exactly when it was selected, and every other tag is in it
-- exactly when it was before.
pub has-set_tag :
    (tags : List String) (key tag : String) (selected : Bool)
    → has (set_tag tags key selected) tag ≡ (if key == tag then selected else has tags tag)
unfolding set_tag
has-set_tag tags key tag true =
    has-sort text_le _ tag
    ∙ has-dedup (tags ++ key ∷ []) tag
    ∙ has-append tags (key ∷ []) tag
    ∙ ground (arith, eq_iff key tag)
has-set_tag tags key tag false =
    has-sort text_le _ tag
    ∙ has-keep (λ t. not (t == key)) tags tag
    ∙ ground (arith, eq_iff key tag, eq_iff tag key)

every-set_tag :
    (p : String → Bool) (tags : List String) (key : String)
    → every p (set_tag tags key true) ≡ (every p tags && p key)
every-set_tag p tags key = Bool_ext _ _ to from
  where
    to : every p (set_tag tags key true) ≡ true → (every p tags && p key) ≡ true
    to e =
        let old : every p tags ≡ true =
          every_of_has p tags
            λ a h. every-has p _ a e (ground (arith, has-set_tag tags key a true)) in
        let new : p key ≡ true =
          every-has p _ key e (ground (arith, has-set_tag tags key key true, eq_iff key key)) in
        ground arith

    from : (every p tags && p key) ≡ true → every p (set_tag tags key true) ≡ true
    from e =
        every_of_has p _
          λ a h. ground (arith, has-set_tag tags key a true, eq_iff key a, every-has p tags a)

-- Selecting a tag keeps exactly those of the matching records that carry it.
pub matches-set_tag :
    (r : RfcRecord) (s : State) (normalize_search : String → String) (key : String)
    → matches r (record s { tags = set_tag s.tags key true }) normalize_search
      ≡ (matches r s normalize_search && has (tag_keys r.tags) key)
unfolding matches
matches-set_tag r s normalize_search key =
    ground (arith, every-set_tag (λ tag. has (tag_keys r.tags) tag) s.tags key)

every-set_tag_off :
    (p : String → Bool) (tags : List String) (key : String)
    → every p tags ≡ true
    → every p (set_tag tags key false) ≡ true
every-set_tag_off p tags key e =
    every_of_has p _ λ a h. every-has p tags a e (ground (arith, has-set_tag tags key a false))

-- Clearing a tag loses no matching record.
pub matches-set_tag_off :
    (r : RfcRecord) (s : State) (normalize_search : String → String) (key : String)
    → matches r s normalize_search ≡ true
    → matches r (record s { tags = set_tag s.tags key false }) normalize_search ≡ true
unfolding matches
matches-set_tag_off r s normalize_search key h =
    ground (arith, every-set_tag_off (λ tag. has (tag_keys r.tags) tag) s.tags key)
