-- ===== src/Reader/Counts.antt =====
-- The numbers beside the scopes and the tags: what choosing the one alone would show.
use inc_ql.Base.{
  ℕ, ◌+◌, String, List, [], ◌∷◌, Bool, true, false, ◌&&◌, ◌||◌, ◌==◌, if◌then◌else◌, length, keep,
  has, every, insert, sort, words, get_or, get_entry, set_entry, get-set_entry, NoRepeat, All, ap,
  ◌≡◌, refl, sym, ◌∙◌, arith, eq_iff,
}
use inc_ql.Catalog.{RfcRecord, Tag, State, tag_keys, matches, sort_records, record_le}
use inc_ql.Reader.Choices.{
  Counted, add_counts, tag_counts_from, tag_counts, count_lifecycle, scope_definitions, tag_options,
  tag_options_of, sorted_tags,
}
use inc_ql.Reader.Session.{Setup, default_state, visible_records}

module _ {ℓ} {A : Type ℓ} (f : A → Bool) (le : A → A → Bool) where
  length-keep-insert :
      (x : A) (xs : List A) → length (keep f (insert le x xs)) ≡ length (keep f (x ∷ xs))
  length-keep-insert x [] = refl
  length-keep-insert x (y ∷ xs) = ground (arith, length-keep-insert x xs)

  length-keep-sort : (xs : List A) → length (keep f (sort le xs)) ≡ length (keep f xs)
  length-keep-sort [] = refl
  length-keep-sort (x ∷ xs) = ground (arith, length-keep-insert x (sort le xs), length-keep-sort xs)

keep_ext :
    (f g : RfcRecord → Bool) (rs : List RfcRecord)
    → ((r : RfcRecord) → f r ≡ g r)
    → length (keep f rs) ≡ length (keep g rs)
keep_ext f g [] h = refl
keep_ext f g (r ∷ rs) h = ground (arith, h r, keep_ext f g rs h)

length-keep_all : (rs : List RfcRecord) → length (keep (λ r. true) rs) ≡ length rs
length-keep_all [] = refl
length-keep_all (r ∷ rs) = ground (arith, length-keep_all rs)

and_true : (b : Bool) → (b && true) ≡ b
and_true true = refl
and_true false = refl

module _ (p : Setup) where
  -- How many records are visible, with whatever test they pass.
  length-visible :
      (s : State) (f : RfcRecord → Bool)
      → ((r : RfcRecord) → matches r s p.searchable ≡ f r)
      → length (visible_records p s) ≡ length (keep f p.records)
  unfolding visible_records sort_records
  length-visible s f h =
      length-keep-sort (λ r. matches r s p.searchable) (record_le p.collator s.sort) p.records
      ∙ keep_ext (λ r. matches r s p.searchable) f p.records h

  -- With a blank query and no status only the scope and the tags filter.
  blank_matches :
      (r : RfcRecord) (scope : String) (tags : List String)
      → p.searchable "" ≡ ""
      → matches r (record (default_state p.records) { scope = scope; tags = tags }) p.searchable ≡ (
          (scope == "all" || r.lifecycle == scope) && every (λ tag. has (tag_keys r.tags) tag) tags)
  unfolding matches words default_state
  blank_matches r scope tags blank = rw blank (ground arith)

  -- The number beside each scope is that of the records that the page shows when the scope is all that is
  -- chosen. The search of a blank query is blank.
  pub scope_counts_shown :
      p.searchable "" ≡ ""
      → All
          (λ (o : Counted).
            o.count
            ≡ length (visible_records p (record (default_state p.records) { scope = o.value })))
          (scope_definitions p.records)
  unfolding scope_definitions count_lifecycle default_state
  scope_counts_shown blank = (
    sym (
        length-visible _ (λ r. true) (λ r. blank_matches r "all" [] blank)
        ∙ length-keep_all p.records),
    (
      sym (
          length-visible _ (λ r. r.lifecycle == "active")
            (λ r. blank_matches r "active" [] blank ∙ and_true (r.lifecycle == "active"))),
      (
        sym (
            length-visible _ (λ r. r.lifecycle == "implemented")
              (λ r.
                blank_matches r "implemented" [] blank ∙ and_true (r.lifecycle == "implemented"))),
        tt,
      ),
    ),
  )

add_counts_lem :
    (ts : List Tag) (m : List (String × ℕ)) (key : String)
    → NoRepeat (tag_keys ts)
    → get_or (get_entry key (add_counts ts m)) 0
      ≡ get_or (get_entry key m) 0 + (if has (tag_keys ts) key then 1 else 0)
unfolding add_counts
add_counts_lem [] m key n = omega arith
add_counts_lem (t ∷ ts) m key (new, n) = ground (
  arith,
  eq_iff t.key key,
  add_counts_lem ts (set_entry t.key (get_or (get_entry t.key m) 0 + 1) m) key n,
  get-set_entry t.key key (get_or (get_entry t.key m) 0 + 1) m,
)

tag_counts_from_lem :
    (m : List (String × ℕ)) (rs : List RfcRecord) (key : String)
    → All (λ (r : RfcRecord). NoRepeat (tag_keys r.tags)) rs
    → get_or (get_entry key (tag_counts_from m rs)) 0
      ≡ get_or (get_entry key m) 0 + length (keep (λ (r : RfcRecord). has (tag_keys r.tags) key) rs)
unfolding tag_counts_from
tag_counts_from_lem m [] key d = omega arith
tag_counts_from_lem m (r ∷ rs) key (n, d) =
    ground
      (arith, tag_counts_from_lem (add_counts r.tags m) rs key d, add_counts_lem r.tags m key n)

-- Every option, with what it counts by.
tag_options_of_lem :
    (P : String → ℕ → Type 0) (counts : List (String × ℕ)) (tags : List (String × String))
    → ((key : String) → P key (get_or (get_entry key counts) 0))
    → All (λ (o : Counted). P o.value o.count) (tag_options_of counts tags)
unfolding tag_options_of
tag_options_of_lem P counts [] h = tt
tag_options_of_lem P counts ((key, label) ∷ tags) h = (h key, tag_options_of_lem P counts tags h)

-- The number beside each tag is that of the records that the page shows when the tag is all that is
-- chosen. The search of a blank query is blank, and no record names a tag twice.
pub tag_counts_shown :
    (p : Setup)
    → p.searchable "" ≡ ""
    → All (λ (r : RfcRecord). NoRepeat (tag_keys r.tags)) p.records
    → All
        (λ (o : Counted).
          o.count
          ≡ length (visible_records p (record (default_state p.records) { tags = o.value ∷ [] })))
        (tag_options p.collator p.records)
unfolding tag_options tag_counts default_state
tag_counts_shown p blank distinct =
    tag_options_of_lem
      (λ key count.
        count ≡ length (visible_records p (record (default_state p.records) { tags = key ∷ [] })))
      (tag_counts p.records) (sorted_tags p.collator p.records)
      (λ key.
        tag_counts_from_lem [] p.records key distinct
        ∙ ap (λ n. 0 + n)
            (sym (
              length-visible p _ (λ r. has (tag_keys r.tags) key)
                (λ r.
                  blank_matches p r "all" (key ∷ []) blank ∙ and_true (has (tag_keys r.tags) key))))
        ∙ omega arith)
