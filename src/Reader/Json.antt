-- ===== src/Reader/Json.antt =====
-- The values of JSON, as `JSON.parse` gives them; a number is kept as its text.
use inc_ql.Base.{Bool, String, Option, none, some, ◌==◌, if◌then◌else◌, is_blank}

mutual
  pub data Json : Type 0 where
    null : Json
    boolean : Bool → Json
    number : String → Json
    text : String → Json
    array : Items → Json
    object : Fields → Json

  pub data Items : Type 0 where
    no_items : Items
    item : Json → Items → Items

  pub data Fields : Type 0 where
    no_fields : Fields
    field : String → Json → Fields → Fields

-- A key that stands twice has its last value.
unfoldable pub member : String → Fields → Option Json
member key no_fields = none
member key (field k v fs) =
    let here = if k == key then some v else none in
    elim (member key fs) [ none ↦ here | some later ↦ some later ]

-- `value[key]`, which has nothing for what is no object; of `null` the read throws.
unfoldable pub property : String → Json → Option Json
property key (object fs) = member key fs
property key null = none
property key (boolean b) = none
property key (number n) = none
property key (text s) = none
property key (array xs) = none

-- A text that is not empty: `typeof value === "string" && value.length !== 0`
unfoldable pub full_text : Option Json → Option String
full_text (some (text s)) = if is_blank s then none else some s
full_text _ = none

-- What stands in an optional text; anything else is blank here.
unfoldable pub text_or_blank : Option Json → String
text_or_blank (some (text s)) = s
text_or_blank _ = ""
