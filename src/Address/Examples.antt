-- ===== src/Address/Examples.antt =====
-- The state of the filters and its address, at a small state.
use inc_ql.Base.{[], ◌∷◌, some, true, false, ◌≡◌, refl, trim, text_le}
use inc_ql.Params.{Params, get, set, delete, append, append_each}
use inc_ql.Catalog.{State}
use inc_ql.Address.{Known, IsCanonical, read_params, write_params, set_or_delete}
use inc_ql.Address.RoundTrip.{restored, read_params-write_params}
use inc_ql.Address.Canonical.{read_params-IsCanonical}

abbrev known : Known
known = record { statuses = "draft" ∷ []; tags = "plan" ∷ "sql" ∷ []; records = "001" ∷ "002" ∷ [] }

abbrev start : State
start = record {
  query = "";
  scope = "all";
  status = "";
  sort = "";
  tags = [];
  selected_id = "001";
  selected_explicitly = false;
}

abbrev chosen : State
chosen = record {
  query = " join ";
  scope = "all";
  status = "draft";
  sort = "status-desc";
  tags = "plan" ∷ "sql" ∷ [];
  selected_id = "002";
  selected_explicitly = true;
}

chosen-IsCanonical : IsCanonical known chosen
unfolding text_le
chosen-IsCanonical = record {
  scope_offered = refl;
  status_offered = refl;
  status_scope = refl;
  sort_offered = refl;
  tags_ordered = (refl, (tt, tt));
  tags_distinct = (refl, (refl, tt));
  tags_known = refl;
  selection_known = λ e. refl;
}

abbrev address : Params
address = ("topic", "old") ∷ ("q", "x") ∷ ("view", "wide") ∷ []

written : get "q" (write_params address chosen) ≡ some "join"
unfolding write_params get set delete append_each append set_or_delete trim text_le
written = refl

read_params-write_params_example :
    read_params (write_params address chosen) start known ≡ restored chosen start
read_params-write_params_example =
    read_params-write_params address chosen start known chosen-IsCanonical refl

read_params-IsCanonical_example : IsCanonical known (read_params address start known)
read_params-IsCanonical_example = read_params-IsCanonical address start known refl
