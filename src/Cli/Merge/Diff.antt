-- ===== src/Cli/Merge/Diff.antt =====
-- diffPaths, markAll and getPath of merge.ts. JSON.stringify and the order of localeCompare are
-- parameters.
use gatekeeper_os.Prelude.{
  ◌==◌, List, [], ◌∷◌, ◌++◌, none, some, Option, Bool, maybe, sort, true, false, ℕ, if◌then◌else◌,
  is_some, nat_eq,
}
use gatekeeper_os.Cli.Json.{
  get_field, null, bool, number, text, array, object, no_fields, field, Json, Fields, Text, text_eq,
  units,
}

pub data ChangeKind : Type 0 where
  added removed changed : ChangeKind

pub record ConfigChange : Type 0 where
  pub path : Text
  pub kind : ChangeKind

abbrev pub leaf_change : Text → ChangeKind → List ConfigChange
leaf_change path kind = record { path = path; kind = kind } ∷ []

abbrev is_empty_object : Fields → Bool
is_empty_object no_fields = true
is_empty_object (field k v rest) = false

-- `prefix ? `${prefix}.${key}` : key`
abbrev pub below : Text → Text → Text
below [] key = key
below (c ∷ prefix) key = (c ∷ prefix) ++ b'.' ∷ key

unfoldable mutual
  pub mark_all : Json → Text → ChangeKind → List ConfigChange
  mark_all (object fs) prefix kind =
      let leaves = mark_fields fs prefix kind in
      if is_empty_object fs then leaf_change prefix kind else leaves
  mark_all null prefix kind = leaf_change prefix kind
  mark_all (bool b) prefix kind = leaf_change prefix kind
  mark_all (number n) prefix kind = leaf_change prefix kind
  mark_all (text s) prefix kind = leaf_change prefix kind
  mark_all (array xs) prefix kind = leaf_change prefix kind

  pub mark_fields : Fields → Text → ChangeKind → List ConfigChange
  mark_fields no_fields prefix kind = []
  mark_fields (field key v rest) prefix kind =
      mark_all v (prefix ++ b'.' ∷ key) kind ++ mark_fields rest prefix kind

module _ (stringify : Json → Text) (locale_leb : Text → Text → Bool) where
  abbrev root_name : Text → Text
  root_name [] = units "(root)"
  root_name (c ∷ prefix) = c ∷ prefix

  abbrev pub diff_values : Text → Json → Json → List ConfigChange
  diff_values prefix before after =
      if stringify before == stringify after then [] else leaf_change (root_name prefix) changed

  -- The keys that only the later object has, behind the keys of the earlier one.
  unfoldable pub added_fields : Text → Fields → Fields → List ConfigChange
  unfolding mark_all
  added_fields prefix before no_fields = []
  added_fields prefix before (field key v rest) =
      let later = added_fields prefix before rest in
      if is_some (get_field key before) then later else mark_all v (below prefix key) added ++ later

  unfoldable mutual
    pub diff_paths : Json → Json → Text → List ConfigChange
    diff_paths (object before) (object after) prefix =
        sort (λ a b. locale_leb a.path b.path)
          (diff_fields before after prefix ++ added_fields prefix before after)
    diff_paths before after prefix = diff_values prefix before after

    pub diff_fields : Fields → Fields → Text → List ConfigChange
    diff_fields no_fields after prefix = []
    diff_fields (field key v rest) after prefix =
        elim (get_field key after) [
          | none ↦ mark_all v (below prefix key) removed
          | some w ↦ diff_paths v w (below prefix key)
        ]
        ++ diff_fields rest after prefix

-- `split(".")`
abbrev segment_longer : ℕ → List Text → List Text
segment_longer c [] = (c ∷ []) ∷ []
segment_longer c (w ∷ ws) = (c ∷ w) ∷ ws

unfoldable pub split_dots : Text → List Text
split_dots [] = [] ∷ []
split_dots (c ∷ t) =
    let parts = split_dots t in if c == b'.' then [] ∷ parts else segment_longer c parts

unfoldable pub get_segments : Json → List Text → Option Json
get_segments cursor [] = some cursor
get_segments (object fs) (segment ∷ rest) =
    maybe (get_field segment fs) none (λ v. get_segments v rest)
get_segments cursor (segment ∷ rest) = none

unfoldable pub get_path : Json → Text → Option Json
get_path root path = get_segments root (split_dots path)
