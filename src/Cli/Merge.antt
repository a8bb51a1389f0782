-- ===== src/Cli/Merge.antt =====
-- packages/gkos-cli/src/util/merge.ts: mergeConfig and mergeAll on parsed JSON. Values are not shared,
-- so a clone is the value.
pub mod Laws
pub mod Diff
pub mod Canonical
pub mod Alike
use gatekeeper_os.Prelude.{◌==◌, Option, if◌then◌else◌, List, [], ◌∷◌, none, some}
use gatekeeper_os.Cli.Json.{
  set_field, get_field, null, bool, number, text, array, object, no_fields, field, Json, Fields,
  Text, text_eq,
}

-- `delete out[key]`
unfoldable pub delete_field : Text → Fields → Fields
delete_field key no_fields = no_fields
delete_field key (field k v rest) =
    let later = delete_field key rest in if k == key then later else field k v later

-- One key of the patch: `null` deletes, anything else is assigned as it was merged.
abbrev pub put_field : Text → Json → Json → Fields → Fields
put_field key null merged out = delete_field key out
put_field key (bool b) merged out = set_field key merged out
put_field key (number n) merged out = set_field key merged out
put_field key (text s) merged out = set_field key merged out
put_field key (array xs) merged out = set_field key merged out
put_field key (object fs) merged out = set_field key merged out

-- Neither `undefined` nor `null` is an object.
abbrev pub or_null : Option Json → Json
or_null none = null
or_null (some old) = old

unfoldable mutual
  pub merge_config : Json → Json → Json
  merge_config (object base) (object patch) = object (merge_fields base patch)
  merge_config base patch = patch

  pub merge_fields : Fields → Fields → Fields
  merge_fields out no_fields = out
  merge_fields out (field key value rest) =
      merge_fields (put_field key value (merge_config (or_null (get_field key out)) value) out) rest

unfoldable pub merge_from : Json → List Json → Json
merge_from acc [] = acc
merge_from acc (fragment ∷ rest) = merge_from (merge_config acc fragment) rest

unfoldable pub merge_all : List Json → Json
unfolding merge_from
merge_all fragments = merge_from (object no_fields) fragments
