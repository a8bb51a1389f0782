-- ===== src/Tests/Configs.antt =====
-- mergeConfig and mergeAll of merge.ts on small inputs.
use gatekeeper_os.Cli.Merge.{delete_field, merge_fields, merge_config, merge_all}
use gatekeeper_os.Cli.Merge.Laws.{
  get-merge_fields, last_fragment_wins, patched, DistinctKeys, get_key,
}
use gatekeeper_os.Cli.Json.{
  set_field, get_field, null, bool, number, text, object, no_fields, field, Fields, units,
}
use gatekeeper_os.Prelude.{some, refl, ◌≡◌, true, false, [], ◌∷◌}

abbrev base_fields : Fields
base_fields =
    field (units "gateway")
      (object (
        field (units "port") (number (units "1"))
          (field (units "host") (text (units "a")) no_fields)))
      (field (units "debug") (bool true) no_fields)

abbrev patch_fields : Fields
patch_fields =
    field (units "gateway") (object (field (units "port") (number (units "2")) no_fields))
      (field (units "debug") null no_fields)

merged_run :
    merge_config (object base_fields) (object patch_fields)
    ≡ object (
        field
          (units "gateway")
          (object (
            field
              (units "port")
              (number (units "2"))
              (field (units "host") (text (units "a")) no_fields)))
          no_fields)
unfolding merge_config merge_fields get_field set_field delete_field
merged_run = refl

patch_fields-DistinctKeys : DistinctKeys patch_fields
unfolding get_field
patch_fields-DistinctKeys = (refl, (refl, tt))

get-merge_fields_example :
    get_field (units "gateway") (merge_fields base_fields patch_fields)
    ≡ patched (get_field (units "gateway") patch_fields) (get_field (units "gateway") base_fields)
get-merge_fields_example =
    get-merge_fields (units "gateway") patch_fields base_fields patch_fields-DistinctKeys

abbrev local_fields : Fields
local_fields = field (units "debug") (bool false) no_fields

local_fields-DistinctKeys : DistinctKeys local_fields
unfolding get_field
local_fields-DistinctKeys = (refl, tt)

local_debug : get_field (units "debug") local_fields ≡ some (bool false)
unfolding get_field
local_debug = refl

last_fragment_wins_example :
    get_key
      (units "debug")
      (merge_all (object base_fields ∷ object patch_fields ∷ object local_fields ∷ []))
    ≡ some (bool false)
last_fragment_wins_example =
    last_fragment_wins (object base_fields ∷ object patch_fields ∷ []) (units "debug") local_fields
      (bool false) local_fields-DistinctKeys local_debug tt
