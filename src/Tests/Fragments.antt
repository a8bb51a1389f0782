-- ===== src/Tests/Fragments.antt =====
-- The parser of json5.ts on small inputs.

use gatekeeper_os.Cli.Json5.Fuel.{parse_json5_total}
use gatekeeper_os.Cli.Json5.Scan.{
  expected_colon, scan_number, span, string_from, parse_key, skip_from,
}
use gatekeeper_os.Cli.Json5.Grammar.{
  exhausted, error, value, position_of, parse_number, open_or_empty, close_or_go_on, expect_colon,
  dispatch, parse_value, parse_json5,
}
use gatekeeper_os.Cli.Json.{
  text, array, item, no_items, no_fields, bool, object, number, item, array, field, object,
  set_field, units, Text,
}
use gatekeeper_os.Prelude.{◌≢◌, true, refl, ◌≡◌, Option, some, [], ◌∷◌}

-- A number is accepted as it is written.
abbrev any_number : Text → Option Text
any_number t = some t

abbrev sample_text : Text
sample_text = units "{ a: [1, 'x\\n'], /* no */ \"b\": true, } // end"

parsed_run :
    parse_json5 any_number sample_text
    ≡ value (
        object (
          field
            (units "a")
            (array (item (number (units "1")) (item (text (120 ∷ 10 ∷ [])) no_items)))
            (field (units "b") (bool true) no_fields)))
unfolding parse_json5 parse_value skip_from parse_key string_from span scan_number dispatch
    expect_colon close_or_go_on open_or_empty parse_number set_field
parsed_run = refl

unclosed_run : parse_json5 any_number (units "{\n  a 1}") ≡ error expected_colon 2 5
unfolding parse_json5 parse_value skip_from parse_key string_from span scan_number dispatch
    expect_colon close_or_go_on open_or_empty parse_number position_of
unclosed_run = refl

parse_json5_total_example : parse_json5 any_number sample_text ≢ exhausted
parse_json5_total_example = parse_json5_total any_number sample_text
