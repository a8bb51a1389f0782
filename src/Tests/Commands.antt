-- ===== src/Tests/Commands.antt =====
-- Commands of operators on small inputs.
use gatekeeper_os.Kernel.Commands.Bounds.{operator_command_bounds, BoundedIds}
use gatekeeper_os.Prelude.{none, [], ◌∷◌, refl, ◌≡◌, Option}
use gatekeeper_os.Cli.Json.{Text, units}
use gatekeeper_os.Kernel.Commands.{
  is_repeated, split_commas, value_from, id_of, ids_of, parse_ids, tokens_from, is_operator_command,
  operator_command, refused, accepted, decide, given_ids, not_a_command, UrlParts,
}

abbrev no_url : Text → Option UrlParts
no_url t = none

apply_run :
    operator_command no_url (units "/approvals  apply 4,12 ")
    ≡ accepted (decide (units "apply") (given_ids (4 ∷ 12 ∷ [])))
unfolding operator_command is_operator_command tokens_from parse_ids ids_of id_of value_from
    split_commas is_repeated
apply_run = refl

repeated_run : operator_command no_url (units "/reject 4,4") ≡ refused
unfolding operator_command is_operator_command tokens_from parse_ids ids_of id_of value_from
    split_commas is_repeated
repeated_run = refl

other_text_run : operator_command no_url (units "/grantsx") ≡ not_a_command
unfolding operator_command is_operator_command
other_text_run = refl

operator_command_bounds_example : BoundedIds (4 ∷ 12 ∷ [])
operator_command_bounds_example =
    operator_command_bounds no_url (units "/approvals  apply 4,12 ") (units "apply") (4 ∷ 12 ∷ [])
      apply_run
