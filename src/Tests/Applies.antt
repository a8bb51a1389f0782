-- ===== src/Tests/Applies.antt =====
-- reconcile of config-apply.ts and canonicalize of merge.ts on small inputs.
use gatekeeper_os.Cli.Json5.Grammar.{parse_value, dispatch, open_or_empty}
use gatekeeper_os.Cli.Json5.Scan.{skip_from}
use gatekeeper_os.Cli.Merge.{merge_config}
use gatekeeper_os.Cli.Merge.Diff.{get_segments, split_dots, added_fields}
use gatekeeper_os.Cli.Json.{get_field}
use gatekeeper_os.Prelude.{
  sort, none, some, true, false, [], ◌∷◌, ◌++◌, ◌≡◌, refl, Bool, any, nat_eq,
}
use gatekeeper_os.Cli.Json.{
  Json, Fields, Text, text_eq, units, object, field, no_fields, text, array, no_items, null, bool,
}
use gatekeeper_os.Cli.Merge.Canonical.{shown_at, canonical, canonicalize}
use gatekeeper_os.Cli.Merge.Alike.{objects, exchanged, canonicalize-Alike}
use gatekeeper_os.Cli.Script.{left_by}
use gatekeeper_os.Cli.Apply.Found.{Options}
use gatekeeper_os.Cli.Apply.Sound.{is_sound}
use gatekeeper_os.Cli.Apply.Reconcile.{reconcile}
use gatekeeper_os.Cli.Apply.Recorded.{is_sound-reconcile}
use gatekeeper_os.Cli.Apply.Machine.{Host, Platform, Place, fragment_dir, Event, ran, transaction}

abbrev in_quotes : Text → Text
in_quotes t = b'"' ∷ t ++ b'"' ∷ []

abbrev one_and_two : Fields
one_and_two = field (units "a") null (field (units "b") (bool true) no_fields)

abbrev two_and_one : Fields
two_and_one = field (units "b") (bool true) (field (units "a") null no_fields)

canonicalize-Alike_example :
    canonicalize in_quotes (some (object one_and_two))
    ≡ canonicalize in_quotes (some (object two_and_one))
canonicalize-Alike_example =
    canonicalize-Alike in_quotes (object one_and_two) (object two_and_one) (
      objects one_and_two two_and_one
        (exchanged (units "a") (units "b") null (bool true) no_fields refl))

canonical_run : canonicalize in_quotes (some (object two_and_one)) ≡ units "{\"a\":null,\"b\":true}"
unfolding canonicalize canonical shown_at sort
canonical_run = refl

-- A digest of sixty-four letters.
abbrev a_digest : Text
a_digest = units "aaaaaaaaaaaaaaaaaaaaaaaaaaaaaaaaaaaaaaaaaaaaaaaaaaaaaaaaaaaaaaaa"

-- Every file and every answer of a program is this object.
abbrev any_answer : Json
any_answer = object (
    field (units "persistedHash") (text a_digest) (
      field (units "findings") (array no_items)
        (field (units "state") (text (units "committed")) no_fields)))

abbrev small_platform : Platform
small_platform = record {
  sha256 = λ t. a_digest;
  parse = λ t. some any_answer;
  stringify = λ v. units "{}";
  print = λ v. units "{}";
  quote = in_quotes;
  locale_leb = λ s t. true;
  to_text = λ v. units "committed";
  to_number = λ t. some t;
  manifest_of = λ t. none;
}

abbrev is_fragment_dir : Place → Bool
is_fragment_dir fragment_dir = true
is_fragment_dir other = false

abbrev working_host : Host
working_host = record {
  exists = λ log f. is_fragment_dir f;
  reads = λ log f. some (units "{}");
  writes = λ log f. true;
  runs = λ log c. record { code = 0; stdout = [] };
  lists = λ log. some (units "10-base.json5" ∷ []);
  stages = λ log. true;
}

abbrev plain_options : Options
plain_options = record { force = false; dry_run = false; skip_restart = true }

abbrev is_commit : Event → Bool
is_commit (ran (transaction binary revision) result) = true
is_commit other = false

is_sound-reconcile_example :
    is_sound small_platform working_host plain_options
      (left_by (reconcile small_platform working_host plain_options []))
    ≡ true
is_sound-reconcile_example = is_sound-reconcile small_platform working_host plain_options

-- The patch is committed in this run.
committing_run :
    any is_commit (left_by (reconcile small_platform working_host plain_options [])) ≡ true
unfolding reconcile sort parse_value skip_from dispatch open_or_empty merge_config get_segments
    split_dots get_field added_fields
committing_run = refl
