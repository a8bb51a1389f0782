-- ===== src/Cli/Upgrade/Command.antt =====
-- updateCommand of update.ts up to the start of the update, and readUpdate of
-- util/update-transaction.ts. The loop over the steps is the module Cli.Update.
use gatekeeper_os.Prelude.{
  ◌==◌, List, [], ◌∷◌, none, some, Option, Bool, maybe, true, false, if◌then◌else◌, nat_eq, ℕ,
  is_some, not, ◌&&◌, ◌||◌, all, leb, length,
}
use gatekeeper_os.Cli.Json.{Json, Text, text_eq, Fields, text, units, get_field, number}
use gatekeeper_os.Cli.Json5.Scan.{is_digit}
use gatekeeper_os.Kernel.Commands.{value_from}
use gatekeeper_os.Cli.Policy.{items_of}
use gatekeeper_os.Cli.Update.{UpdateJournal, preparing}
use gatekeeper_os.Cli.Script.{◌>>=◌, ◌>>◌, give, require, from_option, step_error, other_error}
use gatekeeper_os.Cli.Upgrade.Versions.{exact_version, forward_version}
use gatekeeper_os.Cli.Upgrade.Options.{accepts_from, accepts_options, option_value, one_of}
use gatekeeper_os.Cli.Upgrade.Compatibility.{
  PluginVerdict, exact_target, plugin_compatibility, current_binary,
}
use gatekeeper_os.Cli.Upgrade.Machine.{
  Host, Platform, Steps, journal_file, drop_in, process_guard, wrote, made_directory, read_file,
  exists, change, print,
}
use gatekeeper_os.Cli.Upgrade.Runtime.{read_lockfile, read_lockfile, is_number, properties, text_at}
use gatekeeper_os.Cli.Upgrade.Restore.{archived_version}

abbrev is_id_unit : ℕ → Bool
is_id_unit c = is_digit c || (leb b'a' c && leb c b'f')

abbrev is_update_id : Text → Bool
is_update_id t = length t == 32 && all is_id_unit t

abbrev holds_text : (Text → Bool) → Option Text → Bool
holds_text test none = false
holds_text test (some t) = test t

abbrev states : List Text
states =
    units "preparing"
    ∷ units "staged"
    ∷ units "maintenance"
    ∷ units "activating"
    ∷ units "verifying"
    ∷ units "committed"
    ∷ units "rolling-back"
    ∷ units "rolled-back"
    ∷ units "blocked"
    ∷ units "recovery-required"
    ∷ []

abbrev pub ended_states : List Text
ended_states = units "committed" ∷ units "rolled-back" ∷ units "blocked" ∷ []

-- A step from one to nine.
abbrev is_step : Option Json → Bool
is_step (some (number n)) = maybe (value_from 0 n) false (λ k. leb 1 k && leb k 9)
is_step other = false

unfoldable pub is_valid_journal : Fields → Bool
unfolding exact_version value_from
is_valid_journal j =
    is_number 1 (get_field (units "format") j)
    && holds_text is_update_id (text_at (units "id") j)
    && holds_text exact_version (text_at (units "from") j)
    && holds_text exact_version (text_at (units "target") j)
    && is_step (get_field (units "step") j)
    && is_number 1 (get_field (units "kernelSchema") j)
    && is_some (items_of (get_field (units "completed") j))
    && holds_text (one_of states) (text_at (units "state") j)

abbrev valid_journal : Fields → Option Fields
valid_journal j = if is_valid_journal j then some j else none

-- What the run is given: the options of the command line, and what is drawn at random or read off
-- the clock.
pub record Run : Type 0 where
  pub cell : Text
  pub args : List Text
  pub yes : Bool
  pub is_linux : Bool
  pub script_exists : Text → Bool
  pub id : Text
  pub started_at : Text
  pub candidate_binary : Text

-- A report with the exit code, or the journal that the update starts with.
pub data Prepared : Type 0 where
  reported : (is_compatible : Bool) → List PluginVerdict → Prepared
  started : UpdateJournal → Prepared

abbrev pub all_compatible : List PluginVerdict → Bool
all_compatible vs = all (λ v. v.is_compatible) vs

abbrev pub schema_of : Fields → Option ℕ
schema_of lock = elim (get_field (units "kernelSchema") lock) [
  | some (number n) ↦ value_from 0 n
  | _ ↦ none
]

abbrev pub version_of : Fields → Option Text
version_of lock = elim (archived_version lock) [ some (text t) ↦ some t | _ ↦ none ]

module _ (p : Platform) (h : Host) where
  unfoldable pub read_update : Steps Fields
  unfolding is_valid_journal
  read_update = do
    t ← read_file h journal_file
    v ← from_option (p.parse t) (other_error "UPDATE_JOURNAL_INVALID")
    j ← from_option (properties v) (other_error "TypeError")
    from_option (valid_journal j) (other_error "UPDATE_JOURNAL_INVALID")

  abbrev check_earlier : Bool → Steps (Unit {0})
  check_earlier false = give tt
  check_earlier true = do
    j ← read_update
    require (holds_text (one_of ended_states) (text_at (units "state") j))
        "Unfinished update; run gkos rollback --yes"

  abbrev drop_in_if : Bool → Steps (Option Text)
  drop_in_if true = read_file h drop_in >>= (λ t. give (some t))
  drop_in_if false = give none

  abbrev pub first_journal : Run → (from target : Text) → ℕ → Text → Option Text → UpdateJournal
  first_journal r from target schema previous content = record {
    id = r.id;
    cell = r.cell;
    from = from;
    target = target;
    kernel_schema = schema;
    state = preparing;
    step = 1;
    completed = [];
    started_at = r.started_at;
    previous_binary = previous;
    candidate_binary = r.candidate_binary;
    archive = none;
    previous_drop_in = content;
    grants_digest = none;
    config_digest = none;
    critical_ids = none;
    failed_step = none;
    check = none;
    failed_check = none;
  }

  -- The script is an absolute path of a file.
  abbrev pub is_runner : Run → Option Text → Bool
  is_runner r none = false
  is_runner r (some []) = false
  is_runner r (some (c ∷ t)) = p.is_absolute (c ∷ t) && r.script_exists (c ∷ t)

  -- The journal, once the refusals are passed, and the guard of the process.
  unfoldable pub start_update : Run → Fields → (from target : Text) → Steps Prepared
  unfolding read_update current_binary
  start_update r lock from target = do
    change h made_directory
    there ← exists h journal_file
    check_earlier there
    schema ← from_option (schema_of lock) (other_error "TypeError")
    previous ← current_binary p h
    dropped ← exists h drop_in
    content ← drop_in_if dropped
    guarded ← exists h process_guard
    require (not guarded) "Update process guard present; recover the interrupted run first"
    change h (wrote process_guard)
    give (started (first_journal r from target schema previous content))

  unfoldable pub activate_update :
      Run → Fields → (from target : Text) → List PluginVerdict → Steps Prepared
  unfolding start_update forward_version option_value
  activate_update r lock from target verdicts = do
    require r.yes "Update interrupts the selected cell; use --yes"
    require r.is_linux "Update currently requires systemd Linux"
    require (all_compatible verdicts) "Target is outside an installed plugin range"
    require (forward_version from target)
        "Downgrades require the verified rollback archive, not update"
    require (is_runner r (option_value r.args (units "--conformance")))
        "A reviewed full live-conformance runner is required"
    start_update r lock from target

  abbrev pub is_check : List Text → Bool
  is_check args = one_of args (units "--check") || one_of args (units "--dry-run")

  abbrev pub report_or_activate :
      Run → Fields → (from target : Text) → List PluginVerdict → Steps Prepared
  report_or_activate r lock from target verdicts =
      if is_check r.args
      then (print h >> give (reported (all_compatible verdicts) verdicts))
      else activate_update r lock from target verdicts

  unfoldable pub prepare_update : (to_number : Text → Option Text) → Run → Steps Prepared
  unfolding accepts_from exact_target plugin_compatibility activate_update
  prepare_update to_number r = do
    require (accepts_options r.args) "Unknown or duplicate update option"
    found ← read_lockfile p h
    lock ← from_option found (step_error "Installed cell lockfile required")
    target ← exact_target p h r.args
    verdicts ← plugin_compatibility p h to_number lock target
    from ← from_option (version_of lock) (other_error "TypeError")
    report_or_activate r lock from target verdicts
