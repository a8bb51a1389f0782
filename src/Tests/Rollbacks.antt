-- ===== src/Tests/Rollbacks.antt =====
-- rollback, the versions and the options of update.ts, and the policies of policy.ts on small inputs.
use gatekeeper_os.Cli.Policy.{policy_fragments, runtime}
use gatekeeper_os.Cli.Upgrade.Options.{accepts_options, accepts_from, safe_failure}
use gatekeeper_os.Cli.Script.{step_error, other_error}
use gatekeeper_os.Prelude.{[], ◌∷◌, some, true, false, [], ◌≡◌, refl}
use gatekeeper_os.Cli.Json.{units, object, no_fields}
use gatekeeper_os.Cli.Upgrade.Rollback.{try_rollback}
use gatekeeper_os.Cli.Upgrade.Outcome.{EndsWell, try_rollback-EndsWell}
use gatekeeper_os.Cli.Upgrade.Versions.{parts_of, forward_version, quoted, exact_version}
use gatekeeper_os.Cli.Upgrade.Machine.{Host, Platform, Upgrade}
use gatekeeper_os.Tests.Updates.{sample_journal}

abbrev small_platform : Platform
small_platform = record {
  parse = λ t. some (object no_fields);
  hash = λ v. [];
  stringify = λ v. [];
  real_path = λ t. some t;
  parent = λ t. t;
  is_absolute = λ t. true;
  number_of = λ t. some 1;
  in_backup = λ t. t;
  resolve_in = λ t. t;
  extracted = [];
  state_dir = [];
}

abbrev working_host : Host
working_host = record {
  runs = λ log c. some [];
  reads = λ log f. some [];
  exists = λ log f. true;
  calls = λ log r binary. some (object no_fields);
  changes = λ log c. true;
  saves = λ log. true;
  is_ready = λ log. true;
  lists = λ log. [];
  lag = λ log n. 0;
}

abbrev stopped_upgrade : Upgrade
stopped_upgrade = record { journal = record sample_journal { step = 6 }; log = [] }

try_rollback-EndsWell_example :
    EndsWell stopped_upgrade.journal (try_rollback small_platform working_host stopped_upgrade)
try_rollback-EndsWell_example = try_rollback-EndsWell small_platform working_host stopped_upgrade

forward_run : forward_version (units "2026.9.2") (units "2026.10.0") ≡ true
unfolding forward_version parts_of
forward_run = refl

downgrade_run : forward_version (units "2026.10.0") (units "2026.9.2") ≡ false
unfolding forward_version parts_of
downgrade_run = refl

version_run : exact_version (units "2026.9.2-beta.1") ≡ true
unfolding exact_version
version_run = refl

-- A dollar is left as it is.
dollar_run : quoted (units "/a$b") ≡ some (units "\"/a$b\"")
unfolding quoted
dollar_run = refl

options_run : accepts_options (units "--to" ∷ units "2026.9.2" ∷ units "--check" ∷ []) ≡ true
unfolding accepts_from
options_run = refl

repeated_run : accepts_options (units "--check" ∷ units "--check" ∷ []) ≡ false
unfolding accepts_from
repeated_run = refl

failure_run :
    safe_failure (other_error "UPDATE_STEP_7_ROLLED_BACK") ≡ step_error "UPDATE_STEP_7_ROLLED_BACK"
unfolding safe_failure
failure_run = refl

policy_run :
    policy_fragments (units "10-base.json5" ∷ units "20-sandbox.json5" ∷ []) runtime
    ≡ units "10-base.json5" ∷ []
unfolding policy_fragments
policy_run = refl
