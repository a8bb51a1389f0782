-- ===== src/Cli/Upgrade/Effects.antt =====
-- updateEffects of update.ts: what each step of an update does to the host and notes in the journal.
use gatekeeper_os.Prelude.{
  ◌==◌, none, some, Option, Bool, true, false, nat_eq, not, ◌&&◌, ◌||◌, any, all,
}
use gatekeeper_os.Cli.Json.{Json, Text, text_eq, Fields, text, units, get_field, number}
use gatekeeper_os.Cli.Policy.{is_text}
use gatekeeper_os.Cli.Update.{
  UpdateJournal, Effect, resolve, compatibility, backup, stage, conformance, maintenance, activate,
  verify, commit, rollback, cancel_maintenance, resume,
}
use gatekeeper_os.Cli.Policy.Catalog.{same_value}
use gatekeeper_os.Cli.Script.{◌>>=◌, ◌>>◌, require, from_option, step_error, other_error}
use gatekeeper_os.Cli.Upgrade.Versions.{exact_version, validate_update_verdict, quoted, is_true}
use gatekeeper_os.Cli.Upgrade.Compatibility.{plugin_compatibility}
use gatekeeper_os.Cli.Upgrade.Machine.{
  Host, Platform, Steps, configuration, staged_package, verdict, package_of, drop_in, lockfile,
  wrote, made_directory, scratch_config, npm_install, run_conformance, gateway_stop,
  validate_config, daemon_reload, start_unit, look, assign, do_command, read_file, change, save,
  set_maintenance,
}
use gatekeeper_os.Cli.Upgrade.Runtime.{
  read_lockfile, read_lockfile, is_number, is_truthy, properties, kernel_status, critical, grants,
  pause_and_drain, snapshot, verify_runtime,
}
use gatekeeper_os.Cli.Upgrade.Restore.{read_json, archived_version, restore_runtime}

-- `Number.isInteger`, of a number printed in digits
abbrev is_integer : Option Json → Bool
is_integer (some (number n)) = not (any (λ c. c == b'.' || c == b'e') n)
is_integer other = false

abbrev same_schema : Option Json → Option Json → Bool
same_schema none none = true
same_schema (some v) (some w) = same_value v w
same_schema _ _ = false

-- The kernel can be drained and has the schema of the lockfile.
abbrev pub is_drainable : Fields → Fields → Bool
is_drainable lock s =
    is_truthy (get_field (units "healthy") s)
    && same_schema (get_field (units "kernelSchema") s) (get_field (units "kernelSchema") lock)
    && is_true (get_field (units "activeRunTrackingComplete") s)
    && is_integer (get_field (units "activeRuns") s)

module _ (p : Platform) (h : Host) (to_number : Text → Option Text) (node : Text)
    (lock : Fields) where
  unfoldable pub check_compatibility : Steps (Unit {0})
  unfolding plugin_compatibility critical
  check_compatibility = do
    target ← look (λ j. j.target)
    verdicts ← plugin_compatibility p h to_number lock target
    require (all (λ v. v.is_compatible) verdicts) "Plugin incompatible"
    binary ← look (λ j. j.previous_binary)
    s ← kernel_status p h binary
    require (is_drainable lock s) "Kernel update/drain protocol unavailable"
    ids ← critical p h binary
    assign (λ j. record j { critical_ids = some ids })

  unfoldable pub stage_release : Steps (Unit {0})
  stage_release = do
    change h made_directory
    change h made_directory
    change h (wrote scratch_config)
    do_command h npm_install
    metadata ← read_json p h staged_package
    fs ← from_option (properties metadata) (other_error "TypeError")
    matching ← look (λ j. is_text j.target (get_field (units "version") fs))
    require matching "Staged version mismatch"

  unfoldable pub run_full_conformance : Steps (Unit {0})
  unfolding validate_update_verdict
  run_full_conformance = do
    change h made_directory
    change h (wrote scratch_config)
    do_command h run_conformance
    result ← read_json p h verdict
    valid ← look (λ j. validate_update_verdict result j.id j.target)
    require valid "Full live conformance required"

  unfoldable pub enter_maintenance : Steps (Unit {0})
  unfolding pause_and_drain grants snapshot
  enter_maintenance = do
    binary ← look (λ j. j.previous_binary)
    pause_and_drain p h binary
    digest ← grants p h binary
    assign (λ j. record j { grants_digest = some digest })
    current ← read_file h configuration
    assign (λ j. record j { config_digest = some (p.hash (text current)) })
    metadata ← read_json p h (package_of (p.parent binary))
    fs ← from_option (properties metadata) (other_error "TypeError")
    pinned ← look (λ j. is_text j.from (get_field (units "version") fs))
    require pinned "Running installation disagrees with pin"
    snapshot p h
    save h
    do_command h (gateway_stop binary)

  unfoldable pub activate_candidate : Steps (Unit {0})
  unfolding quoted
  activate_candidate = do
    change h made_directory
    candidate ← look (λ j. j.candidate_binary)
    _ ← from_option (quoted node) (step_error "Invalid runtime path")
    _ ← from_option (quoted candidate) (step_error "Invalid runtime path")
    change h (wrote drop_in)
    do_command h daemon_reload
    do_command h (validate_config candidate)
    do_command h start_unit

  abbrev pub is_pinned : UpdateJournal → Option Fields → Bool
  is_pinned j none = false
  is_pinned j (some current) =
      is_number j.kernel_schema (get_field (units "kernelSchema") current)
      && is_text j.from (archived_version current)

  unfoldable pub commit_pin : Steps (Unit {0})
  commit_pin = do
    current ← read_lockfile p h
    pinned ← look (λ j. is_pinned j current)
    require pinned "Pin changed during update"
    change h (wrote lockfile)

  abbrev pub maintain : Bool → (UpdateJournal → Text) → Steps (Unit {0})
  maintain b binary_of = look binary_of >>= (λ binary. set_maintenance h b binary)

  unfoldable pub run_effect : Effect → Steps (Unit {0})
  unfolding check_compatibility stage_release run_full_conformance enter_maintenance
      activate_candidate commit_pin snapshot verify_runtime restore_runtime exact_version
  run_effect resolve =
      look (λ j. exact_version j.target) >>= (λ exact. require exact "Invalid target")
  run_effect compatibility = check_compatibility
  run_effect backup = snapshot p h
  run_effect stage = stage_release
  run_effect conformance = run_full_conformance
  run_effect maintenance = enter_maintenance
  run_effect activate = activate_candidate
  run_effect verify = look (λ j. j.candidate_binary) >>= (λ binary. verify_runtime p h binary)
  run_effect commit = commit_pin
  run_effect rollback = restore_runtime p h
  run_effect cancel_maintenance = maintain false (λ j. j.previous_binary)
  run_effect resume = maintain false (λ j. j.candidate_binary)
