-- ===== src/Cli/Upgrade/Runtime.antt =====
-- What update.ts asks of the running cell: status, critical, grants, pauseAndDrain, snapshot and
-- verifyRuntime.
use gatekeeper_os.Prelude.{
  ◌==◌, List, [], ◌∷◌, ◌++◌, none, some, Option, Bool, maybe, true, false, if◌then◌else◌, nat_eq, ℕ,
  zero, suc, ◌+◌, ◌*◌, ◌-◌, map, filter, is_some, not, ◌&&◌, ◌||◌, any, all, leb, sort,
}
use gatekeeper_os.Cli.Json.{
  Json, Text, text_eq, Fields, object, null, array, text, number, bool, no_fields, units, get_field,
}
use gatekeeper_os.Cli.Update.{UpdateJournal}
use gatekeeper_os.Cli.Policy.{is_text, items_of}
use gatekeeper_os.Cli.Policy.Catalog.{is_within, to_items}
use gatekeeper_os.Cli.Merge.Canonical.{units_leb}
use gatekeeper_os.Cli.Apply.Machine.{fields_of, trim}
use gatekeeper_os.Cli.Apply.Fragments.{ends_with}
use gatekeeper_os.Kernel.Commands.{value_from, max_safe}
use gatekeeper_os.Cli.Script.{
  ◌>>=◌, ◌>>◌, give, throw, require, from_option, threw, step_error, other_error,
}
use gatekeeper_os.Cli.Upgrade.Versions.{is_true}
use gatekeeper_os.Cli.Upgrade.Machine.{
  try_read, lockfile, Host, Platform, Steps, Program, show_pid, show_exec_start, security_audit,
  backup_create, os_status, grants_list, archive_file, made_directory, made_private, ran, waited,
  note, look, assign, command, do_command, change, kernel_rpc, set_maintenance, wait_ready,
  list_files,
}

abbrev pub is_number : ℕ → Option Json → Bool
is_number n (some (number t)) = maybe (value_from 0 t) false (λ k. k == n)
is_number n other = false

-- What an `if` makes of a value.
abbrev pub is_truthy : Option Json → Bool
is_truthy none = false
is_truthy (some null) = false
is_truthy (some (bool b)) = b
is_truthy (some (number n)) = not (n == units "0")
is_truthy (some (text s)) = not (s == [])
is_truthy (some other) = true

-- The properties of a value, where it has any; those of `null` are a TypeError.
abbrev pub properties : Json → Option Fields
properties null = none
properties (object fs) = some fs
properties other = some no_fields

abbrev pub text_at : Text → Fields → Option Text
text_at key fs = elim (get_field key fs) [ some (text t) ↦ some t | _ ↦ none ]

-- The checks of the critical findings; `none` is a throw.
abbrev pub critical_of : List Json → Option (List Text)
critical_of [] = some []
critical_of (f ∷ fs) =
    let rest = critical_of fs in
    maybe (properties f) none (λ finding.
      if is_text (units "critical") (get_field (units "severity") finding)
      then maybe (text_at (units "checkId") finding) none
          (λ id. maybe rest none (λ ids. some (id ∷ ids)))
      else rest)

abbrev is_healthy : Json → Bool
is_healthy (object g) = is_true (get_field (units "healthy") g)
is_healthy other = false

abbrev pub all_healthy : Option (List Json) → Bool
all_healthy none = false
all_healthy (some []) = false
all_healthy (some (g ∷ gs)) = all is_healthy (g ∷ gs)

abbrev pub holds_admission : Fields → Bool
holds_admission s =
    is_true (get_field (units "maintenance") s)
    && is_true (get_field (units "activeRunTrackingComplete") s)

abbrev pub is_drained : Fields → Bool
is_drained s =
    is_number 0 (get_field (units "activeRuns") s)
    && is_number 0 (get_field (units "activeEffects") s)

abbrev pub expected_version : Text → UpdateJournal → Text
expected_version binary j = if binary == j.candidate_binary then j.target else j.from

abbrev pub is_service_of : Text → Text → Text → Bool
is_service_of started binary root =
    is_within binary started || is_within (root ++ b'/' ∷ []) started

abbrev pub is_preserved : UpdateJournal → Fields → Bool
is_preserved j s =
    is_truthy (get_field (units "healthy") s)
    && is_number j.kernel_schema (get_field (units "kernelSchema") s)
    && is_true (get_field (units "maintenance") s)
    && all_healthy (items_of (get_field (units "gatekeepers") s))

abbrev pub same_digest : Option Text → Text → Bool
same_digest none t = false
same_digest (some s) t = s == t

abbrev pub is_known : Option (List Text) → Text → Bool
is_known none id = false
is_known (some ids) id = any (λ i. i == id) ids

module _ (p : Platform) (h : Host) where
  -- `readLockfile`
  abbrev pub read_lockfile : Steps (Option Fields)
  read_lockfile = try_read h lockfile >>= (λ t. give (fields_of (maybe t none p.parse)))

  -- `json`
  abbrev pub run_json : Program → Steps Json
  run_json c u =
      from_option (maybe (h.runs u.log c) none p.parse) (step_error "UPDATE_METADATA_UNAVAILABLE")
        (note (ran c (is_some (h.runs u.log c))) u)

  abbrev pub kernel_status : Text → Steps Fields
  kernel_status binary =
      kernel_rpc h os_status binary >>= (λ v. from_option (properties v) (other_error "TypeError"))

  unfoldable pub critical : Text → Steps (List Text)
  critical binary = do
    v ← run_json (security_audit binary)
    fs ← from_option (properties v) (other_error "TypeError")
    findings ←
        from_option (items_of (get_field (units "findings") fs))
          (step_error "Security audit is unavailable")
    ids ← from_option (critical_of findings) (step_error "Audit finding identity missing")
    give (sort units_leb ids)

  unfoldable pub grants : Text → Steps Text
  grants binary = do
    v ← kernel_rpc h grants_list binary
    values ← from_option (items_of (some v)) (step_error "Grant list unavailable")
    give (p.hash (array (to_items (sort units_leb (map p.stringify values)))))

  abbrev pub polled_status : Text → Steps Fields
  polled_status binary = do
    s ← kernel_status binary
    require (holds_admission s) "Maintenance admission barrier unavailable"
    give s

  abbrev drain_if : Bool → Steps (Unit {0}) → Steps (Unit {0})
  drain_if true again = give tt
  drain_if false again = again

  -- `setTimeout`, unless the minute is over
  abbrev wait_or_fail : ℕ → Steps (Unit {0}) → Steps (Unit {0})
  wait_or_fail waits again u =
      if leb 60000 (waits * 500 + h.lag u.log waits)
      then threw (step_error "Cell did not drain") u
      else again (note waited u)

  -- A hundred and twenty waits of half a second are a minute.
  unfoldable pub drain_from : (more : ℕ) → Text → Steps (Unit {0})
  drain_from zero binary =
      polled_status binary
      >>= (λ s. drain_if (is_drained s) (throw (step_error "Cell did not drain")))
  drain_from (suc n) binary =
      polled_status binary
      >>= (λ s. drain_if (is_drained s) (wait_or_fail (120 - suc n) (drain_from n binary)))

  unfoldable pub pause_and_drain : Text → Steps (Unit {0})
  unfolding drain_from
  pause_and_drain binary = set_maintenance h true binary >> drain_from 120 binary

  abbrev only : List Text → Option Text
  only (t ∷ []) = some t
  only other = none

  unfoldable pub snapshot : Steps (Unit {0})
  snapshot = do
    change h made_directory
    binary ← look (λ j. j.previous_binary)
    do_command h (backup_create binary)
    files ← list_files h
    archive ←
        from_option (only (filter (λ f. ends_with f (units ".tar.gz")) files))
          (step_error "One verified backup archive required")
    assign (λ j. record j { archive = some (p.in_backup archive) })
    change h (made_private archive_file)

  abbrev pub checking : Text → Steps (Unit {0})
  checking name = assign (λ j. record j { check = some name })

  abbrev pub is_pid : Text → Bool
  is_pid t = maybe (p.number_of (trim t)) false (λ n. leb 1 n && leb n max_safe)

  -- `!await a || !await b`
  abbrev pub both_ready : Steps Bool
  both_ready = wait_ready h >>= (λ started. if started then wait_ready h else give false)

  -- The process that the service runs is the binary's.
  unfoldable pub verify_service : Text → Steps (Unit {0})
  unfolding is_within
  verify_service binary = do
    checking (units "http-health")
    ready ← both_ready
    require ready "Gateway health verification failed"
    checking (units "service-process")
    pid ← command h show_pid
    require (is_pid pid) "Service process unavailable"
    real ← from_option (p.real_path binary) (other_error "realpathSync")
    started ← command h show_exec_start
    require (is_service_of started binary (p.parent real)) "Wrong runtime service selection"

  unfoldable pub verify_kernel : Text → Steps (Unit {0})
  unfolding grants critical
  verify_kernel binary = do
    checking (units "kernel-version")
    s ← kernel_status binary
    expected ← look (expected_version binary)
    require (is_text expected (get_field (units "upstreamVersion") s)) "Runtime version mismatch"
    checking (units "kernel-health-schema-maintenance-grants")
    preserved ← look (λ j. is_preserved j s)
    require preserved "Kernel or grant preservation verification failed"
    digest ← grants binary
    kept ← look (λ j. same_digest j.grants_digest digest)
    require kept "Kernel or grant preservation verification failed"
    checking (units "critical-audit")
    ids ← critical binary
    known ← look (λ j. all (is_known j.critical_ids) ids)
    require known "New critical security finding"

  unfoldable pub verify_runtime : Text → Steps (Unit {0})
  unfolding verify_service verify_kernel
  verify_runtime binary = verify_service binary >> verify_kernel binary
