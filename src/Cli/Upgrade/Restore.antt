-- ===== src/Cli/Upgrade/Restore.antt =====
-- restoreRuntime of update.ts.
use gatekeeper_os.Prelude.{
  List, [], ◌∷◌, ◌++◌, none, some, Option, Bool, maybe, true, false, nat_eq, is_some, not, ◌&&◌,
  find?,
}
use gatekeeper_os.Cli.Json.{Json, Text, text_eq, Fields, object, text, units, get_field}
use gatekeeper_os.Cli.Json5.Scan.{strip}
use gatekeeper_os.Cli.Policy.{is_text, items_of}
use gatekeeper_os.Cli.Script.{
  ◌>>=◌, ◌>>◌, give, throw, require, from_option, step_error, other_error,
}
use gatekeeper_os.Cli.Upgrade.Machine.{
  Host, Platform, Steps, HostFile, configuration, manifest_in, archived_lock, scratch_config,
  state_directory, os_directory, restored_files, drop_in, wrote, removed, made_private,
  set_state_aside, restored_state, made_directory, stop_unit, start_unit, daemon_reload,
  backup_verify, backup_restore, look, do_command, read_file, exists, change, set_maintenance,
  list_files,
}
use gatekeeper_os.Cli.Upgrade.Runtime.{
  read_lockfile, is_number, properties, text_at, verify_runtime, same_digest,
}

abbrev pub lock_schema : Option Fields → Option Json
lock_schema lock = maybe lock none (get_field (units "kernelSchema"))

abbrev pub is_nonempty : Option Text → Bool
is_nonempty none = false
is_nonempty (some []) = false
is_nonempty (some (c ∷ t)) = true

abbrev pub the_text : Option Text → Text
the_text none = []
the_text (some t) = t

-- The state asset of a manifest.
abbrev pub is_state_asset : Text → Json → Bool
is_state_asset dir (object a) =
    is_text (units "state") (get_field (units "kind") a)
    && is_text dir (get_field (units "sourcePath") a)
is_state_asset dir other = false

abbrev pub asset_path : Json → Option Text
asset_path (object a) = text_at (units "archivePath") a
asset_path other = none

abbrev pub archived_version : Fields → Option Json
archived_version lock = elim (get_field (units "upstream") lock) [
  | some (object upstream) ↦ get_field (units "version") upstream
  | _ ↦ none
]

module _ (p : Platform) (h : Host) where
  abbrev pub read_json : HostFile → Steps Json
  read_json f = read_file h f >>= (λ t. from_option (p.parse t) (other_error "SyntaxError"))

  -- The first directory of the archive that has a manifest.
  abbrev pub root_if : Text → Bool → Steps Text → Steps Text
  root_if name true later = give name
  root_if name false later = later

  unfoldable pub find_root : List Text → Steps Text
  find_root [] = throw (step_error "Restore manifest unavailable")
  find_root (name ∷ names) =
      exists h (manifest_in name) >>= (λ there. root_if name there (find_root names))

  -- Nothing is stopped or restored unless the archive, the schema and the configuration fit.
  unfoldable pub check_restorable : Steps (Unit {0})
  check_restorable = do
    archived ← look (λ j. is_nonempty j.archive)
    require archived "Schema-neutral rollback unavailable"
    lock ← read_lockfile p h
    same_schema ← look (λ j. is_number j.kernel_schema (lock_schema lock))
    require same_schema "Schema-neutral rollback unavailable"
    current ← read_file h configuration
    same_config ← look (λ j. same_digest j.config_digest (p.hash (text current)))
    require same_config "Configuration changed; refusing to overwrite newer operator edits"

  abbrev pub find_asset : Json → Steps Text
  find_asset manifest = do
    fs ← from_option (properties manifest) (other_error "TypeError")
    asset ←
        from_option
          (maybe (items_of (get_field (units "assets") fs)) none
            (find? (is_state_asset p.state_dir)))
          (step_error "Restore state identity mismatch")
    path ← from_option (asset_path asset) (other_error "TypeError")
    require (not (p.is_absolute path)) "Restore state identity mismatch"
    give (p.resolve_in path)

  -- The verified archive is unpacked beside the state, and its state is found in it.
  unfoldable pub extract_state : Steps (Unit {0})
  unfolding find_root
  extract_state = do
    change h made_directory
    change h made_directory
    change h (wrote scratch_config)
    binary ← look (λ j. j.previous_binary)
    archive ← look (λ j. the_text j.archive)
    do_command h (backup_verify binary archive)
    do_command h (backup_restore binary archive)
    names ← list_files h
    root ← find_root names
    manifest ← read_json (manifest_in root)
    state ← find_asset manifest
    require (is_some (strip (p.extracted ++ b'/' ∷ []) state)) "Restore state unavailable"
    there ← exists h restored_files
    require there "Restore state unavailable"

  unfoldable pub check_archived_lock : Steps (Unit {0})
  check_archived_lock = do
    lock ← read_json archived_lock
    fs ← from_option (properties lock) (other_error "TypeError")
    fits ← look (λ j.
        is_number j.kernel_schema (get_field (units "kernelSchema") fs)
        && is_text j.from (archived_version fs))
    require fits "Archived pin/schema mismatch"

  unfoldable pub swap_state : Steps (Unit {0})
  swap_state = do
    change h set_state_aside
    change h restored_state
    change h (made_private state_directory)
    change h (made_private os_directory)
    change h (made_private configuration)

  abbrev remove_if : HostFile → Bool → Steps (Unit {0})
  remove_if f true = change h (removed f)
  remove_if f false = give tt

  abbrev pub restore_drop_in : Option Text → Steps (Unit {0})
  restore_drop_in none = exists h drop_in >>= remove_if drop_in
  restore_drop_in (some content) = change h (wrote drop_in)

  unfoldable pub restore_runtime : Steps (Unit {0})
  unfolding check_restorable extract_state check_archived_lock swap_state verify_runtime
  restore_runtime = do
    check_restorable
    do_command h stop_unit
    extract_state
    check_archived_lock
    swap_state
    content ← look (λ j. j.previous_drop_in)
    restore_drop_in content
    do_command h daemon_reload
    do_command h start_unit
    binary ← look (λ j. j.previous_binary)
    verify_runtime p h binary
    set_maintenance h false binary
