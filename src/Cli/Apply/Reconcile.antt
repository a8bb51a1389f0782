-- ===== src/Cli/Apply/Reconcile.antt =====
-- reconcile of config-apply.ts, in the order of the source.
use gatekeeper_os.Cli.Apply.Found.{
  checkpoint_fields, printed_fields, is_in_sync, unchanged, remove_staging, has_any, would_change,
  applied_result, needs_restart, generated_text, recorded_digests, ConfigApplyResult, Found,
  Options,
}
use gatekeeper_os.Cli.Apply.Fragments.{merge_fragments}
use gatekeeper_os.Cli.Apply.Commit.{
  catalog_digest, is_catalog_changed, previous_config, transactional_patch, lint_passes,
}
use gatekeeper_os.Prelude.{
  ℕ, List, String, ◌==◌, [], ◌++◌, none, some, Option, Bool, true, false, if◌then◌else◌, nat_eq,
  map, not, ◌&&◌, ◌||◌, any,
}
use gatekeeper_os.Cli.Json.{units, Json, Fields, Text, text_eq, no_fields}
use gatekeeper_os.Cli.Merge.Diff.{diff_paths}
use gatekeeper_os.Cli.Script.{and_finally, Script, ◌>>=◌, ◌>>◌, give, require}
use gatekeeper_os.Cli.Apply.Machine.{
  read_lockfile, dry_patch, lockfile, config_state, restart, config_revision, candidate, lint,
  write_file, openclaw, make_staging, Host, Platform, Log, catalog_state, generated,
}
use gatekeeper_os.Cli.Apply.Owned.{detect_conflicts, digest_owned, owned_slice, read_owned_config}

module _ (p : Platform) (h : Host) where
  abbrev pub found :
      (catalog_digest : Text)
      → (is_catalog_changed : Bool) → (desired previous : Json) → (revision : Text) → (live : Json)
      → Option Fields
      → Found
  found current is_changed desired previous revision live lock = record {
    catalog_digest = current;
    is_catalog_changed = is_changed;
    desired = desired;
    changes = diff_paths p.stringify p.locale_leb previous desired [];
    revision = revision;
    lock = lock;
    guard = detect_conflicts p (owned_slice live) (recorded_digests lock);
  }

  -- From the reading of the owned paths on.
  unfoldable pub surveyed :
      (catalog_digest : Text)
      → (is_catalog_changed : Bool) → (desired previous : Json) → (revision : Text)
      → Script Log Found
  unfolding diff_paths config_revision read_owned_config owned_slice detect_conflicts
  surveyed current is_changed desired previous revision = do
    live ← read_owned_config p h
    again ← config_revision h p
    require (again == revision) "config changed during ownership read; nothing written"
    lock ← read_lockfile h p
    give (found current is_changed desired previous revision live lock)

  unfoldable pub survey : Script Log Found
  unfolding merge_fragments config_revision surveyed
  survey = do
    current ← catalog_digest p h
    is_changed ← is_catalog_changed p h current
    desired ← merge_fragments p h
    previous ← previous_config p h
    revision ← config_revision h p
    surveyed current is_changed desired previous revision

  -- The file still has the revision that the transaction left.
  abbrev pub confirm : Text → String → Script Log (Unit {0})
  confirm persisted message = do now ← config_revision h p; require (now == persisted) message

  abbrev pub confirm_catalog : Text → String → Script Log (Unit {0})
  confirm_catalog current message = do now ← catalog_digest p h; require (now == current) message

  abbrev pub restart_if : Bool → Script Log Bool
  restart_if false = give false
  restart_if true = do
    result ← openclaw h p restart
    require (result.code == 0) "gateway restart failed"
    give true

  abbrev pub write_digests : Found → Fields → Option Fields → Script Log (Unit {0})
  write_digests f digests none =
      write_file h config_state (printed_fields p (checkpoint_fields p f digests no_fields))
  write_digests f digests (some lock) =
      write_file h lockfile (printed_fields p (checkpoint_fields p f digests lock))

  unfoldable pub checkpoint : Found → Fields → Script Log (Unit {0})
  checkpoint f digests = do
    write_file h catalog_state f.catalog_digest
    write_file h generated (generated_text p f)
    write_digests f digests f.lock

  unfoldable pub verify_lint : Script Log (Unit {0})
  unfolding openclaw
  verify_lint = do
    verdict ← openclaw h p lint
    require (lint_passes p h verdict) "doctor --lint failed after apply; checkpoint not recorded"

  -- The digests of the owned paths, once the patch is committed.
  unfoldable pub digests_after : Text → Script Log Fields
  unfolding read_owned_config owned_slice digest_owned config_revision
  digests_after persisted = do
    confirm persisted "config changed after commit; checkpoint not recorded"
    live ← read_owned_config p h
    confirm persisted "config changed during verification; checkpoint not recorded"
    give (digest_owned p (owned_slice live))

  module _ (o : Options) where
    abbrev pub is_restart_needed : Found → Bool
    is_restart_needed f =
        not o.skip_restart
        && (f.is_catalog_changed
            || any needs_restart (map (λ c. c.path) f.changes ++ f.guard.conflicts))

    unfoldable pub settle_commit : Found → Text → Script Log ConfigApplyResult
    unfolding digests_after verify_lint checkpoint openclaw config_revision
    settle_commit f persisted = do
      digests ← digests_after persisted
      verify_lint
      restarted ← restart_if (is_restart_needed f)
      confirm persisted "config changed before checkpoint; checkpoint not recorded"
      confirm_catalog f.catalog_digest "catalog changed during apply; checkpoint not recorded"
      checkpoint f digests
      give (applied_result p f restarted)

    unfoldable pub publish_config : Found → Script Log ConfigApplyResult
    unfolding transactional_patch settle_commit
    publish_config f = do
      confirm_catalog f.catalog_digest "catalog changed before commit; nothing written"
      persisted ← transactional_patch p h f.revision
      settle_commit f persisted

    abbrev pub publish_unless_dry : Found → Bool → Script Log ConfigApplyResult
    publish_unless_dry f true = give (would_change p f)
    publish_unless_dry f false = publish_config f

    unfoldable pub try_candidate : Found → Script Log ConfigApplyResult
    unfolding publish_config openclaw
    try_candidate f = do
      write_file h candidate (generated_text p f)
      dry ← openclaw h p dry_patch
      require (dry.code == 0)
          "config patch --dry-run rejected the generated config; no upstream write performed"
      publish_unless_dry f o.dry_run

    -- The `try` block, and the removal of the staging directory.
    abbrev pub with_staging : Found → Script Log ConfigApplyResult
    with_staging f = make_staging h >> (λ log. and_finally remove_staging (try_candidate f log))

    abbrev pub decide_apply : Found → Script Log ConfigApplyResult
    decide_apply f =
        if has_any f.guard.conflicts && not o.force
        then give (unchanged p f f.changes f.guard.conflicts)
        else if is_in_sync p f && not o.dry_run
        then give (unchanged p f [] [])
        else with_staging f

    unfoldable pub reconcile : Script Log ConfigApplyResult
    unfolding survey try_candidate
    reconcile = survey >>= decide_apply

abbrev pub options_of : List Text → Options
options_of args = record {
  force = any (λ arg. arg == units "--force") args;
  dry_run = any (λ arg. arg == units "--dry-run") args;
  skip_restart = false;
}

-- The command, with its exit code.
unfoldable pub config_apply : Platform → Host → List Text → Script Log ℕ
unfolding reconcile
config_apply p h args =
    reconcile p h (options_of args) >>= (λ r. give (if has_any r.conflicts then 1 else 0))
