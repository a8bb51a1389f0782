-- ===== src/Cli/Apply/Sound.antt =====
-- What a log of reconcile may have: which calls have to have come before a patch of the configuration,
-- and before the files that record it.
use gatekeeper_os.Prelude.{
  ◌==◌, [], ◌∷◌, none, some, Option, Bool, true, false, nat_eq, not, ◌&&◌, any,
}
use gatekeeper_os.Cli.Json.{Text, text_eq}
use gatekeeper_os.Cli.Apply.Machine.{
  Event, Log, Host, Platform, RunResult, was_read, ran, wrote, config, catalog_state, generated,
  lockfile, config_state, transaction, lint, dry_patch,
}
use gatekeeper_os.Cli.Apply.Commit.{persisted_hash, lint_passes}
use gatekeeper_os.Cli.Apply.Found.{Options}

pub data EventKind : Type 0 where
  quiet record_commit : EventKind
  revision_read : Text → EventKind
  commit_at : Text → RunResult → EventKind
  linted : RunResult → EventKind

abbrev pub is_passed_dry : Event → Bool
is_passed_dry (ran dry_patch result) = result.code == 0
is_passed_dry e = false

module _ (p : Platform) where
  abbrev pub kind : Event → EventKind
  kind (was_read config t) = revision_read (p.sha256 t)
  kind (ran (transaction binary revision) result) = commit_at revision result
  kind (ran lint result) = linted result
  kind (wrote generated t) = record_commit
  kind (wrote catalog_state t) = record_commit
  kind (wrote lockfile t) = record_commit
  kind (wrote config_state t) = record_commit
  kind e = quiet

  -- Every read of the configuration has had the revision `r`.
  abbrev pub has_revision : Text → EventKind → Bool
  has_revision r (revision_read t) = t == r
  has_revision r k = true

  unfoldable pub reads_agree : Text → Log → Bool
  reads_agree r [] = true
  reads_agree r (e ∷ log) = has_revision r (kind e) && reads_agree r log

  module _ (h : Host) where
    abbrev pub persisted_by : EventKind → Option Text → Option Text
    persisted_by (commit_at r result) earlier = persisted_hash p h result
    persisted_by k earlier = earlier

    -- The revision that the last patch left.
    unfoldable pub last_persisted : Log → Option Text
    last_persisted [] = none
    last_persisted (e ∷ log) = persisted_by (kind e) (last_persisted log)

    abbrev pub revision_by : EventKind → Option Text → Option Text
    revision_by (revision_read t) earlier = some t
    revision_by k earlier = earlier

    unfoldable pub last_revision : Log → Option Text
    last_revision [] = none
    last_revision (e ∷ log) = revision_by (kind e) (last_revision log)

    abbrev pub linted_by : EventKind → Bool → Bool
    linted_by (linted result) earlier = lint_passes p h result
    linted_by (commit_at r result) earlier = false
    linted_by k earlier = earlier

    -- The lint after the last patch has passed.
    unfoldable pub is_linted : Log → Bool
    is_linted [] = false
    is_linted (e ∷ log) = linted_by (kind e) (is_linted log)

    abbrev pub same_revision : Option Text → Option Text → Bool
    same_revision (some t) (some s) = t == s
    same_revision _ _ = false

    abbrev pub may_record : Log → Bool
    may_record log = is_linted log && same_revision (last_revision log) (last_persisted log)

    module _ (o : Options) where
      abbrev pub may_commit : Text → Log → Bool
      may_commit r log = not o.dry_run && reads_agree r log && any is_passed_dry log

      abbrev pub is_allowed : EventKind → Log → Bool
      is_allowed (commit_at r result) log = may_commit r log
      is_allowed record_commit log = may_record log
      is_allowed k log = true

      -- A patch is committed at the revision that every read before it had, after a dry run that
      -- passed, and not on a dry run; it is recorded only after its lint has passed, and while the
      -- configuration, when it was last read, was still as the patch had left it.
      unfoldable pub is_sound : Log → Bool
      is_sound [] = true
      is_sound (e ∷ log) = is_allowed (kind e) log && is_sound log
