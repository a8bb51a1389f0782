-- ===== src/Cli/Upgrade/Rollback.antt =====
-- rollback of update.ts, from the journal that readUpdate has given. What a check of the guard's
-- process says is a parameter.
use gatekeeper_os.Prelude.{
  [], ◌∷◌, ◌∷◌, List, ◌==◌, Bool, true, false, if◌then◌else◌, nat_eq, ◌&&◌, ltb,
}
use gatekeeper_os.Cli.Json.{Text, text_eq}
use gatekeeper_os.Cli.Update.{
  UpdateState, committed, rolling_back, rolled_back, blocked, recovery_required,
}
use gatekeeper_os.Cli.Script.{
  Ending, ◌>>=◌, ◌>>◌, give, throw, require, returned, threw, step_error, other_error,
}
use gatekeeper_os.Cli.Upgrade.Machine.{
  Host, Platform, Upgrade, Steps, process_guard, wrote, removed, start_unit, look, assign,
  do_command, read_file, exists, change, set_maintenance, save, wait_ready, print,
}
use gatekeeper_os.Cli.Upgrade.Runtime.{same_digest, grants, pause_and_drain, is_pid}
use gatekeeper_os.Cli.Upgrade.Restore.{restore_runtime}

abbrev is_bare : List Text → Bool
is_bare [] = true
is_bare (arg ∷ args) = false

abbrev pub is_recoverable : UpdateState → Bool
is_recoverable rolled_back = false
is_recoverable blocked = false
is_recoverable other = true

abbrev pub is_committed : UpdateState → Bool
is_committed committed = true
is_committed other = false

abbrev pub in_state : UpdateState → Steps (Unit {0})
in_state state = assign (λ j. record j { state = state })

-- What a process check says: no such process, one that runs, or another error.
pub data Liveness : Type 0 where
  gone running unknown : Liveness

abbrev still_running : Liveness → Steps (Unit {0})
still_running gone = give tt
still_running running = throw (step_error "Update process is still running")
still_running unknown = throw (other_error "process.kill")

module _ (p : Platform) (h : Host) where
  -- A guard that an interrupted run has left is removed.
  abbrev pub clear_guard : Liveness → Bool → Steps (Unit {0})
  clear_guard life false = give tt
  clear_guard life true = do
    pid ← read_file h process_guard
    require (is_pid p h pid) "Invalid process guard"
    still_running life
    change h (removed process_guard)

  -- The gateway is stopped in step six.
  abbrev pub restart_if_stopped : Bool → Steps (Unit {0})
  restart_if_stopped false = give tt
  restart_if_stopped true = do
    do_command h start_unit
    ready ← wait_ready h
    require ready "Old runtime did not restart"
    binary ← look (λ j. j.previous_binary)
    set_maintenance h false binary

  -- Nothing was activated before step seven.
  unfoldable pub cancel_update : Steps (Unit {0})
  cancel_update = do
    stopped ← look (λ j. j.step == 6)
    restart_if_stopped stopped
    in_state blocked
    save h
    print h

  abbrev pub refuse_if : Bool → Text → Steps (Unit {0})
  refuse_if true binary = give tt
  refuse_if false binary =
      set_maintenance h false binary
      >> throw (step_error "Grants changed after update; refusing stale rollback")

  -- After a commit, the cell is drained, and its grants are those of the update.
  abbrev pub prepare_if : Bool → Steps (Unit {0})
  prepare_if false = give tt
  prepare_if true = do
    binary ← look (λ j. j.candidate_binary)
    pause_and_drain p h binary
    digest ← grants p h binary
    kept ← look (λ j. same_digest j.grants_digest digest)
    refuse_if kept binary

  -- From the assignment of `recoveryStarted` on.
  unfoldable pub recover : Steps (Unit {0})
  unfolding restore_runtime
  recover = do
    in_state rolling_back
    save h
    restore_runtime p h
    in_state rolled_back
    save h
    print h

  -- The catch clause: the state says whether recovery has started.
  abbrev pub refused {ℓ} : {A : Type ℓ} → Steps A
  refused = throw (
      step_error
        "Rollback refused or requires recovery; retained archives and failed state were not deleted")

  abbrev pub fail_in : UpdateState → Upgrade → Ending Upgrade (Unit {0})
  fail_in state u = (in_state state >> save h >> refused) u

  abbrev pub ignoring : Ending Upgrade (Unit {0}) → Upgrade
  ignoring (returned a u) = u
  ignoring (threw e u) = u

  -- Admission is given back where a committed update was not touched.
  abbrev pub readmit_if : Bool → Upgrade → Upgrade
  readmit_if false u = u
  readmit_if true u = ignoring (set_maintenance h false u.journal.candidate_binary u)

  abbrev pub catch_early : UpdateState → Ending Upgrade (Unit {0}) → Ending Upgrade (Unit {0})
  catch_early before (returned a u) = returned a u
  catch_early before (threw e u) = fail_in before (readmit_if (is_committed before) u)

  abbrev pub catch_late : Ending Upgrade (Unit {0}) → Ending Upgrade (Unit {0})
  catch_late (returned a u) = returned a u
  catch_late (threw e u) = fail_in recovery_required u

  -- `recover`, once what comes before it has returned.
  abbrev pub recover_after : UpdateState → Ending Upgrade (Unit {0}) → Ending Upgrade (Unit {0})
  recover_after before (returned a u) = catch_late (recover u)
  recover_after before (threw e u) = catch_early before (threw e u)

  unfoldable pub try_rollback : Upgrade → Ending Upgrade (Unit {0})
  unfolding cancel_update pause_and_drain grants recover
  try_rollback u =
      let before = u.journal.state in
      if ltb u.journal.step 7
      then catch_early before (cancel_update u)
      else recover_after before (prepare_if (is_committed before) u)

  -- `unlinkSync(guard)` in the finally clause
  abbrev pub remove_guard : Ending Upgrade (Unit {0}) → Ending Upgrade (Unit {0})
  remove_guard (returned a u) = change h (removed process_guard) u
  remove_guard (threw e u) = (change h (removed process_guard) >> throw e) u

  unfoldable pub rollback :
      (args : List Text) (confirmed : Bool) (cell : Text) → Liveness → Steps (Unit {0})
  unfolding try_rollback
  rollback args confirmed cell life = do
    require (is_bare args && confirmed) "usage: gkos rollback --yes [--cell name]"
    ours ← look (λ j. j.cell == cell && is_recoverable j.state)
    require ours "No activated update to roll back"
    guarded ← exists h process_guard
    clear_guard life guarded
    change h (wrote process_guard)
    (λ u. remove_guard (try_rollback u))
