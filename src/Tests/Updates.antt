-- ===== src/Tests/Updates.antt =====
-- executeUpdate of update-transaction.ts on small inputs.
use gatekeeper_os.Cli.Json.{units}
use gatekeeper_os.Cli.Update.Steps.{calls}
use gatekeeper_os.Cli.Update.Laws.{
  execute_update_outcome, execute_update_finishes, Failed, Committed,
}
use gatekeeper_os.Prelude.{◌∷◌, ◌++◌, take, refl, ◌⊎◌, false, not, Bool, none, ◌≡◌, true, []}
use gatekeeper_os.Cli.Update.{
  verify, rollback, actions, rolled_back, step_failed, report, roll_back, catch_failure, call,
  not_resumed, save_update, finished, run_actions, try_update, preparing, Effect, execute_update,
  Host, Update, UpdateJournal,
}

abbrev pub sample_journal : UpdateJournal
sample_journal = record {
  id = units "00000000000000000000000000000000";
  cell = units "default";
  from = units "2026.1.0";
  target = units "2026.2.0";
  kernel_schema = 1;
  state = preparing;
  step = 1;
  completed = [];
  started_at = units "2026-01-01T00:00:00.000Z";
  previous_binary = units "/old";
  candidate_binary = units "/new";
  archive = none;
  previous_drop_in = none;
  grants_digest = none;
  config_digest = none;
  critical_ids = none;
  failed_step = none;
  check = none;
  failed_check = none;
}

abbrev sample_update : Update
sample_update = record { journal = sample_journal; events = [] }

-- The effect that fails, if any.
abbrev is_verify : Effect → Bool
is_verify verify = true
is_verify _ = false

abbrev failing_host : Host
failing_host = record { saves = λ es. true; succeeds = λ es e. not (is_verify e); noted = λ e j. j }

abbrev working_host : Host
working_host = record { saves = λ es. true; succeeds = λ es e. true; noted = λ e j. j }

failed_run : (execute_update failing_host sample_update).1 ≡ step_failed 8 rolled_back
unfolding execute_update try_update run_actions save_update call catch_failure roll_back report
failed_run = refl

failed_calls :
    calls (execute_update failing_host sample_update).0.events ≡ take 8 actions ++ rollback ∷ []
unfolding execute_update try_update run_actions save_update call catch_failure roll_back report
    calls
failed_calls = refl

execute_update_outcome_example :
    ((((execute_update failing_host sample_update).1 ≡ finished)
        ⊎ ((execute_update failing_host sample_update).1 ≡ not_resumed))
      × Committed sample_update (execute_update failing_host sample_update).0)
    ⊎ Failed sample_update
        (execute_update failing_host sample_update).0
        (execute_update failing_host sample_update).1
execute_update_outcome_example =
    execute_update_outcome failing_host (record { step = λ e j. refl; completed = λ e j. refl })
      sample_update

execute_update_finishes_example :
    ((execute_update working_host sample_update).1 ≡ finished)
    × Committed sample_update (execute_update working_host sample_update).0
execute_update_finishes_example =
    execute_update_finishes working_host (record { step = λ e j. refl; completed = λ e j. refl })
      (λ es. refl) (λ es e. refl) sample_update
