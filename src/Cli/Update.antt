-- ===== src/Cli/Update.antt =====
-- packages/gkos-cli/src/util/update-transaction.ts: the update of a cell in nine journalled steps.
-- What happens is a list of events: the journal is saved, a save throws, an effect is called. The
-- host decides from the events so far whether a save or an awaited effect succeeds, and what an
-- effect notes in the journal.
pub mod Steps
pub mod Laws
use gatekeeper_os.Cli.Json.{Text, text_eq}
use gatekeeper_os.Prelude.{
  string_eq, none, nat_eq, leb, ◌==◌, false, not, [], ◌∷◌, true, ◌++◌, if◌then◌else◌, ◌+◌, ℕ, some,
  List, Bool, String, Option,
}

pub data UpdateState : Type 0 where
  preparing staged maintenance activating verifying committed rolling_back rolled_back blocked
        recovery_required :
      UpdateState

pub record UpdateJournal : Type 0 where
  pub id : Text
  pub cell : Text
  pub from : Text
  pub target : Text
  pub kernel_schema : ℕ
  pub state : UpdateState
  pub step : ℕ
  pub completed : List ℕ
  pub started_at : Text
  pub previous_binary : Text
  pub candidate_binary : Text
  pub archive : Option Text
  pub previous_drop_in : Option Text
  pub grants_digest : Option Text
  pub config_digest : Option Text
  pub critical_ids : Option (List Text)
  pub failed_step : Option ℕ
  pub check : Option Text
  pub failed_check : Option Text

pub data Effect : Type 0 where
  resolve compatibility backup stage conformance maintenance activate verify commit rollback
        cancel_maintenance resume :
      Effect

pub data Event : Type 0 where
  saved save_failed : UpdateJournal → Event
  called : Effect → Event

pub record Update : Type 0 where
  pub journal : UpdateJournal
  pub events : List Event

-- How executeUpdate ends: it returns, a save in the catch clause throws, a step has failed and the
-- error names it and the state that was reached, or `resume` throws.
pub data Ending : Type 0 where
  finished unsaved not_resumed : Ending
  step_failed : (step : ℕ) → UpdateState → Ending

pub record Host : Type 0 where
  pub saves : List Event → Bool
  pub succeeds : List Event → Effect → Bool
  pub noted : Effect → UpdateJournal → UpdateJournal

abbrev pub actions : List Effect
actions =
    resolve ∷ compatibility ∷ backup ∷ stage ∷ conformance ∷ maintenance ∷ activate ∷ verify
    ∷ commit ∷ []

-- The state in which the step of an index begins.
abbrev pub state_at : ℕ → UpdateState → UpdateState
state_at index state =
    if index == 4
    then staged
    else if index == 5
    then maintenance
    else if index == 6
    then activating
    else if index == 7
    then verifying
    else state

abbrev pub with_state : UpdateState → Update → Update
with_state state u = record u { journal = record u.journal { state = state } }

abbrev pub entering : ℕ → Update → Update
entering index u = record u {
  journal = record u.journal { step = index + 1; state = state_at index u.journal.state };
}

abbrev pub completing : ℕ → Update → Update
completing index u = record u {
  journal = record u.journal { completed = u.journal.completed ++ (index + 1) ∷ [] };
}

-- `if (journal.check)` is false for the empty text.
abbrev pub failed_check_of : UpdateJournal → Option Text
failed_check_of j = elim j.check [
  | none ↦ j.failed_check
  | some c ↦ if c == [] then j.failed_check else some c
]

abbrev pub noting_failure : Update → Update
noting_failure u = record u {
  journal = record u.journal {
    failed_step = some u.journal.step;
    failed_check = failed_check_of u.journal;
  };
}

module _ (h : Host) where
  -- saveUpdate; after a save that throws, the file may hold either journal.
  unfoldable pub save_update : Update → Update × Bool
  save_update u =
      if h.saves u.events
      then (record u { events = u.events ++ saved u.journal ∷ [] }, true)
      else (record u { events = u.events ++ save_failed u.journal ∷ [] }, false)

  unfoldable pub call : Effect → Update → Update × Bool
  call e u = (
    record { journal = h.noted e u.journal; events = u.events ++ called e ∷ [] },
    h.succeeds u.events e,
  )

  -- The loop of the try block, which the first failure leaves.
  unfoldable pub run_actions : ℕ → List Effect → Update → Update × Bool
  run_actions index [] u = (u, true)
  run_actions index (action ∷ rest) u =
      let (begun, is_begun) = save_update (entering index u) in
      let (done, is_done) = call action begun in
      let (noted, is_noted) = save_update (completing index done) in
      let next = run_actions (index + 1) rest noted in
      if not is_begun
      then (begun, false)
      else if not is_done
      then (done, false)
      else if not is_noted
      then (noted, false)
      else next

  unfoldable pub try_update : Update → Update × Bool
  try_update u =
      let (ran, is_ran) = run_actions 0 actions u in
      if is_ran then save_update (with_state committed ran) else (ran, false)

  -- The end of the catch clause, after the state was set.
  unfoldable pub report : ℕ → Update → Update × Ending
  report failed u =
      let (left, is_saved) = save_update u in
      (left, if is_saved then step_failed failed u.journal.state else unsaved)

  unfoldable pub roll_back : ℕ → Update → Update × Ending
  roll_back failed u =
      let (begun, is_begun) = save_update (with_state rolling_back u) in
      let (done, is_done) = call rollback begun in
      if not is_begun
      then (begun, unsaved)
      else report failed (with_state (if is_done then rolled_back else recovery_required) done)

  unfoldable pub cancel : ℕ → Update → Update × Ending
  cancel failed u =
      let (done, is_done) = call cancel_maintenance u in
      if u.journal.step == 6
      then report failed (with_state (if is_done then blocked else recovery_required) done)
      else report failed (with_state blocked u)

  unfoldable pub catch_failure : Update → Update × Ending
  catch_failure u =
      let failed = noting_failure u in
      if leb 7 u.journal.step then roll_back u.journal.step failed else cancel u.journal.step failed

  unfoldable pub execute_update : Update → Update × Ending
  execute_update u =
      let (tried, is_committed) = try_update u in
      let (resumed, is_resumed) = call resume tried in
      if is_committed
      then (resumed, if is_resumed then finished else not_resumed)
      else catch_failure tried
