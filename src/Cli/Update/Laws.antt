-- ===== src/Cli/Update/Laws.antt =====
-- What executeUpdate of update-transaction.ts promises: an update either commits with all its steps
-- and is then resumed, or it stops in a step and undoes what that step needs undone.
use gatekeeper_os.Cli.Update.Steps.{
  journal-save_update, run_actions_cases, Ran, KeepsProgress, calls-save_update, calls,
}
use gatekeeper_os.Prelude.{
  ◌+◌, ◌≢◌, false, true, append_assoc, take, if◌then◌else◌, nat_eq, ap, ◌∷◌, arith, refl, ==_iff,
  ◌∙◌, [], ◌==◌, inr, ◌⊎◌, leb, ◌++◌, inl, ◌<◌, List, Bool-cases, ◌≤◌, ◌≡◌, Bool, ℕ,
}
use gatekeeper_os.Cli.Update.{
  resolve, compatibility, backup, stage, conformance, maintenance, activate, verify, commit,
  entering, save_failed, run_actions, not_resumed, resume, called, finished, try_update, saved,
  committed, actions, UpdateJournal, execute_update, Event, rollback, rolled_back,
  cancel_maintenance, rolling_back, noting_failure, step_failed, recovery_required, with_state,
  blocked, unsaved, save_update, Ending, Effect, UpdateState, call, catch_failure, roll_back,
  cancel, report, Host, Update,
}

-- The last save of the catch clause, with this state: the error names the step and the state where
-- it succeeds, and is the save's own where it does not.
pub data Reported (n : ℕ) (state : UpdateState) : Event → Ending → Type 0 where
  in_time : {j : UpdateJournal} → j.state ≡ state → Reported n state (saved j) (step_failed n state)
  unsaved_report : {j : UpdateJournal} → j.state ≡ state → Reported n state (save_failed j) unsaved

-- What happens after a failure in a step, event by event, and how the update ends then.
pub data Recovery (n : ℕ) : List Event → Ending → Type 0 where
  left_blocked :
      {x : Event} {ending : Ending}
      → n < 6
      → Reported n blocked x ending
      → Recovery n (x ∷ []) ending
  cancelled :
      {x : Event} {ending : Ending} {state : UpdateState}
      → n ≡ 6
      → (state ≡ blocked) ⊎ (state ≡ recovery_required)
      → Reported n state x ending
      → Recovery n (called cancel_maintenance ∷ x ∷ []) ending
  unrecorded :
      {j : UpdateJournal} → 7 ≤ n → j.state ≡ rolling_back → Recovery n (save_failed j ∷ []) unsaved
  undone :
      {j : UpdateJournal} {x : Event} {ending : Ending} {state : UpdateState}
      → 7 ≤ n
      → j.state ≡ rolling_back
      → (state ≡ rolled_back) ⊎ (state ≡ recovery_required)
      → Reported n state x ending
      → Recovery n (saved j ∷ called rollback ∷ x ∷ []) ending

module _ (h : Host) where
  report-Reported :
      (n : ℕ) (u : Update)
      → (x : Event) × ((report h n u).0.events ≡ u.events ++ x ∷ [])
        × Reported n u.journal.state x (report h n u).1
  unfolding report save_update
  report-Reported n u = elim (Bool-cases (h.saves u.events)) [
    | inl e ↦ rw e (saved u.journal, refl, in_time refl)
    | inr e ↦ rw e (save_failed u.journal, refl, unsaved_report refl)
  ]

  call_events : (e : Effect) (u : Update) → (call h e u).0.events ≡ u.events ++ called e ∷ []
  unfolding call
  call_events e u = refl

  rolled_back_or_not :
      (b : Bool)
      → ((if b then rolled_back else recovery_required) ≡ rolled_back)
        ⊎ ((if b then rolled_back else recovery_required) ≡ recovery_required)
  rolled_back_or_not true = inl refl
  rolled_back_or_not false = inr refl

  blocked_or_not :
      (b : Bool)
      → ((if b then blocked else recovery_required) ≡ blocked)
        ⊎ ((if b then blocked else recovery_required) ≡ recovery_required)
  blocked_or_not true = inl refl
  blocked_or_not false = inr refl

  -- The events of the catch clause, behind those before it, and what they are.
  abbrev Recovers : ℕ → List Event → Update × Ending → Type 0
  Recovers n before r = (tail : List Event) × (r.0.events ≡ before ++ tail) × Recovery n tail r.1

  -- The catch clause from the call of the rollback on.
  undo-Recovery :
      (n : ℕ) (u begun : Update)
      → 7 ≤ n
      → begun.events ≡ u.events ++ saved (with_state rolling_back u).journal ∷ []
      → Recovers n u.events (
          report h n (
            with_state
              (if (call h rollback begun).1 then rolled_back else recovery_required)
              (call h rollback begun).0))
  undo-Recovery n u begun late made =
      let j = (with_state rolling_back u).journal in
      let (done, is_done) = call h rollback begun in
      let left = with_state (if is_done then rolled_back else recovery_required) done in
      let (x, reported, report_is) = report-Reported n left in
      (
        saved j ∷ called rollback ∷ x ∷ [],
        reported
            ∙ ap (λ xs. xs ++ x ∷ []) (call_events rollback begun)
            ∙ append_assoc begun.events (called rollback ∷ []) (x ∷ [])
            ∙ ap (λ xs. xs ++ called rollback ∷ x ∷ []) made
            ∙ append_assoc u.events (saved j ∷ []) (called rollback ∷ x ∷ []),
        undone late refl (rolled_back_or_not is_done) report_is,
      )

  roll_back-Recovery : (n : ℕ) (u : Update) → 7 ≤ n → Recovers n u.events (roll_back h n u)
  unfolding roll_back save_update
  roll_back-Recovery n u late =
      let j = (with_state rolling_back u).journal in
      elim (Bool-cases (h.saves u.events)) [
        | inr e ↦ rw e (save_failed j ∷ [], refl, unrecorded late refl)
        | inl e ↦ rw e (
            undo-Recovery n u (record { journal = j; events = u.events ++ saved j ∷ [] }) late refl)
      ]

  cancel-Recovery :
      (n : ℕ) (u : Update) → n ≡ u.journal.step → n < 7 → Recovers n u.events (cancel h n u)
  unfolding cancel
  cancel-Recovery n u at early =
      let (done, is_done) = call h cancel_maintenance u in
      let left = with_state (if is_done then blocked else recovery_required) done in
      elim (Bool-cases (u.journal.step == 6)) [
        | inl e ↦
            let six : n ≡ 6 = at ∙ (==_iff u.journal.step 6).0 e in
            let (x, reported, report_is) = report-Reported n left in
            rw e (
              called cancel_maintenance ∷ x ∷ [],
              reported
                  ∙ ap (λ xs. xs ++ x ∷ []) (call_events cancel_maintenance u)
                  ∙ append_assoc u.events (called cancel_maintenance ∷ []) (x ∷ []),
              cancelled six (blocked_or_not is_done) report_is,
            )
        | inr e ↦
            let other : n < 6 = ground (arith, ==_iff u.journal.step 6, e, at, early) in
            let (x, reported, report_is) = report-Reported n (with_state blocked u) in
            rw e (x ∷ [], reported, left_blocked other report_is)
      ]

  catch_failure-Recovery : (u : Update) → Recovers u.journal.step u.events (catch_failure h u)
  unfolding catch_failure
  catch_failure-Recovery u = elim (Bool-cases (leb 7 u.journal.step)) [
    | inl e ↦ rw e (roll_back-Recovery u.journal.step (noting_failure u) (ground arith))
    | inr e ↦ rw e (cancel-Recovery u.journal.step (noting_failure u) refl (ground arith))
  ]

-- The nine effects of an update, in the order in which they have to be called.
abbrev pub in_order : List Effect
in_order =
    resolve ∷ compatibility ∷ backup ∷ stage ∷ conformance ∷ maintenance ∷ activate ∷ verify
    ∷ commit ∷ []

-- An update that commits.
pub record Committed (u v : Update) : Type 0 where
  pub earlier : List Event
  pub journal : UpdateJournal
  pub events : v.events ≡ earlier ++ saved journal ∷ called resume ∷ []
  pub made : calls earlier ≡ calls u.events ++ in_order
  pub state : journal.state ≡ committed
  pub completed : journal.completed ≡ u.journal.completed ++ 1 ∷ 2 ∷ 3 ∷ 4 ∷ 5 ∷ 6 ∷ 7 ∷ 8 ∷ 9 ∷ []

-- An update that stops in a step: of the nine effects the first `begun` were called, and then the
-- catch clause ran.
pub record Failed (u v : Update) (ending : Ending) : Type 0 where
  pub step : ℕ
  pub begun : ℕ
  pub earlier : List Event
  pub recovering : List Event
  pub positive : 0 < step
  pub bounded : step ≤ 9
  pub reached : begun ≤ step
  pub events : v.events ≡ earlier ++ recovering
  pub made : calls earlier ≡ calls u.events ++ take begun in_order
  pub recovery : Recovery step recovering ending

saves_of :
    (h : Host) (u : Update)
    → (save_update h (with_state committed u)).1 ≡ true
    → h.saves (with_state committed u).events ≡ true
unfolding save_update
saves_of h u e = ground arith

module _ (h : Host) (keeps : KeepsProgress h) (u : Update) where
  undoing_of :
      (v : Update) (begun : ℕ)
      → 0 < v.journal.step
      → v.journal.step ≤ 9
      → begun ≤ v.journal.step
      → calls v.events ≡ calls u.events ++ take begun actions
      → Failed u (catch_failure h v).0 (catch_failure h v).1
  undoing_of v begun positive bounded reached made =
      let (tail, undone_by, recovery) = catch_failure-Recovery h v in
      record {
        step = v.journal.step;
        begun = begun;
        earlier = v.events;
        recovering = tail;
        positive = positive;
        bounded = bounded;
        reached = reached;
        events = undone_by;
        made = made;
        recovery = recovery;
      }

  committed_of :
      (v : Update)
      → Ran 0 actions u v
      → h.saves (with_state committed v).events ≡ true
      → Committed u (call h resume (save_update h (with_state committed v)).0).0
  unfolding call save_update
  committed_of v ran is_saved = record {
    earlier = v.events;
    journal = (with_state committed v).journal;
    events =
        rw is_saved (
          append_assoc v.events (saved (with_state committed v).journal ∷ []) (called resume ∷ []));
    made = ran.made;
    state = refl;
    completed = ran.completed;
  }

  finished_or_not :
      (b : Bool)
      → ((if b then finished else not_resumed) ≡ finished)
        ⊎ ((if b then finished else not_resumed) ≡ not_resumed)
  finished_or_not true = inl refl
  finished_or_not false = inr refl

  unsaved_commit :
      (v : Update)
      → Ran 0 actions u v
      → Failed u
          (catch_failure h (save_update h (with_state committed v)).0).0
          (catch_failure h (save_update h (with_state committed v)).0).1
  unsaved_commit v ran =
      let at : (save_update h (with_state committed v)).0.journal.step ≡ 9 =
        ap (λ j. j.step) (journal-save_update h (with_state committed v)) ∙ ran.step in
      undoing_of (save_update h (with_state committed v)).0 9 (rw at (omega arith))
        (rw at (omega arith)) (rw at (omega arith))
        (calls-save_update h (with_state committed v) ∙ ran.made)

  -- Where no effect rewrites the step or the completed steps in the journal: either all nine steps
  -- are taken in order, the commit is recorded, and only then the cell is resumed. Or the update
  -- stops in a step with nothing of a later step called, and it is not resumed: before step 6
  -- nothing more is called; in step 6 the maintenance is cancelled; from step 7, activation, on,
  -- the rolling-back state is saved and only where that save succeeds the rollback is called, right
  -- after it. The state reached is saved last, and the error names it and the step where it could be
  -- saved.
  pub execute_update_outcome :
      ((((execute_update h u).1 ≡ finished) ⊎ ((execute_update h u).1 ≡ not_resumed))
        × Committed u (execute_update h u).0)
      ⊎ Failed u (execute_update h u).0 (execute_update h u).1
  unfolding execute_update try_update
  execute_update_outcome = elim (run_actions_cases h keeps 0 actions u) [
    | inr (e, s) ↦ rw e (
        inr (
          undoing_of (run_actions h 0 actions u).0 s.begun s.started s.bounded
            (let r = s.reached in omega arith) s.made))
    | inl (e, r) ↦
        let ran = (run_actions h 0 actions u).0 in
        rw e (elim (Bool-cases (save_update h (with_state committed ran)).1) [
          | inl f ↦ rw f (
              inl (
                finished_or_not (call h resume (save_update h (with_state committed ran)).0).1,
                committed_of ran r (saves_of h ran f),
              ))
          | inr f ↦ rw f (inr (unsaved_commit ran r))
        ])
  ]

-- A recovery never ends as a finished update.
Reported-not_finished :
    {n : ℕ} {state : UpdateState} {x : Event} {ending : Ending}
    → Reported n state x ending
    → ending ≢ finished
Reported-not_finished (in_time same) e = cc e
Reported-not_finished (unsaved_report same) e = cc e

Recovery-not_finished :
    {n : ℕ} {es : List Event} {ending : Ending} → Recovery n es ending → ending ≢ finished
Recovery-not_finished (left_blocked _ report_is) e = Reported-not_finished report_is e
Recovery-not_finished (cancelled _ _ report_is) e = Reported-not_finished report_is e
Recovery-not_finished (unrecorded _ _) e = cc e
Recovery-not_finished (undone _ _ _ report_is) e = Reported-not_finished report_is e

module _ (h : Host) (keeps : KeepsProgress h) (all_saved : (es : List Event) → h.saves es ≡ true)
    (all_done : (es : List Event) (e : Effect) → h.succeeds es e ≡ true) where
  save_succeeds : (u : Update) → (save_update h u).1 ≡ true
  unfolding save_update
  save_succeeds u = rw (all_saved u.events) refl

  run_succeeds :
      (index : ℕ) (todo : List Effect) (u : Update) → (run_actions h index todo u).1 ≡ true
  unfolding run_actions call
  run_succeeds index [] u = refl
  run_succeeds index (a ∷ rest) u =
      rw (save_succeeds (entering index u), all_done _ _, save_succeeds _)
        (run_succeeds (index + 1) rest _)

  ends_finished : (u : Update) → (execute_update h u).1 ≡ finished
  unfolding execute_update try_update call
  ends_finished u = rw (run_succeeds 0 actions u, save_succeeds _, all_done _ _) refl

  -- Where every save and every effect of the host succeeds, and no effect rewrites the step or the
  -- completed steps in the journal, an update finishes with all nine effects called in order, each
  -- step noted as completed, the commit saved, and the cell resumed last.
  pub execute_update_finishes :
      (u : Update) → ((execute_update h u).1 ≡ finished) × Committed u (execute_update h u).0
  execute_update_finishes u = (
    ends_finished u,
    elim (execute_update_outcome h keeps u) [
      | inl (_, done) ↦ done
      | inr failed ↦ absurd (Recovery-not_finished failed.recovery (ends_finished u))
    ],
  )
