-- ===== src/Tests/Decisions.antt =====
-- The queue of approvals.ts and the coordinator of actions.ts on small inputs.
use gatekeeper_os.Kernel.Queue.Laws.{submit_action_accepted, authorize_observation_refused}
use gatekeeper_os.Kernel.Coordinator.Laws.{the_effect, Guarded}
use gatekeeper_os.Kernel.Audit.{write}
use gatekeeper_os.Kernel.Coordinator.Once.{
  KeepsFailed, perform_effects, perform_once, perform_success, Eligible,
}
use gatekeeper_os.Kernel.Store.Actions.{
  action_binding, same_action, add_action, decide_action, claim_action, list_actions, get_action,
}
use gatekeeper_os.Tests.Samples.{
  sample_store-WellFormed, sample_action, sample_description, sample_os, sample_world, sample_grant,
  sample_turn, sample_platform, sample_host, sample_store,
}
use gatekeeper_os.Kernel.Store.Grants.{is_authorized, get_grant, authorize_grant}
use gatekeeper_os.Prelude.{
  nat_eq, ◌++◌, find?-append, ◌≤◌, or_else, find?, ◌<◌, string_eq, ◌==◌, refl, ◌⊎◌, ◌∷◌, ◌≡◌, none,
  true, false, [], ◌≢◌, some,
}
use gatekeeper_os.Kernel.Queue.{
  lock_grant, record_audit, is_locked, denied_for_audience, instance_id, Os, is_granted,
  authorize_observation, submit_action,
}
use gatekeeper_os.Kernel.Coordinator.{Turn, not_eligible, apply, reject, drain_instance, perform}
use gatekeeper_os.Kernel.Store.Audience.{get_instance, observers}
use gatekeeper_os.Shared.{Grant, is_set, owner_only, applied, ObservationDescription, PendingAction}

abbrev sharing : ObservationDescription
sharing = record {
  title = "Read";
  description = "";
  prohibit_all_sharing = some true;
  exclude_observers = none;
}

abbrev watched_os : Os
watched_os = record {
  store = record sample_store {
    observers = record { session_key = "s"; observer_id = "x"; tainted = false } ∷ [];
  };
  log = [];
}

refused_run :
    (authorize_observation sample_platform "default" sample_grant "s" watched_os 10 sharing).1
    ≡ some denied_for_audience
unfolding authorize_observation is_granted authorize_grant get_grant is_authorized get_instance
    instance_id observers record_audit
refused_run = refl

authorize_observation_refused_example :
    ((authorize_observation sample_platform "default" sample_grant "s" watched_os 10 sharing).0.log
      ≡ [])
    × (((authorize_observation sample_platform "default" sample_grant "s" watched_os 10
            sharing).0.store
          ≡ watched_os.store)
        ⊎ ((is_set sharing.prohibit_all_sharing ≡ true)
            × ((authorize_observation sample_platform "default" sample_grant "s" watched_os 10
                  sharing).0.store
                ≡ lock_grant sample_grant watched_os.store)))
authorize_observation_refused_example =
    authorize_observation_refused sample_platform "default" sample_grant "s" watched_os 10 sharing
      denied_for_audience refused_run

-- Another agent's grant of the same resource, in another session.
abbrev other_grant : Grant
other_grant = record sample_grant { handle = "grant:other"; agent_id = "other" }

submitted_run :
    (submit_action sample_platform "default" sample_grant "s" sample_os 10 2 7 sample_description).1
    ≡ none
unfolding submit_action is_granted authorize_grant get_grant is_authorized get_instance instance_id
    observers record_audit add_action
submitted_run = refl

-- While its call is awaited, another action is submitted.
abbrev busy_turn : Turn
busy_turn = record sample_turn {
  during = λ o. record o {
    store = record o.store { actions = o.store.actions ++ record sample_action { id = 5 } ∷ [] };
  };
}

busy_turn-KeepsFailed : KeepsFailed busy_turn.during 1
unfolding get_action
busy_turn-KeepsFailed o (b, found, at_b) = (
  b,
  rw
      (find?-append (λ (x : PendingAction). x.id == 1) o.store.actions
        (record sample_action { id = 5 } ∷ []))
      (rw found refl),
  at_b,
)

perform_run : (perform sample_host busy_turn 1 apply "op" sample_world).1 ≡ none
unfolding perform get_action list_actions claim_action decide_action write
perform_run = refl

perform_made : (perform sample_host busy_turn 1 apply "op" sample_world).0.effects ≢ []
unfolding perform get_action list_actions claim_action decide_action write
perform_made e = cc e

perform_success_example :
    (b : PendingAction) × (get_action
        (perform sample_host busy_turn 1 apply "op" sample_world).0.os.store
        1
      ≡ some b)
    × (b.status ≡ applied)
perform_success_example =
    perform_success sample_host busy_turn 1 apply "op" sample_world sample_store-WellFormed
      busy_turn-KeepsFailed perform_run

perform_once_example :
    perform sample_host sample_turn 1 reject "other"
      (perform sample_host busy_turn 1 apply "op" sample_world).0
    ≡ ((perform sample_host busy_turn 1 apply "op" sample_world).0, some not_eligible)
perform_once_example =
    perform_once sample_host busy_turn 1 apply "op" sample_world sample_store-WellFormed
      busy_turn-KeepsFailed sample_turn reject "other"
      (perform sample_host busy_turn 1 apply "op" sample_world).0 perform_made refl refl

-- While the call of its apply is awaited, the same action is rejected.
abbrev contested_turn : Turn
contested_turn = record sample_turn {
  during = λ o.
      (perform sample_host sample_turn 1 reject "second" (record sample_world { os = o })).0.os;
}

perform_effects_example :
    (((perform sample_host sample_turn 1 apply "op" sample_world).0.effects ≡ [])
      × ((perform sample_host sample_turn 1 apply "op" sample_world).1 ≢ none))
    ⊎ ((action : PendingAction) × (get_action sample_store 1 ≡ some action)
        × Eligible sample_host apply sample_store action
        × Guarded sample_host sample_turn action apply "op" sample_turn.resolve sample_world
        × ((perform sample_host sample_turn 1 apply "op" sample_world).0.effects
            ≡ the_effect apply action ∷ []))
perform_effects_example = perform_effects sample_host sample_turn 1 apply "op" sample_world

drained_run :
    (drain_instance sample_host (λ id. sample_turn) ("write" ∷ []) "fs" sample_world).effects
    ≡ the_effect apply sample_action ∷ []
unfolding drain_instance perform get_action list_actions claim_action decide_action write
drained_run = refl

undrained_run : drain_instance sample_host (λ id. sample_turn) [] "fs" sample_world ≡ sample_world
unfolding drain_instance perform get_action list_actions claim_action decide_action write
undrained_run = refl

submit_action_accepted_example :
    (is_granted sample_platform "default" sample_grant "s" sample_store 10 ≡ true)
    × (is_locked (get_instance sample_store (instance_id sample_grant)) ≡ false)
    × (sample_grant.audience ≡ owner_only → observers sample_store "s" ≡ [])
    × (sample_platform.valid_description sample_description ≡ true)
    × (0 < 7)
    × (7 ≤ sample_platform.max_safe_integer)
    × ((row : PendingAction) × (find?
            (same_action (instance_id sample_grant) 7)
            (submit_action sample_platform "default" sample_grant "s" sample_os 10 2 7
              sample_description).0.store.actions
          ≡ some row)
        × (action_binding
              (submit_action sample_platform "default" sample_grant "s" sample_os 10 2 7
                sample_description).0.store
              row.id
            ≡ or_else (action_binding sample_store row.id) (
                some (record {
                  id = row.id;
                  handle = "grant:7k3m9q2p";
                  agent_id = "main";
                  session_key = "s";
                }))))
submit_action_accepted_example =
    submit_action_accepted sample_platform "default" sample_grant "s" sample_os 10 2 7
      sample_description submitted_run
