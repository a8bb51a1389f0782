-- ===== src/Kernel/Queue/Laws.antt =====
-- What the queue of approvals.ts lets through, and what a refusal leaves behind.
use gatekeeper_os.Kernel.Store.Claims.{action_binding-bind_action}
use gatekeeper_os.Kernel.Store.Actions.{action_binding, same_action, bind_action, add_action}
use gatekeeper_os.Kernel.Store.State.{Store}
use gatekeeper_os.Prelude.{
  or_else, find?, Option, ◌<◌, ◌≤◌, refl, ℕ, String, string_eq, true, false, [], none, some, ◌≡◌,
  arith, ◌⊎◌,
}
use gatekeeper_os.Shared.{
  PendingAction, ActionDescription, Grant, owner_only, ObservationDescription, is_set,
}
use gatekeeper_os.Kernel.Store.Audience.{get_instance, observers}
use gatekeeper_os.Kernel.Queue.{
  instance_id, submit_row, submit_action, Os, QueueError, Platform, instance_id, is_locked,
  record_audit, lock_grant, is_granted, authorize_observation,
}

module _ (p : Platform) (cell : String) (grant : Grant) (session_key : String) where
  -- A refused observation appends nothing to the log, and it changes the store only where it
  -- prohibits all sharing: then the resource and the grant are locked down.
  pub authorize_observation_refused :
      (s : Os) (now : ℕ) (d : ObservationDescription) (e : QueueError)
      → (authorize_observation p cell grant session_key s now d).1 ≡ some e
      → ((authorize_observation p cell grant session_key s now d).0.log ≡ s.log)
        × (((authorize_observation p cell grant session_key s now d).0.store ≡ s.store)
            ⊎ ((is_set d.prohibit_all_sharing ≡ true)
                × ((authorize_observation p cell grant session_key s now d).0.store
                    ≡ lock_grant grant s.store)))
  unfolding authorize_observation record_audit
  authorize_observation_refused s now d e h = ground arith

  submit_action_guards :
      (s : Os) (now new_id action_id : ℕ) (d : ActionDescription)
      → (submit_action p cell grant session_key s now new_id action_id d).1 ≡ none
      → (is_granted p cell grant session_key s.store now ≡ true)
        × (is_locked (get_instance s.store (instance_id grant)) ≡ false)
        × (grant.audience ≡ owner_only → observers s.store session_key ≡ [])
        × (p.valid_description d ≡ true)
        × (0 < action_id)
        × (action_id ≤ p.max_safe_integer)
  unfolding submit_action
  submit_action_guards s now new_id action_id d h =
      (ground arith, ground arith, λ e. ground arith, ground arith, ground arith, ground arith)

  -- Past its guards, a submission is the rest of the handler.
  submit_action_past_guards :
      (s : Os) (now new_id action_id : ℕ) (d : ActionDescription)
      → (submit_action p cell grant session_key s now new_id action_id d).1 ≡ none
      → submit_action p cell grant session_key s now new_id action_id d
        ≡ submit_row p cell grant session_key s d now
            (add_action s.store new_id (instance_id grant) action_id (p.stringify d) now)
  unfolding submit_action
  submit_action_past_guards s now new_id action_id d h = ground arith

  submit_row_accepted :
      (s : Os) (d : ActionDescription) (now : ℕ) (st : Store) (o : Option PendingAction)
      → (submit_row p cell grant session_key s d now (st, o)).1 ≡ none
      → (row : PendingAction) × (o ≡ some row)
        × ((submit_row p cell grant session_key s d now (st, o)).0.store
            ≡ bind_action st row.id grant.handle grant.agent_id session_key)
  unfolding submit_row record_audit
  submit_row_accepted s d now st none h = cc
  submit_row_accepted s d now st (some row) h = (row, refl, ground arith)

  submit_action_row :
      (s : Os) (now new_id action_id : ℕ) (d : ActionDescription)
      → (submit_action p cell grant session_key s now new_id action_id d).1 ≡ none
      → (row : PendingAction) × (find?
            (same_action (instance_id grant) action_id)
            (submit_action p cell grant session_key s now new_id action_id d).0.store.actions
          ≡ some row)
        × (action_binding
              (submit_action p cell grant session_key s now new_id action_id d).0.store
              row.id
            ≡ or_else (action_binding s.store row.id) (
                some (record {
                  id = row.id;
                  handle = grant.handle;
                  agent_id = grant.agent_id;
                  session_key = session_key;
                })))
  unfolding add_action action_binding
  submit_action_row s now new_id action_id d h =
      let step = submit_action_past_guards s now new_id action_id d h in
      let added = add_action s.store new_id (instance_id grant) action_id (p.stringify d) now in
      let (row, stored, left) = submit_row_accepted s d now added.0 added.1 (rw step at h) in
      (
        row,
        rw step (rw left (unfold bind_action in stored)),
        rw step (
            rw left
              (action_binding-bind_action added.0 row.id grant.handle grant.agent_id session_key)),
      )

  -- A submission that the queue accepts finds the grant authorized, the resource unlocked, no
  -- observers where the grant is for its owner only, a valid description, and an action id above 0
  -- and within the safe integers; afterwards a row is
  -- stored under this resource and action id, and it is bound: to this grant, agent and session,
  -- unless it had been bound before.
  pub submit_action_accepted :
      (s : Os) (now new_id action_id : ℕ) (d : ActionDescription)
      → (submit_action p cell grant session_key s now new_id action_id d).1 ≡ none
      → (is_granted p cell grant session_key s.store now ≡ true)
        × (is_locked (get_instance s.store (instance_id grant)) ≡ false)
        × (grant.audience ≡ owner_only → observers s.store session_key ≡ [])
        × (p.valid_description d ≡ true)
        × (0 < action_id)
        × (action_id ≤ p.max_safe_integer)
        × ((row : PendingAction) × (find?
                (same_action (instance_id grant) action_id)
                (submit_action p cell grant session_key s now new_id action_id d).0.store.actions
              ≡ some row)
            × (action_binding
                  (submit_action p cell grant session_key s now new_id action_id d).0.store
                  row.id
                ≡ or_else (action_binding s.store row.id) (
                    some (record {
                      id = row.id;
                      handle = grant.handle;
                      agent_id = grant.agent_id;
                      session_key = session_key;
                    }))))
  submit_action_accepted s now new_id action_id d h =
      let (granted, unlocked, alone, valid, positive, safe) =
        submit_action_guards s now new_id action_id d h in
      (
        granted,
        unlocked,
        alone,
        valid,
        positive,
        safe,
        submit_action_row s now new_id action_id d h,
      )
