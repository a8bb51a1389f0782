-- ===== src/Kernel/Store/Actions.antt =====
-- The action queue of store.ts: addAction, listActions, getAction, decideAction, bindAction,
-- actionBinding, claimAction, countPending.
-- `new_id` is the row id that AUTOINCREMENT chooses, and `json` the text of JSON.stringify(d).
use gatekeeper_os.Prelude.{
  ℕ, String, string_eq, nat_eq, ◌==◌, Bool, not, ◌&&◌, ◌||◌, List, Option, none, some, leb,
  if◌then◌else◌, find?, filter, update_where, count_where, insert_or_ignore, sort,
}
use gatekeeper_os.Shared.{PendingAction, ActionStatus, pending, applied, failed, action_status_eq}
use gatekeeper_os.Kernel.Store.State.{Store, ActionBinding}

abbrev pub same_action : String → ℕ → PendingAction → Bool
same_action instance_id action_id row =
    row.gatekeeper_instance == instance_id && row.action_id == action_id

abbrev pub new_action : ℕ → String → ℕ → String → ℕ → PendingAction
new_action new_id instance_id action_id json now = record {
  id = new_id;
  gatekeeper_instance = instance_id;
  action_id = action_id;
  description_json = json;
  status = pending;
  submitted_at = now;
  decided_by = none;
  decided_at = none;
  applied_at = none;
  error = none;
}

-- A second submission under the same instance and action id leaves the first row.
unfoldable pub add_action : Store → ℕ → String → ℕ → String → ℕ → Store × Option PendingAction
add_action s new_id instance_id action_id json now =
    let rows =
      insert_or_ignore (same_action instance_id action_id)
        (new_action new_id instance_id action_id json now) s.actions in
    (record s { actions = rows }, find? (same_action instance_id action_id) rows)

abbrev pub by_id : PendingAction → PendingAction → Bool
by_id a b = leb a.id b.id

unfoldable pub list_actions : Store → Bool → List PendingAction
unfolding sort
list_actions s pending_only =
    sort by_id (filter (λ a. not pending_only || a.status == pending) s.actions)

unfoldable pub get_action : Store → ℕ → Option PendingAction
get_action s id = find? (λ a. a.id == id) s.actions

abbrev pub decided : ActionStatus → String → ℕ → Option String → PendingAction → PendingAction
decided status operator_id now error a = record a {
  status = status;
  decided_by = some operator_id;
  decided_at = some now;
  applied_at = if status == applied then some now else a.applied_at;
  error = error;
}

unfoldable pub decide_action : Store → ℕ → ActionStatus → String → Option String → ℕ → Store × Bool
decide_action s id status operator_id error now = (
  record s {
    actions = update_where (λ a. a.id == id) (decided status operator_id now error) s.actions;
  },
  count_where (λ a. a.id == id) s.actions == 1,
)

-- The first binding of an action is kept.
unfoldable pub bind_action : Store → ℕ → String → String → String → Store
bind_action s id handle agent_id session_key = record s {
  action_bindings =
      insert_or_ignore (λ b. b.id == id)
        (record { id = id; handle = handle; agent_id = agent_id; session_key = session_key })
        s.action_bindings;
}

unfoldable pub action_binding : Store → ℕ → Option ActionBinding
action_binding s id = find? (λ b. b.id == id) s.action_bindings

abbrev pub unconfirmed : String
unconfirmed = "Outcome unconfirmed; reconcile before retry"

abbrev pub claimed : String → ℕ → PendingAction → PendingAction
claimed operator_id now a = record a {
  status = failed;
  decided_by = some operator_id;
  decided_at = some now;
  error = some unconfirmed;
}

abbrev pub is_claimable : ℕ → ActionStatus → PendingAction → Bool
is_claimable id expected a = a.id == id && a.status == expected

unfoldable pub claim_action : Store → ℕ → ActionStatus → String → ℕ → Store × Bool
claim_action s id expected operator_id now = (
  record s {
    actions = update_where (is_claimable id expected) (claimed operator_id now) s.actions;
  },
  count_where (is_claimable id expected) s.actions == 1,
)

unfoldable pub count_pending : Store → ℕ
count_pending s = count_where (λ a. a.status == pending) s.actions
