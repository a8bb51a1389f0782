-- ===== src/Kernel/Queue.antt =====
-- packages/gkos-kernel/src/approvals.ts: the queue that the kernel hands to a gatekeeper session.
-- An operation returns the state that it leaves, beside the error that it throws, if any.
pub mod Laws
use gatekeeper_os.Prelude.{
  nat_eq, ◌==◌, ltb, ℕ, String, string_eq, Bool, true, false, not, ◌&&◌, ◌||◌, List, [], ◌∷◌,
  Option, none, some, leb, any, includes, is_some, if◌then◌else◌,
}
use Prim.Native.String
use gatekeeper_os.Shared.{
  Grant, GrantStatus, Audience, is_owner_only, ActionDescription, ObservationDescription,
  AuditRecord, AuditKind, is_set, PendingAction,
}
use gatekeeper_os.Kernel.Audit.{write}
use gatekeeper_os.Kernel.Store.State.{Store, InstanceRecord}
use gatekeeper_os.Kernel.Store.Grants.{authorize_grant, set_grant_status}
use gatekeeper_os.Kernel.Store.Actions.{add_action, bind_action}
use gatekeeper_os.Kernel.Store.Audience.{get_instance, lockdown_instance, observers}

-- The state that the queue shares with the kernel.
pub record Os : Type 0 where
  pub store : Store
  pub log : List AuditRecord

pub data QueueError : Type 0 where
  grant_not_active locked_down denied_for_audience invalid_description invalid_audit no_row :
      QueueError

-- The parts of the platform that the queue calls: the schema checks, JSON.stringify and the bound
-- of the safe integers.
pub record Platform : Type 0 where
  pub valid_record : AuditRecord → Bool
  pub valid_description : ActionDescription → Bool
  pub stringify : ActionDescription → String
  pub max_safe_integer : ℕ

-- instanceId of registry.ts.
unfoldable pub instance_id : Grant → String
instance_id g =
    String.◌++◌ g.vendor
      (String.◌++◌ "\0" (String.◌++◌ g.operator_id (String.◌++◌ "\0" g.resource_key)))

-- `store.getInstance(instance)?.lockdown`
abbrev pub is_locked : Option InstanceRecord → Bool
is_locked none = false
is_locked (some r) = not (r.lockdown == 0)

abbrev is_empty {ℓ} : {A : Type ℓ} → List A → Bool
is_empty [] = true
is_empty (x ∷ xs) = false

-- `d.excludeObservers?.some(id => observers.includes(id))`
abbrev excludes : Option (List String) → List String → Bool
excludes none present = false
excludes (some ids) present = any (λ id. includes present id) ids

abbrev pub audience_denies : Grant → List String → ObservationDescription → Bool
audience_denies grant present d =
    not (is_empty present)
    && (is_owner_only grant.audience
        || is_set d.prohibit_all_sharing
        || excludes d.exclude_observers present)

abbrev pub queue_record : Grant → String → String → AuditKind → Option ℕ → String → ℕ → AuditRecord
queue_record grant cell session_key kind action_id title now = record {
  ts = now;
  cell = cell;
  agent_id = some grant.agent_id;
  session_key = some session_key;
  kind = kind;
  vendor = some grant.vendor;
  resource_type = some grant.resource_type;
  handle = some grant.handle;
  action_id = action_id;
  title = title;
  decision = none;
  by = none;
  duration_ms = none;
  ok = some true;
}

unfoldable pub record_audit : Platform → Os → AuditRecord → Os × Option QueueError
unfolding write
record_audit p s r = elim (write p.valid_record s.log r) [
  | none ↦ (s, some invalid_audit)
  | some log ↦ (record s { log = log }, none)
]

-- Both flags that a sharing prohibition sets.
abbrev pub lock_grant : Grant → Store → Store
lock_grant grant s =
    (set_grant_status (lockdown_instance s (instance_id grant)) grant.handle GrantStatus.lockdown).0

-- The closure that forGrant returns.
module _ (p : Platform) (cell : String) (grant : Grant) (session_key : String) where
  unfoldable pub is_granted : Store → ℕ → Bool
  is_granted s now = is_some (authorize_grant s grant grant.agent_id session_key cell now)

  unfoldable pub authorize_observation : Os → ℕ → ObservationDescription → Os × Option QueueError
  authorize_observation s now d =
      if not (is_granted s.store now)
      then (s, some grant_not_active)
      else if is_locked (get_instance s.store (instance_id grant))
      then (s, some locked_down)
      else if audience_denies grant (observers s.store session_key) d
      then (
        record s {
          store = if is_set d.prohibit_all_sharing then lock_grant grant s.store else s.store;
        },
        some denied_for_audience,
      )
      else record_audit p s
          (queue_record grant cell session_key AuditKind.observation none d.title now)

  -- The row that addAction selects back is always there; reading a field of null would throw.
  pub submit_row :
      Os → ActionDescription → ℕ → Store × Option PendingAction → Os × Option QueueError
  submit_row s d now (store, none) = (record s { store = store }, some no_row)
  submit_row s d now (store, some row) =
      record_audit p
        (record s { store = bind_action store row.id grant.handle grant.agent_id session_key })
        (queue_record grant cell session_key AuditKind.action_submit (some row.id) d.title now)

  -- `new_id` is the row id that the database would give to a new row.
  unfoldable pub submit_action : Os → ℕ → ℕ → ℕ → ActionDescription → Os × Option QueueError
  unfolding submit_row
  submit_action s now new_id action_id d =
      if not (is_granted s.store now)
      then (s, some grant_not_active)
      else if is_owner_only grant.audience && not (is_empty (observers s.store session_key))
      then (s, some denied_for_audience)
      else if is_locked (get_instance s.store (instance_id grant))
      then (s, some locked_down)
      else if not (leb action_id p.max_safe_integer)
          || ltb action_id 1
          || not (p.valid_description d)
      then (s, some invalid_description)
      else submit_row s d now
          (add_action s.store new_id (instance_id grant) action_id (p.stringify d) now)
