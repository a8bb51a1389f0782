-- ===== src/Tests/Samples.antt =====
-- A cell with one grant, one resource and one queued action.
use gatekeeper_os.Kernel.Store.Actions.{new_action}
use gatekeeper_os.Prelude.{none, ◌∷◌, false, true, [], some}
use gatekeeper_os.Kernel.Coordinator.{Turn, Host, World}
use gatekeeper_os.Kernel.Queue.{instance_id, Platform, Os}
use gatekeeper_os.Kernel.Store.State.{empty, InstanceRecord, Store}
use gatekeeper_os.Shared.{
  Origin, GrantStatus, owner_only, agent, ActionDescription, Grant, PendingAction,
}
use gatekeeper_os.Kernel.Store.WellFormed.{WellFormed}

abbrev pub sample_grant : Grant
sample_grant = record {
  handle = "grant:7k3m9q2p";
  agent_id = "main";
  cell_id = "default";
  vendor = "fs";
  resource_type = "directory";
  resource_key = "/srv/notes";
  operator_id = "op";
  scope = agent;
  audience = owner_only;
  status = GrantStatus.active;
  created_at = 1;
  created_by = Origin.operator;
  expires_at = none;
  title = none;
}

abbrev pub sample_instance : InstanceRecord
sample_instance = record {
  id = instance_id sample_grant;
  vendor = "fs";
  resource_key = "/srv/notes";
  operator_id = "op";
  observer_strategy = "private-only";
  lockdown = 0;
}

abbrev pub sample_description : ActionDescription
sample_description = record {
  title = "Write a note";
  description = "";
  action_kind = some (record { tag = "write"; label = "Write" });
  auto_approvable = some true;
  implements_revert = true;
  await_decision = none;
  preview = none;
}

abbrev pub sample_action : PendingAction
sample_action = new_action 1 "fs" 1 "{}" 5

abbrev pub sample_store : Store
sample_store = record empty {
  grants = sample_grant ∷ [];
  instances = sample_instance ∷ [];
  actions = sample_action ∷ [];
}

abbrev pub sample_os : Os
sample_os = record { store = sample_store; log = [] }

abbrev pub sample_platform : Platform
sample_platform = record {
  valid_record = λ r. true;
  valid_description = λ d. true;
  stringify = λ d. "{}";
  max_safe_integer = 9007199254740991;
}

abbrev pub sample_host : Host
sample_host = record {
  cell = "default";
  valid_record = λ r. true;
  description = λ json. some sample_description;
}

-- The authority is found, the call succeeds, and no other task runs.
abbrev pub sample_turn : Turn
sample_turn = record {
  stopped = false;
  queued = λ s. s;
  resolving = λ s. s;
  resolve = some (record { has_revert = true; authorize = λ s. true });
  during = λ s. s;
  succeeds = true;
  restart = false;
  now = 9;
}

abbrev pub sample_world : World
sample_world = record { os = sample_os; effects = []; restarts = [] }

pub sample_store-WellFormed : WellFormed sample_store
sample_store-WellFormed = record {
  handles = (tt, tt);
  identities = (tt, tt);
  instances = (tt, tt);
  action_ids = (tt, tt);
  action_keys = (tt, tt);
  runs = tt;
  bindings = tt;
  introduction_ids = tt;
  observers = tt;
  tool_calls = tt;
}
