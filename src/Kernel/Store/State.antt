-- ===== src/Kernel/Store/State.antt =====
-- The tables of store.ts, one list of rows each, in the order in which the rows were inserted.
use gatekeeper_os.Prelude.{ℕ, String, Bool, List, [], Option}
use gatekeeper_os.Shared.{Grant, PendingAction}

pub record InstanceRecord : Type 0 where
  pub id : String
  pub vendor : String
  pub resource_key : String
  pub operator_id : String
  pub observer_strategy : String
  pub lockdown : ℕ

pub record ActionBinding : Type 0 where
  pub id : ℕ
  pub handle : String
  pub agent_id : String
  pub session_key : String

pub data IntroductionStatus : Type 0 where
  pending resolving granted rejected failed : IntroductionStatus

pub record Introduction : Type 0 where
  pub id : ℕ
  pub agent_id : String
  pub session_key : Option String
  pub url : String
  pub reason : Option String
  pub status : IntroductionStatus
  pub created_at : ℕ
  pub requested_by : Option String

pub record Observer : Type 0 where
  pub session_key : String
  pub observer_id : String
  pub tainted : Bool

pub record ToolDecision : Type 0 where
  pub tool_call_id : String
  pub tool : String
  pub params_json : String
  pub decision : String
  pub operator_id : Option String
  pub decided_at : ℕ

pub record Notification : Type 0 where
  pub run_id : String
  pub created_at : ℕ

pub record Store : Type 0 where
  pub grants : List Grant
  pub instances : List InstanceRecord
  pub actions : List PendingAction
  pub notifications : List Notification
  pub action_bindings : List ActionBinding
  pub introductions : List Introduction
  pub observers : List Observer
  pub approval_decisions : List ToolDecision

-- The tables as SCHEMA creates them.
abbrev pub empty : Store
empty = record {
  grants = [];
  instances = [];
  actions = [];
  notifications = [];
  action_bindings = [];
  introductions = [];
  observers = [];
  approval_decisions = [];
}
