-- ===== src/Shared.antt =====
-- The records that the kernel stores and the descriptions that gatekeepers hand it
-- (packages/gkos-shared/src/grant.ts and gatekeeper.ts). Times are Unix milliseconds.
use gatekeeper_os.Prelude.{
  ℕ, String, Bool, false, true, List, Option, none, some, ◌≡◌, ◌↔◌, arith, Eq, ◌==◌, ==_iff,
  nat_beq, string_eq,
}

pub data GrantStatus : Type 0 where
  pending active revoked lockdown : GrantStatus

abbrev grant_status_code : GrantStatus → ℕ
grant_status_code pending = 0
grant_status_code active = 1
grant_status_code revoked = 2
grant_status_code lockdown = 3

abbrev pub grant_status_beq : GrantStatus → GrantStatus → Bool
grant_status_beq a b = nat_beq (grant_status_code a) (grant_status_code b)

pub grant_status_beq_iff : (a b : GrantStatus) → (grant_status_beq a b ≡ true) ↔ (a ≡ b)
grant_status_beq_iff a b = ground arith

instance abbrev pub grant_status_eq : Eq GrantStatus
grant_status_eq = record { equals = grant_status_beq; equals_iff = grant_status_beq_iff }

-- `"agent"`, or `session:` and a session key.
pub data Scope : Type 0 where
  agent : Scope
  session : String → Scope

abbrev pub scope_beq : Scope → Scope → Bool
scope_beq agent agent = true
scope_beq (session a) (session b) = a == b
scope_beq _ _ = false

pub scope_beq_iff : (a b : Scope) → (scope_beq a b ≡ true) ↔ (a ≡ b)
scope_beq_iff agent agent = ground arith
scope_beq_iff agent (session b) = ground arith
scope_beq_iff (session a) agent = ground arith
scope_beq_iff (session a) (session b) = ground (arith, ==_iff a b)

instance abbrev pub scope_eq : Eq Scope
scope_eq = record { equals = scope_beq; equals_iff = scope_beq_iff }

pub data Audience : Type 0 where
  owner_only shared : Audience

abbrev pub is_owner_only : Audience → Bool
is_owner_only owner_only = true
is_owner_only shared = false

pub data Origin : Type 0 where
  operator agent_request : Origin

-- One agent's access to one resource through one gatekeeper.
pub record Grant : Type 0 where
  pub handle : String
  pub agent_id : String
  pub cell_id : String
  pub vendor : String
  pub resource_type : String
  pub resource_key : String
  pub operator_id : String
  pub scope : Scope
  pub audience : Audience
  pub status : GrantStatus
  pub created_at : ℕ
  pub created_by : Origin
  pub expires_at : Option ℕ
  pub title : Option String

pub data ActionStatus : Type 0 where
  pending applied rejected reverted failed : ActionStatus

abbrev action_status_code : ActionStatus → ℕ
action_status_code pending = 0
action_status_code applied = 1
action_status_code rejected = 2
action_status_code reverted = 3
action_status_code failed = 4

abbrev pub action_status_beq : ActionStatus → ActionStatus → Bool
action_status_beq a b = nat_beq (action_status_code a) (action_status_code b)

pub action_status_beq_iff : (a b : ActionStatus) → (action_status_beq a b ≡ true) ↔ (a ≡ b)
action_status_beq_iff a b = ground arith

instance abbrev pub action_status_eq : Eq ActionStatus
action_status_eq = record { equals = action_status_beq; equals_iff = action_status_beq_iff }

-- A queued action awaiting a human decision.
pub record PendingAction : Type 0 where
  pub id : ℕ
  pub gatekeeper_instance : String
  pub action_id : ℕ
  pub description_json : String
  pub status : ActionStatus
  pub submitted_at : ℕ
  pub decided_by : Option String
  pub decided_at : Option ℕ
  pub applied_at : Option ℕ
  pub error : Option String

pub record ActionKind : Type 0 where
  pub tag : String
  pub label : String

-- A side-effecting action, described before it is performed. An absent flag is `none`; the
-- structured `preview` is carried as its JSON text.
pub record ActionDescription : Type 0 where
  pub title : String
  pub description : String
  pub action_kind : Option ActionKind
  pub auto_approvable : Option Bool
  pub implements_revert : Bool
  pub await_decision : Option Bool
  pub preview : Option String

pub record ObservationDescription : Type 0 where
  pub title : String
  pub description : String
  pub prohibit_all_sharing : Option Bool
  pub exclude_observers : Option (List String)

pub data AuditKind : Type 0 where
  observation action_submit action_decide action_apply action_revert grant auth tool install
        egress :
      AuditKind

-- One line of the audit log; `ts` is the time that the source prints as an ISO date.
pub record AuditRecord : Type 0 where
  pub ts : ℕ
  pub cell : String
  pub agent_id : Option String
  pub session_key : Option String
  pub kind : AuditKind
  pub vendor : Option String
  pub resource_type : Option String
  pub handle : Option String
  pub action_id : Option ℕ
  pub title : String
  pub decision : Option String
  pub by : Option String
  pub duration_ms : Option ℕ
  pub ok : Option Bool

-- Truth of an optional flag: `undefined` is false.
abbrev pub is_set : Option Bool → Bool
is_set none = false
is_set (some b) = b
