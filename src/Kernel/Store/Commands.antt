-- ===== src/Kernel/Store/Commands.antt =====
-- Every operation of store.ts that changes a table, as one type, and sequences of them.
use gatekeeper_os.Prelude.{ℕ, String, List, [], ◌∷◌, Option, All}
use gatekeeper_os.Shared.{Grant, GrantStatus, ActionStatus}
use gatekeeper_os.Kernel.Store.State.{Store, InstanceRecord, IntroductionStatus}
use gatekeeper_os.Kernel.Store.Grants
use gatekeeper_os.Kernel.Store.Actions
use gatekeeper_os.Kernel.Store.Requests
use gatekeeper_os.Kernel.Store.Audience

pub data Command : Type 0 where
  insert_grant : Grant → Command
  set_grant_status : String → GrantStatus → Command
  upsert_instance : InstanceRecord → Command
  lockdown_instance : String → Command
  add_introduction :
      (new_id : ℕ) → String → Option String → String → Option String → Option String → ℕ → Command
  claim_introduction : ℕ → Command
  finish_introduction : ℕ → IntroductionStatus → Command
  claim_notification : String → ℕ → Command
  add_action : (new_id : ℕ) → String → ℕ → String → ℕ → Command
  decide_action : ℕ → ActionStatus → String → Option String → ℕ → Command
  bind_action : ℕ → String → String → String → Command
  claim_action : ℕ → ActionStatus → String → ℕ → Command
  set_observers : String → List String → Command
  taint_observer : String → String → Command
  record_tool_decision : String → String → String → String → Option String → ℕ → Command
  consume_tool_approval : String → String → String → Command

unfoldable pub run : Command → Store → Store
unfolding Grants.insert_grant Grants.set_grant_status Audience.upsert_instance
    Audience.lockdown_instance Requests.add_introduction Requests.claim_introduction
    Requests.finish_introduction Requests.claim_notification Actions.add_action
    Actions.decide_action Actions.bind_action Actions.claim_action Audience.set_observers
    Audience.taint_observer Audience.record_tool_decision Audience.consume_tool_approval
run (insert_grant g) s = (Grants.insert_grant s g).0
run (set_grant_status handle status) s = (Grants.set_grant_status s handle status).0
run (upsert_instance r) s = Audience.upsert_instance s r
run (lockdown_instance id) s = Audience.lockdown_instance s id
run (add_introduction new_id a k u r q now) s = (Requests.add_introduction s new_id a k u r q now).0
run (claim_introduction id) s = (Requests.claim_introduction s id).0
run (finish_introduction id status) s = Requests.finish_introduction s id status
run (claim_notification run_id now) s = (Requests.claim_notification s run_id now).0
run (add_action new_id i a json now) s = (Actions.add_action s new_id i a json now).0
run (decide_action id status op error now) s = (Actions.decide_action s id status op error now).0
run (bind_action id handle a k) s = Actions.bind_action s id handle a k
run (claim_action id expected op now) s = (Actions.claim_action s id expected op now).0
run (set_observers k ids) s = Audience.set_observers s k ids
run (taint_observer k id) s = Audience.taint_observer s k id
run (record_tool_decision c t p d op now) s = Audience.record_tool_decision s c t p d op now
run (consume_tool_approval c t p) s = (Audience.consume_tool_approval s c t p).0

unfoldable pub run_all : List Command → Store → Store
run_all [] s = s
run_all (c ∷ cs) s = run_all cs (run c s)

-- What every command keeps, a sequence of commands keeps.
pub run_all_keeps {ℓ} :
    (P : Store → Type ℓ) (Allowed : Command → Type 0)
    → ((c : Command) (s : Store) → Allowed c → P s → P (run c s))
    → (cs : List Command) (s : Store) → All Allowed cs
    → P s
    → P (run_all cs s)
unfolding run_all
run_all_keeps P Allowed keep [] s _ h = h
run_all_keeps P Allowed keep (c ∷ cs) s (a, as_allowed) h =
    run_all_keeps P Allowed keep cs (run c s) as_allowed (keep c s a h)
