-- ===== src/Tests/Stores.antt =====
-- The tables of store.ts and the queue of approvals.ts on small inputs.
use gatekeeper_os.Kernel.Store.Authority.{revoked_for_good, authorize_grant_iff, Authorizes}
use gatekeeper_os.Kernel.Store.Claims.{claim_action_exclusive}
use gatekeeper_os.Tests.Samples.{
  sample_instance, sample_store-WellFormed, sample_grant, sample_store,
}
use gatekeeper_os.Kernel.Store.SingleUse.{
  insert_grant_not_renewed, tool_approval_single_use, claim_introduction_exclusive,
}
use gatekeeper_os.Kernel.Store.Lockdown.{lockdown_for_good, taint_for_good, IsLockedDown}
use gatekeeper_os.Kernel.Queue.{instance_id}
use gatekeeper_os.Kernel.Store.Commands.{Command, run_all, run}
use gatekeeper_os.Kernel.Store.Grants.{
  insert_grant, set_grant_status, is_authorized, get_grant, authorize_grant,
}
use gatekeeper_os.Shared.{ActionStatus, revoked, Grant}
use gatekeeper_os.Prelude.{
  ℕ, String, arith, string_eq, ◌↔◌, refl, true, [], false, none, ◌∷◌, ◌≡◌, some, includes,
}
use gatekeeper_os.Kernel.Store.Requests.{add_introduction, claim_introduction}
use gatekeeper_os.Kernel.Store.Actions.{claim_action}
use gatekeeper_os.Kernel.Store.Audience.{
  taint_observer, record_tool_decision, observers, consume_tool_approval, get_instance,
}
use gatekeeper_os.Kernel.Store.State.{IntroductionStatus, empty, Store, Introduction}
use gatekeeper_os.Kernel.Store.WellFormed.{WellFormed-empty, run-WellFormed, WellFormed}

authorize_grant_iff_example :
    (authorize_grant sample_store sample_grant "main" "s" "default" 10 ≡ some sample_grant) ↔ (
      (get_grant sample_store "grant:7k3m9q2p" ≡ some sample_grant)
      × Authorizes sample_grant sample_grant "main" "s" "default" 10)
authorize_grant_iff_example =
    authorize_grant_iff sample_store sample_grant sample_grant "main" "s" "default" 10

authorized_run :
    authorize_grant sample_store sample_grant "main" "s" "default" 10 ≡ some sample_grant
unfolding authorize_grant get_grant is_authorized
authorized_run = refl

other_agent_run : authorize_grant sample_store sample_grant "other" "s" "default" 10 ≡ none
unfolding authorize_grant get_grant is_authorized
other_agent_run = refl

revoked_for_good_example :
    authorize_grant
      (run_all
        (Command.insert_grant sample_grant ∷ [])
        (set_grant_status sample_store "grant:7k3m9q2p" revoked).0)
      sample_grant
      "main"
      "s"
      "default"
      10
    ≡ none
unfolding get_grant
revoked_for_good_example =
    revoked_for_good sample_store sample_grant sample_grant (Command.insert_grant sample_grant ∷ [])
      "main" "s" "default" 10 refl (tt, tt)

abbrev locked_store : Store
locked_store = record sample_store { instances = record sample_instance { lockdown = 1 } ∷ [] }

lockdown_for_good_example :
    IsLockedDown
      (instance_id sample_grant)
      (run_all (Command.upsert_instance sample_instance ∷ []) locked_store)
unfolding get_instance instance_id
lockdown_for_good_example =
    lockdown_for_good (instance_id sample_grant) locked_store
      (Command.upsert_instance sample_instance ∷ [])
      (record sample_instance { lockdown = 1 }, refl, omega arith)

taint_for_good_example :
    includes
      (observers
        (run_all (Command.set_observers "s" [] ∷ []) (taint_observer sample_store "s" "x"))
        "s")
      "x"
    ≡ true
taint_for_good_example = taint_for_good sample_store "s" "x" (Command.set_observers "s" [] ∷ [])

claimed_once : (claim_action sample_store 1 ActionStatus.pending "op" 9).1 ≡ true
unfolding claim_action
claimed_once = refl

claim_action_exclusive_example :
    (claim_action
      (claim_action sample_store 1 ActionStatus.pending "op" 9).0
      1
      ActionStatus.pending
      "other"
      10).1
    ≡ false
claim_action_exclusive_example =
    claim_action_exclusive sample_store 1 ActionStatus.pending ActionStatus.pending "op" "other" 9
      10 sample_store-WellFormed claimed_once (λ e. cc e)

tool_approval_single_use_example :
    ((consume_tool_approval
        (record_tool_decision empty "call" "gk_a" "{}" "allow-once" none 1)
        "call"
        "gk_a"
        "{}").1
      ≡ true)
    × ((consume_tool_approval
          (consume_tool_approval
            (record_tool_decision empty "call" "gk_a" "{}" "allow-once" none 1)
            "call"
            "gk_a"
            "{}").0
          "call"
          "gk_b"
          "[]").1
        ≡ false)
tool_approval_single_use_example =
    tool_approval_single_use empty "call" "gk_a" "gk_a" "gk_b" "{}" "{}" "[]" "allow-once" none 1

abbrev request : Introduction
request = record {
  id = 4;
  agent_id = "main";
  session_key = some "s";
  url = "https://example.com/";
  reason = none;
  status = IntroductionStatus.pending;
  created_at = 2;
  requested_by = none;
}

abbrev request_store : Store
request_store = record empty { introductions = request ∷ [] }

request_store-WellFormed : WellFormed request_store
request_store-WellFormed =
    unfold run add_introduction in
    run-WellFormed (Command.add_introduction 4 "main" (some "s") "https://example.com/" none none 2)
      empty tt WellFormed-empty

claim_introduction_exclusive_example :
    (claim_introduction (claim_introduction request_store 4).0 4).1 ≡ false
unfolding claim_introduction
claim_introduction_exclusive_example =
    claim_introduction_exclusive request_store 4 request_store-WellFormed refl

abbrev revoked_grant : Grant
revoked_grant = record sample_grant { status = revoked }

abbrev revoked_store : Store
revoked_store = record sample_store { grants = revoked_grant ∷ [] }

revoked_store-WellFormed : WellFormed revoked_store
revoked_store-WellFormed = record {
  handles = (tt, tt);
  identities = (tt, tt);
  instances = (tt, tt);
  action_ids = (tt, tt);
  action_keys = (tt, tt);
  runs = tt;
  bindings = tt;
  introduction_ids = tt;
  observers = tt;
  tool_calls = tt;
}

insert_grant_not_renewed_example :
    (insert_grant revoked_store sample_grant ≡ (revoked_store, some revoked_grant))
    × ((agent_id session_key cell_id : String) (now : ℕ)
        → authorize_grant
            (insert_grant revoked_store sample_grant).0
            revoked_grant
            agent_id
            session_key
            cell_id
            now
          ≡ none)
insert_grant_not_renewed_example =
    insert_grant_not_renewed revoked_store sample_grant revoked_grant revoked_store-WellFormed refl
      (λ e. cc e)
