-- ===== src/Kernel/Store/Audience.antt =====
-- The instances, observers and recorded tool decisions of store.ts: upsertInstance, getInstance,
-- lockdownInstance, setObservers, observers, taintObserver, recordToolDecision,
-- consumeToolApproval. `params_json` is the text of JSON.stringify(params).
use text.Mathlib.Text.{starts_with}
use gatekeeper_os.Prelude.{
  ℕ, String, string_eq, ◌==◌, Bool, true, false, not, ◌&&◌, List, [], ◌∷◌, ◌++◌, map, Option, none,
  some, max, find?, filter, update_where, upsert, delete_where, insert_or_ignore, sort, string_leb,
}
use gatekeeper_os.Kernel.Store.State.{Store, InstanceRecord, Observer, ToolDecision}

abbrev pub refreshed : InstanceRecord → InstanceRecord → InstanceRecord
refreshed r row = record row {
  observer_strategy = r.observer_strategy;
  lockdown = max row.lockdown r.lockdown;
}

unfoldable pub upsert_instance : Store → InstanceRecord → Store
upsert_instance s r = record s {
  instances = upsert (λ row. row.id == r.id) (refreshed r) r s.instances;
}

unfoldable pub get_instance : Store → String → Option InstanceRecord
get_instance s id = find? (λ row. row.id == id) s.instances

unfoldable pub lockdown_instance : Store → String → Store
lockdown_instance s id = record s {
  instances = update_where (λ row. row.id == id) (λ row. record row { lockdown = 1 }) s.instances;
}

abbrev pub is_observer : String → String → Observer → Bool
is_observer session_key observer_id row =
    row.session_key == session_key && row.observer_id == observer_id

abbrev pub untainted : String → String → Observer
untainted session_key observer_id = record {
  session_key = session_key;
  observer_id = observer_id;
  tainted = false;
}

-- The loop of INSERT OR IGNORE statements.
unfoldable pub add_observers : String → List String → List Observer → List Observer
add_observers session_key [] rows = rows
add_observers session_key (id ∷ ids) rows =
    add_observers session_key ids
      (insert_or_ignore (is_observer session_key id) (untainted session_key id) rows)

-- One transaction: the untainted observers of the session are replaced.
unfoldable pub set_observers : Store → String → List String → Store
unfolding add_observers
set_observers s session_key ids = record s {
  observers =
      add_observers session_key ids
        (delete_where (λ row. row.session_key == session_key && not row.tainted) s.observers);
}

unfoldable pub observers : Store → String → List String
unfolding sort string_leb
observers s session_key = sort string_leb (
    map (λ (row : Observer). row.observer_id)
      (filter (λ row. row.session_key == session_key) s.observers))

unfoldable pub taint_observer : Store → String → String → Store
taint_observer s session_key observer_id = record s {
  observers =
      upsert (is_observer session_key observer_id) (λ row. record row { tainted = true })
        (record { session_key = session_key; observer_id = observer_id; tainted = true })
        s.observers;
}

-- INSERT OR REPLACE: the former row of the call is deleted first.
unfoldable pub record_tool_decision :
    Store → String → String → String → String → Option String → ℕ → Store
record_tool_decision s tool_call_id tool params_json decision operator_id now = record s {
  approval_decisions =
      delete_where (λ row. row.tool_call_id == tool_call_id) s.approval_decisions
      ++ record {
        tool_call_id = tool_call_id;
        tool = tool;
        params_json = params_json;
        decision = decision;
        operator_id = operator_id;
        decided_at = now;
      }
        ∷ [];
}

abbrev pub allows : String → String → Option ToolDecision → Bool
allows tool params_json none = false
allows tool params_json (some r) =
    r.tool == tool && r.params_json == params_json && starts_with r.decision "allow"

-- One transaction: the row is read, deleted whatever it says, and then judged.
unfoldable pub consume_tool_approval : Store → String → String → String → Store × Bool
consume_tool_approval s tool_call_id tool params_json = (
  record s {
    approval_decisions =
        delete_where (λ row. row.tool_call_id == tool_call_id) s.approval_decisions;
  },
  allows tool params_json (find? (λ row. row.tool_call_id == tool_call_id) s.approval_decisions),
)
