-- ===== src/Kernel/Store/WellFormed.antt =====
-- The primary keys and unique indexes of the tables hold, and every operation keeps them.
use gatekeeper_os.Prelude.{
  ℕ, String, string_eq, nat_eq, ◌==◌, ==_iff, Bool, true, false, List, [], ◌∷◌, ◌++◌, ◌≡◌, ◌≢◌, ◌↔◌,
  refl, arith, All, All-mono, filter-All, Distinct, Distinct-append, Distinct-filter,
  Distinct-update_where, Distinct-insert_or_ignore, Distinct-upsert, insert_or_ignore, update_where,
  delete_where, any, Bool-cases, inl, inr,
}
use gatekeeper_os.Shared.{Grant, PendingAction, Scope, scope_eq}
use gatekeeper_os.Kernel.Store.State.{
  Store, InstanceRecord, Observer, Notification, ActionBinding, Introduction, ToolDecision, empty,
}
use gatekeeper_os.Kernel.Store.Grants.{same_identity, grants_clash}
use gatekeeper_os.Kernel.Store.Actions.{same_action, new_action, decided, claimed, is_claimable}
use gatekeeper_os.Kernel.Store.Audience.{is_observer, untainted, add_observers}
use gatekeeper_os.Kernel.Store.Commands.{Command, run}

abbrev pub identity : Grant → String × String × String × String × String × Scope
identity g = (g.agent_id, g.vendor, g.resource_type, g.resource_key, g.operator_id, g.scope)

pub same_identity_iff : (a b : Grant) → (same_identity a b ≡ true) ↔ (identity a ≡ identity b)
same_identity_iff a b = ground (
  arith,
  ==_iff a.agent_id b.agent_id,
  ==_iff a.vendor b.vendor,
  ==_iff a.resource_type b.resource_type,
  ==_iff a.resource_key b.resource_key,
  ==_iff a.operator_id b.operator_id,
  ==_iff a.scope b.scope,
)

-- The unique columns of an action and of an observer are two together.
abbrev pub action_key : PendingAction → String × ℕ
action_key a = (a.gatekeeper_instance, a.action_id)

abbrev pub observer_key : Observer → String × String
observer_key o = (o.session_key, o.observer_id)

pub record WellFormed (s : Store) : Type 0 where
  pub handles : Distinct (λ (g : Grant). g.handle) s.grants
  pub identities : Distinct identity s.grants
  pub instances : Distinct (λ (r : InstanceRecord). r.id) s.instances
  pub action_ids : Distinct (λ (a : PendingAction). a.id) s.actions
  pub action_keys : Distinct action_key s.actions
  pub runs : Distinct (λ (n : Notification). n.run_id) s.notifications
  pub bindings : Distinct (λ (b : ActionBinding). b.id) s.action_bindings
  pub introduction_ids : Distinct (λ (i : Introduction). i.id) s.introductions
  pub observers : Distinct observer_key s.observers
  pub tool_calls : Distinct (λ (d : ToolDecision). d.tool_call_id) s.approval_decisions

-- AUTOINCREMENT gives a row id that no row has.
abbrev pub HasFreshId : Command → Store → Type 0
HasFreshId (Command.add_action new_id _ _ _ _) s = All (λ a. a.id ≢ new_id) s.actions
HasFreshId (Command.add_introduction new_id _ _ _ _ _ _) s =
    All (λ i. i.id ≢ new_id) s.introductions
HasFreshId _ s = Unit

pub WellFormed-empty : WellFormed empty
WellFormed-empty = record {
  handles = tt;
  identities = tt;
  instances = tt;
  action_ids = tt;
  action_keys = tt;
  runs = tt;
  bindings = tt;
  introduction_ids = tt;
  observers = tt;
  tool_calls = tt;
}

module _ {s : Store} (w : WellFormed s) where
  with_grants :
      (rows : List Grant)
      → Distinct (λ (g : Grant). g.handle) rows
      → Distinct identity rows
      → WellFormed (record s { grants = rows })
  with_grants rows h i = assumption

  with_instances :
      (rows : List InstanceRecord)
      → Distinct (λ (r : InstanceRecord). r.id) rows
      → WellFormed (record s { instances = rows })
  with_instances rows h = assumption

  with_actions :
      (rows : List PendingAction)
      → Distinct (λ (a : PendingAction). a.id) rows
      → Distinct action_key rows
      → WellFormed (record s { actions = rows })
  with_actions rows h k = assumption

  update_actions :
      (q : PendingAction → Bool) (f : PendingAction → PendingAction)
      → ((a : PendingAction) → (f a).id ≡ a.id)
      → ((a : PendingAction) → action_key (f a) ≡ action_key a)
      → WellFormed (record s { actions = update_where q f s.actions })
  update_actions q f same_id same_key =
      with_actions _
        (Distinct-update_where (λ (a : PendingAction). a.id) q f same_id s.actions w.action_ids)
        (Distinct-update_where action_key q f same_key s.actions w.action_keys)

  with_introductions :
      (rows : List Introduction)
      → Distinct (λ (i : Introduction). i.id) rows
      → WellFormed (record s { introductions = rows })
  with_introductions rows h = assumption

  with_observers :
      (rows : List Observer)
      → Distinct observer_key rows
      → WellFormed (record s { observers = rows })
  with_observers rows h = assumption

  with_decisions :
      (rows : List ToolDecision)
      → Distinct (λ (d : ToolDecision). d.tool_call_id) rows
      → WellFormed (record s { approval_decisions = rows })
  with_decisions rows h = assumption

  with_notifications :
      (rows : List Notification)
      → Distinct (λ (n : Notification). n.run_id) rows
      → WellFormed (record s { notifications = rows })
  with_notifications rows h = assumption

  with_bindings :
      (rows : List ActionBinding)
      → Distinct (λ (b : ActionBinding). b.id) rows
      → WellFormed (record s { action_bindings = rows })
  with_bindings rows h = assumption

-- Where a Boolean test decides that two keys are one, a test that fails keeps them apart.
ne_of_false {ℓ} : {K : Type ℓ} {b : Bool} {x y : K} → ((b ≡ true) ↔ (x ≡ y)) → b ≡ false → x ≢ y
ne_of_false h e p = cc (h.1 p, e)

insert_grant-WellFormed :
    (s : Store) (g : Grant) → WellFormed s → WellFormed (run (Command.insert_grant g) s)
unfolding run
insert_grant-WellFormed s g w = assumption (
  Distinct-insert_or_ignore (λ (r : Grant). r.handle) (grants_clash g) g
      (λ r apart. ne_of_false (==_iff r.handle g.handle) (ground (arith, apart))) s.grants
      w.handles,
  Distinct-insert_or_ignore identity (grants_clash g) g
      (λ r apart. ne_of_false (same_identity_iff r g) (ground (arith, apart))) s.grants
      w.identities,
)

same_action_iff :
    (instance_id : String) (action_id : ℕ) (a : PendingAction)
    → (same_action instance_id action_id a ≡ true) ↔ (action_key a ≡ (instance_id, action_id))
same_action_iff instance_id action_id a =
    ground (arith, ==_iff a.gatekeeper_instance instance_id, ==_iff a.action_id action_id)

is_observer_iff :
    (session_key observer_id : String) (o : Observer)
    → (is_observer session_key observer_id o ≡ true) ↔ (observer_key o ≡ (session_key, observer_id))
is_observer_iff session_key observer_id o =
    ground (arith, ==_iff o.session_key session_key, ==_iff o.observer_id observer_id)

Distinct-add_observers :
    (session_key : String) (ids : List String) (rows : List Observer)
    → Distinct observer_key rows
    → Distinct observer_key (add_observers session_key ids rows)
unfolding add_observers
Distinct-add_observers session_key [] rows d = d
Distinct-add_observers session_key (id ∷ ids) rows d = Distinct-add_observers session_key ids _ (
    Distinct-insert_or_ignore observer_key (is_observer session_key id) (untainted session_key id)
      (λ o. ne_of_false (is_observer_iff session_key id o)) rows d)

add_action_ids :
    (new_id : ℕ) (i : String) (a : ℕ) (json : String) (now : ℕ) (rows : List PendingAction)
    → All (λ r. r.id ≢ new_id) rows
    → Distinct (λ (r : PendingAction). r.id) rows
    → Distinct
        (λ (r : PendingAction). r.id)
        (insert_or_ignore (same_action i a) (new_action new_id i a json now) rows)
add_action_ids new_id i a json now rows fresh d = elim (Bool-cases (any (same_action i a) rows)) [
  | inl e ↦ rw e d
  | inr e ↦ rw e (Distinct-append (λ (r : PendingAction). r.id) rows _ d fresh)
]

-- The rows that INSERT OR REPLACE leaves have other keys than the new one.
replaced_tool_calls :
    (new : ToolDecision) (rows : List ToolDecision)
    → Distinct (λ (d : ToolDecision). d.tool_call_id) rows
    → Distinct
        (λ (d : ToolDecision). d.tool_call_id)
        (delete_where (λ row. row.tool_call_id == new.tool_call_id) rows ++ new ∷ [])
replaced_tool_calls new rows d =
    Distinct-append (λ (d : ToolDecision). d.tool_call_id) _ new
      (Distinct-filter (λ (d : ToolDecision). d.tool_call_id) _ rows d)
      (All-mono
        (λ (x : ToolDecision) e.
          ne_of_false (==_iff x.tool_call_id new.tool_call_id) (ground arith))
        _ (filter-All _ rows))

-- Whatever operation runs, with the row ids that the database gives, every primary key and every
-- unique index of the tables stays unique.
pub run-WellFormed :
    (c : Command) (s : Store) → HasFreshId c s → WellFormed s → WellFormed (run c s)
unfolding run
run-WellFormed (Command.insert_grant g) s _ w = insert_grant-WellFormed s g w
run-WellFormed (Command.set_grant_status handle status) s _ w =
    let q = λ (g : Grant). g.handle == handle in
    let f = λ (g : Grant). record g { status = status } in
    with_grants w _
      (Distinct-update_where (λ (g : Grant). g.handle) q f (λ g. refl) s.grants w.handles)
      (Distinct-update_where identity q f (λ g. refl) s.grants w.identities)
run-WellFormed (Command.upsert_instance r) s _ w = with_instances w _ (
    Distinct-upsert (λ (x : InstanceRecord). x.id) _ _ r (λ x. ne_of_false (==_iff x.id r.id))
      (λ x. refl) s.instances w.instances)
run-WellFormed (Command.lockdown_instance id) s _ w =
    with_instances w _
      (Distinct-update_where (λ (x : InstanceRecord). x.id) _ _ (λ x. refl) s.instances w.instances)
run-WellFormed (Command.add_introduction new_id a k u r q now) s fresh w =
    with_introductions w _
      (Distinct-append (λ (i : Introduction). i.id) s.introductions _ w.introduction_ids fresh)
run-WellFormed (Command.claim_introduction id) s _ w = with_introductions w _ (
    Distinct-update_where (λ (i : Introduction). i.id) _ _ (λ x. refl) s.introductions
      w.introduction_ids)
run-WellFormed (Command.finish_introduction id status) s _ w = with_introductions w _ (
    Distinct-update_where (λ (i : Introduction). i.id) _ _ (λ x. refl) s.introductions
      w.introduction_ids)
run-WellFormed (Command.claim_notification run_id now) s _ w = with_notifications w _ (
    Distinct-insert_or_ignore (λ (n : Notification). n.run_id) _ _
      (λ n. ne_of_false (==_iff n.run_id run_id)) s.notifications w.runs)
run-WellFormed (Command.add_action new_id i a json now) s fresh w =
    with_actions w _ (add_action_ids new_id i a json now s.actions fresh w.action_ids) (
      Distinct-insert_or_ignore action_key (same_action i a) (new_action new_id i a json now)
        (λ x. ne_of_false (same_action_iff i a x)) s.actions w.action_keys)
run-WellFormed (Command.decide_action id status op error now) s _ w =
    update_actions w (λ a. a.id == id) (decided status op now error) (λ a. refl) (λ a. refl)
run-WellFormed (Command.bind_action id handle a k) s _ w = with_bindings w _ (
    Distinct-insert_or_ignore (λ (b : ActionBinding). b.id) _ _ (λ b. ne_of_false (==_iff b.id id))
      s.action_bindings w.bindings)
run-WellFormed (Command.claim_action id expected op now) s _ w =
    update_actions w (is_claimable id expected) (claimed op now) (λ a. refl) (λ a. refl)
run-WellFormed (Command.set_observers k ids) s _ w =
    with_observers w _
      (Distinct-add_observers k ids _ (Distinct-filter observer_key _ s.observers w.observers))
run-WellFormed (Command.taint_observer k id) s _ w = with_observers w _ (
    Distinct-upsert observer_key _ _ _ (λ o. ne_of_false (is_observer_iff k id o)) (λ o. refl)
      s.observers w.observers)
run-WellFormed (Command.record_tool_decision c t p d op now) s _ w =
    with_decisions w _ (replaced_tool_calls _ s.approval_decisions w.tool_calls)
run-WellFormed (Command.consume_tool_approval c t p) s _ w =
    with_decisions w _
      (Distinct-filter (λ (d : ToolDecision). d.tool_call_id) _ s.approval_decisions w.tool_calls)
