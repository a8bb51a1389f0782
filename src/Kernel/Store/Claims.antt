-- ===== src/Kernel/Store/Claims.antt =====
-- What claims, decisions, bindings and repeated insertions do to the rows of store.ts.
use mathlib.Core.Option
use gatekeeper_os.Prelude.{
  any-of_found, or_else, or_else-any, ℕ, String, string_eq, nat_eq, ◌==◌, ==_iff, ==-refl, true,
  false, [], ◌∷◌, ◌++◌, Option, none, some, ◌≡◌, ◌≢◌, ◌↔◌, ◌∙◌, inl, inr, refl, arith, any,
  any-of_none, find?, find?-sound, find?-none, find?-append, find?-update_where, count_where,
  count_where-Distinct, count_found, Bool-cases, Option-cases, if◌then◌else◌,
}
use gatekeeper_os.Shared.{PendingAction, ActionStatus, failed, action_status_eq, scope_eq}
use gatekeeper_os.Kernel.Store.State.{Store, ActionBinding}
use gatekeeper_os.Kernel.Store.Actions.{
  same_action, new_action, add_action, get_action, decided, decide_action, bind_action,
  action_binding, is_claimable, claimed, claim_action,
}
use gatekeeper_os.Kernel.Store.Requests.{introduction_status_eq}
use gatekeeper_os.Kernel.Store.WellFormed.{WellFormed, run-WellFormed}
use gatekeeper_os.Kernel.Store.Commands.{Command, run}

-- The row of an action is there with the given status.
abbrev pub Stands : Store → ℕ → ActionStatus → Type 0
Stands s id status = (a : PendingAction) × (get_action s id ≡ some a) × (a.status ≡ status)

module _ (s : Store) (w : WellFormed s) (id : ℕ) (expected : ActionStatus) (op : String)
    (now : ℕ) where
  claim_count :
      count_where (is_claimable id expected) s.actions
      ≡ count_found (λ a. a.status == expected) (get_action s id)
  unfolding get_action
  claim_count =
      count_where-Distinct (λ (a : PendingAction). a.id) id (λ a. a.status == expected) s.actions
        w.action_ids

  -- `claimAction` succeeds exactly when the action's row has the expected status.
  pub claim_action_iff : ((claim_action s id expected op now).1 ≡ true) ↔ Stands s id expected
  unfolding claim_action
  claim_action_iff = rw claim_count (elim (Option-cases (get_action s id)) [
    | inl e ↦ rw e (λ h. cc h, λ (a, found, _). cc found)
    | inr (a, e) ↦ rw e (
      λ h. (a, refl, ground (arith, ==_iff a.status expected)),
      λ (b, found, at_b). ground (arith, ==_iff a.status expected),
    )
  ])

pub get-claim_action :
    (s : Store) (id : ℕ) (expected : ActionStatus) (op : String) (now : ℕ) (a : PendingAction)
    → get_action s id ≡ some a
    → a.status ≡ expected
    → get_action (claim_action s id expected op now).0 id ≡ some (claimed op now a)
unfolding claim_action get_action
get-claim_action s id expected op now a found stands =
    find?-update_where (λ (x : PendingAction). x.id == id) (is_claimable id expected)
      (claimed op now) (λ x _. refl) s.actions
    ∙ rw found (
        rw (find?-sound (λ (x : PendingAction). x.id == id) s.actions found)
          (rw ((==_iff a.status expected).1 stands)))

-- Of two claims of one action the second fails, whatever status it expects (the program expects
-- "pending" or "applied"): the first has left the row "failed".
pub claim_action_exclusive :
    (s : Store) (id : ℕ) (expected later : ActionStatus) (op op' : String) (now now' : ℕ)
    → WellFormed s
    → (claim_action s id expected op now).1 ≡ true
    → later ≢ failed
    → (claim_action (claim_action s id expected op now).0 id later op' now').1 ≡ false
claim_action_exclusive s id expected later op op' now now' w first other =
    let (a, found, stands) = (claim_action_iff s w id expected op now).0 first in
    let s' = (claim_action s id expected op now).0 in
    let w' : WellFormed s' =
      unfold run in run-WellFormed (Command.claim_action id expected op now) s tt w in
    let now_failed = get-claim_action s id expected op now a found stands in
    elim (Bool-cases (claim_action s' id later op' now').1) [
      | inl again ↦
          let (b, found', stands') = (claim_action_iff s' w' id later op' now').0 again in
          absurd (other (cc (now_failed, found', stands')))
      | inr none_left ↦ none_left
    ]

-- `decideAction` gives the action's row the new status, decider and error, and leaves the others.
pub get-decide_action :
    (s : Store) (id j : ℕ) (status : ActionStatus) (op : String) (error : Option String) (now : ℕ)
    → get_action (decide_action s id status op error now).0 j
      ≡ Option.map (λ a. if a.id == id then decided status op now error a else a) (get_action s j)
unfolding decide_action get_action
get-decide_action s id j status op error now =
    find?-update_where (λ (a : PendingAction). a.id == j) (λ a. a.id == id) _ (λ x _. refl)
      s.actions

module _ (s : Store) (id : ℕ) (handle agent_id session_key : String) where
  -- An action keeps its first binding: binding it again changes nothing.
  pub action_binding-bind_action :
      action_binding (bind_action s id handle agent_id session_key) id
      ≡ or_else (action_binding s id) (
          some
            (record { id = id; handle = handle; agent_id = agent_id; session_key = session_key }))
  unfolding action_binding bind_action
  action_binding-bind_action = elim (Bool-cases (any (λ b. b.id == id) s.action_bindings)) [
    | inl e ↦ rw e (or_else-any (λ (b : ActionBinding). b.id == id) s.action_bindings _ e)
    | inr e ↦
        rw e
          (find?-append (λ (b : ActionBinding). b.id == id) s.action_bindings _ ∙ rw (==-refl id))
  ]

-- Submitting again under one instance and action id returns the stored row and changes nothing; the
-- first submission stores a pending row and returns it.
pub add_action_cases :
    (s : Store) (new_id : ℕ) (instance_id : String) (action_id : ℕ) (json : String) (now : ℕ)
    → ((r : PendingAction)
        → find? (same_action instance_id action_id) s.actions ≡ some r
        → add_action s new_id instance_id action_id json now ≡ (s, some r))
      × (find? (same_action instance_id action_id) s.actions ≡ none
          → add_action s new_id instance_id action_id json now ≡ (
            record s {
              actions = s.actions ++ new_action new_id instance_id action_id json now ∷ [];
            },
            some (new_action new_id instance_id action_id json now),
          ))
unfolding add_action
add_action_cases s new_id i a json now = (
  λ r found. rw (any-of_found (same_action i a) s.actions found) (rw found),
  λ absent.
      rw (any-of_none (same_action i a) s.actions (find?-none (same_action i a) s.actions absent)) (
        rw (
          find?-append (same_action i a) s.actions (new_action new_id i a json now ∷ []),
          absent,
          ==-refl i,
          ==-refl a,
        )),
)
