-- ===== src/Kernel/Coordinator/Overlap.antt =====
-- Two decisions of actions.ts that overlap: one runs while the call of the other is awaited.
use gatekeeper_os.Kernel.Store.WellFormed.{WellFormed}
use gatekeeper_os.Prelude.{
  not, ℕ, String, nat_eq, ◌==◌, ==_iff, true, false, ◌&&◌, Option, none, some, ◌≡◌, ◌≢◌, ◌∙◌, inl,
  inr, refl, any, Bool-cases, Option-cases, find?-update_where,
}
use gatekeeper_os.Shared.{ActionStatus, PendingAction, AuditKind, failed, action_status_eq}
use gatekeeper_os.Kernel.Audit.{write}
use gatekeeper_os.Kernel.Store.State.{Store}
use gatekeeper_os.Kernel.Store.Actions.{
  get_action, claim_action, claimed, is_claimable, decide_action, list_actions,
}
use gatekeeper_os.Kernel.Store.Claims.{Stands, get-decide_action}
use gatekeeper_os.Kernel.Coordinator.{
  perform, perform_action, authorized, with_authority, claim, effect, Host, Turn, Verb, World,
  Authority, not_eligible, expected, outcome, is_apply, is_revert, blocks, may_revert, verb_text,
  action_record,
}
use gatekeeper_os.Kernel.Coordinator.Laws.{effect_cases}
use gatekeeper_os.Kernel.Coordinator.Once.{KeepsFailed, found_id}

-- A claim of any action leaves a failed row failed.
claim_action-failed :
    (s : Store) (id j : ℕ) (status : ActionStatus) (op : String) (now : ℕ)
    → Stands s id failed
    → Stands (claim_action s j status op now).0 id failed
unfolding claim_action get_action
claim_action-failed s id j status op now (b, found, at_b) =
    let step =
      find?-update_where (λ (x : PendingAction). x.id == id) (is_claimable j status)
        (claimed op now) (λ x _. refl) s.actions in
    elim (Bool-cases (is_claimable j status b)) [
      | inl e ↦ (claimed op now b, step ∙ rw found (rw e refl), refl)
      | inr e ↦ (b, step ∙ rw found (rw e refl), at_b)
    ]

-- Deciding another action leaves the row as it is.
decide_action-failed :
    (s : Store) (id j : ℕ) (status : ActionStatus) (op : String) (now : ℕ)
    → j ≢ id
    → Stands s id failed
    → Stands (decide_action s j status op none now).0 id failed
decide_action-failed s id j status op now other (b, found, at_b) =
    let apart : (b.id == j) ≡ false = elim (Bool-cases (b.id == j)) [
      | inl e ↦ absurd (other (cc ((==_iff b.id j).0 e, found_id s id b found)))
      | inr e ↦ e
    ] in
    (b, get-decide_action s j id status op none now ∙ rw found (rw apart refl), at_b)

-- A decision on another action, from the authority check on.
module _ (h : Host) (t : Turn) (action : PendingAction) (verb : Verb) (op : String) (id : ℕ)
    (other : action.id ≢ id) (during : KeepsFailed t.during id) where
  effect-failed :
      (w : World)
      → Stands w.os.store id failed
      → Stands (effect h t action verb op w).0.os.store id failed
  effect-failed w stands =
      let after = during w.os stands in
      elim (effect_cases h t action verb op w).1 [
        | inl (kept, _) ↦ rw kept after
        | inr decided ↦ rw decided (
            decide_action-failed (t.during w.os).store id action.id (outcome verb) op t.now other
              after)
      ]

  claim-failed :
      (w : World)
      → Stands w.os.store id failed
      → Stands (claim h t action verb op w).0.os.store id failed
  unfolding claim
  claim-failed w stands =
      let left = claim_action-failed w.os.store id action.id (expected verb) op t.now stands in
      elim (Bool-cases (claim_action w.os.store action.id (expected verb) op t.now).1) [
        | inr e ↦ rw e left
        | inl e ↦
            elim (Option-cases (
              write h.valid_record w.os.log (
                action_record h.cell AuditKind.action_decide action.id "Action decision"
                  (verb_text verb) op true t.now))) [
                    | inl refused ↦ rw (e, refused) left
                    | inr (log, taken) ↦ rw (e, taken) (effect-failed _ left)
                  ]
      ]

  with_authority-failed :
      (o : Option Authority) (w : World)
      → Stands w.os.store id failed
      → Stands (with_authority h t action verb op o w).0.os.store id failed
  unfolding with_authority
  with_authority-failed none w stands = stands
  with_authority-failed (some a) w stands = elim (Bool-cases (is_revert verb && not a.has_revert)) [
    | inl lacks ↦ rw lacks stands
    | inr has ↦ elim (Bool-cases (a.authorize w.os)) [
      | inr changed ↦ rw (has, changed) stands
      | inl holds ↦ rw (has, holds) (claim-failed w stands)
    ]
  ]

-- No decision is open to an action whose call has begun.
pub failed_refuses :
    (h : Host) (t : Turn) (id : ℕ) (verb : Verb) (op : String) (w : World)
    → Stands w.os.store id failed
    → perform h t id verb op w ≡ (w, some not_eligible)
unfolding perform perform_action
failed_refuses h t id Verb.apply op w (b, found, at_b) = rw found (rw at_b refl)
failed_refuses h t id Verb.reject op w (b, found, at_b) = rw found (rw at_b refl)
failed_refuses h t id Verb.revert op w (b, found, at_b) = rw found (rw at_b refl)

module _ (h : Host) (t : Turn) (verb : Verb) (op : String) (id : ℕ)
    (resolving : KeepsFailed t.resolving id) (during : KeepsFailed t.during id) where
  perform_action-failed :
      (w : World) (o : Option PendingAction)
      → ((a : PendingAction) → o ≡ some a → a.id ≢ id)
      → Stands w.os.store id failed
      → Stands (perform_action h t verb op w o).0.os.store id failed
  unfolding perform_action authorized
  perform_action-failed w none other stands = stands
  perform_action-failed w (some a) other stands = elim (Bool-cases (a.status == expected verb)) [
    | inr e ↦ rw e stands
    | inl e ↦ elim (Bool-cases (is_apply verb && any (blocks a) (list_actions w.os.store false))) [
      | inl f ↦ rw (e, f) stands
      | inr f ↦ elim (Bool-cases (may_revert verb (h.description a.description_json))) [
        | inr g ↦ rw (e, f, g) stands
        | inl g ↦
            rw (e, f, g)
              (with_authority-failed h t a verb op id (other a refl) during t.resolve
                (record w { os = t.resolving w.os }) (resolving w.os stands))
      ]
    ]
  ]

  -- A whole decision, on whatever action, leaves a failed row failed.
  pub perform-failed :
      (j : ℕ) (w : World)
      → Stands w.os.store id failed
      → Stands (perform h t j verb op w).0.os.store id failed
  perform-failed j w stands = elim (Bool-cases (j == id)) [
    | inl e ↦
        let same : j ≡ id = (==_iff j id).0 e in
        rw same (rw (failed_refuses h t id verb op w stands) stands)
    | inr e ↦
        unfold perform in
        perform_action-failed w (get_action w.os.store j) (λ a found here. apart a found here e)
          stands
  ]
    where
      apart : (a : PendingAction) → get_action w.os.store j ≡ some a → a.id ≡ id → (j == id) ≢ false
      apart a found here e =
          let there = found_id w.os.store j a found in
          let also : j ≡ id = cc (there, here) in
          let equal : (j == id) ≡ true = (==_iff j id).1 also in cc (equal, e)
