-- ===== src/Kernel/Coordinator/Once.antt =====
-- The effects of `perform` in actions.ts: which one, under which guards, and at most once.
use gatekeeper_os.Prelude.{subst, sym}
use gatekeeper_os.Kernel.Store.Claims.{
  Stands, get-claim_action, claim_action_iff, get-decide_action,
}
use gatekeeper_os.Kernel.Queue.{Os}
use gatekeeper_os.Kernel.Store.WellFormed.{WellFormed}
use gatekeeper_os.Kernel.Coordinator.Laws.{
  effect_cases, the_effect, claimed_world, with_authority_cases, Guarded,
}
use gatekeeper_os.Kernel.Store.Actions.{
  claimed, claim_action, decided, decide_action, get_action, list_actions,
}
use gatekeeper_os.Shared.{AuditRecord, action_status_eq, ActionDescription, PendingAction}
use gatekeeper_os.Prelude.{
  nat_eq, ◌∙◌, [], find?-sound, ◌∷◌, ◌++◌, ℕ, List, Bool-cases, inr, some-ne-none, inl,
  any-eq-false, ◌⊎◌, ==_iff, refl, none, false, ◌≢◌, any, arith, All, ◌&&◌, some, true, String,
  ◌==◌, ◌≡◌, Option,
}
use gatekeeper_os.Kernel.Store.State.{Store}
use gatekeeper_os.Kernel.Coordinator.{
  not_eligible, pending, failed, outcome, perform, effect, PerformError, authorized, blocks,
  perform_action, is_revert, is_apply, World, expected, may_revert, Turn, Host, Verb,
}

-- The guards that `perform` reads before it waits for anything.
pub record Eligible (h : Host) (verb : Verb) (s : Store) (action : PendingAction) : Type 0 where
  pub status : action.status ≡ expected verb
  pub in_order : is_apply verb ≡ true → All (λ a. blocks action a ≡ false) (list_actions s false)
  pub described : (d : ActionDescription) × (h.description action.description_json ≡ some d)
  pub revertible :
      is_revert verb ≡ true
      → (d : ActionDescription) → h.description action.description_json ≡ some d
      → d.implements_revert ≡ true

described_of :
    (verb : Verb) (o : Option ActionDescription)
    → may_revert verb o ≡ true
    → ((d : ActionDescription) × (o ≡ some d))
      × (is_revert verb ≡ true → (d : ActionDescription) → o ≡ some d → d.implements_revert ≡ true)
described_of verb none e = cc
described_of verb (some d) e = ((d, refl), λ r d' same. ground arith)

meets_guards :
    (h : Host) (verb : Verb) (s : Store) (a : PendingAction)
    → (a.status == expected verb) ≡ true
    → (is_apply verb && any (blocks a) (list_actions s false)) ≡ false
    → may_revert verb (h.description a.description_json) ≡ true
    → Eligible h verb s a
meets_guards h verb s a same in_turn may = record {
  status = (==_iff a.status (expected verb)).0 same;
  in_order = λ e. any-eq-false (blocks a) (list_actions s false) (rw e at in_turn);
  described = (described_of verb (h.description a.description_json) may).0;
  revertible = (described_of verb (h.description a.description_json) may).1;
}

module _ (h : Host) (t : Turn) (verb : Verb) (op : String) (w : World) where
  -- The action is stored, every guard before and after the wait for its authority held, and its
  -- call was made once, in the state that the claim had left.
  pub record Carried (found : Option PendingAction) (result : World × Option PerformError)
      : Type 0 where
    pub action : PendingAction
    pub stored : found ≡ some action
    pub eligible : Eligible h verb w.os.store action
    pub guarded : Guarded h t action verb op t.resolve (record w { os = t.resolving w.os })
    pub log : List AuditRecord
    pub made :
        result
        ≡ effect h t action verb op
            (claimed_world h t action verb op (record w { os = t.resolving w.os }) log)

  made_or_refused :
      (o : Option PendingAction)
      → (((perform_action h t verb op w o).0.effects ≡ w.effects)
          × ((perform_action h t verb op w o).1 ≢ none))
        ⊎ Carried o (perform_action h t verb op w o)
  unfolding perform_action authorized
  made_or_refused none = inl (refl, some-ne-none _)
  made_or_refused (some a) = elim (Bool-cases (a.status == expected verb)) [
    | inr other ↦ inl (rw other refl, rw other (some-ne-none _))
    | inl same ↦
        elim (Bool-cases (is_apply verb && any (blocks a) (list_actions w.os.store false))) [
          | inl early ↦ inl (rw (same, early) refl, rw (same, early) (some-ne-none _))
          | inr in_turn ↦ elim (Bool-cases (may_revert verb (h.description a.description_json))) [
            | inr bad ↦ inl (rw (same, in_turn, bad) refl, rw (same, in_turn, bad) (some-ne-none _))
            | inl may ↦
                elim (with_authority_cases h t a verb op t.resolve
                  (record w { os = t.resolving w.os })) [
                    | inl (kept, thrown) ↦
                        inl (rw (same, in_turn, may) kept, rw (same, in_turn, may) thrown)
                    | inr (guarded, (log, made)) ↦ inr (record {
                      action = a;
                      stored = refl;
                      eligible = meets_guards h verb w.os.store a same in_turn may;
                      guarded = guarded;
                      log = log;
                      made = rw (same, in_turn, may) made;
                    })
                  ]
          ]
        ]
  ]

-- An external call is made only for a stored action that stands in the expected status, is next in
-- its instance where it is applied, and has a valid description that allows it; whose authority was
-- resolved, holds after the wait, and whose row could still be claimed. It is then made once.
-- Otherwise nothing is called, and an error is thrown.
pub perform_effects :
    (h : Host) (t : Turn) (id : ℕ) (verb : Verb) (op : String) (w : World)
    → (((perform h t id verb op w).0.effects ≡ w.effects) × ((perform h t id verb op w).1 ≢ none))
      ⊎ ((action : PendingAction) × (get_action w.os.store id ≡ some action)
          × Eligible h verb w.os.store action
          × Guarded h t action verb op t.resolve (record w { os = t.resolving w.os })
          × ((perform h t id verb op w).0.effects ≡ w.effects ++ the_effect verb action ∷ []))
unfolding perform
perform_effects h t id verb op w = elim (made_or_refused h t verb op w (get_action w.os.store id)) [
  | inl thrown ↦ inl thrown
  | inr c ↦ inr (
    c.action,
    c.stored,
    c.eligible,
    c.guarded,
    rw c.made (unfold claimed_world in (effect_cases h t c.action verb op _).0),
  )
]

pub found_id : (s : Store) (id : ℕ) (a : PendingAction) → get_action s id ≡ some a → a.id ≡ id
unfolding get_action
found_id s id a found =
    (==_iff a.id id).0 (find?-sound (λ (x : PendingAction). x.id == id) s.actions found)

-- The tasks that run meanwhile leave a row failed that stands failed, as a claim leaves it. Of the
-- other rows nothing is asked.
abbrev pub KeepsFailed : (Os → Os) → ℕ → Type 0
KeepsFailed tasks id = (o : Os) → Stands o.store id failed → Stands (tasks o).store id failed

-- What a call leaves in the row of its action.
module _ (h : Host) (t : Turn) (id : ℕ) (verb : Verb) (op : String) (w : World)
    (wf : WellFormed (t.resolving w.os).store) (keeps : KeepsFailed t.during id) where
  row_claimed :
      (action : PendingAction) (log : List AuditRecord)
      → action.id ≡ id
      → (claim_action (t.resolving w.os).store action.id (expected verb) op t.now).1 ≡ true
      → (b : PendingAction) × (get_action
            (t.during
              (claimed_world h t action verb op (record w { os = t.resolving w.os }) log).os).store
            id
          ≡ some b)
        × (b.status ≡ failed)
  unfolding claimed_world
  row_claimed action log same ok =
      let (a, found, stands) =
        (claim_action_iff (t.resolving w.os).store wf action.id (expected verb) op t.now).0 ok in
      let left =
        get-claim_action (t.resolving w.os).store action.id (expected verb) op t.now a found
          stands in
      keeps _ (
        claimed op t.now a,
        subst
            (λ j.
              get_action
                (claim_action (t.resolving w.os).store action.id (expected verb) op t.now).0 j
              ≡ some (claimed op t.now a))
            same left,
        refl,
      )

  row_decided :
      (s : Store) (b : PendingAction)
      → get_action s id ≡ some b
      → (c : PendingAction) × (get_action (decide_action s id (outcome verb) op none t.now).0 id
          ≡ some c)
        × (c.status ≡ outcome verb)
  unfolding get_action
  row_decided s b found =
      let here = find?-sound (λ (x : PendingAction). x.id == id) s.actions found in
      (
        decided (outcome verb) op t.now none b,
        unfold get_action in
            get-decide_action s id id (outcome verb) op none t.now ∙ rw found (rw here),
        refl,
      )

  row_after :
      (o : Option PendingAction) (r : World × Option PerformError)
      → (c : Carried h t verb op w o r) → c.action.id ≡ id
      → (b : PendingAction) × (get_action r.0.os.store id ≡ some b)
        × ((b.status ≡ failed) × (r.1 ≢ none) ⊎ (b.status ≡ outcome verb))
  row_after o r c same =
      let (b, found, at_b) = row_claimed c.action c.log same c.guarded.claimed in
      let w' = claimed_world h t c.action verb op (record w { os = t.resolving w.os }) c.log in
      elim (effect_cases h t c.action verb op w').1 [
        | inl (kept, thrown) ↦ (b, rw c.made (rw kept found), inl (at_b, rw c.made thrown))
        | inr decided_row ↦
            let (d, found', at_d) = row_decided (t.during w'.os).store b found in
            (
              d,
              rw c.made (
                  rw decided_row (
                    subst
                      (λ j.
                        get_action
                          (decide_action (t.during w'.os).store j (outcome verb) op none t.now).0 id
                        ≡ some d)
                      (sym same) found')),
              inr at_d,
            )
      ]

-- An action that a decision has settled is not pending.
not_pending :
    (verb : Verb) (b : PendingAction)
    → (b.status ≡ failed) ⊎ (b.status ≡ outcome verb)
    → (b.status == pending) ≡ false
not_pending verb b at_b = ground arith

refused :
    (verb : Verb) (h : Host) (t' : Turn) (id : ℕ) (verb' : Verb) (op' : String) (w' : World)
    (b : PendingAction)
    → get_action w'.os.store id ≡ some b
    → is_revert verb' ≡ false
    → (b.status ≡ failed) ⊎ (b.status ≡ outcome verb)
    → perform h t' id verb' op' w' ≡ (w', some not_eligible)
unfolding perform perform_action
refused verb h t' id Verb.apply op' w' b found _ at_b = rw found (rw (not_pending verb b at_b))
refused verb h t' id Verb.reject op' w' b found _ at_b = rw found (rw (not_pending verb b at_b))
refused verb h t' id Verb.revert op' w' b found forward _ = cc

module _ (h : Host) (t : Turn) (id : ℕ) (verb : Verb) (op : String) (w : World)
    (wf : WellFormed (t.resolving w.os).store) (keeps : KeepsFailed t.during id) where
  carried :
      (((perform h t id verb op w).0.effects ≡ w.effects) × ((perform h t id verb op w).1 ≢ none))
      ⊎ Carried h t verb op w (get_action w.os.store id) (perform h t id verb op w)
  unfolding perform
  carried = made_or_refused h t verb op w (get_action w.os.store id)

  settled :
      (c : Carried h t verb op w (get_action w.os.store id) (perform h t id verb op w))
      → (b : PendingAction) × (get_action (perform h t id verb op w).0.os.store id ≡ some b)
        × ((b.status ≡ failed) × ((perform h t id verb op w).1 ≢ none) ⊎ (b.status ≡ outcome verb))
  settled c = row_after h t id verb op w wf keeps _ _ c (found_id w.os.store id c.action c.stored)

  -- A decision that does not throw has made its call and left the action with the decision's
  -- outcome: applied, rejected or reverted. The store is well formed when the action is claimed,
  -- and the tasks that run during the awaited call leave this action's row failed; what they do to
  -- other rows is free.
  pub perform_success :
      (perform h t id verb op w).1 ≡ none
      → (b : PendingAction) × (get_action (perform h t id verb op w).0.os.store id ≡ some b)
        × (b.status ≡ outcome verb)
  perform_success ok = elim carried [
    | inl (_, thrown) ↦ absurd (thrown ok)
    | inr c ↦
        let (b, found, at_b) = settled c in
        (b, found, elim at_b [ inl (_, thrown) ↦ absurd (thrown ok) | inr done ↦ done ])
  ]

  -- Once a call was made for an action, no apply or reject calls for it again, however the first
  -- call ended: the later decision throws and changes nothing. The store is well formed when the
  -- action is claimed, the tasks that run during the awaited call leave this action's row failed,
  -- and the later decision finds the row as the first one left it; what becomes of other rows is
  -- free.
  pub perform_once :
      (t' : Turn) (verb' : Verb) (op' : String) (w' : World)
      → (perform h t id verb op w).0.effects ≢ w.effects
      → get_action w'.os.store id ≡ get_action (perform h t id verb op w).0.os.store id
      → is_revert verb' ≡ false
      → perform h t' id verb' op' w' ≡ (w', some not_eligible)
  perform_once t' verb' op' w' made same forward = elim carried [
    | inl (kept, _) ↦ absurd (made kept)
    | inr c ↦
        let (b, found, at_b) = settled c in
        refused verb h t' id verb' op' w' b (same ∙ found) forward
          (elim at_b [ inl (e, _) ↦ inl e | inr e ↦ inr e ])
  ]
