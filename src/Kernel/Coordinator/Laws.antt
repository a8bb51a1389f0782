-- ===== src/Kernel/Coordinator/Laws.antt =====
-- When actions.ts makes an external effect, and why it makes it once.
use gatekeeper_os.Kernel.Store.Actions.{claim_action, decide_action}
use gatekeeper_os.Kernel.Store.State.{Store}
use gatekeeper_os.Kernel.Audit.{write}
use gatekeeper_os.Prelude.{
  Option, refl, not, ◌&&◌, some-ne-none, Option-cases, true, inr, List, inl, some, Bool-cases, ◌⊎◌,
  [], none, ◌∷◌, ◌≢◌, ◌++◌, arith, ◌≡◌, String,
}
use gatekeeper_os.Shared.{AuditKind, AuditRecord, PendingAction}
use gatekeeper_os.Kernel.Coordinator.{
  with_authority, verb_text, action_record, Host, Turn, Verb, World, Effect, Authority, is_revert,
  expected, outcome, claim, effect, completed, unconfirmed_outcome,
}

abbrev pub the_effect : Verb → PendingAction → Effect
the_effect verb action = record {
  verb = verb;
  gatekeeper_instance = action.gatekeeper_instance;
  action_id = action.action_id;
}

module _ (h : Host) (t : Turn) (action : PendingAction) (verb : Verb) (op : String) where
  unconfirmed_effects :
      (w : World)
      → ((unconfirmed_outcome h t action verb op w).0.effects ≡ w.effects)
        × ((unconfirmed_outcome h t action verb op w).0.os.store ≡ w.os.store)
        × ((unconfirmed_outcome h t action verb op w).1 ≢ none)
  unfolding unconfirmed_outcome
  unconfirmed_effects w = (ground arith, ground arith, ground arith)

  abbrev decided_store : World → Store
  decided_store w = (decide_action w.os.store action.id (outcome verb) op none t.now).0

  completed_effects :
      (w : World)
      → ((completed h t action verb op w).0.effects ≡ w.effects)
        × ((completed h t action verb op w).0.os.store ≡ decided_store w)
  unfolding completed write unconfirmed_outcome
  completed_effects w = (ground arith, ground arith)

  -- Once the intent is stored, the call is made whatever becomes of it; the row is decided or left.
  pub effect_cases :
      (w : World)
      → ((effect h t action verb op w).0.effects ≡ w.effects ++ the_effect verb action ∷ [])
        × (((effect h t action verb op w).0.os.store ≡ (t.during w.os).store)
              × ((effect h t action verb op w).1 ≢ none)
            ⊎ ((effect h t action verb op w).0.os.store
                ≡ (decide_action (t.during w.os).store action.id (outcome verb) op none t.now).0))
  unfolding effect
  effect_cases w = elim (Bool-cases t.succeeds) [
    | inl e ↦ rw e ((completed_effects _).0, inr (completed_effects _).1)
    | inr e ↦
        rw e ((unconfirmed_effects _).0, inl ((unconfirmed_effects _).1, (unconfirmed_effects _).2))
  ]

  unfoldable pub claimed_world : World → List AuditRecord → World
  claimed_world w log = record w {
    os = record w.os {
      store = (claim_action w.os.store action.id (expected verb) op t.now).0;
      log = log;
    };
  }

  claim_cases :
      (w : World)
      → (((claim h t action verb op w).0.effects ≡ w.effects)
          × ((claim h t action verb op w).1 ≢ none))
        ⊎ (((claim_action w.os.store action.id (expected verb) op t.now).1 ≡ true)
            × ((log : List AuditRecord) × (claim h t action verb op w
                  ≡ effect h t action verb op (claimed_world w log))))
  unfolding claim claimed_world
  claim_cases w = elim (Bool-cases (claim_action w.os.store action.id (expected verb) op t.now).1) [
    | inl e ↦
        elim (Option-cases (
          write h.valid_record w.os.log (
            action_record h.cell AuditKind.action_decide action.id "Action decision"
              (verb_text verb) op true t.now))) [
                | inl refused ↦ inl (rw (e, refused) refl, rw (e, refused) (some-ne-none _))
                | inr (log, taken) ↦ inr (e, (log, rw (e, taken) refl))
              ]
    | inr e ↦ inl (rw e refl, rw e (some-ne-none _))
  ]

  -- What held when the effect was made, in the state after the wait: the intent had just been
  -- claimed in the database, after the last authority check, with no wait in between.
  pub record Guarded (o : Option Authority) (w : World) : Type 0 where
    pub authority : Authority
    pub resolved : o ≡ some authority
    pub authorized : authority.authorize w.os ≡ true
    pub revertible : is_revert verb ≡ true → authority.has_revert ≡ true
    pub claimed : (claim_action w.os.store action.id (expected verb) op t.now).1 ≡ true

  -- Either no call was made and an error is thrown, or the guards held and the call was made once,
  -- in the state that the claim had left, whose log has one more record.
  pub with_authority_cases :
      (o : Option Authority) (w : World)
      → (((with_authority h t action verb op o w).0.effects ≡ w.effects)
          × ((with_authority h t action verb op o w).1 ≢ none))
        ⊎ (Guarded o w
            × ((log : List AuditRecord) × (with_authority h t action verb op o w
                  ≡ effect h t action verb op (claimed_world w log))))
  unfolding with_authority
  with_authority_cases none w = inl (refl, some-ne-none _)
  with_authority_cases (some a) w = elim (Bool-cases (is_revert verb && not a.has_revert)) [
    | inl lacks ↦ inl (rw lacks refl, rw lacks (some-ne-none _))
    | inr has ↦ elim (Bool-cases (a.authorize w.os)) [
      | inr changed ↦ inl (rw (has, changed) refl, rw (has, changed) (some-ne-none _))
      | inl holds ↦ elim (claim_cases w) [
        | inl (same, thrown) ↦ inl (rw (has, holds) same, rw (has, holds) thrown)
        | inr (claimed, (log, made)) ↦ inr (
          record {
            authority = a;
            resolved = refl;
            authorized = holds;
            revertible = λ r. ground arith;
            claimed = claimed;
          },
          (log, rw (has, holds) made),
        )
      ]
    ]
  ]
