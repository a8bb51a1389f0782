-- ===== src/Cli/Update/Steps.antt =====
-- The loop over the steps of update-transaction.ts: which effects have been called when it ends.
use gatekeeper_os.Prelude.{
  length, ◌<◌, false, ◌⊎◌, suc, append_assoc, sym, ◌≤◌, take, true, ◌+◌, ℕ, inr, refl, append-nil,
  ap, ◌∙◌, [], inl, arith, Bool-cases, ◌++◌, ◌∷◌, ◌≡◌, List,
}
use gatekeeper_os.Cli.Update.{
  completing, entering, run_actions, save_failed, called, saved, Event, UpdateJournal, call, Effect,
  save_update, Host, Update,
}

-- The effects among the events, in order.
unfoldable pub calls : List Event → List Effect
calls [] = []
calls (saved j ∷ es) = calls es
calls (save_failed j ∷ es) = calls es
calls (called e ∷ es) = e ∷ calls es

pub calls-append : (xs ys : List Event) → calls (xs ++ ys) ≡ calls xs ++ calls ys
unfolding calls
calls-append [] ys = refl
calls-append (saved j ∷ xs) ys = calls-append xs ys
calls-append (save_failed j ∷ xs) ys = calls-append xs ys
calls-append (called e ∷ xs) ys = ap (λ zs. e ∷ zs) (calls-append xs ys)

-- What an effect may write into the journal leaves the progress of the update alone.
pub record KeepsProgress (h : Host) : Type 0 where
  pub step : (e : Effect) (j : UpdateJournal) → (h.noted e j).step ≡ j.step
  pub completed : (e : Effect) (j : UpdateJournal) → (h.noted e j).completed ≡ j.completed

module _ (h : Host) where
  pub calls-save_update : (u : Update) → calls (save_update h u).0.events ≡ calls u.events
  unfolding save_update calls
  calls-save_update u = elim (Bool-cases (h.saves u.events)) [
    | inl e ↦ rw e (calls-append u.events (saved u.journal ∷ []) ∙ append-nil (calls u.events))
    | inr e ↦
        rw e (calls-append u.events (save_failed u.journal ∷ []) ∙ append-nil (calls u.events))
  ]

  pub journal-save_update : (u : Update) → (save_update h u).0.journal ≡ u.journal
  unfolding save_update
  journal-save_update u = ground arith

  pub calls-call :
      (e : Effect) (u : Update) → calls (call h e u).0.events ≡ calls u.events ++ e ∷ []
  unfolding call calls
  calls-call e u = calls-append u.events (called e ∷ [])

-- The numbers of the steps that begin at an index.
abbrev pub numbers {ℓ} : {A : Type ℓ} → ℕ → List A → List ℕ
numbers index [] = []
numbers index (x ∷ xs) = (index + 1) ∷ numbers (index + 1) xs

-- The step of the journal after a loop that began in another step.
abbrev pub last_step {ℓ} : {A : Type ℓ} → ℕ → ℕ → List A → ℕ
last_step index step [] = step
last_step index step (x ∷ xs) = last_step (index + 1) (index + 1) xs

-- The loop ran to its end.
pub record Ran (index : ℕ) (todo : List Effect) (u v : Update) : Type 0 where
  pub made : calls v.events ≡ calls u.events ++ todo
  pub completed : v.journal.completed ≡ u.journal.completed ++ numbers index todo
  pub step : v.journal.step ≡ last_step index u.journal.step todo

-- The loop stopped in the journal's step: no effect of a later step has been called.
pub record Stopped (index : ℕ) (todo : List Effect) (u v : Update) : Type 0 where
  pub begun : ℕ
  pub made : calls v.events ≡ calls u.events ++ take begun todo
  pub reached : index + begun ≤ v.journal.step
  pub started : index < v.journal.step
  pub bounded : v.journal.step ≤ index + length todo

module _ (h : Host) (keeps : KeepsProgress h) where
  -- The update after one whole round of the loop.
  abbrev pub round : ℕ → Effect → Update → Update
  round index a u =
      (save_update h (completing index (call h a (save_update h (entering index u)).0).0)).0

  calls-round :
      (index : ℕ) (a : Effect) (u : Update)
      → calls (round index a u).events ≡ calls u.events ++ a ∷ []
  calls-round index a u =
      calls-save_update h (completing index (call h a (save_update h (entering index u)).0).0)
      ∙ calls-call h a (save_update h (entering index u)).0
      ∙ ap (λ xs. xs ++ a ∷ []) (calls-save_update h (entering index u))

  step-call :
      (index : ℕ) (a : Effect) (u : Update)
      → (call h a (save_update h (entering index u)).0).0.journal.step ≡ index + 1
  unfolding call
  step-call index a u =
      keeps.step a (save_update h (entering index u)).0.journal
      ∙ ap (λ j. j.step) (journal-save_update h (entering index u))

  completed-round :
      (index : ℕ) (a : Effect) (u : Update)
      → (round index a u).journal.completed ≡ u.journal.completed ++ (index + 1) ∷ []
  unfolding call
  completed-round index a u =
      ap (λ j. j.completed)
        (journal-save_update h (completing index (call h a (save_update h (entering index u)).0).0))
      ∙ ap (λ xs. xs ++ (index + 1) ∷ [])
          (keeps.completed a (save_update h (entering index u)).0.journal
            ∙ ap (λ j. j.completed) (journal-save_update h (entering index u)))

  step-round : (index : ℕ) (a : Effect) (u : Update) → (round index a u).journal.step ≡ index + 1
  step-round index a u =
      ap (λ j. j.step)
        (journal-save_update h (completing index (call h a (save_update h (entering index u)).0).0))
      ∙ step-call index a u

  unsaved_begin :
      (index : ℕ) (a : Effect) (rest : List Effect) (u : Update)
      → Stopped index (a ∷ rest) u (save_update h (entering index u)).0
  unsaved_begin index a rest u =
      let at : (save_update h (entering index u)).0.journal.step ≡ index + 1 =
        ap (λ j. j.step) (journal-save_update h (entering index u)) in
      record {
        begun = 0;
        made = calls-save_update h (entering index u) ∙ sym (append-nil (calls u.events));
        reached = rw at (omega arith);
        started = rw at (omega arith);
        bounded = rw at (omega arith);
      }

  undone_call :
      (index : ℕ) (a : Effect) (rest : List Effect) (u : Update)
      → Stopped index (a ∷ rest) u (call h a (save_update h (entering index u)).0).0
  undone_call index a rest u =
      let at = step-call index a u in
      record {
        begun = 1;
        made =
            calls-call h a (save_update h (entering index u)).0
            ∙ ap (λ xs. xs ++ a ∷ []) (calls-save_update h (entering index u));
        reached = rw at (omega arith);
        started = rw at (omega arith);
        bounded = rw at (omega arith);
      }

  unsaved_end :
      (index : ℕ) (a : Effect) (rest : List Effect) (u : Update)
      → Stopped index (a ∷ rest) u (round index a u)
  unsaved_end index a rest u =
      let at = step-round index a u in
      record {
        begun = 1;
        made = calls-round index a u;
        reached = rw at (omega arith);
        started = rw at (omega arith);
        bounded = rw at (omega arith);
      }

  later_stop :
      (index : ℕ) (a : Effect) (rest : List Effect) (u v : Update)
      → Stopped (index + 1) rest (round index a u) v
      → Stopped index (a ∷ rest) u v
  later_stop index a rest u v s = record {
    begun = suc s.begun;
    made =
        s.made
        ∙ ap (λ xs. xs ++ take s.begun rest) (calls-round index a u)
        ∙ append_assoc (calls u.events) (a ∷ []) (take s.begun rest);
    reached = let r = s.reached in omega arith;
    started = let r = s.started in omega arith;
    bounded = let r = s.bounded in omega arith;
  }

  later_end :
      (index : ℕ) (a : Effect) (rest : List Effect) (u v : Update)
      → Ran (index + 1) rest (round index a u) v
      → Ran index (a ∷ rest) u v
  later_end index a rest u v r = record {
    made =
        r.made
        ∙ ap (λ xs. xs ++ rest) (calls-round index a u)
        ∙ append_assoc (calls u.events) (a ∷ []) rest;
    completed =
        r.completed
        ∙ ap (λ xs. xs ++ numbers (index + 1) rest) (completed-round index a u)
        ∙ append_assoc u.journal.completed ((index + 1) ∷ []) (numbers (index + 1) rest);
    step = r.step ∙ ap (λ n. last_step (index + 1) n rest) (step-round index a u);
  }

  -- The loop runs to its end, or it stops in a step with nothing of a later step called.
  pub run_actions_cases :
      (index : ℕ) (todo : List Effect) (u : Update)
      → (((run_actions h index todo u).1 ≡ true) × Ran index todo u (run_actions h index todo u).0)
        ⊎ (((run_actions h index todo u).1 ≡ false)
            × Stopped index todo u (run_actions h index todo u).0)
  unfolding run_actions
  run_actions_cases index [] u = inl (
    refl,
    record {
      made = sym (append-nil (calls u.events));
      completed = sym (append-nil u.journal.completed);
      step = refl;
    },
  )
  run_actions_cases index (a ∷ rest) u = elim (Bool-cases (save_update h (entering index u)).1) [
    | inr e ↦ rw e (inr (refl, unsaved_begin index a rest u))
    | inl e ↦ rw e (elim (Bool-cases (call h a (save_update h (entering index u)).0).1) [
      | inr f ↦ rw f (inr (refl, undone_call index a rest u))
      | inl f ↦
          rw f
            (elim (Bool-cases
              (save_update h
                (completing index (call h a (save_update h (entering index u)).0).0)).1) [
                  | inr g ↦ rw g (inr (refl, unsaved_end index a rest u))
                  | inl g ↦ rw g (elim (run_actions_cases (index + 1) rest (round index a u)) [
                    | inl (k, r) ↦ inl (k, later_end index a rest u _ r)
                    | inr (k, s) ↦ inr (k, later_stop index a rest u _ s)
                  ])
                ])
    ])
  ]
