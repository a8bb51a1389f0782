-- ===== src/Kernel/Coordinator/Draining.antt =====
-- What the automatic drainer of actions.ts applies, in which order, and where it stops.
use gatekeeper_os.Kernel.Coordinator.Laws.{the_effect}
use gatekeeper_os.Shared.{action_status_eq, ActionKind, is_set, ActionDescription, PendingAction}
use gatekeeper_os.Prelude.{
  refl, string_eq, ◌⊎◌, includes, none, ◌∷◌, false, true, ◌≢◌, ◌++◌, some, [], ◌≡◌, String, ℕ, List,
}
use gatekeeper_os.Kernel.Coordinator.{
  auto_approval, perform, apply, failed, pending, is_automatic, World, Effect, Turn, Host,
}

-- The gatekeeper's author and the operator's tags both allow the action to be applied unasked.
pub record Automatic (h : Host) (tags : List String) (a : PendingAction) : Type 0 where
  pub description : ActionDescription
  pub described : h.description a.description_json ≡ some description
  pub approvable : is_set description.auto_approvable ≡ true
  pub unawaited : is_set description.await_decision ≡ false
  pub kind : ActionKind
  pub has_kind : description.action_kind ≡ some kind
  pub allowed : includes tags kind.tag ≡ true

-- How a drain of these rows goes on from a world, and the calls that it makes, in their order. A
-- settled row is passed over. A row ends the drain where the drain is stopped there, where it
-- failed, or where it is pending and not automatic. A pending and automatic row is applied: only
-- where that ends without an error is the drain carried on, from the world that it left.
pub data Drained (h : Host) (turns : ℕ → Turn) (tags : List String)
    : List PendingAction → World → List Effect → Type 0 where
  finished : (w : World) → Drained h turns tags [] w []
  halted :
      {a : PendingAction} {rows : List PendingAction} {w : World}
      → ((turns a.id).stopped ≡ true)
        ⊎ (a.status ≡ failed)
        ⊎ (a.status ≡ pending) × (is_automatic tags (h.description a.description_json) ≡ false)
      → Drained h turns tags (a ∷ rows) w []
  settled :
      {a : PendingAction} {rows : List PendingAction} {w : World} {es : List Effect}
      → a.status ≢ pending
      → a.status ≢ failed
      → Drained h turns tags rows w es
      → Drained h turns tags (a ∷ rows) w es
  not_applied :
      {a : PendingAction} {rows : List PendingAction} {w : World}
      → a.status ≡ pending
      → Automatic h tags a
      → (perform h (turns a.id) a.id apply auto_approval w).1 ≢ none
      → Drained h turns tags (a ∷ rows) w []
  broken_off :
      {a : PendingAction} {rows : List PendingAction} {w : World} (b : PendingAction)
      → a.status ≡ pending
      → Automatic h tags a
      → b.id ≡ a.id
      → (perform h (turns a.id) a.id apply auto_approval w).1 ≢ none
      → Drained h turns tags (a ∷ rows) w (the_effect apply b ∷ [])
  applied :
      {a : PendingAction} {rows : List PendingAction} {w : World} {es : List Effect}
      (b : PendingAction)
      → a.status ≡ pending
      → Automatic h tags a
      → b.id ≡ a.id
      → (perform h (turns a.id) a.id apply auto_approval w).1 ≡ none
      → Drained h turns tags rows (perform h (turns a.id) a.id apply auto_approval w).0 es
      → Drained h turns tags (a ∷ rows) w (the_effect apply b ∷ es)

module _ (h : Host) (turns : ℕ → Turn) (tags : List String) where
  abbrev Drains : List PendingAction → World → World → Type 0
  Drains rows w w' =
      (es : List Effect) × (w'.effects ≡ w.effects ++ es) × Drained h turns tags rows w es

-- Without a tag nothing is automatic.
no_tags :
    (h : Host) (turns : ℕ → Turn) (rows : List PendingAction) (w : World) (es : List Effect)
    → Drained h turns [] rows w es
    → es ≡ []
no_tags h turns [] w es (finished _) = refl
no_tags h turns (a ∷ rest) w es (halted _) = refl
no_tags h turns (a ∷ rest) w es (settled _ _ ds) = no_tags h turns rest w es ds
no_tags h turns (a ∷ rest) w es (not_applied _ _ _) = refl
no_tags h turns (a ∷ rest) w (e ∷ es) (broken_off b _ auto _ _) = cc auto.allowed
no_tags h turns (a ∷ rest) w (e ∷ es) (applied b _ auto _ _ _) = cc auto.allowed
