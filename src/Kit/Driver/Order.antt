-- ===== src/Kit/Driver/Order.antt =====
-- When a driver of kit-gatekeeper.ts applies an action.
use gatekeeper_os.Kit.Driver.{
  with_remote, apply_uncertain, applying, uncertain, with_status, applied, performed, is_settled,
  apply_called, get_record, is_blocked, DriverError, pending, save_then_retire, save_then_throw,
  retire, apply_recorded, save_record, apply_found, apply_begun, status_eq, Driver, Host,
  ActionRecord,
}
use gatekeeper_os.Prelude.{
  any-eq-false, All-mono, lt→ltb, Option-cases, arith, ap, not, ==_iff, ◌&&◌, ltb, ◌==◌, ◌<◌, refl,
  ◌++◌, inr, ◌∙◌, All, inl, false, true, some, Bool-cases, ◌⊎◌, Option, ℕ, ◌≡◌, none, [], ◌∷◌,
}

module _ (h : Host) where
  effects-save_record : (d : Driver) (r : ActionRecord) → (save_record h d r).0.effects ≡ d.effects
  unfolding save_record
  effects-save_record d r = elim (Bool-cases (h.writes d r)) [
    | inl e ↦ rw e refl
    | inr e ↦ rw e refl
  ]

  effects-retire : (d : Driver) (n : ℕ) → (retire h d n).0.effects ≡ d.effects
  unfolding retire
  effects-retire d n = elim (Bool-cases (h.retires d n)) [ inl e ↦ rw e refl | inr e ↦ rw e refl ]

  effects-save_then_throw :
      (d : Driver) (r : ActionRecord) (error : DriverError)
      → (save_then_throw h d r error).0.effects ≡ d.effects
  unfolding save_then_throw
  effects-save_then_throw d r error = effects-save_record d r

  effects-save_then_retire :
      (d : Driver) (r : ActionRecord) → (save_then_retire h d r).0.effects ≡ d.effects
  unfolding save_then_retire
  effects-save_then_retire d r = elim (Bool-cases (save_record h d r).1) [
    | inl e ↦ rw e (effects-retire (save_record h d r).0 r.id ∙ effects-save_record d r)
    | inr e ↦ rw e (effects-save_record d r)
  ]

  effects-apply_begun :
      (r : ActionRecord) (d : Driver)
      → ((apply_begun h r d).0.effects ≡ d.effects)
        ⊎ ((h.is_implemented r.tool ≡ true)
            × ((apply_begun h r d).0.effects ≡ d.effects ++ apply_called r.id ∷ []))
  unfolding apply_begun
  effects-apply_begun r d =
      let after = performed (apply_called r.id) d in
      elim (Bool-cases (h.is_implemented r.tool)) [
        | inr e ↦ rw e (inl (effects-save_then_throw d (with_status uncertain r) apply_uncertain))
        | inl e ↦ rw e (elim (Option-cases (h.apply d r)) [
          | inl f ↦
              rw f (
                inr (refl, effects-save_then_throw after (with_status uncertain r) apply_uncertain))
          | inr (remote, f) ↦ rw f (
              inr
                (refl, effects-save_then_retire after (with_remote remote (with_status applied r))))
        ])
      ]

-- The record may be applied: it is pending, its tool is implemented, and every action before it is
-- applied, rejected or reverted.
pub record Applicable (h : Host) (d : Driver) (r : ActionRecord) : Type 0 where
  pub waits : r.status ≡ pending
  pub implemented : h.is_implemented r.tool ≡ true
  pub next :
      All (λ (other : ActionRecord). other.id < r.id → is_settled other.status ≡ true) d.records

unblocked :
    (h : Host) (d : Driver) (id : ℕ)
    → is_blocked h d id ≡ false
    → All (λ (other : ActionRecord). other.id < id → is_settled other.status ≡ true) d.records
unblocked h d id e =
    let settled : (x : ActionRecord)
        → (ltb x.id id && not (is_settled x.status)) ≡ false
        → x.id < id
        → is_settled x.status ≡ true =
      λ x c before. ground (arith, c, lt→ltb x.id id before) in
    All-mono settled d.records (any-eq-false _ d.records e)

found_effects :
    (h : Host) (d : Driver) (o : Option ActionRecord)
    → ((apply_found h d o).0.effects ≡ d.effects)
      ⊎ ((r : ActionRecord) × (o ≡ some r)
          × Applicable h d r
          × ((apply_found h d o).0.effects ≡ d.effects ++ apply_called r.id ∷ []))
unfolding apply_found
found_effects h d none = inl refl
found_effects h d (some r) = elim (Bool-cases (r.status == applied)) [
  | inl e ↦ rw e (inl (effects-retire h d r.id))
  | inr e ↦ rw e (elim (Bool-cases (r.status == pending)) [
    | inr f ↦ rw f (inl refl)
    | inl f ↦ rw f (elim (Bool-cases (is_blocked h d r.id)) [
      | inl g ↦ rw g (inl refl)
      | inr g ↦ rw g (elim (Bool-cases (save_record h d (with_status applying r)).1) [
        | inr k ↦ rw k (inl (effects-save_record h d (with_status applying r)))
        | inl k ↦
            rw k (elim (effects-apply_begun h r (save_record h d (with_status applying r)).0) [
              | inl same ↦ inl (same ∙ effects-save_record h d (with_status applying r))
              | inr (implemented, called) ↦ inr (
                r,
                refl,
                record {
                  waits = (==_iff r.status pending).0 f;
                  implemented = implemented;
                  next = unblocked h d r.id g;
                },
                called
                    ∙ ap (λ es. es ++ apply_called r.id ∷ [])
                        (effects-save_record h d (with_status applying r)),
              )
            ])
      ])
    ])
  ])
]

-- Applying an action calls nothing, or it calls the implementation once, for a stored pending action
-- whose tool is implemented and before which every action has been applied, rejected or reverted.
pub apply_in_order :
    (h : Host) (d : Driver) (n : ℕ)
    → ((apply_recorded h d n).0.effects ≡ d.effects)
      ⊎ ((r : ActionRecord) × (get_record d n ≡ some r)
          × Applicable h d r
          × ((apply_recorded h d n).0.effects ≡ d.effects ++ apply_called r.id ∷ []))
unfolding apply_recorded
apply_in_order h d n = found_effects h d (get_record d n)
