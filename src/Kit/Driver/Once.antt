-- ===== src/Kit/Driver/Once.antt =====
-- How often a driver of kit-gatekeeper.ts calls the implementation of an action.
use gatekeeper_os.Kit.Driver.{
  is_blocked, revert, applied, set_record, reject, apply_begun, apply_action, applying, pending,
  revert_action, reject_action, with_status, Operation, apply_recorded, apply_found, operate_all,
  get_record, operate, save_record, status_eq, Driver, Host, ActionRecord,
}
use gatekeeper_os.Kit.Driver.Calm.{
  revert-Calm, apply_begun-Called, apply_begun-Calm, retire-Calm, Calm-trans, reject-Calm,
  save_record-Calm, Calm-refl, applies, NotPending, Calm, Called,
}
use gatekeeper_os.Prelude.{
  false, any-eq-false, All-mono, All-append, any, ==_iff, update_where, refl, nat_eq, Bool-cases,
  inr, ◌==◌, All, arith, ◌∙◌, ◌⊎◌, inl, All-find?, ◌≤◌, true, ◌≢◌, Option, some, ◌≡◌, List, ℕ, none,
  [], ◌∷◌,
}

-- The action waited for a decision, and it does not any more.
pub record Taken (id : ℕ) (d d' : Driver) : Type 0 where
  pub called : Called id d d'
  pub waited : NotPending id d → ⊥

-- The record that is being applied is not pending once its save succeeds.
save_record-NotPending :
    (h : Host) (d : Driver) (r : ActionRecord) (id : ℕ)
    → r.id ≡ id
    → r.status ≢ pending
    → (save_record h d r).1 ≡ true
    → NotPending id (save_record h d r).0
unfolding save_record
save_record-NotPending h d r id same decided is_saved = elim (Bool-cases (h.writes d r)) [
  | inr e ↦ absurd (ground (arith, e, is_saved))
  | inl e ↦ rw e (replaced d.records)
]
  where
    replaced :
        (rows : List ActionRecord)
        → All (λ (x : ActionRecord). x.id ≡ id → x.status ≢ pending) (set_record r rows)
    replaced rows = elim (Bool-cases (any (λ (old : ActionRecord). old.id == r.id) rows)) [
      | inl f ↦ rw f (updated rows)
      | inr f ↦
          let off : (x : ActionRecord) → (x.id == r.id) ≡ false → x.id ≡ id → x.status ≢ pending =
            λ x c k. absurd (ground (arith, ==_iff x.id r.id, c, k, same)) in
          rw f (
            All-append (λ (x : ActionRecord). x.id ≡ id → x.status ≢ pending) rows (r ∷ [])
              (All-mono off rows (any-eq-false _ rows f)) (λ k. decided, tt))
    ]
      where
        updated :
            (xs : List ActionRecord)
            → All
                (λ (x : ActionRecord). x.id ≡ id → x.status ≢ pending)
                (update_where (λ old. old.id == r.id) (λ old. r) xs)
        updated [] = tt
        updated (x ∷ xs) = elim (Bool-cases (x.id == r.id)) [
          | inl g ↦ rw g (λ k. decided, updated xs)
          | inr g ↦ rw g (λ k. absurd (ground (arith, ==_iff x.id r.id, g, k, same)), updated xs)
        ]

module _ (h : Host) (id : ℕ) where
  apply_waiting :
      (d : Driver) (r : ActionRecord)
      → ((NotPending id d → r.id ≡ id → ⊥))
      → (save_record h d (with_status applying r)).1 ≡ true
      → Calm id d (apply_begun h r (save_record h d (with_status applying r)).0).0
        ⊎ Taken id d (apply_begun h r (save_record h d (with_status applying r)).0).0
  apply_waiting d r waits is_saved =
      let begun = (save_record h d (with_status applying r)).0 in
      let begun_calm = save_record-Calm h id d (with_status applying r) (λ q. cc q) in
      elim (Bool-cases (r.id == id)) [
        | inr e ↦ inl (
            Calm-trans id d begun _ begun_calm
              (apply_begun-Calm h id r begun (ground (arith, ==_iff r.id id, e))))
        | inl e ↦
            let same : r.id ≡ id = (==_iff r.id id).0 e in
            let called =
              apply_begun-Called h id r begun (
                save_record-NotPending h d (with_status applying r) id same (λ q. cc q) is_saved) in
            let unchanged = begun_calm.same in
            let at_most = called.once in
            inr (record {
              called = record { decided = called.decided; once = omega arith };
              waited = λ settled. waits settled same;
            })
      ]

  apply_cases :
      (d : Driver) (o : Option ActionRecord)
      → ((r : ActionRecord) → o ≡ some r → r.status ≡ pending → NotPending id d → r.id ≡ id → ⊥)
      → Calm id d (apply_found h d o).0 ⊎ Taken id d (apply_found h d o).0
  unfolding apply_found
  apply_cases d none _ = inl (Calm-refl id d)
  apply_cases d (some r) waits = elim (Bool-cases (r.status == applied)) [
    | inl e ↦ rw e (inl (retire-Calm h id d r.id))
    | inr e ↦ rw e (elim (Bool-cases (r.status == pending)) [
      | inr f ↦ rw f (inl (Calm-refl id d))
      | inl f ↦ rw f (elim (Bool-cases (is_blocked h d r.id)) [
        | inl g ↦ rw g (inl (Calm-refl id d))
        | inr g ↦ rw g (elim (Bool-cases (save_record h d (with_status applying r)).1) [
          | inr k ↦ rw k (inl (save_record-Calm h id d (with_status applying r) (λ q. cc q)))
          | inl k ↦ rw k (apply_waiting d r (waits r refl ((==_iff r.status pending).0 f)) k)
        ])
      ])
    ])
  ]

stored_waits :
    (id n : ℕ) (d : Driver) (r : ActionRecord)
    → get_record d n ≡ some r
    → r.status ≡ pending
    → NotPending id d
    → r.id ≡ id
    → ⊥
unfolding get_record
stored_waits id n d r found waiting settled same =
    All-find? (λ (x : ActionRecord). x.id ≡ id → x.status ≢ pending) (λ x. x.id == n) d.records
      settled found same waiting

operate_cases :
    (id : ℕ) (o : Operation) (d : Driver) → Calm id d (operate o d) ⊎ Taken id d (operate o d)
unfolding operate apply_recorded reject_action revert_action
operate_cases id (apply_action h n) d =
    apply_cases h id d (get_record d n) (λ r e. stored_waits id n d r e)
operate_cases id (reject h n) d = inl (reject-Calm h id d (get_record d n))
operate_cases id (revert h n) d = inl (revert-Calm h id d (get_record d n))

-- An action whose record is not pending, because it was applied, rejected or left uncertain, is never
-- applied afterwards, whatever operations follow and however their calls and writes end.
pub decided_never_applied :
    (id : ℕ) (os : List Operation) (d : Driver)
    → NotPending id d
    → applies id (operate_all os d) ≡ applies id d
unfolding operate_all
decided_never_applied id [] d settled = refl
decided_never_applied id (o ∷ os) d settled = elim (operate_cases id o d) [
  | inl calm ↦ decided_never_applied id os (operate o d) (calm.keeps settled) ∙ calm.same
  | inr taken ↦ absurd (taken.waited settled)
]

-- Over any operations of the kernel, with calls and writes of the journal that may fail anywhere, the
-- implementation is called at most once to apply an action.
pub applied_at_most_once :
    (id : ℕ) (os : List Operation) (d : Driver)
    → applies id d ≡ 0
    → applies id (operate_all os d) ≤ 1
unfolding operate_all
applied_at_most_once id [] d unapplied = rw unapplied (omega arith)
applied_at_most_once id (o ∷ os) d unapplied = elim (operate_cases id o d) [
  | inl calm ↦ applied_at_most_once id os (operate o d) (calm.same ∙ unapplied)
  | inr taken ↦
      let at_most = taken.called.once in
      rw (decided_never_applied id os (operate o d) taken.called.decided) (omega arith)
]
