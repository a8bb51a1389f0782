-- ===== src/Kit/Driver/Calm.antt =====
-- The changes that the steps of kit-gatekeeper.ts make, as far as calls of `apply` go.
use gatekeeper_os.Prelude.{
  ◌||◌, string_eq, Option-cases, not, ==_iff, String, ◌≤◌, none, if◌then◌else◌, All-append,
  All-update_where, ◌+◌, nat_eq, any, [], ◌∷◌, inr, false, arith, ◌++◌, some, inl, ◌==◌, refl,
  Bool-cases, Option, ◌≢◌, List, ◌≡◌, All, count_where, Bool, ◌∙◌, ℕ,
}
use gatekeeper_os.Kit.Driver.{
  status_eq, revert_uncertain, apply_uncertain, applied, reverted, uncertain, with_remote,
  reverting, revert_begun, revert_found, apply_begun, with_status, set_record, rejected, pending,
  apply_called, DriverError, revert_called, performed, save_then_throw, save_then_retire,
  reject_found, retire, save_record, Effect, Driver, Host, ActionRecord,
}

abbrev pub is_apply_of : ℕ → Effect → Bool
is_apply_of id (apply_called n) = n == id
is_apply_of id (revert_called n) = false

-- The calls of `apply` for an action.
abbrev pub applies : ℕ → Driver → ℕ
applies id d = count_where (is_apply_of id) d.effects

-- No record of the action waits for a decision.
abbrev pub NotPending : ℕ → Driver → Type 0
NotPending id d = All (λ (r : ActionRecord). r.id ≡ id → r.status ≢ pending) d.records

count_where-append_last :
    (p : Effect → Bool) (xs : List Effect) (e : Effect)
    → count_where p (xs ++ e ∷ []) ≡ count_where p xs + (if p e then 1 else 0)
count_where-append_last p [] e = elim (Bool-cases (p e)) [ inl h ↦ rw h refl | inr h ↦ rw h refl ]
count_where-append_last p (x ∷ xs) e = elim (Bool-cases (p x)) [
  | inl h ↦ rw h (let n = count_where-append_last p xs e in omega arith)
  | inr h ↦ rw h (count_where-append_last p xs e)
]

-- A change that makes no action pending and calls `apply` for none.
pub record Calm (id : ℕ) (d d' : Driver) : Type 0 where
  pub keeps : NotPending id d → NotPending id d'
  pub same : applies id d' ≡ applies id d

pub Calm-refl : (id : ℕ) (d : Driver) → Calm id d d
Calm-refl id d = record { keeps = λ h. h; same = refl }

pub Calm-trans : (id : ℕ) (a b c : Driver) → Calm id a b → Calm id b c → Calm id a c
Calm-trans id a b c f g = record { keeps = λ h. g.keeps (f.keeps h); same = g.same ∙ f.same }

module _ (h : Host) (id : ℕ) where
  pub save_record-Calm :
      (d : Driver) (r : ActionRecord) → r.status ≢ pending → Calm id d (save_record h d r).0
  unfolding save_record
  save_record-Calm d r decided = elim (Bool-cases (h.writes d r)) [
    | inr e ↦ rw e (Calm-refl id d)
    | inl e ↦ rw e (record { keeps = λ k. kept k; same = refl })
  ]
    where
      kept :
          NotPending id d
          → All (λ (x : ActionRecord). x.id ≡ id → x.status ≢ pending) (set_record r d.records)
      kept k = elim (Bool-cases (any (λ (old : ActionRecord). old.id == r.id) d.records)) [
        | inl e ↦ rw e (
            All-update_where (λ (x : ActionRecord). x.id ≡ id → x.status ≢ pending) _ (λ old. r)
              (λ x p c. λ same. decided) d.records k)
        | inr e ↦ rw e (
            All-append (λ (x : ActionRecord). x.id ≡ id → x.status ≢ pending) d.records (r ∷ []) k
              (λ same. decided, tt))
      ]

  pub retire-Calm : (d : Driver) (n : ℕ) → Calm id d (retire h d n).0
  unfolding retire
  retire-Calm d n = elim (Bool-cases (h.retires d n)) [
    | inl e ↦ rw e (record { keeps = λ k. k; same = refl })
    | inr e ↦ rw e (Calm-refl id d)
  ]

  save_then_throw-Calm :
      (d : Driver) (r : ActionRecord) (error : DriverError)
      → r.status ≢ pending
      → Calm id d (save_then_throw h d r error).0
  unfolding save_then_throw
  save_then_throw-Calm d r error decided = save_record-Calm d r decided

  save_then_retire-Calm :
      (d : Driver) (r : ActionRecord) → r.status ≢ pending → Calm id d (save_then_retire h d r).0
  unfolding save_then_retire
  save_then_retire-Calm d r decided = elim (Bool-cases (save_record h d r).1) [
    | inl e ↦ rw e (
        Calm-trans id d (save_record h d r).0 _ (save_record-Calm d r decided)
          (retire-Calm (save_record h d r).0 r.id))
    | inr e ↦ rw e (save_record-Calm d r decided)
  ]

  revert_called-Calm : (n : ℕ) (d : Driver) → Calm id d (performed (revert_called n) d)
  revert_called-Calm n d = record {
    keeps = λ k. k;
    same =
        let c = count_where-append_last (is_apply_of id) d.effects (revert_called n) in omega arith;
  }

  pub reject-Calm : (d : Driver) (o : Option ActionRecord) → Calm id d (reject_found h d o).0
  unfolding reject_found
  reject-Calm d none = Calm-refl id d
  reject-Calm d (some r) = elim (Bool-cases (r.status == rejected)) [
    | inl e ↦ rw e (retire-Calm d r.id)
    | inr e ↦ rw e (elim (Bool-cases (r.status == pending)) [
      | inr f ↦ rw f (Calm-refl id d)
      | inl f ↦ rw f (save_then_retire-Calm d (with_status rejected r) (λ q. cc q))
    ])
  ]

  revert_begun-Calm : (r : ActionRecord) (d : Driver) → Calm id d (revert_begun h r d).0
  unfolding revert_begun
  revert_begun-Calm r d =
      let after = performed (revert_called r.id) d in
      elim (Bool-cases (h.revert d r)) [
        | inl e ↦ rw e (
            Calm-trans id d after _ (revert_called-Calm r.id d)
              (save_record-Calm after (with_status reverted r) (λ q. cc q)))
        | inr e ↦ rw e (
            Calm-trans id d after _ (revert_called-Calm r.id d)
              (save_then_throw-Calm after (with_status uncertain r) revert_uncertain (λ q. cc q)))
      ]

  pub revert-Calm : (d : Driver) (o : Option ActionRecord) → Calm id d (revert_found h d o).0
  unfolding revert_found
  revert-Calm d none = Calm-refl id d
  revert-Calm d (some r) =
      let begun = (save_record h d (with_status reverting r)).0 in
      let begun_calm = save_record-Calm d (with_status reverting r) (λ q. cc q) in
      elim (Bool-cases (r.status == reverted)) [
        | inl e ↦ rw e (Calm-refl id d)
        | inr e ↦ rw e (elim (Bool-cases (h.is_implemented r.tool)) [
          | inr f ↦ rw f (Calm-refl id d)
          | inl f ↦
              rw f
                (elim (Bool-cases (
                  not (r.status == applied)
                  || not r.description.implements_revert
                  || not (h.has_revert r.tool))) [
                    | inl g ↦ rw g (Calm-refl id d)
                    | inr g ↦
                        rw g (elim (Bool-cases (save_record h d (with_status reverting r)).1) [
                          | inr k ↦ rw k begun_calm
                          | inl k ↦
                              rw k (Calm-trans id d begun _ begun_calm (revert_begun-Calm r begun))
                        ])
                  ])
        ])
      ]

-- A change that may call `apply` for the action once, and decides it.
pub record Called (id : ℕ) (d d' : Driver) : Type 0 where
  pub decided : NotPending id d'
  pub once : applies id d' ≤ applies id d + 1

abbrev remote_applied : Option String → ActionRecord → ActionRecord
remote_applied remote r = with_remote remote (with_status applied r)

remote_decided :
    (remote : Option String) (r : ActionRecord) → (remote_applied remote r).status ≢ pending
remote_decided none r = λ q. cc q
remote_decided (some id) r = elim (Bool-cases (id == "")) [
  | inl e ↦ rw e (λ q. cc q)
  | inr e ↦ rw e (λ q. cc q)
]

module _ (h : Host) (id : ℕ) where
  pub Called-Calm :
      (a b c : Driver)
      → NotPending id b
      → applies id b ≤ applies id a + 1
      → Calm id b c
      → Called id a c
  Called-Calm a b c settled at_most calm =
      let same = calm.same in record { decided = calm.keeps settled; once = omega arith }

  performed_once : (e : Effect) (d : Driver) → applies id (performed e d) ≤ applies id d + 1
  performed_once e d =
      let c = count_where-append_last (is_apply_of id) d.effects e in
      elim (Bool-cases (is_apply_of id e)) [
        | inl hit ↦ (let c' = rw hit at c in omega arith)
        | inr miss ↦ (let c' = rw miss at c in omega arith)
      ]

  other-Calm : (n : ℕ) (d : Driver) → n ≢ id → Calm id d (performed (apply_called n) d)
  other-Calm n d other = record {
    keeps = λ k. k;
    same =
        let c = count_where-append_last (is_apply_of id) d.effects (apply_called n) in
        let miss : (n == id) ≡ false = ground (arith, ==_iff n id, other) in
        let c' = rw miss at c in omega arith;
  }

  pub apply_begun-Called :
      (r : ActionRecord) (d : Driver) → NotPending id d → Called id d (apply_begun h r d).0
  unfolding apply_begun
  apply_begun-Called r d settled =
      let after = performed (apply_called r.id) d in
      elim (Bool-cases (h.is_implemented r.tool)) [
        | inr e ↦ rw e (
            Called-Calm d d _ settled (omega arith)
              (save_then_throw-Calm h id d (with_status uncertain r) apply_uncertain (λ q. cc q)))
        | inl e ↦ rw e (elim (Option-cases (h.apply d r)) [
          | inl f ↦ rw f (
              Called-Calm d after _ settled (performed_once (apply_called r.id) d) (
                save_then_throw-Calm h id after (with_status uncertain r) apply_uncertain
                  (λ q. cc q)))
          | inr (remote, f) ↦ rw f (
              Called-Calm d after _ settled (performed_once (apply_called r.id) d) (
                save_then_retire-Calm h id after (remote_applied remote r)
                  (remote_decided remote r)))
        ])
      ]

  pub apply_begun-Calm :
      (r : ActionRecord) (d : Driver) → r.id ≢ id → Calm id d (apply_begun h r d).0
  unfolding apply_begun
  apply_begun-Calm r d other =
      let after = performed (apply_called r.id) d in
      elim (Bool-cases (h.is_implemented r.tool)) [
        | inr e ↦
            rw e (save_then_throw-Calm h id d (with_status uncertain r) apply_uncertain (λ q. cc q))
        | inl e ↦ rw e (elim (Option-cases (h.apply d r)) [
          | inl f ↦ rw f (
              Calm-trans id d after _ (other-Calm r.id d other) (
                save_then_throw-Calm h id after (with_status uncertain r) apply_uncertain
                  (λ q. cc q)))
          | inr (remote, f) ↦ rw f (
              Calm-trans id d after _ (other-Calm r.id d other) (
                save_then_retire-Calm h id after (remote_applied remote r)
                  (remote_decided remote r)))
        ])
      ]
