-- ===== src/Kit/OauthNonce/Laws.antt =====
-- What the nonces of oauth-nonce.ts are worth: one use each, in two stages, within one lifetime.
use gatekeeper_os.Prelude.{
  nat_eq, find?-sound, ltb, ◌&&◌, ◌==◌, string_eq, filter-All, Option-cases, ==_iff, ◌<◌, arith,
  All-mono, find?, find?-of_none, not, refl, none, false, All-filter, true, some, Option, ◌≡◌, ℕ,
  [], ◌∷◌, All-append, inr, All-update_where, inl, any, Bool-cases, All, ◌≢◌, List, String,
}
use gatekeeper_os.Kit.OauthNonce.{
  answer, usable, has_nonce, is_nonce, set_pending, take_pending, swept, consumed, advanced, issued,
  Pending, Call,
}

-- No record has the nonce.
abbrev pub Absent : String → List Pending → Type 0
Absent nonce rows = All (λ r. r.nonce ≢ nonce) rows

-- The call gives the nonce to no new record.
abbrev pub MintsOther : String → Call → Type 0
MintsOther nonce (issued operator_id fresh now) = fresh ≢ nonce
MintsOther nonce (advanced old next now) = next ≢ nonce
MintsOther nonce (consumed old now) = Unit
MintsOther nonce (swept now) = Unit

pub All-set_pending :
    (P : Pending → Type 0) (r : Pending)
    → P r
    → (rows : List Pending) → All P rows
    → All P (set_pending r rows)
All-set_pending P r here rows there = elim (Bool-cases (any (has_nonce r.nonce) rows)) [
  | inl e ↦ rw e (All-update_where P (has_nonce r.nonce) (λ old. r) (λ x h c. here) rows there)
  | inr e ↦ rw e (All-append P rows (r ∷ []) there (here, tt))
]

-- What a call does to the rows, for a property of rows: the old ones that are left, and a new one.
pub All-take_pending :
    (P : Pending → Type 0) (rows : List Pending) (nonce : String) (stage now : ℕ)
    → All P rows
    → All P (take_pending rows nonce stage now).0
unfolding take_pending
All-take_pending P rows nonce stage now h = elim (Bool-cases (is_nonce nonce)) [
  | inl e ↦ rw e (All-filter P (λ r. not (has_nonce nonce r)) rows h)
  | inr e ↦ rw e h
]

pub take_pending-Absent :
    (rows : List Pending) (nonce : String) (stage now : ℕ)
    → is_nonce nonce ≡ true
    → Absent nonce (take_pending rows nonce stage now).0
unfolding take_pending
take_pending-Absent rows nonce stage now e = rw e (
    All-mono (λ r h. ground (arith, ==_iff r.nonce nonce, h)) _
      (filter-All (λ r. not (has_nonce nonce r)) rows))

usable-none : (stage now : ℕ) (o : Option Pending) → o ≡ none → usable stage now o ≡ none
usable-none stage now o e = rw e refl

pub take_pending-of_Absent :
    (rows : List Pending) (nonce : String) (stage now : ℕ)
    → Absent nonce rows
    → (take_pending rows nonce stage now).1 ≡ none
unfolding take_pending
take_pending-of_Absent rows nonce stage now absent = elim (Bool-cases (is_nonce nonce)) [
  | inl e ↦ rw e (
      usable-none stage now _ (
        find?-of_none (has_nonce nonce) rows
          (All-mono (λ r h. ground (arith, ==_iff r.nonce nonce, h)) rows absent)))
  | inr e ↦ rw e refl
]

pub take_pending-malformed :
    (rows : List Pending) (nonce : String) (stage now : ℕ)
    → is_nonce nonce ≡ false
    → (take_pending rows nonce stage now).1 ≡ none
unfolding take_pending
take_pending-malformed rows nonce stage now e = rw e refl

-- What `take` returns stands in the rows under the nonce, in the stage, and before its expiry.
pub take_pending-some :
    (rows : List Pending) (nonce : String) (stage now : ℕ) (r : Pending)
    → (take_pending rows nonce stage now).1 ≡ some r
    → (find? (has_nonce nonce) rows ≡ some r)
      × (r.nonce ≡ nonce)
      × (r.stage ≡ stage)
      × (now < r.expires_at)
unfolding take_pending
take_pending-some rows nonce stage now r taken = elim (Bool-cases (is_nonce nonce)) [
  | inr e ↦ absurd (ground (arith, e, taken))
  | inl e ↦ elim (Option-cases (find? (has_nonce nonce) rows)) [
    | inl f ↦ absurd (ground (arith, e, f, taken))
    | inr (x, f) ↦ elim (Bool-cases (x.stage == stage && ltb now x.expires_at)) [
      | inr k ↦ absurd (ground (arith, e, f, k, taken))
      | inl k ↦
          let same : x ≡ r = ground (arith, e, f, k, taken) in
          rw (← same) (
            f,
            (==_iff x.nonce nonce).0 (find?-sound (has_nonce nonce) rows f),
            ground (arith, ==_iff x.stage stage, k),
            ground (arith, k),
          )
    ]
  ]
]

pub All-answer :
    (P : Pending → Type 0) (p : List Pending × Option Pending) → All P p.0 → All P (answer p).0
All-answer P (rows, none) h = h
All-answer P (rows, some r) h = h
