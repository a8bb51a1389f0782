-- ===== src/Kit/OauthNonce/Replay.antt =====
-- A nonce of oauth-nonce.ts is taken once.
use gatekeeper_os.Kit.OauthNonce.Laws.{
  All-answer, All-take_pending, take_pending-malformed, take_pending-Absent, All-set_pending,
  take_pending-of_Absent, MintsOther, Absent,
}
use gatekeeper_os.Prelude.{
  true, string_eq, leb, not, All-filter, [], ◌∷◌, inr, inl, refl, ◌==◌, some, Bool-cases, ◌∷◌, none,
  ◌≡◌, Option, All, List, ◌≢◌, ℕ, String,
}
use gatekeeper_os.Kit.OauthNonce.{
  answer, take_pending, take_pending, take_pending, take_pending, take_pending, take_pending,
  take_pending, take_pending, take_pending, take_pending, take_pending, take_pending, take_pending,
  swept, take_pending, consumed, take_pending, take_pending, advanced, take_pending, is_nonce,
  issued, take_pending, rotate, sweep, issue, advance_bound, run_call, consume, run_calls, Pending,
  Call,
}

rotate-Absent :
    (nonce next : String)
    → next ≢ nonce
    → (p : List Pending × Option Pending) → Absent nonce p.0
    → Absent nonce (rotate next p).0
rotate-Absent nonce next other (rows, none) h = h
rotate-Absent nonce next other (rows, some r) h =
    All-set_pending (λ x. x.nonce ≢ nonce) (record r { nonce = next; stage = 2 }) other rows h

run_call-Absent :
    (ttl_ms : ℕ) (nonce : String) (c : Call) (rows : List Pending)
    → MintsOther nonce c
    → Absent nonce rows
    → Absent nonce (run_call ttl_ms c rows)
unfolding run_call issue advance_bound consume sweep
run_call-Absent ttl_ms nonce (issued operator_id fresh now) rows other h =
    elim (Bool-cases (operator_id == "")) [
      | inl e ↦ rw e h
      | inr e ↦ rw e (
          All-set_pending (λ x. x.nonce ≢ nonce) _ other _
            (All-filter (λ x. x.nonce ≢ nonce) (λ r. not (leb r.expires_at now)) rows h))
    ]
run_call-Absent ttl_ms nonce (advanced old next now) rows other h =
    rotate-Absent nonce next other (take_pending rows old 1 now)
      (All-take_pending (λ x. x.nonce ≢ nonce) rows old 1 now h)
run_call-Absent ttl_ms nonce (consumed old now) rows other h =
    All-answer (λ x. x.nonce ≢ nonce) (take_pending rows old 2 now)
      (All-take_pending (λ x. x.nonce ≢ nonce) rows old 2 now h)
run_call-Absent ttl_ms nonce (swept now) rows other h =
    All-filter (λ x. x.nonce ≢ nonce) (λ r. not (leb r.expires_at now)) rows h

run_calls-Absent :
    (ttl_ms : ℕ) (nonce : String) (cs : List Call) (rows : List Pending)
    → All (MintsOther nonce) cs
    → Absent nonce rows
    → Absent nonce (run_calls ttl_ms cs rows)
unfolding run_calls
run_calls-Absent ttl_ms nonce [] rows _ h = h
run_calls-Absent ttl_ms nonce (c ∷ cs) rows (other, others) h =
    run_calls-Absent ttl_ms nonce cs (run_call ttl_ms c rows) others
      (run_call-Absent ttl_ms nonce c rows other h)

rotate-none :
    (next : String) (p : List Pending × Option Pending) → p.1 ≡ none → (rotate next p).1 ≡ none
rotate-none next (rows, none) e = refl
rotate-none next (rows, some r) e = cc e

answer-none : (p : List Pending × Option Pending) → p.1 ≡ none → (answer p).1 ≡ none
answer-none (rows, none) e = refl
answer-none (rows, some r) e = cc e

-- The call presents the nonce: to be advanced or to be consumed.
abbrev pub Presents : String → Call → Type 0
Presents nonce (issued operator_id fresh now) = ⊥
Presents nonce (advanced old next now) = old ≡ nonce
Presents nonce (consumed old now) = old ≡ nonce
Presents nonce (swept now) = ⊥

presented-Absent :
    (ttl_ms : ℕ) (nonce : String) (c : Call) (rows : List Pending)
    → is_nonce nonce ≡ true
    → Presents nonce c
    → MintsOther nonce c
    → Absent nonce (run_call ttl_ms c rows)
unfolding run_call advance_bound consume
presented-Absent ttl_ms nonce (issued operator_id fresh now) rows e presents other = absurd presents
presented-Absent ttl_ms nonce (advanced old next now) rows e presents other =
    rotate-Absent nonce next other (take_pending rows old 1 now)
      (rw presents (take_pending-Absent rows nonce 1 now e))
presented-Absent ttl_ms nonce (consumed old now) rows e presents other =
    All-answer (λ x. x.nonce ≢ nonce) (take_pending rows old 2 now)
      (rw presents (take_pending-Absent rows nonce 2 now e))
presented-Absent ttl_ms nonce (swept now) rows e presents other = absurd presents

-- A nonce that was presented once, to be advanced or to be consumed, at whatever time, in whatever
-- stage and with whatever success, is worth nothing afterwards: whatever calls follow, it can
-- neither be advanced nor consumed. Neither the first presentation nor a later call mints that very
-- nonce.
pub presented_once :
    (ttl_ms : ℕ) (rows : List Pending) (nonce : String) (first : Call) (cs : List Call)
    → Presents nonce first
    → MintsOther nonce first
    → All (MintsOther nonce) cs
    → (next : String) (later : ℕ)
    → let after = run_calls ttl_ms cs (run_call ttl_ms first rows) in
      ((consume after nonce later).1 ≡ none) × ((advance_bound after nonce next later).1 ≡ none)
unfolding consume advance_bound
presented_once ttl_ms rows nonce first cs presents other others next later =
    let after = run_calls ttl_ms cs (run_call ttl_ms first rows) in
    let nothing : (at : ℕ) → (take_pending after nonce at later).1 ≡ none = λ at.
      elim (Bool-cases (is_nonce nonce)) [
        | inl e ↦ take_pending-of_Absent after nonce at later (
            run_calls-Absent ttl_ms nonce cs _ others
              (presented-Absent ttl_ms nonce first rows e presents other))
        | inr e ↦ take_pending-malformed after nonce at later e
      ] in
    (
      answer-none (take_pending after nonce 2 later) (nothing 2),
      rotate-none next (take_pending after nonce 1 later) (nothing 1),
    )
