-- ===== src/Kit/OauthNonce/Provenance.antt =====
-- Where a nonce of oauth-nonce.ts that is consumed comes from.
use gatekeeper_os.Kit.OauthNonce.Laws.{
  All-answer, All-take_pending, All-set_pending, take_pending-some,
}
use gatekeeper_os.Prelude.{
  subst, none, string_eq, leb, not, All-filter, All-find?, ◌==◌, Bool-cases, ◌∙◌, arith, refl,
  append_assoc, All-mono, ◌⊎◌, sym, find?, inr, ◌∷◌, ◌<◌, ◌+◌, some, ◌≡◌, inl, Option, append-nil,
  [], ◌++◌, String, All, List, ℕ,
}
use mathlib.Core.List.{Mem, mem-append_left, mem-append_right, mem-cons_self}
use gatekeeper_os.Kit.OauthNonce.{
  answer, swept, consumed, rotate, take_pending, has_nonce, advanced, sweep, advance_bound, issued,
  issue, run_call, consume, run_calls, Pending, Call,
}

-- The record goes back to calls in the history: to the issue of a nonce for its operator, whose
-- lifetime it keeps, and in the second stage to the advance of that nonce within the lifetime.
pub record Traced (ttl_ms : ℕ) (history : List Call) (r : Pending) : Type 0 where
  pub first : String
  pub issue_time : ℕ
  pub was_issued : Mem (issued r.operator_id first issue_time) history
  pub lifetime : r.expires_at ≡ issue_time + ttl_ms
  pub staged :
      ((r.stage ≡ 1) × (r.nonce ≡ first))
      ⊎ ((r.stage ≡ 2) × ((t : ℕ) × Mem (advanced first r.nonce t) history × (t < r.expires_at)))

Traced-append :
    (ttl_ms : ℕ) (history more : List Call) (r : Pending)
    → Traced ttl_ms history r
    → Traced ttl_ms (history ++ more) r
Traced-append ttl_ms history more r h = record {
  first = h.first;
  issue_time = h.issue_time;
  was_issued = mem-append_left more h.was_issued;
  lifetime = h.lifetime;
  staged = elim h.staged [
    | inl one ↦ inl one
    | inr (two, (t, m, early)) ↦ inr (two, (t, mem-append_left more m, early))
  ];
}

module _ (ttl_ms : ℕ) (history : List Call) where
  issued-Traced :
      (operator_id nonce : String) (now : ℕ)
      → Traced ttl_ms (history ++ issued operator_id nonce now ∷ []) (record {
        nonce = nonce;
        operator_id = operator_id;
        expires_at = now + ttl_ms;
        stage = 1;
      })
  issued-Traced operator_id nonce now = record {
    first = nonce;
    issue_time = now;
    was_issued = mem-append_right history mem-cons_self;
    lifetime = refl;
    staged = inl (refl, refl);
  }

  advanced-Traced :
      (nonce next : String) (now : ℕ) (r : Pending)
      → Traced ttl_ms history r
      → r.nonce ≡ nonce
      → r.stage ≡ 1
      → now < r.expires_at
      → Traced ttl_ms
          (history ++ advanced nonce next now ∷ [])
          (record r { nonce = next; stage = 2 })
  advanced-Traced nonce next now r h same one early = elim h.staged [
    | inr (two, later) ↦ absurd (ground (arith, one, two))
    | inl (_, at_first) ↦ record {
      first = h.first;
      issue_time = h.issue_time;
      was_issued = mem-append_left (advanced nonce next now ∷ []) h.was_issued;
      lifetime = h.lifetime;
      staged =
          inr
            (refl, (now, rw (sym at_first ∙ same) (mem-append_right history mem-cons_self), early));
    }
  ]

  rotate-Traced :
      (nonce next : String) (now : ℕ) (rows : List Pending)
      → All (Traced ttl_ms history) rows
      → (p : List Pending × Option Pending) → All (Traced ttl_ms history) p.0
      → ((r : Pending)
          → p.1 ≡ some r
          → (find? (has_nonce nonce) rows ≡ some r)
            × (r.nonce ≡ nonce)
            × (r.stage ≡ 1)
            × (now < r.expires_at))
      → All (Traced ttl_ms (history ++ advanced nonce next now ∷ [])) (rotate next p).0
  rotate-Traced nonce next now rows all_traced (left, none) h _ =
      All-mono (Traced-append ttl_ms history (advanced nonce next now ∷ [])) left h
  rotate-Traced nonce next now rows all_traced (left, some r) h found =
      let (stored, same, one, early) = found r refl in
      All-set_pending (Traced ttl_ms (history ++ advanced nonce next now ∷ []))
        (record r { nonce = next; stage = 2 })
        (advanced-Traced nonce next now r
          (All-find? (Traced ttl_ms history) (has_nonce nonce) rows all_traced stored) same one
          early)
        left (All-mono (Traced-append ttl_ms history (advanced nonce next now ∷ [])) left h)

  run_call-Traced :
      (c : Call) (rows : List Pending)
      → All (Traced ttl_ms history) rows
      → All (Traced ttl_ms (history ++ c ∷ [])) (run_call ttl_ms c rows)
  unfolding run_call issue advance_bound consume sweep
  run_call-Traced (issued operator_id nonce now) rows h =
      let older =
        All-mono (Traced-append ttl_ms history (issued operator_id nonce now ∷ [])) rows h in
      elim (Bool-cases (operator_id == "")) [
        | inl e ↦ rw e older
        | inr e ↦ rw e (
            All-set_pending (Traced ttl_ms (history ++ issued operator_id nonce now ∷ [])) _
              (issued-Traced operator_id nonce now) _
              (All-filter (Traced ttl_ms (history ++ issued operator_id nonce now ∷ []))
                (λ r. not (leb r.expires_at now)) rows older))
      ]
  run_call-Traced (advanced nonce next now) rows h =
      rotate-Traced nonce next now rows h (take_pending rows nonce 1 now)
        (All-take_pending (Traced ttl_ms history) rows nonce 1 now h)
        (take_pending-some rows nonce 1 now)
  run_call-Traced (consumed nonce now) rows h =
      All-answer (Traced ttl_ms (history ++ consumed nonce now ∷ []))
        (take_pending rows nonce 2 now)
        (All-take_pending (Traced ttl_ms (history ++ consumed nonce now ∷ [])) rows nonce 2 now
          (All-mono (Traced-append ttl_ms history (consumed nonce now ∷ [])) rows h))
  run_call-Traced (swept now) rows h =
      All-filter (Traced ttl_ms (history ++ swept now ∷ [])) (λ r. not (leb r.expires_at now)) rows
        (All-mono (Traced-append ttl_ms history (swept now ∷ [])) rows h)

run_calls-Traced :
    (ttl_ms : ℕ) (cs history : List Call) (rows : List Pending)
    → All (Traced ttl_ms history) rows
    → All (Traced ttl_ms (history ++ cs)) (run_calls ttl_ms cs rows)
unfolding run_calls
run_calls-Traced ttl_ms [] history rows h = rw (append-nil history) h
run_calls-Traced ttl_ms (c ∷ cs) history rows h = rw (sym (append_assoc history (c ∷ []) cs)) (
    run_calls-Traced ttl_ms cs (history ++ c ∷ []) (run_call ttl_ms c rows)
      (run_call-Traced ttl_ms history c rows h))

answer-some :
    (p : List Pending × Option Pending) (operator_id : String)
    → (answer p).1 ≡ some operator_id
    → (r : Pending) × (p.1 ≡ some r) × (r.operator_id ≡ operator_id)
answer-some (rows, none) operator_id e = cc e
answer-some (rows, some r) operator_id e = (r, refl, cc e)

-- A callback nonce that is consumed for an operator was minted by advancing a nonce that had been
-- issued to that operator; it was advanced and it is consumed before the lifetime of that first
-- issue is over, which advancing does not extend.
pub consumed_from_issue :
    (ttl_ms : ℕ) (cs : List Call) (nonce operator_id : String) (now : ℕ)
    → (consume (run_calls ttl_ms cs []) nonce now).1 ≡ some operator_id
    → (first : String) × (t₀ : ℕ) × (t₁ : ℕ) × Mem (issued operator_id first t₀) cs
      × Mem (advanced first nonce t₁) cs
      × (t₁ < t₀ + ttl_ms)
      × (now < t₀ + ttl_ms)
unfolding consume
consumed_from_issue ttl_ms cs nonce operator_id now h =
    let rows = run_calls ttl_ms cs [] in
    let (r, taken, operator) = answer-some (take_pending rows nonce 2 now) operator_id h in
    let (stored, same, two, early) = take_pending-some rows nonce 2 now r taken in
    let traced =
      All-find? (Traced ttl_ms cs) (has_nonce nonce) rows (run_calls-Traced ttl_ms cs [] [] tt)
        stored in
    elim traced.staged [
      | inl (one, _) ↦ absurd (ground (arith, one, two))
      | inr (_, (t, m, in_time)) ↦ (
        traced.first,
        traced.issue_time,
        t,
        subst (λ o. Mem (issued o traced.first traced.issue_time) cs) operator traced.was_issued,
        subst (λ n. Mem (advanced traced.first n t) cs) same m,
        subst (λ limit. t < limit) traced.lifetime in_time,
        subst (λ limit. now < limit) traced.lifetime early,
      )
    ]
