-- ===== src/Kit/TokenStore/Laws.antt =====
-- A refresh of token-store.ts that a removal has overtaken stores nothing.
use gatekeeper_os.Kit.TokenStore.{
  is_in_flight, settle, kept, run_call, settled, overtaking, refresh, landed, run_calls, put,
  remove, putting, removing, refreshing, settling, TokenStore, Call,
}
use gatekeeper_os.Prelude.{
  nat_eq, sym, refl, subst, ==_iff, string_eq, not, All, false, ◌||◌, inl, arith, inr, ◌==◌, ◌≤◌,
  ◌<◌, Bool-cases, true, ==-refl, ◌≢◌, List, ℕ, Option, Bool, ◌≡◌, String, none, some, [], ◌∷◌,
}

-- A refresh in flight began at no later generation than the present one.
abbrev pub IsSound : String → TokenStore → Type 0
IsSound id s = (g : ℕ) → s.refreshes id ≡ some g → g ≤ s.generations id

-- The account is gone, and a refresh in flight is stale.
pub record Removed (id : String) (s : TokenStore) : Type 0 where
  pub gone : s.accounts id ≡ none
  pub stale : (g : ℕ) → s.refreshes id ≡ some g → g < s.generations id

-- The call neither stores the account nor begins to refresh it.
abbrev pub LeavesAlone : String → Call → Type 0
LeavesAlone id (putting writes n value) = n ≢ id
LeavesAlone id (removing writes n) = Unit
LeavesAlone id (refreshing n) = n ≢ id
LeavesAlone id (settling writes n value) = Unit

module _ (id : String) where
  elsewhere :
      (n : String) (account : Option String) (s : TokenStore)
      → n ≢ id
      → Removed id s
      → Removed id (overtaking n account s)
  elsewhere n account s other h =
      let miss : (id == n) ≡ false = ground (arith, ==_iff id n, other) in
      record { gone = rw miss h.gone; stale = rw miss h.stale }

  here-Removed : (s : TokenStore) → IsSound id s → Removed id (overtaking id none s)
  here-Removed s sound = record {
    gone = rw (==-refl id) refl;
    stale = rw (==-refl id) (λ g e. let le = sound g e in omega arith);
  }

  landed-Removed : (n : String) (s : TokenStore) → Removed id s → Removed id (landed n s)
  landed-Removed n s h = elim (Bool-cases (id == n)) [
    | inl e ↦ record { gone = h.gone; stale = rw e (λ g q. cc q) }
    | inr e ↦ record { gone = h.gone; stale = rw e h.stale }
  ]

  put-Removed :
      (writes : Bool) (n value : String) (s : TokenStore)
      → n ≢ id
      → Removed id s
      → Removed id (kept s (put writes n value s))
  unfolding put
  put-Removed writes n value s other h = elim (Bool-cases (n == "" || not writes)) [
    | inl e ↦ rw e h
    | inr e ↦ rw e (elsewhere n (some value) s other h)
  ]

  remove-Removed :
      (writes : Bool) (n : String) (s : TokenStore)
      → Removed id s
      → Removed id (kept s (remove writes n s))
  unfolding remove
  remove-Removed writes n s h = elim (Bool-cases (n == "" || not writes)) [
    | inl e ↦ rw e h
    | inr e ↦ rw e (elim (Bool-cases (n == id)) [
      | inl f ↦
          subst (λ m. Removed id (overtaking m none s)) (sym ((==_iff n id).0 f))
            (here-Removed s (λ g q. let lt = h.stale g q in omega arith))
      | inr f ↦ elsewhere n none s (ground (arith, ==_iff n id, f)) h
    ])
  ]

  refresh-Removed :
      (n : String) (s : TokenStore) → n ≢ id → Removed id s → Removed id (kept s (refresh n s))
  unfolding refresh
  refresh-Removed n s other h = elim (Bool-cases (n == "")) [
    | inl e ↦ rw e h
    | inr e ↦ rw e (elim (Bool-cases (is_in_flight (s.refreshes n))) [
      | inl f ↦ rw f h
      | inr f ↦
          let miss : (id == n) ≡ false = ground (arith, ==_iff id n, other) in
          rw f (record { gone = h.gone; stale = rw miss h.stale })
    ])
  ]

  settled-Removed :
      (writes : Bool) (n : String) (value : Option String) (o : Option ℕ) (s : TokenStore)
      → s.refreshes n ≡ o
      → Removed id s
      → Removed id (settled writes n value o s)
  settled-Removed writes n value none s at h = h
  settled-Removed writes n none (some g) s at h = landed-Removed n s h
  settled-Removed writes n (some v) (some g) s at h = elim (Bool-cases (s.generations n == g)) [
    | inr e ↦ rw e (landed-Removed n s h)
    | inl e ↦ rw e (
        landed-Removed n (kept s (put writes n v s)) (
          put-Removed writes n v s
            (λ same.
              let lt = h.stale g (subst (λ m. s.refreshes m ≡ some g) same at) in
              let now = subst (λ m. s.generations m ≡ g) same ((==_iff (s.generations n) g).0 e) in
              absurd (ground (arith, lt, now)))
            h))
  ]

  run_calls-Removed :
      (cs : List Call) (s : TokenStore)
      → All (LeavesAlone id) cs
      → Removed id s
      → Removed id (run_calls cs s)
  unfolding run_calls run_call settle
  run_calls-Removed [] s _ h = h
  run_calls-Removed (putting writes n v ∷ cs) s (other, others) h =
      run_calls-Removed cs _ others (put-Removed writes n v s other h)
  run_calls-Removed (removing writes n ∷ cs) s (_, others) h =
      run_calls-Removed cs _ others (remove-Removed writes n s h)
  run_calls-Removed (refreshing n ∷ cs) s (other, others) h =
      run_calls-Removed cs _ others (refresh-Removed n s other h)
  run_calls-Removed (settling writes n v ∷ cs) s (_, others) h =
      run_calls-Removed cs _ others (settled-Removed writes n v (s.refreshes n) s refl h)

-- A removed account stays removed whatever refresh of it was in flight: unless it is stored again or
-- a new refresh of it begins, no calls bring its credentials back, the end of that refresh included.
pub removed_for_good :
    (id : String) (s t : TokenStore) (cs : List Call)
    → IsSound id s
    → remove true id s ≡ some t
    → All (LeavesAlone id) cs
    → (run_calls cs t).accounts id ≡ none
unfolding remove
removed_for_good id s t cs sound removed others = elim (Bool-cases (id == "")) [
  | inl e ↦ absurd (ground (arith, e, removed))
  | inr e ↦
      let same : some (overtaking id none s) ≡ some t = rw e at removed in
      (run_calls-Removed id cs t others
        (subst (λ o. Removed id (kept s o)) same (here-Removed id s sound))).gone
]
