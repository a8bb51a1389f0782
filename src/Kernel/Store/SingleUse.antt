-- ===== src/Kernel/Store/SingleUse.antt =====
-- What store.ts lets happen once: a tool approval is consumed, an introduction is claimed, a run is
-- notified of; and what inserting a grant does to a resource that was granted before.
use gatekeeper_os.Kernel.Store.Authority.{authorize_grant_iff}
use text.Mathlib.Text.{starts_with}
use gatekeeper_os.Prelude.{
  sym, All-find?, Distinct, Bool, ◌≢◌, ℕ, String, string_eq, nat_eq, ◌==◌, ==_iff, ==-refl, true,
  false, ◌&&◌, List, [], ◌∷◌, ◌++◌, Option, none, some, ◌≡◌, ◌↔◌, ◌∙◌, inl, inr, refl, arith, All,
  any-of_none, any_mono, any-of_found, find?, find?-sound, find?-none, find?-of_none, find?-append,
  find?-update_where, filter-All, All-mono, count_where-Distinct, delete_where, Bool-cases,
  Option-cases,
}
use gatekeeper_os.Shared.{active, Grant, scope_eq}
use gatekeeper_os.Kernel.Store.State.{Store, ToolDecision, Introduction, pending, resolving}
use gatekeeper_os.Kernel.Store.Grants.{
  get_grant, authorize_grant, grants_clash, same_identity, insert_grant,
}
use gatekeeper_os.Kernel.Store.Requests.{introduction_status_eq, is_open, claim_introduction}
use gatekeeper_os.Kernel.Store.Audience.{record_tool_decision, consume_tool_approval}
use gatekeeper_os.Kernel.Store.WellFormed.{same_identity_iff, WellFormed, run-WellFormed}
use gatekeeper_os.Kernel.Store.Commands.{Command, run}

deleted_absent :
    (call : String) (rows : List ToolDecision)
    → find? (λ row. row.tool_call_id == call) (delete_where (λ row. row.tool_call_id == call) rows)
      ≡ none
deleted_absent call rows =
    find?-of_none (λ (row : ToolDecision). row.tool_call_id == call) _
      (All-mono (λ (x : ToolDecision) h. ground arith) _ (filter-All _ rows))

-- A recorded approval is worth one call: asking first consumes it, and only an "allow" decision for
-- that very tool and those very parameters is approved; asking again, for whatever tool and
-- parameters, is refused.
pub tool_approval_single_use :
    (s : Store) (call tool asked again params params' params'' decision : String)
    (by : Option String) (now : ℕ)
    → let recorded = record_tool_decision s call tool params decision by now in
      ((consume_tool_approval recorded call asked params').1
        ≡ (tool == asked && params == params' && starts_with decision "allow"))
      × ((consume_tool_approval
            (consume_tool_approval recorded call asked params').0
            call
            again
            params'').1
          ≡ false)
unfolding record_tool_decision consume_tool_approval
tool_approval_single_use s call tool asked again params params' params'' decision by now = (
  rw
      (find?-append (λ (row : ToolDecision). row.tool_call_id == call)
        (delete_where (λ row. row.tool_call_id == call) s.approval_decisions) _)
      (rw (deleted_absent call s.approval_decisions) (rw (==-refl call))),
  rw (deleted_absent call _),
)

module _ (s : Store) (w : WellFormed s) (id : ℕ) where
  -- `claimIntroduction` succeeds exactly when the request is pending.
  claim_introduction_iff : ((claim_introduction s id).1 ≡ true) ↔ (
      (i : Introduction) × (find? (λ i. i.id == id) s.introductions ≡ some i)
      × (i.status ≡ pending))
  unfolding claim_introduction
  claim_introduction_iff =
      rw
        (count_where-Distinct (λ (i : Introduction). i.id) id (λ i. i.status == pending)
          s.introductions w.introduction_ids)
        (elim (Option-cases (find? (λ i. i.id == id) s.introductions)) [
          | inl e ↦ rw e (λ h. cc h, λ (i, found, _). cc found)
          | inr (i, e) ↦ rw e (
            λ h. (i, refl, ground (arith, ==_iff i.status pending)),
            λ (j, found, at_j). ground (arith, ==_iff i.status pending),
          )
        ])

get-claim_introduction :
    (s : Store) (id : ℕ) (i : Introduction)
    → find? (λ i. i.id == id) s.introductions ≡ some i
    → i.status ≡ pending
    → find? (λ i. i.id == id) (claim_introduction s id).0.introductions
      ≡ some (record i { status = resolving })
unfolding claim_introduction
get-claim_introduction s id i found stands =
    find?-update_where (λ (x : Introduction). x.id == id) (is_open id pending) _ (λ x _. refl)
      s.introductions
    ∙ rw found (
        rw (find?-sound (λ (x : Introduction). x.id == id) s.introductions found)
          (rw ((==_iff i.status pending).1 stands)))

-- Of two overlapping operator decisions on one access request, the second cannot claim it.
pub claim_introduction_exclusive :
    (s : Store) (id : ℕ)
    → WellFormed s
    → (claim_introduction s id).1 ≡ true
    → (claim_introduction (claim_introduction s id).0 id).1 ≡ false
claim_introduction_exclusive s id w first =
    let (i, found, stands) = (claim_introduction_iff s w id).0 first in
    let s' = (claim_introduction s id).0 in
    let w' : WellFormed s' = unfold run in run-WellFormed (Command.claim_introduction id) s tt w in
    let now_resolving = get-claim_introduction s id i found stands in
    elim (Bool-cases (claim_introduction s' id).1) [
      | inl again ↦
          let (j, found', stands') = (claim_introduction_iff s' w' id).0 again in
          absurd (ground (arith, now_resolving, found', stands'))
      | inr none_left ↦ none_left
    ]

no_clash :
    (g : Grant) (rows : List Grant)
    → All (λ row. same_identity row g ≡ false) rows
    → All (λ row. (row.handle == g.handle) ≡ false) rows
    → All (λ row. grants_clash g row ≡ false) rows
no_clash g [] _ _ = tt
no_clash g (row ∷ rows) (e, es) (h, hs) = (rw h e, no_clash g rows es hs)

-- What `insertGrant` returns. A grant of the same agent, resource, account and scope is returned as
-- it is stored, revoked or not; a new identity is stored under a free handle; and where another
-- identity holds the handle nothing is stored or returned.
pub insert_grant_cases :
    (s : Store) (g : Grant)
    → ((r : Grant)
        → find? (λ row. same_identity row g) s.grants ≡ some r
        → insert_grant s g ≡ (s, some r))
      × (find? (λ row. same_identity row g) s.grants ≡ none
          → find? (λ row. row.handle == g.handle) s.grants ≡ none
          → insert_grant s g ≡ (record s { grants = s.grants ++ g ∷ [] }, some g))
      × ((r : Grant)
          → find? (λ row. same_identity row g) s.grants ≡ none
          → find? (λ row. row.handle == g.handle) s.grants ≡ some r
          → insert_grant s g ≡ (s, none))
unfolding insert_grant
insert_grant_cases s g = (
  λ r found.
      rw
        (any_mono (λ row. same_identity row g) (grants_clash g) (λ x h. ground arith) s.grants
          (any-of_found _ s.grants found))
        (rw found),
  λ new free.
      rw
        (any-of_none (grants_clash g) s.grants
          (no_clash g s.grants (find?-none _ s.grants new) (find?-none _ s.grants free)))
        (rw (
          find?-append (λ row. same_identity row g) s.grants (g ∷ []),
          new,
          (same_identity_iff g g).1 refl,
        )),
  λ r new taken.
      rw
        (any_mono (λ row. row.handle == g.handle) (grants_clash g) (λ x h. ground arith) s.grants
          (any-of_found _ s.grants taken))
        (rw new),
)

-- The row that a search finds is also the one that its handle finds.
get_grant_of_found :
    (p : Grant → Bool) (rows : List Grant)
    → Distinct (λ (g : Grant). g.handle) rows
    → (r : Grant) → find? p rows ≡ some r
    → find? (λ g. g.handle == r.handle) rows ≡ some r
get_grant_of_found p [] _ r found = cc
get_grant_of_found p (x ∷ rows) (apart, d) r found = elim (Bool-cases (p x)) [
  | inl e ↦ let same : x ≡ r = ground (arith, e, found) in rw (← same) (rw (==-refl x.handle) refl)
  | inr e ↦
      let later : find? p rows ≡ some r = ground (arith, e, found) in
      let other : r.handle ≢ x.handle = All-find? (λ g. g.handle ≢ x.handle) p rows apart later in
      let step : (x.handle == r.handle) ≡ false = ground (arith, ==_iff x.handle r.handle, other) in
      rw step (get_grant_of_found p rows d r later)
]

same_status : (r x : Grant) → some r ≡ some x → x.status ≡ active → r.status ≡ active
same_status r x e h = cc

-- Introducing a resource again does not renew a grant that is no longer active. Where the same
-- agent, resource, account and scope already have a row with another status, `insertGrant` changes
-- nothing and returns that row, which authorizes no agent, session, cell or time.
pub insert_grant_not_renewed :
    (s : Store) (g r : Grant)
    → WellFormed s
    → find? (λ row. same_identity row g) s.grants ≡ some r
    → r.status ≢ active
    → (insert_grant s g ≡ (s, some r))
      × ((agent_id session_key cell_id : String) (now : ℕ)
          → authorize_grant (insert_grant s g).0 r agent_id session_key cell_id now ≡ none)
insert_grant_not_renewed s g r wf found inactive =
    let kept = (insert_grant_cases s g).0 r found in
    let at_handle : get_grant s r.handle ≡ some r =
      unfold get_grant in
      get_grant_of_found (λ row. same_identity row g) s.grants wf.handles r found in
    (
      kept,
      λ a k c now. elim (Option-cases (authorize_grant (insert_grant s g).0 r a k c now)) [
        | inl none_given ↦ none_given
        | inr (x, given) ↦
            let (stored, ok) = (authorize_grant_iff s r x a k c now).0 (rw kept at given) in
            absurd (inactive (same_status r x (sym at_handle ∙ stored) ok.status))
      ],
    )
