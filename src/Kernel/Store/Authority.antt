-- ===== src/Kernel/Store/Authority.antt =====
-- What authorizeGrant accepts, and that a capability once revoked is gone for good.
use gatekeeper_os.Prelude.{
  ℕ, String, string_eq, ◌==◌, ==_iff, true, List, Option, none, some, ◌<◌, ◌≡◌, ◌≢◌, ◌↔◌, ◌⊎◌, inl,
  inr, refl, arith, All, lt→ltb, if◌then◌else◌, sym, ◌∙◌, find?-sound, find?-append,
  find?-update_where, any, Bool-cases, Option-cases,
}
use gatekeeper_os.Shared.{
  Grant, GrantStatus, active, revoked, grant_status_eq, agent, session, scope_eq, owner_only,
}
use gatekeeper_os.Kernel.Store.State.{Store}
use gatekeeper_os.Kernel.Store.Grants.{
  is_unexpired, get_grant, is_authorized, authorize_grant, set_grant_status, grants_clash,
}
use gatekeeper_os.Kernel.Store.Commands.{Command, run, run_all, run_all_keeps}

-- The current row grants `expected` to this agent, session and cell at this time.
pub record Authorizes (current expected : Grant) (caller key cell : String) (now : ℕ) : Type 0 where
  pub status : current.status ≡ active
  pub audience : current.audience ≡ owner_only
  pub expires : (t : ℕ) → current.expires_at ≡ some t → now < t
  pub agent_id : current.agent_id ≡ caller
  pub cell_id : current.cell_id ≡ cell
  pub scope : (current.scope ≡ agent) ⊎ (current.scope ≡ session key)
  pub vendor : current.vendor ≡ expected.vendor
  pub resource_type : current.resource_type ≡ expected.resource_type
  pub resource_key : current.resource_key ≡ expected.resource_key
  pub operator_id : current.operator_id ≡ expected.operator_id

is_unexpired_sound : (o : Option ℕ) (now t : ℕ) → is_unexpired o now ≡ true → o ≡ some t → now < t
is_unexpired_sound o now t h e = ground arith

is_unexpired_complete :
    (o : Option ℕ) (now : ℕ) → ((t : ℕ) → o ≡ some t → now < t) → is_unexpired o now ≡ true
is_unexpired_complete none now h = refl
is_unexpired_complete (some t) now h = lt→ltb now t (h t refl)

module _ (g e : Grant) (a k c : String) (now : ℕ) where
  is_authorized_sound : is_authorized g e a k c now ≡ true → Authorizes g e a k c now
  unfolding is_authorized
  is_authorized_sound h = record {
    status = ground (arith, ==_iff g.status active);
    audience = ground arith;
    expires = λ t. is_unexpired_sound g.expires_at now t (ground arith);
    agent_id = ground (arith, ==_iff g.agent_id a);
    cell_id = ground (arith, ==_iff g.cell_id c);
    scope = ground (arith, ==_iff g.scope agent, ==_iff g.scope (session k));
    vendor = ground (arith, ==_iff g.vendor e.vendor);
    resource_type = ground (arith, ==_iff g.resource_type e.resource_type);
    resource_key = ground (arith, ==_iff g.resource_key e.resource_key);
    operator_id = ground (arith, ==_iff g.operator_id e.operator_id);
  }

  is_authorized_complete : Authorizes g e a k c now → is_authorized g e a k c now ≡ true
  unfolding is_authorized
  is_authorized_complete h = ground (
    arith,
    ==_iff g.status active,
    is_unexpired_complete g.expires_at now h.expires,
    ==_iff g.agent_id a,
    ==_iff g.cell_id c,
    ==_iff g.scope agent,
    ==_iff g.scope (session k),
    ==_iff g.vendor e.vendor,
    ==_iff g.resource_type e.resource_type,
    ==_iff g.resource_key e.resource_key,
    ==_iff g.operator_id e.operator_id,
  )

-- `authorizeGrant` returns a row exactly when it is the stored row of the expected handle, active,
-- owner-only and unexpired, bound to the calling agent, cell and session, and for the expected
-- vendor, resource and operator.
pub authorize_grant_iff :
    (s : Store) (expected g : Grant) (agent_id session_key cell_id : String) (now : ℕ)
    → (authorize_grant s expected agent_id session_key cell_id now ≡ some g) ↔ (
        (get_grant s expected.handle ≡ some g)
        × Authorizes g expected agent_id session_key cell_id now)
unfolding authorize_grant
authorize_grant_iff s expected g a k c now = (
  λ h. elim (Option-cases (get_grant s expected.handle)) [
    | inl e ↦ absurd (ground (arith, e))
    | inr (x, e) ↦ elim (Bool-cases (is_authorized x expected a k c now)) [
      | inl ok ↦
          let same : x ≡ g = ground (arith, e, ok) in
          (rw (← same) e, is_authorized_sound g expected a k c now (rw same at ok))
      | inr bad ↦ absurd (ground (arith, e, bad))
    ]
  ],
  λ (e, ok). ground (arith, e, is_authorized_complete g expected a k c now ok),
)

-- A grant is stored under the handle, and its status is not "active".
abbrev pub Retired : String → Store → Type 0
Retired handle s = (g : Grant) × (get_grant s handle ≡ some g) × (g.status ≢ active)

-- The command does not set the status of the handle to "active".
abbrev pub NeverActivates : String → Command → Type 0
NeverActivates handle (Command.set_grant_status h status) = h ≡ handle → status ≢ active
NeverActivates handle _ = Unit

retired_update :
    (handle h : String) (status : GrantStatus) (g : Grant)
    → (h ≡ handle → status ≢ active)
    → g.handle ≡ handle
    → g.status ≢ active
    → (if g.handle == h then record g { status = status } else g).status ≢ active
retired_update handle h status g never at_handle inactive = elim (Bool-cases (g.handle == h)) [
  | inl e ↦ rw e (never (sym ((==_iff g.handle h).0 e) ∙ at_handle))
  | inr e ↦ rw e inactive
]

run-Retired :
    (handle : String) (c : Command) (s : Store)
    → NeverActivates handle c
    → Retired handle s
    → Retired handle (run c s)
unfolding run get_grant
run-Retired handle (Command.insert_grant g) s _ (r, found, inactive) =
    elim (Bool-cases (any (grants_clash g) s.grants)) [
      | inl e ↦ (r, rw e found, inactive)
      | inr e ↦ (
        r,
        rw e (find?-append (λ (x : Grant). x.handle == handle) s.grants _ ∙ ground (arith, found)),
        inactive,
      )
    ]
run-Retired handle (Command.set_grant_status h status) s never (r, found, inactive) = (
  if r.handle == h then record r { status = status } else r,
  find?-update_where (λ (x : Grant). x.handle == handle) (λ x. x.handle == h) _ (λ x _. refl)
        s.grants
      ∙ rw found,
  retired_update handle h status r never
      ((==_iff r.handle handle).0 (find?-sound (λ (x : Grant). x.handle == handle) s.grants found))
      inactive,
)
run-Retired handle _ s _ h = h

authorize-Retired :
    (handle : String) (s : Store) (expected : Grant) (a k c : String) (now : ℕ)
    → expected.handle ≡ handle
    → Retired handle s
    → authorize_grant s expected a k c now ≡ none
unfolding authorize_grant is_authorized
authorize-Retired handle s expected a k c now same (g, found, inactive) =
    rw (same, found) (ground (arith, ==_iff g.status active))

revoked-Retired :
    (s : Store) (handle : String) (g : Grant)
    → get_grant s handle ≡ some g
    → Retired handle (set_grant_status s handle revoked).0
unfolding set_grant_status get_grant
revoked-Retired s handle g found = (
  record g { status = revoked },
  find?-update_where (λ (x : Grant). x.handle == handle) (λ x. x.handle == handle) _ (λ x _. refl)
        s.grants
      ∙ rw found (rw (find?-sound (λ (x : Grant). x.handle == handle) s.grants found)),
  λ e. cc e,
)

-- Once a stored grant is revoked, no sequence of store operations that leaves out reactivating its
-- handle brings it back: `authorizeGrant` refuses it for every agent, session and time.
pub revoked_for_good :
    (s : Store) (g expected : Grant) (cs : List Command) (agent_id session_key cell_id : String)
    (now : ℕ)
    → get_grant s expected.handle ≡ some g
    → All (NeverActivates expected.handle) cs
    → authorize_grant
        (run_all cs (set_grant_status s expected.handle revoked).0)
        expected
        agent_id
        session_key
        cell_id
        now
      ≡ none
revoked_for_good s g expected cs a k c now found never =
    authorize-Retired expected.handle _ expected a k c now refl (
      run_all_keeps (Retired expected.handle) (NeverActivates expected.handle)
        (run-Retired expected.handle) cs (set_grant_status s expected.handle revoked).0 never
        (revoked-Retired s expected.handle g found))
