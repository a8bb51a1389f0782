-- ===== src/Kernel/Store/Grants.antt =====
-- The grants of store.ts: getGrant, isActiveHandle, authorizeGrant, listGrants, allGrants,
-- insertGrant, setGrantStatus.
use gatekeeper_os.Prelude.{
  ℕ, String, string_eq, nat_eq, ◌==◌, Bool, true, false, not, ◌&&◌, ◌||◌, List, Option, none, some,
  ltb, leb, if◌then◌else◌, find?, filter, update_where, count_where, insert_or_ignore, sort,
  string_leb,
}
use gatekeeper_os.Shared.{
  Grant, GrantStatus, active, grant_status_eq, agent, session, scope_eq, is_owner_only,
}
use gatekeeper_os.Kernel.Store.State.{Store}

-- `expiresAt === undefined || expiresAt > now`
abbrev pub is_unexpired : Option ℕ → ℕ → Bool
is_unexpired none now = true
is_unexpired (some t) now = ltb now t

unfoldable pub get_grant : Store → String → Option Grant
get_grant s handle = find? (λ g. g.handle == handle) s.grants

abbrev is_active : Option Grant → ℕ → Bool
is_active none now = false
is_active (some g) now = g.status == active && is_unexpired g.expires_at now

-- `handle` is `none` where it is not a string.
unfoldable pub is_active_handle : Store → Option String → ℕ → Bool
unfolding get_grant
is_active_handle s none now = false
is_active_handle s (some handle) now = is_active (get_grant s handle) now

-- The guard of authorizeGrant on the current row, negated.
unfoldable pub is_authorized : Grant → Grant → String → String → String → ℕ → Bool
is_authorized current expected agent_id session_key cell_id now =
    current.status == active
    && is_owner_only current.audience
    && is_unexpired current.expires_at now
    && current.agent_id == agent_id
    && current.cell_id == cell_id
    && (current.scope == agent || current.scope == session session_key)
    && current.vendor == expected.vendor
    && current.resource_type == expected.resource_type
    && current.resource_key == expected.resource_key
    && current.operator_id == expected.operator_id

abbrev keep_if : (Grant → Bool) → Option Grant → Option Grant
keep_if p none = none
keep_if p (some g) = if p g then some g else none

unfoldable pub authorize_grant : Store → Grant → String → String → String → ℕ → Option Grant
authorize_grant s expected agent_id session_key cell_id now =
    keep_if (λ g. is_authorized g expected agent_id session_key cell_id now)
      (get_grant s expected.handle)

-- ORDER BY createdAt, handle
abbrev listed_before : Grant → Grant → Bool
listed_before a b =
    ltb a.created_at b.created_at || (a.created_at == b.created_at && string_leb a.handle b.handle)

unfoldable pub list_grants : Store → String → Bool → List Grant
unfolding sort string_leb
list_grants s agent_id active_only =
    sort listed_before
      (filter (λ g. g.agent_id == agent_id && (not active_only || g.status == active)) s.grants)

-- An absent or empty agent id lists every grant.
unfoldable pub all_grants : Store → Option String → List Grant
unfolding sort
all_grants s none = sort (λ a b. leb a.created_at b.created_at) s.grants
all_grants s (some agent_id) =
    sort (λ a b. leb a.created_at b.created_at)
      (if agent_id == "" then s.grants else filter (λ g. g.agent_id == agent_id) s.grants)

-- The unique index `grant_identity`.
abbrev pub same_identity : Grant → Grant → Bool
same_identity a b =
    a.agent_id == b.agent_id
    && a.vendor == b.vendor
    && a.resource_type == b.resource_type
    && a.resource_key == b.resource_key
    && a.operator_id == b.operator_id
    && a.scope == b.scope

abbrev pub grants_clash : Grant → Grant → Bool
grants_clash g row = row.handle == g.handle || same_identity row g

-- The row that is selected back is `none` only where another identity holds the handle.
unfoldable pub insert_grant : Store → Grant → Store × Option Grant
insert_grant s g =
    let rows = insert_or_ignore (grants_clash g) g s.grants in
    (record s { grants = rows }, find? (λ row. same_identity row g) rows)

unfoldable pub set_grant_status : Store → String → GrantStatus → Store × Bool
set_grant_status s handle status = (
  record s {
    grants = update_where (λ g. g.handle == handle) (λ g. record g { status = status }) s.grants;
  },
  count_where (λ g. g.handle == handle) s.grants == 1,
)
