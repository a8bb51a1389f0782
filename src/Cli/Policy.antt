-- ===== src/Cli/Policy.antt =====
-- packages/gkos-cli/src/util/policy.ts: the policies of a cell and the sandbox that the runtime policy
-- needs. `String` of a value is a parameter.
pub mod Catalog
pub mod Entries
use gatekeeper_os.Prelude.{
  ◌==◌, List, [], ◌∷◌, none, some, Option, Bool, maybe, any, all, filter, true, false,
  if◌then◌else◌, not, ◌&&◌, ◌||◌, nat_eq,
}
use gatekeeper_os.Cli.Json.{
  null, bool, number, text, array, object, no_fields, field, no_items, item, Json, Fields, Items,
  Text, text_eq, units,
}
use gatekeeper_os.Cli.Merge.Diff.{get_path}

pub data CellPolicy : Type 0 where
  messaging runtime : CellPolicy

unfoldable pub parse_cell_policy : Text → Option CellPolicy
parse_cell_policy value =
    if value == units "messaging"
    then some messaging
    else if value == units "runtime"
    then some runtime
    else none

abbrev pub is_kept : CellPolicy → Text → Bool
is_kept runtime name = not (name == units "20-sandbox.json5")
is_kept messaging name = not (name == units "05-policy-runtime.json5")

unfoldable pub policy_fragments : List Text → CellPolicy → List Text
policy_fragments names policy = filter (is_kept policy) names

-- `value === "..."`
abbrev pub is_text : Text → Option Json → Bool
is_text t (some (text s)) = s == t
is_text t other = false

abbrev pub elements : Items → List Json
elements no_items = []
elements (item v rest) = v ∷ elements rest

abbrev pub values : Fields → List Json
values no_fields = []
values (field k v rest) = v ∷ values rest

-- `Array.isArray`
abbrev pub items_of : Option Json → Option (List Json)
items_of (some (array xs)) = some (elements xs)
items_of other = none

abbrev pub includes_text : Text → List Json → Bool
includes_text t xs = any (λ v. is_text t (some v)) xs

abbrev exec_modes : List Text
exec_modes = units "allowlist" ∷ units "ask" ∷ units "auto" ∷ units "full" ∷ []

abbrev runtime_denials : List Text
runtime_denials =
    units "*"
    ∷ units "exec"
    ∷ units "bash"
    ∷ units "group:runtime"
    ∷ units "group:fs"
    ∷ units "read"
    ∷ units "write"
    ∷ units "edit"
    ∷ units "apply_patch"
    ∷ []

unfoldable pub runtime_cell : (to_text : Option Json → Text) → Json → Bool
unfolding get_path
runtime_cell to_text config =
    maybe (items_of (get_path config (units "tools.allow"))) false λ allow.
      maybe (items_of (get_path config (units "tools.deny"))) false λ deny.
        is_text (units "all") (get_path config (units "agents.defaults.sandbox.mode"))
        && is_text (units "sandbox") (get_path config (units "tools.exec.host"))
        && any (λ mode. to_text (get_path config (units "tools.exec.mode")) == mode) exec_modes
        && includes_text (units "exec") allow
        && includes_text (units "group:fs") allow
        && not (any (λ t. includes_text t deny) runtime_denials)

-- An agent of a runtime cell whose turns may run outside the sandbox, and what it is denied.
abbrev pub is_denied : Json → Bool
is_denied entry =
    is_text (units "deny") (get_path entry (units "tools.exec.mode"))
    && maybe (items_of (get_path entry (units "tools.deny"))) false
        (includes_text (units "group:fs"))

abbrev pub is_sandboxed : Json → Bool
is_sandboxed entry =
    maybe (get_path entry (units "sandbox.mode")) true
      (λ mode. is_text (units "all") (some mode) || is_denied entry)

abbrev pub agent_entries : Json → List Json
agent_entries config = elim (get_path config (units "agents.entries")) [
  | some (object fs) ↦ values fs
  | _ ↦ []
]

-- Whether assertRuntimeSandbox returns.
unfoldable pub assert_runtime_sandbox : Json → Bool
unfolding get_path
assert_runtime_sandbox config =
    is_text (units "all") (get_path config (units "agents.defaults.sandbox.mode"))
    && all is_sandboxed (agent_entries config)
