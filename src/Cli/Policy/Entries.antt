-- ===== src/Cli/Policy/Entries.antt =====
-- reconcileGatekeeperPolicy of packages/gkos-cli/src/util/gatekeeper-policy.ts. What JSON.parse gives of
-- a plugin's manifest is a parameter, `none` where it cannot be read, and so is `String` of a value.
use gatekeeper_os.Cli.Json5.Scan.{strip}
use gatekeeper_os.Cli.Merge.{or_null}
use gatekeeper_os.Cli.Merge.Diff.{get_path}
use gatekeeper_os.Cli.Policy.{includes_text, items_of, is_text}
use gatekeeper_os.Cli.Policy.Catalog.{
  admit_all_agents, is_listed, is_false, admit_in, id_prefix, is_one, all_strings, tools_of,
  text_member, member, admit_agents, is_gatekeeper_id, admit, tool_names, is_unique,
}
use gatekeeper_os.Prelude.{
  if◌then◌else◌, all, map, any, ◌++◌, maybe, not, ◌&&◌, ◌==◌, length, List, Bool, Option, none,
  some, [], ◌∷◌, nat_eq, true, false,
}
use gatekeeper_os.Cli.Json.{units, Text, Json, Fields, text_eq, object}
use gatekeeper_os.Cli.Script.{
  stateless, require, from_option, give, Script, ◌>>=◌, ◌>>◌, step_error, other_error,
}

-- The manifest of a plugin declares exactly the tools of its catalog entry, all of its vendor.
unfoldable pub declares : (prefix : Text) → List (Option Json) → List Json → Bool
unfolding is_unique
declares prefix names declared =
    length declared == length names
    && is_unique declared
    && maybe (all_strings (map or_null names)) false (λ ts.
      is_unique (map or_null names)
      && all (λ t. maybe (strip prefix t) false (λ rest. includes_text t declared)) ts)

abbrev pub is_derived : Fields → Bool
is_derived out =
    is_text (units "messaging") (get_path (object out) (units "tools.profile"))
    && maybe (get_path (object out) (units "tools.allow")) true (λ v. false)

module _ (to_text : Option Json → Text) (manifest_of : Text → Option Json) {S : Type 0} where
  -- The plugin id of an entry, which is not one that was seen.
  unfoldable pub entry_id : List Text → Json → Script S Text
  unfolding is_gatekeeper_id
  entry_id seen entry = do
    plugin ← member entry (units "pluginId")
    vendor ← member entry (units "vendor")
    id ← from_option (text_member plugin) (step_error "Invalid gatekeeper catalog identity")
    require
        (is_gatekeeper_id id && id == id_prefix ++ to_text vendor && not (any (λ s. s == id) seen))
        "Invalid gatekeeper catalog identity"
    give id

  abbrev pub is_switched_off : Json → Text → Script S Bool
  is_switched_off out id =
      if is_false (get_path out (units "plugins.entries." ++ id ++ units ".enabled"))
      then give true
      else is_listed (get_path out (units "plugins.deny")) id

  abbrev pub tools_match : Text → Json → Json → List Json → Script S (Unit {0})
  tools_match id entry manifest tools = do
    names ← tool_names tools
    vendor ← member entry (units "vendor")
    plugin ← member manifest (units "id")
    contracts ← member manifest (units "contracts")
    declared ←
        from_option (items_of (tools_of contracts))
          (step_error "Gatekeeper manifest id/contracts.tools mismatch")
    require
        (is_text id plugin && declares (units "gk_" ++ to_text vendor ++ units "_") names declared)
        "Gatekeeper manifest id/contracts.tools mismatch"

  -- Whether an enabled entry is admitted.
  unfoldable pub entry_admitted : Json → Text → Json → Script S Bool
  unfolding tool_names declares
  entry_admitted out id entry = do
    place ← member entry (units "root")
    tools ← member entry (units "tools")
    root ← from_option (text_member place) (step_error "Invalid gatekeeper catalog metadata")
    listed ← from_option (items_of tools) (step_error "Invalid gatekeeper catalog metadata")
    manifest ← from_option (manifest_of root) (other_error "unreadable manifest")
    tools_match id entry manifest listed
    off ← is_switched_off out id
    give (not off)

  abbrev if_enabled : Json → Text → Json → Script S Bool
  if_enabled out id entry = do
    enabled ← member entry (units "enabled")
    if is_false enabled then give false else entry_admitted out id entry

  unfoldable pub catalog_ids : Json → List Text → List Json → Script S (List Text)
  unfolding entry_id entry_admitted
  catalog_ids out seen [] = give []
  catalog_ids out seen (entry ∷ rest) = do
    id ← entry_id seen entry
    admitted ← if_enabled out id entry
    ids ← catalog_ids out (id ∷ seen) rest
    give (if admitted then id ∷ ids else ids)

  abbrev listed_ids : Json → Option Json → Script S (List Text)
  listed_ids out none = give []
  listed_ids out (some catalog) = do
    version ← member catalog (units "version")
    entries ← member catalog (units "gatekeepers")
    listed ← from_option (items_of entries) (step_error "Invalid gatekeeper catalog")
    require (is_one version) "Invalid gatekeeper catalog"
    catalog_ids out [] listed

  abbrev admit_all : Fields → List Text → Script S Json
  admit_all out ids = do
    tools ← admit_in ids out
    agents ← admit_all_agents ids tools
    give (object agents)

  -- What is computed of the catalog.
  unfoldable pub derive_policy : Fields → Option Json → Script S Json
  unfolding catalog_ids admit admit_agents
  derive_policy out catalog = listed_ids (object out) catalog >>= admit_all out

module _ (to_text : Option Json → Text) (manifest_of : Text → Option Json) {S : Type 0} where
  -- The catalog, which is read where it is needed, is `none` where there is no file.
  unfoldable pub reconcile_gatekeeper_policy : Json → Script S (Option Json) → Script S Json
  unfolding derive_policy
  reconcile_gatekeeper_policy (object out) read_catalog =
      if is_derived out
      then (read_catalog >>= (λ catalog. stateless (derive_policy to_text manifest_of out catalog)))
      else give (object out)
  reconcile_gatekeeper_policy other read_catalog = give other
