-- ===== src/Cli/Upgrade/Compatibility.antt =====
-- exactTarget, pluginCompatibility and currentBinary of update.ts.
use gatekeeper_os.Prelude.{
  List, [], ◌∷◌, none, some, Option, Bool, maybe, true, false, if◌then◌else◌, nat_eq, ◌&&◌, any,
  filter, leb, length,
}
use gatekeeper_os.Cli.Json.{
  Json, Text, text_eq, Fields, field, no_fields, object, null, text, units, get_field,
}
use gatekeeper_os.Cli.Json5.Grammar.{parse_json5, value, error, exhausted, Result}
use gatekeeper_os.Cli.Merge.Diff.{get_path}
use gatekeeper_os.Cli.Policy.{is_text, items_of, includes_text}
use gatekeeper_os.Cli.Policy.Catalog.{all_strings}
use gatekeeper_os.Cli.Apply.Machine.{trim}
use gatekeeper_os.Cli.Script.{
  ◌>>=◌, ◌>>◌, give, throw, require, from_option, step_error, other_error,
}
use gatekeeper_os.Cli.Upgrade.Versions.{exact_version}
use gatekeeper_os.Cli.Upgrade.Options.{option_value, requested_release}
use gatekeeper_os.Cli.Upgrade.Machine.{
  Host, Platform, Steps, configuration, package_of, plugin_of, npm_view, find_openclaw, command,
  try_read, read_file,
}
use gatekeeper_os.Cli.Upgrade.Runtime.{read_lockfile, run_json, properties, text_at}

-- An installed plugin, by its two files.
pub record Installed : Type 0 where
  pub metadata : Json
  pub manifest : Json

pub record PluginVerdict : Type 0 where
  pub id : Text
  pub is_compatible : Bool

abbrev pub exact_json : Json → Option Text
exact_json (text t) = if exact_version t then some t else none
exact_json other = none

abbrev pub has_manifest_id : Text → Installed → Bool
has_manifest_id id i = is_text id (get_path i.manifest (units "id"))

-- `manifest.id` of `null` is a TypeError.
abbrev is_null_manifest : Installed → Bool
is_null_manifest i = elim i.manifest [ null ↦ true | _ ↦ false ]

abbrev readable : List Installed → Option (Unit {0})
readable is = if any is_null_manifest is then none else some tt

abbrev pub the_only : List Installed → Option Installed
the_only (i ∷ []) = some i
the_only other = none

abbrev is_range : Text → Bool
is_range t = leb 1 (length t) && leb (length t) 256

abbrev pub range_of : Installed → Option Text
range_of i = elim (get_path i.metadata (units "openclaw.compat.pluginApi")) [
  | some (text t) ↦ if is_range t then some t else none
  | _ ↦ none
]

-- `(Array.isArray(resolved) ? resolved : [resolved]).includes(target)`
abbrev resolves_to : Text → Json → Bool
resolves_to target resolved =
    maybe (items_of (some resolved)) (is_text target (some resolved)) (includes_text target)

module _ (p : Platform) (h : Host) where
  unfoldable pub exact_target : List Text → Steps Text
  unfolding option_value exact_version
  exact_target args = do
    release ←
        from_option
          (requested_release (option_value args (units "--to"))
            (option_value args (units "--channel")))
          (step_error "Exact version or supported release required")
    answer ← run_json p h (npm_view release)
    from_option (exact_json answer) (step_error "Registry did not resolve one exact release")

  abbrev package_and : Text → Option Json → Steps (Option Installed)
  package_and root none = give none
  package_and root (some metadata) = try_read h (plugin_of root) >>= (λ t. give (
      maybe (maybe t none p.parse) none (λ m. some (record { metadata = metadata; manifest = m }))))

  -- The `try` around the two files.
  abbrev pub read_plugin : Text → Steps (Option Installed)
  read_plugin root = try_read h (package_of root) >>= (λ t. package_and root (maybe t none p.parse))

  abbrev and_installed : Option Installed → List Installed → List Installed
  and_installed none rest = rest
  and_installed (some i) rest = i ∷ rest

  unfoldable pub read_plugins : List Text → Steps (List Installed)
  read_plugins [] = give []
  read_plugins (root ∷ roots) = do
    installed ← read_plugin root
    rest ← read_plugins roots
    give (and_installed installed rest)

  unfoldable pub plugin_verdict : List Text → Text → (id : Text) → Json → Steps PluginVerdict
  unfolding read_plugins get_path
  plugin_verdict roots target id version = do
    all_installed ← read_plugins (filter p.is_absolute roots)
    _ ← from_option (readable all_installed) (other_error "TypeError")
    installed ←
        from_option (the_only (filter (has_manifest_id id) all_installed))
          (step_error "Installed plugin metadata disagrees with lockfile")
    pinned ←
        from_option (text_version version)
          (step_error "Installed plugin metadata disagrees with lockfile")
    require (is_text pinned (get_path installed.metadata (units "version")))
        "Installed plugin metadata disagrees with lockfile"
    range ← from_option (range_of installed) (step_error "Plugin compatibility range missing")
    resolved ← run_json p h (npm_view range)
    give (record { id = id; is_compatible = resolves_to target resolved })
    where
      text_version : Json → Option Text
      text_version (text t) = some t
      text_version other = none

  unfoldable pub plugin_verdicts : List Text → Text → Fields → Steps (List PluginVerdict)
  unfolding plugin_verdict
  plugin_verdicts roots target no_fields = give []
  plugin_verdicts roots target (field id version rest) = do
    verdict ← plugin_verdict roots target id version
    verdicts ← plugin_verdicts roots target rest
    give (verdict ∷ verdicts)

  abbrev nonempty : List Text → Option (List Text)
  nonempty [] = none
  nonempty (t ∷ ts) = some (t ∷ ts)

  abbrev pub load_paths : Json → Option (List Text)
  load_paths config =
      maybe (items_of (get_path config (units "plugins.load.paths"))) none
        (λ xs. maybe (all_strings xs) none nonempty)

  abbrev pub pinned_plugins : Fields → Option Fields
  pinned_plugins lock = elim (get_field (units "plugins") lock) [
    | some (object plugins) ↦ some plugins
    | _ ↦ none
  ]

  abbrev parsed_config : Result Json → Steps Json
  parsed_config (value v) = give v
  parsed_config (error m line column) = throw (other_error "Json5Error")
  parsed_config exhausted = throw (other_error "Json5Error")

  unfoldable pub plugin_compatibility :
      (to_number : Text → Option Text) → Fields → Text → Steps (List PluginVerdict)
  unfolding plugin_verdicts parse_json5 get_path
  plugin_compatibility to_number lock target = do
    t ← read_file h configuration
    config ← parsed_config (parse_json5 to_number t)
    _ ← from_option (properties config) (other_error "TypeError")
    roots ← from_option (load_paths config) (step_error "Installed plugin paths are unavailable")
    plugins ← from_option (pinned_plugins lock) (other_error "TypeError")
    plugin_verdicts roots target plugins

  -- The runtime of the lockfile, unless it is not set or empty.
  abbrev selected_binary : Option Text → Steps Text
  selected_binary (some (c ∷ t)) = give (c ∷ t)
  selected_binary other = command h find_openclaw >>= (λ out. give (trim out))

  unfoldable pub current_binary : Steps Text
  current_binary = do
    lock ← read_lockfile p h
    binary ← selected_binary (maybe lock none (text_at (units "runtimeBinary")))
    from_option (p.real_path binary) (other_error "realpathSync")
