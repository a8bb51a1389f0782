-- ===== src/Cli/Apply/Owned.antt =====
-- The paths of the configuration that the system owns: readOwnedConfig and ownedSlice of
-- util/openclaw.ts, detectConflicts and digestOwned of config-apply.ts.
use gatekeeper_os.Prelude.{
  ◌==◌, List, [], ◌∷◌, ◌++◌, none, some, Option, Bool, maybe, true, false, if◌then◌else◌, nat_eq,
  map, is_some, not, ◌&&◌,
}
use gatekeeper_os.Cli.Json.{
  Json, Fields, Text, text_eq, units, text, object, bool, get_field, set_field, no_fields, field,
}
use gatekeeper_os.Cli.Json5.Scan.{strip}
use gatekeeper_os.Cli.Merge.Diff.{get_path}
use gatekeeper_os.Cli.Merge.Canonical.{canonicalize}
use gatekeeper_os.Cli.Script.{Script, ◌>>=◌, give, throw, from_option, step_error}
use gatekeeper_os.Cli.Apply.Machine.{Host, Platform, Log, RunResult, openclaw, get_root}

abbrev pub owned_paths : List Text
owned_paths =
    units "gateway.auth"
    ∷ units "gateway.bind"
    ∷ units "gateway.mode"
    ∷ units "gateway.reload"
    ∷ units "tools"
    ∷ units "plugins.entries.gkos-kernel"
    ∷ units "plugins.entries.gkos-gatekeeper-fs"
    ∷ units "plugins.deny"
    ∷ units "plugins.allow"
    ∷ units "plugins.load"
    ∷ units "security.installPolicy"
    ∷ units "agents.defaults.sandbox"
    ∷ units "update"
    ∷ units "hooks.internal.entries.gkos-bootstrap"
    ∷ units "hooks.internal.entries.gkos-lifecycle"
    ∷ []

abbrev pub owned_roots : List Text
owned_roots =
    units "gateway"
    ∷ units "tools"
    ∷ units "plugins"
    ∷ units "agents"
    ∷ units "update"
    ∷ units "hooks"
    ∷ units "security"
    ∷ []

-- A path and its value.
pub record Owned : Type 0 where
  pub path : Text
  pub value : Option Json

unfoldable pub owned_slice : Json → List Owned
unfolding get_path
owned_slice config = map (λ p. record { path = p; value = get_path config p }) owned_paths

pub record Conflicts : Type 0 where
  pub conflicts : List Text
  pub adopted : Bool

module _ (p : Platform) where
  abbrev pub digest : Text → Text
  digest t = units "sha256:" ++ p.sha256 t

  abbrev pub digest_of : Option Json → Text
  digest_of v = digest (canonicalize p.quote v)

  -- `digest(...) !== expected`
  abbrev pub is_changed : Option Json → Json → Bool
  is_changed v (text expected) = not (digest_of v == expected)
  is_changed v other = true

  unfoldable pub changed_paths : List Owned → Fields → List Text
  unfolding canonicalize
  changed_paths [] recorded = []
  changed_paths (o ∷ os) recorded =
      let later = changed_paths os recorded in
      if maybe (get_field o.path recorded) false (is_changed o.value) then o.path ∷ later else later

  unfoldable pub detect_conflicts : List Owned → Option Fields → Conflicts
  unfolding changed_paths
  detect_conflicts live none = record { conflicts = []; adopted = true }
  detect_conflicts live (some no_fields) = record { conflicts = []; adopted = true }
  detect_conflicts live (some (field k v rest)) = record {
    conflicts = changed_paths live (field k v rest);
    adopted = false;
  }

  unfoldable pub digest_owned : List Owned → Fields
  unfolding canonicalize
  digest_owned [] = no_fields
  digest_owned (o ∷ os) = field o.path (text (digest_of o.value)) (digest_owned os)

  -- What upstream says of a root that is not set.
  abbrev pub unset_message : Text → Text
  unset_message root = units "Config path is valid but unset: " ++ root ++ units "."

  abbrev pub says_unset : Text → Option Json → Bool
  says_unset root (some (object e)) = elim (get_field (units "message") e) [
    | some (text m) ↦ is_some (strip (unset_message root) m)
    | _ ↦ false
  ]
  says_unset root other = false

  abbrev pub is_not_ok : Option Json → Bool
  is_not_ok (some (bool b)) = not b
  is_not_ok other = false

  abbrev pub is_unset : Text → RunResult → Json → Bool
  is_unset root result (object failure) =
      result.code == 1
      && is_not_ok (get_field (units "ok") failure)
      && says_unset root (get_field (units "error") failure)
  is_unset root result other = false

  module _ (h : Host) where
    abbrev pub keep_root : Text → RunResult → Json → Fields → Script Log Fields
    keep_root root result value out =
        if result.code == 0
        then give (set_field root value out)
        else if is_unset root result value
        then give out
        else throw (step_error "could not read owned config root; refusing reconciliation")

    unfoldable pub read_roots : List Text → Fields → Script Log Fields
    unfolding openclaw
    read_roots [] out = give out
    read_roots (root ∷ roots) out = do
      result ← openclaw h p (get_root root)
      value ←
          from_option (p.parse result.stdout)
            (step_error "could not read owned config root; refusing reconciliation")
      kept ← keep_root root result value out
      read_roots roots kept

    unfoldable pub read_owned_config : Script Log Json
    unfolding read_roots
    read_owned_config = read_roots owned_roots no_fields >>= (λ out. give (object out))
