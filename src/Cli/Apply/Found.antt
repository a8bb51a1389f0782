-- ===== src/Cli/Apply/Found.antt =====
-- The options and results of reconcile in config-apply.ts, and what it has found before it writes.
use gatekeeper_os.Prelude.{
  ◌==◌, List, [], ◌∷◌, ◌++◌, none, Option, Bool, maybe, true, false, nat_eq, is_some, not, ◌&&◌,
  ◌||◌, any,
}
use gatekeeper_os.Cli.Json.{text, set_field, Json, Fields, Text, text_eq, units, object, get_field}
use gatekeeper_os.Cli.Json5.Scan.{strip}
use gatekeeper_os.Cli.Merge.Diff.{ConfigChange}
use gatekeeper_os.Cli.Policy.{is_text}
use gatekeeper_os.Cli.Apply.Machine.{unstaged, Platform, Log, fields_of}
use gatekeeper_os.Cli.Apply.Owned.{Conflicts, digest}

pub record Options : Type 0 where
  pub force : Bool
  pub dry_run : Bool
  pub skip_restart : Bool

pub record ConfigApplyResult : Type 0 where
  pub is_changed : Bool
  pub changes : List ConfigChange
  pub fingerprint : Text
  pub restarted : Bool
  pub conflicts : List Text
  pub adopted : Bool

abbrev restart_requiring : List Text
restart_requiring =
    units "gateway.port"
    ∷ units "gateway.bind"
    ∷ units "gateway.auth"
    ∷ units "gateway.tls"
    ∷ units "gateway.mode"
    ∷ units "plugins"
    ∷ []

abbrev pub needs_restart : Text → Bool
needs_restart path = any (λ k. path == k || is_some (strip (k ++ b'.' ∷ []) path)) restart_requiring

-- What the reading half of reconcile has found.
pub record Found : Type 0 where
  pub catalog_digest : Text
  pub is_catalog_changed : Bool
  pub desired : Json
  pub changes : List ConfigChange
  pub revision : Text
  pub lock : Option Fields
  pub guard : Conflicts

abbrev pub recorded_digests : Option Fields → Option Fields
recorded_digests lock = maybe lock none (λ fs. fields_of (get_field (units "ownedDigests") fs))

abbrev pub has_any : List Text → Bool
has_any [] = false
has_any (t ∷ ts) = true

abbrev no_changes : List ConfigChange → Bool
no_changes [] = true
no_changes (c ∷ cs) = false

-- `rmSync` with `force`
abbrev pub remove_staging : Log → Log
remove_staging log = unstaged ∷ log

module _ (p : Platform) where
  -- `generated` and `fingerprint`
  abbrev pub generated_text : Found → Text
  generated_text f = p.print f.desired ++ 10 ∷ []

  abbrev pub fingerprint_of : Found → Text
  fingerprint_of f = digest p (generated_text f)

  abbrev has_fingerprint : Found → Bool
  has_fingerprint f =
      maybe f.lock false
        (λ fs. is_text (fingerprint_of f) (get_field (units "configFingerprint") fs))

  abbrev pub is_in_sync : Found → Bool
  is_in_sync f =
      no_changes f.changes
      && not f.is_catalog_changed
      && has_fingerprint f
      && not f.guard.adopted
      && not (has_any f.guard.conflicts)

  abbrev pub unchanged : Found → List ConfigChange → List Text → ConfigApplyResult
  unchanged f changes conflicts = record {
    is_changed = false;
    changes = changes;
    fingerprint = fingerprint_of f;
    restarted = false;
    conflicts = conflicts;
    adopted = false;
  }

  abbrev pub would_change : Found → ConfigApplyResult
  would_change f = record (unchanged f f.changes []) {
    is_changed = not (no_changes f.changes) || f.is_catalog_changed;
  }

  abbrev pub applied_result : Found → Bool → ConfigApplyResult
  applied_result f restarted = record (unchanged f f.changes []) {
    is_changed = true;
    restarted = restarted;
    adopted = f.guard.adopted;
  }

  abbrev pub checkpoint_fields : Found → Fields → Fields → Fields
  checkpoint_fields f digests base =
      set_field (units "ownedDigests") (object digests)
        (set_field (units "configFingerprint") (text (fingerprint_of f)) base)

  abbrev pub printed_fields : Fields → Text
  printed_fields fs = p.print (object fs) ++ 10 ∷ []
