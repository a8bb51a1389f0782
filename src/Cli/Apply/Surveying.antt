-- ===== src/Cli/Apply/Surveying.antt =====
-- The readings of reconcile, and its calls of other programs, keep whatever quiet calls keep.
use gatekeeper_os.Prelude.{
  nat_eq, ◌==◌, String, List, [], ◌∷◌, none, some, Option, Bool, true, false, ◌≡◌, refl, Bool-cases,
  inl, inr,
}
use gatekeeper_os.Cli.Json.{Text, Json, Fields, object, null, text, array, number, bool}
use gatekeeper_os.Cli.Json5.Grammar.{value, error, exhausted, Result}
use gatekeeper_os.Cli.Policy.Entries.{reconcile_gatekeeper_policy, is_derived}
use gatekeeper_os.Cli.Script.{other_error}
use gatekeeper_os.Cli.Script.Keeps.{Ends}
use gatekeeper_os.Cli.Apply.Machine.{
  make_staging, list_fragments, openclaw, run_program, read_file, Event, Log, Host, Platform,
  RunResult, staged, not_staged, was_listed, get_root, find_openclaw, restart, catalog,
  catalog_state, generated, fragment_file,
}
use gatekeeper_os.Cli.Apply.Owned.{keep_root, read_roots, read_owned_config, is_unset}
use gatekeeper_os.Cli.Apply.Fragments.{
  parsed_fragment, read_fragments, merge_fragments, catalog_if, catalog_json,
}
use gatekeeper_os.Cli.Apply.Commit.{
  find_binary, digest_if, catalog_digest, differs_if, is_catalog_changed, previous_if,
  previous_config,
}
use gatekeeper_os.Cli.Apply.Reconcile.{restart_if, confirm_catalog}
use gatekeeper_os.Cli.Apply.Sound.{kind, quiet}
use gatekeeper_os.Cli.Apply.Calm.{
  Calm, bind-Calm, then-Calm, give-Calm, throw-Calm, require-Calm, from_option-Calm, stateless-Calm,
  test_file-Calm, run_program-Calm, read_file-Calm, openclaw-Calm,
}

module _ (p : Platform) (h : Host) (J : Log → Type 0)
    (stable : (e : Event) (log : Log) → kind p e ≡ quiet → J log → J (e ∷ log)) where
  get_root-Calm : (root : Text) → Calm p h J stable (openclaw h p (get_root root))
  get_root-Calm root = openclaw-Calm p h J stable (get_root root) (λ r. refl)

  keep_root-Calm :
      (root : Text) (r : RunResult) (v : Json) (out : Fields)
      → Calm p h J stable (keep_root p h root r v out)
  keep_root-Calm root r v out = elim (Bool-cases (r.code == 0)) [
    | inl e ↦ rw e (search give-Calm)
    | inr e ↦ elim (Bool-cases (is_unset p root r v)) [
      | inl f ↦ rw (e, f) (search give-Calm)
      | inr f ↦ rw (e, f) (search throw-Calm)
    ]
  ]

  read_roots-Calm :
      (roots : List Text) (out : Fields) → Calm p h J stable (read_roots p h roots out)
  unfolding read_roots
  read_roots-Calm [] out = search give-Calm
  read_roots-Calm (root ∷ roots) out =
      search (bind-Calm, from_option-Calm, get_root-Calm, keep_root-Calm, read_roots-Calm roots)

  pub read_owned_config-Calm : Calm p h J stable (read_owned_config p h)
  unfolding read_owned_config
  read_owned_config-Calm = search (bind-Calm, give-Calm, read_roots-Calm)

  read_catalog-Calm : Calm p h J stable (read_file h catalog)
  read_catalog-Calm = read_file-Calm p h J stable catalog (λ t. refl)

  digest_if-Calm : (b : Bool) → Calm p h J stable (digest_if p h b)
  digest_if-Calm true = search (bind-Calm, give-Calm, read_catalog-Calm)
  digest_if-Calm false = search give-Calm

  pub catalog_digest-Calm : Calm p h J stable (catalog_digest p h)
  catalog_digest-Calm = search (bind-Calm, test_file-Calm, digest_if-Calm)

  read_catalog_state-Calm : Calm p h J stable (read_file h catalog_state)
  read_catalog_state-Calm = read_file-Calm p h J stable catalog_state (λ t. refl)

  differs_if-Calm : (current : Text) (b : Bool) → Calm p h J stable (differs_if p h current b)
  differs_if-Calm current true = search (bind-Calm, give-Calm, read_catalog_state-Calm)
  differs_if-Calm current false = search give-Calm

  pub is_catalog_changed-Calm :
      (current : Text) → Calm p h J stable (is_catalog_changed p h current)
  is_catalog_changed-Calm current = search (bind-Calm, test_file-Calm, differs_if-Calm)

  read_generated-Calm : Calm p h J stable (read_file h generated)
  read_generated-Calm = read_file-Calm p h J stable generated (λ t. refl)

  previous_if-Calm : (b : Bool) → Calm p h J stable (previous_if p h b)
  previous_if-Calm true = search (bind-Calm, from_option-Calm, read_generated-Calm)
  previous_if-Calm false = search give-Calm

  pub previous_config-Calm : Calm p h J stable (previous_config p h)
  previous_config-Calm = search (bind-Calm, test_file-Calm, previous_if-Calm)

  list_fragments-Calm : Calm p h J stable (list_fragments h)
  unfolding Calm
  list_fragments-Calm log j =
      from_option-Calm p h J stable (h.lists log) (other_error "readdirSync")
        (was_listed (h.lists log) ∷ log) (stable (was_listed (h.lists log)) log refl j)

  pub make_staging-Calm : Calm p h J stable (make_staging h)
  unfolding Ends Calm
  make_staging-Calm log j = elim (Bool-cases (h.stages log)) [
    | inl e ↦ rw e (stable staged log refl j, tt)
    | inr e ↦ rw e (stable not_staged log refl j)
  ]

  read_fragment-Calm : (name : Text) → Calm p h J stable (read_file h (fragment_file name))
  read_fragment-Calm name = read_file-Calm p h J stable (fragment_file name) (λ t. refl)

  parsed_fragment-Calm : (r : Result Fields) → Calm p h J stable (parsed_fragment p h r)
  parsed_fragment-Calm (value fs) = search give-Calm
  parsed_fragment-Calm (error m line column) = search throw-Calm
  parsed_fragment-Calm exhausted = search throw-Calm

  read_fragments-Calm : (names : List Text) → Calm p h J stable (read_fragments p h names)
  unfolding read_fragments
  read_fragments-Calm [] = search give-Calm
  read_fragments-Calm (name ∷ names) =
      search
        (bind-Calm, give-Calm, read_fragment-Calm, parsed_fragment-Calm, read_fragments-Calm names)

  catalog_if-Calm : (b : Bool) → Calm p h J stable (catalog_if p h b)
  catalog_if-Calm true = search (bind-Calm, give-Calm, from_option-Calm, read_catalog-Calm)
  catalog_if-Calm false = search give-Calm

  catalog_json-Calm : Calm p h J stable (catalog_json p h)
  catalog_json-Calm = search (bind-Calm, test_file-Calm, catalog_if-Calm)

  policy-Calm :
      (config : Json)
      → Calm p h J stable
          (reconcile_gatekeeper_policy p.to_text p.manifest_of config (catalog_json p h))
  unfolding reconcile_gatekeeper_policy
  policy-Calm (object out) = elim (Bool-cases (is_derived out)) [
    | inl e ↦ rw e (search (bind-Calm, stateless-Calm, catalog_json-Calm))
    | inr e ↦ rw e (search give-Calm)
  ]
  policy-Calm null = search give-Calm
  policy-Calm (bool b) = search give-Calm
  policy-Calm (number n) = search give-Calm
  policy-Calm (text s) = search give-Calm
  policy-Calm (array xs) = search give-Calm

  pub merge_fragments-Calm : Calm p h J stable (merge_fragments p h)
  unfolding merge_fragments
  merge_fragments-Calm =
      search
        (
          bind-Calm, then-Calm, test_file-Calm, require-Calm, list_fragments-Calm,
          read_fragments-Calm, policy-Calm,
        )
        depth 12

  find_openclaw-Calm : Calm p h J stable (run_program h find_openclaw)
  find_openclaw-Calm = run_program-Calm p h J stable find_openclaw (λ r. refl)

  pub find_binary-Calm : (selected : Option Text) → Calm p h J stable (find_binary p h selected)
  find_binary-Calm (some binary) = search give-Calm
  find_binary-Calm none = search (bind-Calm, then-Calm, give-Calm, require-Calm, find_openclaw-Calm)

  restart-Calm : Calm p h J stable (openclaw h p restart)
  restart-Calm = openclaw-Calm p h J stable restart (λ r. refl)

  pub restart_if-Calm : (b : Bool) → Calm p h J stable (restart_if p h b)
  restart_if-Calm true = search (bind-Calm, then-Calm, give-Calm, require-Calm, restart-Calm)
  restart_if-Calm false = search give-Calm

  pub confirm_catalog-Calm :
      (current : Text) (message : String) → Calm p h J stable (confirm_catalog p h current message)
  confirm_catalog-Calm current message = search (bind-Calm, require-Calm, catalog_digest-Calm)
