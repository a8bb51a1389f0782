-- ===== src/Cli/Apply/Commit.antt =====
-- The steps of reconcile in config-apply.ts that read and check, and transactionalPatch of
-- util/openclaw.ts.
use gatekeeper_os.Prelude.{
  ◌∷◌, ◌==◌, List, none, some, Option, Bool, maybe, true, false, if◌then◌else◌, nat_eq, ℕ, not,
  ◌&&◌, ◌||◌, any, all, leb, length,
}
use gatekeeper_os.Cli.Json.{Json, Text, text_eq, units, object, null, get_field, no_fields}
use gatekeeper_os.Cli.Json5.Scan.{is_digit}
use gatekeeper_os.Cli.Policy.{items_of, is_text}
use gatekeeper_os.Cli.Script.{
  Script, ◌>>=◌, ◌>>◌, give, require, from_option, step_error, other_error,
}
use gatekeeper_os.Cli.Apply.Machine.{
  Host, Platform, Log, RunResult, catalog, catalog_state, generated, test_file, read_file,
  run_program, text_field, committed_runtime, find_openclaw, transaction, trim, fields_of,
}
use gatekeeper_os.Cli.Apply.Owned.{digest}

abbrev is_hash_unit : ℕ → Bool
is_hash_unit c = is_digit c || (leb b'a' c && leb c b'f')

abbrev pub hash_of : Option Text → Option Text
hash_of none = none
hash_of (some t) = if length t == 64 && all is_hash_unit t then some t else none

-- An empty text is as none.
abbrev pub given_text : Option Text → Option Text
given_text (some (c ∷ t)) = some (c ∷ t)
given_text other = none

module _ (p : Platform) (h : Host) where
  -- `binary.stdout`, where the committed runtime is not set
  abbrev pub find_binary : Option Text → Script Log Text
  find_binary (some binary) = give binary
  find_binary none = do
    found ← run_program h find_openclaw
    require (found.code == 0) "openclaw is not on PATH"
    give found.stdout

  -- The hash that the helper prints, in lower case.
  abbrev pub persisted_hash : RunResult → Option Text
  persisted_hash result =
      maybe (fields_of (p.parse result.stdout)) none
        (λ fs. hash_of (text_field (units "persistedHash") fs))

  -- What the helper's answer is.
  abbrev pub answered_patch : RunResult → Script Log Text
  answered_patch result = do
    require (result.code == 0) "config transaction refused: config changed or validation failed"
    from_option (persisted_hash result)
        (step_error "config transaction returned no valid persisted revision")

  unfoldable pub transactional_patch : Text → Script Log Text
  unfolding committed_runtime
  transactional_patch revision = do
    selected ← committed_runtime h p
    binary ← find_binary (given_text selected)
    result ← run_program h (transaction (trim binary) revision)
    answered_patch result

  abbrev pub digest_if : Bool → Script Log Text
  digest_if true = read_file h catalog >>= (λ t. give (digest p t))
  digest_if false = give (digest p (units "absent"))

  abbrev pub catalog_digest : Script Log Text
  catalog_digest = test_file h catalog >>= digest_if

  abbrev pub differs_if : Text → Bool → Script Log Bool
  differs_if current true = read_file h catalog_state >>= (λ t. give (not (t == current)))
  differs_if current false = give true

  abbrev pub is_catalog_changed : Text → Script Log Bool
  is_catalog_changed current = test_file h catalog_state >>= differs_if current

  abbrev pub previous_if : Bool → Script Log Json
  previous_if true =
      read_file h generated >>= (λ t. from_option (p.parse t) (other_error "SyntaxError"))
  previous_if false = give (object no_fields)

  -- What the generated file has, if there is one.
  abbrev pub previous_config : Script Log Json
  previous_config = test_file h generated >>= previous_if

  -- `report.findings`, where reading it and the severities of all findings does not throw
  abbrev is_error_finding : Json → Bool
  is_error_finding null = true
  is_error_finding (object fs) = is_text (units "error") (get_field (units "severity") fs)
  is_error_finding other = false

  abbrev findings_pass : Option (List Json) → Bool
  findings_pass none = false
  findings_pass (some fs) = not (any is_error_finding fs)

  abbrev pub lint_passes : RunResult → Bool
  lint_passes result =
      leb result.code 1
      && maybe (fields_of (p.parse result.stdout)) false
          (λ fs. findings_pass (items_of (get_field (units "findings") fs)))
