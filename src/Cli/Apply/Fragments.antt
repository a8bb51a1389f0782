-- ===== src/Cli/Apply/Fragments.antt =====
-- mergeFragments of config-apply.ts.
use gatekeeper_os.Prelude.{
  find?, ◌==◌, List, [], ◌∷◌, none, some, Option, Bool, true, false, nat_eq, map, is_some, not,
  ◌||◌, filter, sort,
}
use gatekeeper_os.Cli.Json.{Json, Fields, Text, text_eq, units, object}
use gatekeeper_os.Cli.Json5.Grammar.{parse_fragment, value, error, exhausted, Result}
use gatekeeper_os.Cli.Merge.{merge_all}
use gatekeeper_os.Cli.Merge.Canonical.{units_leb}
use gatekeeper_os.Cli.Policy.{assert_runtime_sandbox}
use gatekeeper_os.Cli.Policy.Entries.{reconcile_gatekeeper_policy}
use gatekeeper_os.Cli.Script.{Script, ◌>>=◌, ◌>>◌, give, throw, require, from_option, other_error}
use gatekeeper_os.Cli.Apply.Machine.{
  Host, Platform, Log, catalog, fragment_dir, fragment_file, test_file, read_file, list_fragments,
}

-- `endsWith`
abbrev pub ends_with : Text → Text → Bool
ends_with [] suffix = [] == suffix
ends_with (c ∷ t) suffix = let later = ends_with t suffix in (c ∷ t) == suffix || later

abbrev pub is_fragment_name : Text → Bool
is_fragment_name name = ends_with name (units ".json5") || ends_with name (units ".json")

abbrev pub is_runtime_name : Text → Bool
is_runtime_name name =
    name == units "05-policy-runtime.json5" || name == units "05-policy-runtime.json"

-- A fragment, by the name of its file.
pub record Fragment : Type 0 where
  pub name : Text
  pub content : Json

-- The first runtime fragment, if there is one, keeps its sandbox.
abbrev pub is_contained : Option Fragment → Bool
is_contained none = true
is_contained (some f) = assert_runtime_sandbox f.content

abbrev pub has_no_files : List Text → Bool
has_no_files [] = true
has_no_files (t ∷ ts) = false

module _ (p : Platform) (h : Host) where
  abbrev pub parsed_fragment : Result Fields → Script Log Json
  parsed_fragment (value fs) = give (object fs)
  parsed_fragment (error m line column) = throw (other_error "Json5Error")
  parsed_fragment exhausted = throw (other_error "Json5Error")

  unfoldable pub read_fragments : List Text → Script Log (List Fragment)
  unfolding parse_fragment
  read_fragments [] = give []
  read_fragments (name ∷ names) = do
    t ← read_file h (fragment_file name)
    content ← parsed_fragment (parse_fragment p.to_number t)
    rest ← read_fragments names
    give (record { name = name; content = content } ∷ rest)

  -- `existsSync(catalogPath) ? JSON.parse(readFileSync(...))`
  abbrev pub parse_catalog : Text → Script Log (Option Json)
  parse_catalog t = from_option (p.parse t) (other_error "SyntaxError") >>= (λ v. give (some v))

  abbrev pub catalog_if : Bool → Script Log (Option Json)
  catalog_if true = read_file h catalog >>= parse_catalog
  catalog_if false = give none

  -- `existsSync(catalogPath)`, and then JSON.parse of it
  abbrev pub catalog_json : Script Log (Option Json)
  catalog_json = test_file h catalog >>= catalog_if

  abbrev merged_json : List Fragment → Json
  merged_json fs = merge_all (map (λ f. f.content) fs)

  unfoldable pub merge_fragments : Script Log Json
  unfolding read_fragments merge_all assert_runtime_sandbox reconcile_gatekeeper_policy
  merge_fragments = do
    there ← test_file h fragment_dir
    require there "missing fragment directory"
    names ← list_fragments h
    let files = sort units_leb (filter is_fragment_name names)
    require (not (has_no_files files)) "no config fragments"
    fragments ← read_fragments files
    let runtime = find? (λ f. is_runtime_name f.name) fragments
    require (is_contained runtime) "05-policy-runtime requires its sandbox; nothing applied"
    require (not (is_some runtime) || assert_runtime_sandbox (merged_json fragments))
        "05-policy-runtime requires its sandbox; nothing applied"
    reconcile_gatekeeper_policy p.to_text p.manifest_of (merged_json fragments) catalog_json
