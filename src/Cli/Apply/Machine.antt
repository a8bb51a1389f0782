-- ===== src/Cli/Apply/Machine.antt =====
-- The calls of files and of other programs, with their answers. A write is a call of
-- writeFileIfChanged in util/fsx.ts, and a run is one of `run` in util/proc.ts.
use gatekeeper_os.Prelude.{
  ◌==◌, List, [], ◌∷◌, none, some, Option, Bool, maybe, true, false, if◌then◌else◌, nat_eq, ℕ, any,
}
use gatekeeper_os.Cli.Json.{null, Json, Fields, Text, text_eq, units, text, object, get_field}
use gatekeeper_os.Cli.Json5.Scan.{is_space}
use gatekeeper_os.Cli.Script.{
  Script, ◌>>=◌, ◌>>◌, give, require, from_option, returned, threw, step_error, other_error,
}

pub data Place : Type 0 where
  fragment_dir catalog catalog_state generated config journal lockfile config_state candidate :
      Place
  fragment_file : Text → Place

pub data Program : Type 0 where
  find_openclaw dry_patch lint restart : Program
  get_root : Text → Program
  transaction : (binary revision : Text) → Program

pub record RunResult : Type 0 where
  pub code : ℕ
  pub stdout : Text

pub data Event : Type 0 where
  tested : Place → Bool → Event
  was_read : Place → Text → Event
  not_read not_written : Place → Event
  wrote : Place → Text → Event
  ran : Program → RunResult → Event
  staged not_staged unstaged : Event
  was_listed : Option (List Text) → Event

abbrev pub Log : Type 0
Log = List Event

pub record Host : Type 0 where
  pub exists : Log → Place → Bool
  pub reads : Log → Place → Option Text
  pub writes : Log → Place → Bool
  pub runs : Log → Program → RunResult
  pub lists : Log → Option (List Text)
  pub stages : Log → Bool

-- The digests, JSON and the orders of the platform.
pub record Platform : Type 0 where
  pub sha256 : Text → Text
  pub parse : Text → Option Json
  pub stringify : Json → Text
  pub print : Json → Text
  pub quote : Text → Text
  pub locale_leb : Text → Text → Bool
  pub to_text : Option Json → Text
  pub to_number : Text → Option Text
  pub manifest_of : Text → Option Json

abbrev drop_spaces : Text → Text
drop_spaces [] = []
drop_spaces (c ∷ t) = let rest = drop_spaces t in if is_space c then rest else c ∷ t

abbrev reversed_onto : Text → Text → Text
reversed_onto out [] = out
reversed_onto out (c ∷ t) = reversed_onto (c ∷ out) t

-- `trim()`
abbrev pub trim : Text → Text
trim t = reversed_onto [] (drop_spaces (reversed_onto [] (drop_spaces t)))

abbrev pub fields_of : Option Json → Option Fields
fields_of (some (object fs)) = some fs
fields_of other = none

abbrev pub text_field : Text → Fields → Option Text
text_field key fs = elim (get_field key fs) [ some (text s) ↦ some s | _ ↦ none ]

module _ (h : Host) where
  abbrev pub test_file : Place → Script Log Bool
  test_file p log = returned (h.exists log p) (tested p (h.exists log p) ∷ log)

  abbrev pub answered_read : Place → Option Text → Event
  answered_read p none = not_read p
  answered_read p (some t) = was_read p t

  -- `readFileSync` in a `try`
  abbrev pub try_read : Place → Script Log (Option Text)
  try_read p log = returned (h.reads log p) (answered_read p (h.reads log p) ∷ log)

  abbrev pub read_file : Place → Script Log Text
  read_file p = try_read p >>= (λ t. from_option t (other_error "readFileSync"))

  abbrev pub write_file : Place → Text → Script Log (Unit {0})
  write_file p t log =
      if h.writes log p
      then returned tt (wrote p t ∷ log)
      else threw (other_error "writeFileSync") (not_written p ∷ log)

  abbrev pub run_program : Program → Script Log RunResult
  run_program c log = returned (h.runs log c) (ran c (h.runs log c) ∷ log)

  abbrev pub list_fragments : Script Log (List Text)
  list_fragments log =
      from_option (h.lists log) (other_error "readdirSync") (was_listed (h.lists log) ∷ log)

  -- `mkdtempSync`
  abbrev pub make_staging : Script Log (Unit {0})
  make_staging log =
      if h.stages log
      then returned tt (staged ∷ log)
      else threw (other_error "mkdtempSync") (not_staged ∷ log)

  module _ (p : Platform) where
    -- `readJson`
    abbrev pub read_lockfile : Script Log (Option Fields)
    read_lockfile = try_read lockfile >>= (λ t. give (fields_of (maybe t none p.parse)))

    abbrev usable_states : List Text
    usable_states =
        units "preparing"
        ∷ units "staged"
        ∷ units "maintenance"
        ∷ units "committed"
        ∷ units "rolled-back"
        ∷ units "blocked"
        ∷ []

    abbrev pub is_usable : Option Json → Bool
    is_usable state = any (λ s. s == p.to_text state) usable_states

    -- `JSON.parse(t).state`, where it does not throw
    abbrev pub journal_state : Option Json → Option (Option Json)
    journal_state none = none
    journal_state (some null) = none
    journal_state (some (object fs)) = some (get_field (units "state") fs)
    journal_state (some other) = some none

    abbrev pub check_journal : Bool → Script Log (Unit {0})
    check_journal false = give tt
    check_journal true = do
      t ← try_read journal
      state ← from_option (journal_state (maybe t none p.parse)) (
          step_error
            "Update journal unreadable; inspect recovery state before running a cell command")
      require (is_usable state)
          "Update activation or recovery is in progress; use the update journal and rollback"

    abbrev pub runtime_of : Option Fields → Option Text
    runtime_of none = none
    runtime_of (some lock) = text_field (units "runtimeBinary") lock

    unfoldable pub committed_runtime : Script Log (Option Text)
    committed_runtime = do
      there ← test_file journal
      check_journal there
      lock ← read_lockfile
      give (runtime_of lock)

    -- `openclaw(cell, args)`
    unfoldable pub openclaw : Program → Script Log RunResult
    unfolding committed_runtime
    openclaw c = committed_runtime >>= (λ binary. run_program c)

    unfoldable pub config_revision : Script Log Text
    config_revision = read_file config >>= (λ t. give (p.sha256 t))
