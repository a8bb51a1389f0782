-- ===== src/Cli/Upgrade/Machine.antt =====
-- The calls of update.ts on files, other programs and the kernel's operator interface. The host
-- answers each as it likes, knowing the calls so far; a log has the calls, latest first.
use gatekeeper_os.Prelude.{
  List, ◌∷◌, none, some, Option, Bool, true, false, if◌then◌else◌, nat_eq, ℕ,
}
use gatekeeper_os.Cli.Json.{Json, Text}
use gatekeeper_os.Cli.Update.{UpdateJournal}
use gatekeeper_os.Cli.Script.{
  Script, ◌>>=◌, give, from_option, returned, threw, step_error, other_error,
}

pub data Program : Type 0 where
  find_openclaw daemon_reload start_unit stop_unit show_pid show_exec_start npm_install
        run_conformance :
      Program
  npm_view security_audit backup_create validate_config gateway_stop : Text → Program
  backup_verify backup_restore : (binary archive : Text) → Program

pub data HostFile : Type 0 where
  configuration lockfile journal_file drop_in process_guard verdict staged_package archived_lock
        scratch_config archive_file state_directory os_directory restored_files :
      HostFile
  package_of plugin_of manifest_in : (root : Text) → HostFile

pub data Rpc : Type 0 where
  os_status grants_list : Rpc
  maintenance_set : Bool → Rpc

pub data Change : Type 0 where
  wrote removed made_private : HostFile → Change
  set_state_aside restored_state made_directory : Change

pub data Event : Type 0 where
  ran : Program → Bool → Event
  was_read tested : HostFile → Event
  called : Rpc → (binary : Text) → Bool → Event
  changed : Change → Bool → Event
  saved : UpdateJournal → Bool → Event
  polled printed waited probed listed : Event

pub record Upgrade : Type 0 where
  pub journal : UpdateJournal
  pub log : List Event

pub record Host : Type 0 where
  pub runs : List Event → Program → Option Text
  pub reads : List Event → HostFile → Option Text
  pub exists : List Event → HostFile → Bool
  pub calls : List Event → Rpc → Text → Option Json
  pub changes : List Event → Change → Bool
  pub saves : List Event → Bool
  pub is_ready : List Event → Bool
  pub lists : List Event → List Text
  -- How much longer than half a second each a number of waits took.
  pub lag : List Event → ℕ → ℕ

-- What the platform computes.
pub record Platform : Type 0 where
  pub parse : Text → Option Json
  pub hash : Json → Text
  pub stringify : Json → Text
  pub real_path : Text → Option Text
  pub parent : Text → Text
  pub is_absolute : Text → Bool
  -- `Number` of a text, where it is a natural number
  pub number_of : Text → Option ℕ
  -- A file of the new backup directory, and a path in the restored archive.
  pub in_backup : Text → Text
  pub resolve_in : Text → Text
  pub extracted : Text
  pub state_dir : Text

abbrev pub Steps {ℓ} : Type ℓ → Type ℓ
Steps A = Script Upgrade A

abbrev pub note : Event → Upgrade → Upgrade
note e u = record u { log = e ∷ u.log }

abbrev pub look {ℓ} : {A : Type ℓ} → (UpdateJournal → A) → Steps A
look f u = returned (f u.journal) u

-- An assignment to the journal, in memory.
abbrev pub assign : (UpdateJournal → UpdateJournal) → Steps (Unit {0})
assign f u = returned tt (record u { journal = f u.journal })

abbrev is_given {ℓ} : {A : Type ℓ} → Option A → Bool
is_given none = false
is_given (some a) = true

module _ (h : Host) where
  -- `command`: its output, or a throw
  abbrev pub command : Program → Steps Text
  command c u =
      from_option (h.runs u.log c) (step_error "UPDATE_SUBPROCESS_FAILED")
        (note (ran c (is_given (h.runs u.log c))) u)

  abbrev pub do_command : Program → Steps (Unit {0})
  do_command c = command c >>= (λ out. give tt)

  abbrev pub try_read : HostFile → Steps (Option Text)
  try_read f u = returned (h.reads u.log f) (note (was_read f) u)

  abbrev pub read_file : HostFile → Steps Text
  read_file f = try_read f >>= (λ t. from_option t (other_error "readFileSync"))

  abbrev pub exists : HostFile → Steps Bool
  exists f u = returned (h.exists u.log f) (note (tested f) u)

  abbrev pub change : Change → Steps (Unit {0})
  change c u =
      if h.changes u.log c
      then returned tt (note (changed c true) u)
      else threw (other_error "platform") (note (changed c false) u)

  -- `kernelRpcForCell`
  abbrev pub kernel_rpc : Rpc → Text → Steps Json
  kernel_rpc r binary u =
      from_option (h.calls u.log r binary) (step_error "Kernel RPC unavailable or unauthorized")
        (note (called r binary (is_given (h.calls u.log r binary))) u)

  abbrev pub set_maintenance : Bool → Text → Steps (Unit {0})
  set_maintenance b binary = kernel_rpc (maintenance_set b) binary >>= (λ r. give tt)

  -- `saveUpdate`
  abbrev pub save : Steps (Unit {0})
  save u =
      if h.saves u.log
      then returned tt (note (saved u.journal true) u)
      else threw (other_error "saveUpdate") (note (saved u.journal false) u)

  -- `waitForEndpoint`
  abbrev pub wait_ready : Steps Bool
  wait_ready u = returned (h.is_ready u.log) (note probed u)

  -- `readdirSync`
  abbrev pub list_files : Steps (List Text)
  list_files u = returned (h.lists u.log) (note listed u)

  abbrev pub print : Steps (Unit {0})
  print u = returned tt (note printed u)
