-- ===== src/Tests/Transactions.antt =====
-- A transaction of the fs gatekeeper, and its paths, on small inputs.
use gatekeeper_os.Fs.Transaction.Settled.{run-Consistent}
use gatekeeper_os.Fs.Transaction.NoLostEdit.{IsBaseline}
use gatekeeper_os.Fs.Paths.Confined.{resolve, relative_path_confined}
use gatekeeper_os.Fs.Journal.Consistent.{Consistent}
use gatekeeper_os.Prelude.{All, none, some, true, false, [], ◌∷◌, refl, ◌≡◌, List, ℕ, Option}
use gatekeeper_os.Cli.Json.{Text, units}
use gatekeeper_os.Fs.Files.{matches, FileState, present, Baseline}
use gatekeeper_os.Fs.Journal.{
  is_settled, set_preimage, set_receipt, set_record, get_receipt, apply, Journal, get_record,
}
use gatekeeper_os.Fs.Transaction.Run.{
  finish, confirm_exchange, by_exchange, publish, recheck, stage_file, begin, attempt_all, Request,
  run, started,
}
use gatekeeper_os.Fs.Transaction.Machine.{
  Host, State, Names, done, throws, End, Syscall, sync_parent, at_rechecked, Boundary, left_by,
}
use gatekeeper_os.Fs.Transaction.Losses.{run_loses_no_edit, has_exchange}
use gatekeeper_os.Fs.Paths.{
  has_relative_form, is_well_formed, split_path, byte_length, descend, relative_path,
  directory_path, contains,
}

abbrev plain_digest : List ℕ → Text
plain_digest bytes = bytes

abbrev new_file : FileState
new_file = record {
  dev = 1;
  ino = 20;
  size = 0;
  mtime_ns = 50;
  ctime_ns = 50;
  mode = 420;
  uid = 7;
  links = 1;
  bytes = [];
  is_text = true;
}

abbrev old_file : FileState
old_file = record new_file { ino = 10; size = 2; mtime_ns = 30; ctime_ns = 30; bytes = 1 ∷ 2 ∷ [] }

abbrev edited_file : FileState
edited_file = record new_file { ino = 11; bytes = 9 ∷ [] }

abbrev old_baseline : Baseline
old_baseline = record {
  dev = 1;
  ino = 10;
  size = 2;
  sha256 = 1 ∷ 2 ∷ [];
  mtime_ns = some 30;
  ctime_ns = some 30;
}

abbrev calm_host : Host
calm_host = record {
  ends = λ c. done;
  hooks = λ b. done;
  meddle = λ b n. n;
  created = new_file;
  clock = λ c. 90;
  progress = 1;
  prefers_exchange = true;
  offers_exchange = true;
  swaps = true;
  euid = some 7;
}

abbrev edit_late : Boundary → Names → Names
edit_late at_rechecked n = record n { target = some edited_file }
edit_late _ n = n

-- Another writer replaces the target in the window before the exchange.
abbrev busy_host : Host
busy_host = record calm_host { meddle = edit_late }

abbrev fail_parent : Syscall → End
fail_parent sync_parent = throws
fail_parent _ = done

abbrev failing_host : Host
failing_host = record calm_host { ends = fail_parent }

abbrev pub no_journal : Journal
no_journal = record { records = []; preimages = []; receipts = [] }

abbrev write_request : Request
write_request = record {
  ref = record { kind = apply; action_id = 3 };
  resource = units "r";
  path = units "a/b.txt";
  desired = 5 ∷ 6 ∷ 7 ∷ [];
  expected = present old_baseline;
}

abbrev old_names : Names
old_names = record { target = some old_file; stage = none }

abbrev run_on : Host → State
run_on h = left_by (run plain_digest h write_request (started old_names no_journal))

abbrev bytes_of : Option FileState → List ℕ
bytes_of none = []
bytes_of (some f) = f.bytes

replaced_run : bytes_of (run_on calm_host).names.target ≡ 5 ∷ 6 ∷ 7 ∷ []
unfolding run attempt_all begin stage_file recheck publish by_exchange confirm_exchange finish
    matches relative_path split_path byte_length is_well_formed has_relative_form get_record
    get_receipt set_record set_receipt set_preimage
replaced_run = refl

-- The edit is kept under the name of the stage, and nothing is lost.
kept_edit_run : (bytes_of (run_on busy_host).names.stage ≡ 9 ∷ []) × ((run_on busy_host).lost ≡ [])
unfolding run attempt_all begin stage_file recheck publish by_exchange confirm_exchange finish
    matches relative_path split_path byte_length is_well_formed has_relative_form get_record
    get_receipt set_record set_receipt set_preimage
kept_edit_run = (refl, refl)

unsettled_run : is_settled (run_on failing_host).journal ≡ false
unfolding run attempt_all begin stage_file recheck publish by_exchange confirm_exchange finish
    matches relative_path split_path byte_length is_well_formed has_relative_form get_record
    get_receipt set_record set_receipt set_preimage is_settled
unsettled_run = refl

settled_run : is_settled (run_on calm_host).journal ≡ true
unfolding run attempt_all begin stage_file recheck publish by_exchange confirm_exchange finish
    matches relative_path split_path byte_length is_well_formed has_relative_form get_record
    get_receipt set_record set_receipt set_preimage is_settled
settled_run = refl

no_journal-Consistent : Consistent no_journal
unfolding get_record
no_journal-Consistent k t e f = cc

run-Consistent_example : Consistent (run_on failing_host).journal
run-Consistent_example =
    run-Consistent plain_digest write_request failing_host old_names no_journal
      no_journal-Consistent

run_loses_no_edit_example :
    All (IsBaseline plain_digest write_request busy_host) (run_on busy_host).lost
run_loses_no_edit_example =
    run_loses_no_edit plain_digest write_request busy_host old_names no_journal
      (has_exchange refl refl)

directory_run : directory_path (units "/srv/data/") ≡ some (units "/srv/data")
unfolding directory_path byte_length is_well_formed split_path
directory_run = refl

traversal_run : relative_path (units "a/../b") ≡ none
unfolding relative_path split_path has_relative_form byte_length is_well_formed
traversal_run = refl

accepted_path : relative_path (units "a/b.txt") ≡ some (units "a/b.txt")
unfolding relative_path split_path has_relative_form byte_length is_well_formed
accepted_path = refl

climbing_run :
    resolve (units "srv" ∷ units "data" ∷ []) (split_path (units "a/../../b"))
    ≡ units "srv" ∷ units "b" ∷ []
unfolding split_path
climbing_run = refl

climbing_refused : relative_path (units "a/../../b") ≡ none
unfolding relative_path split_path has_relative_form byte_length is_well_formed
climbing_refused = refl

relative_path_confined_example :
    (resolve (units "srv" ∷ []) (split_path (units "a/b.txt"))
      ≡ units "srv" ∷ split_path (units "a/b.txt"))
    × (contains (units "/srv") (descend (units "/srv") (split_path (units "a/b.txt"))) ≡ true)
    × (units "a/b.txt" ≡ units "a/b.txt")
relative_path_confined_example =
    relative_path_confined (units "srv" ∷ []) (units "/srv") (units "a/b.txt") (units "a/b.txt")
      accepted_path
