-- ===== src/Tests/Directories.antt =====
-- A directory resource of the fs gatekeeper on small inputs.
use gatekeeper_os.Fs.Directory.Chained.{expected_decided, Followed}
use gatekeeper_os.Tests.Samples.{sample_description}
use gatekeeper_os.Fs.Directory.Decide.{read_receipt, expected, status_of}
use gatekeeper_os.Fs.Directory.Reads.{simulate-read}
use gatekeeper_os.Fs.Paths.{
  has_relative_form, is_well_formed, byte_length, split_path, relative_path,
}
use gatekeeper_os.Fs.Directory.Listing.{list-shows, is_shown}
use gatekeeper_os.Prelude.{
  false, ◌⊎◌, insert_sorted, sort, arith, none, some, true, [], ◌∷◌, refl, ◌≡◌, List, Option, All,
  ◌≤◌, length,
}
use gatekeeper_os.Cli.Json.{Text, units}
use gatekeeper_os.Fs.Directory.{
  valid_entries, by_action, add_pending, expected_from_receipt, expected_from_stamp, name_of,
  parent_of, subpath_of, text_leb, read, overlay_entries, stored_effect, is_text_content, effects,
  simulate, list, Resource, Effect, Entry, FileSnapshot, Stamp, file, directory, both_saved,
}
use gatekeeper_os.Tests.Transactions.{no_journal}
use gatekeeper_os.Fs.Journal.{get_receipt, apply, link, Receipt}
use gatekeeper_os.Kit.Driver.{status_eq, get_record as get_action, applied, rejected, ActionRecord}

abbrev disk_stamp : Stamp
disk_stamp = record {
  dev = 1;
  ino = 10;
  links = 1;
  size = 2;
  mtime_ns = 30;
  ctime_ns = 30;
  sha256 = units "aa";
}

abbrev on_disk : Text → Option (Option FileSnapshot)
on_disk path = some (some (record { content = units "old"; stamp = disk_stamp }))

abbrev entries_on_disk : Text → Option (List Entry)
entries_on_disk path =
    some (
      record { name = units "z"; kind = directory } ∷ record { name = units "b"; kind = file } ∷ [])

abbrev first_effect : Effect
first_effect = record {
  action_id = 1;
  path = units "a/n";
  content = units "x";
  baseline = none;
  after = none;
}

abbrev one_pending : Resource
one_pending = record {
  driver = record { records = []; overlay = []; effects = [] };
  journal = no_journal;
  stored = first_effect ∷ [];
  overlay = first_effect ∷ [];
  live = true;
}

listed_run :
    list entries_on_disk one_pending (some (units "a"))
    ≡ some (
        record { name = units "b"; kind = file }
        ∷ record { name = units "n"; kind = file }
        ∷ record { name = units "z"; kind = directory }
        ∷ [])
unfolding list effects overlay_entries relative_path text_leb sort insert_sorted parent_of name_of
    split_path is_text_content has_relative_form byte_length is_well_formed
listed_run = refl

path_accepted : relative_path (units "a/n") ≡ some (units "a/n")
unfolding relative_path split_path has_relative_form byte_length is_well_formed
path_accepted = refl

content_accepted : is_text_content (units "new") ≡ true
unfolding is_text_content byte_length is_well_formed
content_accepted = refl

no_effect_stored : stored_effect one_pending 2 ≡ none
unfolding stored_effect
no_effect_stored = refl

effects_accepted : effects one_pending ≡ some (first_effect ∷ [])
unfolding effects relative_path is_text_content split_path has_relative_form byte_length
    is_well_formed
effects_accepted = refl

ids_accepted : valid_entries (sort by_action one_pending.overlay) ≡ true
unfolding valid_entries sort insert_sorted
ids_accepted = refl

-- The overlay refuses an action without a proper id.
id_refused : (add_pending (record first_effect { action_id = 0 }) one_pending).1 ≡ false
unfolding valid_entries sort insert_sorted
id_refused = refl

subpath_accepted : subpath_of (some (units "a")) ≡ some (units "a")
unfolding relative_path split_path has_relative_form byte_length is_well_formed
subpath_accepted = refl

simulate-read_example :
    ((simulate on_disk both_saved one_pending (units "a/n") (units "new") 2).1 ≡ true)
    × (read on_disk
          (simulate on_disk both_saved one_pending (units "a/n") (units "new") 2).0
          (units "a/n")
        ≡ some (units "new"))
simulate-read_example =
    simulate-read on_disk on_disk one_pending (units "a/n") (units "new") (units "a/n") 2
      (some (record { content = units "old"; stamp = disk_stamp }))
      (some (record { content = units "old"; stamp = disk_stamp })) (first_effect ∷ []) refl
      path_accepted content_accepted no_effect_stored refl effects_accepted ids_accepted refl
      (omega arith, tt) refl

abbrev listed : List Entry
listed =
    record { name = units "b"; kind = file }
    ∷ record { name = units "n"; kind = file }
    ∷ record { name = units "z"; kind = directory }
    ∷ []

list-shows_example :
    All (λ x. is_shown (units "a") listed x ≡ true) (first_effect ∷ []) × (length listed ≤ 1000)
list-shows_example =
    list-shows entries_on_disk one_pending (some (units "a")) (units "a") listed subpath_accepted
      listed_run

abbrev sample_hash : Text
sample_hash = units "0123456789abcdef0123456789abcdef0123456789abcdef0123456789abcdef"

abbrev first_receipt : Receipt
first_receipt = record {
  ref = record { kind = apply; action_id = 1 };
  resource_identity = units "r";
  path = units "a/n";
  size = 1;
  sha256 = sample_hash;
  publish = link;
  identity = record { dev = 1; ino = 20 };
  identity_size = 1;
  mtime_ns = 50;
}

abbrev first_action : ActionRecord
first_action = record {
  id = 1;
  tool = "gk_fs_file_write";
  params = "{}";
  description = sample_description;
  status = applied;
  call_key = none;
  remote_id = none;
}

abbrev second_effect : Effect
second_effect = record first_effect { action_id = 2; content = units "y"; after = some 1 }

abbrev one_applied : Resource
one_applied = record one_pending {
  driver = record { records = first_action ∷ []; overlay = []; effects = [] };
  journal = record { records = []; preimages = []; receipts = first_receipt ∷ [] };
}

expected_run :
    expected (units "r") one_applied 2 second_effect ≡ some (expected_from_receipt first_receipt)
unfolding expected read_receipt get_receipt get_action relative_path split_path has_relative_form
    byte_length is_well_formed
expected_run = refl

expected_decided_example :
    ((status_of one_applied 1 ≡ some rejected)
      × (expected_from_stamp second_effect.baseline ≡ some (expected_from_receipt first_receipt)))
    ⊎ Followed (units "r") one_applied 2 1 second_effect (expected_from_receipt first_receipt)
expected_decided_example =
    expected_decided (units "r") one_applied 2 1 second_effect (expected_from_receipt first_receipt)
      refl expected_run
