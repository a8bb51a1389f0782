-- ===== src/Fs/Directory/Decide.antt =====
-- What directory.ts checks before it applies or reverts a write. `current` is the state of a path that
-- the transactions see, where `none` is a refusal.
use gatekeeper_os.Fs.Paths.{relative_path}
use gatekeeper_os.Fs.Directory.{
  Effect, stored_effect, ref_of, is_valid_effect, is_text_content, Resource, expected_from_receipt,
  expected_from_stamp, is_sha256,
}
use gatekeeper_os.Prelude.{
  none, some, true, false, nat_eq, all, ltb, leb, if◌then◌else◌, ◌&&◌, ◌||◌, ◌==◌, ℕ, List, Bool,
  Option, maybe, is_some,
}
use gatekeeper_os.Cli.Json.{Text, text_eq}
use gatekeeper_os.Kit.Driver.{
  get_record as get_action, Status, ActionRecord, pending, applied, rejected, reverted, status_eq,
}
use gatekeeper_os.Fs.Files.{FileState, Expected, matches}
use gatekeeper_os.Fs.Journal.{
  Kind, apply, revert, Receipt, Preimage, Replaced, get_receipt, get_preimage, is_settled,
}

abbrev pub status_of : Resource → ℕ → Option Status
status_of r id = maybe (get_action r.driver id) none (λ (a : ActionRecord). some a.status)

abbrev is_settled_status : Status → Bool
is_settled_status s = s == pending || s == applied || s == rejected || s == reverted

-- `assertResourceSettled` returns
unfoldable pub is_resource_settled : Resource → Bool
unfolding is_settled
is_resource_settled r =
    r.live
    && is_settled r.journal
    && all (λ (a : ActionRecord). is_settled_status a.status) r.driver.records

abbrev follows_earlier : ℕ → Option ℕ → Bool
follows_earlier id none = true
follows_earlier id (some after) = leb 1 after && ltb after id

abbrev checked_effect : ℕ → Option Effect → Option Effect
checked_effect id none = none
checked_effect id (some e) =
    if is_valid_effect e && follows_earlier id e.after then some e else none

unfoldable pub get_effect : Resource → ℕ → Option Effect
unfolding relative_path is_text_content stored_effect
get_effect r id = checked_effect id (stored_effect r id)

module _ (resource : Text) where
  abbrev pub checked_receipt : Option Receipt → Option (Option Receipt)
  checked_receipt none = some none
  checked_receipt (some rc) =
      if rc.resource_identity == resource && is_sha256 rc.sha256 && is_some (relative_path rc.path)
      then some (some rc)
      else none

  -- `receipt`: nothing where it throws, and no receipt where none was written
  unfoldable pub read_receipt : Resource → Kind → ℕ → Option (Option Receipt)
  unfolding get_receipt relative_path
  read_receipt r kind id = checked_receipt (get_receipt r.journal (ref_of kind id))

  abbrev pub receipt_after : Resource → ℕ → Option Status → Option (Option Receipt)
  receipt_after r id none = some none
  receipt_after r id (some status) =
      if status == applied
      then read_receipt r apply id
      else if status == reverted
      then read_receipt r revert id
      else some none

  abbrev pub from_receipt : Text → Option Receipt → Option Expected
  from_receipt path none = none
  from_receipt path (some rc) = if rc.path == path then some (expected_from_receipt rc) else none

  abbrev pub expected_after : Resource → ℕ → Effect → Option ℕ → Option Expected
  expected_after r id e none = expected_from_stamp e.baseline
  expected_after r id e (some after) =
      if maybe (status_of r after) false (λ s. s == rejected)
      then expected_from_stamp e.baseline
      else if leb id after
      then none
      else maybe (receipt_after r after (status_of r after)) none (λ rc. from_receipt e.path rc)

  unfoldable pub expected : Resource → ℕ → Effect → Option Expected
  unfolding expected_from_stamp read_receipt
  expected r id e = expected_after r id e e.after

  abbrev restored : Receipt → Option Replaced → Option (Receipt × List ℕ)
  restored rc none = none
  restored rc (some p) = some (rc, p.content)

  -- `preimage`, with the digest of its content
  abbrev restored_from : (List ℕ → Text) → Receipt → Option Preimage → Option (Receipt × List ℕ)
  restored_from digest rc none = none
  restored_from digest rc (some p) =
      if p.path == rc.path && maybe p.replaced true (λ (f : Replaced). digest f.content == f.sha256)
      then restored rc p.replaced
      else none

  abbrev revertable_from :
      (List ℕ → Text)
      → Resource
      → Option Receipt
      → Option (Option Receipt)
      → Option (Receipt × List ℕ)
  revertable_from digest r (some rc) (some none) =
      restored_from digest rc (get_preimage r.journal rc.ref)
  revertable_from digest r _ _ = none

  unfoldable pub revertable : (List ℕ → Text) → Resource → ℕ → Option (Receipt × List ℕ)
  unfolding get_preimage read_receipt
  revertable digest r id =
      maybe (read_receipt r apply id) none
        (λ rc. revertable_from digest r rc (read_receipt r revert id))

  module _ (digest : List ℕ → Text) (current : Text → Option (Option FileState)) where
    abbrev still : Text → Expected → Bool
    still path e = maybe (current path) false (λ f. matches digest f e)

    abbrev pending_allowed : Resource → ℕ → Option Effect → Bool
    pending_allowed r id none = false
    pending_allowed r id (some e) = maybe (expected r id e) false (λ x. still e.path x)

    -- The refusals of `applyAction` before the driver is called
    unfoldable pub precheck_apply : Resource → ℕ → Bool
    unfolding is_resource_settled get_effect expected matches
    precheck_apply r id =
        is_resource_settled r
        && maybe (status_of r id) false
            (λ s. if s == pending then pending_allowed r id (get_effect r id) else true)

    abbrev revert_allowed : Option (Receipt × List ℕ) → Bool
    revert_allowed none = false
    revert_allowed (some (rc, content)) = still rc.path (expected_from_receipt rc)

    -- The refusals of `revertAction` before the driver is called
    unfoldable pub precheck_revert : Resource → ℕ → Bool
    unfolding is_resource_settled revertable matches
    precheck_revert r id =
        is_resource_settled r
        && maybe (status_of r id) false
            (λ s. if s == applied then revert_allowed (revertable digest r id) else true)
