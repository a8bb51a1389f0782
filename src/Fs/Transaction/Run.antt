-- ===== src/Fs/Transaction/Run.antt =====
-- `run` of packages/gkos-gatekeeper-fs/src/apply.ts, in the order of the source.
use gatekeeper_os.Fs.Paths.{relative_path}
use gatekeeper_os.Prelude.{
  ltb, none, some, true, false, [], nat_eq, is_some, not, maybe, length, ◌&&◌, ◌==◌, ℕ, List, Bool,
  Option,
}
use gatekeeper_os.Cli.Json.{Text, text_eq}
use gatekeeper_os.Fs.Files.{
  FileState, Identity, Expected, absent, present, same, matches, identity_of, without_ctime,
}
use mathlib.Core.Option
use gatekeeper_os.Fs.Journal.{
  Journal, TxRecord, Receipt, Preimage, Replaced, Ref, Phase, intent, staged, publishing, published,
  applied, uncertain, Publication, exchange, rename, link, set_preimage, set_receipt, get_record,
  get_receipt,
}
use gatekeeper_os.Fs.Transaction.Machine.{
  at_synced, sync_stage, at_written, write_staged, at_intent, record_published, at_rechecked,
  write_intent, at_parent_synced, at_staged, inspect_target, record_uncertain, start_record,
  record_staged, sync_parent, record_applied, inspect_stage, at_verified, open_anchor,
  by_descriptor, at_receipt, unlink_stage_name, at_preimage, threw, check_anchor, write_preimage,
  died, read_receipt, open_stage, on_names, inspect_final, rename_stage_to_target, inspect_swapped,
  recheck_target, on_journal, at_publishing, identify_target, choose_publisher, write_receipt,
  record_publishing, choose_exchange, recheck_anchor, identify_swapped, identify_stage,
  inspect_baseline, record_rename, require, prepare_stage, returned, at_published, read_record,
  inspect, persist, give, hook, check, link_stage_to_target, identify, exchange_stage_and_target,
  Outcome, deny, look, attempt, Names, State, Host, ◌>>=◌, ◌>>◌, Tx,
}

pub record Request : Type 0 where
  pub ref : Ref
  pub resource : Text
  pub path : Text
  pub desired : List ℕ
  pub expected : Expected

abbrev pub as_applied : TxRecord → TxRecord
as_applied t = record t { phase = applied }

abbrev pub as_uncertain : TxRecord → TxRecord
as_uncertain t = record t { phase = uncertain }

abbrev pub target_of : State → Option FileState
target_of s = s.names.target

abbrev pub stage_of : State → Option FileState
stage_of s = s.names.stage

-- Of `mode & 0o7000`, with the mode below 0o10000
abbrev pub has_special_bits : ℕ → Bool
has_special_bits mode = ltb 511 mode

module _ (digest : List ℕ → Text) (h : Host) (q : Request) where
  abbrev pub is_ownable : Option FileState → Bool
  is_ownable none = true
  is_ownable (some f) = maybe h.euid false (λ euid. f.uid == euid) && not (has_special_bits f.mode)

  abbrev pub replaced : FileState → Replaced
  replaced f = record {
    content = f.bytes;
    sha256 = digest f.bytes;
    mode = f.mode;
    identity = identity_of f;
  }

  abbrev pub preimage_of : Option FileState → Preimage
  preimage_of file = record { ref = q.ref; path = q.path; replaced = Option.map replaced file }

  abbrev pub intent_record : TxRecord
  intent_record = record {
    ref = q.ref;
    resource = q.resource;
    path = q.path;
    phase = intent;
    expected = q.expected;
    desired_size = length q.desired;
    desired_sha256 = digest q.desired;
    staged = none;
    publish = none;
  }

  abbrev pub record_intent : Option FileState → Tx (Option FileState)
  record_intent file = do
    hook h at_preimage
    start_record h write_intent intent_record
    hook h at_intent
    give file

  abbrev pub record_preimage : Option FileState → Tx (Option FileState)
  record_preimage file = do
    attempt h write_preimage (on_journal (set_preimage (preimage_of file)))
    record_intent file

  abbrev pub is_replaceable : Option FileState → Bool
  is_replaceable file = matches digest file q.expected && is_ownable file

  -- The preimage and the intent.
  unfoldable pub begin : Tx (Option FileState)
  unfolding matches set_preimage
  begin = do
    file ← inspect h inspect_baseline target_of
    require (is_replaceable file)
    record_preimage file

  abbrev pub mode_of : Option FileState → FileState → FileState
  mode_of none f = f
  mode_of (some old) f = record f { mode = old.mode }

  abbrev pub fresh_file : FileState
  fresh_file = record h.created { bytes = []; size = 0; links = 1; is_text = true }

  abbrev pub create_stage : Tx Identity
  create_stage = do
    taken ← look (λ s. is_some s.names.stage)
    require (not taken)
    attempt h open_stage (on_names (λ n. record n { stage = some fresh_file }))
    give (identity_of h.created)

  abbrev pub record_identity : Identity → TxRecord → TxRecord
  record_identity i t = record t { staged = some i; phase = staged }

  -- The staged file.
  unfoldable pub stage_file : Option FileState → Tx Identity
  stage_file old = do
    i ← create_stage
    attempt h prepare_stage (on_names (by_descriptor i (mode_of old)))
    persist h record_staged (record_identity i)
    hook h at_staged
    write_staged h i q.desired
    hook h at_written
    check h sync_stage
    hook h at_synced
    give i

  abbrev pub chosen : Bool → Publication
  chosen true = exchange
  chosen false = rename

  abbrev pub plan : Expected → Tx Publication
  plan absent = give link
  plan (present b) = check h choose_publisher >> give (chosen h.prefers_exchange)

  abbrev pub with_publication : Phase → Publication → TxRecord → TxRecord
  with_publication phase p t = record t { publish = some p; phase = phase }

  abbrev pub is_desired : Option FileState → Identity → Bool
  is_desired none i = false
  is_desired (some f) i = same (some f) i && digest f.bytes == digest q.desired

  -- The last check of the baseline.
  unfoldable pub recheck : Identity → Publication → Tx (Unit {0})
  unfolding matches
  recheck i planned = do
    persist h record_publishing (with_publication publishing planned)
    hook h at_publishing
    check h check_anchor
    ours ← inspect h inspect_stage stage_of
    require (is_desired ours i)
    file ← inspect h inspect_target target_of
    require (matches digest file q.expected)
    hook h at_rechecked

  unfoldable pub by_link : Identity → Tx Publication
  by_link i = do
    link_stage_to_target h
    hook h at_published
    file ← identify h identify_target target_of
    require (same file i)
    ours ← identify h identify_stage stage_of
    require (same ours i)
    unlink_stage_name h
    give link

  unfoldable pub by_rename : Tx Publication
  by_rename = do
    persist h record_rename (with_publication publishing rename)
    rename_stage_to_target h
    hook h at_published
    ours ← identify h identify_stage stage_of
    require (not (is_some ours))
    give rename

  -- An edit that landed in the window is kept, and the transaction blocks.
  unfoldable pub confirm_exchange : Tx Publication
  unfolding matches
  confirm_exchange = do
    hook h at_published
    out ← inspect h inspect_swapped stage_of
    require (matches digest out (without_ctime q.expected) && is_some out)
    unlink_stage_name h
    give exchange

  -- No swap happened: one more check, and a rename.
  unfoldable pub fall_back : Identity → Tx Publication
  unfolding matches by_rename
  fall_back i = do
    ours ← identify h identify_stage stage_of
    require (same ours i)
    file ← inspect h recheck_target target_of
    require (matches digest file q.expected)
    by_rename

  abbrev pub swapped_or_not : Identity → Bool → Tx Publication
  swapped_or_not i true = confirm_exchange
  swapped_or_not i false = fall_back i

  unfoldable pub by_exchange : Identity → Tx Publication
  unfolding confirm_exchange fall_back
  by_exchange i = do
    exchange_stage_and_target h
    file ← identify h identify_swapped target_of
    swapped_or_not i (same file i)

  abbrev pub exchange_or_rename : Identity → Bool → Tx Publication
  exchange_or_rename i true = by_exchange i
  exchange_or_rename i false = by_rename

  unfoldable pub publish : Identity → Publication → Tx Publication
  unfolding by_link by_exchange by_rename
  publish i link = by_link i
  publish i exchange = check h choose_exchange >> exchange_or_rename i h.offers_exchange
  publish i rename = by_rename

  abbrev pub receipt_for : Publication → FileState → Receipt
  receipt_for p f = record {
    ref = q.ref;
    resource_identity = q.resource;
    path = q.path;
    size = length q.desired;
    sha256 = digest q.desired;
    publish = p;
    identity = identity_of f;
    identity_size = f.size;
    mtime_ns = f.mtime_ns;
  }

  abbrev pub with_receipt : Publication → Option FileState → Tx Receipt
  with_receipt p none = deny
  with_receipt p (some f) = do
    attempt h write_receipt (on_journal (set_receipt (receipt_for p f)))
    hook h at_receipt
    persist h record_applied as_applied
    give (receipt_for p f)

  -- The published file, and the receipt.
  unfoldable pub finish : Identity → Publication → Tx Receipt
  unfolding set_receipt
  finish i p = do
    check h recheck_anchor
    file ← inspect h inspect_final target_of
    require (is_desired file i)
    hook h at_verified
    check h sync_parent
    hook h at_parent_synced
    persist h record_published (with_publication published p)
    with_receipt p file

  unfoldable pub attempt_all : Tx Receipt
  unfolding begin stage_file recheck publish finish
  attempt_all = do
    old ← begin
    i ← stage_file old
    planned ← plan q.expected
    recheck i planned
    p ← publish i planned
    finish i p

  -- A throw leaves the record uncertain, if it was started and this can still be written.
  abbrev pub settle : Outcome Receipt → Outcome Receipt
  settle (returned r s) = returned r s
  settle (died s) = died s
  settle (threw s) = (persist h record_uncertain as_uncertain >> deny) s

  abbrev pub proceed : Tx Receipt
  proceed s = settle (attempt_all s)

  abbrev pub refuse_received : Tx Receipt
  refuse_received = do
    check h read_receipt
    received ← look (λ s. get_receipt s.journal q.ref)
    require (not (is_some received))
    require (is_some (relative_path q.path))
    check h open_anchor
    proceed

  unfoldable pub run : Tx Receipt
  unfolding attempt_all relative_path get_record get_receipt
  run = do
    check h read_record
    recorded ← look (λ s. get_record s.journal q.ref)
    require (not (is_some recorded))
    refuse_received

-- A transaction begins with nothing recorded and nothing lost.
abbrev pub started : Names → Journal → State
started names journal = record { names = names; journal = journal; current = none; lost = [] }
