-- ===== src/Fs/Directory.antt =====
-- packages/gkos-gatekeeper-fs/src/directory.ts on the state of a directory resource: the journal of
-- the driver, that of the transactions, the effects on disk and the pending effects of the overlay. The
-- host's directory is a function, whose `none` is a refusal; `live` tells whether the account and the
-- binding still stand.
pub mod Reads
pub mod Listing
pub mod Decide
pub mod Chained
use mathlib.Core.Option
use gatekeeper_os.Prelude.{
  sort, find?, ltb, none, some, true, false, [], ◌∷◌, nat_eq, string_eq, not, any, all, leb,
  if◌then◌else◌, ◌&&◌, ◌||◌, ◌==◌, ◌++◌, ℕ, List, Bool, Option, length, maybe, is_some, upsert,
}
use gatekeeper_os.Cli.Json.{Text, text_eq}
use gatekeeper_os.Kit.Driver.{Driver, status_eq}
use gatekeeper_os.Fs.Files.{Expected, absent, present}
use gatekeeper_os.Fs.Journal.{Journal, Kind, Receipt, Ref}
use gatekeeper_os.Fs.Paths.{join_path, relative_path, byte_length, is_well_formed, split_path}

-- dev:ino:nlink:size:mtimeNs:ctimeNs:sha256
pub record Stamp : Type 0 where
  pub dev : ℕ
  pub ino : ℕ
  pub links : ℕ
  pub size : ℕ
  pub mtime_ns : ℕ
  pub ctime_ns : ℕ
  pub sha256 : Text

pub record FileSnapshot : Type 0 where
  pub content : Text
  pub stamp : Stamp

pub record Effect : Type 0 where
  pub action_id : ℕ
  pub path : Text
  pub content : Text
  pub baseline : Option Stamp
  pub after : Option ℕ

pub data EntryKind : Type 0 where
  file directory unavailable : EntryKind

pub record Entry : Type 0 where
  pub name : Text
  pub kind : EntryKind

pub record Resource : Type 0 where
  pub driver : Driver
  pub journal : Journal
  pub stored : List Effect
  pub overlay : List Effect
  pub live : Bool

abbrev is_nul : ℕ → Bool
is_nul c = c == 0

abbrev max_bytes : ℕ
max_bytes = 1048576

unfoldable pub is_text_content : Text → Bool
unfolding byte_length is_well_formed
is_text_content t = leb (byte_length t) max_bytes && not (any is_nul t) && is_well_formed t

abbrev is_lower_hex : ℕ → Bool
is_lower_hex c = (leb b'0' c && leb c b'9') || (leb b'a' c && leb c b'f')

abbrev pub is_sha256 : Text → Bool
is_sha256 t = length t == 64 && all is_lower_hex t

-- `expectedFromStamp`
unfoldable pub expected_from_stamp : Option Stamp → Option Expected
expected_from_stamp none = some absent
expected_from_stamp (some s) =
    if s.links == 1 && is_sha256 s.sha256
    then some (
        present (record {
          dev = s.dev;
          ino = s.ino;
          size = s.size;
          sha256 = s.sha256;
          mtime_ns = some s.mtime_ns;
          ctime_ns = some s.ctime_ns;
        }))
    else none

-- `expectedFromReceipt`
abbrev pub expected_from_receipt : Receipt → Expected
expected_from_receipt r = present (record {
  dev = r.identity.dev;
  ino = r.identity.ino;
  size = r.identity_size;
  sha256 = r.sha256;
  mtime_ns = some r.mtime_ns;
  ctime_ns = none;
})

abbrev pub ref_of : Kind → ℕ → Ref
ref_of kind id = record { kind = kind; action_id = id }

-- The effects of the overlay, each checked again.
abbrev pub is_valid_effect : Effect → Bool
is_valid_effect e = is_some (relative_path e.path) && is_text_content e.content

unfoldable pub effects : Resource → Option (List Effect)
unfolding relative_path is_text_content
effects r = if all is_valid_effect r.overlay then some r.overlay else none

abbrev pub last_where {ℓ} : {A : Type ℓ} → (A → Bool) → List A → Option A
last_where p [] = none
last_where p (x ∷ xs) =
    let later = last_where p xs in maybe later (if p x then some x else none) (λ y. some y)

module _ (files : Text → Option (Option FileSnapshot)) where
  abbrev content_of : Option Effect → Option FileSnapshot → Option Text
  content_of (some e) current = some e.content
  content_of none none = none
  content_of none (some s) = some s.content

  abbrev pub overlaid : Text → List Effect → Option FileSnapshot → Option Text
  overlaid path es current = content_of (last_where (λ (e : Effect). e.path == path) es) current

  unfoldable pub read : Resource → Text → Option Text
  unfolding effects
  read r path =
      if not r.live
      then none
      else maybe (files path) none λ current. maybe (effects r) none λ es. overlaid path es current

-- `parts.pop()`, and what is left
abbrev last_part : List Text → Text
last_part [] = []
last_part (p ∷ []) = p
last_part (p ∷ q ∷ ps) = last_part (q ∷ ps)

abbrev other_parts : List Text → List Text
other_parts [] = []
other_parts (p ∷ []) = []
other_parts (p ∷ q ∷ ps) = p ∷ other_parts (q ∷ ps)

unfoldable pub parent_of : Text → Text
unfolding split_path
parent_of path = join_path (other_parts (split_path path))

unfoldable pub name_of : Text → Text
unfolding split_path
name_of path = last_part (split_path path)

abbrev pub is_file : EntryKind → Bool
is_file file = true
is_file directory = false
is_file unavailable = false

abbrev pub named : Text → Entry → Bool
named name x = x.name == name

abbrev pub set_file : Text → List Entry → List Entry
set_file name entries =
    upsert (named name) (λ x. record x { kind = file }) (record { name = name; kind = file })
      entries

abbrev pub is_no_file : Text → Entry → Bool
is_no_file name x = x.name == name && not (is_file x.kind)

-- The pending effects in the order of their ids, over the entries of the host.
unfoldable pub overlay_entries : Text → List Effect → List Entry → Option (List Entry)
unfolding parent_of name_of
overlay_entries subpath [] entries = some entries
overlay_entries subpath (e ∷ es) entries =
    let skipped = overlay_entries subpath es entries in
    let added = overlay_entries subpath es (set_file (name_of e.path) entries) in
    if not (parent_of e.path == subpath)
    then skipped
    else if any (is_no_file (name_of e.path)) entries
    then none
    else added

-- `<` on texts compares their units.
unfoldable pub text_leb : Text → Text → Bool
text_leb [] t = true
text_leb (c ∷ s) [] = false
text_leb (c ∷ s) (d ∷ t) = ltb c d || (c == d && text_leb s t)

abbrev pub sorted_within : ℕ → List Entry → Option (List Entry)
sorted_within bound entries =
    if ltb bound (length entries)
    then none
    else some (sort (λ (a b : Entry). text_leb a.name b.name) entries)

abbrev pub subpath_of : Option Text → Option Text
subpath_of none = some []
subpath_of (some raw) = relative_path raw

unfoldable pub list : (Text → Option (List Entry)) → Resource → Option Text → Option (List Entry)
unfolding effects overlay_entries relative_path text_leb sort
list directories r raw =
    if not r.live
    then none
    else maybe (subpath_of raw) none λ subpath. maybe (directories subpath) none λ entries.
      maybe (effects r) none
        λ es. maybe (overlay_entries subpath es entries) none λ out. sorted_within 1000 out

unfoldable pub stored_effect : Resource → ℕ → Option Effect
stored_effect r id = find? (λ (e : Effect). e.action_id == id) r.stored

-- Which of the two writes of `simulate` succeed, in their order.
pub data Saving : Type 0 where
  both_saved effect_saved none_saved : Saving

abbrev pub by_action : Effect → Effect → Bool
by_action a b = leb a.action_id b.action_id

-- `Number.isSafeInteger(e.actionId) && e.actionId > 0`
abbrev pub is_action_id : ℕ → Bool
is_action_id n = leb n 9007199254740991 && ltb 0 n

abbrev pub distinct_ids : List Effect → Bool
distinct_ids [] = true
distinct_ids (e ∷ es) = not (any (λ (x : Effect). x.action_id == e.action_id) es) && distinct_ids es

-- validEntries of overlay-store.ts: every entry here has a kind and a payload.
unfoldable pub valid_entries : List Effect → Bool
valid_entries es = all (λ (e : Effect). is_action_id e.action_id) es && distinct_ids es

-- overlay.add, which refuses an invalid id and a second effect of an action
abbrev pub add_pending : Effect → Resource → Resource × Bool
add_pending e r =
    let entries = sort by_action (r.overlay ++ e ∷ []) in
    if not (valid_entries entries) then (r, false) else (record r { overlay = entries }, true)

abbrev pub store_effect : Effect → Resource → Resource
store_effect e r = record r { stored = e ∷ r.stored }

abbrev pub save_effect : Saving → Effect → Resource → Resource × Bool
save_effect none_saved e r = (r, false)
save_effect effect_saved e r = (store_effect e r, false)
save_effect both_saved e r = add_pending e (store_effect e r)

abbrev pub effect_on : Text → Text → ℕ → Option FileSnapshot → List Effect → Effect
effect_on path content id original es = record {
  action_id = id;
  path = path;
  content = content;
  baseline = Option.map (λ (s : FileSnapshot). s.stamp) original;
  after = Option.map (λ (x : Effect). x.action_id) (last_where (λ (x : Effect). x.path == path) es);
}

-- An effect that an earlier attempt stored is added again if it is the same write.
abbrev pub recover_effect : Saving → Text → Text → Effect → Resource → Resource × Bool
recover_effect both_saved path content e r =
    if e.path == path && e.content == content then add_pending e r else (r, false)
recover_effect _ path content e r = (r, false)

abbrev pub simulate_new :
    (Text → Option (Option FileSnapshot)) → Saving → Resource → Text → Text → ℕ → Resource × Bool
simulate_new files saving r path content id =
    maybe (files path) (r, false)
      λ original.
        maybe (effects r) (r, false)
          λ es. save_effect saving (effect_on path content id original es) r

unfoldable pub simulate :
    (Text → Option (Option FileSnapshot)) → Saving → Resource → Text → Text → ℕ → Resource × Bool
unfolding relative_path is_text_content stored_effect
simulate files saving r path content id =
    if not r.live || not (is_some (relative_path path)) || not (is_text_content content)
    then (r, false)
    else maybe (stored_effect r id) (simulate_new files saving r path content id)
        (λ e. recover_effect saving path content e r)
