-- ===== src/Cli/Upgrade/Options.antt =====
-- The options of `gkos update`: the loop of updateCommand in update.ts, exactTarget's choice, and
-- optionValue of options.ts.
use gatekeeper_os.Cli.Script.{Failure, step_error, other_error}
use gatekeeper_os.Prelude.{
  leb, ◌==◌, List, [], ◌∷◌, ◌++◌, none, some, Option, Bool, maybe, true, false, if◌then◌else◌,
  nat_eq, is_some, not, ◌&&◌, ◌||◌, any,
}
use gatekeeper_os.Cli.Json.{Text, text_eq, units}
use gatekeeper_os.Cli.Json5.Scan.{strip}
use gatekeeper_os.Cli.Upgrade.Versions.{exact_version}

abbrev pub one_of : List Text → Text → Bool
one_of ts t = any (λ s. s == t) ts

-- `split("=")[0]`
abbrev pub option_key : Text → Text
option_key [] = []
option_key (c ∷ t) = let rest = option_key t in if c == b'=' then [] else c ∷ rest

abbrev has_equals : Text → Bool
has_equals t = any (λ c. c == b'=') t

abbrev pub valued_options : List Text
valued_options = units "--to" ∷ units "--channel" ∷ units "--conformance" ∷ []

abbrev pub allowed_options : List Text
allowed_options = units "--check" ∷ units "--dry-run" ∷ valued_options

abbrev pub needs_value : Text → Bool
needs_value arg = one_of valued_options (option_key arg) && not (has_equals arg)

abbrev is_new_option : List Text → Text → Bool
is_new_option seen arg =
    one_of allowed_options (option_key arg) && not (one_of seen (option_key arg))

abbrev is_value : Text → Bool
is_value [] = false
is_value (c ∷ t) = not (is_some (strip (units "--") (c ∷ t)))

-- Whether the loop over the arguments throws nothing.
unfoldable pub accepts_from : List Text → List Text → Bool
accepts_from seen [] = true
accepts_from seen (arg ∷ []) = is_new_option seen arg && not (needs_value arg)
accepts_from seen (arg ∷ next ∷ rest) =
    let with_value = accepts_from (option_key arg ∷ seen) rest in
    let without = accepts_from (option_key arg ∷ seen) (next ∷ rest) in
    is_new_option seen arg && (if needs_value arg then is_value next && with_value else without)

abbrev pub accepts_options : List Text → Bool
accepts_options args = accepts_from [] args

-- `args[args.indexOf(flag) + 1]`, where the flag stands alone
abbrev behind_flag : Text → List Text → Option (Option Text)
behind_flag flag [] = none
behind_flag flag (arg ∷ []) = if arg == flag then some none else none
behind_flag flag (arg ∷ next ∷ rest) =
    let later = behind_flag flag (next ∷ rest) in if arg == flag then some (some next) else later

abbrev inline_value : Text → List Text → Option Text
inline_value flag [] = none
inline_value flag (arg ∷ rest) =
    let later = inline_value flag rest in maybe (strip (flag ++ b'=' ∷ []) arg) later some

unfoldable pub option_value : List Text → Text → Option Text
option_value args flag = maybe (behind_flag flag args) (inline_value flag args) (λ v. v)

abbrev is_set : Option Text → Bool
is_set (some (c ∷ t)) = true
is_set other = false

abbrev release_tags : List Text
release_tags = units "latest" ∷ units "beta" ∷ units "extended-stable" ∷ []

abbrev channels : List Text
channels = units "stable" ∷ units "beta" ∷ units "extended-stable" ∷ []

abbrev is_release : Text → Bool
is_release t = exact_version t || one_of release_tags t

abbrev tag_of : Text → Text
tag_of channel = if channel == units "stable" then units "latest" else channel

-- What is asked of the registry; `none` is a StepError, whichever its message.
abbrev pub requested_release : (selected channel : Option Text) → Option Text
requested_release selected channel =
    if is_set selected && is_set channel
    then none
    else if is_set selected && not (maybe selected false is_release)
    then none
    else if is_set channel && not (maybe channel false (one_of channels))
    then none
    else some (maybe selected (maybe channel (units "latest") tag_of) (λ s. s))

abbrev step_ends : List Text
step_ends = units "_BLOCKED" ∷ units "_ROLLED_BACK" ∷ units "_RECOVERY_REQUIRED" ∷ []

abbrev ends_step : Text → Bool
ends_step [] = false
ends_step (c ∷ t) = leb b'1' c && leb c b'9' && one_of step_ends t

-- The errors of an update that name a step and the state that was reached.
abbrev pub is_step_error : Text → Bool
is_step_error t = maybe (strip (units "UPDATE_STEP_") t) false ends_step

-- What `update` throws in place of an error.
unfoldable pub safe_failure : Failure → Failure
safe_failure (step_error message) = step_error message
safe_failure (other_error message) =
    if is_step_error (units message)
    then step_error message
    else step_error
        "Update metadata or transaction unavailable; inspect the private recovery journal"
