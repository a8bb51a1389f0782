-- ===== src/Cli/Upgrade/Versions.antt =====
-- exactVersion of packages/gkos-cli/src/util/update-transaction.ts, and forwardVersion,
-- validateUpdateVerdict, quoted and the options of update.ts, with optionValue of options.ts.
use gatekeeper_os.Prelude.{
  ◌==◌, List, [], ◌∷◌, ◌++◌, none, some, Option, Bool, maybe, true, false, if◌then◌else◌, nat_eq, ℕ,
  map, is_some, not, ◌&&◌, ◌||◌, any, all, leb, ltb, length,
}
use gatekeeper_os.Cli.Json.{
  Json, Text, text_eq, units, text, object, bool, number, get_field, Fields,
}
use gatekeeper_os.Cli.Json5.Scan.{strip, is_digit, span}
use gatekeeper_os.Cli.Merge.Diff.{split_dots}
use gatekeeper_os.Cli.Policy.{is_text, items_of}
use gatekeeper_os.Kernel.Commands.{value_from}

abbrev is_alnum : ℕ → Bool
is_alnum c = is_digit c || (leb b'a' c && leb c b'z') || (leb b'A' c && leb c b'Z')

-- `[a-zA-Z0-9]+(?:[.-][a-zA-Z0-9]+)*`, with whether a letter or digit was just read
unfoldable pub is_tag_from : Bool → Text → Bool
is_tag_from in_part [] = in_part
is_tag_from in_part (c ∷ t) =
    let more = is_tag_from true t in
    let next = is_tag_from false t in
    if is_alnum c then more else in_part && (c == b'.' || c == b'-') && next

abbrev is_tag : Text → Bool
is_tag [] = true
is_tag (c ∷ t) = c == b'-' && is_tag_from false t

-- A run of digits, and what is behind it.
abbrev after_digits : Text → Option Text
after_digits t = elim (span is_digit t).0 [ [] ↦ none | d ∷ ds ↦ some (span is_digit t).1 ]

unfoldable pub exact_version : Text → Bool
unfolding span is_tag_from
exact_version t =
    length (span is_digit t).0 == 4
    && maybe (strip (b'.' ∷ []) (span is_digit t).1) false (λ a.
      maybe (after_digits a) false
        (λ b. maybe (strip (b'.' ∷ []) b) false (λ c. maybe (after_digits c) false is_tag)))

-- `split("-")[0]`
abbrev pub release_of : Text → Text
release_of [] = []
release_of (c ∷ t) = let rest = release_of t in if c == b'-' then [] else c ∷ rest

abbrev pub is_prerelease : Text → Bool
is_prerelease t = any (λ c. c == b'-') t

-- The numbers of a version; `none` is a part that is no number.
unfoldable pub parts_of : Text → List (Option ℕ)
unfolding split_dots value_from
parts_of t = map (value_from 0) (split_dots (release_of t))

abbrev pub pops : List (Option ℕ) → Option ℕ × List (Option ℕ)
pops [] = (none, [])
pops (n ∷ ns) = (n, ns)

-- What the first part that differs says; a comparison with NaN or undefined is false.
abbrev pub newer_part : (from target : Option ℕ) → Bool
newer_part (some a) (some b) = ltb a b
newer_part _ _ = false

abbrev same_part : (from target : Option ℕ) → Bool
same_part (some a) (some b) = a == b
same_part _ _ = false

abbrev pub newer_from : Bool → List (Option ℕ × Option ℕ) → Bool
newer_from otherwise [] = otherwise
newer_from otherwise ((a, b) ∷ rest) =
    let later = newer_from otherwise rest in if same_part a b then later else newer_part a b

abbrev first_three : List (Option ℕ) → List (Option ℕ) → List (Option ℕ × Option ℕ)
first_three xs ys =
    let (a, xs1) = pops xs in
    let (b, ys1) = pops ys in
    let (c, xs2) = pops xs1 in
    let (d, ys2) = pops ys1 in (a, b) ∷ (c, d) ∷ ((pops xs2).0, (pops ys2).0) ∷ []

-- The target is an exact version, so its parts are numbers.
unfoldable pub forward_version : (from target : Text) → Bool
unfolding parts_of
forward_version from target =
    if from == target
    then true
    else newer_from (is_prerelease from && not (is_prerelease target))
        (first_three (parts_of from) (parts_of target))

-- `Number.isInteger(n) && n > 0`, for an `n` that is printed in digits, so below 10^21
abbrev is_positive : Option Json → Bool
is_positive (some (number n)) = maybe (value_from 0 n) false (λ k. ltb 0 k)
is_positive other = false

abbrev is_zero : Option Json → Bool
is_zero (some (number n)) = n == units "0"
is_zero other = false

-- A test that passed, and did not fail or skip anything.
abbrev pub is_clean : Fields → Bool
is_clean t =
    is_positive (get_field (units "passed") t)
    && is_zero (get_field (units "failed") t)
    && is_zero (get_field (units "skipped") t)

abbrev pub test_id : Json → Option Text
test_id (object t) = elim (get_field (units "id") t) [ some (text id) ↦ some id | _ ↦ none ]
test_id other = none

abbrev pub passes : Json → Bool
passes (object t) = is_some (test_id (object t)) && is_clean t
passes other = false

abbrev has_id : Text → Json → Bool
has_id id t = maybe (test_id t) false (λ i. i == id)

abbrev pub has_distinct_ids : List Json → Bool
has_distinct_ids [] = true
has_distinct_ids (t ∷ ts) =
    let rest = has_distinct_ids ts in maybe (test_id t) false (λ i. not (any (has_id i) ts)) && rest

abbrev pub required_tests : List Text
required_tests =
    units "plugin-loads"
    ∷ units "hooks-fire"
    ∷ units "tool-narrowing"
    ∷ units "gate-blocks"
    ∷ units "rpc-methods"
    ∷ units "cli-mounted"
    ∷ units "health"
    ∷ units "fs-gatekeeper"
    ∷ units "install-gate"
    ∷ units "install-hook"
    ∷ units "config-reconcile"
    ∷ units "deferred-approval"
    ∷ units "require-approval-roundtrip"
    ∷ []

abbrev pub is_true : Option Json → Bool
is_true (some (bool b)) = b
is_true other = false

abbrev tests_pass : List Json → Bool
tests_pass ts =
    all passes ts
    && has_distinct_ids ts
    && all (λ id. any (λ t. has_id id t && passes t) ts) required_tests

unfoldable pub validate_update_verdict : Json → (id version : Text) → Bool
unfolding value_from
validate_update_verdict (object v) id version =
    is_text (units "live-conformance") (get_field (units "scope") v)
    && is_text id (get_field (units "runId") v)
    && is_text version (get_field (units "upstreamVersion") v)
    && is_true (get_field (units "ok") v)
    && is_true (get_field (units "fullConformance") v)
    && maybe (items_of (get_field (units "tests") v)) false tests_pass
validate_update_verdict other id version = false

-- The unit that `replaceAll` puts for each; its replacement "$$" stands for one "$".
abbrev pub escaped_unit : ℕ → Text
escaped_unit c =
    if c == b'\\'
    then b'\\' ∷ b'\\' ∷ []
    else if c == b'"'
    then b'\\' ∷ b'"' ∷ []
    else if c == b'%'
    then b'%' ∷ b'%' ∷ []
    else c ∷ []

abbrev pub escape_all : Text → Text
escape_all [] = []
escape_all (c ∷ t) = escaped_unit c ++ escape_all t

abbrev is_line_break : ℕ → Bool
is_line_break c = c == 13 || c == 10 || c == 0

-- `none` is a throw.
unfoldable pub quoted : Text → Option Text
quoted t = if any is_line_break t then none else some (b'"' ∷ escape_all t ++ b'"' ∷ [])
