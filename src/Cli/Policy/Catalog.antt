-- ===== src/Cli/Policy/Catalog.antt =====
-- `admit` of packages/gkos-cli/src/util/gatekeeper-policy.ts: the tools of the catalog's gatekeepers
-- are admitted where a policy has the messaging profile. A property of `null` is a TypeError.
use gatekeeper_os.Prelude.{
  ℕ, ◌==◌, List, [], ◌∷◌, ◌++◌, none, some, Option, Bool, maybe, any, all, filter, true, false,
  if◌then◌else◌, not, ◌&&◌, ◌||◌, nat_eq, leb,
}
use gatekeeper_os.Cli.Json.{
  null, bool, number, text, array, object, no_fields, field, no_items, item, Json, Fields, Items,
  Text, text_eq, units, get_field, set_field,
}
use gatekeeper_os.Cli.Json5.Scan.{is_digit, strip}
use gatekeeper_os.Cli.Script.{
  Failure, step_error, other_error, Script, ◌>>=◌, give, throw, from_option,
}
use gatekeeper_os.Cli.Policy.{is_text, elements, items_of, includes_text}

abbrev is_lower : ℕ → Bool
is_lower c = leb b'a' c && leb c b'z'

abbrev is_vendor_unit : ℕ → Bool
is_vendor_unit c = is_lower c || is_digit c || c == b'_'

abbrev is_vendor : Text → Bool
is_vendor [] = false
is_vendor (c ∷ t) = is_lower c && all is_vendor_unit t

abbrev pub id_prefix : Text
id_prefix = units "gkos-gatekeeper-"

-- `ID.test`
unfoldable pub is_gatekeeper_id : Text → Bool
is_gatekeeper_id t = maybe (strip id_prefix t) false is_vendor

-- `===` of values; objects are the same only where they are one object.
abbrev pub same_value : Json → Json → Bool
same_value null null = true
same_value (bool true) (bool b) = b
same_value (bool false) (bool b) = not b
same_value (number n) (number m) = n == m
same_value (text s) (text t) = s == t
same_value _ _ = false

-- `new Set(xs).size === xs.length`
unfoldable pub is_unique : List Json → Bool
is_unique [] = true
is_unique (v ∷ vs) = not (any (same_value v) vs) && is_unique vs

abbrev pub without_repeats : List Text → List Text → List Text
without_repeats seen [] = []
without_repeats seen (t ∷ ts) =
    let first = without_repeats (t ∷ seen) ts in
    let again = without_repeats seen ts in if any (λ s. s == t) seen then again else t ∷ first

abbrev pub to_items : List Text → Items
to_items [] = no_items
to_items (t ∷ ts) = item (text t) (to_items ts)

abbrev pub string_of : Json → Option Text
string_of (text s) = some s
string_of other = none

-- Every element, if all of them are texts.
abbrev pub all_strings : List Json → Option (List Text)
all_strings [] = some []
all_strings (v ∷ vs) =
    let rest = all_strings vs in
    maybe (string_of v) none (λ t. maybe rest none (λ ts. some (t ∷ ts)))

abbrev pub type_error : Failure
type_error = other_error "TypeError"

-- A text of a text: `includes` of a string.
unfoldable pub is_within : Text → Text → Bool
is_within p [] = maybe (strip p []) false (λ rest. true)
is_within p (c ∷ t) = let later = is_within p t in maybe (strip p (c ∷ t)) later (λ rest. true)

abbrev pub text_member : Option Json → Option Text
text_member v = maybe v none string_of

abbrev pub also_allowed : Option Json → Json
also_allowed none = array no_items
also_allowed (some null) = array no_items
also_allowed (some v) = v

-- `value === false`
abbrev pub is_false : Option Json → Bool
is_false (some (bool b)) = not b
is_false other = false

-- `value === 1`
abbrev pub is_one : Option Json → Bool
is_one (some (number n)) = n == units "1"
is_one other = false

-- `contracts?.tools`
abbrev pub tools_of : Option Json → Option Json
tools_of (some (object contracts)) = get_field (units "tools") contracts
tools_of other = none

module _ {S : Type 0} where
  -- `value.key`
  abbrev pub member : Json → Text → Script S (Option Json)
  member null key = throw type_error
  member (object fs) key = give (get_field key fs)
  member other key = give none

  -- `list?.includes(id)`
  abbrev pub is_listed : Option Json → Text → Script S Bool
  is_listed none id = give false
  is_listed (some null) id = give false
  is_listed (some (array xs)) id = give (includes_text id (elements xs))
  is_listed (some (text s)) id = give (is_within id s)
  is_listed (some other) id = throw type_error

  -- `list.map((tool) => tool.name)`
  unfoldable pub tool_names : List Json → Script S (List (Option Json))
  tool_names [] = give []
  tool_names (tool ∷ tools) = do
    name ← member tool (units "name")
    rest ← tool_names tools
    give (name ∷ rest)

  -- What `admit` makes of the tools of a policy.
  abbrev pub admit_fields : List Text → Fields → Script S Fields
  admit_fields ids tools =
      from_option
        (maybe (items_of (some (also_allowed (get_field (units "alsoAllow") tools)))) none
          all_strings)
        (step_error "Invalid messaging alsoAllow")
      >>= λ prior. give (
          set_field (units "alsoAllow")
            (array (
              to_items
                (without_repeats [] (filter (λ id. not (is_gatekeeper_id id)) prior ++ ids))))
            tools)

  unfoldable pub admit : List Text → Fields → Script S Fields
  unfolding is_gatekeeper_id
  admit ids tools =
      if is_text (units "messaging") (get_field (units "profile") tools)
        && maybe (get_field (units "allow") tools) true (λ v. false)
      then admit_fields ids tools
      else give tools

  -- `admit(owner.tools)`
  abbrev pub admit_in : List Text → Fields → Script S Fields
  admit_in ids owner = elim (get_field (units "tools") owner) [
    | some (object tools) ↦
        admit ids tools >>= (λ admitted. give (set_field (units "tools") (object admitted) owner))
    | _ ↦ give owner
  ]

  abbrev admit_agent : List Text → Json → Script S Json
  admit_agent ids (object agent) = admit_in ids agent >>= (λ admitted. give (object admitted))
  admit_agent ids other = give other

  unfoldable pub admit_agents : List Text → Fields → Script S Fields
  unfolding admit
  admit_agents ids no_fields = give no_fields
  admit_agents ids (field name agent rest) = do
    admitted ← admit_agent ids agent
    others ← admit_agents ids rest
    give (field name admitted others)

  abbrev pub admit_entries : List Text → Fields → Fields → Fields → Script S Fields
  admit_entries ids out agents entries = do
    admitted ← admit_agents ids entries
    give (
        set_field (units "agents") (object (set_field (units "entries") (object admitted) agents))
          out)

  abbrev pub admit_all_agents : List Text → Fields → Script S Fields
  admit_all_agents ids out = elim (get_field (units "agents") out) [
    | some (object agents) ↦ elim (get_field (units "entries") agents) [
      | some (object entries) ↦ admit_entries ids out agents entries
      | _ ↦ give out
    ]
    | _ ↦ give out
  ]
