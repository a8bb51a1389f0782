-- ===== src/Kernel/Commands.antt =====
-- packages/gkos-kernel/src/commands.ts: the commands of operators in a chat. `url_parts` is the URL
-- parser of the platform, where `none` is a throw.

pub mod Bounds
use gatekeeper_os.Prelude.{
  none, some, true, false, [], ◌∷◌, nat_eq, not, any, all, leb, ltb, if◌then◌else◌, ◌&&◌, ◌||◌,
  ◌==◌, ◌+◌, ◌-◌, ◌*◌, ℕ, List, Bool, Option, length, maybe, includes,
}
use gatekeeper_os.Cli.Json.{Text, text_eq, units}
use gatekeeper_os.Cli.Json5.Scan.{is_space, is_digit}

pub record UrlParts : Type 0 where
  pub protocol : Text
  pub username : Text
  pub password : Text
  pub search : Text
  pub hash : Text

pub data Ids : Type 0 where
  all_ids : Ids
  given_ids : List ℕ → Ids

pub data Command : Type 0 where
  show_approvals show_grants : Command
  introduce revoke : Text → Command
  decide : (verb : Text) → Ids → Command

-- What `operatorCommand` gives: nothing for other texts, a throw, or a command.
pub data Answer : Type 0 where
  not_a_command refused : Answer
  accepted : Command → Answer

abbrev pub max_safe : ℕ
max_safe = 9007199254740991

-- `split(/\s+/)` of a trimmed text
abbrev longer_first : ℕ → List Text → List Text
longer_first c [] = (c ∷ []) ∷ []
longer_first c (w ∷ ws) = (c ∷ w) ∷ ws

unfoldable pub tokens_from : (in_word : Bool) → Text → List Text
tokens_from true [] = [] ∷ []
tokens_from false [] = []
tokens_from true (c ∷ t) =
    let ended = tokens_from false t in
    let more = tokens_from true t in if is_space c then [] ∷ ended else longer_first c more
tokens_from false (c ∷ t) =
    let skipped = tokens_from false t in
    let begun = tokens_from true t in if is_space c then skipped else longer_first c begun

abbrev names : Text → Text → Bool
names [] [] = true
names [] (c ∷ t) = is_space c
names (c ∷ w) [] = false
names (c ∷ w) (d ∷ t) = c == d && names w t

abbrev surfaces : List Text
surfaces = units "approvals" ∷ units "reject" ∷ units "grants" ∷ units "grant" ∷ []

unfoldable pub is_operator_command : Text → Bool
is_operator_command [] = false
is_operator_command (c ∷ t) = c == b'/' && any (λ w. names w t) surfaces

-- `split(",")`
abbrev comma_longer : ℕ → List Text → List Text
comma_longer c [] = (c ∷ []) ∷ []
comma_longer c (w ∷ ws) = (c ∷ w) ∷ ws

unfoldable pub split_commas : Text → List Text
split_commas [] = [] ∷ []
split_commas (c ∷ t) =
    let parts = split_commas t in if c == b',' then [] ∷ parts else comma_longer c parts

unfoldable pub value_from : ℕ → Text → Option ℕ
value_from n [] = some n
value_from n (c ∷ t) =
    let rest = value_from (n * 10 + (c - b'0')) t in if is_digit c then rest else none

-- `[1-9][0-9]*` as a number
unfoldable pub id_of : Text → Option ℕ
unfolding value_from
id_of [] = none
id_of (c ∷ t) = if leb b'1' c && leb c b'9' then value_from (c - b'0') t else none

unfoldable pub ids_of : List Text → Option (List ℕ)
unfolding id_of
ids_of [] = some []
ids_of (w ∷ ws) = maybe (id_of w) none (λ n. maybe (ids_of ws) none (λ ns. some (n ∷ ns)))

unfoldable pub is_repeated : List ℕ → Bool
is_repeated [] = false
is_repeated (n ∷ ns) = includes ns n || is_repeated ns

abbrev pub bounded_ids : List ℕ → Option (List ℕ)
bounded_ids ns =
    if ltb 100 (length ns) || any (λ n. ltb max_safe n) ns || is_repeated ns then none else some ns

unfoldable pub parse_ids : Text → Option Ids
unfolding split_commas ids_of is_repeated
parse_ids t =
    if t == units "all"
    then some all_ids
    else maybe (ids_of (split_commas t)) none
        (λ ns. maybe (bounded_ids ns) none (λ ms. some (given_ids ms)))

abbrev is_handle_unit : ℕ → Bool
is_handle_unit c = is_digit c || (leb b'a' c && leb c b'z')

abbrev behind : Text → Text → Option Text
behind [] t = some t
behind (c ∷ p) [] = none
behind (c ∷ p) (d ∷ t) = if c == d then behind p t else none

abbrev pub is_handle : Text → Bool
is_handle t = maybe (behind (units "grant:") t) false (λ s. length s == 8 && all is_handle_unit s)

abbrev schemes : List Text
schemes = units "https:" ∷ units "http:" ∷ units "file:" ∷ []

abbrev pub is_resource_url : UrlParts → Bool
is_resource_url u =
    includes schemes u.protocol
    && u.username == []
    && u.password == []
    && u.search == []
    && u.hash == []

abbrev pub verbs : List Text
verbs =
    units "preview"
    ∷ units "apply"
    ∷ units "reject"
    ∷ units "revert"
    ∷ units "grant"
    ∷ units "reject-request"
    ∷ []

abbrev pub decision : Text → Text → Answer
decision verb argument =
    if includes verbs verb
    then maybe (parse_ids argument) refused (λ ids. accepted (decide verb ids))
    else refused

abbrev pub on_approvals : List Text → Answer
on_approvals [] = accepted show_approvals
on_approvals (verb ∷ []) = if verb == units "list" then accepted show_approvals else refused
on_approvals (verb ∷ argument ∷ []) = decision verb argument
on_approvals (verb ∷ argument ∷ x ∷ ws) = refused

abbrev pub on_grants : List Text → Answer
on_grants [] = accepted show_grants
on_grants (verb ∷ []) = if verb == units "list" then accepted show_grants else refused
on_grants (verb ∷ argument ∷ []) =
    if verb == units "revoke" && is_handle argument then accepted (revoke argument) else refused
on_grants (verb ∷ argument ∷ x ∷ ws) = refused

abbrev pub on_reject : List Text → Answer
on_reject (argument ∷ []) = decision (units "reject") argument
on_reject _ = refused

module _ (url_parts : Text → Option UrlParts) where
  abbrev pub on_grant : List Text → Answer
  on_grant (url ∷ []) =
      maybe (url_parts url) refused
        (λ u. if is_resource_url u then accepted (introduce url) else refused)
  on_grant _ = refused

  abbrev pub by_surface : List Text → Answer
  by_surface [] = refused
  by_surface (surface ∷ rest) =
      if surface == units "reject"
      then on_reject rest
      else if surface == units "grant"
      then on_grant rest
      else if surface == units "grants"
      then on_grants rest
      else on_approvals rest

  abbrev pub tokens_below : Text → List Text
  tokens_below [] = []
  tokens_below (c ∷ t) = tokens_from true t

  unfoldable pub operator_command : Text → Answer
  unfolding is_operator_command tokens_from parse_ids
  operator_command body =
      if not (is_operator_command body)
      then not_a_command
      else if ltb 2048 (length body)
      then refused
      else by_surface (tokens_below body)
