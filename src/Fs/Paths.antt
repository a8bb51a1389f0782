-- ===== src/Fs/Paths.antt =====
-- relativePath of io.ts and directoryPath, contains and configuredRoots of paths.ts, of
-- packages/gkos-gatekeeper-fs, on texts of UTF-16 units.
pub mod Confined
use gatekeeper_os.Prelude.{
  none, some, true, false, [], ◌∷◌, nat_eq, not, any, ltb, leb, if◌then◌else◌, ◌&&◌, ◌||◌, ◌==◌,
  ◌+◌, ◌++◌, ℕ, List, Bool, Option,
}
use gatekeeper_os.Cli.Json.{Text, text_eq}

abbrev is_control : ℕ → Bool
is_control c = leb c 31 || c == 127 || c == b'\\'

abbrev is_high : ℕ → Bool
is_high c = leb 55296 c && leb c 56319

abbrev is_low : ℕ → Bool
is_low c = leb 56320 c && leb c 57343

-- The UTF-8 length of a unit that is no half of a pair; a lone half is replaced by U+FFFD.
abbrev unit_length : ℕ → ℕ
unit_length c = if ltb c 128 then 1 else if ltb c 2048 then 2 else 3

-- `Buffer.byteLength`
unfoldable pub byte_length : Text → ℕ
byte_length [] = 0
byte_length (c ∷ []) = unit_length c
byte_length (c ∷ d ∷ t) =
    let paired = byte_length t in
    let alone = byte_length (d ∷ t) in
    if is_high c && is_low d then 4 + paired else unit_length c + alone

-- Encoding to UTF-8 and back gives the same text.
unfoldable pub is_well_formed : Text → Bool
is_well_formed [] = true
is_well_formed (c ∷ []) = not (is_high c || is_low c)
is_well_formed (c ∷ d ∷ t) =
    let paired = is_well_formed t in
    let alone = is_well_formed (d ∷ t) in
    if is_high c && is_low d then paired else not (is_high c || is_low c) && alone

abbrev pub slash : ℕ
slash = 47

abbrev pub first_longer : ℕ → List Text → List Text
first_longer c [] = (c ∷ []) ∷ []
first_longer c (p ∷ ps) = (c ∷ p) ∷ ps

-- `split("/")`
unfoldable pub split_path : Text → List Text
split_path [] = [] ∷ []
split_path (c ∷ t) =
    let parts = split_path t in if c == slash then [] ∷ parts else first_longer c parts

-- `join("/")`
abbrev pub join_path : List Text → Text
join_path [] = []
join_path (p ∷ []) = p
join_path (p ∷ q ∷ ps) = p ++ slash ∷ join_path (q ∷ ps)

abbrev pub is_bad_part : Text → Bool
is_bad_part p = p == [] || p == 46 ∷ [] || p == 46 ∷ 46 ∷ []

abbrev is_literal : Text → Bool
is_literal t = not (any is_control t) && leb (byte_length t) 4096 && is_well_formed t

abbrev starts_with_slash : Text → Bool
starts_with_slash [] = false
starts_with_slash (c ∷ t) = c == slash

unfoldable pub has_relative_form : Text → Bool
unfolding byte_length is_well_formed
has_relative_form t = not (t == []) && not (starts_with_slash t) && is_literal t

unfoldable pub relative_path : Text → Option Text
unfolding has_relative_form split_path
relative_path t =
    if has_relative_form t && not (any is_bad_part (split_path t)) then some t else none

-- The text without a slash at its end.
abbrev without_last_slash : Text → Text
without_last_slash [] = []
without_last_slash (c ∷ []) = if c == slash then [] else c ∷ []
without_last_slash (c ∷ d ∷ t) = c ∷ without_last_slash (d ∷ t)

-- Behind the first slash.
abbrev directory_below : Text → Option Text
directory_below [] = some (slash ∷ [])
directory_below (c ∷ t) =
    if c == slash
      || not (is_literal (slash ∷ c ∷ t))
      || any is_bad_part (split_path (without_last_slash (c ∷ t)))
    then none
    else some (slash ∷ without_last_slash (c ∷ t))

unfoldable pub directory_path : Text → Option Text
unfolding byte_length is_well_formed split_path
directory_path [] = none
directory_path (c ∷ t) = if c == slash then directory_below t else none

unfoldable pub is_prefix : Text → Text → Bool
is_prefix [] t = true
is_prefix (c ∷ p) [] = false
is_prefix (c ∷ p) (d ∷ t) = c == d && is_prefix p t

unfoldable pub contains : Text → Text → Bool
unfolding is_prefix
contains root path = root == slash ∷ [] || path == root || is_prefix (root ++ slash ∷ []) path

abbrev pub is_distinct : Text → List Text → Bool
is_distinct p ps = not (any (λ other. other == p) ps)

-- The paths of the roots, each once, in the order of their first place.
unfoldable pub configured_from : List Text → List Text → Option (List Text)
unfolding directory_path
configured_from done [] = some done
configured_from done (r ∷ rs) = elim (directory_path r) [
  | none ↦ none
  | some p ↦ configured_from (if is_distinct p done then done ++ p ∷ [] else done) rs
]

unfoldable pub configured_roots : List Text → Option (List Text)
unfolding configured_from
configured_roots rs = configured_from [] rs

-- The path that `anchor` expects behind each step of its walk.
abbrev pub step_into : Text → Text → Text
step_into path part = if path == slash ∷ [] then slash ∷ part else path ++ slash ∷ part

unfoldable pub descend : Text → List Text → Text
descend path [] = path
descend path (p ∷ ps) = descend (step_into path p) ps
