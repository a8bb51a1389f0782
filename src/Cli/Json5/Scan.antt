-- ===== src/Cli/Json5/Scan.antt =====
-- The tokens of json5.ts: gaps and comments, strings, numbers and keys.
use gatekeeper_os.Cli.Json.{text_eq, Text}
use gatekeeper_os.Prelude.{
  maybe, ◌&&◌, ◌+◌, nat_eq, ◌*◌, ◌==◌, length, ◌-◌, is_some, ◌||◌, leb, ℕ, ◌++◌, Bool,
  if◌then◌else◌, Option, zero, suc, none, some, [], ◌∷◌, false,
}

pub data Message : Type 0 where
  unterminated_comment unterminated_string newline_in_string unterminated_escape invalid_escape
        invalid_number expected_key unexpected_end expected_colon expected_in_object
        expected_in_array unexpected_character trailing_content not_an_object :
      Message

-- A result with the text that is left, or an error with the length of the text left where it is.
pub data Outcome {ℓ} (A : Type ℓ) : Type ℓ where
  parsed : A → Text → Outcome A
  failed : Message → ℕ → Outcome A
  out_of_fuel : Outcome A

abbrev pub bind {ℓ κ} : {A : Type ℓ} {B : Type κ} → Outcome A → (A → Text → Outcome B) → Outcome B
bind (parsed a rest) k = k a rest
bind (failed m at) k = failed m at
bind out_of_fuel k = out_of_fuel

abbrev between : ℕ → ℕ → ℕ → Bool
between low high c = leb low c && leb c high

abbrev pub is_digit : ℕ → Bool
is_digit c = between b'0' b'9' c

abbrev is_letter : ℕ → Bool
is_letter c = between b'a' b'z' c || between b'A' b'Z' c

abbrev pub is_ident_start : ℕ → Bool
is_ident_start c = is_letter c || c == b'_' || c == b'$'

abbrev pub is_ident_part : ℕ → Bool
is_ident_part c = is_ident_start c || is_digit c

-- `\s` of a regular expression
abbrev pub is_space : ℕ → Bool
is_space c =
    between 9 13 c
    || c == 32
    || c == 160
    || c == 5760
    || between 8192 8202 c
    || c == 8232
    || c == 8233
    || c == 8239
    || c == 8287
    || c == 12288
    || c == 65279

-- What `skip` is in: between tokens, in a line comment, or in a block comment, with whether the last
-- unit was a star and the length left where it began.
pub data Gap : Type 0 where
  plain line_comment : Gap
  block_comment : Bool → ℕ → Gap

unfoldable pub skip_from : Gap → Text → Outcome (Unit {0})
skip_from plain [] = parsed tt []
skip_from line_comment [] = parsed tt []
skip_from (block_comment star start) [] = failed unterminated_comment start
skip_from plain (c ∷ []) = if is_space c then parsed tt [] else parsed tt (c ∷ [])
skip_from plain (c ∷ d ∷ s) =
    let spaced = skip_from plain (d ∷ s) in
    let lined = skip_from line_comment s in
    let blocked = skip_from (block_comment false (length (c ∷ d ∷ s))) s in
    if is_space c
    then spaced
    else if c == b'/' && d == b'/'
    then lined
    else if c == b'/' && d == b'*'
    then blocked
    else parsed tt (c ∷ d ∷ s)
skip_from line_comment (c ∷ s) =
    let after = skip_from plain s in
    let more = skip_from line_comment s in if c == 10 then after else more
skip_from (block_comment star start) (c ∷ s) =
    let closed = skip_from plain s in
    let more = skip_from (block_comment (c == b'*') start) s in
    if star && c == b'/' then closed else more

abbrev pub skip : Text → Outcome (Unit {0})
skip t = skip_from plain t

-- What `parseString` is in: the text, after a backslash, or in the digits of a `\u` escape, with how
-- many are still to come, their value so far and the length left where they began.
pub data Quoted : Type 0 where
  literal escaped : Quoted
  hex : (more value start : ℕ) → Quoted

abbrev pub hex_value : ℕ → Option ℕ
hex_value c =
    if is_digit c
    then some (c - b'0')
    else if between b'a' b'f' c
    then some (c - b'a' + 10)
    else if between b'A' b'F' c
    then some (c - b'A' + 10)
    else none

abbrev pub unescape : ℕ → ℕ
unescape c =
    if c == b'n'
    then 10
    else if c == b't'
    then 9
    else if c == b'r'
    then 13
    else if c == b'b'
    then 8
    else if c == b'f'
    then 12
    else if c == b'0'
    then 0
    else c

-- From behind the opening quote.
unfoldable pub string_from : ℕ → Quoted → Text → Text → Outcome Text
string_from quote literal out [] = failed unterminated_string 0
string_from quote escaped out [] = failed unterminated_escape 0
string_from quote (hex more value start) out [] = failed invalid_escape start
string_from quote literal out (c ∷ s) =
    let backslash = string_from quote escaped out s in
    let more = string_from quote literal (out ++ c ∷ []) s in
    if c == quote
    then parsed out s
    else if c == 10
    then failed newline_in_string (length (c ∷ s))
    else if c == b'\\'
    then backslash
    else more
string_from quote escaped out (c ∷ s) =
    let unicode = string_from quote (hex 3 0 (length s)) out s in
    let continued = string_from quote literal out s in
    let replaced = string_from quote literal (out ++ unescape c ∷ []) s in
    if c == b'u' then unicode else if c == 10 then continued else replaced
string_from quote (hex zero value start) out (c ∷ s) =
    maybe (hex_value c) (failed invalid_escape start)
      (λ d. string_from quote literal (out ++ (value * 16 + d) ∷ []) s)
string_from quote (hex (suc n) value start) out (c ∷ s) =
    maybe (hex_value c) (failed invalid_escape start)
      (λ d. string_from quote (hex n (value * 16 + d) start) out s)

-- `while (test) i++`: what was passed, and what is left
unfoldable pub span : (ℕ → Bool) → Text → Text × Text
span p [] = ([], [])
span p (c ∷ s) = let (passed, rest) = span p s in if p c then (c ∷ passed, rest) else ([], c ∷ s)

abbrev pub is_sign : ℕ → Bool
is_sign c = c == b'+' || c == b'-'

abbrev pub sign : Text → Text × Text
sign [] = ([], [])
sign (c ∷ s) = if is_sign c then (c ∷ [], s) else ([], c ∷ s)

-- One scan after another.
abbrev pub prepend : Text → Text × Text → Text × Text
prepend p (a, b) = (p ++ a, b)

abbrev pub join : Text × Text → (Text → Text × Text) → Text × Text
join (a, b) scan = prepend a (scan b)

abbrev pub fraction : Text → Text × Text
fraction [] = ([], [])
fraction (c ∷ s) = if c == b'.' then prepend (c ∷ []) (span is_digit s) else ([], c ∷ s)

abbrev pub exponent : Text → Text × Text
exponent [] = ([], [])
exponent (c ∷ s) =
    if c == b'e' || c == b'E' then prepend (c ∷ []) (join (sign s) (span is_digit)) else ([], c ∷ s)

abbrev pub is_hex : ℕ → Bool
is_hex c = is_some (hex_value c)

abbrev pub decimal : Text → Text × Text
decimal t = join (span is_digit t) λ a. join (fraction a) exponent

abbrev pub magnitude : Text → Text × Text
magnitude [] = decimal []
magnitude (c ∷ []) = decimal (c ∷ [])
magnitude (c ∷ x ∷ s) =
    if c == b'0' && (x == b'x' || x == b'X')
    then prepend (c ∷ x ∷ []) (span is_hex s)
    else decimal (c ∷ x ∷ s)

unfoldable pub scan_number : Text → Text × Text
unfolding span
scan_number t = join (sign t) magnitude

abbrev pub number_of : (Text → Option Text) → Text → Option Text
number_of to_number [] = none
number_of to_number (c ∷ raw) = to_number (c ∷ raw)

-- `t` begins with a prefix: what is left of it
abbrev pub strip : Text → Text → Option Text
strip [] t = some t
strip (c ∷ p) [] = none
strip (c ∷ p) (d ∷ t) = let rest = strip p t in if c == d then rest else none

abbrev pub is_quote : ℕ → Bool
is_quote c = c == b'"' || c == b'\''

abbrev pub identifier : ℕ → Text × Text → Outcome Text
identifier c (more, rest) = parsed (c ∷ more) rest

unfoldable pub parse_key : Text → Outcome Text
unfolding span string_from
parse_key [] = failed expected_key 0
parse_key (c ∷ s) =
    if is_quote c
    then string_from c literal [] s
    else if is_ident_start c
    then identifier c (span is_ident_part s)
    else failed expected_key (length (c ∷ s))
