-- ===== src/Cli/Json5/Grammar.antt =====
-- The values of json5.ts, and where its errors are.
use gatekeeper_os.Cli.Json5.Scan.{
  expected_in_array, unexpected_character, is_digit, expected_in_object, parse_key, is_quote,
  invalid_number, skip, unexpected_end, is_sign, number_of, bind, strip, trailing_content,
  string_from, scan_number, Message, not_an_object, expected_colon, parsed, failed, out_of_fuel,
  literal, Outcome,
}
use gatekeeper_os.Cli.Json.{
  set_field, null, bool, number, text, array, object, no_fields, no_items, item, Json, Fields,
  Items, Text, text_eq,
}
use gatekeeper_os.Prelude.{
  maybe, ◌||◌, nat_eq, ◌*◌, ◌+◌, ◌==◌, ◌-◌, Bool, length, ℕ, if◌then◌else◌, Option, zero, suc, none,
  some, [], ◌∷◌, false, true,
}

-- A unit at the head, and what follows it.
abbrev pub after : ℕ → Text → Option Text
after unit [] = none
after unit (c ∷ s) = if c == unit then some s else none

unfoldable pub expect_colon : Text → Outcome (Unit {0})
expect_colon t = maybe (after b':' t) (failed expected_colon (length t)) (λ s. parsed tt s)

-- Behind an element: the closing unit, or a comma that the closing unit may follow.
unfoldable pub close_or_go_on {ℓ} :
    {A : Type ℓ} → ℕ → Message → A → (Text → Outcome A) → Text → Outcome A
close_or_go_on close message done go_on t =
    maybe (after b',' t)
      (maybe (after close t) (failed message (length t)) (λ rest. parsed done rest))
      (λ s. bind (skip s) (λ _ a. maybe (after close a) (go_on a) (λ rest. parsed done rest)))

-- Behind the opening unit: the closing one, or the first element.
unfoldable pub open_or_empty {ℓ} : {A : Type ℓ} → ℕ → A → (Text → Outcome A) → Text → Outcome A
open_or_empty close empty elements t =
    bind (skip t) (λ _ a. maybe (after close a) (elements a) (λ rest. parsed empty rest))

abbrev pub append_item : Items → Json → Items
append_item no_items v = item v no_items
append_item (item w ws) v = item w (append_item ws v)

-- Assigning to `__proto__` makes no own property.
abbrev pub proto : Text
proto = 95 ∷ 95 ∷ 112 ∷ 114 ∷ 111 ∷ 116 ∷ 111 ∷ 95 ∷ 95 ∷ []

abbrev pub assign_field : Text → Json → Fields → Fields
assign_field key v out = if key == proto then out else set_field key v out

abbrev pub true_word : Text
true_word = 116 ∷ 114 ∷ 117 ∷ 101 ∷ []

abbrev pub false_word : Text
false_word = 102 ∷ 97 ∷ 108 ∷ 115 ∷ 101 ∷ []

abbrev pub null_word : Text
null_word = 110 ∷ 117 ∷ 108 ∷ 108 ∷ []

abbrev pub is_number_start : ℕ → Bool
is_number_start c = is_sign c || is_digit c || c == b'.'

abbrev pub words : Text → Option (Json × Text)
words t =
    maybe (strip true_word t)
      (maybe (strip false_word t) (maybe (strip null_word t) none (λ rest. some (null, rest)))
        (λ rest. some (bool false, rest)))
      (λ rest. some (bool true, rest))

abbrev pub pair_parsed : Json × Text → Outcome Json
pair_parsed (v, rest) = parsed v rest

module _ (to_number : Text → Option Text) where
  abbrev pub numbered : Text → Text × Text → Outcome Json
  numbered t (raw, rest) =
      maybe (number_of to_number raw) (failed invalid_number (length t))
        (λ n. parsed (number n) rest)

  unfoldable pub parse_number : Text → Outcome Json
  unfolding scan_number
  parse_number t = numbered t (scan_number t)

  -- By the first unit of a value, with the parsers of what follows an opening bracket.
  unfoldable pub dispatch : (Text → Outcome Json) → (Text → Outcome Json) → Text → Outcome Json
  unfolding string_from parse_number
  dispatch members elements [] = failed unexpected_end 0
  dispatch members elements (c ∷ s) =
      if c == b'{'
      then members s
      else if c == b'['
      then elements s
      else if is_quote c
      then bind (string_from c literal [] s) (λ out rest. parsed (text out) rest)
      else maybe (words (c ∷ s))
          (if is_number_start c
            then parse_number (c ∷ s)
            else failed unexpected_character (length (c ∷ s)))
          pair_parsed

  unfoldable mutual
    pub parse_value : ℕ → Text → Outcome Json
    parse_value zero t = out_of_fuel
    parse_value (suc f) t = bind (skip t) λ _ s.
        dispatch (open_or_empty b'}' (object no_fields) (λ a. parse_members f no_fields a))
          (open_or_empty b']' (array no_items) (λ a. parse_elements f no_items a)) s

    pub parse_members : ℕ → Fields → Text → Outcome Json
    parse_members zero out t = out_of_fuel
    parse_members (suc f) out t = bind (skip t) λ _ a. bind (parse_key a) λ key b.
        bind (skip b) λ _ c. bind (expect_colon c) λ _ d. bind (parse_value f d) λ v e.
          bind (skip e) λ _ g.
            close_or_go_on b'}' expected_in_object (object (assign_field key v out))
              (λ s. parse_members f (assign_field key v out) s) g

    pub parse_elements : ℕ → Items → Text → Outcome Json
    parse_elements zero out t = out_of_fuel
    parse_elements (suc f) out t = bind (parse_value f t) λ v e. bind (skip e) λ _ g.
        close_or_go_on b']' expected_in_array (array (append_item out v))
          (λ s. parse_elements f (append_item out v) s) g

  abbrev pub at_end : Json → Text → Outcome Json
  at_end v [] = parsed v []
  at_end v (c ∷ s) = failed trailing_content (length (c ∷ s))

  unfoldable pub parse_text : Text → Outcome Json
  parse_text t =
      bind (parse_value (2 * length t + 1) t) λ v rest. bind (skip rest) λ _ s. at_end v s

-- `posOf`: the line and the column before a number of units.
unfoldable pub position_of : (line column : ℕ) → ℕ → Text → ℕ × ℕ
position_of line column zero t = (line, column)
position_of line column (suc n) [] = (line, column)
position_of line column (suc n) (c ∷ t) =
    position_of (if c == 10 then line + 1 else line) (if c == 10 then 1 else column + 1) n t

pub data Result {ℓ} (A : Type ℓ) : Type ℓ where
  value : A → Result A
  error : Message → (line column : ℕ) → Result A
  exhausted : Result A

abbrev pub located {ℓ} : {A : Type ℓ} → Text → Outcome A → Result A
located t (parsed a rest) = value a
located t (failed message at) =
    let (line, column) = position_of 1 1 (length t - at) t in error message line column
located t out_of_fuel = exhausted

unfoldable pub parse_json5 : (Text → Option Text) → Text → Result Json
unfolding parse_text position_of
parse_json5 to_number t = located t (parse_text to_number t)

abbrev fragment : Result Json → Result Fields
fragment (value (object fields)) = value fields
fragment (value other) = error not_an_object 1 1
fragment (error message line column) = error message line column
fragment exhausted = exhausted

unfoldable pub parse_fragment : (Text → Option Text) → Text → Result Fields
unfolding parse_json5
parse_fragment to_number t = fragment (parse_json5 to_number t)
