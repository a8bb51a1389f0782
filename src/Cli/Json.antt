-- ===== src/Cli/Json.antt =====
-- Parsed JSON, the type `Json` of packages/gkos-cli/src/util/json5.ts. A text is its UTF-16 code units.
-- A number stands for itself as the text that JSON.stringify prints for it. The fields of an object
-- stand in the order of insertion.

use gatekeeper_os.Prelude.{
  nat_eq, false, ==_iff, ◌&&◌, arith, some, ◌∷◌, ◌↔◌, ◌==◌, none, true, [], if◌then◌else◌, ℕ,
  String, List, Eq, Option, Bool, ◌≡◌,
}
use Prim.Native.Char.{code}

abbrev pub Text : Type 0
Text = List ℕ

abbrev pub text_beq : Text → Text → Bool
text_beq [] [] = true
text_beq (a ∷ s) (b ∷ t) = let rest = text_beq s t in a == b && rest
text_beq _ _ = false

pub text_beq_iff : (s t : Text) → (text_beq s t ≡ true) ↔ (s ≡ t)
text_beq_iff [] [] = ground arith
text_beq_iff [] (b ∷ t) = ground arith
text_beq_iff (a ∷ s) [] = ground arith
text_beq_iff (a ∷ s) (b ∷ t) = ground (arith, ==_iff a b, text_beq_iff s t)

instance abbrev pub text_eq : Eq Text
text_eq = record { equals = text_beq; equals_iff = text_beq_iff }

-- The code units of an ASCII text.
abbrev pub units : String → Text
units String.[] = []
units (String.◌∷◌ c s) = code c ∷ units s

mutual
  pub data Json : Type 0 where
    null : Json
    bool : Bool → Json
    number text : Text → Json
    array : Items → Json
    object : Fields → Json

  pub data Items : Type 0 where
    no_items : Items
    item : Json → Items → Items

  pub data Fields : Type 0 where
    no_fields : Fields
    field : Text → Json → Fields → Fields

unfoldable pub get_field : Text → Fields → Option Json
get_field key no_fields = none
get_field key (field k v rest) =
    let later = get_field key rest in if k == key then some v else later

-- `out[key] = value`: a key that is present keeps its place.
unfoldable pub set_field : Text → Json → Fields → Fields
set_field key value no_fields = field key value no_fields
set_field key value (field k v rest) =
    let later = set_field key value rest in if k == key then field k value rest else field k v later
