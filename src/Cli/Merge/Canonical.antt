-- ===== src/Cli/Merge/Canonical.antt =====
-- canonicalize of merge.ts. What JSON.stringify makes of a text is a parameter.
use gatekeeper_os.Prelude.{
  ◌==◌, List, [], ◌∷◌, ◌++◌, none, some, Option, Bool, sort, true, false, if◌then◌else◌, ltb, ◌||◌,
  ◌&&◌, map, nat_eq,
}
use gatekeeper_os.Cli.Json.{
  null, bool, number, text, array, object, no_fields, field, no_items, item, Json, Fields, Items,
  Text, text_eq, units,
}

-- `Array.prototype.sort` orders texts by their code units.
abbrev pub units_leb : Text → Text → Bool
units_leb [] t = true
units_leb (c ∷ s) [] = false
units_leb (c ∷ s) (d ∷ t) = let rest = units_leb s t in ltb c d || (c == d && rest)

abbrev pub joined : List Text → Text
joined [] = []
joined (t ∷ []) = t
joined (t ∷ s ∷ ts) = t ++ b',' ∷ joined (s ∷ ts)

-- The text of each key.
pub record KeyEntry : Type 0 where
  pub key : Text
  pub shown : Text

unfoldable pub shown_at : Text → List KeyEntry → Text
shown_at key [] = []
shown_at key (e ∷ es) = let later = shown_at key es in if e.key == key then e.shown else later

module _ (quote : Text → Text) where
  abbrev pub show_entries : List KeyEntry → Text
  show_entries es =
      b'{'
        ∷ joined (map (λ k. quote k ++ b':' ∷ shown_at k es) (sort units_leb (map (λ e. e.key) es)))
      ++ b'}' ∷ []

  unfoldable mutual
    pub canonical : Json → Text
    canonical null = units "null"
    canonical (bool b) = if b then units "true" else units "false"
    canonical (number n) = n
    canonical (text s) = quote s
    canonical (array xs) = b'[' ∷ joined (canonical_items xs) ++ b']' ∷ []
    canonical (object fs) = show_entries (canonical_fields fs)

    pub canonical_items : Items → List Text
    canonical_items no_items = []
    canonical_items (item v rest) = canonical v ∷ canonical_items rest

    pub canonical_fields : Fields → List KeyEntry
    canonical_fields no_fields = []
    canonical_fields (field k v rest) =
        record { key = k; shown = canonical v } ∷ canonical_fields rest

  unfoldable pub canonicalize : Option Json → Text
  canonicalize none = 0 ∷ units "absent"
  canonicalize (some v) = canonical v
