-- ===== src/Cli/Merge/Laws.antt =====
-- What a patch of merge.ts does to each key.
use gatekeeper_os.Cli.Merge.{
  delete_field, put_field, merge_fields, merge_config, or_null, merge_all, merge_from,
}
use gatekeeper_os.Cli.Json.{
  set_field, get_field, null, bool, number, text, array, object, no_fields, field, Json, Fields,
  Text, text_eq,
}
use gatekeeper_os.Prelude.{
  [], ◌∷◌, ◌++◌, List, refl, subst, ap, ◌∙◌, inr, ==_iff, inl, Bool-cases, ==-refl, none, false,
  ◌==◌, some, ◌≡◌, Option,
}

-- No key stands twice, as in an object of JavaScript.
abbrev pub DistinctKeys : Fields → Type 0
DistinctKeys no_fields = Unit
DistinctKeys (field k v rest) = (get_field k rest ≡ none) × DistinctKeys rest

-- What a key holds after a patch: `patch` is what the patch gives it, and `old` what it held.
abbrev pub patched : (patch old : Option Json) → Option Json
patched none old = old
patched (some null) old = none
patched (some (object patch)) (some (object base)) = some (object (merge_fields base patch))
patched (some v) old = some v

-- Neither `null` nor an object.
abbrev pub IsLeaf : Json → Type 0
IsLeaf null = ⊥
IsLeaf (object fs) = ⊥
IsLeaf other = Unit

get-delete_same : (k : Text) (out : Fields) → get_field k (delete_field k out) ≡ none
unfolding get_field delete_field
get-delete_same k no_fields = refl
get-delete_same k (field x v rest) = elim (Bool-cases (x == k)) [
  | inl e ↦ rw e (get-delete_same k rest)
  | inr e ↦ rw e (rw e (get-delete_same k rest))
]

get-delete_other :
    (k n : Text) (out : Fields)
    → (k == n) ≡ false
    → get_field n (delete_field k out) ≡ get_field n out
unfolding get_field delete_field
get-delete_other k n no_fields other = refl
get-delete_other k n (field x v rest) other = elim (Bool-cases (x == k)) [
  | inl e ↦
      let apart : (x == n) ≡ false = rw ((==_iff x k).0 e) other in
      rw (e, apart) (get-delete_other k n rest other)
  | inr e ↦ elim (Bool-cases (x == n)) [
    | inl f ↦ rw (e, f) refl
    | inr f ↦ rw (e, f) (get-delete_other k n rest other)
  ]
]

get-set_same : (k : Text) (v : Json) (out : Fields) → get_field k (set_field k v out) ≡ some v
unfolding get_field set_field
get-set_same k v no_fields = rw (==-refl k) refl
get-set_same k v (field x w rest) = elim (Bool-cases (x == k)) [
  | inl e ↦ rw e (rw e refl)
  | inr e ↦ rw e (rw e (get-set_same k v rest))
]

get-set_other :
    (k n : Text) (v : Json) (out : Fields)
    → (k == n) ≡ false
    → get_field n (set_field k v out) ≡ get_field n out
unfolding get_field set_field
get-set_other k n v no_fields other = rw other refl
get-set_other k n v (field x w rest) other = elim (Bool-cases (x == k)) [
  | inl e ↦ let apart : (x == n) ≡ false = rw ((==_iff x k).0 e) other in rw (e, apart) refl
  | inr e ↦ elim (Bool-cases (x == n)) [
    | inl f ↦ rw (e, f) refl
    | inr f ↦ rw (e, f) (get-set_other k n v rest other)
  ]
]

merge_config-leaf : (base v : Json) → IsLeaf v → merge_config base v ≡ v
unfolding merge_config
merge_config-leaf null v leaf = refl
merge_config-leaf (bool b) v leaf = refl
merge_config-leaf (number n) v leaf = refl
merge_config-leaf (text s) v leaf = refl
merge_config-leaf (array xs) v leaf = refl
merge_config-leaf (object fs) null leaf = refl
merge_config-leaf (object fs) (bool b) leaf = refl
merge_config-leaf (object fs) (number n) leaf = refl
merge_config-leaf (object fs) (text s) leaf = refl
merge_config-leaf (object fs) (array xs) leaf = refl
merge_config-leaf (object fs) (object gs) leaf = absurd leaf

merge_config-object :
    (old : Option Json) (patch : Fields)
    → some (merge_config (or_null old) (object patch)) ≡ patched (some (object patch)) old
unfolding merge_config
merge_config-object none patch = refl
merge_config-object (some null) patch = refl
merge_config-object (some (bool b)) patch = refl
merge_config-object (some (number n)) patch = refl
merge_config-object (some (text s)) patch = refl
merge_config-object (some (array xs)) patch = refl
merge_config-object (some (object base)) patch = refl

get-put_leaf :
    (k : Text) (v : Json) (out : Fields)
    → IsLeaf v
    → get_field k (set_field k (merge_config (or_null (get_field k out)) v) out) ≡ some v
get-put_leaf k v out leaf = get-set_same k _ out ∙ ap some (merge_config-leaf _ v leaf)

get-put_same :
    (k : Text) (v : Json) (out : Fields)
    → get_field k (put_field k v (merge_config (or_null (get_field k out)) v) out)
      ≡ patched (some v) (get_field k out)
get-put_same k null out = get-delete_same k out
get-put_same k (bool b) out = get-put_leaf k (bool b) out tt
get-put_same k (number n) out = get-put_leaf k (number n) out tt
get-put_same k (text s) out = get-put_leaf k (text s) out tt
get-put_same k (array xs) out = get-put_leaf k (array xs) out tt
get-put_same k (object fs) out = get-set_same k _ out ∙ merge_config-object (get_field k out) fs

get-put_other :
    (k n : Text) (v merged : Json) (out : Fields)
    → (k == n) ≡ false
    → get_field n (put_field k v merged out) ≡ get_field n out
get-put_other k n null merged out other = get-delete_other k n out other
get-put_other k n (bool b) merged out other = get-set_other k n merged out other
get-put_other k n (number x) merged out other = get-set_other k n merged out other
get-put_other k n (text s) merged out other = get-set_other k n merged out other
get-put_other k n (array xs) merged out other = get-set_other k n merged out other
get-put_other k n (object fs) merged out other = get-set_other k n merged out other

-- Merging a patch into an object does to every key what the patch says: a key that the patch leaves
-- out is as before, `null` removes it, an object is merged in the same way into an object that the
-- key held, and any other value, or an object over something else, replaces what was there. The
-- patch has no key twice.
pub get-merge_fields :
    (key : Text) (patch out : Fields)
    → DistinctKeys patch
    → get_field key (merge_fields out patch) ≡ patched (get_field key patch) (get_field key out)
unfolding merge_fields get_field
get-merge_fields key no_fields out _ = refl
get-merge_fields key (field k v rest) out (new, distinct) =
    let next = put_field k v (merge_config (or_null (get_field k out)) v) out in
    let later = get-merge_fields key rest next distinct in
    elim (Bool-cases (k == key)) [
      | inl e ↦
          let same : k ≡ key = (==_iff k key).0 e in
          rw e (
            later
            ∙ ap (λ o. patched o (get_field key next))
                (subst (λ n. get_field n rest ≡ none) same new)
            ∙ subst (λ n. get_field n next ≡ patched (some v) (get_field n out)) same
                (get-put_same k v out))
      | inr e ↦ rw e (later ∙ ap (patched (get_field key rest)) (get-put_other k key v _ out e))
    ]

-- The value of a key, where the value is an object that has it.
abbrev pub get_key : Text → Json → Option Json
get_key key (object fields) = get_field key fields
get_key key other = none

merge_from-append :
    (fragments : List Json) (acc last : Json)
    → merge_from acc (fragments ++ last ∷ []) ≡ merge_config (merge_from acc fragments) last
unfolding merge_from
merge_from-append [] acc last = refl
merge_from-append (f ∷ fragments) acc last = merge_from-append fragments (merge_config acc f) last

patched_leaf : (v : Json) (old : Option Json) → IsLeaf v → patched (some v) old ≡ some v
patched_leaf null old leaf = absurd leaf
patched_leaf (bool b) old leaf = refl
patched_leaf (number n) old leaf = refl
patched_leaf (text s) old leaf = refl
patched_leaf (array xs) old leaf = refl
patched_leaf (object fs) old leaf = absurd leaf

key_of_patch :
    (key : Text) (patch : Fields) (v base : Json)
    → DistinctKeys patch
    → get_field key patch ≡ some v
    → IsLeaf v
    → get_key key (merge_config base (object patch)) ≡ some v
unfolding merge_config
key_of_patch key patch v null distinct given leaf = given
key_of_patch key patch v (bool b) distinct given leaf = given
key_of_patch key patch v (number n) distinct given leaf = given
key_of_patch key patch v (text s) distinct given leaf = given
key_of_patch key patch v (array xs) distinct given leaf = given
key_of_patch key patch v (object fs) distinct given leaf =
    get-merge_fields key patch fs distinct
    ∙ ap (λ o. patched o (get_field key fs)) given
    ∙ patched_leaf v (get_field key fs) leaf

-- The last fragment wins: whatever the earlier fragments are, a key to which the last one gives a
-- scalar or an array holds that value afterwards. The last fragment has no key twice.
pub last_fragment_wins :
    (fragments : List Json) (key : Text) (last : Fields) (v : Json)
    → DistinctKeys last
    → get_field key last ≡ some v
    → IsLeaf v
    → get_key key (merge_all (fragments ++ object last ∷ [])) ≡ some v
unfolding merge_all
last_fragment_wins fragments key last v distinct given leaf =
    ap (get_key key) (merge_from-append fragments (object no_fields) (object last))
    ∙ key_of_patch key last v (merge_from (object no_fields) fragments) distinct given leaf
