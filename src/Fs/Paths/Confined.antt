-- ===== src/Fs/Paths/Confined.antt =====
-- Paths of the fs gatekeeper and their root.
use gatekeeper_os.Fs.Paths.{
  has_relative_form, is_bad_part, split_path, relative_path, descend, step_into, contains,
  is_prefix, slash,
}
use gatekeeper_os.Prelude.{
  append-nil, none, not, if◌then◌else◌, ◌&&◌, subst, any-eq-false, any, append_assoc, All, ap, sym,
  ◌∙◌, some, List, ◌||◌, ◌⊎◌, true, false, [], ◌∷◌, inl, inr, nat_eq, arith, refl, Bool-cases, ◌==◌,
  ◌++◌, ◌≡◌, Bool, ==_iff, ==-refl,
}
use gatekeeper_os.Cli.Json.{Text, text_eq}

prefix_append : (p a b : Text) → is_prefix p a ≡ true → is_prefix p (a ++ b) ≡ true
unfolding is_prefix
prefix_append [] a b e = refl
prefix_append (c ∷ p) [] b e = cc
prefix_append (c ∷ p) (d ∷ a) b e = elim (Bool-cases (c == d)) [
  | inl h ↦ rw h (prefix_append p a b (rw h at e))
  | inr h ↦ absurd (ground (arith, h, e))
]

prefix_self : (p b : Text) → is_prefix p (p ++ b) ≡ true
unfolding is_prefix
prefix_self [] b = refl
prefix_self (c ∷ p) b = rw (==-refl c) (prefix_self p b)

-- How a path is below a root.
contained_cases :
    (root path : Text)
    → contains root path ≡ true
    → (root ≡ slash ∷ []) ⊎ ((path ≡ root) ⊎ (is_prefix (root ++ slash ∷ []) path ≡ true))
unfolding contains
contained_cases root path e = elim (Bool-cases (root == slash ∷ [])) [
  | inl a ↦ inl ((==_iff root (slash ∷ [])).0 a)
  | inr a ↦ elim (Bool-cases (path == root)) [
    | inl b ↦ inr (inl ((==_iff path root).0 b))
    | inr b ↦ inr (inr (rw (a, b) at e))
  ]
]

contains-prefix :
    (root path : Text) → is_prefix (root ++ slash ∷ []) path ≡ true → contains root path ≡ true
unfolding contains
contains-prefix root path e = rw e (or_true (root == slash ∷ []) (path == root))
  where
    or_true : (a b : Bool) → (a || b || true) ≡ true
    or_true true b = refl
    or_true false true = refl
    or_true false false = refl

contains-slash : (path : Text) → contains (slash ∷ []) path ≡ true
unfolding contains
contains-slash path = refl

contains_self : (path : Text) → contains path path ≡ true
unfolding contains
contains_self path = elim (Bool-cases (path == slash ∷ [])) [
  | inl a ↦ rw a
  | inr a ↦ rw a (rw (==-refl path))
]

step_contained :
    (root path part : Text) → contains root path ≡ true → contains root (step_into path part) ≡ true
step_contained root path part e = elim (contained_cases root path e) [
  | inl top ↦ rw top (contains-slash (step_into path part))
  | inr (inl same) ↦ rw same (below_self root)
  | inr (inr below) ↦ elim (Bool-cases (path == slash ∷ [])) [
    | inl a ↦ rw a (
        contains-prefix root (slash ∷ part) (
          prefix_append (root ++ slash ∷ []) (slash ∷ []) part (
            subst (λ x. is_prefix (root ++ slash ∷ []) x ≡ true) ((==_iff path (slash ∷ [])).0 a)
              below)))
    | inr a ↦ rw a (
        contains-prefix root (path ++ slash ∷ part)
          (prefix_append (root ++ slash ∷ []) path (slash ∷ part) below))
  ]
]
  where
    below_self : (p : Text) → contains p (step_into p part) ≡ true
    below_self p = elim (Bool-cases (p == slash ∷ [])) [
      | inl a ↦ rw ((==_iff p (slash ∷ [])).0 a) (contains-slash (slash ∷ part))
      | inr a ↦ rw a (
          contains-prefix p (p ++ slash ∷ part)
            (rw (sym (append_assoc p (slash ∷ []) part)) (prefix_self (p ++ slash ∷ []) part)))
    ]

descend_contained :
    (root path : Text) (parts : List Text)
    → contains root path ≡ true
    → contains root (descend path parts) ≡ true
unfolding descend
descend_contained root path [] e = e
descend_contained root path (p ∷ ps) e =
    descend_contained root (step_into path p) ps (step_contained root path p e)

abbrev pub dot : Text
dot = b'.' ∷ []

abbrev pub dot_dot : Text
dot_dot = b'.' ∷ b'.' ∷ []

-- All but the last part: the parent of a directory, which for the top is the top.
abbrev pub parent : List Text → List Text
parent [] = []
parent (p ∷ []) = []
parent (p ∷ q ∷ ps) = p ∷ parent (q ∷ ps)

-- How a name is followed from a directory, which is the list of the names that lead to it.
abbrev pub follow : List Text → Text → List Text
follow directory name =
    if name == [] || name == dot
    then directory
    else if name == dot_dot
    then parent directory
    else directory ++ name ∷ []

abbrev pub follow_all : List Text → List Text → List Text
follow_all directory [] = directory
follow_all directory (p ∷ ps) = follow_all (follow directory p) ps

-- How the system reads a path from a directory: a path that starts with a slash starts at the top.
abbrev pub resolve : List Text → List Text → List Text
resolve directory [] = directory
resolve directory (p ∷ []) = follow directory p
resolve directory (p ∷ q ∷ ps) =
    if p == [] then follow_all [] (q ∷ ps) else follow_all (follow directory p) (q ∷ ps)

follow-good :
    (directory : List Text) (p : Text)
    → is_bad_part p ≡ false
    → follow directory p ≡ directory ++ p ∷ []
follow-good directory p good = ground (arith, good)

follow_all-good :
    (directory parts : List Text)
    → All (λ p. is_bad_part p ≡ false) parts
    → follow_all directory parts ≡ directory ++ parts
follow_all-good directory [] good = sym (append-nil directory)
follow_all-good directory (p ∷ ps) (here, rest) =
    ap (λ d. follow_all d ps) (follow-good directory p here)
    ∙ follow_all-good (directory ++ p ∷ []) ps rest
    ∙ append_assoc directory (p ∷ []) ps

resolve-good :
    (directory parts : List Text)
    → All (λ p. is_bad_part p ≡ false) parts
    → resolve directory parts ≡ directory ++ parts
resolve-good directory [] good = sym (append-nil directory)
resolve-good directory (p ∷ []) (here, _) = follow-good directory p here
resolve-good directory (p ∷ q ∷ ps) (here, rest) =
    let named : (p == []) ≡ false = ground (arith, here) in
    ap (λ b. if b then follow_all [] (q ∷ ps) else follow_all (follow directory p) (q ∷ ps)) named
    ∙ follow_all-good directory (p ∷ q ∷ ps) (here, rest)

accepted :
    (a b : Bool) (t r : Text)
    → (if a && not b then some t else none) ≡ some r
    → (r ≡ t) × (b ≡ false)
accepted true false t r e = (ground arith, refl)
accepted true true t r e = absurd (ground arith)
accepted false b t r e = absurd (ground arith)

-- A relative path that is accepted stays below the directory it is read from, whatever that is. Read
-- as the system reads it, where a leading slash leads to the top, ".." to the parent, and an empty
-- name or "." nowhere, it leads through all its parts downwards; and the path that the walk expects
-- at its end is contained in the root.
pub relative_path_confined :
    (directory : List Text) (root t r : Text)
    → relative_path t ≡ some r
    → (resolve directory (split_path t) ≡ directory ++ split_path t)
      × (contains root (descend root (split_path t)) ≡ true)
      × (r ≡ t)
unfolding relative_path
relative_path_confined directory root t r e =
    let (same, good) = accepted (has_relative_form t) (any is_bad_part (split_path t)) t r e in
    (
      resolve-good directory (split_path t) (any-eq-false is_bad_part (split_path t) good),
      descend_contained root root (split_path t) (contains_self root),
      same,
    )
