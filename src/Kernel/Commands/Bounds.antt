-- ===== src/Kernel/Commands/Bounds.antt =====
-- The action ids that a command of commands.ts can name.
use gatekeeper_os.Cli.Json5.Scan.{is_digit}
use gatekeeper_os.Kernel.Commands.{
  refused, accepted, show_approvals, show_grants, introduce, revoke, decide, tokens_below,
  is_operator_command, revoke, verbs, introduce, is_handle, is_resource_url, on_grant, refused,
  operator_command, by_surface, UrlParts, show_approvals, decision, on_approvals, on_reject,
  on_grants, split_commas, is_repeated, bounded_ids, id_of, max_safe, parse_ids, value_from, ids_of,
  accepted, decide, all_ids, given_ids, Answer, Ids,
}
use gatekeeper_os.Prelude.{
  none, some, [], ◌∷◌, true, false, includes, not, maybe, Option, ◌&&◌, ◌-◌, leb, ◌==◌, subst, some,
  true, false, [], ◌∷◌, inl, inr, refl, sym, nat_eq, any, ◌||◌, ◌≤◌, ◌≡◌, ◌+◌, ◌*◌, ℕ, List, Bool,
  All, arith, Bool-cases, Option-cases, if◌then◌else◌, length, ltb, any-eq-false, All-mono,
  some-ne-none,
}
use gatekeeper_os.Cli.Json.{units, Text, text_eq}

-- At most a hundred, each positive and a safe integer, and no two the same.
abbrev pub BoundedIds : List ℕ → Type 0
BoundedIds ns =
    (length ns ≤ 100) × All (λ n. 1 ≤ n) ns × All (λ n. n ≤ max_safe) ns × (is_repeated ns ≡ false)

abbrev WithinIds : Ids → Type 0
WithinIds all_ids = Unit
WithinIds (given_ids ns) = BoundedIds ns

abbrev Within : Answer → Type 0
Within (accepted (decide verb ids)) = WithinIds ids
Within _ = Unit

if-Within : (b : Bool) (x y : Answer) → Within x → Within y → Within (if b then x else y)
if-Within true x y h k = h
if-Within false x y h k = k

value_from-le : (n : ℕ) (t : Text) (m : ℕ) → value_from n t ≡ some m → n ≤ m
unfolding value_from
value_from-le n [] m e = ground arith
value_from-le n (c ∷ t) m e = elim (Bool-cases (is_digit c)) [
  | inl k ↦ let more = value_from-le (n * 10 + (c - b'0')) t m (rw k at e) in omega arith
  | inr k ↦ absurd (some-ne-none m (sym (rw k at e)))
]

id_of-positive : (t : Text) (n : ℕ) → id_of t ≡ some n → 1 ≤ n
unfolding id_of
id_of-positive [] n e = cc
id_of-positive (c ∷ t) n e = elim (Bool-cases (leb b'1' c && leb c b'9')) [
  | inl k ↦
      let more = value_from-le (c - b'0') t n (rw k at e) in
      let first : b'1' ≤ c = ground arith in omega arith
  | inr k ↦ absurd (some-ne-none n (sym (rw k at e)))
]

some-inj : (a b : List ℕ) → some a ≡ some b → a ≡ b
some-inj a b e = cc

ids_of-positive : (ws : List Text) (ns : List ℕ) → ids_of ws ≡ some ns → All (λ n. 1 ≤ n) ns
unfolding ids_of
ids_of-positive [] ns e = subst (λ xs. All (λ n. 1 ≤ n) xs) (some-inj [] ns e) tt
ids_of-positive (w ∷ ws) ns e = elim (Option-cases (id_of w)) [
  | inl k ↦ absurd (some-ne-none ns (sym (rw k at e)))
  | inr (n, k) ↦ elim (Option-cases (ids_of ws)) [
    | inl l ↦ absurd (some-ne-none ns (sym (rw (k, l) at e)))
    | inr (ms, l) ↦
        subst (λ xs. All (λ x. 1 ≤ x) xs) (some-inj (n ∷ ms) ns (rw (k, l) at e))
          (id_of-positive w n k, ids_of-positive ws ms l)
  ]
]

bounded_ids-Bounded :
    (ns ms : List ℕ) → All (λ n. 1 ≤ n) ns → bounded_ids ns ≡ some ms → BoundedIds ms
bounded_ids-Bounded ns ms positive e =
    elim (Bool-cases (ltb 100 (length ns) || any (λ n. ltb max_safe n) ns || is_repeated ns)) [
      | inl k ↦ absurd (some-ne-none ms (sym (rw k at e)))
      | inr k ↦ subst BoundedIds (some-inj ns ms (rw k at e)) (
          within (ltb 100 (length ns)) (any (λ n. ltb max_safe n) ns) (is_repeated ns) refl refl
            refl k)
    ]
  where
    within :
        (a b c : Bool)
        → ltb 100 (length ns) ≡ a
        → any (λ n. ltb max_safe n) ns ≡ b
        → is_repeated ns ≡ c
        → (a || b || c) ≡ false
        → BoundedIds ns
    within true b c ea eb ec k = absurd (ground arith)
    within false true c ea eb ec k = absurd (ground arith)
    within false false true ea eb ec k = absurd (ground arith)
    within false false false ea eb ec k = (
      ground arith,
      positive,
      All-mono (λ n f. safe n f) ns (any-eq-false (λ n. ltb max_safe n) ns eb),
      ec,
    )
      where
        safe : (n : ℕ) → ltb max_safe n ≡ false → n ≤ max_safe
        safe n f = ground arith

parse_ids-Within : (t : Text) (ids : Ids) → parse_ids t ≡ some ids → WithinIds ids
unfolding parse_ids
parse_ids-Within t all_ids e = tt
parse_ids-Within t (given_ids ms) e = elim (Bool-cases (t == units "all")) [
  | inl k ↦ absurd (other (rw k at e))
  | inr k ↦ elim (Option-cases (ids_of (split_commas t))) [
    | inl l ↦ absurd (some-ne-none (given_ids ms) (sym (rw (k, l) at e)))
    | inr (ns, l) ↦ elim (Option-cases (bounded_ids ns)) [
      | inl b ↦ absurd (some-ne-none (given_ids ms) (sym (rw (k, l, b) at e)))
      | inr (xs, b) ↦
          subst BoundedIds (inner xs (rw (k, l, b) at e))
            (bounded_ids-Bounded ns xs (ids_of-positive (split_commas t) ns l) b)
    ]
  ]
]
  where
    other : some all_ids ≡ some (given_ids ms) → ⊥
    other q = cc

    inner : (xs : List ℕ) → some (given_ids xs) ≡ some (given_ids ms) → xs ≡ ms
    inner xs q = cc

decision-Within : (verb argument : Text) → Within (decision verb argument)
decision-Within verb argument =
    if-Within (includes verbs verb) _ refused (by_parse (parse_ids argument) refl) tt
  where
    by_parse :
        (o : Option Ids)
        → parse_ids argument ≡ o
        → Within (maybe o refused (λ ids. accepted (decide verb ids)))
    by_parse none e = tt
    by_parse (some ids) e = parse_ids-Within argument ids e

on_approvals-Within : (ws : List Text) → Within (on_approvals ws)
on_approvals-Within [] = tt
on_approvals-Within (verb ∷ []) =
    if-Within (verb == units "list") (accepted show_approvals) refused tt tt
on_approvals-Within (verb ∷ argument ∷ []) = decision-Within verb argument
on_approvals-Within (verb ∷ argument ∷ x ∷ ws) = tt

on_grants-Within : (ws : List Text) → Within (on_grants ws)
on_grants-Within [] = tt
on_grants-Within (verb ∷ []) = if-Within (verb == units "list") (accepted show_grants) refused tt tt
on_grants-Within (verb ∷ argument ∷ []) =
    if-Within (verb == units "revoke" && is_handle argument) (accepted (revoke argument)) refused tt
      tt
on_grants-Within (verb ∷ argument ∷ x ∷ ws) = tt

on_reject-Within : (ws : List Text) → Within (on_reject ws)
on_reject-Within [] = tt
on_reject-Within (argument ∷ []) = decision-Within (units "reject") argument
on_reject-Within (argument ∷ x ∷ ws) = tt

module _ (url_parts : Text → Option UrlParts) where
  on_grant-Within : (ws : List Text) → Within (on_grant url_parts ws)
  on_grant-Within [] = tt
  on_grant-Within (url ∷ []) = by_url (url_parts url)
    where
      by_url :
          (o : Option UrlParts)
          → Within (
              maybe o refused
                (λ u. if is_resource_url u then accepted (introduce url) else refused))
      by_url none = tt
      by_url (some u) = if-Within (is_resource_url u) (accepted (introduce url)) refused tt tt
  on_grant-Within (url ∷ x ∷ ws) = tt

  by_surface-Within : (ws : List Text) → Within (by_surface url_parts ws)
  by_surface-Within [] = tt
  by_surface-Within (surface ∷ rest) =
      if-Within (surface == units "reject") _ _ (on_reject-Within rest) (
        if-Within (surface == units "grant") _ _ (on_grant-Within rest) (
          if-Within (surface == units "grants") _ _ (on_grants-Within rest)
            (on_approvals-Within rest)))

  operator_command-Within : (body : Text) → Within (operator_command url_parts body)
  unfolding operator_command
  operator_command-Within body =
      if-Within (not (is_operator_command body)) _ _ tt (
        if-Within (ltb 2048 (length body)) _ _ tt (by_surface-Within (tokens_below url_parts body)))

-- A command that is accepted with action ids names at most a hundred of them, each positive and a safe
-- integer, and no two the same, whatever the text and the URL parser are.
pub operator_command_bounds :
    (url_parts : Text → Option UrlParts) (body verb : Text) (ns : List ℕ)
    → operator_command url_parts body ≡ accepted (decide verb (given_ids ns))
    → BoundedIds ns
operator_command_bounds url_parts body verb ns e =
    subst Within e (operator_command-Within url_parts body)
