-- ===== src/Cli/Json5/Fuel.antt =====
-- The fuel of the parser of json5.ts.
use gatekeeper_os.Cli.Json5.Total.{
  string_from-Under, skip_from-Under, mono-Under, span-Splits, scan_number-Splits, bind-Under,
  maybe-Under, if-Under, Under, Splits,
}
use gatekeeper_os.Cli.Json5.Grammar.{
  located, at_end, append_item, parse_elements, null_word, assign_field, is_number_start,
  false_word, parse_members, true_word, pair_parsed, exhausted, numbered, parse_value, words, after,
  parse_text, dispatch, parse_number, parse_json5, expect_colon, close_or_go_on, open_or_empty,
}
use gatekeeper_os.Cli.Json5.Scan.{
  expected_in_array, is_ident_part, expected_key, expected_in_object, is_ident_start, string_from,
  is_quote, skip, scan_number, span, Message, strip, parse_key, parsed, failed, out_of_fuel,
  literal, plain, Outcome,
}
use gatekeeper_os.Cli.Json.{array, object, no_fields, no_items, Json, Fields, Items, Text, text_eq}
use gatekeeper_os.Prelude.{
  refl, nat_eq, length-append, inr, ◌∙◌, inl, Option-cases, arith, ap, ◌==◌, ◌*◌, ◌<◌, ◌+◌, ◌≤◌,
  Bool-cases, ◌≡◌, ◌≢◌, length, Bool, ℕ, Option, zero, suc, some, [], ◌∷◌,
}

length-after : (unit : ℕ) (t rest : Text) → after unit t ≡ some rest → suc (length rest) ≡ length t
length-after unit [] rest h = cc h
length-after unit (c ∷ s) rest h = elim (Bool-cases (c == unit)) [
  | inl e ↦ let same : s ≡ rest = ground (arith, e, h) in rw same refl
  | inr e ↦ absurd (ground (arith, e, h))
]

length-strip : (p t rest : Text) → strip p t ≡ some rest → length t ≡ length p + length rest
length-strip [] t rest h = let same : t ≡ rest = cc h in rw same (omega arith)
length-strip (c ∷ p) [] rest h = cc h
length-strip (c ∷ p) (d ∷ t) rest h = elim (Bool-cases (c == d)) [
  | inl e ↦ let n = length-strip p t rest (rw e at h) in omega arith
  | inr e ↦ absurd (ground (arith, e, h))
]

length-span : (p : ℕ → Bool) (t : Text) → length (span p t).1 ≤ length t
length-span p t =
    let n = ap length (span-Splits p t) ∙ length-append (span p t).0 (span p t).1 in omega arith

parse_key-Under : (t : Text) → Under (suc (length t)) (parse_key t)
unfolding parse_key
parse_key-Under [] = tt
parse_key-Under (c ∷ s) =
    let n = suc (length (c ∷ s)) in
    if-Under n (is_quote c) _ _
      (mono-Under (suc (length s)) n _ (omega arith) (string_from-Under c literal [] s))
      (if-Under n (is_ident_start c) _ (failed expected_key (length (c ∷ s)))
        (let m = length-span is_ident_part s in omega arith) tt)

expect_colon-Under : (t : Text) → Under (suc (length t)) (expect_colon t)
unfolding expect_colon
expect_colon-Under t =
    maybe-Under (suc (length t)) (after b':' t) _ _ tt
      λ s e. let n = length-after b':' t s e in omega arith

close_or_go_on-Under {ℓ} :
    {A : Type ℓ} (n close : ℕ) (message : Message) (done : A) (go_on : Text → Outcome A) (t : Text)
    → length t < suc n
    → ((s : Text) → length s < length t → Under n (go_on s))
    → Under n (close_or_go_on close message done go_on t)
unfolding close_or_go_on
close_or_go_on-Under n close message done go_on t le h =
    maybe-Under n (after b',' t) _ _
      (maybe-Under n (after close t) _ _ tt
        λ rest e. let m = length-after close t rest e in omega arith)
      λ s e.
        let m = length-after b',' t s e in
        bind-Under (suc (length s)) n (skip s) _ (skip_from-Under plain s) λ _ a la.
          maybe-Under n (after close a) _ _ (h a (omega arith))
            λ rest f. let k = length-after close a rest f in omega arith

open_or_empty-Under {ℓ} :
    {A : Type ℓ} (n close : ℕ) (empty : A) (elements : Text → Outcome A) (t : Text)
    → length t ≤ n
    → ((s : Text) → length s ≤ length t → Under n (elements s))
    → Under n (open_or_empty close empty elements t)
unfolding open_or_empty
open_or_empty-Under n close empty elements t le h =
    bind-Under (suc (length t)) n (skip t) _ (skip_from-Under plain t) λ _ a la.
      maybe-Under n (after close a) _ _ (h a (omega arith))
        λ rest f. let k = length-after close a rest f in omega arith

module _ (to_number : Text → Option Text) where
  numbered-Under :
      (t : Text) (r : Text × Text) → Splits t r → Under (length t) (numbered to_number t r)
  numbered-Under t ([], rest) h = tt
  numbered-Under t (c ∷ raw, rest) h =
      maybe-Under (length t) (to_number (c ∷ raw)) _ _ tt
        λ n e. let m = ap length h ∙ length-append (c ∷ raw) rest in omega arith

  parse_number-Under : (t : Text) → Under (length t) (parse_number to_number t)
  unfolding parse_number
  parse_number-Under t = numbered-Under t (scan_number t) (scan_number-Splits t)

  words-Under : (t : Text) (r : Json × Text) → words t ≡ some r → Under (length t) (pair_parsed r)
  words-Under t (v, rest) h = elim (Option-cases (strip true_word t)) [
    | inr (s, e) ↦
        let n = length-strip true_word t s e in
        let same : s ≡ rest = ground (arith, e, h) in rw (← same) (omega arith)
    | inl e ↦ elim (Option-cases (strip false_word t)) [
      | inr (s, f) ↦
          let n = length-strip false_word t s f in
          let same : s ≡ rest = ground (arith, e, f, h) in rw (← same) (omega arith)
      | inl f ↦ elim (Option-cases (strip null_word t)) [
        | inr (s, g) ↦
            let n = length-strip null_word t s g in
            let same : s ≡ rest = ground (arith, e, f, g, h) in rw (← same) (omega arith)
        | inl g ↦ absurd (ground (arith, e, f, g, h))
      ]
    ]
  ]

  dispatch-Under :
      (members elements : Text → Outcome Json) (t : Text)
      → ((s : Text) → length s < length t → Under (length t) (members s))
      → ((s : Text) → length s < length t → Under (length t) (elements s))
      → Under (length t) (dispatch to_number members elements t)
  unfolding dispatch
  dispatch-Under members elements [] hm he = tt
  dispatch-Under members elements (c ∷ s) hm he =
      let n = length (c ∷ s) in
      if-Under n (c == b'{') _ _ (hm s (omega arith)) (
        if-Under n (c == b'[') _ _ (he s (omega arith)) (
          if-Under n (is_quote c) _ _
            (bind-Under (suc (length s)) n (string_from c literal [] s) _
              (string_from-Under c literal [] s) (λ out rest lr. omega arith))
            (maybe-Under n (words (c ∷ s)) _ pair_parsed
              (if-Under n (is_number_start c) _ _ (parse_number-Under (c ∷ s)) tt)
              (words-Under (c ∷ s)))))

  mutual
    unfolding parse_value

    parse_value-Under :
        (f : ℕ) (t : Text)
        → 2 * length t + 1 ≤ f
        → Under (suc (length t)) (parse_value to_number f t)
    parse_value-Under zero t le = absurd (omega arith)
    parse_value-Under (suc f) t le =
        bind-Under (suc (length t)) (suc (length t)) (skip t) _ (skip_from-Under plain t) λ _ s ls.
          mono-Under (length s) (suc (length t)) _ (omega arith) (
            dispatch-Under _ _ s
              (λ r lr.
                open_or_empty-Under (length s) b'}' (object no_fields) _ r (omega arith) λ a la.
                  mono-Under (suc (length a)) (length s) _ (omega arith)
                    (parse_members-Under f no_fields a (omega arith)))
              (λ r lr.
                open_or_empty-Under (length s) b']' (array no_items) _ r (omega arith) λ a la.
                  mono-Under (suc (length a)) (length s) _ (omega arith)
                    (parse_elements-Under f no_items a (omega arith))))

    parse_members-Under :
        (f : ℕ) (out : Fields) (t : Text)
        → 2 * length t + 2 ≤ f
        → Under (suc (length t)) (parse_members to_number f out t)
    parse_members-Under zero out t le = absurd (omega arith)
    parse_members-Under (suc f) out t le =
        let n = suc (length t) in
        bind-Under n n (skip t) _ (skip_from-Under plain t) λ _ a la.
          bind-Under (suc (length a)) n (parse_key a) _ (parse_key-Under a) λ key b lb.
            bind-Under (suc (length b)) n (skip b) _ (skip_from-Under plain b) λ _ c lc.
              bind-Under (suc (length c)) n (expect_colon c) _ (expect_colon-Under c) λ _ d ld.
                bind-Under (suc (length d)) n (parse_value to_number f d) _
                  (parse_value-Under f d (omega arith))
                  λ v e le'.
                    bind-Under (suc (length e)) n (skip e) _ (skip_from-Under plain e) λ _ g lg.
                      close_or_go_on-Under n b'}' expected_in_object _ _ g (omega arith) λ s ls.
                        mono-Under (suc (length s)) n _ (omega arith)
                          (parse_members-Under f (assign_field key v out) s (omega arith))

    parse_elements-Under :
        (f : ℕ) (out : Items) (t : Text)
        → 2 * length t + 2 ≤ f
        → Under (suc (length t)) (parse_elements to_number f out t)
    parse_elements-Under zero out t le = absurd (omega arith)
    parse_elements-Under (suc f) out t le =
        let n = suc (length t) in
        bind-Under (suc (length t)) n (parse_value to_number f t) _
          (parse_value-Under f t (omega arith))
          λ v e le'. bind-Under (suc (length e)) n (skip e) _ (skip_from-Under plain e) λ _ g lg.
            close_or_go_on-Under n b']' expected_in_array _ _ g (omega arith) λ s ls.
              mono-Under (suc (length s)) n _ (omega arith)
                (parse_elements-Under f (append_item out v) s (omega arith))

  at_end-Under : (v : Json) (t : Text) → Under (suc (length t)) (at_end to_number v t)
  at_end-Under v [] = omega arith
  at_end-Under v (c ∷ s) = tt

  parse_text-Under : (t : Text) → Under (suc (length t)) (parse_text to_number t)
  unfolding parse_text
  parse_text-Under t =
      let n = suc (length t) in
      bind-Under n n (parse_value to_number (2 * length t + 1) t) _
        (parse_value-Under (2 * length t + 1) t (omega arith))
        λ v rest lr.
          bind-Under (suc (length rest)) n (skip rest) _ (skip_from-Under plain rest)
            λ _ s ls. mono-Under (suc (length s)) n _ (omega arith) (at_end-Under v s)

located-ne-exhausted {ℓ} :
    {A : Type ℓ} (n : ℕ) (t : Text) (r : Outcome A) → Under n r → located t r ≢ exhausted
located-ne-exhausted n t (parsed a rest) h = λ e. cc e
located-ne-exhausted n t (failed m at) h = λ e. cc e
located-ne-exhausted n t out_of_fuel h = absurd h

-- Every text is parsed to a value or refused with an error: the parser comes to an end whatever the
-- text is and whatever `Number` says.
pub parse_json5_total :
    (to_number : Text → Option Text) (t : Text) → parse_json5 to_number t ≢ exhausted
unfolding parse_json5
parse_json5_total to_number t =
    located-ne-exhausted (suc (length t)) t (parse_text to_number t) (parse_text-Under to_number t)
