-- ===== src/Cli/Json5/Total.antt =====
-- How much text the scans of json5.ts leave.
use gatekeeper_os.Cli.Json5.Scan.{
  hex_value, is_hex, bind, unescape, is_space, is_sign, is_digit, prepend, join, fraction,
  string_from, magnitude, sign, exponent, scan_number, skip_from, span, decimal, parsed, failed,
  out_of_fuel, literal, escaped, hex, plain, line_comment, block_comment, Outcome, Gap, Quoted,
}
use gatekeeper_os.Cli.Json.{Text, text_eq}
use gatekeeper_os.Prelude.{
  none, some, [], ◌∷◌, maybe, some, Option, ◌+◌, ◌*◌, nat_eq, Option-cases, refl, inr, ◌||◌,
  append_assoc, ap, ◌&&◌, if◌then◌else◌, ◌==◌, inl, ◌<◌, sym, arith, length, Bool-cases, Bool, ◌≤◌,
  ◌++◌, ℕ, ◌≡◌, zero, suc, [], ◌∷◌, false, true,
}

-- A result leaves fewer than `n` units, and there is always a result or an error.
abbrev pub Under {ℓ} : {A : Type ℓ} → ℕ → Outcome A → Type 0
Under n (parsed a rest) = length rest < n
Under n (failed m at) = Unit
Under n out_of_fuel = ⊥

pub bind-Under {ℓ κ} :
    {A : Type ℓ} {B : Type κ} (m n : ℕ) (r : Outcome A) (k : A → Text → Outcome B)
    → Under m r
    → ((a : A) (rest : Text) → length rest < m → Under n (k a rest))
    → Under n (bind r k)
bind-Under m n (parsed a rest) k h g = g a rest h
bind-Under m n (failed e at) k h g = tt
bind-Under m n out_of_fuel k h g = absurd h

pub if-Under {ℓ} :
    {A : Type ℓ} (n : ℕ) (b : Bool) (x y : Outcome A)
    → Under n x
    → Under n y
    → Under n (if b then x else y)
if-Under n true x y h k = h
if-Under n false x y h k = k

pub mono-Under {ℓ} : {A : Type ℓ} (m n : ℕ) (r : Outcome A) → m ≤ n → Under m r → Under n r
mono-Under m n (parsed a rest) le h = omega arith
mono-Under m n (failed e at) le h = tt
mono-Under m n out_of_fuel le h = absurd h

pub maybe-Under {ℓ κ} :
    {A : Type ℓ} {B : Type κ} (n : ℕ) (o : Option A) (x : Outcome B) (k : A → Outcome B)
    → Under n x
    → ((a : A) → o ≡ some a → Under n (k a))
    → Under n (maybe o x k)
maybe-Under n none x k h g = h
maybe-Under n (some a) x k h g = g a refl

pub skip_from-Under : (g : Gap) (t : Text) → Under (suc (length t)) (skip_from g t)
unfolding skip_from
skip_from-Under plain [] = omega arith
skip_from-Under line_comment [] = omega arith
skip_from-Under (block_comment star start) [] = tt
skip_from-Under plain (c ∷ []) =
    if-Under _ (is_space c) (parsed tt []) (parsed tt (c ∷ [])) (omega arith) (omega arith)
skip_from-Under plain (c ∷ d ∷ s) =
    let n = suc (length (c ∷ d ∷ s)) in
    let spaced =
      mono-Under (suc (length (d ∷ s))) n _ (omega arith) (skip_from-Under plain (d ∷ s)) in
    let lined = mono-Under (suc (length s)) n _ (omega arith) (skip_from-Under line_comment s) in
    let blocked =
      mono-Under (suc (length s)) n _ (omega arith)
        (skip_from-Under (block_comment false (length (c ∷ d ∷ s))) s) in
    if-Under n (is_space c) _ _ spaced (
      if-Under n (c == b'/' && d == b'/') _ _ lined
        (if-Under n (c == b'/' && d == b'*') _ _ blocked (omega arith)))
skip_from-Under line_comment (c ∷ s) =
    let n = suc (length (c ∷ s)) in
    if-Under n (c == 10) _ _
      (mono-Under (suc (length s)) n _ (omega arith) (skip_from-Under plain s))
      (mono-Under (suc (length s)) n _ (omega arith) (skip_from-Under line_comment s))
skip_from-Under (block_comment star start) (c ∷ s) =
    let n = suc (length (c ∷ s)) in
    if-Under n (star && c == b'/') _ _
      (mono-Under (suc (length s)) n _ (omega arith) (skip_from-Under plain s))
      (mono-Under (suc (length s)) n _ (omega arith)
        (skip_from-Under (block_comment (c == b'*') start) s))

pub string_from-Under :
    (quote : ℕ) (q : Quoted) (out t : Text) → Under (suc (length t)) (string_from quote q out t)
unfolding string_from
string_from-Under quote literal out [] = tt
string_from-Under quote escaped out [] = tt
string_from-Under quote (hex more value start) out [] = tt
string_from-Under quote literal out (c ∷ s) =
    let n = suc (length (c ∷ s)) in
    if-Under n (c == quote) _ _ (omega arith) (
      if-Under n (c == 10) _ _ tt (
        if-Under n (c == b'\\') _ _
          (mono-Under (suc (length s)) n _ (omega arith) (string_from-Under quote escaped out s))
          (mono-Under (suc (length s)) n _ (omega arith)
            (string_from-Under quote literal (out ++ c ∷ []) s))))
string_from-Under quote escaped out (c ∷ s) =
    let n = suc (length (c ∷ s)) in
    if-Under n (c == b'u') _ _
      (mono-Under (suc (length s)) n _ (omega arith)
        (string_from-Under quote (hex 3 0 (length s)) out s))
      (if-Under n (c == 10) _ _
        (mono-Under (suc (length s)) n _ (omega arith) (string_from-Under quote literal out s))
        (mono-Under (suc (length s)) n _ (omega arith)
          (string_from-Under quote literal (out ++ unescape c ∷ []) s)))
string_from-Under quote (hex zero value start) out (c ∷ s) = elim (Option-cases (hex_value c)) [
  | inl e ↦ rw e tt
  | inr (d, e) ↦ rw e (
      mono-Under (suc (length s)) (suc (length (c ∷ s))) _ (omega arith)
        (string_from-Under quote literal (out ++ (value * 16 + d) ∷ []) s))
]
string_from-Under quote (hex (suc k) value start) out (c ∷ s) = elim (Option-cases (hex_value c)) [
  | inl e ↦ rw e tt
  | inr (d, e) ↦ rw e (
      mono-Under (suc (length s)) (suc (length (c ∷ s))) _ (omega arith)
        (string_from-Under quote (hex k (value * 16 + d) start) out s))
]

-- A scan gives the front of its text and the rest of it.
abbrev pub Splits : Text → Text × Text → Type 0
Splits t (passed, rest) = t ≡ passed ++ rest

pub span-Splits : (p : ℕ → Bool) (t : Text) → Splits t (span p t)
unfolding span
span-Splits p [] = refl
span-Splits p (c ∷ s) = elim (Bool-cases (p c)) [
  | inl e ↦ rw e (ap (λ r. c ∷ r) (span-Splits p s))
  | inr e ↦ rw e refl
]

prepend-Splits : (p t : Text) (r : Text × Text) → Splits t r → Splits (p ++ t) (prepend p r)
prepend-Splits p t (a, b) h = rw h (sym (append_assoc p a b))

join-Splits :
    (t : Text) (r : Text × Text) (scan : Text → Text × Text)
    → Splits t r
    → ((s : Text) → Splits s (scan s))
    → Splits t (join r scan)
join-Splits t (a, b) scan h each = rw h (prepend-Splits a b (scan b) (each b))

sign-Splits : (t : Text) → Splits t (sign t)
sign-Splits [] = refl
sign-Splits (c ∷ s) = elim (Bool-cases (is_sign c)) [ inl e ↦ rw e refl | inr e ↦ rw e refl ]

fraction-Splits : (t : Text) → Splits t (fraction t)
fraction-Splits [] = refl
fraction-Splits (c ∷ s) = elim (Bool-cases (c == b'.')) [
  | inl e ↦ rw e (prepend-Splits (c ∷ []) s (span is_digit s) (span-Splits is_digit s))
  | inr e ↦ rw e refl
]

exponent-Splits : (t : Text) → Splits t (exponent t)
exponent-Splits [] = refl
exponent-Splits (c ∷ s) = elim (Bool-cases (c == b'e' || c == b'E')) [
  | inl e ↦ rw e (
      prepend-Splits (c ∷ []) s (join (sign s) (span is_digit))
        (join-Splits s (sign s) (span is_digit) (sign-Splits s) (span-Splits is_digit)))
  | inr e ↦ rw e refl
]

decimal-Splits : (t : Text) → Splits t (decimal t)
decimal-Splits t =
    join-Splits t (span is_digit t) (λ a. join (fraction a) exponent) (span-Splits is_digit t)
      λ a. join-Splits a (fraction a) exponent (fraction-Splits a) exponent-Splits

magnitude-Splits : (t : Text) → Splits t (magnitude t)
magnitude-Splits [] = decimal-Splits []
magnitude-Splits (c ∷ []) = decimal-Splits (c ∷ [])
magnitude-Splits (c ∷ x ∷ s) = elim (Bool-cases (c == b'0' && (x == b'x' || x == b'X'))) [
  | inl e ↦ rw e (prepend-Splits (c ∷ x ∷ []) s (span is_hex s) (span-Splits is_hex s))
  | inr e ↦ rw e (decimal-Splits (c ∷ x ∷ s))
]

-- What is read as a number is the front of the text.
pub scan_number-Splits : (t : Text) → Splits t (scan_number t)
unfolding scan_number
scan_number-Splits t = join-Splits t (sign t) magnitude (sign-Splits t) magnitude-Splits
