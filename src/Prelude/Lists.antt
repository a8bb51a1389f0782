-- ===== src/Prelude/Lists.antt =====
-- Lists: tests over their elements, predicates by recursion, and native lengths.
use Prim.Native.Nat.{ℕ, zero, suc, ◌+◌, ◌≤◌}
use mathlib.Core.Path.{◌≡◌, refl}
use mathlib.Core.Logic.{inl, inr}
use mathlib.Core.Bool.{Bool, true, false, ◌&&◌, ◌||◌}
use mathlib.Core.Option.{Option, none, some}
use mathlib.Core.List.{List, [], ◌∷◌, ◌++◌, map}
use native.Mathlib.Omega.{arith}
use gatekeeper_os.Prelude.Tests.{if◌then◌else◌, Eq, ◌==◌, Bool-cases}

module _ {ℓ} {A : Type ℓ} where
  abbrev pub length : List A → ℕ
  length [] = 0
  length (x ∷ xs) = suc (length xs)

  abbrev pub any : (A → Bool) → List A → Bool
  any p [] = false
  any p (x ∷ xs) = p x || any p xs

  abbrev pub all : (A → Bool) → List A → Bool
  all p [] = true
  all p (x ∷ xs) = p x && all p xs

  abbrev pub filter : (A → Bool) → List A → List A
  filter p [] = []
  filter p (x ∷ xs) = let rest = filter p xs in if p x then x ∷ rest else rest

  abbrev pub find? : (A → Bool) → List A → Option A
  find? p [] = none
  find? p (x ∷ xs) = if p x then some x else find? p xs

  abbrev pub take : ℕ → List A → List A
  take zero xs = []
  take (suc n) [] = []
  take (suc n) (x ∷ xs) = x ∷ take n xs

  pub length-append : (xs ys : List A) → length (xs ++ ys) ≡ length xs + length ys
  length-append [] ys = omega arith
  length-append (x ∷ xs) ys = omega (arith, length-append xs ys)

  pub length-filter-le : (p : A → Bool) (xs : List A) → length (filter p xs) ≤ length xs
  length-filter-le p [] = omega arith
  length-filter-le p (x ∷ xs) = ground (arith, length-filter-le p xs)

-- `Array.prototype.includes`.
abbrev pub includes {ℓ} : {A : Type ℓ} ⦃e : Eq A⦄ → List A → A → Bool
includes xs a = any (λ x. x == a) xs

-- `P` holds of every element.
abbrev pub All {ℓ κ} : {A : Type ℓ} → (A → Type κ) → List A → Type κ
All P [] = Unit
All P (x ∷ xs) = P x × All P xs

module _ {ℓ κ} {A : Type ℓ} (P : A → Type κ) where
  pub All-append : (xs ys : List A) → All P xs → All P ys → All P (xs ++ ys)
  All-append [] ys _ k = k
  All-append (x ∷ xs) ys (p, h) k = (p, All-append xs ys h k)

  pub All-filter : (p : A → Bool) (xs : List A) → All P xs → All P (filter p xs)
  All-filter p [] _ = tt
  All-filter p (x ∷ xs) (here, there) = elim (Bool-cases (p x)) [
    | inl e ↦ rw e (here, All-filter p xs there)
    | inr e ↦ rw e (All-filter p xs there)
  ]

  pub All-find? : (p : A → Bool) (xs : List A) {a : A} → All P xs → find? p xs ≡ some a → P a
  All-find? p [] h e = cc
  All-find? p (x ∷ xs) (here, there) e = elim (Bool-cases (p x)) [
    | inl yes_x ↦ ground (arith, yes_x)
    | inr no_x ↦ All-find? p xs there (rw no_x at e)
  ]

  pub All-intro : ((a : A) → P a) → (xs : List A) → All P xs
  All-intro f [] = tt
  All-intro f (x ∷ xs) = (f x, All-intro f xs)

module _ {ℓ κ μ} {A : Type ℓ} {P : A → Type κ} {Q : A → Type μ} where
  pub All-mono : ((a : A) → P a → Q a) → (xs : List A) → All P xs → All Q xs
  All-mono f [] _ = tt
  All-mono f (x ∷ xs) (p, h) = (f x p, All-mono f xs h)

module _ {ℓ} {A : Type ℓ} (p : A → Bool) where
  pub find?-sound : (xs : List A) {a : A} → find? p xs ≡ some a → p a ≡ true
  find?-sound [] e = cc
  find?-sound (x ∷ xs) e = elim (Bool-cases (p x)) [
    | inl yes_x ↦ ground (arith, yes_x)
    | inr no_x ↦ find?-sound xs (rw no_x at e)
  ]

  pub find?-none : (xs : List A) → find? p xs ≡ none → All (λ x. p x ≡ false) xs
  find?-none [] e = tt
  find?-none (x ∷ xs) e = elim (Bool-cases (p x)) [
    | inl yes_x ↦ absurd (ground (arith, yes_x))
    | inr no_x ↦ (no_x, find?-none xs (rw no_x at e))
  ]

  pub find?-of_none : (xs : List A) → All (λ x. p x ≡ false) xs → find? p xs ≡ none
  find?-of_none [] _ = refl
  find?-of_none (x ∷ xs) (e, h) = rw e (find?-of_none xs h)

  pub any-eq-false : (xs : List A) → any p xs ≡ false → All (λ x. p x ≡ false) xs
  any-eq-false [] e = tt
  any-eq-false (x ∷ xs) e = (ground arith, any-eq-false xs (ground arith))

  pub any-of_none : (xs : List A) → All (λ x. p x ≡ false) xs → any p xs ≡ false
  any-of_none [] _ = refl
  any-of_none (x ∷ xs) (e, h) = rw e (any-of_none xs h)

  pub all-eq-true : (xs : List A) → all p xs ≡ true → All (λ x. p x ≡ true) xs
  all-eq-true [] e = tt
  all-eq-true (x ∷ xs) e = (ground arith, all-eq-true xs (ground arith))

  pub all-of_All : (xs : List A) → All (λ x. p x ≡ true) xs → all p xs ≡ true
  all-of_All [] _ = refl
  all-of_All (x ∷ xs) (e, h) = rw e (all-of_All xs h)

  pub filter-All : (xs : List A) → All (λ x. p x ≡ true) (filter p xs)
  filter-All [] = tt
  filter-All (x ∷ xs) = elim (Bool-cases (p x)) [
    | inl e ↦ rw e (e, filter-All xs)
    | inr e ↦ rw e (filter-All xs)
  ]

-- A test that is weaker passes where a stronger one does.
module _ {ℓ} {A : Type ℓ} (p q : A → Bool) where
  pub any_mono :
      ((x : A) → p x ≡ true → q x ≡ true) → (xs : List A) → any p xs ≡ true → any q xs ≡ true
  any_mono f [] e = cc
  any_mono f (x ∷ xs) e = elim (Bool-cases (p x)) [
    | inl h ↦ rw (f x h)
    | inr h ↦ ground (arith, any_mono f xs (rw h at e))
  ]

pub any-map {ℓ κ} :
    {A : Type ℓ} {B : Type κ} (p : B → Bool) (f : A → B) (xs : List A)
    → any p (map f xs) ≡ any (λ x. p (f x)) xs
any-map p f [] = refl
any-map p f (x ∷ xs) = ground (arith, any-map p f xs)
