-- ===== src/Prelude/Sort.antt =====
-- `Array.prototype.sort` and `ORDER BY`: a stable insertion sort by a Boolean order.
use Prim.Native.Char.{code}
use Prim.Native.String.{String}
use mathlib.Core.Bool.{Bool, true, false, ◌&&◌, ◌||◌}
use mathlib.Core.List.{List, [], ◌∷◌, ◌++◌, Perm, perm_middle, append-nil}
use mathlib.Core.List.Perm
use mathlib.Core.Path.{◌≡◌, refl, sym, ap, ◌∙◌, subst}
use native.Mathlib.Omega.{arith}
use Prim.Native.Nat.{◌+◌}
use mathlib.Core.Logic.{inl, inr}
use gatekeeper_os.Prelude.Tests.{ltb, nat_beq, if◌then◌else◌, Bool-cases}
use gatekeeper_os.Prelude.Lists.{All, any, length}

-- SQLite's binary collation: UTF-8 bytes order texts as their code points do.
unfoldable pub string_leb : String → String → Bool
string_leb String.[] t = true
string_leb (String.◌∷◌ c s) String.[] = false
string_leb (String.◌∷◌ c s) (String.◌∷◌ d t) =
    ltb (code c) (code d) || (nat_beq (code c) (code d) && string_leb s t)

module _ {ℓ} {A : Type ℓ} (before : A → A → Bool) where
  unfoldable pub insert_sorted : A → List A → List A
  insert_sorted a [] = a ∷ []
  insert_sorted a (x ∷ xs) =
      let rest = insert_sorted a xs in if before x a then x ∷ rest else a ∷ x ∷ xs

  -- Later elements go behind the earlier ones that they tie with.
  sort_from : List A → List A → List A
  sort_from done [] = done
  sort_from done (x ∷ xs) = sort_from (insert_sorted x done) xs

  unfoldable pub sort : List A → List A
  unfolding sort_from insert_sorted
  sort xs = sort_from [] xs

  module _ {κ} (P : A → Type κ) where
    All-insert_sorted : (a : A) (xs : List A) → P a → All P xs → All P (insert_sorted a xs)
    unfolding insert_sorted
    All-insert_sorted a [] p _ = (p, tt)
    All-insert_sorted a (x ∷ xs) p (q, h) = elim (Bool-cases (before x a)) [
      | inl e ↦ rw e (q, All-insert_sorted a xs p h)
      | inr e ↦ rw e (p, (q, h))
    ]

    All-sort_from : (done xs : List A) → All P done → All P xs → All P (sort_from done xs)
    unfolding sort_from
    All-sort_from done [] h _ = h
    All-sort_from done (x ∷ xs) h (p, k) =
        All-sort_from (insert_sorted x done) xs (All-insert_sorted x done p h) k

    pub All-sort : (xs : List A) → All P xs → All P (sort xs)
    unfolding sort
    All-sort xs h = All-sort_from [] xs tt h

  sort_from-append :
      (done xs : List A) (a : A)
      → sort_from done (xs ++ a ∷ []) ≡ insert_sorted a (sort_from done xs)
  unfolding sort_from
  sort_from-append done [] a = refl
  sort_from-append done (x ∷ xs) a = sort_from-append (insert_sorted x done) xs a

  insert_last :
      (a : A) (xs : List A) → All (λ x. before x a ≡ true) xs → insert_sorted a xs ≡ xs ++ a ∷ []
  unfolding insert_sorted
  insert_last a [] h = refl
  insert_last a (x ∷ xs) (e, h) = rw e (rw (insert_last a xs h))

  -- An element that everything is before comes last.
  pub sort-append :
      (xs : List A) (a : A)
      → All (λ x. before x a ≡ true) xs
      → sort (xs ++ a ∷ []) ≡ sort xs ++ a ∷ []
  unfolding sort
  sort-append xs a h =
      rw (sort_from-append [] xs a)
        (insert_last a (sort_from [] xs) (All-sort_from (λ x. before x a ≡ true) [] xs tt h))

  perm-insert_sorted : (a : A) (xs : List A) → Perm (insert_sorted a xs) (a ∷ xs)
  unfolding insert_sorted
  perm-insert_sorted a [] = Perm.refl _
  perm-insert_sorted a (x ∷ xs) = elim (Bool-cases (before x a)) [
    | inl e ↦ rw e (Perm.trans (Perm.cons x (perm-insert_sorted a xs)) (Perm.swap a x xs))
    | inr e ↦ rw e (Perm.refl _)
  ]

  perm-sort_from : (done xs : List A) → Perm (sort_from done xs) (done ++ xs)
  unfolding sort_from
  perm-sort_from done [] = rw append-nil (Perm.refl _)
  perm-sort_from done (x ∷ xs) = Perm.trans (perm-sort_from (insert_sorted x done) xs) (
      Perm.trans (Perm.append (perm-insert_sorted x done) (Perm.refl xs))
        (Perm.symm (perm_middle done xs)))

  -- Sorting keeps every element, as often as it stands in the list.
  pub perm-sort : (xs : List A) → Perm (sort xs) xs
  unfolding sort
  perm-sort xs = perm-sort_from [] xs

  any-insert_sorted :
      (p : A → Bool) (a : A) (xs : List A) → any p (insert_sorted a xs) ≡ (p a || any p xs)
  unfolding insert_sorted
  any-insert_sorted p a [] = refl
  any-insert_sorted p a (x ∷ xs) = ground (arith, any-insert_sorted p a xs)

  any-sort_from :
      (p : A → Bool) (done xs : List A) → any p (sort_from done xs) ≡ (any p done || any p xs)
  unfolding sort_from
  any-sort_from p done [] = ground arith
  any-sort_from p done (x ∷ xs) =
      ground (arith, any-sort_from p (insert_sorted x done) xs, any-insert_sorted p x done)

  pub any-sort : (p : A → Bool) (xs : List A) → any p (sort xs) ≡ any p xs
  unfolding sort
  any-sort p xs = any-sort_from p [] xs

  length-insert_sorted : (a : A) (xs : List A) → length (insert_sorted a xs) ≡ length xs + 1
  unfolding insert_sorted
  length-insert_sorted a [] = omega arith
  length-insert_sorted a (x ∷ xs) = ground (arith, length-insert_sorted a xs)

  length-sort_from : (done xs : List A) → length (sort_from done xs) ≡ length done + length xs
  unfolding sort_from
  length-sort_from done [] = omega arith
  length-sort_from done (x ∷ xs) =
      omega (arith, length-sort_from (insert_sorted x done) xs, length-insert_sorted x done)

  pub length-sort : (xs : List A) → length (sort xs) ≡ length xs
  unfolding sort
  length-sort xs = omega (arith, length-sort_from [] xs)

module _ {ℓ} {A : Type ℓ} (before : A → A → Bool)
    (total : (a b : A) → before a b ≡ false → before b a ≡ true)
    (chain : (a b c : A) → before a b ≡ true → before b c ≡ true → before a c ≡ true)
    (antisym : (a b : A) → before a b ≡ true → before b a ≡ true → a ≡ b) where
  insert_end : (a b : A) → insert_sorted before a (b ∷ []) ≡ insert_sorted before b (a ∷ [])
  unfolding insert_sorted
  insert_end a b = elim (Bool-cases (before a b)) [
    | inl e ↦ elim (Bool-cases (before b a)) [
      | inl f ↦ rw (antisym a b e f) refl
      | inr f ↦ rw (e, f) refl
    ]
    | inr e ↦ rw (e, total a b e) refl
  ]

  insert_front :
      (a x : A) (xs : List A) → before x a ≡ false → insert_sorted before a (x ∷ xs) ≡ a ∷ x ∷ xs
  unfolding insert_sorted
  insert_front a x xs p = rw p refl

  insert_both :
      (a b x : A) (xs : List A)
      → before x a ≡ false
      → before x b ≡ false
      → insert_sorted before a (b ∷ x ∷ xs) ≡ insert_sorted before b (a ∷ x ∷ xs)
  unfolding insert_sorted
  insert_both a b x xs p q = elim (Bool-cases (before a b)) [
    | inl e ↦ elim (Bool-cases (before b a)) [
      | inl f ↦
          subst (λ c. insert_sorted before a (c ∷ x ∷ xs) ≡ insert_sorted before c (a ∷ x ∷ xs))
            (antisym a b e f) refl
      | inr f ↦ rw (e, f, q) refl
    ]
    | inr e ↦ rw (e, total a b e, p) refl
  ]

  before_both : (a b x : A) → before x a ≡ true → before x b ≡ false → before b a ≡ true
  before_both a b x p q = chain b x a (total x b q) p

  insert_over :
      (a b x : A) (xs : List A)
      → before x a ≡ true
      → before x b ≡ false
      → insert_sorted before a (insert_sorted before b (x ∷ xs))
        ≡ insert_sorted before b (insert_sorted before a (x ∷ xs))
  unfolding insert_sorted
  insert_over a b x xs p q = rw (p, q, before_both a b x p q, p) refl

  pub insert-insert_comm :
      (a b : A) (xs : List A)
      → insert_sorted before a (insert_sorted before b xs)
        ≡ insert_sorted before b (insert_sorted before a xs)
  unfolding insert_sorted
  insert-insert_comm a b [] = insert_end a b
  insert-insert_comm a b (x ∷ xs) = elim (Bool-cases (before x a)) [
    | inl e ↦ elim (Bool-cases (before x b)) [
      | inl f ↦ rw (e, f, e) (ap (λ ys. x ∷ ys) (insert-insert_comm a b xs))
      | inr f ↦ insert_over a b x xs e f
    ]
    | inr e ↦ elim (Bool-cases (before x b)) [
      | inl f ↦ sym (insert_over b a x xs f e)
      | inr f ↦
          ap (insert_sorted before a) (insert_front b x xs f)
          ∙ insert_both a b x xs e f
          ∙ sym (ap (insert_sorted before b) (insert_front a x xs e))
    ]
  ]

  insert-sort_from :
      (a : A) (done xs : List A)
      → sort_from before (insert_sorted before a done) xs
        ≡ insert_sorted before a (sort_from before done xs)
  unfolding sort_from
  insert-sort_from a done [] = refl
  insert-sort_from a done (x ∷ xs) =
      ap (λ ys. sort_from before ys xs) (insert-insert_comm x a done)
      ∙ insert-sort_from a (insert_sorted before x done) xs

  -- Sorting from the front, one element at a time.
  pub sort-cons :
      (a : A) (xs : List A) → sort before (a ∷ xs) ≡ insert_sorted before a (sort before xs)
  unfolding sort sort_from
  sort-cons a xs = insert-sort_from a [] xs
