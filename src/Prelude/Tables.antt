-- ===== src/Prelude/Tables.antt =====
-- Rows of an SQL table as a list, with the statements that the program prepares over them.
use mathlib.Core.Path.{◌≡◌, refl, sym, ap, ◌∙◌}
use mathlib.Core.Logic.{◌≢◌, inl, inr}
use mathlib.Core.Bool.{Bool, true, false, not, ◌&&◌, ◌||◌}
use mathlib.Core.Option
use mathlib.Core.Option.{Option, none, some}
use mathlib.Core.List.{List, [], ◌∷◌, ◌++◌}
use Prim.Native.Nat.{ℕ, suc}
use gatekeeper_os.Prelude.Tests.{if◌then◌else◌, Bool-cases, Eq, ◌==◌, ==_iff, ==-refl}
use gatekeeper_os.Prelude.Lists.{
  All, find?-of_none, All-mono, any-eq-false, All-append, All-filter, any, filter, find?, length,
}

module _ {ℓ} {A : Type ℓ} where
  -- UPDATE … SET f WHERE p
  abbrev pub update_where : (A → Bool) → (A → A) → List A → List A
  update_where p f [] = []
  update_where p f (x ∷ xs) = (if p x then f x else x) ∷ update_where p f xs

  -- DELETE … WHERE p
  abbrev pub delete_where : (A → Bool) → List A → List A
  delete_where p xs = filter (λ x. not (p x)) xs

  -- SELECT COUNT(*) … WHERE p, which is also the `changes` of an UPDATE
  abbrev pub count_where : (A → Bool) → List A → ℕ
  count_where p xs = length (filter p xs)

  -- INSERT OR IGNORE, where `clash` tells that a row violates a uniqueness constraint with the new one
  abbrev pub insert_or_ignore : (A → Bool) → A → List A → List A
  insert_or_ignore clash a xs = if any clash xs then xs else xs ++ a ∷ []

  -- INSERT … ON CONFLICT DO UPDATE SET f, where `clash` tells which row the new one conflicts with
  abbrev pub upsert : (A → Bool) → (A → A) → A → List A → List A
  upsert clash f a xs = if any clash xs then update_where clash f xs else xs ++ a ∷ []

  -- Only rows that the new value of a changed row agrees with are looked up.
  pub find?-update_where :
      (p q : A → Bool) (f : A → A)
      → ((x : A) → q x ≡ true → p (f x) ≡ p x)
      → (xs : List A)
      → find? p (update_where q f xs) ≡ Option.map (λ x. if q x then f x else x) (find? p xs)
  find?-update_where p q f same [] = refl
  find?-update_where p q f same (x ∷ xs) = elim (Bool-cases (q x)) [
    | inl e ↦ elim (Bool-cases (p x)) [
      | inl h ↦ rw e (rw (same x e, h) (rw e))
      | inr h ↦ rw e (rw (same x e, h) (find?-update_where p q f same xs))
    ]
    | inr e ↦ elim (Bool-cases (p x)) [
      | inl h ↦ rw e (rw h (rw e))
      | inr h ↦ rw e (rw h (find?-update_where p q f same xs))
    ]
  ]

  abbrev pub or_else : Option A → Option A → Option A
  or_else none o = o
  or_else (some a) o = some a

  pub find?-append :
      (p : A → Bool) (xs ys : List A) → find? p (xs ++ ys) ≡ or_else (find? p xs) (find? p ys)
  find?-append p [] ys = refl
  find?-append p (x ∷ xs) ys = elim (Bool-cases (p x)) [
    | inl e ↦ rw e
    | inr e ↦ rw e (find?-append p xs ys)
  ]

  -- A row that is found is one that some test passes.
  pub any-of_found : (p : A → Bool) (xs : List A) {a : A} → find? p xs ≡ some a → any p xs ≡ true
  any-of_found p [] e = cc
  any-of_found p (x ∷ xs) e = elim (Bool-cases (p x)) [
    | inl h ↦ rw h
    | inr h ↦ rw h (any-of_found p xs (rw h at e))
  ]

  pub or_else-any :
      (p : A → Bool) (xs : List A) (o : Option A)
      → any p xs ≡ true
      → find? p xs ≡ or_else (find? p xs) o
  or_else-any p [] o e = cc
  or_else-any p (x ∷ xs) o e = elim (Bool-cases (p x)) [
    | inl h ↦ rw h
    | inr h ↦ rw h (or_else-any p xs o (rw h at e))
  ]

  pub find?-filter :
      (p q : A → Bool)
      → ((x : A) → p x ≡ true → q x ≡ true)
      → (xs : List A) → find? p (filter q xs) ≡ find? p xs
  find?-filter p q inside [] = refl
  find?-filter p q inside (x ∷ xs) = elim (Bool-cases (p x)) [
    | inl h ↦ rw (inside x h) (rw h)
    | inr h ↦ elim (Bool-cases (q x)) [
      | inl e ↦ rw (e, h) (find?-filter p q inside xs)
      | inr e ↦ rw (e, h) (find?-filter p q inside xs)
    ]
  ]

  pub All-update_where {κ} :
      (P : A → Type κ) (q : A → Bool) (f : A → A)
      → ((x : A) → P x → q x ≡ true → P (f x))
      → (xs : List A) → All P xs
      → All P (update_where q f xs)
  All-update_where P q f keep [] _ = tt
  All-update_where P q f keep (x ∷ xs) (here, there) = elim (Bool-cases (q x)) [
    | inl e ↦ rw e (keep x here e, All-update_where P q f keep xs there)
    | inr e ↦ rw e (here, All-update_where P q f keep xs there)
  ]

  pub All-insert_or_ignore {κ} :
      (P : A → Type κ) (clash : A → Bool) (a : A) (xs : List A)
      → P a
      → All P xs
      → All P (insert_or_ignore clash a xs)
  All-insert_or_ignore P clash a xs p h = elim (Bool-cases (any clash xs)) [
    | inl e ↦ rw e h
    | inr e ↦ rw e (All-append P xs (a ∷ []) h (p, tt))
  ]

-- No two rows have the same key: a primary key or a unique index.
module _ {ℓ κ} {A : Type ℓ} {K : Type κ} (key : A → K) where
  abbrev pub Distinct : List A → Type κ
  Distinct [] = Unit
  Distinct (x ∷ xs) = All (λ y. key y ≢ key x) xs × Distinct xs

  pub Distinct-append :
      (xs : List A) (a : A) → Distinct xs → All (λ x. key x ≢ key a) xs → Distinct (xs ++ a ∷ [])
  Distinct-append [] a _ _ = (tt, tt)
  Distinct-append (x ∷ xs) a (h, d) (n, ns) = (
    All-append (λ y. key y ≢ key x) xs (a ∷ []) h (λ e. n (sym e), tt),
    Distinct-append xs a d ns,
  )

  pub Distinct-filter : (p : A → Bool) (xs : List A) → Distinct xs → Distinct (filter p xs)
  Distinct-filter p [] _ = tt
  Distinct-filter p (x ∷ xs) (h, d) = elim (Bool-cases (p x)) [
    | inl e ↦ rw e (All-filter (λ y. key y ≢ key x) p xs h, Distinct-filter p xs d)
    | inr e ↦ rw e (Distinct-filter p xs d)
  ]

  pub Distinct-update_where :
      (q : A → Bool) (f : A → A)
      → ((x : A) → key (f x) ≡ key x)
      → (xs : List A) → Distinct xs
      → Distinct (update_where q f xs)
  Distinct-update_where q f same [] _ = tt
  Distinct-update_where q f same (x ∷ xs) (h, d) = elim (Bool-cases (q x)) [
    | inl e ↦ rw e (rw (same x) (others, Distinct-update_where q f same xs d))
    | inr e ↦ rw e (others, Distinct-update_where q f same xs d)
  ]
    where
      others : All (λ y. key y ≢ key x) (update_where q f xs)
      others = All-update_where (λ y. key y ≢ key x) q f (λ y n _. rw (same y) n) xs h

  pub Distinct-insert_or_ignore :
      (clash : A → Bool) (a : A)
      → ((x : A) → clash x ≡ false → key x ≢ key a)
      → (xs : List A) → Distinct xs
      → Distinct (insert_or_ignore clash a xs)
  Distinct-insert_or_ignore clash a apart xs d = elim (Bool-cases (any clash xs)) [
    | inl e ↦ rw e d
    | inr e ↦ rw e (Distinct-append xs a d (All-mono apart xs (any-eq-false clash xs e)))
  ]

  pub Distinct-upsert :
      (clash : A → Bool) (f : A → A) (a : A)
      → ((x : A) → clash x ≡ false → key x ≢ key a)
      → ((x : A) → key (f x) ≡ key x)
      → (xs : List A) → Distinct xs
      → Distinct (upsert clash f a xs)
  Distinct-upsert clash f a apart same xs d = elim (Bool-cases (any clash xs)) [
    | inl e ↦ rw e (Distinct-update_where clash f same xs d)
    | inr e ↦ rw e (Distinct-append xs a d (All-mono apart xs (any-eq-false clash xs e)))
  ]

abbrev pub count_found {ℓ} : {A : Type ℓ} → (A → Bool) → Option A → ℕ
count_found q none = 0
count_found q (some x) = if q x then 1 else 0

-- With a unique key, at most one row has a given key, and it is the one that is found.
module _ {ℓ κ} {A : Type ℓ} {K : Type κ} ⦃e : Eq K⦄ (key : A → K) where
  count_absent :
      (k : K) (q : A → Bool) (xs : List A)
      → All (λ y. key y ≢ k) xs
      → count_where (λ x. key x == k && q x) xs ≡ 0
  count_absent k q [] _ = refl
  count_absent k q (x ∷ xs) (n, ns) = elim (Bool-cases (key x == k)) [
    | inl h ↦ absurd (n ((==_iff (key x) k).0 h))
    | inr h ↦ rw h (count_absent k q xs ns)
  ]

  pub count_where-Distinct :
      (k : K) (q : A → Bool) (xs : List A)
      → Distinct key xs
      → count_where (λ x. key x == k && q x) xs ≡ count_found q (find? (λ x. key x == k) xs)
  count_where-Distinct k q [] _ = refl
  count_where-Distinct k q (x ∷ xs) (h, d) = elim (Bool-cases (key x == k)) [
    | inl same ↦
        let absent = count_absent k q xs (rw (← (==_iff (key x) k).0 same) h) in
        elim (Bool-cases (q x)) [
          | inl yes_x ↦ rw (same, yes_x) (ap suc absent)
          | inr no_x ↦ rw (same, no_x) absent
        ]
    | inr other ↦ rw other (count_where-Distinct k q xs d)
  ]

-- A row that passes a test is still there after a statement that spares it.
module _ {ℓ} {A : Type ℓ} (p : A → Bool) where
  pub any-update_where :
      (q : A → Bool) (f : A → A)
      → ((x : A) → p x ≡ true → p (f x) ≡ true)
      → (xs : List A) → any p xs ≡ true
      → any p (update_where q f xs) ≡ true
  any-update_where q f keep [] e = e
  any-update_where q f keep (x ∷ xs) e = elim (Bool-cases (p x)) [
    | inl h ↦ elim (Bool-cases (q x)) [ inl k ↦ rw k (rw (keep x h)) | inr k ↦ rw k (rw h) ]
    | inr h ↦
        let later = any-update_where q f keep xs (rw h at e) in
        rw later (or_true (p (if q x then f x else x)))
  ]
    where
      or_true : (b : Bool) → (b || true) ≡ true
      or_true true = refl
      or_true false = refl

  pub any-append_left : (xs ys : List A) → any p xs ≡ true → any p (xs ++ ys) ≡ true
  any-append_left [] ys e = cc
  any-append_left (x ∷ xs) ys e = elim (Bool-cases (p x)) [
    | inl h ↦ rw h
    | inr h ↦ rw h (any-append_left xs ys (rw h at e))
  ]

  pub any-append_last : (xs : List A) (a : A) → p a ≡ true → any p (xs ++ a ∷ []) ≡ true
  any-append_last [] a e = rw e
  any-append_last (x ∷ xs) a e = elim (Bool-cases (p x)) [
    | inl h ↦ rw h
    | inr h ↦ rw h (any-append_last xs a e)
  ]

  pub any-filter :
      (q : A → Bool)
      → ((x : A) → p x ≡ true → q x ≡ true)
      → (xs : List A) → any p xs ≡ true
      → any p (filter q xs) ≡ true
  any-filter q spared [] e = e
  any-filter q spared (x ∷ xs) e = elim (Bool-cases (p x)) [
    | inl h ↦ rw (spared x h) (rw h)
    | inr h ↦ elim (Bool-cases (q x)) [
      | inl k ↦ rw k (rw h (any-filter q spared xs (rw h at e)))
      | inr k ↦ rw k (any-filter q spared xs (rw h at e))
    ]
  ]

  pub any-insert_or_ignore :
      (clash : A → Bool) (a : A) (xs : List A)
      → any p xs ≡ true
      → any p (insert_or_ignore clash a xs) ≡ true
  any-insert_or_ignore clash a xs e = elim (Bool-cases (any clash xs)) [
    | inl h ↦ rw h e
    | inr h ↦ rw h (any-append_left xs (a ∷ []) e)
  ]

-- A table of rows under a key, in which a row is put in place of the one with its key.
module _ {ℓ κ} {A : Type ℓ} {K : Type κ} ⦃e : Eq K⦄ (key : A → K) where
  abbrev pub put : A → List A → List A
  put a xs = upsert (λ x. key x == key a) (λ _. a) a xs

  found_first : (a : A) (xs : List A) → find? (λ x. key x == key a) (a ∷ xs) ≡ some a
  found_first a xs = rw (==-refl (key a))

  find?-updated :
      (a : A) (xs : List A)
      → any (λ x. key x == key a) xs ≡ true
      → find? (λ x. key x == key a) (update_where (λ x. key x == key a) (λ _. a) xs) ≡ some a
  find?-updated a [] h = cc
  find?-updated a (x ∷ xs) h = elim (Bool-cases (key x == key a)) [
    | inl c ↦ rw c (rw (==-refl (key a)))
    | inr c ↦ rw c (rw c (find?-updated a xs (rw c at h)))
  ]

  pub find?-put : (a : A) (xs : List A) → find? (λ x. key x == key a) (put a xs) ≡ some a
  find?-put a xs = elim (Bool-cases (any (λ x. key x == key a) xs)) [
    | inl c ↦ rw c (find?-updated a xs c)
    | inr c ↦ rw c (
        find?-append (λ x. key x == key a) xs (a ∷ [])
        ∙ rw (find?-of_none (λ x. key x == key a) xs (any-eq-false (λ x. key x == key a) xs c))
            (found_first a []))
  ]

  other_key : (k : K) (a : A) → k ≢ key a → (key a == k) ≡ false
  other_key k a n = elim (Bool-cases (key a == k)) [
    | inl c ↦ absurd (n (sym ((==_iff (key a) k).0 c)))
    | inr c ↦ c
  ]

  find?-not_updated :
      (k : K) (a : A) (xs : List A)
      → k ≢ key a
      → find? (λ x. key x == k) (update_where (λ x. key x == key a) (λ _. a) xs)
        ≡ find? (λ x. key x == k) xs
  find?-not_updated k a [] n = refl
  find?-not_updated k a (x ∷ xs) n = elim (Bool-cases (key x == key a)) [
    | inl c ↦
        let same = (==_iff (key x) (key a)).0 c in
        rw c (rw (other_key k a n) (rw same (rw (other_key k a n) (find?-not_updated k a xs n))))
    | inr c ↦ elim (Bool-cases (key x == k)) [
      | inl d ↦ rw c (rw d)
      | inr d ↦ rw c (rw d (find?-not_updated k a xs n))
    ]
  ]

  pub find?-put_other :
      (k : K) (a : A) (xs : List A)
      → k ≢ key a
      → find? (λ x. key x == k) (put a xs) ≡ find? (λ x. key x == k) xs
  find?-put_other k a xs n = elim (Bool-cases (any (λ x. key x == key a) xs)) [
    | inl c ↦ rw c (find?-not_updated k a xs n)
    | inr c ↦ rw c (
        find?-append (λ x. key x == k) xs (a ∷ [])
        ∙ rw (other_key k a n) (or_else-none (find? (λ x. key x == k) xs)))
  ]
    where
      or_else-none : (o : Option A) → or_else o none ≡ o
      or_else-none none = refl
      or_else-none (some x) = refl
