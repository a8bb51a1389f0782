-- ===== src/Fs/Transaction/Ends.antt =====
-- What holds at every end of a transaction, and after it returns, one step at a time.
use gatekeeper_os.Prelude.{none, some, true, false, inl, inr, refl, Bool-cases, ◌≡◌, Bool, Option}
use gatekeeper_os.Fs.Files.{FileState, is_regular}
use gatekeeper_os.Fs.Transaction.Machine.{
  guarded, left_by, give, look, deny, Outcome, State, returned, threw, died, done, throws,
  throws_late, dies, dies_late, End, Host, Syscall, Boundary, Tx, ◌>>=◌, ◌>>◌, continue, check,
  attempt, hook, inspect, identify, require, ended, on_names, inspected,
}

-- `I` holds wherever the outcome ends, and `Q` of what it returns.
unfoldable pub Ends {ℓ} :
    {A : Type ℓ} → (State → Type 0) → (A → State → Type 0) → Outcome A → Type 0
Ends I Q (returned a s) = I s × Q a s
Ends I Q (threw s) = I s
Ends I Q (died s) = I s

-- Nothing is said of what is returned.
abbrev pub Any {ℓ} : {A : Type ℓ} → A → State → Type 0
Any a s = Unit

module _ {ℓ κ} {A : Type ℓ} {B : Type κ} (I : State → Type 0) (Q : A → State → Type 0)
    (R : B → State → Type 0) where
  pub continue-Ends :
      (o : Outcome A) (k : A → Tx B)
      → Ends I Q o
      → ((a : A) (s : State) → I s → Q a s → Ends I R (k a s))
      → Ends I R (continue o k)
  unfolding Ends
  continue-Ends (returned a s) k (i, q) f = f a s i q
  continue-Ends (threw s) k i f = i
  continue-Ends (died s) k i f = i

module _ {ℓ} {A : Type ℓ} (I : State → Type 0) (Q : A → State → Type 0) where
  pub mono-Ends :
      (J : State → Type 0) (R : A → State → Type 0) (o : Outcome A)
      → ((s : State) → I s → J s)
      → ((a : A) (s : State) → I s → Q a s → R a s)
      → Ends I Q o
      → Ends J R o
  unfolding Ends
  mono-Ends J R (returned a s) f g (i, q) = (f s i, g a s i q)
  mono-Ends J R (threw s) f g i = f s i
  mono-Ends J R (died s) f g i = f s i

  pub ended_then :
      (e : End) (before partly after : State) (m : Tx A)
      → I before
      → I partly
      → I after
      → Ends I Q (m after)
      → Ends I Q (continue (ended e before partly after) (λ _. m))
  unfolding Ends
  ended_then done before partly after m b p a k = k
  ended_then throws before partly after m b p a k = p
  ended_then throws_late before partly after m b p a k = a
  ended_then dies before partly after m b p a k = b
  ended_then dies_late before partly after m b p a k = a

  pub require_then :
      (b : Bool) (m : Tx A) (s : State)
      → I s
      → (b ≡ true → Ends I Q (m s))
      → Ends I Q ((require b >> m) s)
  unfolding Ends
  require_then true m s i k = k refl
  require_then false m s i k = i

  module _ (h : Host) where
    pub check_then :
        (c : Syscall) (m : Tx A) (s : State) → I s → Ends I Q (m s) → Ends I Q ((check h c >> m) s)
    check_then c m s i k = ended_then (h.ends c) s s s m i i i k

    pub attempt_then :
        (c : Syscall) (f : State → State) (m : Tx A) (s : State)
        → I s
        → I (f s)
        → Ends I Q (m (f s))
        → Ends I Q ((attempt h c f >> m) s)
    attempt_then c f m s i j k = ended_then (h.ends c) s s (f s) m i i j k

    pub hook_then :
        (b : Boundary) (m : Tx A) (s : State)
        → I (on_names (h.meddle b) s)
        → Ends I Q (m (on_names (h.meddle b) s))
        → Ends I Q ((hook h b >> m) s)
    hook_then b m s i k =
        let met = on_names (h.meddle b) s in ended_then (h.hooks b) met met met m i i i k

    identified_then :
        (e : End) (name : State → Option FileState) (m : Option FileState → Tx A) (s : State)
        → I s
        → Ends I Q (m (name s) s)
        → Ends I Q (continue (continue (ended e s s s) (λ _. look name)) m)
    unfolding Ends
    identified_then done name m s i k = k
    identified_then throws name m s i k = i
    identified_then throws_late name m s i k = i
    identified_then dies name m s i k = i
    identified_then dies_late name m s i k = i

    pub identify_then :
        (c : Syscall) (name : State → Option FileState) (m : Option FileState → Tx A) (s : State)
        → I s
        → Ends I Q (m (name s) s)
        → Ends I Q ((identify h c name >>= m) s)
    identify_then c name m s i k = identified_then (h.ends c) name m s i k

  inspected_then :
      (o : Option FileState) (m : Option FileState → Tx A) (s : State)
      → I s
      → Ends I Q (m o s)
      → Ends I Q (continue (inspected o s) m)
  unfolding Ends
  inspected_then none m s i k = k
  inspected_then (some f) m s i k = elim (Bool-cases (is_regular f)) [
    | inl e ↦ rw e k
    | inr e ↦ rw e i
  ]

  pub inspect_then :
      (h : Host) (c : Syscall) (name : State → Option FileState) (m : Option FileState → Tx A)
      (s : State)
      → I s
      → Ends I Q (m (name s) s)
      → Ends I Q ((inspect h c name >>= m) s)
  unfolding Ends
  inspect_then h c name m s i k = read_then (h.ends c)
    where
      read_then :
          (e : End)
          → Ends I Q (continue (continue (ended e s s s) (λ _. look name >>= inspected)) m)
      read_then done = inspected_then (name s) m s i k
      read_then throws = i
      read_then throws_late = i
      read_then dies = i
      read_then dies_late = i

  pub give-Ends : (a : A) (s : State) → I s → Q a s → Ends I Q (give a s)
  unfolding Ends
  give-Ends a s i q = (i, q)

  pub deny-Ends : (s : State) → I s → Ends I Q (deny s)
  unfolding Ends
  deny-Ends s i = i

module _ {ℓ} {A : Type ℓ} (I : State → Type 0) (Q : A → State → Type 0) (h : Host) where
  pub guarded_then :
      (c : Syscall) (possible : State → Bool) (f : State → State) (m : Tx A) (s : State)
      → I s
      → (possible s ≡ true → I (f s))
      → (possible s ≡ true → Ends I Q (m (f s)))
      → Ends I Q ((guarded h c possible f >> m) s)
  guarded_then c possible f m s i j k = by_test (possible s) refl
    where
      by_test :
          (b : Bool)
          → possible s ≡ b
          → Ends I Q (continue ((require b >> attempt h c f) s) (λ _. m))
      by_test true e = attempt_then I Q h c f m s i (j e) (k e)
      by_test false e = deny-Ends I Q s i

pub left_by-Ends {ℓ} :
    {A : Type ℓ} (I : State → Type 0) (Q : A → State → Type 0) (o : Outcome A)
    → Ends I Q o
    → I (left_by o)
unfolding Ends
left_by-Ends I Q (returned a s) (i, q) = i
left_by-Ends I Q (threw s) i = i
left_by-Ends I Q (died s) i = i
