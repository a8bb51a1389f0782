-- ===== src/Fs/Transaction/Keeps.antt =====
-- Steps of a transaction that keep a predicate of its state, wherever they end.
use mathlib.Core.Option
use gatekeeper_os.Fs.Journal.{set_record, TxRecord, Journal}
use gatekeeper_os.Prelude.{none, some, true, false, inl, inr, Bool-cases, Bool, Option}
use gatekeeper_os.Fs.Files.{FileState, is_regular}
use gatekeeper_os.Fs.Transaction.Machine.{
  on_journal, persist_record, persist, guarded, give, State, done, throws, throws_late, dies,
  dies_late, End, Host, Syscall, Boundary, Tx, ◌>>=◌, ◌>>◌, check, attempt, hook, inspect, identify,
  require, ended, on_names, inspected, look, Names,
}
use gatekeeper_os.Fs.Transaction.Ends.{deny-Ends, continue-Ends, Ends, Any}

abbrev pub Keeps {ℓ} : {A : Type ℓ} → (State → Type 0) → Tx A → Type 0
Keeps I m = (s : State) → I s → Ends I Any (m s)

module _ (I : State → Type 0) where
  pub bind-Keeps {ℓ κ} :
      {A : Type ℓ} {B : Type κ} (m : Tx A) (k : A → Tx B)
      → Keeps I m
      → ((a : A) → Keeps I (k a))
      → Keeps I (m >>= k)
  bind-Keeps m k f g s i = continue-Ends I Any Any (m s) k (f s i) (λ a t j _. g a t j)

  pub then-Keeps {ℓ} :
      {A : Type ℓ} (m : Tx (Unit {0})) (k : Tx A) → Keeps I m → Keeps I k → Keeps I (m >> k)
  then-Keeps m k f g s i = continue-Ends I Any Any (m s) (λ _. k) (f s i) (λ a t j _. g t j)

  pub give-Keeps {ℓ} : {A : Type ℓ} (a : A) → Keeps I (give a)
  unfolding Ends
  give-Keeps a s i = (i, tt)

  pub require-Keeps : (b : Bool) → Keeps I (require b)
  unfolding Ends
  require-Keeps true s i = (i, tt)
  require-Keeps false s i = i

  pub look-Keeps {ℓ} : {A : Type ℓ} (f : State → A) → Keeps I (look f)
  unfolding Ends
  look-Keeps f s i = (i, tt)

  pub ended-Ends :
      (e : End) (before partly after : State)
      → I before
      → I partly
      → I after
      → Ends I Any (ended e before partly after)
  unfolding Ends
  ended-Ends done before partly after b p a = (a, tt)
  ended-Ends throws before partly after b p a = p
  ended-Ends throws_late before partly after b p a = a
  ended-Ends dies before partly after b p a = b
  ended-Ends dies_late before partly after b p a = a

  inspected-Keeps : (o : Option FileState) → Keeps I (inspected o)
  unfolding Ends
  inspected-Keeps none s i = (i, tt)
  inspected-Keeps (some f) s i = elim (Bool-cases (is_regular f)) [
    | inl e ↦ rw e (i, tt)
    | inr e ↦ rw e i
  ]

  module _ (h : Host) where
    pub attempt-Keeps :
        (c : Syscall) (f : State → State) → ((s : State) → I s → I (f s)) → Keeps I (attempt h c f)
    attempt-Keeps c f keep s i = ended-Ends (h.ends c) s s (f s) i i (keep s i)

    pub guarded-Keeps :
        (c : Syscall) (possible : State → Bool) (f : State → State)
        → ((s : State) → I s → I (f s))
        → Keeps I (guarded h c possible f)
    guarded-Keeps c possible f keep s =
        then-Keeps (require (possible s)) (attempt h c f) (require-Keeps (possible s))
          (attempt-Keeps c f keep) s

    pub check-Keeps : (c : Syscall) → Keeps I (check h c)
    check-Keeps c = attempt-Keeps c (λ s. s) (λ s i. i)

    pub hook-Keeps :
        (b : Boundary)
        → ((f : Names → Names) (s : State) → I s → I (on_names f s))
        → Keeps I (hook h b)
    hook-Keeps b keep s i =
        let met = on_names (h.meddle b) s in
        let j = keep (h.meddle b) s i in ended-Ends (h.hooks b) met met met j j j

    pub identify-Keeps :
        (c : Syscall) (name : State → Option FileState) → Keeps I (identify h c name)
    identify-Keeps c name = then-Keeps (check h c) (look name) (check-Keeps c) (look-Keeps name)

    pub inspect-Keeps : (c : Syscall) (name : State → Option FileState) → Keeps I (inspect h c name)
    inspect-Keeps c name =
        then-Keeps (check h c) (look name >>= inspected) (check-Keeps c)
          (bind-Keeps (look name) inspected (look-Keeps name) inspected-Keeps)

    -- A persisted record, for a predicate of the names and of what is lost.
    pub persisted-Keeps :
        ((o : Option TxRecord) (j : Journal) (s : State)
          → I s
          → I (record s { current = o; journal = j }))
        → (c : Syscall) (change : TxRecord → TxRecord) → Keeps I (persist h c change)
    persisted-Keeps noted c change s i = by_current (Option.map change s.current)
      where
        by_current : (o : Option TxRecord) → Ends I Any (persist_record h c o s)
        by_current none = deny-Ends I Any s i
        by_current (some t) =
            let held = record s { current = some t } in
            let kept = noted (some t) s.journal s i in
            ended-Ends (h.ends c) held held (on_journal (set_record t) held) kept kept
              (noted (some t) (set_record t s.journal) s i)
