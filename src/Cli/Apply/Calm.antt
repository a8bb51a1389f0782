-- ===== src/Cli/Apply/Calm.antt =====
-- The calls of reconcile that keep whatever quiet calls keep: those that read no revision of the
-- configuration, and commit, lint and record nothing.
use gatekeeper_os.Prelude.{
  maybe, ◌∷◌, none, some, Option, Bool, true, false, nat_eq, String, ◌≡◌, refl, Bool-cases, inl,
  inr,
}
use gatekeeper_os.Cli.Json.{Text, text_eq}
use gatekeeper_os.Cli.Script.{
  other_error, Failure, Ending, returned, threw, Script, ◌>>=◌, ◌>>◌, give, throw, require,
  from_option, stateless, leaving,
}
use gatekeeper_os.Cli.Script.Keeps.{Ends, continue-Ends}
use gatekeeper_os.Cli.Apply.Machine.{
  runtime_of, fields_of, answered_read, not_written, check_journal, Event, Log, Host, Platform,
  RunResult, Place, Program, was_read, not_read, tested, ran, wrote, test_file, try_read, read_file,
  run_program, write_file, journal, lockfile, committed_runtime, openclaw, read_lockfile,
}
use gatekeeper_os.Cli.Apply.Sound.{kind, quiet}

module _ (p : Platform) (h : Host) (J : Log → Type 0)
    (stable : (e : Event) (log : Log) → kind p e ≡ quiet → J log → J (e ∷ log)) where
  unfoldable pub Calm {ℓ} : {A : Type ℓ} → Script Log A → Type 0
  Calm m = (log : Log) → J log → Ends J (λ a s. Unit) (m log)

  pub bind-Calm {ℓ κ} :
      {A : Type ℓ} {B : Type κ} (m : Script Log A) (k : A → Script Log B)
      → Calm m
      → ((a : A) → Calm (k a))
      → Calm (m >>= k)
  unfolding Calm
  bind-Calm m k f g log j =
      continue-Ends J (λ a s. Unit) (λ b s. Unit) (m log) k (f log j) (λ a s i _. g a s i)

  pub then-Calm {ℓ} :
      {B : Type ℓ} (m : Script Log (Unit {0})) (k : Script Log B) → Calm m → Calm k → Calm (m >> k)
  unfolding Calm
  then-Calm m k f g log j =
      continue-Ends J (λ a s. Unit) (λ b s. Unit) (m log) (λ _. k) (f log j) (λ a s i _. g s i)

  pub give-Calm {ℓ} : {A : Type ℓ} (a : A) → Calm (give a)
  unfolding Ends Calm
  give-Calm a log j = (j, tt)

  pub throw-Calm {ℓ} : (A : Type ℓ) (e : Failure) → Calm (throw {A = A} e)
  unfolding Ends Calm
  throw-Calm A e log j = j

  pub require-Calm : (b : Bool) (message : String) → Calm (require b message)
  unfolding Ends Calm
  require-Calm true message log j = (j, tt)
  require-Calm false message log j = j

  pub from_option-Calm {ℓ} : {A : Type ℓ} (o : Option A) (e : Failure) → Calm (from_option o e)
  unfolding Ends Calm
  from_option-Calm none e log j = j
  from_option-Calm (some a) e log j = (j, tt)

  leaving-Calm {ℓ} : {A : Type ℓ} (o : Ending (Unit {0}) A) → Calm (leaving o)
  unfolding Ends Calm
  leaving-Calm (returned a s) log j = (j, tt)
  leaving-Calm (threw e s) log j = j

  pub stateless-Calm {ℓ} : {A : Type ℓ} (m : Script (Unit {0}) A) → Calm (stateless m)
  stateless-Calm m = leaving-Calm (m tt)

  pub test_file-Calm : (f : Place) → Calm (test_file h f)
  unfolding Ends Calm
  test_file-Calm f log j = (stable (tested f (h.exists log f)) log refl j, tt)

  pub run_program-Calm :
      (c : Program) → ((r : RunResult) → kind p (ran c r) ≡ quiet) → Calm (run_program h c)
  unfolding Ends Calm
  run_program-Calm c q log j = (stable (ran c (h.runs log c)) log (q (h.runs log c)) j, tt)

  answered-Calm :
      (f : Place) (o : Option Text)
      → ((t : Text) → kind p (was_read f t) ≡ quiet)
      → (log : Log) → J log
      → J (answered_read h f o ∷ log)
  answered-Calm f none q log j = stable (not_read f) log refl j
  answered-Calm f (some t) q log j = stable (was_read f t) log (q t) j

  pub try_read-Calm :
      (f : Place) → ((t : Text) → kind p (was_read f t) ≡ quiet) → Calm (try_read h f)
  unfolding Ends Calm
  try_read-Calm f q log j = (answered-Calm f (h.reads log f) q log j, tt)

  pub read_file-Calm :
      (f : Place) → ((t : Text) → kind p (was_read f t) ≡ quiet) → Calm (read_file h f)
  read_file-Calm f q =
      bind-Calm _ _ (try_read-Calm f q) (λ t. from_option-Calm t (other_error "readFileSync"))

  pub write_file-Calm :
      (f : Place) (t : Text) → kind p (wrote f t) ≡ quiet → Calm (write_file h f t)
  unfolding Ends Calm
  write_file-Calm f t q log j = elim (Bool-cases (h.writes log f)) [
    | inl e ↦ rw e (stable (wrote f t) log q j, tt)
    | inr e ↦ rw e (stable (not_written f) log refl j)
  ]

  pub read_lockfile-Calm : Calm (read_lockfile h p)
  read_lockfile-Calm =
      bind-Calm _ _ (try_read-Calm lockfile (λ t. refl))
        (λ t. give-Calm (fields_of (maybe t none p.parse)))

  read_journal-Calm : Calm (try_read h journal)
  read_journal-Calm = try_read-Calm journal (λ t. refl)

  check_journal-Calm : (b : Bool) → Calm (check_journal h p b)
  check_journal-Calm false = give-Calm tt
  check_journal-Calm true = search (bind-Calm, from_option-Calm, require-Calm, read_journal-Calm)

  pub committed_runtime-Calm : Calm (committed_runtime h p)
  unfolding committed_runtime
  committed_runtime-Calm = bind-Calm (test_file h journal) _ (test_file-Calm journal) (λ b.
      then-Calm (check_journal h p b) _ (check_journal-Calm b)
        (bind-Calm (read_lockfile h p) _ read_lockfile-Calm (λ l. give-Calm (runtime_of h p l))))

  pub openclaw-Calm :
      (c : Program) → ((r : RunResult) → kind p (ran c r) ≡ quiet) → Calm (openclaw h p c)
  unfolding openclaw
  openclaw-Calm c q =
      bind-Calm (committed_runtime h p) _ committed_runtime-Calm (λ b. run_program-Calm c q)
