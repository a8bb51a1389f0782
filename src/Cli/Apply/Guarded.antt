-- ===== src/Cli/Apply/Guarded.antt =====
-- The log of a whole reconcile is sound.
use gatekeeper_os.Prelude.{
  ◌==◌, ◌∷◌, none, some, Option, Bool, true, false, ◌≡◌, refl, ==_iff, String,
}
use gatekeeper_os.Cli.Json.{Text, text_eq}
use gatekeeper_os.Cli.Script.{other_error, Script, Ending, continue, give, require, from_option}
use gatekeeper_os.Cli.Script.Keeps.{Ends, continue-Ends, mono-Ends}
use gatekeeper_os.Cli.Apply.Machine.{
  answered_read, Event, Log, Host, Platform, config, was_read, not_read, config_revision,
}
use gatekeeper_os.Cli.Apply.Found.{Options}
use gatekeeper_os.Cli.Apply.Reconcile.{confirm}
use gatekeeper_os.Cli.Apply.Sound.{
  kind, quiet, reads_agree, last_persisted, last_revision, is_linted, is_sound,
}
use gatekeeper_os.Cli.Apply.Calm.{Calm}

module _ (p : Platform) (h : Host) (o : Options) where
  unfoldable pub Sound : Log → Type 0
  Sound log = is_sound p h o log ≡ true

  -- The configuration was not read.
  unfoldable pub Before : Log → Type 0
  Before log = Sound log × ((r : Text) → reads_agree p r log ≡ true)

  -- Every read of the configuration had the revision.
  unfoldable pub At : Text → Log → Type 0
  At r log = Sound log × (reads_agree p r log ≡ true)

  unfoldable pub Patched : Text → Log → Type 0
  Patched s log = Sound log × (last_persisted p h log ≡ some s)

  unfoldable pub Confirmed : Text → Log → Type 0
  Confirmed s log = Patched s log × (last_revision p h log ≡ some s)

  unfoldable pub Linted : Text → Log → Type 0
  Linted s log = Confirmed s log × (is_linted p h log ≡ true)

  pub Sound-stable : (e : Event) (log : Log) → kind p e ≡ quiet → Sound log → Sound (e ∷ log)
  unfolding Sound is_sound
  Sound-stable e log q s = rw q s

  pub Before-stable : (e : Event) (log : Log) → kind p e ≡ quiet → Before log → Before (e ∷ log)
  unfolding Before reads_agree
  Before-stable e log q (s, f) = (Sound-stable e log q s, λ r. rw q (f r))

  pub At-stable : (r : Text) (e : Event) (log : Log) → kind p e ≡ quiet → At r log → At r (e ∷ log)
  unfolding At reads_agree
  At-stable r e log q (s, f) = (Sound-stable e log q s, rw q f)

  pub Patched-stable :
      (r : Text) (e : Event) (log : Log) → kind p e ≡ quiet → Patched r log → Patched r (e ∷ log)
  unfolding Patched last_persisted
  Patched-stable r e log q (s, f) = (Sound-stable e log q s, rw q f)

  pub Confirmed-stable :
      (r : Text) (e : Event) (log : Log)
      → kind p e ≡ quiet
      → Confirmed r log
      → Confirmed r (e ∷ log)
  unfolding Confirmed last_revision
  Confirmed-stable r e log q (s, f) = (Patched-stable r e log q s, rw q f)

  pub Linted-stable :
      (r : Text) (e : Event) (log : Log) → kind p e ≡ quiet → Linted r log → Linted r (e ∷ log)
  unfolding Linted is_linted
  Linted-stable r e log q (s, f) = (Confirmed-stable r e log q s, rw q f)

  -- One step after another.
  pub step {ℓ κ} :
      {A : Type ℓ} {B : Type κ} (Q : A → Log → Type 0) (R : B → Log → Type 0) (m : Ending Log A)
      (k : A → Script Log B)
      → Ends Sound Q m
      → ((a : A) (l : Log) → Q a l → Ends Sound R (k a l))
      → Ends Sound R (continue m k)
  step Q R m k e f = continue-Ends Sound Q R m k e (λ a l s q. f a l q)

  -- A calm step keeps what is known.
  pub calmly {ℓ} :
      {A : Type ℓ} (J : Log → Type 0)
      (stable : (e : Event) (log : Log) → kind p e ≡ quiet → J log → J (e ∷ log)) (m : Script Log A)
      (log : Log)
      → ((l : Log) → J l → Sound l)
      → Calm p h J stable m
      → J log
      → Ends Sound (λ a l. J l) (m log)
  unfolding Calm
  calmly J stable m log weak calm j =
      mono-Ends J (λ a l. Unit) Sound (λ a l. J l) (m log) weak (λ a l i _. i) (calm log j)

  pub read_config-Sound : (u : Text) (log : Log) → Sound log → Sound (was_read config u ∷ log)
  unfolding Sound is_sound
  read_config-Sound u log s = s

  revision_of-Ends :
      (F : Text → Log → Type 0) (t : Option Text) (log : Log)
      → Sound log
      → ((u : Text) → F (p.sha256 u) (was_read config u ∷ log))
      → Ends Sound F (
          continue
            (from_option t (other_error "readFileSync") (answered_read h config t ∷ log))
            (λ u. give (p.sha256 u)))
  unfolding Ends
  revision_of-Ends F none log s f = Sound-stable (not_read config) log refl s
  revision_of-Ends F (some u) log s f = (read_config-Sound u log s, f u)

  pub revision-Ends :
      (F : Text → Log → Type 0) (log : Log)
      → Sound log
      → ((u : Text) → F (p.sha256 u) (was_read config u ∷ log))
      → Ends Sound F (config_revision h p log)
  unfolding config_revision
  revision-Ends F log s f = revision_of-Ends F (h.reads log config) log s f

  pub required-Ends :
      (F : Log → Type 0) (b : Bool) (message : String) (l : Log)
      → Sound l
      → (b ≡ true → F l)
      → Ends Sound (λ a s. F s) (require b message l)
  unfolding Ends
  required-Ends F true message l sound given = (sound, given refl)
  required-Ends F false message l sound given = sound

  pub confirm-Ends :
      (F : Log → Type 0) (r : Text) (message : String) (log : Log)
      → Sound log
      → ((u : Text) → p.sha256 u ≡ r → F (was_read config u ∷ log))
      → Ends Sound (λ a l. F l) (confirm p h r message log)
  confirm-Ends F r message log s f =
      continue-Ends Sound (λ now l. now ≡ r → F l) (λ a l. F l) (config_revision h p log) _
        (revision-Ends (λ now l. now ≡ r → F l) log s f)
        (λ now l sound given.
          required-Ends F (now == r) message l sound (λ e. given ((==_iff now r).0 e)))
