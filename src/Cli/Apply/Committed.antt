-- ===== src/Cli/Apply/Committed.antt =====
-- The patch of reconcile is committed at the revision that was read, after a dry run.
use gatekeeper_os.Prelude.{
  none, some, ◌==◌, ◌∷◌, none, some, true, false, Option, Bool, any, ◌≡◌, refl, nat_eq, arith,
}
use gatekeeper_os.Cli.Json.{Text, text_eq}
use gatekeeper_os.Cli.Script.{Script, from_option, step_error}
use gatekeeper_os.Cli.Script.Keeps.{Ends, require_then, give-Ends}
use gatekeeper_os.Cli.Apply.Machine.{
  Event, Log, Host, Platform, RunResult, transaction, ran, committed_runtime, trim,
}
use gatekeeper_os.Cli.Apply.Found.{Options, Found}
use gatekeeper_os.Cli.Apply.Reconcile.{publish_unless_dry, publish_config}
use gatekeeper_os.Cli.Apply.Commit.{
  given_text, answered_patch, find_binary, persisted_hash, transactional_patch,
}
use gatekeeper_os.Cli.Apply.Sound.{kind, quiet, last_persisted, is_sound, is_passed_dry}
use gatekeeper_os.Cli.Apply.Calm.{Calm, committed_runtime-Calm}
use gatekeeper_os.Cli.Apply.Surveying.{confirm_catalog-Calm, find_binary-Calm}
use gatekeeper_os.Cli.Apply.Surveyed.{At→Sound}
use gatekeeper_os.Cli.Apply.Settled.{settle_commit-Ends}
use gatekeeper_os.Cli.Apply.Guarded.{
  Patched, Patched, Patched, Patched, Patched, Patched, Patched, Patched, Patched, Patched, Patched,
  Patched, Patched, Patched, Patched, Patched, Patched, Patched, Patched, Sound, At, Patched,
  At-stable, step, calmly,
}

module _ (p : Platform) (h : Host) (o : Options) where
  -- A dry run has passed, and this is none.
  unfoldable Dry : Text → Log → Type 0
  Dry r log = At p h o r log × ((any is_passed_dry log ≡ true) × (o.dry_run ≡ false))

  Dry-stable : (r : Text) (e : Event) (log : Log) → kind p e ≡ quiet → Dry r log → Dry r (e ∷ log)
  unfolding Dry
  Dry-stable r e log q (a, (d, f)) = (At-stable p h o r e log q a, (ground (arith, d), f))

  Dry→Sound : (r : Text) (l : Log) → Dry r l → Sound p h o l
  unfolding Dry
  Dry→Sound r l (a, d) = At→Sound p h o r l a

  drily {ℓ} :
      {A : Type ℓ} (r : Text) (m : Script Log A) (log : Log)
      → Calm p h (Dry r) (Dry-stable r) m
      → Dry r log
      → Ends (Sound p h o) (λ a l. Dry r l) (m log)
  drily r m log calm b = calmly p h o (Dry r) (Dry-stable r) m log (Dry→Sound r) calm b

  commit-Sound :
      (r binary : Text) (result : RunResult) (log : Log)
      → Dry r log
      → Sound p h o (ran (transaction binary r) result ∷ log)
  unfolding Dry At Sound is_sound
  commit-Sound r binary result log ((s, a), (d, f)) = rw (f, a, d) s

  commit-Patched :
      (r binary s : Text) (result : RunResult) (log : Log)
      → Dry r log
      → persisted_hash p h result ≡ some s
      → Patched p h o s (ran (transaction binary r) result ∷ log)
  unfolding Patched last_persisted
  commit-Patched r binary s result log d e = (commit-Sound r binary result log d, e)

  persisted-Ends :
      (found : Option Text) (l : Log)
      → Sound p h o l
      → ((s : Text) → found ≡ some s → Patched p h o s l)
      → Ends
          (Sound p h o)
          (λ s l. Patched p h o s l)
          (from_option found
            (step_error "config transaction returned no valid persisted revision")
            l)
  unfolding Ends
  persisted-Ends none l sound f = sound
  persisted-Ends (some s) l sound f = (sound, f s refl)

  -- The helper's answer.
  answer-Ends :
      (r binary : Text) (result : RunResult) (log : Log)
      → Dry r log
      → Ends
          (Sound p h o)
          (λ s l. Patched p h o s l)
          (answered_patch p h result (ran (transaction binary r) result ∷ log))
  answer-Ends r binary result log d =
      require_then (Sound p h o) (λ s l. Patched p h o s l) (result.code == 0) _
        (from_option (persisted_hash p h result)
          (step_error "config transaction returned no valid persisted revision"))
        (ran (transaction binary r) result ∷ log) (commit-Sound r binary result log d)
        λ e.
          persisted-Ends (persisted_hash p h result) (ran (transaction binary r) result ∷ log)
            (commit-Sound r binary result log d) (λ s. commit-Patched r binary s result log d)

  transactional_patch-Ends :
      (r : Text) (log : Log)
      → Dry r log
      → Ends (Sound p h o) (λ s l. Patched p h o s l) (transactional_patch p h r log)
  unfolding transactional_patch
  transactional_patch-Ends r log d =
      step p h o (λ a l. Dry r l) _ (committed_runtime h p log) _
        (drily r (committed_runtime h p) log (committed_runtime-Calm p h (Dry r) (Dry-stable r)) d)
        λ selected l d.
          step p h o (λ a l. Dry r l) _ (find_binary p h (given_text selected) l) _
            (drily r (find_binary p h (given_text selected)) l
              (find_binary-Calm p h (Dry r) (Dry-stable r) (given_text selected)) d)
            λ binary l d. answer-Ends r (trim binary) (h.runs l (transaction (trim binary) r)) l d

  publish_config-Ends :
      (f : Found) (log : Log)
      → Dry f.revision log
      → Ends (Sound p h o) (λ a l. Unit {0}) (publish_config p h o f log)
  unfolding publish_config
  publish_config-Ends f log d =
      step p h o (λ a l. Dry f.revision l) _ _ _
        (drily f.revision _ log
          (confirm_catalog-Calm p h (Dry f.revision) (Dry-stable f.revision) f.catalog_digest _) d)
        λ a l d.
          step p h o (λ s l. Patched p h o s l) _ (transactional_patch p h f.revision l) _
            (transactional_patch-Ends f.revision l d) λ s l c. settle_commit-Ends p h o s f l c

  pub unless_dry-Ends :
      (f : Found) (b : Bool) (log : Log)
      → o.dry_run ≡ b
      → At p h o f.revision log
      → any is_passed_dry log ≡ true
      → Ends (Sound p h o) (λ a l. Unit {0}) (publish_unless_dry p h o f b log)
  unfolding Dry
  unless_dry-Ends f true log e a d =
      give-Ends (Sound p h o) (λ a l. Unit {0}) _ log (At→Sound p h o f.revision log a) tt
  unless_dry-Ends f false log e a d = publish_config-Ends f log (a, (d, e))
