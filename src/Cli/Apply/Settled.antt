-- ===== src/Cli/Apply/Settled.antt =====
-- What reconcile does once the patch is committed.
use gatekeeper_os.Cli.Apply.Owned.{read_owned_config}
use gatekeeper_os.Cli.Apply.Surveyed.{Patched→Sound, Confirmed→Sound, Linted→Sound}
use gatekeeper_os.Cli.Apply.Surveying.{restart_if-Calm, confirm_catalog-Calm}
use gatekeeper_os.Prelude.{
  none, some, true, inr, some, inl, Bool-cases, true, Option, refl, String, ◌∷◌, ◌≡◌, ==-refl,
}
use gatekeeper_os.Cli.Json.{Fields, Text, text_eq}
use gatekeeper_os.Cli.Script.{Script}
use gatekeeper_os.Cli.Script.Keeps.{Ends, give-Ends}
use gatekeeper_os.Cli.Apply.Machine.{
  not_written, lockfile, config_state, committed_runtime, generated, lint, catalog_state,
  write_file, ran, wrote, openclaw, RunResult, Place, Log, Host, Platform, config, was_read,
}
use gatekeeper_os.Cli.Apply.Found.{generated_text, Found, Options}
use gatekeeper_os.Cli.Apply.Reconcile.{
  write_digests, is_restart_needed, restart_if, confirm, checkpoint, digests_after, settle_commit,
  verify_lint,
}
use gatekeeper_os.Cli.Apply.Commit.{lint_passes}
use gatekeeper_os.Cli.Apply.Sound.{
  record_commit, last_revision, kind, is_sound, is_linted, last_persisted,
}
use gatekeeper_os.Cli.Apply.Calm.{committed_runtime-Calm, Calm}
use gatekeeper_os.Cli.Apply.Surveying.{read_owned_config-Calm}
use gatekeeper_os.Cli.Apply.Guarded.{
  Sound-stable, required-Ends, confirm-Ends, Confirmed-stable, Linted-stable, Sound, Patched,
  Confirmed, Linted, step, calmly, read_config-Sound,
}

module _ (p : Platform) (h : Host) (o : Options) where
  read-Confirmed :
      (log : Log) (s u : Text)
      → Patched p h o s log
      → p.sha256 u ≡ s
      → Confirmed p h o s (was_read config u ∷ log)
  unfolding Confirmed Patched last_persisted last_revision
  read-Confirmed log s u (sound, e) same = ((read_config-Sound p h o u log sound, e), rw same refl)

  Confirmed→Patched : (s : Text) (log : Log) → Confirmed p h o s log → Patched p h o s log
  unfolding Confirmed
  Confirmed→Patched s log (c, e) = c

  read-Linted :
      (log : Log) (s u : Text)
      → Linted p h o s log
      → p.sha256 u ≡ s
      → Linted p h o s (was_read config u ∷ log)
  unfolding Linted is_linted
  read-Linted log s u (c, e) same = (read-Confirmed log s u (Confirmed→Patched s log c) same, e)

  confirmed {ℓ} :
      {A : Type ℓ} (s : Text) (m : Script Log A) (log : Log)
      → Calm p h (Confirmed p h o s) (Confirmed-stable p h o s) m
      → Confirmed p h o s log
      → Ends (Sound p h o) (λ a l. Confirmed p h o s l) (m log)
  confirmed s m log calm b =
      calmly p h o (Confirmed p h o s) (Confirmed-stable p h o s) m log (Confirmed→Sound p h o s)
        calm b

  linted {ℓ} :
      {A : Type ℓ} (s : Text) (m : Script Log A) (log : Log)
      → Calm p h (Linted p h o s) (Linted-stable p h o s) m
      → Linted p h o s log
      → Ends (Sound p h o) (λ a l. Linted p h o s l) (m log)
  linted s m log calm b =
      calmly p h o (Linted p h o s) (Linted-stable p h o s) m log (Linted→Sound p h o s) calm b

  reconfirm :
      (s : Text) (message : String) (log : Log)
      → Patched p h o s log
      → Ends (Sound p h o) (λ a l. Confirmed p h o s l) (confirm p h s message log)
  reconfirm s message log c =
      confirm-Ends p h o (λ l. Confirmed p h o s l) s message log (Patched→Sound p h o s log c)
        (λ u e. read-Confirmed log s u c e)

  digests_after-Ends :
      (s : Text) (log : Log)
      → Patched p h o s log
      → Ends (Sound p h o) (λ a l. Confirmed p h o s l) (digests_after p h s log)
  unfolding digests_after
  digests_after-Ends s log c =
      step p h o (λ a l. Confirmed p h o s l) _ _ _ (reconfirm s _ log c)
        λ a l c.
          step p h o (λ a l. Confirmed p h o s l) _ (read_owned_config p h l) _
            (confirmed s (read_owned_config p h) l
              (read_owned_config-Calm p h (Confirmed p h o s) (Confirmed-stable p h o s)) c)
            λ live l c.
              step p h o (λ a l. Confirmed p h o s l) _ _ _
                (reconfirm s _ l (Confirmed→Patched s l c))
                λ a l c.
                  give-Ends (Sound p h o) (λ a l. Confirmed p h o s l) _ l
                    (Confirmed→Sound p h o s l c) c

  -- The lint's verdict, once it has run.
  lint-Linted :
      (s : Text) (log : Log) (r : RunResult)
      → Confirmed p h o s log
      → lint_passes p h r ≡ true
      → Linted p h o s (ran lint r ∷ log)
  unfolding Linted Confirmed Patched Sound is_sound last_persisted last_revision is_linted
  lint-Linted s log r c e = (c, e)

  lint-Sound :
      (s : Text) (log : Log) (r : RunResult)
      → Confirmed p h o s log
      → Sound p h o (ran lint r ∷ log)
  unfolding Confirmed Patched Sound is_sound
  lint-Sound s log r ((sound, e), f) = sound

  verify_lint-Ends :
      (s : Text) (log : Log)
      → Confirmed p h o s log
      → Ends (Sound p h o) (λ a l. Linted p h o s l) (verify_lint p h log)
  unfolding verify_lint openclaw
  verify_lint-Ends s log c =
      step p h o (λ r l. (lint_passes p h r ≡ true → Linted p h o s l) × Sound p h o l) _
        (openclaw h p lint log) _
        (step p h o (λ a l. Confirmed p h o s l) _ (committed_runtime h p log) _
          (confirmed s (committed_runtime h p) log
            (committed_runtime-Calm p h (Confirmed p h o s) (Confirmed-stable p h o s)) c)
          λ binary l c.
            give-Ends (Sound p h o)
              (λ r l. (lint_passes p h r ≡ true → Linted p h o s l) × Sound p h o l) (h.runs l lint)
              (ran lint (h.runs l lint) ∷ l) (lint-Sound s l (h.runs l lint) c)
              (lint-Linted s l (h.runs l lint) c, lint-Sound s l (h.runs l lint) c))
        λ r l f. required-Ends p h o (λ l. Linted p h o s l) (lint_passes p h r) _ l f.1 f.0

  record-Linted :
      (s : Text) (f : Place) (t : Text) (log : Log)
      → kind p (wrote f t) ≡ record_commit
      → Linted p h o s log
      → Linted p h o s (wrote f t ∷ log)
  unfolding Linted Confirmed Patched Sound is_sound last_persisted last_revision is_linted
  record-Linted s f t log q (((sound, e), g), i) =
      (((rw (q, i, g, e, ==-refl s) sound, rw q e), rw q g), rw q i)

  write-Linted :
      (s : Text) (f : Place) (t : Text) (log : Log)
      → kind p (wrote f t) ≡ record_commit
      → Linted p h o s log
      → Ends (Sound p h o) (λ a l. Linted p h o s l) (write_file h f t log)
  unfolding Ends
  write-Linted s f t log q c = elim (Bool-cases (h.writes log f)) [
    | inl e ↦ rw e (
      Linted→Sound p h o s (wrote f t ∷ log) (record-Linted s f t log q c),
      record-Linted s f t log q c,
    )
    | inr e ↦ rw e (Sound-stable p h o (not_written f) log refl (Linted→Sound p h o s log c))
  ]

  write_digests-Linted :
      (s : Text) (f : Found) (digests : Fields) (lock : Option Fields) (log : Log)
      → Linted p h o s log
      → Ends (Sound p h o) (λ a l. Linted p h o s l) (write_digests p h f digests lock log)
  write_digests-Linted s f digests none log c = write-Linted s config_state _ log refl c
  write_digests-Linted s f digests (some lock) log c = write-Linted s lockfile _ log refl c

  checkpoint-Ends :
      (s : Text) (f : Found) (digests : Fields) (log : Log)
      → Linted p h o s log
      → Ends (Sound p h o) (λ a l. Linted p h o s l) (checkpoint p h f digests log)
  unfolding checkpoint
  checkpoint-Ends s f digests log c =
      step p h o (λ a l. Linted p h o s l) _ (write_file h catalog_state f.catalog_digest log) _
        (write-Linted s catalog_state _ log refl c)
        λ a l c.
          step p h o (λ a l. Linted p h o s l) _ (write_file h generated (generated_text p f) l) _
            (write-Linted s generated _ l refl c)
            λ a l c. write_digests-Linted s f digests f.lock l c

  pub settle_commit-Ends :
      (s : Text) (f : Found) (log : Log)
      → Patched p h o s log
      → Ends (Sound p h o) (λ a l. Unit {0}) (settle_commit p h o f s log)
  unfolding settle_commit
  settle_commit-Ends s f log c =
      step p h o (λ a l. Confirmed p h o s l) _ (digests_after p h s log) _
        (digests_after-Ends s log c)
        λ digests l c.
          step p h o (λ a l. Linted p h o s l) _ (verify_lint p h l) _ (verify_lint-Ends s l c)
            λ a l c.
              step p h o (λ a l. Linted p h o s l) _ (restart_if p h (is_restart_needed p h o f) l)
                _
                (linted s (restart_if p h (is_restart_needed p h o f)) l
                  (restart_if-Calm p h (Linted p h o s) (Linted-stable p h o s) _) c)
                λ restarted l c.
                  step p h o (λ a l. Linted p h o s l) _ _ _
                    (confirm-Ends p h o (λ l. Linted p h o s l) s _ l (Linted→Sound p h o s l c)
                      (λ u e. read-Linted l s u c e))
                    λ a l c.
                      step p h o (λ a l. Linted p h o s l) _ _ _
                        (linted s _ l
                          (confirm_catalog-Calm p h (Linted p h o s) (Linted-stable p h o s)
                            f.catalog_digest _)
                          c)
                        λ a l c.
                          step p h o (λ a l. Linted p h o s l) _ (checkpoint p h f digests l) _
                            (checkpoint-Ends s f digests l c)
                            λ a l c.
                              give-Ends (Sound p h o) (λ a l. Unit {0}) _ l
                                (Linted→Sound p h o s l c) tt
