-- ===== src/Cli/Apply/Recorded.antt =====
-- The order of the calls of a whole reconcile.
use gatekeeper_os.Cli.Apply.Committed.{unless_dry-Ends}
use gatekeeper_os.Cli.Script.{returned, threw}
use gatekeeper_os.Prelude.{
  ◌==◌, [], ◌∷◌, true, not, ◌&&◌, any, ◌≡◌, refl, Bool-cases, inl, inr, nat_eq,
}
use gatekeeper_os.Cli.Json.{Text, text_eq}
use gatekeeper_os.Cli.Script.{Script, Ending, give, left_by}
use gatekeeper_os.Cli.Script.Keeps.{Ends, require_then, give-Ends, and_finally-Ends}
use gatekeeper_os.Cli.Apply.Machine.{
  Log, Host, Platform, RunResult, unstaged, candidate, dry_patch, ran, openclaw, committed_runtime,
  write_file, make_staging,
}
use gatekeeper_os.Cli.Apply.Found.{
  is_in_sync, remove_staging, has_any, generated_text, Options, Found,
}
use gatekeeper_os.Cli.Apply.Reconcile.{
  survey, publish_unless_dry, try_candidate, reconcile, decide_apply, with_staging,
}
use gatekeeper_os.Cli.Apply.Sound.{reads_agree, is_sound, is_passed_dry}
use gatekeeper_os.Cli.Apply.Calm.{Calm, committed_runtime-Calm, write_file-Calm}
use gatekeeper_os.Cli.Apply.Surveying.{make_staging-Calm}
use gatekeeper_os.Cli.Apply.Surveyed.{At→Sound, survey-Ends}
use gatekeeper_os.Cli.Apply.Guarded.{Sound, Before, At, Sound-stable, At-stable, step, calmly}

module _ (p : Platform) (h : Host) (o : Options) where
  at_revision {ℓ} :
      {A : Type ℓ} (r : Text) (m : Script Log A) (log : Log)
      → Calm p h (At p h o r) (At-stable p h o r) m
      → At p h o r log
      → Ends (Sound p h o) (λ a l. At p h o r l) (m log)
  at_revision r m log calm b =
      calmly p h o (At p h o r) (At-stable p h o r) m log (At→Sound p h o r) calm b

  passed_dry :
      (r : Text) (l : Log) (result : RunResult)
      → At p h o r l
      → Ends
          (Sound p h o)
          (λ result l. ((result.code == 0) ≡ true → any is_passed_dry l ≡ true) × At p h o r l)
          (give result (ran dry_patch result ∷ l))
  passed_dry r l result a =
      let kept = At-stable p h o r (ran dry_patch result) l refl a in
      give-Ends (Sound p h o)
        (λ result l. ((result.code == 0) ≡ true → any is_passed_dry l ≡ true) × At p h o r l) result
        (ran dry_patch result ∷ l) (At→Sound p h o r (ran dry_patch result ∷ l) kept)
        ((λ e. rw e refl), kept)

  dry_patch-Ends :
      (r : Text) (log : Log)
      → At p h o r log
      → Ends
          (Sound p h o)
          (λ result l. ((result.code == 0) ≡ true → any is_passed_dry l ≡ true) × At p h o r l)
          (openclaw h p dry_patch log)
  unfolding openclaw
  dry_patch-Ends r log a =
      step p h o (λ a l. At p h o r l) _ (committed_runtime h p log) _
        (at_revision r (committed_runtime h p) log
          (committed_runtime-Calm p h (At p h o r) (At-stable p h o r)) a)
        λ binary l a. passed_dry r l (h.runs l dry_patch) a

  try_candidate-Ends :
      (f : Found) (log : Log)
      → At p h o f.revision log
      → Ends (Sound p h o) (λ a l. Unit {0}) (try_candidate p h o f log)
  unfolding try_candidate
  try_candidate-Ends f log a =
      step p h o (λ a l. At p h o f.revision l) _ (write_file h candidate (generated_text p f) log)
        _
        (at_revision f.revision (write_file h candidate (generated_text p f)) log
          (write_file-Calm p h (At p h o f.revision) (At-stable p h o f.revision) candidate
            (generated_text p f) refl)
          a)
        λ _ l a.
          step p h o _ _ (openclaw h p dry_patch l) _ (dry_patch-Ends f.revision l a) λ dry l d.
            require_then (Sound p h o) (λ a l. Unit {0}) (dry.code == 0) _
              (publish_unless_dry p h o f o.dry_run) l (At→Sound p h o f.revision l d.1)
              λ e. unless_dry-Ends p h o f o.dry_run l refl d.1 (d.0 e)

  with_staging-Ends :
      (f : Found) (log : Log)
      → At p h o f.revision log
      → Ends (Sound p h o) (λ a l. Unit {0}) (with_staging p h o f log)
  with_staging-Ends f log a =
      step p h o (λ a l. At p h o f.revision l) _ (make_staging h log) _
        (at_revision f.revision (make_staging h) log
          (make_staging-Calm p h (At p h o f.revision) (At-stable p h o f.revision)) a)
        λ _ l a.
          and_finally-Ends (Sound p h o) (λ a l. Unit {0}) remove_staging (try_candidate p h o f l)
            (λ s sound. Sound-stable p h o unstaged s refl sound) (λ a s q. q)
            (try_candidate-Ends f l a)

  decide-Ends :
      (f : Found) (log : Log)
      → At p h o f.revision log
      → Ends (Sound p h o) (λ a l. Unit {0}) (decide_apply p h o f log)
  decide-Ends f log a = elim (Bool-cases (has_any f.guard.conflicts && not o.force)) [
    | inl e ↦
        rw e (give-Ends (Sound p h o) (λ a l. Unit {0}) _ log (At→Sound p h o f.revision log a) tt)
    | inr e ↦ elim (Bool-cases (is_in_sync p f && not o.dry_run)) [
      | inl g ↦
          rw (e, g)
            (give-Ends (Sound p h o) (λ a l. Unit {0}) _ log (At→Sound p h o f.revision log a) tt)
      | inr g ↦ rw (e, g) (with_staging-Ends f log a)
    ]
  ]

  started : Before p h o []
  unfolding Before Sound is_sound reads_agree
  started = (refl, λ r. refl)

  sound_end {ℓ} :
      {A : Type ℓ} (m : Ending Log A)
      → Ends (Sound p h o) (λ a l. Unit {0}) m
      → is_sound p h o (left_by m) ≡ true
  unfolding Ends Sound
  sound_end (returned a s) (i, q) = i
  sound_end (threw e s) i = i

  -- However the host answers, and wherever reconcile ends, its calls were in this order: a patch is
  -- committed at the revision that every reading of the configuration before it had, after a dry run
  -- that passed, and never on a dry run; the applied catalog, the generated file and the digests are
  -- written only when the lint after the patch has passed and the configuration, at its last reading,
  -- still had the revision that the patch left.
  pub is_sound-reconcile : is_sound p h o (left_by (reconcile p h o [])) ≡ true
  unfolding reconcile
  is_sound-reconcile = sound_end (reconcile p h o []) (
      step p h o (λ f l. At p h o f.revision l) _ (survey p h []) _ (survey-Ends p h o [] started)
        decide-Ends)
