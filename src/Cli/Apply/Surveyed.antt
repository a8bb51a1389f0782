-- ===== src/Cli/Apply/Surveyed.antt =====
-- The readings of reconcile before it writes.
use gatekeeper_os.Cli.Apply.Fragments.{merge_fragments}
use gatekeeper_os.Cli.Apply.Owned.{read_owned_config}
use gatekeeper_os.Prelude.{◌==◌, ◌∷◌, Bool, ◌≡◌, ==_iff, ==-refl}
use gatekeeper_os.Cli.Json.{Text, text_eq, Json}
use gatekeeper_os.Cli.Script.{give, ◌>>=◌, Script}
use gatekeeper_os.Cli.Script.Keeps.{Ends, require_then, give-Ends}
use gatekeeper_os.Cli.Apply.Machine.{
  read_lockfile, Log, Host, Platform, config, was_read, config_revision,
}
use gatekeeper_os.Cli.Apply.Found.{Options}
use gatekeeper_os.Cli.Apply.Reconcile.{found, surveyed, survey}
use gatekeeper_os.Cli.Apply.Commit.{previous_config, is_catalog_changed, catalog_digest}
use gatekeeper_os.Cli.Apply.Sound.{reads_agree}
use gatekeeper_os.Cli.Apply.Calm.{Calm, read_lockfile-Calm}
use gatekeeper_os.Cli.Apply.Surveying.{
  catalog_digest-Calm, is_catalog_changed-Calm, merge_fragments-Calm, previous_config-Calm,
  read_owned_config-Calm,
}
use gatekeeper_os.Cli.Apply.Guarded.{
  Sound, Before, At, Patched, Confirmed, Linted, Before-stable, At-stable, step, calmly,
  read_config-Sound, revision-Ends,
}

module _ (p : Platform) (h : Host) (o : Options) where
  pub Before→Sound : (l : Log) → Before p h o l → Sound p h o l
  unfolding Before
  Before→Sound l (s, f) = s

  pub At→Sound : (r : Text) (l : Log) → At p h o r l → Sound p h o l
  unfolding At
  At→Sound r l (s, f) = s

  pub Patched→Sound : (r : Text) (l : Log) → Patched p h o r l → Sound p h o l
  unfolding Patched
  Patched→Sound r l (s, f) = s

  pub Confirmed→Sound : (r : Text) (l : Log) → Confirmed p h o r l → Sound p h o l
  unfolding Confirmed
  Confirmed→Sound r l (s, f) = Patched→Sound r l s

  pub Linted→Sound : (r : Text) (l : Log) → Linted p h o r l → Sound p h o l
  unfolding Linted
  Linted→Sound r l (s, f) = Confirmed→Sound r l s

  -- What the calm steps before the first reading of the configuration keep.
  first {ℓ} :
      {A : Type ℓ} (m : Script Log A) (log : Log)
      → Calm p h (Before p h o) (Before-stable p h o) m
      → Before p h o log
      → Ends (Sound p h o) (λ a l. Before p h o l) (m log)
  first m log calm b = calmly p h o (Before p h o) (Before-stable p h o) m log Before→Sound calm b

  at {ℓ} :
      {A : Type ℓ} (r : Text) (m : Script Log A) (log : Log)
      → Calm p h (At p h o r) (At-stable p h o r) m
      → At p h o r log
      → Ends (Sound p h o) (λ a l. At p h o r l) (m log)
  at r m log calm b = calmly p h o (At p h o r) (At-stable p h o r) m log (At→Sound r) calm b

  read-At :
      (log : Log) (u : Text) → Before p h o log → At p h o (p.sha256 u) (was_read config u ∷ log)
  unfolding Before At reads_agree
  read-At log u (s, f) =
      (read_config-Sound p h o u log s, rw (==-refl (p.sha256 u)) (f (p.sha256 u)))

  reread-At :
      (log : Log) (r u : Text)
      → At p h o r log
      → p.sha256 u ≡ r
      → At p h o r (was_read config u ∷ log)
  unfolding At reads_agree
  reread-At log r u (s, f) e = (read_config-Sound p h o u log s, rw (e, ==-refl r) f)

  locked :
      (current : Text) (is_changed : Bool) (desired previous : Json) (r : Text) (live : Json)
      (log : Log)
      → At p h o r log
      → Ends
          (Sound p h o)
          (λ f l. At p h o f.revision l)
          ((read_lockfile h p
              >>= (λ lock. give (found p h current is_changed desired previous r live lock)))
            log)
  locked current is_changed desired previous r live log a =
      step p h o (λ lock l. At p h o r l) _ (read_lockfile h p log)
        (λ lock. give (found p h current is_changed desired previous r live lock))
        (at r (read_lockfile h p) log (read_lockfile-Calm p h (At p h o r) (At-stable p h o r)) a)
        λ lock l d.
          give-Ends (Sound p h o) (λ f l. At p h o f.revision l)
            (found p h current is_changed desired previous r live lock) l (At→Sound r l d) d

  -- The second reading of the configuration, behind the owned paths, has the revision of the first.
  survey_from :
      (current : Text) (is_changed : Bool) (desired previous : Json) (r : Text) (log : Log)
      → At p h o r log
      → Ends
          (Sound p h o)
          (λ f l. At p h o f.revision l)
          (surveyed p h current is_changed desired previous r log)
  unfolding surveyed
  survey_from current is_changed desired previous r log a =
      step p h o (λ live l. At p h o r l) _ (read_owned_config p h log) _
        (at r (read_owned_config p h) log
          (read_owned_config-Calm p h (At p h o r) (At-stable p h o r)) a)
        λ live l b.
          step p h o (λ again l. (again ≡ r → At p h o r l) × Sound p h o l) _
            (config_revision h p l) _
            (revision-Ends p h o (λ again l. (again ≡ r → At p h o r l) × Sound p h o l) l
              (At→Sound r l b)
              (λ u. (reread-At l r u b, read_config-Sound p h o u l (At→Sound r l b))))
            λ again l2 c.
              require_then (Sound p h o) (λ f l. At p h o f.revision l) (again == r) _
                (read_lockfile h p
                  >>= (λ lock. give (found p h current is_changed desired previous r live lock)))
                l2 c.1
                λ e.
                  locked current is_changed desired previous r live l2 (c.0 ((==_iff again r).0 e))

  pub survey-Ends :
      (log : Log)
      → Before p h o log
      → Ends (Sound p h o) (λ f l. At p h o f.revision l) (survey p h log)
  unfolding survey
  survey-Ends log b =
      step p h o (λ a l. Before p h o l) _ (catalog_digest p h log) _
        (first (catalog_digest p h) log
          (catalog_digest-Calm p h (Before p h o) (Before-stable p h o)) b)
        λ current l b.
          step p h o (λ a l. Before p h o l) _ (is_catalog_changed p h current l) _
            (first (is_catalog_changed p h current) l
              (is_catalog_changed-Calm p h (Before p h o) (Before-stable p h o) current) b)
            λ changed l b.
              step p h o (λ a l. Before p h o l) _ (merge_fragments p h l) _
                (first (merge_fragments p h) l
                  (merge_fragments-Calm p h (Before p h o) (Before-stable p h o)) b)
                λ desired l b.
                  step p h o (λ a l. Before p h o l) _ (previous_config p h l) _
                    (first (previous_config p h) l
                      (previous_config-Calm p h (Before p h o) (Before-stable p h o)) b)
                    λ previous l b.
                      step p h o (λ r l. At p h o r l) _ (config_revision h p l) _
                        (revision-Ends p h o (λ r l. At p h o r l) l (Before→Sound l b)
                          (λ u. read-At l u b))
                        λ r l a. survey_from current changed desired previous r l a
