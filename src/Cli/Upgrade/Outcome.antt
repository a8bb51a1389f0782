-- ===== src/Cli/Upgrade/Outcome.antt =====
-- How the try block of rollback ends, with its catch clause.
use gatekeeper_os.Cli.Upgrade.Restore.{restore_runtime}
use gatekeeper_os.Prelude.{
  ◌==◌, List, ◌∷◌, true, false, Bool, if◌then◌else◌, ltb, ◌≡◌, ◌⊎◌, refl, Bool-cases, inl, inr,
  nat_eq,
}
use gatekeeper_os.Cli.Update.{
  UpdateState, UpdateJournal, blocked, rolled_back, rolling_back, recovery_required,
}
use gatekeeper_os.Cli.Script.{Ending, ◌>>◌, continue, returned, threw}
use gatekeeper_os.Cli.Upgrade.Machine.{
  Host, Platform, Upgrade, Steps, Event, saved, printed, save, print,
}
use gatekeeper_os.Cli.Upgrade.Rollback.{
  restart_if_stopped, in_state, cancel_update, recover, fail_in, catch_early, catch_late,
  readmit_if, try_rollback, recover_after, prepare_if, is_committed,
}

-- The journal was saved, and the report printed.
abbrev pub IsReported : UpdateState → Upgrade → Type 0
IsReported state u =
    ((rest : List Event) × (u.log ≡ printed ∷ saved u.journal true ∷ rest))
    × (u.journal.state ≡ state)

-- The journal is in a state, and saving it was the last thing tried.
abbrev pub IsLeftIn : UpdateState → Upgrade → Type 0
IsLeftIn state u =
    ((b : Bool) × ((rest : List Event) × (u.log ≡ saved u.journal b ∷ rest)))
    × (u.journal.state ≡ state)

-- A return, which is one with a report of the state.
abbrev Reports : UpdateState → Ending Upgrade (Unit {0}) → Type 0
Reports state (returned a u) = IsReported state u
Reports state (threw e u) = Unit

-- A throw, which leaves the journal in the state.
abbrev Fails : UpdateState → Ending Upgrade (Unit {0}) → Type 0
Fails state (returned a u) = ⊥
Fails state (threw e u) = IsLeftIn state u

-- What a rollback of a journal may leave.
abbrev pub final_state : UpdateJournal → UpdateState
final_state j = if ltb j.step 7 then blocked else rolled_back

abbrev pub EndsWell : UpdateJournal → Ending Upgrade (Unit {0}) → Type 0
EndsWell j (returned a u) = IsReported (final_state j) u
EndsWell j (threw e u) =
    IsLeftIn j.state u ⊎ ((ltb j.step 7 ≡ false) × IsLeftIn recovery_required u)

module _ (p : Platform) (h : Host) where
  closing-Reports :
      (state : UpdateState) (u : Upgrade)
      → Reports state ((in_state state >> (save h >> print h)) u)
  closing-Reports state u = elim (Bool-cases (h.saves u.log)) [
    | inl e ↦ rw e ((u.log, refl), refl)
    | inr e ↦ rw e tt
  ]

  continue-Reports {ℓ} :
      {A : Type ℓ} (state : UpdateState) (m : Ending Upgrade A) (k : A → Steps (Unit {0}))
      → ((a : A) (u : Upgrade) → Reports state (k a u))
      → Reports state (continue m k)
  continue-Reports state (returned a u) k f = f a u
  continue-Reports state (threw e u) k f = tt

  cancel_update-Reports : (u : Upgrade) → Reports blocked (cancel_update p h u)
  unfolding cancel_update
  cancel_update-Reports u =
      continue-Reports blocked (restart_if_stopped p h (u.journal.step == 6) u) _
        (λ a v. closing-Reports blocked v)

  recover-Reports : (u : Upgrade) → Reports rolled_back (recover p h u)
  unfolding recover
  recover-Reports u =
      continue-Reports rolled_back
        (save h (record u { journal = record u.journal { state = rolling_back } })) _
        λ a v.
          continue-Reports rolled_back (restore_runtime p h v) _
            (λ a w. closing-Reports rolled_back w)

  fail_in-Fails : (state : UpdateState) (u : Upgrade) → Fails state (fail_in p h state u)
  fail_in-Fails state u = elim (Bool-cases (h.saves u.log)) [
    | inl e ↦ rw e ((true, (u.log, refl)), refl)
    | inr e ↦ rw e ((false, (u.log, refl)), refl)
  ]

  -- A failure before the recovery has started.
  early :
      (u : Upgrade) (o : Ending Upgrade (Unit {0})) → Fails u.journal.state o → EndsWell u.journal o
  early u (returned a v) f = elim f [ ]
  early u (threw e v) f = inl f

  late :
      (u : Upgrade) (o : Ending Upgrade (Unit {0}))
      → ltb u.journal.step 7 ≡ false
      → Fails recovery_required o
      → EndsWell u.journal o
  late u (returned a v) e f = elim f [ ]
  late u (threw x v) e f = inr (e, f)

  catch_early-EndsWell :
      (u : Upgrade) (o : Ending Upgrade (Unit {0}))
      → Reports (final_state u.journal) o
      → EndsWell u.journal (catch_early p h u.journal.state o)
  catch_early-EndsWell u (returned a v) r = r
  catch_early-EndsWell u (threw e v) r =
      let w = readmit_if p h (is_committed u.journal.state) v in
      early u (fail_in p h u.journal.state w) (fail_in-Fails u.journal.state w)

  catch_late-EndsWell :
      (u : Upgrade) (o : Ending Upgrade (Unit {0}))
      → ltb u.journal.step 7 ≡ false
      → Reports (final_state u.journal) o
      → EndsWell u.journal (catch_late p h o)
  catch_late-EndsWell u (returned a v) e r = r
  catch_late-EndsWell u (threw x v) e r =
      late u (fail_in p h recovery_required v) e (fail_in-Fails recovery_required v)

  recover_after-EndsWell :
      (u : Upgrade) (o : Ending Upgrade (Unit {0}))
      → ltb u.journal.step 7 ≡ false
      → EndsWell u.journal (recover_after p h u.journal.state o)
  recover_after-EndsWell u (returned a v) e =
      catch_late-EndsWell u (recover p h v) e (rw e (recover-Reports v))
  recover_after-EndsWell u (threw x v) e = catch_early-EndsWell u (threw x v) tt

  cancelled :
      (u : Upgrade)
      → ltb u.journal.step 7 ≡ true
      → EndsWell u.journal (catch_early p h u.journal.state (cancel_update p h u))
  cancelled u e = catch_early-EndsWell u (cancel_update p h u) (rw e (cancel_update-Reports u))

  -- Whatever the host does once rollback holds the process guard: where its try block returns, the
  -- journal was saved and the report printed, as blocked where nothing was activated, before step
  -- seven, and else as rolled back; where it throws, saving the journal was tried last, in the state
  -- that was found, or as one that requires recovery, which is possible only from step seven on.
  pub try_rollback-EndsWell : (u : Upgrade) → EndsWell u.journal (try_rollback p h u)
  unfolding try_rollback
  try_rollback-EndsWell u = elim (Bool-cases (ltb u.journal.step 7)) [
    | inl e ↦ rw e (cancelled u e)
    | inr e ↦ rw e (recover_after-EndsWell u (prepare_if p h (is_committed u.journal.state) u) e)
  ]
