-- ===== src/Tests/Sequences.antt =====
-- The ids of action-sequencer.ts on small inputs.
use gatekeeper_os.Kit.Sequencer.Laws.{ids_of-IncreasingFrom, on_path, IncreasingFrom}
use gatekeeper_os.Kit.Sequencer.{
  load, reopen, next_id_of, ids_of, absent, written, failed_in_place, reserve, restart, Event,
}
use gatekeeper_os.Prelude.{refl, ◌≡◌, List, [], ◌∷◌}

abbrev restarted : List Event
restarted = reserve written ∷ reserve failed_in_place ∷ restart 1 ∷ reserve written ∷ []

restarted_run : ids_of 9007199254740991 restarted (on_path 1 absent) ≡ 1 ∷ 3 ∷ []
unfolding ids_of next_id_of reopen load
restarted_run = refl

ids_of-IncreasingFrom_example :
    IncreasingFrom 0 (ids_of 9007199254740991 restarted (on_path 1 absent))
ids_of-IncreasingFrom_example = ids_of-IncreasingFrom 9007199254740991 restarted 1 absent
