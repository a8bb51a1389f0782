-- ===== src/Tests/Drivers.antt =====
-- The driver of kit-gatekeeper.ts on small inputs.
use gatekeeper_os.Kit.Driver.Order.{apply_in_order, Applicable}
use gatekeeper_os.Kit.Driver.Once.{decided_never_applied, applied_at_most_once}
use gatekeeper_os.Kit.Driver.Calm.{NotPending, applies}
use gatekeeper_os.Kit.Driver.{
  earlier_undecided, save_then_retire, save_then_throw, apply_begun, apply_called, retire,
  save_record, get_record, operate, rejected, apply_recorded, operate_all, with_status, Driver,
  Host, ActionRecord, pending, apply_action,
}
use gatekeeper_os.Prelude.{refl, ◌⊎◌, ◌≡◌, ◌≤◌, some, ℕ, true, none, [], ◌∷◌}
use gatekeeper_os.Tests.Samples.{sample_description}

abbrev waiting_record : ℕ → ActionRecord
waiting_record n = record {
  id = n;
  tool = "gk_fs_directory_write";
  params = "{}";
  description = sample_description;
  status = pending;
  call_key = none;
  remote_id = none;
}

abbrev waiting_driver : Driver
waiting_driver = record {
  records = waiting_record 1 ∷ waiting_record 2 ∷ [];
  overlay = [];
  effects = [];
}

abbrev ready_host : Host
ready_host = record {
  writes = λ d r. true;
  retires = λ d n. true;
  is_implemented = λ tool. true;
  has_revert = λ tool. true;
  apply = λ d r. some none;
  revert = λ d r. true;
}

abbrev throwing_host : Host
throwing_host = record ready_host { apply = λ d r. none }

applied_run :
    (operate_all
      (apply_action throwing_host 1 ∷ apply_action ready_host 1 ∷ [])
      waiting_driver).effects
    ≡ apply_called 1 ∷ []
unfolding operate_all operate apply_recorded get_record save_record retire apply_begun
    save_then_throw save_then_retire
applied_run = refl

ordered_run : (apply_recorded ready_host waiting_driver 2).1 ≡ some earlier_undecided
unfolding apply_recorded get_record save_record retire apply_begun save_then_throw save_then_retire
ordered_run = refl

applied_at_most_once_example :
    applies 1
      (operate_all (apply_action throwing_host 1 ∷ apply_action ready_host 1 ∷ []) waiting_driver)
    ≤ 1
applied_at_most_once_example =
    applied_at_most_once 1 (apply_action throwing_host 1 ∷ apply_action ready_host 1 ∷ [])
      waiting_driver refl

abbrev rejected_driver : Driver
rejected_driver = record waiting_driver {
  records = with_status rejected (waiting_record 1) ∷ waiting_record 2 ∷ [];
}

rejected_driver-NotPending : NotPending 1 rejected_driver
rejected_driver-NotPending = (λ same waits. cc waits, (λ same waits. cc same, tt))

decided_never_applied_example :
    applies 1 (operate_all (apply_action ready_host 1 ∷ []) rejected_driver)
    ≡ applies 1 rejected_driver
decided_never_applied_example =
    decided_never_applied 1 (apply_action ready_host 1 ∷ []) rejected_driver
      rejected_driver-NotPending

apply_in_order_example :
    ((apply_recorded ready_host waiting_driver 1).0.effects ≡ [])
    ⊎ ((r : ActionRecord) × (get_record waiting_driver 1 ≡ some r)
        × Applicable ready_host waiting_driver r
        × ((apply_recorded ready_host waiting_driver 1).0.effects ≡ apply_called r.id ∷ []))
apply_in_order_example = apply_in_order ready_host waiting_driver 1
