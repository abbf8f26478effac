-- ===== src/Helper/Sound/Tables.antt =====
-- The dispatcher's invariant and its tables of receipts, in helper_service.py.
use nixos_control_manager.Prelude.Dict.{Dict, AllValues}
use nixos_control_manager.Protocol.Plans.{
  ValidatePlanPayload, ValidateHomeManagerPlanPayload, ValidateFlakeLockUpdatePayload,
}
use nixos_control_manager.Helper.State.{Dispatcher, World, Pending, PendingTestActivation}
use nixos_control_manager.Helper.Sanction.{
  IsPlanFor, IsHomePlanFor, IsManagedPlanFor, IsLockUpdateFor, Ready, ReadyTest, IsSound,
}

module _ (d : Dispatcher) {w : World} (h : IsSound d w) where
  pub with_plans :
      (table : Dict (Pending ValidatePlanPayload))
      → AllValues (Ready d (IsPlanFor d)) table
      → IsSound d (record w { pending = table })
  with_plans table new = record {
    plans = new;
    home_plans = h.home_plans;
    managed_plans = h.managed_plans;
    lock_updates = h.lock_updates;
    tests = h.tests;
    calls = h.calls;
  }

  pub with_home_plans :
      (table : Dict (Pending ValidateHomeManagerPlanPayload))
      → AllValues (Ready d (IsHomePlanFor d)) table
      → IsSound d (record w { pending_home_manager = table })
  with_home_plans table new = record {
    plans = h.plans;
    home_plans = new;
    managed_plans = h.managed_plans;
    lock_updates = h.lock_updates;
    tests = h.tests;
    calls = h.calls;
  }

  pub with_managed_plans :
      (table : Dict (Pending ValidatePlanPayload))
      → AllValues (Ready d (IsManagedPlanFor d)) table
      → IsSound d (record w { pending_managed = table })
  with_managed_plans table new = record {
    plans = h.plans;
    home_plans = h.home_plans;
    managed_plans = new;
    lock_updates = h.lock_updates;
    tests = h.tests;
    calls = h.calls;
  }

  pub with_lock_updates :
      (table : Dict (Pending ValidateFlakeLockUpdatePayload))
      → AllValues (Ready d (IsLockUpdateFor d)) table
      → IsSound d (record w { pending_flake_lock = table })
  with_lock_updates table new = record {
    plans = h.plans;
    home_plans = h.home_plans;
    managed_plans = h.managed_plans;
    lock_updates = new;
    tests = h.tests;
    calls = h.calls;
  }

  pub with_tests :
      (table : Dict (PendingTestActivation))
      → AllValues (ReadyTest d) table
      → IsSound d (record w { pending_tests = table })
  with_tests table new = record {
    plans = h.plans;
    home_plans = h.home_plans;
    managed_plans = h.managed_plans;
    lock_updates = h.lock_updates;
    tests = new;
    calls = h.calls;
  }
