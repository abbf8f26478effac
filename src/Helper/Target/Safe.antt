-- ===== src/Helper/Target/Safe.antt =====
-- What the checks of `HelperTarget` in helper_service.py are to ensure.
use nixos_control_manager.Prelude.{
  String, Bool, true, false, ◌≡◌, ◌≤◌, arith, is_some, All, All-of_all,
}
use nixos_control_manager.Format.{is_target_id}
use nixos_control_manager.Protocol.{
  ok, ◌>>=◌, Ensures, returns, Ensures-eq_ok, Ensures-self, known, step,
}
use nixos_control_manager.Helper.Target.{
  PathLookup, HelperTarget, Target, check, check_test, check_home_manager, check_managed,
  check_permanent, check_flake_lock, make_target, home_manager_paths, same_set, resolve_paths,
  managed_paths, outside?, three_distinct, plain,
}

-- The rights of a target, by its flags.
pub record IsSafeTarget (t : Target) : Type 0 where
  pub named : is_target_id t.target_id ≡ true
  pub live_applies_nothing : t.fixture_only ≡ false → t.apply_enabled ≡ false
  pub test_is_live :
      t.test_activation_enabled ≡ true
      → (t.fixture_only ≡ false) × (t.apply_enabled ≡ false) × (is_some t.test_journal_root ≡ true)
  pub home_manager_is_separate :
      t.home_manager_apply_enabled ≡ true
      → (t.fixture_only ≡ false)
        × (t.apply_enabled ≡ false)
        × (t.test_activation_enabled ≡ false)
        × (t.managed_write_enabled ≡ false)
        × (home_manager_paths t.home_manager_root t.home_manager_journal_root ≡ true)
  pub managed_is_separate :
      t.managed_write_enabled ≡ true
      → (t.fixture_only ≡ false)
        × (t.apply_enabled ≡ false)
        × (is_some t.managed_journal_root ≡ true)
        × (same_set t.allowed_relative_paths managed_paths ≡ true)
        × (outside? t.managed_journal_root t.configuration_root ≡ true)
  pub permanent_is_combined :
      t.permanent_switch_enabled ≡ true
      → (t.test_activation_enabled ≡ true) × (t.managed_write_enabled ≡ true)
  pub flake_lock_is_controlled :
      t.flake_lock_write_enabled ≡ true
      → (t.permanent_switch_enabled ≡ true)
        × (is_some t.flake_target ≡ true)
        × (three_distinct t.flake_lock_journal_root t.managed_journal_root t.test_journal_root
            ≡ true)
        × (outside? t.flake_lock_journal_root t.configuration_root ≡ true)
  pub timeout_at_least : 30 ≤ t.test_timeout_seconds
  pub timeout_at_most : t.test_timeout_seconds ≤ 1800
  pub plain_paths : All (λ label. plain label ≡ true) t.allowed_relative_paths

module _ (t : Target) {u : Unit {0}} where
  check_test_rules :
      check_test t ≡ ok u
      → t.test_activation_enabled ≡ true
      → (t.fixture_only ≡ false) × (t.apply_enabled ≡ false) × (is_some t.test_journal_root ≡ true)
  unfolding check_test check ◌>>=◌
  check_test_rules h e = ground arith

  check_home_manager_rules :
      check_home_manager t ≡ ok u
      → t.home_manager_apply_enabled ≡ true
      → (t.fixture_only ≡ false)
        × (t.apply_enabled ≡ false)
        × (t.test_activation_enabled ≡ false)
        × (home_manager_paths t.home_manager_root t.home_manager_journal_root ≡ true)
  unfolding check_home_manager check ◌>>=◌
  check_home_manager_rules h e = ground arith

  check_managed_rules :
      check_managed t ≡ ok u
      → t.managed_write_enabled ≡ true
      → (t.fixture_only ≡ false)
        × (t.apply_enabled ≡ false)
        × (t.home_manager_apply_enabled ≡ false)
        × (is_some t.managed_journal_root ≡ true)
        × (same_set t.allowed_relative_paths managed_paths ≡ true)
        × (outside? t.managed_journal_root t.configuration_root ≡ true)
  unfolding check_managed check ◌>>=◌
  check_managed_rules h e = ground arith

  check_permanent_rules :
      check_permanent t ≡ ok u
      → t.permanent_switch_enabled ≡ true
      → (t.test_activation_enabled ≡ true) × (t.managed_write_enabled ≡ true)
  unfolding check_permanent check ◌>>=◌
  check_permanent_rules h e = ground arith

  check_flake_lock_rules :
      check_flake_lock t ≡ ok u
      → t.flake_lock_write_enabled ≡ true
      → (t.permanent_switch_enabled ≡ true)
        × (is_some t.flake_target ≡ true)
        × (three_distinct t.flake_lock_journal_root t.managed_journal_root t.test_journal_root
            ≡ true)
        × (outside? t.flake_lock_journal_root t.configuration_root ≡ true)
  unfolding check_flake_lock check ◌>>=◌
  check_flake_lock_rules h e = ground arith

check-eq_ok : (b : Bool) {u : Unit {0}} → check b ≡ ok u → b ≡ true
unfolding check
check-eq_ok b h = ground arith

module _ (fs : PathLookup) where
  make_target-Ensures : (raw : HelperTarget String) → Ensures IsSafeTarget (make_target fs raw)
  unfolding make_target
  make_target-Ensures raw =
      let t = resolve_paths fs raw in
      known _ _ (Ensures-self _) λ _ named. step _ _ λ _. step _ _ λ _. step _ _ λ _. step _ _ λ _.
        step _ _ λ _. known _ _ (Ensures-self _) λ _ live. known _ _ (Ensures-self _) λ _ test.
          known _ _ (Ensures-self _) λ _ home. known _ _ (Ensures-self _) λ _ managed.
            known _ _ (Ensures-self _) λ _ permanent. known _ _ (Ensures-self _) λ _ lock.
              known _ _ (Ensures-self _) λ _ timeout. known _ _ (Ensures-self _) λ _ labels.
                returns (record {
                  named = check-eq_ok _ named;
                  live_applies_nothing = λ e. ground (arith, check-eq_ok _ live);
                  test_is_live = check_test_rules t test;
                  home_manager_is_separate = λ e.
                      let (a, b, c, d) = check_home_manager_rules t home e in
                      (a, b, c, ground (arith, check_managed_rules t managed), d);
                  managed_is_separate = λ e.
                      let (a, b, _, c, d, f) = check_managed_rules t managed e in (a, b, c, d, f);
                  permanent_is_combined = check_permanent_rules t permanent;
                  flake_lock_is_controlled = check_flake_lock_rules t lock;
                  timeout_at_least = ground (arith, check-eq_ok _ timeout);
                  timeout_at_most = ground (arith, check-eq_ok _ timeout);
                  plain_paths = All-of_all plain t.allowed_relative_paths (check-eq_ok _ labels);
                })

  -- A target that `__post_init__` accepts keeps the safety modes apart: a live target never
  -- applies plans; test activation needs a live target and a journal; live Home Manager writes
  -- exclude test activation and managed writes; managed writes are limited to the two files of
  -- NCM and journal outside the root; permanent switching needs both test and managed mode;
  -- flake.lock writes need permanent switching and three distinct journals; the timeout lies
  -- between 30 and 1800, and every allowed path is a plain label.
  pub make_target-IsSafeTarget :
      (raw : HelperTarget String) {t : Target} → make_target fs raw ≡ ok t → IsSafeTarget t
  make_target-IsSafeTarget raw e = Ensures-eq_ok IsSafeTarget (make_target-Ensures raw) e
