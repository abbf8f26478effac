-- ===== src/Transaction/Quiet.antt =====
-- The steps of transaction.py that only look, or take and release the lock.
use nixos_control_manager.Prelude.{ℕ, suc, String, Bool, true, false}
use nixos_control_manager.Transaction.Errors.{Failure}
use nixos_control_manager.Transaction.State.{World}
use nixos_control_manager.Transaction.Host.{Host}
use nixos_control_manager.Transaction.Exec.{Exec, require, ◌>>◌, gets, perform}
use nixos_control_manager.Transaction.Disk.{
  read_text, unchanged, safe_target, acquire_lock, release_lock, target_digest,
}
use nixos_control_manager.Transaction.Triple.{
  Triple, Triple-raise, Triple-check, Triple-modify, Triple-perform, Triple-catch, Triple-finally,
  Triple-then,
}

-- What depends neither on the number of calls so far nor on the lock.
pub record Quiet (P : World → Type 0) : Type 0 where
  pub quiet :
      (n : ℕ) (locked : Bool) (w : World) → P w → P (record w { clock = n; is_locked = locked })

module _ (h : Host) (P E : World → Type 0) (q : Quiet P) (r : Quiet E)
    (weaker : (w : World) → P w → E w) where
  abbrev pub Looks : {T : Type 0} → Exec T → Type 0
  Looks m = Triple P (λ _. P) E m

  pub Looks-then : {T U : Type 0} (m : Exec T) (n : Exec U) → Looks m → Looks n → Looks (m >> n)
  Looks-then m n a b = Triple-then P m n a b

  pub Looks-unchanged : Looks (perform h unchanged unchanged)
  Looks-unchanged =
      Triple-perform h _ _ (λ w p. weaker _ (q.quiet (suc w.clock) w.is_locked w p))
        (λ w p. weaker _ (q.quiet (suc w.clock) w.is_locked w p))
        (λ w p. weaker _ (q.quiet (suc w.clock) w.is_locked w p))
        (λ w p. q.quiet (suc w.clock) w.is_locked w p)

  pub Looks-require : (t : Bool) (e : Failure) → Looks (require t e)
  Looks-require t e = Triple-check t e weaker (λ _ w p. p)

  pub Looks-safe_target : (p : String) → Looks (safe_target h p)
  unfolding safe_target
  Looks-safe_target p = Looks-then _ _ (Looks-require _ _) (Looks-require _ _)

  pub Looks-target_digest : (p : String) → Looks (target_digest h p)
  unfolding target_digest gets
  Looks-target_digest p = Looks-then _ _ Looks-unchanged (record { at = λ w p. p })

  pub Looks-acquire_lock : Looks (acquire_lock h)
  unfolding acquire_lock
  Looks-acquire_lock =
      Looks-then _ _
        (Looks-then _ _ (Looks-then _ _ Looks-unchanged (Looks-require _ _)) Looks-unchanged)
        (Triple-catch {E = E} _ _
          (Triple-perform h _ _ (λ w p. weaker _ (q.quiet (suc w.clock) w.is_locked w p))
            (λ w p. weaker _ (q.quiet (suc w.clock) w.is_locked w p))
            (λ w p. weaker _ (q.quiet (suc w.clock) true w p))
            (λ w p. q.quiet (suc w.clock) true w p))
          (λ w p. p) (λ _. Triple-raise _ (λ w p. p)))

  pub Looks-release_lock : Looks (release_lock h)
  unfolding release_lock
  Looks-release_lock =
      Triple-finally {E = E} _ _ Looks-unchanged (λ w p. p)
        (λ _. Triple-modify _ (λ w p. q.quiet w.clock false w p))
        (Triple-modify _ (λ w p. r.quiet w.clock false w p))

  pub Looks-read_text : Looks (read_text h)
  unfolding read_text
  Looks-read_text =
      Triple-catch {E = E} _ _ Looks-unchanged (λ w p. p) (λ _. Triple-raise _ (λ w p. p))
