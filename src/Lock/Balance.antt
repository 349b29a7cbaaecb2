-- ===== src/Lock/Balance.antt =====
-- A process blocks interruptions while it holds a lock, and at no other time.
use apcu.Prelude.{◌≡◌, refl, ap, Bool, true, false, ◌==◌, if◌then◌else◌}
use apcu.Lock.{
  Interruptions, LockImpl, Pthread, take_lock, lock_wlock, lock_rlock, wunlock_macro, runlock_macro,
  apc_mutex_lock, apc_mutex_unlock,
}

-- what a process is after a lock was taken and, if it was granted, released
pub released : {P L : Type 0} → (P → L → P) → Bool × (P × L) → P
released unlock r = if r.0 then unlock r.1.0 r.1.1 else r.1.0

-- Where unblocking interruptions undoes blocking them: after an attempt at the write lock, the read
-- lock or the mutex, and the release of what was granted, a process is as it was before, but for a
-- warning where the lock was refused; and the answer is that of the system.
pub lock-balances :
    {P L : Type 0} (php : Interruptions P) (impl : LockImpl L) (sys : Pthread L) (p : P) (l : L)
    → ((q : P) → php.unblock (php.block q) ≡ q)
    → ((lock_wlock php impl p l).0 ≡ (impl.wlock_impl l).0)
      × (released (λ q m. (wunlock_macro php impl q m).0) (lock_wlock php impl p l)
          ≡ (if (impl.wlock_impl l).0 then p else php.warning p))
      × ((lock_rlock php impl p l).0 ≡ (impl.rlock_impl l).0)
      × (released (λ q m. (runlock_macro php impl q m).0) (lock_rlock php impl p l)
          ≡ (if (impl.rlock_impl l).0 then p else php.warning p))
      × ((apc_mutex_lock php sys p l).0 ≡ ((sys.mutex_lock l).0 == 0))
      × (released (λ q m. (apc_mutex_unlock php sys q m).1.0) (apc_mutex_lock php sys p l)
          ≡ (if (sys.mutex_lock l).0 == 0 then p else php.warning p))
unfolding released lock_wlock lock_rlock take_lock wunlock_macro runlock_macro apc_mutex_lock
    apc_mutex_unlock
lock-balances {P} {L} php impl sys p l undo = (
  answer (impl.wlock_impl l).0 (impl.wlock_impl l).1,
  process (impl.wlock_impl l).0 (impl.wlock_impl l).1,
  answer (impl.rlock_impl l).0 (impl.rlock_impl l).1,
  process (impl.rlock_impl l).0 (impl.rlock_impl l).1,
  answer ((sys.mutex_lock l).0 == 0) (sys.mutex_lock l).1,
  process ((sys.mutex_lock l).0 == 0) (sys.mutex_lock l).1,
)
  where
    taken : Bool → L → Bool × (P × L)
    taken b m =
        if b
        then (true, (php.block p, m))
        else (false, (php.warning (php.unblock (php.block p)), m))

    answer : (b : Bool) (m : L) → (taken b m).0 ≡ b
    answer true m = refl
    answer false m = refl

    process :
        (b : Bool) (m : L)
        → released {L = L} (λ q n. php.unblock q) (taken b m) ≡ (if b then p else php.warning p)
    process true m = undo p
    process false m = ap php.warning (undo p)
