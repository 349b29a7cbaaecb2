-- ===== src/Lock.antt =====
-- The locks of apc_lock.c and apc_mutex.c. The calls of the system and PHP's handling of
-- interruptions are parameters: `Pthread`, `FileLock` and `Interruptions`.
pub mod Balance
pub mod Spin
use apcu.Prelude.{
  ℕ, zero, suc, Bool, true, false, Option, none, some, ◌==◌, ◌&&◌, if◌then◌else◌, ◌>>=◌,
}

-- `HANDLE_BLOCK_INTERRUPTIONS`, `HANDLE_UNBLOCK_INTERRUPTIONS` and `apc_warning` in a process
pub record Interruptions (P : Type 0) : Type 0 where
  pub block : P → P
  pub unblock : P → P
  pub warning : P → P

-- one implementation of the functions that depend on the system: whether they succeed, and the lock
pub record LockImpl (L : Type 0) : Type 0 where
  pub rlock_impl : L → Bool × L
  pub wlock_impl : L → Bool × L
  runlock : L → Bool × L
  wunlock : L → Bool × L

-- The functions of a read/write lock, and those of a mutex, with the code that they return: 0 for
-- success. `unlock` leaves the lock whatever its code is.
pub record Pthread (L : Type 0) : Type 0 where
  pub rwlock_rdlock : L → ℕ × L
  pub rwlock_wrlock : L → ℕ × L
  pub rwlock_unlock : L → L
  pub mutex_lock : L → ℕ × L
  pub mutex_unlock : L → L

module _ {L : Type 0} where
  -- a build with `APC_NATIVE_RWLOCK`
  unfoldable pub native_rwlock : Pthread L → LockImpl L
  native_rwlock sys = record {
    rlock_impl = λ l. ((sys.rwlock_rdlock l).0 == 0, (sys.rwlock_rdlock l).1);
    wlock_impl = λ l. ((sys.rwlock_wrlock l).0 == 0, (sys.rwlock_wrlock l).1);
    runlock = λ l. (true, sys.rwlock_unlock l);
    wunlock = λ l. (true, sys.rwlock_unlock l);
  }

  -- one with `APC_LOCK_RECURSIVE`: readers exclude each other too
  unfoldable recursive_mutex : Pthread L → LockImpl L
  recursive_mutex sys = record {
    rlock_impl = λ l. ((sys.mutex_lock l).0 == 0, (sys.mutex_lock l).1);
    wlock_impl = λ l. ((sys.mutex_lock l).0 == 0, (sys.mutex_lock l).1);
    runlock = λ l. (true, sys.mutex_unlock l);
    wunlock = λ l. (true, sys.mutex_unlock l);
  }

-- the types of lock that `fcntl` takes
data LockType : Type 0 where
  f_rdlck : LockType
  f_wrlck : LockType
  f_unlck : LockType

-- what it answers: success, a failure with `EINTR`, or another one
data Fcntl : Type 0 where
  ret : ℕ → Fcntl
  eintr : Fcntl
  failure : Fcntl

-- `apc_fcntl_call`: the call is repeated while it is interrupted. `none` is one that was interrupted
-- at each of the tries.
unfoldable fcntl_call :
    {L : Type 0} → (LockType → L → Fcntl × L) → (tries : ℕ) → LockType → L → Option (Fcntl × L)
fcntl_call fcntl zero type l = none
fcntl_call fcntl (suc tries) type l =
    let r = fcntl type l in
    let again = fcntl_call fcntl tries type r.1 in
    elim r.0 [ ret n ↦ some (ret n, r.1) | eintr ↦ again | failure ↦ some (failure, r.1) ]

-- `apc_lock_rlock_impl` and the other functions of a file lock: they answer 1 in any case.
unfoldable file_lock :
    {L : Type 0} → (LockType → L → Fcntl × L) → (tries : ℕ) → LockType → L → Option (Bool × L)
unfolding fcntl_call
file_lock fcntl tries type l = fcntl_call fcntl tries type l >>= λ (r : Fcntl × _). some (true, r.1)

module _ {P L : Type 0} (php : Interruptions P) (impl : LockImpl L) where
  -- `apc_lock_wlock`, `apc_lock_rlock`, or `apc_mutex_lock`, with the step that takes the lock
  pub take_lock : (L → Bool × L) → P → L → Bool × (P × L)
  take_lock lock p l =
      let r = lock l in
      if r.0
      then (true, (php.block p, r.1))
      else (false, (php.warning (php.unblock (php.block p)), r.1))

  pub lock_wlock : P → L → Bool × (P × L)
  unfolding take_lock
  lock_wlock = take_lock impl.wlock_impl

  pub lock_rlock : P → L → Bool × (P × L)
  unfolding take_lock
  lock_rlock = take_lock impl.rlock_impl

  -- `WUNLOCK`, `RUNLOCK`
  pub wunlock_macro : P → L → P × L
  wunlock_macro p l = (php.unblock p, (impl.wunlock l).1)

  pub runlock_macro : P → L → P × L
  runlock_macro p l = (php.unblock p, (impl.runlock l).1)

module _ {P L : Type 0} (php : Interruptions P) (sys : Pthread L) where
  pub apc_mutex_lock : P → L → Bool × (P × L)
  apc_mutex_lock p l =
      let r = sys.mutex_lock l in
      if r.0 == 0
      then (true, (php.block p, r.1))
      else (false, (php.warning (php.unblock (php.block p)), r.1))

  pub apc_mutex_unlock : P → L → Bool × (P × L)
  apc_mutex_unlock p l = (true, (php.unblock p, sys.mutex_unlock l))

-- The attributes of the locks of a process: `apc_lock_init`, where two calls set them up, whether
-- these succeed being inputs, and `apc_lock_cleanup`. Those of apc_mutex.c are the same. The answer of
-- the first, whether the second destroys the attributes, and `apc_lock_ready`.
unfoldable lock_init : (attr_init setpshared ready : Bool) → Bool × Bool
lock_init attr_init setpshared ready =
    if ready then (true, true) else (attr_init && setpshared, true)

unfoldable lock_cleanup : (ready : Bool) → Bool × Bool
lock_cleanup ready = if ready then (true, false) else (false, false)
